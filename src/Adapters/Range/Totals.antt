-- ===== src/Adapters/Range/Totals.antt =====
-- `AggregateRangeResult` of pkg/adapters/prometheus.go against the sums it promises: one row for a
-- timestamp, of the values that the series have there.
use kedastral.Base.{
  ◌≡◌, refl, sym, subst, ◌∙◌, inl, inr, Bool-cases, true, Option, none, some, List, [], ◌∷◌, ◌++◌,
  arith, if◌then◌else◌,
}
use kedastral.Base.Int.{ℤ, eqb_ℤ}
use kedastral.Base.Buckets.{Buckets, find_bucket, find_bucket-set_bucket}
use kedastral.Base.Result.{Result, ok, err, ◌>>=◌, >>=-cong, >>=_assoc}
use kedastral.Float64.{Float64, int_lit}
use kedastral.Adapters.Range.{
  Item, RangeError, Serie, Numbers, read_pair, entry_or_zero, add_point, add_pairs, add_series,
  aggregate_range_result,
}

eqb_ℤ→eq : (i j : ℤ) → eqb_ℤ i j ≡ true → i ≡ j
eqb_ℤ→eq i j h = ground arith

module _ {ℓ} {F : Type ℓ} where
  abbrev pub pairs_of : List (Serie F) → List (List (Item F))
  pairs_of [] = []
  pairs_of (s ∷ series) = s.values ++ pairs_of series

  -- The values at timestamp `t`, in order.
  abbrev pub values_at : ℤ → List (ℤ × F) → List F
  values_at t [] = []
  values_at t ((ts, val) ∷ points) =
      if eqb_ℤ ts t then val ∷ values_at t points else values_at t points

module _ {ℓ} {F : Type ℓ} ⦃fl : Float64 F⦄ where
  abbrev add_all : F → List F → F
  add_all x [] = x
  add_all x (v ∷ vs) = add_all (fl.add x v) vs

  -- The sum of at least one value.
  abbrev pub sum_values : List F → Option F
  sum_values [] = none
  sum_values (v ∷ vs) = some (add_all (fl.add (int_lit 0) v) vs)

  abbrev add_to : Option F → List F → Option F
  add_to none vs = sum_values vs
  add_to (some x) vs = some (add_all x vs)

  -- An unreadable answer is an error, and the entry of a readable one at `t` is the sum there.
  abbrev pub IsAggregate :
      ℤ → Result RangeError (List (ℤ × F)) → Result RangeError (Buckets F) → Type ℓ
  IsAggregate t (err e) r = r ≡ err e
  IsAggregate t (ok points) r =
      (rows : Buckets F) × (r ≡ ok rows) × (find_bucket t rows ≡ sum_values (values_at t points))

  unfoldable accumulate : List (ℤ × F) → Buckets F → Buckets F
  accumulate [] acc = acc
  accumulate (p ∷ points) acc = accumulate points (add_point p acc)

  add_to_nil : (o : Option F) → o ≡ add_to o []
  add_to_nil none = refl
  add_to_nil (some x) = refl

  add_to-entry :
      (old : Option F) (val : F) (vs : List F)
      → add_to (some (fl.add (entry_or_zero old) val)) vs ≡ add_to old (val ∷ vs)
  add_to-entry none val vs = refl
  add_to-entry (some x) val vs = refl

  add_to-add_point :
      (t ts : ℤ) (val : F) (acc : Buckets F) (vs : List F)
      → add_to (find_bucket t (add_point (ts, val) acc)) vs
        ≡ add_to (find_bucket t acc) (if eqb_ℤ ts t then val ∷ vs else vs)
  unfolding add_point
  add_to-add_point t ts val acc vs =
      rw (find_bucket-set_bucket ts t (fl.add (entry_or_zero (find_bucket ts acc)) val) acc)
        (elim (Bool-cases (eqb_ℤ ts t)) [
          | inl h ↦ rw h (rw (eqb_ℤ→eq ts t h) (add_to-entry (find_bucket t acc) val vs))
          | inr h ↦ rw h refl
        ])

  find_bucket-accumulate :
      (t : ℤ) (points : List (ℤ × F)) (acc : Buckets F)
      → find_bucket t (accumulate points acc) ≡ add_to (find_bucket t acc) (values_at t points)
  unfolding accumulate
  find_bucket-accumulate t [] acc = add_to_nil (find_bucket t acc)
  find_bucket-accumulate t ((ts, val) ∷ points) acc =
      find_bucket-accumulate t points (add_point (ts, val) acc)
      ∙ add_to-add_point t ts val acc (values_at t points)

  module _ (numbers : Numbers F) where
    -- The points of all pairs, or the error of the first pair that has none.
    abbrev pub read_all : List (List (Item F)) → Result RangeError (List (ℤ × F))
    read_all [] = ok []
    read_all (pair ∷ pairs) =
        read_pair numbers pair
        >>= (λ (p : ℤ × F). read_all pairs >>= (λ (ps : List (ℤ × F)). ok (p ∷ ps)))

    add_pairs-read_all :
        (pairs : List (List (Item F))) (acc : Buckets F)
        → add_pairs numbers pairs acc
          ≡ (read_all pairs >>= (λ (ps : List (ℤ × F)). ok (accumulate ps acc)))
    unfolding add_pairs accumulate
    add_pairs-read_all [] acc = refl
    add_pairs-read_all (pair ∷ pairs) acc =
        >>=-cong (read_pair numbers pair) _ _ (λ (p : ℤ × F).
          add_pairs-read_all pairs (add_point p acc) ∙ sym (>>=_assoc (read_all pairs) _ _))
        ∙ sym (>>=_assoc (read_pair numbers pair) _ _)

    add_pairs-++ :
        (xs ys : List (List (Item F))) (acc : Buckets F)
        → add_pairs numbers (xs ++ ys) acc
          ≡ (add_pairs numbers xs acc >>= (λ (next : Buckets F). add_pairs numbers ys next))
    unfolding add_pairs
    add_pairs-++ [] ys acc = refl
    add_pairs-++ (x ∷ xs) ys acc =
        >>=-cong (read_pair numbers x) _ _ (λ (p : ℤ × F). add_pairs-++ xs ys (add_point p acc))
        ∙ sym (>>=_assoc (read_pair numbers x) _ _)

    add_series-add_pairs :
        (series : List (Serie F)) (acc : Buckets F)
        → add_series numbers series acc ≡ add_pairs numbers (pairs_of series) acc
    unfolding add_series add_pairs
    add_series-add_pairs [] acc = refl
    add_series-add_pairs (s ∷ series) acc =
        >>=-cong (add_pairs numbers s.values acc) _ _
          (λ (next : Buckets F). add_series-add_pairs series next)
        ∙ sym (add_pairs-++ s.values (pairs_of series) acc)

    read_all-IsAggregate :
        (t : ℤ) (r : Result RangeError (List (ℤ × F)))
        → IsAggregate t r (r >>= (λ (ps : List (ℤ × F)). ok (accumulate ps [])))
    unfolding find_bucket
    read_all-IsAggregate t (err e) = refl
    read_all-IsAggregate t (ok points) =
        (accumulate points [], refl, find_bucket-accumulate t points [])

    -- For every timestamp, aggregating an answer whose pairs are all readable gives rows in which
    -- that timestamp has the sum of its values, in the order of the series and from zero, and no
    -- entry when no pair has it. An answer with an unreadable pair fails with the first such pair's
    -- error.
    pub aggregate_range_result-IsAggregate :
        (series : List (Serie F)) (t : ℤ)
        → IsAggregate t (read_all (pairs_of series)) (aggregate_range_result numbers series)
    unfolding aggregate_range_result
    aggregate_range_result-IsAggregate series t =
        subst (IsAggregate t (read_all (pairs_of series)))
          (sym (add_series-add_pairs series [] ∙ add_pairs-read_all (pairs_of series) []))
          (read_all-IsAggregate t (read_all (pairs_of series)))
