-- ===== src/Features/Columns.antt =====
-- What the features say column by column: the values of the frame are the numeric values of the rows
-- in order, and a column is filled forward whatever the order of the keys.
use kedastral.Base.{
  ◌≡◌, refl, ap, sym, ◌∙◌, inl, inr, String, false, Bool-cases, Option-cases, Option, none, some,
  List, [], ◌∷◌, map, arith, eq_iff, str_eq, if◌then◌else◌,
}
use kedastral.Base.Dict.{Dict, lookup, occurs, lookup-insert, lookup-insert_self}
use kedastral.Base.Result.{Result, ok, err}
use kedastral.Float64.{Float64}
use kedastral.Features.{
  Value, float64, float32, int, int64, int32, text, time, other, FeatureError, empty_frame,
  no_valid_rows, DataFrame, FeatureFrame, fill_key, fill_keys, fill_missing_values, has_key,
}

-- The entries of one key in the rows.
abbrev pub column {ℓ} : {F : Type ℓ} → String → FeatureFrame F → List (Option F)
column k rows = map (lookup k) rows

-- A column whose gaps hold the last entry before them, if there is one.
unfoldable pub forward {ℓ} : {F : Type ℓ} → Option F → List (Option F) → List (Option F)
forward last [] = []
forward last (none ∷ c) = last ∷ forward last c
forward last (some v ∷ c) = some v ∷ forward (some v) c

module _ {ℓ} {F : Type ℓ} where
  column-fill_key :
      (k : String) (last : Option F) (rows : FeatureFrame F)
      → column k (fill_key k last rows) ≡ forward last (column k rows)
  unfolding fill_key forward
  column-fill_key k last [] = refl
  column-fill_key k none (row ∷ rows) = elim (Option-cases (lookup k row)) [
    | inl e ↦ rw (e, fill_key, e) (ap (λ c. none ∷ c) (column-fill_key k none rows))
    | inr (v, e) ↦ rw (e, fill_key, e) (ap (λ c. some v ∷ c) (column-fill_key k (some v) rows))
  ]
  column-fill_key k (some u) (row ∷ rows) = elim (Option-cases (lookup k row)) [
    | inl e ↦
        rw (e, fill_key, lookup-insert_self k u row)
          (ap (λ c. some u ∷ c) (column-fill_key k (some u) rows))
    | inr (v, e) ↦ rw (e, fill_key, e) (ap (λ c. some v ∷ c) (column-fill_key k (some v) rows))
  ]

  column-fill_key_other :
      (k j : String) (last : Option F) (rows : FeatureFrame F)
      → str_eq k j ≡ false
      → column j (fill_key k last rows) ≡ column j rows
  unfolding fill_key
  column-fill_key_other k j last [] h = refl
  column-fill_key_other k j none (row ∷ rows) h = elim (Option-cases (lookup k row)) [
    | inl e ↦ rw (e, fill_key) (ap (λ c. lookup j row ∷ c) (column-fill_key_other k j none rows h))
    | inr (v, e) ↦
        rw (e, fill_key) (ap (λ c. lookup j row ∷ c) (column-fill_key_other k j (some v) rows h))
  ]
  column-fill_key_other k j (some u) (row ∷ rows) h = elim (Option-cases (lookup k row)) [
    | inl e ↦
        rw (e, fill_key, lookup-insert k j u row, h)
          (ap (λ c. lookup j row ∷ c) (column-fill_key_other k j (some u) rows h))
    | inr (v, e) ↦
        rw (e, fill_key) (ap (λ c. lookup j row ∷ c) (column-fill_key_other k j (some v) rows h))
  ]

  forward_idem :
      (last : Option F) (c : List (Option F)) → forward last (forward last c) ≡ forward last c
  unfolding forward
  forward_idem last [] = refl
  forward_idem none (none ∷ c) = ap (λ d. none ∷ d) (forward_idem none c)
  forward_idem (some u) (none ∷ c) = ap (λ d. some u ∷ d) (forward_idem (some u) c)
  forward_idem last (some v ∷ c) = ap (λ d. some v ∷ d) (forward_idem (some v) c)

  column-fill_key_any :
      (k j : String) (rows : FeatureFrame F)
      → column j (fill_key k none rows)
        ≡ (if str_eq k j then forward none (column j rows) else column j rows)
  column-fill_key_any k j rows = elim (Bool-cases (str_eq k j)) [
    | inl h ↦ rw h (
        ap (λ i. column i (fill_key k none rows)) (sym ((eq_iff k j).0 h))
        ∙ column-fill_key k none rows
        ∙ ap (λ i. forward none (column i rows)) ((eq_iff k j).0 h))
    | inr h ↦ rw h (column-fill_key_other k j none rows h)
  ]

  -- a column after the loop over the keys that are left
  column-fill_keys :
      (keys : List String) (j : String) (rows : FeatureFrame F)
      → column j (fill_keys keys rows)
        ≡ (if occurs j keys then forward none (column j rows) else column j rows)
  unfolding fill_keys
  column-fill_keys [] j rows = refl
  column-fill_keys (k ∷ keys) j rows =
      let rest = column-fill_keys keys j (fill_key k none rows) in
      elim (Bool-cases (str_eq k j)) [
        | inl h ↦
            rw (h, rest, column-fill_key_any k j rows, h)
              (ground (arith, forward_idem none (column j rows)))
        | inr h ↦ rw (h, rest, column-fill_key_any k j rows, h) refl
      ]

  forward-has_key :
      (j : String) (rows : FeatureFrame F)
      → has_key j rows ≡ false
      → forward none (column j rows) ≡ column j rows
  unfolding forward has_key
  forward-has_key j [] h = refl
  forward-has_key j (row ∷ rows) h = elim (Option-cases (lookup j row)) [
    | inl e ↦ rw e (ap (λ c. none ∷ c) (forward-has_key j rows (rw (e, has_key) at h)))
    | inr (v, e) ↦ absurd (cc (rw (e, has_key) at h))
  ]

  -- `FillMissingValues` makes each column its forward fill, for any order in which the keys of the
  -- rows are visited: an entry that is there stays, also a NaN, and a gap takes the last entry before
  -- it. `keys` are the keys of the rows, in the order of the loop.
  pub column-fill_missing_values :
      (keys : List String) (rows : FeatureFrame F) (j : String)
      → ((k : String) → occurs k keys ≡ has_key k rows)
      → column j (fill_missing_values keys rows) ≡ forward none (column j rows)
  unfolding fill_missing_values
  column-fill_missing_values keys [] j h = unfold forward in refl
  column-fill_missing_values keys (row ∷ rows) j h = elim (Bool-cases (occurs j keys)) [
    | inl e ↦ rw (column-fill_keys keys j (row ∷ rows), e) refl
    | inr e ↦
        rw (column-fill_keys keys j (row ∷ rows), e)
          (sym (forward-has_key j (row ∷ rows) (sym (h j) ∙ e)))
  ]

module _ {ℓ κ} {F : Type ℓ} {T : Type κ} ⦃fl : Float64 F⦄ where
  -- A Go value of a numeric type, as a `float64`: `float64` and `float32` keep their value, and the
  -- integers are converted. A text, a time and anything else is not numeric.
  abbrev pub number_of : Value F T → Option F
  number_of (float64 x) = some x
  number_of (float32 x) = some x
  number_of (int n) = some (fl.of_int n)
  number_of (int64 n) = some (fl.of_int n)
  number_of (int32 n) = some (fl.of_int n)
  number_of (text s) = none
  number_of (time t) = none
  number_of other = none

  unfoldable pub number_or_none : Option (Value F T) → Option F
  number_or_none none = none
  number_or_none (some raw) = number_of raw

  -- The numeric values that the rows have under `value`, in order.
  unfoldable pub usable : DataFrame F T → List F
  usable [] = []
  usable (row ∷ rows) =
      let rest = usable rows in
      elim (number_or_none (lookup "value" row)) [ none ↦ rest | some v ↦ v ∷ rest ]

-- The values of a frame, if there is one.
abbrev pub result_column {ℓ} :
    {F : Type ℓ} → Result FeatureError (FeatureFrame F) → Result FeatureError (List (Option F))
result_column (err e) = err e
result_column (ok frame) = ok (column "value" frame)

-- What is to be answered for rows with the numeric values `us`.
abbrev pub values_or_error {ℓ κ} :
    {F : Type ℓ} {T : Type κ} → DataFrame F T → List F → Result FeatureError (List (Option F))
values_or_error [] [] = err empty_frame
values_or_error (row ∷ rows) [] = err no_valid_rows
values_or_error rows (u ∷ us) = ok (map some (u ∷ us))
