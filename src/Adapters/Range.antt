-- ===== src/Adapters/Range.antt =====
-- pkg/adapters/prometheus.go: `AggregateRangeResult`, which both the Prometheus and the
-- VictoriaMetrics adapter apply to a decoded answer. `strconv.ParseFloat` and `json.Number.Float64`
-- are parameters.
pub mod Totals
use kedastral.Base.{
  ℕ, String, ◌≡◌, refl, inl, inr, Option, none, some, List, [], ◌∷◌, length, if◌then◌else◌,
}
use kedastral.Base.Int.{ℤ, pos, eqb_ℤ}
use kedastral.Base.Buckets.{Buckets, find_bucket, set_bucket, find_bucket-set_bucket}
use kedastral.Base.Result.{Result, ok, err, ◌>>=◌}
use kedastral.Float64.{Float64, int_lit}

-- A value that `encoding/json` decodes into an `any`.
pub data Item {ℓ} (F : Type ℓ) : Type ℓ where
  float64 : F → Item F
  number : String → Item F
  text : String → Item F
  other : Item F

pub data RangeError : Type 0 where
  pair_length : ℕ → RangeError
  timestamp_type : RangeError
  parse_value : String → RangeError
  value_type : RangeError

-- `PrometheusRangeSerie`, less the labels, which the aggregation does not read.
pub record Serie {ℓ} (F : Type ℓ) : Type ℓ where
  pub values : List (List (Item F))

-- Package strconv: `ParseFloat`, and `Float64` of a `json.Number` without its error.
pub record Numbers {ℓ} (F : Type ℓ) : Type ℓ where
  pub parse_float : String → Option F
  pub number_float64 : String → F

module _ {ℓ} {F : Type ℓ} ⦃fl : Float64 F⦄ where
  -- `acc[ts]`, where a missing entry reads as zero
  abbrev pub entry_or_zero : Option F → F
  entry_or_zero none = int_lit 0
  entry_or_zero (some v) = v

  -- `acc[ts] += val`
  unfoldable pub add_point : ℤ × F → Buckets F → Buckets F
  add_point (ts, val) acc = set_bucket ts (fl.add (entry_or_zero (find_bucket ts acc)) val) acc

module _ {ℓ} {F : Type ℓ} ⦃fl : Float64 F⦄ (numbers : Numbers F) where
  -- The switch on `pair[0]`.
  unfoldable pub timestamp_of : Item F → Result RangeError ℤ
  timestamp_of (float64 v) = ok (fl.trunc v)
  timestamp_of (number s) = ok (fl.trunc (numbers.number_float64 s))
  timestamp_of (text s) = err timestamp_type
  timestamp_of other = err timestamp_type

  -- The switch on `pair[1]`.
  unfoldable pub value_of : Item F → Result RangeError F
  value_of (text s) = elim (numbers.parse_float s) [ none ↦ err (parse_value s) | some f ↦ ok f ]
  value_of (float64 v) = ok v
  value_of (number s) = ok (numbers.number_float64 s)
  value_of other = err value_type

  -- The body of the inner loop up to the addition.
  unfoldable pub read_pair : List (Item F) → Result RangeError (ℤ × F)
  read_pair (t ∷ v ∷ []) =
      timestamp_of t >>= (λ (ts : ℤ). value_of v >>= (λ (val : F). ok (ts, val)))
  read_pair [] = err (pair_length 0)
  read_pair (t ∷ []) = err (pair_length 1)
  read_pair (t ∷ v ∷ w ∷ more) = err (pair_length (length (t ∷ v ∷ w ∷ more)))

  -- The loop over the pairs of a series.
  unfoldable pub add_pairs : List (List (Item F)) → Buckets F → Result RangeError (Buckets F)
  add_pairs [] acc = ok acc
  add_pairs (pair ∷ pairs) acc =
      read_pair pair >>= (λ (p : ℤ × F). add_pairs pairs (add_point p acc))

  -- The loop over the series. The rows are the entries of the map, in an order that Go leaves open.
  unfoldable pub add_series : List (Serie F) → Buckets F → Result RangeError (Buckets F)
  add_series [] acc = ok acc
  add_series (s ∷ series) acc =
      add_pairs s.values acc >>= (λ (next : Buckets F). add_series series next)

  unfoldable pub aggregate_range_result : List (Serie F) → Result RangeError (Buckets F)
  aggregate_range_result series = add_series series []
