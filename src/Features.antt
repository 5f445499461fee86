-- ===== src/Features.antt =====
-- pkg/features/builder.go: rows of an adapter as numeric features, and the filling of gaps. Package
-- time is a parameter.
pub mod Columns
pub mod Tests
use kedastral.Base.{ℕ, String, Bool, true, false, Option, none, some, List, [], ◌∷◌, if◌then◌else◌}
use kedastral.Base.Int.{ℤ}
use kedastral.Base.Dict.{Dict, lookup, insert, occurs}
use kedastral.Base.Result.{Result, ok, err}
use kedastral.Float64.{Float64}

-- The values of a row, by their dynamic type.
pub data Value {ℓ κ} (F : Type ℓ) (T : Type κ) : Type (ℓ ⊔ κ) where
  float64 : F → Value F T
  -- the value as `float64(val)`
  float32 : F → Value F T
  int : ℤ → Value F T
  int64 : ℤ → Value F T
  int32 : ℤ → Value F T
  text : String → Value F T
  time : T → Value F T
  other : Value F T

-- What the code calls of package time.
pub record Calendar {κ} (T : Type κ) : Type κ where
  -- `time.Parse(time.RFC3339, s)`
  pub parse_rfc3339 : String → Option T
  -- `time.Unix(n, 0)`
  pub from_unix : ℤ → T
  pub unix : T → ℤ
  pub hour : T → ℤ
  pub minute : T → ℤ
  pub weekday : T → ℤ

pub data FeatureError : Type 0 where
  empty_frame no_valid_rows : FeatureError

-- `DataFrame` and `FeatureFrame`
abbrev pub DataFrame {ℓ κ} : Type ℓ → Type κ → Type (ℓ ⊔ κ)
DataFrame F T = List (Dict (Value F T))

abbrev pub FeatureFrame {ℓ} : Type ℓ → Type ℓ
FeatureFrame F = List (Dict F)

module _ {ℓ} {F : Type ℓ} where
  -- The loop over the rows for one key: `last` is `lastValid`, if there is one.
  unfoldable pub fill_key : String → Option F → FeatureFrame F → FeatureFrame F
  fill_key key last [] = []
  fill_key key last (row ∷ rows) = elim (lookup key row) [
    | some v ↦ row ∷ fill_key key (some v) rows
    | none ↦ elim last [
      | none ↦ row ∷ fill_key key none rows
      | some v ↦ insert key v row ∷ fill_key key (some v) rows
    ]
  ]

  -- The loop over the keys, in the order that Go's `range` takes them.
  unfoldable pub fill_keys : List String → FeatureFrame F → FeatureFrame F
  unfolding fill_key
  fill_keys [] rows = rows
  fill_keys (key ∷ keys) rows = fill_keys keys (fill_key key none rows)

  -- The keys that the first loops collect: `keys` has exactly those that some row has, each once.
  unfoldable pub has_key : String → FeatureFrame F → Bool
  has_key key [] = false
  has_key key (row ∷ rows) = elim (lookup key row) [ some v ↦ true | none ↦ has_key key rows ]

  unfoldable pub fill_missing_values : List String → FeatureFrame F → FeatureFrame F
  unfolding fill_keys
  fill_missing_values keys [] = []
  fill_missing_values keys (row ∷ rows) = fill_keys keys (row ∷ rows)

module _ {ℓ κ} {F : Type ℓ} {T : Type κ} ⦃fl : Float64 F⦄ where
  unfoldable pub to_float64 : Value F T → Option F
  to_float64 (float64 v) = some v
  to_float64 (float32 v) = some v
  to_float64 (int n) = some (fl.of_int n)
  to_float64 (int64 n) = some (fl.of_int n)
  to_float64 (int32 n) = some (fl.of_int n)
  to_float64 (text s) = none
  to_float64 (time t) = none
  to_float64 other = none

  unfoldable pub row_value : Dict (Value F T) → Option F
  unfolding to_float64
  row_value row = elim (lookup "value" row) [ none ↦ none | some raw ↦ to_float64 raw ]

-- The last check of `BuildFeatures`.
abbrev pub nonempty_frame {ℓ} : {F : Type ℓ} → FeatureFrame F → Result FeatureError (FeatureFrame F)
nonempty_frame [] = err no_valid_rows
nonempty_frame (features ∷ more) = ok (features ∷ more)

module _ {ℓ κ} {F : Type ℓ} {T : Type κ} ⦃fl : Float64 F⦄ (calendar : Calendar T) where
  unfoldable pub parse_timestamp : Value F T → Option T
  parse_timestamp (text s) = calendar.parse_rfc3339 s
  parse_timestamp (float64 v) = some (calendar.from_unix (fl.trunc v))
  parse_timestamp (int n) = some (calendar.from_unix n)
  parse_timestamp (int64 n) = some (calendar.from_unix n)
  parse_timestamp (time t) = some t
  parse_timestamp (float32 v) = none
  parse_timestamp (int32 n) = none
  parse_timestamp other = none

  unfoldable pub time_features : T → Dict F → Dict F
  time_features t features = insert "day" (fl.of_int (calendar.weekday t)) (
      insert "minute" (fl.of_int (calendar.minute t)) (
        insert "hour" (fl.of_int (calendar.hour t))
          (insert "timestamp" (fl.of_int (calendar.unix t)) features)))

  -- The features of a row with the value `value`.
  unfoldable pub row_features : Dict (Value F T) → F → Dict F
  unfolding parse_timestamp time_features
  row_features row value = elim (lookup "ts" row) [
    | none ↦ ("value", value) ∷ []
    | some raw ↦ elim (parse_timestamp raw) [
      | none ↦ ("value", value) ∷ []
      | some t ↦ time_features t (("value", value) ∷ [])
    ]
  ]

  unfoldable pub feature_rows : DataFrame F T → FeatureFrame F
  unfolding row_features row_value
  feature_rows [] = []
  feature_rows (row ∷ rows) =
      let rest = feature_rows rows in
      elim (row_value row) [ none ↦ rest | some value ↦ row_features row value ∷ rest ]

  unfoldable pub build_features : DataFrame F T → Result FeatureError (FeatureFrame F)
  unfolding feature_rows
  build_features [] = err empty_frame
  build_features (row ∷ rows) = nonempty_frame (feature_rows (row ∷ rows))
