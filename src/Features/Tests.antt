-- ===== src/Features/Tests.antt =====
-- Rows with a gap, a text and a time stamp.
use kedastral.Base.{◌≡◌, refl, none, [], ◌∷◌, arith}
use kedastral.Base.Int.{ℤ, pos}
use kedastral.Base.Dict.{lookup, insert}
use kedastral.Float64.Scaled.{scaled}
use kedastral.Features.{
  float64, int, text, Calendar, DataFrame, FeatureFrame, fill_missing_values, has_key,
}
use kedastral.Features.Columns.{column, forward, column-fill_missing_values}

-- days of 24 hours from a Thursday
abbrev pub calendar : Calendar ℤ
calendar = record {
  parse_rfc3339 = λ s. none;
  from_unix = λ n. n;
  unix = λ t. t;
  hour = λ t. pos 0;
  minute = λ t. pos 0;
  weekday = λ t. pos 4;
}

abbrev pub data_frame : DataFrame ℤ ℤ
data_frame =
    (("value", float64 (pos 1500)) ∷ ("ts", int (pos 60)) ∷ [])
    ∷ (("value", text "high") ∷ [])
    ∷ (("value", int (pos 2)) ∷ [])
    ∷ []

abbrev gaps : FeatureFrame ℤ
gaps = [] ∷ (("value", pos 1000) ∷ []) ∷ [] ∷ []

filled :
    fill_missing_values ("value" ∷ []) gaps
    ≡ [] ∷ (("value", pos 1000) ∷ []) ∷ (("value", pos 1000) ∷ []) ∷ []
unfolding fill_missing_values lookup insert
filled = refl

column-fill_missing_values_example :
    column "value" (fill_missing_values ("value" ∷ []) gaps) ≡ forward none (column "value" gaps)
unfolding has_key lookup
column-fill_missing_values_example =
    column-fill_missing_values ("value" ∷ []) gaps "value" (λ k. ground arith)
