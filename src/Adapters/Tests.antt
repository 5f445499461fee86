-- ===== src/Adapters/Tests.antt =====
-- The range aggregation on a small answer, with the witness of what is proved of it.
use kedastral.Base.{◌≡◌, refl, none, some, List, [], ◌∷◌, if◌then◌else◌, str_eq}
use kedastral.Base.Int.{ℤ, pos, ◌+ℤ◌}
use kedastral.Base.Result.{ok, err}
use kedastral.Float64.Scaled.{scaled}
use kedastral.Adapters.Range.{
  float64, text, pair_length, Serie, Numbers, timestamp_of, value_of, read_pair, add_point,
  add_pairs, add_series, aggregate_range_result,
}
use kedastral.Adapters.Range.Totals.{
  IsAggregate, read_all, pairs_of, aggregate_range_result-IsAggregate,
}
use kedastral.Base.Buckets.{find_bucket, set_bucket}

abbrev decimals : Numbers ℤ
decimals = record {
  parse_float = λ s. if str_eq s "1.5" then some (pos 1500) else none;
  number_float64 = λ s. pos 0;
}

-- Two series that share the timestamp 60.
abbrev answer : List (Serie ℤ)
answer =
    record {
      values =
          (float64 (pos 60000) ∷ text "1.5" ∷ [])
          ∷ (float64 (pos 120000) ∷ float64 (pos 2000) ∷ [])
          ∷ [];
    }
    ∷ record { values = (float64 (pos 60000) ∷ text "1.5" ∷ []) ∷ [] }
    ∷ []

answer_rows :
    aggregate_range_result decimals answer ≡ ok ((pos 60, pos 3000) ∷ (pos 120, pos 2000) ∷ [])
unfolding timestamp_of value_of read_pair find_bucket set_bucket add_point add_pairs add_series
    aggregate_range_result ◌+ℤ◌ scaled
answer_rows = refl

broken_rows :
    aggregate_range_result decimals (record { values = (text "1.5" ∷ []) ∷ [] } ∷ [])
    ≡ err (pair_length 1)
unfolding read_pair add_pairs add_series aggregate_range_result
broken_rows = refl

aggregate_range_result-IsAggregate_example :
    IsAggregate
      (pos 60)
      (read_all decimals (pairs_of answer))
      (aggregate_range_result decimals answer)
aggregate_range_result-IsAggregate_example =
    aggregate_range_result-IsAggregate decimals answer (pos 60)
