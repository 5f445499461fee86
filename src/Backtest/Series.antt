-- ===== src/Backtest/Series.antt =====
-- pkg/backtest/series.go: a series, and how it is read from the records of a CSV file. A point is
-- `Times[i]` with `Values[i]`, since LoadCSV appends to both lists together. Packages encoding/csv,
-- strconv and time are parameters.
use kedastral.Base.{
  ℕ, ◌+◌, String, Bool, true, false, Option, none, some, List, [], ◌∷◌, if◌then◌else◌,
}
use kedastral.Base.Int.{ℤ}
use kedastral.Base.Result.{Result, ok, err, ◌>>=◌}
use kedastral.Features.{Calendar}

abbrev pub Series {ℓ κ} : Type ℓ → Type κ → Type (ℓ ⊔ κ)
Series T F = List (T × F)

pub data CsvError : Type 0 where
  read_failed is_empty no_data : CsvError
  too_few_columns bad_time bad_value : ℕ → CsvError

-- What the code calls of package strconv.
pub record Numbers {ℓ} (F : Type ℓ) : Type ℓ where
  pub parse_float : String → Option F
  pub parse_int : String → Option ℤ

module _ {ℓ κ} {T : Type ℓ} {F : Type κ} (calendar : Calendar T) (numbers : Numbers F) where
  unfoldable pub parse_time : String → Option T
  parse_time s = elim (calendar.parse_rfc3339 s) [
    | some t ↦ some t
    | none ↦ elim (numbers.parse_int s) [ none ↦ none | some n ↦ some (calendar.from_unix n) ]
  ]

  -- The record in row `i`.
  unfoldable pub parse_record : ℕ → List String → Result CsvError (T × F)
  unfolding parse_time
  parse_record i [] = err (too_few_columns i)
  parse_record i (time ∷ []) = err (too_few_columns i)
  parse_record i (time ∷ value ∷ rest) = elim (parse_time time) [
    | none ↦ err (bad_time i)
    | some t ↦ elim (numbers.parse_float value) [ none ↦ err (bad_value i) | some v ↦ ok (t, v) ]
  ]

  unfoldable pub parse_records : ℕ → List (List String) → Result CsvError (Series T F)
  unfolding parse_record
  parse_records i [] = ok []
  parse_records i (record_texts ∷ more) = parse_record i record_texts >>= λ point.
      (parse_records (i + 1) more >>= λ points. ok (point ∷ points))

  -- Whether the first record is a header.
  unfoldable pub is_header : List String → Bool
  is_header [] = false
  is_header (time ∷ []) = false
  is_header (time ∷ value ∷ rest) = elim (numbers.parse_float value) [
    | none ↦ true
    | some v ↦ false
  ]

  unfoldable pub nonempty_series : Series T F → Result CsvError (Series T F)
  nonempty_series [] = err no_data
  nonempty_series (point ∷ points) = ok (point ∷ points)

  -- `records` is what `reader.ReadAll` answers; `none` is its error.
  unfoldable pub load_csv : Option (List (List String)) → Result CsvError (Series T F)
  unfolding parse_records is_header nonempty_series
  load_csv none = err read_failed
  load_csv (some []) = err is_empty
  load_csv (some (first ∷ more)) =
      (if is_header first then parse_records 2 more else parse_records 1 (first ∷ more))
      >>= nonempty_series
