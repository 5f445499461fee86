-- ===== src/Durations.antt =====
-- pkg/durationx/durationx.go: `Parse`, the durations with day and week units. What package regexp
-- finds, and packages strings, strconv and time, are parameters.
use kedastral.Base.{
  ◌*◌, ◌^◌, ◌==◌, ◌≡◌, refl, ap, ◌∙◌, inl, inr, Option-cases, String, Bool, true, false, Option,
  none, some, List, [], ◌∷◌, if◌then◌else◌, str_eq, arith,
}
use kedastral.Base.Int.{ℤ, pos, ◌+ℤ◌, ◌-ℤ◌, wrap64, wrap64_id, IsInt64}
use kedastral.Base.Result.{Result, ok, err}
use kedastral.Float64.{Float64}
use Prim.Native.Char.{code}

pub data DurationError : Type 0 where
  empty_duration : DurationError
  invalid_duration : String → DurationError

pub data DayWeek : Type 0 where
  weeks : DayWeek
  days : DayWeek

-- `time.Duration` of a day and of a week
abbrev pub unit_ns : DayWeek → ℤ
unit_ns days = pos (24 * 3600 * 10 ^ 9)
unit_ns weeks = pos (7 * 24 * 3600 * 10 ^ 9)

-- `strings.TrimSpace`, `time.ParseDuration`, `strconv.ParseFloat`, and the matches of `dayWeekRe` in
-- a string with what is left when they are replaced by nothing.
pub record Parsers {ℓ} (F : Type ℓ) : Type ℓ where
  pub trim : String → String
  pub parse_duration : String → Option ℤ
  pub parse_float : String → Option F
  pub day_week : String → List (String × DayWeek) × String

zero_add : (d : ℤ) → pos 0 +ℤ d ≡ d
unfolding ◌+ℤ◌
zero_add d = ground arith

-- The switch on the first byte.
unfoldable pub split_sign : String → Bool × String
split_sign String.[] = (false, String.[])
split_sign (String.◌∷◌ c rest) =
    if code c == 45
    then (true, rest)
    else if code c == 43
    then (false, rest)
    else (false, String.◌∷◌ c rest)

module _ {ℓ} {F : Type ℓ} ⦃fl : Float64 F⦄ (parsers : Parsers F) where
  -- The calls of the function that `ReplaceAllStringFunc` is given: `extra`, and whether a number
  -- was out of range.
  unfoldable pub add_tokens : List (String × DayWeek) → ℤ × Bool → ℤ × Bool
  add_tokens [] state = state
  add_tokens ((digits, unit) ∷ tokens) (extra, failed) = elim (parsers.parse_float digits) [
    | none ↦ add_tokens tokens (extra, true)
    | some value ↦
        add_tokens tokens
          (wrap64 (extra +ℤ fl.trunc (fl.mul value (fl.of_int (unit_ns unit)))), failed)
  ]

  unfoldable pub add_remainder : String → String → ℤ → Result DurationError ℤ
  add_remainder s remainder extra =
      if str_eq remainder "" then ok extra else elim (parsers.parse_duration remainder) [
        | none ↦ err (invalid_duration s)
        | some base ↦ ok (wrap64 (extra +ℤ base))
      ]

  abbrev pub signed : Bool → Result DurationError ℤ → Result DurationError ℤ
  signed negative (err e) = err e
  signed false (ok extra) = ok extra
  signed true (ok extra) = ok (wrap64 (pos 0 -ℤ extra))

  unfoldable pub parse : String → Result DurationError ℤ
  parse s =
      let trimmed = parsers.trim s in
      if str_eq trimmed ""
      then err empty_duration
      else let (negative, unsigned) = split_sign trimmed in
        let (tokens, remainder) = parsers.day_week unsigned in
        let (extra, failed) = add_tokens tokens (pos 0, false) in
        if failed
        then err (invalid_duration s)
        else signed negative (add_remainder s remainder extra)

  abbrev of_parsed : String → Option ℤ → Result DurationError ℤ
  of_parsed s none = err (invalid_duration s)
  of_parsed s (some d) = ok d

  signed-of_parsed : (s : String) (o : Option ℤ) → signed false (of_parsed s o) ≡ of_parsed s o
  signed-of_parsed s none = refl
  signed-of_parsed s (some d) = refl

  add_remainder_lem :
      (s t : String)
      → str_eq t "" ≡ false
      → ((d : ℤ) → parsers.parse_duration t ≡ some d → IsInt64 d)
      → add_remainder s t (pos 0) ≡ of_parsed s (parsers.parse_duration t)
  unfolding add_remainder
  add_remainder_lem s t h small = elim (Option-cases (parsers.parse_duration t)) [
    | inl e ↦ rw (h, e) refl
    | inr (d, e) ↦ rw (h, e) (ap ok (ap wrap64 (zero_add d) ∙ wrap64_id d (small d e)))
  ]

  -- A duration without a sign and without day or week units is parsed as package time parses it.
  parse-parse_duration :
      (s t : String)
      → parsers.trim s ≡ t
      → str_eq t "" ≡ false
      → split_sign t ≡ (false, t)
      → parsers.day_week t ≡ ([], t)
      → ((d : ℤ) → parsers.parse_duration t ≡ some d → IsInt64 d)
      → parse s ≡ of_parsed s (parsers.parse_duration t)
  unfolding parse add_tokens
  parse-parse_duration s t e1 h e2 e3 small =
      rw (e1, h, e2, e3)
        (ap (signed false) (add_remainder_lem s t h small)
          ∙ signed-of_parsed s (parsers.parse_duration t))

  -- A sign alone is a duration of zero.
  parse_sign :
      (s : String) → parsers.trim s ≡ "-" → parsers.day_week "" ≡ ([], "") → parse s ≡ ok (pos 0)
  unfolding parse add_tokens add_remainder split_sign wrap64 ◌-ℤ◌
  parse_sign s e1 e2 = rw (e1, e2) refl
