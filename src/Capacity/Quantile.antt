-- ===== src/Capacity/Quantile.antt =====
-- pkg/capacity/quantile.go: `ParseQuantileLevel`. `strings.TrimSpace`, `strings.ToLower` and
-- `strconv.ParseFloat` are parameters.
use Prim.Native.String.{◌∷◌ as cons}
use kedastral.Base.{
  ℕ, ◌≡◌, sym, Option-cases, inl, inr, Bool-cases, String, Bool, true, false, ◌||◌, Option, none,
  some, arith, if◌then◌else◌, str_eq,
}
use kedastral.Base.Int.{pos}
use kedastral.Base.Result.{Result, ok, err}
use kedastral.Float64.{Float64, IsFloat64, int_lit, ◌≼◌}

pub data QuantileError : Type 0 where
  invalid_percentile percentile_out_of_range invalid_quantile quantile_out_of_range : QuantileError

-- What the code calls of packages strings and strconv.
pub record Strings {ℓ} (F : Type ℓ) : Type ℓ where
  pub trim_space : String → String
  pub to_lower : String → String
  pub parse_float : String → Option F

-- `strings.HasPrefix(s, "p")`
abbrev pub has_p : String → Bool
has_p String.[] = false
has_p (cons c rest) = str_eq (cons c String.[]) "p"

-- `s[1:]` of a text whose first character is one byte long
abbrev pub tail : String → String
tail String.[] = ""
tail (cons c rest) = rest

module _ {ℓ} {F : Type ℓ} ⦃fl : Float64 F⦄ (lib : Strings F) where
  unfoldable pub parse_percentile : String → Result QuantileError F
  parse_percentile s = elim (lib.parse_float s) [
    | none ↦ err invalid_percentile
    | some percentile ↦
        if fl.lt percentile (int_lit 0) || fl.lt (int_lit 100) percentile
        then err percentile_out_of_range
        else ok (fl.div percentile (fl.decimal 1000 1))
  ]

  unfoldable pub parse_decimal : String → Result QuantileError F
  parse_decimal s = elim (lib.parse_float s) [
    | none ↦ err invalid_quantile
    | some quantile ↦
        if fl.lt quantile (int_lit 0) || fl.lt (int_lit 1) quantile
        then err quantile_out_of_range
        else ok quantile
  ]

  unfoldable pub parse_trimmed : String → Result QuantileError F
  unfolding parse_percentile parse_decimal
  parse_trimmed s =
      if str_eq s "" || str_eq s "0"
      then ok (int_lit 0)
      else if has_p (lib.to_lower s)
      then parse_percentile (tail s)
      else parse_decimal s

  unfoldable pub parse_quantile_level : String → Result QuantileError F
  unfolding parse_trimmed
  parse_quantile_level s = parse_trimmed (lib.trim_space s)

module _ {ℓ} {F : Type ℓ} ⦃fl : Float64 F⦄ (laws : IsFloat64 F) where
  open laws use {
    of_int_mono, of_int_pos, of_int_finite, decimal_int, lt-eq-not-le, div_mono, div_self,
    number_of_div,
  }

  abbrev pub IsLevel : F → Type 0
  IsLevel q = (int_lit 0 ≼ q) × (q ≼ int_lit 1)

  in_interval :
      (x : F) (n : ℕ)
      → x ≼ x
      → (fl.lt x (int_lit 0) || fl.lt (int_lit n) x) ≡ false
      → (int_lit 0 ≼ x) × (x ≼ int_lit n)
  in_interval x n num h = ground (
    arith,
    h,
    lt-eq-not-le x (int_lit 0) num (number 0),
    lt-eq-not-le (int_lit n) x (number n) num,
  )
    where
      number : (m : ℕ) → fl.le (int_lit m) (int_lit m) ≡ true
      number m = of_int_mono (pos m) (pos m) (omega arith)

  hundredth : (x : F) → int_lit 0 ≼ x → x ≼ int_lit 100 → IsLevel (fl.div x (fl.decimal 1000 1))
  hundredth x h k =
      let hundred : fl.decimal 1000 1 ≡ int_lit 100 = decimal_int 100 (omega arith) in
      let (q0, q1) =
        div_mono x (int_lit 100) (int_lit 100) h k (of_int_pos 99) (of_int_finite (pos 100)) in
      rw hundred (q0, rw (div_self (int_lit 100) (of_int_pos 99) (of_int_finite (pos 100))) at q1)

  percentile_lem :
      (x q : F)
      → q ≼ q
      → (if fl.lt x (int_lit 0) || fl.lt (int_lit 100) x
          then err percentile_out_of_range
          else ok (fl.div x (fl.decimal 1000 1)))
        ≡ ok q
      → IsLevel q
  percentile_lem x q num h = elim (Bool-cases (fl.lt x (int_lit 0) || fl.lt (int_lit 100) x)) [
    | inl e ↦ absurd (cc (rw e at h))
    | inr e ↦
        let is_q : fl.div x (fl.decimal 1000 1) ≡ q = cc (rw e at h) in
        let (x0, x1) = in_interval x 100 (number_of_div x _ (rw (sym is_q) at num)) e in
        rw (sym is_q) (hundredth x x0 x1)
  ]

  decimal_lem :
      (x q : F)
      → q ≼ q
      → (if fl.lt x (int_lit 0) || fl.lt (int_lit 1) x then err quantile_out_of_range else ok x)
        ≡ ok q
      → IsLevel q
  decimal_lem x q num h = elim (Bool-cases (fl.lt x (int_lit 0) || fl.lt (int_lit 1) x)) [
    | inl e ↦ absurd (cc (rw e at h))
    | inr e ↦
        let is_q : x ≡ q = cc (rw e at h) in
        rw (sym is_q) (in_interval x 1 (rw (sym is_q) at num) e)
  ]

  zero_lem : (q : F) → ◌≡◌ {A = Result QuantileError F} (ok (int_lit 0)) (ok q) → IsLevel q
  zero_lem q h =
      let is_q : int_lit 0 ≡ q = cc h in
      rw (sym is_q)
        (of_int_mono (pos 0) (pos 0) (omega arith), of_int_mono (pos 0) (pos 1) (omega arith))

  parse_percentile-IsLevel :
      (lib : Strings F) (s : String) (q : F) → q ≼ q → parse_percentile lib s ≡ ok q → IsLevel q
  unfolding parse_percentile
  parse_percentile-IsLevel lib s q num h = elim (Option-cases (lib.parse_float s)) [
    | inl e ↦ absurd (cc (rw (e, parse_percentile) at h))
    | inr (x, e) ↦ percentile_lem x q num (rw (e, parse_percentile) at h)
  ]

  parse_decimal-IsLevel :
      (lib : Strings F) (s : String) (q : F) → q ≼ q → parse_decimal lib s ≡ ok q → IsLevel q
  unfolding parse_decimal
  parse_decimal-IsLevel lib s q num h = elim (Option-cases (lib.parse_float s)) [
    | inl e ↦ absurd (cc (rw (e, parse_decimal) at h))
    | inr (x, e) ↦ decimal_lem x q num (rw (e, parse_decimal) at h)
  ]

  -- Whatever package strconv reads, a level that `ParseQuantileLevel` returns and that is not NaN
  -- lies between 0 and 1.
  pub parse_quantile_level-IsLevel :
      (lib : Strings F) (s : String) (q : F) → parse_quantile_level lib s ≡ ok q → q ≼ q → IsLevel q
  unfolding parse_quantile_level parse_trimmed
  parse_quantile_level-IsLevel lib s q h num = trimmed (lib.trim_space s) h
    where
      trimmed : (t : String) → parse_trimmed lib t ≡ ok q → IsLevel q
      trimmed t h = elim (Bool-cases (str_eq t "" || str_eq t "0")) [
        | inl e ↦ zero_lem q (rw e at h)
        | inr e ↦ elim (Bool-cases (has_p (lib.to_lower t))) [
          | inl k ↦ parse_percentile-IsLevel lib (tail t) q num (rw (e, k) at h)
          | inr k ↦ parse_decimal-IsLevel lib t q num (rw (e, k) at h)
        ]
      ]
