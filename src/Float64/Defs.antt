-- ===== src/Float64/Defs.antt =====
-- What the code does with a `float64`. The number type is a parameter of the development: its
-- operations, and Go's conversions between `float64` and `int`, are the fields of `Float64`, and
-- the facts of IEEE 754 and of package math that a theorem relies on are those of `IsFloat64`.
use kedastral.Base.{ℕ, suc, ◌*◌, ◌≤◌, ◌≡◌, ◌⊎◌, Bool, true, false, not}
use kedastral.Base.Int.{ℤ, pos, ◌≤ℤ◌}

pub record Float64 {ℓ} (F : Type ℓ) : Type ℓ where
  -- `float64(n)`
  pub of_int : ℤ → F
  -- the literal `m * 10^-k`: `decimal 12 1` is `1.2`
  pub decimal : ℕ → ℕ → F
  pub add : F → F → F
  pub sub : F → F → F
  pub mul : F → F → F
  pub div : F → F → F
  -- `<`, `<=` and `==`, all false on NaN
  pub lt : F → F → Bool
  pub le : F → F → Bool
  pub eq : F → F → Bool
  -- `int(x)`, `int(math.Ceil(x))`, `int(math.Floor(x))`, `int(math.Round(x))`
  pub trunc : F → ℤ
  pub ceil : F → ℤ
  pub floor : F → ℤ
  pub round : F → ℤ
  -- `math.Abs`, `math.Sqrt`, `math.Max`
  pub abs : F → F
  pub sqrt : F → F
  pub fmax : F → F → F

module _ {ℓ} {F : Type ℓ} ⦃fl : Float64 F⦄ where
  abbrev pub int_lit : ℕ → F
  int_lit n = fl.of_int (pos n)

  infix 4 ◌≼◌
  abbrev pub ◌≼◌ : F → F → Type 0
  x ≼ y = fl.le x y ≡ true

-- IEEE 754 comparison, and monotonicity of the arithmetic. NaN is the value that is not `<=` itself.
-- `finite x` is `!math.IsNaN(x) && !math.IsInf(x, 0)`, and `in_range x` says that the integers next
-- to `x` fit an `int`, outside which Go leaves the conversion open.
pub record IsFloat64 {ℓ} (F : Type ℓ) ⦃fl : Float64 F⦄ : Type ℓ where
  pub finite : F → Bool
  pub in_range : F → Bool
  pub of_int_mono : (a b : ℤ) → a ≤ℤ b → fl.of_int a ≼ fl.of_int b
  pub of_int_pos : (n : ℕ) → fl.lt (fl.of_int (pos 0)) (fl.of_int (pos (suc n))) ≡ true
  pub of_int_finite : (a : ℤ) → finite (fl.of_int a) ≡ true
  pub decimal_int : (n : ℕ) → n ≤ 100 → fl.decimal (n * 10) 1 ≡ fl.of_int (pos n)
  pub refl_of_le : (x y : F) → x ≼ y → (x ≼ x) × (y ≼ y)
  pub le_trans : (x y z : F) → x ≼ y → y ≼ z → x ≼ z
  pub le_total : (x y : F) → x ≼ x → y ≼ y → (x ≼ y) ⊎ (y ≼ x)
  pub lt-eq-not-le : (x y : F) → x ≼ x → y ≼ y → fl.lt x y ≡ not (fl.le y x)
  pub finite_below : (x y : F) → fl.of_int (pos 0) ≼ x → x ≼ y → finite y ≡ true → finite x ≡ true
  pub mul_comm : (x y : F) → fl.mul x y ≡ fl.mul y x
  pub mul_mono :
      (x y h : F)
      → fl.of_int (pos 0) ≼ x
      → x ≼ y
      → fl.of_int (pos 0) ≼ h
      → finite y ≡ true
      → finite h ≡ true
      → (fl.of_int (pos 0) ≼ fl.mul x h) × (fl.mul x h ≼ fl.mul y h)
  pub div_mono :
      (x y t : F)
      → fl.of_int (pos 0) ≼ x
      → x ≼ y
      → fl.lt (fl.of_int (pos 0)) t ≡ true
      → finite t ≡ true
      → (fl.of_int (pos 0) ≼ fl.div x t) × (fl.div x t ≼ fl.div y t)
  pub div_self :
      (x : F)
      → fl.lt (fl.of_int (pos 0)) x ≡ true
      → finite x ≡ true
      → fl.div x x ≡ fl.of_int (pos 1)
  pub number_of_div : (x y : F) → fl.div x y ≼ fl.div x y → x ≼ x
  pub one_sub :
      (c : F)
      → fl.of_int (pos 0) ≼ c
      → c ≼ fl.of_int (pos 1)
      → (fl.of_int (pos 0) ≼ fl.sub (fl.of_int (pos 1)) c)
        × (fl.sub (fl.of_int (pos 1)) c ≼ fl.of_int (pos 1))
  pub ceil_mono : (x y : F) → x ≼ y → in_range x ≡ true → in_range y ≡ true → fl.ceil x ≤ℤ fl.ceil y
  pub floor_mono :
      (x y : F) → x ≼ y → in_range x ≡ true → in_range y ≡ true → fl.floor x ≤ℤ fl.floor y
  pub round_mono :
      (x y : F) → x ≼ y → in_range x ≡ true → in_range y ≡ true → fl.round x ≤ℤ fl.round y
  pub floor-le-ceil : (x : F) → in_range x ≡ true → fl.floor x ≤ℤ fl.ceil x
  pub in_range_below :
      (x y : F) → fl.of_int (pos 0) ≼ x → x ≼ y → in_range y ≡ true → in_range x ≡ true
  pub in_range_zero : in_range (fl.of_int (pos 0)) ≡ true
  pub fmax_low : (x y : F) → fl.lt (fl.fmax x y) x ≡ false
