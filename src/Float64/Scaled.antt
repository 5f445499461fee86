-- ===== src/Float64/Scaled.antt =====
-- A number type that meets the laws of `IsFloat64`: signed thousandths, with products and quotients
-- truncated towards zero. The tests and the witnesses run on it.
use native.Mathlib.Nat.{
  le_trans, add_comm, mul_comm, div-zero, le-div_iff_mul-le, div-mul-le_self, mul-div_cancel_left,
}
use kedastral.Base.{
  ℕ, zero, suc, ◌+◌, ◌*◌, ◌/◌, ◌^◌, ◌≤◌, ◌≡◌, refl, ap, ◌⊎◌, true, false, not, arith, if◌then◌else◌,
  ltb,
}
use kedastral.Base.Int.{
  ℤ, pos, negsuc, pos_part, neg_part, sub_ℕ, ◌+ℤ◌, ◌-ℤ◌, ◌*ℤ◌, quot, ltb_ℤ, leb_ℤ, eqb_ℤ, ◌≤ℤ◌,
}
use kedastral.Float64.Defs.{Float64, IsFloat64}

-- the whole number of thousandths below a value, and the one above it
floor_milli : ℤ → ℤ
floor_milli (pos n) = pos (n / 1000)
floor_milli (negsuc n) = negsuc (n / 1000)

ceil_milli : ℤ → ℤ
ceil_milli (pos n) = pos ((n + 999) / 1000)
ceil_milli (negsuc n) = sub_ℕ 0 (suc n / 1000)

-- half away from zero
round_milli : ℤ → ℤ
round_milli (pos n) = pos ((n + 500) / 1000)
round_milli (negsuc n) = sub_ℕ 0 ((suc n + 500) / 1000)

-- Newton's steps for the root of `n`, with fuel
root_step : ℕ → ℕ → ℕ → ℕ
root_step zero n x = x
root_step (suc f) n x =
    let y = (x + n / x) / 2 in let rest = root_step f n y in if ltb y x then rest else x

root_milli : ℤ → ℤ
unfolding root_step
root_milli x = pos (root_step 64 (pos_part x * 1000) (pos_part x * 1000 + 1))

instance unfoldable pub scaled : Float64 ℤ
unfolding floor_milli ceil_milli round_milli root_milli quot ◌+ℤ◌ ◌-ℤ◌ ◌*ℤ◌
scaled = record {
  of_int = λ n. n *ℤ pos 1000;
  decimal = λ m k. pos (m * 1000 / 10 ^ k);
  add = λ x y. x +ℤ y;
  sub = λ x y. x -ℤ y;
  mul = λ x y. quot (x *ℤ y) (pos 1000);
  div = λ x y. quot (x *ℤ pos 1000) y;
  lt = ltb_ℤ;
  le = leb_ℤ;
  eq = eqb_ℤ;
  trunc = λ x. quot x (pos 1000);
  ceil = ceil_milli;
  floor = floor_milli;
  round = round_milli;
  abs = λ x. pos (pos_part x + neg_part x);
  sqrt = root_milli;
  fmax = λ x y. if ltb_ℤ x y then y else x;
}

-- the arithmetic laws on numbers that are not negative
scale_le : (x y h : ℕ) → x ≤ y → x * h / 1000 ≤ y * h / 1000
scale_le x y h p = let q : x * h ≤ y * h = grind arith in omega arith

div_le : (x y t : ℕ) → x ≤ y → x / t ≤ y / t
div_le x y zero p = rw (div-zero x, div-zero y) (omega arith)
div_le x y (suc t) p =
    (le-div_iff_mul-le {k = suc t} (omega arith)).1 (le_trans (div-mul-le_self x (suc t)) p)

mul_mono :
    (x y h : ℤ)
    → scaled.le (scaled.of_int (pos 0)) x ≡ true
    → scaled.le x y ≡ true
    → scaled.le (scaled.of_int (pos 0)) h ≡ true
    → (scaled.le (scaled.of_int (pos 0)) (scaled.mul x h) ≡ true)
      × (scaled.le (scaled.mul x h) (scaled.mul y h) ≡ true)
unfolding scaled
mul_mono (pos x) (pos y) (pos h) p q r = ground (arith, scale_le x y h)
mul_mono _ _ _ p q r = ground arith

div_mono :
    (x y t : ℤ)
    → scaled.le (scaled.of_int (pos 0)) x ≡ true
    → scaled.le x y ≡ true
    → scaled.lt (scaled.of_int (pos 0)) t ≡ true
    → (scaled.le (scaled.of_int (pos 0)) (scaled.div x t) ≡ true)
      × (scaled.le (scaled.div x t) (scaled.div y t) ≡ true)
unfolding scaled
div_mono (pos x) (pos y) (pos t) p q r = ground (arith, div_le (x * 1000) (y * 1000) t)
div_mono _ _ _ p q r = ground arith

ceil_mono : (x y : ℤ) → scaled.le x y ≡ true → scaled.ceil x ≤ℤ scaled.ceil y
unfolding scaled
ceil_mono (pos x) (pos y) p = ground arith
ceil_mono (pos x) (negsuc y) p = ground arith
ceil_mono (negsuc x) (pos y) p = ground arith
ceil_mono (negsuc x) (negsuc y) p = ground arith

floor_mono : (x y : ℤ) → scaled.le x y ≡ true → scaled.floor x ≤ℤ scaled.floor y
unfolding scaled
floor_mono (pos x) (pos y) p = ground arith
floor_mono (pos x) (negsuc y) p = ground arith
floor_mono (negsuc x) (pos y) p = ground arith
floor_mono (negsuc x) (negsuc y) p = ground arith

round_mono : (x y : ℤ) → scaled.le x y ≡ true → scaled.round x ≤ℤ scaled.round y
unfolding scaled
round_mono (pos x) (pos y) p = ground arith
round_mono (pos x) (negsuc y) p = ground arith
round_mono (negsuc x) (pos y) p = ground arith
round_mono (negsuc x) (negsuc y) p = ground arith

floor-le-ceil : (x : ℤ) → scaled.floor x ≤ℤ scaled.ceil x
unfolding scaled
floor-le-ceil (pos x) = omega arith
floor-le-ceil (negsuc x) = ground arith

of_int_mono : (a b : ℤ) → a ≤ℤ b → scaled.le (scaled.of_int a) (scaled.of_int b) ≡ true
unfolding scaled
of_int_mono (pos x) (pos y) p = ground arith
of_int_mono (pos x) (negsuc y) p = ground arith
of_int_mono (negsuc x) (pos y) p = ground arith
of_int_mono (negsuc x) (negsuc y) p = ground arith

decimal_int : (n : ℕ) → scaled.decimal (n * 10) 1 ≡ scaled.of_int (pos n)
unfolding scaled
decimal_int n = ground arith

refl_of_le : (x y : ℤ) → scaled.le x y ≡ true → (scaled.le x x ≡ true) × (scaled.le y y ≡ true)
unfolding scaled
refl_of_le x y p = ground arith

le_trans_milli : (x y z : ℤ) → scaled.le x y ≡ true → scaled.le y z ≡ true → scaled.le x z ≡ true
unfolding scaled
le_trans_milli x y z p q = ground arith

le_total : (x y : ℤ) → (scaled.le x y ≡ true) ⊎ (scaled.le y x ≡ true)
unfolding scaled
le_total x y = ground arith

lt-eq-not-le : (x y : ℤ) → scaled.lt x y ≡ not (scaled.le y x)
unfolding scaled
lt-eq-not-le x y = ground arith

*ℤ_comm : (x y : ℤ) → x *ℤ y ≡ y *ℤ x
unfolding ◌*ℤ◌
*ℤ_comm x y = rw (
  mul_comm (pos_part x) (pos_part y),
  mul_comm (neg_part x) (neg_part y),
  mul_comm (pos_part x) (neg_part y),
  mul_comm (neg_part x) (pos_part y),
  add_comm (neg_part y * pos_part x) (pos_part y * neg_part x),
)

mul_comm_milli : (x y : ℤ) → scaled.mul x y ≡ scaled.mul y x
unfolding scaled
mul_comm_milli x y = ap (λ z. quot z (pos 1000)) (*ℤ_comm x y)

div_self :
    (x : ℤ) → scaled.lt (scaled.of_int (pos 0)) x ≡ true → scaled.div x x ≡ scaled.of_int (pos 1)
unfolding scaled
div_self (pos zero) p = ground arith
div_self (pos (suc n)) p = ground (arith, mul-div_cancel_left 1000 {n = suc n} (omega arith))
div_self (negsuc n) p = ground arith

one_sub :
    (c : ℤ)
    → scaled.le (scaled.of_int (pos 0)) c ≡ true
    → scaled.le c (scaled.of_int (pos 1)) ≡ true
    → (scaled.le (scaled.of_int (pos 0)) (scaled.sub (scaled.of_int (pos 1)) c) ≡ true)
      × (scaled.le (scaled.sub (scaled.of_int (pos 1)) c) (scaled.of_int (pos 1)) ≡ true)
unfolding scaled
one_sub (pos c) p q = ground arith
one_sub (negsuc c) p q = ground arith

of_int_pos : (n : ℕ) → scaled.lt (scaled.of_int (pos 0)) (scaled.of_int (pos (suc n))) ≡ true
unfolding scaled
of_int_pos n = ground arith

le_self : (x : ℤ) → leb_ℤ x x ≡ true
le_self x = ground arith

fmax_low : (x y : ℤ) → scaled.lt (scaled.fmax x y) x ≡ false
unfolding scaled
fmax_low x y = ground arith

unfoldable pub scaled-IsFloat64 : IsFloat64 ℤ
unfolding scale_le div_le mul_mono div_mono ceil_mono floor_mono round_mono floor-le-ceil
    of_int_mono decimal_int refl_of_le le_trans_milli le_total lt-eq-not-le *ℤ_comm mul_comm_milli
    div_self one_sub of_int_pos le_self fmax_low
scaled-IsFloat64 = record {
  finite = λ x. true;
  in_range = λ x. true;
  of_int_mono = of_int_mono;
  of_int_pos = of_int_pos;
  of_int_finite = λ a. refl;
  decimal_int = λ n h. decimal_int n;
  refl_of_le = refl_of_le;
  le_trans = le_trans_milli;
  le_total = λ x y p q. le_total x y;
  lt-eq-not-le = λ x y p q. lt-eq-not-le x y;
  finite_below = λ x y p q r. refl;
  mul_comm = mul_comm_milli;
  mul_mono = λ x y h p q r s t. mul_mono x y h p q r;
  div_mono = λ x y t p q r s. div_mono x y t p q r;
  div_self = λ x p q. div_self x p;
  number_of_div = λ x y p. le_self x;
  one_sub = one_sub;
  ceil_mono = λ x y p q r. ceil_mono x y p;
  floor_mono = λ x y p q r. floor_mono x y p;
  round_mono = λ x y p q r. round_mono x y p;
  floor-le-ceil = λ x p. floor-le-ceil x;
  in_range_below = λ x y p q r. refl;
  in_range_zero = refl;
  fmax_low = fmax_low;
}
