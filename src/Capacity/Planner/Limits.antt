-- ===== src/Capacity/Planner/Limits.antt =====
-- The limit on one step's change is monotone in the previous count and in the wanted one.
use kedastral.Base.{ℕ, zero, suc, ◌≤◌, ◌≡◌, ap, ◌∙◌, true, arith}
use kedastral.Base.Int.{ℤ, pos, negsuc, ◌≤ℤ◌}
use kedastral.Float64.{Float64, IsFloat64, int_lit, ◌≼◌}
use kedastral.Capacity.Planner.{Policy, max_up, min_down, clamp_change}
use kedastral.Capacity.Planner.Ramp.{between, clamp_change_zero, clamp_change_pos}

between_mono :
    (u d x v e y : ℤ) → u ≤ℤ v → d ≤ℤ e → x ≤ℤ y → d ≤ℤ v → between u d x ≤ℤ between v e y
between_mono u d x v e y p q r s = ground arith

between_mono_capped : (u x v e y : ℤ) → u ≤ℤ v → x ≤ℤ y → between u x x ≤ℤ between v e y
between_mono_capped u x v e y p q = ground arith

module _ {ℓ} {F : Type ℓ} ⦃fl : Float64 F⦄ (laws : IsFloat64 F) where
  open laws use {
    finite, in_range, of_int_mono, of_int_pos, of_int_finite, decimal_int, le_trans, finite_below,
    mul_comm, mul_mono, div_mono, div_self, one_sub, ceil_mono, floor_mono, floor-le-ceil,
    in_range_below, refl_of_le, lt-eq-not-le,
  }

  -- What the change limits need of the policy: an up factor that is a finite number and at least 1,
  -- a percentage, an upper bound, and room in an `int` for the step up from that bound.
  pub record HasLimits (p : Policy F) (top : ℕ) : Type 0 where
    pub up_ge_one : int_lit 1 ≼ p.up_max_factor_per_step
    pub up_finite : finite p.up_max_factor_per_step ≡ true
    pub percent : ℕ
    pub percent_eq : p.down_max_percent_per_step ≡ pos percent
    pub percent_le : percent ≤ 100
    pub has_max : p.max_replicas ≡ pos (suc top)
    pub fits : in_range (fl.mul (int_lit (suc top)) p.up_max_factor_per_step) ≡ true

  module _ (p : Policy F) (top : ℕ) (l : HasLimits p top) where
    abbrev up : F
    up = p.up_max_factor_per_step

    -- the share that one step down keeps
    abbrev share : F
    share = fl.sub (int_lit 1) (fl.div (int_lit l.percent) (int_lit 100))

    share_bounds : (int_lit 0 ≼ share) × (share ≼ int_lit 1)
    share_bounds =
        let hundred_pos = of_int_pos 99 in
        let hundred_fin = of_int_finite (pos 100) in
        let low = of_int_mono (pos 0) (pos l.percent) (omega arith) in
        let high = of_int_mono (pos l.percent) (pos 100) (omega (arith, l.percent_le)) in
        let (c0, c1) = div_mono _ _ (int_lit 100) low high hundred_pos hundred_fin in
        one_sub _ c0 (rw (div_self (int_lit 100) hundred_pos hundred_fin) at c1)

    int_nonneg : (n : ℕ) → fl.of_int (pos 0) ≼ int_lit n
    int_nonneg n = of_int_mono (pos 0) (pos n) (omega arith)

    up_nonneg : int_lit 0 ≼ up
    up_nonneg = le_trans _ (int_lit 1) _ (int_nonneg 1) l.up_ge_one

    raised : ℕ → F
    raised n = fl.mul (int_lit n) up

    raised_mono : (m n : ℕ) → m ≤ n → (int_lit 0 ≼ raised m) × (raised m ≼ raised n)
    unfolding raised
    raised_mono m n h =
        mul_mono _ _ up (int_nonneg m) (of_int_mono (pos m) (pos n) (omega arith)) up_nonneg
          (of_int_finite (pos n)) l.up_finite

    raised_InRange : (n : ℕ) → n ≤ suc top → in_range (raised n) ≡ true
    unfolding raised
    raised_InRange n h = let (r0, r1) = raised_mono n (suc top) h in in_range_below _ _ r0 r1 l.fits

    max_up_mono : (m n : ℕ) → m ≤ n → n ≤ suc top → max_up (pos m) up ≤ℤ max_up (pos n) up
    unfolding max_up raised
    max_up_mono m n h k =
        ceil_mono _ _ (raised_mono m n h).1 (raised_InRange m (omega arith)) (raised_InRange n k)

    lowered : ℕ → F
    lowered n = fl.mul (int_lit n) share

    lowered_mono : (m n : ℕ) → m ≤ n → (int_lit 0 ≼ lowered m) × (lowered m ≼ lowered n)
    unfolding lowered
    lowered_mono m n h =
        mul_mono _ _ share (int_nonneg m) (of_int_mono (pos m) (pos n) (omega arith)) share_bounds.0
          (of_int_finite (pos n))
          (finite_below share (int_lit 1) share_bounds.0 share_bounds.1 (of_int_finite (pos 1)))

    lowered-le-raised : (n : ℕ) → lowered n ≼ raised n
    unfolding lowered raised
    lowered-le-raised n =
        rw (mul_comm (int_lit n) share, mul_comm (int_lit n) up)
          (mul_mono share up (int_lit n) share_bounds.0 (le_trans _ _ _ share_bounds.1 l.up_ge_one)
            (int_nonneg n) l.up_finite (of_int_finite (pos n))).1

    lowered_InRange : (n : ℕ) → n ≤ suc top → in_range (lowered n) ≡ true
    lowered_InRange n h =
        in_range_below _ _ (lowered_mono n n (omega arith)).0 (lowered-le-raised n)
          (raised_InRange n h)

    abbrev down : ℕ → ℤ
    down n = fl.floor (lowered n)

    min_down-eq-lowered : (n : ℕ) → min_down (pos n) p.down_max_percent_per_step ≡ lowered n
    unfolding min_down lowered
    min_down-eq-lowered n =
        let one : fl.decimal 10 1 ≡ int_lit 1 = decimal_int 1 (omega arith) in
        let hundred : fl.decimal 1000 1 ≡ int_lit 100 = decimal_int 100 (omega arith) in
        cc (one, hundred, l.percent_eq)

    down_mono : (m n : ℕ) → m ≤ n → n ≤ suc top → down m ≤ℤ down n
    down_mono m n h k =
        floor_mono _ _ (lowered_mono m n h).1 (lowered_InRange m (omega arith))
          (lowered_InRange n k)

    down-le-max_up_self : (n : ℕ) → n ≤ suc top → down n ≤ℤ max_up (pos n) up
    unfolding max_up raised
    down-le-max_up_self n k =
        let small = lowered_InRange n k in
        omega (
          arith,
          floor-le-ceil (lowered n) small,
          ceil_mono _ _ (lowered-le-raised n) small (raised_InRange n k),
        )

    down-le-max_up : (m n : ℕ) → m ≤ n → n ≤ suc top → down m ≤ℤ max_up (pos n) up
    down-le-max_up m n h k = omega (arith, down-le-max_up_self m (omega arith), max_up_mono m n h k)

    -- Between two previous counts up to the maximum and two wanted ones.
    change : ℤ → ℤ → ℤ
    change prev next = clamp_change prev next up p.down_max_percent_per_step

    change_pos :
        (n : ℕ) (next : ℤ)
        → change (pos (suc n)) next ≡ between (max_up (pos (suc n)) up) (down (suc n)) next
    unfolding change
    change_pos n next =
        clamp_change_pos n next up p.down_max_percent_per_step
        ∙ ap (λ z. between (max_up (pos (suc n)) up) (fl.floor z) next)
            (min_down-eq-lowered (suc n))

    up_positive : fl.lt (int_lit 0) up ≡ true
    up_positive =
        let one_num = (refl_of_le (int_lit 1) up l.up_ge_one).0 in
        let up_num = (refl_of_le (int_lit 1) up l.up_ge_one).1 in
        ground (
          arith,
          of_int_pos 0,
          lt-eq-not-le (int_lit 0) up (int_nonneg 0) up_num,
          lt-eq-not-le (int_lit 0) (int_lit 1) (int_nonneg 0) one_num,
          le_trans (int_lit 1) up (int_lit 0),
        )

    change_zero : (next : ℤ) → change (pos 0) next ≡ between (max_up (pos 1) up) next next
    unfolding change
    change_zero next = clamp_change_zero next up p.down_max_percent_per_step up_positive

    change_mono :
        (m n : ℕ) (x y : ℤ) → m ≤ n → n ≤ suc top → x ≤ℤ y → change (pos m) x ≤ℤ change (pos n) y
    change_mono zero zero x y h k q =
        rw (change_zero x, change_zero y)
          (between_mono_capped (max_up (pos 1) up) x (max_up (pos 1) up) y y
            (max_up_mono 1 1 (omega arith) (omega arith)) q)
    change_mono zero (suc n) x y h k q =
        rw (change_zero x, change_pos n y)
          (between_mono_capped (max_up (pos 1) up) x (max_up (pos (suc n)) up) (down (suc n)) y
            (max_up_mono 1 (suc n) (omega arith) k) q)
    change_mono (suc m) zero x y h k q = absurd (omega arith)
    change_mono (suc m) (suc n) x y h k q =
        rw (change_pos m x, change_pos n y)
          (between_mono (max_up (pos (suc m)) up) (down (suc m)) x (max_up (pos (suc n)) up)
            (down (suc n)) y (max_up_mono (suc m) (suc n) h k) (down_mono (suc m) (suc n) h k) q
            (down-le-max_up (suc m) (suc n) h k))

    -- a previous count that the plan can reach
    abbrev pub Reached : ℤ → Type 0
    Reached a = (pos 0 ≤ℤ a) × (a ≤ℤ pos (suc top))

    pub clamp_change_mono :
        (a b x y : ℤ)
        → Reached a
        → Reached b
        → a ≤ℤ b
        → x ≤ℤ y
        → clamp_change a x p.up_max_factor_per_step p.down_max_percent_per_step
          ≤ℤ clamp_change b y p.up_max_factor_per_step p.down_max_percent_per_step
    unfolding change
    clamp_change_mono (pos m) (pos n) x y ra rb h q =
        change_mono m n x y (omega arith) (omega arith) q
    clamp_change_mono (negsuc m) b x y ra rb h q = absurd (omega arith)
    clamp_change_mono (pos m) (negsuc n) x y ra rb h q = absurd (omega arith)
