-- ===== src/Capacity/Planner/Loads.antt =====
-- A larger forecast gives larger loads, and larger needs at each step.
use kedastral.Base.{
  ℕ, zero, suc, ◌+◌, ◌≡◌, true, false, List, [], ◌∷◌, arith, length, get_or, All, All₂, length-All₂,
  if◌then◌else◌,
}
use kedastral.Base.Int.{pos, ◌≤ℤ◌}
use kedastral.Float64.{Float64, IsFloat64, int_lit, ◌≼◌}
use kedastral.Capacity.Planner.{
  Policy, clamp_zero, raw_pods, adjust, peak, window_rounds, need_at, round_pods,
}

module _ {ℓ} {F : Type ℓ} ⦃fl : Float64 F⦄ (laws : IsFloat64 F) where
  open laws use {
    finite, in_range, of_int_mono, of_int_finite, refl_of_le, le_trans, lt-eq-not-le, mul_mono,
    div_mono, ceil_mono, floor_mono, round_mono, in_range_below, in_range_zero,
  }

  zero_refl : fl.of_int (pos 0) ≼ int_lit 0
  zero_refl = of_int_mono (pos 0) (pos 0) (omega arith)

  -- Two loads, the first at most the second.
  abbrev pub LoadLe : F → F → Type 0
  LoadLe a b = (int_lit 0 ≼ a) × (a ≼ b)

  clamp_zero_mono : (v w : F) → v ≼ w → LoadLe (clamp_zero v) (clamp_zero w)
  clamp_zero_mono v w h =
      let (nv, nw) = refl_of_le v w h in
      ground (
        arith,
        zero_refl,
        lt-eq-not-le v (int_lit 0) nv zero_refl,
        lt-eq-not-le w (int_lit 0) nw zero_refl,
        le_trans (int_lit 0) v w,
      )

  clamp_zero_finite : (w : F) → finite w ≡ true → finite (clamp_zero w) ≡ true
  clamp_zero_finite w h = ground (arith, of_int_finite (pos 0))

  -- What the loads need of the policy: a headroom and a target that are finite numbers.
  pub record HasLoads (p : Policy F) : Type 0 where
    pub headroom_nonneg : int_lit 0 ≼ p.headroom
    pub headroom_finite : finite p.headroom ≡ true
    pub target_pos : fl.lt (int_lit 0) p.target_per_pod ≡ true
    pub target_finite : finite p.target_per_pod ≡ true

  raw_pods_mono :
      (p : Policy F) (qs : List F) (i : ℕ) (v w : F)
      → HasLoads p
      → v ≼ w
      → finite w ≡ true
      → LoadLe (raw_pods p false qs i v) (raw_pods p false qs i w)
  unfolding raw_pods
  raw_pods_mono p qs i v w t h fin =
      let (c0, c1) = clamp_zero_mono v w h in
      let (m0, m1) =
        mul_mono _ _ p.headroom c0 c1 t.headroom_nonneg (clamp_zero_finite w fin)
          t.headroom_finite in
      div_mono _ _ p.target_per_pod m0 m1 t.target_pos t.target_finite

  pub adjust_mono :
      (p : Policy F) (qs : List F) (i : ℕ) (vs ws : List F)
      → HasLoads p
      → All₂ ◌≼◌ vs ws
      → All (λ w. finite w ≡ true) ws
      → All₂ LoadLe (adjust p false qs i vs) (adjust p false qs i ws)
  unfolding adjust
  adjust_mono p qs i [] [] t h fin = tt
  adjust_mono p qs i (v ∷ vs) (w ∷ ws) t h fin =
      (raw_pods_mono p qs i v w t h.0 fin.0, adjust_mono p qs (i + 1) vs ws t h.1 fin.1)
  adjust_mono p qs i [] (w ∷ ws) t h fin = elim h [ ]
  adjust_mono p qs i (v ∷ vs) [] t h fin = elim h [ ]

  abbrev pub InRange : F → Type 0
  InRange b = in_range b ≡ true

  get_or-LoadLe :
      (xs ys : List F) (j : ℕ)
      → All₂ LoadLe xs ys
      → LoadLe (get_or xs j (int_lit 0)) (get_or ys j (int_lit 0))
  get_or-LoadLe [] [] j h = (zero_refl, zero_refl)
  get_or-LoadLe (a ∷ xs) (b ∷ ys) zero h = h.0
  get_or-LoadLe (a ∷ xs) (b ∷ ys) (suc j) h = get_or-LoadLe xs ys j h.1
  get_or-LoadLe [] (b ∷ ys) j h = elim h [ ]
  get_or-LoadLe (a ∷ xs) [] j h = elim h [ ]

  get_or-InRange : (ys : List F) (j : ℕ) → All InRange ys → InRange (get_or ys j (int_lit 0))
  get_or-InRange [] j h = in_range_zero
  get_or-InRange (b ∷ ys) zero h = h.0
  get_or-InRange (b ∷ ys) (suc j) h = get_or-InRange ys j h.1

  abbrev larger : F → F → F
  larger need a = if fl.lt need a then a else need

  larger_mono : (m n a b : F) → LoadLe m n → LoadLe a b → LoadLe (larger m a) (larger n b)
  larger_mono m n a b h k =
      let (nm, nn) = refl_of_le m n h.1 in
      let (na, nb) = refl_of_le a b k.1 in
      ground (
        arith,
        lt-eq-not-le m a nm na,
        lt-eq-not-le n b nn nb,
        le_trans m n b,
        le_trans a m n,
        le_trans a b n,
        laws.le_total n b nn nb,
        laws.le_total m a nm na,
      )

  peak_mono :
      (xs ys : List F) (j rounds : ℕ) (m n : F)
      → All₂ LoadLe xs ys
      → All InRange ys
      → LoadLe m n
      → InRange n
      → LoadLe (peak xs j rounds m) (peak ys j rounds n) × InRange (peak ys j rounds n)
  unfolding peak
  peak_mono xs ys j zero m n h r k i = (k, i)
  peak_mono xs ys j (suc rounds) m n h r k i =
      let a = get_or xs j (int_lit 0) in
      let b = get_or ys j (int_lit 0) in
      let small : InRange (larger n b) = ground (arith, get_or-InRange ys j r) in
      peak_mono xs ys (j + 1) rounds (larger m a) (larger n b) h r
        (larger_mono m n a b k (get_or-LoadLe xs ys j h)) small

  need_at_mono :
      (p : Policy F) (xs ys : List F) (i : ℕ)
      → All₂ LoadLe xs ys
      → All InRange ys
      → LoadLe (need_at p xs i) (need_at p ys i) × InRange (need_at p ys i)
  unfolding need_at
  need_at_mono p xs ys i h r =
      let rounds = window_rounds (length ys) i p.prewarm_window_steps in
      rw (length-All₂ LoadLe xs ys h)
        (peak_mono xs ys i rounds (int_lit 0) (int_lit 0) h r (zero_refl, zero_refl) in_range_zero)

  pub desired_mono :
      (p : Policy F) (xs ys : List F) (i : ℕ)
      → All₂ LoadLe xs ys
      → All InRange ys
      → round_pods (need_at p xs i) p.rounding_mode ≤ℤ round_pods (need_at p ys i) p.rounding_mode
  unfolding round_pods
  desired_mono p xs ys i h r =
      let (k, big) = need_at_mono p xs ys i h r in
      let small = in_range_below _ _ k.0 k.1 big in
      ground (
        arith,
        floor_mono _ _ k.1 small big,
        round_mono _ _ k.1 small big,
        ceil_mono _ _ k.1 small big,
      )
