-- ===== src/Capacity/Planner/Monotone.antt =====
-- A larger forecast, after a larger previous count, never plans fewer replicas.
use kedastral.Base.{
  ℕ, zero, suc, ◌+◌, ◌≡◌, refl, true, false, none, List, [], ◌∷◌, arith, length, All, All₂,
  length-All₂,
}
use kedastral.Base.Int.{ℤ, pos, ◌≤ℤ◌}
use kedastral.Float64.{Float64, IsFloat64, ◌≼◌}
use kedastral.Capacity.Planner.{
  Policy, clamp_bounds, round_pods, need_at, clamp_change, adjust, use_quantile, chosen_quantile,
  normalize, plan_step, plan, plan_all, to_replicas, Quantiles,
}
use kedastral.Capacity.Planner.Bounds.{
  AreBounds, InBounds, clamp_bounds-InBounds, normalize-AreBounds,
}
use kedastral.Capacity.Planner.Ramp.{plan_step_lem, load, plan_all_lem}
use kedastral.Capacity.Planner.Loads.{HasLoads, LoadLe, InRange, adjust_mono, desired_mono}
use kedastral.Capacity.Planner.Limits.{HasLimits, Reached, clamp_change_mono}

clamp_bounds_mono :
    (x y lo hi : ℤ) → AreBounds lo hi → x ≤ℤ y → clamp_bounds x lo hi ≤ℤ clamp_bounds y lo hi
unfolding clamp_bounds
clamp_bounds_mono x y lo hi b h = ground arith

InBounds-reached :
    (lo hi x : ℤ) (top : ℕ)
    → hi ≡ pos (suc top)
    → AreBounds lo hi
    → InBounds lo hi x
    → (pos 0 ≤ℤ x) × (x ≤ℤ pos (suc top))
InBounds-reached lo hi x top e b h = ground arith

module _ {ℓ} {F : Type ℓ} ⦃fl : Float64 F⦄ where
  to_replicas_cons :
      (prev : ℤ) (v : F) (vs : List F) (step_sec : ℤ) (p : Policy F) (q : Quantiles F)
      → to_replicas prev (v ∷ vs) step_sec p q ≡ plan_all (normalize p) prev (v ∷ vs) q
  unfolding to_replicas
  to_replicas_cons prev v vs step_sec p q = refl

module _ {ℓ} {F : Type ℓ} ⦃fl : Float64 F⦄ (laws : IsFloat64 F) where
  open laws use {
    finite, in_range, of_int_mono, of_int_pos, of_int_finite, decimal_int, le_trans, finite_below,
    mul_comm, mul_mono, div_mono, div_self, one_sub, ceil_mono, floor_mono, floor-le-ceil,
    in_range_below, refl_of_le, lt-eq-not-le,
  }

  load-none :
      (p : Policy F) (vs : List F) → load p vs none ≡ adjust p false (chosen_quantile p none) 0 vs
  load-none p vs = rw (no_quantile p vs)
    where
      no_quantile : (p : Policy F) (vs : List F) → use_quantile p vs none ≡ false
      no_quantile p vs = unfold use_quantile in ground arith

  module _ (p : Policy F) (top : ℕ) (l : HasLimits laws p top) where
    abbrev change : ℤ → ℤ → ℤ
    change prev next = clamp_change prev next p.up_max_factor_per_step p.down_max_percent_per_step

    module _ (b : AreBounds p.min_replicas p.max_replicas) where
      plan_step-Reached :
          (adj : List F) (i : ℕ) (prev : ℤ) → Reached laws p top l (plan_step p adj i prev)
      plan_step-Reached adj i prev =
          let d = round_pods (need_at p adj i) p.rounding_mode in
          let next = clamp_bounds d p.min_replicas p.max_replicas in
          let lo = p.min_replicas in
          let hi = p.max_replicas in
          rw plan_step_lem (
            InBounds-reached lo hi _ top l.has_max b
              (clamp_bounds-InBounds (change prev next) lo hi b))

      plan_step_mono :
          (xs ys : List F) (i : ℕ) (prev prev' : ℤ)
          → All₂ (LoadLe laws) xs ys
          → All (InRange laws) ys
          → Reached laws p top l prev
          → Reached laws p top l prev'
          → prev ≤ℤ prev'
          → plan_step p xs i prev ≤ℤ plan_step p ys i prev'
      plan_step_mono xs ys i prev prev' h r reached reached' q =
          let lo = p.min_replicas in
          let hi = p.max_replicas in
          let d = round_pods (need_at p xs i) p.rounding_mode in
          let d' = round_pods (need_at p ys i) p.rounding_mode in
          let next = clamp_bounds d lo hi in
          let next' = clamp_bounds d' lo hi in
          let wanted = clamp_bounds_mono d d' lo hi b (desired_mono laws p xs ys i h r) in
          rw (plan_step_lem p xs i prev, plan_step_lem p ys i prev')
            (clamp_bounds_mono (change prev next) (change prev' next') lo hi b
              (clamp_change_mono laws p top l prev prev' next next' reached reached' q wanted))

      plan_mono :
          (xs ys : List F) (left i : ℕ) (prev prev' : ℤ)
          → All₂ (LoadLe laws) xs ys
          → All (InRange laws) ys
          → Reached laws p top l prev
          → Reached laws p top l prev'
          → prev ≤ℤ prev'
          → All₂ ◌≤ℤ◌ (plan p xs left i prev) (plan p ys left i prev')
      unfolding plan
      plan_mono xs ys zero i prev prev' h r reached reached' q = tt
      plan_mono xs ys (suc left) i prev prev' h r reached reached' q =
          let step = plan_step_mono xs ys i prev prev' h r reached reached' q in
          (
            step,
            plan_mono xs ys left (i + 1) (plan_step p xs i prev) (plan_step p ys i prev') h r
                (plan_step-Reached xs i prev) (plan_step-Reached ys i prev') step,
          )

    plan_all_mono :
        (prev prev' : ℤ) (vs ws : List F)
        → AreBounds p.min_replicas p.max_replicas
        → HasLoads laws p
        → prev ≤ℤ prev'
        → All₂ ◌≼◌ vs ws
        → All (λ w. finite w ≡ true) ws
        → All (InRange laws) (load p ws none)
        → All₂ ◌≤ℤ◌ (plan_all p prev vs none) (plan_all p prev' ws none)
    plan_all_mono prev prev' vs ws b t q h fin r =
        let lo = p.min_replicas in
        let hi = p.max_replicas in
        let e = length-All₂ ◌≼◌ vs ws h in
        let loads = adjust_mono laws p (chosen_quantile p none) 0 vs ws t h fin in
        rw (plan_all_lem p prev vs none, plan_all_lem p prev' ws none, e)
          (plan_mono b (load p vs none) (load p ws none) (length ws) 0 _ _
            (rw (load-none p vs, load-none p ws) loads) r
            (InBounds-reached lo hi _ top l.has_max b (clamp_bounds-InBounds prev lo hi b))
            (InBounds-reached lo hi _ top l.has_max b (clamp_bounds-InBounds prev' lo hi b))
            (clamp_bounds_mono prev prev' lo hi b q))

  -- A policy under which more load never means fewer replicas, with `top + 1` as its maximum.
  pub record IsTame (p : Policy F) (top : ℕ) : Type 0 where
    pub loads : HasLoads laws p
    pub limits : HasLimits laws p top

  -- Without quantiles, a forecast that is nowhere smaller, planned after a previous count that is
  -- not smaller, gives a plan that is nowhere smaller. The corrected policy must have a finite
  -- headroom, a positive finite target, a finite up factor of at least 1, a percentage and a positive
  -- maximum; the larger forecast must be finite, its loads and the step up from the maximum in the
  -- range of `int`.
  pub to_replicas_mono :
      (prev prev' : ℤ) (vs ws : List F) (step_sec : ℤ) (p : Policy F) (top : ℕ)
      → IsTame (normalize p) top
      → prev ≤ℤ prev'
      → All₂ ◌≼◌ vs ws
      → All (λ w. finite w ≡ true) ws
      → All (InRange laws) (load (normalize p) ws none)
      → All₂ ◌≤ℤ◌ (to_replicas prev vs step_sec p none) (to_replicas prev' ws step_sec p none)
  to_replicas_mono prev prev' [] [] step_sec p top t q h fin r = unfold to_replicas in tt
  to_replicas_mono prev prev' (v ∷ vs) (w ∷ ws) step_sec p top t q h fin r =
      rw (to_replicas_cons prev v vs step_sec p none, to_replicas_cons prev' w ws step_sec p none)
        (plan_all_mono (normalize p) top t.limits prev prev' (v ∷ vs) (w ∷ ws)
          (normalize-AreBounds p) t.loads q h fin r)
  to_replicas_mono prev prev' [] (w ∷ ws) step_sec p top t q h fin r = elim h [ ]
  to_replicas_mono prev prev' (v ∷ vs) [] step_sec p top t q h fin r = elim h [ ]
