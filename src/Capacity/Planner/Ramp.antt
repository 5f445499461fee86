-- ===== src/Capacity/Planner/Ramp.antt =====
-- How far one step of the plan may move: the limits of `clampChange`, and when they give way.
use kedastral.Base.{
  ℕ, zero, suc, ◌+◌, ◌≡◌, refl, ◌⊎◌, true, List, [], ◌∷◌, arith, length, if◌then◌else◌,
}
use kedastral.Base.Int.{ℤ, pos, negsuc, ◌≤ℤ◌, ◌<ℤ◌, ltb_ℤ}
use kedastral.Float64.{Float64, int_lit}
use kedastral.Capacity.Planner.{
  Policy, Quantiles, clamp_bounds, round_pods, need_at, max_up, min_down, clamp_change, normalize,
  adjust, use_quantile, chosen_quantile, plan_step, plan, plan_all, to_replicas,
}
use kedastral.Capacity.Planner.Bounds.{AreBounds, clamp_bounds-InBounds, normalize-AreBounds}

-- `clampChange` between an up limit and a down limit, on integers.
abbrev pub between : (up down next : ℤ) → ℤ
between up down next = if ltb_ℤ up next then up else if ltb_ℤ next down then down else next

between-rise :
    (up down lo hi d : ℤ)
    → AreBounds lo hi
    → let r = clamp_bounds (between up down (clamp_bounds d lo hi)) lo hi in
      (r ≤ℤ up) ⊎ (r ≡ lo) ⊎ (r ≤ℤ down)
unfolding clamp_bounds
between-rise up down lo hi d b = ground arith

between-rise_capped :
    (up lo hi d : ℤ)
    → AreBounds lo hi
    → let next = clamp_bounds d lo hi in
      let r = clamp_bounds (between up next next) lo hi in (r ≤ℤ up) ⊎ (r ≡ lo)
unfolding clamp_bounds
between-rise_capped up lo hi d b = ground arith

between-fall :
    (up down lo hi d : ℤ)
    → AreBounds lo hi
    → let r = clamp_bounds (between up down (clamp_bounds d lo hi)) lo hi in
      (down ≤ℤ r) ⊎ ((pos 0 <ℤ hi) × (r ≡ hi)) ⊎ (up ≤ℤ r)
unfolding clamp_bounds
between-fall up down lo hi d b = ground arith

between-provides :
    (up down lo hi d : ℤ)
    → AreBounds lo hi
    → let r = clamp_bounds (between up down (clamp_bounds d lo hi)) lo hi in
      (d ≤ℤ r) ⊎ ((pos 0 <ℤ hi) × (r ≡ hi)) ⊎ (up ≤ℤ r)
unfolding clamp_bounds
between-provides up down lo hi d b = ground arith

module _ {ℓ} {F : Type ℓ} ⦃fl : Float64 F⦄ where
  -- The largest count that one step up from `prev` allows; from 0 it is that of 1.
  abbrev pub up_limit : Policy F → ℤ → ℤ
  up_limit p (pos zero) = max_up (pos 1) p.up_max_factor_per_step
  up_limit p prev = max_up prev p.up_max_factor_per_step

  -- The smallest count that one step down from `prev` allows.
  abbrev pub down_limit : Policy F → ℤ → ℤ
  down_limit p prev = fl.floor (min_down prev p.down_max_percent_per_step)

  -- What one step from `prev` to `r` promises, when `desired` pods are needed. It does not rise
  -- above the up limit, but for the minimum of the policy or a down limit above it. It does not
  -- fall below the down limit (from 0 there is none), but for the maximum or an up limit below it.
  -- It provides the needed pods, but for the maximum or the up limit.
  pub record IsStep (p : Policy F) (desired prev r : ℤ) : Type 0 where
    pub rise :
        (r ≤ℤ up_limit p prev) ⊎ (r ≡ p.min_replicas) ⊎ ((pos 0 <ℤ prev) × (r ≤ℤ down_limit p prev))
    pub fall :
        pos 0 <ℤ prev
        → (down_limit p prev ≤ℤ r)
          ⊎ ((pos 0 <ℤ p.max_replicas) × (r ≡ p.max_replicas))
          ⊎ (up_limit p prev ≤ℤ r)
    pub provides :
        (desired ≤ℤ r) ⊎ ((pos 0 <ℤ p.max_replicas) × (r ≡ p.max_replicas)) ⊎ (up_limit p prev ≤ℤ r)

  -- The steps of a plan that starts at step `i` after the output `prev`.
  abbrev pub AreSteps : Policy F → List F → ℕ → ℤ → List ℤ → Type 0
  AreSteps p adj i prev [] = Unit
  AreSteps p adj i prev (r ∷ rs) =
      IsStep p (round_pods (need_at p adj i) p.rounding_mode) prev r × AreSteps p adj (i + 1) r rs

  pub clamp_change_zero :
      (next : ℤ) (up : F) (pct : ℤ)
      → fl.lt (int_lit 0) up ≡ true
      → clamp_change (pos 0) next up pct ≡ between (max_up (pos 1) up) next next
  unfolding clamp_change
  clamp_change_zero next up pct u = ground arith

  pub clamp_change_pos :
      (n : ℕ) (next : ℤ) (up : F) (pct : ℤ)
      → clamp_change (pos (suc n)) next up pct
        ≡ between (max_up (pos (suc n)) up) (fl.floor (min_down (pos (suc n)) pct)) next
  unfolding clamp_change
  clamp_change_pos n next up pct = ground arith

  pub plan_step_lem :
      (p : Policy F) (adj : List F) (i : ℕ) (prev : ℤ)
      → plan_step p adj i prev
        ≡ clamp_bounds
            (clamp_change prev
              (clamp_bounds
                (round_pods (need_at p adj i) p.rounding_mode)
                p.min_replicas
                p.max_replicas)
              p.up_max_factor_per_step
              p.down_max_percent_per_step)
            p.min_replicas
            p.max_replicas
  unfolding plan_step
  plan_step_lem p adj i prev = refl

  plan_IsStep-IsStep :
      (p : Policy F) (adj : List F) (i n : ℕ)
      → fl.lt (int_lit 0) p.up_max_factor_per_step ≡ true
      → AreBounds p.min_replicas p.max_replicas
      → IsStep p (round_pods (need_at p adj i) p.rounding_mode) (pos n) (plan_step p adj i (pos n))
  plan_IsStep-IsStep p adj i zero u b =
      let d = round_pods (need_at p adj i) p.rounding_mode in
      let lo = p.min_replicas in
      let hi = p.max_replicas in
      let up = max_up (pos 1) p.up_max_factor_per_step in
      let next = clamp_bounds d lo hi in
      rw (plan_step_lem, clamp_change_zero next _ p.down_max_percent_per_step u)
        (record {
          rise = ground (arith, between-rise_capped up lo hi d b);
          fall = λ h. absurd (omega arith);
          provides = between-provides up next lo hi d b;
        })
  plan_IsStep-IsStep p adj i (suc n) u b =
      let d = round_pods (need_at p adj i) p.rounding_mode in
      let lo = p.min_replicas in
      let hi = p.max_replicas in
      let up = max_up (pos (suc n)) p.up_max_factor_per_step in
      let down = down_limit p (pos (suc n)) in
      rw (plan_step_lem, clamp_change_pos)
        (record {
          rise = ground (arith, between-rise up down lo hi d b);
          fall = λ h. between-fall up down lo hi d b;
          provides = between-provides up down lo hi d b;
        })

  IsStep-IsStep :
      (p : Policy F) (adj : List F) (i : ℕ) (prev : ℤ)
      → fl.lt (int_lit 0) p.up_max_factor_per_step ≡ true
      → AreBounds p.min_replicas p.max_replicas
      → pos 0 ≤ℤ prev
      → IsStep p (round_pods (need_at p adj i) p.rounding_mode) prev (plan_step p adj i prev)
  IsStep-IsStep p adj i (pos n) u b h = plan_IsStep-IsStep p adj i n u b
  IsStep-IsStep p adj i (negsuc n) u b h = absurd (omega arith)

  pub plan_step_nonneg :
      (p : Policy F) (adj : List F) (i : ℕ) (prev : ℤ)
      → AreBounds p.min_replicas p.max_replicas
      → pos 0 ≤ℤ plan_step p adj i prev
  plan_step_nonneg p adj i prev b =
      let d = round_pods (need_at p adj i) p.rounding_mode in
      let next = clamp_bounds d p.min_replicas p.max_replicas in
      let moved = clamp_change prev next p.up_max_factor_per_step p.down_max_percent_per_step in
      let inside = clamp_bounds-InBounds moved p.min_replicas p.max_replicas b in
      rw plan_step_lem (omega (arith, inside.0, b.0))

  plan-AreSteps :
      (p : Policy F) (adj : List F) (left i : ℕ) (prev : ℤ)
      → fl.lt (int_lit 0) p.up_max_factor_per_step ≡ true
      → AreBounds p.min_replicas p.max_replicas
      → pos 0 ≤ℤ prev
      → AreSteps p adj i prev (plan p adj left i prev)
  unfolding plan
  plan-AreSteps p adj zero i prev u b h = tt
  plan-AreSteps p adj (suc left) i prev u b h = (
    IsStep-IsStep p adj i prev u b h,
    plan-AreSteps p adj left (i + 1) (plan_step p adj i prev) u b (plan_step_nonneg p adj i prev b),
  )

  -- The load of each step in pods, before rounding.
  abbrev pub load : Policy F → List F → Quantiles F → List F
  load p forecast q = adjust p (use_quantile p forecast q) (chosen_quantile p q) 0 forecast

  pub plan_all_lem :
      (p : Policy F) (prev : ℤ) (forecast : List F) (q : Quantiles F)
      → plan_all p prev forecast q
        ≡ plan p
            (load p forecast q)
            (length forecast)
            0
            (clamp_bounds prev p.min_replicas p.max_replicas)
  unfolding plan_all
  plan_all_lem p prev forecast q = refl

  plan_all-AreSteps :
      (p : Policy F) (prev : ℤ) (forecast : List F) (q : Quantiles F)
      → fl.lt (int_lit 0) p.up_max_factor_per_step ≡ true
      → AreBounds p.min_replicas p.max_replicas
      → AreSteps p
          (load p forecast q)
          0
          (clamp_bounds prev p.min_replicas p.max_replicas)
          (plan_all p prev forecast q)
  plan_all-AreSteps p prev forecast q u b =
      let inside = clamp_bounds-InBounds prev p.min_replicas p.max_replicas b in
      rw plan_all_lem (
        plan-AreSteps p (load p forecast q) (length forecast) 0 _ u b
          (omega (arith, inside.0, b.0)))

  -- Each planned count follows the one before it (the first one the previous count, brought into
  -- the bounds) by a step that keeps the change limits of the corrected policy and provides the
  -- needed pods, with the exceptions that `IsStep` lists. The up factor may not be NaN.
  pub to_replicas-AreSteps :
      (prev : ℤ) (forecast : List F) (step_sec : ℤ) (p : Policy F) (q : Quantiles F)
      → fl.lt (int_lit 0) (normalize p).up_max_factor_per_step ≡ true
      → AreSteps
          (normalize p)
          (load (normalize p) forecast q)
          0
          (clamp_bounds prev (normalize p).min_replicas (normalize p).max_replicas)
          (to_replicas prev forecast step_sec p q)
  unfolding to_replicas
  to_replicas-AreSteps prev [] step_sec p q u = tt
  to_replicas-AreSteps prev (v ∷ vs) step_sec p q u =
      plan_all-AreSteps (normalize p) prev (v ∷ vs) q u (normalize-AreBounds p)
