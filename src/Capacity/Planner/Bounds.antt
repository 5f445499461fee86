-- ===== src/Capacity/Planner/Bounds.antt =====
-- `ToReplicas` plans one replica count for a forecast value, inside the bounds of the policy.
use kedastral.Base.{ℕ, zero, suc, ◌+◌, ◌≡◌, refl, ap, List, [], ◌∷◌, arith, length, All}
use kedastral.Base.Int.{ℤ, pos, ◌≤ℤ◌, ◌<ℤ◌}
use kedastral.Float64.{Float64}
use kedastral.Capacity.Planner.{
  Policy, Quantiles, clamp_bounds, normalize, plan, plan_all, to_replicas,
}

-- `r` lies in the bounds: no upper bound when `hi` is not positive.
abbrev pub InBounds : ℤ → ℤ → ℤ → Type 0
InBounds lo hi r = (lo ≤ℤ r) × (pos 0 <ℤ hi → r ≤ℤ hi)

-- The bounds do not contradict one another.
abbrev pub AreBounds : ℤ → ℤ → Type 0
AreBounds lo hi = (pos 0 ≤ℤ lo) × (pos 0 <ℤ hi → lo ≤ℤ hi)

pub clamp_bounds-InBounds : (x lo hi : ℤ) → AreBounds lo hi → InBounds lo hi (clamp_bounds x lo hi)
unfolding clamp_bounds
clamp_bounds-InBounds x lo hi h = ground arith

module _ {ℓ} {F : Type ℓ} ⦃fl : Float64 F⦄ where
  pub normalize-AreBounds :
      (p : Policy F) → AreBounds (normalize p).min_replicas (normalize p).max_replicas
  unfolding normalize
  normalize-AreBounds p = ground arith

  plan-InBounds :
      (p : Policy F) (adj : List F) (left i : ℕ) (prev : ℤ)
      → AreBounds p.min_replicas p.max_replicas
      → All (InBounds p.min_replicas p.max_replicas) (plan p adj left i prev)
  unfolding plan
  plan-InBounds p adj zero i prev h = tt
  plan-InBounds p adj (suc left) i prev h =
      (clamp_bounds-InBounds _ _ _ h, plan-InBounds p adj left (i + 1) _ h)

  plan_all-InBounds :
      (p : Policy F) (prev : ℤ) (forecast : List F) (q : Quantiles F)
      → AreBounds p.min_replicas p.max_replicas
      → All (InBounds p.min_replicas p.max_replicas) (plan_all p prev forecast q)
  unfolding plan_all
  plan_all-InBounds p prev forecast q h = plan-InBounds p _ (length forecast) 0 _ h

  -- Every planned count lies in the corrected bounds of the policy, whatever the floats do: at
  -- least the minimum (0 for a negative one), and at most the maximum if that is positive (the
  -- minimum where the maximum is positive and below it).
  pub to_replicas-InBounds :
      (prev : ℤ) (forecast : List F) (step_sec : ℤ) (p : Policy F) (q : Quantiles F)
      → All
          (InBounds (normalize p).min_replicas (normalize p).max_replicas)
          (to_replicas prev forecast step_sec p q)
  unfolding to_replicas
  to_replicas-InBounds prev [] step_sec p q = tt
  to_replicas-InBounds prev (v ∷ vs) step_sec p q =
      plan_all-InBounds (normalize p) prev (v ∷ vs) q (normalize-AreBounds p)

  length-plan :
      (p : Policy F) (adj : List F) (left i : ℕ) (prev : ℤ) → length (plan p adj left i prev) ≡ left
  unfolding plan
  length-plan p adj zero i prev = refl
  length-plan p adj (suc left) i prev = ap suc (length-plan p adj left (i + 1) _)

  length-plan_all :
      (p : Policy F) (prev : ℤ) (forecast : List F) (q : Quantiles F)
      → length (plan_all p prev forecast q) ≡ length forecast
  unfolding plan_all
  length-plan_all p prev forecast q = length-plan p _ (length forecast) 0 _

  -- There is one planned count for each forecast value.
  pub length-to_replicas :
      (prev : ℤ) (forecast : List F) (step_sec : ℤ) (p : Policy F) (q : Quantiles F)
      → length (to_replicas prev forecast step_sec p q) ≡ length forecast
  unfolding to_replicas
  length-to_replicas prev [] step_sec p q = refl
  length-to_replicas prev (v ∷ vs) step_sec p q = length-plan_all (normalize p) prev (v ∷ vs) q
