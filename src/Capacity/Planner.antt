-- ===== src/Capacity/Planner.antt =====
-- pkg/capacity/planner.go: `Policy` and `ToReplicas`, over any type of floats.
pub mod Bounds
pub mod Ramp
pub mod Loads
pub mod Limits
pub mod Monotone
use Prim.Native.Nat.{min}
use kedastral.Base.{
  ℕ, zero, suc, ◌+◌, ◌-◌, String, Bool, true, false, ◌&&◌, Option, none, some, List, [], ◌∷◌, ltb,
  leb, ◌==◌, if◌then◌else◌, length, get_or, str_eq,
}
use kedastral.Base.Int.{ℤ, pos, negsuc, pos_part, ◌+ℤ◌, ◌-ℤ◌, ltb_ℤ, leb_ℤ, eqb_ℤ, wrap64}
use kedastral.Float64.{Float64, int_lit}

pub record Policy {ℓ} (F : Type ℓ) : Type ℓ where
  pub target_per_pod : F
  pub headroom : F
  pub quantile_level : F
  pub min_replicas : ℤ
  pub max_replicas : ℤ
  pub up_max_factor_per_step : F
  pub down_max_percent_per_step : ℤ
  pub prewarm_window_steps : ℤ
  pub rounding_mode : String

-- `map[float64][]float64`; `none` is the nil map.
abbrev pub Quantiles {ℓ} : Type ℓ → Type ℓ
Quantiles F = Option (List (F × List F))

unfoldable pub clamp_bounds : ℤ → ℤ → ℤ → ℤ
clamp_bounds x lo hi = if ltb_ℤ (pos 0) hi && ltb_ℤ hi x then hi else if ltb_ℤ x lo then lo else x

-- `jEnd` of the step `i`, in the 64 bits of an `int`, for `n` steps in all.
unfoldable pub window_end : ℕ → ℕ → ℤ → ℤ
window_end n i prewarm =
    let j_end = wrap64 (pos i +ℤ prewarm) in if leb_ℤ (pos n) j_end then pos n -ℤ pos 1 else j_end

-- How often the window loop `for j := jStart; j <= jEnd` of step `i` runs.
unfoldable pub window_rounds : ℕ → ℕ → ℤ → ℕ
unfolding window_end
window_rounds n i prewarm = pos_part (window_end n i prewarm +ℤ pos 1 -ℤ pos i)

module _ {ℓ} {F : Type ℓ} ⦃fl : Float64 F⦄ where
  -- The defaults and corrections at the head of `ToReplicas`.
  unfoldable pub normalize : Policy F → Policy F
  normalize p =
      let lo : ℤ = if ltb_ℤ p.min_replicas (pos 0) then pos 0 else p.min_replicas in
      record {
        target_per_pod = if fl.le p.target_per_pod (int_lit 0) then int_lit 1 else p.target_per_pod;
        headroom = if fl.lt p.headroom (int_lit 1) then int_lit 1 else p.headroom;
        quantile_level = p.quantile_level;
        min_replicas = lo;
        max_replicas =
            if ltb_ℤ (pos 0) p.max_replicas && ltb_ℤ p.max_replicas lo then lo else p.max_replicas;
        up_max_factor_per_step =
            if fl.le p.up_max_factor_per_step (int_lit 0)
            then fl.decimal 20 1
            else p.up_max_factor_per_step;
        down_max_percent_per_step =
            if ltb_ℤ p.down_max_percent_per_step (pos 0)
            then pos 0
            else if ltb_ℤ (pos 100) p.down_max_percent_per_step
            then pos 100
            else p.down_max_percent_per_step;
        prewarm_window_steps =
            if ltb_ℤ p.prewarm_window_steps (pos 0) then pos 0 else p.prewarm_window_steps;
        rounding_mode = p.rounding_mode;
      }

  -- `m[q]` on a map keyed by floats: the empty slice when the key is missing.
  unfoldable pub level_values : F → List (F × List F) → List F
  level_values q [] = []
  level_values q ((k, vs) ∷ m) = if fl.eq k q then vs else level_values q m

  -- `quantiles[p.QuantileLevel]` on a map that may be nil.
  unfoldable pub chosen_quantile : Policy F → Quantiles F → List F
  unfolding level_values
  chosen_quantile p none = []
  chosen_quantile p (some m) = level_values p.quantile_level m

  unfoldable pub is_not_nil : Quantiles F → Bool
  is_not_nil none = false
  is_not_nil (some m) = true

  unfoldable pub use_quantile : Policy F → List F → Quantiles F → Bool
  unfolding chosen_quantile is_not_nil
  use_quantile p forecast quantiles =
      fl.lt (int_lit 0) p.quantile_level
      && is_not_nil quantiles
      && (length (chosen_quantile p quantiles) == length forecast)

  abbrev pub clamp_zero : F → F
  clamp_zero v = if fl.lt v (int_lit 0) then int_lit 0 else v

  -- The body of the loop that fills `adj`, for the forecast value `v` at index `i`.
  unfoldable pub raw_pods : Policy F → Bool → List F → ℕ → F → F
  raw_pods p by_quantile qs i v =
      let capacity_value : F =
        if by_quantile
        then clamp_zero (get_or qs i (int_lit 0))
        else fl.mul (clamp_zero v) p.headroom in
      fl.div capacity_value p.target_per_pod

  unfoldable pub adjust : Policy F → Bool → List F → ℕ → List F → List F
  unfolding raw_pods
  adjust p by_quantile qs i [] = []
  adjust p by_quantile qs i (v ∷ vs) =
      raw_pods p by_quantile qs i v ∷ adjust p by_quantile qs (i + 1) vs

  unfoldable pub round_pods : F → String → ℤ
  round_pods x mode =
      if str_eq mode "floor"
      then fl.floor x
      else if str_eq mode "round"
      then fl.round x
      else fl.ceil x

  -- The largest integer that one step up from `prev` may reach, and the smallest one down.
  unfoldable pub max_up : ℤ → F → ℤ
  max_up prev up_factor = fl.ceil (fl.mul (fl.of_int prev) up_factor)

  unfoldable pub min_down : ℤ → ℤ → F
  min_down prev down_pct =
      fl.mul (fl.of_int prev)
        (fl.sub (fl.decimal 10 1) (fl.div (fl.of_int down_pct) (fl.decimal 1000 1)))

  unfoldable pub clamp_change : ℤ → ℤ → F → ℤ → ℤ
  unfolding max_up min_down
  clamp_change prev next up_factor down_pct =
      let from : ℤ = if ltb_ℤ prev (pos 0) then pos 0 else prev in
      if eqb_ℤ from (pos 0)
      then (if fl.lt (int_lit 0) up_factor && ltb_ℤ (max_up (pos 1) up_factor) next
          then max_up (pos 1) up_factor
          else next)
      else if ltb_ℤ (max_up from up_factor) next
      then max_up from up_factor
      else if ltb_ℤ next (fl.floor (min_down from down_pct))
      then fl.floor (min_down from down_pct)
      else next

  -- `for j := j; ...` with `rounds` rounds left.
  unfoldable pub peak : List F → ℕ → ℕ → F → F
  peak adj j zero need = need
  peak adj j (suc rounds) need =
      let a = get_or adj j (int_lit 0) in peak adj (j + 1) rounds (if fl.lt need a then a else need)

  unfoldable pub need_at : Policy F → List F → ℕ → F
  unfolding window_rounds peak
  need_at p adj i = peak adj i (window_rounds (length adj) i p.prewarm_window_steps) (int_lit 0)

  -- One round of the main loop: the output of step `i` after the output `prev_out`.
  unfoldable pub plan_step : Policy F → List F → ℕ → ℤ → ℤ
  unfolding need_at round_pods clamp_bounds clamp_change
  plan_step p adj i prev_out =
      let desired = round_pods (need_at p adj i) p.rounding_mode in
      let bounded = clamp_bounds desired p.min_replicas p.max_replicas in
      let changed =
        clamp_change prev_out bounded p.up_max_factor_per_step p.down_max_percent_per_step in
      clamp_bounds changed p.min_replicas p.max_replicas

  -- `for i := range forecast`, with `left` rounds left.
  unfoldable pub plan : Policy F → List F → ℕ → ℕ → ℤ → List ℤ
  unfolding plan_step
  plan p adj zero i prev_out = []
  plan p adj (suc left) i prev_out =
      let desired = plan_step p adj i prev_out in desired ∷ plan p adj left (i + 1) desired

  -- The whole of `ToReplicas` after the corrections. The nil result of an empty forecast is `[]`.
  unfoldable pub plan_all : Policy F → ℤ → List F → Quantiles F → List ℤ
  unfolding use_quantile adjust plan
  plan_all p prev forecast quantiles =
      let adj =
        adjust p (use_quantile p forecast quantiles) (chosen_quantile p quantiles) 0 forecast in
      plan p adj (length forecast) 0 (clamp_bounds prev p.min_replicas p.max_replicas)

  -- `step_sec` is corrected there and read nowhere else.
  unfoldable pub to_replicas : ℤ → List F → ℤ → Policy F → Quantiles F → List ℤ
  unfolding plan_all normalize
  to_replicas prev [] step_sec p quantiles = []
  to_replicas prev (v ∷ vs) step_sec p quantiles = plan_all (normalize p) prev (v ∷ vs) quantiles
