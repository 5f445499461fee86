-- ===== src/Capacity/Tests.antt =====
-- Runs of the planner on a policy of 10 requests a second and pod, between 1 and 20 pods.
use kedastral.Base.{◌≡◌, refl, List, [], ◌∷◌, none, arith, str_eq, if◌then◌else◌, some, All, All₂}
use kedastral.Base.Int.{ℤ, pos, ◌≤ℤ◌, wrap64, quot, ◌*ℤ◌}
use kedastral.Float64.Scaled.{scaled, scaled-IsFloat64}
use kedastral.Capacity.Quantile.{
  Strings, IsLevel, parse_quantile_level, parse_quantile_level-IsLevel,
}
use kedastral.Capacity.Planner.{Policy, normalize, clamp_bounds, adjust, to_replicas}
use kedastral.Capacity.Planner.Bounds.{InBounds, to_replicas-InBounds}
use kedastral.Capacity.Planner.Ramp.{AreSteps, load, to_replicas-AreSteps}
use kedastral.Capacity.Planner.Loads.{InRange}
use kedastral.Capacity.Planner.Monotone.{IsTame, to_replicas_mono}

abbrev policy : Policy ℤ
policy = record {
  target_per_pod = pos 10000;
  headroom = pos 1200;
  quantile_level = pos 0;
  min_replicas = pos 1;
  max_replicas = pos 20;
  up_max_factor_per_step = pos 2000;
  down_max_percent_per_step = pos 50;
  prewarm_window_steps = pos 1;
  rounding_mode = "ceil";
}

abbrev forecast : List ℤ
forecast = pos 50000 ∷ pos 120500 ∷ pos 80000 ∷ pos 3000 ∷ []

abbrev higher : List ℤ
higher = pos 50000 ∷ pos 130000 ∷ pos 81000 ∷ pos 13000 ∷ []

planned : to_replicas (pos 2) forecast (pos 60) policy none ≡ pos 4 ∷ pos 8 ∷ pos 10 ∷ pos 5 ∷ []
unfolding to_replicas scaled wrap64
planned = refl

to_replicas-InBounds_example :
    All
      (InBounds (normalize policy).min_replicas (normalize policy).max_replicas)
      (to_replicas (pos 2) forecast (pos 60) policy none)
to_replicas-InBounds_example = to_replicas-InBounds (pos 2) forecast (pos 60) policy none

to_replicas-AreSteps_example :
    AreSteps
      (normalize policy)
      (load (normalize policy) forecast none)
      0
      (clamp_bounds (pos 2) (normalize policy).min_replicas (normalize policy).max_replicas)
      (to_replicas (pos 2) forecast (pos 60) policy none)
unfolding normalize scaled
to_replicas-AreSteps_example = to_replicas-AreSteps (pos 2) forecast (pos 60) policy none refl

policy-IsTame : IsTame scaled-IsFloat64 (normalize policy) 19
unfolding normalize scaled scaled-IsFloat64
policy-IsTame = record {
  loads = record {
    headroom_nonneg = refl;
    headroom_finite = refl;
    target_pos = refl;
    target_finite = refl;
  };
  limits = record {
    up_ge_one = refl;
    up_finite = refl;
    percent = 50;
    percent_eq = refl;
    percent_le = omega arith;
    has_max = refl;
    fits = refl;
  };
}

higher-InRange : All (InRange scaled-IsFloat64) (load (normalize policy) higher none)
unfolding scaled-IsFloat64 adjust
higher-InRange = (refl, (refl, (refl, (refl, tt))))

to_replicas_mono_example :
    All₂ ◌≤ℤ◌
      (to_replicas (pos 2) forecast (pos 60) policy none)
      (to_replicas (pos 3) higher (pos 60) policy none)
unfolding scaled scaled-IsFloat64
to_replicas_mono_example =
    to_replicas_mono scaled-IsFloat64 (pos 2) (pos 3) forecast higher (pos 60) policy 19
      policy-IsTame (omega arith) (refl, (refl, (refl, (refl, tt))))
      (refl, (refl, (refl, (refl, tt)))) higher-InRange

-- package strconv on the one text that the test reads
abbrev lib : Strings ℤ
lib = record {
  trim_space = λ s. s;
  to_lower = λ s. s;
  parse_float = λ s. if str_eq s "90" then some (pos 90000) else none;
}

parse_quantile_level-IsLevel_example : IsLevel scaled-IsFloat64 (pos 900)
unfolding parse_quantile_level scaled quot ◌*ℤ◌
parse_quantile_level-IsLevel_example =
    parse_quantile_level-IsLevel scaled-IsFloat64 lib "p90" (pos 900) refl refl
