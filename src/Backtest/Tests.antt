-- ===== src/Backtest/Tests.antt =====
-- The backtest of a model that repeats the last value, and a CSV file with a header.
use kedastral.Base.{◌≡◌, refl, String, str_eq, if◌then◌else◌, Option, none, some, [], ◌∷◌}
use kedastral.Base.Int.{ℤ, pos, quot, ◌*ℤ◌, ◌+ℤ◌, ◌-ℤ◌, wrap64}
use kedastral.Base.Dict.{lookup, insert}
use kedastral.Base.Result.{ok}
use kedastral.Float64.Scaled.{scaled}
use kedastral.Features.{FeatureFrame}
use kedastral.Features.Tests.{calendar}
use kedastral.Backtest.Series.{Series, Numbers, load_csv}
use kedastral.Backtest.Run.{Factory, Config, Report, run}
use kedastral.Forecaster.Tick.{answered}

abbrev repeated : ℤ → FeatureFrame ℤ → ℤ
repeated v [] = v
repeated v (row ∷ rows) = elim (lookup "value" row) [
  | none ↦ repeated v rows
  | some w ↦ repeated w rows
]

abbrev factory : Factory ℤ (Unit {0})
factory = record {
  name = "last";
  fresh = some tt;
  train = λ frame m. some m;
  predict = λ frame m. answered record {
    metric = "rps";
    values = repeated (pos 0) frame ∷ [];
    step_sec = pos 60;
    horizon = pos 60;
    quantiles = none;
  };
}

abbrev config : Config ℤ (Unit {0})
config = record {
  window = pos 120000000000;
  horizon = pos 60000000000;
  step = pos 60000000000;
  stride = pos 0;
  new_model = some factory;
  policy = record {
    target_per_pod = pos 10000;
    headroom = pos 1000;
    quantile_level = pos 0;
    min_replicas = pos 1;
    max_replicas = pos 10;
    up_max_factor_per_step = pos 2000;
    down_max_percent_per_step = pos 50;
    prewarm_window_steps = pos 0;
    rounding_mode = "ceil";
  };
}

abbrev series : Series ℤ ℤ
series = (pos 0, pos 10000) ∷ (pos 60, pos 12000) ∷ (pos 120, pos 31000) ∷ (pos 180, pos 30000) ∷ []

abbrev reported : Report ℤ
reported = record {
  model = "last";
  windows = 2;
  skipped = 0;
  points = 2;
  mae = pos 10000;
  rmse = pos 13453;
  mape = pos 32200;
  under_provisioned_rate = pos 500;
  mean_over_provision = pos 166;
}

ran : run calendar config series ≡ ok reported
unfolding run lookup insert scaled quot ◌*ℤ◌ ◌+ℤ◌ ◌-ℤ◌ wrap64
ran = refl

abbrev one : String → Option ℤ
one s = if str_eq s "1" then some (pos 1) else none

abbrev numbers : Numbers ℤ
numbers = record { parse_float = one; parse_int = one }

loaded :
    load_csv calendar numbers (some (("time" ∷ "rps" ∷ []) ∷ ("1" ∷ "1" ∷ []) ∷ []))
    ≡ ok ((pos 1, pos 1) ∷ [])
unfolding load_csv
loaded = refl
