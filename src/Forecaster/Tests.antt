-- ===== src/Forecaster/Tests.antt =====
-- A workload from its configuration through two rounds of the loop, the second without data.
use kedastral.Base.{ℕ, String, ◌*◌, ◌^◌, ◌≡◌, refl, true, false, none, some, List, [], ◌∷◌}
use kedastral.Base.Int.{ℤ, pos, ltb_ℤ, ◌≤ℤ◌, wrap64, ◌+ℤ◌, ◌-ℤ◌, ◌*ℤ◌, quot}
use kedastral.Base.Dict.{lookup, insert, erase}
use kedastral.Base.Result.{ok, err}
use kedastral.Base.Text.{is_workload_name}
use kedastral.Base.Time.{time_sub}
use kedastral.Float64.Scaled.{scaled, scaled-IsFloat64}
use kedastral.Capacity.Quantile.{Strings}
use kedastral.Capacity.Planner.{to_replicas}
use kedastral.Config.Valid.{IsValid, validate_workload-IsValid}
use kedastral.Config.Tests.{raw_config, full_config, validated}
use kedastral.Storage.Snapshot.{Snapshot}
use kedastral.Storage.Memory.{MemoryStore, new_memory_store, put, get_latest}
use kedastral.Scaler.{select_from}
use kedastral.Features.Tests.{calendar, data_frame}
use kedastral.Forecaster.Tick.{Forecast, answered, Services, WorkloadForecaster, tick}
use kedastral.Forecaster.Bounded.{Outcome, tick-Outcome}
use kedastral.Forecaster.Served.{Round, IsBounded, WithinPolicy, run_ticks, run_ticks-IsBounded}
use kedastral.Forecaster.Routes.{Encoding, Body, forecast, handle_get_snapshot}
use kedastral.Forecaster.EndToEnd.{handle_get_snapshot-put}
use kedastral.Config.Workload.{WorkloadConfig}
use kedastral.Models.Arima.{new_arima}
use kedastral.Forecaster.Build.{
  ModelSpec, baseline_model, policy_of, new_for_workload, model_panics, build_workload_forecaster,
  build_workload_forecaster-IsBounded, start,
}
use kedastral.Forecaster.Registry.{new_multi_forecaster, start_all, upsert, remove}
use kedastral.Forecaster.Registry.Owners.{IsOwned, runs}
use kedastral.Forecaster.Registry.Reachable.{
  Change, upsert_change, remove_change, apply_changes, reachable-IsOwned, runs_unique,
}
use kedastral.Forecaster.Promise.{select_from-validate_workload}

abbrev lib : Strings ℤ
lib = record { trim_space = λ s. s; to_lower = λ s. s; parse_float = λ s. none }

full_config-IsValid : IsValid full_config
full_config-IsValid = validate_workload-IsValid scaled-IsFloat64 raw_config full_config validated

abbrev forecaster : WorkloadForecaster ℤ ModelSpec
forecaster = record {
  name = "api-server";
  model = baseline_model "rps" (pos 60) (pos 240);
  policy = policy_of full_config (pos 0);
  horizon = pos (240 * 10 ^ 9);
  step = pos (60 * 10 ^ 9);
  window = pos (30 * 60 * 10 ^ 9);
  interval = pos (30 * 10 ^ 9);
  has_metrics = true;
  current_replicas = pos 0;
}

built : build_workload_forecaster lib true (λ m. m) full_config ≡ ok forecaster
unfolding build_workload_forecaster scaled quot ◌*ℤ◌ ◌-ℤ◌ ◌+ℤ◌
built = refl

abbrev predicted : Forecast ℤ
predicted = record {
  metric = "rps";
  values = pos 25000 ∷ pos 61000 ∷ [];
  step_sec = pos 60;
  horizon = pos 240;
  quantiles = none;
}

abbrev services : Services ℤ ℤ ModelSpec (MemoryStore ℤ)
services = record {
  calendar = calendar;
  collect = λ w. some data_frame;
  train = λ frame m. (true, m);
  predict = λ frame m. (answered predicted, m);
  put = λ s st. (false, st);
}

abbrev rounds : List (Round ℤ ℤ ModelSpec)
rounds =
    record { now = pos 1000; ctx = none; services = services }
    ∷ record { now = pos 2000; ctx = none; services = record services { collect = λ w. none } }
    ∷ []

abbrev snapshot : Snapshot ℤ
snapshot = record {
  workload = "api-server";
  metric = "rps";
  generated_at = pos 1000;
  step_seconds = pos 60;
  horizon_seconds = pos 240;
  values = pos 25000 ∷ pos 61000 ∷ [];
  desired_replicas = pos 2 ∷ pos 4 ∷ [];
  quantiles = none;
}

-- times are not written out, and every number can be encoded
abbrev encoding : Encoding ℤ
encoding = record { rfc3339 = λ t. "2026-01-01T00:00:00Z"; encodable = λ v. true }

abbrev body : Body ℤ
body = record {
  workload = "api-server";
  metric = "rps";
  generated_at = "2026-01-01T00:00:00Z";
  step_seconds = pos 60;
  horizon_seconds = pos 240;
  values = pos 25000 ∷ pos 61000 ∷ [];
  desired_replicas = pos 2 ∷ pos 4 ∷ [];
}

served :
    handle_get_snapshot encoding
      (pos 5000)
      (pos 3000)
      (λ w. get_latest none w (run_ticks rounds (start forecaster)).store)
      "api-server"
    ≡ forecast false body
unfolding handle_get_snapshot get_latest run_ticks new_memory_store scaled is_workload_name lookup
    put insert time_sub to_replicas policy_of wrap64
served = refl

selected : select_from (pos (60 * 10 ^ 9)) (pos 60) (pos 2 ∷ pos 4 ∷ []) ≡ some (pos 4)
unfolding select_from wrap64 ◌*ℤ◌ quot
selected = refl

select_from-validate_workload_example : (pos 0 ≤ℤ pos 4) × (pos 4 ≤ℤ pos 100)
select_from-validate_workload_example =
    select_from-validate_workload scaled-IsFloat64 lib raw_config full_config true (λ m. m)
      forecaster rounds encoding (pos 5000) (pos 3000) (pos (60 * 10 ^ 9)) false body (pos 2)
      (pos 4 ∷ []) (pos 4) validated built served refl selected

forecaster-IsBounded : IsBounded (start forecaster)
forecaster-IsBounded =
    (build_workload_forecaster-IsBounded lib true (λ (m : ModelSpec). m) full_config forecaster
      full_config-IsValid built).0

build_workload_forecaster-IsBounded_example :
    IsBounded (start forecaster)
    × (forecaster.name ≡ full_config.name)
    × ((n : ℤ)
        → WithinPolicy forecaster.policy n
        → (full_config.min_replicas ≤ℤ n) × (n ≤ℤ full_config.max_replicas))
build_workload_forecaster-IsBounded_example =
    build_workload_forecaster-IsBounded lib true (λ m. m) full_config forecaster full_config-IsValid
      built

-- the model of a valid ARIMA configuration
abbrev arima_config : WorkloadConfig ℤ
arima_config = record full_config {
  model = "arima";
  arima = record { p = pos 2; d = pos 1; q = pos 0 };
}

-- an order of 3, which is valid too
panics :
    new_for_workload (record arima_config { arima = record { p = pos 2; d = pos 3; q = pos 0 } })
    ≡ err model_panics
unfolding new_for_workload new_arima scaled
panics = refl

run_ticks-IsBounded_example : IsBounded (run_ticks rounds (start forecaster))
run_ticks-IsBounded_example = run_ticks-IsBounded rounds (start forecaster) forecaster-IsBounded

tick-Outcome_example :
    Outcome services (pos 1000) (start forecaster) (tick services (pos 1000) (start forecaster))
tick-Outcome_example = tick-Outcome services (pos 1000) (start forecaster)

handle_get_snapshot-put_example :
    handle_get_snapshot encoding
      (pos 5000)
      (pos 9000)
      (λ w. get_latest none w (put none snapshot new_memory_store).1)
      "api-server"
    ≡ forecast (ltb_ℤ (pos 5000) (time_sub (pos 9000) (pos 1000))) body
unfolding is_workload_name
handle_get_snapshot-put_example =
    handle_get_snapshot-put encoding (pos 5000) (pos 9000) snapshot new_memory_store refl

abbrev changes : List (Change String)
changes = upsert_change "a" ∷ upsert_change "b" ∷ upsert_change "a" ∷ remove_change "b" ∷ []

-- the second loop of `a` is the only one left
left_alive :
    (apply_changes (λ w. w) changes (start_all (new_multi_forecaster (λ w. w) []))).live
    ≡ (2, "a") ∷ []
unfolding apply_changes start_all new_multi_forecaster upsert remove lookup insert erase
left_alive = refl

reachable-IsOwned_example :
    IsOwned (λ w. w) (apply_changes (λ w. w) changes (start_all (new_multi_forecaster (λ w. w) [])))
reachable-IsOwned_example = reachable-IsOwned (λ w. w) changes

runs_unique_example : ◌≡◌ {A = ℕ} 2 2
unfolding apply_changes start_all new_multi_forecaster upsert remove lookup insert erase runs
runs_unique_example = runs_unique (λ w. w) changes 2 2 "a" "a" refl refl refl
