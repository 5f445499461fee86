-- ===== src/Controller/Tests.antt =====
-- A policy that leaves its durations to the defaults.
use kedastral.Base.{
  ◌*◌, ◌^◌, ◌≡◌, ◌≢◌, refl, String, true, Option, none, some, [], ◌∷◌, if◌then◌else◌, str_eq,
}
use kedastral.Base.Int.{ℤ, pos}
use kedastral.Base.Result.{ok}
use kedastral.Base.Text.{is_workload_name}
use kedastral.Float64.Scaled.{scaled, scaled-IsFloat64}
use kedastral.Config.Workload.{WorkloadConfig}
use kedastral.Config.Valid.{IsValid}
use kedastral.Controller.Translate.{
  ForecastPolicy, DataSource, workload_key, config_of, to_workload_config,
  to_workload_config-IsValid,
}
use kedastral.Forecaster.Registry.{MultiForecaster, new_multi_forecaster, start_all}
use kedastral.Controller.Reconcile.{
  PolicyObject, Fetched, found, not_found, Cluster, forecaster_manager, Reconciler, reconcile,
}
use kedastral.Forecaster.Registry.Owners.{IsOwned}
use kedastral.Forecaster.Registry.Reachable.{apply_changes, reachable-IsOwned}
use kedastral.Controller.Reconcile.Running.{running_under}
use kedastral.Controller.Reconcile.Outcome.{IsRetried, reconcile-IsRetried, reconcile-running}

abbrev policy : ForecastPolicy ℤ
policy = record {
  namespace = "prod";
  name = "api";
  metric = "rps";
  horizon = "";
  step = "";
  interval = "";
  window = "";
  model_type = "";
  arima = none;
  sarima = none;
  byom_url = "";
  target_per_pod = pos 10000;
  headroom = pos 1200;
  quantile_level = "";
  min_replicas = pos 1;
  max_replicas = pos 10;
  up_max_factor_per_step = pos 2000;
  down_max_percent_per_step = pos 50;
}

abbrev source : DataSource
source = record { source_type = "prometheus"; config = ("query", "up") ∷ [] }

abbrev parse : String → Option ℤ
parse s = none

abbrev translated : WorkloadConfig ℤ
translated =
    config_of policy source (pos (30 * 60 * 10 ^ 9)) (pos (60 * 10 ^ 9)) (pos (30 * 10 ^ 9))
      (pos (30 * 60 * 10 ^ 9))

translates : to_workload_config parse policy source ≡ ok translated
unfolding to_workload_config scaled is_workload_name
translates = refl

to_workload_config-IsValid_example :
    IsValid translated × (translated.name ≡ workload_key "prod" "api")
to_workload_config-IsValid_example =
    to_workload_config-IsValid scaled-IsFloat64 parse policy source translated translates

abbrev policy_object : PolicyObject ℤ
policy_object = record {
  policy = policy;
  generation = pos 3;
  data_source_ref = "metrics";
  target_api_version = "";
  target_kind = "";
  target_name = "api";
  status = record {
    observed_generation = pos 2;
    last_forecast_time = none;
    current_replicas = pos 0;
    desired_replicas = pos 0;
    scaled_object_name = "";
    conditions = [];
  };
}

abbrev policy_named : String → Fetched (PolicyObject ℤ)
policy_named name = if str_eq name "api" then found policy_object else not_found

-- a cluster with one policy and one source
abbrev cluster : Cluster ℤ (Unit {0})
cluster = record {
  get_policy = λ namespace name k. policy_named name;
  get_data_source = λ namespace name k. found source;
  update_status = λ po k. (true, k);
  create_or_update = λ po so k. (true, k);
  list_policies = λ namespace k. some (policy_object ∷ []);
  set_condition = λ c cs. c ∷ cs;
}

-- A forecaster is known by its name.
abbrev build : WorkloadConfig ℤ → Option String
build wc = some wc.name

abbrev name_of : String → String
name_of s = s

abbrev reconciler : Reconciler ℤ (Unit {0}) (MultiForecaster String)
reconciler = record {
  cluster = cluster;
  manager = forecaster_manager build name_of;
  get_latest = λ workload. some none;
  scaler_address = "scaler:9000";
  parse = parse;
}

abbrev registry : MultiForecaster String
registry = start_all (new_multi_forecaster name_of [])

present : cluster.get_policy "prod" "api" tt ≢ not_found
present h = absurd (cc h)

reconcile-IsRetried_example : IsRetried (reconcile reconciler "prod" "api" (tt, registry)).0
reconcile-IsRetried_example =
    reconcile-IsRetried reconciler scaled-IsFloat64 "prod" "api" tt registry present

registry-IsOwned : IsOwned name_of registry
unfolding apply_changes start_all
registry-IsOwned = reachable-IsOwned name_of []

reconcile-running_example :
    running_under name_of "prod-api" (reconcile reconciler "prod" "api" (tt, registry)).1.1 ≡ (
      if str_eq (workload_key "prod" "api") "prod-api"
      then some "prod-api"
      else running_under name_of "prod-api" registry)
unfolding workload_key config_of
reconcile-running_example =
    ((reconcile-running build name_of scaled-IsFloat64 reconciler refl (λ wc w h. cc h) "prod" "api"
          "prod-api" tt registry registry-IsOwned).1
        policy_object source refl refl).0
      translated "prod-api" translates refl
