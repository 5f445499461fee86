-- ===== src/Config/Tests.antt =====
-- A configuration with defaults to fill in, and what the validation makes of it.
use mathlib.Core.List.{◌++◌ as append}
use kedastral.Config.Environment.{
  split_env, split_env-append, to_lower_camel_case, to_lower_camel_case-IsNot, IsNot,
}
use kedastral.Base.{All, ◌*◌, ◌^◌, ◌≡◌, ◌↔◌, refl, [], ◌∷◌}
use kedastral.Base.Int.{ℤ, pos}
use kedastral.Base.Result.{ok}
use kedastral.Float64.Scaled.{scaled, scaled-IsFloat64}
use kedastral.Config.Workload.{WorkloadConfig, ArimaOrders, validate_workload, load_workloads}
use kedastral.Base.Text.{is_workload_name, runes}
use kedastral.Config.Valid.{IsValid, validate_workload-IsValid, validate_workload_iff}

abbrev orders : ArimaOrders
orders = record { p = pos 1; d = pos 1; q = pos 1 }

abbrev pub raw_config : WorkloadConfig ℤ
raw_config = record {
  name = "api-server";
  metric = "rps";
  adapter = "prometheus";
  adapter_config = ("query", "up") ∷ [];
  horizon = pos (240 * 10 ^ 9);
  step = pos (60 * 10 ^ 9);
  interval = pos 0;
  window = pos 0;
  model = "";
  target_per_pod = pos 10000;
  headroom = pos 0;
  quantile_level = "0";
  min_replicas = pos 0;
  max_replicas = pos 0;
  up_max_factor_per_step = pos 0;
  down_max_percent_per_step = pos 50;
  arima = orders;
  sarima = record { arima = orders; seasonal = orders; period = pos 24 };
  byom_url = "";
}

abbrev pub full_config : WorkloadConfig ℤ
full_config = record raw_config {
  interval = pos (30 * 10 ^ 9);
  window = pos (30 * 60 * 10 ^ 9);
  model = "baseline";
  headroom = pos 1000;
  max_replicas = pos 100;
  up_max_factor_per_step = pos 2000;
}

pub validated : validate_workload raw_config ≡ ok full_config
unfolding validate_workload scaled is_workload_name
validated = refl

loaded : load_workloads raw_config ≡ ok (full_config ∷ [])
unfolding load_workloads scaled is_workload_name
loaded = refl

validate_workload-IsValid_example : IsValid full_config
validate_workload-IsValid_example =
    validate_workload-IsValid scaled-IsFloat64 raw_config full_config validated

validate_workload_iff_example :
    (validate_workload full_config ≡ ok full_config) ↔ IsValid full_config
validate_workload_iff_example = validate_workload_iff scaled-IsFloat64 full_config

split_env-append_example :
    split_env (append (runes "ADAPTER_QUERY") (b'=' ∷ runes "a=b"))
    ≡ runes "ADAPTER_QUERY" ∷ runes "a=b" ∷ []
split_env-append_example = split_env-append (runes "ADAPTER_QUERY") (runes "a=b") (
  refl,
  (
    refl,
    (refl, (refl, (refl, (refl, (refl, (refl, (refl, (refl, (refl, (refl, (refl, tt))))))))))),
  ),
)

camel : to_lower_camel_case (runes "VALUE_PATH") ≡ runes "valuePath"
unfolding to_lower_camel_case
camel = refl

to_lower_camel_case-IsNot_example : All (IsNot b'_') (to_lower_camel_case (runes "VALUE_PATH"))
to_lower_camel_case-IsNot_example = to_lower_camel_case-IsNot (runes "VALUE_PATH")
