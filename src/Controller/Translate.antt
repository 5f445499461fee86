-- ===== src/Controller/Translate.antt =====
-- cmd/forecaster/controller/translate.go: from a ForecastPolicy and its DataSource to the configuration of
-- a workload. `durationx.Parse` is a parameter.
use Prim.Native.String.{◌++◌}
use kedastral.Base.{◌*◌, ◌^◌, ◌≡◌, String, Option, none, some, if◌then◌else◌, str_eq}
use kedastral.Base.Int.{ℤ, pos}
use kedastral.Base.Dict.{Dict}
use kedastral.Base.Result.{Result, ok, err, ◌>>=◌, >>=-eq-ok}
use kedastral.Base.Time.{minute}
use kedastral.Float64.{Float64, IsFloat64}
use kedastral.Config.Workload.{
  WorkloadConfig, ConfigError, ArimaOrders, SarimaOrders, validate_workload,
}
use kedastral.Config.Valid.{IsValid, validate_workload-IsValid, validate_workload_name}

-- `ForecastPolicy`, with the durations as texts; `none` is a nil pointer.
pub record ForecastPolicy {ℓ} (F : Type ℓ) : Type ℓ where
  pub namespace : String
  pub name : String
  pub metric : String
  pub horizon : String
  pub step : String
  pub interval : String
  pub window : String
  pub model_type : String
  pub arima : Option ArimaOrders
  pub sarima : Option SarimaOrders
  pub byom_url : String
  pub target_per_pod : F
  pub headroom : F
  pub quantile_level : String
  pub min_replicas : ℤ
  pub max_replicas : ℤ
  pub up_max_factor_per_step : F
  pub down_max_percent_per_step : ℤ

pub record DataSource : Type 0 where
  pub source_type : String
  pub config : Dict String

pub data TranslateError : Type 0 where
  invalid_duration : TranslateError
  invalid_config : ConfigError → TranslateError

unfoldable pub workload_key : String → String → String
workload_key namespace name = namespace ++ ("-" ++ name)

unfoldable pub parse_duration_or : (String → Option ℤ) → String → ℤ → Result TranslateError ℤ
parse_duration_or parse value fallback =
    if str_eq value ""
    then ok fallback
    else elim (parse value) [ none ↦ err invalid_duration | some d ↦ ok d ]

abbrev pub config_or_error {ℓ} :
    {F : Type ℓ} → Result ConfigError (WorkloadConfig F) → Result TranslateError (WorkloadConfig F)
config_or_error (ok w) = ok w
config_or_error (err e) = err (invalid_config e)

-- the zero values of the orders that a nil pointer leaves
abbrev zero_orders : ArimaOrders
zero_orders = record { p = pos 0; d = pos 0; q = pos 0 }

unfoldable pub arima_or_zero : Option ArimaOrders → ArimaOrders
arima_or_zero none = zero_orders
arima_or_zero (some a) = a

unfoldable pub sarima_or_zero : Option SarimaOrders → SarimaOrders
sarima_or_zero none = record { arima = zero_orders; seasonal = zero_orders; period = pos 0 }
sarima_or_zero (some s) = s

module _ {ℓ} {F : Type ℓ} where
  unfoldable pub config_of : ForecastPolicy F → DataSource → ℤ → ℤ → ℤ → ℤ → WorkloadConfig F
  unfolding workload_key arima_or_zero sarima_or_zero
  config_of policy ds horizon step interval window = record {
    name = workload_key policy.namespace policy.name;
    metric = policy.metric;
    adapter = ds.source_type;
    adapter_config = ds.config;
    horizon = horizon;
    step = step;
    interval = interval;
    window = window;
    model = if str_eq policy.model_type "" then "baseline" else policy.model_type;
    target_per_pod = policy.target_per_pod;
    headroom = policy.headroom;
    quantile_level = if str_eq policy.quantile_level "" then "0" else policy.quantile_level;
    min_replicas = policy.min_replicas;
    max_replicas = policy.max_replicas;
    up_max_factor_per_step = policy.up_max_factor_per_step;
    down_max_percent_per_step = policy.down_max_percent_per_step;
    arima = arima_or_zero policy.arima;
    sarima = sarima_or_zero policy.sarima;
    byom_url = policy.byom_url;
  }

module _ {ℓ} {F : Type ℓ} ⦃fl : Float64 F⦄ (parse : String → Option ℤ) where
  unfoldable pub to_workload_config :
      ForecastPolicy F → DataSource → Result TranslateError (WorkloadConfig F)
  unfolding parse_duration_or config_of validate_workload
  to_workload_config policy ds =
      parse_duration_or parse policy.horizon (pos (30 * 60 * 10 ^ 9)) >>= λ horizon.
      (parse_duration_or parse policy.step minute >>= λ step.
      (parse_duration_or parse policy.interval (pos (30 * 10 ^ 9)) >>= λ interval.
      (parse_duration_or parse policy.window (pos (30 * 60 * 10 ^ 9)) >>= λ window.
      config_or_error (validate_workload (config_of policy ds horizon step interval window)))))

config_or_error-eq-ok {ℓ} :
    {F : Type ℓ} (r : Result ConfigError (WorkloadConfig F)) (w : WorkloadConfig F)
    → config_or_error r ≡ ok w
    → r ≡ ok w
config_or_error-eq-ok (ok v) w h = cc h
config_or_error-eq-ok (err e) w h = cc

module _ {ℓ} {F : Type ℓ} ⦃fl : Float64 F⦄ (laws : IsFloat64 F) where
  -- A configuration that `toWorkloadConfig` returns is valid, and has the key of the policy as its
  -- name, however durations are read.
  pub to_workload_config-IsValid :
      (parse : String → Option ℤ) (policy : ForecastPolicy F) (ds : DataSource)
      (wc : WorkloadConfig F)
      → to_workload_config parse policy ds ≡ ok wc
      → IsValid wc × (wc.name ≡ workload_key policy.namespace policy.name)
  unfolding to_workload_config config_of
  to_workload_config-IsValid parse policy ds wc h =
      let (horizon, _, h1) = >>=-eq-ok (parse_duration_or parse policy.horizon _) _ wc h in
      let (step, _, h2) = >>=-eq-ok (parse_duration_or parse policy.step _) _ wc h1 in
      let (interval, _, h3) = >>=-eq-ok (parse_duration_or parse policy.interval _) _ wc h2 in
      let (window, _, h4) = >>=-eq-ok (parse_duration_or parse policy.window _) _ wc h3 in
      let raw = config_of policy ds horizon step interval window in
      let valid = config_or_error-eq-ok (validate_workload raw) wc h4 in
      (validate_workload-IsValid laws raw wc valid, validate_workload_name laws raw wc valid)
