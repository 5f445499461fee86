-- ===== src/Config/Workload.antt =====
-- `WorkloadConfig`, `LoadWorkloads` and `validateWorkload`. The model orders of ARIMA and SARIMA are
-- carried as one record each.
use kedastral.Base.{◌*◌, ◌^◌, String, Bool, not, ◌&&◌, ◌||◌, List, [], ◌∷◌, if◌then◌else◌, str_eq}
use kedastral.Base.Int.{ℤ, pos, ltb_ℤ, leb_ℤ, eqb_ℤ}
use kedastral.Base.Dict.{Dict}
use kedastral.Base.Result.{Result, ok, err, ◌>>=◌}
use kedastral.Base.Text.{is_workload_name}
use kedastral.Float64.{Float64, int_lit}

pub record ArimaOrders : Type 0 where
  pub p : ℤ
  pub d : ℤ
  pub q : ℤ

pub record SarimaOrders : Type 0 where
  pub arima : ArimaOrders
  pub seasonal : ArimaOrders
  pub period : ℤ

pub record WorkloadConfig {ℓ} (F : Type ℓ) : Type ℓ where
  pub name : String
  pub metric : String
  pub adapter : String
  pub adapter_config : Dict String
  pub horizon : ℤ
  pub step : ℤ
  pub interval : ℤ
  pub window : ℤ
  pub model : String
  pub target_per_pod : F
  pub headroom : F
  pub quantile_level : String
  pub min_replicas : ℤ
  pub max_replicas : ℤ
  pub up_max_factor_per_step : F
  pub down_max_percent_per_step : ℤ
  pub arima : ArimaOrders
  pub sarima : SarimaOrders
  pub byom_url : String

pub data ConfigError : Type 0 where
  empty_name invalid_name empty_metric empty_adapter : ConfigError
  horizon_not_positive step_not_positive step_above_horizon : ConfigError
  negative_min max_below_min target_not_positive percent_out_of_range : ConfigError
  invalid_model missing_byom_url : ConfigError

unfoldable pub is_model : String → Bool
is_model m = str_eq m "baseline" || str_eq m "arima" || str_eq m "sarima" || str_eq m "byom"

module _ {ℓ} {F : Type ℓ} where
  unfoldable pub check_names : WorkloadConfig F → Result ConfigError (WorkloadConfig F)
  check_names w =
      if str_eq w.name ""
      then err empty_name
      else if not (is_workload_name w.name)
      then err invalid_name
      else if str_eq w.metric ""
      then err empty_metric
      else if str_eq w.adapter ""
      then err empty_adapter
      else ok w

  unfoldable pub check_times : WorkloadConfig F → Result ConfigError (WorkloadConfig F)
  check_times w =
      if leb_ℤ w.horizon (pos 0)
      then err horizon_not_positive
      else if leb_ℤ w.step (pos 0)
      then err step_not_positive
      else if ltb_ℤ w.horizon w.step
      then err step_above_horizon
      else ok (record w {
        interval = if leb_ℤ w.interval (pos 0) then pos (30 * 10 ^ 9) else w.interval;
        window = if leb_ℤ w.window (pos 0) then pos (30 * 60 * 10 ^ 9) else w.window;
      })

  unfoldable pub check_bounds : WorkloadConfig F → Result ConfigError (WorkloadConfig F)
  check_bounds w =
      if ltb_ℤ w.min_replicas (pos 0)
      then err negative_min
      else if ltb_ℤ w.max_replicas w.min_replicas
      then err max_below_min
      else ok (record w {
        max_replicas = if eqb_ℤ w.max_replicas (pos 0) then pos 100 else w.max_replicas;
      })

  unfoldable pub check_model : WorkloadConfig F → Result ConfigError (WorkloadConfig F)
  unfolding is_model
  check_model w =
      let model = if str_eq w.model "" then "baseline" else w.model in
      if not (is_model model)
      then err invalid_model
      else if str_eq model "byom" && str_eq w.byom_url ""
      then err missing_byom_url
      else ok (record w { model = model })

module _ {ℓ} {F : Type ℓ} ⦃fl : Float64 F⦄ where
  unfoldable pub check_capacity : WorkloadConfig F → Result ConfigError (WorkloadConfig F)
  check_capacity w =
      if fl.le w.target_per_pod (int_lit 0)
      then err target_not_positive
      else if ltb_ℤ w.down_max_percent_per_step (pos 0)
          || ltb_ℤ (pos 100) w.down_max_percent_per_step
      then err percent_out_of_range
      else ok (record w {
        headroom = if fl.le w.headroom (int_lit 0) then fl.decimal 10 1 else w.headroom;
        up_max_factor_per_step =
            if fl.le w.up_max_factor_per_step (int_lit 0)
            then fl.decimal 20 1
            else w.up_max_factor_per_step;
      })

  -- `validateWorkload`: the checks in the order of the source. Every caller drops the configuration
  -- when there is an error, so only a success carries one.
  unfoldable pub validate_workload : WorkloadConfig F → Result ConfigError (WorkloadConfig F)
  unfolding check_names check_times check_bounds check_capacity check_model
  validate_workload w =
      check_names w >>= check_times >>= check_bounds >>= check_capacity >>= check_model

  -- `LoadWorkloads`, on the part of `Config` that describes the workload.
  unfoldable pub load_workloads : WorkloadConfig F → Result ConfigError (List (WorkloadConfig F))
  unfolding validate_workload
  load_workloads cfg = validate_workload cfg >>= λ workload. ok (workload ∷ [])
