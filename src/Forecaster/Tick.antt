-- ===== src/Forecaster/Tick.antt =====
-- cmd/forecaster/forecaster.go: `WorkloadForecaster` and one round of its loop. The adapter, the model
-- and the store are the interfaces of the source, with their state passed along; the deadlines show as
-- the errors that these calls return. Log lines and measured durations are left out.
use mathlib.Core.List.{◌++◌ as append}
use kedastral.Base.{String, Bool, true, false, Option, none, some, List, [], ◌∷◌, if◌then◌else◌}
use kedastral.Base.Int.{ℤ, ◌-ℤ◌, ◌*ℤ◌, quot}
use kedastral.Base.Result.{Result, ok, err}
use kedastral.Base.Time.{second}
use kedastral.Float64.{Float64}
use kedastral.Capacity.Planner.{Policy, Quantiles, to_replicas}
use kedastral.Storage.Snapshot.{Snapshot}
use kedastral.Features.{Calendar, DataFrame, FeatureFrame, FeatureError, build_features}

pub record Forecast {ℓ} (F : Type ℓ) : Type ℓ where
  pub metric : String
  pub values : List F
  pub step_sec : ℤ
  pub horizon : ℤ
  pub quantiles : Quantiles F

-- What a call of a model that may panic answers.
pub data Called {ℓ} (A : Type ℓ) : Type ℓ where
  answered : A → Called A
  failed : Called A
  panicked : Called A

-- `adapters.Adapter`, `models.Model` and `storage.Store` as the loop calls them: `none` and `false`
-- are errors, `M` is the state of the model and `S` that of the store. The error of `Train` is only
-- logged, so that its answer is whether it returns; false is a panic.
pub record Services {ℓ κ μ ν} (F : Type ℓ) (T : Type κ) (M : Type μ) (S : Type ν)
    : Type (ℓ ⊔ κ ⊔ μ ⊔ ν) where
  pub calendar : Calendar T
  pub collect : ℤ → Option (DataFrame F T)
  pub train : FeatureFrame F → M → Bool × M
  pub predict : FeatureFrame F → M → Called (Forecast F) × M
  pub put : Snapshot F → S → Bool × S

pub record WorkloadForecaster {ℓ μ} (F : Type ℓ) (M : Type μ) : Type (ℓ ⊔ μ) where
  pub name : String
  pub model : M
  pub policy : Policy F
  pub horizon : ℤ
  pub step : ℤ
  pub window : ℤ
  pub interval : ℤ
  pub has_metrics : Bool
  pub current_replicas : ℤ

pub data TickError : Type 0 where
  collect_failed : TickError
  build_failed : FeatureError → TickError
  predict_failed : TickError
  store_failed : TickError
  -- a panic of the model, which `Run` recovers and which ends the loop
  model_panicked : TickError

-- What a round records in the metrics, durations aside.
pub data Event {ℓ} (F : Type ℓ) : Type ℓ where
  record_error : String → String → Event F
  record_collect : Event F
  record_predict : Event F
  record_capacity : Event F
  set_forecast_age : Event F
  set_desired_replicas : ℤ → Event F
  set_predicted_value : F → Event F

-- `int(d.Seconds())`: whole seconds plus the rest as a fraction, then truncated.
unfoldable pub seconds {ℓ} : (F : Type ℓ) ⦃fl : Float64 F⦄ → ℤ → ℤ
seconds F ⦃fl⦄ d =
    let whole = quot d second in
    let rest = d -ℤ whole *ℤ second in
    fl.trunc (fl.add (fl.of_int whole) (fl.div (fl.of_int rest) (fl.of_int second)))

abbrev pub first_or : ℤ → List ℤ → ℤ
first_or d [] = d
first_or d (r ∷ rs) = r

unfoldable pub predicted_events {ℓ} : {F : Type ℓ} → List F → List (Event F)
predicted_events [] = []
predicted_events (v ∷ vs) = set_predicted_value v ∷ []

module _ {ℓ μ} {F : Type ℓ} {M : Type μ} where
  -- `NewWorkloadForecaster`; the last argument says whether there are metrics.
  unfoldable pub new_workload_forecaster :
      String → M → Policy F → ℤ → ℤ → ℤ → ℤ → Bool → WorkloadForecaster F M
  new_workload_forecaster name model policy horizon step window interval has_metrics = record {
    name = name;
    model = model;
    policy = policy;
    horizon = horizon;
    step = step;
    window = window;
    interval = interval;
    has_metrics = has_metrics;
    current_replicas = policy.min_replicas;
  }

-- The state that a round changes: the forecaster with its model, the store, and what is recorded.
pub record State {ℓ μ ν} (F : Type ℓ) (M : Type μ) (S : Type ν) : Type (ℓ ⊔ μ ⊔ ν) where
  pub forecaster : WorkloadForecaster F M
  pub store : S
  pub events : List (Event F)

module _ {ℓ μ ν} {F : Type ℓ} {M : Type μ} {S : Type ν} where
  -- `if wf.metrics != nil`
  unfoldable pub record_events : List (Event F) → State F M S → State F M S
  record_events es st =
      if st.forecaster.has_metrics then record st { events = append st.events es } else st

module _ {ℓ μ} {F : Type ℓ} {M : Type μ} ⦃fl : Float64 F⦄ where
  -- `calculateReplicas`: the plan, and the forecaster with its first count as the current one.
  unfoldable pub calculate_replicas :
      List F → Quantiles F → WorkloadForecaster F M → List ℤ × WorkloadForecaster F M
  unfolding seconds
  calculate_replicas values quantiles wf =
      let desired =
        to_replicas wf.current_replicas values (seconds F wf.step) wf.policy quantiles in
      (desired, record wf { current_replicas = first_or wf.current_replicas desired })

  -- The snapshot that `storeSnapshot` puts.
  unfoldable pub snapshot_of : ℤ → Forecast F → List ℤ → WorkloadForecaster F M → Snapshot F
  unfolding seconds
  snapshot_of now forecast desired wf = record {
    workload = wf.name;
    metric = forecast.metric;
    generated_at = now;
    step_seconds = seconds F wf.step;
    horizon_seconds = seconds F wf.horizon;
    values = forecast.values;
    desired_replicas = desired;
    quantiles = forecast.quantiles;
  }

module _ {ℓ κ μ ν} {F : Type ℓ} {T : Type κ} {M : Type μ} {S : Type ν} ⦃fl : Float64 F⦄
    (services : Services F T M S) where
  -- The end of `tick`, after `store.Put` answered.
  unfoldable pub finish_tick :
      Forecast F → Bool → State F M S → Result TickError (Unit {0}) × State F M S
  unfolding record_events predicted_events
  finish_tick forecast false st =
      (err store_failed, record_events (record_error "store" "put_failed" ∷ []) st)
  finish_tick forecast true st = (
    ok tt,
    record_events
        (set_forecast_age
          ∷ set_desired_replicas st.forecaster.current_replicas
          ∷ predicted_events forecast.values)
        st,
  )

  -- The part of `tick` that a forecast leads to: the plan, and the snapshot in the store.
  unfoldable pub tick_store :
      ℤ → Forecast F → State F M S → Result TickError (Unit {0}) × State F M S
  unfolding calculate_replicas snapshot_of finish_tick
  tick_store now forecast st =
      let (desired, wf) = calculate_replicas forecast.values forecast.quantiles st.forecaster in
      let counted = record_events (record_capacity ∷ []) (record st { forecaster = wf }) in
      let (accepted, store) = services.put (snapshot_of now forecast desired wf) st.store in
      finish_tick forecast accepted (record counted { store = store })

  unfoldable pub tick_forecast :
      ℤ → Called (Forecast F) → State F M S → Result TickError (Unit {0}) × State F M S
  unfolding tick_store
  tick_forecast now failed st =
      (err predict_failed, record_events (record_error "model" "predict_failed" ∷ []) st)
  tick_forecast now panicked st = (err model_panicked, st)
  tick_forecast now (answered forecast) st =
      tick_store now forecast (record_events (record_predict ∷ []) st)

  -- After the training.
  unfoldable pub tick_predict :
      ℤ → FeatureFrame F → Bool → State F M S → Result TickError (Unit {0}) × State F M S
  unfolding tick_forecast
  tick_predict now frame false st = (err model_panicked, st)
  tick_predict now frame true st =
      let (forecast, model) = services.predict frame st.forecaster.model in
      tick_forecast now forecast (record st { forecaster = record st.forecaster { model = model } })

  -- Training, whose error is dropped, and the prediction.
  unfoldable pub tick_model :
      ℤ
      → Result FeatureError (FeatureFrame F)
      → State F M S
      → Result TickError (Unit {0}) × State F M S
  unfolding tick_predict
  tick_model now (err e) st =
      (err (build_failed e), record_events (record_error "features" "build_failed" ∷ []) st)
  tick_model now (ok frame) st =
      let (returned, model) = services.train frame st.forecaster.model in
      tick_predict now frame returned
        (record st { forecaster = record st.forecaster { model = model } })

  unfoldable pub tick_data :
      ℤ → Option (DataFrame F T) → State F M S → Result TickError (Unit {0}) × State F M S
  unfolding tick_model build_features
  tick_data now none st =
      (err collect_failed, record_events (record_error "adapter" "collect_failed" ∷ []) st)
  tick_data now (some df) st =
      tick_model now (build_features services.calendar df) (record_events (record_collect ∷ []) st)

  -- `tick` at the time `now`.
  unfoldable pub tick : ℤ → State F M S → Result TickError (Unit {0}) × State F M S
  unfolding tick_data seconds
  tick now st = tick_data now (services.collect (seconds F st.forecaster.window)) st
