-- ===== src/Forecaster/Build.antt =====
-- cmd/forecaster/build.go: `buildWorkloadForecaster`, and `NewForWorkload` of cmd/forecaster/models. What
-- an adapter or a model is once it is made is a parameter; the constructors of ARIMA and SARIMA are
-- those of Models, which may panic.
use kedastral.Base.{
  ◌≡◌, refl, subst, String, Bool, true, false, Option, none, some, [], arith, if◌then◌else◌, str_eq,
}
use kedastral.Base.Int.{ℤ, pos, ◌≤ℤ◌, ltb_ℤ}
use kedastral.Base.Dict.{lookup}
use kedastral.Base.Result.{Result, ok, err, ◌>>=◌, >>=-eq-ok}
use kedastral.Float64.{Float64}
use kedastral.Capacity.Planner.{Policy, normalize}
use kedastral.Capacity.Planner.Bounds.{InBounds}
use kedastral.Capacity.Quantile.{Strings, QuantileError, parse_quantile_level}
use kedastral.Config.Workload.{WorkloadConfig, ArimaOrders, SarimaOrders}
use kedastral.Config.Valid.{IsValid, HasBounds}
use kedastral.Models.Arima.{new_arima}
use kedastral.Models.Sarima.{new_sarima}
use kedastral.Storage.Memory.{MemoryStore, new_memory_store}
use kedastral.Forecaster.Tick.{WorkloadForecaster, State, new_workload_forecaster, seconds}
use kedastral.Forecaster.Served.{IsBounded, WithinPolicy}

-- The model that is constructed, with the arguments of its constructor: metric, step and horizon in
-- seconds, and orders.
pub data ModelSpec : Type 0 where
  arima_model : String → ℤ → ℤ → ArimaOrders → ModelSpec
  sarima_model : String → ℤ → ℤ → SarimaOrders → ModelSpec
  baseline_model : String → ℤ → ℤ → ModelSpec
  byom_model : String → String → ℤ → ℤ → ModelSpec

pub data BuildError : Type 0 where
  adapter_failed : BuildError
  invalid_quantile_level : QuantileError → BuildError
  -- `os.Exit(1)` on a model type that is not known
  exits : BuildError
  -- the panic of a constructor
  model_panics : BuildError

abbrev pub unless_panics {ℓ} : {A : Type ℓ} → Option A → ModelSpec → Result BuildError ModelSpec
unless_panics none spec = err model_panics
unless_panics (some m) spec = ok spec

module _ {ℓ} {F : Type ℓ} ⦃fl : Float64 F⦄ where
  unfoldable pub new_for_workload : WorkloadConfig F → Result BuildError ModelSpec
  unfolding seconds new_arima new_sarima
  new_for_workload wc =
      let step_sec = seconds F wc.step in
      let horizon_sec = seconds F wc.horizon in
      if str_eq wc.model "arima"
      then unless_panics
          (new_arima {F = F} wc.metric step_sec horizon_sec wc.arima.p wc.arima.d wc.arima.q)
          (arima_model wc.metric step_sec horizon_sec wc.arima)
      else if str_eq wc.model "sarima"
      then unless_panics
          (new_sarima {F = F} wc.metric step_sec horizon_sec wc.sarima.arima.p wc.sarima.arima.d
            wc.sarima.arima.q wc.sarima.seasonal.p wc.sarima.seasonal.d wc.sarima.seasonal.q
            wc.sarima.period)
          (sarima_model wc.metric step_sec horizon_sec wc.sarima)
      else if str_eq wc.model "baseline"
      then ok (baseline_model wc.metric step_sec horizon_sec)
      else if str_eq wc.model "byom"
      then ok (byom_model wc.byom_url wc.metric step_sec horizon_sec)
      else err exits

  unfoldable pub policy_of : WorkloadConfig F → F → Policy F
  policy_of wc quantile_level = record {
    target_per_pod = wc.target_per_pod;
    headroom = wc.headroom;
    quantile_level = quantile_level;
    min_replicas = wc.min_replicas;
    max_replicas = wc.max_replicas;
    up_max_factor_per_step = wc.up_max_factor_per_step;
    down_max_percent_per_step = wc.down_max_percent_per_step;
    prewarm_window_steps = pos 0;
    rounding_mode = "";
  }

  abbrev pub level_or_error : Result QuantileError F → Result BuildError F
  level_or_error (err e) = err (invalid_quantile_level e)
  level_or_error (ok q) = ok q

module _ {ℓ μ} {F : Type ℓ} {M : Type μ} ⦃fl : Float64 F⦄ (lib : Strings F) where
  -- `adapter_ok` is whether `adapters.New` answers no error, and `make` is the model of a constructor
  -- that does not panic.
  unfoldable pub build_workload_forecaster :
      Bool → (ModelSpec → M) → WorkloadConfig F → Result BuildError (WorkloadForecaster F M)
  unfolding new_for_workload policy_of parse_quantile_level new_workload_forecaster
  build_workload_forecaster adapter_ok make wc =
      if adapter_ok
      then (new_for_workload wc >>= λ spec.
          (level_or_error (parse_quantile_level lib wc.quantile_level) >>= λ level. ok (
            new_workload_forecaster wc.name (make spec) (policy_of wc level) wc.horizon wc.step
              wc.window wc.interval true)))
      else err adapter_failed

-- Orders that the constructors take: not negative, and at most so many differences.
pub record AreOrders (most : ℤ) (o : ArimaOrders) : Type 0 where
  pub p_low : pos 0 ≤ℤ o.p
  pub d_low : pos 0 ≤ℤ o.d
  pub d_high : o.d ≤ℤ most
  pub q_low : pos 0 ≤ℤ o.q

-- A step of at least a second, and a horizon that is not shorter in whole seconds.
pub record AreSeconds (step_sec horizon_sec : ℤ) : Type 0 where
  pub low : pos 1 ≤ℤ step_sec
  pub ordered : step_sec ≤ℤ horizon_sec

module _ {ℓ} {F : Type ℓ} ⦃fl : Float64 F⦄ where
  -- What the constructor of the model asks for and `validateWorkload` does not check; `a` and `s` say
  -- whether it is ARIMA or SARIMA. A period that is positive always serves.
  abbrev pub MeetsConstructor : Bool → Bool → WorkloadConfig F → Type 0
  MeetsConstructor true s wc =
      AreSeconds (seconds F wc.step) (seconds F wc.horizon) × AreOrders (pos 2) wc.arima
  MeetsConstructor false true wc =
      AreSeconds (seconds F wc.step) (seconds F wc.horizon)
      × AreOrders (pos 2) wc.sarima.arima
      × AreOrders (pos 1) wc.sarima.seasonal
      × (pos 1 ≤ℤ wc.sarima.period)
  MeetsConstructor false false wc = Unit

  abbrev pub IsConstructible : WorkloadConfig F → Type 0
  IsConstructible wc = MeetsConstructor (str_eq wc.model "arima") (str_eq wc.model "sarima") wc

  normalize-policy_of :
      (wc : WorkloadConfig F) (q : F)
      → HasBounds wc.min_replicas wc.max_replicas
      → let p = normalize (policy_of wc q) in
        (p.min_replicas ≡ wc.min_replicas) × (p.max_replicas ≡ wc.max_replicas)
  unfolding normalize policy_of
  normalize-policy_of wc q b =
      let low : ltb_ℤ wc.min_replicas (pos 0) ≡ false = ground (arith, b.low) in
      let ordered : ltb_ℤ wc.max_replicas wc.min_replicas ≡ false = ground (arith, b.ordered) in
      (rw low refl, rw (low, ordered) (ground arith))

min-InBounds : (lo hi : ℤ) → HasBounds lo hi → InBounds lo hi lo
min-InBounds lo hi b = ground (arith, b.ordered)

module _ {ℓ μ} {F : Type ℓ} {M : Type μ} where
  -- The first state of the loop of a forecaster, with a new store.
  abbrev pub start : WorkloadForecaster F M → State F M (MemoryStore F)
  start wf = record { forecaster = wf; store = new_memory_store; events = [] }

module _ {ℓ μ} {F : Type ℓ} {M : Type μ} ⦃fl : Float64 F⦄ (lib : Strings F) where
  new_forecaster-IsBounded :
      (wc : WorkloadConfig F) (m : M) (q : F)
      → HasBounds wc.min_replicas wc.max_replicas
      → let wf =
          new_workload_forecaster wc.name m
            (policy_of wc q)
            wc.horizon
            wc.step
            wc.window
            wc.interval
            true in
        IsBounded (start wf)
        × ((n : ℤ) → WithinPolicy wf.policy n → (wc.min_replicas ≤ℤ n) × (n ≤ℤ wc.max_replicas))
  unfolding new_workload_forecaster policy_of new_memory_store lookup
  new_forecaster-IsBounded wc m q b =
      let (lo, hi) = normalize-policy_of wc q b in
      (
        record {
          within = rw (lo, hi) (min-InBounds wc.min_replicas wc.max_replicas b);
          serves = λ s h. absurd (cc h);
        },
        λ n h. let (low, high) = rw (lo, hi) at h in (low, high b.high),
      )

  -- What is built for a valid configuration starts in a bounded state, and its policy keeps counts
  -- between the replicas of the configuration.
  pub build_workload_forecaster-IsBounded :
      (adapter_ok : Bool) (make : ModelSpec → M) (wc : WorkloadConfig F)
      (wf : WorkloadForecaster F M)
      → IsValid wc
      → build_workload_forecaster lib adapter_ok make wc ≡ ok wf
      → IsBounded (start wf)
        × (wf.name ≡ wc.name)
        × ((n : ℤ) → WithinPolicy wf.policy n → (wc.min_replicas ≤ℤ n) × (n ≤ℤ wc.max_replicas))
  unfolding build_workload_forecaster new_workload_forecaster
  build_workload_forecaster-IsBounded false make wc wf v h = absurd (cc h)
  build_workload_forecaster-IsBounded true make wc wf v h =
      let (spec, _, h1) = >>=-eq-ok (new_for_workload wc) _ wf h in
      let (level, _, h2) =
        >>=-eq-ok (level_or_error (parse_quantile_level lib wc.quantile_level)) _ wf h1 in
      let built =
        new_workload_forecaster wc.name (make spec) (policy_of wc level) wc.horizon wc.step
          wc.window wc.interval true in
      let same : built ≡ wf = cc h2 in
      let (bounded, within) = new_forecaster-IsBounded wc (make spec) level v.bounds in
      subst
        (λ (w : WorkloadForecaster F M).
          IsBounded (start w)
          × (w.name ≡ wc.name)
          × ((n : ℤ) → WithinPolicy w.policy n → (wc.min_replicas ≤ℤ n) × (n ≤ℤ wc.max_replicas)))
        same (bounded, refl, within)
