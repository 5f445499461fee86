-- ===== src/Forecaster/Promise.antt =====
-- What the whole chain promises for a workload: configuration, forecast loop, store, route and scaler.
use kedastral.Base.{◌≡◌, ap, ◌∙◌, String, Bool, none, some, List, ◌∷◌}
use kedastral.Base.Int.{ℤ, ◌≤ℤ◌}
use kedastral.Base.Result.{ok}
use kedastral.Float64.{Float64, IsFloat64}
use kedastral.Capacity.Quantile.{Strings}
use kedastral.Config.Workload.{WorkloadConfig, validate_workload}
use kedastral.Config.Valid.{validate_workload-IsValid}
use kedastral.Storage.Memory.{get_latest}
use kedastral.Scaler.{select_from}
use kedastral.Forecaster.Tick.{WorkloadForecaster}
use kedastral.Forecaster.Served.{Round, run_ticks}
use kedastral.Forecaster.Routes.{Encoding, Body, forecast, handle_get_snapshot}
use kedastral.Forecaster.EndToEnd.{select_from-run_ticks}
use kedastral.Forecaster.Build.{
  ModelSpec, build_workload_forecaster, build_workload_forecaster-IsBounded, start,
}

module _ {ℓ κ μ} {F : Type ℓ} {T : Type κ} {M : Type μ} ⦃fl : Float64 F⦄ (laws : IsFloat64 F)
    (lib : Strings F) where
  -- For a configuration that `validateWorkload` accepted, whose forecaster was built and whose loop ran
  -- any rounds over a new memory store: if the route answers a forecast of the workload that plans
  -- anything, then the count that the scaler selects from it is between the `MinReplicas` and the
  -- `MaxReplicas` of the accepted configuration.
  pub select_from-validate_workload :
      (raw wc : WorkloadConfig F) (adapter_ok : Bool) (make : ModelSpec → M)
      (wf : WorkloadForecaster F M) (rounds : List (Round F T M)) (encoding : Encoding F)
      (stale_after now lead : ℤ) (stale : Bool) (s : Body F) (r : ℤ) (rs : List ℤ) (n : ℤ)
      → validate_workload raw ≡ ok wc
      → build_workload_forecaster lib adapter_ok make wc ≡ ok wf
      → handle_get_snapshot encoding stale_after now
          (λ w. get_latest none w (run_ticks rounds (start wf)).store)
          wc.name
        ≡ forecast stale s
      → s.desired_replicas ≡ r ∷ rs
      → select_from lead s.step_seconds (r ∷ rs) ≡ some n
      → (wc.min_replicas ≤ℤ n) × (n ≤ℤ wc.max_replicas)
  select_from-validate_workload raw wc adapter_ok make wf rounds encoding stale_after now lead stale
        s r rs n valid built answered e selected =
      let (bounded, name, within) =
        build_workload_forecaster-IsBounded lib adapter_ok make wc wf
          (validate_workload-IsValid laws raw wc valid) built in
      let route = λ (v : String).
        handle_get_snapshot encoding stale_after now
          (λ w. get_latest none w (run_ticks rounds (start wf)).store) v in
      within n (
        select_from-run_ticks rounds (start wf) encoding stale_after now lead stale s r rs n bounded
          (ap route name ∙ answered) e selected)
