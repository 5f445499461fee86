-- ===== src/Controller/Reconcile/Outcome.antt =====
-- What a reconciliation does to the running loops, and when it is run again.
use kedastral.Base.{
  ◌≡◌, ◌≢◌, ◌⊎◌, refl, ◌∙◌, inl, inr, Bool-cases, String, Bool, true, false, Option, none, some,
  if◌then◌else◌, arith, str_eq,
}
use kedastral.Base.Int.{ℤ, pos, ◌<ℤ◌}
use kedastral.Base.Result.{ok, err, Result-cases}
use kedastral.Float64.{Float64, IsFloat64}
use kedastral.Config.Workload.{WorkloadConfig}
use kedastral.Forecaster.Registry.{MultiForecaster, upsert, remove}
use kedastral.Forecaster.Registry.Owners.{IsOwned}
use kedastral.Controller.Translate.{
  DataSource, TranslateError, workload_key, to_workload_config, to_workload_config-IsValid,
}
use kedastral.Controller.Reconcile.{
  PolicyObject, Fetched, found, not_found, get_failed, forecaster_manager, Reconciler, Reconciled,
  done, requeue, errored, World, fail, update_ready_status, reconcile_scaled_object,
  reconcile_config, reconcile_policy, reconcile, scaled_object_of,
}
use kedastral.Controller.Reconcile.Running.{
  running_under, running_under-upsert, running_under-remove,
}

Fetched-cases {ℓ} :
    {A : Type ℓ} (f : Fetched A) → ((a : A) × (f ≡ found a)) ⊎ ((f ≡ not_found) ⊎ (f ≡ get_failed))
Fetched-cases (found a) = inl (a, refl)
Fetched-cases not_found = inr (inl refl)
Fetched-cases get_failed = inr (inr refl)

-- A reconciliation that is run again: controller-runtime retries an error, and a requeue is after some
-- time.
abbrev pub IsRetried : Reconciled → Type 0
IsRetried res = (res ≡ errored) ⊎ ((d : ℤ) × (res ≡ requeue d) × (pos 0 <ℤ d))

retried : (b : Bool) (d : ℤ) → pos 0 <ℤ d → IsRetried (if b then requeue d else errored)
retried true d h = inr (d, refl, h)
retried false d h = inl refl

module _ {ℓ κ μ} {F : Type ℓ} {K : Type κ} {G : Type μ} (r : Reconciler F K G) where
  -- What `fail` and all after `Upsert` leave of the loops, and when they are run again.
  abbrev Keeps : G → Reconciled × World K G → Type μ
  Keeps g out = (out.1.1 ≡ g) × IsRetried out.0

  fail-Keeps :
      (po : PolicyObject F) (reason : String) (k : K) (g : G) → Keeps g (fail r po reason (k, g))
  unfolding fail
  fail-Keeps po reason k g = (refl, retried _ _ (omega arith))

  update_ready_status-Keeps :
      (po : PolicyObject F) (wc : WorkloadConfig F) (k : K) (g : G)
      → pos 0 <ℤ wc.interval
      → Keeps g (update_ready_status r po wc (k, g))
  unfolding update_ready_status
  update_ready_status-Keeps po wc k g h = (refl, retried _ _ h)

  reconcile_scaled_object-Keeps :
      (po : PolicyObject F) (wc : WorkloadConfig F) (k : K) (g : G)
      → pos 0 <ℤ wc.interval
      → Keeps g (reconcile_scaled_object r po wc (k, g))
  unfolding reconcile_scaled_object
  reconcile_scaled_object-Keeps po wc k g h =
      let k' = (r.cluster.create_or_update po (scaled_object_of r.scaler_address po wc.name) k).1 in
      elim (Bool-cases
        (r.cluster.create_or_update po (scaled_object_of r.scaler_address po wc.name) k).0) [
          | inl e ↦ rw (reconcile_scaled_object, e) (update_ready_status-Keeps po wc k' g h)
          | inr e ↦ rw (reconcile_scaled_object, e) (fail-Keeps po "ScaledObjectError" k' g)
        ]

  reconcile_config-Keeps :
      (po : PolicyObject F) (wc : WorkloadConfig F) (k : K) (g : G)
      → pos 0 <ℤ wc.interval
      → Keeps (r.manager.upsert wc g).1 (reconcile_config r po wc (k, g))
  unfolding reconcile_config
  reconcile_config-Keeps po wc k g h = elim (Bool-cases (r.manager.upsert wc g).0) [
    | inl e ↦
        rw (reconcile_config, e) (reconcile_scaled_object-Keeps po wc k (r.manager.upsert wc g).1 h)
    | inr e ↦ rw (reconcile_config, e) (fail-Keeps po "ForecasterError" k (r.manager.upsert wc g).1)
  ]

module _ {ℓ κ μ} {F : Type ℓ} {K : Type κ} {G : Type μ} ⦃fl : Float64 F⦄
    (r : Reconciler F K G) where
  reconcile-config :
      (namespace name : String) (k : K) (g : G) (po : PolicyObject F) (ds : DataSource)
      (wc : WorkloadConfig F)
      → r.cluster.get_policy namespace name k ≡ found po
      → r.cluster.get_data_source namespace po.data_source_ref k ≡ found ds
      → to_workload_config r.parse po.policy ds ≡ ok wc
      → reconcile r namespace name (k, g) ≡ reconcile_config r po wc (k, g)
  unfolding reconcile
  reconcile-config namespace name k g po ds wc a b c =
      rw (reconcile, a, reconcile_policy, b, c) refl

  reconcile-invalid :
      (namespace name : String) (k : K) (g : G) (po : PolicyObject F) (ds : DataSource)
      (e : TranslateError)
      → r.cluster.get_policy namespace name k ≡ found po
      → r.cluster.get_data_source namespace po.data_source_ref k ≡ found ds
      → to_workload_config r.parse po.policy ds ≡ err e
      → reconcile r namespace name (k, g) ≡ fail r po "InvalidSpec" (k, g)
  unfolding reconcile
  reconcile-invalid namespace name k g po ds e a b c =
      rw (reconcile, a, reconcile_policy, b, c) refl

  reconcile-not_found :
      (namespace name : String) (k : K) (g : G)
      → r.cluster.get_policy namespace name k ≡ not_found
      → reconcile r namespace name (k, g)
        ≡ (done, (k, r.manager.remove (workload_key namespace name) g))
  unfolding reconcile
  reconcile-not_found namespace name k g a = rw (reconcile, a) refl

  reconcile-no_source :
      (namespace name : String) (k : K) (g : G) (po : PolicyObject F)
      → r.cluster.get_policy namespace name k ≡ found po
      → r.cluster.get_data_source namespace po.data_source_ref k ≡ not_found
      → reconcile r namespace name (k, g) ≡ fail r po "DataSourceNotFound" (k, g)
  unfolding reconcile
  reconcile-no_source namespace name k g po a b = rw (reconcile, a, reconcile_policy, b) refl

  reconcile-source_error :
      (namespace name : String) (k : K) (g : G) (po : PolicyObject F)
      → r.cluster.get_policy namespace name k ≡ found po
      → r.cluster.get_data_source namespace po.data_source_ref k ≡ get_failed
      → reconcile r namespace name (k, g) ≡ (errored, (k, g))
  unfolding reconcile
  reconcile-source_error namespace name k g po a b = rw (reconcile, a, reconcile_policy, b) refl

  reconcile-policy_error :
      (namespace name : String) (k : K) (g : G)
      → r.cluster.get_policy namespace name k ≡ get_failed
      → reconcile r namespace name (k, g) ≡ (errored, (k, g))
  unfolding reconcile
  reconcile-policy_error namespace name k g a = rw (reconcile, a) refl

  config-IsRetried :
      IsFloat64 F
      → (namespace name : String) (k : K) (g : G) (po : PolicyObject F) (ds : DataSource)
      → r.cluster.get_policy namespace name k ≡ found po
      → r.cluster.get_data_source namespace po.data_source_ref k ≡ found ds
      → IsRetried (reconcile r namespace name (k, g)).0
  config-IsRetried laws namespace name k g po ds a b =
      elim (Result-cases (to_workload_config r.parse po.policy ds)) [
        | inl (wc, c) ↦
            let valid = (to_workload_config-IsValid laws r.parse po.policy ds wc c).0 in
            rw (reconcile-config namespace name k g po ds wc a b c)
              (reconcile_config-Keeps r po wc k g valid.times.positive_interval).1
        | inr (e, c) ↦
            rw (reconcile-invalid namespace name k g po ds e a b c)
              (fail-Keeps r po "InvalidSpec" k g).1
      ]

  -- As long as the policy is not reported as absent, its reconciliation is run again: it answers an
  -- error, or a requeue after a positive time.
  pub reconcile-IsRetried :
      IsFloat64 F
      → (namespace name : String) (k : K) (g : G)
      → r.cluster.get_policy namespace name k ≢ not_found
      → IsRetried (reconcile r namespace name (k, g)).0
  reconcile-IsRetried laws namespace name k g present =
      elim (Fetched-cases (r.cluster.get_policy namespace name k)) [
        | inr (inl a) ↦ absurd (present a)
        | inr (inr a) ↦ rw (reconcile-policy_error namespace name k g a) (inl refl)
        | inl (po, a) ↦
            elim (Fetched-cases (r.cluster.get_data_source namespace po.data_source_ref k)) [
              | inl (ds, b) ↦ config-IsRetried laws namespace name k g po ds a b
              | inr (inl b) ↦
                  rw (reconcile-no_source namespace name k g po a b)
                    (fail-Keeps r po "DataSourceNotFound" k g).1
              | inr (inr b) ↦ rw (reconcile-source_error namespace name k g po a b) (inl refl)
            ]
      ]

module _ {ℓ μ} {F : Type ℓ} {W : Type μ} (build : WorkloadConfig F → Option W)
    (name_of : W → String) where
  forecaster_manager-upsert :
      (wc : WorkloadConfig F) (mf : MultiForecaster W) (w : W)
      → build wc ≡ some w
      → ((forecaster_manager build name_of).upsert wc mf).1 ≡ upsert name_of w mf
  unfolding forecaster_manager
  forecaster_manager-upsert wc mf w h = rw h refl

  forecaster_manager-remove :
      (key : String) (mf : MultiForecaster W)
      → (forecaster_manager build name_of).remove key mf ≡ (remove key mf).1
  unfolding forecaster_manager
  forecaster_manager-remove key mf = refl

module _ {ℓ κ μ} {F : Type ℓ} {K : Type κ} {W : Type μ} ⦃fl : Float64 F⦄
    (build : WorkloadConfig F → Option W) (name_of : W → String) where
  -- In the operator, from a started registry whose entries own exactly the live goroutines, and
  -- whatever the cluster answers to the later calls, a request for a policy that is absent leaves no
  -- live goroutine under its key, one for a policy whose configuration is valid and builds leaves one
  -- that runs what is built of it, and one for an invalid specification leaves the registry as it is.
  -- In the first two cases the live goroutines under other keys run what they ran.
  pub reconcile-running :
      IsFloat64 F
      → (r : Reconciler F K (MultiForecaster W)) → r.manager ≡ forecaster_manager build name_of
      → ((wc : WorkloadConfig F) (w : W) → build wc ≡ some w → name_of w ≡ wc.name)
      → (namespace name key : String) (k : K) (mf : MultiForecaster W) → IsOwned name_of mf
      → let after = (reconcile r namespace name (k, mf)).1.1 in
        (r.cluster.get_policy namespace name k ≡ not_found
          → running_under name_of key after ≡ (
              if str_eq (workload_key namespace name) key
              then none
              else running_under name_of key mf))
        × ((po : PolicyObject F) (ds : DataSource)
            → r.cluster.get_policy namespace name k ≡ found po
            → r.cluster.get_data_source namespace po.data_source_ref k ≡ found ds
            → ((wc : WorkloadConfig F) (w : W)
                → to_workload_config r.parse po.policy ds ≡ ok wc
                → build wc ≡ some w
                → running_under name_of key after ≡ (
                    if str_eq (workload_key po.policy.namespace po.policy.name) key
                    then some w
                    else running_under name_of key mf))
              × ((e : TranslateError)
                  → to_workload_config r.parse po.policy ds ≡ err e
                  → after ≡ mf))
  reconcile-running laws r is_manager named namespace name key k mf owned = (
    λ a.
        rw
          (
            reconcile-not_found r namespace name k mf a,
            is_manager,
            forecaster_manager-remove build name_of (workload_key namespace name) mf,
          )
          (running_under-remove name_of (workload_key namespace name) mf key owned),
    λ po ds a b. (
      λ wc w c d.
          let (valid, keyed) = to_workload_config-IsValid laws r.parse po.policy ds wc c in
          let kept = (reconcile_config-Keeps r po wc k mf valid.times.positive_interval).0 in
          rw
            (
              reconcile-config r namespace name k mf po ds wc a b c,
              kept,
              is_manager,
              forecaster_manager-upsert build name_of wc mf w d,
            )
            (running_under-upsert name_of w mf key owned ∙ rw (named wc w d, keyed) refl),
      λ e c.
          rw (reconcile-invalid r namespace name k mf po ds e a b c)
            (fail-Keeps r po "InvalidSpec" k mf).0,
    ),
  )
