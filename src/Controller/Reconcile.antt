-- ===== src/Controller/Reconcile.antt =====
-- cmd/forecaster/controller: the reconciliation of a ForecastPolicy in controller.go and scaledobject.go,
-- and the manager of cmd/forecaster/operator.go. The Kubernetes client with the cluster behind it, and
-- `meta.SetStatusCondition`, are parameters. The texts of messages are left out.
pub mod Running
pub mod Outcome
use kedastral.Base.{
  ℕ, ◌*◌, ◌^◌, String, Bool, true, false, Option, none, some, List, [], ◌∷◌, if◌then◌else◌, str_eq,
}
use kedastral.Base.Int.{ℤ, pos, ltb_ℤ}
use kedastral.Base.Result.{Result, ok, err}
use kedastral.Float64.{Float64}
use kedastral.Config.Workload.{WorkloadConfig}
use kedastral.Storage.Snapshot.{Snapshot}
use kedastral.Forecaster.Registry.{MultiForecaster, upsert, remove}
use kedastral.Controller.Translate.{ForecastPolicy, DataSource, workload_key, to_workload_config}

pub record Condition : Type 0 where
  pub kind : String
  pub status : Bool
  pub reason : String
  pub observed_generation : ℤ

pub record PolicyStatus : Type 0 where
  pub observed_generation : ℤ
  pub last_forecast_time : Option ℤ
  pub current_replicas : ℤ
  pub desired_replicas : ℤ
  pub scaled_object_name : String
  pub conditions : List Condition

-- A ForecastPolicy in the cluster, with what the translation does not read.
pub record PolicyObject {ℓ} (F : Type ℓ) : Type ℓ where
  pub policy : ForecastPolicy F
  pub generation : ℤ
  pub data_source_ref : String
  pub target_api_version : String
  pub target_kind : String
  pub target_name : String
  pub status : PolicyStatus

-- What the mutate function of `CreateOrUpdate` sets in a ScaledObject.
pub record ScaledObject : Type 0 where
  pub namespace : String
  pub name : String
  pub api_version : String
  pub kind : String
  pub target : String
  pub min_replica_count : ℤ
  pub max_replica_count : ℤ
  pub scaler_address : String
  pub workload : String

pub data Fetched {ℓ} (A : Type ℓ) : Type ℓ where
  found : A → Fetched A
  not_found : Fetched A
  get_failed : Fetched A

-- The client, on the state `K` of the cluster; false and `none` are errors.
pub record Cluster {ℓ κ} (F : Type ℓ) (K : Type κ) : Type (ℓ ⊔ κ) where
  pub get_policy : String → String → K → Fetched (PolicyObject F)
  pub get_data_source : String → String → K → Fetched DataSource
  pub update_status : PolicyObject F → K → Bool × K
  -- `controllerutil.CreateOrUpdate` with the policy as the owner
  pub create_or_update : PolicyObject F → ScaledObject → K → Bool × K
  pub list_policies : String → K → Option (List (PolicyObject F))
  pub set_condition : Condition → List Condition → List Condition

-- `ForecasterManager`; false is an error of `Upsert`.
pub record Manager {ℓ μ} (F : Type ℓ) (G : Type μ) : Type (ℓ ⊔ μ) where
  pub upsert : WorkloadConfig F → G → Bool × G
  pub remove : String → G → G

-- `forecasterManager` of the operator: `build` is `buildWorkloadForecaster`, with `none` for its errors.
unfoldable pub forecaster_manager {ℓ μ} :
    {F : Type ℓ} {W : Type μ}
    → (WorkloadConfig F → Option W)
    → (W → String)
    → Manager F (MultiForecaster W)
unfolding upsert remove
forecaster_manager build name = record {
  upsert = λ wc mf. elim (build wc) [ none ↦ (false, mf) | some w ↦ (true, upsert name w mf) ];
  remove = λ key mf. (remove key mf).1;
}

-- The fields of `ForecastPolicyReconciler`.
pub record Reconciler {ℓ κ μ} (F : Type ℓ) (K : Type κ) (G : Type μ) : Type (ℓ ⊔ κ ⊔ μ) where
  pub cluster : Cluster F K
  pub manager : Manager F G
  -- `Store.GetLatest`: `none` is an error, `some none` a snapshot that is not found
  pub get_latest : String → Option (Option (Snapshot F))
  pub scaler_address : String
  -- `durationx.Parse`
  pub parse : String → Option ℤ

-- `ctrl.Result{}`, one with `RequeueAfter`, or an error.
pub data Reconciled : Type 0 where
  done : Reconciled
  requeue : ℤ → Reconciled
  errored : Reconciled

-- The cluster, and the running loops.
abbrev pub World {κ μ} : Type κ → Type μ → Type (κ ⊔ μ)
World K G = K × G

abbrev pub failure_requeue_interval : ℤ
failure_requeue_interval = pos (30 * 10 ^ 9)

abbrev pub or_default : String → String → String
or_default s default_text = if str_eq s "" then default_text else s

-- `maxInt`, on `highest` and the values after it.
unfoldable pub max_int : ℤ → List ℤ → ℤ
max_int highest [] = highest
max_int highest (v ∷ vs) = max_int (if ltb_ℤ highest v then v else highest) vs

-- The replicas in the status, of the plan of the latest snapshot.
unfoldable pub with_replicas : List ℤ → PolicyStatus → PolicyStatus
unfolding max_int
with_replicas [] status = status
with_replicas (r ∷ rs) status = record status {
  current_replicas = r;
  desired_replicas = max_int r rs;
}

module _ {ℓ} {F : Type ℓ} where
  unfoldable pub scaled_object_of : String → PolicyObject F → String → ScaledObject
  scaled_object_of scaler_address po workload = record {
    namespace = po.policy.namespace;
    name = po.policy.name;
    api_version = or_default po.target_api_version "apps/v1";
    kind = or_default po.target_kind "Deployment";
    target = po.target_name;
    min_replica_count = po.policy.min_replicas;
    max_replica_count = po.policy.max_replicas;
    scaler_address = scaler_address;
    workload = workload;
  }

  unfoldable pub with_forecast : Option (Option (Snapshot F)) → PolicyStatus → PolicyStatus
  unfolding with_replicas
  with_forecast none status = status
  with_forecast (some none) status = status
  with_forecast (some (some s)) status =
      with_replicas s.desired_replicas (record status { last_forecast_time = some s.generated_at })

  abbrev pub ready_condition : Bool → String → PolicyObject F → Condition
  ready_condition status reason po = record {
    kind = "Ready";
    status = status;
    reason = reason;
    observed_generation = po.generation;
  }

module _ {ℓ κ μ} {F : Type ℓ} {K : Type κ} {G : Type μ} (r : Reconciler F K G) where
  -- The policy with the status that `fail` writes.
  unfoldable pub failed_policy : PolicyObject F → String → PolicyObject F
  failed_policy po reason = record po {
    status = record po.status {
      conditions = r.cluster.set_condition (ready_condition false reason po) po.status.conditions;
      observed_generation = po.generation;
    };
  }

  unfoldable pub fail : PolicyObject F → String → World K G → Reconciled × World K G
  unfolding failed_policy
  fail po reason (k, g) =
      let (written, k') = r.cluster.update_status (failed_policy po reason) k in
      (if written then requeue failure_requeue_interval else errored, (k', g))

  -- The policy with the status that `updateReadyStatus` writes.
  unfoldable pub ready_policy : PolicyObject F → String → String → PolicyObject F
  unfolding with_forecast
  ready_policy po workload scaled_object_name =
      let named : PolicyStatus = record po.status {
        observed_generation = po.generation;
        scaled_object_name = scaled_object_name;
      } in
      let status = with_forecast (r.get_latest workload) named in
      record po {
        status = record status {
          conditions =
              r.cluster.set_condition (ready_condition true "Reconciled" po) status.conditions;
        };
      }

  unfoldable pub update_ready_status :
      PolicyObject F → WorkloadConfig F → World K G → Reconciled × World K G
  unfolding ready_policy
  update_ready_status po wc (k, g) =
      let (written, k') = r.cluster.update_status (ready_policy po wc.name po.policy.name) k in
      (if written then requeue wc.interval else errored, (k', g))

  -- From the running loop on: the ScaledObject and the status.
  unfoldable pub reconcile_scaled_object :
      PolicyObject F → WorkloadConfig F → World K G → Reconciled × World K G
  unfolding scaled_object_of update_ready_status fail
  reconcile_scaled_object po wc (k, g) =
      let (applied, k') =
        r.cluster.create_or_update po (scaled_object_of r.scaler_address po wc.name) k in
      if applied then update_ready_status po wc (k', g) else fail po "ScaledObjectError" (k', g)

  unfoldable pub reconcile_config :
      PolicyObject F → WorkloadConfig F → World K G → Reconciled × World K G
  unfolding reconcile_scaled_object fail
  reconcile_config po wc (k, g) =
      let (upserted, g') = r.manager.upsert wc g in
      if upserted then reconcile_scaled_object po wc (k, g') else fail po "ForecasterError" (k, g')

module _ {ℓ κ μ} {F : Type ℓ} {K : Type κ} {G : Type μ} ⦃fl : Float64 F⦄
    (r : Reconciler F K G) where
  unfoldable pub reconcile_policy : PolicyObject F → String → World K G → Reconciled × World K G
  unfolding reconcile_config fail to_workload_config
  reconcile_policy po namespace (k, g) =
      elim (r.cluster.get_data_source namespace po.data_source_ref k) [
        | get_failed ↦ (errored, (k, g))
        | not_found ↦ fail r po "DataSourceNotFound" (k, g)
        | found ds ↦ elim (to_workload_config r.parse po.policy ds) [
          | err e ↦ fail r po "InvalidSpec" (k, g)
          | ok wc ↦ reconcile_config r po wc (k, g)
        ]
      ]

  unfoldable pub reconcile : String → String → World K G → Reconciled × World K G
  unfolding reconcile_policy workload_key
  reconcile namespace name (k, g) = elim (r.cluster.get_policy namespace name k) [
    | get_failed ↦ (errored, (k, g))
    | not_found ↦ (done, (k, r.manager.remove (workload_key namespace name) g))
    | found po ↦ reconcile_policy po namespace (k, g)
  ]

module _ {ℓ} {F : Type ℓ} where
  -- The requests for the policies that refer to a data source.
  unfoldable pub requests_for : String → List (PolicyObject F) → List (String × String)
  requests_for source [] = []
  requests_for source (po ∷ pos') =
      let rest = requests_for source pos' in
      if str_eq po.data_source_ref source
      then (po.policy.namespace, po.policy.name) ∷ rest
      else rest

  -- `policiesForDataSource`, on what the client lists; `none` is its error.
  unfoldable pub policies_for_data_source :
      Option (List (PolicyObject F)) → String → List (String × String)
  unfolding requests_for
  policies_for_data_source none source = []
  policies_for_data_source (some policies) source = requests_for source policies
