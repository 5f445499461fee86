-- ===== src/Storage/Snapshot.antt =====
-- pkg/storage/store.go: `Snapshot`, and the errors of the stores.
use kedastral.Base.{String, List, Option}
use kedastral.Base.Int.{ℤ}
use kedastral.Capacity.Planner.{Quantiles}

pub record Snapshot {ℓ} (F : Type ℓ) : Type ℓ where
  pub workload : String
  pub metric : String
  pub generated_at : ℤ
  pub step_seconds : ℤ
  pub horizon_seconds : ℤ
  pub values : List F
  pub desired_replicas : List ℤ
  pub quantiles : Quantiles F

-- What `ctx.Err()` gives once a context is done.
pub data CtxError : Type 0 where
  canceled deadline_exceeded : CtxError

-- A context as a store sees it: `none` while `ctx.Done()` is open.
abbrev pub Ctx : Type 0
Ctx = Option CtxError

pub data StoreError : Type 0 where
  empty_workload : StoreError
  invalid_workload : StoreError
  context : CtxError → StoreError
  marshal_failed : StoreError
  unmarshal_failed : StoreError
  -- a nil client, or a slice out of range, which ends the process
  panics : StoreError
  backend : StoreError
