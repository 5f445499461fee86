-- ===== src/Forecaster/Routes.antt =====
-- cmd/forecaster/router/router.go: the two routes that serve the store. A handler is a function of the
-- query, of the store as the request finds it, and of the clock.
use kedastral.Base.{
  ℕ, String, Bool, true, ◌&&◌, Option, none, some, List, [], ◌∷◌, if◌then◌else◌, str_eq,
}
use kedastral.Base.Int.{ℤ, ltb_ℤ}
use kedastral.Base.Result.{Result, ok, err}
use kedastral.Base.Text.{is_workload_name}
use kedastral.Base.Time.{time_sub}
use kedastral.Storage.Snapshot.{Snapshot, StoreError}

-- `Format(time.RFC3339)` of a time, which drops what is less than a second, and whether package json
-- encodes a number: it refuses NaN and the infinities.
pub record Encoding {ℓ} (F : Type ℓ) : Type ℓ where
  pub rfc3339 : ℤ → String
  pub encodable : F → Bool

-- The fields of the map that `handleGetSnapshot` encodes.
pub record Body {ℓ} (F : Type ℓ) : Type ℓ where
  pub workload : String
  pub metric : String
  pub generated_at : String
  pub step_seconds : ℤ
  pub horizon_seconds : ℤ
  pub values : List F
  pub desired_replicas : List ℤ

-- What a handler writes: an error message with its status, or a body with the status 200. `stale` is
-- the header `X-Kedastral-Stale`. Without a forecast it is the body of a failed encoding, whose error
-- is only logged after the status has been written.
pub data Response {ℓ} (F : Type ℓ) : Type ℓ where
  bad_request : String → Response F
  not_found : Response F
  internal_error : Response F
  workloads : List String → Response F
  forecast : (stale : Bool) → Body F → Response F
  no_forecast : (stale : Bool) → Response F

module _ {ℓ} {F : Type ℓ} where
  unfoldable pub status_code : Response F → ℕ
  status_code (bad_request m) = 400
  status_code not_found = 404
  status_code internal_error = 500
  status_code (workloads ws) = 200
  status_code (forecast stale body) = 200
  status_code (no_forecast stale) = 200

  -- `handleListWorkloads` on what `store.List` answers.
  unfoldable pub handle_list_workloads : Result StoreError (List String) → Response F
  handle_list_workloads (err e) = internal_error
  handle_list_workloads (ok ws) = workloads ws

module _ {ℓ} {F : Type ℓ} (lib : Encoding F) where
  abbrev pub all_encodable : List F → Bool
  all_encodable [] = true
  all_encodable (v ∷ vs) = lib.encodable v && all_encodable vs

  unfoldable pub body_of : Snapshot F → Body F
  body_of s = record {
    workload = s.workload;
    metric = s.metric;
    generated_at = lib.rfc3339 s.generated_at;
    step_seconds = s.step_seconds;
    horizon_seconds = s.horizon_seconds;
    values = s.values;
    desired_replicas = s.desired_replicas;
  }

  unfoldable pub write_snapshot : ℤ → ℤ → Result StoreError (Option (Snapshot F)) → Response F
  unfolding body_of
  write_snapshot stale_after now (err e) = internal_error
  write_snapshot stale_after now (ok none) = not_found
  write_snapshot stale_after now (ok (some s)) =
      let stale = ltb_ℤ stale_after (time_sub now s.generated_at) in
      if all_encodable s.values then forecast stale (body_of s) else no_forecast stale

  -- `handleGetSnapshot` for the query's `workload`, on what `store.GetLatest` answers.
  unfoldable pub handle_get_snapshot :
      ℤ → ℤ → (String → Result StoreError (Option (Snapshot F))) → String → Response F
  unfolding write_snapshot
  handle_get_snapshot stale_after now get_latest workload =
      if str_eq workload ""
      then bad_request "workload parameter required"
      else if is_workload_name workload
      then write_snapshot stale_after now (get_latest workload)
      else bad_request "invalid workload name format"
