-- ===== src/Scaler.antt =====
-- cmd/scaler/scaler.go: the KEDA external scaler. A call returns its answer and the metric events
-- that it records; the HTTP client, the JSON decoder and the clock are arguments. Log lines are left
-- out.
pub mod Window
pub mod Calls
pub mod Tests
use Prim.Native.String.{◌++◌}
use mathlib.Core.List.{◌++◌ as append}
use kedastral.Base.{
  ℕ, zero, suc, ◌-◌, String, Bool, true, false, Option, none, some, List, [], ◌∷◌, if◌then◌else◌,
  str_eq, length, ◌==◌,
}
use kedastral.Base.Int.{ℤ, pos, pos_part, ◌*ℤ◌, quot, wrap64, ltb_ℤ, leb_ℤ, eqb_ℤ}
use kedastral.Base.Dict.{Dict, lookup}
use kedastral.Base.Time.{second, time_sub}
use kedastral.Base.Result.{Result, ok, err}
use kedastral.Float64.{Float64}
use kedastral.Storage.Snapshot.{Snapshot}

-- `pb.ScaledObjectRef`
pub record ScaledObjectRef : Type 0 where
  pub name : String
  pub namespace : String
  pub scaler_metadata : Dict String

-- The forecaster as the HTTP client sees it: whether a URL makes a request, and what is answered
-- (`none` is an error of the transport), and the decoder of the body.
pub record Http {ℓ κ} (F : Type ℓ) (Body : Type κ) : Type (ℓ ⊔ κ) where
  pub is_request : String → Bool
  pub answer : String → Option (ℕ × Body)
  pub decode : Body → Option (Snapshot F)

pub data FetchError : Type 0 where
  bad_request : FetchError
  unreachable : FetchError
  bad_status : ℕ → FetchError
  bad_body : FetchError

-- What the scaler records in its metrics, durations and ages aside.
pub data Event : Type 0 where
  observe_forecast_fetch : Event
  forecast_fetch_error : Event
  observe_grpc : String → Event
  grpc_request : String → String → Event
  set_forecast_age : Event
  set_desired_replicas : ℤ → Event

-- A missing key of a Go map reads as the zero value.
abbrev pub metadata : String → ScaledObjectRef → String
metadata k ref = elim (lookup k ref.scaler_metadata) [ none ↦ "" | some v ↦ v ]

unfoldable pub get_workload : ScaledObjectRef → String
get_workload ref =
    let workload = metadata "workload" ref in if str_eq workload "" then ref.name else workload

unfoldable pub get_metric_name : ScaledObjectRef → String → String
get_metric_name ref workload =
    let metric_name = metadata "metricName" ref in
    if str_eq metric_name "" then "kedastral-" ++ (workload ++ "-desired-replicas") else metric_name

-- The loop over `DesiredReplicas[1:]`, with `rounds` rounds left.
unfoldable pub highest : ℕ → ℤ → List ℤ → ℤ
highest zero best rs = best
highest (suc rounds) best [] = best
highest (suc rounds) best (r ∷ rs) = highest rounds (if ltb_ℤ best r then r else best) rs

-- `leadSteps` before it is clamped to the list, for a step that is not zero.
unfoldable pub lead_steps : ℤ → ℤ → ℤ
lead_steps lead_time step_duration = wrap64 (quot lead_time step_duration)

unfoldable pub clamp_steps : ℤ → ℕ → ℕ
clamp_steps steps n =
    if leb_ℤ (pos n) steps then n - 1 else if ltb_ℤ steps (pos 0) then 0 else pos_part steps

-- `selectReplicasAtLeadTime` on the fields of the snapshot that it reads. `none` is the run-time panic
-- on a division by zero.
unfoldable pub select_from : ℤ → ℤ → List ℤ → Option ℤ
unfolding highest lead_steps clamp_steps
select_from lead_time step_seconds [] = some (pos 1)
select_from lead_time step_seconds (r ∷ rs) =
    let step_duration = wrap64 (step_seconds *ℤ second) in
    if eqb_ℤ step_duration (pos 0)
    then none
    else some (highest (clamp_steps (lead_steps lead_time step_duration) (length (r ∷ rs))) r rs)

module _ {ℓ} {F : Type ℓ} where
  unfoldable pub select_replicas : ℤ → Snapshot F → Option ℤ
  unfolding select_from
  select_replicas lead_time s = select_from lead_time s.step_seconds s.desired_replicas

  unfoldable pub is_fresh : ℤ → ℤ → Snapshot F → Bool
  is_fresh lead_time now s = leb_ℤ (time_sub now s.generated_at) (wrap64 (lead_time *ℤ pos 2))

module _ {κ} {Body : Type κ} where
  unfoldable pub check_status : Option (ℕ × Body) → Result FetchError Body
  check_status none = err unreachable
  check_status (some (status, body)) = if status == 200 then ok body else err (bad_status status)

module _ {ℓ κ} {F : Type ℓ} {Body : Type κ} where
  unfoldable pub parse_body :
      (Body → Option (Snapshot F)) → Result FetchError Body → Result FetchError (Snapshot F)
  parse_body decode (err e) = err e
  parse_body decode (ok body) = elim (decode body) [ none ↦ err bad_body | some s ↦ ok s ]

module _ {ℓ} {F : Type ℓ} where
  unfoldable pub fetch_events : Bool → Result FetchError (Snapshot F) → List Event
  fetch_events false fetched = []
  fetch_events true (ok s) = observe_forecast_fetch ∷ []
  fetch_events true (err e) = forecast_fetch_error ∷ observe_forecast_fetch ∷ []

  -- The rest of `IsActive` once the forecast is fetched. It never answers an error: `false` stands for
  -- every failure.
  unfoldable pub answer_active : ℤ → ℤ → Result FetchError (Snapshot F) → Bool × List Event
  unfolding is_fresh
  answer_active lead_time now (err e) = (false, grpc_request "IsActive" "inactive_error" ∷ [])
  answer_active lead_time now (ok s) =
      if is_fresh lead_time now s
      then (true, grpc_request "IsActive" "active" ∷ set_forecast_age ∷ [])
      else (false, grpc_request "IsActive" "inactive_stale" ∷ [])

  -- The rest of `GetMetrics` once the forecast is fetched; `none` is a panic.
  unfoldable pub answer_metrics :
      ℤ → Result FetchError (Snapshot F) → Option (Result FetchError ℤ × List Event)
  unfolding select_replicas
  answer_metrics lead_time (err e) = some (err e, grpc_request "GetMetrics" "error" ∷ [])
  answer_metrics lead_time (ok s) = elim (select_replicas lead_time s) [
    | none ↦ none
    | some n ↦
        some (
          ok n,
          grpc_request "GetMetrics" "success" ∷ set_desired_replicas n ∷ set_forecast_age ∷ [],
        )
  ]

-- What a call records in all: the events of the fetch, its own, and the deferred one.
unfoldable pub record_call : Bool → String → List Event → List Event → List Event
record_call false method fetched own = []
record_call true method fetched own = append fetched (append own (observe_grpc method ∷ []))

-- `GetMetricSpec`: the metric's name, with the target size 1.
unfoldable pub get_metric_spec : Bool → ScaledObjectRef → String × ℕ × List Event
unfolding get_workload get_metric_name record_call
get_metric_spec has_metrics ref = (
  get_metric_name ref (get_workload ref),
  1,
  record_call has_metrics "GetMetricSpec" [] (grpc_request "GetMetricSpec" "success" ∷ []),
)

-- `StreamIsActive` only answers its error.
unfoldable pub stream_is_active : Bool → List Event
stream_is_active has_metrics =
    if has_metrics then grpc_request "StreamIsActive" "not_implemented" ∷ [] else []

module _ {ℓ κ} {F : Type ℓ} {Body : Type κ} (http : Http F Body) (forecaster_url : String) where
  unfoldable pub fetch : String → Result FetchError (Snapshot F)
  unfolding check_status parse_body
  fetch workload =
      let url = forecaster_url ++ ("/forecast/current?workload=" ++ workload) in
      if http.is_request url
      then parse_body http.decode (check_status (http.answer url))
      else err bad_request

  -- `getForecast` with what it records.
  unfoldable pub get_forecast : Bool → String → Result FetchError (Snapshot F) × List Event
  unfolding fetch fetch_events
  get_forecast has_metrics workload = (fetch workload, fetch_events has_metrics (fetch workload))

  unfoldable pub is_active : Bool → ℤ → ℤ → ScaledObjectRef → Bool × List Event
  unfolding get_workload get_forecast answer_active record_call
  is_active has_metrics lead_time now ref =
      let (fetched, events) = get_forecast has_metrics (get_workload ref) in
      let (result, own) = answer_active lead_time now fetched in
      (result, record_call has_metrics "IsActive" events own)

  unfoldable pub get_metrics :
      Bool → ℤ → ScaledObjectRef → Option (Result FetchError ℤ × List Event)
  unfolding get_workload get_forecast answer_metrics record_call
  get_metrics has_metrics lead_time ref =
      let (fetched, events) = get_forecast has_metrics (get_workload ref) in
      elim (answer_metrics lead_time fetched) [
        | none ↦ none
        | some (result, own) ↦ some (result, record_call has_metrics "GetMetrics" events own)
      ]
