-- ===== src/Scaler/Calls.antt =====
-- What KEDA is told: `IsActive` is true exactly on a fresh forecast, and `GetMetrics` answers the
-- largest count over the lead time.
use Prim.Native.String.{◌++◌}
use kedastral.Base.{
  ℕ, ◌≡◌, ◌≢◌, refl, ◌↔◌, Bool, true, false, String, Option, none, some, List, [], ◌∷◌, arith,
  if◌then◌else◌,
}
use kedastral.Base.Int.{ℤ, pos, ◌≤ℤ◌, ◌*ℤ◌, wrap64_id, IsInt64}
use kedastral.Base.Time.{time_sub}
use kedastral.Base.Result.{Result, ok, err}
use kedastral.Storage.Snapshot.{Snapshot}
use kedastral.Scaler.{
  ScaledObjectRef, Http, FetchError, bad_request, Event, grpc_request, set_desired_replicas,
  set_forecast_age, record_call, fetch_events, get_workload, is_fresh, check_status, parse_body,
  fetch, get_forecast, is_active, answer_active, answer_metrics, select_replicas, get_metrics,
}

module _ {ℓ} {F : Type ℓ} where
  is_fresh_iff :
      (lead now : ℤ) (s : Snapshot F)
      → IsInt64 (lead *ℤ pos 2)
      → (is_fresh lead now s ≡ true) ↔ (time_sub now s.generated_at ≤ℤ lead *ℤ pos 2)
  unfolding is_fresh
  is_fresh_iff lead now s h = rw (wrap64_id (lead *ℤ pos 2) h) (ground arith)

  answer_active_fresh :
      (lead now : ℤ) (s : Snapshot F)
      → is_fresh lead now s ≡ true
      → (answer_active lead now (ok s)).0 ≡ true
  answer_active_fresh lead now s h = unfold answer_active in ground arith

  answer_active-true :
      (lead now : ℤ) (r : Result FetchError (Snapshot F))
      → (answer_active lead now r).0 ≡ true
      → (s : Snapshot F) × (r ≡ ok s) × (is_fresh lead now s ≡ true)
  answer_active-true lead now (err e) h = unfold answer_active in cc
  answer_active-true lead now (ok s) h = (s, refl, unfold answer_active in ground (arith, h))

module _ {κ} {Body : Type κ} where
  check_status-eq-ok :
      (o : Option (ℕ × Body)) (body : Body) → check_status o ≡ ok body → o ≡ some (200, body)
  unfolding check_status
  check_status-eq-ok none body h = cc
  check_status-eq-ok (some (status, b)) body h = ground arith

module _ {ℓ κ} {F : Type ℓ} {Body : Type κ} where
  parse_body-eq-ok :
      (decode : Body → Option (Snapshot F)) (r : Result FetchError Body) (s : Snapshot F)
      → parse_body decode r ≡ ok s
      → (body : Body) × (r ≡ ok body) × (decode body ≡ some s)
  unfolding parse_body
  parse_body-eq-ok decode (err e) s h = cc
  parse_body-eq-ok decode (ok body) s h = (body, refl, ground arith)

guard-eq-ok {ℓ} :
    {A : Type ℓ} (b : Bool) {r : Result FetchError A} {s : A}
    → (if b then r else err bad_request) ≡ ok s
    → (b ≡ true) × (r ≡ ok s)
guard-eq-ok true h = (refl, h)
guard-eq-ok false h = cc

module _ {ℓ} {F : Type ℓ} where
  -- `GetMetrics` once the forecast is fetched.
  unfoldable metrics_after :
      Bool → ℤ → Result FetchError (Snapshot F) → Option (Result FetchError ℤ × List Event)
  metrics_after m lead r = elim (answer_metrics lead r) [
    | none ↦ none
    | some (result, own) ↦ some (result, record_call m "GetMetrics" (fetch_events m r) own)
  ]

  metrics_after-err :
      (m : Bool) (lead : ℤ) (r : Result FetchError (Snapshot F)) (e : FetchError)
      → r ≡ err e
      → (events : List Event) (n : ℤ) → metrics_after m lead r ≢ some (ok n, events)
  unfolding metrics_after answer_metrics
  metrics_after-err m lead (err _) e h events n k = cc
  metrics_after-err m lead (ok _) e h events n k = cc

  metrics_after-ok :
      (m : Bool) (lead : ℤ) (s : Snapshot F) (events : List Event) (n : ℤ)
      → metrics_after m lead (ok s) ≡ some (ok n, events)
      → select_replicas lead s ≡ some n
  unfolding metrics_after answer_metrics
  metrics_after-ok m lead s events n h = ground (arith, h)

  metrics_after-some :
      (m : Bool) (lead : ℤ) (s : Snapshot F) (n : ℤ)
      → select_replicas lead s ≡ some n
      → (events : List Event) × (metrics_after m lead (ok s) ≡ some (ok n, events))
  unfolding metrics_after answer_metrics
  metrics_after-some m lead s n h = (
    record_call m "GetMetrics" (fetch_events m (ok s))
        (grpc_request "GetMetrics" "success" ∷ set_desired_replicas n ∷ set_forecast_age ∷ []),
    ground (arith, h),
  )

module _ {ℓ κ} {F : Type ℓ} {Body : Type κ} (http : Http F Body) (url : String) where
  is_active_lem :
      (m : Bool) (lead now : ℤ) (ref : ScaledObjectRef)
      → (is_active http url m lead now ref).0
        ≡ (answer_active lead now (fetch http url (get_workload ref))).0
  is_active_lem m lead now ref = unfold is_active in refl

  fetch-eq-ok :
      (w : String) (s : Snapshot F)
      → fetch http url w ≡ ok s
      → (http.is_request (url ++ ("/forecast/current?workload=" ++ w)) ≡ true)
        × (parse_body http.decode
              (check_status (http.answer (url ++ ("/forecast/current?workload=" ++ w))))
            ≡ ok s)
  unfolding fetch
  fetch-eq-ok w s h = guard-eq-ok (http.is_request (url ++ ("/forecast/current?workload=" ++ w))) h

  -- The forecaster answers the snapshot `s` for a workload: the URL makes a request, the status is
  -- 200, and the body decodes.
  pub record Answers (workload : String) (s : Snapshot F) : Type (ℓ ⊔ κ) where
    pub body : Body
    pub requested : http.is_request (url ++ ("/forecast/current?workload=" ++ workload)) ≡ true
    pub answered :
        http.answer (url ++ ("/forecast/current?workload=" ++ workload)) ≡ some (200, body)
    pub decoded : http.decode body ≡ some s

  fetch-Answers : (w : String) (s : Snapshot F) → Answers w s → fetch http url w ≡ ok s
  unfolding fetch
  fetch-Answers w s a = rw (a.requested, a.answered, a.decoded)

  Answers-fetch : (w : String) (s : Snapshot F) → fetch http url w ≡ ok s → Answers w s
  Answers-fetch w s h =
      let target = url ++ ("/forecast/current?workload=" ++ w) in
      let (requested, parsed) = fetch-eq-ok w s h in
      let (body, checked, decoded) = parse_body-eq-ok http.decode _ s parsed in
      record {
        body = body;
        requested = requested;
        answered = check_status-eq-ok (http.answer target) body checked;
        decoded = decoded;
      }

  -- `IsActive` answers true if and only if the forecaster answers a snapshot of the workload that is
  -- no older than twice the lead time; the lead time must be below half of the largest duration.
  pub is_active_iff :
      (m : Bool) (lead now : ℤ) (ref : ScaledObjectRef)
      → IsInt64 (lead *ℤ pos 2)
      → ((is_active http url m lead now ref).0 ≡ true) ↔ (
          (s : Snapshot F) × Answers (get_workload ref) s
          × (time_sub now s.generated_at ≤ℤ lead *ℤ pos 2))
  is_active_iff m lead now ref h = (there, back)
    where
      there :
          (is_active http url m lead now ref).0 ≡ true
          → (s : Snapshot F) × Answers (get_workload ref) s
            × (time_sub now s.generated_at ≤ℤ lead *ℤ pos 2)
      there active =
          let (s, fetched, fresh) =
            answer_active-true lead now (fetch http url (get_workload ref))
              (rw (is_active_lem m lead now ref) at active) in
          (s, Answers-fetch _ s fetched, (is_fresh_iff lead now s h).0 fresh)

      back :
          (s : Snapshot F) × Answers (get_workload ref) s
            × (time_sub now s.generated_at ≤ℤ lead *ℤ pos 2)
          → (is_active http url m lead now ref).0 ≡ true
      back (s, a, fresh) =
          rw (is_active_lem m lead now ref, fetch-Answers _ s a)
            (answer_active_fresh lead now s ((is_fresh_iff lead now s h).1 fresh))

  get_metrics_lem :
      (m : Bool) (lead : ℤ) (ref : ScaledObjectRef)
      → get_metrics http url m lead ref ≡ metrics_after m lead (fetch http url (get_workload ref))
  unfolding get_metrics get_forecast metrics_after
  get_metrics_lem m lead ref = refl

  -- `GetMetrics` answers the count `n` if and only if the forecaster answers a snapshot of the
  -- workload, fresh or stale, for which the selection at the lead time gives `n`.
  pub get_metrics_iff :
      (m : Bool) (lead n : ℤ) (ref : ScaledObjectRef)
      → ((events : List Event) × (get_metrics http url m lead ref ≡ some (ok n, events)))
        ↔ ((s : Snapshot F) × Answers (get_workload ref) s × (select_replicas lead s ≡ some n))
  get_metrics_iff m lead n ref = (there (fetch http url (get_workload ref)) refl, back)
    where
      there :
          (r : Result FetchError (Snapshot F))
          → fetch http url (get_workload ref) ≡ r
          → (events : List Event) × (get_metrics http url m lead ref ≡ some (ok n, events))
          → (s : Snapshot F) × Answers (get_workload ref) s × (select_replicas lead s ≡ some n)
      there (err e) h (events, k) =
          absurd (metrics_after-err m lead _ e h events n (cc (k, get_metrics_lem m lead ref)))
      there (ok s) h (events, k) = (
        s,
        Answers-fetch _ s h,
        metrics_after-ok m lead s events n (cc (k, get_metrics_lem m lead ref, h)),
      )

      back :
          (s : Snapshot F) × Answers (get_workload ref) s × (select_replicas lead s ≡ some n)
          → (events : List Event) × (get_metrics http url m lead ref ≡ some (ok n, events))
      back (s, a, at) =
          let (events, e) = metrics_after-some m lead s n at in
          (events, cc (e, get_metrics_lem m lead ref, fetch-Answers _ s a))
