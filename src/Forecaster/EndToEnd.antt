-- ===== src/Forecaster/EndToEnd.antt =====
-- From the forecast loop through the store and the route to the scaler.
use kedastral.Base.{
  ℕ, zero, suc, ◌≡◌, refl, sym, ap, ◌∙◌, subst, inl, inr, Bool-cases, String, Bool, true, Option,
  none, some, str_eq, if◌then◌else◌, List, [], ◌∷◌, All, length,
}
use kedastral.Base.Int.{ℤ, pos, ltb_ℤ, eqb_ℤ, wrap64, ◌*ℤ◌}
use kedastral.Base.Dict.{lookup-insert_self}
use kedastral.Base.Text.{is_workload_name, is_workload_name_nonempty}
use kedastral.Base.Time.{time_sub, second}
use kedastral.Base.Result.{ok}
use kedastral.Float64.{Float64}
use kedastral.Storage.Snapshot.{Snapshot}
use kedastral.Storage.Memory.{MemoryStore, put, get_latest}
use kedastral.Scaler.{highest, select_from, clamp_steps, lead_steps}
use kedastral.Forecaster.Tick.{State, WorkloadForecaster, tick}
use kedastral.Forecaster.Routes.{
  Encoding, Body, body_of, all_encodable, forecast, no_forecast, write_snapshot,
  handle_get_snapshot,
}
use kedastral.Forecaster.Served.{
  Round, is_panic, IsBounded, WithinPolicy, with_memory, run_ticks, run_ticks-IsBounded,
}
use kedastral.Forecaster.Bounded.{tick-cases}
use kedastral.Storage.Memory.View.{view}
use kedastral.Capacity.Planner.{Policy}

highest-All :
    (P : ℤ → Type 0) (rounds : ℕ) (best : ℤ) (rs : List ℤ)
    → P best
    → All P rs
    → P (highest rounds best rs)
unfolding highest
highest-All P zero best rs h k = h
highest-All P (suc n) best [] h k = h
highest-All P (suc n) best (r ∷ rs) h k = elim (Bool-cases (ltb_ℤ best r)) [
  | inl e ↦ rw e (highest-All P n r rs k.0 k.1)
  | inr e ↦ rw e (highest-All P n best rs h k.1)
]

select_from-All :
    (P : ℤ → Type 0) (lead step r : ℤ) (rs : List ℤ) (n : ℤ)
    → All P (r ∷ rs)
    → select_from lead step (r ∷ rs) ≡ some n
    → P n
unfolding select_from
select_from-All P lead step r rs n h e =
    let seconds = wrap64 (step *ℤ second) in
    elim (Bool-cases (eqb_ℤ seconds (pos 0))) [
      | inl k ↦ absurd (cc (rw k at e))
      | inr k ↦
          let rounds = clamp_steps (lead_steps lead seconds) (length (r ∷ rs)) in
          let found : highest rounds r rs ≡ n = cc (rw k at e) in
          subst P found (highest-All P rounds r rs h.0 h.1)
    ]

forecast_inj {ℓ} : {F : Type ℓ} (a b : Bool) (x y : Body F) → forecast a x ≡ forecast b y → x ≡ y
forecast_inj a b x y h = cc h

module _ {ℓ} {F : Type ℓ} (lib : Encoding F) where
  -- A snapshot that is put under a well-formed name is what the route sends for that name: its fields
  -- but for the quantiles, with the time of the forecast in RFC 3339, and with the stale mark if and
  -- only if it is older than the limit. When JSON cannot encode one of its values, an answer with the
  -- same mark and no forecast is sent.
  pub handle_get_snapshot-put :
      (stale_after now : ℤ) (s : Snapshot F) (st : MemoryStore F)
      → is_workload_name s.workload ≡ true
      → handle_get_snapshot lib stale_after now
          (λ w. get_latest none w (put none s st).1)
          s.workload
        ≡ (let stale = ltb_ℤ stale_after (time_sub now s.generated_at) in
            if all_encodable lib s.values
            then forecast stale (record {
              workload = s.workload;
              metric = s.metric;
              generated_at = lib.rfc3339 s.generated_at;
              step_seconds = s.step_seconds;
              horizon_seconds = s.horizon_seconds;
              values = s.values;
              desired_replicas = s.desired_replicas;
            })
            else no_forecast stale)
  unfolding handle_get_snapshot put get_latest
  handle_get_snapshot-put stale_after now s st h =
      rw (is_workload_name_nonempty s.workload h, h, lookup-insert_self s.workload s st.snapshots)
        refl

  forecast-write_snapshot :
      (stale_after now : ℤ) (o : Option (Snapshot F)) (stale : Bool) (body : Body F)
      → write_snapshot lib stale_after now (ok o) ≡ forecast stale body
      → (s : Snapshot F) × (o ≡ some s) × (body ≡ body_of lib s)
  unfolding write_snapshot
  forecast-write_snapshot stale_after now none stale body h = absurd (cc h)
  forecast-write_snapshot stale_after now (some s) stale body h =
      elim (Bool-cases (all_encodable lib s.values)) [
        | inl e ↦ (s, refl, sym (forecast_inj _ stale (body_of lib s) body (rw e at h)))
        | inr e ↦ absurd (cc (rw e at h))
      ]

  forecast-handle_get_snapshot :
      (stale_after now : ℤ) (w : String) (st : MemoryStore F) (stale : Bool) (body : Body F)
      → handle_get_snapshot lib stale_after now (λ v. get_latest none v st) w ≡ forecast stale body
      → (s : Snapshot F) × (view st w ≡ some s) × (body ≡ body_of lib s)
  unfolding handle_get_snapshot get_latest
  forecast-handle_get_snapshot stale_after now w st stale body h = elim (Bool-cases (str_eq w "")) [
    | inl e ↦ absurd (cc (rw e at h))
    | inr e ↦ elim (Bool-cases (is_workload_name w)) [
      | inl d ↦ forecast-write_snapshot stale_after now (view st w) stale body (rw (e, d) at h)
      | inr d ↦ absurd (cc (rw (e, d) at h))
    ]
  ]

module _ {ℓ κ μ} {F : Type ℓ} {T : Type κ} {M : Type μ} ⦃fl : Float64 F⦄ where
  tick_config :
      (r : Round F T M) (st : State F M (MemoryStore F))
      → let wf = (tick (with_memory r) r.now st).1.forecaster in
        (wf.policy ≡ st.forecaster.policy) × (wf.name ≡ st.forecaster.name)
  tick_config r st = elim (tick-cases (with_memory r) r.now st) [
    | inl (_, kept) ↦ (
      ap (λ (w : WorkloadForecaster F M). w.policy) kept,
      ap (λ (w : WorkloadForecaster F M). w.name) kept,
    )
    | inr (f, _, kept) ↦ (
      ap (λ (w : WorkloadForecaster F M). w.policy) kept,
      ap (λ (w : WorkloadForecaster F M). w.name) kept,
    )
  ]

  run_ticks_config :
      (rounds : List (Round F T M)) (st : State F M (MemoryStore F))
      → let wf = (run_ticks rounds st).forecaster in
        (wf.policy ≡ st.forecaster.policy) × (wf.name ≡ st.forecaster.name)
  unfolding run_ticks
  run_ticks_config [] st = (refl, refl)
  run_ticks_config (r ∷ rounds) st =
      let next = (tick (with_memory r) r.now st).1 in
      let kept = tick_config r st in
      let (policy, name) = run_ticks_config rounds next in
      elim (Bool-cases (is_panic (tick (with_memory r) r.now st).0)) [
        | inl e ↦ rw (run_ticks, e) kept
        | inr e ↦ rw (run_ticks, e) (policy ∙ kept.0, name ∙ kept.1)
      ]

  -- When the loop of a workload starts in a bounded state, and the route then answers a forecast of the
  -- workload that plans anything, the count that the scaler selects from it lies in the bounds of the
  -- policy, whatever the adapter, the model, the contexts, the clock and the lead time were.
  pub select_from-run_ticks :
      (rounds : List (Round F T M)) (st : State F M (MemoryStore F)) (lib : Encoding F)
      (stale_after now lead : ℤ) (stale : Bool) (s : Body F) (r : ℤ) (rs : List ℤ) (n : ℤ)
      → IsBounded st
      → handle_get_snapshot lib stale_after now
          (λ w. get_latest none w (run_ticks rounds st).store)
          st.forecaster.name
        ≡ forecast stale s
      → s.desired_replicas ≡ r ∷ rs
      → select_from lead s.step_seconds (r ∷ rs) ≡ some n
      → WithinPolicy st.forecaster.policy n
  unfolding body_of
  select_from-run_ticks rounds st lib stale_after now lead stale s r rs n b answered e selected =
      let end = run_ticks rounds st in
      let (policy, name) = run_ticks_config rounds st in
      let (held, found, same) =
        forecast-handle_get_snapshot lib stale_after now _ end.store stale s answered in
      let bounds =
        (run_ticks-IsBounded rounds st b).serves held (ap (view end.store) name ∙ found) in
      let planned = sym (ap (λ (t : Body F). t.desired_replicas) same) ∙ e in
      let within =
        select_from-All (WithinPolicy end.forecaster.policy) lead s.step_seconds r rs n in
      subst (λ (p : Policy F). WithinPolicy p n) policy
        (within (subst (All (WithinPolicy end.forecaster.policy)) planned bounds) selected)
