-- ===== src/Forecaster/Served.antt =====
-- The forecast loop over the memory store: in every state that it reaches, the current count and each
-- count of the snapshot that the store serves are in the bounds of the policy.
use kedastral.Base.{
  ◌≡◌, sym, ◌∙◌, subst, inl, inr, Bool-cases, Bool, true, false, if◌then◌else◌, some, List, [], ◌∷◌,
  All, str_eq,
}
use kedastral.Base.Int.{ℤ}
use kedastral.Base.Result.{Result, ok, err}
use kedastral.Float64.{Float64}
use kedastral.Capacity.Planner.{Policy, normalize}
use kedastral.Capacity.Planner.Bounds.{InBounds, to_replicas-InBounds}
use kedastral.Storage.Snapshot.{Snapshot, Ctx}
use kedastral.Storage.Memory.{MemoryStore, put}
use kedastral.Storage.Memory.View.{view, view-put, is_ok, put_answer}
use kedastral.Forecaster.Tick.{
  Services, WorkloadForecaster, State, TickError, collect_failed, build_failed, predict_failed,
  store_failed, model_panicked, first_or, snapshot_of, tick,
}
use kedastral.Forecaster.Bounded.{Counts, planned, tick-cases}

first_or-InBounds :
    (lo hi d : ℤ) (rs : List ℤ)
    → InBounds lo hi d
    → All (InBounds lo hi) rs
    → InBounds lo hi (first_or d rs)
first_or-InBounds lo hi d [] h k = h
first_or-InBounds lo hi d (r ∷ rs) h k = k.0

-- The store as a service of the loop, with the context that the call gets.
abbrev pub memory_put {ℓ} : {F : Type ℓ} → Ctx → Snapshot F → MemoryStore F → Bool × MemoryStore F
memory_put ctx s st = (is_ok (put ctx s st).0, (put ctx s st).1)

-- The bounds of a policy on a count.
abbrev pub WithinPolicy {ℓ} : {F : Type ℓ} ⦃fl : Float64 F⦄ → Policy F → ℤ → Type 0
WithinPolicy p = InBounds (normalize p).min_replicas (normalize p).max_replicas

module _ {ℓ μ} {F : Type ℓ} {M : Type μ} ⦃fl : Float64 F⦄ where
  -- The snapshot of a forecaster's workload, if it is in the store, has no count outside the bounds.
  abbrev pub Serves : WorkloadForecaster F M → MemoryStore F → Type ℓ
  Serves wf st =
      (s : Snapshot F) → view st wf.name ≡ some s → All (WithinPolicy wf.policy) s.desired_replicas

  abbrev Within : WorkloadForecaster F M → Type 0
  Within wf = WithinPolicy wf.policy wf.current_replicas

  pub record IsBounded (st : State F M (MemoryStore F)) : Type ℓ where
    pub within : WithinPolicy st.forecaster.policy st.forecaster.current_replicas
    pub serves : Serves st.forecaster st.store

  Serves-put :
      (ctx : Ctx) (wf : WorkloadForecaster F M) (snapshot : Snapshot F) (st : MemoryStore F)
      → All (WithinPolicy wf.policy) snapshot.desired_replicas
      → Serves wf st
      → Serves wf (put ctx snapshot st).1
  Serves-put ctx wf snapshot st h k s at =
      let after = (view-put ctx snapshot st wf.name).1 in
      let found = sym after ∙ at in
      elim (Bool-cases (is_ok (put_answer ctx snapshot.workload))) [
        | inl e ↦ elim (Bool-cases (str_eq snapshot.workload wf.name)) [
          | inl d ↦
              let same : snapshot ≡ s = cc (rw (e, d) at found) in
              subst (λ (t : Snapshot F). All (WithinPolicy wf.policy) t.desired_replicas) same h
          | inr d ↦ k s (rw (e, d) at found)
        ]
        | inr e ↦ k s (rw e at found)
      ]

  -- A forecaster that differs from `wf` in its model and its current count only.
  Counts-IsBounded :
      (wf : WorkloadForecaster F M) (n : ℤ) (st : State F M (MemoryStore F))
      → Counts wf n st.forecaster
      → WithinPolicy wf.policy n
      → Serves wf st.store
      → IsBounded st
  Counts-IsBounded wf n st kept h k = record {
    within = subst Within (sym kept) h;
    serves = subst (λ w. Serves w st.store) (sym kept) k;
  }

abbrev pub is_panic : Result TickError (Unit {0}) → Bool
is_panic (ok u) = false
is_panic (err model_panicked) = true
is_panic (err collect_failed) = false
is_panic (err (build_failed e)) = false
is_panic (err predict_failed) = false
is_panic (err store_failed) = false

-- One round of the loop: its time, the adapter and the model as they behave then, and the context that
-- the memory store is given.
pub record Round {ℓ κ μ} (F : Type ℓ) (T : Type κ) (M : Type μ) : Type (ℓ ⊔ κ ⊔ μ) where
  pub now : ℤ
  pub ctx : Ctx
  pub services : Services F T M (MemoryStore F)

module _ {ℓ κ μ} {F : Type ℓ} {T : Type κ} {M : Type μ} ⦃fl : Float64 F⦄ where
  abbrev pub with_memory : Round F T M → Services F T M (MemoryStore F)
  with_memory r = record r.services { put = memory_put r.ctx }

  -- The rounds of `Run`: an error of a round is only logged, and a panic, which is recovered, ends it.
  unfoldable pub run_ticks :
      List (Round F T M) → State F M (MemoryStore F) → State F M (MemoryStore F)
  unfolding tick
  run_ticks [] st = st
  run_ticks (r ∷ rounds) st =
      let (result, next) = tick (with_memory r) r.now st in
      let rest = run_ticks rounds next in if is_panic result then next else rest

  tick-IsBounded :
      (r : Round F T M) (st : State F M (MemoryStore F))
      → IsBounded st
      → IsBounded (tick (with_memory r) r.now st).1
  unfolding snapshot_of
  tick-IsBounded r st b =
      let wf = st.forecaster in
      let step = tick (with_memory r) r.now st in
      elim (tick-cases (with_memory r) r.now st) [
        | inl (stored, kept) ↦
            Counts-IsBounded wf wf.current_replicas step.1 kept b.within
              (subst (Serves wf) (sym stored) b.serves)
        | inr (f, (_, stored, _), kept) ↦
            let plan = planned wf f in
            let in_bounds =
              to_replicas-InBounds wf.current_replicas f.values _ wf.policy f.quantiles in
            Counts-IsBounded wf (first_or wf.current_replicas plan) step.1 kept
              (first_or-InBounds _ _ _ plan b.within in_bounds)
              (subst (Serves wf) (sym stored)
                (Serves-put r.ctx wf (snapshot_of r.now f plan wf) st.store in_bounds b.serves))
      ]

  -- However the adapter, the model and the contexts behave, each state of the loop has a current count
  -- in the bounds of the policy, and the snapshot that the store serves for the workload has all its
  -- counts in these bounds, if the first state is such.
  pub run_ticks-IsBounded :
      (rounds : List (Round F T M)) (st : State F M (MemoryStore F))
      → IsBounded st
      → IsBounded (run_ticks rounds st)
  unfolding run_ticks
  run_ticks-IsBounded [] st b = b
  run_ticks-IsBounded (r ∷ rounds) st b =
      let next = tick-IsBounded r st b in
      elim (Bool-cases (is_panic (tick (with_memory r) r.now st).0)) [
        | inl e ↦ rw (run_ticks, e) next
        | inr e ↦ rw (run_ticks, e) (run_ticks-IsBounded rounds _ next)
      ]
