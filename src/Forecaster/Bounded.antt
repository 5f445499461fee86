-- ===== src/Forecaster/Bounded.antt =====
-- What a round of the forecast loop does, whichever of its calls fail, and the bounds that hold in
-- every state of the loop.
use kedastral.Base.{
  ◌≡◌, refl, ap, ◌∙◌, subst, ◌⊎◌, inl, inr, Bool, true, false, Option, none, some, List, [], ◌∷◌,
  arith, if◌then◌else◌,
}
use kedastral.Base.Int.{ℤ}
use kedastral.Base.Result.{Result, ok, err}
use kedastral.Float64.{Float64}
use kedastral.Capacity.Planner.{to_replicas}
use kedastral.Features.{DataFrame, FeatureFrame, FeatureError, build_features}
use kedastral.Forecaster.Tick.{
  Forecast, Called, answered, failed, panicked, model_panicked, record_predict, record_collect,
  tick_predict, Services, WorkloadForecaster, State, TickError, predict_failed, store_failed,
  build_failed, collect_failed, record_capacity, Event, seconds, first_or, record_events,
  calculate_replicas, snapshot_of, finish_tick, tick_store, tick_forecast, tick_model, tick_data,
  tick,
}

module _ {ℓ μ} {F : Type ℓ} {M : Type μ} ⦃fl : Float64 F⦄ where
  -- The plan of a round that gets the forecast `f`.
  abbrev pub planned : WorkloadForecaster F M → Forecast F → List ℤ
  planned wf f = to_replicas wf.current_replicas f.values (seconds F wf.step) wf.policy f.quantiles

  -- The forecaster `wf'` is `wf` but for its model, and its current count is `n`.
  abbrev pub Counts : WorkloadForecaster F M → ℤ → WorkloadForecaster F M → Type (ℓ ⊔ μ)
  Counts wf n wf' = wf' ≡ record wf { model = wf'.model; current_replicas = n }

module _ {ℓ κ μ ν} {F : Type ℓ} {T : Type κ} {M : Type μ} {S : Type ν} ⦃fl : Float64 F⦄
    (services : Services F T M S) where
  -- A round that leaves the store and the current count, with the model `m`.
  abbrev Stays :
      WorkloadForecaster F M → S → M → Result TickError (Unit {0}) × State F M S → Type (ℓ ⊔ μ ⊔ ν)
  Stays wf store m r = (r.1.store ≡ store) × (r.1.forecaster ≡ record wf { model = m })

  -- A round that plans for the forecast `f` from the forecaster `wf` and the store `store`, with the
  -- model `m`: it succeeds exactly if the store takes the snapshot of the plan, and goes on with the
  -- first planned count in either case.
  abbrev pub Plans :
      ℤ
      → WorkloadForecaster F M
      → S
      → M
      → Forecast F
      → Result TickError (Unit {0}) × State F M S
      → Type (ℓ ⊔ μ ⊔ ν)
  Plans now wf store m f r =
      let answer = services.put (snapshot_of now f (planned wf f) wf) store in
      (r.0 ≡ (if answer.0 then ok tt else err store_failed))
      × (r.1.store ≡ answer.1)
      × (r.1.forecaster
          ≡ record wf { model = m; current_replicas = first_or wf.current_replicas (planned wf f) })

  -- The forecast of a round, or the first error on the way to it, with the model that is left: the rows
  -- of the window, their features, and a prediction from the features after training on them.
  abbrev predicted_or_error : Called (Forecast F) → Result TickError (Forecast F)
  predicted_or_error (answered f) = ok f
  predicted_or_error failed = err predict_failed
  predicted_or_error panicked = err model_panicked

  abbrev after_train : FeatureFrame F → Bool → M → Result TickError (Forecast F) × M
  after_train frame false m = (err model_panicked, m)
  after_train frame true m =
      (predicted_or_error (services.predict frame m).0, (services.predict frame m).1)

  abbrev after_build : Result FeatureError (FeatureFrame F) → M → Result TickError (Forecast F) × M
  after_build (err e) m = (err (build_failed e), m)
  after_build (ok frame) m = after_train frame (services.train frame m).0 (services.train frame m).1

  abbrev after_collect : Option (DataFrame F T) → M → Result TickError (Forecast F) × M
  after_collect none m = (err collect_failed, m)
  after_collect (some df) m = after_build (build_features services.calendar df) m

  abbrev pub round_forecast : WorkloadForecaster F M → Result TickError (Forecast F) × M
  round_forecast wf = after_collect (services.collect (seconds F wf.window)) wf.model

  abbrev pub Follows :
      ℤ
      → WorkloadForecaster F M
      → S
      → Result TickError (Forecast F) × M
      → Result TickError (Unit {0}) × State F M S
      → Type (ℓ ⊔ μ ⊔ ν)
  Follows now wf store (err e, m) r = (r.0 ≡ err e) × Stays wf store m r
  Follows now wf store (ok f, m) r = Plans now wf store m f r

  abbrev pub Outcome :
      ℤ → State F M S → Result TickError (Unit {0}) × State F M S → Type (ℓ ⊔ μ ⊔ ν)
  Outcome now st r = Follows now st.forecaster st.store (round_forecast st.forecaster) r

  record_events-store :
      (es : List (Event F)) (st : State F M S) → (record_events es st).store ≡ st.store
  unfolding record_events
  record_events-store es st = ground arith

  record_events-forecaster :
      (es : List (Event F)) (st : State F M S) → (record_events es st).forecaster ≡ st.forecaster
  unfolding record_events
  record_events-forecaster es st = ground arith

  -- The state `st` in the middle of a round of `wf` with the store `store`, which has planned nothing
  -- yet.
  abbrev Keeps : WorkloadForecaster F M → S → State F M S → Type (ℓ ⊔ μ ⊔ ν)
  Keeps wf store st =
      (st.store ≡ store) × (st.forecaster ≡ record wf { model = st.forecaster.model })

  Keeps-record_events :
      (es : List (Event F)) (wf : WorkloadForecaster F M) (store : S) (st : State F M S)
      → Keeps wf store st
      → Keeps wf store (record_events es st)
  Keeps-record_events es wf store st k =
      rw (record_events-store es st, record_events-forecaster es st) k

  Stays-record_events :
      (es : List (Event F)) (e : TickError) (wf : WorkloadForecaster F M) (store : S)
      (st : State F M S)
      → Keeps wf store st
      → Stays wf store st.forecaster.model (err e, record_events es st)
  Stays-record_events es e wf store st k =
      rw (record_events-store es st, record_events-forecaster es st) k

  finish_tick_lem :
      (f : Forecast F) (accepted : Bool) (st : State F M S)
      → let r = finish_tick services f accepted st in
        (r.0 ≡ (if accepted then ok tt else err store_failed))
        × (r.1.store ≡ st.store)
        × (r.1.forecaster ≡ st.forecaster)
  unfolding finish_tick
  finish_tick_lem f true st = (refl, record_events-store _ st, record_events-forecaster _ st)
  finish_tick_lem f false st = (refl, record_events-store _ st, record_events-forecaster _ st)

  tick_store-Plans_self :
      (now : ℤ) (f : Forecast F) (st : State F M S)
      → Plans now st.forecaster st.store st.forecaster.model f (tick_store services now f st)
  unfolding tick_store snapshot_of calculate_replicas
  tick_store-Plans_self now f st =
      let (desired, wf) = calculate_replicas f.values f.quantiles st.forecaster in
      let counted = record_events (record_capacity ∷ []) (record st { forecaster = wf }) in
      let (accepted, store) = services.put (snapshot_of now f desired wf) st.store in
      let (result, stored, kept) = finish_tick_lem f accepted (record counted { store = store }) in
      let same = kept ∙ record_events-forecaster _ (record st { forecaster = wf }) in
      (result, stored, rw same refl)

  Plans-model :
      (now : ℤ) (wf wf' : WorkloadForecaster F M) (store store' : S) (m : M) (f : Forecast F)
      (r : Result TickError (Unit {0}) × State F M S)
      → store' ≡ store
      → wf' ≡ record wf { model = m }
      → Plans now wf' store' m f r
      → Plans now wf store m f r
  unfolding snapshot_of
  Plans-model now wf wf' store store' m f r e k p =
      subst (λ w. Plans now w store m f r) k (subst (λ t. Plans now wf' t m f r) e p)

  tick_store-Plans :
      (now : ℤ) (f : Forecast F) (wf : WorkloadForecaster F M) (store : S) (st : State F M S)
      → Keeps wf store st
      → Plans now wf store st.forecaster.model f (tick_store services now f st)
  tick_store-Plans now f wf store st k =
      Plans-model now wf st.forecaster store st.store st.forecaster.model f
        (tick_store services now f st) k.0 k.1 (tick_store-Plans_self now f st)

  tick_forecast-Follows :
      (now : ℤ) (o : Called (Forecast F)) (wf : WorkloadForecaster F M) (store : S)
      (st : State F M S)
      → Keeps wf store st
      → Follows now wf store
          (predicted_or_error o, st.forecaster.model)
          (tick_forecast services now o st)
  unfolding tick_forecast
  tick_forecast-Follows now failed wf store st k =
      (refl, Stays-record_events _ predict_failed wf store st k)
  tick_forecast-Follows now panicked wf store st k = (refl, k)
  tick_forecast-Follows now (answered f) wf store st k =
      subst (λ m. Plans now wf store m f (tick_store services now f recorded))
        (ap (λ (w : WorkloadForecaster F M). w.model) (record_events-forecaster _ st))
        (tick_store-Plans now f wf store recorded (Keeps-record_events _ wf store st k))
    where
      recorded : State F M S
      recorded = record_events (record_predict ∷ []) st

  -- the state after the model has changed
  abbrev with_model : M → State F M S → State F M S
  with_model m st = record st { forecaster = record st.forecaster { model = m } }

  Keeps-with_model :
      (m : M) (wf : WorkloadForecaster F M) (store : S) (st : State F M S)
      → Keeps wf store st
      → Keeps wf store (with_model m st)
  Keeps-with_model m wf store st k =
      (k.0, ap (λ (w : WorkloadForecaster F M). record w { model = m }) k.1)

  tick_predict-Follows :
      (now : ℤ) (frame : FeatureFrame F) (returned : Bool) (wf : WorkloadForecaster F M) (store : S)
      (st : State F M S)
      → Keeps wf store st
      → Follows now wf store
          (after_train frame returned st.forecaster.model)
          (tick_predict services now frame returned st)
  unfolding tick_predict
  tick_predict-Follows now frame false wf store st k = (refl, k)
  tick_predict-Follows now frame true wf store st k =
      let (o, m) = services.predict frame st.forecaster.model in
      tick_forecast-Follows now o wf store (with_model m st) (Keeps-with_model m wf store st k)

  tick_model-Follows :
      (now : ℤ) (r : Result FeatureError (FeatureFrame F)) (wf : WorkloadForecaster F M) (store : S)
      (st : State F M S)
      → Keeps wf store st
      → Follows now wf store (after_build r st.forecaster.model) (tick_model services now r st)
  unfolding tick_model
  tick_model-Follows now (err e) wf store st k =
      (refl, Stays-record_events _ (build_failed e) wf store st k)
  tick_model-Follows now (ok frame) wf store st k =
      let (returned, m) = services.train frame st.forecaster.model in
      tick_predict-Follows now frame returned wf store (with_model m st)
        (Keeps-with_model m wf store st k)

  tick_data-Follows :
      (now : ℤ) (o : Option (DataFrame F T)) (st : State F M S)
      → Follows now st.forecaster st.store
          (after_collect o st.forecaster.model)
          (tick_data services now o st)
  unfolding tick_data
  tick_data-Follows now none st =
      (refl, Stays-record_events _ collect_failed st.forecaster st.store st (refl, refl))
  tick_data-Follows now (some df) st =
      subst
        (λ m.
          Follows now st.forecaster st.store (after_build (build_features services.calendar df) m)
            (tick_data services now (some df) st))
        (ap (λ (w : WorkloadForecaster F M). w.model) (record_events-forecaster _ st))
        (tick_model-Follows now (build_features services.calendar df) st.forecaster st.store
          recorded (Keeps-record_events _ st.forecaster st.store st (refl, refl)))
    where
      recorded : State F M S
      recorded = record_events (record_collect ∷ []) st

  -- A round of the loop collects the rows of the window, builds their features, trains the model on
  -- them and predicts from them. Without a forecast it answers the first error of these steps, a panic
  -- of the model included, but not an error of training, and leaves the store and the current count as
  -- they were. With the forecast that the model predicts it plans from the current count, puts the
  -- snapshot of that plan, and answers no error exactly if the store takes it, while the first planned
  -- count becomes the current one even if the store does not. Nothing else of the forecaster changes
  -- but its model, which is left as training and prediction left it.
  pub tick-Outcome : (now : ℤ) (st : State F M S) → Outcome now st (tick services now st)
  unfolding tick
  tick-Outcome now st = tick_data-Follows now _ st

  -- The same without what the round collected: some forecast was planned for, or none.
  abbrev pub Fails : State F M S → Result TickError (Unit {0}) × State F M S → Type (ℓ ⊔ μ ⊔ ν)
  Fails st r =
      (r.1.store ≡ st.store) × Counts st.forecaster st.forecaster.current_replicas r.1.forecaster

  Follows-cases :
      (now : ℤ) (st : State F M S) (x : Result TickError (Forecast F) × M)
      (r : Result TickError (Unit {0}) × State F M S)
      → Follows now st.forecaster st.store x r
      → Fails st r
        ⊎ ((f : Forecast F) × Plans now st.forecaster st.store x.1 f r
            × Counts st.forecaster
                (first_or st.forecaster.current_replicas (planned st.forecaster f))
                r.1.forecaster)
  Follows-cases now st (err e, m) r h = inl (h.1.0, rw h.1.1 refl)
  Follows-cases now st (ok f, m) r h = inr (f, h, rw h.2 refl)

  pub tick-cases :
      (now : ℤ) (st : State F M S)
      → let r = tick services now st in
        Fails st r
        ⊎ ((f : Forecast F) × Plans now st.forecaster st.store (round_forecast st.forecaster).1 f r
            × Counts st.forecaster
                (first_or st.forecaster.current_replicas (planned st.forecaster f))
                r.1.forecaster)
  tick-cases now st = Follows-cases now st (round_forecast st.forecaster) _ (tick-Outcome now st)
