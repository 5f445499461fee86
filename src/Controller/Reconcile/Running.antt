-- ===== src/Controller/Reconcile/Running.antt =====
-- The loop that runs under a key: that of a live goroutine, which the registry accounts for.
use kedastral.Base.{
  ◌≡◌, refl, sym, ◌∙◌, inl, inr, Bool-cases, Option-cases, String, Bool, true, false, Option, none,
  some, if◌then◌else◌, str_eq, eq_iff, ℕ, zero, suc, ◌<◌, ◌==◌, ap, List, arith,
}
use kedastral.Base.Dict.{Dict, lookup, insert, erase, is_some, lookup-insert, lookup-erase}
use kedastral.Forecaster.Registry.Owners.{IsOwned, runs, upsert-IsOwned, remove-IsOwned}
use kedastral.Forecaster.Registry.{Managed, MultiForecaster, cancel_entry, launch, upsert, remove}

some_inj {ℓ} : {A : Type ℓ} (x y : A) → some x ≡ some y → x ≡ y
some_inj x y h = cc h

module _ {μ} {W : Type μ} where
  -- The forecaster of an entry.
  abbrev forecaster_of : Option (Managed W) → Option W
  forecaster_of none = none
  forecaster_of (some m) = some m.forecaster

  -- The forecaster that is registered under a key.
  unfoldable registered_under : String → MultiForecaster W → Option W
  unfolding lookup
  registered_under key mf = forecaster_of (lookup key mf.running)

  running-cancel_entry :
      (e : Option (Managed W)) (mf : MultiForecaster W) → (cancel_entry e mf).running ≡ mf.running
  unfolding cancel_entry
  running-cancel_entry none mf = refl
  running-cancel_entry (some m) mf = elim (Option-cases m.cancel) [
    | inl e ↦ rw (cancel_entry, e) refl
    | inr (g, e) ↦ rw (cancel_entry, e) refl
  ]

  forecaster_of-insert :
      (key k : String) (m : Managed W) (d : Dict (Managed W))
      → forecaster_of (lookup key (insert k m d))
        ≡ (if str_eq k key then some m.forecaster else forecaster_of (lookup key d))
  forecaster_of-insert key k m d = elim (Bool-cases (str_eq k key)) [
    | inl e ↦ rw (lookup-insert k key m d, e) refl
    | inr e ↦ rw (lookup-insert k key m d, e) refl
  ]

  forecaster_of-insert_twice :
      (key k : String) (w : W) (c : Option ℕ) (d : Dict (Managed W))
      → forecaster_of (
          lookup key (
            insert k
              (record { forecaster = w; cancel = c })
              (insert k (record { forecaster = w; cancel = none }) d)))
        ≡ (if str_eq k key then some w else forecaster_of (lookup key d))
  forecaster_of-insert_twice key k w c d =
      let first : Managed W = record { forecaster = w; cancel = none } in
      let second : Managed W = record { forecaster = w; cancel = c } in
      elim (Bool-cases (str_eq k key)) [
        | inl e ↦ rw (forecaster_of-insert key k second (insert k first d), e) refl
        | inr e ↦
            rw
              (
                forecaster_of-insert key k second (insert k first d),
                forecaster_of-insert key k first d,
                e,
              )
              refl
      ]

  registered_under_lem :
      (key : String) (mf : MultiForecaster W)
      → registered_under key mf ≡ forecaster_of (lookup key mf.running)
  unfolding registered_under
  registered_under_lem key mf = refl

  registered_under-upsert :
      (name : W → String) (w : W) (mf : MultiForecaster W) (key : String)
      → registered_under key (upsert name w mf)
        ≡ (if str_eq (name w) key then some w else registered_under key mf)
  unfolding upsert registered_under launch
  registered_under-upsert name w mf key =
      placed mf.started (cancel_entry (lookup (name w) mf.running) mf)
      ∙ rw (running-cancel_entry (lookup (name w) mf.running) mf) refl
    where
      entry : Managed W
      entry = record { forecaster = w; cancel = none }

      placed :
          (b : Bool) (canceled : MultiForecaster W)
          → let registered = record canceled { running = insert (name w) entry canceled.running } in
            forecaster_of
              (lookup key (if b then launch (name w) w registered else registered).running)
            ≡ (if str_eq (name w) key then some w else forecaster_of (lookup key canceled.running))
      placed true canceled =
          forecaster_of-insert_twice key (name w) w (some canceled.next) canceled.running
      placed false canceled = forecaster_of-insert key (name w) entry canceled.running

  forecaster_of-erase :
      (key k : String) (d : Dict (Managed W))
      → forecaster_of (lookup key (erase k d))
        ≡ (if str_eq k key then none else forecaster_of (lookup key d))
  forecaster_of-erase key k d = elim (Bool-cases (str_eq k key)) [
    | inl e ↦ rw (lookup-erase k key d, e) refl
    | inr e ↦ rw (lookup-erase k key d, e) refl
  ]

  forecaster_of-absent :
      (key k : String) (d : Dict (Managed W))
      → is_some (lookup k d) ≡ false
      → forecaster_of (lookup key d) ≡ (if str_eq k key then none else forecaster_of (lookup key d))
  forecaster_of-absent key k d h = elim (Bool-cases (str_eq k key)) [
    | inl e ↦ rw (e, sym ((eq_iff k key).0 e)) (absent_none (lookup k d) h)
    | inr e ↦ rw e refl
  ]
    where
      absent_none : (o : Option (Managed W)) → is_some o ≡ false → forecaster_of o ≡ none
      absent_none none h = refl
      absent_none (some m) h = absurd (cc h)

  registered_under-remove :
      (k : String) (mf : MultiForecaster W) (key : String)
      → registered_under key (remove k mf).1
        ≡ (if str_eq k key then none else registered_under key mf)
  unfolding remove registered_under
  registered_under-remove k mf key =
      let kept = running-cancel_entry (lookup k mf.running) mf in
      elim (Bool-cases (is_some (lookup k mf.running))) [
        | inl e ↦ rw (remove, e, kept) (forecaster_of-erase key k mf.running)
        | inr e ↦ rw (remove, e) (forecaster_of-absent key k mf.running e)
      ]

module _ {μ} {W : Type μ} (name : W → String) where
  -- The forecaster of the goroutine with the highest number below `n` that is alive and whose
  -- forecaster has the name `key`.
  unfoldable pub live_named : String → ℕ → List (ℕ × W) → Option W
  unfolding runs
  live_named key zero live = none
  live_named key (suc n) live =
      let below = live_named key n live in
      elim (runs n live) [ none ↦ below | some w ↦ if str_eq (name w) key then some w else below ]

  -- The forecaster that a goroutine which is not canceled runs for a key, if there is one.
  unfoldable pub running_under : String → MultiForecaster W → Option W
  unfolding live_named
  running_under key mf = live_named key mf.next mf.live

  live_named-runs :
      (key : String) (n : ℕ) (live : List (ℕ × W)) (w : W)
      → live_named key n live ≡ some w
      → (g : ℕ) × (runs g live ≡ some w) × (name w ≡ key)
  unfolding live_named
  live_named-runs key zero live w h = absurd (cc h)
  live_named-runs key (suc n) live w h = elim (Option-cases (runs n live)) [
    | inl e ↦ live_named-runs key n live w (rw (live_named, e) at h)
    | inr (v, e) ↦ elim (Bool-cases (str_eq (name v) key)) [
      | inl d ↦
          let same : some v ≡ some w = rw (live_named, e, d) at h in
          (n, e ∙ same, ap name (sym (some_inj v w same)) ∙ (eq_iff (name v) key).0 d)
      | inr d ↦ live_named-runs key n live w (rw (live_named, e, d) at h)
    ]
  ]

  live_named-none :
      (key : String) (n : ℕ) (live : List (ℕ × W)) (g : ℕ) (w : W)
      → live_named key n live ≡ none
      → g < n
      → runs g live ≡ some w
      → str_eq (name w) key ≡ false
  unfolding live_named
  live_named-none key zero live g w h b at = absurd (omega (arith, b))
  live_named-none key (suc n) live g w h b at = elim (Option-cases (runs n live)) [
    | inl e ↦ live_named-none key n live g w (rw (live_named, e) at h) (other n g w live b e at) at
    | inr (v, e) ↦ elim (Bool-cases (str_eq (name v) key)) [
      | inl d ↦ absurd (cc (rw (live_named, e, d) at h))
      | inr d ↦ elim (Bool-cases (n == g)) [
        | inl q ↦
            let same : n ≡ g = ground (arith, q) in
            let is_v : some v ≡ some w = sym e ∙ ap (λ i. runs i live) same ∙ at in
            rw (sym (some_inj v w is_v)) d
        | inr q ↦
            live_named-none key n live g w (rw (live_named, e, d) at h) (ground (arith, b, q)) at
      ]
    ]
  ]
    where
      other :
          (n g : ℕ) (w : W) (live : List (ℕ × W))
          → g < suc n
          → runs n live ≡ none
          → runs g live ≡ some w
          → g < n
      other n g w live b e at = elim (Bool-cases (n == g)) [
        | inl q ↦
            let same : n ≡ g = ground (arith, q) in
            absurd (cc (sym e ∙ ap (λ i. runs i live) same ∙ at))
        | inr q ↦ ground (arith, b, q)
      ]

  running_under-IsOwned :
      (key : String) (mf : MultiForecaster W)
      → IsOwned name mf
      → running_under key mf ≡ registered_under key mf
  unfolding running_under registered_under
  running_under-IsOwned key mf o = elim (Option-cases (live_named key mf.next mf.live)) [
    | inr (w, e) ↦
        let (g, at, named) = live_named-runs key mf.next mf.live w e in
        let entry = ap (λ k. lookup k mf.running) (sym named) ∙ o.owns.owned g w at in
        e ∙ sym (ap forecaster_of entry)
    | inl e ↦ elim (Option-cases (lookup key mf.running)) [
      | inl free ↦ e ∙ sym (ap forecaster_of free)
      | inr (m, at) ↦
          let (named, (g, _, alive)) = o.owns.owner key m at in
          let not_named =
            live_named-none key mf.next mf.live g m.forecaster e
              (o.owns.numbered g m.forecaster alive) alive in
          absurd (cc (not_named, (eq_iff (name m.forecaster) key).1 named))
    ]
  ]

  pub running_under-upsert :
      (w : W) (mf : MultiForecaster W) (key : String)
      → IsOwned name mf
      → running_under key (upsert name w mf)
        ≡ (if str_eq (name w) key then some w else running_under key mf)
  running_under-upsert w mf key o =
      running_under-IsOwned key (upsert name w mf) (upsert-IsOwned name w mf o)
      ∙ registered_under-upsert name w mf key
      ∙ ap (λ r. if str_eq (name w) key then some w else r) (sym (running_under-IsOwned key mf o))

  pub running_under-remove :
      (k : String) (mf : MultiForecaster W) (key : String)
      → IsOwned name mf
      → running_under key (remove k mf).1 ≡ (if str_eq k key then none else running_under key mf)
  running_under-remove k mf key o =
      running_under-IsOwned key (remove k mf).1 (remove-IsOwned name k mf o)
      ∙ registered_under-remove k mf key
      ∙ ap (λ r. if str_eq k key then none else r) (sym (running_under-IsOwned key mf o))
