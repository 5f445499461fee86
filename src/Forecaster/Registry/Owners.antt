-- ===== src/Forecaster/Registry/Owners.antt =====
-- Once the registry is started, each entry owns one goroutine, and no other goroutine is alive.
use kedastral.Base.{
  ℕ, suc, ◌<◌, ◌≡◌, refl, sym, ap, ◌∙◌, subst, inl, inr, Bool-cases, Option-cases, String, Bool,
  true, false, Option, none, some, List, [], ◌∷◌, arith, str_eq, eq_iff, if◌then◌else◌, ◌==◌,
}
use kedastral.Base.Dict.{Dict, lookup, insert, erase, lookup-insert, lookup-erase, is_some}
use kedastral.Forecaster.Registry.{
  Managed, MultiForecaster, drop_goroutine, cancel_entry, launch, upsert, remove,
}

module _ {ℓ} {W : Type ℓ} where
  -- The forecaster that a live goroutine runs.
  unfoldable pub runs : ℕ → List (ℕ × W) → Option W
  runs g [] = none
  runs g ((h, w) ∷ live) = if h == g then some w else runs g live

  runs-drop_goroutine :
      (h g : ℕ) (live : List (ℕ × W))
      → runs g (drop_goroutine h live) ≡ (if h == g then none else runs g live)
  unfolding runs drop_goroutine
  runs-drop_goroutine h g [] = ground arith
  runs-drop_goroutine h g ((i, w) ∷ live) = ground (arith, runs-drop_goroutine h g live)

if_true {ℓ} : {A : Type ℓ} (b : Bool) (x y : A) → b ≡ true → (if b then x else y) ≡ x
if_true true x y h = refl
if_true false x y h = cc

module _ {ℓ} {W : Type ℓ} (name : W → String) where
  -- `entry` is the registry as a function. A live goroutine belongs to the entry of its forecaster's
  -- name, and the entry of a name has that name and a live goroutine.
  pub record Owns (entry : String → Option (Managed W)) (live : List (ℕ × W)) (next : ℕ)
      : Type ℓ where
    pub owned :
        (g : ℕ) (w : W)
        → runs g live ≡ some w
        → entry (name w) ≡ some (record { forecaster = w; cancel = some g })
    pub owner :
        (k : String) (m : Managed W)
        → entry k ≡ some m
        → (name m.forecaster ≡ k)
          × ((g : ℕ) × (m.cancel ≡ some g) × (runs g live ≡ some m.forecaster))
    pub numbered : (g : ℕ) (w : W) → runs g live ≡ some w → g < next

  Owns-ext :
      (e f : String → Option (Managed W)) (live : List (ℕ × W)) (next : ℕ)
      → ((k : String) → f k ≡ e k)
      → Owns e live next
      → Owns f live next
  Owns-ext e f live next h o = record {
    owned = λ g w at. h (name w) ∙ o.owned g w at;
    owner = λ k m at. o.owner k m (sym (h k) ∙ at);
    numbered = o.numbered;
  }

  abbrev without : String → (String → Option (Managed W)) → String → Option (Managed W)
  without k e j = if str_eq k j then none else e j

  abbrev extended : String → Managed W → (String → Option (Managed W)) → String → Option (Managed W)
  extended k m e j = if str_eq k j then some m else e j

  -- a new goroutine for a name that has no entry
  Owns-launch :
      (entry : String → Option (Managed W)) (live : List (ℕ × W)) (next : ℕ) (w : W)
      → entry (name w) ≡ none
      → Owns entry live next
      → Owns
          (extended (name w) (record { forecaster = w; cancel = some next }) entry)
          ((next, w) ∷ live)
          (suc next)
  unfolding runs
  Owns-launch entry live next w free o = record {
    owned = owned_next;
    owner = owner_next;
    numbered = λ g v at. ground (arith, at, o.numbered g v);
  }
    where
      owned_next :
          (g : ℕ) (v : W)
          → runs g ((next, w) ∷ live) ≡ some v
          → extended (name w) (record { forecaster = w; cancel = some next }) entry (name v)
            ≡ some (record { forecaster = v; cancel = some g })
      owned_next g v at = elim (Bool-cases (next == g)) [
        | inl q ↦
            let same : next ≡ g = ground (arith, q) in
            let is_w : w ≡ v = cc (rw q at at) in
            rw (sym is_w, sym same, (eq_iff (name w) (name w)).1 refl) refl
        | inr q ↦
            let own = o.owned g v (rw q at at) in
            elim (Bool-cases (str_eq (name w) (name v))) [
              | inl d ↦ absurd (cc (free, own, ap entry ((eq_iff (name w) (name v)).0 d)))
              | inr d ↦ rw d own
            ]
      ]

      owner_next :
          (k : String) (m : Managed W)
          → extended (name w) (record { forecaster = w; cancel = some next }) entry k ≡ some m
          → (name m.forecaster ≡ k)
            × ((g : ℕ) × (m.cancel ≡ some g) × (runs g ((next, w) ∷ live) ≡ some m.forecaster))
      owner_next k m at = elim (Bool-cases (str_eq (name w) k)) [
        | inl d ↦
            let made : Managed W = record { forecaster = w; cancel = some next } in
            let same : made ≡ m = cc (rw d at at) in
            let self : (next == next) ≡ true = ground arith in
            subst
              (λ (x : Managed W).
                (name x.forecaster ≡ k)
                × ((g : ℕ) × (x.cancel ≡ some g) × (runs g ((next, w) ∷ live) ≡ some x.forecaster)))
              same ((eq_iff (name w) k).0 d, (next, refl, rw self refl))
        | inr d ↦
            let (named, (g, c, r)) = o.owner k m (rw d at at) in
            let other : (next == g) ≡ false = ground (arith, o.numbered g m.forecaster r) in
            (named, (g, c, rw other r))
      ]

  -- the goroutine of an entry that goes
  Owns-drop :
      (entry : String → Option (Managed W)) (live : List (ℕ × W)) (next : ℕ) (k : String)
      (m : Managed W) (g : ℕ)
      → entry k ≡ some m
      → m.cancel ≡ some g
      → Owns entry live next
      → Owns (without k entry) (drop_goroutine g live) next
  Owns-drop entry live next k m g at h o = record {
    owned = owned_left;
    owner = owner_left;
    numbered = λ i v r. ground (arith, r, runs-drop_goroutine g i live, o.numbered i v);
  }
    where
      left :
          (i : ℕ) (v : W)
          → runs i (drop_goroutine g live) ≡ some v
          → ((g == i) ≡ false) × (runs i live ≡ some v)
      left i v r = elim (Bool-cases (g == i)) [
        | inl q ↦ absurd (cc (rw (runs-drop_goroutine g i live, q) at r))
        | inr q ↦ (q, rw (runs-drop_goroutine g i live, q) at r)
      ]

      owned_left :
          (i : ℕ) (v : W)
          → runs i (drop_goroutine g live) ≡ some v
          → without k entry (name v) ≡ some (record { forecaster = v; cancel = some i })
      owned_left i v r =
          let (q, here) = left i v r in
          let own = o.owned i v here in
          elim (Bool-cases (str_eq k (name v))) [
            | inl d ↦
                let made : Managed W = record { forecaster = v; cancel = some i } in
                let same : m ≡ made = cc (at, own, ap entry ((eq_iff k (name v)).0 d)) in
                let numbers : i ≡ g = cc (sym (ap (λ (x : Managed W). x.cancel) same) ∙ h) in
                absurd (ground (arith, q, numbers))
            | inr d ↦ rw d own
          ]

      owner_left :
          (j : String) (n : Managed W)
          → without k entry j ≡ some n
          → (name n.forecaster ≡ j)
            × ((i : ℕ) × (n.cancel ≡ some i) × (runs i (drop_goroutine g live) ≡ some n.forecaster))
      owner_left j n r = elim (Bool-cases (str_eq k j)) [
        | inl d ↦ absurd (cc (rw d at r))
        | inr d ↦
            let (named, (i, c, here)) = o.owner j n (rw d at r) in
            elim (Bool-cases (g == i)) [
              | inl q ↦
                  let same : g ≡ i = ground (arith, q) in
                  let (named', (g', c', here')) = o.owner k m at in
                  let fs : some m.forecaster ≡ some n.forecaster = cc (h, c', here, here', same) in
                  let f : m.forecaster ≡ n.forecaster = cc fs in
                  let kj : k ≡ j = cc (named, named', ap name f) in
                  absurd (cc (d, (eq_iff k j).1 kj))
              | inr q ↦ (named, (i, c, rw (runs-drop_goroutine g i live, q) here))
            ]
      ]

  -- The registry is started, and its entries own exactly the live goroutines.
  pub record IsOwned (mf : MultiForecaster W) : Type ℓ where
    pub is_started : mf.started ≡ true
    pub owns : Owns (λ k. lookup k mf.running) mf.live mf.next

  -- the registry after the entry of a name, if any, has been canceled and taken out
  cancel_entry-Owns :
      (k : String) (mf : MultiForecaster W)
      → Owns (λ j. lookup j mf.running) mf.live mf.next
      → let canceled = cancel_entry (lookup k mf.running) mf in
        Owns (without k (λ j. lookup j mf.running)) canceled.live canceled.next
        × (canceled.running ≡ mf.running)
  cancel_entry-Owns k mf o = elim (Option-cases (lookup k mf.running)) [
    | inl free ↦
        let same : cancel_entry (lookup k mf.running) mf ≡ mf =
          unfold cancel_entry in rw free refl in
        rw same (Owns-ext (λ j. lookup j mf.running) _ mf.live mf.next (absent free) o, refl)
    | inr (m, at) ↦
        let (_, (g, c, _)) = o.owner k m at in
        let same : cancel_entry (lookup k mf.running) mf
            ≡ record mf { live = drop_goroutine g mf.live } =
          unfold cancel_entry in rw (at, c) refl in
        rw same (Owns-drop (λ j. lookup j mf.running) mf.live mf.next k m g at c o, refl)
  ]
    where
      absent :
          lookup k mf.running ≡ none
          → (j : String) → without k (λ i. lookup i mf.running) j ≡ lookup j mf.running
      absent free j = elim (Bool-cases (str_eq k j)) [
        | inl d ↦ rw d (sym free ∙ ap (λ i. lookup i mf.running) ((eq_iff k j).0 d))
        | inr d ↦ rw d refl
      ]

  cancel_entry-started :
      (k : String) (mf : MultiForecaster W)
      → (cancel_entry (lookup k mf.running) mf).started ≡ mf.started
  cancel_entry-started k mf = entry_started (lookup k mf.running)
    where
      entry_started : (e : Option (Managed W)) → (cancel_entry e mf).started ≡ mf.started
      entry_started e = unfold cancel_entry in ground arith

  pub remove-IsOwned : (k : String) (mf : MultiForecaster W) → IsOwned mf → IsOwned (remove k mf).1
  unfolding remove
  remove-IsOwned k mf o = elim (Bool-cases (is_some (lookup k mf.running))) [
    | inl e ↦
        let (owns, same) = cancel_entry-Owns k mf o.owns in
        let canceled = cancel_entry (lookup k mf.running) mf in
        rw e (record {
          is_started = cancel_entry-started k mf ∙ o.is_started;
          owns =
              Owns-ext (without k (λ j. lookup j mf.running)) _ canceled.live canceled.next
                (λ j. ap (λ m. lookup j (erase k m)) same ∙ lookup-erase k j mf.running) owns;
        })
    | inr e ↦ rw e o
  ]

  pub upsert-IsOwned : (w : W) (mf : MultiForecaster W) → IsOwned mf → IsOwned (upsert name w mf)
  unfolding upsert launch
  upsert-IsOwned w mf o =
      let k = name w in
      let (owns, same) = cancel_entry-Owns k mf o.owns in
      let canceled = cancel_entry (lookup k mf.running) mf in
      let free = without k (λ j. lookup j mf.running) in
      let no_entry : free k ≡ none = rw ((eq_iff k k).1 refl) refl in
      let launched = Owns-launch free canceled.live canceled.next w no_entry owns in
      let without_cancel : Managed W = record { forecaster = w; cancel = none } in
      let registered = record canceled { running = insert k without_cancel canceled.running } in
      subst IsOwned (sym (if_true mf.started (launch k w registered) registered o.is_started))
        (record {
          is_started = cancel_entry-started k mf ∙ o.is_started;
          owns =
              Owns-ext (extended k (record { forecaster = w; cancel = some canceled.next }) free)
                (λ j. lookup j (launch k w registered).running) ((canceled.next, w) ∷ canceled.live)
                (suc canceled.next)
                (λ j.
                  ap
                    (λ r. lookup j (
                      insert k (record { forecaster = w; cancel = some canceled.next })
                        (insert k without_cancel r)))
                    same
                  ∙ twice k j (record { forecaster = w; cancel = some canceled.next })
                      without_cancel mf.running)
                launched;
        })
    where
      twice :
          (k j : String) (m n : Managed W) (running : Dict (Managed W))
          → lookup j (insert k m (insert k n running))
            ≡ extended k m (without k (λ i. lookup i running)) j
      twice k j m n running =
          rw (lookup-insert k j m (insert k n running), lookup-insert k j n running)
            (elim (Bool-cases (str_eq k j)) [ inl d ↦ rw d refl | inr d ↦ rw d refl ])
