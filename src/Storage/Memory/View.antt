-- ===== src/Storage/Memory/View.antt =====
-- `MemoryStore` refines a map from workload names to snapshots: what each method answers and how it
-- changes the map, on every branch.
use kedastral.Base.{
  String, ◌≡◌, refl, inl, inr, Bool-cases, Bool, true, false, Option, none, some, [], ◌∷◌, arith,
  if◌then◌else◌, str_eq, eq_iff,
}
use kedastral.Base.Int.{ℤ, pos, leb_ℤ, eqb_ℤ}
use kedastral.Base.Dict.{Dict, IsMap, lookup, is_some, lookup-insert, lookup-erase}
use kedastral.Base.Result.{Result, ok, err}
use kedastral.Base.Time.{time_sub}
use kedastral.Storage.Snapshot.{Snapshot, Ctx, StoreError, empty_workload, context}
use kedastral.Storage.Memory.{MemoryStore, is_stale, sweep, cleanup, put, delete}

abbrev pub is_ok : Result StoreError (Unit {0}) → Bool
is_ok (ok u) = true
is_ok (err e) = false

-- The answer of `Put` for a workload name.
abbrev pub put_answer : Ctx → String → Result StoreError (Unit {0})
put_answer none w = if str_eq w "" then err empty_workload else ok tt
put_answer (some e) w = if str_eq w "" then err empty_workload else err (context e)

module _ {ℓ} {F : Type ℓ} where
  -- The abstract store: the snapshot of each workload.
  abbrev pub view : MemoryStore F → String → Option (Snapshot F)
  view st k = lookup k st.snapshots

  -- `Put` answers an error for an empty workload name, and otherwise the error of a context that is
  -- done. It replaces the snapshot of that workload if and only if it answers no error, and changes
  -- no other workload.
  pub view-put :
      (ctx : Ctx) (s : Snapshot F) (st : MemoryStore F) (k : String)
      → ((put ctx s st).0 ≡ put_answer ctx s.workload)
        × (view (put ctx s st).1 k ≡ (
            if is_ok (put_answer ctx s.workload)
            then (if str_eq s.workload k then some s else view st k)
            else view st k))
  unfolding put
  view-put (some e) s st k = elim (Bool-cases (str_eq s.workload "")) [
    | inl h ↦ rw h (refl, refl)
    | inr h ↦ rw h (refl, refl)
  ]
  view-put none s st k = elim (Bool-cases (str_eq s.workload "")) [
    | inl h ↦ rw h (refl, refl)
    | inr h ↦ rw h (refl, lookup-insert s.workload k s st.snapshots)
  ]

  -- A snapshot, if any, whose age is at most the TTL.
  abbrev pub fresh : ℤ → ℤ → Option (Snapshot F) → Option (Snapshot F)
  fresh ttl now none = none
  fresh ttl now (some s) = if leb_ℤ (time_sub now s.generated_at) ttl then some s else none

  fresh_lem :
      (ttl now : ℤ) (s : Snapshot F)
      → fresh ttl now (some s) ≡ (if is_stale ttl now s then none else some s)
  unfolding is_stale
  fresh_lem ttl now s = ground arith

  lookup-sweep :
      (ttl now : ℤ) (k : String) (m : Dict (Snapshot F))
      → IsMap m
      → lookup k (sweep ttl now m) ≡ fresh ttl now (lookup k m)
  unfolding lookup sweep
  lookup-sweep ttl now k [] h = ground arith
  lookup-sweep ttl now k ((j, s) ∷ m) h =
      ground (arith, lookup-sweep ttl now k m h.1, eq_iff j k, fresh_lem ttl now s)

  -- In a store with one entry for each name, `cleanup` keeps exactly the snapshots whose age is at most
  -- the TTL, and drops nothing without a TTL.
  pub view-cleanup :
      (now : ℤ) (st : MemoryStore F) (k : String)
      → IsMap st.snapshots
      → view (cleanup now st) k
        ≡ (if eqb_ℤ st.ttl (pos 0) then view st k else fresh st.ttl now (view st k))
  unfolding cleanup
  view-cleanup now st k h = ground (arith, lookup-sweep st.ttl now k st.snapshots h)

  -- `Delete` answers whether the workload had a snapshot, and removes that one only.
  pub view-delete :
      (w : String) (st : MemoryStore F) (k : String)
      → ((delete w st).0 ≡ is_some (view st w))
        × (view (delete w st).1 k ≡ (if str_eq w k then none else view st k))
  unfolding delete
  view-delete w st k = ground (arith, lookup-erase w k st.snapshots)
