-- ===== src/Storage/Memory/Invariant.antt =====
-- What every reachable `MemoryStore` satisfies: one entry for a workload, filed under its own name.
use kedastral.Base.{
  String, ◌≡◌, ◌≢◌, ◌⊎◌, inl, inr, Bool-cases, refl, sym, subst, none, some, List, [], ◌∷◌, arith,
  eq_iff,
}
use kedastral.Base.Int.{ℤ, pos, leb_ℤ}
use kedastral.Base.Dict.{Dict, IsMap, lookup, insert, erase, insert-IsMap, erase-IsMap}
use kedastral.Storage.Snapshot.{Snapshot, Ctx}
use kedastral.Storage.Memory.{
  MemoryStore, new_memory_store, new_memory_store_with_ttl, sweep, cleanup, put, delete,
}

-- The calls that change a store: what its clients do, and the ticks of the cleanup goroutine.
pub data Call {ℓ} (F : Type ℓ) : Type ℓ where
  put_call : Ctx → Snapshot F → Call F
  delete_call : String → Call F
  cleanup_call : ℤ → Call F

some_inj {ℓ} : {A : Type ℓ} (x y : A) → some x ≡ some y → x ≡ y
some_inj x y h = cc h

module _ {ℓ} {F : Type ℓ} where
  -- Every entry is a snapshot of the workload that it is filed under, and that has a name.
  abbrev pub AreFiled : Dict (Snapshot F) → Type 0
  AreFiled [] = Unit
  AreFiled ((k, s) ∷ m) = (s.workload ≡ k) × (k ≢ "") × AreFiled m

  pub record IsFiled (st : MemoryStore F) : Type ℓ where
    pub is_map : IsMap st.snapshots
    pub are_filed : AreFiled st.snapshots

  unfoldable pub apply : Call F → MemoryStore F → MemoryStore F
  apply (put_call ctx s) st = (put ctx s st).1
  apply (delete_call w) st = (delete w st).1
  apply (cleanup_call now) st = cleanup now st

  -- The calls of all goroutines in the order in which they take the mutex.
  unfoldable pub apply_all : List (Call F) → MemoryStore F → MemoryStore F
  unfolding apply
  apply_all [] st = st
  apply_all (c ∷ cs) st = apply_all cs (apply c st)

  insert-AreFiled :
      (s : Snapshot F) (m : Dict (Snapshot F))
      → s.workload ≢ ""
      → AreFiled m
      → AreFiled (insert s.workload s m)
  unfolding insert
  insert-AreFiled s [] h f = (refl, h, tt)
  insert-AreFiled s ((j, t) ∷ m) h f = ground (arith, insert-AreFiled s m h f.2)

  erase-AreFiled : (w : String) (m : Dict (Snapshot F)) → AreFiled m → AreFiled (erase w m)
  unfolding erase
  erase-AreFiled w [] f = tt
  erase-AreFiled w ((j, t) ∷ m) f = ground (arith, erase-AreFiled w m f.2)

  sweep-AreFiled : (ttl now : ℤ) (m : Dict (Snapshot F)) → AreFiled m → AreFiled (sweep ttl now m)
  unfolding sweep
  sweep-AreFiled ttl now [] f = tt
  sweep-AreFiled ttl now ((j, t) ∷ m) f = ground (arith, sweep-AreFiled ttl now m f.2)

  absent-sweep :
      (ttl now : ℤ) (k : String) (m : Dict (Snapshot F))
      → lookup k m ≡ none
      → lookup k (sweep ttl now m) ≡ none
  unfolding lookup sweep
  absent-sweep ttl now k [] h = refl
  absent-sweep ttl now k ((j, t) ∷ m) h = ground (arith, absent-sweep ttl now k m)

  sweep-IsMap : (ttl now : ℤ) (m : Dict (Snapshot F)) → IsMap m → IsMap (sweep ttl now m)
  unfolding sweep
  sweep-IsMap ttl now [] h = tt
  sweep-IsMap ttl now ((j, t) ∷ m) h =
      ground (arith, sweep-IsMap ttl now m h.1, absent-sweep ttl now j m h.0)

  put-IsFiled :
      (ctx : Ctx) (s : Snapshot F) (st : MemoryStore F) → IsFiled st → IsFiled (put ctx s st).1
  unfolding put
  put-IsFiled ctx s st f = ground (
    arith,
    eq_iff s.workload "",
    insert-IsMap s.workload s st.snapshots f.is_map,
    insert-AreFiled s st.snapshots,
  )

  delete-IsFiled : (w : String) (st : MemoryStore F) → IsFiled st → IsFiled (delete w st).1
  unfolding delete
  delete-IsFiled w st f = record {
    is_map = erase-IsMap w st.snapshots f.is_map;
    are_filed = erase-AreFiled w st.snapshots f.are_filed;
  }

  cleanup-IsFiled : (now : ℤ) (st : MemoryStore F) → IsFiled st → IsFiled (cleanup now st)
  unfolding cleanup
  cleanup-IsFiled now st f = ground (
    arith,
    sweep-IsMap st.ttl now st.snapshots f.is_map,
    sweep-AreFiled st.ttl now st.snapshots f.are_filed,
  )

  apply-IsFiled : (c : Call F) (st : MemoryStore F) → IsFiled st → IsFiled (apply c st)
  unfolding apply
  apply-IsFiled (put_call ctx s) st f = put-IsFiled ctx s st f
  apply-IsFiled (delete_call w) st f = delete-IsFiled w st f
  apply-IsFiled (cleanup_call now) st f = cleanup-IsFiled now st f

  apply_all-IsFiled :
      (cs : List (Call F)) (st : MemoryStore F) → IsFiled st → IsFiled (apply_all cs st)
  unfolding apply_all
  apply_all-IsFiled [] st f = f
  apply_all-IsFiled (c ∷ cs) st f = apply_all-IsFiled cs (apply c st) (apply-IsFiled c st f)

  -- What `NewMemoryStore` makes, or `NewMemoryStoreWithTTL` when it does not panic.
  abbrev pub IsNew : MemoryStore F → Type ℓ
  IsNew st =
      (st ≡ new_memory_store)
      ⊎ ((ttl : ℤ) × (interval : ℤ) × (new_memory_store_with_ttl ttl interval ≡ some st))

  new_memory_store_with_ttl-IsFiled :
      (ttl interval : ℤ) (st : MemoryStore F)
      → new_memory_store_with_ttl ttl interval ≡ some st
      → IsFiled st
  unfolding new_memory_store_with_ttl
  new_memory_store_with_ttl-IsFiled ttl interval st h = elim (Bool-cases (leb_ℤ ttl (pos 0))) [
    | inl e ↦ absurd (cc (rw e at h))
    | inr e ↦ subst IsFiled (some_inj _ st (rw e at h)) (record { is_map = tt; are_filed = tt })
  ]

  IsNew-IsFiled : (st : MemoryStore F) → IsNew st → IsFiled st
  unfolding new_memory_store
  IsNew-IsFiled st (inl e) = subst IsFiled (sym e) (record { is_map = tt; are_filed = tt })
  IsNew-IsFiled st (inr (ttl, interval, e)) = new_memory_store_with_ttl-IsFiled ttl interval st e

  -- In every state that calls of `Put`, `Delete` and `cleanup`, in any order and with any arguments,
  -- reach from a new store, with or without a TTL, each workload has at most one snapshot, filed under the workload name that
  -- the snapshot carries, and no snapshot has an empty name.
  pub reachable-IsFiled :
      (st : MemoryStore F) (cs : List (Call F)) → IsNew st → IsFiled (apply_all cs st)
  reachable-IsFiled st cs new = apply_all-IsFiled cs st (IsNew-IsFiled st new)

  lookup-AreFiled :
      (k : String) (m : Dict (Snapshot F)) (s : Snapshot F)
      → AreFiled m
      → lookup k m ≡ some s
      → s.workload ≡ k
  unfolding lookup
  lookup-AreFiled k [] s f h = cc
  lookup-AreFiled k ((j, t) ∷ m) s f h = ground (arith, lookup-AreFiled k m s f.2, eq_iff j k)
