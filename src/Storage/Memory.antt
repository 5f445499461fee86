-- ===== src/Storage/Memory.antt =====
-- pkg/storage/memory.go: `MemoryStore`. Each method holds the mutex from its first access of the map to
-- its return, so a method is one step on the state. The background goroutine calls `cleanup`.
pub mod View
pub mod Invariant
pub mod Listing
use kedastral.Base.{
  ℕ, String, Bool, true, false, not, ◌&&◌, Option, none, some, List, [], ◌∷◌, if◌then◌else◌, str_eq,
  length,
}
use kedastral.Base.Int.{ℤ, pos, ltb_ℤ, leb_ℤ, eqb_ℤ}
use kedastral.Base.Dict.{Dict, lookup, insert, erase, keys, is_some}
use kedastral.Base.Result.{Result, ok, err}
use kedastral.Base.Time.{minute, time_sub}
use kedastral.Storage.Snapshot.{Snapshot, Ctx, CtxError, StoreError, empty_workload, context}

pub record MemoryStore {ℓ} (F : Type ℓ) : Type ℓ where
  pub snapshots : Dict (Snapshot F)
  pub ttl : ℤ
  -- the period of the cleanup goroutine's ticker; `none` is the nil ticker
  pub cleanup_ticker : Option ℤ

module _ {ℓ} {F : Type ℓ} where
  unfoldable pub new_memory_store : MemoryStore F
  new_memory_store = record { snapshots = []; ttl = pos 0; cleanup_ticker = none }

  -- `none` is the panic on a TTL that is not positive.
  unfoldable pub new_memory_store_with_ttl : ℤ → ℤ → Option (MemoryStore F)
  new_memory_store_with_ttl ttl cleanup_interval =
      if leb_ℤ ttl (pos 0)
      then none
      else some (record {
        snapshots = [];
        ttl = ttl;
        cleanup_ticker = some (if leb_ℤ cleanup_interval (pos 0) then minute else cleanup_interval);
      })

  unfoldable pub is_stale : ℤ → ℤ → Snapshot F → Bool
  is_stale ttl now s = ltb_ℤ ttl (time_sub now s.generated_at)

  -- The loop of `cleanup`: deleting while ranging over a Go map is allowed.
  unfoldable pub sweep : ℤ → ℤ → Dict (Snapshot F) → Dict (Snapshot F)
  sweep ttl now [] = []
  sweep ttl now ((k, s) ∷ m) =
      let rest = sweep ttl now m in if is_stale ttl now s then rest else (k, s) ∷ rest

  unfoldable pub cleanup : ℤ → MemoryStore F → MemoryStore F
  cleanup now st =
      if eqb_ℤ st.ttl (pos 0) then st else record st { snapshots = sweep st.ttl now st.snapshots }

  unfoldable pub put_live :
      Ctx → Snapshot F → MemoryStore F → Result StoreError (Unit {0}) × MemoryStore F
  put_live (some e) s st = (err (context e), st)
  put_live none s st = (ok tt, record st { snapshots = insert s.workload s st.snapshots })

  unfoldable pub put :
      Ctx → Snapshot F → MemoryStore F → Result StoreError (Unit {0}) × MemoryStore F
  unfolding put_live
  put ctx s st = if str_eq s.workload "" then (err empty_workload, st) else put_live ctx s st

  -- `none` is `found == false`, with the zero snapshot.
  unfoldable pub get_latest : Ctx → String → MemoryStore F → Result StoreError (Option (Snapshot F))
  get_latest (some e) workload st = err (context e)
  get_latest none workload st = ok (lookup workload st.snapshots)

  unfoldable pub list : Ctx → MemoryStore F → Result StoreError (List String)
  list (some e) st = err (context e)
  list none st = ok (keys st.snapshots)

  unfoldable pub len : MemoryStore F → ℕ
  len st = length st.snapshots

  unfoldable pub delete : String → MemoryStore F → Bool × MemoryStore F
  delete workload st =
      let existed = is_some (lookup workload st.snapshots) in
      (existed, record st { snapshots = erase workload st.snapshots })
