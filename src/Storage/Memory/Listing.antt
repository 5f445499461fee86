-- ===== src/Storage/Memory/Listing.antt =====
-- `List` and `Len` agree with what `GetLatest` finds.
use kedastral.Base.{
  suc, ◌+◌, String, ◌≡◌, refl, ap, ◌∙◌, inl, false, none, List, [], ◌∷◌, if◌then◌else◌, str_eq,
  length,
}
use kedastral.Base.Dict.{
  Dict, IsMap, keys, occurs, is_some, occurs-keys, length-insert, length-erase,
}
use kedastral.Base.Result.{ok}
use kedastral.Storage.Snapshot.{Snapshot}
use kedastral.Storage.Memory.{MemoryStore, new_memory_store, put, list, len, delete}
use kedastral.Storage.Memory.Invariant.{Call, IsFiled, apply_all, reachable-IsFiled}
use kedastral.Storage.Memory.View.{view}

-- No name is listed twice.
abbrev pub AreDistinct : List String → Type 0
AreDistinct [] = Unit
AreDistinct (k ∷ ks) = (occurs k ks ≡ false) × AreDistinct ks

module _ {ℓ} {F : Type ℓ} where
  keys-AreDistinct : (m : Dict (Snapshot F)) → IsMap m → AreDistinct (keys m)
  unfolding keys
  keys-AreDistinct [] h = tt
  keys-AreDistinct ((k, s) ∷ m) h = (occurs-keys k m ∙ ap is_some h.0, keys-AreDistinct m h.1)

  length-keys : (m : Dict (Snapshot F)) → length (keys m) ≡ length m
  unfolding keys
  length-keys [] = refl
  length-keys ((k, s) ∷ m) = ap suc (length-keys m)

  -- In a store that is filed and with a live context, `List` answers the names of exactly the workloads that have a snapshot, each
  -- once, and as many as `Len` says.
  pub list_complete :
      (st : MemoryStore F)
      → IsFiled st
      → (ks : List String) × (list none st ≡ ok ks)
        × ((k : String) → occurs k ks ≡ is_some (view st k))
        × AreDistinct ks
        × (length ks ≡ len st)
  unfolding list len
  list_complete st f = (
    keys st.snapshots,
    refl,
    λ k. occurs-keys k st.snapshots,
    keys-AreDistinct st.snapshots f.is_map,
    length-keys st.snapshots,
  )

  -- In a reachable store a `Put` that is accepted adds one to `Len` if the workload had no snapshot,
  -- and a `Delete` takes one off if it had one; otherwise `Len` stays.
  pub len-put-delete :
      (cs : List (Call F)) (s : Snapshot F) (w : String)
      → str_eq s.workload "" ≡ false
      → let st = apply_all cs new_memory_store in
        (len (put none s st).1 ≡ (if is_some (view st s.workload) then len st else len st + 1))
        × (len st ≡ (if is_some (view st w) then len (delete w st).1 + 1 else len (delete w st).1))
  unfolding len put delete
  len-put-delete cs s w h =
      let m = (apply_all cs new_memory_store).snapshots in
      let filed = reachable-IsFiled new_memory_store cs (inl refl) in
      rw h (length-insert s.workload s m, length-erase w m filed.is_map)
