-- ===== src/Forecaster/Registry/Reachable.antt =====
-- The registry in operator mode: started empty, then changed by `Upsert` and `Remove` in any order.
use kedastral.Base.{ℕ, ◌≡◌, refl, sym, ap, ◌∙◌, String, some, List, [], ◌∷◌}
use kedastral.Base.Dict.{lookup}
use kedastral.Forecaster.Registry.{
  Managed, MultiForecaster, new_multi_forecaster, start_all, upsert, remove,
}
use kedastral.Forecaster.Registry.Owners.{IsOwned, runs, upsert-IsOwned, remove-IsOwned}

pub data Change {ℓ} (W : Type ℓ) : Type ℓ where
  upsert_change : W → Change W
  remove_change : String → Change W

module _ {ℓ} {W : Type ℓ} (name : W → String) where
  -- The calls of all goroutines in the order in which they take the mutex.
  unfoldable pub apply_changes : List (Change W) → MultiForecaster W → MultiForecaster W
  apply_changes [] mf = mf
  apply_changes (upsert_change w ∷ cs) mf = apply_changes cs (upsert name w mf)
  apply_changes (remove_change k ∷ cs) mf = apply_changes cs (remove k mf).1

  apply_changes-IsOwned :
      (cs : List (Change W)) (mf : MultiForecaster W)
      → IsOwned name mf
      → IsOwned name (apply_changes cs mf)
  unfolding apply_changes
  apply_changes-IsOwned [] mf o = o
  apply_changes-IsOwned (upsert_change w ∷ cs) mf o =
      apply_changes-IsOwned cs (upsert name w mf) (upsert-IsOwned name w mf o)
  apply_changes-IsOwned (remove_change k ∷ cs) mf o =
      apply_changes-IsOwned cs (remove k mf).1 (remove-IsOwned name k mf o)

  empty-IsOwned : IsOwned name (start_all (new_multi_forecaster name []))
  unfolding start_all new_multi_forecaster runs lookup
  empty-IsOwned = record {
    is_started = refl;
    owns = record {
      owned = λ g w at. absurd (cc at);
      owner = λ k m at. absurd (cc at);
      numbered = λ g w at. absurd (cc at);
    };
  }

  -- After `Start` on an empty registry and any calls of `Upsert` and `Remove`, the goroutines that are
  -- not canceled are those of the registered forecasters: each runs the forecaster that is registered
  -- under its name, and each registered forecaster has the name of its entry and such a goroutine.
  pub reachable-IsOwned :
      (cs : List (Change W))
      → IsOwned name (apply_changes cs (start_all (new_multi_forecaster name [])))
  reachable-IsOwned cs = apply_changes-IsOwned cs _ empty-IsOwned

  -- After `Start` on an empty registry and any calls of `Upsert` and `Remove`, two goroutines that are
  -- not canceled and whose forecasters have the same name are the same goroutine.
  pub runs_unique :
      (cs : List (Change W)) (g h : ℕ) (w v : W)
      → runs g (apply_changes cs (start_all (new_multi_forecaster name []))).live ≡ some w
      → runs h (apply_changes cs (start_all (new_multi_forecaster name []))).live ≡ some v
      → name w ≡ name v
      → g ≡ h
  runs_unique cs g h w v at_g at_h same =
      let owns = (reachable-IsOwned cs).owns in
      let mf = apply_changes cs (start_all (new_multi_forecaster name [])) in
      let entry_w : Managed W = record { forecaster = w; cancel = some g } in
      let entry_v : Managed W = record { forecaster = v; cancel = some h } in
      let both : some entry_w ≡ some entry_v =
        sym (owns.owned g w at_g) ∙ ap (λ k. lookup k mf.running) same ∙ owns.owned h v at_h in
      let entries : entry_w ≡ entry_v = cc both in cc (ap (λ (m : Managed W). m.cancel) entries)
