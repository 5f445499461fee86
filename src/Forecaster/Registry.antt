-- ===== src/Forecaster/Registry.antt =====
-- cmd/forecaster/forecaster.go: `MultiForecaster`, the registry of the running loops. Each method holds
-- the mutex while it works on the registry, so it is one step on the state. A goroutine is the number
-- that it was launched with, and the state keeps those whose context is not canceled yet.
pub mod Owners
pub mod Reachable
use kedastral.Base.{
  ℕ, zero, suc, ◌+◌, String, Bool, true, false, not, Option, none, some, List, [], ◌∷◌,
  if◌then◌else◌, str_eq, ◌==◌, length,
}
use kedastral.Base.Dict.{Dict, lookup, insert, erase, is_some}

-- `managedForecaster`: the forecaster, and the goroutine that `cancel` ends; `none` is the nil `cancel`.
pub record Managed {ℓ} (W : Type ℓ) : Type ℓ where
  pub forecaster : W
  pub cancel : Option ℕ

-- `live` are the goroutines whose context is not canceled, with their forecasters, the latest first,
-- and `next` numbers the next one.
pub record MultiForecaster {ℓ} (W : Type ℓ) : Type ℓ where
  pub started : Bool
  pub running : Dict (Managed W)
  pub live : List (ℕ × W)
  pub next : ℕ

unfoldable pub drop_goroutine {ℓ} : {W : Type ℓ} → ℕ → List (ℕ × W) → List (ℕ × W)
drop_goroutine g [] = []
drop_goroutine g ((h, w) ∷ live) =
    let rest = drop_goroutine g live in if h == g then rest else (h, w) ∷ rest

module _ {ℓ} {W : Type ℓ} where
  unfoldable pub register : (W → String) → List W → Dict (Managed W) → Dict (Managed W)
  register name [] running = running
  register name (w ∷ ws) running =
      register name ws (insert (name w) (record { forecaster = w; cancel = none }) running)

  -- `NewMultiForecaster`
  unfoldable pub new_multi_forecaster : (W → String) → List W → MultiForecaster W
  unfolding register
  new_multi_forecaster name ws = record {
    started = false;
    running = register name ws [];
    live = [];
    next = 0;
  }

  -- `cancel()` of an entry, if there is one.
  unfoldable pub cancel_entry : Option (Managed W) → MultiForecaster W → MultiForecaster W
  unfolding drop_goroutine
  cancel_entry none mf = mf
  cancel_entry (some managed) mf = elim managed.cancel [
    | none ↦ mf
    | some g ↦ record mf { live = drop_goroutine g mf.live }
  ]

  -- `launch`, which sets the `cancel` of the entry `k` that `managed` points to.
  unfoldable pub launch : String → W → MultiForecaster W → MultiForecaster W
  launch k w mf = record mf {
    running = insert k (record { forecaster = w; cancel = some mf.next }) mf.running;
    live = (mf.next, w) ∷ mf.live;
    next = suc mf.next;
  }

  unfoldable pub launch_all : Dict (Managed W) → MultiForecaster W → MultiForecaster W
  unfolding launch
  launch_all [] mf = mf
  launch_all ((k, managed) ∷ entries) mf = launch_all entries (launch k managed.forecaster mf)

  -- `Start`: the base context is set, and every entry launched.
  unfoldable pub start_all : MultiForecaster W → MultiForecaster W
  unfolding launch_all
  start_all mf = launch_all mf.running (record mf { started = true })

  unfoldable pub upsert : (W → String) → W → MultiForecaster W → MultiForecaster W
  unfolding cancel_entry launch
  upsert name w mf =
      let canceled = cancel_entry (lookup (name w) mf.running) mf in
      let entry : Managed W = record { forecaster = w; cancel = none } in
      let registered = record canceled { running = insert (name w) entry canceled.running } in
      if mf.started then launch (name w) w registered else registered

  -- `Remove`, with whether the store is asked to delete the snapshot of the workload.
  unfoldable pub remove : String → MultiForecaster W → Bool × MultiForecaster W
  unfolding cancel_entry
  remove k mf =
      let canceled = cancel_entry (lookup k mf.running) mf in
      if is_some (lookup k mf.running)
      then (true, record canceled { running = erase k canceled.running })
      else (false, mf)

  -- `Len`
  unfoldable pub registered_count : MultiForecaster W → ℕ
  registered_count mf = length mf.running
