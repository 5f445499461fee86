-- ===== src/Storage/Tests.antt =====
-- Runs of the memory store on two workloads.
use kedastral.Base.{
  String, ◌≡◌, ◌≢◌, refl, inr, none, some, List, [], ◌∷◌, str_eq, if◌then◌else◌, length,
}
use kedastral.Base.Int.{ℤ, pos, eqb_ℤ, ◌-ℤ◌}
use kedastral.Base.Dict.{occurs, is_some, lookup, erase, insert}
use kedastral.Base.Result.{ok}
use kedastral.Base.Time.{time_sub}
use kedastral.Storage.Snapshot.{Snapshot, canceled}
use kedastral.Storage.Memory.{
  MemoryStore, new_memory_store, new_memory_store_with_ttl, put, get_latest, list, len, delete,
  cleanup, sweep, is_stale,
}
use kedastral.Storage.Memory.View.{
  view, is_ok, put_answer, view-put, view-cleanup, view-delete, fresh,
}
use kedastral.Storage.Memory.Invariant.{
  Call, put_call, delete_call, cleanup_call, apply_all, IsNew, IsFiled, reachable-IsFiled,
}
use kedastral.Storage.Memory.Listing.{AreDistinct, list_complete}

abbrev snapshot : String → ℤ → Snapshot ℤ
snapshot w t = record {
  workload = w;
  metric = "rps";
  generated_at = t;
  step_seconds = pos 60;
  horizon_seconds = pos 120;
  values = pos 1000 ∷ pos 2000 ∷ [];
  desired_replicas = pos 1 ∷ pos 2 ∷ [];
  quantiles = none;
}

abbrev calls : List (Call ℤ)
calls =
    put_call none (snapshot "api" (pos 10))
    ∷ put_call none (snapshot "web" (pos 20))
    ∷ put_call (some canceled) (snapshot "job" (pos 20))
    ∷ put_call none (snapshot "api" (pos 30))
    ∷ delete_call "web"
    ∷ cleanup_call (pos 40)
    ∷ []

-- a store with two snapshots, the older one due for the next cleanup
abbrev two : MemoryStore ℤ
two = record {
  snapshots = ("api", snapshot "api" (pos 10)) ∷ ("web", snapshot "web" (pos 90)) ∷ [];
  ttl = pos 50;
  cleanup_ticker = some (pos 25);
}

latest :
    get_latest none "api" (apply_all calls new_memory_store) ≡ ok (some (snapshot "api" (pos 30)))
unfolding get_latest apply_all new_memory_store put delete cleanup lookup erase insert
latest = refl

view-put_example :
    ((put (some canceled) (snapshot "api" (pos 70)) two).0 ≡ put_answer (some canceled) "api")
    × (view (put (some canceled) (snapshot "api" (pos 70)) two).1 "api" ≡ (
        if is_ok (put_answer (some canceled) "api")
        then (if str_eq "api" "api" then some (snapshot "api" (pos 70)) else view two "api")
        else view two "api"))
view-put_example = view-put (some canceled) (snapshot "api" (pos 70)) two "api"

view-cleanup_example :
    view (cleanup (pos 100) two) "api"
    ≡ (if eqb_ℤ (pos 50) (pos 0) then view two "api" else fresh (pos 50) (pos 100) (view two "api"))
unfolding lookup
view-cleanup_example = view-cleanup (pos 100) two "api" (refl, (refl, tt))

view-delete_example :
    ((delete "web" two).0 ≡ is_some (view two "web"))
    × (view (delete "web" two).1 "api" ≡ (if str_eq "web" "api" then none else view two "api"))
view-delete_example = view-delete "web" two "api"

-- a new store whose cleanup drops what is older than 5
abbrev with_ttl : MemoryStore ℤ
with_ttl = record { snapshots = []; ttl = pos 5; cleanup_ticker = some (pos 2) }

with_ttl-IsNew : IsNew with_ttl
unfolding new_memory_store_with_ttl
with_ttl-IsNew = inr (pos 5, pos 2, refl)

reachable-IsFiled_example : IsFiled (apply_all calls with_ttl)
reachable-IsFiled_example = reachable-IsFiled with_ttl calls with_ttl-IsNew

-- the snapshot of time 30 is gone at time 40
swept : get_latest none "api" (apply_all calls with_ttl) ≡ ok none
unfolding get_latest apply_all put delete cleanup lookup erase insert time_sub ◌-ℤ◌ sweep is_stale
swept = refl

api_named : ◌≢◌ {A = String} "api" ""
api_named = cc

web_named : ◌≢◌ {A = String} "web" ""
web_named = cc

two-IsFiled : IsFiled two
unfolding lookup
two-IsFiled = record {
  is_map = (refl, (refl, tt));
  are_filed = (refl, api_named, (refl, web_named, tt));
}

list_complete_example :
    (ks : List String) × (list none two ≡ ok ks)
    × ((k : String) → occurs k ks ≡ is_some (view two k))
    × AreDistinct ks
    × (length ks ≡ len two)
list_complete_example = list_complete two two-IsFiled
