-- ===== src/Storage/Redis/Scanned.antt =====
-- The loop of List over the pages of a Redis server.
use mathlib.Core.List.{append_assoc}
use kedastral.Base.{ℕ, zero, suc, ◌≤◌, ◌≡◌, refl, String, some, List, [], ◌∷◌, ◌++◌, map, arith}
use kedastral.Base.Result.{ok}
use kedastral.Storage.Redis.Server.{Client, drop_text}
use kedastral.Storage.Redis.{RedisStore, snapshot_key, strip_keys, scan_loop, redis_list}
use kedastral.Storage.Redis.Stored.{drop_text-snapshot_key}

strip_keys_step :
    (key name : String) (keys names : List String)
    → drop_text 19 key ≡ some name
    → strip_keys keys ≡ some names
    → strip_keys (key ∷ keys) ≡ some (name ∷ names)
unfolding strip_keys
strip_keys_step key name keys names h k = rw (strip_keys, h, k) refl

strip_keys_empty : strip_keys [] ≡ some []
unfolding strip_keys
strip_keys_empty = refl

pub strip_keys-map : (names : List String) → strip_keys (map snapshot_key names) ≡ some names
strip_keys-map [] = strip_keys_empty
strip_keys-map (name ∷ names) =
    strip_keys_step (snapshot_key name) name (map snapshot_key names) names
      (drop_text-snapshot_key name) (strip_keys-map names)

module _ {κ} {C : Type κ} (redis : Client C) where
  -- The pages of the server from a cursor on, up to one with the next cursor 0. As the pattern asks,
  -- the keys are those of snapshots.
  pub data Scans (c : C) : ℕ → List String → Type 0 where
    last_page :
        (cursor : ℕ) (names : List String)
        → redis.scan cursor c ≡ some (map snapshot_key names, 0)
        → Scans c cursor names
    page :
        (cursor next : ℕ) (names more : List String)
        → redis.scan cursor c ≡ some (map snapshot_key names, suc next)
        → Scans c (suc next) more
        → Scans c cursor (names ++ more)

  -- From some fuel on the loop answers the names `workloads` and `names`.
  abbrev Answers : ℕ → C → List String → Type 0
  Answers cursor c names =
      (enough : ℕ) × ((fuel : ℕ) (workloads : List String)
        → enough ≤ fuel
        → scan_loop redis fuel cursor workloads c ≡ some (ok (workloads ++ names)))

  scan_loop_last :
      (fuel cursor : ℕ) (workloads names : List String) (c : C)
      → redis.scan cursor c ≡ some (map snapshot_key names, 0)
      → scan_loop redis (suc fuel) cursor workloads c ≡ some (ok (workloads ++ names))
  unfolding scan_loop
  scan_loop_last fuel cursor workloads names c h =
      rw (scan_loop, h, strip_keys-map names) (ground arith)

  scan_loop_more :
      (fuel cursor next : ℕ) (workloads names : List String) (c : C)
      → redis.scan cursor c ≡ some (map snapshot_key names, suc next)
      → scan_loop redis (suc fuel) cursor workloads c
        ≡ scan_loop redis fuel (suc next) (workloads ++ names) c
  unfolding scan_loop
  scan_loop_more fuel cursor next workloads names c h =
      rw (scan_loop, h, strip_keys-map names) (ground arith)

  scan_loop-Scans :
      (c : C) (cursor : ℕ) (names : List String) → Scans c cursor names → Answers cursor c names
  scan_loop-Scans c cursor names (last_page _ _ h) =
      (1, λ fuel workloads k. last_round fuel workloads k)
    where
      last_round :
          (fuel : ℕ) (workloads : List String)
          → 1 ≤ fuel
          → scan_loop redis fuel cursor workloads c ≡ some (ok (workloads ++ names))
      last_round zero workloads k = absurd (omega (arith, k))
      last_round (suc fuel) workloads k = scan_loop_last fuel cursor workloads names c h
  scan_loop-Scans c cursor _ (page _ next names more h rest) =
      let (enough, answers) = scan_loop-Scans c (suc next) more rest in
      (suc enough, λ fuel workloads k. one_round enough answers fuel workloads k)
    where
      one_round :
          (enough : ℕ)
          → ((fuel : ℕ) (workloads : List String)
              → enough ≤ fuel
              → scan_loop redis fuel (suc next) workloads c ≡ some (ok (workloads ++ more)))
          → (fuel : ℕ) (workloads : List String) → suc enough ≤ fuel
          → scan_loop redis fuel cursor workloads c ≡ some (ok (workloads ++ (names ++ more)))
      one_round enough answers zero workloads k = absurd (omega (arith, k))
      one_round enough answers (suc fuel) workloads k =
          rw
            (
              scan_loop_more fuel cursor next workloads names c h,
              answers fuel (workloads ++ names) (omega (arith, k)),
              append_assoc workloads names more,
            )
            refl

  -- When the pages of the server lead to one with the cursor 0, the loop of List ends, after any fuel
  -- above a bound, with the workloads of all pages in their order.
  pub redis_list-Scans :
      (st : RedisStore C) (c : C) (names : List String)
      → st.client ≡ some c
      → Scans c 0 names
      → (enough : ℕ) × ((fuel : ℕ) → enough ≤ fuel → redis_list redis fuel st ≡ some (ok names))
  unfolding redis_list
  redis_list-Scans st c names h scans =
      let (enough, answers) = scan_loop-Scans c 0 names scans in
      (enough, λ fuel k. rw (redis_list, h) (answers fuel [] k))
