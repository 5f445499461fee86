-- ===== src/Storage/Redis/Tests.antt =====
-- A server that is a dictionary and answers its keys in two pages, and an encoding of snapshots that
-- carry no numbers.
use kedastral.Base.{
  ℕ, zero, suc, ◌≡◌, ◌≢◌, refl, String, Bool, true, false, ◌&&◌, Option, none, some, List, [], ◌∷◌,
  if◌then◌else◌, arith, str_eq, eq_iff, take, drop, ◌≤◌,
}
use kedastral.Base.Int.{ℤ, pos, negsuc}
use kedastral.Base.Dict.{Dict, lookup, insert, keys, lookup-insert, lookup-insert_self}
use kedastral.Base.Result.{ok, err}
use kedastral.Storage.Snapshot.{Snapshot, StoreError}
use kedastral.Storage.Redis.Server.{
  Client, IsClient, Json, IsJson, Reply, found, missing, closed, append_text,
}
use kedastral.Storage.Redis.{RedisStore, snapshot_key, redis_put, redis_get_latest, redis_list}
use kedastral.Storage.Redis.Stored.{redis_get_latest-put, redis_put-quantiles}
use kedastral.Storage.Redis.Scanned.{Scans, last_page, page, redis_list-Scans}

abbrev reply_of : Option String → Reply
reply_of none = missing
reply_of (some d) = found d

abbrev pages : ℕ → Dict String → Option (List String × ℕ)
pages zero c = some (take 1 (keys c), 1)
pages (suc n) c = some (drop 1 (keys c), 0)

abbrev server : Client (Dict String)
server = record {
  set = λ key data_text ttl c. (true, insert key data_text c);
  get = λ key c. reply_of (lookup key c);
  scan = pages;
  close = λ c. closed;
}

server-IsClient : IsClient (Dict String) server
server-IsClient = record {
  get_set = λ key data_text ttl c h. rw (lookup-insert_self key data_text c) refl;
  get_set_other = λ key other data_text ttl c apart.
      rw (lookup-insert key other data_text c) (ground (arith, apart, eq_iff key other));
}

abbrev is_zero : ℤ → Bool
is_zero (pos zero) = true
is_zero (pos (suc n)) = false
is_zero (negsuc n) = false

abbrev is_empty {ℓ} : {A : Type ℓ} → List A → Bool
is_empty [] = true
is_empty (x ∷ xs) = false

abbrev is_nil {ℓ} : {A : Type ℓ} → Option A → Bool
is_nil none = true
is_nil (some a) = false

zero_lem : (z : ℤ) → is_zero z ≡ true → z ≡ pos 0
zero_lem (pos zero) h = refl
zero_lem (pos (suc n)) h = absurd (cc h)
zero_lem (negsuc n) h = absurd (cc h)

empty_lem {ℓ} : {A : Type ℓ} (xs : List A) → is_empty xs ≡ true → xs ≡ []
empty_lem [] h = refl
empty_lem (x ∷ xs) h = absurd (cc h)

-- the snapshot of a workload without a forecast
abbrev bare : String → Snapshot ℤ
bare workload = record {
  workload = workload;
  metric = "rps";
  generated_at = pos 0;
  step_seconds = pos 0;
  horizon_seconds = pos 0;
  values = [];
  desired_replicas = [];
  quantiles = none;
}

abbrev is_bare : Snapshot ℤ → Bool
is_bare s =
    str_eq s.metric "rps"
    && is_zero s.generated_at
    && is_zero s.step_seconds
    && is_zero s.horizon_seconds
    && is_empty s.values
    && is_empty s.desired_replicas
    && is_nil s.quantiles

abbrev json : Json ℤ
json = record {
  marshal = λ s. if is_bare s then some s.workload else none;
  unmarshal = λ d. some (bare d);
}

bare_lem : (s : Snapshot ℤ) → is_bare s ≡ true → bare s.workload ≡ record s { quantiles = none }
bare_lem s h =
    let metric : s.metric ≡ "rps" = (eq_iff s.metric "rps").0 (ground (arith, h)) in
    let generated_at = zero_lem s.generated_at (ground (arith, h)) in
    let step = zero_lem s.step_seconds (ground (arith, h)) in
    let horizon = zero_lem s.horizon_seconds (ground (arith, h)) in
    let values = empty_lem s.values (ground (arith, h)) in
    let replicas = empty_lem s.desired_replicas (ground (arith, h)) in
    cc (metric, generated_at, step, horizon, values, replicas)

json-IsJson : IsJson ℤ json
json-IsJson = record {
  unsupported = λ s q qs h. ground (arith, h);
  unmarshal_marshal = λ s d h.
      let is_data : is_bare s ≡ true = ground (arith, h) in
      let same : s.workload ≡ d = ground (arith, h) in cc (same, bare_lem s is_data);
}

abbrev empty_store : RedisStore (Dict String)
empty_store = record { client = some []; ttl = pos 60 }

abbrev one_store : RedisStore (Dict String)
one_store = record { client = some (("kedastral:snapshot:web", "web") ∷ []); ttl = pos 60 }

put_web : redis_put json server (bare "web") empty_store ≡ (ok tt, one_store)
unfolding redis_put append_text insert
put_web = refl

redis_get_latest-put_example :
    (redis_get_latest json server "web" one_store ≡ ok (some (bare "web")))
    × ((other : String)
        → other ≢ "web"
        → redis_get_latest json server other one_store
          ≡ redis_get_latest json server other empty_store)
redis_get_latest-put_example =
    redis_get_latest-put json server server-IsClient json-IsJson (bare "web") empty_store one_store
      put_web

redis_put-quantiles_example :
    (e : StoreError) × (redis_put json server
        (record (bare "web") { quantiles = some ((pos 900, pos 1 ∷ []) ∷ []) })
        empty_store
      ≡ (err e, empty_store))
redis_put-quantiles_example =
    redis_put-quantiles json server json-IsJson
      (record (bare "web") { quantiles = some ((pos 900, pos 1 ∷ []) ∷ []) }) empty_store
      (pos 900, pos 1 ∷ []) [] refl

abbrev two_keys : Dict String
two_keys = ("kedastral:snapshot:web", "web") ∷ ("kedastral:snapshot:api", "api") ∷ []

two_pages : Scans server two_keys 0 ("web" ∷ "api" ∷ [])
unfolding snapshot_key append_text keys
two_pages = page 0 0 ("web" ∷ []) ("api" ∷ []) refl (last_page 1 ("api" ∷ []) refl)

redis_list-Scans_example :
    (enough : ℕ) × ((fuel : ℕ)
      → enough ≤ fuel
      → redis_list server fuel (record { client = some two_keys; ttl = pos 60 })
        ≡ some (ok ("web" ∷ "api" ∷ [])))
redis_list-Scans_example =
    redis_list-Scans server (record { client = some two_keys; ttl = pos 60 }) two_keys
      ("web" ∷ "api" ∷ []) refl two_pages
