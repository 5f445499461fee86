-- ===== src/Storage/Redis.antt =====
-- pkg/storage/redis.go: `RedisStore`. The client with the server behind it, and package json, are
-- parameters; a state of type `C` is the server as the client sees it. The lock of `Close` is left out.
pub mod Server
pub mod Stored
pub mod Scanned
pub mod Tests
use kedastral.Base.{
  ℕ, zero, suc, String, Bool, true, false, ◌==◌, not, Option, none, some, List, [], ◌∷◌, ◌++◌,
  if◌then◌else◌, str_eq,
}
use kedastral.Base.Int.{ℤ, pos, negsuc, ◌*ℤ◌, eqb_ℤ, ltb_ℤ}
use kedastral.Base.Result.{Result, ok, err}
use kedastral.Base.Text.{runes, is_name_rune}
use kedastral.Base.Time.{minute}
use kedastral.Storage.Snapshot.{
  Snapshot, StoreError, empty_workload, invalid_workload, marshal_failed, unmarshal_failed, backend,
  panics,
}
use kedastral.Storage.Redis.Server.{
  Client, Json, Reply, found, missing, failed, Closing, closed, already_closed, close_failed,
  append_text, drop_text,
}

-- `none` is the nil client.
pub record RedisStore {κ} (C : Type κ) : Type κ where
  pub client : Option C
  pub ttl : ℤ

pub data RedisError : Type 0 where
  empty_address negative_database not_connected : RedisError

abbrev pub prefix : String
prefix = "kedastral:snapshot:"

unfoldable pub snapshot_key : String → String
unfolding append_text
snapshot_key workload = append_text prefix workload

-- Whether every character of the name is one of `[a-zA-Z0-9_-]`.
unfoldable pub is_redis_name : List ℕ → Bool
is_redis_name [] = true
is_redis_name (c ∷ cs) = let rest = is_redis_name cs in if is_name_rune c then rest else false

-- `key[len("kedastral:snapshot:"):]` of each key; `none` is a slice out of range.
unfoldable pub strip_keys : List String → Option (List String)
unfolding drop_text
strip_keys [] = some []
strip_keys (key ∷ keys) = elim (drop_text 19 key) [
  | none ↦ none
  | some name ↦ elim (strip_keys keys) [ none ↦ none | some names ↦ some (name ∷ names) ]
]

module _ {κ} {C : Type κ} where
  -- `connect` makes the client and pings the server.
  unfoldable pub new_redis_store :
      (String → String → ℤ → Option C) → String → String → ℤ → ℤ → Result RedisError (RedisStore C)
  unfolding ◌*ℤ◌
  new_redis_store connect addr password db ttl =
      if str_eq addr ""
      then err empty_address
      else if ltb_ℤ db (pos 0)
      then err negative_database
      else elim (connect addr password db) [
        | none ↦ err not_connected
        | some c ↦
            ok record { client = some c; ttl = if eqb_ℤ ttl (pos 0) then pos 30 *ℤ minute else ttl }
      ]

module _ {ℓ κ} {F : Type ℓ} {C : Type κ} (json : Json F) (redis : Client C) where
  -- `client.Set`, with the error of a server.
  unfoldable pub set_snapshot :
      String → String → RedisStore C → Result StoreError (Unit {0}) × RedisStore C
  unfolding snapshot_key
  set_snapshot workload data_text st = elim st.client [
    | none ↦ (err panics, st)
    | some c ↦
        let (done, c') = redis.set (snapshot_key workload) data_text st.ttl c in
        (if done then ok tt else err backend, record st { client = some c' })
  ]

  unfoldable pub redis_put : Snapshot F → RedisStore C → Result StoreError (Unit {0}) × RedisStore C
  unfolding set_snapshot is_redis_name
  redis_put s st =
      if str_eq s.workload ""
      then (err empty_workload, st)
      else if is_redis_name (runes s.workload)
      then elim (json.marshal s) [
        | none ↦ (err marshal_failed, st)
        | some data_text ↦ set_snapshot s.workload data_text st
      ]
      else (err invalid_workload, st)

  -- What `Get` answers as a snapshot; `none` is one that is not found.
  unfoldable pub read_reply : Reply → Result StoreError (Option (Snapshot F))
  read_reply missing = ok none
  read_reply failed = err backend
  read_reply (found data_text) = elim (json.unmarshal data_text) [
    | none ↦ err unmarshal_failed
    | some s ↦ ok (some s)
  ]

  unfoldable pub redis_get_latest : String → RedisStore C → Result StoreError (Option (Snapshot F))
  unfolding read_reply snapshot_key
  redis_get_latest workload st = if str_eq workload "" then err empty_workload else elim st.client [
    | none ↦ err panics
    | some c ↦ read_reply (redis.get (snapshot_key workload) c)
  ]

module _ {κ} {C : Type κ} (redis : Client C) where
  -- The loop of `List`, on fuel: `none` is that the fuel has run out.
  unfoldable pub scan_loop : ℕ → ℕ → List String → C → Option (Result StoreError (List String))
  unfolding strip_keys
  scan_loop zero cursor workloads c = none
  scan_loop (suc fuel) cursor workloads c = elim (redis.scan cursor c) [
    | none ↦ some (err backend)
    | some (keys, next) ↦ elim (strip_keys keys) [
      | none ↦ some (err panics)
      | some names ↦
          let rest = scan_loop fuel next (workloads ++ names) c in
          if next == 0 then some (ok (workloads ++ names)) else rest
    ]
  ]

  unfoldable pub redis_list : ℕ → RedisStore C → Option (Result StoreError (List String))
  unfolding scan_loop
  redis_list fuel st = elim st.client [ none ↦ some (err panics) | some c ↦ scan_loop fuel 0 [] c ]

  -- `Close`: whether it answers an error, and the store without its client.
  unfoldable pub redis_close : RedisStore C → Bool × RedisStore C
  redis_close st = elim st.client [
    | none ↦ (false, st)
    | some c ↦ elim (redis.close c) [
      | closed ↦ (false, record st { client = none })
      | already_closed ↦ (false, record st { client = none })
      | close_failed ↦ (true, record st { client = none })
    ]
  ]
