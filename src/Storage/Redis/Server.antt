-- ===== src/Storage/Redis/Server.antt =====
-- What pkg/storage/redis.go relies on: the Redis client, package json, and texts.
use kedastral.Base.{ℕ, zero, suc, ◌≡◌, ◌≢◌, String, Bool, true, Option, none, some, List, ◌∷◌}
use kedastral.Base.Int.{ℤ}
use kedastral.Storage.Snapshot.{Snapshot}

unfoldable pub append_text : String → String → String
append_text String.[] t = t
append_text (String.◌∷◌ c s) t = String.◌∷◌ c (append_text s t)

-- `s[n:]`; `none` is out of range.
unfoldable pub drop_text : ℕ → String → Option String
drop_text zero s = some s
drop_text (suc n) String.[] = none
drop_text (suc n) (String.◌∷◌ c s) = drop_text n s

-- What `Get` answers: the data, `redis.Nil`, or another error.
pub data Reply : Type 0 where
  found : String → Reply
  missing : Reply
  failed : Reply

pub data Closing : Type 0 where
  closed already_closed close_failed : Closing

pub record Client {κ} (C : Type κ) : Type κ where
  -- `Set(key, data, ttl)`; false is an error
  pub set : String → String → ℤ → C → Bool × C
  pub get : String → C → Reply
  -- `Scan(cursor, "kedastral:snapshot:*", 100)`: the keys and the next cursor, or an error
  pub scan : ℕ → C → Option (List String × ℕ)
  pub close : C → Closing

-- A key that is set is found until it expires, and the other keys stay.
pub record IsClient {κ} (C : Type κ) (redis : Client C) : Type κ where
  pub get_set :
      (key data_text : String) (ttl : ℤ) (c : C)
      → (redis.set key data_text ttl c).0 ≡ true
      → redis.get key (redis.set key data_text ttl c).1 ≡ found data_text
  pub get_set_other :
      (key other data_text : String) (ttl : ℤ) (c : C)
      → other ≢ key
      → redis.get other (redis.set key data_text ttl c).1 ≡ redis.get other c

-- `json.Marshal` and `json.Unmarshal` on a snapshot; `none` is an error.
pub record Json {ℓ} (F : Type ℓ) : Type ℓ where
  pub marshal : Snapshot F → Option String
  pub unmarshal : String → Option (Snapshot F)

-- The field without quantiles is left out (`omitempty`), and a map with floats as its keys is a type
-- that package json does not support, so a snapshot with a quantile is an error.
pub record IsJson {ℓ} (F : Type ℓ) (json : Json F) : Type ℓ where
  pub unsupported :
      (s : Snapshot F) (q : F × List F) (qs : List (F × List F))
      → s.quantiles ≡ some (q ∷ qs)
      → json.marshal s ≡ none
  pub unmarshal_marshal :
      (s : Snapshot F) (data_text : String)
      → json.marshal s ≡ some data_text
      → json.unmarshal data_text ≡ some (record s { quantiles = none })
