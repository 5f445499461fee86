-- ===== src/Storage/Redis/Stored.antt =====
-- What GetLatest answers after a Put in Redis.
use kedastral.Base.{
  ◌≡◌, ◌≢◌, refl, sym, ap, ◌∙◌, String, true, false, inl, inr, Bool-cases, Option-cases, Option,
  none, some, List, ◌∷◌, arith, str_eq,
}
use kedastral.Base.Result.{ok, err}
use kedastral.Base.Text.{runes}
use kedastral.Storage.Snapshot.{
  Snapshot, StoreError, empty_workload, invalid_workload, marshal_failed,
}
use kedastral.Storage.Redis.Server.{Client, IsClient, Json, IsJson, found, append_text, drop_text}
use kedastral.Storage.Redis.{
  RedisStore, snapshot_key, is_redis_name, set_snapshot, redis_put, read_reply, redis_get_latest,
}

pub drop_text-snapshot_key : (w : String) → drop_text 19 (snapshot_key w) ≡ some w
unfolding drop_text snapshot_key append_text
drop_text-snapshot_key w = refl

some_inj {ℓ} : {A : Type ℓ} (x y : A) → Option.some x ≡ some y → x ≡ y
some_inj x y h = cc h

snapshot_key_inj : (v w : String) → snapshot_key v ≡ snapshot_key w → v ≡ w
snapshot_key_inj v w h =
    some_inj v w (sym (drop_text-snapshot_key v) ∙ (ap (drop_text 19) h ∙ drop_text-snapshot_key w))

module _ {ℓ κ} {F : Type ℓ} {C : Type κ} (json : Json F) (redis : Client C) where
  -- The client and the data of a Put that succeeds, and the store that it leaves.
  record HasSet (w data_text : String) (st st' : RedisStore C) : Type κ where
    client : C
    is_client : st.client ≡ some client
    done : (redis.set (snapshot_key w) data_text st.ttl client).0 ≡ true
    left : st'.client ≡ some (redis.set (snapshot_key w) data_text st.ttl client).1

  set_snapshot-eq-ok :
      (w data_text : String) (st st' : RedisStore C)
      → set_snapshot json redis w data_text st ≡ (ok tt, st')
      → HasSet w data_text st st'
  unfolding set_snapshot
  set_snapshot-eq-ok w data_text st st' h = elim (Option-cases st.client) [
    | inl e ↦ ground (arith, rw (set_snapshot, e) at h)
    | inr (c, e) ↦ elim (Bool-cases (redis.set (snapshot_key w) data_text st.ttl c).0) [
      | inl d ↦ record {
        client = c;
        is_client = e;
        done = d;
        left = ground (arith, rw (set_snapshot, e, d) at h);
      }
      | inr d ↦ ground (arith, rw (set_snapshot, e, d) at h)
    ]
  ]

  redis_put-eq-ok :
      (s : Snapshot F) (st st' : RedisStore C)
      → redis_put json redis s st ≡ (ok tt, st')
      → (data_text : String) × (str_eq s.workload "" ≡ false)
        × (json.marshal s ≡ some data_text)
        × HasSet s.workload data_text st st'
  unfolding redis_put
  redis_put-eq-ok s st st' h = elim (Bool-cases (str_eq s.workload "")) [
    | inl a ↦ ground (arith, rw (redis_put, a) at h)
    | inr a ↦ elim (Bool-cases (is_redis_name (runes s.workload))) [
      | inr b ↦ ground (arith, rw (redis_put, a, b) at h)
      | inl b ↦ elim (Option-cases (json.marshal s)) [
        | inl e ↦ ground (arith, rw (redis_put, a, b, e) at h)
        | inr (d, e) ↦
            (d, a, e, set_snapshot-eq-ok s.workload d st st' (rw (redis_put, a, b, e) at h))
      ]
    ]
  ]

  get_latest_lem :
      (w : String) (st : RedisStore C) (c : C)
      → str_eq w "" ≡ false
      → st.client ≡ some c
      → redis_get_latest json redis w st ≡ read_reply json redis (redis.get (snapshot_key w) c)
  unfolding redis_get_latest
  get_latest_lem w st c h e = rw (redis_get_latest, h, e) refl

  empty_name_lem :
      (w : String) (st : RedisStore C)
      → str_eq w "" ≡ true
      → redis_get_latest json redis w st ≡ err empty_workload
  unfolding redis_get_latest
  empty_name_lem w st h = rw (redis_get_latest, h) refl

  read_reply-found :
      (data_text : String) (s : Snapshot F)
      → json.unmarshal data_text ≡ some s
      → read_reply json redis (found data_text) ≡ ok (some s)
  unfolding read_reply
  read_reply-found data_text s h = rw (read_reply, h) refl

  -- After a Put that succeeds GetLatest answers the snapshot, without its empty quantiles, for its
  -- workload, and what it answered before for every other one.
  pub redis_get_latest-put :
      IsClient C redis
      → IsJson F json
      → (s : Snapshot F) (st st' : RedisStore C) → redis_put json redis s st ≡ (ok tt, st')
      → (redis_get_latest json redis s.workload st' ≡ ok (some (record s { quantiles = none })))
        × ((other : String)
            → other ≢ s.workload
            → redis_get_latest json redis other st' ≡ redis_get_latest json redis other st)
  redis_get_latest-put is_client is_json s st st' h =
      let (d, named, marshaled, has) = redis_put-eq-ok s st st' h in
      let own = is_client.get_set (snapshot_key s.workload) d st.ttl has.client has.done in
      (
        rw (get_latest_lem s.workload st' _ named has.left, own)
            (read_reply-found d _ (is_json.unmarshal_marshal s d marshaled)),
        λ other apart.
            let kept =
              is_client.get_set_other (snapshot_key s.workload) (snapshot_key other) d st.ttl
                has.client (λ same. apart (snapshot_key_inj other s.workload same)) in
            elim (Bool-cases (str_eq other "")) [
              | inl e ↦ rw (empty_name_lem other st' e, empty_name_lem other st e) refl
              | inr e ↦
                  rw
                    (
                      get_latest_lem other st' _ e has.left,
                      get_latest_lem other st has.client e has.is_client,
                      kept,
                    )
                    refl
            ],
      )

  -- A snapshot with at least one quantile is refused: Put answers an error, of the name or of package
  -- json, and leaves the store as it is.
  pub redis_put-quantiles :
      IsJson F json
      → (s : Snapshot F) (st : RedisStore C) (q : F × List F) (qs : List (F × List F))
      → s.quantiles ≡ some (q ∷ qs)
      → (e : StoreError) × (redis_put json redis s st ≡ (err e, st))
  unfolding redis_put
  redis_put-quantiles is_json s st q qs h =
      let failed = is_json.unsupported s q qs h in
      elim (Bool-cases (str_eq s.workload "")) [
        | inl a ↦ (empty_workload, rw (redis_put, a) refl)
        | inr a ↦ elim (Bool-cases (is_redis_name (runes s.workload))) [
          | inl b ↦ (marshal_failed, rw (redis_put, a, b, failed) refl)
          | inr b ↦ (invalid_workload, rw (redis_put, a, b) refl)
        ]
      ]
