-- ===== src/Tests/Nonces.antt =====
-- Nonces, their stores and their generator, on concrete sessions.
use go_web_eid.Common.{
  ℕ, true, ◌≡◌, refl, Option, none, some, List, [], ◌∷◌, pos, arith, ◌+ℤ◌, if◌then◌else◌, ltb_ℤ,
  ◌≤◌, length, zero, suc, negsuc, list_eq_refl,
}
use go_web_eid.Go.Text.{Text, Bytes, codes, text_eq}
use go_web_eid.Go.Time.{Time, add, minutes}
use go_web_eid.Go.Map.{Map, lookup-insert, lookup-delete, lookup, insert, delete}
use go_web_eid.Exceptions.{GoError, plain, Result, ok, err, err_challenge_nonce_not_found}
use go_web_eid.Nonce.Challenge.{ChallengeNonce}
use go_web_eid.Nonce.Store.{in_memory}
use go_web_eid.Nonce.Memory.{InMemoryStore, SessionKeyFunc, put, get_and_remove}
use go_web_eid.Nonce.Memory.Laws.{refines_map}
use go_web_eid.Nonce.Memory.Traces.{puts, gets, run, single_use}
use go_web_eid.Nonce.Generator.{Random, Generator, new_builder, build, generate_and_store_nonce}
use go_web_eid.Nonce.Generator.Laws.{
  Setting, store_is, size_is, apply, generate_and_store_nonce_lem,
}
use go_web_eid.Nonce.Redis
use go_web_eid.Nonce.Redis.Adapter.{UniversalClient, IsGoRedis, wrap, wrap-IsRedis}
use go_web_eid.Nonce.Redis.{Client, StoredNonce, NonceJson, Store}
use go_web_eid.Nonce.Redis.Laws.{IsRedis, ReadsBack, stored_nonce, get-put}
use go_web_eid.Tests.World.{base64, base64-IsCodec}

-- A context is the session's identifier; the empty one is no session.
abbrev pub session : SessionKeyFunc Text
session [] = err (plain "no session")
session (c ∷ s) = ok (c ∷ s)

abbrev pub anna : Text
anna = codes "anna"

abbrev pub janis : Text
janis = codes "janis"

abbrev pub sent : ChallengeNonce
sent = record { base64_encoded_nonce = codes "xyz"; issued_at = pos 5 }

abbrev store : InMemoryStore Text
store = record { session_key = session; ttl = minutes 5; entries = (anna, sent) ∷ [] }

refines_map_example : (get_and_remove store anna).0 ≡ ok sent
unfolding lookup text_eq
refines_map_example = (refines_map store anna anna (pos 6) sent (refl, tt) refl).2

single_use_example :
    (get_and_remove
      (run (get_and_remove store anna).1 (puts janis (pos 7) sent ∷ gets janis ∷ []))
      anna).0
    ≡ err err_challenge_nonce_not_found
unfolding lookup
single_use_example =
    single_use store anna anna anna (puts janis (pos 7) sent ∷ gets janis ∷ []) (refl, tt) refl refl
      (λ h. cc, (λ h. h, tt))

-- An entropy source of zeros.
abbrev zeros : ℕ → Bytes
zeros zero = []
zeros (suc n) = 0 ∷ zeros n

abbrev random : Random
random size = ok (zeros size)

length-zeros : (n : ℕ) → length (zeros n) ≡ n
length-zeros zero = refl
length-zeros (suc n) = omega (arith, length-zeros n)

abbrev settings : List (Setting Text (InMemoryStore Text))
settings = store_is (some in_memory) ∷ size_is (pos 33) ∷ []

abbrev generator : Generator Text (InMemoryStore Text)
generator = record { store = in_memory; nonce_size = 33; random = random }

abbrev generated : ChallengeNonce
generated = record { base64_encoded_nonce = base64.encode_std (zeros 33); issued_at = pos 9 }

full : (size : ℕ) (bs : Bytes) → random size ≡ ok bs → length bs ≡ size
full size bs h = ground (arith, length-zeros size)

generate_and_store_nonce_lem_example :
    (bs : Bytes) × (base64.decode_std generated.base64_encoded_nonce ≡ ok bs)
    × (32 ≤ length bs)
    × (random 33 ≡ ok bs)
    × (pos 9 ≡ pos 9)
    × (put store janis (pos 9) generated ≡ (ok tt, (put store janis (pos 9) generated).1))
unfolding build apply new_builder generate_and_store_nonce put
generate_and_store_nonce_lem_example =
    generate_and_store_nonce_lem base64 random settings generator store
      (put store janis (pos 9) generated).1 janis (pos 9) generated base64-IsCodec refl full refl

-- A server that keeps a value and its expiry for each key.
abbrev pub Server : Type 0
Server = Map (Bytes × Time)

abbrev pub live : Time → Option (Bytes × Time) → Option Bytes
live now none = none
live now (some (v, until)) = if ltb_ℤ now until then some v else none

abbrev pub server : Client Server
server = record {
  set = λ r k v ttl now. (ok tt, insert k (v, add now ttl) r);
  get_del = λ r k now. (ok (live now (lookup k r)), delete k r);
}

server-IsRedis : IsRedis server
unfolding text_eq
server-IsRedis = record {
  get_del-set =
      λ r k v ttl t u e early. ground (arith, lookup-insert k k (v, add t ttl) r, list_eq_refl k);
  get_del_twice = λ r k o t u e. ground (arith, lookup-delete k k r, list_eq_refl k);
}

abbrev nil : GoError
nil = plain "redis: nil"

abbrev or_nil : Option Bytes → Result Bytes
or_nil none = err nil
or_nil (some v) = ok v

-- The same server behind a go-redis client; it has no other errors.
abbrev go_redis : UniversalClient Server
go_redis = record {
  set = server.set;
  get_del = λ r k now. (or_nil (live now (lookup k r)), delete k r);
  nil = nil;
  is = λ e f. true;
}

go_redis-IsGoRedis : IsGoRedis go_redis
unfolding text_eq
go_redis-IsGoRedis = record {
  get_del-set =
      λ r k v ttl t u e early. ground (arith, lookup-insert k k (v, add t ttl) r, list_eq_refl k);
  get_del-got = λ r k v t u e. (nil, ground (arith, lookup-delete k k r, list_eq_refl k), refl);
  get_del-absent = λ r k t u e. (nil, ground (arith, lookup-delete k k r, list_eq_refl k), refl);
}

wrap-IsRedis_example : IsRedis (wrap go_redis)
wrap-IsRedis_example = wrap-IsRedis go_redis go_redis-IsGoRedis

-- The sign, the magnitude, and the nonce.
abbrev pub marshal : StoredNonce → Result Bytes
marshal n = elim n.issued_at [ pos m ↦ ok (0 ∷ m ∷ n.nonce) | negsuc m ↦ ok (1 ∷ m ∷ n.nonce) ]

abbrev pub unmarshal : Bytes → Result StoredNonce
unmarshal (zero ∷ m ∷ s) = ok (record { nonce = s; issued_at = pos m })
unmarshal (suc _ ∷ m ∷ s) = ok (record { nonce = s; issued_at = negsuc m })
unmarshal _ = err (plain "malformed")

abbrev pub json : NonceJson
json = record { marshal = marshal; unmarshal = unmarshal }

pub json-ReadsBack : (n : StoredNonce) → ReadsBack json n
json-ReadsBack n bs h = ground arith

abbrev pub redis : Store Text Server
redis = record { client = server; session_key = session; ttl = minutes 5; prefix = codes "p:" }

get-put_example :
    ((Redis.get_and_remove json redis (Redis.put json redis [] anna (pos 1) sent).1 anna (pos 2)).0
      ≡ ok sent)
    × ((Redis.get_and_remove json redis
          (Redis.get_and_remove json redis
            (Redis.put json redis [] anna (pos 1) sent).1
            anna
            (pos 2)).1
          anna
          (pos 3)).0
        ≡ err err_challenge_nonce_not_found)
unfolding Redis.put add ◌+ℤ◌
get-put_example =
    get-put json redis [] anna anna (pos 1) (pos 2) (pos 3) sent server-IsRedis
      (json-ReadsBack (stored_nonce sent)) refl refl (omega arith)
