-- ===== src/Tests/Stores.antt =====
-- The same calls on the Redis store and on the in-process store.
use go_web_eid.Common.{◌≡◌, refl, Option, List, [], ◌∷◌, pos, arith}
use go_web_eid.Go.Text.{Text, Bytes}
use go_web_eid.Go.Time.{Time, add, minutes}
use go_web_eid.Go.Map.{lookup, lookup-insert, lookup-delete}
use go_web_eid.Nonce.Memory.{new_in_memory_store}
use go_web_eid.Nonce.Redis
use go_web_eid.Nonce.Redis.Laws.{stored_nonce}
use go_web_eid.Nonce.Redis.Agreement.{
  IsServer, TimedCall, puts, gets, memory_answers, redis_answers, Goes, redis-memory,
}
use go_web_eid.Tests.Nonces.{
  session, anna, janis, sent, Server, server, json, json-ReadsBack, redis,
}

abbrev view : Server → Text → Option (Bytes × Time)
view r k = lookup k r

server-IsServer : IsServer server view
server-IsServer = record {
  view-set = λ r k v ttl t stored j. lookup-insert k j (v, add t ttl) r;
  get_del-view = λ r k t o answered. ground arith;
  view-get_del = λ r k t o answered j. lookup-delete k j r;
}

-- The last call comes after the nonce has expired.
abbrev calls : List (TimedCall Text)
calls =
    puts anna (pos 5) sent
    ∷ puts janis (pos 5) sent
    ∷ gets anna (pos 7)
    ∷ gets anna (pos 8)
    ∷ gets janis (pos 900000000000)
    ∷ []

calls-Goes : Goes json redis (pos 0) [] calls
unfolding Goes Redis.put Redis.get_and_remove
calls-Goes = (
  omega arith,
  refl,
  (anna, refl),
  json-ReadsBack (stored_nonce sent),
  refl,
  (
    omega arith,
    refl,
    (janis, refl),
    json-ReadsBack (stored_nonce sent),
    refl,
    (
      omega arith,
      (anna, refl, _, refl),
      (omega arith, (anna, refl, _, refl), (omega arith, (janis, refl, _, refl), tt)),
    ),
  ),
)

redis-memory_example :
    redis_answers json redis [] calls
    ≡ memory_answers (new_in_memory_store session (minutes 5)) calls
unfolding lookup
redis-memory_example =
    redis-memory json redis view server-IsServer (omega arith) (omega arith) calls (pos 0) []
      (λ j. refl) refl calls-Goes
