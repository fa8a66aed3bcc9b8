-- ===== src/Nonce/Redis/Adapter.antt =====
-- redisstore/store.go: the adapter from a client of go-redis, whose GetDel answers the error
-- redis.Nil for an absent key, to Client.
use go_web_eid.Common.{
  Bool, Bool-cases, inl, inr, ap, refl, true, ◌≡◌, ◌<ℤ◌, Option, none, some, arith, if◌then◌else◌,
}
use go_web_eid.Go.Text.{Text, Bytes}
use go_web_eid.Go.Time.{Time, Duration, add}
use go_web_eid.Exceptions.{GoError, Result, ok, err}
use go_web_eid.Nonce.Redis.{Client}
use go_web_eid.Nonce.Redis.Laws.{IsRedis}

-- redis.UniversalClient, as the adapter uses it, with redis.Nil and errors.Is.
pub record UniversalClient (R : Type 0) : Type 0 where
  pub set : R → Text → Bytes → Duration → Time → Result (Unit {0}) × R
  pub get_del : R → Text → Time → Result Bytes × R
  pub nil : GoError
  pub is : GoError → GoError → Bool

module _ {R : Type 0} (c : UniversalClient R) where
  abbrev pub present : Result Bytes → Result (Option Bytes)
  present (err e) = if c.is e c.nil then ok none else err e
  present (ok b) = ok (some b)

  -- goRedisClient.GetDel
  unfoldable pub get_del : R → Text → Time → Result (Option Bytes) × R
  get_del r key now = let (b, r') = c.get_del r key now in (present b, r')

  -- Wrap
  unfoldable pub wrap : Client R
  unfolding get_del
  wrap = record { set = c.set; get_del = get_del }

  -- An answer that says that the key is absent.
  abbrev pub IsAbsent : Result Bytes → Type 0
  IsAbsent b = (e : GoError) × (b ≡ err e) × (c.is e c.nil ≡ true)

  -- Documented of Redis and of go-redis: GETDEL answers what SET stored until the expiry; after a
  -- GETDEL that answered a value, or that the key is absent, the key is absent.
  pub record IsGoRedis : Type 0 where
    pub get_del-set :
        (r : R) (k : Text) (v : Bytes) (ttl : Duration) (t u : Time)
        → (c.set r k v ttl t).0 ≡ ok tt
        → u <ℤ add t ttl
        → (c.get_del (c.set r k v ttl t).1 k u).0 ≡ ok v
    pub get_del-got :
        (r : R) (k : Text) (v : Bytes) (t u : Time)
        → (c.get_del r k t).0 ≡ ok v
        → IsAbsent (c.get_del (c.get_del r k t).1 k u).0
    pub get_del-absent :
        (r : R) (k : Text) (t u : Time)
        → IsAbsent (c.get_del r k t).0
        → IsAbsent (c.get_del (c.get_del r k t).1 k u).0

  present-IsAbsent : (b : Result Bytes) → IsAbsent b → present b ≡ ok none
  present-IsAbsent b (e, same, nil) = rw (same, nil)

  then-IsAbsent :
      (b b' : Result Bytes) (o : Option Bytes)
      → ((v : Bytes) → b ≡ ok v → IsAbsent b')
      → (IsAbsent b → IsAbsent b')
      → present b ≡ ok o
      → IsAbsent b'
  then-IsAbsent (ok v) b' o got absent answered = got v refl
  then-IsAbsent (err e) b' o got absent answered = elim (Bool-cases (c.is e c.nil)) [
    | inl nil ↦ absent (e, refl, nil)
    | inr other ↦ absurd (ground arith)
  ]

  -- Over a go-redis client that keeps what is documented of it, the adapter is a client that keeps
  -- what the store wants of Redis: it answers what was set until the expiry, and nothing after it
  -- was answered or found absent.
  pub wrap-IsRedis : IsGoRedis → IsRedis wrap
  unfolding wrap get_del
  wrap-IsRedis g = record {
    get_del-set =
        λ r k v ttl t u stored early. ap present (g.get_del-set r k v ttl t u stored early);
    get_del_twice = λ r k o t u got. present-IsAbsent (c.get_del (c.get_del r k t).1 k u).0 (
        then-IsAbsent (c.get_del r k t).0 (c.get_del (c.get_del r k t).1 k u).0 o
          (λ v. g.get_del-got r k v t u) (g.get_del-absent r k t u) got);
  }
