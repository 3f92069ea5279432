-- ===== src/Redis.antt =====
-- src/shared/redis/redis.service.ts over a Redis client. The client (ioredis) is a parameter: its
-- keys hold texts, and a key that is set with EX is there until its seconds are over. What is
-- assumed of it is the documented behaviour of SET EX, GET, DEL, INCR and EXPIRE at a given time.
pub mod States
pub mod InMemory
use pr_sentinel_backend.Base.{ℕ, suc, ◌+◌, ◌<◌, ◌≤◌, String, ◌≡◌, ◌≢◌, Option, none, some}

pub record RedisClient : Type 1 where
  pub Store : Type 0
  pub get : (now : ℕ) → String → Store → Option String
  pub set_ex : (now : ℕ) → String → String → (seconds : ℕ) → Store → Store
  pub del : String → Store → Store
  -- The number that a key holds, as GET gives it in decimal; 0 where the key is missing.
  pub count : (now : ℕ) → String → Store → ℕ
  pub incr : (now : ℕ) → String → Store → ℕ × Store
  pub expire : (now : ℕ) → String → (seconds : ℕ) → Store → Store
  pub get-set_ex :
      (now then' seconds : ℕ) (k v : String) (s : Store)
      → then' < now + seconds
      → now ≤ then'
      → get then' k (set_ex now k v seconds s) ≡ some v
  pub get-set_ex_expired :
      (now then' seconds : ℕ) (k v : String) (s : Store)
      → now + seconds ≤ then'
      → get then' k (set_ex now k v seconds s) ≡ none
  pub get-set_ex_other :
      (now then' seconds : ℕ) (k j v : String) (s : Store)
      → j ≢ k
      → get then' j (set_ex now k v seconds s) ≡ get then' j s
  pub get-del : (now : ℕ) (k : String) (s : Store) → get now k (del k s) ≡ none
  pub get-del_other :
      (now : ℕ) (k j : String) (s : Store) → j ≢ k → get now j (del k s) ≡ get now j s
  pub incr-count : (now : ℕ) (k : String) (s : Store) → (incr now k s).0 ≡ suc (count now k s)
  pub count-incr :
      (now : ℕ) (k : String) (s : Store) → count now k (incr now k s).1 ≡ suc (count now k s)
  -- INCR leaves the time to live of a key that is there.
  pub count-incr_later :
      (now later : ℕ) (k : String) (s : Store)
      → now ≤ later
      → 0 < count later k s
      → count later k (incr now k s).1 ≡ suc (count later k s)
  pub count-expire :
      (now later seconds : ℕ) (k : String) (s : Store)
      → now ≤ later
      → later < now + seconds
      → count later k (expire now k seconds s) ≡ count now k s

-- `JSON.stringify` and `JSON.parse` at one type of payload. The service reads only keys that it has
-- written with `stringify`; that JSON.parse throws on any other text is not represented.
pub record Json (A : Type 0) : Type 0 where
  pub stringify : A → String
  pub parse : String → A
  pub parse-stringify : (a : A) → parse (stringify a) ≡ a

module _ ⦃r : RedisClient⦄ {A : Type 0} (json : Json A) where
  -- `RedisService.set`
  unfoldable pub set_json : (now : ℕ) → String → A → (ttl_seconds : ℕ) → r.Store → r.Store
  set_json now key value ttl_seconds s = r.set_ex now key (json.stringify value) ttl_seconds s

  -- `RedisService.get`
  unfoldable pub get_json : (now : ℕ) → String → r.Store → Option A
  get_json now key s = elim (r.get now key s) [ none ↦ none | some raw ↦ some (json.parse raw) ]

  -- A stored value comes back until its time is over.
  pub get_json-set_json :
      (now later ttl : ℕ) (key : String) (value : A) (s : r.Store)
      → now ≤ later
      → later < now + ttl
      → get_json later key (set_json now key value ttl s) ≡ some value
  unfolding get_json set_json
  get_json-set_json now later ttl key value s h before =
      rw (r.get-set_ex now later ttl key (json.stringify value) s before h, get_json)
        (rw (json.parse-stringify value))

  pub get_json-set_json_expired :
      (now later ttl : ℕ) (key : String) (value : A) (s : r.Store)
      → now + ttl ≤ later
      → get_json later key (set_json now key value ttl s) ≡ none
  unfolding get_json set_json
  get_json-set_json_expired now later ttl key value s h =
      rw (r.get-set_ex_expired now later ttl key (json.stringify value) s h, get_json)

  pub get_json-del : (now : ℕ) (key : String) (s : r.Store) → get_json now key (r.del key s) ≡ none
  unfolding get_json
  get_json-del now key s = rw (r.get-del now key s, get_json)
