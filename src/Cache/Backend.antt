-- ===== src/Cache/Backend.antt =====
-- cache/base.py `CacheBackend` and cache/redis.py `RedisCacheBackend` (under src/tortoise_extended).
-- The serializer and the Redis driver are parameters; a Python value `None` is the value `null`.
pub mod Laws
pub mod Table
pub mod Batch
pub mod Purge
mod Tests
use tortoise_extended.Common.{
  ℕ, suc, ◌+◌, Bool, true, false, Option, none, some, List, [], ◌∷◌, ◌++◌, map, Text, codes,
  text_eq, starts_with, drop, length, if◌then◌else◌, Outcome, ok, raised, leb,
}
use tortoise_extended.Common.Actions.{Act, pure, throw, lift, except, and_then}
use tortoise_extended.Common.Int.{ℤ, is_positive}

-- The exceptions that the backends tell apart: `TypeError` and `ValueError`; those of
-- `_REDIS_INFRA_ERRORS`; the package's own; any other.
pub data Exception : Type 0 where
  type_or_value infra redis_cache cache_serialization cache unknown : Text → Exception

pub record Serializer : Type 1 where
  pub Value : Type 0
  pub Bytes : Type 0
  pub null : Value
  pub is_null : Value → Bool
  pub dumps : Value → Outcome Exception Bytes
  pub loads : Bytes → Outcome Exception Value

-- What the backend calls of the driver.
pub record Redis (Bytes : Type 0) : Type 1 where
  pub Store : Type 0
  pub get : Text → Act Store Exception (Option Bytes)
  pub set : Text → Bytes → Option ℤ → Act Store Exception (Unit {0})
  pub delete : Text → Act Store Exception ℕ
  pub exists : Text → Act Store Exception ℕ
  pub expire : Text → ℤ → Act Store Exception Bool
  -- The keys that one iteration yields, and the exception that ends it early.
  pub scan_iter : Text → Store → List Text × Option Exception
  pub mget : List Text → Act Store Exception (List (Option Bytes))
  pub incrby : Text → ℤ → Act Store Exception ℤ
  pub execute : List (Text × Bytes × Option ℤ) → Act Store Exception (Unit {0})

pub record Backend : Type 0 where
  pub namespace : Text
  pub default_ttl : ℤ

-- `_key`
abbrev pub full_key : Text → Text → Text
full_key namespace key = namespace ++ b':' ∷ key

-- `except _REDIS_INFRA_ERRORS as exc: self._raise_redis(exc)`
abbrev pub raise_redis : Exception → Exception
raise_redis (infra why) = redis_cache why
raise_redis e = e

-- `except (TypeError, ValueError) as exc: raise CacheSerializationError(str(exc))`
abbrev pub raise_serialization : Exception → Exception
raise_serialization (type_or_value why) = cache_serialization why
raise_serialization e = e

abbrev pub ttl_or : Option ℤ → ℤ → ℤ
ttl_or none default = default
ttl_or (some ttl) default = ttl

-- `ex=ttl` where the time to live is above zero.
abbrev pub expiry : ℤ → Option ℤ
expiry ttl = if is_positive ttl then some ttl else none

-- A dictionary in insertion order.
abbrev pub set_item {ℓ} : {V : Type ℓ} → Text → V → List (Text × V) → List (Text × V)
set_item key v [] = (key, v) ∷ []
set_item key v ((k, w) ∷ items) =
    let rest = set_item key v items in if text_eq k key then (k, v) ∷ items else (k, w) ∷ rest

abbrev pub removeprefix : Text → Text → Text
removeprefix prefix s = if starts_with s prefix then drop (length prefix) s else s

module _ (sz : Serializer) (redis : Redis sz.Bytes) (self : Backend) where
  open redis use {Store}

  abbrev Do : Type 0 → Type 0
  Do A = Act Store Exception A

  unfoldable pub decoded : Option sz.Bytes → Do sz.Value
  decoded none = pure sz.null
  decoded (some bytes) = except raise_serialization (lift (sz.loads bytes))

  unfoldable pub get : Text → Do sz.Value
  unfolding decoded
  get key = and_then (except raise_redis (redis.get (full_key self.namespace key))) decoded

  unfoldable pub set : Text → sz.Value → Option ℤ → Do (Unit {0})
  set key value ttl = and_then (except raise_serialization (lift (sz.dumps value))) λ bytes.
      except raise_redis
        (redis.set (full_key self.namespace key) bytes (expiry (ttl_or ttl self.default_ttl)))

  unfoldable pub delete : Text → Do Bool
  delete key =
      and_then (except raise_redis (redis.delete (full_key self.namespace key)))
        λ count. pure (leb 1 count)

  unfoldable pub exists : Text → Do Bool
  exists key =
      and_then (except raise_redis (redis.exists (full_key self.namespace key)))
        λ count. pure (leb 1 count)

  unfoldable pub expire : Text → ℤ → Do Bool
  expire key ttl = except raise_redis (redis.expire (full_key self.namespace key) ttl)

  unfoldable pub keys_of : List Text × Option Exception → Do (List Text)
  keys_of (found, none) = pure (map (removeprefix (self.namespace ++ b':' ∷ [])) found)
  keys_of (found, some e) = throw (raise_redis e)

  unfoldable pub keys : Text → Do (List Text)
  unfolding keys_of
  keys pattern s = keys_of (redis.scan_iter (full_key self.namespace pattern) s) s

  -- The loop of `delete_pattern` over what the iteration yields; `count` is its variable.
  unfoldable pub delete_each : ℕ → Option Exception → List Text → Do ℕ
  delete_each count none [] = pure count
  delete_each count (some e) [] = throw e
  delete_each count end (key ∷ found) =
      and_then (redis.delete key) λ _. delete_each (suc count) end found

  unfoldable pub delete_found : List Text × Option Exception → Do ℕ
  delete_found (found, end) = except raise_redis (delete_each 0 end found)

  unfoldable pub delete_pattern : Text → Do ℕ
  unfolding delete_found
  delete_pattern pattern s = delete_found (redis.scan_iter (full_key self.namespace pattern) s) s

  unfoldable pub flush : Do (Unit {0})
  flush = and_then (delete_pattern (codes "*")) λ _. pure tt

  -- The loop of `get_many` over `zip(keys, values, strict=True)`.
  unfoldable pub collect :
      List Text → List (Option sz.Bytes) → List (Text × sz.Value) → Do (List (Text × sz.Value))
  collect [] [] result = pure result
  collect (key ∷ keys) (none ∷ values) result = collect keys values result
  collect (key ∷ keys) (some bytes ∷ values) result =
      and_then (except raise_serialization (lift (sz.loads bytes)))
        λ v. collect keys values (set_item key v result)
  collect _ _ result = throw (type_or_value (codes "zip() argument lengths differ"))

  unfoldable pub get_many : List Text → Do (List (Text × sz.Value))
  unfolding collect
  get_many [] = pure []
  get_many (k ∷ ks) =
      and_then (except raise_redis (redis.mget (map (full_key self.namespace) (k ∷ ks))))
        λ values. collect (k ∷ ks) values []

  unfoldable pub queued :
      Text × Option ℤ
      → Outcome Exception sz.Bytes
      → Outcome Exception (List (Text × sz.Bytes × Option ℤ))
      → Outcome Exception (List (Text × sz.Bytes × Option ℤ))
  queued _ (raised e) rest = raised e
  queued _ (ok bytes) (raised e) = raised e
  queued (k, ex) (ok bytes) (ok ops) = ok ((k, bytes, ex) ∷ ops)

  -- The loop of `set_many` that fills the pipeline.
  unfoldable pub queue :
      ℤ → List (Text × sz.Value) → Outcome Exception (List (Text × sz.Bytes × Option ℤ))
  queue ttl [] = ok []
  queue ttl ((key, value) ∷ mapping) =
      queued (full_key self.namespace key, expiry ttl) (sz.dumps value) (queue ttl mapping)

  unfoldable pub set_many : List (Text × sz.Value) → Option ℤ → Do (Unit {0})
  unfolding queue
  set_many [] ttl = pure tt
  set_many (item ∷ mapping) ttl =
      and_then
        (except raise_serialization (lift (queue (ttl_or ttl self.default_ttl) (item ∷ mapping))))
        λ ops. except raise_redis (redis.execute ops)

  unfoldable pub incr : Text → ℤ → Do ℤ
  incr key amount = except raise_redis (redis.incrby (full_key self.namespace key) amount)

-- The routines that `CacheBackend` gives a subclass, over its own `get` and `set`.
module _ (sz : Serializer) {S : Type 0} (get : Text → Act S Exception sz.Value)
    (set : Text → sz.Value → Option ℤ → Act S Exception (Unit {0})) where
  unfoldable pub get_each :
      List Text → List (Text × sz.Value) → Act S Exception (List (Text × sz.Value))
  get_each [] result = pure result
  get_each (key ∷ keys) result =
      and_then (get key)
        λ value. get_each keys (if sz.is_null value then result else set_item key value result)

  unfoldable pub base_get_many : List Text → Act S Exception (List (Text × sz.Value))
  unfolding get_each
  base_get_many keys = get_each keys []

  unfoldable pub base_set_many : List (Text × sz.Value) → Option ℤ → Act S Exception (Unit {0})
  base_set_many [] ttl = pure tt
  base_set_many ((key, value) ∷ mapping) ttl =
      and_then (set key value ttl) λ _. base_set_many mapping ttl
