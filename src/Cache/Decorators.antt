-- ===== src/Cache/Decorators.antt =====
-- The wrappers of `cached`, `cached_method` and `invalidate` of cache/decorators.py (under
-- src/tortoise_extended), as one call runs them alone: it wins its claim, whose future nobody awaits.
-- Calls that overlap are those of `Flight`.
pub mod Signature
pub mod Served
mod Tests
use tortoise_extended.Common.{
  Bool, true, false, List, [], ◌∷◌, Option, none, some, Text, if◌then◌else◌, Outcome, ok, raised,
}
use tortoise_extended.Common.Actions.{Act, pure, and_then, lift}
use tortoise_extended.Common.Int.{ℤ}
use tortoise_extended.Cache.Backend.{
  Exception, type_or_value, infra, redis_cache, cache_serialization, cache, unknown,
}

-- `isinstance(exc, CacheError)`
abbrev pub is_cache_error : Exception → Bool
is_cache_error (redis_cache why) = true
is_cache_error (cache_serialization why) = true
is_cache_error (cache why) = true
is_cache_error (type_or_value why) = false
is_cache_error (infra why) = false
is_cache_error (unknown why) = false

-- `except CacheError: …` and `contextlib.suppress(CacheError)`
abbrev pub suppressed :
    {S : Type 0} → Outcome Exception (Unit {0}) × S → Outcome Exception (Unit {0}) × S
suppressed (ok a, s) = (ok tt, s)
suppressed (raised e, s) = if is_cache_error e then (ok tt, s) else (raised e, s)

-- The backend's `get` and `set`.
module _ {S Value : Type 0} (is_null : Value → Bool) (get : Text → Act S Exception Value)
    (set : Text → Value → Option ℤ → Act S Exception (Unit {0})) where
  -- What follows `result = await func(*args, **kwargs)`.
  unfoldable pub store : ℤ → Text → Value → Act S Exception Value
  store ttl key result =
      if is_null result
      then pure result
      else and_then (λ s. suppressed (set key result (some ttl) s)) λ _. pure result

  unfoldable pub miss : ℤ → Text → Act S Exception Value → Act S Exception Value
  unfolding store
  miss ttl key func = and_then func λ result. store ttl key result

  -- What follows the attempt to read the cache.
  unfoldable pub after_read :
      ℤ → Text → Act S Exception Value → Outcome Exception Value × S → Outcome Exception Value × S
  unfolding miss
  after_read ttl key func (ok cached_value, s) =
      if is_null cached_value then miss ttl key func s else (ok cached_value, s)
  after_read ttl key func (raised e, s) =
      if is_cache_error e then miss ttl key func s else (raised e, s)

  -- The wrappers from the read of the cache on.
  unfoldable pub through_cache : ℤ → Text → Act S Exception Value → Act S Exception Value
  unfolding after_read
  through_cache ttl key func s = after_read ttl key func (get key s)

module _ {S Connection Value : Type 0} (is_null : Value → Bool)
    (get : Connection → Text → Act S Exception Value)
    (set : Connection → Text → Value → Option ℤ → Act S Exception (Unit {0})) where
  -- The wrapper of `cached` and of `cached_method`: the backend that `get_backend` gives, or the one
  -- that is there, and the key come first, outside every `try`.
  unfoldable pub wrapper :
      ℤ
      → Act S Exception Connection
      → Outcome Exception Text
      → Act S Exception Value
      → Act S Exception Value
  unfolding through_cache
  wrapper ttl get_backend cache_key func = and_then get_backend λ backend.
      and_then (lift cache_key)
        λ key. through_cache is_null (get backend) (set backend) ttl key func

-- The backend's `delete` and `delete_pattern`.
module _ {S Connection Count : Type 0} (delete : Connection → Text → Act S Exception Bool)
    (delete_pattern : Connection → Text → Act S Exception Count) where
  -- `_invalidate_cached`
  unfoldable pub invalidate_cached :
      Act S Exception Connection → Outcome Exception Text → Act S Exception (Unit {0})
  invalidate_cached get_backend cache_key =
      and_then get_backend
        λ backend. and_then (lift cache_key) λ key. and_then (delete backend key) λ _. pure tt

  unfoldable pub purge_each : Connection → List Text → Act S Exception (Unit {0})
  purge_each backend [] = pure tt
  purge_each backend (pattern ∷ patterns) =
      and_then (delete_pattern backend pattern) λ _. purge_each backend patterns

  -- The key is that of `key_func`, if there is one.
  unfoldable pub purge :
      Connection → Option (Outcome Exception Text) → List Text → Act S Exception (Unit {0})
  unfolding purge_each
  purge backend (some made) patterns =
      and_then (lift made) λ key. and_then (delete backend key) λ _. pure tt
  purge backend none patterns = purge_each backend patterns

  -- The wrapper of `invalidate`.
  unfoldable pub invalidating :
      {Value : Type 0}
      → Act S Exception Connection
      → Option (Outcome Exception Text)
      → List Text
      → Act S Exception Value
      → Act S Exception Value
  unfolding purge
  invalidating get_backend made patterns func = and_then get_backend λ backend.
      and_then func
        λ result. and_then (λ s. suppressed (purge backend made patterns s)) λ _. pure result
