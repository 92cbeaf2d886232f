-- ===== src/Models/Cacheable/Operations.antt =====
-- The cached reads and the writes of `BaseCacheableModel`, models/cacheable_model.py (under
-- src/tortoise_extended). The mapper and the backend are parameters, and so are `_to_cache` and
-- `_from_cache`, which the parent module models.
pub mod Keys
pub mod Transparent
pub mod Fresh
mod Tests
use tortoise_extended.Common.{
  Bool, true, false, Option, none, some, List, [], ◌∷◌, map, Text, codes, if◌then◌else◌, Outcome,
  ok, raised, ◌>>=◌,
}
use tortoise_extended.Common.Actions.{Act, pure, throw, lift, and_then}
use tortoise_extended.Common.Int.{ℤ, is_positive}
use tortoise_extended.Common.Sorting.{sorted_items}
use tortoise_extended.Cache.Key.{KeyError, CacheKey, new, add, add_items, build}
use tortoise_extended.Cache.Backend.{Exception, cache, unknown}
use tortoise_extended.Cache.Decorators.{is_cache_error, suppressed}

-- A `CacheKeyError` is a `CacheError`.
abbrev pub key_error : Outcome KeyError Text → Outcome Exception Text
key_error (ok key) = ok key
key_error (raised e) = raised (cache (codes "no key component"))

-- `_cache_key_for`
unfoldable pub cache_key_for :
    {V : Type 0} → (V → Text) → Text → Text → List (Text × V) → Outcome Exception Text
cache_key_for str name op kwargs =
    let key : CacheKey = add (λ t. t) (new name (codes ":")) (op ∷ []) in
    key_error (build (add_items str key (sorted_items kwargs)))

-- What the backend returns: `None`, a `dict`, a `list`, or something else. `Data` is a record or
-- whatever an item of a list is.
pub data Cached (Data : Type 0) : Type 0 where
  absent stray : Cached Data
  dict : Data → Cached Data
  items : List Data → Cached Data

abbrev pub does_not_exist : Exception
does_not_exist = unknown (codes "DoesNotExist")

-- `self._meta.pk_attr or "id"`
abbrev pub pk_name : Text → Text
pk_name [] = codes "id"
pk_name (c ∷ pk_attr) = c ∷ pk_attr

module _ {S V : Type 0} (str : V → Text) (name : Text) where
  -- The key of a read or a write, which is computed outside every `try`.
  unfoldable pub at_key :
      {A : Type 0} → Text → List (Text × V) → (Text → Act S Exception A) → Act S Exception A
  at_key op kwargs act = and_then (lift (cache_key_for str name op kwargs)) act

module _ {S Instance Data : Type 0} (to_cache : Instance → Data)
    (from_cache : Data → Outcome Exception Instance) (get : Text → Act S Exception (Cached Data))
    (set : Text → Cached Data → ℤ → Act S Exception (Unit {0})) (cache_ttl : ℤ) where
  -- What becomes of a cached value in `get_cached`: `none` is a miss.
  abbrev pub as_instance : Cached Data → Outcome Exception (Option Instance)
  as_instance absent = ok none
  as_instance (dict saved) = from_cache saved >>= λ i. ok (some i)
  as_instance _ = raised (cache (codes "Expected dict from cache"))

  -- After `cls.get(**kwargs)`, which gives `none` where it raises `DoesNotExist`.
  unfoldable pub cache_result : Text → Option Instance → Act S Exception (Option Instance)
  cache_result key none = pure none
  cache_result key (some i) =
      and_then (λ s. suppressed (set key (dict (to_cache i)) cache_ttl s)) λ _. pure (some i)

  unfoldable pub query_one :
      Text → Act S Exception (Option Instance) → Act S Exception (Option Instance)
  unfolding cache_result
  query_one key find = and_then find (cache_result key)

  -- After the attempt to read: a cache error is a miss.
  unfoldable pub one_read :
      Text
      → Act S Exception (Option Instance)
      → Outcome Exception (Option Instance) × S
      → Outcome Exception (Option Instance) × S
  unfolding query_one
  one_read key find (ok none, s) = query_one key find s
  one_read key find (ok (some i), s) = (ok (some i), s)
  one_read key find (raised e, s) = if is_cache_error e then query_one key find s else (raised e, s)

  unfoldable pub read_one : Text → Act S Exception (Option Instance)
  read_one key = and_then (get key) λ c. lift (as_instance c)

  unfoldable pub from_all : List Data → Outcome Exception (List Instance)
  from_all [] = ok []
  from_all (item ∷ cached) =
      let others = from_all cached in
      from_cache item >>= λ i. others >>= λ instances. ok (i ∷ instances)

  abbrev pub as_instances : Cached Data → Outcome Exception (Option (List Instance))
  unfolding from_all
  as_instances absent = ok none
  as_instances (items cached) = from_all cached >>= λ instances. ok (some instances)
  as_instances _ = raised (cache (codes "Expected list from cache"))

  unfoldable pub query_all :
      Text → Act S Exception (List Instance) → Act S Exception (List Instance)
  query_all key find_all = and_then find_all λ instances.
      and_then (λ s. suppressed (set key (items (map to_cache instances)) cache_ttl s))
        λ _. pure instances

  unfoldable pub all_read :
      Text
      → Act S Exception (List Instance)
      → Outcome Exception (Option (List Instance)) × S
      → Outcome Exception (List Instance) × S
  unfolding query_all
  all_read key find_all (ok none, s) = query_all key find_all s
  all_read key find_all (ok (some instances), s) = (ok instances, s)
  all_read key find_all (raised e, s) =
      if is_cache_error e then query_all key find_all s else (raised e, s)

  unfoldable pub read_all : Text → Act S Exception (Option (List Instance))
  unfolding from_all
  read_all key = and_then (get key) λ c. lift (as_instances c)

module _ {S V Instance Data Connection : Type 0} (str : V → Text) (name : Text)
    (to_cache : Instance → Data) (from_cache : Data → Outcome Exception Instance)
    (get : Connection → Text → Act S Exception (Cached Data))
    (set : Connection → Text → Cached Data → ℤ → Act S Exception (Unit {0})) (cache_ttl : ℤ)
    (get_backend : Act S Exception Connection) where
  -- Without a time to live, `DoesNotExist` is not caught.
  abbrev pub uncached : Option Instance → Act S Exception (Option Instance)
  uncached none = throw does_not_exist
  uncached (some i) = pure (some i)

  unfoldable pub get_cached :
      List (Text × V) → Act S Exception (Option Instance) → Act S Exception (Option Instance)
  unfolding one_read read_one at_key
  get_cached kwargs find =
      if is_positive cache_ttl
      then and_then get_backend (λ b. at_key str name (codes "get") kwargs (λ key s.
        one_read to_cache from_cache (get b) (set b) cache_ttl key find
          (read_one to_cache from_cache (get b) (set b) cache_ttl key s)))
      else and_then find uncached

  unfoldable pub filter_cached :
      List (Text × V) → Act S Exception (List Instance) → Act S Exception (List Instance)
  unfolding all_read read_all at_key
  filter_cached kwargs find_all =
      if is_positive cache_ttl
      then and_then get_backend (λ b. at_key str name (codes "filter") kwargs (λ key s.
        all_read to_cache from_cache (get b) (set b) cache_ttl key find_all
          (read_all to_cache from_cache (get b) (set b) cache_ttl key s)))
      else find_all

  -- `refresh_from_db`: what the base class reloads is the instance as it then is, of the key `pk`.
  unfoldable pub refresh_from_db : Act S Exception Instance → Text → V → Act S Exception Instance
  unfolding at_key
  refresh_from_db reload pk_attr pk = and_then reload λ i.
      if is_positive cache_ttl
      then and_then get_backend (λ b.
        at_key str name (codes "get") ((pk_name pk_attr, pk) ∷ []) (λ key.
          and_then (λ s. suppressed (set b key (dict (to_cache i)) cache_ttl s)) λ _. pure i))
      else pure i

module _ {S V Connection : Type 0} (str : V → Text) (name : Text)
    (delete : Connection → Text → Act S Exception Bool) (cache_ttl : ℤ)
    (get_backend : Act S Exception Connection) where
  abbrev pub swallowed : Outcome Exception Bool × S → Outcome Exception (Unit {0}) × S
  swallowed (ok b, s) = (ok tt, s)
  swallowed (raised e, s) = if is_cache_error e then (ok tt, s) else (raised e, s)

  -- `_invalidate_cache`
  unfoldable pub invalidate_cache : Text → V → Act S Exception (Unit {0})
  unfolding at_key
  invalidate_cache pk_attr pk =
      if is_positive cache_ttl
      then and_then get_backend (λ b.
        at_key str name (codes "get") ((pk_name pk_attr, pk) ∷ [])
          (λ key s. swallowed (delete b key s)))
      else pure tt

  -- `save` and `delete`, whose statement is that of the base class.
  unfoldable pub write_through : Act S Exception (Unit {0}) → Text → V → Act S Exception (Unit {0})
  unfolding invalidate_cache
  write_through statement pk_attr pk = and_then statement λ _. invalidate_cache pk_attr pk
