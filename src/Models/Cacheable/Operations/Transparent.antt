-- ===== src/Models/Cacheable/Operations/Transparent.antt =====
-- The cached reads of models/cacheable_model.py (under src/tortoise_extended), compared with the
-- reads of the database.
use tortoise_extended.Common.{◌≡◌, true, Option, none, some, List, Text, Outcome, ok, raised}
use tortoise_extended.Common.Actions.{Act}
use tortoise_extended.Common.Int.{ℤ}
use tortoise_extended.Cache.Backend.{Exception}
use tortoise_extended.Cache.Decorators.{is_cache_error}
use tortoise_extended.Models.Cacheable.Operations.{Cached, read_one, read_all}

module _ {S Instance Data : Type 0} (to_cache : Instance → Data)
    (from_cache : Data → Outcome Exception Instance) (get : Text → Act S Exception (Cached Data))
    (set : Text → Cached Data → ℤ → Act S Exception (Unit {0})) (cache_ttl : ℤ) where
  -- The attempt to read gives nothing: a miss, or a cache error.
  abbrev pub Missed : {A : Type 0} → Outcome Exception (Option A) × S → Type 0
  Missed (ok none, s) = Unit
  Missed (ok (some a), s) = ⊥
  Missed (raised e, s) = is_cache_error e ≡ true

module _ {S V Instance Data Connection : Type 0} (str : V → Text) (name : Text)
    (to_cache : Instance → Data) (from_cache : Data → Outcome Exception Instance)
    (get : Connection → Text → Act S Exception (Cached Data))
    (set : Connection → Text → Cached Data → ℤ → Act S Exception (Unit {0})) (cache_ttl : ℤ)
    (get_backend : Act S Exception Connection) where
  abbrev pub one : Connection → Text → Act S Exception (Option Instance)
  one b key = read_one to_cache from_cache (get b) (set b) cache_ttl key

  abbrev pub all : Connection → Text → Act S Exception (Option (List Instance))
  all b key = read_all to_cache from_cache (get b) (set b) cache_ttl key
