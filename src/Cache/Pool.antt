-- ===== src/Cache/Pool.antt =====
-- The connection manager `RedisCache` of cache/redis.py (under src/tortoise_extended). Pools are
-- numbered as `from_url` makes them; what the driver answers is an argument.
pub mod Lifecycle
mod Tests
use tortoise_extended.Common.{
  ℕ, suc, ◌+◌, Bool, true, false, Option, none, some, List, [], ◌∷◌, ◌==◌, not, keep, if◌then◌else◌,
  Text, codes, Outcome, ok, raised,
}
use tortoise_extended.Common.Actions.{Act, pure, throw, and_then}
use tortoise_extended.Common.Int.{ℤ}
use tortoise_extended.Cache.Backend.{Backend}

pub data PoolError : Type 0 where
  import_error no_ping : PoolError
  not_initialized : PoolError
  driver : Text → PoolError

-- `_pool`, the pools that are open, and the number of the next one.
pub record Manager : Type 0 where
  pub pool : Option ℕ
  pub opened : List ℕ
  pub fresh : ℕ

-- What the driver does: whether it is installed, whether `from_url` takes the address, how `ping`
-- ends if there is one, how closing a pool ends, and whether a close that raises leaves the pool open.
pub record Driver : Type 0 where
  pub installed : Bool
  pub from_url : Outcome PoolError (Unit {0})
  pub ping : Option (Outcome PoolError (Unit {0}))
  pub close : ℕ → Outcome PoolError (Unit {0})
  pub stays_open : ℕ → Bool

abbrev Run : Type 0 → Type 0
Run A = Act Manager PoolError A

-- `from_url`
unfoldable pub connect_result : Outcome PoolError (Unit {0}) → Run ℕ
connect_result (ok _) m =
    (ok m.fresh, record m { opened = m.fresh ∷ m.opened; fresh = suc m.fresh })
connect_result (raised e) m = (raised e, m)

-- A pool is open no more.
abbrev pub closed : ℕ → Manager → Manager
closed p m = record m { opened = keep (λ q. not (q == p)) m.opened }

-- `aclose()`, or `close()` on an older driver: a close that raises may have closed the pool or not.
unfoldable pub close_result : ℕ → Bool → Outcome PoolError (Unit {0}) → Run (Unit {0})
close_result p stays (ok _) m = (ok tt, closed p m)
close_result p stays (raised e) m = (raised e, if stays then m else closed p m)

unfoldable pub install : ℕ → Run (Unit {0})
install p m = (ok tt, record m { pool = some p })

unfoldable pub forget : Run (Unit {0})
forget m = (ok tt, record m { pool = none })

module _ (drv : Driver) where
  unfoldable pub shut : ℕ → Run (Unit {0})
  unfolding close_result
  shut p = close_result p (drv.stays_open p) (drv.close p)

  unfoldable pub shut_old : Option ℕ → Run (Unit {0})
  unfolding shut
  shut_old none = pure tt
  shut_old (some p) = shut p

  -- The test of the connection: a pool that does not answer is closed.
  unfoldable pub verified : ℕ → Option (Outcome PoolError (Unit {0})) → Run (Unit {0})
  verified p none = throw no_ping
  verified p (some (ok _)) = pure tt
  verified p (some (raised e)) = and_then (shut p) λ _. throw e

  -- `init`
  unfoldable pub init : Run (Unit {0})
  unfolding connect_result verified shut_old install
  init =
      if drv.installed
      then and_then (connect_result drv.from_url) (λ p.
        and_then (verified p drv.ping) (λ _ m. and_then (shut_old m.pool) (λ _. install p) m))
      else throw import_error

  unfoldable pub close_pool : Option ℕ → Run (Unit {0})
  unfolding shut forget
  close_pool none = pure tt
  close_pool (some p) = and_then (shut p) λ _. forget

  -- `close`
  unfoldable pub close : Run (Unit {0})
  unfolding close_pool
  close m = close_pool m.pool m

-- `get_pool`
unfoldable pub get_pool : Manager → Outcome PoolError ℕ
get_pool m = elim m.pool [ none ↦ raised not_initialized | some p ↦ ok p ]

-- `get_backend`
unfoldable pub get_backend : Text → ℤ → Manager → Outcome PoolError (ℕ × Backend)
unfolding get_pool
get_backend namespace ttl m = elim m.pool [
  | none ↦ raised not_initialized
  | some p ↦ ok (p, record { namespace = namespace; default_ttl = ttl })
]
