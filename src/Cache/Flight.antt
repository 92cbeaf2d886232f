-- ===== src/Cache/Flight.antt =====
-- Deduplication of concurrent cache misses: `SingleFlight` of cache/base.py (under
-- src/tortoise_extended), and the body of the wrappers that use it: `cached` and `cached_method`
-- of cache/decorators.py, `CachedQuerySet._execute` of cache/queryset.py.
--
-- A coroutine runs without interruption from one `await` to the next. So a state names the `await`
-- at which each task stands, and an event says how that `await` ends: what the backend, the wrapped
-- function or the event loop answered. An asyncio future is a cell with a number.
pub mod Invariant
pub mod Safety
mod Tests
use tortoise_extended.Common.{
  ℕ, ◌+◌, Bool, true, false, Option, none, some, List, [], ◌∷◌, Text, text_eq, ◌==◌, if◌then◌else◌,
}

-- An `asyncio.Future`.
pub data Cell (V E : Type 0) : Type 0 where
  pending : Cell V E
  result : V → Cell V E
  failed : E → Cell V E

-- The futures of the event loop and the table `_futures` of the `SingleFlight` instance.
pub record Flight (V E : Type 0) : Type 0 where
  pub futures : Text → Option ℕ
  pub cells : ℕ → Cell V E
  pub fresh : ℕ

-- Where a task stands. The last four are ends: `hit` returned the cached value; `led` computed the
-- value of a future and returned it; `shared` returned what it read from a future.
pub data Task (V E : Type 0) : Type 0 where
  idle : Task V E
  reading : Text → Task V E
  leading : Text → ℕ → Task V E
  storing : Text → ℕ → V → Task V E
  waiting : ℕ → Task V E
  hit : V → Task V E
  led : ℕ → V → Task V E
  shared : ℕ → V → Task V E
  raised : E → Task V E

-- How an `await` ends. `missed` stands for a cached `None` and for a `CacheError`; `stored` for a
-- write that succeeded and for one that raised a `CacheError`; `fails` for any other exception, a
-- cancellation included.
pub data Event (V E : Type 0) : Type 0 where
  called : Text → Event V E
  found : V → Event V E
  missed : Event V E
  computed : V → Event V E
  stored : Event V E
  fails : E → Event V E
  woken : Event V E

abbrev pub set_key : Text → Option ℕ → (Text → Option ℕ) → Text → Option ℕ
set_key k o m j = if text_eq k j then o else m j

abbrev pub set_at {ℓ} : {A : Type ℓ} → ℕ → A → (ℕ → A) → ℕ → A
set_at n a m i = if n == i then a else m i

is_future : Option ℕ → ℕ → Bool
is_future none f = false
is_future (some g) f = g == f

module _ {V E : Type 0} where
  pub empty : Flight V E
  empty = record { futures = λ _. none; cells = λ _. pending; fresh = 0 }

  claimed : Text → Flight V E → Option ℕ → Bool × ℕ × Flight V E
  claimed key s none = (
    true,
    s.fresh,
    record {
      futures = set_key key (some s.fresh) s.futures;
      cells = set_at s.fresh pending s.cells;
      fresh = s.fresh + 1;
    },
  )
  claimed key s (some f) = (false, f, s)

  -- `claim`: the first caller makes a future and wins; the others share it.
  pub claim : Text → Flight V E → Bool × ℕ × Flight V E
  unfolding claimed
  claim key s = claimed key s (s.futures key)

  -- `release`: drop the claim, if the table still holds this future.
  pub release : Text → ℕ → Flight V E → Flight V E
  unfolding is_future
  release key f s =
      if is_future (s.futures key) f then record s { futures = set_key key none s.futures } else s

  settled : Cell V E → ℕ → Cell V E → (ℕ → Cell V E) → ℕ → Cell V E
  settled pending f c cells = set_at f c cells
  settled (result _) f c cells = cells
  settled (failed _) f c cells = cells

  -- `if not future.done(): future.set_…`
  pub settle : ℕ → Cell V E → Flight V E → Flight V E
  unfolding settled
  settle f c s = record s { cells = settled (s.cells f) f c s.cells }

  enter : Text → Bool × ℕ × Flight V E → Task V E × Flight V E
  enter key (true, f, s) = (leading key f, s)
  enter key (false, f, s) = (waiting f, s)

  wake : ℕ → Cell V E → Flight V E → Option (Task V E × Flight V E)
  wake f pending s = none
  wake f (result v) s = some (shared f v, s)
  wake f (failed e) s = some (raised e, s)

  -- To cancel a task that awaits a future is to cancel that future: the task, and whoever else
  -- awaits it, wakes with the exception. A future that is done cannot be cancelled: the exception
  -- is then raised in this task alone.
  interrupt : ℕ → E → Cell V E → Flight V E → Task V E × Flight V E
  interrupt f e pending s = (waiting f, record s { cells = set_at f (failed e) s.cells })
  interrupt f e (result _) s = (raised e, s)
  interrupt f e (failed _) s = (raised e, s)

  -- `publish` is what the leader hands to the others: the value itself in the decorators, the
  -- serialised rows in the query set. `keeps` tells whether the value is written to the cache: not
  -- if it is `None` in the decorators, always in the query set.
  module _ (publish : V → V) (keeps : V → Bool) where
    finish : Text → ℕ → V → Flight V E → Option (Task V E × Flight V E)
    unfolding settle release
    finish key f v s = some (led f v, release key f (settle f (result (publish v)) s))

    abort : Text → ℕ → E → Flight V E → Option (Task V E × Flight V E)
    unfolding settle release
    abort key f e s = some (raised e, release key f (settle f (failed e) s))

    -- The wrapper, from the `await` at which it stands to the next one or to its end; `none` if the
    -- event cannot happen there.
    pub resume : Task V E → Event V E → Flight V E → Option (Task V E × Flight V E)
    unfolding claim enter wake interrupt finish abort
    resume idle (called key) s = some (reading key, s)
    resume (reading key) (found v) s = some (hit v, s)
    resume (reading key) missed s = some (enter key (claim key s))
    resume (reading key) (fails e) s = some (raised e, s)
    resume (leading key f) (computed v) s =
        if keeps v then some (storing key f v, s) else finish key f v s
    resume (leading key f) (fails e) s = abort key f e s
    resume (storing key f v) stored s = finish key f v s
    resume (storing key f v) (fails e) s = abort key f e s
    resume (waiting f) woken s = wake f (s.cells f) s
    resume (waiting f) (fails e) s = some (interrupt f e (s.cells f) s)
    resume _ _ s = none

-- All tasks of the process, by number, and the shared table.
pub record System (V E : Type 0) : Type 0 where
  pub tasks : ℕ → Task V E
  pub flight : Flight V E

module _ {V E : Type 0} where
  pub start : System V E
  start = record { tasks = λ _. idle; flight = empty }

  resumed : ℕ → System V E → Option (Task V E × Flight V E) → System V E
  resumed t sys none = sys
  resumed t sys (some (task, flight)) = record { tasks = set_at t task sys.tasks; flight = flight }

  module _ (publish : V → V) (keeps : V → Bool) where
    -- One event of one task; an event that cannot happen changes nothing.
    pub step : System V E → ℕ × Event V E → System V E
    unfolding resumed resume
    step sys (t, event) = resumed t sys (resume publish keeps (sys.tasks t) event sys.flight)

    -- An interleaving of the tasks.
    pub run : System V E → List (ℕ × Event V E) → System V E
    run sys [] = sys
    run sys (e ∷ events) = run (step sys e) events
