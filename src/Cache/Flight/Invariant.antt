-- ===== src/Cache/Flight/Invariant.antt =====
-- The invariant of the shared table of futures (cache/base.py `SingleFlight`, and the wrappers that
-- use it), and the ways in which one event can change a system.
use tortoise_extended.Common.{
  ℕ, ◌+◌, ◌<◌, ◌≡◌, subst, ◌≢◌, ◌⊎◌, inl, inr, Option, none, some, Text, text_eq, text_eq_iff, ◌==◌,
  Bool-cases, arith,
}
use tortoise_extended.Cache.Flight.{
  Cell, pending, result, failed, Task, idle, reading, leading, storing, waiting, led, shared,
  System, set_key, set_at,
}

module _ {V E : Type 0} where
  -- The key and the future for which a task runs the wrapped function or stores its value.
  abbrev pub held_by : Task V E → Option (Text × ℕ)
  held_by (leading k f) = some (k, f)
  held_by (storing k f v) = some (k, f)
  held_by _ = none

  abbrev pub awaits : Task V E → Option ℕ
  awaits (waiting f) = some f
  awaits _ = none

  abbrev pub led_by : Task V E → Option (ℕ × V)
  led_by (led f v) = some (f, v)
  led_by _ = none

  abbrev pub shared_by : Task V E → Option (ℕ × V)
  shared_by (shared f v) = some (f, v)
  shared_by _ = none

  module _ (publish : V → V) where
    -- Some task computed a value for the future, returned it, and `p` is what it published.
    abbrev pub IsLed : (ℕ → Task V E) → ℕ → V → Type 0
    IsLed tasks f p = (u : ℕ) × (v : V) × (led_by (tasks u) ≡ some (f, v)) × (p ≡ publish v)

    abbrev pub IsHeld : (ℕ → Task V E) → ℕ → Type 0
    IsHeld tasks f = (u : ℕ) × (k : Text) × (held_by (tasks u) ≡ some (k, f))

    pub record IsSound (sys : System V E) : Type 0 where
      pub owned :
          (t : ℕ) (k : Text) (f : ℕ)
          → held_by (sys.tasks t) ≡ some (k, f)
          → sys.flight.futures k ≡ some f
      pub unique :
          (t u : ℕ) (k j : Text) (f : ℕ)
          → held_by (sys.tasks t) ≡ some (k, f)
          → held_by (sys.tasks u) ≡ some (j, f)
          → t ≡ u
      pub held :
          (k : Text) (f : ℕ)
          → sys.flight.futures k ≡ some f
          → (t : ℕ) × (held_by (sys.tasks t) ≡ some (k, f))
      pub below : (k : Text) (f : ℕ) → sys.flight.futures k ≡ some f → f < sys.flight.fresh
      pub awaited_below : (t f : ℕ) → awaits (sys.tasks t) ≡ some f → f < sys.flight.fresh
      pub awaited :
          (t f : ℕ)
          → awaits (sys.tasks t) ≡ some f
          → (sys.flight.cells f ≢ pending) ⊎ IsHeld sys.tasks f
      pub result_below : (f : ℕ) (p : V) → sys.flight.cells f ≡ result p → f < sys.flight.fresh
      pub results : (f : ℕ) (p : V) → sys.flight.cells f ≡ result p → IsLed sys.tasks f p
      pub sharing : (t f : ℕ) (p : V) → shared_by (sys.tasks t) ≡ some (f, p) → IsLed sys.tasks f p

    module _ (sys : System V E) (sound : IsSound sys) (t : ℕ) (task : Task V E)
        (ended : led_by (sys.tasks t) ≡ none) where
      abbrev moved : ℕ → Task V E
      moved = set_at t task sys.tasks

      IsLed-moved : (f : ℕ) (p : V) → IsLed sys.tasks f p → IsLed moved f p
      IsLed-moved f p (u, v, e, q) = (u, v, ground arith, q)

      -- An event that leaves the table of futures alone.
      pub move-IsSound :
          held_by task ≡ held_by (sys.tasks t)
          → ((f : ℕ)
              → awaits task ≡ some f
              → (awaits (sys.tasks t) ≡ some f) ⊎ ((k : Text) × (sys.flight.futures k ≡ some f)))
          → ((f : ℕ) (p : V) → shared_by task ≡ some (f, p) → sys.flight.cells f ≡ result p)
          → IsSound (record { tasks = moved; flight = sys.flight })
      move-IsSound holds waits shares = record {
        owned = λ u k f e. sound.owned u k f (ground arith);
        unique = λ u w k j f e e'. sound.unique u w k j f (ground arith) (ground arith);
        held = λ k f e. let (u, h) = sound.held k f e in (u, ground arith);
        below = sound.below;
        awaited_below = λ u f e. elim (Bool-cases (t == u)) [
          | inl same ↦ elim (waits f (rw same at e)) [
            | inl old ↦ sound.awaited_below t f old
            | inr (k, h) ↦ sound.below k f h
          ]
          | inr other ↦ sound.awaited_below u f (rw other at e)
        ];
        awaited = λ u f e. elim (Bool-cases (t == u)) [
          | inl same ↦ elim (waits f (rw same at e)) [
            | inl old ↦ still_held f (sound.awaited t f old)
            | inr (k, h) ↦ let (w, held) = sound.held k f h in inr (w, k, ground arith)
          ]
          | inr other ↦ still_held f (sound.awaited u f (rw other at e))
        ];
        result_below = sound.result_below;
        results = λ f p e. IsLed-moved f p (sound.results f p e);
        sharing = λ u f p e. elim (Bool-cases (t == u)) [
          | inl same ↦ IsLed-moved f p (sound.results f p (shares f p (rw same at e)))
          | inr other ↦ IsLed-moved f p (sound.sharing u f p (rw other at e))
        ];
      }
        where
          still_held :
              (f : ℕ)
              → (sys.flight.cells f ≢ pending) ⊎ IsHeld sys.tasks f
              → (sys.flight.cells f ≢ pending) ⊎ IsHeld moved f
          still_held f (inl done) = inl done
          still_held f (inr (w, k, h)) = inr (w, k, ground arith)

    -- A waiting task is cancelled: its future fails, for all who await it.
    pub fail_cell-IsSound :
        (sys : System V E) (f : ℕ) (e : E)
        → IsSound sys
        → f < sys.flight.fresh
        → IsSound (record sys {
          flight = record sys.flight { cells = set_at f (failed e) sys.flight.cells };
        })
    fail_cell-IsSound sys f e sound h = record {
      owned = sound.owned;
      unique = sound.unique;
      held = sound.held;
      below = sound.below;
      awaited_below = sound.awaited_below;
      awaited = λ u g p. elim (sound.awaited u g p) [
        | inl done ↦ inl (ground arith)
        | inr held ↦ inr held
      ];
      result_below = λ g p q. sound.result_below g p (ground arith);
      results = λ g p q. sound.results g p (ground arith);
      sharing = sound.sharing;
    }

    -- A task that reads the cache claims a key that nobody holds: it makes a new future.
    pub claim-IsSound :
        (sys : System V E) (t : ℕ) (key : Text)
        → IsSound sys
        → sys.tasks t ≡ reading key
        → sys.flight.futures key ≡ none
        → IsSound (record {
          tasks = set_at t (leading key sys.flight.fresh) sys.tasks;
          flight = record {
            futures = set_key key (some sys.flight.fresh) sys.flight.futures;
            cells = set_at sys.flight.fresh pending sys.flight.cells;
            fresh = sys.flight.fresh + 1;
          };
        })
    claim-IsSound sys t key sound reads free = record {
      owned = λ u k f e. elim (Bool-cases (t == u)) [
        | inl same ↦ ground (arith, text_eq_iff key k)
        | inr other ↦ ground (arith, sound.owned u k f (ground arith), text_eq_iff key k)
      ];
      unique = λ u w k j f e e'. elim (Bool-cases (t == u)) [
        | inl same ↦ ground (arith, sound.owned w j f, sound.below j f)
        | inr other ↦ ground (arith, sound.owned u k f, sound.below k f, sound.unique u w k j f)
      ];
      held = λ k f e. elim (Bool-cases (text_eq key k)) [
        | inl same ↦ (t, ground (arith, text_eq_iff key k))
        | inr other ↦ let (u, h) = sound.held k f (rw other at e) in (u, ground arith)
      ];
      below = λ k f e. ground (arith, sound.below k f);
      awaited_below = λ u f e. ground (arith, sound.awaited_below u f);
      awaited = λ u f e.
          let old : awaits (sys.tasks u) ≡ some f = ground arith in
          elim (sound.awaited u f old) [
            | inl done ↦ inl (ground (arith, sound.awaited_below u f old))
            | inr (w, k, h) ↦ inr (w, k, ground arith)
          ];
      result_below = λ f p e. ground (arith, sound.result_below f p);
      results = λ f p e.
          IsLed-moved sys sound t (leading key sys.flight.fresh) (rw reads) f p
            (sound.results f p (ground arith));
      sharing = λ u f p e.
          IsLed-moved sys sound t (leading key sys.flight.fresh) (rw reads) f p
            (sound.sharing u f p (ground arith));
    }

    -- The leader of a future is done: the future is settled and its claim is dropped.
    module _ (sys : System V E) (t : ℕ) (key : Text) (f : ℕ) (task : Task V E)
        (cells : ℕ → Cell V E) (sound : IsSound sys)
        (holds : held_by (sys.tasks t) ≡ some (key, f)) where
      pub close-IsSound :
          led_by (sys.tasks t) ≡ none
          → held_by task ≡ none
          → awaits task ≡ none
          → shared_by task ≡ none
          → ((g : ℕ) → sys.flight.cells g ≢ pending → cells g ≢ pending)
          → cells f ≢ pending
          → ((g : ℕ) (p : V)
              → cells g ≡ result p
              → (sys.flight.cells g ≡ result p)
                ⊎ ((v : V) × (f ≡ g) × (led_by task ≡ some (f, v)) × (p ≡ publish v)))
          → IsSound (record {
            tasks = set_at t task sys.tasks;
            flight = record sys.flight {
              futures = set_key key none sys.flight.futures;
              cells = cells;
            };
          })
      close-IsSound ended frees quiet alone stays done new = record {
        owned = λ u k g e. elim (Bool-cases (t == u)) [
          | inl same ↦ ground arith
          | inr other ↦ ground (
            arith,
            sound.owned u k g,
            sound.owned t key f,
            sound.unique u t k key f,
            text_eq_iff key k,
          )
        ];
        unique = λ u w k j g e e'. sound.unique u w k j g (ground arith) (ground arith);
        held = λ k g e.
            let (u, h) = sound.held k g (ground arith) in (u, ground (arith, text_eq_iff key k));
        below = λ k g e. sound.below k g (ground arith);
        awaited_below = λ u g e. sound.awaited_below u g (ground arith);
        awaited = λ u g e. elim (sound.awaited u g (ground arith)) [
          | inl settled ↦ inl (stays g settled)
          | inr (w, k, h) ↦ elim (Bool-cases (t == w)) [
            | inl same ↦
                let here : f ≡ g = ground arith in inl (subst (λ z. cells z ≢ pending) here done)
            | inr other ↦ inr (w, k, rw other h)
          ]
        ];
        result_below = λ g p e. elim (new g p e) [
          | inl old ↦ sound.result_below g p old
          | inr (v, same, _, _) ↦ rw (← same) (sound.below key f (sound.owned t key f holds))
        ];
        results = λ g p e. elim (new g p e) [
          | inl old ↦ IsLed-moved sys sound t task ended g p (sound.results g p old)
          | inr (v, same, e', q) ↦ (t, v, ground arith, q)
        ];
        sharing =
            λ u g p e. IsLed-moved sys sound t task ended g p (sound.sharing u g p (ground arith));
      }

    pub IsSound-start : IsSound (record {
      tasks = λ _. idle;
      flight = record { futures = λ _. none; cells = λ _. pending; fresh = 0 };
    })
    IsSound-start = record {
      owned = λ t k f e. cc;
      unique = λ t u k j f e. cc;
      held = λ k f e. cc;
      below = λ k f e. cc;
      awaited_below = λ t f e. cc;
      awaited = λ t f e. cc;
      result_below = λ f p e. cc;
      results = λ f p e. cc;
      sharing = λ t f p e. cc;
    }
