-- ===== src/Cache/Flight/Safety.antt =====
-- What the single flight guarantees on every interleaving of the tasks (`SingleFlight` of
-- cache/base.py and its users in cache/decorators.py and cache/queryset.py).
use tortoise_extended.Common.{
  ℕ, ◌≡◌, refl, ◌≢◌, ◌⊎◌, inl, inr, Bool, false, Option, none, some, List, [], ◌∷◌, Text,
  text_eq_refl, ==_refl, Bool-cases, Option-cases, arith,
}
use tortoise_extended.Cache.Flight.{
  Cell, pending, result, failed, Task, idle, reading, leading, storing, waiting, hit, led, shared,
  raised, Event, called, found, missed, computed, stored, fails, woken, System, set_key, set_at,
  empty, claimed, release, settled, settle, start, resumed, step, run, resume, enter, wake,
  interrupt,
}
use tortoise_extended.Cache.Flight.Invariant.{
  held_by, led_by, IsHeld, IsSound, move-IsSound, fail_cell-IsSound, claim-IsSound, close-IsSound,
  IsSound-start,
}

module _ {V E : Type 0} where
  led_by-eq : (task : Task V E) {f : ℕ} {v : V} → led_by task ≡ some (f, v) → task ≡ led f v
  led_by-eq (led g w) e = cc
  led_by-eq idle e = cc
  led_by-eq _ e = cc

  -- The cells after `settle`: a future that is done stays as it is.
  settled-stays :
      (o c : Cell V E) (f g : ℕ) (cells : ℕ → Cell V E)
      → c ≢ pending
      → cells g ≢ pending
      → settled o f c cells g ≢ pending
  unfolding settled
  settled-stays pending c f g cells h k = ground arith
  settled-stays (result _) c f g cells h k = k
  settled-stays (failed _) c f g cells h k = k

  settled-done :
      (o c : Cell V E) (f : ℕ) (cells : ℕ → Cell V E)
      → c ≢ pending
      → cells f ≡ o
      → settled o f c cells f ≢ pending
  unfolding settled
  settled-done pending c f cells h e = rw (==_refl f) h
  settled-done (result _) c f cells h e = rw e (λ p. cc)
  settled-done (failed _) c f cells h e = rw e (λ p. cc)

  settled-result :
      (o c : Cell V E) (f g : ℕ) (cells : ℕ → Cell V E) (p : V)
      → settled o f c cells g ≡ result p
      → (cells g ≡ result p) ⊎ ((f ≡ g) × (c ≡ result p))
  unfolding settled
  settled-result pending c f g cells p e = ground arith
  settled-result (result _) c f g cells p e = inl e
  settled-result (failed _) c f g cells p e = inl e

module _ {V E : Type 0} (publish : V → V) (sys : System V E) (t : ℕ) (key : Text) (f : ℕ)
    (sound : IsSound publish sys) (holds : held_by (sys.tasks t) ≡ some (key, f)) where
  not_led : (task : Task V E) → held_by task ≡ some (key, f) → led_by task ≡ none
  not_led (leading _ _) e = refl
  not_led (storing _ _ _) e = refl
  not_led _ e = cc

  release-settle :
      (c : Cell V E)
      → release key f (settle f c sys.flight) ≡ record sys.flight {
        futures = set_key key none sys.flight.futures;
        cells = settled (sys.flight.cells f) f c sys.flight.cells;
      }
  unfolding release settle
  release-settle c = rw (sound.owned t key f holds, ==_refl f)

  finish-IsSound :
      (v : V)
      → IsSound publish (record {
        tasks = set_at t (led f v) sys.tasks;
        flight = release key f (settle f (result (publish v)) sys.flight);
      })
  finish-IsSound v = rw (release-settle (result (publish v))) (
      close-IsSound publish sys t key f (led f v) _ sound holds (not_led (sys.tasks t) holds) refl
        refl refl
        (λ g.
          settled-stays (sys.flight.cells f) (result (publish v)) f g sys.flight.cells (λ p. cc))
        (settled-done (sys.flight.cells f) (result (publish v)) f sys.flight.cells (λ p. cc) refl)
        (λ g p e.
          elim (settled-result (sys.flight.cells f) (result (publish v)) f g sys.flight.cells p e) [
            | inl old ↦ inl old
            | inr (same, q) ↦ inr (v, same, refl, cc)
          ]))

  abort-IsSound :
      (e : E)
      → IsSound publish (record {
        tasks = set_at t (raised e) sys.tasks;
        flight = release key f (settle f (failed e) sys.flight);
      })
  abort-IsSound e = rw (release-settle (failed e)) (
      close-IsSound publish sys t key f (raised e) _ sound holds (not_led (sys.tasks t) holds) refl
        refl refl
        (λ g. settled-stays (sys.flight.cells f) (failed e) f g sys.flight.cells (λ p. cc))
        (settled-done (sys.flight.cells f) (failed e) f sys.flight.cells (λ p. cc) refl)
        (λ g p q. elim (settled-result (sys.flight.cells f) (failed e) f g sys.flight.cells p q) [
          | inl old ↦ inl old
          | inr (same, absurd_q) ↦ cc
        ]))

module _ {V E : Type 0} (publish : V → V) (sys : System V E) (t : ℕ)
    (sound : IsSound publish sys) where
  claimed-IsSound :
      (key : Text) (o : Option ℕ)
      → sys.tasks t ≡ reading key
      → sys.flight.futures key ≡ o
      → IsSound publish (record {
        tasks = set_at t (enter key (claimed key sys.flight o)).0 sys.tasks;
        flight = (enter key (claimed key sys.flight o)).1;
      })
  unfolding claimed enter
  claimed-IsSound key none e free = claim-IsSound publish sys t key sound e free
  claimed-IsSound key (some f) e taken =
      move-IsSound publish sys sound t (waiting f) (rw e) (rw e) (λ g p. inr (key, ground arith))
        (λ g p. cc)

  wake-IsSound :
      (f : ℕ) (c : Cell V E)
      → sys.tasks t ≡ waiting f
      → sys.flight.cells f ≡ c
      → IsSound publish (resumed t sys (wake f c sys.flight))
  unfolding wake resumed
  wake-IsSound f pending e h = sound
  wake-IsSound f (result v) e h =
      move-IsSound publish sys sound t (shared f v) (rw e) (rw e) (λ g. cc) (λ g p q. ground arith)
  wake-IsSound f (failed x) e h =
      move-IsSound publish sys sound t (raised x) (rw e) (rw e) (λ g. cc) (λ g p. cc)

  interrupt-IsSound :
      (f : ℕ) (x : E) (c : Cell V E)
      → sys.tasks t ≡ waiting f
      → IsSound publish (record {
        tasks = set_at t (interrupt f x c sys.flight).0 sys.tasks;
        flight = (interrupt f x c sys.flight).1;
      })
  unfolding interrupt
  interrupt-IsSound f x pending e =
      move-IsSound publish _
        (fail_cell-IsSound publish sys f x sound (sound.awaited_below t f (rw e))) t (waiting f)
        (rw e) (rw e) (λ g p. inl (rw e p)) (λ g p. cc)
  interrupt-IsSound f x (result _) e =
      move-IsSound publish sys sound t (raised x) (rw e) (rw e) (λ g. cc) (λ g p. cc)
  interrupt-IsSound f x (failed _) e =
      move-IsSound publish sys sound t (raised x) (rw e) (rw e) (λ g. cc) (λ g p. cc)

module _ {V E : Type 0} (publish : V → V) (keeps : V → Bool) where
  -- One event of one task.
  resumed-IsSound :
      (sys : System V E) (t : ℕ) (task : Task V E) (event : Event V E)
      → IsSound publish sys
      → sys.tasks t ≡ task
      → IsSound publish (resumed t sys (resume publish keeps task event sys.flight))
  unfolding resumed resume
  resumed-IsSound sys t idle (called key) sound e =
      move-IsSound publish sys sound t (reading key) (rw e) (rw e) (λ f. cc) (λ f p. cc)
  resumed-IsSound sys t (reading key) (found v) sound e =
      move-IsSound publish sys sound t (hit v) (rw e) (rw e) (λ f. cc) (λ f p. cc)
  resumed-IsSound sys t (reading key) missed sound e =
      claimed-IsSound publish sys t sound key (sys.flight.futures key) e refl
  resumed-IsSound sys t (reading key) (fails x) sound e =
      move-IsSound publish sys sound t (raised x) (rw e) (rw e) (λ f. cc) (λ f p. cc)
  resumed-IsSound sys t (leading key f) (computed v) sound e = elim (Bool-cases (keeps v)) [
    | inl kept ↦
        rw kept
          (move-IsSound publish sys sound t (storing key f v) (rw e) (rw e) (λ g. cc) (λ g p. cc))
    | inr dropped ↦ rw dropped (finish-IsSound publish sys t key f sound (rw e) v)
  ]
  resumed-IsSound sys t (leading key f) (fails x) sound e =
      abort-IsSound publish sys t key f sound (rw e) x
  resumed-IsSound sys t (storing key f v) stored sound e =
      finish-IsSound publish sys t key f sound (rw e) v
  resumed-IsSound sys t (storing key f v) (fails x) sound e =
      abort-IsSound publish sys t key f sound (rw e) x
  resumed-IsSound sys t (waiting f) woken sound e =
      wake-IsSound publish sys t sound f (sys.flight.cells f) e refl
  resumed-IsSound sys t (waiting f) (fails x) sound e =
      interrupt-IsSound publish sys t sound f x (sys.flight.cells f) e
  resumed-IsSound sys t _ _ sound e = sound

  step-IsSound :
      (sys : System V E) (t : ℕ) (event : Event V E)
      → IsSound publish sys
      → IsSound publish (step publish keeps sys (t, event))
  unfolding step
  step-IsSound sys t event sound = resumed-IsSound sys t (sys.tasks t) event sound refl

  run_from-IsSound :
      (sys : System V E) (events : List (ℕ × Event V E))
      → IsSound publish sys
      → IsSound publish (run publish keeps sys events)
  unfolding run
  run_from-IsSound sys [] sound = sound
  run_from-IsSound sys ((t, event) ∷ events) sound =
      run_from-IsSound (step publish keeps sys (t, event)) events (step-IsSound sys t event sound)

  -- The invariant holds after every interleaving.
  pub run-IsSound :
      (events : List (ℕ × Event V E)) → IsSound publish (run publish keeps start events)
  unfolding start empty
  run-IsSound events = run_from-IsSound start events (IsSound-start publish)

  -- After any interleaving of any tasks, two tasks that run the wrapped function, or store its
  -- value, for the same key are one task.
  pub run-held_once :
      (events : List (ℕ × Event V E)) (t u : ℕ) (key : Text) (f g : ℕ)
      → held_by ((run publish keeps start events).tasks t) ≡ some (key, f)
      → held_by ((run publish keeps start events).tasks u) ≡ some (key, g)
      → t ≡ u
  run-held_once events t u key f g p q =
      let sound = run-IsSound events in
      sound.unique t u key key f p (ground (arith, sound.owned t key f p, sound.owned u key g q))

  -- After any interleaving, a task that awaits a future can be woken, or some task still runs the
  -- wrapped function for that future.
  pub run-awaited :
      (events : List (ℕ × Event V E)) (t f : ℕ)
      → (run publish keeps start events).tasks t ≡ waiting f
      → ((run publish keeps start events).flight.cells f ≢ pending)
        ⊎ IsHeld publish (run publish keeps start events).tasks f
  run-awaited events t f e = (run-IsSound events).awaited t f (rw e)

  -- After any interleaving, what a task received from a future is what the task that computed this
  -- future's value published of it, and that task has returned the value itself.
  pub run-shared :
      (events : List (ℕ × Event V E)) (t f : ℕ) (p : V)
      → (run publish keeps start events).tasks t ≡ shared f p
      → (u : ℕ) × (v : V) × ((run publish keeps start events).tasks u ≡ led f v) × (p ≡ publish v)
  run-shared events t f p e =
      let (u, v, h, q) = (run-IsSound events).sharing t f p (rw e) in
      (u, v, led_by-eq ((run publish keeps start events).tasks u) h, q)

  -- After any interleaving, if no task runs the wrapped function for a key, the table holds nothing
  -- for that key.
  pub run-released :
      (events : List (ℕ × Event V E)) (key : Text)
      → ((t f : ℕ) → held_by ((run publish keeps start events).tasks t) ≢ some (key, f))
      → (run publish keeps start events).flight.futures key ≡ none
  run-released events key free =
      elim (Option-cases ((run publish keeps start events).flight.futures key)) [
        | inl e ↦ e
        | inr (f, e) ↦ let (t, h) = (run-IsSound events).held key f e in absurd (free t f h)
      ]

  -- The end of a leader's work, whichever it is: its value is stored, or not to be stored, or it is
  -- left by an exception.
  abbrev pub Ends : Task V E → Event V E → Type 0
  Ends (leading _ _) (computed v) = keeps v ≡ false
  Ends (leading _ _) (fails _) = Unit
  Ends (storing _ _ _) stored = Unit
  Ends (storing _ _ _) (fails _) = Unit
  Ends _ _ = ⊥

  ends_settled :
      (sys : System V E) (t : ℕ) (key : Text) (f : ℕ) (c : Cell V E)
      → IsSound publish sys
      → held_by (sys.tasks t) ≡ some (key, f)
      → c ≢ pending
      → ((release key f (settle f c sys.flight)).cells f ≢ pending)
        × ((release key f (settle f c sys.flight)).futures key ≡ none)
  ends_settled sys t key f c sound h done =
      rw (release-settle publish sys t key f sound h c)
        (settled-done (sys.flight.cells f) c f sys.flight.cells done refl, rw (text_eq_refl key))

  resumed-settles :
      (sys : System V E) (t : ℕ) (key : Text) (f : ℕ) (task : Task V E) (event : Event V E)
      → IsSound publish sys
      → sys.tasks t ≡ task
      → held_by task ≡ some (key, f)
      → Ends task event
      → ((resumed t sys (resume publish keeps task event sys.flight)).flight.cells f ≢ pending)
        × ((resumed t sys (resume publish keeps task event sys.flight)).flight.futures key ≡ none)
  unfolding resumed resume
  resumed-settles sys t key f (leading j g) (computed v) sound e h ends =
      let sf : g ≡ f = ground arith in
      let sk : j ≡ key = ground arith in
      rw (← sf, ← sk, ends) (ends_settled sys t j g (result (publish v)) sound (rw e) (λ q. cc))
  resumed-settles sys t key f (leading j g) (fails x) sound e h ends =
      let sf : g ≡ f = ground arith in
      let sk : j ≡ key = ground arith in
      rw (← sf, ← sk) (ends_settled sys t j g (failed x) sound (rw e) (λ q. cc))
  resumed-settles sys t key f (storing j g v) stored sound e h ends =
      let sf : g ≡ f = ground arith in
      let sk : j ≡ key = ground arith in
      rw (← sf, ← sk) (ends_settled sys t j g (result (publish v)) sound (rw e) (λ q. cc))
  resumed-settles sys t key f (storing j g v) (fails x) sound e h ends =
      let sf : g ≡ f = ground arith in
      let sk : j ≡ key = ground arith in
      rw (← sf, ← sk) (ends_settled sys t j g (failed x) sound (rw e) (λ q. cc))
  resumed-settles sys t key f _ _ sound e h ends = absurd ends

  -- After any interleaving, when the task that runs the wrapped function for a key ends its work,
  -- with a value or with an exception, the future is settled, so that everyone who awaits it can be
  -- woken, and the key is free for the next caller.
  pub run-settles :
      (events : List (ℕ × Event V E)) (t : ℕ) (key : Text) (f : ℕ) (event : Event V E)
      → held_by ((run publish keeps start events).tasks t) ≡ some (key, f)
      → Ends ((run publish keeps start events).tasks t) event
      → ((step publish keeps (run publish keeps start events) (t, event)).flight.cells f ≢ pending)
        × ((step publish keeps (run publish keeps start events) (t, event)).flight.futures key
            ≡ none)
  unfolding step
  run-settles events t key f event h ends =
      let sys : System V E = run publish keeps start events in
      resumed-settles sys t key f (sys.tasks t) event (run-IsSound events) refl h ends

  -- If two tasks await one future that is not settled and the first is cancelled, the second wakes
  -- with that cancellation.
  pub run-cancel_spreads :
      (sys : System V E) (t u f : ℕ) (x : E)
      → sys.tasks t ≡ waiting f
      → sys.tasks u ≡ waiting f
      → t ≢ u
      → sys.flight.cells f ≡ pending
      → (run publish keeps sys ((t, fails x) ∷ (u, woken) ∷ [])).tasks u ≡ raised x
  unfolding run step resumed resume
  run-cancel_spreads sys t u f x p q ne c = ground (arith, p, q, c, ==_refl f)
