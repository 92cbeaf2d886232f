-- ===== src/Cache/Flight/Tests.antt =====
-- Runs of the single flight on concrete schedules, and the instances of its theorems.
use tortoise_extended.Common.{
  ℕ, zero, suc, ◌≡◌, refl, ◌≢◌, ◌⊎◌, true, none, some, List, [], ◌∷◌, Text, codes, arith,
}
use tortoise_extended.Cache.Flight.{
  pending, Task, waiting, led, shared, Event, called, missed, computed, stored, fails, woken,
  System, start, step, run, resume, claim, release, settle, empty,
}
use tortoise_extended.Cache.Flight.Invariant.{held_by, IsHeld}
use tortoise_extended.Cache.Flight.Safety.{
  run-held_once, run-awaited, run-shared, run-released, run-settles, run-cancel_spreads,
}

-- Task 0 leads, task 1 joins it; both for the key "k".
abbrev joined_events : List (ℕ × Event ℕ Text)
joined_events = (0, called (codes "k")) ∷ (1, called (codes "k")) ∷ (0, missed) ∷ (1, missed) ∷ []

abbrev served_events : List (ℕ × Event ℕ Text)
served_events =
    (0, called (codes "k"))
    ∷ (1, called (codes "k"))
    ∷ (0, missed)
    ∷ (1, missed)
    ∷ (0, computed 7)
    ∷ (0, stored)
    ∷ (1, woken)
    ∷ []

-- The published form of a value is told apart from the value.
abbrev doubled : ℕ → ℕ
doubled n = elim n [ zero ↦ zero | suc m ↦ 14 ]

abbrev joined : System ℕ Text
joined = run doubled (λ _. true) start joined_events

abbrev served : System ℕ Text
served = run doubled (λ _. true) start served_events

run_tests :
    (joined.tasks 1 ≡ waiting 0)
    × (served.tasks 0 ≡ led 0 7)
    × (served.tasks 1 ≡ shared 0 14)
    × (served.flight.futures (codes "k") ≡ none)
unfolding run step resume claim release settle start empty
run_tests = (refl, refl, refl, refl)

joined_holder : held_by (joined.tasks 0) ≡ some (codes "k", 0)
unfolding run step resume claim start empty
joined_holder = refl

run-held_once_example : ◌≡◌ {A = ℕ} 0 0
run-held_once_example =
    run-held_once doubled (λ _. true) joined_events 0 0 (codes "k") 0 0 joined_holder joined_holder

run-awaited_example : (joined.flight.cells 0 ≢ pending) ⊎ IsHeld doubled joined.tasks 0
run-awaited_example = run-awaited doubled (λ _. true) joined_events 1 0 run_tests.0

run-shared_example : (u : ℕ) × (v : ℕ) × (served.tasks u ≡ led 0 v) × (14 ≡ doubled v)
run-shared_example = run-shared doubled (λ _. true) served_events 1 0 14 run_tests.2

run-released_example : served.flight.futures (codes "k") ≡ none
unfolding run step resume claim release settle start empty
run-released_example =
    run-released doubled (λ _. true) served_events (codes "k") (λ t f. ground arith)

run-settles_example :
    ((step doubled (λ _. true) joined (0, fails (codes "e"))).flight.cells 0 ≢ pending)
    × ((step doubled (λ _. true) joined (0, fails (codes "e"))).flight.futures (codes "k") ≡ none)
unfolding run step resume claim start empty
run-settles_example =
    run-settles doubled (λ _. true) joined_events 0 (codes "k") 0 (fails (codes "e")) joined_holder
      tt

-- Three callers of one key: the first leads, the others wait.
abbrev three_events : List (ℕ × Event ℕ Text)
three_events =
    (0, called (codes "k"))
    ∷ (1, called (codes "k"))
    ∷ (2, called (codes "k"))
    ∷ (0, missed)
    ∷ (1, missed)
    ∷ (2, missed)
    ∷ []

abbrev three : System ℕ Text
three = run doubled (λ _. true) start three_events

three_tests :
    (three.tasks 1 ≡ waiting 0) × (three.tasks 2 ≡ waiting 0) × (three.flight.cells 0 ≡ pending)
unfolding run step resume claim start empty
three_tests = (refl, refl, refl)

run-cancel_spreads_example :
    (run doubled (λ _. true) three ((1, fails (codes "e")) ∷ (2, woken) ∷ [])).tasks 2
    ≡ Task.raised (codes "e")
run-cancel_spreads_example =
    run-cancel_spreads doubled (λ _. true) three 1 2 0 (codes "e") three_tests.0 three_tests.1
      (omega arith) three_tests.2
