-- ===== src/Expressions/Placeholders.antt =====
-- The placeholders `$n` in the text of a statement outside its quotes, each with what its line says
-- before it, and the parameters they stand for.
use tortoise_extended.Common.{
  ℕ, suc, zero, ◌+◌, ◌*◌, ◌-◌, ◌≡◌, Bool, ◌&&◌, Option, none, some, List, [], ◌∷◌, ◌++◌, Text, leb,
  ◌==◌, if◌then◌else◌,
}

-- A line so far, without the blanks that it begins with.
abbrev line_on : Text → ℕ → Text
line_on [] c = if (c == 10) then [] else if (c == 32) then [] else c ∷ []
line_on (d ∷ line) c = if c == 10 then [] else d ∷ line ++ c ∷ []

abbrev is_digit : ℕ → Bool
is_digit c = leb 48 c && leb c 57

-- A placeholder that is being read: its line up to it, and its number so far.
abbrev next : Text → Option (Text × ℕ) → ℕ → Option (Text × ℕ)
next line none c = if c == 36 then some (line, 0) else none
next line (some (before, n)) c =
    if is_digit c
    then some (before, n * 10 + (c - 48))
    else if c == 36
    then some (line, 0)
    else none

abbrev ended : Option (Text × ℕ) → ℕ → List (Text × ℕ)
ended none c = []
ended (some u) c = if is_digit c then [] else u ∷ []

unfoldable pub placeholders : Text → Option (Text × ℕ) → Text → List (Text × ℕ)
placeholders line none [] = []
placeholders line (some u) [] = u ∷ []
placeholders line m (c ∷ s) =
    let rest = placeholders (line_on line c) (next line m c) s in ended m c ++ rest

-- The parameter with a number; they are numbered from 1.
abbrev pub parameter : {P : Type 0} → ℕ → List P → Option P
parameter zero params = none
parameter (suc n) [] = none
parameter (suc zero) (p ∷ params) = some p
parameter (suc (suc n)) (p ∷ params) = parameter (suc n) params

abbrev pub resolved : {P : Type 0} → List P → List (Text × ℕ) → List (Text × Option P)
resolved params [] = []
resolved params ((line, n) ∷ us) = (line, parameter n params) ∷ resolved params us

abbrev pub expected : {P : Type 0} → List (Text × P) → List (Text × Option P)
expected [] = []
expected ((line, p) ∷ bindings) = (line, some p) ∷ expected bindings

-- These are all the placeholders of the text, in order: what the line says before each, and the
-- parameter that it stands for.
abbrev pub AreBound : {P : Type 0} → Text → List P → List (Text × P) → Type 0
AreBound form params bindings = resolved params (placeholders [] none form) ≡ expected bindings
