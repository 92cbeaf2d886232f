-- ===== src/Common/Actions.antt =====
-- Code that reads and writes a state and may raise: the state is kept when an exception passes.
use tortoise_extended.Common.Outcomes.{Outcome, ok, raised}

abbrev pub Act {ℓ κ ν} : Type ℓ → Type κ → Type ν → Type (ℓ ⊔ κ ⊔ ν)
Act S E A = S → Outcome E A × S

module _ {ℓ κ ν} {S : Type ℓ} {E : Type κ} {A : Type ν} where
  abbrev pub pure : A → Act S E A
  pure a s = (ok a, s)

  abbrev pub throw : E → Act S E A
  throw e s = (raised e, s)

  -- A result that touches no state.
  abbrev pub lift : Outcome E A → Act S E A
  lift o s = (o, s)

  -- An `except` clause that raises another exception.
  abbrev pub reraise : (E → E) → Outcome E A × S → Outcome E A × S
  reraise f (ok a, s) = (ok a, s)
  reraise f (raised e, s) = (raised (f e), s)

  -- `try: m except …: raise f(exc)`
  abbrev pub except : (E → E) → Act S E A → Act S E A
  except f m s = reraise f (m s)

module _ {ℓ κ ν μ} {S : Type ℓ} {E : Type κ} {A : Type ν} {B : Type μ} where
  abbrev pub continue : Outcome E A × S → (A → S → Outcome E B × S) → Outcome E B × S
  continue (ok a, s) f = f a s
  continue (raised e, s) f = (raised e, s)

  abbrev pub and_then : Act S E A → (A → Act S E B) → Act S E B
  and_then m f s = continue (m s) f
