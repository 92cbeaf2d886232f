-- ===== src/Fields/Ltree.antt =====
-- fields/ltree.py (under src/tortoise_extended): `LTreeField`, label paths. The separator is one
-- character.
use tortoise_extended.Common.{
  ℕ, inl, inr, ◌⊎◌, ◌≤◌, ◌<◌, ==_refl, ◌≡◌, refl, ap, ◌∙◌, false, not, ◌&&◌, Option, none, some,
  List, [], ◌∷◌, ◌++◌, Text, join, split, length, Lacks, All, ltb, ◌==◌, if◌then◌else◌, Outcome, ok,
  raised, arith, Bool-cases,
}

-- A value of the column in Python: `str | list[str] | None`.
pub data PathValue : Type 0 where
  null : PathValue
  text : Text → PathValue
  labels : List Text → PathValue

pub data FieldError : Type 0 where
  too_long : Text → FieldError

-- `to_python_value`
unfoldable pub to_python_value : ℕ → PathValue → PathValue
to_python_value separator null = null
to_python_value separator (labels ls) = labels ls
to_python_value separator (text s) = labels (split separator s)

-- `max_length` is falsy when it is 0 or `None`, which is 0 here.
within : ℕ → Text → Outcome FieldError (Option Text)
within max_length path =
    if not (max_length == 0) && ltb max_length (length path)
    then raised (too_long path)
    else ok (some path)

-- `to_db_value`
unfoldable pub to_db_value : ℕ → ℕ → PathValue → Outcome FieldError (Option Text)
unfolding within
to_db_value max_length separator null = ok none
to_db_value max_length separator (text s) = within max_length s
to_db_value max_length separator (labels ls) = within max_length (join (separator ∷ []) ls)

-- A path given as text comes out as it is, if it is not longer than the field takes.
pub to_db_value-text :
    (max_length separator : ℕ) (s : Text)
    → length s ≤ max_length
    → to_db_value max_length separator (text s) ≡ ok (some s)
unfolding to_db_value within
to_db_value-text max_length separator s short = ground (arith, short)

-- And is refused if it is longer than a bound that is not 0.
pub to_db_value-raised :
    (max_length separator : ℕ) (s : Text)
    → 0 < max_length
    → max_length < length s
    → to_db_value max_length separator (text s) ≡ raised (too_long s)
unfolding to_db_value within
to_db_value-raised max_length separator s bounded long = ground (arith, bounded, long)

split-plain : (sep : ℕ) (s : Text) → Lacks sep s → split sep s ≡ s ∷ []
unfolding split
split-plain sep [] h = refl
split-plain sep (c ∷ s) h = elim (Bool-cases (c == sep)) [
  | inl same ↦ absurd (h.0 (ground arith))
  | inr other ↦ rw (other, split-plain sep s h.1)
]

split-label :
    (sep : ℕ) (s rest : Text) → Lacks sep s → split sep (s ++ sep ∷ rest) ≡ s ∷ split sep rest
unfolding split
split-label sep [] rest h = rw (==_refl sep) refl
split-label sep (c ∷ s) rest h = elim (Bool-cases (c == sep)) [
  | inl same ↦ absurd (h.0 (ground arith))
  | inr other ↦ rw (other, split-label sep s rest h.1)
]

-- Splitting what joined labels without the separator gives the labels.
pub split-join :
    (sep : ℕ) (l : Text) (ls : List Text)
    → All (Lacks sep) (l ∷ ls)
    → split sep (join (sep ∷ []) (l ∷ ls)) ≡ l ∷ ls
unfolding join
split-join sep l [] h = split-plain sep l h.0
split-join sep l (m ∷ ls) h =
    split-label sep l (join (sep ∷ []) (m ∷ ls)) h.0 ∙ ap (λ t. l ∷ t) (split-join sep m ls h.1)

-- A list of labels without the separator, at least one, whose text is no longer than the field
-- allows, is stored, and read back from the stored text.
pub to_python_value-to_db_value :
    (max_length sep : ℕ) (l : Text) (ls : List Text)
    → All (Lacks sep) (l ∷ ls)
    → (max_length ≡ 0) ⊎ (length (join (sep ∷ []) (l ∷ ls)) ≤ max_length)
    → (path : Text) × (to_db_value max_length sep (labels (l ∷ ls)) ≡ ok (some path))
      × (to_python_value sep (text path) ≡ labels (l ∷ ls))
unfolding to_db_value to_python_value within
to_python_value-to_db_value max_length sep l ls h fits =
    let path : Text = join (sep ∷ []) (l ∷ ls) in
    let accepted : (not (max_length == 0) && ltb max_length (length path)) ≡ false = ground arith in
    (path, rw accepted refl, ap labels (split-join sep l ls h))
