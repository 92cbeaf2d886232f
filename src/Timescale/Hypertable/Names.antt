-- ===== src/Timescale/Hypertable/Names.antt =====
-- `_split_schema_name` of src/tortoise_extended/timescale/hypertable.py cuts a name at its last dot
-- outside double quotes.
use tortoise_extended.Common.{
  ℕ, suc, ◌+◌, ◌≡◌, refl, sym, ◌∙◌, ap, subst, ◌⊎◌, inl, inr, Bool, true, false, not, Option, none,
  some, [], ◌∷◌, ◌++◌, Text, length, drop, take-append, if◌then◌else◌, ◌==◌, ==_iff, Bool-cases,
  arith,
}
use tortoise_extended.Timescale.Hypertable.{last_dot, split_at, split_schema_name}

-- Whether the text after a prefix stands within double quotes.
abbrev pub within : Bool → Text → Bool
within q [] = q
within q (c ∷ s) = within (if c == b'"' then not q else q) s

-- No dot of the text stands outside double quotes.
abbrev pub NoDot : Bool → Text → Type 0
NoDot q [] = Unit
NoDot q (c ∷ s) = ((c ≡ b'.') → q ≡ true) × NoDot (if c == b'"' then not q else q) s

last_dot-NoDot :
    (q : Bool) (i : ℕ) (last : Option ℕ) (s : Text) → NoDot q s → last_dot q i last s ≡ last
unfolding last_dot
last_dot-NoDot q i last [] h = refl
last_dot-NoDot q i last (c ∷ s) (h, hs) =
    last_dot-NoDot (if c == b'"' then not q else q) (suc i) _ s hs ∙ ground arith

last_dot-append :
    (q : Bool) (i : ℕ) (last : Option ℕ) (schema table : Text)
    → within q schema ≡ false
    → NoDot false table
    → last_dot q i last (schema ++ b'.' ∷ table) ≡ some (i + length schema)
unfolding last_dot
last_dot-append q i last [] table h k =
    last_dot-NoDot q (suc i) _ table (subst (λ b. NoDot b table) (sym h) k) ∙ ground arith
last_dot-append q i last (c ∷ schema) table h k =
    last_dot-append (if c == b'"' then not q else q) (suc i) _ schema table h k
    ∙ ap some (omega arith)

-- The last dot of a text outside double quotes, if there is one.
abbrev pub LastDot : Bool → Text → Text → Text → Type 0
LastDot q s schema table =
    (s ≡ schema ++ b'.' ∷ table) × (within q schema ≡ false) × NoDot false table

zero_add : (n : ℕ) → 0 + n ≡ n
zero_add n = omega arith

drop-past : (s t : Text) → drop (suc (length s)) (s ++ b'.' ∷ t) ≡ t
drop-past [] t = refl
drop-past (c ∷ s) t = drop-past s t

last_here :
    (q : Bool) (c : ℕ) (s : Text)
    → NoDot (if c == b'"' then not q else q) s
    → (q ≡ true) ⊎ (q ≡ false)
    → ((c == b'.') ≡ true) ⊎ ((c == b'.') ≡ false)
    → NoDot q (c ∷ s) ⊎ ((schema : Text) × (table : Text) × LastDot q (c ∷ s) schema table)
last_here q c s n (inl e) d = inl ((λ _. e), n)
last_here q c s n (inr e) (inr d) = inl ((λ p. absurd (ground arith)), n)
last_here q c s n (inr e) (inl d) =
    inr ([], s, (ap (λ a. a ∷ s) ((==_iff c b'.').0 d), e, subst (λ b. NoDot b s) (ground arith) n))

dot_cases :
    (q : Bool) (s : Text)
    → NoDot q s ⊎ ((schema : Text) × (table : Text) × LastDot q s schema table)
dot_cases q [] = inl tt
dot_cases q (c ∷ s) = elim (dot_cases (if c == b'"' then not q else q) s) [
  | inr (schema, table, (e, w, n)) ↦ inr (c ∷ schema, table, (ap (λ l. c ∷ l) e, w, n))
  | inl n ↦ last_here q c s n (Bool-cases q) (Bool-cases (c == b'.'))
]

-- A name is cut at its last dot outside double quotes: the parts and the dot between them are
-- the name, the schema closes its quotes and the table has no such dot. A name with no such dot
-- has no schema.
pub split_schema_name_lem :
    (name : Text)
    → (NoDot false name × (split_schema_name name ≡ (none, name)))
      ⊎ ((schema : Text) × (table : Text) × LastDot false name schema table
          × (split_schema_name name ≡ (some schema, table)))
unfolding split_schema_name
split_schema_name_lem name = elim (dot_cases false name) [
  | inl n ↦ inl (n, rw (last_dot-NoDot false 0 none name n) refl)
  | inr (schema, table, (e, w, n)) ↦ inr (schema, table, (e, w, n), cut schema table e w n)
]
  where
    cut :
        (schema table : Text)
        → name ≡ schema ++ b'.' ∷ table
        → within false schema ≡ false
        → NoDot false table
        → split_at name (last_dot false 0 none name) ≡ (some schema, table)
    cut schema table e w n =
        rw (e, last_dot-append false 0 none schema table w n)
          (rw (zero_add (length schema), take-append schema (b'.' ∷ table), drop-past schema table)
            refl)
