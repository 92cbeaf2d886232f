-- ===== src/Models/Hierarchy/Validate.antt =====
-- `validate_hierarchy` of models/hierarchy_model.py. The messages are constructors.
use tortoise_extended.Common.{
  ℕ, zero, suc, inl, inr, ◌-◌, ◌<◌, ◌≡◌, refl, sym, ap, ◌∙◌, ◌≢◌, true, false, not, ◌&&◌, Option,
  none, some, List, [], ◌∷◌, ◌++◌, Text, text_eq, text_eq_refl, starts_with, split, length,
  length-append, Lacks, ◌==◌, ==_refl, if◌then◌else◌, Bool-cases, arith,
}
use tortoise_extended.Common.Int.{ℤ, pos, eq_ℤ, ◌+ℤ◌, int_laws}
use tortoise_extended.Models.Orm.{Orm}
use tortoise_extended.Models.Hierarchy.{Row, Instance, row_pk, loaded, path_to_str, is_empty}
use tortoise_extended.Models.Hierarchy.Paths.{dot, below, below_iff, path_to_str-loaded, split-cons}
use tortoise_extended.Models.Hierarchy.Forest.{IsForest, IsPlaced}

pub data Fault : Type 0 where
  no_path name_mismatch depth_mismatch parent_missing parent_not_prefix : Fault

abbrev last_label : List Text → Text
last_label [] = []
last_label (l ∷ []) = l
last_label (_ ∷ m ∷ ls) = last_label (m ∷ ls)

module _ (orm : Orm Row row_pk) where
  open orm use {Db, row}

  -- What `get_or_none(pk=…, namespace=…)` found.
  parent_fault : Text → Text → Option Row → List Fault
  parent_fault path namespace none = parent_missing ∷ []
  parent_fault path namespace (some p) =
      if not (text_eq p.namespace namespace)
      then parent_missing ∷ []
      else if not (is_empty p.path) && not (starts_with path (p.path ++ b'.' ∷ []))
      then parent_not_prefix ∷ []
      else []

  parent_faults : Text → Text → Option ℕ → Db → List Fault
  unfolding parent_fault
  parent_faults path namespace none db = []
  parent_faults path namespace (some q) db = parent_fault path namespace (row db q)

  unfoldable pub validate_hierarchy : Instance → Db → List Fault
  unfolding parent_faults
  validate_hierarchy self db =
      let path = path_to_str self.path in
      let components = split b'.' path in
      if is_empty path
      then no_path ∷ []
      else (if text_eq (last_label components) self.name then [] else name_mismatch ∷ [])
        ++ ((if eq_ℤ self.depth (pos (length components - 1)) then [] else depth_mismatch ∷ [])
            ++ parent_faults path self.namespace self.parent_id db)

split-plain : (s : Text) → Lacks dot s → split dot s ≡ s ∷ []
unfolding split
split-plain [] h = refl
split-plain (c ∷ s) h = elim (Bool-cases (c == dot)) [
  | inl same ↦ absurd (h.0 (ground arith))
  | inr other ↦ rw (other, split-plain s h.1)
]

-- A label added at the end is the last piece, and one piece more.
split-snoc :
    (p name : Text) → Lacks dot name → split dot (p ++ dot ∷ name) ≡ split dot p ++ name ∷ []
unfolding split
split-snoc [] name h = rw (split-plain name h)
split-snoc (c ∷ p) name h = elim (Bool-cases (c == dot)) [
  | inl same ↦ rw (same, split-snoc p name h)
  | inr other ↦ let (l, ls, e) = split-cons dot p in rw (other, split-snoc p name h, e)
]

last-snoc : (ls : List Text) (l : Text) → last_label (ls ++ l ∷ []) ≡ l
last-snoc [] l = refl
last-snoc (m ∷ []) l = refl
last-snoc (m ∷ k ∷ ls) l = last-snoc (k ∷ ls) l

module _ (orm : Orm Row row_pk) (db : orm.Db) (forest : IsForest orm db) where
  open orm use {row}

  pieces : Text → ℕ
  pieces path = length (split dot path)

  ends :
      (p name : Text) (d : ℤ)
      → Lacks dot name
      → d ≡ pos (length (split dot p) - 1)
      → d +ℤ pos 1 ≡ pos (length (split dot (p ++ dot ∷ name)) - 1)
  ends p name d plain level =
      let (l, ls, e) = split-cons dot p in
      rw (split-snoc p name plain, length-append (split dot p) (name ∷ []), level, e)
        (omega int_laws)

  -- In a forest the depth is the number of dots.
  depth_lem :
      (n k : ℕ) (r : Row)
      → length r.path < n
      → row db k ≡ some r
      → r.depth ≡ pos (length (split dot r.path) - 1)
  depth_lem zero k r h e = absurd (omega arith)
  depth_lem (suc n) k r h e = at (λ q p. depth_lem n q p) r.parent_id (forest.placed k r e)
    where
      at :
          ((q : ℕ) (p : Row)
            → length p.path < n
            → row db q ≡ some p
            → p.depth ≡ pos (length (split dot p.path) - 1))
          → (o : Option ℕ) → IsPlaced orm db r o
          → r.depth ≡ pos (length (split dot r.path) - 1)
      at above none (root, level) = rw (root, split-plain r.name (forest.plain k r e)) level
      at above (some q) (p, found, inside, path, level) =
          let short : length p.path < n =
            ground (arith, path, length-append p.path (dot ∷ r.name)) in
          level
          ∙ ends p.path r.name p.depth (forest.plain k r e) (above q p short found)
          ∙ ap (λ t. pos (length (split dot t) - 1)) (sym path)

  last_lem :
      (r : Row) (o : Option ℕ)
      → Lacks dot r.name
      → IsPlaced orm db r o
      → last_label (split dot r.path) ≡ r.name
  last_lem r none plain (root, _) = rw (root, split-plain r.name plain) refl
  last_lem r (some q) plain (p, _, _, path, _) =
      rw (path, split-snoc p.path r.name plain) (last-snoc (split dot p.path) r.name)

  parent_lem :
      (r : Row) (o : Option ℕ)
      → IsPlaced orm db r o
      → parent_faults orm r.path r.namespace o db ≡ []
  unfolding parent_faults parent_fault
  parent_lem r none placed = refl
  parent_lem r (some q) (p, found, inside, path, _) =
      let down : below r.path p.path ≡ true = (below_iff r.path p.path).1 (r.name, path) in
      rw (found, inside, text_eq_refl r.namespace, down) (ground arith)

  -- Every node of a forest that has a path passes the validation: its name is its last label, its
  -- depth counts the dots, and its parent is there with a path above its own.
  pub validate_hierarchy-IsForest :
      (k : ℕ) (r : Row)
      → row db k ≡ some r
      → r.path ≢ []
      → validate_hierarchy orm (loaded r) db ≡ []
  unfolding validate_hierarchy
  validate_hierarchy-IsForest k r e named =
      rw
        (
          path_to_str-loaded r,
          nonempty r.path named,
          last_lem r r.parent_id (forest.plain k r e) (forest.placed k r e),
          text_eq_refl r.name,
          depth_lem (suc (length r.path)) k r (omega arith) e,
          ==_refl (length (split dot r.path) - 1),
          parent_lem r r.parent_id (forest.placed k r e),
        )
        refl
    where
      nonempty : (t : Text) → t ≢ [] → is_empty t ≡ false
      nonempty [] h = absurd (h refl)
      nonempty (c ∷ t) h = refl
