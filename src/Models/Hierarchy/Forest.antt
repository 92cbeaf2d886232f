-- ===== src/Models/Hierarchy/Forest.antt =====
-- When a table is a forest of label paths, and what the two updates of `move_to` in
-- models/hierarchy_model.py do to each of its rows.
use mathlib.Core.Option
use tortoise_extended.Common.{
  ℕ, ◌≡◌, refl, ap, ◌∙◌, ◌≢◌, ◌⊎◌, inl, inr, Bool, false, not, ◌&&◌, ◌||◌, Option, none, some, ◌∷◌,
  ◌++◌, Text, text_eq, text_eq_iff, Lacks, drop, drop-append, length, ◌==◌, if◌then◌else◌,
  Bool-cases, arith,
}
use tortoise_extended.Common.Int.{ℤ, pos, ◌+ℤ◌, ◌-ℤ◌}
use tortoise_extended.Models.Orm.{Orm, Postgres}
use tortoise_extended.Models.Hierarchy.{
  Row, row_pk, loaded, place_self, place_below, is_below, moved_db,
}
use tortoise_extended.Models.Hierarchy.Paths.{dot, below, below_iff, path_to_str-loaded}

-- The path is the ancestor's or lies below it.
abbrev pub under : Text → Text → Bool
under path ancestor = text_eq path ancestor || below path ancestor

module _ (orm : Orm Row row_pk) where
  open orm use {Db, row, update, row-update}

  -- A root's path is its name, at depth 0; any other node's path is its parent's with its own name
  -- added, one level deeper, in the same namespace.
  abbrev pub IsPlaced : Db → Row → Option ℕ → Type 0
  IsPlaced db r none = (r.path ≡ r.name) × (r.depth ≡ pos 0)
  IsPlaced db r (some q) =
      (p : Row) × (row db q ≡ some p)
      × (p.namespace ≡ r.namespace)
      × (r.path ≡ p.path ++ dot ∷ r.name)
      × (r.depth ≡ p.depth +ℤ pos 1)

  pub record IsForest (db : Db) : Type 0 where
    pub keyed : (k : ℕ) (r : Row) → row db k ≡ some r → r.pk ≡ k
    pub plain : (k : ℕ) (r : Row) → row db k ≡ some r → Lacks dot r.name
    pub placed : (k : ℕ) (r : Row) → row db k ≡ some r → IsPlaced db r r.parent_id
    -- Paths are unique within a namespace.
    pub unique :
        (k j : ℕ) (r s : Row)
        → row db k ≡ some r
        → row db j ≡ some s
        → r.namespace ≡ s.namespace
        → r.path ≡ s.path
        → k ≡ j

  module _ (pg : Postgres) (s n : Row) where
    abbrev pub target : Text
    target = n.path ++ dot ∷ s.name

    abbrev pub shift : ℤ
    shift = n.depth -ℤ s.depth +ℤ pos 1

    -- The moved node; a node below it; any other node.
    abbrev pub Moved : Row → Row → Type 0
    Moved r r' =
        ((r.pk ≡ s.pk)
          × (r' ≡ record r { path = target; parent_id = some n.pk; depth = n.depth +ℤ pos 1 }))
        ⊎ ((rest : Text) × (r.path ≡ s.path ++ dot ∷ rest)
            × (r.namespace ≡ s.namespace)
            × (r.pk ≢ s.pk)
            × (r' ≡ record r { path = target ++ dot ∷ rest; depth = r.depth +ℤ shift }))
        ⊎ ((r.pk ≢ s.pk) × (r' ≡ r) × (r.namespace ≡ s.namespace → under r.path s.path ≡ false))

    place_self-loaded :
        (r : Row)
        → place_self pg (loaded s) (loaded n) r
          ≡ record r { path = target; parent_id = some n.pk; depth = n.depth +ℤ pos 1 }
    unfolding place_self
    place_self-loaded r = rw (path_to_str-loaded n)

    is_below-loaded :
        (r : Row)
        → is_below pg (loaded s) r
          ≡ (under r.path s.path && text_eq r.namespace s.namespace && not (r.pk == s.pk))
    unfolding is_below
    is_below-loaded r = rw (path_to_str-loaded s, pg.descendant_of_lem)

    place_below-loaded :
        (r : Row) (rest : Text)
        → r.path ≡ s.path ++ dot ∷ rest
        → place_below pg (loaded s) (loaded n) r
          ≡ record r { path = target ++ dot ∷ rest; depth = r.depth +ℤ shift }
    unfolding place_below
    place_below-loaded r rest e =
        rw (path_to_str-loaded s, path_to_str-loaded n, pg.substring_from_lem)
          (ap (λ t. record r { path = target ++ t; depth = r.depth +ℤ shift })
            (ap (drop (length s.path)) e ∙ drop-append s.path (dot ∷ rest)))

    -- What the two updates make of one row.
    pub rewritten : Row → Row
    rewritten r =
        let r1 = if r.pk == s.pk then place_self pg (loaded s) (loaded n) r else r in
        if is_below pg (loaded s) r1 then place_below pg (loaded s) (loaded n) r1 else r1

    pub row-moved_db :
        (db : Db) (k : ℕ)
        → row (moved_db pg orm (loaded s) (loaded n) db) k ≡ Option.map rewritten (row db k)
    unfolding moved_db rewritten place_self place_below
    row-moved_db db k =
        row-update (is_below pg (loaded s)) (place_below pg (loaded s) (loaded n)) _ (λ r. refl) k
        ∙ ap
            (Option.map
              (λ r. if is_below pg (loaded s) r then place_below pg (loaded s) (loaded n) r else r))
            (row-update (λ r. r.pk == s.pk) (place_self pg (loaded s) (loaded n)) db (λ r. refl) k)
        ∙ Option.map-map _ _ (row db k)

    below_or_beside :
        (r : Row)
        → (r.pk == s.pk) ≡ false
        → (r.path ≡ s.path → r.namespace ≡ s.namespace → r.pk ≡ s.pk)
        → Moved r (if is_below pg (loaded s) r then place_below pg (loaded s) (loaded n) r else r)
    below_or_beside r other distinct = elim (Bool-cases (is_below pg (loaded s) r)) [
      | inl yes_below ↦
          let (rest, e) : (rest : Text) × (r.path ≡ s.path ++ dot ∷ rest) =
            (below_iff r.path s.path).0 (
              ground (
                arith,
                is_below-loaded r,
                text_eq_iff r.path s.path,
                text_eq_iff r.namespace s.namespace,
              )) in
          inr (
            inl (
              rest,
              e,
              ground (arith, is_below-loaded r, text_eq_iff r.namespace s.namespace),
              ground arith,
              rw yes_below (place_below-loaded r rest e),
            ))
      | inr not_below ↦ inr (
          inr (
            ground arith,
            rw not_below,
            λ e. ground (arith, is_below-loaded r, text_eq_iff r.namespace s.namespace),
          ))
    ]

    -- The rewriting as one of three cases.
    pub rewritten-Moved :
        (r : Row)
        → (r.path ≡ s.path → r.namespace ≡ s.namespace → r.pk ≡ s.pk)
        → Moved r (rewritten r)
    unfolding rewritten
    rewritten-Moved r distinct = elim (Bool-cases (r.pk == s.pk)) [
      | inl same ↦
          let r1 : Row = record r {
            path = target;
            parent_id = some n.pk;
            depth = n.depth +ℤ pos 1;
          } in
          let not_below : is_below pg (loaded s) r1 ≡ false = ground (arith, is_below-loaded r1) in
          inl (ground arith, rw (same, place_self-loaded r, not_below))
      | inr other ↦ rw other (below_or_beside r other distinct)
    ]
