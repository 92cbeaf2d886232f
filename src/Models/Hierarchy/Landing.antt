-- ===== src/Models/Hierarchy/Landing.antt =====
-- A move in a forest of models/hierarchy_model.py: where each row lands, and that the table that the
-- two updates leave is a forest again.
use mathlib.Core.Option
use mathlib.Core.List.{append_cancel_left}
use tortoise_extended.Common.{
  ℕ, ◌≡◌, refl, sym, ap, subst, ◌∙◌, ◌≢◌, ◌⊎◌, inl, inr, true, false, Option, none, some, ◌∷◌, ◌++◌,
  [], append_assoc, append-nil, Text, text_eq_refl, Lacks, Bool-cases, arith,
}
use tortoise_extended.Common.Int.{pos, ◌+ℤ◌, int_laws}
use tortoise_extended.Models.Orm.{Orm, Postgres}
use tortoise_extended.Models.Hierarchy.{Row, row_pk, loaded, moved_db}
use tortoise_extended.Models.Hierarchy.Paths.{
  dot, below, below_iff, parent_cases, Lacks-ne-below, ne-below_self,
}
use tortoise_extended.Models.Hierarchy.Forest.{
  under, IsPlaced, IsForest, target, shift, Moved, rewritten, row-moved_db, rewritten-Moved,
}

module _ (orm : Orm Row row_pk) (pg : Postgres) (s n : Row) where
  open orm use {Db, row}

  -- Nothing of the namespace stands at or below the path that the node gets, unless it moves too.
  abbrev pub IsFree : Db → Type 0
  IsFree db =
      (k : ℕ) (r : Row)
      → row db k ≡ some r
      → r.namespace ≡ s.namespace
      → under r.path (target orm pg s n) ≡ true
      → under r.path s.path ≡ true

  module _ (db : Db) (forest : IsForest orm db) (here : row db s.pk ≡ some s)
      (there : row db n.pk ≡ some n) (same_namespace : n.namespace ≡ s.namespace)
      (apart : n.pk ≢ s.pk) (outside : below n.path s.path ≡ false) (free : IsFree db) where
    abbrev pub db' : Db
    db' = moved_db pg orm (loaded s) (loaded n) db

    abbrev pub Mv : Row → Row → Type 0
    Mv = Moved orm pg s n

    distinct :
        (k : ℕ) (r : Row)
        → row db k ≡ some r
        → r.path ≡ s.path
        → r.namespace ≡ s.namespace
        → r.pk ≡ s.pk
    distinct k r e p q = forest.keyed k r e ∙ forest.unique k s.pk r s e here q p

    forward : (k : ℕ) (r : Row) → row db k ≡ some r → (r' : Row) × (row db' k ≡ some r') × Mv r r'
    forward k r e = (
      rewritten orm pg s n r,
      row-moved_db orm pg s n db k ∙ ap (Option.map (rewritten orm pg s n)) e,
      rewritten-Moved orm pg s n r (distinct k r e),
    )

    backward : (k : ℕ) (r' : Row) → row db' k ≡ some r' → (r : Row) × (row db k ≡ some r) × Mv r r'
    backward k r' e =
        let (r, found, same) =
          (Option.map-eq-some_iff _ (row db k)).0 (sym (row-moved_db orm pg s n db k) ∙ e) in
        (r, found, subst (Mv r) same (rewritten-Moved orm pg s n r (distinct k r found)))

    -- A row that is neither the node nor below it stays as it is.
    stays :
        (k : ℕ) (r : Row)
        → row db k ≡ some r
        → r.pk ≢ s.pk
        → (r.namespace ≡ s.namespace → below r.path s.path ≡ false)
        → row db' k ≡ some r
    stays k r e other beside =
        let (r', found, m) = forward k r e in
        elim m [
          | inl (same, _) ↦ absurd (other same)
          | inr (inl (rest, p, q, _, _)) ↦
              let down : below r.path s.path ≡ true = (below_iff r.path s.path).1 (rest, p) in
              absurd (ground (arith, beside q))
          | inr (inr (_, same, _)) ↦ found ∙ ap some same
        ]

    -- The new parent stays where it is.
    target_parent : row db' n.pk ≡ some n
    target_parent = stays n.pk n there apart (λ _. outside)

    -- The node itself, after the move.
    abbrev pub s' : Row
    s' = record s { path = target orm pg s n; parent_id = some n.pk; depth = n.depth +ℤ pos 1 }

    pub moved_self : row db' s.pk ≡ some s'
    moved_self =
        let (r', found, m) = forward s.pk s here in
        elim m [
          | inl (_, change) ↦ found ∙ ap some change
          | inr (inl (_, _, _, other, _)) ↦ absurd (other refl)
          | inr (inr (other, _, _)) ↦ absurd (other refl)
        ]

    is_self : (k : ℕ) (r : Row) → row db k ≡ some r → r.pk ≡ s.pk → r ≡ s
    is_self k r e same = ground (arith, forest.keyed k r e)

    -- A row below the node, after the move.
    moved_below :
        (k : ℕ) (r : Row) (rest : Text)
        → row db k ≡ some r
        → r.path ≡ s.path ++ dot ∷ rest
        → r.namespace ≡ s.namespace
        → row db' k
          ≡ some (record r {
            path = target orm pg s n ++ dot ∷ rest;
            depth = r.depth +ℤ shift orm pg s n;
          })
    moved_below k r rest e p q =
        let (r', found, m) = forward k r e in
        elim m [
          | inl (same, _) ↦
              absurd (ne-below_self s.path rest (sym (ap (λ x. x.path) (is_self k r e same)) ∙ p))
          | inr (inl (rest', p', _, _, change)) ↦
              let eq : rest' ≡ rest = cc (append_cancel_left s.path _ _ (sym p' ∙ p)) in
              rw (← eq) (found ∙ ap some change)
          | inr (inr (_, _, beside)) ↦
              let down : below r.path s.path ≡ true = (below_iff r.path s.path).1 (rest, p) in
              absurd (ground (arith, beside q))
        ]

    -- The parent of a row that lies below the node: the node, or another row below it.
    IsPlaced-below :
        (r : Row) (rest : Text) (o : Option ℕ)
        → r.path ≡ s.path ++ dot ∷ rest
        → r.namespace ≡ s.namespace
        → Lacks dot r.name
        → IsPlaced orm db r o
        → IsPlaced orm db'
            (record r {
              path = target orm pg s n ++ dot ∷ rest;
              depth = r.depth +ℤ shift orm pg s n;
            })
            o
    IsPlaced-below r rest none e same plain (root, _) =
        absurd (Lacks-ne-below r.name s.path rest plain (sym root ∙ e))
    IsPlaced-below r rest (some q) e same plain (p, found, inside, path, depth) =
        elim (parent_cases p.path s.path r.name rest plain (sym path ∙ e)) [
          | inl (at, last) ↦
              let at_self : q ≡ s.pk = forest.unique q s.pk p s found here (inside ∙ same) at in
              let it : p ≡ s = ground arith in
              let level : r.depth ≡ s.depth +ℤ pos 1 = depth ∙ ap (λ x. x.depth +ℤ pos 1) it in
              (s', rw at_self moved_self, sym same, rw last, rw level (omega int_laws))
          | inr (rest', above, last) ↦ (
            record p {
              path = target orm pg s n ++ dot ∷ rest';
              depth = p.depth +ℤ shift orm pg s n;
            },
            moved_below q p rest' found above (inside ∙ same),
            inside,
            rw last (sym (append_assoc (target orm pg s n) (dot ∷ rest') (dot ∷ r.name))),
            rw depth (omega int_laws),
          )
        ]

    -- The parent of a row that does not move does not move.
    IsPlaced-beside :
        (k : ℕ) (r : Row) (o : Option ℕ)
        → row db k ≡ some r
        → (r.namespace ≡ s.namespace → under r.path s.path ≡ false)
        → IsPlaced orm db r o
        → IsPlaced orm db' r o
    IsPlaced-beside k r none e beside placed = placed
    IsPlaced-beside k r (some q) e beside (p, found, inside, path, depth) =
        (p, stays q p found parent_other parent_beside, inside, path, depth)
      where
        never : (rest : Text) → p.namespace ≡ s.namespace → p.path ≢ s.path ++ dot ∷ rest
        never rest h at =
            let down : below r.path s.path ≡ true = (below_iff r.path s.path).1 (
              rest ++ dot ∷ r.name,
              path ∙ ap (λ t. t ++ dot ∷ r.name) at ∙ append_assoc s.path (dot ∷ rest) _,
            ) in
            absurd (ground (arith, beside (sym inside ∙ h)))

        parent_beside : p.namespace ≡ s.namespace → below p.path s.path ≡ false
        parent_beside h = elim (Bool-cases (below p.path s.path)) [
          | inl down ↦ let (rest, at) = (below_iff p.path s.path).0 down in absurd (never rest h at)
          | inr aside ↦ aside
        ]

        parent_other : p.pk ≢ s.pk
        parent_other same =
            let it : p ≡ s = is_self q p found same in
            let down : below r.path s.path ≡ true =
              (below_iff r.path s.path).1 (r.name, path ∙ ap (λ x. x.path ++ dot ∷ r.name) it) in
            absurd (ground (arith, beside (sym inside ∙ ap (λ x. x.namespace) it)))

    IsPlaced-moved :
        (k : ℕ) (r r' : Row) → row db k ≡ some r → Mv r r' → IsPlaced orm db' r' r'.parent_id
    IsPlaced-moved k r r' e (inl (same, change)) =
        let it : r ≡ s = ground (arith, forest.keyed k r e) in
        subst (λ x. IsPlaced orm db' x x.parent_id) (sym change)
          (n, target_parent, ground arith, ground arith, refl)
    IsPlaced-moved k r r' e (inr (inl (rest, p, q, _, change))) =
        subst (λ x. IsPlaced orm db' x x.parent_id) (sym change)
          (IsPlaced-below r rest r.parent_id p q (forest.plain k r e) (forest.placed k r e))
    IsPlaced-moved k r r' e (inr (inr (_, same, beside))) =
        subst (λ x. IsPlaced orm db' x x.parent_id) (sym same)
          (IsPlaced-beside k r r.parent_id e beside (forest.placed k r e))

    -- Where a row lands: with the node, its path keeps what followed the node's path; or in place.
    Lands : Row → Row → Type 0
    Lands r r' =
        ((tail : Text) × (r'.path ≡ target orm pg s n ++ tail)
          × (r.path ≡ s.path ++ tail)
          × (r.namespace ≡ s.namespace)
          × (under r'.path (target orm pg s n) ≡ true))
        ⊎ ((r' ≡ r) × (r.namespace ≡ s.namespace → under r.path s.path ≡ false))

    lands : (k : ℕ) (r r' : Row) → row db k ≡ some r → Mv r r' → Lands r r'
    unfolding Lands
    lands k r r' e (inl (same, change)) =
        let it : r ≡ s = is_self k r e same in
        let at : r'.path ≡ target orm pg s n = ap (λ x. x.path) change in
        inl (
          [],
          at ∙ sym (append-nil _),
          ap (λ x. x.path) it ∙ sym (append-nil _),
          ap (λ x. x.namespace) it,
          rw (at, text_eq_refl),
        )
    lands k r r' e (inr (inl (rest, p, q, _, change))) =
        let at : r'.path ≡ target orm pg s n ++ dot ∷ rest = ap (λ x. x.path) change in
        let down : below r'.path (target orm pg s n) ≡ true = (below_iff _ _).1 (rest, at) in
        inl (dot ∷ rest, at, p, q, ground arith)
    lands k r r' e (inr (inr (_, same, beside))) = inr (same, beside)

    Moved-namespace : (r r' : Row) → Mv r r' → r'.namespace ≡ r.namespace
    Moved-namespace r r' (inl (_, change)) = ap (λ x. x.namespace) change
    Moved-namespace r r' (inr (inl (_, _, _, _, change))) = ap (λ x. x.namespace) change
    Moved-namespace r r' (inr (inr (_, same, _))) = ap (λ x. x.namespace) same

    Moved-name : (r r' : Row) → Mv r r' → r'.name ≡ r.name
    Moved-name r r' (inl (_, change)) = ap (λ x. x.name) change
    Moved-name r r' (inr (inl (_, _, _, _, change))) = ap (λ x. x.name) change
    Moved-name r r' (inr (inr (_, same, _))) = ap (λ x. x.name) same

    Moved-pk : (r r' : Row) → Mv r r' → r'.pk ≡ r.pk
    Moved-pk r r' (inl (_, change)) = ap (λ x. x.pk) change
    Moved-pk r r' (inr (inl (_, _, _, _, change))) = ap (λ x. x.pk) change
    Moved-pk r r' (inr (inr (_, same, _))) = ap (λ x. x.pk) same

    -- A row in place does not meet a row that landed.
    no_meeting :
        (j : ℕ) (t : Row) (path : Text)
        → row db j ≡ some t
        → t.namespace ≡ s.namespace
        → under path (target orm pg s n) ≡ true
        → path ≡ t.path
        → (t.namespace ≡ s.namespace → under t.path s.path ≡ false)
        → ⊥
    no_meeting j t path f q landed e beside =
        let hit : under t.path (target orm pg s n) ≡ true = rw e at landed in
        absurd (ground (arith, free j t f q hit, beside q))

    unique-Lands :
        (k j : ℕ) (r t r' t' : Row)
        → row db k ≡ some r
        → row db j ≡ some t
        → r.namespace ≡ t.namespace
        → r'.path ≡ t'.path
        → Lands r r'
        → Lands t t'
        → k ≡ j
    unfolding Lands
    unique-Lands k j r t r' t' e f p q (inl (tail, a, b, c, _)) (inl (tail', a', b', _, _)) =
        let eq : tail ≡ tail' = append_cancel_left (target orm pg s n) _ _ (sym a ∙ q ∙ a') in
        forest.unique k j r t e f p (b ∙ ap (λ x. s.path ++ x) eq ∙ sym b')
    unique-Lands k j r t r' t' e f p q (inl (tail, a, b, c, landed)) (inr (same, beside)) =
        absurd (no_meeting j t r'.path f (sym p ∙ c) landed (q ∙ ap (λ x. x.path) same) beside)
    unique-Lands k j r t r' t' e f p q (inr (same, beside)) (inl (tail, a, b, c, landed)) =
        absurd (no_meeting k r t'.path e (p ∙ c) landed (sym q ∙ ap (λ x. x.path) same) beside)
    unique-Lands k j r t r' t' e f p q (inr (same, _)) (inr (same', _)) =
        forest.unique k j r t e f p (sym (ap (λ x. x.path) same) ∙ q ∙ ap (λ x. x.path) same')

    -- After the two updates the table is a forest again.
    pub moved_db-IsForest : IsForest orm db'
    moved_db-IsForest = record {
      keyed = λ k r' e. let (r, f, m) = backward k r' e in Moved-pk r r' m ∙ forest.keyed k r f;
      plain =
          λ k r' e. let (r, f, m) = backward k r' e in rw (Moved-name r r' m) (forest.plain k r f);
      placed = λ k r' e. let (r, f, m) = backward k r' e in IsPlaced-moved k r r' f m;
      unique = λ k j r' t' e g p q.
          let (r, f, m) = backward k r' e in
          let (t, h, o) = backward j t' g in
          unique-Lands k j r t r' t' f h (sym (Moved-namespace r r' m) ∙ p ∙ Moved-namespace t t' o)
            q (lands k r r' f m) (lands j t t' h o);
    }
