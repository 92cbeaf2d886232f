-- ===== src/Models/Hierarchy/Query.antt =====
-- The tree queries of models/hierarchy_model.py. A query set is the test that its filters make; its
-- ordering is left out.
use tortoise_extended.Common.{
  ℕ, ◌≡◌, refl, sym, ap, ◌∙◌, ◌≢◌, Bool, true, false, not, ◌&&◌, ◌||◌, Option, none, some, List, [],
  ◌∷◌, ◌++◌, map, Text, codes, text_eq, text_eq_iff, join, split, any, ◌==◌, if◌then◌else◌, arith,
}
use tortoise_extended.Common.Int.{eq_ℤ}
use tortoise_extended.Models.Orm.{Orm, Postgres}
use tortoise_extended.Models.Hierarchy.{Row, Instance, row_pk, loaded, path_to_str, is_empty}
use tortoise_extended.Models.Hierarchy.Paths.{
  dot, below, below_iff, ne-below_self, path_to_str-loaded,
}
use tortoise_extended.Models.Hierarchy.Forest.{IsForest, IsPlaced}

abbrev scope : Option Text → Text → Text
scope none own = own
scope (some given) own = given

abbrev opt_eq : Option ℕ → ℕ → Bool
opt_eq none k = false
opt_eq (some j) k = j == k

module _ (pg : Postgres) where
  -- `get_ancestors`: `path @> own`
  unfoldable pub get_ancestors : Instance → Bool → Option Text → Row → Bool
  get_ancestors self include_self namespace r =
      if is_empty (path_to_str self.path)
      then false
      else pg.descendant_of (path_to_str self.path) r.path
        && text_eq r.namespace (scope namespace self.namespace)
        && (include_self || not (r.pk == self.pk))

  -- `get_descendants`: `path <@ own`
  unfoldable pub get_descendants : Instance → Bool → Option Text → Row → Bool
  get_descendants self include_self namespace r =
      if is_empty (path_to_str self.path)
      then false
      else pg.descendant_of r.path (path_to_str self.path)
        && text_eq r.namespace (scope namespace self.namespace)
        && (include_self || not (r.pk == self.pk))

-- `get_children`
unfoldable pub get_children : Instance → Row → Bool
get_children self r = opt_eq r.parent_id self.pk

-- `get_siblings`
unfoldable pub get_siblings : Instance → Bool → Row → Bool
get_siblings self include_self r = elim self.parent_id [
  | none ↦ false
  | some q ↦
      opt_eq r.parent_id q && eq_ℤ r.depth self.depth && (include_self || not (r.pk == self.pk))
]

abbrev first_label : List Text → Text
first_label [] = []
first_label (l ∷ _) = l

-- `get_root`: the instance itself if its path is one label; else the row that the lookup by path and
-- namespace finds, which is an argument.
pub data Root : Type 0 where
  no_root itself : Root
  looked_up : Text → Text → Root

unfoldable pub get_root : Instance → Root
get_root self =
    let path = path_to_str self.path in
    if is_empty path
    then no_root
    else if not (any (λ c. c == b'.') path)
    then itself
    else looked_up (first_label (split b'.' path)) self.namespace

-- The paths that `get_path_to_root` asks for: one for each prefix of the labels.
prefixes : List Text → List (List Text)
prefixes [] = []
prefixes (l ∷ ls) = (l ∷ []) ∷ map (λ p. l ∷ p) (prefixes ls)

unfoldable pub ancestor_paths : Instance → List Text
unfolding prefixes
ancestor_paths self = map (λ p. join (codes ".") p) (prefixes (split b'.' (path_to_str self.path)))

-- Of two stored nodes with paths, in one namespace, one is an ancestor of the other exactly when the
-- other is a descendant of the first.
pub get_ancestors-get_descendants :
    (pg : Postgres) (a d : Row)
    → a.path ≢ []
    → d.path ≢ []
    → a.namespace ≡ d.namespace
    → get_ancestors pg (loaded d) false none a ≡ get_descendants pg (loaded a) false none d
unfolding get_ancestors get_descendants
get_ancestors-get_descendants pg a d p q e =
    rw (path_to_str-loaded a, path_to_str-loaded d)
      (ground (
        arith,
        nonempty a.path p,
        nonempty d.path q,
        text_eq_iff a.namespace d.namespace,
        text_eq_iff d.namespace a.namespace,
      ))
  where
    nonempty : (t : Text) → t ≢ [] → is_empty t ≡ false
    nonempty [] h = absurd (h refl)
    nonempty (c ∷ t) h = refl

-- In a forest, a child by the parent column is a descendant by the paths: the two views of the tree
-- agree.
pub get_children-get_descendants :
    (pg : Postgres) (orm : Orm Row row_pk) (db : orm.Db) (k : ℕ) (s r : Row)
    → IsForest orm db
    → orm.row db s.pk ≡ some s
    → orm.row db k ≡ some r
    → s.path ≢ []
    → get_children (loaded s) r ≡ true
    → get_descendants pg (loaded s) false none r ≡ true
unfolding get_children get_descendants
get_children-get_descendants pg orm db k s r forest here e named child =
    via r.parent_id refl (forest.placed k r e)
  where
    nonempty : (t : Text) → t ≢ [] → is_empty t ≡ false
    nonempty [] h = absurd (h refl)
    nonempty (c ∷ t) h = refl

    via :
        (o : Option ℕ)
        → r.parent_id ≡ o
        → IsPlaced orm db r o
        → get_descendants pg (loaded s) false none r ≡ true
    via none h placed = absurd (ground arith)
    via (some q) h (p, found, inside, path, _) =
        let at : q ≡ s.pk = ground arith in
        let it : p ≡ s = ground arith in
        let down : below r.path s.path ≡ true =
          (below_iff r.path s.path).1 (r.name, path ∙ ap (λ x. x.path ++ dot ∷ r.name) it) in
        let same : r.namespace ≡ s.namespace = sym inside ∙ ap (λ x. x.namespace) it in
        let other : r.pk ≢ s.pk = λ eq.
          let self : r ≡ s = ground (arith, forest.keyed k r e) in
          ne-below_self s.path r.name
            (sym (ap (λ x. x.path) self) ∙ path ∙ ap (λ x. x.path ++ dot ∷ r.name) it) in
        rw (path_to_str-loaded s, nonempty s.path named, pg.descendant_of_lem)
          (ground (arith, text_eq_iff r.namespace s.namespace))
