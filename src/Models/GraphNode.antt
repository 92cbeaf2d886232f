-- ===== src/Models/GraphNode.antt =====
-- models/graph_node.py (under src/tortoise_extended): `BaseGraphNode`, with the counter of children
-- that `save` and `delete` keep. The mapper's statements are a parameter.
pub mod Counters
pub mod Save
pub mod Walk
pub mod Subtree
mod Tests
use tortoise_extended.Common.{
  ℕ, suc, ◌≡◌, Bool, true, false, not, ◌&&◌, ◌||◌, Option, none, some, List, [], ◌∷◌, map, any,
  keep, length, Text, codes, text_eq, ◌==◌, if◌then◌else◌, Outcome, ok, raised, ◌>>=◌,
}
use tortoise_extended.Common.Int.{ℤ, pos, negsuc, ◌+ℤ◌, ◌-ℤ◌, eq_ℤ, is_positive}

pub record GraphNode : Type 0 where
  pub pk : ℕ
  pub name : Text
  pub parent_id : Option ℕ
  pub depth : ℤ
  pub child_count : ℤ
  pub namespace : Text

pub data GraphError : Type 0 where
  children_remain dangling_parent integrity : GraphError

-- `INSERT`, `UPDATE` of one row with the named columns (all for `none`), `filter(test).update(…)`,
-- and `DELETE` of one row.
pub record Statements : Type 1 where
  pub Db : Type 0
  pub rows : Db → List GraphNode
  pub insert : GraphNode → Db → Outcome GraphError Db
  pub write : Option (List Text) → GraphNode → Db → Outcome GraphError Db
  pub update : (GraphNode → Bool) → (GraphNode → GraphNode) → Db → Db
  pub remove : ℕ → Db → Outcome GraphError Db

-- `is_leaf`
pub is_leaf : GraphNode → Bool
is_leaf n = eq_ℤ n.child_count (pos 0)

abbrev pub opt_eq : Option ℕ → ℕ → Bool
opt_eq none k = false
opt_eq (some j) k = j == k

-- The row with a key.
abbrev pub find : ℕ → List GraphNode → Option GraphNode
find k [] = none
find k (r ∷ rs) = let rest = find k rs in if r.pk == k then some r else rest

-- `update(child_count=F("child_count") + d)` on the row with a key
abbrev pub bump : ℤ → GraphNode → GraphNode
bump d r = record r { child_count = r.child_count +ℤ d }

abbrev pub names_parent : Option (List Text) → Bool
names_parent none = true
names_parent (some fields) = any (λ f. text_eq f (codes "parent_id")) fields

module _ (st : Statements) where
  open st use {Db}

  unfoldable pub count_at : ℤ → Option ℕ → Db → Db
  count_at d none db = db
  count_at d (some k) db = st.update (λ r. r.pk == k) (bump d) db

  -- `_previous_parent_id`
  unfoldable pub previous_parent_id : GraphNode → Db → Option ℕ
  previous_parent_id self db = elim (find self.pk (st.rows db)) [
    | none ↦ none
    | some r ↦ r.parent_id
  ]

  abbrev pub is_create : Bool → Option (List Text) → Bool → Bool → Bool
  is_create already_saved update_fields force_create force_update = elim update_fields [
    | none ↦ force_create || (not already_saved && not force_update)
    | some _ ↦ force_create
  ]

  -- `save`: the write, then the counters. An insert or a write that raises ends it.
  unfoldable pub save :
      GraphNode → Bool → Option (List Text) → Bool → Bool → Db → Outcome GraphError Db
  save self already_saved update_fields force_create force_update db =
      let old = previous_parent_id self db in
      if is_create already_saved update_fields force_create force_update
      then st.insert self db >>= (λ db. ok (count_at (pos 1) self.parent_id db))
      else st.write update_fields self db >>= (λ db. ok (
          if names_parent update_fields
          then count_at (pos 1) self.parent_id (count_at (negsuc 0) old db)
          else db))

  -- `delete`; the flag is `_block_orphan_delete`.
  unfoldable pub delete : Bool → GraphNode → Db → Outcome GraphError Db
  delete block_orphan_delete self db =
      let remaining = length (keep (λ r. opt_eq r.parent_id self.pk) (st.rows db)) in
      if block_orphan_delete && not (remaining == 0)
      then raised children_remain
      else st.remove self.pk db >>= (λ db. ok (count_at (negsuc 0) self.parent_id db))

-- The tests of the queries; their orderings are left out.
unfoldable pub children : GraphNode → GraphNode → Bool
children self r = opt_eq r.parent_id self.pk

abbrev gt_ℤ : ℤ → ℤ → Bool
gt_ℤ a b = is_positive (a -ℤ b)

abbrev max_or : Option ℤ → ℤ
max_or none = pos 1000
max_or (some d) = d

unfoldable pub descendants : GraphNode → Option ℤ → GraphNode → Bool
descendants self max_depth r =
    text_eq r.namespace self.namespace
    && gt_ℤ r.depth self.depth
    && not (gt_ℤ r.depth (self.depth +ℤ max_or max_depth))

unfoldable pub ancestors : GraphNode → GraphNode → Bool
ancestors self r = text_eq r.namespace self.namespace && gt_ℤ self.depth r.depth

-- `filter(parent_id=None)` is `IS NULL`.
abbrev same_parent : Option ℕ → Option ℕ → Bool
same_parent none none = true
same_parent (some j) (some k) = j == k
same_parent _ _ = false

unfoldable pub siblings : GraphNode → GraphNode → Bool
siblings self r = same_parent r.parent_id self.parent_id && not (r.pk == self.pk)
