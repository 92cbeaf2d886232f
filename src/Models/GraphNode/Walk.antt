-- ===== src/Models/GraphNode/Walk.antt =====
-- models/graph_node.py (under src/tortoise_extended): `path_to_root`, which follows `parent_id` row
-- by row. The loop runs on fuel; two rounds more than there are rows are enough.
pub mod Ends
pub mod Chain
mod Tests
use tortoise_extended.Common.{
  ℕ, zero, suc, ◌+◌, Bool, true, false, Option, none, some, List, [], ◌∷◌, ◌++◌, any, length, ltb,
  ◌==◌, if◌then◌else◌, Outcome, ok, raised,
}
use tortoise_extended.Common.Int.{ℤ, pos_part, neg_part}
use tortoise_extended.Models.GraphNode.{GraphNode, GraphError, dangling_parent, find}

-- `a < b`
abbrev pub lt_ℤ : ℤ → ℤ → Bool
lt_ℤ a b = ltb (pos_part a + neg_part b) (pos_part b + neg_part a)

-- `sorted(path, key=lambda n: n.depth)`, which keeps the order of equal keys.
unfoldable pub insert_node : GraphNode → List GraphNode → List GraphNode
insert_node n [] = n ∷ []
insert_node n (m ∷ ms) =
    let rest = insert_node n ms in if lt_ℤ m.depth n.depth then m ∷ rest else n ∷ m ∷ ms

unfoldable pub sorted_by_depth : List GraphNode → List GraphNode
unfolding insert_node
sorted_by_depth [] = []
sorted_by_depth (n ∷ ns) = insert_node n (sorted_by_depth ns)

abbrev pub is_visited : List ℕ → ℕ → Bool
is_visited visited k = any (λ j. j == k) visited

module _ (rows : List GraphNode) where
  -- The `while` loop; `none` is out of fuel.
  unfoldable pub walk :
      ℕ → List GraphNode → List ℕ → GraphNode → Option (Outcome GraphError (List GraphNode))
  walk zero path visited current = none
  walk (suc fuel) path visited current = elim (is_visited visited current.pk) [
    | true ↦ some (ok path)
    | false ↦ elim current.parent_id [
      | none ↦ some (ok (path ++ current ∷ []))
      | some p ↦ elim (find p rows) [
        | none ↦ some (raised dangling_parent)
        | some parent ↦ walk fuel (path ++ current ∷ []) (current.pk ∷ visited) parent
      ]
    ]
  ]

  abbrev pub sorted_path :
      Option (Outcome GraphError (List GraphNode)) → Option (Outcome GraphError (List GraphNode))
  sorted_path none = none
  sorted_path (some (ok path)) = some (ok (sorted_by_depth path))
  sorted_path (some (raised e)) = some (raised e)

  unfoldable pub path_to_root : GraphNode → Option (Outcome GraphError (List GraphNode))
  unfolding walk
  path_to_root self = sorted_path (walk (suc (suc (length rows))) [] [] self)
