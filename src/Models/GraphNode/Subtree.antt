-- ===== src/Models/GraphNode/Subtree.antt =====
-- models/graph_node.py (under src/tortoise_extended): `subtree`, a breadth-first search over the
-- rows. The loop runs on fuel; one round more than there are rows is enough. `order` is the ordering
-- of a query's rows by name, which the database does.
pub mod Ends
pub mod Holds
pub mod Closed
mod Tests
use tortoise_extended.Common.{
  ℕ, zero, suc, Bool, true, Option, none, some, List, [], ◌∷◌, ◌++◌, keep, length, if◌then◌else◌,
}
use tortoise_extended.Common.Int.{ℤ, ◌+ℤ◌}
use tortoise_extended.Models.GraphNode.{GraphNode, children}
use tortoise_extended.Models.GraphNode.Walk.{lt_ℤ, is_visited}

-- `result`, `queue` and `visited`
pub record Search : Type 0 where
  pub result : List GraphNode
  pub queue : List GraphNode
  pub visited : List ℕ

-- `max_depth is None or child.depth < self.depth + max_depth`
abbrev pub goes_on : GraphNode → Option ℤ → GraphNode → Bool
goes_on self none child = true
goes_on self (some max_depth) child = lt_ℤ child.depth (self.depth +ℤ max_depth)

module _ (order : List GraphNode → List GraphNode) (rows : List GraphNode) (self : GraphNode)
    (max_depth : Option ℤ) where
  -- The body of the loop over the children, for a child that is not visited.
  abbrev pub visit : GraphNode → Search → Search
  visit child s = record {
    result = s.result ++ child ∷ [];
    queue = if goes_on self max_depth child then s.queue ++ child ∷ [] else s.queue;
    visited = child.pk ∷ s.visited;
  }

  unfoldable pub scan : List GraphNode → Search → Search
  scan [] s = s
  scan (child ∷ found) s = scan found (if is_visited s.visited child.pk then s else visit child s)

  abbrev pub round : GraphNode → List GraphNode → Search → Search
  round current rest s = scan (order (keep (children current) rows)) (record s { queue = rest })

  -- The `while` loop; `none` is out of fuel.
  unfoldable pub loop : ℕ → Search → Option (List GraphNode)
  unfolding scan
  loop zero s = elim s.queue [ [] ↦ some s.result | _ ∷ _ ↦ none ]
  loop (suc fuel) s = elim s.queue [
    | [] ↦ some s.result
    | current ∷ rest ↦ loop fuel (round current rest s)
  ]

  abbrev pub initial : Search
  initial = record { result = self ∷ []; queue = self ∷ []; visited = self.pk ∷ [] }

  unfoldable pub subtree : Option (List GraphNode)
  unfolding loop
  subtree = loop (suc (length rows)) initial
