-- ===== src/Models/GraphNode/Subtree/Tests.antt =====
-- Runs of `subtree` of models/graph_node.py on a table with a cycle, and the instance of its theorem.
use tortoise_extended.Common.{ℕ, ◌≡◌, refl, true, Option, none, some, List, [], ◌∷◌, codes, All}
use tortoise_extended.Common.Int.{pos, ◌+ℤ◌}
use tortoise_extended.Models.GraphNode.{GraphNode, children}
use tortoise_extended.Models.GraphNode.Subtree.{subtree, loop, scan}
use tortoise_extended.Models.GraphNode.Subtree.Holds.{holds}
use tortoise_extended.Models.GraphNode.Subtree.Closed.{Descendant, subtree-Descendant}

abbrev leaf : ℕ → Option ℕ → ℕ → GraphNode
leaf k parent depth = record {
  pk = k;
  name = codes "n";
  parent_id = parent;
  depth = pos depth;
  child_count = pos 0;
  namespace = codes "default";
}

-- Two is the parent of three, three that of two and of four; five is apart.
abbrev knot : List GraphNode
knot = leaf 2 (some 3) 0 ∷ leaf 3 (some 2) 1 ∷ leaf 4 (some 3) 2 ∷ leaf 5 none 0 ∷ []

abbrev as_is : List GraphNode → List GraphNode
as_is xs = xs

knot_test :
    subtree as_is knot (leaf 2 (some 3) 0) none
    ≡ some (leaf 2 (some 3) 0 ∷ leaf 3 (some 2) 1 ∷ leaf 4 (some 3) 2 ∷ [])
unfolding subtree loop scan children
knot_test = refl

bounded_test :
    subtree as_is knot (leaf 2 (some 3) 0) (some (pos 1))
    ≡ some (leaf 2 (some 3) 0 ∷ leaf 3 (some 2) 1 ∷ [])
unfolding subtree loop scan children ◌+ℤ◌
bounded_test = refl

subtree-Descendant_example :
    (result : List GraphNode) × (subtree as_is knot (leaf 2 (some 3) 0) none ≡ some result)
    × All (Descendant knot (leaf 2 (some 3) 0)) result
    × ((r : GraphNode) → Descendant knot (leaf 2 (some 3) 0) r → holds result r.pk ≡ true)
subtree-Descendant_example =
    subtree-Descendant as_is knot (leaf 2 (some 3) 0) (λ P xs. ((λ h. h), (λ h. h)))
