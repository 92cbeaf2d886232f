-- ===== src/Expressions/Tests.antt =====
-- Instances of the theorems on the statements of src/tortoise_extended/expressions.
use tortoise_extended.Common.{ℕ, some, [], ◌∷◌, codes}
use tortoise_extended.Common.Int.{pos}
use tortoise_extended.Expressions.{Model}
use tortoise_extended.Expressions.Paths.{shortest_query, all_query, cycle_query}
use tortoise_extended.Expressions.Paths.Bound.{
  Fits, walk_names, shortest_bindings, all_bindings, cycle_bindings, queries-Fits,
}
use tortoise_extended.Expressions.Traversal.Statements.{GraphTraversal, outgoing}
use tortoise_extended.Expressions.Traversal.{
  ancestors_query, descendants_query, neighbors_query, has_cycle_query,
}
use tortoise_extended.Expressions.Traversal.Bound.{
  neighbor_names, walk_bindings, reach_bindings, traversals-Fits,
}

abbrev nodes : Model
nodes = record { db_table = codes "no\"de"; fields_map = codes "id" ∷ [] }

abbrev edges : Model
edges = record { db_table = codes "edge"; fields_map = codes "s" ∷ codes "t" ∷ [] }

queries-Fits_example :
    Fits {NodeId = ℕ}
      (shortest_bindings 1 2 (pos 6) (some (codes "knows")))
      (walk_names (codes "no\"de") (codes "edge") (codes "s") (codes "t"))
      (shortest_query nodes edges 1 2 (pos 6) (some (codes "knows")) (codes "s") (codes "t"))
    × Fits {NodeId = ℕ}
        (all_bindings 1 2 (pos 6) (pos 10) (some (codes "knows")))
        (walk_names (codes "no\"de") (codes "edge") (codes "s") (codes "t"))
        (all_query nodes edges 1 2 (pos 6) (pos 10) (some (codes "knows")) (codes "s") (codes "t"))
    × Fits {NodeId = ℕ}
        (cycle_bindings (pos 6) (some (codes "knows")) (some (pos 100)))
        (walk_names (codes "no\"de") (codes "edge") (codes "s") (codes "t"))
        (cycle_query nodes edges
          (pos 6)
          (some (codes "knows"))
          (codes "s")
          (codes "t")
          (some (pos 100)))
queries-Fits_example =
    queries-Fits nodes edges 1 2 (pos 6) (pos 10) (codes "s") (codes "t") (some (codes "knows"))
      (some (pos 100))

abbrev walker : GraphTraversal
walker = record {
  node_table = codes "no\"de";
  edge_table = codes "edge";
  source_field = codes "s";
  target_field = codes "t";
}

traversals-Fits_example :
    Fits {NodeId = ℕ}
      (walk_bindings
        (codes "WHERE a.path_depth < ")
        (codes "WHERE id != ")
        1
        (pos 3)
        (some (codes "knows")))
      (walker.node_table ∷ walker.edge_table ∷ walker.target_field ∷ walker.source_field
        ∷ walker.node_table ∷ walker.source_field ∷ walker.target_field ∷ [])
      (ancestors_query walker 1 (pos 3) (some (codes "knows")))
    × Fits {NodeId = ℕ}
        (walk_bindings
          (codes "WHERE d.path_depth < ")
          (codes "WHERE id != ")
          1
          (pos 3)
          (some (codes "knows")))
        (walker.node_table ∷ walker.edge_table ∷ walker.source_field ∷ walker.target_field
          ∷ walker.node_table ∷ walker.target_field ∷ walker.source_field ∷ [])
        (descendants_query walker 1 (pos 3) (some (codes "knows")))
    × Fits {NodeId = ℕ}
        (walk_bindings
          (codes "WHERE b.hops < ")
          (codes "FROM bfs WHERE id != ")
          1
          (pos 3)
          (some (codes "knows")))
        (neighbor_names walker outgoing)
        (neighbors_query walker 1 outgoing (some (codes "knows")) (pos 3))
    × Fits {NodeId = ℕ}
        (reach_bindings (pos 3) (some (codes "knows")))
        (walker.source_field ∷ walker.target_field ∷ walker.edge_table ∷ walker.source_field
          ∷ walker.target_field ∷ walker.source_field ∷ walker.edge_table ∷ walker.source_field
          ∷ walker.target_field ∷ [])
        (has_cycle_query walker (some (codes "knows")) (pos 3))
traversals-Fits_example = traversals-Fits walker 1 (pos 3) outgoing (some (codes "knows"))
