-- ===== src/Expressions/Traversal/Bound.antt =====
-- The statements of src/tortoise_extended/expressions/graph_traversal.py, read by the lexer.
use tortoise_extended.Common.{
  refl, Option, none, some, List, [], ◌∷◌, ◌++◌, Text, codes, decimal, digits,
}
use tortoise_extended.Common.Int.{ℤ}
use tortoise_extended.Sql.Lexer.{scan, step, after, separated, tokens}
use tortoise_extended.Expressions.{Param, id_param, int_param, et_clause}
use tortoise_extended.Expressions.Placeholders.{placeholders}
use tortoise_extended.Expressions.Paths.Bound.{Fits, type_binding, fstring-Fits}
use tortoise_extended.Expressions.Traversal.Statements.{
  GraphTraversal, Direction, outgoing, incoming, both, ancestors_pieces, descendants_pieces,
  neighbors_pieces, cycle_pieces, edge_join, node_join,
}
use tortoise_extended.Expressions.Traversal.{
  ancestors_query, descendants_query, neighbors_query, has_cycle_query,
}

-- What stands within the quotes of a statement of `neighbors`.
abbrev pub neighbor_names : GraphTraversal → Direction → List Text
neighbor_names self outgoing =
    self.node_table ∷ self.edge_table ∷ self.source_field ∷ self.target_field ∷ self.node_table
    ∷ self.source_field ∷ self.target_field ∷ self.target_field ∷ self.source_field ∷ []
neighbor_names self incoming =
    self.node_table ∷ self.edge_table ∷ self.target_field ∷ self.source_field ∷ self.node_table
    ∷ self.target_field ∷ self.source_field ∷ self.source_field ∷ self.target_field ∷ []
neighbor_names self both =
    self.node_table ∷ self.edge_table ∷ self.source_field ∷ self.target_field ∷ self.node_table
    ∷ self.source_field ∷ self.target_field ∷ self.target_field ∷ self.source_field ∷ []

-- The placeholders of a walk from a node, where its bound and its last line read like this.
abbrev pub walk_bindings :
    {NodeId : Type 0} → Text → Text → NodeId → ℤ → Option Text → List (Text × Param NodeId)
walk_bindings bound last node_id depth edge_type =
    (codes "WHERE n.id = ", id_param node_id)
      ∷ (bound, int_param depth)
      ∷ type_binding (bound ++ codes "$2 AND e.edge_type = ") edge_type
    ++ (codes "AND n.id != ", id_param node_id) ∷ (last, id_param node_id) ∷ []

abbrev pub reach_bindings : {NodeId : Type 0} → ℤ → Option Text → List (Text × Param NodeId)
reach_bindings depth edge_type =
    type_binding (codes "WHERE e.edge_type = ") edge_type
    ++ (codes "WHERE r.depth < ", int_param depth)
      ∷ type_binding (codes "WHERE r.depth < $1 AND e.edge_type = ") edge_type

module _ {NodeId : Type 0} (self : GraphTraversal) (node_id : NodeId) (depth : ℤ) where
  abbrev n : Text
  n = self.node_table

  abbrev e : Text
  e = self.edge_table

  abbrev s : Text
  s = self.source_field

  abbrev t : Text
  t = self.target_field

  ancestors-Fits :
      (edge_type : Option Text)
      → Fits
          (walk_bindings
            (codes "WHERE a.path_depth < ")
            (codes "WHERE id != ")
            node_id
            depth
            edge_type)
          (n ∷ e ∷ t ∷ s ∷ n ∷ s ∷ t ∷ [])
          (ancestors_query self node_id depth edge_type)
  unfolding ancestors_query et_clause decimal digits ancestors_pieces tokens scan step separated
      after placeholders
  ancestors-Fits none =
      fstring-Fits (ancestors_pieces self []) ((ancestors_query self node_id depth none).1)
        (walk_bindings (codes "WHERE a.path_depth < ") (codes "WHERE id != ") node_id depth none)
        refl refl
  ancestors-Fits (some y) =
      fstring-Fits (ancestors_pieces self (codes "AND e.edge_type = $3"))
        ((ancestors_query self node_id depth (some y)).1)
        (walk_bindings (codes "WHERE a.path_depth < ") (codes "WHERE id != ") node_id depth
          (some y))
        refl refl

  descendants-Fits :
      (edge_type : Option Text)
      → Fits
          (walk_bindings
            (codes "WHERE d.path_depth < ")
            (codes "WHERE id != ")
            node_id
            depth
            edge_type)
          (n ∷ e ∷ s ∷ t ∷ n ∷ t ∷ s ∷ [])
          (descendants_query self node_id depth edge_type)
  unfolding descendants_query et_clause decimal digits descendants_pieces tokens scan step separated
      after placeholders
  descendants-Fits none =
      fstring-Fits (descendants_pieces self []) ((descendants_query self node_id depth none).1)
        (walk_bindings (codes "WHERE d.path_depth < ") (codes "WHERE id != ") node_id depth none)
        refl refl
  descendants-Fits (some y) =
      fstring-Fits (descendants_pieces self (codes "AND e.edge_type = $3"))
        ((descendants_query self node_id depth (some y)).1)
        (walk_bindings (codes "WHERE d.path_depth < ") (codes "WHERE id != ") node_id depth
          (some y))
        refl refl

  has_cycle-Fits :
      (edge_type : Option Text)
      → Fits
          (reach_bindings depth edge_type)
          (s ∷ t ∷ e ∷ s ∷ t ∷ s ∷ e ∷ s ∷ t ∷ [])
          (has_cycle_query {NodeId = NodeId} self edge_type depth)
  unfolding has_cycle_query et_clause decimal digits cycle_pieces tokens scan step separated after
      placeholders
  has_cycle-Fits none =
      fstring-Fits (cycle_pieces self none [])
        ((has_cycle_query {NodeId = NodeId} self none depth).1) (reach_bindings depth none) refl
        refl
  has_cycle-Fits (some y) =
      fstring-Fits (cycle_pieces self (some y) (codes "AND e.edge_type = $2"))
        ((has_cycle_query {NodeId = NodeId} self (some y) depth).1) (reach_bindings depth (some y))
        refl refl

  neighbors-Fits :
      (direction : Direction) (edge_type : Option Text)
      → Fits
          (walk_bindings
            (codes "WHERE b.hops < ")
            (codes "FROM bfs WHERE id != ")
            node_id
            depth
            edge_type)
          (neighbor_names self direction)
          (neighbors_query self node_id direction edge_type depth)
  unfolding neighbors_query et_clause decimal digits neighbors_pieces edge_join node_join tokens
      scan step separated after placeholders
  neighbors-Fits outgoing none =
      fstring-Fits (neighbors_pieces self outgoing [])
        ((neighbors_query self node_id outgoing none depth).1)
        (walk_bindings (codes "WHERE b.hops < ") (codes "FROM bfs WHERE id != ") node_id depth none)
        refl refl
  neighbors-Fits outgoing (some y) =
      fstring-Fits (neighbors_pieces self outgoing (codes "AND e.edge_type = $3"))
        ((neighbors_query self node_id outgoing (some y) depth).1)
        (walk_bindings (codes "WHERE b.hops < ") (codes "FROM bfs WHERE id != ") node_id depth
          (some y))
        refl refl
  neighbors-Fits incoming none =
      fstring-Fits (neighbors_pieces self incoming [])
        ((neighbors_query self node_id incoming none depth).1)
        (walk_bindings (codes "WHERE b.hops < ") (codes "FROM bfs WHERE id != ") node_id depth none)
        refl refl
  neighbors-Fits incoming (some y) =
      fstring-Fits (neighbors_pieces self incoming (codes "AND e.edge_type = $3"))
        ((neighbors_query self node_id incoming (some y) depth).1)
        (walk_bindings (codes "WHERE b.hops < ") (codes "FROM bfs WHERE id != ") node_id depth
          (some y))
        refl refl
  neighbors-Fits both none =
      fstring-Fits (neighbors_pieces self both [])
        ((neighbors_query self node_id both none depth).1)
        (walk_bindings (codes "WHERE b.hops < ") (codes "FROM bfs WHERE id != ") node_id depth none)
        refl refl
  neighbors-Fits both (some y) =
      fstring-Fits (neighbors_pieces self both (codes "AND e.edge_type = $3"))
        ((neighbors_query self node_id both (some y) depth).1)
        (walk_bindings (codes "WHERE b.hops < ") (codes "FROM bfs WHERE id != ") node_id depth
          (some y))
        refl refl

  -- The placeholders of the statements of the traversal, with and without an edge type and in
  -- every direction, are these and stand for these parameters: the node that the walk starts from
  -- and never lists, the bound on its depth, and the edge type if there is one, each behind the
  -- comparison that it belongs to. Within the quotes stand the tables and the fields, unchanged.
  pub traversals-Fits :
      (direction : Direction) (edge_type : Option Text)
      → Fits
          (walk_bindings
            (codes "WHERE a.path_depth < ")
            (codes "WHERE id != ")
            node_id
            depth
            edge_type)
          (n ∷ e ∷ t ∷ s ∷ n ∷ s ∷ t ∷ [])
          (ancestors_query self node_id depth edge_type)
        × Fits
            (walk_bindings
              (codes "WHERE d.path_depth < ")
              (codes "WHERE id != ")
              node_id
              depth
              edge_type)
            (n ∷ e ∷ s ∷ t ∷ n ∷ t ∷ s ∷ [])
            (descendants_query self node_id depth edge_type)
        × Fits
            (walk_bindings
              (codes "WHERE b.hops < ")
              (codes "FROM bfs WHERE id != ")
              node_id
              depth
              edge_type)
            (neighbor_names self direction)
            (neighbors_query self node_id direction edge_type depth)
        × Fits {NodeId = NodeId}
            (reach_bindings depth edge_type)
            (s ∷ t ∷ e ∷ s ∷ t ∷ s ∷ e ∷ s ∷ t ∷ [])
            (has_cycle_query self edge_type depth)
  traversals-Fits direction edge_type = (
    ancestors-Fits edge_type,
    descendants-Fits edge_type,
    neighbors-Fits direction edge_type,
    has_cycle-Fits edge_type,
  )
