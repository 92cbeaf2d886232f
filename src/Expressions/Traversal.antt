-- ===== src/Expressions/Traversal.antt =====
-- `GraphTraversal` of src/tortoise_extended/expressions/graph_traversal.py: its statements and the
-- parameters that go with them.
pub mod Statements
pub mod Bound
use tortoise_extended.Common.{
  ℕ, Bool, Outcome, Option, none, some, List, [], ◌∷◌, ◌++◌, map, Text, codes, text_eq,
  if◌then◌else◌,
}
use tortoise_extended.Common.Actions.{Act, pure, throw, and_then}
use tortoise_extended.Common.Int.{ℤ}
use tortoise_extended.Sql.{fstring}
use tortoise_extended.Expressions.{
  Model, Param, id_param, int_param, text_param, GraphFailure, unsupported_direction, foreign,
  et_clause, validate_edge_fields,
}
use tortoise_extended.Expressions.Traversal.Statements.{
  GraphTraversal, Direction, direction_of, ancestors_pieces, descendants_pieces, neighbors_pieces,
  cycle_pieces,
}

module _ {NodeId : Type 0} (self : GraphTraversal) where
  unfoldable pub ancestors_query : NodeId → ℤ → Option Text → Text × List (Param NodeId)
  unfolding et_clause
  ancestors_query node_id max_depth edge_type =
      let (et, et_params) = et_clause edge_type 3 in
      (
        fstring (ancestors_pieces self et),
        id_param node_id ∷ int_param max_depth ∷ map text_param et_params,
      )

  unfoldable pub descendants_query : NodeId → ℤ → Option Text → Text × List (Param NodeId)
  unfolding et_clause
  descendants_query node_id max_depth edge_type =
      let (et, et_params) = et_clause edge_type 3 in
      (
        fstring (descendants_pieces self et),
        id_param node_id ∷ int_param max_depth ∷ map text_param et_params,
      )

  unfoldable pub neighbors_query : NodeId → Direction → Option Text → ℤ → Text × List (Param NodeId)
  unfolding et_clause
  neighbors_query node_id direction edge_type max_depth =
      let (et, et_params) = et_clause edge_type 3 in
      (
        fstring (neighbors_pieces self direction et),
        id_param node_id ∷ int_param max_depth ∷ map text_param et_params,
      )

  unfoldable pub has_cycle_query : Option Text → ℤ → Text × List (Param NodeId)
  unfolding et_clause
  has_cycle_query edge_type max_depth =
      let (et, et_params) = et_clause edge_type 2 in
      (fstring (cycle_pieces self edge_type et), int_param max_depth ∷ map text_param et_params)

-- The driver, `dict(row)`, and `bool(results[0]["has_cycle"])`.
module _ {NodeId Db E Row Dict : Type 0}
    (execute_query : Text → List (Param NodeId) → Act Db E (ℕ × List Row)) (dict : Row → Dict)
    (cycle_flag : List Row → Outcome E Bool) where
  -- `__init__`
  unfoldable pub traversal : Model → Model → Text → Text → Act Db (GraphFailure E) GraphTraversal
  traversal node_model edge_model source_field target_field =
      and_then (validate_edge_fields edge_model source_field target_field) λ _. pure (record {
        node_table = node_model.db_table;
        edge_table = edge_model.db_table;
        source_field = source_field;
        target_field = target_field;
      })

  abbrev pub ask : Text × List (Param NodeId) → Act Db (GraphFailure E) (ℕ × List Row)
  ask (sql, params) db = foreign (execute_query sql params db)

  abbrev pub dicts : Text × List (Param NodeId) → Act Db (GraphFailure E) (List Dict)
  dicts query = and_then (ask query) λ answer. pure (map dict answer.1)

  unfoldable pub ancestors :
      GraphTraversal → NodeId → ℤ → Option Text → Act Db (GraphFailure E) (List Dict)
  ancestors self node_id max_depth edge_type =
      dicts (ancestors_query self node_id max_depth edge_type)

  unfoldable pub descendants :
      GraphTraversal → NodeId → ℤ → Option Text → Act Db (GraphFailure E) (List Dict)
  descendants self node_id max_depth edge_type =
      dicts (descendants_query self node_id max_depth edge_type)

  abbrev pub neighbors_in :
      GraphTraversal
      → NodeId
      → Text
      → Option Direction
      → Option Text
      → ℤ
      → Act Db (GraphFailure E) (List Dict)
  neighbors_in self node_id name none edge_type max_depth = throw (unsupported_direction name)
  neighbors_in self node_id name (some direction) edge_type max_depth =
      dicts (neighbors_query self node_id direction edge_type max_depth)

  unfoldable pub neighbors :
      GraphTraversal → NodeId → Text → Option Text → ℤ → Act Db (GraphFailure E) (List Dict)
  neighbors self node_id direction edge_type max_depth =
      neighbors_in self node_id direction (direction_of direction) edge_type max_depth

  unfoldable pub has_cycle : GraphTraversal → Option Text → ℤ → Act Db (GraphFailure E) Bool
  has_cycle self edge_type max_depth =
      and_then (ask (has_cycle_query self edge_type max_depth))
        λ answer after. foreign (cycle_flag answer.1, after)
