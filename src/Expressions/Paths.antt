-- ===== src/Expressions/Paths.antt =====
-- `shortest_path`, `all_paths` and `find_cycles` of src/tortoise_extended/expressions/pathfinding.py:
-- their statements, the parameters that go with them, and the rows that come back.
pub mod Statements
pub mod Bound
use tortoise_extended.Common.{
  ℕ, suc, ◌+◌, Bool, true, false, Option, none, some, List, [], ◌∷◌, ◌++◌, map, length, Text, codes,
  decimal,
}
use tortoise_extended.Common.Actions.{Act, pure, and_then}
use tortoise_extended.Common.Int.{ℤ}
use tortoise_extended.Sql.{fstring}
use tortoise_extended.Expressions.{
  Model, Param, id_param, int_param, text_param, GraphFailure, foreign, et_clause,
  validate_edge_fields,
}
use tortoise_extended.Expressions.Paths.Statements.{shortest_pieces, all_pieces, cycle_pieces}

-- A row with its two arrays.
pub record PathRow (NodeId : Type 0) : Type 0 where
  pub path_ids : List NodeId
  pub path_names : List Text

abbrev pub zip : {A B : Type 0} → List A → List B → List (A × B)
zip [] bs = []
zip (a ∷ xs) [] = []
zip (a ∷ xs) (b ∷ bs) = (a, b) ∷ zip xs bs

-- `xs[:-1]`
abbrev pub without_last : {A : Type 0} → List A → List A
without_last [] = []
without_last (a ∷ []) = []
without_last (a ∷ b ∷ xs) = a ∷ without_last (b ∷ xs)

unfoldable pub path_from_row : {NodeId : Type 0} → PathRow NodeId → Bool → List (NodeId × Text)
path_from_row row false = zip row.path_ids row.path_names
path_from_row row true = zip (without_last row.path_ids) (without_last row.path_names)

-- `f"\n        LIMIT ${2 + len(et_params)}"`, if there is a bound on the cycles.
unfoldable pub limit_clause : Option ℤ → List Text → Text
limit_clause none et_params = []
limit_clause (some max_cycles) et_params =
    codes "\n        LIMIT $" ++ decimal (2 + length et_params)

abbrev pub limit_params : {NodeId : Type 0} → Option ℤ → List (Param NodeId)
limit_params none = []
limit_params (some max_cycles) = int_param max_cycles ∷ []

-- A statement with its parameters.
abbrev pub Query : Type 0 → Type 0
Query NodeId = Text × List (Param NodeId)

module _ {NodeId : Type 0} (node_model edge_model : Model) where
  unfoldable pub shortest_query : NodeId → NodeId → ℤ → Option Text → Text → Text → Query NodeId
  unfolding et_clause
  shortest_query from_id to_id max_hops edge_type source_field target_field =
      let (et, et_params) = et_clause edge_type 4 in
      (
        fstring
            (shortest_pieces node_model.db_table edge_model.db_table source_field target_field et),
        id_param from_id ∷ int_param max_hops ∷ id_param to_id ∷ map text_param et_params,
      )

  unfoldable pub all_query : NodeId → NodeId → ℤ → ℤ → Option Text → Text → Text → Query NodeId
  unfolding et_clause
  all_query from_id to_id max_hops max_paths edge_type source_field target_field =
      let (et, et_params) = et_clause edge_type 5 in
      (
        fstring (all_pieces node_model.db_table edge_model.db_table source_field target_field et),
        id_param from_id
            ∷ int_param max_hops
            ∷ id_param to_id
            ∷ int_param max_paths
            ∷ map text_param et_params,
      )

  unfoldable pub cycle_query : ℤ → Option Text → Text → Text → Option ℤ → Query NodeId
  unfolding et_clause limit_clause
  cycle_query max_depth edge_type source_field target_field max_cycles =
      let (et, et_params) = et_clause edge_type 2 in
      (
        fstring (
            cycle_pieces node_model.db_table edge_model.db_table source_field target_field et
              (limit_clause max_cycles et_params)),
        int_param max_depth ∷ map text_param et_params ++ limit_params max_cycles,
      )

-- `_, results = await conn.execute_query(sql, params)`
module _ {NodeId Db E : Type 0}
    (execute_query : Text → List (Param NodeId) → Act Db E (ℕ × List (PathRow NodeId))) where
  abbrev pub results : Query NodeId → Act Db (GraphFailure E) (ℕ × List (PathRow NodeId))
  results (sql, params) db = foreign (execute_query sql params db)

  abbrev pub first_path : List (PathRow NodeId) → Option (List (NodeId × Text))
  first_path [] = none
  first_path (row ∷ rows) = some (path_from_row row false)

  unfoldable pub shortest_path :
      Model
      → Model
      → NodeId
      → NodeId
      → ℤ
      → Option Text
      → Text
      → Text
      → Act Db (GraphFailure E) (Option (List (NodeId × Text)))
  shortest_path node_model edge_model from_id to_id max_hops edge_type source_field target_field =
      and_then (validate_edge_fields edge_model source_field target_field) λ _.
        and_then
          (results (
            shortest_query node_model edge_model from_id to_id max_hops edge_type source_field
              target_field))
          λ found. pure (first_path found.1)

  unfoldable pub all_paths :
      Model
      → Model
      → NodeId
      → NodeId
      → ℤ
      → ℤ
      → Option Text
      → Text
      → Text
      → Act Db (GraphFailure E) (List (List (NodeId × Text)))
  all_paths node_model edge_model from_id to_id max_hops max_paths edge_type source_field
        target_field =
      and_then (validate_edge_fields edge_model source_field target_field) λ _.
        and_then
          (results (
            all_query node_model edge_model from_id to_id max_hops max_paths edge_type source_field
              target_field))
          λ found. pure (map (λ row. path_from_row row false) found.1)

  unfoldable pub find_cycles :
      Model
      → Model
      → ℤ
      → Option Text
      → Text
      → Text
      → Option ℤ
      → Act Db (GraphFailure E) (List (List (NodeId × Text)))
  find_cycles node_model edge_model max_depth edge_type source_field target_field max_cycles =
      and_then (validate_edge_fields edge_model source_field target_field) λ _.
        and_then
          (results (
            cycle_query node_model edge_model max_depth edge_type source_field target_field
              max_cycles))
          λ found. pure (map (λ row. path_from_row row true) found.1)
