-- ===== src/Expressions/Paths/Bound.antt =====
-- The statements of src/tortoise_extended/expressions/pathfinding.py, read by the lexer: their
-- placeholders, and what stands within their quotes.
use tortoise_extended.Common.{
  ◌≡◌, refl, Option, none, some, List, [], ◌∷◌, ◌++◌, Text, codes, decimal, digits, true,
}
use tortoise_extended.Common.Int.{ℤ}
use tortoise_extended.Sql.Lexer.{lex, scan, step, after, separated, tokens}
use tortoise_extended.Sql.Templates.{arguments, template, fstring-Fills}
use tortoise_extended.Sql.{Piece, fstring}
use tortoise_extended.Expressions.{Model, Param, id_param, int_param, text_param, et_clause}
use tortoise_extended.Expressions.Placeholders.{AreBound, placeholders}
use tortoise_extended.Expressions.Paths.Statements.{
  shortest_pieces, all_pieces, cycle_pieces, walk_cte,
}
use tortoise_extended.Expressions.Paths.{
  Query, shortest_query, all_query, cycle_query, limit_clause,
}

-- The statement goes with its parameters: its placeholders stand for these, each behind these words
-- of its line. Within its quotes stand these names.
abbrev pub Fits : {NodeId : Type 0} → List (Text × Param NodeId) → List Text → Query NodeId → Type 0
Fits bindings names (sql, params) =
    AreBound (template (lex sql)) params bindings × (arguments (lex sql) ≡ names)

-- The edge type takes part if there is one, and so does a bound.
abbrev pub type_binding : {NodeId : Type 0} → Text → Option Text → List (Text × Param NodeId)
type_binding line none = []
type_binding line (some e) = (line, text_param e) ∷ []

abbrev pub limit_binding : {NodeId : Type 0} → Text → Option ℤ → List (Text × Param NodeId)
limit_binding line none = []
limit_binding line (some n) = (line, int_param n) ∷ []

abbrev pub shortest_bindings :
    {NodeId : Type 0} → NodeId → NodeId → ℤ → Option Text → List (Text × Param NodeId)
shortest_bindings from to hops edge_type =
    (codes "WHERE n.id = ", id_param from)
      ∷ (codes "WHERE p.hops < ", int_param hops)
      ∷ type_binding (codes "AND e.edge_type = ") edge_type
    ++ (codes "WHERE id = ", id_param to) ∷ []

abbrev pub all_bindings :
    {NodeId : Type 0} → NodeId → NodeId → ℤ → ℤ → Option Text → List (Text × Param NodeId)
all_bindings from to hops paths edge_type =
    shortest_bindings from to hops edge_type ++ (codes "LIMIT ", int_param paths) ∷ []

abbrev pub cycle_bindings :
    {NodeId : Type 0} → ℤ → Option Text → Option ℤ → List (Text × Param NodeId)
cycle_bindings depth edge_type cycles =
    (codes "WHERE w.depth < ", int_param depth)
      ∷ type_binding (codes "WHERE w.depth < $1 AND e.edge_type = ") edge_type
    ++ limit_binding (codes "LIMIT ") cycles

abbrev pub walk_names : Text → Text → Text → Text → List Text
walk_names n e s t = n ∷ e ∷ s ∷ t ∷ n ∷ s ∷ t ∷ t ∷ s ∷ []

pub fstring-Fits :
    {NodeId : Type 0} (pieces : List Piece) (params : List (Param NodeId))
    (bindings : List (Text × Param NodeId))
    → separated pieces ≡ true
    → AreBound (template (tokens pieces)) params bindings
    → Fits bindings (arguments (tokens pieces)) (fstring pieces, params)
fstring-Fits pieces params bindings h b =
    let (form, names) = fstring-Fills pieces h in (rw form b, names)

module _ {NodeId : Type 0} (node_model edge_model : Model) (from to : NodeId) (hops paths : ℤ)
    (s t : Text) where
  abbrev n : Text
  n = node_model.db_table

  abbrev e : Text
  e = edge_model.db_table

  shortest-Fits :
      (edge_type : Option Text)
      → Fits
          (shortest_bindings from to hops edge_type)
          (walk_names n e s t)
          (shortest_query node_model edge_model from to hops edge_type s t)
  unfolding shortest_query et_clause decimal digits shortest_pieces walk_cte tokens scan step
      separated after placeholders
  shortest-Fits none =
      fstring-Fits (shortest_pieces n e s t [])
        ((shortest_query node_model edge_model from to hops none s t).1)
        (shortest_bindings from to hops none) refl refl
  shortest-Fits (some y) =
      fstring-Fits (shortest_pieces n e s t (codes "AND e.edge_type = $4"))
        ((shortest_query node_model edge_model from to hops (some y) s t).1)
        (shortest_bindings from to hops (some y)) refl refl

  all-Fits :
      (edge_type : Option Text)
      → Fits
          (all_bindings from to hops paths edge_type)
          (walk_names n e s t)
          (all_query node_model edge_model from to hops paths edge_type s t)
  unfolding all_query et_clause decimal digits all_pieces walk_cte tokens scan step separated after
      placeholders
  all-Fits none =
      fstring-Fits (all_pieces n e s t [])
        ((all_query node_model edge_model from to hops paths none s t).1)
        (all_bindings from to hops paths none) refl refl
  all-Fits (some y) =
      fstring-Fits (all_pieces n e s t (codes "AND e.edge_type = $5"))
        ((all_query node_model edge_model from to hops paths (some y) s t).1)
        (all_bindings from to hops paths (some y)) refl refl

  cycle-Fits :
      (edge_type : Option Text) (cycles : Option ℤ)
      → Fits {NodeId = NodeId}
          (cycle_bindings hops edge_type cycles)
          (walk_names n e s t)
          (cycle_query node_model edge_model hops edge_type s t cycles)
  unfolding cycle_query et_clause limit_clause decimal digits cycle_pieces tokens scan step
      separated after placeholders
  cycle-Fits none none =
      fstring-Fits (cycle_pieces n e s t [] [])
        ((cycle_query {NodeId = NodeId} node_model edge_model hops none s t none).1)
        (cycle_bindings hops none none) refl refl
  cycle-Fits none (some c) =
      fstring-Fits (cycle_pieces n e s t [] (codes "\n        LIMIT $2"))
        ((cycle_query {NodeId = NodeId} node_model edge_model hops none s t (some c)).1)
        (cycle_bindings hops none (some c)) refl refl
  cycle-Fits (some y) none =
      fstring-Fits (cycle_pieces n e s t (codes "AND e.edge_type = $2") [])
        ((cycle_query {NodeId = NodeId} node_model edge_model hops (some y) s t none).1)
        (cycle_bindings hops (some y) none) refl refl
  cycle-Fits (some y) (some c) =
      fstring-Fits
        (cycle_pieces n e s t (codes "AND e.edge_type = $2") (codes "\n        LIMIT $3"))
        ((cycle_query {NodeId = NodeId} node_model edge_model hops (some y) s t (some c)).1)
        (cycle_bindings hops (some y) (some c)) refl refl

  -- The placeholders of the statements of `shortest_path`, `all_paths` and `find_cycles`, with and
  -- without an edge type and a bound on the cycles, are these and stand for these parameters: the
  -- start of a walk, the bound on its hops or its depth, the edge type if there is one, the end of
  -- the path, and the bound on the paths or the cycles if there is one, each behind the comparison
  -- or the LIMIT that it belongs to. Within the quotes stand the tables and the fields, unchanged.
  pub queries-Fits :
      (edge_type : Option Text) (cycles : Option ℤ)
      → Fits
          (shortest_bindings from to hops edge_type)
          (walk_names n e s t)
          (shortest_query node_model edge_model from to hops edge_type s t)
        × Fits
            (all_bindings from to hops paths edge_type)
            (walk_names n e s t)
            (all_query node_model edge_model from to hops paths edge_type s t)
        × Fits {NodeId = NodeId}
            (cycle_bindings hops edge_type cycles)
            (walk_names n e s t)
            (cycle_query node_model edge_model hops edge_type s t cycles)
  queries-Fits edge_type cycles =
      (shortest-Fits edge_type, all-Fits edge_type, cycle-Fits edge_type cycles)
