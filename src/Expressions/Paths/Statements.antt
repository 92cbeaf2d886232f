-- ===== src/Expressions/Paths/Statements.antt =====
-- The statements of src/tortoise_extended/expressions/pathfinding.py.
use tortoise_extended.Common.{List, [], ◌∷◌, ◌++◌, Text, codes}
use tortoise_extended.Sql.{Piece, text, ident}

-- `_walk_cte`
unfoldable pub walk_cte : Text → Text → Text → Text → Text → List Piece
walk_cte node_table edge_table source_field target_field et =
    text (
      codes
        "\n        WITH RECURSIVE paths AS (\n            SELECT\n                n.id, n.name, n.depth,\n                ARRAY[n.id] AS path_ids,\n                ARRAY[n.name::text] AS path_names,\n                0 AS hops\n            FROM ")
    ∷ ident node_table
    ∷ text (
        codes
          " n\n            WHERE n.id = $1\n\n            UNION\n\n            SELECT\n                n.id, n.name, n.depth,\n                p.path_ids || n.id,\n                p.path_names || n.name,\n                p.hops + 1\n            FROM paths p\n            JOIN ")
    ∷ ident edge_table
    ∷ text (codes " e ON (\n                e.")
    ∷ ident source_field
    ∷ text (codes " = p.id\n                OR (e.is_bidirectional AND e.")
    ∷ ident target_field
    ∷ text (codes " = p.id)\n            )\n            JOIN ")
    ∷ ident node_table
    ∷ text (codes " n ON (\n                (e.")
    ∷ ident source_field
    ∷ text (codes " = p.id AND n.id = e.")
    ∷ ident target_field
    ∷ text (codes ")\n                OR (e.is_bidirectional AND e.")
    ∷ ident target_field
    ∷ text (codes " = p.id AND n.id = e.")
    ∷ ident source_field
    ∷ text (
        codes
          ")\n            )\n            WHERE p.hops < $2\n            AND NOT (n.id = ANY(p.path_ids))\n            ")
    ∷ text et
    ∷ text (codes "\n        )\n    ")
    ∷ []

unfoldable pub shortest_pieces : Text → Text → Text → Text → Text → List Piece
unfolding walk_cte
shortest_pieces node_table edge_table source_field target_field et =
    text (codes "\n        ") ∷ walk_cte node_table edge_table source_field target_field et
    ++ text (
        codes
          "\n        SELECT path_ids, path_names, hops\n        FROM paths\n        WHERE id = $3\n        ORDER BY hops\n        LIMIT 1\n    ")
      ∷ []

unfoldable pub all_pieces : Text → Text → Text → Text → Text → List Piece
unfolding walk_cte
all_pieces node_table edge_table source_field target_field et =
    text (codes "\n        ") ∷ walk_cte node_table edge_table source_field target_field et
    ++ text (
        codes
          "\n        SELECT DISTINCT path_ids, path_names, hops\n        FROM paths\n        WHERE id = $3\n        ORDER BY hops\n        LIMIT $4\n    ")
      ∷ []

unfoldable pub cycle_pieces : Text → Text → Text → Text → Text → Text → List Piece
cycle_pieces node_table edge_table source_field target_field et limit_clause =
    text (
      codes
        "\n        WITH RECURSIVE walk AS (\n            SELECT\n                n.id AS start_id,\n                n.id AS curr_id,\n                ARRAY[n.id] AS path_ids,\n                ARRAY[n.name::text] AS path_names,\n                0 AS depth\n            FROM ")
    ∷ ident node_table
    ∷ text (
        codes
          " n\n\n            UNION\n\n            SELECT\n                w.start_id,\n                n.id AS curr_id,\n                w.path_ids || n.id,\n                w.path_names || n.name,\n                w.depth + 1\n            FROM walk w\n            JOIN ")
    ∷ ident edge_table
    ∷ text (codes " e ON (\n                e.")
    ∷ ident source_field
    ∷ text (codes " = w.curr_id\n                OR (e.is_bidirectional AND e.")
    ∷ ident target_field
    ∷ text (codes " = w.curr_id)\n            )\n            JOIN ")
    ∷ ident node_table
    ∷ text (codes " n ON (\n                (e.")
    ∷ ident source_field
    ∷ text (codes " = w.curr_id AND n.id = e.")
    ∷ ident target_field
    ∷ text (
        codes
          ")\n                OR (\n                    e.is_bidirectional\n                    AND e.")
    ∷ ident target_field
    ∷ text (codes " = w.curr_id\n                    AND n.id = e.")
    ∷ ident source_field
    ∷ text (codes "\n                )\n            )\n            WHERE w.depth < $1 ")
    ∷ text et
    ∷ text (
        codes
          "\n            -- Allow the anchor (depth 0) to take its first hop, but never\n            -- extend a walk that has already closed (curr_id = start_id).\n            AND (w.depth = 0 OR w.curr_id <> w.start_id)\n            -- Close the walk when returning to the start; otherwise only\n            -- visit unvisited nodes that sort after the start so each\n            -- cycle is reported once, starting at its minimum node.\n            AND (n.id = w.start_id OR (NOT (n.id = ANY(w.path_ids)) AND n.id > w.start_id))\n        )\n        SELECT DISTINCT path_ids, path_names, depth\n        FROM walk\n        WHERE depth > 0\n        AND curr_id = path_ids[1]\n        ORDER BY depth\n        ")
    ∷ text limit_clause
    ∷ text (codes "\n    ")
    ∷ []
