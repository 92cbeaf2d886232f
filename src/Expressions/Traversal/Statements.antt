-- ===== src/Expressions/Traversal/Statements.antt =====
-- The statements of `GraphTraversal` of src/tortoise_extended/expressions/graph_traversal.py.
use tortoise_extended.Common.{
  Option, none, some, List, [], ◌∷◌, ◌++◌, Text, codes, text_eq, if◌then◌else◌,
}
use tortoise_extended.Sql.{Piece, text, ident}

-- The names that the constructor quotes.
pub record GraphTraversal : Type 0 where
  pub node_table : Text
  pub edge_table : Text
  pub source_field : Text
  pub target_field : Text

pub data Direction : Type 0 where
  outgoing incoming both : Direction

-- The three values that `neighbors` takes; it raises for any other.
unfoldable pub direction_of : Text → Option Direction
direction_of direction =
    if text_eq direction (codes "outgoing")
    then some outgoing
    else if text_eq direction (codes "incoming")
    then some incoming
    else if text_eq direction (codes "both")
    then some both
    else none

unfoldable pub ancestors_pieces : GraphTraversal → Text → List Piece
ancestors_pieces self et =
    text (
      codes
        "\n            WITH RECURSIVE ancestors AS (\n                SELECT n.id, n.name, n.depth, 0 AS path_depth,\n                       ARRAY[n.id] AS path_ids\n                FROM ")
    ∷ ident self.node_table
    ∷ text (
        codes
          " n\n                WHERE n.id = $1\n\n                UNION\n\n                SELECT n.id, n.name, n.depth, a.path_depth + 1,\n                       a.path_ids || n.id\n                FROM ancestors a\n                JOIN ")
    ∷ ident self.edge_table
    ∷ text (codes " e ON (\n                    e.")
    ∷ ident self.target_field
    ∷ text (codes " = a.id\n                    OR (e.is_bidirectional AND e.")
    ∷ ident self.source_field
    ∷ text (codes " = a.id)\n                )\n                JOIN ")
    ∷ ident self.node_table
    ∷ text (codes " n ON (\n                    n.id = e.")
    ∷ ident self.source_field
    ∷ text (codes "\n                    OR (e.is_bidirectional AND n.id = e.")
    ∷ ident self.target_field
    ∷ text (codes ")\n                )\n                WHERE a.path_depth < $2 ")
    ∷ text et
    ∷ text (
        codes
          "\n                AND n.id != $1\n                AND NOT (n.id = ANY(a.path_ids))\n            )\n            SELECT id, MIN(name) AS name, MIN(depth) AS depth, MIN(path_depth) AS path_depth\n            FROM ancestors\n            WHERE id != $1\n            GROUP BY id\n            ORDER BY MIN(path_depth), MIN(name)\n        ")
    ∷ []

unfoldable pub descendants_pieces : GraphTraversal → Text → List Piece
descendants_pieces self et =
    text (
      codes
        "\n            WITH RECURSIVE descendants AS (\n                SELECT n.id, n.name, n.depth, 0 AS path_depth,\n                       ARRAY[n.id] AS path_ids\n                FROM ")
    ∷ ident self.node_table
    ∷ text (
        codes
          " n\n                WHERE n.id = $1\n\n                UNION\n\n                SELECT n.id, n.name, n.depth, d.path_depth + 1,\n                       d.path_ids || n.id\n                FROM descendants d\n                JOIN ")
    ∷ ident self.edge_table
    ∷ text (codes " e ON (\n                    e.")
    ∷ ident self.source_field
    ∷ text (codes " = d.id\n                    OR (e.is_bidirectional AND e.")
    ∷ ident self.target_field
    ∷ text (codes " = d.id)\n                )\n                JOIN ")
    ∷ ident self.node_table
    ∷ text (codes " n ON (\n                    n.id = e.")
    ∷ ident self.target_field
    ∷ text (codes "\n                    OR (e.is_bidirectional AND n.id = e.")
    ∷ ident self.source_field
    ∷ text (codes ")\n                )\n                WHERE d.path_depth < $2 ")
    ∷ text et
    ∷ text (
        codes
          "\n                AND n.id != $1\n                AND NOT (n.id = ANY(d.path_ids))\n            )\n            SELECT id, MIN(name) AS name, MIN(depth) AS depth, MIN(path_depth) AS path_depth\n            FROM descendants\n            WHERE id != $1\n            GROUP BY id\n            ORDER BY MIN(path_depth), MIN(name)\n        ")
    ∷ []

unfoldable pub edge_join : GraphTraversal → Direction → List Piece
edge_join self outgoing =
    text (codes "e.")
    ∷ ident self.source_field
    ∷ text (codes " = b.id OR (e.is_bidirectional AND e.")
    ∷ ident self.target_field
    ∷ text (codes " = b.id)")
    ∷ []
edge_join self incoming =
    text (codes "e.")
    ∷ ident self.target_field
    ∷ text (codes " = b.id OR (e.is_bidirectional AND e.")
    ∷ ident self.source_field
    ∷ text (codes " = b.id)")
    ∷ []
edge_join self both =
    text (codes "e.")
    ∷ ident self.source_field
    ∷ text (codes " = b.id OR e.")
    ∷ ident self.target_field
    ∷ text (codes " = b.id")
    ∷ []

unfoldable pub node_join : GraphTraversal → Direction → List Piece
node_join self outgoing =
    text (codes "(e.")
    ∷ ident self.source_field
    ∷ text (codes " = b.id AND n.id = e.")
    ∷ ident self.target_field
    ∷ text (codes ") OR (e.is_bidirectional AND e.")
    ∷ ident self.target_field
    ∷ text (codes " = b.id AND n.id = e.")
    ∷ ident self.source_field
    ∷ text (codes ")")
    ∷ []
node_join self incoming =
    text (codes "(e.")
    ∷ ident self.target_field
    ∷ text (codes " = b.id AND n.id = e.")
    ∷ ident self.source_field
    ∷ text (codes ") OR (e.is_bidirectional AND e.")
    ∷ ident self.source_field
    ∷ text (codes " = b.id AND n.id = e.")
    ∷ ident self.target_field
    ∷ text (codes ")")
    ∷ []
node_join self both =
    text (codes "(e.")
    ∷ ident self.source_field
    ∷ text (codes " = b.id AND n.id = e.")
    ∷ ident self.target_field
    ∷ text (codes ") OR (e.")
    ∷ ident self.target_field
    ∷ text (codes " = b.id AND n.id = e.")
    ∷ ident self.source_field
    ∷ text (codes ")")
    ∷ []

unfoldable pub neighbors_pieces : GraphTraversal → Direction → Text → List Piece
unfolding edge_join node_join
neighbors_pieces self direction et =
    text (
        codes
          "\n            WITH RECURSIVE bfs AS (\n                SELECT n.id, n.name, n.depth, 0 AS hops,\n                       ARRAY[n.id] AS path_ids\n                FROM ")
      ∷ ident self.node_table
      ∷ text (
          codes
            " n\n                WHERE n.id = $1\n\n                UNION\n\n                SELECT n.id, n.name, n.depth, b.hops + 1,\n                       b.path_ids || n.id\n                FROM bfs b\n                JOIN ")
      ∷ ident self.edge_table
      ∷ text (codes " e ON (")
      ∷ edge_join self direction
    ++ text (codes ")\n                JOIN ")
      ∷ ident self.node_table
      ∷ text (codes " n ON (")
      ∷ node_join self direction
    ++ text (codes ")\n                WHERE b.hops < $2 ")
      ∷ text et
      ∷ text (
          codes
            "\n                AND n.id != $1\n                AND NOT (n.id = ANY(b.path_ids))\n            )\n            SELECT id, MIN(name) AS name, MIN(depth) AS depth, MIN(hops) AS hops\n            FROM bfs WHERE id != $1\n            GROUP BY id\n            ORDER BY MIN(hops), MIN(name)\n        ")
      ∷ []

abbrev pub anchor_filter : Option Text → Text
anchor_filter none = []
anchor_filter (some edge_type) = codes "WHERE e.edge_type = $2"

unfoldable pub cycle_pieces : GraphTraversal → Option Text → Text → List Piece
cycle_pieces self edge_type et =
    text (
      codes
        "\n            SELECT EXISTS (\n                WITH RECURSIVE reach AS (\n                    SELECT e.id AS eid, e.")
    ∷ ident self.source_field
    ∷ text (codes " AS from_id,\n                           e.")
    ∷ ident self.target_field
    ∷ text (codes " AS to_id, 1 AS depth\n                    FROM ")
    ∷ ident self.edge_table
    ∷ text (codes " e\n                    ")
    ∷ text (anchor_filter edge_type)
    ∷ text (
        codes
          "\n\n                    UNION\n\n                    SELECT r.eid, r.from_id,\n                           CASE\n                               WHEN e.")
    ∷ ident self.source_field
    ∷ text (codes " = r.to_id THEN e.")
    ∷ ident self.target_field
    ∷ text (codes "\n                               ELSE e.")
    ∷ ident self.source_field
    ∷ text (
        codes
          "\n                           END AS to_id,\n                           r.depth + 1\n                    FROM reach r\n                    JOIN ")
    ∷ ident self.edge_table
    ∷ text (codes " e ON (\n                        e.")
    ∷ ident self.source_field
    ∷ text (codes " = r.to_id\n                        OR (e.is_bidirectional AND e.")
    ∷ ident self.target_field
    ∷ text (codes " = r.to_id)\n                    )\n                    WHERE r.depth < $1 ")
    ∷ text et
    ∷ text (
        codes
          "\n                )\n                SELECT 1 FROM reach WHERE from_id = to_id LIMIT 1\n            ) AS has_cycle\n        ")
    ∷ []
