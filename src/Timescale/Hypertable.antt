-- ===== src/Timescale/Hypertable.antt =====
-- `HypertableManager` of src/tortoise_extended/timescale/hypertable.py: the statement that each
-- method sends and what it makes of the answer.
pub mod Names
use tortoise_extended.Common.{
  ℕ, suc, Bool, true, false, not, Option, none, some, List, [], ◌∷◌, ◌++◌, Text, codes, decimal,
  take, drop, if◌then◌else◌, ◌==◌, Outcome, ok, raised, ◌>>=◌,
}
use tortoise_extended.Common.Actions.{Act, pure, throw, lift, and_then}
use tortoise_extended.Common.Int.{ℤ, pos, negsuc}
use tortoise_extended.Sql.{Piece, text, ident, literal, fstring}
use tortoise_extended.Timescale.{
  Connection, Do, Failure, timescale_error, value_error, other, flag, query, execute, failed, dicts,
  firsts, other_raised,
}

-- The loop of `_split_schema_name` over `enumerate(name)`: the last dot outside double quotes.
unfoldable pub last_dot : Bool → ℕ → Option ℕ → Text → Option ℕ
last_dot in_quote index last [] = last
last_dot in_quote index last (c ∷ name) =
    last_dot (if c == b'"' then not in_quote else in_quote) (suc index)
      (if c == b'"'
        then last
        else if c == b'.'
        then (if in_quote then last else some index)
        else last)
      name

abbrev pub split_at : Text → Option ℕ → Option Text × Text
split_at name none = (none, name)
split_at name (some dot) = (some (take dot name), drop (suc dot) name)

unfoldable pub split_schema_name : Text → Option Text × Text
unfolding last_dot
split_schema_name name = split_at name (last_dot false 0 none name)

abbrev pub qualified : Option Text × Text → List Piece
qualified (none, table) = ident table ∷ []
qualified (some schema, table) = ident schema ∷ text (codes ".") ∷ ident table ∷ []

-- The f-string that `_quote_qualified` returns.
unfoldable pub quote_qualified : Text → List Piece
unfolding split_schema_name
quote_qualified name = qualified (split_schema_name name)

unfoldable pub create_pieces : Text → Text → Text → Bool → Bool → List Piece
create_pieces table_name time_column chunk_time_interval if_not_exists migrate_data =
    text (codes "SELECT create_hypertable(")
    ∷ literal table_name
    ∷ text (codes ", ")
    ∷ literal time_column
    ∷ text (codes ", chunk_time_interval => INTERVAL ")
    ∷ literal chunk_time_interval
    ∷ text (codes ", if_not_exists => ")
    ∷ text (flag if_not_exists)
    ∷ text (codes ", migrate_data => ")
    ∷ text (flag migrate_data)
    ∷ text (codes ")")
    ∷ []

unfoldable pub drop_pieces : Text → Bool → List Piece
unfolding quote_qualified
drop_pieces table_name if_exists =
    text (codes "\n            DROP TABLE\n            ")
      ∷ text (if if_exists then codes "IF EXISTS" else [])
      ∷ text (codes "\n            ")
      ∷ quote_qualified table_name
    ++ text (codes "\n            CASCADE\n        ") ∷ []

unfoldable pub is_pieces : Option Text × Text → List Piece
is_pieces (none, table) =
    text (
      codes
        "\n                SELECT EXISTS(\n                    SELECT 1 FROM timescaledb_information.hypertables\n                    WHERE hypertable_name = ")
    ∷ literal table
    ∷ text (codes "\n                ) AS is_hypertable\n            ")
    ∷ []
is_pieces (some schema, table) =
    text (
      codes
        "\n                SELECT EXISTS(\n                    SELECT 1 FROM timescaledb_information.hypertables\n                    WHERE hypertable_schema = ")
    ∷ literal schema
    ∷ text (codes "\n                    AND hypertable_name = ")
    ∷ literal table
    ∷ text (codes "\n                ) AS is_hypertable\n            ")
    ∷ []

unfoldable pub list_pieces : Text → List Piece
list_pieces extension_schema =
    text (
      codes
        "\n            SELECT\n                (h.hypertable_schema || '.' || h.hypertable_name) AS table_name,\n                h.num_chunks,\n                h.compression_enabled,\n                ")
    ∷ ident extension_schema
    ∷ text (
        codes
          ".hypertable_size(\n                    (h.hypertable_schema || '.' || h.hypertable_name)::regclass\n                ) AS table_size\n            FROM timescaledb_information.hypertables h\n            ORDER BY h.hypertable_name\n        ")
    ∷ []

-- `f"{number}"`
unfoldable pub str_int : ℤ → Text
str_int (pos n) = decimal n
str_int (negsuc n) = codes "-" ++ decimal (suc n)

-- A text that Python takes for true.
abbrev pub given : Option Text → Option Text
given none = none
given (some []) = none
given (some (c ∷ t)) = some (c ∷ t)

-- The statement of `add_dimension`, given `chunk_time_interval if chunk_time_interval else None`.
unfoldable pub dimension_pieces : Text → Text → Option Text → Option ℤ → Option (List Piece)
unfolding str_int
dimension_pieces table_name column_name (some interval) number_partitions = some (
    text (codes "SELECT add_dimension(")
    ∷ literal table_name
    ∷ text (codes ", ")
    ∷ literal column_name
    ∷ text (codes ", chunk_time_interval => INTERVAL ")
    ∷ literal interval
    ∷ text (codes ")")
    ∷ [])
dimension_pieces table_name column_name none (some number_partitions) = some (
    text (codes "SELECT add_dimension(")
    ∷ literal table_name
    ∷ text (codes ", ")
    ∷ literal column_name
    ∷ text (codes ", number_partitions => ")
    ∷ text (str_int number_partitions)
    ∷ text (codes ")")
    ∷ [])
dimension_pieces table_name column_name none none = none

unfoldable pub chunks_pieces : Text → Option Text → Option Text → List Piece
chunks_pieces table_name (some start_time) (some end_time) =
    text (codes "SELECT show_chunks(")
    ∷ literal table_name
    ∷ text (codes ", newer_than => TIMESTAMPTZ ")
    ∷ literal start_time
    ∷ text (codes ", older_than => TIMESTAMPTZ ")
    ∷ literal end_time
    ∷ text (codes ")")
    ∷ []
chunks_pieces table_name (some start_time) none =
    text (codes "SELECT show_chunks(")
    ∷ literal table_name
    ∷ text (codes ", newer_than => TIMESTAMPTZ ")
    ∷ literal start_time
    ∷ text (codes ")")
    ∷ []
chunks_pieces table_name none end_time =
    text (codes "SELECT show_chunks(") ∷ literal table_name ∷ text (codes ")") ∷ []

module _ (conn : Connection) where
  unfoldable pub create_hypertable : Text → Text → Text → Bool → Bool → Do conn (Unit {0})
  unfolding create_pieces
  create_hypertable table_name time_column chunk_time_interval if_not_exists migrate_data =
      execute conn
        (fstring
          (create_pieces table_name time_column chunk_time_interval if_not_exists migrate_data))
        (failed conn (codes "Failed to create hypertable") table_name)

  unfoldable pub drop_hypertable : Text → Bool → Do conn (Unit {0})
  drop_hypertable table_name if_exists =
      execute conn (fstring (drop_pieces table_name if_exists))
        (failed conn (codes "Failed to drop hypertable") table_name)

  abbrev pub option_truth : Option conn.Value → Bool
  option_truth none = false
  option_truth (some v) = conn.truth v

  -- `bool(row.get(…, False))` of a dictionary, `bool(row[0]) if row else False` of a tuple.
  abbrev pub row_truth : conn.Row → Outcome conn.Exception Bool
  row_truth row =
      if conn.is_dict row
      then ok (option_truth (conn.get row (codes "is_hypertable")))
      else if conn.is_filled row
      then (conn.item row 0 >>= λ v. ok (conn.truth v))
      else ok false

  abbrev pub first_truth : List conn.Row → Outcome conn.Exception Bool
  first_truth [] = ok false
  first_truth (row ∷ rows) = row_truth row

  unfoldable pub is_hypertable : Text → Do conn Bool
  is_hypertable table_name =
      and_then
        (query conn (fstring (is_pieces (split_schema_name table_name)))
          (failed conn (codes "Failed to inspect hypertable") table_name))
        λ rows. lift (other_raised conn (first_truth rows))

  unfoldable pub list_hypertables : Text → Do conn (List (List (Text × conn.Value)))
  list_hypertables extension_schema =
      and_then
        (query conn (fstring (list_pieces extension_schema))
          λ exc. codes "Failed to list hypertables")
        λ rows. lift (other_raised conn (dicts conn rows))

  abbrev pub send_dimension : Text → Text → Option (List Piece) → Do conn (Unit {0})
  send_dimension table_name column_name none = throw (
      value_error (
        codes
          "add_dimension requires chunk_time_interval or number_partitions — TimescaleDB rejects a dimension without an explicit partition interval or count"))
  send_dimension table_name column_name (some pieces) = execute conn (fstring pieces) (
      failed conn
        (codes "Failed to add dimension " ++ (conn.repr column_name ++ codes " to hypertable"))
        table_name)

  unfoldable pub add_dimension : Text → Text → Option Text → Option ℤ → Do conn (Unit {0})
  add_dimension table_name column_name chunk_time_interval number_partitions =
      send_dimension table_name column_name
        (dimension_pieces table_name column_name (given chunk_time_interval) number_partitions)

  unfoldable pub show_chunks : Text → Option Text → Option Text → Do conn (List conn.Value)
  show_chunks table_name start_time end_time =
      and_then
        (query conn (fstring (chunks_pieces table_name (given start_time) (given end_time)))
          (failed conn (codes "Failed to show chunks for hypertable") table_name))
        λ rows. lift (other_raised conn (firsts conn rows))
