-- ===== src/Migrations.antt =====
-- The operations of src/tortoise_extended/migrations/operations.py over a schema editor, whose
-- `_run_sql` is a parameter.
pub mod Runs
mod Tests
use tortoise_extended.Common.{
  Bool, true, false, Option, none, some, List, [], ◌∷◌, Text, codes, text_eq, if◌then◌else◌,
}
use tortoise_extended.Common.Actions.{Act, pure, and_then}
use tortoise_extended.Sql.{Piece, text, ident, literal, fstring}

pub record CreateHypertable : Type 0 where
  pub table_name : Text
  pub time_column : Text
  pub chunk_time_interval : Text
  pub migrate_data : Bool

pub record CreateContinuousAggregate : Type 0 where
  pub view_name : Text
  pub query : Text
  pub time_column : Text
  pub refresh_interval : Text
  pub start_offset : Text
  pub end_offset : Text

-- The values of `deconstruct`'s keyword arguments.
pub data Argument : Type 0 where
  str : Text → Argument
  bool : Bool → Argument

-- `str(flag).upper()`
abbrev pub upper_flag : Bool → Text
upper_flag true = codes "TRUE"
upper_flag false = codes "FALSE"

unfoldable pub hypertable_arguments : CreateHypertable → Text × List (Text × Argument)
hypertable_arguments self = (
  codes "CreateHypertable",
  (codes "table_name", str self.table_name)
      ∷ (codes "time_column", str self.time_column)
      ∷ (codes "chunk_time_interval", str self.chunk_time_interval)
      ∷ (codes "migrate_data", bool self.migrate_data)
      ∷ [],
)

unfoldable pub aggregate_arguments : CreateContinuousAggregate → Text × List (Text × Argument)
aggregate_arguments self = (
  codes "CreateContinuousAggregate",
  (codes "view_name", str self.view_name)
      ∷ (codes "query", str self.query)
      ∷ (codes "time_column", str self.time_column)
      ∷ (codes "refresh_interval", str self.refresh_interval)
      ∷ (codes "start_offset", str self.start_offset)
      ∷ (codes "end_offset", str self.end_offset)
      ∷ [],
)

unfoldable pub convert_pieces : CreateHypertable → List Piece
convert_pieces self =
    text (codes "SELECT create_hypertable(")
    ∷ literal self.table_name
    ∷ text (codes ", ")
    ∷ literal self.time_column
    ∷ text (codes ", if_not_exists => TRUE, migrate_data => ")
    ∷ text (upper_flag self.migrate_data)
    ∷ text (codes ")")
    ∷ []

unfoldable pub interval_pieces : CreateHypertable → List Piece
interval_pieces self =
    text (codes "ALTER TABLE ")
    ∷ ident self.table_name
    ∷ text (codes " SET (timescaledb.chunk_time_interval = ")
    ∷ literal self.chunk_time_interval
    ∷ text (codes ")")
    ∷ []

unfoldable pub revert_pieces : CreateHypertable → List Piece
revert_pieces self =
    text (codes "SELECT remove_hypertable(")
    ∷ literal self.table_name
    ∷ text (codes ", if_exists => TRUE)")
    ∷ []

unfoldable pub view_pieces : CreateContinuousAggregate → List Piece
view_pieces self =
    text (codes "CREATE MATERIALIZED VIEW IF NOT EXISTS ")
    ∷ ident self.view_name
    ∷ text (codes " WITH (timescaledb.continuous) AS ")
    ∷ text self.query
    ∷ []

unfoldable pub policy_pieces : CreateContinuousAggregate → List Piece
policy_pieces self =
    text (codes "SELECT add_continuous_aggregate_policy(")
    ∷ literal self.view_name
    ∷ text (codes ", if_not_exists => TRUE, start_offset => INTERVAL ")
    ∷ literal self.start_offset
    ∷ text (codes ", end_offset => INTERVAL ")
    ∷ literal self.end_offset
    ∷ text (codes ", schedule_interval => INTERVAL ")
    ∷ literal self.refresh_interval
    ∷ text (codes ")")
    ∷ []

unfoldable pub drop_pieces : CreateContinuousAggregate → List Piece
drop_pieces self = text (codes "DROP MATERIALIZED VIEW IF EXISTS ") ∷ ident self.view_name ∷ []

-- An editor that is not `None` gives its `_run_sql`.
abbrev pub Editor : Type 0 → Type 0 → Type 0
Editor Db E = Text → Act Db E (Unit {0})

module _ {Db E : Type 0} where
  unfoldable pub run_hypertable :
      CreateHypertable → Bool → Option (Editor Db E) → Act Db E (Unit {0})
  unfolding convert_pieces interval_pieces
  run_hypertable self true editor = pure tt
  run_hypertable self false none = pure tt
  run_hypertable self false (some run_sql) = and_then (run_sql (fstring (convert_pieces self))) λ _.
      if text_eq self.chunk_time_interval (codes "7 days")
      then pure tt
      else run_sql (fstring (interval_pieces self))

  unfoldable pub hypertable_forward : CreateHypertable → Option (Editor Db E) → Act Db E (Unit {0})
  hypertable_forward self editor = run_hypertable self false editor

  unfoldable pub hypertable_backward : CreateHypertable → Option (Editor Db E) → Act Db E (Unit {0})
  hypertable_backward self none = pure tt
  hypertable_backward self (some run_sql) = run_sql (fstring (revert_pieces self))

  unfoldable pub run_aggregate :
      CreateContinuousAggregate → Bool → Option (Editor Db E) → Act Db E (Unit {0})
  run_aggregate self true editor = pure tt
  run_aggregate self false none = pure tt
  run_aggregate self false (some run_sql) =
      and_then (run_sql (fstring (view_pieces self))) λ _. run_sql (fstring (policy_pieces self))

  unfoldable pub aggregate_forward :
      CreateContinuousAggregate → Option (Editor Db E) → Act Db E (Unit {0})
  aggregate_forward self editor = run_aggregate self false editor

  unfoldable pub aggregate_backward :
      CreateContinuousAggregate → Option (Editor Db E) → Act Db E (Unit {0})
  aggregate_backward self none = pure tt
  aggregate_backward self (some run_sql) = run_sql (fstring (drop_pieces self))
