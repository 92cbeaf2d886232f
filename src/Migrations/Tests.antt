-- ===== src/Migrations/Tests.antt =====
-- Instances of the theorems on src/tortoise_extended/migrations/operations.py, over an editor that
-- keeps the statements it is given.
use tortoise_extended.Common.{◌≡◌, true, Option, List, [], ◌∷◌, ◌++◌, Text, codes, ok}
use tortoise_extended.Sql.Lexer.{lex, scan, step, after}
use tortoise_extended.Sql.Templates.{template, arguments}
use tortoise_extended.Migrations.{
  CreateHypertable, CreateContinuousAggregate, Editor, hypertable_forward, hypertable_backward,
  run_hypertable, aggregate_forward, aggregate_backward, run_aggregate,
}
use tortoise_extended.Migrations.Runs.{
  Runs, conversion_form, interval_forms, hypertable_migration-Runs, aggregate_migration-Runs,
}

abbrev editor : Editor (List Text) Text
editor sql db = (ok tt, sql ∷ db)

abbrev events : CreateHypertable
events = record {
  table_name = codes "e'vents";
  time_column = codes "created_at";
  chunk_time_interval = codes "1 day";
  migrate_data = true;
}

abbrev daily : CreateContinuousAggregate
daily = record {
  view_name = codes "da\"ily";
  query = codes "SELECT 'a' FROM \"events\"";
  time_column = codes "time_bucket";
  refresh_interval = codes "1 hour";
  start_offset = codes "1 hour";
  end_offset = codes "0";
}

hypertable_migration-Runs_example :
    Runs
      (hypertable_forward events)
      editor
      (conversion_form editor events ∷ interval_forms editor events)
    × Runs
        (hypertable_backward events)
        editor
        ((codes "SELECT remove_hypertable(', if_exists => TRUE)", codes "e'vents" ∷ []) ∷ [])
    × ((other : Option (Editor (List Text) Text)) (db : List Text)
        → run_hypertable events true other db ≡ (ok tt, db))
hypertable_migration-Runs_example = hypertable_migration-Runs editor events

aggregate_migration-Runs_example :
    Runs (aggregate_forward daily) editor (
      (
        codes "CREATE MATERIALIZED VIEW IF NOT EXISTS \" WITH (timescaledb.continuous) AS "
            ++ template (lex daily.query),
        daily.view_name ∷ arguments (lex daily.query),
      )
      ∷ (
        codes
            "SELECT add_continuous_aggregate_policy(', if_not_exists => TRUE, start_offset => INTERVAL ', end_offset => INTERVAL ', schedule_interval => INTERVAL ')",
        daily.view_name ∷ daily.start_offset ∷ daily.end_offset ∷ daily.refresh_interval ∷ [],
      )
      ∷ [])
    × Runs
        (aggregate_backward daily)
        editor
        ((codes "DROP MATERIALIZED VIEW IF EXISTS \"", daily.view_name ∷ []) ∷ [])
    × ((other : Option (Editor (List Text) Text)) (db : List Text)
        → run_aggregate daily true other db ≡ (ok tt, db))
unfolding scan step after
aggregate_migration-Runs_example = aggregate_migration-Runs editor daily
