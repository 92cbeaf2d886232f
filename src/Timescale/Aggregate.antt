-- ===== src/Timescale/Aggregate.antt =====
-- `ContinuousAggregateManager` of src/tortoise_extended/timescale/continuous_aggregate.py, but for
-- `create`.
use tortoise_extended.Common.{Bool, Option, some, List, [], ◌∷◌, Text, codes, if◌then◌else◌}
use tortoise_extended.Common.Actions.{lift, and_then}
use tortoise_extended.Sql.{Piece, text, ident, literal, fstring}
use tortoise_extended.Timescale.{Connection, Do, query, execute, failed, dicts, other_raised}
use tortoise_extended.Timescale.Hypertable.{given}

unfoldable pub drop_view_pieces : Text → Bool → List Piece
drop_view_pieces view_name if_exists =
    text (codes "\n            DROP MATERIALIZED VIEW\n            ")
    ∷ text (if if_exists then codes "IF EXISTS" else [])
    ∷ text (codes "\n            ")
    ∷ ident view_name
    ∷ text (codes "\n        ")
    ∷ []

unfoldable pub refresh_pieces : Text → Option Text → Option Text → List Piece
refresh_pieces view_name (some start_time) (some end_time) =
    text (codes "CALL refresh_continuous_aggregate(")
    ∷ literal view_name
    ∷ text (codes ", TIMESTAMPTZ ")
    ∷ literal start_time
    ∷ text (codes ", TIMESTAMPTZ ")
    ∷ literal end_time
    ∷ text (codes ")")
    ∷ []
refresh_pieces view_name _ _ =
    text (codes "CALL refresh_continuous_aggregate(")
    ∷ literal view_name
    ∷ text (codes ", NULL, NULL)")
    ∷ []

unfoldable pub refresh_policy_pieces : Text → Text → Text → Text → List Piece
refresh_policy_pieces view_name start_offset end_offset schedule_interval =
    text (codes "SELECT add_continuous_aggregate_policy(")
    ∷ literal view_name
    ∷ text (codes ", start_offset => INTERVAL ")
    ∷ literal start_offset
    ∷ text (codes ", end_offset => INTERVAL ")
    ∷ literal end_offset
    ∷ text (codes ", schedule_interval => INTERVAL ")
    ∷ literal schedule_interval
    ∷ text (codes ")")
    ∷ []

unfoldable pub remove_policy_pieces : Text → List Piece
remove_policy_pieces view_name =
    text (codes "SELECT remove_continuous_aggregate_policy(")
    ∷ literal view_name
    ∷ text (codes ")")
    ∷ []

unfoldable pub realtime_pieces : Text → List Piece
realtime_pieces view_name =
    text (codes "\n            ALTER MATERIALIZED VIEW ")
    ∷ ident view_name
    ∷ text (codes "\n            SET (timescaledb.materialized_only = false)\n        ")
    ∷ []

module _ (conn : Connection) where
  -- `ContinuousAggregateManager.drop`
  unfoldable pub drop_view : Text → Bool → Do conn (Unit {0})
  drop_view view_name if_exists =
      execute conn (fstring (drop_view_pieces view_name if_exists))
        (failed conn (codes "Failed to drop continuous aggregate") view_name)

  unfoldable pub refresh : Text → Option Text → Option Text → Do conn (Unit {0})
  refresh view_name start_time end_time =
      execute conn (fstring (refresh_pieces view_name (given start_time) (given end_time)))
        (failed conn (codes "Failed to refresh continuous aggregate") view_name)

  unfoldable pub set_refresh_policy : Text → Text → Text → Text → Do conn (Unit {0})
  set_refresh_policy view_name start_offset end_offset schedule_interval =
      execute conn
        (fstring (refresh_policy_pieces view_name start_offset end_offset schedule_interval))
        (failed conn (codes "Failed to set refresh policy on") view_name)

  unfoldable pub remove_refresh_policy : Text → Do conn (Unit {0})
  remove_refresh_policy view_name =
      execute conn (fstring (remove_policy_pieces view_name))
        (failed conn (codes "Failed to remove refresh policy from") view_name)

  unfoldable pub add_realtime_aggregate : Text → Do conn (Unit {0})
  add_realtime_aggregate view_name =
      execute conn (fstring (realtime_pieces view_name))
        (failed conn (codes "Failed to enable realtime aggregation on") view_name)

  -- `ContinuousAggregateManager.list`
  unfoldable pub list_aggregates : Do conn (List (List (Text × conn.Value)))
  list_aggregates =
      and_then
        (query conn
          (codes
            "\n            SELECT\n                view_name,\n                view_definition\n            FROM timescaledb_information.continuous_aggregates\n            ORDER BY view_name\n        ")
          λ exc. codes "Failed to list continuous aggregates")
        λ rows. lift (other_raised conn (dicts conn rows))
