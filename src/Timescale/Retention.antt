-- ===== src/Timescale/Retention.antt =====
-- `RetentionPolicy` of src/tortoise_extended/timescale/retention.py.
use tortoise_extended.Common.{Bool, List, [], ◌∷◌, Text, codes}
use tortoise_extended.Common.Actions.{lift, and_then}
use tortoise_extended.Sql.{Piece, text, literal, fstring}
use tortoise_extended.Timescale.{
  Connection, Do, flag, query, execute, failed, dicts, firsts, other_raised,
}

unfoldable pub set_pieces : Text → Text → Bool → List Piece
set_pieces table_name drop_after if_not_exists =
    text (codes "SELECT add_retention_policy(")
    ∷ literal table_name
    ∷ text (codes ", INTERVAL ")
    ∷ literal drop_after
    ∷ text (codes ", if_not_exists => ")
    ∷ text (flag if_not_exists)
    ∷ text (codes ")")
    ∷ []

unfoldable pub remove_pieces : Text → List Piece
remove_pieces table_name =
    text (codes "SELECT remove_retention_policy(") ∷ literal table_name ∷ text (codes ")") ∷ []

abbrev pub policies_sql : Text
policies_sql =
    codes
      "\n            SELECT\n                hypertable_name AS table_name,\n                config AS drop_after,\n                schedule_interval,\n                initial_start,\n                scheduled\n            FROM timescaledb_information.jobs\n            WHERE proc_name = 'policy_retention'\n            ORDER BY hypertable_name\n        "

unfoldable pub drop_chunks_pieces : Text → Text → List Piece
drop_chunks_pieces table_name older_than =
    text (
      codes
        "\n            SELECT\n                show_chunks AS chunk_name\n            FROM show_chunks(\n                ")
    ∷ literal table_name
    ∷ text (codes ",\n                older_than => INTERVAL ")
    ∷ literal older_than
    ∷ text (codes "\n            )\n            ORDER BY chunk_name\n        ")
    ∷ []

module _ (conn : Connection) where
  unfoldable pub set_retention : Text → Text → Bool → Do conn (Unit {0})
  set_retention table_name drop_after if_not_exists =
      execute conn (fstring (set_pieces table_name drop_after if_not_exists))
        (failed conn (codes "Failed to set retention policy on") table_name)

  unfoldable pub remove_retention : Text → Do conn (Unit {0})
  remove_retention table_name =
      execute conn (fstring (remove_pieces table_name))
        (failed conn (codes "Failed to remove retention policy from") table_name)

  -- The assignment within the loop puts back the value that it read.
  unfoldable pub list_policies : Do conn (List (List (Text × conn.Value)))
  list_policies =
      and_then (query conn policies_sql λ exc. codes "Failed to list retention policies")
        λ rows. lift (other_raised conn (dicts conn rows))

  unfoldable pub get_chunks_to_drop : Text → Text → Do conn (List conn.Value)
  get_chunks_to_drop table_name older_than =
      and_then
        (query conn (fstring (drop_chunks_pieces table_name older_than))
          (failed conn (codes "Failed to list chunks to drop for") table_name))
        λ rows. lift (other_raised conn (firsts conn rows))
