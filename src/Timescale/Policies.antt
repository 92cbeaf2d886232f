-- ===== src/Timescale/Policies.antt =====
-- What the managers of retention, compression and continuous aggregates (timescale/retention.py,
-- compression.py and continuous_aggregate.py of src/tortoise_extended) send, read by the lexer.
use tortoise_extended.Common.{
  refl, Bool, true, false, Option, some, List, [], ◌∷◌, ◌++◌, Text, codes, if◌then◌else◌,
  Option-cases, inl, inr,
}
use tortoise_extended.Sql.Lexer.{separated, tokens, scan, step, after}
use tortoise_extended.Timescale.{Connection, execute, flag, failed}
use tortoise_extended.Timescale.Hypertable.{given}
use tortoise_extended.Timescale.Sends.{Sends, ask-Sends}
use tortoise_extended.Timescale.Retention.{
  set_pieces, remove_pieces, drop_chunks_pieces, set_retention, remove_retention,
  get_chunks_to_drop,
}
use tortoise_extended.Timescale.Compression.{
  enable_pieces, disable_pieces, policy_pieces, call_pieces, stats_pieces, enable_compression,
  disable_compression, add_compression_policy, remove_compression_policy, compress_chunk,
  decompress_chunk, get_stats,
}
use tortoise_extended.Timescale.Aggregate.{
  drop_view_pieces, refresh_pieces, refresh_policy_pieces, remove_policy_pieces, realtime_pieces,
  drop_view, refresh, set_refresh_policy, remove_refresh_policy, add_realtime_aggregate,
}

-- The arguments of `refresh_continuous_aggregate` after the view.
abbrev pub window_form : Option Text → Option Text → Text
window_form (some start) (some stop) = codes ", TIMESTAMPTZ ', TIMESTAMPTZ ')"
window_form _ _ = codes ", NULL, NULL)"

abbrev pub window : Option Text → Option Text → List Text
window (some start) (some stop) = start ∷ stop ∷ []
window _ _ = []

module _ (conn : Connection) where
  abbrev pub RetentionSends : Text → Text → Bool → Type 0
  RetentionSends t age b =
      Sends conn (set_retention conn t age b)
        (failed conn (codes "Failed to set retention policy on") t)
        (codes "SELECT add_retention_policy(', INTERVAL ', if_not_exists => "
          ++ (flag b ++ codes ")"))
        (t ∷ age ∷ [])
      × Sends conn (remove_retention conn t)
          (failed conn (codes "Failed to remove retention policy from") t)
          (codes "SELECT remove_retention_policy(')") (t ∷ [])
      × Sends conn (get_chunks_to_drop conn t age)
          (failed conn (codes "Failed to list chunks to drop for") t)
          (codes
            "\n            SELECT\n                show_chunks AS chunk_name\n            FROM show_chunks(\n                ',\n                older_than => INTERVAL '\n            )\n            ORDER BY chunk_name\n        ")
          (t ∷ age ∷ [])

  retention_at : (t age : Text) (b : Bool) → RetentionSends t age b
  unfolding set_retention remove_retention get_chunks_to_drop execute set_pieces remove_pieces
      drop_chunks_pieces tokens scan step separated after
  retention_at t age true =
      (ask-Sends conn _ _ _ refl, ask-Sends conn _ _ _ refl, ask-Sends conn _ _ _ refl)
  retention_at t age false =
      (ask-Sends conn _ _ _ refl, ask-Sends conn _ _ _ refl, ask-Sends conn _ _ _ refl)

  abbrev pub CompressionSends : Text → Text → Bool → Type 0
  CompressionSends t age b =
      Sends conn (enable_compression conn t)
        (failed conn (codes "Failed to enable compression on") t)
        (codes
          "\n            ALTER TABLE \"\n            SET (timescaledb.enable_columnstore)\n        ")
        (t ∷ [])
      × Sends conn (disable_compression conn t)
          (failed conn (codes "Failed to disable compression on") t)
          (codes
            "\n            ALTER TABLE \"\n            SET (timescaledb.enable_columnstore = false)\n        ")
          (t ∷ [])
      × Sends conn (add_compression_policy conn t age b)
          (failed conn (codes "Failed to add compression policy to") t)
          (codes
              "CALL add_columnstore_policy(hypertable => ', after => INTERVAL ', if_not_exists => "
            ++ (flag b ++ codes ")"))
          (t ∷ age ∷ [])
      × Sends conn (remove_compression_policy conn t)
          (failed conn (codes "Failed to remove compression policy from") t)
          (codes "CALL remove_columnstore_policy(')") (t ∷ [])
      × Sends conn (compress_chunk conn t) (failed conn (codes "Failed to compress chunk") t)
          (codes "CALL convert_to_columnstore(')") (t ∷ [])
      × Sends conn (decompress_chunk conn t) (failed conn (codes "Failed to decompress chunk") t)
          (codes "CALL convert_to_rowstore(')") (t ∷ [])

  compression_at : (t age : Text) (b : Bool) → CompressionSends t age b
  unfolding enable_compression disable_compression add_compression_policy remove_compression_policy
      compress_chunk decompress_chunk execute enable_pieces disable_pieces policy_pieces call_pieces
      tokens scan step separated after
  compression_at t age true = (
    ask-Sends conn _ _ _ refl,
    ask-Sends conn _ _ _ refl,
    ask-Sends conn _ _ _ refl,
    ask-Sends conn _ _ _ refl,
    ask-Sends conn _ _ _ refl,
    ask-Sends conn _ _ _ refl,
  )
  compression_at t age false = (
    ask-Sends conn _ _ _ refl,
    ask-Sends conn _ _ _ refl,
    ask-Sends conn _ _ _ refl,
    ask-Sends conn _ _ _ refl,
    ask-Sends conn _ _ _ refl,
    ask-Sends conn _ _ _ refl,
  )

  abbrev pub StatsSends : Text → Type 0
  StatsSends t =
      Sends conn (get_stats conn t) (failed conn (codes "Failed to get compression stats for") t)
        (codes
          "\n            SELECT\n                pg_size_pretty(before_compression_total_bytes) AS uncompressed_size,\n                pg_size_pretty(after_compression_total_bytes) AS compressed_size,\n                CASE\n                    WHEN before_compression_total_bytes > 0\n                     AND after_compression_total_bytes > 0\n                    THEN ROUND(\n                        before_compression_total_bytes::numeric /\n                        after_compression_total_bytes,\n                        2\n                    )\n                    ELSE 1\n                END AS compression_ratio,\n                (SELECT COUNT(*) FROM timescaledb_information.chunks c\n                 WHERE c.hypertable_name = '\n                 AND c.is_compressed = FALSE) AS uncompressed_chunks,\n                (SELECT COUNT(*) FROM timescaledb_information.chunks c\n                 WHERE c.hypertable_name = '\n                 AND c.is_compressed = TRUE) AS compressed_chunks\n            FROM hypertable_columnstore_stats(')\n            LIMIT 1\n        ")
        (t ∷ t ∷ t ∷ [])

  stats_at : (t : Text) → StatsSends t
  unfolding get_stats stats_pieces tokens scan step separated after
  stats_at t = ask-Sends conn _ _ _ refl

  abbrev pub AggregateSends : Text → Text → Text → Text → Bool → Type 0
  AggregateSends v start stop every b =
      Sends conn (drop_view conn v b) (failed conn (codes "Failed to drop continuous aggregate") v)
        (codes "\n            DROP MATERIALIZED VIEW\n            "
          ++ ((if b then codes "IF EXISTS" else []) ++ codes "\n            \"\n        "))
        (v ∷ [])
      × Sends conn (set_refresh_policy conn v start stop every)
          (failed conn (codes "Failed to set refresh policy on") v)
          (codes
            "SELECT add_continuous_aggregate_policy(', start_offset => INTERVAL ', end_offset => INTERVAL ', schedule_interval => INTERVAL ')")
          (v ∷ start ∷ stop ∷ every ∷ [])
      × Sends conn (remove_refresh_policy conn v)
          (failed conn (codes "Failed to remove refresh policy from") v)
          (codes "SELECT remove_continuous_aggregate_policy(')") (v ∷ [])
      × Sends conn (add_realtime_aggregate conn v)
          (failed conn (codes "Failed to enable realtime aggregation on") v)
          (codes
            "\n            ALTER MATERIALIZED VIEW \"\n            SET (timescaledb.materialized_only = false)\n        ")
          (v ∷ [])

  aggregate_at : (v start stop every : Text) (b : Bool) → AggregateSends v start stop every b
  unfolding drop_view set_refresh_policy remove_refresh_policy add_realtime_aggregate execute
      drop_view_pieces refresh_policy_pieces remove_policy_pieces realtime_pieces tokens scan step
      separated after
  aggregate_at v start stop every true = (
    ask-Sends conn _ _ _ refl,
    ask-Sends conn _ _ _ refl,
    ask-Sends conn _ _ _ refl,
    ask-Sends conn _ _ _ refl,
  )
  aggregate_at v start stop every false = (
    ask-Sends conn _ _ _ refl,
    ask-Sends conn _ _ _ refl,
    ask-Sends conn _ _ _ refl,
    ask-Sends conn _ _ _ refl,
  )

  abbrev pub RefreshSends : Text → Option Text → Option Text → Type 0
  RefreshSends v start stop =
      Sends conn (refresh conn v start stop)
        (failed conn (codes "Failed to refresh continuous aggregate") v)
        (codes "CALL refresh_continuous_aggregate('" ++ window_form (given start) (given stop))
        (v ∷ window (given start) (given stop))

  refresh_at : (v : Text) (start stop : Option Text) → RefreshSends v start stop
  unfolding refresh execute refresh_pieces tokens scan step separated after
  refresh_at v start stop = elim (Option-cases (given start)) [
    | inl e ↦ rw e (ask-Sends conn _ _ _ refl)
    | inr (a, e) ↦ elim (Option-cases (given stop)) [
      | inl f ↦ rw (e, f) (ask-Sends conn _ _ _ refl)
      | inr (b, f) ↦ rw (e, f) (ask-Sends conn _ _ _ refl)
    ]
  ]

  -- Each method of the managers of retention, compression and continuous aggregates that takes a
  -- table, a chunk or a view (but for `create`) sends one statement, whose text
  -- outside quotes is the method's own and whose quoted parts are the arguments in order,
  -- whatever they hold. An exception of the driver becomes a `TimescaleError` with the method's
  -- message. `refresh` sends a window only if it is given both ends.
  pub policy_methods-Sends :
      (t age v start stop every : Text) (b : Bool) (from to : Option Text)
      → RetentionSends t age b
        × CompressionSends t age b
        × StatsSends t
        × AggregateSends v start stop every b
        × RefreshSends v from to
  policy_methods-Sends t age v start stop every b from to = (
    retention_at t age b,
    compression_at t age b,
    stats_at t,
    aggregate_at v start stop every b,
    refresh_at v from to,
  )
