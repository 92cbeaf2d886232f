-- ===== src/Timescale/Compression.antt =====
-- `CompressionManager` of src/tortoise_extended/timescale/compression.py.
use tortoise_extended.Common.{
  Bool, Option, none, some, List, [], ◌∷◌, Text, codes, if◌then◌else◌, Outcome, ok, ◌>>=◌,
}
use tortoise_extended.Common.Actions.{lift, and_then}
use tortoise_extended.Cache.Backend.{set_item}
use tortoise_extended.Sql.{Piece, text, ident, literal, fstring}
use tortoise_extended.Timescale.{Connection, Do, flag, query, execute, failed, other_raised}

unfoldable pub enable_pieces : Text → List Piece
enable_pieces table_name =
    text (codes "\n            ALTER TABLE ")
    ∷ ident table_name
    ∷ text (codes "\n            SET (timescaledb.enable_columnstore)\n        ")
    ∷ []

unfoldable pub disable_pieces : Text → List Piece
disable_pieces table_name =
    text (codes "\n            ALTER TABLE ")
    ∷ ident table_name
    ∷ text (codes "\n            SET (timescaledb.enable_columnstore = false)\n        ")
    ∷ []

unfoldable pub policy_pieces : Text → Text → Bool → List Piece
policy_pieces table_name compress_after if_not_exists =
    text (codes "CALL add_columnstore_policy(hypertable => ")
    ∷ literal table_name
    ∷ text (codes ", after => INTERVAL ")
    ∷ literal compress_after
    ∷ text (codes ", if_not_exists => ")
    ∷ text (flag if_not_exists)
    ∷ text (codes ")")
    ∷ []

-- The statements `CALL name(argument)`.
unfoldable pub call_pieces : Text → Text → List Piece
call_pieces call argument = text call ∷ literal argument ∷ text (codes ")") ∷ []

unfoldable pub stats_pieces : Text → List Piece
stats_pieces table_name =
    text (
      codes
        "\n            SELECT\n                pg_size_pretty(before_compression_total_bytes) AS uncompressed_size,\n                pg_size_pretty(after_compression_total_bytes) AS compressed_size,\n                CASE\n                    WHEN before_compression_total_bytes > 0\n                     AND after_compression_total_bytes > 0\n                    THEN ROUND(\n                        before_compression_total_bytes::numeric /\n                        after_compression_total_bytes,\n                        2\n                    )\n                    ELSE 1\n                END AS compression_ratio,\n                (SELECT COUNT(*) FROM timescaledb_information.chunks c\n                 WHERE c.hypertable_name = ")
    ∷ literal table_name
    ∷ text (
        codes
          "\n                 AND c.is_compressed = FALSE) AS uncompressed_chunks,\n                (SELECT COUNT(*) FROM timescaledb_information.chunks c\n                 WHERE c.hypertable_name = ")
    ∷ literal table_name
    ∷ text (
        codes
          "\n                 AND c.is_compressed = TRUE) AS compressed_chunks\n            FROM hypertable_columnstore_stats(")
    ∷ literal table_name
    ∷ text (codes ")\n            LIMIT 1\n        ")
    ∷ []

module _ (conn : Connection) where
  unfoldable pub enable_compression : Text → Do conn (Unit {0})
  enable_compression table_name =
      execute conn (fstring (enable_pieces table_name))
        (failed conn (codes "Failed to enable compression on") table_name)

  unfoldable pub disable_compression : Text → Do conn (Unit {0})
  disable_compression table_name =
      execute conn (fstring (disable_pieces table_name))
        (failed conn (codes "Failed to disable compression on") table_name)

  unfoldable pub add_compression_policy : Text → Text → Bool → Do conn (Unit {0})
  add_compression_policy table_name compress_after if_not_exists =
      execute conn (fstring (policy_pieces table_name compress_after if_not_exists))
        (failed conn (codes "Failed to add compression policy to") table_name)

  unfoldable pub remove_compression_policy : Text → Do conn (Unit {0})
  remove_compression_policy table_name =
      execute conn (fstring (call_pieces (codes "CALL remove_columnstore_policy(") table_name))
        (failed conn (codes "Failed to remove compression policy from") table_name)

  unfoldable pub compress_chunk : Text → Do conn (Unit {0})
  compress_chunk chunk_name =
      execute conn (fstring (call_pieces (codes "CALL convert_to_columnstore(") chunk_name))
        (failed conn (codes "Failed to compress chunk") chunk_name)

  unfoldable pub decompress_chunk : Text → Do conn (Unit {0})
  decompress_chunk chunk_name =
      execute conn (fstring (call_pieces (codes "CALL convert_to_rowstore(") chunk_name))
        (failed conn (codes "Failed to decompress chunk") chunk_name)

  -- `float(v) if v is not None else None`
  abbrev pub float_or_none : conn.Value → Outcome conn.Exception conn.Value
  float_or_none v = if conn.is_null v then ok conn.none_value else conn.float v

  -- `{**row, "compression_ratio": float(ratio)}`, where there is a ratio.
  abbrev pub with_ratio :
      Option conn.Value
      → List (Text × conn.Value)
      → Outcome conn.Exception (List (Text × conn.Value))
  with_ratio none row = ok row
  with_ratio (some ratio) row =
      if conn.is_null ratio
      then ok row
      else (conn.float ratio >>= λ r. ok (set_item (codes "compression_ratio") r row))

  unfoldable pub tuple_stats : conn.Row → Outcome conn.Exception (List (Text × conn.Value))
  tuple_stats row = conn.item row 0 >>= λ uncompressed_size. conn.item row 1 >>= λ compressed_size.
      conn.item row 2 >>= λ ratio. float_or_none ratio >>= λ compression_ratio.
      conn.item row 3 >>= λ uncompressed_chunks. conn.item row 4 >>= λ compressed_chunks. ok (
        (codes "uncompressed_size", uncompressed_size)
        ∷ (codes "compressed_size", compressed_size)
        ∷ (codes "compression_ratio", compression_ratio)
        ∷ (codes "uncompressed_chunks", uncompressed_chunks)
        ∷ (codes "compressed_chunks", compressed_chunks)
        ∷ [])

  unfoldable pub stats_of : List conn.Row → Outcome conn.Exception (List (Text × conn.Value))
  unfolding tuple_stats
  stats_of [] = ok []
  stats_of (row ∷ rows) =
      if conn.is_dict row
      then (conn.dict row >>= λ d. with_ratio (conn.get row (codes "compression_ratio")) d)
      else tuple_stats row

  unfoldable pub get_stats : Text → Do conn (List (Text × conn.Value))
  get_stats table_name =
      and_then
        (query conn (fstring (stats_pieces table_name))
          (failed conn (codes "Failed to get compression stats for") table_name))
        λ rows. lift (other_raised conn (stats_of rows))
