-- ===== src/Timescale/Injection.antt =====
-- What `HypertableManager` of src/tortoise_extended/timescale/hypertable.py sends to the database,
-- read by the lexer.
use tortoise_extended.Common.{
  suc, ◌≡◌, refl, Bool, true, false, Option, none, some, List, [], ◌∷◌, ◌++◌, Text, codes, raised,
  if◌then◌else◌, Option-cases, inl, inr, decimal, decimal-IsDigit,
}
use tortoise_extended.Common.Int.{ℤ, pos, negsuc}
use tortoise_extended.Sql.Lexer.{raw, after-digits, separated, tokens, scan, step, after}
use tortoise_extended.Sql.Templates.{template-digits, arguments-digits}
use tortoise_extended.Timescale.{Connection, value_error, execute, flag, failed}
use tortoise_extended.Timescale.Sends.{Sends, ask-Sends, ask-Sends_eq}
use tortoise_extended.Timescale.Hypertable.{
  split_schema_name, quote_qualified, given, create_pieces, drop_pieces, is_pieces, list_pieces,
  str_int, dimension_pieces, chunks_pieces, create_hypertable, drop_hypertable, is_hypertable,
  list_hypertables, add_dimension, show_chunks,
}

-- A schema-qualified name is quoted in two parts.
abbrev pub name_form : Option Text × Text → Text
name_form (none, table) = codes "\""
name_form (some schema, table) = codes "\".\""

abbrev pub where_form : Option Text × Text → Text
where_form (none, table) = codes "hypertable_name = '"
where_form (some schema, table) =
    codes "hypertable_schema = '\n                    AND hypertable_name = '"

abbrev pub list_form : Text
list_form =
    codes
      "\n            SELECT\n                (h.hypertable_schema || ' || h.hypertable_name) AS table_name,\n                h.num_chunks,\n                h.compression_enabled,\n                \".hypertable_size(\n                    (h.hypertable_schema || ' || h.hypertable_name)::regclass\n                ) AS table_size\n            FROM timescaledb_information.hypertables h\n            ORDER BY h.hypertable_name\n        "

abbrev pub parts : Option Text × Text → List Text
parts (none, table) = table ∷ []
parts (some schema, table) = schema ∷ table ∷ []

abbrev pub range_form : Option Text → Option Text → Text
range_form none stop = []
range_form (some start) none = codes ", newer_than => TIMESTAMPTZ '"
range_form (some start) (some stop) =
    codes ", newer_than => TIMESTAMPTZ ', older_than => TIMESTAMPTZ '"

abbrev pub range : Option Text → Option Text → List Text
range none stop = []
range (some start) none = start ∷ []
range (some start) (some stop) = start ∷ stop ∷ []

module _ (conn : Connection) where
  create_hypertable-Sends :
      (t c i : Text) (if_not_exists migrate_data : Bool)
      → Sends conn
          (create_hypertable conn t c i if_not_exists migrate_data)
          (failed conn (codes "Failed to create hypertable") t)
          (codes
              "SELECT create_hypertable(', ', chunk_time_interval => INTERVAL ', if_not_exists => "
            ++ (flag if_not_exists
                ++ (codes ", migrate_data => " ++ (flag migrate_data ++ codes ")"))))
          (t ∷ c ∷ i ∷ [])
  unfolding create_hypertable execute create_pieces tokens scan step separated after
  create_hypertable-Sends t c i true true = ask-Sends conn (create_pieces t c i true true) _ _ refl
  create_hypertable-Sends t c i true false =
      ask-Sends conn (create_pieces t c i true false) _ _ refl
  create_hypertable-Sends t c i false true =
      ask-Sends conn (create_pieces t c i false true) _ _ refl
  create_hypertable-Sends t c i false false =
      ask-Sends conn (create_pieces t c i false false) _ _ refl

  drop_at :
      (t : Text) (if_exists : Bool) (p : Option Text × Text)
      → split_schema_name t ≡ p
      → Sends conn
          (drop_hypertable conn t if_exists)
          (failed conn (codes "Failed to drop hypertable") t)
          (codes "\n            DROP TABLE\n            "
            ++ ((if if_exists then codes "IF EXISTS" else [])
                ++ (codes "\n            "
                    ++ (name_form p ++ codes "\n            CASCADE\n        "))))
          (parts p)
  unfolding drop_hypertable execute drop_pieces quote_qualified tokens scan step separated after
  drop_at t true (none, u) e = rw e (ask-Sends conn _ _ _ refl)
  drop_at t true (some s, u) e = rw e (ask-Sends conn _ _ _ refl)
  drop_at t false (none, u) e = rw e (ask-Sends conn _ _ _ refl)
  drop_at t false (some s, u) e = rw e (ask-Sends conn _ _ _ refl)

  is_at :
      (t : Text) (p : Option Text × Text)
      → split_schema_name t ≡ p
      → Sends conn
          (is_hypertable conn t)
          (failed conn (codes "Failed to inspect hypertable") t)
          (codes
              "\n                SELECT EXISTS(\n                    SELECT 1 FROM timescaledb_information.hypertables\n                    WHERE "
            ++ (where_form p ++ codes "\n                ) AS is_hypertable\n            "))
          (parts p)
  unfolding is_hypertable is_pieces tokens scan step separated after
  is_at t (none, u) e = rw e (ask-Sends conn _ _ _ refl)
  is_at t (some s, u) e = rw e (ask-Sends conn _ _ _ refl)

  chunks_at :
      (t : Text) (start stop : Option Text)
      → Sends conn
          (show_chunks conn t start stop)
          (failed conn (codes "Failed to show chunks for hypertable") t)
          (codes "SELECT show_chunks('" ++ (range_form (given start) (given stop) ++ codes ")"))
          (t ∷ range (given start) (given stop))
  unfolding show_chunks chunks_pieces tokens scan step separated after
  chunks_at t start stop = elim (Option-cases (given start)) [
    | inl e ↦ rw e (ask-Sends conn _ _ _ refl)
    | inr (a, e) ↦ elim (Option-cases (given stop)) [
      | inl f ↦ rw (e, f) (ask-Sends conn _ _ _ refl)
      | inr (b, f) ↦ rw (e, f) (ask-Sends conn _ _ _ refl)
    ]
  ]

  list_at :
      (schema : Text)
      → Sends conn
          (list_hypertables conn schema)
          (λ exc. codes "Failed to list hypertables")
          list_form
          (codes "." ∷ schema ∷ codes "." ∷ [])
  unfolding list_hypertables list_pieces tokens scan step separated after
  list_at schema = ask-Sends conn _ _ _ refl

  interval_at :
      (t c : Text) (interval : Option Text) (number : Option ℤ) (i : Text)
      → given interval ≡ some i
      → Sends conn
          (add_dimension conn t c interval number)
          (failed conn
            (codes "Failed to add dimension " ++ (conn.repr c ++ codes " to hypertable"))
            t)
          (codes "SELECT add_dimension(', ', chunk_time_interval => INTERVAL ')")
          (t ∷ c ∷ i ∷ [])
  unfolding add_dimension execute dimension_pieces tokens scan step separated after
  interval_at t c interval number i e = rw e (ask-Sends conn _ _ _ refl)

  number_at :
      (t c : Text) (interval : Option Text) (n : ℤ)
      → given interval ≡ none
      → Sends conn
          (add_dimension conn t c interval (some n))
          (failed conn
            (codes "Failed to add dimension " ++ (conn.repr c ++ codes " to hypertable"))
            t)
          (codes "SELECT add_dimension(', ', number_partitions => " ++ (str_int n ++ codes ")"))
          (t ∷ c ∷ [])
  unfolding add_dimension execute dimension_pieces tokens scan step separated after str_int
  number_at t c interval (pos n) e = rw e (
      ask-Sends_eq conn _ _ _ (rw (after-digits _ (decimal-IsDigit n)) refl)
        (rw (template-digits _ (raw 41 ∷ []) (decimal-IsDigit n)) refl)
        (rw (arguments-digits _ (raw 41 ∷ []) (decimal-IsDigit n)) refl))
  number_at t c interval (negsuc n) e = rw e (
      ask-Sends_eq conn _ _ _ (rw (after-digits (decimal (suc n)) (decimal-IsDigit (suc n))) refl)
        (rw (template-digits (decimal (suc n)) (raw 41 ∷ []) (decimal-IsDigit (suc n))) refl)
        (rw (arguments-digits (decimal (suc n)) (raw 41 ∷ []) (decimal-IsDigit (suc n))) refl))

  -- Without an interval and a number nothing is sent.
  neither_at :
      (t c : Text) (interval : Option Text)
      → given interval ≡ none
      → (db : conn.Db)
      → (why : Text) × (add_dimension conn t c interval none db ≡ (raised (value_error why), db))
  unfolding add_dimension dimension_pieces
  neither_at t c interval e db = rw e (_, refl)

  abbrev pub DimensionSends : Text → Text → Option Text → Option Text → Option ℤ → Type 0
  DimensionSends t c interval (some i) number =
      Sends conn (add_dimension conn t c interval number)
        (failed conn (codes "Failed to add dimension " ++ (conn.repr c ++ codes " to hypertable"))
          t)
        (codes "SELECT add_dimension(', ', chunk_time_interval => INTERVAL ')") (t ∷ c ∷ i ∷ [])
  DimensionSends t c interval none (some n) =
      Sends conn (add_dimension conn t c interval (some n))
        (failed conn (codes "Failed to add dimension " ++ (conn.repr c ++ codes " to hypertable"))
          t)
        (codes "SELECT add_dimension(', ', number_partitions => " ++ (str_int n ++ codes ")"))
        (t ∷ c ∷ [])
  DimensionSends t c interval none none =
      (db : conn.Db)
      → (why : Text) × (add_dimension conn t c interval none db ≡ (raised (value_error why), db))

  dimension_at :
      (t c : Text) (interval given_interval : Option Text) (number : Option ℤ)
      → given interval ≡ given_interval
      → DimensionSends t c interval given_interval number
  dimension_at t c interval (some i) number e = interval_at t c interval number i e
  dimension_at t c interval none (some n) e = number_at t c interval n e
  dimension_at t c interval none none e = neither_at t c interval e

  abbrev pub HypertableSends :
      Text
      → Text
      → Text
      → Bool
      → Bool
      → Bool
      → Option Text
      → Option Text
      → Option Text
      → Option ℤ
      → Type 0
  HypertableSends t c i if_not_exists migrate_data if_exists start stop interval number =
      Sends conn (create_hypertable conn t c i if_not_exists migrate_data)
        (failed conn (codes "Failed to create hypertable") t)
        (codes "SELECT create_hypertable(', ', chunk_time_interval => INTERVAL ', if_not_exists => "
          ++ (flag if_not_exists
              ++ (codes ", migrate_data => " ++ (flag migrate_data ++ codes ")"))))
        (t ∷ c ∷ i ∷ [])
      × Sends conn (drop_hypertable conn t if_exists)
          (failed conn (codes "Failed to drop hypertable") t)
          (codes "\n            DROP TABLE\n            "
            ++ ((if if_exists then codes "IF EXISTS" else [])
                ++ (codes "\n            "
                    ++ (name_form (split_schema_name t)
                        ++ codes "\n            CASCADE\n        "))))
          (parts (split_schema_name t))
      × Sends conn (is_hypertable conn t) (failed conn (codes "Failed to inspect hypertable") t)
          (codes
              "\n                SELECT EXISTS(\n                    SELECT 1 FROM timescaledb_information.hypertables\n                    WHERE "
            ++ (where_form (split_schema_name t)
                ++ codes "\n                ) AS is_hypertable\n            "))
          (parts (split_schema_name t))
      × Sends conn (show_chunks conn t start stop)
          (failed conn (codes "Failed to show chunks for hypertable") t)
          (codes "SELECT show_chunks('" ++ (range_form (given start) (given stop) ++ codes ")"))
          (t ∷ range (given start) (given stop))
      × Sends conn (list_hypertables conn i) (λ exc. codes "Failed to list hypertables") list_form
          (codes "." ∷ i ∷ codes "." ∷ [])
      × DimensionSends t c interval (given interval) number

  -- Each method of the hypertable manager sends one statement, whose text outside quotes is
  -- the method's own, whatever the arguments hold, and whose quoted parts are the names and the
  -- values that it uses, in order and unchanged (a quoted part stands in the templates as its quote;
  -- `list_hypertables` has two quoted dots of its own). `show_chunks` uses an end only together with
  -- a start and drops an end given alone, and `add_dimension` with an interval drops the number.
  -- An exception of the driver becomes a `TimescaleError` with the method's message, and
  -- `add_dimension` with neither an interval nor a number sends nothing and raises `ValueError`.
  pub hypertable_methods-Sends :
      (t c i : Text) (if_not_exists migrate_data if_exists : Bool)
      (start stop interval : Option Text) (number : Option ℤ)
      → HypertableSends t c i if_not_exists migrate_data if_exists start stop interval number
  hypertable_methods-Sends t c i if_not_exists migrate_data if_exists start stop interval number = (
    create_hypertable-Sends t c i if_not_exists migrate_data,
    drop_at t if_exists _ refl,
    is_at t _ refl,
    chunks_at t start stop,
    list_at i,
    dimension_at t c interval _ number refl,
  )
