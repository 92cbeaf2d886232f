-- ===== src/Migrations/Runs.antt =====
-- What the operations of src/tortoise_extended/migrations/operations.py run on the editor, read by
-- the lexer.
use tortoise_extended.Common.{
  ◌≡◌, refl, sym, inl, inr, true, Option, none, some, List, [], ◌∷◌, ◌++◌, append-nil, Text, codes,
  text_eq, if◌then◌else◌, Bool-cases, Outcome, ok, raised,
}
use tortoise_extended.Common.Actions.{Act, pure, and_then, continue}
use tortoise_extended.Sql.{fstring}
use tortoise_extended.Sql.Lexer.{lex, separated, tokens, scan, step, after}
use tortoise_extended.Sql.Templates.{Fills, template, arguments, fstring-Fills}
use tortoise_extended.Migrations.{
  CreateHypertable, CreateContinuousAggregate, Editor, upper_flag, convert_pieces, interval_pieces,
  revert_pieces, view_pieces, policy_pieces, drop_pieces, run_hypertable, hypertable_forward,
  hypertable_backward, run_aggregate, aggregate_forward, aggregate_backward,
}

-- Statements run in order; the first that raises is the last.
abbrev pub run_each : {Db E : Type 0} → Editor Db E → List Text → Act Db E (Unit {0})
run_each run_sql [] = pure tt
run_each run_sql (sql ∷ rest) = and_then (run_sql sql) λ _. run_each run_sql rest

abbrev pub FillEach : List Text → List (Text × List Text) → Type 0
FillEach [] [] = Unit
FillEach (sql ∷ rest) ((form, values) ∷ forms) = Fills sql form values × FillEach rest forms
FillEach _ _ = ⊥

-- The action runs statements that are these templates filled with these texts.
abbrev pub Runs :
    {Db E : Type 0}
    → (Option (Editor Db E) → Act Db E (Unit {0}))
    → Editor Db E
    → List (Text × List Text)
    → Type 0
Runs {Db = Db} m run_sql forms =
    (statements : List Text) × FillEach statements forms
    × ((db : Db) → m (some run_sql) db ≡ run_each run_sql statements db)
    × ((db : Db) → m none db ≡ (ok tt, db))

module _ {Db E : Type 0} (run_sql : Editor Db E) where
  continue-pure : (p : Outcome E (Unit {0}) × Db) → p ≡ continue p (λ _. pure tt)
  continue-pure (ok a, db) = refl
  continue-pure (raised e, db) = refl

  continue-cong :
      (p : Outcome E (Unit {0}) × Db) (f g : Unit {0} → Act Db E (Unit {0}))
      → ((a : Unit {0}) (db : Db) → f a db ≡ g a db)
      → continue p f ≡ continue p g
  continue-cong (ok a, db) f g h = h a db
  continue-cong (raised e, db) f g h = refl

  convert-Fills :
      (self : CreateHypertable)
      → Fills
          (fstring (convert_pieces self))
          (codes "SELECT create_hypertable(', ', if_not_exists => TRUE, migrate_data => "
            ++ (upper_flag self.migrate_data ++ codes ")"))
          (self.table_name ∷ self.time_column ∷ [])
  unfolding convert_pieces tokens scan step separated after
  convert-Fills self = elim (Bool-cases self.migrate_data) [
    | inl e ↦ rw e (fstring-Fills _ refl)
    | inr e ↦ rw e (fstring-Fills _ refl)
  ]

  query-Fills :
      (self : CreateContinuousAggregate)
      → Fills
          (fstring (view_pieces self))
          (codes "CREATE MATERIALIZED VIEW IF NOT EXISTS \" WITH (timescaledb.continuous) AS "
            ++ template (lex self.query))
          (self.view_name ∷ arguments (lex self.query))
  unfolding view_pieces tokens scan step separated after
  query-Fills self = rw (sym (append-nil (lex self.query))) (fstring-Fills (view_pieces self) refl)

  abbrev pub interval_forms : CreateHypertable → List (Text × List Text)
  interval_forms self =
      if text_eq self.chunk_time_interval (codes "7 days")
      then []
      else ((
        codes "ALTER TABLE \" SET (timescaledb.chunk_time_interval = ')",
        self.table_name ∷ self.chunk_time_interval ∷ [],
      )
          ∷ [])

  interval-Fills :
      (self : CreateHypertable)
      → Fills
          (fstring (interval_pieces self))
          (codes "ALTER TABLE \" SET (timescaledb.chunk_time_interval = ')")
          (self.table_name ∷ self.chunk_time_interval ∷ [])
  unfolding interval_pieces tokens scan step separated after
  interval-Fills self = fstring-Fills _ refl

  revert-Fills :
      (self : CreateHypertable)
      → Fills
          (fstring (revert_pieces self))
          (codes "SELECT remove_hypertable(', if_exists => TRUE)")
          (self.table_name ∷ [])
  unfolding revert_pieces tokens scan step separated after
  revert-Fills self = fstring-Fills _ refl

  abbrev pub conversion_form : CreateHypertable → Text × List Text
  conversion_form self = (
    codes "SELECT create_hypertable(', ', if_not_exists => TRUE, migrate_data => "
        ++ (upper_flag self.migrate_data ++ codes ")"),
    self.table_name ∷ self.time_column ∷ [],
  )

  forward-Runs :
      (self : CreateHypertable)
      → Runs (hypertable_forward self) run_sql (conversion_form self ∷ interval_forms self)
  unfolding hypertable_forward run_hypertable
  forward-Runs self = elim (Bool-cases (text_eq self.chunk_time_interval (codes "7 days"))) [
    | inl e ↦
        rw e
          (fstring (convert_pieces self) ∷ [], (convert-Fills self, tt), (λ db. refl), λ db. refl)
    | inr e ↦ rw e (
      fstring (convert_pieces self) ∷ fstring (interval_pieces self) ∷ [],
      (convert-Fills self, (interval-Fills self, tt)),
      (λ db.
          continue-cong (run_sql (fstring (convert_pieces self)) db) _ _
            λ _ after. continue-pure (run_sql (fstring (interval_pieces self)) after)),
      λ db. refl,
    )
  ]

  policy-Fills :
      (self : CreateContinuousAggregate)
      → Fills
          (fstring (policy_pieces self))
          (codes
            "SELECT add_continuous_aggregate_policy(', if_not_exists => TRUE, start_offset => INTERVAL ', end_offset => INTERVAL ', schedule_interval => INTERVAL ')")
          (self.view_name ∷ self.start_offset ∷ self.end_offset ∷ self.refresh_interval ∷ [])
  unfolding policy_pieces tokens scan step separated after
  policy-Fills self = fstring-Fills _ refl

  drop-Fills :
      (self : CreateContinuousAggregate)
      → Fills
          (fstring (drop_pieces self))
          (codes "DROP MATERIALIZED VIEW IF EXISTS \"")
          (self.view_name ∷ [])
  unfolding drop_pieces tokens scan step separated after
  drop-Fills self = fstring-Fills _ refl

  backward-Runs :
      (self : CreateHypertable)
      → Runs
          (hypertable_backward self)
          run_sql
          ((codes "SELECT remove_hypertable(', if_exists => TRUE)", self.table_name ∷ []) ∷ [])
  unfolding hypertable_backward
  backward-Runs self = (
    fstring (revert_pieces self) ∷ [],
    (revert-Fills self, tt),
    (λ db. continue-pure (run_sql (fstring (revert_pieces self)) db)),
    λ db. refl,
  )

  -- A migration to a hypertable runs `create_hypertable`, then, for an interval other than the
  -- default, the statement that sets it, and its reversal runs `remove_hypertable`; a first
  -- statement that raises is the last. The names and the interval are quoted parts of the
  -- statements, unchanged, whatever they hold. Without an editor and in a dry run nothing is run.
  pub hypertable_migration-Runs :
      (self : CreateHypertable)
      → Runs (hypertable_forward self) run_sql (conversion_form self ∷ interval_forms self)
        × Runs
            (hypertable_backward self)
            run_sql
            ((codes "SELECT remove_hypertable(', if_exists => TRUE)", self.table_name ∷ []) ∷ [])
        × ((editor : Option (Editor Db E)) (db : Db)
            → run_hypertable self true editor db ≡ (ok tt, db))
  unfolding run_hypertable
  hypertable_migration-Runs self = (forward-Runs self, backward-Runs self, λ editor db. refl)

  -- A migration to a continuous aggregate runs the statement that creates the view, then the one
  -- that adds its policy, and its reversal drops the view; a first statement that raises is the
  -- last. The view and the offsets are quoted parts of the statements, unchanged, whatever they
  -- hold; the query, which ends its statement, is read there as it is read alone. Without an
  -- editor and in a dry run nothing is run.
  pub aggregate_migration-Runs :
      (self : CreateContinuousAggregate)
      → Runs (aggregate_forward self) run_sql (
          (
            codes "CREATE MATERIALIZED VIEW IF NOT EXISTS \" WITH (timescaledb.continuous) AS "
                ++ template (lex self.query),
            self.view_name ∷ arguments (lex self.query),
          )
          ∷ (
            codes
                "SELECT add_continuous_aggregate_policy(', if_not_exists => TRUE, start_offset => INTERVAL ', end_offset => INTERVAL ', schedule_interval => INTERVAL ')",
            self.view_name ∷ self.start_offset ∷ self.end_offset ∷ self.refresh_interval ∷ [],
          )
          ∷ [])
        × Runs
            (aggregate_backward self)
            run_sql
            ((codes "DROP MATERIALIZED VIEW IF EXISTS \"", self.view_name ∷ []) ∷ [])
        × ((editor : Option (Editor Db E)) (db : Db)
            → run_aggregate self true editor db ≡ (ok tt, db))
  unfolding aggregate_forward aggregate_backward run_aggregate
  aggregate_migration-Runs self = (
    (
      fstring (view_pieces self) ∷ fstring (policy_pieces self) ∷ [],
      (query-Fills self, (policy-Fills self, tt)),
      (λ db.
          continue-cong (run_sql (fstring (view_pieces self)) db) _ _
            λ _ after. continue-pure (run_sql (fstring (policy_pieces self)) after)),
      λ db. refl,
    ),
    (
      fstring (drop_pieces self) ∷ [],
      (drop-Fills self, tt),
      (λ db. continue-pure (run_sql (fstring (drop_pieces self)) db)),
      λ db. refl,
    ),
    λ editor db. refl,
  )
