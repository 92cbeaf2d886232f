-- ===== src/Timescale/Sends.antt =====
-- What it means for an action on the connection to send one statement of a given form.
use tortoise_extended.Common.{
  ◌≡◌, refl, sym, inl, inr, true, List, Text, Outcome, raised, Outcome-cases,
}
use tortoise_extended.Common.Actions.{and_then, lift}
use tortoise_extended.Sql.{Piece, fstring}
use tortoise_extended.Sql.Lexer.{separated, tokens}
use tortoise_extended.Sql.Templates.{Fills, template, arguments, fstring-Fills}
use tortoise_extended.Timescale.{Connection, Do, Failure, timescale_error, query}

-- The action sends one statement, which is this template filled with these texts, and an
-- exception of the driver becomes a `TimescaleError` with this message.
abbrev pub Sends :
    (conn : Connection) {A : Type 0}
    → Do conn A
    → (conn.Exception → Text)
    → Text
    → List Text
    → Type 0
Sends conn m msg form values =
    (sql : Text) × Fills sql form values
    × ((db : conn.Db) → (m db).1 ≡ (conn.execute_query sql db).1)
    × ((db : conn.Db) (e : conn.Exception)
        → (conn.execute_query sql db).0 ≡ raised e
        → (m db).0 ≡ raised (timescale_error (msg e)))

module _ (conn : Connection) {A : Type 0} (sql : Text) (msg : conn.Exception → Text)
    (f : List conn.Row → Outcome (Failure conn.Exception) A) where
  ask-state :
      (db : conn.Db)
      → (and_then (query conn sql msg) (λ rows. lift (f rows)) db).1 ≡ (conn.execute_query sql db).1
  unfolding query
  ask-state db = elim (Outcome-cases (conn.execute_query sql db).0) [
    | inl (result, e) ↦ rw e refl
    | inr (exc, e) ↦ rw e refl
  ]

  ask-raised :
      (db : conn.Db) (e : conn.Exception)
      → (conn.execute_query sql db).0 ≡ raised e
      → (and_then (query conn sql msg) (λ rows. lift (f rows)) db).0
        ≡ raised (timescale_error (msg e))
  unfolding query
  ask-raised db e h = rw h refl

module _ (conn : Connection) {A : Type 0} (pieces : List Piece) (msg : conn.Exception → Text)
    (f : List conn.Row → Outcome (Failure conn.Exception) A) where
  pub ask-Sends :
      separated pieces ≡ true
      → Sends conn
          (and_then (query conn (fstring pieces) msg) λ rows. lift (f rows))
          msg
          (template (tokens pieces))
          (arguments (tokens pieces))
  ask-Sends h = (
    fstring pieces,
    fstring-Fills pieces h,
    ask-state conn (fstring pieces) msg f,
    ask-raised conn (fstring pieces) msg f,
  )

  pub ask-Sends_eq :
      {form : Text} {values : List Text}
      → separated pieces ≡ true
      → template (tokens pieces) ≡ form
      → arguments (tokens pieces) ≡ values
      → Sends conn
          (and_then (query conn (fstring pieces) msg) λ rows. lift (f rows))
          msg
          form
          values
  ask-Sends_eq h p q = rw (sym p, sym q) (ask-Sends h)
