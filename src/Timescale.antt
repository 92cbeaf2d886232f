-- ===== src/Timescale.antt =====
-- What the managers of src/tortoise_extended/timescale share: the database connection, a parameter,
-- and the call of `execute_query` whose exceptions become a `TimescaleError`.
pub mod Hypertable
pub mod Retention
pub mod Compression
pub mod Aggregate
pub mod Sends
pub mod Injection
pub mod Policies
mod Tests
use tortoise_extended.Common.{
  ℕ, Bool, true, false, Option, none, some, List, [], ◌∷◌, ◌++◌, Text, codes, Outcome, ok, raised,
  ◌>>=◌,
}
use tortoise_extended.Common.Actions.{Act, pure, lift, and_then, except}
use tortoise_extended.Sql.{Piece, text}

-- What `execute_query` returns: the number of rows with the rows, or the rows alone.
pub data Result (Row : Type 0) : Type 0 where
  tuple : List Row → Result Row
  bare : List Row → Result Row

-- `result[1] if isinstance(result, tuple) else result`
abbrev pub rows_of : {Row : Type 0} → Result Row → List Row
rows_of (tuple rows) = rows
rows_of (bare rows) = rows

-- The connection, its rows and their values, and the Python operations on them that may raise.
pub record Connection : Type 1 where
  pub Db : Type 0
  pub Exception : Type 0
  pub Value : Type 0
  pub Row : Type 0
  pub execute_query : Text → Act Db Exception (Result Row)
  -- `f"{exc}"` and `f"{text!r}"`
  pub str : Exception → Text
  pub repr : Text → Text
  pub is_dict : Row → Bool
  pub is_null : Value → Bool
  -- `bool(value)` and `float(value)`
  pub truth : Value → Bool
  pub float : Value → Outcome Exception Value
  pub none_value : Value
  -- `bool(row)`, `row.get(name)`, `row[index]` and `dict(row)`
  pub is_filled : Row → Bool
  pub get : Row → Text → Option Value
  pub item : Row → ℕ → Outcome Exception Value
  pub dict : Row → Outcome Exception (List (Text × Value))

-- `TimescaleError(msg)`, `ValueError(msg)`, or any other exception as it is.
pub data Failure (E : Type 0) : Type 0 where
  timescale_error value_error : Text → Failure E
  other : E → Failure E

-- `true` and `false`, the text of `str(flag).lower()`.
abbrev pub flag : Bool → Text
flag true = codes "true"
flag false = codes "false"

module _ (conn : Connection) where
  abbrev pub Do : Type 0 → Type 0
  Do A = Act conn.Db (Failure conn.Exception) A

  -- An exception of the driver or of a row's operation outside a `try`.
  abbrev pub other_raised :
      {A : Type 0} → Outcome conn.Exception A → Outcome (Failure conn.Exception) A
  other_raised (ok a) = ok a
  other_raised (raised e) = raised (other e)

  -- try: result = await conn.execute_query(sql)
  -- except Exception as exc: raise TimescaleError(msg) from exc
  abbrev pub wrapped :
      (conn.Exception → Text)
      → Outcome conn.Exception (Result conn.Row)
      → Outcome (Failure conn.Exception) (Result conn.Row)
  wrapped msg (ok result) = ok result
  wrapped msg (raised exc) = raised (timescale_error (msg exc))

  unfoldable pub query : Text → (conn.Exception → Text) → Do (List conn.Row)
  query sql msg db =
      let (outcome, after) = conn.execute_query sql db in
      and_then (lift (wrapped msg outcome)) (λ result. pure (rows_of result)) after

  unfoldable pub execute : Text → (conn.Exception → Text) → Do (Unit {0})
  execute sql msg = and_then (query sql msg) λ _. pure tt

  -- f"{what} {name!r}: {exc}"
  abbrev pub failed : Text → Text → conn.Exception → Text
  failed what name exc = what ++ (codes " " ++ (conn.repr name ++ (codes ": " ++ conn.str exc)))

  -- `[dict(row) for row in rows]`
  unfoldable pub dicts : List conn.Row → Outcome conn.Exception (List (List (Text × conn.Value)))
  dicts [] = ok []
  dicts (row ∷ rows) = let rest = dicts rows in conn.dict row >>= λ d. rest >>= λ ds. ok (d ∷ ds)

  -- `[row[0] for row in rows]`
  unfoldable pub firsts : List conn.Row → Outcome conn.Exception (List conn.Value)
  firsts [] = ok []
  firsts (row ∷ rows) =
      let rest = firsts rows in conn.item row 0 >>= λ v. rest >>= λ vs. ok (v ∷ vs)
