-- ===== src/Models/Orm.antt =====
-- What the base models use of Tortoise ORM and of the database behind it: a table by primary key,
-- `filter(...).update(...)`, and the documented meaning of the two PostgreSQL operations on paths.
-- None of it is code of the repository, so it is an interface with laws.
use mathlib.Core.Option
use tortoise_extended.Common.{
  ℕ, suc, ◌≡◌, refl, Bool, ◌||◌, Option, ◌∷◌, [], ◌++◌, Text, text_eq, starts_with, drop,
  if◌then◌else◌,
}

pub record Orm (Row : Type 0) (pk : Row → ℕ) : Type 1 where
  pub Db : Type 0
  -- The row with a primary key.
  pub row : Db → ℕ → Option Row
  -- `filter(test).update(change)`: the rows that pass are changed, in one statement.
  pub update : (Row → Bool) → (Row → Row) → Db → Db
  pub row-update :
      (test : Row → Bool) (change : Row → Row) (db : Db)
      → ((r : Row) → pk (change r) ≡ pk r)
      → (k : ℕ)
      → row (update test change db) k ≡ Option.map (λ r. if test r then change r else r) (row db k)

pub record Postgres : Type 0 where
  -- `path <@ ancestor`, on label paths written with dots.
  pub descendant_of : Text → Text → Bool
  pub descendant_of_lem :
      (path ancestor : Text)
      → descendant_of path ancestor
        ≡ (text_eq path ancestor || starts_with path (ancestor ++ b'.' ∷ []))
  -- `SUBSTRING(s FROM start)`; positions begin at 1.
  pub substring_from : Text → ℕ → Text
  pub substring_from_lem : (s : Text) (n : ℕ) → substring_from s (suc n) ≡ drop n s

-- Tables as functions, which show that the laws can be met.
abbrev pub functions : (Row : Type 0) (pk : Row → ℕ) → Orm Row pk
functions Row pk = record {
  Db = ℕ → Option Row;
  row = λ db k. db k;
  update = λ test change db k. Option.map (λ r. if test r then change r else r) (db k);
  row-update = λ test change db keeps k. refl;
}
