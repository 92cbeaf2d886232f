-- ===== src/Models/EventStream.antt =====
-- models/event_stream.py (under src/tortoise_extended): `bulk_insert` of `BaseEventStream` and its
-- helpers. The mapper's values and conversions and the driver's COPY are parameters.
pub mod Copy
mod Tests
use tortoise_extended.Common.{
  ℕ, Bool, true, false, not, ◌&&◌, ◌||◌, Option, none, some, List, [], ◌∷◌, map, any, keep, length,
  Text, text_eq, if◌then◌else◌, Outcome, ok, raised, ◌>>=◌,
}
use tortoise_extended.Common.Actions.{Act, pure, lift, and_then}

-- A declared field: its name and column, and what the model's `_meta` says of it.
pub record Field : Type 0 where
  pub name : Text
  pub column : Text
  pub in_db_fields : Bool
  pub is_relation : Bool
  pub has_db_default : Bool

pub data InsertError : Type 0 where
  missing_primary_key : InsertError
  mixed_db_default : Text → InsertError
  refused : Text → InsertError

-- What the code uses of instances: attributes, the tests `is None` and `isinstance(…, DatabaseDefault)`,
-- and the field's conversion.
pub record Values : Type 1 where
  pub Instance : Type 0
  pub Value : Type 0
  pub Cell : Type 0
  pub getattr : Instance → Text → Value
  pub is_none : Value → Bool
  pub is_database_default : Value → Bool
  pub to_db_value : Field → Value → Instance → Outcome InsertError Cell

module _ (vals : Values) where
  open vals use {Instance, Cell}

  -- `_assert_pk_present`
  unfoldable pub assert_pk_present : Text → List Instance → Outcome InsertError (Unit {0})
  assert_pk_present pk [] = ok tt
  assert_pk_present pk (inst ∷ rest) =
      let others = assert_pk_present pk rest in
      if vals.is_none (vals.getattr inst pk) then raised missing_primary_key else others

  -- `_copy_db_fields`
  unfoldable pub copy_db_fields : List Field → List Field
  copy_db_fields fields_map = keep (λ f. f.in_db_fields && not f.is_relation) fields_map

  abbrev pub is_default : Text → Instance → Bool
  is_default name inst = vals.is_database_default (vals.getattr inst name)

  -- The inner loop of `_omit_db_default_fields`, with its two flags: whether the column is omitted.
  unfoldable pub is_omitted : Text → Bool → Bool → List Instance → Outcome InsertError Bool
  is_omitted name has_default has_value [] = ok (has_default && not has_value)
  is_omitted name has_default has_value (inst ∷ rest) =
      let d = has_default || is_default name inst in
      let v = has_value || not (is_default name inst) in
      let others = is_omitted name d v rest in
      if d && v then raised (mixed_db_default name) else others

  -- `_omit_db_default_fields`, and the list that `bulk_insert` filters by it.
  unfoldable pub kept_fields : List Instance → List Field → Outcome InsertError (List Field)
  kept_fields instances [] = ok []
  kept_fields instances (f ∷ fields) =
      let others = kept_fields instances fields in
      if f.has_db_default
      then is_omitted f.name false false instances
        >>= (λ omit. others >>= (λ kept. ok (if omit then kept else f ∷ kept)))
      else others >>= (λ kept. ok (f ∷ kept))

  unfoldable pub copy_record : Instance → List Field → Outcome InsertError (List Cell)
  copy_record inst [] = ok []
  copy_record inst (f ∷ fields) = vals.to_db_value f (vals.getattr inst f.name) inst >>= λ cell.
      copy_record inst fields >>= λ cells. ok (cell ∷ cells)

  -- `_copy_records`
  unfoldable pub copy_records : List Field → List Instance → Outcome InsertError (List (List Cell))
  copy_records fields [] = ok []
  copy_records fields (inst ∷ rest) = copy_record inst fields >>= λ cells.
      copy_records fields rest >>= λ records. ok (cells ∷ records)

  -- `copy_records_to_table`: the columns and the records, on the database.
  abbrev pub Copy : Type 0 → Type 0
  Copy Db = List Text → List (List Cell) → Act Db InsertError (Unit {0})

  -- `bulk_insert`: the number of rows and, for each instance, whether it is marked as saved.
  unfoldable pub bulk_insert :
      {Db : Type 0}
      → Copy Db
      → Text
      → List Field
      → List Instance
      → Act Db InsertError (ℕ × List Bool)
  bulk_insert copy pk fields_map [] = pure (0, [])
  bulk_insert copy pk fields_map (inst ∷ rest) =
      and_then (lift (assert_pk_present pk (inst ∷ rest))) λ _.
        and_then (lift (kept_fields (inst ∷ rest) (copy_db_fields fields_map))) λ fields.
          and_then (lift (copy_records fields (inst ∷ rest))) λ records.
            and_then (copy (map (λ f. f.column) fields) records)
              λ _. pure (length (inst ∷ rest), map (λ _. true) (inst ∷ rest))
