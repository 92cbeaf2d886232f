-- ===== src/Models/EventStream/Tests.antt =====
-- Runs of `bulk_insert`, and the instances of its theorems.
use tortoise_extended.Common.{
  ℕ, ◌≡◌, refl, true, false, not, ◌&&◌, List, [], ◌∷◌, Text, codes, text_eq, ◌==◌, if◌then◌else◌,
  ok, raised,
}
use tortoise_extended.Models.EventStream.{
  Field, mixed_db_default, Values, Copy, is_omitted, bulk_insert, kept_fields, assert_pk_present,
  copy_db_fields,
}
use tortoise_extended.Models.EventStream.Copy.{
  is_omitted-some_default, some_default, some_value, bulk_insert_lem, Unmixed,
}

-- An instance is its key and its value; 0 is `None`, and 9 is the database's default.
abbrev numbers : Values
numbers = record {
  Instance = ℕ × ℕ;
  Value = ℕ;
  Cell = ℕ;
  getattr = λ i name. if text_eq name (codes "id") then i.0 else i.1;
  is_none = λ v. v == 0;
  is_database_default = λ v. v == 9;
  to_db_value = λ f v i. ok v;
}

abbrev key_field : Field
key_field = record {
  name = codes "id";
  column = codes "id";
  in_db_fields = true;
  is_relation = false;
  has_db_default = false;
}

abbrev value_field : Field
value_field = record {
  name = codes "value";
  column = codes "value";
  in_db_fields = true;
  is_relation = false;
  has_db_default = true;
}

abbrev fields : List Field
fields = key_field ∷ value_field ∷ []

-- A database that holds the statements it was sent.
abbrev Log : Type 0
Log = List (List Text × List (List ℕ))

abbrev log : Copy numbers Log
log columns records sent = (ok tt, (columns, records) ∷ sent)

unmixed : Unmixed numbers ((1, 9) ∷ (2, 9) ∷ []) (copy_db_fields numbers fields)
unfolding copy_db_fields
unmixed = (refl, (refl, tt))

bulk_insert_lem_example :
    bulk_insert numbers log (codes "id") fields ((1, 9) ∷ (2, 9) ∷ []) []
    ≡ (ok (2, true ∷ true ∷ []), (codes "id" ∷ [], (1 ∷ []) ∷ (2 ∷ []) ∷ []) ∷ [])
unfolding copy_db_fields
bulk_insert_lem_example =
    bulk_insert_lem numbers (λ f v i. v) (λ f v i. refl) log (codes "id") fields (1, 9)
      ((2, 9) ∷ []) [] refl unmixed

is_omitted-some_default_example :
    is_omitted numbers (codes "value") false false ((1, 9) ∷ (2, 3) ∷ []) ≡ (
      if some_default numbers (codes "value") ((1, 9) ∷ (2, 3) ∷ [])
        && some_value numbers (codes "value") ((1, 9) ∷ (2, 3) ∷ [])
      then raised (mixed_db_default (codes "value"))
      else ok (
          some_default numbers (codes "value") ((1, 9) ∷ (2, 3) ∷ [])
          && not (some_value numbers (codes "value") ((1, 9) ∷ (2, 3) ∷ []))))
is_omitted-some_default_example =
    is_omitted-some_default numbers (codes "value") ((1, 9) ∷ (2, 3) ∷ [])

mixed_test :
    bulk_insert numbers log (codes "id") fields ((1, 9) ∷ (2, 3) ∷ []) []
    ≡ (raised (mixed_db_default (codes "value")), [])
unfolding bulk_insert assert_pk_present kept_fields copy_db_fields is_omitted
mixed_test = refl
