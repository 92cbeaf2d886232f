-- ===== src/Models/EventStream/Copy.antt =====
-- What one COPY statement of models/event_stream.py carries.
use tortoise_extended.Common.{
  inl, inr, ◌≡◌, refl, Bool, true, false, not, ◌&&◌, ◌||◌, List, [], ◌∷◌, map, any, keep, length,
  Text, All, if◌then◌else◌, ok, raised, Bool-cases, arith,
}
use tortoise_extended.Common.Actions.{pure, continue}
use tortoise_extended.Models.EventStream.{
  Field, mixed_db_default, missing_primary_key, Values, assert_pk_present, copy_db_fields,
  is_default, is_omitted, kept_fields, copy_record, copy_records, Copy, bulk_insert,
}

-- What a bind that succeeds went through.
module _ (vals : Values) where
  open vals use {Instance, Cell}

  abbrev pub some_default : Text → List Instance → Bool
  some_default name insts = any (λ i. is_default vals name i) insts

  abbrev pub some_value : Text → List Instance → Bool
  some_value name insts = any (λ i. not (is_default vals name i)) insts

  -- The loop raises exactly if it has seen a default and a value, at once or at last.
  is_omitted_lem :
      (name : Text) (d v : Bool) (insts : List Instance)
      → (d && v) ≡ false
      → is_omitted vals name d v insts ≡ (
          if (d || some_default name insts) && (v || some_value name insts)
          then raised (mixed_db_default name)
          else ok ((d || some_default name insts) && not (v || some_value name insts)))
  unfolding is_omitted
  is_omitted_lem name d v [] apart = ground arith
  is_omitted_lem name d v (i ∷ insts) apart =
      elim (Bool-cases ((d || is_default vals name i) && (v || not (is_default vals name i)))) [
        | inl both ↦ rw both (ground arith)
        | inr not_both ↦
            rw
              (
                not_both,
                is_omitted_lem name (d || is_default vals name i)
                    (v || not (is_default vals name i)) insts not_both,
              )
              (ground arith)
      ]

  -- The loop over the instances raises exactly if some of them leave the column to the database and
  -- some do not, and omits the column exactly if there are some and all of them leave it.
  pub is_omitted-some_default :
      (name : Text) (insts : List Instance)
      → is_omitted vals name false false insts ≡ (
          if some_default name insts && some_value name insts
          then raised (mixed_db_default name)
          else ok (some_default name insts && not (some_value name insts)))
  is_omitted-some_default name insts = is_omitted_lem name false false insts refl

  assert_pk_present_lem :
      (pk : Text) (insts : List Instance)
      → assert_pk_present vals pk insts ≡ (
          if any (λ i. vals.is_none (vals.getattr i pk)) insts
          then raised missing_primary_key
          else ok tt)
  unfolding assert_pk_present
  assert_pk_present_lem pk [] = refl
  assert_pk_present_lem pk (i ∷ insts) = elim (Bool-cases (vals.is_none (vals.getattr i pk))) [
    | inl lacks ↦ rw lacks refl
    | inr has ↦ rw (has, assert_pk_present_lem pk insts) refl
  ]

  abbrev pub Unmixed : List Instance → List Field → Type 0
  Unmixed insts fields =
      All
        (λ f. (f.has_db_default && (some_default f.name insts && some_value f.name insts)) ≡ false)
        fields

  -- The database fills the column in for all of them.
  abbrev pub left_out : List Instance → Field → Bool
  left_out insts f =
      f.has_db_default && (some_default f.name insts && not (some_value f.name insts))

  kept_fields_lem :
      (insts : List Instance) (fields : List Field)
      → Unmixed insts fields
      → kept_fields vals insts fields ≡ ok (keep (λ f. not (left_out insts f)) fields)
  unfolding kept_fields
  kept_fields_lem insts [] h = refl
  kept_fields_lem insts (f ∷ fields) h = elim (Bool-cases f.has_db_default) [
    | inr plain ↦ rw (plain, kept_fields_lem insts fields h.1) refl
    | inl default ↦
        let unmixed : (some_default f.name insts && some_value f.name insts) ≡ false =
          ground (arith, h.0) in
        elim (Bool-cases (some_default f.name insts && not (some_value f.name insts))) [
          | inl out ↦
              rw
                (
                  default,
                  is_omitted-some_default f.name insts,
                  unmixed,
                  out,
                  kept_fields_lem insts fields h.1,
                )
                refl
          | inr stays ↦
              rw
                (
                  default,
                  is_omitted-some_default f.name insts,
                  unmixed,
                  stays,
                  kept_fields_lem insts fields h.1,
                )
                refl
        ]
  ]

  module _ (cell : Field → vals.Value → Instance → Cell)
      (converts : (f : Field) (v : vals.Value) (i : Instance)
        → vals.to_db_value f v i ≡ ok (cell f v i)) where
    -- The cells of an instance, one for each of these fields.
    abbrev pub cells_of : List Field → Instance → List Cell
    cells_of fields i = map (λ f. cell f (vals.getattr i f.name) i) fields

    copy_record_lem :
        (i : Instance) (fields : List Field) → copy_record vals i fields ≡ ok (cells_of fields i)
    unfolding copy_record
    copy_record_lem i [] = refl
    copy_record_lem i (f ∷ fields) =
        rw (converts f (vals.getattr i f.name) i, copy_record_lem i fields) refl

    copy_records_lem :
        (fields : List Field) (insts : List Instance)
        → copy_records vals fields insts ≡ ok (map (cells_of fields) insts)
    unfolding copy_records
    copy_records_lem fields [] = refl
    copy_records_lem fields (i ∷ insts) =
        rw (copy_record_lem i fields, copy_records_lem fields insts) refl

    -- `bulk_insert` of some instances that all have a key and agree, field by field, on whether the
    -- database fills it in, and whose values convert, does one COPY and nothing else to the
    -- database: of the columns of the model's own fields but those that the database fills in for
    -- all instances, with one record for each instance, in order, of the converted values in the
    -- order of the columns. If the COPY raises, so does it; else it counts every instance and marks
    -- each one as saved.
    pub bulk_insert_lem :
        {Db : Type 0} (copy : Copy vals Db) (pk : Text) (fields_map : List Field) (i : Instance)
        (insts : List Instance) (db : Db)
        → any (λ i. vals.is_none (vals.getattr i pk)) (i ∷ insts) ≡ false
        → Unmixed (i ∷ insts) (copy_db_fields vals fields_map)
        → let sent : List Field =
            keep (λ f. not (left_out (i ∷ insts) f)) (copy_db_fields vals fields_map) in
          bulk_insert vals copy pk fields_map (i ∷ insts) db
          ≡ continue
              (copy (map (λ f. f.column) sent) (map (cells_of sent) (i ∷ insts)) db)
              (λ _. pure (length (i ∷ insts), map (λ _. true) (i ∷ insts)))
    unfolding bulk_insert
    bulk_insert_lem copy pk fields_map i insts db keyed unmixed =
        let sent : List Field =
          keep (λ f. not (left_out (i ∷ insts) f)) (copy_db_fields vals fields_map) in
        rw
          (
            assert_pk_present_lem pk (i ∷ insts),
            keyed,
            kept_fields_lem (i ∷ insts) (copy_db_fields vals fields_map) unmixed,
            copy_records_lem sent (i ∷ insts),
          )
          refl
