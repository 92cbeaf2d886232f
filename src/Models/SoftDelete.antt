-- ===== src/Models/SoftDelete.antt =====
-- models/soft_delete.py (under src/tortoise_extended): `SoftDeleteQuerySet` and `BaseSoftDeleteModel`.
-- A query set is its conditions with the place of the soft-delete condition; `F` is the caller's
-- conditions. What the mapper does with conditions and rows is a parameter.
pub mod Conditions
pub mod Restore
mod Tests
use tortoise_extended.Common.{
  ℕ, zero, suc, ◌-◌, Bool, true, false, not, ◌&&◌, Option, none, some, List, [], ◌∷◌, ◌++◌, length,
  ◌==◌, if◌then◌else◌,
}

-- `Q(deleted_at__isnull=…)`, or a condition of the caller.
pub data Condition (F : Type 0) : Type 0 where
  deleted_at_isnull : Bool → Condition F
  given : F → Condition F

pub record QuerySet (F : Type 0) : Type 0 where
  pub q_objects : List (Condition F)
  pub sd_index : Option ℕ
  pub sd_mode : ℕ

-- A row: its key and values of type `V` beside the marker.
pub record Row (V : Type 0) : Type 0 where
  pub pk : ℕ
  pub values : V
  pub deleted_at : Option ℕ

-- `del xs[i]`, and `xs[i] = x`.
abbrev pub del_elem {ℓ} : {A : Type ℓ} → ℕ → List A → List A
del_elem i [] = []
del_elem zero (x ∷ xs) = xs
del_elem (suc i) (x ∷ xs) = x ∷ del_elem i xs

abbrev pub set_elem {ℓ} : {A : Type ℓ} → ℕ → A → List A → List A
set_elem i y [] = []
set_elem zero y (x ∷ xs) = y ∷ xs
set_elem (suc i) y (x ∷ xs) = x ∷ set_elem i y xs

-- What the operations use of the mapper: a new condition, and the statements on the rows that a test
-- selects, with the number of the rows.
pub record Mapper (F V : Type 0) : Type 0 where
  pub add_condition : Condition F → List (Condition F) → List (Condition F)
  pub update : (Row V → Bool) → Option ℕ → List (Row V) → ℕ × List (Row V)
  pub remove : (Row V → Bool) → List (Row V) → ℕ × List (Row V)

module _ {F : Type 0} where
  -- `SoftDeleteQuerySet.__init__`
  unfoldable pub new : Bool → QuerySet F
  new has_deleted_at =
      if has_deleted_at
      then record { q_objects = deleted_at_isnull true ∷ []; sd_index = some 0; sd_mode = 0 }
      else record { q_objects = []; sd_index = none; sd_mode = 0 }

  without : Option ℕ → QuerySet F → QuerySet F
  without none qs = record qs { sd_mode = 1 }
  without (some i) qs = record qs {
    q_objects = del_elem i qs.q_objects;
    sd_index = none;
    sd_mode = 1;
  }

  -- `with_deleted`
  unfoldable pub with_deleted : QuerySet F → QuerySet F
  unfolding without
  with_deleted qs = without qs.sd_index qs

  only : Option ℕ → QuerySet F → QuerySet F
  only none qs =
      let conditions = qs.q_objects ++ deleted_at_isnull false ∷ [] in
      record qs { q_objects = conditions; sd_index = some (length conditions - 1); sd_mode = 2 }
  only (some i) qs = record qs {
    q_objects = set_elem i (deleted_at_isnull false) qs.q_objects;
    sd_mode = 2;
  }

  -- `only_deleted`
  unfoldable pub only_deleted : QuerySet F → QuerySet F
  unfolding only
  only_deleted qs = only qs.sd_index qs

abbrev pub is_live : {V : Type 0} → Row V → Bool
is_live r = elim r.deleted_at [ none ↦ true | some _ ↦ false ]

module _ {F V : Type 0} (accepts : F → V → Bool) where
  abbrev pub holds : Condition F → Row V → Bool
  holds (deleted_at_isnull b) r = if b then is_live r else not (is_live r)
  holds (given f) r = accepts f r.values

  abbrev pub all_hold : List (Condition F) → Row V → Bool
  all_hold [] r = true
  all_hold (q ∷ qs) r = holds q r && all_hold qs r

  abbrev pub selects : QuerySet F → Row V → Bool
  selects qs r = all_hold qs.q_objects r

  module _ (mapper : Mapper F V) where
    -- A filter of the caller.
    unfoldable pub filter : F → QuerySet F → QuerySet F
    filter f qs = record qs { q_objects = mapper.add_condition (given f) qs.q_objects }

    -- `restore` of a query set
    unfoldable pub restore : QuerySet F → List (Row V) → ℕ × List (Row V)
    restore qs rows = mapper.update (selects (only_deleted qs)) none rows

    -- `delete` of a query set, at the time `now`
    unfoldable pub delete : ℕ → QuerySet F → List (Row V) → ℕ × List (Row V)
    delete now qs rows =
        if qs.sd_mode == 0
        then mapper.update (selects qs) (some now) rows
        else mapper.remove (selects qs) rows

    -- `hard_delete`
    unfoldable pub hard_delete : ℕ → QuerySet F → List (Row V) → ℕ × List (Row V)
    unfolding delete
    hard_delete now qs rows = delete now (with_deleted qs) rows

module _ {V : Type 0} where
  -- `delete` of an instance: the instance, and the value that is saved, if one is.
  unfoldable pub delete_instance : ℕ → Row V → Row V × Option (Option ℕ)
  delete_instance now r = elim r.deleted_at [
    | none ↦ (record r { deleted_at = some now }, some (some now))
    | some _ ↦ (r, none)
  ]

  -- `restore` of an instance
  unfoldable pub restore_instance : Row V → Row V × Option (Option ℕ)
  restore_instance r = elim r.deleted_at [
    | none ↦ (r, none)
    | some _ ↦ (record r { deleted_at = none }, some none)
  ]
