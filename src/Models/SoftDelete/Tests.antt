-- ===== src/Models/SoftDelete/Tests.antt =====
-- Runs of the soft-delete query sets, and the instances of their theorems.
use tortoise_extended.Common.{
  ℕ, ◌≡◌, refl, Bool, true, not, none, some, List, [], ◌∷◌, ◌++◌, map, keep, length, leb,
  if◌then◌else◌,
}
use tortoise_extended.Models.SoftDelete.{
  Row, Mapper, new, filter, selects, restore, delete, delete_instance, restore_instance,
}
use tortoise_extended.Models.SoftDelete.Conditions.{
  Call, call_filter, call_with_deleted, call_only_deleted, chain, wanted, selects-chain,
}
use tortoise_extended.Models.SoftDelete.Restore.{filters, restore-delete}

-- Conditions are lower bounds on the value.
abbrev at_least : ℕ → ℕ → Bool
at_least f v = leb f v

abbrev lists : Mapper ℕ ℕ
lists = record {
  add_condition = λ q qs. qs ++ q ∷ [];
  update = λ test t rows.
      (length (keep test rows), map (λ r. if test r then record r { deleted_at = t } else r) rows);
  remove = λ test rows. (length (keep test rows), keep (λ r. not (test r)) rows);
}

abbrev small : Row ℕ
small = record { pk = 1; values = 1; deleted_at = none }

abbrev large : Row ℕ
large = record { pk = 2; values = 5; deleted_at = none }

abbrev calls : List (Call ℕ)
calls = call_with_deleted ∷ call_filter 3 ∷ call_only_deleted ∷ []

selects-chain_example :
    selects at_least (chain at_least lists calls (new true)) large
    ≡ wanted at_least lists calls 0 large
selects-chain_example = selects-chain at_least lists calls large (λ q qs. refl)

restore-delete_example :
    ((delete at_least lists 7
        (chain at_least lists (filters at_least lists (3 ∷ [])) (new true))
        (small ∷ large ∷ [])).1
      ≡ small ∷ record large { deleted_at = some 7 } ∷ [])
    × ((restore at_least lists
          (chain at_least lists (filters at_least lists (3 ∷ [])) (new true))
          (delete at_least lists 7
            (chain at_least lists (filters at_least lists (3 ∷ [])) (new true))
            (small ∷ large ∷ [])).1).1
        ≡ small ∷ large ∷ [])
restore-delete_example =
    restore-delete at_least lists 7 (3 ∷ []) (small ∷ large ∷ []) (λ q qs. refl)
      (λ test t rows. refl)

delete_test :
    delete at_least lists 7 (filter at_least lists 3 (new true)) (small ∷ large ∷ [])
    ≡ (1, small ∷ record large { deleted_at = some 7 } ∷ [])
unfolding delete filter new
delete_test = refl

instance_test :
    (restore_instance (delete_instance 7 small).0 ≡ (small, some none))
    × (delete_instance 8 (delete_instance 7 small).0 ≡ ((delete_instance 7 small).0, none))
unfolding restore_instance delete_instance
instance_test = (refl, refl)
