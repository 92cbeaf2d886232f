-- ===== src/Models/SoftDelete/Restore.antt =====
-- Deleting and restoring rows by the query sets of models/soft_delete.py.
use tortoise_extended.Common.{
  ℕ, inl, inr, ◌≡◌, refl, ap, ◌∙◌, Bool, true, false, not, ◌&&◌, Option, none, some, List, [], ◌∷◌,
  ◌++◌, map, if◌then◌else◌, arith, Bool-cases, Option-cases,
}
use tortoise_extended.Models.SoftDelete.{
  Condition, QuerySet, Row, Mapper, new, only_deleted, filter, is_live, selects, restore, delete,
}
use tortoise_extended.Models.SoftDelete.Conditions.{
  Call, call_filter, call_only_deleted, chain, wanted, selects-chain,
}

map_congr :
    {A B : Type 0} (f g : A → B) → ((a : A) → f a ≡ g a) → (xs : List A) → map f xs ≡ map g xs
map_congr f g h [] = refl
map_congr f g h (x ∷ xs) = rw (h x, map_congr f g h xs) refl

map-map :
    {A B C : Type 0} (f : B → C) (g : A → B) (xs : List A)
    → map f (map g xs) ≡ map (λ a. f (g a)) xs
map-map f g [] = refl
map-map f g (x ∷ xs) = rw (map-map f g xs) refl

module _ {F V : Type 0} (accepts : F → V → Bool) (mapper : Mapper F V) where
  abbrev pub filters : List F → List (Call F)
  filters [] = []
  filters (f ∷ fs) = call_filter f ∷ filters fs

  abbrev pub accepts_all : List F → V → Bool
  accepts_all [] v = true
  accepts_all (f ∷ fs) v = accepts f v && accepts_all fs v

  abbrev pub marked : Option ℕ → (Row V → Bool) → Row V → Row V
  marked t test r = if test r then record r { deleted_at = t } else r

  chain-only :
      (fs : List F) (qs : QuerySet F)
      → only_deleted (chain accepts mapper (filters fs) qs)
        ≡ chain accepts mapper (filters fs ++ call_only_deleted ∷ []) qs
  chain-only [] qs = refl
  chain-only (f ∷ fs) qs = chain-only fs (filter accepts mapper f qs)

  wanted-only :
      (fs : List F) (r : Row V)
      → wanted accepts mapper (filters fs ++ call_only_deleted ∷ []) 0 r
        ≡ (accepts_all fs r.values && not (is_live r))
  wanted-only [] r = refl
  wanted-only (f ∷ fs) r = ground (arith, wanted-only fs r)

  wanted-filters :
      (fs : List F) (r : Row V)
      → wanted accepts mapper (filters fs) 0 r ≡ (accepts_all fs r.values && is_live r)
  wanted-filters [] r = refl
  wanted-filters (f ∷ fs) r = ground (arith, wanted-filters fs r)

  mode-filters :
      (fs : List F) (qs : QuerySet F) → (chain accepts mapper (filters fs) qs).sd_mode ≡ qs.sd_mode
  unfolding filter
  mode-filters [] qs = refl
  mode-filters (f ∷ fs) qs = mode-filters fs (filter accepts mapper f qs)

  mode-new : (new {F = F} true).sd_mode ≡ 0
  unfolding new
  mode-new = refl

  -- One row, deleted and restored.
  marked_twice :
      (now : ℕ) (fs : List F) (p q : Row V → Bool) (r : Row V)
      → ((r : Row V) → p r ≡ (accepts_all fs r.values && not (is_live r)))
      → ((r : Row V) → q r ≡ (accepts_all fs r.values && is_live r))
      → marked none p (marked (some now) q r) ≡ marked none (λ r. accepts_all fs r.values) r
  marked_twice now fs p q r hp hq = elim (Bool-cases (accepts_all fs r.values)) [
    | inr fails ↦ rw (hq r, fails) (rw (hp r, fails) refl)
    | inl passes ↦ elim (Option-cases r.deleted_at) [
      | inl free ↦
          let live : q r ≡ true = hq r ∙ rw (passes, free) refl in
          rw (live, hp (record r { deleted_at = some now }), passes) refl
      | inr (t, gone) ↦
          let dead : q r ≡ false = hq r ∙ rw (passes, gone) refl in
          rw dead (rw (hp r, passes, gone) refl)
    ]
  ]

  selects-filters :
      (fs : List F) (r : Row V)
      → ((q : Condition F) (qs : List (Condition F)) → mapper.add_condition q qs ≡ qs ++ q ∷ [])
      → selects accepts (chain accepts mapper (filters fs) (new true)) r
        ≡ (accepts_all fs r.values && is_live r)
  selects-filters fs r appends =
      selects-chain accepts mapper (filters fs) r appends ∙ wanted-filters fs r

  marked_congr :
      (t : Option ℕ) (p q : Row V → Bool) (r : Row V) → p r ≡ q r → marked t p r ≡ marked t q r
  marked_congr t p q r e = rw e refl

  -- `delete` of a query set of filters puts the time on the rows that pass them and have none, and
  -- changes nothing else; `restore` of the query set then takes it off every row that passes them,
  -- those deleted before included, and changes nothing else. The mapper adds a condition at the end
  -- and updates the rows that the conditions select.
  pub restore-delete :
      (now : ℕ) (fs : List F) (rows : List (Row V))
      → ((q : Condition F) (qs : List (Condition F)) → mapper.add_condition q qs ≡ qs ++ q ∷ [])
      → ((test : Row V → Bool) (t : Option ℕ) (rows : List (Row V))
          → (mapper.update test t rows).1 ≡ map (marked t test) rows)
      → ((delete accepts mapper now (chain accepts mapper (filters fs) (new true)) rows).1
          ≡ map (marked (some now) (λ r. accepts_all fs r.values && is_live r)) rows)
        × ((restore accepts mapper
              (chain accepts mapper (filters fs) (new true))
              (delete accepts mapper now (chain accepts mapper (filters fs) (new true)) rows).1).1
            ≡ map (marked none (λ r. accepts_all fs r.values)) rows)
  unfolding restore delete
  restore-delete now fs rows appends updates =
      let qs : QuerySet F = chain accepts mapper (filters fs) (new true) in
      let p : Row V → Bool = selects accepts (only_deleted qs) in
      let q : Row V → Bool = selects accepts qs in
      let mode : qs.sd_mode ≡ 0 = mode-filters fs (new true) ∙ mode-new in
      (
        rw (mode, updates q (some now) rows)
            (map_congr _ _
              (λ r.
                marked_congr (some now) q (λ r. accepts_all fs r.values && is_live r) r
                  (selects-filters fs r appends))
              rows),
        rw (mode, updates q (some now) rows, updates p none (map (marked (some now) q) rows))
            (map-map (marked none p) (marked (some now) q) rows
              ∙ map_congr _ _
                  (λ r.
                    marked_twice now fs p q r
                      (λ r.
                        ap (λ x. selects accepts x r) (chain-only fs (new true))
                        ∙ selects-chain accepts mapper (filters fs ++ call_only_deleted ∷ []) r
                            appends
                        ∙ wanted-only fs r)
                      (λ r. selects-filters fs r appends))
                  rows),
      )
