-- ===== src/Models/SoftDelete/Conditions.antt =====
-- Which rows a query set of models/soft_delete.py selects after a chain of calls.
use tortoise_extended.Common.{
  ℕ, ◌≡◌, append_assoc, ◌⊎◌, inl, inr, refl, sym, ap, ◌∙◌, Bool, true, false, not, ◌&&◌, none, some,
  List, [], ◌∷◌, ◌++◌, length, length-append, ◌==◌, if◌then◌else◌, arith,
}
use tortoise_extended.Models.SoftDelete.{
  Condition, deleted_at_isnull, given, QuerySet, Row, Mapper, new, with_deleted, only_deleted,
  without, only, filter, is_live, holds, all_hold, selects, del_elem, set_elem,
}

-- A call on a query set.
pub data Call (F : Type 0) : Type 0 where
  call_filter : F → Call F
  call_with_deleted call_only_deleted : Call F

module _ {F V : Type 0} (accepts : F → V → Bool) (mapper : Mapper F V) where
  abbrev pub chain : List (Call F) → QuerySet F → QuerySet F
  chain [] qs = qs
  chain (call_filter f ∷ calls) qs = chain calls (filter accepts mapper f qs)
  chain (call_with_deleted ∷ calls) qs = chain calls (with_deleted qs)
  chain (call_only_deleted ∷ calls) qs = chain calls (only_deleted qs)

  abbrev pub marker : ℕ → Row V → Bool
  marker mode r = if mode == 0 then is_live r else if mode == 1 then true else not (is_live r)

  -- What the caller asked for: every filter, and the marker by the last call that names it.
  abbrev pub wanted : List (Call F) → ℕ → Row V → Bool
  wanted [] mode r = marker mode r
  wanted (call_filter f ∷ calls) mode r = accepts f r.values && wanted calls mode r
  wanted (call_with_deleted ∷ calls) mode r = wanted calls 1 r
  wanted (call_only_deleted ∷ calls) mode r = wanted calls 2 r

  abbrev givens : List F → List (Condition F)
  givens [] = []
  givens (f ∷ fs) = given f ∷ givens fs

  module _
      (appends : (q : Condition F) (qs : List (Condition F))
        → mapper.add_condition q qs ≡ qs ++ q ∷ [])
      (r : Row V) where
    agree : List F → Bool
    agree [] = true
    agree (f ∷ fs) = accepts f r.values && agree fs

    -- The conditions are the caller's, which come to `acc` on the row, and the one at `sd_index`.
    abbrev Marked : Bool → ℕ → QuerySet F → Bool → Type 0
    Marked b mode qs acc =
        (fs : List F) × (gs : List F) × (qs.q_objects
          ≡ givens fs ++ deleted_at_isnull b ∷ givens gs)
        × (qs.sd_index ≡ some (length (givens fs)))
        × (qs.sd_mode ≡ mode)
        × (acc ≡ (agree fs && agree gs))

    abbrev Unmarked : QuerySet F → Bool → Type 0
    Unmarked qs acc =
        (fs : List F) × (qs.q_objects ≡ givens fs)
        × (qs.sd_index ≡ none)
        × (qs.sd_mode ≡ 1)
        × (acc ≡ agree fs)

    abbrev Tracked : QuerySet F → Bool → Type 0
    Tracked qs acc = Marked true 0 qs acc ⊎ Unmarked qs acc ⊎ Marked false 2 qs acc

    givens-append : (fs gs : List F) → givens (fs ++ gs) ≡ givens fs ++ givens gs
    givens-append [] gs = refl
    givens-append (f ∷ fs) gs = rw (givens-append fs gs) refl

    agree-append : (fs gs : List F) → agree (fs ++ gs) ≡ (agree fs && agree gs)
    unfolding agree
    agree-append [] gs = refl
    agree-append (f ∷ fs) gs = ground (arith, agree-append fs gs)

    all_hold-append :
        (ps qs : List (Condition F))
        → all_hold accepts (ps ++ qs) r ≡ (all_hold accepts ps r && all_hold accepts qs r)
    all_hold-append [] qs = refl
    all_hold-append (p ∷ ps) qs = ground (arith, all_hold-append ps qs)

    all_hold-givens : (fs : List F) → all_hold accepts (givens fs) r ≡ agree fs
    unfolding agree
    all_hold-givens [] = refl
    all_hold-givens (f ∷ fs) = rw (all_hold-givens fs) refl

    del_elem-length :
        (ps qs : List (Condition F)) (c : Condition F)
        → del_elem (length ps) (ps ++ c ∷ qs) ≡ ps ++ qs
    del_elem-length [] qs c = refl
    del_elem-length (p ∷ ps) qs c = rw (del_elem-length ps qs c) refl

    set_elem-length :
        (ps qs : List (Condition F)) (c d : Condition F)
        → set_elem (length ps) d (ps ++ c ∷ qs) ≡ ps ++ d ∷ qs
    set_elem-length [] qs c d = refl
    set_elem-length (p ∷ ps) qs c d = rw (set_elem-length ps qs c d) refl

    append_one :
        (b : Bool) (mode : ℕ) (f : F) (qs : QuerySet F) (acc : Bool)
        → Marked b mode qs acc
        → Marked b mode (filter accepts mapper f qs) (acc && accepts f r.values)
    unfolding filter agree
    append_one b mode f qs acc (fs, gs, e, i, m, a) = (
      fs,
      gs ++ f ∷ [],
      appends (given f) qs.q_objects
          ∙ rw (e, givens-append gs (f ∷ []))
              (append_assoc (givens fs) (deleted_at_isnull b ∷ givens gs) (given f ∷ [])),
      i,
      m,
      ground (arith, agree-append gs (f ∷ [])),
    )

    Tracked-filter :
        (f : F) (qs : QuerySet F) (acc : Bool)
        → Tracked qs acc
        → Tracked (filter accepts mapper f qs) (acc && accepts f r.values)
    unfolding filter agree
    Tracked-filter f qs acc (inl h) = inl (append_one true 0 f qs acc h)
    Tracked-filter f qs acc (inr (inl (fs, e, i, m, a))) = inr (
        inl (
          fs ++ f ∷ [],
          appends (given f) qs.q_objects ∙ rw (e, givens-append fs (f ∷ [])) refl,
          i,
          m,
          ground (arith, agree-append fs (f ∷ [])),
        ))
    Tracked-filter f qs acc (inr (inr h)) = inr (inr (append_one false 2 f qs acc h))

    unmark :
        (b : Bool) (mode : ℕ) (qs : QuerySet F) (acc : Bool)
        → Marked b mode qs acc
        → Unmarked (with_deleted qs) acc
    unfolding with_deleted without
    unmark b mode qs acc (fs, gs, e, i, m, a) = rw i (
      fs ++ gs,
      rw (e, del_elem-length (givens fs) (givens gs) (deleted_at_isnull b))
          (sym (givens-append fs gs)),
      refl,
      refl,
      a ∙ sym (agree-append fs gs),
    )

    Tracked-with_deleted :
        (qs : QuerySet F) (acc : Bool) → Tracked qs acc → Unmarked (with_deleted qs) acc
    unfolding with_deleted without
    Tracked-with_deleted qs acc (inl h) = unmark true 0 qs acc h
    Tracked-with_deleted qs acc (inr (inr h)) = unmark false 2 qs acc h
    Tracked-with_deleted qs acc (inr (inl (fs, e, i, m, a))) = rw i (fs, e, refl, refl, a)

    remark :
        (b : Bool) (mode : ℕ) (qs : QuerySet F) (acc : Bool)
        → Marked b mode qs acc
        → Marked false 2 (only_deleted qs) acc
    unfolding only_deleted only
    remark b mode qs acc (fs, gs, e, i, m, a) = rw i (
      fs,
      gs,
      rw
          (
            e,
            set_elem-length (givens fs) (givens gs) (deleted_at_isnull b) (deleted_at_isnull false),
          )
          refl,
      refl,
      refl,
      a,
    )

    Tracked-only_deleted :
        (qs : QuerySet F) (acc : Bool) → Tracked qs acc → Marked false 2 (only_deleted qs) acc
    unfolding only_deleted only agree
    Tracked-only_deleted qs acc (inl h) = remark true 0 qs acc h
    Tracked-only_deleted qs acc (inr (inr h)) = remark false 2 qs acc h
    Tracked-only_deleted qs acc (inr (inl (fs, e, i, m, a))) = rw i (
      fs,
      [],
      rw e refl,
      ap some (rw e (omega (arith, length-append (givens fs) (deleted_at_isnull false ∷ [])))),
      refl,
      ground arith,
    )

    kept_mode :
        (f : F) (qs : QuerySet F) (mode : ℕ)
        → qs.sd_mode ≡ mode
        → (filter accepts mapper f qs).sd_mode ≡ mode
    unfolding filter
    kept_mode f qs mode at = at

    select-Marked :
        (b : Bool) (mode : ℕ) (qs : QuerySet F) (acc : Bool)
        → Marked b mode qs acc
        → selects accepts qs r ≡ (acc && holds accepts (deleted_at_isnull b) r)
    select-Marked b mode qs acc (fs, gs, e, i, m, a) =
        rw
          (
            e,
            all_hold-append (givens fs) (deleted_at_isnull b ∷ givens gs),
            all_hold-givens fs,
            all_hold-givens gs,
          )
          (ground arith)

    chain_lem :
        (calls : List (Call F)) (qs : QuerySet F) (mode : ℕ) (acc : Bool)
        → qs.sd_mode ≡ mode
        → Tracked qs acc
        → selects accepts (chain calls qs) r ≡ (acc && wanted calls mode r)
    chain_lem [] qs mode acc at (inl h) =
        let (_, _, _, _, m, _) = h in
        let zero_mode : mode ≡ 0 = sym at ∙ m in rw zero_mode (select-Marked true 0 qs acc h)
    chain_lem [] qs mode acc at (inr (inl (fs, e, i, m, a))) =
        let one_mode : mode ≡ 1 = sym at ∙ m in rw (one_mode, e, all_hold-givens fs) (ground arith)
    chain_lem [] qs mode acc at (inr (inr h)) =
        let (_, _, _, _, m, _) = h in
        let two_mode : mode ≡ 2 = sym at ∙ m in rw two_mode (select-Marked false 2 qs acc h)
    chain_lem (call_filter f ∷ calls) qs mode acc at h =
        chain_lem calls (filter accepts mapper f qs) mode (acc && accepts f r.values)
          (kept_mode f qs mode at) (Tracked-filter f qs acc h)
        ∙ ground arith
    chain_lem (call_with_deleted ∷ calls) qs mode acc at h =
        let now = Tracked-with_deleted qs acc h in
        let (_, _, _, m, _) = now in chain_lem calls (with_deleted qs) 1 acc m (inr (inl now))
    chain_lem (call_only_deleted ∷ calls) qs mode acc at h =
        let now = Tracked-only_deleted qs acc h in
        let (_, _, _, _, m, _) = now in chain_lem calls (only_deleted qs) 2 acc m (inr (inr now))

  -- After any chain of calls on a new query set, a row is selected exactly if it passes every filter
  -- of the chain and its marker is what the last call of the chain that names it wants: set after
  -- `only_deleted`, either after `with_deleted`, and not set if none does; if the mapper adds a
  -- condition at the end.
  pub selects-chain :
      (calls : List (Call F)) (r : Row V)
      → ((q : Condition F) (qs : List (Condition F)) → mapper.add_condition q qs ≡ qs ++ q ∷ [])
      → selects accepts (chain calls (new true)) r ≡ wanted calls 0 r
  unfolding new agree
  selects-chain calls r appends =
      chain_lem appends r calls (new true) 0 true refl (inl ([], [], refl, refl, refl, refl))
