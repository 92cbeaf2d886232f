-- ===== src/Models/GraphNode/Subtree/Ends.antt =====
-- models/graph_node.py `subtree`: the search ends, and what one round and the loop keep.
use tortoise_extended.Common.{
  ℕ, zero, suc, ◌+◌, ◌≤◌, ◌≡◌, refl, sym, ap, ◌∙◌, ◌⊎◌, inl, inr, Bool, true, false, Option, none,
  some, List, [], ◌∷◌, keep, All, length, length-append, ◌==◌, ==_refl, Bool-cases, arith,
}
use tortoise_extended.Common.Int.{ℤ}
use tortoise_extended.Models.GraphNode.{GraphNode, find, children}
use tortoise_extended.Models.GraphNode.Walk.{is_visited}
use tortoise_extended.Models.GraphNode.Walk.Ends.{unseen, unseen-found, unseen-le}
use tortoise_extended.Models.GraphNode.Subtree.{Search, visit, scan, round, loop, initial, subtree}

List-cases : {A : Type 0} (l : List A) → (l ≡ []) ⊎ ((x : A) × (xs : List A) × (l ≡ x ∷ xs))
List-cases [] = inl refl
List-cases (x ∷ xs) = inr (x, xs, refl)

-- The row is one of these.
abbrev pub In : GraphNode → List GraphNode → Type 0
In r [] = ⊥
In r (x ∷ xs) = (x ≡ r) ⊎ In r xs

-- What a query of the children of a node returns, in some order.
abbrev pub AreChildren : List GraphNode → GraphNode → List GraphNode → Type 0
AreChildren rows current found = All (λ r. In r rows × (children current r ≡ true)) found

keep-All :
    (test : GraphNode → Bool) (P : GraphNode → Type 0) (rows : List GraphNode)
    → ((r : GraphNode) → In r rows → P r)
    → All (λ r. P r × (test r ≡ true)) (keep test rows)
keep-All test P [] h = tt
keep-All test P (x ∷ rows) h = elim (Bool-cases (test x)) [
  | inl e ↦ rw e ((h x (inl refl), e), keep-All test P rows (λ r i. h r (inr i)))
  | inr e ↦ rw e (keep-All test P rows (λ r i. h r (inr i)))
]

-- The ordering of a query's rows keeps the rows.
abbrev pub Reorders : (List GraphNode → List GraphNode) → Type 1
Reorders order =
    (P : GraphNode → Type 0) (xs : List GraphNode)
    → (All P xs → All P (order xs)) × (All P (order xs) → All P xs)

pub found-AreChildren :
    (order : List GraphNode → List GraphNode) (rows : List GraphNode) (current : GraphNode)
    → Reorders order
    → AreChildren rows current (order (keep (children current) rows))
found-AreChildren order rows current h =
    (h (λ r. In r rows × (children current r ≡ true)) (keep (children current) rows)).0
      (keep-All (children current) (λ r. In r rows) rows λ r i. i)

found_row :
    (rows : List GraphNode) (r : GraphNode)
    → In r rows
    → (q : GraphNode) × (find r.pk rows ≡ some q)
found_row [] r i = absurd i
found_row (x ∷ rows) r (inl same) = (x, rw (ap (λ y. y.pk == r.pk) same, ==_refl r.pk) refl)
found_row (x ∷ rows) r (inr i) = elim (Bool-cases (x.pk == r.pk)) [
  | inl e ↦ (x, rw e refl)
  | inr e ↦ let (q, f) = found_row rows r i in (q, rw (e, f) refl)
]

module _ (order : List GraphNode → List GraphNode) (rows : List GraphNode) (self : GraphNode)
    (max_depth : Option ℤ) where
  -- What every visit of a child keeps, the loop over the children keeps.
  pub scan_rule :
      (P : Search → Type 0) (Q : GraphNode → Type 0) (found : List GraphNode) (s : Search)
      → ((c : GraphNode) (s : Search)
          → Q c
          → is_visited s.visited c.pk ≡ false
          → P s
          → P (visit order rows self max_depth c s))
      → All Q found
      → P s
      → P (scan order rows self max_depth found s)
  unfolding scan
  scan_rule P Q [] s keeps h p = p
  scan_rule P Q (c ∷ found) s keeps (q, h) p = elim (Bool-cases (is_visited s.visited c.pk)) [
    | inl e ↦ rw e (scan_rule P Q found s keeps h p)
    | inr e ↦
        rw e (scan_rule P Q found (visit order rows self max_depth c s) keeps h (keeps c s q e p))
  ]

  loop-nil :
      (fuel : ℕ) (s : Search) → s.queue ≡ [] → loop order rows self max_depth fuel s ≡ some s.result
  unfolding loop
  loop-nil zero s e = simp (loop, e)
  loop-nil (suc fuel) s e = simp (loop, e)

  loop-zero :
      (s : Search) (c : GraphNode) (rest : List GraphNode)
      → s.queue ≡ c ∷ rest
      → loop order rows self max_depth 0 s ≡ none
  unfolding loop
  loop-zero s c rest e = simp (loop, e)

  loop-suc :
      (fuel : ℕ) (s : Search) (c : GraphNode) (rest : List GraphNode)
      → s.queue ≡ c ∷ rest
      → loop order rows self max_depth (suc fuel) s
        ≡ loop order rows self max_depth fuel (round order rows self max_depth c rest s)
  unfolding loop
  loop-suc fuel s c rest e = simp (loop, e)

  -- What every round keeps holds at the end, where the queue is empty.
  pub loop_rule :
      (P : Search → Type 0)
      → ((s : Search) (current : GraphNode) (rest : List GraphNode)
          → s.queue ≡ current ∷ rest
          → P s
          → P (round order rows self max_depth current rest s))
      → (fuel : ℕ) (s : Search) (result : List GraphNode)
      → loop order rows self max_depth fuel s ≡ some result
      → P s
      → (t : Search) × P t × (t.queue ≡ []) × (result ≡ t.result)
  loop_rule P keeps zero s result h p = elim (List-cases s.queue) [
    | inl e ↦ (s, p, e, cc (h, loop-nil zero s e))
    | inr (c, rest, e) ↦ absurd (cc (h, loop-zero s c rest e))
  ]
  loop_rule P keeps (suc fuel) s result h p = elim (List-cases s.queue) [
    | inl e ↦ (s, p, e, cc (h, loop-nil (suc fuel) s e))
    | inr (c, rest, e) ↦
        loop_rule P keeps fuel (round order rows self max_depth c rest s) result
          (sym (loop-suc fuel s c rest e) ∙ h) (keeps s c rest e p)
  ]

  abbrev work : Search → ℕ
  work s = length s.queue + unseen s.visited rows

  visit-work :
      (c : GraphNode) (s : Search) (n : ℕ)
      → In c rows
      → is_visited s.visited c.pk ≡ false
      → work s ≤ n
      → work (visit order rows self max_depth c s) ≤ n
  visit-work c s n i new h =
      let (q, f) = found_row rows c i in
      let falls = unseen-found c.pk s.visited rows q f new in
      ground (arith, length-append s.queue (c ∷ []))

  loop_ends :
      (fuel : ℕ) (s : Search)
      → Reorders order
      → work s ≤ fuel
      → (result : List GraphNode) × (loop order rows self max_depth fuel s ≡ some result)
  loop_ends zero s h w = elim (List-cases s.queue) [
    | inl e ↦ (s.result, loop-nil zero s e)
    | inr (c, rest, e) ↦ absurd (omega (arith, ap length e))
  ]
  loop_ends (suc fuel) s h w = elim (List-cases s.queue) [
    | inl e ↦ (s.result, loop-nil (suc fuel) s e)
    | inr (c, rest, e) ↦
        let (result, ends) = loop_ends fuel (round order rows self max_depth c rest s) h (
          scan_rule (λ t. work t ≤ fuel) (λ r. In r rows × (children c r ≡ true))
            (order (keep (children c) rows)) (record s { queue = rest })
            (λ r t q new k. visit-work r t fuel q.0 new k) (found-AreChildren order rows c h)
            (omega (arith, ap length e))) in
        (result, loop-suc fuel s c rest e ∙ ends)
  ]

  -- The search ends within one round more than there are rows.
  pub subtree-ends :
      Reorders order → (result : List GraphNode) × (subtree order rows self max_depth ≡ some result)
  unfolding subtree
  subtree-ends h =
      loop_ends (suc (length rows)) (initial order rows self max_depth) h
        (omega (arith, unseen-le rows (self.pk ∷ []) rows))
