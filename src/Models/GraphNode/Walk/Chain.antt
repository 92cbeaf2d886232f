-- ===== src/Models/GraphNode/Walk/Chain.antt =====
-- models/graph_node.py `path_to_root`: where depths fall towards the root, the path is the chain of
-- parents from the root down to the node.
use tortoise_extended.Common.{
  ℕ, zero, suc, ◌≡◌, refl, sym, ap, subst, ◌∙◌, ◌⊎◌, inl, inr, true, false, Option, none, some,
  List, [], ◌∷◌, ◌++◌, append_assoc, All, length, ◌==◌, ==_iff, Bool-cases, Option-cases, Outcome,
  ok, raised, arith,
}
use tortoise_extended.Common.Int.{ℤ}
use tortoise_extended.Models.GraphNode.{GraphNode, GraphError, dangling_parent, find}
use tortoise_extended.Models.GraphNode.Walk.{
  lt_ℤ, is_visited, walk, path_to_root, sorted_path, sorted_by_depth, insert_node,
}
use tortoise_extended.Models.GraphNode.Walk.Ends.{
  find-pk, walk-top, walk-lost, walk-on, walk_ends, unseen-le,
}

lt_ℤ_trans : (a b c : ℤ) → lt_ℤ a b ≡ true → lt_ℤ b c ≡ true → lt_ℤ a c ≡ true
lt_ℤ_trans a b c h k = ground arith

lt_ℤ_irrefl : (a : ℤ) → lt_ℤ a a ≡ false
lt_ℤ_irrefl a = ground arith

-- The nodes below a first one, each deeper than the next.
abbrev Falling : GraphNode → List GraphNode → Type 0
Falling n [] = Unit
Falling n (m ∷ ms) = (lt_ℤ m.depth n.depth ≡ true) × Falling m ms

abbrev pub reverse : List GraphNode → List GraphNode
reverse [] = []
reverse (n ∷ ns) = reverse ns ++ n ∷ []

insert_node-last :
    (n : GraphNode) (ms : List GraphNode)
    → All (λ m. lt_ℤ m.depth n.depth ≡ true) ms
    → insert_node n ms ≡ ms ++ n ∷ []
unfolding insert_node
insert_node-last n [] h = refl
insert_node-last n (m ∷ ms) (h, hs) = rw h (ap (λ l. m ∷ l) (insert_node-last n ms hs))

All-snoc :
    (P : GraphNode → Type 0) (ns : List GraphNode) (n : GraphNode)
    → All P ns
    → P n
    → All P (ns ++ n ∷ [])
All-snoc P [] n h k = (k, tt)
All-snoc P (m ∷ ns) n (h, hs) k = (h, All-snoc P ns n hs k)

below :
    (d : ℤ) (n : GraphNode) (ms : List GraphNode)
    → lt_ℤ n.depth d ≡ true
    → Falling n ms
    → All (λ m. lt_ℤ m.depth d ≡ true) (reverse (n ∷ ms))
below d n [] h f = (h, tt)
below d n (m ∷ ms) h (g, f) =
    All-snoc (λ m. lt_ℤ m.depth d ≡ true) (reverse (m ∷ ms)) n
      (below d m ms (lt_ℤ_trans m.depth n.depth d g h) f) h

sorted_by_depth-Falling :
    (n : GraphNode) (ms : List GraphNode)
    → Falling n ms
    → sorted_by_depth (n ∷ ms) ≡ reverse (n ∷ ms)
unfolding sorted_by_depth insert_node
sorted_by_depth-Falling n [] f = refl
sorted_by_depth-Falling n (m ∷ ms) (h, f) =
    ap (insert_node n) (sorted_by_depth-Falling m ms f)
    ∙ insert_node-last n (reverse (m ∷ ms)) (below n.depth m ms h f)

module _ (rows : List GraphNode) where
  -- From a node to the root by way of rows: each is the parent of the one before.
  abbrev pub Upward : GraphNode → List GraphNode → Type 0
  Upward n [] = n.parent_id ≡ none
  Upward n (p ∷ ps) = (n.parent_id ≡ some p.pk) × (find p.pk rows ≡ some p) × Upward p ps

  -- The chain of parents stops at a link to a row that does not exist.
  abbrev pub Broken : GraphNode → List GraphNode → ℕ → Type 0
  Broken n [] lost = (n.parent_id ≡ some lost) × (find lost rows ≡ none)
  Broken n (p ∷ ps) lost = (n.parent_id ≡ some p.pk) × (find p.pk rows ≡ some p) × Broken p ps lost

  -- A row is deeper than its parent.
  abbrev pub IsGraded : Type 0
  IsGraded =
      (n p : GraphNode)
      → find n.pk rows ≡ some n
      → find p.pk rows ≡ some p
      → n.parent_id ≡ some p.pk
      → lt_ℤ p.depth n.depth ≡ true

  -- What the walk has visited is deeper than where it is.
  abbrev Deeper : ℤ → List ℕ → Type 0
  Deeper d visited =
      All (λ k. (v : GraphNode) × (find k rows ≡ some v) × (lt_ℤ d v.depth ≡ true)) visited

  fresh :
      (n : GraphNode) (visited : List ℕ)
      → find n.pk rows ≡ some n
      → Deeper n.depth visited
      → is_visited visited n.pk ≡ false
  fresh n [] own h = refl
  fresh n (k ∷ ks) own ((v, f, l), h) = elim (Bool-cases (k == n.pk)) [
    | inl e ↦ absurd (stuck v ((==_iff k n.pk).0 e) f l)
    | inr e ↦ rw e (fresh n ks own h)
  ]
    where
      stuck : (v : GraphNode) → k ≡ n.pk → find k rows ≡ some v → lt_ℤ n.depth v.depth ≡ true → ⊥
      stuck v e f l =
          let same : v ≡ n = cc (e, f, own) in
          let self_lt : lt_ℤ n.depth n.depth ≡ true =
            subst (λ x. lt_ℤ n.depth x.depth ≡ true) same l in
          cc (self_lt, lt_ℤ_irrefl n.depth)

  rise : (d e : ℤ) (visited : List ℕ) → lt_ℤ e d ≡ true → Deeper d visited → Deeper e visited
  rise d e [] l h = tt
  rise d e (k ∷ ks) l ((v, f, m), h) = ((v, f, lt_ℤ_trans e d v.depth l m), rise d e ks l h)

  abbrev Ascent : GraphNode → List GraphNode → Outcome GraphError (List GraphNode) → Type 0
  Ascent n path o =
      ((ps : List GraphNode) × Upward n ps × Falling n ps × (o ≡ ok (path ++ n ∷ ps)))
      ⊎ ((ps : List GraphNode) × (lost : ℕ) × Broken n ps lost × (o ≡ raised dangling_parent))

  outcome :
      {w : Option (Outcome GraphError (List GraphNode))} {o a : Outcome GraphError (List GraphNode)}
      → w ≡ some a
      → w ≡ some o
      → o ≡ a
  outcome e h = cc (e, h)

  longer :
      (path : List GraphNode) (n p : GraphNode) (o : Outcome GraphError (List GraphNode))
      → find p.pk rows ≡ some p
      → n.parent_id ≡ some p.pk
      → lt_ℤ p.depth n.depth ≡ true
      → Ascent p (path ++ n ∷ []) o
      → Ascent n path o
  longer path n p o own up l (inl (ps, u, f, e)) =
      inl (p ∷ ps, (up, own, u), (l, f), e ∙ ap ok (append_assoc path (n ∷ []) (p ∷ ps)))
  longer path n p o own up l (inr (ps, lost, b, e)) = inr (p ∷ ps, lost, (up, own, b), e)

  walk-Ascent :
      (fuel : ℕ) (path : List GraphNode) (visited : List ℕ) (n : GraphNode)
      (o : Outcome GraphError (List GraphNode))
      → IsGraded
      → find n.pk rows ≡ some n
      → Deeper n.depth visited
      → walk rows fuel path visited n ≡ some o
      → Ascent n path o
  unfolding walk
  walk-Ascent zero path visited n o graded own deep h = absurd (ground arith)
  walk-Ascent (suc fuel) path visited n o graded own deep h =
      let new = fresh n visited own deep in
      elim (Option-cases n.parent_id) [
        | inl top ↦ inl ([], top, tt, outcome (walk-top rows fuel path visited n new top) h)
        | inr (k, up) ↦ elim (Option-cases (find k rows)) [
          | inl lost ↦
              inr ([], k, (up, lost), outcome (walk-lost rows fuel path visited n k new up lost) h)
          | inr (p, found) ↦
              let own' : find p.pk rows ≡ some p =
                ap (λ j. find j rows) (find-pk k rows p found) ∙ found in
              let up' : n.parent_id ≡ some p.pk = up ∙ ap some (sym (find-pk k rows p found)) in
              let l = graded n p own own' up' in
              longer path n p o own' up' l (
                walk-Ascent fuel (path ++ n ∷ []) (n.pk ∷ visited) p o graded own'
                  ((n, own, l), rise n.depth p.depth visited l deep)
                  (sym (walk-on rows fuel path visited n k p new up found) ∙ h))
        ]
      ]

  -- Where every row is deeper than its parent, `path_to_root` of a row returns the chain of its
  -- parents in order from the root, which has no parent, down to the row itself; or the chain
  -- stops at a link to a row that does not exist, and `GraphError` is raised. It does one or
  -- the other.
  pub path_to_root-Upward :
      (self : GraphNode)
      → IsGraded
      → find self.pk rows ≡ some self
      → ((ps : List GraphNode) × Upward self ps
          × (path_to_root rows self ≡ some (ok (reverse (self ∷ ps)))))
        ⊎ ((ps : List GraphNode) × (lost : ℕ) × Broken self ps lost
            × (path_to_root rows self ≡ some (raised dangling_parent)))
  unfolding path_to_root
  path_to_root-Upward self graded own =
      let (o, ends) =
        walk_ends rows (suc (suc (length rows))) [] [] self own
          (omega (arith, unseen-le rows [] rows)) in
      elim (walk-Ascent (suc (suc (length rows))) [] [] self o graded own tt ends) [
        | inl (ps, u, f, e) ↦ inl (
          ps,
          u,
          ap (sorted_path rows) (ends ∙ ap some e)
              ∙ ap (λ l. some (ok l)) (sorted_by_depth-Falling self ps f),
        )
        | inr (ps, lost, b, e) ↦ inr (ps, lost, b, ap (sorted_path rows) (ends ∙ ap some e))
      ]
