-- ===== src/Models/GraphNode/Subtree/Closed.antt =====
-- models/graph_node.py `subtree` without a bound on the depth: the nodes it returns are the
-- descendants of the node.
use tortoise_extended.Common.{
  ℕ, suc, ◌≡◌, refl, sym, subst, ◌⊎◌, inl, inr, Bool, true, false, none, some, List, [], ◌∷◌, ◌++◌,
  keep, All, length, ◌==◌, ==_iff, ==_refl, Bool-cases, arith,
}
use tortoise_extended.Models.GraphNode.{GraphNode, opt_eq, children}
use tortoise_extended.Models.GraphNode.Walk.{is_visited}
use tortoise_extended.Models.GraphNode.Subtree.{Search, visit, scan, round, initial, subtree}
use tortoise_extended.Models.GraphNode.Subtree.Holds.{
  holds, holds-snoc, holds-last, All-snoc, All-map, visited-All, keep-use,
}
use tortoise_extended.Models.GraphNode.Subtree.Ends.{
  In, Reorders, AreChildren, found-AreChildren, scan_rule, loop_rule, subtree-ends,
}

-- The node itself, and the rows whose parent is a descendant.
pub data Descendant (rows : List GraphNode) (self : GraphNode) : GraphNode → Type 0 where
  itself : Descendant rows self self
  child :
      {p r : GraphNode}
      → Descendant rows self p
      → In r rows
      → opt_eq r.parent_id p.pk ≡ true
      → Descendant rows self r

module _ (order : List GraphNode → List GraphNode) (rows : List GraphNode) (self : GraphNode) where
  abbrev D : GraphNode → Type 0
  D = Descendant rows self

  abbrev Sound : Search → Type 0
  Sound s = All D s.result × All D s.queue

  abbrev Listed : Search → Type 0
  Listed s = All (λ k. holds s.result k ≡ true) s.visited

  -- The children of a visited node are visited, unless it is in the queue or the current one.
  abbrev Done : List ℕ → ℕ → Type 0
  Done visited k =
      (r : GraphNode) → In r rows → opt_eq r.parent_id k ≡ true → is_visited visited r.pk ≡ true

  abbrev Open : (ℕ → Bool) → Search → ℕ → Type 0
  Open current s k = (current k ≡ true) ⊎ ((holds s.queue k ≡ true) ⊎ Done s.visited k)

  visit-Sound :
      (c : GraphNode) (s : Search) → D c → Sound s → Sound (visit order rows self none c s)
  visit-Sound c s d (h, k) = (All-snoc D s.result c h d, All-snoc D s.queue c k d)

  visit-Listed : (c : GraphNode) (s : Search) → Listed s → Listed (visit order rows self none c s)
  visit-Listed c s h = (
    holds-last s.result c,
    All-map (λ k. holds s.result k ≡ true) (λ k. holds (s.result ++ c ∷ []) k ≡ true) s.visited
        (λ k. holds-snoc s.result c k) h,
  )

  visit-Open :
      (current : ℕ → Bool) (c : GraphNode) (s : Search)
      → All (Open current s) s.visited
      → All (Open current (visit order rows self none c s)) (c.pk ∷ s.visited)
  visit-Open current c s h = (
    inr (inl (holds-last s.queue c)),
    All-map (Open current s) (Open current (visit order rows self none c s)) s.visited grow h,
  )
    where
      grow : (k : ℕ) → Open current s k → Open current (visit order rows self none c s) k
      grow k (inl e) = inl e
      grow k (inr (inl q)) = inr (inl (holds-snoc s.queue c k q))
      grow k (inr (inr d)) = inr (inr (λ r i e. ground (arith, d r i e)))

  scan-grows :
      (Q : GraphNode → Type 0) (found : List GraphNode) (s : Search) (k : ℕ)
      → All Q found
      → is_visited s.visited k ≡ true
      → is_visited (scan order rows self none found s).visited k ≡ true
  scan-grows Q found s k h v =
      scan_rule order rows self none (λ t. is_visited t.visited k ≡ true) Q found s
        (λ c t q new w. ground (arith, w)) h v

  scan-old :
      (c : GraphNode) (found : List GraphNode) (s : Search)
      → is_visited s.visited c.pk ≡ true
      → scan order rows self none found s ≡ scan order rows self none (c ∷ found) s
  unfolding scan
  scan-old c found s e = rw e refl

  scan-new :
      (c : GraphNode) (found : List GraphNode) (s : Search)
      → is_visited s.visited c.pk ≡ false
      → scan order rows self none found (visit order rows self none c s)
        ≡ scan order rows self none (c ∷ found) s
  unfolding scan
  scan-new c found s e = rw e refl

  abbrev AreSeen : List GraphNode → Search → Type 0
  AreSeen found t = All (λ r. is_visited t.visited r.pk ≡ true) found

  scan-seen :
      (Q : GraphNode → Type 0) (found : List GraphNode) (s : Search)
      → All Q found
      → AreSeen found (scan order rows self none found s)
  scan-seen Q [] s h = tt
  scan-seen Q (c ∷ found) s (q, h) = elim (Bool-cases (is_visited s.visited c.pk)) [
    | inl e ↦
        subst (AreSeen (c ∷ found)) (scan-old c found s e)
          (scan-grows Q found s c.pk h e, scan-seen Q found s h)
    | inr e ↦ subst (AreSeen (c ∷ found)) (scan-new c found s e) (
      scan-grows Q found (visit order rows self none c s) c.pk h (ground (arith, ==_refl c.pk)),
      scan-seen Q found (visit order rows self none c s) h,
    )
  ]

  abbrev Kept : Search → Type 0
  Kept s =
      Sound s
      × Listed s
      × (is_visited s.visited self.pk ≡ true)
      × All (Open (λ k. false) s) s.visited

  module _ (h : Reorders order) (s : Search) (current : GraphNode) (rest : List GraphNode)
      (queued : s.queue ≡ current ∷ rest) (kept : Kept s) where
    abbrev found : List GraphNode
    found = order (keep (children current) rows)

    abbrev popped : Search
    popped = record s { queue = rest }

    abbrev later : Search
    later = round order rows self none current rest s

    are_children : AreChildren rows current found
    are_children = found-AreChildren order rows current h

    queue-Sound : D current × All D rest
    queue-Sound = subst (All D) queued kept.0.1

    round-Sound : Sound later
    unfolding children
    round-Sound =
        scan_rule order rows self none Sound (λ r. In r rows × (children current r ≡ true)) found
          popped (λ c t q new k. visit-Sound c t (child queue-Sound.0 q.0 q.1) k) are_children
          (kept.0.0, queue-Sound.1)

    round-Listed : Listed later
    round-Listed =
        scan_rule order rows self none Listed (λ r. In r rows × (children current r ≡ true)) found
          popped (λ c t q new k. visit-Listed c t k) are_children kept.1

    round-Open : All (Open (λ k. current.pk == k) later) later.visited
    round-Open =
        scan_rule order rows self none (λ t. All (Open (λ k. current.pk == k) t) t.visited)
          (λ r. In r rows × (children current r ≡ true)) found popped
          (λ c t q new k. visit-Open (λ k. current.pk == k) c t k) are_children
          (All-map (Open (λ k. false) s) (Open (λ k. current.pk == k) popped) s.visited pop kept.3)
      where
        pop : (k : ℕ) → Open (λ k. false) s k → Open (λ k. current.pk == k) popped k
        pop k (inl e) = absurd (ground arith)
        pop k (inr (inl q)) =
            let m = subst (λ l. holds l k ≡ true) queued q in
            elim (Bool-cases (current.pk == k)) [
              | inl e ↦ inl e
              | inr e ↦ inr (inl (ground (arith, m)))
            ]
        pop k (inr (inr d)) = inr (inr d)

    -- The children of the current node are visited now.
    current-Done : Done later.visited current.pk
    unfolding children
    current-Done r i e =
        keep-use (children current) (λ r. is_visited later.visited r.pk ≡ true) rows r
          ((h (λ r. is_visited later.visited r.pk ≡ true) (keep (children current) rows)).1
            (scan-seen (λ r. In r rows × (children current r ≡ true)) found popped are_children))
          i e

    round-Kept : Kept later
    round-Kept = (
      round-Sound,
      round-Listed,
      scan-grows (λ r. In r rows × (children current r ≡ true)) found popped self.pk are_children
          kept.2,
      All-map (Open (λ k. current.pk == k) later) (Open (λ k. false) later) later.visited close
          round-Open,
    )
      where
        close : (k : ℕ) → Open (λ k. current.pk == k) later k → Open (λ k. false) later k
        close k (inl e) =
            inr (inr (subst (Done later.visited) ((==_iff current.pk k).0 e) current-Done))
        close k (inr o) = inr o

  initial-Kept : Kept (initial order rows self none)
  initial-Kept = (
    ((itself, tt), (itself, tt)),
    (ground (arith, ==_refl self.pk), tt),
    ground (arith, ==_refl self.pk),
    (inr (inl (ground (arith, ==_refl self.pk))), tt),
  )

  nothing : false ≡ true → ⊥
  nothing h = cc h

  descendant-visited :
      (t : Search)
      → Kept t
      → t.queue ≡ []
      → (r : GraphNode) → D r
      → is_visited t.visited r.pk ≡ true
  descendant-visited t kept empty r itself = kept.2
  descendant-visited t kept empty r (child {p = p} d i e) = closed (
      visited-All (Open (λ k. false) t) t.visited p.pk kept.3 (descendant-visited t kept empty p d))
    where
      closed : Open (λ k. false) t p.pk → is_visited t.visited r.pk ≡ true
      closed (inl e) = absurd (ground arith)
      closed (inr (inl q)) = absurd (nothing (subst (λ l. holds l p.pk ≡ true) empty q))
      closed (inr (inr done)) = done r i e

  -- Without a bound on the depth `subtree` returns a list, whatever the links are, cycles
  -- included: each node in it is the node itself or a row whose chain of parents leads to it, and
  -- for each such row the list holds a node with its key.
  pub subtree-Descendant :
      Reorders order
      → (result : List GraphNode) × (subtree order rows self none ≡ some result)
        × All (Descendant rows self) result
        × ((r : GraphNode) → Descendant rows self r → holds result r.pk ≡ true)
  unfolding subtree
  subtree-Descendant h =
      let (result, ends) = subtree-ends order rows self none h in
      let (t, kept, empty, same) =
        loop_rule order rows self none Kept (λ s c rest e k. round-Kept h s c rest e k)
          (suc (length rows)) (initial order rows self none) result ends initial-Kept in
      (
        result,
        ends,
        subst (All D) (sym same) kept.0.0,
        λ r d.
            subst (λ l. holds l r.pk ≡ true) (sym same)
              (visited-All (λ k. holds t.result k ≡ true) t.visited r.pk kept.1
                (descendant-visited t kept empty r d)),
      )
