-- ===== src/Models/GraphNode/Walk/Ends.antt =====
-- models/graph_node.py `path_to_root`: the walk ends, whatever the links are.
use tortoise_extended.Common.{
  ℕ, zero, suc, ◌<◌, ◌≤◌, ◌≡◌, refl, ap, ◌∙◌, inl, inr, true, false, not, none, some, List, [], ◌∷◌,
  ◌++◌, keep, length, ◌==◌, ==_iff, Bool-cases, Option-cases, Outcome, ok, raised, arith,
}
use tortoise_extended.Models.GraphNode.{GraphNode, GraphError, dangling_parent, find}
use tortoise_extended.Models.GraphNode.Walk.{
  is_visited, walk, path_to_root, sorted_path, sorted_by_depth,
}

-- A row that is found has the key.
pub find-pk : (k : ℕ) (rows : List GraphNode) (r : GraphNode) → find k rows ≡ some r → r.pk ≡ k
find-pk k [] r h = absurd (ground arith)
find-pk k (q ∷ rows) r h = ground (arith, find-pk k rows r)

-- The rows that are not visited yet.
abbrev pub unseen : List ℕ → List GraphNode → ℕ
unseen visited rows = length (keep (λ r. not (is_visited visited r.pk)) rows)

unseen-cons :
    (k : ℕ) (visited : List ℕ) (rows : List GraphNode)
    → unseen (k ∷ visited) rows ≤ unseen visited rows
unseen-cons k visited [] = omega arith
unseen-cons k visited (r ∷ rows) = ground (arith, unseen-cons k visited rows)

pub unseen-found :
    (k : ℕ) (visited : List ℕ) (rows : List GraphNode) (r : GraphNode)
    → find k rows ≡ some r
    → is_visited visited k ≡ false
    → unseen (k ∷ visited) rows < unseen visited rows
unseen-found k visited [] r f h = absurd (ground arith)
unseen-found k visited (q ∷ rows) r f h = elim (Bool-cases (q.pk == k)) [
  | inl e ↦
      let same = (==_iff q.pk k).0 e in
      ground (arith, unseen-cons k visited rows, ap (is_visited visited) same)
  | inr e ↦ ground (arith, unseen-found k visited rows r (ground arith) h)
]

module _ (rows : List GraphNode) where
  module _ (fuel : ℕ) (path : List GraphNode) (visited : List ℕ) (current : GraphNode) where
    walk-visited :
        is_visited visited current.pk ≡ true
        → walk rows (suc fuel) path visited current ≡ some (ok path)
    unfolding walk
    walk-visited e = simp (walk, e)

    pub walk-top :
        is_visited visited current.pk ≡ false
        → current.parent_id ≡ none
        → walk rows (suc fuel) path visited current ≡ some (ok (path ++ current ∷ []))
    unfolding walk
    walk-top e top = simp (walk, e, top)

    pub walk-lost :
        (p : ℕ)
        → is_visited visited current.pk ≡ false
        → current.parent_id ≡ some p
        → find p rows ≡ none
        → walk rows (suc fuel) path visited current ≡ some (raised dangling_parent)
    unfolding walk
    walk-lost p e up lost = simp (walk, e, up, lost)

    pub walk-on :
        (p : ℕ) (parent : GraphNode)
        → is_visited visited current.pk ≡ false
        → current.parent_id ≡ some p
        → find p rows ≡ some parent
        → walk rows (suc fuel) path visited current
          ≡ walk rows fuel (path ++ current ∷ []) (current.pk ∷ visited) parent
    unfolding walk
    walk-on p parent e up found = simp (walk, e, up, found)

  -- One round, given that the walk from a parent ends.
  walk-suc :
      (fuel : ℕ) (path : List GraphNode) (visited : List ℕ) (current : GraphNode)
      → ((parent : GraphNode)
          → find parent.pk rows ≡ some parent
          → is_visited visited current.pk ≡ false
          → (o : Outcome GraphError (List GraphNode)) × (walk rows fuel
                (path ++ current ∷ [])
                (current.pk ∷ visited)
                parent
              ≡ some o))
      → (o : Outcome GraphError (List GraphNode)) × (walk rows (suc fuel) path visited current
          ≡ some o)
  walk-suc fuel path visited current go = elim (Bool-cases (is_visited visited current.pk)) [
    | inl e ↦ (ok path, walk-visited fuel path visited current e)
    | inr e ↦ elim (Option-cases current.parent_id) [
      | inl top ↦ (ok (path ++ current ∷ []), walk-top fuel path visited current e top)
      | inr (p, up) ↦ elim (Option-cases (find p rows)) [
        | inl lost ↦ (raised dangling_parent, walk-lost fuel path visited current p e up lost)
        | inr (parent, found) ↦
            let own = ap (λ k. find k rows) (find-pk p rows parent found) ∙ found in
            let (o, ends) = go parent own e in
            (o, walk-on fuel path visited current p parent e up found ∙ ends)
      ]
    ]
  ]

  pub walk_ends :
      (fuel : ℕ) (path : List GraphNode) (visited : List ℕ) (current : GraphNode)
      → find current.pk rows ≡ some current
      → unseen visited rows < fuel
      → (o : Outcome GraphError (List GraphNode)) × (walk rows fuel path visited current ≡ some o)
  walk_ends zero path visited current f h = absurd (omega arith)
  walk_ends (suc fuel) path visited current f h = walk-suc fuel path visited current λ parent own e.
      walk_ends fuel (path ++ current ∷ []) (current.pk ∷ visited) parent own
        (omega (arith, unseen-found current.pk visited rows current f e))

  pub unseen-le : (visited : List ℕ) (rs : List GraphNode) → unseen visited rs ≤ length rs
  unseen-le visited [] = omega arith
  unseen-le visited (r ∷ rs) = ground (arith, unseen-le visited rs)

  -- `path_to_root` ends within two rounds more than there are rows, for any node and any links:
  -- cycles, missing parents and nodes that are not in the table included.
  pub path_to_root_ends :
      (self : GraphNode)
      → (o : Outcome GraphError (List GraphNode)) × (path_to_root rows self ≡ some o)
  unfolding path_to_root
  path_to_root_ends self =
      let (o, ends) = walk-suc (suc (length rows)) [] [] self λ parent own e.
        walk_ends (suc (length rows)) (self ∷ []) (self.pk ∷ []) parent own
          (omega (arith, unseen-le (self.pk ∷ []) rows)) in
      sorted o ends
    where
      sorted :
          (o : Outcome GraphError (List GraphNode))
          → walk rows (suc (suc (length rows))) [] [] self ≡ some o
          → (p : Outcome GraphError (List GraphNode)) × (sorted_path rows
                (walk rows (suc (suc (length rows))) [] [] self)
              ≡ some p)
      sorted (ok path) e = (ok (sorted_by_depth path), rw e refl)
      sorted (raised x) e = (raised x, rw e refl)
