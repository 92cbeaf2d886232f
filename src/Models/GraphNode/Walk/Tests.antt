-- ===== src/Models/GraphNode/Walk/Tests.antt =====
-- Runs of `path_to_root` of models/graph_node.py on small tables, and the instances of its theorems.
use tortoise_extended.Common.{
  ℕ, ◌≡◌, refl, sym, ap, subst, ◌∙◌, ◌⊎◌, inl, inr, true, Option, none, some, List, [], ◌∷◌, codes,
  Outcome, ok, raised, arith, Bool-cases, ◌==◌,
}
use tortoise_extended.Common.Int.{pos}
use tortoise_extended.Models.GraphNode.{GraphNode, GraphError, dangling_parent, find}
use tortoise_extended.Models.GraphNode.Walk.{lt_ℤ, path_to_root, walk, sorted_by_depth, insert_node}
use tortoise_extended.Models.GraphNode.Walk.Ends.{path_to_root_ends}
use tortoise_extended.Models.GraphNode.Walk.Chain.{
  Upward, Broken, IsGraded, reverse, path_to_root-Upward,
}

abbrev node : ℕ → Option ℕ → ℕ → GraphNode
node k parent depth = record {
  pk = k;
  name = codes "n";
  parent_id = parent;
  depth = pos depth;
  child_count = pos 0;
  namespace = codes "default";
}

-- Two nodes that are each other's parents.
abbrev ring : List GraphNode
ring = node 1 (some 2) 0 ∷ node 2 (some 1) 0 ∷ []

path_to_root_ends_example :
    (o : Outcome GraphError (List GraphNode)) × (path_to_root ring (node 1 (some 2) 0) ≡ some o)
path_to_root_ends_example = path_to_root_ends ring (node 1 (some 2) 0)

ring_test :
    path_to_root ring (node 1 (some 2) 0) ≡ some (ok (node 1 (some 2) 0 ∷ node 2 (some 1) 0 ∷ []))
unfolding path_to_root walk sorted_by_depth insert_node
ring_test = refl

abbrev chain : List GraphNode
chain = node 3 (some 2) 1 ∷ node 2 none 0 ∷ []

chain_test :
    path_to_root chain (node 3 (some 2) 1) ≡ some (ok (node 2 none 0 ∷ node 3 (some 2) 1 ∷ []))
unfolding path_to_root walk sorted_by_depth insert_node
chain_test = refl

lost_test : path_to_root [] (node 3 (some 2) 1) ≡ some (raised dangling_parent)
unfolding path_to_root walk
lost_test = refl

-- The rows of the table.
unsome : {a b : GraphNode} → some a ≡ some b → b ≡ a
unsome h = cc h

lost : {A : Type 0} {a : A} → none ≡ some a → ⊥
lost h = cc h

apart : ◌≡◌ {A = Option ℕ} (some 2) (some 3) → ⊥
apart h = ground arith

chain-cases :
    (k : ℕ) (n : GraphNode) → find k chain ≡ some n → (n ≡ node 3 (some 2) 1) ⊎ (n ≡ node 2 none 0)
chain-cases k n h = elim (Bool-cases (3 == k)) [
  | inl e ↦ inl (unsome (rw e at h))
  | inr e ↦ elim (Bool-cases (2 == k)) [
    | inl f ↦ inr (unsome (rw (e, f) at h))
    | inr f ↦ absurd (lost (rw (e, f) at h))
  ]
]

chain-IsGraded : IsGraded chain
chain-IsGraded n p own parent up = elim (chain-cases n.pk n own) [
  | inl e ↦ elim (chain-cases p.pk p parent) [
    | inl f ↦ absurd (apart (ap (λ m. m.parent_id) (sym e) ∙ up ∙ ap (λ m. some m.pk) f))
    | inr f ↦
        subst (λ m. lt_ℤ p.depth m.depth ≡ true) (sym e)
          (subst (λ m. lt_ℤ m.depth (pos 1) ≡ true) (sym f) refl)
  ]
  | inr e ↦ absurd (lost (ap (λ m. m.parent_id) (sym e) ∙ up))
]

path_to_root-Upward_example :
    ((ps : List GraphNode) × Upward chain (node 3 (some 2) 1) ps
      × (path_to_root chain (node 3 (some 2) 1) ≡ some (ok (reverse (node 3 (some 2) 1 ∷ ps)))))
    ⊎ ((ps : List GraphNode) × (lost : ℕ) × Broken chain (node 3 (some 2) 1) ps lost
        × (path_to_root chain (node 3 (some 2) 1) ≡ some (raised dangling_parent)))
path_to_root-Upward_example = path_to_root-Upward chain (node 3 (some 2) 1) chain-IsGraded refl
