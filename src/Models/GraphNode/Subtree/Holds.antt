-- ===== src/Models/GraphNode/Subtree/Holds.antt =====
-- Lists of nodes and of keys, for the search of models/graph_node.py.
use tortoise_extended.Common.{
  ℕ, ◌≡◌, ap, subst, ◌∙◌, inl, inr, Bool, true, List, [], ◌∷◌, ◌++◌, keep, any, All, ◌==◌, ==_iff,
  ==_refl, Bool-cases, arith,
}
use tortoise_extended.Models.GraphNode.{GraphNode}
use tortoise_extended.Models.GraphNode.Walk.{is_visited}
use tortoise_extended.Models.GraphNode.Subtree.Ends.{In}

-- A node with this key is among these.
abbrev pub holds : List GraphNode → ℕ → Bool
holds nodes k = any (λ n. n.pk == k) nodes

pub holds-snoc :
    (nodes : List GraphNode) (c : GraphNode) (k : ℕ)
    → holds nodes k ≡ true
    → holds (nodes ++ c ∷ []) k ≡ true
holds-snoc [] c k h = absurd (ground arith)
holds-snoc (n ∷ nodes) c k h = ground (arith, holds-snoc nodes c k)

pub holds-last : (nodes : List GraphNode) (c : GraphNode) → holds (nodes ++ c ∷ []) c.pk ≡ true
holds-last [] c = ground (arith, ==_refl c.pk)
holds-last (n ∷ nodes) c = ground (arith, holds-last nodes c)

pub All-snoc :
    (P : GraphNode → Type 0) (ns : List GraphNode) (n : GraphNode)
    → All P ns
    → P n
    → All P (ns ++ n ∷ [])
All-snoc P [] n h k = (k, tt)
All-snoc P (m ∷ ns) n (h, hs) k = (h, All-snoc P ns n hs k)

pub All-map :
    {A : Type 0} (P Q : A → Type 0) (xs : List A) → ((a : A) → P a → Q a) → All P xs → All Q xs
All-map P Q [] f h = tt
All-map P Q (x ∷ xs) f (h, hs) = (f x h, All-map P Q xs f hs)

pub visited-All : (P : ℕ → Type 0) (ks : List ℕ) (k : ℕ) → All P ks → is_visited ks k ≡ true → P k
visited-All P [] k h v = absurd (ground arith)
visited-All P (j ∷ ks) k (h, hs) v = elim (Bool-cases (j == k)) [
  | inl e ↦ subst P ((==_iff j k).0 e) h
  | inr e ↦ visited-All P ks k hs (ground arith)
]

pub keep-use :
    (test : GraphNode → Bool) (P : GraphNode → Type 0) (rows : List GraphNode) (r : GraphNode)
    → All P (keep test rows)
    → In r rows
    → test r ≡ true
    → P r
keep-use test P [] r h i e = absurd i
keep-use test P (x ∷ rows) r h (inl same) e =
    let t : test x ≡ true = ap test same ∙ e in subst P same (rw t at h).0
keep-use test P (x ∷ rows) r h (inr i) e = elim (Bool-cases (test x)) [
  | inl t ↦ keep-use test P rows r (rw t at h).1 i e
  | inr t ↦ keep-use test P rows r (rw t at h) i e
]
