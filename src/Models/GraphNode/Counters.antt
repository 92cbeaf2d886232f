-- ===== src/Models/GraphNode/Counters.antt =====
-- The counter of children of models/graph_node.py, against the rows that name the node as parent.
use tortoise_extended.Common.{
  ℕ, suc, inl, inr, ◌+◌, ◌≡◌, refl, sym, ap, ◌∙◌, not, Option, none, some, List, [], ◌∷◌, map, keep,
  All, ◌==◌, if◌then◌else◌, arith, Bool-cases,
}
use tortoise_extended.Common.Int.{ℤ, pos, negsuc, int_laws}
use tortoise_extended.Models.GraphNode.{GraphNode, opt_eq, find, bump}

-- The number of rows whose parent is `k`.
abbrev pub child_number : ℕ → List GraphNode → ℕ
child_number k [] = 0
child_number k (r ∷ rs) =
    if opt_eq r.parent_id k then suc (child_number k rs) else child_number k rs

-- Every row counts `f` of its key.
abbrev pub CountsBy : (ℕ → ℕ) → List GraphNode → Type 0
CountsBy f rs = All (λ r. r.child_count ≡ pos (f r.pk)) rs

-- Every counter is the number of the children.
abbrev pub IsCounted : List GraphNode → Type 0
IsCounted rs = All (λ r. r.child_count ≡ pos (child_number r.pk rs)) rs

abbrev pub one_at : Option ℕ → ℕ → ℕ
one_at o k = if opt_eq o k then 1 else 0

abbrev pub bumped : ℤ → Option ℕ → List GraphNode → List GraphNode
bumped d none rs = rs
bumped d (some p) rs = map (λ r. if r.pk == p then bump d r else r) rs

pub child_number-bumped :
    (d : ℤ) (o : Option ℕ) (k : ℕ) (rs : List GraphNode)
    → child_number k (bumped d o rs) ≡ child_number k rs
child_number-bumped d none k rs = refl
child_number-bumped d (some p) k [] = refl
child_number-bumped d (some p) k (r ∷ rs) = elim (Bool-cases (r.pk == p)) [
  | inl at ↦ rw (at, child_number-bumped d (some p) k rs) refl
  | inr off ↦ rw (off, child_number-bumped d (some p) k rs) refl
]

pub CountsBy-raise :
    (o : Option ℕ) (f g : ℕ → ℕ) (rs : List GraphNode)
    → ((k : ℕ) → g k ≡ f k + one_at o k)
    → CountsBy f rs
    → CountsBy g (bumped (pos 1) o rs)
CountsBy-raise none f g [] h c = tt
CountsBy-raise none f g (r ∷ rs) h c =
    (c.0 ∙ ap pos (omega (arith, h r.pk)), CountsBy-raise none f g rs h c.1)
CountsBy-raise (some p) f g [] h c = tt
CountsBy-raise (some p) f g (r ∷ rs) h c = elim (Bool-cases (r.pk == p)) [
  | inl at ↦
      let more : g r.pk ≡ f r.pk + 1 = ground (arith, h r.pk) in
      rw at (rw (c.0, more) (omega int_laws), CountsBy-raise (some p) f g rs h c.1)
  | inr off ↦
      let same : g r.pk ≡ f r.pk = ground (arith, h r.pk) in
      rw off (rw (c.0, same) refl, CountsBy-raise (some p) f g rs h c.1)
]

pub CountsBy-lower :
    (o : Option ℕ) (f g : ℕ → ℕ) (rs : List GraphNode)
    → ((k : ℕ) → f k ≡ g k + one_at o k)
    → CountsBy f rs
    → CountsBy g (bumped (negsuc 0) o rs)
CountsBy-lower none f g [] h c = tt
CountsBy-lower none f g (r ∷ rs) h c =
    (c.0 ∙ ap pos (omega (arith, h r.pk)), CountsBy-lower none f g rs h c.1)
CountsBy-lower (some p) f g [] h c = tt
CountsBy-lower (some p) f g (r ∷ rs) h c = elim (Bool-cases (r.pk == p)) [
  | inl at ↦
      let more : f r.pk ≡ g r.pk + 1 = ground (arith, h r.pk) in
      rw at (rw (c.0, more) (omega int_laws), CountsBy-lower (some p) f g rs h c.1)
  | inr off ↦
      let same : f r.pk ≡ g r.pk = ground (arith, h r.pk) in
      rw off (rw (c.0, same) refl, CountsBy-lower (some p) f g rs h c.1)
]

pub CountsBy-cong :
    (f g : ℕ → ℕ) (rs : List GraphNode) → ((k : ℕ) → f k ≡ g k) → CountsBy f rs → CountsBy g rs
CountsBy-cong f g [] h c = tt
CountsBy-cong f g (r ∷ rs) h c = (c.0 ∙ ap pos (h r.pk), CountsBy-cong f g rs h c.1)

-- Keys are different.
abbrev pub IsKeyed : List GraphNode → Type 0
IsKeyed [] = Unit
IsKeyed (r ∷ rs) = (find r.pk rs ≡ none) × IsKeyed rs

abbrev pub replaced : GraphNode → List GraphNode → List GraphNode
replaced x rs = map (λ r. if r.pk == x.pk then x else r) rs

abbrev pub without : ℕ → List GraphNode → List GraphNode
without k rs = keep (λ r. not (r.pk == k)) rs

pub replaced-absent :
    (x : GraphNode) (rs : List GraphNode) → find x.pk rs ≡ none → replaced x rs ≡ rs
replaced-absent x [] h = refl
replaced-absent x (r ∷ rs) h = elim (Bool-cases (r.pk == x.pk)) [
  | inl at ↦ absurd (ground arith)
  | inr off ↦ rw (off, replaced-absent x rs (ground arith)) refl
]

pub without-absent : (k : ℕ) (rs : List GraphNode) → find k rs ≡ none → without k rs ≡ rs
without-absent k [] h = refl
without-absent k (r ∷ rs) h = elim (Bool-cases (r.pk == k)) [
  | inl at ↦ absurd (ground arith)
  | inr off ↦ rw (off, without-absent k rs (ground arith)) refl
]

pub child_number-replaced :
    (x old : GraphNode) (k : ℕ) (rs : List GraphNode)
    → IsKeyed rs
    → find x.pk rs ≡ some old
    → child_number k (replaced x rs) + one_at old.parent_id k
      ≡ child_number k rs + one_at x.parent_id k
child_number-replaced x old k [] h e = absurd (ground arith)
child_number-replaced x old k (r ∷ rs) h e = elim (Bool-cases (r.pk == x.pk)) [
  | inl at ↦
      let same : r ≡ old = ground arith in
      let key : r.pk ≡ x.pk = ground arith in
      let absent : find x.pk rs ≡ none = ap (λ k. find k rs) (sym key) ∙ h.0 in
      rw (← same, at, replaced-absent x rs absent) (ground arith)
  | inr off ↦ rw off (ground (arith, child_number-replaced x old k rs h.1 (ground arith)))
]

pub child_number-without :
    (old : GraphNode) (k j : ℕ) (rs : List GraphNode)
    → IsKeyed rs
    → find j rs ≡ some old
    → child_number k (without j rs) + one_at old.parent_id k ≡ child_number k rs
child_number-without old k j [] h e = absurd (ground arith)
child_number-without old k j (r ∷ rs) h e = elim (Bool-cases (r.pk == j)) [
  | inl at ↦
      let same : r ≡ old = ground arith in
      let key : r.pk ≡ j = ground arith in
      let absent : find j rs ≡ none = ap (λ k. find k rs) (sym key) ∙ h.0 in
      rw (← same, at, without-absent j rs absent) (ground arith)
  | inr off ↦ rw off (ground (arith, child_number-without old k j rs h.1 (ground arith)))
]

pub CountsBy-replaced :
    (x old : GraphNode) (f : ℕ → ℕ) (rs : List GraphNode)
    → IsKeyed rs
    → find x.pk rs ≡ some old
    → x.child_count ≡ old.child_count
    → CountsBy f rs
    → CountsBy f (replaced x rs)
CountsBy-replaced x old f [] h e same c = tt
CountsBy-replaced x old f (r ∷ rs) h e same c = elim (Bool-cases (r.pk == x.pk)) [
  | inl at ↦
      let it : r ≡ old = ground arith in
      let key : r.pk ≡ x.pk = ground arith in
      let absent : find x.pk rs ≡ none = ap (λ k. find k rs) (sym key) ∙ h.0 in
      rw (at, replaced-absent x rs absent)
        (same ∙ ap (λ y. y.child_count) (sym it) ∙ c.0 ∙ ap (λ k. pos (f k)) key, c.1)
  | inr off ↦ rw off (c.0, CountsBy-replaced x old f rs h.1 (ground arith) same c.1)
]

pub CountsBy-without :
    (k : ℕ) (f : ℕ → ℕ) (rs : List GraphNode) → CountsBy f rs → CountsBy f (without k rs)
CountsBy-without k f [] c = tt
CountsBy-without k f (r ∷ rs) c = elim (Bool-cases (r.pk == k)) [
  | inl at ↦ rw at (CountsBy-without k f rs c.1)
  | inr off ↦ rw off (c.0, CountsBy-without k f rs c.1)
]
