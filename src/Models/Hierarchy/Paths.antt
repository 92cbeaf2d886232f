-- ===== src/Models/Hierarchy/Paths.antt =====
-- Label paths: prefixes at a label boundary, and the round trip between labels and text
-- (`_path_to_str` of models/hierarchy_model.py, `to_python_value` of fields/ltree.py).
use tortoise_extended.Common.{
  ℕ, ◌≡◌, refl, sym, ap, ◌∙◌, ◌≢◌, ◌↔◌, ◌⊎◌, inl, inr, Bool, true, List, [], ◌∷◌, ◌++◌,
  append_assoc, Text, starts_with, Lacks, join, split, ◌==◌, Bool-cases, arith,
}
use tortoise_extended.Models.Hierarchy.{Row, path_to_str, loaded}

abbrev pub dot : ℕ
dot = b'.'

-- `s` is `a` and a rest.
pub starts_with_iff : (s a : Text) → (starts_with s a ≡ true) ↔ ((rest : Text) × (s ≡ a ++ rest))
starts_with_iff s [] = ((λ h. (s, refl)), λ h. refl)
starts_with_iff [] (b ∷ a) = ((λ h. absurd (ground arith)), λ (rest, e). absurd (ground arith))
starts_with_iff (c ∷ s) (b ∷ a) =
    let (to, from) = starts_with_iff s a in
    (
      (λ h. let (rest, e) = to (ground arith) in (rest, ground arith)),
      λ (rest, e). ground (arith, from (rest, ground arith)),
    )

-- `path` lies below `ancestor`: it begins with it and a dot.
abbrev pub below : Text → Text → Bool
below path ancestor = starts_with path (ancestor ++ dot ∷ [])

pub below_iff : (s a : Text) → (below s a ≡ true) ↔ ((rest : Text) × (s ≡ a ++ dot ∷ rest))
below_iff s a =
    let (to, from) = starts_with_iff s (a ++ dot ∷ []) in
    (
      (λ h. let (rest, e) = to h in (rest, e ∙ append_assoc a (dot ∷ []) rest)),
      λ (rest, e). from (rest, e ∙ sym (append_assoc a (dot ∷ []) rest)),
    )

pub Lacks-ne-below : (name a rest : Text) → Lacks dot name → name ≢ a ++ dot ∷ rest
Lacks-ne-below [] [] rest h e = cc
Lacks-ne-below (d ∷ name) [] rest h e = h.0 (cc)
Lacks-ne-below [] (b ∷ a) rest h e = cc
Lacks-ne-below (d ∷ name) (b ∷ a) rest h e = Lacks-ne-below name a rest h.1 (cc)

-- The last label of a path that lies below `a` ends above `a`, or at it.
pub parent_cases :
    (p a name rest : Text)
    → Lacks dot name
    → p ++ dot ∷ name ≡ a ++ dot ∷ rest
    → ((p ≡ a) × (name ≡ rest))
      ⊎ ((rest' : Text) × (p ≡ a ++ dot ∷ rest') × (rest ≡ rest' ++ dot ∷ name))
parent_cases [] [] name rest h e = inl (refl, cc)
parent_cases (c ∷ p) [] name rest h e = inr (p, cc, cc)
parent_cases [] (b ∷ a) name rest h e = absurd (Lacks-ne-below name a rest h (cc))
parent_cases (c ∷ p) (b ∷ a) name rest h e = elim (parent_cases p a name rest h (cc)) [
  | inl (same, last) ↦ inl (cc (same), last)
  | inr (rest', above, last) ↦ inr (rest', ground arith, last)
]

pub ne-below_self : (a rest : Text) → a ≢ a ++ dot ∷ rest
ne-below_self [] rest e = cc
ne-below_self (b ∷ a) rest e = ne-below_self a rest (cc)

pub split-cons : (sep : ℕ) (s : Text) → (l : Text) × (ls : List Text) × (split sep s ≡ l ∷ ls)
unfolding split
split-cons sep [] = ([], [], refl)
split-cons sep (c ∷ s) = elim (Bool-cases (c == sep)) [
  | inl same ↦ ([], split sep s, rw same)
  | inr other ↦ let (l, ls, e) = split-cons sep s in (c ∷ l, ls, rw (other, e))
]

join-cons_first :
    (sep c : ℕ) (l : Text) (ls : List Text)
    → join (sep ∷ []) ((c ∷ l) ∷ ls) ≡ c ∷ join (sep ∷ []) (l ∷ ls)
unfolding join
join-cons_first sep c l [] = refl
join-cons_first sep c l (m ∷ ls) = refl

-- Joining the pieces of a split gives the text back.
pub join-split : (sep : ℕ) (s : Text) → join (sep ∷ []) (split sep s) ≡ s
unfolding split join
join-split sep [] = refl
join-split sep (c ∷ s) =
    let (l, ls, e) = split-cons sep s in
    let ih : join (sep ∷ []) (l ∷ ls) ≡ s = ap (join (sep ∷ [])) (sym e) ∙ join-split sep s in
    elim (Bool-cases (c == sep)) [
      | inl same ↦ rw (same, e) (ground (arith, ih))
      | inr other ↦ rw (other, e) (join-cons_first sep c l ls ∙ ap (λ t. c ∷ t) ih)
    ]

-- What the mapper loads from a row, `_path_to_str` turns back into the row's path.
pub path_to_str-loaded : (r : Row) → path_to_str (loaded r).path ≡ r.path
unfolding path_to_str
path_to_str-loaded r =
    let (l, ls, e) = split-cons dot r.path in
    rw e (ap (join (dot ∷ [])) (sym e) ∙ join-split dot r.path)
