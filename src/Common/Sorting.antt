-- ===== src/Common/Sorting.antt =====
-- `sorted(d.items())` of a dictionary: by key, in the order of code points. Keys of a dictionary
-- are distinct, so the values are never compared.
use mathlib.Core.Path.{◌≡◌, refl, sym, subst, ◌∙◌}
use mathlib.Core.Logic.{◌≢◌}
use mathlib.Core.Bool.{Bool, true, false, ◌&&◌, ◌||◌}
use mathlib.Core.List.{List, [], ◌∷◌, Permᴰ}
use native.Mathlib.Omega.{arith}
use tortoise_extended.Common.Tests.{ltb, ◌==◌, if◌then◌else◌}
use tortoise_extended.Common.Lists.{All}
use tortoise_extended.Common.Texts.{Text}

-- `s < t` on texts.
abbrev pub text_lt : Text → Text → Bool
text_lt [] [] = false
text_lt [] (_ ∷ _) = true
text_lt (_ ∷ _) [] = false
text_lt (a ∷ s) (b ∷ t) = ltb a b || (a == b) && text_lt s t

text_lt_asymm : (s t : Text) → text_lt s t ≡ true → text_lt t s ≡ false
text_lt_asymm [] [] h = refl
text_lt_asymm [] (b ∷ t) h = refl
text_lt_asymm (a ∷ s) [] h = cc
text_lt_asymm (a ∷ s) (b ∷ t) h = ground (arith, text_lt_asymm s t)

text_lt_connected : (s t : Text) → text_lt s t ≡ false → text_lt t s ≡ false → s ≡ t
text_lt_connected [] [] h k = refl
text_lt_connected [] (b ∷ t) h k = cc
text_lt_connected (a ∷ s) [] h k = cc
text_lt_connected (a ∷ s) (b ∷ t) h k = ground (arith, text_lt_connected s t)

text_lt_trans : (s t u : Text) → text_lt s t ≡ true → text_lt t u ≡ true → text_lt s u ≡ true
text_lt_trans [] [] u h k = cc
text_lt_trans [] (b ∷ t) [] h k = cc
text_lt_trans [] (b ∷ t) (c ∷ u) h k = refl
text_lt_trans (a ∷ s) [] u h k = cc
text_lt_trans (a ∷ s) (b ∷ t) [] h k = cc
text_lt_trans (a ∷ s) (b ∷ t) (c ∷ u) h k = ground (arith, text_lt_trans s t u)

module _ {ℓ} {V : Type ℓ} where
  insert_item : Text → V → List (Text × V) → List (Text × V)
  insert_item k v [] = (k, v) ∷ []
  insert_item k v ((j, w) ∷ m) =
      if text_lt j k then (j, w) ∷ insert_item k v m else (k, v) ∷ (j, w) ∷ m

  unfoldable pub sorted_items : List (Text × V) → List (Text × V)
  unfolding insert_item
  sorted_items [] = []
  sorted_items ((k, v) ∷ m) = insert_item k v (sorted_items m)

  insert_item_comm :
      (k j : Text) (v w : V) (m : List (Text × V))
      → k ≢ j
      → insert_item k v (insert_item j w m) ≡ insert_item j w (insert_item k v m)
  unfolding insert_item
  insert_item_comm k j v w [] h =
      ground (arith, text_lt_asymm k j, text_lt_asymm j k, text_lt_connected k j)
  insert_item_comm k j v w ((i, x) ∷ m) h = ground (
    arith,
    insert_item_comm k j v w m h,
    text_lt_asymm k j,
    text_lt_connected k j,
    text_lt_trans i k j,
    text_lt_trans i j k,
  )

  -- No key stands twice.
  abbrev pub Distinct : List (Text × V) → Type 0
  Distinct [] = Unit
  Distinct (x ∷ m) = All (λ y. y.0 ≢ x.0) m × Distinct m

  All-perm : (P : Text × V → Type 0) {l m : List (Text × V)} → Permᴰ l m → All P l → All P m
  All-perm P Permᴰ.nil h = h
  All-perm P (Permᴰ.cons e p) h = (rw e at h.0, All-perm P p h.1)
  All-perm P (Permᴰ.swap e e') h = (rw e' at h.1.0, (rw e at h.0, h.1.1))
  All-perm P (Permᴰ.trans p q) h = All-perm P q (All-perm P p h)

  Distinct-swap :
      (x y : Text × V) (l : List (Text × V)) → Distinct (x ∷ y ∷ l) → Distinct (y ∷ x ∷ l)
  Distinct-swap x y l h = (((λ q. h.0.0 (sym q)), h.1.0), (h.0.1, h.1.1))

  Distinct-perm : {l m : List (Text × V)} → Permᴰ l m → Distinct l → Distinct m
  Distinct-perm Permᴰ.nil h = h
  Distinct-perm (Permᴰ.cons {b = b} e p) h =
      (All-perm (λ y. y.0 ≢ b.0) p (rw e at h.0), Distinct-perm p h.1)
  Distinct-perm (Permᴰ.swap {a = a} {b = b} {a' = a'} {b' = b'} {l = l} e e') h =
      subst (λ z. Distinct (z ∷ b' ∷ l)) e'
        (subst (λ z. Distinct (b ∷ z ∷ l)) e (Distinct-swap a b l h))
  Distinct-perm (Permᴰ.trans p q) h = Distinct-perm q (Distinct-perm p h)

  -- The order in which a dictionary's items stand does not show after sorting.
  pub sorted_items-permᴰ :
      {l m : List (Text × V)} → Permᴰ l m → Distinct l → sorted_items l ≡ sorted_items m
  unfolding sorted_items
  sorted_items-permᴰ Permᴰ.nil h = refl
  sorted_items-permᴰ (Permᴰ.cons e p) h = rw (e, sorted_items-permᴰ p h.1)
  sorted_items-permᴰ (Permᴰ.swap {a = a} {b = b} {l = l} e e') h =
      rw (← e, ← e') (insert_item_comm a.0 b.0 a.1 b.1 (sorted_items l) (λ q. h.0.0 (sym q)))
  sorted_items-permᴰ (Permᴰ.trans p q) h =
      sorted_items-permᴰ p h ∙ sorted_items-permᴰ q (Distinct-perm p h)
