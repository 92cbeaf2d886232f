-- ===== src/Cache/Key/Unambiguous.antt =====
-- The components of a built key and the keys made from dictionaries: `CacheKey.build` and
-- `CacheKey.from_dict` of cache/base.py (under src/tortoise_extended).
use mathlib.Core.List.{Permᴰ, append-eq-nil_iff, append_cancel_left}
use tortoise_extended.Common.{
  ℕ, ◌≡◌, refl, sym, ap, ◌∙◌, ◌≢◌, List, [], ◌∷◌, ◌++◌, map, append_assoc, append-nil, ◌↔◌, Text,
  codes, decimal, decimal-IsDigit, decimal_injective, IsDigit, All, length, join, ok, raised, arith,
}
use tortoise_extended.Common.Sorting.{Distinct, sorted_items-permᴰ}
use tortoise_extended.Cache.Key.{
  CacheKey, no_component, new, length_prefixed, add, build, components, joined, from_dict,
  add_items,
}

-- A run of digits ends at the first colon.
digits_end :
    (d e r s : Text)
    → All IsDigit d
    → All IsDigit e
    → d ++ b':' ∷ r ≡ e ++ b':' ∷ s
    → (d ≡ e) × (r ≡ s)
digits_end [] [] r s h k p = (refl, cc)
digits_end [] (b ∷ e) r s h k p = absurd (ground arith)
digits_end (a ∷ d) [] r s h k p = absurd (ground arith)
digits_end (a ∷ d) (b ∷ e) r s h k p = let (ds, rs) = digits_end d e r s h.1 k.1 (cc) in (cc ds, rs)

same_length : (v w r s : Text) → length v ≡ length w → v ++ r ≡ w ++ s → (v ≡ w) × (r ≡ s)
same_length [] [] r s h p = (refl, p)
same_length [] (b ∷ w) r s h p = absurd (omega arith)
same_length (a ∷ v) [] r s h p = absurd (omega arith)
same_length (a ∷ v) (b ∷ w) r s h p =
    let (vs, rs) = same_length v w r s (omega arith) (cc) in (cc vs, rs)

-- A component's text tells where it ends.
length_prefixed_end :
    (v w r s : Text) → length_prefixed v ++ r ≡ length_prefixed w ++ s → (v ≡ w) × (r ≡ s)
unfolding length_prefixed
length_prefixed_end v w r s p =
    let (numeral, rest) =
      digits_end (decimal (length v)) (decimal (length w)) (v ++ r) (w ++ s)
        (decimal-IsDigit (length v)) (decimal-IsDigit (length w))
        (sym (append_assoc _ (b':' ∷ v) r) ∙ p ∙ append_assoc _ (b':' ∷ w) s) in
    same_length v w r s (decimal_injective _ _ numeral) rest

abbrev prefixed : List Text → List Text
prefixed vs = map length_prefixed vs

append-cons-ne-nil : (d : Text) (c : ℕ) (r : Text) → d ++ c ∷ r ≢ []
append-cons-ne-nil [] c r p = cc
append-cons-ne-nil (a ∷ d) c r p = cc

length_prefixed-ne-nil : (v : Text) → length_prefixed v ≢ []
unfolding length_prefixed
length_prefixed-ne-nil v p = append-cons-ne-nil _ _ v p

abbrev later : Text → List Text → Text
later sep [] = []
later sep (v ∷ vs) = sep ++ join sep (prefixed (v ∷ vs))

join-cons :
    (sep v : Text) (vs : List Text)
    → join sep (prefixed (v ∷ vs)) ≡ length_prefixed v ++ later sep vs
unfolding join
join-cons sep v [] = sym (append-nil _)
join-cons sep v (w ∷ vs) = refl

join-ne-nil : (sep v : Text) (vs : List Text) → join sep (prefixed (v ∷ vs)) ≢ []
join-ne-nil sep v vs p =
    length_prefixed-ne-nil v (append-eq-nil_iff.0 (sym (join-cons sep v vs) ∙ p)).0

later-ne-nil : (sep v : Text) (vs : List Text) → later sep (v ∷ vs) ≢ []
later-ne-nil sep v vs p = join-ne-nil sep v vs (append-eq-nil_iff.0 p).1

later_injective : (sep : Text) (vs ws : List Text) → later sep vs ≡ later sep ws → vs ≡ ws
later_injective sep [] [] p = refl
later_injective sep [] (w ∷ ws) p = absurd (later-ne-nil sep w ws (sym p))
later_injective sep (v ∷ vs) [] p = absurd (later-ne-nil sep v vs p)
later_injective sep (v ∷ vs) (w ∷ ws) p =
    let (first, rest) =
      length_prefixed_end v w (later sep vs) (later sep ws)
        (sym (join-cons sep v vs) ∙ append_cancel_left sep _ _ p ∙ join-cons sep w ws) in
    cc (first, later_injective sep vs ws rest)

-- Joined components can be read back, whatever the separator and whatever the components hold.
join_injective :
    (sep : Text) (vs ws : List Text) → join sep (prefixed vs) ≡ join sep (prefixed ws) → vs ≡ ws
unfolding join
join_injective sep vs ws p = later_injective sep vs ws (wrapped vs ws p)
  where
    wrapped :
        (vs ws : List Text)
        → join sep (prefixed vs) ≡ join sep (prefixed ws)
        → later sep vs ≡ later sep ws
    wrapped [] [] q = refl
    wrapped [] (w ∷ ws) q = absurd (join-ne-nil sep w ws (sym q))
    wrapped (v ∷ vs) [] q = absurd (join-ne-nil sep v vs q)
    wrapped (v ∷ vs) (w ∷ ws) q = ap (λ t. sep ++ t) q

-- What a key made of a prefix and values is made of; an empty prefix takes no part.
abbrev pub key_components : Text → List Text → List Text
key_components [] values = values
key_components (c ∷ prefix) values = (c ∷ prefix) ∷ values

components-lem :
    (prefix : Text) (values : List Text)
    → components prefix (prefixed values) ≡ prefixed (key_components prefix values)
unfolding components
components-lem [] values = refl
components-lem (c ∷ prefix) values = refl

built : (sep : Text) (vs : List Text) {t : Text} → joined sep vs ≡ ok t → join sep vs ≡ t
unfolding joined
built sep [] e = cc
built sep (v ∷ vs) e = cc

build-add :
    (prefix sep : Text) (values : List Text) {t : Text}
    → build (add (λ v. v) (new prefix sep) values) ≡ ok t
    → join sep (prefixed (key_components prefix values)) ≡ t
unfolding build add new
build-add prefix sep values e =
    built sep _ (ap (joined sep) (sym (components-lem prefix values)) ∙ e)

-- Two keys with the same separator that are built to the same text have the same components: the
-- prefix if it is not empty, then the values in order. The values may hold the separator.
pub build-add_injective :
    (sep prefix other : Text) (values others : List Text) (t : Text)
    → build (add (λ v. v) (new prefix sep) values) ≡ ok t
    → build (add (λ v. v) (new other sep) others) ≡ ok t
    → key_components prefix values ≡ key_components other others
build-add_injective sep prefix other values others t p q =
    join_injective sep _ _ (build-add prefix sep values p ∙ sym (build-add other sep others q))

-- A key is refused exactly when it has neither a prefix nor a part.
pub build-eq-raised_iff :
    (k : CacheKey) → (build k ≡ raised no_component) ↔ ((k.prefix ≡ []) × (k.parts ≡ []))
unfolding build
build-eq-raised_iff k = refused k.prefix k.parts
  where
    refused :
        (prefix : Text) (parts : List Text)
        → (joined k.separator (components prefix parts) ≡ raised no_component)
          ↔ ((prefix ≡ []) × (parts ≡ []))
    refused [] [] = ground arith
    refused [] (p ∷ parts) = ground arith
    refused (c ∷ prefix) parts = ground arith

-- The key of a dictionary does not depend on the order in which its items stand, if no key
-- stands twice.
from_dict-permᴰ :
    {V : Type 0} (str : V → Text) (prefix : Text) {items others : List (Text × V)}
    → Permᴰ items others
    → Distinct items
    → build (from_dict str prefix items) ≡ build (from_dict str prefix others)
unfolding from_dict
from_dict-permᴰ str prefix p h =
    ap (λ l. build (add_items str (new prefix (codes ":")) l)) (sorted_items-permᴰ p h)
