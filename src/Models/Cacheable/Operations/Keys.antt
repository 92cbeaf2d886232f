-- ===== src/Models/Cacheable/Operations/Keys.antt =====
-- `_cache_key_for` of models/cacheable_model.py (under src/tortoise_extended).
use tortoise_extended.Common.{
  ◌≡◌, ◌≢◌, ◌++◌, arith, refl, inl, inr, List, [], ◌∷◌, Text, codes, ok, Outcome-cases,
}
use tortoise_extended.Common.Sorting.{sorted_items}
use tortoise_extended.Cache.Key.{CacheKey, no_component, new, add, add_items, build}
use tortoise_extended.Cache.Key.Unambiguous.{build-eq-raised_iff}
use tortoise_extended.Models.Cacheable.Operations.{cache_key_for}

nonempty_append : {A : Type 0} (l m : List A) → l ≢ [] → l ++ m ≢ []
nonempty_append [] m h p = absurd (h refl)
nonempty_append (x ∷ l) m h p = absurd (ground arith)

add_items-parts :
    {V : Type 0} (str : V → Text) (key : CacheKey) (kwargs : List (Text × V))
    → key.parts ≢ []
    → (add_items str key kwargs).parts ≢ []
unfolding add_items add
add_items-parts str key [] h = h
add_items-parts str key ((k, v) ∷ kwargs) h =
    add_items-parts str (add (λ t. t) key (k ∷ str v ∷ [])) kwargs (nonempty_append key.parts _ h)

has_op : (name op : Text) → (add (λ t. t) (new name (codes ":")) (op ∷ [])).parts ≢ []
unfolding add new
has_op name op p = absurd (ground arith)

-- Every read and write has a key: it holds the operation at least.
pub cache_key_for-ok :
    {V : Type 0} (str : V → Text) (name op : Text) (kwargs : List (Text × V))
    → (key : Text) × (cache_key_for str name op kwargs ≡ ok key)
unfolding cache_key_for
cache_key_for-ok str name op kwargs =
    let start : CacheKey = add (λ t. t) (new name (codes ":")) (op ∷ []) in
    let all : CacheKey = add_items str start (sorted_items kwargs) in
    elim (Outcome-cases (build all)) [
      | inl (key, e) ↦ (key, rw e refl)
      | inr (no_component, e) ↦ absurd (
          add_items-parts str start (sorted_items kwargs) (has_op name op)
            (((build-eq-raised_iff all).0 e).1))
    ]
