-- ===== src/Cache/Key.antt =====
-- Cache keys: `CacheKey` and `CacheNamespace` of src/tortoise_extended/cache/base.py. `str()` of a
-- key part and the SHA-256 digest are parameters.
pub mod Unambiguous
use tortoise_extended.Common.{
  ℕ, ◌≡◌, List, [], ◌∷◌, ◌++◌, map, Text, codes, decimal, length, join, take, Outcome, ok, raised,
}
use tortoise_extended.Common.Sorting.{sorted_items}

-- `CacheKeyError`
pub data KeyError : Type 0 where
  no_component : KeyError

pub record CacheKey : Type 0 where
  pub prefix : Text
  pub separator : Text
  pub parts : List Text

unfoldable pub new : Text → Text → CacheKey
new prefix separator = record { prefix = prefix; separator = separator; parts = [] }

-- f"{len(value)}:{value}"
unfoldable pub length_prefixed : Text → Text
length_prefixed value = decimal (length value) ++ b':' ∷ value

unfoldable pub add {ℓ} : {Part : Type ℓ} → (Part → Text) → CacheKey → List Part → CacheKey
unfolding length_prefixed
add str key parts = record key { parts = key.parts ++ map (λ p. length_prefixed (str p)) parts }

-- What `build` joins: the prefix takes part only if it is not empty.
components : Text → List Text → List Text
unfolding length_prefixed
components [] parts = parts
components (c ∷ prefix) parts = length_prefixed (c ∷ prefix) ∷ parts

joined : Text → List Text → Outcome KeyError Text
joined separator [] = raised no_component
joined separator (p ∷ parts) = ok (join separator (p ∷ parts))

unfoldable pub build : CacheKey → Outcome KeyError Text
unfolding components joined
build key = joined key.separator (components key.prefix key.parts)

-- The loop of `from_dict` over the sorted items.
unfoldable pub add_items {ℓ} : {V : Type ℓ} → (V → Text) → CacheKey → List (Text × V) → CacheKey
unfolding add
add_items str key [] = key
add_items str key ((k, v) ∷ items) = add_items str (add (λ t. t) key (k ∷ str v ∷ [])) items

unfoldable pub from_dict {ℓ} : {V : Type ℓ} → (V → Text) → Text → List (Text × V) → CacheKey
unfolding new add_items
from_dict str prefix items = add_items str (new prefix (codes ":")) (sorted_items items)

-- The first sixteen characters of the hexadecimal digest.
unfoldable pub hash : (Text → Text) → Text → Text
hash sha256_hex value = take 16 (sha256_hex value)

pub record CacheNamespace : Type 0 where
  pub name : Text
  pub separator : Text

unfoldable pub key : CacheNamespace → List Text → Text
key n parts = join n.separator (n.name ∷ parts)

unfoldable pub pattern_of : CacheNamespace → List Text → Text
pattern_of n parts = join n.separator ((n.name ∷ parts) ++ codes "*" ∷ [])
