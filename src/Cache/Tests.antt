-- ===== src/Cache/Tests.antt =====
-- Runs of the cache modules on concrete inputs, and the instances of their theorems.
use tortoise_extended.Common.{◌≡◌, refl, List, [], ◌∷◌, Text, codes, decimal, ok, join}
use tortoise_extended.Common.Sorting.{sorted_items}
use tortoise_extended.Cache.Key.{CacheKey, new, add, build, from_dict, key, pattern_of}
use tortoise_extended.Cache.Key.Unambiguous.{key_components, build-add_injective}

-- The key of the README: a prefix, then two parts, of which one holds the separator.
user_key :
    build (add (λ v. v) (new (codes "user") (codes ":")) (codes "1:2" ∷ codes "x" ∷ []))
    ≡ ok (codes "4:user:3:1:2:1:x")
unfolding build add new decimal join
user_key = refl

build-add_injective_example :
    key_components (codes "user") (codes "1:2" ∷ codes "x" ∷ [])
    ≡ key_components (codes "user") (codes "1:2" ∷ codes "x" ∷ [])
build-add_injective_example =
    build-add_injective (codes ":") (codes "user") (codes "user") (codes "1:2" ∷ codes "x" ∷ [])
      (codes "1:2" ∷ codes "x" ∷ []) (codes "4:user:3:1:2:1:x") user_key user_key

abbrev bare : CacheKey
bare = record { prefix = []; separator = codes ":"; parts = [] }

abbrev lookup_items : List (Text × Text)
lookup_items = (codes "b", codes "2") ∷ (codes "a", codes "1") ∷ []

from_dict_test :
    build (from_dict (λ v. v) (codes "M") lookup_items) ≡ ok (codes "1:M:1:a:1:1:1:b:1:2")
unfolding build from_dict sorted_items decimal join
from_dict_test = refl

namespace_test :
    (key (record { name = codes "ns"; separator = codes ":" }) (codes "a" ∷ codes "b" ∷ [])
      ≡ codes "ns:a:b")
    × (pattern_of (record { name = codes "ns"; separator = codes ":" }) (codes "a" ∷ [])
        ≡ codes "ns:a:*")
unfolding key pattern_of join
namespace_test = (refl, refl)
