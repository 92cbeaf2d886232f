-- ===== src/Models/Cacheable/Tests.antt =====
-- A cache record with a time, written and read.
use tortoise_extended.Common.{
  ℕ, ◌≡◌, refl, Option, none, some, [], ◌∷◌, Text, codes, text_eq, if◌then◌else◌,
}
use tortoise_extended.Models.Cacheable.{
  str, plain, FieldType, type_datetime, type_bool, type_int, Parsers, moment, lookup,
  coerce_cache_value, to_cache, from_cache,
}
use tortoise_extended.Models.Cacheable.Records.{passed, from_cache-to_cache}

abbrev python : Parsers ℕ
python = record {
  parse = λ ty s. if text_eq s (codes "noon") then some 12 else none;
  lower = λ s. s;
  of_bool = λ b. if b then 1 else 0;
  isoformat = λ t. codes "noon";
}

abbrev declared : Text → Option FieldType
declared f = if text_eq f (codes "at") then some type_datetime else none

restored : coerce_cache_value python (str (codes "noon")) type_datetime ≡ plain 12
unfolding coerce_cache_value
restored = refl

from_cache-to_cache_example :
    lookup (codes "at") (
      from_cache python (codes "id") declared (
        passed python
          (codes "at")
          (λ v. v)
          (to_cache python (codes "Event") (codes "3") (codes "at" ∷ []) (λ _. moment 12))))
    ≡ some (plain 12)
from_cache-to_cache_example =
    from_cache-to_cache python (codes "at") (codes "Event") (codes "3") (codes "id")
      (codes "at" ∷ []) (λ _. moment 12) declared (λ v. v) (plain 12) refl refl restored

coerce_test :
    (coerce_cache_value python (str (codes "yes")) type_bool ≡ plain 1)
    × (coerce_cache_value python (str (codes "x")) type_int ≡ str (codes "x"))
unfolding coerce_cache_value
coerce_test = (refl, refl)
