-- ===== src/Models/Cacheable/Operations/Tests.antt =====
-- Instances of the theorems on the reads and the writes of models/cacheable_model.py (under
-- src/tortoise_extended): in the first, an instance is a text and its own record.
use tortoise_extended.Common.{
  ℕ, text_eq, if◌then◌else◌, ◌≡◌, refl, true, false, Option, none, some, List, [], ◌∷◌, Text, codes,
  Outcome, ok, raised,
}
use tortoise_extended.Common.Actions.{Act}
use tortoise_extended.Common.Int.{ℤ, pos}
use tortoise_extended.Cache.Backend.{
  Exception, type_or_value, redis_cache, cache, Serializer, Backend,
}
use tortoise_extended.Cache.Backend.Table.{Table, tables, up}
use tortoise_extended.Models.Cacheable.{
  Value, str, plain, type_datetime, Parsers, moment, lookup, coerce_cache_value, store_fields,
  to_cache, restore_fields, from_cache,
}
use tortoise_extended.Models.Cacheable.Operations.{
  Cached, absent, stray, items, dict, get_cached, filter_cached,
}
use tortoise_extended.Models.Cacheable.Operations.Fresh.{
  CachedModel, Record, from_cached, from_database, refreshed, saved, refresh-save,
}

abbrev from_text : Text → Outcome Exception Text
from_text t = ok t

-- A cache whose value at every key is neither a record nor a list, and which takes no write.
abbrev stray_list : Unit {0} → Text → Act (List Text) Exception (Cached Text)
stray_list b key s = (ok stray, s)

abbrev lost : Unit {0} → Text → Cached Text → ℤ → Act (List Text) Exception (Unit {0})
lost b key c ttl s = (raised (redis_cache (codes "down")), s)

-- A manager that has a backend in the empty state alone.
abbrev first_only : Act (List Text) Exception (Unit {0})
first_only [] = (ok tt, [])
first_only (x ∷ s) = (raised (cache (codes "not initialized")), x ∷ s)

abbrev find_v : Act (List Text) Exception (Option Text)
find_v s = (ok (some (codes "v")), codes "query" ∷ s)

abbrev find_both : Act (List Text) Exception (List Text)
find_both s = (ok (codes "v" ∷ codes "w" ∷ []), codes "query" ∷ s)

abbrev by_id : List (Text × Text)
by_id = (codes "id", codes "v") ∷ []

abbrev one_cached : Act (List Text) Exception (Option Text)
one_cached =
    get_cached (λ v. v) (codes "M") (λ i. i) from_text stray_list lost (pos 300) first_only by_id
      find_v

abbrev all_cached : Act (List Text) Exception (List Text)
all_cached =
    filter_cached (λ v. v) (codes "M") (λ i. i) from_text stray_list lost (pos 300) first_only by_id
      find_both

-- Rows of a key and a time; a time is written as a text.
abbrev Row : Type 0
Row = Text × ℕ

abbrev python : Parsers ℕ
python = record {
  parse = λ ty s. if text_eq s (codes "noon") then some 12 else none;
  lower = λ s. s;
  of_bool = λ b. if b then 1 else 0;
  isoformat = λ t. codes "noon";
}

abbrev time_of : Option (Value ℕ) → ℕ
time_of none = 0
time_of (some (str s)) = 0
time_of (some (plain t)) = t

abbrev key_of : Option (Value ℕ) → Text
key_of none = []
key_of (some (str s)) = s
key_of (some (plain t)) = []

abbrev events : CachedModel ℕ Row
events = record {
  name = codes "Event";
  pk_attr = codes "key";
  fields = codes "at" ∷ [];
  fields_map = λ f. if text_eq f (codes "at") then some type_datetime else none;
  getattr = λ i f. moment i.1;
  pk = λ i. i.0;
  construct =
      λ kwargs. (key_of (lookup (codes "key") kwargs), time_of (lookup (codes "at") kwargs));
}

abbrev pair_of : Record ℕ → Text
pair_of saved_record = key_of (lookup (codes "_pk") saved_record)

-- Records are kept by their key; every time is noon.
abbrev noon : Text → Record ℕ
noon key =
    (codes "_model", str (codes "Event"))
    ∷ (codes "_pk", str key)
    ∷ (codes "at", str (codes "noon"))
    ∷ []

abbrev records : Serializer
records = record {
  Value = Cached (Record ℕ);
  Bytes = Text;
  null = absent;
  is_null = λ v. elim v [ absent ↦ true | stray ↦ false | dict r ↦ false | items l ↦ false ];
  dumps = λ v. elim v [
    | absent ↦ raised (type_or_value (codes "value"))
    | stray ↦ raised (type_or_value (codes "value"))
    | dict r ↦ ok (pair_of r)
    | items l ↦ raised (type_or_value (codes "value"))
  ];
  loads = λ b. ok (dict (noon b));
}

abbrev backend : Backend
backend = record { namespace = codes "model:Event"; default_ttl = pos 300 }

abbrev empty : Table
empty key = none

abbrev reload : Act Table Exception Row
reload s = (ok (codes "3", 12), s)

abbrev insert : Act Table Exception (Unit {0})
insert s = (ok tt, s)

abbrev same : Cached (Record ℕ) → Cached (Record ℕ)
same c = c

abbrev by_key : List (Text × Text)
by_key = (codes "key", codes "3") ∷ []

refresh-save_example :
    ((u : Table) × (refreshed python events
          (λ v. v)
          records
          tables
          up
          backend
          same
          same
          (pos 300)
          reload
          (codes "3")
          empty
        ≡ (ok (codes "3", 12), u))
      × ((find : Act Table Exception (Option Row))
          → from_cached python events
              (λ v. v)
              records
              tables
              up
              backend
              same
              same
              (pos 300)
              by_key
              find
              u
            ≡ (ok (some (codes "3", 12)), u)))
    × ((u : Table) × (saved python events
            (λ v. v)
            records
            tables
            up
            backend
            same
            same
            (pos 300)
            insert
            (codes "3")
            empty
          ≡ (ok tt, u))
        × ((find : Act Table Exception (Option Row))
            → from_cached python events
                (λ v. v)
                records
                tables
                up
                backend
                same
                same
                (pos 300)
                by_key
                find
                u
              ≡ from_database python events
                  (λ v. v)
                  records
                  tables
                  up
                  backend
                  same
                  same
                  (pos 300)
                  by_key
                  find
                  u))
unfolding to_cache store_fields from_cache restore_fields coerce_cache_value
refresh-save_example =
    refresh-save python events (λ v. v) records tables up backend same same (pos 300) reload insert
      (codes "3") (codes "3", 12) (codes "3") (dict (noon (codes "3"))) (noon (codes "3")) empty
      empty empty empty refl refl refl refl refl refl refl
