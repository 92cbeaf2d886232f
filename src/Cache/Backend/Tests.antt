-- ===== src/Cache/Backend/Tests.antt =====
-- Runs of the Redis backend over a table of texts, and the instances of its theorems.
use tortoise_extended.Common.{
  ◌≡◌, refl, true, false, Option, none, some, List, [], ◌∷◌, map, Text, codes, text_eq,
  if◌then◌else◌, ok, raised, inr, arith, any, text_eq_iff, ◌≢◌,
}
use tortoise_extended.Common.Actions.{Act}
use tortoise_extended.Common.Int.{ℤ, pos}
use tortoise_extended.Cache.Backend.{
  Exception, unknown, type_or_value, Serializer, Redis, Backend, get, set, get_many, base_get_many,
  delete_pattern, keys,
}
use tortoise_extended.Cache.Backend.Laws.{
  Online, is_some, allowed, all_allowed, get-set, get-set_apart,
}
use tortoise_extended.Cache.Backend.Batch.{get_many-base_get_many}
use tortoise_extended.Cache.Backend.Purge.{delete_pattern_lem}

abbrev Table : Type 0
Table = Text → Option Text

abbrev write : Text → Text → Table → Table
write k b s j = if text_eq k j then some b else s j

abbrev remove : Text → Table → Table
remove k s j = if text_eq k j then none else s j

abbrev write_all : List (Text × Text × Option ℤ) → Table → Table
write_all [] s = s
write_all ((k, b, ex) ∷ ops) s = write_all ops (write k b s)

-- Texts and a null that does not serialise.
abbrev texts : Serializer
texts = record {
  Value = Option Text;
  Bytes = Text;
  null = none;
  is_null = λ v. elim v [ none ↦ true | some _ ↦ false ];
  dumps = λ v. elim v [ none ↦ raised (type_or_value (codes "null")) | some t ↦ ok t ];
  loads = λ b. ok (some b);
}

abbrev refusal : Exception
refusal = unknown (codes "ResponseError")

abbrev read_all : List Text → Act Table Exception (List (Option Text))
read_all [] s = (raised refusal, s)
read_all (k ∷ ks) s = (ok (map s (k ∷ ks)), s)

abbrev tables : Redis Text
tables = record {
  Store = Table;
  get = λ k s. (ok (s k), s);
  set = λ k b ex s. if allowed ex then (ok tt, write k b s) else (raised refusal, s);
  delete = λ k s. (ok (if is_some (s k) then 1 else 0), remove k s);
  exists = λ k s. (ok (if is_some (s k) then 1 else 0), s);
  expire = λ k ttl s. (ok (is_some (s k)), s);
  scan_iter = λ pattern s. (codes "n:b" ∷ codes "n:a" ∷ [], none);
  mget = read_all;
  incrby = λ k amount s. (ok amount, s);
  execute = λ ops s. if all_allowed ops then (ok tt, write_all ops s) else (raised refusal, s);
}

abbrev online : Online Text tables
online = record {
  value = λ s k. s k;
  written = λ k b ex s. write k b s;
  deleted = remove;
  executed = write_all;
  get_lem = λ k s. refl;
  mget_lem = λ k ks s. refl;
  set_lem = λ k b ex s h. rw h refl;
  delete_lem = λ k s. refl;
  execute_lem = λ ops s h. rw h refl;
  executed-nil = λ s. refl;
  executed-cons = λ k b ex ops s. refl;
  value-written = λ k j b ex s. refl;
  value-deleted = λ k j s. refl;
}

abbrev backend : Backend
backend = record { namespace = codes "n"; default_ttl = pos 300 }

abbrev neighbour : Backend
neighbour = record { namespace = codes "m"; default_ttl = pos 0 }

abbrev none_held : Table
none_held k = none

get-set_example :
    (s' : Table) × (set texts tables backend (codes "a") (some (codes "x")) none none_held
      ≡ (ok tt, s'))
    × (get texts tables backend (codes "a") s' ≡ (ok (some (codes "x")), s'))
get-set_example =
    get-set texts tables online backend (codes "a") (some (codes "x")) (codes "x") none none_held
      refl refl

get-set_apart_example :
    (s' : Table) × (set texts tables backend (codes "a") (some (codes "x")) none none_held
      ≡ (ok tt, s'))
    × ((get texts tables neighbour (codes "b") s').0
        ≡ (get texts tables neighbour (codes "b") none_held).0)
get-set_apart_example =
    get-set_apart texts tables online backend neighbour (codes "a") (codes "b") (some (codes "x"))
      (codes "x") none none_held refl (ground arith) (ground arith) (inr differ)
  where
    differ : codes "a" ≢ codes "b"
    differ e = ground (arith, text_eq_iff (codes "a") (codes "b"))

abbrev pair : List (Text × Option Text)
pair = (codes "a", some (codes "x")) ∷ (codes "b", some (codes "y")) ∷ []

get_many-base_get_many_example :
    get_many texts tables backend
      (codes "a" ∷ codes "b" ∷ [])
      (write (codes "n:a") (codes "x") none_held)
    ≡ base_get_many texts
        (get texts tables backend)
        (set texts tables backend)
        (codes "a" ∷ codes "b" ∷ [])
        (write (codes "n:a") (codes "x") none_held)
get_many-base_get_many_example =
    get_many-base_get_many texts tables backend online (codes "a" ∷ codes "b" ∷ [])
      (write (codes "n:a") (codes "x") none_held) refl (λ k b v held loaded. ground arith)

delete_pattern_lem_example :
    (s' : Table) × (delete_pattern texts tables backend (codes "*") none_held ≡ (ok 2, s'))
    × ((k : Text)
        → s' k
          ≡ (if any (λ j. text_eq j k) (codes "n:b" ∷ codes "n:a" ∷ []) then none else none_held k))
delete_pattern_lem_example =
    delete_pattern_lem texts tables backend online (codes "*") (codes "n:b" ∷ codes "n:a" ∷ []) none
      none_held refl

keys_test : (keys texts tables backend (codes "*") none_held).0 ≡ ok (codes "b" ∷ codes "a" ∷ [])
unfolding keys
keys_test = refl
