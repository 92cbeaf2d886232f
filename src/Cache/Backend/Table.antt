-- ===== src/Cache/Backend/Table.antt =====
-- A driver that keeps texts in a table and answers every call that Redis takes, for the instances of theorems on the cache:
-- it stands for the server behind cache/redis.py (under src/tortoise_extended).
use tortoise_extended.Common.{
  refl, Option, none, some, List, [], ◌∷◌, Text, codes, text_eq, if◌then◌else◌, ok, raised, map,
}
use tortoise_extended.Common.Actions.{Act}
use tortoise_extended.Common.Int.{ℤ}
use tortoise_extended.Cache.Backend.{Exception, unknown, Redis}
use tortoise_extended.Cache.Backend.Laws.{Online, is_some, allowed, all_allowed}

abbrev pub Table : Type 0
Table = Text → Option Text

abbrev write : Text → Option Text → Table → Table
write k o s j = if text_eq k j then o else s j

abbrev write_all : List (Text × Text × Option ℤ) → Table → Table
write_all [] s = s
write_all ((k, b, ex) ∷ ops) s = write_all ops (write k (some b) s)

abbrev refusal : Exception
refusal = unknown (codes "ResponseError")

abbrev read_all : List Text → Act Table Exception (List (Option Text))
read_all [] s = (raised refusal, s)
read_all (k ∷ ks) s = (ok (map s (k ∷ ks)), s)

abbrev pub tables : Redis Text
tables = record {
  Store = Table;
  get = λ k s. (ok (s k), s);
  set = λ k b ex s. if allowed ex then (ok tt, write k (some b) s) else (raised refusal, s);
  delete = λ k s. (ok (if is_some (s k) then 1 else 0), write k none s);
  exists = λ k s. (ok (if is_some (s k) then 1 else 0), s);
  expire = λ k ttl s. (ok (is_some (s k)), s);
  scan_iter = λ pattern s. ([], none);
  mget = read_all;
  incrby = λ k amount s. (ok amount, s);
  execute = λ ops s. if all_allowed ops then (ok tt, write_all ops s) else (raised refusal, s);
}

abbrev pub up : Online Text tables
up = record {
  value = λ s k. s k;
  written = λ k b ex s. write k (some b) s;
  deleted = λ k s. write k none s;
  executed = write_all;
  get_lem = λ k s. refl;
  mget_lem = λ k ks s. refl;
  set_lem = λ k b ex s h. rw h refl;
  delete_lem = λ k s. refl;
  execute_lem = λ ops s h. rw h refl;
  executed-nil = λ s. refl;
  executed-cons = λ k b ex ops s. refl;
  value-written = λ k j b ex s. refl;
  value-deleted = λ k j s. refl;
}
