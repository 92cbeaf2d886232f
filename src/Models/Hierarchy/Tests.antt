-- ===== src/Models/Hierarchy/Tests.antt =====
-- Runs of the tree operations on a table of three rows, and the instances of their theorems.
use tortoise_extended.Common.{
  ℕ, zero, suc, ◌≡◌, refl, sym, ◌≢◌, ◌↔◌, ◌⊎◌, inl, inr, true, false, ◌||◌, Option, none, some, [],
  ◌∷◌, ◌++◌, Text, codes, text_eq, text_eq_iff, starts_with, drop, ◌==◌, if◌then◌else◌, ok, subst,
  arith, Lacks, split, join, decimal,
}
use tortoise_extended.Common.Int.{pos, ◌+ℤ◌}
use tortoise_extended.Models.Orm.{Orm, Postgres, functions}
use tortoise_extended.Models.Hierarchy.{
  Row, row_pk, loaded, move_to, check_move, path_to_str, prefix_replace_sql,
}
use tortoise_extended.Models.Hierarchy.Paths.{below}
use tortoise_extended.Models.Hierarchy.Forest.{IsForest, IsPlaced, under}
use tortoise_extended.Models.Hierarchy.Landing.{IsFree}
use tortoise_extended.Models.Hierarchy.Move.{check_move-eq-ok_iff, move_to-IsForest}
use tortoise_extended.Models.Hierarchy.Query.{
  get_descendants, get_children, get_children-get_descendants, ancestor_paths,
}
use tortoise_extended.Models.Hierarchy.Validate.{validate_hierarchy, validate_hierarchy-IsForest}

abbrev pred : ℕ → ℕ
pred zero = 0
pred (suc n) = n

abbrev pg : Postgres
pg = record {
  descendant_of = λ p a. text_eq p a || starts_with p (a ++ b'.' ∷ []);
  descendant_of_lem = λ p a. refl;
  substring_from = λ s n. drop (pred n) s;
  substring_from_lem = λ s n. refl;
}

abbrev orm : Orm Row row_pk
orm = functions Row row_pk

abbrev node : ℕ → Text → Text → Option ℕ → ℕ → Row
node pk path name parent depth = record {
  pk = pk;
  path = path;
  name = name;
  parent_id = parent;
  depth = pos depth;
  namespace = codes "n";
}

abbrev row_a : Row
row_a = node 1 (codes "a") (codes "a") none 0

abbrev row_b : Row
row_b = node 2 (codes "a.b") (codes "b") (some 1) 1

abbrev row_c : Row
row_c = node 3 (codes "c") (codes "c") none 0

abbrev table : ℕ → Option Row
table k =
    if k == 1
    then some row_a
    else if k == 2
    then some row_b
    else if k == 3
    then some row_c
    else none

rows :
    (k : ℕ) (r : Row)
    → table k ≡ some r
    → ((k ≡ 1) × (row_a ≡ r)) ⊎ ((k ≡ 2) × (row_b ≡ r)) ⊎ ((k ≡ 3) × (row_c ≡ r))
rows k r e = ground arith

each :
    (P : ℕ → Row → Type 0)
    → P 1 row_a
    → P 2 row_b
    → P 3 row_c
    → (k : ℕ) (r : Row) → table k ≡ some r
    → P k r
each P a b c k r e = elim (rows k r e) [
  | inl (i, x) ↦ subst (λ r. P k r) x (subst (λ k. P k row_a) (sym i) a)
  | inr (inl (i, x)) ↦ subst (λ r. P k r) x (subst (λ k. P k row_b) (sym i) b)
  | inr (inr (i, x)) ↦ subst (λ r. P k r) x (subst (λ k. P k row_c) (sym i) c)
]

abbrev Other : ℕ → Row → ℕ → Row → Type 0
Other k r j t = r.namespace ≡ t.namespace → r.path ≡ t.path → k ≡ j

apart : (s t : Text) → text_eq s t ≡ false → s ≢ t
apart s t h e = ground (arith, text_eq_iff s t)

forest : IsForest orm table
unfolding ◌+ℤ◌
forest = record {
  keyed = each (λ k r. r.pk ≡ k) refl refl refl;
  plain = each (λ k r. Lacks b'.' r.name) (ground arith) (ground arith) (ground arith);
  placed =
      each (λ k r. IsPlaced orm table r r.parent_id) (refl, refl) (row_a, refl, refl, refl, refl)
        (refl, refl);
  unique = λ k j r t e g.
      each (λ k r. Other k r j t)
        (each (Other 1 row_a) (λ _ _. refl) (λ _ q. absurd (apart (codes "a") (codes "a.b") refl q))
          (λ _ q. absurd (apart (codes "a") (codes "c") refl q)) j t g)
        (each (Other 2 row_b) (λ _ q. absurd (apart (codes "a.b") (codes "a") refl q)) (λ _ _. refl)
          (λ _ q. absurd (apart (codes "a.b") (codes "c") refl q)) j t g)
        (each (Other 3 row_c) (λ _ q. absurd (apart (codes "c") (codes "a") refl q))
          (λ _ q. absurd (apart (codes "c") (codes "a.b") refl q)) (λ _ _. refl) j t g)
        k r e;
}

passed : check_move (loaded row_a) (loaded row_c) ≡ ok tt
unfolding check_move path_to_str split join
passed = refl

check_move-eq-ok_iff_example : (check_move (loaded row_a) (loaded row_c) ≡ ok tt) ↔ (
    (codes "a" ≢ [])
    × (codes "c" ≢ [])
    × (codes "n" ≡ codes "n")
    × (row_c.pk ≢ row_a.pk)
    × (below (codes "c") (codes "a") ≡ false))
check_move-eq-ok_iff_example = check_move-eq-ok_iff row_a row_c

free : IsFree orm pg row_a row_c table
free =
    each
      (λ k r.
        r.namespace ≡ codes "n"
        → under r.path (codes "c.a") ≡ true
        → under r.path (codes "a") ≡ true)
      (λ _ _. refl) (λ _ _. refl) (λ _ q. absurd (ground (arith)))

-- The row `a` goes under `c`.
move_to-IsForest_example :
    (db' : orm.Db) × (move_to pg orm (loaded row_a) (loaded row_c) table
      ≡ ok (loaded (node 1 (codes "c.a") (codes "a") (some 3) 1), db'))
    × IsForest orm db'
unfolding ◌+ℤ◌
move_to-IsForest_example =
    move_to-IsForest orm pg row_a row_c table forest refl refl passed (omega arith) free

child : get_children (loaded row_a) row_b ≡ true
unfolding get_children
child = refl

get_children-get_descendants_example : get_descendants pg (loaded row_a) false none row_b ≡ true
get_children-get_descendants_example =
    get_children-get_descendants pg orm table 2 row_a row_b forest refl refl (λ e. cc) child

validate_hierarchy-IsForest_example : validate_hierarchy orm (loaded row_b) table ≡ []
validate_hierarchy-IsForest_example =
    validate_hierarchy-IsForest orm table forest 2 row_b refl (λ e. cc)

sql_test :
    prefix_replace_sql (codes "a.b") (codes "p") (codes "$1")
    ≡ codes "CONCAT($1::text, SUBSTRING(p::text FROM 4)::text)::ltree"
unfolding decimal prefix_replace_sql
sql_test = refl

ancestor_paths_test :
    ancestor_paths (loaded (node 2 (codes "a.b.c") (codes "c") none 2))
    ≡ codes "a" ∷ codes "a.b" ∷ codes "a.b.c" ∷ []
unfolding ancestor_paths path_to_str split join
ancestor_paths_test = refl
