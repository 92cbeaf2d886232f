-- ===== src/Models/GraphNode/Tests.antt =====
-- Runs of the node operations on a table of two rows, and the instances of their theorems.
use tortoise_extended.Common.{
  ℕ, ◌≡◌, refl, true, false, Option, none, some, List, [], ◌∷◌, map, codes, if◌then◌else◌, ok,
  raised, arith,
}
use tortoise_extended.Common.Int.{pos, ◌+ℤ◌, ◌-ℤ◌}
use tortoise_extended.Models.GraphNode.{
  GraphNode, Statements, children_remain, save, delete, count_at, previous_parent_id, children,
  descendants, ancestors, siblings,
}
use tortoise_extended.Models.GraphNode.Counters.{IsCounted, replaced, without}
use tortoise_extended.Models.GraphNode.Save.{
  Documented, save-IsCounted_again, delete-IsCounted, delete-raised,
}

abbrev lists : Statements
lists = record {
  Db = List GraphNode;
  rows = λ db. db;
  insert = λ x db. ok (x ∷ db);
  write = λ fields x db. ok (replaced x db);
  update = λ test change db. map (λ r. if test r then change r else r) db;
  remove = λ k db. ok (without k db);
}

laws : Documented lists
laws = record {
  written = replaced;
  inserted = λ x db. x ∷ db;
  removed = without;
  insert_lem = λ x db. (refl, refl);
  write_lem = λ x db. (refl, refl);
  remove_lem = λ k db. (refl, refl);
  update_lem = λ test change db. refl;
}

abbrev node : ℕ → Option ℕ → ℕ → ℕ → GraphNode
node pk parent depth count = record {
  pk = pk;
  name = codes "n";
  parent_id = parent;
  depth = pos depth;
  child_count = pos count;
  namespace = codes "default";
}

abbrev root : GraphNode
root = node 1 none 0 1

abbrev leaf : GraphNode
leaf = node 2 (some 1) 1 0

abbrev other : GraphNode
other = node 3 none 0 0

abbrev table : List GraphNode
table = root ∷ leaf ∷ other ∷ []

-- The leaf goes from the root to the other node.
save-IsCounted_again_example :
    (db' : List GraphNode) × (save lists (node 2 (some 3) 1 0) true none false false table ≡ ok db')
    × IsCounted db'
save-IsCounted_again_example =
    save-IsCounted_again lists laws (node 2 (some 3) 1 0) leaf table (refl, (refl, (refl, tt))) refl
      refl (refl, (refl, (refl, tt)))

delete-IsCounted_example :
    (db' : List GraphNode) × (delete lists false leaf table ≡ ok db') × IsCounted db'
delete-IsCounted_example =
    delete-IsCounted lists laws leaf leaf table (refl, (refl, (refl, tt))) refl refl
      (refl, (refl, (refl, tt)))

delete-raised_example : delete lists true root table ≡ raised children_remain
delete-raised_example = delete-raised lists laws root table (λ e. ground arith)

moved_test :
    save lists (node 2 (some 3) 1 0) true none false false table
    ≡ ok (node 1 none 0 0 ∷ node 2 (some 3) 1 0 ∷ node 3 none 0 1 ∷ [])
unfolding save count_at previous_parent_id ◌+ℤ◌
moved_test = refl

-- A node saved in full with the counter it had before it got a child loses the child's count.
stale_test :
    save lists (node 1 none 0 0) true none false false table
    ≡ ok (node 1 none 0 0 ∷ leaf ∷ other ∷ [])
unfolding save count_at previous_parent_id ◌+ℤ◌
stale_test = refl

query_test :
    (children root leaf ≡ true)
    × (descendants root none leaf ≡ true)
    × (ancestors leaf root ≡ true)
    × (siblings root other ≡ true)
unfolding children descendants ancestors siblings ◌+ℤ◌ ◌-ℤ◌
query_test = (refl, refl, refl, refl)
