-- ===== src/Models/Hierarchy/Move.antt =====
-- `move_to` of models/hierarchy_model.py: its guards, and what it does to a forest.
use tortoise_extended.Common.{
  ℕ, ◌≤◌, ◌<◌, length, ◌≡◌, refl, ◌≢◌, Bool, false, not, ◌↔◌, ◌||◌, some, ◌∷◌, ◌++◌, [], Text,
  text_eq, text_eq_iff, ◌==◌, if◌then◌else◌, Outcome, ok, raised, arith,
}
use tortoise_extended.Common.Int.{pos, ◌+ℤ◌}
use tortoise_extended.Fields.Ltree.{to_db_value-text, to_db_value-raised}
use tortoise_extended.Models.Orm.{Orm, Postgres}
use tortoise_extended.Models.Hierarchy.{
  Row, row_pk, loaded, moved_db, move_to, check_move, check_path, new_path, path_too_long, is_empty,
  HierarchyError, missing_path, across_namespaces, under_itself, into_descendant,
}
use tortoise_extended.Models.Hierarchy.Paths.{dot, below, path_to_str-loaded}
use tortoise_extended.Models.Hierarchy.Forest.{IsForest}
use tortoise_extended.Models.Hierarchy.Landing.{IsFree, moved_self, moved_db-IsForest}

guards :
    (a b ns ms : Text) (i j : ℕ) (down : Bool)
    → (◌≡◌ {A = Outcome HierarchyError (Unit {0})}
        (if is_empty a || is_empty b
          then raised missing_path
          else if not (text_eq ms ns)
          then raised across_namespaces
          else if j == i
          then raised under_itself
          else if down
          then raised into_descendant
          else ok tt)
        (ok tt))
      ↔ ((a ≢ []) × (b ≢ []) × (ms ≡ ns) × (j ≢ i) × (down ≡ false))
guards [] b ns ms i j down = ground arith
guards (c ∷ a) [] ns ms i j down = ground arith
guards (c ∷ a) (d ∷ b) ns ms i j down = ground (arith, text_eq_iff ms ns)

-- The guards of `move_to` pass exactly when both paths are not empty, the namespaces agree, the new
-- parent is another node, and it does not lie below the node.
pub check_move-eq-ok_iff :
    (s n : Row)
    → (check_move (loaded s) (loaded n) ≡ ok tt) ↔ (
        (s.path ≢ [])
        × (n.path ≢ [])
        × (n.namespace ≡ s.namespace)
        × (n.pk ≢ s.pk)
        × (below n.path s.path ≡ false))
unfolding check_move
check_move-eq-ok_iff s n =
    rw (path_to_str-loaded s, path_to_str-loaded n)
      (guards s.path n.path s.namespace n.namespace s.pk n.pk (below n.path s.path))

short_path :
    (s n : Row)
    → length (n.path ++ dot ∷ s.name) ≤ 1024
    → check_path (new_path (loaded s) (loaded n)) ≡ ok tt
unfolding check_path
short_path s n short = rw (path_to_str-loaded n, to_db_value-text 1024 dot _ short) refl

long_path :
    (s n : Row)
    → 1024 < length (n.path ++ dot ∷ s.name)
    → check_path (new_path (loaded s) (loaded n)) ≡ raised (path_too_long (n.path ++ dot ∷ s.name))
unfolding check_path
long_path s n long =
    rw
      (
        path_to_str-loaded n,
        to_db_value-raised 1024 dot (n.path ++ dot ∷ s.name) (omega arith) long,
      )
      refl

-- `move_to` whose guards pass is refused by the path field if the new path is longer than 1,024
-- characters.
move_to-path_too_long :
    (orm : Orm Row row_pk) (pg : Postgres) (s n : Row) (db : orm.Db)
    → check_move (loaded s) (loaded n) ≡ ok tt
    → 1024 < length (n.path ++ dot ∷ s.name)
    → move_to pg orm (loaded s) (loaded n) db ≡ raised (path_too_long (n.path ++ dot ∷ s.name))
unfolding move_to
move_to-path_too_long orm pg s n db passed long = rw (passed, long_path s n long) refl

-- `move_to` of a stored node under another stored node, whose guards pass and whose new path has at
-- most the 1,024 characters of the path field, succeeds: the node loads with its new path, parent
-- and depth, and a forest of label paths stays one, if nothing else of the namespace stands at or
-- below the path that the node gets. The database takes both updates.
pub move_to-IsForest :
    (orm : Orm Row row_pk) (pg : Postgres) (s n : Row) (db : orm.Db)
    → IsForest orm db
    → orm.row db s.pk ≡ some s
    → orm.row db n.pk ≡ some n
    → check_move (loaded s) (loaded n) ≡ ok tt
    → length (n.path ++ dot ∷ s.name) ≤ 1024
    → IsFree orm pg s n db
    → (db' : orm.Db) × (move_to pg orm (loaded s) (loaded n) db
        ≡ ok (
          loaded (record s {
            path = n.path ++ dot ∷ s.name;
            parent_id = some n.pk;
            depth = n.depth +ℤ pos 1;
          }),
          db',
        ))
      × IsForest orm db'
unfolding move_to
move_to-IsForest orm pg s n db forest here there passed short free =
    let (_, _, same, apart, outside) = (check_move-eq-ok_iff s n).0 passed in
    (
      moved_db pg orm (loaded s) (loaded n) db,
      rw (
        passed,
        short_path s n short,
        moved_self orm pg s n db forest here there same apart outside free,
      ),
      moved_db-IsForest orm pg s n db forest here there same apart outside free,
    )
