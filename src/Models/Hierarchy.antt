-- ===== src/Models/Hierarchy.antt =====
-- models/hierarchy_model.py (under src/tortoise_extended): `BaseHierarchyModel`, a tree kept as
-- label paths beside a parent column. A row holds its path as text; an instance holds what the
-- field made of it, labels or text.

pub mod Paths
pub mod Forest
pub mod Landing
pub mod Move
pub mod Query
pub mod Validate
mod Tests
use tortoise_extended.Common.{
  ℕ, suc, ◌+◌, ◌-◌, ◌≡◌, Bool, true, false, not, ◌&&◌, ◌||◌, Option, none, some, List, [], ◌∷◌,
  ◌++◌, Text, codes, text_eq, starts_with, join, split, length, decimal, ◌==◌, if◌then◌else◌,
  Outcome, ok, raised, ◌>>=◌,
}
use tortoise_extended.Common.Int.{ℤ, pos, ◌+ℤ◌, ◌-ℤ◌, eq_ℤ}
use tortoise_extended.Fields.Ltree
use tortoise_extended.Models.Orm.{Orm, Postgres}

-- The value of `path` on an instance: `list[str] | str | None`.
pub data PathValue : Type 0 where
  missing : PathValue
  labels : List Text → PathValue
  text : Text → PathValue

-- A node whose path is held as `P`.
pub record Node (P : Type 0) : Type 0 where
  pub pk : ℕ
  pub path : P
  pub name : Text
  pub parent_id : Option ℕ
  pub depth : ℤ
  pub namespace : Text

abbrev pub Row : Type 0
Row = Node Text

abbrev pub Instance : Type 0
Instance = Node PathValue

pub data HierarchyError : Type 0 where
  missing_path across_namespaces under_itself into_descendant does_not_exist : HierarchyError
  -- The `ValueError` of the path field.
  path_too_long : Text → HierarchyError

-- `_path_to_str`: an empty list or text is falsy, and joins to the empty text.
unfoldable pub path_to_str : PathValue → Text
path_to_str missing = []
path_to_str (labels []) = []
path_to_str (labels (l ∷ ls)) = join (codes ".") (l ∷ ls)
path_to_str (text s) = s

-- `_PrefixReplaceFunction.get_sql`
pub prefix_replace_sql : Text → Text → Text → Text
prefix_replace_sql old_prefix field_sql new_sql =
    codes "CONCAT("
    ++ (new_sql
        ++ (codes "::text, SUBSTRING("
            ++ (field_sql
                ++ (codes "::text FROM "
                    ++ (decimal (length old_prefix + 1) ++ codes ")::text)::ltree")))))

abbrev pub is_empty : Text → Bool
is_empty [] = true
is_empty (_ ∷ _) = false

-- `is_root`
pub is_root : {P : Type 0} → Node P → Bool
is_root n = eq_ℤ n.depth (pos 0) && (elim n.parent_id [ none ↦ true | some _ ↦ false ])

-- What the mapper makes of a row: `LTreeField.to_python_value` splits the path.
abbrev pub loaded : Row → Instance
loaded r = record {
  pk = r.pk;
  path = labels (split b'.' r.path);
  name = r.name;
  parent_id = r.parent_id;
  depth = r.depth;
  namespace = r.namespace;
}

abbrev pub row_pk : Row → ℕ
row_pk r = r.pk

-- The guards of `move_to`, in its order.
unfoldable pub check_move : Instance → Instance → Outcome HierarchyError (Unit {0})
check_move self new_parent =
    if is_empty (path_to_str self.path) || is_empty (path_to_str new_parent.path)
    then raised missing_path
    else if not (text_eq new_parent.namespace self.namespace)
    then raised across_namespaces
    else if new_parent.pk == self.pk
    then raised under_itself
    else if starts_with (path_to_str new_parent.path) (path_to_str self.path ++ b'.' ∷ [])
    then raised into_descendant
    else ok tt

-- What the path field, of at most 1,024 characters, makes of a path that is given as text.
abbrev pub field_value : Outcome Ltree.FieldError (Option Text) → Outcome HierarchyError (Unit {0})
field_value (ok _) = ok tt
field_value (raised (Ltree.too_long path)) = raised (path_too_long path)

unfoldable pub check_path : Text → Outcome HierarchyError (Unit {0})
check_path path = field_value (Ltree.to_db_value 1024 b'.' (Ltree.text path))

-- `new_path`
abbrev pub new_path : Instance → Instance → Text
new_path self new_parent = path_to_str new_parent.path ++ b'.' ∷ self.name

module _ (pg : Postgres) where
  -- `_PrefixReplace`: what the emitted expression computes from a path.
  unfoldable pub prefix_replace : Text → Text → Text → Text
  prefix_replace old_prefix new_prefix path =
      new_prefix ++ pg.substring_from path (suc (length old_prefix))

  -- The first `update` of `move_to`, whose path the field takes.
  unfoldable pub place_self : Instance → Instance → Row → Row
  place_self self new_parent r = record r {
    path = path_to_str new_parent.path ++ b'.' ∷ self.name;
    parent_id = some new_parent.pk;
    depth = new_parent.depth +ℤ pos 1;
  }

  -- The rows that the second `update` of `move_to` selects, and what it does to them.
  unfoldable pub is_below : Instance → Row → Bool
  is_below self r =
      pg.descendant_of r.path (path_to_str self.path)
      && text_eq r.namespace self.namespace
      && not (r.pk == self.pk)

  unfoldable pub place_below : Instance → Instance → Row → Row
  unfolding prefix_replace
  place_below self new_parent r = record r {
    path =
        prefix_replace (path_to_str self.path) (path_to_str new_parent.path ++ b'.' ∷ self.name)
          r.path;
    depth = r.depth +ℤ (new_parent.depth -ℤ self.depth +ℤ pos 1);
  }

  module _ (orm : Orm Row row_pk) where
    open orm use {Db, row, update}

    -- `refresh_from_db`; an exception inside the transaction rolls both updates back.
    refreshed : Db → Option Row → Outcome HierarchyError (Instance × Db)
    refreshed db none = raised does_not_exist
    refreshed db (some r) = ok (loaded r, db)

    unfoldable pub moved_db : Instance → Instance → Db → Db
    moved_db self new_parent db =
        update (is_below self) (place_below self new_parent)
          (update (λ r. r.pk == self.pk) (place_self self new_parent) db)

    -- `move_to`: the instance afterwards and the new table.
    unfoldable pub move_to : Instance → Instance → Db → Outcome HierarchyError (Instance × Db)
    unfolding check_move check_path moved_db refreshed
    move_to self new_parent db = do
      _ ← check_move self new_parent
      _ ← check_path (new_path self new_parent)
      let db' = moved_db self new_parent db
      refreshed db' (row db' self.pk)
