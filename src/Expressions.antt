-- ===== src/Expressions.antt =====
-- What the modules of src/tortoise_extended/expressions share: models, parameters of a statement,
-- the connection and `et_clause` of _edge_filter.py.
pub mod Paths
pub mod Traversal
pub mod Placeholders
mod Tests
use tortoise_extended.Common.{
  ℕ, ◌++◌, Option, none, some, List, [], ◌∷◌, Text, codes, decimal, any, text_eq, if◌then◌else◌,
  Outcome, ok, raised,
}
use tortoise_extended.Common.Actions.{Act, pure, throw}
use tortoise_extended.Common.Int.{ℤ}

-- The table and the fields of a model class.
pub record Model : Type 0 where
  pub db_table : Text
  pub fields_map : List Text

-- A parameter of a statement; ids are integers, texts or UUIDs.
pub data Param (NodeId : Type 0) : Type 0 where
  id_param : NodeId → Param NodeId
  int_param : ℤ → Param NodeId
  text_param : Text → Param NodeId

pub data GraphFailure (E : Type 0) : Type 0 where
  -- `GraphTraversalError` for this field or this direction; the rest of its message is left out.
  unknown_edge_field unsupported_direction : Text → GraphFailure E
  other : E → GraphFailure E

-- `_et_clause`
unfoldable pub et_clause : Option Text → ℕ → Text × List Text
et_clause none param_index = ([], [])
et_clause (some edge_type) param_index =
    (codes "AND e.edge_type = $" ++ decimal param_index, edge_type ∷ [])

-- The loop of `_validate_edge_fields` over the two names.
unfoldable pub validate_fields :
    {S E : Type 0} → List Text → List Text → Act S (GraphFailure E) (Unit {0})
validate_fields fields [] = pure tt
validate_fields fields (name ∷ names) =
    let rest = validate_fields fields names in
    if any (text_eq name) fields then rest else throw (unknown_edge_field name)

unfoldable pub validate_edge_fields :
    {S E : Type 0} → Model → Text → Text → Act S (GraphFailure E) (Unit {0})
unfolding validate_fields
validate_edge_fields edge_model source_field target_field =
    validate_fields edge_model.fields_map (source_field ∷ target_field ∷ [])

-- An exception of the driver passes.
abbrev pub foreign : {Db E A : Type 0} → Outcome E A × Db → Outcome (GraphFailure E) A × Db
foreign (ok a, db) = (ok a, db)
foreign (raised e, db) = (raised (other e), db)
