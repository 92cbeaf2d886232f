-- ===== src/Models/Cacheable.antt =====
-- How models/cacheable_model.py puts an instance into a cache record and takes it out, with
-- `coerce_cache_value` of cache/_coerce.py (under src/tortoise_extended). Python's parsers are a
-- parameter; `P` is every value that is not a `str`.
pub mod Operations
pub mod Records
mod Tests
use tortoise_extended.Common.{
  Bool, true, false, not, ◌||◌, Option, none, some, List, [], ◌∷◌, Text, codes, text_eq,
  starts_with, if◌then◌else◌,
}
use tortoise_extended.Cache.Backend.{set_item}

pub data Value (P : Type 0) : Type 0 where
  str : Text → Value P
  plain : P → Value P

-- `field_type` of a field.
pub data FieldType : Type 0 where
  type_int type_float type_bool type_datetime type_date type_time type_decimal type_uuid
        type_other :
      FieldType

-- `int(raw)`, `float(raw)` and so on, where `none` is an exception that the code catches; `lower`; and
-- the two truth values.
pub record Parsers (P : Type 0) : Type 0 where
  pub parse : FieldType → Text → Option P
  pub lower : Text → Text
  pub of_bool : Bool → P
  pub isoformat : P → Text

-- What an attribute of an instance holds: a value, a `datetime`, or a related instance by its key.
pub data Attribute (P : Type 0) : Type 0 where
  held : Value P → Attribute P
  moment : P → Attribute P
  related : Text → Attribute P

abbrev pub lookup {ℓ} : {V : Type ℓ} → Text → List (Text × V) → Option V
lookup key [] = none
lookup key ((k, v) ∷ items) = let rest = lookup key items in if text_eq k key then some v else rest

module _ {P : Type 0} (py : Parsers P) where
  -- A parsed value, or the text as it is.
  abbrev pub parsed_or : Text → Option P → Value P
  parsed_or raw none = str raw
  parsed_or raw (some v) = plain v

  abbrev pub is_truth : Text → Bool
  is_truth s = text_eq s (codes "true") || text_eq s (codes "1") || text_eq s (codes "yes")

  -- `coerce_cache_value`
  unfoldable pub coerce_cache_value : Value P → FieldType → Value P
  coerce_cache_value (plain v) ty = plain v
  coerce_cache_value (str raw) type_bool = plain (py.of_bool (is_truth (py.lower raw)))
  coerce_cache_value (str raw) type_other = str raw
  coerce_cache_value (str raw) type_int = parsed_or raw (py.parse type_int raw)
  coerce_cache_value (str raw) type_float = parsed_or raw (py.parse type_float raw)
  coerce_cache_value (str raw) type_datetime = parsed_or raw (py.parse type_datetime raw)
  coerce_cache_value (str raw) type_date = parsed_or raw (py.parse type_date raw)
  coerce_cache_value (str raw) type_time = parsed_or raw (py.parse type_time raw)
  coerce_cache_value (str raw) type_decimal = parsed_or raw (py.parse type_decimal raw)
  coerce_cache_value (str raw) type_uuid = parsed_or raw (py.parse type_uuid raw)

  -- The value that `_to_cache` stores for an attribute.
  abbrev pub stored : Attribute P → Value P
  stored (held v) = v
  stored (moment t) = str (py.isoformat t)
  stored (related pk) = str pk

  unfoldable pub store_fields :
      List Text → (Text → Attribute P) → List (Text × Value P) → List (Text × Value P)
  store_fields [] getattr record' = record'
  store_fields (f ∷ fields) getattr record' =
      store_fields fields getattr (set_item f (stored (getattr f)) record')

  -- `_to_cache`
  unfoldable pub to_cache : Text → Text → List Text → (Text → Attribute P) → List (Text × Value P)
  to_cache name pk fields getattr =
      store_fields fields getattr ((codes "_model", str name) ∷ (codes "_pk", str pk) ∷ [])

  -- A value coerced to its field, if the model declares one.
  abbrev pub coerced : Option FieldType → Value P → Value P
  coerced none v = v
  coerced (some ty) v = coerce_cache_value v ty

  unfoldable pub restore_fields :
      (Text → Option FieldType)
      → List (Text × Value P)
      → List (Text × Value P)
      → List (Text × Value P)
  restore_fields fields_map [] kwargs = kwargs
  restore_fields fields_map ((k, v) ∷ items) kwargs =
      restore_fields fields_map items
        (if starts_with k (codes "_") then kwargs else set_item k (coerced (fields_map k) v) kwargs)

  key_kwargs : Text → (Text → Option FieldType) → Option (Value P) → List (Text × Value P)
  key_kwargs pk_attr fields_map none = []
  key_kwargs [] fields_map (some v) = []
  key_kwargs (c ∷ pk_attr) fields_map (some v) =
      (c ∷ pk_attr, coerced (fields_map (c ∷ pk_attr)) v) ∷ []

  -- `_from_cache`: the keyword arguments of `construct`.
  unfoldable pub from_cache :
      Text → (Text → Option FieldType) → List (Text × Value P) → List (Text × Value P)
  unfolding key_kwargs
  from_cache pk_attr fields_map items =
      restore_fields fields_map items (key_kwargs pk_attr fields_map (lookup (codes "_pk") items))
