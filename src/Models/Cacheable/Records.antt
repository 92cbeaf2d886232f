-- ===== src/Models/Cacheable/Records.antt =====
-- A cache record of models/cacheable_model.py, written and read.
use tortoise_extended.Common.{
  inl, inr, ◌≢◌, ◌≡◌, refl, sym, ap, ◌∙◌, Bool, true, false, ◌||◌, Option, some, List, [], ◌∷◌, map,
  any, Text, codes, text_eq, text_eq_iff, starts_with, All, if◌then◌else◌, Bool-cases, arith,
}
use tortoise_extended.Cache.Backend.{set_item}
use tortoise_extended.Models.Cacheable.{
  Value, str, FieldType, Parsers, Attribute, lookup, stored, store_fields, to_cache, coerced,
  restore_fields, from_cache,
}

module _ {V : Type 0} (f : Text) where
  abbrev pub has : List (Text × V) → Bool
  has items = any (λ e. text_eq e.0 f) items

  -- Every item of the key has the value.
  abbrev pub Holds : V → List (Text × V) → Type 0
  Holds v items = All (λ e. text_eq e.0 f ≡ true → e.1 ≡ v) items

  lookup-set_item :
      (k : Text) (w : V) (items : List (Text × V))
      → lookup f (set_item k w items) ≡ (if text_eq k f then some w else lookup f items)
  lookup-set_item k w [] = refl
  lookup-set_item k w ((j, u) ∷ items) = elim (Bool-cases (text_eq j k)) [
    | inl same ↦ let it : j ≡ k = (text_eq_iff j k).0 same in rw (same, it) (ground arith)
    | inr other ↦ rw other (
        ground
          (arith, lookup-set_item k w items, text_eq_iff j f, text_eq_iff k f, text_eq_iff j k))
  ]

  has-set_item :
      (k : Text) (w : V) (items : List (Text × V))
      → has (set_item k w items) ≡ (text_eq k f || has items)
  has-set_item k w [] = refl
  has-set_item k w ((j, u) ∷ items) = elim (Bool-cases (text_eq j k)) [
    | inl same ↦ let it : j ≡ k = (text_eq_iff j k).0 same in rw (same, it) (ground arith)
    | inr other ↦ rw other (ground (arith, has-set_item k w items))
  ]

  set_item-Holds :
      (v : V) (k : Text) (w : V) (items : List (Text × V))
      → (text_eq k f ≡ true → w ≡ v)
      → Holds v items
      → Holds v (set_item k w items)
  set_item-Holds v k w [] new old = (new, tt)
  set_item-Holds v k w ((j, u) ∷ items) new old = elim (Bool-cases (text_eq j k)) [
    | inl same ↦
        let it : j ≡ k = (text_eq_iff j k).0 same in
        rw same ((λ e. new (ap (λ t. text_eq t f) (sym it) ∙ e)), old.1)
    | inr other ↦ rw other (old.0, set_item-Holds v k w items new old.1)
  ]

module _ {P : Type 0} (py : Parsers P) (f : Text) where
  store_fields-Holds :
      (fields : List Text) (getattr : Text → Attribute P) (items : List (Text × Value P))
      → Holds f (stored py (getattr f)) items
      → Holds f (stored py (getattr f)) (store_fields py fields getattr items)
  unfolding store_fields
  store_fields-Holds [] getattr items h = h
  store_fields-Holds (g ∷ fields) getattr items h =
      store_fields-Holds fields getattr (set_item g (stored py (getattr g)) items) (
        set_item-Holds f (stored py (getattr f)) g (stored py (getattr g)) items
          (λ e. ap (λ k. stored py (getattr k)) ((text_eq_iff g f).0 e)) h)

  has-store_fields :
      (fields : List Text) (getattr : Text → Attribute P) (items : List (Text × Value P))
      → has f (store_fields py fields getattr items)
        ≡ (any (λ g. text_eq g f) fields || has f items)
  unfolding store_fields
  has-store_fields [] getattr items = refl
  has-store_fields (g ∷ fields) getattr items =
      has-store_fields fields getattr (set_item g (stored py (getattr g)) items)
      ∙ ground (arith, has-set_item f g (stored py (getattr g)) items)

  lookup-restore_fields :
      (fields_map : Text → Option FieldType) (v : Value P) (items kwargs : List (Text × Value P))
      → starts_with f (codes "_") ≡ false
      → Holds f v items
      → lookup f (restore_fields py fields_map items kwargs)
        ≡ (if has f items then some (coerced py (fields_map f) v) else lookup f kwargs)
  unfolding restore_fields
  lookup-restore_fields fields_map v [] kwargs public h = refl
  lookup-restore_fields fields_map v ((k, w) ∷ items) kwargs public h =
      elim (Bool-cases (text_eq k f)) [
        | inl same ↦
            let it : k ≡ f = (text_eq_iff k f).0 same in
            let value : w ≡ v = h.0 same in
            let begins : starts_with k (codes "_") ≡ false =
              ap (λ t. starts_with t (codes "_")) it ∙ public in
            rw (same, begins)
              (lookup-restore_fields fields_map v items
                  (set_item k (coerced py (fields_map k) w) kwargs) public h.1
                ∙ rw (lookup-set_item f k (coerced py (fields_map k) w) kwargs, same, value, it)
                    (ground arith))
        | inr other ↦ rw other (
            lookup-restore_fields fields_map v items
              (if starts_with k (codes "_")
                then kwargs
                else set_item k (coerced py (fields_map k) w) kwargs)
              public h.1
            ∙ ap (λ o. if has f items then some (coerced py (fields_map f) v) else o)
                (kept k w other))
      ]
    where
      kept :
          (k : Text) (w : Value P)
          → text_eq k f ≡ false
          → lookup f (
              if starts_with k (codes "_")
              then kwargs
              else set_item k (coerced py (fields_map k) w) kwargs)
            ≡ lookup f kwargs
      kept k w other = elim (Bool-cases (starts_with k (codes "_"))) [
        | inl hidden ↦ rw hidden refl
        | inr shown ↦
            rw (shown, lookup-set_item f k (coerced py (fields_map k) w) kwargs, other) refl
      ]

  -- What serialisation makes of the values of a record.
  abbrev pub passed : (Value P → Value P) → List (Text × Value P) → List (Text × Value P)
  passed through items = map (λ e. (e.0, through e.1)) items

  passed-Holds :
      (through : Value P → Value P) (v : Value P) (items : List (Text × Value P))
      → Holds f v items
      → Holds f (through v) (passed through items)
  passed-Holds through v [] h = tt
  passed-Holds through v (e ∷ items) h =
      ((λ same. ap through (h.0 same)), passed-Holds through v items h.1)

  has-passed :
      (through : Value P → Value P) (items : List (Text × Value P))
      → has f (passed through items) ≡ has f items
  has-passed through [] = refl
  has-passed through (e ∷ items) = rw (has-passed through items) refl

  -- A cached field whose name does not begin with an underscore comes out of a record as the value that
  -- it had, whenever coercing what serialisation makes of the stored value gives the value back.
  pub from_cache-to_cache :
      (name pk pk_attr : Text) (fields : List Text) (getattr : Text → Attribute P)
      (fields_map : Text → Option FieldType) (through : Value P → Value P) (v : Value P)
      → any (λ g. text_eq g f) fields ≡ true
      → starts_with f (codes "_") ≡ false
      → coerced py (fields_map f) (through (stored py (getattr f))) ≡ v
      → lookup f
          (from_cache py pk_attr fields_map (passed through (to_cache py name pk fields getattr)))
        ≡ some v
  unfolding from_cache to_cache
  from_cache-to_cache name pk pk_attr fields getattr fields_map through v listed public restores =
      let start : List (Text × Value P) = (codes "_model", str name) ∷ (codes "_pk", str pk) ∷ [] in
      let items : List (Text × Value P) = store_fields py fields getattr start in
      let w : Value P = stored py (getattr f) in
      let held : Holds f (through w) (passed through items) = passed-Holds through w items (
        store_fields-Holds fields getattr start (
          (λ e. absurd (hidden (codes "model") e)),
          ((λ e. absurd (hidden (codes "pk") e)), tt),
        )) in
      let found : has f (passed through items) ≡ true =
        has-passed through items ∙ has-store_fields fields getattr start ∙ rw listed refl in
      lookup-restore_fields fields_map (through w) (passed through items) _ public held
      ∙ rw found (ap some restores)
    where
      hidden : (rest : Text) → text_eq (b'_' ∷ rest) f ≢ true
      hidden rest e =
          let it : b'_' ∷ rest ≡ f = (text_eq_iff (b'_' ∷ rest) f).0 e in
          ground (arith, ap (λ t. starts_with t (codes "_")) it)
