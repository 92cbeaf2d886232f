-- ===== src/Cache/Decorators/Signature.antt =====
-- `_stable_signature` and the two key builders of cache/decorators.py (under src/tortoise_extended).
-- `json.dumps`, `str` and the SHA-256 digest are parameters.
use mathlib.Core.List.{Permᴰ}
use tortoise_extended.Common.{
  ◌≡◌, refl, Option, none, some, List, [], ◌∷◌, map, Text, codes, Outcome, ok,
}
use tortoise_extended.Common.Sorting.{sorted_items, sorted_items-permᴰ, Distinct}
use tortoise_extended.Cache.Key.{KeyError, new, add, build, hash}

-- The argument of a call: a container, or what `json` or `str` writes.
mutual
  pub data CacheValue (Scalar : Type 0) : Type 0 where
    scalar : Scalar → CacheValue Scalar
    listed : CacheValues Scalar → CacheValue Scalar
    set_of : CacheValues Scalar → CacheValue Scalar
    dict_of : CacheItems Scalar → CacheValue Scalar

  pub data CacheValues (Scalar : Type 0) : Type 0 where
    no_value : CacheValues Scalar
    value : CacheValue Scalar → CacheValues Scalar → CacheValues Scalar

  pub data CacheItems (Scalar : Type 0) : Type 0 where
    no_item : CacheItems Scalar
    item : Text → CacheValue Scalar → CacheItems Scalar → CacheItems Scalar

module _ {Scalar : Type 0} where
  abbrev pub of_values : List (Text × CacheValue Scalar) → CacheValues Scalar
  of_values [] = no_value
  of_values ((_, v) ∷ vs) = value v (of_values vs)

  abbrev pub of_items : List (Text × CacheValue Scalar) → CacheItems Scalar
  of_items [] = no_item
  of_items ((k, v) ∷ vs) = item k v (of_items vs)

  abbrev pub to_items : CacheItems Scalar → List (Text × CacheValue Scalar)
  to_items no_item = []
  to_items (item k v vs) = (k, v) ∷ to_items vs

  -- The values, each with its sorting key.
  abbrev pub keyed :
      (CacheValue Scalar → Text) → CacheValues Scalar → List (Text × CacheValue Scalar)
  keyed str no_value = []
  keyed str (value v vs) = (str v, v) ∷ keyed str vs

  unfoldable mutual
    pub normalize : (CacheValue Scalar → Text) → CacheValue Scalar → CacheValue Scalar
    normalize str (scalar x) = scalar x
    normalize str (listed vs) = listed (normalize_all str vs)
    normalize str (set_of vs) = listed (of_values (sorted_items (keyed str (normalize_all str vs))))
    normalize str (dict_of items) =
        dict_of (of_items (sorted_items (to_items (normalize_items str items))))

    pub normalize_all : (CacheValue Scalar → Text) → CacheValues Scalar → CacheValues Scalar
    normalize_all str no_value = no_value
    normalize_all str (value v vs) = value (normalize str v) (normalize_all str vs)

    pub normalize_items : (CacheValue Scalar → Text) → CacheItems Scalar → CacheItems Scalar
    normalize_items str no_item = no_item
    normalize_items str (item k v vs) = item k (normalize str v) (normalize_items str vs)

  module _ (str : CacheValue Scalar → Text) (dumps : CacheValue Scalar → Text) where
    unfoldable pub stable_signature : CacheValues Scalar → List (Text × CacheValue Scalar) → Text
    unfolding normalize
    stable_signature args kwargs = dumps (
        dict_of (
          item (codes "args") (listed (normalize_all str args)) (
            item (codes "kwargs")
              (dict_of (of_items (map (λ kv. (kv.0, normalize str kv.1)) (sorted_items kwargs))))
              no_item)))

    -- A decorated function: `f"{func.__module__}.{func.__qualname__}"`.
    abbrev pub prefix_or : Option Text → Text → Text
    prefix_or none func_name = func_name
    prefix_or (some []) func_name = func_name
    prefix_or (some (c ∷ prefix)) func_name = c ∷ prefix

    module _ (sha256_hex : Text → Text) where
      unfoldable pub build_method_cache_key :
          Text
          → CacheValues Scalar
          → List (Text × CacheValue Scalar)
          → Option Text
          → Outcome KeyError Text
      unfolding stable_signature
      build_method_cache_key func_name args kwargs prefix = build (
          add (λ t. t) (new (prefix_or prefix func_name) (codes ":"))
            (hash sha256_hex (stable_signature args kwargs) ∷ []))

      unfoldable pub build_cache_key :
          Text
          → CacheValues Scalar
          → List (Text × CacheValue Scalar)
          → Option Text
          → Option (CacheValues Scalar → List (Text × CacheValue Scalar) → Text)
          → Outcome KeyError Text
      unfolding stable_signature
      build_cache_key func_name args kwargs prefix (some key_builder) = ok (key_builder args kwargs)
      build_cache_key func_name args kwargs prefix none = build (
          add (λ t. t) (new (prefix_or prefix func_name) (codes ":"))
            (hash sha256_hex (stable_signature args kwargs) ∷ []))

      -- The key of a call without a key builder does not depend on the order in which the keyword
      -- arguments stand, and the key that `invalidate` of a method computes is the key of the
      -- call.
      pub build_cache_key-permᴰ :
          (func_name : Text) (args : CacheValues Scalar) (prefix : Option Text)
          {kwargs others : List (Text × CacheValue Scalar)}
          → Permᴰ kwargs others
          → Distinct kwargs
          → (build_cache_key func_name args kwargs prefix none
              ≡ build_cache_key func_name args others prefix none)
            × (build_method_cache_key func_name args kwargs prefix
                ≡ build_cache_key func_name args others prefix none)
      unfolding build_cache_key build_method_cache_key stable_signature
      build_cache_key-permᴰ func_name args prefix p h =
          let sorted = sorted_items-permᴰ p h in (rw sorted refl, rw sorted refl)
