-- ===== src/Cache/Decorators/Tests.antt =====
-- Instances of the theorems on cache/decorators.py (under src/tortoise_extended), over a table of
-- texts.
use mathlib.Core.List.{Permᴰ}
use tortoise_extended.Common.{
  ◌≡◌, refl, Bool, true, false, Option, none, some, List, [], ◌∷◌, Text, codes, ok, raised, arith,
}
use tortoise_extended.Common.Actions.{Act}
use tortoise_extended.Common.Int.{pos}
use tortoise_extended.Cache.Backend.{
  Exception, redis_cache, cache, type_or_value, Serializer, Backend,
}
use tortoise_extended.Cache.Backend.Table.{Table, tables, up}
use tortoise_extended.Cache.Decorators.{wrapper}
use tortoise_extended.Cache.Decorators.Signature.{
  CacheValue, scalar, no_value, value, build_cache_key, build_method_cache_key,
  build_cache_key-permᴰ,
}
use tortoise_extended.Cache.Decorators.Served.{
  wrapper-transparent, call, compute, uncache, call-served,
}

abbrev show : CacheValue Text → Text
show v = codes "v"

abbrev one_two : List (Text × CacheValue Text)
one_two = (codes "a", scalar (codes "1")) ∷ (codes "b", scalar (codes "2")) ∷ []

abbrev two_one : List (Text × CacheValue Text)
two_one = (codes "b", scalar (codes "2")) ∷ (codes "a", scalar (codes "1")) ∷ []

build_cache_key-permᴰ_example :
    (build_cache_key show show
        (λ t. t)
        (codes "m.f")
        (value (scalar (codes "x")) no_value)
        one_two
        none
        none
      ≡ build_cache_key show show
          (λ t. t)
          (codes "m.f")
          (value (scalar (codes "x")) no_value)
          two_one
          none
          none)
    × (build_method_cache_key show show
          (λ t. t)
          (codes "m.f")
          (value (scalar (codes "x")) no_value)
          one_two
          none
        ≡ build_cache_key show show
            (λ t. t)
            (codes "m.f")
            (value (scalar (codes "x")) no_value)
            two_one
            none
            none)
build_cache_key-permᴰ_example =
    build_cache_key-permᴰ show show (λ t. t) (codes "m.f") (value (scalar (codes "x")) no_value)
      none (Permᴰ.swap refl refl) (((λ e. ground arith), tt), (tt, tt))

-- A cache that is down.
abbrev down : {A : Type 0} → Act (List Text) Exception A
down s = (raised (redis_cache (codes "down")), s)

abbrev computed : Act (List Text) Exception (Option Text)
computed s = (ok (some (codes "v")), codes "call" ∷ s)

abbrev is_none : Option Text → Bool
is_none none = true
is_none (some t) = false

-- A manager that has a backend in the empty state alone.
abbrev first_only : Act (List Text) Exception (Unit {0})
first_only [] = (ok tt, [])
first_only (x ∷ s) = (raised (cache (codes "not initialized")), x ∷ s)

wrapper-transparent_example :
    ((wrapper is_none
        (λ b key. down)
        (λ b key v ttl. down)
        (pos 300)
        first_only
        (ok (codes "k"))
        computed
        []).0
      ≡ ok (some (codes "v")))
    × (wrapper is_none
          (λ b key. down)
          (λ b key v ttl. down)
          (pos 300)
          first_only
          (ok (codes "k"))
          computed
          (codes "x" ∷ [])
        ≡ (raised (cache (codes "not initialized")), codes "x" ∷ []))
wrapper-transparent_example =
    wrapper-transparent is_none (λ b key. down) (λ b key v ttl. down) (pos 300) first_only computed
      (ok (some (codes "v"))) tt (codes "k") [] [] (codes "x" ∷ []) (codes "x" ∷ [])
      (cache (codes "not initialized")) (ok (codes "k")) refl (λ s. refl) (λ v e n. ground arith)
      refl (λ v s. refl) refl

-- Texts and a null that does not serialise.
abbrev texts : Serializer
texts = record {
  Value = Option Text;
  Bytes = Text;
  null = none;
  is_null = is_none;
  dumps = λ v. elim v [ none ↦ raised (type_or_value (codes "null")) | some t ↦ ok t ];
  loads = λ b. ok (some b);
}

abbrev backend : Backend
backend = record { namespace = codes "n"; default_ttl = pos 300 }

abbrev nothing : Table
nothing k = none

abbrev load : Act Table Exception (Option Text)
load s = (ok (some (codes "v")), s)

call-served_example :
    (u : Table) × (call texts tables up backend (pos 300) (codes "k") load nothing
      ≡ (ok (some (codes "v")), u))
    × ((other : Act Table Exception (Option Text))
        → call texts tables up backend (pos 300) (codes "k") other u ≡ (ok (some (codes "v")), u))
    × ((w : Table) × (uncache texts tables up backend (pos 300) (codes "k") u ≡ (ok tt, w))
        × ((other : Act Table Exception (Option Text))
            → call texts tables up backend (pos 300) (codes "k") other w
              ≡ compute texts tables up backend (pos 300) (codes "k") other w))
call-served_example =
    call-served texts tables up backend (pos 300) (codes "k") load (some (codes "v")) (codes "v")
      nothing nothing refl refl refl refl refl refl
