-- ===== src/Fields/Vector.antt =====
-- fields/vector.py (under src/tortoise_extended): `VectorField` and its binary layout. Bytes are
-- numbers; the element formats of `struct` are a parameter.
pub mod Binary
use tortoise_extended.Common.{
  ℕ, zero, suc, ◌+◌, ◌-◌, ◌*◌, ◌/◌, ◌%◌, ◌≤◌, ◌<◌, ◌≡◌, refl, sym, ap, ◌∙◌, ◌≢◌, Bool, true, false,
  not, Option, none, some, List, [], ◌∷◌, ◌++◌, map, Text, split, take, drop, take-append,
  drop-append, length, length-append, length-map, keep, leb, ltb, ◌==◌, if◌then◌else◌, Outcome, ok,
  raised, ◌>>=◌, All, arith,
}

pub data VectorError : Type 0 where
  truncated pack_error parse_error : VectorError

-- One element format: its size, packing (which may refuse a number), unpacking, and `float`.
pub record Format : Type 1 where
  pub Number : Type 0
  pub size : ℕ
  pub packed : Number → Option (List ℕ)
  pub unpacked : List ℕ → Number
  pub parse : Text → Option Number

-- The values that the drivers hand over.
pub data DbValue (N : Type 0) : Type 0 where
  null : DbValue N
  floats : List N → DbValue N
  text : Text → DbValue N
  bytes : List ℕ → DbValue N

-- `struct.pack(">H", n)`
abbrev pub pack_short : ℕ → Option (List ℕ)
pack_short n = if ltb n 65536 then some (n / 256 ∷ n % 256 ∷ []) else none

abbrev pub short_at : List ℕ → ℕ
short_at (a ∷ b ∷ _) = a * 256 + b
short_at _ = 0

-- A character of `strip("[]")`.
abbrev is_bracket : ℕ → Bool
is_bracket c = if c == b'[' then true else c == b']'

strip_left : Text → Text
strip_left [] = []
strip_left (c ∷ s) = let rest = strip_left s in if is_bracket c then rest else c ∷ s

strip_right : Text → Text
strip_right [] = []
strip_right (c ∷ s) = after c (strip_right s)
  where
    after : ℕ → Text → Text
    after c [] = if is_bracket c then [] else c ∷ []
    after c (d ∷ t) = c ∷ d ∷ t

abbrev nonempty : Text → Bool
nonempty [] = false
nonempty (_ ∷ _) = true

module _ (fmt : Format) where
  unfoldable pub pack_all : List fmt.Number → Option (List ℕ)
  pack_all [] = some []
  pack_all (x ∷ xs) = elim (fmt.packed x) [
    | none ↦ none
    | some b ↦ elim (pack_all xs) [ none ↦ none | some bs ↦ some (b ++ bs) ]
  ]

  unfoldable pub headed : Option (List ℕ) → Option (List ℕ) → List ℕ → Outcome VectorError (List ℕ)
  headed (some a) (some b) body = ok (a ++ (b ++ body))
  headed _ _ body = raised pack_error

  -- `_encode_binary`
  unfoldable pub encode_binary : List fmt.Number → Outcome VectorError (List ℕ)
  unfolding pack_all headed
  encode_binary values = elim (pack_all values) [
    | none ↦ raised pack_error
    | some body ↦ headed (pack_short (4 + length body)) (pack_short (length values)) body
  ]

  unfoldable pub unpack_all : ℕ → List ℕ → List fmt.Number
  unpack_all zero payload = []
  unpack_all (suc n) payload =
      fmt.unpacked (take fmt.size payload) ∷ unpack_all n (drop fmt.size payload)

  -- `_decode_binary`
  unfoldable pub decode_binary : List ℕ → Outcome VectorError (List fmt.Number)
  unfolding unpack_all
  decode_binary payload =
      let ndim = short_at (drop 2 payload) in
      if ltb (length payload) 4
      then ok []
      else if ndim == 0
      then ok []
      else if ltb (length payload) (4 + ndim * fmt.size)
      then raised truncated
      else ok (unpack_all ndim (drop 4 payload))

  parse_all : List Text → Outcome VectorError (List fmt.Number)
  parse_all [] = ok []
  parse_all (x ∷ xs) = elim (fmt.parse x) [
    | none ↦ raised parse_error
    | some v ↦ parse_all xs >>= λ vs. ok (v ∷ vs)
  ]

  unfoldable pub parse_text : Text → Outcome VectorError (List fmt.Number)
  unfolding strip_left strip_right parse_all
  parse_text s = parse_all (keep nonempty (split b',' (strip_right (strip_left s))))

  -- `to_db_value`, with the dialect that the field is bound to
  unfoldable pub to_db_value :
      Bool → Option (List fmt.Number) → Outcome VectorError (DbValue fmt.Number)
  to_db_value sqlite none = ok null
  to_db_value sqlite (some values) =
      if sqlite then encode_binary values >>= (λ b. ok (bytes b)) else ok (floats values)

  -- `to_python_value`; a `memoryview` is its bytes, a tuple its numbers.
  unfoldable pub to_python_value :
      DbValue fmt.Number → Outcome VectorError (Option (List fmt.Number))
  to_python_value null = ok none
  to_python_value (floats vs) = ok (some vs)
  to_python_value (text s) = parse_text s >>= λ vs. ok (some vs)
  to_python_value (bytes b) = decode_binary b >>= λ vs. ok (some vs)
