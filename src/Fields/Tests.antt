-- ===== src/Fields/Tests.antt =====
-- Runs of the column types, and the instances of their theorems.
use tortoise_extended.Common.{
  ℕ, ◌≤◌, ◌≡◌, refl, true, none, some, List, [], ◌∷◌, Text, codes, ltb, if◌then◌else◌, inr,
  Bool-cases, inl, ok, raised, join, length, arith,
}
use tortoise_extended.Fields.Ltree
use tortoise_extended.Fields.Vector.{
  Format, truncated, bytes, pack_all, decode_binary, to_db_value, to_python_value,
}
use tortoise_extended.Fields.Vector.Binary

short : length (join (b'.' ∷ []) (codes "a" ∷ codes "b" ∷ [])) ≤ 256
unfolding join
short = omega arith

path_example :
    (path : Text) × (Ltree.to_db_value 256 b'.' (Ltree.labels (codes "a" ∷ codes "b" ∷ []))
      ≡ ok (some path))
    × (Ltree.to_python_value b'.' (Ltree.text path) ≡ Ltree.labels (codes "a" ∷ codes "b" ∷ []))
path_example =
    Ltree.to_python_value-to_db_value 256 b'.' (codes "a") (codes "b" ∷ []) (ground arith)
      (inr short)

-- Numbers below 256 in one byte.
abbrev one_byte : Format
one_byte = record {
  Number = ℕ;
  size = 1;
  packed = λ x. if ltb x 256 then some (x ∷ []) else none;
  unpacked = λ b. elim b [ [] ↦ 0 | x ∷ _ ↦ x ];
  parse = λ s. none;
}

one_byte_packed :
    (x : ℕ) (b : List ℕ) → one_byte.packed x ≡ some b → (length b ≡ 1) × (one_byte.unpacked b ≡ x)
one_byte_packed x b e = elim (Bool-cases (ltb x 256)) [
  | inl small ↦ let same : x ∷ [] ≡ b = ground arith in rw (← same) (refl, refl)
  | inr large ↦ absurd (ground arith)
]

packs : pack_all one_byte (7 ∷ 9 ∷ []) ≡ some (7 ∷ 9 ∷ [])
unfolding pack_all
packs = refl

vector_example :
    (b : List ℕ) × (to_db_value one_byte true (some (7 ∷ 9 ∷ [])) ≡ ok (bytes b))
    × (to_python_value one_byte (bytes b) ≡ ok (some (7 ∷ 9 ∷ [])))
vector_example =
    Binary.to_python_value-to_db_value_bytes one_byte (λ x. x) one_byte_packed (7 ∷ 9 ∷ [])
      (7 ∷ 9 ∷ []) (omega arith) packs (omega arith)

truncated_test : decode_binary one_byte (0 ∷ 6 ∷ 0 ∷ 2 ∷ 7 ∷ []) ≡ raised truncated
unfolding decode_binary
truncated_test = refl
