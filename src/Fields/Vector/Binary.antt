-- ===== src/Fields/Vector/Binary.antt =====
-- The binary layout of fields/vector.py, written and read.
use tortoise_extended.Common.{
  ℕ, zero, suc, inl, inr, ◌+◌, ◌*◌, ◌/◌, ◌%◌, ◌≤◌, ◌<◌, ◌≡◌, refl, sym, ap, ◌∙◌, true, false, some,
  List, [], ◌∷◌, ◌++◌, map, take, drop, take-append, drop-append, length, length-append, ltb, ◌==◌,
  ok, ◌>>=◌, arith, Option-cases, Bool-cases,
}
use tortoise_extended.Fields.Vector.{
  Format, bytes, pack_all, headed, encode_binary, unpack_all, decode_binary, to_db_value,
  to_python_value,
}

le_mul : (n m : ℕ) → 1 ≤ m → n ≤ n * m
le_mul zero m h = omega arith
le_mul (suc n) m h = omega (arith, le_mul n m h)

module _ (fmt : Format) (rounded : fmt.Number → fmt.Number) where
  module _
      (packed_lem : (x : fmt.Number) (b : List ℕ)
        → fmt.packed x ≡ some b
        → (length b ≡ fmt.size) × (fmt.unpacked b ≡ rounded x)) where
    unpack-pack :
        (xs : List fmt.Number) (body : List ℕ)
        → pack_all fmt xs ≡ some body
        → (length body ≡ length xs * fmt.size) × (unpack_all fmt (length xs) body ≡ map rounded xs)
    unfolding pack_all unpack_all
    unpack-pack [] body e = (ground arith, refl)
    unpack-pack (x ∷ xs) body e = elim (Option-cases (fmt.packed x)) [
      | inl refused ↦ absurd (ground arith)
      | inr (b, p) ↦ elim (Option-cases (pack_all fmt xs)) [
        | inl refused ↦ absurd (ground arith)
        | inr (bs, q) ↦
            let (len, back) = unpack-pack xs bs q in
            let (width, value) = packed_lem x b p in
            let whole : b ++ bs ≡ body = ground arith in
            let t : take fmt.size (b ++ bs) ≡ b = rw (← width) (take-append b bs) in
            let d : drop fmt.size (b ++ bs) ≡ bs = rw (← width) (drop-append b bs) in
            (ground (arith, length-append b bs), rw (← whole, t, d, value, back) refl)
      ]
    ]

    -- The big-endian header is read back.
    short_lem : (n : ℕ) → n < 65536 → (n / 256) * 256 + n % 256 ≡ n
    short_lem n h = omega arith

    -- A vector whose numbers can be packed and whose bytes fit the 16-bit header is stored in a SQLite
    -- column, and read back as its numbers rounded to the element format.
    pub to_python_value-to_db_value_bytes :
        (xs : List fmt.Number) (body : List ℕ)
        → 1 ≤ fmt.size
        → pack_all fmt xs ≡ some body
        → 4 + length xs * fmt.size < 65536
        → (b : List ℕ) × (to_db_value fmt true (some xs) ≡ ok (bytes b))
          × (to_python_value fmt (bytes b) ≡ ok (some (map rounded xs)))
    unfolding to_db_value to_python_value encode_binary headed decode_binary unpack_all
    to_python_value-to_db_value_bytes xs body size packs fits =
        let (len, back) = unpack-pack xs body packs in
        let n : ℕ = length xs in
        let small : n < 65536 = omega (arith, le_mul n fmt.size size) in
        let fits_total : ltb (4 + length body) 65536 ≡ true = ground arith in
        let fits_count : ltb n 65536 ≡ true = ground arith in
        let long : ltb (suc (suc (suc (suc (length body))))) (4 + n * fmt.size) ≡ false =
          ground arith in
        let t : ℕ = 4 + length body in
        let short : ltb (suc (suc (suc (suc (length body))))) 4 ≡ false = ground arith in
        let read : decode_binary fmt (t / 256 ∷ t % 256 ∷ n / 256 ∷ n % 256 ∷ body)
            ≡ ok (map rounded xs) =
          rw (short_lem n small, short)
            (elim (Bool-cases (n == 0)) [
              | inl zero_count ↦
                  let z : n ≡ 0 = ground arith in
                  rw zero_count (ap ok (sym (ap (λ k. unpack_all fmt k body) z) ∙ back))
              | inr other ↦ rw (other, long, back) refl
            ]) in
        let stored : encode_binary fmt xs ≡ ok (t / 256 ∷ t % 256 ∷ n / 256 ∷ n % 256 ∷ body) =
          rw (encode_binary, packs, fits_total, fits_count) refl in
        (
          t / 256 ∷ t % 256 ∷ n / 256 ∷ n % 256 ∷ body,
          ap (λ o. o >>= (λ b. ok (bytes b))) stored,
          ap (λ o. o >>= (λ vs. ok (some vs))) read,
        )
