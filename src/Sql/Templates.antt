-- ===== src/Sql/Templates.antt =====
-- What a statement is made of: its text with each quoted part reduced to its quote, and the
-- quoted parts.
use tortoise_extended.Common.{
  ◌≡◌, refl, ap, true, inl, inr, List, [], ◌∷◌, ◌++◌, map, Text, All, IsDigit, Bool-cases, arith,
}
use tortoise_extended.Sql.{Piece, fstring}
use tortoise_extended.Sql.Lexer.{
  Token, raw, quoted, unfinished, lex, tokens, separated, lex-fstring, scan, step, is_quote,
}

-- A quoted part stands as its opening quote.
abbrev pub template : List Token → Text
template [] = []
template (raw c ∷ tokens) = c ∷ template tokens
template (quoted q s ∷ tokens) = q ∷ template tokens
template (unfinished ∷ tokens) = 0 ∷ template tokens

abbrev pub arguments : List Token → List Text
arguments [] = []
arguments (quoted q s ∷ tokens) = s ∷ arguments tokens
arguments (_ ∷ tokens) = arguments tokens

-- The statement is the template filled with these quoted texts.
abbrev pub Fills : Text → Text → List Text → Type 0
Fills sql form values = (template (lex sql) ≡ form) × (arguments (lex sql) ≡ values)

pub fstring-Fills :
    (pieces : List Piece)
    → separated pieces ≡ true
    → Fills (fstring pieces) (template (tokens pieces)) (arguments (tokens pieces))
fstring-Fills pieces h = (ap template (lex-fstring pieces h), ap arguments (lex-fstring pieces h))

-- A run of digits stays as it is.
lex-digits : (t : Text) → All IsDigit t → lex t ≡ map raw t
unfolding scan step
lex-digits [] h = refl
lex-digits (c ∷ t) (d, ds) = elim (Bool-cases (is_quote c)) [
  | inl e ↦ absurd (ground arith)
  | inr e ↦ rw e (ap (λ l. raw c ∷ l) (lex-digits t ds))
]

template-raw : (t : Text) (ts : List Token) → template (map raw t ++ ts) ≡ t ++ template ts
template-raw [] ts = refl
template-raw (c ∷ t) ts = ap (λ l. c ∷ l) (template-raw t ts)

arguments-raw : (t : Text) (ts : List Token) → arguments (map raw t ++ ts) ≡ arguments ts
arguments-raw [] ts = refl
arguments-raw (c ∷ t) ts = arguments-raw t ts

pub template-digits :
    (t : Text) (ts : List Token) → All IsDigit t → template (lex t ++ ts) ≡ t ++ template ts
template-digits t ts h = rw (lex-digits t h) (template-raw t ts)

pub arguments-digits :
    (t : Text) (ts : List Token) → All IsDigit t → arguments (lex t ++ ts) ≡ arguments ts
arguments-digits t ts h = rw (lex-digits t h) (arguments-raw t ts)
