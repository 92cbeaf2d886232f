-- ===== src/Sql.antt =====
-- Quoting of SQL names and literals, src/tortoise_extended/_quote.py, and the f-strings that the
-- package's statements are written as.
pub mod Lexer
pub mod Templates
use tortoise_extended.Common.{ℕ, List, [], ◌∷◌, ◌++◌, Text, codes, if◌then◌else◌, ◌==◌}

-- `value.replace(c, new)` for one character `c`.
unfoldable pub replace : ℕ → Text → Text → Text
replace c new [] = []
replace c new (d ∷ s) = let rest = replace c new s in if d == c then new ++ rest else d ∷ rest

unfoldable pub quote_ident : Text → Text
quote_ident name = codes "\"" ++ (replace b'"' (codes "\"\"") name ++ codes "\"")

unfoldable pub quote_literal : Text → Text
quote_literal value = codes "'" ++ (replace 39 (codes "''") value ++ codes "'")

-- A piece of an f-string: its own text, `{quote_ident(…)}` or `{quote_literal(…)}`.
pub data Piece : Type 0 where
  text ident literal : Text → Piece

unfoldable pub fstring : List Piece → Text
fstring [] = []
fstring (text t ∷ pieces) = t ++ fstring pieces
fstring (ident name ∷ pieces) = quote_ident name ++ fstring pieces
fstring (literal value ∷ pieces) = quote_literal value ++ fstring pieces
