-- ===== src/Sql/Lexer.antt =====
-- The quoting rules of SQL read from the other side: a lexer that knows nothing of `quote_ident`
-- and `quote_literal`, and what it makes of the f-strings of src/tortoise_extended.
use tortoise_extended.Common.{
  ℕ, ◌≡◌, refl, sym, ap, ◌∙◌, Bool, true, false, not, ◌&&◌, ◌||◌, inl, inr, List, [], ◌∷◌, ◌++◌,
  append_assoc, append-nil, Text, codes, All, IsDigit, if◌then◌else◌, ◌==◌, ==_refl, ==_iff,
  Bool-cases, arith,
}
use tortoise_extended.Sql.{
  replace, quote_ident, quote_literal, Piece, text, ident, literal, fstring,
}

-- A character outside quotes, a quoted text with its quotes undone, or one that is not closed.
pub data Token : Type 0 where
  raw : ℕ → Token
  quoted : ℕ → Text → Token
  unfinished : Token

pub data Mode : Type 0 where
  outside : Mode
  -- Within the quote of this kind, with the text read so far.
  inside closing : ℕ → Text → Mode

abbrev pub is_quote : ℕ → Bool
is_quote c = (c == 34) || (c == 39)

-- One character: the mode after it and the tokens that it completes. A quote inside quotes of
-- its kind closes them, or stands for itself if it is doubled.
abbrev pub outside_step : ℕ → Mode × List Token
outside_step c = if is_quote c then (inside c [], []) else (outside, raw c ∷ [])

unfoldable pub step : Mode → ℕ → Mode × List Token
step outside c = outside_step c
step (inside q acc) c = if c == q then (closing q acc, []) else (inside q (acc ++ c ∷ []), [])
step (closing q acc) c =
    if c == q
    then (inside q (acc ++ c ∷ []), [])
    else ((outside_step c).0, quoted q acc ∷ (outside_step c).1)

abbrev pub finish : Mode → List Token
finish outside = []
finish (inside q acc) = unfinished ∷ []
finish (closing q acc) = quoted q acc ∷ []

unfoldable pub scan : Mode → Text → List Token
unfolding step
scan m [] = finish m
scan m (c ∷ s) = (step m c).1 ++ scan (step m c).0 s

abbrev pub lex : Text → List Token
lex s = scan outside s

inside-other :
    (q c : ℕ) (acc : Text)
    → (c == q) ≡ false
    → step (inside q acc) c ≡ (inside q (acc ++ c ∷ []), [])
unfolding step
inside-other q c acc e = rw e refl

inside-same : (q : ℕ) (acc : Text) → step (inside q acc) q ≡ (closing q acc, [])
unfolding step
inside-same q acc = rw (==_refl q) refl

closing-same : (q : ℕ) (acc : Text) → step (closing q acc) q ≡ (inside q (acc ++ q ∷ []), [])
unfolding step
closing-same q acc = rw (==_refl q) refl

closing-other :
    (q c : ℕ) (acc : Text)
    → (c == q) ≡ false
    → step (closing q acc) c ≡ ((outside_step c).0, quoted q acc ∷ (outside_step c).1)
unfolding step
closing-other q c acc e = rw e refl

outside_lem : (c : ℕ) → step outside c ≡ outside_step c
unfolding step
outside_lem c = refl

-- What is between the quotes is read back, doubled quotes as one.
scan-replace :
    (q : ℕ) (acc v r : Text)
    → scan (inside q acc) (replace q (q ∷ q ∷ []) v ++ r) ≡ scan (inside q (acc ++ v)) r
unfolding scan replace
scan-replace q acc [] r = rw (append-nil acc) refl
scan-replace q acc (c ∷ v) r = elim (Bool-cases (c == q)) [
  | inl e ↦
      rw (e, inside-same q acc, closing-same q acc, scan-replace q (acc ++ q ∷ []) v r)
        (cc ((==_iff c q).0 e, append_assoc acc (c ∷ []) v))
  | inr e ↦
      rw (e, inside-other q c acc e, scan-replace q (acc ++ c ∷ []) v r)
        (cc (append_assoc acc (c ∷ []) v))
]

-- The text does not go on with a quote of this kind.
abbrev pub stops : ℕ → Text → Bool
stops q [] = true
stops q (c ∷ s) = not (c == q)

scan-closing :
    (q : ℕ) (acc r : Text)
    → stops q r ≡ true
    → scan (closing q acc) r ≡ quoted q acc ∷ scan outside r
unfolding scan
scan-closing q acc [] h = refl
scan-closing q acc (c ∷ r) h = rw (closing-other q c acc (ground arith), outside_lem c) refl

scan-inside :
    (q : ℕ) (v r : Text)
    → stops q r ≡ true
    → scan (inside q []) (replace q (q ∷ q ∷ []) v ++ q ∷ r) ≡ quoted q v ∷ scan outside r
unfolding scan
scan-inside q v r h = scan-replace q [] v (q ∷ r) ∙ (rw (inside-same q v) (scan-closing q v r h))

-- The mode after a text, and the tokens that are completed by then.
unfoldable pub after : Mode → Text → Mode
after m [] = m
after m (c ∷ t) = after (step m c).0 t

completed : Mode → Text → List Token
completed m [] = []
completed m (c ∷ t) = (step m c).1 ++ completed (step m c).0 t

scan-append : (m : Mode) (t r : Text) → scan m (t ++ r) ≡ completed m t ++ scan (after m t) r
unfolding scan after completed
scan-append m [] r = refl
scan-append m (c ∷ t) r =
    rw (scan-append (step m c).0 t r)
      (sym (append_assoc (step m c).1 (completed (step m c).0 t) (scan (after (step m c).0 t) r)))

scan-completed : (m : Mode) (t : Text) → scan m t ≡ completed m t ++ finish (after m t)
unfolding scan after completed
scan-completed m [] = refl
scan-completed m (c ∷ t) =
    rw (scan-completed (step m c).0 t)
      (sym (append_assoc (step m c).1 (completed (step m c).0 t) (finish (after (step m c).0 t))))

-- A text that leaves no quote open and does not end with one.
abbrev pub is_outside : Mode → Bool
is_outside outside = true
is_outside (inside q acc) = false
is_outside (closing q acc) = false

is_outside→eq : (m : Mode) → is_outside m ≡ true → m ≡ outside
is_outside→eq outside h = refl
is_outside→eq (inside q acc) h = cc
is_outside→eq (closing q acc) h = cc

lex-append : (t r : Text) → is_outside (after outside t) ≡ true → lex (t ++ r) ≡ lex t ++ lex r
lex-append t r h =
    scan-append outside t r
    ∙ cc (is_outside→eq _ h, scan-completed outside t, append-nil (completed outside t))

-- What the pieces of an f-string stand for: its own text for itself, a name and a value for one
-- token each.
unfoldable pub tokens : List Piece → List Token
tokens [] = []
tokens (text t ∷ pieces) = lex t ++ tokens pieces
tokens (ident name ∷ pieces) = quoted 34 name ∷ tokens pieces
tokens (literal value ∷ pieces) = quoted 39 value ∷ tokens pieces

-- A quoted piece is followed by nothing or by a text that begins with no quote, and each text
-- but the last leaves no quote open and does not end with one.
abbrev pub detached : List Piece → Bool
detached [] = true
detached (text (c ∷ t) ∷ pieces) = not (is_quote c)
detached _ = false

unfoldable pub separated : List Piece → Bool
separated [] = true
separated (text t ∷ []) = true
separated (text t ∷ p ∷ pieces) = is_outside (after outside t) && separated (p ∷ pieces)
separated (ident name ∷ pieces) = detached pieces && separated pieces
separated (literal value ∷ pieces) = detached pieces && separated pieces

stops-fstring :
    (q : ℕ) (pieces : List Piece)
    → is_quote q ≡ true
    → detached pieces ≡ true
    → separated pieces ≡ true
    → stops q (fstring pieces) ≡ true
unfolding fstring separated
stops-fstring q [] k d h = refl
stops-fstring q (text [] ∷ pieces) k d h = absurd (ground arith)
stops-fstring q (text (c ∷ t) ∷ pieces) k d h = ground arith
stops-fstring q (ident v ∷ pieces) k d h = absurd (ground arith)
stops-fstring q (literal v ∷ pieces) k d h = absurd (ground arith)

lex-ident : (v r : Text) → stops 34 r ≡ true → lex (quote_ident v ++ r) ≡ quoted 34 v ∷ lex r
unfolding quote_ident scan
lex-ident v r h =
    cc (append_assoc (replace 34 (codes "\"\"") v) (codes "\"") r, scan-inside 34 v r h)

lex-literal : (v r : Text) → stops 39 r ≡ true → lex (quote_literal v ++ r) ≡ quoted 39 v ∷ lex r
unfolding quote_literal scan
lex-literal v r h =
    cc (append_assoc (replace 39 (codes "''") v) (codes "'") r, scan-inside 39 v r h)

-- If the pieces are separated, the text of an f-string is read as its pieces, whatever the names
-- and the values in it are.
pub lex-fstring :
    (pieces : List Piece) → separated pieces ≡ true → lex (fstring pieces) ≡ tokens pieces
unfolding fstring tokens separated scan
lex-fstring [] h = refl
lex-fstring (text t ∷ []) h = rw (append-nil t) (sym (append-nil (lex t)))
lex-fstring (text t ∷ p ∷ pieces) h =
    rw (lex-append t (fstring (p ∷ pieces)) (ground arith), lex-fstring (p ∷ pieces) (ground arith))
      refl
lex-fstring (ident v ∷ pieces) h =
    lex-ident v (fstring pieces) (stops-fstring 34 pieces refl (ground arith) (ground arith))
    ∙ ap (λ l. quoted 34 v ∷ l) (lex-fstring pieces (ground arith))
lex-fstring (literal v ∷ pieces) h =
    lex-literal v (fstring pieces) (stops-fstring 39 pieces refl (ground arith) (ground arith))
    ∙ ap (λ l. quoted 39 v ∷ l) (lex-fstring pieces (ground arith))

-- Digits leave the lexer outside quotes.
pub after-digits : (t : Text) → All IsDigit t → after outside t ≡ outside
unfolding after step
after-digits [] h = refl
after-digits (c ∷ t) (d, ds) = elim (Bool-cases (is_quote c)) [
  | inl e ↦ absurd (ground arith)
  | inr e ↦ rw e (after-digits t ds)
]
