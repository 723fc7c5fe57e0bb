-- ===== src/Trans/Lexer.antt =====
-- The scanner (`lex` of trans/src/lexer.rs). Every turn of its loop looks at the bytes that are left
-- and takes some of them: `scan` is one turn, and `advance` is `bump!` once for each byte taken.
use u_flux.Prelude.{
  ℕ, zero, suc, ◌+◌, ◌-◌, ◌/◌, ◌%◌, Bool, true, false, not, ◌&&◌, ◌||◌, List, [], ◌∷◌, ◌++◌, Option,
  none, some, Outcome, ok, err, leb, ◌==◌, if◌then◌else◌, Text, codes, starts_with, length, drop,
  within,
}
use u_flux.Trans.Token.{
  Kind, int, ident, str, char, punct, eof, Token, multi_punct, Failure, fuel, error_at,
}

pub record Pos : Type 0 where
  pub line : ℕ
  pub col : ℕ

-- `bump!` over one byte.
abbrev pub bump : ℕ → Pos → Pos
bump c p =
    if c == b'\n'
    then record { line = p.line + 1; col = 1 }
    else record { line = p.line; col = p.col + 1 }

unfoldable pub advance : Text → Pos → Pos
advance [] p = p
advance (c ∷ s) p = advance s (bump c p)

abbrev pub is_blank : ℕ → Bool
is_blank c = c == b' ' || c == b'\t' || c == b'\r' || c == b'\n'

abbrev pub is_digit : ℕ → Bool
is_digit c = within b'0' b'9' c

abbrev pub is_hex_digit : ℕ → Bool
is_hex_digit c = is_digit c || within b'a' b'f' c || within b'A' b'F' c

abbrev pub is_alphabetic : ℕ → Bool
is_alphabetic c = within b'a' b'z' c || within b'A' b'Z' c

abbrev pub is_word : ℕ → Bool
is_word c = is_alphabetic c || is_digit c || c == b'_'

abbrev pub is_graphic : ℕ → Bool
is_graphic c = within 33 126 c

abbrev pub on_line : ℕ → Bool
on_line c = not (c == b'\n')

-- `while i < b.len() && p(b[i]) { bump!() }`: the bytes taken and the bytes left.
abbrev cons_taken : ℕ → Text × Text → Text × Text
cons_taken c (t, r) = (c ∷ t, r)

unfoldable pub span : (ℕ → Bool) → Text → Text × Text
span p [] = ([], [])
span p (c ∷ s) = if p c then cons_taken c (span p s) else ([], c ∷ s)

abbrev pub cons_found : ℕ → Option (Text × Text) → Option (Text × Text)
cons_found c none = none
cons_found c (some (t, r)) = some (c ∷ t, r)

-- The rest of a block comment with its `*/`; `none` if it does not end.
unfoldable pub block_comment : Text → Option (Text × Text)
block_comment [] = none
block_comment (c ∷ []) = none
block_comment (c ∷ d ∷ s) = elim (c == b'*' && d == b'/') [
  | true ↦ some (c ∷ d ∷ [], s)
  | false ↦ cons_found c (block_comment (d ∷ s))
]

-- The rest of a literal with its closing quote `q`; `none` if it does not end.
unfoldable pub quoted : ℕ → Text → Option (Text × Text)
quoted q [] = none
quoted q (c ∷ []) = if c == q then some (c ∷ [], []) else none
quoted q (c ∷ d ∷ s) = elim (c == q) [
  | true ↦ some (c ∷ [], d ∷ s)
  | false ↦ elim (c == b'\\') [
    | true ↦ cons_found c (cons_found d (quoted q s))
    | false ↦ cons_found c (quoted q (d ∷ s))
  ]
]

abbrev hex_nibble : ℕ → ℕ
hex_nibble n = if leb n 9 then b'0' + n else b'a' + n - 10

-- One turn: bytes skipped, a token, an error, or the end; with the bytes taken and left.
pub data Scan : Type 0 where
  finished : Scan
  skipped : Text → Text → Scan
  found : Kind → Text → Text → Scan
  refused : Text → Scan

abbrev pub skip_pair : ℕ → Text × Text → Scan
skip_pair c (t, r) = skipped (c ∷ t) r

abbrev found_pair : Kind → ℕ → Text × Text → Scan
found_pair k c (t, r) = found k (c ∷ t) r

abbrev pub comment_or : Option (Text × Text) → Scan
comment_or none = refused (codes "unterminated block comment")
comment_or (some (t, r)) = skipped (b'/' ∷ b'*' ∷ t) r

abbrev pub literal_or : Kind → ℕ → Text → Option (Text × Text) → Scan
literal_or k q msg none = refused msg
literal_or k q msg (some (t, r)) = found k (q ∷ t) r

abbrev pub hex_or : ℕ → ℕ → Text × Text → Scan
hex_or c x ([], r) = refused (codes "malformed hex literal")
hex_or c x (d ∷ t, r) = found int (c ∷ x ∷ d ∷ t) r

unfoldable pub scan_number : ℕ → Text → Scan
unfolding span
scan_number c [] = found int (c ∷ []) []
scan_number c (x ∷ s) =
    if c == b'0' && (x == b'x' || x == b'X')
    then hex_or c x (span is_hex_digit s)
    else found_pair int c (span is_digit (x ∷ s))

-- `MULTI_PUNCT.iter().find(|op| rest.starts_with(op))`
unfoldable pub find_punct : List Text → Text → Option Text
find_punct [] s = none
find_punct (op ∷ ops) s = if starts_with s op then some op else find_punct ops s

abbrev unexpected : ℕ → Text
unexpected c = codes "unexpected character 0x" ++ (hex_nibble (c / 16) ∷ hex_nibble (c % 16) ∷ [])

abbrev pub punct_or : ℕ → Text → Option Text → Scan
punct_or c s (some op) = found punct op (drop (length op) (c ∷ s))
punct_or c s none = if is_graphic c then found punct (c ∷ []) s else refused (unexpected c)

unfoldable pub scan_punct : ℕ → Text → Scan
unfolding find_punct starts_with
scan_punct c s = punct_or c s (find_punct multi_punct (c ∷ s))

-- From the test for `#` on.
unfoldable pub scan_plain : ℕ → Text → Scan
unfolding span quoted scan_number scan_punct
scan_plain c s =
    if c == b'#'
    then skip_pair c (span on_line s)
    else if c == b'"'
    then literal_or str c (codes "unterminated string literal") (quoted b'"' s)
    else if c == b'\''
    then literal_or char c (codes "unterminated character literal") (quoted b'\'' s)
    else if is_digit c
    then scan_number c s
    else if is_alphabetic c || c == b'_'
    then found_pair ident c (span is_word s)
    else scan_punct c s

-- At a slash: a comment, or an operator.
unfoldable pub scan_slash : ℕ → Text → Scan
unfolding span block_comment scan_plain
scan_slash c [] = scan_plain c []
scan_slash c (d ∷ s) =
    if d == b'/'
    then skip_pair c (span on_line (d ∷ s))
    else if d == b'*'
    then comment_or (block_comment s)
    else scan_plain c (d ∷ s)

unfoldable pub scan : Text → Scan
unfolding scan_slash scan_plain
scan [] = finished
scan (c ∷ s) =
    if is_blank c then skipped (c ∷ []) s else if c == b'/' then scan_slash c s else scan_plain c s

abbrev pub token_at : Kind → Text → Pos → Token
token_at k t p = record { kind = k; text = t; line = p.line; col = p.col }

abbrev pub cons_token : Token → Outcome Failure (List Token) → Outcome Failure (List Token)
cons_token t (ok ts) = ok (t ∷ ts)
cons_token t (err e) = err e

-- What follows a turn, with the later turns as `next`.
abbrev pub after_scan :
    (Pos → Text → Outcome Failure (List Token)) → Pos → Scan → Outcome Failure (List Token)
after_scan next p finished = ok (token_at eof [] p ∷ [])
after_scan next p (skipped t r) = next (advance t p) r
after_scan next p (found k t r) = cons_token (token_at k t p) (next (advance t p) r)
after_scan next p (refused msg) = err (error_at p.line p.col msg)

-- The loop, on fuel.
unfoldable pub lex_from : ℕ → Pos → Text → Outcome Failure (List Token)
unfolding scan advance
lex_from zero p s = err fuel
lex_from (suc f) p s = after_scan (lex_from f) p (scan s)

abbrev pub start_pos : Pos
start_pos = record { line = 1; col = 1 }

-- The fuel is one more than the number of bytes, as every turn but the last takes a byte.
unfoldable pub lex : Text → Outcome Failure (List Token)
unfolding lex_from
lex src = lex_from (suc (length src)) start_pos src
