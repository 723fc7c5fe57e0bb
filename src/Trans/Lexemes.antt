-- ===== src/Trans/Lexemes.antt =====
-- The blanks and the lexemes of the source, and what one turn of the scanner promises.
pub mod Parts
pub mod Turns
pub mod Whole
use u_flux.Prelude.{
  ℕ, zero, suc, ◌<◌, ◌≡◌, ◌≢◌, refl, sym, ap, ◌∙◌, ◌⊎◌, inl, inr, Bool, true, false, ◌&&◌, ◌||◌,
  List, [], ◌∷◌, ◌++◌, Option, none, some, Outcome, ok, err, arith, ◌==◌, ==_iff, if◌then◌else◌,
  Bool-cases, Text, length, length-append, All, contains, contains-head, contains-tail, starts_with,
  starts_with-some, drop-length,
}
use u_flux.Trans.Token.{
  Kind, int, ident, str, char, punct, eof, Token, multi_punct, Error, Failure, failed, fuel,
}
use u_flux.Trans.Lexer.{
  Pos, advance, is_blank, is_digit, is_hex_digit, is_alphabetic, is_word, is_graphic, on_line, span,
  cons_found, skip_pair, literal_or, comment_or, hex_or, punct_or, block_comment, quoted, Scan,
  finished, skipped, found, refused, scan_number, find_punct, scan_punct, scan_plain, scan_slash,
  scan, after_scan, token_at, cons_token, lex_from, start_pos, lex,
}

-- Every byte meets the test.
abbrev pub Every : (ℕ → Bool) → Text → Type 0
Every p t = All (λ c. p c ≡ true) t

-- The rest of a literal that ends with its quote `q`: plain bytes and escaped ones.
pub data Quoted (q : ℕ) : Text → Type 0 where
  close : {c : ℕ} → c ≡ q → Quoted q (c ∷ [])
  plain : {c : ℕ} {t : Text} → c ≢ q → c ≢ b'\\' → Quoted q t → Quoted q (c ∷ t)
  escaped : {c : ℕ} {t : Text} (d : ℕ) → c ≡ b'\\' → Quoted q t → Quoted q (c ∷ d ∷ t)

-- The rest of a block comment, closed by its `*/`.
pub data Closed : Text → Type 0 where
  closed : {c d : ℕ} → c ≡ b'*' → d ≡ b'/' → Closed (c ∷ d ∷ [])
  inside : {c : ℕ} {t : Text} → Closed t → Closed (c ∷ t)

pub data Blank : Text → Type 0 where
  space : {c : ℕ} → is_blank c ≡ true → Blank (c ∷ [])
  line_comment : {c d : ℕ} {t : Text} → c ≡ b'/' → d ≡ b'/' → Every on_line t → Blank (c ∷ d ∷ t)
  directive : {c : ℕ} {t : Text} → c ≡ b'#' → Every on_line t → Blank (c ∷ t)
  comment : {t : Text} → Closed t → Blank (b'/' ∷ b'*' ∷ t)

pub data Lexeme : Kind → Text → Type 0 where
  word :
      {c : ℕ} {t : Text}
      → (is_alphabetic c || c == b'_') ≡ true
      → Every is_word t
      → Lexeme ident (c ∷ t)
  decimal : {c : ℕ} {t : Text} → is_digit c ≡ true → Every is_digit t → Lexeme int (c ∷ t)
  hex :
      {c x d : ℕ} {t : Text}
      → c ≡ b'0'
      → (x == b'x' || x == b'X') ≡ true
      → Every is_hex_digit (d ∷ t)
      → Lexeme int (c ∷ x ∷ d ∷ t)
  string : {c : ℕ} {t : Text} → c ≡ b'"' → Quoted b'"' t → Lexeme str (c ∷ t)
  character : {c : ℕ} {t : Text} → c ≡ b'\'' → Quoted b'\'' t → Lexeme char (c ∷ t)
  operator : {t : Text} → contains multi_punct t ≡ true → Lexeme punct t
  single : {c : ℕ} → is_graphic c ≡ true → Lexeme punct (c ∷ [])

-- What one turn promises of the bytes that it looked at.
pub data Turn : Text → Scan → Type 0 where
  at_end : Turn [] finished
  blank : {s t r : Text} → s ≡ t ++ r → Blank t → t ≢ [] → Turn s (skipped t r)
  lexeme : {s t r : Text} {k : Kind} → s ≡ t ++ r → Lexeme k t → t ≢ [] → Turn s (found k t r)
  no_token : {s msg : Text} → Turn s (refused msg)
