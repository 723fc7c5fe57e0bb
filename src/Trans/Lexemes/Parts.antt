-- ===== src/Trans/Lexemes/Parts.antt =====
-- The searches of a turn: spans, comments, literals, numbers and operators.
use u_flux.Prelude.{
  ℕ, ◌≡◌, ◌≢◌, refl, sym, ap, ◌∙◌, inl, inr, Bool, true, ◌&&◌, ◌||◌, List, [], ◌∷◌, ◌++◌, Option,
  none, some, arith, ◌==◌, ==_iff, Bool-cases, Text, contains, contains-head, contains-tail,
  starts_with, starts_with-some, drop-length,
}
use u_flux.Trans.Token.{Kind, multi_punct}
use u_flux.Trans.Lexer.{
  is_digit, is_hex_digit, is_graphic, span, cons_found, literal_or, comment_or, hex_or, punct_or,
  block_comment, quoted, scan_number, find_punct, scan_punct,
}
use u_flux.Trans.Lexemes.{
  Every, Quoted, close, plain, escaped, Closed, closed, inside, comment, Lexeme, decimal, hex,
  operator, single, Turn, blank, lexeme, no_token,
}

pub span_lem : (p : ℕ → Bool) (s : Text) → ((span p s).0 ++ (span p s).1 ≡ s) × Every p (span p s).0
unfolding span
span_lem p [] = (refl, tt)
span_lem p (c ∷ s) = elim (Bool-cases (p c)) [
  | inl e ↦ rw e (ap (◌∷◌ c) (span_lem p s).0, (e, (span_lem p s).1))
  | inr e ↦ rw e (refl, tt)
]

-- A search that finds a part gives back the input, and the part meets `P`.
abbrev Splits : (Text → Type 0) → Text → Option (Text × Text) → Type 0
Splits P s none = Unit
Splits P s (some (t, r)) = (s ≡ t ++ r) × P t

Splits-cons :
    (P : Text → Type 0) (c : ℕ) (s : Text) (o : Option (Text × Text))
    → ((t : Text) → P t → P (c ∷ t))
    → Splits P s o
    → Splits P (c ∷ s) (cons_found c o)
Splits-cons P c s none f h = tt
Splits-cons P c s (some (t, r)) f (e, k) = (ap (◌∷◌ c) e, f t k)

pub block_comment_lem : (s : Text) → Splits Closed s (block_comment s)
unfolding block_comment
block_comment_lem [] = tt
block_comment_lem (c ∷ []) = tt
block_comment_lem (c ∷ d ∷ s) = elim (Bool-cases (c == b'*' && d == b'/')) [
  | inl e ↦ rw (e, block_comment) (refl, closed (ground arith) (ground arith))
  | inr e ↦
      rw (e, block_comment)
        (Splits-cons Closed c (d ∷ s) (block_comment (d ∷ s)) (λ t h. inside h)
          (block_comment_lem (d ∷ s)))
]

pub quoted_lem : (q : ℕ) (s : Text) → Splits (Quoted q) s (quoted q s)
unfolding quoted
quoted_lem q [] = tt
quoted_lem q (c ∷ []) = elim (Bool-cases (c == q)) [
  | inl e ↦ rw e (refl, close ((==_iff c q).0 e))
  | inr e ↦ rw e tt
]
quoted_lem q (c ∷ d ∷ s) = elim (Bool-cases (c == q)) [
  | inl e ↦ rw (e, quoted) (refl, close ((==_iff c q).0 e))
  | inr e ↦ elim (Bool-cases (c == b'\\')) [
    | inl f ↦ rw (e, quoted, f) (escape_step (quoted q s) (quoted_lem q s) (ground arith))
    | inr f ↦
        rw (e, quoted, f)
          (Splits-cons (Quoted q) c (d ∷ s) (quoted q (d ∷ s))
            (λ t h. plain (ground arith) (ground arith) h) (quoted_lem q (d ∷ s)))
  ]
]
  where
    escape_step :
        (o : Option (Text × Text))
        → Splits (Quoted q) s o
        → c ≡ b'\\'
        → Splits (Quoted q) (c ∷ d ∷ s) (cons_found c (cons_found d o))
    escape_step none h e = tt
    escape_step (some (t, r)) (e, k) f = (ap (λ x. c ∷ d ∷ x) e, escaped d f k)

pub find_punct_lem :
    (ops : List Text) (s : Text) (op : Text)
    → find_punct ops s ≡ some op
    → (contains ops op ≡ true) × (starts_with s op ≡ true)
unfolding find_punct
find_punct_lem [] s op h = cc
find_punct_lem (o ∷ ops) s op h = elim (Bool-cases (starts_with s o)) [
  | inl e ↦ let same : o ≡ op = cc (rw e at h) in (rw (← same) (contains-head o ops), rw (← same) e)
  | inr e ↦ let r = find_punct_lem ops s op (rw e at h) in (contains-tail o ops op r.0, r.1)
]

-- Each part of a turn, on the bytes `c ∷ s`.
pub literal_or-Turn :
    (k : Kind) (q : ℕ) (s msg : Text) (o : Option (Text × Text))
    → ((t : Text) → Quoted q t → Lexeme k (q ∷ t))
    → Splits (Quoted q) s o
    → Turn (q ∷ s) (literal_or k q msg o)
literal_or-Turn k q s msg none f h = no_token
literal_or-Turn k q s msg (some (t, r)) f (e, h) = lexeme (ap (◌∷◌ q) e) (f t h) (λ x. cc)

pub comment_or-Turn :
    (s : Text) (o : Option (Text × Text))
    → Splits Closed s o
    → Turn (b'/' ∷ b'*' ∷ s) (comment_or o)
comment_or-Turn s none h = no_token
comment_or-Turn s (some (t, r)) (e, h) = blank (ap (λ x. b'/' ∷ b'*' ∷ x) e) (comment h) (λ x. cc)

pub hex_or-Turn :
    (c x : ℕ) (s : Text) (p : Text × Text)
    → (p.0 ++ p.1 ≡ s) × Every is_hex_digit p.0
    → c ≡ b'0'
    → (x == b'x' || x == b'X') ≡ true
    → Turn (c ∷ x ∷ s) (hex_or c x p)
hex_or-Turn c x s ([], r) h e f = no_token
hex_or-Turn c x s (d ∷ t, r) (h, k) e f = lexeme (ap (λ y. c ∷ x ∷ y) (sym h)) (hex e f k) (λ y. cc)

pub scan_number-Turn : (c : ℕ) (s : Text) → is_digit c ≡ true → Turn (c ∷ s) (scan_number c s)
unfolding scan_number
scan_number-Turn c [] h = lexeme refl (decimal h tt) (λ x. cc)
scan_number-Turn c (x ∷ s) h = elim (Bool-cases (c == b'0' && (x == b'x' || x == b'X'))) [
  | inl e ↦ rw e (
      hex_or-Turn c x s (span is_hex_digit s) (span_lem is_hex_digit s) (ground arith)
        (ground arith))
  | inr e ↦
      let k = span_lem is_digit (x ∷ s) in
      rw e (lexeme (ap (◌∷◌ c) (sym k.0)) (decimal h k.1) (λ y. cc))
]

operator_ne_nil : (op : Text) → contains multi_punct op ≡ true → op ≢ []
unfolding contains
operator_ne_nil op m e = cc (rw e at m)

pub scan_punct-Turn : (c : ℕ) (s : Text) → Turn (c ∷ s) (scan_punct c s)
unfolding scan_punct
scan_punct-Turn c s = by_punct (find_punct multi_punct (c ∷ s)) refl
  where
    by_punct :
        (o : Option Text) → find_punct multi_punct (c ∷ s) ≡ o → Turn (c ∷ s) (punct_or c s o)
    by_punct none e = elim (Bool-cases (is_graphic c)) [
      | inl g ↦ rw g (lexeme refl (single g) (λ x. cc))
      | inr g ↦ rw g no_token
    ]
    by_punct (some op) e =
        let (m, p) = find_punct_lem multi_punct (c ∷ s) op e in
        let (r, split) = starts_with-some (c ∷ s) op p in
        lexeme (split ∙ ap (λ x. op ++ x) (sym (rw split (drop-length op r)))) (operator m)
          (λ x. operator_ne_nil op m x)
