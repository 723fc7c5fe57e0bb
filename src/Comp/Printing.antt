-- ===== src/Comp/Printing.antt =====
-- Tokens that stand apart by spaces are found again by `text_tokens`.
use u_flux.Prelude.{
  ℕ, zero, suc, ◌-◌, ◌≤◌, ◌≡◌, ◌≢◌, refl, ap, ◌∙◌, true, List, [], ◌∷◌, ◌++◌, some, arith, Text,
  length, length-append, All, append_assoc, is_whitespace,
}
use u_flux.Comp.Strings.{escape_str, quote}
use u_flux.Comp.Tokens.{is_bracket, is_word, cons_first, word_rest, turn, tokens_from, text_tokens}
use u_flux.Comp.Escapes.{string_rest-escape_str}

-- The tokens that can be printed: words, literals and brackets.
pub data Printable : Text → Type 0 where
  word :
      (c : ℕ) (t : Text)
      → c ≢ b'"'
      → is_word c ≡ true
      → All (λ d. is_word d ≡ true) t
      → Printable (c ∷ t)
  literal : (s : Text) → Printable (quote s)
  bracket : (c : ℕ) → is_bracket c ≡ true → Printable (c ∷ [])

-- Each token with a space behind it.
unfoldable pub spaced : List Text → Text
spaced [] = []
spaced (t ∷ ts) = t ++ b' ' ∷ spaced ts

word_rest-All :
    (t r : Text) → All (λ d. is_word d ≡ true) t → word_rest (t ++ b' ' ∷ r) ≡ (t, b' ' ∷ r)
unfolding word_rest is_word is_whitespace
word_rest-All [] r h = refl
word_rest-All (c ∷ t) r h = rw h.0 (ap (cons_first c) (word_rest-All t r h.1))

turn-word :
    (c : ℕ) (s : Text)
    → c ≢ b'"'
    → is_word c ≡ true
    → turn c s ≡ (some (c ∷ (word_rest s).0), (word_rest s).1)
unfolding turn is_word
turn-word c s n w = ground arith

turn-bracket : (c : ℕ) (s : Text) → is_bracket c ≡ true → turn c s ≡ (some (c ∷ []), s)
unfolding turn is_whitespace
turn-bracket c s b = ground arith

turn-quote : (s r : Text) → turn b'"' (escape_str s ++ b'"' ∷ r) ≡ (some (quote s), r)
unfolding turn is_whitespace
turn-quote s r = ap (λ p. (some (b'"' ∷ p.0), p.1)) (string_rest-escape_str s r)

-- The first turn at a printed token takes it.
turn-Printable :
    {t : Text}
    → Printable t
    → (r : Text) → (c : ℕ) × (s : Text) × (t ++ b' ' ∷ r ≡ c ∷ s) × (turn c s ≡ (some t, b' ' ∷ r))
turn-Printable (word c t n w h) r = (
  c,
  t ++ b' ' ∷ r,
  refl,
  turn-word c (t ++ b' ' ∷ r) n w ∙ ap (λ p. (some (c ∷ p.0), p.1)) (word_rest-All t r h),
)
turn-Printable (literal s) r = (
  b'"',
  escape_str s ++ b'"' ∷ b' ' ∷ r,
  ap (◌∷◌ b'"') (append_assoc (escape_str s) (b'"' ∷ []) (b' ' ∷ r)),
  turn-quote s (b' ' ∷ r),
)
turn-Printable (bracket c b) r = (c, b' ' ∷ r, refl, turn-bracket c (b' ' ∷ r) b)

-- A turn for a token and one for the space behind it.
tokens_from-spaced :
    (f : ℕ) (t r : Text)
    → Printable t
    → tokens_from (suc (suc f)) (t ++ b' ' ∷ r) ≡ t ∷ tokens_from f r
unfolding tokens_from is_whitespace
tokens_from-spaced f t r h =
    let (c, s, e, k) = turn-Printable h r in ap (tokens_from (suc (suc f))) e ∙ rw k

tokens_from-nil : (f : ℕ) → tokens_from f [] ≡ []
unfolding tokens_from
tokens_from-nil zero = refl
tokens_from-nil (suc f) = refl

Printable-length : {t : Text} → Printable t → 1 ≤ length t
Printable-length (word c t n w h) = omega arith
Printable-length (literal s) = omega arith
Printable-length (bracket c b) = omega arith

two_turns :
    {t : Text} (f : ℕ) (r : Text)
    → Printable t
    → length (t ++ b' ' ∷ r) ≤ f
    → (g : ℕ) × (f ≡ suc (suc g)) × (length r ≤ g)
two_turns {t} f r h le =
    let n = length-append t (b' ' ∷ r) in
    let m = Printable-length h in (f - 2, omega arith, omega arith)

tokens-spaced :
    (f : ℕ) (ts : List Text)
    → All Printable ts
    → length (spaced ts) ≤ f
    → tokens_from f (spaced ts) ≡ ts
unfolding spaced
tokens-spaced f [] h le = tokens_from-nil f
tokens-spaced f (t ∷ ts) h le =
    let (g, e, le') = two_turns f (spaced ts) h.0 le in
    ap (λ n. tokens_from n (t ++ b' ' ∷ spaced ts)) e
    ∙ tokens_from-spaced g t (spaced ts) h.0
    ∙ ap (◌∷◌ t) (tokens-spaced g ts h.1 le')

-- Words, literals and brackets that are printed with spaces between them are read as the same
-- tokens, whatever the literals hold.
pub text_tokens-spaced : (ts : List Text) → All Printable ts → text_tokens (spaced ts) ≡ ts
unfolding text_tokens
text_tokens-spaced ts h = tokens-spaced (length (spaced ts)) ts h (omega arith)
