-- ===== src/Comp/Escapes.antt =====
-- The escaped form of a character, and the literals that it makes.
use u_flux.Prelude.{
  ℕ, ◌≡◌, ◌≢◌, refl, ap, ◌∙◌, [], ◌∷◌, ◌++◌, some, inl, inr, arith, ◌==◌, Bool-cases, append_assoc,
  Text,
}
use u_flux.Comp.Strings.{
  escape_char, escape_str, unescape_char, unescape, split_last, unquote, quote, cons_init,
}
use u_flux.Comp.Tokens.{cons_first, string_rest}

-- A character stands for itself, or behind a backslash for what that stands for.
pub data Escaped (c : ℕ) : Text → Type 0 where
  itself : c ≢ b'\\' → c ≢ b'"' → Escaped c (c ∷ [])
  behind : {d : ℕ} → unescape_char d ≡ c → Escaped c (b'\\' ∷ d ∷ [])

pub escape_char-Escaped : (c : ℕ) → Escaped c (escape_char c)
escape_char-Escaped c = elim (Bool-cases (c == b'\\')) [
  | inl e ↦ rw e (behind (ground arith))
  | inr n1 ↦ elim (Bool-cases (c == b'"')) [
    | inl e ↦ rw (n1, e) (behind (ground arith))
    | inr n2 ↦ elim (Bool-cases (c == b'\n')) [
      | inl e ↦ rw (n1, n2, e) (behind (ground arith))
      | inr n3 ↦ elim (Bool-cases (c == b'\t')) [
        | inl e ↦ rw (n1, n2, n3, e) (behind (ground arith))
        | inr n4 ↦ elim (Bool-cases (c == b'\r')) [
          | inl e ↦ rw (n1, n2, n3, n4, e) (behind (ground arith))
          | inr n5 ↦ elim (Bool-cases (c == 0)) [
            | inl e ↦ rw (n1, n2, n3, n4, n5, e) (behind (ground arith))
            | inr n6 ↦ rw (n1, n2, n3, n4, n5, n6) (itself (ground arith) (ground arith))
          ]
        ]
      ]
    ]
  ]
]

unescape-plain : (c : ℕ) (t : Text) → c ≢ b'\\' → unescape (c ∷ t) ≡ c ∷ unescape t
unfolding unescape
unescape-plain c [] n = refl
unescape-plain c (d ∷ s) n = ground arith

unescape-Escaped :
    (c : ℕ) {e : Text} → Escaped c e → (t : Text) → unescape (e ++ t) ≡ c ∷ unescape t
unfolding unescape
unescape-Escaped c (itself n _) t = unescape-plain c t n
unescape-Escaped c (behind h) t = ap (λ x. x ∷ unescape t) h

unescape-escape_str : (s : Text) → unescape (escape_str s) ≡ s
unfolding escape_str
unescape-escape_str [] = unfold unescape in refl
unescape-escape_str (c ∷ s) =
    unescape-Escaped c (escape_char-Escaped c) (escape_str s) ∙ ap (◌∷◌ c) (unescape-escape_str s)

split_last-append : (s : Text) (c : ℕ) → split_last (s ++ c ∷ []) ≡ some (s, c)
unfolding split_last
split_last-append [] c = refl
split_last-append (d ∷ s) c = ap (cons_init d) (split_last-append s c)

-- A literal that an emitter writes is read as the text that it was written for.
pub unquote-quote : (s : Text) → unquote (quote s) ≡ some s
unfolding unquote
unquote-quote s = rw (split_last-append, unescape-escape_str)

string_rest-plain :
    (c : ℕ) (t : Text) → c ≢ b'\\' → c ≢ b'"' → string_rest (c ∷ t) ≡ cons_first c (string_rest t)
unfolding string_rest
string_rest-plain c [] n m = refl
string_rest-plain c (d ∷ s) n m = ground arith

string_rest-Escaped :
    (c : ℕ) {e : Text}
    → Escaped c e
    → (t u r : Text) → string_rest t ≡ (u, r)
    → string_rest (e ++ t) ≡ (e ++ u, r)
unfolding string_rest
string_rest-Escaped c (itself n m) t u r h = string_rest-plain c t n m ∙ ap (cons_first c) h
string_rest-Escaped c (behind {d} e) t u r h = ap (λ x. cons_first b'\\' (cons_first d x)) h

string_rest-quote : (r : Text) → string_rest (b'"' ∷ r) ≡ (b'"' ∷ [], r)
unfolding string_rest
string_rest-quote [] = refl
string_rest-quote (c ∷ r) = refl

-- The scanner of a literal stops exactly at the closing quote.
pub string_rest-escape_str :
    (s r : Text) → string_rest (escape_str s ++ b'"' ∷ r) ≡ (escape_str s ++ b'"' ∷ [], r)
unfolding escape_str
string_rest-escape_str [] r = string_rest-quote r
string_rest-escape_str (c ∷ s) r =
    rw (append_assoc, append_assoc)
      (string_rest-Escaped c (escape_char-Escaped c) (escape_str s ++ b'"' ∷ r) _ r
        (string_rest-escape_str s r))
