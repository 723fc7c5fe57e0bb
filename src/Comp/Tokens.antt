-- ===== src/Comp/Tokens.antt =====
-- `text_tokens` of comp/src/lex.rs: the tokens of the text encoding. One turn of its loop looks at
-- a character and what follows, and takes some of it.
use u_flux.Prelude.{
  ℕ, zero, suc, Bool, true, false, not, ◌&&◌, ◌||◌, List, [], ◌∷◌, Option, none, some, ◌==◌,
  if◌then◌else◌, Text, length, is_whitespace, drop_while,
}

abbrev pub is_bracket : ℕ → Bool
is_bracket c = c == b'{' || c == b'}' || c == b'[' || c == b']'

unfoldable pub is_word : ℕ → Bool
is_word c = not (is_whitespace c) && not (is_bracket c) && not (c == b';')

abbrev pub cons_first : ℕ → Text × Text → Text × Text
cons_first c (t, r) = (c ∷ t, r)

-- A literal from behind its opening quote: up to the closing quote, or the end of the source.
unfoldable pub string_rest : Text → Text × Text
string_rest [] = ([], [])
string_rest (c ∷ []) = (c ∷ [], [])
string_rest (c ∷ d ∷ s) = elim (c == b'\\') [
  | true ↦ cons_first c (cons_first d (string_rest s))
  | false ↦ elim (c == b'"') [ true ↦ (c ∷ [], d ∷ s) | false ↦ cons_first c (string_rest (d ∷ s)) ]
]

unfoldable pub word_rest : Text → Text × Text
word_rest [] = ([], [])
word_rest (c ∷ s) = if is_word c then cons_first c (word_rest s) else ([], c ∷ s)

-- One turn at `c`: the token, if there is one, and what is left.
abbrev found : Text × Text → Option Text × Text
found (t, r) = (some t, r)

unfoldable pub turn : ℕ → Text → Option Text × Text
unfolding is_whitespace drop_while string_rest word_rest
turn c s =
    if is_whitespace c
    then (none, s)
    else if c == b';'
    then (none, drop_while (λ d. not (d == b'\n')) s)
    else if c == b'"'
    then found (cons_first c (string_rest s))
    else if is_bracket c
    then (some (c ∷ []), s)
    else found (cons_first c (word_rest s))

abbrev pub with_token : Option Text → List Text → List Text
with_token none ts = ts
with_token (some t) ts = t ∷ ts

-- The loop, on fuel.
unfoldable pub tokens_from : ℕ → Text → List Text
unfolding turn
tokens_from f [] = []
tokens_from zero (c ∷ s) = []
tokens_from (suc f) (c ∷ s) = with_token (turn c s).0 (tokens_from f (turn c s).1)

unfoldable pub text_tokens : Text → List Text
unfolding tokens_from
text_tokens src = tokens_from (length src) src
