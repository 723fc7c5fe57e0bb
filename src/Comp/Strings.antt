-- ===== src/Comp/Strings.antt =====
-- String literals of the text encoding: `escape_str` of comp/src/emit.rs, which writes them, and
-- `unquote` of comp/src/lex.rs, which reads them.
use u_flux.Prelude.{
  ℕ, true, false, ◌&&◌, [], ◌∷◌, ◌++◌, Option, none, some, ◌==◌, if◌then◌else◌, Text, codes,
}

abbrev pub escape_char : ℕ → Text
escape_char c =
    if c == b'\\'
    then codes "\\\\"
    else if c == b'"'
    then codes "\\\""
    else if c == b'\n'
    then codes "\\n"
    else if c == b'\t'
    then codes "\\t"
    else if c == b'\r'
    then codes "\\r"
    else if c == 0
    then codes "\\0"
    else c ∷ []

unfoldable pub escape_str : Text → Text
escape_str [] = []
escape_str (c ∷ s) = escape_char c ++ escape_str s

-- What a backslash and `c` stand for.
abbrev pub unescape_char : ℕ → ℕ
unescape_char c =
    if c == b'n'
    then b'\n'
    else if c == b't'
    then b'\t'
    else if c == b'r'
    then b'\r'
    else if c == b'0'
    then 0
    else c

-- The characters between the quotes; a backslash at the end stands for itself.
unfoldable pub unescape : Text → Text
unescape [] = []
unescape (c ∷ []) = c ∷ []
unescape (c ∷ d ∷ s) = elim (c == b'\\') [
  | true ↦ unescape_char d ∷ unescape s
  | false ↦ c ∷ unescape (d ∷ s)
]

-- A text without its last character, and that character.
abbrev pub cons_init : ℕ → Option (Text × ℕ) → Option (Text × ℕ)
cons_init c none = some ([], c)
cons_init c (some (s, l)) = some (c ∷ s, l)

unfoldable pub split_last : Text → Option (Text × ℕ)
split_last [] = none
split_last (c ∷ s) = cons_init c (split_last s)

abbrev unquote_between : ℕ → Option (Text × ℕ) → Option Text
unquote_between q none = none
unquote_between q (some (s, l)) = if q == b'"' && l == b'"' then some (unescape s) else none

unfoldable pub unquote : Text → Option Text
unfolding split_last unescape
unquote [] = none
unquote (q ∷ s) = unquote_between q (split_last s)

-- A literal as the emitters write it.
abbrev pub quote : Text → Text
quote s = b'"' ∷ (escape_str s ++ b'"' ∷ [])
