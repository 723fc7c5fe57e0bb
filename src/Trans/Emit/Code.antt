-- ===== src/Trans/Emit/Code.antt =====
-- The text that the emitter writes (trans/src/emit.rs), with the labels of control flow kept apart
-- from the rest: a quotation `'c1` and a definition `c1:` are words of their own, and so is the
-- definition of a function's label.
use Prim.Native.String.{String}
use u_flux.Prelude.{ℕ, List, [], ◌∷◌, ◌++◌, Text, codes, show_ℕ}

-- The letters of construct labels: `i` and `e` for the branches of an `if`, `c` and `b` for the
-- condition and the body of a loop and for a guard, `n` for the step of a `for`.
pub data Letter : Type 0 where
  letter_i letter_e letter_c letter_b letter_n : Letter

pub data Word : Type 0 where
  plain : Text → Word
  heading : Text → Word
  quote define : Letter → ℕ → Word

abbrev pub Code : Type 0
Code = List Word

abbrev pub letter_text : Letter → Text
letter_text letter_i = codes "i"
letter_text letter_e = codes "e"
letter_text letter_c = codes "c"
letter_text letter_b = codes "b"
letter_text letter_n = codes "n"

abbrev pub label_text : Letter → ℕ → Text
label_text l n = letter_text l ++ show_ℕ n

abbrev word_text : Word → Text
word_text (plain t) = t
word_text (heading t) = t ++ codes ":\n"
word_text (quote l n) = codes "'" ++ label_text l n
word_text (define l n) = label_text l n ++ codes ":\n"

-- The program's text.
unfoldable pub render : Code → Text
unfolding show_ℕ
render [] = []
render (w ∷ ws) = word_text w ++ render ws

-- `push_str` of a literal, and of a text with a space behind it.
abbrev pub str : String → Code
str s = plain (codes s) ∷ []

abbrev pub spaced : Text → Code
spaced t = plain (t ++ codes " ") ∷ []

-- A text and a literal behind it.
abbrev pub followed : Text → String → Code
followed t s = plain (t ++ codes s) ∷ []
