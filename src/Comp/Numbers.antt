-- ===== src/Comp/Numbers.antt =====
-- Numbers of the dense encoding: `L_SPACE`, `lrun` and `lrun_u64` of comp/src/lex.rs, which read a
-- base-64 number, and `lrun_u` of comp/src/emit.rs, which writes one.
use u_flux.Prelude.{
  ℕ, zero, suc, ◌+◌, ◌*◌, ◌/◌, ◌%◌, ◌^◌, List, [], ◌∷◌, map, reverse, Option, none, some, ltb, ◌==◌,
  true, false, if◌then◌else◌, Text, get_elem?,
}

-- The digits' glyphs.
unfoldable pub l_space : List ℕ
l_space =
    0x1F130 ∷ 0x1F132 ∷ 0x1F136 ∷ 0x1F137 ∷ 0x1F138 ∷ 0x1F13D ∷ 0x1F142 ∷ 0x1F145 ∷ 0x1F150
    ∷ 0x1F153 ∷ 0x1F154 ∷ 0x1F156 ∷ 0x1F158 ∷ 0x1F15A ∷ 0x1F15B ∷ 0x1F15D ∷ 0x1F162 ∷ 0x1F166
    ∷ 0x1F170 ∷ 0x1F171 ∷ 0x1F174 ∷ 0x1F176 ∷ 0x1F17B ∷ 0x1F17C ∷ 0x1F17D ∷ 0x1F17E ∷ 0x1F17F
    ∷ 0x1F182 ∷ 0x1F183 ∷ 0x1F186 ∷ 0x1F18E ∷ 0x1F192 ∷ 0x1F193 ∷ 0x1F194 ∷ 0x1F195 ∷ 0x1F196
    ∷ 0x1F197 ∷ 0x1F198 ∷ 0x1F199 ∷ 0x1F19A ∷ 0x1F1E6 ∷ 0x1F1E7 ∷ 0x1F1E8 ∷ 0x1F1E9 ∷ 0x1F1EA
    ∷ 0x1F1EB ∷ 0x1F1EC ∷ 0x1F1ED ∷ 0x1F1EE ∷ 0x1F1EF ∷ 0x1F1F0 ∷ 0x1F1F1 ∷ 0x1F1F2 ∷ 0x1F1F3
    ∷ 0x1F1F4 ∷ 0x1F1F5 ∷ 0x1F1F6 ∷ 0x1F1F7 ∷ 0x1F1F8 ∷ 0x1F1F9 ∷ 0x1F1FA ∷ 0x1F1FB ∷ 0x1F1FC
    ∷ 0x1F1FD ∷ []

abbrev pub after : Option ℕ → Option ℕ
after none = none
after (some i) = some (suc i)

-- `iter().position(|&c| c == cp)`
unfoldable pub position : List ℕ → ℕ → Option ℕ
position [] cp = none
position (c ∷ cs) cp = if c == cp then some 0 else after (position cs cp)

unfoldable pub l_index : ℕ → Option ℕ
unfolding l_space position
l_index cp = position l_space cp

abbrev glyph_or : Option ℕ → ℕ
glyph_or none = 0
glyph_or (some c) = c

-- For a digit below 64.
unfoldable pub l_glyph : ℕ → ℕ
unfolding l_space
l_glyph i = glyph_or (get_elem? l_space i)

-- A run of digits, and what is left.
abbrev pub with_digit : Option ℕ → Text → List ℕ × Text → List ℕ × Text
with_digit none s later = ([], s)
with_digit (some d) s (ds, r) = (d ∷ ds, r)

unfoldable pub lrun : Text → List ℕ × Text
unfolding l_index
lrun [] = ([], [])
lrun (c ∷ s) = with_digit (l_index c) (c ∷ s) (lrun s)

-- `checked_mul` and `checked_add` of u64.
abbrev pub checked : ℕ → Option ℕ
checked n = if ltb n (2 ^ 64) then some n else none

abbrev add_digit : ℕ → Option ℕ → Option ℕ
add_digit d none = none
add_digit d (some x) = checked (x + d)

abbrev pub push_digit : ℕ → ℕ → Option ℕ
push_digit v d = add_digit d (checked (v * 64))

-- The fold over the digits; `none` is the overflow error.
unfoldable pub fold_u64 : ℕ → List ℕ → Option ℕ
fold_u64 v [] = some v
fold_u64 v (d ∷ ds) = elim (push_digit v d) [ none ↦ none | some w ↦ fold_u64 w ds ]

abbrev pub with_rest : Option ℕ → Text → Option (ℕ × Text)
with_rest none r = none
with_rest (some v) r = some (v, r)

unfoldable pub lrun_u64 : Text → Option (ℕ × Text)
unfolding lrun fold_u64
lrun_u64 s = with_rest (fold_u64 0 (lrun s).0) (lrun s).1

-- `while v > 0 { push(v % 64); v /= 64 }`, on fuel: the lowest digit first.
unfoldable pub digits : ℕ → ℕ → List ℕ
digits zero v = []
digits (suc f) v = elim (v == 0) [ true ↦ [] | false ↦ v % 64 ∷ digits f (v / 64) ]

-- A u64 has at most ten digits behind its lowest one.
unfoldable pub lrun_u : ℕ → Text
unfolding digits l_glyph
lrun_u v = reverse (map l_glyph (v % 64 ∷ digits 10 (v / 64)))
