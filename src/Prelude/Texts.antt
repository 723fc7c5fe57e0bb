-- ===== src/Prelude/Texts.antt =====
-- Texts as lists of code points, with the string methods of the standard library that the source
-- calls.
use Prim.Native.Nat.{ℕ, zero, suc, ◌+◌, ◌/◌, ◌%◌}
use Prim.Native.Char.{code}
use Prim.Native.String.{String}
use mathlib.Core.Path.{◌≡◌, refl}
use mathlib.Core.Logic.{◌↔◌}
use mathlib.Core.Bool.{Bool, true, false, ◌&&◌, ◌||◌}
use mathlib.Core.List.{List, [], ◌∷◌, ◌++◌, reverse}
use mathlib.Core.Option.{Option, none, some}
use native.Mathlib.Omega.{arith}
use u_flux.Prelude.Tests.{leb, ◌==◌, if◌then◌else◌}

abbrev pub Text : Type 0
Text = List ℕ

abbrev pub codes : String → Text
codes String.[] = []
codes (String.◌∷◌ c s) = code c ∷ codes s

unfoldable pub text_eq : Text → Text → Bool
text_eq [] [] = true
text_eq (x ∷ xs) (y ∷ ys) = x == y && text_eq xs ys
text_eq _ _ = false

pub text_eq_iff : (s t : Text) → (text_eq s t ≡ true) ↔ (s ≡ t)
unfolding text_eq
text_eq_iff [] [] = ground arith
text_eq_iff [] (y ∷ ys) = ground arith
text_eq_iff (x ∷ xs) [] = ground arith
text_eq_iff (x ∷ xs) (y ∷ ys) = ground (arith, text_eq_iff xs ys)

pub text_eq_refl : (s : Text) → text_eq s s ≡ true
text_eq_refl s = (text_eq_iff s s).1 refl

unfoldable pub starts_with : Text → Text → Bool
starts_with s [] = true
starts_with [] (p ∷ ps) = false
starts_with (c ∷ s) (p ∷ ps) = c == p && starts_with s ps

-- `strip_prefix`
unfoldable pub strip_prefix : Text → Text → Option Text
strip_prefix s [] = some s
strip_prefix [] (p ∷ ps) = none
strip_prefix (c ∷ s) (p ∷ ps) = if c == p then strip_prefix s ps else none

abbrev pub rev_option : Option Text → Option Text
rev_option none = none
rev_option (some r) = some (reverse r)

-- `strip_suffix`
unfoldable pub strip_suffix : Text → Text → Option Text
unfolding strip_prefix
strip_suffix s p = rev_option (strip_prefix (reverse s) (reverse p))

abbrev pub within : ℕ → ℕ → ℕ → Bool
within lo hi c = leb lo c && leb c hi

-- `char::is_whitespace`: the code points with the property White_Space.
unfoldable pub is_whitespace : ℕ → Bool
is_whitespace c =
    within 9 13 c
    || c == 32
    || c == 0x85
    || c == 0xa0
    || c == 0x1680
    || within 0x2000 0x200a c
    || c == 0x2028
    || c == 0x2029
    || c == 0x202f
    || c == 0x205f
    || c == 0x3000

unfoldable pub drop_while : (ℕ → Bool) → Text → Text
drop_while p [] = []
drop_while p (c ∷ s) = if p c then drop_while p s else c ∷ s

-- `trim_end_matches`
unfoldable pub trim_end_matches : (ℕ → Bool) → Text → Text
unfolding drop_while
trim_end_matches p s = reverse (drop_while p (reverse s))

-- `trim_matches`
unfoldable pub trim_matches : (ℕ → Bool) → Text → Text
unfolding trim_end_matches
trim_matches p s = trim_end_matches p (drop_while p s)

unfoldable pub trim : Text → Text
unfolding trim_matches is_whitespace
trim = trim_matches is_whitespace

-- The text before the first character that meets `p`: `split(p).next()`.
unfoldable pub until : (ℕ → Bool) → Text → Text
until p [] = []
until p (c ∷ s) = if p c then [] else c ∷ until p s

abbrev cons_head : ℕ → Option (Text × Text) → Option (Text × Text)
cons_head c none = none
cons_head c (some (k, v)) = some (c ∷ k, v)

-- `split_once(p)` for a test on characters.
unfoldable pub split_once : (ℕ → Bool) → Text → Option (Text × Text)
split_once p [] = none
split_once p (c ∷ s) = if p c then some ([], s) else cons_head c (split_once p s)

-- The pieces between the characters that meet `p`, from the piece being read.
unfoldable pub pieces : (ℕ → Bool) → Text → Text → List Text
pieces p cur [] = reverse cur ∷ []
pieces p cur (c ∷ s) = elim (p c) [
  | true ↦ reverse cur ∷ pieces p [] s
  | false ↦ pieces p (c ∷ cur) s
]

abbrev non_empty : List Text → List Text
non_empty [] = []
non_empty ([] ∷ ts) = non_empty ts
non_empty ((c ∷ s) ∷ ts) = (c ∷ s) ∷ non_empty ts

-- `split_whitespace`
unfoldable pub split_whitespace : Text → List Text
unfolding pieces is_whitespace
split_whitespace s = non_empty (pieces is_whitespace [] s)

-- `list.contains(t)`, `list.iter().any(|m| m == t)`
unfoldable pub contains : List Text → Text → Bool
unfolding text_eq
contains [] t = false
contains (x ∷ xs) t = text_eq x t || contains xs t

-- `list.join(sep)`
unfoldable pub join : Text → List Text → Text
join sep [] = []
join sep (t ∷ []) = t
join sep (t ∷ u ∷ ts) = t ++ (sep ++ join sep (u ∷ ts))

digits_onto : ℕ → ℕ → Text → Text
digits_onto zero n out = out
digits_onto (suc f) n out =
    let shown = (b'0' + n % 10) ∷ out in
    elim (leb n 9) [ true ↦ shown | false ↦ digits_onto f (n / 10) shown ]

-- `{}` of an unsigned number
unfoldable pub show_ℕ : ℕ → Text
unfolding digits_onto
show_ℕ n = digits_onto (suc n) n []
