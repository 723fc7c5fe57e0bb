-- ===== src/Comp/Base64.antt =====
-- What a base-64 number is worth, and the way from a number to its digits and back.
use mathlib.Core.List.{reverse_aux, reverse_aux-eq}
use u_flux.Prelude.{
  all_below, all_below_lem, ℕ, zero, suc, ◌+◌, ◌*◌, ◌/◌, ◌%◌, ◌^◌, ◌≤◌, ◌<◌, ◌≡◌, refl, sym, ap,
  ◌∙◌, arith, List, [], ◌∷◌, ◌++◌, map, reverse, Option, none, some, Bool, true, false, ltb, ◌==◌,
  ==_iff, inl, inr, Bool-cases, Text, All,
}
use u_flux.Comp.Numbers.{
  l_index, l_glyph, with_digit, lrun, checked, push_digit, fold_u64, with_rest, lrun_u64, digits,
  lrun_u,
}

-- The value of digits, the highest first, behind those that make `v`.
abbrev pub value : ℕ → List ℕ → ℕ
value v [] = v
value v (d ∷ ds) = value (v * 64 + d) ds

le-value : (v : ℕ) (ds : List ℕ) → v ≤ value v ds
le-value v [] = omega arith
le-value v (d ∷ ds) = omega (arith, le-value (v * 64 + d) ds)

push_digit_lem : (v d : ℕ) → push_digit v d ≡ checked (v * 64 + d)
push_digit_lem v d = ground arith

-- A checked value, then `f`; the result is a checked value that is no smaller.
checked-bind :
    (f : ℕ → Option ℕ) (n m : ℕ)
    → n ≤ m
    → (n < 2 ^ 64 → f n ≡ checked m)
    → (elim (checked n) [ none ↦ none | some w ↦ f w ]) ≡ checked m
checked-bind f n m le k = elim (Bool-cases (ltb n (2 ^ 64))) [
  | inl e ↦ rw e (k (ground arith))
  | inr e ↦ rw e (ground arith)
]

fold_u64_lem : (v : ℕ) (ds : List ℕ) → v < 2 ^ 64 → fold_u64 v ds ≡ checked (value v ds)
unfolding fold_u64
fold_u64_lem v [] h = ground arith
fold_u64_lem v (d ∷ ds) h =
    ap (λ (o : Option ℕ). elim o [ none ↦ none | some w ↦ fold_u64 w ds ]) (push_digit_lem v d)
    ∙ checked-bind (λ w. fold_u64 w ds) (v * 64 + d) (value v (d ∷ ds)) (le-value (v * 64 + d) ds)
        (fold_u64_lem (v * 64 + d) ds)

-- A run of digits is read as its value in base 64, with what follows it left, and is refused exactly
-- when that value does not fit in 64 bits.
pub lrun_u64_lem : (s : Text) → lrun_u64 s ≡ with_rest (checked (value 0 (lrun s).0)) (lrun s).1
unfolding lrun_u64
lrun_u64_lem s = ap (λ o. with_rest o (lrun s).1) (fold_u64_lem 0 (lrun s).0 (omega arith))

-- Every digit has a glyph of its own.
abbrev has_glyph : ℕ → Bool
has_glyph d = elim (l_index (l_glyph d)) [ none ↦ false | some e ↦ e == d ]

glyph_table : all_below 64 has_glyph ≡ true
unfolding all_below l_index l_glyph
glyph_table = refl

pub l_index-l_glyph : (d : ℕ) → d < 64 → l_index (l_glyph d) ≡ some d
l_index-l_glyph d lt = by_test (l_index (l_glyph d)) (all_below_lem 64 has_glyph d glyph_table lt)
  where
    by_test : (o : Option ℕ) → (elim o [ none ↦ false | some e ↦ e == d ]) ≡ true → o ≡ some d
    by_test none h = cc
    by_test (some e) h = ap some ((==_iff e d).0 h)

lrun-reverse_aux :
    (ds : List ℕ) (r : Text) (es : List ℕ) (q : Text)
    → All (λ d. d < 64) ds
    → lrun r ≡ (es, q)
    → lrun (reverse_aux (map l_glyph ds) r) ≡ (reverse_aux ds es, q)
unfolding lrun
lrun-reverse_aux [] r es q h e = e
lrun-reverse_aux (d ∷ ds) r es q h e =
    lrun-reverse_aux ds (l_glyph d ∷ r) (d ∷ es) q h.1
      (rw (l_index-l_glyph d h.0) (ap (with_digit (some d) (l_glyph d ∷ r)) e))

-- The value of digits, the lowest first.
low_value : List ℕ → ℕ
low_value [] = 0
low_value (d ∷ ds) = d + 64 * low_value ds

value-reverse_aux : (ds es : List ℕ) → value 0 (reverse_aux ds es) ≡ value (low_value ds) es
unfolding low_value
value-reverse_aux [] es = refl
value-reverse_aux (d ∷ ds) es = value-reverse_aux ds (d ∷ es) ∙ ap (λ v. value v es) (omega arith)

pow_64 : ℕ → ℕ
pow_64 zero = 1
pow_64 (suc f) = 64 * pow_64 f

low_value-digits : (f v : ℕ) → v < pow_64 f → low_value (digits f v) ≡ v
unfolding pow_64 low_value digits
low_value-digits zero v h = omega arith
low_value-digits (suc f) v h = ground (arith, low_value-digits f (v / 64))

digits_below : (f v : ℕ) → All (λ d. d < 64) (digits f v)
unfolding digits
digits_below zero v = tt
digits_below (suc f) v =
    elim (v == 0)
      as (λ b. All (λ d. d < 64) (elim b [ true ↦ [] | false ↦ v % 64 ∷ digits f (v / 64) ])) [
        | true ↦ tt
        | false ↦ (omega arith, digits_below f (v / 64))
      ]

lrun-reverse :
    (ds : List ℕ) (rest : Text)
    → All (λ d. d < 64) ds
    → lrun rest ≡ ([], rest)
    → lrun (reverse (map l_glyph ds) ++ rest) ≡ (reverse_aux ds [], rest)
lrun-reverse ds rest h e =
    ap lrun (sym (reverse_aux-eq (map l_glyph ds) rest)) ∙ lrun-reverse_aux ds rest [] rest h e

lrun_u64-reverse :
    (ds : List ℕ) (rest : Text)
    → All (λ d. d < 64) ds
    → lrun rest ≡ ([], rest)
    → lrun_u64 (reverse (map l_glyph ds) ++ rest) ≡ with_rest (checked (low_value ds)) rest
lrun_u64-reverse ds rest h e =
    lrun_u64_lem (reverse (map l_glyph ds) ++ rest)
    ∙ ap (λ (p : List ℕ × Text). with_rest (checked (value 0 p.0)) p.1) (lrun-reverse ds rest h e)
    ∙ ap (λ v. with_rest (checked v) rest) (value-reverse_aux ds [])

pow_64_ten : pow_64 10 ≡ 2 ^ 60
unfolding pow_64
pow_64_ten = refl

all_digits : (v : ℕ) → v < 2 ^ 64 → low_value (v % 64 ∷ digits 10 (v / 64)) ≡ v
unfolding low_value
all_digits v h = omega (arith, pow_64_ten, low_value-digits 10 (v / 64) (omega (arith, pow_64_ten)))

checked-ok : (v : ℕ) (rest : Text) → v < 2 ^ 64 → with_rest (checked v) rest ≡ some (v, rest)
checked-ok v rest h = ground arith

-- A number below 2^64, written before a text that does not start with a digit, is read as itself, and
-- that text is left.
pub lrun_u64-lrun_u :
    (v : ℕ) (rest : Text)
    → v < 2 ^ 64
    → lrun rest ≡ ([], rest)
    → lrun_u64 (lrun_u v ++ rest) ≡ some (v, rest)
unfolding lrun_u
lrun_u64-lrun_u v rest h e =
    lrun_u64-reverse (v % 64 ∷ digits 10 (v / 64)) rest (omega arith, digits_below 10 (v / 64)) e
    ∙ ap (λ n. with_rest (checked n) rest) (all_digits v h)
    ∙ checked-ok v rest h
