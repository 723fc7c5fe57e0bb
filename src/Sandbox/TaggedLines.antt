-- ===== src/Sandbox/TaggedLines.antt =====
-- Texts of lines, read back, and the values behind the tags of lines; for the laws of `describe` of comp/src/sandbox.rs.
use u_flux.Prelude.{
  ℕ, ◌≡◌, refl, ap, ◌∙◌, Bool, true, false, ◌||◌, List, [], ◌∷◌, ◌++◌, map, Option, none, some,
  ◌==◌, if◌then◌else◌, any, any-append, All, Text, codes, strip_prefix, strip_prefix-append,
}
use u_flux.Sandbox.Bake.{concat_text}

-- A text without a newline.
unfoldable pub IsLine : Text → Type 0
IsLine t = any (λ c. c == b'\n') t ≡ false

pub IsLine-append : (s t : Text) → IsLine s → IsLine t → IsLine (s ++ t)
unfolding IsLine
IsLine-append s t h k = rw (any-append (λ c. c == b'\n') s t, h, k) refl

abbrev into_first : ℕ → List Text → List Text
into_first c [] = (c ∷ []) ∷ []
into_first c (t ∷ ts) = (c ∷ t) ∷ ts

unfoldable pub read_lines : Text → List Text
read_lines [] = []
read_lines (c ∷ s) =
    let later = read_lines s in (if c == b'\n' then [] ∷ later else into_first c later)

read_lines-line : (t s : Text) → IsLine t → read_lines ((t ++ codes "\n") ++ s) ≡ t ∷ read_lines s
unfolding read_lines IsLine
read_lines-line [] s h = refl
read_lines-line (c ∷ t) s h = by_test (c == b'\n') h (read_lines-line t s)
  where
    by_test :
        (b : Bool)
        → (b || any (λ d. d == b'\n') t) ≡ false
        → (any (λ d. d == b'\n') t ≡ false → read_lines ((t ++ codes "\n") ++ s) ≡ t ∷ read_lines s)
        → (if b
            then [] ∷ read_lines ((t ++ codes "\n") ++ s)
            else into_first c (read_lines ((t ++ codes "\n") ++ s)))
          ≡ (c ∷ t) ∷ read_lines s
    by_test true k later = cc
    by_test false k later = ap (into_first c) (later k)

abbrev unlines : List Text → Text
unlines ts = concat_text (map (λ t. t ++ codes "\n") ts)

pub read_lines-unlines : (ts : List Text) → All IsLine ts → read_lines (unlines ts) ≡ ts
unfolding concat_text read_lines
read_lines-unlines [] h = refl
read_lines-unlines (t ∷ ts) h =
    read_lines-line t (unlines ts) h.0 ∙ ap (λ us. t ∷ us) (read_lines-unlines ts h.1)

-- The texts behind a tag, of the lines that start with it.
abbrev add_value : Option Text → List Text → List Text
add_value none vs = vs
add_value (some v) vs = v ∷ vs

unfoldable pub values : Text → List Text → List Text
values tag [] = []
values tag (t ∷ ts) = add_value (strip_prefix t tag) (values tag ts)

pub values-append :
    (tag : Text) (ts us : List Text) → values tag (ts ++ us) ≡ values tag ts ++ values tag us
unfolding values
values-append tag [] us = refl
values-append tag (t ∷ ts) us = by_value (strip_prefix t tag) (values-append tag ts us)
  where
    by_value :
        (o : Option Text)
        → values tag (ts ++ us) ≡ values tag ts ++ values tag us
        → add_value o (values tag (ts ++ us)) ≡ add_value o (values tag ts) ++ values tag us
    by_value none e = e
    by_value (some v) e = ap (λ vs. v ∷ vs) e

pub values-own : (tag : Text) (vs : List Text) → values tag (map (λ v. tag ++ v) vs) ≡ vs
unfolding values
values-own tag [] = refl
values-own tag (v ∷ vs) = rw (strip_prefix-append tag v) (ap (λ us. v ∷ us) (values-own tag vs))

pub values-other :
    (tag p : Text) (vs : List Text)
    → ((v : Text) → strip_prefix (p ++ v) tag ≡ none)
    → values tag (map (λ v. p ++ v) vs) ≡ []
unfolding values
values-other tag p [] h = refl
values-other tag p (v ∷ vs) h = rw (h v) (values-other tag p vs h)

pub All-append : (ts us : List Text) → All IsLine ts → All IsLine us → All IsLine (ts ++ us)
All-append [] us h k = k
All-append (t ∷ ts) us h k = (h.0, All-append ts us h.1 k)

pub All-tagged :
    (tag : Text) (vs : List Text) → IsLine tag → All IsLine vs → All IsLine (map (λ v. tag ++ v) vs)
All-tagged tag [] t h = tt
All-tagged tag (v ∷ vs) t h = (IsLine-append tag v t h.0, All-tagged tag vs t h.1)

pub plain : (t : Text) → any (λ c. c == b'\n') t ≡ false → IsLine t
unfolding IsLine
plain t h = h
