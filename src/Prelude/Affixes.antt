-- ===== src/Prelude/Affixes.antt =====
-- Prefixes and suffixes of texts as equations between texts.
use mathlib.Core.Path.{◌≡◌, refl, sym, ap, ◌∙◌}
use mathlib.Core.Logic.{inl, inr}
use mathlib.Core.Bool.{true}
use mathlib.Core.List.{[], ◌∷◌, ◌++◌, reverse, reverse-append, reverse-reverse}
use mathlib.Core.Option.{Option, none, some}
use u_flux.Prelude.Tests.{◌==◌, ==_iff, Bool-cases}
use u_flux.Prelude.Lists.{length, drop}
use u_flux.Prelude.Texts.{Text, starts_with, strip_prefix, strip_suffix, rev_option}

pub strip_prefix-some : (s p r : Text) → strip_prefix s p ≡ some r → s ≡ p ++ r
unfolding strip_prefix
strip_prefix-some s [] r h = cc
strip_prefix-some [] (p ∷ ps) r h = cc
strip_prefix-some (c ∷ s) (p ∷ ps) r h = elim (Bool-cases (c == p)) [
  | inl e ↦ let t = strip_prefix-some s ps r (rw e at h) in let u = (==_iff c p).0 e in cc
  | inr e ↦ cc (rw e at h)
]

pub strip_prefix-append : (p r : Text) → strip_prefix (p ++ r) p ≡ some r
unfolding strip_prefix
strip_prefix-append [] r = refl
strip_prefix-append (c ∷ p) r = rw ((==_iff c c).1 refl) (strip_prefix-append p r)

pub strip_suffix-some : (s p r : Text) → strip_suffix s p ≡ some r → s ≡ r ++ p
unfolding strip_suffix
strip_suffix-some s p r h = found (strip_prefix (reverse s) (reverse p)) refl h
  where
    found :
        (o : Option Text)
        → strip_prefix (reverse s) (reverse p) ≡ o
        → rev_option o ≡ some r
        → s ≡ r ++ p
    found none e k = cc
    found (some t) e k =
        let back = strip_prefix-some (reverse s) (reverse p) t e in
        let same : reverse t ≡ r = cc in
        sym (reverse-reverse s)
        ∙ ap reverse back
        ∙ reverse-append (reverse p) t
        ∙ rw (reverse-reverse, same)

pub strip_suffix-append : (r p : Text) → strip_suffix (r ++ p) p ≡ some r
unfolding strip_suffix
strip_suffix-append r p = rw (reverse-append, strip_prefix-append, reverse-reverse)

pub starts_with-some : (s p : Text) → starts_with s p ≡ true → (r : Text) × (s ≡ p ++ r)
unfolding starts_with
starts_with-some s [] h = (s, refl)
starts_with-some [] (p ∷ ps) h = cc
starts_with-some (c ∷ s) (p ∷ ps) h = elim (Bool-cases (c == p)) [
  | inl e ↦ let (r, t) = starts_with-some s ps (rw e at h) in let u = (==_iff c p).0 e in (r, cc)
  | inr e ↦ cc (rw e at h)
]

pub starts_with-append : (p r : Text) → starts_with (p ++ r) p ≡ true
unfolding starts_with
starts_with-append [] [] = refl
starts_with-append [] (c ∷ r) = refl
starts_with-append (c ∷ p) r = rw ((==_iff c c).1 refl) (starts_with-append p r)

pub drop-length : (p r : Text) → drop (length p) (p ++ r) ≡ r
drop-length [] r = refl
drop-length (c ∷ p) r = drop-length p r
