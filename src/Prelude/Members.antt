-- ===== src/Prelude/Members.antt =====
-- Membership by `contains` in a list of texts.
use mathlib.Core.Path.{◌≡◌, refl}
use mathlib.Core.Logic.{◌⊎◌, inl, inr}
use mathlib.Core.Bool.{Bool, true, false, ◌||◌}
use mathlib.Core.List.{List, [], ◌∷◌, ◌++◌}
use native.Mathlib.Omega.{arith}
use u_flux.Prelude.Tests.{Bool-cases}
use u_flux.Prelude.Lists.{filter}
use u_flux.Prelude.Texts.{Text, text_eq, text_eq_iff, text_eq_refl, contains}

pub contains-cons :
    (x : Text) (xs : List Text) (t : Text) → contains (x ∷ xs) t ≡ (text_eq x t || contains xs t)
unfolding contains
contains-cons x xs t = refl

pub contains-nil : (t : Text) → contains [] t ≡ false
unfolding contains
contains-nil t = refl

pub contains-head : (x : Text) (xs : List Text) → contains (x ∷ xs) x ≡ true
contains-head x xs = ground (arith, contains-cons x xs x, text_eq_refl x)

pub contains-tail :
    (x : Text) (xs : List Text) (t : Text) → contains xs t ≡ true → contains (x ∷ xs) t ≡ true
contains-tail x xs t h = ground (arith, contains-cons x xs t)

pub contains-cases :
    (x : Text) (xs : List Text) (t : Text)
    → contains (x ∷ xs) t ≡ true
    → (x ≡ t) ⊎ (contains xs t ≡ true)
contains-cases x xs t h = elim (Bool-cases (text_eq x t)) [
  | inl e ↦ inl ((text_eq_iff x t).0 e)
  | inr e ↦ inr (ground (arith, contains-cons x xs t))
]

pub contains-append :
    (xs ys : List Text) (t : Text) → contains (xs ++ ys) t ≡ (contains xs t || contains ys t)
contains-append [] ys t = ground (arith, contains-nil t)
contains-append (x ∷ xs) ys t =
    ground (arith, contains-cons x xs t, contains-cons x (xs ++ ys) t, contains-append xs ys t)

-- What a filter keeps was there, and meets the test.
pub contains-filter :
    (p : Text → Bool) (xs : List Text) (t : Text)
    → contains (filter p xs) t ≡ true
    → (contains xs t ≡ true) × (p t ≡ true)
contains-filter p [] t h = ground (arith, contains-nil t)
contains-filter p (x ∷ xs) t h = elim (Bool-cases (p x)) [
  | inr e ↦ let r = contains-filter p xs t (rw e at h) in (contains-tail x xs t r.0, r.1)
  | inl e ↦ elim (contains-cases x (filter p xs) t (rw e at h)) [
    | inl same ↦ (rw same (contains-head t xs), rw same at e)
    | inr later ↦ let r = contains-filter p xs t later in (contains-tail x xs t r.0, r.1)
  ]
]

pub filter-contains :
    (p : Text → Bool) (xs : List Text) (t : Text)
    → contains xs t ≡ true
    → p t ≡ true
    → contains (filter p xs) t ≡ true
filter-contains p [] t h k = ground (arith, contains-nil t)
filter-contains p (x ∷ xs) t h k = elim (contains-cases x xs t h) [
  | inl same ↦ rw (same, k) (contains-head t (filter p xs))
  | inr later ↦ elim (Bool-cases (p x)) [
    | inl e ↦ rw e (contains-tail x (filter p xs) t (filter-contains p xs t later k))
    | inr e ↦ rw e (filter-contains p xs t later k)
  ]
]
