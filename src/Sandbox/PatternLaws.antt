-- ===== src/Sandbox/PatternLaws.antt =====
-- What it takes for a pattern to match a capability, and with which specificity.
use u_flux.Prelude.{
  ℕ, ◌≡◌, ◌≢◌, refl, sym, ◌∙◌, inl, inr, ◌↔◌, true, false, [], ◌∷◌, ◌++◌, Option, none, some,
  Bool-cases, &&_iff, Text, codes, text_eq, text_eq_iff, strip_suffix, strip_suffix-some,
  strip_suffix-append, starts_with-some, starts_with-append, drop-length,
}
use u_flux.Sandbox.Pattern.{pattern_matches, under_prefix, match_stripped}

-- The three forms of pattern, with the specificity that each gives.
pub data Matches : Text → Text → ℕ → Type 0 where
  star : {pat want : Text} {k : ℕ} → pat ≡ codes "*" → k ≡ 0 → Matches pat want k
  wildcard :
      {pat want : Text} {k : ℕ} (prefix rest : Text)
      → pat ≡ prefix ++ codes ".*"
      → want ≡ prefix ++ (codes "." ++ rest)
      → k ≡ 1
      → Matches pat want k
  exact :
      {pat want : Text} {k : ℕ}
      → pat ≡ want
      → pat ≢ codes "*"
      → ((prefix : Text) → pat ≢ prefix ++ codes ".*")
      → k ≡ 2
      → Matches pat want k

under_prefix_iff :
    (prefix want : Text)
    → (under_prefix prefix want ≡ true) ↔ ((rest : Text) × (want ≡ prefix ++ (codes "." ++ rest)))
under_prefix_iff prefix want = (there, back)
  where
    there : under_prefix prefix want ≡ true → (rest : Text) × (want ≡ prefix ++ (codes "." ++ rest))
    there h =
        let (a, b) = (&&_iff _ _).0 h in
        let (r, e) = starts_with-some want prefix a in
        let dropped = rw (e, drop-length) at b in
        let (rest, e') = starts_with-some r (codes ".") dropped in (rest, rw e (rw e' refl))

    back :
        ((rest : Text) × (want ≡ prefix ++ (codes "." ++ rest))) → under_prefix prefix want ≡ true
    back (rest, e) = rw (e, starts_with-append, drop-length) (starts_with-append (codes ".") rest)

no_suffix :
    (pat : Text)
    → strip_suffix pat (codes ".*") ≡ none
    → (prefix : Text) → pat ≢ prefix ++ codes ".*"
no_suffix pat h prefix e = cc (rw e at h, strip_suffix-append prefix (codes ".*"))

star_has_no_suffix : (prefix : Text) → codes "*" ≢ prefix ++ codes ".*"
star_has_no_suffix [] e = cc
star_has_no_suffix (c ∷ []) e = cc
star_has_no_suffix (c ∷ d ∷ p) e = cc

matched :
    (pat want : Text) (k : ℕ) (o : Option Text)
    → strip_suffix pat (codes ".*") ≡ o
    → pat ≢ codes "*"
    → match_stripped o pat want ≡ some k
    → Matches pat want k
matched pat want k none s ne h = elim (Bool-cases (text_eq pat want)) [
  | inl e ↦ exact ((text_eq_iff pat want).0 e) ne (no_suffix pat s) (cc (rw e at h))
  | inr e ↦ cc (rw e at h)
]
matched pat want k (some prefix) s ne h = elim (Bool-cases (under_prefix prefix want)) [
  | inl e ↦
      let (rest, w) = (under_prefix_iff prefix want).0 e in
      wildcard prefix rest (strip_suffix-some pat (codes ".*") prefix s) w (cc (rw e at h))
  | inr e ↦ cc (rw e at h)
]

pattern_matches-Matches :
    (pat want : Text) (k : ℕ) → pattern_matches pat want ≡ some k → Matches pat want k
unfolding pattern_matches
pattern_matches-Matches pat want k h = elim (Bool-cases (text_eq pat (codes "*"))) [
  | inl e ↦ star ((text_eq_iff pat _).0 e) (cc (rw e at h))
  | inr e ↦ matched pat want k _ refl (λ x. cc ((text_eq_iff pat (codes "*")).1 x)) (rw e at h)
]

not_star : (pat : Text) → pat ≢ codes "*" → text_eq pat (codes "*") ≡ false
not_star pat ne = elim (Bool-cases (text_eq pat (codes "*"))) [
  | inl e ↦ absurd (ne ((text_eq_iff pat _).0 e))
  | inr e ↦ e
]

stripped_none :
    (pat : Text)
    → ((prefix : Text) → pat ≢ prefix ++ codes ".*")
    → (o : Option Text) → strip_suffix pat (codes ".*") ≡ o
    → o ≡ none
stripped_none pat h none e = refl
stripped_none pat h (some p) e = absurd (h p (strip_suffix-some pat (codes ".*") p e))

Matches-pattern_matches :
    (pat want : Text) (k : ℕ) → Matches pat want k → pattern_matches pat want ≡ some k
unfolding pattern_matches
Matches-pattern_matches pat want k (star e z) = rw ((text_eq_iff pat (codes "*")).1 e) (cc)
Matches-pattern_matches pat want k (wildcard prefix rest p w o) =
    rw (not_star pat (λ x. star_has_no_suffix prefix (sym x ∙ p)))
      (rw (p, strip_suffix-append) (rw ((under_prefix_iff prefix want).1 (rest, w)) (cc)))
Matches-pattern_matches pat want k (exact same ne none_suffix two) =
    rw (not_star pat ne)
      (rw (stripped_none pat none_suffix _ refl) (rw ((text_eq_iff pat want).1 same) (cc)))

-- A pattern matches a capability with specificity `k` exactly when it is `*` and `k` is 0, or it
-- is `prefix.*`, the capability is `prefix.` with a rest and `k` is 1, or it is the capability's
-- own name, of neither of these forms, and `k` is 2.
pub pattern_matches_iff :
    (pat want : Text) (k : ℕ) → (pattern_matches pat want ≡ some k) ↔ Matches pat want k
pattern_matches_iff pat want k =
    (pattern_matches-Matches pat want k, Matches-pattern_matches pat want k)
