-- ===== src/Sandbox/Specificity.antt =====
-- A capability is denied by its most specific pattern, and a deny wins a draw.
use u_flux.Prelude.{
  ℕ, ◌≤◌, ◌≡◌, refl, ◌⊎◌, inl, inr, ◌↔◌, true, List, [], ◌∷◌, Option, none, some, arith, Text,
  contains, contains-cases, contains-head, contains-tail, contains-nil,
}
use u_flux.Sandbox.Pattern.{pattern_matches}
use u_flux.Sandbox.Rules.{denied, Rules, improve, best_match, verdict, resolve_cap}

-- The order of ranks, with "no match" below every rank.
abbrev pub RankLe : Option ℕ → Option ℕ → Type 0
RankLe none r = Unit
RankLe (some a) none = ⊥
RankLe (some a) (some b) = a ≤ b

RankLe-refl : (r : Option ℕ) → RankLe r r
RankLe-refl none = tt
RankLe-refl (some a) = omega arith

RankLe-trans : (a b c : Option ℕ) → RankLe a b → RankLe b c → RankLe a c
RankLe-trans none b c h k = tt
RankLe-trans (some a) none c h k = elim h [ ]
RankLe-trans (some a) (some b) none h k = elim k [ ]
RankLe-trans (some a) (some b) (some c) h k = omega arith

improve-RankLe : (best r : Option ℕ) → RankLe best (improve best r) × RankLe r (improve best r)
improve-RankLe best none = (RankLe-refl best, tt)
improve-RankLe none (some s) = ground arith
improve-RankLe (some b) (some s) = ground arith

improve-cases : (best r : Option ℕ) → (improve best r ≡ best) ⊎ (improve best r ≡ r)
improve-cases best none = inl refl
improve-cases none (some s) = inr refl
improve-cases (some b) (some s) = ground arith

best_match-ge : (ps : List Text) (w : Text) (best : Option ℕ) → RankLe best (best_match ps w best)
unfolding best_match
best_match-ge [] w best = RankLe-refl best
best_match-ge (p ∷ ps) w best =
    RankLe-trans best _ _ (improve-RankLe best (pattern_matches p w)).0
      (best_match-ge ps w (improve best (pattern_matches p w)))

pub best_match-upper :
    (ps : List Text) (w : Text) (best : Option ℕ) (p : Text)
    → contains ps p ≡ true
    → RankLe (pattern_matches p w) (best_match ps w best)
unfolding best_match
best_match-upper [] w best p h = absurd (ground (arith, contains-nil p))
best_match-upper (q ∷ ps) w best p h = elim (contains-cases q ps p h) [
  | inr later ↦ best_match-upper ps w (improve best (pattern_matches q w)) p later
  | inl same ↦ rw same (
      RankLe-trans (pattern_matches p w) _ _ (improve-RankLe best (pattern_matches p w)).1
        (best_match-ge ps w (improve best (pattern_matches p w))))
]

-- The best rank is that of a listed pattern, or the rank at the start.
abbrev Attained : List Text → Text → Option ℕ → Option ℕ → Type 0
Attained ps w best r =
    (r ≡ best) ⊎ ((p : Text) × (contains ps p ≡ true) × (r ≡ pattern_matches p w))

Attained-cons :
    (q : Text) (ps : List Text) (w : Text) (best r : Option ℕ)
    → Attained ps w (improve best (pattern_matches q w)) r
    → Attained (q ∷ ps) w best r
Attained-cons q ps w best r (inr (p, h, e)) = inr (p, contains-tail q ps p h, e)
Attained-cons q ps w best r (inl e) = elim (improve-cases best (pattern_matches q w)) [
  | inl old ↦ inl (cc)
  | inr new ↦ inr (q, contains-head q ps, cc)
]

best_match-Attained :
    (ps : List Text) (w : Text) (best : Option ℕ) → Attained ps w best (best_match ps w best)
unfolding best_match
best_match-Attained [] w best = inl refl
best_match-Attained (p ∷ ps) w best =
    Attained-cons p ps w best _ (best_match-Attained ps w (improve best (pattern_matches p w)))

-- Some deny pattern matches, and no allow pattern matches with a higher rank.
pub record DeniedBy (rules : Rules) (w : Text) : Type 0 where
  pub pattern_text : Text
  pub rank : ℕ
  pub is_listed : contains rules.deny pattern_text ≡ true
  pub is_match : pattern_matches pattern_text w ≡ some rank
  pub unbeaten :
      (a : Text) (s : ℕ) → contains rules.allow a ≡ true → pattern_matches a w ≡ some s → s ≤ rank

verdict-denied :
    (d a : Option ℕ) → verdict d a ≡ denied → (k : ℕ) × (d ≡ some k) × RankLe a (some k)
verdict-denied none a h = cc
verdict-denied (some d) none h = (d, refl, tt)
verdict-denied (some d) (some a) h = (d, refl, ground arith)

denied-verdict :
    (d a : Option ℕ) (k : ℕ) → RankLe (some k) d → RankLe a (some k) → verdict d a ≡ denied
denied-verdict none a k h j = elim h [ ]
denied-verdict (some d) none k h j = refl
denied-verdict (some d) (some a) k h j = ground arith

denied-DeniedBy : (rules : Rules) (w : Text) → resolve_cap rules w ≡ denied → DeniedBy rules w
unfolding resolve_cap
denied-DeniedBy rules w h =
    let (k, e, le) = verdict-denied _ _ h in
    from_rank k e le (best_match-Attained rules.deny w none)
  where
    from_rank :
        (k : ℕ)
        → best_match rules.deny w none ≡ some k
        → RankLe (best_match rules.allow w none) (some k)
        → Attained rules.deny w none (best_match rules.deny w none)
        → DeniedBy rules w
    from_rank k e le (inl x) = cc
    from_rank k e le (inr (p, m, x)) = record {
      pattern_text = p;
      rank = k;
      is_listed = m;
      is_match = cc;
      unbeaten = λ a s ha ea.
          RankLe-trans (some s) _ (some k) (rw ea at (best_match-upper rules.allow w none a ha)) le;
    }

allow-RankLe :
    (rules : Rules) (w : Text) (k : ℕ)
    → ((a : Text) (s : ℕ) → contains rules.allow a ≡ true → pattern_matches a w ≡ some s → s ≤ k)
    → (r : Option ℕ) → Attained rules.allow w none r
    → RankLe r (some k)
allow-RankLe rules w k h none t = tt
allow-RankLe rules w k h (some s) (inl e) = cc
allow-RankLe rules w k h (some s) (inr (p, m, e)) = h p s m (sym_rank e)
  where
    sym_rank : some s ≡ pattern_matches p w → pattern_matches p w ≡ some s
    sym_rank x = cc

-- A capability is denied exactly when a deny pattern matches it and no allow pattern matches it
-- with a higher specificity.
pub resolve_cap-denied_iff :
    (rules : Rules) (w : Text) → (resolve_cap rules w ≡ denied) ↔ DeniedBy rules w
unfolding resolve_cap
resolve_cap-denied_iff rules w = (
  denied-DeniedBy rules w,
  λ d.
      denied-verdict _ _ d.rank
        (rw d.is_match at (best_match-upper rules.deny w none d.pattern_text d.is_listed))
        (allow-RankLe rules w d.rank d.unbeaten _ (best_match-Attained rules.allow w none)),
)
