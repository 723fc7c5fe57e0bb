-- ===== src/Sandbox/Layers.antt =====
-- What one layer of rules does to each part of the capability set, as an equation.
use u_flux.Prelude.{
  ◌≡◌, refl, inl, inr, Bool, true, false, not, ◌&&◌, ◌||◌, List, [], ◌∷◌, ◌++◌, Option, none, some,
  arith, if◌then◌else◌, Bool-cases, Bool-ext, filter, Text, text_eq, text_eq_iff, contains,
  contains-cons, contains-nil, contains-append, contains-filter, filter-contains,
}
use u_flux.Sandbox.Pattern.{cap_names}
use u_flux.Sandbox.Rules.{Tri, allowed, denied, Rules, resolve_cap}
use u_flux.Sandbox.Host.{Host}
use u_flux.Sandbox.Caps.{
  CapMap, lookup, insert, remove, Caps, is_allowed, plain_cap, listed, apply_cap, apply_caps,
  apply_allow_module, apply_deny_module, apply_rules,
}

lookup-insert :
    (m : CapMap) (k j : Text) (v : Tri)
    → lookup (insert m k v) j ≡ (if text_eq k j then some v else lookup m j)
unfolding lookup insert
lookup-insert [] k j v = refl
lookup-insert ((i, w) ∷ m) k j v =
    ground (arith, text_eq_iff k j, text_eq_iff i k, text_eq_iff i j, lookup-insert m k j v)

lookup-remove :
    (m : CapMap) (k j : Text) → lookup (remove m k) j ≡ (if text_eq k j then none else lookup m j)
unfolding lookup remove
lookup-remove [] k j = ground arith
lookup-remove ((i, w) ∷ m) k j =
    ground (arith, text_eq_iff k j, text_eq_iff i k, text_eq_iff i j, lookup-remove m k j)

abbrev pub allows : Tri → Bool
allows allowed = true
allows denied = false

-- The verdict of a layer, and with `tighten_only` the earlier state as well.
abbrev pub after_layer : Rules → Bool → Text → Bool → Bool
after_layer rules tighten_only w before =
    allows (resolve_cap rules w) && (not tighten_only || before)

apply_cap_lem :
    (rules : Rules) (t : Bool) (m : CapMap) (k w : Text)
    → is_allowed (lookup (apply_cap rules t m k) w) ≡ (
        if text_eq k w
        then after_layer rules t w (is_allowed (lookup m w))
        else is_allowed (lookup m w))
unfolding apply_cap
apply_cap_lem rules t m k w = by_verdict (resolve_cap rules k) refl
  where
    by_verdict :
        (v : Tri)
        → resolve_cap rules k ≡ v
        → is_allowed (lookup (apply_cap rules t m k) w) ≡ (
            if text_eq k w
            then after_layer rules t w (is_allowed (lookup m w))
            else is_allowed (lookup m w))
    by_verdict denied e = ground (arith, text_eq_iff k w, lookup-insert m k w denied)
    by_verdict allowed e = ground (arith, text_eq_iff k w, lookup-remove m k w)

pub apply_caps_lem :
    (rules : Rules) (t : Bool) (cs : List Text) (m : CapMap) (w : Text)
    → is_allowed (lookup (apply_caps rules t cs m) w) ≡ (
        if contains cs w
        then after_layer rules t w (is_allowed (lookup m w))
        else is_allowed (lookup m w))
unfolding apply_caps
apply_caps_lem rules t [] m w = ground (arith, contains-nil w)
apply_caps_lem rules t (c ∷ cs) m w = ground (
  arith,
  contains-cons c cs w,
  apply_cap_lem rules t m c w,
  apply_caps_lem rules t cs (apply_cap rules t m c) w,
)

-- A layer leaves a capability allowed exactly when its own rules allow it and, for a layer that
-- may only tighten, it was allowed before.
pub apply_rules-plain_cap :
    (h : Host) (c : Caps) (rules : Rules) (tighten_only : Bool) (w : Text)
    → contains cap_names w ≡ true
    → plain_cap (apply_rules h c rules tighten_only) w
      ≡ (allows (resolve_cap rules w) && (not tighten_only || plain_cap c w))
unfolding apply_rules
apply_rules-plain_cap h c rules t w known =
    ground (arith, apply_caps_lem rules t cap_names c.caps w)

-- An empty list of names is no restriction.
abbrev pub names_allow : List Text → Text → Bool
names_allow [] m = true
names_allow (n ∷ ns) m = contains (n ∷ ns) m

contains-filter_eq :
    (p : Text → Bool) (xs : List Text) (t : Text)
    → contains (filter p xs) t ≡ (contains xs t && p t)
contains-filter_eq p xs t =
    Bool-ext (λ h. let r = contains-filter p xs t h in ground arith)
      (λ h. filter-contains p xs t (ground arith) (ground arith))

pub listed-apply_allow_module :
    (names : List Text) (prev : Option (List Text)) (m : Text)
    → listed (apply_allow_module names prev) m ≡ (listed prev m && names_allow names m)
listed-apply_allow_module [] prev m = ground arith
listed-apply_allow_module (n ∷ ns) none m = refl
listed-apply_allow_module (n ∷ ns) (some prev) m = contains-filter_eq (contains (n ∷ ns)) prev m

contains-push :
    (deny : List Text) (d m : Text)
    → contains (if not (contains deny d) then deny ++ d ∷ [] else deny) m
      ≡ (contains deny m || text_eq d m)
contains-push deny d m = elim (Bool-cases (contains deny d)) [
  | inl old ↦ rw old (ground (arith, text_eq_iff d m))
  | inr new ↦
      rw new (ground (arith, contains-append deny (d ∷ []) m, contains-cons d [] m, contains-nil m))
]

pub contains-apply_deny_module :
    (names deny : List Text) (m : Text)
    → contains (apply_deny_module names deny) m ≡ (contains deny m || contains names m)
unfolding apply_deny_module
contains-apply_deny_module [] deny m = ground (arith, contains-nil m)
contains-apply_deny_module (d ∷ ds) deny m = ground (
  arith,
  contains-cons d ds m,
  contains-push deny d m,
  contains-apply_deny_module ds (if not (contains deny d) then deny ++ d ∷ [] else deny) m,
)
