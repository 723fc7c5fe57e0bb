-- ===== src/Sandbox/Caps.antt =====
-- The effective capability set and the rules of one layer applied to it (`Caps` of
-- comp/src/sandbox.rs). The hash map of verdicts is an association list.
use u_flux.Prelude.{
  ℕ, Bool, true, false, not, ◌&&◌, List, [], ◌∷◌, ◌++◌, Option, none, some, if◌then◌else◌, Text,
  codes, text_eq, contains, any, filter,
}
use u_flux.Sandbox.Pattern.{cap_names}
use u_flux.Sandbox.Rules.{Tri, allowed, denied, Rules, resolve_cap}
use u_flux.Sandbox.Host.{Host, path_within}

abbrev pub CapMap : Type 0
CapMap = List (Text × Tri)

unfoldable pub lookup : CapMap → Text → Option Tri
lookup [] k = none
lookup ((j, v) ∷ m) k = if text_eq j k then some v else lookup m k

unfoldable pub insert : CapMap → Text → Tri → CapMap
insert [] k v = (k, v) ∷ []
insert ((j, w) ∷ m) k v = if text_eq j k then (k, v) ∷ m else (j, w) ∷ insert m k v

unfoldable pub remove : CapMap → Text → CapMap
remove [] k = []
remove ((j, w) ∷ m) k = if text_eq j k then remove m k else (j, w) ∷ remove m k

pub record Caps : Type 0 where
  pub caps : CapMap
  pub module_allow : Option (List Text)
  pub module_deny : List Text
  pub workspace : Option (List Text)
  pub policy_name : Text
  pub origin : Text
  pub is_sandboxed : Bool

abbrev pub unrestricted : Caps
unrestricted = record {
  caps = [];
  module_allow = none;
  module_deny = [];
  workspace = none;
  policy_name = codes "none";
  origin = codes "unrestricted build";
  is_sandboxed = false;
}

abbrev pub is_allowed : Option Tri → Bool
is_allowed none = true
is_allowed (some allowed) = true
is_allowed (some denied) = false

-- `self.caps.get(cap)` is absent or allowed.
abbrev pub plain_cap : Caps → Text → Bool
plain_cap c name = is_allowed (lookup c.caps name)

-- `cap`. The calls for the two halves of `fs.mmap` are on other names, so they are `plain_cap`.
unfoldable pub cap : Caps → Text → Bool
cap c name =
    if text_eq name (codes "fs.mmap")
    then plain_cap c (codes "fs.read") && plain_cap c (codes "fs.write")
    else plain_cap c name

abbrev pub is_some {ℓ} : {A : Type ℓ} → Option A → Bool
is_some none = false
is_some (some a) = true

abbrev pub as_i64 : Bool → ℕ
as_i64 true = 1
as_i64 false = 0

unfoldable pub cap_i64 : Caps → Text → ℕ
unfolding cap
cap_i64 c name =
    if text_eq name (codes "fs.workspace")
    then as_i64 (is_some c.workspace)
    else if text_eq name (codes "compute")
    then 1
    else as_i64 (cap c name)

abbrev pub listed : Option (List Text) → Text → Bool
listed none name = true
listed (some list) name = contains list name

unfoldable pub module_allowed : Caps → Text → Bool
module_allowed c name =
    cap c (codes "ffi.use") && not (contains c.module_deny name) && listed c.module_allow name

-- One round of the loop over the capability names.
unfoldable pub apply_cap : Rules → Bool → CapMap → Text → CapMap
apply_cap rules tighten_only m c = elim (resolve_cap rules c) [
  | denied ↦ insert m c denied
  | allowed ↦ if not tighten_only then remove m c else m
]

unfoldable pub apply_caps : Rules → Bool → List Text → CapMap → CapMap
unfolding apply_cap
apply_caps rules tighten_only [] m = m
apply_caps rules tighten_only (c ∷ cs) m =
    apply_caps rules tighten_only cs (apply_cap rules tighten_only m c)

abbrev restrict_modules : List Text → Option (List Text) → List Text
restrict_modules names none = names
restrict_modules names (some prev) = filter (contains names) prev

abbrev pub apply_allow_module : List Text → Option (List Text) → Option (List Text)
apply_allow_module [] prev = prev
apply_allow_module (n ∷ ns) prev = some (restrict_modules (n ∷ ns) prev)

unfoldable pub apply_deny_module : List Text → List Text → List Text
apply_deny_module [] deny = deny
apply_deny_module (m ∷ ms) deny =
    apply_deny_module ms (if not (contains deny m) then deny ++ m ∷ [] else deny)

module _ (h : Host) where
  abbrev restrict_roots : List Text → Option (List Text) → List Text
  restrict_roots new_roots none = new_roots
  restrict_roots new_roots (some prev) = filter (λ p. any (path_within h p) new_roots) prev

  -- The intersection of the workspace roots; a layer without roots changes nothing.
  abbrev pub apply_workspace : List Text → Option (List Text) → Option (List Text)
  apply_workspace [] prev = prev
  apply_workspace (r ∷ rs) prev = some (restrict_roots (r ∷ rs) prev)

  unfoldable pub apply_rules : Caps → Rules → Bool → Caps
  unfolding apply_caps apply_deny_module
  apply_rules c rules tighten_only = record c {
    caps = apply_caps rules tighten_only cap_names c.caps;
    module_allow = apply_allow_module rules.allow_module c.module_allow;
    module_deny = apply_deny_module rules.deny_module c.module_deny;
    workspace = apply_workspace rules.workspace c.workspace;
  }
