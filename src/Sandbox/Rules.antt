-- ===== src/Sandbox/Rules.antt =====
-- The rules of one layer, and how they decide a capability (comp/src/sandbox.rs).
use u_flux.Prelude.{ℕ, Bool, true, List, [], ◌∷◌, Option, none, some, ltb, if◌then◌else◌, Text}
use u_flux.Sandbox.Pattern.{pattern_matches}

pub data Tri : Type 0 where
  allowed denied : Tri

pub record Rules : Type 0 where
  pub allow : List Text
  pub deny : List Text
  pub workspace : List Text
  pub allow_module : List Text
  pub deny_module : List Text

abbrev pub default_rules : Rules
default_rules = record {
  allow = [];
  deny = [];
  workspace = [];
  allow_module = [];
  deny_module = [];
}

-- `best.map_or(true, |b| s > b)`
abbrev pub is_better : Option ℕ → ℕ → Bool
is_better none s = true
is_better (some b) s = ltb b s

abbrev pub improve : Option ℕ → Option ℕ → Option ℕ
improve best none = best
improve best (some s) = if is_better best s then some s else best

-- The loop over one list of patterns.
unfoldable pub best_match : List Text → Text → Option ℕ → Option ℕ
best_match [] want best = best
best_match (p ∷ ps) want best = best_match ps want (improve best (pattern_matches p want))

-- `match (best_deny, best_allow)`
abbrev pub verdict : Option ℕ → Option ℕ → Tri
verdict (some d) (some a) = if ltb d a then allowed else denied
verdict (some d) none = denied
verdict none best_allow = allowed

unfoldable pub resolve_cap : Rules → Text → Tri
unfolding best_match
resolve_cap rules want =
    let best_allow = best_match rules.allow want none in
    let best_deny = best_match rules.deny want none in verdict best_deny best_allow
