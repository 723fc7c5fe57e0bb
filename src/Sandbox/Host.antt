-- ===== src/Sandbox/Host.antt =====
-- What the compiler asks of the operating system and of the standard library's paths, and
-- `path_within` of comp/src/sandbox.rs over it.
use u_flux.Prelude.{
  ℕ, zero, suc, ◌<◌, ◌≡◌, Bool, true, false, Option, none, some, if◌then◌else◌, Text, length,
}

-- Paths are texts. `parent` gives a shorter path, as `Path::parent` does.
pub record Host : Type 0 where
  pub is_absolute : Text → Bool
  pub join_path : Text → Text → Text
  pub path_starts_with : Text → Text → Bool
  pub parent : Text → Option Text
  pub canonicalize : Text → Option Text
  pub exists : Text → Bool
  pub current_dir : Text
  pub temp_dir : Text
  pub parent_shorter : (p q : Text) → parent p ≡ some q → length q < length p

module _ (h : Host) where
  -- `while !abs.exists() { abs = abs.parent() or return false }`; no answer when the fuel ends.
  unfoldable pub existing_ancestor : ℕ → Text → Option (Option Text)
  existing_ancestor zero abs = none
  existing_ancestor (suc fuel) abs = elim (h.exists abs) [
    | true ↦ some (some abs)
    | false ↦ elim (h.parent abs) [ none ↦ some none | some par ↦ existing_ancestor fuel par ]
  ]

  abbrev pub resolves_under : Option (Option Text) → Text → Bool
  resolves_under none cr = false
  resolves_under (some none) cr = false
  resolves_under (some (some abs)) cr = elim (h.canonicalize abs) [
    | none ↦ false
    | some cp ↦ h.path_starts_with cp cr
  ]

  abbrev pub within_resolved : Text → Option Text → Option Text → Bool
  within_resolved p (some cp) (some cr) = h.path_starts_with cp cr
  within_resolved p none (some cr) = resolves_under (existing_ancestor (suc (length p)) p) cr
  within_resolved p _ none = false

  unfoldable pub path_within : Text → Text → Bool
  unfolding existing_ancestor
  path_within path root =
      let p = if h.is_absolute path then path else h.join_path h.current_dir path in
      within_resolved p (h.canonicalize p) (h.canonicalize root)
