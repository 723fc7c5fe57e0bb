-- ===== src/Sandbox/Tightening.antt =====
-- The run-time layers of `effective` only take away.
use u_flux.Prelude.{
  ◌≡◌, refl, ◌∙◌, Bool, true, not, ◌&&◌, ◌||◌, List, [], ◌∷◌, Option, Outcome, ok, err, arith,
  if◌then◌else◌, Text, codes, text_eq, contains,
}
use u_flux.Sandbox.Pattern.{cap_names}
use u_flux.Sandbox.Rules.{Rules, resolve_cap}
use u_flux.Sandbox.Host.{Host}
use u_flux.Sandbox.Caps.{Caps, plain_cap, cap, listed, module_allowed, apply_rules}
use u_flux.Sandbox.Effective.{Panic, SandboxFile, apply_baked, apply_runtime, finish, effective}
use u_flux.Sandbox.Layers.{
  allows, names_allow, apply_caps_lem, listed-apply_allow_module, contains-apply_deny_module,
}

-- What the rules of one layer say of a capability, the derived `fs.mmap` included. They say
-- nothing of a name that is no capability.
abbrev plain_verdict : Rules → Text → Bool
plain_verdict rules w = if contains cap_names w then allows (resolve_cap rules w) else true

abbrev pub layer_allows : Rules → Text → Bool
layer_allows rules w =
    if text_eq w (codes "fs.mmap")
    then plain_verdict rules (codes "fs.read") && plain_verdict rules (codes "fs.write")
    else plain_verdict rules w

abbrev pub layer_allows_module : Rules → Text → Bool
layer_allows_module rules m =
    plain_verdict rules (codes "ffi.use")
    && not (contains rules.deny_module m)
    && names_allow rules.allow_module m

abbrev pub all_layers : (Rules → Bool) → List SandboxFile → Bool
all_layers p [] = true
all_layers p (f ∷ fs) = p f.base && all_layers p fs

module _ (h : Host) where
  tighten-plain_cap :
      (c : Caps) (rules : Rules) (w : Text)
      → plain_cap (apply_rules h c rules true) w ≡ (plain_cap c w && plain_verdict rules w)
  unfolding apply_rules
  tighten-plain_cap c rules w = ground (arith, apply_caps_lem rules true cap_names c.caps w)

  tighten-cap :
      (c : Caps) (rules : Rules) (w : Text)
      → cap (apply_rules h c rules true) w ≡ (cap c w && layer_allows rules w)
  unfolding cap
  tighten-cap c rules w = ground (
    arith,
    tighten-plain_cap c rules w,
    tighten-plain_cap c rules (codes "fs.read"),
    tighten-plain_cap c rules (codes "fs.write"),
  )

  tighten-listed :
      (c : Caps) (rules : Rules) (m : Text)
      → listed (apply_rules h c rules true).module_allow m
        ≡ (listed c.module_allow m && names_allow rules.allow_module m)
  unfolding apply_rules
  tighten-listed c rules m = listed-apply_allow_module rules.allow_module c.module_allow m

  tighten-module_deny :
      (c : Caps) (rules : Rules) (m : Text)
      → contains (apply_rules h c rules true).module_deny m
        ≡ (contains c.module_deny m || contains rules.deny_module m)
  unfolding apply_rules
  tighten-module_deny c rules m = contains-apply_deny_module rules.deny_module c.module_deny m

  cap-ffi_use : (c : Caps) → cap c (codes "ffi.use") ≡ plain_cap c (codes "ffi.use")
  unfolding cap text_eq
  cap-ffi_use c = refl

  tighten-module_allowed :
      (c : Caps) (rules : Rules) (m : Text)
      → module_allowed (apply_rules h c rules true) m
        ≡ (module_allowed c m && layer_allows_module rules m)
  unfolding module_allowed
  tighten-module_allowed c rules m = ground (
    arith,
    cap-ffi_use c,
    cap-ffi_use (apply_rules h c rules true),
    tighten-plain_cap c rules (codes "ffi.use"),
    tighten-listed c rules m,
    tighten-module_deny c rules m,
  )

  runtime-cap :
      (files : List SandboxFile) (c : Caps) (w : Text)
      → cap (apply_runtime h c files) w ≡ (cap c w && all_layers (λ r. layer_allows r w) files)
  unfolding apply_runtime
  runtime-cap [] c w = ground arith
  runtime-cap (f ∷ fs) c w =
      ground (arith, tighten-cap c f.base w, runtime-cap fs (apply_rules h c f.base true) w)

  runtime-module_allowed :
      (files : List SandboxFile) (c : Caps) (m : Text)
      → module_allowed (apply_runtime h c files) m
        ≡ (module_allowed c m && all_layers (λ r. layer_allows_module r m) files)
  unfolding apply_runtime
  runtime-module_allowed [] c m = ground arith
  runtime-module_allowed (f ∷ fs) c m = ground (
    arith,
    tighten-module_allowed c f.base m,
    runtime-module_allowed fs (apply_rules h c f.base true) m,
  )

  finish-cap :
      (c : Caps) (files : List SandboxFile) (extra : List Text) (base w : Text)
      → cap (finish h c files extra base) w ≡ cap (apply_runtime h c files) w
  unfolding finish cap
  finish-cap c files extra base w = refl

  finish-module_allowed :
      (c : Caps) (files : List SandboxFile) (extra : List Text) (base m : Text)
      → module_allowed (finish h c files extra base) m ≡ module_allowed (apply_runtime h c files) m
  unfolding finish module_allowed cap
  finish-module_allowed c files extra base m = refl

  -- When `effective` returns, a capability is allowed exactly when the baked layer allows it and
  -- so does every run-time file; and so for each module.
  pub effective_tightens :
      (baked : Option (SandboxFile × Text)) (selected : Option Text) (files : List SandboxFile)
      (extra : List Text) (base : Text) (final : Caps)
      → effective h baked selected files extra base ≡ ok final
      → (start : Caps) × (apply_baked h baked selected ≡ ok start)
        × ((w : Text) → cap final w ≡ (cap start w && all_layers (λ r. layer_allows r w) files))
        × ((m : Text)
            → module_allowed final m
              ≡ (module_allowed start m && all_layers (λ r. layer_allows_module r m) files))
  unfolding effective
  effective_tightens baked selected files extra base final e =
      from_start (apply_baked h baked selected) refl
    where
      from_start :
          (o : Outcome Panic Caps)
          → apply_baked h baked selected ≡ o
          → (start : Caps) × (apply_baked h baked selected ≡ ok start)
            × ((w : Text) → cap final w ≡ (cap start w && all_layers (λ r. layer_allows r w) files))
            × ((m : Text)
                → module_allowed final m
                  ≡ (module_allowed start m && all_layers (λ r. layer_allows_module r m) files))
      from_start (err x) s = cc (rw s at e)
      from_start (ok start) s =
          let is_final : finish h start files extra base ≡ final = cc (rw s at e) in
          (
            start,
            s,
            λ w. rw (← is_final) (finish-cap start files extra base w ∙ runtime-cap files start w),
            λ m. rw (← is_final) (
                finish-module_allowed start files extra base m
                ∙ runtime-module_allowed files start m),
          )
