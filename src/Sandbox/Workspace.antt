-- ===== src/Sandbox/Workspace.antt =====
-- The workspace roots that `effective` leaves, and what the run-time gate makes of them.
use u_flux.Prelude.{
  ◌≡◌, refl, ◌∙◌, none, Bool, true, false, ◌&&◌, List, [], ◌∷◌, map, Option, some, ok, arith,
  Bool-cases, inl, inr, any, filter, Text,
}
use u_flux.Sandbox.Rules.{Rules}
use u_flux.Sandbox.Host.{Host, path_within}
use u_flux.Sandbox.Caps.{Caps, unrestricted, apply_rules, apply_workspace}
use u_flux.Sandbox.Effective.{
  SandboxFile, apply_baked, apply_runtime, resolve_root, finish, effective,
}
use u_flux.Sandbox.Bake.{baked_globals}
use u_flux.Sandbox.Gate.{fs_gate}
use u_flux.Sandbox.BakeLaws.{fs_gate-baked_globals}

filter-true {ℓ} : {A : Type ℓ} (xs : List A) → filter (λ x. true) xs ≡ xs
filter-true [] = refl
filter-true (x ∷ xs) = rw (filter-true xs)

filter-filter {ℓ} :
    {A : Type ℓ} (p q : A → Bool) (xs : List A)
    → filter q (filter p xs) ≡ filter (λ x. p x && q x) xs
filter-filter p q [] = refl
filter-filter p q (x ∷ xs) = elim (Bool-cases (p x)) [
  | inr e ↦ rw e (filter-filter p q xs)
  | inl e ↦ elim (Bool-cases (q x)) [
    | inl f ↦ rw (e, f, filter-filter p q xs)
    | inr f ↦ rw (e, f) (filter-filter p q xs)
  ]
]

module _ (h : Host) where
  -- A root survives a list of new roots that is empty, or that has a root around it.
  abbrev pub survives : List Text → Text → Bool
  survives [] p = true
  survives (r ∷ rs) p = any (path_within h p) (r ∷ rs)

  abbrev pub survives_all : List SandboxFile → Text → Bool
  survives_all [] p = true
  survives_all (f ∷ fs) p = survives f.base.workspace p && survives_all fs p

  apply_workspace-some :
      (new roots : List Text)
      → apply_workspace h new (some roots) ≡ some (filter (survives new) roots)
  apply_workspace-some [] roots = rw filter-true
  apply_workspace-some (r ∷ rs) roots = refl

  apply_rules-workspace :
      (c : Caps) (rules : Rules) (t : Bool)
      → (apply_rules h c rules t).workspace ≡ apply_workspace h rules.workspace c.workspace
  unfolding apply_rules
  apply_rules-workspace c rules t = refl

  runtime-workspace :
      (files : List SandboxFile) (c : Caps) (roots : List Text)
      → c.workspace ≡ some roots
      → (apply_runtime h c files).workspace ≡ some (filter (survives_all files) roots)
  unfolding apply_runtime
  runtime-workspace [] c roots e = rw filter-true e
  runtime-workspace (f ∷ fs) c roots e =
      runtime-workspace fs (apply_rules h c f.base true) (filter (survives f.base.workspace) roots)
        (apply_rules-workspace c f.base true ∙ rw e (apply_workspace-some f.base.workspace roots))
      ∙ rw filter-filter

  -- A root survives every later layer of `effective`.
  abbrev pub survives_later : List SandboxFile → List Text → Text → Bool
  survives_later files extra p = survives_all files p && survives extra p

  finish-workspace :
      (c : Caps) (files : List SandboxFile) (extra : List Text) (base : Text) (roots : List Text)
      → c.workspace ≡ some roots
      → (finish h c files extra base).workspace
        ≡ some (map (resolve_root h base) (filter (survives_later files extra) roots))
  unfolding finish
  finish-workspace c files extra base roots e = rw (
    runtime-workspace files c roots e,
    apply_workspace-some,
    filter-filter (survives_all files) (survives extra),
  )

  -- When the baked layer has workspace roots, the final ones are those of them that lie within some
  -- root of each later layer with roots, run-time file or command line, each made absolute and
  -- canonical; no layer adds a root.
  pub effective-workspace :
      (baked : Option (SandboxFile × Text)) (selected : Option Text) (files : List SandboxFile)
      (extra : List Text) (base : Text) (start : Caps) (roots : List Text)
      → apply_baked h baked selected ≡ ok start
      → start.workspace ≡ some roots
      → (final : Caps) × (effective h baked selected files extra base ≡ ok final)
        × (final.workspace
            ≡ some (map (resolve_root h base) (filter (survives_later files extra) roots)))
  unfolding effective
  effective-workspace baked selected files extra base start roots s e =
      (finish h start files extra base, rw s, finish-workspace start files extra base roots e)

  filter_none {ℓ} : {A : Type ℓ} (p : A → Bool) (xs : List A) → any p xs ≡ false → filter p xs ≡ []
  filter_none p [] e = refl
  filter_none p (x ∷ xs) e = elim (Bool-cases (p x)) [
    | inl t ↦ cc (rw t at e)
    | inr t ↦ rw t (filter_none p xs (rw t at e))
  ]

  -- When the baked layer has workspace roots and no root of it survives the later layers, the
  -- compiled program's gate lets every path through.
  pub fs_gate_open_when_disjoint :
      (realpath : Text → Option Text) (baked : Option (SandboxFile × Text)) (selected : Option Text)
      (files : List SandboxFile) (extra : List Text) (base : Text) (start : Caps)
      (roots : List Text) (device path : Text)
      → apply_baked h baked selected ≡ ok start
      → start.workspace ≡ some roots
      → any (survives_later files extra) roots ≡ false
      → (final : Caps) × (effective h baked selected files extra base ≡ ok final)
        × (final.workspace ≡ some [])
        × (fs_gate realpath (baked_globals final device) path ≡ true)
  fs_gate_open_when_disjoint realpath baked selected files extra base start roots device path s e
        d =
      let (final, f, w) = effective-workspace baked selected files extra base start roots s e in
      let w' : final.workspace ≡ some [] =
        w ∙ rw (filter_none (survives_later files extra) roots d) in
      (final, f, w', fs_gate-baked_globals realpath final device path ∙ rw w' (ground arith))

  fold_sandboxed :
      (files : List SandboxFile) (c : Caps)
      → (apply_runtime h c files).is_sandboxed ≡ c.is_sandboxed
  unfolding apply_runtime apply_rules
  fold_sandboxed [] c = refl
  fold_sandboxed (f ∷ fs) c = fold_sandboxed fs (apply_rules h c f.base true)

  finish-is_sandboxed :
      (c : Caps) (files : List SandboxFile) (extra : List Text) (base : Text)
      → (finish h c files extra base).is_sandboxed ≡ c.is_sandboxed
  unfolding finish
  finish-is_sandboxed c files extra base = fold_sandboxed files c

  -- In a build without a baked configuration the compiled program's gate lets every path through,
  -- whatever workspace roots the run-time files and the command line give.
  pub fs_gate_open_when_not_baked :
      (realpath : Text → Option Text) (files : List SandboxFile) (extra : List Text)
      (base device path : Text)
      → (final : Caps) × (effective h none none files extra base ≡ ok final)
        × (fs_gate realpath (baked_globals final device) path ≡ true)
  unfolding effective apply_baked
  fs_gate_open_when_not_baked realpath files extra base device path = (
    finish h unrestricted files extra base,
    refl,
    fs_gate-baked_globals realpath _ device path
        ∙ rw (finish-is_sandboxed unrestricted files extra base) refl,
  )
