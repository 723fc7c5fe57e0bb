-- ===== src/Sandbox/Effective.antt =====
-- `SandboxFile`, `policy_list` and `effective` of comp/src/sandbox.rs: the layers in their order,
-- the default workspace, and the resolution of the roots.
use u_flux.Prelude.{
  Bool, true, false, ◌&&◌, ◌||◌, List, [], ◌∷◌, map, Option, none, some, Outcome, ok, err, ltb,
  ◌==◌, if◌then◌else◌, Text, codes, text_eq, join,
}
use u_flux.Sandbox.Rules.{Rules}
use u_flux.Sandbox.Host.{Host}
use u_flux.Sandbox.Caps.{Caps, unrestricted, cap, apply_rules, apply_workspace}

pub record SandboxFile : Type 0 where
  pub base : Rules
  pub policies : List (Text × Rules)
  pub name : Option Text

pub data Panic : Type 0 where
  no_baked_policy : Text → Text → Panic
  policy_without_baked : Text → Panic

unfoldable pub lookup_policy : List (Text × Rules) → Text → Option Rules
lookup_policy [] p = none
lookup_policy ((j, r) ∷ ps) p = if text_eq j p then some r else lookup_policy ps p

-- The order of `String`, which is that of the code points.
text_leb : Text → Text → Bool
text_leb [] t = true
text_leb (c ∷ s) [] = false
text_leb (c ∷ s) (d ∷ t) = ltb c d || (c == d && text_leb s t)

insert_sorted : Text → List Text → List Text
insert_sorted t [] = t ∷ []
insert_sorted t (u ∷ us) = if text_leb t u then t ∷ u ∷ us else u ∷ insert_sorted t us

sort : List Text → List Text
sort [] = []
sort (t ∷ ts) = insert_sorted t (sort ts)

abbrev join_or_none : List Text → Text
join_or_none [] = codes "(none)"
join_or_none (n ∷ ns) = join (codes ", ") (n ∷ ns)

unfoldable pub policy_list : SandboxFile → Text
unfolding sort insert_sorted text_leb join
policy_list sf = join_or_none (sort (map (λ p. p.0) sf.policies))

abbrev name_or_default : Option Text → Text
name_or_default none = codes "default"
name_or_default (some n) = n

module _ (h : Host) where
  -- The first part of `effective`: the layer that the build has baked in.
  unfoldable pub apply_baked : Option (SandboxFile × Text) → Option Text → Outcome Panic Caps
  apply_baked none none = ok unrestricted
  apply_baked none (some p) = err (policy_without_baked p)
  apply_baked (some (sf, label)) none = ok (record (apply_rules h unrestricted sf.base false) {
    policy_name = name_or_default sf.name;
    origin = label;
    is_sandboxed = true;
  })
  apply_baked (some (sf, label)) (some p) = elim (lookup_policy sf.policies p) [
    | none ↦ err (no_baked_policy p (policy_list sf))
    | some r ↦ ok (record (apply_rules h unrestricted r false) {
      policy_name = p;
      origin = label;
      is_sandboxed = true;
    })
  ]

  unfoldable pub apply_runtime : Caps → List SandboxFile → Caps
  apply_runtime c [] = c
  apply_runtime c (rf ∷ rfs) = apply_runtime (apply_rules h c rf.base true) rfs

  abbrev pub apply_extra_roots : Caps → List Text → Caps
  apply_extra_roots c extra_roots = record c {
    workspace = apply_workspace h extra_roots c.workspace;
  }

  abbrev or_default_roots : Text → Bool → Option (List Text) → Option (List Text)
  or_default_roots base_dir needed (some roots) = some roots
  or_default_roots base_dir needed none =
      if needed then some (base_dir ∷ h.join_path h.temp_dir (codes "nk") ∷ []) else none

  abbrev pub default_workspace : Caps → Text → Caps
  default_workspace c base_dir = record c {
    workspace =
        or_default_roots base_dir
          ((cap c (codes "fs.read") || cap c (codes "fs.write")) && c.is_sandboxed) c.workspace;
  }

  abbrev canonical_or_same : Text → Option Text → Text
  canonical_or_same r none = r
  canonical_or_same r (some c) = c

  unfoldable pub resolve_root : Text → Text → Text
  resolve_root base_dir r =
      let abs = if h.is_absolute r then r else h.join_path base_dir r in
      canonical_or_same abs (h.canonicalize abs)

  abbrev map_roots : Text → Option (List Text) → Option (List Text)
  map_roots base_dir none = none
  map_roots base_dir (some roots) = some (map (resolve_root base_dir) roots)

  abbrev pub resolve_roots : Caps → Text → Caps
  resolve_roots c base_dir = record c { workspace = map_roots base_dir c.workspace }

  -- All that follows the baked layer.
  unfoldable pub finish : Caps → List SandboxFile → List Text → Text → Caps
  unfolding apply_runtime
  finish c runtime_files extra_roots base_dir =
      let tightened = apply_extra_roots (apply_runtime c runtime_files) extra_roots in
      resolve_roots (default_workspace tightened base_dir) base_dir

  abbrev finish_result :
      Outcome Panic Caps → List SandboxFile → List Text → Text → Outcome Panic Caps
  finish_result (err e) runtime_files extra_roots base_dir = err e
  finish_result (ok c) runtime_files extra_roots base_dir =
      ok (finish c runtime_files extra_roots base_dir)

  unfoldable pub effective :
      Option (SandboxFile × Text)
      → Option Text
      → List SandboxFile
      → List Text
      → Text
      → Outcome Panic Caps
  unfolding apply_baked finish
  effective baked selected_policy runtime_files extra_roots base_dir =
      finish_result (apply_baked baked selected_policy) runtime_files extra_roots base_dir
