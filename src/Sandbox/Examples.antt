-- ===== src/Sandbox/Examples.antt =====
-- A small Unix host, configurations to run, and each theorem at a concrete input.
use u_flux.Sandbox.Discovery.{op_cap-baked_globals}
use u_flux.Sandbox.GateLaws.{Resolves, UnderOne, fs_gate_iff}
use u_flux.Sandbox.Gate.{under_root, op_cap}
use u_flux.Sandbox.Caps.{cap_i64}
use u_flux.Prelude.{
  ◌≡◌, ◌⊎◌, refl, ◌↔◌, true, false, ◌&&◌, List, [], ◌∷◌, map, Option, none, some, ok, any, filter,
  take, Text, codes, text_eq, starts_with, strip_suffix, contains,
}
use u_flux.Sandbox.Pattern.{pattern_matches, cap_names}
use u_flux.Sandbox.Rules.{Rules, denied, default_rules, resolve_cap}
use u_flux.Sandbox.Host.{existing_ancestor, path_within}
use u_flux.Sandbox.Caps.{Caps, insert, remove, cap, cap_i64, module_allowed, apply_rules, as_i64}
use u_flux.Sandbox.Effective.{SandboxFile, apply_baked, resolve_root, effective}
use u_flux.Sandbox.Ufs.{parse_ufs}
use u_flux.Sandbox.Specificity.{DeniedBy, resolve_cap-denied_iff}
use u_flux.Sandbox.PatternLaws.{Matches, pattern_matches_iff}
use u_flux.Sandbox.Tightening.{layer_allows, layer_allows_module, all_layers, effective_tightens}
use u_flux.Sandbox.Workspace.{
  survives_later, effective-workspace, fs_gate_open_when_disjoint, fs_gate_open_when_not_baked,
}
use u_flux.Sandbox.Bake.{baked_globals, roots_or_none}
use u_flux.Sandbox.BakeLaws.{baked_globals_lem, first_32}
use u_flux.Sandbox.GateLaws.{Resolves, UnderOne, fs_gate_iff}
use u_flux.Sandbox.Gate.{under_root, fs_gate, resolved}
use u_flux.Sandbox.HostLaws.{Within, absolute, path_within_iff}
use u_flux.Sandbox.SmallHost.{host, parent_of_path}

abbrev config : Text
config =
    codes
      "; defaults\nname data\ndeny  proc ffi.import raw.* host.argv\nallow fs.read fs.write\nworkspace /srv\n\n[policy web]\ndeny proc raw.*\nallow raw.mem\nallow-module m \"curl\"\n"

abbrev data_rules : Rules
data_rules = record {
  allow = codes "fs.read" ∷ codes "fs.write" ∷ [];
  deny = codes "proc" ∷ codes "ffi.import" ∷ codes "raw.*" ∷ codes "host.argv" ∷ [];
  workspace = codes "/srv" ∷ [];
  allow_module = [];
  deny_module = [];
}

abbrev web_rules : Rules
web_rules = record {
  allow = codes "raw.mem" ∷ [];
  deny = codes "proc" ∷ codes "raw.*" ∷ [];
  workspace = [];
  allow_module = codes "m" ∷ codes "curl" ∷ [];
  deny_module = [];
}

abbrev baked_file : SandboxFile
baked_file = record {
  base = data_rules;
  policies = (codes "web", web_rules) ∷ [];
  name = some (codes "data");
}

parse_config : parse_ufs config ≡ ok baked_file
unfolding parse_ufs text_eq
parse_config = refl

-- A run-time file whose workspace is elsewhere, and that denies writing.
abbrev runtime_file : SandboxFile
runtime_file = record {
  base = record default_rules { deny = codes "fs.write" ∷ []; workspace = codes "/home/me" ∷ [] };
  policies = [];
  name = none;
}

abbrev baked : Option (SandboxFile × Text)
baked = some (baked_file, codes "baked")

abbrev files : List SandboxFile
files = runtime_file ∷ []

abbrev start : Caps
start = record {
  caps =
      (codes "proc", denied)
      ∷ (codes "ffi.import", denied)
      ∷ (codes "raw.syscall", denied)
      ∷ (codes "raw.mem", denied)
      ∷ (codes "host.argv", denied)
      ∷ [];
  module_allow = none;
  module_deny = [];
  workspace = some (codes "/srv" ∷ []);
  policy_name = codes "data";
  origin = codes "baked";
  is_sandboxed = true;
}

baked-start : apply_baked host baked none ≡ ok start
unfolding apply_baked apply_rules resolve_cap pattern_matches strip_suffix starts_with text_eq
    insert remove
baked-start = refl

abbrev final : Caps
final = record start {
  caps =
      (codes "proc", denied)
      ∷ (codes "ffi.import", denied)
      ∷ (codes "raw.syscall", denied)
      ∷ (codes "raw.mem", denied)
      ∷ (codes "host.argv", denied)
      ∷ (codes "fs.write", denied)
      ∷ [];
  workspace = some [];
}

effective-final : effective host baked none files [] (codes "/srv") ≡ ok final
unfolding effective apply_rules resolve_cap pattern_matches strip_suffix starts_with text_eq insert
    remove path_within cap
effective-final = refl

effective_tightens_example :
    (s : Caps) × (apply_baked host baked none ≡ ok s)
    × ((w : Text) → cap final w ≡ (cap s w && all_layers (λ r. layer_allows r w) files))
    × ((m : Text)
        → module_allowed final m
          ≡ (module_allowed s m && all_layers (λ r. layer_allows_module r m) files))
effective_tightens_example =
    effective_tightens host baked none files [] (codes "/srv") final effective-final

effective-workspace_example :
    (f : Caps) × (effective host baked none files [] (codes "/srv") ≡ ok f)
    × (f.workspace
        ≡ some (
            map
              (resolve_root host (codes "/srv"))
              (filter (survives_later host files []) (codes "/srv" ∷ []))))
effective-workspace_example =
    effective-workspace host baked none files [] (codes "/srv") start (codes "/srv" ∷ [])
      baked-start refl

abbrev realpath : Text → Option Text
realpath p = some p

none_survives : any (survives_later host files []) (codes "/srv" ∷ []) ≡ false
unfolding path_within starts_with text_eq
none_survives = refl

fs_gate_open_when_disjoint_example :
    (f : Caps) × (effective host baked none files [] (codes "/srv") ≡ ok f)
    × (f.workspace ≡ some [])
    × (fs_gate realpath (baked_globals f (codes "auto")) (codes "/etc/passwd") ≡ true)
fs_gate_open_when_disjoint_example =
    fs_gate_open_when_disjoint host realpath baked none files [] (codes "/srv") start
      (codes "/srv" ∷ []) (codes "auto") (codes "/etc/passwd") baked-start refl none_survives

fs_gate_open_when_not_baked_example :
    (f : Caps) × (effective host none none files [] (codes "/srv") ≡ ok f)
    × (fs_gate realpath (baked_globals f (codes "auto")) (codes "/etc/passwd") ≡ true)
fs_gate_open_when_not_baked_example =
    fs_gate_open_when_not_baked host realpath files [] (codes "/srv") (codes "auto")
      (codes "/etc/passwd")

resolve_cap-denied_iff_example :
    (resolve_cap data_rules (codes "raw.mem") ≡ denied) ↔ DeniedBy data_rules (codes "raw.mem")
resolve_cap-denied_iff_example = resolve_cap-denied_iff data_rules (codes "raw.mem")

pattern_matches_iff_example :
    (pattern_matches (codes "raw.*") (codes "raw.mem") ≡ some 1)
    ↔ Matches (codes "raw.*") (codes "raw.mem") 1
pattern_matches_iff_example = pattern_matches_iff (codes "raw.*") (codes "raw.mem") 1

-- `/srv/new` is missing, and `/srv` above it is there.
path_within_iff_example :
    (path_within host (codes "/srv/new") (codes "/srv") ≡ true)
    ↔ Within host (absolute host (codes "/srv/new")) (codes "/srv")
path_within_iff_example = path_within_iff host (codes "/srv/new") (codes "/srv")

path_within_runs :
    (path_within host (codes "/srv/new") (codes "/srv") ≡ true)
    × (path_within host (codes "/srv2/a") (codes "/srv") ≡ false)
unfolding path_within existing_ancestor parent_of_path starts_with text_eq
path_within_runs = (refl, refl)

baked_globals_lem_example : baked_globals final (codes "auto") ≡ record {
  sb_on = as_i64 true;
  sb_policy = codes "data";
  device = codes "auto";
  sb_caps = map (cap_i64 final) cap_names;
  ws_roots = take 16 [];
  mod_allow = first_32 none;
  mod_deny = take 32 [];
}
baked_globals_lem_example = baked_globals_lem final (codes "auto")

fs_gate_iff_example :
    (fs_gate realpath (baked_globals start (codes "auto")) (codes "/srv/a") ≡ true) ↔ (
      (start.is_sandboxed ≡ false)
      ⊎ (roots_or_none start.workspace ≡ [])
      ⊎ ((r : Text) × Resolves realpath (codes "/srv/a") r
          × UnderOne realpath r (take 16 (roots_or_none start.workspace))))
fs_gate_iff_example = fs_gate_iff realpath start (codes "auto") (codes "/srv/a")

-- The gate holds nothing but the root itself to lie under `/`.
gate_at_top : any (λ root. under_root (codes "/etc") root) (codes "/" ∷ []) ≡ false
unfolding starts_with
gate_at_top = refl

-- Inside the root, outside it, and in a folder whose name only begins like it.
gate_runs :
    (fs_gate realpath (baked_globals start (codes "auto")) (codes "/srv/a") ≡ true)
    × (fs_gate realpath (baked_globals start (codes "auto")) (codes "/etc/passwd") ≡ false)
    × (fs_gate realpath (baked_globals start (codes "auto")) (codes "/srv2/a") ≡ false)
unfolding fs_gate resolved baked_globals starts_with
gate_runs = (refl, refl, refl)

op_cap-baked_globals_example :
    op_cap (baked_globals start (codes "auto")) (codes "proc") ≡ some (cap_i64 start (codes "proc"))
unfolding contains
op_cap-baked_globals_example = op_cap-baked_globals start (codes "auto") (codes "proc") refl
