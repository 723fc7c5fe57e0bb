-- ===== src/Sandbox/Descriptions.antt =====
-- Descriptions and reports of small configurations, and the theorem about them at one pair.
use u_flux.Prelude.{◌≡◌, refl, [], ◌∷◌, codes, text_eq}
use u_flux.Sandbox.Rules.{denied}
use u_flux.Sandbox.Caps.{CapMap, Caps, unrestricted, cap, lookup}
use u_flux.Sandbox.Bake.{c_bake, concat_text}
use u_flux.Sandbox.Describe.{describe, report, join_names}
use u_flux.Sandbox.TaggedLines.{IsLine}
use u_flux.Sandbox.DescribeLaws.{HasLines, describe-c_bake}

abbrev with_caps : CapMap → Caps
with_caps m = record unrestricted { caps = m }

-- One set of denials, in two orders.
abbrev first_order : Caps
first_order = with_caps ((codes "proc", denied) ∷ (codes "fs.read", denied) ∷ [])

abbrev second_order : Caps
second_order = with_caps ((codes "fs.read", denied) ∷ (codes "proc", denied) ∷ [])

with_caps-HasLines : (m : CapMap) → HasLines (with_caps m)
unfolding IsLine
with_caps-HasLines m = record {
  of_policy = refl;
  of_origin = refl;
  of_roots = tt;
  of_allowed = (refl, tt);
  of_denied = tt;
}

same_description : describe first_order ≡ describe second_order
unfolding describe cap lookup text_eq concat_text
same_description = refl

describe-c_bake_example : c_bake first_order (codes "auto") ≡ c_bake second_order (codes "auto")
describe-c_bake_example =
    describe-c_bake first_order second_order (codes "auto") (with_caps-HasLines _)
      (with_caps-HasLines _) (λ e. cc) (λ e. cc) refl same_description

report_runs :
    report (record unrestricted { module_deny = codes "a" ∷ codes "b" ∷ [] })
    ≡ codes
        "policy: none (unrestricted build)\ncapabilities:\n  fs.read      allowed\n  fs.write     allowed\n  proc         allowed\n  ffi.use      allowed\n  ffi.import   allowed\n  raw.syscall  allowed\n  raw.mem      allowed\n  host.argv    allowed\n  fs.workspace unrestricted\nmodules (USE): all allowed (denied: a, b)\n"
unfolding report cap lookup text_eq concat_text join_names
report_runs = refl
