-- ===== src/Sandbox/DescribeLaws.antt =====
-- What `describe` of comp/src/sandbox.rs tells of a configuration.
use u_flux.Prelude.{
  ℕ, ◌≡◌, ◌≢◌, refl, sym, ap, ◌∙◌, Bool, true, false, List, [], ◌∷◌, ◌++◌, map, Option, none, some,
  All, take, drop, length, Text, codes,
}
use u_flux.Sandbox.Pattern.{cap_names}
use u_flux.Sandbox.Caps.{Caps, cap, cap_i64, as_i64, is_some}
use u_flux.Sandbox.Bake.{
  concat_text, roots_or_none, statements, c_bake, render, Statement, set_on, set_policy, set_device,
  fill_caps, set_caps, clear_roots, push_root, module_statements, clear_mod_deny, push_mod_deny,
}
use u_flux.Sandbox.Describe.{digit, cap_line, allowed_modules, head_lines, list_lines, describe}
use u_flux.Sandbox.TaggedLines.{
  IsLine, IsLine-append, read_lines, read_lines-unlines, values, All-append, All-tagged, plain,
}
use u_flux.Sandbox.DescribedValues.{
  head_lines-SameHead, roots-list_lines, allowed-list_lines, denied-list_lines,
}

-- The texts of a configuration hold no newline.
pub record HasLines (c : Caps) : Type 0 where
  pub of_policy : IsLine c.policy_name
  pub of_origin : IsLine c.origin
  pub of_roots : All IsLine (roots_or_none c.workspace)
  pub of_allowed : All IsLine (allowed_modules c.module_allow)
  pub of_denied : All IsLine c.module_deny

digit-IsLine : (b : Bool) → IsLine (digit b)
unfolding IsLine
digit-IsLine true = refl
digit-IsLine false = refl

cap_line-IsLine : (c : Caps) (w : Text) → IsLine w → IsLine (cap_line c w)
cap_line-IsLine c w h =
    IsLine-append w _ h (IsLine-append (codes "=") _ (plain _ refl) (digit-IsLine (cap c w)))

cap_lines-IsLine : (c : Caps) (ws : List Text) → All IsLine ws → All IsLine (map (cap_line c) ws)
cap_lines-IsLine c [] k = tt
cap_lines-IsLine c (w ∷ ws) k = (cap_line-IsLine c w k.0, cap_lines-IsLine c ws k.1)

cap_names-IsLine : All IsLine cap_names
unfolding IsLine
cap_names-IsLine = (refl, (refl, (refl, (refl, (refl, (refl, (refl, (refl, tt))))))))

lines-IsLine : (c : Caps) → HasLines c → All IsLine (head_lines c ++ list_lines c)
lines-IsLine c h =
    All-append (head_lines c) (list_lines c)
      (
        IsLine-append (codes "policy=") _ (plain _ refl) h.of_policy,
        (
          IsLine-append (codes "origin=") _ (plain _ refl) h.of_origin,
          All-append (map (cap_line c) cap_names)
              ((codes "fs.workspace=" ++ digit (is_some c.workspace)) ∷ [])
              (cap_lines-IsLine c cap_names cap_names-IsLine)
              (
                IsLine-append (codes "fs.workspace=") _ (plain _ refl)
                    (digit-IsLine (is_some c.workspace)),
                tt,
              ),
        ),
      )
      (All-append _ _ (All-tagged (codes "workspace=") _ (plain _ refl) h.of_roots) (
        All-append _ _ (All-tagged (codes "module_allow=") _ (plain _ refl) h.of_allowed)
          (All-tagged (codes "module_deny=") _ (plain _ refl) h.of_denied)))

-- The lines of equal descriptions.
lines_same :
    (c d : Caps)
    → HasLines c
    → HasLines d
    → describe c ≡ describe d
    → head_lines c ++ list_lines c ≡ head_lines d ++ list_lines d
unfolding describe
lines_same c d h k e =
    sym (read_lines-unlines _ (lines-IsLine c h))
    ∙ ap read_lines e
    ∙ read_lines-unlines _ (lines-IsLine d k)

head_same :
    (c d : Caps)
    → head_lines c ++ list_lines c ≡ head_lines d ++ list_lines d
    → head_lines c ≡ head_lines d
head_same c d e = ap (take 11) e

lists_same :
    (c d : Caps)
    → head_lines c ++ list_lines c ≡ head_lines d ++ list_lines d
    → list_lines c ≡ list_lines d
lists_same c d e = ap (drop 11) e

cap_i64_same :
    (c d : Caps) (w : Text)
    → is_some c.workspace ≡ is_some d.workspace
    → cap c w ≡ cap d w
    → cap_i64 c w ≡ cap_i64 d w
unfolding cap_i64
cap_i64_same c d w e f = rw (e, f) refl

caps_same :
    (c d : Caps) (ws : List Text)
    → is_some c.workspace ≡ is_some d.workspace
    → All (λ w. cap c w ≡ cap d w) ws
    → map (cap_i64 c) ws ≡ map (cap_i64 d) ws
caps_same c d [] e h = refl
caps_same c d (w ∷ ws) e h = rw (cap_i64_same c d w e h.0, caps_same c d ws e h.1) refl

-- The list of modules that is described like no list.
abbrev pub only_star : Option (List Text)
only_star = some (codes "*" ∷ [])

modules_same :
    (a b : Option (List Text))
    → a ≢ only_star
    → b ≢ only_star
    → allowed_modules a ≡ allowed_modules b
    → a ≡ b
modules_same none none h k e = refl
modules_same none (some l) h k e = absurd (k (ap some (sym e)))
modules_same (some l) none h k e = absurd (h (ap some e))
modules_same (some l) (some m) h k e = ap some e

-- The statements from what they show of a configuration.
shown : ℕ → Text → Text → List ℕ → List Text → Option (List Text) → List Text → List Statement
shown on policy device caps roots modules denied =
    set_on on
    ∷ set_policy policy
    ∷ set_device device
    ∷ fill_caps (length cap_names)
    ∷ (set_caps 0 caps
        ++ (clear_roots
            ∷ (map push_root (take 16 roots)
                ++ (module_statements modules
                    ++ (clear_mod_deny ∷ map push_mod_deny (take 32 denied))))))

statements-shown :
    (c : Caps) (device : Text)
    → statements c device
      ≡ shown
          (as_i64 c.is_sandboxed)
          c.policy_name
          device
          (map (cap_i64 c) cap_names)
          (roots_or_none c.workspace)
          c.module_allow
          c.module_deny
unfolding statements shown
statements-shown c device = refl

-- Two configurations with the same description, both sandboxed or both not, are baked into the same
-- text, when no name or root of theirs holds a newline, and neither allows the one module `*`.
pub describe-c_bake :
    (c d : Caps) (device : Text)
    → HasLines c
    → HasLines d
    → c.module_allow ≢ only_star
    → d.module_allow ≢ only_star
    → c.is_sandboxed ≡ d.is_sandboxed
    → describe c ≡ describe d
    → c_bake c device ≡ c_bake d device
unfolding c_bake
describe-c_bake c d device h k only_c only_d on e =
    let lines = lines_same c d h k e in
    let lists = lists_same c d lines in
    let head = head_lines-SameHead c d (head_same c d lines) in
    let caps = caps_same c d cap_names head.rooted head.caps in
    let roots = sym (roots-list_lines c) ∙ ap (values _) lists ∙ roots-list_lines d in
    let allows = sym (allowed-list_lines c) ∙ ap (values _) lists ∙ allowed-list_lines d in
    let denies = sym (denied-list_lines c) ∙ ap (values _) lists ∙ denied-list_lines d in
    let modules = modules_same c.module_allow d.module_allow only_c only_d allows in
    ap (λ ss. concat_text (map render ss))
      (statements-shown c device
        ∙ cc (on, head.policy, caps, roots, modules, denies)
        ∙ sym (statements-shown d device))
