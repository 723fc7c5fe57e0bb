-- ===== src/Sandbox/DescribedValues.antt =====
-- The values that the lines of `describe` of comp/src/sandbox.rs give back.
use u_flux.Prelude.{
  ◌≡◌, refl, ap, Bool, true, false, List, [], ◌∷◌, ◌++◌, map, ◌==◌, All, Text, codes, strip_prefix,
  append-nil,
}
use u_flux.Sandbox.Pattern.{cap_names}
use u_flux.Sandbox.Caps.{Caps, cap, is_some}
use u_flux.Sandbox.Bake.{roots_or_none}
use u_flux.Sandbox.Describe.{
  digit, root_line, allow_line, deny_line, allowed_modules, head_lines, list_lines,
}
use u_flux.Sandbox.TaggedLines.{values, values-append, values-own, values-other}

abbrev is_one : List Text → Bool
is_one ((c ∷ s) ∷ ts) = c == b'1'
is_one _ = false

digit_injective : (a b : Bool) → ◌≡◌ {A = List Text} (digit a ∷ []) (digit b ∷ []) → a ≡ b
digit_injective true true e = refl
digit_injective false false e = refl
digit_injective true false e = ap is_one e
digit_injective false true e = ap is_one e

cons_injective : {t u : Text} → ◌≡◌ {A = List Text} (t ∷ []) (u ∷ []) → t ≡ u
cons_injective e = cc

-- What the lines before the lists tell.
pub record SameHead (c d : Caps) : Type 0 where
  pub policy : c.policy_name ≡ d.policy_name
  pub rooted : is_some c.workspace ≡ is_some d.workspace
  pub caps : All (λ w. cap c w ≡ cap d w) cap_names

pub head_lines-SameHead : (c d : Caps) → head_lines c ≡ head_lines d → SameHead c d
unfolding values strip_prefix
head_lines-SameHead c d e = record {
  policy = cons_injective (ap (values (codes "policy=")) e);
  rooted = digit_injective _ _ (ap (values (codes "fs.workspace=")) e);
  caps = (
    digit_injective _ _ (ap (values (codes "fs.read=")) e),
    (
      digit_injective _ _ (ap (values (codes "fs.write=")) e),
      (
        digit_injective _ _ (ap (values (codes "proc=")) e),
        (
          digit_injective _ _ (ap (values (codes "ffi.use=")) e),
          (
            digit_injective _ _ (ap (values (codes "ffi.import=")) e),
            (
              digit_injective _ _ (ap (values (codes "raw.syscall=")) e),
              (
                digit_injective _ _ (ap (values (codes "raw.mem=")) e),
                (digit_injective _ _ (ap (values (codes "host.argv=")) e), tt),
              ),
            ),
          ),
        ),
      ),
    ),
  );
}

-- What the lists tell.
values-list_lines :
    (tag : Text) (c : Caps)
    → values tag (list_lines c)
      ≡ values tag (map root_line (roots_or_none c.workspace))
        ++ (values tag (map allow_line (allowed_modules c.module_allow))
            ++ values tag (map deny_line c.module_deny))
values-list_lines tag c = rw (values-append, values-append) refl

pub roots-list_lines :
    (c : Caps) → values (codes "workspace=") (list_lines c) ≡ roots_or_none c.workspace
unfolding strip_prefix
roots-list_lines c =
    rw
      (
        values-list_lines,
        values-own,
        values-other _ (codes "module_allow=") _ (λ v. refl),
        values-other _ (codes "module_deny=") _ (λ v. refl),
        append-nil,
      )
      refl

pub allowed-list_lines :
    (c : Caps) → values (codes "module_allow=") (list_lines c) ≡ allowed_modules c.module_allow
unfolding strip_prefix
allowed-list_lines c =
    rw
      (
        values-list_lines,
        values-own,
        values-other _ (codes "workspace=") _ (λ v. refl),
        values-other _ (codes "module_deny=") _ (λ v. refl),
        append-nil,
      )
      refl

pub denied-list_lines : (c : Caps) → values (codes "module_deny=") (list_lines c) ≡ c.module_deny
unfolding strip_prefix
denied-list_lines c =
    rw
      (
        values-list_lines,
        values-own,
        values-other _ (codes "workspace=") _ (λ v. refl),
        values-other _ (codes "module_allow=") _ (λ v. refl),
      )
      refl
