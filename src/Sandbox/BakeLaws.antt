-- ===== src/Sandbox/BakeLaws.antt =====
-- The baked statements carry the capability set to the run time, and their strings cannot be left.
use u_flux.Prelude.{
  ℕ, ◌≡◌, refl, ◌∙◌, Bool, true, false, not, ◌||◌, List, [], ◌∷◌, ◌++◌, map, Option, none, some,
  arith, append_assoc, append-nil, ◌==◌, if◌then◌else◌, Text, take,
}
use u_flux.Sandbox.Pattern.{cap_names}
use u_flux.Sandbox.Caps.{Caps, as_i64, cap_i64}
use u_flux.Sandbox.Bake.{
  Globals, Statement, push_root, push_mod_allow, push_mod_deny, roots_or_none, module_statements,
  exec, exec_all, baked_globals,
}
use u_flux.Sandbox.Gate.{is_inside, resolved, fs_gate}

-- The body of a C string literal as far as its closing quote: the string and what follows. There is
-- none when the line ends first, or at an escape that `c_escape` does not write.
abbrev cons_literal : ℕ → Option (Text × Text) → Option (Text × Text)
cons_literal c none = none
cons_literal c (some (s, rest)) = some (c ∷ s, rest)

pub read_literal : Text → Option (Text × Text)
read_literal [] = none
read_literal (c ∷ []) = if c == b'"' then some ([], []) else none
read_literal (c ∷ d ∷ t) =
    let after = read_literal t in
    let next = read_literal (d ∷ t) in
    if c == b'"'
    then some ([], d ∷ t)
    else if c == b'\n'
    then none
    else if c == b'\\'
    then (if d == b'\\'
        then cons_literal b'\\' after
        else if d == b'"'
        then cons_literal b'"' after
        else if d == b'n'
        then cons_literal b'\n' after
        else none)
    else cons_literal c next

exec_all-append :
    (xs ys : List Statement) (g : Globals) → exec_all (xs ++ ys) g ≡ exec_all ys (exec_all xs g)
unfolding exec_all
exec_all-append [] ys g = refl
exec_all-append (x ∷ xs) ys g = exec_all-append xs ys (exec x g)

exec-push_root :
    (ts : List Text) (g : Globals)
    → exec_all (map push_root ts) g ≡ record g { ws_roots = g.ws_roots ++ ts }
unfolding exec_all
exec-push_root [] g = rw append-nil
exec-push_root (t ∷ ts) g = exec-push_root ts (exec (push_root t) g) ∙ rw append_assoc

exec-push_mod_deny :
    (ts : List Text) (g : Globals)
    → exec_all (map push_mod_deny ts) g ≡ record g { mod_deny = g.mod_deny ++ ts }
unfolding exec_all
exec-push_mod_deny [] g = rw append-nil
exec-push_mod_deny (t ∷ ts) g = exec-push_mod_deny ts (exec (push_mod_deny t) g) ∙ rw append_assoc

exec-push_mod_allow :
    (ts list : List Text) (g : Globals)
    → g.mod_allow ≡ some list
    → exec_all (map push_mod_allow ts) g ≡ record g { mod_allow = some (list ++ ts) }
unfolding exec_all
exec-push_mod_allow [] list g h = rw append-nil (cc)
exec-push_mod_allow (t ∷ ts) list g h =
    exec-push_mod_allow ts (list ++ t ∷ []) (exec (push_mod_allow t) g) (rw h refl)
    ∙ rw append_assoc

abbrev pub first_32 : Option (List Text) → Option (List Text)
first_32 none = none
first_32 (some list) = some (take 32 list)

exec-module_statements :
    (o : Option (List Text)) (g : Globals)
    → exec_all (module_statements o) g ≡ record g { mod_allow = first_32 o }
unfolding exec_all
exec-module_statements none g = refl
exec-module_statements (some list) g =
    exec-push_mod_allow (take 32 list) [] (record g { mod_allow = some [] }) refl

-- The program starts with the compiler's view: the number of every capability, the first 16
-- workspace roots, and the first 32 names of each module list.
pub baked_globals_lem :
    (c : Caps) (device : Text)
    → baked_globals c device ≡ record {
      sb_on = as_i64 c.is_sandboxed;
      sb_policy = c.policy_name;
      device = device;
      sb_caps = map (cap_i64 c) cap_names;
      ws_roots = take 16 (roots_or_none c.workspace);
      mod_allow = first_32 c.module_allow;
      mod_deny = take 32 c.module_deny;
    }
unfolding baked_globals
baked_globals_lem c device =
    simp (exec_all-append, exec-push_root, exec-module_statements, exec-push_mod_deny)

abbrev pub is_nil {ℓ} : {A : Type ℓ} → List A → Bool
is_nil [] = true
is_nil (x ∷ xs) = false

gate_on :
    (realpath : Text → Option Text) (on : Bool) (roots : List Text) (g : Globals) (path : Text)
    → g.sb_on ≡ as_i64 on
    → g.ws_roots ≡ take 16 roots
    → fs_gate realpath g path
      ≡ (not on || is_nil roots || is_inside realpath (take 16 roots) (resolved realpath path))
unfolding fs_gate
gate_on realpath false roots g path s w = rw s
gate_on realpath true [] g path s w = rw (s, w)
gate_on realpath true (r ∷ roots) g path s w = rw (s, w) (ground arith)

-- The gate of a compiled program, from the configuration that was baked into it.
pub fs_gate-baked_globals :
    (realpath : Text → Option Text) (c : Caps) (device path : Text)
    → fs_gate realpath (baked_globals c device) path ≡ (
        not c.is_sandboxed
        || is_nil (roots_or_none c.workspace)
        || is_inside realpath (take 16 (roots_or_none c.workspace)) (resolved realpath path))
fs_gate-baked_globals realpath c device path =
    rw baked_globals_lem
      (gate_on realpath c.is_sandboxed (roots_or_none c.workspace) _ path refl refl)
