-- ===== src/Sandbox/Bake.antt =====
-- `c_bake` and `c_escape` of comp/src/sandbox.rs: the C statements that put the capability set into
-- the compiled program. A statement is a value with its C text and its effect on the globals that
-- comp/src/prelude.rs declares.
use u_flux.Prelude.{
  ℕ, zero, suc, ◌+◌, List, [], ◌∷◌, ◌++◌, map, Option, none, some, ◌==◌, if◌then◌else◌, Text, codes,
  take, length, show_ℕ,
}
use u_flux.Sandbox.Pattern.{cap_names}
use u_flux.Sandbox.Caps.{Caps, as_i64, cap_i64}

abbrev pub escape_char : ℕ → Text
escape_char c =
    if c == b'\\'
    then b'\\' ∷ b'\\' ∷ []
    else if c == b'"'
    then b'\\' ∷ b'"' ∷ []
    else if c == b'\n'
    then b'\\' ∷ b'n' ∷ []
    else c ∷ []

unfoldable pub c_escape : Text → Text
c_escape [] = []
c_escape (c ∷ s) = escape_char c ++ c_escape s

-- The globals; a count with its array is a list, and `uf_mod_allow_n=-1` is `none`.
pub record Globals : Type 0 where
  pub sb_on : ℕ
  pub sb_policy : Text
  pub device : Text
  pub sb_caps : List ℕ
  pub ws_roots : List Text
  pub mod_allow : Option (List Text)
  pub mod_deny : List Text

abbrev pub initial_globals : Globals
initial_globals = record {
  sb_on = 0;
  sb_policy = codes "none";
  device = codes "auto";
  sb_caps = 1 ∷ 1 ∷ 1 ∷ 1 ∷ 1 ∷ 1 ∷ 1 ∷ 1 ∷ [];
  ws_roots = [];
  mod_allow = none;
  mod_deny = [];
}

pub data Statement : Type 0 where
  set_on : ℕ → Statement
  set_policy set_device : Text → Statement
  fill_caps : ℕ → Statement
  set_cap : ℕ → ℕ → Statement
  clear_roots clear_mod_allow all_modules clear_mod_deny : Statement
  push_root push_mod_allow push_mod_deny : Text → Statement

abbrev quoted : Text → Text
quoted s = c_escape s ++ codes "\";\n"

unfoldable pub render : Statement → Text
unfolding c_escape
render (set_on n) = codes "uf_sb_on=" ++ (show_ℕ n ++ codes ";\n")
render (set_policy s) = codes "uf_sb_policy=\"" ++ quoted s
render (set_device s) = codes "uf_device=\"" ++ quoted s
render (fill_caps n) =
    codes "{int _i;for(_i=0;_i<" ++ (show_ℕ n ++ codes ";_i++)uf_sb_caps[_i]=1;}\n")
render (set_cap i v) =
    codes "uf_sb_caps[" ++ (show_ℕ i ++ (codes "]=" ++ (show_ℕ v ++ codes ";\n")))
render clear_roots = codes "uf_ws_nroots=0;\n"
render (push_root s) = codes "uf_ws_roots[uf_ws_nroots++]=\"" ++ quoted s
render clear_mod_allow = codes "uf_mod_allow_n=0;\n"
render (push_mod_allow s) = codes "uf_mod_allow[uf_mod_allow_n++]=\"" ++ quoted s
render all_modules = codes "uf_mod_allow_n=-1;\n"
render clear_mod_deny = codes "uf_mod_deny_n=0;\n"
render (push_mod_deny s) = codes "uf_mod_deny[uf_mod_deny_n++]=\"" ++ quoted s

pub set_caps : ℕ → List ℕ → List Statement
set_caps i [] = []
set_caps i (v ∷ vs) = set_cap i v ∷ set_caps (i + 1) vs

abbrev pub roots_or_none : Option (List Text) → List Text
roots_or_none none = []
roots_or_none (some roots) = roots

abbrev pub module_statements : Option (List Text) → List Statement
module_statements none = all_modules ∷ []
module_statements (some list) = clear_mod_allow ∷ map push_mod_allow (take 32 list)

unfoldable pub statements : Caps → Text → List Statement
unfolding set_caps
statements c device =
    set_on (as_i64 c.is_sandboxed)
    ∷ set_policy c.policy_name
    ∷ set_device device
    ∷ fill_caps (length cap_names)
    ∷ (set_caps 0 (map (cap_i64 c) cap_names)
        ++ (clear_roots
            ∷ (map push_root (take 16 (roots_or_none c.workspace))
                ++ (module_statements c.module_allow
                    ++ (clear_mod_deny ∷ map push_mod_deny (take 32 c.module_deny))))))

unfoldable pub concat_text : List Text → Text
concat_text [] = []
concat_text (t ∷ ts) = t ++ concat_text ts

unfoldable pub c_bake : Caps → Text → Text
unfolding statements render concat_text
c_bake c device = concat_text (map render (statements c device))

abbrev write_at : List ℕ → ℕ → ℕ → List ℕ
write_at [] i v = []
write_at (x ∷ xs) zero v = v ∷ xs
write_at (x ∷ xs) (suc i) v = x ∷ write_at xs i v

abbrev write_ones : ℕ → List ℕ → List ℕ
write_ones zero xs = xs
write_ones (suc n) [] = []
write_ones (suc n) (x ∷ xs) = 1 ∷ write_ones n xs

abbrev push_allowed : Text → Option (List Text) → Option (List Text)
push_allowed s none = none
push_allowed s (some list) = some (list ++ s ∷ [])

-- What a statement does when the program runs it.
unfoldable pub exec : Statement → Globals → Globals
exec (set_on n) g = record g { sb_on = n }
exec (set_policy s) g = record g { sb_policy = s }
exec (set_device s) g = record g { device = s }
exec (fill_caps n) g = record g { sb_caps = write_ones n g.sb_caps }
exec (set_cap i v) g = record g { sb_caps = write_at g.sb_caps i v }
exec clear_roots g = record g { ws_roots = [] }
exec (push_root s) g = record g { ws_roots = g.ws_roots ++ s ∷ [] }
exec clear_mod_allow g = record g { mod_allow = some [] }
exec (push_mod_allow s) g = record g { mod_allow = push_allowed s g.mod_allow }
exec all_modules g = record g { mod_allow = none }
exec clear_mod_deny g = record g { mod_deny = [] }
exec (push_mod_deny s) g = record g { mod_deny = g.mod_deny ++ s ∷ [] }

unfoldable pub exec_all : List Statement → Globals → Globals
unfolding exec
exec_all [] g = g
exec_all (x ∷ xs) g = exec_all xs (exec x g)

-- The globals of a compiled program once `main` has run the baked statements.
unfoldable pub baked_globals : Caps → Text → Globals
unfolding statements exec_all
baked_globals c device = exec_all (statements c device) initial_globals
