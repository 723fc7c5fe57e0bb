-- ===== src/Sandbox/Gate.antt =====
-- `uf_fs_gate` and `uf_cap_index` of the C run time (the text in comp/src/prelude.rs), and `op_cap`
-- over them. `realpath` is the operating system's; paths are taken to fit the 4096-byte buffers.
use u_flux.Prelude.{
  ℕ, suc, Bool, true, false, ◌&&◌, ◌||◌, List, [], ◌∷◌, reverse, Option, none, some, ltb, leb, ◌==◌,
  if◌then◌else◌, any, Text, codes, text_eq, starts_with, length, drop, get_elem?,
}
use u_flux.Sandbox.Bake.{Globals}

-- `r[rl]=='/'||r[rl]==0` behind the prefix
abbrev pub at_boundary : Text → Bool
at_boundary [] = true
at_boundary (c ∷ rest) = c == b'/'

abbrev pub under_root : Text → Text → Bool
under_root r root = starts_with r root && at_boundary (drop (length root) r)

-- `strrchr(pbuf,'/')` on the reversed path, and what stands before the slash; the three cases are
-- no slash, a slash at the start, and any other slash.
abbrev pub cut_at_slash : Text → Text → Text
cut_at_slash path [] = codes "."
cut_at_slash path (c ∷ before) =
    if c == b'/'
    then (elim before [ [] ↦ path | d ∷ ds ↦ reverse (d ∷ ds) ])
    else cut_at_slash path before

-- The path whose resolution the gate takes when the path itself does not resolve.
unfoldable pub parent_of : Text → Text
parent_of path = cut_at_slash path (reverse path)

module _ (realpath : Text → Option Text) where
  abbrev or_parent : Text → Option Text → Option Text
  or_parent path (some r) = some r
  or_parent path none = realpath (parent_of path)

  -- What the gate compares with the roots.
  unfoldable pub resolved : Text → Option Text
  resolved path = or_parent path (realpath path)

  abbrev pub is_inside : List Text → Option Text → Bool
  is_inside roots none = false
  is_inside roots (some r) = any (under_root r) roots

  -- True when the gate returns, false when it stops the program.
  unfoldable pub fs_gate : Globals → Text → Bool
  fs_gate g path =
      if g.sb_on == 0 || leb (length g.ws_roots) 0
      then true
      else is_inside g.ws_roots (resolved path)

abbrev pub index_from : ℕ → List Text → Text → Option ℕ
index_from i [] name = none
index_from i (n ∷ ns) name = if text_eq name n then some i else index_from (suc i) ns name

-- The run time's own table of the names.
abbrev pub uf_cap_names : List Text
uf_cap_names =
    codes "fs.read"
    ∷ codes "fs.write"
    ∷ codes "proc"
    ∷ codes "ffi.use"
    ∷ codes "ffi.import"
    ∷ codes "raw.syscall"
    ∷ codes "raw.mem"
    ∷ codes "host.argv"
    ∷ []

unfoldable pub cap_index : Text → Option ℕ
cap_index name = index_from 0 uf_cap_names name

abbrev pub value_at : List ℕ → Option ℕ → Option ℕ
value_at caps none = none
value_at caps (some i) = get_elem? caps i

-- The number that `op_cap` pushes; `none` when it stops the program on an unknown name.
unfoldable pub op_cap : Globals → Text → Option ℕ
unfolding cap_index
op_cap g name =
    if text_eq name (codes "fs.workspace")
    then some (if ltb 0 g.sb_on && ltb 0 (length g.ws_roots) then 1 else 0)
    else if text_eq name (codes "compute")
    then some 1
    else value_at g.sb_caps (cap_index name)
