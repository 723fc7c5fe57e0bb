-- ===== src/Sandbox/Pattern.antt =====
-- Capability names and the matching of patterns against them (comp/src/sandbox.rs).
use Prim.Native.String.{String}
use u_flux.Prelude.{
  ℕ, Bool, List, [], ◌∷◌, ◌&&◌, ◌||◌, Option, none, some, if◌then◌else◌, Text, codes, text_eq,
  starts_with, strip_suffix, length, drop,
}

abbrev pub cap_names : List Text
cap_names =
    codes "fs.read"
    ∷ codes "fs.write"
    ∷ codes "proc"
    ∷ codes "ffi.use"
    ∷ codes "ffi.import"
    ∷ codes "raw.syscall"
    ∷ codes "raw.mem"
    ∷ codes "host.argv"
    ∷ []

abbrev is_word : Text → String → Bool
is_word t s = text_eq t (codes s)

-- The capability that a helper of the run time needs; `none` for an operation without a gate.
unfoldable pub op_capability : Text → Option Text
op_capability helper =
    if is_word helper "op_slurp"
      || is_word helper "op_feach"
      || is_word helper "op_ffold"
      || is_word helper "op_fsplit"
      || is_word helper "op_fmatch"
    then some (codes "fs.read")
    else if is_word helper "op_mmap"
    then some (codes "fs.mmap")
    else if is_word helper "op_spit" || is_word helper "op_femit"
    then some (codes "fs.write")
    else if is_word helper "op_sh" || is_word helper "op_shp" || is_word helper "op_exec"
    then some (codes "proc")
    else if is_word helper "op_malloc"
        || is_word helper "op_free"
        || is_word helper "op_buf"
        || is_word helper "op_bufcopy"
        || is_word helper "op_loadx"
        || is_word helper "op_storex"
    then some (codes "raw.mem")
    else if is_word helper "op_argv" || is_word helper "op_hasargs" || is_word helper "op_argi"
    then some (codes "host.argv")
    else none

-- `cap.starts_with(prefix) && cap[prefix.len()..].starts_with('.')`
abbrev pub under_prefix : Text → Text → Bool
under_prefix prefix want =
    starts_with want prefix && starts_with (drop (length prefix) want) (codes ".")

abbrev pub match_stripped : Option Text → Text → Text → Option ℕ
match_stripped (some prefix) pat want = if under_prefix prefix want then some 1 else none
match_stripped none pat want = if text_eq pat want then some 2 else none

-- Specificity: 2 for an exact name, 1 for a prefix wildcard, 0 for a bare `*`.
unfoldable pub pattern_matches : Text → Text → Option ℕ
pattern_matches pat want =
    if text_eq pat (codes "*")
    then some 0
    else match_stripped (strip_suffix pat (codes ".*")) pat want
