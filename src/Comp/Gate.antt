-- ===== src/Comp/Gate.antt =====
-- `gate_op` of comp/src/parse.rs, and the arm of `parse` that calls it: what becomes of an opcode that
-- has no instruction of its own.
use u_flux.Prelude.{List, [], ◌∷◌, Option, none, some, if◌then◌else◌, Text, codes, Outcome, ok, err}
use u_flux.Sandbox.Caps.{Caps, cap}
use u_flux.Comp.Ast.{Ins, simple}
use u_flux.Comp.Opcodes.{entry, helper_of}

-- The parts of the message of the panic, and the panic of `simple_ins`.
pub data OpError : Type 0 where
  disabled : (mnem need policy_name origin : Text) → OpError
  no_helper : Text → OpError

-- An opcode with its capability, what its message calls that, and its mnemonic.
abbrev pub gates : List (Text × (Text × Text × Text))
gates =
    (codes "SH", (codes "proc", codes "proc", codes "shell"))
    ∷ (codes "SHP", (codes "proc", codes "proc", codes "shell_stream"))
    ∷ (codes "EXEC", (codes "proc", codes "proc", codes "execute"))
    ∷ (codes "SLURP", (codes "fs.read", codes "fs.read", codes "read_file"))
    ∷ (codes "SPIT", (codes "fs.write", codes "fs.write", codes "write_file"))
    ∷ (codes "MMAP", (codes "fs.mmap", codes "fs.read + fs.write", codes "mmap"))
    ∷ (codes "FEACH", (codes "fs.read", codes "fs.read", codes "file_each_line"))
    ∷ (codes "FFOLD", (codes "fs.read", codes "fs.read", codes "file_fold_lines"))
    ∷ (codes "FSPLIT", (codes "fs.read", codes "fs.read", codes "file_split_lines"))
    ∷ (codes "FMATCH", (codes "fs.read", codes "fs.read", codes "file_match_lines"))
    ∷ (codes "FEMIT", (codes "fs.write", codes "fs.write", codes "file_emit"))
    ∷ (codes "MALLOC", (codes "raw.mem", codes "raw.mem", codes "malloc"))
    ∷ (codes "FREE", (codes "raw.mem", codes "raw.mem", codes "free"))
    ∷ (codes "BUF", (codes "raw.mem", codes "raw.mem", codes "buffer"))
    ∷ (codes "BUFCOPY", (codes "raw.mem", codes "raw.mem", codes "copy_memory"))
    ∷ (codes "LOADX", (codes "raw.mem", codes "raw.mem", codes "load"))
    ∷ (codes "STOREX", (codes "raw.mem", codes "raw.mem", codes "store"))
    ∷ (codes "ARGV", (codes "host.argv", codes "host.argv", codes "argv"))
    ∷ (codes "HASARGS", (codes "host.argv", codes "host.argv", codes "has_args"))
    ∷ (codes "ARGI", (codes "host.argv", codes "host.argv", codes "arg_index"))
    ∷ []

abbrev pub checked : Caps → Option (Text × Text × Text) → Outcome OpError (Unit {0})
checked caps none = ok tt
checked caps (some (c, need, mnem)) =
    if cap caps c then ok tt else err (disabled mnem need caps.policy_name caps.origin)

unfoldable pub gate_op : Text → Caps → Outcome OpError (Unit {0})
unfolding entry cap
gate_op name caps = checked caps (entry gates name)

abbrev pub called : Text → Option Text → Outcome OpError Ins
called name none = err (no_helper name)
called name (some h) = ok (simple h)

-- `gate_op(name, caps); simple_ins(name)`
unfoldable pub op_ins : Text → Caps → Outcome OpError Ins
unfolding gate_op helper_of
op_ins name caps = elim (gate_op name caps) [ err e ↦ err e | ok u ↦ called name (helper_of name) ]
