-- ===== src/Comp/Ast.antt =====
-- The instructions of comp/src/ast.rs, and the parsed program. An f64 is the
-- number of its bits.
use u_flux.Prelude.{Option, none, [], ◌∷◌, ℕ, Bool, List, Text, ℤ}

pub record WeaveMeta : Type 0 where
  pub name : Text
  pub pc : ℕ
  pub inputs : List ℕ
  pub count : ℤ

pub data Ins : Type 0 where
  push_i : ℤ → Ins
  push_f push_s : ℕ → Ins
  push_addr simple call : Text → Ins
  for_ ret : Ins
  call_ext : ℕ → Ins
  set_v get_v inc_local add_local inc_global add_global : Text → Ins
  atomic_add : Text → Bool → Ins
  nop strict loose : Ins
  local_set local_get : Text → Ins
  local_set_i local_get_i : ℕ → Ins
  extern : Text → Ins
  send : Ins
  weave : List WeaveMeta → Ins
  sys : ℕ → Ins
  flush list_start dict_start list_lit dict_lit if_ if_else while_ break_ cont : Ins
  goto : Text → Ins

pub record Import : Type 0 where
  pub name : Text
  pub params : List Text
  pub ret : Text

pub data Param : Type 0 where
  local global : Text → Param
  discard : Param

-- A map is an association list that holds a key once.
pub record Parsed : Type 0 where
  pub ins : List Ins
  pub labels : List (Text × ℕ)
  pub imports : List Import
  pub exports : List (Text × Text)
  pub externs : List Text
  pub strings : List Text
  pub vars : List Text
  pub uses : List Text
  pub modname : Option Text
  pub pubs : List Text
  pub methods : List (ℤ × ℤ × Text)
  pub init_pcs : List ℕ
  pub entry_label : Option Text
  pub local_counts : List (ℕ × ℕ)
  pub local_names : List (ℕ × List Text)
  pub label_params : List (ℕ × List Param)
  pub param_pcs : List (ℕ × ℕ)

-- The unit that `parse` and `merge_tus` start from.
abbrev pub no_code : Parsed
no_code = record {
  ins = [];
  labels = [];
  imports = [];
  exports = [];
  externs = [];
  strings = [];
  vars = [];
  uses = [];
  modname = none;
  pubs = [];
  methods = [];
  init_pcs = [];
  entry_label = none;
  local_counts = [];
  local_names = [];
  label_params = [];
  param_pcs = [];
}

-- The positions of input binds.
abbrev pub keys : List (ℕ × ℕ) → List ℕ
keys [] = []
keys ((pc, k) ∷ binds) = pc ∷ keys binds

abbrev pub bind_pcs : Parsed → List ℕ
bind_pcs p = keys p.param_pcs
