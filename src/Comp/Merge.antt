-- ===== src/Comp/Merge.antt =====
-- `merge_tus` of comp/src/parse.rs: the translation units become one, the first one at position 0.
use u_flux.Prelude.{
  ℕ, zero, suc, ◌+◌, Bool, false, List, [], ◌∷◌, ◌++◌, map, Option, none, some, if◌then◌else◌, Text,
  codes, text_eq, contains, length, get_elem?, Outcome, ok, err, ◌>>=◌,
}
use u_flux.Comp.Ast.{
  Ins, push_s, push_addr, call, call_ext, ret, set_v, get_v, weave, goto, WeaveMeta, Import, Parsed,
  no_code,
}
use u_flux.Comp.Opcodes.{entry}
use u_flux.Comp.Scope.{ScopeError, first_label_pc, straight_names}
use u_flux.Comp.Frames.{put_key}
use u_flux.Comp.Locals.{resolve_locals}

pub data MergeError : Type 0 where
  -- A label that is public twice, and a public name that is no label.
  duplicate_pub no_label : Text → MergeError
  -- The index that `imp_map[*ii]` panics on.
  no_import : ℕ → MergeError
  scope : ScopeError → MergeError

-- `format!("{}:{}", modname, l)` and `format!("{}__{}", modname, v)`
unfoldable pub mangle : Text → Text → Text
mangle m l = m ++ (codes ":" ++ l)

unfoldable pub file_var : Text → Text → Text
file_var m v = m ++ (codes "__" ++ v)

abbrev pub name_or : Text → Option Text → Text
name_or d none = d
name_or d (some n) = n

abbrev pub mangle_if : Option ℕ → Text → Text → Text
mangle_if none m l = l
mangle_if (some pc) m l = mangle m l

-- `local`: a label of the unit is mangled, any other is global.
unfoldable pub local_label : List (Text × ℕ) → Text → Text → Text
unfolding entry mangle
local_label labels m l = mangle_if (entry labels l) m l

unfoldable pub import_at : Text → List Import → Option ℕ
unfolding text_eq
import_at n [] = none
import_at n (im ∷ ims) =
    if text_eq im.name n
    then some 0
    else elim (import_at n ims) [ none ↦ none | some k ↦ some (suc k) ]

abbrev pub import_slot : Option ℕ → Import → List Import → List Import × ℕ
import_slot none im ims = (ims ++ im ∷ [], length ims)
import_slot (some k) im ims = (ims, k)

-- The imports so far, and `imp_map`.
unfoldable pub add_imports : List Import → List Import → List Import × List ℕ
unfolding import_at
add_imports all [] = (all, [])
add_imports all (im ∷ ims) =
    let here = import_slot (import_at im.name all) im all in
    let rest = add_imports here.0 ims in (rest.0, here.1 ∷ rest.1)

-- What the instructions of a unit are merged with.
pub record UnitBase : Type 0 where
  pub labels : List (Text × ℕ)
  pub name : Text
  pub offset : ℕ
  pub strings : ℕ
  pub imports : List ℕ

abbrev pub import_call : Option ℕ → ℕ → Outcome MergeError Ins
import_call none ii = err (no_import ii)
import_call (some k) ii = ok (call_ext k)

abbrev pub merge_meta : UnitBase → WeaveMeta → WeaveMeta
merge_meta u t = record {
  name = file_var u.name t.name;
  pc = t.pc + u.offset;
  inputs = t.inputs;
  count = t.count;
}

unfoldable pub merge_ins : UnitBase → Ins → Outcome MergeError Ins
unfolding local_label file_var
merge_ins u (push_s i) = ok (push_s (i + u.strings))
merge_ins u (push_addr l) = ok (push_addr (local_label u.labels u.name l))
merge_ins u (goto l) = ok (goto (local_label u.labels u.name l))
merge_ins u (call l) = ok (call (local_label u.labels u.name l))
merge_ins u (call_ext ii) = import_call (get_elem? u.imports ii) ii
merge_ins u (set_v v) = ok (set_v (file_var u.name v))
merge_ins u (get_v v) = ok (get_v (file_var u.name v))
merge_ins u (weave ts) = ok (weave (map (merge_meta u) ts))
merge_ins u y = ok y

unfoldable pub merge_code : UnitBase → List Ins → Outcome MergeError (List Ins)
unfolding merge_ins
merge_code u [] = ok []
merge_code u (y ∷ code) = merge_ins u y >>= λ y'. merge_code u code >>= λ code'. ok (y' ∷ code')

-- `insert` of a map by names.
unfoldable pub put_label : Text → ℕ → List (Text × ℕ) → List (Text × ℕ)
unfolding text_eq
put_label l pc [] = (l, pc) ∷ []
put_label l pc ((n, q) ∷ labels) =
    let later = put_label l pc labels in (if text_eq n l then (l, pc) ∷ labels else (n, q) ∷ later)

unfoldable pub add_labels : Text → ℕ → List (Text × ℕ) → List (Text × ℕ) → List (Text × ℕ)
unfolding put_label mangle
add_labels m off [] all = all
add_labels m off ((l, pc) ∷ labels) all =
    add_labels m off labels (put_label (mangle m l) (pc + off) all)

abbrev pub pub_at :
    Option ℕ → Option ℕ → Text → ℕ → List (Text × ℕ) → Outcome MergeError (List (Text × ℕ))
pub_at (some _) own n off all = err (duplicate_pub n)
pub_at none none n off all = err (no_label n)
pub_at none (some pc) n off all = ok (put_label n (pc + off) all)

unfoldable pub add_pubs :
    List (Text × ℕ) → ℕ → List Text → List (Text × ℕ) → Outcome MergeError (List (Text × ℕ))
unfolding entry put_label
add_pubs labels off [] all = ok all
add_pubs labels off (n ∷ pubs) all =
    pub_at (entry all n) (entry labels n) n off all >>= λ all'. add_pubs labels off pubs all'

-- `if !v.contains(e) { v.push(e.clone()); }` for each
unfoldable pub push_missing : List Text → List Text → List Text
unfolding contains
push_missing all [] = all
push_missing all (e ∷ es) = push_missing (if contains all e then all else all ++ e ∷ []) es

unfoldable pub put_shifted : {A : Type 0} → ℕ → List (ℕ × A) → List (ℕ × A) → List (ℕ × A)
unfolding put_key
put_shifted off [] all = all
put_shifted off ((pc, a) ∷ m) all = put_shifted off m (put_key (pc + off) a all)

abbrev pub first_entry : ℕ → Text → Option Text → Option Text → Option Text
first_entry zero m (some l) e = some (mangle m l)
first_entry _ m _ e = e

abbrev pub module_name : Parsed → Text → Text
module_name tu defmod = name_or defmod tu.modname

abbrev pub base_of : Parsed → Parsed → Text → UnitBase
base_of m tu name = record {
  labels = tu.labels;
  name = name;
  offset = length m.ins;
  strings = length m.strings;
  imports = (add_imports m.imports tu.imports).1;
}

-- The merged unit with one more, from its instructions and the labels.
abbrev pub extended : Parsed → Parsed → Text → ℕ → Bool → List Ins → List (Text × ℕ) → Parsed
extended m tu name idx is_init code labels = record m {
  ins = m.ins ++ (code ++ ret ∷ []);
  labels = labels;
  imports = (add_imports m.imports tu.imports).0;
  strings = m.strings ++ tu.strings;
  externs = push_missing m.externs tu.externs;
  uses = push_missing m.uses tu.uses;
  vars = m.vars ++ map (file_var name) tu.vars;
  pubs = m.pubs ++ tu.pubs;
  exports = m.exports ++ map (λ (c, l). (c, local_label tu.labels name l)) tu.exports;
  methods = m.methods ++ map (λ (k, h, l). (k, h, local_label tu.labels name l)) tu.methods;
  init_pcs = if is_init then m.init_pcs ++ length m.ins ∷ [] else m.init_pcs;
  entry_label = first_entry idx name tu.entry_label m.entry_label;
  label_params = put_shifted (length m.ins) tu.label_params m.label_params;
  param_pcs = put_shifted (length m.ins) tu.param_pcs m.param_pcs;
}

-- One turn of the loop over the units.
unfoldable pub merge_unit : Parsed → Parsed → Text → ℕ → Bool → Outcome MergeError Parsed
unfolding merge_code add_labels add_pubs add_imports push_missing put_shifted local_label file_var
merge_unit m tu name idx is_init = merge_code (base_of m tu name) tu.ins >>= λ code.
    add_pubs tu.labels (length m.ins) tu.pubs (add_labels name (length m.ins) tu.labels m.labels)
    >>= λ labels. ok (extended m tu name idx is_init code labels)

abbrev pub flag : Option Bool → Bool
flag none = false
flag (some b) = b

unfoldable pub merge_units :
    Parsed → ℕ → List Bool → List Parsed → List Text → Outcome MergeError Parsed
unfolding merge_unit
merge_units m idx flags (tu ∷ tus) (d ∷ mods) =
    merge_unit m tu (module_name tu d) idx (flag (get_elem? flags idx)) >>= λ m'.
    merge_units m' (suc idx) flags tus mods
merge_units m idx flags _ _ = ok m

-- `tu_shared`: each unit's assignments before its first label.
unfoldable pub units_shared : List Parsed → List Text → List Text
unfolding straight_names first_label_pc
units_shared (tu ∷ tus) (d ∷ mods) =
    straight_names tu.param_pcs (first_label_pc tu) 0 tu.ins ++ units_shared tus mods
units_shared _ _ = []

abbrev pub scoped : Outcome ScopeError Parsed → Outcome MergeError Parsed
scoped (ok p) = ok p
scoped (err e) = err (scope e)

unfoldable pub merge_tus : List Parsed → List Text → List Bool → Outcome MergeError Parsed
unfolding merge_units units_shared resolve_locals
merge_tus tus mods flags =
    merge_units no_code 0 flags tus mods >>= λ m. scoped (resolve_locals m (units_shared tus mods))
