-- ===== src/Comp/Arity.antt =====
-- `check_label_arity` of comp/src/parse.rs: at every call, the stack depth that is known statically
-- covers the parameters of the callee. A depth is an i64, and does not reach its bounds: a program has
-- fewer instructions than 2^62.
use u_flux.Prelude.{
  ℕ, ◌+◌, ◌-◌, Bool, true, false, ◌||◌, List, [], ◌∷◌, any, Option, none, some, ltb, leb, ◌==◌,
  if◌then◌else◌, Text, codes, text_eq, length, get_elem?, ℤ, pos, negsuc, int_eq, plus_ℕ, minus_ℕ,
  lt_ℕ, positive, Outcome, ok, err, ◌>>=◌,
}
use u_flux.Comp.Ast.{
  Ins, push_i, push_f, push_s, push_addr, simple, for_, call, call_ext, ret, set_v, get_v,
  inc_local, add_local, inc_global, add_global, atomic_add, nop, strict, loose, local_set,
  local_get, local_set_i, local_get_i, extern, send, weave, sys, flush, list_start, dict_start,
  list_lit, dict_lit, if_, if_else, while_, break_, cont, goto, Import, Param, local, global,
  discard, Parsed,
}
use u_flux.Comp.Opcodes.{entry}
use u_flux.Comp.Effects.{helper_effect}

pub data ArityError : Type 0 where
  -- The label, its parameters, the depth of the call site and the number of values missing.
  missing_values : Text → List Text → ℤ → ℕ → ArityError
  -- The index that `p.imports[*ii]` panics on.
  no_import : ℕ → ArityError

unfoldable pub has_key : {A : Type 0} → List (ℕ × A) → ℕ → Bool
has_key [] pc = false
has_key ((k, a) ∷ m) pc = k == pc || has_key m pc

unfoldable pub at_key : {A : Type 0} → List (ℕ × A) → ℕ → Option A
at_key [] pc = none
at_key ((k, a) ∷ m) pc = if k == pc then some a else at_key m pc

-- `arity_at`: the parameters of the nearest label at or before `pc` that declares any.
abbrev pub later_than : ℕ → Option (ℕ × ℕ) → Bool
later_than l none = true
later_than l (some (b, _)) = ltb b l

unfoldable pub nearest : ℕ → Option (ℕ × ℕ) → List (ℕ × List Param) → Option (ℕ × ℕ)
nearest pc best [] = best
nearest pc best ((l, ps) ∷ rest) =
    nearest pc
      (elim (leb l pc) [
        | true ↦ elim (later_than l best) [ true ↦ some (l, length ps) | false ↦ best ]
        | false ↦ best
      ])
      rest

abbrev pub count_of : Option (ℕ × ℕ) → ℕ
count_of none = 0
count_of (some (_, n)) = n

unfoldable pub arity_at : Parsed → ℕ → ℕ
unfolding nearest
arity_at p pc = count_of (nearest pc none p.label_params)

-- `label_params.get(&tp).map(|v| v.len()).unwrap_or(0)`
abbrev pub params_or : Option (List Param) → List Param
params_or none = []
params_or (some ps) = ps

unfoldable pub params_of : Parsed → ℕ → List Param
unfolding at_key
params_of p tp = params_or (at_key p.label_params tp)

abbrev pub param_names : List Param → List Text
param_names [] = []
param_names (local n ∷ ps) = n ∷ param_names ps
param_names (global n ∷ ps) = n ∷ param_names ps
param_names (discard ∷ ps) = codes "_!" ∷ param_names ps

-- The depth, if it is known, and the depths at the list literals that are open, -1 for an unknown one.
pub record Depth : Type 0 where
  pub depth : Option ℤ
  pub marks : List ℤ

abbrev pub moved : ℕ → ℕ → Depth → Depth
moved pops pushes s = record s {
  depth = elim s.depth [ none ↦ none | some d ↦ some (plus_ℕ (minus_ℕ d pops) pushes) ];
}

abbrev pub lost : Depth → Depth
lost s = record s { depth = none }

abbrev pub by_effect : Option (ℕ × ℕ) → Depth → Depth
by_effect none s = lost s
by_effect (some (pops, pushes)) s = moved pops pushes s

abbrev pub or_minus_one : Option ℤ → ℤ
or_minus_one none = negsuc 0
or_minus_one (some d) = d

abbrev pub opened : Depth → Depth
opened s = record s { marks = or_minus_one s.depth ∷ s.marks }

abbrev pub closed_at : List ℤ → Option ℤ → Depth
closed_at [] d = record { depth = d; marks = [] }
closed_at (m ∷ ms) d = record {
  depth = if int_eq m (negsuc 0) then none else some (plus_ℕ m 1);
  marks = ms;
}

abbrev pub closed : Depth → Depth
closed s = closed_at s.marks s.depth

abbrev pub call_at : Text → List Param → Option ℤ → Depth → Outcome ArityError Depth
call_at l ps none s = ok (lost s)
call_at l ps (some d) s =
    if lt_ℕ d (length ps)
    then err (missing_values l (param_names ps) d (length ps - positive d))
    else ok (moved (length ps) 1 s)

abbrev pub call_to : Parsed → Text → Option ℕ → Depth → Outcome ArityError Depth
call_to p l none s = ok (lost s)
call_to p l (some tp) s = call_at l (params_of p tp) s.depth s

-- `x == "..."` among the parameters, or the result.
unfoldable pub is_variadic : Import → Bool
unfolding text_eq
is_variadic im = any (λ x. text_eq x (codes "...")) im.params || text_eq im.ret (codes "...")

abbrev pub import_call : Option Import → ℕ → Depth → Outcome ArityError Depth
import_call none ii s = err (no_import ii)
import_call (some im) ii s =
    if is_variadic im
    then ok (lost s)
    else ok (moved (length im.params) (if text_eq im.ret (codes "void") then 0 else 1) s)

-- An assignment, a read or an addition: an input bind takes one cell.
abbrev pub bind_or : Bool → ℕ → Depth → Depth
bind_or true net s = moved 1 0 s
bind_or false net s = moved 0 net s

unfoldable pub check_ins : Parsed → ℕ → Ins → Depth → Outcome ArityError Depth
unfolding has_key params_of is_variadic helper_effect entry
check_ins p i (push_i _) s = ok (moved 0 1 s)
check_ins p i (push_f _) s = ok (moved 0 1 s)
check_ins p i (push_s _) s = ok (moved 0 1 s)
check_ins p i (push_addr _) s = ok (moved 0 1 s)
check_ins p i (simple h) s =
    ok (if has_key p.param_pcs i then moved 1 0 s else by_effect (helper_effect h) s)
check_ins p i (call l) s = call_to p l (entry p.labels l) s
check_ins p i (call_ext ii) s = import_call (get_elem? p.imports ii) ii s
check_ins p i for_ s = ok (moved 2 0 s)
check_ins p i while_ s = ok (moved 2 0 s)
check_ins p i if_ s = ok (moved 2 0 s)
check_ins p i if_else s = ok (moved 3 0 s)
check_ins p i (sys n) s = ok (moved (n + 1) 1 s)
check_ins p i send s = ok (moved 2 0 s)
check_ins p i list_start s = ok (opened s)
check_ins p i dict_start s = ok (opened s)
check_ins p i list_lit s = ok (closed s)
check_ins p i dict_lit s = ok (closed s)
check_ins p i strict s = ok s
check_ins p i loose s = ok s
check_ins p i ret s = ok (lost s)
check_ins p i break_ s = ok (lost s)
check_ins p i cont s = ok (lost s)
check_ins p i (goto _) s = ok (lost s)
check_ins p i (weave _) s = ok (lost s)
check_ins p i (extern _) s = ok (lost s)
check_ins p i flush s = ok (lost s)
check_ins p i (set_v _) s = ok (bind_or (has_key p.param_pcs i) 0 s)
check_ins p i (local_set _) s = ok (bind_or (has_key p.param_pcs i) 0 s)
check_ins p i (local_set_i _) s = ok (bind_or (has_key p.param_pcs i) 0 s)
check_ins p i (get_v _) s = ok (bind_or (has_key p.param_pcs i) 1 s)
check_ins p i (local_get _) s = ok (bind_or (has_key p.param_pcs i) 1 s)
check_ins p i (local_get_i _) s = ok (bind_or (has_key p.param_pcs i) 1 s)
check_ins p i (atomic_add _ _) s = ok (bind_or (has_key p.param_pcs i) 1 s)
check_ins p i nop s = ok (bind_or (has_key p.param_pcs i) 1 s)
check_ins p i (inc_local _) s = ok (bind_or (has_key p.param_pcs i) 1 s)
check_ins p i (add_local _) s = ok (bind_or (has_key p.param_pcs i) 1 s)
check_ins p i (inc_global _) s = ok (bind_or (has_key p.param_pcs i) 1 s)
check_ins p i (add_global _) s = ok (bind_or (has_key p.param_pcs i) 1 s)

-- `is_label_entry`
unfoldable pub is_entry : List (Text × ℕ) → ℕ → Bool
is_entry [] i = i == 0
is_entry ((_, pc) ∷ labels) i = pc == i || is_entry labels i

abbrev pub at_boundary : Bool → Parsed → ℕ → Depth → Depth
at_boundary true p i s = record { depth = some (pos (arity_at p i)); marks = [] }
at_boundary false p i s = s

unfoldable pub check_from : Parsed → ℕ → List Ins → Depth → Outcome ArityError (Unit {0})
unfolding check_ins is_entry arity_at
check_from p i [] s = ok tt
check_from p i (y ∷ code) s =
    check_ins p i y (at_boundary (is_entry p.labels i) p i s) >>= λ s'. check_from p (i + 1) code s'

unfoldable pub check_label_arity : Parsed → Outcome ArityError (Unit {0})
unfolding check_from
check_label_arity p = check_from p 0 p.ins (record { depth = some (pos 0); marks = [] })
