-- ===== src/Comp/Heights.antt =====
-- How many cells a block of code leaves on the stack when it runs, as comp/src/gen.rs emits the
-- instructions, to compare the check of comp/src/parse.rs with. The bodies of structured control leave
-- the stack as they find it, and an operation has the effect of `op_cells`.
use u_flux.Prelude.{
  ℕ, ◌+◌, ◌-◌, Bool, true, false, not, ◌||◌, List, [], ◌∷◌, Option, none, some, ltb, leb,
  if◌then◌else◌, codes, text_eq, length, get_elem?, Outcome, ok, err, ◌>>=◌,
}
use u_flux.Comp.Ast.{
  Ins, push_i, push_f, push_s, push_addr, simple, for_, ret, call, call_ext, set_v, get_v,
  atomic_add, nop, strict, loose, local_set, local_get, local_set_i, local_get_i, sys, list_start,
  dict_start, list_lit, dict_lit, if_, if_else, while_, Import, Parsed,
}
use u_flux.Comp.Opcodes.{entry}
use u_flux.Comp.OpCells.{op_cells}
use u_flux.Comp.Arity.{has_key, params_of, is_variadic, is_entry}

-- Why a run ends before its block does: control leaves the block, the effect is not modelled, the stack
-- is too short for an operation, or it lacks arguments of a call.
pub data End : Type 0 where
  leaves unknown underflow short : End

pub record Cells : Type 0 where
  pub cells : ℕ
  pub marks : List ℕ

abbrev pub take_put : ℕ → ℕ → Cells → Outcome End Cells
take_put pops pushes m =
    if leb pops m.cells then ok (record m { cells = m.cells - pops + pushes }) else err underflow

abbrev pub effect : Option (ℕ × ℕ) → Cells → Outcome End Cells
effect none m = err unknown
effect (some (pops, pushes)) m = take_put pops pushes m

abbrev pub pass : ℕ → Cells → Outcome End Cells
pass arity m =
    if ltb m.cells arity then err short else ok (record m { cells = m.cells - arity + 1 })

abbrev pub enter : Parsed → Option ℕ → Cells → Outcome End Cells
enter p none m = err unknown
enter p (some tp) m = pass (length (params_of p tp)) m

abbrev pub foreign : Option Import → Cells → Outcome End Cells
foreign none m = err unknown
foreign (some im) m =
    if is_variadic im
    then err unknown
    else take_put (length im.params) (if text_eq im.ret (codes "void") then 0 else 1) m

abbrev pub close_at : List ℕ → ℕ → Outcome End Cells
close_at [] c = err unknown
close_at (k ∷ ks) c = if leb k c then ok (record { cells = k + 1; marks = ks }) else err underflow

-- An input bind takes its cell.
abbrev pub bound_or : Bool → ℕ → ℕ → Cells → Outcome End Cells
bound_or true pops pushes m = take_put 1 0 m
bound_or false pops pushes m = take_put pops pushes m

unfoldable pub run_ins : Parsed → ℕ → Ins → Cells → Outcome End Cells
unfolding has_key params_of is_variadic op_cells entry
run_ins p i (push_i _) m = take_put 0 1 m
run_ins p i (push_f _) m = take_put 0 1 m
run_ins p i (push_s _) m = take_put 0 1 m
run_ins p i (push_addr _) m = take_put 0 1 m
run_ins p i (simple h) m = if has_key p.param_pcs i then take_put 1 0 m else effect (op_cells h) m
run_ins p i (call l) m = enter p (entry p.labels l) m
run_ins p i (call_ext ii) m = foreign (get_elem? p.imports ii) m
run_ins p i for_ m = take_put 2 0 m
run_ins p i while_ m = take_put 2 0 m
run_ins p i if_ m = take_put 2 0 m
run_ins p i if_else m = take_put 3 0 m
run_ins p i (sys n) m = take_put (n + 1) 1 m
run_ins p i list_start m = ok (record m { marks = m.cells ∷ m.marks })
run_ins p i dict_start m = ok (record m { marks = m.cells ∷ m.marks })
run_ins p i list_lit m = close_at m.marks m.cells
run_ins p i dict_lit m = close_at m.marks m.cells
run_ins p i strict m = ok m
run_ins p i loose m = ok m
run_ins p i nop m = ok m
-- A store to a shared variable takes its value, one to a local leaves it.
run_ins p i (set_v _) m = take_put 1 0 m
run_ins p i (local_set _) m = bound_or (has_key p.param_pcs i) 1 1 m
run_ins p i (local_set_i _) m = bound_or (has_key p.param_pcs i) 1 1 m
run_ins p i (get_v _) m = bound_or (has_key p.param_pcs i) 0 1 m
run_ins p i (local_get _) m = bound_or (has_key p.param_pcs i) 0 1 m
run_ins p i (local_get_i _) m = bound_or (has_key p.param_pcs i) 0 1 m
run_ins p i (atomic_add _ true) m = bound_or (has_key p.param_pcs i) 0 1 m
run_ins p i (atomic_add _ false) m = bound_or (has_key p.param_pcs i) 1 1 m
run_ins p i ret m = err leaves
run_ins p i _ m = err unknown

-- The run of a block from the position `i`, to the next label.
unfoldable pub run_block : Parsed → ℕ → List Ins → Cells → Outcome End Cells
unfolding run_ins is_entry
run_block p i [] m = ok m
run_block p i (y ∷ code) m = run_ins p i y m >>= λ m'. elim (is_entry p.labels (i + 1)) [
  | true ↦ ok m'
  | false ↦ run_block p (i + 1) code m'
]

abbrev pub is_effect : Option (ℕ × ℕ) → Bool
is_effect none = false
is_effect (some e) = true

abbrev pub is_fixed : Option Import → Bool
is_fixed none = false
is_fixed (some im) = not (is_variadic im)

abbrev pub is_found : Option ℕ → Bool
is_found none = false
is_found (some tp) = true

-- The instructions whose effect is modelled and that the check counts as they run: a store to a shared
-- variable that is no input bind takes a cell, and an addition to one pops what it adds, which the
-- check leaves out; the scope pass erases every `nop`.
unfoldable pub is_counted : Parsed → ℕ → Ins → Bool
unfolding has_key op_cells entry is_variadic
is_counted p i (set_v _) = has_key p.param_pcs i
is_counted p i (atomic_add _ false) = has_key p.param_pcs i
is_counted p i (atomic_add _ true) = true
is_counted p i (simple h) = has_key p.param_pcs i || is_effect (op_cells h)
is_counted p i (call l) = is_found (entry p.labels l)
is_counted p i (call_ext ii) = is_fixed (get_elem? p.imports ii)
is_counted p i (push_i _) = true
is_counted p i (push_f _) = true
is_counted p i (push_s _) = true
is_counted p i (push_addr _) = true
is_counted p i for_ = true
is_counted p i while_ = true
is_counted p i if_ = true
is_counted p i if_else = true
is_counted p i (sys n) = true
is_counted p i list_start = true
is_counted p i dict_start = true
is_counted p i list_lit = true
is_counted p i dict_lit = true
is_counted p i strict = true
is_counted p i loose = true
is_counted p i (local_set _) = true
is_counted p i (local_set_i _) = true
is_counted p i (get_v _) = true
is_counted p i (local_get _) = true
is_counted p i (local_get_i _) = true
is_counted p i ret = true
is_counted p i _ = false
