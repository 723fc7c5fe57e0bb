-- ===== src/Compute/Machine.antt =====
-- What a task's code does to a stack and to locals when it runs on the CPU, and the value of a
-- kernel's expression, over any numbers, to compare the analysis of a task with. As in the code that
-- comp/src/gen.rs emits for them, an input bind takes its value off the stack and any other assignment
-- leaves it there; as in comp/src/prelude.rs, integers stay integers, and a division by zero stops the
-- run. A task ends with the cells that stand at its return: what `ret` makes of more than one is not
-- modelled.
use u_flux.Prelude.{
  Bool, true, false, ◌&&◌, ◌||◌, not, drop, ℕ, zero, suc, List, [], ◌∷◌, Option, none, some, ◌+◌,
  Outcome, ok, err, if◌then◌else◌, Text, codes, text_eq, ℤ,
}
use u_flux.Compute.Expr.{TExpr, input, const, add, sub, mul, div, sqrt, on_one, on_both}
use u_flux.Comp.Ast.{
  Ins, push_i, push_f, simple, ret, flush, local_set, local_get, local_set_i, local_get_i, Parsed,
  bind_pcs,
}
use u_flux.Compute.Tasks.{Slot, id_slot, name_slot, Locals, get, contains_key}

-- The arithmetic of C on doubles `D` and on 64-bit integers.
pub record Numbers (D : Type 0) : Type 0 where
  pub literal : ℕ → D
  pub plus : D → D → D
  pub minus : D → D → D
  pub times : D → D → D
  pub over : D → D → D
  pub root : D → D
  pub is_zero : D → Bool
  pub as_double : ℤ → D
  pub int_plus : ℤ → ℤ → ℤ
  pub int_minus : ℤ → ℤ → ℤ
  pub int_times : ℤ → ℤ → ℤ
  pub int_over : ℤ → ℤ → ℤ

-- `T_FLOAT` and `T_INT`
pub data Cell (D : Type 0) : Type 0 where
  real : D → Cell D
  whole : ℤ → Cell D

-- A run ends early at what the analysis knows nothing of, or at a division by zero.
pub data Stop : Type 0 where
  stuck by_zero : Stop

pub record Frame (D : Type 0) : Type 0 where
  pub stack : List (Cell D)
  pub locals : Locals (Cell D)

abbrev pub push : {D : Type 0} → Frame D → Option (Cell D) → Outcome Stop (Frame D)
push fr none = err stuck
push fr (some d) = ok (record fr { stack = d ∷ fr.stack })

abbrev pub store : {D : Type 0} → Frame D → Slot → List (Cell D) → Outcome Stop (Frame D)
store fr x [] = err stuck
store fr x (d ∷ ds) = ok (record fr { stack = ds; locals = (x, d) ∷ fr.locals })

-- An assignment leaves its value on the stack.
abbrev pub keep : {D : Type 0} → Frame D → Slot → List (Cell D) → Outcome Stop (Frame D)
keep fr x [] = err stuck
keep fr x (d ∷ ds) = ok (record fr { locals = (x, d) ∷ fr.locals })

abbrev pub put : {D : Type 0} → Frame D → Cell D → List (Cell D) → Outcome Stop (Frame D)
put fr d ds = ok (record fr { stack = d ∷ ds })

-- The stack of a task's inputs, the last one on top.
unfoldable pub stacked : {D : Type 0} → (ℕ → D) → ℕ → List (Cell D)
stacked x zero = []
stacked x (suc n) = real (x n) ∷ stacked x n

abbrev pub cells_of : {D : Type 0} → Outcome Stop (Frame D) → Outcome Stop (List (Cell D))
cells_of (err e) = err e
cells_of (ok fr) = ok fr.stack

module _ {D : Type 0} (r : Numbers D) where
  -- `uf_to_number`
  abbrev pub number : Cell D → D
  number (real d) = d
  number (whole n) = r.as_double n

  abbrev pub on_cells : (D → D → D) → (ℤ → ℤ → ℤ) → Cell D → Cell D → Cell D
  on_cells f g (whole m) (whole n) = whole (g m n)
  on_cells f g a b = real (f (number a) (number b))

  abbrev pub on_two : Frame D → (D → D → D) → (ℤ → ℤ → ℤ) → List (Cell D) → Outcome Stop (Frame D)
  on_two fr f g (b ∷ a ∷ ds) = put fr (on_cells f g a b) ds
  on_two fr f g _ = err stuck

  -- `uf_cdiv`
  abbrev pub divide : Frame D → List (Cell D) → Outcome Stop (Frame D)
  divide fr (b ∷ a ∷ ds) =
      if r.is_zero (number b) then err by_zero else put fr (on_cells r.over r.int_over a b) ds
  divide fr _ = err stuck

  abbrev pub on_top : Frame D → List (Cell D) → Outcome Stop (Frame D)
  on_top fr (a ∷ ds) = put fr (real (r.root (number a))) ds
  on_top fr _ = err stuck

  unfoldable pub operated : Text → Frame D → Outcome Stop (Frame D)
  unfolding text_eq
  operated h fr =
      if text_eq h (codes "op_add")
      then on_two fr r.plus r.int_plus fr.stack
      else if text_eq h (codes "op_sub")
      then on_two fr r.minus r.int_minus fr.stack
      else if text_eq h (codes "op_mul")
      then on_two fr r.times r.int_times fr.stack
      else if text_eq h (codes "op_div")
      then divide fr fr.stack
      else if text_eq h (codes "op_sqrt")
      then on_top fr fr.stack
      else err stuck

  unfoldable pub exec : Ins → Frame D → Outcome Stop (Frame D)
  unfolding get operated
  exec (push_f v) fr = push fr (some (real (r.literal v)))
  exec (push_i v) fr = push fr (some (whole v))
  exec (local_get_i i) fr = push fr (get fr.locals (id_slot i))
  exec (local_get n) fr = push fr (get fr.locals (name_slot n))
  exec (local_set_i i) fr = keep fr (id_slot i) fr.stack
  exec (local_set n) fr = keep fr (name_slot n) fr.stack
  exec (simple h) fr = operated h fr
  exec flush fr = ok fr
  exec _ fr = err stuck

  -- An input bind takes its value off the stack.
  abbrev pub exec_at : Bool → Ins → Frame D → Outcome Stop (Frame D)
  exec_at true (local_set_i i) fr = store fr (id_slot i) fr.stack
  exec_at true (local_set n) fr = store fr (name_slot n) fr.stack
  exec_at _ y fr = exec y fr

  -- From instruction `i` on, up to the return.
  unfoldable pub run : List ℕ → ℕ → List Ins → Frame D → Outcome Stop (Frame D)
  unfolding exec contains_key
  run keys i [] fr = ok fr
  run keys i (ret ∷ code) fr = ok fr
  run keys i (x ∷ code) fr = elim (exec_at (contains_key keys i) x fr) [
    | err e ↦ err e
    | ok t ↦ run keys (i + 1) code t
  ]

  -- The cells at a task's return, on `n` inputs.
  unfoldable pub task_cells : Parsed → ℕ → (ℕ → D) → ℕ → Outcome Stop (List (Cell D))
  unfolding run stacked
  task_cells p tpc x n =
      cells_of (run (bind_pcs p) tpc (drop tpc p.ins) (record { stack = stacked x n; locals = [] }))

-- A store to a local, or an integer literal.
abbrev pub is_barred : Ins → Bool
is_barred (local_set_i i) = true
is_barred (local_set n) = true
is_barred (push_i v) = true
is_barred _ = false

-- Up to the return, nothing but the input binds stores to a local, and there is no integer literal.
unfoldable pub real_code : List ℕ → ℕ → List Ins → Bool
unfolding contains_key
real_code keys i [] = true
real_code keys i (ret ∷ code) = true
real_code keys i (x ∷ code) =
    (contains_key keys i || not (is_barred x)) && real_code keys (i + 1) code

-- The value of an elementwise expression, at one element of the inputs.
unfoldable pub eval : {D : Type 0} → Numbers D → (ℕ → D) → TExpr → Option D
eval r x (input i) = some (x i)
eval r x (const v) = some (r.literal v)
eval r x (add a b) = on_both r.plus (eval r x a) (eval r x b)
eval r x (sub a b) = on_both r.minus (eval r x a) (eval r x b)
eval r x (mul a b) = on_both r.times (eval r x a) (eval r x b)
eval r x (div a b) = on_both r.over (eval r x a) (eval r x b)
eval r x (sqrt a) = on_one r.root (eval r x a)
eval r x _ = none
