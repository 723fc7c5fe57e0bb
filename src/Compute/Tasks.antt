-- ===== src/Compute/Tasks.antt =====
-- `analyze_one_task` of comp/src/compute.rs: the expression that a task's straight-line code
-- computes. An f64 is the number of its bits; `v as f64` for an i64 is the parameter `as_f64`.
use u_flux.Prelude.{
  ℕ, zero, suc, ◌+◌, ◌-◌, Bool, true, false, List, [], ◌∷◌, Option, none, some, ◌==◌, if◌then◌else◌,
  Text, codes, text_eq, drop, ℤ,
}
use u_flux.Comp.Ast.{
  Ins, push_i, push_f, simple, ret, flush, local_set, local_get, local_set_i, local_get_i, Parsed,
  bind_pcs,
}
use u_flux.Compute.Expr.{TExpr, input, const, add, sub, mul, div, sqrt}

pub data Value : Type 0 where
  e_value : TExpr → Value
  opaque : Value

pub data Slot : Type 0 where
  id_slot : ℕ → Slot
  name_slot : Text → Slot

abbrev pub slot_eq : Slot → Slot → Bool
slot_eq (id_slot i) (id_slot j) = i == j
slot_eq (name_slot m) (name_slot n) = text_eq m n
slot_eq _ _ = false

-- A map of slots: the latest entry first.
abbrev pub Locals : Type 0 → Type 0
Locals A = List (Slot × A)

unfoldable pub get : {A : Type 0} → Locals A → Slot → Option A
unfolding text_eq
get [] x = none
get ((y, a) ∷ ls) x = if slot_eq y x then some a else get ls x

unfoldable pub contains_key : List ℕ → ℕ → Bool
contains_key [] i = false
contains_key (k ∷ ks) i = if k == i then true else contains_key ks i

-- `while contains_key(tpc + params) { params += 1 }`, from `i`, on fuel.
unfoldable pub count_params : ℕ → List ℕ → ℕ → ℕ
unfolding contains_key
count_params zero keys i = 0
count_params (suc f) keys i =
    let more = count_params f keys (i + 1) in (if contains_key keys i then more + 1 else 0)

-- More than every key, so that the loop has ended.
unfoldable pub key_bound : List ℕ → ℕ
key_bound [] = 1
key_bound (k ∷ ks) = k + 1 + key_bound ks

pub record State : Type 0 where
  pub stack : List Value
  pub locals : Locals Value
  pub inputs_left : ℕ

-- The slot that an instruction stores to, for an input bind.
abbrev pub bind_slot : Ins → Option Slot
bind_slot (local_set_i i) = some (id_slot i)
bind_slot (local_set n) = some (name_slot n)
bind_slot _ = none

abbrev pub bound : State → ℕ → Option Slot → Option State
bound st n none = none
bound st n (some x) =
    some (record st { locals = (x, e_value (input n)) ∷ st.locals; inputs_left = n })

-- An input bind.
unfoldable pub bind_input : State → Ins → Option State
bind_input st ins =
    if st.inputs_left == 0 then none else bound st (st.inputs_left - 1) (bind_slot ins)

abbrev pub pushed : State → Option Value → Option State
pushed st none = none
pushed st (some v) = some (record st { stack = v ∷ st.stack })

abbrev pub stored : State → Slot → List Value → Option State
stored st x [] = none
stored st x (v ∷ vs) = some (record st { stack = vs; locals = (x, v) ∷ st.locals })

abbrev pub rooted : State → List Value → Option State
rooted st (e_value a ∷ vs) = some (record st { stack = e_value (sqrt a) ∷ vs })
rooted st _ = none

abbrev pub combined : State → (TExpr → TExpr → TExpr) → List Value → Option State
combined st f (e_value b ∷ e_value a ∷ vs) = some (record st { stack = e_value (f a b) ∷ vs })
combined st f _ = none

unfoldable pub operate : Text → State → Option State
unfolding text_eq
operate h st =
    if text_eq h (codes "op_add")
    then combined st add st.stack
    else if text_eq h (codes "op_sub")
    then combined st sub st.stack
    else if text_eq h (codes "op_mul")
    then combined st mul st.stack
    else if text_eq h (codes "op_div")
    then combined st div st.stack
    else if text_eq h (codes "op_sqrt")
    then rooted st st.stack
    else none

-- The number of inputs and the expression on top, when all inputs are bound.
abbrev pub top : ℕ → List Value → Option (ℕ × TExpr)
top params (e_value e ∷ vs) = some (params, e)
top params _ = none

abbrev pub finished : ℕ → Option State → Option (ℕ × TExpr)
finished params none = none
finished params (some st) = if st.inputs_left == 0 then top params st.stack else none

module _ (as_f64 : ℤ → ℕ) where
  -- Any other instruction than a return or a bind.
  unfoldable pub step : Ins → State → Option State
  unfolding get operate
  step (local_get_i i) st = pushed st (get st.locals (id_slot i))
  step (local_get n) st = pushed st (get st.locals (name_slot n))
  step (push_f v) st = some (record st { stack = e_value (const v) ∷ st.stack })
  step (push_i v) st = some (record st { stack = e_value (const (as_f64 v)) ∷ st.stack })
  step (simple h) st = operate h st
  step (local_set_i i) st = stored st (id_slot i) st.stack
  step (local_set n) st = stored st (name_slot n) st.stack
  step flush st = some st
  step _ st = none

  abbrev pub step_at : Bool → Ins → State → Option State
  step_at true ins st = bind_input st ins
  step_at false ins st = step ins st

  -- The loop from instruction `i` on, up to the return.
  unfoldable pub simulate : List ℕ → ℕ → List Ins → State → Option State
  unfolding step bind_input contains_key
  simulate keys i [] st = some st
  simulate keys i (ret ∷ code) st = some st
  simulate keys i (x ∷ code) st = elim (step_at (contains_key keys i) x st) [
    | none ↦ none
    | some t ↦ simulate keys (i + 1) code t
  ]

  unfoldable pub analyze_one_task : Parsed → ℕ → Option (ℕ × TExpr)
  unfolding simulate count_params key_bound
  analyze_one_task p tpc =
      let params = count_params (key_bound (bind_pcs p)) (bind_pcs p) tpc in
      finished params (
        simulate (bind_pcs p) tpc (drop tpc p.ins)
          (record { stack = []; locals = []; inputs_left = params }))
