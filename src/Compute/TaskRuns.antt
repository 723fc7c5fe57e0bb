-- ===== src/Compute/TaskRuns.antt =====
-- The expression that the analysis of a task gives, beside what the task's code computes.
use u_flux.Prelude.{
  ℕ, zero, suc, ◌+◌, ◌-◌, ◌<◌, ◌≤◌, ◌≡◌, ◌≢◌, ◌⊎◌, inl, inr, refl, ap, ◌∙◌, arith, Bool, true,
  false, List, [], ◌∷◌, Option, none, some, Outcome, ok, err, ◌==◌, ==_iff, if◌then◌else◌, drop,
  Bool-cases, &&_iff, not, ◌||◌, ℤ,
}
use u_flux.Compute.Inputs.{inputs}
use u_flux.Compute.Expr.{TExpr}
use u_flux.Comp.Ast.{Ins, ret, local_set, local_set_i, Parsed, bind_pcs}
use u_flux.Compute.Tasks.{
  Value, e_value, opaque, Slot, id_slot, name_slot, contains_key, count_params, key_bound, State,
  bind_slot, bound, bind_input, step_at, simulate, top, finished, analyze_one_task,
}
use u_flux.Compute.Params.{count_params-keys}
use u_flux.Compute.Machine.{
  Numbers, Frame, Cell, real, Stop, by_zero, store, exec, run, stacked, exec_at, is_barred,
  real_code, cells_of, task_cells, eval,
}
use u_flux.Compute.TaskSteps.{
  stands, Stacks, bottom, above, unbound, binding, Mirrors, Both, declined, divided, both, Ready,
  step-Both,
}

flip_not : (b : Bool) → not b ≡ true → b ≡ false
flip_not true h = cc
flip_not false h = refl

module _ {D : Type 0} (r : Numbers D) (as_f64 : ℤ → ℕ) (x : ℕ → D) (total : ℕ) where
  -- Either all inputs are bound, or only binds have been met and the next instructions are the rest of
  -- them.
  Ahead : List ℕ → ℕ → State → Type 0
  Ahead keys i st =
      (st.inputs_left ≡ 0)
      ⊎ ((st.stack ≡ [])
          × (st.inputs_left ≤ total)
          × ((j : ℕ) → j < st.inputs_left → contains_key keys (i + j) ≡ true))

  Stacks-bottom :
      {n : ℕ} {vs : List Value} {ds : List (Cell D)}
      → Stacks r as_f64 x total n vs ds
      → vs ≡ []
      → ds ≡ stacked x n
  Stacks-bottom bottom e = refl
  Stacks-bottom (above s k) e = cc

  stacked_step : (n : ℕ) → n ≢ 0 → stacked x n ≡ real (x (n - 1)) ∷ stacked x (n - 1)
  unfolding stacked
  stacked_step zero h = absurd (h refl)
  stacked_step (suc n) h = rw (show_less n) refl
    where
      show_less : (n : ℕ) → suc n - 1 ≡ n
      show_less n = omega arith

  bound-Both :
      (keys : List ℕ) (i : ℕ) (st : State) (fr : Frame D) (y : Slot)
      → Mirrors r as_f64 x total st fr
      → st.inputs_left ≢ 0
      → Ahead keys i st
      → Both r as_f64 x total
          (Ahead keys (i + 1))
          (bound st (st.inputs_left - 1) (some y))
          (store fr y fr.stack)
  unfolding Ahead eval inputs
  bound-Both keys i st fr y m n (inl z) = absurd (n z)
  bound-Both keys i st fr y m n (inr (e, le, ks)) =
      rw (Stacks-bottom m.stacks e ∙ stacked_step st.inputs_left n) (
        both
          (record {
            stacks = rw e bottom;
            bindings = binding y (stands refl (omega arith, tt)) m.bindings;
          })
          (inr (
            e,
            omega arith,
            λ j lt. ap (contains_key keys) (omega arith) ∙ ks (j + 1) (omega (arith, lt)),
          )))

  bind_input-Both :
      (keys : List ℕ) (i : ℕ) (st : State) (fr : Frame D) (y : Ins)
      → Mirrors r as_f64 x total st fr
      → Ahead keys i st
      → Both r as_f64 x total (Ahead keys (i + 1)) (bind_input st y) (exec_at r true y fr)
  unfolding bind_input exec
  bind_input-Both keys i st fr y m a = elim (Bool-cases (st.inputs_left == 0)) [
    | inl e ↦ rw e declined
    | inr n ↦ rw n (by_slot y (λ e. cc (n, (==_iff st.inputs_left 0).1 e)))
  ]
    where
      by_slot :
          (y : Ins)
          → st.inputs_left ≢ 0
          → Both r as_f64 x total
              (Ahead keys (i + 1))
              (bound st (st.inputs_left - 1) (bind_slot y))
              (exec_at r true y fr)
      by_slot (local_set_i k) n = bound-Both keys i st fr (id_slot k) m n a
      by_slot (local_set k) n = bound-Both keys i st fr (name_slot k) m n a
      by_slot _ n = declined

  Both-map :
      {P Q : State → Type 0} {o : Option State} {u : Outcome Stop (Frame D)}
      → ((t : State) → P t → Q t)
      → Both r as_f64 x total P o u
      → Both r as_f64 x total Q o u
  Both-map f declined = declined
  Both-map f divided = divided
  Both-map f (both {st = t} m p) = both m (f t p)

  Ahead-Ready :
      (keys : List ℕ) (i : ℕ) (st : State)
      → Ahead keys i st
      → contains_key keys i ≡ false
      → Ready r as_f64 x total st
  unfolding Ahead
  Ahead-Ready keys i st (inl z) e = z
  Ahead-Ready keys i st (inr (k, le, ks)) e = elim (Bool-cases (st.inputs_left == 0)) [
    | inl z ↦ (==_iff st.inputs_left 0).0 z
    | inr n ↦ cc (e, ks 0 (ground (arith, n)), ap (contains_key keys) (zero_right i))
  ]
    where
      zero_right : (i : ℕ) → i + 0 ≡ i
      zero_right i = omega arith

  step_at-Both :
      (keys : List ℕ) (i : ℕ) (st : State) (fr : Frame D) (y : Ins)
      → (contains_key keys i || not (is_barred y)) ≡ true
      → Mirrors r as_f64 x total st fr
      → Ahead keys i st
      → Both r as_f64 x total
          (Ahead keys (i + 1))
          (step_at as_f64 (contains_key keys i) y st)
          (exec_at r (contains_key keys i) y fr)
  unfolding Ahead
  step_at-Both keys i st fr y w m a = elim (Bool-cases (contains_key keys i)) [
    | inl e ↦ rw e (bind_input-Both keys i st fr y m a)
    | inr e ↦ rw e (
        Both-map (λ t z. inl z)
          (step-Both r as_f64 x total y st fr (not_barred e w) m (Ahead-Ready keys i st a e)))
  ]
    where
      not_barred : {b : Bool} → b ≡ false → (b || not (is_barred y)) ≡ true → is_barred y ≡ false
      not_barred e w = flip_not (is_barred y) (cc (e, w))

  abbrev Anything : State → Type 0
  Anything st = Unit {0}

  Both-next :
      {P : State → Type 0} {o : Option State} {u : Outcome Stop (Frame D)}
      (f : State → Option State) (g : Frame D → Outcome Stop (Frame D))
      → Both r as_f64 x total P o u
      → ((t : State) (gr : Frame D)
          → Mirrors r as_f64 x total t gr
          → P t
          → Both r as_f64 x total Anything (f t) (g gr))
      → Both r as_f64 x total Anything
          (elim o [ none ↦ none | some t ↦ f t ])
          (elim u [ err e ↦ err e | ok t ↦ g t ])
  Both-next f g declined k = declined
  Both-next f g divided k = divided
  Both-next f g (both {st = t} {fr = gr} m p) k = k t gr m p

  simulate-Both :
      (keys : List ℕ) (i : ℕ) (code : List Ins) (st : State) (fr : Frame D)
      → real_code keys i code ≡ true
      → Mirrors r as_f64 x total st fr
      → Ahead keys i st
      → Both r as_f64 x total Anything (simulate as_f64 keys i code st) (run r keys i code fr)
  unfolding simulate run real_code
  simulate-Both keys i [] st fr w m a = both m tt
  simulate-Both keys i (ret ∷ code) st fr w m a = both m tt
  simulate-Both keys i (y ∷ code) st fr w m a =
      let (here, later) = (&&_iff _ (real_code keys (i + 1) code)).0 w in
      Both-next (simulate as_f64 keys (i + 1) code) (run r keys (i + 1) code)
        (step_at-Both keys i st fr y here m a) (λ t gr. simulate-Both keys (i + 1) code t gr later)

  -- The cells at the return: a value, on top, and what lies under it; or a division by zero.
  abbrev pub Leaves : Outcome Stop (List (Cell D)) → Option D → Type 0
  Leaves o v =
      (o ≡ err by_zero)
      ⊎ ((d : D) × (rest : List (Cell D)) × (o ≡ ok (real d ∷ rest)) × (v ≡ some d))

  -- The result: its number of inputs and its value.
  abbrev Result : ℕ → Outcome Stop (List (Cell D)) → ℕ → TExpr → Type 0
  Result params u n e = (params ≡ n) × Leaves u (eval r x e)

  top-Result :
      (params : ℕ) {k : ℕ} {vs : List Value} {ds : List (Cell D)} {n : ℕ} {e : TExpr}
      → Stacks r as_f64 x total k vs ds
      → top params vs ≡ some (n, e)
      → Result params (ok ds) n e
  top-Result params bottom h = cc
  top-Result params {n = n} {e = e} (above {ds = ds} (stands {e = e2} {d = d} t p) k) h =
      let same : e2 ≡ e = cc in (cc, inr (d, ds, refl, rw⁻¹ same t))

  by_left :
      (params : ℕ) {st : State} {fr : Frame D} {n : ℕ} {e : TExpr} (b : Bool)
      → Mirrors r as_f64 x total st fr
      → (if b then top params st.stack else none) ≡ some (n, e)
      → Result params (ok fr.stack) n e
  by_left params true m h = top-Result params m.stacks h
  by_left params false m h = cc

  same_params :
      (params : ℕ) (o : Option State) {n : ℕ} {e : TExpr}
      → finished params o ≡ some (n, e)
      → params ≡ n
  same_params params none h = cc
  same_params params (some st) {n} {e} h = by_top (st.inputs_left == 0) st.stack h
    where
      by_top :
          (b : Bool) (vs : List Value)
          → (if b then top params vs else none) ≡ some (n, e)
          → params ≡ n
      by_top true [] h = cc
      by_top true (opaque ∷ vs) h = cc
      by_top true (e_value f ∷ vs) h = cc
      by_top false vs h = cc

  finished-Result :
      (params : ℕ) {o : Option State} {u : Outcome Stop (Frame D)} {n : ℕ} {e : TExpr}
      → Both r as_f64 x total Anything o u
      → finished params o ≡ some (n, e)
      → Result params (cells_of u) n e
  finished-Result params declined h = cc
  finished-Result params (divided {o = o}) h = (same_params params o h, inl refl)
  finished-Result params (both {st = st} m p) h = by_left params (st.inputs_left == 0) m h

  analyzed :
      (p : Parsed) (tpc n : ℕ) (e : TExpr)
      → total ≡ count_params (key_bound (bind_pcs p)) (bind_pcs p) tpc
      → real_code (bind_pcs p) tpc (drop tpc p.ins) ≡ true
      → analyze_one_task as_f64 p tpc ≡ some (n, e)
      → Result total (task_cells r p tpc x total) n e
  unfolding analyze_one_task task_cells Ahead
  analyzed p tpc n e t w h =
      finished-Result total
        (simulate-Both (bind_pcs p) tpc (drop tpc p.ins)
          (record { stack = []; locals = []; inputs_left = total })
          (record { stack = stacked x total; locals = [] }) w
          (record { stacks = bottom; bindings = unbound })
          (inr (
            refl,
            omega arith,
            λ j lt.
                count_params-keys (key_bound (bind_pcs p)) (bind_pcs p) tpc j
                  (omega (arith, lt, t)),
          )))
        (rw t h)

-- When the analysis of a task gives a kernel with `n` inputs, and the task's code stores to locals in
-- its input binds only and has no integer literal, the code, run on doubles that `n` inputs have at one
-- element, either divides by zero, or has the value of the kernel's expression there on top of the stack
-- at its return, whatever the doubles and their operations.
pub task_cells-analyze_one_task :
    {D : Type 0} (r : Numbers D) (as_f64 : ℤ → ℕ) (p : Parsed) (tpc n : ℕ) (e : TExpr)
    → analyze_one_task as_f64 p tpc ≡ some (n, e)
    → real_code (bind_pcs p) tpc (drop tpc p.ins) ≡ true
    → (x : ℕ → D)
    → (task_cells r p tpc x n ≡ err by_zero)
      ⊎ ((d : D) × (rest : List (Cell D)) × (task_cells r p tpc x n ≡ ok (real d ∷ rest))
          × (eval r x e ≡ some d))
task_cells-analyze_one_task r as_f64 p tpc n e h w x =
    let (same, leaves) = analyzed r as_f64 x _ p tpc n e refl w h in rw⁻¹ same leaves
