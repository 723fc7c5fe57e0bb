-- ===== src/Compute/TaskSteps.antt =====
-- One step of the analysis of a task, and the same step of the machine.
use u_flux.Prelude.{
  ℕ, ◌<◌, ◌≡◌, refl, ap, ◌∙◌, Bool, true, false, List, [], ◌∷◌, Option, none, some, Outcome, ok,
  err, if◌then◌else◌, Text, codes, text_eq, All, ◌++◌, ℤ,
}
use u_flux.Compute.Inputs.{inputs}
use u_flux.Compute.Expr.{TExpr, add, sub, mul, div, on_one, on_both}
use u_flux.Comp.Ast.{
  Ins, push_i, push_f, simple, flush, local_set, local_get, local_set_i, local_get_i,
}
use u_flux.Compute.Tasks.{
  Value, e_value, Slot, id_slot, name_slot, slot_eq, Locals, get, State, pushed, rooted, combined,
  operate, step,
}
use u_flux.Compute.Machine.{
  Numbers, Frame, Cell, real, Stop, by_zero, push, put, on_two, divide, on_top, operated, exec,
  stacked, is_barred, eval,
}

All-append : (P : ℕ → Type 0) (a b : List ℕ) → All P a → All P b → All P (a ++ b)
All-append P [] b h k = k
All-append P (i ∷ a) b h k = (h.0, All-append P a b h.1 k)

module _ {D : Type 0} (r : Numbers D) (as_f64 : ℤ → ℕ) (x : ℕ → D) (total : ℕ) where
  pub data Stands : Value → Cell D → Type 0 where
    stands :
        {e : TExpr} {d : D}
        → eval r x e ≡ some d
        → All (λ i. i < total) (inputs e)
        → Stands (e_value e) (real d)

  pub data Stacks (n : ℕ) : List Value → List (Cell D) → Type 0 where
    bottom : Stacks n [] (stacked x n)
    above :
        {v : Value} {d : Cell D} {vs : List Value} {ds : List (Cell D)}
        → Stands v d
        → Stacks n vs ds
        → Stacks n (v ∷ vs) (d ∷ ds)

  pub data Bindings : Locals Value → Locals (Cell D) → Type 0 where
    unbound : Bindings [] []
    binding :
        (y : Slot) {v : Value} {d : Cell D} {ls : Locals Value} {ms : Locals (Cell D)}
        → Stands v d
        → Bindings ls ms
        → Bindings ((y, v) ∷ ls) ((y, d) ∷ ms)

  pub record Mirrors (st : State) (fr : Frame D) : Type 0 where
    pub stacks : Stacks st.inputs_left st.stack fr.stack
    pub bindings : Bindings st.locals fr.locals

  -- What a step of the analysis gives, with `P` of it, and what the machine gives.
  pub data Both (P : State → Type 0) : Option State → Outcome Stop (Frame D) → Type 0 where
    declined : {o : Outcome Stop (Frame D)} → Both P none o
    divided : {o : Option State} → Both P o (err by_zero)
    both : {st : State} {fr : Frame D} → Mirrors st fr → P st → Both P (some st) (ok fr)

  data Found : Option Value → Option (Cell D) → Type 0 where
    missing : Found none none
    found : {v : Value} {d : Cell D} → Stands v d → Found (some v) (some d)

  Found-if :
      {o p : Option Value} {u v : Option (Cell D)} (t : Bool)
      → Found o u
      → Found p v
      → Found (if t then o else p) (if t then u else v)
  Found-if true h k = h
  Found-if false h k = k

  get-Found :
      {ls : Locals Value} {ms : Locals (Cell D)}
      → Bindings ls ms
      → (y : Slot) → Found (get ls y) (get ms y)
  unfolding get
  get-Found unbound y = missing
  get-Found (binding z s b) y = Found-if (slot_eq z y) (found s) (get-Found b y)

  abbrev pub Ready : State → Type 0
  Ready st = st.inputs_left ≡ 0

  pushed-Both :
      {st : State} {fr : Frame D} {o : Option Value} {p : Option (Cell D)}
      → Mirrors st fr
      → Ready st
      → Found o p
      → Both Ready (pushed st o) (push fr p)
  pushed-Both m z missing = declined
  pushed-Both m z (found s) = both (record { stacks = above s m.stacks; bindings = m.bindings }) z

  combined-Both :
      (st : State) (fr : Frame D) {vs : List Value} {ds : List (Cell D)} (f : TExpr → TExpr → TExpr)
      (g : D → D → D) (ints : ℤ → ℤ → ℤ)
      → ((a b : TExpr) → eval r x (f a b) ≡ on_both g (eval r x a) (eval r x b))
      → ((a b : TExpr) → inputs (f a b) ≡ inputs a ++ inputs b)
      → Bindings st.locals fr.locals
      → Ready st
      → Stacks st.inputs_left vs ds
      → Both Ready (combined st f vs) (on_two r fr g ints ds)
  combined-Both st fr f g ints h w b z bottom = declined
  combined-Both st fr f g ints h w b z (above (stands t p) bottom) = declined
  combined-Both st fr f g ints h w b z
        (above (stands {e = e2} t p) (above (stands {e = e1} u q) k)) =
      both
        (record {
          stacks =
              above
                (stands (h e1 e2 ∙ rw (t, u) refl)
                  (rw (w e1 e2) (All-append (λ i. i < total) (inputs e1) (inputs e2) q p)))
                k;
          bindings = b;
        })
        z

  quotient-Both :
      (st : State) (fr : Frame D) {e1 e2 : TExpr} {c d : D} {vs : List Value} {ds : List (Cell D)}
      → Bindings st.locals fr.locals
      → Ready st
      → eval r x e2 ≡ some d
      → All (λ i. i < total) (inputs e2)
      → eval r x e1 ≡ some c
      → All (λ i. i < total) (inputs e1)
      → Stacks st.inputs_left vs ds
      → (zero : Bool)
      → Both Ready
          (some (record st { stack = e_value (div e1 e2) ∷ vs }))
          (if zero then err by_zero else put fr (real (r.over c d)) ds)
  unfolding eval inputs
  quotient-Both st fr b z t p u q k true = divided
  quotient-Both st fr {e1} {e2} b z t p u q k false =
      both
        (record {
          stacks =
              above
                (stands (rw (t, u) refl) (All-append (λ i. i < total) (inputs e1) (inputs e2) q p))
                k;
          bindings = b;
        })
        z

  divided-Both :
      (st : State) (fr : Frame D) {vs : List Value} {ds : List (Cell D)}
      → Bindings st.locals fr.locals
      → Ready st
      → Stacks st.inputs_left vs ds
      → Both Ready (combined st div vs) (divide r fr ds)
  unfolding eval inputs
  divided-Both st fr b z bottom = declined
  divided-Both st fr b z (above (stands t p) bottom) = declined
  divided-Both st fr b z (above (stands t p) (above (stands u q) k)) =
      quotient-Both st fr b z t p u q k (r.is_zero _)

  rooted-Both :
      (st : State) (fr : Frame D) {vs : List Value} {ds : List (Cell D)}
      → Bindings st.locals fr.locals
      → Ready st
      → Stacks st.inputs_left vs ds
      → Both Ready (rooted st vs) (on_top r fr ds)
  unfolding eval inputs
  rooted-Both st fr b z bottom = declined
  rooted-Both st fr b z (above (stands t p) k) =
      both (record { stacks = above (stands (ap (on_one r.root) t) p) k; bindings = b }) z

  Both-if :
      {P : State → Type 0} {o p : Option State} {u v : Outcome Stop (Frame D)} (t : Bool)
      → Both P o u
      → Both P p v
      → Both P (if t then o else p) (if t then u else v)
  Both-if true h k = h
  Both-if false h k = k

  operate-Both :
      (h : Text) (st : State) (fr : Frame D)
      → Mirrors st fr
      → Ready st
      → Both Ready (operate h st) (operated r h fr)
  unfolding operate operated eval inputs
  operate-Both h st fr m z =
      Both-if (text_eq h (codes "op_add"))
        (combined-Both st fr add r.plus r.int_plus (λ a b. refl) (λ a b. refl) m.bindings z
          m.stacks)
        (Both-if (text_eq h (codes "op_sub"))
          (combined-Both st fr sub r.minus r.int_minus (λ a b. refl) (λ a b. refl) m.bindings z
            m.stacks)
          (Both-if (text_eq h (codes "op_mul"))
            (combined-Both st fr mul r.times r.int_times (λ a b. refl) (λ a b. refl) m.bindings z
              m.stacks)
            (Both-if (text_eq h (codes "op_div")) (divided-Both st fr m.bindings z m.stacks) (
              Both-if (text_eq h (codes "op_sqrt")) (rooted-Both st fr m.bindings z m.stacks)
                declined))))

  pub step-Both :
      (y : Ins) (st : State) (fr : Frame D)
      → is_barred y ≡ false
      → Mirrors st fr
      → Ready st
      → Both Ready (step as_f64 y st) (exec r y fr)
  unfolding step exec eval inputs
  step-Both (local_get_i i) st fr w m z = pushed-Both m z (get-Found m.bindings (id_slot i))
  step-Both (local_get n) st fr w m z = pushed-Both m z (get-Found m.bindings (name_slot n))
  step-Both (push_f v) st fr w m z = pushed-Both m z (found (stands refl tt))
  step-Both (push_i v) st fr w m z = cc
  step-Both (simple h) st fr w m z = operate-Both h st fr m z
  step-Both (local_set_i i) st fr w m z = cc
  step-Both (local_set n) st fr w m z = cc
  step-Both flush st fr w m z = both m z
  step-Both _ st fr w m z = declined
