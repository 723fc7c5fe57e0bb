-- ===== src/Trans/Emit/SimpleSteps.antt =====
-- The emitter's simple statements and the rest behind a return, with their labels counted.
use u_flux.Prelude.{
  ℕ, ◌≡◌, refl, arith, Bool, true, false, List, [], ◌∷◌, Option, none, some, Outcome, Text,
  contains,
}
use u_flux.Trans.Ast.{Expr, Declarator}
use u_flux.Trans.Emit.Code.{Letter, Code}
use u_flux.Trans.Emit.Expressions.{Fault}
use u_flux.Trans.Emit.State.{State, M, ◌>>=◌}
use u_flux.Trans.Emit.Statements.{
  ListCtx, label_body, fn_body, builtins, declare, initialise, declare_all, return_code, guard_rest,
}
use u_flux.Trans.Emit.Counts.{count-append, between_same}
use u_flux.Trans.Emit.Steps.{
  Step, Post, returns, fails, Nothing, Post-bind, put-Step, Step-refl, Step-trans, Numbers,
  in_buf-Post, emit_expr-Numbers, Post-if,
}
use u_flux.Trans.Emit.Tallies.{number-terminator, defines-terminator, quotes-terminator, two_next}

module _ (l : Letter) (n : ℕ) where
  abbrev pub Lists : (ListCtx → M Bool) → Type 0
  Lists m = (lctx : ListCtx) → Numbers l n (m lctx)

  -- The names and the slots change, and no label does.
  pub slots-Step :
      (s t : State)
      → t.self.out ≡ s.self.out
      → t.self.hoisted ≡ s.self.hoisted
      → t.self.hoisted_guards ≡ s.self.hoisted_guards
      → t.self.next_label ≡ s.self.next_label
      → t.buf ≡ s.buf
      → t.ctx.loops ≡ s.ctx.loops
      → Step l n s t []
  slots-Step s t o h g k b ls = record {
    loops = ls;
    up = omega arith;
    fresh = rw (o, h, g, k, b) (omega (arith, between_same s.self.next_label n));
    kept = rw (o, h, g, b) (omega arith);
    closed = λ z. rw (o, h, g, b) (omega arith);
  }

  pub declare-Numbers : (d : Declarator) → Numbers l n (declare d)
  unfolding declare
  declare-Numbers d s = at (contains builtins d.name) refl
    where
      at : (b : Bool) → contains builtins d.name ≡ b → Post l n s (Nothing l n) (declare d s)
      at true e = rw e fails
      at false e = rw e (returns (slots-Step s _ refl refl refl refl refl refl))

  pub initialise-Numbers : (slot : Text) (o : Option Expr) → Numbers l n (initialise slot o)
  initialise-Numbers slot none s = returns (Step-refl l n s)
  initialise-Numbers slot (some e) s =
      Post-bind l n _ (emit_expr-Numbers l n e s)
        (λ _ t x. returns (Step-trans l n x (put-Step l n t _ refl)))

  pub after :
      {A : Type 0} {p : A → Code} {s t : State} {r : Outcome Fault (A × State)}
      → Step l n s t []
      → Post l n t p r
      → Post l n s p r
  after x (returns y) = returns (Step-trans l n x y)
  after x fails = fails

  -- A method, then another one that leaves its buffer.
  pub and_then :
      {A B : Type 0} (m : M A) (f : A → M B)
      → Numbers l n m
      → ((a : A) → Numbers l n (f a))
      → Numbers l n (m >>= f)
  and_then m f h k s = Post-bind l n f (h s) (λ a t x. after x (k a t))

  pub declare_all-Numbers : (ds : List Declarator) → Numbers l n (declare_all ds)
  unfolding declare_all
  declare_all-Numbers [] = λ s. returns (Step-refl l n s)
  declare_all-Numbers (d ∷ ds) = and_then (declare d) _ (declare-Numbers d) (λ slot.
      and_then (initialise slot d.init) _ (initialise-Numbers slot d.init)
        (λ _. declare_all-Numbers ds))

  pub return_code-Numbers : (e : Expr) → Lists (return_code e)
  unfolding return_code
  return_code-Numbers e label_body s = Post-bind l n _ (emit_expr-Numbers l n e s) (λ _ t x.
      Post-if l n t.ctx.is_main (returns (Step-trans l n x (put-Step l n t _ refl)))
        (returns (Step-trans l n x (put-Step l n t _ refl))))
  return_code-Numbers e fn_body s = Post-bind l n _ (emit_expr-Numbers l n e s) (λ _ t x.
      Post-if l n t.ctx.is_main (returns (Step-trans l n x (put-Step l n t _ refl)))
        (returns (Step-trans l n x (put-Step l n t _ refl))))

  pub guard_rest-Numbers : (rest : ListCtx → M Bool) → Lists rest → Numbers l n (guard_rest rest)
  unfolding guard_rest
  guard_rest-Numbers rest h s =
      Post-bind l n _ (in_buf-Post l n [] (rest label_body) refl (h label_body) _) (λ r t x.
        returns (record {
          loops = x.loops;
          up = omega (arith, x.up);
          fresh = grind (
            arith,
            count-append,
            number-terminator n r.0,
            x.fresh,
            two_next s.self.next_label t.self.next_label n (omega (arith, x.up)),
          );
          kept = grind (arith, count-append, defines-terminator l n r.0, x.kept);
          closed = λ z. grind (
            arith,
            count-append,
            quotes-terminator l n r.0,
            defines-terminator l n r.0,
            x.kept,
            x.closed,
          );
        }))
