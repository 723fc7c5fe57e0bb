-- ===== src/Trans/Emit/LoopSteps.antt =====
-- The emitter's branches and loops, with their labels counted.
use u_flux.Prelude.{ℕ, ◌+◌, refl, ap, ◌∙◌, arith, Bool, [], ◌++◌, Option, none, some}
use u_flux.Trans.Ast.{Expr, ForInit, init_decl, init_expr}
use u_flux.Trans.Emit.Code.{Letter, letter_b, Code}
use u_flux.Trans.Emit.State.{State, M, tail, emit_expr}
use u_flux.Trans.Emit.Statements.{
  ListCtx, label_body, declare, definition, while_code, do_code, init_code, condition_or_one,
  step_or_nothing, for_code, stepping,
}
use u_flux.Trans.Emit.Counts.{count-append, between_trans, loop_hits}
use u_flux.Trans.Emit.Steps.{
  returns, Post-bind, put-Step, Step-refl, Numbers, in_buf-Post, emit_expr-Numbers,
}
use u_flux.Trans.Emit.Tallies.{
  number-terminator, defines-terminator, quotes-terminator, two_next, three_next,
}
use u_flux.Trans.Emit.SimpleSteps.{Lists, and_then, declare-Numbers, initialise-Numbers}

-- The state behind a loop's body, with the label of the body.
abbrev behind : State → Code → State
behind t ws = record t {
  ctx = record (t.ctx) { loops = tail t.ctx.loops };
  buf = record (t.buf) { labels = t.buf.labels ++ ws };
}

module _ (l : Letter) (n : ℕ) where
  pub while_code-Numbers :
      (e : Expr) (body : ListCtx → M Bool) → Lists l n body → Numbers l n (while_code e body)
  unfolding while_code
  while_code-Numbers e body h s =
      let start = s.self.next_label + 1 + 1 in
      Post-bind l n _ (in_buf-Post l n [] (emit_expr e) refl (emit_expr-Numbers l n e) _) (λ k t x.
        Post-bind l n _ (in_buf-Post l n [] (body label_body) refl (h label_body) _) (λ r u y.
          let lt = ap (loop_hits l n) x.loops in
          returns (record {
            loops = rw y.loops x.loops;
            up = omega (arith, x.up, y.up);
            fresh = grind (
              arith,
              count-append,
              number-terminator n r.0,
              x.fresh,
              y.fresh,
              two_next s.self.next_label u.self.next_label n (omega (arith, x.up, y.up)),
              between_trans start t.self.next_label u.self.next_label n x.up y.up,
            );
            kept = grind (arith, count-append, defines-terminator l n r.0, x.kept, y.kept);
            closed = λ z. grind (
              arith,
              count-append,
              quotes-terminator l n r.0,
              defines-terminator l n r.0,
              lt,
              x.kept,
              y.kept,
              x.closed,
              y.closed,
            );
          })))

  pub do_code-Numbers :
      (body : ListCtx → M Bool) (e : Expr) → Lists l n body → Numbers l n (do_code body e)
  unfolding do_code
  do_code-Numbers body e h s =
      let start = s.self.next_label + 1 + 1 + 1 in
      Post-bind l n _ (in_buf-Post l n _ (body label_body) refl (h label_body) _) (λ r t x.
        Post-bind l n _
          (in_buf-Post l n [] (emit_expr e) refl (emit_expr-Numbers l n e)
            (behind t (definition letter_b start r)))
          (λ k u y.
            let lt = ap (loop_hits l n) x.loops in
            let popped = ap tail x.loops in
            returns (record {
              loops = y.loops ∙ popped;
              up = omega (arith, x.up, y.up);
              fresh = grind (
                arith,
                count-append,
                number-terminator n r.0,
                x.fresh,
                y.fresh,
                three_next s.self.next_label u.self.next_label n (omega (arith, x.up, y.up)),
                between_trans start t.self.next_label u.self.next_label n x.up y.up,
              );
              kept = grind (arith, count-append, defines-terminator l n r.0, x.kept, y.kept);
              closed = λ z. grind (
                arith,
                count-append,
                quotes-terminator l n r.0,
                defines-terminator l n r.0,
                ap (loop_hits l n) popped,
                x.kept,
                y.kept,
                x.closed,
                y.closed,
              );
            })))

  init_code-Numbers : (o : Option ForInit) → Numbers l n (init_code o)
  init_code-Numbers none = λ s. returns (Step-refl l n s)
  init_code-Numbers (some (init_decl d)) =
      and_then l n (declare d) _ (declare-Numbers l n d)
        (λ slot. initialise-Numbers l n slot d.init)
  init_code-Numbers (some (init_expr e)) =
      and_then l n (emit_expr e) _ (emit_expr-Numbers l n e)
        (λ _ t. returns (put-Step l n t _ refl))

  condition_or_one-Numbers : (o : Option Expr) → Numbers l n (condition_or_one o)
  condition_or_one-Numbers none = λ s. returns (put-Step l n s _ refl)
  condition_or_one-Numbers (some e) = emit_expr-Numbers l n e

  step_or_nothing-Numbers : (o : Option Expr) → Numbers l n (step_or_nothing o)
  step_or_nothing-Numbers none = λ s. returns (Step-refl l n s)
  step_or_nothing-Numbers (some e) = emit_expr-Numbers l n e

  pub for_code-Numbers :
      (i : Option ForInit) (c p : Option Expr) (body : ListCtx → M Bool)
      → Lists l n body
      → Numbers l n (for_code i c p body)
  unfolding for_code
  for_code-Numbers i c p body h = and_then l n (init_code i) _ (init_code-Numbers i) (λ _ s.
      let start = s.self.next_label + 1 + 1 + 1 in
      Post-bind l n _ (in_buf-Post l n [] (condition_or_one c) refl (condition_or_one-Numbers c) _)
        (λ k t x.
          Post-bind l n _ (in_buf-Post l n [] (body label_body) refl (h label_body) _) (λ r u y.
            Post-bind l n _
              (in_buf-Post l n [] (step_or_nothing p) refl (step_or_nothing-Numbers p) (
                behind u
                  (definition letter_b (s.self.next_label + 1 + 1) (r.0, stepping start r.1))))
              (λ q v w.
                let lt = ap (loop_hits l n) x.loops in
                let popped = ap tail y.loops ∙ x.loops in
                returns (record {
                  loops = w.loops ∙ popped;
                  up = omega (arith, x.up, y.up, w.up);
                  fresh = grind (
                    arith,
                    count-append,
                    number-terminator n r.0,
                    x.fresh,
                    y.fresh,
                    w.fresh,
                    three_next s.self.next_label v.self.next_label n
                        (omega (arith, x.up, y.up, w.up)),
                    between_trans start t.self.next_label u.self.next_label n x.up y.up,
                    between_trans start u.self.next_label v.self.next_label n
                        (omega (arith, x.up, y.up)) w.up,
                  );
                  kept =
                      grind
                        (arith, count-append, defines-terminator l n r.0, x.kept, y.kept, w.kept);
                  closed = λ z. grind (
                    arith,
                    count-append,
                    quotes-terminator l n r.0,
                    defines-terminator l n r.0,
                    lt,
                    ap (loop_hits l n) popped,
                    x.kept,
                    y.kept,
                    w.kept,
                    x.closed,
                    y.closed,
                    w.closed,
                  );
                })))))
