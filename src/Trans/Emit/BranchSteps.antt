-- ===== src/Trans/Emit/BranchSteps.antt =====
-- The emitter's branches, its jumps and its lists of statements, with their labels counted.
use u_flux.Prelude.{
  ℕ, ◌+◌, ◌≡◌, refl, ap, ◌∙◌, arith, Bool, true, false, List, [], ◌∷◌, ◌++◌, Option, none, some,
  if◌then◌else◌,
}
use u_flux.Trans.Ast.{Expr, Stmt, contains_return}
use u_flux.Trans.Emit.Code.{Letter, letter_i, letter_n, str, quote}
use u_flux.Trans.Emit.State.{M, put, emit_expr}
use u_flux.Trans.Emit.Statements.{
  ListCtx, label_body, guard_rest, jump_code, if_code, definition, returned, turn, list_step,
}
use u_flux.Trans.Emit.Counts.{
  count-append, between_trans, between_next, between_same, loop_hits, one,
}
use u_flux.Trans.Emit.Steps.{
  Post, returns, Nothing, Post-bind, put-Step, Numbers, in_buf-Post, emit_expr-Numbers,
}
use u_flux.Trans.Emit.Tallies.{number-terminator, defines-terminator, quotes-terminator, two_next}
use u_flux.Trans.Emit.SimpleSteps.{Lists, and_then, return_code-Numbers, guard_rest-Numbers}

module _ (l : Letter) (n : ℕ) where
  abbrev pub ElseNumbers : Option (ListCtx → M Bool) → Type 0
  ElseNumbers none = Unit {0}
  ElseNumbers (some m) = Lists l n m

  pub if_code-Numbers :
      (e : Expr) (m : ListCtx → M Bool) (o : Option (ListCtx → M Bool))
      → Lists l n m
      → ElseNumbers o
      → Numbers l n (if_code e m o)
  unfolding if_code
  if_code-Numbers e m none h k = and_then l n (emit_expr e) _ (emit_expr-Numbers l n e) (λ _ s.
      Post-bind l n _ (in_buf-Post l n [] (m label_body) refl (h label_body) _) (λ r t x.
        returns (record {
          loops = x.loops;
          up = omega (arith, x.up);
          fresh = grind (
            arith,
            count-append,
            number-terminator n r.0,
            x.fresh,
            between_next s.self.next_label n,
            between_trans s.self.next_label (s.self.next_label + 1) t.self.next_label n
                (omega arith) x.up,
          );
          kept = grind (arith, count-append, defines-terminator l n r.0, x.kept);
          closed = λ z. grind (
            arith,
            count-append,
            quotes-terminator l n r.0,
            defines-terminator l n r.0,
            x.kept,
            x.closed,
          );
        })))
  if_code-Numbers e m (some els) h k =
      and_then l n (emit_expr e) _ (emit_expr-Numbers l n e) (λ _ s.
        let start = s.self.next_label + 1 + 1 in
        Post-bind l n _ (in_buf-Post l n [] (m label_body) refl (h label_body) _) (λ r t x.
          Post-bind l n _
            (in_buf-Post l n [] (els label_body) refl (k label_body) (record t {
              buf = record (t.buf) {
                labels = t.buf.labels ++ definition letter_i (s.self.next_label + 1) r;
              };
            }))
            (λ q u y.
              let lt = ap (loop_hits l n) x.loops in
              returns (record {
                loops = y.loops ∙ x.loops;
                up = omega (arith, x.up, y.up);
                fresh = grind (
                  arith,
                  count-append,
                  number-terminator n r.0,
                  number-terminator n q.0,
                  x.fresh,
                  y.fresh,
                  two_next s.self.next_label u.self.next_label n (omega (arith, x.up, y.up)),
                  between_trans start t.self.next_label u.self.next_label n x.up y.up,
                );
                kept = grind (
                  arith,
                  count-append,
                  defines-terminator l n r.0,
                  defines-terminator l n q.0,
                  x.kept,
                  y.kept,
                );
                closed = λ z. grind (
                  arith,
                  count-append,
                  quotes-terminator l n r.0,
                  defines-terminator l n r.0,
                  quotes-terminator l n q.0,
                  defines-terminator l n q.0,
                  lt,
                  x.kept,
                  y.kept,
                  x.closed,
                  y.closed,
                );
              }))))

  pub jump_code-Numbers : Numbers l n jump_code
  unfolding jump_code
  jump_code-Numbers s = at s.ctx.loops refl
    where
      at :
          (ls : List (Option ℕ))
          → s.ctx.loops ≡ ls
          → Post l n s (Nothing l n) (elim ls [
            | some inc ∷ _ ↦ put (str "1 " ++ (quote letter_n inc ∷ str " if continue\n")) s
            | none ∷ _ ↦ put (str "continue\n") s
            | [] ↦ put (str "continue\n") s
          ])
      at [] e = returns (put-Step l n s _ refl)
      at (none ∷ ls) e = returns (put-Step l n s _ refl)
      at (some inc ∷ ls) e =
          let hits = ap (loop_hits l n) e in
          returns (record {
            loops = refl;
            up = omega arith;
            fresh = omega (arith, count-append, between_same s.self.next_label n);
            kept = omega (arith, count-append);
            closed = λ z. omega (arith, count-append, hits);
          })

  pub list_step-Numbers :
      (x : Stmt) (one : ListCtx → M (Unit {0})) (rest : ListCtx → M Bool)
      → (returned x ≡ none → (lctx : ListCtx) → Numbers l n (one lctx))
      → Lists l n rest
      → Lists l n (list_step x one rest)
  unfolding list_step
  list_step-Numbers x one rest h k lctx s = at (returned x) refl
    where
      by_return : (b : Bool) → Numbers l n (if b then guard_rest rest else rest lctx)
      by_return true = guard_rest-Numbers l n rest k
      by_return false = k lctx

      at :
          (o : Option Expr)
          → returned x ≡ o
          → Post l n s (Nothing l n) (turn (contains_return x) one rest lctx o s)
      at (some e) r = return_code-Numbers l n e lctx s
      at none r = and_then l n (one lctx) _ (h r lctx) (λ _. by_return (contains_return x)) s
