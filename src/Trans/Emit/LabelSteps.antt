-- ===== src/Trans/Emit/LabelSteps.antt =====
-- Statements and lists of statements, with their labels counted.
use u_flux.Prelude.{ℕ, ◌≡◌, none, refl, false}
use u_flux.Trans.Ast.{
  Stmt, decl, return_, if_, while_, do_while, for_, break_, continue_, block, expr_stmt, empty,
  Else, no_else, else_, Stmts, nil, cons,
}
use u_flux.Trans.Emit.Code.{Letter}
use u_flux.Trans.Emit.State.{M, pure, emit_expr}
use u_flux.Trans.Emit.Statements.{
  ListCtx, returned, Emission, alone, emission, else_list, stmt_list,
}
use u_flux.Trans.Emit.Steps.{returns, put-Step, Step-refl, Numbers, emit_expr-Numbers}
use u_flux.Trans.Emit.SimpleSteps.{Lists, and_then, declare_all-Numbers}
use u_flux.Trans.Emit.LoopSteps.{while_code-Numbers, do_code-Numbers, for_code-Numbers}
use u_flux.Trans.Emit.BranchSteps.{
  ElseNumbers, if_code-Numbers, jump_code-Numbers, list_step-Numbers,
}

module _ (l : Letter) (n : ℕ) where
  -- What both ways of emitting a statement need.
  record Counted (x : Stmt) (m : Emission) : Type 0 where
    stmt_counted : returned x ≡ none → (lctx : ListCtx) → Numbers l n (m.as_stmt lctx)
    list_counted : Lists l n (m.as_list)

  alone-Counted :
      (x : Stmt) (m : M (Unit {0})) → (returned x ≡ none → Numbers l n m) → Counted x (alone x m)
  alone-Counted x m h = record {
    stmt_counted = λ e _. h e;
    list_counted =
        list_step-Numbers l n x (λ _. m) (λ _. pure false) (λ e _. h e)
          (λ _ s. returns (Step-refl l n s));
  }

  mutual
    unfolding emission returned

    emission-Counted : (x : Stmt) → Counted x (emission x)
    emission-Counted (decl ds) = alone-Counted (decl ds) _ (λ _. declare_all-Numbers l n ds)
    emission-Counted (expr_stmt e) = alone-Counted (expr_stmt e) _ (λ _.
        and_then l n (emit_expr e) _ (emit_expr-Numbers l n e)
          (λ _ t. returns (put-Step l n t _ refl)))
    emission-Counted empty = alone-Counted empty _ (λ _ s. returns (Step-refl l n s))
    emission-Counted (break_ i c) =
        alone-Counted (break_ i c) _ (λ _ s. returns (put-Step l n s _ refl))
    emission-Counted (continue_ i c) = alone-Counted (continue_ i c) _ (λ _. jump_code-Numbers l n)
    emission-Counted (return_ e i c) = alone-Counted (return_ e i c) _ (λ h. cc)
    emission-Counted (if_ e x els) =
        alone-Counted (if_ e x els) _
          (λ _. if_code-Numbers l n e _ _ (emission-Counted x).list_counted (else_list-Counted els))
    emission-Counted (while_ e x) =
        alone-Counted (while_ e x) _
          (λ _. while_code-Numbers l n e _ (emission-Counted x).list_counted)
    emission-Counted (do_while x e) =
        alone-Counted (do_while x e) _
          (λ _. do_code-Numbers l n _ e (emission-Counted x).list_counted)
    emission-Counted (for_ i c p x) =
        alone-Counted (for_ i c p x) _
          (λ _. for_code-Numbers l n i c p _ (emission-Counted x).list_counted)
    emission-Counted (block xs) = record {
      stmt_counted = λ _ lctx.
          and_then l n (stmt_list xs lctx) _ (stmt_list-Numbers xs lctx)
            (λ _ s. returns (Step-refl l n s));
      list_counted = stmt_list-Numbers xs;
    }

    else_list-Counted : (els : Else) → ElseNumbers l n (else_list els)
    else_list-Counted no_else = tt
    else_list-Counted (else_ x) = (emission-Counted x).list_counted

    pub stmt_list-Numbers : (xs : Stmts) → Lists l n (stmt_list xs)
    stmt_list-Numbers nil lctx = λ s. returns (Step-refl l n s)
    stmt_list-Numbers (cons x xs) lctx =
        list_step-Numbers l n x _ (stmt_list xs) (emission-Counted x).stmt_counted
          (stmt_list-Numbers xs) lctx
