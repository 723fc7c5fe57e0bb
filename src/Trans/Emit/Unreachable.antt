-- ===== src/Trans/Emit/Unreachable.antt =====
-- Statements, functions and programs never come to the emitter's `unreachable!`: a list hands its
-- returns to `return_stmt`, and nothing else calls `stmt`.
use u_flux.Prelude.{
  ℕ, ◌≡◌, ◌≢◌, refl, if◌then◌else◌, Bool, true, false, List, [], ◌∷◌, Option, none, some, Outcome,
  err, Text, codes, text_eq, contains,
}
use u_flux.Trans.Ast.{
  Expr, Declarator, ForInit, init_decl, init_expr, Stmt, decl, return_, if_, while_, do_while, for_,
  break_, continue_, block, expr_stmt, empty, Else, no_else, else_, Stmts, nil, cons,
  contains_return, Function, Program,
}
use u_flux.Trans.Emit.Expressions.{Fault, unreachable}
use u_flux.Trans.Emit.State.{State, M, pure}
use u_flux.Trans.Emit.Statements.{
  ListCtx, fn_body, label_body, builtins, declare, initialise, declare_all, return_code, guard_rest,
  returned, turn, list_step, jump_code, if_code, while_code, do_code, init_code, condition_or_one,
  step_or_nothing, for_code, Emission, alone, emission, else_list, stmt_list,
}
use u_flux.Trans.Emit.Functions.{
  bind_params, emit_function, emit_functions, written, emit_code, rendered, emit,
}
use u_flux.Trans.Emit.Reachable.{
  Regular, returns, refuses, slices, Safe, Regular-bind, in_buf-Safe, Regular-if, emit_expr-Safe,
}

declare-Safe : (d : Declarator) → Safe (declare d)
unfolding declare
declare-Safe d s = at (contains builtins d.name) refl
  where
    at : (b : Bool) → contains builtins d.name ≡ b → Regular (declare d s)
    at true e = rw e refuses
    at false e = rw e returns

initialise-Safe : (slot : Text) (o : Option Expr) → Safe (initialise slot o)
initialise-Safe slot none s = returns
initialise-Safe slot (some e) s = Regular-bind _ (emit_expr-Safe e s) (λ _ t. returns)

declare_all-Safe : (ds : List Declarator) → Safe (declare_all ds)
unfolding declare_all
declare_all-Safe [] s = returns
declare_all-Safe (d ∷ ds) s =
    Regular-bind _ (declare-Safe d s)
      (λ slot t. Regular-bind _ (initialise-Safe slot d.init t) (λ _ u. declare_all-Safe ds u))

-- A list of statements is safe in each context.
abbrev SafeList : (ListCtx → M Bool) → Type 0
SafeList m = (lctx : ListCtx) → Safe (m lctx)

return_code-Safe : (e : Expr) → SafeList (return_code e)
unfolding return_code
return_code-Safe e label_body s =
    Regular-bind _ (emit_expr-Safe e s) (λ _ t. Regular-if t.ctx.is_main returns returns)
return_code-Safe e fn_body s =
    Regular-bind _ (emit_expr-Safe e s) (λ _ t. Regular-if t.ctx.is_main returns returns)

guard_rest-Safe : (rest : ListCtx → M Bool) → SafeList rest → Safe (guard_rest rest)
unfolding guard_rest
guard_rest-Safe rest h s = Regular-bind _ (in_buf-Safe _ _ (h label_body) _) (λ r t. returns)

while_code-Safe : (e : Expr) (body : ListCtx → M Bool) → SafeList body → Safe (while_code e body)
unfolding while_code
while_code-Safe e body h s =
    Regular-bind _ (in_buf-Safe _ _ (emit_expr-Safe e) _)
      (λ k t. Regular-bind _ (in_buf-Safe _ _ (h label_body) _) (λ r u. returns))

do_code-Safe : (body : ListCtx → M Bool) (e : Expr) → SafeList body → Safe (do_code body e)
unfolding do_code
do_code-Safe body e h s =
    Regular-bind _ (in_buf-Safe _ _ (h label_body) _)
      (λ r t. Regular-bind _ (in_buf-Safe _ _ (emit_expr-Safe e) _) (λ k u. returns))

init_code-Safe : (o : Option ForInit) → Safe (init_code o)
init_code-Safe none s = returns
init_code-Safe (some (init_decl d)) s =
    Regular-bind _ (declare-Safe d s) (λ slot t. initialise-Safe slot d.init t)
init_code-Safe (some (init_expr e)) s = Regular-bind _ (emit_expr-Safe e s) (λ _ t. returns)

condition_or_one-Safe : (o : Option Expr) → Safe (condition_or_one o)
condition_or_one-Safe none s = returns
condition_or_one-Safe (some e) s = emit_expr-Safe e s

step_or_nothing-Safe : (o : Option Expr) → Safe (step_or_nothing o)
step_or_nothing-Safe none s = returns
step_or_nothing-Safe (some e) s = emit_expr-Safe e s

for_code-Safe :
    (i : Option ForInit) (c p : Option Expr) (body : ListCtx → M Bool)
    → SafeList body
    → Safe (for_code i c p body)
unfolding for_code
for_code-Safe i c p body h s = Regular-bind _ (init_code-Safe i s) (λ _ t.
    Regular-bind _ (in_buf-Safe _ _ (condition_or_one-Safe c) _) (λ k u.
      Regular-bind _ (in_buf-Safe _ _ (h label_body) _)
        (λ r v. Regular-bind _ (in_buf-Safe _ _ (step_or_nothing-Safe p) _) (λ q w. returns))))

abbrev SafeElse : Option (ListCtx → M Bool) → Type 0
SafeElse none = Unit {0}
SafeElse (some m) = SafeList m

if_code-Safe :
    (e : Expr) (m : ListCtx → M Bool) (o : Option (ListCtx → M Bool))
    → SafeList m
    → SafeElse o
    → Safe (if_code e m o)
unfolding if_code
if_code-Safe e m none h k s =
    Regular-bind _ (emit_expr-Safe e s)
      (λ _ t. Regular-bind _ (in_buf-Safe _ _ (h label_body) _) (λ r u. returns))
if_code-Safe e m (some els) h k s = Regular-bind _ (emit_expr-Safe e s) (λ _ t.
    Regular-bind _ (in_buf-Safe _ _ (h label_body) _)
      (λ r u. Regular-bind _ (in_buf-Safe _ _ (k label_body) _) (λ q v. returns)))

jump_code-Safe : Safe jump_code
unfolding jump_code
jump_code-Safe s = at s.ctx.loops refl
  where
    at : (ls : List (Option ℕ)) → s.ctx.loops ≡ ls → Regular (jump_code s)
    at [] e = rw e returns
    at (none ∷ ls) e = rw e returns
    at (some inc ∷ ls) e = rw e returns

-- One turn of a list is safe if the statement is, unless it is a return.
list_step-Safe :
    (x : Stmt) (one : ListCtx → M (Unit {0})) (rest : ListCtx → M Bool)
    → (returned x ≡ none → (lctx : ListCtx) → Safe (one lctx))
    → SafeList rest
    → SafeList (list_step x one rest)
unfolding list_step
list_step-Safe x one rest h k lctx s = at (returned x) refl
  where
    by_return : (b : Bool) (t : State) → Regular ((if b then guard_rest rest else rest lctx) t)
    by_return true t = guard_rest-Safe rest k t
    by_return false t = k lctx t

    at : (o : Option Expr) → returned x ≡ o → Regular (turn (contains_return x) one rest lctx o s)
    at (some e) r = return_code-Safe e lctx s
    at none r = Regular-bind _ (h r lctx s) (λ _ t. by_return (contains_return x) t)

-- What both ways of emitting a statement need.
record SafeEmission (x : Stmt) (m : Emission) : Type 0 where
  stmt_safe : returned x ≡ none → (lctx : ListCtx) → Safe (m.as_stmt lctx)
  list_safe : SafeList (m.as_list)

alone-Safe :
    (x : Stmt) (m : M (Unit {0})) → (returned x ≡ none → Safe m) → SafeEmission x (alone x m)
alone-Safe x m h = record {
  stmt_safe = λ e _. h e;
  list_safe = list_step-Safe x (λ _. m) (λ _. pure false) (λ e _. h e) (λ _ s. returns);
}

mutual
  unfolding emission returned

  emission-Safe : (x : Stmt) → SafeEmission x (emission x)
  emission-Safe (decl ds) = alone-Safe (decl ds) _ (λ _. declare_all-Safe ds)
  emission-Safe (expr_stmt e) =
      alone-Safe (expr_stmt e) _ (λ _ s. Regular-bind _ (emit_expr-Safe e s) (λ _ t. returns))
  emission-Safe empty = alone-Safe empty _ (λ _ s. returns)
  emission-Safe (break_ l c) = alone-Safe (break_ l c) _ (λ _ s. returns)
  emission-Safe (continue_ l c) = alone-Safe (continue_ l c) _ (λ _. jump_code-Safe)
  emission-Safe (return_ e l c) = alone-Safe (return_ e l c) _ (λ h. cc)
  emission-Safe (if_ e x els) =
      alone-Safe (if_ e x els) _
        (λ _. if_code-Safe e _ _ (emission-Safe x).list_safe (else_list-Safe els))
  emission-Safe (while_ e x) =
      alone-Safe (while_ e x) _ (λ _. while_code-Safe e _ (emission-Safe x).list_safe)
  emission-Safe (do_while x e) =
      alone-Safe (do_while x e) _ (λ _. do_code-Safe _ e (emission-Safe x).list_safe)
  emission-Safe (for_ i c p x) =
      alone-Safe (for_ i c p x) _ (λ _. for_code-Safe i c p _ (emission-Safe x).list_safe)
  emission-Safe (block xs) = record {
    stmt_safe = λ _ lctx s. Regular-bind _ (stmt_list-Safe xs lctx s) (λ _ t. returns);
    list_safe = stmt_list-Safe xs;
  }

  else_list-Safe : (els : Else) → SafeElse (else_list els)
  else_list-Safe no_else = tt
  else_list-Safe (else_ x) = (emission-Safe x).list_safe

  stmt_list-Safe : (xs : Stmts) → SafeList (stmt_list xs)
  stmt_list-Safe nil lctx = λ s. returns
  stmt_list-Safe (cons x xs) lctx =
      list_step-Safe x _ (stmt_list xs) (emission-Safe x).stmt_safe (stmt_list-Safe xs) lctx

bind_params-Safe : (ps : List Text) → Safe (bind_params ps)
unfolding bind_params
bind_params-Safe [] s = returns
bind_params-Safe (p ∷ ps) s = Regular-bind _ (bind_params-Safe ps _) (λ ws t. returns)

emit_function-Safe : (f : Function) → Safe (emit_function f)
unfolding emit_function
emit_function-Safe f s =
    Regular-bind _ (by_name (text_eq f.name (codes "main")) _)
      (λ ws t. Regular-bind _ (in_buf-Safe _ _ (stmt_list-Safe f.body fn_body) _) (λ r u. returns))
  where
    by_name : (b : Bool) (t : State) → Regular ((if b then pure [] else bind_params f.params) t)
    by_name true t = returns
    by_name false t = bind_params-Safe f.params t

emit_functions-Safe : (fs : List Function) → Safe (emit_functions fs)
unfolding emit_functions
emit_functions-Safe [] s = returns
emit_functions-Safe (f ∷ fs) s =
    Regular-bind _ (emit_function-Safe f s) (λ _ t. emit_functions-Safe fs t)

emit-calm :
    (o : Outcome Fault (Unit {0} × State)) → Regular o → rendered (written o) ≢ err unreachable
emit-calm _ returns e = cc
emit-calm _ refuses e = cc
emit-calm _ slices e = cc

-- Whatever the program, the emitter ends without reaching its `unreachable!`.
pub emit-never_unreachable : (g : Program) → emit g ≢ err unreachable
unfolding emit emit_code
emit-never_unreachable g = emit-calm _ (emit_functions-Safe g.functions _)
