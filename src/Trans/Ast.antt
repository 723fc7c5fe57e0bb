-- ===== src/Trans/Ast.antt =====
-- The syntax tree of the C subset (trans/src/ast.rs). A step of `++` or `--` is `up` or down.
use u_flux.Prelude.{ℕ, Bool, true, false, ◌||◌, List, Option, Text}

pub data BinOp : Type 0 where
  add sub mul shl shr lt le gt ge eq ne bit_and bit_xor bit_or : BinOp

pub data LogicOp : Type 0 where
  logic_and logic_or : LogicOp

pub data UnOp : Type 0 where
  neg not_op bit_not : UnOp

pub data Stream : Type 0 where
  stdout stdin stderr : Stream

mutual
  pub data ExprKind : Type 0 where
    int str char : Text → ExprKind
    var : Text → ExprKind
    assign : Text → Option BinOp → Expr → ExprKind
    binary : BinOp → Expr → Expr → ExprKind
    logical : LogicOp → Expr → Expr → ExprKind
    unary : UnOp → Expr → ExprKind
    pre post : Text → Bool → ExprKind
    call : Text → Args → ExprKind
    index : Text → Expr → ExprKind
    argc : ExprKind
    stream : Stream → ExprKind
    argv byte : Expr → ExprKind
    null eof_lit : ExprKind

  -- A kind with its line and column.
  pub data Expr : Type 0 where
    expr : ExprKind → ℕ → ℕ → Expr

  pub data Args : Type 0 where
    no_args : Args
    arg : Expr → Args → Args

pub record Declarator : Type 0 where
  pub name : Text
  pub init : Option Expr
  pub line : ℕ
  pub col : ℕ

pub data ForInit : Type 0 where
  init_decl : Declarator → ForInit
  init_expr : Expr → ForInit

mutual
  pub data Stmt : Type 0 where
    decl : List Declarator → Stmt
    return_ : Expr → ℕ → ℕ → Stmt
    if_ : Expr → Stmt → Else → Stmt
    while_ : Expr → Stmt → Stmt
    do_while : Stmt → Expr → Stmt
    for_ : Option ForInit → Option Expr → Option Expr → Stmt → Stmt
    break_ continue_ : ℕ → ℕ → Stmt
    block : Stmts → Stmt
    expr_stmt : Expr → Stmt
    empty : Stmt

  pub data Else : Type 0 where
    no_else : Else
    else_ : Stmt → Else

  pub data Stmts : Type 0 where
    nil : Stmts
    cons : Stmt → Stmts → Stmts

unfoldable mutual
  pub contains_return : Stmt → Bool
  contains_return (decl ds) = false
  contains_return (return_ e l c) = true
  contains_return (if_ e s els) = contains_return s || else_contains_return els
  contains_return (while_ e s) = contains_return s
  contains_return (do_while s e) = contains_return s
  contains_return (for_ i e p s) = contains_return s
  contains_return (break_ l c) = false
  contains_return (continue_ l c) = false
  contains_return (block ss) = any_contains_return ss
  contains_return (expr_stmt e) = false
  contains_return empty = false

  pub else_contains_return : Else → Bool
  else_contains_return no_else = false
  else_contains_return (else_ s) = contains_return s

  pub any_contains_return : Stmts → Bool
  any_contains_return nil = false
  any_contains_return (cons s ss) = contains_return s || any_contains_return ss

pub record Function : Type 0 where
  pub name : Text
  pub params : List Text
  pub body : Stmts
  pub line : ℕ
  pub col : ℕ

pub record Program : Type 0 where
  pub functions : List Function
