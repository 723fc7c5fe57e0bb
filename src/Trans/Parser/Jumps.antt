-- ===== src/Trans/Parser/Jumps.antt =====
-- Where `break` and `continue` stand in a statement of trans/src/ast.rs.
use u_flux.Prelude.{ℕ, ◌+◌, ◌≡◌, false, ◌==◌, All}
use u_flux.Trans.Ast.{
  Stmt, decl, return_, if_, while_, do_while, for_, break_, continue_, block, expr_stmt, empty,
  Else, no_else, else_, Stmts, nil, cons, Function, Program,
}

-- Within `d` loops, every jump stands in some loop.
unfoldable mutual
  pub Inside : ℕ → Stmt → Type 0
  Inside d (decl ds) = Unit {0}
  Inside d (return_ e l c) = Unit {0}
  Inside d (if_ c s els) = Inside d s × InsideElse d els
  Inside d (while_ c s) = Inside (d + 1) s
  Inside d (do_while s c) = Inside (d + 1) s
  Inside d (for_ i c e s) = Inside (d + 1) s
  Inside d (break_ l c) = (d == 0) ≡ false
  Inside d (continue_ l c) = (d == 0) ≡ false
  Inside d (block ss) = InsideAll d ss
  Inside d (expr_stmt e) = Unit {0}
  Inside d empty = Unit {0}

  pub InsideElse : ℕ → Else → Type 0
  InsideElse d no_else = Unit {0}
  InsideElse d (else_ s) = Inside d s

  pub InsideAll : ℕ → Stmts → Type 0
  InsideAll d nil = Unit {0}
  InsideAll d (cons s ss) = Inside d s × InsideAll d ss

-- No jump of the program stands outside a loop.
abbrev pub JumpsInside : Program → Type 0
JumpsInside g = All (λ (f : Function). InsideAll 0 f.body) g.functions
