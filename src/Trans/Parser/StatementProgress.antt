-- ===== src/Trans/Parser/StatementProgress.antt =====
-- Each kind of statement of trans/src/parser.rs, when nested statements end and their jumps stand
-- inside loops.
use u_flux.Prelude.{ℕ, ◌+◌, ◌-◌, ◌≤◌, ◌<◌, ◌≡◌, ◌∙◌, false, arith, codes, Outcome, ok, err}
use u_flux.Trans.Token.{eof, is_ident, kind_eq, Failure}
use u_flux.Trans.Ast.{Expr, Stmt, return_, if_, while_, no_else, else_}
use u_flux.Trans.Parser.State.{Parser, M, ◌>>=◌, pure, expect_punct}
use u_flux.Trans.Parser.Statements.{loop_body, else_part, if_stmt, while_stmt}
use u_flux.Trans.Parser.Declarations.{declaration, return_stmt, condition}
use u_flux.Trans.Parser.Jumps.{Inside, InsideElse}
use u_flux.Trans.Parser.Progress.{
  size, IsEnded, Post, returns, raises, Post-bind, Post-if, bump-Post, expect_punct-Post,
  is_ident-not_eof,
}
use u_flux.Trans.Parser.PrimaryProgress.{Below}
use u_flux.Trans.Parser.DeclarationProgress.{
  done-Post, skip-Post, type_spec-Post, declarator-Below, declarators-Ends, condition-Below,
}

-- Under `n` tokens and within `d` loops, the method ends, takes a token, and its jumps are inside.
abbrev pub Sound : ℕ → M Stmt → Type 0
Sound n st =
    (d : ℕ) (p : Parser) → IsEnded p → p.loop_depth ≡ d → size p < n → Post 1 p (Inside d) (st p)

-- The body of a loop is parsed one loop further in.
loop-Post :
    (p : Parser) (d : ℕ) (r : Outcome Failure (Stmt × Parser))
    → Post 1 (record p { loop_depth = p.loop_depth + 1 }) (Inside d) r
    → Post 1 p
        (Inside d)
        (elim r [ err e ↦ err e | ok (s, q) ↦ ok (s, record q { loop_depth = q.loop_depth - 1 }) ])
loop-Post p d r (returns x y) =
    returns
      (record { further = x.further; ended = x.ended; same_depth = omega (arith, x.same_depth) }) y
loop-Post p d r raises = raises

module _ (n : ℕ) {ex : M Expr} (below : Below n ex) where
  pub declaration-Post :
      (d : ℕ) (p : Parser) → IsEnded p → size p < n → Post 1 p (Inside d) (declaration ex p)
  unfolding declaration Inside
  declaration-Post d p h lt =
      Post-bind 1 _ (type_spec-Post p h)
        (λ _ q x _.
          Post-bind 1 _ (declarator-Below n below q x.ended (omega (arith, x.further)))
            (λ c r y _.
              Post-bind 0 _
                (declarators-Ends n below r y.ended (omega (arith, lt, x.further, y.further)))
                (λ cs s z _.
                  Post-bind 0 _ (expect_punct-Post z.ended (codes ";"))
                    (λ _ u w _. done-Post _ u w.ended tt) (omega arith))
                (omega arith))
            (omega arith))
        (omega arith)

  pub return_stmt-Post :
      (d : ℕ) (p : Parser)
      → IsEnded p
      → kind_eq p.cur.kind eof ≡ false
      → size p < n
      → Post 1 p (Inside d) (return_stmt ex p)
  unfolding return_stmt Inside
  return_stmt-Post d p h k lt =
      Post-bind 1 (λ t. ex >>= λ e. expect_punct (codes ";") >>= λ _. pure (return_ e t.line t.col))
        (bump-Post h k)
        (λ t q x _.
          Post-bind 0 _ (below q x.ended (omega (arith, x.further)))
            (λ e r y _.
              Post-bind 0 _ (expect_punct-Post y.ended (codes ";"))
                (λ _ s z _. done-Post (return_ e t.line t.col) s z.ended tt) (omega arith))
            (omega arith))
        (omega arith)

  module _ (m : ℕ) (le : m ≤ n) {st : M Stmt} (sound : Sound m st) where
    pub loop_body-Post :
        (d : ℕ) (p : Parser)
        → IsEnded p
        → p.loop_depth ≡ d
        → size p < m
        → Post 1 p (Inside (d + 1)) (loop_body ex st p)
    unfolding loop_body
    loop_body-Post d p h e lt =
        loop-Post p (d + 1) _
          (sound (d + 1) (record p { loop_depth = p.loop_depth + 1 }) h (omega (arith, e)) lt)

    else_part-Post :
        (d : ℕ) (p : Parser)
        → IsEnded p
        → p.loop_depth ≡ d
        → size p ≤ m
        → Post 0 p (InsideElse d) (else_part ex st p)
    unfolding Inside
    else_part-Post d p h e lt =
        Post-if (is_ident p.cur (codes "else"))
          (λ k.
            Post-bind 0 (λ s. pure (else_ s))
              (Post-bind 1 (λ _. st) (skip-Post p h (is_ident-not_eof p.cur (codes "else") k))
                (λ _ q x _. sound d q x.ended (x.same_depth ∙ e) (omega (arith, lt, x.further)))
                (omega arith))
              (λ s r y i. done-Post (else_ s) r y.ended i) (omega arith))
          (λ _. done-Post no_else p h tt)

    pub if_stmt-Post :
        (d : ℕ) (p : Parser)
        → IsEnded p
        → kind_eq p.cur.kind eof ≡ false
        → p.loop_depth ≡ d
        → size p ≤ m
        → size p < n
        → Post 1 p (Inside d) (if_stmt ex st p)
    unfolding if_stmt Inside
    if_stmt-Post d p h k e lt ln =
        Post-bind 1
          (λ _. condition ex >>= λ c. st >>= λ s. else_part ex st >>= λ els. pure (if_ c s els))
          (skip-Post p h k)
          (λ _ q x _.
            Post-bind 0 _ (condition-Below n below q x.ended (omega (arith, x.further)))
              (λ c r y _.
                Post-bind 0 _
                  (sound d r y.ended (y.same_depth ∙ x.same_depth ∙ e)
                    (omega (arith, lt, x.further, y.further)))
                  (λ s u z i.
                    Post-bind 0 _
                      (else_part-Post d u z.ended (z.same_depth ∙ y.same_depth ∙ x.same_depth ∙ e)
                        (omega (arith, lt, x.further, y.further, z.further)))
                      (λ els v w j. done-Post (if_ c s els) v w.ended (i, j)) (omega arith))
                  (omega arith))
              (omega arith))
          (omega arith)

    pub while_stmt-Post :
        (d : ℕ) (p : Parser)
        → IsEnded p
        → kind_eq p.cur.kind eof ≡ false
        → p.loop_depth ≡ d
        → size p ≤ m
        → size p < n
        → Post 1 p (Inside d) (while_stmt ex st p)
    unfolding while_stmt Inside
    while_stmt-Post d p h k e lt ln =
        Post-bind 1 (λ _. condition ex >>= λ c. loop_body ex st >>= λ s. pure (while_ c s))
          (skip-Post p h k)
          (λ _ q x _.
            Post-bind 0 _ (condition-Below n below q x.ended (omega (arith, x.further)))
              (λ c r y _.
                Post-bind 0 _
                  (loop_body-Post d r y.ended (y.same_depth ∙ x.same_depth ∙ e)
                    (omega (arith, lt, x.further, y.further)))
                  (λ s u z i. done-Post (while_ c s) u z.ended i) (omega arith))
              (omega arith))
          (omega arith)
