-- ===== src/Trans/Parser/BlockProgress.antt =====
-- The blocks and statements of trans/src/parser.rs: what they leave of the tokens, and where jumps stand.
use u_flux.Prelude.{
  ℕ, zero, suc, ◌≤◌, ◌<◌, ◌≡◌, ◌∙◌, Bool, true, false, not, ◌&&◌, arith, Bool-cases, inl, inr,
  codes, text_eq, if◌then◌else◌,
}
use u_flux.Trans.Token.{ident, eof, is_punct, is_type_word, kind_eq}
use u_flux.Trans.Ast.{Expr, Stmt, break_, continue_, block, expr_stmt, empty, Stmts, nil, cons}
use u_flux.Trans.Parser.State.{Parser, M, ◌>>=◌, pure}
use u_flux.Trans.Parser.Operators.{rounds}
use u_flux.Trans.Parser.Statements.{
  stmts_fuel, block_stmts, plain_stmt, keyword_stmt, stmt_step, statement,
}
use u_flux.Trans.Parser.Jumps.{Inside, InsideAll}
use u_flux.Trans.Parser.Progress.{
  size, IsEnded, Post, Post-bind, Post-if, expect_punct-Post, punct-not_eof, ident-not_eof,
}
use u_flux.Trans.Parser.PrimaryProgress.{Below}
use u_flux.Trans.Parser.DeclarationProgress.{done-Post, skip-Post, ended-Below}
use u_flux.Trans.Parser.StatementProgress.{
  Sound, declaration-Post, return_stmt-Post, if_stmt-Post, while_stmt-Post,
}
use u_flux.Trans.Parser.LoopProgress.{do_stmt-Post, for_stmt-Post, jump_stmt-Post}

module _ (n : ℕ) {ex : M Expr} (below : Below n ex) where
  module _ (m : ℕ) (le : m ≤ n) {st : M Stmt} (sound : Sound m st) where
    stmts_fuel-Post :
        (d f : ℕ) (p : Parser)
        → IsEnded p
        → p.loop_depth ≡ d
        → size p < m
        → size p < f
        → Post 0 p (InsideAll d) (stmts_fuel ex st f p)
    unfolding stmts_fuel Inside
    stmts_fuel-Post d zero p h e lt k = elim k [ ]
    stmts_fuel-Post d (suc f) p h e lt k =
        by_test (not (is_punct p.cur (codes "}")) && not (kind_eq p.cur.kind eof))
          (stmts_fuel-Post d f)
      where
        by_test :
            (b : Bool)
            → ((q : Parser)
                → IsEnded q
                → q.loop_depth ≡ d
                → size q < m
                → size q < f
                → Post 0 q (InsideAll d) (stmts_fuel ex st f q))
            → Post {A = Stmts} 0 p (InsideAll d) (elim b [
              | true ↦ (st >>= λ s. stmts_fuel ex st f >>= λ ss. pure (cons s ss)) p
              | false ↦ pure nil p
            ])
        by_test true later =
            Post-bind 0 _ (sound d p h e lt)
              (λ s q x i.
                Post-bind 0 _
                  (later q x.ended (x.same_depth ∙ e) (omega (arith, x.further))
                    (omega (arith, x.further)))
                  (λ ss r y j. done-Post (cons s ss) r y.ended (i, j)) (omega arith))
              (omega arith)
        by_test false later = done-Post nil p h tt

    pub block_stmts-Post :
        (d : ℕ) (p : Parser)
        → IsEnded p
        → p.loop_depth ≡ d
        → size p < m
        → Post 1 p (InsideAll d) (block_stmts ex st p)
    unfolding block_stmts
    block_stmts-Post d p h e lt =
        Post-bind 1 _ (stmts_fuel-Post d (rounds p) p h e lt (omega arith))
          (λ ss q x i.
            Post-bind 1 _ (expect_punct-Post x.ended (codes "}"))
              (λ _ r y _. done-Post ss r y.ended i) (omega arith))
          (omega arith)

    plain_stmt-Post :
        (d : ℕ) (p : Parser)
        → IsEnded p
        → p.loop_depth ≡ d
        → size p ≤ m
        → size p < n
        → Post 1 p (Inside d) (plain_stmt ex st p.cur p)
    unfolding plain_stmt Inside
    plain_stmt-Post d p h e lt ln = elim (Bool-cases (is_punct p.cur (codes "{"))) [
      | inl b ↦ rw b (
          Post-bind 1 (λ ss. pure (block ss))
            (Post-bind 1 (λ _. block_stmts ex st)
              (skip-Post p h (punct-not_eof p.cur (codes "{") b))
              (λ _ q x _.
                block_stmts-Post d q x.ended (x.same_depth ∙ e) (omega (arith, lt, x.further)))
              (omega arith))
            (λ ss r y i. done-Post (block ss) r y.ended i) (omega arith))
      | inr b ↦ rw b (elim (Bool-cases (is_punct p.cur (codes ";"))) [
        | inl c ↦ rw c (
            Post-bind 1 (λ _. pure empty) (skip-Post p h (punct-not_eof p.cur (codes ";") c))
              (λ _ q x _. done-Post empty q x.ended tt) (omega arith))
        | inr c ↦ rw c (
            Post-bind 1 _ (ended-Below n below p h ln)
              (λ x q y _. done-Post (expr_stmt x) q y.ended tt) (omega arith))
      ])
    ]

    keyword_stmt-Post :
        (d : ℕ) (p : Parser)
        → IsEnded p
        → kind_eq p.cur.kind eof ≡ false
        → p.loop_depth ≡ d
        → size p ≤ m
        → size p < n
        → Post 1 p (Inside d) (keyword_stmt ex st p.cur p)
    unfolding keyword_stmt Inside
    keyword_stmt-Post d p h k e lt ln =
        pick (text_eq p.cur.text (codes "return")) _ _ (return_stmt-Post n below d p h k ln) (
          pick (text_eq p.cur.text (codes "if")) _ _
            (if_stmt-Post n below m le sound d p h k e lt ln)
            (pick (text_eq p.cur.text (codes "while")) _ _
              (while_stmt-Post n below m le sound d p h k e lt ln)
              (pick (text_eq p.cur.text (codes "for")) _ _
                (for_stmt-Post n below m le sound d p h k e lt)
                (pick (text_eq p.cur.text (codes "do")) _ _
                  (do_stmt-Post n below m le sound d p h k e lt)
                  (pick (text_eq p.cur.text (codes "break")) _ _
                    (jump_stmt-Post n below m le sound (codes "break outside loop")
                      (break_ p.cur.line p.cur.col) p.cur d p (λ i. i) h k e)
                    (pick (text_eq p.cur.text (codes "continue")) _ _
                      (jump_stmt-Post n below m le sound (codes "continue outside loop")
                        (continue_ p.cur.line p.cur.col) p.cur d p (λ i. i) h k e)
                      (plain_stmt-Post d p h e lt ln)))))))
      where
        pick :
            (b : Bool) (x y : M Stmt)
            → Post 1 p (Inside d) (x p)
            → Post 1 p (Inside d) (y p)
            → Post 1 p (Inside d) ((if b then x else y) p)
        pick true x y f g = f
        pick false x y f g = g

    stmt_step-Post :
        (d : ℕ) (p : Parser)
        → IsEnded p
        → p.loop_depth ≡ d
        → size p ≤ m
        → size p < n
        → Post 1 p (Inside d) (stmt_step ex st p)
    unfolding stmt_step
    stmt_step-Post d p h e lt ln =
        Post-if (is_type_word p.cur) (λ _. declaration-Post n below d p h ln)
          (λ _.
            Post-if (kind_eq p.cur.kind ident)
              (λ k. keyword_stmt-Post d p h (ident-not_eof p.cur k) e lt ln)
              (λ _. plain_stmt-Post d p h e lt ln))

  pub statement-Sound : (f : ℕ) → f ≤ n → Sound f (statement ex f)
  unfolding statement
  statement-Sound zero le d p h e lt = elim lt [ ]
  statement-Sound (suc f) le d p h e lt =
      stmt_step-Post f (omega arith) (statement-Sound f (omega arith)) d p h e (omega arith)
        (omega (arith, lt, le))
