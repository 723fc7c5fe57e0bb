-- ===== src/Trans/Parser/LoopProgress.antt =====
-- The loops `do` and `for`, and the jumps, of trans/src/parser.rs: what they leave of the tokens.
use u_flux.Prelude.{
  ℕ, ◌+◌, ◌≤◌, ◌<◌, ◌≡◌, refl, ◌∙◌, Bool, true, false, not, ◌==◌, arith, Text, codes, if◌then◌else◌,
}
use u_flux.Trans.Token.{Token, eof, is_ident, kind_eq}
use u_flux.Trans.Ast.{Expr, Stmt, do_while, for_}
use u_flux.Trans.Parser.State.{Parser, M, ◌>>=◌, pure, fail, expect_punct, depth}
use u_flux.Trans.Parser.Statements.{loop_body, do_end, do_stmt, for_stmt, jump_stmt}
use u_flux.Trans.Parser.Declarations.{condition, for_init, for_cond, for_post}
use u_flux.Trans.Parser.Jumps.{Inside}
use u_flux.Trans.Parser.Progress.{
  size, IsEnded, Post, raises, Post-bind, expect_punct-Post, is_ident-not_eof,
}
use u_flux.Trans.Parser.PrimaryProgress.{Below}
use u_flux.Trans.Parser.DeclarationProgress.{
  done-Post, skip-Post, condition-Below, for_init-Ends, for_cond-Ends, for_post-Ends,
}
use u_flux.Trans.Parser.StatementProgress.{Sound, loop_body-Post}

module _ (n : ℕ) {ex : M Expr} (below : Below n ex) where
  module _ (m : ℕ) (le : m ≤ n) {st : M Stmt} (sound : Sound m st) where
    do_end-Post :
        (d : ℕ) (s : Stmt) (p : Parser)
        → Inside (d + 1) s
        → IsEnded p
        → kind_eq p.cur.kind eof ≡ false
        → size p < n
        → Post 0 p (Inside d) (do_end ex st s p)
    unfolding Inside
    do_end-Post d s p i h k lt =
        Post-bind 0
          (λ _. condition ex >>= λ c. expect_punct (codes ";") >>= λ _. pure (do_while s c))
          (skip-Post p h k)
          (λ _ q x _.
            Post-bind 0 _ (condition-Below n below q x.ended (omega (arith, x.further)))
              (λ c r y _.
                Post-bind 0 _ (expect_punct-Post y.ended (codes ";"))
                  (λ _ u z _. done-Post (do_while s c) u z.ended i) (omega arith))
              (omega arith))
          (omega arith)

    pub do_stmt-Post :
        (d : ℕ) (p : Parser)
        → IsEnded p
        → kind_eq p.cur.kind eof ≡ false
        → p.loop_depth ≡ d
        → size p ≤ m
        → Post 1 p (Inside d) (do_stmt ex st p)
    unfolding do_stmt
    do_stmt-Post d p h k e lt =
        Post-bind 1
          (λ s p.
            if not (is_ident p.cur (codes "while"))
            then fail p.cur.line p.cur.col (codes "expected 'while' after do-body") p
            else do_end ex st s p)
          (Post-bind 1 (λ _. loop_body ex st) (skip-Post p h k)
            (λ _ q x _.
              (loop_body-Post n below m le sound) d q x.ended (x.same_depth ∙ e)
                (omega (arith, lt, x.further)))
            (omega arith))
          (λ s q x i.
            by_while s q (is_ident q.cur (codes "while")) refl i x.ended
              (omega (arith, lt, le, x.further)))
          (omega arith)
      where
        by_while :
            (s : Stmt) (q : Parser) (b : Bool)
            → is_ident q.cur (codes "while") ≡ b
            → Inside (d + 1) s
            → IsEnded q
            → size q < n
            → Post 0 q (Inside d) (
                if not b
                then fail q.cur.line q.cur.col (codes "expected 'while' after do-body") q
                else do_end ex st s q)
        by_while s q true g i h' lt' =
            do_end-Post d s q i h' (is_ident-not_eof q.cur (codes "while") g) lt'
        by_while s q false g i h' lt' = raises

    pub for_stmt-Post :
        (d : ℕ) (p : Parser)
        → IsEnded p
        → kind_eq p.cur.kind eof ≡ false
        → p.loop_depth ≡ d
        → size p ≤ m
        → Post 1 p (Inside d) (for_stmt ex st p)
    unfolding for_stmt Inside
    for_stmt-Post d p h k e lt =
        Post-bind 1
          (λ _. expect_punct (codes "(") >>= λ _. for_init ex >>= λ i. for_cond ex >>= λ c.
            for_post ex >>= λ x.
            expect_punct (codes ")") >>= λ _. loop_body ex st >>= λ s. pure (for_ i c x s))
          (skip-Post p h k)
          (λ _ q x _.
            Post-bind 0 _ (expect_punct-Post x.ended (codes "("))
              (λ _ r y _.
                Post-bind 0 _
                  (for_init-Ends n below r y.ended (omega (arith, lt, le, x.further, y.further)))
                  (λ i s z _.
                    Post-bind 0 _
                      (for_cond-Ends n below s z.ended
                        (omega (arith, lt, le, x.further, y.further, z.further)))
                      (λ c t w _.
                        Post-bind 0 _
                          (for_post-Ends n below t w.ended
                            (omega (arith, lt, le, x.further, y.further, z.further, w.further)))
                          (λ o u v _.
                            Post-bind 0 _ (expect_punct-Post v.ended (codes ")"))
                              (λ _ a f _.
                                Post-bind 0 _
                                  ((loop_body-Post n below m le sound) d a f.ended
                                    (f.same_depth ∙ v.same_depth ∙ w.same_depth ∙ z.same_depth
                                      ∙ y.same_depth ∙ x.same_depth ∙ e)
                                    (omega (
                                      arith, lt, x.further, y.further, z.further, w.further,
                                      v.further, f.further,
                                    )))
                                  (λ b g j ins. done-Post (for_ i c o b) g j.ended ins)
                                  (omega arith))
                              (omega arith))
                          (omega arith))
                      (omega arith))
                  (omega arith))
              (omega arith))
          (omega arith)

    -- Behind `break` or `continue`, a depth of 0 is an error.
    pub jump_stmt-Post :
        (msg : Text) (s : Stmt) (t : Token) (d : ℕ) (p : Parser)
        → ((d == 0) ≡ false → Inside d s)
        → IsEnded p
        → kind_eq p.cur.kind eof ≡ false
        → p.loop_depth ≡ d
        → Post 1 p (Inside d) (jump_stmt ex st msg s t p)
    unfolding jump_stmt
    jump_stmt-Post msg s t d p i h k e =
        Post-bind 1
          (λ _. expect_punct (codes ";") >>= λ _.
            depth >>= λ d. if d == 0 then fail t.line t.col msg else pure s)
          (skip-Post p h k)
          (λ _ q x _.
            Post-bind 0 _ (expect_punct-Post x.ended (codes ";"))
              (λ _ r y _.
                by_depth r y.ended (y.same_depth ∙ x.same_depth ∙ e) (r.loop_depth == 0) refl)
              (omega arith))
          (omega arith)
      where
        by_depth :
            (r : Parser)
            → IsEnded r
            → r.loop_depth ≡ d
            → (b : Bool) → (r.loop_depth == 0) ≡ b
            → Post 0 r (Inside d) ((if b then fail t.line t.col msg else pure s) r)
        by_depth r h' e' true g = raises
        by_depth r h' e' false g = done-Post s r h' (i (rw e' at g))
