-- ===== src/Trans/Parser/ExpressionProgress.antt =====
-- The expression parser ends: with more fuel than tokens it takes a token or reports an error.
use u_flux.Prelude.{ℕ, zero, suc, ◌≤◌, ◌<◌, ◌≡◌, true, false, ◌||◌, arith, codes, text_eq}
use u_flux.Trans.Token.{punct, ident, eof, kind_eq, Token}
use u_flux.Trans.Ast.{UnOp, neg, not_op, bit_not, Expr, expr, var}
use u_flux.Trans.Parser.State.{Parser, M, ◌>>=◌, pure, bump, expect_ident, next_or}
use u_flux.Trans.Parser.Operators.{rounds}
use u_flux.Trans.Parser.Expressions.{
  step_node, is_step, stepped_expr, postfix, prefix_step, unary_node, unary_punct, unary_fuel,
  unary_expr, assign_node, at_assignment, assignment, expression,
}
use u_flux.Trans.Parser.Progress.{
  size, IsEnded, Post, raises, Any, Post-bind, Post-weaken, step-Advances, Post-if, bump-Post,
  expect_ident-Post,
}
use u_flux.Trans.Parser.OperatorProgress.{Good, logical_or-Good}
use u_flux.Trans.Parser.PrimaryProgress.{primary-Good, is_step-not_eof, Below, pure-Post, step-cur}

module _ (n : ℕ) {ex : M Expr} (below : Below n ex) where
  stepped_expr-Post :
      (e : Expr) (p : Parser)
      → IsEnded p
      → kind_eq p.cur.kind eof ≡ false
      → Post 0 p Any (stepped_expr ex e p.cur p)
  stepped_expr-Post (expr (var v) l c) p h k =
      Post-bind 0 _ (bump-Post h k) (λ _ q x _. pure-Post _ q x.ended) (omega arith)
  stepped_expr-Post (expr _ l c) p h k = raises

  postfix-Good : Good n (postfix ex)
  unfolding postfix
  postfix-Good p h le =
      Post-bind 1 _ ((primary-Good n below) p h le)
        (λ e q x _.
          Post-if (is_step ex q.cur)
            (λ k. stepped_expr-Post e q x.ended ((is_step-not_eof n below) q.cur k))
            (λ _. pure-Post e q x.ended))
        (omega arith)

  unary_node-Post :
      (op : UnOp) (again : M Expr) (p : Parser)
      → IsEnded p
      → kind_eq p.cur.kind eof ≡ false
      → Below (size p) again
      → Post 1 p Any (unary_node ex op p.cur again p)
  unary_node-Post op again p h k later =
      Post-bind 1 _
        (Post-bind 1 _ (bump-Post h k) (λ _ q x _. later q x.ended (omega (arith, x.further)))
          (omega arith))
        (λ e r y _. pure-Post _ r y.ended) (omega arith)

  stepped_name-Post :
      (t : Token) (p : Parser)
      → IsEnded p
      → Post 0 p Any ((expect_ident >>= λ m. pure (step_node t m)) p)
  stepped_name-Post t p h =
      Post-bind 0 _ (expect_ident-Post h) (λ m r y _. pure-Post _ r y.ended) (omega arith)

  prefix_step-Post :
      (p : Parser)
      → IsEnded p
      → kind_eq p.cur.kind eof ≡ false
      → Post 1 p Any (prefix_step ex p.cur p)
  prefix_step-Post p h k =
      Post-bind 1 (λ _. expect_ident >>= λ m. pure (step_node p.cur m)) (bump-Post h k)
        (λ _ q x _. stepped_name-Post p.cur q x.ended) (omega arith)

  unary_punct-Post :
      (again : M Expr) (p : Parser)
      → IsEnded p
      → kind_eq p.cur.kind eof ≡ false
      → size p ≤ n
      → Below (size p) again
      → Post 1 p Any (unary_punct ex again p.cur p)
  unfolding unary_punct
  unary_punct-Post again p h k le later =
      Post-if (text_eq p.cur.text (codes "-")) (λ _. unary_node-Post neg again p h k later)
        (λ _.
          Post-if (text_eq p.cur.text (codes "!")) (λ _. unary_node-Post not_op again p h k later)
            (λ _.
              Post-if (text_eq p.cur.text (codes "~"))
                (λ _. unary_node-Post bit_not again p h k later)
                (λ _.
                  Post-if (text_eq p.cur.text (codes "+"))
                    (λ _.
                      Post-bind 1 _ (bump-Post h k)
                        (λ _ q x _. later q x.ended (omega (arith, x.further))) (omega arith))
                    (λ _.
                      Post-if (text_eq p.cur.text (codes "++") || text_eq p.cur.text (codes "--"))
                        (λ _. prefix_step-Post p h k) (λ _. postfix-Good p h le)))))

  unary_fuel-Post :
      (f : ℕ) (p : Parser) → IsEnded p → size p ≤ n → size p < f → Post 1 p Any (unary_fuel ex f p)
  unfolding unary_fuel
  unary_fuel-Post zero p h le lt = elim lt [ ]
  unary_fuel-Post (suc f) p h le lt =
      Post-if (kind_eq p.cur.kind punct)
        (λ k.
          unary_punct-Post (unary_fuel ex f) p h (ground arith) le
            (λ q h' lt'. unary_fuel-Post f q h' (omega arith) (omega arith)))
        (λ _. postfix-Good p h le)

  unary_expr-Good : Good n (unary_expr ex)
  unfolding unary_expr
  unary_expr-Good p h le = unary_fuel-Post (rounds p) p h le (omega arith)

  assign_node-Post :
      (t u : Token) (value : M Expr) (p : Parser)
      → Post 1 p Any (value p)
      → Post 0 p Any (assign_node ex t u value p)
  assign_node-Post t u value p v =
      Post-if (text_eq u.text (codes "/=") || text_eq u.text (codes "%=")) (λ _. raises)
        (λ _. Post-bind 0 _ v (λ e q x _. pure-Post _ q x.ended) (omega arith))

  at_assignment-not_eof :
      (t u : Token)
      → at_assignment ex t u ≡ true
      → (kind_eq t.kind ident ≡ true) × (kind_eq u.kind punct ≡ true)
  at_assignment-not_eof t u h = (ground arith, ground arith)

  second_token :
      (t : Token) (value : M Expr) (m : ℕ) (q : Parser)
      → IsEnded q
      → kind_eq q.cur.kind eof ≡ false
      → size q ≤ m
      → Below m value
      → Post 0 q Any ((bump >>= λ u. assign_node ex t u value) q)
  second_token t value m q h k le later =
      Post-bind 0 (λ u. assign_node ex t u value) (bump-Post h k)
        (λ u r y _. assign_node-Post t u value r (later r y.ended (omega (arith, y.further))))
        (omega arith)

  -- Taking two tokens of which neither is the last.
  two_tokens :
      (value : M Expr) (p : Parser)
      → IsEnded p
      → kind_eq p.cur.kind eof ≡ false
      → kind_eq (next_or p.cur p.later).kind eof ≡ false
      → Below (size p) value
      → Post 1 p Any ((bump >>= λ t. bump >>= λ u. assign_node ex t u value) p)
  unfolding bump
  two_tokens value p h k j later =
      let x = step-Advances p h k in
      Post-weaken 1 x
        (second_token p.cur value (size p) _ x.ended (rw step-cur j) (omega (arith, x.further))
          later)
        (omega arith)

  assignment-Post :
      (f : ℕ) (p : Parser) → IsEnded p → size p ≤ n → size p < f → Post 1 p Any (assignment ex f p)
  unfolding assignment
  assignment-Post zero p h le lt = elim lt [ ]
  assignment-Post (suc f) p h le lt =
      Post-if (at_assignment ex p.cur (next_or p.cur p.later))
        (λ k.
          let r = at_assignment-not_eof p.cur (next_or p.cur p.later) k in
          two_tokens (assignment ex f) p h (ground arith) (ground arith)
            (λ q h' lt'. assignment-Post f q h' (omega arith) (omega arith)))
        (λ _. logical_or-Good n (unary_expr-Good) p h le)

-- When the last token is the end of the file and there is more fuel than tokens, the expression
-- parser ends, and a success takes a token.
pub expression-Post : (f : ℕ) (p : Parser) → IsEnded p → size p < f → Post 1 p Any (expression f p)
unfolding expression
expression-Post zero p h lt = elim lt [ ]
expression-Post (suc f) p h lt =
    assignment-Post (size p) (λ q h' lt'. expression-Post f q h' (omega arith)) (rounds p) p h
      (omega arith) (omega arith)
