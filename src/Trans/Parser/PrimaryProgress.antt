-- ===== src/Trans/Parser/PrimaryProgress.antt =====
-- The primary expressions of trans/src/parser.rs: what they leave of the tokens.
use u_flux.Prelude.{
  ℕ, zero, suc, ◌≤◌, ◌<◌, ◌≡◌, refl, inl, inr, Bool, true, false, List, [], ◌∷◌, arith, Bool-cases,
  Text, codes, text_eq,
}
use u_flux.Trans.Token.{Kind, eof, kind_eq, Token, is_punct}
use u_flux.Trans.Ast.{ExprKind, Expr, arg, no_args, index, argv, byte}
use u_flux.Trans.Parser.State.{Parser, M, ◌>>=◌, ◌>>◌, pure, bump, next_or, step}
use u_flux.Trans.Parser.Operators.{rounds}
use u_flux.Trans.Parser.Expressions.{
  closed_by, bracketed, more_args, args, call_args, after_name, name, parenthesised, primary_of,
  primary, is_step,
}
use u_flux.Trans.Parser.Progress.{
  size, IsEnded, Advances-refl, Post, returns, raises, Any, Post-bind, Post-if, bump-Post,
  expect_punct-Post, punct-not_eof,
}
use u_flux.Trans.Parser.OperatorProgress.{Good}

-- Under `n` tokens, the method ends and takes a token.
abbrev pub Below : {A : Type 0} → ℕ → M A → Type 0
Below n m = (p : Parser) → IsEnded p → size p < n → Post 1 p Any (m p)

-- A method that need not take a token.
abbrev pub Ends : {A : Type 0} → ℕ → M A → Type 0
Ends n m = (p : Parser) → IsEnded p → size p < n → Post 0 p Any (m p)

pub pure-Post : {A : Type 0} (a : A) (p : Parser) → IsEnded p → Post 0 p Any (pure a p)
pure-Post a p h = returns (Advances-refl h) tt

pub step-cur : (t : Token) (us : List Token) (d : ℕ) → (step t us d).cur ≡ next_or t us
step-cur t [] d = refl
step-cur t (u ∷ us) d = refl

module _ (n : ℕ) {ex : M Expr} (below : Below n ex) where
  closed_by-Below :
      (close : Text) (k : Expr → ExprKind) (t : Token) → Below n (closed_by ex close k t)
  closed_by-Below close k t p h lt =
      Post-bind 1 _ (below p h lt)
        (λ e q x _.
          Post-bind 0 _ (expect_punct-Post x.ended close) (λ _ r y _. pure-Post _ r y.ended)
            (omega arith))
        (omega arith)

  bracketed-Ends :
      (open_ close : Text) (k : Expr → ExprKind) (t : Token) → Ends n (bracketed ex open_ close k t)
  bracketed-Ends open_ close k t p h lt =
      Post-bind 0 _ (expect_punct-Post h open_)
        (λ _ q x _. closed_by-Below close k t q x.ended (omega (arith, x.further))) (omega arith)

  more_args-Post :
      (f : ℕ) (p : Parser) → IsEnded p → size p < n → size p < f → Post 0 p Any (more_args ex f p)
  unfolding more_args
  more_args-Post zero p h lt k = elim k [ ]
  more_args-Post (suc f) p h lt k = by_comma (is_punct p.cur (codes ",")) refl (more_args-Post f)
    where
      by_comma :
          (b : Bool)
          → is_punct p.cur (codes ",") ≡ b
          → ((q : Parser) → IsEnded q → size q < n → size q < f → Post 0 q Any (more_args ex f q))
          → Post 0 p Any (elim b [
            | false ↦ pure no_args p
            | true ↦ (bump >> ex >>= λ e. more_args ex f >>= λ es. pure (arg e es)) p
          ])
      by_comma false e later = pure-Post no_args p h
      by_comma true e later =
          Post-bind 0 _
            (Post-bind 1 _ (bump-Post h (punct-not_eof p.cur (codes ",") e))
              (λ _ q x _. below q x.ended (omega (arith, x.further))) (omega arith))
            (λ a q x _.
              Post-bind 0 _ (later q x.ended (omega (arith, x.further)) (omega (arith, x.further)))
                (λ es r y _. pure-Post _ r y.ended) (omega arith))
            (omega arith)

  args-Ends : Ends n (args ex)
  unfolding args
  args-Ends p h lt =
      Post-if (is_punct p.cur (codes ")")) (λ _. pure-Post no_args p h)
        (λ _.
          Post-bind 0 _ (below p h lt)
            (λ e q x _.
              Post-bind 0 _
                (more_args-Post (rounds q) q x.ended (omega (arith, x.further)) (omega arith))
                (λ es r y _. pure-Post _ r y.ended) (omega arith))
            (omega arith))

  call_args-Ends : (t : Token) → Ends n (call_args ex t)
  call_args-Ends t p h lt =
      Post-bind 0 _ (args-Ends p h lt)
        (λ es q x _.
          Post-bind 0 _ (expect_punct-Post x.ended (codes ")")) (λ _ r y _. pure-Post _ r y.ended)
            (omega arith))
        (omega arith)

  after_name-Ends : (t : Token) → Ends n (after_name ex t)
  unfolding after_name
  after_name-Ends t p h lt =
      Post-if (is_punct p.cur (codes "("))
        (λ e.
          Post-bind 0 _ (bump-Post h (punct-not_eof p.cur (codes "(") e))
            (λ _ q x _. call_args-Ends t q x.ended (omega (arith, x.further))) (omega arith))
        (λ _.
          Post-if (is_punct p.cur (codes "["))
            (λ e.
              Post-bind 0 _ (bump-Post h (punct-not_eof p.cur (codes "[") e))
                (λ _ q x _.
                  closed_by-Below (codes "]") (index t.text) t q x.ended (omega (arith, x.further)))
                (omega arith))
            (λ _. pure-Post _ p h))

  name-Ends : (t : Token) → Ends n (name ex t)
  unfolding name
  name-Ends t p h lt =
      Post-if (text_eq t.text (codes "argc")) (λ _. leaf _)
        (λ _.
          Post-if (text_eq t.text (codes "stdout")) (λ _. leaf _)
            (λ _.
              Post-if (text_eq t.text (codes "stdin")) (λ _. leaf _)
                (λ _.
                  Post-if (text_eq t.text (codes "stderr")) (λ _. leaf _)
                    (λ _.
                      Post-if (text_eq t.text (codes "argv"))
                        (λ _. bracketed-Ends (codes "[") (codes "]") argv t p h lt)
                        (λ _.
                          Post-if (text_eq t.text (codes "__byte"))
                            (λ _. bracketed-Ends (codes "(") (codes ")") byte t p h lt)
                            (λ _.
                              Post-if (text_eq t.text (codes "NULL")) (λ _. leaf _)
                                (λ _.
                                  Post-if (text_eq t.text (codes "EOF")) (λ _. leaf _)
                                    (λ _. after_name-Ends t p h lt))))))))
    where
      leaf : (e : Expr) → Post 0 p Any (pure e p)
      leaf e = pure-Post e p h

  parenthesised-Post :
      (p : Parser)
      → IsEnded p
      → kind_eq p.cur.kind eof ≡ false
      → size p ≤ n
      → Post 1 p Any (parenthesised ex p)
  parenthesised-Post p h k le =
      Post-bind 1 _ (bump-Post h k)
        (λ _ q x _.
          Post-bind 0 _ (below q x.ended (omega (arith, x.further)))
            (λ e r y _.
              Post-bind 0 _ (expect_punct-Post y.ended (codes ")"))
                (λ _ s z _. pure-Post _ s z.ended) (omega arith))
            (omega arith))
        (omega arith)

  leaf-Post :
      (e : Expr) (p : Parser)
      → IsEnded p
      → kind_eq p.cur.kind eof ≡ false
      → Post 1 p Any ((bump >> pure e) p)
  leaf-Post e p h k = Post-bind 1 _ (bump-Post h k) (λ _ q x _. pure-Post e q x.ended) (omega arith)

  primary_of-Post :
      (kind : Kind) (p : Parser)
      → p.cur.kind ≡ kind
      → IsEnded p
      → size p ≤ n
      → Post 1 p Any (primary_of ex kind p.cur p)
  primary_of-Post Kind.int p e h le = leaf-Post _ p h (rw e refl)
  primary_of-Post Kind.str p e h le = leaf-Post _ p h (rw e refl)
  primary_of-Post Kind.char p e h le = leaf-Post _ p h (rw e refl)
  primary_of-Post Kind.punct p e h le =
      Post-if (text_eq p.cur.text (codes "(")) (λ _. parenthesised-Post p h (rw e refl) le)
        (λ _. raises)
  primary_of-Post Kind.ident p e h le =
      Post-bind 1 _ (bump-Post h (rw e refl))
        (λ _ q x _. name-Ends p.cur q x.ended (omega (arith, x.further))) (omega arith)
  primary_of-Post Kind.eof p e h le = raises

  pub primary-Good : Good n (primary ex)
  unfolding primary
  primary-Good p h le = primary_of-Post p.cur.kind p refl h le

  pub is_step-not_eof : (t : Token) → is_step ex t ≡ true → kind_eq t.kind eof ≡ false
  is_step-not_eof t h = elim (Bool-cases (is_punct t (codes "++"))) [
    | inl e ↦ punct-not_eof t _ e
    | inr e ↦ punct-not_eof t (codes "--") (rw e at h)
  ]
