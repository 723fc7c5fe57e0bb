-- ===== src/Trans/Parser/DeclarationProgress.antt =====
-- Declarations and the parts of a `for` head in trans/src/parser.rs end.
use u_flux.Prelude.{
  ℕ, zero, suc, ◌<◌, ◌≡◌, refl, Bool, true, false, ◌||◌, List, [], ◌∷◌, none, arith, codes,
}
use u_flux.Trans.Token.{Token, is_punct, is_type_word, kind_eq, eof}
use u_flux.Trans.Ast.{Expr, Declarator}
use u_flux.Trans.Parser.State.{Parser, M, ◌>>=◌, ◌>>◌, pure, bump}
use u_flux.Trans.Parser.Operators.{rounds}
use u_flux.Trans.Parser.Statements.{}
use u_flux.Trans.Parser.Declarations.{
  type_spec_fuel, type_spec, with_init, declarator, more_declarators, condition, ended, for_decl,
  for_init, for_cond, for_post, skip,
}
use u_flux.Trans.Parser.Progress.{
  size, IsEnded, Advances-refl, Post, returns, Any, Post-bind, Post-if, bump-Post,
  expect_punct-Post, expect_ident-Post, punct-not_eof, ident-not_eof,
}
use u_flux.Trans.Parser.PrimaryProgress.{Below, Ends}

pub done-Post :
    {A : Type 0} {Q : A → Type 0} (a : A) (p : Parser) → IsEnded p → Q a → Post 0 p Q (pure a p)
done-Post a p h q = returns (Advances-refl h) q

pub type_word-not_eof : (t : Token) → is_type_word t ≡ true → kind_eq t.kind eof ≡ false
unfolding is_type_word
type_word-not_eof t h = ident-not_eof t (ground arith)

pub skip-Post : (p : Parser) → IsEnded p → kind_eq p.cur.kind eof ≡ false → Post 1 p Any (skip p)
skip-Post p h k = Post-bind 1 _ (bump-Post h k) (λ _ q x _. done-Post _ q x.ended tt) (omega arith)

type_spec_fuel-Post :
    (f : ℕ) (p : Parser) → IsEnded p → size p < f → Post 0 p Any (type_spec_fuel f p)
unfolding type_spec_fuel
type_spec_fuel-Post zero p h lt = elim lt [ ]
type_spec_fuel-Post (suc f) p h lt =
    by_word (is_type_word p.cur) (is_punct p.cur (codes "*")) refl refl (type_spec_fuel-Post f)
  where
    by_word :
        (a b : Bool)
        → is_type_word p.cur ≡ a
        → is_punct p.cur (codes "*") ≡ b
        → ((q : Parser) → IsEnded q → size q < f → Post 0 q Any (type_spec_fuel f q))
        → Post 0 p Any
            (elim (a || b) [ true ↦ (bump >>= λ _. type_spec_fuel f) p | false ↦ pure tt p ])
    by_word true b e g later =
        Post-bind 0 _ (bump-Post h (type_word-not_eof p.cur e))
          (λ _ q x _. later q x.ended (omega (arith, x.further))) (omega arith)
    by_word false true e g later =
        Post-bind 0 _ (bump-Post h (punct-not_eof p.cur (codes "*") g))
          (λ _ q x _. later q x.ended (omega (arith, x.further))) (omega arith)
    by_word false false e g later = done-Post tt p h tt

pub type_spec-Post : (p : Parser) → IsEnded p → Post 0 p Any (type_spec p)
unfolding type_spec
type_spec-Post p h = type_spec_fuel-Post (rounds p) p h (omega arith)

module _ (n : ℕ) {ex : M Expr} (below : Below n ex) where
  with_init-Post :
      (t : Token) (p : Parser)
      → IsEnded p
      → size p < n
      → kind_eq p.cur.kind eof ≡ false
      → Post 0 p Any (with_init ex t p)
  with_init-Post t p h lt k =
      Post-bind 0 _ (skip-Post p h k)
        (λ _ q x _.
          Post-bind 0 _ (below q x.ended (omega (arith, x.further)))
            (λ e r y _. done-Post _ r y.ended tt) (omega arith))
        (omega arith)

  pub declarator-Below : Below n (declarator ex)
  unfolding declarator
  declarator-Below p h lt =
      Post-bind 1 _ (expect_ident-Post h)
        (λ t q x _.
          Post-if (is_punct q.cur (codes "="))
            (λ e.
              with_init-Post t q x.ended (omega (arith, x.further))
                (punct-not_eof q.cur (codes "=") e))
            (λ _. done-Post _ q x.ended tt))
        (omega arith)

  more_declarators-Post :
      (f : ℕ) (p : Parser)
      → IsEnded p
      → size p < n
      → size p < f
      → Post 0 p Any (more_declarators ex f p)
  unfolding more_declarators
  more_declarators-Post zero p h lt k = elim k [ ]
  more_declarators-Post (suc f) p h lt k =
      by_comma (is_punct p.cur (codes ",")) refl (more_declarators-Post f)
    where
      by_comma :
          (b : Bool)
          → is_punct p.cur (codes ",") ≡ b
          → ((q : Parser)
              → IsEnded q
              → size q < n
              → size q < f
              → Post 0 q Any (more_declarators ex f q))
          → Post {A = List Declarator} 0 p Any (elim b [
            | false ↦ pure [] p
            | true ↦
                (skip >> declarator ex >>= λ d. more_declarators ex f >>= λ ds. pure (d ∷ ds)) p
          ])
      by_comma false e later = done-Post [] p h tt
      by_comma true e later =
          Post-bind 0 _
            (Post-bind 1 _ (skip-Post p h (punct-not_eof p.cur (codes ",") e))
              (λ _ q x _. declarator-Below q x.ended (omega (arith, x.further))) (omega arith))
            (λ d q x _.
              Post-bind 0 _ (later q x.ended (omega (arith, x.further)) (omega (arith, x.further)))
                (λ ds r y _. done-Post _ r y.ended tt) (omega arith))
            (omega arith)

  pub ended-Below : Below n (ended ex)
  ended-Below p h lt =
      Post-bind 1 _ (below p h lt)
        (λ e q x _.
          Post-bind 0 _ (expect_punct-Post x.ended (codes ";"))
            (λ _ r y _. done-Post e r y.ended tt) (omega arith))
        (omega arith)

  pub condition-Below : Below n (condition ex)
  condition-Below p h lt =
      Post-bind 1 _ (expect_punct-Post h (codes "("))
        (λ _ q x _.
          Post-bind 0 _ (below q x.ended (omega (arith, x.further)))
            (λ e r y _.
              Post-bind 0 _ (expect_punct-Post y.ended (codes ")"))
                (λ _ s z _. done-Post e s z.ended tt) (omega arith))
            (omega arith))
        (omega arith)

  -- A type, a name and the rest, then the semicolon.
  pub for_decl-Ends : Ends n (for_decl ex)
  unfolding for_decl
  for_decl-Ends p h lt =
      Post-bind 0 _ (type_spec-Post p h)
        (λ _ q x _.
          Post-bind 0 _ (expect_ident-Post x.ended)
            (λ t r y _.
              Post-bind 0 _ (expect_punct-Post y.ended (codes "="))
                (λ _ s z _.
                  Post-bind 0 _
                    (ended-Below s z.ended (omega (arith, lt, x.further, y.further, z.further)))
                    (λ e u w _. done-Post _ u w.ended tt) (omega arith))
                (omega arith))
            (omega arith))
        (omega arith)

  pub for_init-Ends : Ends n (for_init ex)
  unfolding for_init
  for_init-Ends p h lt =
      Post-if (is_punct p.cur (codes ";"))
        (λ e.
          Post-bind 0 (λ _. pure none) (skip-Post p h (punct-not_eof p.cur (codes ";") e))
            (λ _ q x _. done-Post none q x.ended tt) (omega arith))
        (λ _.
          Post-if (is_type_word p.cur)
            (λ _.
              Post-bind 0 _ (for_decl-Ends p h lt) (λ d q x _. done-Post _ q x.ended tt)
                (omega arith))
            (λ _.
              Post-bind 0 _ (ended-Below p h lt) (λ e q x _. done-Post _ q x.ended tt)
                (omega arith)))

  pub for_cond-Ends : Ends n (for_cond ex)
  unfolding for_cond
  for_cond-Ends p h lt =
      Post-if (is_punct p.cur (codes ";"))
        (λ e.
          Post-bind 0 (λ _. pure none) (skip-Post p h (punct-not_eof p.cur (codes ";") e))
            (λ _ q x _. done-Post none q x.ended tt) (omega arith))
        (λ _.
          Post-bind 0 _ (ended-Below p h lt) (λ e q x _. done-Post _ q x.ended tt) (omega arith))

  pub for_post-Ends : Ends n (for_post ex)
  unfolding for_post
  for_post-Ends p h lt =
      Post-if (is_punct p.cur (codes ")")) (λ _. done-Post _ p h tt)
        (λ _. Post-bind 0 _ (below p h lt) (λ e q x _. done-Post _ q x.ended tt) (omega arith))

  pub declarators-Ends : Ends n (λ p. more_declarators ex (rounds p) p)
  declarators-Ends p h lt = more_declarators-Post (rounds p) p h lt (omega arith)
