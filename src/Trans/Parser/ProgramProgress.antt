-- ===== src/Trans/Parser/ProgramProgress.antt =====
-- The parser of trans/src/parser.rs ends on every token list that the lexer gives.
use u_flux.Prelude.{
  ℕ, zero, suc, ◌<◌, ◌≡◌, refl, ◌∙◌, Bool, true, false, ◌||◌, List, [], ◌∷◌, arith, Text, codes,
  Outcome, ok, err, All,
}
use u_flux.Trans.Token.{Token, eof, is_punct, is_type_word, kind_eq, Failure, Error, failed}
use u_flux.Trans.Ast.{Expr, Stmt, Function, Program}
use u_flux.Trans.Parser.State.{Parser, new, M, ◌>>=◌, ◌>>◌, pure, expect_ident}
use u_flux.Trans.Parser.Operators.{rounds}
use u_flux.Trans.Parser.Expressions.{expression}
use u_flux.Trans.Parser.Statements.{
  params_fuel, function, functions_fuel, program, program_of, parse_with, parse_program,
}
use u_flux.Trans.Parser.Declarations.{skip}
use u_flux.Trans.Parser.Jumps.{InsideAll, JumpsInside}
use u_flux.Trans.Parser.Progress.{
  size, IsEnded, last_is_eof, Post, returns, raises, Any, Post-bind, expect_punct-Post,
  expect_ident-Post, punct-not_eof,
}
use u_flux.Trans.Parser.ExpressionProgress.{expression-Post}
use u_flux.Trans.Parser.PrimaryProgress.{Below}
use u_flux.Trans.Parser.DeclarationProgress.{
  done-Post, type_word-not_eof, skip-Post, type_spec-Post,
}
use u_flux.Trans.Parser.StatementProgress.{Sound}
use u_flux.Trans.Parser.BlockProgress.{block_stmts-Post, statement-Sound}

params_fuel-Post : (f : ℕ) (p : Parser) → IsEnded p → size p < f → Post 0 p Any (params_fuel f p)
unfolding params_fuel
params_fuel-Post zero p h lt = elim lt [ ]
params_fuel-Post (suc f) p h lt = by_close (is_punct p.cur (codes ")")) (params_fuel-Post f)
  where
    by_skip :
        (a b c : Bool)
        → is_punct p.cur (codes ",") ≡ a
        → is_type_word p.cur ≡ b
        → is_punct p.cur (codes "*") ≡ c
        → ((q : Parser) → IsEnded q → size q < f → Post 0 q Any (params_fuel f q))
        → Post {A = List Text} 0 p Any (elim (a || b || c) [
          | true ↦ (skip >> params_fuel f) p
          | false ↦ (expect_ident >>= λ t. params_fuel f >>= λ names. pure (t.text ∷ names)) p
        ])
    by_skip true b c u v w later =
        Post-bind 0 (λ _. params_fuel f) (skip-Post p h (punct-not_eof p.cur (codes ",") u))
          (λ _ q x _. later q x.ended (omega (arith, lt, x.further))) (omega arith)
    by_skip false true c u v w later =
        Post-bind 0 (λ _. params_fuel f) (skip-Post p h (type_word-not_eof p.cur v))
          (λ _ q x _. later q x.ended (omega (arith, lt, x.further))) (omega arith)
    by_skip false false true u v w later =
        Post-bind 0 (λ _. params_fuel f) (skip-Post p h (punct-not_eof p.cur (codes "*") w))
          (λ _ q x _. later q x.ended (omega (arith, lt, x.further))) (omega arith)
    by_skip false false false u v w later =
        Post-bind 0 (λ t. params_fuel f >>= λ names. pure (t.text ∷ names)) (expect_ident-Post h)
          (λ t q x _.
            Post-bind 0 _ (later q x.ended (omega (arith, lt, x.further)))
              (λ names r y _. done-Post (t.text ∷ names) r y.ended tt) (omega arith))
          (omega arith)

    by_close :
        (b : Bool)
        → ((q : Parser) → IsEnded q → size q < f → Post 0 q Any (params_fuel f q))
        → Post {A = List Text} 0 p Any (elim b [
          | true ↦ pure [] p
          | false ↦
              elim (is_punct p.cur (codes ",")
                || is_type_word p.cur
                || is_punct p.cur (codes "*")) [
                  | true ↦ (skip >> params_fuel f) p
                  | false ↦
                      (expect_ident >>= λ t. params_fuel f >>= λ names. pure (t.text ∷ names)) p
                ]
        ])
    by_close true later = done-Post [] p h tt
    by_close false later =
        by_skip (is_punct p.cur (codes ",")) (is_type_word p.cur) (is_punct p.cur (codes "*")) refl
          refl refl later

module _ (n : ℕ) {ex : M Expr} (below : Below n ex) {st : M Stmt} (sound : Sound n st) where
  function-Post :
      (p : Parser)
      → IsEnded p
      → p.loop_depth ≡ 0
      → size p < n
      → Post 1 p (λ (g : Function). InsideAll 0 g.body) (function ex st p)
  unfolding function
  function-Post p h e lt =
      Post-bind 1 _ (type_spec-Post p h)
        (λ _ q x _.
          Post-bind 1 _ (expect_ident-Post x.ended)
            (λ name r y _.
              Post-bind 0 _ (expect_punct-Post y.ended (codes "("))
                (λ _ s z _.
                  Post-bind 0 _ (params_fuel-Post (rounds s) s z.ended (omega arith))
                    (λ params t w _.
                      Post-bind 0 _ (expect_punct-Post w.ended (codes ")"))
                        (λ _ u v _.
                          Post-bind 0 _ (expect_punct-Post v.ended (codes "{"))
                            (λ _ a f _.
                              Post-bind 0 _
                                (block_stmts-Post n below n (omega arith) sound 0 a f.ended
                                  (f.same_depth ∙ v.same_depth ∙ w.same_depth ∙ z.same_depth
                                    ∙ y.same_depth ∙ x.same_depth ∙ e)
                                  (omega (
                                    arith, lt, x.further, y.further, z.further, w.further,
                                    v.further, f.further,
                                  )))
                                (λ body b g i.
                                  done-Post
                                    (record {
                                      name = name.text;
                                      params = params;
                                      body = body;
                                      line = p.cur.line;
                                      col = p.cur.col;
                                    })
                                    b g.ended i)
                                (omega arith))
                            (omega arith))
                        (omega arith))
                    (omega arith))
                (omega arith))
            (omega arith))
        (omega arith)

  functions_fuel-Post :
      (f : ℕ) (p : Parser)
      → IsEnded p
      → p.loop_depth ≡ 0
      → size p < n
      → size p < f
      → Post 0 p (All (λ (g : Function). InsideAll 0 g.body)) (functions_fuel ex st f p)
  unfolding functions_fuel
  functions_fuel-Post zero p h e lt k = elim k [ ]
  functions_fuel-Post (suc f) p h e lt k = by_end (kind_eq p.cur.kind eof) (functions_fuel-Post f)
    where
      by_end :
          (b : Bool)
          → ((q : Parser)
              → IsEnded q
              → q.loop_depth ≡ 0
              → size q < n
              → size q < f
              → Post 0 q (All (λ (g : Function). InsideAll 0 g.body)) (functions_fuel ex st f q))
          → Post {A = List Function} 0 p (All (λ (g : Function). InsideAll 0 g.body)) (elim b [
            | true ↦ pure [] p
            | false ↦ (function ex st >>= λ g. functions_fuel ex st f >>= λ gs. pure (g ∷ gs)) p
          ])
      by_end true later = done-Post [] p h tt
      by_end false later =
          Post-bind 0 _ (function-Post p h e lt)
            (λ g q x i.
              Post-bind 0 _
                (later q x.ended (x.same_depth ∙ e) (omega (arith, lt, x.further))
                  (omega (arith, k, x.further)))
                (λ gs r y j. done-Post (g ∷ gs) r y.ended (i, j)) (omega arith))
            (omega arith)

  program-Post :
      (p : Parser)
      → IsEnded p
      → p.loop_depth ≡ 0
      → size p < n
      → Post 0 p JumpsInside (program ex st p)
  unfolding program
  program-Post p h e lt =
      Post-bind 0 _ (functions_fuel-Post (rounds p) p h e lt (omega arith))
        (λ gs q x i. done-Post (record { functions = gs }) q x.ended i) (omega arith)

-- The parser's answer: a program whose jumps stand inside loops, or an error with its place.
pub data Answer : Outcome Failure Program → Type 0 where
  accepts : {g : Program} → JumpsInside g → Answer (ok g)
  rejects : {e : Error} → Answer (err (failed e))

program_of-Answer :
    {p : Parser} {r : Outcome Failure (Program × Parser)}
    → Post 0 p JumpsInside r
    → Answer (program_of r)
program_of-Answer (returns x i) = accepts i
program_of-Answer raises = rejects

-- On tokens of which the last is the end of the file, the parser ends: with an error and its place, or
-- with a program in which every `break` and `continue` stands in a loop.
pub parse_program-Answer :
    (t : Token) (ts : List Token) → last_is_eof t ts ≡ true → Answer (parse_program (t ∷ ts))
unfolding parse_program parse_with new
parse_program-Answer t ts h =
    let p : Parser = record { cur = t; later = ts; loop_depth = 0 } in
    let below : Below (rounds p) (expression (rounds p)) =
      λ q h' lt. expression-Post (rounds p) q h' lt in
    program_of-Answer {p = p} (
      program-Post (rounds p) below (statement-Sound (rounds p) below (rounds p) (omega arith)) p h
        refl (omega arith))
