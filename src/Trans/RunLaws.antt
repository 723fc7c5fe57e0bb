-- ===== src/Trans/RunLaws.antt =====
-- Every run of trans/src/main.rs ends, and where its errors are placed.
use u_flux.Prelude.{
  ℕ, suc, ◌+◌, ◌-◌, ◌<◌, ◌≡◌, ◌≢◌, refl, inl, inr, arith, Bool, true, false, ◌&&◌, List, [], ◌∷◌,
  ◌++◌, Outcome, ok, err, ltb, leb, ◌==◌, if◌then◌else◌, Text, All,
}
use u_flux.Trans.Token.{Error, Failure, Token, eof}
use u_flux.Trans.Ast.{Program}
use u_flux.Trans.Lexer.{Pos, token_at}
use u_flux.Trans.Lexemes.Whole.{Lexed, at_eof, after_blank, after_lexeme, lex-Lexed}
use u_flux.Trans.Parser.Progress.{last_is_eof}
use u_flux.Trans.Parser.Statements.{parse_program}
use u_flux.Trans.Parser.ProgramProgress.{Answer, accepts, rejects, parse_program-Answer}
use u_flux.Trans.Emit.Expressions.{Fault, refused, out_of_range, unreachable}
use u_flux.Trans.Emit.Functions.{emit}
use u_flux.Trans.Emit.Unreachable.{emit-never_unreachable}
use u_flux.Trans.Run.{
  RunError, reported, panicked, emitted, after_parse, run, line_count, spans, combined, located,
  error_place,
}

-- How a run ends: with a text, an error with its place, or a slice out of range in the emitter.
pub data Finishes : Outcome RunError Text → Type 0 where
  prints : {t : Text} → Finishes (ok t)
  reports : {e : Error} → Finishes (err (reported e))
  slices : Finishes (err (panicked out_of_range))

emitted-Finishes : (r : Outcome Fault Text) → r ≢ err unreachable → Finishes (emitted r)
emitted-Finishes (ok t) h = prints
emitted-Finishes (err (refused e)) h = reports
emitted-Finishes (err out_of_range) h = slices
emitted-Finishes (err unreachable) h = absurd (h refl)

after_parse-Finishes : (r : Outcome Failure Program) → Answer r → Finishes (after_parse r)
after_parse-Finishes _ (accepts {g} j) = emitted-Finishes (emit g) (emit-never_unreachable g)
after_parse-Finishes _ rejects = reports

-- Of lexed tokens the last one is the end of the file.
record EndsInEof (toks : List Token) : Type 0 where
  head : Token
  tail : List Token
  same : toks ≡ head ∷ tail
  last : last_is_eof head tail ≡ true

Lexed-EndsInEof : {p : Pos} {s : Text} {toks : List Token} → Lexed p s toks → EndsInEof toks
Lexed-EndsInEof (at_eof {p} h) = record {
  head = token_at eof [] p;
  tail = [];
  same = refl;
  last = refl;
}
Lexed-EndsInEof (after_blank t r e b later) = Lexed-EndsInEof later
Lexed-EndsInEof (after_lexeme {p} {s} {toks} k t r e b later) =
    let rest = Lexed-EndsInEof later in
    record { head = token_at k t p; tail = toks; same = refl; last = rw (rest.same) (rest.last) }

-- Every run ends: with a text, with an error and its place, or with a slice out of range in the
-- emitter.
pub run-Finishes : (src : Text) → Finishes (run src)
unfolding run
run-Finishes src = elim (lex-Lexed src) [
  | inl (toks, e, lexed) ↦ rw e (by_tokens toks (Lexed-EndsInEof lexed))
  | inr (x, e) ↦ rw e reports
]
  where
    by_tokens : (toks : List Token) → EndsInEof toks → Finishes (after_parse (parse_program toks))
    by_tokens toks h =
        rw (h.same) (after_parse-Finishes _ (parse_program-Answer h.head h.tail h.last))

-- Newlines, and the texts that end with one.
unfoldable pub newlines : Text → ℕ
newlines [] = 0
newlines (c ∷ s) = (if c == b'\n' then 1 else 0) + newlines s

unfoldable pub IsClosed : Text → Type 0
IsClosed [] = Unit {0}
IsClosed (c ∷ []) = c ≡ b'\n'
IsClosed (c ∷ d ∷ s) = IsClosed (d ∷ s)

newlines-append : (s t : Text) → newlines (s ++ t) ≡ newlines s + newlines t
unfolding newlines
newlines-append [] t = omega arith
newlines-append (c ∷ s) t = omega (arith, newlines-append s t)

newlines-line_count : (s : Text) → IsClosed s → newlines s ≡ line_count s
unfolding newlines line_count IsClosed
newlines-line_count [] h = refl
newlines-line_count (c ∷ []) h = rw h refl
newlines-line_count (c ∷ d ∷ s) h = by_test (c == b'\n') (newlines-line_count (d ∷ s) h)
  where
    by_test :
        (b : Bool)
        → newlines (d ∷ s) ≡ line_count (d ∷ s)
        → (if b then 1 else 0) + newlines (d ∷ s)
          ≡ (if b then suc (line_count (d ∷ s)) else line_count (d ∷ s))
    by_test true e = omega (arith, e)
    by_test false e = omega (arith, e)

located-own :
    (first name content : Text) (post : List (Text × Text)) (k : ℕ)
    → k < line_count content
    → (pre : List (Text × Text)) (a l : ℕ) → All (λ (n, c). IsClosed c) pre
    → l ≡ a + newlines (combined pre) + k
    → located first (spans a (pre ++ (name, content) ∷ post)) l ≡ (name, k + 1)
unfolding located spans combined newlines
located-own first name content post k lt [] a l h e =
    let start : leb a l ≡ true = ground (arith, e) in
    let inside : ltb l (a + line_count content) ≡ true = ground (arith, e) in
    let number : l - a + 1 ≡ k + 1 = omega (arith, e) in rw (start, inside, number) refl
located-own first name content post k lt ((n, c) ∷ pre) a l h e =
    let counted = newlines-line_count c h.0 in
    let added = newlines-append c (b'\n' ∷ combined pre) in
    let past : ltb l (a + line_count c) ≡ false = ground (arith, e, counted, added) in
    skip (leb a l) (ltb l (a + line_count c)) past (
      located-own first name content post k lt pre (a + (line_count c + 1)) l h.1
        (omega (arith, e, counted, added)))
  where
    skip :
        (b t : Bool)
        → t ≡ false
        → located first (spans (a + (line_count c + 1)) (pre ++ (name, content) ∷ post)) l
          ≡ (name, k + 1)
        → (if b && t
            then (n, l - a + 1)
            else located first (spans (a + (line_count c + 1)) (pre ++ (name, content) ∷ post)) l)
          ≡ (name, k + 1)
    skip true true q r = cc
    skip true false q r = r
    skip false t q r = r

-- When the inputs before one are empty or end with a newline, an error at its `k`-th line of the joined
-- text, counted from 0, is reported in that input, at line `k` counted from 1.
pub error_place-own :
    (pre post : List (Text × Text)) (name content : Text) (k : ℕ)
    → All (λ (n, c). IsClosed c) pre
    → k < line_count content
    → error_place (pre ++ (name, content) ∷ post) (1 + newlines (combined pre) + k) ≡ (name, k + 1)
unfolding error_place
error_place-own pre post name content k h lt =
    located-own _ name content post k lt pre 1 (1 + newlines (combined pre) + k) h refl
