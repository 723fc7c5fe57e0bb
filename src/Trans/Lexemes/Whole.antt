-- ===== src/Trans/Lexemes/Whole.antt =====
-- The scanner splits the source: every byte belongs to a blank or to a lexeme, and a token stands
-- at the position that the bytes before it lead to.
use u_flux.Prelude.{
  ℕ, zero, suc, ◌<◌, ◌≡◌, ◌≢◌, refl, ap, ◌⊎◌, inl, inr, List, [], ◌∷◌, ◌++◌, Outcome, ok, err,
  arith, Text, length, length-append,
}
use u_flux.Trans.Token.{Kind, eof, Token, Error, Failure, failed, fuel}
use u_flux.Trans.Lexer.{
  Pos, advance, Scan, finished, skipped, found, refused, scan, after_scan, token_at, cons_token,
  lex_from, start_pos, lex,
}
use u_flux.Trans.Lexemes.{Blank, Lexeme, Turn, at_end, blank, lexeme, no_token}
use u_flux.Trans.Lexemes.Turns.{scan-Turn}

-- The tokens `toks` split the text `s`, which stands at `p`, into blanks and lexemes.
pub data Lexed : Pos → Text → List Token → Type 0 where
  at_eof : {p : Pos} {s : Text} → s ≡ [] → Lexed p s (token_at eof [] p ∷ [])
  after_blank :
      {p : Pos} {s : Text} {toks : List Token} (t r : Text)
      → s ≡ t ++ r
      → Blank t
      → Lexed (advance t p) r toks
      → Lexed p s toks
  after_lexeme :
      {p : Pos} {s : Text} {toks : List Token} (k : Kind) (t r : Text)
      → s ≡ t ++ r
      → Lexeme k t
      → Lexed (advance t p) r toks
      → Lexed p s (token_at k t p ∷ toks)

-- With more fuel than bytes the loop ends, in tokens that split the text or in an error.
abbrev Ends : Pos → Text → Outcome Failure (List Token) → Type 0
Ends p s (ok toks) = Lexed p s toks
Ends p s (err fuel) = ⊥
Ends p s (err (failed e)) = Unit

Ends-cons_token :
    (p : Pos) (s t r : Text) (k : Kind) (o : Outcome Failure (List Token))
    → s ≡ t ++ r
    → Lexeme k t
    → Ends (advance t p) r o
    → Ends p s (cons_token (token_at k t p) o)
Ends-cons_token p s t r k (ok toks) e l h = after_lexeme k t r e l h
Ends-cons_token p s t r k (err fuel) e l h = h
Ends-cons_token p s t r k (err (failed x)) e l h = tt

Ends-Blank :
    (p : Pos) (s t r : Text) (o : Outcome Failure (List Token))
    → s ≡ t ++ r
    → Blank t
    → Ends (advance t p) r o
    → Ends p s o
Ends-Blank p s t r (ok toks) e b h = after_blank t r e b h
Ends-Blank p s t r (err fuel) e b h = h
Ends-Blank p s t r (err (failed x)) e b h = tt

shorter : (s t r : Text) (f : ℕ) → s ≡ t ++ r → t ≢ [] → length s < suc f → length r < f
shorter s [] r f e ne h = absurd (ne refl)
shorter s (c ∷ t) r f e ne h = omega (arith, ap length e, length-append t r)

after_scan-Ends :
    (next : Pos → Text → Outcome Failure (List Token)) (f : ℕ) (p : Pos) (s : Text)
    → ((q : Pos) (r : Text) → length r < f → Ends q r (next q r))
    → length s < suc f
    → (x : Scan) → Turn s x
    → Ends p s (after_scan next p x)
after_scan-Ends next f p s later h finished at_end = at_eof refl
after_scan-Ends next f p s later h (skipped t r) (blank e b ne) =
    Ends-Blank p s t r _ e b (later (advance t p) r (shorter s t r f e ne h))
after_scan-Ends next f p s later h (found k t r) (lexeme e l ne) =
    Ends-cons_token p s t r k _ e l (later (advance t p) r (shorter s t r f e ne h))
after_scan-Ends next f p s later h (refused msg) no_token = tt

lex_from-step :
    (f : ℕ) (p : Pos) (s : Text) → lex_from (suc f) p s ≡ after_scan (lex_from f) p (scan s)
unfolding lex_from
lex_from-step f p s = refl

lex_from-Ends : (f : ℕ) (p : Pos) (s : Text) → length s < f → Ends p s (lex_from f p s)
lex_from-Ends zero p s h = elim h [ ]
lex_from-Ends (suc f) p s h =
    rw lex_from-step (after_scan-Ends (lex_from f) f p s (lex_from-Ends f) h (scan s) (scan-Turn s))

-- The lexer always ends: with a positioned error, or with tokens that split the whole source into
-- blanks and lexemes, each token at the line and the column that the bytes before it lead to, and
-- the end of the file last.
pub lex-Lexed :
    (src : Text)
    → ((toks : List Token) × (lex src ≡ ok toks) × Lexed start_pos src toks)
      ⊎ ((e : Error) × (lex src ≡ err (failed e)))
unfolding lex
lex-Lexed src =
    by_end (lex_from (suc (length src)) start_pos src) refl
      (lex_from-Ends (suc (length src)) start_pos src (omega arith))
  where
    by_end :
        (o : Outcome Failure (List Token))
        → lex_from (suc (length src)) start_pos src ≡ o
        → Ends start_pos src o
        → ((toks : List Token) × (lex_from (suc (length src)) start_pos src ≡ ok toks)
            × Lexed start_pos src toks)
          ⊎ ((e : Error) × (lex_from (suc (length src)) start_pos src ≡ err (failed e)))
    by_end (ok toks) e h = inl (toks, e, h)
    by_end (err fuel) e h = absurd h
    by_end (err (failed x)) e h = inr (x, e)
