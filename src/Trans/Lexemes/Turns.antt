-- ===== src/Trans/Lexemes/Turns.antt =====
-- Every turn of the scanner takes a blank or a lexeme from the front of the source.
use u_flux.Prelude.{
  ℕ, ◌≡◌, refl, sym, ap, inl, inr, Bool, true, false, ◌||◌, [], ◌∷◌, ◌++◌, ◌==◌, ==_iff,
  if◌then◌else◌, Bool-cases, Text,
}
use u_flux.Trans.Token.{str, char}
use u_flux.Trans.Lexer.{
  is_blank, is_digit, is_alphabetic, is_word, on_line, span, skip_pair, Scan, scan_plain,
  scan_slash, scan,
}
use u_flux.Trans.Lexemes.{
  Every, space, line_comment, directive, word, string, character, Turn, at_end, blank, lexeme,
}
use u_flux.Trans.Lexemes.Parts.{
  span_lem, block_comment_lem, quoted_lem, literal_or-Turn, comment_or-Turn, scan_number-Turn,
  scan_punct-Turn,
}

-- A test between two turns.
Turn-if :
    (s : Text) (b : Bool) (x y : Scan)
    → (b ≡ true → Turn s x)
    → (b ≡ false → Turn s y)
    → Turn s (if b then x else y)
Turn-if s true x y f g = f refl
Turn-if s false x y f g = g refl

scan_plain-Turn : (c : ℕ) (s : Text) → Turn (c ∷ s) (scan_plain c s)
unfolding scan_plain
scan_plain-Turn c s =
    Turn-if _ (c == b'#') _ _
      (λ e.
        let k = span_lem on_line s in
        blank (ap (◌∷◌ c) (sym k.0)) (directive ((==_iff c _).0 e) k.1) (λ y. cc))
      (λ _.
        Turn-if _ (c == b'"') _ _
          (λ e.
            let same : c ≡ b'"' = (==_iff c _).0 e in
            rw same (literal_or-Turn str b'"' s _ _ (λ t h. string refl h) (quoted_lem b'"' s)))
          (λ _.
            Turn-if _ (c == b'\'') _ _
              (λ e.
                let same : c ≡ b'\'' = (==_iff c _).0 e in
                rw same
                  (literal_or-Turn char b'\'' s _ _ (λ t h. character refl h) (quoted_lem b'\'' s)))
              (λ _. Turn-if _ (is_digit c) _ _ (scan_number-Turn c s) (λ _.
                Turn-if _ (is_alphabetic c || c == b'_') _ _
                  (λ e.
                    let k = span_lem is_word s in
                    lexeme (ap (◌∷◌ c) (sym k.0)) (word e k.1) (λ y. cc))
                  (λ _. scan_punct-Turn c s)))))

scan_slash-Turn : (c : ℕ) (s : Text) → c ≡ b'/' → Turn (c ∷ s) (scan_slash c s)
unfolding scan_slash
scan_slash-Turn c [] e = scan_plain-Turn c []
scan_slash-Turn c (d ∷ s) e = elim (Bool-cases (d == b'/')) [
  | inl f ↦ let slash = (==_iff d _).0 f in let k = span_lem on_line s in rw f (line_turn slash k)
  | inr f ↦ elim (Bool-cases (d == b'*')) [
    | inl g ↦
        let star = (==_iff d _).0 g in
        rw (f, g) (rw (e, star) (comment_or-Turn s _ (block_comment_lem s)))
    | inr g ↦ rw (f, g) (scan_plain-Turn c (d ∷ s))
  ]
]
  where
    line_turn :
        d ≡ b'/'
        → ((span on_line s).0 ++ (span on_line s).1 ≡ s) × Every on_line (span on_line s).0
        → Turn (c ∷ d ∷ s) (skip_pair c (span on_line (d ∷ s)))
    line_turn slash (k, all) =
        rw slash (blank (ap (λ x. c ∷ b'/' ∷ x) (sym k)) (line_comment e refl all) (λ y. cc))

pub scan-Turn : (s : Text) → Turn s (scan s)
unfolding scan
scan-Turn [] = at_end
scan-Turn (c ∷ s) =
    Turn-if _ (is_blank c) _ _ (λ e. blank refl (space e) (λ y. cc))
      (λ _.
        Turn-if _ (c == b'/') _ _ (λ f. scan_slash-Turn c s ((==_iff c _).0 f))
          (λ _. scan_plain-Turn c s))
