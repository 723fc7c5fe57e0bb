-- ===== src/Trans/Run.antt =====
-- `main` and `run` of trans/src/main.rs, the reading of files and the printing left aside: the inputs
-- are joined, transpiled, and an error is reported in the file that its line falls in.
use u_flux.Prelude.{
  ℕ, suc, ◌+◌, ◌-◌, ◌&&◌, List, [], ◌∷◌, ◌++◌, Outcome, ok, err, ltb, leb, ◌==◌, if◌then◌else◌,
  Text,
}
use u_flux.Trans.Token.{Error, Failure, failed, fuel, Token}
use u_flux.Trans.Ast.{Program}
use u_flux.Trans.Lexer.{lex}
use u_flux.Trans.Parser.Statements.{parse_program}
use u_flux.Trans.Emit.Expressions.{Fault, refused}
use u_flux.Trans.Emit.Functions.{emit}

-- How a run goes wrong: with an error that is reported, with a panic of the emitter, or by the model's
-- own fuel.
pub data RunError : Type 0 where
  reported : Error → RunError
  panicked : Fault → RunError
  no_fuel : RunError

abbrev pub of_failure : Failure → RunError
of_failure (failed e) = reported e
of_failure fuel = no_fuel

abbrev pub of_fault : Fault → RunError
of_fault (refused e) = reported e
of_fault f = panicked f

abbrev pub emitted : Outcome Fault Text → Outcome RunError Text
emitted (ok t) = ok t
emitted (err f) = err (of_fault f)

abbrev pub after_parse : Outcome Failure Program → Outcome RunError Text
after_parse (ok g) = emitted (emit g)
after_parse (err e) = err (of_failure e)

abbrev pub after_lex : Outcome Failure (List Token) → Outcome RunError Text
after_lex (ok toks) = after_parse (parse_program toks)
after_lex (err e) = err (of_failure e)

unfoldable pub run : Text → Outcome RunError Text
unfolding lex parse_program emit
run src = after_lex (lex src)

-- `content.lines().count()`: the newlines, and one more for a last line without one.
unfoldable pub line_count : Text → ℕ
line_count [] = 0
line_count (c ∷ []) = 1
line_count (c ∷ d ∷ s) = let later = line_count (d ∷ s) in (if c == b'\n' then suc later else later)

-- An input with its first line and the one behind its last.
pub record Span : Type 0 where
  pub name : Text
  pub first : ℕ
  pub past : ℕ

unfoldable pub spans : ℕ → List (Text × Text) → List Span
unfolding line_count
spans line [] = []
spans line ((name, content) ∷ files) =
    record { name = name; first = line; past = line + line_count content }
    ∷ spans (line + (line_count content + 1)) files

unfoldable pub combined : List (Text × Text) → Text
combined [] = []
combined ((name, content) ∷ files) = content ++ (b'\n' ∷ combined files)

-- The first span that holds the line, or else the first file.
unfoldable pub located : Text → List Span → ℕ → Text × ℕ
located name [] line = (name, line)
located name (s ∷ rest) line =
    let later = located name rest line in
    (if leb s.first line && ltb line s.past then (s.name, line - s.first + 1) else later)

-- `files[0]`
abbrev pub first_name : List (Text × Text) → Text
first_name [] = []
first_name ((name, _) ∷ files) = name

unfoldable pub error_place : List (Text × Text) → ℕ → Text × ℕ
unfolding located spans
error_place files line = located (first_name files) (spans 1 files) line
