-- ===== src/Trans/Runs.antt =====
-- Whole runs of the transpiler, and the theorems about them at concrete inputs.
use u_flux.Prelude.{◌+◌, ◌<◌, ◌≡◌, refl, arith, List, [], ◌∷◌, ◌++◌, Text, codes}
use u_flux.Trans.Token.{Token, Kind, ident, punct, int, eof}
use u_flux.Trans.Parser.Statements.{parse_program}
use u_flux.Trans.Parser.ProgramProgress.{Answer, parse_program-Answer}
use u_flux.Trans.Run.{run, error_place, combined, line_count}
use u_flux.Trans.RunLaws.{Finishes, run-Finishes, newlines, IsClosed, error_place-own}

abbrev tok : Kind → Text → Token
tok k s = record { kind = k; text = s; line = 1; col = 1 }

-- `int f(){while(1)break;}`
abbrev loop_tokens : List Token
loop_tokens =
    tok ident (codes "f")
    ∷ tok punct (codes "(")
    ∷ tok punct (codes ")")
    ∷ tok punct (codes "{")
    ∷ tok ident (codes "while")
    ∷ tok punct (codes "(")
    ∷ tok int (codes "1")
    ∷ tok punct (codes ")")
    ∷ tok ident (codes "break")
    ∷ tok punct (codes ";")
    ∷ tok punct (codes "}")
    ∷ tok eof []
    ∷ []

parse_program-Answer_example : Answer (parse_program (tok ident (codes "int") ∷ loop_tokens))
parse_program-Answer_example = parse_program-Answer (tok ident (codes "int")) loop_tokens refl

run-Finishes_example : Finishes (run (codes "int main(){return 0;}"))
run-Finishes_example = run-Finishes (codes "int main(){return 0;}")

abbrev two_lines : Text
two_lines = codes "x\ny\n"

two_lines-IsClosed : IsClosed two_lines
unfolding IsClosed
two_lines-IsClosed = refl

two_lines_count : 1 < line_count two_lines
unfolding line_count
two_lines_count = omega arith

error_place-own_example :
    error_place
      (((codes "a", two_lines) ∷ []) ++ (codes "b", two_lines) ∷ [])
      (1 + newlines (combined ((codes "a", two_lines) ∷ [])) + 1)
    ≡ (codes "b", 2)
error_place-own_example =
    error_place-own ((codes "a", two_lines) ∷ []) [] (codes "b") two_lines 1
      (two_lines-IsClosed, tt) two_lines_count

-- The second line of the joined text is the first of `b`, but `a` does not end with a newline.
error_place_misses :
    error_place ((codes "a", codes "x") ∷ (codes "b", codes "y") ∷ []) 2 ≡ (codes "a", 2)
unfolding error_place
error_place_misses = refl
