-- ===== src/Trans/Examples.antt =====
-- Programs to lex and to parse, and each theorem at a concrete input.
use Prim.Native.String.{String}
use u_flux.Trans.Token.{Failure}
use u_flux.Trans.Ast.{Program, return_, for_, continue_, cons, nil}
use u_flux.Trans.Emit.Code.{Code, letter_n}
use u_flux.Trans.Emit.Counts.{clash, clashes, count, quotes, defines, defines_number, hit}
use u_flux.Trans.Emit.Labels.{Apart, emit_code-defines_once, emit_code-quotes_defined}
use u_flux.Trans.Parser.Statements.{parse_program}
use u_flux.Trans.Emit.Expressions.{Fault, unreachable, slot_of}
use u_flux.Trans.Emit.Unreachable.{emit-never_unreachable}
use u_flux.Trans.Emit.Statements.{
  list_step, declare_all, while_code, if_code, for_code, jump_code, stmt_list,
}
use u_flux.Trans.Emit.State.{in_buf}
use u_flux.Trans.Emit.Functions.{emit, emit_code, prelude}
use u_flux.Prelude.{
  ◌≢◌, ◌≤◌, none, Outcome, Text, drop, length, ℕ, ◌≡◌, refl, ◌⊎◌, List, [], ◌∷◌, ◌+◌, ok, err,
  arith, codes, starts_with, text_eq, show_ℕ,
}
use u_flux.Trans.Token.{Kind, int, ident, punct, eof, Token, Error, failed, error_at}
use u_flux.Trans.Lexer.{lex, start_pos, advance}
use u_flux.Trans.Positions.{newlines, advance-next_line}
use u_flux.Trans.Lexemes.Whole.{Lexed, lex-Lexed}
use u_flux.Trans.Ast.{Expr, expr, ExprKind, binary, add, mul}
use u_flux.Trans.Parser.State.{Parser}
use u_flux.Trans.Parser.Expressions.{expression}

abbrev tok : Kind → String → ℕ → ℕ → Token
tok k s l c = record { kind = k; text = codes s; line = l; col = c }

-- The unit tests of the scanner.
lexes_multichar_ops :
    lex (codes "a <<= b\n/* x * y */ 0x1F")
    ≡ ok (
        tok ident "a" 1 1
        ∷ tok punct "<<=" 1 3
        ∷ tok ident "b" 1 7
        ∷ tok int "0x1F" 2 13
        ∷ tok eof "" 2 17
        ∷ [])
unfolding lex starts_with
lexes_multichar_ops = refl

rejects_unterminated_string :
    lex (codes "x \"abc") ≡ err (error_at 1 3 (codes "unterminated string literal"))
unfolding lex starts_with
rejects_unterminated_string = refl

lex-Lexed_example :
    ((toks : List Token) × (lex (codes "a <= 'z'") ≡ ok toks)
      × Lexed start_pos (codes "a <= 'z'") toks)
    ⊎ ((e : Error) × (lex (codes "a <= 'z'") ≡ err (failed e)))
lex-Lexed_example = lex-Lexed (codes "a <= 'z'")

-- a + b * c
abbrev tokens : Parser
tokens = record {
  cur = tok ident "a" 1 1;
  later =
      tok punct "+" 1 3
      ∷ tok ident "b" 1 5
      ∷ tok punct "*" 1 7
      ∷ tok ident "c" 1 9
      ∷ tok eof "" 1 10
      ∷ [];
  loop_depth = 0;
}

abbrev var_at : String → ℕ → Expr
var_at s c = expr (ExprKind.var (codes s)) 1 c

product_binds_tighter :
    expression 6 tokens
    ≡ ok (
      expr (binary add (var_at "a" 1) (expr (binary mul (var_at "b" 5) (var_at "c" 9)) 0 0)) 0 0,
      record { cur = tok eof "" 1 10; later = []; loop_depth = 0 },
    )
unfolding expression
product_binds_tighter = refl

abbrev parsed : Outcome Failure (List Token) → Outcome Failure Program
parsed (err e) = err e
parsed (ok toks) = parse_program toks

abbrev program_or : Program → Outcome Failure Program → Program
program_or g (err e) = g
program_or g (ok h) = h

abbrev transpiled : String → Outcome Fault Text
transpiled src = emit (program_or (record { functions = [] }) (parsed (lex (codes src))))

-- What follows the preamble and the registers.
abbrev behind_preamble : Outcome Fault Text → Text
behind_preamble (err e) = codes "rejected"
behind_preamble (ok t) = drop (length prelude + 29) t

abbrev body_of : String → Text
body_of src = behind_preamble (transpiled src)

-- The unit tests of the emitter, with the whole of the functions' text.
while_label_shape :
    body_of "int main() { int x = 0; while (x < 3) { x = x + 1; } return 0; }"
    ≡ codes
        "entry:\n0 v0!\n'c1 'b2 while\n0 _call exit\n0 _call exit\nret\nc1:\nfr not v0 3 lt and ret\nb2:\nv0 1 add v0! \n0 ret\n"
unfolding lex starts_with parse_program emit prelude list_step declare_all while_code slot_of in_buf
while_label_shape = refl

early_return_guards_remainder :
    body_of "int f(int n) { if (n) { return 1; } return 0; }"
    ≡ codes
        "f:\nv0!\nv0 'i1 if\nfr 'c2 'b3 if_else\nfr rv mul frv! 0 fr! ret frv\ni1:\n1 rv! 1 fr! 0 ret\nb3:\n0 rv! 1 fr! 0 ret\nc2:\n0 ret\n"
unfolding lex starts_with parse_program emit prelude list_step if_code slot_of in_buf
early_return_guards_remainder = refl

-- int f(int n) { return n; } after the parser
abbrev identity : Program
identity = record {
  functions =
      record {
        name = codes "f";
        params = codes "n" ∷ [];
        body = cons (return_ (var_at "n" 23) 1 16) nil;
        line = 1;
        col = 1;
      }
      ∷ [];
}

emit-never_unreachable_example : emit identity ≢ err unreachable
emit-never_unreachable_example = emit-never_unreachable identity

advance-next_line_example :
    advance (codes "a\nb\nint") start_pos ≡ record { line = 1 + 1 + 1; col = 1 + 3 }
unfolding newlines
advance-next_line_example = advance-next_line (codes "a\nb") (codes "int") start_pos refl

-- int main() { for (;;) continue; }
abbrev forever : Program
forever = record {
  functions =
      record {
        name = codes "main";
        params = [];
        body = cons (for_ none none none (continue_ 1 21)) nil;
        line = 1;
        col = 1;
      }
      ∷ [];
}

abbrev code_or : Outcome Fault Code → Code
code_or (err e) = []
code_or (ok ws) = ws

forever_ok : emit_code forever ≡ ok (code_or (emit_code forever))
unfolding emit_code stmt_list for_code in_buf list_step jump_code
forever_ok = refl

forever-quotes : 1 ≤ count (quotes letter_n 3) (code_or (emit_code forever))
unfolding emit_code hit in_buf list_step for_code jump_code
forever-quotes = omega arith

forever-Apart : Apart 3 forever
unfolding clashes clash text_eq show_ℕ
forever-Apart = (refl, tt)

emit_code-defines_once_example : count (defines_number 3) (code_or (emit_code forever)) ≤ 1
emit_code-defines_once_example = emit_code-defines_once forever _ 3 forever-Apart forever_ok

-- A function with the name of the loop's label gives the label a second definition.
abbrev forever_twice : Program
forever_twice = record {
  functions =
      record { name = codes "n3"; params = []; body = nil; line = 1; col = 1 } ∷ forever.functions;
}

n3_twice : count (defines letter_n 3) (code_or (emit_code forever_twice)) ≡ 2
unfolding emit_code hit in_buf list_step for_code jump_code clash text_eq show_ℕ stmt_list
n3_twice = refl

emit_code-quotes_defined_example : count (defines letter_n 3) (code_or (emit_code forever)) ≡ 1
emit_code-quotes_defined_example =
    emit_code-quotes_defined forever _ letter_n 3 forever-Apart forever_ok forever-quotes
