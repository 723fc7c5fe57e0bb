-- ===== src/Trans/Emit/Expressions.antt =====
-- `expr`, `slot_of`, `decode_char` and `binop_mnemonic` of trans/src/emit.rs. The source appends to
-- the buffer's code; here the appended code is the result, and an error discards it as there.
use Prim.Native.String.{String}
use u_flux.Prelude.{
  ℕ, suc, ◌-◌, Bool, ◌&&◌, List, [], ◌∷◌, ◌++◌, Option, none, some, Outcome, ok, err, ◌>>=◌, ltb,
  ◌==◌, if◌then◌else◌, Text, codes, text_eq, show_ℕ, length, take,
}
use u_flux.Trans.Token.{Error}
use u_flux.Trans.Ast.{
  BinOp, add, sub, mul, shl, shr, lt, le, gt, ge, eq, ne, bit_and, bit_xor, bit_or, LogicOp,
  logic_and, logic_or, UnOp, neg, not_op, bit_not, Stream, stdout, stdin, stderr, ExprKind, int,
  str, char, var, assign, binary, logical, unary, pre, post, call, index, argc, stream, argv, byte,
  null, eof_lit, Expr, expr, Args, no_args, arg,
}
use u_flux.Trans.Emit.Code.{Code, plain, spaced, followed}
use u_flux.Trans.Emit.Code as Out

-- An error of the source, a slice out of range, or `unreachable!`.
pub data Fault : Type 0 where
  refused : Error → Fault
  out_of_range unreachable : Fault

abbrev pub refuse : {A : Type 0} → ℕ → ℕ → Text → Outcome Fault A
refuse l c msg = err (refused (record { line = l; col = c; msg = msg }))

abbrev pub binop_mnemonic : BinOp → String
binop_mnemonic add = "add"
binop_mnemonic sub = "sub"
binop_mnemonic mul = "mul"
binop_mnemonic shl = "shl"
binop_mnemonic shr = "shr"
binop_mnemonic lt = "lt"
binop_mnemonic le = "gt not"
binop_mnemonic gt = "gt"
binop_mnemonic ge = "lt not"
binop_mnemonic eq = "eq"
binop_mnemonic ne = "eq not"
binop_mnemonic bit_and = "and"
binop_mnemonic bit_or = "or"
binop_mnemonic bit_xor = "xor"

abbrev pub escape_value : Text → Option ℕ
escape_value esc =
    if text_eq esc (codes "n")
    then some 10
    else if text_eq esc (codes "t")
    then some 9
    else if text_eq esc (codes "r")
    then some 13
    else if text_eq esc (codes "0")
    then some 0
    else if text_eq esc (codes "\\")
    then some 92
    else if text_eq esc (codes "'")
    then some 39
    else none

abbrev pub escape_or : ℕ → ℕ → Text → Option ℕ → Outcome Fault ℕ
escape_or l c esc none = refuse l c (codes "bad char escape: \\" ++ esc)
escape_or l c esc (some v) = ok v

abbrev pub decode_inner : ℕ → ℕ → Text → Outcome Fault ℕ
decode_inner l c [] = refuse l c (codes "empty character literal")
decode_inner l c (x ∷ esc) = if x == b'\\' then escape_or l c esc (escape_value esc) else ok x

-- The value of a character literal; a text without two quotes is a slice out of range.
unfoldable pub decode_char : ℕ → ℕ → Text → Outcome Fault ℕ
unfolding text_eq
decode_char l c [] = err out_of_range
decode_char l c (q ∷ []) = err out_of_range
decode_char l c (q ∷ x ∷ rest) = decode_inner l c (take (length rest) (x ∷ rest))

-- A variable's slot; the map is an association list, the latest entry first.
abbrev pub Slots : Type 0
Slots = List (Text × Text)

unfoldable pub find_slot : Slots → Text → Option Text
unfolding text_eq
find_slot [] name = none
find_slot ((k, slot) ∷ slots) name = if text_eq k name then some slot else find_slot slots name

abbrev pub slot_or : ℕ → ℕ → Text → Option Text → Outcome Fault Text
slot_or l c name none = refuse l c (codes "undefined variable: " ++ name)
slot_or l c name (some slot) = ok slot

unfoldable pub slot_of : Slots → Text → ℕ → ℕ → Outcome Fault Text
unfolding find_slot
slot_of slots name l c = slot_or l c name (find_slot slots name)

abbrev pub vararg_fixed_params : Text → Option ℕ
vararg_fixed_params name =
    if text_eq name (codes "printf")
    then some 1
    else if text_eq name (codes "fprintf")
    then some 2
    else none

abbrev direct_call : Text → Code
direct_call name = plain (codes "_call " ++ (name ++ codes " ")) ∷ []

abbrev pub counted_call : Text → ℕ → ℕ → ℕ → Option ℕ → Outcome Fault Code
counted_call name n l c none = ok (direct_call name)
counted_call name n l c (some fixed) =
    if ltb n fixed
    then refuse l c (
        name
        ++ (codes " expects at least "
            ++ (show_ℕ fixed ++ (codes " argument(s), got " ++ show_ℕ n))))
    else ok (spaced (show_ℕ (n - fixed)) ++ direct_call name)

-- What follows the arguments of a call: an operator, or the call with the count of variadic ones.
unfoldable pub after_args : Text → ℕ → ℕ → ℕ → Outcome Fault Code
unfolding text_eq show_ℕ
after_args name n l c =
    if text_eq name (codes "malloc") && n == 1
    then ok (Out.str "malloc ")
    else if text_eq name (codes "free") && n == 1
    then ok (Out.str "free ")
    else if text_eq name (codes "strlen") && n == 1
    then ok (Out.str "length ")
    else if text_eq name (codes "strcat") && n == 2
    then ok (Out.str "concat ")
    else if text_eq name (codes "puts") && n == 1
    then ok (Out.str "print 0 ")
    else counted_call name n l c (vararg_fixed_params name)

abbrev pub count_args : Args → ℕ
count_args no_args = 0
count_args (arg e es) = suc (count_args es)

abbrev pub unary_before : UnOp → Code
unary_before neg = Out.str "0 "
unary_before bit_not = Out.str "-1 "
unary_before not_op = []

abbrev pub unary_after : UnOp → Code
unary_after neg = Out.str "sub "
unary_after bit_not = Out.str "sub "
unary_after not_op = Out.str "not "

abbrev pub logic_code : LogicOp → Code
logic_code logic_and = Out.str "mul not not "
logic_code logic_or = Out.str "or not not "

abbrev pub operator_code : BinOp → Code
operator_code op = followed (codes (binop_mnemonic op)) " "

-- `{slot} 1 {op} {slot}! `
abbrev step_code : Text → Bool → Text
step_code slot up =
    slot ++ ((if up then codes " 1 add " else codes " 1 sub ") ++ (slot ++ codes "! "))

abbrev stream_name : Stream → Text
stream_name stdout = codes "stdout"
stream_name stdin = codes "stdin"
stream_name stderr = codes "stderr"

abbrev pub assigned : Text → Option BinOp → Code → Code
assigned slot none value = value ++ followed slot "! "
assigned slot (some op) value = spaced slot ++ (value ++ (operator_code op ++ followed slot "! "))

unfoldable mutual
  pub expr_code : Slots → Expr → Outcome Fault Code
  expr_code slots (expr k l c) = kind_code slots k l c

  pub kind_code : Slots → ExprKind → ℕ → ℕ → Outcome Fault Code
  kind_code slots (int t) l c = ok (spaced t)
  kind_code slots (str t) l c = ok (spaced t)
  kind_code slots (char t) l c = decode_char l c t >>= λ v. ok (spaced (show_ℕ v))
  kind_code slots (var name) l c = slot_of slots name l c >>= λ slot. ok (spaced slot)
  kind_code slots (assign name op value) l c =
      slot_of slots name l c >>= λ slot. expr_code slots value >>= λ v. ok (assigned slot op v)
  kind_code slots (binary op lhs rhs) l c =
      expr_code slots lhs >>= λ a. expr_code slots rhs >>= λ b. ok (a ++ (b ++ operator_code op))
  kind_code slots (logical op lhs rhs) l c =
      expr_code slots lhs >>= λ a. expr_code slots rhs >>= λ b. ok (a ++ (b ++ logic_code op))
  kind_code slots (unary op operand) l c =
      expr_code slots operand >>= λ v. ok (unary_before op ++ (v ++ unary_after op))
  kind_code slots (pre name up) l c =
      slot_of slots name l c >>= λ slot. ok (plain (step_code slot up) ∷ [])
  kind_code slots (post name up) l c = slot_of slots name l c >>= λ slot.
      ok (plain (slot ++ (codes " pt! " ++ (step_code slot up ++ codes "frv! pt "))) ∷ [])
  kind_code slots (call name es) l c =
      args_code slots es >>= λ v. after_args name (count_args es) l c >>= λ s. ok (v ++ s)
  kind_code slots (index name i) l c = slot_of slots name l c >>= λ slot.
      expr_code slots i >>= λ v. ok (v ++ followed slot " \"\" _call strstr add load 255 and ")
  kind_code slots argc l c = ok (Out.str "extern \"nk_argc\" load ")
  kind_code slots (stream s) l c =
      ok (plain (codes "extern \"" ++ (stream_name s ++ codes "\" load ")) ∷ [])
  kind_code slots (argv i) l c =
      expr_code slots i >>= λ v. ok (v ++ Out.str "8 mul extern \"nk_argv\" load add load ")
  kind_code slots (byte e) l c = expr_code slots e >>= λ v. ok (v ++ Out.str "load 255 and ")
  kind_code slots null l c = ok (Out.str "0 ")
  kind_code slots eof_lit l c = ok (Out.str "-1 ")

  pub args_code : Slots → Args → Outcome Fault Code
  args_code slots no_args = ok []
  args_code slots (arg e es) = expr_code slots e >>= λ v. args_code slots es >>= λ vs. ok (v ++ vs)
