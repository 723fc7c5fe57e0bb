-- ===== src/Comp/Examples.antt =====
-- Tokens, numbers and names to encode and decode, and each theorem at a concrete input.
use u_flux.Prelude.{
  ℕ, pos, ◌≡◌, ◌≢◌, refl, ◌↔◌, arith, List, [], ◌∷◌, ◌++◌, ◌^◌, ◌-◌, none, some, Text, codes, All,
  show_ℕ, text_eq, is_whitespace, strip_prefix, true, ok, err,
}
use u_flux.Sandbox.Pattern.{op_capability}
use u_flux.Sandbox.Rules.{denied}
use u_flux.Sandbox.Caps.{Caps, unrestricted, lookup, cap}
use u_flux.Comp.Ast.{Parsed, no_code, push_i, push_addr, call, ret, simple}
use u_flux.Comp.Bodies.{
  member, positional, call_entries, label_bodies, ranges, sorted_pcs, compute_ins_body,
}
use u_flux.Comp.Earliest.{Below, label_bodies-earliest}
use u_flux.Comp.BodyLaws.{OneBody, label_bodies-OneBody}
use u_flux.Comp.Opcodes.{helper_of}
use u_flux.Comp.Gate.{disabled, op_ins}
use u_flux.Comp.GateLaws.{op_ins_iff}
use u_flux.Comp.UnionFind.{value_at, or_else}
use u_flux.Comp.Strings.{quote, unquote}
use u_flux.Comp.Tokens.{text_tokens, is_word}
use u_flux.Comp.Escapes.{unquote-quote}
use u_flux.Comp.Printing.{Printable, word, literal, bracket, spaced, text_tokens-spaced}
use u_flux.Comp.Numbers.{lrun, lrun_u, lrun_u64, with_rest, checked}
use u_flux.Comp.Base64.{value, lrun_u64_lem, lrun_u64-lrun_u}
use u_flux.Comp.Slots.{is_slot, Naming, no_names, nm, nm_all}
use u_flux.Comp.SlotLaws.{nm_all-injective, nm_clash}

comment_ends_at_line :
    text_tokens (codes "a{;x\n\"b c\"") ≡ codes "a" ∷ codes "{" ∷ codes "\"b c\"" ∷ []
unfolding text_tokens is_word
comment_ends_at_line = refl

-- The loop takes an unterminated literal as it is.
unterminated_literal : text_tokens (codes "\"ab") ≡ codes "\"ab" ∷ []
unfolding text_tokens
unterminated_literal = refl

unquote-escaped_end : unquote (codes "\"\\\"") ≡ some (codes "\\")
unfolding unquote
unquote-escaped_end = refl

abbrev three_tokens : List Text
three_tokens = codes "add" ∷ codes "[" ∷ quote (codes "a \"b\"") ∷ []

three_tokens-Printable : All Printable three_tokens
unfolding is_word is_whitespace
three_tokens-Printable = (
  word b'a' (codes "dd") (λ e. omega (arith, e)) refl (refl, (refl, tt)),
  (bracket b'[' refl, (literal (codes "a \"b\""), tt)),
)

text_tokens-spaced_example : text_tokens (spaced three_tokens) ≡ three_tokens
text_tokens-spaced_example = text_tokens-spaced three_tokens three_tokens-Printable

unquote-quote_example : unquote (quote (codes "a\n\"\\")) ≡ some (codes "a\n\"\\")
unquote-quote_example = unquote-quote (codes "a\n\"\\")

lrun_u64_lem_example :
    lrun_u64 (lrun_u 5000 ++ codes "+")
    ≡ with_rest
        (checked (value 0 (lrun (lrun_u 5000 ++ codes "+")).0))
        (lrun (lrun_u 5000 ++ codes "+")).1
lrun_u64_lem_example = lrun_u64_lem (lrun_u 5000 ++ codes "+")

-- Eleven digits that are too large.
overflow_refused : lrun_u64 (lrun_u (2 ^ 64)) ≡ none
unfolding lrun_u lrun_u64
overflow_refused = refl

no_digit : lrun (codes "+") ≡ ([], codes "+")
unfolding lrun
no_digit = refl

lrun_u64-lrun_u_example : lrun_u64 (lrun_u (2 ^ 64 - 1) ++ codes "+") ≡ some (2 ^ 64 - 1, codes "+")
lrun_u64-lrun_u_example = lrun_u64-lrun_u (2 ^ 64 - 1) (codes "+") (omega arith) no_digit

abbrev two_names : List Text
two_names = codes "x" ∷ codes "y" ∷ codes "x" ∷ []

abbrev after_names : Naming
after_names = record { names = (codes "y", 1) ∷ (codes "x", 0) ∷ []; next = 2 }

two_names_slots : nm_all no_names two_names ≡ some (0 ∷ 1 ∷ 0 ∷ [], after_names)
unfolding nm_all strip_prefix text_eq
two_names_slots = refl

no_slot_names : All (λ n. is_slot n ≡ none) two_names
unfolding is_slot strip_prefix
no_slot_names = (refl, (refl, (refl, tt)))

nm_all-injective_example : (◌≡◌ {A = ℕ} 0 1) ↔ (codes "x" ≡ codes "y")
nm_all-injective_example =
    nm_all-injective two_names (0 ∷ 1 ∷ 0 ∷ []) after_names 2 1 (codes "x") (codes "y") 0 1
      no_slot_names two_names_slots refl refl refl refl

abbrev x_named : Naming
x_named = record { names = (codes "x", 0) ∷ []; next = 1 }

x_slot : nm no_names (codes "x") ≡ some (0, x_named)
unfolding nm strip_prefix
x_slot = refl

nm_clash_example :
    (nm x_named (codes "v" ++ show_ℕ 0) ≡ some (0, x_named)) × (codes "v" ++ show_ℕ 0 ≢ codes "x")
nm_clash_example = nm_clash no_names (codes "x") 0 x_named no_slot_names.0 (omega arith) x_slot

abbrev no_reading : Caps
no_reading = record unrestricted { caps = (codes "fs.read", denied) ∷ [] }

mmap_disabled :
    op_ins (codes "MMAP") no_reading
    ≡ err (
        disabled
          (codes "mmap")
          (codes "fs.read + fs.write")
          (codes "none")
          (codes "unrestricted build"))
unfolding op_ins text_eq lookup
mmap_disabled = refl

op_ins_iff_example : (op_ins (codes "SLURP") no_reading ≡ ok (simple (codes "op_slurp"))) ↔ (
    (helper_of (codes "SLURP") ≡ some (codes "op_slurp"))
    × ((c : Text) → op_capability (codes "op_slurp") ≡ some c → cap no_reading c ≡ true))
op_ins_iff_example = op_ins_iff no_reading (codes "SLURP") (codes "op_slurp")

-- The entry pushes the address of `then`, which stands behind the function `f`.
abbrev branching : Parsed
branching = record no_code {
  ins =
      push_i (pos 1)
      ∷ push_addr (codes "then")
      ∷ simple (codes "op_if")
      ∷ call (codes "f")
      ∷ ret
      ∷ ret
      ∷ push_i (pos 2)
      ∷ ret
      ∷ [];
  labels = (codes "then", 6) ∷ (codes "f", 5) ∷ [];
}

branching_bodies : compute_ins_body branching ≡ 0 ∷ 0 ∷ 0 ∷ 0 ∷ 0 ∷ 5 ∷ 0 ∷ 0 ∷ []
unfolding compute_ins_body
branching_bodies = refl

label_bodies-OneBody_example :
    OneBody (value_at (label_bodies branching)) (ranges branching (sorted_pcs branching.labels))
label_bodies-OneBody_example = label_bodies-OneBody branching

then_is_label : member (sorted_pcs branching.labels) 6 ≡ true
unfolding member sorted_pcs
then_is_label = refl

label_bodies-earliest_example :
    Below
      (label_bodies branching)
      6
      (or_else 0 (value_at (positional (call_entries branching) 0 (sorted_pcs branching.labels)) 6))
label_bodies-earliest_example = label_bodies-earliest branching 6 then_is_label
