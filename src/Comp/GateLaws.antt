-- ===== src/Comp/GateLaws.antt =====
-- The gate of the parser and the capabilities of the helpers agree.
use u_flux.Prelude.{
  ◌≡◌, ◌↔◌, refl, sym, ap, Bool, true, false, ◌&&◌, &&_iff, List, [], ◌∷◌, Option, none, some,
  if◌then◌else◌, Text, text_eq, text_eq_iff, ok, err, Bool-cases, inl, inr,
}
use u_flux.Sandbox.Pattern.{op_capability}
use u_flux.Sandbox.Caps.{Caps, cap}
use u_flux.Comp.Ast.{simple}
use u_flux.Comp.Opcodes.{helpers, entry, helper_of}
use u_flux.Comp.Gate.{gates, checked, gate_op, called, op_ins}

-- The capability of the gate's entry.
abbrev gated : Option (Text × Text × Text) → Option Text
gated none = none
gated (some (c, need, mnem)) = some c

abbrev same_cap : Option Text → Option Text → Bool
same_cap none none = true
same_cap (some c) (some d) = text_eq c d
same_cap _ _ = false

same_cap-≡ : (o p : Option Text) → same_cap o p ≡ true → o ≡ p
same_cap-≡ none none h = refl
same_cap-≡ (some c) (some d) h = ap some ((text_eq_iff c d).0 h)
same_cap-≡ _ _ h = cc

-- Every opcode has the gate of its helper.
abbrev agrees : Text × Text → Bool
agrees (name, h) = same_cap (gated (entry gates name)) (op_capability h)

abbrev every : (Text × Text → Bool) → List (Text × Text) → Bool
every q [] = true
every q (e ∷ es) = q e && every q es

helpers-agree : every agrees helpers ≡ true
unfolding entry op_capability text_eq
helpers-agree = refl

entry-every :
    (q : Text × Text → Bool) (es : List (Text × Text)) (name h : Text)
    → every q es ≡ true
    → entry es name ≡ some h
    → q (name, h) ≡ true
unfolding entry
entry-every q [] name h a e = cc
entry-every q ((m, g) ∷ es) name h a e =
    let (first, rest) = (&&_iff (q (m, g)) (every q es)).0 a in
    by_name first (entry-every q es name h rest) (text_eq m name) refl e
  where
    by_name :
        q (m, g) ≡ true
        → (entry es name ≡ some h → q (name, h) ≡ true)
        → (b : Bool) → text_eq m name ≡ b
        → (if b then some g else entry es name) ≡ some h
        → q (name, h) ≡ true
    by_name first later true t e =
        let same : m ≡ name = (text_eq_iff m name).0 t in let helper : g ≡ h = cc in cc
    by_name first later false t e = later e

gate-helper : (name h : Text) → helper_of name ≡ some h → gated (entry gates name) ≡ op_capability h
unfolding helper_of
gate-helper name h e = same_cap-≡ _ _ (entry-every agrees helpers name h helpers-agree e)

called-simple : (name h : Text) (k : Option Text) → called name k ≡ ok (simple h) → k ≡ some h
called-simple name h none e = cc
called-simple name h (some g) e = cc

by_gate :
    (caps : Caps) (name h : Text) (g : Option (Text × Text × Text)) (k p : Option Text)
    → (k ≡ some h → gated g ≡ p)
    → (elim (checked caps g) [ err e ↦ err e | ok u ↦ called name k ] ≡ ok (simple h))
      ↔ ((k ≡ some h) × ((c : Text) → p ≡ some c → cap caps c ≡ true))
by_gate caps name h none k p same = (
  λ e. (called-simple name h k e, λ c d. cc (same (called-simple name h k e))),
  λ (e, granted). rw e refl,
)
by_gate caps name h (some (c, need, mnem)) k p same = elim (Bool-cases (cap caps c)) [
  | inl t ↦ rw t (
    λ e. (called-simple name h k e, λ d f. cc (same (called-simple name h k e), f, t)),
    λ (e, granted). rw e refl,
  )
  | inr f ↦ rw f (λ e. cc, λ (e, granted). cc (granted c (sym (same e))))
]

-- The parser takes an opcode for a call of the helper `h` exactly when `h` is the opcode's helper and
-- the effective capabilities grant the one that `h` needs, if it needs one.
pub op_ins_iff :
    (caps : Caps) (name h : Text)
    → (op_ins name caps ≡ ok (simple h))
      ↔ ((helper_of name ≡ some h) × ((c : Text) → op_capability h ≡ some c → cap caps c ≡ true))
unfolding op_ins gate_op
op_ins_iff caps name h =
    by_gate caps name h (entry gates name) (helper_of name) (op_capability h) (gate-helper name h)
