-- ===== src/Comp/Naming.antt =====
-- The slots that `nm` of `emit_dense` in comp/src/emit.rs gives, one name at a time.
use mathlib.Core.Path.{subst}
use u_flux.Prelude.{
  ℕ, suc, ◌+◌, ◌<◌, ◌≡◌, refl, sym, ap, ◌∙◌, inl, inr, arith, List, [], ◌∷◌, Option, none, some,
  leb, Bool-cases, Text, text_eq_iff, text_eq_refl,
}
use u_flux.Comp.Slots.{is_slot, Naming, get, assign, known_or, slot_or, nm}

-- The names have the slots below `k`, the latest name the highest, and none has the form `v<N>`.
abbrev Numbered : List (Text × ℕ) → ℕ → Type 0
Numbered [] k = k ≡ 0
Numbered ((n, i) ∷ names) k =
    (suc i ≡ k) × (get names n ≡ none) × (is_slot n ≡ none) × Numbered names i

abbrev pub IsValid : Naming → Type 0
IsValid st = Numbered st.names st.next

get-lt :
    (names : List (Text × ℕ)) (k i : ℕ) (n : Text) → Numbered names k → get names n ≡ some i → i < k
unfolding get
get-lt [] k i n h e = cc
get-lt ((m, j) ∷ names) k i n h e = ground (arith, get-lt names j i n h.3)

-- A slot has one name.
pub get-injective :
    (names : List (Text × ℕ)) (k i : ℕ) (n m : Text)
    → Numbered names k
    → get names n ≡ some i
    → get names m ≡ some i
    → n ≡ m
unfolding get
get-injective [] k i n m h e e' = cc
get-injective ((l, j) ∷ names) k i n m h e e' = ground (
  arith,
  text_eq_iff l n,
  text_eq_iff l m,
  get-lt names j i n h.3,
  get-lt names j i m h.3,
  get-injective names j i n m h.3,
)

-- What one call leaves: a valid naming in which the name has its slot and the others have theirs.
pub record Named (st : Naming) (n : Text) (i : ℕ) (t : Naming) : Type 0 where
  pub valid : IsValid t
  pub named : get t.names n ≡ some i
  pub kept : (m : Text) (j : ℕ) → get st.names m ≡ some j → get t.names m ≡ some j

-- The pair of a successful result.
pair_eq : {p q : ℕ × Naming} → ◌≡◌ {A = Option (ℕ × Naming)} (some p) (some q) → p ≡ q
pair_eq e = cc

abbrev extended : Naming → Text → Naming
extended st n = record { names = (n, st.next) ∷ st.names; next = st.next + 1 }

kept-extended :
    (names : List (Text × ℕ)) (k : ℕ) (n m : Text) (j : ℕ)
    → get names n ≡ none
    → get names m ≡ some j
    → get ((n, k) ∷ names) m ≡ some j
unfolding get
kept-extended names k n m j g e = ground (arith, text_eq_iff n m)

extended-Named :
    (st : Naming) (n : Text)
    → IsValid st
    → is_slot n ≡ none
    → get st.names n ≡ none
    → Named st n st.next (extended st n)
unfolding get
extended-Named st n v s g = record {
  valid = (omega arith, g, s, v);
  named = rw (text_eq_refl n);
  kept = λ m j e. kept-extended st.names st.next n m j g e;
}

assign-Named :
    (st : Naming) (n : Text) (i : ℕ) (t : Naming)
    → IsValid st
    → is_slot n ≡ none
    → get st.names n ≡ none
    → assign st n ≡ some (i, t)
    → Named st n i t
assign-Named st n i t v s g e = elim (Bool-cases (leb 64 st.next)) [
  | inl full ↦ cc (rw full at e)
  | inr free ↦
      subst (λ (p : ℕ × Naming). Named st n p.0 p.1) (pair_eq (rw free at e))
        (extended-Named st n v s g)
]

known-Named :
    (st : Naming) (n : Text) (i : ℕ) (t : Naming) (o : Option ℕ)
    → IsValid st
    → is_slot n ≡ none
    → get st.names n ≡ o
    → known_or st n o ≡ some (i, t)
    → Named st n i t
known-Named st n i t none v s g e = assign-Named st n i t v s g e
known-Named st n i t (some j) v s g e =
    subst (λ (p : ℕ × Naming). Named st n p.0 p.1) (pair_eq e)
      (record { valid = v; named = g; kept = λ m k h. h })

pub nm-Named :
    (st : Naming) (n : Text) (i : ℕ) (t : Naming)
    → IsValid st
    → is_slot n ≡ none
    → nm st n ≡ some (i, t)
    → Named st n i t
unfolding nm
nm-Named st n i t v s e =
    known-Named st n i t (get st.names n) v s refl (ap (slot_or st n) (sym s) ∙ e)
