-- ===== src/Comp/Slots.antt =====
-- The names of the dense encoding (`is_slot` and `nm` of `emit_dense`, comp/src/emit.rs): a name of
-- the form `v<N>` keeps the slot N, any other takes the next one when it is first met.
use u_flux.Prelude.{
  ℕ, ◌+◌, ◌-◌, ◌*◌, ◌^◌, List, [], ◌∷◌, Option, none, some, ltb, leb, ◌==◌, if◌then◌else◌, Text,
  codes, text_eq, within, strip_prefix,
}

-- `str::parse::<u32>`: decimal digits behind an optional `+`.
abbrev checked_u32 : ℕ → Option ℕ
checked_u32 n = if ltb n (2 ^ 32) then some n else none

abbrev u32_digit : Option ℕ → ℕ → Option ℕ
u32_digit none c = none
u32_digit (some v) c = if within b'0' b'9' c then checked_u32 (v * 10 + (c - b'0')) else none

unfoldable pub u32_digits : Option ℕ → Text → Option ℕ
u32_digits v [] = v
u32_digits v (c ∷ s) = u32_digits (u32_digit v c) s

abbrev non_empty_digits : Text → Option ℕ
non_empty_digits [] = none
non_empty_digits (c ∷ s) = u32_digits (some 0) (c ∷ s)

unfoldable pub parse_u32 : Text → Option ℕ
unfolding u32_digits
parse_u32 [] = none
parse_u32 (c ∷ s) = if c == b'+' then non_empty_digits s else non_empty_digits (c ∷ s)

abbrev small_slot : Option ℕ → Option ℕ
small_slot none = none
small_slot (some i) = if ltb i 64 then some i else none

abbrev parse_behind : Option Text → Option ℕ
parse_behind none = none
parse_behind (some d) = parse_u32 d

unfoldable pub is_slot : Text → Option ℕ
unfolding strip_prefix parse_u32
is_slot n = small_slot (parse_behind (strip_prefix n (codes "v")))

-- The map of names, and the next slot.
pub record Naming : Type 0 where
  pub names : List (Text × ℕ)
  pub next : ℕ

abbrev pub no_names : Naming
no_names = record { names = []; next = 0 }

unfoldable pub get : List (Text × ℕ) → Text → Option ℕ
unfolding text_eq
get [] n = none
get ((m, i) ∷ names) n = if text_eq m n then some i else get names n

abbrev pub assign : Naming → Text → Option (ℕ × Naming)
assign st n =
    if leb 64 st.next
    then none
    else some (st.next, record { names = (n, st.next) ∷ st.names; next = st.next + 1 })

abbrev pub known_or : Naming → Text → Option ℕ → Option (ℕ × Naming)
known_or st n (some i) = some (i, st)
known_or st n none = assign st n

abbrev pub slot_or : Naming → Text → Option ℕ → Option (ℕ × Naming)
slot_or st n (some i) = some (i, st)
slot_or st n none = known_or st n (get st.names n)

-- The slot of a name, whose glyph the emitter prints; `none` is the panic on more than 64 names.
unfoldable pub nm : Naming → Text → Option (ℕ × Naming)
unfolding is_slot get
nm st n = slot_or st n (is_slot n)

-- The slots of a source's names, in the order of the source.
abbrev pub with_slot : ℕ → Option (List ℕ × Naming) → Option (List ℕ × Naming)
with_slot i none = none
with_slot i (some (is, st)) = some (i ∷ is, st)

unfoldable pub nm_all : Naming → List Text → Option (List ℕ × Naming)
unfolding nm
nm_all st [] = some ([], st)
nm_all st (n ∷ ns) = elim (nm st n) [ none ↦ none | some (i, t) ↦ with_slot i (nm_all t ns) ]
