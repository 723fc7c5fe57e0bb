-- ===== src/Comp/Atomics.antt =====
-- The additions to shared variables in `resolve_locals` of comp/src/parse.rs: a read, an `add` and a
-- store of one name become an atomic addition. Nothing is inserted, so positions stay.
use u_flux.Prelude.{
  ℕ, zero, suc, ◌+◌, ◌-◌, Bool, false, List, Option, none, some, leb, if◌then◌else◌, Text, codes,
  text_eq, get_elem?, set, length, pos, int_eq, Outcome, ok, err, ◌>>=◌,
}
use u_flux.Comp.Ast.{Ins, push_i, simple, set_v, get_v, atomic_add, nop}
use u_flux.Comp.Scope.{ScopeError, past_end}

unfoldable pub is_add : Option Ins → Bool
unfolding text_eq
is_add (some (simple h)) = text_eq h (codes "op_add")
is_add _ = false

abbrev pub read_name : Option Ins → Option Text
read_name (some (get_v n)) = some n
read_name _ = none

abbrev pub is_one : Option Ins → Bool
is_one (some (push_i k)) = int_eq k (pos 1)
is_one _ = false

unfoldable pub stores_to : Ins → Text → Bool
unfolding text_eq
stores_to (set_v m) n = text_eq m n
stores_to _ n = false

-- `p.ins[i - k]`, if there is one.
abbrev pub back : ℕ → ℕ → List Ins → Option Ins
back k i code = if leb k i then get_elem? code (i - k) else none

abbrev pub fused : Text → Bool → ℕ → List Ins → List Ins
fused n inc i code =
    let three = set (set (set code i (atomic_add n inc)) (i + 1) nop) (i - 1) nop in
    (if inc then set three (i - 2) nop else three)

abbrev pub fuse_store : Option Ins → Text → Bool → ℕ → List Ins → Outcome ScopeError (List Ins)
fuse_store none n inc i code = err (past_end (i + 1))
fuse_store (some y) n inc i code = ok (if stores_to y n then fused n inc i code else code)

abbrev pub fuse_read : Option Text → Bool → ℕ → List Ins → Outcome ScopeError (List Ins)
fuse_read none inc i code = ok code
fuse_read (some n) inc i code = fuse_store (get_elem? code (i + 1)) n inc i code

unfoldable pub fuse_at : ℕ → List Ins → Outcome ScopeError (List Ins)
unfolding is_add stores_to
fuse_at i code =
    if is_add (get_elem? code i)
    then fuse_read (read_name (back 1 i code)) (is_one (back 2 i code)) i code
    else ok code

-- `for i in 0..p.ins.len()`, by the rounds left.
unfoldable pub fuse_from : ℕ → ℕ → List Ins → Outcome ScopeError (List Ins)
unfolding fuse_at
fuse_from zero i code = ok code
fuse_from (suc k) i code = fuse_at i code >>= λ code'. fuse_from k (i + 1) code'

unfoldable pub fuse_adds : List Ins → Outcome ScopeError (List Ins)
unfolding fuse_from
fuse_adds code = fuse_from (length code) 0 code
