-- ===== src/Comp/Scope.antt =====
-- The scopes of `resolve_locals` in comp/src/parse.rs: which names are shared, the checks on them, and
-- the rewriting of their reads and stores. The maps and sets are lists; where the source reports one of
-- several errors by the order of a hash map, the model reports the first.
use u_flux.Prelude.{
  ℕ, ◌+◌, min, Bool, true, false, not, ◌&&◌, List, [], ◌∷◌, ◌++◌, any, Option, none, some, ltb,
  ◌==◌, if◌then◌else◌, Text, text_eq, contains, length, get_elem?, Outcome, ok, err, ◌>>=◌,
}
use u_flux.Comp.Ast.{Ins, set_v, get_v, inc_local, add_local, local_set, local_get, Parsed}
use u_flux.Comp.UnionFind.{or_else}
use u_flux.Comp.Arity.{has_key}

pub data ScopeError : Type 0 where
  -- A name that is assigned in several bodies, and one that is assigned nowhere.
  many_bodies unassigned : Text → ScopeError
  -- A name, the bodies that assign it and the one that uses it.
  other_body : Text → List ℕ → ℕ → ScopeError
  -- The index behind the instructions that `p.ins[set_at]` panics on.
  past_end : ℕ → ScopeError

-- `labels.values().min()`
unfoldable pub least_label : List (Text × ℕ) → Option ℕ
least_label [] = none
least_label ((_, pc) ∷ labels) =
    let later = least_label labels in some (elim later [ none ↦ pc | some qc ↦ min pc qc ])

unfoldable pub first_label_pc : Parsed → ℕ
unfolding least_label
first_label_pc p = or_else (length p.ins) (least_label p.labels)

-- The name that an instruction stores to, and the one that it uses.
abbrev pub stored_name : Ins → Option Text
stored_name (local_set n) = some n
stored_name _ = none

abbrev pub used_name : Ins → Option Text
used_name (local_set n) = some n
used_name (local_get n) = some n
used_name (inc_local n) = some n
used_name (add_local n) = some n
used_name _ = none

abbrev pub add_if : Bool → Option Text → List Text → List Text
add_if true (some n) names = n ∷ names
add_if _ _ names = names

-- Assignments in the code before the first label that are no input binds.
unfoldable pub straight_names : List (ℕ × ℕ) → ℕ → ℕ → List Ins → List Text
unfolding has_key
straight_names binds first i [] = []
straight_names binds first i (y ∷ code) =
    add_if (ltb i first && not (has_key binds i)) (stored_name y)
      (straight_names binds first (i + 1) code)

unfoldable pub shared_names : Parsed → List Text → List Text
unfolding straight_names first_label_pc
shared_names p extra = extra ++ straight_names p.param_pcs (first_label_pc p) 0 p.ins

-- The names that a body's input binds hold.
abbrev pub bound_name : Option Ins → Option ℕ → List (ℕ × Text) → List (ℕ × Text)
bound_name (some (local_set n)) (some b) params = (b, n) ∷ params
bound_name _ _ params = params

unfoldable pub body_params : List Ins → List ℕ → List (ℕ × ℕ) → List (ℕ × Text)
body_params code bodies [] = []
body_params code bodies ((pc, _) ∷ binds) =
    bound_name (get_elem? code pc) (get_elem? bodies pc) (body_params code bodies binds)

unfoldable pub is_param : List (ℕ × Text) → ℕ → Text → Bool
unfolding text_eq
is_param params b n = any (λ (c, m). c == b && text_eq m n) params

-- `assigned_in`: names with the bodies that assign them, other than by an input bind.
abbrev pub assign_if : Bool → Option Text → ℕ → List (Text × ℕ) → List (Text × ℕ)
assign_if false (some n) b rest = (n, b) ∷ rest
assign_if _ _ b rest = rest

unfoldable pub assigned : List (ℕ × ℕ) → ℕ → List Ins → List ℕ → List (Text × ℕ)
unfolding has_key
assigned binds i (y ∷ code) (b ∷ bodies) =
    assign_if (has_key binds i) (stored_name y) b (assigned binds (i + 1) code bodies)
assigned binds i _ _ = []

unfoldable pub owners : List (Text × ℕ) → Text → List ℕ
unfolding text_eq
owners [] n = []
owners ((m, b) ∷ rest) n = let later = owners rest n in (if text_eq m n then b ∷ later else later)

-- A name that is not shared and that two bodies assign.
unfoldable pub is_ambiguous : List (Text × ℕ) → Text → ℕ → Bool
unfolding text_eq
is_ambiguous all n b = any (λ (m, c). text_eq m n && not (c == b)) all

unfoldable pub check_bodies :
    List Text → List (Text × ℕ) → List (Text × ℕ) → Outcome ScopeError (Unit {0})
unfolding is_ambiguous contains
check_bodies shared all [] = ok tt
check_bodies shared all ((n, b) ∷ rest) =
    let later = check_bodies shared all rest in
    (if not (contains shared n) && is_ambiguous all n b then err (many_bodies n) else later)

abbrev pub check_owners : Text → List ℕ → ℕ → Outcome ScopeError (Unit {0})
check_owners n [] b = err (unassigned n)
check_owners n (o ∷ os) b =
    if any (λ c. c == b) (o ∷ os) then ok tt else err (other_body n (o ∷ os) b)

abbrev pub check_use :
    List Text → List (Text × ℕ) → Bool → Option Text → ℕ → Outcome ScopeError (Unit {0})
check_use shared all true (some n) b =
    if contains shared n then ok tt else check_owners n (owners all n) b
check_use shared all _ _ b = ok tt

-- The uses in the code before the first label: `if i >= first_label_pc { continue; }`.
unfoldable pub check_uses :
    List Text → List (Text × ℕ) → ℕ → ℕ → List Ins → List ℕ → Outcome ScopeError (Unit {0})
unfolding contains owners
check_uses shared all first i (y ∷ code) (b ∷ bodies) =
    check_use shared all (ltb i first) (used_name y) b >>= λ _.
    check_uses shared all first (i + 1) code bodies
check_uses shared all first i _ _ = ok tt

-- An instruction with a shared name, and the name.
abbrev pub shared_ins : Bool → Bool → Ins → Ins × Option Text
shared_ins is_bind is_shared (local_set n) =
    if is_shared && not is_bind then (set_v n, some n) else (local_set n, none)
shared_ins is_bind is_shared (local_get n) =
    if is_shared then (get_v n, some n) else (local_get n, none)
shared_ins is_bind is_shared y = (y, none)

-- `shared.contains(n) && !shadowed`
abbrev pub is_visible : List Text → List (ℕ × Text) → ℕ → Option Text → Bool
is_visible shared params b none = false
is_visible shared params b (some n) = contains shared n && not (is_param params b n)

abbrev pub add_new : Option Text → List Text → List Text
add_new none vars = vars
add_new (some n) vars = if contains vars n then vars else vars ++ n ∷ []

abbrev pub rename_at : List Text → List (ℕ × ℕ) → List (ℕ × Text) → ℕ → ℕ → Ins → Ins × Option Text
rename_at shared binds params i b y =
    shared_ins (has_key binds i) (is_visible shared params b (used_name y)) y

unfoldable pub rename :
    List Text → List (ℕ × ℕ) → List (ℕ × Text) → ℕ → List Ins → List ℕ → List Ins
unfolding has_key contains is_param
rename shared binds params i (y ∷ code) (b ∷ bodies) =
    (rename_at shared binds params i b y).0 ∷ rename shared binds params (i + 1) code bodies
rename shared binds params i code _ = code

unfoldable pub new_vars :
    List Text → List (ℕ × ℕ) → List (ℕ × Text) → ℕ → List Ins → List ℕ → List Text → List Text
unfolding has_key contains is_param
new_vars shared binds params i (y ∷ code) (b ∷ bodies) vars =
    new_vars shared binds params (i + 1) code bodies
      (add_new (rename_at shared binds params i b y).1 vars)
new_vars shared binds params i _ _ vars = vars
