-- ===== src/Compute/Params.antt =====
-- The count of a task's leading input binds.
use u_flux.Prelude.{
  ℕ, zero, suc, ◌+◌, ◌<◌, ◌≤◌, ◌≡◌, refl, ap, ◌∙◌, arith, Bool, true, false, List, [], ◌∷◌,
  if◌then◌else◌, Bool-cases, inl, inr,
}
use u_flux.Compute.Tasks.{contains_key, count_params, key_bound}

passed : (b : Bool) (n m : ℕ) → n < (if b then m else 0) → (b ≡ true) × (n < m)
passed true n m h = (refl, h)
passed false n m h = ground (arith, h)

-- The keys from `i` on that the count has passed.
pub count_params-keys :
    (f : ℕ) (keys : List ℕ) (i j : ℕ) → j < count_params f keys i → contains_key keys (i + j) ≡ true
unfolding count_params
count_params-keys zero keys i j h = ground (arith, h)
count_params-keys (suc f) keys i zero h =
    let (e, lt) = passed (contains_key keys i) 0 (count_params f keys (i + 1) + 1) h in
    ap (contains_key keys) (omega arith) ∙ e
count_params-keys (suc f) keys i (suc j) h =
    let (e, lt) = passed (contains_key keys i) (suc j) (count_params f keys (i + 1) + 1) h in
    ap (contains_key keys) (omega arith) ∙ count_params-keys f keys (i + 1) j (omega (arith, lt))

key_below : (keys : List ℕ) (i : ℕ) → contains_key keys i ≡ true → i < key_bound keys
unfolding contains_key key_bound
key_below [] i h = cc
key_below (k ∷ keys) i h = ground (arith, key_below keys i)

count_params-above :
    (f : ℕ) (keys : List ℕ) (i : ℕ)
    → key_bound keys ≤ i + f
    → contains_key keys (i + count_params f keys i) ≡ false
unfolding count_params
count_params-above zero keys i h = elim (Bool-cases (contains_key keys (i + 0))) [
  | inl e ↦ absurd (omega (arith, key_below keys (i + 0) e, h))
  | inr n ↦ n
]
count_params-above (suc f) keys i h = elim (Bool-cases (contains_key keys i)) [
  | inl e ↦
      rw e (
        ap (contains_key keys) (omega arith) ∙ count_params-above f keys (i + 1) (omega (arith, h)))
  | inr n ↦ rw n (ap (contains_key keys) (omega arith) ∙ n)
]

-- The count of the leading binds ends, with the fuel that the analysis gives it, at the first
-- instruction from `i` on that is none, and all those that it has passed are.
pub count_params_lem :
    (keys : List ℕ) (i : ℕ)
    → (contains_key keys (i + count_params (key_bound keys) keys i) ≡ false)
      × ((j : ℕ) → j < count_params (key_bound keys) keys i → contains_key keys (i + j) ≡ true)
count_params_lem keys i = (
  count_params-above (key_bound keys) keys i (omega arith),
  count_params-keys (key_bound keys) keys i,
)
