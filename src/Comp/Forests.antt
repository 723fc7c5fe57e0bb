-- ===== src/Comp/Forests.antt =====
-- A map of parents is a forest: what `find` and a union do to the roots.
use u_flux.Prelude.{
  ◌⊎◌, ℕ, zero, suc, ◌+◌, ◌<◌, ◌≡◌, ◌≢◌, refl, sym, ap, ◌∙◌, arith, Bool, true, false, ◌∷◌, Option,
  none, some, ◌==◌, ==_iff, if◌then◌else◌, Bool-cases, inl, inr,
}
use u_flux.Comp.UnionFind.{Parents, value_at, or_else, up, root_of, compress}

pub up-here : (k v : ℕ) (m : Parents) → up ((k, v) ∷ m) k ≡ v
unfolding up value_at
up-here k v m = rw ((==_iff k k).1 refl) refl

pub same_or_not : (a b : ℕ) → (a ≡ b) ⊎ (a ≢ b)
same_or_not a b = elim (Bool-cases (a == b)) [
  | inl e ↦ inl ((==_iff a b).0 e)
  | inr n ↦ inr (λ e. cc (n, (==_iff a b).1 e))
]

pub not_same : (a b : ℕ) → a ≢ b → (a == b) ≡ false
not_same a b n = elim (Bool-cases (a == b)) [ inl e ↦ absurd (n ((==_iff a b).0 e)) | inr e ↦ e ]

up-value : (m : Parents) (x v : ℕ) → value_at m x ≡ some v → up m x ≡ v
unfolding up
up-value m x v e = rw e refl

pub up-else : (k v : ℕ) (m : Parents) (x : ℕ) → k ≢ x → up ((k, v) ∷ m) x ≡ up m x
unfolding up value_at
up-else k v m x n = rw (not_same k x n) refl

-- `r` is the root and `d` bounds the distance to it.
pub record Forest (m : Parents) (r d : ℕ → ℕ) : Type 0 where
  pub at_root : (x : ℕ) → up m x ≡ x → r x ≡ x
  pub above : (x : ℕ) → up m x ≢ x → (r (up m x) ≡ r x) × (d (up m x) < d x)
  pub root_up : (x : ℕ) → up m (r x) ≡ r x
  pub root_flat : (x : ℕ) → d (r x) ≡ 0

module _ {m : Parents} {r d : ℕ → ℕ} (t : Forest m r d) where
  pub root_twice : (x : ℕ) → r (r x) ≡ r x
  root_twice x = t.at_root (r x) (t.root_up x)

  pub root_of-Forest : (f x : ℕ) → d x < f → root_of f m x ≡ r x
  unfolding root_of
  root_of-Forest zero x h = absurd (omega (arith, h))
  root_of-Forest (suc f) x h = by_test (up m x == x) refl (root_of-Forest f (up m x))
    where
      by_test :
          (b : Bool)
          → (up m x == x) ≡ b
          → (d (up m x) < f → root_of f m (up m x) ≡ r (up m x))
          → (elim b [ true ↦ x | false ↦ root_of f m (up m x) ]) ≡ r x
      by_test true e later = sym (t.at_root x ((==_iff (up m x) x).0 e))
      by_test false n later =
          let (same, less) = t.above x (λ e. cc (n, (==_iff (up m x) x).1 e)) in
          later (omega (arith, h, less)) ∙ same

  deeper : (x : ℕ) → x ≢ r x → 0 < d x
  deeper x n = elim (same_or_not (up m x) x) [
    | inl e ↦ absurd (n (sym (t.at_root x e)))
    | inr k ↦ omega (arith, (t.above x k).1)
  ]

  compress_one : (c : ℕ) → c ≢ r c → Forest ((c, r c) ∷ m) r d
  compress_one c n = record {
    at_root = λ x e. elim (same_or_not c x) [
      | inl s ↦ absurd (n (sym (sym (up-here c (r c) m) ∙ ap (up ((c, r c) ∷ m)) s ∙ e ∙ sym s)))
      | inr k ↦ t.at_root x (sym (up-else c (r c) m x k) ∙ e)
    ];
    above = λ x e. elim (same_or_not c x) [
      | inl s ↦ rw (← s, up-here c (r c) m) (root_twice c, omega (arith, t.root_flat c, deeper c n))
      | inr k ↦ rw (up-else c (r c) m x k) (t.above x (λ z. e (up-else c (r c) m x k ∙ z)))
    ];
    root_up = λ x. elim (same_or_not c (r x)) [
      | inl s ↦ absurd (n (s ∙ sym (root_twice x) ∙ ap r (sym s)))
      | inr k ↦ up-else c (r c) m (r x) k ∙ t.root_up x
    ];
    root_flat = t.root_flat;
  }

  root_of_up : (x : ℕ) → x ≢ r x → r (or_else (r x) (value_at m x)) ≡ r x
  root_of_up x n = by_entry (value_at m x) refl
    where
      by_entry : (o : Option ℕ) → value_at m x ≡ o → r (or_else (r x) o) ≡ r x
      by_entry none e = root_twice x
      by_entry (some v) e =
          let is_up = up-value m x v e in
          ap r (sym is_up) ∙ (t.above x (λ z. n (sym (t.at_root x z)))).0

pub compress-Forest :
    (f : ℕ) {m : Parents} {r d : ℕ → ℕ} (cur : ℕ)
    → Forest m r d
    → Forest (compress f m (r cur) cur) r d
unfolding compress
compress-Forest zero cur t = t
compress-Forest (suc f) {m = m} {r = r} {d = d} cur t =
    by_test (cur == r cur) refl (λ c u. compress-Forest f c u)
  where
    by_test :
        (b : Bool)
        → (cur == r cur) ≡ b
        → ((c : ℕ)
            → Forest ((cur, r cur) ∷ m) r d
            → Forest (compress f ((cur, r cur) ∷ m) (r c) c) r d)
        → Forest
            (elim b [
              | true ↦ m
              | false ↦ compress f ((cur, r cur) ∷ m) (r cur) (or_else (r cur) (value_at m cur))
            ])
            r
            d
    by_test true e later = t
    by_test false n later =
        let no : cur ≢ r cur = λ e. cc (n, (==_iff cur (r cur)).1 e) in
        rw (root_of_up t cur no) at
          (later (or_else (r cur) (value_at m cur)) (compress_one t cur no))

-- A union of two roots.
unfoldable pub merged : (ℕ → ℕ) → ℕ → ℕ → ℕ → ℕ
merged r a b x = if r x == a then b else r x

unfoldable pub lifted : (ℕ → ℕ) → (ℕ → ℕ) → ℕ → ℕ → ℕ
lifted r d a x = if r x == a then d x + 1 else d x

pub merged-in : (r : ℕ → ℕ) (a b x : ℕ) → r x ≡ a → merged r a b x ≡ b
unfolding merged
merged-in r a b x e = rw ((==_iff (r x) a).1 e) refl

pub merged-out : (r : ℕ → ℕ) (a b x : ℕ) → r x ≢ a → merged r a b x ≡ r x
unfolding merged
merged-out r a b x n = rw (not_same (r x) a n) refl

pub lifted-in : (r d : ℕ → ℕ) (a x : ℕ) → r x ≡ a → lifted r d a x ≡ d x + 1
unfolding lifted
lifted-in r d a x e = rw ((==_iff (r x) a).1 e) refl

pub lifted-out : (r d : ℕ → ℕ) (a x : ℕ) → r x ≢ a → lifted r d a x ≡ d x
unfolding lifted
lifted-out r d a x n = rw (not_same (r x) a n) refl

module _ {m : Parents} {r d : ℕ → ℕ} (t : Forest m r d) (a b : ℕ) (ra : r a ≡ a) (rb : r b ≡ b)
    (n : a ≢ b) where
  b_not_a : r b ≢ a
  b_not_a e = n (sym e ∙ rb)

  b_flat : d b ≡ 0
  b_flat = ap d (sym rb) ∙ t.root_flat b

  union_above :
      (x : ℕ)
      → up ((a, b) ∷ m) x ≢ x
      → (merged r a b (up ((a, b) ∷ m) x) ≡ merged r a b x)
        × (lifted r d a (up ((a, b) ∷ m) x) < lifted r d a x)
  union_above x e = elim (same_or_not a x) [
    | inl s ↦
        rw
          (
            ← s,
            up-here a b m,
            merged-in r a b a ra,
            merged-out r a b b b_not_a,
            lifted-in r d a a ra,
            lifted-out r d a b b_not_a,
          )
          (rb, omega (arith, b_flat))
    | inr k ↦ else_case k (t.above x (λ z. e (up-else a b m x k ∙ z)))
  ]
    where
      else_case :
          a ≢ x
          → (r (up m x) ≡ r x) × (d (up m x) < d x)
          → (merged r a b (up ((a, b) ∷ m) x) ≡ merged r a b x)
            × (lifted r d a (up ((a, b) ∷ m) x) < lifted r d a x)
      else_case k (same, less) = rw (up-else a b m x k) (elim (same_or_not (r x) a) [
        | inl i ↦
            rw
              (
                merged-in r a b x i,
                merged-in r a b (up m x) (same ∙ i),
                lifted-in r d a x i,
                lifted-in r d a (up m x) (same ∙ i),
              )
              (refl, omega (arith, less))
        | inr o ↦
            rw
              (
                merged-out r a b x o,
                merged-out r a b (up m x) (λ z. o (sym same ∙ z)),
                lifted-out r d a x o,
                lifted-out r d a (up m x) (λ z. o (sym same ∙ z)),
              )
              (same, less)
      ])

  pub union_one : Forest ((a, b) ∷ m) (merged r a b) (lifted r d a)
  union_one = record {
    at_root = λ x e. elim (same_or_not a x) [
      | inl s ↦ absurd (n (s ∙ sym e ∙ ap (up ((a, b) ∷ m)) (sym s) ∙ up-here a b m))
      | inr k ↦
          let same = t.at_root x (sym (up-else a b m x k) ∙ e) in
          merged-out r a b x (λ z. k (sym z ∙ same)) ∙ same
    ];
    above = union_above;
    root_up = λ x. elim (same_or_not (r x) a) [
      | inl i ↦ rw (merged-in r a b x i) (up-else a b m b n ∙ ap (up m) (sym rb) ∙ t.root_up b ∙ rb)
      | inr o ↦ rw (merged-out r a b x o) (up-else a b m (r x) (λ z. o (sym z)) ∙ t.root_up x)
    ];
    root_flat = λ x. elim (same_or_not (r x) a) [
      | inl i ↦ rw (merged-in r a b x i) (lifted-out r d a b b_not_a ∙ b_flat)
      | inr o ↦
          rw (merged-out r a b x o)
            (lifted-out r d a (r x) (λ z. o (sym (root_twice t x) ∙ z)) ∙ t.root_flat x)
    ];
  }
