-- ===== src/Comp/BodyLaws.antt =====
-- The call bodies of comp/src/parse.rs: those of a label and of the labels that its code refers to.
use u_flux.Prelude.{
  ◌⊎◌, ℕ, ◌+◌, ◌<◌, ◌≡◌, ◌≢◌, refl, ap, ◌∙◌, arith, true, List, [], ◌∷◌, Option, none, some, ==_iff,
  inl, inr, All,
}
use u_flux.Comp.Ast.{Parsed}
use u_flux.Comp.UnionFind.{Parents, value_at, find, count_refs}
use u_flux.Comp.Forests.{Forest, root_of-Forest, compress-Forest, same_or_not, not_same}
use u_flux.Comp.Components.{link_ranges-Linked, own_parents-Forest, SameRoot}
use u_flux.Comp.Bodies.{member, sorted_pcs, ranges, comp_bodies, relabelled, relabel, label_bodies}
use u_flux.Comp.Ranges.{member-tail, Inside, ranges-Inside}

Has : Parents → ℕ → Type 0
Has m x = (b : ℕ) × (value_at m x ≡ some b)

pub value-here : (m : Parents) (k v x : ℕ) → k ≡ x → value_at ((k, v) ∷ m) x ≡ some v
unfolding value_at
value-here m k v x e = rw ((==_iff k x).1 e) refl

pub value-else : (m : Parents) (k v x : ℕ) → k ≢ x → value_at ((k, v) ∷ m) x ≡ value_at m x
unfolding value_at
value-else m k v x n = rw (not_same k x n) refl

Has-cons : (m : Parents) (k v x : ℕ) → (k ≡ x) ⊎ Has m x → Has ((k, v) ∷ m) x
unfolding Has
Has-cons m k v x h = elim (same_or_not k x) [
  | inl e ↦ (v, value-here m k v x e)
  | inr n ↦ elim h [ inl e ↦ absurd (n e) | inr (b, e) ↦ (b, value-else m k v x n ∙ e) ]
]

-- The components' bodies: every label's root has one.
pub record Filled (r d : ℕ → ℕ) (pcs : List ℕ) (comp : Parents) (out : Parents × Parents)
    : Type 0 where
  pub forest : Forest out.1 r d
  has : (x : ℕ) → (member pcs x ≡ true) ⊎ Has comp (r x) → Has out.0 (r x)

pub comp_bodies-Filled :
    (f : ℕ) (labels : Parents) (r d : ℕ → ℕ) (pcs : List ℕ) (m comp : Parents)
    → Forest m r d
    → ((x : ℕ) → d x < f)
    → Filled r d pcs comp (comp_bodies f labels m pcs comp)
unfolding comp_bodies find member
comp_bodies-Filled f labels r d [] m comp forest near = record {
  forest = forest;
  has = λ x h. elim h [ inl e ↦ cc | inr b ↦ b ];
}
comp_bodies-Filled f labels r d (pc ∷ pcs) m comp forest near =
    rw (root_of-Forest forest f pc (near pc))
      (next (comp_bodies-Filled f labels r d pcs _ _ (compress-Forest f pc forest) near))
  where
    next :
        {v : ℕ} {out : Parents × Parents}
        → Filled r d pcs ((r pc, v) ∷ comp) out
        → Filled r d (pc ∷ pcs) comp out
    next {v = v} rest = record {
      forest = rest.forest;
      has = λ x h. rest.has x (elim (same_or_not pc x) [
        | inl e ↦ inr (Has-cons comp (r pc) v (r x) (inl (ap r e)))
        | inr n ↦ elim h [
          | inl e ↦ inl (member-tail pc pcs x n e)
          | inr b ↦ inr (Has-cons comp (r pc) v (r x) (inr b))
        ]
      ]);
    }

-- The new bodies of the labels.
pub relabel-value :
    (f : ℕ) (comp : Parents) (r d : ℕ → ℕ) (x b : ℕ) (pcs : List ℕ) (m labels : Parents)
    → Forest m r d
    → ((y : ℕ) → d y < f)
    → value_at comp (r x) ≡ some b
    → (member pcs x ≡ true) ⊎ (value_at labels x ≡ some b)
    → value_at (relabel f comp m pcs labels) x ≡ some b
unfolding relabel find member
relabel-value f comp r d x b [] m labels forest near c h = elim h [ inl e ↦ cc | inr e ↦ e ]
relabel-value f comp r d x b (pc ∷ pcs) m labels forest near c h =
    rw (root_of-Forest forest f pc (near pc)) (
      relabel-value f comp r d x b pcs _ _ (compress-Forest f pc forest) near c
        (by_pc (same_or_not pc x) (value_at comp (r pc)) refl))
  where
    by_pc :
        (pc ≡ x) ⊎ (pc ≢ x)
        → (o : Option ℕ) → value_at comp (r pc) ≡ o
        → (member pcs x ≡ true) ⊎ (value_at (relabelled pc o labels) x ≡ some b)
    by_pc (inl e) none g = cc (g, c, ap r e)
    by_pc (inl e) (some v) g = inr (value-here labels pc v x e ∙ cc (g, c, ap r e))
    by_pc (inr n) none g = elim h [ inl e ↦ inl (member-tail pc pcs x n e) | inr e ↦ inr e ]
    by_pc (inr n) (some v) g = elim h [
      | inl e ↦ inl (member-tail pc pcs x n e)
      | inr e ↦ inr (value-else labels pc v x n ∙ e)
    ]

-- The label of every range has a body in `v`, and the labels that its code refers to have the same.
abbrev pub OneBody : (ℕ → Option ℕ) → List (ℕ × List ℕ) → Type 0
OneBody v = All (λ (l, ts). (b : ℕ) × ((v l ≡ some b) × All (λ t. v t ≡ some b) ts))

-- The labels of one root have one body.
Shared : (ℕ → Option ℕ) → (ℕ → ℕ) → List ℕ → Type 0
Shared v r pcs =
    (x : ℕ)
    → member pcs x ≡ true
    → (b : ℕ) × ((y : ℕ) → member pcs y ≡ true → r y ≡ r x → v y ≡ some b)

All-Shared :
    (v : ℕ → Option ℕ) (r : ℕ → ℕ) (pcs : List ℕ) (l b : ℕ)
    → ((y : ℕ) → member pcs y ≡ true → r y ≡ r l → v y ≡ some b)
    → (ts : List ℕ) → All (λ t. member pcs t ≡ true) ts
    → All (λ t. r t ≡ r l) ts
    → All (λ t. v t ≡ some b) ts
All-Shared v r pcs l b k [] ms es = tt
All-Shared v r pcs l b k (t ∷ ts) ms es = (k t ms.0 es.0, All-Shared v r pcs l b k ts ms.1 es.1)

Shared-OneBody :
    (v : ℕ → Option ℕ) (r : ℕ → ℕ) (pcs : List ℕ)
    → Shared v r pcs
    → (rs : List (ℕ × List ℕ)) → Inside pcs rs
    → SameRoot r rs
    → OneBody v rs
unfolding Shared
Shared-OneBody v r pcs h [] ms es = tt
Shared-OneBody v r pcs h ((l, ts) ∷ rs) ms es =
    let one = h l ms.0.0 in
    (
      (one.0, (one.1 l ms.0.0 refl, All-Shared v r pcs l one.0 one.1 ts ms.0.1 es.0)),
      Shared-OneBody v r pcs h rs ms.1 es.1,
    )

relabel-Shared :
    (f : ℕ) (r d : ℕ → ℕ) (pcs : List ℕ) (labels : Parents) (out : Parents × Parents)
    → ((x : ℕ) → d x < f)
    → Filled r d pcs [] out
    → Shared (value_at (relabel f out.0 out.1 pcs labels)) r pcs
unfolding Shared Has
relabel-Shared f r d pcs labels out near filled = λ x mx.
    let found : Has out.0 (r x) = filled.has x (inl mx) in
    (
      found.0,
      λ y my e.
          relabel-value f out.0 r d y found.0 pcs out.1 labels filled.forest near
            (ap (value_at out.0) e ∙ found.1) (inl my),
    )

-- Every label has a call body, and it is the body of all the labels whose addresses its range pushes.
pub label_bodies-OneBody :
    (p : Parsed) → OneBody (value_at (label_bodies p)) (ranges p (sorted_pcs p.labels))
unfolding label_bodies
label_bodies-OneBody p =
    let pcs = sorted_pcs p.labels in
    let rs = ranges p pcs in
    let f = count_refs rs + 1 in
    let linked =
      link_ranges-Linked f rs 0 (own_parents-Forest pcs) (λ x. omega arith) (omega arith) in
    let g = linked.grown in
    let near : (x : ℕ) → g.depth x < f = λ x. omega (arith, g.near x) in
    Shared-OneBody _ g.root pcs
      (relabel-Shared f g.root g.depth pcs _ _ near
        (comp_bodies-Filled f _ g.root g.depth pcs _ [] g.forest near))
      rs (ranges-Inside p pcs (λ x e. e)) linked.same
