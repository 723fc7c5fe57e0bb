-- ===== src/Comp/Components.antt =====
-- Labels that refer to each other end in one component.
use u_flux.Prelude.{
  ℕ, ◌+◌, ◌<◌, ◌≤◌, ◌≡◌, refl, sym, ◌∙◌, arith, List, [], ◌∷◌, inl, inr, All, length,
}
use u_flux.Comp.UnionFind.{Parents, up, find, link_ranges, own_parents, count_refs}
use u_flux.Comp.Forests.{
  Forest, root_of-Forest, compress-Forest, up-here, up-else, same_or_not, root_twice,
}
use u_flux.Comp.Unions.{Grown, Grown-trans, wider, unchanged, AllJoined, union_all-AllJoined}

abbrev pub SameRoot : (ℕ → ℕ) → List (ℕ × List ℕ) → Type 0
SameRoot r rs = All (λ (l, ts). All (λ t. r t ≡ r l) ts) rs

pub record Linked (r : ℕ → ℕ) (m : Parents) (k : ℕ) (rs : List (ℕ × List ℕ)) : Type 0 where
  pub grown : Grown r m k
  pub same : SameRoot grown.root rs

All-keeps :
    (r q : ℕ → ℕ) (l : ℕ) (ts : List ℕ)
    → ((x y : ℕ) → r x ≡ r y → q x ≡ q y)
    → All (λ t. r t ≡ r l) ts
    → All (λ t. q t ≡ q l) ts
All-keeps r q l [] k h = tt
All-keeps r q l (t ∷ ts) k h = (k t l h.0, All-keeps r q l ts k h.1)

All-to :
    (q : ℕ → ℕ) (c l : ℕ) (ts : List ℕ) → q l ≡ c → All (λ t. q t ≡ c) ts → All (λ t. q t ≡ q l) ts
All-to q c l [] e h = tt
All-to q c l (t ∷ ts) e h = (h.0 ∙ sym e, All-to q c l ts e h.1)

All-along :
    (r q : ℕ → ℕ) (l : ℕ) (ts : List ℕ)
    → ((x : ℕ) → q x ≡ r x)
    → All (λ t. r t ≡ r l) ts
    → All (λ t. q t ≡ q l) ts
All-along r q l [] k h = tt
All-along r q l (t ∷ ts) k h = (k t ∙ h.0 ∙ sym (k l), All-along r q l ts k h.1)

SameRoot-along :
    (r q : ℕ → ℕ) (rs : List (ℕ × List ℕ)) → ((x : ℕ) → q x ≡ r x) → SameRoot r rs → SameRoot q rs
SameRoot-along r q [] k h = tt
SameRoot-along r q ((l, ts) ∷ rs) k h = (All-along r q l ts k h.0, SameRoot-along r q rs k h.1)

next-Linked :
    {r : ℕ → ℕ} {m n : Parents} (k l : ℕ) (ts : List ℕ) (rs : List (ℕ × List ℕ))
    → r (r l) ≡ r l
    → (all : AllJoined r m (k + length ts) (r l) ts)
    → Linked all.grown.root n (k + length ts + count_refs rs) rs
    → Linked r n (k + count_refs ((l, ts) ∷ rs)) ((l, ts) ∷ rs)
next-Linked {r = r} k l ts rs twice all rest = record {
  grown = Grown-trans all.grown (wider (k + count_refs ((l, ts) ∷ rs)) (omega arith) rest.grown);
  same = (
    All-keeps all.grown.root rest.grown.root l ts rest.grown.keeps (
        All-to all.grown.root (r l) l ts (all.grown.keeps l (r l) (sym twice) ∙ all.stays)
          all.joins),
    rest.same,
  );
}

pub link_ranges-Linked :
    (f : ℕ) (rs : List (ℕ × List ℕ)) {m : Parents} {r d : ℕ → ℕ} (k : ℕ)
    → Forest m r d
    → ((x : ℕ) → d x ≤ k)
    → k + count_refs rs < f
    → Linked r (link_ranges f m rs) (k + count_refs rs) rs
unfolding link_ranges find
link_ranges-Linked f [] k forest near lt = record {
  grown = unchanged (k + 0) forest (λ x. omega (arith, near x));
  same = tt;
}
link_ranges-Linked f ((l, ts) ∷ rs) {r = r} k forest near lt =
    let all =
      union_all-AllJoined f (r l) ts k (compress-Forest f l forest) near (omega (arith, lt))
        (root_twice forest l) in
    rw (root_of-Forest forest f l (omega (arith, near l, lt))) (
      next-Linked k l ts rs (root_twice forest l) all (
        link_ranges-Linked f rs (k + length ts) all.grown.forest all.grown.near
          (omega (arith, lt))))

up-own_parents : (xs : List ℕ) (x : ℕ) → up (own_parents xs) x ≡ x
unfolding own_parents up
up-own_parents [] x = refl
up-own_parents (y ∷ xs) x = elim (same_or_not y x) [
  | inl e ↦ rw (← e, up-here y y (own_parents xs)) refl
  | inr n ↦ up-else y y (own_parents xs) x n ∙ up-own_parents xs x
]

pub own_parents-Forest : (xs : List ℕ) → Forest (own_parents xs) (λ x. x) (λ x. 0)
own_parents-Forest xs = record {
  at_root = λ x e. refl;
  above = λ x e. absurd (e (up-own_parents xs x));
  root_up = up-own_parents xs;
  root_flat = λ x. refl;
}
