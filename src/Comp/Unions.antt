-- ===== src/Comp/Unions.antt =====
-- What one union of the union-find in comp/src/parse.rs does to the roots.
use u_flux.Prelude.{
  ℕ, ◌+◌, ◌<◌, ◌≤◌, ◌≡◌, ◌≢◌, refl, sym, ◌∙◌, arith, Bool, true, false, List, [], ◌∷◌, ◌==◌, ==_iff,
  if◌then◌else◌, All, length,
}
use u_flux.Comp.UnionFind.{Parents, compress, find, union, union_all}
use u_flux.Comp.Forests.{
  Forest, root_of-Forest, compress-Forest, merged, lifted, merged-in, merged-out, root_twice,
  union_one,
}

-- A forest with roots `r` becomes one of the map `m`, with distances up to `k`; elements that had one
-- root have one root.
pub record Grown (r : ℕ → ℕ) (m : Parents) (k : ℕ) : Type 0 where
  pub root : ℕ → ℕ
  pub depth : ℕ → ℕ
  pub forest : Forest m root depth
  pub near : (x : ℕ) → depth x ≤ k
  pub keeps : (x y : ℕ) → r x ≡ r y → root x ≡ root y

abbrev pub Grown-trans :
    {r : ℕ → ℕ} {m n : Parents} {j k : ℕ} (g : Grown r m j) → Grown (g.root) n k → Grown r n k
Grown-trans g h = record {
  root = h.root;
  depth = h.depth;
  forest = h.forest;
  near = h.near;
  keeps = λ x y e. h.keeps x y (g.keeps x y e);
}

abbrev pub wider : {r : ℕ → ℕ} {m : Parents} {j : ℕ} (k : ℕ) → j ≤ k → Grown r m j → Grown r m k
wider k le g = record {
  root = g.root;
  depth = g.depth;
  forest = g.forest;
  near = λ x. omega (arith, le, g.near x);
  keeps = g.keeps;
}

abbrev pub unchanged :
    {m : Parents} {r d : ℕ → ℕ} (k : ℕ) → Forest m r d → ((x : ℕ) → d x ≤ k) → Grown r m k
unchanged {r = r} {d = d} k t near = record {
  root = r;
  depth = d;
  forest = t;
  near = near;
  keeps = λ x y h. h;
}

merged-keeps : (r : ℕ → ℕ) (a b x y : ℕ) → r x ≡ r y → merged r a b x ≡ merged r a b y
unfolding merged
merged-keeps r a b x y e = rw e refl

lifted-le : (r d : ℕ → ℕ) (a x k : ℕ) → d x ≤ k → lifted r d a x ≤ k + 1
unfolding lifted
lifted-le r d a x k h = ground (arith, h)

-- One reference: its target joins the root `l`.
record Joined (r : ℕ → ℕ) (m : Parents) (k l t : ℕ) : Type 0 where
  grown : Grown r m k
  stays : grown.root l ≡ l
  joins : grown.root t ≡ l

union-Joined :
    (f : ℕ) {m : Parents} {r d : ℕ → ℕ} (k l t : ℕ)
    → Forest m r d
    → ((x : ℕ) → d x ≤ k)
    → k < f
    → r l ≡ l
    → Joined r (union f m l t) (k + 1) l t
unfolding union find
union-Joined f {m} {r} {d} k l t forest near lt rl =
    rw (root_of-Forest forest f t (omega (arith, near t)))
      (by_root (r t == l) refl (compress-Forest f t forest))
  where
    by_root :
        (b : Bool)
        → (r t == l) ≡ b
        → Forest (compress f m (r t) t) r d
        → Joined r (if b then compress f m (r t) t else (r t, l) ∷ compress f m (r t) t) (k + 1) l t
    by_root true e next = record {
      grown = record {
        root = r;
        depth = d;
        forest = next;
        near = λ x. omega (arith, near x);
        keeps = λ x y h. h;
      };
      stays = rl;
      joins = (==_iff (r t) l).0 e;
    }
    by_root false e next =
        let apart : r t ≢ l = λ h. cc (e, (==_iff (r t) l).1 h) in
        record {
          grown = record {
            root = merged r (r t) l;
            depth = lifted r d (r t);
            forest = union_one next (r t) l (root_twice next t) rl apart;
            near = λ x. lifted-le r d (r t) x k (near x);
            keeps = merged-keeps r (r t) l;
          };
          stays = merged-out r (r t) l l (λ h. apart (sym h ∙ rl)) ∙ rl;
          joins = merged-in r (r t) l t refl;
        }

-- The references of one range.
pub record AllJoined (r : ℕ → ℕ) (m : Parents) (k l : ℕ) (ts : List ℕ) : Type 0 where
  pub grown : Grown r m k
  pub stays : grown.root l ≡ l
  pub joins : All (λ t. grown.root t ≡ l) ts

next-AllJoined :
    {r : ℕ → ℕ} {m n : Parents} (k l t : ℕ) (ts : List ℕ)
    → (one : Joined r m (k + 1) l t) → AllJoined one.grown.root n (k + 1 + length ts) l ts
    → AllJoined r n (k + length (t ∷ ts)) l (t ∷ ts)
next-AllJoined k l t ts one rest = record {
  grown = Grown-trans one.grown (wider (k + length (t ∷ ts)) (omega arith) rest.grown);
  stays = rest.stays;
  joins = (rest.grown.keeps t l (one.joins ∙ sym one.stays) ∙ rest.stays, rest.joins);
}

pub union_all-AllJoined :
    (f l : ℕ) (ts : List ℕ) {m : Parents} {r d : ℕ → ℕ} (k : ℕ)
    → Forest m r d
    → ((x : ℕ) → d x ≤ k)
    → k + length ts < f
    → r l ≡ l
    → AllJoined r (union_all f m l ts) (k + length ts) l ts
unfolding union_all
union_all-AllJoined f l [] k forest near lt rl = record {
  grown = unchanged (k + 0) forest (λ x. omega (arith, near x));
  stays = rl;
  joins = tt;
}
union_all-AllJoined f l (t ∷ ts) k forest near lt rl =
    let one = union-Joined f k l t forest near (omega (arith, lt)) rl in
    next-AllJoined k l t ts one (
      union_all-AllJoined f l ts (k + 1) one.grown.forest one.grown.near (omega (arith, lt))
        one.stays)
