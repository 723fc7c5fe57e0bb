-- ===== src/Sandbox/SmallHost.antt =====
-- A small Unix host to run the capability model on: the paths of a tree of which one path is missing.
use mathlib.Core.List.{reverse-cons}
use u_flux.Prelude.{
  ◌<◌, ◌≡◌, refl, not, [], ◌∷◌, ◌++◌, reverse, Option, none, some, arith, ◌==◌, if◌then◌else◌,
  length, length-append, Text, codes, text_eq, starts_with,
}
use u_flux.Sandbox.Host.{Host}
use u_flux.Sandbox.Gate.{under_root}

abbrev pub before_slash : Text → Option Text
before_slash [] = none
before_slash (c ∷ r) = if c == b'/' then some (reverse r) else before_slash r

length-reverse : (s : Text) → length (reverse s) ≡ length s
length-reverse [] = refl
length-reverse (c ∷ s) =
    rw reverse-cons (omega (arith, length-reverse s, length-append (reverse s) (c ∷ [])))

before_slash-shorter : (r q : Text) → before_slash r ≡ some q → length q < length r
before_slash-shorter [] q e = cc
before_slash-shorter (c ∷ r) q e = ground (arith, length-reverse r, before_slash-shorter r q)

unfoldable pub parent_of_path : Text → Option Text
parent_of_path p = before_slash (reverse p)

pub parent_of_path-shorter : (p q : Text) → parent_of_path p ≡ some q → length q < length p
unfolding parent_of_path
parent_of_path-shorter p q e = omega (arith, before_slash-shorter (reverse p) q e, length-reverse p)

-- Paths are canonical as they stand, and all but `/srv/new` exist.
abbrev pub host : Host
host = record {
  is_absolute = λ p. starts_with p (codes "/");
  join_path = λ a b. a ++ (codes "/" ++ b);
  path_starts_with = under_root;
  parent = parent_of_path;
  canonicalize = λ p. if text_eq p (codes "/srv/new") then none else some p;
  exists = λ p. not (text_eq p (codes "/srv/new"));
  current_dir = codes "/home";
  temp_dir = codes "/tmp";
  parent_shorter = parent_of_path-shorter;
}
