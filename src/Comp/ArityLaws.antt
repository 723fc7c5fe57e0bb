-- ===== src/Comp/ArityLaws.antt =====
-- The stack depth that the check of comp/src/parse.rs knows is the one of every run.
use u_flux.Prelude.{ℕ, ◌+◌, Bool, true, List, [], ◌∷◌, ◌&&◌}
use u_flux.Comp.Ast.{Ins, Parsed}
use u_flux.Comp.Heights.{is_counted}

-- The rest of a block, in a check that goes through.
module _ (p : Parsed) where
  unfoldable pub all_counted : ℕ → List Ins → Bool
  unfolding is_counted
  all_counted i [] = true
  all_counted i (y ∷ code) = is_counted p i y && all_counted (i + 1) code
