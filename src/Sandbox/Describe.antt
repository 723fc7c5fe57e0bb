-- ===== src/Sandbox/Describe.antt =====
-- `describe` of comp/src/sandbox.rs, the text by which the driver tells cached builds apart, and `report`,
-- the text that `--caps` prints.
use u_flux.Prelude.{
  drop, length, Bool, true, false, List, [], ◌∷◌, ◌++◌, map, Option, none, some, Text, codes,
}
use u_flux.Sandbox.Pattern.{cap_names}
use u_flux.Sandbox.Caps.{Caps, cap, is_some}
use u_flux.Sandbox.Bake.{concat_text, roots_or_none}

-- A Boolean as an `i64`, printed.
abbrev pub digit : Bool → Text
digit true = codes "1"
digit false = codes "0"

abbrev pub cap_line : Caps → Text → Text
cap_line c w = w ++ (codes "=" ++ digit (cap c w))

abbrev pub root_line : Text → Text
root_line r = codes "workspace=" ++ r

abbrev pub allow_line : Text → Text
allow_line m = codes "module_allow=" ++ m

abbrev pub deny_line : Text → Text
deny_line m = codes "module_deny=" ++ m

abbrev pub allowed_modules : Option (List Text) → List Text
allowed_modules none = codes "*" ∷ []
allowed_modules (some list) = list

-- The lines before the lists.
abbrev pub head_lines : Caps → List Text
head_lines c =
    (codes "policy=" ++ c.policy_name)
    ∷ (codes "origin=" ++ c.origin)
    ∷ (map (cap_line c) cap_names ++ (codes "fs.workspace=" ++ digit (is_some c.workspace)) ∷ [])

abbrev pub list_lines : Caps → List Text
list_lines c =
    map root_line (roots_or_none c.workspace)
    ++ (map allow_line (allowed_modules c.module_allow) ++ map deny_line c.module_deny)

unfoldable pub describe : Caps → Text
unfolding concat_text
describe c = concat_text (map (λ t. t ++ codes "\n") (head_lines c ++ list_lines c))

-- `{:12}`
abbrev pad_12 : Text → Text
pad_12 t = t ++ drop (length t) (codes "            ")

abbrev allowed_word : Bool → Text
allowed_word true = codes "allowed"
allowed_word false = codes "DENIED"

abbrev roots_word : Option (List Text) → Text
roots_word none = codes "unrestricted"
roots_word (some roots) = codes "roots below"

abbrev row : Text → Text → Text
row name value = codes "  " ++ (pad_12 name ++ (codes " " ++ (value ++ codes "\n")))

-- `join(", ")`
unfoldable pub join_names : List Text → Text
join_names [] = []
join_names (m ∷ []) = m
join_names (m ∷ n ∷ ms) = m ++ (codes ", " ++ join_names (n ∷ ms))

abbrev modules_text : Option (List Text) → Text
modules_text none = codes "all allowed"
modules_text (some []) = codes "none"
modules_text (some (m ∷ ms)) = join_names (m ∷ ms)

abbrev denied_text : List Text → Text
denied_text [] = []
denied_text (m ∷ ms) = codes " (denied: " ++ (join_names (m ∷ ms) ++ codes ")")

unfoldable pub report : Caps → Text
unfolding concat_text join_names
report c =
    codes "policy: "
    ++ (c.policy_name
        ++ (codes " ("
            ++ (c.origin
                ++ (codes ")\ncapabilities:\n"
                    ++ (concat_text (map (λ w. row w (allowed_word (cap c w))) cap_names)
                        ++ (row (codes "fs.workspace") (roots_word c.workspace)
                            ++ (concat_text (
                                  map (λ r. codes "    " ++ (r ++ codes "\n"))
                                    (roots_or_none c.workspace))
                                ++ (codes "modules (USE): "
                                    ++ (modules_text c.module_allow
                                        ++ (denied_text c.module_deny ++ codes "\n"))))))))))
