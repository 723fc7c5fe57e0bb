-- ===== src/Sandbox/Ufs.antt =====
-- `parse_rules` and `parse_ufs` of comp/src/sandbox.rs: the text of a capability configuration. The
-- panics are error values; the file name, which only stands in their messages, is left out.
use u_flux.Prelude.{
  ℕ, ◌+◌, Bool, true, false, List, [], ◌∷◌, ◌++◌, map, reverse, Option, none, some, Outcome, ok,
  err, ◌>>=◌, ◌==◌, if◌then◌else◌, Text, codes, text_eq, strip_prefix, trim, trim_matches,
  trim_end_matches, until, split_once, split_whitespace, is_whitespace,
}
use u_flux.Sandbox.Rules.{Rules, default_rules}
use u_flux.Sandbox.Effective.{SandboxFile, lookup_policy}

pub data UfsError : Type 0 where
  unknown_key : ℕ → Text → UfsError
  empty_policy_name : ℕ → UfsError
  duplicate_policy : ℕ → Text → UfsError

-- A section's lines with their numbers.
abbrev pub Lines : Type 0
Lines = List (ℕ × Text)

abbrev pub Parsed : Type 0
Parsed = Rules × Option Text

abbrev key_of : Text → Option (Text × Text) → Text
key_of line none = line
key_of line (some (k, v)) = k

abbrev rest_of : Option (Text × Text) → Text
rest_of none = []
rest_of (some (k, v)) = trim v

abbrev is_quote : ℕ → Bool
is_quote c = c == b'"'

-- `"name" if vals.len() == 1`
abbrev set_name : ℕ → Text → Rules → List Text → Outcome UfsError Parsed
set_name n key r (v ∷ []) = ok (r, some v)
set_name n key r _ = err (unknown_key n key)

-- The `match` on the key of one line, with the rules and the name found so far.
unfoldable pub apply_key : ℕ → Text → List Text → Parsed → Outcome UfsError Parsed
apply_key n key vals (r, name) =
    if text_eq key (codes "deny")
    then ok (record r { deny = r.deny ++ vals }, name)
    else if text_eq key (codes "allow")
    then ok (record r { allow = r.allow ++ vals }, name)
    else if text_eq key (codes "workspace")
    then ok (record r { workspace = r.workspace ++ vals }, name)
    else if text_eq key (codes "allow-module")
    then ok (record r { allow_module = r.allow_module ++ vals }, name)
    else if text_eq key (codes "deny-module")
    then ok (record r { deny_module = r.deny_module ++ vals }, name)
    else if text_eq key (codes "name")
    then set_name n key r vals
    else err (unknown_key n key)

-- A line without its comment and the blanks around it.
unfoldable pub strip_comment : Text → Text
unfolding until trim
strip_comment line = trim (until (λ c. c == b';') line)

unfoldable pub values_of : Text → List Text
unfolding split_once split_whitespace trim trim_matches
values_of line =
    map (trim_matches is_quote) (split_whitespace (rest_of (split_once is_whitespace line)))

abbrev apply_stripped : ℕ → Text → Parsed → Outcome UfsError Parsed
apply_stripped n [] p = ok p
apply_stripped n (c ∷ line) p =
    apply_key n (key_of (c ∷ line) (split_once is_whitespace (c ∷ line))) (values_of (c ∷ line)) p

-- One round of the loop of `parse_rules`.
unfoldable pub apply_line : ℕ → Text → Parsed → Outcome UfsError Parsed
unfolding apply_key strip_comment values_of
apply_line n line p = apply_stripped n (strip_comment line) p

unfoldable pub rules_from : Lines → Parsed → Outcome UfsError Parsed
unfolding apply_line
rules_from [] p = ok p
rules_from ((n, line) ∷ ls) p = apply_line n line p >>= rules_from ls

unfoldable pub parse_rules : Lines → Outcome UfsError Parsed
unfolding rules_from
parse_rules lines = rules_from lines (default_rules, none)

-- The pieces of `src.lines()`: no line follows the last newline, and `\r` before it is dropped.
drop_return : Text → Text
drop_return [] = []
drop_return (c ∷ s) = if c == b'\r' then s else c ∷ s

unfoldable pub lines_from : Text → Text → List Text
unfolding drop_return
lines_from [] [] = []
lines_from (c ∷ cur) [] = reverse (c ∷ cur) ∷ []
lines_from cur (c ∷ s) = elim (c == b'\n') [
  | true ↦ reverse (drop_return cur) ∷ lines_from [] s
  | false ↦ lines_from (c ∷ cur) s
]

unfoldable pub lines : Text → List Text
unfolding lines_from
lines src = lines_from [] src

-- The state of the loop of `parse_ufs`.
pub record State : Type 0 where
  pub file : SandboxFile
  pub section : Lines
  pub cur : Option Text

abbrev pub initial_state : State
initial_state = record {
  file = record { base = default_rules; policies = []; name = none };
  section = [];
  cur = none;
}

-- `HashMap::insert`
unfoldable pub insert_policy : List (Text × Rules) → Text → Rules → List (Text × Rules)
insert_policy [] k r = (k, r) ∷ []
insert_policy ((j, q) ∷ ps) k r = if text_eq j k then (k, r) ∷ ps else (j, q) ∷ insert_policy ps k r

abbrev or_old : Option Text → Option Text → Option Text
or_old none old = old
or_old (some n) old = some n

abbrev flush_into : SandboxFile → Option Text → Parsed → SandboxFile
flush_into sf (some prev) (rules, name) = record sf {
  policies = insert_policy sf.policies prev rules;
}
flush_into sf none (rules, name) = record sf { base = rules; name = or_old name sf.name }

-- `flush`: the section read so far goes to the policy that is open, or to the base.
unfoldable pub flush : State → Outcome UfsError SandboxFile
unfolding parse_rules insert_policy
flush st = parse_rules st.section >>= λ p. ok (flush_into st.file st.cur p)

abbrev is_none {ℓ} : {A : Type ℓ} → Option A → Bool
is_none none = true
is_none (some a) = false

abbrev open_policy : ℕ → Text → SandboxFile → Outcome UfsError State
open_policy n name sf =
    if is_none (lookup_policy sf.policies name)
    then ok (record { file = sf; section = []; cur = some name })
    else err (duplicate_policy n name)

abbrev start_policy : ℕ → Text → State → Outcome UfsError State
start_policy n [] st = err (empty_policy_name n)
start_policy n (c ∷ name) st = flush st >>= open_policy n (c ∷ name)

abbrev header_name : Text → Text
header_name rest = trim (trim_end_matches (λ c. c == b']') rest)

abbrev on_header : ℕ → Text → Option Text → State → Outcome UfsError State
on_header n raw none st = ok (record st { section = st.section ++ (n, raw) ∷ [] })
on_header n raw (some rest) st = start_policy n (header_name rest) st

-- One round of the loop of `parse_ufs`.
unfoldable pub step : ℕ → Text → State → Outcome UfsError State
unfolding flush strip_prefix trim trim_end_matches lookup_policy
step n raw st = on_header n raw (strip_prefix (trim raw) (codes "[policy ")) st

unfoldable pub run : ℕ → List Text → State → Outcome UfsError SandboxFile
unfolding step flush
run i [] st = flush st
run i (raw ∷ ls) st = step (i + 1) raw st >>= run (i + 1) ls

unfoldable pub parse_ufs : Text → Outcome UfsError SandboxFile
unfolding run lines
parse_ufs src = run 0 (lines src) initial_state
