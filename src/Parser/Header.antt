-- ===== src/Parser/Header.antt =====
-- parse_header and extract_env_condition of src/htaccess_parser.c.
use litehttpd.Prelude.{
  true, ℕ, [], ◌∷◌, ◌++◌, Bool, false, not, ◌&&◌, ◌||◌, Option, none, some, drop, ◌==◌,
  if◌then◌else◌,
}
use litehttpd.Prelude.Text.{
  Bytes, codes, is_space, skip_ws, at_end, str_caseeq, starts_with, starts_with_nocase,
}
use litehttpd.Prelude.Maybe.{◌>>=◌}
use litehttpd.Cidr6.{trim_end}
use litehttpd.Directive.{Directive, directive, no_data, header_ext}
use litehttpd.Directive.Kind.{
  DirectiveType, header_set, header_unset, header_append, header_merge, header_add, header_edit,
  header_edit_star, header_always_set, header_always_unset, header_always_append,
  header_always_merge, header_always_add, header_always_edit, header_always_edit_star,
}
use litehttpd.Parser.Scan.{next_token, rest_of_line, unquote, quote}

-- What stands up to the last quote, that included, and what stands behind it.
unfoldable pub split_last_quote : Bytes → Bytes × Bytes
split_last_quote [] = ([], [])
split_last_quote (c ∷ s) =
    let next = split_last_quote s in
    if at_end next.0 && not (c == quote) then ([], c ∷ next.1) else (c ∷ next.0, next.1)

-- What stands before and behind the first " env=".
unfoldable pub split_env : Bytes → Option (Bytes × Bytes)
unfolding starts_with
split_env [] = none
split_env (c ∷ s) =
    let later = split_env s in
    if starts_with (c ∷ s) (codes " env=")
    then some ([], drop 4 s)
    else elim later [ none ↦ none | some (before, rest) ↦ some (c ∷ before, rest) ]

unfoldable pub has_space : Bytes → Bool
has_space [] = false
has_space (c ∷ s) = is_space c || has_space s

-- The condition and what is left of the value.
unfoldable pub extract_env_condition : Bytes → Option (Bytes × Bytes)
unfolding split_last_quote split_env has_space trim_end unquote
extract_env_condition value =
    let (front, behind) = split_last_quote value in
    elim (split_env behind) [
      | none ↦ none
      | some (before, var_start) ↦
          let condition = trim_end var_start in
          if at_end condition || has_space condition
          then none
          else some (condition, unquote (trim_end (front ++ before)))
    ]

-- What follows `unset` and `edit` may be env=VAR.
unfoldable pub env_argument : Bytes → Option Bytes
unfolding starts_with_nocase trim_end skip_ws
env_argument p =
    let remaining = skip_ws p in
    let var = trim_end (drop 4 remaining) in
    if starts_with_nocase remaining (codes "env=") && not (at_end var) then some var else none

-- The actions, and the forms of what follows them.
pub data Action : Type 0 where
  set unset append merge add edit edit_star : Action

pub data Form : Type 0 where
  plain removal edited : Form

unfoldable pub action_of : Bytes → Option Action
action_of act =
    if str_caseeq act (codes "set")
    then some set
    else if str_caseeq act (codes "unset")
    then some unset
    else if str_caseeq act (codes "append")
    then some append
    else if str_caseeq act (codes "merge")
    then some merge
    else if str_caseeq act (codes "add")
    then some add
    else if str_caseeq act (codes "edit")
    then some edit
    else if str_caseeq act (codes "edit*")
    then some edit_star
    else none

unfoldable pub header_type : Bool → Action → DirectiveType
header_type false set = header_set
header_type false unset = header_unset
header_type false append = header_append
header_type false merge = header_merge
header_type false add = header_add
header_type false edit = header_edit
header_type false edit_star = header_edit_star
header_type true set = header_always_set
header_type true unset = header_always_unset
header_type true append = header_always_append
header_type true merge = header_always_merge
header_type true add = header_always_add
header_type true edit = header_always_edit
header_type true edit_star = header_always_edit_star

-- needs_value and is_edit
unfoldable pub form_of : Action → Form
form_of unset = removal
form_of edit = edited
form_of edit_star = edited
form_of _ = plain

-- A value with its condition split off, if it has one.
unfoldable pub with_condition : DirectiveType → ℕ → Bytes → Bytes → Directive
unfolding extract_env_condition
with_condition t line name value = elim (extract_env_condition value) [
  | none ↦ directive t line (some name) (some value) none no_data
  | some (condition, left) ↦ directive t line (some name) (some left) (some condition) no_data
]

unfoldable pub header_rest : DirectiveType → Form → Bytes → Bytes → ℕ → Option Directive
unfolding env_argument with_condition
header_rest t plain name p line = do value ← rest_of_line p; some (with_condition t line name value)
header_rest t removal name p line =
    some (directive t line (some name) none (env_argument p) no_data)
header_rest t edited name p line = do
  (edit_pattern, q) ← next_token p
  (value, r) ← next_token q
  some (directive t line (some name) (some value) (env_argument r) (header_ext (some edit_pattern)))

unfoldable pub header_action : Bool → Bytes → Bytes → ℕ → Option Directive
unfolding action_of header_type form_of header_rest
header_action always act p line = do
  a ← action_of act
  (name, q) ← next_token p
  header_rest (header_type always a) (form_of a) name q line

abbrev pub is_condition : Bytes → Bool
is_condition act = str_caseeq act (codes "always") || str_caseeq act (codes "onsuccess")

-- A token `always` or `onsuccess` names the table.
unfoldable pub header_condition : Bytes → Bytes → ℕ → Option Directive
header_condition act p line =
    if is_condition act
    then (do (act', q) ← next_token p; header_action (str_caseeq act (codes "always")) act' q line)
    else header_action false act p line

unfoldable pub parse_header : Bytes → ℕ → Option Directive
parse_header args line = do (act, p) ← next_token (skip_ws args); header_condition act p line
