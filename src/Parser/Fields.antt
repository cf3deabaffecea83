-- ===== src/Parser/Fields.antt =====
-- The parsers of src/htaccess_parser.c that store tokens and the rest of the line as they stand:
-- php_value and its kin, RequestHeader, the cache directives, and what the dispatcher parses in
-- place.
use litehttpd.Prelude.{ℕ, Bool, ◌||◌, Option, none, some, if◌then◌else◌}
use litehttpd.Prelude.Text.{Bytes, codes, skip_ws, str_caseeq}
use litehttpd.Prelude.Maybe.{◌>>=◌, ◌>>◌, guard}
use litehttpd.Directive.{Directive, directive, no_data}
use litehttpd.Directive.Kind.{
  DirectiveType, php_value, php_flag, php_admin_value, php_admin_flag, request_header_set,
  request_header_unset, cache_enable, cache_disable, cache_max_expire, cache_default_expire, setenv,
  action,
}
use litehttpd.Parser.Scan.{next_token, rest_of_line}

-- A node with a name and a value, the rest all zero.
abbrev pub with_fields : DirectiveType → ℕ → Option Bytes → Option Bytes → Directive
with_fields t line n v = directive t line n v none no_data

abbrev pub alloc_directive : DirectiveType → ℕ → Directive
alloc_directive t line = with_fields t line none none

-- One token as the value.
unfoldable pub token_value : DirectiveType → Bytes → ℕ → Option Directive
token_value t args line = do (val, p) ← next_token args; some (with_fields t line none (some val))

-- One token as the name.
unfoldable pub token_name : DirectiveType → Bytes → ℕ → Option Directive
token_name t args line = do (val, p) ← next_token args; some (with_fields t line (some val) none)

-- The rest of the line as the value.
unfoldable pub rest_value : DirectiveType → Bytes → ℕ → Option Directive
rest_value t args line = do val ← rest_of_line args; some (with_fields t line none (some val))

-- A token as the name and the rest as the value, which may be missing in the second form.
unfoldable pub named_rest : DirectiveType → Bytes → ℕ → Option Directive
named_rest t args line = do
  (name, p) ← next_token (skip_ws args)
  value ← rest_of_line p
  some (with_fields t line (some name) (some value))

unfoldable pub named_rest_if_any : DirectiveType → Bytes → ℕ → Option Directive
named_rest_if_any t args line = do
  (name, p) ← next_token args
  some (with_fields t line (some name) (rest_of_line p))

abbrev pub is_on : Bytes → Bool
is_on s = str_caseeq s (codes "on")

abbrev pub is_on_or_off : Bytes → Bool
is_on_or_off s = is_on s || str_caseeq s (codes "off")

unfoldable pub named_flag : DirectiveType → Bytes → ℕ → Option Directive
named_flag t args line = do
  (name, p) ← next_token (skip_ws args)
  (value, rest) ← next_token p
  guard (is_on_or_off value)
  some (with_fields t line (some name) (some value))

unfoldable pub parse_php_value : Bytes → ℕ → Option Directive
unfolding named_rest
parse_php_value = named_rest php_value

unfoldable pub parse_php_flag : Bytes → ℕ → Option Directive
unfolding named_flag
parse_php_flag = named_flag php_flag

unfoldable pub parse_php_admin_value : Bytes → ℕ → Option Directive
unfolding named_rest
parse_php_admin_value = named_rest php_admin_value

unfoldable pub parse_php_admin_flag : Bytes → ℕ → Option Directive
unfolding named_flag
parse_php_admin_flag = named_flag php_admin_flag

unfoldable pub parse_setenv : Bytes → ℕ → Option Directive
unfolding named_rest
parse_setenv = named_rest setenv

unfoldable pub request_header : Bytes → Bytes → ℕ → Option Directive
request_header act p line =
    if str_caseeq act (codes "set")
    then (do
      (name, q) ← next_token p
      value ← rest_of_line q
      some (with_fields request_header_set line (some name) (some value)))
    else if str_caseeq act (codes "unset")
    then (do
      (name, q) ← next_token p
      some (with_fields request_header_unset line (some name) none))
    else none

unfoldable pub parse_request_header : Bytes → ℕ → Option Directive
unfolding request_header
parse_request_header args line = do (act, p) ← next_token (skip_ws args); request_header act p line

-- The value of the cache directives is one token.
unfoldable pub parse_cache_enable : Bytes → ℕ → Option Directive
unfolding token_value
parse_cache_enable args line = token_value cache_enable (skip_ws args) line

unfoldable pub parse_cache_disable : Bytes → ℕ → Option Directive
parse_cache_disable args line = some (alloc_directive cache_disable line)

unfoldable pub parse_cache_max_expire : Bytes → ℕ → Option Directive
unfolding token_value
parse_cache_max_expire args line = token_value cache_max_expire (skip_ws args) line

unfoldable pub parse_cache_default_expire : Bytes → ℕ → Option Directive
unfolding token_value
parse_cache_default_expire args line = token_value cache_default_expire (skip_ws args) line

-- Action takes two tokens.
unfoldable pub parse_action : Bytes → ℕ → Option Directive
parse_action args line = do
  (mime, p) ← next_token args
  (handler, q) ← next_token p
  some (with_fields action line (some mime) (some handler))
