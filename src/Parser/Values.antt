-- ===== src/Parser/Values.antt =====
-- The parsers of src/htaccess_parser.c that check what they store: Order, Allow and Deny, the
-- redirections, ErrorDocument, FallbackResource, RateLimit, the switches and the environment.
use litehttpd.Prelude.{
  ℕ, zero, suc, ◌+◌, ◌∷◌, ◌++◌, Bool, not, ◌&&◌, ◌||◌, Option, none, some, length, drop, take, ltb,
  ◌==◌, if◌then◌else◌,
}
use litehttpd.Prelude.Text.{
  Bytes, codes, skip_ws, at_end, peek, str_caseeq, starts_with, starts_with_nocase,
}
use litehttpd.Prelude.Maybe.{◌>>=◌, ◌>>◌, guard}
use litehttpd.Directive.{
  Directive, directive, acl, order_allow_deny, order_deny_allow, redirect, error_doc,
}
use litehttpd.Directive.Kind.{
  DirectiveType, order, allow_from, deny_from, redirect_match, error_document, fallback_resource,
  expires_active, expires_by_type, expires_default, browser_match, rate_limit, sec_rule_engine,
  esi_enable, bot_challenge, bot_challenge_if,
}
use litehttpd.Directive.Kind
use litehttpd.Parser.Scan.{match_kw, next_token, rest_of_line, rest_of_line_raw, quote, status_of}
use litehttpd.Parser.Fields.{with_fields, token_value}

-- The word stands at `p` and the end, a space or a tab follows.
unfoldable pub match_word : Bytes → Bytes → Bool
unfolding starts_with_nocase
match_word p word =
    let rest = drop (length word) p in
    starts_with_nocase p word && (at_end rest || peek rest == 32 || peek rest == 9)

unfoldable pub parse_order : Bytes → ℕ → Option Directive
parse_order args line =
    let p = skip_ws args in
    if match_word p (codes "Allow,Deny")
    then some (directive order line none none none (acl order_allow_deny))
    else if match_word p (codes "Deny,Allow")
    then some (directive order line none none none (acl order_deny_allow))
    else none

unfoldable pub parse_allow_from : Bytes → ℕ → Option Directive
unfolding token_value
parse_allow_from args line = do
  after ← match_kw (skip_ws args) (codes "from")
  token_value allow_from (skip_ws after) line

unfoldable pub parse_deny_from : Bytes → ℕ → Option Directive
unfolding token_value
parse_deny_from args line = do
  after ← match_kw (skip_ws args) (codes "from")
  token_value deny_from (skip_ws after) line

unfoldable pub resolve_redirect_keyword : Bytes → Option ℕ
resolve_redirect_keyword token =
    if str_caseeq token (codes "permanent")
    then some 301
    else if str_caseeq token (codes "temp")
    then some 302
    else if str_caseeq token (codes "seeother")
    then some 303
    else if str_caseeq token (codes "gone")
    then some 410
    else none

-- The status that the first token names, by its number or by a keyword.
unfoldable pub named_status : Bytes → Option ℕ
unfolding resolve_redirect_keyword
named_status tok1 = elim (status_of tok1) [
  | some code ↦ some code
  | none ↦ resolve_redirect_keyword tok1
]

-- The URL may be missing if the status is 410.
unfoldable pub target_of : ℕ → Bytes → Option (Option Bytes)
target_of status p = elim (rest_of_line p) [
  | some url ↦ some (some url)
  | none ↦ if status == 410 then some none else none
]

-- The status, the path or pattern, and the URL.
unfoldable pub redirect_arguments : Bytes → Option (ℕ × Bytes × Option Bytes)
unfolding named_status target_of
redirect_arguments args = do
  (tok1, p) ← next_token (skip_ws args)
  elim (named_status tok1) [
    | some status ↦ do (path, q) ← next_token p; url ← target_of status q; some (status, path, url)
    | none ↦ do url ← target_of 302 p; some (302, tok1, url)
  ]

unfoldable pub parse_redirect : Bytes → ℕ → Option Directive
unfolding redirect_arguments
parse_redirect args line = do
  (status, path, url) ← redirect_arguments args
  some (directive Kind.redirect line (some path) url none (redirect status none))

unfoldable pub parse_redirect_match : Bytes → ℕ → Option Directive
unfolding redirect_arguments
parse_redirect_match args line = do
  (status, pattern, url) ← redirect_arguments args
  some (directive redirect_match line none url none (redirect status (some pattern)))

abbrev is_absolute_url : Bytes → Bool
is_absolute_url value = starts_with value (codes "http://") || starts_with value (codes "https://")

-- The value keeps its quotes; a page for 401 is no absolute URL.
unfoldable pub parse_error_document : Bytes → ℕ → Option Directive
parse_error_document args line = do
  (code_str, p) ← next_token (skip_ws args)
  code ← status_of code_str
  value ← rest_of_line_raw p
  guard (not (code == 401 && not (peek value == quote) && is_absolute_url value))
  some (directive error_document line none (some value) none (error_doc code))

unfoldable pub parse_fallback_resource : Bytes → ℕ → Option Directive
parse_fallback_resource args line = do
  (val, p) ← next_token (skip_ws args)
  guard (str_caseeq val (codes "disabled") || peek val == b'/')
  some (with_fields fallback_resource line none (some val))

-- The further tokens are joined to the value while they fit the buffer of 256 bytes. The fuel is
-- the length of the line, from which every token takes a byte.
unfoldable pub join_tokens : ℕ → Bytes → Bytes → Bytes
join_tokens zero full_val p = full_val
join_tokens (suc fuel) full_val p = elim (next_token p) [
  | none ↦ full_val
  | some (extra, rest) ↦
      join_tokens fuel
        (if ltb (length full_val + length extra + 1) 256
          then full_val ++ (32 ∷ extra)
          else full_val)
        rest
]

unfoldable pub parse_rate_limit : Bytes → ℕ → Option Directive
unfolding join_tokens
parse_rate_limit args line = do
  (val, p) ← next_token (skip_ws args)
  some (with_fields rate_limit line none (some (join_tokens (suc (length p)) (take 255 val) p)))
