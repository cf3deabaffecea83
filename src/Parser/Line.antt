-- ===== src/Parser/Line.antt =====
-- The dispatcher of a line of src/htaccess_parser.c: the keywords in the order in which the
-- source tries them, each with the parser of what is behind it.
use litehttpd.Prelude.{ℕ, List, [], ◌∷◌, Option, none, some}
use litehttpd.Prelude.Text.{Bytes, codes, skip_ws}
use litehttpd.Directive.{Directive}
use litehttpd.Directive.Kind.{
  add_charset, add_default_charset, add_encoding, add_handler, add_type, auth_name, auth_type,
  auth_user_file, bot_challenge_difficulty, bot_challenge_exempt, bot_challenge_page,
  bot_challenge_trusted_proxy, bot_challenge_ttl, brute_force_protect_path,
  brute_force_trusted_proxy, brute_force_whitelist, default_type, directory_index, force_type,
  remove_handler, remove_type, satisfy, set_handler, setenvif, setenvif_nocase,
}
use litehttpd.Parser.Scan.{match_kw}
use litehttpd.Parser.Header.{parse_header}
use litehttpd.Parser.Fields.{
  parse_request_header, parse_php_value, parse_php_flag, parse_php_admin_value,
  parse_php_admin_flag, parse_cache_enable, parse_cache_disable, parse_cache_max_expire,
  parse_cache_default_expire, parse_setenv, parse_action, token_value, rest_value,
  named_rest_if_any,
}
use litehttpd.Parser.Values.{
  parse_order, parse_allow_from, parse_deny_from, parse_redirect_match, parse_redirect,
  parse_error_document, parse_fallback_resource, parse_rate_limit,
}
use litehttpd.Parser.Switches.{
  parse_sec_rule_engine, parse_esi_enable, parse_bot_challenge, parse_bot_challenge_int,
  parse_bot_challenge_str, parse_bot_challenge_if, parse_expires_active, parse_expires_by_type,
  parse_expires_default, parse_setenvif_typed, parse_browser_match, parse_brute_force_protection,
  parse_brute_force_attempts, parse_brute_force_window, parse_brute_force_action,
  parse_brute_force_throttle, parse_x_forwarded_for,
}
use litehttpd.Parser.Options.{parse_options}
use litehttpd.Parser.Guards.{parse_require}
use litehttpd.Parser.Rewrite.{
  parse_rewrite_engine, parse_rewrite_base, parse_rewrite_cond, parse_rewrite_rule,
  parse_rewrite_options, parse_rewrite_map,
}

abbrev pub Handler : Type 0
Handler = Bytes → ℕ → Option Directive

unfoldable pub handlers : List (Bytes × Handler)
handlers =
    (codes "Header", parse_header)
    ∷ (codes "RequestHeader", parse_request_header)
    ∷ (codes "php_value", parse_php_value)
    ∷ (codes "php_flag", parse_php_flag)
    ∷ (codes "php_admin_value", parse_php_admin_value)
    ∷ (codes "php_admin_flag", parse_php_admin_flag)
    ∷ (codes "Order", parse_order)
    ∷ (codes "Allow", parse_allow_from)
    ∷ (codes "Deny", parse_deny_from)
    ∷ (codes "RedirectMatch", parse_redirect_match)
    ∷ (codes "Redirect", parse_redirect)
    ∷ (codes "ErrorDocument", parse_error_document)
    ∷ (codes "FallbackResource", parse_fallback_resource)
    ∷ (codes "CacheEnable", parse_cache_enable)
    ∷ (codes "CacheDisable", parse_cache_disable)
    ∷ (codes "CacheMaxExpire", parse_cache_max_expire)
    ∷ (codes "CacheDefaultExpire", parse_cache_default_expire)
    ∷ (codes "RateLimit", parse_rate_limit)
    ∷ (codes "SecRuleEngine", parse_sec_rule_engine)
    ∷ (codes "EsiEnable", parse_esi_enable)
    ∷ (codes "BotChallenge", parse_bot_challenge)
    ∷ (codes "BotChallengeTTL", parse_bot_challenge_int bot_challenge_ttl)
    ∷ (codes "BotChallengeDifficulty", parse_bot_challenge_int bot_challenge_difficulty)
    ∷ (codes "BotChallengeExempt", parse_bot_challenge_str bot_challenge_exempt)
    ∷ (codes "BotChallengeTrustedProxy", parse_bot_challenge_str bot_challenge_trusted_proxy)
    ∷ (codes "BotChallengePage", parse_bot_challenge_str bot_challenge_page)
    ∷ (codes "BotChallengeIf", parse_bot_challenge_if)
    ∷ (codes "ExpiresActive", parse_expires_active)
    ∷ (codes "ExpiresByType", parse_expires_by_type)
    ∷ (codes "ExpiresDefault", parse_expires_default)
    ∷ (codes "SetEnvIfNoCase", parse_setenvif_typed setenvif_nocase)
    ∷ (codes "SetEnvIf", parse_setenvif_typed setenvif)
    ∷ (codes "SetEnv", parse_setenv)
    ∷ (codes "BrowserMatch", parse_browser_match)
    ∷ (codes "BruteForceProtection", parse_brute_force_protection)
    ∷ (codes "BruteForceAllowedAttempts", parse_brute_force_attempts)
    ∷ (codes "BruteForceWindow", parse_brute_force_window)
    ∷ (codes "BruteForceAction", parse_brute_force_action)
    ∷ (codes "BruteForceThrottleDuration", parse_brute_force_throttle)
    ∷ (codes "BruteForceXForwardedFor", parse_x_forwarded_for)
    ∷ (codes "BruteForceWhitelist", rest_value brute_force_whitelist)
    ∷ (codes "BruteForceTrustedProxy", rest_value brute_force_trusted_proxy)
    ∷ (codes "BruteForceProtectPath", token_value brute_force_protect_path)
    ∷ (codes "Options", parse_options)
    ∷ (codes "Require", parse_require)
    ∷ (codes "AuthType", token_value auth_type)
    ∷ (codes "AuthName", rest_value auth_name)
    ∷ (codes "AuthUserFile", rest_value auth_user_file)
    ∷ (codes "AddHandler", named_rest_if_any add_handler)
    ∷ (codes "SetHandler", rest_value set_handler)
    ∷ (codes "AddType", named_rest_if_any add_type)
    ∷ (codes "DirectoryIndex", rest_value directory_index)
    ∷ (codes "ForceType", token_value force_type)
    ∷ (codes "AddEncoding", named_rest_if_any add_encoding)
    ∷ (codes "AddCharset", named_rest_if_any add_charset)
    ∷ (codes "AddDefaultCharset", token_value add_default_charset)
    ∷ (codes "DefaultType", token_value default_type)
    ∷ (codes "RemoveType", rest_value remove_type)
    ∷ (codes "RemoveHandler", rest_value remove_handler)
    ∷ (codes "Action", parse_action)
    ∷ (codes "Satisfy", token_value satisfy)
    ∷ (codes "RewriteEngine", parse_rewrite_engine)
    ∷ (codes "RewriteBase", parse_rewrite_base)
    ∷ (codes "RewriteCond", parse_rewrite_cond)
    ∷ (codes "RewriteRule", parse_rewrite_rule)
    ∷ (codes "RewriteOptions", parse_rewrite_options)
    ∷ (codes "RewriteMap", parse_rewrite_map)
    ∷ []

unfoldable pub dispatch : List (Bytes × Handler) → Bytes → ℕ → Option Directive
dispatch [] p line_num = none
dispatch ((kw, handle) ∷ others) p line_num = elim (match_kw p kw) [
  | some after ↦ handle after line_num
  | none ↦ dispatch others p line_num
]

-- Nothing if the line is not recognised.
unfoldable pub parse_line : Bytes → ℕ → Option Directive
unfolding handlers dispatch
parse_line line line_num = dispatch handlers (skip_ws line) line_num
