-- ===== src/Printer/Leaf.antt =====
-- print_directive of src/htaccess_printer.c, a clause for each case of its switch; `none` stands
-- for the read of a null string. The text of the children, each with a newline behind it, comes
-- last.
use litehttpd.Prelude.{
  [], ◌∷◌, ◌++◌, Bool, true, false, Option, none, some, ◌==◌, if◌then◌else◌, take,
}
use litehttpd.Prelude.Text.{Bytes, codes}
use litehttpd.Prelude.Maybe.{◌>>=◌}
use litehttpd.Directive.{
  Payload, AclOrder, order_allow_deny, order_deny_allow, BfAction, bf_action_block,
  bf_action_throttle, bf_action_log, order_of, error_code_of, active_of, brute_force_of,
}
use litehttpd.Directive.Kind.{DirectiveType}
use litehttpd.Expression.Print.{expr_to_string}
use litehttpd.Printer.Members.{
  or_empty, spaced, quote_if_spaced, quoted_if_any, spaced_quoted, assigned, print_env_suffix,
  show_int, status_of, redirect_pattern, files_pattern, edit_pattern, methods, attribute,
  envif_pattern, cond_pattern, cond_flags, rule_pattern, rule_flags, map_text, condition,
}

-- A name and a value that are read without a test.
abbrev named : Bytes → Option Bytes → Option Bytes → Bytes → Option Bytes
named keyword n v suffix = do
  name ← n
  value ← v
  some (keyword ++ (name ++ (32 ∷ (value ++ suffix))))

-- One string that is read without a test, between two texts.
abbrev needed : Bytes → Option Bytes → Bytes → Option Bytes
needed keyword o suffix = do s ← o; some (keyword ++ (s ++ suffix))

-- One that is tested.
abbrev optional : Bytes → Option Bytes → Bytes → Option Bytes
optional keyword o suffix = some (keyword ++ (or_empty o ++ suffix))

abbrev on_off : Bool → Bytes
on_off true = codes "On"
on_off false = codes "Off"

abbrev order_text : AclOrder → Bytes
order_text order_allow_deny = codes "Order Allow,Deny"
order_text order_deny_allow = codes "Order Deny,Allow"

abbrev action_text : BfAction → Bytes
action_text bf_action_block = codes "block"
action_text bf_action_throttle = codes "throttle"
action_text bf_action_log = codes "log"

-- Nothing for 302.
unfoldable pub status_text : Payload → Bytes
unfolding show_int
status_text p =
    let status = status_of p in
    if status == 302
    then []
    else if status == 301
    then codes " permanent"
    else if status == 303
    then codes " seeother"
    else if status == 410
    then codes " gone"
    else 32 ∷ show_int status

-- The quoted condition of a tag, if there is one.
unfoldable pub condition_text : Payload → Bytes
unfolding expr_to_string
condition_text p = elim (expr_to_string (condition p)) [
  | none ↦ []
  | some text ↦ 32 ∷ 34 ∷ (text ++ (34 ∷ []))
]

-- The children between the tags.
abbrev block : Bytes → Option Bytes → Bytes → Option Bytes
block front children back = do text ← children; some (front ++ (codes ">\n" ++ (text ++ back)))

unfoldable pub print_directive_text :
    DirectiveType
    → Option Bytes
    → Option Bytes
    → Option Bytes
    → Payload
    → Option Bytes
    → Option Bytes
unfolding print_env_suffix quote_if_spaced assigned status_text condition_text show_int
print_directive_text DirectiveType.header_set n v e p body =
    named (codes "Header set ") n v (print_env_suffix e)
print_directive_text DirectiveType.header_unset n v e p body =
    needed (codes "Header unset ") n (print_env_suffix e)
print_directive_text DirectiveType.header_append n v e p body =
    named (codes "Header append ") n v (print_env_suffix e)
print_directive_text DirectiveType.header_merge n v e p body =
    named (codes "Header merge ") n v (print_env_suffix e)
print_directive_text DirectiveType.header_add n v e p body =
    named (codes "Header add ") n v (print_env_suffix e)
print_directive_text DirectiveType.request_header_set n v e p body =
    needed (codes "RequestHeader set ") n (spaced_quoted v)
print_directive_text DirectiveType.request_header_unset n v e p body =
    needed (codes "RequestHeader unset ") n []
print_directive_text DirectiveType.php_value n v e p body = named (codes "php_value ") n v []
print_directive_text DirectiveType.php_flag n v e p body = named (codes "php_flag ") n v []
print_directive_text DirectiveType.php_admin_value n v e p body =
    named (codes "php_admin_value ") n v []
print_directive_text DirectiveType.php_admin_flag n v e p body =
    named (codes "php_admin_flag ") n v []
print_directive_text DirectiveType.order n v e p body = some (order_text (order_of p))
print_directive_text DirectiveType.allow_from n v e p body = needed (codes "Allow from ") v []
print_directive_text DirectiveType.deny_from n v e p body = needed (codes "Deny from ") v []
print_directive_text DirectiveType.redirect n v e p body =
    some (codes "Redirect" ++ (status_text p ++ (32 ∷ (or_empty n ++ spaced v))))
print_directive_text DirectiveType.redirect_match n v e p body = some (
    codes "RedirectMatch"
    ++ (status_text p ++ (32 ∷ (quoted_if_any (redirect_pattern p) ++ spaced_quoted v))))
print_directive_text DirectiveType.error_document n v e p body =
    needed (codes "ErrorDocument " ++ (show_int (error_code_of p) ++ (32 ∷ []))) v []
print_directive_text DirectiveType.fallback_resource n v e p body =
    optional (codes "FallbackResource ") v []
print_directive_text DirectiveType.files_match n v e p body =
    block (codes "<FilesMatch \"" ++ (or_empty (files_pattern p) ++ (34 ∷ []))) body
      (codes "</FilesMatch>")
print_directive_text DirectiveType.ifmodule n v e p body =
    block (codes "<IfModule " ++ quoted_if_any n) body (codes "</IfModule>")
print_directive_text DirectiveType.header_always_set n v e p body =
    named (codes "Header always set ") n v (print_env_suffix e)
print_directive_text DirectiveType.header_always_unset n v e p body =
    needed (codes "Header always unset ") n (print_env_suffix e)
print_directive_text DirectiveType.header_always_append n v e p body =
    named (codes "Header always append ") n v (print_env_suffix e)
print_directive_text DirectiveType.header_always_merge n v e p body =
    named (codes "Header always merge ") n v (print_env_suffix e)
print_directive_text DirectiveType.header_always_add n v e p body =
    named (codes "Header always add ") n v (print_env_suffix e)
print_directive_text DirectiveType.header_edit n v e p body =
    needed (codes "Header edit ") n
      (spaced_quoted (edit_pattern p) ++ (spaced_quoted v ++ print_env_suffix e))
print_directive_text DirectiveType.header_edit_star n v e p body =
    needed (codes "Header edit* ") n
      (spaced_quoted (edit_pattern p) ++ (spaced_quoted v ++ print_env_suffix e))
print_directive_text DirectiveType.header_always_edit n v e p body =
    needed (codes "Header always edit ") n
      (spaced_quoted (edit_pattern p) ++ (spaced_quoted v ++ print_env_suffix e))
print_directive_text DirectiveType.header_always_edit_star n v e p body =
    needed (codes "Header always edit* ") n
      (spaced_quoted (edit_pattern p) ++ (spaced_quoted v ++ print_env_suffix e))
print_directive_text DirectiveType.options n v e p body = optional (codes "Options ") v []
print_directive_text DirectiveType.files n v e p body =
    block (codes "<Files " ++ quoted_if_any n) body (codes "</Files>")
print_directive_text DirectiveType.expires_active n v e p body =
    some (codes "ExpiresActive " ++ on_off (active_of p))
print_directive_text DirectiveType.expires_by_type n v e p body = do
  name ← n
  value ← v
  some (codes "ExpiresByType " ++ (name ++ (32 ∷ 34 ∷ (value ++ (34 ∷ [])))))
print_directive_text DirectiveType.expires_default n v e p body =
    needed (codes "ExpiresDefault \"") v (34 ∷ [])
print_directive_text DirectiveType.require_all_granted n v e p body =
    some (codes "Require all granted")
print_directive_text DirectiveType.require_all_denied n v e p body =
    some (codes "Require all denied")
print_directive_text DirectiveType.require_ip n v e p body = optional (codes "Require ip ") v []
print_directive_text DirectiveType.require_not_ip n v e p body =
    optional (codes "Require not ip ") v []
print_directive_text DirectiveType.require_valid_user n v e p body =
    some (codes "Require valid-user")
print_directive_text DirectiveType.require_user n v e p body = optional (codes "Require user ") v []
print_directive_text DirectiveType.require_group n v e p body = optional (codes "Require ") v []
print_directive_text DirectiveType.require_env n v e p body = optional (codes "Require env ") n []
print_directive_text DirectiveType.auth_type n v e p body = optional (codes "AuthType ") v []
print_directive_text DirectiveType.auth_name n v e p body =
    optional (codes "AuthName \"") v (34 ∷ [])
print_directive_text DirectiveType.auth_user_file n v e p body =
    optional (codes "AuthUserFile ") v []
print_directive_text DirectiveType.require_any_open n v e p body =
    block (codes "<RequireAny") body (codes "</RequireAny>")
print_directive_text DirectiveType.require_all_open n v e p body =
    block (codes "<RequireAll") body (codes "</RequireAll>")
print_directive_text DirectiveType.limit n v e p body =
    block (codes "<Limit " ++ or_empty (methods p)) body (codes "</Limit>")
print_directive_text DirectiveType.limit_except n v e p body =
    block (codes "<LimitExcept " ++ or_empty (methods p)) body (codes "</LimitExcept>")
print_directive_text DirectiveType.setenv n v e p body =
    needed (codes "SetEnv ") n (spaced_quoted v)
print_directive_text DirectiveType.setenvif n v e p body =
    needed
      (codes "SetEnvIf "
        ++ (or_empty (attribute p) ++ (32 ∷ (quoted_if_any (envif_pattern p) ++ (32 ∷ [])))))
      n (assigned v)
print_directive_text DirectiveType.setenvif_nocase n v e p body =
    needed
      (codes "SetEnvIfNoCase "
        ++ (or_empty (attribute p) ++ (32 ∷ (quoted_if_any (envif_pattern p) ++ (32 ∷ [])))))
      n (assigned v)
print_directive_text DirectiveType.browser_match n v e p body =
    needed (codes "BrowserMatch " ++ (quoted_if_any (envif_pattern p) ++ (32 ∷ []))) n (assigned v)
print_directive_text DirectiveType.brute_force_protection n v e p body =
    some (codes "BruteForceProtection " ++ on_off (brute_force_of p).enabled)
print_directive_text DirectiveType.brute_force_allowed_attempts n v e p body =
    some (codes "BruteForceAllowedAttempts " ++ show_int (brute_force_of p).allowed_attempts)
print_directive_text DirectiveType.brute_force_window n v e p body =
    some (codes "BruteForceWindow " ++ show_int (brute_force_of p).window_sec)
print_directive_text DirectiveType.brute_force_action n v e p body =
    some (codes "BruteForceAction " ++ action_text (brute_force_of p).action)
print_directive_text DirectiveType.brute_force_throttle_duration n v e p body =
    some (codes "BruteForceThrottleDuration " ++ show_int (brute_force_of p).throttle_ms)
print_directive_text DirectiveType.brute_force_x_forwarded_for n v e p body =
    some (codes "BruteForceXForwardedFor " ++ on_off (brute_force_of p).enabled)
print_directive_text DirectiveType.brute_force_whitelist n v e p body =
    optional (codes "BruteForceWhitelist ") v []
print_directive_text DirectiveType.brute_force_protect_path n v e p body =
    optional (codes "BruteForceProtectPath ") v []
print_directive_text DirectiveType.brute_force_trusted_proxy n v e p body =
    optional (codes "BruteForceTrustedProxy ") v []
print_directive_text DirectiveType.cache_enable n v e p body = optional (codes "CacheEnable ") v []
print_directive_text DirectiveType.cache_disable n v e p body = some (codes "CacheDisable")
print_directive_text DirectiveType.cache_max_expire n v e p body =
    optional (codes "CacheMaxExpire ") v []
print_directive_text DirectiveType.cache_default_expire n v e p body =
    optional (codes "CacheDefaultExpire ") v []
print_directive_text DirectiveType.bot_challenge n v e p body =
    optional (codes "BotChallenge ") v []
print_directive_text DirectiveType.bot_challenge_ttl n v e p body =
    some (take 63 (codes "BotChallengeTTL " ++ or_empty v))
print_directive_text DirectiveType.bot_challenge_difficulty n v e p body =
    some (take 63 (codes "BotChallengeDifficulty " ++ or_empty v))
print_directive_text DirectiveType.bot_challenge_exempt n v e p body =
    optional (codes "BotChallengeExempt ") v []
print_directive_text DirectiveType.bot_challenge_trusted_proxy n v e p body =
    optional (codes "BotChallengeTrustedProxy ") v []
print_directive_text DirectiveType.bot_challenge_page n v e p body =
    optional (codes "BotChallengePage ") v []
print_directive_text DirectiveType.bot_challenge_if n v e p body =
    optional (codes "BotChallengeIf \"") v (34 ∷ [])
print_directive_text DirectiveType.esi_enable n v e p body = optional (codes "EsiEnable ") v []
print_directive_text DirectiveType.sec_rule_engine n v e p body =
    optional (codes "SecRuleEngine ") v []
print_directive_text DirectiveType.rate_limit n v e p body = optional (codes "RateLimit ") v []
print_directive_text DirectiveType.add_handler n v e p body =
    some (codes "AddHandler " ++ (or_empty n ++ spaced v))
print_directive_text DirectiveType.set_handler n v e p body = optional (codes "SetHandler ") v []
print_directive_text DirectiveType.add_type n v e p body =
    some (codes "AddType " ++ (or_empty n ++ spaced v))
print_directive_text DirectiveType.directory_index n v e p body =
    optional (codes "DirectoryIndex ") v []
print_directive_text DirectiveType.force_type n v e p body = optional (codes "ForceType ") v []
print_directive_text DirectiveType.add_encoding n v e p body =
    some (codes "AddEncoding " ++ (or_empty n ++ spaced v))
print_directive_text DirectiveType.add_charset n v e p body =
    some (codes "AddCharset " ++ (or_empty n ++ spaced v))
print_directive_text DirectiveType.rewrite_engine n v e p body =
    optional (codes "RewriteEngine ") n []
print_directive_text DirectiveType.rewrite_base n v e p body = optional (codes "RewriteBase ") v []
print_directive_text DirectiveType.rewrite_cond n v e p body =
    some
      (codes "RewriteCond " ++ (or_empty n ++ (32 ∷ (or_empty (cond_pattern p) ++ cond_flags p))))
print_directive_text DirectiveType.rewrite_rule n v e p body = do
  conditions ← body
  some (
      conditions
      ++ (codes "RewriteRule "
          ++ (or_empty (rule_pattern p) ++ (32 ∷ (or_empty v ++ spaced (rule_flags p))))))
print_directive_text DirectiveType.add_default_charset n v e p body =
    optional (codes "AddDefaultCharset ") v []
print_directive_text DirectiveType.default_type n v e p body = optional (codes "DefaultType ") v []
print_directive_text DirectiveType.remove_type n v e p body = optional (codes "RemoveType ") v []
print_directive_text DirectiveType.remove_handler n v e p body =
    optional (codes "RemoveHandler ") v []
print_directive_text DirectiveType.action n v e p body =
    some (codes "Action " ++ (or_empty n ++ spaced v))
print_directive_text DirectiveType.satisfy n v e p body = optional (codes "Satisfy ") v []
print_directive_text DirectiveType.rewrite_options n v e p body =
    optional (codes "RewriteOptions ") v []
print_directive_text DirectiveType.rewrite_map n v e p body =
    some (codes "RewriteMap " ++ map_text p)
print_directive_text DirectiveType.if_open n v e p body =
    block (codes "<If" ++ condition_text p) body (codes "</If>")
print_directive_text DirectiveType.elseif_open n v e p body =
    block (codes "<ElseIf" ++ condition_text p) body (codes "</ElseIf>")
print_directive_text DirectiveType.else_open n v e p body =
    block (codes "<Else") body (codes "</Else>")
