-- ===== src/Parser/Yields.antt =====
-- The parsers of one directive in src/htaccess_parser.c yield directives whose fields fit together.
use litehttpd.Prelude.{ℕ, arith}
use litehttpd.Prelude.Text.{Bytes}
use litehttpd.Directive.Typed.{Yields}
use litehttpd.Parser.Fields.{
  parse_php_value, parse_php_flag, parse_php_admin_value, parse_php_admin_flag, parse_setenv,
  parse_request_header, parse_cache_enable, parse_cache_disable, parse_cache_max_expire,
  parse_cache_default_expire, parse_action,
}
use litehttpd.Parser.Values.{
  parse_order, parse_allow_from, parse_deny_from, parse_redirect, parse_redirect_match,
  parse_error_document, parse_fallback_resource, parse_rate_limit,
}
use litehttpd.Parser.Switches.{
  parse_sec_rule_engine, parse_esi_enable, parse_bot_challenge, parse_bot_challenge_if,
  parse_expires_active, parse_expires_by_type, parse_expires_default, parse_browser_match,
  parse_brute_force_protection, parse_brute_force_attempts, parse_brute_force_window,
  parse_brute_force_throttle, parse_brute_force_action, parse_x_forwarded_for,
}
use litehttpd.Parser.Options.{parse_options}
use litehttpd.Parser.Guards.{parse_require}
use litehttpd.Parser.Rewrite.{
  parse_rewrite_engine, parse_rewrite_base, parse_rewrite_options, parse_rewrite_cond,
  parse_rewrite_rule, parse_rewrite_map,
}

pub parse_php_value-Yields : (args : Bytes) (line : ℕ) → Yields (parse_php_value args line)
unfolding parse_php_value Yields
parse_php_value-Yields args line = ground arith

pub parse_php_flag-Yields : (args : Bytes) (line : ℕ) → Yields (parse_php_flag args line)
unfolding parse_php_flag Yields
parse_php_flag-Yields args line = ground arith

pub parse_php_admin_value-Yields :
    (args : Bytes) (line : ℕ) → Yields (parse_php_admin_value args line)
unfolding parse_php_admin_value Yields
parse_php_admin_value-Yields args line = ground arith

pub parse_php_admin_flag-Yields :
    (args : Bytes) (line : ℕ) → Yields (parse_php_admin_flag args line)
unfolding parse_php_admin_flag Yields
parse_php_admin_flag-Yields args line = ground arith

pub parse_setenv-Yields : (args : Bytes) (line : ℕ) → Yields (parse_setenv args line)
unfolding parse_setenv Yields
parse_setenv-Yields args line = ground arith

pub parse_request_header-Yields :
    (args : Bytes) (line : ℕ) → Yields (parse_request_header args line)
unfolding parse_request_header Yields
parse_request_header-Yields args line = ground arith

pub parse_cache_enable-Yields : (args : Bytes) (line : ℕ) → Yields (parse_cache_enable args line)
unfolding parse_cache_enable Yields
parse_cache_enable-Yields args line = ground arith

pub parse_cache_disable-Yields : (args : Bytes) (line : ℕ) → Yields (parse_cache_disable args line)
unfolding parse_cache_disable Yields
parse_cache_disable-Yields args line = ground arith

pub parse_cache_max_expire-Yields :
    (args : Bytes) (line : ℕ) → Yields (parse_cache_max_expire args line)
unfolding parse_cache_max_expire Yields
parse_cache_max_expire-Yields args line = ground arith

pub parse_cache_default_expire-Yields :
    (args : Bytes) (line : ℕ) → Yields (parse_cache_default_expire args line)
unfolding parse_cache_default_expire Yields
parse_cache_default_expire-Yields args line = ground arith

pub parse_action-Yields : (args : Bytes) (line : ℕ) → Yields (parse_action args line)
unfolding parse_action Yields
parse_action-Yields args line = ground arith

pub parse_order-Yields : (args : Bytes) (line : ℕ) → Yields (parse_order args line)
unfolding parse_order Yields
parse_order-Yields args line = ground arith

pub parse_allow_from-Yields : (args : Bytes) (line : ℕ) → Yields (parse_allow_from args line)
unfolding parse_allow_from Yields
parse_allow_from-Yields args line = ground arith

pub parse_deny_from-Yields : (args : Bytes) (line : ℕ) → Yields (parse_deny_from args line)
unfolding parse_deny_from Yields
parse_deny_from-Yields args line = ground arith

pub parse_redirect-Yields : (args : Bytes) (line : ℕ) → Yields (parse_redirect args line)
unfolding parse_redirect Yields
parse_redirect-Yields args line = ground arith

pub parse_redirect_match-Yields :
    (args : Bytes) (line : ℕ) → Yields (parse_redirect_match args line)
unfolding parse_redirect_match Yields
parse_redirect_match-Yields args line = ground arith

pub parse_error_document-Yields :
    (args : Bytes) (line : ℕ) → Yields (parse_error_document args line)
unfolding parse_error_document Yields
parse_error_document-Yields args line = ground arith

pub parse_fallback_resource-Yields :
    (args : Bytes) (line : ℕ) → Yields (parse_fallback_resource args line)
unfolding parse_fallback_resource Yields
parse_fallback_resource-Yields args line = ground arith

pub parse_rate_limit-Yields : (args : Bytes) (line : ℕ) → Yields (parse_rate_limit args line)
unfolding parse_rate_limit Yields
parse_rate_limit-Yields args line = ground arith

pub parse_sec_rule_engine-Yields :
    (args : Bytes) (line : ℕ) → Yields (parse_sec_rule_engine args line)
unfolding parse_sec_rule_engine Yields
parse_sec_rule_engine-Yields args line = ground arith

pub parse_esi_enable-Yields : (args : Bytes) (line : ℕ) → Yields (parse_esi_enable args line)
unfolding parse_esi_enable Yields
parse_esi_enable-Yields args line = ground arith

pub parse_bot_challenge-Yields : (args : Bytes) (line : ℕ) → Yields (parse_bot_challenge args line)
unfolding parse_bot_challenge Yields
parse_bot_challenge-Yields args line = ground arith

pub parse_bot_challenge_if-Yields :
    (args : Bytes) (line : ℕ) → Yields (parse_bot_challenge_if args line)
unfolding parse_bot_challenge_if Yields
parse_bot_challenge_if-Yields args line = ground arith

pub parse_expires_active-Yields :
    (args : Bytes) (line : ℕ) → Yields (parse_expires_active args line)
unfolding parse_expires_active Yields
parse_expires_active-Yields args line = ground arith

pub parse_expires_by_type-Yields :
    (args : Bytes) (line : ℕ) → Yields (parse_expires_by_type args line)
unfolding parse_expires_by_type Yields
parse_expires_by_type-Yields args line = ground arith

pub parse_expires_default-Yields :
    (args : Bytes) (line : ℕ) → Yields (parse_expires_default args line)
unfolding parse_expires_default Yields
parse_expires_default-Yields args line = ground arith

pub parse_browser_match-Yields : (args : Bytes) (line : ℕ) → Yields (parse_browser_match args line)
unfolding parse_browser_match Yields
parse_browser_match-Yields args line = ground arith

pub parse_brute_force_protection-Yields :
    (args : Bytes) (line : ℕ) → Yields (parse_brute_force_protection args line)
unfolding parse_brute_force_protection Yields
parse_brute_force_protection-Yields args line = ground arith

pub parse_brute_force_attempts-Yields :
    (args : Bytes) (line : ℕ) → Yields (parse_brute_force_attempts args line)
unfolding parse_brute_force_attempts Yields
parse_brute_force_attempts-Yields args line = ground arith

pub parse_brute_force_window-Yields :
    (args : Bytes) (line : ℕ) → Yields (parse_brute_force_window args line)
unfolding parse_brute_force_window Yields
parse_brute_force_window-Yields args line = ground arith

pub parse_brute_force_throttle-Yields :
    (args : Bytes) (line : ℕ) → Yields (parse_brute_force_throttle args line)
unfolding parse_brute_force_throttle Yields
parse_brute_force_throttle-Yields args line = ground arith

pub parse_brute_force_action-Yields :
    (args : Bytes) (line : ℕ) → Yields (parse_brute_force_action args line)
unfolding parse_brute_force_action Yields
parse_brute_force_action-Yields args line = ground arith

pub parse_x_forwarded_for-Yields :
    (args : Bytes) (line : ℕ) → Yields (parse_x_forwarded_for args line)
unfolding parse_x_forwarded_for Yields
parse_x_forwarded_for-Yields args line = ground arith

pub parse_options-Yields : (args : Bytes) (line : ℕ) → Yields (parse_options args line)
unfolding parse_options Yields
parse_options-Yields args line = ground arith

pub parse_require-Yields : (args : Bytes) (line : ℕ) → Yields (parse_require args line)
unfolding parse_require Yields
parse_require-Yields args line = ground arith

pub parse_rewrite_engine-Yields :
    (args : Bytes) (line : ℕ) → Yields (parse_rewrite_engine args line)
unfolding parse_rewrite_engine Yields
parse_rewrite_engine-Yields args line = ground arith

pub parse_rewrite_base-Yields : (args : Bytes) (line : ℕ) → Yields (parse_rewrite_base args line)
unfolding parse_rewrite_base Yields
parse_rewrite_base-Yields args line = ground arith

pub parse_rewrite_options-Yields :
    (args : Bytes) (line : ℕ) → Yields (parse_rewrite_options args line)
unfolding parse_rewrite_options Yields
parse_rewrite_options-Yields args line = ground arith

pub parse_rewrite_cond-Yields : (args : Bytes) (line : ℕ) → Yields (parse_rewrite_cond args line)
unfolding parse_rewrite_cond Yields
parse_rewrite_cond-Yields args line = ground arith

pub parse_rewrite_rule-Yields : (args : Bytes) (line : ℕ) → Yields (parse_rewrite_rule args line)
unfolding parse_rewrite_rule Yields
parse_rewrite_rule-Yields args line = ground arith

pub parse_rewrite_map-Yields : (args : Bytes) (line : ℕ) → Yields (parse_rewrite_map args line)
unfolding parse_rewrite_map Yields
parse_rewrite_map-Yields args line = ground arith
