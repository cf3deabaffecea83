-- ===== src/Directive/Kind.antt =====
-- directive_type_t of include/htaccess_directive.h, and directive_category of
-- src/htaccess_directive.c. The constructors are the DIR_ names, in the order of the enum.
use Prim.Native.Nat.{bit_or}
use litehttpd.Prelude.{ℕ}

pub data DirectiveType : Type 0 where
  header_set header_unset header_append header_merge header_add request_header_set : DirectiveType
  request_header_unset php_value php_flag php_admin_value php_admin_flag order allow_from :
      DirectiveType
  deny_from redirect redirect_match error_document files_match expires_active : DirectiveType
  expires_by_type setenv setenvif browser_match brute_force_protection : DirectiveType
  brute_force_allowed_attempts brute_force_window brute_force_action : DirectiveType
  brute_force_throttle_duration ifmodule options files header_always_set : DirectiveType
  header_always_unset header_always_append header_always_merge header_always_add : DirectiveType
  expires_default require_all_granted require_all_denied require_ip require_not_ip : DirectiveType
  require_any_open require_all_open limit limit_except auth_type auth_name auth_user_file :
      DirectiveType
  require_valid_user add_handler set_handler add_type directory_index force_type : DirectiveType
  add_encoding add_charset brute_force_x_forwarded_for brute_force_whitelist : DirectiveType
  brute_force_protect_path setenvif_nocase header_edit header_edit_star header_always_edit :
      DirectiveType
  header_always_edit_star rewrite_engine rewrite_base rewrite_cond rewrite_rule : DirectiveType
  add_default_charset default_type satisfy rewrite_options rewrite_map if_open elseif_open :
      DirectiveType
  else_open require_env remove_type remove_handler action require_user require_group : DirectiveType
  brute_force_trusted_proxy fallback_resource cache_enable cache_disable cache_max_expire :
      DirectiveType
  cache_default_expire rate_limit sec_rule_engine esi_enable bot_challenge : DirectiveType
  bot_challenge_ttl bot_challenge_difficulty bot_challenge_exempt : DirectiveType
  bot_challenge_trusted_proxy bot_challenge_page bot_challenge_if : DirectiveType

-- ALLOW_OVERRIDE_*
abbrev pub allow_override_limit : ℕ
allow_override_limit = 0x01

abbrev pub allow_override_auth : ℕ
allow_override_auth = 0x02

abbrev pub allow_override_fileinfo : ℕ
allow_override_fileinfo = 0x04

abbrev pub allow_override_indexes : ℕ
allow_override_indexes = 0x08

abbrev pub allow_override_options : ℕ
allow_override_options = 0x10

abbrev pub allow_override_all : ℕ
allow_override_all = 0xFF

unfoldable pub directive_category : DirectiveType → ℕ
directive_category order = allow_override_limit
directive_category allow_from = allow_override_limit
directive_category deny_from = allow_override_limit
directive_category limit = allow_override_limit
directive_category limit_except = allow_override_limit
directive_category auth_type = allow_override_auth
directive_category auth_name = allow_override_auth
directive_category auth_user_file = allow_override_auth
directive_category require_valid_user = allow_override_auth
directive_category require_user = allow_override_auth
directive_category require_group = allow_override_auth
directive_category require_all_granted = allow_override_auth
directive_category require_all_denied = allow_override_auth
directive_category require_ip = allow_override_auth
directive_category require_not_ip = allow_override_auth
directive_category require_any_open = allow_override_auth
directive_category require_all_open = allow_override_auth
directive_category require_env = allow_override_auth
directive_category satisfy = allow_override_auth
directive_category add_type = allow_override_fileinfo
directive_category add_handler = allow_override_fileinfo
directive_category set_handler = allow_override_fileinfo
directive_category force_type = allow_override_fileinfo
directive_category add_charset = allow_override_fileinfo
directive_category add_encoding = allow_override_fileinfo
directive_category add_default_charset = allow_override_fileinfo
directive_category default_type = allow_override_fileinfo
directive_category remove_type = allow_override_fileinfo
directive_category remove_handler = allow_override_fileinfo
directive_category action = allow_override_fileinfo
directive_category redirect = allow_override_fileinfo
directive_category redirect_match = allow_override_fileinfo
directive_category error_document = allow_override_fileinfo
directive_category fallback_resource = allow_override_fileinfo
directive_category rewrite_engine = allow_override_fileinfo
directive_category rewrite_base = allow_override_fileinfo
directive_category rewrite_cond = allow_override_fileinfo
directive_category rewrite_rule = allow_override_fileinfo
directive_category rewrite_options = allow_override_fileinfo
directive_category rewrite_map = allow_override_fileinfo
directive_category directory_index = allow_override_indexes
directive_category if_open = allow_override_all
directive_category elseif_open = allow_override_all
directive_category else_open = allow_override_all
directive_category options = bit_or allow_override_options allow_override_indexes
directive_category expires_active = allow_override_options
directive_category expires_by_type = allow_override_options
directive_category expires_default = allow_override_options
directive_category _ = allow_override_all
