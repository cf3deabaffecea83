-- ===== src/Directive/Typed.antt =====
-- What a directive's type says of its other fields: the union's member that is set, and the strings
-- that src/htaccess_printer.c reads without a test.
use litehttpd.Prelude.{Bool, true, false, Option, none, some, ◌≡◌}
use litehttpd.Prelude.Text.{Bytes}
use litehttpd.Directive.{
  Directive, directive, Directives, nil, cons, Payload, no_data, acl, redirect, error_doc,
  files_match, expires, envif, brute_force, ifmodule, options, files, header_ext, require_container,
  limit, rewrite_cond, rewrite_rule, rewrite_map, if_block, kind,
}
use litehttpd.Directive.Kind.{DirectiveType}

pub data Member : Type 0 where
  no_member acl_member redirect_member error_doc_member files_match_member expires_member
        envif_member brute_force_member ifmodule_member options_member files_member
        header_ext_member require_container_member limit_member rewrite_cond_member
        rewrite_rule_member rewrite_map_member if_block_member :
      Member

-- The member that the parser sets for a type.
unfoldable pub member_of : DirectiveType → Member
member_of DirectiveType.order = acl_member
member_of DirectiveType.redirect = redirect_member
member_of DirectiveType.redirect_match = redirect_member
member_of DirectiveType.error_document = error_doc_member
member_of DirectiveType.files_match = files_match_member
member_of DirectiveType.expires_active = expires_member
member_of DirectiveType.expires_by_type = expires_member
member_of DirectiveType.expires_default = expires_member
member_of DirectiveType.setenvif = envif_member
member_of DirectiveType.setenvif_nocase = envif_member
member_of DirectiveType.browser_match = envif_member
member_of DirectiveType.brute_force_protection = brute_force_member
member_of DirectiveType.brute_force_allowed_attempts = brute_force_member
member_of DirectiveType.brute_force_window = brute_force_member
member_of DirectiveType.brute_force_action = brute_force_member
member_of DirectiveType.brute_force_throttle_duration = brute_force_member
member_of DirectiveType.brute_force_x_forwarded_for = brute_force_member
member_of DirectiveType.ifmodule = ifmodule_member
member_of DirectiveType.options = options_member
member_of DirectiveType.files = files_member
member_of DirectiveType.header_edit = header_ext_member
member_of DirectiveType.header_edit_star = header_ext_member
member_of DirectiveType.header_always_edit = header_ext_member
member_of DirectiveType.header_always_edit_star = header_ext_member
member_of DirectiveType.require_any_open = require_container_member
member_of DirectiveType.require_all_open = require_container_member
member_of DirectiveType.limit = limit_member
member_of DirectiveType.limit_except = limit_member
member_of DirectiveType.rewrite_cond = rewrite_cond_member
member_of DirectiveType.rewrite_rule = rewrite_rule_member
member_of DirectiveType.rewrite_map = rewrite_map_member
member_of DirectiveType.if_open = if_block_member
member_of DirectiveType.elseif_open = if_block_member
member_of DirectiveType.else_open = if_block_member
member_of _ = no_member

unfoldable pub member : Payload → Member
member no_data = no_member
member (acl a) = acl_member
member (redirect a b) = redirect_member
member (error_doc a) = error_doc_member
member (files_match a b) = files_match_member
member (expires a b) = expires_member
member (envif a b) = envif_member
member (brute_force a) = brute_force_member
member (ifmodule a b) = ifmodule_member
member (options a b c d) = options_member
member (files a) = files_member
member (header_ext a) = header_ext_member
member (require_container a) = require_container_member
member (limit a b) = limit_member
member (rewrite_cond a b c d) = rewrite_cond_member
member (rewrite_rule a b c) = rewrite_rule_member
member (rewrite_map a b c) = rewrite_map_member
member (if_block a b) = if_block_member

-- The types whose name is read, and those whose value is.
unfoldable pub needs_name : DirectiveType → Bool
needs_name DirectiveType.header_set = true
needs_name DirectiveType.header_unset = true
needs_name DirectiveType.header_append = true
needs_name DirectiveType.header_merge = true
needs_name DirectiveType.header_add = true
needs_name DirectiveType.header_always_set = true
needs_name DirectiveType.header_always_unset = true
needs_name DirectiveType.header_always_append = true
needs_name DirectiveType.header_always_merge = true
needs_name DirectiveType.header_always_add = true
needs_name DirectiveType.request_header_set = true
needs_name DirectiveType.request_header_unset = true
needs_name DirectiveType.php_value = true
needs_name DirectiveType.php_flag = true
needs_name DirectiveType.php_admin_value = true
needs_name DirectiveType.php_admin_flag = true
needs_name DirectiveType.header_edit = true
needs_name DirectiveType.header_edit_star = true
needs_name DirectiveType.header_always_edit = true
needs_name DirectiveType.header_always_edit_star = true
needs_name DirectiveType.expires_by_type = true
needs_name DirectiveType.setenv = true
needs_name DirectiveType.setenvif = true
needs_name DirectiveType.setenvif_nocase = true
needs_name DirectiveType.browser_match = true
needs_name _ = false

unfoldable pub needs_value : DirectiveType → Bool
needs_value DirectiveType.header_set = true
needs_value DirectiveType.header_append = true
needs_value DirectiveType.header_merge = true
needs_value DirectiveType.header_add = true
needs_value DirectiveType.header_always_set = true
needs_value DirectiveType.header_always_append = true
needs_value DirectiveType.header_always_merge = true
needs_value DirectiveType.header_always_add = true
needs_value DirectiveType.php_value = true
needs_value DirectiveType.php_flag = true
needs_value DirectiveType.php_admin_value = true
needs_value DirectiveType.php_admin_flag = true
needs_value DirectiveType.allow_from = true
needs_value DirectiveType.deny_from = true
needs_value DirectiveType.error_document = true
needs_value DirectiveType.expires_by_type = true
needs_value DirectiveType.expires_default = true
needs_value _ = false

-- A string that is needed is there.
abbrev pub IsThere : Bool → Option Bytes → Type 0
IsThere needed (some s) = Unit
IsThere true none = ⊥
IsThere false none = Unit

pub not-IsThere : (b : Bool) (o : Option Bytes) → b ≡ false → IsThere b o
not-IsThere false none h = tt
not-IsThere false (some s) h = tt
not-IsThere true o h = cc

-- The type, the member and the strings fit together, at every depth.
unfoldable mutual
  unfolding member_of member needs_name needs_value

  pub IsTyped : Directive → Type 0
  IsTyped (directive t line n v e p) =
      (member_of t ≡ member p)
      × IsThere (needs_name t) n
      × IsThere (needs_value t) v
      × HasTypedBody p

  pub HasTypedBody : Payload → Type 0
  HasTypedBody (files_match pattern ch) = AreTyped ch
  HasTypedBody (ifmodule negated ch) = AreTyped ch
  HasTypedBody (files ch) = AreTyped ch
  HasTypedBody (require_container ch) = AreTyped ch
  HasTypedBody (limit m ch) = AreTyped ch
  HasTypedBody (rewrite_rule pattern flags conds) = AreConds conds
  HasTypedBody (if_block e ch) = AreTyped ch
  HasTypedBody _ = Unit

  pub AreTyped : Directives → Type 0
  AreTyped nil = Unit
  AreTyped (cons d ds) = IsTyped d × AreTyped ds

  -- The conditions of a rule.
  pub AreConds : Directives → Type 0
  AreConds nil = Unit
  AreConds (cons d ds) = (kind d ≡ DirectiveType.rewrite_cond) × IsTyped d × AreConds ds

pub AreConds-AreTyped : (ds : Directives) → AreConds ds → AreTyped ds
unfolding IsTyped
AreConds-AreTyped nil h = tt
AreConds-AreTyped (cons d ds) h = (h.1, AreConds-AreTyped ds h.2)

-- What a parser yields, if it yields something.
unfoldable pub Yields : Option Directive → Type 0
unfolding IsTyped
Yields none = Unit
Yields (some d) = IsTyped d
