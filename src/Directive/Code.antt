-- ===== src/Directive/Code.antt =====
-- The values of the constants of directive_type_t, by which C compares them.
use litehttpd.Prelude.{
  ℕ, ◌≡◌, refl, List, [], ◌∷◌, some, get_elem?, Bool, ◌==◌, ==_iff, true, ap, sym, ◌∙◌,
}
use litehttpd.Directive.Kind.{
  DirectiveType, header_set, header_unset, header_append, header_merge, header_add,
  request_header_set, request_header_unset, php_value, php_flag, php_admin_value, php_admin_flag,
  order, allow_from, deny_from, redirect, redirect_match, error_document, files_match,
  expires_active, expires_by_type, setenv, setenvif, browser_match, brute_force_protection,
  brute_force_allowed_attempts, brute_force_window, brute_force_action,
  brute_force_throttle_duration, ifmodule, options, files, header_always_set, header_always_unset,
  header_always_append, header_always_merge, header_always_add, expires_default,
  require_all_granted, require_all_denied, require_ip, require_not_ip, require_any_open,
  require_all_open, limit, limit_except, auth_type, auth_name, auth_user_file, require_valid_user,
  add_handler, set_handler, add_type, directory_index, force_type, add_encoding, add_charset,
  brute_force_x_forwarded_for, brute_force_whitelist, brute_force_protect_path, setenvif_nocase,
  header_edit, header_edit_star, header_always_edit, header_always_edit_star, rewrite_engine,
  rewrite_base, rewrite_cond, rewrite_rule, add_default_charset, default_type, satisfy,
  rewrite_options, rewrite_map, if_open, elseif_open, else_open, require_env, remove_type,
  remove_handler, action, require_user, require_group, brute_force_trusted_proxy, fallback_resource,
  cache_enable, cache_disable, cache_max_expire, cache_default_expire, rate_limit, sec_rule_engine,
  esi_enable, bot_challenge, bot_challenge_ttl, bot_challenge_difficulty, bot_challenge_exempt,
  bot_challenge_trusted_proxy, bot_challenge_page, bot_challenge_if,
}

-- The value of the C constant.
abbrev pub type_code : DirectiveType → ℕ
type_code header_set = 0
type_code header_unset = 1
type_code header_append = 2
type_code header_merge = 3
type_code header_add = 4
type_code request_header_set = 5
type_code request_header_unset = 6
type_code php_value = 7
type_code php_flag = 8
type_code php_admin_value = 9
type_code php_admin_flag = 10
type_code order = 11
type_code allow_from = 12
type_code deny_from = 13
type_code redirect = 14
type_code redirect_match = 15
type_code error_document = 16
type_code files_match = 17
type_code expires_active = 18
type_code expires_by_type = 19
type_code setenv = 20
type_code setenvif = 21
type_code browser_match = 22
type_code brute_force_protection = 23
type_code brute_force_allowed_attempts = 24
type_code brute_force_window = 25
type_code brute_force_action = 26
type_code brute_force_throttle_duration = 27
type_code ifmodule = 28
type_code options = 29
type_code files = 30
type_code header_always_set = 31
type_code header_always_unset = 32
type_code header_always_append = 33
type_code header_always_merge = 34
type_code header_always_add = 35
type_code expires_default = 36
type_code require_all_granted = 37
type_code require_all_denied = 38
type_code require_ip = 39
type_code require_not_ip = 40
type_code require_any_open = 41
type_code require_all_open = 42
type_code limit = 43
type_code limit_except = 44
type_code auth_type = 45
type_code auth_name = 46
type_code auth_user_file = 47
type_code require_valid_user = 48
type_code add_handler = 49
type_code set_handler = 50
type_code add_type = 51
type_code directory_index = 52
type_code force_type = 53
type_code add_encoding = 54
type_code add_charset = 55
type_code brute_force_x_forwarded_for = 56
type_code brute_force_whitelist = 57
type_code brute_force_protect_path = 58
type_code setenvif_nocase = 59
type_code header_edit = 60
type_code header_edit_star = 61
type_code header_always_edit = 62
type_code header_always_edit_star = 63
type_code rewrite_engine = 64
type_code rewrite_base = 65
type_code rewrite_cond = 66
type_code rewrite_rule = 67
type_code add_default_charset = 68
type_code default_type = 69
type_code satisfy = 70
type_code rewrite_options = 71
type_code rewrite_map = 72
type_code if_open = 73
type_code elseif_open = 74
type_code else_open = 75
type_code require_env = 76
type_code remove_type = 77
type_code remove_handler = 78
type_code action = 79
type_code require_user = 80
type_code require_group = 81
type_code brute_force_trusted_proxy = 82
type_code fallback_resource = 83
type_code cache_enable = 84
type_code cache_disable = 85
type_code cache_max_expire = 86
type_code cache_default_expire = 87
type_code rate_limit = 88
type_code sec_rule_engine = 89
type_code esi_enable = 90
type_code bot_challenge = 91
type_code bot_challenge_ttl = 92
type_code bot_challenge_difficulty = 93
type_code bot_challenge_exempt = 94
type_code bot_challenge_trusted_proxy = 95
type_code bot_challenge_page = 96
type_code bot_challenge_if = 97

-- a->type == b->type
abbrev pub same_type : DirectiveType → DirectiveType → Bool
same_type s t = type_code s == type_code t

all_types : List DirectiveType
all_types =
    header_set ∷ header_unset ∷ header_append ∷ header_merge ∷ header_add ∷ request_header_set
    ∷ request_header_unset ∷ php_value ∷ php_flag ∷ php_admin_value ∷ php_admin_flag ∷ order
    ∷ allow_from ∷ deny_from ∷ redirect ∷ redirect_match ∷ error_document ∷ files_match
    ∷ expires_active ∷ expires_by_type ∷ setenv ∷ setenvif ∷ browser_match ∷ brute_force_protection
    ∷ brute_force_allowed_attempts ∷ brute_force_window ∷ brute_force_action
    ∷ brute_force_throttle_duration ∷ ifmodule ∷ options ∷ files ∷ header_always_set
    ∷ header_always_unset ∷ header_always_append ∷ header_always_merge ∷ header_always_add
    ∷ expires_default ∷ require_all_granted ∷ require_all_denied ∷ require_ip ∷ require_not_ip
    ∷ require_any_open ∷ require_all_open ∷ limit ∷ limit_except ∷ auth_type ∷ auth_name
    ∷ auth_user_file ∷ require_valid_user ∷ add_handler ∷ set_handler ∷ add_type ∷ directory_index
    ∷ force_type ∷ add_encoding ∷ add_charset ∷ brute_force_x_forwarded_for ∷ brute_force_whitelist
    ∷ brute_force_protect_path ∷ setenvif_nocase ∷ header_edit ∷ header_edit_star
    ∷ header_always_edit ∷ header_always_edit_star ∷ rewrite_engine ∷ rewrite_base ∷ rewrite_cond
    ∷ rewrite_rule ∷ add_default_charset ∷ default_type ∷ satisfy ∷ rewrite_options ∷ rewrite_map
    ∷ if_open ∷ elseif_open ∷ else_open ∷ require_env ∷ remove_type ∷ remove_handler ∷ action
    ∷ require_user ∷ require_group ∷ brute_force_trusted_proxy ∷ fallback_resource ∷ cache_enable
    ∷ cache_disable ∷ cache_max_expire ∷ cache_default_expire ∷ rate_limit ∷ sec_rule_engine
    ∷ esi_enable ∷ bot_challenge ∷ bot_challenge_ttl ∷ bot_challenge_difficulty
    ∷ bot_challenge_exempt ∷ bot_challenge_trusted_proxy ∷ bot_challenge_page ∷ bot_challenge_if
    ∷ []

all_types-type_code : (t : DirectiveType) → get_elem? all_types (type_code t) ≡ some t
unfolding all_types
all_types-type_code header_set = refl
all_types-type_code header_unset = refl
all_types-type_code header_append = refl
all_types-type_code header_merge = refl
all_types-type_code header_add = refl
all_types-type_code request_header_set = refl
all_types-type_code request_header_unset = refl
all_types-type_code php_value = refl
all_types-type_code php_flag = refl
all_types-type_code php_admin_value = refl
all_types-type_code php_admin_flag = refl
all_types-type_code order = refl
all_types-type_code allow_from = refl
all_types-type_code deny_from = refl
all_types-type_code redirect = refl
all_types-type_code redirect_match = refl
all_types-type_code error_document = refl
all_types-type_code files_match = refl
all_types-type_code expires_active = refl
all_types-type_code expires_by_type = refl
all_types-type_code setenv = refl
all_types-type_code setenvif = refl
all_types-type_code browser_match = refl
all_types-type_code brute_force_protection = refl
all_types-type_code brute_force_allowed_attempts = refl
all_types-type_code brute_force_window = refl
all_types-type_code brute_force_action = refl
all_types-type_code brute_force_throttle_duration = refl
all_types-type_code ifmodule = refl
all_types-type_code options = refl
all_types-type_code files = refl
all_types-type_code header_always_set = refl
all_types-type_code header_always_unset = refl
all_types-type_code header_always_append = refl
all_types-type_code header_always_merge = refl
all_types-type_code header_always_add = refl
all_types-type_code expires_default = refl
all_types-type_code require_all_granted = refl
all_types-type_code require_all_denied = refl
all_types-type_code require_ip = refl
all_types-type_code require_not_ip = refl
all_types-type_code require_any_open = refl
all_types-type_code require_all_open = refl
all_types-type_code limit = refl
all_types-type_code limit_except = refl
all_types-type_code auth_type = refl
all_types-type_code auth_name = refl
all_types-type_code auth_user_file = refl
all_types-type_code require_valid_user = refl
all_types-type_code add_handler = refl
all_types-type_code set_handler = refl
all_types-type_code add_type = refl
all_types-type_code directory_index = refl
all_types-type_code force_type = refl
all_types-type_code add_encoding = refl
all_types-type_code add_charset = refl
all_types-type_code brute_force_x_forwarded_for = refl
all_types-type_code brute_force_whitelist = refl
all_types-type_code brute_force_protect_path = refl
all_types-type_code setenvif_nocase = refl
all_types-type_code header_edit = refl
all_types-type_code header_edit_star = refl
all_types-type_code header_always_edit = refl
all_types-type_code header_always_edit_star = refl
all_types-type_code rewrite_engine = refl
all_types-type_code rewrite_base = refl
all_types-type_code rewrite_cond = refl
all_types-type_code rewrite_rule = refl
all_types-type_code add_default_charset = refl
all_types-type_code default_type = refl
all_types-type_code satisfy = refl
all_types-type_code rewrite_options = refl
all_types-type_code rewrite_map = refl
all_types-type_code if_open = refl
all_types-type_code elseif_open = refl
all_types-type_code else_open = refl
all_types-type_code require_env = refl
all_types-type_code remove_type = refl
all_types-type_code remove_handler = refl
all_types-type_code action = refl
all_types-type_code require_user = refl
all_types-type_code require_group = refl
all_types-type_code brute_force_trusted_proxy = refl
all_types-type_code fallback_resource = refl
all_types-type_code cache_enable = refl
all_types-type_code cache_disable = refl
all_types-type_code cache_max_expire = refl
all_types-type_code cache_default_expire = refl
all_types-type_code rate_limit = refl
all_types-type_code sec_rule_engine = refl
all_types-type_code esi_enable = refl
all_types-type_code bot_challenge = refl
all_types-type_code bot_challenge_ttl = refl
all_types-type_code bot_challenge_difficulty = refl
all_types-type_code bot_challenge_exempt = refl
all_types-type_code bot_challenge_trusted_proxy = refl
all_types-type_code bot_challenge_page = refl
all_types-type_code bot_challenge_if = refl

-- Types with one code are one type.
pub same_type-eq : (s t : DirectiveType) → same_type s t ≡ true → s ≡ t
same_type-eq s t h =
    let e : type_code s ≡ type_code t = (==_iff _ _).0 h in
    let f : some s ≡ some t =
      sym (all_types-type_code s) ∙ ap (get_elem? all_types) e ∙ all_types-type_code t in
    cc
