-- ===== src/Tests/Access.antt =====
-- Runs of src/htaccess_exec_acl.c and src/htaccess_exec_require.c.
use litehttpd.Prelude.Tokens.{tokens}
use litehttpd.Cidr.{ip_parse, cidr_parse, cidr_match}
use litehttpd.Prelude.{ℕ, ◌≡◌, refl, ◌↔◌, ◌⊎◌, Bool, true, false, Option, none, some}
use litehttpd.Prelude.Text.{
  Bytes, codes, has_char, skip_ws, strtoul, digits_value, digits_rest, starts_with_nocase,
  str_caseeq,
}
use litehttpd.Directive.{
  directive, Directives, nil, cons, acl, order_allow_deny, order_deny_allow, no_data,
  require_container,
}
use litehttpd.Directive.Kind.{
  order, allow_from, deny_from, require_all_open, require_ip, require_not_ip,
}
use litehttpd.Acl.{v4, exec_access_control, parse_client, last_order}
use litehttpd.Acl.Decision.{
  IsAllowed, IsDenied, exec_access_control-order_allow_deny, exec_access_control-order_deny_allow,
}
use litehttpd.Require.{
  eval_require_all, exec_require, has_require, needs_ip, require_client, has_valid_user_anywhere,
  eval_child, eval_single_require,
}
use litehttpd.Require.Containers.{SomeGrants, NoneRefuses, eval_require_all_lem}
use litehttpd.Require.Decision.{exec_require_lem}
use litehttpd.Lsi.{lsi_ok, lsi_error}

-- A resolver and an environment that know nothing.
abbrev no_ipv6 : Bytes → Option Bytes
no_ipv6 s = none

abbrev no_env : Bytes → Bool
no_env s = false

abbrev ip : Bytes
ip = codes "10.1.2.3"

abbrev address : ℕ
address = 167838211

abbrev rules : Directives
rules =
    cons (directive allow_from 2 none (some (codes "all")) none no_data)
      (cons (directive deny_from 3 none (some (codes "10.0.0.0/8")) none no_data) nil)

abbrev allow_deny : Directives
allow_deny = cons (directive order 1 none none none (acl order_allow_deny)) rules

abbrev deny_allow : Directives
deny_allow = cons (directive order 1 none none none (acl order_deny_allow)) rules

exec_access_control-order_allow_deny_example :
    (exec_access_control no_ipv6 (some ip) allow_deny ≡ lsi_ok)
    ↔ (IsAllowed no_ipv6 (v4 address) allow_deny × ¬ IsDenied no_ipv6 (v4 address) allow_deny)
unfolding parse_client last_order has_char ip_parse skip_ws strtoul digits_value digits_rest
exec_access_control-order_allow_deny_example =
    exec_access_control-order_allow_deny no_ipv6 ip (v4 address) allow_deny refl refl

exec_access_control-order_deny_allow_example :
    (exec_access_control no_ipv6 (some ip) deny_allow ≡ lsi_error 403)
    ↔ (IsDenied no_ipv6 (v4 address) deny_allow × ¬ IsAllowed no_ipv6 (v4 address) deny_allow)
unfolding parse_client last_order has_char ip_parse skip_ws strtoul digits_value digits_rest
exec_access_control-order_deny_allow_example =
    exec_access_control-order_deny_allow no_ipv6 ip (v4 address) deny_allow refl refl

abbrev children : Directives
children =
    cons (directive require_ip 2 none (some (codes "10 192.168")) none no_data)
      (cons (directive require_not_ip 3 none (some (codes "10.0.0.5")) none no_data) nil)

abbrev require_rules : Directives
require_rules = cons (directive require_all_open 1 none none none (require_container children)) nil

eval_require_all_lem_example :
    (eval_require_all no_ipv6 no_env (v4 address) false children false ≡ true) ↔ (
      SomeGrants no_ipv6 no_env (v4 address) false children
      × NoneRefuses no_ipv6 no_env (v4 address) false children)
eval_require_all_lem_example = eval_require_all_lem no_ipv6 no_env (v4 address) false children

exec_require_lem_example : (exec_require no_ipv6 no_env require_rules (some ip) false ≡ lsi_ok) ↔ (
    SomeGrants no_ipv6 no_env (v4 address) false require_rules
    ⊎ (has_valid_user_anywhere require_rules ≡ true))
unfolding has_require needs_ip require_client has_char ip_parse skip_ws strtoul digits_value
    digits_rest
exec_require_lem_example =
    exec_require_lem no_ipv6 no_env require_rules (some ip) false (v4 address) refl refl

-- The run: a client inside 10.0.0.0/8 other than 10.0.0.5 passes, and 10.0.0.5 does not.
exec_require_passes : exec_require no_ipv6 no_env require_rules (some ip) false ≡ lsi_ok
unfolding exec_require has_char ip_parse skip_ws strtoul digits_value digits_rest eval_child
    eval_single_require tokens cidr_parse starts_with_nocase str_caseeq cidr_match
exec_require_passes = refl

exec_require_refuses :
    exec_require no_ipv6 no_env require_rules (some (codes "10.0.0.5")) false ≡ lsi_error 403
unfolding exec_require has_char ip_parse skip_ws strtoul digits_value digits_rest eval_child
    eval_single_require tokens cidr_parse starts_with_nocase str_caseeq cidr_match
exec_require_refuses = refl
