-- ===== src/Acl.antt =====
-- src/htaccess_exec_acl.c: Order, Allow from and Deny from.
pub mod Decision
use litehttpd.Prelude.{
  ℕ, ◌+◌, ◌*◌, Bool, true, false, not, ◌&&◌, ◌||◌, Option, none, some, List, [], ◌∷◌, ◌==◌,
  if◌then◌else◌, get_or,
}
use litehttpd.Prelude.Text.{Bytes, codes, at_end, str_caseeq, has_char}
use litehttpd.Cidr.{cidr_parse, cidr_match, ip_parse}
use litehttpd.Cidr6.{ip_parse_v6, cidr_v6_parse, cidr_v6_match}
use litehttpd.Directive.{
  AclOrder, order_allow_deny, order_deny_allow, Directive, directive, Directives, nil, cons,
  order_of,
}
use litehttpd.Directive.Kind.{DirectiveType, order, allow_from, deny_from}
use litehttpd.Lsi.{Verdict, lsi_ok, lsi_error}

-- client_ip or client_v6, by is_ipv6
pub data Client : Type 0 where
  v4 : ℕ → Client
  v6 : Bytes → Client

-- What the loops look at in a directive.
pub data Rule : Type 0 where
  order_rule : AclOrder → Rule
  allow_rule deny_rule : Bytes → Rule
  other_rule : Rule

-- The tests on `type` and `value`.
unfoldable pub rule_of : Directive → Rule
rule_of (directive order l n v e p) = order_rule (order_of p)
rule_of (directive allow_from l n (some v) e p) = allow_rule v
rule_of (directive deny_from l n (some v) e p) = deny_rule v
rule_of d = other_rule

-- The last Order directive.
unfoldable pub last_order : Option AclOrder → Directives → Option AclOrder
last_order found nil = found
last_order found (cons (directive order l n v e p) ds) = last_order (some (order_of p)) ds
last_order found (cons d ds) = last_order found ds

unfoldable pub has_acl_rules : Directives → Bool
has_acl_rules nil = false
has_acl_rules (cons (directive allow_from l n v e p) ds) = true
has_acl_rules (cons (directive deny_from l n v e p) ds) = true
has_acl_rules (cons d ds) = has_acl_rules ds

abbrev pub is_zero_byte : Bytes → ℕ → Bool
is_zero_byte a i = get_or a i 0 == 0

-- ::ffff:A.B.C.D
unfoldable pub is_mapped : Bytes → Bool
is_mapped a =
    is_zero_byte a 0
    && is_zero_byte a 1
    && is_zero_byte a 2
    && is_zero_byte a 3
    && is_zero_byte a 4
    && is_zero_byte a 5
    && is_zero_byte a 6
    && is_zero_byte a 7
    && is_zero_byte a 8
    && is_zero_byte a 9
    && get_or a 10 0 == 0xff
    && get_or a 11 0 == 0xff

-- The shifts and `|` of four bytes, as a sum.
unfoldable pub embedded : Bytes → ℕ
embedded a = ((get_or a 12 0 * 256 + get_or a 13 0) * 256 + get_or a 14 0) * 256 + get_or a 15 0

-- The policy where the client's address cannot be parsed, and when no rule decides.
abbrev pub default_policy : AclOrder → Verdict
default_policy order_allow_deny = lsi_error 403
default_policy order_deny_allow = lsi_ok

abbrev pub verdict : Bool → Verdict
verdict true = lsi_error 403
verdict false = lsi_ok

-- The evaluation at the end of exec_access_control.
unfoldable pub is_denied : AclOrder → Bool → Bool → Bool
is_denied order_allow_deny allow_matched deny_matched =
    if allow_matched && not deny_matched then false else true
is_denied order_deny_allow allow_matched deny_matched =
    if deny_matched && not allow_matched then true else false

abbrev pub order_or_default : Option AclOrder → AclOrder
order_or_default none = order_allow_deny
order_or_default (some o) = o

abbrev pub has_order : Option AclOrder → Bool
has_order none = false
has_order (some o) = true

module _ (inet_pton6 : Bytes → Option Bytes) where
  unfoldable pub parse_client : Bytes → Option Client
  unfolding is_mapped embedded
  parse_client ip_str =
      if has_char b':' ip_str
      then (elim (ip_parse_v6 inet_pton6 ip_str) [
        | none ↦ none
        | some a ↦ if is_mapped a then some (v4 (embedded a)) else some (v6 a)
      ])
      else elim (ip_parse ip_str) [ none ↦ none | some ip ↦ some (v4 ip) ]

  -- ip_matches_rule_v4 and ip_matches_rule_v6
  unfoldable pub ip_matches_rule : Client → Bytes → Bool
  ip_matches_rule (v4 ip) rule_value =
      if str_caseeq rule_value (codes "all")
      then true
      else elim (cidr_parse rule_value) [ none ↦ false | some cidr ↦ cidr_match cidr ip ]
  ip_matches_rule (v6 a) rule_value =
      if str_caseeq rule_value (codes "all")
      then true
      else elim (cidr_v6_parse inet_pton6 rule_value) [
        | none ↦ false
        | some cidr ↦ cidr_v6_match cidr a
      ]

  abbrev pub allows : Client → Rule → Bool
  allows client (allow_rule v) = ip_matches_rule client v
  allows client _ = false

  abbrev pub denies : Client → Rule → Bool
  denies client (deny_rule v) = ip_matches_rule client v
  denies client _ = false

  -- The loop over the rules, with allow_matched and deny_matched.
  unfoldable pub match_rules : Client → Bool → Bool → Directives → Bool × Bool
  unfolding rule_of
  match_rules client allow_matched deny_matched nil = (allow_matched, deny_matched)
  match_rules client allow_matched deny_matched (cons d ds) =
      match_rules client (allows client (rule_of d) || allow_matched)
        (denies client (rule_of d) || deny_matched) ds

  -- `none` for a client whose address the server does not know.
  unfoldable pub exec_access_control : Option Bytes → Directives → Verdict
  unfolding last_order has_acl_rules parse_client match_rules is_denied
  exec_access_control client_ip directives =
      let found = last_order none directives in
      let order = order_or_default found in
      if not (has_order found) && not (has_acl_rules directives) then lsi_ok else elim client_ip [
        | none ↦ lsi_ok
        | some ip_str ↦ if at_end ip_str then lsi_ok else elim (parse_client ip_str) [
          | none ↦ default_policy order
          | some client ↦
              let matched = match_rules client false false directives in
              verdict (is_denied order matched.0 matched.1)
        ]
      ]
