-- ===== src/Tests/Conditions.antt =====
-- Runs of src/htaccess_expr.c.
use litehttpd.Cidr.{cidr_parse, ip_parse}
use litehttpd.Prelude.{
  ℕ, ◌+◌, ◌-◌, ◌/◌, ◌^◌, ◌≤◌, ◌≡◌, ◌↔◌, refl, true, Option, none, some, ◌++◌, arith, length,
  replicate,
}
use litehttpd.Prelude.Text.{
  Bytes, codes, has_char, starts_with_nocase, skip_ws, strtoul, digits_value, digits_rest,
}
use litehttpd.Directive.{ExprNodeType, Expr, null, node}
use litehttpd.Expression.Parse.{expr_parse, node_leaf}
use litehttpd.Expression.Depth.{IsSmall, expr_parse_total}
use litehttpd.Expression.Nesting.{expr_parse_nested}
use litehttpd.Expression.Value.{Session, expr_expand_var, eval_node_str}
use litehttpd.Expression.Eval.{MatchResult, htre_match, Stat, expr_eval}
use litehttpd.Expression.Laws.{AreOpposite, regex_nomatch_lem}
use litehttpd.Expression.Bounds.{expr_expand_var_buffered}
use litehttpd.Expression.Address.{ipmatch_prefix}

abbrev request : Session
request = record {
  uri = some (codes "/admin/login");
  query_string = none;
  method = some (codes "GET");
  client_ip = some (codes "10.1.2.3");
  doc_root = some (codes "/www");
  env = λ name. none;
  req_header = λ name. none;
}

abbrev no_ipv6 : Bytes → Option Bytes
no_ipv6 text = none

abbrev matches_all : Bytes → Bytes → Option MatchResult
matches_all pattern subject = some htre_match

abbrev no_file : Bytes → Option Stat
no_file path = none

abbrev uri : Expr
uri = node_leaf ExprNodeType.var (codes "%{REQUEST_URI}")

abbrev admin : Expr
admin = node_leaf ExprNodeType.regex (codes "^/admin")

abbrev text : Bytes
text = codes "%{REQUEST_URI} =~ /^.admin/ && !(-f '/x' || tolower('A') -eq 12)"

expr_parse_total_example : (e : Expr) × (expr_parse text ≡ some e) × (IsSmall e)
expr_parse_total_example = expr_parse_total text

expr_parse_nested_example : expr_parse (replicate 40 b'(' ++ codes "a") ≡ some null
expr_parse_nested_example = expr_parse_nested 40 (codes "a") (omega arith)

regex_nomatch_lem_example : AreOpposite no_ipv6 matches_all no_file no_file request uri admin
regex_nomatch_lem_example = regex_nomatch_lem no_ipv6 matches_all no_file no_file request uri admin

expr_expand_var_buffered_example :
    length (expr_expand_var request (codes "%{REQUEST_URI}")) + 1 ≤ 4096
expr_expand_var_buffered_example =
    expr_expand_var_buffered request (codes "%{REQUEST_URI}") refl refl

ipmatch_prefix_example :
    (expr_eval no_ipv6 matches_all no_file no_file request (
        node ExprNodeType.ipmatch none
          (node_leaf ExprNodeType.string (codes "10.1.2.3"))
          (node_leaf ExprNodeType.string (codes "10.0.0.0/8")))
      ≡ true)
    ↔ ((ip : ℕ) × (ip_parse
            (eval_node_str request (node_leaf ExprNodeType.string (codes "10.1.2.3")))
          ≡ some ip)
        × (ip / 2 ^ (32 - 8) ≡ 167772160 / 2 ^ (32 - 8)))
unfolding has_char eval_node_str cidr_parse starts_with_nocase skip_ws strtoul digits_value
    digits_rest ip_parse
ipmatch_prefix_example =
    ipmatch_prefix no_ipv6 (λ s h. refl) matches_all no_file no_file request
      (node_leaf ExprNodeType.string (codes "10.1.2.3"))
      (node_leaf ExprNodeType.string (codes "10.0.0.0/8")) 8 167772160 (omega arith) (omega arith)
      refl refl refl
