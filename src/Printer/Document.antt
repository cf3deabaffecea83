-- ===== src/Printer/Document.antt =====
-- print_directive and htaccess_print of src/htaccess_printer.c.
use litehttpd.Prelude.{[], ◌∷◌, ◌++◌, Option, none, some}
use litehttpd.Prelude.Text.{Bytes}
use litehttpd.Prelude.Maybe.{◌>>=◌}
use litehttpd.Directive.{
  Directive, directive, Payload, files_match, ifmodule, files, require_container, limit,
  rewrite_rule, if_block, Directives, nil, cons,
}
use litehttpd.Printer.Leaf.{print_directive_text}

-- The children are those of the union's member, and the conditions of a rule.
unfoldable mutual
  unfolding print_directive_text

  pub print_directive : Directive → Option Bytes
  print_directive (directive t line n v e p) = print_directive_text t n v e p (print_body p)

  pub print_body : Payload → Option Bytes
  print_body (files_match pattern ch) = print_children ch
  print_body (ifmodule negated ch) = print_children ch
  print_body (files ch) = print_children ch
  print_body (require_container ch) = print_children ch
  print_body (limit m ch) = print_children ch
  print_body (rewrite_rule pattern flags conds) = print_children conds
  print_body (if_block e ch) = print_children ch
  print_body _ = some []

  pub print_children : Directives → Option Bytes
  print_children nil = some []
  print_children (cons d ds) =
      print_directive d >>= λ text. print_children ds >>= λ rest. some (text ++ (10 ∷ rest))

-- Newlines stand between the directives and at the end. An empty list gives the null pointer.
unfoldable pub htaccess_print : Directives → Option (Option Bytes)
unfolding print_children
htaccess_print nil = some none
htaccess_print (cons d ds) = print_children (cons d ds) >>= λ text. some (some text)
