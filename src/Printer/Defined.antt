-- ===== src/Printer/Defined.antt =====
-- No directive whose fields fit together makes src/htaccess_printer.c read a null string.
use litehttpd.Prelude.{Bool, true, false, [], Option, none, some, ◌≡◌, refl, arith}
use litehttpd.Prelude.Text.{Bytes}
use litehttpd.Directive.{
  Directive, directive, Directives, nil, cons, Payload, files_match, ifmodule, files,
  require_container, limit, rewrite_rule, if_block,
}
use litehttpd.Directive.Kind.{DirectiveType, header_set}
use litehttpd.Directive.Typed.{
  needs_name, needs_value, IsThere, IsTyped, HasTypedBody, AreTyped, AreConds-AreTyped,
}
use litehttpd.Printer.Leaf.{print_directive_text}
use litehttpd.Printer.Document.{htaccess_print, print_directive, print_body, print_children}

abbrev IsText : Option Bytes → Type 0
IsText o = (text : Bytes) × (o ≡ some text)

abbrev has_text : Option Bytes → Bool
has_text none = false
has_text (some text) = true

has_text-IsText : (o : Option Bytes) → has_text o ≡ true → IsText o
has_text-IsText none h = cc
has_text-IsText (some text) h = (text, refl)

module _ (e : Option Bytes) (p : Payload) (body : Bytes) where
  line_has_text :
      (t : DirectiveType) (n v : Option Bytes)
      → IsThere (needs_name t) n
      → IsThere (needs_value t) v
      → has_text (print_directive_text t n v e p (some body)) ≡ true
  unfolding print_directive_text needs_name needs_value
  line_has_text header_set (some n) (some v) hn hv = refl
  line_has_text header_set none v hn hv = elim hn [ ]
  line_has_text header_set (some n) none hn hv = elim hv [ ]
  line_has_text _ (some n) (some v) hn hv = refl
  line_has_text _ none (some v) hn hv = ground arith
  line_has_text _ (some n) none hn hv = ground arith
  line_has_text _ none none hn hv = ground arith

mutual
  unfolding print_directive IsTyped

  print_directive-IsText : (d : Directive) → IsTyped d → IsText (print_directive d)
  print_directive-IsText (directive t line n v e p) h =
      let body = print_body-IsText p h.3 in
      rw (body.1) (has_text-IsText _ (line_has_text e p body.0 t n v h.1 h.2))

  print_body-IsText : (p : Payload) → HasTypedBody p → IsText (print_body p)
  print_body-IsText (files_match pattern ch) h = print_children-IsText ch h
  print_body-IsText (ifmodule negated ch) h = print_children-IsText ch h
  print_body-IsText (files ch) h = print_children-IsText ch h
  print_body-IsText (require_container ch) h = print_children-IsText ch h
  print_body-IsText (limit m ch) h = print_children-IsText ch h
  print_body-IsText (rewrite_rule pattern flags conds) h =
      print_children-IsText conds (AreConds-AreTyped conds h)
  print_body-IsText (if_block e ch) h = print_children-IsText ch h
  print_body-IsText _ h = ([], refl)

  print_children-IsText : (ds : Directives) → AreTyped ds → IsText (print_children ds)
  print_children-IsText nil h = ([], refl)
  print_children-IsText (cons d ds) h =
      let first = print_directive-IsText d h.0 in
      let others = print_children-IsText ds h.1 in rw (first.1, others.1) (_, refl)

pub htaccess_print-IsText :
    (ds : Directives) → AreTyped ds → (result : Option Bytes) × (htaccess_print ds ≡ some result)
unfolding htaccess_print
htaccess_print-IsText nil h = (none, refl)
htaccess_print-IsText (cons d ds) h =
    let all = print_children-IsText (cons d ds) h in rw (all.1) (_, refl)
