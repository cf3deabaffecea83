-- ===== src/Tests/Lists.antt =====
-- Runs of src/htaccess_dirwalker.c.
use litehttpd.Prelude.{ℕ, [], ◌≡◌, refl, ◌≤◌, arith, true, false, none, some}
use litehttpd.Prelude.Text.{Bytes, codes, str_eq}
use litehttpd.Directive.{
  Directive, directive, Directives, nil, cons, no_data, ifmodule, acl, order_allow_deny, append,
}
use litehttpd.Directive.Kind.{header_set, order, require_any_open, require_all_granted}
use litehttpd.Directive.Kind
use litehttpd.Dirwalk.{
  merge_directives, filter_by_allow_override, flatten_ifmodule, override_key,
  directives_match_for_override,
}
use litehttpd.Dirwalk.Filter.{all_permitted, filter-permitted}
use litehttpd.Dirwalk.Flatten.{entries, entries-flatten_ifmodule}
use litehttpd.Dirwalk.Merge.{Has, count, merge_directives-adds, count-merge_directives}

abbrev header : ℕ → Bytes → Directive
header line name = directive header_set line (some name) (some (codes "1")) none no_data

abbrev parent : Directives
parent =
    cons (header 1 (codes "X-A"))
      (cons (directive order 2 none none none (acl order_allow_deny)) nil)

abbrev child : Directives
child =
    cons (header 1 (codes "X-B"))
      (cons (directive order 2 none none none (acl order_allow_deny)) nil)

-- <IfModule a> Header; <IfModule b> Header </IfModule> </IfModule>
abbrev nested : Directives
nested =
    cons
      (directive Kind.ifmodule 1 none none none (
        ifmodule false (
          cons (header 2 (codes "X-A")) (
            cons
              (directive Kind.ifmodule 3 none none none
                (ifmodule false (cons (header 4 (codes "X-B")) nil)))
              nil))))
      nil

filter-permitted_example : all_permitted 8 (filter_by_allow_override 8 parent) ≡ true
filter-permitted_example = filter-permitted 8 parent

entries-flatten_ifmodule_example : entries [] (flatten_ifmodule nested) ≡ entries [] nested
entries-flatten_ifmodule_example = entries-flatten_ifmodule nested

merge_directives-adds_example :
    Has (header 1 (codes "X-B")) (merge_directives parent (append nil child))
unfolding directives_match_for_override str_eq
merge_directives-adds_example =
    merge_directives-adds parent nil
      (cons (directive order 2 none none none (acl order_allow_deny)) nil) (header 1 (codes "X-B"))
      (refl, tt)

count-merge_directives_example : count order (merge_directives parent child) ≤ 1
unfolding override_key
count-merge_directives_example =
    count-merge_directives order parent child refl (omega arith) (omega arith)
