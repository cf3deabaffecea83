-- ===== src/Dirwalk/Copy.antt =====
-- Copies are equal to what they copy.
use litehttpd.Prelude.{Option, none, some, ◌≡◌, refl}
use litehttpd.Prelude.Text.{Bytes}
use litehttpd.Directive.{
  Expr, null, node, Directive, directive, Payload, no_data, acl, redirect, error_doc, files_match,
  expires, envif, brute_force, ifmodule, files, options, header_ext, require_container, limit,
  rewrite_cond, rewrite_rule, rewrite_map, if_block, Directives, nil, cons,
}
use litehttpd.Dirwalk.{copy_text, expr_clone, copy_directive, copy_payload, copy_directive_list}

copy_text-eq : (s : Option Bytes) → copy_text s ≡ s
copy_text-eq none = refl
copy_text-eq (some s) = refl

expr_clone-eq : (e : Expr) → expr_clone e ≡ e
unfolding expr_clone
expr_clone-eq null = refl
expr_clone-eq (node t s l r) = cc (copy_text-eq s, expr_clone-eq l, expr_clone-eq r)

mutual
  unfolding copy_directive copy_payload copy_directive_list

  copy_directive-eq : (d : Directive) → copy_directive d ≡ d
  copy_directive-eq (directive t l n v e p) =
      cc (copy_text-eq n, copy_text-eq v, copy_text-eq e, copy_payload-eq p)

  copy_payload-eq : (p : Payload) → copy_payload p ≡ p
  copy_payload-eq (redirect c p) = cc (copy_text-eq p)
  copy_payload-eq (files_match p ch) = cc (copy_text-eq p, copy_list-eq ch)
  copy_payload-eq (files ch) = cc (copy_list-eq ch)
  copy_payload-eq (ifmodule n ch) = cc (copy_list-eq ch)
  copy_payload-eq (require_container ch) = cc (copy_list-eq ch)
  copy_payload-eq (limit m ch) = cc (copy_text-eq m, copy_list-eq ch)
  copy_payload-eq (envif a p) = cc (copy_text-eq a, copy_text-eq p)
  copy_payload-eq (header_ext p) = cc (copy_text-eq p)
  copy_payload-eq (rewrite_cond p f nc o) = cc (copy_text-eq p, copy_text-eq f)
  copy_payload-eq (rewrite_rule p f cs) = cc (copy_text-eq p, copy_text-eq f, copy_list-eq cs)
  copy_payload-eq (rewrite_map n t s) = cc (copy_text-eq n, copy_text-eq t, copy_text-eq s)
  copy_payload-eq (if_block c ch) = cc (expr_clone-eq c, copy_list-eq ch)
  copy_payload-eq (acl o) = refl
  copy_payload-eq (error_doc c) = refl
  copy_payload-eq (expires a d) = refl
  copy_payload-eq (brute_force b) = refl
  copy_payload-eq (options i s m c) = refl
  copy_payload-eq no_data = refl

  copy_list-eq : (ds : Directives) → copy_directive_list ds ≡ ds
  copy_list-eq nil = refl
  copy_list-eq (cons d ds) = cc (copy_directive-eq d, copy_list-eq ds)

pub copy_directive_lem : (d : Directive) → copy_directive d ≡ d
copy_directive_lem d = copy_directive-eq d

-- A deep copy has every field of the original, at every depth.
pub copy_directive_list_lem : (ds : Directives) → copy_directive_list ds ≡ ds
copy_directive_list_lem ds = copy_list-eq ds
