-- ===== src/Dirwalk.antt =====
-- src/htaccess_dirwalker.c: copying, merging, filtering and flattening of directive lists. A
-- switch on the type is a match on the union's member, since the parser gives each type its own.
-- Calls of malloc and strdup succeed.
pub mod Copy
pub mod Merge
pub mod Filter
pub mod Flatten
pub mod Paths
pub mod Within
pub mod Reading
pub mod Coherent
use Prim.Native.Nat.{bit_and}
use litehttpd.Prelude.{
  ℕ, List, [], ◌∷◌, Bool, true, false, ◌&&◌, ◌||◌, not, Option, none, some, ◌==◌, if◌then◌else◌,
}
use litehttpd.Prelude.Text.{Bytes, str_eq}
use litehttpd.Directive.{
  Expr, null, node, Directive, directive, Payload, no_data, acl, redirect, error_doc, files_match,
  expires, envif, brute_force, ifmodule, files, options, header_ext, require_container, limit,
  rewrite_cond, rewrite_rule, rewrite_map, if_block, Directives, nil, cons, append, kind, name,
  value, payload, error_code_of, pattern_of,
}
use litehttpd.Directive.Kind.{
  DirectiveType, header_set, header_unset, header_append, header_merge, header_add,
  request_header_set, request_header_unset, php_value, php_flag, php_admin_value, php_admin_flag,
  setenv, expires_by_type, error_document, order, expires_active, expires_default, directory_index,
  brute_force_protection, brute_force_allowed_attempts, brute_force_window, brute_force_action,
  brute_force_throttle_duration, rate_limit, sec_rule_engine, esi_enable, bot_challenge,
  bot_challenge_ttl, bot_challenge_difficulty, bot_challenge_exempt, bot_challenge_trusted_proxy,
  bot_challenge_page, bot_challenge_if, allow_from, deny_from, redirect_match, setenvif,
  setenvif_nocase, browser_match, rewrite_engine, rewrite_base, add_default_charset, default_type,
  satisfy, fallback_resource, directive_category, allow_override_all,
}
use litehttpd.Directive.Kind
use litehttpd.Directive.Code.{same_type}

-- strdup of a string that may be null
abbrev copy_text : Option Bytes → Option Bytes
copy_text none = none
copy_text (some s) = some s

-- src/htaccess_expr.c
unfoldable pub expr_clone : Expr → Expr
expr_clone null = null
expr_clone (node t s l r) = node t (copy_text s) (expr_clone l) (expr_clone r)

-- copy_directive, with the deep copy of each union member, and copy_directive_list, which is
-- copy_children with another name.
unfoldable mutual
  pub copy_directive : Directive → Directive
  copy_directive (directive t l n v e p) =
      directive t l (copy_text n) (copy_text v) (copy_text e) (copy_payload p)

  copy_payload : Payload → Payload
  copy_payload (redirect c p) = redirect c (copy_text p)
  copy_payload (files_match p ch) = files_match (copy_text p) (copy_directive_list ch)
  copy_payload (files ch) = files (copy_directive_list ch)
  copy_payload (ifmodule n ch) = ifmodule n (copy_directive_list ch)
  copy_payload (require_container ch) = require_container (copy_directive_list ch)
  copy_payload (limit m ch) = limit (copy_text m) (copy_directive_list ch)
  copy_payload (envif a p) = envif (copy_text a) (copy_text p)
  copy_payload (header_ext p) = header_ext (copy_text p)
  copy_payload (rewrite_cond p f nc o) = rewrite_cond (copy_text p) (copy_text f) nc o
  copy_payload (rewrite_rule p f cs) =
      rewrite_rule (copy_text p) (copy_text f) (copy_directive_list cs)
  copy_payload (rewrite_map n t s) = rewrite_map (copy_text n) (copy_text t) (copy_text s)
  copy_payload (if_block c ch) = if_block (expr_clone c) (copy_directive_list ch)
  copy_payload (acl o) = acl o
  copy_payload (error_doc c) = error_doc c
  copy_payload (expires a d) = expires a d
  copy_payload (brute_force b) = brute_force b
  copy_payload (options i s m c) = options i s m c
  copy_payload no_data = no_data

  pub copy_directive_list : Directives → Directives
  copy_directive_list nil = nil
  copy_directive_list (cons d ds) = cons (copy_directive d) (copy_directive_list ds)

-- Both strings are there and equal.
abbrev both_eq : Option Bytes → Option Bytes → Bool
both_eq (some a) (some b) = str_eq a b
both_eq _ _ = false

-- What makes a child directive replace one of the parent's.
pub data OverrideKey : Type 0 where
  by_name by_value by_error_code by_pattern by_envif singleton accumulate : OverrideKey

-- The cases of the switch in directives_match_for_override.
unfoldable pub override_key : DirectiveType → OverrideKey
override_key header_set = by_name
override_key header_unset = by_name
override_key header_append = by_name
override_key header_merge = by_name
override_key header_add = by_name
override_key request_header_set = by_name
override_key request_header_unset = by_name
override_key php_value = by_name
override_key php_flag = by_name
override_key php_admin_value = by_name
override_key php_admin_flag = by_name
override_key setenv = by_name
override_key expires_by_type = by_name
override_key error_document = by_error_code
override_key order = singleton
override_key expires_active = singleton
override_key expires_default = singleton
override_key directory_index = singleton
override_key brute_force_protection = singleton
override_key brute_force_allowed_attempts = singleton
override_key brute_force_window = singleton
override_key brute_force_action = singleton
override_key brute_force_throttle_duration = singleton
override_key rate_limit = singleton
override_key sec_rule_engine = singleton
override_key esi_enable = singleton
override_key bot_challenge = singleton
override_key bot_challenge_ttl = singleton
override_key bot_challenge_difficulty = singleton
override_key bot_challenge_exempt = singleton
override_key bot_challenge_trusted_proxy = singleton
override_key bot_challenge_page = singleton
override_key bot_challenge_if = singleton
override_key allow_from = by_value
override_key deny_from = by_value
override_key Kind.redirect = by_name
override_key redirect_match = by_pattern
override_key setenvif = by_envif
override_key setenvif_nocase = by_envif
override_key browser_match = by_envif
override_key rewrite_engine = singleton
override_key rewrite_base = singleton
override_key add_default_charset = singleton
override_key default_type = singleton
override_key satisfy = singleton
override_key fallback_resource = singleton
override_key _ = accumulate

abbrev envif_eq : Payload → Payload → Bool
envif_eq (envif a p) (envif b q) = both_eq a b && both_eq p q
envif_eq _ _ = false

abbrev matches_by : OverrideKey → Directive → Directive → Bool
matches_by by_name a b = both_eq (name a) (name b)
matches_by by_value a b = both_eq (value a) (value b)
matches_by by_error_code a b = error_code_of (payload a) == error_code_of (payload b)
matches_by by_pattern a b = both_eq (pattern_of (payload a)) (pattern_of (payload b))
matches_by by_envif a b = both_eq (name a) (name b) && envif_eq (payload a) (payload b)
matches_by singleton a b = true
matches_by accumulate a b = false

unfoldable pub directives_match_for_override : Directive → Directive → Bool
unfolding override_key
directives_match_for_override a b =
    if not (same_type (kind a) (kind b)) then false else matches_by (override_key (kind a)) a b

-- The body of the loop over the child's directives: replace the first match, else append.
unfoldable pub merge_one : Directives → Directive → Directives
unfolding directives_match_for_override
merge_one nil c = cons (copy_directive c) nil
merge_one (cons p ps) c =
    if directives_match_for_override p c
    then cons (copy_directive c) ps
    else cons p (merge_one ps c)

unfoldable pub merge_all : Directives → Directives → Directives
merge_all parent nil = parent
merge_all parent (cons c cs) = merge_all (merge_one parent c) cs

unfoldable pub merge_directives : Directives → Directives → Directives
unfolding merge_all merge_one copy_directive_list
merge_directives parent nil = parent
merge_directives nil (cons c cs) = copy_directive_list (cons c cs)
merge_directives (cons p ps) (cons c cs) = merge_all (cons p ps) (cons c cs)

-- The levels from the root directory down, as the loop of htaccess_dirwalk merges them.
unfoldable pub merge_levels : Directives → List Directives → Directives
merge_levels merged [] = merged
merge_levels merged (level ∷ levels) = merge_levels (merge_directives merged level) levels

-- cat == ALLOW_OVERRIDE_ALL || (allow_override & cat) == cat
unfoldable pub is_permitted : ℕ → DirectiveType → Bool
unfolding directive_category
is_permitted allow_override t =
    let cat = directive_category t in cat == allow_override_all || bit_and allow_override cat == cat

-- Empty containers of Require directives are dropped.
abbrev keep_filtered : Directive → Directives → Directives
keep_filtered (directive t l n v e (require_container nil)) rest = rest
keep_filtered d rest = cons d rest

unfoldable mutual
  unfolding is_permitted

  pub filter_by_allow_override : ℕ → Directives → Directives
  filter_by_allow_override allow nil = nil
  filter_by_allow_override allow (cons d ds) =
      let rest = filter_by_allow_override allow ds in
      let kept = keep_filtered (filter_children allow d) rest in
      if is_permitted allow (kind d) then kept else rest

  filter_children : ℕ → Directive → Directive
  filter_children allow (directive t l n v e p) = directive t l n v e (filter_payload allow p)

  filter_payload : ℕ → Payload → Payload
  filter_payload allow (files_match p ch) = files_match p (filter_by_allow_override allow ch)
  filter_payload allow (files ch) = files (filter_by_allow_override allow ch)
  filter_payload allow (ifmodule n ch) = ifmodule n (filter_by_allow_override allow ch)
  filter_payload allow (require_container ch) =
      require_container (filter_by_allow_override allow ch)
  filter_payload allow (limit m ch) = limit m (filter_by_allow_override allow ch)
  filter_payload allow (rewrite_rule p f cs) = rewrite_rule p f (filter_by_allow_override allow cs)
  filter_payload allow (if_block c ch) = if_block c (filter_by_allow_override allow ch)
  filter_payload allow p = p

-- An IfModule container is replaced by its children; the other containers keep theirs, flattened.
unfoldable mutual
  pub flatten_ifmodule : Directives → Directives
  flatten_ifmodule nil = nil
  flatten_ifmodule (cons d ds) = append (flatten_one d) (flatten_ifmodule ds)

  flatten_one : Directive → Directives
  flatten_one (directive t l n v e p) = flatten_payload (directive t l n v e) p

  flatten_payload : (Payload → Directive) → Payload → Directives
  flatten_payload with_payload (ifmodule n ch) = flatten_ifmodule ch
  flatten_payload with_payload (files ch) = cons (with_payload (files (flatten_ifmodule ch))) nil
  flatten_payload with_payload (files_match p ch) =
      cons (with_payload (files_match p (flatten_ifmodule ch))) nil
  flatten_payload with_payload (if_block c ch) =
      cons (with_payload (if_block c (flatten_ifmodule ch))) nil
  flatten_payload with_payload (limit m ch) =
      cons (with_payload (limit m (flatten_ifmodule ch))) nil
  flatten_payload with_payload (require_container ch) =
      cons (with_payload (require_container (flatten_ifmodule ch))) nil
  flatten_payload with_payload p = cons (with_payload p) nil

-- What htaccess_dirwalk does with the lists of the levels: merge, filter, flatten.
unfoldable pub walk_levels : ℕ → List Directives → Directives
unfolding merge_levels filter_by_allow_override flatten_ifmodule
walk_levels allow_override levels =
    let merged = merge_levels nil levels in
    flatten_ifmodule (
      if allow_override == allow_override_all
      then merged
      else filter_by_allow_override allow_override merged)
