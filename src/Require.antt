-- ===== src/Require.antt =====
-- src/htaccess_exec_require.c: the Require directives and their containers.
pub mod Containers
pub mod Decision
use litehttpd.Prelude.{
  ℕ, zero, suc, ◌+◌, ◌-◌, Bool, true, false, not, ◌&&◌, ◌||◌, Option, none, some, List, [], ◌∷◌,
  ◌++◌, ◌==◌, leb, if◌then◌else◌, length, take,
}
use litehttpd.Prelude.Text.{Bytes, codes, str_caseeq, has_char}
use litehttpd.Prelude.Tokens.{tokens, is_blank}
use litehttpd.Cidr.{cidr_parse, cidr_match, ip_parse}
use litehttpd.Cidr6.{ip_parse_v6, cidr_v6_parse, cidr_v6_match}
use litehttpd.Acl.{Client, v4, v6}
use litehttpd.Directive.{
  Directive, directive, Directives, nil, cons, Payload, require_container, kind, payload,
  children_of,
}
use litehttpd.Directive.Kind.{
  DirectiveType, require_all_granted, require_all_denied, require_ip, require_not_ip,
  require_any_open, require_all_open, require_env, require_valid_user, require_user, require_group,
}
use litehttpd.Lsi.{Verdict, lsi_ok, lsi_error}

unfoldable pub count_dots : Bytes → ℕ
count_dots [] = 0
count_dots (c ∷ s) = let n = count_dots s in if c == b'.' then suc n else n

-- The loop that appends ".0", `pad` times; the buffer `padded` has 48 bytes.
unfoldable pub pad_octets : ℕ → Bytes → Bytes
pad_octets zero s = s
pad_octets (suc pad) s =
    let next = pad_octets pad (s ++ codes ".0") in if leb 48 (length s + 2) then s else next

-- The decimal prefix length for a number of dots.
abbrev pub derived_prefix : ℕ → Bytes
derived_prefix zero = codes "8"
derived_prefix (suc zero) = codes "16"
derived_prefix (suc (suc zero)) = codes "24"
derived_prefix (suc (suc (suc n))) = codes "32"

-- cidr_buf, for a token with no prefix length.
unfoldable pub cidr_buf : Bytes → Bytes
unfolding count_dots pad_octets
cidr_buf tok =
    let dots = count_dots tok in
    pad_octets (3 - dots) (take 47 tok) ++ (codes "/" ++ derived_prefix dots)

-- What is parsed for a token.
unfoldable pub token_range : Bytes → Bytes
unfolding cidr_buf
token_range tok =
    if not (has_char b'/' tok) && not (has_char b':' tok) && not (str_caseeq tok (codes "all"))
    then cidr_buf tok
    else tok

unfoldable pub any_range_v4 : ℕ → List Bytes → Bool
unfolding token_range
any_range_v4 client_ip [] = false
any_range_v4 client_ip (tok ∷ toks) =
    let next = any_range_v4 client_ip toks in
    elim (cidr_parse (token_range tok)) [
      | none ↦ next
      | some cidr ↦ if cidr_match cidr client_ip then true else next
    ]

unfoldable pub ip_in_cidr_list_v4 : ℕ → Option Bytes → Bool
unfolding any_range_v4
ip_in_cidr_list_v4 client_ip none = false
ip_in_cidr_list_v4 client_ip (some cidr_list) = any_range_v4 client_ip (tokens is_blank cidr_list)

-- 1, 0, -2 and -1 of eval_single_require
pub data Grant : Type 0 where
  grant deny defer unknown : Grant

abbrev pub of_bool : Bool → Grant
of_bool true = grant
of_bool false = deny

abbrev pub is_grant : Grant → Bool
is_grant grant = true
is_grant _ = false

-- The types that the loop of has_require looks for.
abbrev pub is_require : DirectiveType → Bool
is_require require_all_granted = true
is_require require_all_denied = true
is_require require_ip = true
is_require require_not_ip = true
is_require require_any_open = true
is_require require_all_open = true
is_require require_env = true
is_require require_valid_user = true
is_require require_user = true
is_require require_group = true
is_require _ = false

unfoldable pub has_require : Directives → Bool
has_require nil = false
has_require (cons d ds) = is_require (kind d) || has_require ds

abbrev pub is_ip_rule : DirectiveType → Bool
is_ip_rule require_ip = true
is_ip_rule require_not_ip = true
is_ip_rule _ = false

abbrev pub is_container : DirectiveType → Bool
is_container require_any_open = true
is_container require_all_open = true
is_container _ = false

abbrev pub is_user_rule : DirectiveType → Bool
is_user_rule require_valid_user = true
is_user_rule require_user = true
is_user_rule _ = false

abbrev pub is_valid_user : DirectiveType → Bool
is_valid_user require_valid_user = true
is_valid_user _ = false

-- A loop over a list that looks for a directive with a property.
abbrev pub exists : (Directive → Bool) → Directives → Bool
exists p nil = false
exists p (cons d ds) = p d || exists p ds

-- The three nested loops of needs_ip.
unfoldable pub needs_ip : Directives → Bool
needs_ip = exists (λ dir.
    is_ip_rule (kind dir)
    || (is_container (kind dir)
        && exists
            (λ child.
              is_ip_rule (kind child)
              || (is_container (kind child)
                  && exists (λ gc. is_ip_rule (kind gc)) (children_of (payload child))))
            (children_of (payload dir))))

-- The three nested loops of has_valid_user_anywhere; the innermost looks for one type only.
unfoldable pub has_valid_user_anywhere : Directives → Bool
has_valid_user_anywhere = exists (λ dir.
    is_user_rule (kind dir)
    || (is_container (kind dir)
        && exists
            (λ child.
              is_user_rule (kind child)
              || (is_container (kind child)
                  && exists (λ gc. is_valid_user (kind gc)) (children_of (payload child))))
            (children_of (payload dir))))

-- `env_is_set` is whether lsi_session_get_env answers for a name.
module _ (inet_pton6 : Bytes → Option Bytes) (env_is_set : Bytes → Bool) where
  unfoldable pub any_range_v6 : Bytes → List Bytes → Bool
  any_range_v6 client_v6 [] = false
  any_range_v6 client_v6 (tok ∷ toks) =
      let next = any_range_v6 client_v6 toks in
      elim (cidr_v6_parse inet_pton6 tok) [
        | none ↦ next
        | some cidr ↦ if cidr_v6_match cidr client_v6 then true else next
      ]

  unfoldable pub ip_in_cidr_list_v6 : Bytes → Option Bytes → Bool
  unfolding any_range_v6
  ip_in_cidr_list_v6 client_v6 none = false
  ip_in_cidr_list_v6 client_v6 (some cidr_list) = any_range_v6 client_v6 (tokens is_blank cidr_list)

  unfoldable pub ip_in_cidr_list : Client → Option Bytes → Bool
  unfolding ip_in_cidr_list_v4 ip_in_cidr_list_v6
  ip_in_cidr_list (v4 ip) cidr_list = ip_in_cidr_list_v4 ip cidr_list
  ip_in_cidr_list (v6 a) cidr_list = ip_in_cidr_list_v6 a cidr_list

  unfoldable pub env_grant : Option Bytes → Grant
  env_grant none = deny
  env_grant (some name) = of_bool (env_is_set name)

  module _ (client : Client) (auth_ok : Bool) where
    unfoldable pub eval_single_require : DirectiveType → Option Bytes → Option Bytes → Grant
    unfolding ip_in_cidr_list env_grant
    eval_single_require require_all_granted name value = grant
    eval_single_require require_all_denied name value = deny
    eval_single_require require_ip name value = of_bool (ip_in_cidr_list client value)
    eval_single_require require_not_ip name value = of_bool (not (ip_in_cidr_list client value))
    eval_single_require require_env name value = env_grant name
    eval_single_require require_valid_user name value = if auth_ok then grant else defer
    eval_single_require require_user name value = if auth_ok then grant else defer
    eval_single_require require_group name value = deny
    eval_single_require _ name value = unknown

    -- A child of a container is evaluated by `eval_child`: a container inside a container gives
    -- grant or deny.
    unfoldable mutual
      pub eval_require_any : Directives → Bool
      eval_require_any nil = false
      eval_require_any (cons child ds) =
          let next = eval_require_any ds in if is_grant (eval_child child) then true else next

      pub eval_require_all : Directives → Bool → Bool
      eval_require_all nil recognized = recognized
      eval_require_all (cons child ds) recognized = elim (eval_child child) [
        | grant ↦ eval_require_all ds true
        | deny ↦ false
        | defer ↦ eval_require_all ds recognized
        | unknown ↦ false
      ]

      pub eval_child : Directive → Grant
      eval_child (directive t l n v e p) = elim t [
        | require_any_open ↦ of_bool (eval_any_of p)
        | require_all_open ↦ of_bool (eval_all_of p)
        | t' ↦ eval_single_require t' n v
      ]

      pub eval_any_of : Payload → Bool
      eval_any_of (require_container children) = eval_require_any children
      eval_any_of _ = false

      pub eval_all_of : Payload → Bool
      eval_all_of (require_container children) = eval_require_all children false
      eval_all_of _ = false

    -- The last loop: `granted`, and has_valid_user.
    unfoldable pub evaluate : Bool → Directives → Bool × Bool
    evaluate has_valid_user nil = (false, has_valid_user)
    evaluate has_valid_user (cons dir ds) =
        if is_user_rule (kind dir)
        then (if auth_ok then (true, true) else evaluate true ds)
        else if is_grant (eval_child dir)
        then (true, has_valid_user)
        else evaluate has_valid_user ds

  -- The client's address; an address that no rule needs stays zero.
  unfoldable pub require_client : Bool → Option Bytes → Option Client
  require_client false client_ip = some (v4 0)
  require_client true none = none
  require_client true (some s) =
      if has_char b':' s
      then elim (ip_parse_v6 inet_pton6 s) [ none ↦ none | some a ↦ some (v6 a) ]
      else elim (ip_parse s) [ none ↦ none | some ip ↦ some (v4 ip) ]

  unfoldable pub exec_require : Directives → Option Bytes → Bool → Verdict
  unfolding has_require needs_ip has_valid_user_anywhere require_client evaluate
  exec_require directives client_ip auth_ok =
      if not (has_require directives)
      then lsi_ok
      else elim (require_client (needs_ip directives) client_ip) [
        | none ↦ lsi_error 403
        | some client ↦
            let r = evaluate client auth_ok false directives in
            if r.0
            then lsi_ok
            else if r.1 || has_valid_user_anywhere directives
            then lsi_ok
            else lsi_error 403
      ]
