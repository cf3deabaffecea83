-- ===== src/Parser/Typed.antt =====
-- Every parser of a line in src/htaccess_parser.c yields a directive whose fields fit together.
use litehttpd.Prelude.{
  Bool-cases, Option-cases, inl, inr, ℕ, Bool, true, false, none, some, List, [], ◌∷◌, ◌≡◌, refl,
  arith,
}
use litehttpd.Prelude.Text.{codes, skip_ws, str_caseeq, Bytes}
use litehttpd.Directive.Kind.{DirectiveType}
use litehttpd.Directive.Typed.{
  member_of, no_member, header_ext_member, envif_member, needs_name, needs_value, Yields,
}
use litehttpd.Parser.Fields.{token_value, rest_value, named_rest_if_any}
use litehttpd.Parser.Line.{Handler, handlers, dispatch, parse_line}
use litehttpd.Parser.Scan.{match_kw, next_token}
use litehttpd.Parser.Header.{
  Action, set, unset, Form, plain, removal, edited, action_of, form_of, header_type, with_condition,
  header_rest, header_action, is_condition, header_condition, parse_header,
}
use litehttpd.Parser.Switches.{
  parse_bot_challenge_int, parse_bot_challenge_str, parse_setenvif_typed,
}
use litehttpd.Parser.Yields.{
  parse_php_value-Yields, parse_php_flag-Yields, parse_php_admin_value-Yields,
  parse_php_admin_flag-Yields, parse_setenv-Yields, parse_request_header-Yields,
  parse_cache_enable-Yields, parse_cache_disable-Yields, parse_cache_max_expire-Yields,
  parse_cache_default_expire-Yields, parse_action-Yields, parse_order-Yields,
  parse_allow_from-Yields, parse_deny_from-Yields, parse_redirect-Yields,
  parse_redirect_match-Yields, parse_error_document-Yields, parse_fallback_resource-Yields,
  parse_rate_limit-Yields, parse_sec_rule_engine-Yields, parse_esi_enable-Yields,
  parse_bot_challenge-Yields, parse_bot_challenge_if-Yields, parse_expires_active-Yields,
  parse_expires_by_type-Yields, parse_expires_default-Yields, parse_browser_match-Yields,
  parse_brute_force_protection-Yields, parse_brute_force_attempts-Yields,
  parse_brute_force_window-Yields, parse_brute_force_throttle-Yields,
  parse_brute_force_action-Yields, parse_x_forwarded_for-Yields, parse_options-Yields,
  parse_require-Yields, parse_rewrite_engine-Yields, parse_rewrite_base-Yields,
  parse_rewrite_options-Yields, parse_rewrite_cond-Yields, parse_rewrite_rule-Yields,
  parse_rewrite_map-Yields,
}

-- What a type must have for the form of its action.
abbrev Suits : DirectiveType → Form → Type 0
Suits t plain = member_of t ≡ no_member
Suits t removal = (member_of t ≡ no_member) × (needs_value t ≡ false)
Suits t edited = member_of t ≡ header_ext_member

header_type-Suits : (always : Bool) (a : Action) → Suits (header_type always a) (form_of a)
unfolding header_type form_of member_of needs_value
header_type-Suits false set = refl
header_type-Suits false unset = (refl, refl)
header_type-Suits false _ = refl
header_type-Suits true unset = (refl, refl)
header_type-Suits true _ = refl

with_condition-Yields :
    (t : DirectiveType) (line : ℕ) (name value : Bytes)
    → member_of t ≡ no_member
    → Yields (some (with_condition t line name value))
unfolding with_condition Yields
with_condition-Yields t line name value h = ground arith

header_rest-Yields :
    (t : DirectiveType) (form : Form) (name p : Bytes) (line : ℕ)
    → Suits t form
    → Yields (header_rest t form name p line)
unfolding header_rest Yields
header_rest-Yields t plain name p line h =
    ground (arith, λ (v : Bytes). with_condition-Yields t line name v h)
header_rest-Yields t removal name p line h = rw (h.1) (h.0, tt, tt, tt)
header_rest-Yields t edited name p line h = ground arith

header_action-Yields :
    (always : Bool) (act p : Bytes) (line : ℕ) → Yields (header_action always act p line)
unfolding header_action Yields
header_action-Yields always act p line = elim (Option-cases (action_of act)) [
  | inl e ↦ rw e tt
  | inr (a, e) ↦ elim (Option-cases (next_token p)) [
    | inl d ↦ rw (e, d) tt
    | inr (nq, d) ↦
        rw (e, d) (header_rest-Yields _ (form_of a) nq.0 nq.1 line (header_type-Suits always a))
  ]
]

header_condition-Yields : (act p : Bytes) (line : ℕ) → Yields (header_condition act p line)
unfolding header_condition Yields
header_condition-Yields act p line = elim (Bool-cases (is_condition act)) [
  | inr e ↦ rw e (header_action-Yields false act p line)
  | inl e ↦ elim (Option-cases (next_token p)) [
    | inl d ↦ rw (e, d) tt
    | inr (nq, d) ↦
        rw (e, d) (header_action-Yields (str_caseeq act (codes "always")) nq.0 nq.1 line)
  ]
]

parse_header-Yields : (args : Bytes) (line : ℕ) → Yields (parse_header args line)
unfolding parse_header
parse_header-Yields args line = elim (Option-cases (next_token (skip_ws args))) [
  | inl e ↦ rw e (unfold Yields in tt)
  | inr (nq, e) ↦ rw e (header_condition-Yields nq.0 nq.1 line)
]

-- The parsers that take the type, where nothing but the strings that they set is needed of it.
abbrev IsPlain : DirectiveType → Type 0
IsPlain t = (member_of t ≡ no_member) × (needs_name t ≡ false) × (needs_value t ≡ false)

module _ (t : DirectiveType) (plain : IsPlain t) (args : Bytes) (line : ℕ) where
  token_value-Yields : Yields (token_value t args line)
  unfolding token_value Yields
  token_value-Yields = ground arith

  rest_value-Yields : Yields (rest_value t args line)
  unfolding rest_value Yields
  rest_value-Yields = ground arith

  named_rest_if_any-Yields : Yields (named_rest_if_any t args line)
  unfolding named_rest_if_any Yields
  named_rest_if_any-Yields = ground arith

  parse_bot_challenge_int-Yields : Yields (parse_bot_challenge_int t args line)
  unfolding parse_bot_challenge_int Yields
  parse_bot_challenge_int-Yields = ground arith

parse_setenvif_typed-Yields :
    (t : DirectiveType) (args : Bytes) (line : ℕ)
    → member_of t ≡ envif_member
    → Yields (parse_setenvif_typed t args line)
unfolding parse_setenvif_typed Yields
parse_setenvif_typed-Yields t args line h = ground arith

-- Every parser of a table yields such directives.
infixr 5 ◌▸◌
data AllYield : List (Bytes × Handler) → Type 0 where
  done : AllYield []
  ◌▸◌ :
      {kw : Bytes} {handle : Handler} {others : List (Bytes × Handler)}
      → ((args : Bytes) (line : ℕ) → Yields (handle args line))
      → AllYield others
      → AllYield ((kw, handle) ∷ others)

dispatch-Yields :
    {hs : List (Bytes × Handler)} (p : Bytes) (line : ℕ) → AllYield hs → Yields (dispatch hs p line)
unfolding dispatch Yields
dispatch-Yields p line done = tt
dispatch-Yields p line (◌▸◌ {kw} {handle} {others} first h) =
    let rest = dispatch-Yields p line h in
    elim (match_kw p kw)
      as (λ o. Yields (elim o [ some after ↦ handle after line | none ↦ dispatch others p line ])) [
        | some after ↦ first after line
        | none ↦ rest
      ]

handlers-AllYield : AllYield handlers
unfolding handlers member_of needs_name needs_value parse_bot_challenge_str
handlers-AllYield =
    parse_header-Yields
    ▸ parse_request_header-Yields
    ▸ parse_php_value-Yields
    ▸ parse_php_flag-Yields
    ▸ parse_php_admin_value-Yields
    ▸ parse_php_admin_flag-Yields
    ▸ parse_order-Yields
    ▸ parse_allow_from-Yields
    ▸ parse_deny_from-Yields
    ▸ parse_redirect_match-Yields
    ▸ parse_redirect-Yields
    ▸ parse_error_document-Yields
    ▸ parse_fallback_resource-Yields
    ▸ parse_cache_enable-Yields
    ▸ parse_cache_disable-Yields
    ▸ parse_cache_max_expire-Yields
    ▸ parse_cache_default_expire-Yields
    ▸ parse_rate_limit-Yields
    ▸ parse_sec_rule_engine-Yields
    ▸ parse_esi_enable-Yields
    ▸ parse_bot_challenge-Yields
    ▸ (λ args line.
        parse_bot_challenge_int-Yields DirectiveType.bot_challenge_ttl (refl, refl, refl) args line)
    ▸ (λ args line.
        parse_bot_challenge_int-Yields DirectiveType.bot_challenge_difficulty (refl, refl, refl)
          args line)
    ▸ (λ args line.
        token_value-Yields DirectiveType.bot_challenge_exempt (refl, refl, refl) (skip_ws args)
          line)
    ▸ (λ args line.
        token_value-Yields DirectiveType.bot_challenge_trusted_proxy (refl, refl, refl)
          (skip_ws args) line)
    ▸ (λ args line.
        token_value-Yields DirectiveType.bot_challenge_page (refl, refl, refl) (skip_ws args) line)
    ▸ parse_bot_challenge_if-Yields
    ▸ parse_expires_active-Yields
    ▸ parse_expires_by_type-Yields
    ▸ parse_expires_default-Yields
    ▸ (λ args line. parse_setenvif_typed-Yields _ args line refl)
    ▸ (λ args line. parse_setenvif_typed-Yields _ args line refl)
    ▸ parse_setenv-Yields
    ▸ parse_browser_match-Yields
    ▸ parse_brute_force_protection-Yields
    ▸ parse_brute_force_attempts-Yields
    ▸ parse_brute_force_window-Yields
    ▸ parse_brute_force_action-Yields
    ▸ parse_brute_force_throttle-Yields
    ▸ parse_x_forwarded_for-Yields
    ▸ (λ args line.
        rest_value-Yields DirectiveType.brute_force_whitelist (refl, refl, refl) args line)
    ▸ (λ args line.
        rest_value-Yields DirectiveType.brute_force_trusted_proxy (refl, refl, refl) args line)
    ▸ (λ args line.
        token_value-Yields DirectiveType.brute_force_protect_path (refl, refl, refl) args line)
    ▸ parse_options-Yields
    ▸ parse_require-Yields
    ▸ (λ args line. token_value-Yields DirectiveType.auth_type (refl, refl, refl) args line)
    ▸ (λ args line. rest_value-Yields DirectiveType.auth_name (refl, refl, refl) args line)
    ▸ (λ args line. rest_value-Yields DirectiveType.auth_user_file (refl, refl, refl) args line)
    ▸ (λ args line. named_rest_if_any-Yields DirectiveType.add_handler (refl, refl, refl) args line)
    ▸ (λ args line. rest_value-Yields DirectiveType.set_handler (refl, refl, refl) args line)
    ▸ (λ args line. named_rest_if_any-Yields DirectiveType.add_type (refl, refl, refl) args line)
    ▸ (λ args line. rest_value-Yields DirectiveType.directory_index (refl, refl, refl) args line)
    ▸ (λ args line. token_value-Yields DirectiveType.force_type (refl, refl, refl) args line)
    ▸ (λ args line.
        named_rest_if_any-Yields DirectiveType.add_encoding (refl, refl, refl) args line)
    ▸ (λ args line. named_rest_if_any-Yields DirectiveType.add_charset (refl, refl, refl) args line)
    ▸ (λ args line.
        token_value-Yields DirectiveType.add_default_charset (refl, refl, refl) args line)
    ▸ (λ args line. token_value-Yields DirectiveType.default_type (refl, refl, refl) args line)
    ▸ (λ args line. rest_value-Yields DirectiveType.remove_type (refl, refl, refl) args line)
    ▸ (λ args line. rest_value-Yields DirectiveType.remove_handler (refl, refl, refl) args line)
    ▸ parse_action-Yields
    ▸ (λ args line. token_value-Yields DirectiveType.satisfy (refl, refl, refl) args line)
    ▸ parse_rewrite_engine-Yields
    ▸ parse_rewrite_base-Yields
    ▸ parse_rewrite_cond-Yields
    ▸ parse_rewrite_rule-Yields
    ▸ parse_rewrite_options-Yields
    ▸ parse_rewrite_map-Yields
    ▸ done

pub parse_line-Yields : (p : Bytes) (line : ℕ) → Yields (parse_line p line)
unfolding parse_line
parse_line-Yields p line = dispatch-Yields (skip_ws p) line handlers-AllYield
