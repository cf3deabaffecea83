-- ===== src/Parser/Guards.antt =====
-- parse_require of src/htaccess_parser.c.
use litehttpd.Prelude.{ℕ, Option, none, some, if◌then◌else◌}
use litehttpd.Prelude.Text.{Bytes, codes, skip_ws}
use litehttpd.Prelude.Maybe.{◌>>=◌}
use litehttpd.Directive.{Directive}
use litehttpd.Directive.Kind.{
  require_all_granted, require_all_denied, require_ip, require_not_ip, require_valid_user,
  require_user, require_env, require_group,
}
use litehttpd.Parser.Scan.{match_kw, rest_of_line}
use litehttpd.Parser.Fields.{with_fields, alloc_directive, rest_value, token_name}
use litehttpd.Parser.Values.{match_word}

-- The first keyword that stands at `p` decides with what is behind it, and `otherwise` if none
-- does.
abbrev pub on_keyword {ℓ} : {A : Type ℓ} → Option Bytes → (Bytes → A) → A → A
on_keyword (some after) handle otherwise = handle after
on_keyword none handle otherwise = otherwise

unfoldable pub require_all : ℕ → Bytes → Option Directive
require_all line after =
    let sub = skip_ws after in
    if match_word sub (codes "granted")
    then some (alloc_directive require_all_granted line)
    else if match_word sub (codes "denied")
    then some (alloc_directive require_all_denied line)
    else none

unfoldable pub require_not : ℕ → Bytes → Option Directive
unfolding rest_value
require_not line after = do
  behind ← match_kw (skip_ws after) (codes "ip")
  rest_value require_not_ip behind line

-- What is not supported is kept as a directive that never grants.
unfoldable pub require_other : ℕ → Bytes → Option Directive
require_other line p = some (with_fields require_group line none (rest_of_line p))

unfoldable pub parse_require : Bytes → ℕ → Option Directive
unfolding require_all require_not rest_value token_name require_other
parse_require args line =
    let p = skip_ws args in
    on_keyword (match_kw p (codes "all")) (require_all line) (
      on_keyword (match_kw p (codes "not")) (require_not line) (
        on_keyword (match_kw p (codes "ip")) (λ after. rest_value require_ip after line)
          (on_keyword (match_kw p (codes "valid-user"))
            (λ after. some (alloc_directive require_valid_user line))
            (on_keyword (match_kw p (codes "user")) (λ after. rest_value require_user after line)
              (on_keyword (match_kw p (codes "env")) (λ after. token_name require_env after line)
                (require_other line p))))))
