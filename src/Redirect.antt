-- ===== src/Redirect.antt =====
-- src/htaccess_exec_redirect.c, Redirect and RedirectMatch. The regular expressions of
-- src/htaccess_regex.c, which stand on PCRE2, are a parameter.
pub mod Safety
use litehttpd.Prelude.{
  ℕ, zero, suc, ◌+◌, ◌-◌, Bool, true, false, not, ◌&&◌, ◌||◌, Option, none, some, List, [], ◌∷◌,
  ◌++◌, ltb, leb, ◌==◌, if◌then◌else◌, length, take, drop, get_or,
}
use litehttpd.Prelude.Text.{Bytes, at_end, peek, starts_with, has_char, is_digit}
use litehttpd.Prelude.Maybe.{◌>>=◌, ◌>>◌, guard}
use litehttpd.Directive.{
  Directive, directive, Payload, redirect, kind, name, value, payload, pattern_of,
}
use litehttpd.Directive.Kind.{DirectiveType}
use litehttpd.Expression.Token.{cut, take_while, drop_while}
use litehttpd.Expression.Eval.{MatchResult, htre_match, htre_nomatch, htre_hit_limit, htre_error}

-- What an executor does: it answers -1, or 0, or it ends the request with 410 or a redirection.
pub data Outcome : Type 0 where
  failed : Outcome
  passed : Outcome
  gone : Outcome
  redirected : ℕ → Bytes → Outcome

abbrev pub max_url_len : ℕ
max_url_len = 4096

abbrev pub status_code_of : Payload → ℕ
status_code_of (redirect status pattern) = status
status_code_of _ = 0

-- matches[idx]: where the group starts and ends, if it took part.
abbrev pub Matches : Type 0
Matches = List (Option (ℕ × ℕ))

abbrev pub group_text : Bytes → Option (ℕ × ℕ) → Bytes
group_text uri none = []
group_text uri (some (so, eo)) = take (eo - so) (drop so uri)

-- The loop over the template, when `pos` bytes are written.
unfoldable pub substitute_from : Bytes → Matches → ℕ → ℕ → Bytes → Option Bytes
substitute_from uri matches out_size pos [] = some []
substitute_from uri matches out_size pos (c ∷ []) =
    if leb (out_size - 1) pos then some [] else some (c ∷ [])
substitute_from uri matches out_size pos (c ∷ d ∷ s) = elim (leb (out_size - 1) pos) [
  | true ↦ some []
  | false ↦ elim (c == b'$' && is_digit d) [
    | false ↦ do rest ← substitute_from uri matches out_size (pos + 1) (d ∷ s); some (c ∷ rest)
    | true ↦ do
      guard (not (leb out_size (pos + length (group_text uri (get_or matches (d - b'0') none)))))
      rest ←
          substitute_from uri matches out_size
            (pos + length (group_text uri (get_or matches (d - b'0') none))) s
      some (group_text uri (get_or matches (d - b'0') none) ++ rest)
  ]
]

unfoldable pub substitute_backrefs : Bytes → Bytes → Matches → ℕ → Option Bytes
unfolding substitute_from
substitute_backrefs tmpl uri matches out_size = substitute_from uri matches out_size 0 tmpl

-- A URL that holds CR or LF is not sent.
abbrev pub send : ℕ → Bytes → Outcome
send status url = if has_char 13 url || has_char 10 url then failed else redirected status url

-- The buffer of exec_redirect, which snprintf must not cut.
abbrev pub send_fitting : ℕ → Bytes → Outcome
send_fitting status url = if leb max_url_len (length url) then failed else send status url

-- memcmp of the prefix, and a segment that ends behind it.
unfoldable pub has_prefix : Bytes → Bytes → Bool
unfolding starts_with
has_prefix uri prefix =
    let rest = drop (length prefix) uri in
    starts_with uri prefix && (at_end rest || peek rest == b'/' || peek rest == b'?')

abbrev pub is_not_mark : ℕ → ℕ → Bool
is_not_mark mark c = not (c == mark)

-- The tail stands in front of the query of the target, else of its fragment.
unfoldable pub with_tail : Bytes → Bytes → Bytes
unfolding has_char take_while drop_while
with_tail target tail =
    let mark = if has_char b'?' target then b'?' else b'#' in
    if at_end tail
    then target
    else take_while (is_not_mark mark) target ++ (tail ++ drop_while (is_not_mark mark) target)

abbrev pub status_or_found : ℕ → ℕ
status_or_found status = if status == 0 then 302 else status

abbrev pub is_redirect : DirectiveType → Bool
is_redirect DirectiveType.redirect = true
is_redirect _ = false

abbrev pub is_redirect_match : DirectiveType → Bool
is_redirect_match DirectiveType.redirect_match = true
is_redirect_match _ = false

-- The target is there unless the status is 410.
abbrev pub redirect_to : ℕ → Option Bytes → Bytes → Bytes → Outcome
redirect_to status target uri prefix = if status == 410 then gone else elim target [
  | none ↦ failed
  | some url ↦ send_fitting (status_or_found status) (with_tail url (drop (length prefix) uri))
]

abbrev pub lacks_target : ℕ → Option Bytes → Bool
lacks_target status none = not (status == 410)
lacks_target status (some url) = false

abbrev pub redirect_uri : ℕ → Option Bytes → Bytes → Option Bytes → Outcome
redirect_uri status target prefix none = passed
redirect_uri status target prefix (some uri) =
    if at_end uri || not (has_prefix uri prefix)
    then passed
    else redirect_to status target uri prefix

-- The second argument is what lsi_session_get_uri answers.
unfoldable pub exec_redirect : Directive → Option Bytes → Outcome
unfolding has_prefix with_tail
exec_redirect dir uri =
    let status = status_code_of (payload dir) in
    elim (name dir) [
      | none ↦ failed
      | some prefix ↦
          if not (is_redirect (kind dir)) || lacks_target status (value dir)
          then failed
          else redirect_uri status (value dir) prefix uri
    ]

-- What follows a match.
abbrev pub follow : ℕ → Option Bytes → Bytes → Matches → Outcome
follow status target uri matches = if status == 410 then gone else elim target [
  | none ↦ failed
  | some tmpl ↦ elim (substitute_backrefs tmpl uri matches max_url_len) [
    | none ↦ failed
    | some url ↦ send (status_or_found status) url
  ]
]

abbrev pub by_match : ℕ → Option Bytes → Bytes → Option (MatchResult × Matches) → Outcome
by_match status target uri none = failed
by_match status target uri (some (htre_match, matches)) = follow status target uri matches
by_match status target uri (some (htre_nomatch, matches)) = passed
by_match status target uri (some (htre_hit_limit, matches)) = passed
by_match status target uri (some (htre_error, matches)) = passed

-- The parameter `htre` answers for a pattern and a subject; `none` is a pattern that does not
-- compile.
module _ (htre : Bytes → Bytes → Option (MatchResult × Matches)) where
  abbrev pub match_uri : ℕ → Option Bytes → Bytes → Option Bytes → Outcome
  match_uri status target pattern none = passed
  match_uri status target pattern (some uri) =
      if at_end uri then passed else by_match status target uri (htre pattern uri)

  unfoldable pub exec_redirect_match : Directive → Option Bytes → Outcome
  unfolding substitute_backrefs
  exec_redirect_match dir uri =
      let status = status_code_of (payload dir) in
      elim (pattern_of (payload dir)) [
        | none ↦ failed
        | some pattern ↦
            if not (is_redirect_match (kind dir))
              || lacks_target status (value dir)
              || ltb 512 (length pattern)
            then failed
            else match_uri status (value dir) pattern uri
      ]
