-- ===== src/Parser/Tags.antt =====
-- The helpers of src/htaccess_parser.c that recognise the tags of containers.
use litehttpd.Prelude.{
  ℕ, [], ◌∷◌, Bool, true, false, not, ◌&&◌, ◌||◌, Option, none, some, length, drop, ◌==◌,
  if◌then◌else◌, ◌≡◌, refl,
}
use litehttpd.Prelude.Text.{
  Bytes, codes, is_space, is_alpha, skip_ws, at_end, peek, starts_with_nocase,
}
use litehttpd.Prelude.Maybe.{◌>>=◌, ◌>>◌, guard}
use litehttpd.Cidr6.{trim_end}
use litehttpd.Expression.Token.{cut, take_while, drop_while}
use litehttpd.Parser.Scan.{match_kw, unquote, quote}

-- What stands behind `<` at the first byte that is no blank.
unfoldable pub in_tag : Bytes → Option Bytes
unfolding skip_ws
in_tag line = let p = skip_ws line in if peek p == b'<' then some (drop 1 p) else none

-- What stands behind `</`.
unfoldable pub in_close_tag : Bytes → Option Bytes
unfolding in_tag
in_close_tag line = do p ← in_tag line; if peek p == b'/' then some (drop 1 p) else none

-- The word stands at `p` whatever follows; what is behind it.
unfoldable pub behind_word : Bytes → Bytes → Option Bytes
unfolding starts_with_nocase
behind_word p word = if starts_with_nocase p word then some (drop (length word) p) else none

-- After blanks the tag ends.
abbrev pub closes : Bytes → Bool
closes p = peek (skip_ws p) == b'>'

abbrev pub closes_after : Option Bytes → Bool
closes_after none = false
closes_after (some p) = closes p

abbrev is_unclosed : ℕ → Bool
is_unclosed c = not (c == b'>')

abbrev pub is_argument_char : ℕ → Bool
is_argument_char c = not (c == b'>') && not (is_space c)

-- The argument of <FilesMatch>, <Files> and <IfModule>, in quotes or without.
unfoldable pub tag_argument : Bytes → Option Bytes
unfolding cut take_while drop_while skip_ws
tag_argument p =
    if peek p == quote
    then elim (cut quote (drop 1 p)) [
      | none ↦ none
      | some (text, behind) ↦ if closes behind then some text else none
    ]
    else let word = take_while is_argument_char p in
      if not (at_end word) && closes (drop_while is_argument_char p) then some word else none

unfoldable pub is_files_match_open : Bytes → Option Bytes
unfolding in_tag match_kw tag_argument skip_ws
is_files_match_open line = do
  p ← in_tag line
  after ← match_kw p (codes "FilesMatch")
  tag_argument (skip_ws after)

unfoldable pub is_files_match_close : Bytes → Bool
unfolding in_close_tag behind_word skip_ws
is_files_match_close line =
    closes_after (do p ← in_close_tag line; behind_word p (codes "FilesMatch"))

-- The name, with the `!` before it, and whether that stands there.
unfoldable pub is_ifmodule_open : Bytes → Option (Bytes × Bool)
unfolding in_tag match_kw tag_argument skip_ws
is_ifmodule_open line = do
  tag ← in_tag line
  after ← match_kw tag (codes "IfModule")
  let p = skip_ws after
  let neg = peek p == b'!'
  name ← tag_argument (if neg then skip_ws (drop 1 p) else p)
  some (if neg then b'!' ∷ name else name, neg)

unfoldable pub is_ifmodule_close : Bytes → Bool
unfolding in_close_tag behind_word skip_ws
is_ifmodule_close line = closes_after (do p ← in_close_tag line; behind_word p (codes "IfModule"))

-- What stands before the last `>`.
unfoldable pub before_last_close : Bytes → Option Bytes
before_last_close [] = none
before_last_close (c ∷ s) = elim (before_last_close s) [
  | some front ↦ some (c ∷ front)
  | none ↦ if c == b'>' then some [] else none
]

-- The expression of a conditional tag: there is a `>` that is not the first byte.
unfoldable pub tag_expression : Bytes → Option Bytes
unfolding before_last_close trim_end unquote
tag_expression p = do
  front ← before_last_close p
  if at_end front then none else some (unquote (trim_end front))

unfoldable pub is_if_open : Bytes → Option Bytes
unfolding in_tag match_kw tag_expression skip_ws
is_if_open line = do
  p ← in_tag line
  after ← match_kw p (codes "If")
  guard (not (is_alpha (peek after)))
  tag_expression (skip_ws after)

unfoldable pub is_elseif_open : Bytes → Option Bytes
unfolding in_tag match_kw tag_expression skip_ws
is_elseif_open line = do
  p ← in_tag line
  after ← match_kw p (codes "ElseIf")
  tag_expression (skip_ws after)

-- No letter follows the word.
abbrev word_ends : Option Bytes → Bool
word_ends none = false
word_ends (some p) = not (is_alpha (peek p)) && closes p

unfoldable pub is_else_open : Bytes → Bool
unfolding in_tag behind_word skip_ws
is_else_open line = word_ends (do p ← in_tag line; behind_word p (codes "Else"))

unfoldable pub is_if_close : Bytes → Bool
unfolding in_close_tag behind_word skip_ws
is_if_close line = closes_after (do p ← in_close_tag line; behind_word p (codes "If"))

unfoldable pub is_elseif_close : Bytes → Bool
unfolding in_close_tag behind_word skip_ws
is_elseif_close line = closes_after (do p ← in_close_tag line; behind_word p (codes "ElseIf"))

unfoldable pub is_else_close : Bytes → Bool
unfolding in_close_tag behind_word skip_ws
is_else_close line = word_ends (do p ← in_close_tag line; behind_word p (codes "Else"))

unfoldable pub is_files_open : Bytes → Option Bytes
unfolding in_tag match_kw tag_argument skip_ws starts_with_nocase
is_files_open line = do
  p ← in_tag line
  after ← match_kw p (codes "Files")
  guard (not (starts_with_nocase p (codes "FilesMatch")))
  tag_argument (skip_ws after)

abbrev files_ends : Option Bytes → Bool
files_ends none = false
files_ends (some p) = (at_end p || peek p == b'>' || is_space (peek p)) && closes p

unfoldable pub is_files_close : Bytes → Bool
unfolding in_close_tag behind_word skip_ws
is_files_close line = files_ends (do p ← in_close_tag line; behind_word p (codes "Files"))

-- Blanks may stand behind `<`.
unfoldable pub is_require_any_open : Bytes → Bool
unfolding in_tag behind_word skip_ws
is_require_any_open line =
    closes_after (do p ← in_tag line; behind_word (skip_ws p) (codes "RequireAny"))

unfoldable pub is_require_any_close : Bytes → Bool
unfolding in_close_tag behind_word skip_ws
is_require_any_close line =
    closes_after (do p ← in_close_tag line; behind_word p (codes "RequireAny"))

unfoldable pub is_require_all_open : Bytes → Bool
unfolding in_tag behind_word skip_ws
is_require_all_open line =
    closes_after (do p ← in_tag line; behind_word (skip_ws p) (codes "RequireAll"))

unfoldable pub is_require_all_close : Bytes → Bool
unfolding in_close_tag behind_word skip_ws
is_require_all_close line =
    closes_after (do p ← in_close_tag line; behind_word p (codes "RequireAll"))

-- The methods: what stands before the `>`, without the blanks around it.
unfoldable pub methods_of : Bytes → Option Bytes
unfolding cut trim_end skip_ws
methods_of p = do
  guard (is_space (peek p))
  (before, behind) ← cut b'>' (skip_ws p)
  let methods = trim_end before
  if at_end methods then none else some methods

unfoldable pub is_limit_open : Bytes → Option Bytes
unfolding in_tag behind_word methods_of skip_ws starts_with_nocase
is_limit_open line = do
  tag ← in_tag line
  let p = skip_ws tag
  guard (not (starts_with_nocase p (codes "LimitExcept")))
  behind ← behind_word p (codes "Limit")
  methods_of behind

unfoldable pub is_limit_close : Bytes → Bool
unfolding in_close_tag behind_word skip_ws starts_with_nocase
is_limit_close line = closes_after (do
  p ← in_close_tag line
  guard (not (starts_with_nocase p (codes "LimitExcept")))
  behind_word p (codes "Limit"))

unfoldable pub is_limit_except_open : Bytes → Option Bytes
unfolding in_tag behind_word methods_of skip_ws
is_limit_except_open line = do
  p ← in_tag line
  behind ← behind_word (skip_ws p) (codes "LimitExcept")
  methods_of behind

unfoldable pub is_limit_except_close : Bytes → Bool
unfolding in_close_tag behind_word skip_ws
is_limit_except_close line =
    closes_after (do p ← in_close_tag line; behind_word p (codes "LimitExcept"))

is_ifmodule_open_runs :
    is_ifmodule_open (codes "<ifmodule ! \"mod_php.c\" >") ≡ some (codes "!mod_php.c", true)
unfolding is_ifmodule_open
is_ifmodule_open_runs = refl
