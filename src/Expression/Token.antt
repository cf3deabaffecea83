-- ===== src/Expression/Token.antt =====
-- The tokenizer of src/htaccess_expr.c. `last_type` is the type of the current token when tok_next
-- starts, which the model passes on. The input ends where the source's `end` points: behind it
-- stands a quote, a space or the final NUL, which is part of no keyword that strncmp could find
-- across it.
use litehttpd.Prelude.{
  ℕ, Bool, true, false, not, ◌&&◌, ◌||◌, Option, none, some, [], ◌∷◌, ◌++◌, ◌==◌, if◌then◌else◌,
  length, drop,
}
use litehttpd.Prelude.Text.{
  Bytes, codes, is_space, is_alpha, is_digit, skip_ws, at_end, peek, str_eq, starts_with,
}

-- token_type_t
pub data TokenType : Type 0 where
  tok_eof : TokenType
  tok_string tok_var tok_regex tok_integer : TokenType
  tok_and tok_or tok_not : TokenType
  tok_eq tok_ne tok_lt tok_gt tok_le tok_ge tok_regex_match tok_regex_nomatch : TokenType
  tok_int_eq tok_int_ne tok_int_lt tok_int_le tok_int_gt tok_int_ge : TokenType
  tok_file_f tok_file_d tok_file_s tok_file_l tok_file_e : TokenType
  tok_ipmatch : TokenType
  tok_lparen tok_rparen : TokenType
  tok_func_tolower tok_func_toupper : TokenType
  tok_error : TokenType

-- token_t; no value is the empty one, which no code reads.
abbrev pub Token : Type 0
Token = TokenType × Bytes

-- tokenizer_t
pub record Tokenizer : Type 0 where
  pub input : Bytes
  pub current : Token
  pub error : Bool
  pub depth : ℕ

unfoldable pub is_word_char : ℕ → Bool
is_word_char c =
    not (c == 0)
    && not (is_space c)
    && not (c == b'(')
    && not (c == b')')
    && not (c == b'!')
    && not (c == b'=')
    && not (c == b'<')
    && not (c == b'>')
    && not (c == b'&')
    && not (c == b'|')
    && not (c == 39)
    && not (c == 34)

abbrev pub or_else : Option (Token × Bytes) → Option (Token × Bytes) → Option (Token × Bytes)
or_else (some a) b = some a
or_else none b = b

abbrev pub emit : Option TokenType → Bytes → Option (Token × Bytes)
emit none rest = none
emit (some type) rest = some ((type, []), rest)

-- The operators of two characters.
unfoldable pub two_chars : ℕ → ℕ → Option TokenType
two_chars c d =
    if c == b'&' && d == b'&'
    then some tok_and
    else if c == b'|' && d == b'|'
    then some tok_or
    else if c == b'=' && d == b'='
    then some tok_eq
    else if c == b'=' && d == b'~'
    then some tok_regex_match
    else if c == b'!' && d == b'='
    then some tok_ne
    else if c == b'!' && d == b'~'
    then some tok_regex_nomatch
    else if c == b'<' && d == b'='
    then some tok_le
    else if c == b'>' && d == b'='
    then some tok_ge
    else none

unfoldable pub one_char : ℕ → Option TokenType
one_char c =
    if c == b'!'
    then some tok_not
    else if c == b'<'
    then some tok_lt
    else if c == b'>'
    then some tok_gt
    else none

unfoldable pub parenthesis : ℕ → Option TokenType
parenthesis c = if c == b'(' then some tok_lparen else if c == b')' then some tok_rparen else none

-- memchr: what stands before and behind the first `c`.
unfoldable pub cut : ℕ → Bytes → Option (Bytes × Bytes)
cut c [] = none
cut c (a ∷ s) =
    let later = cut c s in
    if a == c
    then some ([], s)
    else elim later [ none ↦ none | some (before, rest) ↦ some (a ∷ before, rest) ]

unfoldable pub variable : ℕ → Bytes → Option (Token × Bytes)
unfolding cut
variable c s =
    if c == b'%' && peek s == b'{'
    then elim (cut b'}' (drop 1 s)) [
      | none ↦ none
      | some (name, rest) ↦ some ((tok_var, b'%' ∷ b'{' ∷ (name ++ (b'}' ∷ []))), rest)
    ]
    else none

-- A quote that is not closed reaches to the end.
unfoldable pub quoted : ℕ → Bytes → Option (Token × Bytes)
unfolding cut
quoted c s =
    if c == 39 || c == 34
    then elim (cut c s) [
      | none ↦ some ((tok_string, s), [])
      | some (text, rest) ↦ some ((tok_string, text), rest)
    ]
    else none

-- The loop that looks for the closing slash; `escaped` tells of a backslash before it.
unfoldable pub cut_regex : Bool → Bytes → Option (Bytes × Bytes)
cut_regex escaped [] = none
cut_regex escaped (a ∷ s) =
    let later = cut_regex (a == 92) s in
    if a == b'/' && not escaped
    then some ([], s)
    else elim later [ none ↦ none | some (before, rest) ↦ some (a ∷ before, rest) ]

abbrev pub is_regex_operator : TokenType → Bool
is_regex_operator tok_regex_match = true
is_regex_operator tok_regex_nomatch = true
is_regex_operator _ = false

unfoldable pub regex : TokenType → ℕ → Bytes → Option (Token × Bytes)
unfolding cut_regex
regex last c s =
    if c == b'/' && is_regex_operator last
    then elim (cut_regex false s) [
      | none ↦ none
      | some (pattern, rest) ↦
          some ((tok_regex, pattern), if peek rest == b'i' then drop 1 rest else rest)
    ]
    else none

-- What stands at the front and passes the test, and what follows.
unfoldable pub take_while : (ℕ → Bool) → Bytes → Bytes
take_while p [] = []
take_while p (c ∷ s) = let rest = take_while p s in if p c then c ∷ rest else []

unfoldable pub drop_while : (ℕ → Bool) → Bytes → Bytes
drop_while p [] = []
drop_while p (c ∷ s) = let rest = drop_while p s in if p c then rest else c ∷ s

unfoldable pub keyword_token : Bytes → Option TokenType
unfolding str_eq
keyword_token kw =
    if str_eq kw (codes "f")
    then some tok_file_f
    else if str_eq kw (codes "d")
    then some tok_file_d
    else if str_eq kw (codes "s")
    then some tok_file_s
    else if str_eq kw (codes "l")
    then some tok_file_l
    else if str_eq kw (codes "e")
    then some tok_file_e
    else if str_eq kw (codes "R")
    then some tok_ipmatch
    else if str_eq kw (codes "eq")
    then some tok_int_eq
    else if str_eq kw (codes "ne")
    then some tok_int_ne
    else if str_eq kw (codes "lt")
    then some tok_int_lt
    else if str_eq kw (codes "le")
    then some tok_int_le
    else if str_eq kw (codes "gt")
    then some tok_int_gt
    else if str_eq kw (codes "ge")
    then some tok_int_ge
    else if str_eq kw (codes "ipmatch")
    then some tok_ipmatch
    else none

abbrev pub is_keyword_char : ℕ → Bool
is_keyword_char c = is_alpha c || c == b'_'

-- A dash and a keyword, which no character of a word follows but another dash.
unfoldable pub keyword : ℕ → Bytes → Option (Token × Bytes)
unfolding take_while drop_while keyword_token is_word_char
keyword c s =
    let rest = drop_while is_keyword_char s in
    let next = peek rest in
    if c == b'-' && is_alpha (peek s) && not (is_word_char next && not (next == b'-'))
    then emit (keyword_token (take_while is_keyword_char s)) rest
    else none

-- The word stands at `p`, and no letter follows it.
unfoldable pub has_word : Bytes → Bytes → Bool
unfolding starts_with
has_word text p = starts_with p text && not (is_alpha (peek (drop (length text) p)))

unfoldable pub all_digits : Bytes → Bool
all_digits [] = true
all_digits (c ∷ s) = is_digit c && all_digits s

-- A sign and digits; a sign alone is none, an empty word does not occur.
unfoldable pub is_integer : Bytes → Bool
unfolding all_digits
is_integer word =
    let check = if peek word == b'-' || peek word == b'+' then drop 1 word else word in
    not (at_end check) && all_digits check

unfoldable pub plain_word : ℕ → Bytes → Option (Token × Bytes)
unfolding has_word take_while drop_while is_integer is_word_char
plain_word c s =
    let p = c ∷ s in
    let word = take_while is_word_char p in
    let type = if is_integer word then tok_integer else tok_string in
    if not (is_word_char c || (c == b'-' && not (at_end s)))
    then none
    else if has_word (codes "tolower") p
    then some ((tok_func_tolower, []), drop 7 p)
    else if has_word (codes "toupper") p
    then some ((tok_func_toupper, []), drop 7 p)
    else if has_word (codes "true") p
    then some ((tok_string, codes "true"), drop 4 p)
    else if has_word (codes "false") p
    then some ((tok_string, codes "false"), drop 5 p)
    else some ((type, word), drop_while is_word_char p)

-- The token at a character that is no space, and what stands behind it.
unfoldable pub scan_token : TokenType → ℕ → Bytes → Token × Bytes
unfolding two_chars one_char parenthesis variable quoted regex keyword plain_word
scan_token last c s =
    elim (or_else (emit (parenthesis c) s) (
      or_else (emit (two_chars c (peek s)) (drop 1 s)) (
        or_else (emit (one_char c) s) (
          or_else (variable c s) (
            or_else (quoted c s)
              (or_else (regex last c s) (or_else (keyword c s) (plain_word c s)))))))) [
                | some found ↦ found
                | none ↦ ((tok_error, []), s)
              ]

abbrev pub is_error : TokenType → Bool
is_error tok_error = true
is_error _ = false

abbrev pub scan_at : TokenType → Bytes → Token × Bytes
scan_at last [] = ((tok_eof, []), [])
scan_at last (c ∷ s) = scan_token last c s

unfoldable pub tok_next : Tokenizer → Tokenizer
unfolding scan_token skip_ws
tok_next t =
    let (token, rest) = scan_at t.current.0 (skip_ws t.input) in
    record { input = rest; current = token; error = t.error || is_error token.0; depth = t.depth }

unfoldable pub tok_init : Bytes → Tokenizer
unfolding tok_next
tok_init input =
    tok_next (record { input = input; current = (tok_eof, []); error = false; depth = 0 })
