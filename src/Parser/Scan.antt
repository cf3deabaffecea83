-- ===== src/Parser/Scan.antt =====
-- The helpers at the head of src/htaccess_parser.c. A pointer into a line is what stands there, and
-- a function that advances `*pp` returns what is left beside its result.
use litehttpd.Prelude.{
  ℕ, ◌%◌, ◌^◌, min, [], ◌∷◌, Bool, false, not, ◌&&◌, Option, none, some, length, drop, ltb, leb,
  ◌==◌, if◌then◌else◌, ◌≡◌, refl,
}
use litehttpd.Prelude.Text.{
  Bytes, codes, is_space, skip_ws, at_end, peek, is_digit, is_minus, skip_sign, digits_value,
  digits_rest, starts_with_nocase, long_max,
}
use litehttpd.Cidr6.{trim_end}
use litehttpd.Expression.Token.{take_while, drop_while}
use litehttpd.Expression.Parse.{last_char, drop_last}

abbrev pub quote : ℕ
quote = 34

-- The keyword stands at `p` and a blank or the end follows; what is left behind it.
unfoldable pub match_kw : Bytes → Bytes → Option Bytes
unfolding starts_with_nocase
match_kw p kw =
    let rest = drop (length kw) p in
    if not (starts_with_nocase p kw)
    then none
    else if not (at_end rest) && not (is_space (peek rest))
    then none
    else some rest

abbrev pub is_word : ℕ → Bool
is_word c = not (is_space c)

abbrev pub is_unquoted : ℕ → Bool
is_unquoted c = not (c == quote)

-- The token that starts at a byte that is no blank; a quote is read up to the next one.
unfoldable pub token_at : Bytes → Option (Bytes × Bytes)
unfolding take_while drop_while
token_at [] = none
token_at (c ∷ s) =
    if c == quote
    then some (take_while is_unquoted s, drop 1 (drop_while is_unquoted s))
    else some (take_while is_word (c ∷ s), drop_while is_word (c ∷ s))

unfoldable pub next_token : Bytes → Option (Bytes × Bytes)
unfolding token_at skip_ws
next_token pp = token_at (skip_ws pp)

abbrev pub is_quoted : Bytes → Bool
is_quoted s = leb 2 (length s) && peek s == quote && last_char s == quote

-- Quotes around the text are dropped.
unfoldable pub unquote : Bytes → Bytes
unfolding last_char drop_last
unquote s = if is_quoted s then drop_last (drop 1 s) else s

unfoldable pub rest_of_line_raw : Bytes → Option Bytes
unfolding trim_end skip_ws
rest_of_line_raw pp = let s = trim_end (skip_ws pp) in if at_end s then none else some s

unfoldable pub rest_of_line : Bytes → Option Bytes
unfolding trim_end skip_ws unquote
rest_of_line pp = let s = trim_end (skip_ws pp) in if at_end s then none else some (unquote s)

-- What strtol makes of a text: the sign, the magnitude, and whether all of it was read.
pub record Long : Type 0 where
  pub negative : Bool
  pub magnitude : ℕ
  pub complete : Bool

unfoldable pub to_long : Bytes → Long
unfolding skip_ws digits_value digits_rest
to_long s =
    let t = skip_sign (skip_ws s) in
    if is_digit (peek t)
    then record {
      negative = is_minus (skip_ws s);
      magnitude = digits_value 0 t;
      complete = at_end (digits_rest t);
    }
    else record { negative = false; magnitude = 0; complete = at_end s }

-- A status code from 100 to 599.
unfoldable pub status_of : Bytes → Option ℕ
unfolding to_long
status_of s =
    let v = to_long s in
    if v.complete && not v.negative && leb 100 v.magnitude && leb v.magnitude 599
    then some v.magnitude
    else none

-- (int) of a positive long: the low 32 bits, of which 2 ^ 31 and above stand for negative numbers.
unfoldable pub positive_int : Bytes → Option ℕ
unfolding to_long
positive_int s =
    let v = to_long s in
    if v.complete && not v.negative && ltb 0 v.magnitude
    then some (min long_max v.magnitude % 2 ^ 32)
    else none

match_kw_runs : match_kw (codes "header set") (codes "Header") ≡ some (codes " set")
unfolding match_kw
match_kw_runs = refl

next_token_runs : next_token (codes "  \"a b\" c") ≡ some (codes "a b", codes " c")
unfolding next_token
next_token_runs = refl

status_of_runs : status_of (codes "+410") ≡ some 410
unfolding status_of
status_of_runs = refl
