-- ===== src/Parser/Words.antt =====
-- How src/htaccess_parser.c reads the value of a directive from its printed line: a word by
-- next_token, the rest of the line by rest_of_line, and the whole line as no tag.
use litehttpd.Prelude.{ℕ, [], ◌∷◌, ◌++◌, Bool, true, false, not, ◌&&◌, some, ◌==◌, ◌≡◌, refl, arith}
use litehttpd.Prelude.Text.{Bytes, is_alpha, is_space, skip_ws, peek, at_end}
use litehttpd.Cidr6.{trim_end}
use litehttpd.Expression.Token.{take_while, drop_while}
use litehttpd.Parser.Scan.{quote, is_word, token_at, next_token, unquote, rest_of_line}
use litehttpd.Parser.Lines.{is_line, IsTrimmed, IsLeafLine, trim_end-append}

-- The bytes of a word: no blank and no NUL.
unfoldable pub is_word_text : Bytes → Bool
is_word_text [] = true
is_word_text (c ∷ s) = is_word c && not (c == 0) && is_word_text s

-- A word that is not empty and starts with no quote.
pub record Word (s : Bytes) : Type 0 where
  pub chars : is_word_text s ≡ true
  pub nonempty : at_end s ≡ false
  pub unquoted : (peek s == quote) ≡ false

-- A text that fits on a line, without blanks around it and not starting with a quote.
pub record Phrase (s : Bytes) : Type 0 where
  pub line : is_line s ≡ true
  pub trimmed : IsTrimmed s
  pub unquoted : (peek s == quote) ≡ false

take_while-word : (s : Bytes) → is_word_text s ≡ true → take_while is_word s ≡ s
unfolding take_while is_word_text
take_while-word [] h = refl
take_while-word (c ∷ s) h = ground (arith, take_while-word s)

drop_while-word : (s : Bytes) → is_word_text s ≡ true → drop_while is_word s ≡ []
unfolding drop_while is_word_text
drop_while-word [] h = refl
drop_while-word (c ∷ s) h = ground (arith, drop_while-word s)

is_space-word : (c : ℕ) (s : Bytes) → is_word_text (c ∷ s) ≡ true → is_space c ≡ false
unfolding is_word_text
is_space-word c s h = ground arith

pub next_token-Word : (s : Bytes) → Word s → next_token (32 ∷ s) ≡ some (s, [])
unfolding next_token token_at skip_ws
next_token-Word [] w = cc (w.nonempty)
next_token-Word (c ∷ s) w =
    rw
      (
        is_space-word c s w.chars,
        w.unquoted,
        take_while-word (c ∷ s) w.chars,
        drop_while-word (c ∷ s) w.chars,
      )
      refl

-- The same where the blank is skipped before.
pub next_token-skip_ws : (s : Bytes) → Word s → next_token (skip_ws s) ≡ some (s, [])
unfolding skip_ws
next_token-skip_ws [] w = cc (w.nonempty)
next_token-skip_ws (c ∷ s) w = rw (is_space-word c s w.chars) (shown c s w)
  where
    shown : (c : ℕ) (s : Bytes) → Word (c ∷ s) → next_token (c ∷ s) ≡ some (c ∷ s, [])
    shown c s w =
        unfold next_token token_at in
        rw
          (
            is_space-word c s w.chars,
            w.unquoted,
            take_while-word (c ∷ s) w.chars,
            drop_while-word (c ∷ s) w.chars,
          )
          refl

unquote-phrase : (s : Bytes) → (peek s == quote) ≡ false → unquote s ≡ s
unfolding unquote
unquote-phrase s h = ground arith

pub rest_of_line-Phrase : (s : Bytes) → Phrase s → rest_of_line (32 ∷ s) ≡ some s
unfolding rest_of_line skip_ws
rest_of_line-Phrase s h =
    rw (h.trimmed.1, h.trimmed.0, h.trimmed.2, unquote-phrase s h.unquoted) refl

-- A keyword starts with a letter.
unfoldable pub is_keyword : Bytes → Bool
unfolding is_line
is_keyword [] = false
is_keyword (c ∷ s) = is_alpha c && is_line (c ∷ s)

-- What stands behind the keyword.
pub trim_end-word : (s : Bytes) → is_word_text s ≡ true → trim_end s ≡ s
unfolding trim_end is_word_text
trim_end-word [] h = refl
trim_end-word (c ∷ s) h = ground (arith, trim_end-word s)

pub is_line-word : (s : Bytes) → is_word_text s ≡ true → is_line s ≡ true
unfolding is_line is_word_text
is_line-word [] h = refl
is_line-word (c ∷ s) h = ground (arith, is_line-word s)

is_line-append : (s t : Bytes) → is_line s ≡ true → is_line t ≡ true → is_line (s ++ t) ≡ true
unfolding is_line
is_line-append [] t h e = e
is_line-append (c ∷ s) t h e = ground (arith, is_line-append s t)

pub is_line-keyword :
    (kw v : Bytes) → is_keyword kw ≡ true → is_line v ≡ true → is_line (kw ++ (32 ∷ v)) ≡ true
unfolding is_keyword
is_line-keyword [] v h e = ground arith
is_line-keyword (c ∷ s) v h e = is_line-append (c ∷ s) (32 ∷ v) (ground arith) e

trim_end-blank : (v : Bytes) → trim_end v ≡ v → at_end v ≡ false → trim_end (32 ∷ v) ≡ 32 ∷ v
unfolding trim_end
trim_end-blank v t e = rw (t, e) refl

pub keyword-IsLeafLine :
    (kw v : Bytes)
    → is_keyword kw ≡ true
    → trim_end v ≡ v
    → at_end v ≡ false
    → IsLeafLine (kw ++ (32 ∷ v))
unfolding is_keyword
keyword-IsLeafLine [] v h t e = ground arith
keyword-IsLeafLine (c ∷ s) v h t e = (
  (
    trim_end-append (c ∷ s) (32 ∷ v) (trim_end-blank v t e) refl,
    unfold skip_ws in ground (arith, h),
    refl,
  ),
  ground (arith, h),
  ground (arith, h),
)
