-- ===== src/Parser/ModuleTag.antt =====
-- The open tag of an <IfModule> block, as src/htaccess_printer.c writes it and
-- src/htaccess_parser.c reads it.
use litehttpd.Prelude.{ℕ, [], ◌∷◌, ◌++◌, Bool, true, false, not, ◌&&◌, some, ◌==◌, ◌≡◌, refl, arith}
use litehttpd.Prelude.Text.{Bytes, codes, is_space, skip_ws, has_char, starts_with_nocase}
use litehttpd.Cidr6.{trim_end}
use litehttpd.Expression.Token.{take_while, drop_while}
use litehttpd.Parser.Scan.{match_kw, quote}
use litehttpd.Parser.Tags.{
  in_tag, in_close_tag, tag_argument, is_argument_char, is_ifmodule_open, is_ifmodule_close,
}
use litehttpd.Parser.Lines.{is_line, IsTrimmed, trim_end-append}

-- The bytes of a module's name: no blank, no `>` and no NUL.
unfoldable pub is_name : Bytes → Bool
is_name [] = true
is_name (c ∷ s) = is_argument_char c && not (c == 0) && is_name s

-- A name, without or with a `!` before it.
pub data ModuleName : Bool → Bytes → Type 0 where
  plain :
      (c : ℕ) (s : Bytes)
      → is_name (c ∷ s) ≡ true
      → (c == quote) ≡ false
      → (c == b'!') ≡ false
      → ModuleName false (c ∷ s)
  negated :
      (c : ℕ) (s : Bytes)
      → is_name (c ∷ s) ≡ true
      → (c == quote) ≡ false
      → ModuleName true (b'!' ∷ c ∷ s)

unfoldable pub module_tag : Bytes → Bytes
module_tag name = codes "<IfModule " ++ (name ++ (b'>' ∷ []))

take_while-name :
    (s : Bytes) → is_name s ≡ true → take_while is_argument_char (s ++ (b'>' ∷ [])) ≡ s
unfolding take_while is_name
take_while-name [] h = refl
take_while-name (c ∷ s) h = ground (arith, take_while-name s)

drop_while-name :
    (s : Bytes) → is_name s ≡ true → drop_while is_argument_char (s ++ (b'>' ∷ [])) ≡ b'>' ∷ []
unfolding drop_while is_name
drop_while-name [] h = refl
drop_while-name (c ∷ s) h = ground (arith, drop_while-name s)

is_space-name : (c : ℕ) (s : Bytes) → is_name (c ∷ s) ≡ true → is_space c ≡ false
unfolding is_name
is_space-name c s h = ground arith

tag_argument-name :
    (c : ℕ) (s : Bytes)
    → is_name (c ∷ s) ≡ true
    → (c == quote) ≡ false
    → tag_argument ((c ∷ s) ++ (b'>' ∷ [])) ≡ some (c ∷ s)
unfolding tag_argument skip_ws
tag_argument-name c s h q = rw (take_while-name (c ∷ s) h, drop_while-name (c ∷ s) h, q) refl

pub is_ifmodule_open-module_tag :
    {neg : Bool} {name : Bytes}
    → ModuleName neg name
    → is_ifmodule_open (module_tag name) ≡ some (name, neg)
unfolding is_ifmodule_open module_tag in_tag match_kw skip_ws starts_with_nocase
is_ifmodule_open-module_tag (plain c s h q b) =
    rw (is_space-name c s h, b, tag_argument-name c s h q) refl
is_ifmodule_open-module_tag (negated c s h q) =
    rw (is_space-name c s h, tag_argument-name c s h q) refl

pub is_ifmodule_close-module_tag : (name : Bytes) → is_ifmodule_close (module_tag name) ≡ false
unfolding is_ifmodule_close in_close_tag module_tag in_tag skip_ws
is_ifmodule_close-module_tag name = refl

is_line-tag : (s : Bytes) → is_name s ≡ true → is_line (s ++ (b'>' ∷ [])) ≡ true
unfolding is_line is_name
is_line-tag [] h = refl
is_line-tag (c ∷ s) h = ground (arith, is_line-tag s)

pub is_line-module_tag :
    {neg : Bool} {name : Bytes} → ModuleName neg name → is_line (module_tag name) ≡ true
unfolding is_line module_tag
is_line-module_tag (plain c s h q b) = is_line-tag (c ∷ s) h
is_line-module_tag (negated c s h q) = is_line-tag (c ∷ s) h

pub module_tag-IsTrimmed : (name : Bytes) → IsTrimmed (module_tag name)
unfolding module_tag skip_ws
module_tag-IsTrimmed name = (
  trim_end-append (codes "<IfModule " ++ name) (b'>' ∷ []) (unfold trim_end in refl) refl,
  refl,
  refl,
)

-- The name is printed without quotes.
has_char-name : (s : Bytes) → is_name s ≡ true → has_char 32 s ≡ false
unfolding has_char is_name
has_char-name [] h = refl
has_char-name (c ∷ s) h = ground (arith, has_char-name s)

pub has_char-ModuleName :
    {neg : Bool} {name : Bytes} → ModuleName neg name → has_char 32 name ≡ false
unfolding has_char
has_char-ModuleName (plain c s h q b) = has_char-name (c ∷ s) h
has_char-ModuleName (negated c s h q) = has_char-name (c ∷ s) h
