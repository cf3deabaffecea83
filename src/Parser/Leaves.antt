-- ===== src/Parser/Leaves.antt =====
-- Directives whose printed line is read back: what src/htaccess_printer.c writes for them,
-- parse_line of src/htaccess_parser.c parses to the same directive.
use litehttpd.Prelude.{ℕ, ◌∷◌, ◌++◌, false, none, some, ◌≡◌, refl}
use litehttpd.Prelude.Text.{Bytes, skip_ws}
use litehttpd.Cidr6.{trim_end}
use litehttpd.Directive.{Directive, directive, Payload, no_data}
use litehttpd.Directive.Kind.{DirectiveType}
use litehttpd.Directive.Kind
use litehttpd.Directive.Code.{same_type}
use litehttpd.Printer.Leaf.{print_directive_text}
use litehttpd.Printer.Document.{print_directive}
use litehttpd.Parser.Lines.{is_line}
use litehttpd.Parser.RoundTrip.{IsReadBack}
use mathlib.Core.List.{append-nil}
use litehttpd.Parser.Words.{
  Word, Phrase, next_token-Word, next_token-skip_ws, rest_of_line-Phrase, trim_end-word,
  is_line-word, is_line-keyword, keyword-IsLeafLine,
}
use litehttpd.Parser.Families.{
  WordDirective, PhraseDirective, ConstantDirective, WordDirective-is_keyword,
  PhraseDirective-is_keyword, parse_line-word, parse_line-phrase, parse_line-constant,
  add_default_charset, allow_first, auth_type, auth_user_file, bot_challenge_exempt,
  bot_challenge_page, bot_challenge_trusted_proxy, brute_force_protect_path,
  brute_force_trusted_proxy, brute_force_whitelist, cache_default_expire, cache_disable,
  cache_enable, cache_max_expire, default_type, deny_first, directory_index, expires_active_off,
  expires_active_on, force_type, remove_handler, remove_type, require_all_denied,
  require_all_granted, require_ip, require_not_ip, require_user, require_valid_user, rewrite_base,
  rewrite_options, satisfy, set_handler,
}

-- How each family is printed.
print_directive-word :
    {t : DirectiveType} {kw : Bytes} (v : Bytes) (n : ℕ)
    → WordDirective t kw
    → print_directive (directive t n none (some v) none no_data) ≡ some (kw ++ (32 ∷ v))
unfolding print_directive print_directive_text
print_directive-word v n cache_enable = rw (append-nil v) refl
print_directive-word v n cache_max_expire = rw (append-nil v) refl
print_directive-word v n cache_default_expire = rw (append-nil v) refl
print_directive-word v n bot_challenge_exempt = rw (append-nil v) refl
print_directive-word v n bot_challenge_trusted_proxy = rw (append-nil v) refl
print_directive-word v n bot_challenge_page = rw (append-nil v) refl
print_directive-word v n brute_force_protect_path = rw (append-nil v) refl
print_directive-word v n auth_type = rw (append-nil v) refl
print_directive-word v n force_type = rw (append-nil v) refl
print_directive-word v n add_default_charset = rw (append-nil v) refl
print_directive-word v n default_type = rw (append-nil v) refl
print_directive-word v n satisfy = rw (append-nil v) refl
print_directive-word v n rewrite_base = rw (append-nil v) refl
print_directive-word v n rewrite_options = rw (append-nil v) refl

print_directive-phrase :
    {t : DirectiveType} {kw : Bytes} (v : Bytes) (n : ℕ)
    → PhraseDirective t kw
    → print_directive (directive t n none (some v) none no_data) ≡ some (kw ++ (32 ∷ v))
unfolding print_directive print_directive_text
print_directive-phrase v n require_ip = rw (append-nil v) refl
print_directive-phrase v n require_not_ip = rw (append-nil v) refl
print_directive-phrase v n require_user = rw (append-nil v) refl
print_directive-phrase v n brute_force_whitelist = rw (append-nil v) refl
print_directive-phrase v n brute_force_trusted_proxy = rw (append-nil v) refl
print_directive-phrase v n auth_user_file = rw (append-nil v) refl
print_directive-phrase v n set_handler = rw (append-nil v) refl
print_directive-phrase v n directory_index = rw (append-nil v) refl
print_directive-phrase v n remove_type = rw (append-nil v) refl
print_directive-phrase v n remove_handler = rw (append-nil v) refl

constant-IsReadBack :
    {t : DirectiveType} {p : Payload} {line : Bytes} (n : ℕ)
    → ConstantDirective t p line
    → IsReadBack (directive t n none none none p) line n
unfolding print_directive print_directive_text trim_end skip_ws is_line
constant-IsReadBack n require_all_granted = record {
  printed = refl;
  leaf = ((refl, refl, refl), refl, refl);
  line = refl;
  parsed = parse_line-constant n require_all_granted;
  unconditional = refl;
}
constant-IsReadBack n require_all_denied = record {
  printed = refl;
  leaf = ((refl, refl, refl), refl, refl);
  line = refl;
  parsed = parse_line-constant n require_all_denied;
  unconditional = refl;
}
constant-IsReadBack n require_valid_user = record {
  printed = refl;
  leaf = ((refl, refl, refl), refl, refl);
  line = refl;
  parsed = parse_line-constant n require_valid_user;
  unconditional = refl;
}
constant-IsReadBack n cache_disable = record {
  printed = refl;
  leaf = ((refl, refl, refl), refl, refl);
  line = refl;
  parsed = parse_line-constant n cache_disable;
  unconditional = refl;
}
constant-IsReadBack n allow_first = record {
  printed = refl;
  leaf = ((refl, refl, refl), refl, refl);
  line = refl;
  parsed = parse_line-constant n allow_first;
  unconditional = refl;
}
constant-IsReadBack n deny_first = record {
  printed = refl;
  leaf = ((refl, refl, refl), refl, refl);
  line = refl;
  parsed = parse_line-constant n deny_first;
  unconditional = refl;
}
constant-IsReadBack n expires_active_on = record {
  printed = refl;
  leaf = ((refl, refl, refl), refl, refl);
  line = refl;
  parsed = parse_line-constant n expires_active_on;
  unconditional = refl;
}
constant-IsReadBack n expires_active_off = record {
  printed = refl;
  leaf = ((refl, refl, refl), refl, refl);
  line = refl;
  parsed = parse_line-constant n expires_active_off;
  unconditional = refl;
}

-- No directive of these families is a RewriteCond.
word-unconditional :
    {t : DirectiveType} {kw : Bytes} → WordDirective t kw → same_type t Kind.rewrite_cond ≡ false
word-unconditional cache_enable = refl
word-unconditional _ = refl

phrase-unconditional :
    {t : DirectiveType} {kw : Bytes} → PhraseDirective t kw → same_type t Kind.rewrite_cond ≡ false
phrase-unconditional require_ip = refl
phrase-unconditional _ = refl

-- The directives of the three families, on a line of a file, with the line that they are written
-- as.
pub data Written : ℕ → Directive → Bytes → Type 0 where
  word :
      {n : ℕ} {t : DirectiveType} {kw v : Bytes}
      → WordDirective t kw
      → Word v
      → Written n (directive t n none (some v) none no_data) (kw ++ (32 ∷ v))
  phrase :
      {n : ℕ} {t : DirectiveType} {kw v : Bytes}
      → PhraseDirective t kw
      → Phrase v
      → Written n (directive t n none (some v) none no_data) (kw ++ (32 ∷ v))
  constant :
      {n : ℕ} {t : DirectiveType} {p : Payload} {line : Bytes}
      → ConstantDirective t p line
      → Written n (directive t n none none none p) line

-- A directive of 14 types with a word as its value, of 10 types with a text as its value, or one of
-- 8 that are written in one way, is printed as one line, and parsing this line gives the directive.
pub Written-IsReadBack : {n : ℕ} {d : Directive} {l : Bytes} → Written n d l → IsReadBack d l n
Written-IsReadBack {n} (word {v = v} t w) = record {
  printed = print_directive-word v n t;
  leaf = keyword-IsLeafLine _ v (WordDirective-is_keyword t) (trim_end-word v w.chars) w.nonempty;
  line = is_line-keyword _ v (WordDirective-is_keyword t) (is_line-word v w.chars);
  parsed = parse_line-word v n t (next_token-Word v w) (next_token-skip_ws v w);
  unconditional = word-unconditional t;
}
Written-IsReadBack {n} (phrase {v = v} t w) = record {
  printed = print_directive-phrase v n t;
  leaf = keyword-IsLeafLine _ v (PhraseDirective-is_keyword t) w.trimmed.0 w.trimmed.2;
  line = is_line-keyword _ v (PhraseDirective-is_keyword t) w.line;
  parsed = parse_line-phrase v n t (rest_of_line-Phrase v w);
  unconditional = phrase-unconditional t;
}
Written-IsReadBack {n} (constant t) = constant-IsReadBack n t
