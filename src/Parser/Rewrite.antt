-- ===== src/Parser/Rewrite.antt =====
-- The parsers of the rewrite directives of src/htaccess_parser.c.
use litehttpd.Prelude.{
  ℕ, zero, suc, [], ◌∷◌, ◌++◌, Bool, true, false, ◌&&◌, ◌||◌, Option, none, some, length, drop,
  ◌==◌, if◌then◌else◌,
}
use litehttpd.Prelude.Text.{Bytes, codes, is_space, skip_ws, at_end, peek, starts_with_nocase}
use litehttpd.Prelude.Maybe.{◌>>=◌}
use litehttpd.Expression.Token.{cut}
use litehttpd.Directive.{Directive, directive, nil, rewrite_cond, rewrite_rule, rewrite_map}
use litehttpd.Directive.Kind.{rewrite_engine, rewrite_base, rewrite_options}
use litehttpd.Directive.Kind
use litehttpd.Parser.Scan.{next_token}
use litehttpd.Parser.Fields.{token_value, token_name}

unfoldable pub parse_rewrite_engine : Bytes → ℕ → Option Directive
unfolding token_name
parse_rewrite_engine = token_name rewrite_engine

unfoldable pub parse_rewrite_base : Bytes → ℕ → Option Directive
unfolding token_value
parse_rewrite_base = token_value rewrite_base

unfoldable pub parse_rewrite_options : Bytes → ℕ → Option Directive
unfolding token_value
parse_rewrite_options = token_value rewrite_options

-- What stands between the brackets, if they open at the first byte and are closed.
unfoldable pub bracketed : Bytes → Option Bytes
unfolding cut
bracketed fp =
    if peek fp == b'['
    then elim (cut b']' (drop 1 fp)) [ none ↦ none | some (inner, rest) ↦ some inner ]
    else none

-- With the brackets.
abbrev with_brackets : Option Bytes → Option Bytes
with_brackets none = none
with_brackets (some inner) = some (b'[' ∷ (inner ++ (b']' ∷ [])))

-- The flag stands at `cp`, and a comma, a blank or the bracket follows.
unfoldable pub flag_at : Bytes → Bytes → Bool
unfolding starts_with_nocase
flag_at cp flag =
    let rest = drop (length flag) cp in
    starts_with_nocase cp flag && (at_end rest || peek rest == b',' || is_space (peek rest))

-- The flags NC and OR.
pub record CondFlags : Type 0 where
  pub nocase : Bool
  pub or_next : Bool

unfoldable pub set_cond_flag : Bytes → CondFlags → CondFlags
unfolding flag_at
set_cond_flag cp f =
    if flag_at cp (codes "NC")
    then record f { nocase = true }
    else if flag_at cp (codes "OR")
    then record f { or_next = true }
    else f

-- The loop over the flags that commas separate, of which each takes a byte at least.
unfoldable pub scan_cond_flags : ℕ → Bytes → CondFlags → CondFlags
unfolding skip_ws set_cond_flag cut
scan_cond_flags zero s f = f
scan_cond_flags (suc fuel) [] f = f
scan_cond_flags (suc fuel) (c ∷ s) f =
    let cp = skip_ws (c ∷ s) in
    elim (cut b',' cp) [
      | none ↦ set_cond_flag cp f
      | some (before, rest) ↦ scan_cond_flags fuel rest (set_cond_flag cp f)
    ]

abbrev no_cond_flags : CondFlags
no_cond_flags = record { nocase = false; or_next = false }

abbrev flags_in : Option Bytes → CondFlags
flags_in none = no_cond_flags
flags_in (some inner) = scan_cond_flags (suc (length inner)) inner no_cond_flags

unfoldable pub parse_rewrite_cond : Bytes → ℕ → Option Directive
unfolding bracketed scan_cond_flags
parse_rewrite_cond args line = do
  (test_str, p) ← next_token args
  (pattern, q) ← next_token p
  let inner = bracketed (skip_ws q)
  let f = flags_in inner
  some (
      directive Kind.rewrite_cond line (some test_str) none none
        (rewrite_cond (some pattern) (with_brackets inner) f.nocase f.or_next))

unfoldable pub parse_rewrite_rule : Bytes → ℕ → Option Directive
unfolding bracketed
parse_rewrite_rule args line = do
  (pattern, p) ← next_token args
  (subst, q) ← next_token p
  some (
      directive Kind.rewrite_rule line none (some subst) none
        (rewrite_rule (some pattern) (with_brackets (bracketed (skip_ws q))) nil))

unfoldable pub parse_rewrite_map : Bytes → ℕ → Option Directive
parse_rewrite_map args line = do
  (map_name, p) ← next_token args
  (type_source, q) ← next_token p
  (map_type, map_source) ← cut b':' type_source
  some (
      directive Kind.rewrite_map line none none none
        (rewrite_map (some map_name) (some map_type) (some map_source)))
