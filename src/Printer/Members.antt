-- ===== src/Printer/Members.antt =====
-- What src/htaccess_printer.c reads from the union of a directive, and its helpers. A member that
-- is not the one of the type reads as zero. The growing buffer is the list of the appended bytes;
-- memory is always there.
use litehttpd.Prelude.{
  ℕ, zero, suc, ◌-◌, ◌/◌, ◌%◌, ◌+◌, ◌^◌, [], ◌∷◌, ◌++◌, Bool, true, false, Option, none, some, ltb,
  if◌then◌else◌, ◌≡◌, refl,
}
use litehttpd.Prelude.Text.{Bytes, codes, has_char, at_end}
use litehttpd.Directive.{
  Expr, null, Payload, redirect, files_match, envif, header_ext, limit, rewrite_cond, rewrite_rule,
  rewrite_map, if_block,
}

abbrev pub or_empty : Option Bytes → Bytes
or_empty none = []
or_empty (some s) = s

-- if (s) { " "; s }
abbrev pub spaced : Option Bytes → Bytes
spaced none = []
spaced (some s) = 32 ∷ s

-- In quotes if a space stands in the text.
unfoldable pub quote_if_spaced : Bytes → Bytes
unfolding has_char
quote_if_spaced s = if has_char 32 s then 34 ∷ (s ++ (34 ∷ [])) else s

abbrev pub quoted_if_any : Option Bytes → Bytes
quoted_if_any none = []
quoted_if_any (some s) = quote_if_spaced s

abbrev pub spaced_quoted : Option Bytes → Bytes
spaced_quoted none = []
spaced_quoted (some s) = 32 ∷ quote_if_spaced s

-- "=value" if there is a value that is not empty
unfoldable pub assigned : Option Bytes → Bytes
assigned none = []
assigned (some s) = if at_end s then [] else b'=' ∷ s

unfoldable pub print_env_suffix : Option Bytes → Bytes
print_env_suffix none = []
print_env_suffix (some condition) = codes " env=" ++ condition

-- %d of a number below 2 ^ 31, and of the pattern of a negative one.
unfoldable pub show_from : ℕ → ℕ → Bytes
show_from zero n = (b'0' + n) ∷ []
show_from (suc fuel) n =
    let front = show_from fuel (n / 10) in
    if ltb n 10 then (b'0' + n) ∷ [] else front ++ ((b'0' + n % 10) ∷ [])

unfoldable pub show_int : ℕ → Bytes
unfolding show_from
show_int n = if ltb n (2 ^ 31) then show_from 10 n else b'-' ∷ show_from 10 (2 ^ 32 - n)

-- The members.
abbrev pub status_of : Payload → ℕ
status_of (redirect status pattern) = status
status_of _ = 0

abbrev pub redirect_pattern : Payload → Option Bytes
redirect_pattern (redirect status pattern) = pattern
redirect_pattern _ = none

abbrev pub files_pattern : Payload → Option Bytes
files_pattern (files_match pattern ch) = pattern
files_pattern _ = none

abbrev pub edit_pattern : Payload → Option Bytes
edit_pattern (header_ext pattern) = pattern
edit_pattern _ = none

abbrev pub methods : Payload → Option Bytes
methods (limit m ch) = m
methods _ = none

abbrev pub attribute : Payload → Option Bytes
attribute (envif a pattern) = a
attribute _ = none

abbrev pub envif_pattern : Payload → Option Bytes
envif_pattern (envif a pattern) = pattern
envif_pattern _ = none

abbrev pub cond_pattern : Payload → Option Bytes
cond_pattern (rewrite_cond pattern flags nocase or_next) = pattern
cond_pattern _ = none

-- The flags as they were read, or made of the two that are known.
abbrev known_flags : Bool → Bool → Bytes
known_flags true true = codes " [NC,OR]"
known_flags true false = codes " [NC]"
known_flags false true = codes " [OR]"
known_flags false false = []

abbrev pub cond_flags : Payload → Bytes
cond_flags (rewrite_cond pattern (some flags) nocase or_next) = 32 ∷ flags
cond_flags (rewrite_cond pattern none nocase or_next) = known_flags nocase or_next
cond_flags _ = []

abbrev pub rule_pattern : Payload → Option Bytes
rule_pattern (rewrite_rule pattern flags conds) = pattern
rule_pattern _ = none

abbrev pub rule_flags : Payload → Option Bytes
rule_flags (rewrite_rule pattern flags conds) = flags
rule_flags _ = none

abbrev typed_source : Option Bytes → Option Bytes → Bytes
typed_source none source = []
typed_source (some t) none = 32 ∷ t
typed_source (some t) (some source) = 32 ∷ (t ++ (b':' ∷ source))

abbrev pub map_text : Payload → Bytes
map_text (rewrite_map name t source) = or_empty name ++ typed_source t source
map_text _ = []

abbrev pub condition : Payload → Expr
condition (if_block e ch) = e
condition _ = null

show_int_runs : show_int 4096 ≡ codes "4096"
unfolding show_int
show_int_runs = refl
