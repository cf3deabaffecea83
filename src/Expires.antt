-- ===== src/Expires.antt =====
-- src/htaccess_expires.c and src/htaccess_exec_expires.c: durations such as "access plus 1 month"
-- and the headers that they give. A long has 64 bits; `none` is -1.
pub mod Fuel
pub mod Bounds
pub mod Notation
use litehttpd.Prelude.{
  ℕ, zero, suc, ◌+◌, ◌-◌, ◌*◌, ◌/◌, min, Bool, true, false, not, ◌&&◌, ◌||◌, Option, none, some,
  List, [], ◌∷◌, ltb, leb, ◌==◌, if◌then◌else◌, length, drop, get_or,
}
use litehttpd.Prelude.Text.{
  Bytes, codes, is_space, is_digit, is_alpha, skip_ws, at_end, peek, str_caseeq, starts_with_nocase,
  Converted, strtol, long_max,
}
use litehttpd.Prelude.Maybe.{◌>>=◌, ◌>>◌, guard}
use litehttpd.Directive.{
  Directive, directive, Directives, nil, cons, Payload, active_of, duration_of, payload,
}
use litehttpd.Directive.Kind.{DirectiveType, expires_active, expires_by_type, expires_default}
use litehttpd.Lsi.{Verdict, lsi_ok}

unfoldable pub match_keyword : Bytes → Bytes → Option Bytes
match_keyword p keyword =
    let rest = drop (length keyword) p in
    if starts_with_nocase p keyword
    then (if at_end rest || is_space (peek rest) then some rest else none)
    else none

-- The run of letters at the front, and what stands behind it.
unfoldable pub unit_word : Bytes → Bytes
unit_word [] = []
unit_word (c ∷ s) = let next = unit_word s in if is_alpha c then c ∷ next else []

unfoldable pub after_word : Bytes → Bytes
after_word [] = []
after_word (c ∷ s) = let next = after_word s in if is_alpha c then next else c ∷ s

abbrev pub is_s : ℕ → Bool
is_s c = c == b's' || c == b'S'

-- The singular or the plural of a unit's name.
unfoldable pub names_unit : Bytes → Bytes → Bool
names_unit unit name =
    (length unit == length name && str_caseeq unit name)
    || (length unit == length name + 1
        && starts_with_nocase unit name
        && is_s (get_or unit (length name) 0))

-- The table of units.
abbrev pub units : List (Bytes × ℕ)
units =
    (codes "second", 1)
    ∷ (codes "minute", 60)
    ∷ (codes "hour", 3600)
    ∷ (codes "day", 86400)
    ∷ (codes "month", 2592000)
    ∷ (codes "year", 31536000)
    ∷ []

unfoldable pub lookup_unit : List (Bytes × ℕ) → Bytes → Option ℕ
unfolding names_unit
lookup_unit [] unit = none
lookup_unit ((name, multiplier) ∷ us) unit =
    let next = lookup_unit us unit in if names_unit unit name then some multiplier else next

unfoldable pub unit_to_seconds : Bytes → Option ℕ
unfolding lookup_unit
unit_to_seconds unit = lookup_unit units unit

-- strtol, where a digit stands; no value if errno is ERANGE.
unfoldable pub read_number : Bytes → Option ℕ
unfolding strtol
read_number p =
    if is_digit (peek p) then (if (strtol p).erange then none else some (strtol p).value) else none

-- n * multiplier, unless it exceeds LONG_MAX.
unfoldable pub times_unit : ℕ → ℕ → Option ℕ
times_unit n multiplier =
    if ltb 0 multiplier && ltb (long_max / multiplier) n then none else some (n * multiplier)

-- The body of the loop up to `term`; then the loop continues at what is returned with it.
unfoldable pub one_pair : Bytes → Option (ℕ × Bytes)
one_pair p = do
  n ← read_number p
  let q = skip_ws (strtol p).rest
  guard (is_alpha (peek q))
  multiplier ← unit_to_seconds (unit_word q)
  term ← times_unit n multiplier
  some (term, skip_ws (after_word q))

-- The loop, with `total` and `found_pair`; every pass reads a digit, so that the text's length is
-- fuel enough.
unfoldable pub pairs : ℕ → Bytes → ℕ → Bool → Option ℕ
pairs fuel [] total found_pair = if found_pair then some total else none
pairs zero (c ∷ p) total found_pair = none
pairs (suc fuel) (c ∷ p) total found_pair = elim (one_pair (c ∷ p)) [
  | none ↦ none
  | some (term, rest) ↦
      if ltb (long_max - total) term then none else pairs fuel rest (total + term) true
]

-- "access" or "modification"
unfoldable pub match_base : Bytes → Option Bytes
unfolding match_keyword
match_base p = elim (match_keyword p (codes "access")) [
  | some q ↦ some q
  | none ↦ match_keyword p (codes "modification")
]

unfoldable pub parse_verbose : Bytes → Option ℕ
unfolding match_keyword match_base
parse_verbose p = do
  q ← match_base p
  r ← match_keyword (skip_ws q) (codes "plus")
  let s = skip_ws r
  pairs (length s) s 0 false

abbrev pub is_compact_base : ℕ → Bool
is_compact_base c = c == b'A' || c == b'a' || c == b'M' || c == b'm'

-- "A<seconds>" or "M<seconds>"
unfoldable pub parse_compact : Bytes → Option ℕ
unfolding strtol
parse_compact p =
    let c = strtol (drop 1 p) in
    if is_compact_base (peek p) && is_digit (peek (drop 1 p))
    then (if (at_end c.rest || is_space (peek c.rest)) && not c.erange then some c.value else none)
    else none

unfoldable pub parse_expires_duration : Option Bytes → Option ℕ
unfolding parse_compact
parse_expires_duration none = none
parse_expires_duration (some duration_str) =
    let p = skip_ws duration_str in
    elim (parse_compact p) [ some secs ↦ some secs | none ↦ parse_verbose p ]

-- The duration of a directive: parsed again where the parser left no positive one.
unfoldable pub duration : Option Bytes → ℕ → Option ℕ
duration none duration_sec = some duration_sec
duration (some value) duration_sec =
    if leb duration_sec 0 then parse_expires_duration (some value) else some duration_sec

-- max-age, and the addend of the Expires date.
pub record Headers : Type 0 where
  pub max_age : ℕ
  pub expire_add : ℕ

abbrev pub expires_date_cap : ℕ
expires_date_cap = 10 * 365 * 24 * 3600

abbrev pub set_expires_headers : ℕ → Headers
set_expires_headers duration_sec = record {
  max_age = duration_sec;
  expire_add = min expires_date_cap duration_sec;
}

-- The last ExpiresActive directive.
unfoldable pub is_active : Bool → Directives → Bool
is_active active nil = active
is_active active (cons (directive expires_active l n v e p) ds) = is_active (active_of p) ds
is_active active (cons d ds) = is_active active ds

abbrev pub ends_type : ℕ → Bool
ends_type next = next == 0 || next == b';' || next == 32

unfoldable pub type_matches : Option Bytes → Bytes → Bool
type_matches none content_type = false
type_matches (some name) content_type =
    starts_with_nocase content_type name && ends_type (peek (drop (length name) content_type))

-- What a directive gives as an ExpiresByType and as an ExpiresDefault.
unfoldable pub by_type : Bytes → Directive → Option ℕ
unfolding type_matches duration
by_type content_type (directive expires_by_type l n v e p) =
    if type_matches n content_type then duration v (duration_of p) else none
by_type content_type d = none

unfoldable pub by_default : Directive → Option ℕ
unfolding duration
by_default (directive expires_default l n v e p) = duration v (duration_of p)
by_default d = none

-- A loop that ends at the first directive with a duration.
unfoldable pub first_duration : (Directive → Option ℕ) → Directives → Option ℕ
first_duration f nil = none
first_duration f (cons d ds) = elim (f d) [ some secs ↦ some secs | none ↦ first_duration f ds ]

-- The headers that are set, if any. The answer to the server is LSI_OK.
unfoldable pub exec_expires : Directives → Bytes → Option Headers
unfolding is_active
exec_expires directives content_type =
    if is_active false directives
    then elim (first_duration (by_type content_type) directives) [
      | some secs ↦ some (set_expires_headers secs)
      | none ↦ elim (first_duration by_default directives) [
        | some secs ↦ some (set_expires_headers secs)
        | none ↦ none
      ]
    ]
    else none
