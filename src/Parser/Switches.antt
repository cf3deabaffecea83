-- ===== src/Parser/Switches.antt =====
-- The parsers of src/htaccess_parser.c for switches, durations, the environment, brute-force
-- protection and Options.
use litehttpd.Prelude.{
  ℕ, [], ◌∷◌, Bool, true, false, not, ◌&&◌, ◌||◌, Option, none, some, if◌then◌else◌, map,
}
use litehttpd.Prelude.Text.{Bytes, codes, skip_ws, at_end, is_digit, to_lower, str_eq, str_caseeq}
use litehttpd.Prelude.Maybe.{◌>>=◌, ◌>>◌, guard}
use litehttpd.Expression.Token.{cut}
use litehttpd.Expires.{parse_expires_duration}
use litehttpd.Directive.{
  Directive, directive, expires, envif, brute_force, BfData, bf_zero, BfAction, bf_action_block,
  bf_action_throttle, bf_action_log,
}
use litehttpd.Directive.Kind.{
  DirectiveType, expires_active, expires_by_type, expires_default, browser_match, sec_rule_engine,
  esi_enable, bot_challenge, bot_challenge_if, brute_force_protection, brute_force_allowed_attempts,
  brute_force_window, brute_force_action, brute_force_throttle_duration,
  brute_force_x_forwarded_for,
}
use litehttpd.Parser.Scan.{next_token, rest_of_line, unquote, positive_int}
use litehttpd.Parser.Fields.{with_fields, is_on, token_value}

-- The value is stored in small letters.
unfoldable pub lowered : DirectiveType → (Bytes → Bool) → Bytes → ℕ → Option Directive
lowered t accepts args line = do
  (val, p) ← next_token (skip_ws args)
  guard (accepts (map to_lower val))
  some (with_fields t line none (some (map to_lower val)))

abbrev is_lower_on_or_off : Bytes → Bool
is_lower_on_or_off s = str_eq s (codes "on") || str_eq s (codes "off")

abbrev is_engine_mode : Bytes → Bool
is_engine_mode s = is_lower_on_or_off s || str_eq s (codes "detectiononly")

unfoldable pub parse_sec_rule_engine : Bytes → ℕ → Option Directive
unfolding lowered
parse_sec_rule_engine = lowered sec_rule_engine is_engine_mode

unfoldable pub parse_esi_enable : Bytes → ℕ → Option Directive
unfolding lowered
parse_esi_enable = lowered esi_enable is_lower_on_or_off

unfoldable pub parse_bot_challenge : Bytes → ℕ → Option Directive
unfolding lowered
parse_bot_challenge = lowered bot_challenge is_lower_on_or_off

unfoldable pub all_digits : Bytes → Bool
all_digits [] = true
all_digits (c ∷ s) = is_digit c && all_digits s

unfoldable pub parse_bot_challenge_int : DirectiveType → Bytes → ℕ → Option Directive
unfolding all_digits
parse_bot_challenge_int t args line = do
  (val, p) ← next_token (skip_ws args)
  guard (all_digits val)
  some (with_fields t line none (some val))

-- Quotes that rest_of_line has left are dropped.
unfoldable pub parse_bot_challenge_if : Bytes → ℕ → Option Directive
parse_bot_challenge_if args line = do
  val ← rest_of_line (skip_ws args)
  guard (not (at_end val))
  some (with_fields bot_challenge_if line none (some (unquote val)))

unfoldable pub parse_bot_challenge_str : DirectiveType → Bytes → ℕ → Option Directive
unfolding token_value
parse_bot_challenge_str t args line = token_value t (skip_ws args) line

-- On, Off, or neither.
unfoldable pub switch_of : Bytes → Option Bool
switch_of val =
    if is_on val then some true else if str_caseeq val (codes "off") then some false else none

unfoldable pub parse_expires_active : Bytes → ℕ → Option Directive
unfolding switch_of
parse_expires_active args line = do
  (val, p) ← next_token (skip_ws args)
  active ← switch_of val
  some (directive expires_active line none none none (expires active 0))

unfoldable pub parse_expires_by_type : Bytes → ℕ → Option Directive
parse_expires_by_type args line = do
  (mime, p) ← next_token (skip_ws args)
  duration_str ← rest_of_line p
  secs ← parse_expires_duration (some duration_str)
  some (directive expires_by_type line (some mime) (some duration_str) none (expires false secs))

unfoldable pub parse_expires_default : Bytes → ℕ → Option Directive
parse_expires_default args line = do
  duration_str ← rest_of_line (skip_ws args)
  secs ← parse_expires_duration (some duration_str)
  some (directive expires_default line none (some duration_str) none (expires false secs))

-- The name and the value, which is empty where there is no `=`.
unfoldable pub split_assignment : Bytes → Bytes × Bytes
unfolding cut
split_assignment s = elim (cut b'=' s) [ none ↦ (s, []) | some (name, value) ↦ (name, value) ]

unfoldable pub parse_setenvif_typed : DirectiveType → Bytes → ℕ → Option Directive
unfolding split_assignment
parse_setenvif_typed t args line = do
  (attribute, p) ← next_token (skip_ws args)
  (pattern, q) ← next_token p
  assignment ← rest_of_line q
  let split = split_assignment assignment
  some (directive t line (some split.0) (some split.1) none (envif (some attribute) (some pattern)))

unfoldable pub parse_browser_match : Bytes → ℕ → Option Directive
unfolding split_assignment
parse_browser_match args line = do
  (pattern, p) ← next_token (skip_ws args)
  assignment ← rest_of_line p
  let split = split_assignment assignment
  some (
      directive browser_match line (some split.0) (some split.1) none
        (envif (some (codes "User-Agent")) (some pattern)))

unfoldable pub parse_brute_force_protection : Bytes → ℕ → Option Directive
unfolding switch_of
parse_brute_force_protection args line = do
  (val, p) ← next_token (skip_ws args)
  on ← switch_of val
  some (
      directive brute_force_protection line none none none
        (brute_force (record bf_zero { enabled = on })))

-- A positive number.
unfoldable pub counted : DirectiveType → (ℕ → BfData) → Bytes → ℕ → Option Directive
counted t store args line = do
  (val, p) ← next_token (skip_ws args)
  n ← positive_int val
  some (directive t line none none none (brute_force (store n)))

unfoldable pub parse_brute_force_attempts : Bytes → ℕ → Option Directive
unfolding counted
parse_brute_force_attempts =
    counted brute_force_allowed_attempts (λ n. record bf_zero { allowed_attempts = n })

unfoldable pub parse_brute_force_window : Bytes → ℕ → Option Directive
unfolding counted
parse_brute_force_window = counted brute_force_window (λ n. record bf_zero { window_sec = n })

unfoldable pub parse_brute_force_throttle : Bytes → ℕ → Option Directive
unfolding counted
parse_brute_force_throttle =
    counted brute_force_throttle_duration (λ n. record bf_zero { throttle_ms = n })

unfoldable pub action_of : Bytes → Option BfAction
action_of val =
    if str_caseeq val (codes "block")
    then some bf_action_block
    else if str_caseeq val (codes "throttle")
    then some bf_action_throttle
    else if str_caseeq val (codes "log")
    then some bf_action_log
    else none

unfoldable pub parse_brute_force_action : Bytes → ℕ → Option Directive
unfolding action_of
parse_brute_force_action args line = do
  (val, p) ← next_token (skip_ws args)
  act ← action_of val
  some (
      directive brute_force_action line none none none
        (brute_force (record bf_zero { action = act })))

-- Anything but On is Off.
unfoldable pub parse_x_forwarded_for : Bytes → ℕ → Option Directive
parse_x_forwarded_for args line = do
  (val, p) ← next_token args
  some (
      directive brute_force_x_forwarded_for line none none none
        (brute_force (record bf_zero { enabled = is_on val })))
