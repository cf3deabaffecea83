-- ===== src/RateLimit/Config.antt =====
-- ratelimit_parse of src/htaccess_exec_ratelimit.c.
use litehttpd.Prelude.{ℕ, ◌^◌, none, some, ltb, ◌==◌, if◌then◌else◌, take, ◌≡◌, refl}
use litehttpd.Prelude.Text.{
  atoi, behind, occurs, Bytes, codes, skip_ws, has_char, digits_value, starts_with,
}
use litehttpd.Cidr6.{before_slash, after_slash}

-- cfg.action
pub data RateLimitAction : Type 0 where
  deny throttle log : RateLimitAction

pub record RateLimitConfig : Type 0 where
  pub requests : ℕ
  pub window_secs : ℕ
  pub burst : ℕ
  pub action : RateLimitAction

-- A result of atoi that is not positive is 0, since the caller replaces both.
unfoldable pub positive_atoi : Bytes → ℕ
unfolding atoi
positive_atoi s = let low = atoi s in if ltb low (2 ^ 31) then low else 0

abbrev pub or_default : ℕ → ℕ → ℕ
or_default n default = if n == 0 then default else n

abbrev pub burst_of : Bytes → ℕ
burst_of s = elim (behind (codes "burst=") s) [ none ↦ 0 | some rest ↦ positive_atoi rest ]

abbrev pub no_limit : RateLimitConfig
no_limit = record { requests = 0; window_secs = 60; burst = 0; action = deny }

-- The value is copied to a buffer of 256 bytes, and split at the first slash.
unfoldable pub ratelimit_parse : Bytes → RateLimitConfig
unfolding positive_atoi behind before_slash after_slash
ratelimit_parse value =
    let buf = take 255 value in
    let options = after_slash buf in
    let requests = or_default (positive_atoi (before_slash buf)) 100 in
    if has_char b'/' buf
    then record {
      requests = requests;
      window_secs = or_default (positive_atoi options) 60;
      burst = or_default (burst_of options) requests;
      action =
          if occurs (codes "action=throttle") options
          then throttle
          else if occurs (codes "action=log") options
          then log
          else deny;
    }
    else no_limit

ratelimit_parse_runs :
    ratelimit_parse (codes "100/60 burst=20 action=log")
    ≡ record { requests = 100; window_secs = 60; burst = 20; action = log }
unfolding ratelimit_parse digits_value has_char starts_with skip_ws
ratelimit_parse_runs = refl
