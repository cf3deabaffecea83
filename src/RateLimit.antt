-- ===== src/RateLimit.antt =====
-- src/htaccess_exec_ratelimit.c: limits on the requests of an address, counted in the built-in
-- store of src/htaccess_shm.c under the key "r:<ip>".
pub mod Config
pub mod Laws
pub mod Count
use litehttpd.Prelude.{
  ◌||◌, ℕ, ◌+◌, ◌-◌, max, Bool, true, false, Option, none, some, List, [], ◌∷◌, ltb, int_ltb, ◌==◌,
  if◌then◌else◌, length, take,
}
use litehttpd.Prelude.Text.{Bytes}
use litehttpd.Shm.{
  BruteForceRecord, zero_record, Store, builtin_shm_get, builtin_shm_update,
  builtin_shm_atomic_increment,
}
use Config.{RateLimitConfig, RateLimitAction, deny, throttle, log, ratelimit_parse}

-- LSI_OK, LSI_ERROR, and RL_THROTTLED with the value of Retry-After.
pub data Limit : Type 0 where
  allowed denied : Limit
  throttled : ℕ → Limit

unfoldable pub rl_key : Bytes → Bytes
rl_key ip = b'r' ∷ b':' ∷ take 46 ip

-- new_rec, for the first request.
abbrev pub first_record : ℕ → BruteForceRecord
first_record now = record zero_record { attempt_count = 1; first_attempt = now }

-- The record after the window has expired.
abbrev pub restarted : ℕ → BruteForceRecord → BruteForceRecord
restarted now rec = record rec { attempt_count = 1; first_attempt = now }

-- What happens above the limit; `out` is the record after the increment.
unfoldable pub over_limit : RateLimitConfig → ℕ → BruteForceRecord → RateLimitAction → Limit
over_limit cfg now out deny = denied
over_limit cfg now out throttle = throttled (max 1 (cfg.window_secs + out.first_attempt - now))
over_limit cfg now out log = allowed

-- The test on `current`; the sum of two ints wraps around.
unfoldable pub check_limit : RateLimitConfig → ℕ → BruteForceRecord → Limit
check_limit cfg now out =
    if int_ltb (cfg.requests + cfg.burst) out.attempt_count
    then over_limit cfg now out cfg.action
    else allowed

-- The steps on the record that the store holds.
unfoldable pub count_request :
    RateLimitConfig → Bytes → ℕ → Store → Option BruteForceRecord → Store × Limit
count_request cfg key now st none = ((builtin_shm_update st key (first_record now)).0, allowed)
count_request cfg key now st (some rec) =
    if ltb cfg.window_secs (now - rec.first_attempt)
    then ((builtin_shm_update st key (restarted now rec)).0, allowed)
    else (let (st', done, out) = builtin_shm_atomic_increment st key now in
        (st', check_limit cfg now out))

-- The address is copied to a buffer of 64 bytes; without one there is no limit.
unfoldable pub limit_address : RateLimitConfig → Option Bytes → ℕ → Store → Store × Limit
limit_address cfg none now st = (st, allowed)
limit_address cfg (some ip) now st =
    if cfg.requests == 0 || length ip == 0
    then (st, allowed)
    else count_request cfg (rl_key (take 63 ip)) now st (builtin_shm_get st (rl_key (take 63 ip)))

unfoldable pub exec_ratelimit : Option Bytes → Option Bytes → ℕ → Store → Store × Limit
exec_ratelimit none client_ip now st = (st, allowed)
exec_ratelimit (some value) client_ip now st =
    limit_address (ratelimit_parse value) client_ip now st
