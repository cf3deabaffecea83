-- ===== src/RateLimit/Count.antt =====
-- How src/htaccess_exec_ratelimit.c counts the requests of an address, and when it refuses.
use litehttpd.RateLimit.{Limit, rl_key, exec_ratelimit}
use litehttpd.RateLimit.Config.{RateLimitConfig, ratelimit_parse}
use litehttpd.Prelude.{ℕ, zero, suc, ◌-◌, ◌≡◌, false, some, ltb, take}
use litehttpd.Prelude.Text.{Bytes}
use litehttpd.Shm.{BruteForceRecord, Store, builtin_shm_get}
use litehttpd.Shm.View.{IsValid}

-- The store holds a count for the key, in a window that is open.
pub record IsLimiting (cfg : RateLimitConfig) (key : Bytes) (now : ℕ) (st : Store) (n : ℕ)
    : Type 0 where
  pub valid : IsValid st
  pub rec : BruteForceRecord
  pub held : builtin_shm_get st key ≡ some rec
  pub open_window : ltb cfg.window_secs (now - rec.first_attempt) ≡ false
  pub counted : rec.attempt_count ≡ n

module _ (value ip : Bytes) (now : ℕ) where
  abbrev cfg : RateLimitConfig
  cfg = ratelimit_parse value

  abbrev key : Bytes
  key = rl_key (take 63 ip)

  -- One more request of the address.
  abbrev pub request : Store → Store × Limit
  request st = exec_ratelimit (some value) (some ip) now st

  -- So many requests, one after the other.
  abbrev pub requests : ℕ → Store → Store
  requests zero st = st
  requests (suc n) st = requests n (request st).0
