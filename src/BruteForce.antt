-- ===== src/BruteForce.antt =====
-- src/htaccess_exec_brute_force.c: limits on login attempts, counted in the built-in store of
-- src/htaccess_shm.c under the key "b:<ip>". The settings are ints, given by their patterns of 32
-- bits.
pub mod Address
pub mod Config
pub mod Keys
pub mod Laws
pub mod Count
use litehttpd.Prelude.{
  ℕ, suc, ◌+◌, ◌-◌, ◌*◌, Bool, true, false, ◌&&◌, ◌||◌, Option, none, some, List, [], ◌∷◌, ◌++◌,
  ltb, int_ltb, not, ◌^◌, ◌%◌, ◌==◌, if◌then◌else◌, length, get_or, take, min,
}
use litehttpd.Prelude.Text.{Bytes, codes}
use litehttpd.Directive.{BfAction, bf_action_block, bf_action_throttle, bf_action_log, Directives}
use litehttpd.Shm.{
  BruteForceRecord, Store, fresh_record, increment, builtin_shm_get, builtin_shm_update,
  builtin_shm_cleanup,
}
use litehttpd.Lsi.{Verdict, lsi_ok, lsi_error}
use Address.{extract_first_ip, is_ip_whitelisted, is_protected_path}
use Config.{Settings, settings_of}

-- What the server answers about the request: the peer's address, the X-Forwarded-For header, the
-- URI and the method.
pub record Request : Type 0 where
  pub client_ip : Bytes
  pub forwarded : Option Bytes
  pub uri : Option Bytes
  pub method : Option Bytes

-- The status, the variable BF_THROTTLE_MS, the count that BF_LOG names, and the call of
-- fw_client_block.
pub record Reply : Type 0 where
  pub verdict : Verdict
  pub throttle_ms : Option ℕ
  pub logged : Option ℕ
  pub firewall : Option (Bytes × ℕ)

abbrev pub passed : Reply
passed = record { verdict = lsi_ok; throttle_ms = none; logged = none; firewall = none }

abbrev pub is_letter : ℕ → ℕ → ℕ → Bool
is_letter upper lower c = c == upper || c == lower

unfoldable pub is_post : Option Bytes → Bool
is_post none = false
is_post (some m) =
    length m == 4
    && is_letter b'P' b'p' (get_or m 0 0)
    && is_letter b'O' b'o' (get_or m 1 0)
    && is_letter b'S' b's' (get_or m 2 0)
    && is_letter b'T' b't' (get_or m 3 0)

-- The address from a header value, or the peer's.
abbrev pub forwarded_or : Bytes → Option Bytes → Bytes
forwarded_or client_ip none = client_ip
forwarded_or client_ip (some xff) = elim (extract_first_ip xff) [ none ↦ client_ip | some ip ↦ ip ]

-- Step 2a.
unfoldable pub effective_ip : Settings → Request → Bytes
effective_ip cfg req =
    if cfg.use_xff
    then elim cfg.trusted_proxy [
      | none ↦ req.client_ip
      | some cidrs ↦
          if is_ip_whitelisted req.client_ip cidrs
          then forwarded_or req.client_ip req.forwarded
          else req.client_ip
    ]
    else req.client_ip

-- bf_key
unfoldable pub bf_key : Bytes → Bytes
bf_key ip = b'b' ∷ b':' ∷ take 46 ip

abbrev pub is_listed : Bytes → Option Bytes → Bool
is_listed ip none = false
is_listed ip (some cidrs) = is_ip_whitelisted ip cidrs

-- Steps 1 to 2c: the address that is counted, if the request is protected.
unfoldable pub subject : Settings → Request → Option Bytes
unfolding effective_ip
subject cfg req =
    let ip = effective_ip cfg req in
    if cfg.enabled
    then (if is_listed ip cfg.whitelist
        then none
        else if is_protected_path req.uri cfg.paths
        then some ip
        else none)
    else none

-- The excess is computed as an int, and is 1 at least.
unfoldable pub excess_of : ℕ → ℕ → ℕ
excess_of cur_count allowed_attempts =
    let excess = (cur_count + 2 ^ 32 - allowed_attempts + 1) % 2 ^ 32 in
    if int_ltb excess 1 then 1 else excess

-- The progressive delay, capped at BF_MAX_THROTTLE_MS. The product is a long long; of a negative
-- one the int that is left of it is taken.
unfoldable pub progressive_ms : ℕ → ℕ → ℕ → ℕ
unfolding excess_of
progressive_ms throttle_ms cur_count allowed_attempts =
    let delay = throttle_ms * excess_of cur_count allowed_attempts in
    let low = delay % 2 ^ 32 in
    if ltb throttle_ms (2 ^ 31) then min 30000 delay else if int_ltb 30000 low then 30000 else low

-- The action above the threshold; `cur_count` is the count before this request.
unfoldable pub apply_action : Settings → Bytes → ℕ → BfAction → Reply
unfolding progressive_ms
apply_action cfg ip cur_count bf_action_block = record {
  verdict = lsi_error 403;
  throttle_ms = none;
  logged = none;
  firewall = if cur_count == cfg.allowed_attempts then some (ip, cfg.window_sec) else none;
}
apply_action cfg ip cur_count bf_action_throttle = record {
  verdict = lsi_error 429;
  throttle_ms = some (progressive_ms cfg.throttle_ms cur_count cfg.allowed_attempts);
  logged = none;
  firewall = none;
}
apply_action cfg ip cur_count bf_action_log = record {
  verdict = lsi_ok;
  throttle_ms = none;
  logged = some (suc cur_count);
  firewall = none;
}

-- A record with a count of one, where the attempt counts.
abbrev pub start_record : Bool → Bytes → ℕ → Store → Store
start_record true ip now st = (builtin_shm_update st (bf_key ip) (fresh_record ip now)).0
start_record false ip now st = st

abbrev pub count_record : Bool → Bytes → BruteForceRecord → Store → Store
count_record true ip rec st = (builtin_shm_update st (bf_key ip) (increment rec)).0
count_record false ip rec st = st

-- now - first_attempt < window_sec, where the window may be a negative int.
unfoldable pub is_within : ℕ → ℕ → ℕ → Bool
is_within now first_attempt window_sec =
    if ltb window_sec (2 ^ 31)
    then ltb now (first_attempt + window_sec)
    else ltb (now + 2 ^ 32) (first_attempt + window_sec)

-- Steps 4 and 5, on the record that the store holds.
unfoldable pub judge : Settings → Bytes → Bool → ℕ → Store → Option BruteForceRecord → Store × Reply
unfolding apply_action is_within
judge cfg ip counts now st none = (start_record counts ip now st, passed)
judge cfg ip counts now st (some rec) =
    if is_within now rec.first_attempt cfg.window_sec
    then (if not (int_ltb rec.attempt_count cfg.allowed_attempts)
        then (count_record true ip rec st, apply_action cfg ip rec.attempt_count cfg.action)
        else (count_record counts ip rec st, passed))
    else (start_record counts ip now st, passed)

-- Steps 3 to 5, with `counts` for `count_attempt && is_post`.
unfoldable pub attempt : Settings → Bytes → Bool → ℕ → Store → Store × Reply
attempt cfg ip counts now st =
    let swept = (builtin_shm_cleanup st now).0 in
    judge cfg ip counts now swept (builtin_shm_get swept (bf_key ip))

-- What is done for the address that is counted, if there is one.
unfoldable pub run_on : Settings → Bool → ℕ → Store → Option Bytes → Store × Reply
run_on cfg counts now st none = (st, passed)
run_on cfg counts now st (some ip) = attempt cfg ip counts now st

unfoldable pub exec_brute_force : Directives → Request → Bool → ℕ → Store → Store × Reply
exec_brute_force directives req count_attempt now st =
    let cfg = settings_of directives in
    run_on cfg (count_attempt && is_post req.method) now st (subject cfg req)
