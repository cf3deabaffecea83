-- ===== src/Tests/Counters.antt =====
-- Runs of src/htaccess_shm.c and src/htaccess_exec_brute_force.c.
use litehttpd.Prelude.{ℕ, ◌≡◌, ◌≢◌, refl, ap, arith, true, none, some, replicate}
use litehttpd.Prelude.Text.{Bytes, codes, peek, str_eq}
use litehttpd.BruteForce.Address.{is_protected_path}
use litehttpd.Directive.{directive, Directives, nil, cons, brute_force, bf_zero}
use litehttpd.Directive.Kind.{brute_force_protection, brute_force_allowed_attempts}
use litehttpd.Shm.{
  BruteForceRecord, Store, blank, fresh_record, increment, builtin_shm_init, builtin_shm_get,
  builtin_shm_update, builtin_shm_cleanup, builtin_shm_atomic_increment, expired,
}
use litehttpd.Shm.View.{
  IsValid, stored, get-update_self, get-update_ne, update-IsValid, init-IsValid,
  increment-eq-get-update,
}
use litehttpd.Shm.Cleanup.{unexpired, get-cleanup}
use litehttpd.BruteForce.{
  Request, bf_key, subject, exec_brute_force, run_on, attempt, judge, is_within, is_post,
}
use litehttpd.BruteForce.Config.{settings_of}
use litehttpd.BruteForce.Laws.{KeptOrExpired, exec_brute_force-IsValid, exec_brute_force-ratelimit}
use litehttpd.BruteForce.Count.{IsCounting, login, logins, exec_brute_force-blocks}
use litehttpd.Lsi.{lsi_error}

abbrev empty_store : Store
empty_store = record { slots = replicate 8 blank; count = 0 }

abbrev key : Bytes
key = codes "b:203.0.113.9"

abbrev other : Bytes
other = codes "r:203.0.113.9"

abbrev entry : BruteForceRecord
entry = fresh_record (codes "203.0.113.9") 1000

empty_store-IsValid : IsValid empty_store
unfolding builtin_shm_init
empty_store-IsValid = init-IsValid 8 empty_store refl

abbrev one_record : Store
one_record = (builtin_shm_update empty_store key entry).0

get-update_self_example : builtin_shm_get one_record key ≡ some (stored key entry)
unfolding builtin_shm_update
get-update_self_example = get-update_self empty_store key entry refl

apart : ◌≡◌ {A = ℕ} 114 98 → ⊥
apart h = omega arith

keys_differ : other ≢ key
keys_differ h = apart (ap peek h)

get-update_ne_example : builtin_shm_get one_record other ≡ builtin_shm_get empty_store other
get-update_ne_example =
    get-update_ne empty_store key other entry empty_store-IsValid refl refl keys_differ

one_record-IsValid : IsValid one_record
one_record-IsValid = update-IsValid empty_store key entry refl empty_store-IsValid

get-cleanup_example :
    builtin_shm_get (builtin_shm_cleanup one_record 2000).0 key
    ≡ unexpired 2000 (builtin_shm_get one_record key)
get-cleanup_example = get-cleanup one_record 2000 key one_record-IsValid refl

increment-eq-get-update_example : builtin_shm_atomic_increment one_record key 1001 ≡ (
  (builtin_shm_update one_record key (increment (stored key entry))).0,
  true,
  increment (stored key entry),
)
unfolding builtin_shm_get builtin_shm_update str_eq
increment-eq-get-update_example = increment-eq-get-update one_record key 1001 one_record-IsValid

-- BruteForceProtection On, BruteForceAllowedAttempts 3
abbrev directives : Directives
directives =
    cons
      (directive brute_force_protection 1 none none none
        (brute_force (record bf_zero { enabled = true })))
      (cons
        (directive brute_force_allowed_attempts 2 none none none
          (brute_force (record bf_zero { allowed_attempts = 3 })))
        nil)

abbrev request : Request
request = record {
  client_ip = codes "203.0.113.9";
  forwarded = none;
  uri = some (codes "/wp-login.php");
  method = some (codes "POST");
}

abbrev first_login : Store
first_login = (exec_brute_force directives request true 1000 empty_store).0

exec_brute_force-ratelimit_example :
    KeptOrExpired 1000
      (builtin_shm_get one_record other)
      (builtin_shm_get (exec_brute_force directives request true 1000 one_record).0 other)
exec_brute_force-ratelimit_example =
    exec_brute_force-ratelimit directives request true 1000 one_record (codes ":203.0.113.9")
      one_record-IsValid refl

first_login-IsCounting :
    IsCounting (settings_of directives) (codes "203.0.113.9") 1000 first_login 1
unfolding exec_brute_force run_on attempt judge is_within subject is_post settings_of bf_key
    builtin_shm_update builtin_shm_get is_protected_path builtin_shm_cleanup str_eq expired
first_login-IsCounting = record {
  valid = exec_brute_force-IsValid directives request true 1000 empty_store empty_store-IsValid;
  rec = stored key entry;
  held = refl;
  open_window = omega arith;
  unblocked = refl;
  young = omega arith;
  counted = refl;
}

exec_brute_force-blocks_example :
    (login directives request
      (codes "203.0.113.9")
      1000
      (logins directives request (codes "203.0.113.9") 1000 2 first_login)).1.verdict
    ≡ lsi_error 403
unfolding settings_of subject is_post is_protected_path
exec_brute_force-blocks_example =
    exec_brute_force-blocks directives request (codes "203.0.113.9") 1000 2 first_login 1 refl refl
      refl (omega arith) (omega arith) (omega arith) first_login-IsCounting
