-- ===== src/Tests/Limits.antt =====
-- Runs of src/htaccess_exec_ratelimit.c.
use litehttpd.Prelude.{◌≡◌, refl, some, replicate}
use litehttpd.Prelude.Text.{Bytes, codes}
use litehttpd.Shm.{Store, blank, builtin_shm_init, builtin_shm_get}
use litehttpd.Shm.View.{IsValid, init-IsValid}
use litehttpd.RateLimit.{exec_ratelimit}
use litehttpd.RateLimit.Laws.{exec_ratelimit-IsValid, exec_ratelimit-brute_force}

abbrev empty_table : Store
empty_table = record { slots = replicate 8 blank; count = 0 }

empty_table-IsValid : IsValid empty_table
unfolding builtin_shm_init
empty_table-IsValid = init-IsValid 8 empty_table refl

abbrev limit_value : Bytes
limit_value = codes "2/60 burst=1"

abbrev client : Bytes
client = codes "203.0.113.9"

abbrev first_request : Store
first_request = (exec_ratelimit (some limit_value) (some client) 1000 empty_table).0

first_request-IsValid : IsValid first_request
first_request-IsValid =
    exec_ratelimit-IsValid (some limit_value) (some client) 1000 empty_table empty_table-IsValid

exec_ratelimit-brute_force_example :
    builtin_shm_get
      (exec_ratelimit (some limit_value) (some client) 1001 first_request).0
      (codes "b:203.0.113.9")
    ≡ builtin_shm_get first_request (codes "b:203.0.113.9")
exec_ratelimit-brute_force_example =
    exec_ratelimit-brute_force (some limit_value) (some client) 1001 first_request
      (codes ":203.0.113.9") first_request-IsValid refl
