-- ===== src/BruteForce/Laws.antt =====
-- What a run of exec_brute_force does to the store that it shares.
use litehttpd.BruteForce.{
  Request, bf_key, subject, start_record, count_record, is_within, judge, attempt, run_on,
  exec_brute_force, is_post,
}
use litehttpd.BruteForce.Config.{Settings, settings_of}
use litehttpd.BruteForce.Keys.{bf_key-IsKey, bf_key-ne}
use litehttpd.Prelude.{
  ℕ, ◌≡◌, ◌≢◌, refl, sym, ◌∙◌, Bool, true, false, ◌&&◌, Option, none, some, ◌∷◌, int_ltb, not, inl,
  inr, ◌⊎◌, Bool-cases,
}
use litehttpd.Prelude.Text.{Bytes}
use litehttpd.Directive.{Directives}
use litehttpd.Shm.{
  BruteForceRecord, Store, fresh_record, increment, builtin_shm_get, builtin_shm_update,
  builtin_shm_cleanup,
}
use litehttpd.Shm.Laws.{IsKey}
use litehttpd.Shm.View.{IsValid, get-update_ne, update-IsValid}
use litehttpd.Shm.Cleanup.{unexpired, cleanup-IsValid, get-cleanup}

-- What holds after every write that judge can make.
judge-cases {ℓ} :
    (P : Store → Type ℓ) (cfg : Settings) (ip : Bytes) (counts : Bool) (now : ℕ) (st : Store)
    → P st
    → ((r : BruteForceRecord) → P (builtin_shm_update st (bf_key ip) r).0)
    → (found : Option BruteForceRecord) → P (judge cfg ip counts now st found).0
unfolding judge
judge-cases P cfg ip counts now st same write found = go found
  where
    started : (b : Bool) → P (start_record b ip now st)
    started true = write (fresh_record ip now)
    started false = same

    counted : (b : Bool) (rec : BruteForceRecord) → P (count_record b ip rec st)
    counted true rec = write (increment rec)
    counted false rec = same

    go : (found' : Option BruteForceRecord) → P (judge cfg ip counts now st found').0
    go none = started counts
    go (some rec) = elim (Bool-cases (is_within now rec.first_attempt cfg.window_sec)) [
      | inl within ↦ elim (Bool-cases (not (int_ltb rec.attempt_count cfg.allowed_attempts))) [
        | inl over ↦ rw (within, over) (counted true rec)
        | inr under ↦ rw (within, under) (counted counts rec)
      ]
      | inr past ↦ rw past (started counts)
    ]

pub attempt-IsValid :
    (cfg : Settings) (ip : Bytes) (counts : Bool) (now : ℕ) (st : Store)
    → IsValid st
    → IsValid (attempt cfg ip counts now st).0
unfolding attempt
attempt-IsValid cfg ip counts now st valid =
    let swept = cleanup-IsValid st now valid in
    judge-cases IsValid cfg ip counts now (builtin_shm_cleanup st now).0 swept
      (λ r. update-IsValid (builtin_shm_cleanup st now).0 (bf_key ip) r (bf_key-IsKey ip) swept) _

attempt-other :
    (cfg : Settings) (ip : Bytes) (counts : Bool) (now : ℕ) (st : Store) (k : Bytes)
    → IsValid st
    → IsKey k
    → k ≢ bf_key ip
    → builtin_shm_get (attempt cfg ip counts now st).0 k ≡ unexpired now (builtin_shm_get st k)
unfolding attempt
attempt-other cfg ip counts now st k valid hk ne =
    let swept = cleanup-IsValid st now valid in
    judge-cases (λ s. builtin_shm_get s k ≡ unexpired now (builtin_shm_get st k)) cfg ip counts now
      (builtin_shm_cleanup st now).0 (get-cleanup st now k valid hk)
      (λ r.
        get-update_ne (builtin_shm_cleanup st now).0 (bf_key ip) k r swept (bf_key-IsKey ip) hk ne
        ∙ get-cleanup st now k valid hk)
      _

run_on-IsValid :
    (cfg : Settings) (counts : Bool) (now : ℕ) (st : Store) (o : Option Bytes)
    → IsValid st
    → IsValid (run_on cfg counts now st o).0
unfolding run_on
run_on-IsValid cfg counts now st none valid = valid
run_on-IsValid cfg counts now st (some ip) valid = attempt-IsValid cfg ip counts now st valid

abbrev pub KeptOrExpired : ℕ → Option BruteForceRecord → Option BruteForceRecord → Type 0
KeptOrExpired now before after = (after ≡ before) ⊎ (after ≡ unexpired now before)

run_on-other :
    (cfg : Settings) (counts : Bool) (now : ℕ) (st : Store) (o : Option Bytes) (k : Bytes)
    → IsValid st
    → IsKey (b'r' ∷ k)
    → KeptOrExpired now
        (builtin_shm_get st (b'r' ∷ k))
        (builtin_shm_get (run_on cfg counts now st o).0 (b'r' ∷ k))
unfolding run_on
run_on-other cfg counts now st none k valid hk = inl refl
run_on-other cfg counts now st (some ip) k valid hk =
    inr (attempt-other cfg ip counts now st (b'r' ∷ k) valid hk (λ q. bf_key-ne ip k (sym q)))

-- Every run of the executor keeps a valid store valid.
pub exec_brute_force-IsValid :
    (ds : Directives) (req : Request) (count_attempt : Bool) (now : ℕ) (st : Store)
    → IsValid st
    → IsValid (exec_brute_force ds req count_attempt now st).0
unfolding exec_brute_force
exec_brute_force-IsValid ds req count_attempt now st valid =
    run_on-IsValid (settings_of ds) (count_attempt && is_post req.method) now st
      (subject (settings_of ds) req) valid

-- In a valid store a run of the executor leaves every counter of the rate limit, which stands under
-- a key that begins with `r`, as it was, or removes it if it has expired.
pub exec_brute_force-ratelimit :
    (ds : Directives) (req : Request) (count_attempt : Bool) (now : ℕ) (st : Store) (k : Bytes)
    → IsValid st
    → IsKey (b'r' ∷ k)
    → KeptOrExpired now
        (builtin_shm_get st (b'r' ∷ k))
        (builtin_shm_get (exec_brute_force ds req count_attempt now st).0 (b'r' ∷ k))
unfolding exec_brute_force
exec_brute_force-ratelimit ds req count_attempt now st k valid hk =
    run_on-other (settings_of ds) (count_attempt && is_post req.method) now st
      (subject (settings_of ds) req) k valid hk
