-- ===== src/BruteForce/Count.antt =====
-- How src/htaccess_exec_brute_force.c counts the login attempts of an address, and when it refuses.
use litehttpd.BruteForce.{
  Request, Reply, bf_key, subject, is_within, judge, attempt, apply_action, run_on,
  exec_brute_force, is_post,
}
use litehttpd.BruteForce.Config.{Settings, settings_of}
use litehttpd.BruteForce.Keys.{bf_key-IsKey}
use litehttpd.BruteForce.Laws.{exec_brute_force-IsValid}
use litehttpd.Prelude.{
  ℕ, zero, suc, ◌+◌, ◌<◌, ◌≡◌, ap, ◌∙◌, true, false, some, arith, leb, int_ltb, not,
  not-int_ltb-leb, ◌-◌, ◌≤◌, ◌^◌, if◌then◌else◌, inl, inr, Bool-cases, subst,
}
use litehttpd.Prelude.Text.{Bytes}
use litehttpd.Directive.{Directives, bf_action_block}
use litehttpd.Shm.{
  BruteForceRecord, Store, increment, expired, builtin_shm_get, builtin_shm_update,
  builtin_shm_cleanup,
}
use litehttpd.Shm.View.{IsValid, stored, get-update_self, update-found}
use litehttpd.Shm.Cleanup.{unexpired, get-cleanup}
use litehttpd.Lsi.{lsi_ok, lsi_error}

-- The store holds a count for the address, in a window that is open, in a record that the cleanup
-- of every run leaves: no block ends it, and it is at most 600 seconds old.
pub record IsCounting (cfg : Settings) (ip : Bytes) (now : ℕ) (st : Store) (n : ℕ) : Type 0 where
  pub valid : IsValid st
  pub rec : BruteForceRecord
  pub held : builtin_shm_get st (bf_key ip) ≡ some rec
  pub open_window : now < rec.first_attempt + cfg.window_sec
  pub unblocked : rec.blocked_until ≡ 0
  pub young : now - rec.first_attempt ≤ 600
  pub counted : rec.attempt_count ≡ n

kept_lem :
    (now : ℕ) (r : BruteForceRecord)
    → r.blocked_until ≡ 0
    → now - r.first_attempt ≤ 600
    → expired now r ≡ false
unfolding expired
kept_lem now r h k = rw h (ground arith)

within :
    (now first window : ℕ)
    → window < 2 ^ 31
    → now < first + window
    → is_within now first window ≡ true
unfolding is_within
within now first window h k = ground arith

swept-held :
    (st : Store) (k : Bytes) (now : ℕ) (r : BruteForceRecord)
    → builtin_shm_get (builtin_shm_cleanup st now).0 k ≡ unexpired now (builtin_shm_get st k)
    → builtin_shm_get st k ≡ some r
    → expired now r ≡ false
    → builtin_shm_get (builtin_shm_cleanup st now).0 k ≡ some r
swept-held st k now r e h fresh = e ∙ rw (h, fresh)

blocks :
    (cfg : Settings) (ip : Bytes) (now : ℕ) (st : Store) (r : BruteForceRecord)
    → cfg.action ≡ bf_action_block
    → is_within now r.first_attempt cfg.window_sec ≡ true
    → cfg.allowed_attempts < 2 ^ 31
    → r.attempt_count < 2 ^ 31
    → (judge cfg ip true now st (some r)).1.verdict
      ≡ (if leb cfg.allowed_attempts r.attempt_count then lsi_error 403 else lsi_ok)
unfolding judge
blocks cfg ip now st r block open_window ha hc =
    rw (open_window, not-int_ltb-leb r.attempt_count cfg.allowed_attempts hc ha)
      (elim (Bool-cases (leb cfg.allowed_attempts r.attempt_count)) [
        | inl over ↦ rw (over, block, apply_action)
        | inr under ↦ rw under
      ])

increments :
    (cfg : Settings) (ip : Bytes) (now : ℕ) (st : Store) (r : BruteForceRecord)
    → is_within now r.first_attempt cfg.window_sec ≡ true
    → (judge cfg ip true now st (some r)).0 ≡ (builtin_shm_update st (bf_key ip) (increment r)).0
unfolding judge
increments cfg ip now st r open_window =
    rw open_window (elim (Bool-cases (not (int_ltb r.attempt_count cfg.allowed_attempts))) [
      | inl over ↦ rw over
      | inr under ↦ rw under
    ])

module _ (ds : Directives) (req : Request) (ip : Bytes) (now : ℕ) where
  abbrev cfg : Settings
  cfg = settings_of ds

  -- One more login attempt.
  abbrev pub login : Store → Store × Reply
  login st = exec_brute_force ds req true now st

  -- So many login attempts, one after the other.
  abbrev pub logins : ℕ → Store → Store
  logins zero st = st
  logins (suc n) st = logins n (login st).0

  login-judge :
      (st : Store) (n : ℕ) (c : IsCounting cfg ip now st n)
      → subject cfg req ≡ some ip
      → is_post req.method ≡ true
      → login st ≡ judge cfg ip true now (builtin_shm_cleanup st now).0 (some c.rec)
  unfolding exec_brute_force run_on attempt
  login-judge st n c hs hp =
      let h =
        swept-held st (bf_key ip) now c.rec
          (get-cleanup st now (bf_key ip) c.valid (bf_key-IsKey ip)) c.held
          (kept_lem now c.rec c.unblocked c.young) in
      rw (hs, hp, h)

  -- The next attempt counts one more.
  login-IsCounting :
      (st : Store) (n : ℕ)
      → subject cfg req ≡ some ip
      → is_post req.method ≡ true
      → cfg.window_sec < 2 ^ 31
      → IsCounting cfg ip now st n
      → IsCounting cfg ip now (login st).0 (n + 1)
  login-IsCounting st n hs hp hw c =
      let swept = (builtin_shm_cleanup st now).0 in
      let h : builtin_shm_get swept (bf_key ip) ≡ some c.rec =
        swept-held st (bf_key ip) now c.rec
          (get-cleanup st now (bf_key ip) c.valid (bf_key-IsKey ip)) c.held
          (kept_lem now c.rec c.unblocked c.young) in
      let e : (login st).0 ≡ (builtin_shm_update swept (bf_key ip) (increment c.rec)).0 =
        ap (λ (p : Store × Reply). p.0) (login-judge st n c hs hp)
        ∙ increments cfg ip now swept c.rec
            (within now c.rec.first_attempt cfg.window_sec hw c.open_window) in
      record {
        valid = exec_brute_force-IsValid ds req true now st c.valid;
        rec = stored (bf_key ip) (increment c.rec);
        held = rw e (
            get-update_self swept (bf_key ip) (increment c.rec)
              (update-found swept (bf_key ip) c.rec (increment c.rec) h));
        open_window = c.open_window;
        unblocked = c.unblocked;
        young = c.young;
        counted = ap (λ (m : ℕ). m + 1) c.counted;
      }

  logins-IsCounting :
      (m : ℕ) (st : Store) (n : ℕ)
      → subject cfg req ≡ some ip
      → is_post req.method ≡ true
      → cfg.window_sec < 2 ^ 31
      → IsCounting cfg ip now st n
      → IsCounting cfg ip now (logins m st) (n + m)
  logins-IsCounting zero st n hs hp hw c = subst (λ k. IsCounting cfg ip now st k) (omega arith) c
  logins-IsCounting (suc m) st n hs hp hw c =
      subst (λ k. IsCounting cfg ip now (logins m (login st).0) k) (omega arith)
        (logins-IsCounting m (login st).0 (n + 1) hs hp hw (login-IsCounting st n hs hp hw c))

  -- With the action Block and settings that are not negative: where the store counts n attempts of
  -- a protected address, in an open window and in a record without a block that is at most 600
  -- seconds old, which the cleanup keeps, then after m more POST requests of the same second the
  -- next one is answered with 403 if n + m, an int, has reached the allowed attempts, and passes if
  -- not.
  pub exec_brute_force-blocks :
      (m : ℕ) (st : Store) (n : ℕ)
      → subject cfg req ≡ some ip
      → is_post req.method ≡ true
      → cfg.action ≡ bf_action_block
      → cfg.allowed_attempts < 2 ^ 31
      → cfg.window_sec < 2 ^ 31
      → n + m < 2 ^ 31
      → IsCounting cfg ip now st n
      → (login (logins m st)).1.verdict
        ≡ (if leb cfg.allowed_attempts (n + m) then lsi_error 403 else lsi_ok)
  exec_brute_force-blocks m st n hs hp hb ha hw hc c =
      let c' = logins-IsCounting m st n hs hp hw c in
      ap (λ (p : Store × Reply). p.1.verdict) (login-judge (logins m st) (n + m) c' hs hp)
      ∙ blocks cfg ip now (builtin_shm_cleanup (logins m st) now).0 c'.rec hb
          (within now c'.rec.first_attempt cfg.window_sec hw c'.open_window) ha
          (omega (arith, c'.counted))
      ∙ ap (λ (k : ℕ). if leb cfg.allowed_attempts k then lsi_error 403 else lsi_ok) c'.counted
