-- ===== src/RateLimit/Laws.antt =====
-- What a run of exec_ratelimit does to the store that it shares.
use litehttpd.RateLimit.{
  rl_key, first_record, restarted, count_request, limit_address, exec_ratelimit,
}
use litehttpd.RateLimit.Config.{RateLimitConfig, ratelimit_parse}
use litehttpd.BruteForce.Keys.{take-take}
use litehttpd.Prelude.{
  ℕ, ◌-◌, ◌≡◌, ◌≢◌, refl, sym, ap, subst, Bool, ◌||◌, ◌==◌, Option, none, some, ◌∷◌, arith, ltb,
  length, take, inl, inr, Bool-cases,
}
use litehttpd.Prelude.Text.{Bytes, peek}
use litehttpd.Shm.{
  BruteForceRecord, Store, fresh_record, increment, builtin_shm_get, builtin_shm_update,
  builtin_shm_atomic_increment,
}
use litehttpd.Shm.Laws.{IsKey}
use litehttpd.Shm.View.{
  IsValid, incremented, get-update_ne, update-IsValid, increment-eq-get-update,
}

pub rl_key-IsKey : (ip : Bytes) → IsKey (rl_key ip)
unfolding rl_key
rl_key-IsKey ip = ap (λ (s : Bytes). b'r' ∷ b':' ∷ s) (take-take 47 46 ip (omega arith))

apart_keys : ◌≡◌ {A = ℕ} 98 114 → ⊥
apart_keys h = omega arith

rl_key-ne : (ip k : Bytes) → (b'b' ∷ k) ≢ rl_key ip
unfolding rl_key
rl_key-ne ip k h = apart_keys (ap peek h)

-- What holds after every write that count_request can make.
module _ {ℓ} (P : Store → Type ℓ) (key : Bytes) (now : ℕ) (st : Store) (valid : IsValid st)
    (write : (r : BruteForceRecord) → P (builtin_shm_update st key r).0) where
  incremented-holds : (found : Option BruteForceRecord) → P (incremented st key now found).0
  incremented-holds none = write (fresh_record key now)
  incremented-holds (some r) = write (increment r)

  increment-holds : P (builtin_shm_atomic_increment st key now).0
  increment-holds =
      subst (λ (t : Store × Bool × BruteForceRecord). P t.0)
        (sym (increment-eq-get-update st key now valid))
        (incremented-holds (builtin_shm_get st key))

  count_request-holds :
      (cfg : RateLimitConfig) (found : Option BruteForceRecord)
      → P (count_request cfg key now st found).0
  unfolding count_request
  count_request-holds cfg none = write (first_record now)
  count_request-holds cfg (some rec) =
      elim (Bool-cases (ltb cfg.window_secs (now - rec.first_attempt))) [
        | inl past ↦ rw past (write (restarted now rec))
        | inr within ↦ rw within increment-holds
      ]

limit_address-IsValid :
    (cfg : RateLimitConfig) (client_ip : Option Bytes) (now : ℕ) (st : Store)
    → IsValid st
    → IsValid (limit_address cfg client_ip now st).0
unfolding limit_address
limit_address-IsValid cfg none now st valid = valid
limit_address-IsValid cfg (some ip) now st valid =
    elim (Bool-cases (cfg.requests == 0 || length ip == 0)) [
      | inl off ↦ rw off valid
      | inr limited ↦ rw limited (
          count_request-holds IsValid (rl_key (take 63 ip)) now st valid
            (λ r. update-IsValid st (rl_key (take 63 ip)) r (rl_key-IsKey (take 63 ip)) valid) cfg
            _)
    ]

limit_address-other :
    (cfg : RateLimitConfig) (client_ip : Option Bytes) (now : ℕ) (st : Store) (k : Bytes)
    → IsValid st
    → IsKey (b'b' ∷ k)
    → builtin_shm_get (limit_address cfg client_ip now st).0 (b'b' ∷ k)
      ≡ builtin_shm_get st (b'b' ∷ k)
unfolding limit_address
limit_address-other cfg none now st k valid hk = refl
limit_address-other cfg (some ip) now st k valid hk =
    elim (Bool-cases (cfg.requests == 0 || length ip == 0)) [
      | inl off ↦ rw off
      | inr limited ↦ rw limited (
          count_request-holds (λ s. builtin_shm_get s (b'b' ∷ k) ≡ builtin_shm_get st (b'b' ∷ k))
            (rl_key (take 63 ip)) now st valid
            (λ r.
              get-update_ne st (rl_key (take 63 ip)) (b'b' ∷ k) r valid (rl_key-IsKey (take 63 ip))
                hk (rl_key-ne (take 63 ip) k))
            cfg _)
    ]

-- Every run of the rate limit keeps a valid store valid.
pub exec_ratelimit-IsValid :
    (value client_ip : Option Bytes) (now : ℕ) (st : Store)
    → IsValid st
    → IsValid (exec_ratelimit value client_ip now st).0
unfolding exec_ratelimit
exec_ratelimit-IsValid none client_ip now st valid = valid
exec_ratelimit-IsValid (some value) client_ip now st valid =
    limit_address-IsValid (ratelimit_parse value) client_ip now st valid

-- In a valid store a run of the rate limit leaves every counter of the brute-force protection,
-- which stands under a key that begins with `b`, as it was.
pub exec_ratelimit-brute_force :
    (value client_ip : Option Bytes) (now : ℕ) (st : Store) (k : Bytes)
    → IsValid st
    → IsKey (b'b' ∷ k)
    → builtin_shm_get (exec_ratelimit value client_ip now st).0 (b'b' ∷ k)
      ≡ builtin_shm_get st (b'b' ∷ k)
unfolding exec_ratelimit
exec_ratelimit-brute_force none client_ip now st k valid hk = refl
exec_ratelimit-brute_force (some value) client_ip now st k valid hk =
    limit_address-other (ratelimit_parse value) client_ip now st k valid hk
