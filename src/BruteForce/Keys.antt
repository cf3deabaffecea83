-- ===== src/BruteForce/Keys.antt =====
-- The keys of src/htaccess_exec_brute_force.c fit the key field of the store.
use litehttpd.BruteForce.{bf_key}
use litehttpd.Prelude.{ℕ, zero, suc, ◌≡◌, ◌≢◌, ◌≤◌, refl, ap, List, [], ◌∷◌, take, arith}
use litehttpd.Prelude.Text.{Bytes, peek}
use litehttpd.Shm.Laws.{IsKey}

take-empty {ℓ} : {A : Type ℓ} (k : ℕ) → take {A = A} k [] ≡ []
take-empty zero = refl
take-empty (suc k) = refl

pub take-take {ℓ} : {A : Type ℓ} (m n : ℕ) (xs : List A) → n ≤ m → take m (take n xs) ≡ take n xs
take-take m zero xs h = take-empty m
take-take m (suc n) [] h = take-empty m
take-take zero (suc n) (x ∷ xs) h = absurd (omega arith)
take-take (suc m) (suc n) (x ∷ xs) h = ap (λ ys. x ∷ ys) (take-take m n xs (omega arith))

pub bf_key-IsKey : (ip : Bytes) → IsKey (bf_key ip)
unfolding bf_key
bf_key-IsKey ip = ap (λ (s : Bytes). b'b' ∷ b':' ∷ s) (take-take 47 46 ip (omega arith))

apart : ◌≡◌ {A = ℕ} 98 114 → ⊥
apart h = omega arith

-- The two features never use each other's keys.
pub bf_key-ne : (ip k : Bytes) → bf_key ip ≢ (b'r' ∷ k)
unfolding bf_key
bf_key-ne ip k h = apart (ap peek h)
