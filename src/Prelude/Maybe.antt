-- ===== src/Prelude/Maybe.antt =====
-- Fallible code: `none` is the -1 or NULL of the source, and `do` its early returns.
use litehttpd.Prelude.{Option, none, some, Bool, true, false, ◌≡◌, refl}

infixl 5 ◌>>=◌ ◌>>◌
abbrev pub ◌>>=◌ {ℓ κ} : {A : Type ℓ} {B : Type κ} → Option A → (A → Option B) → Option B
none >>= f = none
some a >>= f = f a

abbrev pub ◌>>◌ {ℓ} : {B : Type ℓ} → Option (Unit {0}) → Option B → Option B
m >> k = m >>= λ _. k

-- The rest is reached only if the test holds.
abbrev pub guard : Bool → Option (Unit {0})
guard true = some tt
guard false = none

-- Inversion of a step that succeeded.
pub >>=-eq-some {ℓ κ} :
    {A : Type ℓ} {B : Type κ} (m : Option A) (f : A → Option B) {b : B}
    → (m >>= f) ≡ some b
    → (a : A) × (m ≡ some a) × (f a ≡ some b)
>>=-eq-some (some a) f h = (a, refl, h)
>>=-eq-some none f h = cc
