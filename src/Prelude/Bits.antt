-- ===== src/Prelude/Bits.antt =====
-- Powers of two, and `bit_and` with a mask of consecutive ones.
use Prim.Native.Nat.{bit_and, digits, bit_and-bitwise}
use native.Mathlib.Nat.{pow-suc, one-le-pow, div-div-eq-div-mul, mul-div_cancel, div-mul-le_self}
use litehttpd.Prelude.{
  ℕ, zero, suc, ◌-◌, ◌*◌, ◌/◌, ◌^◌, ◌≤◌, ◌<◌, min, ◌≡◌, refl, sym, ◌∙◌, ◌↔◌, arith,
}

pub pow-pos : (k : ℕ) → 1 ≤ 2 ^ k
pow-pos k = one-le-pow k 2 (omega arith)

pow-double : (k : ℕ) → 2 ^ suc k ≡ 2 * 2 ^ k
pow-double k = omega (arith, pow-suc 2 k)

half-div : (k a : ℕ) → a / 2 ^ suc k ≡ a / 2 / 2 ^ k
half-div k a = rw (pow-double k) (sym (div-div-eq-div-mul a 2 (2 ^ k)))

mul-pow-double : (q k : ℕ) → q * 2 ^ suc k ≡ 2 * (q * 2 ^ k)
mul-pow-double q k = rw (pow-double k) (omega arith)

zero_high : (k : ℕ) → 0 ≡ 0 / 2 ^ k * 2 ^ k
zero_high k = let h = div-mul-le_self 0 (2 ^ k) in omega (arith, h)

-- The conjunction digit by digit, with fuel: what the native operation stands for.
abbrev conjoin : ℕ → ℕ → ℕ → ℕ
conjoin fuel x mask = digits (λ y. 0) min fuel x mask

conjoin_ones : (fuel w x : ℕ) → x ≤ fuel → x < 2 ^ w → conjoin fuel x (2 ^ w - 1) ≡ x
conjoin_ones zero w zero le lt = refl
conjoin_ones (suc fuel) w zero le lt = refl
conjoin_ones zero w (suc x) le lt = absurd (omega arith)
conjoin_ones (suc fuel) zero (suc x) le lt = absurd (omega arith)
conjoin_ones (suc fuel) (suc w) (suc x) le lt =
    ground (arith, pow-double w, pow-pos w, conjoin_ones fuel w (suc x / 2))

conjoin_high :
    (fuel k w x : ℕ)
    → x ≤ fuel
    → k ≤ w
    → x < 2 ^ w
    → conjoin fuel x (2 ^ w - 2 ^ k) ≡ x / 2 ^ k * 2 ^ k
conjoin_high fuel zero w x le kw lt = omega (arith, conjoin_ones fuel w x le lt)
conjoin_high fuel (suc k) zero x le kw lt = absurd (omega arith)
conjoin_high zero (suc k) (suc w) zero le kw lt = zero_high (suc k)
conjoin_high (suc fuel) (suc k) (suc w) zero le kw lt = zero_high (suc k)
conjoin_high zero (suc k) (suc w) (suc x) le kw lt = absurd (omega arith)
conjoin_high (suc fuel) (suc k) (suc w) (suc x) le kw lt = ground (
  arith,
  pow-double w,
  pow-double k,
  half-div k (suc x),
  mul-pow-double (suc x / 2 / 2 ^ k) k,
  conjoin_high fuel k w (suc x / 2),
)

-- A mask whose low `k` of `w` bits are zero clears these bits.
pub bit_and_high : (k w a : ℕ) → k ≤ w → a < 2 ^ w → bit_and a (2 ^ w - 2 ^ k) ≡ a / 2 ^ k * 2 ^ k
bit_and_high k w a le h =
    bit_and-bitwise a (2 ^ w - 2 ^ k) ∙ conjoin_high a k w a (omega arith) le h

-- Under such a mask two numbers agree exactly if they agree above the low `k` bits.
pub bit_and_high_iff :
    (k w a b : ℕ)
    → k ≤ w
    → a < 2 ^ w
    → b < 2 ^ w
    → (bit_and a (2 ^ w - 2 ^ k) ≡ bit_and b (2 ^ w - 2 ^ k)) ↔ (a / 2 ^ k ≡ b / 2 ^ k)
bit_and_high_iff k w a b le ha hb = (
  λ e. cc (
    mul-div_cancel (a / 2 ^ k) (pow-pos k),
    mul-div_cancel (b / 2 ^ k) (pow-pos k),
    bit_and_high k w a le ha,
    bit_and_high k w b le hb,
    e,
  ),
  λ e. cc (bit_and_high k w a le ha, bit_and_high k w b le hb, e),
)

-- Masking twice is masking once.
pub bit_and_high_idem :
    (k w a : ℕ)
    → k ≤ w
    → a < 2 ^ w
    → bit_and (bit_and a (2 ^ w - 2 ^ k)) (2 ^ w - 2 ^ k) ≡ bit_and a (2 ^ w - 2 ^ k)
bit_and_high_idem k w a le h =
    let m = a / 2 ^ k * 2 ^ k in
    let e : bit_and a (2 ^ w - 2 ^ k) ≡ m = bit_and_high k w a le h in
    let small : m ≤ a = div-mul-le_self a (2 ^ k) in
    rw e (cc (bit_and_high k w m le (omega arith), mul-div_cancel (a / 2 ^ k) (pow-pos k)))
