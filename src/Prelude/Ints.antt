-- ===== src/Prelude/Ints.antt =====
-- Tests of the type int of C, which has 32 bits: a number stands for its pattern of bits, so that
-- 2 ^ 31 and above are the negative ones.
use Prim.Native.Nat.{ℕ, ◌+◌, ◌%◌, ◌^◌, ◌<◌}
use mathlib.Core.Path.{◌≡◌}
use mathlib.Core.Bool.{Bool, not}
use native.Mathlib.Omega.{arith}
use native.Mathlib.Nat.{mod-eq_of_lt}
use litehttpd.Prelude.Tests.{ltb, leb}

-- `<` of two ints; a sum as an operand wraps around.
unfoldable pub int_ltb : ℕ → ℕ → Bool
int_ltb a b = ltb ((a + 2 ^ 31) % 2 ^ 32) ((b + 2 ^ 31) % 2 ^ 32)

-- Of two that are not negative it is the test on the numbers.
pub int_ltb-ltb : (a b : ℕ) → a < 2 ^ 31 → b < 2 ^ 31 → int_ltb a b ≡ ltb a b
unfolding int_ltb
int_ltb-ltb a b h k =
    let p : (a + 2 ^ 31) % 2 ^ 32 ≡ a + 2 ^ 31 = mod-eq_of_lt (omega arith) in
    let q : (b + 2 ^ 31) % 2 ^ 32 ≡ b + 2 ^ 31 = mod-eq_of_lt (omega arith) in
    rw (p, q) (ground arith)

pub not-int_ltb-leb : (a b : ℕ) → a < 2 ^ 31 → b < 2 ^ 31 → not (int_ltb a b) ≡ leb b a
not-int_ltb-leb a b h k = rw (int_ltb-ltb a b h k) (ground arith)
