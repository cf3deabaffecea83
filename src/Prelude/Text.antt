-- ===== src/Prelude/Text.antt =====
-- C strings as lists of bytes, without the final NUL, and what the program uses of ctype.h,
-- string.h and stdlib.h, in the C locale. `none` is a null pointer where a `char *` may be one.
use Prim.Native.Char.{code}
use Prim.Native.String.{String}
use litehttpd.Prelude.{
  Option, none, some, length, drop, ℕ, ◌+◌, ◌-◌, ◌*◌, ◌%◌, ◌^◌, min, ◌≡◌, refl, Bool, true, false,
  not, ◌&&◌, ◌||◌, List, [], ◌∷◌, arith, ltb, leb, ◌==◌, if◌then◌else◌, ◌↔◌,
}

abbrev pub Bytes : Type 0
Bytes = List ℕ

-- The bytes of an ASCII text.
abbrev pub codes : String → Bytes
codes String.[] = []
codes (String.◌∷◌ c s) = code c ∷ codes s

abbrev pub is_space : ℕ → Bool
is_space c = c == 32 || (leb 9 c && leb c 13)

abbrev pub is_digit : ℕ → Bool
is_digit c = leb b'0' c && leb c b'9'

abbrev pub is_alpha : ℕ → Bool
is_alpha c = (leb b'a' c && leb c b'z') || (leb b'A' c && leb c b'Z')

abbrev pub to_lower : ℕ → ℕ
to_lower c = if leb b'A' c && leb c b'Z' then c + 32 else c

-- while (isspace(*p)) p++;
unfoldable pub skip_ws : Bytes → Bytes
skip_ws [] = []
skip_ws (c ∷ s) = let rest = skip_ws s in if is_space c then rest else c ∷ s

-- *p == '\0'
abbrev pub at_end : Bytes → Bool
at_end [] = true
at_end (c ∷ s) = false

-- What stands at `p`; 0 is the final NUL.
abbrev pub peek : Bytes → ℕ
peek [] = 0
peek (c ∷ s) = c

-- strcmp(s, t) == 0
unfoldable pub str_eq : Bytes → Bytes → Bool
str_eq [] [] = true
str_eq (a ∷ s) (b ∷ t) = a == b && str_eq s t
str_eq _ _ = false

-- strcasecmp(s, t) == 0
unfoldable pub str_caseeq : Bytes → Bytes → Bool
str_caseeq [] [] = true
str_caseeq (a ∷ s) (b ∷ t) = to_lower a == to_lower b && str_caseeq s t
str_caseeq _ _ = false

-- strncmp(s, t, strlen(t)) == 0
unfoldable pub starts_with : Bytes → Bytes → Bool
starts_with s [] = true
starts_with [] (b ∷ t) = false
starts_with (a ∷ s) (b ∷ t) = a == b && starts_with s t

-- strncasecmp(s, t, strlen(t)) == 0
unfoldable pub starts_with_nocase : Bytes → Bytes → Bool
starts_with_nocase s [] = true
starts_with_nocase [] (b ∷ t) = false
starts_with_nocase (a ∷ s) (b ∷ t) = to_lower a == to_lower b && starts_with_nocase s t

-- strchr(s, c) != NULL
unfoldable pub has_char : ℕ → Bytes → Bool
has_char c [] = false
has_char c (a ∷ s) = a == c || has_char c s

pub str_eq_iff : (s t : Bytes) → (str_eq s t ≡ true) ↔ (s ≡ t)
unfolding str_eq
str_eq_iff [] [] = (λ _. refl, λ _. refl)
str_eq_iff [] (b ∷ t) = (λ h. cc, λ h. cc)
str_eq_iff (a ∷ s) [] = (λ h. cc, λ h. cc)
str_eq_iff (a ∷ s) (b ∷ t) = ground (arith, str_eq_iff s t)

pub str_eq_refl : (s : Bytes) → str_eq s s ≡ true
str_eq_refl s = (str_eq_iff s s).1 refl

-- What a conversion by strtoul or strtol leaves: the value, `*endptr`, whether a digit was read,
-- and whether errno is ERANGE.
pub record Converted : Type 0 where
  pub value : ℕ
  pub rest : Bytes
  pub any : Bool
  pub erange : Bool

-- The value of the digits at the front, after `acc`, and what stands behind them.
unfoldable pub digits_value : ℕ → Bytes → ℕ
digits_value acc [] = acc
digits_value acc (c ∷ s) =
    let next = digits_value (acc * 10 + (c - b'0')) s in if is_digit c then next else acc

unfoldable pub digits_rest : Bytes → Bytes
digits_rest [] = []
digits_rest (c ∷ s) = let next = digits_rest s in if is_digit c then next else c ∷ s

abbrev pub ulong_max : ℕ
ulong_max = 2 ^ 64 - 1

abbrev pub long_max : ℕ
long_max = 2 ^ 63 - 1

-- An optional sign; `-` negates the value modulo 2 ^ 64.
abbrev pub is_minus : Bytes → Bool
is_minus s = peek s == b'-'

abbrev pub skip_sign : Bytes → Bytes
skip_sign [] = []
skip_sign (c ∷ s) = if c == b'-' || c == b'+' then s else c ∷ s

unfoldable pub convert : Bytes → Bool → Bytes → Converted
convert s negative t =
    let v = digits_value 0 t in
    if not (is_digit (peek t))
    then record { value = 0; rest = s; any = false; erange = false }
    else if ltb ulong_max v
    then record { value = ulong_max; rest = digits_rest t; any = true; erange = true }
    else record {
      value = if negative then (2 ^ 64 - v) % 2 ^ 64 else v;
      rest = digits_rest t;
      any = true;
      erange = false;
    }

-- strtoul(s, &end, 10) for a 64-bit unsigned long.
unfoldable pub strtoul : Bytes → Converted
unfolding convert skip_ws
strtoul s = let t = skip_ws s in convert s (is_minus t) (skip_sign t)

-- strtol(s, &end, 10) for a 64-bit long, where a digit stands at `s`.
unfoldable pub strtol : Bytes → Converted
strtol s =
    let v = digits_value 0 s in
    record {
      value = min long_max v;
      rest = digits_rest s;
      any = is_digit (peek s);
      erange = ltb long_max v;
    }

strtoul_runs : (strtoul (codes " +42/8")).value ≡ 42
unfolding strtoul digits_value digits_rest
strtoul_runs = refl

strtoul_wraps : (strtoul (codes "-18446744073709551600")).value ≡ 16
unfolding strtoul digits_value digits_rest
strtoul_wraps = refl

-- What strtol makes of the digits, as an unsigned number of 64 bits.
abbrev pub long_bits : Bool → ℕ → ℕ
long_bits true v = (2 ^ 64 - min v (2 ^ 63)) % 2 ^ 64
long_bits false v = min v (2 ^ 63 - 1)

-- atoi as (int)strtol: the low 32 bits, of which 2 ^ 31 and above stand for negative numbers.
unfoldable pub atoi : Bytes → ℕ
unfolding skip_ws digits_value
atoi s = let t = skip_ws s in long_bits (is_minus t) (digits_value 0 (skip_sign t)) % 2 ^ 32

-- What stands behind the first occurrence of a text, as strstr finds it.
unfoldable pub behind : Bytes → Bytes → Option Bytes
behind needle [] = none
behind needle (c ∷ s) =
    let later = behind needle s in
    if starts_with (c ∷ s) needle then some (drop (length needle) (c ∷ s)) else later

abbrev pub occurs : Bytes → Bytes → Bool
occurs needle s = elim (behind needle s) [ none ↦ false | some rest ↦ true ]
