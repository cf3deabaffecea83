-- ===== src/Expires/Notation.antt =====
-- Durations in the notation "access plus N unit" are read back.
use native.Mathlib.Nat.{le-div_iff_mul-le, mul-le-mul_right}
use litehttpd.Expires.{
  unit_word, after_word, unit_to_seconds, read_number, times_unit, one_pair, pairs, parse_verbose,
  parse_compact, parse_expires_duration,
}
use litehttpd.Cidr.Decimal.{show_num, digits_value_show, digits_rest_show, head_digit}
use litehttpd.Prelude.{
  ℕ, zero, suc, ◌+◌, ◌-◌, ◌*◌, ◌/◌, ◌<◌, ◌≤◌, ◌≡◌, refl, ap, ◌∙◌, true, false, Option, none, some,
  [], ◌∷◌, ◌++◌, arith, length, if◌then◌else◌, ltb,
}
use litehttpd.Prelude.Text.{
  Bytes, codes, is_digit, is_alpha, skip_ws, peek, starts_with_nocase, str_caseeq, strtol, long_max,
}

-- The units and their seconds, in the singular and in the plural.
pub data IsUnit : Bytes → ℕ → Type 0 where
  second : IsUnit (codes "second") 1
  seconds : IsUnit (codes "seconds") 1
  minute : IsUnit (codes "minute") 60
  minutes : IsUnit (codes "minutes") 60
  hour : IsUnit (codes "hour") 3600
  hours : IsUnit (codes "hours") 3600
  day : IsUnit (codes "day") 86400
  days : IsUnit (codes "days") 86400
  month : IsUnit (codes "month") (30 * 86400)
  months : IsUnit (codes "months") (30 * 86400)
  year : IsUnit (codes "year") (365 * 86400)
  years : IsUnit (codes "years") (365 * 86400)

-- What the parser needs to know of a unit.
record Named (unit : Bytes) (multiplier : ℕ) : Type 0 where
  word : unit_word unit ≡ unit
  last : after_word unit ≡ []
  letter : is_alpha (peek unit) ≡ true
  known : unit_to_seconds unit ≡ some multiplier
  small : multiplier ≤ 31536000

IsUnit-Named : {unit : Bytes} {multiplier : ℕ} → IsUnit unit multiplier → Named unit multiplier
unfolding unit_word after_word unit_to_seconds str_caseeq starts_with_nocase
IsUnit-Named second = record {
  word = refl;
  last = refl;
  letter = refl;
  known = refl;
  small = omega arith;
}
IsUnit-Named seconds = record {
  word = refl;
  last = refl;
  letter = refl;
  known = refl;
  small = omega arith;
}
IsUnit-Named minute = record {
  word = refl;
  last = refl;
  letter = refl;
  known = refl;
  small = omega arith;
}
IsUnit-Named minutes = record {
  word = refl;
  last = refl;
  letter = refl;
  known = refl;
  small = omega arith;
}
IsUnit-Named hour = record {
  word = refl;
  last = refl;
  letter = refl;
  known = refl;
  small = omega arith;
}
IsUnit-Named hours = record {
  word = refl;
  last = refl;
  letter = refl;
  known = refl;
  small = omega arith;
}
IsUnit-Named day = record {
  word = refl;
  last = refl;
  letter = refl;
  known = refl;
  small = omega arith;
}
IsUnit-Named days = record {
  word = refl;
  last = refl;
  letter = refl;
  known = refl;
  small = omega arith;
}
IsUnit-Named month = record {
  word = refl;
  last = refl;
  letter = refl;
  known = refl;
  small = omega arith;
}
IsUnit-Named months = record {
  word = refl;
  last = refl;
  letter = refl;
  known = refl;
  small = omega arith;
}
IsUnit-Named year = record {
  word = refl;
  last = refl;
  letter = refl;
  known = refl;
  small = omega arith;
}
IsUnit-Named years = record {
  word = refl;
  last = refl;
  letter = refl;
  known = refl;
  small = omega arith;
}

nothing : skip_ws [] ≡ []
unfolding skip_ws
nothing = refl

either_none : (o v : Option ℕ) → o ≡ none → (elim o [ some secs ↦ some secs | none ↦ v ]) ≡ v
either_none o v e = rw e

starts : (s : Bytes) → skip_ws (codes "access plus " ++ s) ≡ codes "access plus " ++ s
unfolding skip_ws
starts s = refl

digit_front : (n : ℕ) (s : Bytes) → n < 1000 → is_digit (peek (show_num n ++ s)) ≡ true
digit_front n s lt = let (c, t, e, d) = head_digit n lt in rw e d

read_number_show :
    (n : ℕ) (s : Bytes)
    → n < 1000
    → is_digit (peek s) ≡ false
    → read_number (show_num n ++ s) ≡ some n
unfolding read_number strtol
read_number_show n s lt h = rw (digit_front n s lt, digits_value_show n s lt h) (ground arith)

skip_to_letter : (s : Bytes) → is_alpha (peek s) ≡ true → skip_ws (32 ∷ s) ≡ s
unfolding skip_ws
skip_to_letter [] h = ground arith
skip_to_letter (c ∷ s) h = ground arith

room : (m : ℕ) → suc m ≤ 31536000 → 1000 ≤ long_max / suc m
room m h = (le-div_iff_mul-le (omega arith)).1 (omega arith)

times_unit_small : (n m : ℕ) → n < 1000 → m ≤ 31536000 → times_unit n m ≡ some (n * m)
unfolding times_unit
times_unit_small n zero hn hm = refl
times_unit_small n (suc m) hn hm = ground (arith, room m hm)

one_pair_show :
    (n m : ℕ) (unit : Bytes)
    → n < 1000
    → Named unit m
    → one_pair (show_num n ++ (32 ∷ unit)) ≡ some (n * m, [])
unfolding one_pair strtol
one_pair_show n m unit lt u =
    rw
      (
        read_number_show n (32 ∷ unit) lt refl,
        digits_rest_show n (32 ∷ unit) lt refl,
        skip_to_letter unit u.letter,
        u.letter,
        u.word,
        u.known,
        times_unit_small n m lt u.small,
        u.last,
      )
      (ap (λ (r : Bytes). some (n * m, r)) nothing)

skip_to_number : (n : ℕ) (s : Bytes) → n < 1000 → skip_ws (32 ∷ (show_num n ++ s)) ≡ show_num n ++ s
unfolding skip_ws
skip_to_number n s lt = let (c, t, e, d) = head_digit n lt in rw e (ground arith)

one_more :
    (o : Option (ℕ × Bytes)) (fuel term : ℕ)
    → o ≡ some (term, [])
    → term ≤ long_max
    → (elim o [
      | none ↦ none
      | some (t, rest) ↦ if ltb (long_max - 0) t then none else pairs fuel rest (0 + t) true
    ])
      ≡ some term
unfolding pairs
one_more o fuel term e le = rw e (ground arith)

pairs_single :
    (s : Bytes) (term : ℕ)
    → one_pair s ≡ some (term, [])
    → is_digit (peek s) ≡ true
    → term ≤ long_max
    → pairs (length s) s 0 false ≡ some term
unfolding pairs
pairs_single [] term e d le = ground arith
pairs_single (c ∷ s) term e d le = one_more (one_pair (c ∷ s)) (length s) term e le

after_keywords :
    (s : Bytes)
    → parse_verbose (codes "access plus " ++ s)
      ≡ pairs (length (skip_ws (32 ∷ s))) (skip_ws (32 ∷ s)) 0 false
unfolding parse_verbose starts_with_nocase skip_ws
after_keywords s = refl

not_compact : (s : Bytes) → parse_compact (skip_ws (codes "access plus " ++ s)) ≡ none
unfolding parse_compact skip_ws
not_compact s = refl

product_fits : (n m : ℕ) → n < 1000 → m ≤ 31536000 → n * m ≤ long_max
product_fits n m hn hm = let le : n * m ≤ 1000 * m = mul-le-mul_right m (omega arith) in omega arith

-- "access plus N unit" is read as N times the seconds of the unit, for N below 1000 in decimal and
-- the units second, minute, hour, day, month of 30 days and year of 365 days, in the singular and
-- in the plural.
pub parse_expires_duration_show :
    (n m : ℕ) (unit : Bytes)
    → n < 1000
    → IsUnit unit m
    → parse_expires_duration (some (codes "access plus " ++ (show_num n ++ (32 ∷ unit))))
      ≡ some (n * m)
unfolding parse_expires_duration
parse_expires_duration_show n m unit lt u =
    let s : Bytes = show_num n ++ (32 ∷ unit) in
    either_none (parse_compact (skip_ws (codes "access plus " ++ s)))
      (parse_verbose (skip_ws (codes "access plus " ++ s))) (not_compact s)
    ∙ ap parse_verbose (starts s)
    ∙ after_keywords s
    ∙ ap (λ (r : Bytes). pairs (length r) r 0 false) (skip_to_number n (32 ∷ unit) lt)
    ∙ pairs_single s (n * m) (one_pair_show n m unit lt (IsUnit-Named u))
        (digit_front n (32 ∷ unit) lt) (product_fits n m lt (IsUnit-Named u).small)
