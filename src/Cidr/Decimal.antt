-- ===== src/Cidr/Decimal.antt =====
-- Small numbers in decimal, as strtoul reads them.
use litehttpd.Prelude.{
  ℕ, ◌+◌, ◌-◌, ◌*◌, ◌/◌, ◌%◌, ◌<◌, ◌≡◌, refl, true, false, [], ◌∷◌, ◌++◌, arith, Bool-cases, inl,
  inr, ltb, if◌then◌else◌,
}
use litehttpd.Prelude.Text.{Bytes, is_digit, peek, digits_value, digits_rest, strtoul}

-- A number below 1000 in decimal, with no leading zero.
unfoldable pub show_num : ℕ → Bytes
show_num n =
    if ltb n 10
    then (b'0' + n) ∷ []
    else if ltb n 100
    then (b'0' + n / 10) ∷ (b'0' + n % 10) ∷ []
    else (b'0' + n / 100) ∷ (b'0' + n / 10 % 10) ∷ (b'0' + n % 10) ∷ []

digits_value_stop : (acc : ℕ) (s : Bytes) → is_digit (peek s) ≡ false → digits_value acc s ≡ acc
unfolding digits_value
digits_value_stop acc [] h = refl
digits_value_stop acc (c ∷ s) h = ground arith

digits_rest_stop : (s : Bytes) → is_digit (peek s) ≡ false → digits_rest s ≡ s
unfolding digits_rest
digits_rest_stop [] h = refl
digits_rest_stop (c ∷ s) h = ground arith

pub digit : (d : ℕ) → d < 10 → is_digit (b'0' + d) ≡ true
digit d h = ground arith

digits_value_step :
    (acc d : ℕ) (s : Bytes)
    → d < 10
    → digits_value acc ((b'0' + d) ∷ s) ≡ digits_value (acc * 10 + d) s
unfolding digits_value
digits_value_step acc d s h = let e : b'0' + d - b'0' ≡ d = omega arith in rw (digit d h, e)

digits_rest_step : (d : ℕ) (s : Bytes) → d < 10 → digits_rest ((b'0' + d) ∷ s) ≡ digits_rest s
unfolding digits_rest
digits_rest_step d s h = rw (digit d h)

pub digits_value_show :
    (n : ℕ) (s : Bytes)
    → n < 1000
    → is_digit (peek s) ≡ false
    → digits_value 0 (show_num n ++ s) ≡ n
unfolding show_num
digits_value_show n s lt h = elim (Bool-cases (ltb n 10)) [
  | inl one ↦
      rw (one, digits_value_step 0 n s (ground arith))
        (omega (arith, digits_value_stop (0 * 10 + n) s h))
  | inr more ↦ rw more (elim (Bool-cases (ltb n 100)) [
    | inl two ↦
        rw
          (
            two,
            digits_value_step 0 (n / 10) ((b'0' + n % 10) ∷ s) (ground arith),
            digits_value_step (0 * 10 + n / 10) (n % 10) s (omega arith),
          )
          (omega (arith, digits_value_stop ((0 * 10 + n / 10) * 10 + n % 10) s h))
    | inr three ↦
        rw
          (
            three,
            digits_value_step 0 (n / 100) ((b'0' + n / 10 % 10) ∷ (b'0' + n % 10) ∷ s)
                (omega arith),
            digits_value_step (0 * 10 + n / 100) (n / 10 % 10) ((b'0' + n % 10) ∷ s) (omega arith),
            digits_value_step ((0 * 10 + n / 100) * 10 + n / 10 % 10) (n % 10) s (omega arith),
          )
          (omega
            (arith, digits_value_stop (((0 * 10 + n / 100) * 10 + n / 10 % 10) * 10 + n % 10) s h))
  ])
]

pub digits_rest_show :
    (n : ℕ) (s : Bytes) → n < 1000 → is_digit (peek s) ≡ false → digits_rest (show_num n ++ s) ≡ s
unfolding show_num
digits_rest_show n s lt h = ground (
  arith,
  digits_rest_stop s h,
  digits_rest_step n s,
  digits_rest_step (n / 10) ((b'0' + n % 10) ∷ s),
  digits_rest_step (n / 100) ((b'0' + n / 10 % 10) ∷ (b'0' + n % 10) ∷ s),
  digits_rest_step (n / 10 % 10) ((b'0' + n % 10) ∷ s),
  digits_rest_step (n % 10) s,
)

strtoul_digit :
    (c : ℕ) (s : Bytes)
    → is_digit c ≡ true
    → digits_value 0 (c ∷ s) < 1000
    → strtoul (c ∷ s) ≡ record {
      value = digits_value 0 (c ∷ s);
      rest = digits_rest (c ∷ s);
      any = true;
      erange = false;
    }
unfolding strtoul
strtoul_digit c s d lt = ground arith

pub head_digit :
    (n : ℕ) → n < 1000 → (c : ℕ) × (s : Bytes) × (show_num n ≡ c ∷ s) × (is_digit c ≡ true)
unfolding show_num
head_digit n h = elim (Bool-cases (ltb n 10)) [
  | inl one ↦ (b'0' + n, [], ground arith, ground arith)
  | inr more ↦ elim (Bool-cases (ltb n 100)) [
    | inl two ↦ (b'0' + n / 10, (b'0' + n % 10) ∷ [], ground arith, ground arith)
    | inr three ↦ (
      b'0' + n / 100,
      (b'0' + n / 10 % 10) ∷ (b'0' + n % 10) ∷ [],
      ground arith,
      digit (n / 100) (omega arith),
    )
  ]
]

pub strtoul_show :
    (n : ℕ) (s : Bytes)
    → n < 1000
    → is_digit (peek s) ≡ false
    → strtoul (show_num n ++ s) ≡ record { value = n; rest = s; any = true; erange = false }
strtoul_show n s lt h =
    let (c, t, e, d) = head_digit n lt in
    let v : digits_value 0 (c ∷ (t ++ s)) ≡ n = rw e at (digits_value_show n s lt h) in
    let r : digits_rest (c ∷ (t ++ s)) ≡ s = rw e at (digits_rest_show n s lt h) in
    rw e (cc (strtoul_digit c (t ++ s) d (omega arith), v, r))
