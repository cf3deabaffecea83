-- ===== src/Expires/Fuel.antt =====
-- Every pass of the loop of parse_expires_duration shortens the text.
use litehttpd.Expires.{
  unit_word, after_word, read_number, one_pair, pairs, times_unit, unit_to_seconds,
}
use litehttpd.Prelude.{
  ℕ, zero, suc, ◌+◌, ◌-◌, ◌≤◌, ◌<◌, ◌≡◌, refl, sym, ap, Bool, true, Option, none, some, [], ◌∷◌,
  arith, if◌then◌else◌, length, ltb,
}
use litehttpd.Prelude.Text.{Bytes, is_digit, is_alpha, skip_ws, peek, digits_rest, strtol, long_max}
use litehttpd.Prelude.Maybe.{guard, >>=-eq-some}

skip_ws-le : (s : Bytes) → length (skip_ws s) ≤ length s
unfolding skip_ws
skip_ws-le [] = omega arith
skip_ws-le (c ∷ s) = let h = skip_ws-le s in ground arith

digits_rest-le : (s : Bytes) → length (digits_rest s) ≤ length s
unfolding digits_rest
digits_rest-le [] = omega arith
digits_rest-le (c ∷ s) = let h = digits_rest-le s in ground arith

digits_rest-lt : (s : Bytes) → is_digit (peek s) ≡ true → length (digits_rest s) < length s
unfolding digits_rest
digits_rest-lt [] h = ground arith
digits_rest-lt (c ∷ s) h = let k = digits_rest-le s in ground arith

after_word-le : (s : Bytes) → length (after_word s) ≤ length s
unfolding after_word
after_word-le [] = omega arith
after_word-le (c ∷ s) = let h = after_word-le s in ground arith

read_number-digit : (p : Bytes) (n : ℕ) → read_number p ≡ some n → is_digit (peek p) ≡ true
unfolding read_number
read_number-digit p n h = ground arith

one_pair-lt : (p rest : Bytes) (term : ℕ) → one_pair p ≡ some (term, rest) → length rest < length p
unfolding one_pair strtol
one_pair-lt p rest term h =
    let (n, e1, h1) = >>=-eq-some (read_number p) _ h in
    let q : Bytes = skip_ws (digits_rest p) in
    let (u, e2, h2) = >>=-eq-some (guard (is_alpha (peek q))) _ h1 in
    let (m, e3, h3) = >>=-eq-some (unit_to_seconds (unit_word q)) _ h2 in
    let (t, e4, h4) = >>=-eq-some (times_unit n m) _ h3 in
    let e : skip_ws (after_word (skip_ws (digits_rest p))) ≡ rest = cc h4 in
    let d = digits_rest-lt p (read_number-digit p n e1) in
    omega (
      arith,
      ap length (sym e),
      skip_ws-le (after_word (skip_ws (digits_rest p))),
      after_word-le (skip_ws (digits_rest p)),
      skip_ws-le (digits_rest p),
      d,
    )

abbrev continue : Option (ℕ × Bytes) → ℕ → ℕ → Option ℕ
continue o fuel total = elim o [
  | none ↦ none
  | some (term, rest) ↦
      if ltb (long_max - total) term then none else pairs fuel rest (total + term) true
]

step :
    (o : Option (ℕ × Bytes)) (n m total : ℕ)
    → ((term : ℕ) (rest : Bytes)
        → o ≡ some (term, rest)
        → pairs n rest (total + term) true ≡ pairs m rest (total + term) true)
    → continue o n total ≡ continue o m total
step none n m total h = refl
step (some (term, rest)) n m total h = rw (h term rest refl)

-- Any fuel that is not less than the text's length gives the same result.
pub pairs-fuel :
    (n m : ℕ) (p : Bytes) (total : ℕ) (found : Bool)
    → length p ≤ n
    → length p ≤ m
    → pairs n p total found ≡ pairs m p total found
unfolding pairs
pairs-fuel n m [] total found hn hm = refl
pairs-fuel zero m (c ∷ p) total found hn hm = absurd (omega arith)
pairs-fuel (suc n) zero (c ∷ p) total found hn hm = absurd (omega arith)
pairs-fuel (suc n) (suc m) (c ∷ p) total found hn hm =
    step (one_pair (c ∷ p)) n m total (λ term rest e.
      let lt = one_pair-lt (c ∷ p) rest term e in
      pairs-fuel n m rest (total + term) true (omega (arith, lt)) (omega (arith, lt)))
