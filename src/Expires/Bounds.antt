-- ===== src/Expires/Bounds.antt =====
-- The durations of parse_expires_duration fit a long.
use litehttpd.Expires.{
  one_pair, pairs, parse_verbose, parse_compact, parse_expires_duration, match_base, match_keyword,
}
use litehttpd.Prelude.{
  ℕ, zero, suc, ◌+◌, ◌-◌, ◌≤◌, ◌≡◌, Bool, true, false, Option, none, some, [], ◌∷◌, arith,
  if◌then◌else◌, length, ltb, Bool-cases, inl, inr,
}
use litehttpd.Prelude.Text.{Bytes, codes, skip_ws, long_max}
use litehttpd.Prelude.Maybe.{>>=-eq-some}

step-inv :
    (o : Option (ℕ × Bytes)) (fuel total d : ℕ)
    → (elim o [
      | none ↦ none
      | some (term, rest) ↦
          if ltb (long_max - total) term then none else pairs fuel rest (total + term) true
    ])
      ≡ some d
    → (term : ℕ) × (rest : Bytes) × (term ≤ long_max - total)
      × (pairs fuel rest (total + term) true ≡ some d)
step-inv none fuel total d h = cc h
step-inv (some (term, rest)) fuel total d h = elim (Bool-cases (ltb (long_max - total) term)) [
  | inl over ↦ cc (h, over)
  | inr fits ↦ (term, rest, ground arith, ground arith)
]

pairs-le :
    (fuel : ℕ) (p : Bytes) (total : ℕ) (found : Bool) (d : ℕ)
    → total ≤ long_max
    → pairs fuel p total found ≡ some d
    → d ≤ long_max
unfolding pairs
pairs-le fuel [] total found d le h = ground arith
pairs-le zero (c ∷ p) total found d le h = ground arith
pairs-le (suc fuel) (c ∷ p) total found d le h =
    let (term, rest, fits, h') = step-inv (one_pair (c ∷ p)) fuel total d h in
    pairs-le fuel rest (total + term) true d (omega arith) h'

parse_compact-le : (p : Bytes) (d : ℕ) → parse_compact p ≡ some d → d ≤ long_max
unfolding parse_compact
parse_compact-le p d h = ground arith

parse_verbose-le : (p : Bytes) (d : ℕ) → parse_verbose p ≡ some d → d ≤ long_max
unfolding parse_verbose
parse_verbose-le p d h =
    let (q, e1, h1) = >>=-eq-some (match_base p) _ h in
    let (r, e2, h2) = >>=-eq-some (match_keyword (skip_ws q) (codes "plus")) _ h1 in
    pairs-le (length (skip_ws r)) (skip_ws r) 0 false d (omega arith) h2

either_le :
    (o v : Option ℕ) (d : ℕ)
    → (o ≡ some d → d ≤ long_max)
    → (v ≡ some d → d ≤ long_max)
    → (elim o [ some secs ↦ some secs | none ↦ v ]) ≡ some d
    → d ≤ long_max
either_le none v d ho hv h = hv h
either_le (some secs) v d ho hv h = ho h

-- A duration that is parsed is at most LONG_MAX: the product and the sum never overflow.
pub parse_expires_duration-le :
    (s : Option Bytes) (d : ℕ) → parse_expires_duration s ≡ some d → d ≤ long_max
unfolding parse_expires_duration
parse_expires_duration-le none d h = ground arith
parse_expires_duration-le (some s) d h =
    either_le (parse_compact (skip_ws s)) (parse_verbose (skip_ws s)) d
      (parse_compact-le (skip_ws s) d) (parse_verbose-le (skip_ws s) d) h
