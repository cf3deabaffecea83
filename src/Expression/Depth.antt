-- ===== src/Expression/Depth.antt =====
-- The parser of src/htaccess_expr.c has fuel enough, and what it builds is bounded by its depth
-- counter.
use litehttpd.Prelude.{
  ℕ, zero, suc, ◌+◌, ◌≤◌, ◌≡◌, refl, Bool, true, false, Option, none, some, if◌then◌else◌, arith,
  inl, inr, Bool-cases, Option-cases, subst,
}
use litehttpd.Prelude.Text.{Bytes, at_end}
use litehttpd.Prelude.Maybe.{◌>>=◌}
use litehttpd.Directive.{ExprNodeType, Expr, null, node}
use litehttpd.Expression.Token.{TokenType, Tokenizer, tok_next, tok_init}
use litehttpd.Expression.Parse.{
  Result, parse_fuel, fail, deeper, is_too_deep, is_lparen, is_not, is_and, is_or, leaf_type,
  test_type, func_type, is_cmp_op, is_ipmatch, parse_value, parenthesized, call, parse_primary,
  compare_by, compare_rest, parse_cmp, parse_not, join, chain, parse_and, parse_or, condition_text,
  finish, is_value, wrap_value, expr_parse,
}
use litehttpd.Expression.Fits.{
  weight, operators, height, Fits, IsDone, Terminates, IsDone-bind, not_deep, null-Fits,
  test_weight, func_weight, cmp_weight, value-Fits, unary-Fits, close-Fits, weaken, IsDone-weaken,
  func-Fits, binary-Fits, join-Fits, negate-Fits,
}

module _ (rec : Tokenizer → Result) (fuel : ℕ) (rec_done : Terminates 68 rec fuel) where
  parenthesized_done : Terminates 66 (parenthesized rec) (suc fuel)
  unfolding tok_next
  parenthesized_done t d e k f = elim (Bool-cases (is_too_deep (deeper t))) [
    | inl deep ↦
        rw (parenthesized, deep) (null-Fits 66 d (fail (deeper t)) (omega arith) k (omega arith))
    | inr room ↦
        rw (parenthesized, room)
          (IsDone-bind 68 66 (d + 1) d (rec (tok_next (deeper t))) _
            (rec_done (tok_next (deeper t)) (d + 1) (omega arith)
              (omega (arith, not_deep (t.depth + 1) room)) (omega arith))
            λ t2 inner g. close-Fits d (t2, inner) k g)
  ]

  call_done : (type : ExprNodeType) → weight type ≡ 0 → Terminates 67 (call rec type) (suc fuel)
  unfolding tok_next
  call_done type w t d e k f = elim (Bool-cases (is_too_deep (deeper t))) [
    | inl deep ↦ rw (call, deep) (null-Fits 67 d (fail (deeper t)) (omega arith) k (omega arith))
    | inr room ↦ elim (Bool-cases (is_lparen (tok_next (deeper t)).current.0)) [
      | inr missing ↦
          rw (call, room, missing)
            (null-Fits 67 d (fail (tok_next (deeper t))) (omega arith) k (omega arith))
      | inl there ↦
          rw (call, room, there)
            (IsDone-bind 68 67 (d + 1) d (rec (tok_next (tok_next (deeper t)))) _
              (rec_done (tok_next (tok_next (deeper t))) (d + 1) (omega arith)
                (omega (arith, not_deep (t.depth + 1) room)) (omega arith))
              λ t2 arg g. func-Fits d type (t2, arg) w k g)
    ]
  ]

  value_done :
      (t : Tokenizer) (d : ℕ)
      → t.depth ≡ d
      → d ≤ 32
      → (Fits 67 d (parse_value t).0 (parse_value t).1) × (height (parse_value t).1 ≤ 1)
  unfolding parse_value
  value_done t d e k =
      subst (λ n. (Fits 67 n (parse_value t).0 (parse_value t).1) × (height (parse_value t).1 ≤ 1))
        e (value-Fits t (leaf_type t.current.0) refl (omega arith))

  primary_done : Terminates 67 (parse_primary rec) (suc fuel)
  unfolding parse_primary tok_next
  primary_done t d e k f = elim (Bool-cases (is_lparen t.current.0)) [
    | inl there ↦ rw there (IsDone-weaken d (parenthesized rec t) (parenthesized_done t d e k f))
    | inr other ↦ elim (Option-cases (test_type t.current.0)) [
      | inr (type, test) ↦
          rw (other, test)
            (unary-Fits d type (parse_value (tok_next t)) (test_weight t.current.0 type test) k
              (value_done (tok_next t) d e k).0 (value_done (tok_next t) d e k).1)
      | inl no_test ↦ elim (Option-cases (func_type t.current.0)) [
        | inr (type, function) ↦
            rw (other, no_test, function)
              (call_done type (func_weight t.current.0 type function) t d e k f)
        | inl no_function ↦ rw (other, no_test, no_function) (value_done t d e k).0
      ]
    ]
  ]

  -- What follows the left side.
  compare-IsDone :
      (t : Tokenizer) (d : ℕ) (left : Expr) (o : Option ExprNodeType)
      → is_cmp_op t.current.0 ≡ o
      → d ≤ 32
      → 33 ≤ suc fuel + d
      → t.depth ≤ 32
      → Fits 67 d t left
      → IsDone 68 d (compare_by rec o t left)
  unfolding tok_next
  compare-IsDone t d left none h k f room g = weaken 67 68 d t left g (omega arith)
  compare-IsDone t d left (some type) h k f room g = elim (Bool-cases (is_ipmatch t.current.0)) [
    | inl ip ↦ rw ip (
        binary-Fits d ExprNodeType.ipmatch left t (parse_value (tok_next t)) refl k g
          (value_done (tok_next t) t.depth refl room).0)
    | inr other ↦ rw other (
        IsDone-bind 67 68 t.depth d (parse_primary rec (tok_next t)) _
          (primary_done (tok_next t) t.depth refl room (omega (arith, g.counted)))
          λ t2 right q. binary-Fits d type left t (t2, right) (cmp_weight t.current.0 type h) k g q)
  ]

  rest-IsDone :
      (t : Tokenizer) (d : ℕ) (left : Expr)
      → d ≤ 32
      → 33 ≤ suc fuel + d
      → Fits 67 d t left
      → IsDone 68 d (compare_rest rec (t, left))
  rest-IsDone t d null k f g = weaken 67 68 d t null g (omega arith)
  rest-IsDone t d (node ty v l r) k f g =
      compare-IsDone t d (node ty v l r) (is_cmp_op t.current.0) refl k f (g.room refl) g

  cmp_done : Terminates 68 (parse_cmp rec) (suc fuel)
  unfolding parse_cmp
  cmp_done t d e k f =
      IsDone-bind 67 68 d d (parse_primary rec t) (compare_rest rec) (primary_done t d e k f)
        (λ t2 left g. rest-IsDone t2 d left k f g)

  not-IsDone :
      (m : ℕ) (t : Tokenizer) (d : ℕ)
      → t.depth ≡ d
      → d ≤ 32
      → 33 ≤ suc fuel + d
      → 33 ≤ m + d
      → IsDone 68 d (parse_not rec m t)
  unfolding parse_not tok_next
  not-IsDone zero t d e k f h = absurd (omega arith)
  not-IsDone (suc m) t d e k f h = elim (Bool-cases (is_not t.current.0)) [
    | inr other ↦ rw (parse_not, other) (cmp_done t d e k f)
    | inl bang ↦ elim (Bool-cases (is_too_deep (deeper t))) [
      | inl deep ↦
          rw (parse_not, bang, deep)
            (null-Fits 68 d (fail (deeper t)) (omega arith) k (omega arith))
      | inr room ↦
          rw (parse_not, bang, room)
            (IsDone-bind 68 68 (d + 1) d (parse_not rec m (tok_next (deeper t))) _
              (not-IsDone m (tok_next (deeper t)) (d + 1) (omega arith)
                (omega (arith, not_deep (t.depth + 1) room)) (omega arith) (omega arith))
              λ t2 inner g. negate-Fits d t2 inner k g)
    ]
  ]

-- A loop over && or ||, where the operands have fuel enough.
module _ (type : ExprNodeType) (is_operator : TokenType → Bool) (next : Tokenizer → Result)
    (fuel : ℕ) where
  chain-IsDone :
      weight type ≡ 1
      → Terminates 68 next fuel
      → (m : ℕ) (t : Tokenizer) (d : ℕ) (left : Expr) → 1 ≤ m
      → d ≤ 32
      → 33 ≤ fuel + d
      → 33 ≤ m + t.depth
      → Fits 68 d t left
      → IsDone 68 d (chain type is_operator next m t left)
  unfolding chain tok_next
  chain-IsDone w ok zero t d left some_fuel k f h g = absurd (omega arith)
  chain-IsDone w ok (suc m) t d null some_fuel k f h g = g
  chain-IsDone w ok (suc m) t d (node ty v l r) some_fuel k f h g =
      elim (Bool-cases (is_operator t.current.0)) [
        | inr other ↦ rw (chain, other) g
        | inl there ↦ elim (Bool-cases (is_too_deep (deeper t))) [
          | inl deep ↦
              rw (chain, there, deep)
                (null-Fits 68 d (fail (deeper t)) (omega arith) k (omega (arith, g.counted)))
          | inr room ↦
              rw (chain, there, room)
                (IsDone-bind 68 68 (t.depth + 1) d (next (tok_next (deeper t))) _
                  (ok (tok_next (deeper t)) (t.depth + 1) refl (not_deep (t.depth + 1) room)
                    (omega (arith, g.counted)))
                  λ t2 right q.
                    chain-IsDone w ok m t2 d (join type (node ty v l r) right)
                      (omega (arith, not_deep (t.depth + 1) room)) k f (omega (arith, q.counted))
                      (join-Fits d type (node ty v l r) right t t2 w k g q))
        ]
      ]

and_done :
    (rec : Tokenizer → Result) (fuel : ℕ)
    → Terminates 68 rec fuel
    → Terminates 68 (parse_and rec) (suc fuel)
unfolding parse_and
and_done rec fuel ok t d e k f =
    let operand : Terminates 68 (parse_not rec parse_fuel) (suc fuel) =
      λ u n p q h. not-IsDone rec fuel ok parse_fuel u n p q h (omega arith) in
    IsDone-bind 68 68 d d (parse_not rec parse_fuel t) _ (operand t d e k f) λ t2 left g.
      chain-IsDone ExprNodeType.and is_and (parse_not rec parse_fuel) (suc fuel) refl operand
        parse_fuel t2 d left (omega arith) k f (omega (arith, g.counted)) g

or_done : (fuel : ℕ) → Terminates 68 (parse_or fuel) fuel
unfolding parse_or
or_done zero t d e k f = absurd (omega arith)
or_done (suc fuel) t d e k f =
    let operand = and_done (parse_or fuel) fuel (or_done fuel) in
    IsDone-bind 68 68 d d (parse_and (parse_or fuel) t) _ (operand t d e k f) λ t2 left g.
      chain-IsDone ExprNodeType.or is_or (parse_and (parse_or fuel)) (suc fuel) refl operand
        parse_fuel t2 d left (omega arith) k f (omega (arith, g.counted)) g

tok_init-depth : (s : Bytes) → (tok_init s).depth ≡ 0
unfolding tok_init tok_next
tok_init-depth s = refl

-- What the bounds say of a tree.
abbrev pub IsSmall : Expr → Type 0
IsSmall e = (operators e ≤ 32) × (height e ≤ 101)

wrap-IsSmall : (e : Expr) → operators e ≤ 32 → height e ≤ 68 + operators e → IsSmall (wrap_value e)
unfolding operators height
wrap-IsSmall null h k = (omega arith, omega arith)
wrap-IsSmall (node ty v l r) h k = elim (Bool-cases (is_value ty)) [
  | inl bare ↦ rw bare (omega arith, omega arith)
  | inr other ↦ rw other (omega arith, omega arith)
]

null-IsSmall : IsSmall null
unfolding operators height
null-IsSmall = (omega arith, omega arith)

if_IsSmall : (b : Bool) (e : Expr) → IsSmall e → IsSmall (if b then null else e)
if_IsSmall true e h = null-IsSmall
if_IsSmall false e h = h

finish-IsSmall : (t : Tokenizer) (e : Expr) → Fits 68 0 t e → IsSmall (finish (t, e))
finish-IsSmall t null f = if_IsSmall _ null null-IsSmall
finish-IsSmall t (node ty v l r) f = if_IsSmall _ (wrap_value (node ty v l r)) (
    wrap-IsSmall (node ty v l r) (omega (arith, f.counted, f.room refl)) (omega (arith, f.bounded)))

result-IsSmall :
    (m : Result)
    → IsDone 68 0 m
    → (e : Expr) × ((m >>= λ r. some (finish r)) ≡ some e) × (IsSmall e)
result-IsSmall none h = absurd h
result-IsSmall (some (t, e)) h = (finish (t, e), refl, finish-IsSmall t e h)

text-IsSmall :
    (b : Bool) (m : Result)
    → IsDone 68 0 m
    → (e : Expr) × ((if b then some null else (m >>= λ r. some (finish r))) ≡ some e) × (IsSmall e)
text-IsSmall true m h = (null, refl, null-IsSmall)
text-IsSmall false m h = result-IsSmall m h

-- For every text the parser comes to a result: no text exhausts the recursion. The tree that it
-- gives has at most 32 operators && and || and is at most 101 nodes high.
pub expr_parse_total : (text : Bytes) → (e : Expr) × (expr_parse text ≡ some e) × (IsSmall e)
unfolding expr_parse
expr_parse_total text =
    let s = condition_text text in
    text-IsSmall (at_end s) (parse_or parse_fuel (tok_init s))
      (or_done parse_fuel (tok_init s) 0 (tok_init-depth s) (omega arith) (omega arith))
