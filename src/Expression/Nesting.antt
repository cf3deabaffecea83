-- ===== src/Expression/Nesting.antt =====
-- Parentheses nested deeper than EXPR_MAX_DEPTH of src/htaccess_expr.c.
use litehttpd.Prelude.{
  ℕ, zero, suc, ◌+◌, ◌≤◌, ◌≡◌, refl, sym, subst, ap, ◌∙◌, Bool, true, false, some, [], ◌++◌, ltb,
  if◌then◌else◌, arith, inl, inr, Bool-cases, replicate,
}
use litehttpd.Prelude.Text.{Bytes, at_end, skip_ws}
use litehttpd.Prelude.Maybe.{◌>>=◌}
use litehttpd.Directive.{null}
use litehttpd.Cidr6.{trim_end}
use litehttpd.Expression.Token.{tok_lparen, Tokenizer, tok_next, tok_init}
use litehttpd.Expression.Parse.{
  Result, parse_fuel, fail, deeper, is_too_deep, is_lparen, parenthesized, parse_primary, parse_cmp,
  parse_not, chain, parse_and, parse_or, condition_text, finish, expr_parse,
}

-- The parser has failed in front of a parenthesis.
abbrev HasFailed : Result → Type 0
HasFailed m = (t : Tokenizer) × (m ≡ some (t, null)) × (t.error ≡ true) × (t.current.0 ≡ tok_lparen)

abbrev opens : ℕ → Bytes → Bytes
opens k s = replicate k b'(' ++ s

abbrev at_paren : ℕ → Bytes → Bool → ℕ → Tokenizer
at_paren k s error depth = record {
  input = opens k s;
  current = (tok_lparen, []);
  error = error;
  depth = depth;
}

tok_next-opens :
    (k : ℕ) (s : Bytes) (e : Bool) (d : ℕ) → tok_next (at_paren (suc k) s e d) ≡ at_paren k s e d
unfolding tok_next
tok_next-opens k s e d = ground arith

-- The parser passes on what fails below it.
module _ (rec : Tokenizer → Result) (t : Tokenizer) (here : t.current.0 ≡ tok_lparen) where
  parenthesized_fails :
      is_too_deep (deeper t) ≡ false
      → HasFailed (rec (tok_next (deeper t)))
      → HasFailed (parenthesized rec t)
  parenthesized_fails room (t2, eq, failed, stuck) =
      (fail t2, (rw (parenthesized, room, eq, stuck) refl), refl, stuck)

  primary_fails : HasFailed (parenthesized rec t) → HasFailed (parse_primary rec t)
  unfolding parse_primary
  primary_fails (t2, eq, failed, stuck) = (t2, (rw (ap is_lparen here) eq), failed, stuck)

  cmp_fails : HasFailed (parse_primary rec t) → HasFailed (parse_cmp rec t)
  unfolding parse_cmp
  cmp_fails (t2, eq, failed, stuck) = (t2, (rw eq refl), failed, stuck)

  not_fails : (m : ℕ) → HasFailed (parse_cmp rec t) → HasFailed (parse_not rec (suc m) t)
  unfolding parse_not
  not_fails m (t2, eq, failed, stuck) = (t2, (rw (parse_not, here, eq) refl), failed, stuck)

  and_fails : HasFailed (parse_not rec parse_fuel t) → HasFailed (parse_and rec t)
  unfolding parse_and chain
  and_fails (t2, eq, failed, stuck) = (t2, (rw eq refl), failed, stuck)

  deep_fails : is_too_deep (deeper t) ≡ true → HasFailed (parenthesized rec t)
  deep_fails deep = (fail (deeper t), (rw (parenthesized, deep) refl), refl, here)

or_fails :
    (fuel : ℕ) (t : Tokenizer)
    → HasFailed (parse_and (parse_or fuel) t)
    → HasFailed (parse_or (suc fuel) t)
unfolding parse_or chain
or_fails fuel t (t2, eq, failed, stuck) = (t2, (rw eq refl), failed, stuck)

-- From the parentheses upwards.
upwards :
    (fuel : ℕ) (t : Tokenizer)
    → t.current.0 ≡ tok_lparen
    → HasFailed (parenthesized (parse_or fuel) t)
    → HasFailed (parse_or (suc fuel) t)
upwards fuel t here h =
    let rec = parse_or fuel in
    or_fails fuel t (
      and_fails rec t here
        (not_fails rec t here 32 (cmp_fails rec t here (primary_fails rec t here h))))

nested_fails :
    (k : ℕ) (s : Bytes) (e : Bool) (d fuel : ℕ)
    → 32 ≤ k + d
    → 33 ≤ fuel + d
    → d ≤ 32
    → HasFailed (parse_or fuel (at_paren k s e d))
nested_fails k s e d zero h f b = absurd (omega arith)
nested_fails zero s e d (suc fuel) h f b =
    upwards fuel (at_paren zero s e d) refl
      (deep_fails (parse_or fuel) (at_paren zero s e d) refl (ground arith))
nested_fails (suc k) s e d (suc fuel) h f b = elim (Bool-cases (ltb 32 (d + 1))) [
  | inl deep ↦
      upwards fuel (at_paren (suc k) s e d) refl
        (deep_fails (parse_or fuel) (at_paren (suc k) s e d) refl deep)
  | inr room ↦ upwards fuel (at_paren (suc k) s e d) refl (
      parenthesized_fails (parse_or fuel) (at_paren (suc k) s e d) refl room (
        subst (λ t. HasFailed (parse_or fuel t)) (sym (tok_next-opens k s e (d + 1)))
          (nested_fails k s e (d + 1) fuel (omega arith) (omega arith) (ground arith))))
]

trim_end-opens : (k : ℕ) (s : Bytes) → trim_end (opens k s) ≡ opens k (trim_end s)
unfolding trim_end
trim_end-opens zero s = refl
trim_end-opens (suc k) s = ground (arith, trim_end-opens k s)

condition_text-opens :
    (k : ℕ) (s : Bytes) → condition_text (opens (suc k) s) ≡ opens (suc k) (trim_end s)
unfolding condition_text skip_ws
condition_text-opens k s = rw (trim_end-opens (suc k) s) (ground arith)

tok_init-opens : (k : ℕ) (s : Bytes) → tok_init (opens (suc k) s) ≡ at_paren k s false 0
unfolding tok_init tok_next
tok_init-opens k s = ground arith

refused :
    (b : Bool) (m : Result)
    → HasFailed m
    → (if b then some null else (m >>= λ r. some (finish r))) ≡ some null
refused true m h = refl
refused false m (t, eq, failed, stuck) = rw (eq, failed) refl

-- A text that starts with 33 parentheses or more is refused: the parser gives no tree.
pub expr_parse_nested :
    (k : ℕ) (s : Bytes) → 33 ≤ k → expr_parse (replicate k b'(' ++ s) ≡ some null
unfolding expr_parse
expr_parse_nested zero s h = absurd (omega arith)
expr_parse_nested (suc k) s h =
    let text = opens (suc k) s in
    let start : tok_init (condition_text text) ≡ at_paren k (trim_end s) false 0 =
      ap tok_init (condition_text-opens k s) ∙ tok_init-opens k (trim_end s) in
    refused (at_end (condition_text text)) (parse_or parse_fuel (tok_init (condition_text text))) (
      subst (λ t. HasFailed (parse_or parse_fuel t)) (sym start)
        (nested_fails k (trim_end s) false 0 parse_fuel (omega arith) (omega arith) (omega arith)))
