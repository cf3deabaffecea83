-- ===== src/Expression/Laws.antt =====
-- What the tests of src/htaccess_expr.c mean together.
use Prim.Native.Nat.{compare, Ordering}
use litehttpd.Prelude.{
  ℕ, ◌≤◌, ◌<◌, ◌≡◌, ◌≢◌, ◌↔◌, ◌⊎◌, refl, sym, ap, ◌∙◌, Bool, true, false, not, ◌||◌, Option, none,
  some, [], ◌∷◌, ltb, if◌then◌else◌, length, arith, inl, inr, Bool-cases,
}
use litehttpd.Prelude.Text.{Bytes, at_end}
use litehttpd.Directive.{ExprNodeType, Expr, node}
use litehttpd.Expression.Value.{Session, eval_node_str}
use litehttpd.Expression.Eval.{
  MatchResult, htre_match, htre_nomatch, htre_hit_limit, htre_error, Stat, strcmp, parse_long,
  holds, compare_longs, judge_match, eval_regex_match, expr_eval,
}

-- The order of strings the other way round.
abbrev swap : Ordering → Ordering
swap Ordering.lt = Ordering.gt
swap Ordering.eq = Ordering.eq
swap Ordering.gt = Ordering.lt

compare-swap : (a b : ℕ) → compare b a ≡ swap (compare a b)
compare-swap a b = ground arith

strcmp-swap : (s t : Bytes) → strcmp t s ≡ swap (strcmp s t)
unfolding strcmp
strcmp-swap [] [] = refl
strcmp-swap [] (b ∷ t) = refl
strcmp-swap (a ∷ s) [] = refl
strcmp-swap (a ∷ s) (b ∷ t) = ground (arith, strcmp-swap s t)

strcmp_refl : (s : Bytes) → strcmp s s ≡ Ordering.eq
unfolding strcmp
strcmp_refl [] = refl
strcmp_refl (a ∷ s) = ground (arith, strcmp_refl s)

strcmp-eq : (s t : Bytes) → strcmp s t ≡ Ordering.eq → s ≡ t
unfolding strcmp
strcmp-eq [] [] h = refl
strcmp-eq [] (b ∷ t) h = ground arith
strcmp-eq (a ∷ s) [] h = ground arith
strcmp-eq (a ∷ s) (b ∷ t) h = ground (arith, strcmp-eq s t)

string_order :
    (o : Ordering)
    → (holds ExprNodeType.cmp_ne o ≡ not (holds ExprNodeType.cmp_eq o))
      × (holds ExprNodeType.cmp_ge o ≡ not (holds ExprNodeType.cmp_lt o))
      × (holds ExprNodeType.cmp_le o ≡ not (holds ExprNodeType.cmp_gt o))
string_order Ordering.lt = (refl, refl, refl)
string_order Ordering.eq = (refl, refl, refl)
string_order Ordering.gt = (refl, refl, refl)

only_eq : (o : Ordering) → holds ExprNodeType.cmp_eq o ≡ true → o ≡ Ordering.eq
only_eq Ordering.lt h = cc h
only_eq Ordering.eq h = refl
only_eq Ordering.gt h = cc h

gt_swap : (o : Ordering) → holds ExprNodeType.cmp_gt o ≡ holds ExprNodeType.cmp_lt (swap o)
gt_swap Ordering.lt = refl
gt_swap Ordering.eq = refl
gt_swap Ordering.gt = refl

-- What the comparisons of two operands say.
abbrev by_type : Option ℕ → Option ℕ → ExprNodeType → Bool
by_type x y type = compare_longs type x y

usable_lem :
    (pattern : Bytes)
    → (at_end pattern || ltb 512 (length pattern)) ≡ false
    → (0 < length pattern) × (length pattern ≤ 512)
usable_lem [] h = cc h
usable_lem (c ∷ s) h = ground arith

unusable_lem :
    (pattern : Bytes)
    → (at_end pattern || ltb 512 (length pattern)) ≡ true
    → (length pattern ≡ 0) ⊎ (512 < length pattern)
unusable_lem [] h = inl refl
unusable_lem (c ∷ s) h = inr (ground arith)

judge_cases :
    (n : ℕ) (m : Option MatchResult)
    → n ≤ 8192
    → (judge_match m true ≡ not (judge_match m false))
      ⊎ ((m ≡ none) × (n ≤ 8192) × (judge_match m true ≡ false) × (judge_match m false ≡ false))
judge_cases n none h = inr (refl, h, refl, refl)
judge_cases n (some htre_match) h = inl refl
judge_cases n (some htre_nomatch) h = inl refl
judge_cases n (some htre_hit_limit) h = inl refl
judge_cases n (some htre_error) h = inl refl

match_cases :
    (n : ℕ) (m : Option MatchResult)
    → ((if ltb 8192 n then true else judge_match m true)
        ≡ not (if ltb 8192 n then false else judge_match m false))
      ⊎ ((m ≡ none)
          × (n ≤ 8192)
          × ((if ltb 8192 n then true else judge_match m true) ≡ false)
          × ((if ltb 8192 n then false else judge_match m false) ≡ false))
match_cases n m = elim (Bool-cases (ltb 8192 n)) [
  | inl long ↦ inl (rw long refl)
  | inr short ↦ rw short (judge_cases n m (ground arith))
]

module _ (inet_pton6 : Bytes → Option Bytes) (htre : Bytes → Bytes → Option MatchResult)
    (stat lstat : Bytes → Option Stat) (session : Session) where
  -- The value of a test on two operands.
  abbrev pub test : ExprNodeType → Expr → Expr → Bool
  test type l r = expr_eval inet_pton6 htre stat lstat session (node type none l r)

  -- The six comparisons of strings are those of one total order: == holds of equal values alone, !=
  -- is its opposite, < is the opposite of >= and > that of <=, and > is < the other way round.
  pub compare_strings_lem :
      (l r : Expr)
      → ((test ExprNodeType.cmp_eq l r ≡ true)
          ↔ (eval_node_str session l ≡ eval_node_str session r))
        × (test ExprNodeType.cmp_ne l r ≡ not (test ExprNodeType.cmp_eq l r))
        × (test ExprNodeType.cmp_ge l r ≡ not (test ExprNodeType.cmp_lt l r))
        × (test ExprNodeType.cmp_le l r ≡ not (test ExprNodeType.cmp_gt l r))
        × (test ExprNodeType.cmp_gt l r ≡ test ExprNodeType.cmp_lt r l)
  unfolding expr_eval
  compare_strings_lem l r =
      let x = eval_node_str session l in
      let y = eval_node_str session r in
      let (ne, ge, le) = string_order (strcmp x y) in
      (
        (
          λ h. strcmp-eq x y (only_eq (strcmp x y) h),
          λ e. ap (holds ExprNodeType.cmp_eq) (ap (strcmp x) (sym e) ∙ strcmp_refl x),
        ),
        ne,
        ge,
        le,
        gt_swap (strcmp x y) ∙ ap (holds ExprNodeType.cmp_lt) (sym (strcmp-swap x y)),
      )

  -- Either a value is no integer that a long can hold, and the values are in none of the relations,
  -- or both are integers, in the relations of their order.
  abbrev pub AreCompared : Expr → Expr → Type 0
  AreCompared l r =
      (((parse_long (eval_node_str session l) ≡ none)
          ⊎ (parse_long (eval_node_str session r) ≡ none))
        × (test ExprNodeType.int_eq l r ≡ false)
        × (test ExprNodeType.int_ne l r ≡ false)
        × (test ExprNodeType.int_lt l r ≡ false)
        × (test ExprNodeType.int_le l r ≡ false)
        × (test ExprNodeType.int_gt l r ≡ false)
        × (test ExprNodeType.int_ge l r ≡ false))
      ⊎ ((a : ℕ) × (b : ℕ) × (parse_long (eval_node_str session l) ≡ some a)
          × (parse_long (eval_node_str session r) ≡ some b)
          × ((test ExprNodeType.int_eq l r ≡ true) ↔ (a ≡ b))
          × ((test ExprNodeType.int_ne l r ≡ true) ↔ (a ≢ b))
          × ((test ExprNodeType.int_lt l r ≡ true) ↔ (a < b))
          × ((test ExprNodeType.int_le l r ≡ true) ↔ (a ≤ b))
          × ((test ExprNodeType.int_gt l r ≡ true) ↔ (b < a))
          × ((test ExprNodeType.int_ge l r ≡ true) ↔ (b ≤ a)))

  -- The pattern is empty or longer than 512 bytes and both tests are false; or it is usable, and
  -- they are opposites, or it does not compile and both are false.
  abbrev pub AreOpposite : Expr → Expr → Type 0
  AreOpposite l r =
      (((length (eval_node_str session r) ≡ 0) ⊎ (512 < length (eval_node_str session r)))
        × (test ExprNodeType.regex_nomatch l r ≡ false)
        × (test ExprNodeType.regex_match l r ≡ false))
      ⊎ ((0 < length (eval_node_str session r))
          × (length (eval_node_str session r) ≤ 512)
          × ((test ExprNodeType.regex_nomatch l r ≡ not (test ExprNodeType.regex_match l r))
              ⊎ ((htre (eval_node_str session r) (eval_node_str session l) ≡ none)
                  × (length (eval_node_str session l) ≤ 8192)
                  × (test ExprNodeType.regex_nomatch l r ≡ false)
                  × (test ExprNodeType.regex_match l r ≡ false))))

  -- For a pattern that is empty or longer than 512 bytes =~ and !~ are both false. For any other !~
  -- is the opposite of =~, whatever becomes of the match; only if the pattern does not compile and
  -- the subject has at most 8192 bytes, both are false.
  pub regex_nomatch_lem : (l r : Expr) → AreOpposite l r
  unfolding expr_eval eval_regex_match
  regex_nomatch_lem l r =
      let pattern = eval_node_str session r in
      let subject = eval_node_str session l in
      elim (Bool-cases (at_end pattern || ltb 512 (length pattern))) [
        | inl bad ↦ rw bad (inl (unusable_lem pattern bad, refl, refl))
        | inr fine ↦
            let (nonempty, short) = usable_lem pattern fine in
            rw fine (inr (nonempty, short, match_cases (length subject) (htre pattern subject)))
      ]
