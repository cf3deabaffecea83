-- ===== src/Expression/Fits.antt =====
-- What holds of the trees that the parser of src/htaccess_expr.c builds, node by node.
use litehttpd.Prelude.{
  ℕ, ◌+◌, ◌-◌, ◌*◌, ◌≤◌, ◌≡◌, refl, max, false, Option, none, some, ltb, arith, inl, inr,
  Bool-cases,
}
use litehttpd.Prelude.Maybe.{◌>>=◌}
use litehttpd.Directive.{ExprNodeType, Expr, null, node}
use litehttpd.Expression.Token.{TokenType, Tokenizer, tok_next}
use litehttpd.Expression.Parse.{
  Result, max_depth, is_null, fail, shallower, is_rparen, leaf_type, value_of, test_type, func_type,
  is_cmp_op, unary, binary, close, close_func, negate, join,
}

abbrev pub weight : ExprNodeType → ℕ
weight ExprNodeType.and = 1
weight ExprNodeType.or = 1
weight _ = 0

-- The number of && and ||.
unfoldable pub operators : Expr → ℕ
operators null = 0
operators (node type val left right) = weight type + operators left + operators right

unfoldable pub height : Expr → ℕ
height null = 0
height (node type val left right) = 1 + max (height left) (height right)

-- What holds of a tree that was parsed from depth `d` on, with the tokenizer that it leaves; its
-- height is at most `b` less two for each level of depth, and its operators.
pub record Fits (b d : ℕ) (t : Tokenizer) (e : Expr) : Type 0 where
  pub counted : d + operators e ≤ t.depth
  pub bounded : height e + 2 * d ≤ b + operators e
  pub room : is_null e ≡ false → t.depth ≤ 32

-- There is a result.
abbrev pub IsDone : ℕ → ℕ → Result → Type 0
IsDone b d none = ⊥
IsDone b d (some (t, e)) = Fits b d t e

-- With so much fuel there is a result from every depth that is allowed.
abbrev pub Terminates : ℕ → (Tokenizer → Result) → ℕ → Type 0
Terminates b parse fuel =
    (t : Tokenizer) (d : ℕ) → t.depth ≡ d → d ≤ 32 → 33 ≤ fuel + d → IsDone b d (parse t)

pub IsDone-bind :
    (b b' d d' : ℕ) (m : Result) (f : Tokenizer × Expr → Result)
    → IsDone b d m
    → ((t : Tokenizer) (e : Expr) → Fits b d t e → IsDone b' d' (f (t, e)))
    → IsDone b' d' (m >>= f)
IsDone-bind b b' d d' none f h k = h
IsDone-bind b b' d d' (some (t, e)) f h k = k t e h

pub not_deep : (n : ℕ) → ltb max_depth n ≡ false → n ≤ 32
not_deep n h = ground arith

pub null-Fits : (b d : ℕ) (t : Tokenizer) → 64 ≤ b → d ≤ 32 → d ≤ t.depth → Fits b d t null
unfolding operators height
null-Fits b d t o h k = record {
  counted = omega arith;
  bounded = omega arith;
  room = λ p. absurd (ground arith);
}

pub leaf_weight :
    (tt : TokenType) (type : ExprNodeType) → leaf_type tt ≡ some type → weight type ≡ 0
leaf_weight tt type h = ground arith

pub test_weight :
    (tt : TokenType) (type : ExprNodeType) → test_type tt ≡ some type → weight type ≡ 0
test_weight tt type h = ground arith

pub func_weight :
    (tt : TokenType) (type : ExprNodeType) → func_type tt ≡ some type → weight type ≡ 0
func_weight tt type h = ground arith

pub cmp_weight : (tt : TokenType) (type : ExprNodeType) → is_cmp_op tt ≡ some type → weight type ≡ 0
cmp_weight tt type h = ground arith

-- A value is a tree of height one, or none.
pub value-Fits :
    (t : Tokenizer) (o : Option ExprNodeType)
    → leaf_type t.current.0 ≡ o
    → t.depth ≤ 32
    → (Fits 67 t.depth (value_of o t).0 (value_of o t).1) × (height (value_of o t).1 ≤ 1)
unfolding operators height tok_next
value-Fits t none h k = (null-Fits 67 t.depth t (omega arith) k (omega arith), omega arith)
value-Fits t (some type) h k = (
  record {
    counted = omega (arith, leaf_weight t.current.0 type h);
    bounded = omega (arith, leaf_weight t.current.0 type h);
    room = λ p. k;
  },
  omega arith,
)

pub unary-Fits :
    (d : ℕ) (type : ExprNodeType) (r : Tokenizer × Expr)
    → weight type ≡ 0
    → d ≤ 32
    → Fits 67 d r.0 r.1
    → height r.1 ≤ 1
    → Fits 67 d (unary type r).0 (unary type r).1
unfolding operators height
unary-Fits d type (t, null) w k f h =
    null-Fits 67 d (fail t) (omega arith) k (omega (arith, f.counted))
unary-Fits d type (t, node ty v l r) w k f h = record {
  counted = omega (arith, f.counted);
  bounded = omega arith;
  room = λ p. f.room refl;
}

-- Behind parentheses the counter is one lower.
pub shallower-Fits :
    (d : ℕ) (t t2 : Tokenizer) (e : Expr)
    → Fits 68 (d + 1) t e
    → d ≤ 32
    → t2.depth ≡ t.depth - 1
    → Fits 66 d t2 e
shallower-Fits d t t2 e f k h = record {
  counted = omega (arith, f.counted);
  bounded = omega (arith, f.bounded);
  room = λ p. omega (arith, f.room p);
}

pub close-Fits :
    (d : ℕ) (r : Tokenizer × Expr)
    → d ≤ 32
    → Fits 68 (d + 1) r.0 r.1
    → Fits 66 d (close r).0 (close r).1
unfolding tok_next
close-Fits d (t, e) k f = elim (Bool-cases (is_rparen t.current.0)) [
  | inl closed ↦ rw closed (shallower-Fits d t (shallower (tok_next t)) e f k refl)
  | inr missing ↦ rw missing (null-Fits 66 d (fail t) (omega arith) k (omega (arith, f.counted)))
]

-- A looser bound.
pub weaken : (b b' d : ℕ) (t : Tokenizer) (e : Expr) → Fits b d t e → b ≤ b' → Fits b' d t e
weaken b b' d t e f h = record {
  counted = f.counted;
  bounded = omega (arith, f.bounded);
  room = f.room;
}

pub IsDone-weaken : (d : ℕ) (m : Result) → IsDone 66 d m → IsDone 67 d m
IsDone-weaken d none h = h
IsDone-weaken d (some (t, e)) h = weaken 66 67 d t e h (omega arith)

pub func-Fits :
    (d : ℕ) (type : ExprNodeType) (r : Tokenizer × Expr)
    → weight type ≡ 0
    → d ≤ 32
    → Fits 68 (d + 1) r.0 r.1
    → Fits 67 d (close_func type r).0 (close_func type r).1
unfolding operators height tok_next
func-Fits d type (t, null) w k f =
    null-Fits 67 d (fail t) (omega arith) k (omega (arith, f.counted))
func-Fits d type (t, node ty v l r) w k f = elim (Bool-cases (is_rparen t.current.0)) [
  | inl closed ↦
      let g = shallower-Fits d t (shallower (tok_next t)) (node ty v l r) f k refl in
      rw closed (record {
        counted = omega (arith, g.counted, w);
        bounded = omega (arith, g.bounded, w);
        room = λ p. g.room refl;
      })
  | inr missing ↦ rw missing (null-Fits 67 d (fail t) (omega arith) k (omega (arith, f.counted)))
]

pub binary-Fits :
    (d : ℕ) (type : ExprNodeType) (left : Expr) (t : Tokenizer) (r : Tokenizer × Expr)
    → weight type ≡ 0
    → d ≤ 32
    → Fits 67 d t left
    → Fits 67 t.depth r.0 r.1
    → Fits 68 d (binary type left r).0 (binary type left r).1
unfolding operators height
binary-Fits d type left t (t2, null) w k f g =
    null-Fits 68 d (fail t2) (omega arith) k (omega (arith, f.counted, g.counted))
binary-Fits d type left t (t2, node ty v l r) w k f g = record {
  counted = omega (arith, f.counted, g.counted, w);
  bounded = omega (arith, f.counted, f.bounded, g.bounded, w);
  room = λ p. g.room refl;
}

pub join-Fits :
    (d : ℕ) (type : ExprNodeType) (left right : Expr) (t t2 : Tokenizer)
    → weight type ≡ 1
    → d ≤ 32
    → Fits 68 d t left
    → Fits 68 (t.depth + 1) t2 right
    → Fits 68 d t2 (join type left right)
unfolding operators height
join-Fits d type left null t t2 w k f g =
    null-Fits 68 d t2 (omega arith) k (omega (arith, f.counted, g.counted))
join-Fits d type left (node ty v l r) t t2 w k f g = record {
  counted = omega (arith, f.counted, g.counted, w);
  bounded = omega (arith, f.counted, f.bounded, g.bounded, w);
  room = λ p. g.room refl;
}

pub negate-Fits :
    (d : ℕ) (t : Tokenizer) (e : Expr)
    → d ≤ 32
    → Fits 68 (d + 1) t e
    → Fits 68 d (shallower t) (negate e)
unfolding operators height
negate-Fits d t null k f = null-Fits 68 d (shallower t) (omega arith) k (omega (arith, f.counted))
negate-Fits d t (node ty v l r) k f =
    let g = shallower-Fits d t (shallower t) (node ty v l r) f k refl in
    record {
      counted = omega (arith, g.counted);
      bounded = omega (arith, g.bounded);
      room = λ p. g.room refl;
    }
