-- ===== src/Expression/Parse.antt =====
-- The recursive-descent parser of src/htaccess_expr.c. The recursion runs on fuel, and `none` is
-- the lack of it; NULL is the tree `null`.
use litehttpd.Prelude.{
  ℕ, zero, suc, ◌+◌, ◌-◌, Bool, true, false, not, ◌&&◌, ◌||◌, Option, none, some, [], ◌∷◌, ltb, leb,
  ◌==◌, if◌then◌else◌, length, drop,
}
use litehttpd.Prelude.Text.{Bytes, skip_ws, at_end, peek}
use litehttpd.Prelude.Maybe.{◌>>=◌}
use litehttpd.Directive.{ExprNodeType, Expr, null, node}
use litehttpd.Cidr6.{trim_end}
use litehttpd.Expression.Token.{
  TokenType, tok_eof, tok_string, tok_var, tok_regex, tok_integer, tok_and, tok_or, tok_not, tok_eq,
  tok_ne, tok_lt, tok_gt, tok_le, tok_ge, tok_regex_match, tok_regex_nomatch, tok_int_eq,
  tok_int_ne, tok_int_lt, tok_int_le, tok_int_gt, tok_int_ge, tok_file_f, tok_file_d, tok_file_s,
  tok_file_l, tok_file_e, tok_ipmatch, tok_lparen, tok_rparen, tok_func_tolower, tok_func_toupper,
  Tokenizer, tok_next, tok_init,
}

abbrev pub Result : Type 0
Result = Option (Tokenizer × Expr)

abbrev pub max_depth : ℕ
max_depth = 32

-- More calls than that are never nested: each counts in `depth`.
abbrev pub parse_fuel : ℕ
parse_fuel = 33

abbrev pub node_leaf : ExprNodeType → Bytes → Expr
node_leaf type val = node type (some val) null null

abbrev pub node_unary : ExprNodeType → Expr → Expr
node_unary type operand = node type none operand null

abbrev pub node_binary : ExprNodeType → Expr → Expr → Expr
node_binary type left right = node type none left right

abbrev pub is_null : Expr → Bool
is_null null = true
is_null (node type val left right) = false

abbrev pub fail : Tokenizer → Tokenizer
fail t = record t { error = true }

abbrev pub deeper : Tokenizer → Tokenizer
deeper t = record t { depth = t.depth + 1 }

abbrev pub shallower : Tokenizer → Tokenizer
shallower t = record t { depth = t.depth - 1 }

abbrev pub is_too_deep : Tokenizer → Bool
is_too_deep t = ltb max_depth t.depth

-- The leaf that a value becomes.
abbrev pub leaf_type : TokenType → Option ExprNodeType
leaf_type tok_string = some ExprNodeType.string
leaf_type tok_var = some ExprNodeType.var
leaf_type tok_regex = some ExprNodeType.regex
leaf_type tok_integer = some ExprNodeType.integer
leaf_type _ = none

abbrev pub value_of : Option ExprNodeType → Tokenizer → Tokenizer × Expr
value_of none t = (t, null)
value_of (some type) t = (tok_next t, node_leaf type t.current.1)

unfoldable pub parse_value : Tokenizer → Tokenizer × Expr
parse_value t = value_of (leaf_type t.current.0) t

-- A node around the operand that was read, which must be there.
abbrev pub unary : ExprNodeType → Tokenizer × Expr → Tokenizer × Expr
unary type (t, null) = (fail t, null)
unary type (t, node ty v l r) = (t, node_unary type (node ty v l r))

abbrev pub binary : ExprNodeType → Expr → Tokenizer × Expr → Tokenizer × Expr
binary type left (t, null) = (fail t, null)
binary type left (t, node ty v l r) = (t, node_binary type left (node ty v l r))

abbrev pub is_lparen : TokenType → Bool
is_lparen tok_lparen = true
is_lparen _ = false

abbrev pub is_rparen : TokenType → Bool
is_rparen tok_rparen = true
is_rparen _ = false

abbrev pub is_not : TokenType → Bool
is_not tok_not = true
is_not _ = false

abbrev pub is_and : TokenType → Bool
is_and tok_and = true
is_and _ = false

abbrev pub is_or : TokenType → Bool
is_or tok_or = true
is_or _ = false

abbrev pub is_ipmatch : TokenType → Bool
is_ipmatch tok_ipmatch = true
is_ipmatch _ = false

-- Behind what stands in parentheses.
abbrev pub close : Tokenizer × Expr → Tokenizer × Expr
close (t, inner) = if is_rparen t.current.0 then (shallower (tok_next t), inner) else (fail t, null)

abbrev pub close_func : ExprNodeType → Tokenizer × Expr → Tokenizer × Expr
close_func type (t, null) = (fail t, null)
close_func type (t, node ty v l r) =
    if is_rparen t.current.0
    then (shallower (tok_next t), node_unary type (node ty v l r))
    else (fail t, null)

abbrev pub is_cmp_op : TokenType → Option ExprNodeType
is_cmp_op tok_eq = some ExprNodeType.cmp_eq
is_cmp_op tok_ne = some ExprNodeType.cmp_ne
is_cmp_op tok_lt = some ExprNodeType.cmp_lt
is_cmp_op tok_gt = some ExprNodeType.cmp_gt
is_cmp_op tok_le = some ExprNodeType.cmp_le
is_cmp_op tok_ge = some ExprNodeType.cmp_ge
is_cmp_op tok_regex_match = some ExprNodeType.regex_match
is_cmp_op tok_regex_nomatch = some ExprNodeType.regex_nomatch
is_cmp_op tok_int_eq = some ExprNodeType.int_eq
is_cmp_op tok_int_ne = some ExprNodeType.int_ne
is_cmp_op tok_int_lt = some ExprNodeType.int_lt
is_cmp_op tok_int_le = some ExprNodeType.int_le
is_cmp_op tok_int_gt = some ExprNodeType.int_gt
is_cmp_op tok_int_ge = some ExprNodeType.int_ge
is_cmp_op tok_ipmatch = some ExprNodeType.ipmatch
is_cmp_op _ = none

-- The operators in front of a value.
abbrev pub test_type : TokenType → Option ExprNodeType
test_type tok_file_f = some ExprNodeType.file_f
test_type tok_file_d = some ExprNodeType.file_d
test_type tok_file_s = some ExprNodeType.file_s
test_type tok_file_l = some ExprNodeType.file_l
test_type tok_file_e = some ExprNodeType.file_e
test_type tok_ipmatch = some ExprNodeType.ipmatch
test_type _ = none

abbrev pub func_type : TokenType → Option ExprNodeType
func_type tok_func_tolower = some ExprNodeType.func_tolower
func_type tok_func_toupper = some ExprNodeType.func_toupper
func_type _ = none

abbrev pub negate : Expr → Expr
negate null = null
negate (node ty v l r) = node_unary ExprNodeType.not (node ty v l r)

abbrev pub join : ExprNodeType → Expr → Expr → Expr
join type left null = null
join type left (node ty v l r) = node_binary type left (node ty v l r)

-- The argument `rec` is parse_or with less fuel.
module _ (rec : Tokenizer → Result) where
  abbrev pub parenthesized : Tokenizer → Result
  parenthesized t = elim (is_too_deep (deeper t)) [
    | true ↦ some (fail (deeper t), null)
    | false ↦ do r ← rec (tok_next (deeper t)); some (close r)
  ]

  abbrev pub call : ExprNodeType → Tokenizer → Result
  call type t = elim (is_too_deep (deeper t)) [
    | true ↦ some (fail (deeper t), null)
    | false ↦ elim (is_lparen (tok_next (deeper t)).current.0) [
      | false ↦ some (fail (tok_next (deeper t)), null)
      | true ↦ do r ← rec (tok_next (tok_next (deeper t))); some (close_func type r)
    ]
  ]

  unfoldable pub parse_primary : Tokenizer → Result
  unfolding parse_value
  parse_primary t =
      if is_lparen t.current.0 then parenthesized t else elim (test_type t.current.0) [
        | some type ↦ some (unary type (parse_value (tok_next t)))
        | none ↦ elim (func_type t.current.0) [
          | some type ↦ call type t
          | none ↦ some (parse_value t)
        ]
      ]

  -- What follows the left side: -ipmatch takes a value, the other operators a primary.
  abbrev pub compare_by : Option ExprNodeType → Tokenizer → Expr → Result
  compare_by none t left = some (t, left)
  compare_by (some type) t left =
      if is_ipmatch t.current.0
      then some (binary ExprNodeType.ipmatch left (parse_value (tok_next t)))
      else do r ← parse_primary (tok_next t); some (binary type left r)

  abbrev pub compare_rest : Tokenizer × Expr → Result
  compare_rest (t, null) = some (t, null)
  compare_rest (t, node ty v l r) = compare_by (is_cmp_op t.current.0) t (node ty v l r)

  unfoldable pub parse_cmp : Tokenizer → Result
  unfolding parse_primary
  parse_cmp t = do r ← parse_primary t; compare_rest r

  unfoldable pub parse_not : ℕ → Tokenizer → Result
  unfolding parse_cmp
  parse_not zero t = none
  parse_not (suc fuel) t = elim (is_not t.current.0) [
    | false ↦ parse_cmp t
    | true ↦ elim (is_too_deep (deeper t)) [
      | true ↦ some (fail (deeper t), null)
      | false ↦ do
        (t2, inner) ← parse_not fuel (tok_next (deeper t))
        some (shallower t2, negate inner)
    ]
  ]

-- The loops of parse_and and parse_or. `depth` grows with each operator and does not shrink.
module _ (type : ExprNodeType) (is_operator : TokenType → Bool) (next : Tokenizer → Result) where
  unfoldable pub chain : ℕ → Tokenizer → Expr → Result
  chain zero t left = none
  chain (suc fuel) t null = some (t, null)
  chain (suc fuel) t (node ty v l r) = elim (is_operator t.current.0) [
    | false ↦ some (t, node ty v l r)
    | true ↦ elim (is_too_deep (deeper t)) [
      | true ↦ some (fail (deeper t), null)
      | false ↦ do
        (t2, right) ← next (tok_next (deeper t))
        chain fuel t2 (join type (node ty v l r) right)
    ]
  ]

unfoldable pub parse_and : (Tokenizer → Result) → Tokenizer → Result
unfolding parse_not chain
parse_and rec t = do
  (t2, left) ← parse_not rec parse_fuel t
  chain ExprNodeType.and is_and (parse_not rec parse_fuel) parse_fuel t2 left

unfoldable pub parse_or : ℕ → Tokenizer → Result
unfolding parse_and chain
parse_or zero t = none
parse_or (suc fuel) t = do
  (t2, left) ← parse_and (parse_or fuel) t
  chain ExprNodeType.or is_or (parse_and (parse_or fuel)) parse_fuel t2 left

unfoldable pub last_char : Bytes → ℕ
last_char [] = 0
last_char (c ∷ s) = let rest = last_char s in if at_end s then c else rest

unfoldable pub drop_last : Bytes → Bytes
drop_last [] = []
drop_last (c ∷ s) = let rest = drop_last s in if at_end s then [] else c ∷ rest

-- Without the spaces around it and the quotes around that.
unfoldable pub condition_text : Bytes → Bytes
unfolding trim_end skip_ws last_char drop_last
condition_text text =
    let s = trim_end (skip_ws text) in
    if leb 2 (length s) && peek s == 34 && last_char s == 34 then drop_last (drop 1 s) else s

-- type <= NODE_INTEGER
abbrev pub is_value : ExprNodeType → Bool
is_value ExprNodeType.string = true
is_value ExprNodeType.var = true
is_value ExprNodeType.regex = true
is_value ExprNodeType.integer = true
is_value _ = false

-- A bare value becomes a test that it is not empty.
abbrev pub wrap_value : Expr → Expr
wrap_value null = null
wrap_value (node type v l r) =
    if is_value type
    then node_binary ExprNodeType.cmp_ne (node type v l r) (node_leaf ExprNodeType.string [])
    else node type v l r

abbrev pub is_eof : TokenType → Bool
is_eof tok_eof = true
is_eof _ = false

-- An error, or tokens that are left.
abbrev pub finish : Tokenizer × Expr → Expr
finish (t, ast) =
    if t.error || (not (is_eof t.current.0) && not (is_null ast)) then null else wrap_value ast

unfoldable pub expr_parse : Bytes → Option Expr
expr_parse text =
    if at_end (condition_text text)
    then some null
    else do r ← parse_or parse_fuel (tok_init (condition_text text)); some (finish r)
