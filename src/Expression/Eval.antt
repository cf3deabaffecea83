-- ===== src/Expression/Eval.antt =====
-- The evaluator of src/htaccess_expr.c. The regular expressions of src/htaccess_regex.c, which
-- stand on PCRE2, and the files are parameters.
use Prim.Native.Nat.{compare, Ordering}
use litehttpd.Prelude.{
  ℕ, ◌+◌, ◌-◌, ◌^◌, Bool, true, false, not, ◌&&◌, ◌||◌, Option, none, some, [], ◌∷◌, ltb, leb,
  if◌then◌else◌, length,
}
use litehttpd.Prelude.Text.{
  Bytes, codes, at_end, peek, str_eq, skip_ws, is_minus, skip_sign, is_digit, digits_value,
  digits_rest,
}
use litehttpd.Directive.{ExprNodeType, Expr, null, node}
use litehttpd.Cidr.{cidr_parse, ip_parse, cidr_match}
use litehttpd.Cidr6.{cidr_v6_parse, ip_parse_v6, cidr_v6_match}
use litehttpd.Expression.Value.{Session, expr_expand_var, eval_node_str}

-- What htre_exec answers.
pub data MatchResult : Type 0 where
  htre_match htre_nomatch htre_hit_limit htre_error : MatchResult

-- What stat tells about a path.
pub record Stat : Type 0 where
  pub is_reg : Bool
  pub is_dir : Bool
  pub is_lnk : Bool
  pub st_size : ℕ

-- strcmp
unfoldable pub strcmp : Bytes → Bytes → Ordering
strcmp [] [] = Ordering.eq
strcmp [] (b ∷ t) = Ordering.lt
strcmp (a ∷ s) [] = Ordering.gt
strcmp (a ∷ s) (b ∷ t) =
    let rest = strcmp s t in
    elim (compare a b) [
      | Ordering.lt ↦ Ordering.lt
      | Ordering.eq ↦ rest
      | Ordering.gt ↦ Ordering.gt
    ]

-- strtol of the whole text, plus 2 ^ 63; no number if it overflows or something is left. The empty
-- text is 0, since there is nothing left of it.
unfoldable pub parse_long : Bytes → Option ℕ
unfolding skip_ws digits_value digits_rest
parse_long s =
    let t = skip_ws s in
    let digits = skip_sign t in
    let v = digits_value 0 digits in
    if at_end s
    then some (2 ^ 63)
    else if not (is_digit (peek digits)) || not (at_end (digits_rest digits))
    then none
    else if is_minus t
    then (if ltb (2 ^ 63) v then none else some (2 ^ 63 - v))
    else if leb (2 ^ 63) v
    then none
    else some (2 ^ 63 + v)

-- What the operators say of an order.
abbrev pub holds : ExprNodeType → Ordering → Bool
holds ExprNodeType.cmp_eq Ordering.eq = true
holds ExprNodeType.cmp_ne Ordering.lt = true
holds ExprNodeType.cmp_ne Ordering.gt = true
holds ExprNodeType.cmp_lt Ordering.lt = true
holds ExprNodeType.cmp_gt Ordering.gt = true
holds ExprNodeType.cmp_le Ordering.lt = true
holds ExprNodeType.cmp_le Ordering.eq = true
holds ExprNodeType.cmp_ge Ordering.eq = true
holds ExprNodeType.cmp_ge Ordering.gt = true
holds ExprNodeType.int_eq Ordering.eq = true
holds ExprNodeType.int_ne Ordering.lt = true
holds ExprNodeType.int_ne Ordering.gt = true
holds ExprNodeType.int_lt Ordering.lt = true
holds ExprNodeType.int_gt Ordering.gt = true
holds ExprNodeType.int_le Ordering.lt = true
holds ExprNodeType.int_le Ordering.eq = true
holds ExprNodeType.int_ge Ordering.eq = true
holds ExprNodeType.int_ge Ordering.gt = true
holds _ _ = false

-- The comparison of integers; an operand that is none makes it false.
abbrev pub compare_longs : ExprNodeType → Option ℕ → Option ℕ → Bool
compare_longs type (some lv) (some rv) = holds type (compare lv rv)
compare_longs type _ _ = false

abbrev pub is_true_text : Bytes → Bool
is_true_text s = not (at_end s) && not (str_eq s (codes "0")) && not (str_eq s (codes "false"))

abbrev pub test_stat : ExprNodeType → Option Stat → Bool
test_stat type none = false
test_stat ExprNodeType.file_f (some st) = st.is_reg
test_stat ExprNodeType.file_d (some st) = st.is_dir
test_stat ExprNodeType.file_s (some st) = st.is_reg && ltb 0 st.st_size
test_stat ExprNodeType.file_l (some st) = st.is_lnk
test_stat ExprNodeType.file_e (some st) = true
test_stat _ (some st) = false

-- The answer of the engine; `none` is a pattern that does not compile.
abbrev pub judge_match : Option MatchResult → Bool → Bool
judge_match none negate = false
judge_match (some htre_match) negate = not negate
judge_match (some htre_nomatch) negate = negate
judge_match (some htre_hit_limit) negate = negate
judge_match (some htre_error) negate = negate

abbrev pub text_of : Option Bytes → Bytes
text_of none = []
text_of (some s) = s

module _ (inet_pton6 : Bytes → Option Bytes) (htre : Bytes → Bytes → Option MatchResult)
    (stat lstat : Bytes → Option Stat) (session : Session) where
  unfoldable pub eval_regex_match : Bytes → Bytes → Bool → Bool
  eval_regex_match subject pattern negate =
      if at_end pattern || ltb 512 (length pattern)
      then false
      else if ltb 8192 (length subject)
      then negate
      else judge_match (htre pattern subject) negate

  abbrev pub is_file_l : ExprNodeType → Bool
  is_file_l ExprNodeType.file_l = true
  is_file_l _ = false

  unfoldable pub eval_file_test : ExprNodeType → Expr → Bool
  eval_file_test type operand =
      let path = eval_node_str session operand in
      if at_end path
      then false
      else test_stat type (if is_file_l type then lstat path else stat path)

  abbrev pub match_v4 : Bytes → Bytes → Bool
  match_v4 cidr_str ip_str = elim (cidr_parse cidr_str) [
    | none ↦ false
    | some cidr4 ↦ elim (ip_parse ip_str) [ none ↦ false | some ip ↦ cidr_match cidr4 ip ]
  ]

  -- IPv6 first, then IPv4.
  unfoldable pub match_ip : Bytes → Bytes → Bool
  match_ip cidr_str ip_str =
      if at_end cidr_str || at_end ip_str then false else elim (cidr_v6_parse inet_pton6 cidr_str) [
        | none ↦ match_v4 cidr_str ip_str
        | some cidr6 ↦ elim (ip_parse_v6 inet_pton6 ip_str) [
          | none ↦ match_v4 cidr_str ip_str
          | some addr6 ↦ cidr_v6_match cidr6 addr6
        ]
      ]

  unfoldable pub eval_ipmatch : Expr → Expr → Bool
  eval_ipmatch left null = match_ip (eval_node_str session left) (text_of session.client_ip)
  eval_ipmatch left (node ty v l r) =
      match_ip (eval_node_str session (node ty v l r)) (eval_node_str session left)

  -- The tests on two values.
  abbrev pub eval_strings : ExprNodeType → Expr → Expr → Bool
  eval_strings type left right =
      holds type (strcmp (eval_node_str session left) (eval_node_str session right))

  abbrev pub eval_longs : ExprNodeType → Expr → Expr → Bool
  eval_longs type left right =
      compare_longs type (parse_long (eval_node_str session left))
        (parse_long (eval_node_str session right))

  unfoldable pub expr_eval : Expr → Bool
  expr_eval null = false
  expr_eval (node ExprNodeType.and v l r) = expr_eval l && expr_eval r
  expr_eval (node ExprNodeType.or v l r) = expr_eval l || expr_eval r
  expr_eval (node ExprNodeType.not v l r) = not (expr_eval l)
  expr_eval (node ExprNodeType.file_f v l r) = eval_file_test ExprNodeType.file_f l
  expr_eval (node ExprNodeType.file_d v l r) = eval_file_test ExprNodeType.file_d l
  expr_eval (node ExprNodeType.file_s v l r) = eval_file_test ExprNodeType.file_s l
  expr_eval (node ExprNodeType.file_l v l r) = eval_file_test ExprNodeType.file_l l
  expr_eval (node ExprNodeType.file_e v l r) = eval_file_test ExprNodeType.file_e l
  expr_eval (node ExprNodeType.ipmatch v l r) = eval_ipmatch l r
  expr_eval (node ExprNodeType.cmp_eq v l r) = eval_strings ExprNodeType.cmp_eq l r
  expr_eval (node ExprNodeType.cmp_ne v l r) = eval_strings ExprNodeType.cmp_ne l r
  expr_eval (node ExprNodeType.cmp_lt v l r) = eval_strings ExprNodeType.cmp_lt l r
  expr_eval (node ExprNodeType.cmp_gt v l r) = eval_strings ExprNodeType.cmp_gt l r
  expr_eval (node ExprNodeType.cmp_le v l r) = eval_strings ExprNodeType.cmp_le l r
  expr_eval (node ExprNodeType.cmp_ge v l r) = eval_strings ExprNodeType.cmp_ge l r
  expr_eval (node ExprNodeType.regex_match v l r) =
      eval_regex_match (eval_node_str session l) (eval_node_str session r) false
  expr_eval (node ExprNodeType.regex_nomatch v l r) =
      eval_regex_match (eval_node_str session l) (eval_node_str session r) true
  expr_eval (node ExprNodeType.int_eq v l r) = eval_longs ExprNodeType.int_eq l r
  expr_eval (node ExprNodeType.int_ne v l r) = eval_longs ExprNodeType.int_ne l r
  expr_eval (node ExprNodeType.int_lt v l r) = eval_longs ExprNodeType.int_lt l r
  expr_eval (node ExprNodeType.int_le v l r) = eval_longs ExprNodeType.int_le l r
  expr_eval (node ExprNodeType.int_gt v l r) = eval_longs ExprNodeType.int_gt l r
  expr_eval (node ExprNodeType.int_ge v l r) = eval_longs ExprNodeType.int_ge l r
  expr_eval (node ExprNodeType.string v l r) = is_true_text (text_of v)
  expr_eval (node ExprNodeType.integer v l r) = is_true_text (text_of v)
  expr_eval (node ExprNodeType.var v l r) = not (at_end (expr_expand_var session (text_of v)))
  expr_eval (node ExprNodeType.func_tolower v l r) =
      not (at_end (eval_node_str session (node ExprNodeType.func_tolower v l r)))
  expr_eval (node ExprNodeType.func_toupper v l r) =
      not (at_end (eval_node_str session (node ExprNodeType.func_toupper v l r)))
  expr_eval (node ExprNodeType.regex v l r) = false
