-- ===== src/Expression/Print.antt =====
-- The printer of conditions, expr_to_string of src/htaccess_expr.c. The growing buffer is the list
-- of the bytes that are appended; memory is always there.
use litehttpd.Prelude.{
  [], ◌∷◌, ◌++◌, Bool, true, false, Option, none, some, if◌then◌else◌, ◌≡◌, refl,
}
use litehttpd.Prelude.Text.{Bytes, codes}
use litehttpd.Directive.{Expr, null, node, ExprNodeType}

abbrev or_empty : Option Bytes → Bytes
or_empty none = []
or_empty (some s) = s

-- An OR below an AND is put in parentheses; `parent` is none at the root.
unfoldable pub needs_parens : ExprNodeType → Option ExprNodeType → Bool
needs_parens ExprNodeType.or (some ExprNodeType.and) = true
needs_parens _ _ = false

-- AND, OR, and the comparisons from NODE_CMP_EQ to NODE_INT_GE.
unfoldable pub is_complex : Expr → Bool
is_complex null = false
is_complex (node ExprNodeType.and s l r) = true
is_complex (node ExprNodeType.or s l r) = true
is_complex (node ExprNodeType.cmp_eq s l r) = true
is_complex (node ExprNodeType.cmp_ne s l r) = true
is_complex (node ExprNodeType.cmp_lt s l r) = true
is_complex (node ExprNodeType.cmp_gt s l r) = true
is_complex (node ExprNodeType.cmp_le s l r) = true
is_complex (node ExprNodeType.cmp_ge s l r) = true
is_complex (node ExprNodeType.regex_match s l r) = true
is_complex (node ExprNodeType.regex_nomatch s l r) = true
is_complex (node ExprNodeType.int_eq s l r) = true
is_complex (node ExprNodeType.int_ne s l r) = true
is_complex (node ExprNodeType.int_lt s l r) = true
is_complex (node ExprNodeType.int_le s l r) = true
is_complex (node ExprNodeType.int_gt s l r) = true
is_complex (node ExprNodeType.int_ge s l r) = true
is_complex (node t s l r) = false

-- The operator between the operands of a comparison.
unfoldable pub operator : ExprNodeType → Option Bytes
operator ExprNodeType.cmp_eq = some (codes " == ")
operator ExprNodeType.cmp_ne = some (codes " != ")
operator ExprNodeType.cmp_lt = some (codes " < ")
operator ExprNodeType.cmp_gt = some (codes " > ")
operator ExprNodeType.cmp_le = some (codes " <= ")
operator ExprNodeType.cmp_ge = some (codes " >= ")
operator ExprNodeType.regex_match = some (codes " =~ ")
operator ExprNodeType.regex_nomatch = some (codes " !~ ")
operator ExprNodeType.int_eq = some (codes " -eq ")
operator ExprNodeType.int_ne = some (codes " -ne ")
operator ExprNodeType.int_lt = some (codes " -lt ")
operator ExprNodeType.int_le = some (codes " -le ")
operator ExprNodeType.int_gt = some (codes " -gt ")
operator ExprNodeType.int_ge = some (codes " -ge ")
operator _ = none

-- The operator before the operand of a file test.
unfoldable pub file_operator : ExprNodeType → Option Bytes
file_operator ExprNodeType.file_f = some (codes "-f ")
file_operator ExprNodeType.file_d = some (codes "-d ")
file_operator ExprNodeType.file_s = some (codes "-s ")
file_operator ExprNodeType.file_l = some (codes "-l ")
file_operator ExprNodeType.file_e = some (codes "-e ")
file_operator _ = none

abbrev pub parens : Bool → Bytes → Bytes
parens b s = if b then b'(' ∷ (s ++ (b')' ∷ [])) else s

-- The text of a node, from the texts of its operands.
unfoldable pub print_node :
    ExprNodeType → Option Bytes → Option ExprNodeType → Expr → Expr → Bytes → Bytes → Bytes
unfolding needs_parens is_complex operator file_operator
print_node ExprNodeType.string s parent l r left right = 39 ∷ (or_empty s ++ (39 ∷ []))
print_node ExprNodeType.var s parent l r left right = or_empty s
print_node ExprNodeType.regex s parent l r left right = b'/' ∷ (or_empty s ++ (b'/' ∷ []))
print_node ExprNodeType.integer s parent l r left right = or_empty s
print_node ExprNodeType.not s parent l r left right = b'!' ∷ parens (is_complex l) left
print_node ExprNodeType.and s parent l r left right =
    parens (needs_parens ExprNodeType.and parent) (left ++ (codes " && " ++ right))
print_node ExprNodeType.or s parent l r left right =
    parens (needs_parens ExprNodeType.or parent) (left ++ (codes " || " ++ right))
print_node ExprNodeType.ipmatch s parent l null left right = codes "-ipmatch " ++ left
print_node ExprNodeType.ipmatch s parent l r left right = left ++ (codes " -ipmatch " ++ right)
print_node ExprNodeType.func_tolower s parent l r left right =
    codes "tolower(" ++ (left ++ (b')' ∷ []))
print_node ExprNodeType.func_toupper s parent l r left right =
    codes "toupper(" ++ (left ++ (b')' ∷ []))
print_node t s parent l r left right = elim (file_operator t) [
  | some op ↦ op ++ left
  | none ↦ elim (operator t) [ some op ↦ left ++ (op ++ right) | none ↦ [] ]
]

unfoldable pub expr_to_string_r : Expr → Option ExprNodeType → Bytes
unfolding print_node
expr_to_string_r null parent = []
expr_to_string_r (node t s l r) parent =
    print_node t s parent l r (expr_to_string_r l (some t)) (expr_to_string_r r (some t))

unfoldable pub expr_to_string : Expr → Option Bytes
unfolding expr_to_string_r
expr_to_string null = none
expr_to_string (node t s l r) = some (expr_to_string_r (node t s l r) none)

print_runs :
    expr_to_string (
      node ExprNodeType.not none
        (node ExprNodeType.cmp_eq none
          (node ExprNodeType.var (some (codes "%{HTTPS}")) null null)
          (node ExprNodeType.string (some (codes "on")) null null))
        null)
    ≡ some (codes "!(%{HTTPS} == 'on')")
unfolding expr_to_string
print_runs = refl
