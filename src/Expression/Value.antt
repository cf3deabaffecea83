-- ===== src/Expression/Value.antt =====
-- The values of src/htaccess_expr.c: what variables and functions stand for. What the server tells
-- about a request is a parameter, and so are its strings, in which no NUL stands. The buffers that
-- hold a value are copied before they are used again, so they are not modelled.
use litehttpd.Prelude.{
  ℕ, ◌-◌, not, ◌&&◌, ◌||◌, Option, none, some, [], ◌∷◌, ◌++◌, ltb, leb, ◌==◌, map, if◌then◌else◌,
  length, drop, take,
}
use litehttpd.Prelude.Text.{Bytes, codes, peek, str_eq, starts_with, to_lower, occurs}
use litehttpd.Directive.{ExprNodeType, Expr, null, node}
use litehttpd.Expression.Token.{cut}

-- The calls of lsi_session_get_*; `none` is the null pointer.
pub record Session : Type 0 where
  pub uri : Option Bytes
  pub query_string : Option Bytes
  pub method : Option Bytes
  pub client_ip : Option Bytes
  pub doc_root : Option Bytes
  pub env : Bytes → Option Bytes
  pub req_header : Bytes → Option Bytes

abbrev pub expr_var_buf_size : ℕ
expr_var_buf_size = 4096

-- EXPR_COPY_VAL
abbrev pub copy_val : Option Bytes → Bytes
copy_val none = []
copy_val (some v) = take 4095 v

-- REQUEST_FILENAME
abbrev pub request_filename : Option Bytes → Option Bytes → Bytes
request_filename (some dr) (some uri) =
    if occurs (codes "..") uri
    then []
    else if ltb (length (dr ++ uri)) expr_var_buf_size
    then dr ++ uri
    else []
request_filename _ _ = []

module _ (session : Session) where
  unfoldable pub named : Bytes → Bytes
  unfolding str_eq starts_with
  named name =
      if str_eq name (codes "REQUEST_URI")
      then copy_val session.uri
      else if str_eq name (codes "QUERY_STRING")
      then copy_val session.query_string
      else if str_eq name (codes "REQUEST_METHOD")
      then copy_val session.method
      else if str_eq name (codes "REMOTE_ADDR")
      then copy_val session.client_ip
      else if str_eq name (codes "SERVER_PORT")
      then codes "80"
      else if str_eq name (codes "HTTPS")
      then copy_val (session.env (codes "HTTPS"))
      else if str_eq name (codes "HTTP_HOST") || str_eq name (codes "SERVER_NAME")
      then copy_val (session.req_header (codes "Host"))
      else if str_eq name (codes "REQUEST_FILENAME")
      then request_filename session.doc_root session.uri
      else if starts_with name (codes "HTTP:")
      then copy_val (session.req_header (drop 5 name))
      else if starts_with name (codes "ENV:")
      then copy_val (session.env (drop 4 name))
      else copy_val (session.env name)

  abbrev pub of_reference : Option (Bytes × Bytes) → Bytes
  of_reference none = []
  of_reference (some ([], rest)) = []
  of_reference (some (c ∷ name, rest)) =
      if leb 256 (length (c ∷ name)) then [] else named (c ∷ name)

  -- A text that does not start with %{ stands for itself.
  unfoldable pub expr_expand_var : Bytes → Bytes
  unfolding cut named
  expr_expand_var var_ref =
      if not (peek var_ref == b'%') || not (peek (drop 1 var_ref) == b'{')
      then var_ref
      else of_reference (cut b'}' (drop 2 var_ref))

  abbrev pub to_upper : ℕ → ℕ
  to_upper c = if leb b'a' c && leb c b'z' then c - 32 else c

  abbrev pub str_or_empty : Option Bytes → Bytes
  str_or_empty none = []
  str_or_empty (some s) = s

  -- A null str_val of a variable stands for nothing, as the empty text does.
  unfoldable pub eval_node_str : Expr → Bytes
  unfolding expr_expand_var
  eval_node_str null = []
  eval_node_str (node ExprNodeType.string v l r) = str_or_empty v
  eval_node_str (node ExprNodeType.integer v l r) = str_or_empty v
  eval_node_str (node ExprNodeType.regex v l r) = str_or_empty v
  eval_node_str (node ExprNodeType.var v l r) = expr_expand_var (str_or_empty v)
  eval_node_str (node ExprNodeType.func_tolower v l r) = map to_lower (take 4095 (eval_node_str l))
  eval_node_str (node ExprNodeType.func_toupper v l r) = map to_upper (take 4095 (eval_node_str l))
  eval_node_str _ = []
