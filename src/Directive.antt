-- ===== src/Directive.antt =====
-- The data model of include/htaccess_directive.h and include/htaccess_expr.h: directives as a
-- linked list of nodes, whose union is a data type with a constructor for each member. A node made
-- by calloc has an all-zero union, `no_data`; a member that is read from it is zero.
pub mod Kind
pub mod Code
pub mod Typed
use litehttpd.Prelude.{ℕ, Bool, true, false, ◌&&◌, ◌||◌, Option, none, some, ◌==◌}
use litehttpd.Prelude.Text.{Bytes, str_eq}
use Kind.{DirectiveType}

-- expr_node_type_t
pub data ExprNodeType : Type 0 where
  string var regex integer : ExprNodeType
  cmp_eq cmp_ne cmp_lt cmp_gt cmp_le cmp_ge regex_match regex_nomatch : ExprNodeType
  int_eq int_ne int_lt int_le int_gt int_ge : ExprNodeType
  and or not : ExprNodeType
  file_f file_d file_s file_l file_e : ExprNodeType
  ipmatch func_tolower func_toupper : ExprNodeType

-- expr_node_t; `null` is the null pointer
pub data Expr : Type 0 where
  null : Expr
  node : ExprNodeType → Option Bytes → Expr → Expr → Expr

pub data AclOrder : Type 0 where
  order_allow_deny order_deny_allow : AclOrder

pub data BfAction : Type 0 where
  bf_action_block bf_action_throttle bf_action_log : BfAction

-- +1, -1 and 0 of the Options flags
pub data Tri : Type 0 where
  enable disable unchanged : Tri

-- the member brute_force, with the patterns of its ints
pub record BfData : Type 0 where
  pub enabled : Bool
  pub allowed_attempts : ℕ
  pub window_sec : ℕ
  pub action : BfAction
  pub throttle_ms : ℕ

mutual
  -- type, line_number, name, value, env_condition, data
  pub data Directive : Type 0 where
    directive : DirectiveType → ℕ → Option Bytes → Option Bytes → Option Bytes → Payload → Directive

  pub data Payload : Type 0 where
    no_data : Payload
    acl : AclOrder → Payload
    redirect : ℕ → Option Bytes → Payload
    error_doc : ℕ → Payload
    files_match : Option Bytes → Directives → Payload
    expires : Bool → ℕ → Payload
    envif : Option Bytes → Option Bytes → Payload
    brute_force : BfData → Payload
    ifmodule : Bool → Directives → Payload
    files : Directives → Payload
    options : Tri → Tri → Tri → Tri → Payload
    header_ext : Option Bytes → Payload
    require_container : Directives → Payload
    limit : Option Bytes → Directives → Payload
    rewrite_cond : Option Bytes → Option Bytes → Bool → Bool → Payload
    rewrite_rule : Option Bytes → Option Bytes → Directives → Payload
    rewrite_map : Option Bytes → Option Bytes → Option Bytes → Payload
    if_block : Expr → Directives → Payload

  -- the links `next`
  pub data Directives : Type 0 where
    nil : Directives
    cons : Directive → Directives → Directives

abbrev pub kind : Directive → DirectiveType
kind (directive t l n v e p) = t

abbrev pub name : Directive → Option Bytes
name (directive t l n v e p) = n

abbrev pub value : Directive → Option Bytes
value (directive t l n v e p) = v

abbrev pub payload : Directive → Payload
payload (directive t l n v e p) = p

-- The list behind its tail pointer.
unfoldable pub append : Directives → Directives → Directives
append nil es = es
append (cons d ds) es = cons d (append ds es)

-- The members of the union, as the executors read them.
abbrev pub order_of : Payload → AclOrder
order_of (acl o) = o
order_of _ = order_allow_deny

abbrev pub children_of : Payload → Directives
children_of (require_container ch) = ch
children_of _ = nil

abbrev pub error_code_of : Payload → ℕ
error_code_of (error_doc c) = c
error_code_of _ = 0

abbrev pub pattern_of : Payload → Option Bytes
pattern_of (redirect c p) = p
pattern_of _ = none

abbrev pub active_of : Payload → Bool
active_of (expires a d) = a
active_of _ = false

abbrev pub duration_of : Payload → ℕ
duration_of (expires a d) = d
duration_of _ = 0

abbrev pub bf_zero : BfData
bf_zero = record {
  enabled = false;
  allowed_attempts = 0;
  window_sec = 0;
  action = bf_action_block;
  throttle_ms = 0;
}

abbrev pub brute_force_of : Payload → BfData
brute_force_of (brute_force b) = b
brute_force_of _ = bf_zero
