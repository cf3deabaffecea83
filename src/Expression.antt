-- ===== src/Expression.antt =====
-- src/htaccess_expr.c, the conditions of <If> and <ElseIf>. The tree is Expr of Directive.antt.
pub mod Token
pub mod Parse
pub mod Fits
pub mod Depth
pub mod Nesting
pub mod Value
pub mod Eval
pub mod Laws
pub mod Bounds
pub mod Address
pub mod Print
