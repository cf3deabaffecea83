-- ===== src/Parser/Blocks.antt =====
-- The containers of htaccess_parse in src/htaccess_parser.c: what a line that is a tag does. `some`
-- is the `continue` of the source, and `none` means that the line is no such tag here.
use litehttpd.Prelude.{
  ℕ, ◌+◌, ◌-◌, List, [], ◌∷◌, Bool, false, not, ◌&&◌, ◌||◌, Option, none, some, length, drop, ltb,
  leb, if◌then◌else◌,
}
use litehttpd.Prelude.Text.{Bytes}
use litehttpd.Directive.{
  Expr, null, Directive, directive, Directives, nil, cons, ifmodule, if_block, kind,
}
use litehttpd.Directive.Kind.{
  DirectiveType, if_open, elseif_open, else_open, require_any_open, require_all_open, limit_except,
}
use litehttpd.Directive.Kind
use litehttpd.Directive.Code.{same_type}
use litehttpd.Expression.Parse.{expr_parse}
use litehttpd.Parser.Tags.{
  is_ifmodule_open, is_ifmodule_close, is_if_open, is_elseif_open, is_else_open, is_if_close,
  is_elseif_close, is_else_close,
}
use litehttpd.Parser.State.{
  Block, Snapshot, ModuleBlock, IfBlock, LimitBlock, State, is_open, snapshot, opened, Place, in_if,
  in_files_match, in_files, in_any, in_all, in_limit, in_ifmodule, at_top, first_open, put_first,
  module_chain,
}

abbrev pub Phase : Type 0
Phase = State → Bytes → Option State

abbrev pub max_depth : ℕ
max_depth = 16

abbrev pub opens_conditional : Bytes → Bool
opens_conditional p = is_open (is_if_open p) || is_open (is_elseif_open p) || is_else_open p

abbrev pub closes_conditional : Bytes → Bool
closes_conditional p = is_if_close p || is_elseif_close p || is_else_close p

-- A block behind an orphaned <ElseIf> or <Else> is skipped to its end.
unfoldable pub skip_block : Phase
skip_block s p =
    if ltb 0 s.skip_if_depth
    then some (
        if opens_conditional p
        then record s { skip_if_depth = s.skip_if_depth + 1 }
        else if closes_conditional p
        then record s { skip_if_depth = s.skip_if_depth - 1 }
        else s)
    else none

-- A container is kept if it was open before.
abbrev pub kept {ℓ} : {A : Type ℓ} → Bool → Option A → Option A
kept saved b = if saved then b else none

-- What was opened inside the <IfModule> and is not closed is dropped.
unfoldable pub drop_inner : Snapshot → State → State
drop_inner m s = record s {
  files_match = kept m.in_files_match s.files_match;
  files = kept m.in_files s.files;
  rqa = kept m.in_require_any s.rqa;
  rqall = kept m.in_require_all s.rqall;
  limit = kept m.in_limit s.limit;
  ifs = drop (length s.ifs - m.if_depth) s.ifs;
  pending_conds = nil;
}

abbrev pub module_of : ModuleBlock → Directive
module_of m =
    directive Kind.ifmodule m.block.start_line m.block.argument none none
      (ifmodule m.negated m.block.children)

-- The innermost <IfModule> of the stack is closed.
unfoldable pub pop_ifmodule : List ModuleBlock → State → Option State
unfolding drop_inner
pop_ifmodule [] s = none
pop_ifmodule (m ∷ ms) s =
    some (put_first module_chain (module_of m) (record (drop_inner m.saved s) { ifmods = ms }))

unfoldable pub close_ifmodule : Phase
unfolding pop_ifmodule
close_ifmodule s p = if is_ifmodule_close p then pop_ifmodule s.ifmods s else none

-- An <IfModule> that is nested too deep is skipped.
unfoldable pub push_ifmodule : Bytes × Bool → State → State
push_ifmodule tag s = if leb max_depth (length s.ifmods) then s else record s {
  ifmods =
      record { block = opened (some tag.0) s.line_num; negated = tag.1; saved = snapshot s }
      ∷ s.ifmods;
}

unfoldable pub open_ifmodule : Phase
unfolding push_ifmodule
open_ifmodule s p = elim (is_ifmodule_open p) [
  | none ↦ none
  | some tag ↦ some (push_ifmodule tag s)
]

-- The close tag does not match the open tag.
abbrev pub is_mismatch : DirectiveType → Bytes → Bool
is_mismatch t p =
    (is_if_close p && not (same_type t if_open))
    || (is_elseif_close p && not (same_type t elseif_open))
    || (is_else_close p && not (same_type t else_open))

-- The condition is null where the text does not parse, and for <Else>.
unfoldable pub condition_of : DirectiveType → Option Bytes → Expr
condition_of t none = null
condition_of t (some text) =
    if same_type t else_open then null else elim (expr_parse text) [ none ↦ null | some e ↦ e ]

unfoldable pub if_of : IfBlock → Directive
if_of b =
    directive b.if_type b.block.start_line none none none
      (if_block (condition_of b.if_type b.block.argument) b.block.children)

unfoldable pub pop_if : List IfBlock → State → Bytes → Option State
unfolding if_of
pop_if [] s p = none
pop_if (b ∷ bs) s p = some (
    if is_mismatch b.if_type p
    then record s { ifs = bs }
    else record (put_first module_chain (if_of b) (record s { ifs = bs })) { pending_conds = nil })

unfoldable pub close_if : Phase
unfolding pop_if
close_if s p = if closes_conditional p then pop_if s.ifs s p else none

unfoldable pub push_if : DirectiveType → Option Bytes → State → State
push_if t text s =
    if leb max_depth (length s.ifs)
    then s
    else record s { ifs = record { block = opened text s.line_num; if_type = t } ∷ s.ifs }

unfoldable pub open_if : Phase
unfolding push_if
open_if s p = elim (is_if_open p) [ none ↦ none | some text ↦ some (push_if if_open (some text) s) ]

abbrev block_children : Option Block → Directives
block_children none = nil
block_children (some b) = b.children

abbrev limit_children : Option LimitBlock → Directives
limit_children none = nil
limit_children (some b) = b.block.children

abbrev module_children : List ModuleBlock → Directives
module_children [] = nil
module_children (m ∷ ms) = m.block.children

abbrev if_children : List IfBlock → Directives
if_children [] = nil
if_children (b ∷ bs) = b.block.children

-- The children of the container that a place stands for.
unfoldable pub siblings : Place → State → Directives
siblings in_if s = if_children s.ifs
siblings in_files_match s = block_children s.files_match
siblings in_files s = block_children s.files
siblings in_any s = block_children s.rqa
siblings in_all s = block_children s.rqall
siblings in_limit s = limit_children s.limit
siblings in_ifmodule s = module_children s.ifmods
siblings at_top s = s.top

-- The last of them is an <If> or an <ElseIf>.
unfoldable pub ends_in_if : Directives → Bool
ends_in_if nil = false
ends_in_if (cons d nil) = same_type (kind d) if_open || same_type (kind d) elseif_open
ends_in_if (cons d (cons e ds)) = ends_in_if (cons e ds)

-- <ElseIf> and <Else> stand behind an <If> or <ElseIf> block.
unfoldable pub push_else : DirectiveType → Option Bytes → State → State
unfolding first_open siblings ends_in_if push_if
push_else t text s =
    if not (ends_in_if (siblings (first_open module_chain s) s))
    then record s { skip_if_depth = s.skip_if_depth + 1 }
    else push_if t text s

unfoldable pub open_elseif : Phase
unfolding push_else
open_elseif s p = elim (is_elseif_open p) [
  | none ↦ none
  | some text ↦ some (push_else elseif_open (some text) s)
]

unfoldable pub open_else : Phase
unfolding push_else
open_else s p = if is_else_open p then some (push_else else_open none s) else none
