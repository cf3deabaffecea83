-- ===== src/Parser/Sections.antt =====
-- The containers <FilesMatch>, <Files>, <RequireAny>, <RequireAll>, <Limit> and <LimitExcept> of
-- htaccess_parse in src/htaccess_parser.c, which do not nest in themselves.
use litehttpd.Prelude.{Bool, not, ◌&&◌, Option, none, some, if◌then◌else◌}
use litehttpd.Prelude.Text.{Bytes}
use litehttpd.Directive.{Directive, directive, nil, files_match, files, require_container, limit}
use litehttpd.Directive.Kind.{DirectiveType, require_any_open, require_all_open, limit_except}
use litehttpd.Directive.Kind
use litehttpd.Directive.Code.{same_type}
use litehttpd.Parser.Tags.{
  is_files_match_open, is_files_match_close, is_files_open, is_files_close, is_require_any_open,
  is_require_any_close, is_require_all_open, is_require_all_close, is_limit_open, is_limit_close,
  is_limit_except_open, is_limit_except_close,
}
use litehttpd.Parser.State.{
  Block, LimitBlock, neither, require_any, require_all, State, is_open, opened, put_first,
  files_chain, any_chain, all_chain, limit_chain,
}
use litehttpd.Parser.Blocks.{Phase}

abbrev pub files_match_of : Block → Directive
files_match_of b =
    directive Kind.files_match b.start_line none none none (files_match b.argument b.children)

unfoldable pub end_files_match : Option Block → State → Option State
end_files_match none s = none
end_files_match (some b) s = some (record (put_first files_chain (files_match_of b) s) {
  files_match = none;
  pending_conds = nil;
})

unfoldable pub close_files_match : Phase
unfolding end_files_match
close_files_match s p = if is_files_match_close p then end_files_match s.files_match s else none

abbrev pub no_files : State → Bool
no_files s = not (is_open s.files_match) && not (is_open s.files)

unfoldable pub open_files_match : Phase
open_files_match s p =
    if no_files s
    then elim (is_files_match_open p) [
      | none ↦ none
      | some pattern ↦ some (record s { files_match = some (opened (some pattern) s.line_num) })
    ]
    else none

abbrev pub files_of : Block → Directive
files_of b = directive Kind.files b.start_line b.argument none none (files b.children)

unfoldable pub end_files : Option Block → State → Option State
end_files none s = none
end_files (some b) s =
    some (record (put_first files_chain (files_of b) s) { files = none; pending_conds = nil })

unfoldable pub close_files : Phase
unfolding end_files
close_files s p = if is_files_close p then end_files s.files s else none

unfoldable pub open_files : Phase
open_files s p =
    if no_files s
    then elim (is_files_open p) [
      | none ↦ none
      | some fname ↦ some (record s { files = some (opened (some fname) s.line_num) })
    ]
    else none

abbrev pub require_of : DirectiveType → Block → Directive
require_of t b = directive t b.start_line none none none (require_container b.children)

unfoldable pub end_any : Option Block → State → Option State
end_any none s = none
end_any (some b) s = some (record (put_first any_chain (require_of require_any_open b) s) {
  rqa = none;
  require_innermost = if is_open s.rqall then require_all else neither;
  pending_conds = nil;
})

unfoldable pub close_any : Phase
unfolding end_any
close_any s p = if is_require_any_close p then end_any s.rqa s else none

unfoldable pub open_any : Phase
open_any s p =
    if not (is_open s.rqa) && is_require_any_open p
    then some (record s { rqa = some (opened none s.line_num); require_innermost = require_any })
    else none

unfoldable pub end_all : Option Block → State → Option State
end_all none s = none
end_all (some b) s = some (record (put_first all_chain (require_of require_all_open b) s) {
  rqall = none;
  require_innermost = if is_open s.rqa then require_any else neither;
  pending_conds = nil;
})

unfoldable pub close_all : Phase
unfolding end_all
close_all s p = if is_require_all_close p then end_all s.rqall s else none

unfoldable pub open_all : Phase
open_all s p =
    if not (is_open s.rqall) && is_require_all_open p
    then some (record s { rqall = some (opened none s.line_num); require_innermost = require_all })
    else none

abbrev pub limit_of : LimitBlock → Directive
limit_of b =
    directive b.limit_type b.block.start_line none none none
      (limit b.block.argument b.block.children)

abbrev pub closes_limit : DirectiveType → Bytes → Bool
closes_limit t p = if same_type t Kind.limit then is_limit_close p else is_limit_except_close p

unfoldable pub end_limit : Option LimitBlock → State → Bytes → Option State
end_limit none s p = none
end_limit (some b) s p =
    if closes_limit b.limit_type p
    then some (record (put_first limit_chain (limit_of b) s) { limit = none; pending_conds = nil })
    else none

abbrev pub no_requires : State → Bool
no_requires s = not (is_open s.rqa) && not (is_open s.rqall)

unfoldable pub close_limit : Phase
unfolding end_limit
close_limit s p = if no_requires s then end_limit s.limit s p else none

unfoldable pub begin_limit : DirectiveType → Option Bytes → State → Option State
begin_limit t none s = none
begin_limit t (some methods) s = some (record s {
  limit = some (record { block = opened (some methods) s.line_num; limit_type = t });
})

unfoldable pub open_limit_except : Phase
unfolding begin_limit
open_limit_except s p =
    if not (is_open s.limit) && no_requires s
    then begin_limit limit_except (is_limit_except_open p) s
    else none

unfoldable pub open_limit : Phase
unfolding begin_limit
open_limit s p =
    if not (is_open s.limit) && no_requires s
    then begin_limit Kind.limit (is_limit_open p) s
    else none
