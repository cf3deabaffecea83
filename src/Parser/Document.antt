-- ===== src/Parser/Document.antt =====
-- htaccess_parse of src/htaccess_parser.c: the lines of the file, and what each does. Memory is
-- always there, and the log is left out.
use litehttpd.Prelude.{
  ℕ, ◌+◌, List, [], ◌∷◌, Bool, true, false, ◌&&◌, ◌||◌, Option, none, some, ◌==◌, if◌then◌else◌,
}
use litehttpd.Prelude.Text.{Bytes, skip_ws, at_end, peek}
use litehttpd.Cidr6.{trim_end}
use litehttpd.Auth.{until_nul}
use litehttpd.Directive.{Directive, directive, Directives, nil, cons, Payload, rewrite_rule, kind}
use litehttpd.Directive.Kind.{
  DirectiveType, require_all_granted, require_all_denied, require_ip, require_not_ip, require_env,
  require_valid_user, require_user, require_group, require_any_open, require_all_open,
}
use litehttpd.Directive.Kind
use litehttpd.Directive.Code.{same_type}
use litehttpd.Parser.Line.{parse_line}
use litehttpd.Parser.State.{
  State, start, Innermost, require_any, append_directive, Place, in_if, in_files_match, in_files,
  in_any, in_all, in_limit, in_ifmodule, at_top, is_there, put,
}
use litehttpd.Parser.Blocks.{
  Phase, skip_block, close_ifmodule, open_ifmodule, close_if, open_if, open_elseif, open_else,
}
use litehttpd.Parser.Sections.{
  close_files_match, open_files_match, close_files, open_files, close_any, open_any, close_all,
  open_all, close_limit, open_limit_except, open_limit,
}

-- What may stand in <RequireAny> and <RequireAll>.
unfoldable pub is_require : DirectiveType → Bool
is_require require_all_granted = true
is_require require_all_denied = true
is_require require_ip = true
is_require require_not_ip = true
is_require require_env = true
is_require require_valid_user = true
is_require require_user = true
is_require require_group = true
is_require require_any_open = true
is_require require_all_open = true
is_require _ = false

abbrev is_any : Innermost → Bool
is_any require_any = true
is_any _ = false

-- Where a directive goes; nothing if it is ignored.
unfoldable pub leaf_place : DirectiveType → State → Option Place
unfolding is_require is_there
leaf_place t s =
    let allowed = is_require t in
    if is_there in_if s
    then some in_if
    else if is_there in_files_match s
    then some in_files_match
    else if is_there in_files s
    then some in_files
    else if is_there in_any s && is_any s.require_innermost
    then (if allowed then some in_any else none)
    else if is_there in_all s
    then (if allowed then some in_all else none)
    else if is_there in_limit s
    then some in_limit
    else if is_there in_ifmodule s
    then some in_ifmodule
    else some at_top

unfoldable pub add_leaf : Directive → State → State
add_leaf d s = elim (leaf_place (kind d) s) [ none ↦ s | some place ↦ put place d s ]

-- The pending conditions are attached to a rule.
abbrev pub attach_payload : Directives → Payload → Payload
attach_payload nil p = p
attach_payload (cons c cs) (rewrite_rule pattern flags conditions) =
    rewrite_rule pattern flags (cons c cs)
attach_payload (cons c cs) p = p

unfoldable pub attach : Directives → Directive → Directive
attach conds (directive t l n v e p) = directive t l n v e (attach_payload conds p)

-- A condition waits for its rule; other directives may stand between.
unfoldable pub add_directive : Directive → State → State
add_directive d s =
    if same_type (kind d) Kind.rewrite_cond
    then record s { pending_conds = append_directive s.pending_conds d }
    else if same_type (kind d) Kind.rewrite_rule
    then add_leaf (attach s.pending_conds d) (record s { pending_conds = nil })
    else add_leaf d s

-- A line that is not recognised is skipped.
unfoldable pub read_directive : State → Bytes → State
read_directive s p = elim (parse_line p s.line_num) [ none ↦ s | some d ↦ add_directive d s ]

-- What a line is tried as, in this order.
unfoldable pub phases : List Phase
phases =
    skip_block ∷ close_ifmodule ∷ open_ifmodule ∷ close_if ∷ open_if ∷ open_elseif ∷ open_else
    ∷ close_files_match ∷ open_files_match ∷ close_files ∷ open_files ∷ close_any ∷ open_any
    ∷ close_all ∷ open_all ∷ close_limit ∷ open_limit_except ∷ open_limit ∷ []

unfoldable pub try_phases : List Phase → State → Bytes → State
try_phases [] s p = read_directive s p
try_phases (phase ∷ others) s p = elim (phase s p) [ some t ↦ t | none ↦ try_phases others s p ]

unfoldable pub step : State → Bytes → State
step s p = try_phases phases s p

abbrev pub is_blank_or_comment : Bytes → Bool
is_blank_or_comment p = at_end p || peek p == b'#'

-- A line, with the blanks around it.
unfoldable pub read_line : State → Bytes → State
read_line s line =
    let p = skip_ws (trim_end line) in
    let t = record s { line_num = s.line_num + 1 } in if is_blank_or_comment p then t else step t p

unfoldable pub push_char : ℕ → List Bytes → List Bytes
push_char c [] = (c ∷ []) ∷ []
push_char c (l ∷ ls) = (c ∷ l) ∷ ls

-- The lines, which newlines end.
unfoldable pub lines_of : Bytes → List Bytes
lines_of [] = []
lines_of (c ∷ s) = let rest = lines_of s in if c == 10 then [] ∷ rest else push_char c rest

unfoldable pub read_lines : State → List Bytes → State
read_lines s [] = s
read_lines s (l ∷ ls) = read_lines (read_line s l) ls

-- What stands before the first NUL; containers that are not closed are dropped.
unfoldable pub htaccess_parse : Bytes → Directives
htaccess_parse content = (read_lines start (lines_of (until_nul content))).top
