-- ===== src/Parser/Options.antt =====
-- parse_options of src/htaccess_parser.c.
use litehttpd.Prelude.{ℕ, zero, suc, Option, none, some, length, drop, ◌==◌, ◌||◌, if◌then◌else◌}
use litehttpd.Prelude.Text.{Bytes, codes, skip_ws, at_end, peek, str_caseeq}
use litehttpd.Prelude.Maybe.{◌>>=◌}
use litehttpd.Expression.Token.{take_while, drop_while}
use litehttpd.Directive.{Directive, directive, Tri, enable, disable, unchanged, options}
use litehttpd.Directive.Kind
use litehttpd.Parser.Scan.{rest_of_line, is_word}

-- The four flags of the union's member.
pub record Flags : Type 0 where
  pub indexes : Tri
  pub follow_symlinks : Tri
  pub multiviews : Tri
  pub exec_cgi : Tri

abbrev pub no_flags : Flags
no_flags = record {
  indexes = unchanged;
  follow_symlinks = unchanged;
  multiviews = unchanged;
  exec_cgi = unchanged;
}

-- An unknown flag is ignored.
unfoldable pub set_flag : Bytes → Tri → Flags → Flags
unfolding str_caseeq
set_flag name sign f =
    if str_caseeq name (codes "Indexes")
    then record f { indexes = sign }
    else if str_caseeq name (codes "FollowSymLinks")
    then record f { follow_symlinks = sign }
    else if str_caseeq name (codes "MultiViews")
    then record f { multiviews = sign }
    else if str_caseeq name (codes "ExecCGI")
    then record f { exec_cgi = sign }
    else f

abbrev sign_of : Bytes → Tri
sign_of s = if peek s == b'-' then disable else enable

abbrev unsigned : Bytes → Bytes
unsigned s = if peek s == b'+' || peek s == b'-' then drop 1 s else s

-- The loop over the flags; each round takes a byte of the text at least.
unfoldable pub scan_flags : ℕ → Bytes → Flags → Flags
unfolding skip_ws take_while drop_while set_flag
scan_flags zero text f = f
scan_flags (suc fuel) text f =
    let s = skip_ws text in
    let name = unsigned s in
    let rest =
      scan_flags fuel (drop_while is_word name)
        (set_flag (take_while is_word name) (sign_of s) f) in
    if at_end s then f else rest

unfoldable pub parse_options : Bytes → ℕ → Option Directive
unfolding scan_flags
parse_options args line = do
  flags_str ← rest_of_line (skip_ws args)
  let f = scan_flags (suc (length flags_str)) flags_str no_flags
  some (
      directive Kind.options line none (some flags_str) none
        (options f.indexes f.follow_symlinks f.multiviews f.exec_cgi))
