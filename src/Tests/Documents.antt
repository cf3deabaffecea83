-- ===== src/Tests/Documents.antt =====
-- Runs of src/htaccess_parser.c and src/htaccess_printer.c.
use litehttpd.Prelude.{◌≤◌, List, [], ◌∷◌, ◌++◌, Option, none, some, length, false, ◌≡◌, refl}
use litehttpd.Prelude.Text.{Bytes, codes}
use litehttpd.Directive
use litehttpd.Directive.{directive, Directives, nil, cons, no_data}
use litehttpd.Directive.Kind.{ifmodule, require_all_granted, auth_type}
use litehttpd.Directive.Typed.{AreTyped}
use litehttpd.Printer.Document.{htaccess_print}
use litehttpd.Parser.State.{start}
use litehttpd.Parser.Document.{read_lines, htaccess_parse}
use litehttpd.Parser.ModuleTag.{is_name, module_tag, plain}
use litehttpd.Parser.RoundTrip.{IsReadBack, empty, leaf, block, htaccess_parse-print}
use litehttpd.Parser.Words.{is_word_text}
use litehttpd.Parser.Families
use litehttpd.Parser.Leaves.{word, constant, Written-IsReadBack}
use litehttpd.Parser.Whole.{htaccess_parse-AreTyped, htaccess_print-parse, read_lines-fit}

abbrev granted_line : Bytes
granted_line = codes "Require all granted"

abbrev lines : List Bytes
lines = codes "<IfModule mod_a.c>" ∷ granted_line ∷ codes "</IfModule>" ∷ []

abbrev text : Bytes
text = codes "<IfModule mod_a.c>\nRequire all granted\n</IfModule>\nHeader set X-A \"b c\"\n"

htaccess_parse-AreTyped_example : AreTyped (htaccess_parse text)
htaccess_parse-AreTyped_example = htaccess_parse-AreTyped text

htaccess_print-parse_example :
    (result : Option Bytes) × (htaccess_print (htaccess_parse text) ≡ some result)
htaccess_print-parse_example = htaccess_print-parse text

read_lines-fit_example :
    (length (read_lines start lines).ifmods ≤ 16) × (length (read_lines start lines).ifs ≤ 16)
read_lines-fit_example = read_lines-fit lines

abbrev basic_line : Bytes
basic_line = codes "AuthType Basic"

Written-IsReadBack_example :
    IsReadBack (directive auth_type 4 none (some (codes "Basic")) none no_data) basic_line 4
unfolding is_word_text
Written-IsReadBack_example =
    Written-IsReadBack
      (word Families.auth_type (record { chars = refl; nonempty = refl; unquoted = refl }))

abbrev guarded : Directives
guarded =
    cons
      (directive ifmodule 1 (some (codes "mod_a.c")) none none (
        Directive.ifmodule false
          (cons (directive require_all_granted 2 none none none no_data) nil)))
      (cons (directive auth_type 4 none (some (codes "Basic")) none no_data) nil)

htaccess_parse-print_example :
    (text : Bytes) × (htaccess_print guarded ≡ some (some text)) × (htaccess_parse text ≡ guarded)
unfolding is_name is_word_text module_tag
htaccess_parse-print_example = htaccess_parse-print {m = 4} {ls = lines ++ (basic_line ∷ [])} (
    block (plain 109 (codes "od_a.c") refl refl refl)
      (leaf (Written-IsReadBack (constant Families.require_all_granted)) empty)
      (leaf
        (Written-IsReadBack
          (word Families.auth_type (record { chars = refl; nonempty = refl; unquoted = refl })))
        empty))
