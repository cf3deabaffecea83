-- ===== src/Parser/RoundTrip.antt =====
-- What htaccess_print of src/htaccess_printer.c writes, htaccess_parse of src/htaccess_parser.c
-- reads back: documents of <IfModule> blocks, up to 16 deep, around lines that are read back.
use litehttpd.Prelude.{
  ℕ, suc, ◌+◌, ◌≤◌, List, [], ◌∷◌, ◌++◌, Bool, true, false, none, some, ◌≡◌, refl, sym, ap, ◌∙◌,
  arith,
}
use litehttpd.Prelude.Text.{Bytes, codes, has_char}
use litehttpd.Directive.{Directive, directive, Directives, nil, cons, append, kind, ifmodule}
use litehttpd.Directive.Kind
use litehttpd.Directive.Code.{same_type}
use litehttpd.Printer.Members.{quote_if_spaced}
use litehttpd.Printer.Leaf.{print_directive_text}
use litehttpd.Printer.Document.{print_directive, print_children, htaccess_print}
use litehttpd.Parser.Line.{parse_line}
use litehttpd.Parser.State.{State, start, append_directive}
use litehttpd.Parser.Document.{lines_of, read_line, read_lines, htaccess_parse}
use litehttpd.Parser.Lines.{
  unlines, is_line, AreLines, lines_of-unlines, until_nul-unlines, IsLeafLine,
}
use litehttpd.Parser.ModuleTag.{
  ModuleName, module_tag, is_ifmodule_open-module_tag, is_ifmodule_close-module_tag,
  is_line-module_tag, module_tag-IsTrimmed, has_char-ModuleName,
}
use litehttpd.Parser.Nesting.{Context, outside, reading, depth, enter, depth-enter}
use litehttpd.Parser.Steps.{read_line-leaf, read_line-open, read_line-close}
use mathlib.Core.List.{append_assoc, append-nil}

-- The directive is printed as one line, which is read back on the given line of a file.
pub record IsReadBack (d : Directive) (l : Bytes) (n : ℕ) : Type 0 where
  pub printed : print_directive d ≡ some l
  pub leaf : IsLeafLine l
  pub line : is_line l ≡ true
  pub parsed : parse_line l n ≡ some d
  pub unconditional : same_type (kind d) Kind.rewrite_cond ≡ false

-- The directives of a document, with the lines behind line `n`, the last of which is line `m`;
-- `k` blocks may be open at once.
pub data Document : (n k : ℕ) → Directives → List Bytes → (m : ℕ) → Type 0 where
  empty : {n k : ℕ} → Document n k nil [] n
  leaf :
      {n k m : ℕ} {d : Directive} {ds : Directives} {l : Bytes} {ls : List Bytes}
      → IsReadBack d l (n + 1)
      → Document (n + 1) k ds ls m
      → Document n k (cons d ds) (l ∷ ls) m
  block :
      {n k m q : ℕ} {name : Bytes} {neg : Bool} {ch ds : Directives} {inner ls : List Bytes}
      → ModuleName neg name
      → Document (n + 1) k ch inner q
      → Document (q + 1) (suc k) ds ls m
      → Document n
          (suc k)
          (cons (directive Kind.ifmodule (n + 1) (some name) none none (ifmodule neg ch)) ds)
          (module_tag name ∷ (inner ++ (codes "</IfModule>" ∷ ls)))
          m

append-cons :
    (acc : Directives) (d : Directive) (ds : Directives)
    → append (append_directive acc d) ds ≡ append acc (cons d ds)
unfolding append_directive append
append-cons nil d ds = refl
append-cons (cons e acc) d ds = ap (cons e) (append-cons acc d ds)

append-nil_right : (acc : Directives) → append acc nil ≡ acc
unfolding append
append-nil_right nil = refl
append-nil_right (cons e acc) = ap (cons e) (append-nil_right acc)

read_lines-cons :
    (s t : State) (l : Bytes) (ls : List Bytes)
    → read_line s l ≡ t
    → read_lines s (l ∷ ls) ≡ read_lines t ls
unfolding read_lines
read_lines-cons s t l ls e = ap (λ (t : State). read_lines t ls) e

append-reading :
    (acc : Directives) (d : Directive) (ds : Directives) (m : ℕ) (c : Context) (rest : List Bytes)
    → read_lines (reading m (append (append_directive acc d) ds) c) rest
      ≡ read_lines (reading m (append acc (cons d ds)) c) rest
append-reading acc d ds m c rest =
    ap (λ (a : Directives). read_lines (reading m a c) rest) (append-cons acc d ds)

-- The lines of a document are read into the innermost block.
read_lines-Document :
    {n k m : ℕ} {ds : Directives} {ls : List Bytes} (acc : Directives) (c : Context)
    (rest : List Bytes)
    → Document n k ds ls m
    → depth c + k ≤ 16
    → read_lines (reading n acc c) (ls ++ rest) ≡ read_lines (reading m (append acc ds) c) rest
unfolding append
read_lines-Document {n} acc c rest empty h =
    ap (λ (a : Directives). read_lines (reading n a c) rest) (sym (append-nil_right acc))
read_lines-Document {m = m} acc c rest (leaf {n} {d = d} {ds} {l} {ls} r doc) h =
    read_lines-cons _ _ l (ls ++ rest) (read_line-leaf n acc c l d r.leaf r.parsed r.unconditional)
    ∙ read_lines-Document (append_directive acc d) c rest doc h
    ∙ append-reading acc d ds m c rest
read_lines-Document {m = m} acc c rest
      (block {n} {k} {q = q} {name} {neg} {ch} {ds} {inner} {ls} tag body doc) h =
    let d = directive Kind.ifmodule (n + 1) (some name) none none (ifmodule neg ch) in
    let c' = enter name neg (n + 1) acc c in
    let closing = codes "</IfModule>" in
    let deeper : depth c' + k ≤ 16 = rw (depth-enter name neg (n + 1) acc c) (omega arith) in
    read_lines-cons _ _ (module_tag name) ((inner ++ (closing ∷ ls)) ++ rest) (
      read_line-open n acc c (module_tag name) name neg (module_tag-IsTrimmed name)
        (unfold module_tag in refl) (is_ifmodule_close-module_tag name)
        (is_ifmodule_open-module_tag tag) (omega arith))
    ∙ ap (read_lines (reading (n + 1) nil c')) (append_assoc inner (closing ∷ ls) rest)
    ∙ read_lines-Document nil c' (closing ∷ (ls ++ rest)) body deeper
    ∙ read_lines-cons _ _ closing (ls ++ rest) (read_line-close name neg (n + 1) q acc ch c)
    ∙ read_lines-Document (append_directive acc d) c rest doc h
    ∙ append-reading acc d ds m c rest

AreLines-append : (xs ys : List Bytes) → AreLines xs → AreLines ys → AreLines (xs ++ ys)
AreLines-append [] ys h k = k
AreLines-append (x ∷ xs) ys h k = (h.0, AreLines-append xs ys h.1 k)

Document-AreLines :
    {n k m : ℕ} {ds : Directives} {ls : List Bytes} → Document n k ds ls m → AreLines ls
Document-AreLines empty = tt
Document-AreLines (leaf r doc) = (r.line, Document-AreLines doc)
Document-AreLines (block {inner = inner} tag body doc) = (
  is_line-module_tag tag,
  AreLines-append inner _ (Document-AreLines body) (unfold is_line in refl, Document-AreLines doc),
)

unlines-append : (xs ys : List Bytes) → unlines (xs ++ ys) ≡ unlines xs ++ unlines ys
unfolding unlines
unlines-append [] ys = refl
unlines-append (x ∷ xs) ys = simp (unlines-append xs ys, append_assoc)

print_children-cons :
    (d : Directive) (ds : Directives) (text rest : Bytes)
    → print_directive d ≡ some text
    → print_children ds ≡ some rest
    → print_children (cons d ds) ≡ some (text ++ (10 ∷ rest))
unfolding print_children
print_children-cons d ds text rest e f = rw (e, f) refl

-- The block without the newline behind it.
print_block :
    (n : ℕ) (name text : Bytes) (neg : Bool) (ch : Directives)
    → has_char 32 name ≡ false
    → print_children ch ≡ some text
    → print_directive (directive Kind.ifmodule n (some name) none none (ifmodule neg ch))
      ≡ some (module_tag name ++ (10 ∷ (text ++ codes "</IfModule>")))
unfolding print_directive print_directive_text quote_if_spaced module_tag
print_block n name text neg ch q e = rw (e, q) (simp append_assoc)

-- A document is printed as its lines.
print_children-Document :
    {n k m : ℕ} {ds : Directives} {ls : List Bytes}
    → Document n k ds ls m
    → print_children ds ≡ some (unlines ls)
unfolding unlines
print_children-Document empty = unfold print_children in refl
print_children-Document (leaf {d = d} {ds} {l} {ls} r doc) =
    print_children-cons d ds l (unlines ls) r.printed (print_children-Document doc)
print_children-Document (block {n} {name = name} {neg} {ch} {ds} {inner} {ls} tag body doc) =
    print_children-cons _ ds _ (unlines ls)
      (print_block (n + 1) name (unlines inner) neg ch (has_char-ModuleName tag)
        (print_children-Document body))
      (print_children-Document doc)
    ∙ ap some (simp (append_assoc, unlines-append))

read_document :
    {m : ℕ} {ds : Directives} {ls : List Bytes}
    → Document 0 16 ds ls m
    → read_lines start ls ≡ reading m ds outside
unfolding depth reading append read_lines
read_document {ls = ls} doc =
    rw (append-nil ls) at (read_lines-Document nil outside [] doc (omega arith))

parse_document :
    {m : ℕ} {ds : Directives} {ls : List Bytes}
    → Document 0 16 ds ls m
    → htaccess_parse (unlines ls) ≡ ds
unfolding htaccess_parse reading
parse_document {ls = ls} doc =
    ap (λ (text : Bytes). (read_lines start (lines_of text)).top)
      (until_nul-unlines ls (Document-AreLines doc))
    ∙ ap (λ (lines : List Bytes). (read_lines start lines).top)
        (lines_of-unlines ls (Document-AreLines doc))
    ∙ ap (λ (s : State). s.top) (read_document doc)

-- A document of lines that are read back and of <IfModule> blocks, at most 16 of them open at once,
-- is printed, and parsing what was printed gives the document, every line number included.
pub htaccess_parse-print :
    {m : ℕ} {d : Directive} {ds : Directives} {ls : List Bytes}
    → Document 0 16 (cons d ds) ls m
    → (text : Bytes) × (htaccess_print (cons d ds) ≡ some (some text))
      × (htaccess_parse text ≡ cons d ds)
unfolding htaccess_print
htaccess_parse-print {m} {d} {ds} {ls} doc =
    (unlines ls, rw (print_children-Document doc) refl, parse_document doc)
