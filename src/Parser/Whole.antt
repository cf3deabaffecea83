-- ===== src/Parser/Whole.antt =====
-- htaccess_parse keeps its invariant from line to line, and what it returns fits together.
use litehttpd.Prelude.{
  ℕ, ◌+◌, ◌≤◌, List, [], ◌∷◌, Option, none, some, length, ◌≡◌, Bool-cases, inl, inr, arith,
}
use litehttpd.Prelude.Text.{Bytes, skip_ws}
use litehttpd.Cidr6.{trim_end}
use litehttpd.Directive.{Directive, directive, Directives, nil, cons, kind, rewrite_rule}
use litehttpd.Directive.Kind.{DirectiveType}
use litehttpd.Directive.Kind
use litehttpd.Directive.Code.{same_type, same_type-eq}
use litehttpd.Directive.Typed.{IsTyped, AreTyped, AreConds, Yields, member}
use litehttpd.Auth.{until_nul}
use litehttpd.Printer.Document.{htaccess_print}
use litehttpd.Printer.Defined.{htaccess_print-IsText}
use litehttpd.Parser.Line.{parse_line}
use litehttpd.Parser.Typed.{parse_line-Yields}
use litehttpd.Parser.State.{State, start, put}
use litehttpd.Parser.Blocks.{Phase}
use litehttpd.Parser.Valid.{IsValid, put-IsValid, append-AreConds}
use litehttpd.Parser.Kept.{
  if_IsValid, AllValid, no_conds-IsValid, skip_block-AllValid, close_ifmodule-AllValid,
  open_ifmodule-AllValid, close_if-AllValid, open_if-AllValid, open_elseif-AllValid,
  open_else-AllValid,
}
use litehttpd.Parser.Closed.{
  close_files_match-AllValid, open_files_match-AllValid, close_files-AllValid, open_files-AllValid,
  close_any-AllValid, open_any-AllValid, close_all-AllValid, open_all-AllValid,
  close_limit-AllValid, open_limit_except-AllValid, open_limit-AllValid,
}
use litehttpd.Parser.Document.{
  leaf_place, add_leaf, attach, add_directive, read_directive, phases, try_phases, step,
  is_blank_or_comment, read_line, read_lines, lines_of, htaccess_parse,
}

add_leaf-IsValid : (d : Directive) (s : State) → IsTyped d → IsValid s → IsValid (add_leaf d s)
unfolding add_leaf
add_leaf-IsValid d s h v =
    elim (leaf_place (kind d) s)
      as (λ o. IsValid (elim o [ none ↦ s | some place ↦ put place d s ])) [
        | none ↦ v
        | some place ↦ put-IsValid place d s h v
      ]

attach-IsTyped :
    (conds : Directives) (d : Directive) → AreConds conds → IsTyped d → IsTyped (attach conds d)
unfolding attach IsTyped member
attach-IsTyped nil (directive t l n v e p) c h = h
attach-IsTyped (cons x xs) (directive t l n v e (rewrite_rule pattern flags conds)) c h =
    (h.0, h.1, h.2, c)
attach-IsTyped (cons x xs) (directive t l n v e p) c h = h

add_directive-IsValid :
    (d : Directive) (s : State) → IsTyped d → IsValid s → IsValid (add_directive d s)
unfolding add_directive
add_directive-IsValid d s h v = elim (Bool-cases (same_type (kind d) Kind.rewrite_cond)) [
  | inl e ↦ rw e (record {
    top = v.top;
    files_match = v.files_match;
    files = v.files;
    rqa = v.rqa;
    rqall = v.rqall;
    limit = v.limit;
    ifmods = v.ifmods;
    ifs = v.ifs;
    pending = append-AreConds s.pending_conds d v.pending (same_type-eq _ _ e) h;
    modules_fit = v.modules_fit;
    ifs_fit = v.ifs_fit;
  })
  | inr e ↦ elim (Bool-cases (same_type (kind d) Kind.rewrite_rule)) [
    | inl r ↦
        rw (e, r)
          (add_leaf-IsValid (attach s.pending_conds d) (record s { pending_conds = nil })
            (attach-IsTyped s.pending_conds d v.pending h) (no_conds-IsValid s v))
    | inr r ↦ rw (e, r) (add_leaf-IsValid d s h v)
  ]
]

read_directive-IsValid : (s : State) (p : Bytes) → IsValid s → IsValid (read_directive s p)
unfolding read_directive Yields
read_directive-IsValid s p v =
    elim (parse_line p s.line_num)
        as (λ o. Yields o → IsValid (elim o [ none ↦ s | some d ↦ add_directive d s ])) [
          | none ↦ λ h. v
          | some d ↦ λ h. add_directive-IsValid d s h v
        ]
      (parse_line-Yields p s.line_num)

-- Every phase keeps the invariant.
infixr 5 ◌▸◌
data AllKeep : List Phase → Type 0 where
  done : AllKeep []
  ◌▸◌ :
      {phase : Phase} {others : List Phase}
      → ((s : State) (p : Bytes) → IsValid s → AllValid (phase s p))
      → AllKeep others
      → AllKeep (phase ∷ others)

try_phases-IsValid :
    {ps : List Phase} (s : State) (p : Bytes) → AllKeep ps → IsValid s → IsValid (try_phases ps s p)
unfolding try_phases AllValid
try_phases-IsValid s p done v = read_directive-IsValid s p v
try_phases-IsValid s p (◌▸◌ {phase} {others} first h) v =
    let rest = try_phases-IsValid s p h v in
    elim (phase s p)
        as (λ o. AllValid o → IsValid (elim o [ some t ↦ t | none ↦ try_phases others s p ])) [
          | some t ↦ λ w. w
          | none ↦ λ w. rest
        ]
      (first s p v)

phases-AllKeep : AllKeep phases
unfolding phases
phases-AllKeep =
    skip_block-AllValid ▸ close_ifmodule-AllValid ▸ open_ifmodule-AllValid ▸ close_if-AllValid
    ▸ open_if-AllValid ▸ open_elseif-AllValid ▸ open_else-AllValid ▸ close_files_match-AllValid
    ▸ open_files_match-AllValid ▸ close_files-AllValid ▸ open_files-AllValid ▸ close_any-AllValid
    ▸ open_any-AllValid ▸ close_all-AllValid ▸ open_all-AllValid ▸ close_limit-AllValid
    ▸ open_limit_except-AllValid ▸ open_limit-AllValid ▸ done

step-IsValid : (s : State) (p : Bytes) → IsValid s → IsValid (step s p)
unfolding step
step-IsValid s p v = try_phases-IsValid s p phases-AllKeep v

numbered-IsValid : (s : State) (n : ℕ) → IsValid s → IsValid (record s { line_num = n })
numbered-IsValid s n v = record {
  top = v.top;
  files_match = v.files_match;
  files = v.files;
  rqa = v.rqa;
  rqall = v.rqall;
  limit = v.limit;
  ifmods = v.ifmods;
  ifs = v.ifs;
  pending = v.pending;
  modules_fit = v.modules_fit;
  ifs_fit = v.ifs_fit;
}

read_line-IsValid : (s : State) (line : Bytes) → IsValid s → IsValid (read_line s line)
unfolding read_line
read_line-IsValid s line v =
    let p = skip_ws (trim_end line) in
    let next = numbered-IsValid s (s.line_num + 1) v in
    if_IsValid (is_blank_or_comment p) _ _ next (step-IsValid _ p next)

start-IsValid : IsValid start
unfolding AreTyped AreConds
start-IsValid = record {
  top = tt;
  files_match = tt;
  files = tt;
  rqa = tt;
  rqall = tt;
  limit = tt;
  ifmods = tt;
  ifs = tt;
  pending = tt;
  modules_fit = omega arith;
  ifs_fit = omega arith;
}

read_lines-IsValid : (s : State) (lines : List Bytes) → IsValid s → IsValid (read_lines s lines)
unfolding read_lines
read_lines-IsValid s [] v = v
read_lines-IsValid s (l ∷ ls) v = read_lines-IsValid (read_line s l) ls (read_line-IsValid s l v)

-- After any lines the stacks of open <IfModule> and <If> blocks have 16 entries at most, as many as
-- their arrays.
pub read_lines-fit :
    (lines : List Bytes)
    → (length (read_lines start lines).ifmods ≤ 16) × (length (read_lines start lines).ifs ≤ 16)
read_lines-fit lines =
    let v = read_lines-IsValid start lines start-IsValid in (v.modules_fit, v.ifs_fit)

-- In what the parser returns for any file, every directive, at any depth, has the union's member
-- of its type set and the strings that the printer reads, and the conditions of a rewrite rule are
-- RewriteCond directives.
pub htaccess_parse-AreTyped : (content : Bytes) → AreTyped (htaccess_parse content)
unfolding htaccess_parse
htaccess_parse-AreTyped content =
    (read_lines-IsValid start (lines_of (until_nul content)) start-IsValid).top

-- What the parser returns for any file is printed without the read of a null string.
pub htaccess_print-parse :
    (content : Bytes)
    → (result : Option Bytes) × (htaccess_print (htaccess_parse content) ≡ some result)
htaccess_print-parse content =
    htaccess_print-IsText (htaccess_parse content) (htaccess_parse-AreTyped content)
