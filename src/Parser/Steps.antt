-- ===== src/Parser/Steps.antt =====
-- The lines of a document with <IfModule> blocks, one at a time.
use litehttpd.Prelude.{
  ℕ, suc, ◌+◌, ◌<◌, List, ◌∷◌, Bool, false, none, some, length, ◌==◌, leb, ◌≡◌, refl, ap, ◌∙◌,
  arith, Bool-cases, inl, inr,
}
use litehttpd.Prelude.Text.{Bytes, codes, skip_ws, peek}
use litehttpd.Cidr6.{trim_end}
use litehttpd.Directive.{Directive, directive, Directives, nil, kind, ifmodule}
use litehttpd.Directive.Kind
use litehttpd.Directive.Code.{same_type}
use litehttpd.Parser.Line.{parse_line}
use litehttpd.Parser.Tags.{is_ifmodule_open, is_ifmodule_close}
use litehttpd.Parser.State.{State, append_directive, put, put_first, first_open}
use litehttpd.Parser.Blocks.{
  Phase, skip_block, close_ifmodule, open_ifmodule, push_ifmodule, pop_ifmodule, drop_inner,
}
use litehttpd.Parser.Document.{
  leaf_place, add_leaf, attach, add_directive, read_directive, phases, try_phases, step, read_line,
}
use litehttpd.Parser.Lines.{IsTrimmed, IsLeafLine}
use litehttpd.Parser.Nesting.{
  Context, outside, inside, reading, depth, enter, skip_block-none, step-leaf,
}

-- A phase takes the line, and those before it do not.
data Takes (s : State) (p : Bytes) (t : State) : List Phase → Type 0 where
  here : {phase : Phase} {others : List Phase} → phase s p ≡ some t → Takes s p t (phase ∷ others)
  later :
      {phase : Phase} {others : List Phase}
      → phase s p ≡ none
      → Takes s p t others
      → Takes s p t (phase ∷ others)

try_phases-Takes :
    (s : State) (p : Bytes) (t : State) {ps : List Phase} → Takes s p t ps → try_phases ps s p ≡ t
unfolding try_phases
try_phases-Takes s p t (here e) = rw e refl
try_phases-Takes s p t (later e h) = rw e (try_phases-Takes s p t h)

numbered :
    (n : ℕ) (ds : Directives) (c : Context)
    → record (reading n ds c) { line_num = (reading n ds c).line_num + 1 } ≡ reading (n + 1) ds c
unfolding reading
numbered n ds outside = refl
numbered n ds (inside m ms top) = refl

-- A line that is no comment is numbered, and does what its phases do.
read_line-step :
    (n : ℕ) (ds : Directives) (c : Context) (l : Bytes)
    → IsTrimmed l
    → (peek l == b'#') ≡ false
    → read_line (reading n ds c) l ≡ step (reading (n + 1) ds c) l
unfolding read_line
read_line-step n ds c l h e = rw (h.0, h.1, h.2, e) (ap (λ (s : State). step s l) (numbered n ds c))

add_directive-reading :
    (n : ℕ) (ds : Directives) (c : Context) (d : Directive)
    → same_type (kind d) Kind.rewrite_cond ≡ false
    → add_directive d (reading n ds c) ≡ reading n (append_directive ds d) c
unfolding add_directive add_leaf leaf_place put attach reading
add_directive-reading n ds outside (directive t l a v e p) h =
    elim (Bool-cases (same_type t Kind.rewrite_rule)) [
      | inl r ↦ rw (h, r) refl
      | inr r ↦ rw (h, r) refl
    ]
add_directive-reading n ds (inside m ms top) (directive t l a v e p) h =
    elim (Bool-cases (same_type t Kind.rewrite_rule)) [
      | inl r ↦ rw (h, r) refl
      | inr r ↦ rw (h, r) refl
    ]

line_num-reading : (n : ℕ) (ds : Directives) (c : Context) → (reading n ds c).line_num ≡ n
unfolding reading
line_num-reading n ds outside = refl
line_num-reading n ds (inside m ms top) = refl

read_directive-some :
    (s : State) (p : Bytes) (d : Directive)
    → parse_line p s.line_num ≡ some d
    → read_directive s p ≡ add_directive d s
unfolding read_directive
read_directive-some s p d e = rw (read_directive, e) refl

-- The line of a directive adds it to the innermost block.
pub read_line-leaf :
    (n : ℕ) (ds : Directives) (c : Context) (l : Bytes) (d : Directive)
    → IsLeafLine l
    → parse_line l (n + 1) ≡ some d
    → same_type (kind d) Kind.rewrite_cond ≡ false
    → read_line (reading n ds c) l ≡ reading (n + 1) (append_directive ds d) c
read_line-leaf n ds c l d leaf e h =
    read_line-step n ds c l leaf.0 leaf.2
    ∙ step-leaf (n + 1) ds c l leaf
    ∙ read_directive-some (reading (n + 1) ds c) l d (rw (line_num-reading (n + 1) ds c) e)
    ∙ add_directive-reading (n + 1) ds c d h

push_ifmodule-reading :
    (name : Bytes) (neg : Bool) (n : ℕ) (ds : Directives) (c : Context)
    → depth c < 16
    → push_ifmodule (name, neg) (reading n ds c) ≡ reading n nil (enter name neg n ds c)
unfolding push_ifmodule depth reading enter
push_ifmodule-reading name neg n ds outside h = refl
push_ifmodule-reading name neg n ds (inside m ms top) h =
    let shallow : leb 16 (suc (length ms)) ≡ false = ground arith in rw shallow refl

close_ifmodule-none :
    (s : State) (l : Bytes) → is_ifmodule_close l ≡ false → close_ifmodule s l ≡ none
unfolding close_ifmodule
close_ifmodule-none s l e = rw e refl

open_ifmodule-some :
    (s : State) (l : Bytes) (tag : Bytes × Bool)
    → is_ifmodule_open l ≡ some tag
    → open_ifmodule s l ≡ some (push_ifmodule tag s)
unfolding open_ifmodule
open_ifmodule-some s l tag e = rw (open_ifmodule, e) refl

module _ (n : ℕ) (ds : Directives) (c : Context) (l name : Bytes) (neg : Bool)
    (close : is_ifmodule_close l ≡ false) (tag : is_ifmodule_open l ≡ some (name, neg))
    (h : depth c < 16) where
  open-Takes : Takes (reading n ds c) l (reading n nil (enter name neg n ds c)) phases
  unfolding phases
  open-Takes = later (skip_block-none n ds c l) (
      later (close_ifmodule-none (reading n ds c) l close) (
        here (
          open_ifmodule-some (reading n ds c) l (name, neg) tag
          ∙ ap some (push_ifmodule-reading name neg n ds c h))))

-- An open tag opens a block, where 16 blocks are not open already.
pub read_line-open :
    (n : ℕ) (ds : Directives) (c : Context) (l name : Bytes) (neg : Bool)
    → IsTrimmed l
    → (peek l == b'#') ≡ false
    → is_ifmodule_close l ≡ false
    → is_ifmodule_open l ≡ some (name, neg)
    → depth c < 16
    → read_line (reading n ds c) l ≡ reading (n + 1) nil (enter name neg (n + 1) ds c)
unfolding step
read_line-open n ds c l name neg trim e close tag h =
    read_line-step n ds c l trim e
    ∙ try_phases-Takes (reading (n + 1) ds c) l (reading (n + 1) nil (enter name neg (n + 1) ds c))
        (open-Takes (n + 1) ds c l name neg close tag h)

-- A close tag puts the block behind what stood before it.
pub read_line-close :
    (name : Bytes) (neg : Bool) (k n : ℕ) (ds ch : Directives) (c : Context)
    → read_line (reading n ch (enter name neg k ds c)) (codes "</IfModule>")
      ≡ reading
          (n + 1)
          (append_directive ds (directive Kind.ifmodule k (some name) none none (ifmodule neg ch)))
          c
unfolding read_line step phases try_phases reading enter skip_block close_ifmodule is_ifmodule_close
    pop_ifmodule drop_inner put_first first_open put trim_end skip_ws
read_line-close name neg k n ds ch outside = refl
read_line-close name neg k n ds ch (inside m ms top) = refl
