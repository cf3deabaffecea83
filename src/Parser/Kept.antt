-- ===== src/Parser/Kept.antt =====
-- Every line that is the tag of a container keeps the invariant of htaccess_parse.
use litehttpd.Prelude.{
  not, ltb, ℕ, zero, suc, ◌+◌, ◌-◌, ◌≤◌, List, [], ◌∷◌, Bool, true, false, Option, none, some,
  length, drop, length-drop, leb, if◌then◌else◌, ◌≡◌, refl, arith, Bool-cases, inl, inr,
}
use litehttpd.Prelude.Text.{Bytes}
use litehttpd.Directive.{nil}
use litehttpd.Directive.Kind.{DirectiveType, if_open, elseif_open, else_open}
use litehttpd.Directive.Typed.{
  member_of, member, needs_name, needs_value, not-IsThere, if_block_member, IsTyped, AreTyped,
  AreConds,
}
use litehttpd.Parser.State.{
  first_open, Block, Snapshot, ModuleBlock, IfBlock, LimitBlock, State, module_chain,
}
use litehttpd.Parser.Tags.{
  is_ifmodule_open, is_ifmodule_close, is_if_open, is_elseif_open, is_else_open,
}
use litehttpd.Parser.Blocks.{
  ends_in_if, siblings, opens_conditional, closes_conditional, is_mismatch, kept, drop_inner,
  module_of, pop_ifmodule, push_ifmodule, if_of, push_if, push_else, pop_if, skip_block,
  close_ifmodule, open_ifmodule, close_if, open_if, open_elseif, open_else,
}
use litehttpd.Parser.Valid.{
  IsPlainType, HoldsTyped, LimitTyped, ModulesTyped, IsTypedIf, IfsTyped, IsValid,
  put_first-IsValid,
}

-- What a phase leaves, if it takes the line.
unfoldable pub AllValid : Option State → Type 0
AllValid none = Unit
AllValid (some s) = IsValid s

some-AllValid : {s : State} → IsValid s → AllValid (some s)
unfolding AllValid
some-AllValid v = v

pub if_AllValid : (b : Bool) (o : Option State) → AllValid o → AllValid (if b then o else none)
unfolding AllValid
if_AllValid true o v = v
if_AllValid false o v = tt

pub if_IsValid : (b : Bool) (s t : State) → IsValid s → IsValid t → IsValid (if b then s else t)
if_IsValid true s t v w = v
if_IsValid false s t v w = w

kept-HoldsTyped : (b : Bool) (o : Option Block) → HoldsTyped o → HoldsTyped (kept b o)
kept-HoldsTyped true o h = h
kept-HoldsTyped false o h = tt

kept-LimitTyped : (b : Bool) (o : Option LimitBlock) → LimitTyped o → LimitTyped (kept b o)
kept-LimitTyped true o h = h
kept-LimitTyped false o h = tt

drop-IfsTyped : (n : ℕ) (bs : List IfBlock) → IfsTyped bs → IfsTyped (drop n bs)
drop-IfsTyped zero bs h = h
drop-IfsTyped (suc n) [] h = tt
drop-IfsTyped (suc n) (b ∷ bs) h = drop-IfsTyped n bs h.1

drop_inner-IsValid :
    (m : Snapshot) (s : State) (ms : List ModuleBlock)
    → ModulesTyped ms
    → length ms ≤ 16
    → IsValid s
    → IsValid (record (drop_inner m s) { ifmods = ms })
unfolding drop_inner AreTyped
drop_inner-IsValid m s ms h le v = record {
  top = v.top;
  files_match = kept-HoldsTyped m.in_files_match s.files_match v.files_match;
  files = kept-HoldsTyped m.in_files s.files v.files;
  rqa = kept-HoldsTyped m.in_require_any s.rqa v.rqa;
  rqall = kept-HoldsTyped m.in_require_all s.rqall v.rqall;
  limit = kept-LimitTyped m.in_limit s.limit v.limit;
  ifmods = h;
  ifs = drop-IfsTyped (length s.ifs - m.if_depth) s.ifs v.ifs;
  pending = tt;
  modules_fit = le;
  ifs_fit = let fit = v.ifs_fit in omega (arith, length-drop (length s.ifs - m.if_depth) s.ifs);
}

pop_ifmodule-AllValid :
    (ms : List ModuleBlock) (s : State)
    → ModulesTyped ms
    → length ms ≤ 16
    → IsValid s
    → AllValid (pop_ifmodule ms s)
unfolding pop_ifmodule AllValid IsTyped member_of member needs_name needs_value
pop_ifmodule-AllValid [] s h le v = tt
pop_ifmodule-AllValid (m ∷ ms) s h le v =
    put_first-IsValid module_chain (module_of m) _ (refl, not-IsThere _ _ refl, tt, h.0)
      (drop_inner-IsValid m.saved s ms h.1 (omega arith) v)

pub close_ifmodule-AllValid : (s : State) (p : Bytes) → IsValid s → AllValid (close_ifmodule s p)
unfolding close_ifmodule
close_ifmodule-AllValid s p v =
    if_AllValid (is_ifmodule_close p) _ (pop_ifmodule-AllValid s.ifmods s v.ifmods v.modules_fit v)

push_ifmodule-IsValid : (tag : Bytes × Bool) (s : State) → IsValid s → IsValid (push_ifmodule tag s)
unfolding push_ifmodule AreTyped
push_ifmodule-IsValid tag s v = elim (Bool-cases (leb 16 (length s.ifmods))) [
  | inl e ↦ rw e v
  | inr e ↦ rw e (record {
    top = v.top;
    files_match = v.files_match;
    files = v.files;
    rqa = v.rqa;
    rqall = v.rqall;
    limit = v.limit;
    ifmods = (tt, v.ifmods);
    ifs = v.ifs;
    pending = v.pending;
    modules_fit = ground arith;
    ifs_fit = v.ifs_fit;
  })
]

pub open_ifmodule-AllValid : (s : State) (p : Bytes) → IsValid s → AllValid (open_ifmodule s p)
unfolding open_ifmodule AllValid
open_ifmodule-AllValid s p v =
    elim (is_ifmodule_open p)
      as (λ o. AllValid (elim o [ none ↦ none | some tag ↦ some (push_ifmodule tag s) ])) [
        | none ↦ tt
        | some tag ↦ push_ifmodule-IsValid tag s v
      ]

-- The counter of skipped blocks is free.
skipped-IsValid : (s : State) (n : ℕ) → IsValid s → IsValid (record s { skip_if_depth = n })
skipped-IsValid s n v = record {
  top = v.top;
  files_match = v.files_match;
  files = v.files;
  rqa = v.rqa;
  rqall = v.rqall;
  limit = v.limit;
  ifmods = v.ifmods;
  ifs = v.ifs;
  pending = v.pending;
  modules_fit = v.modules_fit;
  ifs_fit = v.ifs_fit;
}

pub skip_block-AllValid : (s : State) (p : Bytes) → IsValid s → AllValid (skip_block s p)
unfolding skip_block
skip_block-AllValid s p v = if_AllValid (ltb 0 s.skip_if_depth) _ (
    some-AllValid (
      if_IsValid (opens_conditional p) _ _ (skipped-IsValid s (s.skip_if_depth + 1) v)
        (if_IsValid (closes_conditional p) _ _ (skipped-IsValid s (s.skip_if_depth - 1) v) v)))

with_ifs-IsValid :
    (s : State) (bs : List IfBlock)
    → IfsTyped bs
    → length bs ≤ 16
    → IsValid s
    → IsValid (record s { ifs = bs })
with_ifs-IsValid s bs h le v = record {
  top = v.top;
  files_match = v.files_match;
  files = v.files;
  rqa = v.rqa;
  rqall = v.rqall;
  limit = v.limit;
  ifmods = v.ifmods;
  ifs = h;
  pending = v.pending;
  modules_fit = v.modules_fit;
  ifs_fit = le;
}

pub no_conds-IsValid : (s : State) → IsValid s → IsValid (record s { pending_conds = nil })
unfolding AreConds
no_conds-IsValid s v = record {
  top = v.top;
  files_match = v.files_match;
  files = v.files;
  rqa = v.rqa;
  rqall = v.rqall;
  limit = v.limit;
  ifmods = v.ifmods;
  ifs = v.ifs;
  pending = tt;
  modules_fit = v.modules_fit;
  ifs_fit = v.ifs_fit;
}

if_of-IsTyped : (b : IfBlock) → IsTypedIf b → IsTyped (if_of b)
unfolding if_of IsTyped member
if_of-IsTyped b h = (h.1, not-IsThere _ none h.2.0, not-IsThere _ none h.2.1, h.0)

pop_if-AllValid :
    (bs : List IfBlock) (s : State) (p : Bytes)
    → IfsTyped bs
    → length bs ≤ 16
    → IsValid s
    → AllValid (pop_if bs s p)
unfolding pop_if AllValid
pop_if-AllValid [] s p h le v = tt
pop_if-AllValid (b ∷ bs) s p h le v =
    let popped = with_ifs-IsValid s bs h.1 (omega arith) v in
    if_IsValid (is_mismatch b.if_type p) _ _ popped
      (no_conds-IsValid _ (put_first-IsValid module_chain (if_of b) _ (if_of-IsTyped b h.0) popped))

pub close_if-AllValid : (s : State) (p : Bytes) → IsValid s → AllValid (close_if s p)
unfolding close_if
close_if-AllValid s p v =
    if_AllValid (closes_conditional p) _ (pop_if-AllValid s.ifs s p v.ifs v.ifs_fit v)

push_if-IsValid :
    (t : DirectiveType) (text : Option Bytes) (s : State)
    → member_of t ≡ if_block_member
    → IsPlainType t
    → IsValid s
    → IsValid (push_if t text s)
unfolding push_if AreTyped
push_if-IsValid t text s m plain v = elim (Bool-cases (leb 16 (length s.ifs))) [
  | inl e ↦ rw e v
  | inr e ↦ rw e (with_ifs-IsValid s _ ((tt, m, plain), v.ifs) (ground arith) v)
]

push_else-IsValid :
    (t : DirectiveType) (text : Option Bytes) (s : State)
    → member_of t ≡ if_block_member
    → IsPlainType t
    → IsValid s
    → IsValid (push_else t text s)
unfolding push_else
push_else-IsValid t text s m plain v =
    if_IsValid (not (ends_in_if (siblings (first_open module_chain s) s))) _ _
      (skipped-IsValid s (s.skip_if_depth + 1) v) (push_if-IsValid t text s m plain v)

pub open_if-AllValid : (s : State) (p : Bytes) → IsValid s → AllValid (open_if s p)
unfolding open_if AllValid member_of needs_name needs_value
open_if-AllValid s p v =
    elim (is_if_open p)
      as (λ o.
        AllValid (elim o [ none ↦ none | some text ↦ some (push_if if_open (some text) s) ])) [
          | none ↦ tt
          | some text ↦ push_if-IsValid if_open (some text) s refl (refl, refl) v
        ]

pub open_elseif-AllValid : (s : State) (p : Bytes) → IsValid s → AllValid (open_elseif s p)
unfolding open_elseif AllValid member_of needs_name needs_value
open_elseif-AllValid s p v =
    elim (is_elseif_open p)
      as (λ o.
        AllValid
          (elim o [ none ↦ none | some text ↦ some (push_else elseif_open (some text) s) ])) [
            | none ↦ tt
            | some text ↦ push_else-IsValid elseif_open (some text) s refl (refl, refl) v
          ]

pub open_else-AllValid : (s : State) (p : Bytes) → IsValid s → AllValid (open_else s p)
unfolding open_else member_of needs_name needs_value
open_else-AllValid s p v =
    if_AllValid (is_else_open p) _
      (some-AllValid (push_else-IsValid else_open none s refl (refl, refl) v))
