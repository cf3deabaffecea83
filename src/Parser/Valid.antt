-- ===== src/Parser/Valid.antt =====
-- The invariant of the variables of htaccess_parse in src/htaccess_parser.c: every directive's
-- fields fit together, the pending conditions are conditions, and the stacks fit their arrays.
use litehttpd.Prelude.{◌≤◌, List, [], ◌∷◌, false, Option, none, some, length, ◌≡◌, refl}
use litehttpd.Directive.{Directive, Directives, nil, cons, kind}
use litehttpd.Directive.Kind.{DirectiveType}
use litehttpd.Directive.Typed.{
  member_of, needs_name, needs_value, limit_member, if_block_member, IsTyped, AreTyped, AreConds,
}
use litehttpd.Parser.State.{
  Block, ModuleBlock, IfBlock, LimitBlock, State, append_directive, add_child?, add_to_limit,
  add_to_ifmod, add_to_if, Place, in_if, in_files_match, in_files, in_any, in_all, in_limit,
  in_ifmodule, at_top, put, put_first, first_open,
}

abbrev pub HoldsTyped : Option Block → Type 0
HoldsTyped none = Unit
HoldsTyped (some b) = AreTyped b.children

abbrev pub IsPlainType : DirectiveType → Type 0
IsPlainType t = (needs_name t ≡ false) × (needs_value t ≡ false)

abbrev pub IsTypedLimit : LimitBlock → Type 0
IsTypedLimit b =
    AreTyped b.block.children × (member_of b.limit_type ≡ limit_member) × IsPlainType b.limit_type

abbrev pub LimitTyped : Option LimitBlock → Type 0
LimitTyped none = Unit
LimitTyped (some b) = IsTypedLimit b

abbrev pub ModulesTyped : List ModuleBlock → Type 0
ModulesTyped [] = Unit
ModulesTyped (m ∷ ms) = AreTyped m.block.children × ModulesTyped ms

abbrev pub IsTypedIf : IfBlock → Type 0
IsTypedIf b =
    AreTyped b.block.children × (member_of b.if_type ≡ if_block_member) × IsPlainType b.if_type

abbrev pub IfsTyped : List IfBlock → Type 0
IfsTyped [] = Unit
IfsTyped (b ∷ bs) = IsTypedIf b × IfsTyped bs

pub record IsValid (s : State) : Type 0 where
  pub top : AreTyped s.top
  pub files_match : HoldsTyped s.files_match
  pub files : HoldsTyped s.files
  pub rqa : HoldsTyped s.rqa
  pub rqall : HoldsTyped s.rqall
  pub limit : LimitTyped s.limit
  pub ifmods : ModulesTyped s.ifmods
  pub ifs : IfsTyped s.ifs
  pub pending : AreConds s.pending_conds
  pub modules_fit : length s.ifmods ≤ 16
  pub ifs_fit : length s.ifs ≤ 16

append-AreTyped :
    (ds : Directives) (d : Directive) → AreTyped ds → IsTyped d → AreTyped (append_directive ds d)
unfolding append_directive AreTyped
append-AreTyped nil d hs h = (h, tt)
append-AreTyped (cons e ds) d hs h = (hs.0, append-AreTyped ds d hs.1 h)

pub append-AreConds :
    (ds : Directives) (d : Directive)
    → AreConds ds
    → kind d ≡ DirectiveType.rewrite_cond
    → IsTyped d
    → AreConds (append_directive ds d)
unfolding append_directive AreConds
append-AreConds nil d hs c h = (c, h, tt)
append-AreConds (cons e ds) d hs c h = (hs.0, hs.1, append-AreConds ds d hs.2 c h)

module _ (d : Directive) (h : IsTyped d) where
  child_typed : (o : Option Block) → HoldsTyped o → HoldsTyped (add_child? d o)
  child_typed none t = tt
  child_typed (some b) t = append-AreTyped b.children d t h

  limit_typed : (o : Option LimitBlock) → LimitTyped o → LimitTyped (add_to_limit d o)
  limit_typed none t = tt
  limit_typed (some b) t = (append-AreTyped b.block.children d t.0 h, t.1, t.2)

  modules_typed : (ms : List ModuleBlock) → ModulesTyped ms → ModulesTyped (add_to_ifmod d ms)
  modules_typed [] t = tt
  modules_typed (m ∷ ms) t = (append-AreTyped m.block.children d t.0 h, t.1)

  ifs_typed : (bs : List IfBlock) → IfsTyped bs → IfsTyped (add_to_if d bs)
  ifs_typed [] t = tt
  ifs_typed (b ∷ bs) t = ((append-AreTyped b.block.children d t.0.0 h, t.0.1, t.0.2), t.1)

length-add_to_ifmod :
    (d : Directive) (ms : List ModuleBlock) → length (add_to_ifmod d ms) ≡ length ms
length-add_to_ifmod d [] = refl
length-add_to_ifmod d (m ∷ ms) = refl

length-add_to_if : (d : Directive) (bs : List IfBlock) → length (add_to_if d bs) ≡ length bs
length-add_to_if d [] = refl
length-add_to_if d (b ∷ bs) = refl

pub put-IsValid :
    (place : Place) (d : Directive) (s : State) → IsTyped d → IsValid s → IsValid (put place d s)
unfolding put
put-IsValid in_if d s h v = record {
  top = v.top;
  files_match = v.files_match;
  files = v.files;
  rqa = v.rqa;
  rqall = v.rqall;
  limit = v.limit;
  ifmods = v.ifmods;
  ifs = ifs_typed d h s.ifs v.ifs;
  pending = v.pending;
  modules_fit = v.modules_fit;
  ifs_fit = rw (length-add_to_if d s.ifs) v.ifs_fit;
}
put-IsValid in_files_match d s h v = record {
  top = v.top;
  files_match = child_typed d h s.files_match v.files_match;
  files = v.files;
  rqa = v.rqa;
  rqall = v.rqall;
  limit = v.limit;
  ifmods = v.ifmods;
  ifs = v.ifs;
  pending = v.pending;
  modules_fit = v.modules_fit;
  ifs_fit = v.ifs_fit;
}
put-IsValid in_files d s h v = record {
  top = v.top;
  files_match = v.files_match;
  files = child_typed d h s.files v.files;
  rqa = v.rqa;
  rqall = v.rqall;
  limit = v.limit;
  ifmods = v.ifmods;
  ifs = v.ifs;
  pending = v.pending;
  modules_fit = v.modules_fit;
  ifs_fit = v.ifs_fit;
}
put-IsValid in_any d s h v = record {
  top = v.top;
  files_match = v.files_match;
  files = v.files;
  rqa = child_typed d h s.rqa v.rqa;
  rqall = v.rqall;
  limit = v.limit;
  ifmods = v.ifmods;
  ifs = v.ifs;
  pending = v.pending;
  modules_fit = v.modules_fit;
  ifs_fit = v.ifs_fit;
}
put-IsValid in_all d s h v = record {
  top = v.top;
  files_match = v.files_match;
  files = v.files;
  rqa = v.rqa;
  rqall = child_typed d h s.rqall v.rqall;
  limit = v.limit;
  ifmods = v.ifmods;
  ifs = v.ifs;
  pending = v.pending;
  modules_fit = v.modules_fit;
  ifs_fit = v.ifs_fit;
}
put-IsValid in_limit d s h v = record {
  top = v.top;
  files_match = v.files_match;
  files = v.files;
  rqa = v.rqa;
  rqall = v.rqall;
  limit = limit_typed d h s.limit v.limit;
  ifmods = v.ifmods;
  ifs = v.ifs;
  pending = v.pending;
  modules_fit = v.modules_fit;
  ifs_fit = v.ifs_fit;
}
put-IsValid in_ifmodule d s h v = record {
  top = v.top;
  files_match = v.files_match;
  files = v.files;
  rqa = v.rqa;
  rqall = v.rqall;
  limit = v.limit;
  ifmods = modules_typed d h s.ifmods v.ifmods;
  ifs = v.ifs;
  pending = v.pending;
  modules_fit = rw (length-add_to_ifmod d s.ifmods) v.modules_fit;
  ifs_fit = v.ifs_fit;
}
put-IsValid at_top d s h v = record {
  top = append-AreTyped s.top d v.top h;
  files_match = v.files_match;
  files = v.files;
  rqa = v.rqa;
  rqall = v.rqall;
  limit = v.limit;
  ifmods = v.ifmods;
  ifs = v.ifs;
  pending = v.pending;
  modules_fit = v.modules_fit;
  ifs_fit = v.ifs_fit;
}

pub put_first-IsValid :
    (chain : List Place) (d : Directive) (s : State)
    → IsTyped d
    → IsValid s
    → IsValid (put_first chain d s)
unfolding put_first
put_first-IsValid chain d s h v = put-IsValid (first_open chain s) d s h v
