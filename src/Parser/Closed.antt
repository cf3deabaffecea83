-- ===== src/Parser/Closed.antt =====
-- The containers that do not nest in themselves keep the invariant of htaccess_parse.
use litehttpd.Prelude.{not, ◌&&◌, Option, none, some, ◌≡◌, refl}
use litehttpd.Prelude.Text.{Bytes}
use litehttpd.Directive.Kind.{DirectiveType, limit_except, require_any_open, require_all_open}
use litehttpd.Directive.Kind
use litehttpd.Directive.Typed.{
  member_of, member, needs_name, needs_value, not-IsThere, limit_member, IsTyped, AreTyped,
  AreConds,
}
use litehttpd.Parser.Tags.{
  is_files_match_open, is_files_match_close, is_files_open, is_files_close, is_require_any_open,
  is_require_any_close, is_require_all_open, is_require_all_close, is_limit_open,
  is_limit_except_open,
}
use litehttpd.Parser.State.{
  Block, LimitBlock, State, is_open, opened, files_chain, any_chain, all_chain, limit_chain,
}
use litehttpd.Parser.Sections.{
  files_match_of, files_of, require_of, limit_of, closes_limit, no_files, no_requires,
  end_files_match, end_files, end_any, end_all, end_limit, begin_limit, close_files_match,
  open_files_match, close_files, open_files, close_any, open_any, close_all, open_all, close_limit,
  open_limit_except, open_limit,
}
use litehttpd.Parser.Valid.{
  HoldsTyped, IsTypedLimit, LimitTyped, IsPlainType, IsValid, put_first-IsValid,
}
use litehttpd.Parser.Kept.{AllValid, if_AllValid}

end_files_match-AllValid :
    (o : Option Block) (s : State) → HoldsTyped o → IsValid s → AllValid (end_files_match o s)
unfolding end_files_match AllValid IsTyped member_of member needs_name needs_value AreConds
end_files_match-AllValid none s h w = tt
end_files_match-AllValid (some b) s h w =
    let v = put_first-IsValid files_chain (files_match_of b) s (refl, tt, tt, h) w in
    record {
      top = v.top;
      files_match = tt;
      files = v.files;
      rqa = v.rqa;
      rqall = v.rqall;
      limit = v.limit;
      ifmods = v.ifmods;
      ifs = v.ifs;
      pending = tt;
      modules_fit = v.modules_fit;
      ifs_fit = v.ifs_fit;
    }

pub close_files_match-AllValid :
    (s : State) (p : Bytes) → IsValid s → AllValid (close_files_match s p)
unfolding close_files_match
close_files_match-AllValid s p v =
    if_AllValid (is_files_match_close p) _
      (end_files_match-AllValid s.files_match s v.files_match v)

end_files-AllValid :
    (o : Option Block) (s : State) → HoldsTyped o → IsValid s → AllValid (end_files o s)
unfolding end_files AllValid IsTyped member_of member needs_name needs_value AreConds
end_files-AllValid none s h w = tt
end_files-AllValid (some b) s h w =
    let v = put_first-IsValid files_chain (files_of b) s (refl, not-IsThere _ _ refl, tt, h) w in
    record {
      top = v.top;
      files_match = v.files_match;
      files = tt;
      rqa = v.rqa;
      rqall = v.rqall;
      limit = v.limit;
      ifmods = v.ifmods;
      ifs = v.ifs;
      pending = tt;
      modules_fit = v.modules_fit;
      ifs_fit = v.ifs_fit;
    }

pub close_files-AllValid : (s : State) (p : Bytes) → IsValid s → AllValid (close_files s p)
unfolding close_files
close_files-AllValid s p v =
    if_AllValid (is_files_close p) _ (end_files-AllValid s.files s v.files v)

end_any-AllValid :
    (o : Option Block) (s : State) → HoldsTyped o → IsValid s → AllValid (end_any o s)
unfolding end_any AllValid IsTyped member_of member needs_name needs_value AreConds
end_any-AllValid none s h w = tt
end_any-AllValid (some b) s h w =
    let v = put_first-IsValid any_chain (require_of require_any_open b) s (refl, tt, tt, h) w in
    record {
      top = v.top;
      files_match = v.files_match;
      files = v.files;
      rqa = tt;
      rqall = v.rqall;
      limit = v.limit;
      ifmods = v.ifmods;
      ifs = v.ifs;
      pending = tt;
      modules_fit = v.modules_fit;
      ifs_fit = v.ifs_fit;
    }

pub close_any-AllValid : (s : State) (p : Bytes) → IsValid s → AllValid (close_any s p)
unfolding close_any
close_any-AllValid s p v = if_AllValid (is_require_any_close p) _ (end_any-AllValid s.rqa s v.rqa v)

end_all-AllValid :
    (o : Option Block) (s : State) → HoldsTyped o → IsValid s → AllValid (end_all o s)
unfolding end_all AllValid IsTyped member_of member needs_name needs_value AreConds
end_all-AllValid none s h w = tt
end_all-AllValid (some b) s h w =
    let v = put_first-IsValid all_chain (require_of require_all_open b) s (refl, tt, tt, h) w in
    record {
      top = v.top;
      files_match = v.files_match;
      files = v.files;
      rqa = v.rqa;
      rqall = tt;
      limit = v.limit;
      ifmods = v.ifmods;
      ifs = v.ifs;
      pending = tt;
      modules_fit = v.modules_fit;
      ifs_fit = v.ifs_fit;
    }

pub close_all-AllValid : (s : State) (p : Bytes) → IsValid s → AllValid (close_all s p)
unfolding close_all
close_all-AllValid s p v =
    if_AllValid (is_require_all_close p) _ (end_all-AllValid s.rqall s v.rqall v)

pub open_files_match-AllValid :
    (s : State) (p : Bytes) → IsValid s → AllValid (open_files_match s p)
unfolding open_files_match AllValid AreTyped
open_files_match-AllValid s p v =
    if_AllValid (no_files s) _
      (elim (is_files_match_open p)
        as (λ o. AllValid (elim o [
          | none ↦ none
          | some text ↦ some (record s { files_match = some (opened (some text) s.line_num) })
        ])) [
          | none ↦ tt
          | some text ↦ record {
            top = v.top;
            files_match = tt;
            files = v.files;
            rqa = v.rqa;
            rqall = v.rqall;
            limit = v.limit;
            ifmods = v.ifmods;
            ifs = v.ifs;
            pending = v.pending;
            modules_fit = v.modules_fit;
            ifs_fit = v.ifs_fit;
          }
        ])

pub open_files-AllValid : (s : State) (p : Bytes) → IsValid s → AllValid (open_files s p)
unfolding open_files AllValid AreTyped
open_files-AllValid s p v =
    if_AllValid (no_files s) _
      (elim (is_files_open p)
        as (λ o. AllValid (elim o [
          | none ↦ none
          | some text ↦ some (record s { files = some (opened (some text) s.line_num) })
        ])) [
          | none ↦ tt
          | some text ↦ record {
            top = v.top;
            files_match = v.files_match;
            files = tt;
            rqa = v.rqa;
            rqall = v.rqall;
            limit = v.limit;
            ifmods = v.ifmods;
            ifs = v.ifs;
            pending = v.pending;
            modules_fit = v.modules_fit;
            ifs_fit = v.ifs_fit;
          }
        ])

pub open_any-AllValid : (s : State) (p : Bytes) → IsValid s → AllValid (open_any s p)
unfolding open_any AllValid AreTyped
open_any-AllValid s p v = if_AllValid (not (is_open s.rqa) && is_require_any_open p) _ (record {
  top = v.top;
  files_match = v.files_match;
  files = v.files;
  rqa = tt;
  rqall = v.rqall;
  limit = v.limit;
  ifmods = v.ifmods;
  ifs = v.ifs;
  pending = v.pending;
  modules_fit = v.modules_fit;
  ifs_fit = v.ifs_fit;
})

pub open_all-AllValid : (s : State) (p : Bytes) → IsValid s → AllValid (open_all s p)
unfolding open_all AllValid AreTyped
open_all-AllValid s p v = if_AllValid (not (is_open s.rqall) && is_require_all_open p) _ (record {
  top = v.top;
  files_match = v.files_match;
  files = v.files;
  rqa = v.rqa;
  rqall = tt;
  limit = v.limit;
  ifmods = v.ifmods;
  ifs = v.ifs;
  pending = v.pending;
  modules_fit = v.modules_fit;
  ifs_fit = v.ifs_fit;
})

limit_of-IsTyped : (b : LimitBlock) → IsTypedLimit b → IsTyped (limit_of b)
unfolding IsTyped member
limit_of-IsTyped b h = (h.1, not-IsThere _ none h.2.0, not-IsThere _ none h.2.1, h.0)

end_limit-AllValid :
    (o : Option LimitBlock) (s : State) (p : Bytes)
    → LimitTyped o
    → IsValid s
    → AllValid (end_limit o s p)
unfolding end_limit AllValid AreConds
end_limit-AllValid none s p h w = tt
end_limit-AllValid (some b) s p h w =
    let v = put_first-IsValid limit_chain (limit_of b) s (limit_of-IsTyped b h) w in
    if_AllValid (closes_limit b.limit_type p) _ (record {
      top = v.top;
      files_match = v.files_match;
      files = v.files;
      rqa = v.rqa;
      rqall = v.rqall;
      limit = tt;
      ifmods = v.ifmods;
      ifs = v.ifs;
      pending = tt;
      modules_fit = v.modules_fit;
      ifs_fit = v.ifs_fit;
    })

pub close_limit-AllValid : (s : State) (p : Bytes) → IsValid s → AllValid (close_limit s p)
unfolding close_limit
close_limit-AllValid s p v =
    if_AllValid (no_requires s) _ (end_limit-AllValid s.limit s p v.limit v)

begin_limit-AllValid :
    (t : DirectiveType) (o : Option Bytes) (s : State)
    → member_of t ≡ limit_member
    → IsPlainType t
    → IsValid s
    → AllValid (begin_limit t o s)
unfolding begin_limit AllValid AreTyped
begin_limit-AllValid t none s m plain v = tt
begin_limit-AllValid t (some methods) s m plain v = record {
  top = v.top;
  files_match = v.files_match;
  files = v.files;
  rqa = v.rqa;
  rqall = v.rqall;
  limit = (tt, m, plain);
  ifmods = v.ifmods;
  ifs = v.ifs;
  pending = v.pending;
  modules_fit = v.modules_fit;
  ifs_fit = v.ifs_fit;
}

pub open_limit_except-AllValid :
    (s : State) (p : Bytes) → IsValid s → AllValid (open_limit_except s p)
unfolding open_limit_except member_of needs_name needs_value
open_limit_except-AllValid s p v =
    if_AllValid (not (is_open s.limit) && no_requires s) _
      (begin_limit-AllValid limit_except (is_limit_except_open p) s refl (refl, refl) v)

pub open_limit-AllValid : (s : State) (p : Bytes) → IsValid s → AllValid (open_limit s p)
unfolding open_limit member_of needs_name needs_value
open_limit-AllValid s p v =
    if_AllValid (not (is_open s.limit) && no_requires s) _
      (begin_limit-AllValid Kind.limit (is_limit_open p) s refl (refl, refl) v)
