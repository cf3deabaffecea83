-- ===== src/Dirwalk/Merge.antt =====
-- Merging of the levels of the directory tree: the child overrides the parent.
use litehttpd.Prelude.{
  ℕ, suc, ◌≤◌, true, false, ==_iff, if◌then◌else◌, ◌≡◌, refl, sym, ◌∙◌, arith, Bool-cases, ◌⊎◌, inl,
  inr,
}
use litehttpd.Directive.{Directive, Directives, nil, cons, append, kind}
use litehttpd.Directive.Kind.{DirectiveType}
use litehttpd.Directive.Code.{same_type, same_type-eq}
use litehttpd.Dirwalk.{
  singleton, override_key, directives_match_for_override, merge_one, merge_all, merge_directives,
}
use litehttpd.Dirwalk.Copy.{copy_directive_lem, copy_directive_list_lem}

-- The directive stands in the list.
abbrev pub Has : Directive → Directives → Type 0
Has d nil = ⊥
Has d (cons x xs) = (d ≡ x) ⊎ Has d xs

-- No directive of the list overrides this one.
abbrev pub Free : Directive → Directives → Type 0
Free d nil = Unit
Free d (cons c cs) = (directives_match_for_override d c ≡ false) × Free d cs

merge_one-keeps :
    (ps : Directives) (p c : Directive)
    → Has p ps
    → directives_match_for_override p c ≡ false
    → Has p (merge_one ps c)
unfolding merge_one
merge_one-keeps nil p c h free = absurd h
merge_one-keeps (cons x ps) p c (inl e) free =
    let free' : directives_match_for_override x c ≡ false = rw e at free in rw free' (inl e)
merge_one-keeps (cons x ps) p c (inr h) free =
    elim (Bool-cases (directives_match_for_override x c)) [
      | inl match ↦ rw match (inr h)
      | inr other ↦ rw other (inr (merge_one-keeps ps p c h free))
    ]

merge_one-adds : (ps : Directives) (c : Directive) → Has c (merge_one ps c)
unfolding merge_one
merge_one-adds nil c = inl (sym (copy_directive_lem c))
merge_one-adds (cons x ps) c = elim (Bool-cases (directives_match_for_override x c)) [
  | inl match ↦ rw match (inl (sym (copy_directive_lem c)))
  | inr other ↦ rw other (inr (merge_one-adds ps c))
]

merge_all-keeps :
    (cs ps : Directives) (p : Directive) → Has p ps → Free p cs → Has p (merge_all ps cs)
unfolding merge_all
merge_all-keeps nil ps p h free = h
merge_all-keeps (cons c cs) ps p h free =
    merge_all-keeps cs (merge_one ps c) p (merge_one-keeps ps p c h free.0) free.1

merge_all-adds :
    (before after ps : Directives) (c : Directive)
    → Free c after
    → Has c (merge_all ps (append before (cons c after)))
unfolding merge_all append
merge_all-adds nil after ps c free =
    merge_all-keeps after (merge_one ps c) c (merge_one-adds ps c) free
merge_all-adds (cons b before) after ps c free = merge_all-adds before after (merge_one ps b) c free

-- A directive of the parent that no directive of the child overrides is inherited.
pub merge_directives-keeps :
    (parent child : Directives) (p : Directive)
    → Has p parent
    → Free p child
    → Has p (merge_directives parent child)
unfolding merge_directives
merge_directives-keeps parent nil p h free = h
merge_directives-keeps nil (cons c cs) p h free = absurd h
merge_directives-keeps (cons x ps) (cons c cs) p h free =
    merge_all-keeps (cons c cs) (cons x ps) p h free

Has-append : (before after : Directives) (c : Directive) → Has c (append before (cons c after))
unfolding append
Has-append nil after c = inl refl
Has-append (cons b before) after c = inr (Has-append before after c)

merge_root : (child : Directives) → merge_directives nil child ≡ child
unfolding merge_directives
merge_root nil = refl
merge_root (cons c cs) = copy_directive_list_lem (cons c cs)

merge_below :
    (p : Directive) (ps child : Directives)
    → merge_directives (cons p ps) child ≡ merge_all (cons p ps) child
unfolding merge_directives
merge_below p ps nil = refl
merge_below p ps (cons c cs) = refl

-- A directive of the child that no later one of the child overrides is in force.
pub merge_directives-adds :
    (parent before after : Directives) (c : Directive)
    → Free c after
    → Has c (merge_directives parent (append before (cons c after)))
merge_directives-adds nil before after c free =
    rw (merge_root (append before (cons c after))) (Has-append before after c)
merge_directives-adds (cons p ps) before after c free =
    rw (merge_below p ps (append before (cons c after)))
      (merge_all-adds before after (cons p ps) c free)

-- How many directives of the list have the type.
abbrev pub count : DirectiveType → Directives → ℕ
count t nil = 0
count t (cons d ds) = if same_type (kind d) t then suc (count t ds) else count t ds

same_kind :
    (p c : Directive)
    → override_key (kind c) ≡ singleton
    → directives_match_for_override p c ≡ same_type (kind p) (kind c)
unfolding directives_match_for_override
same_kind p c h = elim (Bool-cases (same_type (kind p) (kind c))) [
  | inl e ↦ rw e (rw (same_type-eq (kind p) (kind c) e, h) refl)
  | inr e ↦ rw e refl
]

same_type_refl : (t : DirectiveType) → same_type t t ≡ true
same_type_refl t = (==_iff _ _).1 refl

match_kind : (p c : Directive) → directives_match_for_override p c ≡ true → kind p ≡ kind c
unfolding directives_match_for_override
match_kind p c h = elim (Bool-cases (same_type (kind p) (kind c))) [
  | inl e ↦ same_type-eq (kind p) (kind c) e
  | inr e ↦ cc (rw e at h)
]

count-cons :
    (t : DirectiveType) (p c : Directive) (ps : Directives)
    → kind p ≡ kind c
    → count t (cons p ps) ≡ count t (cons c ps)
count-cons t p c ps e = rw e

count_other :
    (t : DirectiveType) (ps : Directives) (c : Directive)
    → same_type (kind c) t ≡ false
    → count t (merge_one ps c) ≡ count t ps
unfolding merge_one
count_other t nil c h = rw (copy_directive_lem c) (rw h refl)
count_other t (cons p ps) c h = elim (Bool-cases (directives_match_for_override p c)) [
  | inl m ↦ rw (m, copy_directive_lem c) (sym (count-cons t p c ps (match_kind p c m)))
  | inr m ↦ rw (m, count_other t ps c h) refl
]

count-merge_one :
    (t : DirectiveType) (ps : Directives) (c : Directive)
    → override_key t ≡ singleton
    → same_type (kind c) t ≡ true
    → count t ps ≤ 1
    → count t (merge_one ps c) ≤ 1
unfolding merge_one
count-merge_one t nil c s k h = rw (copy_directive_lem c) (ground arith)
count-merge_one t (cons p ps) c s k h = elim (Bool-cases (directives_match_for_override p c)) [
  | inl m ↦ rw (m, copy_directive_lem c) (rw (count-cons t p c ps (match_kind p c m)) at h)
  | inr m ↦
      let e : kind c ≡ t = same_type-eq (kind c) t k in
      let differs : same_type (kind p) t ≡ false = rw (← e) (sym (same_kind p c (rw e s)) ∙ m) in
      rw m (ground (arith, count-merge_one t ps c s k))
]

count-merge_all :
    (t : DirectiveType) (cs ps : Directives)
    → override_key t ≡ singleton
    → count t ps ≤ 1
    → count t (merge_all ps cs) ≤ 1
unfolding merge_all
count-merge_all t nil ps s h = h
count-merge_all t (cons c cs) ps s h = elim (Bool-cases (same_type (kind c) t)) [
  | inl k ↦ count-merge_all t cs (merge_one ps c) s (count-merge_one t ps c s k h)
  | inr k ↦ count-merge_all t cs (merge_one ps c) s (rw (count_other t ps c k) h)
]

-- Of a type that overrides every earlier directive of its type and stands once at most in each of
-- two levels, such as Order or RewriteEngine, one directive at most is left after the merge.
pub count-merge_directives :
    (t : DirectiveType) (parent child : Directives)
    → override_key t ≡ singleton
    → count t parent ≤ 1
    → count t child ≤ 1
    → count t (merge_directives parent child) ≤ 1
count-merge_directives t nil child s h k = rw (merge_root child) k
count-merge_directives t (cons p ps) child s h k =
    rw (merge_below p ps child) (count-merge_all t child (cons p ps) s h)
