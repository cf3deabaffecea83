-- ===== src/Dirwalk/Filter.antt =====
-- The AllowOverride filter.
use litehttpd.Prelude.{
  ℕ, Option, Bool, true, false, not, ◌&&◌, ◌≡◌, refl, arith, Bool-cases, inl, inr,
}
use litehttpd.Prelude.Text.{Bytes}
use litehttpd.Directive.{
  Directive, directive, Payload, files_match, ifmodule, files, require_container, limit,
  rewrite_rule, if_block, Directives, nil, cons, payload,
}
use litehttpd.Directive.Kind.{DirectiveType}
use litehttpd.Dirwalk.{
  is_permitted, keep_filtered, filter_by_allow_override, filter_children, filter_payload,
}

abbrev is_nil : Directives → Bool
is_nil nil = true
is_nil (cons d ds) = false

-- Every directive is permitted, at every depth, and no container of Require directives is empty.
unfoldable mutual
  pub all_permitted : ℕ → Directives → Bool
  all_permitted allow nil = true
  all_permitted allow (cons d ds) = permitted_one allow d && all_permitted allow ds

  permitted_one : ℕ → Directive → Bool
  permitted_one allow (directive t l n v e p) = is_permitted allow t && permitted_payload allow p

  permitted_payload : ℕ → Payload → Bool
  permitted_payload allow (files_match p ch) = all_permitted allow ch
  permitted_payload allow (files ch) = all_permitted allow ch
  permitted_payload allow (ifmodule n ch) = all_permitted allow ch
  permitted_payload allow (require_container ch) = not (is_nil ch) && all_permitted allow ch
  permitted_payload allow (limit m ch) = all_permitted allow ch
  permitted_payload allow (rewrite_rule p f cs) = all_permitted allow cs
  permitted_payload allow (if_block c ch) = all_permitted allow ch
  permitted_payload allow p = true

-- A payload that is left empty is dropped with its directive, or permitted.
abbrev emptied : Payload → Bool
emptied (require_container nil) = true
emptied _ = false

-- One directive that is kept, on top of a list that is permitted.
kept-permitted :
    (allow : ℕ) (t : DirectiveType) (l : ℕ) (n v e : Option Bytes) (p : Payload) (rest : Directives)
    → is_permitted allow t ≡ true
    → (emptied p ≡ false → permitted_payload allow p ≡ true)
    → all_permitted allow rest ≡ true
    → all_permitted allow (keep_filtered (directive t l n v e p) rest) ≡ true
unfolding all_permitted permitted_one permitted_payload
kept-permitted allow t l n v e (require_container nil) rest ht hp hr = hr
kept-permitted allow t l n v e (require_container (cons d ds)) rest ht hp hr = rw (ht, hp refl, hr)
kept-permitted allow t l n v e p rest ht hp hr = rw (ht, hp refl, hr)

container :
    (allow : ℕ) (ch : Directives)
    → emptied (require_container ch) ≡ false
    → all_permitted allow ch ≡ true
    → not (is_nil ch) && all_permitted allow ch ≡ true
container allow nil h k = cc
container allow (cons d ds) h k = k

kept_all :
    (d : Directive) (ds : Directives) → emptied (payload d) ≡ false → keep_filtered d ds ≡ cons d ds
kept_all (directive t l n v e (require_container nil)) ds h = cc
kept_all (directive t l n v e (require_container (cons c cs))) ds h = refl
kept_all (directive t l n v e p) ds h = refl

no_directives : (allow : ℕ) → all_permitted allow nil ≡ true
unfolding all_permitted
no_directives allow = refl

mutual
  unfolding filter_by_allow_override filter_children filter_payload permitted_payload

  filter_list-permitted :
      (allow : ℕ) (ds : Directives) → all_permitted allow (filter_by_allow_override allow ds) ≡ true
  filter_list-permitted allow nil = no_directives allow
  filter_list-permitted allow (cons (directive t l n v e p) ds) =
      let rest = filter_list-permitted allow ds in
      let part = filter_payload-permitted allow p in
      elim (Bool-cases (is_permitted allow t)) [
        | inl ok ↦ rw ok (kept-permitted allow t l n v e (filter_payload allow p) _ ok part rest)
        | inr blocked ↦ rw blocked rest
      ]

  filter_payload-permitted :
      (allow : ℕ) (p : Payload)
      → emptied (filter_payload allow p) ≡ false
      → permitted_payload allow (filter_payload allow p) ≡ true
  filter_payload-permitted allow (files_match p ch) h = filter_list-permitted allow ch
  filter_payload-permitted allow (files ch) h = filter_list-permitted allow ch
  filter_payload-permitted allow (ifmodule n ch) h = filter_list-permitted allow ch
  filter_payload-permitted allow (require_container ch) h =
      container allow (filter_by_allow_override allow ch) h (filter_list-permitted allow ch)
  filter_payload-permitted allow (limit m ch) h = filter_list-permitted allow ch
  filter_payload-permitted allow (rewrite_rule p f cs) h = filter_list-permitted allow cs
  filter_payload-permitted allow (if_block c ch) h = filter_list-permitted allow ch
  filter_payload-permitted allow p h = refl

-- What the filter lets through is permitted, at every depth, with no empty Require container left.
pub filter-permitted :
    (allow : ℕ) (ds : Directives) → all_permitted allow (filter_by_allow_override allow ds) ≡ true
filter-permitted = filter_list-permitted

mutual
  unfolding filter_by_allow_override filter_children filter_payload all_permitted permitted_one
      permitted_payload

  filter_list-eq :
      (allow : ℕ) (ds : Directives)
      → all_permitted allow ds ≡ true
      → filter_by_allow_override allow ds ≡ ds
  filter_list-eq allow nil h = refl
  filter_list-eq allow (cons (directive t l n v e p) ds) h =
      let ht : is_permitted allow t ≡ true = ground arith in
      let hp : permitted_payload allow p ≡ true = ground arith in
      let (same, full) = filter_payload-eq allow p hp in
      rw (ht, same, kept_all (directive t l n v e p) _ full, filter_list-eq allow ds (ground arith))

  filter_payload-eq :
      (allow : ℕ) (p : Payload)
      → permitted_payload allow p ≡ true
      → (filter_payload allow p ≡ p) × (emptied p ≡ false)
  filter_payload-eq allow (files_match p ch) h = (cc (filter_list-eq allow ch h), refl)
  filter_payload-eq allow (files ch) h = (cc (filter_list-eq allow ch h), refl)
  filter_payload-eq allow (ifmodule n ch) h = (cc (filter_list-eq allow ch h), refl)
  filter_payload-eq allow (require_container nil) h = cc
  filter_payload-eq allow (require_container (cons c cs)) h =
      (cc (filter_list-eq allow (cons c cs) h), refl)
  filter_payload-eq allow (limit m ch) h = (cc (filter_list-eq allow ch h), refl)
  filter_payload-eq allow (rewrite_rule p f cs) h = (cc (filter_list-eq allow cs h), refl)
  filter_payload-eq allow (if_block c ch) h = (cc (filter_list-eq allow ch h), refl)
  filter_payload-eq allow p h = (refl, refl)

-- A list whose directives are all permitted passes the filter unchanged.
pub filter-eq_of_permitted :
    (allow : ℕ) (ds : Directives)
    → all_permitted allow ds ≡ true
    → filter_by_allow_override allow ds ≡ ds
filter-eq_of_permitted = filter_list-eq

-- Filtering twice is filtering once.
pub filter_idem :
    (allow : ℕ) (ds : Directives)
    → filter_by_allow_override allow (filter_by_allow_override allow ds)
      ≡ filter_by_allow_override allow ds
filter_idem allow ds = filter-eq_of_permitted allow _ (filter-permitted allow ds)
