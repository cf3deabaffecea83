-- ===== src/Dirwalk/Flatten.antt =====
-- Flattening of IfModule containers.
use litehttpd.Prelude.{
  ℕ, List, [], ◌∷◌, ◌++◌, Option, Bool, true, false, ◌&&◌, ◌≡◌, refl, sym, ◌∙◌, arith,
}
use litehttpd.Prelude.Text.{Bytes}
use mathlib.Core.List.{append_assoc, append-nil}
use litehttpd.Directive.{
  Directive, directive, Payload, files_match, ifmodule, files, require_container, limit, if_block,
  Directives, nil, cons, append,
}
use litehttpd.Directive.Kind.{DirectiveType}
use litehttpd.Dirwalk.{flatten_ifmodule, flatten_one, flatten_payload}

-- No IfModule container stands where the executors look for directives.
unfoldable mutual
  pub is_flat : Directives → Bool
  is_flat nil = true
  is_flat (cons d ds) = flat_one d && is_flat ds

  flat_one : Directive → Bool
  flat_one (directive t l n v e p) = flat_payload p

  flat_payload : Payload → Bool
  flat_payload (ifmodule n ch) = false
  flat_payload (files ch) = is_flat ch
  flat_payload (files_match p ch) = is_flat ch
  flat_payload (if_block c ch) = is_flat ch
  flat_payload (limit m ch) = is_flat ch
  flat_payload (require_container ch) = is_flat ch
  flat_payload p = true

flat-append :
    (ds es : Directives) → is_flat ds ≡ true → is_flat es ≡ true → is_flat (append ds es) ≡ true
unfolding is_flat append
flat-append nil es h k = k
flat-append (cons d ds) es h k = ground (arith, flat-append ds es)

mutual
  unfolding flatten_ifmodule flatten_one flatten_payload is_flat flat_one flat_payload

  flatten-flat : (ds : Directives) → is_flat (flatten_ifmodule ds) ≡ true
  flatten-flat nil = refl
  flatten-flat (cons (directive t l n v e p) ds) =
      flat-append (flatten_payload (directive t l n v e) p) (flatten_ifmodule ds)
        (flatten_payload-flat t l n v e p) (flatten-flat ds)

  flatten_payload-flat :
      (t : DirectiveType) (l : ℕ) (n v e : Option Bytes) (p : Payload)
      → is_flat (flatten_payload (directive t l n v e) p) ≡ true
  flatten_payload-flat t l n v e (ifmodule m ch) = flatten-flat ch
  flatten_payload-flat t l n v e (files ch) = rw (flatten-flat ch)
  flatten_payload-flat t l n v e (files_match p ch) = rw (flatten-flat ch)
  flatten_payload-flat t l n v e (if_block c ch) = rw (flatten-flat ch)
  flatten_payload-flat t l n v e (limit m ch) = rw (flatten-flat ch)
  flatten_payload-flat t l n v e (require_container ch) = rw (flatten-flat ch)
  flatten_payload-flat t l n v e p = refl

mutual
  unfolding flatten_ifmodule flatten_one flatten_payload is_flat flat_one flat_payload append

  flatten-eq : (ds : Directives) → is_flat ds ≡ true → flatten_ifmodule ds ≡ ds
  flatten-eq nil h = refl
  flatten-eq (cons (directive t l n v e p) ds) h =
      rw (flatten_payload-eq t l n v e p (ground arith), flatten-eq ds (ground arith))

  flatten_payload-eq :
      (t : DirectiveType) (l : ℕ) (n v e : Option Bytes) (p : Payload)
      → flat_payload p ≡ true
      → flatten_payload (directive t l n v e) p ≡ cons (directive t l n v e p) nil
  flatten_payload-eq t l n v e (ifmodule m ch) h = cc
  flatten_payload-eq t l n v e (files ch) h = rw (flatten-eq ch h)
  flatten_payload-eq t l n v e (files_match p ch) h = rw (flatten-eq ch h)
  flatten_payload-eq t l n v e (if_block c ch) h = rw (flatten-eq ch h)
  flatten_payload-eq t l n v e (limit m ch) h = rw (flatten-eq ch h)
  flatten_payload-eq t l n v e (require_container ch) h = rw (flatten-eq ch h)
  flatten_payload-eq t l n v e p h = refl

-- A directive without its children, behind the containers that it stands in, the innermost first.
abbrev Entry : Type 0
Entry = List Directive × Directive

-- The directives at every depth in the order of the file, each with the containers around it. An
-- IfModule container is neither listed nor counted as one of them.
unfoldable mutual
  pub entries : List Directive → Directives → List Entry
  entries around nil = []
  entries around (cons d ds) = entries_one around d ++ entries around ds

  entries_one : List Directive → Directive → List Entry
  entries_one around (directive t l n v e p) = entries_of around (directive t l n v e) p

  entries_of : List Directive → (Payload → Directive) → Payload → List Entry
  entries_of around with_payload (ifmodule m ch) = entries around ch
  entries_of around with_payload (files ch) =
      (around, with_payload (files nil)) ∷ entries (with_payload (files nil) ∷ around) ch
  entries_of around with_payload (files_match p ch) =
      (around, with_payload (files_match p nil))
      ∷ entries (with_payload (files_match p nil) ∷ around) ch
  entries_of around with_payload (if_block c ch) =
      (around, with_payload (if_block c nil)) ∷ entries (with_payload (if_block c nil) ∷ around) ch
  entries_of around with_payload (limit m ch) =
      (around, with_payload (limit m nil)) ∷ entries (with_payload (limit m nil) ∷ around) ch
  entries_of around with_payload (require_container ch) =
      (around, with_payload (require_container nil))
      ∷ entries (with_payload (require_container nil) ∷ around) ch
  entries_of around with_payload p = (around, with_payload p) ∷ []

entries-append :
    (around : List Directive) (ds es : Directives)
    → entries around (append ds es) ≡ entries around ds ++ entries around es
unfolding entries append
entries-append around nil es = refl
entries-append around (cons d ds) es =
    rw (entries-append around ds es)
      (sym (append_assoc (entries_one around d) (entries around ds) (entries around es)))

mutual
  unfolding flatten_ifmodule flatten_one flatten_payload entries entries_one entries_of

  entries_list :
      (around : List Directive) (ds : Directives)
      → entries around (flatten_ifmodule ds) ≡ entries around ds
  entries_list around nil = refl
  entries_list around (cons (directive t l n v e p) ds) =
      entries-append around (flatten_payload (directive t l n v e) p) (flatten_ifmodule ds)
      ∙ cc (entries_of-eq around t l n v e p, entries_list around ds)

  entries_of-eq :
      (around : List Directive) (t : DirectiveType) (l : ℕ) (n v e : Option Bytes) (p : Payload)
      → entries around (flatten_payload (directive t l n v e) p)
        ≡ entries_of around (directive t l n v e) p
  entries_of-eq around t l n v e (ifmodule m ch) = entries_list around ch
  entries_of-eq around t l n v e (files ch) =
      rw (entries_list (directive t l n v e (files nil) ∷ around) ch, append-nil) refl
  entries_of-eq around t l n v e (files_match p ch) =
      rw (entries_list (directive t l n v e (files_match p nil) ∷ around) ch, append-nil) refl
  entries_of-eq around t l n v e (if_block c ch) =
      rw (entries_list (directive t l n v e (if_block c nil) ∷ around) ch, append-nil) refl
  entries_of-eq around t l n v e (limit m ch) =
      rw (entries_list (directive t l n v e (limit m nil) ∷ around) ch, append-nil) refl
  entries_of-eq around t l n v e (require_container ch) =
      rw (entries_list (directive t l n v e (require_container nil) ∷ around) ch, append-nil) refl
  entries_of-eq around t l n v e p = refl

-- After flattening no IfModule container is left, at any depth.
pub flatten_ifmodule-flat : (ds : Directives) → is_flat (flatten_ifmodule ds) ≡ true
flatten_ifmodule-flat = flatten-flat

-- Flattening twice is flattening once.
pub flatten_ifmodule_idem :
    (ds : Directives) → flatten_ifmodule (flatten_ifmodule ds) ≡ flatten_ifmodule ds
flatten_ifmodule_idem ds = flatten-eq (flatten_ifmodule ds) (flatten-flat ds)

-- Flattening loses, adds, changes and moves no directive other than the IfModule containers: the
-- others stay in the order of the file, each in the same containers.
pub entries-flatten_ifmodule : (ds : Directives) → entries [] (flatten_ifmodule ds) ≡ entries [] ds
entries-flatten_ifmodule = entries_list []
