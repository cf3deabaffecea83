-- ===== src/Dirwalk/Within.antt =====
-- The walk of src/htaccess_dirwalker.c stays below its root.
use litehttpd.Dirwalk.Paths.{
  max_path_len, dotdot, is_slash, path_join, build_paths, walk_paths, walk_root, strip_slashes,
  is_below,
}
use litehttpd.Prelude.{
  ℕ, zero, suc, ◌+◌, ◌≡◌, refl, sym, subst, ◌⊎◌, false, Option, none, some, List, [], ◌∷◌, leb,
  if◌then◌else◌, length, drop, inl, inr, Bool-cases, ◌==◌,
}
use litehttpd.Prelude.Text.{Bytes, str_eq, has_char}
use litehttpd.Prelude.Tokens.{push, runs, tokens}

abbrev pub Every {ℓ κ} : {A : Type ℓ} → (A → Type κ) → List A → Type κ
Every P [] = Unit
Every P (x ∷ xs) = P x × Every P xs

-- The directory that the components lead to.
abbrev pub descend : Bytes → List Bytes → Bytes
descend dir [] = dir
descend dir (comp ∷ comps) = descend (path_join dir comp) comps

-- A component that names an entry of its directory, and not the parent.
abbrev pub IsPlain : Bytes → Type 0
IsPlain comp = (has_char b'/' comp ≡ false) × (str_eq comp dotdot ≡ false)

-- The path leads from the root down, one entry at a time.
abbrev pub IsWithin : Bytes → Bytes → Type 0
IsWithin root path = (comps : List Bytes) × (path ≡ descend root comps) × Every IsPlain comps

NoSlash : Bytes → Type 0
NoSlash comp = has_char b'/' comp ≡ false

push-clean :
    (t : Bytes) (ts : List Bytes) → NoSlash t → Every NoSlash ts → Every NoSlash (push t ts)
push-clean [] ts h hs = hs
push-clean (c ∷ t) ts h hs = (h, hs)

runs-clean : (s : Bytes) → NoSlash (runs is_slash s).0 × Every NoSlash (runs is_slash s).1
unfolding runs has_char NoSlash
runs-clean [] = (refl, tt)
runs-clean (c ∷ s) = elim (Bool-cases (c == b'/')) [
  | inl cut ↦ rw cut (refl, push-clean _ _ (runs-clean s).0 (runs-clean s).1)
  | inr keep ↦ rw (keep, keep) (runs-clean s)
]

tokens-clean : (s : Bytes) → Every NoSlash (tokens is_slash s)
unfolding tokens
tokens-clean s =
    push-clean (runs is_slash s).0 (runs is_slash s).1 (runs-clean s).0 (runs-clean s).1

IsWithin-step :
    (root comp path : Bytes)
    → IsPlain comp
    → IsWithin (path_join root comp) path
    → IsWithin root path
IsWithin-step root comp path plain (comps, e, ps) = (comp ∷ comps, e, (plain, ps))

Every-step :
    (root comp : Bytes) (paths : List Bytes)
    → IsPlain comp
    → Every (IsWithin (path_join root comp)) paths
    → Every (IsWithin root) paths
Every-step root comp [] plain h = tt
Every-step root comp (p ∷ ps) plain (x, xs) =
    (IsWithin-step root comp p plain x, Every-step root comp ps plain xs)

same_list : {xs ys : List Bytes} → some xs ≡ some ys → xs ≡ ys
same_list h = cc h

-- What one pass of the loop gives.
extend-inv :
    (comp current : Bytes) (rest : Option (List Bytes)) (paths : List Bytes)
    → (if str_eq comp dotdot
        then none
        else if leb max_path_len (length current + 1 + length comp)
        then some []
        else elim rest [ none ↦ none | some ps ↦ some (path_join current comp ∷ ps) ])
      ≡ some paths
    → (paths ≡ [])
      ⊎ ((ps : List Bytes) × (str_eq comp dotdot ≡ false)
          × (rest ≡ some ps)
          × (paths ≡ path_join current comp ∷ ps))
extend-inv comp current rest paths h = elim (Bool-cases (str_eq comp dotdot)) [
  | inl up ↦ cc (rw up at h)
  | inr down ↦ elim (Bool-cases (leb max_path_len (length current + 1 + length comp))) [
    | inl long ↦ inl (cc (rw (down, long) at h))
    | inr short ↦ extended rest (rw (down, short) at h) down
  ]
]
  where
    extended :
        (r : Option (List Bytes))
        → (elim r [ none ↦ none | some ps ↦ some (path_join current comp ∷ ps) ]) ≡ some paths
        → str_eq comp dotdot ≡ false
        → (paths ≡ [])
          ⊎ ((ps : List Bytes) × (str_eq comp dotdot ≡ false)
              × (r ≡ some ps)
              × (paths ≡ path_join current comp ∷ ps))
    extended none e down = cc e
    extended (some ps) e down = inr (ps, down, refl, cc e)

build_paths-IsWithin :
    (room : ℕ) (current : Bytes) (comps : List Bytes) (paths : List Bytes)
    → Every NoSlash comps
    → build_paths room current comps ≡ some paths
    → Every (IsWithin current) paths
unfolding build_paths NoSlash
build_paths-IsWithin room current [] paths clean h =
    subst (Every (IsWithin current)) (same_list h) tt
build_paths-IsWithin zero current (comp ∷ comps) paths clean h =
    subst (Every (IsWithin current)) (same_list h) tt
build_paths-IsWithin (suc room) current (comp ∷ comps) paths clean h =
    elim (extend-inv comp current (build_paths room (path_join current comp) comps) paths h) [
      | inl e ↦ subst (Every (IsWithin current)) (sym e) tt
      | inr (ps, down, e, eq) ↦ subst (Every (IsWithin current)) (sym eq) (
        (comp ∷ [], refl, ((clean.0, down), tt)),
        Every-step current comp ps (clean.0, down)
            (build_paths-IsWithin room (path_join current comp) comps ps clean.1 e),
      )
    ]

visited :
    (root : Bytes) (comps : List Bytes) (paths : List Bytes)
    → Every NoSlash comps
    → (elim (build_paths 63 root comps) [ none ↦ none | some ps ↦ some (root ∷ ps) ]) ≡ some paths
    → Every (IsWithin root) paths
visited root comps paths clean h = go (build_paths 63 root comps) refl h
  where
    go :
        (o : Option (List Bytes))
        → build_paths 63 root comps ≡ o
        → (elim o [ none ↦ none | some ps ↦ some (root ∷ ps) ]) ≡ some paths
        → Every (IsWithin root) paths
    go none e q = cc q
    go (some ps) e q =
        subst (Every (IsWithin root)) (same_list q)
          (([], refl, tt), build_paths-IsWithin 63 root comps ps clean e)

-- Every directory that is visited is reached from the root of the walk by entries of directories
-- alone: no component is "..", and none holds a slash.
pub walk_paths-IsWithin :
    (doc_root target_dir : Bytes) (vhroot : Option Bytes) (paths : List Bytes)
    → walk_paths doc_root target_dir vhroot ≡ some paths
    → Every (IsWithin (strip_slashes (walk_root doc_root vhroot))) paths
unfolding walk_paths
walk_paths-IsWithin doc_root target_dir vhroot paths h =
    let root = strip_slashes (walk_root doc_root vhroot) in
    elim (Bool-cases (is_below target_dir root)) [
      | inr outside ↦ cc (rw outside at h)
      | inl below ↦ elim (Bool-cases (leb max_path_len (length root))) [
        | inl long ↦ cc (rw (below, long) at h)
        | inr short ↦
            visited root (tokens is_slash (drop (length root) target_dir)) paths
              (tokens-clean (drop (length root) target_dir)) (rw (below, short) at h)
      ]
    ]
