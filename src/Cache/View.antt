-- ===== src/Cache/View.antt =====
-- The cache as a map from paths to entries.
use litehttpd.Cache.{
  Entry, Cache, cache_max_entries, hash_string, builtin_cache_init, find_entry, bucket, lookup,
  overwrite, put_bucket, put_entry, builtin_cache_put,
}
use litehttpd.Prelude.{
  ℕ, zero, suc, ◌+◌, ◌<◌, ◌≤◌, ◌≡◌, ◌≢◌, refl, sym, subst, ap, ◌∙◌, true, false, Option, none, some,
  List, [], ◌∷◌, leb, ◌==◌, if◌then◌else◌, length, get_or, set, length-set, arith, inl, inr,
  Bool-cases, length-replicate, ℕ_discrete, replicate,
}
use mathlib.Core.Bool.{false≢true}
use litehttpd.Prelude.Text.{Bytes, str_eq, str_eq_iff, str_eq_refl}

-- The number of entries in the chains.
abbrev pub total : List (List Entry) → ℕ
total [] = 0
total (chain ∷ bs) = length chain + total bs

-- There is a bucket, and num_entries counts the entries, which are at most CACHE_MAX_ENTRIES.
pub record IsCounted (c : Cache) : Type 0 where
  pub some_bucket : 0 < length c.buckets
  pub counted : c.num_entries ≡ total c.buckets
  pub bounded : c.num_entries ≤ cache_max_entries

hash_string-lt : (s : Bytes) (n : ℕ) → 0 < n → hash_string s n < n
unfolding hash_string
hash_string-lt s n h = omega arith

get_or-set_self :
    (bs : List (List Entry)) (i : ℕ) (v : List Entry) → i < length bs → get_or (set bs i v) i [] ≡ v
get_or-set_self [] i v h = absurd (omega arith)
get_or-set_self (b ∷ bs) zero v h = refl
get_or-set_self (b ∷ bs) (suc i) v h = get_or-set_self bs i v (omega arith)

get_or-set_ne :
    (bs : List (List Entry)) (i j : ℕ) (v : List Entry)
    → i ≢ j
    → get_or (set bs i v) j [] ≡ get_or bs j []
get_or-set_ne [] i j v h = refl
get_or-set_ne (b ∷ bs) zero zero v h = absurd (h refl)
get_or-set_ne (b ∷ bs) zero (suc j) v h = refl
get_or-set_ne (b ∷ bs) (suc i) zero v h = refl
get_or-set_ne (b ∷ bs) (suc i) (suc j) v h = get_or-set_ne bs i j v (λ e. h (ap suc e))

total-set :
    (bs : List (List Entry)) (i : ℕ) (v : List Entry)
    → i < length bs
    → total (set bs i v) + length (get_or bs i []) ≡ total bs + length v
total-set [] i v h = absurd (omega arith)
total-set (b ∷ bs) zero v h = omega arith
total-set (b ∷ bs) (suc i) v h = omega (arith, total-set bs i v (omega arith))

length-overwrite : (new : Entry) (chain : List Entry) → length (overwrite new chain) ≡ length chain
unfolding overwrite
length-overwrite new [] = refl
length-overwrite new (e ∷ chain) = ground (arith, length-overwrite new chain)

find-overwrite_self :
    (new e : Entry) (chain : List Entry)
    → find_entry new.filepath chain ≡ some e
    → find_entry new.filepath (overwrite new chain) ≡ some new
unfolding find_entry overwrite
find-overwrite_self new e [] h = cc
find-overwrite_self new e (x ∷ chain) h = elim (Bool-cases (str_eq x.filepath new.filepath)) [
  | inl same ↦
      let p : x.filepath ≡ new.filepath = (str_eq_iff x.filepath new.filepath).0 same in
      rw (same, p, str_eq_refl new.filepath)
  | inr other ↦ rw (other, other) (find-overwrite_self new e chain (rw other at h))
]

find-overwrite_ne :
    (new : Entry) (q : Bytes) (chain : List Entry)
    → q ≢ new.filepath
    → find_entry q (overwrite new chain) ≡ find_entry q chain
unfolding find_entry overwrite
find-overwrite_ne new q [] ne = refl
find-overwrite_ne new q (x ∷ chain) ne = elim (Bool-cases (str_eq x.filepath new.filepath)) [
  | inl same ↦
      let p : x.filepath ≡ new.filepath = (str_eq_iff x.filepath new.filepath).0 same in
      elim (Bool-cases (str_eq x.filepath q)) [
        | inl hit ↦ absurd (ne (sym ((str_eq_iff x.filepath q).0 hit) ∙ p))
        | inr miss ↦ rw (same, miss)
      ]
  | inr other ↦ rw (other, find-overwrite_ne new q chain ne)
]

-- What a put does to the bucket of its path.
abbrev written : Cache → Entry → Option Entry → List Entry
written c new none = new ∷ bucket c new.filepath
written c new (some e) = overwrite new (bucket c new.filepath)

find-written_self :
    (c : Cache) (new : Entry) (o : Option Entry)
    → lookup c new.filepath ≡ o
    → find_entry new.filepath (written c new o) ≡ some new
unfolding find_entry lookup
find-written_self c new none h = rw (str_eq_refl new.filepath)
find-written_self c new (some e) h = find-overwrite_self new e (bucket c new.filepath) h

find-written_ne :
    (c : Cache) (new : Entry) (o : Option Entry) (q : Bytes)
    → q ≢ new.filepath
    → find_entry q (written c new o) ≡ find_entry q (bucket c new.filepath)
unfolding find_entry
find-written_ne c new none q ne = elim (Bool-cases (str_eq new.filepath q)) [
  | inl hit ↦ absurd (ne (sym ((str_eq_iff new.filepath q).0 hit)))
  | inr miss ↦ rw miss
]
find-written_ne c new (some e) q ne = find-overwrite_ne new q (bucket c new.filepath) ne

-- A put that succeeds sets the bucket of its path.
put_cases :
    (c : Cache) (new : Entry) (o : Option Entry)
    → (put_entry c new o).1 ≡ true
    → (put_entry c new o).0.buckets ≡ put_bucket c new.filepath (written c new o)
put_cases c new none h = ground arith
put_cases c new (some e) h = refl

put_full :
    (c : Cache) (new : Entry) (o : Option Entry)
    → (put_entry c new o).1 ≡ false
    → (put_entry c new o).0 ≡ c
put_full c new none h = ground arith
put_full c new (some e) h = cc

module _ (c : Cache) (new : Entry) (ok : IsCounted c) where
  abbrev home : ℕ
  home = hash_string new.filepath (length c.buckets)

  -- The bucket of a path, in the buckets that a put has written.
  bucket_after :
      (c' : Cache) (q : Bytes) (v : List Entry)
      → c'.buckets ≡ put_bucket c new.filepath v
      → bucket c' q ≡ get_or (put_bucket c new.filepath v) (hash_string q (length c.buckets)) []
  bucket_after c' q v e = rw (e, length-set c.buckets home v)

  -- After a put that answers success, the entry that is found under its path is the one that was
  -- put.
  pub lookup-put_self :
      (builtin_cache_put c new).1 ≡ true
      → lookup (builtin_cache_put c new).0 new.filepath ≡ some new
  unfolding builtin_cache_put lookup
  lookup-put_self h =
      let v = written c new (lookup c new.filepath) in
      let e = put_cases c new (lookup c new.filepath) h in
      ap (find_entry new.filepath) (
        bucket_after (put_entry c new (lookup c new.filepath)).0 new.filepath v e
        ∙ get_or-set_self c.buckets home v
            (hash_string-lt new.filepath (length c.buckets) ok.some_bucket))
      ∙ find-written_self c new (lookup c new.filepath) refl

  lookup-written_ne :
      (q : Bytes) (v : List Entry)
      → v ≡ written c new (lookup c new.filepath)
      → q ≢ new.filepath
      → find_entry q (get_or (put_bucket c new.filepath v) (hash_string q (length c.buckets)) [])
        ≡ find_entry q (bucket c q)
  lookup-written_ne q v e ne = elim (ℕ_discrete home (hash_string q (length c.buckets))) [
    | yes same ↦ rw (← same) (
        rw
          (
            get_or-set_self c.buckets home v
                (hash_string-lt new.filepath (length c.buckets) ok.some_bucket),
            e,
          )
          (find-written_ne c new (lookup c new.filepath) q ne))
    | no apart ↦ rw (get_or-set_ne c.buckets home (hash_string q (length c.buckets)) v apart)
  ]

  -- A put changes what is found under no other path, whether it succeeds or not.
  pub lookup-put_ne :
      (q : Bytes) → q ≢ new.filepath → lookup (builtin_cache_put c new).0 q ≡ lookup c q
  unfolding builtin_cache_put lookup
  lookup-put_ne q ne = elim (Bool-cases (builtin_cache_put c new).1) [
    | inl done ↦
        let v = written c new (lookup c new.filepath) in
        ap (find_entry q) (
          bucket_after (put_entry c new (lookup c new.filepath)).0 q v
            (put_cases c new (lookup c new.filepath) done))
        ∙ lookup-written_ne q v refl ne
    | inr failed ↦
        ap (λ d. find_entry q (bucket d q)) (put_full c new (lookup c new.filepath) failed)
  ]

  -- After a put that answers success, the entry that was put is found under its path, and under
  -- every other path what was found before.
  pub lookup-put :
      (q : Bytes)
      → (builtin_cache_put c new).1 ≡ true
      → lookup (builtin_cache_put c new).0 q
        ≡ (if str_eq q new.filepath then some new else lookup c q)
  lookup-put q done = elim (Bool-cases (str_eq q new.filepath)) [
    | inl same ↦ rw same (
        subst (λ x. lookup (builtin_cache_put c new).0 x ≡ some new)
          (sym ((str_eq_iff q new.filepath).0 same)) (lookup-put_self done))
    | inr other ↦
        rw other
          (lookup-put_ne q (λ e. absurd (false≢true (sym other ∙ (str_eq_iff q new.filepath).1 e))))
  ]

  inside : home < length c.buckets
  inside = hash_string-lt new.filepath (length c.buckets) ok.some_bucket

  put_entry-IsCounted :
      (o : Option Entry) → lookup c new.filepath ≡ o → IsCounted (put_entry c new o).0
  put_entry-IsCounted none h = elim (Bool-cases (leb cache_max_entries c.num_entries)) [
    | inl full ↦ rw full ok
    | inr room ↦ rw room (record {
      some_bucket =
          omega (arith, length-set c.buckets home (new ∷ bucket c new.filepath), ok.some_bucket);
      counted =
          omega (arith, total-set c.buckets home (new ∷ bucket c new.filepath) inside, ok.counted);
      bounded = ground arith;
    })
  ]
  put_entry-IsCounted (some e) h =
      let v = overwrite new (bucket c new.filepath) in
      record {
        some_bucket = omega (arith, length-set c.buckets home v, ok.some_bucket);
        counted = omega (
          arith,
          total-set c.buckets home v inside,
          length-overwrite new (bucket c new.filepath),
          ok.counted,
        );
        bounded = ok.bounded;
      }

  -- A put keeps the count of the entries right and within its bound.
  pub put-IsCounted : IsCounted (builtin_cache_put c new).0
  unfolding builtin_cache_put
  put-IsCounted = put_entry-IsCounted (lookup c new.filepath) refl

total-replicate : (n : ℕ) → total (replicate n []) ≡ 0
total-replicate zero = refl
total-replicate (suc n) = omega (arith, total-replicate n)

-- A new cache counts its entries right.
pub init-IsCounted : (n : ℕ) → IsCounted (builtin_cache_init n)
unfolding builtin_cache_init
init-IsCounted n = elim (Bool-cases (n == 0)) [
  | inl e ↦ rw e (record { some_bucket = omega arith; counted = refl; bounded = omega arith })
  | inr e ↦ rw e (record {
    some_bucket = ground (arith, length-replicate {A = List Entry} n []);
    counted = sym (total-replicate n);
    bounded = omega arith;
  })
]

-- A new cache holds nothing.
pub lookup-init : (n : ℕ) (q : Bytes) → lookup (builtin_cache_init n) q ≡ none
unfolding builtin_cache_init lookup find_entry
lookup-init n q =
    empty_chain (if n == 0 then 64 else n)
      (hash_string q (length (replicate {A = List Entry} (if n == 0 then 64 else n) [])))
  where
    empty_chain : (m i : ℕ) → find_entry q (get_or (replicate {A = List Entry} m []) i []) ≡ none
    empty_chain zero i = refl
    empty_chain (suc m) zero = refl
    empty_chain (suc m) (suc i) = empty_chain m i

-- A put that does not succeed changes nothing.
pub put-failed :
    (c : Cache) (new : Entry)
    → (builtin_cache_put c new).1 ≡ false
    → (builtin_cache_put c new).0 ≡ c
unfolding builtin_cache_put
put-failed c new h = put_full c new (lookup c new.filepath) h
