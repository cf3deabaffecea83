-- ===== src/Dirwalk/Coherent.antt =====
-- The walk with the cache of src/htaccess_cache.c against a walk that reads every file.
use litehttpd.Dirwalk.Reading.{
  File, World, no_stamp, stamp_of, is_accepted, next_limit, after_put, read_and_cache, read_missing,
  stat_stamp, level, read_levels, htaccess_dirwalk,
}
use litehttpd.Dirwalk.Paths.{
  max_path_len, path_join, access_filename, walk_paths, allow_override_of,
}
use litehttpd.Dirwalk.{walk_levels}
use litehttpd.Cache.{
  Stamp, Entry, Cache, same_stamp, fresh, lookup, builtin_cache_init, builtin_cache_get,
  builtin_cache_put,
}
use litehttpd.Cache.View.{
  IsCounted, lookup-put_self, lookup-put_ne, put-IsCounted, put-failed, init-IsCounted, lookup-init,
}
use litehttpd.Prelude.{
  ℕ, ◌<◌, ◌≤◌, ◌≡◌, ◌≢◌, refl, sym, subst, ap, ◌∙◌, Bool, true, false, Option, none, some, List, [],
  ◌∷◌, leb, if◌then◌else◌, length, arith, inl, inr, Bool-cases, Option-cases, ◌⊎◌,
}
use litehttpd.Prelude.Text.{Bytes, str_eq, str_eq_iff}
use litehttpd.Directive.{Directives, nil}
use mathlib.Core.Bool.{false≢true}

some_same : {a b : Directives} → some a ≡ some b → a ≡ b
some_same h = cc h

none-some : {a : Directives} → ◌≡◌ {A = Option Directives} none (some a) → ⊥
none-some h = cc h

-- The stamp of a file that is not there is that of no entry.
empty_stamp :
    (s : Stamp) (dirs ds : Directives)
    → 0 < s.file_size
    → (if same_stamp s no_stamp then some ds else none) ≡ some dirs
    → ⊥
empty_stamp s dirs ds p h = ground arith

differ : (a b : Bytes) → str_eq a b ≡ false → a ≢ b
differ a b h e = absurd (false≢true (sym h ∙ (str_eq_iff a b).1 e))

same_entry : {a b : Entry} → some a ≡ some b → a ≡ b
same_entry h = cc h

same_file : {a b : File} → some a ≡ some b → a ≡ b
same_file h = cc h

accepted_size : (limit : ℕ) (f : File) → is_accepted limit f ≡ true → 0 < length f.content
unfolding is_accepted
accepted_size limit f h = ground arith

same_stamp_refl : (s : Stamp) → same_stamp s s ≡ true
same_stamp_refl s = ground arith

-- No parse so short lowers the limit.
same_limit : (limit ms n : ℕ) → ms ≤ 2500 → next_limit limit ms n ≡ limit
unfolding next_limit
same_limit limit ms n h = ground arith

after_put_lem :
    (put : Cache × Bool) (path : Bytes) (stamp : Stamp) (dirs : Directives)
    → (put.1 ≡ true → builtin_cache_get put.0 path stamp ≡ some dirs)
    → after_put put path stamp dirs ≡ dirs
after_put_lem (c, true) path stamp dirs h = rw (h refl) refl
after_put_lem (c, false) path stamp dirs h = refl

same_cons : {a b : Directives} {us vs : List Directives} → a ≡ b → us ≡ vs → a ∷ us ≡ b ∷ vs
same_cons h k = cc (h, k)

nothing : {e : Entry} → ◌≡◌ {A = Option Entry} none (some e) → ⊥
nothing h = cc h

module _ (parse : Bytes → Bytes → Directives) (elapsed : Bytes → ℕ)
    (disk : Bytes → Option File) where
  -- What stands in the file, with no cache.
  abbrev pub parsed : ℕ → Bytes → Option File → Directives
  parsed limit path none = nil
  parsed limit path (some f) = if is_accepted limit f then parse f.content path else nil

  -- The loop over the directories, with no cache.
  unfoldable pub parse_levels : ℕ → Bytes → List Bytes → List Directives
  parse_levels limit filename [] = []
  parse_levels limit filename (dir ∷ dirs) =
      let path = path_join dir filename in
      let rest = parse_levels limit filename dirs in
      if leb max_path_len (length path) then rest else parsed limit path (disk path) ∷ rest

  -- Every entry of the cache comes from a file that is not empty, and is what the file holds as
  -- long as the file has the entry's stamp.
  pub record IsCoherent (w : World) : Type 0 where
    pub counted : IsCounted w.cache
    pub not_empty : (q : Bytes) (e : Entry) → lookup w.cache q ≡ some e → 0 < e.stamp.file_size
    pub agrees :
        (q : Bytes) (e : Entry) (f : File)
        → lookup w.cache q ≡ some e
        → disk q ≡ some f
        → same_stamp e.stamp (stamp_of f) ≡ true
        → e.directives ≡ parsed w.size_limit q (some f)

  -- A hit.
  hit_parsed :
      (w : World) (path : Bytes) (file : Option File) (dirs : Directives)
      → IsCoherent w
      → disk path ≡ file
      → (o : Option Entry) → lookup w.cache path ≡ o
      → fresh (stat_stamp file) o ≡ some dirs
      → dirs ≡ parsed w.size_limit path file
  hit_parsed w path file dirs ok hd none hl h = cc h
  hit_parsed w path none dirs ok hd (some e) hl h =
      absurd (empty_stamp e.stamp dirs e.directives (ok.not_empty path e hl) h)
  hit_parsed w path (some f) dirs ok hd (some e) hl h =
      elim (Bool-cases (same_stamp e.stamp (stamp_of f))) [
        | inl same ↦
            let d : e.directives ≡ dirs = some_same (rw same at h) in
            sym d ∙ ok.agrees path e f hl hd same
        | inr stale ↦ absurd (none-some (rw stale at h))
      ]

  -- An entry for the file that was read.
  abbrev entry : Bytes → File → Entry
  entry path f = record { filepath = path; stamp = stamp_of f; directives = parse f.content path }

  -- What is found after a put is the new entry, or was there before.
  put_found :
      (w : World) (path : Bytes) (f : File) (q : Bytes) (e : Entry)
      → IsCoherent w
      → (builtin_cache_put w.cache (entry path f)).1 ≡ true
      → lookup (builtin_cache_put w.cache (entry path f)).0 q ≡ some e
      → ((q ≡ path) × (entry path f ≡ e)) ⊎ (lookup w.cache q ≡ some e)
  put_found w path f q e ok done h = elim (Bool-cases (str_eq q path)) [
    | inl here ↦
        let p : q ≡ path = (str_eq_iff q path).0 here in
        let g = subst (λ x. lookup (builtin_cache_put w.cache (entry path f)).0 x ≡ some e) p h in
        inl (p, same_entry (sym (lookup-put_self w.cache (entry path f) ok.counted done) ∙ g))
    | inr there ↦
        inr (sym (lookup-put_ne w.cache (entry path f) ok.counted q (differ q path there)) ∙ h)
  ]

  put-IsCoherent :
      (w : World) (path : Bytes) (f : File)
      → IsCoherent w
      → disk path ≡ some f
      → is_accepted w.size_limit f ≡ true
      → (builtin_cache_put w.cache (entry path f)).1 ≡ true
      → IsCoherent (record w { cache = (builtin_cache_put w.cache (entry path f)).0 })
  unfolding stamp_of
  put-IsCoherent w path f ok hd accepted done = record {
    counted = put-IsCounted w.cache (entry path f) ok.counted;
    not_empty = λ q e h. elim (put_found w path f q e ok done h) [
      | inl (p, eq) ↦
          subst (λ (x : Entry). 0 < x.stamp.file_size) eq (accepted_size w.size_limit f accepted)
      | inr old ↦ ok.not_empty q e old
    ];
    agrees = λ q e g h hg same. elim (put_found w path f q e ok done h) [
      | inl (p, eq) ↦
          let fg : f ≡ g = same_file (sym hd ∙ ap disk (sym p) ∙ hg) in
          ap (λ (x : Entry). x.directives) (sym eq) ∙ (rw (p, ← fg, accepted) refl)
      | inr old ↦ ok.agrees q e g old hg same
    ];
  }

  -- What the caller uses after a put is what was parsed.
  after_put_parsed :
      (w : World) (path : Bytes) (f : File)
      → IsCoherent w
      → after_put
          (builtin_cache_put w.cache (entry path f))
          path
          (stamp_of f)
          (parse f.content path)
        ≡ parse f.content path
  unfolding builtin_cache_get
  after_put_parsed w path f ok =
      after_put_lem (builtin_cache_put w.cache (entry path f)) path (stamp_of f)
        (parse f.content path)
        (λ done.
          rw (lookup-put_self w.cache (entry path f) ok.counted done, same_stamp_refl (stamp_of f))
            refl)

  -- An answer of a read that is right, with the world that it leaves.
  abbrev pub IsRight : World → Bytes → Option File → World × Directives → Type 0
  IsRight w path file r =
      (r.1 ≡ parsed w.size_limit path file) × (IsCoherent r.0) × (r.0.size_limit ≡ w.size_limit)

  put_right :
      (w : World) (path : Bytes) (f : File)
      → IsCoherent w
      → disk path ≡ some f
      → is_accepted w.size_limit f ≡ true
      → IsCoherent (record w { cache = (builtin_cache_put w.cache (entry path f)).0 })
  put_right w path f ok hd accepted =
      elim (Bool-cases (builtin_cache_put w.cache (entry path f)).1) [
        | inl done ↦ put-IsCoherent w path f ok hd accepted done
        | inr failed ↦ rw (put-failed w.cache (entry path f) failed) ok
      ]

  read_coherent :
      (w : World) (path : Bytes) (f : File)
      → ((s : Bytes) → elapsed s ≤ 2500)
      → IsCoherent w
      → disk path ≡ some f
      → IsRight w path (some f) (read_and_cache parse elapsed w path f)
  unfolding read_and_cache
  read_coherent w path f fast ok hd = elim (Bool-cases (is_accepted w.size_limit f)) [
    | inl accepted ↦
        let same =
          same_limit w.size_limit (elapsed f.content) (length f.content) (fast f.content) in
        rw (accepted, same) (after_put_parsed w path f ok, put_right w path f ok hd accepted, refl)
    | inr refused ↦ rw refused (refl, ok, refl)
  ]

  missing_coherent :
      (w : World) (path : Bytes) (file : Option File)
      → ((s : Bytes) → elapsed s ≤ 2500)
      → IsCoherent w
      → disk path ≡ file
      → IsRight w path file (read_missing parse elapsed w path file)
  missing_coherent w path none fast ok hd = (refl, ok, refl)
  missing_coherent w path (some f) fast ok hd = read_coherent w path f fast ok hd

  hit-IsRight :
      (w : World) (path : Bytes) (file : Option File) (dirs : Directives)
      → IsCoherent w
      → disk path ≡ file
      → builtin_cache_get w.cache path (stat_stamp file) ≡ some dirs
      → IsRight w path file (w, dirs)
  unfolding builtin_cache_get
  hit-IsRight w path file dirs ok hd hit =
      (hit_parsed w path file dirs ok hd (lookup w.cache path) refl hit, ok, refl)

  level_cases :
      (w : World) (path : Bytes) (file : Option File) (o : Option Directives)
      → ((s : Bytes) → elapsed s ≤ 2500)
      → IsCoherent w
      → disk path ≡ file
      → builtin_cache_get w.cache path (stat_stamp file) ≡ o
      → IsRight w path file
          (elim o [ some dirs ↦ (w, dirs) | none ↦ read_missing parse elapsed w path file ])
  level_cases w path file none fast ok hd miss = missing_coherent w path file fast ok hd
  level_cases w path file (some dirs) fast ok hd hit = hit-IsRight w path file dirs ok hd hit

  level_coherent :
      (w : World) (path : Bytes)
      → ((s : Bytes) → elapsed s ≤ 2500)
      → IsCoherent w
      → IsRight w path (disk path) (level parse elapsed w path (disk path))
  unfolding level
  level_coherent w path fast ok =
      level_cases w path (disk path) (builtin_cache_get w.cache path (stat_stamp (disk path))) fast
        ok refl refl

  -- What a walk over the directories answers and leaves, if it is right.
  abbrev pub AreRight : World → Bytes → List Bytes → World × List Directives → Type 0
  AreRight w filename dirs r = (r.1 ≡ parse_levels w.size_limit filename dirs) × (IsCoherent r.0)

  levels_coherent :
      (w : World) (filename : Bytes) (dirs : List Bytes)
      → ((s : Bytes) → elapsed s ≤ 2500)
      → IsCoherent w
      → AreRight w filename dirs (read_levels parse elapsed disk w filename dirs)
  unfolding read_levels parse_levels
  levels_coherent w filename [] fast ok = (refl, ok)
  levels_coherent w filename (dir ∷ dirs) fast ok =
      elim (Bool-cases (leb max_path_len (length (path_join dir filename)))) [
        | inl long ↦ rw (read_levels, long) (levels_coherent w filename dirs fast ok)
        | inr short ↦
            let path = path_join dir filename in
            let (here, coherent, limit) = level_coherent w path fast ok in
            let (rest, still) =
              levels_coherent (level parse elapsed w path (disk path)).0 filename dirs fast
                coherent in
            rw (read_levels, short)
              (
                same_cons here (
                    subst
                      (λ n.
                        (read_levels parse elapsed disk (level parse elapsed w path (disk path)).0
                          filename dirs).1
                        ≡ parse_levels n filename dirs)
                      limit rest),
                still,
              )
      ]

  -- The walk that reads every file and keeps no cache.
  unfoldable pub walk_uncached :
      Option Bytes → Option Bytes → Option Bytes → ℕ → Bytes → Bytes → Directives
  walk_uncached filename vhroot allow limit doc_root target_dir =
      elim (walk_paths doc_root target_dir vhroot) [
        | none ↦ nil
        | some paths ↦
            walk_levels (allow_override_of allow)
              (parse_levels limit (access_filename filename) paths)
      ]

  -- If no parse takes more than 2500 ms and the cache is coherent with the files, then a walk
  -- through the cache answers what a walk that reads every file answers, and leaves a coherent
  -- cache.
  pub htaccess_dirwalk-IsCoherent :
      (filename vhroot allow : Option Bytes) (w : World) (doc_root target_dir : Bytes)
      → ((s : Bytes) → elapsed s ≤ 2500)
      → IsCoherent w
      → ((htaccess_dirwalk parse elapsed disk filename vhroot allow w doc_root target_dir).1
          ≡ walk_uncached filename vhroot allow w.size_limit doc_root target_dir)
        × (IsCoherent
            (htaccess_dirwalk parse elapsed disk filename vhroot allow w doc_root target_dir).0)
  unfolding htaccess_dirwalk walk_uncached
  htaccess_dirwalk-IsCoherent filename vhroot allow w doc_root target_dir fast ok =
      elim (Option-cases (walk_paths doc_root target_dir vhroot)) [
        | inl outside ↦ rw (htaccess_dirwalk, walk_uncached, outside) (refl, ok)
        | inr (paths, inside) ↦
            let (same, still) = levels_coherent w (access_filename filename) paths fast ok in
            rw (htaccess_dirwalk, walk_uncached, inside)
              (ap (walk_levels (allow_override_of allow)) same, still)
      ]

-- A cache that is new is coherent with any files.
pub init-IsCoherent :
    (parse : Bytes → Bytes → Directives) (elapsed : Bytes → ℕ) (disk : Bytes → Option File)
    (n limit : ℕ)
    → IsCoherent parse elapsed disk (record { cache = builtin_cache_init n; size_limit = limit })
init-IsCoherent parse elapsed disk n limit = record {
  counted = init-IsCounted n;
  not_empty = λ q e h. absurd (nothing (sym (lookup-init n q) ∙ h));
  agrees = λ q e f h hd same. absurd (nothing (sym (lookup-init n q) ∙ h));
}
