-- ===== src/Dirwalk/Reading.antt =====
-- How htaccess_dirwalk of src/htaccess_dirwalker.c reads the files of the directories, through the
-- cache of src/htaccess_cache.c. The files are a parameter: they do not change during one walk. So
-- are htaccess_parse and the milliseconds that it takes.
use Prim.Native.Nat.{bit_xor}
use litehttpd.Prelude.{
  ℕ, ◌*◌, ◌/◌, max, Bool, true, false, not, ◌&&◌, Option, none, some, List, [], ◌∷◌, ltb, leb, ◌==◌,
  if◌then◌else◌, length,
}
use litehttpd.Prelude.Text.{Bytes}
use litehttpd.Directive.{Directives, nil}
use litehttpd.Cache.{Stamp, Cache, builtin_cache_get, builtin_cache_put}
use litehttpd.Dirwalk.{walk_levels}
use litehttpd.Dirwalk.Paths.{
  max_path_len, path_join, access_filename, walk_paths, allow_override_of,
}

-- What stat, open and fread tell about a file; `opens` fails for a symbolic link.
pub record File : Type 0 where
  pub opens : Bool
  pub regular : Bool
  pub writable : Bool
  pub mtime : ℕ
  pub inode : ℕ
  pub blocks : ℕ
  pub content : Bytes

-- The cache and htaccess_size_limit.
pub record World : Type 0 where
  pub cache : Cache
  pub size_limit : ℕ

abbrev pub max_htaccess_file_size_floor : ℕ
max_htaccess_file_size_floor = 200 * 1024

abbrev pub no_stamp : Stamp
no_stamp = record { mtime = 0; file_size = 0; inode = 0 }

-- The blocks are part of the key.
unfoldable pub stamp_of : File → Stamp
stamp_of f = record {
  mtime = f.mtime;
  file_size = length f.content;
  inode = bit_xor f.inode f.blocks;
}

-- The checks of read_and_cache before it parses.
unfoldable pub is_accepted : ℕ → File → Bool
is_accepted size_limit f =
    f.opens
    && f.regular
    && not f.writable
    && not (length f.content == 0)
    && not (ltb size_limit (length f.content))

-- The size limit after a parse that took so many milliseconds.
unfoldable pub next_limit : ℕ → ℕ → ℕ → ℕ
next_limit size_limit elapsed_ms fsize =
    let new_limit = max max_htaccess_file_size_floor (fsize / 2) in
    if ltb 2500 elapsed_ms && ltb max_htaccess_file_size_floor fsize
    then (if ltb new_limit size_limit then new_limit else size_limit)
    else size_limit

abbrev pub or_nil : Option Directives → Directives
or_nil none = nil
or_nil (some ds) = ds

-- What the caller uses after the put.
abbrev pub after_put : Cache × Bool → Bytes → Stamp → Directives → Directives
after_put (c, true) path stamp dirs = or_nil (builtin_cache_get c path stamp)
after_put (c, false) path stamp dirs = dirs

abbrev pub stat_stamp : Option File → Stamp
stat_stamp none = no_stamp
stat_stamp (some f) = stamp_of f

module _ (parse : Bytes → Bytes → Directives) (elapsed : Bytes → ℕ) where
  unfoldable pub read_and_cache : World → Bytes → File → World × Directives
  read_and_cache w path f =
      let dirs = parse f.content path in
      let put =
        builtin_cache_put w.cache
          (record { filepath = path; stamp = stamp_of f; directives = dirs }) in
      let limit = next_limit w.size_limit (elapsed f.content) (length f.content) in
      if is_accepted w.size_limit f
      then (record { cache = put.0; size_limit = limit }, after_put put path (stamp_of f) dirs)
      else (w, nil)

  abbrev pub read_missing : World → Bytes → Option File → World × Directives
  read_missing w path none = (w, nil)
  read_missing w path (some f) = read_and_cache w path f

  -- One pass of the loop over the directories, for the file that stands at `path`.
  unfoldable pub level : World → Bytes → Option File → World × Directives
  level w path file = elim (builtin_cache_get w.cache path (stat_stamp file)) [
    | some dirs ↦ (w, dirs)
    | none ↦ read_missing w path file
  ]

  module _ (disk : Bytes → Option File) where
    -- The loop; a path that is too long is skipped.
    unfoldable pub read_levels : World → Bytes → List Bytes → World × List Directives
    read_levels w filename [] = (w, [])
    read_levels w filename (dir ∷ dirs) =
        let path = path_join dir filename in
        elim (leb max_path_len (length path)) [
          | true ↦ read_levels w filename dirs
          | false ↦
              let here = level w path (disk path) in
              let rest = read_levels here.0 filename dirs in (rest.0, here.1 ∷ rest.1)
        ]

    -- The arguments `filename`, `vhroot` and `allow` are the environment variables.
    unfoldable pub htaccess_dirwalk :
        Option Bytes → Option Bytes → Option Bytes → World → Bytes → Bytes → World × Directives
    htaccess_dirwalk filename vhroot allow w doc_root target_dir =
        elim (walk_paths doc_root target_dir vhroot) [
          | none ↦ (w, nil)
          | some paths ↦
              let r = read_levels w (access_filename filename) paths in
              (r.0, walk_levels (allow_override_of allow) r.1)
        ]
