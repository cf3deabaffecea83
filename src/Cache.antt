-- ===== src/Cache.antt =====
-- src/htaccess_cache.c, the built-in cache of parsed files: a hash table with chains. An entry's
-- memory_usage, which nothing reads, is left out. Calls of calloc and strdup succeed.
pub mod View
use litehttpd.Prelude.{
  ℕ, zero, suc, ◌+◌, ◌%◌, Bool, true, false, ◌&&◌, Option, none, some, List, [], ◌∷◌, leb, ◌==◌,
  if◌then◌else◌, length, get_or, set, replicate,
}
use litehttpd.Prelude.Text.{Bytes, str_eq}
use litehttpd.Directive.{Directives}
use litehttpd.Shm.{djb2}

-- What stat tells about a version of a file.
pub record Stamp : Type 0 where
  pub mtime : ℕ
  pub file_size : ℕ
  pub inode : ℕ

-- cache_entry_t
pub record Entry : Type 0 where
  pub filepath : Bytes
  pub stamp : Stamp
  pub directives : Directives

-- htaccess_cache_t; num_buckets is the length of `buckets`
pub record Cache : Type 0 where
  pub buckets : List (List Entry)
  pub num_entries : ℕ

abbrev pub cache_max_entries : ℕ
cache_max_entries = 4096

unfoldable pub hash_string : Bytes → ℕ → ℕ
hash_string str num_buckets = djb2 5381 str % num_buckets

-- bool of the three comparisons of get
abbrev pub same_stamp : Stamp → Stamp → Bool
same_stamp a b = a.mtime == b.mtime && a.file_size == b.file_size && a.inode == b.inode

unfoldable pub builtin_cache_init : ℕ → Cache
builtin_cache_init initial_buckets =
    let n = if initial_buckets == 0 then 64 else initial_buckets in
    record { buckets = replicate n []; num_entries = 0 }

-- The loop over a chain.
unfoldable pub find_entry : Bytes → List Entry → Option Entry
find_entry filepath [] = none
find_entry filepath (e ∷ chain) =
    let next = find_entry filepath chain in if str_eq e.filepath filepath then some e else next

abbrev pub bucket : Cache → Bytes → List Entry
bucket c filepath = get_or c.buckets (hash_string filepath (length c.buckets)) []

-- The entry of a path, stale or not.
unfoldable pub lookup : Cache → Bytes → Option Entry
lookup c filepath = find_entry filepath (bucket c filepath)

-- A stale entry is a miss.
abbrev pub fresh : Stamp → Option Entry → Option Directives
fresh current none = none
fresh current (some e) = if same_stamp e.stamp current then some e.directives else none

unfoldable pub builtin_cache_get : Cache → Bytes → Stamp → Option Directives
builtin_cache_get c filepath current = fresh current (lookup c filepath)

-- The entry of the path is overwritten, if the chain has one.
unfoldable pub overwrite : Entry → List Entry → List Entry
overwrite new [] = []
overwrite new (e ∷ chain) =
    let next = overwrite new chain in
    if str_eq e.filepath new.filepath
    then record new { filepath = e.filepath } ∷ chain
    else e ∷ next

abbrev pub put_bucket : Cache → Bytes → List Entry → List (List Entry)
put_bucket c filepath chain = set c.buckets (hash_string filepath (length c.buckets)) chain

abbrev pub put_entry : Cache → Entry → Option Entry → Cache × Bool
put_entry c new (some old) =
    (record c { buckets = put_bucket c new.filepath (overwrite new (bucket c new.filepath)) }, true)
put_entry c new none = if leb cache_max_entries c.num_entries then (c, false) else (
  record {
    buckets = put_bucket c new.filepath (new ∷ bucket c new.filepath);
    num_entries = suc c.num_entries;
  },
  true,
)

unfoldable pub builtin_cache_put : Cache → Entry → Cache × Bool
builtin_cache_put c new = put_entry c new (lookup c new.filepath)
