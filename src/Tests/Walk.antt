-- ===== src/Tests/Walk.antt =====
-- Runs of src/htaccess_cache.c and of the walk of src/htaccess_dirwalker.c.
use litehttpd.Prelude.Tokens.{tokens}
use litehttpd.Shm.{djb2}
use litehttpd.Prelude.{ℕ, ◌≡◌, refl, true, false, Option, none, some, [], ◌∷◌, arith, if◌then◌else◌}
use litehttpd.Prelude.Text.{Bytes, codes, str_eq, starts_with}
use litehttpd.Directive.{Directives, nil}
use litehttpd.Cache.{
  Entry, Cache, builtin_cache_init, builtin_cache_put, lookup, find_entry, hash_string,
}
use litehttpd.Cache.View.{lookup-put, init-IsCounted}
use litehttpd.Dirwalk.Paths.{walk_paths, walk_root, trim_slashes, is_below, build_paths}
use litehttpd.Dirwalk.Within.{Every, IsWithin, walk_paths-IsWithin}
use litehttpd.Dirwalk.Reading.{File, World, htaccess_dirwalk}
use litehttpd.Dirwalk.Coherent.{
  IsCoherent, walk_uncached, htaccess_dirwalk-IsCoherent, init-IsCoherent,
}

abbrev small_cache : Cache
small_cache = builtin_cache_init 2

abbrev page : Entry
page = record {
  filepath = codes "/www/.htaccess";
  stamp = record { mtime = 5; file_size = 3; inode = 7 };
  directives = nil;
}

lookup-put_example : lookup (builtin_cache_put small_cache page).0 (codes "/www/.htaccess") ≡ (
    if str_eq (codes "/www/.htaccess") (codes "/www/.htaccess")
    then some page
    else lookup small_cache (codes "/www/.htaccess"))
unfolding builtin_cache_put lookup find_entry builtin_cache_init hash_string djb2
lookup-put_example = lookup-put small_cache page (init-IsCounted 2) (codes "/www/.htaccess") refl

abbrev parse_nothing : Bytes → Bytes → Directives
parse_nothing content path = nil

abbrev short : Bytes → ℕ
short content = 20

abbrev one_file : File
one_file = record {
  opens = true;
  regular = true;
  writable = false;
  mtime = 5;
  inode = 7;
  blocks = 8;
  content = codes "#\n";
}

abbrev files : Bytes → Option File
files path = if str_eq path (codes "/www/.htaccess") then some one_file else none

abbrev new_world : World
new_world = record { cache = small_cache; size_limit = 1000000 }

htaccess_dirwalk-IsCoherent_example :
    ((htaccess_dirwalk parse_nothing short files none none none new_world
        (codes "/www")
        (codes "/www/a")).1
      ≡ walk_uncached parse_nothing short files none none none 1000000
          (codes "/www")
          (codes "/www/a"))
    × (IsCoherent parse_nothing short files
        (htaccess_dirwalk parse_nothing short files none none none new_world
          (codes "/www")
          (codes "/www/a")).0)
htaccess_dirwalk-IsCoherent_example =
    htaccess_dirwalk-IsCoherent parse_nothing short files none none none new_world (codes "/www")
      (codes "/www/a") (λ s. omega arith) (init-IsCoherent parse_nothing short files 2 1000000)

walk_paths-IsWithin_example : Every (IsWithin (codes "/www")) (codes "/www" ∷ codes "/www/a" ∷ [])
unfolding walk_paths is_below starts_with walk_root trim_slashes build_paths tokens str_eq
walk_paths-IsWithin_example =
    walk_paths-IsWithin (codes "/www/") (codes "/www/a/") none (codes "/www" ∷ codes "/www/a" ∷ [])
      refl
