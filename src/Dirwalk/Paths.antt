-- ===== src/Dirwalk/Paths.antt =====
-- The directories that htaccess_dirwalk of src/htaccess_dirwalker.c visits.
use litehttpd.Prelude.{
  ℕ, zero, suc, ◌+◌, ◌-◌, Bool, not, ◌&&◌, ◌||◌, Option, none, some, List, [], ◌∷◌, ◌++◌, leb, ◌==◌,
  if◌then◌else◌, length, drop, ◌≡◌, refl,
}
use litehttpd.Prelude.Text.{Bytes, codes, at_end, peek, str_eq, starts_with, has_char, occurs, atoi}
use litehttpd.Prelude.Tokens.{tokens}

-- MAX_PATH_LEN and MAX_DIR_DEPTH
abbrev pub max_path_len : ℕ
max_path_len = 4096

abbrev pub max_dir_depth : ℕ
max_dir_depth = 64

abbrev pub dotdot : Bytes
dotdot = b'.' ∷ b'.' ∷ []

-- HTACCESS_ACCESS_FILENAME, if it is a plain name.
unfoldable pub access_filename : Option Bytes → Bytes
access_filename none = codes ".htaccess"
access_filename (some env) =
    if not (at_end env)
      && not (has_char b'/' env)
      && not (has_char 92 env)
      && not (occurs dotdot env)
    then env
    else codes ".htaccess"

-- while (len > 1 && s[len - 1] == '/') len--;
unfoldable pub trim_slashes : Bytes → Bytes
trim_slashes [] = []
trim_slashes (c ∷ s) =
    let rest = trim_slashes s in if at_end rest && c == b'/' then [] else c ∷ rest

abbrev pub strip_slashes : Bytes → Bytes
strip_slashes [] = []
strip_slashes (c ∷ s) = c ∷ trim_slashes s

-- The directory is `root` or stands below it.
unfoldable pub is_below : Bytes → Bytes → Bool
is_below dir root =
    let rest = drop (length root) dir in starts_with dir root && (at_end rest || peek rest == b'/')

-- HTACCESS_VHROOT, if it is an absolute path above the document root, else the document root.
unfoldable pub walk_root : Bytes → Option Bytes → Bytes
walk_root doc_root none = doc_root
walk_root doc_root (some env) =
    if peek env == b'/' && not (occurs dotdot env) && is_below doc_root (strip_slashes env)
    then env
    else doc_root

abbrev pub is_slash : ℕ → Bool
is_slash c = c == b'/'

abbrev pub path_join : Bytes → Bytes → Bytes
path_join dir name = dir ++ (b'/' ∷ name)

-- The loop over the components, with how many more paths there is room for. No list for "..".
unfoldable pub build_paths : ℕ → Bytes → List Bytes → Option (List Bytes)
build_paths room current [] = some []
build_paths zero current (comp ∷ comps) = some []
build_paths (suc room) current (comp ∷ comps) =
    let rest = build_paths room (path_join current comp) comps in
    if str_eq comp dotdot
    then none
    else if leb max_path_len (length current + 1 + length comp)
    then some []
    else elim rest [ none ↦ none | some paths ↦ some (path_join current comp ∷ paths) ]

-- `paths`, from the root down.
unfoldable pub walk_paths : Bytes → Bytes → Option Bytes → Option (List Bytes)
walk_paths doc_root target_dir vhroot =
    let root = strip_slashes (walk_root doc_root vhroot) in
    if not (is_below target_dir root)
    then none
    else if leb max_path_len (length root)
    then none
    else elim (build_paths (max_dir_depth - 1) root
        (tokens is_slash (drop (length root) target_dir))) [
          | none ↦ none
          | some paths ↦ some (root ∷ paths)
        ]

-- HTACCESS_ALLOW_OVERRIDE
unfoldable pub allow_override_of : Option Bytes → ℕ
allow_override_of none = 255
allow_override_of (some val) =
    if at_end val then 255 else let v = atoi val in if leb v 255 then v else 255

walk_paths_runs :
    walk_paths (codes "/srv/www/") (codes "/srv/www//blog/2024") none
    ≡ some (codes "/srv/www" ∷ codes "/srv/www/blog" ∷ codes "/srv/www/blog/2024" ∷ [])
unfolding walk_paths walk_root trim_slashes is_below starts_with tokens build_paths str_eq
walk_paths_runs = refl

walk_paths_outside : walk_paths (codes "/srv/www") (codes "/srv/www2") none ≡ none
unfolding walk_paths walk_root trim_slashes is_below starts_with
walk_paths_outside = refl
