-- ===== src/Auth.antt =====
-- src/htaccess_exec_auth.c, AuthType Basic. crypt_r is the parameter `crypt_r`, and what the checks
-- of open_confined_htpasswd ask the system is a parameter too. No NUL stands in a file or a
-- directive.
pub mod Base64
pub mod Confined
pub mod Decision
pub mod RoundTrip
use litehttpd.Prelude.{
  ℕ, zero, suc, ◌+◌, ◌-◌, ◌*◌, ◌/◌, Bool, true, false, not, ◌&&◌, ◌||◌, Option, none, some, List,
  [], ◌∷◌, ◌++◌, ltb, leb, ◌==◌, if◌then◌else◌, length, drop,
}
use litehttpd.Prelude.Text.{
  Bytes, codes, at_end, peek, str_eq, str_caseeq, starts_with, starts_with_nocase, occurs,
}
use litehttpd.Prelude.Maybe.{◌>>=◌, ◌>>◌, guard}
use litehttpd.Prelude.Tokens.{tokens}
use litehttpd.Directive.{
  Directive, directive, Directives, nil, cons, kind, payload, children_of, value,
}
use litehttpd.Directive.Kind.{
  DirectiveType, require_any_open, require_all_open, require_valid_user, require_user, auth_type,
  auth_name, auth_user_file,
}
use litehttpd.Lsi.{Verdict, lsi_ok, lsi_error}
use litehttpd.Expression.Token.{cut}
use litehttpd.Dirwalk.Paths.{is_below, strip_slashes}
use litehttpd.Auth.Base64.{base64_decode}

-- A text as strdup reads it, up to a NUL.
unfoldable pub until_nul : Bytes → Bytes
until_nul [] = []
until_nul (c ∷ s) = let rest = until_nul s in if c == 0 then [] else c ∷ rest

-- The text and its user and password, which a colon separates.
abbrev pub split_colon : Bytes → Option (Bytes × Bytes)
split_colon decoded = elim (cut b':' (until_nul decoded)) [
  | none ↦ none
  | some (user, behind) ↦ some (user, behind)
]

unfoldable pub parse_basic_auth : Bytes → Option (Bytes × Bytes)
unfolding base64_decode until_nul cut
parse_basic_auth auth_header =
    let b64 = drop 6 auth_header in
    let decode_cap = length b64 / 4 * 3 + 4 in
    if ltb (length auth_header) 7
      || not (starts_with_nocase auth_header (codes "Basic "))
      || ltb 1024 (length b64)
    then none
    else do
      decoded ← base64_decode b64 (decode_cap - 1)
      guard (not (at_end decoded))
      split_colon decoded

-- The loop that compares without regard to where the texts differ: `diff` stays 0 as long as the
-- bytes are equal.
unfoldable pub same_hash : Bytes → Bytes → Bool
same_hash (a ∷ s) (b ∷ t) = let rest = same_hash s t in rest && a == b
same_hash _ _ = true

abbrev pub is_tab_or_space : ℕ → Bool
is_tab_or_space c = c == 32 || c == 9

unfoldable pub any_name : Bytes → List Bytes → Bool
unfolding str_eq
any_name user [] = false
any_name user (name ∷ names) = str_eq name user || any_name user names

unfoldable pub username_in_list : Bytes → Option Bytes → Bool
unfolding any_name tokens
username_in_list user none = false
username_in_list user (some list) = any_name user (tokens is_tab_or_space list)

-- What eval_user_tree keeps while it goes through a list; `seen` is *seen.
pub record Users : Type 0 where
  pub or_match : Bool
  pub and_ok : Bool
  pub seen : Bool

abbrev pub no_users : Users
no_users = record { or_match = false; and_ok = true; seen = false }

-- A constraint that counts.
abbrev pub constrain : Users → Bool → Bool → Users
constrain acc mode ok = record {
  or_match = acc.or_match || (not mode && ok);
  and_ok = acc.and_ok && (not mode || ok);
  seen = true;
}

-- The answer of a level; `mode` is whether all must match.
abbrev pub decide : Bool → Users → Bool
decide true acc = acc.and_ok
decide false acc = acc.or_match

abbrev pub is_all : DirectiveType → Bool
is_all require_all_open = true
is_all _ = false

abbrev pub is_container : DirectiveType → Bool
is_container require_any_open = true
is_container require_all_open = true
is_container _ = false

abbrev pub is_user : DirectiveType → Bool
is_user require_user = true
is_user _ = false

abbrev pub is_valid_user : DirectiveType → Bool
is_valid_user require_valid_user = true
is_valid_user _ = false

-- The argument `sub` evaluates a container, with its mode.
unfoldable pub user_level : (Bool → Directives → Users) → Bytes → Bool → Users → Directives → Users
unfolding username_in_list
user_level sub user mode acc nil = acc
user_level sub user mode acc (cons d ds) =
    let inner = sub (is_all (kind d)) (children_of (payload d)) in
    let next =
      if is_user (kind d)
      then constrain acc mode (username_in_list user (value d))
      else if is_container (kind d) && inner.seen
      then constrain acc mode (decide (is_all (kind d)) inner)
      else acc in
    user_level sub user mode next ds

-- The tree, with the levels of containers that are still read: depth < 2.
unfoldable pub eval_user_tree : ℕ → Bytes → Bool → Directives → Users
unfolding user_level
eval_user_tree zero user mode list = user_level (λ m ch. no_users) user mode no_users list
eval_user_tree (suc levels) user mode list =
    user_level (λ m ch. eval_user_tree levels user m ch) user mode no_users list

unfoldable pub user_satisfies_require : Bytes → Directives → Bool → Bool
unfolding eval_user_tree
user_satisfies_require user directives require_any_valid_user =
    let users = eval_user_tree 2 user false directives in
    require_any_valid_user || not users.seen || decide false users

-- The chunks of a file as fgets reads them into 512 bytes; `room` is what is left of them. The last
-- chunk may be empty.
unfoldable pub fgets_chunks : ℕ → Bytes → Bytes × List Bytes
fgets_chunks room [] = ([], [])
fgets_chunks room (c ∷ s) =
    let ends = c == 10 || leb room 1 in
    let (line, later) = fgets_chunks (if ends then 511 else room - 1) s in
    if ends then (c ∷ [], line ∷ later) else (c ∷ line, later)

-- Without the newlines at its end.
unfoldable pub strip_newlines : Bytes → Bytes
strip_newlines [] = []
strip_newlines (c ∷ s) =
    let rest = strip_newlines s in if at_end rest && (c == 10 || c == 13) then [] else c ∷ rest

-- A line of the file names the user and the hash.
abbrev pub split_line : Bytes → Option (Bytes × Bytes)
split_line line = cut b':' (strip_newlines line)

-- What exec_auth_basic collects.
pub record AuthConfig : Type 0 where
  pub type : Option Bytes
  pub name : Option Bytes
  pub user_file : Option Bytes
  pub needs_user : Bool
  pub any_valid_user : Bool

abbrev pub no_config : AuthConfig
no_config = record {
  type = none;
  name = none;
  user_file = none;
  needs_user = false;
  any_valid_user = false;
}

unfoldable pub has_user : Directives → Bool
has_user nil = false
has_user (cons d ds) = is_valid_user (kind d) || is_user (kind d) || has_user ds

unfoldable pub has_user_below : Directives → Bool
unfolding has_user
has_user_below nil = false
has_user_below (cons d ds) =
    is_valid_user (kind d)
    || is_user (kind d)
    || (is_container (kind d) && has_user (children_of (payload d)))
    || has_user_below ds

abbrev pub collect : AuthConfig → DirectiveType → Directive → AuthConfig
collect c auth_type d = record c { type = value d }
collect c auth_name d = record c { name = value d }
collect c auth_user_file d = record c { user_file = value d }
collect c require_valid_user d = record c { needs_user = true; any_valid_user = true }
collect c require_user d = record c { needs_user = true }
collect c require_any_open d = record c {
  needs_user = c.needs_user || has_user_below (children_of (payload d));
}
collect c require_all_open d = record c {
  needs_user = c.needs_user || has_user_below (children_of (payload d));
}
collect c _ d = c

unfoldable pub collect_config : AuthConfig → Directives → AuthConfig
unfolding has_user_below
collect_config c nil = c
collect_config c (cons d ds) = collect_config (collect c (kind d) d) ds

-- What open and fstat tell of a path that is no symbolic link; `target` is the name of the open
-- file.
pub record Opened : Type 0 where
  pub regular : Bool
  pub target : Bytes
  pub content : Bytes

-- The status, and the realm that is sent with it.
pub record AuthReply : Type 0 where
  pub verdict : Verdict
  pub www_authenticate : Option Bytes

abbrev pub allow : AuthReply
allow = record { verdict = lsi_ok; www_authenticate = none }

abbrev pub refuse : ℕ → Option Bytes → AuthReply
refuse status realm = record { verdict = lsi_error status; www_authenticate = realm }

abbrev pub is_basic : Option Bytes → Bool
is_basic none = false
is_basic (some type) = str_caseeq type (codes "Basic")

abbrev pub lines_of : Bytes → List Bytes
lines_of content = let (line, later) = fgets_chunks 511 content in line ∷ later

abbrev pub credentials_of : Option Bytes → Option (Bytes × Bytes)
credentials_of none = none
credentials_of (some auth_header) = parse_basic_auth auth_header

abbrev pub is_true : Option Bool → Bool
is_true (some true) = true
is_true _ = false

module _ (crypt_r : Bytes → Bytes → Option Bytes) (realpath : Bytes → Option Bytes)
    (open_file : Bytes → Option Opened) where
  -- 1 of the source is some true; NULL of crypt_r is none.
  unfoldable pub htpasswd_check : Bytes → Bytes → Option Bool
  unfolding same_hash
  htpasswd_check hash password = do
    result ← crypt_r password hash
    some (length result == length hash && same_hash result hash)

  abbrev pub line_matches : Bytes → Bytes → Option (Bytes × Bytes) → Bool
  line_matches user pass none = false
  line_matches user pass (some (name, hash)) =
      str_eq name user && is_true (htpasswd_check hash pass)

  -- The loop over the lines.
  unfoldable pub authenticates : Bytes → Bytes → List Bytes → Bool
  unfolding strip_newlines cut
  authenticates user pass [] = false
  authenticates user pass (line ∷ lines) =
      line_matches user pass (split_line line) || authenticates user pass lines

  -- The file, if it lies below the document root when it is resolved and when it is open.
  unfoldable pub open_confined_htpasswd : Option Bytes → Bytes → Option Opened
  unfolding is_below
  open_confined_htpasswd doc_root path = do
    guard (peek path == b'/' && not (occurs (codes "..") path))
    root ← doc_root
    guard (not (at_end root))
    real_auth ← realpath path
    resolved ← realpath root
    guard (is_below real_auth (strip_slashes resolved))
    file ← open_file real_auth
    guard (file.regular && is_below file.target (strip_slashes resolved))
    some file

  -- The checks of the credentials, in the order of the source.
  abbrev pub check_user : AuthConfig → Directives → Bytes × Bytes → Opened → AuthReply
  check_user c directives (user, pass) file =
      if not (authenticates user pass (lines_of file.content))
      then refuse 401 c.name
      else if not (user_satisfies_require user directives c.any_valid_user)
      then refuse 403 none
      else allow

  abbrev pub challenge :
      AuthConfig → Directives → Option Bytes → Bytes → Option (Bytes × Bytes) → AuthReply
  challenge c directives doc_root user_file none = refuse 401 c.name
  challenge c directives doc_root user_file (some credentials) =
      elim (open_confined_htpasswd doc_root user_file) [
        | none ↦ refuse 500 none
        | some file ↦ check_user c directives credentials file
      ]

  abbrev pub with_file :
      AuthConfig → Directives → Option Bytes → Option Bytes → Option Bytes → AuthReply
  with_file c directives doc_root auth_header none = refuse 500 none
  with_file c directives doc_root auth_header (some user_file) =
      challenge c directives doc_root user_file (credentials_of auth_header)

  unfoldable pub exec_auth_basic : Directives → Option Bytes → Option Bytes → AuthReply
  unfolding collect_config parse_basic_auth open_confined_htpasswd authenticates
      user_satisfies_require fgets_chunks
  exec_auth_basic directives doc_root auth_header =
      let c = collect_config no_config directives in
      if not (is_basic c.type) || not c.needs_user
      then allow
      else with_file c directives doc_root auth_header c.user_file

  -- The credentials alone, for src/htaccess_exec_require.c.
  abbrev pub valid_in : Option Opened → Option (Bytes × Bytes) → Bool
  valid_in none credentials = false
  valid_in (some file) none = false
  valid_in (some file) (some (user, pass)) = authenticates user pass (lines_of file.content)

  unfoldable pub check_auth_credentials : Directives → Option Bytes → Option Bytes → Bool
  unfolding collect_config parse_basic_auth open_confined_htpasswd authenticates fgets_chunks
  check_auth_credentials directives doc_root auth_header =
      let c = collect_config no_config directives in
      elim c.user_file [
        | none ↦ false
        | some user_file ↦
            is_basic c.type
            && peek user_file == b'/'
            && valid_in (open_confined_htpasswd doc_root user_file) (credentials_of auth_header)
      ]
