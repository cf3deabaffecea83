-- ===== src/Auth/Decision.antt =====
-- Who passes exec_auth_basic of src/htaccess_exec_auth.c.
use litehttpd.Prelude.{
  ℕ, ◌≡◌, ◌⊎◌, refl, ap, ◌∙◌, Bool, true, false, ◌&&◌, ◌||◌, Option, none, some, List, [], ◌∷◌,
  ◌==◌, length, arith, inl, inr, Bool-cases,
}
use litehttpd.Prelude.Text.{Bytes, str_eq, str_eq_iff}
use litehttpd.Prelude.Maybe.{>>=-eq-some}
use litehttpd.Directive.{Directives}
use litehttpd.Auth.Confined.{both, IsConfined, open_confined_htpasswd-IsConfined}
use litehttpd.Lsi.{lsi_ok, lsi_error}
use litehttpd.Auth.{
  no_config, collect_config, Opened, is_basic, same_hash, user_satisfies_require, htpasswd_check,
  is_true, line_matches, split_line, authenticates, lines_of, open_confined_htpasswd, check_user,
  challenge, credentials_of, with_file, exec_auth_basic,
}

same_hash-eq : (s t : Bytes) → length s ≡ length t → same_hash s t ≡ true → s ≡ t
unfolding same_hash
same_hash-eq [] [] h k = refl
same_hash-eq [] (b ∷ t) h k = absurd (omega arith)
same_hash-eq (a ∷ s) [] h k = absurd (omega arith)
same_hash-eq (a ∷ s) (b ∷ t) h k = ground (arith, same_hash-eq s t)

refused : {n : ℕ} → lsi_error n ≡ lsi_ok → ⊥
refused h = cc h

checked :
    (s t : Bytes)
    → some (length s == length t && same_hash s t) ≡ some true
    → (length s ≡ length t) × (same_hash s t ≡ true)
checked s t h = ground arith

is_true-eq : (o : Option Bool) → is_true o ≡ true → o ≡ some true
is_true-eq none h = cc h
is_true-eq (some true) h = refl
is_true-eq (some false) h = cc h

either : (a b : Bool) → (a || b) ≡ true → (a ≡ true) ⊎ (b ≡ true)
either true b h = inl refl
either false b h = inr h

module _ (crypt_r : Bytes → Bytes → Option Bytes) (realpath : Bytes → Option Bytes)
    (open_file : Bytes → Option Opened) where
  -- A password that is accepted hashes to the hash that is stored.
  htpasswd_check_sound :
      (hash pass : Bytes)
      → htpasswd_check crypt_r realpath open_file hash pass ≡ some true
      → crypt_r pass hash ≡ some hash
  unfolding htpasswd_check
  htpasswd_check_sound hash pass h =
      let (result, e, k) = >>=-eq-some (crypt_r pass hash) _ h in
      e ∙ ap some (same_hash-eq result hash (checked result hash k).0 (checked result hash k).1)

  -- A line of the list that gives the user this password.
  pub data Holds (user pass : Bytes) : List Bytes → Type 0 where
    here :
        {line : Bytes} {lines : List Bytes} (hash : Bytes)
        → split_line line ≡ some (user, hash)
        → crypt_r pass hash ≡ some hash
        → Holds user pass (line ∷ lines)
    there :
        {line : Bytes} {lines : List Bytes} → Holds user pass lines → Holds user pass (line ∷ lines)

  match_found :
      (user pass line : Bytes) (lines : List Bytes) (o : Option (Bytes × Bytes))
      → split_line line ≡ o
      → line_matches crypt_r realpath open_file user pass o ≡ true
      → Holds user pass (line ∷ lines)
  match_found user pass line lines none e h = cc h
  match_found user pass line lines (some (name, hash)) e h =
      let (same, good) =
        both (str_eq name user) (is_true (htpasswd_check crypt_r realpath open_file hash pass)) h in
      let eq : some (name, hash) ≡ some (user, hash) =
        ap (λ n. some (n, hash)) ((str_eq_iff name user).0 same) in
      here hash (e ∙ eq) (htpasswd_check_sound hash pass (is_true-eq _ good))

  authenticates-Holds :
      (user pass : Bytes) (lines : List Bytes)
      → authenticates crypt_r realpath open_file user pass lines ≡ true
      → Holds user pass lines
  unfolding authenticates
  authenticates-Holds user pass [] h = cc h
  authenticates-Holds user pass (line ∷ lines) h =
      elim (either (line_matches crypt_r realpath open_file user pass (split_line line))
        (authenticates crypt_r realpath open_file user pass lines) h) [
          | inl found ↦ match_found user pass line lines (split_line line) refl found
          | inr later ↦ there (authenticates-Holds user pass lines later)
        ]

  -- What must be so for a request that is let through.
  pub record IsGranted (directives : Directives) (doc_root auth_header : Option Bytes)
      : Type 0 where
    pub user : Bytes
    pub pass : Bytes
    pub path : Bytes
    pub file : Opened
    pub configured : (collect_config no_config directives).user_file ≡ some path
    pub sent : credentials_of auth_header ≡ some (user, pass)
    pub confined : IsConfined crypt_r realpath open_file doc_root path file
    pub known : Holds user pass (lines_of file.content)
    pub permitted :
        user_satisfies_require user directives (collect_config no_config directives).any_valid_user
        ≡ true

  user-IsGranted :
      (directives : Directives) (doc_root auth_header : Option Bytes) (path user pass : Bytes)
      (file : Opened)
      → (collect_config no_config directives).user_file ≡ some path
      → credentials_of auth_header ≡ some (user, pass)
      → open_confined_htpasswd crypt_r realpath open_file doc_root path ≡ some file
      → (check_user crypt_r realpath open_file
          (collect_config no_config directives)
          directives
          (user, pass)
          file).verdict
        ≡ lsi_ok
      → IsGranted directives doc_root auth_header
  user-IsGranted directives doc_root auth_header path user pass file p q r h =
      elim (Bool-cases
        (authenticates crypt_r realpath open_file user pass (lines_of file.content))) [
          | inr stranger ↦ absurd (refused (rw stranger at h))
          | inl authenticated ↦
              elim (Bool-cases (
                user_satisfies_require user directives
                  (collect_config no_config directives).any_valid_user)) [
                    | inr forbidden ↦ absurd (refused (rw (authenticated, forbidden) at h))
                    | inl satisfied ↦ record {
                      user = user;
                      pass = pass;
                      path = path;
                      file = file;
                      configured = p;
                      sent = q;
                      confined =
                          open_confined_htpasswd-IsConfined crypt_r realpath open_file doc_root path
                            file r;
                      known = authenticates-Holds user pass (lines_of file.content) authenticated;
                      permitted = satisfied;
                    }
                  ]
        ]

  opened-IsGranted :
      (directives : Directives) (doc_root auth_header : Option Bytes) (path : Bytes)
      (credentials : Option (Bytes × Bytes)) (file : Option Opened)
      → (collect_config no_config directives).user_file ≡ some path
      → credentials_of auth_header ≡ credentials
      → open_confined_htpasswd crypt_r realpath open_file doc_root path ≡ file
      → (challenge crypt_r realpath open_file
          (collect_config no_config directives)
          directives
          doc_root
          path
          credentials).verdict
        ≡ lsi_ok
      → IsGranted directives doc_root auth_header
  opened-IsGranted directives doc_root auth_header path none file p q r h = absurd (refused h)
  opened-IsGranted directives doc_root auth_header path (some (user, pass)) none p q r h =
      absurd (refused (rw (challenge, r) at h))
  opened-IsGranted directives doc_root auth_header path (some (user, pass)) (some file) p q r h =
      user-IsGranted directives doc_root auth_header path user pass file p q r
        (rw (challenge, r) at h)

  file-IsGranted :
      (directives : Directives) (doc_root auth_header user_file : Option Bytes)
      → (collect_config no_config directives).user_file ≡ user_file
      → (with_file crypt_r realpath open_file
          (collect_config no_config directives)
          directives
          doc_root
          auth_header
          user_file).verdict
        ≡ lsi_ok
      → IsGranted directives doc_root auth_header
  file-IsGranted directives doc_root auth_header none p h = absurd (refused h)
  file-IsGranted directives doc_root auth_header (some path) p h =
      opened-IsGranted directives doc_root auth_header path (credentials_of auth_header)
        (open_confined_htpasswd crypt_r realpath open_file doc_root path) p refl refl h

  -- If the directives ask for AuthType Basic and for a user, then exec_auth_basic lets only
  -- requests through that send a user and a password for which the AuthUserFile, opened below the
  -- document root, holds a line with a hash that crypt_r gives for the password again, and whose
  -- user meets the Require directives.
  pub exec_auth_basic-IsGranted :
      (directives : Directives) (doc_root auth_header : Option Bytes)
      → is_basic (collect_config no_config directives).type ≡ true
      → (collect_config no_config directives).needs_user ≡ true
      → (exec_auth_basic crypt_r realpath open_file directives doc_root auth_header).verdict
        ≡ lsi_ok
      → IsGranted directives doc_root auth_header
  unfolding exec_auth_basic
  exec_auth_basic-IsGranted directives doc_root auth_header basic needed ok =
      let c = collect_config no_config directives in
      file-IsGranted directives doc_root auth_header c.user_file refl (rw (basic, needed) at ok)
