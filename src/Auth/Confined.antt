-- ===== src/Auth/Confined.antt =====
-- Which file open_confined_htpasswd of src/htaccess_exec_auth.c opens.
use litehttpd.Prelude.{
  ◌≡◌, ◌⊎◌, refl, sym, ◌++◌, drop, ap, ◌∙◌, Bool, true, false, not, ◌&&◌, ◌||◌, Option, none, some,
  [], ◌∷◌, ◌==◌, length, arith, inl, inr, Option-cases, subst,
}
use litehttpd.Prelude.Text.{Bytes, codes, occurs, at_end, peek, starts_with}
use litehttpd.Prelude.Maybe.{◌>>=◌, ◌>>◌, guard}
use litehttpd.Dirwalk.Paths.{is_below, strip_slashes}
use litehttpd.Auth.{Opened, open_confined_htpasswd}

guard-true :
    (b : Bool) (f : Unit {0} → Option Opened) {file : Opened}
    → (guard b >>= f) ≡ some file
    → b ≡ true
guard-true true f h = refl
guard-true false f h = cc h

missing : {file : Opened} → ◌≡◌ {A = Option Opened} none (some file) → ⊥
missing h = cc h

same_file : {f g : Opened} → some f ≡ some g → f ≡ g
same_file h = cc h

starts_with-append : (s t : Bytes) → starts_with s t ≡ true → s ≡ t ++ drop (length t) s
unfolding starts_with
starts_with-append s [] h = refl
starts_with-append [] (b ∷ t) h = cc h
starts_with-append (a ∷ s) (b ∷ t) h = ground (arith, starts_with-append s t)

at_slash :
    (rest : Bytes)
    → (at_end rest || peek rest == b'/') ≡ true
    → (rest ≡ []) ⊎ ((s : Bytes) × (rest ≡ b'/' ∷ s))
at_slash [] h = inl refl
at_slash (c ∷ s) h = inr (s, ap (λ n. n ∷ s) (ground arith))

pub both : (a b : Bool) → (a && b) ≡ true → (a ≡ true) × (b ≡ true)
both true b h = (refl, h)
both false b h = (cc h, cc h)

-- The path is the directory, or stands in it behind a slash.
abbrev pub IsBelow : Bytes → Bytes → Type 0
IsBelow path dir =
    (rest : Bytes) × (path ≡ dir ++ rest) × ((rest ≡ []) ⊎ ((s : Bytes) × (rest ≡ b'/' ∷ s)))

is_below-IsBelow : (path dir : Bytes) → is_below path dir ≡ true → IsBelow path dir
unfolding is_below
is_below-IsBelow path dir h =
    let (front, end) = both (starts_with path dir) _ h in
    (drop (length dir) path, starts_with-append path dir front, at_slash _ end)

module _ (crypt_r : Bytes → Bytes → Option Bytes) (realpath : Bytes → Option Bytes)
    (open_file : Bytes → Option Opened) where
  -- The file that is opened for the path is a regular one. Where the path and the document root
  -- lead, resolved, and where the open file is, lies below the document root.
  pub record IsConfined (doc_root : Option Bytes) (path : Bytes) (file : Opened) : Type 0 where
    pub root : Bytes
    pub real_root : Bytes
    pub real_auth : Bytes
    pub rooted : doc_root ≡ some root
    pub root_resolved : realpath root ≡ some real_root
    pub path_resolved : realpath path ≡ some real_auth
    pub resolved_below : IsBelow real_auth (strip_slashes real_root)
    pub opened : open_file real_auth ≡ some file
    pub regular : file.regular ≡ true
    pub opened_below : IsBelow file.target (strip_slashes real_root)

  -- The checks on the resolved paths.
  checked-IsConfined :
      (doc_root : Option Bytes) (path root real_auth real_root : Bytes) (file : Opened)
      → doc_root ≡ some root
      → realpath path ≡ some real_auth
      → realpath root ≡ some real_root
      → (do
        guard (is_below real_auth (strip_slashes real_root))
        f ← open_file real_auth
        guard (f.regular && is_below f.target (strip_slashes real_root))
        some f)
        ≡ some file
      → IsConfined doc_root path file
  checked-IsConfined doc_root path root real_auth real_root file p q r h =
      let below = guard-true (is_below real_auth (strip_slashes real_root)) _ h in
      elim (Option-cases (open_file real_auth)) [
        | inl e ↦ absurd (missing (rw (below, e) at h))
        | inr (f, e) ↦
            let checked =
              guard-true (f.regular && is_below f.target (strip_slashes real_root)) _
                (rw (below, e) at h) in
            let same = same_file (rw (below, e, checked) at h) in
            let (regular, target) = both f.regular _ checked in
            record {
              root = root;
              real_root = real_root;
              real_auth = real_auth;
              rooted = p;
              root_resolved = r;
              path_resolved = q;
              resolved_below = is_below-IsBelow real_auth (strip_slashes real_root) below;
              opened = e ∙ ap some same;
              regular = ap (λ (g : Opened). g.regular) (sym same) ∙ regular;
              opened_below =
                  subst (λ (g : Opened). IsBelow g.target (strip_slashes real_root)) same
                    (is_below-IsBelow f.target (strip_slashes real_root) target);
            }
      ]

  pub open_confined_htpasswd-IsConfined :
      (doc_root : Option Bytes) (path : Bytes) (file : Opened)
      → open_confined_htpasswd crypt_r realpath open_file doc_root path ≡ some file
      → IsConfined doc_root path file
  unfolding open_confined_htpasswd
  open_confined_htpasswd-IsConfined doc_root path file h =
      let absolute = guard-true (peek path == b'/' && not (occurs (codes "..") path)) _ h in
      elim (Option-cases doc_root) [
        | inl e ↦ absurd (missing (rw (open_confined_htpasswd, absolute, e) at h))
        | inr (root, p) ↦
            let nonempty =
              guard-true (not (at_end root)) _ (rw (open_confined_htpasswd, absolute, p) at h) in
            elim (Option-cases (realpath path)) [
              | inl e ↦
                  absurd (missing (rw (open_confined_htpasswd, absolute, p, nonempty, e) at h))
              | inr (real_auth, q) ↦ elim (Option-cases (realpath root)) [
                | inl e ↦
                    absurd (missing (rw (open_confined_htpasswd, absolute, p, nonempty, q, e) at h))
                | inr (real_root, r) ↦
                    checked-IsConfined doc_root path root real_auth real_root file p q r
                      (rw (open_confined_htpasswd, absolute, p, nonempty, q, r) at h)
              ]
            ]
      ]
