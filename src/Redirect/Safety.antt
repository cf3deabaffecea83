-- ===== src/Redirect/Safety.antt =====
-- What src/htaccess_exec_redirect.c sends.
use litehttpd.Prelude.{
  ℕ, ◌+◌, ◌-◌, ◌<◌, ◌≡◌, ◌⊎◌, refl, sym, Bool, true, false, not, ◌&&◌, ◌||◌, Option, none, some, [],
  ◌∷◌, ◌++◌, ltb, leb, ◌==◌, if◌then◌else◌, length, length-append, drop, get_or, arith, inl, inr,
  Bool-cases,
}
use litehttpd.Prelude.Text.{Bytes, at_end, has_char, is_digit}
use litehttpd.Prelude.Maybe.{◌>>=◌, guard, >>=-eq-some}
use litehttpd.Directive.{Directive, kind, name, value, payload, pattern_of}
use litehttpd.Expression.Eval.{MatchResult, htre_match, htre_nomatch, htre_hit_limit, htre_error}
use litehttpd.Redirect.{
  Outcome, failed, passed, gone, redirected, Matches, group_text, substitute_from,
  substitute_backrefs, send, send_fitting, with_tail, redirect_to, redirect_uri, exec_redirect,
  follow, by_match, match_uri, exec_redirect_match, status_code_of, is_redirect, is_redirect_match,
  lacks_target, status_or_found, max_url_len,
}

-- A Location that can be sent: it fits the buffer, and no line ends in it.
abbrev pub IsSafe : Outcome → Type 0
IsSafe (redirected status url) =
    (length url < 4096) × (has_char 13 url ≡ false) × (has_char 10 url ≡ false)
IsSafe _ = Unit

same_text : {a b : Bytes} → some a ≡ some b → a ≡ b
same_text h = cc h

guarded : (n m : ℕ) {u : Unit} → guard (not (leb n m)) ≡ some u → m < n
guarded n m h = ground arith

substitute_nil :
    (uri : Bytes) (matches : Matches) (out_size pos : ℕ) (url : Bytes)
    → substitute_from uri matches out_size pos [] ≡ some url
    → url ≡ []
unfolding substitute_from
substitute_nil uri matches out_size pos url e = sym (same_text e)

substitute_one :
    (uri : Bytes) (matches : Matches) (out_size pos c : ℕ) (url : Bytes)
    → substitute_from uri matches out_size pos (c ∷ []) ≡ some url
    → (url ≡ []) ⊎ ((pos < out_size - 1) × (url ≡ c ∷ []))
unfolding substitute_from
substitute_one uri matches out_size pos c url e = elim (Bool-cases (leb (out_size - 1) pos)) [
  | inl full ↦ inl (sym (same_text (rw (substitute_from, full) at e)))
  | inr room ↦ inr (ground arith, sym (same_text (rw (substitute_from, room) at e)))
]

substitute_cons :
    (uri : Bytes) (matches : Matches) (out_size pos : ℕ) (c d : ℕ) (s url : Bytes)
    → substitute_from uri matches out_size pos (c ∷ d ∷ s) ≡ some url
    → (url ≡ [])
      ⊎ ((pos < out_size - 1)
          × (((rest : Bytes) × (substitute_from uri matches out_size (pos + 1) (d ∷ s) ≡ some rest)
                × (url ≡ c ∷ rest))
              ⊎ ((group : Bytes) × (rest : Bytes) × (pos + length group < out_size)
                  × (substitute_from uri matches out_size (pos + length group) s ≡ some rest)
                  × (url ≡ group ++ rest))))
unfolding substitute_from
substitute_cons uri matches out_size pos c d s url e = elim (Bool-cases (leb (out_size - 1) pos)) [
  | inl full ↦ inl (sym (same_text (rw (substitute_from, full) at e)))
  | inr room ↦ elim (Bool-cases (c == b'$' && is_digit d)) [
    | inr plain ↦
        let (rest, f, g) =
          >>=-eq-some (substitute_from uri matches out_size (pos + 1) (d ∷ s))
            (λ rest. some (c ∷ rest)) (rw (substitute_from, room, plain) at e) in
        inr (ground arith, inl (rest, f, sym (same_text g)))
    | inl reference ↦
        let group = group_text uri (get_or matches (d - b'0') none) in
        let (u, ok, h) =
          >>=-eq-some (guard (not (leb out_size (pos + length group))))
            (λ _. substitute_from uri matches out_size (pos + length group) s >>= λ rest.
              some (group ++ rest))
            (rw (substitute_from, room, reference) at e) in
        let (rest, f, g) =
          >>=-eq-some (substitute_from uri matches out_size (pos + length group) s)
            (λ rest. some (group ++ rest)) h in
        inr (
          ground arith,
          inr (group, rest, guarded out_size (pos + length group) ok, f, sym (same_text g)),
        )
  ]
]

substitute-lt :
    (tmpl uri : Bytes) (matches : Matches) (out_size pos : ℕ) (url : Bytes)
    → pos < out_size
    → substitute_from uri matches out_size pos tmpl ≡ some url
    → pos + length url < out_size
substitute-lt [] uri matches out_size pos url h e =
    rw (substitute_nil uri matches out_size pos url e) (omega arith)
substitute-lt (c ∷ []) uri matches out_size pos url h e =
    elim (substitute_one uri matches out_size pos c url e) [
      | inl empty ↦ rw empty (omega arith)
      | inr (room, eq) ↦ rw eq (omega arith)
    ]
substitute-lt (c ∷ d ∷ s) uri matches out_size pos url h e =
    elim (substitute_cons uri matches out_size pos c d s url e) [
      | inl empty ↦ rw empty (omega arith)
      | inr (room, inl (rest, f, eq)) ↦
          rw eq (
            omega
              (arith, substitute-lt (d ∷ s) uri matches out_size (pos + 1) rest (omega arith) f))
      | inr (room, inr (group, rest, fits, f, eq)) ↦ rw eq (
          omega (
            arith,
            length-append group rest,
            substitute-lt s uri matches out_size (pos + length group) rest fits f,
          ))
    ]

-- What substitute_backrefs writes fits its buffer with its NUL, whatever the template and the
-- groups of the match are.
pub substitute_backrefs-lt :
    (tmpl uri : Bytes) (matches : Matches) (out_size : ℕ) (url : Bytes)
    → 0 < out_size
    → substitute_backrefs tmpl uri matches out_size ≡ some url
    → length url < out_size
unfolding substitute_backrefs
substitute_backrefs-lt tmpl uri matches out_size url h e =
    omega (arith, substitute-lt tmpl uri matches out_size 0 url h e)

send-IsSafe : (status : ℕ) (url : Bytes) → length url < 4096 → IsSafe (send status url)
send-IsSafe status url h = elim (Bool-cases (has_char 13 url)) [
  | inl cr ↦ rw cr tt
  | inr no_cr ↦ elim (Bool-cases (has_char 10 url)) [
    | inl lf ↦ rw (no_cr, lf) tt
    | inr no_lf ↦ rw (no_cr, no_lf) (h, no_cr, no_lf)
  ]
]

fitting-IsSafe : (status : ℕ) (url : Bytes) → IsSafe (send_fitting status url)
fitting-IsSafe status url = elim (Bool-cases (leb 4096 (length url))) [
  | inl long ↦ rw long tt
  | inr short ↦ rw short (send-IsSafe status url (ground arith))
]

to_safe :
    (status : ℕ) (target : Option Bytes) (uri prefix : Bytes)
    → IsSafe (redirect_to status target uri prefix)
to_safe status none uri prefix = elim (Bool-cases (status == 410)) [
  | inl same ↦ rw (redirect_to, same) tt
  | inr other ↦ rw (redirect_to, other) tt
]
to_safe status (some url) uri prefix = elim (Bool-cases (status == 410)) [
  | inl same ↦ rw (redirect_to, same) tt
  | inr other ↦
      rw (redirect_to, other) (fitting-IsSafe _ (with_tail url (drop (length prefix) uri)))
]

if_IsSafe : (b : Bool) (o p : Outcome) → IsSafe o → IsSafe p → IsSafe (if b then o else p)
if_IsSafe true o p h k = h
if_IsSafe false o p h k = k

uri-IsSafe :
    (status : ℕ) (target : Option Bytes) (prefix : Bytes) (uri : Option Bytes)
    → IsSafe (redirect_uri status target prefix uri)
uri-IsSafe status target prefix none = tt
uri-IsSafe status target prefix (some uri) =
    if_IsSafe _ passed _ tt (to_safe status target uri prefix)

sent-IsSafe :
    (status : ℕ) (o : Option Bytes)
    → ((url : Bytes) → o ≡ some url → length url < 4096)
    → IsSafe (elim o [ none ↦ failed | some url ↦ send (status_or_found status) url ])
sent-IsSafe status none h = tt
sent-IsSafe status (some url) h = send-IsSafe (status_or_found status) url (h url refl)

follow-IsSafe :
    (status : ℕ) (target : Option Bytes) (uri : Bytes) (matches : Matches)
    → IsSafe (follow status target uri matches)
follow-IsSafe status none uri matches = if_IsSafe (status == 410) gone failed tt tt
follow-IsSafe status (some tmpl) uri matches = if_IsSafe (status == 410) gone _ tt (
    sent-IsSafe status (substitute_backrefs tmpl uri matches max_url_len)
      (λ url. substitute_backrefs-lt tmpl uri matches max_url_len url (omega arith)))

match-IsSafe :
    (status : ℕ) (target : Option Bytes) (uri : Bytes) (o : Option (MatchResult × Matches))
    → IsSafe (by_match status target uri o)
match-IsSafe status target uri none = tt
match-IsSafe status target uri (some (htre_match, matches)) =
    follow-IsSafe status target uri matches
match-IsSafe status target uri (some (htre_nomatch, matches)) = tt
match-IsSafe status target uri (some (htre_hit_limit, matches)) = tt
match-IsSafe status target uri (some (htre_error, matches)) = tt

named-IsSafe :
    (dir : Directive) (uri o : Option Bytes)
    → IsSafe (elim o [
      | none ↦ failed
      | some prefix ↦
          if not (is_redirect (kind dir)) || lacks_target (status_code_of (payload dir)) (value dir)
          then failed
          else redirect_uri (status_code_of (payload dir)) (value dir) prefix uri
    ])
named-IsSafe dir uri none = tt
named-IsSafe dir uri (some prefix) =
    if_IsSafe _ failed _ tt (uri-IsSafe (status_code_of (payload dir)) (value dir) prefix uri)

-- Whatever the request and the directive are, the URL of a redirection is shorter than 4096 bytes
-- and holds no CR and no LF.
pub exec_redirect-IsSafe : (dir : Directive) (uri : Option Bytes) → IsSafe (exec_redirect dir uri)
unfolding exec_redirect
exec_redirect-IsSafe dir uri = named-IsSafe dir uri (name dir)

module _ (htre : Bytes → Bytes → Option (MatchResult × Matches)) where
  uri_match-IsSafe :
      (status : ℕ) (target : Option Bytes) (pattern : Bytes) (uri : Option Bytes)
      → IsSafe (match_uri htre status target pattern uri)
  uri_match-IsSafe status target pattern none = tt
  uri_match-IsSafe status target pattern (some uri) =
      if_IsSafe (at_end uri) passed _ tt (match-IsSafe status target uri (htre pattern uri))

  pattern-IsSafe :
      (dir : Directive) (uri o : Option Bytes)
      → IsSafe (elim o [
        | none ↦ failed
        | some pattern ↦
            if not (is_redirect_match (kind dir))
              || lacks_target (status_code_of (payload dir)) (value dir)
              || ltb 512 (length pattern)
            then failed
            else match_uri htre (status_code_of (payload dir)) (value dir) pattern uri
      ])
  pattern-IsSafe dir uri none = tt
  pattern-IsSafe dir uri (some pattern) =
      if_IsSafe _ failed _ tt
        (uri_match-IsSafe (status_code_of (payload dir)) (value dir) pattern uri)

  -- Whatever the request, the directive and the match are, the URL of a redirection by
  -- RedirectMatch is shorter than 4096 bytes and holds no CR and no LF.
  pub exec_redirect_match-IsSafe :
      (dir : Directive) (uri : Option Bytes) → IsSafe (exec_redirect_match htre dir uri)
  unfolding exec_redirect_match
  exec_redirect_match-IsSafe dir uri = pattern-IsSafe dir uri (pattern_of (payload dir))
