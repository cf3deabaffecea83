-- ===== src/Require/Containers.antt =====
-- RequireAny and RequireAll of src/htaccess_exec_require.c, against a description by the children.
use litehttpd.Require.{
  Grant, grant, deny, defer, unknown, is_grant, eval_require_any, eval_require_all, eval_child,
}
use litehttpd.Prelude.{◌≡◌, refl, ◌↔◌, ◌⊎◌, inl, inr, Bool, true, false, Option, if◌then◌else◌}
use mathlib.Core.Bool.{false≢true}
use litehttpd.Prelude.Text.{Bytes}
use litehttpd.Acl.{Client}
use litehttpd.Directive.{Directive, Directives, nil, cons}

-- A directive of the list.
pub data In : Directive → Directives → Type 0 where
  here : {d : Directive} {ds : Directives} → In d (cons d ds)
  there : {d e : Directive} {ds : Directives} → In d ds → In d (cons e ds)

pub is_grant-eq : (g : Grant) → is_grant g ≡ true → g ≡ grant
is_grant-eq grant h = refl
is_grant-eq deny h = cc
is_grant-eq defer h = cc
is_grant-eq unknown h = cc

module _ (inet_pton6 : Bytes → Option Bytes) (env_is_set : Bytes → Bool) (client : Client)
    (auth_ok : Bool) where
  abbrev pub child : Directive → Grant
  child d = eval_child inet_pton6 env_is_set client auth_ok d

  abbrev pub SomeGrants : Directives → Type 0
  SomeGrants ds = (d : Directive) × In d ds × (child d ≡ grant)

  abbrev pub NoneRefuses : Directives → Type 0
  NoneRefuses ds = (d : Directive) → In d ds → (child d ≡ grant) ⊎ (child d ≡ defer)

  any_step :
      (g : Grant) (b : Bool) → (if is_grant g then true else b) ≡ true → (g ≡ grant) ⊎ (b ≡ true)
  any_step grant b h = inl refl
  any_step deny b h = inr h
  any_step defer b h = inr h
  any_step unknown b h = inr h

  any_later : (g : Grant) (b : Bool) → b ≡ true → (if is_grant g then true else b) ≡ true
  any_later grant b h = refl
  any_later deny b h = h
  any_later defer b h = h
  any_later unknown b h = h

  any_sound :
      (ds : Directives)
      → eval_require_any inet_pton6 env_is_set client auth_ok ds ≡ true
      → SomeGrants ds
  unfolding eval_require_any
  any_sound nil h = absurd (false≢true h)
  any_sound (cons d ds) h = elim (any_step (child d) _ h) [
    | inl e ↦ (d, here, e)
    | inr e ↦ let (d', m, g) = any_sound ds e in (d', there m, g)
  ]

  any_complete :
      (ds : Directives) (d : Directive)
      → In d ds
      → child d ≡ grant
      → eval_require_any inet_pton6 env_is_set client auth_ok ds ≡ true
  unfolding eval_require_any
  any_complete nil d m g = elim m [ ]
  any_complete (cons e ds) _ here g = rw g
  any_complete (cons e ds) d (there m) g = any_later (child e) _ (any_complete ds d m g)

  -- A RequireAny grants exactly when one of its children grants.
  pub eval_require_any_lem :
      (ds : Directives)
      → (eval_require_any inet_pton6 env_is_set client auth_ok ds ≡ true) ↔ SomeGrants ds
  eval_require_any_lem ds = (any_sound ds, λ p. let (d, m, g) = p in any_complete ds d m g)

  all_sound :
      (ds : Directives) (b : Bool)
      → eval_require_all inet_pton6 env_is_set client auth_ok ds b ≡ true
      → NoneRefuses ds × ((b ≡ true) ⊎ SomeGrants ds)
  unfolding eval_require_all
  all_sound nil b h = (λ d m. elim m [ ], inl h)
  all_sound (cons d ds) b h = go (λ c. all_sound ds c) (child d) refl h
    where
      all : ((child d ≡ grant) ⊎ (child d ≡ defer)) → NoneRefuses ds → NoneRefuses (cons d ds)
      all g f _ here = g
      all g f e (there m) = f e m

      go :
          ((c : Bool)
            → eval_require_all inet_pton6 env_is_set client auth_ok ds c ≡ true
            → NoneRefuses ds × ((c ≡ true) ⊎ SomeGrants ds))
          → (g : Grant) → child d ≡ g
          → (elim g [
            | grant ↦ eval_require_all inet_pton6 env_is_set client auth_ok ds true
            | deny ↦ false
            | defer ↦ eval_require_all inet_pton6 env_is_set client auth_ok ds b
            | unknown ↦ false
          ])
            ≡ true
          → NoneRefuses (cons d ds) × ((b ≡ true) ⊎ SomeGrants (cons d ds))
      go ih grant e h' = (all (inl e) (ih true h').0, inr (d, here, e))
      go ih deny e h' = absurd (false≢true h')
      go ih defer e h' =
          let (f, s) = ih b h' in
          elim s [
            | inl q ↦ (all (inr e) f, inl q)
            | inr (d', m, g) ↦ (all (inr e) f, inr (d', there m, g))
          ]
      go ih unknown e h' = absurd (false≢true h')

  all_complete :
      (ds : Directives) (b : Bool)
      → NoneRefuses ds
      → (b ≡ true) ⊎ SomeGrants ds
      → eval_require_all inet_pton6 env_is_set client auth_ok ds b ≡ true
  unfolding eval_require_all
  all_complete nil b f (inl h) = h
  all_complete nil b f (inr (d, m, g)) = elim m [ ]
  all_complete (cons d ds) b f s = elim (f d here) [
    | inl e ↦ rw e (all_complete ds true (λ d' m. f d' (there m)) (inl refl))
    | inr e ↦ rw e (all_complete ds b (λ d' m. f d' (there m)) (behind e s))
  ]
    where
      behind : child d ≡ defer → (b ≡ true) ⊎ SomeGrants (cons d ds) → (b ≡ true) ⊎ SomeGrants ds
      behind e (inl q) = inl q
      behind e (inr (_, here, g)) = cc (e, g)
      behind e (inr (d', there m, g)) = inr (d', m, g)

  -- A RequireAll grants exactly when one of its children grants and every other child grants or
  -- defers to the authentication.
  pub eval_require_all_lem :
      (ds : Directives)
      → (eval_require_all inet_pton6 env_is_set client auth_ok ds false ≡ true)
        ↔ (SomeGrants ds × NoneRefuses ds)
  eval_require_all_lem ds = (
    λ h.
        let (f, s) = all_sound ds false h in
        (elim s [ inl q ↦ absurd (false≢true q) | inr g ↦ g ], f),
    λ p. all_complete ds false p.1 (inr p.0),
  )
