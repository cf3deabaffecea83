-- ===== src/Require/Decision.antt =====
-- What exec_require answers, against a description by the rules that grant.
use litehttpd.Require.{
  is_grant, is_user_rule, has_require, needs_ip, has_valid_user_anywhere, eval_require_any,
  eval_child, evaluate, require_client, exec_require, eval_single_require,
}
use litehttpd.Require.Containers.{SomeGrants, child, eval_require_any_lem}
use litehttpd.Prelude.{
  ◌≡◌, refl, sym, ◌∙◌, ◌↔◌, ◌⊎◌, inl, inr, Bool, true, false, ◌||◌, Option, some, if◌then◌else◌,
  arith,
}
use mathlib.Core.Bool.{false≢true}
use litehttpd.Prelude.Text.{Bytes}
use litehttpd.Acl.{Client}
use litehttpd.Directive.{Directive, directive, Directives, nil, cons, kind}
use litehttpd.Directive.Kind.{require_valid_user, require_user}
use litehttpd.Lsi.{lsi_ok, lsi_error}

or_last : (a b : Bool) → b ≡ true → (a || b) ≡ true
or_last true b h = refl
or_last false b h = h

-- One step of the last loop against one of RequireAny.
same :
    (user auth g b : Bool)
    → (user ≡ true → g ≡ auth)
    → (x y : Bool × Bool) (next : Bool) → x.0 ≡ next
    → y.0 ≡ next
    → (if user then (if auth then (true, true) else x) else if g then (true, b) else y).0
      ≡ (if g then true else next)
same true true g b u x y next hx hy = rw (u refl)
same true false g b u x y next hx hy = rw (u refl) hx
same false auth true b u x y next hx hy = refl
same false auth false b u x y next hx hy = hy

found :
    (user auth g b : Bool) (x y : Bool × Bool) (inside rest : Bool)
    → (x.1 ≡ true → (true ≡ true) ⊎ (rest ≡ true))
    → (y.1 ≡ true → (b ≡ true) ⊎ (rest ≡ true))
    → (if user then (if auth then (true, true) else x) else if g then (true, b) else y).1 ≡ true
    → (b ≡ true) ⊎ (((user || inside) || rest) ≡ true)
found true auth g b x y inside rest hx hy h = inr refl
found false auth true b x y inside rest hx hy h = inl h
found false auth false b x y inside rest hx hy h = elim (hy h) [
  | inl e ↦ inl e
  | inr e ↦ inr (or_last inside rest e)
]

start {ℓ} : {A : Type ℓ} → (false ≡ true) ⊎ A → A
start (inl e) = absurd (false≢true e)
start (inr a) = a

-- The answer from the flags.
passes :
    (granted user anywhere : Bool)
    → (user ≡ true → anywhere ≡ true)
    → ((if granted then lsi_ok else if user || anywhere then lsi_ok else lsi_error 403) ≡ lsi_ok)
      ↔ ((granted ≡ true) ⊎ (anywhere ≡ true))
passes true user anywhere h = (λ _. inl refl, λ _. refl)
passes false true anywhere h = (λ _. inr (h refl), λ _. refl)
passes false false true h = (λ _. inr refl, λ _. refl)
passes false false false h = (λ e. cc, elim [ inl e ↦ cc | inr e ↦ cc ])

module _ (inet_pton6 : Bytes → Option Bytes) (env_is_set : Bytes → Bool) where
  user-child :
      (client : Client) (auth_ok : Bool) (d : Directive)
      → is_user_rule (kind d) ≡ true
      → is_grant (child inet_pton6 env_is_set client auth_ok d) ≡ auth_ok
  unfolding eval_child eval_single_require
  user-child client auth_ok (directive require_valid_user l n v e p) h = ground arith
  user-child client auth_ok (directive require_user l n v e p) h = ground arith
  user-child client auth_ok (directive _ l n v e p) h = cc

  -- The list of an .htaccess file is evaluated like the children of a RequireAny.
  pub evaluate_lem :
      (client : Client) (auth_ok b : Bool) (ds : Directives)
      → (evaluate inet_pton6 env_is_set client auth_ok b ds).0
        ≡ eval_require_any inet_pton6 env_is_set client auth_ok ds
  unfolding evaluate eval_require_any
  evaluate_lem client auth_ok b nil = refl
  evaluate_lem client auth_ok b (cons d ds) =
      same (is_user_rule (kind d)) auth_ok (is_grant (child inet_pton6 env_is_set client auth_ok d))
        b (user-child client auth_ok d) _ _ _ (evaluate_lem client auth_ok true ds)
        (evaluate_lem client auth_ok b ds)

  -- has_valid_user is set only where the earlier search finds a user rule.
  evaluate-user :
      (client : Client) (auth_ok b : Bool) (ds : Directives)
      → (evaluate inet_pton6 env_is_set client auth_ok b ds).1 ≡ true
      → (b ≡ true) ⊎ (has_valid_user_anywhere ds ≡ true)
  unfolding evaluate has_valid_user_anywhere
  evaluate-user client auth_ok b nil h = inl h
  evaluate-user client auth_ok b (cons d ds) h =
      found (is_user_rule (kind d)) auth_ok
        (is_grant (child inet_pton6 env_is_set client auth_ok d)) b _ _ _ _
        (evaluate-user client auth_ok true ds) (evaluate-user client auth_ok b ds) h

  -- Where a Require directive stands and the address that the rules need parses, the request passes
  -- exactly when some rule or container of the list grants, or the search for user rules finds one.
  pub exec_require_lem :
      (ds : Directives) (ip : Option Bytes) (auth_ok : Bool) (client : Client)
      → has_require ds ≡ true
      → require_client inet_pton6 env_is_set (needs_ip ds) ip ≡ some client
      → (exec_require inet_pton6 env_is_set ds ip auth_ok ≡ lsi_ok)
        ↔ (SomeGrants inet_pton6 env_is_set client auth_ok ds ⊎ (has_valid_user_anywhere ds ≡ true))
  unfolding exec_require
  exec_require_lem ds ip auth_ok client hr hc =
      let user : (evaluate inet_pton6 env_is_set client auth_ok false ds).1 ≡ true
          → has_valid_user_anywhere ds ≡ true =
        λ u. start (evaluate-user client auth_ok false ds u) in
      let t =
        passes (evaluate inet_pton6 env_is_set client auth_ok false ds).0 _
          (has_valid_user_anywhere ds) user in
      let e = evaluate_lem client auth_ok false ds in
      let any = eval_require_any_lem inet_pton6 env_is_set client auth_ok ds in
      rw (hr, hc)
        (
          λ h. elim (t.0 h) [ inl a ↦ inl (any.0 (sym e ∙ a)) | inr v ↦ inr v ],
          elim [ inl s ↦ t.1 (inl (e ∙ any.1 s)) | inr v ↦ t.1 (inr v) ],
        )
