-- ===== src/Acl/Decision.antt =====
-- What the rules of exec_access_control decide, against a description by the rules that match.
use litehttpd.Acl.{
  Client, Rule, order_rule, allow_rule, deny_rule, other_rule, rule_of, last_order, verdict,
  is_denied, ip_matches_rule, allows, denies, match_rules, parse_client, exec_access_control,
}
use mathlib.Core.Bool.{◌||◌, false≢true}
use litehttpd.Prelude.{
  ◌≡◌, refl, ◌↔◌, ◌⊎◌, inl, inr, Bool, true, false, Option, none, some, ap, sym, ◌∙◌, [], ◌∷◌,
}
use litehttpd.Prelude.Text.{Bytes, at_end, has_char}
use litehttpd.Cidr.Wf.{ip_parse-nil}
use litehttpd.Directive.{
  AclOrder, order_allow_deny, order_deny_allow, Directive, Directives, nil, cons,
}
use litehttpd.Lsi.{lsi_ok, lsi_error}

-- A directive of the list that is the rule.
pub data HasRule : Rule → Directives → Type 0 where
  here : {r : Rule} {d : Directive} {ds : Directives} → rule_of d ≡ r → HasRule r (cons d ds)
  there : {r : Rule} {d : Directive} {ds : Directives} → HasRule r ds → HasRule r (cons d ds)

or_inv : (a b : Bool) → (a || b) ≡ true → (a ≡ true) ⊎ (b ≡ true)
or_inv true b h = inl refl
or_inv false b h = inr h

or_left : (a b : Bool) → a ≡ true → (a || b) ≡ true
or_left a b h = rw h

or_right : (a b : Bool) → b ≡ true → (a || b) ≡ true
or_right true b h = refl
or_right false b h = h

-- The loops begin with the flags down.
start {ℓ} : {A : Type ℓ} → (false ≡ true) ⊎ A → A
start (inl e) = absurd (false≢true e)
start (inr a) = a

allow_deny_iff :
    (a d : Bool) → (verdict (is_denied order_allow_deny a d) ≡ lsi_ok) ↔ ((a ≡ true) × ¬ (d ≡ true))
unfolding is_denied
allow_deny_iff true true = (λ h. cc, λ p. absurd (p.1 refl))
allow_deny_iff true false = (λ h. (refl, false≢true), λ p. refl)
allow_deny_iff false d = (λ h. cc, λ p. absurd (false≢true p.0))

deny_allow_iff :
    (a d : Bool)
    → (verdict (is_denied order_deny_allow a d) ≡ lsi_error 403) ↔ ((d ≡ true) × ¬ (a ≡ true))
unfolding is_denied
deny_allow_iff true true = (λ h. cc, λ p. absurd (p.1 refl))
deny_allow_iff false true = (λ h. (refl, false≢true), λ p. refl)
deny_allow_iff a false = (λ h. cc, λ p. absurd (false≢true p.0))

module _ (inet_pton6 : Bytes → Option Bytes) where
  -- Some Allow from, and some Deny from, covers the client.
  abbrev pub IsAllowed : Client → Directives → Type 0
  IsAllowed client ds =
      (v : Bytes) × HasRule (allow_rule v) ds × (ip_matches_rule inet_pton6 client v ≡ true)

  abbrev pub IsDenied : Client → Directives → Type 0
  IsDenied client ds =
      (v : Bytes) × HasRule (deny_rule v) ds × (ip_matches_rule inet_pton6 client v ≡ true)

  allows_inv :
      (client : Client) (r : Rule)
      → allows inet_pton6 client r ≡ true
      → (v : Bytes) × (r ≡ allow_rule v) × (ip_matches_rule inet_pton6 client v ≡ true)
  allows_inv client (allow_rule v) h = (v, refl, h)
  allows_inv client (deny_rule v) h = cc
  allows_inv client (order_rule o) h = cc
  allows_inv client other_rule h = cc

  denies_inv :
      (client : Client) (r : Rule)
      → denies inet_pton6 client r ≡ true
      → (v : Bytes) × (r ≡ deny_rule v) × (ip_matches_rule inet_pton6 client v ≡ true)
  denies_inv client (deny_rule v) h = (v, refl, h)
  denies_inv client (allow_rule v) h = cc
  denies_inv client (order_rule o) h = cc
  denies_inv client other_rule h = cc

  -- The flags of the loop start out as given and are set by the rules that match.
  match_rules-allow :
      (client : Client) (a d : Bool) (ds : Directives)
      → ((match_rules inet_pton6 client a d ds).0 ≡ true) ↔ ((a ≡ true) ⊎ IsAllowed client ds)
  unfolding match_rules
  match_rules-allow client a d nil = (λ h. inl h, elim [ inl h ↦ h | inr (v, m, h) ↦ elim m [ ] ])
  match_rules-allow client a d (cons r ds) =
      let ih =
        match_rules-allow client (allows inet_pton6 client (rule_of r) || a)
          (denies inet_pton6 client (rule_of r) || d) ds in
      (
        λ h. elim (ih.0 h) [
          | inl e ↦ elim (or_inv _ a e) [
            | inl g ↦ let (v, q, m) = allows_inv client (rule_of r) g in inr (v, here q, m)
            | inr g ↦ inl g
          ]
          | inr (v, m, g) ↦ inr (v, there m, g)
        ],
        elim [
          | inl e ↦ ih.1 (inl (or_right _ a e))
          | inr (v, here q, m) ↦ ih.1 (inl (or_left _ a (ap (allows inet_pton6 client) q ∙ m)))
          | inr (v, there m, g) ↦ ih.1 (inr (v, m, g))
        ],
      )

  match_rules-deny :
      (client : Client) (a d : Bool) (ds : Directives)
      → ((match_rules inet_pton6 client a d ds).1 ≡ true) ↔ ((d ≡ true) ⊎ IsDenied client ds)
  unfolding match_rules
  match_rules-deny client a d nil = (λ h. inl h, elim [ inl h ↦ h | inr (v, m, h) ↦ elim m [ ] ])
  match_rules-deny client a d (cons r ds) =
      let ih =
        match_rules-deny client (allows inet_pton6 client (rule_of r) || a)
          (denies inet_pton6 client (rule_of r) || d) ds in
      (
        λ h. elim (ih.0 h) [
          | inl e ↦ elim (or_inv _ d e) [
            | inl g ↦ let (v, q, m) = denies_inv client (rule_of r) g in inr (v, here q, m)
            | inr g ↦ inl g
          ]
          | inr (v, m, g) ↦ inr (v, there m, g)
        ],
        elim [
          | inl e ↦ ih.1 (inl (or_right _ d e))
          | inr (v, here q, m) ↦ ih.1 (inl (or_left _ d (ap (denies inet_pton6 client) q ∙ m)))
          | inr (v, there m, g) ↦ ih.1 (inr (v, m, g))
        ],
      )

  client_there :
      (ip : Bytes) (client : Client) → parse_client inet_pton6 ip ≡ some client → at_end ip ≡ false
  unfolding parse_client has_char
  client_there [] client h = cc (rw ip_parse-nil at h)
  client_there (c ∷ s) client h = refl

  -- With a client whose address parses and a last Order directive, the answer is the flags'.
  decided :
      (ip : Bytes) (client : Client) (o : AclOrder) (ds : Directives)
      → parse_client inet_pton6 ip ≡ some client
      → last_order none ds ≡ some o
      → exec_access_control inet_pton6 (some ip) ds
        ≡ verdict (
            is_denied o
              (match_rules inet_pton6 client false false ds).0
              (match_rules inet_pton6 client false false ds).1)
  unfolding exec_access_control
  decided ip client o ds hc ho = rw (client_there ip client hc, hc, ho)

  -- With Order Allow,Deny as the last Order directive and a client whose address parses, the
  -- request passes exactly when some Allow from covers the client and no Deny from does.
  pub exec_access_control-order_allow_deny :
      (ip : Bytes) (client : Client) (ds : Directives)
      → parse_client inet_pton6 ip ≡ some client
      → last_order none ds ≡ some order_allow_deny
      → (exec_access_control inet_pton6 (some ip) ds ≡ lsi_ok)
        ↔ (IsAllowed client ds × ¬ IsDenied client ds)
  exec_access_control-order_allow_deny ip client ds hc ho =
      let e = decided ip client order_allow_deny ds hc ho in
      let t =
        allow_deny_iff (match_rules inet_pton6 client false false ds).0
          (match_rules inet_pton6 client false false ds).1 in
      let a = match_rules-allow client false false ds in
      let d = match_rules-deny client false false ds in
      (
        λ h. let (x, y) = t.0 (sym e ∙ h) in (start (a.0 x), λ b. y (d.1 (inr b))),
        λ p. e ∙ t.1 (a.1 (inr p.0), λ b. p.1 (start (d.0 b))),
      )

  -- With Order Deny,Allow as the last Order directive and a client whose address parses, the
  -- request is refused with 403 exactly when some Deny from covers the client and no Allow from
  -- does.
  pub exec_access_control-order_deny_allow :
      (ip : Bytes) (client : Client) (ds : Directives)
      → parse_client inet_pton6 ip ≡ some client
      → last_order none ds ≡ some order_deny_allow
      → (exec_access_control inet_pton6 (some ip) ds ≡ lsi_error 403)
        ↔ (IsDenied client ds × ¬ IsAllowed client ds)
  exec_access_control-order_deny_allow ip client ds hc ho =
      let e = decided ip client order_deny_allow ds hc ho in
      let t =
        deny_allow_iff (match_rules inet_pton6 client false false ds).0
          (match_rules inet_pton6 client false false ds).1 in
      let a = match_rules-allow client false false ds in
      let d = match_rules-deny client false false ds in
      (
        λ h. let (x, y) = t.0 (sym e ∙ h) in (start (d.0 x), λ b. y (a.1 (inr b))),
        λ p. e ∙ t.1 (d.1 (inr p.0), λ b. p.1 (start (a.0 b))),
      )
