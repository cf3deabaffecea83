-- ===== src/Expression/Address.antt =====
-- The test -ipmatch of src/htaccess_expr.c on an IPv4 range.
use litehttpd.Prelude.{
  ℕ, ◌-◌, ◌/◌, ◌^◌, ◌≤◌, ◌<◌, ◌≡◌, ◌↔◌, refl, sym, ◌∙◌, Bool, true, false, Option, none, some, [],
  ◌∷◌, arith, subst, Option-cases, inl, inr,
}
use litehttpd.Prelude.Text.{Bytes, at_end, has_char, skip_ws}
use litehttpd.Directive.{ExprNodeType, Expr, null, node}
use mathlib.Core.Bool.{false≢true}
use litehttpd.Cidr.{CidrV4, cidr_parse, cidr_match, ip_parse}
use litehttpd.Cidr.Mask.{subnet, cidr_match_prefix}
use litehttpd.Cidr.Wf.{ip_parse-lt, ip_parse-nil, cidr_parse-nil}
use litehttpd.Cidr6.{trim_end, before_slash, ip_parse_v6, parse_range, cidr_v6_parse}
use litehttpd.Expression.Value.{Session, eval_node_str}
use litehttpd.Expression.Eval.{MatchResult, Stat, match_v4, match_ip, eval_ipmatch, expr_eval}

-- No colon stands in the text.
abbrev IsPlain : Bytes → Type 0
IsPlain s = has_char b':' s ≡ false

skip-IsPlain : (s : Bytes) → IsPlain s → IsPlain (skip_ws s)
unfolding skip_ws has_char
skip-IsPlain [] h = refl
skip-IsPlain (c ∷ s) h = ground (arith, skip-IsPlain s)

trim-IsPlain : (s : Bytes) → IsPlain s → IsPlain (trim_end s)
unfolding trim_end has_char
trim-IsPlain [] h = refl
trim-IsPlain (c ∷ s) h = ground (arith, trim-IsPlain s)

before-IsPlain : (s : Bytes) → IsPlain s → IsPlain (before_slash s)
unfolding before_slash has_char
before-IsPlain [] h = refl
before-IsPlain (c ∷ s) h = ground (arith, before-IsPlain s)

none-some {ℓ} : {A : Type ℓ} {a : A} → ◌≡◌ {A = Option A} none (some a) → ⊥
none-some h = cc h

range_there : (s : Bytes) (c : CidrV4) → cidr_parse s ≡ some c → at_end s ≡ false
range_there [] c h = absurd (none-some (sym cidr_parse-nil ∙ h))
range_there (a ∷ s) c h = refl

ip_there : (s : Bytes) (ip : ℕ) → ip_parse s ≡ some ip → at_end s ≡ false
ip_there [] ip h = absurd (none-some (sym ip_parse-nil ∙ h))
ip_there (a ∷ s) ip h = refl

some-eq : {a b : ℕ} → some a ≡ some b → a ≡ b
some-eq h = cc h

abbrev pub is_node : Expr → Bool
is_node null = false
is_node (node ty v l r) = true

module _ (inet_pton6 : Bytes → Option Bytes)
    (colon : (s : Bytes) → has_char b':' s ≡ false → inet_pton6 s ≡ none) where
  no_ip : (s : Bytes) → IsPlain s → ip_parse_v6 inet_pton6 s ≡ none
  unfolding ip_parse_v6
  no_ip s h =
      rw (colon (trim_end (skip_ws s)) (trim-IsPlain (skip_ws s) (skip-IsPlain s h))) (ground arith)

  no_range : (s : Bytes) → IsPlain s → parse_range inet_pton6 s ≡ none
  unfolding parse_range
  no_range s h = rw (no_ip (before_slash s) (before-IsPlain s h), no_ip s h) (ground arith)

  no_cidr : (s : Bytes) → IsPlain s → cidr_v6_parse inet_pton6 s ≡ none
  unfolding cidr_v6_parse
  no_cidr s h = rw (no_range (skip_ws s) (skip-IsPlain s h)) refl

  v4_none :
      (htre : Bytes → Bytes → Option MatchResult) (stat lstat : Bytes → Option Stat)
      (session : Session) (cidr_str ip_str : Bytes)
      → ip_parse ip_str ≡ none
      → match_v4 inet_pton6 htre stat lstat session cidr_str ip_str ≡ false
  v4_none htre stat lstat session cidr_str ip_str q =
      elim (cidr_parse cidr_str)
        as (λ o.
          elim o [
            | none ↦ false
            | some cidr4 ↦ elim (ip_parse ip_str) [ none ↦ false | some ip ↦ cidr_match cidr4 ip ]
          ]
          ≡ false) [ none ↦ refl | some cidr4 ↦ rw q refl ]

  match_ip_v4 :
      (htre : Bytes → Bytes → Option MatchResult) (stat lstat : Bytes → Option Stat)
      (session : Session) (cidr_str ip_str : Bytes)
      → IsPlain cidr_str
      → at_end cidr_str ≡ false
      → at_end ip_str ≡ false
      → match_ip inet_pton6 htre stat lstat session cidr_str ip_str
        ≡ match_v4 inet_pton6 htre stat lstat session cidr_str ip_str
  unfolding match_ip
  match_ip_v4 htre stat lstat session cidr_str ip_str h p q = rw (p, q, no_cidr cidr_str h) refl

  -- A value that is no IPv4 address is not in an IPv4 range.
  match_ip-none :
      (htre : Bytes → Bytes → Option MatchResult) (stat lstat : Bytes → Option Stat)
      (session : Session) (cidr_str ip_str : Bytes)
      → IsPlain cidr_str
      → at_end cidr_str ≡ false
      → ip_parse ip_str ≡ none
      → match_ip inet_pton6 htre stat lstat session cidr_str ip_str ≡ false
  unfolding match_ip
  match_ip-none htre stat lstat session cidr_str [] h p q = rw p refl
  match_ip-none htre stat lstat session cidr_str (c ∷ s) h p q =
      match_ip_v4 htre stat lstat session cidr_str (c ∷ s) h p refl
      ∙ v4_none htre stat lstat session cidr_str (c ∷ s) q

  -- What -ipmatch says of the two texts.
  match_ip_lem :
      (htre : Bytes → Bytes → Option MatchResult) (stat lstat : Bytes → Option Stat)
      (session : Session) (cidr_str ip_str : Bytes) (p addr : ℕ)
      → p ≤ 32
      → addr < 2 ^ 32
      → IsPlain cidr_str
      → cidr_parse cidr_str ≡ some (subnet addr p)
      → (match_ip inet_pton6 htre stat lstat session cidr_str ip_str ≡ true)
        ↔ ((ip : ℕ) × (ip_parse ip_str ≡ some ip) × (ip / 2 ^ (32 - p) ≡ addr / 2 ^ (32 - p)))
  match_ip_lem htre stat lstat session cidr_str ip_str p addr hp ha plain range =
      let there = range_there cidr_str (subnet addr p) range in
      elim (Option-cases (ip_parse ip_str)) [
        | inl stranger ↦ (
          λ h. absurd (
              false≢true (
                sym (match_ip-none htre stat lstat session cidr_str ip_str plain there stranger)
                ∙ h)),
          λ (ip, address, same). absurd (none-some (sym stranger ∙ address)),
        )
        | inr (ip, address) ↦
            let eq : match_ip inet_pton6 htre stat lstat session cidr_str ip_str
                ≡ cidr_match (subnet addr p) ip =
              match_ip_v4 htre stat lstat session cidr_str ip_str plain there
                (ip_there ip_str ip address)
              ∙ rw (match_v4, range, address) refl in
            let law = cidr_match_prefix p addr ip hp ha (ip_parse-lt ip_str ip address) in
            (
              λ h. (ip, address, law.0 (sym eq ∙ h)),
              λ (ip', address', same).
                  eq
                  ∙ law.1 (
                      subst (λ n. n / 2 ^ (32 - p) ≡ addr / 2 ^ (32 - p))
                        (some-eq (sym address' ∙ address)) same),
            )
      ]

  -- If inet_pton accepts as IPv6 only texts with a colon, then the value of the left side -ipmatch
  -- a range that denotes the prefix `p` of the address `addr` is true exactly if the value is an
  -- IPv4 address that shares its leading `p` bits.
  pub ipmatch_prefix :
      (htre : Bytes → Bytes → Option MatchResult) (stat lstat : Bytes → Option Stat)
      (session : Session) (left right : Expr) (p addr : ℕ)
      → p ≤ 32
      → addr < 2 ^ 32
      → is_node right ≡ true
      → has_char b':' (eval_node_str session right) ≡ false
      → cidr_parse (eval_node_str session right) ≡ some (subnet addr p)
      → (expr_eval inet_pton6 htre stat lstat session (node ExprNodeType.ipmatch none left right)
          ≡ true)
        ↔ ((ip : ℕ) × (ip_parse (eval_node_str session left) ≡ some ip)
            × (ip / 2 ^ (32 - p) ≡ addr / 2 ^ (32 - p)))
  unfolding expr_eval eval_ipmatch
  ipmatch_prefix htre stat lstat session left null p addr hp ha hn plain range =
      absurd (false≢true hn)
  ipmatch_prefix htre stat lstat session left (node ty v l r) p addr hp ha hn plain range =
      match_ip_lem htre stat lstat session (eval_node_str session (node ty v l r))
        (eval_node_str session left) p addr hp ha plain range
