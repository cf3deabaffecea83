-- ===== src/Cidr/Wf.antt =====
-- What the parsers accept denotes a prefix range.
use litehttpd.Prelude.{
  none, [], ℕ, zero, suc, ◌+◌, ◌*◌, ◌%◌, ◌^◌, ◌≤◌, ◌<◌, ◌≡◌, refl, Bool, true, false, some, inl,
  inr, arith, Bool-cases,
}
use litehttpd.Prelude.Text.{Bytes, codes, skip_ws, at_end, starts_with_nocase, strtoul}
use litehttpd.Prelude.Maybe.{guard, >>=-eq-some}
use litehttpd.Cidr.{
  CidrV4, parse_octet, skip_dot, parse_octets, parse_ipv4, parse_prefix, cidr_parse, ip_parse,
}
use litehttpd.Cidr.Mask.{subnet}

parse_octet-lt : (s : Bytes) {r : ℕ × Bytes} → parse_octet s ≡ some r → r.0 < 256
unfolding parse_octet
parse_octet-lt s h = ground arith

parse_octets-lt :
    (n : ℕ) (first : Bool) (addr : ℕ) (s : Bytes) {r : ℕ × Bytes}
    → addr < 2 ^ 32
    → parse_octets n first addr s ≡ some r
    → r.0 < 2 ^ 32
unfolding parse_octets
parse_octets-lt zero first addr s lt h = ground arith
parse_octets-lt (suc n) first addr s lt h =
    let (p, dot, h1) = >>=-eq-some (skip_dot first s) _ h in
    let (o, oct, h2) = >>=-eq-some (parse_octet p) _ h1 in
    parse_octets-lt n false (addr * 256 % 2 ^ 32 + o.0) o.1 (omega (arith, parse_octet-lt p oct)) h2

pub parse_ipv4-lt : (s : Bytes) {r : ℕ × Bytes} → parse_ipv4 s ≡ some r → r.0 < 2 ^ 32
unfolding parse_ipv4
parse_ipv4-lt s h = parse_octets-lt 4 true 0 s (omega arith) h

parse_prefix-le : (s : Bytes) {r : ℕ × Bytes} → parse_prefix s ≡ some r → r.0 ≤ 32
unfolding parse_prefix
parse_prefix-le s h = ground arith

guard-eq : (b : Bool) {u : Unit {0}} → guard b ≡ some u → b ≡ true
guard-eq true h = refl
guard-eq false h = cc

-- Every text that `cidr_parse` accepts denotes the range of some prefix length up to 32 around
-- some 32-bit address.
pub cidr_parse_sound :
    (s : Bytes) (c : CidrV4)
    → cidr_parse s ≡ some c
    → (p : ℕ) × (addr : ℕ) × (p ≤ 32) × (addr < 2 ^ 32) × (c ≡ subnet addr p)
unfolding cidr_parse
cidr_parse_sound s c h = elim (Bool-cases (starts_with_nocase (skip_ws s) (codes "all"))) [
  | inl all ↦ (0, 0, omega arith, omega arith, ground arith)
  | inr cidr ↦
      let h' = rw cidr at h in
      let (ip, eip, h1) = >>=-eq-some (parse_ipv4 (skip_ws s)) _ h' in
      let (pre, epre, h2) = >>=-eq-some (parse_prefix ip.1) _ h1 in
      let (u, eu, h3) = >>=-eq-some (guard (at_end (skip_ws pre.1))) _ h2 in
      (pre.0, ip.0, parse_prefix-le ip.1 epre, parse_ipv4-lt (skip_ws s) eip, ground arith)
]

-- Every address that `ip_parse` accepts fits 32 bits.
pub ip_parse-lt : (s : Bytes) (ip : ℕ) → ip_parse s ≡ some ip → ip < 2 ^ 32
unfolding ip_parse
ip_parse-lt s ip h =
    let (r, e, h1) = >>=-eq-some (parse_ipv4 (skip_ws s)) _ h in
    let (u, eu, h2) = >>=-eq-some (guard (at_end (skip_ws r.1))) _ h1 in
    let same : some r.0 ≡ some ip = h2 in ground (arith, parse_ipv4-lt (skip_ws s) e)

-- The empty text is no address and no range.
pub ip_parse-nil : ip_parse [] ≡ none
unfolding ip_parse parse_ipv4 parse_octets parse_octet skip_ws strtoul
ip_parse-nil = refl

pub cidr_parse-nil : cidr_parse [] ≡ none
unfolding cidr_parse parse_ipv4 parse_octets parse_octet skip_ws strtoul starts_with_nocase
cidr_parse-nil = refl
