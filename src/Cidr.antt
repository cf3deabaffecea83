-- ===== src/Cidr.antt =====
-- src/htaccess_cidr.c, the IPv4 part: parsing of addresses and CIDR ranges, and matching.
-- A uint32_t is a number below 2 ^ 32. A null argument is not modelled: no caller passes one.
pub mod Mask
pub mod Wf
pub mod Decimal
pub mod RoundTrip
use Prim.Native.Nat.{bit_and}
use litehttpd.Prelude.{
  ℕ, zero, suc, ◌+◌, ◌-◌, ◌*◌, ◌%◌, ◌^◌, Bool, true, false, not, ◌&&◌, ◌||◌, Option, none, some, [],
  ◌∷◌, ltb, ◌==◌, if◌then◌else◌, drop,
}
use litehttpd.Prelude.Text.{
  Bytes, codes, is_digit, skip_ws, at_end, peek, starts_with_nocase, strtoul,
}
use litehttpd.Prelude.Maybe.{◌>>=◌, ◌>>◌, guard}

-- cidr_v4_t
pub record CidrV4 : Type 0 where
  pub network : ℕ
  pub mask : ℕ

-- The check for a leading zero and the call of strtoul, for one octet.
pub parse_octet : Bytes → Option (ℕ × Bytes)
parse_octet p =
    let c = strtoul p in
    if peek p == b'0' && is_digit (peek (drop 1 p))
    then none
    else if not c.any || ltb 255 c.value || c.erange
    then none
    else some (c.value, c.rest)

-- `if (i > 0)`: a dot stands before every octet but the first.
pub skip_dot : Bool → Bytes → Option Bytes
skip_dot true s = some s
skip_dot false s = if peek s == b'.' then some (drop 1 s) else none

-- The loop of parse_ipv4, with the octets that are left. `|` is a sum: the eight low bits of
-- `addr << 8` are zero, and the octet fits them.
pub parse_octets : ℕ → Bool → ℕ → Bytes → Option (ℕ × Bytes)
unfolding parse_octet skip_dot
parse_octets zero first addr s = some (addr, s)
parse_octets (suc n) first addr s = do
  p ← skip_dot first s
  (octet, ep) ← parse_octet p
  parse_octets n false (addr * 256 % 2 ^ 32 + octet) ep

pub parse_ipv4 : Bytes → Option (ℕ × Bytes)
unfolding parse_octets
parse_ipv4 = parse_octets 4 true 0

-- ~((uint32_t)0) << (32 - prefix)
unfoldable pub prefix_to_mask : ℕ → ℕ
prefix_to_mask prefix = if prefix == 0 then 0 else (2 ^ 32 - 1) * 2 ^ (32 - prefix) % 2 ^ 32

-- The optional `/N`; a plain address is a /32.
pub parse_prefix : Bytes → Option (ℕ × Bytes)
parse_prefix p =
    let c = strtoul (drop 1 p) in
    if peek p == b'/'
    then (if not c.any || ltb 32 c.value then none else some (c.value, c.rest))
    else some (32, p)

unfoldable pub cidr_parse : Bytes → Option CidrV4
unfolding parse_ipv4 parse_prefix prefix_to_mask
cidr_parse cidr_str =
    let s = skip_ws cidr_str in
    if starts_with_nocase s (codes "all")
    then (if at_end (skip_ws (drop 3 s)) then some (record { network = 0; mask = 0 }) else none)
    else do
      (ip, p) ← parse_ipv4 s
      (prefix, ep) ← parse_prefix p
      guard (at_end (skip_ws ep))
      some (record { network = bit_and ip (prefix_to_mask prefix); mask = prefix_to_mask prefix })

unfoldable pub cidr_match : CidrV4 → ℕ → Bool
cidr_match cidr ip = bit_and ip cidr.mask == bit_and cidr.network cidr.mask

unfoldable pub ip_parse : Bytes → Option ℕ
unfolding parse_ipv4
ip_parse ip_str = do (ip, ep) ← parse_ipv4 (skip_ws ip_str); guard (at_end (skip_ws ep)); some ip
