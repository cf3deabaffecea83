-- ===== src/Cidr6.antt =====
-- src/htaccess_cidr.c, the IPv6 part. An address is a list of 16 bytes. inet_pton(AF_INET6, …) is
-- the parameter `inet_pton6`.
use Prim.Native.Nat.{bit_and}
use litehttpd.Prelude.{
  ℕ, zero, suc, ◌+◌, ◌-◌, ◌*◌, ◌/◌, ◌%◌, ◌^◌, Bool, true, false, not, ◌&&◌, ◌||◌, Option, none,
  some, [], ◌∷◌, ltb, leb, ◌==◌, if◌then◌else◌, get_or, length,
}
use litehttpd.Prelude.Text.{Bytes, is_space, skip_ws, at_end, has_char, strtoul, Converted}
use litehttpd.Prelude.Maybe.{◌>>=◌}

-- cidr_v6_t
pub record CidrV6 : Type 0 where
  pub addr : Bytes
  pub prefix_len : ℕ

-- while (len > 0 && isspace(text[len - 1])) len--;
unfoldable pub trim_end : Bytes → Bytes
trim_end [] = []
trim_end (c ∷ s) = let rest = trim_end s in if at_end rest && is_space c then [] else c ∷ rest

-- What stands before and behind the first `/`.
unfoldable pub before_slash : Bytes → Bytes
before_slash [] = []
before_slash (c ∷ s) = let rest = before_slash s in if c == b'/' then [] else c ∷ rest

unfoldable pub after_slash : Bytes → Bytes
after_slash [] = []
after_slash (c ∷ s) = let rest = after_slash s in if c == b'/' then s else rest

-- (uint8_t)(0xFF << (8 - remaining_bits))
unfoldable pub byte_mask : ℕ → ℕ
byte_mask remaining_bits = 255 * 2 ^ (8 - remaining_bits) % 256

-- The loop that masks the host bits, from byte `i` on.
unfoldable pub mask_host : ℕ → ℕ → ℕ → Bytes → Bytes
unfolding byte_mask
mask_host i full_bytes remaining_bits [] = []
mask_host i full_bytes remaining_bits (b ∷ bs) =
    (if ltb i full_bytes
      then b
      else if i == full_bytes && ltb 0 remaining_bits
      then bit_and b (byte_mask remaining_bits)
      else 0)
    ∷ mask_host (i + 1) full_bytes remaining_bits bs

-- The loop over the full bytes.
unfoldable pub same_bytes : ℕ → Bytes → Bytes → Bool
same_bytes zero xs ys = true
same_bytes (suc n) (x ∷ xs) (y ∷ ys) = x == y && same_bytes n xs ys
same_bytes (suc n) _ _ = true

unfoldable pub cidr_v6_match : CidrV6 → Bytes → Bool
unfolding same_bytes byte_mask
cidr_v6_match cidr addr =
    let full_bytes = cidr.prefix_len / 8 in
    let remaining_bits = cidr.prefix_len % 8 in
    let mask = byte_mask remaining_bits in
    if not (same_bytes full_bytes cidr.addr addr)
    then false
    else if ltb 0 remaining_bits && ltb full_bytes 16
    then bit_and (get_or cidr.addr full_bytes 0) mask == bit_and (get_or addr full_bytes 0) mask
    else true

-- The checks on what strtoul answers.
unfoldable pub check_length : Converted → Option ℕ
unfolding skip_ws
check_length c =
    if not c.any || ltb 128 c.value || not (at_end (skip_ws c.rest)) then none else some c.value

module _ (inet_pton6 : Bytes → Option Bytes) where
  unfoldable pub ip_parse_v6 : Bytes → Option Bytes
  unfolding trim_end skip_ws
  ip_parse_v6 text =
      let buf = trim_end (skip_ws text) in
      if length buf == 0 || leb 64 (length buf) then none else inet_pton6 buf

  -- The address and the prefix length, before the host bits are masked.
  unfoldable pub parse_range : Bytes → Option (Bytes × ℕ)
  unfolding ip_parse_v6 before_slash after_slash check_length
  parse_range text =
      let addr_buf = before_slash text in
      let c = strtoul (after_slash text) in
      if has_char b'/' text
      then (if length addr_buf == 0 || leb 64 (length addr_buf)
          then none
          else do addr ← ip_parse_v6 addr_buf; prefix_len ← check_length c; some (addr, prefix_len))
      else do addr ← ip_parse_v6 text; some (addr, 128)

  unfoldable pub cidr_v6_parse : Bytes → Option CidrV6
  unfolding parse_range mask_host
  cidr_v6_parse text = do
    (addr, prefix_len) ← parse_range (skip_ws text)
    some (record {
      addr = mask_host 0 (prefix_len / 8) (prefix_len % 8) addr;
      prefix_len = prefix_len;
    })
