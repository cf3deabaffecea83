-- ===== src/CidrTable.antt =====
-- src/htaccess_cidr_table.c, the table of compiled ranges. `v4_count` and `v6_count` are the
-- lengths of the lists. qsort is a parameter. A null table is not modelled.
pub mod Laws
use Prim.Native.Nat.{bit_and}
use litehttpd.Prelude.{
  ℕ, zero, suc, ◌+◌, ◌-◌, ◌*◌, ◌/◌, ◌%◌, ◌^◌, Bool, true, false, not, ◌&&◌, ◌||◌, Option, none,
  some, List, [], ◌∷◌, ◌++◌, ltb, leb, ◌==◌, if◌then◌else◌, length, replicate, take,
}
use litehttpd.Prelude.Text.{Bytes, has_char}
use litehttpd.Cidr.{cidr_parse}
use litehttpd.Cidr6.{cidr_v6_parse, byte_mask}

-- cidr_range_v4_t
pub record RangeV4 : Type 0 where
  pub network : ℕ
  pub mask : ℕ

-- cidr_range_v6_t; a byte of the mask is 255, a part of it or 0
pub record RangeV6 : Type 0 where
  pub network : Bytes
  pub mask : Bytes
  pub prefix : ℕ

-- cidr_table_t
pub record CidrTable : Type 0 where
  pub v4 : List RangeV4
  pub v6 : List RangeV6

abbrev pub cidr_table_max_v4 : ℕ
cidr_table_max_v4 = 1024

abbrev pub cidr_table_max_v6 : ℕ
cidr_table_max_v6 = 256

-- The table after the call, and whether it answered 0.
unfoldable pub cidr_table_add_v4 : CidrTable → ℕ → ℕ → CidrTable × Bool
cidr_table_add_v4 t network mask = if leb cidr_table_max_v4 (length t.v4) then (t, false) else (
  record t { v4 = t.v4 ++ (record { network = bit_and network mask; mask = mask } ∷ []) },
  true,
)

-- The loop over the ranges.
unfoldable pub match_v4 : List RangeV4 → ℕ → Bool
match_v4 [] ip = false
match_v4 (r ∷ rs) ip = bit_and ip r.mask == r.network || match_v4 rs ip

unfoldable pub cidr_table_match_v4 : CidrTable → ℕ → Bool
unfolding match_v4
cidr_table_match_v4 t ip = match_v4 t.v4 ip

-- The mask from byte `i` on, of so many bytes.
unfoldable pub build_mask : ℕ → ℕ → ℕ → ℕ → Bytes
unfolding byte_mask
build_mask zero i full_bytes rem_bits = []
build_mask (suc n) i full_bytes rem_bits =
    (if ltb i full_bytes
      then 255
      else if i == full_bytes && ltb 0 rem_bits
      then byte_mask rem_bits
      else 0)
    ∷ build_mask n (i + 1) full_bytes rem_bits

unfoldable pub mask_network : Bytes → Bytes → Bytes
mask_network (a ∷ network) (m ∷ mask) = bit_and a m ∷ mask_network network mask
mask_network _ _ = []

unfoldable pub range_v6 : Bytes → ℕ → RangeV6
unfolding build_mask mask_network
range_v6 addr prefix =
    let mask = build_mask 16 0 (prefix / 8) (prefix % 8) in
    record { network = mask_network addr mask; mask = mask; prefix = prefix }

-- A negative prefix does not occur: cidr_v6_parse gives 0 to 128.
unfoldable pub cidr_table_add_v6 : CidrTable → Bytes → ℕ → CidrTable × Bool
unfolding range_v6
cidr_table_add_v6 t addr prefix =
    if leb cidr_table_max_v6 (length t.v6) || ltb 128 prefix
    then (t, false)
    else (record t { v6 = t.v6 ++ (range_v6 addr prefix ∷ []) }, true)

-- The loop over the bytes.
unfoldable pub same_network : Bytes → Bytes → Bytes → Bool
same_network (a ∷ addr) (m ∷ mask) (n ∷ network) =
    bit_and a m == n && same_network addr mask network
same_network _ _ _ = true

unfoldable pub match_v6 : List RangeV6 → Bytes → Bool
unfolding same_network
match_v6 [] addr = false
match_v6 (r ∷ rs) addr = same_network addr r.mask r.network || match_v6 rs addr

unfoldable pub cidr_table_match_v6 : CidrTable → Bytes → Bool
unfolding match_v6
cidr_table_match_v6 t addr = match_v6 t.v6 addr

unfoldable pub cidr_table_is_empty : CidrTable → Bool
cidr_table_is_empty t = length t.v4 == 0 && length t.v6 == 0

-- The parameters stand for inet_pton and for qsort with cmp_v4 and cmp_v6.
unfoldable pub cidr_table_add_str : (Bytes → Option Bytes) → CidrTable → Bytes → CidrTable × Bool
unfolding cidr_table_add_v4 cidr_table_add_v6
cidr_table_add_str inet_pton6 t cidr_str =
    if has_char b':' cidr_str
    then elim (cidr_v6_parse inet_pton6 cidr_str) [
      | none ↦ (t, false)
      | some c6 ↦ cidr_table_add_v6 t c6.addr c6.prefix_len
    ]
    else elim (cidr_parse cidr_str) [
      | none ↦ (t, false)
      | some c4 ↦ cidr_table_add_v4 t c4.network c4.mask
    ]

unfoldable pub cidr_table_finalize :
    (List RangeV4 → List RangeV4) → (List RangeV6 → List RangeV6) → CidrTable → CidrTable
cidr_table_finalize qsort_v4 qsort_v6 t = record {
  v4 = if ltb 1 (length t.v4) then qsort_v4 t.v4 else t.v4;
  v6 = if ltb 1 (length t.v6) then qsort_v6 t.v6 else t.v6;
}
