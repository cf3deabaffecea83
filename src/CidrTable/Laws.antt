-- ===== src/CidrTable/Laws.antt =====
-- The table of src/htaccess_cidr_table.c against the matching of single ranges in
-- src/htaccess_cidr.c.
use Prim.Native.Nat.{bit_and}
use mathlib.Core.List.{Permᴰ}
use litehttpd.Prelude.{
  ℕ, zero, suc, ◌+◌, ◌/◌, ◌%◌, ◌≤◌, ◌<◌, ◌≡◌, refl, ◌∙◌, Bool, true, false, not, ◌&&◌, ◌||◌, Option,
  some, List, [], ◌∷◌, ◌++◌, ltb, leb, lt→ltb, leb→le, ◌⊎◌, subst, ◌==◌, if◌then◌else◌, length,
  get_or, arith, inl, inr, Bool-cases,
}
use litehttpd.Prelude.Text.{Bytes, has_char}
use litehttpd.Prelude.Bits.{bit_and_high}
use litehttpd.Cidr.{CidrV4, cidr_parse, cidr_match}
use litehttpd.Cidr6.{cidr_v6_match, same_bytes, byte_mask}
use litehttpd.CidrTable.{
  RangeV4, RangeV6, CidrTable, match_v4, match_v6, cidr_table_add_v4, cidr_table_add_str,
  cidr_table_match_v4, build_mask, mask_network, range_v6, cidr_table_finalize, same_network,
  cidr_table_match_v6, cidr_table_add_v6,
}

match_v4-append :
    (rs ss : List RangeV4) (ip : ℕ) → match_v4 (rs ++ ss) ip ≡ (match_v4 rs ip || match_v4 ss ip)
unfolding match_v4
match_v4-append [] ss ip = refl
match_v4-append (r ∷ rs) ss ip = ground (arith, match_v4-append rs ss ip)

match_v6-append :
    (rs ss : List RangeV6) (a : Bytes) → match_v6 (rs ++ ss) a ≡ (match_v6 rs a || match_v6 ss a)
unfolding match_v6
match_v6-append [] ss a = refl
match_v6-append (r ∷ rs) ss a = ground (arith, match_v6-append rs ss a)

-- Bytes below 256.
abbrev pub AreBytes : Bytes → Type 0
AreBytes [] = Unit
AreBytes (c ∷ s) = (c < 256) × AreBytes s

all_ones : (c : ℕ) → c < 256 → bit_and c 255 ≡ c
all_ones c h = bit_and_high 0 8 c (omega arith) h ∙ (omega arith)

no_ones : (c : ℕ) → c < 256 → bit_and c 0 ≡ 0
no_ones c h = bit_and_high 8 8 c (omega arith) h ∙ (omega arith)

-- Behind the prefix all is masked.
behind_prefix :
    (n i full rem : ℕ) (a x : Bytes)
    → full < i
    → AreBytes a
    → AreBytes x
    → same_network x (build_mask n i full rem) (mask_network a (build_mask n i full rem)) ≡ true
unfolding same_network build_mask mask_network
behind_prefix zero i full rem [] [] h p q = refl
behind_prefix zero i full rem [] (c ∷ x) h p q = refl
behind_prefix zero i full rem (c ∷ a) [] h p q = refl
behind_prefix zero i full rem (c ∷ a) (d ∷ x) h p q = refl
behind_prefix (suc n) i full rem [] [] h p q = refl
behind_prefix (suc n) i full rem [] (d ∷ x) h p q = refl
behind_prefix (suc n) i full rem (c ∷ a) [] h p q = refl
behind_prefix (suc n) i full rem (c ∷ a) (d ∷ x) h p q = ground (
  arith,
  no_ones c p.0,
  no_ones d q.0,
  behind_prefix n (i + 1) full rem a x (omega arith) p.1 q.1,
)

-- What cidr_v6_match says of the bytes from some byte on, of which `f` are full.
abbrev agrees : ℕ → ℕ → ℕ → Bytes → Bytes → Bool
agrees n f rem a x =
    if not (same_bytes f a x)
    then false
    else if ltb 0 rem && ltb f n
    then bit_and (get_or a f 0) (byte_mask rem) == bit_and (get_or x f 0) (byte_mask rem)
    else true

-- What the table says of them, where the prefix ends at byte `k`.
abbrev masked : ℕ → ℕ → ℕ → ℕ → Bytes → Bytes → Bool
masked n i k rem a x = same_network x (build_mask n i k rem) (mask_network a (build_mask n i k rem))

head_full :
    (n i k rem c d : ℕ) (a x : Bytes)
    → i < k
    → c < 256
    → d < 256
    → masked (suc n) i k rem (c ∷ a) (d ∷ x) ≡ (d == c && masked n (i + 1) k rem a x)
unfolding same_network build_mask mask_network
head_full n i k rem c d a x h p q = rw (lt→ltb i k h, all_ones c p, all_ones d q) refl

head_last :
    (n i rem c d : ℕ) (a x : Bytes)
    → c < 256
    → d < 256
    → masked (suc n) i i rem (c ∷ a) (d ∷ x) ≡ (
        (if ltb 0 rem then bit_and d (byte_mask rem) == bit_and c (byte_mask rem) else true)
        && masked n (i + 1) i rem a x)
unfolding same_network build_mask mask_network
head_last n i rem c d a x p q = ground (arith, no_ones c p, no_ones d q)

same_prefix :
    (n i f rem : ℕ) (a x : Bytes)
    → length a ≡ n
    → length x ≡ n
    → AreBytes a
    → AreBytes x
    → masked n i (i + f) rem a x ≡ agrees n f rem a x
unfolding same_network build_mask mask_network same_bytes
same_prefix zero i zero rem [] [] la lx p q = ground arith
same_prefix zero i (suc f) rem [] [] la lx p q = ground arith
same_prefix zero i f rem [] (d ∷ x) la lx p q = absurd (omega arith)
same_prefix zero i f rem (c ∷ a) x la lx p q = absurd (omega arith)
same_prefix (suc n) i f rem [] x la lx p q = absurd (omega arith)
same_prefix (suc n) i f rem (c ∷ a) [] la lx p q = absurd (omega arith)
same_prefix (suc n) i zero rem (c ∷ a) (d ∷ x) la lx p q =
    let e : i + 0 ≡ i = omega arith in
    rw
      (
        e,
        head_last n i rem c d a x p.0 q.0,
        behind_prefix n (i + 1) i rem a x (omega arith) p.1 q.1,
      )
      (ground arith)
same_prefix (suc n) i (suc f) rem (c ∷ a) (d ∷ x) la lx p q =
    let e : i + 1 + f ≡ i + suc f = omega arith in
    rw
      (
        head_full n i (i + suc f) rem c d a x (omega arith) p.0 q.0,
        ← e,
        same_prefix n (i + 1) f rem a x (omega arith) (omega arith) p.1 q.1,
      )
      (ground arith)

has_room : (n p : ℕ) → n < 256 → p ≤ 128 → (leb 256 n || ltb 128 p) ≡ false
has_room n p h k = ground arith

not_full : (n : ℕ) → leb 1024 n ≡ false → n < 1024
not_full n h = ground arith

one_range : (r : RangeV6) (x : Bytes) → match_v6 (r ∷ []) x ≡ same_network x r.mask r.network
unfolding match_v6
one_range r x = ground arith

one_range_v4 : (r : RangeV4) (ip : ℕ) → match_v4 (r ∷ []) ip ≡ (bit_and ip r.mask == r.network)
unfolding match_v4
one_range_v4 r ip = ground arith

if_same :
    {A : Type 0} (b : Bool) (f : List A → Bool) {rs ss : List A}
    → f rs ≡ f ss
    → f (if b then rs else ss) ≡ f ss
if_same true f h = h
if_same false f h = refl

range_match :
    (a x : Bytes) (p : ℕ)
    → length a ≡ 16
    → length x ≡ 16
    → AreBytes a
    → AreBytes x
    → same_network x (range_v6 a p).mask (range_v6 a p).network
      ≡ cidr_v6_match (record { addr = a; prefix_len = p }) x
unfolding range_v6 cidr_v6_match
range_match a x p la lx ba bx =
    let e : 0 + p / 8 ≡ p / 8 = omega arith in
    subst (λ k. masked 16 0 k (p % 8) a x ≡ agrees 16 (p / 8) (p % 8) a x) e
      (same_prefix 16 0 (p / 8) (p % 8) a x la lx ba bx)

-- A table with room for another IPv6 range takes it, and then matches the addresses that it matched
-- before and those that cidr_v6_match matches with the range.
pub cidr_table_add_v6-match :
    (t : CidrTable) (addr x : Bytes) (prefix : ℕ)
    → length t.v6 < 256
    → prefix ≤ 128
    → length addr ≡ 16
    → length x ≡ 16
    → AreBytes addr
    → AreBytes x
    → ((cidr_table_add_v6 t addr prefix).1 ≡ true)
      × (cidr_table_match_v6 (cidr_table_add_v6 t addr prefix).0 x ≡ (
          cidr_table_match_v6 t x || cidr_v6_match (record { addr = addr; prefix_len = prefix }) x))
unfolding cidr_table_add_v6 cidr_table_match_v6
cidr_table_add_v6-match t addr x prefix room short la lx ba bx =
    let r = range_v6 addr prefix in
    rw
      (
        has_room (length t.v6) prefix room short,
        match_v6-append t.v6 (r ∷ []) x,
        one_range r x,
        range_match addr x prefix la lx ba bx,
      )
      (refl, refl)

-- A text that holds an IPv4 range is added to a table that has room, and the table then matches the
-- addresses that it matched before and those that cidr_match matches with the range. A full table
-- refuses it and is unchanged.
pub cidr_table_add_str-match :
    (inet_pton6 : Bytes → Option Bytes) (t : CidrTable) (cidr_str : Bytes) (c : CidrV4) (ip : ℕ)
    → has_char b':' cidr_str ≡ false
    → cidr_parse cidr_str ≡ some c
    → ((length t.v4 < 1024)
        × ((cidr_table_add_str inet_pton6 t cidr_str).1 ≡ true)
        × (cidr_table_match_v4 (cidr_table_add_str inet_pton6 t cidr_str).0 ip
            ≡ (cidr_table_match_v4 t ip || cidr_match c ip)))
      ⊎ ((1024 ≤ length t.v4) × (cidr_table_add_str inet_pton6 t cidr_str ≡ (t, false)))
unfolding cidr_table_add_str cidr_table_add_v4 cidr_table_match_v4 cidr_match
cidr_table_add_str-match inet_pton6 t cidr_str c ip plain parsed =
    elim (Bool-cases (leb 1024 (length t.v4))) [
      | inl full ↦ inr (leb→le 1024 (length t.v4) full, (rw (plain, parsed, full) refl))
      | inr room ↦
          let r : RangeV4 = record { network = bit_and c.network c.mask; mask = c.mask } in
          inl (
            not_full (length t.v4) room,
            (rw (plain, parsed, room) refl),
            (rw (plain, parsed, room, match_v4-append t.v4 (r ∷ []) ip, one_range_v4 r ip) refl),
          )
    ]

match_v4-perm : {rs ss : List RangeV4} (ip : ℕ) → Permᴰ rs ss → match_v4 rs ip ≡ match_v4 ss ip
unfolding match_v4
match_v4-perm ip Permᴰ.nil = refl
match_v4-perm ip (Permᴰ.cons e d) = rw (e, match_v4-perm ip d) refl
match_v4-perm ip (Permᴰ.swap e f) = rw (e, f) (ground arith)
match_v4-perm ip (Permᴰ.trans d e) = match_v4-perm ip d ∙ match_v4-perm ip e

match_v6-perm : {rs ss : List RangeV6} (x : Bytes) → Permᴰ rs ss → match_v6 rs x ≡ match_v6 ss x
unfolding match_v6
match_v6-perm x Permᴰ.nil = refl
match_v6-perm x (Permᴰ.cons e d) = rw (e, match_v6-perm x d) refl
match_v6-perm x (Permᴰ.swap e f) = rw (e, f) (ground arith)
match_v6-perm x (Permᴰ.trans d e) = match_v6-perm x d ∙ match_v6-perm x e

-- However qsort permutes the ranges, the table matches the same addresses after it as before.
pub cidr_table_finalize-match :
    (qsort_v4 : List RangeV4 → List RangeV4) (qsort_v6 : List RangeV6 → List RangeV6)
    (t : CidrTable) (ip : ℕ) (x : Bytes)
    → ((rs : List RangeV4) → Permᴰ (qsort_v4 rs) rs)
    → ((rs : List RangeV6) → Permᴰ (qsort_v6 rs) rs)
    → (cidr_table_match_v4 (cidr_table_finalize qsort_v4 qsort_v6 t) ip ≡ cidr_table_match_v4 t ip)
      × (cidr_table_match_v6 (cidr_table_finalize qsort_v4 qsort_v6 t) x ≡ cidr_table_match_v6 t x)
unfolding cidr_table_finalize cidr_table_match_v4 cidr_table_match_v6
cidr_table_finalize-match qsort_v4 qsort_v6 t ip x p q = (
  if_same (ltb 1 (length t.v4)) (λ rs. match_v4 rs ip) (match_v4-perm ip (p t.v4)),
  if_same (ltb 1 (length t.v6)) (λ rs. match_v6 rs x) (match_v6-perm x (q t.v6)),
)
