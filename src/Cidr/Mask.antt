-- ===== src/Cidr/Mask.antt =====
-- Masks are prefixes: matching compares the leading bits.
use Prim.Native.Nat.{bit_and}
use litehttpd.Prelude.{
  ℕ_discrete, if◌then◌else◌, false, ℕ, ◌-◌, ◌/◌, ◌^◌, ◌≤◌, ◌<◌, ◌≡◌, refl, sym, ◌∙◌, ◌↔◌, Bool,
  true, zero, suc, arith, ◌==◌, ==_iff,
}
use litehttpd.Prelude.Bits.{bit_and_high_iff, bit_and_high_idem}
use litehttpd.Cidr.{CidrV4, prefix_to_mask, cidr_match}

-- Whether a test succeeds at every prefix length up to `last`.
holds_upto : (ℕ → Bool) → ℕ → Bool
holds_upto test zero = test 0
holds_upto test (suc last) = if test (suc last) then holds_upto test last else false

holds_upto-at :
    (test : ℕ → Bool) (last i : ℕ) → holds_upto test last ≡ true → i ≤ last → test i ≡ true
unfolding holds_upto
holds_upto-at test zero i all le = let e : i ≡ 0 = omega arith in rw e all
holds_upto-at test (suc last) i all le = elim (ℕ_discrete i (suc last)) [
  | yes e ↦ rw e (ground arith)
  | no ne ↦ holds_upto-at test last i (ground arith) (omega arith)
]

mask_table : holds_upto (λ p. prefix_to_mask p == 2 ^ 32 - 2 ^ (32 - p)) 32 ≡ true
unfolding holds_upto prefix_to_mask
mask_table = refl

pub prefix_to_mask_lem : (p : ℕ) → p ≤ 32 → prefix_to_mask p ≡ 2 ^ 32 - 2 ^ (32 - p)
prefix_to_mask_lem p h = (==_iff _ _).0 (holds_upto-at _ 32 p mask_table h)

abbrev pub subnet : ℕ → ℕ → CidrV4
subnet addr p = record { network = bit_and addr (prefix_to_mask p); mask = prefix_to_mask p }

-- A range of prefix length `p` around the address `addr` matches exactly the addresses whose
-- leading `p` bits are those of `addr`.
pub cidr_match_prefix :
    (p addr ip : ℕ)
    → p ≤ 32
    → addr < 2 ^ 32
    → ip < 2 ^ 32
    → (cidr_match (subnet addr p) ip ≡ true) ↔ (ip / 2 ^ (32 - p) ≡ addr / 2 ^ (32 - p))
unfolding cidr_match
cidr_match_prefix p addr ip hp ha hi =
    let k = 32 - p in
    let hk : k ≤ 32 = omega arith in
    let iff = bit_and_high_iff k 32 ip addr hk hi ha in
    let idem = bit_and_high_idem k 32 addr hk ha in
    rw (prefix_to_mask_lem p hp)
      (λ h. iff.0 ((==_iff _ _).0 h ∙ idem), λ h. (==_iff _ _).1 (iff.1 h ∙ sym idem))
