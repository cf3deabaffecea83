-- ===== src/Shm/Laws.antt =====
-- The store behind its probe loops: which slot an update writes, and what is found afterwards.
use litehttpd.Prelude.{
  ℕ, zero, suc, ◌<◌, ◌≡◌, ◌≢◌, refl, sym, ap, ◌∙◌, true, false, none, some, List, [], ◌∷◌, arith,
  ◌==◌, if◌then◌else◌, inl, inr, Bool-cases, ◌⊎◌, length, length-set, set, take,
}
use litehttpd.Prelude.Text.{Bytes, str_eq_iff}
use litehttpd.Shm.{
  BruteForceRecord, Slot, key_bytes, hit, is_occupied, find_slot, replace, insert, place_slot,
  filled,
}
use litehttpd.Shm.Probe.{scan, table, route, route-lt, find_slot-eq-scan, place_slot-eq-settle}
use litehttpd.Shm.Scan.{
  scan-hit, settle-scan, scan-settle, scan-replace, scan-insert, scan_index, settle_index,
}

-- A key that fits the field of a record.
abbrev pub IsKey : Bytes → Type 0
IsKey ip = take key_bytes ip ≡ ip

pub take_idem : (n : ℕ) (s : Bytes) → take n (take n s) ≡ take n s
take_idem zero s = refl
take_idem (suc n) [] = refl
take_idem (suc n) (c ∷ s) = ap (◌∷◌ c) (take_idem n s)

pub table-set :
    (slots : List Slot) (i : ℕ) (v : Slot) (q : ℕ)
    → i < length slots
    → table (set slots i v) q ≡ (if q == i then v else table slots q)
table-set [] i v q h = absurd (omega arith)
table-set (s ∷ slots) zero v zero h = ground arith
table-set (s ∷ slots) zero v (suc q) h = ground arith
table-set (s ∷ slots) (suc i) v zero h = ground arith
table-set (s ∷ slots) (suc i) v (suc q) h = table-set slots i v q (omega arith) ∙ ground arith

pub hit-filled : (ip : Bytes) (r : BruteForceRecord) → hit (filled ip r) ip ≡ true
hit-filled ip r = (str_eq_iff _ _).1 (take_idem key_bytes ip)

pub hit_key :
    (s : Slot) (ip : Bytes) → hit s ip ≡ true → take key_bytes s.rec.ip ≡ take key_bytes ip
hit_key s ip h = (str_eq_iff _ _).0 (ground arith)

-- A slot with one key does not hit another.
pub hit_other :
    (s : Slot) (ip k : Bytes)
    → take key_bytes s.rec.ip ≡ take key_bytes ip
    → IsKey ip
    → IsKey k
    → k ≢ ip
    → hit s k ≡ false
hit_other s ip k e hi hk ne = elim (Bool-cases (hit s k)) [
  | inl h ↦ absurd (ne (cc (hit_key s k h)))
  | inr h ↦ h
]

-- The update of a key goes to slot `i`.
abbrev pub PlacedAt : List Slot → Bytes → ℕ → Type 0
PlacedAt slots ip i = (place_slot slots ip ≡ replace i) ⊎ (place_slot slots ip ≡ insert i)

pub find_slot-lt :
    (slots : List Slot) (ip : Bytes) (i : ℕ) → find_slot slots ip ≡ some i → i < length slots
find_slot-lt [] ip i h = unfold find_slot in cc
find_slot-lt (s ∷ slots) ip i h =
    scan_index _ ip _ (λ k. k < length (s ∷ slots)) (λ j. route-lt _ ip j (omega arith)) _ 0 i
      (sym (find_slot-eq-scan (s ∷ slots) ip) ∙ h)

-- An insertion goes to a slot of the table that is not occupied.
insert_free :
    (slots : List Slot) (ip : Bytes) (i : ℕ)
    → place_slot slots ip ≡ insert i
    → (i < length slots) × (is_occupied (table slots i).state ≡ false)
insert_free [] ip i h = unfold place_slot in cc
insert_free (s ∷ slots) ip i h =
    settle_index (table (s ∷ slots)) ip _
      (λ k. (k < length (s ∷ slots)) × (is_occupied (table (s ∷ slots) k).state ≡ false))
      (λ j free. (route-lt _ ip j (omega arith), free)) _ 0 none (λ k e. cc) i
      (sym (place_slot-eq-settle (s ∷ slots) ip) ∙ h)

module _ (slots : List Slot) (ip : Bytes) where
  pub find_slot-hit : (i : ℕ) → find_slot slots ip ≡ some i → hit (table slots i) ip ≡ true
  find_slot-hit i h = scan-hit _ _ _ _ _ i (sym (find_slot-eq-scan slots ip) ∙ h)

  pub place-find : (i : ℕ) → find_slot slots ip ≡ some i → place_slot slots ip ≡ replace i
  place-find i h =
      place_slot-eq-settle slots ip
      ∙ settle-scan _ _ _ _ _ none i (sym (find_slot-eq-scan slots ip) ∙ h)

  pub find-place : (i : ℕ) → place_slot slots ip ≡ replace i → find_slot slots ip ≡ some i
  find-place i h =
      find_slot-eq-scan slots ip
      ∙ scan-settle _ _ _ _ _ none i (sym (place_slot-eq-settle slots ip) ∙ h)

  pub PlacedAt-lt : (i : ℕ) → PlacedAt slots ip i → i < length slots
  PlacedAt-lt i (inl r) = find_slot-lt slots ip i (find-place i r)
  PlacedAt-lt i (inr f) = (insert_free slots ip i f).0

  -- The slot that is written held the same key or no record.
  pub PlacedAt-before :
      (i : ℕ) (k : Bytes)
      → PlacedAt slots ip i
      → IsKey ip
      → IsKey k
      → k ≢ ip
      → hit (table slots i) k ≡ false
  PlacedAt-before i k (inl r) hi hk ne =
      hit_other (table slots i) ip k (hit_key (table slots i) ip (find_slot-hit i (find-place i r)))
        hi hk ne
  PlacedAt-before i k (inr f) hi hk ne = rw (insert_free slots ip i f).1 refl

module _ (slots : List Slot) (ip : Bytes) (i : ℕ) (v : Slot) (placed : PlacedAt slots ip i)
    (key : hit v ip ≡ true) where
  lt : i < length slots
  lt = PlacedAt-lt slots ip i placed

  pub at_i : table (set slots i v) i ≡ v
  at_i = table-set slots i v i lt ∙ ground arith

  pub off_i : (q : ℕ) → (q == i) ≡ false → table (set slots i v) q ≡ table slots q
  off_i q ne = table-set slots i v q lt ∙ rw ne

  -- The key that was written is found in the slot where it was written.
  pub find-written : find_slot (set slots i v) ip ≡ some i
  find-written = find_slot-eq-scan (set slots i v) ip ∙ rw (length-set slots i v) (found placed)
    where
      found :
          PlacedAt slots ip i
          → scan (table (set slots i v)) ip (route (length slots) ip) (length slots) 0 ≡ some i
      found (inl r) =
          scan-replace (table slots) (table (set slots i v)) ip _ i off_i (rw at_i key) _ 0
            (sym (find_slot-eq-scan slots ip) ∙ find-place slots ip i r)
      found (inr f) =
          scan-insert (table slots) (table (set slots i v)) ip _ i off_i (rw at_i key) _ 0
            (sym (place_slot-eq-settle slots ip) ∙ f)
