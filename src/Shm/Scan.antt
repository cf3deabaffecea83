-- ===== src/Shm/Scan.antt =====
-- What the probe loops find, and how the answer changes with one slot of the table.
use litehttpd.Prelude.{
  ℕ, zero, suc, ◌≡◌, refl, ap, true, false, Option, none, some, arith, ◌==◌, ==_iff, inl, inr,
  Bool-cases, ◌⊎◌, subst,
}
use litehttpd.Prelude.Text.{Bytes}
use litehttpd.Shm.{
  Slot, SlotState, empty, occupied, tombstone, hit, is_empty, is_occupied, replace, insert, choose,
  note_tombstone,
}
use litehttpd.Shm.Probe.{scan, settle}

abbrev SameOff : ℕ → (ℕ → Slot) → (ℕ → Slot) → Type 0
SameOff i t t' = (q : ℕ) → (q == i) ≡ false → t' q ≡ t q

note_tombstone_index {ℓ} :
    (P : ℕ → Type ℓ) (s : SlotState) (first : Option ℕ) (here : ℕ)
    → (is_occupied s ≡ false → P here)
    → ((k : ℕ) → first ≡ some k → P k)
    → (k : ℕ) → note_tombstone s first here ≡ some k
    → P k
note_tombstone_index P tombstone none here ph pf k h = subst P (ground arith) (ph refl)
note_tombstone_index P tombstone (some m) here ph pf k h = pf k h
note_tombstone_index P empty first here ph pf k h = pf k h
note_tombstone_index P occupied first here ph pf k h = pf k h

choose_index {ℓ} :
    (P : ℕ → Type ℓ) (first : Option ℕ) (here : ℕ)
    → P here
    → ((k : ℕ) → first ≡ some k → P k)
    → (i : ℕ) → insert (choose first here) ≡ insert i
    → P i
choose_index P none here ph pf i h = subst P (ground arith) ph
choose_index P (some k) here ph pf i h = pf i (ground arith)

module _ (t : ℕ → Slot) (ip : Bytes) (p : ℕ → ℕ) where
  -- The loop stops at a record with the key.
  pub scan-hit : (n j : ℕ) (i : ℕ) → scan t ip p n j ≡ some i → hit (t i) ip ≡ true
  unfolding scan
  scan-hit zero j i h = cc
  scan-hit (suc n) j i h = ground (arith, scan-hit n (suc j) i)

  -- Both loops stop at the same record.
  pub settle-scan :
      (n j : ℕ) (first : Option ℕ) (i : ℕ)
      → scan t ip p n j ≡ some i
      → settle t ip p n j first ≡ replace i
  unfolding scan settle
  settle-scan zero j first i h = cc
  settle-scan (suc n) j first i h =
      ground (arith, settle-scan n (suc j) (note_tombstone (t (p j)).state first (p j)) i)

  pub scan-settle :
      (n j : ℕ) (first : Option ℕ) (i : ℕ)
      → settle t ip p n j first ≡ replace i
      → scan t ip p n j ≡ some i
  unfolding scan settle
  scan-settle zero j none i h = cc
  scan-settle zero j (some k) i h = cc
  scan-settle (suc n) j first i h =
      ground (arith, scan-settle n (suc j) (note_tombstone (t (p j)).state first (p j)) i)

  settle_first : (n j k i : ℕ) → settle t ip p n j (some k) ≡ insert i → i ≡ k
  unfolding settle
  settle_first zero j k i h = ground arith
  settle_first (suc n) j k i h = ground (arith, settle_first n (suc j) k i)

  -- What holds of all indices visited holds of the index found.
  pub scan_index {ℓ} :
      (P : ℕ → Type ℓ) → ((j : ℕ) → P (p j)) → (n j i : ℕ) → scan t ip p n j ≡ some i → P i
  unfolding scan
  scan_index P at zero j i h = cc
  scan_index P at (suc n) j i h = elim (Bool-cases (hit (t (p j)) ip)) [
    | inl e ↦ subst P (ground arith) (at j)
    | inr e ↦ scan_index P at n (suc j) i (ground arith)
  ]

  -- A new record goes to a slot that is visited and not occupied.
  pub settle_index {ℓ} :
      (P : ℕ → Type ℓ)
      → ((j : ℕ) → is_occupied (t (p j)).state ≡ false → P (p j))
      → (n j : ℕ) (first : Option ℕ) → ((k : ℕ) → first ≡ some k → P k)
      → (i : ℕ) → settle t ip p n j first ≡ insert i
      → P i
  unfolding settle
  settle_index P at zero j none firsts i h = cc
  settle_index P at zero j (some k) firsts i h = firsts i (ground arith)
  settle_index P at (suc n) j first firsts i h =
      let state = (t (p j)).state in
      let firsts' = note_tombstone_index P state first (p j) (at j) firsts in
      elim (Bool-cases (hit (t (p j)) ip)) [
        | inl found ↦ absurd (ground arith)
        | inr miss ↦ elim (Bool-cases (is_empty state)) [
          | inl free ↦
              choose_index P (note_tombstone state first (p j)) (p j) (at j (ground arith)) firsts'
                i (ground arith)
          | inr taken ↦
              settle_index P at n (suc j) (note_tombstone state first (p j)) firsts' i
                (ground arith)
        ]
      ]

module _ (t t' : ℕ → Slot) (ip : Bytes) (p : ℕ → ℕ) (i : ℕ) (same : SameOff i t t')
    (found : hit (t' i) ip ≡ true) where
  -- A record that was overwritten under its key is found again.
  pub scan-replace : (n j : ℕ) → scan t ip p n j ≡ some i → scan t' ip p n j ≡ some i
  unfolding scan
  scan-replace zero j h = cc
  scan-replace (suc n) j h = elim (Bool-cases (p j == i)) [
    | inl e ↦ let e' = (==_iff _ _).0 e in rw (e', found)
    | inr ne ↦ ground (arith, same (p j) ne, scan-replace n (suc j))
  ]

  -- A record that was put into a free slot is found there.
  pub scan-insert : (n j : ℕ) → settle t ip p n j none ≡ insert i → scan t' ip p n j ≡ some i
  unfolding scan settle
  scan-insert zero j h = cc
  scan-insert (suc n) j h = elim (Bool-cases (p j == i)) [
    | inl e ↦ let e' = (==_iff _ _).0 e in rw (e', found)
    | inr ne ↦
        ground (arith, same (p j) ne, scan-insert n (suc j), settle_first t ip p n (suc j) (p j) i)
  ]

module _ (t t' : ℕ → Slot) (ip : Bytes) (p : ℕ → ℕ) (i : ℕ) (same : SameOff i t t')
    (other : hit (t' i) ip ≡ false) (taken : is_empty (t' i).state ≡ false)
    (before : hit (t i) ip ≡ false) where
  -- Another key is found where it was.
  pub scan_other : (n j k : ℕ) → scan t ip p n j ≡ some k → scan t' ip p n j ≡ some k
  unfolding scan
  scan_other zero j k h = cc
  scan_other (suc n) j k h = elim (Bool-cases (p j == i)) [
    | inl e ↦
        let e' : p j ≡ i = (==_iff _ _).0 e in
        ground (arith, ap t e', ap t' e', scan_other n (suc j) k)
    | inr ne ↦ ground (arith, same (p j) ne, scan_other n (suc j) k)
  ]

module _ (t t' : ℕ → Slot) (ip : Bytes) (p : ℕ → ℕ) where
  -- Records that others were removed from stay where they are.
  pub scan_removed :
      ((q : ℕ) → (t' q ≡ t q) ⊎ ((t' q).state ≡ tombstone))
      → (n j k : ℕ) → t' k ≡ t k
      → scan t ip p n j ≡ some k
      → scan t' ip p n j ≡ some k
  unfolding scan
  scan_removed rest zero j k e h = cc
  scan_removed rest (suc n) j k e h = ground (arith, rest (p j), scan_removed rest n (suc j) k)
