-- ===== src/Shm/Probed.antt =====
-- The invariant of the table: every record is where a search for its key stops.
use litehttpd.Prelude.{
  ℕ, ◌<◌, ◌≡◌, ◌≢◌, refl, sym, ap, ◌∙◌, true, false, some, List, arith, ◌==◌, ==_iff, inl, inr,
  Bool-cases, Option-cases, subst, length, length-set, set,
}
use litehttpd.Prelude.Text.{Bytes, str_eq, str_eq_iff}
use litehttpd.Shm.{BruteForceRecord, Slot, key_bytes, hit, is_occupied, find_slot, filled}
use litehttpd.Shm.Probe.{table, route, find_slot-eq-scan}
use litehttpd.Shm.Scan.{scan_other}
use litehttpd.Shm.Laws.{
  IsKey, take_idem, hit-filled, hit_key, hit_other, PlacedAt, find_slot-lt, find_slot-hit,
  place-find, PlacedAt-before, at_i, off_i, find-written,
}

abbrev pub IsProbed : List Slot → Type 0
IsProbed slots =
    (i : ℕ)
    → i < length slots
    → is_occupied (table slots i).state ≡ true
    → IsKey (table slots i).rec.ip × (find_slot slots (table slots i).rec.ip ≡ some i)

-- In such a table a slot that hits a key is where the search for the key stops.
pub find_hit :
    (slots : List Slot) (k : Bytes) (i : ℕ)
    → IsProbed slots
    → IsKey k
    → i < length slots
    → hit (table slots i) k ≡ true
    → find_slot slots k ≡ some i
find_hit slots k i probed hk lt h =
    let occ : is_occupied (table slots i).state ≡ true = ground arith in
    let (key, found) = probed i lt occ in
    let e : (table slots i).rec.ip ≡ k = sym key ∙ hit_key (table slots i) k h ∙ hk in
    subst (λ (s : Bytes). find_slot slots s ≡ some i) e found

module _ (slots : List Slot) (ip : Bytes) (i : ℕ) (r : BruteForceRecord)
    (placed : PlacedAt slots ip i) (key : IsKey ip) where
  abbrev after : List Slot
  after = set slots i (filled ip r)

  here : table after i ≡ filled ip r
  here = at_i slots ip i (filled ip r) placed (hit-filled ip r)

  elsewhere : (q : ℕ) → (q == i) ≡ false → table after q ≡ table slots q
  elsewhere = off_i slots ip i (filled ip r) placed (hit-filled ip r)

  written : find_slot after ip ≡ some i
  written = find-written slots ip i (filled ip r) placed (hit-filled ip r)

  module _ (k : Bytes) (hk : IsKey k) (ne : k ≢ ip) where
    not_here : hit (table after i) k ≡ false
    not_here = rw here (hit_other (filled ip r) ip k (take_idem key_bytes ip) key hk ne)

    -- Another key that is found stays where it is.
    kept : (j : ℕ) → find_slot slots k ≡ some j → find_slot after k ≡ some j
    kept j h =
        find_slot-eq-scan after k
        ∙ rw (length-set slots i (filled ip r)) (
            scan_other (table slots) (table after) k (route (length slots) k) i elsewhere not_here
              (rw here refl) (PlacedAt-before slots ip i k placed key hk ne) (length slots) 0 j
              (sym (find_slot-eq-scan slots k) ∙ h))

    pub hit_elsewhere : (j : ℕ) → hit (table after j) k ≡ true → (j == i) ≡ false
    hit_elsewhere j h = elim (Bool-cases (j == i)) [
      | inl e ↦
          let e' : j ≡ i = (==_iff _ _).0 e in
          cc (not_here, ap (λ (q : ℕ). hit (table after q) k) e', h)
      | inr e ↦ e
    ]

    -- Nor is one found that was not there.
    pub find_slot_other : IsProbed slots → find_slot after k ≡ find_slot slots k
    find_slot_other probed = elim (Option-cases (find_slot slots k)) [
      | inr (j, e) ↦ kept j e ∙ sym e
      | inl e ↦ elim (Option-cases (find_slot after k)) [
        | inl e' ↦ e' ∙ sym e
        | inr (j, e') ↦
            let h = find_slot-hit after k j e' in
            let off = elsewhere j (hit_elsewhere j h) in
            let lt : j < length slots =
              rw (length-set slots i (filled ip r)) at (find_slot-lt after k j e') in
            absurd (cc (find_hit slots k j probed hk lt (rw (← off) h), e))
      ]
    ]

  same_slot : PlacedAt slots ip i → (j : ℕ) → find_slot slots ip ≡ some j → i ≡ j
  same_slot (inl p) j h = ground (arith, place-find slots ip j h)
  same_slot (inr p) j h = cc (place-find slots ip j h)

  -- An update keeps the invariant.
  pub written-IsProbed : IsProbed slots → IsProbed after
  written-IsProbed probed j lt occ = elim (Bool-cases (j == i)) [
    | inl e ↦
        let e' : j ≡ i = (==_iff _ _).0 e in
        let own : (table after j).rec.ip ≡ ip = rw (e', here) key in
        (rw own key, rw (own, e') written)
    | inr e ↦
        let off = elsewhere j e in
        let lt' : j < length slots = rw (length-set slots i (filled ip r)) at lt in
        let (kk, found) = probed j lt' (rw (← off) occ) in
        rw off (
          kk,
          elim (Bool-cases (str_eq (table slots j).rec.ip ip)) [
            | inl s ↦
                let own : (table slots j).rec.ip ≡ ip = (str_eq_iff _ ip).0 s in
                let at_j : find_slot slots ip ≡ some j = rw own at found in
                absurd (ground (arith, same_slot placed j at_j))
            | inr d ↦ kept (table slots j).rec.ip kk (λ q. cc (d, (str_eq_iff _ ip).1 q)) j found
          ],
        )
  ]
