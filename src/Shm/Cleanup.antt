-- ===== src/Shm/Cleanup.antt =====
-- builtin_shm_cleanup removes the expired records and nothing else.
use litehttpd.Prelude.{
  ℕ, zero, suc, ◌<◌, ◌≡◌, refl, sym, ap, ◌∙◌, true, false, Option, none, some, List, [], ◌∷◌, arith,
  if◌then◌else◌, inl, inr, Bool-cases, ◌⊎◌, subst, length,
}
use litehttpd.Prelude.Text.{Bytes}
use litehttpd.Shm.{
  BruteForceRecord, Slot, Store, tombstone, is_occupied, find_slot, expired, cleanup_slot,
  cleanup_slots, builtin_shm_cleanup, builtin_shm_get,
}
use litehttpd.Shm.Probe.{table, route, find_slot-eq-scan}
use litehttpd.Shm.Scan.{scan_removed}
use litehttpd.Shm.Laws.{IsKey, find_slot-lt, find_slot-hit}
use litehttpd.Shm.Probed.{IsProbed, find_hit}
use litehttpd.Shm.View.{IsValid, get_found, get_missing}

module _ (now : ℕ) where
  length-cleanup : (slots : List Slot) → length (cleanup_slots now slots).0 ≡ length slots
  unfolding cleanup_slots
  length-cleanup [] = refl
  length-cleanup (s ∷ slots) = ap suc (length-cleanup slots)

  table-cleanup :
      (slots : List Slot) (q : ℕ)
      → table (cleanup_slots now slots).0 q ≡ cleanup_slot now (table slots q)
  unfolding cleanup_slots
  table-cleanup [] q = refl
  table-cleanup (s ∷ slots) zero = refl
  table-cleanup (s ∷ slots) (suc q) = table-cleanup slots q

  removed : (s : Slot) → (cleanup_slot now s ≡ s) ⊎ ((cleanup_slot now s).state ≡ tombstone)
  unfolding cleanup_slot
  removed s = ground arith

  still : (s : Slot) → is_occupied (cleanup_slot now s).state ≡ true → cleanup_slot now s ≡ s
  unfolding cleanup_slot
  still s h = ground arith

  module _ (slots : List Slot) where
    abbrev cleaned : List Slot
    cleaned = (cleanup_slots now slots).0

    -- A record that is not removed is found where it was.
    kept :
        (k : Bytes) (i : ℕ)
        → cleanup_slot now (table slots i) ≡ table slots i
        → find_slot slots k ≡ some i
        → find_slot cleaned k ≡ some i
    kept k i e h =
        find_slot-eq-scan cleaned k
        ∙ rw (length-cleanup slots) (
            scan_removed (table slots) (table cleaned) k (route (length slots) k)
              (λ q. rw (table-cleanup slots q) (removed (table slots q))) (length slots) 0 i
              (table-cleanup slots i ∙ e) (sym (find_slot-eq-scan slots k) ∙ h))

    survivor :
        (i : ℕ) → is_occupied (table cleaned i).state ≡ true → table cleaned i ≡ table slots i
    survivor i occ =
        table-cleanup slots i ∙ still (table slots i) (rw (table-cleanup slots i) at occ)

    cleaned-IsProbed : IsProbed slots → IsProbed cleaned
    cleaned-IsProbed probed i lt occ =
        let e = survivor i occ in
        let (key, found) = probed i (rw (length-cleanup slots) at lt) (rw e at occ) in
        rw e (key, kept (table slots i).rec.ip i (sym (table-cleanup slots i) ∙ e) found)

    -- What is found afterwards was there before.
    find_before :
        (k : Bytes) (i : ℕ)
        → IsProbed slots
        → IsKey k
        → find_slot cleaned k ≡ some i
        → (find_slot slots k ≡ some i) × (table cleaned i ≡ table slots i)
    find_before k i probed hk h =
        let hit' = find_slot-hit cleaned k i h in
        let e = survivor i (ground arith) in
        let lt : i < length slots = rw (length-cleanup slots) at (find_slot-lt cleaned k i h) in
        (find_hit slots k i probed hk lt (rw e at hit'), e)

-- The view after a cleanup.
abbrev pub unexpired : ℕ → Option BruteForceRecord → Option BruteForceRecord
unexpired now none = none
unexpired now (some r) = if expired now r then none else some r

cleanup_slots_of :
    (st : Store) (now : ℕ) → (builtin_shm_cleanup st now).0.slots ≡ (cleanup_slots now st.slots).0
unfolding builtin_shm_cleanup
cleanup_slots_of st now = refl

-- A cleanup keeps the store valid.
pub cleanup-IsValid : (st : Store) (now : ℕ) → IsValid st → IsValid (builtin_shm_cleanup st now).0
cleanup-IsValid st now valid =
    subst IsProbed (sym (cleanup_slots_of st now)) (cleaned-IsProbed now st.slots valid)

expired_slot :
    (now : ℕ) (s : Slot)
    → is_occupied s.state ≡ true
    → expired now s.rec ≡ true
    → is_occupied (cleanup_slot now s).state ≡ false
unfolding cleanup_slot
expired_slot now s occ h = ground arith

fresh_slot : (now : ℕ) (s : Slot) → expired now s.rec ≡ false → cleanup_slot now s ≡ s
unfolding cleanup_slot
fresh_slot now s h = ground arith

expired_lost :
    (now : ℕ) (slots : List Slot) (k : Bytes) (i j : ℕ)
    → IsProbed slots
    → IsKey k
    → find_slot slots k ≡ some i
    → expired now (table slots i).rec ≡ true
    → find_slot (cleaned now slots) k ≡ some j
    → ⊥
expired_lost now slots k i j probed hk e old h =
    let (before, same) = find_before now slots k j probed hk h in
    let ij : i ≡ j = ground arith in
    let hit' = find_slot-hit slots k i e in
    let occ : is_occupied (table slots i).state ≡ true = ground arith in
    let off = expired_slot now (table slots i) occ old in
    cc (ap (λ (s : Slot). is_occupied s.state) (table-cleanup now slots i), occ, off)

-- In a valid store, under every key that fits the key field, a cleanup removes the record exactly
-- if it has expired.
pub get-cleanup :
    (st : Store) (now : ℕ) (k : Bytes)
    → IsValid st
    → IsKey k
    → builtin_shm_get (builtin_shm_cleanup st now).0 k ≡ unexpired now (builtin_shm_get st k)
get-cleanup st now k valid hk = go (find_slot st.slots k) refl
  where
    st' : Store
    st' = (builtin_shm_cleanup st now).0

    after : Option ℕ → Type 0
    after o = find_slot (cleaned now st.slots) k ≡ o

    there : (o : Option ℕ) → after o → find_slot st'.slots k ≡ o
    there o e = rw (cleanup_slots_of st now) e

    gone : ((i : ℕ) → after (some i) → ⊥) → (o : Option ℕ) → after o → builtin_shm_get st' k ≡ none
    gone never none e = get_missing st' k (there none e)
    gone never (some i) e = absurd (never i e)

    go :
        (o : Option ℕ)
        → find_slot st.slots k ≡ o
        → builtin_shm_get st' k ≡ unexpired now (builtin_shm_get st k)
    go none e =
        gone (λ i h. cc (e, (find_before now st.slots k i valid hk h).0)) _ refl
        ∙ sym (ap (unexpired now) (get_missing st k e))
    go (some i) e = elim (Bool-cases (expired now (table st.slots i).rec)) [
      | inl old ↦
          gone (λ j h. expired_lost now st.slots k i j valid hk e old h) _ refl
          ∙ sym (ap (unexpired now) (get_found st k i e) ∙ rw old refl)
      | inr new ↦
          let same = fresh_slot now (table st.slots i) new in
          get_found st' k i (there (some i) (kept now st.slots k i same e))
          ∙ ap (λ (s : Slot). some s.rec)
              (ap (λ (ss : List Slot). table ss i) (cleanup_slots_of st now)
                ∙ table-cleanup now st.slots i
                ∙ same)
          ∙ sym (ap (unexpired now) (get_found st k i e) ∙ rw new refl)
    ]
