-- ===== src/Shm/View.antt =====
-- The store as a finite map from keys to records.
use litehttpd.Prelude.{
  ℕ, zero, suc, ◌≡◌, ◌≢◌, refl, sym, ap, ◌∙◌, Bool, true, false, Option, none, some, arith, inl,
  inr, Bool-cases, Option-cases, subst, set, take, replicate,
}
use mathlib.Core.Bool.{false≢true}
use litehttpd.Prelude.Text.{Bytes}
use litehttpd.Shm.{
  BruteForceRecord, Slot, Store, blank, key_bytes, hit, find_slot, Place, replace, insert, full,
  place_slot, filled, write_at, fresh_record, increment, builtin_shm_get, builtin_shm_update,
  builtin_shm_init, builtin_shm_atomic_increment,
}
use litehttpd.Shm.Probe.{table}
use litehttpd.Shm.Laws.{
  IsKey, hit-filled, PlacedAt, place-find, find_slot-lt, at_i, off_i, find-written, find_slot-hit,
  hit_key,
}
use litehttpd.Shm.Probed.{IsProbed, hit_elsewhere, find_slot_other, written-IsProbed}

-- A store that the operations can produce.
abbrev pub IsValid : Store → Type 0
IsValid st = IsProbed st.slots

abbrev pub stored : Bytes → BruteForceRecord → BruteForceRecord
stored ip r = record r { ip = take key_bytes ip }

-- What a successful update did to the slots.
update_cases :
    (st : Store) (ip : Bytes) (r : BruteForceRecord)
    → (builtin_shm_update st ip r).1 ≡ true
    → (i : ℕ) × PlacedAt st.slots ip i
      × ((builtin_shm_update st ip r).0.slots ≡ set st.slots i (filled ip r))
unfolding builtin_shm_update
update_cases st ip r h = go (place_slot st.slots ip) refl h
  where
    go :
        (pl : Place)
        → place_slot st.slots ip ≡ pl
        → (write_at pl st ip r).1 ≡ true
        → (i : ℕ) × PlacedAt st.slots ip i
          × ((write_at (place_slot st.slots ip) st ip r).0.slots ≡ set st.slots i (filled ip r))
    go (replace i) e h' = (i, inl e, rw e)
    go (insert i) e h' = (i, inr e, rw e)
    go full e h' = cc

update_failed :
    (st : Store) (ip : Bytes) (r : BruteForceRecord)
    → (builtin_shm_update st ip r).1 ≡ false
    → (builtin_shm_update st ip r).0 ≡ st
unfolding builtin_shm_update
update_failed st ip r h = ground arith

pub get_found :
    (st : Store) (k : Bytes) (i : ℕ)
    → find_slot st.slots k ≡ some i
    → builtin_shm_get st k ≡ some (table st.slots i).rec
unfolding builtin_shm_get
get_found st k i h = rw h

pub get_missing :
    (st : Store) (k : Bytes) → find_slot st.slots k ≡ none → builtin_shm_get st k ≡ none
unfolding builtin_shm_get
get_missing st k h = rw h

-- After an update that answers success, the record is read back under its key, with the key as its
-- address.
pub get-update_self :
    (st : Store) (ip : Bytes) (r : BruteForceRecord)
    → (builtin_shm_update st ip r).1 ≡ true
    → builtin_shm_get (builtin_shm_update st ip r).0 ip ≡ some (stored ip r)
get-update_self st ip r h =
    let (i, placed, e) = update_cases st ip r h in
    get_found _ ip i (rw e (find-written st.slots ip i (filled ip r) placed (hit-filled ip r)))
    ∙ ap some (
        rw e (ap (λ (s : Slot). s.rec) (at_i st.slots ip i (filled ip r) placed (hit-filled ip r))))

-- In a valid store an update of one key changes what is read under no other key, where both keys
-- fit the key field.
pub get-update_ne :
    (st : Store) (ip k : Bytes) (r : BruteForceRecord)
    → IsValid st
    → IsKey ip
    → IsKey k
    → k ≢ ip
    → builtin_shm_get (builtin_shm_update st ip r).0 k ≡ builtin_shm_get st k
get-update_ne st ip k r valid hi hk ne = elim (Bool-cases (builtin_shm_update st ip r).1) [
  | inl done ↦
      let (i, placed, e) = update_cases st ip r done in
      let same = find_slot_other st.slots ip i r placed hi k hk ne valid in
      elim (Option-cases (find_slot st.slots k)) [
        | inl miss ↦ get_missing _ k (rw e (same ∙ miss)) ∙ sym (get_missing st k miss)
        | inr (j, at) ↦
            let there = same ∙ at in
            let off =
              hit_elsewhere st.slots ip i r placed hi k hk ne j (find_slot-hit _ k j there) in
            get_found _ k j (rw e there)
            ∙ ap some (
                rw e (
                  ap (λ (s : Slot). s.rec)
                    (off_i st.slots ip i (filled ip r) placed (hit-filled ip r) j off)))
            ∙ sym (get_found st k j at)
      ]
  | inr failed ↦ ap (λ (s : Store). builtin_shm_get s k) (update_failed st ip r failed)
]

-- An update of a key that fits the key field keeps the store valid.
pub update-IsValid :
    (st : Store) (ip : Bytes) (r : BruteForceRecord)
    → IsKey ip
    → IsValid st
    → IsValid (builtin_shm_update st ip r).0
update-IsValid st ip r hi valid = elim (Bool-cases (builtin_shm_update st ip r).1) [
  | inl done ↦
      let (i, placed, e) = update_cases st ip r done in
      subst IsProbed (sym e) (written-IsProbed st.slots ip i r placed hi valid)
  | inr failed ↦ rw (update_failed st ip r failed) valid
]

table-replicate : (n i : ℕ) → table (replicate n blank) i ≡ blank
table-replicate zero i = refl
table-replicate (suc n) zero = refl
table-replicate (suc n) (suc i) = table-replicate n i

-- A new store is valid.
pub init-IsValid : (n : ℕ) (st : Store) → builtin_shm_init n ≡ some st → IsValid st
unfolding builtin_shm_init
init-IsValid n st h =
    let e : st.slots ≡ replicate n blank = ground arith in
    subst IsProbed (sym e) (λ i lt occ. absurd (false≢true (rw (table-replicate n i) at occ)))

slot_eq :
    (s : Slot) (ip : Bytes)
    → hit s ip ≡ true
    → IsKey s.rec.ip
    → record s { rec = increment s.rec } ≡ filled ip (increment s.rec)
slot_eq s ip h key = let k : s.rec.ip ≡ take key_bytes ip = sym key ∙ hit_key s ip h in ground arith

abbrev pub incremented :
    Store → Bytes → ℕ → Option BruteForceRecord → Store × Bool × BruteForceRecord
incremented st ip now none =
    let r = fresh_record ip now in
    ((builtin_shm_update st ip r).0, (builtin_shm_update st ip r).1, r)
incremented st ip now (some r) =
    let r' = increment r in ((builtin_shm_update st ip r').0, (builtin_shm_update st ip r').1, r')

-- In a valid store the in-place increment is a read of the record followed by an update with the
-- next count, and for a key with no record an update with a fresh one.
pub increment-eq-get-update :
    (st : Store) (ip : Bytes) (now : ℕ)
    → IsValid st
    → builtin_shm_atomic_increment st ip now ≡ incremented st ip now (builtin_shm_get st ip)
unfolding builtin_shm_atomic_increment
increment-eq-get-update st ip now valid = elim (Option-cases (find_slot st.slots ip)) [
  | inl miss ↦ rw (get_missing st ip miss, miss)
  | inr (i, at) ↦
      let s = table st.slots i in
      let h = find_slot-hit st.slots ip i at in
      let key = (valid i (find_slot-lt st.slots ip i at) (ground arith)).0 in
      rw (get_found st ip i at, at, place-find st.slots ip i at) (cc (slot_eq s ip h key))
]

-- An update of a key that has a record succeeds.
pub update-found :
    (st : Store) (k : Bytes) (old r : BruteForceRecord)
    → builtin_shm_get st k ≡ some old
    → (builtin_shm_update st k r).1 ≡ true
unfolding builtin_shm_update
update-found st k old r h = elim (Option-cases (find_slot st.slots k)) [
  | inl miss ↦ cc (h, get_missing st k miss)
  | inr (i, at) ↦ rw (place-find st.slots k i at)
]
