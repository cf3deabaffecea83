-- ===== src/Shm.antt =====
-- src/htaccess_shm.c, the built-in store that stock servers use for the brute-force and rate-limit
-- counters: an open-addressing table with linear probing and tombstones. Calls of malloc succeed.
pub mod Probe
pub mod Scan
pub mod Laws
pub mod Probed
pub mod View
pub mod Cleanup
use mathlib.Core.Option
use litehttpd.Prelude.{
  ℕ, zero, suc, ◌+◌, ◌-◌, ◌*◌, ◌%◌, ◌^◌, ◌<◌, ◌≡◌, Bool, true, false, ◌&&◌, ◌||◌, Option, none,
  some, List, [], ◌∷◌, ltb, leb, ◌==◌, if◌then◌else◌, length, get_or, set, take, replicate,
}
use litehttpd.Prelude.Text.{Bytes, str_eq}

-- brute_force_record_t; times are seconds since the epoch
pub record BruteForceRecord : Type 0 where
  pub magic : ℕ
  pub ip : Bytes
  pub attempt_count : ℕ
  pub first_attempt : ℕ
  pub blocked_until : ℕ

abbrev pub bf_record_magic : ℕ
bf_record_magic = 0x4C485402

-- memset(rec, 0, sizeof *rec)
abbrev pub zero_record : BruteForceRecord
zero_record = record { magic = 0; ip = []; attempt_count = 0; first_attempt = 0; blocked_until = 0 }

-- SHM_SLOT_EMPTY, SHM_SLOT_OCCUPIED, SHM_SLOT_TOMBSTONE
pub data SlotState : Type 0 where
  empty occupied tombstone : SlotState

-- records[i] with occupied[i]
pub record Slot : Type 0 where
  pub state : SlotState
  pub rec : BruteForceRecord

abbrev pub blank : Slot
blank = record { state = empty; rec = zero_record }

-- shm_store_t; the capacity is the length of `slots`
pub record Store : Type 0 where
  pub slots : List Slot
  pub count : ℕ

-- sizeof(rec.ip) - 1: what strncmp compares and strncpy keeps of a key
abbrev pub key_bytes : ℕ
key_bytes = 49

-- The loop of hash_ip over an unsigned long.
unfoldable pub djb2 : ℕ → Bytes → ℕ
djb2 hash [] = hash
djb2 hash (c ∷ s) = djb2 ((hash * 32 + hash + c) % 2 ^ 64) s

unfoldable pub hash_ip : Bytes → ℕ → ℕ
unfolding djb2
hash_ip ip capacity = djb2 5381 ip % capacity

abbrev pub is_occupied : SlotState → Bool
is_occupied occupied = true
is_occupied _ = false

abbrev pub is_empty : SlotState → Bool
is_empty empty = true
is_empty _ = false

-- strncmp(slot.ip, ip, sizeof(slot.ip) - 1) == 0
abbrev pub has_key : Slot → Bytes → Bool
has_key s ip = str_eq (take key_bytes s.rec.ip) (take key_bytes ip)

abbrev pub hit : Slot → Bytes → Bool
hit s ip = is_occupied s.state && has_key s ip

-- The loop of builtin_shm_get: the index at which it stops with a record. The first argument
-- bounds the rounds; `capacity` rounds are enough, since the index is back at `start` then.
unfoldable pub find : ℕ → ℕ → ℕ → List Slot → Bytes → Option ℕ
find zero start idx slots ip = none
find (suc n) start idx slots ip =
    let s = get_or slots idx blank in
    let next = (idx + 1) % length slots in
    let rest = find n start next slots ip in
    if hit s ip
    then some idx
    else if is_empty s.state
    then none
    else if next == start
    then none
    else rest

unfoldable pub find_slot : List Slot → Bytes → Option ℕ
unfolding find hash_ip
find_slot slots ip =
    let start = hash_ip ip (length slots) in find (length slots) start start slots ip

unfoldable pub builtin_shm_get : Store → Bytes → Option BruteForceRecord
unfolding find_slot
builtin_shm_get st ip = Option.map (λ i. (get_or st.slots i blank).rec) (find_slot st.slots ip)

-- Where builtin_shm_update writes: over a record, into a free slot, or nowhere.
pub data Place : Type 0 where
  replace insert : ℕ → Place
  full : Place

-- The first tombstone on the way, else this empty slot.
abbrev pub choose : Option ℕ → ℕ → ℕ
choose none idx = idx
choose (some t) idx = t

abbrev pub note_tombstone : SlotState → Option ℕ → ℕ → Option ℕ
note_tombstone tombstone none idx = some idx
note_tombstone _ first idx = first

-- After a whole round.
abbrev pub wrapped : Option ℕ → Place
wrapped none = full
wrapped (some t) = insert t

-- The loop of builtin_shm_update, with `first_tombstone`.
unfoldable pub place : ℕ → ℕ → ℕ → Option ℕ → List Slot → Bytes → Place
place zero start idx first slots ip = wrapped first
place (suc n) start idx first slots ip =
    let s = get_or slots idx blank in
    let next = (idx + 1) % length slots in
    let first' = note_tombstone s.state first idx in
    let rest = place n start next first' slots ip in
    if hit s ip
    then replace idx
    else if is_empty s.state
    then insert (choose first' idx)
    else if next == start
    then wrapped first'
    else rest

unfoldable pub place_slot : List Slot → Bytes → Place
unfolding place hash_ip
place_slot slots ip =
    let start = hash_ip ip (length slots) in place (length slots) start start none slots ip

-- memcpy of the record, then strncpy of the key
abbrev pub filled : Bytes → BruteForceRecord → Slot
filled ip r = record { state = occupied; rec = record r { ip = take key_bytes ip } }

abbrev pub write_at : Place → Store → Bytes → BruteForceRecord → Store × Bool
write_at (replace i) st ip r = (record st { slots = set st.slots i (filled ip r) }, true)
write_at (insert i) st ip r =
    (record { slots = set st.slots i (filled ip r); count = st.count + 1 }, true)
write_at full st ip r = (st, false)

-- The result is false for -1.
unfoldable pub builtin_shm_update : Store → Bytes → BruteForceRecord → Store × Bool
unfolding place_slot
builtin_shm_update st ip r = write_at (place_slot st.slots ip) st ip r

-- shm_init with the built-in store
unfoldable pub builtin_shm_init : ℕ → Option Store
builtin_shm_init max_records =
    if max_records == 0
    then none
    else some (record { slots = replicate max_records blank; count = 0 })

-- The test of builtin_shm_cleanup: a block that is over, or 10 minutes since the first attempt.
unfoldable pub expired : ℕ → BruteForceRecord → Bool
expired now rec =
    if ltb 0 rec.blocked_until && leb rec.blocked_until now
    then true
    else rec.blocked_until == 0 && ltb 0 rec.first_attempt && ltb 600 (now - rec.first_attempt)

unfoldable pub cleanup_slot : ℕ → Slot → Slot
unfolding expired
cleanup_slot now s =
    if is_occupied s.state && expired now s.rec
    then record { state = tombstone; rec = zero_record }
    else s

-- The loop of builtin_shm_cleanup over the slots, with how many it cleaned.
unfoldable pub cleanup_slots : ℕ → List Slot → List Slot × ℕ
unfolding cleanup_slot
cleanup_slots now [] = ([], 0)
cleanup_slots now (s ∷ slots) =
    let (rest, cleaned) = cleanup_slots now slots in
    (
      cleanup_slot now s ∷ rest,
      if is_occupied s.state && expired now s.rec then cleaned + 1 else cleaned,
    )

unfoldable pub builtin_shm_cleanup : Store → ℕ → Store × ℕ
unfolding cleanup_slots
builtin_shm_cleanup st now =
    let (slots, cleaned) = cleanup_slots now st.slots in
    (record { slots = slots; count = st.count - cleaned }, cleaned)

-- A record for the first attempt of a key.
abbrev pub fresh_record : Bytes → ℕ → BruteForceRecord
fresh_record ip now = record {
  magic = bf_record_magic;
  ip = take key_bytes ip;
  attempt_count = 1;
  first_attempt = now;
  blocked_until = 0;
}

abbrev pub increment : BruteForceRecord → BruteForceRecord
increment r = record r { attempt_count = r.attempt_count + 1 }

-- `rec->attempt_count++` through the pointer that builtin_shm_get returned.
abbrev pub increment_at : Option ℕ → Store → Bytes → ℕ → Store × Bool × BruteForceRecord
increment_at (some i) st ip now =
    let s = get_or st.slots i blank in
    (
      record st { slots = set st.slots i (record s { rec = increment s.rec }) },
      true,
      increment s.rec,
    )
increment_at none st ip now =
    let r = fresh_record ip now in let (st', done) = builtin_shm_update st ip r in (st', done, r)

-- The new store, the result and the record given back in `out`.
unfoldable pub builtin_shm_atomic_increment : Store → Bytes → ℕ → Store × Bool × BruteForceRecord
unfolding find_slot builtin_shm_update
builtin_shm_atomic_increment st ip now = increment_at (find_slot st.slots ip) st ip now
