-- ===== src/Shm/Probe.antt =====
-- The probe loops as recursions over the number of slots already visited.
use native.Mathlib.Nat.{mod-add-mod, mod-eq_of_lt, mod-eq-sub-mod, mod-lt}
use litehttpd.Prelude.{
  ℕ, zero, suc, ◌+◌, ◌-◌, ◌%◌, ◌<◌, ◌≡◌, refl, ap, ◌∙◌, true, false, Option, none, some, List, [],
  ◌∷◌, arith, ◌==◌, if◌then◌else◌, length, get_or, dec_lt, subst,
}
use litehttpd.Prelude.Text.{Bytes}
use litehttpd.Shm.{
  Slot, blank, hash_ip, hit, is_empty, find, find_slot, Place, replace, insert, choose,
  note_tombstone, wrapped, place, place_slot,
}

-- The index of the `j`-th slot that is visited.
abbrev pub pos : ℕ → ℕ → ℕ → ℕ
pos capacity start j = (start + j) % capacity

pub pos-suc : (c start j : ℕ) → (pos c start j + 1) % c ≡ pos c start (suc j)
pos-suc c start j = mod-add-mod (start + j) c 1 ∙ ap (λ (t : ℕ). t % c) (omega arith)

pos_inside : (c start j : ℕ) → start < c → suc j < c → (pos c start (suc j) == start) ≡ false
pos_inside c start j h lt = elim (dec_lt (start + suc j) c) [
  | yes below ↦ rw (mod-eq_of_lt below) (ground arith)
  | no above ↦
      let e : (start + suc j) % c ≡ start + suc j - c =
        mod-eq-sub-mod (omega arith) ∙ mod-eq_of_lt (omega arith) in
      rw e (ground arith)
]

pos_round : (c start j : ℕ) → start < c → suc j ≡ c → (pos c start (suc j) == start) ≡ true
pos_round c start j h e =
    let e' : (start + suc j) % c ≡ start =
      mod-eq-sub-mod (omega arith) ∙ ap (λ (t : ℕ). t % c) (omega arith) ∙ mod-eq_of_lt h in
    rw e' (ground arith)

-- Both loops over a table `t` from indices to slots, visiting the indices `p j`, `p (j + 1)`, ….
module _ (t : ℕ → Slot) (ip : Bytes) (p : ℕ → ℕ) where
  unfoldable pub scan : ℕ → ℕ → Option ℕ
  scan zero j = none
  scan (suc n) j =
      let rest = scan n (suc j) in
      if hit (t (p j)) ip then some (p j) else if is_empty (t (p j)).state then none else rest

  unfoldable pub settle : ℕ → ℕ → Option ℕ → Place
  settle zero j first = wrapped first
  settle (suc n) j first =
      let first' = note_tombstone (t (p j)).state first (p j) in
      let rest = settle n (suc j) first' in
      if hit (t (p j)) ip
      then replace (p j)
      else if is_empty (t (p j)).state
      then insert (choose first' (p j))
      else rest

abbrev pub table : List Slot → ℕ → Slot
table slots i = get_or slots i blank

module _ (slots : List Slot) (ip : Bytes) (start : ℕ) (inside : start < length slots) where
  find-eq-scan :
      (n j : ℕ)
      → suc n + j ≡ length slots
      → find (suc n) start (pos (length slots) start j) slots ip
        ≡ scan (table slots) ip (pos (length slots) start) (suc n) j
  unfolding find scan
  find-eq-scan zero j e =
      rw (pos-suc (length slots) start j, pos_round (length slots) start j inside (omega arith))
        (ground arith)
  find-eq-scan (suc n) j e = rw (
    pos-suc (length slots) start j,
    pos_inside (length slots) start j inside (omega arith),
    find-eq-scan n (suc j) (omega arith),
  )

  place-eq-settle :
      (n j : ℕ) (first : Option ℕ)
      → suc n + j ≡ length slots
      → place (suc n) start (pos (length slots) start j) first slots ip
        ≡ settle (table slots) ip (pos (length slots) start) (suc n) j first
  unfolding place settle
  place-eq-settle zero j first e =
      rw (pos-suc (length slots) start j, pos_round (length slots) start j inside (omega arith))
        (ground arith)
  place-eq-settle (suc n) j first e = rw (
    pos-suc (length slots) start j,
    pos_inside (length slots) start j inside (omega arith),
    place-eq-settle n (suc j)
        (note_tombstone (table slots (pos (length slots) start j)).state first
          (pos (length slots) start j))
        (omega arith),
  )

-- The indices in the order in which the key visits them.
abbrev pub route : ℕ → Bytes → ℕ → ℕ
route capacity ip = pos capacity (hash_ip ip capacity)

hash_ip-lt : (ip : Bytes) (c : ℕ) → 0 < c → hash_ip ip c < c
unfolding hash_ip
hash_ip-lt ip c h = mod-lt _ h

pub route-lt : (c : ℕ) (ip : Bytes) (j : ℕ) → 0 < c → route c ip j < c
route-lt c ip j h = mod-lt _ h

route-zero : (c : ℕ) (ip : Bytes) → 0 < c → route c ip 0 ≡ hash_ip ip c
route-zero c ip h = ap (λ (k : ℕ). k % c) (omega arith) ∙ mod-eq_of_lt (hash_ip-lt ip c h)

pub find_slot-eq-scan :
    (slots : List Slot) (ip : Bytes)
    → find_slot slots ip ≡ scan (table slots) ip (route (length slots) ip) (length slots) 0
unfolding find_slot
find_slot-eq-scan [] ip = unfold find scan in refl
find_slot-eq-scan (s ∷ slots) ip =
    let c = suc (length slots) in
    let h : 0 < c = omega arith in
    subst
      (λ (k : ℕ).
        find c (hash_ip ip c) k (s ∷ slots) ip ≡ scan (table (s ∷ slots)) ip (route c ip) c 0)
      (route-zero c ip h)
      (find-eq-scan (s ∷ slots) ip (hash_ip ip c) (hash_ip-lt ip c h) (length slots) 0
        (omega arith))

pub place_slot-eq-settle :
    (slots : List Slot) (ip : Bytes)
    → place_slot slots ip ≡ settle (table slots) ip (route (length slots) ip) (length slots) 0 none
unfolding place_slot
place_slot-eq-settle [] ip = unfold place settle in refl
place_slot-eq-settle (s ∷ slots) ip =
    let c = suc (length slots) in
    let h : 0 < c = omega arith in
    subst
      (λ (k : ℕ).
        place c (hash_ip ip c) k none (s ∷ slots) ip
        ≡ settle (table (s ∷ slots)) ip (route c ip) c 0 none)
      (route-zero c ip h)
      (place-eq-settle (s ∷ slots) ip (hash_ip ip c) (hash_ip-lt ip c h) (length slots) 0 none
        (omega arith))
