-- ===== src/Nfs4/Slots/Requests.antt =====
-- src/nfs4/slots.rs: which slot a request takes, and the highest slot that it announces.
use mathlib.Core.Path.{subst}
use nfs_crust.Prelude.{
  ℕ, zero, suc, ◌+◌, ◌-◌, ◌≤◌, ◌<◌, max, ◌≡◌, refl, ap, Bool, true, false, not, ◌&&◌, ◌||◌, some,
  List, [], ◌∷◌, length, ltb, leb, ◌==◌, if◌then◌else◌, arith, Bool-cases, inl, inr,
}
use nfs_crust.Nfs4.Slots.{
  Slot, SlotTable, unpack_slot_limits, target_highest_slotid, after_active, active_highest_slotid,
  Highest, highest_within, request_highest_slotid, Scan, behind, scan, Acquired, with_permit,
  acquire, slot_at, update_slot,
}
use nfs_crust.Nfs4.Slots.Runs.{IsSound, is_free}

active-before :
    (i : ℕ) (s : Slot) (ss : List Slot)
    → slot_at i ss ≡ some s
    → s.active ≡ true
    → i < after_active ss
active-before i s [] h k = absurd (ground arith)
active-before zero s (x ∷ ss) h k = elim (Bool-cases (after_active ss == 0)) [
  | inl t ↦ rw t (ground arith)
  | inr t ↦ rw t (ground arith)
]
active-before (suc i) s (x ∷ ss) h k =
    let rest = active-before i s ss h k in
    elim (Bool-cases (after_active ss == 0)) [
      | inl t ↦ absurd (ground arith)
      | inr t ↦ rw t (omega arith)
    ]

grant :
    (a b : Bool) (m n : ℕ)
    → (if a then Highest.refused else if b then Highest.granted m else Highest.waits)
      ≡ Highest.granted n
    → (a ≡ false) × (b ≡ true) × (m ≡ n)
grant true b m n h = ground arith
grant false true m n h = ground arith
grant false false m n h = ground arith

-- A slot that may still be announced bounds the request's own slot and every active one, and is within
-- the enforced limit.
pub record Announces (t : SlotTable) (acquired n : ℕ) : Type 0 where
  pub own : acquired ≤ n
  pub others : (i : ℕ) (s : Slot) → slot_at i t.slots ≡ some s → s.active ≡ true → i ≤ n
  pub enforced : n ≤ (unpack_slot_limits t.slot_limits).0
  pub exists : n < length t.slots

-- In a sound table, the highest slot that a request announces is at least its own slot and every slot
-- whose active flag is set, at most what the server enforces, and a slot of the table.
pub request_highest_slotid-Announces :
    (t : SlotTable) (acquired n : ℕ)
    → IsSound t
    → request_highest_slotid t acquired ≡ Highest.granted n
    → Announces t acquired n
unfolding request_highest_slotid active_highest_slotid
request_highest_slotid-Announces t acquired n v h =
    let (own, active, top) =
      granted (unpack_slot_limits t.slot_limits) (after_active t.slots - 1) v.limited.1 h in
    record {
      own = own;
      others = λ i s at k. omega (arith, active-before i s t.slots at k, active);
      enforced = top;
      exists = omega (arith, top, v.limited.0);
    }
  where
    granted :
        (bounds : ℕ × ℕ) (active : ℕ)
        → bounds.1 ≤ bounds.0
        → highest_within bounds acquired active ≡ Highest.granted n
        → (acquired ≤ n) × (active ≤ n) × (n ≤ bounds.0)
    granted bounds active h e =
        let (low, fits, value) =
          grant (ltb bounds.1 acquired || ltb bounds.0 acquired) (leb active bounds.0)
            (max active bounds.1) n e in
        (ground arith, omega (arith, value), ground arith)

record FreeAt (ss : List Slot) (n i : ℕ) (ss' : List Slot) : Type 0 where
  slot : Slot
  was : slot_at i ss ≡ some slot
  free : is_free slot ≡ true
  low : i < n
  now : ss' ≡ update_slot i (record slot { locked = true; active = true }) ss

-- The slot that an acquisition takes: free before, within the target, and no other slot changes.
pub record TakesFree (t : SlotTable) (i : ℕ) (t' : SlotTable) : Type 0 where
  pub slot : Slot
  pub was : slot_at i t.slots ≡ some slot
  pub free : is_free slot ≡ true
  pub within : i ≤ target_highest_slotid t
  pub now : t'.slots ≡ update_slot i (record slot { locked = true; active = true }) t.slots
  pub permit : t'.available + 1 ≡ t.available

-- What a scan of the first `n` slots takes.
abbrev TakesFirst : List Slot → ℕ → Scan → Type 0
TakesFirst ss n (Scan.taken i ss') = FreeAt ss n i ss'
TakesFirst ss n (Scan.missed locked) = Unit

behind-TakesFirst :
    (x : Slot) (ss : List Slot) (n : ℕ) (r : Scan)
    → TakesFirst ss n r
    → TakesFirst (x ∷ ss) (suc n) (behind x r)
behind-TakesFirst x ss n (Scan.taken i ss') h = record {
  slot = h.slot;
  was = h.was;
  free = h.free;
  low = omega (arith, h.low);
  now = ap (λ t. x ∷ t) h.now;
}
behind-TakesFirst x ss n (Scan.missed locked) h = tt

scan-TakesFirst : (n : ℕ) (ss : List Slot) → TakesFirst ss n (scan n ss)
unfolding scan
scan-TakesFirst zero ss = tt
scan-TakesFirst (suc n) [] = tt
scan-TakesFirst (suc n) (s ∷ ss) = elim (Bool-cases (not s.locked && s.usable)) [
  | inl t ↦ rw t (record { slot = s; was = refl; free = t; low = omega arith; now = refl })
  | inr t ↦ rw t (behind-TakesFirst s ss n _ (scan-TakesFirst n ss))
]

abbrev TakesIf : SlotTable → Acquired → Type 0
TakesIf t (Acquired.got i t') = TakesFree t i t'
TakesIf t Acquired.blocked = Unit
TakesIf t Acquired.unusable = Unit

acquire-TakesIf : (t : SlotTable) → TakesIf t (acquire t)
unfolding acquire
acquire-TakesIf t = chosen t.closed (t.available == 0) refl
  where
    missed_one : (b : Bool) → TakesIf t (if b then Acquired.blocked else Acquired.unusable)
    missed_one true = tt
    missed_one false = tt

    found :
        (r : Scan)
        → (t.available == 0) ≡ false
        → TakesFirst t.slots (suc (target_highest_slotid t)) r
        → TakesIf t (with_permit t r)
    found (Scan.taken i ss) some_left h = record {
      slot = h.slot;
      was = h.was;
      free = h.free;
      within = omega (arith, h.low);
      now = h.now;
      permit = ground arith;
    }
    found (Scan.missed locked) some_left h = missed_one locked

    chosen :
        (closed empty : Bool)
        → (t.available == 0) ≡ empty
        → TakesIf t (
            if closed
            then Acquired.unusable
            else if empty
            then Acquired.blocked
            else with_permit t (scan (suc (target_highest_slotid t)) t.slots))
    chosen true empty h = tt
    chosen false true h = tt
    chosen false false h = found _ h (scan-TakesFirst _ t.slots)

-- A slot that an acquisition hands out was free and usable before and is within the server's target;
-- it is locked and active after, no other slot changes, and the acquisition uses up one permit.
pub acquire-TakesFree :
    (t : SlotTable) (i : ℕ) (t' : SlotTable) → acquire t ≡ Acquired.got i t' → TakesFree t i t'
acquire-TakesFree t i t' h = subst (TakesIf t) h (acquire-TakesIf t)
