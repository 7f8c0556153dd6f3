-- ===== src/Nfs4/Slots.antt =====
-- src/nfs4/slots.rs: the slots of a session. A permit of `available` is a natural, the lock of a slot a
-- flag; tasks that wait for a notification try again by another step. The scan of `acquire` is one step,
-- and so is the drop of a guard, which in the source unlocks the slot first and clears its active flag
-- after that.
pub mod Runs
pub mod Requests
use nfs_crust.Prelude.{
  ℕ, zero, suc, ◌+◌, ◌-◌, ◌*◌, ◌/◌, ◌%◌, min, max, ◌≡◌, Bool, true, false, not, ◌&&◌, ◌||◌, Option,
  none, some, List, [], ◌∷◌, length, ltb, leb, ◌==◌, if◌then◌else◌,
}
use nfs_crust.Prelude.Words.{u32_limit}

-- `SlotState`, whether its lock is held, and its entry of `active`.
pub record Slot : Type 0 where
  pub id : ℕ
  pub sequenceid : ℕ
  pub usable : Bool
  pub locked : Bool
  pub active : Bool

pub record SlotTable : Type 0 where
  pub slots : List Slot
  pub available : ℕ
  pub closed : Bool
  pub live_slots : ℕ
  pub slot_limits : ℕ

unfoldable pub pack_slot_limits : ℕ → ℕ → ℕ
pack_slot_limits enforced target = enforced * u32_limit + target

-- `SlotTable::slot_limits`: the enforced highest slot and the target.
unfoldable pub unpack_slot_limits : ℕ → ℕ × ℕ
unpack_slot_limits limits = (limits / u32_limit, limits % u32_limit)

abbrev pub new_slots : ℕ → ℕ → List Slot
new_slots id zero = []
new_slots id (suc n) =
    record { id = id; sequenceid = 1; usable = true; locked = false; active = false }
    ∷ new_slots (suc id) n

-- `SlotTable::new`
unfoldable pub new_table : ℕ → SlotTable
new_table slot_count =
    let n = max slot_count 1 in
    record {
      slots = new_slots 0 n;
      available = n;
      closed = false;
      live_slots = n;
      slot_limits = pack_slot_limits (n - 1) (n - 1);
    }

unfoldable pub target_highest_slotid : SlotTable → ℕ
target_highest_slotid t = (unpack_slot_limits t.slot_limits).1

unfoldable pub effective_len : SlotTable → ℕ
effective_len t = min (target_highest_slotid t + 1) t.live_slots

-- The index after the last active slot, 0 without any.
abbrev pub after_active : List Slot → ℕ
after_active [] = 0
after_active (s ∷ ss) =
    let rest = after_active ss in if rest == 0 then (if s.active then 1 else 0) else suc rest

-- `rposition`, 0 without any active slot.
unfoldable pub active_highest_slotid : List Slot → ℕ
active_highest_slotid slots = after_active slots - 1

pub data Highest : Type 0 where
  refused : Highest
  granted : ℕ → Highest
  waits : Highest

abbrev pub highest_within : ℕ × ℕ → ℕ → ℕ → Highest
highest_within (enforced, target) acquired active =
    if ltb target acquired || ltb enforced acquired
    then Highest.refused
    else if leb active enforced
    then Highest.granted (max active target)
    else Highest.waits

-- One pass of its loop.
unfoldable pub request_highest_slotid : SlotTable → ℕ → Highest
request_highest_slotid t acquired_slotid =
    highest_within (unpack_slot_limits t.slot_limits) acquired_slotid
      (active_highest_slotid t.slots)

unfoldable pub update_limits : SlotTable → ℕ → ℕ → SlotTable
update_limits t highest_slotid target_highest =
    let local = length t.slots - 1 in
    let enforced = min highest_slotid local in
    record t { slot_limits = pack_slot_limits enforced (min (min target_highest enforced) local) }

pub data Scan : Type 0 where
  taken : ℕ → List Slot → Scan
  missed : Bool → Scan

abbrev pub behind : Slot → Scan → Scan
behind s (Scan.taken i ss) = Scan.taken (suc i) (s ∷ ss)
behind s (Scan.missed locked) = Scan.missed (s.locked || locked)

-- The first slot of some that is not locked and usable, taken; or whether one was locked.
unfoldable pub scan : ℕ → List Slot → Scan
scan zero ss = Scan.missed false
scan (suc n) [] = Scan.missed false
scan (suc n) (s ∷ ss) =
    let rest = scan n ss in
    if not s.locked && s.usable
    then Scan.taken 0 (record s { locked = true; active = true } ∷ ss)
    else behind s rest

pub data Acquired : Type 0 where
  got : ℕ → SlotTable → Acquired
  blocked : Acquired
  unusable : Acquired

abbrev pub with_permit : SlotTable → Scan → Acquired
with_permit t (Scan.taken i slots) =
    Acquired.got i (record t { slots = slots; available = t.available - 1 })
with_permit t (Scan.missed locked) = if locked then Acquired.blocked else Acquired.unusable

-- One pass of its loop.
unfoldable pub acquire : SlotTable → Acquired
acquire t =
    if t.closed
    then Acquired.unusable
    else if t.available == 0
    then Acquired.blocked
    else with_permit t (scan (suc (target_highest_slotid t)) t.slots)

abbrev pub slot_at : ℕ → List Slot → Option Slot
slot_at i [] = none
slot_at zero (s ∷ ss) = some s
slot_at (suc i) (s ∷ ss) = slot_at i ss

abbrev pub update_slot : ℕ → Slot → List Slot → List Slot
update_slot i a [] = []
update_slot zero a (s ∷ ss) = a ∷ ss
update_slot (suc i) a (s ∷ ss) = s ∷ update_slot i a ss

-- `SlotGuard::advance_sequence` of the slot at an index, which the guard holds.
unfoldable pub advance_sequence : ℕ → Slot → SlotTable → SlotTable
advance_sequence i s t = record t {
  slots = update_slot i (record s { sequenceid = (s.sequenceid + 1) % u32_limit }) t.slots;
}

-- `SlotGuard::mark_unusable`
unfoldable pub mark_unusable : ℕ → Slot → SlotTable → SlotTable
mark_unusable i s t =
    if s.usable
    then record t {
      slots = update_slot i (record s { usable = false }) t.slots;
      live_slots = t.live_slots - 1;
      closed = t.closed || (t.live_slots == 1);
    }
    else t

-- The permit goes back unless the slot is retired, which is when it became unusable under this guard.
unfoldable pub release_slot : ℕ → Slot → SlotTable → SlotTable
release_slot i s t = record t {
  slots = update_slot i (record s { locked = false; active = false }) t.slots;
  available = if s.usable then t.available + 1 else t.available;
}

-- The drop of a guard whose request was answered, and of one whose request is outstanding.
unfoldable pub drop_guard : Bool → ℕ → Slot → SlotTable → SlotTable
drop_guard false i s t = release_slot i s t
drop_guard true i s t = release_slot i (record s { usable = false }) (mark_unusable i s t)

pub data Step (t : SlotTable) : SlotTable → Type 0 where
  acquires : (i : ℕ) (t' : SlotTable) → acquire t ≡ Acquired.got i t' → Step t t'
  advances :
      (i : ℕ) (s : Slot)
      → slot_at i t.slots ≡ some s
      → s.locked ≡ true
      → Step t (advance_sequence i s t)
  retires :
      (i : ℕ) (s : Slot)
      → slot_at i t.slots ≡ some s
      → s.locked ≡ true
      → Step t (mark_unusable i s t)
  drops :
      (outstanding : Bool) (i : ℕ) (s : Slot)
      → slot_at i t.slots ≡ some s
      → s.locked ≡ true
      → Step t (drop_guard outstanding i s t)
  relimits : (highest target : ℕ) → Step t (update_limits t highest target)

pub data Reach (t : SlotTable) : SlotTable → Type 0 where
  here : Reach t t
  next : {u v : SlotTable} → Reach t u → Step u v → Reach t v
