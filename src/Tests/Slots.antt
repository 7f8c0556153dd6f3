-- ===== src/Tests/Slots.antt =====
-- A session with two slots: the first is taken, and retired with its request outstanding.
use nfs_crust.Prelude.{refl, true, false, [], ◌∷◌, arith}
use nfs_crust.Nfs4.Slots.{
  Slot, SlotTable, pack_slot_limits, unpack_slot_limits, target_highest_slotid, new_table,
  active_highest_slotid, request_highest_slotid, scan, acquire, drop_guard, acquires, drops, Reach,
  here, next,
}
use nfs_crust.Nfs4.Slots.Runs.{IsSound, Reach-IsSound}
use nfs_crust.Nfs4.Slots.Requests.{
  TakesFree, acquire-TakesFree, Announces, request_highest_slotid-Announces,
}

abbrev first : Slot
first = record { id = 0; sequenceid = 1; usable = true; locked = true; active = true }

abbrev second : Slot
second = record { id = 1; sequenceid = 1; usable = true; locked = false; active = false }

abbrev one_taken : SlotTable
one_taken = record {
  slots = first ∷ second ∷ [];
  available = 1;
  closed = false;
  live_slots = 2;
  slot_limits = pack_slot_limits 1 1;
}

run : Reach (new_table 2) (drop_guard true 0 first one_taken)
unfolding acquire scan target_highest_slotid unpack_slot_limits pack_slot_limits new_table
run = next (next here (acquires 0 one_taken refl)) (drops true 0 first refl refl)

Reach-IsSound_example : IsSound (drop_guard true 0 first one_taken)
Reach-IsSound_example = Reach-IsSound 2 (omega arith) run

acquire-TakesFree_example : TakesFree (new_table 2) 0 one_taken
unfolding acquire scan target_highest_slotid unpack_slot_limits pack_slot_limits new_table
acquire-TakesFree_example = acquire-TakesFree (new_table 2) 0 one_taken refl

request_highest_slotid-Announces_example : Announces (new_table 2) 0 1
unfolding request_highest_slotid active_highest_slotid unpack_slot_limits pack_slot_limits new_table
request_highest_slotid-Announces_example =
    request_highest_slotid-Announces (new_table 2) 0 1 (Reach-IsSound 2 (omega arith) here) refl
