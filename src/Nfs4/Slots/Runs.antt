-- ===== src/Nfs4/Slots/Runs.antt =====
-- src/nfs4/slots.rs: what every run of the slot table keeps.
use mathlib.Core.Path.{subst}
use nfs_crust.Prelude.{
  ℕ, zero, suc, ◌+◌, ◌-◌, ◌*◌, ◌/◌, ◌%◌, ◌≤◌, ◌<◌, max, ◌≡◌, refl, ap, sym, ◌∙◌, Bool, true, false,
  not, ◌&&◌, ◌||◌, some, List, [], ◌∷◌, length, ◌==◌, if◌then◌else◌, arith, Bool-cases, inl, inr,
}
use nfs_crust.Prelude.Words.{u32_limit}
use nfs_crust.Nfs4.Slots.{
  Slot, SlotTable, pack_slot_limits, unpack_slot_limits, new_slots, new_table, update_limits, Scan,
  behind, scan, Acquired, with_permit, acquire, slot_at, update_slot, advance_sequence,
  mark_unusable, release_slot, drop_guard, Step, acquires, advances, retires, drops, relimits,
  Reach, here, next,
}

abbrev pub is_free : Slot → Bool
is_free s = not s.locked && s.usable

abbrev pub is_usable : Slot → Bool
is_usable s = s.usable

abbrev pub one_if : Bool → ℕ
one_if b = if b then 1 else 0

abbrev pub count : (Slot → Bool) → List Slot → ℕ
count p [] = 0
count p (s ∷ ss) = one_if (p s) + count p ss

-- The enforced limit and the target of a table.
abbrev IsLimit : ℕ → ℕ × ℕ → Type 0
IsLimit n bounds = (bounds.0 < n) × (bounds.1 ≤ bounds.0)

pub record IsSound (t : SlotTable) : Type 0 where
  pub free : t.available ≡ count is_free t.slots
  pub live : t.live_slots ≡ count is_usable t.slots
  pub shut : t.closed ≡ (t.live_slots == 0)
  pub small : length t.slots ≤ u32_limit
  pub limited : IsLimit (length t.slots) (unpack_slot_limits t.slot_limits)

unpack-pack :
    (n enforced target : ℕ)
    → n ≤ u32_limit
    → enforced < n
    → target ≤ enforced
    → IsLimit n (unpack_slot_limits (pack_slot_limits enforced target))
unfolding unpack_slot_limits pack_slot_limits
unpack-pack n enforced target small h k =
    let high : (enforced * u32_limit + target) / u32_limit ≡ enforced = omega arith in
    let low : (enforced * u32_limit + target) % u32_limit ≡ target = omega arith in
    rw (high, low) (h, k)

length-update_slot : (i : ℕ) (a : Slot) (ss : List Slot) → length (update_slot i a ss) ≡ length ss
length-update_slot i a [] = refl
length-update_slot zero a (s ∷ ss) = refl
length-update_slot (suc i) a (s ∷ ss) = ap suc (length-update_slot i a ss)

count-update_slot :
    (p : Slot → Bool) (i : ℕ) (a s : Slot) (ss : List Slot)
    → slot_at i ss ≡ some s
    → count p (update_slot i a ss) + one_if (p s) ≡ count p ss + one_if (p a)
count-update_slot p i a s [] h = absurd (ground arith)
count-update_slot p zero a s (x ∷ ss) h = let e : x ≡ s = ground arith in rw e (omega arith)
count-update_slot p (suc i) a s (x ∷ ss) h = omega (arith, count-update_slot p i a s ss h)

-- What a scan takes: a free slot, which is one fewer then; the usable ones stay.
abbrev Took : List Slot → ℕ → Scan → Type 0
Took ss n (Scan.taken i ss') =
    (count is_free ss' + 1 ≡ count is_free ss)
    × (count is_usable ss' ≡ count is_usable ss)
    × (length ss' ≡ length ss)
    × (i < n)
Took ss n (Scan.missed locked) = Unit

behind-Took :
    (s : Slot) (ss : List Slot) (n : ℕ) (r : Scan)
    → Took ss n r
    → Took (s ∷ ss) (suc n) (behind s r)
behind-Took s ss n (Scan.taken i ss') h = (omega arith, omega arith, omega arith, omega arith)
behind-Took s ss n (Scan.missed locked) h = tt

scan-Took : (n : ℕ) (ss : List Slot) → Took ss n (scan n ss)
unfolding scan
scan-Took zero ss = tt
scan-Took (suc n) [] = tt
scan-Took (suc n) (s ∷ ss) = elim (Bool-cases (not s.locked && s.usable)) [
  | inl t ↦ rw t (ground arith, ground arith, refl, omega arith)
  | inr t ↦ rw t (behind-Took s ss n _ (scan-Took n ss))
]

abbrev SoundIf : Acquired → Type 0
SoundIf (Acquired.got i t) = IsSound t
SoundIf Acquired.blocked = Unit
SoundIf Acquired.unusable = Unit

acquire-SoundIf : (t : SlotTable) → IsSound t → SoundIf (acquire t)
unfolding acquire
acquire-SoundIf t v = chosen t.closed (t.available == 0) _ (found _ _ (scan-Took _ t.slots))
  where
    missed_one : (b : Bool) → SoundIf (if b then Acquired.blocked else Acquired.unusable)
    missed_one true = tt
    missed_one false = tt

    found : (n : ℕ) (r : Scan) → Took t.slots n r → SoundIf (with_permit t r)
    found n (Scan.taken j ss) k = record {
      free = omega (arith, v.free, k.0);
      live = v.live ∙ sym k.1;
      shut = v.shut;
      small = omega (arith, v.small, k.2);
      limited = subst (λ n. IsLimit n (unpack_slot_limits t.slot_limits)) (sym k.2) v.limited;
    }
    found n (Scan.missed locked) k = missed_one locked

    chosen :
        (a b : Bool) (r : Acquired)
        → SoundIf r
        → SoundIf (if a then Acquired.unusable else if b then Acquired.blocked else r)
    chosen true b r h = tt
    chosen false true r h = tt
    chosen false false r h = h

-- A slot of the table is replaced by one that is as usable, and as free but for the permits.
update-IsSound :
    (t : SlotTable) (i : ℕ) (s a : Slot) (available : ℕ)
    → slot_at i t.slots ≡ some s
    → a.usable ≡ s.usable
    → available + one_if (is_free s) ≡ t.available + one_if (is_free a)
    → IsSound t
    → IsSound (record t { slots = update_slot i a t.slots; available = available })
update-IsSound t i s a available at same permits v = record {
  free = omega (arith, count-update_slot is_free i a s t.slots at, v.free);
  live = v.live ∙ omega (arith, count-update_slot is_usable i a s t.slots at, ap one_if same);
  shut = v.shut;
  small = omega (arith, length-update_slot i a t.slots, v.small);
  limited =
      subst (λ n. IsLimit n (unpack_slot_limits t.slot_limits))
        (sym (length-update_slot i a t.slots)) v.limited;
}

-- The permit of a slot that is held.
returned :
    (usable locked : Bool) (n : ℕ)
    → locked ≡ true
    → (if usable then n + 1 else n) + one_if (not locked && usable) ≡ n + one_if usable
returned true true n h = omega arith
returned false true n h = omega arith
returned usable false n h = ground arith

held_free : (locked usable : Bool) → locked ≡ true → one_if (not locked && usable) ≡ 0
held_free true usable h = refl
held_free false usable h = ground arith

shut_after :
    (closed : Bool) (n : ℕ) → closed ≡ (n == 0) → 0 < n → (closed || (n == 1)) ≡ (n - 1 == 0)
shut_after closed n h k = ground arith

advance_sequence-IsSound :
    (t : SlotTable) (i : ℕ) (s : Slot)
    → slot_at i t.slots ≡ some s
    → IsSound t
    → IsSound (advance_sequence i s t)
unfolding advance_sequence
advance_sequence-IsSound t i s at v = update-IsSound t i s _ t.available at refl refl v

release_slot-IsSound :
    (t : SlotTable) (i : ℕ) (s : Slot)
    → slot_at i t.slots ≡ some s
    → s.locked ≡ true
    → IsSound t
    → IsSound (release_slot i s t)
unfolding release_slot
release_slot-IsSound t i s at held v =
    update-IsSound t i s _ _ at refl (returned s.usable s.locked t.available held) v

mark_unusable-IsSound :
    (t : SlotTable) (i : ℕ) (s : Slot)
    → slot_at i t.slots ≡ some s
    → s.locked ≡ true
    → IsSound t
    → IsSound (mark_unusable i s t)
unfolding mark_unusable
mark_unusable-IsSound t i s at held v = onward s.usable refl
  where
    onward :
        (u : Bool)
        → s.usable ≡ u
        → IsSound (
            if u
            then record t {
              slots = update_slot i (record s { usable = false }) t.slots;
              live_slots = t.live_slots - 1;
              closed = t.closed || (t.live_slots == 1);
            }
            else t)
    onward false e = v
    onward true e =
        let fewer = count-update_slot is_usable i (record s { usable = false }) s t.slots at in
        let one : one_if s.usable ≡ 1 = ap one_if e in
        record {
          free = omega (
            arith,
            count-update_slot is_free i (record s { usable = false }) s t.slots at,
            v.free,
            held_free s.locked s.usable held,
            held_free s.locked false held,
          );
          live = omega (arith, fewer, one, v.live);
          shut = shut_after t.closed t.live_slots v.shut (omega (arith, fewer, one, v.live));
          small =
              omega (arith, length-update_slot i (record s { usable = false }) t.slots, v.small);
          limited =
              subst (λ n. IsLimit n (unpack_slot_limits t.slot_limits))
                (sym (length-update_slot i (record s { usable = false }) t.slots)) v.limited;
        }

slot_at-update_slot :
    (i : ℕ) (a s : Slot) (ss : List Slot)
    → slot_at i ss ≡ some s
    → slot_at i (update_slot i a ss) ≡ some a
slot_at-update_slot i a s [] h = absurd (ground arith)
slot_at-update_slot zero a s (x ∷ ss) h = refl
slot_at-update_slot (suc i) a s (x ∷ ss) h = slot_at-update_slot i a s ss h

slot_at-mark_unusable :
    (t : SlotTable) (i : ℕ) (s : Slot)
    → slot_at i t.slots ≡ some s
    → slot_at i (mark_unusable i s t).slots ≡ some (record s { usable = false })
unfolding mark_unusable
slot_at-mark_unusable t i s at = onward s.usable refl
  where
    onward :
        (u : Bool)
        → s.usable ≡ u
        → slot_at i
            (if u
              then record t {
                slots = update_slot i (record s { usable = false }) t.slots;
                live_slots = t.live_slots - 1;
                closed = t.closed || (t.live_slots == 1);
              }
              else t).slots
          ≡ some (record s { usable = false })
    onward true e = slot_at-update_slot i _ s t.slots at
    onward false e = at ∙ ap (λ b. some (record s { usable = b })) e

drop_guard-IsSound :
    (outstanding : Bool) (t : SlotTable) (i : ℕ) (s : Slot)
    → slot_at i t.slots ≡ some s
    → s.locked ≡ true
    → IsSound t
    → IsSound (drop_guard outstanding i s t)
unfolding drop_guard
drop_guard-IsSound false t i s at held v = release_slot-IsSound t i s at held v
drop_guard-IsSound true t i s at held v =
    release_slot-IsSound (mark_unusable i s t) i (record s { usable = false })
      (slot_at-mark_unusable t i s at) held (mark_unusable-IsSound t i s at held v)

update_limits-IsSound :
    (t : SlotTable) (highest target : ℕ) → IsSound t → IsSound (update_limits t highest target)
unfolding update_limits
update_limits-IsSound t highest target v = record {
  free = v.free;
  live = v.live;
  shut = v.shut;
  small = v.small;
  limited = unpack-pack (length t.slots) _ _ v.small (omega (arith, v.limited.0)) (omega arith);
}

Step-IsSound : {t u : SlotTable} → Step t u → IsSound t → IsSound u
Step-IsSound {t} (acquires i t' h) v = subst SoundIf h (acquire-SoundIf t v)
Step-IsSound {t} (advances i s at held) v = advance_sequence-IsSound t i s at v
Step-IsSound {t} (retires i s at held) v = mark_unusable-IsSound t i s at held v
Step-IsSound {t} (drops outstanding i s at held) v = drop_guard-IsSound outstanding t i s at held v
Step-IsSound {t} (relimits highest target) v = update_limits-IsSound t highest target v

new_slots-count :
    (id n : ℕ)
    → (count is_free (new_slots id n) ≡ n)
      × (count is_usable (new_slots id n) ≡ n)
      × (length (new_slots id n) ≡ n)
new_slots-count id zero = (refl, refl, refl)
new_slots-count id (suc n) =
    let h = new_slots-count (suc id) n in (omega arith, omega arith, omega arith)

new_table-IsSound : (n : ℕ) → n < u32_limit → IsSound (new_table n)
unfolding new_table
new_table-IsSound n h =
    let c = new_slots-count 0 (max n 1) in
    record {
      free = sym c.0;
      live = sym c.1;
      shut = ground arith;
      small = omega (arith, c.2);
      limited =
          unpack-pack (length (new_slots 0 (max n 1))) _ _ (omega (arith, c.2)) (omega (arith, c.2))
            (omega arith);
    }

-- After any run from a new table of fewer than 2 ^ 32 slots, the permits are as many as the slots that
-- are usable and not taken, `live_slots` counts the usable slots, the permits are closed exactly when
-- no slot is usable, and the target of the server is at most its enforced limit, which is a slot.
pub Reach-IsSound : (n : ℕ) {t : SlotTable} → n < u32_limit → Reach (new_table n) t → IsSound t
Reach-IsSound n h here = new_table-IsSound n h
Reach-IsSound n h (next r s) = Step-IsSound s (Reach-IsSound n h r)
