-- ===== src/Touch/Slots.antt =====
-- Every access of the bridge stays inside its arrays.
use gud.Base.{
  ℕ, zero, suc, ◌+◌, ◌%◌, ◌≤◌, ◌<◌, ◌≡◌, refl, ◌∙◌, ap, arith, true, false, Option, some, List, [],
  ◌∷◌, ◌++◌, length, ◌==◌, ltb, Bool-cases, inl, inr, ltb→lt, ge→ltb, take,
}
use gud.Touch.{
  TouchSlot, TouchState, InputEvent, update_slot, with_slot, single_touch, multi_touch,
  handle_event, to_unsigned, collect, set_first_count, send_report, scantime_of, on_event, Read,
  read_event, read_sync, read_again, read_failed, bridge, max_num_slots, ev_abs, abs_mt_slot,
  ev_syn,
}

-- The array has the announced number of slots, at least one and at most 127, and the current one is
-- among them.
pub record IsInside (s : TouchState) : Type 0 where
  pub all_slots : length s.slots ≡ s.num_slots
  pub some_slot : 0 < s.num_slots
  pub few_slots : s.num_slots ≤ max_num_slots
  pub current_inside : s.current_slot < s.num_slots

-- The result is there and inside.
abbrev pub Inside : Option TouchState → Type 0
Inside o = (s : TouchState) × (o ≡ some s) × IsInside s

update_slot-length :
    (i : ℕ) (f : TouchSlot → TouchSlot) (slots : List TouchSlot)
    → i < length slots
    → (slots' : List TouchSlot) × (update_slot i f slots ≡ some slots')
      × (length slots' ≡ length slots)
unfolding update_slot
update_slot-length i f [] h = absurd (omega arith)
update_slot-length zero f (slot ∷ rest) h = (f slot ∷ rest, refl, refl)
update_slot-length (suc i) f (slot ∷ rest) h =
    let (rest', e, size) = update_slot-length i f rest (omega arith) in
    (slot ∷ rest', ground arith, ap suc size)

with_slot-Inside :
    (i : ℕ) (f : TouchSlot → TouchSlot) (s : TouchState)
    → IsInside s
    → i < s.num_slots
    → Inside (with_slot i f s)
unfolding with_slot
with_slot-Inside i f s h fits =
    let (slots, e, size) = update_slot-length i f s.slots (omega (arith, h.all_slots)) in
    (
      record s { slots = slots },
      ground arith,
      record {
        all_slots = size ∙ h.all_slots;
        some_slot = h.some_slot;
        few_slots = h.few_slots;
        current_inside = h.current_inside;
      },
    )

select-IsInside :
    (n : ℕ) (s : TouchState)
    → IsInside s
    → n < s.num_slots
    → IsInside (record s { current_slot = n })
select-IsInside n s h fits = record {
  all_slots = h.all_slots;
  some_slot = h.some_slot;
  few_slots = h.few_slots;
  current_inside = fits;
}

handle_event-Inside : (ev : InputEvent) (s : TouchState) → IsInside s → Inside (handle_event ev s)
unfolding handle_event
handle_event-Inside ev s h =
    let one = with_slot-Inside 0 (single_touch ev) s h h.some_slot in
    let many = with_slot-Inside s.current_slot (multi_touch ev) s h h.current_inside in
    elim (Bool-cases s.multitouch) [
      | inr single ↦ (one.0, ground arith, one.2)
      | inl multi ↦ elim (Bool-cases (ev.kind == ev_abs)) [
        | inr other ↦ (s, ground arith, h)
        | inl is_abs ↦ elim (Bool-cases (ev.code == abs_mt_slot)) [
          | inr code ↦ (many.0, ground arith, many.2)
          | inl selects ↦ elim (Bool-cases (ltb (to_unsigned ev.value) s.num_slots)) [
            | inr outside ↦ (s, ground arith, h)
            | inl inside ↦ (
              record s { current_slot = to_unsigned ev.value },
              ground arith,
              select-IsInside (to_unsigned ev.value) s h
                  (ltb→lt (to_unsigned ev.value) s.num_slots inside),
            )
          ]
        ]
      ]
    ]

pub collect-length :
    (contact scantime : ℕ) (slots : List TouchSlot)
    → (length (collect contact scantime slots).0 ≤ length slots)
      × (length (collect contact scantime slots).1 ≡ length slots)
unfolding collect
collect-length contact scantime [] = (omega arith, refl)
collect-length contact scantime (slot ∷ rest) =
    ground (arith, collect-length contact scantime rest, collect-length (contact + 1) scantime rest)

-- The writes are there and the state after them is inside.
abbrev pub Writes : Option (List (List ℕ) × TouchState) → Type 0
Writes o = (written : List (List ℕ)) × (s : TouchState) × (o ≡ some (written, s)) × IsInside s

slots-IsInside :
    (slots : List TouchSlot) (s : TouchState)
    → IsInside s
    → length slots ≡ length s.slots
    → IsInside (record s { slots = slots })
slots-IsInside slots s h size = record {
  all_slots = size ∙ h.all_slots;
  some_slot = h.some_slot;
  few_slots = h.few_slots;
  current_inside = h.current_inside;
}

send_report-Writes : (ev : InputEvent) (s : TouchState) → IsInside s → Writes (send_report ev s)
unfolding send_report
send_report-Writes ev s h =
    let scantime = scantime_of ev in
    let (few, size) = collect-length 0 scantime s.slots in
    let reports = (collect 0 scantime s.slots).0 in
    let slots = (collect 0 scantime s.slots).1 in
    let within : ltb max_num_slots (length reports) ≡ false =
      ge→ltb max_num_slots (length reports) (omega (arith, h.all_slots, h.few_slots)) in
    elim (Bool-cases (length reports % 256 == 0)) [
      | inl empty ↦ ([], record s { slots = slots }, ground arith, slots-IsInside slots s h size)
      | inr some_contact ↦ (
        take (length reports % 256) (set_first_count (length reports % 256) reports),
        record s { slots = slots },
        ground arith,
        slots-IsInside slots s h size,
      )
    ]

on_event-Writes : (ev : InputEvent) (s : TouchState) → IsInside s → Writes (on_event ev s)
unfolding on_event
on_event-Writes ev s h = elim (Bool-cases (ev.kind == ev_syn)) [
  | inl syn ↦ let (written, s', e, i) = send_report-Writes ev s h in (written, s', ground arith, i)
  | inr input ↦ let (s', e, i) = handle_event-Inside ev s h in ([], s', ground arith, i)
]

-- From a state that is inside, the loop reads and writes inside its arrays, whatever libevdev hands
-- over, and ends in such a state.
pub bridge-Writes : (reads : List Read) (s : TouchState) → IsInside s → Writes (bridge reads s)
unfolding bridge
bridge-Writes [] s h = ([], s, refl, h)
bridge-Writes (read_failed ∷ later) s h = ([], s, refl, h)
bridge-Writes (read_again ∷ later) s h = bridge-Writes later s h
bridge-Writes (read_sync events true ∷ later) s h = bridge-Writes later s h
bridge-Writes (read_sync events false ∷ later) s h = ([], s, refl, h)
bridge-Writes (read_event ev ∷ later) s h =
    let (written, s1, e, i) = on_event-Writes ev s h in
    let (more, s2, e2, j) = bridge-Writes later s1 i in (written ++ more, s2, ground arith, j)
