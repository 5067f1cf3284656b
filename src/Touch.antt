-- ===== src/Touch.antt =====
-- The touch bridge: the state and the event loop of
-- buildroot/external/package/hidg-touch/hidg-touch.c. What libevdev hands over is an argument, and
-- the writes to the gadget are the result.
pub mod Slots
pub mod Descriptor
pub mod Hid
pub mod Program
pub mod Exit
pub mod Reports
use gud.Base.{
  ℕ, zero, suc, ◌+◌, ◌-◌, ◌*◌, ◌/◌, ◌%◌, ◌^◌, Bool, true, false, ◌&&◌, not, Option, none, some,
  List, [], ◌∷◌, ◌==◌, ltb, if◌then◌else◌, bit_or, length, take, ◌++◌,
}

-- A C `int`: the number n, or -1 - n.
pub data ℤ : Type 0 where
  pos negsuc : ℕ → ℤ

-- Its conversion to `unsigned int`.
unfoldable pub to_unsigned : ℤ → ℕ
to_unsigned (pos n) = n % 2 ^ 32
to_unsigned (negsuc n) = 2 ^ 32 - 1 - n % 2 ^ 32

unfoldable pub is_nonneg : ℤ → Bool
is_nonneg (pos n) = true
is_nonneg (negsuc n) = false

-- The types and codes of linux/input.h.
abbrev pub ev_syn : ℕ
ev_syn = 0

abbrev pub ev_key : ℕ
ev_key = 1

abbrev pub ev_abs : ℕ
ev_abs = 3

abbrev pub btn_touch : ℕ
btn_touch = 330

abbrev pub abs_x : ℕ
abs_x = 0

abbrev pub abs_y : ℕ
abs_y = 1

abbrev pub abs_mt_slot : ℕ
abs_mt_slot = 47

abbrev pub abs_mt_position_x : ℕ
abs_mt_position_x = 53

abbrev pub abs_mt_position_y : ℕ
abs_mt_position_y = 54

abbrev pub abs_mt_tracking_id : ℕ
abs_mt_tracking_id = 57

pub record InputEvent : Type 0 where
  pub sec : ℕ
  pub usec : ℕ
  pub kind : ℕ
  pub code : ℕ
  pub value : ℤ

-- `struct touch_slot`; a negative id means no touch.
pub record TouchSlot : Type 0 where
  pub id : ℤ
  pub x : ℕ
  pub y : ℕ
  pub active : Bool

-- `struct touch_state`; btn_touch is never used.
pub record TouchState : Type 0 where
  pub multitouch : Bool
  pub slots : List TouchSlot
  pub num_slots : ℕ
  pub current_slot : ℕ

-- A write through `&state->slots[i]`; `none` is a write behind the array.
unfoldable pub update_slot : ℕ → (TouchSlot → TouchSlot) → List TouchSlot → Option (List TouchSlot)
update_slot i f [] = none
update_slot zero f (slot ∷ rest) = some (f slot ∷ rest)
update_slot (suc i) f (slot ∷ rest) = elim (update_slot i f rest) [
  | none ↦ none
  | some rest' ↦ some (slot ∷ rest')
]

unfoldable pub with_slot : ℕ → (TouchSlot → TouchSlot) → TouchState → Option TouchState
unfolding update_slot
with_slot i f s = elim (update_slot i f s.slots) [
  | none ↦ none
  | some slots ↦ some (record s { slots = slots })
]

-- BTN_TOUCH and ABS_X, ABS_Y of a device with one contact.
unfoldable pub single_touch : InputEvent → TouchSlot → TouchSlot
single_touch ev slot =
    if ev.kind == ev_key && ev.code == btn_touch
    then record slot { id = if to_unsigned ev.value == 0 then negsuc 0 else pos 0; active = true }
    else if ev.kind == ev_abs
    then if ev.code == abs_x
      then record slot { x = to_unsigned ev.value }
      else if ev.code == abs_y
      then record slot { y = to_unsigned ev.value }
      else slot
    else slot

-- ABS_MT_* codes for the current slot.
unfoldable pub multi_touch : InputEvent → TouchSlot → TouchSlot
unfolding is_nonneg
multi_touch ev slot =
    if ev.code == abs_mt_tracking_id
    then record slot {
      id = ev.value;
      active = if to_unsigned ev.value == 2 ^ 32 - 1 then slot.active else true;
    }
    else if ev.code == abs_mt_position_x
    then record slot { x = to_unsigned ev.value }
    else if ev.code == abs_mt_position_y
    then record slot { y = to_unsigned ev.value }
    else slot

-- The slot is compared as an unsigned number.
unfoldable pub handle_event : InputEvent → TouchState → Option TouchState
unfolding with_slot single_touch multi_touch
handle_event ev s =
    if not s.multitouch
    then with_slot 0 (single_touch ev) s
    else if not (ev.kind == ev_abs)
    then some s
    else if ev.code == abs_mt_slot
    then if ltb (to_unsigned ev.value) s.num_slots
      then some (record s { current_slot = to_unsigned ev.value })
      else some s
    else with_slot s.current_slot (multi_touch ev) s

unfoldable pub store_le16 : ℕ → List ℕ
store_le16 v = (v % 65536 % 256) ∷ (v % 65536 / 256) ∷ []

-- Contact identifier and tip switch, position, scan time, and a contact count of 0.
unfoldable pub contact_report : ℕ → ℕ → TouchSlot → List ℕ
contact_report contact scantime slot =
    (bit_or (contact % 256 * 2) (if is_nonneg slot.id then 1 else 0) % 256)
    ∷ (slot.x % 65536 % 256)
    ∷ (slot.x % 65536 / 256)
    ∷ (slot.y % 65536 % 256)
    ∷ (slot.y % 65536 / 256)
    ∷ (scantime % 256)
    ∷ (scantime / 256)
    ∷ 0
    ∷ []

-- One pass over the slots, which numbers the active ones; a lifted contact is inactive afterwards.
unfoldable pub collect : ℕ → ℕ → List TouchSlot → List (List ℕ) × List TouchSlot
unfolding contact_report is_nonneg
collect contact scantime [] = ([], [])
collect contact scantime (slot ∷ rest) =
    let (skipped, after_skip) = collect contact scantime rest in
    let (reports, after) = collect (contact + 1) scantime rest in
    if slot.active
    then (
      contact_report contact scantime slot ∷ reports,
      (if is_nonneg slot.id then slot else record slot { active = false }) ∷ after,
    )
    else (skipped, slot ∷ after_skip)

-- `report[7] = contact_count`.
unfoldable pub set_count : ℕ → List ℕ → List ℕ
set_count count (b0 ∷ b1 ∷ b2 ∷ b3 ∷ b4 ∷ b5 ∷ b6 ∷ b7 ∷ rest) =
    b0 ∷ b1 ∷ b2 ∷ b3 ∷ b4 ∷ b5 ∷ b6 ∷ (count % 256) ∷ rest
set_count count bytes = bytes

unfoldable pub set_first_count : ℕ → List (List ℕ) → List (List ℕ)
unfolding set_count
set_first_count count [] = []
set_first_count count (first ∷ rest) = set_count count first ∷ rest

-- MAX_NUM_SLOTS reports fit the array on the stack.
abbrev pub max_num_slots : ℕ
max_num_slots = 127

-- The 16-bit time in units of 100 microseconds.
unfoldable pub scantime_of : InputEvent → ℕ
scantime_of ev = (ev.sec * 10000 + ev.usec / 100) % 65536

-- The writes to the gadget; `none` is a write behind the array. The count is a uint8_t.
unfoldable pub write_reports : List (List ℕ) → TouchState → Option (List (List ℕ) × TouchState)
unfolding set_first_count
write_reports reports s =
    let count = length reports % 256 in
    if ltb max_num_slots (length reports)
    then none
    else if count == 0
    then some ([], s)
    else some (take count (set_first_count count reports), s)

unfoldable pub send_report : InputEvent → TouchState → Option (List (List ℕ) × TouchState)
unfolding collect write_reports scantime_of
send_report ev s =
    let (reports, slots) = collect 0 (scantime_of ev) s.slots in
    write_reports reports (record s { slots = slots })

-- What libevdev_next_event returns: an event, a batch of dropped events that ends as `continues`
-- says, nothing for now, or an error.
pub data Read : Type 0 where
  read_event : InputEvent → Read
  read_sync : List InputEvent → Bool → Read
  read_again : Read
  read_failed : Read

unfoldable pub on_event : InputEvent → TouchState → Option (List (List ℕ) × TouchState)
unfolding send_report handle_event
on_event ev s =
    if ev.kind == ev_syn
    then send_report ev s
    else elim (handle_event ev s) [ none ↦ none | some s' ↦ some ([], s') ]

-- The loop of main: the events of a batch are printed only.
unfoldable pub bridge : List Read → TouchState → Option (List (List ℕ) × TouchState)
unfolding on_event
bridge [] s = some ([], s)
bridge (read_failed ∷ later) s = some ([], s)
bridge (read_again ∷ later) s = bridge later s
bridge (read_sync events true ∷ later) s = bridge later s
bridge (read_sync events false ∷ later) s = some ([], s)
bridge (read_event ev ∷ later) s = elim (on_event ev s) [
  | none ↦ none
  | some (written, s') ↦ elim (bridge later s') [
    | none ↦ none
    | some (more, last) ↦ some (written ++ more, last)
  ]
]
