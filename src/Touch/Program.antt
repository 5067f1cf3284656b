-- ===== src/Touch/Program.antt =====
-- The command line of the touch bridge: get_num_slots, find_touch_device, parse_options and main of
-- buildroot/external/package/hidg-touch/hidg-touch.c. What libevdev reports of a device, what the
-- files and the allocator give and what the memory held before are arguments.
use gud.Base.{
  ℕ, suc, Bool, true, false, ◌||◌, not, Option, none, some, List, [], ◌∷◌, length, ◌==◌, ltb,
  if◌then◌else◌,
}
use gud.Touch.{ℤ, to_unsigned, TouchSlot, TouchState, Read, bridge, max_num_slots}
use gud.Touch.Descriptor.{get_multitouch_report_desc}

-- What libevdev says of a device: its event codes, the maximum of ABS_MT_SLOT if it has that code,
-- and the ranges of ABS_X and ABS_Y as unsigned numbers.
pub record Capabilities : Type 0 where
  pub has_btn_touch : Bool
  pub slot_maximum : Option ℤ
  pub has_mt_position_x : Bool
  pub has_mt_position_y : Bool
  pub has_x : Bool
  pub has_y : Bool
  pub min_x : ℕ
  pub max_x : ℕ
  pub min_y : ℕ
  pub max_y : ℕ

-- `none` is -1.
unfoldable pub get_num_slots : Capabilities → Option ℕ
get_num_slots dev = if not dev.has_btn_touch then none else elim (dev.slot_maximum) [
  | some maximum ↦
      if not dev.has_mt_position_x || not dev.has_mt_position_y
      then none
      else if ltb (to_unsigned maximum) 1 || ltb max_num_slots (to_unsigned maximum)
      then none
      else some (to_unsigned maximum)
  | none ↦ if not dev.has_x || not dev.has_y then none else some 1
]

unfoldable pub is_touch_device : Option Capabilities → Bool
unfolding get_num_slots
is_touch_device none = false
is_touch_device (some dev) = elim (get_num_slots dev) [ none ↦ false | some n ↦ true ]

-- The position of the first touch device among the event files; `none` in it is a file that does not
-- open.
unfoldable pub first_touch : ℕ → List (Option Capabilities) → Option ℕ
unfolding is_touch_device
first_touch at [] = none
first_touch at (file ∷ rest) =
    let later = first_touch (suc at) rest in if is_touch_device file then some at else later

-- The exit code, with the file whose name is printed.
unfoldable pub find_touch_device : List (Option Capabilities) → ℕ × Option ℕ
unfolding first_touch
find_touch_device [] = (1, none)
find_touch_device (file ∷ rest) = elim (first_touch 0 (file ∷ rest)) [
  | none ↦ (2, none)
  | some at ↦ (0, some at)
]

-- `struct arguments`, without the texts of the two paths, and the two flags for messages.
pub record Arguments : Type 0 where
  pub find : Bool
  pub desc : Bool
  pub length : Bool
  pub has_ev : Bool
  pub has_hidg : Bool
  pub verbose : Bool
  pub debug : Bool

pub data Key : Type 0 where
  option_find option_desc option_length option_verbose option_debug other_key : Key
  key_arg : ℕ → Key

abbrev pub no_arguments : Arguments
no_arguments = record {
  find = false;
  desc = false;
  length = false;
  has_ev = false;
  has_hidg = false;
  verbose = false;
  debug = false;
}

-- `none` is ARGP_ERR_UNKNOWN; an argument comes with its number.
unfoldable pub parse_options : Key → Arguments → Option Arguments
parse_options option_find a = some (record a { find = true })
parse_options option_desc a = some (record a { desc = true })
parse_options option_length a = some (record a { length = true })
parse_options option_verbose a = some (record a { verbose = true })
parse_options option_debug a = some (record a { debug = true })
parse_options other_key a = none
parse_options (key_arg n) a =
    if ltb 1 n
    then none
    else some (if n == 0 then record a { has_ev = true } else record a { has_hidg = true })

-- What the program meets: the files of /dev/input, the code of open_evdev and the device it opens,
-- the items that fwrite writes of a buffer, whether malloc and open succeed, what the memory held, and
-- what libevdev hands over.
pub record Machine : Type 0 where
  pub files : List (Option Capabilities)
  pub open_code : ℕ
  pub dev : Capabilities
  pub fwrite : List ℕ → ℕ
  pub allocated : Bool
  pub hidg_opens : Bool
  pub memory : ℕ → List TouchSlot
  pub memory_slot : ℕ
  pub reads : List Read

-- An exit code with what was written to the gadget; a touch outside the arrays, or of a range that
-- the device has not, has none.
pub data Outcome : Type 0 where
  exits : ℕ → List (List ℕ) → Outcome
  undefined : Outcome

-- The state as malloc leaves it: only three fields are set.
unfoldable pub initial_state : ℕ → Machine → TouchState
initial_state num_slots m = record {
  multitouch = elim (m.dev.slot_maximum) [ none ↦ false | some maximum ↦ true ];
  slots = m.memory num_slots;
  num_slots = num_slots;
  current_slot = m.memory_slot;
}

unfoldable pub run_bridge : ℕ → Machine → Outcome
unfolding initial_state
run_bridge num_slots m =
    if not m.allocated
    then exits 1 []
    else if not m.hidg_opens
    then exits 1 []
    else elim (bridge m.reads (initial_state num_slots m)) [
      | none ↦ undefined
      | some (written, s) ↦ exits 0 written
    ]

-- libevdev_get_abs_info returns NULL for an axis that the device has not. Then
-- `rc = fwrite(buf, size, 1, stdout); rc = rc != size ? 1 : 0`.
unfoldable pub print_desc : ℕ → Machine → Outcome
print_desc num_slots m =
    let buf =
      get_multitouch_report_desc num_slots m.dev.min_x m.dev.max_x m.dev.min_y m.dev.max_y in
    if not m.dev.has_x || not m.dev.has_y
    then undefined
    else if m.fwrite buf == length buf
    then exits 0 []
    else exits 1 []

unfoldable pub with_device : Arguments → Machine → Outcome
unfolding run_bridge print_desc
with_device a m = elim (get_num_slots m.dev) [
  | none ↦ exits 1 []
  | some num_slots ↦
      if a.desc || a.length
      then if a.has_hidg then exits 1 [] else if a.desc then print_desc num_slots m else exits 0 []
      else if not a.has_hidg
      then exits 1 []
      else run_bridge num_slots m
]

-- main after the options were read.
unfoldable pub main : Arguments → Machine → Outcome
unfolding with_device find_touch_device
main a m =
    if a.find
    then if a.has_ev || a.has_hidg then exits 1 [] else exits (find_touch_device m.files).0 []
    else if not a.has_ev
    then exits 1 []
    else if not (m.open_code == 0)
    then exits m.open_code []
    else with_device a m
