-- ===== src/Touch/Exit.antt =====
-- How the touch bridge ends.
use gud.Base.{
  ℕ, ◌≤◌, ◌<◌, ◌≡◌, ◌≢◌, refl, arith, true, false, some, List, [], length, Option-cases, inl, inr,
}
use gud.Touch.{store_le16, max_num_slots}
use gud.Touch.Slots.{IsInside, bridge-Writes}
use gud.Touch.Descriptor.{get_multitouch_report_desc}
use gud.Touch.Program.{
  Capabilities, get_num_slots, Arguments, Machine, exits, undefined, initial_state, run_bridge,
  print_desc, with_device, main,
}

get_num_slots_bounds :
    (dev : Capabilities) (n : ℕ) → get_num_slots dev ≡ some n → (0 < n) × (n ≤ max_num_slots)
unfolding get_num_slots
get_num_slots_bounds dev n e = ground arith

-- What malloc gives has room for every slot, and happens to name one of them as current.
pub record IsFriendly (m : Machine) : Type 0 where
  pub has_room : (n : ℕ) → length (m.memory n) ≡ n
  pub first_slot : m.memory_slot ≡ 0

run_bridge-ne-undefined :
    (n : ℕ) (m : Machine) → IsFriendly m → 0 < n → n ≤ max_num_slots → run_bridge n m ≢ undefined
unfolding run_bridge initial_state
run_bridge-ne-undefined n m f lo hi =
    let inside : IsInside (initial_state n m) = record {
      all_slots = f.has_room n;
      some_slot = lo;
      few_slots = hi;
      current_inside = omega (arith, f.first_slot);
    } in
    let (written, s, e, i) = bridge-Writes m.reads (initial_state n m) inside in ground arith

print_desc-ne-undefined :
    (n : ℕ) (m : Machine) → m.dev.has_x ≡ true → m.dev.has_y ≡ true → print_desc n m ≢ undefined
unfolding print_desc
print_desc-ne-undefined n m x y = ground arith

with_device-ne-undefined :
    (a : Arguments) (m : Machine)
    → IsFriendly m
    → (a.desc ≡ true → (m.dev.has_x ≡ true) × (m.dev.has_y ≡ true))
    → with_device a m ≢ undefined
unfolding with_device
with_device-ne-undefined a m f axes = elim (Option-cases (get_num_slots m.dev)) [
  | inl bad ↦ ground arith
  | inr (n, good) ↦
      let (lo, hi) = get_num_slots_bounds m.dev n good in
      ground (arith, axes, print_desc-ne-undefined n m, run_bridge-ne-undefined n m f lo hi)
]

-- If the memory for the slots has room for all of them and its current slot is 0, and where
-- --desc is given the device has both the axes ABS_X and ABS_Y, the program never touches memory
-- outside its arrays, whatever the arguments, the device and its events are.
pub main-ne-undefined :
    (a : Arguments) (m : Machine)
    → IsFriendly m
    → (a.desc ≡ true → (m.dev.has_x ≡ true) × (m.dev.has_y ≡ true))
    → main a m ≢ undefined
unfolding main
main-ne-undefined a m f axes = ground (arith, with_device-ne-undefined a m f axes)

desc-length :
    (num_slots min_x max_x min_y max_y : ℕ)
    → length (get_multitouch_report_desc num_slots min_x max_x min_y max_y) ≡ 101
unfolding get_multitouch_report_desc store_le16
desc-length num_slots min_x max_x min_y max_y = refl

print_desc-fails :
    (n : ℕ) (m : Machine) → ((bytes : List ℕ) → m.fwrite bytes ≤ 1) → print_desc n m ≢ exits 0 []
unfolding print_desc
print_desc-fails n m one =
    let buf = get_multitouch_report_desc n m.dev.min_x m.dev.max_x m.dev.min_y m.dev.max_y in
    let size = desc-length n m.dev.min_x m.dev.max_x m.dev.min_y m.dev.max_y in
    let few = one buf in ground arith

-- As fwrite returns the number of items, which is at most 1 here, --desc never ends with the
-- exit code 0, even where the descriptor was printed.
pub main-desc_fails :
    (a : Arguments) (m : Machine)
    → a.find ≡ false
    → a.desc ≡ true
    → ((bytes : List ℕ) → m.fwrite bytes ≤ 1)
    → main a m ≢ exits 0 []
unfolding main with_device
main-desc_fails a m no_find desc one = elim (Option-cases (get_num_slots m.dev)) [
  | inl bad ↦ ground arith
  | inr (n, good) ↦ ground (arith, print_desc-fails n m one)
]
