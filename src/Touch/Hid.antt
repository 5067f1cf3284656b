-- ===== src/Touch/Hid.antt =====
-- The report descriptor read as a host reads it: short items, with their global and local state.
use gud.Base.{
  ℕ, zero, suc, ◌+◌, ◌*◌, ◌/◌, ◌%◌, ◌^◌, ◌<◌, ◌≡◌, refl, arith, Option, none, some, List, [], ◌∷◌,
  length, ◌==◌, if◌then◌else◌,
}
use gud.Touch.{store_le16}
use gud.Touch.Descriptor.{get_multitouch_report_desc}

-- The global items of HID 1.11 and the usage that waits for its main item.
pub record Globals : Type 0 where
  pub page : ℕ
  pub usage : ℕ
  pub logical_min : ℕ
  pub logical_max : ℕ
  pub report_size : ℕ
  pub report_count : ℕ

pub data Field : Type 0 where
  input feature : Globals → Field

-- The number of data bytes by the low two bits of a prefix.
unfoldable pub data_size : ℕ → ℕ
data_size prefix = if prefix % 4 == 3 then 4 else prefix % 4

unfoldable pub value_of : List ℕ → ℕ
value_of [] = 0
value_of (b ∷ rest) = b + 256 * value_of rest

-- `n` bytes off the front.
unfoldable pub split_data : ℕ → List ℕ → Option (List ℕ × List ℕ)
split_data zero bytes = some ([], bytes)
split_data (suc n) [] = none
split_data (suc n) (b ∷ rest) = elim (split_data n rest) [
  | none ↦ none
  | some (front, back) ↦ some (b ∷ front, back)
]

unfoldable pub set_global : ℕ → ℕ → Globals → Globals
set_global tag v g =
    if tag == 1
    then record g { page = v }
    else if tag == 2
    then record g { usage = v }
    else if tag == 5
    then record g { logical_min = v }
    else if tag == 9
    then record g { logical_max = v }
    else if tag == 29
    then record g { report_size = v }
    else if tag == 37
    then record g { report_count = v }
    else g

-- Tag and type of an item are the high six bits of its prefix; a collection and its end use up the
-- usage.
unfoldable pub parse_items : ℕ → List ℕ → Globals → Option (List Field)
unfolding split_data value_of set_global data_size
parse_items fuel [] g = some []
parse_items zero (prefix ∷ rest) g = none
parse_items (suc fuel) (prefix ∷ rest) g = elim (split_data (data_size prefix) rest) [
  | none ↦ none
  | some (front, back) ↦
      let next = parse_items fuel back (set_global (prefix / 4) (value_of front) g) in
      if prefix / 4 == 32
      then elim next [ none ↦ none | some fields ↦ some (input g ∷ fields) ]
      else if prefix / 4 == 44
      then elim next [ none ↦ none | some fields ↦ some (feature g ∷ fields) ]
      else next
]

abbrev pub no_globals : Globals
no_globals = record {
  page = 0;
  usage = 0;
  logical_min = 0;
  logical_max = 0;
  report_size = 0;
  report_count = 0;
}

unfoldable pub parse : List ℕ → Option (List Field)
unfolding parse_items
parse bytes = parse_items (length bytes) bytes no_globals

-- The bits of a report that the input fields take.
unfoldable pub input_bits : List Field → ℕ
input_bits [] = 0
input_bits (input g ∷ rest) = g.report_size * g.report_count + input_bits rest
input_bits (feature g ∷ rest) = input_bits rest

abbrev field : ℕ → ℕ → ℕ → ℕ → ℕ → Globals
field page usage logical_min logical_max report_size = record {
  page = page;
  usage = usage;
  logical_min = logical_min;
  logical_max = logical_max;
  report_size = report_size;
  report_count = 1;
}

-- Tip switch, contact identifier, X, Y, scan time and contact count, and the largest count.
abbrev pub touch_fields : ℕ → ℕ → ℕ → ℕ → ℕ → List Field
touch_fields num_slots min_x max_x min_y max_y =
    input (field 13 66 0 1 1)
    ∷ input (field 13 81 0 127 7)
    ∷ input (field 1 48 min_x max_x 16)
    ∷ input (field 1 49 min_y max_y 16)
    ∷ input (field 13 86 0 65535 16)
    ∷ input (field 13 84 0 127 8)
    ∷ feature (field 13 85 0 num_slots 8)
    ∷ []

value_le16 : (v : ℕ) → v < 2 ^ 15 → v % 65536 % 256 + 256 * (v % 65536 / 256 + 0) ≡ v
value_le16 v h = omega arith

value_u8 : (v : ℕ) → v < 128 → v % 256 + 0 ≡ v
value_u8 v h = omega arith

-- A host that reads the descriptor finds the fields of a report, with the ranges and the number
-- of slots that it was made for, where these fit a signed 16-bit item and a byte; the input
-- fields take the eight bytes of a report.
pub parse-get_multitouch_report_desc :
    (num_slots min_x max_x min_y max_y : ℕ)
    → num_slots < 128
    → min_x < 2 ^ 15
    → max_x < 2 ^ 15
    → min_y < 2 ^ 15
    → max_y < 2 ^ 15
    → (parse (get_multitouch_report_desc num_slots min_x max_x min_y max_y)
        ≡ some (touch_fields num_slots min_x max_x min_y max_y))
      × (input_bits (touch_fields num_slots min_x max_x min_y max_y) ≡ 8 * 8)
unfolding parse get_multitouch_report_desc store_le16 input_bits
parse-get_multitouch_report_desc num_slots min_x max_x min_y max_y hn h1 h2 h3 h4 = (
  rw
      (
        value_le16 min_x h1,
        value_le16 max_x h2,
        value_le16 min_y h3,
        value_le16 max_y h4,
        value_u8 num_slots hn,
      )
      refl,
  refl,
)
