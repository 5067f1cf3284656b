-- ===== src/Tests/Touches.antt =====
-- The touch bridge with two fingers, the second lifted in the event that is reported.
use gud.Base.{
  ℕ, ◌*◌, ◌≡◌, ◌≢◌, refl, arith, true, false, some, List, [], ◌∷◌, length, replicate,
  length-replicate, map,
}
use gud.Touch.{
  ℤ, pos, negsuc, InputEvent, TouchSlot, TouchState, send_report, scantime_of, read_event, ev_abs,
  ev_syn, abs_mt_slot, abs_mt_tracking_id, abs_mt_position_x, abs_mt_position_y,
}
use gud.Touch.Reports.{contacts, decode_report, announce_count, settle, send_report-contacts}
use gud.Touch.Descriptor.{get_multitouch_report_desc}
use gud.Touch.Hid.{parse, touch_fields, input_bits, parse-get_multitouch_report_desc}
use gud.Touch.Program.{Capabilities, Arguments, no_arguments, Machine, exits, undefined, main}
use gud.Touch.Exit.{IsFriendly, main-ne-undefined, main-desc_fails}

abbrev event : ℕ → ℕ → ℤ → InputEvent
event kind code value = record { sec = 12; usec = 345600; kind = kind; code = code; value = value }

abbrev two_fingers : TouchState
two_fingers = record {
  multitouch = true;
  slots =
      record { id = pos 4; x = 300; y = 20; active = true }
      ∷ record { id = pos 0; x = 0; y = 0; active = false }
      ∷ record { id = negsuc 0; x = 1000; y = 700; active = true }
      ∷ [];
  num_slots = 3;
  current_slot = 2;
}

abbrev sync : InputEvent
sync = event ev_syn 0 (pos 0)

send_report-contacts_example :
    (written : List (List ℕ)) × (s' : TouchState) × (send_report sync two_fingers
      ≡ some (written, s'))
    × (map decode_report written
        ≡ map some (
            announce_count
              (length (contacts 0 (scantime_of sync) two_fingers.slots))
              (contacts 0 (scantime_of sync) two_fingers.slots)))
    × (s' ≡ record two_fingers { slots = map settle two_fingers.slots })
send_report-contacts_example = send_report-contacts sync two_fingers (omega arith)

parse-get_multitouch_report_desc_example :
    (parse (get_multitouch_report_desc 10 0 1279 0 719) ≡ some (touch_fields 10 0 1279 0 719))
    × (input_bits (touch_fields 10 0 1279 0 719) ≡ 8 * 8)
parse-get_multitouch_report_desc_example =
    parse-get_multitouch_report_desc 10 0 1279 0 719 (omega arith) (omega arith) (omega arith)
      (omega arith) (omega arith)

abbrev panel : Capabilities
panel = record {
  has_btn_touch = true;
  slot_maximum = some (pos 9);
  has_mt_position_x = true;
  has_mt_position_y = true;
  has_x = true;
  has_y = true;
  min_x = 0;
  max_x = 1279;
  min_y = 0;
  max_y = 719;
}

abbrev empty_slot : TouchSlot
empty_slot = record { id = pos 0; x = 0; y = 0; active = false }

abbrev machine : Machine
machine = record {
  files = [];
  open_code = 0;
  dev = panel;
  fwrite = λ bytes. 1;
  allocated = true;
  hidg_opens = true;
  memory = λ n. replicate n empty_slot;
  memory_slot = 0;
  reads =
      read_event (event ev_abs abs_mt_slot (pos 8))
      ∷ read_event (event ev_abs abs_mt_tracking_id (pos 5))
      ∷ read_event (event ev_abs abs_mt_position_x (pos 640))
      ∷ read_event (event ev_abs abs_mt_position_y (pos 360))
      ∷ read_event sync
      ∷ [];
}

machine-IsFriendly : IsFriendly machine
machine-IsFriendly = record { has_room = λ n. length-replicate n empty_slot; first_slot = refl }

abbrev bridging : Arguments
bridging = record no_arguments { has_ev = true; has_hidg = true }

abbrev describing : Arguments
describing = record no_arguments { has_ev = true; desc = true }

main-ne-undefined_example : main bridging machine ≢ undefined
main-ne-undefined_example =
    main-ne-undefined bridging machine machine-IsFriendly (λ e. (refl, refl))

-- With --desc, a multitouch device that has no ABS_X is asked for its range all the same.
without_x :
    main describing (record machine { dev = record (machine.dev) { has_x = false } }) ≡ undefined
unfolding main gud.Touch.to_unsigned
without_x = refl

main-desc_fails_example : main describing machine ≢ exits 0 []
main-desc_fails_example = main-desc_fails describing machine refl refl (λ bytes. omega arith)
