-- ===== src/Touch/Reports.antt =====
-- What the host unpacks from the reports of one event: the active contacts, in the order of the slots.
use gud.Base.{
  ℕ, suc, ◌+◌, ◌*◌, ◌/◌, ◌%◌, ◌≤◌, ◌<◌, ◌≡◌, refl, ◌∙◌, ap, ap₂, arith, Bool, true, false, not,
  ◌&&◌, Option, none, some, List, [], ◌∷◌, length, take, take_all, map, ◌==◌, if◌then◌else◌,
  Bool-cases, inl, inr, bit_or, ge→ltb, ne→==,
}
use gud.Base.Bits.{or_fields}
use gud.Touch.Slots.{collect-length}
use gud.Touch.{
  TouchSlot, TouchState, InputEvent, is_nonneg, contact_report, collect, set_count, set_first_count,
  write_reports, send_report, scantime_of, max_num_slots,
}

-- The fields of a report, as the report descriptor lays them out.
pub record Contact : Type 0 where
  pub identifier : ℕ
  pub tip : Bool
  pub x : ℕ
  pub y : ℕ
  pub scantime : ℕ
  pub count : ℕ

unfoldable pub decode_report : List ℕ → Option Contact
decode_report (b0 ∷ b1 ∷ b2 ∷ b3 ∷ b4 ∷ b5 ∷ b6 ∷ b7 ∷ []) = some (record {
  identifier = b0 / 2;
  tip = b0 % 2 == 1;
  x = b1 + 256 * b2;
  y = b3 + 256 * b4;
  scantime = b5 + 256 * b6;
  count = b7;
})
decode_report _ = none

-- The active slots as contacts, numbered from `contact`.
unfoldable pub contacts : ℕ → ℕ → List TouchSlot → List Contact
contacts contact scantime [] = []
contacts contact scantime (slot ∷ rest) =
    let skipped = contacts contact scantime rest in
    let more = contacts (contact + 1) scantime rest in
    if slot.active
    then record {
      identifier = contact;
      tip = is_nonneg slot.id;
      x = slot.x % 65536;
      y = slot.y % 65536;
      scantime = scantime;
      count = 0;
    }
      ∷ more
    else skipped

unfoldable pub announce_count : ℕ → List Contact → List Contact
announce_count n [] = []
announce_count n (c ∷ rest) = record c { count = n } ∷ rest

-- A lifted contact is inactive once it was reported.
unfoldable pub settle : TouchSlot → TouchSlot
settle slot =
    if slot.active && not (is_nonneg slot.id) then record slot { active = false } else slot

abbrev contact_of : ℕ → ℕ → ℕ → TouchSlot → Contact
contact_of n contact scantime slot = record {
  identifier = contact;
  tip = is_nonneg slot.id;
  x = slot.x % 65536;
  y = slot.y % 65536;
  scantime = scantime;
  count = n;
}

tip_bit : (c b : ℕ) → b < 2 → bit_or (c * 2) b ≡ c * 2 + b
tip_bit c b h = or_fields 1 c b h

decode-contact_report :
    (n contact scantime : ℕ) (slot : TouchSlot)
    → n < 256
    → contact < 128
    → scantime < 65536
    → (decode_report (contact_report contact scantime slot)
        ≡ some (contact_of 0 contact scantime slot))
      × (decode_report (set_count n (contact_report contact scantime slot))
          ≡ some (contact_of n contact scantime slot))
unfolding decode_report contact_report set_count
decode-contact_report n contact scantime slot small few short =
    elim (Bool-cases (is_nonneg slot.id)) [
      | inl down ↦ ground (arith, tip_bit (contact % 256) 1)
      | inr up ↦ ground (arith, tip_bit (contact % 256) 0)
    ]

-- One slot at a time: its report if it is active, and what becomes of it.
module _ (contact scantime : ℕ) (slot : TouchSlot) (rest : List TouchSlot) where
  collect-active :
      slot.active ≡ true
      → collect contact scantime (slot ∷ rest) ≡ (
        contact_report contact scantime slot ∷ (collect (contact + 1) scantime rest).0,
        settle slot ∷ (collect (contact + 1) scantime rest).1,
      )
  unfolding collect settle
  collect-active on = ground arith

  collect-inactive :
      slot.active ≡ false
      → collect contact scantime (slot ∷ rest)
        ≡ ((collect contact scantime rest).0, settle slot ∷ (collect contact scantime rest).1)
  unfolding collect settle
  collect-inactive off = ground arith

  contacts-active :
      slot.active ≡ true
      → contacts contact scantime (slot ∷ rest)
        ≡ contact_of 0 contact scantime slot ∷ contacts (contact + 1) scantime rest
  unfolding contacts
  contacts-active on = ground arith

  contacts-inactive :
      slot.active ≡ false → contacts contact scantime (slot ∷ rest) ≡ contacts contact scantime rest
  unfolding contacts
  contacts-inactive off = ground arith

-- The reports decode to the contacts, with and without the count in the first.
abbrev Decodes : ℕ → ℕ → ℕ → List TouchSlot → Type 0
Decodes n contact scantime slots =
    (map decode_report (collect contact scantime slots).0
      ≡ map some (contacts contact scantime slots))
    × (map decode_report (set_first_count n (collect contact scantime slots).0)
        ≡ map some (announce_count n (contacts contact scantime slots)))
    × (length (collect contact scantime slots).0 ≡ length (contacts contact scantime slots))
    × ((collect contact scantime slots).1 ≡ map settle slots)

collect-contacts :
    (n contact scantime : ℕ) (slots : List TouchSlot)
    → n < 256
    → contact + length slots < 128
    → scantime < 65536
    → Decodes n contact scantime slots
unfolding set_first_count announce_count
collect-contacts n contact scantime [] small few short =
    unfold collect contacts in (refl, refl, refl, refl)
collect-contacts n contact scantime (slot ∷ rest) small few short =
    let (plain, counted, size, after) =
      collect-contacts n contact scantime rest small (omega arith) short in
    let (plain', counted', size', after') =
      collect-contacts n (contact + 1) scantime rest small (omega arith) short in
    let (first, first_counted) =
      decode-contact_report n contact scantime slot small (omega arith) short in
    elim (Bool-cases slot.active) [
      | inr off ↦
          rw
            (
              collect-inactive contact scantime slot rest off,
              contacts-inactive contact scantime slot rest off,
            )
            (plain, counted, size, ap (λ tail. settle slot ∷ tail) after)
      | inl on ↦
          rw
            (
              collect-active contact scantime slot rest on,
              contacts-active contact scantime slot rest on,
            )
            (
              ap₂ (λ c cs. c ∷ cs) first plain',
              ap₂ (λ c cs. c ∷ cs) first_counted plain',
              ap suc size',
              ap (λ tail. settle slot ∷ tail) after',
            )
    ]

length-set_first_count :
    (n : ℕ) (reports : List (List ℕ)) → length (set_first_count n reports) ≡ length reports
unfolding set_first_count
length-set_first_count n [] = refl
length-set_first_count n (r ∷ rs) = refl

scantime_of-lt : (ev : InputEvent) → scantime_of ev < 65536
unfolding scantime_of
scantime_of-lt ev = omega arith

-- With 127 reports at most, all of them are written.
write_reports-all :
    (reports : List (List ℕ)) (s : TouchState)
    → length reports ≤ max_num_slots
    → write_reports reports s ≡ some (set_first_count (length reports) reports, s)
unfolding write_reports
write_reports-all [] s few = unfold set_first_count in refl
write_reports-all (r ∷ rs) s few =
    let n : ℕ = length (r ∷ rs) in
    let small : n % 256 ≡ n = omega arith in
    let whole : take n (set_first_count n (r ∷ rs)) ≡ set_first_count n (r ∷ rs) =
      take_all n (set_first_count n (r ∷ rs)) (omega (arith, length-set_first_count n (r ∷ rs))) in
    rw (ge→ltb max_num_slots n few, small, ne→== n 0 (λ e. absurd (omega arith)), whole) refl

-- In a state with at most 127 slots, an event's reports decode to the active contacts in the
-- order of their slots, numbered from 0, the first with the number of contacts; afterwards the
-- contacts that were lifted are inactive, and nothing else changed.
pub send_report-contacts :
    (ev : InputEvent) (s : TouchState)
    → length s.slots ≤ max_num_slots
    → let cs = contacts 0 (scantime_of ev) s.slots in
      (written : List (List ℕ)) × (s' : TouchState) × (send_report ev s ≡ some (written, s'))
      × (map decode_report written ≡ map some (announce_count (length cs) cs))
      × (s' ≡ record s { slots = map settle s.slots })
unfolding send_report
send_report-contacts ev s few =
    let scantime = scantime_of ev in
    let reports = (collect 0 scantime s.slots).0 in
    let bound = (collect-length 0 scantime s.slots).0 in
    let n = length reports in
    let (plain, counted, size, after) =
      collect-contacts n 0 scantime s.slots (omega arith) (omega arith) (scantime_of-lt ev) in
    let last : TouchState = record s { slots = (collect 0 scantime s.slots).1 } in
    (
      set_first_count n reports,
      last,
      write_reports-all reports last (omega arith),
      counted ∙ ap (λ k. map some (announce_count k (contacts 0 scantime s.slots))) size,
      ap (λ slots. record s { slots = slots }) after,
    )
