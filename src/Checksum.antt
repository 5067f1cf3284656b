-- ===== src/Checksum.antt =====
-- gud_row_crc32 of backport-4.9/gud_pipe.c, the checksum of a row in the trace records.
use gud.Base.{
  ℕ, zero, suc, ◌-◌, ◌/◌, ◌%◌, ◌^◌, ◌<◌, ◌≡◌, ◌≢◌, refl, sym, ◌∙◌, ap, arith, List, [], ◌∷◌, ◌++◌,
  bit_and, bit_xor, ◌⊎◌, inl, inr,
}
use gud.Base.Bits.{and_mask, xor_undo, xor-lt, xor_comm, xor-zero}

-- One round of the inner loop, on a u32.
unfoldable pub crc_bit : ℕ → ℕ
crc_bit crc = bit_xor (crc / 2 ^ 1) (bit_and 0xedb88320 ((2 ^ 32 - bit_and crc 1) % 2 ^ 32))

unfoldable pub crc_bits : ℕ → ℕ → ℕ
unfolding crc_bit
crc_bits zero crc = crc
crc_bits (suc n) crc = crc_bits n (crc_bit crc)

unfoldable pub crc_bytes : List ℕ → ℕ → ℕ
unfolding crc_bits
crc_bytes [] crc = crc
crc_bytes (b ∷ bytes) crc = crc_bytes bytes (crc_bits 8 (bit_xor crc b))

unfoldable pub gud_row_crc32 : List ℕ → ℕ
unfolding crc_bytes
gud_row_crc32 bytes = 2 ^ 32 - 1 - crc_bytes bytes (2 ^ 32 - 1)

abbrev poly : ℕ
poly = 0xedb88320

crc_bit-even : (c : ℕ) → c % 2 ≡ 0 → crc_bit c ≡ c / 2
unfolding crc_bit
crc_bit-even c e = let low : bit_and c 1 ≡ 0 = and_mask 1 c ∙ e in rw low (xor-zero (c / 2))

crc_bit-odd : (c : ℕ) → c % 2 ≡ 1 → crc_bit c ≡ bit_xor (c / 2) poly
unfolding crc_bit
crc_bit-odd c e = let low : bit_and c 1 ≡ 1 = and_mask 1 c ∙ e in rw low refl

parity : (c : ℕ) → (c % 2 ≡ 0) ⊎ (c % 2 ≡ 1)
parity c = below_two (c % 2) (omega arith)
  where
    below_two : (r : ℕ) → r < 2 → (r ≡ 0) ⊎ (r ≡ 1)
    below_two zero h = inl refl
    below_two (suc zero) h = inr refl
    below_two (suc (suc r)) h = absurd (omega arith)

crc_bit-lt : (c : ℕ) → c < 2 ^ 32 → crc_bit c < 2 ^ 32
crc_bit-lt c h = elim (parity c) [
  | inl p ↦ omega (arith, crc_bit-even c p)
  | inr p ↦ omega (arith, crc_bit-odd c p, xor-lt 32 (c / 2) poly (omega arith) (omega arith))
]

xor_cancel : (a b c : ℕ) → bit_xor a c ≡ bit_xor b c → a ≡ b
xor_cancel a b c e = sym (xor_undo a c) ∙ ap (λ t. bit_xor t c) e ∙ xor_undo b c

-- The polynomial has the top bit, which a number that was shifted has not.
even-ne-odd : (c d : ℕ) → c < 2 ^ 32 → d < 2 ^ 32 → c / 2 ≢ bit_xor (d / 2) poly
even-ne-odd c d hc hd e =
    let there : bit_xor (c / 2) (d / 2) ≡ poly =
      ap (λ t. bit_xor t (d / 2)) (e ∙ xor_comm (d / 2) poly) ∙ xor_undo poly (d / 2) in
    absurd (omega (arith, xor-lt 31 (c / 2) (d / 2) (omega arith) (omega arith)))

-- No two states of the register go to the same one.
crc_bit_injective : (c d : ℕ) → c < 2 ^ 32 → d < 2 ^ 32 → crc_bit c ≡ crc_bit d → c ≡ d
crc_bit_injective c d hc hd e = elim (parity c) [
  | inl p ↦ elim (parity d) [
    | inl q ↦ omega (arith, crc_bit-even c p, crc_bit-even d q)
    | inr q ↦ absurd (even-ne-odd c d hc hd (sym (crc_bit-even c p) ∙ e ∙ crc_bit-odd d q))
  ]
  | inr p ↦ elim (parity d) [
    | inl q ↦ absurd (even-ne-odd d c hd hc (sym (crc_bit-even d q) ∙ sym e ∙ crc_bit-odd c p))
    | inr q ↦
        let halves =
          xor_cancel (c / 2) (d / 2) poly (sym (crc_bit-odd c p) ∙ e ∙ crc_bit-odd d q) in
        omega arith
  ]
]

crc_bits-lt : (n c : ℕ) → c < 2 ^ 32 → crc_bits n c < 2 ^ 32
unfolding crc_bits
crc_bits-lt zero c h = h
crc_bits-lt (suc n) c h = crc_bits-lt n (crc_bit c) (crc_bit-lt c h)

crc_bits_injective : (n c d : ℕ) → c < 2 ^ 32 → d < 2 ^ 32 → crc_bits n c ≡ crc_bits n d → c ≡ d
unfolding crc_bits
crc_bits_injective zero c d hc hd e = e
crc_bits_injective (suc n) c d hc hd e =
    crc_bit_injective c d hc hd
      (crc_bits_injective n (crc_bit c) (crc_bit d) (crc_bit-lt c hc) (crc_bit-lt d hd) e)

abbrev pub AreBytes : List ℕ → Type 0
AreBytes [] = Unit
AreBytes (b ∷ bs) = (b < 2 ^ 8) × AreBytes bs

fed-lt : (b c : ℕ) → b < 2 ^ 8 → c < 2 ^ 32 → bit_xor c b < 2 ^ 32
fed-lt b c hb hc = xor-lt 32 c b hc (omega arith)

crc_bytes-lt : (bs : List ℕ) (c : ℕ) → AreBytes bs → c < 2 ^ 32 → crc_bytes bs c < 2 ^ 32
unfolding crc_bytes
crc_bytes-lt [] c hb h = h
crc_bytes-lt (b ∷ bs) c hb h =
    crc_bytes-lt bs (crc_bits 8 (bit_xor c b)) hb.1
      (crc_bits-lt 8 (bit_xor c b) (fed-lt b c hb.0 h))

crc_bytes_injective :
    (bs : List ℕ) (c d : ℕ)
    → AreBytes bs
    → c < 2 ^ 32
    → d < 2 ^ 32
    → crc_bytes bs c ≡ crc_bytes bs d
    → c ≡ d
unfolding crc_bytes
crc_bytes_injective [] c d hb hc hd e = e
crc_bytes_injective (b ∷ bs) c d hb hc hd e =
    let fc = fed-lt b c hb.0 hc in
    let fd = fed-lt b d hb.0 hd in
    xor_cancel c d b (
      crc_bits_injective 8 (bit_xor c b) (bit_xor d b) fc fd (
        crc_bytes_injective bs (crc_bits 8 (bit_xor c b)) (crc_bits 8 (bit_xor d b)) hb.1
          (crc_bits-lt 8 (bit_xor c b) fc) (crc_bits-lt 8 (bit_xor d b) fd) e))

crc_bytes-append :
    (pre post : List ℕ) (c : ℕ) → crc_bytes (pre ++ post) c ≡ crc_bytes post (crc_bytes pre c)
unfolding crc_bytes
crc_bytes-append [] post c = refl
crc_bytes-append (b ∷ pre) post c = crc_bytes-append pre post (crc_bits 8 (bit_xor c b))

fed_bytes :
    (a b : ℕ) (post : List ℕ) (c : ℕ)
    → a < 2 ^ 8
    → b < 2 ^ 8
    → AreBytes post
    → c < 2 ^ 32
    → crc_bytes (a ∷ post) c ≡ crc_bytes (b ∷ post) c
    → a ≡ b
unfolding crc_bytes
fed_bytes a b post c ha hb hp hc e =
    let fa = fed-lt a c ha hc in
    let fb = fed-lt b c hb hc in
    let same = crc_bits_injective 8 (bit_xor c a) (bit_xor c b) fa fb (
      crc_bytes_injective post (crc_bits 8 (bit_xor c a)) (crc_bits 8 (bit_xor c b)) hp
        (crc_bits-lt 8 (bit_xor c a) fa) (crc_bits-lt 8 (bit_xor c b) fb) e) in
    xor_cancel a b c (xor_comm a c ∙ same ∙ xor_comm c b)

gud_row_crc32_injective :
    (pre : List ℕ) (a b : ℕ) (post : List ℕ)
    → AreBytes pre
    → a < 2 ^ 8
    → b < 2 ^ 8
    → AreBytes post
    → gud_row_crc32 (pre ++ (a ∷ post)) ≡ gud_row_crc32 (pre ++ (b ∷ post))
    → a ≡ b
unfolding gud_row_crc32
gud_row_crc32_injective pre a b post hpre ha hb hpost e =
    let start = crc_bytes pre (2 ^ 32 - 1) in
    let small = crc_bytes-lt pre (2 ^ 32 - 1) hpre (omega arith) in
    let ea = crc_bytes-append pre (a ∷ post) (2 ^ 32 - 1) in
    let eb = crc_bytes-append pre (b ∷ post) (2 ^ 32 - 1) in
    let la = crc_bytes-lt (a ∷ post) start (ha, hpost) small in
    let lb = crc_bytes-lt (b ∷ post) start (hb, hpost) small in
    fed_bytes a b post start ha hb hpost small (omega arith)

-- Two rows of bytes that differ in exactly one byte, anywhere, have different checksums.
pub gud_row_crc32-ne :
    (pre : List ℕ) (a b : ℕ) (post : List ℕ)
    → AreBytes pre
    → a < 2 ^ 8
    → b < 2 ^ 8
    → AreBytes post
    → a ≢ b
    → gud_row_crc32 (pre ++ (a ∷ post)) ≢ gud_row_crc32 (pre ++ (b ∷ post))
gud_row_crc32-ne pre a b post hpre ha hb hpost differ e =
    differ (gud_row_crc32_injective pre a b post hpre ha hb hpost e)
