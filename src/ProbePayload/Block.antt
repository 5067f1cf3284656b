-- ===== src/ProbePayload/Block.antt =====
-- The LZ4 block format, as its specification describes the decoder.
use gud.Base.{
  ℕ, zero, suc, ◌+◌, ◌-◌, ◌*◌, ◌/◌, ◌%◌, ◌||◌, Option, none, some, List, [], ◌∷◌, ◌++◌, length,
  take, drop, get_elem?, ◌==◌, ltb, if◌then◌else◌,
}

-- Bytes of 255 and the byte that ends them.
unfoldable pub read_more : List ℕ → Option (ℕ × List ℕ)
read_more [] = none
read_more (b ∷ rest) =
    let more = read_more rest in
    if b == 255
    then elim more [ none ↦ none | some (n, after) ↦ some (255 + n, after) ]
    else some (b, rest)

unfoldable pub read_length : ℕ → List ℕ → Option (ℕ × List ℕ)
unfolding read_more
read_length nibble bytes =
    if nibble == 15
    then elim (read_more bytes) [ none ↦ none | some (n, after) ↦ some (15 + n, after) ]
    else some (nibble, bytes)

-- One byte at a time, so that a match may overlap what it writes.
unfoldable pub copy_match : ℕ → ℕ → List ℕ → Option (List ℕ)
copy_match offset zero out = some out
copy_match offset (suc n) out = elim (get_elem? out (length out - offset)) [
  | none ↦ none
  | some b ↦ copy_match offset n (out ++ (b ∷ []))
]

-- Token, literals, offset and match; the last sequence ends after its literals.
unfoldable pub decode_block : ℕ → List ℕ → List ℕ → Option (List ℕ)
unfolding read_length copy_match
decode_block zero bytes out = none
decode_block (suc fuel) [] out = none
decode_block (suc fuel) (token ∷ rest) out = elim (read_length (token / 16) rest) [
  | none ↦ none
  | some (literals, r1) ↦ if ltb (length r1) literals then none else elim (drop literals r1) [
    | [] ↦ some (out ++ take literals r1)
    | lo ∷ r2 ↦ elim r2 [
      | [] ↦ none
      | hi ∷ r3 ↦ elim (read_length (token % 16) r3) [
        | none ↦ none
        | some (n, r4) ↦
            if lo + 256 * hi == 0 || ltb (length (out ++ take literals r1)) (lo + 256 * hi)
            then none
            else elim (copy_match (lo + 256 * hi) (n + 4) (out ++ take literals r1)) [
              | none ↦ none
              | some after ↦ decode_block fuel r4 after
            ]
      ]
    ]
  ]
]
