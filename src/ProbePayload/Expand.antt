-- ===== src/ProbePayload/Expand.antt =====
-- The payload that the builder makes unpacks to the rows.
use gud.Base.{
  ℕ, zero, suc, ◌+◌, ◌-◌, ◌*◌, ◌/◌, ◌%◌, ◌^◌, ◌≤◌, ◌<◌, min, ◌≡◌, refl, sym, ap, subst, ◌∙◌, arith,
  some, List, [], ◌∷◌, ◌++◌, length, take, drop, replicate, length-append, length-replicate,
  get_elem?, take-append, drop-append, ◌==◌, ltb, bit_or, Bool-cases, inl, inr,
}
use gud.Base.Bits.{or_fields}
use gud.Layout.{size_mod}
use gud.ProbePayload.{
  extension, length_bytes, sequence, encoded_size, match_of, search, build_probe_payload,
}
use gud.ProbePayload.Block.{read_more, read_length, copy_match, decode_block}

read_more-extension :
    (fuel value : ℕ) (rest : List ℕ)
    → value ≤ fuel
    → read_more (extension fuel value ++ rest) ≡ some (value, rest)
unfolding extension read_more
read_more-extension zero value rest h = ground arith
read_more-extension (suc fuel) value rest h =
    ground (arith, read_more-extension fuel (value - 255) rest)

-- A length of at least `base` stands in the nibble and the bytes after it, as its excess.
read_length-length_bytes :
    (n low : ℕ) (rest : List ℕ)
    → read_length (min (n - low) 15) (length_bytes n (low + 15) ++ rest) ≡ some (n - low, rest)
unfolding read_length length_bytes
read_length-length_bytes n low rest =
    ground (arith, read_more-extension (n - (low + 15)) (n - (low + 15)) rest)

abbrev pub zeros : ℕ → List ℕ
zeros n = replicate n 0

pub length_zeros : (n : ℕ) → length (zeros n) ≡ n
length_zeros n = length-replicate n 0

suc_add : (k n : ℕ) → suc (k + n) ≡ suc k + n
suc_add k n = omega arith

get_elem?-zeros : (k i : ℕ) → i < k → get_elem? (zeros k) i ≡ some 0
get_elem?-zeros zero i h = absurd (omega arith)
get_elem?-zeros (suc k) zero h = refl
get_elem?-zeros (suc k) (suc i) h = get_elem?-zeros k i (omega arith)

zeros_append : (k n : ℕ) → zeros k ++ zeros n ≡ zeros (k + n)
zeros_append zero n = let same : n ≡ 0 + n = omega arith in ap zeros same
zeros_append (suc k) n = ap (λ xs. 0 ∷ xs) (zeros_append k n) ∙ ap zeros (suc_add k n)

-- A match at offset 1 repeats the last byte.
copy_match-zeros : (n k : ℕ) → 0 < k → copy_match 1 n (zeros k) ≡ some (zeros (k + n))
unfolding copy_match
copy_match-zeros zero k h = ap (λ i. some (zeros i)) (omega arith)
copy_match-zeros (suc n) k h =
    let longer : zeros k ++ (0 ∷ []) ≡ zeros (k + 1) = zeros_append k 1 in
    let last : get_elem? (zeros k) (length (zeros k) - 1) ≡ some 0 =
      rw (length_zeros k) (get_elem?-zeros k (k - 1) (omega arith)) in
    let further : zeros (k + 1 + n) ≡ zeros (k + suc n) =
      let same : k + 1 + n ≡ k + suc n = omega arith in ap zeros same in
    ground (arith, last, longer, copy_match-zeros n (k + 1), further)

token_fields :
    (a b : ℕ) → a ≤ 15 → b ≤ 15 → (bit_or (a * 16) b / 16 ≡ a) × (bit_or (a * 16) b % 16 ≡ b)
token_fields a b ha hb =
    let fields : bit_or (a * 16) b ≡ a * 16 + b = or_fields 4 a b (omega arith) in
    omega (arith, fields)

-- The last sequence: five literals and no match.
decode_block_last :
    (fuel k : ℕ) → decode_block (suc fuel) (5 * 16 ∷ zeros 5) (zeros k) ≡ some (zeros (k + 5))
unfolding decode_block read_length
decode_block_last fuel k = ap some (zeros_append k 5)

-- One sequence with a match, given what is read of it.
decode_block_step :
    (fuel token : ℕ) (rest out : List ℕ) (literals : ℕ) (r1 : List ℕ) (lo hi : ℕ) (r3 : List ℕ)
    (n : ℕ) (r4 after : List ℕ)
    → read_length (token / 16) rest ≡ some (literals, r1)
    → literals ≤ length r1
    → drop literals r1 ≡ lo ∷ hi ∷ r3
    → read_length (token % 16) r3 ≡ some (n, r4)
    → 0 < lo + 256 * hi
    → lo + 256 * hi ≤ length (out ++ take literals r1)
    → copy_match (lo + 256 * hi) (n + 4) (out ++ take literals r1) ≡ some after
    → decode_block (suc fuel) (token ∷ rest) out ≡ decode_block fuel r4 after
unfolding decode_block
decode_block_step fuel token rest out literals r1 lo hi r3 n r4 after e1 e2 e3 e4 e5 e6 e7 =
    ground arith

sub_add : (n k : ℕ) → k ≤ n → n - k + k ≡ n
sub_add n k h = omega arith

sub_zero : (n : ℕ) → n - 0 ≡ n
sub_zero n = omega arith

-- One sequence: literals of zeros, and the match that repeats the last of them.
decode_block-sequence :
    (literals match_length : ℕ)
    → 0 < literals
    → 4 ≤ match_length
    → decode_block 2 (sequence literals match_length) []
      ≡ some (zeros (literals + match_length + 5))
unfolding sequence
decode_block-sequence literals match_length hl hm =
    let last : List ℕ = 5 * 16 ∷ zeros 5 in
    let r3 : List ℕ = length_bytes match_length 19 ++ last in
    let r1 : List ℕ = zeros literals ++ (1 ∷ 0 ∷ r3) in
    let (high, low) =
      token_fields (min literals 15) (min (match_length - 4) 15) (omega arith) (omega arith) in
    let token : ℕ = bit_or (min literals 15 * 16) (min (match_length - 4) 15) in
    let front : take literals r1 ≡ zeros literals =
      take-append (zeros literals) (1 ∷ 0 ∷ r3) literals (sym (length_zeros literals)) in
    let size : length r1 ≡ length (zeros literals) + length (1 ∷ 0 ∷ r3) =
      length-append (zeros literals) (1 ∷ 0 ∷ r3) in
    decode_block_step 1 token (length_bytes literals 15 ++ r1) [] literals r1 1 0 r3
      (match_length - 4) last (zeros (literals + (match_length - 4 + 4)))
      (rw high (
        subst (λ i. read_length (min i 15) (length_bytes literals 15 ++ r1) ≡ some (i, r1))
          (sub_zero literals) (read_length-length_bytes literals 0 r1)))
      (omega (arith, size, length_zeros literals))
      (drop-append (zeros literals) (1 ∷ 0 ∷ r3) literals 0 (omega (arith, length_zeros literals)))
      (rw low (read_length-length_bytes match_length 4 last)) (omega arith)
      (rw front (omega (arith, length_zeros literals)))
      (rw front (copy_match-zeros (match_length - 4 + 4) literals hl))
    ∙ decode_block_last 0 (literals + (match_length - 4 + 4))
    ∙ ap (λ i. some (zeros (literals + i + 5))) (sub_add match_length 4 hm)

search-found :
    (fuel payload_length raw_length literals : ℕ) (bytes : List ℕ)
    → 4 ≤ raw_length
    → raw_length < 2 ^ 63
    → 4 ≤ literals
    → search fuel payload_length raw_length literals ≡ some bytes
    → (at : ℕ) × (4 ≤ at)
      × (at + 9 ≤ raw_length)
      × (length bytes ≡ payload_length)
      × (bytes ≡ sequence at (raw_length - at - 5))
unfolding search
search-found zero payload_length raw_length literals bytes h hr hl found = ground arith
search-found (suc fuel) payload_length raw_length literals bytes h hr hl found =
    let last : (raw_length + size_mod - 4) % size_mod ≡ raw_length - 4 = omega arith in
    let bound : ℕ = (raw_length + size_mod - 4) % size_mod in
    let m : ℕ = match_of raw_length literals in
    elim (Bool-cases (ltb bound literals)) [
      | inl over ↦ absurd (ground arith)
      | inr within ↦
          let near : literals ≤ raw_length - 4 = ground arith in
          let sum : (literals + 4 + 5) % size_mod ≡ literals + 9 = omega arith in
          elim (Bool-cases (ltb raw_length ((literals + 4 + 5) % size_mod))) [
            | inl short ↦
                search-found fuel payload_length raw_length (literals + 1) bytes h hr (omega arith)
                  (ground arith)
            | inr room ↦ elim (Bool-cases (encoded_size literals m == payload_length)) [
              | inr other ↦
                  search-found fuel payload_length raw_length (literals + 1) bytes h hr
                    (omega arith) (ground arith)
              | inl wanted ↦ elim (Bool-cases (length (sequence literals m) == payload_length)) [
                | inr short ↦ absurd (ground arith)
                | inl exact ↦
                    let fits : literals + 9 ≤ raw_length = ground arith in
                    let rest : m ≡ raw_length - literals - 5 = omega arith in
                    let same : sequence literals m ≡ bytes = ground arith in
                    (
                      literals,
                      hl,
                      fits,
                      subst (λ b. length b ≡ payload_length) same (ground arith),
                      sym same ∙ ap (sequence literals) rest,
                    )
              ]
            ]
          ]
    ]

-- Whatever the builder returns for black rows of at least 4 and fewer than 2^63 bytes has the wanted
-- length, is smaller than the rows, and is one LZ4 block that unpacks to them.
pub decode_block-build_probe_payload :
    (payload_length raw_length : ℕ) (bytes : List ℕ)
    → 4 ≤ raw_length
    → raw_length < 2 ^ 63
    → build_probe_payload payload_length raw_length ≡ some bytes
    → (length bytes ≡ payload_length)
      × (payload_length < raw_length)
      × (decode_block 2 bytes [] ≡ some (zeros raw_length))
unfolding build_probe_payload
decode_block-build_probe_payload payload_length raw_length bytes h hr built =
    let (at, some_literals, fits, size, is_sequence) =
      search-found ((raw_length + size_mod - 4) % size_mod) payload_length raw_length 4 bytes h hr
        (omega arith) (ground arith) in
    let total : at + (raw_length - at - 5) + 5 ≡ raw_length = omega arith in
    (
      size,
      ground arith,
      ap (λ b. decode_block 2 b []) is_sequence
          ∙ decode_block-sequence at (raw_length - at - 5) (omega arith) (omega arith)
          ∙ ap (λ n. some (zeros n)) total,
    )
