-- ===== src/ProbePayload/Complete.antt =====
-- The builder finds a payload for every length that some split of the rows has.
use gud.Base.{
  ℕ, zero, suc, ◌+◌, ◌-◌, ◌*◌, ◌/◌, ◌%◌, ◌^◌, ◌≤◌, ◌<◌, ◌≡◌, ◌≢◌, refl, ap, ◌∙◌, arith, none, some,
  List, [], ◌∷◌, ◌++◌, length, length-append, ltb, Bool-cases, Option-cases, inl, inr,
}
use gud.Layout.{size_mod}
use gud.Device.{max_payload_limit}
use gud.ProbePayload.{
  extension_size, extension, length_bytes, sequence, encoded_size, match_of, search,
  build_probe_payload,
}
use gud.ProbePayload.Block.{decode_block}
use gud.ProbePayload.Expand.{zeros, length_zeros, decode_block-build_probe_payload}

extension-length : (fuel value : ℕ) → value ≤ fuel → length (extension fuel value) ≡ 1 + value / 255
unfolding extension
extension-length zero value h = ground arith
extension-length (suc fuel) value h = ground (arith, extension-length fuel (value - 255))

length_bytes-extension_size : (n base : ℕ) → length (length_bytes n base) ≡ extension_size n base
unfolding length_bytes extension_size
length_bytes-extension_size n base = ground (arith, extension-length (n - base) (n - base))

extension_size_bound : (n base : ℕ) → extension_size n base ≤ 1 + n / 255
unfolding extension_size
extension_size_bound n base = ground arith

-- What is written has the length that was computed.
sequence-encoded_size :
    (literals match_length : ℕ)
    → literals < 2 ^ 63
    → match_length < 2 ^ 63
    → length (sequence literals match_length) ≡ encoded_size literals match_length
unfolding sequence encoded_size
sequence-encoded_size literals match_length hl hm =
    let last : List ℕ = 5 * 16 ∷ zeros 5 in
    let after : List ℕ = 1 ∷ 0 ∷ (length_bytes match_length 19 ++ last) in
    omega (
      arith,
      length-append (length_bytes literals 15) (zeros literals ++ after),
      length-append (zeros literals) after,
      length-append (length_bytes match_length 19) last,
      length_zeros literals,
      length_bytes-extension_size literals 15,
      length_bytes-extension_size match_length 19,
      extension_size_bound literals 15,
      extension_size_bound match_length 19,
    )

search-ne-none :
    (fuel raw_length literals at payload_length : ℕ)
    → 4 ≤ literals
    → literals ≤ at
    → at - literals < fuel
    → at + 9 ≤ raw_length
    → raw_length < 2 ^ 63
    → encoded_size at (raw_length - at - 5) ≡ payload_length
    → search fuel payload_length raw_length literals ≢ none
unfolding search
search-ne-none zero raw_length literals at payload_length h4 hl hf ha hr size = absurd (omega arith)
search-ne-none (suc fuel) raw_length literals at payload_length h4 hl hf ha hr size =
    let m : ℕ = match_of raw_length literals in
    let bound : (raw_length + size_mod - 4) % size_mod ≡ raw_length - 4 = omega arith in
    let sum : (literals + 4 + 5) % size_mod ≡ literals + 9 = omega arith in
    let exact : m ≡ raw_length - literals - 5 = omega arith in
    let length_of : length (sequence literals m) ≡ encoded_size literals m =
      sequence-encoded_size literals m (omega arith) (omega arith) in
    elim (Bool-cases (ltb literals at)) [
      | inl before ↦
          let later =
            search-ne-none fuel raw_length (literals + 1) at payload_length (omega arith)
              (ground arith) (ground arith) ha hr size in
          ground arith
      | inr reached ↦
          let here : literals ≡ at = ground arith in
          let same : encoded_size literals m ≡ payload_length =
            ap (encoded_size literals) exact
            ∙ ap (λ i. encoded_size i (raw_length - i - 5)) here
            ∙ size in
          ground arith
    ]

-- For black rows of fewer than 2^63 bytes, every payload length that some number of literals
-- from 4 on gives, within the limit and smaller than the rows, is built: the payload has that
-- length and is one LZ4 block that unpacks to the rows.
pub build_probe_payload-decode_block :
    (raw_length at : ℕ)
    → 4 ≤ at
    → at + 9 ≤ raw_length
    → raw_length < 2 ^ 63
    → encoded_size at (raw_length - at - 5) ≤ max_payload_limit
    → encoded_size at (raw_length - at - 5) < raw_length
    → (bytes : List ℕ) × (build_probe_payload (encoded_size at (raw_length - at - 5)) raw_length
        ≡ some bytes)
      × (length bytes ≡ encoded_size at (raw_length - at - 5))
      × (decode_block 2 bytes [] ≡ some (zeros raw_length))
build_probe_payload-decode_block raw_length at h4 ha hr few less =
    let payload_length : ℕ = encoded_size at (raw_length - at - 5) in
    elim (Option-cases (build_probe_payload payload_length raw_length)) [
      | inl nothing ↦ absurd (
          search-ne-none ((raw_length + size_mod - 4) % size_mod) raw_length 4 at payload_length
            (omega arith) h4 (omega arith) ha hr refl (unfold build_probe_payload in ground arith))
      | inr (bytes, built) ↦
          let (size, smaller, unpacks) =
            decode_block-build_probe_payload payload_length raw_length bytes (omega arith) hr
              built in
          (bytes, built, size, unpacks)
    ]
