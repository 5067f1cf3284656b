-- ===== src/ProbePayload.antt =====
-- backport-4.9/gud_pipe.c, gud_xdisp_lz4_extension_size and gud_xdisp_build_probe_payload: a
-- compressed payload of a wanted length for black rows. Nothing in the driver calls the builder.
pub mod Block
pub mod Expand
pub mod Complete
use gud.Base.{
  ℕ, zero, suc, ◌+◌, ◌-◌, ◌*◌, ◌/◌, ◌%◌, min, ◌||◌, not, Option, none, some, List, [], ◌∷◌, ◌++◌,
  length, replicate, ◌==◌, ltb, leb, if◌then◌else◌, bit_or,
}
use gud.Layout.{size_mod}
use gud.Device.{max_payload_limit}

unfoldable pub extension_size : ℕ → ℕ → ℕ
extension_size n base = if ltb n base then 0 else 1 + (n - base) / 255

-- `for (value = ...; value >= 255; value -= 255)` and the byte after it; as many rounds as `value`
-- are more than enough.
unfoldable pub extension : ℕ → ℕ → List ℕ
extension zero value = value % 256 ∷ []
extension (suc fuel) value =
    let rest = extension fuel (value - 255) in
    if leb 255 value then 255 ∷ rest else value % 256 ∷ []

unfoldable pub length_bytes : ℕ → ℕ → List ℕ
unfolding extension
length_bytes n base = if leb base n then extension (n - base) (n - base) else []

-- A run of literals, a match at offset 1, and the five literals that end a block.
unfoldable pub sequence : ℕ → ℕ → List ℕ
unfolding length_bytes
sequence literals match_length =
    bit_or (min literals 15 * 16) (min (match_length - 4) 15)
    ∷ (length_bytes literals 15
        ++ (replicate literals 0
            ++ (1 ∷ 0 ∷ (length_bytes match_length 19 ++ (5 * 16 ∷ replicate 5 0)))))

unfoldable pub encoded_size : ℕ → ℕ → ℕ
unfolding extension_size
encoded_size literals match_length =
    (1 + literals + 2 + extension_size literals 15 + extension_size match_length 19 + 1 + 5)
    % size_mod

abbrev pub match_of : ℕ → ℕ → ℕ
match_of raw_length literals = (raw_length + 2 * size_mod - literals - 5) % size_mod

-- `for (literals = ...; literals <= raw_length - 4; literals++)`, with size_t arithmetic; `none` is
-- -EINVAL. The fuel is the bound of the loop.
unfoldable pub search : ℕ → ℕ → ℕ → ℕ → Option (List ℕ)
unfolding encoded_size sequence
search zero payload_length raw_length literals = none
search (suc fuel) payload_length raw_length literals =
    let later = search fuel payload_length raw_length (literals + 1) in
    let match_length = match_of raw_length literals in
    let bytes = sequence literals match_length in
    if ltb ((raw_length + size_mod - 4) % size_mod) literals
    then none
    else if ltb raw_length ((literals + 4 + 5) % size_mod)
    then later
    else if not (encoded_size literals match_length == payload_length)
    then later
    else if length bytes == payload_length
    then some bytes
    else none

unfoldable pub build_probe_payload : ℕ → ℕ → Option (List ℕ)
unfolding search
build_probe_payload payload_length raw_length =
    if ltb max_payload_limit payload_length || leb raw_length payload_length
    then none
    else search ((raw_length + size_mod - 4) % size_mod) payload_length raw_length 4
