-- ===== src/Codec/Rle.antt =====
-- benchmark/tools/fbcodec-bench/src/transforms/rle.c: PackBits run-length coding of a byte buffer.
-- The unread part of the source is a list, and the destination is the number of bytes used so far
-- with the bytes that follow.
pub mod RoundTrip
pub mod Bound
use gud.Base.{
  ℕ, zero, suc, ◌+◌, ◌-◌, ◌*◌, ◌%◌, Bool, true, false, ◌&&◌, Option, none, some, List, [], ◌∷◌,
  ◌++◌, length, take, drop, replicate, ◌==◌, ltb, leb, if◌then◌else◌,
}

unfoldable pub rle_bound : ℕ → ℕ
rle_bound input_len = input_len * 2 + 64

-- `too_small` is the (size_t)-1 of rle_encode and the -1 of rle_decode; `no_fuel` is never met.
pub data Coded : Type 0 where
  done : List ℕ → Coded
  too_small no_fuel : Coded

abbrev pub prepend : List ℕ → Coded → Coded
prepend bytes (done rest) = done (bytes ++ rest)
prepend bytes too_small = too_small
prepend bytes no_fuel = no_fuel

-- The bytes behind the first that repeat it, up to a run of 128.
pub run_length : ℕ → List ℕ → ℕ → ℕ
run_length v [] run = run
run_length v (x ∷ xs) run = if x == v && ltb run 128 then run_length v xs (run + 1) else run

-- The literal run, up to 128 bytes, which stops before a pair of equal bytes.
pub literal_length : List ℕ → ℕ → ℕ
literal_length [] lit_len = lit_len
literal_length (x ∷ []) lit_len = if ltb lit_len 128 then lit_len + 1 else lit_len
literal_length (x ∷ y ∷ rest) lit_len =
    if ltb lit_len 128
    then (if x == y then lit_len else literal_length (y ∷ rest) (lit_len + 1))
    else lit_len

unfoldable pub encode_loop : ℕ → List ℕ → ℕ → ℕ → Coded
unfolding run_length literal_length
encode_loop zero [] out dst_cap = done []
encode_loop zero (x ∷ xs) out dst_cap = no_fuel
encode_loop (suc fuel) [] out dst_cap = done []
encode_loop (suc fuel) (x ∷ xs) out dst_cap =
    let run = run_length x xs 1 in
    let lit_len = literal_length xs 1 in
    let after_run = encode_loop fuel (drop run (x ∷ xs)) (out + 2) dst_cap in
    let after_literals = encode_loop fuel (drop lit_len (x ∷ xs)) (out + (lit_len + 1)) dst_cap in
    if leb 2 run
    then (if ltb dst_cap (out + 2)
        then too_small
        else prepend (((257 - run) % 256) ∷ x ∷ []) after_run)
    else if ltb dst_cap (out + 1 + lit_len)
    then too_small
    else prepend (((lit_len - 1) % 256) ∷ take lit_len (x ∷ xs)) after_literals

-- Each round takes a byte of the source at least.
unfoldable pub rle_encode : List ℕ → ℕ → Coded
unfolding encode_loop
rle_encode src dst_cap = encode_loop (length src) src 0 dst_cap

unfoldable pub decode_loop : ℕ → List ℕ → ℕ → ℕ → Coded
decode_loop zero [] out dst_cap = done []
decode_loop zero (c ∷ rest) out dst_cap = no_fuel
decode_loop (suc fuel) [] out dst_cap = done []
decode_loop (suc fuel) (c ∷ rest) out dst_cap =
    let after_literals = decode_loop fuel (drop (c + 1) rest) (out + (c + 1)) dst_cap in
    let after_run = decode_loop fuel (drop 1 rest) (out + (257 - c)) dst_cap in
    let after_skip = decode_loop fuel rest out dst_cap in
    if leb c 127
    then (if ltb (length rest) (c + 1)
        then too_small
        else if ltb dst_cap (out + (c + 1))
        then too_small
        else prepend (take (c + 1) rest) after_literals)
    else if leb 129 c
    then elim rest [
      | [] ↦ too_small
      | v ∷ more ↦
          if ltb dst_cap (out + (257 - c))
          then too_small
          else prepend (replicate (257 - c) v) after_run
    ]
    else after_skip

unfoldable pub rle_decode : List ℕ → ℕ → Coded
unfolding decode_loop
rle_decode src dst_cap = decode_loop (length src) src 0 dst_cap
