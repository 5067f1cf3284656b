-- ===== src/Codec/Rle/Bound.antt =====
-- rle_bound is large enough: rle_encode never runs out of room in a buffer of that size, nor of
-- rounds.
use gud.Base.{
  ℕ, zero, suc, ◌+◌, ◌-◌, ◌*◌, ◌≤◌, ◌≡◌, refl, arith, List, [], ◌∷◌, length, take, drop, ◌++◌, ◌%◌,
  length-append, length-take, length-drop, leb, Bool-cases, inl, inr,
}
use gud.Codec.Rle.{Coded, done, rle_bound, run_length, literal_length, encode_loop, rle_encode}
use gud.Codec.Rle.RoundTrip.{run_covers, literal_length_bounds, literal_length-ge}

-- The length of what was written, if something was.
abbrev pub WrittenWithin : ℕ → Coded → Type 0
WrittenWithin room r = (bs : List ℕ) × (r ≡ done bs) × (length bs ≤ room)

encode_loop_fits :
    (fuel : ℕ) (src : List ℕ) (out dst_cap : ℕ)
    → length src ≤ fuel
    → out + 2 * length src ≤ dst_cap
    → WrittenWithin (2 * length src) (encode_loop fuel src out dst_cap)
unfolding encode_loop
encode_loop_fits zero [] out dst_cap f room = ([], refl, omega arith)
encode_loop_fits (suc fuel) [] out dst_cap f room = ([], refl, omega arith)
encode_loop_fits zero (x ∷ xs) out dst_cap f room = absurd (omega arith)
encode_loop_fits (suc fuel) (x ∷ xs) out dst_cap f room =
    let run = run_length x xs 1 in
    let n = literal_length xs 1 in
    let covers = run_covers x xs in
    let bounds = literal_length_bounds xs 1 (omega arith) in
    let some_literal = literal_length-ge xs 1 in
    let rest = length-drop n (x ∷ xs) in
    elim (Bool-cases (leb 2 run)) [
      | inl long ↦
          let (bs, e, short) =
            encode_loop_fits fuel (drop run (x ∷ xs)) (out + 2) dst_cap (ground arith)
              (ground arith) in
          (((257 - run) % 256) ∷ x ∷ bs, ground arith, ground arith)
      | inr literal ↦
          let (bs, e, short) =
            encode_loop_fits fuel (drop n (x ∷ xs)) (out + (n + 1)) dst_cap (omega arith)
              (omega arith) in
          (
            ((n - 1) % 256) ∷ (take n (x ∷ xs) ++ bs),
            ground arith,
            omega (arith, length-append (take n (x ∷ xs)) bs, length-take n (x ∷ xs)),
          )
    ]

-- A buffer of rle_bound bytes always suffices, and the output is at most twice the input.
pub rle_encode_fits :
    (src : List ℕ) (dst_cap : ℕ)
    → rle_bound (length src) ≤ dst_cap
    → WrittenWithin (2 * length src) (rle_encode src dst_cap)
unfolding rle_encode rle_bound
rle_encode_fits src dst_cap room =
    encode_loop_fits (length src) src 0 dst_cap (omega arith) (omega arith)
