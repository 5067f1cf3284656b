-- ===== src/Codec/Rle/RoundTrip.antt =====
-- rle_decode gives back what rle_encode coded.
use gud.Base.{
  ℕ, zero, suc, ◌+◌, ◌-◌, ◌%◌, ◌≤◌, ◌≡◌, refl, sym, ◌∙◌, ap, arith, List, [], ◌∷◌, ◌++◌, length,
  take, drop, replicate, Bool-cases, inl, inr, ◌&&◌, ltb, ◌==◌, length-append, take-append,
  drop-append, ◌⊎◌, length-replicate, length-take, length-drop, take-append-drop,
}
use gud.Codec.Rle.{
  Coded, done, too_small, no_fuel, prepend, run_length, literal_length, encode_loop, decode_loop,
  rle_encode, rle_decode,
}

run_length-ge : (v : ℕ) (xs : List ℕ) (run : ℕ) → run ≤ run_length v xs run
unfolding run_length
run_length-ge v [] run = omega arith
run_length-ge v (x ∷ xs) run = ground (arith, run_length-ge v xs (run + 1))

run_length-le : (v : ℕ) (xs : List ℕ) (run : ℕ) → run ≤ 128 → run_length v xs run ≤ 128
unfolding run_length
run_length-le v [] run h = h
run_length-le v (x ∷ xs) run h = ground (arith, run_length-le v xs (run + 1))

replicate-add_one : (n v : ℕ) (xs : List ℕ) → replicate (n + 1) v ++ xs ≡ replicate n v ++ (v ∷ xs)
replicate-add_one zero v xs = refl
replicate-add_one (suc n) v xs =
    let e : suc n + 1 ≡ suc (n + 1) = omega arith in
    ap (λ k. replicate k v ++ xs) e ∙ ap (λ ys. v ∷ ys) (replicate-add_one n v xs)

drop-sub_one :
    (l run x : ℕ) (xs : List ℕ) → run + 1 ≤ l → drop (l - run) (x ∷ xs) ≡ drop (l - (run + 1)) xs
drop-sub_one l run x xs h =
    let e : l - run ≡ suc (l - (run + 1)) = omega arith in ap (λ k. drop k (x ∷ xs)) e

-- The bytes that the run counts are its byte, over and over.
run_split :
    (v : ℕ) (xs : List ℕ) (run : ℕ)
    → replicate (run_length v xs run) v ++ drop (run_length v xs run - run) xs
      ≡ replicate run v ++ xs
unfolding run_length
run_split v [] run = let e : run - run ≡ 0 = omega arith in ap (λ k. replicate run v ++ drop k []) e
run_split v (x ∷ xs) run = elim (Bool-cases (x == v && ltb run 128)) [
  | inl more ↦
      let same : x ≡ v = ground arith in
      rw more (
        ap (λ ys. replicate (run_length v xs (run + 1)) v ++ ys)
          (drop-sub_one (run_length v xs (run + 1)) run x xs (run_length-ge v xs (run + 1)))
        ∙ run_split v xs (run + 1)
        ∙ replicate-add_one run v xs
        ∙ ap (λ y. replicate run v ++ (y ∷ xs)) (sym same))
  | inr over ↦
      let e : run - run ≡ 0 = omega arith in
      rw over (ap (λ k. replicate run v ++ drop k (x ∷ xs)) e)
]

pub literal_length-ge : (xs : List ℕ) (n : ℕ) → n ≤ literal_length xs n
unfolding literal_length
literal_length-ge [] n = omega arith
literal_length-ge (x ∷ []) n = ground arith
literal_length-ge (x ∷ y ∷ rest) n = ground (arith, literal_length-ge (y ∷ rest) (n + 1))

pub literal_length_bounds :
    (xs : List ℕ) (n : ℕ)
    → n ≤ 128
    → (literal_length xs n ≤ 128) × (literal_length xs n ≤ n + length xs)
unfolding literal_length
literal_length_bounds [] n h = omega arith
literal_length_bounds (x ∷ []) n h = ground arith
literal_length_bounds (x ∷ y ∷ rest) n h = ground (arith, literal_length_bounds (y ∷ rest) (n + 1))

decode_run :
    (fuel run v : ℕ) (bs : List ℕ) (out cap : ℕ) (rest : List ℕ)
    → 2 ≤ run
    → run ≤ 128
    → out + run ≤ cap
    → decode_loop fuel bs (out + run) cap ≡ done rest
    → decode_loop (suc fuel) (((257 - run) % 256) ∷ v ∷ bs) out cap ≡ done (replicate run v ++ rest)
decode_run fuel run v bs out cap rest lo hi fits e =
    let code : (257 - run) % 256 ≡ 257 - run = omega arith in
    let back : 257 - (257 - run) ≡ run = omega arith in
    rw code (unfold decode_loop in ground (arith, ap (λ k. decode_loop fuel bs (out + k) cap) back))

decode_literals :
    (fuel n : ℕ) (lits bs : List ℕ) (out cap : ℕ) (rest : List ℕ)
    → 1 ≤ n
    → n ≤ 128
    → length lits ≡ n
    → out + n ≤ cap
    → decode_loop fuel bs (out + n) cap ≡ done rest
    → decode_loop (suc fuel) (((n - 1) % 256) ∷ (lits ++ bs)) out cap ≡ done (lits ++ rest)
decode_literals fuel n lits bs out cap rest lo hi len fits e =
    let code : (n - 1) % 256 ≡ n - 1 = omega arith in
    let back : n - 1 + 1 ≡ n = omega arith in
    let enough = length-append lits bs in
    let taken : take (n - 1 + 1) (lits ++ bs) ≡ lits =
      take-append lits bs (n - 1 + 1) (omega arith) in
    let dropped : drop (n - 1 + 1) (lits ++ bs) ≡ bs =
      drop-append lits bs (n - 1 + 1) 0 (omega arith) in
    rw code (unfold decode_loop in ground (arith, ap (λ k. decode_loop fuel bs (out + k) cap) back))

prepend-done :
    (p : List ℕ) (c : Coded) (bs : List ℕ)
    → prepend p c ≡ done bs
    → (r : List ℕ) × (c ≡ done r) × (bs ≡ p ++ r)
prepend-done p (done r) bs e = (r, refl, ground arith)
prepend-done p too_small bs e = cc
prepend-done p no_fuel bs e = cc

-- The two ways in which a round of rle_encode goes on.
encode_loop-cases :
    (fuel x : ℕ) (xs : List ℕ) (out limit : ℕ) (bs : List ℕ)
    → encode_loop (suc fuel) (x ∷ xs) out limit ≡ done bs
    → let run = run_length x xs 1 in
      let n = literal_length xs 1 in
      (2 ≤ run)
        × (prepend
              (((257 - run) % 256) ∷ x ∷ [])
              (encode_loop fuel (drop run (x ∷ xs)) (out + 2) limit)
            ≡ done bs)
      ⊎ (prepend
            (((n - 1) % 256) ∷ take n (x ∷ xs))
            (encode_loop fuel (drop n (x ∷ xs)) (out + (n + 1)) limit)
          ≡ done bs)
unfolding encode_loop
encode_loop-cases fuel x xs out limit bs e = ground arith

drop-run : (run x : ℕ) (xs : List ℕ) → 1 ≤ run → drop run (x ∷ xs) ≡ drop (run - 1) xs
drop-run run x xs h = let e : run ≡ suc (run - 1) = omega arith in ap (λ k. drop k (x ∷ xs)) e

-- A run and what follows it are the source again.
pub run_covers :
    (x : ℕ) (xs : List ℕ)
    → let run = run_length x xs 1 in
      (replicate run x ++ drop run (x ∷ xs) ≡ x ∷ xs)
      × (run + length (drop run (x ∷ xs)) ≡ suc (length xs))
run_covers x xs =
    let run = run_length x xs 1 in
    let split : replicate run x ++ drop run (x ∷ xs) ≡ x ∷ xs =
      ap (λ ys. replicate run x ++ ys) (drop-run run x xs (run_length-ge x xs 1))
      ∙ run_split x xs 1 in
    (
      split,
      omega (
        arith,
        length-append (replicate run x) (drop run (x ∷ xs)),
        length-replicate run x,
        ap length split,
      ),
    )

decode_nil : (fuel out limit : ℕ) → decode_loop fuel [] out limit ≡ done []
unfolding decode_loop
decode_nil zero out limit = refl
decode_nil (suc fuel) out limit = refl

encode_nil : (fuel out limit : ℕ) (bs : List ℕ) → encode_loop fuel [] out limit ≡ done bs → bs ≡ []
unfolding encode_loop
encode_nil zero out limit bs e = ground arith
encode_nil (suc fuel) out limit bs e = ground arith

encode_no_fuel :
    (x : ℕ) (xs : List ℕ) (out limit : ℕ) (bs : List ℕ)
    → encode_loop 0 (x ∷ xs) out limit ≡ done bs
    → ⊥
unfolding encode_loop
encode_no_fuel x xs out limit bs e = cc

-- What decoding the bytes of a shorter source gives, as the round before it uses it.
abbrev Decodes : ℕ → ℕ → List ℕ → List ℕ → Type 0
Decodes out limit bs src = (fuel : ℕ) → length bs ≤ fuel → decode_loop fuel bs out limit ≡ done src

decode_of_run :
    (x : ℕ) (xs : List ℕ) (out limit : ℕ) (tail : List ℕ)
    → let run = run_length x xs 1 in
      2 ≤ run
      → out + suc (length xs) ≤ limit
      → Decodes (out + run) limit tail (drop run (x ∷ xs))
      → Decodes out limit (((257 - run) % 256) ∷ x ∷ tail) (x ∷ xs)
decode_of_run x xs out limit tail long fits rest zero f = absurd (omega arith)
decode_of_run x xs out limit tail long fits rest (suc fuel) f =
    let run = run_length x xs 1 in
    let covers = run_covers x xs in
    decode_run fuel run x tail out limit (drop run (x ∷ xs)) long
      (run_length-le x xs 1 (omega arith)) (omega (arith, covers.1)) (rest fuel (omega arith))
    ∙ ap done covers.0

decode_of_literals :
    (x : ℕ) (xs : List ℕ) (out limit : ℕ) (tail : List ℕ)
    → let n = literal_length xs 1 in
      out + suc (length xs) ≤ limit
      → Decodes (out + n) limit tail (drop n (x ∷ xs))
      → Decodes out limit (((n - 1) % 256) ∷ (take n (x ∷ xs) ++ tail)) (x ∷ xs)
decode_of_literals x xs out limit tail fits rest zero f = absurd (omega arith)
decode_of_literals x xs out limit tail fits rest (suc fuel) f =
    let n = literal_length xs 1 in
    let bounds = literal_length_bounds xs 1 (omega arith) in
    decode_literals fuel n (take n (x ∷ xs)) tail out limit (drop n (x ∷ xs))
      (literal_length-ge xs 1) bounds.0 (omega (arith, length-take n (x ∷ xs), bounds))
      (omega (arith, bounds)) (rest fuel (omega (arith, length-append (take n (x ∷ xs)) tail)))
    ∙ ap done (take-append-drop n (x ∷ xs))

decode-encode_loop :
    (fuel : ℕ) (src : List ℕ) (used capacity : ℕ) (bs : List ℕ) (out limit : ℕ)
    → encode_loop fuel src used capacity ≡ done bs
    → out + length src ≤ limit
    → Decodes out limit bs src
decode-encode_loop fuel [] used capacity bs out limit e fits =
    λ fuel' f. rw (encode_nil fuel used capacity bs e) (decode_nil fuel' out limit)
decode-encode_loop zero (x ∷ xs) used capacity bs out limit e fits =
    absurd (encode_no_fuel x xs used capacity bs e)
decode-encode_loop (suc fuel) (x ∷ xs) used capacity bs out limit e fits =
    let run = run_length x xs 1 in
    let n = literal_length xs 1 in
    elim (encode_loop-cases fuel x xs used capacity bs e) [
      | inl (long, step) ↦
          let (tail, rest, shape) =
            prepend-done (((257 - run) % 256) ∷ x ∷ [])
              (encode_loop fuel (drop run (x ∷ xs)) (used + 2) capacity) bs step in
          rw shape (
            decode_of_run x xs out limit tail long fits (
              decode-encode_loop fuel (drop run (x ∷ xs)) (used + 2) capacity tail (out + run) limit
                rest (omega (arith, (run_covers x xs).1))))
      | inr step ↦
          let (tail, rest, shape) =
            prepend-done (((n - 1) % 256) ∷ take n (x ∷ xs))
              (encode_loop fuel (drop n (x ∷ xs)) (used + (n + 1)) capacity) bs step in
          rw shape (
            decode_of_literals x xs out limit tail fits (
              decode-encode_loop fuel (drop n (x ∷ xs)) (used + (n + 1)) capacity tail (out + n)
                limit rest
                (omega (arith, length-drop n (x ∷ xs), literal_length_bounds xs 1 (omega arith)))))
    ]

-- What rle_encode writes, rle_decode turns back into the source, into any buffer that holds it.
pub rle_decode-rle_encode :
    (src bs : List ℕ) (dst_cap out_cap : ℕ)
    → rle_encode src dst_cap ≡ done bs
    → length src ≤ out_cap
    → rle_decode bs out_cap ≡ done src
rle_decode-rle_encode src bs dst_cap out_cap e fits =
    unfold rle_decode rle_encode in
    decode-encode_loop (length src) src 0 dst_cap bs 0 out_cap e (omega arith) (length bs)
      (omega arith)
