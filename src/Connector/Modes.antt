-- ===== src/Connector/Modes.antt =====
-- The modes that a display sends are the modes that the connector gets.
use gud.Base.{
  ℕ, zero, suc, ◌*◌, ◌/◌, ◌%◌, ◌≡◌, ◌<◌, ◌==◌, not, refl, ap, ap₂, ◌∙◌, arith, ◌+◌, take-nil, true,
  false, List, [], ◌∷◌, ◌++◌, length, take, length-append, map,
}
use gud.Wire.{le16, le32, DisplayModeReq, encode_mode}
use gud.Wire.Fields.{user_flags, mask_user_flags, mask_preferred}
use gud.Wire.RoundTrip.{ModeFits, decode-encode_mode}
use gud.Connector.{
  ProbedMode, ModesReply, modes_bytes, mode_size, probed_mode, read_modes, added_modes, get_modes,
}

-- The array of a display, packed.
unfoldable pub encode_modes : List DisplayModeReq → List ℕ
encode_modes [] = []
encode_modes (m ∷ rest) = encode_mode m ++ encode_modes rest

pub data AllFit : List DisplayModeReq → Type 0 where
  none_left : AllFit []
  one_more :
      {m : DisplayModeReq} {rest : List DisplayModeReq}
      → ModeFits m
      → AllFit rest
      → AllFit (m ∷ rest)

encode_mode_size : (m : DisplayModeReq) → length (encode_mode m) ≡ 24
unfolding encode_mode le16 le32
encode_mode_size m = refl

encode_modes-length : (ms : List DisplayModeReq) → length (encode_modes ms) ≡ length ms * mode_size
unfolding encode_modes
encode_modes-length [] = refl
encode_modes-length (m ∷ rest) = omega (
  arith,
  length-append (encode_mode m) (encode_modes rest),
  encode_mode_size m,
  encode_modes-length rest,
)

-- The mode that a request describes, as arithmetic on its flags.
abbrev pub described : DisplayModeReq → ProbedMode
described m = record {
  timing = record m { flags = user_flags m.flags };
  preferred = m.flags / 1024 % 2 == 1;
}

bit_test : (b : ℕ) → b < 2 → not (b * 1024 == 0) ≡ (b == 1)
bit_test zero h = refl
bit_test (suc zero) h = refl
bit_test (suc (suc b)) h = absurd (omega arith)

probed_mode-described : (m : DisplayModeReq) → probed_mode m ≡ described m
unfolding probed_mode
probed_mode-described m =
    ap₂ (λ f p. record { timing = record m { flags = f }; preferred = p }) (mask_user_flags m.flags)
      (ap (λ b. not (b == 0)) (mask_preferred m.flags)
        ∙ bit_test (m.flags / 1024 % 2) (omega arith))

read_modes-encode_modes :
    (ms : List DisplayModeReq) (available : ℕ)
    → AllFit ms
    → read_modes (length ms) available (encode_modes ms) ≡ map described (take available ms)
unfolding read_modes encode_modes
read_modes-encode_modes [] zero fits = refl
read_modes-encode_modes [] (suc available) fits = refl
read_modes-encode_modes (m ∷ rest) zero fits = refl
read_modes-encode_modes (m ∷ rest) (suc available) (one_more fit fits) = ground (
  arith,
  decode-encode_mode m (encode_modes rest) fit,
  probed_mode-described m,
  read_modes-encode_modes rest available fits,
)

take_past : (xs ys : List ℕ) (k : ℕ) → take (length xs + k) (xs ++ ys) ≡ xs ++ take k ys
take_past [] ys k = let none_first : 0 + k ≡ k = omega arith in ap (λ j. take j ys) none_first
take_past (x ∷ xs) ys k =
    let one_first : suc (length xs) + k ≡ suc (length xs + k) = omega arith in
    ap (λ j. take j (x ∷ xs ++ ys)) one_first ∙ ap (λ zs. x ∷ zs) (take_past xs ys k)

-- The bytes of the first modes are the first bytes.
take-encode_modes :
    (n : ℕ) (ms : List DisplayModeReq)
    → take (n * mode_size) (encode_modes ms) ≡ encode_modes (take n ms)
unfolding encode_modes
take-encode_modes zero ms = refl
take-encode_modes (suc n) [] = take-nil (suc n * mode_size)
take-encode_modes (suc n) (m ∷ rest) =
    let bytes = encode_mode m in
    let size : suc n * mode_size ≡ length bytes + n * mode_size =
      omega (arith, encode_mode_size m) in
    ap (λ k. take k (bytes ++ encode_modes rest)) size
    ∙ take_past bytes (encode_modes rest) (n * mode_size)
    ∙ ap (λ zs. bytes ++ zs) (take-encode_modes n rest)

take-AllFit : (n : ℕ) (ms : List DisplayModeReq) → AllFit ms → AllFit (take n ms)
take-AllFit zero ms fits = none_left
take-AllFit (suc n) [] fits = none_left
take-AllFit (suc n) (m ∷ rest) (one_more fit fits) = one_more fit (take-AllFit n rest fits)

-- A display with these modes answers with as many bytes as are asked for.
abbrev pub answers : List DisplayModeReq → ℕ → ModesReply
answers ms size = modes_bytes (take size (encode_modes ms))

added_modes-encode_modes :
    (ms : List DisplayModeReq) (available : ℕ)
    → AllFit ms
    → added_modes (modes_bytes (encode_modes ms)) available
      ≡ (length (map described (take available ms)), map described (take available ms))
unfolding added_modes
added_modes-encode_modes ms available fits =
    let size = encode_modes-length ms in
    let whole : length (encode_modes ms) % mode_size ≡ 0 = omega arith in
    let count : length (encode_modes ms) / mode_size ≡ length ms = omega arith in
    let read =
      ap (λ n. read_modes n available (encode_modes ms)) count
      ∙ read_modes-encode_modes ms available fits in
    ground arith

-- Over a connected display whose modes have fields that fit, and which answers with as many
-- bytes of them as are asked for, the connector gets the first 128 of those modes in order, as
-- many as can be created, and returns their number. Each has the display's timing, of its flags
-- the ten low bits and the bits 12 and 13, and is preferred if its bit 10 is set.
pub get_modes-encode_modes :
    (ms : List DisplayModeReq) (available : ℕ)
    → AllFit ms
    → get_modes true false (answers ms) available ≡ (
      length (map described (take available (take 128 ms))),
      map described (take available (take 128 ms)),
    )
unfolding get_modes
get_modes-encode_modes ms available fits =
    ap (λ bytes. added_modes (modes_bytes bytes) available) (take-encode_modes 128 ms)
    ∙ added_modes-encode_modes (take 128 ms) available (take-AllFit 128 ms fits)
