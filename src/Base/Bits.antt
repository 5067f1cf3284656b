-- ===== src/Base/Bits.antt =====
-- Laws of the native bit operations at every width: masks, disjoint fields, and exclusive or.
use Prim.Native.Nat.{
  ℕ, zero, suc, ◌+◌, ◌-◌, ◌*◌, ◌/◌, ◌%◌, ◌^◌, ◌≤◌, ◌<◌, min, max, digits, bitwise, differ, bit_and,
  bit_or, bit_xor, bit_and-bitwise, bit_or-bitwise, bit_xor-bitwise,
}
use mathlib.Core.Path.{◌≡◌, refl, ◌∙◌, ap, ap₂}
use native.Mathlib.Nat.{pow-suc, one-le-pow}
use native.Mathlib.Omega.{arith}

-- More rounds than the first number has digits change nothing.
module _ (rest : ℕ → ℕ) (op : ℕ → ℕ → ℕ) where
  digits-extra : (a n m b : ℕ) → a ≤ n → a ≤ m → digits rest op n a b ≡ digits rest op m a b
  digits-extra a zero zero b hn hm = refl
  digits-extra zero zero (suc m) b hn hm = refl
  digits-extra zero (suc n) zero b hn hm = refl
  digits-extra zero (suc n) (suc m) b hn hm = refl
  digits-extra (suc a) zero m b hn hm = absurd (omega arith)
  digits-extra (suc a) (suc n) zero b hn hm = absurd (omega arith)
  digits-extra (suc a) (suc n) (suc m) b hn hm =
      ap (λ t. t * 2 + op (suc a % 2) (b % 2))
        (digits-extra (suc a / 2) n m (b / 2) (omega arith) (omega arith))

  lowest_digit :
      (a b : ℕ)
      → bitwise rest op (suc a) b ≡ bitwise rest op (suc a / 2) (b / 2) * 2 + op (suc a % 2) (b % 2)
  lowest_digit a b =
      ap (λ t. t * 2 + op (suc a % 2) (b % 2))
        (digits-extra (suc a / 2) a (suc a / 2) (b / 2) (omega arith) (omega arith))

pub and_digit : (a b : ℕ) → bit_and a b ≡ bit_and (a / 2) (b / 2) * 2 + min (a % 2) (b % 2)
and_digit zero b = omega (arith, bit_and-bitwise 0 b, bit_and-bitwise 0 (b / 2))
and_digit (suc a) b = omega (
  arith,
  bit_and-bitwise (suc a) b,
  bit_and-bitwise (suc a / 2) (b / 2),
  lowest_digit (λ y. 0) min a b,
)

pub or_digit : (a b : ℕ) → bit_or a b ≡ bit_or (a / 2) (b / 2) * 2 + max (a % 2) (b % 2)
or_digit zero b = omega (arith, bit_or-bitwise 0 b, bit_or-bitwise 0 (b / 2))
or_digit (suc a) b = omega (
  arith,
  bit_or-bitwise (suc a) b,
  bit_or-bitwise (suc a / 2) (b / 2),
  lowest_digit (λ y. y) max a b,
)

pub xor_digit : (a b : ℕ) → bit_xor a b ≡ bit_xor (a / 2) (b / 2) * 2 + differ (a % 2) (b % 2)
xor_digit zero b = omega (arith, bit_xor-bitwise 0 b, bit_xor-bitwise 0 (b / 2))
xor_digit (suc a) b = omega (
  arith,
  bit_xor-bitwise (suc a) b,
  bit_xor-bitwise (suc a / 2) (b / 2),
  lowest_digit (λ y. y) differ a b,
)

zero-mask : (a : ℕ) → bit_and a 0 ≡ 0
zero-mask a = below (suc a) a (omega arith)
  where
    below : (n a : ℕ) → a < n → bit_and a 0 ≡ 0
    below zero a h = absurd (omega arith)
    below (suc n) zero h = bit_and-bitwise 0 0
    below (suc n) (suc a) h = omega (arith, and_digit (suc a) 0, below n (suc a / 2) (omega arith))

or-zero : (a : ℕ) → bit_or a 0 ≡ a
or-zero a = below (suc a) a (omega arith)
  where
    below : (n a : ℕ) → a < n → bit_or a 0 ≡ a
    below zero a h = absurd (omega arith)
    below (suc n) zero h = bit_or-bitwise 0 0
    below (suc n) (suc a) h = omega (arith, or_digit (suc a) 0, below n (suc a / 2) (omega arith))

-- `(q << k) | r` is a sum where `r` has `k` bits.
pub or_fields : (k q r : ℕ) → r < 2 ^ k → bit_or (q * 2 ^ k) r ≡ q * 2 ^ k + r
or_fields zero q r h = let e : r ≡ 0 = omega arith in rw e (or-zero (q * 1) ∙ omega arith)
or_fields (suc k) q r h =
    let double : 2 ^ suc k ≡ 2 * 2 ^ k = pow-suc 2 k ∙ omega arith in
    let scaled : q * 2 ^ suc k ≡ 2 * (q * 2 ^ k) = ap (λ t. q * t) double ∙ omega arith in
    let halved : q * 2 ^ suc k / 2 ≡ q * 2 ^ k = omega arith in
    let tail : bit_or (q * 2 ^ suc k / 2) (r / 2) ≡ q * 2 ^ k + r / 2 =
      ap (λ t. bit_or t (r / 2)) halved ∙ or_fields k q (r / 2) (omega arith) in
    omega (arith, or_digit (q * 2 ^ suc k) r)

mod_unique : (a m q r : ℕ) → a ≡ q * m + r → r < m → a % m ≡ r
mod_unique a m q r e h = grind arith

mod_double : (a d : ℕ) → 1 ≤ d → a % (2 * d) ≡ a / 2 % d * 2 + a % 2
mod_double a d pos =
    let halves : a / 2 ≡ d * (a / 2 / d) + a / 2 % d = grind arith in
    let small : a / 2 % d < d = grind arith in
    let regroup : a / 2 / d * (2 * d) ≡ 2 * (d * (a / 2 / d)) = omega arith in
    mod_unique a (2 * d) (a / 2 / d) (a / 2 % d * 2 + a % 2) (omega arith) (omega arith)

-- A mask of `k` ones keeps the remainder by `2 ^ k`.
pub and_mask : (k a : ℕ) → bit_and a (2 ^ k - 1) ≡ a % 2 ^ k
and_mask zero a = zero-mask a ∙ omega arith
and_mask (suc k) a =
    let double : 2 ^ suc k ≡ 2 * 2 ^ k = pow-suc 2 k ∙ omega arith in
    let pos : 1 ≤ 2 ^ k = one-le-pow k 2 (omega arith) in
    let halved : (2 ^ suc k - 1) / 2 ≡ 2 ^ k - 1 = omega arith in
    let odd : (2 ^ suc k - 1) % 2 ≡ 1 = omega arith in
    let tail : bit_and (a / 2) ((2 ^ suc k - 1) / 2) ≡ a / 2 % 2 ^ k =
      ap (bit_and (a / 2)) halved ∙ and_mask k (a / 2) in
    let split : a % 2 ^ suc k ≡ a / 2 % 2 ^ k * 2 + a % 2 =
      ap (λ t. a % t) double ∙ mod_double a (2 ^ k) pos in
    omega (arith, and_digit a (2 ^ suc k - 1))

differ_lt : (x y : ℕ) → x < 2 → y < 2 → differ x y < 2
differ_lt zero y hx hy = hy
differ_lt (suc zero) zero hx hy = hx
differ_lt (suc zero) (suc zero) hx hy = omega arith
differ_lt (suc zero) (suc (suc y)) hx hy = absurd (omega arith)
differ_lt (suc (suc x)) y hx hy = absurd (omega arith)

differ_undo : (x y : ℕ) → x < 2 → y < 2 → differ (differ x y) y ≡ x
differ_undo zero zero hx hy = refl
differ_undo zero (suc zero) hx hy = refl
differ_undo (suc zero) zero hx hy = refl
differ_undo (suc zero) (suc zero) hx hy = refl
differ_undo x (suc (suc y)) hx hy = absurd (omega arith)
differ_undo (suc (suc x)) y hx hy = absurd (omega arith)

undo_digit :
    (a b : ℕ) → bit_xor (bit_xor (a / 2) (b / 2)) (b / 2) ≡ a / 2 → bit_xor (bit_xor a b) b ≡ a
undo_digit a b ih =
    let low : differ (a % 2) (b % 2) < 2 = differ_lt (a % 2) (b % 2) (omega arith) (omega arith) in
    let digit = xor_digit a b in
    let high : bit_xor a b / 2 ≡ bit_xor (a / 2) (b / 2) = omega arith in
    let last : bit_xor a b % 2 ≡ differ (a % 2) (b % 2) = omega arith in
    let again = differ_undo (a % 2) (b % 2) (omega arith) (omega arith) in
    xor_digit (bit_xor a b) b
    ∙ ap₂ (λ s t. s * 2 + t) (ap (λ t. bit_xor t (b / 2)) high ∙ ih)
        (ap (λ t. differ t (b % 2)) last ∙ again)
    ∙ omega arith

-- Exclusive or with the same number twice is the identity.
pub xor_undo : (a b : ℕ) → bit_xor (bit_xor a b) b ≡ a
xor_undo a b = below (suc (a + b)) a b (omega arith)
  where
    below : (n a b : ℕ) → a + b < n → bit_xor (bit_xor a b) b ≡ a
    below zero a b h = absurd (omega arith)
    below (suc n) zero zero h = refl
    below (suc n) zero (suc b) h = undo_digit 0 (suc b) (below n 0 (suc b / 2) (omega arith))
    below (suc n) (suc a) b h = undo_digit (suc a) b (below n (suc a / 2) (b / 2) (omega arith))

-- It needs no more bits than its arguments.
pub xor-lt : (k a b : ℕ) → a < 2 ^ k → b < 2 ^ k → bit_xor a b < 2 ^ k
xor-lt zero a b ha hb =
    let ea : a ≡ 0 = omega arith in let eb : b ≡ 0 = omega arith in rw (ea, eb) (omega arith)
xor-lt (suc k) a b ha hb =
    let double : 2 ^ suc k ≡ 2 * 2 ^ k = pow-suc 2 k ∙ omega arith in
    omega (
      arith,
      xor_digit a b,
      differ_lt (a % 2) (b % 2) (omega arith) (omega arith),
      xor-lt k (a / 2) (b / 2) (omega arith) (omega arith),
    )

pub or_comm : (a b : ℕ) → bit_or a b ≡ bit_or b a
or_comm a b = below (suc (a + b)) a b (omega arith)
  where
    below : (n a b : ℕ) → a + b < n → bit_or a b ≡ bit_or b a
    below zero a b h = absurd (omega arith)
    below (suc n) zero zero h = refl
    below (suc n) zero (suc b) h =
        omega (arith, or_digit 0 (suc b), or_digit (suc b) 0, below n 0 (suc b / 2) (omega arith))
    below (suc n) (suc a) b h =
        omega
          (arith, or_digit (suc a) b, or_digit b (suc a), below n (suc a / 2) (b / 2) (omega arith))

differ_comm : (x y : ℕ) → x < 2 → y < 2 → differ x y ≡ differ y x
differ_comm zero zero hx hy = refl
differ_comm zero (suc zero) hx hy = refl
differ_comm (suc zero) zero hx hy = refl
differ_comm (suc zero) (suc zero) hx hy = refl
differ_comm x (suc (suc y)) hx hy = absurd (omega arith)
differ_comm (suc (suc x)) y hx hy = absurd (omega arith)

pub xor_comm : (a b : ℕ) → bit_xor a b ≡ bit_xor b a
xor_comm a b = below (suc (a + b)) a b (omega arith)
  where
    digit :
        (a b : ℕ) → bit_xor (a / 2) (b / 2) ≡ bit_xor (b / 2) (a / 2) → bit_xor a b ≡ bit_xor b a
    digit a b ih = omega (
      arith,
      xor_digit a b,
      xor_digit b a,
      differ_comm (a % 2) (b % 2) (omega arith) (omega arith),
    )

    below : (n a b : ℕ) → a + b < n → bit_xor a b ≡ bit_xor b a
    below zero a b h = absurd (omega arith)
    below (suc n) zero zero h = refl
    below (suc n) zero (suc b) h = digit 0 (suc b) (below n 0 (suc b / 2) (omega arith))
    below (suc n) (suc a) b h = digit (suc a) b (below n (suc a / 2) (b / 2) (omega arith))

pub xor-zero : (a : ℕ) → bit_xor a 0 ≡ a
xor-zero a = below (suc a) a (omega arith)
  where
    below : (n a : ℕ) → a < n → bit_xor a 0 ≡ a
    below zero a h = absurd (omega arith)
    below (suc n) zero h = refl
    below (suc n) (suc a) h =
        xor_digit (suc a) 0
        ∙ ap₂ (λ s t. s * 2 + t) (below n (suc a / 2) (omega arith))
            (last (suc a % 2) (omega arith))
        ∙ omega arith
      where
        last : (x : ℕ) → x < 2 → differ x 0 ≡ x
        last zero hx = refl
        last (suc zero) hx = refl
        last (suc (suc x)) hx = absurd (omega arith)
