-- ===== src/Base/Bits.antt =====
-- Bitwise "or" of disjoint fields as a sum, and bitwise "and" with a mask of ones as a remainder.
use Prim.Native.Nat.{
  ℕ, zero, suc, ◌+◌, ◌*◌, ◌/◌, ◌%◌, ◌≤◌, ◌<◌, max, min, bit_or, bit_and, digits, bit_or-bitwise,
  bit_and-bitwise,
}
use mathlib.Core.Path.{◌≡◌, refl, ap, sym, ◌∙◌}
use mathlib.Core.Logic.{◌⊎◌, inl, inr}
use native.Mathlib.Omega.{arith}

top_or_below : (c n : ℕ) → c ≤ suc n → (c ≡ suc n) ⊎ (c ≤ n)
top_or_below c n h = ground arith

-- An operation on two digits, taken through two numbers, does not depend on the fuel above the
-- first number.
module _ (rest : ℕ → ℕ) (op : ℕ → ℕ → ℕ) where
  fuel_more : (n a b : ℕ) → a ≤ n → digits rest op (suc n) a b ≡ digits rest op n a b
  fuel_more zero zero b h = refl
  fuel_more zero (suc a) b h = absurd (omega arith)
  fuel_more (suc n) zero b h = refl
  fuel_more (suc n) (suc a) b h =
      ap (λ (x : ℕ). x * 2 + op (suc a % 2) (b % 2)) (fuel_more n (suc a / 2) (b / 2) (omega arith))

  fuel_least : (n c b : ℕ) → c ≤ n → digits rest op n c b ≡ digits rest op c c b
  fuel_least zero zero b h = refl
  fuel_least zero (suc c) b h = absurd (omega arith)
  fuel_least (suc n) c b h = elim (top_or_below c n h) [
    | inl e ↦ rw e refl
    | inr l ↦ fuel_more n c b l ∙ fuel_least n c b l
  ]

  pub lowest_digit :
      (a b : ℕ)
      → digits rest op (suc a) (suc a) b
        ≡ digits rest op (suc a / 2) (suc a / 2) (b / 2) * 2 + op (suc a % 2) (b % 2)
  lowest_digit a b =
      ap (λ (x : ℕ). x * 2 + op (suc a % 2) (b % 2))
        (fuel_least a (suc a / 2) (b / 2) (omega arith))

bit_or_lowest : (a b : ℕ) → bit_or a b ≡ bit_or (a / 2) (b / 2) * 2 + max (a % 2) (b % 2)
bit_or_lowest zero b = omega (arith, bit_or-bitwise 0 b, bit_or-bitwise 0 (b / 2))
bit_or_lowest (suc a) b =
    bit_or-bitwise (suc a) b
    ∙ lowest_digit (λ b. b) max a b
    ∙ ap (λ (x : ℕ). x * 2 + max (suc a % 2) (b % 2)) (sym (bit_or-bitwise (suc a / 2) (b / 2)))

bit_and_lowest : (a b : ℕ) → bit_and a b ≡ bit_and (a / 2) (b / 2) * 2 + min (a % 2) (b % 2)
bit_and_lowest zero b = omega (arith, bit_and-bitwise 0 b, bit_and-bitwise 0 (b / 2))
bit_and_lowest (suc a) b =
    bit_and-bitwise (suc a) b
    ∙ lowest_digit (λ b. zero) min a b
    ∙ ap (λ (x : ℕ). x * 2 + min (suc a % 2) (b % 2)) (sym (bit_and-bitwise (suc a / 2) (b / 2)))

or_nothing : (n a : ℕ) → a ≤ n → digits (λ b. b) max n a 0 ≡ a
or_nothing zero zero h = refl
or_nothing (suc n) zero h = refl
or_nothing zero (suc a) h = absurd (omega arith)
or_nothing (suc n) (suc a) h = omega (arith, or_nothing n (suc a / 2) (omega arith))

and_nothing : (n a : ℕ) → digits (λ b. zero) min n a 0 ≡ 0
and_nothing zero a = refl
and_nothing (suc n) zero = refl
and_nothing (suc n) (suc a) = omega (arith, and_nothing n (suc a / 2))

abbrev pub pow2 : ℕ → ℕ
pow2 zero = 1
pow2 (suc k) = pow2 k * 2

or_doubled : (x d : ℕ) → bit_or x (d / 2) ≡ x + d / 2 → bit_or (x * 2) d ≡ x * 2 + d
or_doubled x d h =
    let half : x * 2 / 2 ≡ x = omega arith in
    omega (arith, bit_or_lowest (x * 2) d, ap (λ (y : ℕ). bit_or y (d / 2)) half, h)

-- `(u << k) | d` is a sum where `d` has at most `k` bits.
pub bit_or_shift : (k u d : ℕ) → d < pow2 k → bit_or (u * pow2 k) d ≡ u * pow2 k + d
bit_or_shift zero u d h =
    let none_left : d ≡ 0 = omega arith in
    rw none_left (bit_or-bitwise (u * 1) 0 ∙ or_nothing (u * 1) (u * 1) (omega arith) ∙ omega arith)
bit_or_shift (suc k) u d h =
    let regroup : u * (pow2 k * 2) ≡ u * pow2 k * 2 = omega arith in
    rw regroup (or_doubled (u * pow2 k) d (bit_or_shift k u (d / 2) (omega arith)))

-- The last `k` binary digits, and the mask that keeps them.
abbrev low : ℕ → ℕ → ℕ
low zero a = 0
low (suc k) a = low k (a / 2) * 2 + a % 2

abbrev ones : ℕ → ℕ
ones zero = 0
ones (suc k) = ones k * 2 + 1

bit_and-ones : (k a : ℕ) → bit_and a (ones k) ≡ low k a
bit_and-ones zero a = bit_and-bitwise a 0 ∙ and_nothing a a
bit_and-ones (suc k) a =
    let half : (ones k * 2 + 1) / 2 ≡ ones k = omega arith in
    omega (
      arith,
      bit_and_lowest a (ones k * 2 + 1),
      ap (λ (y : ℕ). bit_and (a / 2) y) half,
      bit_and-ones k (a / 2),
    )

pub bit_and_15 : (a : ℕ) → bit_and a 15 ≡ a % 16
bit_and_15 a = bit_and-ones 4 a ∙ omega arith

pub bit_and_63 : (a : ℕ) → bit_and a 63 ≡ a % 64
bit_and_63 a = bit_and-ones 6 a ∙ omega arith

pub bit_and_255 : (a : ℕ) → bit_and a 255 ≡ a % 256
bit_and_255 a = bit_and-ones 8 a ∙ omega arith

-- `(a | 5) & 1` and `(a | 5) & 4` are not 0.
pub bit_and_1-bit_or_5 : (a : ℕ) → bit_and (bit_or a 5) 1 ≡ 1
bit_and_1-bit_or_5 a = bit_and-ones 1 (bit_or a 5) ∙ omega (arith, bit_or_lowest a 5)

bit_and_4 : (a : ℕ) → bit_and a 4 ≡ a / 4 % 2 * 4
bit_and_4 a =
    omega (arith, bit_and_lowest a 4, bit_and_lowest (a / 2) 2, bit_and-ones 1 (a / 2 / 2))

pub bit_and_4-bit_or_5 : (a : ℕ) → bit_and (bit_or a 5) 4 ≡ 4
bit_and_4-bit_or_5 a = omega (
  arith,
  bit_and_4 (bit_or a 5),
  bit_or_lowest a 5,
  bit_or_lowest (a / 2) 2,
  bit_or_lowest (a / 2 / 2) 1,
)
