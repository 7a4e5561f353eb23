-- ===== src/Base/Xor.antt =====
-- Laws of the bitwise exclusive or.
use Prim.Native.Nat.{ℕ, zero, suc, ◌+◌, ◌*◌, ◌/◌, ◌%◌, ◌≤◌, ◌<◌, bit_xor, differ, bit_xor-bitwise}
use mathlib.Core.Path.{◌≡◌, refl, ap, sym, ◌∙◌}
use native.Mathlib.Omega.{arith}
use cpp_library.Base.Bits.{lowest_digit}

bit_xor_lowest : (a b : ℕ) → bit_xor a b ≡ bit_xor (a / 2) (b / 2) * 2 + differ (a % 2) (b % 2)
bit_xor_lowest zero b = omega (arith, bit_xor-bitwise 0 b, bit_xor-bitwise 0 (b / 2))
bit_xor_lowest (suc a) b =
    bit_xor-bitwise (suc a) b
    ∙ lowest_digit (λ b. b) differ a b
    ∙ ap (λ (x : ℕ). x * 2 + differ (suc a % 2) (b % 2)) (sym (bit_xor-bitwise (suc a / 2) (b / 2)))

differ_comm : (p q : ℕ) → differ p q ≡ differ q p
differ_comm zero zero = refl
differ_comm zero (suc q) = refl
differ_comm (suc p) zero = refl
differ_comm (suc p) (suc q) = differ_comm p q

differ_below : (p q : ℕ) → p < 2 → q < 2 → differ p q < 2
differ_below zero q h k = k
differ_below (suc p) zero h k = h
differ_below (suc p) (suc q) h k = differ_below p q (omega arith) (omega arith)

differ_same : (q : ℕ) → differ q q ≡ 0
differ_same zero = refl
differ_same (suc q) = differ_same q

differ_back : (p q : ℕ) → p < 2 → q < 2 → differ (differ p q) q ≡ p
differ_back zero q h k = differ_same q
differ_back (suc p) zero h k = refl
differ_back (suc zero) (suc zero) h k = refl
differ_back (suc zero) (suc (suc q)) h k = absurd (omega arith)
differ_back (suc (suc p)) (suc q) h k = absurd (omega arith)

xor_comm_below : (n a b : ℕ) → a ≤ n → b ≤ n → bit_xor a b ≡ bit_xor b a
xor_comm_below zero zero zero h k = refl
xor_comm_below zero zero (suc b) h k = absurd (omega arith)
xor_comm_below zero (suc a) b h k = absurd (omega arith)
xor_comm_below (suc n) a b h k = omega (
  arith,
  bit_xor_lowest a b,
  bit_xor_lowest b a,
  differ_comm (a % 2) (b % 2),
  xor_comm_below n (a / 2) (b / 2) (omega arith) (omega arith),
)

pub bit_xor_comm : (a b : ℕ) → bit_xor a b ≡ bit_xor b a
bit_xor_comm a b = xor_comm_below (a + b) a b (omega arith) (omega arith)

xor_back_below : (n a b : ℕ) → a ≤ n → b ≤ n → bit_xor (bit_xor a b) b ≡ a
xor_back_below zero zero zero h k = refl
xor_back_below zero zero (suc b) h k = absurd (omega arith)
xor_back_below zero (suc a) b h k = absurd (omega arith)
xor_back_below (suc n) a b h k =
    let x = bit_xor a b in
    let d = differ_below (a % 2) (b % 2) (omega arith) (omega arith) in
    let half : x / 2 ≡ bit_xor (a / 2) (b / 2) = omega (arith, d, bit_xor_lowest a b) in
    let last : x % 2 ≡ differ (a % 2) (b % 2) = omega (arith, d, bit_xor_lowest a b) in
    let upper : bit_xor (x / 2) (b / 2) ≡ a / 2 =
      ap (λ (y : ℕ). bit_xor y (b / 2)) half
      ∙ xor_back_below n (a / 2) (b / 2) (omega arith) (omega arith) in
    let lower : differ (x % 2) (b % 2) ≡ a % 2 =
      ap (λ (y : ℕ). differ y (b % 2)) last
      ∙ differ_back (a % 2) (b % 2) (omega arith) (omega arith) in
    omega (arith, bit_xor_lowest x b, upper, lower)

-- `(a ^ b) ^ b` is `a`.
pub bit_xor_back : (a b : ℕ) → bit_xor (bit_xor a b) b ≡ a
bit_xor_back a b = xor_back_below (a + b) a b (omega arith) (omega arith)
