-- ===== src/Json/Text/Hex.antt =====
-- `lept_parse_hex4` on hexadecimal digits, and the size of its result.
use cpp_library.Base.{
  Option-cases, inl, inr, ℕ, suc, ◌+◌, ◌*◌, ◌%◌, ◌^◌, ◌<◌, bit_or, ◌≡◌, refl, ◌∙◌, ap, none, some,
  List, [], ◌∷◌, length, arith, bit_or_shift,
}
use cpp_library.Json.Scan.{peek, advance}
use cpp_library.Json.Text.{hex_value, hex_loop, parse_hex4, hex_digit}

pub hex_value-hex_digit : (d : ℕ) → d < 16 → hex_value (hex_digit d) ≡ some d
unfolding hex_value hex_digit
hex_value-hex_digit d h = ground arith

hex_value-lt : (ch d : ℕ) → hex_value ch ≡ some d → d < 16
unfolding hex_value
hex_value-lt ch d h = ground arith

-- `*u <<= 4; *u |= d` on a value with room for four bits more.
shift_in : (u d : ℕ) → u < 2 ^ 28 → d < 16 → bit_or (u * 2 ^ 4 % 2 ^ 32) d ≡ u * 16 + d
shift_in u d h k =
    let e : u * 2 ^ 4 % 2 ^ 32 ≡ u * 16 = omega arith in
    ap (λ (x : ℕ). bit_or x d) e ∙ bit_or_shift 4 u d k

hex_loop-suc :
    (n u d : ℕ) (p : List ℕ)
    → u < 2 ^ 28
    → hex_value (peek p) ≡ some d
    → hex_loop (suc n) u p ≡ hex_loop n (u * 16 + d) (advance p)
unfolding hex_loop
hex_loop-suc n u d p h e = rw (e, hex_loop, shift_in u d h (hex_value-lt (peek p) d e))

-- Four hexadecimal digits, as the generator writes them, are read back as one number.
pub parse_hex4-hex_digit :
    (a b c d : ℕ) (rest : List ℕ)
    → a < 16
    → b < 16
    → c < 16
    → d < 16
    → parse_hex4 (hex_digit a ∷ hex_digit b ∷ hex_digit c ∷ hex_digit d ∷ rest)
      ≡ some (a * 4096 + b * 256 + c * 16 + d, rest)
unfolding parse_hex4
parse_hex4-hex_digit a b c d rest ha hb hc hd =
    hex_loop-suc 3 0 a (hex_digit a ∷ hex_digit b ∷ hex_digit c ∷ hex_digit d ∷ rest) (omega arith)
      (hex_value-hex_digit a ha)
    ∙ hex_loop-suc 2 (0 * 16 + a) b (hex_digit b ∷ hex_digit c ∷ hex_digit d ∷ rest) (omega arith)
        (hex_value-hex_digit b hb)
    ∙ hex_loop-suc 1 ((0 * 16 + a) * 16 + b) c (hex_digit c ∷ hex_digit d ∷ rest) (omega arith)
        (hex_value-hex_digit c hc)
    ∙ hex_loop-suc 0 (((0 * 16 + a) * 16 + b) * 16 + c) d (hex_digit d ∷ rest) (omega arith)
        (hex_value-hex_digit d hd)
    ∙ ap (λ (n : ℕ). some (n, rest)) (omega arith)

-- A round that succeeds has read a byte of the text and added four bits.
record Read (n u v : ℕ) (p q : List ℕ) : Type 0 where
  digit : ℕ
  small : digit < 16
  rest : hex_loop n (u * 16 + digit) (advance p) ≡ some (v, q)
  shorter : length (advance p) + 1 ≡ length p

hex_loop_inv :
    (n u v : ℕ) (p q : List ℕ) → u < 2 ^ 28 → hex_loop (suc n) u p ≡ some (v, q) → Read n u v p q
unfolding hex_loop
hex_loop_inv n u v [] q h e = absurd (ground (arith, hex_value_end))
  where
    hex_value_end : hex_value 0 ≡ none
    hex_value_end = unfold hex_value in refl
hex_loop_inv n u v (x ∷ p) q h e = elim (Option-cases (hex_value x)) [
  | inl no_digit ↦ absurd (ground arith)
  | inr (d, ed) ↦
      let small = hex_value-lt x d ed in
      record {
        digit = d;
        small = small;
        rest = ground (arith, shift_in u d h small);
        shorter = omega arith;
      }
]

hex_loop_done :
    (u v : ℕ) (p q : List ℕ) → hex_loop 0 u p ≡ some (v, q) → (u ≡ v) × (length p ≡ length q)
unfolding hex_loop
hex_loop_done u v p q e = ground arith

-- What `lept_parse_hex4` returns has 16 bits, and it has read four bytes.
pub parse_hex4-lt :
    (p : List ℕ) (v : ℕ) (q : List ℕ)
    → parse_hex4 p ≡ some (v, q)
    → (v < 65536) × (length q + 4 ≡ length p)
unfolding parse_hex4
parse_hex4-lt p v q e =
    let (value, stop) = hex_loop_done _ v _ q r4.rest in
    omega (
      arith, r1.small, r2.small, r3.small, r4.small, r1.shorter, r2.shorter, r3.shorter, r4.shorter,
      value, stop,
    )
  where
    r1 : Read 3 0 v p q
    r1 = hex_loop_inv 3 0 v p q (omega arith) e

    r2 : Read 2 (0 * 16 + r1.digit) v (advance p) q
    r2 = hex_loop_inv 2 (0 * 16 + r1.digit) v (advance p) q (omega (arith, r1.small)) r1.rest

    r3 : Read 1 ((0 * 16 + r1.digit) * 16 + r2.digit) v (advance (advance p)) q
    r3 =
        hex_loop_inv 1 ((0 * 16 + r1.digit) * 16 + r2.digit) v (advance (advance p)) q
          (omega (arith, r1.small, r2.small)) r2.rest

    r4 :
        Read 0
          (((0 * 16 + r1.digit) * 16 + r2.digit) * 16 + r3.digit)
          v
          (advance (advance (advance p)))
          q
    r4 =
        hex_loop_inv 0 (((0 * 16 + r1.digit) * 16 + r2.digit) * 16 + r3.digit) v
          (advance (advance (advance p))) q (omega (arith, r1.small, r2.small, r3.small)) r3.rest
