-- ===== src/Log/Format/Digits.antt =====
-- log.cpp: the digits that a number is written with.
use cpp_library.Base.{
  ℕ, zero, suc, ◌+◌, ◌-◌, ◌*◌, ◌/◌, ◌%◌, ◌<◌, ◌≡◌, ap, ◌∙◌, List, [], ◌∷◌, ltb, Bool-cases, inl,
  inr, arith,
}
use cpp_library.Log.Format.{digits, decimal}

-- The number that decimal digits stand for, behind `n`
pub value : ℕ → List ℕ → ℕ
value n [] = n
value n (c ∷ cs) = value (n * 10 + (c - b'0')) cs

value-digits : (fuel n : ℕ) (acc : List ℕ) → n < fuel → value 0 (digits fuel n acc) ≡ value n acc
unfolding digits value
value-digits zero n acc h = absurd (omega arith)
value-digits (suc fuel) n acc h = elim (Bool-cases (ltb n 10)) [
  | inl k ↦ rw k (ap (λ (m : ℕ). value m acc) (ground arith))
  | inr k ↦ rw k (
      value-digits fuel (n / 10) ((b'0' + n % 10) ∷ acc) (ground arith)
      ∙ unfold value in ap (λ (m : ℕ). value m acc) (omega arith))
]

-- The digits of a number read back as the number.
pub value-decimal : (n : ℕ) → value 0 (decimal n) ≡ n
unfolding decimal value
value-decimal n = value-digits (suc n) n [] (omega arith)
