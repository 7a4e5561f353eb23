-- ===== src/Json/Equal/Bytes.antt =====
-- MyJson/tutorial08/leptjson.cpp: what `memcmp` and the lengths tell of two strings or keys.
use mathlib.Core.Path.{ap₂}
use cpp_library.Base.{
  and_both, sym, ==_iff, true≢false, arith, ◌==◌, ℕ, ◌≡◌, refl, true, List, [], ◌∷◌, ==_refl,
  Bool-cases, length, inl, inr,
}
use cpp_library.Json.Equal.{memcmp_zero, same_bytes}

memcmp_zero_refl : (s : List ℕ) → memcmp_zero s s ≡ true
unfolding memcmp_zero
memcmp_zero_refl [] = refl
memcmp_zero_refl (a ∷ s) = rw (==_refl a, memcmp_zero_refl s)

pub same_bytes_refl : (s : List ℕ) → same_bytes s s ≡ true
unfolding same_bytes
same_bytes_refl s = rw (==_refl (length s), memcmp_zero_refl s)

memcmp_zero_sound : (s t : List ℕ) → length s ≡ length t → memcmp_zero s t ≡ true → s ≡ t
unfolding memcmp_zero
memcmp_zero_sound [] [] l e = refl
memcmp_zero_sound [] (b ∷ t) l e = absurd (omega (arith, l))
memcmp_zero_sound (a ∷ s) [] l e = absurd (omega (arith, l))
memcmp_zero_sound (a ∷ s) (b ∷ t) l e = elim (Bool-cases (a == b)) [
  | inr f ↦ absurd (true≢false (sym (rw f at e)))
  | inl f ↦ ap₂ ◌∷◌ ((==_iff a b).0 f) (memcmp_zero_sound s t (omega (arith, l)) (rw f at e))
]

pub same_bytes_sound : (s t : List ℕ) → same_bytes s t ≡ true → s ≡ t
unfolding same_bytes
same_bytes_sound s t e =
    let (l, f) = and_both (length s == length t) (memcmp_zero s t) e in
    memcmp_zero_sound s t ((==_iff (length s) (length t)).0 l) f
