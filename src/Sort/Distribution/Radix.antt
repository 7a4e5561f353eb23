-- ===== src/Sort/Distribution/Radix.antt =====
-- 排序算法/sort.cpp, `radix_sort`: the elements after distributing and gathering.
use mathlib.Core.Path.{subst}
use cpp_library.Base.{
  ℕ, zero, suc, ◌+◌, ◌<◌, ◌≤◌, ◌≡◌, ◌≢◌, refl, ap, ◌∙◌, true, false, List, [], ◌∷◌, ◌++◌, ◌==◌,
  ==_iff, ==_refl, Bool-cases, inl, inr, arith,
}
use cpp_library.Sort.{get}
use cpp_library.Sort.Insertion.{count}
use cpp_library.Sort.Distribution.{
  get_digit, maximum, count_digits, bucket, gather, radix_loop, radix_sort,
}

less_differ : {a b : ℕ} → a < b → a ≢ b
less_differ h e = omega arith

false_differ : {a b : ℕ} → (a == b) ≡ false → a ≢ b
false_differ {a} {b} h e = (let t = (==_iff a b).1 e in absurd cc)

count-append : (x : ℕ) (s t : List ℕ) → count x (s ++ t) ≡ count x s + count x t
unfolding count
count-append x [] t = omega arith
count-append x (y ∷ s) t = omega (arith, count-append x s t)

get_digit-below : (num digit : ℕ) → get_digit num digit < 10
unfolding get_digit
get_digit-below num digit = omega arith

-- A bucket has all of a number, or none of it.
count-bucket_same :
    (x digit : ℕ) (arr : List ℕ) → count x (bucket digit (get_digit x digit) arr) ≡ count x arr
unfolding count bucket
count-bucket_same x digit [] = refl
count-bucket_same x digit (num ∷ arr) =
    let rest = count-bucket_same x digit arr in
    elim (Bool-cases (x == num)) [
      | inl e ↦
          let same : x ≡ num = (==_iff x num).0 e in
          let hit : (get_digit num digit == get_digit x digit) ≡ true =
            rw same (==_refl (get_digit num digit)) in
          rw hit (omega (arith, rest))
      | inr e ↦ elim (Bool-cases (get_digit num digit == get_digit x digit)) [
        | inl f ↦ rw f (rw e (omega (arith, rest)))
        | inr f ↦ rw (f, e) (omega (arith, rest))
      ]
    ]

count-bucket_other :
    (x digit index : ℕ) (arr : List ℕ)
    → get_digit x digit ≢ index
    → count x (bucket digit index arr) ≡ 0
unfolding count bucket
count-bucket_other x digit index [] d = refl
count-bucket_other x digit index (num ∷ arr) d =
    let rest = count-bucket_other x digit index arr d in
    elim (Bool-cases (get_digit num digit == index)) [
      | inr f ↦ rw f rest
      | inl f ↦ elim (Bool-cases (x == num)) [
        | inr e ↦ rw f (rw e (omega (arith, rest)))
        | inl e ↦ absurd (
            d (
              ap (λ (y : ℕ). get_digit y digit) ((==_iff x num).0 e)
              ∙ (==_iff (get_digit num digit) index).0 f))
      ]
    ]

count-gather_behind :
    (n x index digit : ℕ) (arr : List ℕ)
    → get_digit x digit < index
    → count x (gather n index digit arr) ≡ 0
unfolding gather count
count-gather_behind zero x index digit arr h = refl
count-gather_behind (suc n) x index digit arr h = omega (
  arith,
  count-append x (bucket digit index arr) (gather n (suc index) digit arr),
  count-bucket_other x digit index arr (less_differ h),
  count-gather_behind n x (suc index) digit arr (omega arith),
)

count-gather :
    (n x index digit : ℕ) (arr : List ℕ)
    → index ≤ get_digit x digit
    → get_digit x digit < index + n
    → count x (gather n index digit arr) ≡ count x arr
unfolding gather
count-gather zero x index digit arr l h = absurd (omega arith)
count-gather (suc n) x index digit arr l h =
    let both = count-append x (bucket digit index arr) (gather n (suc index) digit arr) in
    elim (Bool-cases (get_digit x digit == index)) [
      | inl e ↦
          let here : get_digit x digit ≡ index = (==_iff (get_digit x digit) index).0 e in
          let behind = count-gather_behind n x (suc index) digit arr (omega arith) in
          let all =
            subst (λ (i : ℕ). count x (bucket digit i arr) ≡ count x arr) here
              (count-bucket_same x digit arr) in
          omega (arith, both, behind, all)
      | inr e ↦
          let none_here = count-bucket_other x digit index arr (false_differ e) in
          let all = count-gather n x (suc index) digit arr (ground arith) (omega arith) in
          omega (arith, both, none_here, all)
    ]

radix_loop-count : (n x digit : ℕ) (arr : List ℕ) → count x (radix_loop n digit arr) ≡ count x arr
unfolding radix_loop
radix_loop-count zero x digit arr = refl
radix_loop-count (suc n) x digit arr =
    radix_loop-count n x (suc digit) (gather 10 0 digit arr)
    ∙ count-gather 10 x 0 digit arr (omega arith) (omega (arith, get_digit-below x digit))

-- `radix_sort` leaves every number as often in the array as before.
pub radix_sort-count : (x : ℕ) (arr : List ℕ) → count x (radix_sort arr) ≡ count x arr
unfolding radix_sort
radix_sort-count x arr =
    let max = maximum (get arr 0) arr in radix_loop-count (count_digits (suc max) max) x 0 arr
