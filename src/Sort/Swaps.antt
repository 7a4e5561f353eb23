-- ===== src/Sort/Swaps.antt =====
-- 排序算法/sort.cpp: swapping by `^=`, and the sorts that only swap.
use cpp_library.Base.{
  ℕ, zero, suc, ◌+◌, ◌-◌, ◌<◌, ◌≤◌, ◌≡◌, ◌≢◌, refl, sym, ap, ◌∙◌, List, [], ◌∷◌, ◌==◌, ltb,
  if◌then◌else◌, length, set, length-set, get_or-set_self, get_or-set_ne, bit_xor, bit_xor_comm,
  bit_xor_back, Bool-cases, inl, inr, arith,
}
use cpp_library.Sort.{get, xor_swap, swap, bubble_pass, bubble_loop, bubble_sort}
use cpp_library.Sort.Insertion.{count, bit, count-set}

set-set : (arr : List ℕ) (i v w : ℕ) → set (set arr i v) i w ≡ set arr i w
set-set [] i v w = refl
set-set (y ∷ arr) zero v w = refl
set-set (y ∷ arr) (suc i) v w = ap (◌∷◌ y) (set-set arr i v w)

set-set_ne : (arr : List ℕ) (i j v w : ℕ) → i ≢ j → set (set arr i v) j w ≡ set (set arr j w) i v
set-set_ne [] i j v w d = refl
set-set_ne (y ∷ arr) zero zero v w d = absurd (d refl)
set-set_ne (y ∷ arr) zero (suc j) v w d = refl
set-set_ne (y ∷ arr) (suc i) zero v w d = refl
set-set_ne (y ∷ arr) (suc i) (suc j) v w d = ap (◌∷◌ y) (set-set_ne arr i j v w (λ e. d (ap suc e)))

-- At two different places in range, the three `^=` of the source exchange the elements.
pub xor_swap-swap :
    (i j : ℕ) (arr : List ℕ)
    → i ≢ j
    → i < length arr
    → j < length arr
    → xor_swap i j arr ≡ swap i j arr
unfolding xor_swap swap
xor_swap-swap i j arr d h k =
    ap (λ v. last (set a₁ j v)) second
    ∙ ap (λ v. set (set a₁ j a) i v) third
    ∙ set-set_ne a₁ j i a b (λ e. d (sym e))
    ∙ ap (λ s. set s j a) (set-set arr i x b)
  where
    a : ℕ
    a = get arr i

    b : ℕ
    b = get arr j

    x : ℕ
    x = bit_xor a b

    a₁ : List ℕ
    a₁ = set arr i x

    last : List ℕ → List ℕ
    last s = set s i (bit_xor (get s i) (get s j))

    here : get a₁ i ≡ x
    here = get_or-set_self arr i x 0 h

    second : bit_xor (get a₁ j) (get a₁ i) ≡ a
    second =
        ap (λ v. bit_xor v (get a₁ i)) (get_or-set_ne arr i j x 0 d)
        ∙ ap (bit_xor b) here
        ∙ bit_xor_comm b x
        ∙ bit_xor_back a b

    third : bit_xor (get (set a₁ j a) i) (get (set a₁ j a) j) ≡ b
    third =
        ap (λ v. bit_xor v (get (set a₁ j a) j)) (get_or-set_ne a₁ j i a 0 (λ e. d (sym e)) ∙ here)
        ∙ ap (bit_xor x) (get_or-set_self a₁ j a 0 (omega (arith, length-set arr i x, k)))
        ∙ ap (λ v. bit_xor v a) (bit_xor_comm a b)
        ∙ bit_xor_back b a

length-swap : (i j : ℕ) (arr : List ℕ) → length (swap i j arr) ≡ length arr
unfolding swap
length-swap i j arr =
    length-set (set arr i (get arr j)) j (get arr i) ∙ length-set arr i (get arr j)

count-swap :
    (x i j : ℕ) (arr : List ℕ)
    → i ≢ j
    → i < length arr
    → j < length arr
    → count x (swap i j arr) ≡ count x arr
unfolding swap
count-swap x i j arr d h k =
    let arr' = set arr i (get arr j) in
    let first = count-set x i (get arr j) arr h in
    let second = count-set x j (get arr i) arr' (omega (arith, length-set arr i (get arr j))) in
    let there : get arr' j ≡ get arr j = get_or-set_ne arr i j (get arr j) 0 d in
    omega (arith, first, second, ap (λ v. bit (x == v)) there)

-- One comparison of `bubble_sort`, and what the sorts below keep of an array
unfoldable pub exchange : ℕ → List ℕ → List ℕ
exchange j arr = if ltb (get arr (suc j)) (get arr j) then xor_swap j (suc j) arr else arr

unfoldable pub Kept : List ℕ → List ℕ → Type 0
Kept arr s = (length s ≡ length arr) × ((x : ℕ) → count x s ≡ count x arr)

Kept-trans : (r s t : List ℕ) → Kept r s → Kept s t → Kept r t
unfolding Kept
Kept-trans r s t k l = (l.0 ∙ k.0, λ x. l.1 x ∙ k.1 x)

pub not_next : (j : ℕ) → j ≢ suc j
not_next j e = omega arith

pub exchange-Kept : (j : ℕ) (arr : List ℕ) → suc j < length arr → Kept arr (exchange j arr)
unfolding Kept exchange
exchange-Kept j arr h =
    let same = xor_swap-swap j (suc j) arr (not_next j) (omega arith) h in
    elim (Bool-cases (ltb (get arr (suc j)) (get arr j))) [
      | inl e ↦
          rw (e, same)
            (
              length-swap j (suc j) arr,
              λ x. count-swap x j (suc j) arr (not_next j) (omega arith) h,
            )
      | inr e ↦ rw e (refl, λ x. refl)
    ]

pub bubble_pass-Kept :
    (n j : ℕ) (arr : List ℕ) → n + j < length arr → Kept arr (bubble_pass n j arr)
unfolding bubble_pass Kept exchange
bubble_pass-Kept zero j arr h = (refl, λ x. refl)
bubble_pass-Kept (suc n) j arr h =
    let once = exchange-Kept j arr (omega arith) in
    Kept-trans arr (exchange j arr) (bubble_pass n (suc j) (exchange j arr)) once
      (bubble_pass-Kept n (suc j) (exchange j arr) (omega (arith, once.0)))

bubble_loop-Kept :
    (n i size : ℕ) (arr : List ℕ)
    → size ≤ length arr
    → 1 ≤ size
    → Kept arr (bubble_loop n i size arr)
unfolding bubble_loop Kept
bubble_loop-Kept zero i size arr h p = (refl, λ x. refl)
bubble_loop-Kept (suc n) i size arr h p =
    let pass = bubble_pass-Kept (size - i - 1) 0 arr (omega arith) in
    Kept-trans arr (bubble_pass (size - i - 1) 0 arr) _ pass
      (bubble_loop-Kept n (suc i) size (bubble_pass (size - i - 1) 0 arr) (omega (arith, pass.0)) p)

-- `bubble_sort` of the first `size` elements of an array, at least one, keeps the array's length
-- and leaves every number as often in it as before.
pub bubble_sort-count :
    (size : ℕ) (arr : List ℕ)
    → 1 ≤ size
    → size ≤ length arr
    → (length (bubble_sort arr size) ≡ length arr)
      × ((x : ℕ) → count x (bubble_sort arr size) ≡ count x arr)
unfolding bubble_sort Kept
bubble_sort-count size arr p h = bubble_loop-Kept size 0 size arr h p
