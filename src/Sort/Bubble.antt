-- ===== src/Sort/Bubble.antt =====
-- 排序算法/sort.cpp, `bubble_sort`: its comparisons, passes and result.
use cpp_library.Base.{
  ℕ, zero, suc, ◌+◌, ◌-◌, ◌<◌, ◌≤◌, ◌≡◌, ◌≢◌, ◌⊎◌, refl, sym, ◌∙◌, true, false, List, [], ◌∷◌, ◌==◌,
  ==_iff, ltb, ltb→lt, leb, leb→le, length, set, length-set, get_or-set_self, get_or-set_ne,
  Bool-cases, inl, inr, arith,
}
use cpp_library.Sort.{get, swap, bubble_pass, bubble_loop, bubble_sort}
use cpp_library.Sort.Insertion.{SortedTo, count}
use cpp_library.Sort.Swaps.{
  xor_swap-swap, exchange, Kept, exchange-Kept, bubble_pass-Kept, bubble_sort-count, not_next,
}

-- What a comparison does to the elements at `j` and `suc j`, and to the others.
record Exchanged (j : ℕ) (arr r : List ℕ) : Type 0 where
  low_high : get r j ≤ get r (suc j)
  values :
      ((get r j ≡ get arr j) × (get r (suc j) ≡ get arr (suc j)))
      ⊎ ((get r j ≡ get arr (suc j)) × (get r (suc j) ≡ get arr j))
  others : (k : ℕ) → j ≢ k → suc j ≢ k → get r k ≡ get arr k

swap-Exchanged :
    (j : ℕ) (arr : List ℕ)
    → suc j < length arr
    → get arr (suc j) < get arr j
    → Exchanged j arr (swap j (suc j) arr)
unfolding swap
swap-Exchanged j arr h l = record {
  low_high = rw (low, high) (omega arith);
  values = inr (low, high);
  others = λ k d e.
      get_or-set_ne (set arr j (get arr (suc j))) (suc j) k (get arr j) 0 e
      ∙ get_or-set_ne arr j k (get arr (suc j)) 0 d;
}
  where
    high : get (swap j (suc j) arr) (suc j) ≡ get arr j
    high =
        get_or-set_self (set arr j (get arr (suc j))) (suc j) (get arr j) 0
          (omega (arith, length-set arr j (get arr (suc j))))

    low : get (swap j (suc j) arr) j ≡ get arr (suc j)
    low =
        get_or-set_ne (set arr j (get arr (suc j))) (suc j) j (get arr j) 0
          (λ e. not_next j (sym e))
        ∙ get_or-set_self arr j (get arr (suc j)) 0 (omega arith)

exchange-Exchanged : (j : ℕ) (arr : List ℕ) → suc j < length arr → Exchanged j arr (exchange j arr)
unfolding exchange
exchange-Exchanged j arr h = elim (Bool-cases (ltb (get arr (suc j)) (get arr j))) [
  | inl e ↦
      rw (e, exchange, xor_swap-swap j (suc j) arr (not_next j) (omega arith) h)
        (swap-Exchanged j arr h (ltb→lt (get arr (suc j)) (get arr j) e))
  | inr e ↦
      rw (e, exchange)
        (record { low_high = ground arith; values = inl (refl, refl); others = λ k d f. refl })
]

-- What a bound on the elements up to `n` is.
Bounded : ℕ → ℕ → List ℕ → Type 0
Bounded n b arr = (k : ℕ) → k ≤ n → get arr k ≤ b

-- A pass leaves the elements behind its end, every bound of those up to it, and the greatest of
-- them at its end.
record Passed (end : ℕ) (arr r : List ℕ) : Type 0 where
  behind : (k : ℕ) → end < k → get r k ≡ get arr k
  bounds : (b : ℕ) → Bounded end b arr → Bounded end b r
  greatest : Bounded end (get r end) r

same_or_not : (i j : ℕ) → (i ≡ j) ⊎ (i ≢ j)
same_or_not i j = elim (Bool-cases (i == j)) [
  | inl e ↦ inl ((==_iff i j).0 e)
  | inr e ↦ inr (λ f. (let g = (==_iff i j).1 f in absurd cc))
]

exchange-bound :
    (j n b : ℕ) (arr r : List ℕ) → Exchanged j arr r → suc j ≤ n → Bounded n b arr → Bounded n b r
unfolding Bounded
exchange-bound j n b arr r x l h k m = at (same_or_not j k) (same_or_not (suc j) k) x.values
  where
    Values : Type 0
    Values =
        ((get r j ≡ get arr j) × (get r (suc j) ≡ get arr (suc j)))
        ⊎ ((get r j ≡ get arr (suc j)) × (get r (suc j) ≡ get arr j))

    at : (j ≡ k) ⊎ (j ≢ k) → (suc j ≡ k) ⊎ (suc j ≢ k) → Values → get r k ≤ b
    at (inl e) f (inl v) = rw (sym e, v.0) (h j (omega arith))
    at (inl e) f (inr v) = rw (sym e, v.0) (h (suc j) l)
    at (inr d) (inl f) (inl v) = rw (sym f, v.1) (h (suc j) l)
    at (inr d) (inl f) (inr v) = rw (sym f, v.1) (h j (omega arith))
    at (inr d) (inr e) v = rw (x.others k d e) (h k m)

exchange-greatest :
    (j : ℕ) (arr r : List ℕ)
    → Exchanged j arr r
    → Bounded j (get arr j) arr
    → Bounded (suc j) (get r (suc j)) r
unfolding Bounded
exchange-greatest j arr r x h k m = at (same_or_not j k) (same_or_not (suc j) k)
  where
    from_old :
        ((get r j ≡ get arr j) × (get r (suc j) ≡ get arr (suc j)))
          ⊎ ((get r j ≡ get arr (suc j)) × (get r (suc j) ≡ get arr j))
        → get arr j ≤ get r (suc j)
    from_old (inl v) = omega (arith, x.low_high, v.0)
    from_old (inr v) = omega (arith, v.1)

    at : (j ≡ k) ⊎ (j ≢ k) → (suc j ≡ k) ⊎ (suc j ≢ k) → get r k ≤ get r (suc j)
    at (inl e) f = rw (sym e) x.low_high
    at (inr d) (inl f) = rw (sym f) (omega arith)
    at (inr d) (inr f) = omega (arith, x.others k d f, h k (below_both d f), from_old x.values)
      where
        below_both : j ≢ k → suc j ≢ k → k ≤ j
        below_both d f = omega arith

first_bound : (arr : List ℕ) → Bounded 0 (get arr 0) arr
unfolding Bounded
first_bound arr k m = (let e : k ≡ 0 = omega arith in rw e (omega arith))

bubble_pass-Passed :
    (n j end : ℕ) (arr : List ℕ)
    → n + j ≡ end
    → end < length arr
    → Bounded j (get arr j) arr
    → Passed end arr (bubble_pass n j arr)
unfolding bubble_pass exchange Bounded Kept
bubble_pass-Passed zero j end arr e h g =
    let same : j ≡ end = omega arith in
    record { behind = λ k l. refl; bounds = λ b l. l; greatest = rw (sym same) g }
bubble_pass-Passed (suc n) j end arr e h g =
    let r = exchange j arr in
    let x = exchange-Exchanged j arr (omega arith) in
    let rest =
      bubble_pass-Passed n (suc j) end r (omega arith)
        (omega (arith, (exchange-Kept j arr (omega arith)).0)) (exchange-greatest j arr r x g) in
    record {
      behind = λ k l. rest.behind k l ∙ x.others k (λ f. omega arith) (λ f. omega arith);
      bounds = λ b l. rest.bounds b (exchange-bound j end b arr r x (omega arith) l);
      greatest = rest.greatest;
    }

strictly : (a b : ℕ) → a ≢ b → a ≤ b → a < b
strictly a b d l = omega arith

-- From `p` on, every element is in its place: nothing in front of it is greater.
Top : ℕ → ℕ → List ℕ → Type 0
Top p size arr = (k m : ℕ) → k ≤ m → p ≤ m → m < size → get arr k ≤ get arr m

pass-Top :
    (end size : ℕ) (arr r : List ℕ) → Passed end arr r → Top (suc end) size arr → Top end size r
unfolding Top Bounded
pass-Top end size arr r p t k m o q l = at (same_or_not end m) (Bool-cases (leb k end))
  where
    at : (end ≡ m) ⊎ (end ≢ m) → (leb k end ≡ true) ⊎ (leb k end ≡ false) → get r k ≤ get r m
    at (inl e) c = rw (sym e) (p.greatest k (omega arith))
    at (inr d) (inl c) = rw (p.behind m (strictly end m d q)) (
        p.bounds (get arr m)
          (λ k' l'. t k' m (omega (arith, strictly end m d q)) (strictly end m d q) l) k
          (leb→le k end c))
    at (inr d) (inr c) =
        rw (p.behind m (strictly end m d q), p.behind k (ground arith))
          (t k m o (strictly end m d q) l)

bubble_loop-Top :
    (n i size : ℕ) (arr : List ℕ)
    → n + i ≡ size
    → size ≤ length arr
    → Top (size - i) size arr
    → Top 0 size (bubble_loop n i size arr)
unfolding bubble_loop Top Kept
bubble_loop-Top zero i size arr e h t = λ k m o q l. t k m o (omega arith) l
bubble_loop-Top (suc n) i size arr e h t =
    let end = size - i - 1 in
    let pass = bubble_pass-Passed end 0 end arr (omega arith) (omega arith) (first_bound arr) in
    let kept = bubble_pass-Kept end 0 arr (omega arith) in
    bubble_loop-Top n (suc i) size (bubble_pass end 0 arr) (omega arith) (omega (arith, kept.0))
      (λ k m o q l.
        pass-Top end size arr (bubble_pass end 0 arr) pass
          (λ k' m' o' q' l'. t k' m' o' (omega arith) l') k m o (omega arith) l)

bubble_count : (arr : List ℕ) → (x : ℕ) → count x (bubble_sort arr (length arr)) ≡ count x arr
unfolding bubble_sort bubble_loop
bubble_count [] x = refl
bubble_count (y ∷ arr) x =
    (bubble_sort-count (suc (length arr)) (y ∷ arr) (omega arith) (omega arith)).1 x

-- `bubble_sort` of a whole array leaves it sorted, with every number as often in it as before.
pub bubble_sort-sorts :
    (arr : List ℕ)
    → SortedTo (length arr) (bubble_sort arr (length arr))
      × ((x : ℕ) → count x (bubble_sort arr (length arr)) ≡ count x arr)
unfolding bubble_sort SortedTo Top
bubble_sort-sorts arr = (
  (λ j k o l.
      bubble_loop-Top (length arr) 0 (length arr) arr (omega arith) (omega arith)
        (λ k' m' o' q' l'. absurd (omega arith)) j k o (omega arith) l),
  bubble_count arr,
)
