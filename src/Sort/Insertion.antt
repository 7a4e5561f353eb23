-- ===== src/Sort/Insertion.antt =====
-- 排序算法/sort.cpp, `insert_sort`: order and elements of the array it leaves.
use mathlib.Core.Path.{subst}
use cpp_library.Base.{
  ℕ, zero, suc, ◌+◌, ◌-◌, ◌<◌, ◌≤◌, ◌≡◌, ◌≢◌, refl, sym, ap, ◌∙◌, Bool, false, List, [], ◌∷◌, ◌==◌,
  ltb, ltb→lt, if◌then◌else◌, length, set, length-set, get_or-set_self, get_or-set_ne, ==_iff,
  Bool-cases, inl, inr, ◌⊎◌, arith,
}
use cpp_library.Sort.{get, sift, insert_loop, insert_sort}

-- The first `n` elements are in order.
unfoldable pub SortedTo : ℕ → List ℕ → Type 0
SortedTo n arr = (j k : ℕ) → j ≤ k → k < n → get arr j ≤ get arr k

unfoldable pub bit : Bool → ℕ
bit b = if b then 1 else 0

-- How often `x` is in the array
unfoldable pub count : ℕ → List ℕ → ℕ
count x [] = 0
count x (y ∷ arr) = (if x == y then 1 else 0) + count x arr

same_or_not : (i j : ℕ) → (i ≡ j) ⊎ (i ≢ j)
same_or_not i j = elim (Bool-cases (i == j)) [
  | inl e ↦ inl ((==_iff i j).0 e)
  | inr e ↦ inr (λ f. (let g = (==_iff i j).1 f in absurd cc))
]

lt_of : (a b : ℕ) → a ≢ b → a ≤ b → a < b
lt_of a b d l = elim (Bool-cases (a == b)) [
  | inl e ↦ absurd (d ((==_iff a b).0 e))
  | inr e ↦ ground arith
]

not_own : (i : ℕ) → suc i ≢ i
not_own i e = absurd (omega arith)

-- The elements up to `n` but for the hole at `i` are in order, and `tmp` fits above the hole.
record Hole (i n tmp : ℕ) (arr : List ℕ) : Type 0 where
  inside : i ≤ n
  room : n < length arr
  ordered : (j k : ℕ) → j ≢ i → k ≢ i → j ≤ k → k ≤ n → get arr j ≤ get arr k
  above : (k : ℕ) → i < k → k ≤ n → tmp ≤ get arr k

-- `tmp` put into the hole when the elements below it are not greater
fill :
    (i n tmp : ℕ) (arr : List ℕ)
    → Hole i n tmp arr
    → ((j : ℕ) → j < i → get arr j ≤ tmp)
    → SortedTo (suc n) (set arr i tmp)
unfolding SortedTo
fill i n tmp arr h below j k l m = by_place (same_or_not i j) (same_or_not i k)
  where
    by_place : (i ≡ j) ⊎ (i ≢ j) → (i ≡ k) ⊎ (i ≢ k) → get (set arr i tmp) j ≤ get (set arr i tmp) k
    by_place (inl e) (inl f) = rw (sym e, sym f) (omega arith)
    by_place (inl e) (inr d) =
        rw
          (
            sym e,
            get_or-set_self arr i tmp 0 (omega (arith, h.inside, h.room)),
            get_or-set_ne arr i k tmp 0 d,
          )
          (h.above k (lt_of i k d (omega arith)) (omega arith))
    by_place (inr d) (inl f) =
        rw
          (
            sym f,
            get_or-set_self arr i tmp 0 (omega (arith, h.inside, h.room)),
            get_or-set_ne arr i j tmp 0 d,
          )
          (below j (omega arith))
    by_place (inr d) (inr d₂) =
        rw (get_or-set_ne arr i j tmp 0 d, get_or-set_ne arr i k tmp 0 d₂)
          (h.ordered j k (λ e. d (sym e)) (λ e. d₂ (sym e)) l (omega arith))

-- The element below the hole moves into it, and the hole moves down.
move :
    (i n tmp : ℕ) (arr : List ℕ)
    → Hole (suc i) n tmp arr
    → tmp < get arr i
    → Hole i n tmp (set arr (suc i) (get arr i))
move i n tmp arr h l = record {
  inside = omega (arith, h.inside);
  room = omega (arith, h.room, length-set arr (suc i) (get arr i));
  ordered = λ j k d d₂ o m. ordered j k (same_or_not (suc i) j) (same_or_not (suc i) k) d d₂ o m;
  above = λ k o m. above k (same_or_not (suc i) k) o m;
}
  where
    arr' : List ℕ
    arr' = set arr (suc i) (get arr i)

    here : get arr' (suc i) ≡ get arr i
    here = get_or-set_self arr (suc i) (get arr i) 0 (omega (arith, h.inside, h.room))

    else_where : (j : ℕ) → suc i ≢ j → get arr' j ≡ get arr j
    else_where j d = get_or-set_ne arr (suc i) j (get arr i) 0 d

    own : i ≢ suc i
    own e = not_own i (sym e)

    ordered :
        (j k : ℕ)
        → (suc i ≡ j) ⊎ (suc i ≢ j)
        → (suc i ≡ k) ⊎ (suc i ≢ k)
        → j ≢ i
        → k ≢ i
        → j ≤ k
        → k ≤ n
        → get arr' j ≤ get arr' k
    ordered j k (inl e) (inl f) d d₂ o m = rw (sym e, sym f) (omega arith)
    ordered j k (inl e) (inr f) d d₂ o m =
        rw (sym e, here, else_where k f) (h.ordered i k own (λ g. f (sym g)) (omega arith) m)
    ordered j k (inr e) (inl f) d d₂ o m =
        rw (sym f, here, else_where j e)
          (h.ordered j i (λ g. e (sym g)) own
            (omega (arith, lt_of j (suc i) (λ g. e (sym g)) (omega arith)))
            (omega (arith, h.inside)))
    ordered j k (inr e) (inr f) d d₂ o m =
        rw (else_where j e, else_where k f) (h.ordered j k (λ g. e (sym g)) (λ g. f (sym g)) o m)

    above : (k : ℕ) → (suc i ≡ k) ⊎ (suc i ≢ k) → i < k → k ≤ n → tmp ≤ get arr' k
    above k (inl e) o m = rw (sym e, here) (omega arith)
    above k (inr e) o m = rw (else_where k e) (h.above k (lt_of (suc i) k e (omega arith)) m)

sift-SortedTo : (i n tmp : ℕ) (arr : List ℕ) → Hole i n tmp arr → SortedTo (suc n) (sift i tmp arr)
unfolding sift
sift-SortedTo zero n tmp arr h = fill zero n tmp arr h (λ j l. absurd (omega arith))
sift-SortedTo (suc i) n tmp arr h = elim (Bool-cases (ltb tmp (get arr i))) [
  | inl e ↦
      rw (e, sift)
        (sift-SortedTo i n tmp (set arr (suc i) (get arr i))
          (move i n tmp arr h (ltb→lt tmp (get arr i) e)))
  | inr e ↦ rw (e, sift) (fill (suc i) n tmp arr h (λ j b. below j b (same_or_not j i) e))
]
  where
    below : (j : ℕ) → j < suc i → (j ≡ i) ⊎ (j ≢ i) → ltb tmp (get arr i) ≡ false → get arr j ≤ tmp
    below j b (inl f) e = rw f (ground arith)
    below j b (inr d) e = ground (
      arith,
      h.ordered j i (λ f. omega arith) (λ f. not_own i (sym f)) (omega arith)
          (omega (arith, h.inside)),
    )

length-sift : (i tmp : ℕ) (arr : List ℕ) → length (sift i tmp arr) ≡ length arr
unfolding sift
length-sift zero tmp arr = length-set arr zero tmp
length-sift (suc i) tmp arr = elim (Bool-cases (ltb tmp (get arr i))) [
  | inl e ↦
      rw (e, sift)
        (length-sift i tmp (set arr (suc i) (get arr i)) ∙ length-set arr (suc i) (get arr i))
  | inr e ↦ rw (e, sift) (length-set arr (suc i) tmp)
]

pub count-set :
    (x i v : ℕ) (arr : List ℕ)
    → i < length arr
    → count x (set arr i v) + bit (x == get arr i) ≡ count x arr + bit (x == v)
unfolding count bit
count-set x i v [] l = absurd (omega arith)
count-set x zero v (y ∷ arr) l = omega arith
count-set x (suc i) v (y ∷ arr) l = omega (arith, count-set x i v arr (omega arith))

count-sift :
    (x i tmp : ℕ) (arr : List ℕ)
    → i < length arr
    → count x (sift i tmp arr) + bit (x == get arr i) ≡ count x arr + bit (x == tmp)
unfolding sift
count-sift x zero tmp arr l = count-set x zero tmp arr l
count-sift x (suc i) tmp arr l =
    let arr' = set arr (suc i) (get arr i) in
    elim (Bool-cases (ltb tmp (get arr i))) [
      | inl e ↦
          rw (e, sift)
            (omega (
              arith,
              count-sift x i tmp arr' (omega (arith, length-set arr (suc i) (get arr i))),
              ap (λ v. bit (x == v)) (get_or-set_ne arr (suc i) i (get arr i) 0 (λ f. not_own i f)),
              count-set x (suc i) (get arr i) arr l,
            ))
      | inr e ↦ rw (e, sift) (count-set x (suc i) tmp arr l)
    ]

first-Hole : (i : ℕ) (arr : List ℕ) → SortedTo i arr → i < length arr → Hole i i (get arr i) arr
unfolding SortedTo
first-Hole i arr s l = record {
  inside = omega arith;
  room = l;
  ordered = λ j k d d₂ o m. s j k o (lt_of k i d₂ m);
  above = λ k o m. absurd (omega arith);
}

SortedTo-add : (a b : ℕ) (arr : List ℕ) → a ≡ b → SortedTo a arr → SortedTo b arr
SortedTo-add a b arr e s = subst (λ n. SortedTo n arr) e s

insert_loop-SortedTo :
    (n i : ℕ) (arr : List ℕ)
    → SortedTo i arr
    → i + n ≤ length arr
    → SortedTo (i + n) (insert_loop n i arr)
unfolding insert_loop
insert_loop-SortedTo zero i arr s l = SortedTo-add i (i + 0) arr (omega arith) s
insert_loop-SortedTo (suc n) i arr s l =
    let next = sift-SortedTo i i (get arr i) arr (first-Hole i arr s (omega arith)) in
    SortedTo-add (suc i + n) (i + suc n) _ (omega arith) (
      insert_loop-SortedTo n (suc i) (sift i (get arr i) arr) next
        (omega (arith, length-sift i (get arr i) arr)))

insert_loop-count :
    (x n i : ℕ) (arr : List ℕ) → i + n ≤ length arr → count x (insert_loop n i arr) ≡ count x arr
unfolding insert_loop
insert_loop-count x zero i arr l = refl
insert_loop-count x (suc n) i arr l =
    let once = count-sift x i (get arr i) arr (omega arith) in
    let rest =
      insert_loop-count x n (suc i) (sift i (get arr i) arr)
        (omega (arith, length-sift i (get arr i) arr)) in
    omega (arith, once, rest)

one_sorted : (arr : List ℕ) → SortedTo 1 arr
unfolding SortedTo
one_sorted arr j k o m = le_same (omega arith)
  where
    le_same : j ≡ k → get arr j ≤ get arr k
    le_same e = rw e (omega arith)

some_elements :
    (arr : List ℕ)
    → 1 ≤ length arr
    → SortedTo (length arr) (insert_sort arr (length arr))
      × ((x : ℕ) → count x (insert_sort arr (length arr)) ≡ count x arr)
unfolding insert_sort
some_elements arr l =
    let n = length arr - 1 in
    (
      SortedTo-add (1 + n) (length arr) _ (omega arith)
          (insert_loop-SortedTo n 1 arr (one_sorted arr) (omega arith)),
      λ x. insert_loop-count x n 1 arr (omega arith),
    )

no_elements : SortedTo 0 (insert_sort [] 0) × ((x : ℕ) → count x (insert_sort [] 0) ≡ count x [])
unfolding insert_sort insert_loop SortedTo
no_elements = ((λ j k o m. absurd (omega arith)), λ x. refl)

-- `insert_sort` of a whole array leaves it sorted, with every number as often in it as before.
pub insert_sort-sorts :
    (arr : List ℕ)
    → SortedTo (length arr) (insert_sort arr (length arr))
      × ((x : ℕ) → count x (insert_sort arr (length arr)) ≡ count x arr)
insert_sort-sorts [] = no_elements
insert_sort-sorts (y ∷ arr) = some_elements (y ∷ arr) (omega arith)
