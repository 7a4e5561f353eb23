-- ===== src/Sort.antt =====
-- 排序算法/sort.cpp: the sorts that compare and move. An `int` x is the number x + 2 ^ 31, which
-- keeps its order; the arrays are lists, read and written in range.
pub mod Insertion
pub mod Distribution
pub mod Swaps
pub mod Bubble
mod Examples
use cpp_library.Base.{
  ℕ, zero, suc, ◌+◌, ◌-◌, ◌*◌, ◌/◌, Bool, List, [], ◌∷◌, ◌==◌, ltb, leb, bit_xor, if◌then◌else◌,
  ◌&&◌, length, get_or, set,
}

abbrev pub get : List ℕ → ℕ → ℕ
get arr i = get_or arr i 0

-- The three assignments with `^=` to the places `i` and `j`
unfoldable pub xor_swap : ℕ → ℕ → List ℕ → List ℕ
xor_swap i j arr =
    let a₁ = set arr i (bit_xor (get arr i) (get arr j)) in
    let a₂ = set a₁ j (bit_xor (get a₁ j) (get a₁ i)) in set a₂ i (bit_xor (get a₂ i) (get a₂ j))

unfoldable pub swap : ℕ → ℕ → List ℕ → List ℕ
swap i j arr = set (set arr i (get arr j)) j (get arr i)

-- `bubble_sort`: the inner loop from `j` with `n` rounds, and the outer one with `n` rounds
unfoldable pub bubble_pass : ℕ → ℕ → List ℕ → List ℕ
bubble_pass zero j arr = arr
bubble_pass (suc n) j arr =
    bubble_pass n (suc j)
      (if ltb (get arr (suc j)) (get arr j) then xor_swap j (suc j) arr else arr)

unfoldable pub bubble_loop : ℕ → ℕ → ℕ → List ℕ → List ℕ
bubble_loop zero i size arr = arr
bubble_loop (suc n) i size arr = bubble_loop n (suc i) size (bubble_pass (size - i - 1) 0 arr)

unfoldable pub bubble_sort : List ℕ → ℕ → List ℕ
bubble_sort arr size = bubble_loop size 0 size arr

-- `select_sort`
unfoldable pub min_index : ℕ → ℕ → ℕ → List ℕ → ℕ
min_index zero min_idx j arr = min_idx
min_index (suc n) min_idx j arr =
    min_index n (if ltb (get arr j) (get arr min_idx) then j else min_idx) (suc j) arr

unfoldable pub select_loop : ℕ → ℕ → ℕ → List ℕ → List ℕ
select_loop zero i size arr = arr
select_loop (suc n) i size arr =
    let m = min_index (size - suc i) i (suc i) arr in
    select_loop n (suc i) size (if m == i then arr else xor_swap i m arr)

unfoldable pub select_sort : List ℕ → ℕ → List ℕ
select_sort arr size = select_loop (size - 1) 0 size arr

-- `insert_sort`: the loop that moves the greater elements up from `index`, and the outer one
unfoldable pub sift : ℕ → ℕ → List ℕ → List ℕ
sift zero tmp arr = set arr zero tmp
sift (suc index) tmp arr =
    let moved = sift index tmp (set arr (suc index) (get arr index)) in
    if ltb tmp (get arr index) then moved else set arr (suc index) tmp

unfoldable pub insert_loop : ℕ → ℕ → List ℕ → List ℕ
insert_loop zero i arr = arr
insert_loop (suc n) i arr = insert_loop n (suc i) (sift i (get arr i) arr)

unfoldable pub insert_sort : List ℕ → ℕ → List ℕ
insert_sort arr size = insert_loop (size - 1) 1 arr

-- `max_heapify` on fuel: the node goes down its greater sons
unfoldable pub max_heapify : ℕ → ℕ → ℕ → List ℕ → List ℕ
max_heapify zero father end arr = arr
max_heapify (suc fuel) father end arr =
    let left = father * 2 + 1 in
    let son =
      if leb (left + 1) end && ltb (get arr left) (get arr (left + 1)) then left + 1 else left in
    let down = max_heapify fuel son end (swap father son arr) in
    if leb left end then if ltb (get arr son) (get arr father) then arr else down else arr

unfoldable pub build_heap : ℕ → ℕ → List ℕ → List ℕ
build_heap zero size arr = arr
build_heap (suc i) size arr = build_heap i size (max_heapify size i (size - 1) arr)

unfoldable pub drain_heap : ℕ → List ℕ → List ℕ
drain_heap zero arr = arr
drain_heap (suc i) arr = drain_heap i (max_heapify (suc i) 0 i (swap 0 (suc i) arr))

unfoldable pub heap_sort : List ℕ → ℕ → List ℕ
heap_sort arr size = drain_heap (size - 1) (build_heap (size / 2) size arr)

-- `merge`: the two halves into the auxiliary array from `idx` on, with `n` elements to go
unfoldable pub merge_loop : ℕ → ℕ → ℕ → ℕ → ℕ → ℕ → List ℕ → List ℕ → List ℕ
merge_loop zero idx_l mid idx_r right idx arr aux = aux
merge_loop (suc n) idx_l mid idx_r right idx arr aux =
    let from_l =
      merge_loop n (suc idx_l) mid idx_r right (suc idx) arr (set aux idx (get arr idx_l)) in
    let from_r =
      merge_loop n idx_l mid (suc idx_r) right (suc idx) arr (set aux idx (get arr idx_r)) in
    if leb idx_l mid && leb idx_r right
    then if ltb (get arr idx_l) (get arr idx_r) then from_l else from_r
    else if leb idx_l mid
    then from_l
    else if leb idx_r right
    then from_r
    else aux

unfoldable pub copy_back : ℕ → ℕ → List ℕ → List ℕ → List ℕ
copy_back zero left aux arr = arr
copy_back (suc n) left aux arr = copy_back n (suc left) aux (set arr left (get aux left))

-- The array and the auxiliary array after the call
unfoldable pub merge : ℕ → ℕ → ℕ → List ℕ × List ℕ → List ℕ × List ℕ
merge left mid right (arr, aux) =
    let n = suc right - left in
    let aux' = merge_loop n left mid (mid + 1) right left arr aux in
    (copy_back n left aux' arr, aux')

unfoldable pub merge_sort : ℕ → ℕ → ℕ → List ℕ × List ℕ → List ℕ × List ℕ
merge_sort zero left right arrays = arrays
merge_sort (suc fuel) left right arrays =
    let mid = left + (right - left) / 2 in
    let sorted =
      merge left mid right (merge_sort fuel (mid + 1) right (merge_sort fuel left mid arrays)) in
    if ltb left right then sorted else arrays

-- `shell_sort`: the gap, the swaps of one element down by `h`, the elements, and the gaps
unfoldable pub first_gap : ℕ → ℕ → ℕ → ℕ
first_gap zero size h = h
first_gap (suc fuel) size h =
    let more = first_gap fuel size (h * 3 + 1) in if ltb h (size / 3) then more else h

unfoldable pub gap_down : ℕ → ℕ → ℕ → List ℕ → List ℕ
gap_down zero h j arr = arr
gap_down (suc fuel) h j arr =
    let down = gap_down fuel h (j - h) (swap j (j - h) arr) in
    if leb h j && ltb (get arr j) (get arr (j - h)) then down else arr

unfoldable pub gap_pass : ℕ → ℕ → ℕ → List ℕ → List ℕ
gap_pass zero h i arr = arr
gap_pass (suc n) h i arr = gap_pass n h (suc i) (gap_down (suc i) h i arr)

unfoldable pub shell_loop : ℕ → ℕ → ℕ → List ℕ → List ℕ
shell_loop zero size h arr = arr
shell_loop (suc fuel) size h arr =
    let more = shell_loop fuel size (h / 3) (gap_pass (size - h) h h arr) in
    if leb 1 h then more else arr

unfoldable pub shell_sort : List ℕ → ℕ → List ℕ
shell_sort arr size = let h = first_gap size size 1 in shell_loop (suc h) size h arr
