-- ===== src/Sort/Examples.antt =====
-- 排序算法/sort.cpp: tests of the sorts, and the theorems at a concrete array.
use cpp_library.Sort.Bubble.{bubble_sort-sorts}
use cpp_library.Base.{◌≢◌, arith, ℕ, ◌≡◌, refl, List, [], ◌∷◌, length}
use cpp_library.Sort.{
  xor_swap, swap, bubble_pass, bubble_loop, bubble_sort, min_index, select_loop, select_sort, sift,
  insert_loop, insert_sort, max_heapify, build_heap, drain_heap, heap_sort, merge_loop, copy_back,
  merge, merge_sort, first_gap, gap_down, gap_pass, shell_loop, shell_sort,
}
use cpp_library.Sort.Distribution.{
  scan_down, scan_up, partition, quick_sort, power_of_ten, get_digit, maximum, minimum,
  count_digits, bucket, gather, radix_loop, radix_sort, value_bucket, sorted_buckets, bucket_sort,
  tally, running_sums, place, count_sort,
}
use cpp_library.Sort.Insertion.{SortedTo, count, insert_sort-sorts}

abbrev sample : List ℕ
sample = 5 ∷ 2 ∷ 9 ∷ 2 ∷ []

abbrev first_place : ℕ
first_place = 0

abbrev third_place : ℕ
third_place = 2

abbrev in_order : List ℕ
in_order = 2 ∷ 2 ∷ 5 ∷ 9 ∷ []

bubble_test : bubble_sort sample 4 ≡ in_order
unfolding bubble_sort bubble_loop bubble_pass xor_swap
bubble_test = refl

select_test : select_sort sample 4 ≡ in_order
unfolding select_sort select_loop min_index xor_swap
select_test = refl

insert_test : insert_sort sample 4 ≡ in_order
unfolding insert_sort insert_loop sift
insert_test = refl

heap_test : heap_sort sample 4 ≡ in_order
unfolding heap_sort build_heap drain_heap max_heapify swap
heap_test = refl

merge_test : (merge_sort 3 0 3 (sample, 0 ∷ 0 ∷ 0 ∷ 0 ∷ [])).0 ≡ in_order
unfolding merge_sort merge merge_loop copy_back
merge_test = refl

shell_test : shell_sort sample 4 ≡ in_order
unfolding shell_sort first_gap shell_loop gap_pass gap_down swap
shell_test = refl

insert_sort-sorts_example :
    SortedTo (length sample) (insert_sort sample (length sample))
    × ((x : ℕ) → count x (insert_sort sample (length sample)) ≡ count x sample)
insert_sort-sorts_example = insert_sort-sorts sample

quick_test : quick_sort 4 0 3 sample ≡ in_order
unfolding quick_sort partition scan_down scan_up
quick_test = refl

radix_test : radix_sort (170 ∷ 45 ∷ 75 ∷ 2 ∷ []) ≡ 2 ∷ 45 ∷ 75 ∷ 170 ∷ []
unfolding radix_sort maximum count_digits radix_loop gather bucket get_digit power_of_ten
radix_test = refl

bucket_test : bucket_sort sample 3 ≡ in_order
unfolding bucket_sort minimum maximum sorted_buckets value_bucket insert_sort insert_loop sift
bucket_test = refl

count_test : count_sort sample 4 ≡ in_order
unfolding count_sort minimum maximum tally running_sums place
count_test = refl

abbrev three_digits : List ℕ
three_digits = 170 ∷ 45 ∷ 75 ∷ 2 ∷ []

bubble_sort-sorts_example :
    SortedTo (length sample) (bubble_sort sample (length sample))
    × ((x : ℕ) → count x (bubble_sort sample (length sample)) ≡ count x sample)
bubble_sort-sorts_example = bubble_sort-sorts sample

first≢third : first_place ≢ third_place
first≢third e = omega arith
