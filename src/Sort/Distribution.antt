-- ===== src/Sort/Distribution.antt =====
-- 排序算法/sort.cpp: quick sort, and the sorts that distribute the elements by their digits, into
-- buckets or by counting. No element is negative here.
pub mod Radix
use cpp_library.Base.{
  ℕ, zero, suc, ◌+◌, ◌-◌, ◌*◌, ◌/◌, ◌%◌, Bool, List, [], ◌∷◌, ◌++◌, ◌==◌, ltb, leb, if◌then◌else◌,
  ◌&&◌, length, set, replicate,
}
use cpp_library.Sort.{get, insert_sort}

-- The two inner loops of `quick_sort`: `high` goes down, `low` goes up.
unfoldable pub scan_down : ℕ → ℕ → ℕ → List ℕ → ℕ
scan_down zero low value arr = zero
scan_down (suc high) low value arr =
    let lower = scan_down high low value arr in
    if ltb low (suc high) && ltb value (get arr (suc high)) then lower else suc high

unfoldable pub scan_up : ℕ → ℕ → ℕ → ℕ → List ℕ → ℕ
scan_up zero low high value arr = low
scan_up (suc fuel) low high value arr =
    let higher = scan_up fuel (suc low) high value arr in
    if ltb low high && ltb (get arr low) value then higher else low

-- The outer loop and the assignment behind it: the array, `low` and `high`
unfoldable pub partition : ℕ → ℕ → ℕ → ℕ → List ℕ → List ℕ × ℕ × ℕ
partition zero low high value arr = (set arr low value, low, high)
partition (suc fuel) low high value arr =
    let high₁ = scan_down high low value arr in
    let arr₁ = if ltb low high₁ then set arr low (get arr high₁) else arr in
    let low₁ = if ltb low high₁ then suc low else low in
    let low₂ = scan_up high₁ low₁ high₁ value arr₁ in
    let arr₂ = if ltb low₂ high₁ then set arr₁ high₁ (get arr₁ low₂) else arr₁ in
    let high₂ = if ltb low₂ high₁ then high₁ - 1 else high₁ in
    let rest = partition fuel low₂ high₂ value arr₂ in
    if ltb low high then rest else (set arr low value, low, high)

unfoldable pub quick_sort : ℕ → ℕ → ℕ → List ℕ → List ℕ
quick_sort zero left right arr = arr
quick_sort (suc fuel) left right arr =
    let (parted, low, high) = partition (suc right) left right (get arr left) arr in
    let sorted = quick_sort fuel (suc high) right (quick_sort fuel left (low - 1) parted) in
    if leb right left then arr else sorted

-- `get_digit`
unfoldable pub power_of_ten : ℕ → ℕ → ℕ
power_of_ten zero divisor = divisor
power_of_ten (suc digit) divisor = power_of_ten digit (divisor * 10)

unfoldable pub get_digit : ℕ → ℕ → ℕ
get_digit num digit = num / power_of_ten digit 1 % 10

unfoldable pub maximum : ℕ → List ℕ → ℕ
maximum max [] = max
maximum max (t ∷ arr) = maximum (if ltb max t then t else max) arr

unfoldable pub minimum : ℕ → List ℕ → ℕ
minimum min [] = min
minimum min (t ∷ arr) = minimum (if ltb t min then t else min) arr

unfoldable pub count_digits : ℕ → ℕ → ℕ
count_digits zero max = 0
count_digits (suc fuel) max =
    let more = suc (count_digits fuel (max / 10)) in if ltb 0 max then more else 0

-- `radix_sort`: the bucket of one digit, the buckets put together, and the digits from the last on
unfoldable pub bucket : ℕ → ℕ → List ℕ → List ℕ
bucket digit index [] = []
bucket digit index (num ∷ arr) =
    let rest = bucket digit index arr in if get_digit num digit == index then num ∷ rest else rest

unfoldable pub gather : ℕ → ℕ → ℕ → List ℕ → List ℕ
gather zero index digit arr = []
gather (suc n) index digit arr = bucket digit index arr ++ gather n (suc index) digit arr

unfoldable pub radix_loop : ℕ → ℕ → List ℕ → List ℕ
radix_loop zero digit arr = arr
radix_loop (suc n) digit arr = radix_loop n (suc digit) (gather 10 0 digit arr)

unfoldable pub radix_sort : List ℕ → List ℕ
radix_sort arr = let max = maximum (get arr 0) arr in radix_loop (count_digits (suc max) max) 0 arr

-- `bucket_sort`
unfoldable pub value_bucket : ℕ → ℕ → ℕ → List ℕ → List ℕ
value_bucket min bucket_size index [] = []
value_bucket min bucket_size index (t ∷ arr) =
    let rest = value_bucket min bucket_size index arr in
    if (t - min) / bucket_size == index then t ∷ rest else rest

unfoldable pub sorted_buckets : ℕ → ℕ → ℕ → ℕ → List ℕ → List ℕ
sorted_buckets zero index min bucket_size arr = []
sorted_buckets (suc n) index min bucket_size arr =
    let b = value_bucket min bucket_size index arr in
    insert_sort b (length b) ++ sorted_buckets n (suc index) min bucket_size arr

unfoldable pub bucket_sort : List ℕ → ℕ → List ℕ
bucket_sort [] bucket_size = []
bucket_sort (x ∷ arr) bucket_size =
    let min = minimum x arr in
    let max = maximum x arr in
    let size = if bucket_size == 0 then 5 else bucket_size in
    sorted_buckets ((max - min) / size + 1) 0 min size (x ∷ arr)

-- `count_sort`: how many of each number, how many up to each, and the places from the last on
unfoldable pub tally : ℕ → List ℕ → List ℕ → List ℕ
tally min [] tmp = tmp
tally min (t ∷ arr) tmp = tally min arr (set tmp (t - min) (get tmp (t - min) + 1))

unfoldable pub running_sums : ℕ → ℕ → List ℕ → List ℕ
running_sums zero i tmp = tmp
running_sums (suc n) i tmp = running_sums n (suc i) (set tmp i (get tmp i + get tmp (i - 1)))

unfoldable pub place : ℕ → ℕ → List ℕ → List ℕ → List ℕ → List ℕ
place zero min arr tmp obj_arr = obj_arr
place (suc i) min arr tmp obj_arr =
    let at = get arr i - min in
    let tmp' = set tmp at (get tmp at - 1) in
    place i min arr tmp' (set obj_arr (get tmp' at) (get arr i))

unfoldable pub count_sort : List ℕ → ℕ → List ℕ
count_sort arr size =
    let min = minimum (get arr 0) arr in
    let max = maximum (get arr 0) arr in
    let tmp = tally min arr (replicate (max - min + 1) 0) in
    place size min arr (running_sums (max - min) 1 tmp) (replicate size 0)
