-- ===== src/Json/Array.antt =====
-- MyJson/tutorial08/leptjson.cpp, `lept_set_array` to `lept_erase_array_element`. `none` is a
-- failed assertion or undefined behaviour: a capacity that was never written, a slot outside the
-- block or one that no value was written to. Sizes are of allocated blocks, far below 2 ^ 64.
pub mod Laws
use cpp_library.Base.{
  ℕ, zero, suc, ◌+◌, ◌-◌, ◌*◌, Bool, true, false, Option, none, some, List, [], ◌∷◌, ◌++◌, ◌==◌,
  leb, ltb, if◌then◌else◌, length, get_elem?, set, take, replicate, ◌≡◌,
}
use cpp_library.Json.Syntax.{Value, Items, null, array, no_items, item, length_items, append_items}
use cpp_library.Json.Equal.{copy}

module _ {N : Type 0} where
  unfoldable pub set_array : ℕ → Value N → Value N
  set_array capacity v = array (some capacity) no_items

  unfoldable pub get_array_capacity : Value N → Option ℕ
  get_array_capacity (array c _) = c
  get_array_capacity _ = none

  unfoldable pub reserve_array : ℕ → Value N → Option (Value N)
  reserve_array capacity (array (some c) xs) =
      some (array (some (if ltb c capacity then capacity else c)) xs)
  reserve_array capacity _ = none

  unfoldable pub shrink_array : Value N → Option (Value N)
  shrink_array (array (some c) xs) =
      some (array (some (if ltb (length_items xs) c then length_items xs else c)) xs)
  shrink_array _ = none

  -- `lept_init(&e[len])` and `len++`, for a block of `capacity` slots
  unfoldable pub init_last : Value N → Option (Value N)
  init_last (array (some c) xs) =
      if ltb (length_items xs) c
      then some (array (some c) (append_items xs (item null no_items)))
      else none
  init_last _ = none

  -- The value returned points to the new last element.
  unfoldable pub pushback_array_element : Value N → Option (Value N)
  pushback_array_element (array (some c) xs) =
      if length_items xs == c
      then elim (reserve_array (if c == 0 then 1 else c * 2) (array (some c) xs)) [
        | none ↦ none
        | some v ↦ init_last v
      ]
      else init_last (array (some c) xs)
  pushback_array_element _ = none

  unfoldable pub but_last : Items N → Items N
  but_last no_items = no_items
  but_last (item v no_items) = no_items
  but_last (item v (item w xs)) = item v (but_last (item w xs))

  unfoldable pub popback_array_element : Value N → Option (Value N)
  popback_array_element (array c no_items) = none
  popback_array_element (array c (item v xs)) = some (array c (but_last (item v xs)))
  popback_array_element _ = none

  -- The block of an array: a slot that no value was written to is `none`.
  unfoldable pub block : Items N → List (Option (Value N))
  block no_items = []
  block (item v xs) = some v ∷ block xs

  unfoldable pub items : List (Option (Value N)) → Option (Items N)
  items [] = some no_items
  items (none ∷ b) = none
  items (some v ∷ b) = elim (items b) [ none ↦ none | some xs ↦ some (item v xs) ]

  unfoldable pub slot : List (Option (Value N)) → ℕ → Option (Value N)
  slot [] i = none
  slot (s ∷ b) zero = s
  slot (s ∷ b) (suc i) = slot b i

  -- `lept_copy(&e[to], &e[from])`: it asserts two places, frees the old value and
  -- copies. No slot is known to hold a null pointer.
  unfoldable pub copy_slot : ℕ → ℕ → List (Option (Value N)) → Option (List (Option (Value N)))
  copy_slot to from b = if to == from then none else elim (slot b to) [
    | none ↦ none
    | some old ↦ elim (slot b from) [
      | none ↦ none
      | some v ↦ elim (copy false v) [ none ↦ none | some w ↦ some (set b to (some w)) ]
    ]
  ]

  -- The loop of `lept_erase_array_element`, from `i` on, with `n` rounds left
  unfoldable pub shift_down : ℕ → ℕ → ℕ → List (Option (Value N)) → Option (List (Option (Value N)))
  shift_down i zero by b = some b
  shift_down i (suc n) by b = elim (copy_slot i (i + by) b) [
    | none ↦ none
    | some b' ↦ shift_down (suc i) n by b'
  ]

  -- The last test asks `len * 4 <= len` of `len > 0` and is never met.
  unfoldable pub erase_array_element : ℕ → ℕ → Value N → Option (Value N)
  erase_array_element index count (array c xs) =
      let len = length_items xs in
      let actual = if leb (index + count) len then count else len - index in
      if ltb index len
      then elim (shift_down index (len - actual - index) actual (block xs)) [
        | none ↦ none
        | some b ↦ elim (items (take (len - actual) b)) [
          | none ↦ none
          | some ys ↦ some (array c ys)
        ]
      ]
      else none
  erase_array_element index count _ = none

  unfoldable pub clear_array : Value N → Option (Value N)
  clear_array (array c xs) = erase_array_element 0 (length_items xs) (array c xs)
  clear_array _ = none

  -- The loop of `lept_insert_array_element`, `for (i = index + n; i > index; i--)`
  unfoldable pub shift_up : ℕ → ℕ → List (Option (Value N)) → Option (List (Option (Value N)))
  shift_up index zero b = some b
  shift_up index (suc n) b = elim (copy_slot (index + suc n) (index + n) b) [
    | none ↦ none
    | some b' ↦ shift_up index n b'
  ]

  -- The code tests `len + 1 > len`, which holds, and takes the new block's size for the length;
  -- the second component is whether a pointer is returned.
  unfoldable pub insert_array_element : ℕ → Value N → Option (Value N × Bool)
  insert_array_element index (array c xs) =
      let len = length_items xs in
      let new_size = if len == 0 then 8 else len * 2 in
      if ltb len index
      then some (array c xs, false)
      else elim (shift_up index (new_size - index) (block xs ++ replicate (new_size - len) none)) [
        | none ↦ none
        | some b ↦ elim (items (take (suc new_size) (set b index (some null)))) [
          | none ↦ none
          | some ys ↦ some (array c ys, true)
        ]
      ]
  insert_array_element index _ = none
