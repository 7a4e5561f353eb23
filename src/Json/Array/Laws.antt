-- ===== src/Json/Array/Laws.antt =====
-- MyJson/tutorial08/leptjson.cpp: what the functions on arrays do to the elements.
use cpp_library.Base.{
  ℕ, zero, suc, ◌+◌, ◌-◌, ◌*◌, ◌<◌, ◌≤◌, ◌≡◌, refl, ap, ◌∙◌, Option, none, some, List, [], ◌∷◌,
  ◌++◌, ◌==◌, ==_refl, Bool-cases, if◌then◌else◌, length, ltb, lt→ltb, arith, inl, inr, replicate,
  length-append,
}
use cpp_library.Json.Syntax.{Value, Items, null, array, no_items, item, length_items, append_items}
use cpp_library.Json.Array.{
  reserve_array, init_last, pushback_array_element, but_last, popback_array_element, block, slot,
  copy_slot, shift_up, insert_array_element,
}

-- The capacity behind an appended element
abbrev pub next_capacity : ℕ → ℕ → ℕ
next_capacity len c = if len == c then if c == 0 then 1 else c * 2 else c

module _ {N : Type 0} where
  length_items-append :
      (xs : Items N) → length_items (append_items xs (item null no_items)) ≡ suc (length_items xs)
  unfolding length_items append_items
  length_items-append no_items = refl
  length_items-append (item v xs) = ap suc (length_items-append xs)

  init_last-room :
      (c : ℕ) (xs : Items N)
      → length_items xs < c
      → init_last (array (some c) xs) ≡ some (array (some c) (append_items xs (item null no_items)))
  unfolding init_last
  init_last-room c xs h = rw (lt→ltb (length_items xs) c h)

  reserve-grows :
      (c capacity : ℕ) (xs : Items N)
      → c < capacity
      → reserve_array capacity (array (some c) xs) ≡ some (array (some capacity) xs)
  unfolding reserve_array
  reserve-grows c capacity xs h = rw (lt→ltb c capacity h)

  pushback-full :
      (c : ℕ) (xs : Items N)
      → length_items xs ≡ c
      → pushback_array_element (array (some c) xs)
        ≡ init_last (array (some (if c == 0 then 1 else c * 2)) xs)
  unfolding pushback_array_element
  pushback-full c xs h =
      rw (h, ==_refl c, reserve-grows c (if c == 0 then 1 else c * 2) xs (ground arith))

  pushback-room :
      (c : ℕ) (xs : Items N)
      → length_items xs < c
      → pushback_array_element (array (some c) xs) ≡ init_last (array (some c) xs)
  unfolding pushback_array_element
  pushback-room c xs h = ground arith

  -- `lept_pushback_array_element` on an array within its capacity is defined: it adds a null at
  -- the end and keeps the array within its capacity.
  pub pushback_array_element-appends :
      (c : ℕ) (xs : Items N)
      → length_items xs ≤ c
      → (pushback_array_element (array (some c) xs)
          ≡ some (
              array
                (some (next_capacity (length_items xs) c))
                (append_items xs (item null no_items))))
        × (length_items (append_items xs (item null no_items)) ≤ next_capacity (length_items xs) c)
  pushback_array_element-appends c xs h =
      let n = length_items xs in
      let grown = length_items-append xs in
      elim (Bool-cases (n == c)) [
        | inr e ↦ (
          rw e (pushback-room c xs (ground arith) ∙ init_last-room c xs (ground arith)),
          ground arith,
        )
        | inl e ↦
            let room : n < (if c == 0 then 1 else c * 2) = ground arith in
            (
              rw e (
                  pushback-full c xs (ground arith)
                  ∙ init_last-room (if c == 0 then 1 else c * 2) xs room),
              ground arith,
            )
      ]

  but_last-append : (xs : Items N) → but_last (append_items xs (item null no_items)) ≡ xs
  unfolding but_last append_items
  but_last-append no_items = refl
  but_last-append (item v no_items) = refl
  but_last-append (item v (item w xs)) = ap (item v) (but_last-append (item w xs))

  -- `lept_popback_array_element` takes away what `lept_pushback_array_element` added.
  pub popback_array_element-append :
      (c : Option ℕ) (xs : Items N)
      → popback_array_element (array c (append_items xs (item null no_items))) ≡ some (array c xs)
  unfolding popback_array_element append_items but_last
  popback_array_element-append c no_items = refl
  popback_array_element-append c (item v xs) =
      ap (λ ys. some (array c ys)) (but_last-append (item v xs))

  length-block : (xs : Items N) → length (block xs) ≡ length_items xs
  unfolding block length_items
  length-block no_items = refl
  length-block (item v xs) = ap suc (length-block xs)

  length-replicate : (n : ℕ) (s : Option (Value N)) → length (replicate n s) ≡ n
  length-replicate zero s = refl
  length-replicate (suc n) s = ap suc (length-replicate n s)

  slot-outside : (b : List (Option (Value N))) (i : ℕ) → length b ≤ i → slot b i ≡ none
  unfolding slot
  slot-outside [] i h = refl
  slot-outside (s ∷ b) zero h = absurd (omega arith)
  slot-outside (s ∷ b) (suc i) h = slot-outside b i (omega arith)

  copy_slot-outside :
      (to from : ℕ) (b : List (Option (Value N))) → length b ≤ to → copy_slot to from b ≡ none
  unfolding copy_slot
  copy_slot-outside to from b h = elim (Bool-cases (to == from)) [
    | inl e ↦ rw e
    | inr e ↦ rw (e, slot-outside b to h)
  ]

  shift_up-outside :
      (index n : ℕ) (b : List (Option (Value N)))
      → 0 < n
      → length b ≤ index + n
      → shift_up index n b ≡ none
  unfolding shift_up
  shift_up-outside index zero b p h = absurd (omega arith)
  shift_up-outside index (suc n) b p h =
      rw (copy_slot-outside (index + suc n) (index + n) b h, shift_up)

  new_size : Items N → ℕ
  new_size xs = if length_items xs == 0 then 8 else length_items xs * 2

  new_size-above :
      (xs : Items N) (index : ℕ)
      → index ≤ length_items xs
      → (index < new_size xs) × (length_items xs ≤ new_size xs)
  unfolding new_size
  new_size-above xs index h = (ground arith, ground arith)

  length-grown_block :
      (xs : Items N)
      → length (block xs ++ replicate (new_size xs - length_items xs) none) ≡ new_size xs
  length-grown_block xs =
      let slots = replicate (new_size xs - length_items xs) none in
      omega (
        arith,
        length-append (block xs) slots,
        length-block xs,
        length-replicate (new_size xs - length_items xs) none,
        new_size-above xs 0 (omega arith),
      )

  -- `lept_insert_array_element` has no defined result at any place that it accepts: its first
  -- copy writes one slot past the block, since it takes the new block's size for the length.
  pub insert_array_element-undefined :
      (index : ℕ) (c : Option ℕ) (xs : Items N)
      → index ≤ length_items xs
      → insert_array_element index (array c xs) ≡ none
  unfolding insert_array_element new_size
  insert_array_element-undefined index c xs h = elim (Bool-cases (ltb (length_items xs) index)) [
    | inl e ↦ absurd (ground arith)
    | inr e ↦
        let b = block xs ++ replicate (new_size xs - length_items xs) none in
        rw (
          e,
          shift_up-outside index (new_size xs - index) b (omega (arith, new_size-above xs index h))
              (omega (arith, length-grown_block xs, new_size-above xs index h)),
        )
  ]
