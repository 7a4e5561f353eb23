-- ===== src/Json/Object/Laws.antt =====
-- MyJson/tutorial08/leptjson.cpp: searching, removing and resizing the members of an object.
use mathlib.Core.Path.{subst}
use cpp_library.Base.{
  le→leb, ℕ, zero, suc, ◌+◌, ◌*◌, ◌/◌, ◌<◌, ◌≤◌, ◌≡◌, ◌≢◌, refl, sym, ap, ◌∙◌, true, false, Option,
  none, some, List, Bool-cases, if◌then◌else◌, leb, ltb, lt→ltb, arith, inl, inr,
}
use cpp_library.Json.Syntax.{Value, Members, object, no_members, member, length_members}
use cpp_library.Json.Access.{key_at, value_at}
use cpp_library.Json.Equal.{same_bytes}
use cpp_library.Json.Equal.Bytes.{same_bytes_refl, same_bytes_sound}
use cpp_library.Json.Object.{
  grow_size, shrunk_size, take_members, shrink_object, find_key, find_object_index, close_gap,
}

none≢some {ℓ} : {A : Type ℓ} {a : A} → none ≢ some a
none≢some e = absurd cc

some-injective {ℓ} : {A : Type ℓ} {a b : A} → some a ≡ some b → a ≡ b
some-injective e = cc

ltb-false : (a b : ℕ) → b ≤ a → ltb a b ≡ false
ltb-false a b h = ground arith

ltb_zero : (a : ℕ) → ltb a 0 ≡ false
ltb_zero a = ground arith

not_leb : (a b : ℕ) → b < a → leb a b ≡ false
not_leb a b h = ground arith

pub same_bytes-differ : (k key : List ℕ) → k ≡ key → same_bytes k key ≢ false
same_bytes-differ k key f e = (let self = same_bytes_refl key in absurd cc)

grow_size-stop :
    (f capacity size : ℕ) → capacity ≤ size → grow_size (suc f) capacity size ≡ some size
unfolding grow_size
grow_size-stop f capacity size h = ground arith

grow_size-step :
    (f capacity size : ℕ)
    → ltb size capacity ≡ true
    → grow_size (suc f) capacity size ≡ grow_size f capacity (size + size / 2)
unfolding grow_size
grow_size-step f capacity size h = rw h

-- The loop of `lept_reserve_object` reaches the capacity from every size of two or more.
pub grow_size-reaches :
    (f capacity size : ℕ)
    → 2 ≤ size
    → capacity ≤ size + f
    → (r : ℕ) × (grow_size (suc f) capacity size ≡ some r) × (capacity ≤ r)
grow_size-reaches zero capacity size h e =
    (size, grow_size-stop 0 capacity size (omega arith), omega arith)
grow_size-reaches (suc f) capacity size h e = elim (Bool-cases (ltb size capacity)) [
  | inl l ↦
      let (r, found, enough) =
        grow_size-reaches f capacity (size + size / 2) (omega arith) (omega arith) in
      (r, grow_size-step (suc f) capacity size l ∙ found, enough)
  | inr l ↦ (size, grow_size-stop (suc f) capacity size (ground arith), ground arith)
]

-- From the size one, half of which is nothing, the loop of `lept_reserve_object` never ends.
pub grow_size-stuck : (f capacity : ℕ) → 2 ≤ capacity → grow_size f capacity 1 ≡ none
unfolding grow_size
grow_size-stuck zero capacity h = refl
grow_size-stuck (suc f) capacity h = rw (lt→ltb 1 capacity h) (grow_size-stuck f capacity h)

shrunk_size-below : (f size n : ℕ) → n < size → shrunk_size f size n < size
unfolding shrunk_size
shrunk_size-below zero size n h = h
shrunk_size-below (suc f) size n h = elim (Bool-cases (ltb (n * 3) (size * 2))) [
  | inl e ↦ rw e (shrunk_size-below f size (n * 3 / 2) (ground arith))
  | inr e ↦ rw e h
]

module _ {N : Type 0} where
  length-take_members :
      (n : ℕ) (ms : Members N) → n < length_members ms → length_members (take_members n ms) ≡ n
  unfolding length_members take_members
  length-take_members zero ms h = refl
  length-take_members (suc n) no_members h = absurd (omega arith)
  length-take_members (suc n) (member k v ms) h = ap suc (length-take_members n ms (omega arith))

  -- `lept_shrink_object` keeps an object of at most 128 members as it is; from a larger one it
  -- loses members.
  pub shrink_object-loses :
      (c : Option ℕ) (ms : Members N)
      → (length_members ms ≤ 128 → shrink_object (object c ms) ≡ some (object c ms))
        × (128 < length_members ms
            → (ns : Members N) × (shrink_object (object c ms) ≡ some (object c ns))
              × (length_members ns < length_members ms))
  unfolding shrink_object
  shrink_object-loses c ms = (
    (λ h. rw (le→leb (length_members ms) 128 h)),
    λ h.
        let size = length_members ms in
        let n = shrunk_size size size 128 in
        let below = shrunk_size-below size size 128 h in
        (
          take_members n ms,
          rw (not_leb size 128 h) refl,
          omega (arith, length-take_members n ms below, below),
        ),
  )

  FirstAt : List ℕ → Members N → ℕ → Type 0
  FirstAt key ms j = (key_at ms j ≡ some key) × ((l : ℕ) → l < j → key_at ms l ≢ some key)

  FirstAt-suc :
      (key k : List ℕ) (v : Value N) (ms : Members N) (j : ℕ)
      → k ≢ key
      → FirstAt key ms j
      → FirstAt key (member k v ms) (suc j)
  unfolding FirstAt key_at
  FirstAt-suc key k v ms j d h = (h.0, before)
    where
      before : (l : ℕ) → l < suc j → key_at (member k v ms) l ≢ some key
      before zero b e = d cc
      before (suc l) b e = h.1 l (omega arith) e

  find_key-first :
      (key : List ℕ) (i n : ℕ) (ms : Members N)
      → find_key key i ms ≡ some n
      → (j : ℕ) × (n ≡ i + j) × FirstAt key ms j
  unfolding find_key FirstAt key_at
  find_key-first key i n no_members h = absurd cc
  find_key-first key i n (member k v ms) h = elim (Bool-cases (same_bytes k key)) [
    | inl e ↦ (
      0,
      (let e' : n ≡ i = cc in omega arith),
      (ap some (same_bytes_sound k key e), λ l b. absurd (omega arith)),
    )
    | inr e ↦
        let (j, place, first) = find_key-first key (suc i) n ms (rw e at h) in
        (suc j, omega arith, FirstAt-suc key k v ms j (λ f. same_bytes-differ k key f e) first)
  ]

  find_key-none :
      (key : List ℕ) (i : ℕ) (ms : Members N)
      → find_key key i ms ≡ none
      → (j : ℕ) → key_at ms j ≢ some key
  unfolding find_key key_at
  find_key-none key i no_members h j e = absurd cc
  find_key-none key i (member k v ms) h zero e = elim (Bool-cases (same_bytes k key)) [
    | inl f ↦ absurd (none≢some (sym (rw f at h)))
    | inr f ↦ same_bytes-differ k key (some-injective e) f
  ]
  find_key-none key i (member k v ms) h (suc j) e = elim (Bool-cases (same_bytes k key)) [
    | inl f ↦ absurd (none≢some (sym (rw f at h)))
    | inr f ↦ find_key-none key (suc i) ms (rw f at h) j e
  ]

  -- The place that `lept_find_object_index` returns is the first one with the key.
  pub find_object_index-first :
      (key : List ℕ) (c : Option ℕ) (ms : Members N) (n : ℕ)
      → find_object_index key (object c ms) ≡ some n
      → (key_at ms n ≡ some key) × ((l : ℕ) → l < n → key_at ms l ≢ some key)
  unfolding find_object_index FirstAt
  find_object_index-first key c ms n h =
      let (j, place, first) = find_key-first key 0 n ms h in
      subst (λ x. FirstAt key ms x) (sym (omega (arith, place))) first

  -- The members before the place that `lept_remove_object_value` is given stay, and those behind
  -- it move one place down.
  pub value_at-close_gap :
      (i j : ℕ) (ms : Members N)
      → value_at (close_gap i ms) j ≡ value_at ms (if ltb j i then j else suc j)
  unfolding value_at close_gap
  value_at-close_gap i j no_members = refl
  value_at-close_gap zero j (member k v ms) = rw (ltb_zero j) refl
  value_at-close_gap (suc i) zero (member k v ms) = rw (lt→ltb 0 (suc i) (omega arith)) refl
  value_at-close_gap (suc i) (suc j) (member k v ms) =
      value_at-close_gap i j ms ∙ elim (Bool-cases (ltb j i)) [
        | inl e ↦ rw (e, lt→ltb (suc j) (suc i) (ground arith)) refl
        | inr e ↦ rw (e, ltb-false (suc j) (suc i) (ground arith)) refl
      ]
