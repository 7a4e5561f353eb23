-- ===== src/Json/Object.antt =====
-- MyJson/tutorial08/leptjson.cpp, the functions on objects from `lept_set_object` on. `none` is a
-- failed assertion or, for a search, the result NULL or LEPT_KEY_NOT_EXIST.
pub mod Laws
use cpp_library.Base.{
  ℕ, zero, suc, ◌+◌, ◌-◌, ◌*◌, ◌/◌, Bool, Option, none, some, List, leb, ltb, if◌then◌else◌, length,
}
use cpp_library.Json.Syntax.{Value, Members, object, no_members, member, length_members}
use cpp_library.Json.Access.{value_at}
use cpp_library.Json.Equal.{same_bytes}

-- LEPT_PARSE_OBJECT_INIT_SIZE
abbrev pub object_init_size : ℕ
object_init_size = 128

-- The loop of `lept_reserve_object`; `none` is a loop that has not ended on this fuel.
unfoldable pub grow_size : ℕ → ℕ → ℕ → Option ℕ
grow_size zero capacity size = none
grow_size (suc fuel) capacity size =
    let more = grow_size fuel capacity (size + size / 2) in
    if ltb size capacity then more else some size

-- The loop of `lept_shrink_object`: `new_size * 1.5 < size` on doubles, cut off to an integer
unfoldable pub shrunk_size : ℕ → ℕ → ℕ → ℕ
shrunk_size zero size new_size = new_size
shrunk_size (suc fuel) size new_size =
    let more = shrunk_size fuel size (new_size * 3 / 2) in
    if ltb (new_size * 3) (size * 2) then more else new_size

module _ {N : Type 0} where
  unfoldable pub set_object : ℕ → Value N → Value N
  set_object capacity v = object (some capacity) no_members

  unfoldable pub get_object_capacity : Value N → Option ℕ
  get_object_capacity (object c _) = c
  get_object_capacity _ = none

  unfoldable pub take_members : ℕ → Members N → Members N
  take_members zero ms = no_members
  take_members (suc n) no_members = no_members
  take_members (suc n) (member k v ms) = member k v (take_members n ms)

  unfoldable pub shrink_object : Value N → Option (Value N)
  shrink_object (object c ms) =
      let size = length_members ms in
      if leb size object_init_size
      then some (object c ms)
      else some (object c (take_members (shrunk_size size size object_init_size) ms))
  shrink_object _ = none

  unfoldable pub clear_object : Value N → Option (Value N)
  clear_object (object c ms) = some (object c no_members)
  clear_object _ = none

  unfoldable pub find_key : List ℕ → ℕ → Members N → Option ℕ
  find_key key i no_members = none
  find_key key i (member k v ms) =
      let further = find_key key (suc i) ms in if same_bytes k key then some i else further

  unfoldable pub find_object_index : List ℕ → Value N → Option ℕ
  find_object_index key (object _ ms) = find_key key 0 ms
  find_object_index key _ = none

  unfoldable pub find_object_value : List ℕ → Value N → Option (Value N)
  find_object_value key (object c ms) = elim (find_object_index key (object c ms)) [
    | none ↦ none
    | some i ↦ value_at ms i
  ]
  find_object_value key _ = none

  -- The loop that moves the members behind `index` one place down, and `size--`
  unfoldable pub close_gap : ℕ → Members N → Members N
  close_gap i no_members = no_members
  close_gap zero (member k v ms) = ms
  close_gap (suc i) (member k v ms) = member k v (close_gap i ms)

  unfoldable pub remove_object_value : ℕ → Value N → Option (Value N)
  remove_object_value index (object c ms) =
      if ltb index (length_members ms) then some (object c (close_gap index ms)) else none
  remove_object_value index _ = none
