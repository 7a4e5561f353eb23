-- ===== src/Json/Access.antt =====
-- MyJson/tutorial08/leptjson.cpp, `lept_free` to `lept_get_object_value`, and `lept_move` and
-- `lept_swap`: the value that the caller sees; the blocks behind it are not modelled. `none` is a
-- failed assertion.
use cpp_library.Base.{
  ℕ, zero, suc, Bool, true, false, Option, none, some, List, if◌then◌else◌, length,
}
use cpp_library.Json.Syntax.{
  Value, Items, Members, null, false_value, true_value, number, string, array, object, no_items,
  item, no_members, member, length_items, length_members,
}

module _ {N : Type 0} where
  unfoldable pub lept_free : Value N → Value N
  lept_free v = null

  unfoldable pub get_boolean : Value N → Option Bool
  get_boolean true_value = some true
  get_boolean false_value = some false
  get_boolean _ = none

  unfoldable pub set_boolean : Bool → Value N → Value N
  set_boolean b v = if b then true_value else false_value

  unfoldable pub get_number : Value N → Option N
  get_number (number n) = some n
  get_number _ = none

  unfoldable pub set_number : N → Value N → Value N
  set_number n v = number n

  unfoldable pub get_string : Value N → Option (List ℕ)
  get_string (string s) = some s
  get_string _ = none

  unfoldable pub get_string_length : Value N → Option ℕ
  get_string_length (string s) = some (length s)
  get_string_length _ = none

  unfoldable pub set_string : List ℕ → Value N → Value N
  set_string s v = string s

  unfoldable pub get_array_size : Value N → Option ℕ
  get_array_size (array _ xs) = some (length_items xs)
  get_array_size _ = none

  unfoldable pub item_at : Items N → ℕ → Option (Value N)
  item_at no_items i = none
  item_at (item v xs) zero = some v
  item_at (item v xs) (suc i) = item_at xs i

  unfoldable pub get_array_element : Value N → ℕ → Option (Value N)
  get_array_element (array _ xs) i = item_at xs i
  get_array_element _ i = none

  unfoldable pub get_object_size : Value N → Option ℕ
  get_object_size (object _ ms) = some (length_members ms)
  get_object_size _ = none

  unfoldable pub key_at : Members N → ℕ → Option (List ℕ)
  key_at no_members i = none
  key_at (member k v ms) zero = some k
  key_at (member k v ms) (suc i) = key_at ms i

  unfoldable pub value_at : Members N → ℕ → Option (Value N)
  value_at no_members i = none
  value_at (member k v ms) zero = some v
  value_at (member k v ms) (suc i) = value_at ms i

  unfoldable pub get_object_key : Value N → ℕ → Option (List ℕ)
  get_object_key (object _ ms) i = key_at ms i
  get_object_key _ i = none

  unfoldable pub get_object_value : Value N → ℕ → Option (Value N)
  get_object_value (object _ ms) i = value_at ms i
  get_object_value _ i = none

  -- The two values after the call, the destination first.
  unfoldable pub lept_move : Value N → Value N → Value N × Value N
  lept_move dst src = (src, null)

  unfoldable pub lept_swap : Value N → Value N → Value N × Value N
  lept_swap lhs rhs = (rhs, lhs)
