-- ===== src/Json/Equal.antt =====
-- MyJson/tutorial08/leptjson.cpp, `lept_is_equal` and `lept_copy`.
pub mod Bytes
pub mod Laws
use cpp_library.Base.{
  ℕ, Bool, true, false, Option, none, some, List, [], ◌∷◌, ◌==◌, if◌then◌else◌, length, ◌&&◌,
}
use cpp_library.Json.Syntax.{
  Value, Items, Members, null, false_value, true_value, number, string, array, object, no_items,
  item, no_members, member, Double, length_items, length_members,
}

-- `memcmp(a, b, len) == 0` for `len` bytes of each
unfoldable pub memcmp_zero : List ℕ → List ℕ → Bool
memcmp_zero (a ∷ s) (b ∷ t) = if a == b then memcmp_zero s t else false
memcmp_zero _ _ = true

unfoldable pub same_bytes : List ℕ → List ℕ → Bool
same_bytes s t = length s == length t && memcmp_zero s t

module _ {N : Type 0} (d : Double N) where
  -- The loops of the last two cases run when the lengths agree.
  unfoldable mutual
    pub is_equal : Value N → Value N → Bool
    is_equal null null = true
    is_equal false_value false_value = true
    is_equal true_value true_value = true
    is_equal (number m) (number n) = d.num_eq m n
    is_equal (string s) (string t) = same_bytes s t
    is_equal (array _ xs) (array _ ys) = length_items xs == length_items ys && equal_items xs ys
    is_equal (object _ ms) (object _ ns) =
        length_members ms == length_members ns && equal_members ms ns
    is_equal _ _ = false

    pub equal_items : Items N → Items N → Bool
    equal_items (item v xs) (item w ys) = is_equal v w && equal_items xs ys
    equal_items _ _ = true

    pub equal_members : Members N → Members N → Bool
    equal_members (member k v ms) (member j w ns) =
        same_bytes k j && (is_equal v w && equal_members ms ns)
    equal_members _ _ = true

module _ {N : Type 0} where
  -- `zeroed` tells whether the union of `dst` holds a null pointer. `none` where the result hangs on
  -- memory that was not written: `lept_set_string` frees the pointer that the union of `dst` holds,
  -- since the type is set before, `lept_init` leaves the unions of the copied elements unwritten,
  -- and the key length of a member is never written. The capacity is not written either.
  unfoldable mutual
    pub copy : Bool → Value N → Option (Value N)
    copy zeroed null = some null
    copy zeroed false_value = some false_value
    copy zeroed true_value = some true_value
    copy zeroed (number n) = some (number n)
    copy zeroed (string s) = if zeroed then some (string s) else none
    copy zeroed (array _ xs) = elim (copy_items xs) [ none ↦ none | some ys ↦ some (array none ys) ]
    copy zeroed (object _ no_members) = some (object none no_members)
    copy zeroed (object _ (member _ _ _)) = none

    pub copy_items : Items N → Option (Items N)
    copy_items no_items = some no_items
    copy_items (item v xs) = elim (copy false v) [
      | none ↦ none
      | some w ↦ elim (copy_items xs) [ none ↦ none | some ys ↦ some (item w ys) ]
    ]
