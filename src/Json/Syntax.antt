-- ===== src/Json/Syntax.antt =====
-- MyJson/tutorial08/leptjson.h: the result codes, the value types and the value itself.
use cpp_library.Base.{ℕ, suc, Bool, List, Option}

-- `enum lept_type`
pub data LeptType : Type 0 where
  lept_null lept_false lept_true lept_number lept_string lept_array lept_object : LeptType

-- `enum parse_result`, without LEPT_PARSE_OK, which is the constructor `ok` of a run
pub data ParseResult : Type 0 where
  expect_value invalid_value root_not_singular number_too_big miss_quotation_mark : ParseResult
  invalid_string_escape invalid_string_char invalid_unicode_hex : ParseResult
  invalid_unicode_surrogate miss_comma_or_square_bracket miss_key miss_colon : ParseResult
  miss_comma_or_curly_bracket : ParseResult

-- `struct lept_value` with its union: `N` stands for `double`. An array holds its elements, `len`
-- of them, and an object its members; `none` is a capacity field that was never written.
mutual
  pub data Value (N : Type 0) : Type 0 where
    null : Value N
    false_value : Value N
    true_value : Value N
    number : N → Value N
    string : List ℕ → Value N
    array : Option ℕ → Items N → Value N
    object : Option ℕ → Members N → Value N

  pub data Items (N : Type 0) : Type 0 where
    no_items : Items N
    item : Value N → Items N → Items N

  -- `struct lept_member`: key, its length and the value
  pub data Members (N : Type 0) : Type 0 where
    no_members : Members N
    member : List ℕ → Value N → Members N → Members N

-- What the code takes from the C library for `double`: `strtod` with its ERANGE overflow, `sprintf`
-- with "%.17g", and `==`.
pub record Double (N : Type 0) : Type 0 where
  pub strtod : List ℕ → N × Bool
  pub sprintf_17g : N → List ℕ
  pub num_eq : N → N → Bool

-- `lept_get_type`
unfoldable pub get_type : {N : Type 0} → Value N → LeptType
get_type null = lept_null
get_type false_value = lept_false
get_type true_value = lept_true
get_type (number _) = lept_number
get_type (string _) = lept_string
get_type (array _ _) = lept_array
get_type (object _ _) = lept_object

module _ {N : Type 0} where
  unfoldable pub length_items : Items N → ℕ
  length_items no_items = 0
  length_items (item _ xs) = suc (length_items xs)

  unfoldable pub append_items : Items N → Items N → Items N
  append_items no_items ys = ys
  append_items (item x xs) ys = item x (append_items xs ys)

  unfoldable pub length_members : Members N → ℕ
  length_members no_members = 0
  length_members (member _ _ ms) = suc (length_members ms)

  unfoldable pub append_members : Members N → Members N → Members N
  append_members no_members ys = ys
  append_members (member k v xs) ys = member k v (append_members xs ys)
