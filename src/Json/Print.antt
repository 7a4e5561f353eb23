-- ===== src/Json/Print.antt =====
-- MyJson/tutorial08/leptjson.cpp, `lept_stringify_value` and `lept_stringify`: the bytes that a
-- call pushes, in order.
pub mod Starts
pub mod Reads
pub mod Arrays
pub mod Objects
pub mod RoundTrip
use cpp_library.Base.{ℕ, Bool, true, false, List, [], ◌∷◌, ◌++◌, if◌then◌else◌}
use cpp_library.Json.Syntax.{
  Value, Items, Members, null, false_value, true_value, number, string, array, object, no_items,
  item, no_members, member, Double,
}
use cpp_library.Json.Text.{stringify_string}

-- `if (i > 0) PUTC(c, ',')`
abbrev pub separator : Bool → List ℕ
separator first = if first then [] else b',' ∷ []

module _ {N : Type 0} (d : Double N) where
  unfoldable mutual
    pub stringify_value : Value N → List ℕ
    stringify_value null = b'n' ∷ b'u' ∷ b'l' ∷ b'l' ∷ []
    stringify_value false_value = b'f' ∷ b'a' ∷ b'l' ∷ b's' ∷ b'e' ∷ []
    stringify_value true_value = b't' ∷ b'r' ∷ b'u' ∷ b'e' ∷ []
    stringify_value (number n) = d.sprintf_17g n
    stringify_value (string s) = stringify_string s
    stringify_value (array _ xs) = b'[' ∷ (stringify_items true xs ++ b']' ∷ [])
    stringify_value (object _ ms) = b'{' ∷ (stringify_members true ms ++ b'}' ∷ [])

    pub stringify_items : Bool → Items N → List ℕ
    stringify_items first no_items = []
    stringify_items first (item v xs) =
        separator first ++ (stringify_value v ++ stringify_items false xs)

    pub stringify_members : Bool → Members N → List ℕ
    stringify_members first no_members = []
    stringify_members first (member k v ms) =
        separator first
        ++ (stringify_string k ++ b':' ∷ (stringify_value v ++ stringify_members false ms))

  -- `lept_stringify` without the terminator that it adds; `*length` is the length of this text
  unfoldable pub lept_stringify : Value N → List ℕ
  lept_stringify v = stringify_value v
