-- ===== src/Json/Scan.antt =====
-- MyJson/tutorial08/leptjson.cpp: reading a C string through a pointer, whitespace, and the
-- extent of a number. A pointer is the list of the bytes from it on; the end of the list, like a
-- byte 0 in it, is the terminator.
pub mod Number
pub mod Sound
use cpp_library.Base.{
  ℕ, ◌+◌, ◌-◌, Bool, true, false, ◌&&◌, ◌||◌, Option, none, some, List, [], ◌∷◌, leb, ◌==◌,
  if◌then◌else◌,
}

-- `*p`
abbrev pub peek : List ℕ → ℕ
peek [] = 0
peek (x ∷ xs) = x

-- `p++`
abbrev pub advance : List ℕ → List ℕ
advance [] = []
advance (x ∷ xs) = xs

-- The test of the loop in `lept_parse_whitespace`: space, tab, newline, carriage return.
abbrev pub is_whitespace : ℕ → Bool
is_whitespace c = c == b' ' || (c == 9 || (c == 10 || c == 13))

-- ISDIGIT and ISDIGIT1TO9
abbrev pub is_digit : ℕ → Bool
is_digit c = leb b'0' c && leb c b'9'

abbrev pub is_digit1to9 : ℕ → Bool
is_digit1to9 c = leb b'1' c && leb c b'9'

-- `lept_parse_whitespace`
unfoldable pub skip_whitespace : List ℕ → List ℕ
skip_whitespace [] = []
skip_whitespace (x ∷ xs) = if is_whitespace x then skip_whitespace xs else x ∷ xs

-- The comparison of `lept_parse_literal` behind the first byte: the text after the literal.
unfoldable pub match_literal : List ℕ → List ℕ → Option (List ℕ)
match_literal [] p = some p
match_literal (l ∷ ls) p = if peek p == l then match_literal ls (advance p) else none

-- `for (; ISDIGIT(*p); p++);`
unfoldable pub scan_digits : List ℕ → List ℕ
scan_digits [] = []
scan_digits (x ∷ xs) = if is_digit x then scan_digits xs else x ∷ xs

-- The four parts of the scan in `lept_parse_number`; `none` is LEPT_PARSE_INVALID_VALUE.
unfoldable pub scan_sign : List ℕ → List ℕ
scan_sign p = if peek p == b'-' then advance p else p

unfoldable pub scan_whole : List ℕ → Option (List ℕ)
unfolding scan_digits
scan_whole p =
    if peek p == b'0'
    then some (advance p)
    else if is_digit1to9 (peek p)
    then some (scan_digits (advance p))
    else none

-- The digits behind a point or an exponent mark: at least one.
unfoldable pub scan_some_digits : List ℕ → Option (List ℕ)
unfolding scan_digits
scan_some_digits p = if is_digit (peek p) then some (scan_digits (advance p)) else none

unfoldable pub scan_fraction : List ℕ → Option (List ℕ)
unfolding scan_some_digits
scan_fraction p = if peek p == b'.' then scan_some_digits (advance p) else some p

unfoldable pub scan_exponent_sign : List ℕ → List ℕ
scan_exponent_sign p = if peek p == b'+' || peek p == b'-' then advance p else p

unfoldable pub scan_exponent : List ℕ → Option (List ℕ)
unfolding scan_some_digits scan_exponent_sign
scan_exponent p =
    if peek p == b'e' || peek p == b'E'
    then scan_some_digits (scan_exponent_sign (advance p))
    else some p

unfoldable pub scan_number : List ℕ → Option (List ℕ)
unfolding scan_sign scan_whole scan_fraction scan_exponent
scan_number p = elim (scan_whole (scan_sign p)) [
  | none ↦ none
  | some q ↦ elim (scan_fraction q) [ none ↦ none | some r ↦ scan_exponent r ]
]
