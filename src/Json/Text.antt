-- ===== src/Json/Text.antt =====
-- MyJson/tutorial08/leptjson.cpp, `lept_parse_hex4`, `lept_encode_utf8`, `lept_parse_string_raw`
-- and `lept_stringify_string`.
pub mod Hex
pub mod Utf8
pub mod Total
pub mod RoundTrip
use cpp_library.Base.{
  ℕ, zero, suc, ◌+◌, ◌-◌, ◌*◌, ◌/◌, ◌%◌, ◌^◌, bit_and, bit_or, Bool, true, false, ◌&&◌, ◌||◌,
  Option, none, some, List, [], ◌∷◌, ◌++◌, leb, ltb, ◌==◌, if◌then◌else◌, length,
}
use cpp_library.Json.Syntax.{
  ParseResult, miss_quotation_mark, invalid_string_escape, invalid_string_char, invalid_unicode_hex,
  invalid_unicode_surrogate,
}
use cpp_library.Json.Scan.{peek, advance}
use cpp_library.Json.Run.{Context, Run, ok, err, fault, out_of_fuel, expect, pop}

-- The value of a hexadecimal digit; the source's `ch - ('A' - 10)` and `ch - ('a' - 10)`.
unfoldable pub hex_value : ℕ → Option ℕ
hex_value ch =
    if leb b'0' ch && leb ch b'9'
    then some (ch - b'0')
    else if leb b'A' ch && leb ch b'F'
    then some (ch - (b'A' - 10))
    else if leb b'a' ch && leb ch b'f'
    then some (ch - (b'a' - 10))
    else none

-- The `for` of `lept_parse_hex4`, with the rounds left; `none` is the null pointer.
unfoldable pub hex_loop : ℕ → ℕ → List ℕ → Option (ℕ × List ℕ)
hex_loop zero u p = some (u, p)
hex_loop (suc n) u p = elim (hex_value (peek p)) [
  | none ↦ none
  | some d ↦ hex_loop n (bit_or (u * 2 ^ 4 % 2 ^ 32) d) (advance p)
]

unfoldable pub parse_hex4 : List ℕ → Option (ℕ × List ℕ)
unfolding hex_loop hex_value
parse_hex4 p = hex_loop 4 0 p

-- The bytes that `lept_encode_utf8` pushes; `none` where its assertion fails.
unfoldable pub encode_utf8 : ℕ → Option (List ℕ)
encode_utf8 u =
    if leb u 0x7F
    then some (bit_and u 0xFF ∷ [])
    else if leb u 0x7FF
    then some (bit_or 0xC0 (bit_and (u / 2 ^ 6) 0xFF) ∷ bit_or 0x80 (bit_and u 0x3F) ∷ [])
    else if leb u 0xFFFF
    then some (
        bit_or 0xE0 (bit_and (u / 2 ^ 12) 0xFF)
        ∷ bit_or 0x80 (bit_and (u / 2 ^ 6) 0x3F)
        ∷ bit_or 0x80 (bit_and u 0x3F)
        ∷ [])
    else if leb u 0x10FFFF
    then some (
        bit_or 0xF0 (bit_and (u / 2 ^ 18) 0xFF)
        ∷ bit_or 0x80 (bit_and (u / 2 ^ 12) 0x3F)
        ∷ bit_or 0x80 (bit_and (u / 2 ^ 6) 0x3F)
        ∷ bit_or 0x80 (bit_and u 0x3F)
        ∷ [])
    else none

-- `case 'u'`: the code point and the text behind it, or the error.
pub data Unicode : Type 0 where
  point : ℕ → List ℕ → Unicode
  bad : ParseResult → Unicode

-- The second half of a surrogate pair, behind the first half `u`.
unfoldable pub low_surrogate : ℕ → List ℕ → Unicode
low_surrogate u p =
    if peek p == b'\\'
    then if peek (advance p) == b'u'
      then elim (parse_hex4 (advance (advance p))) [
        | none ↦ bad invalid_unicode_hex
        | some (u2, q) ↦
            if ltb u2 0xDC00 || ltb 0xDFFF u2
            then bad invalid_unicode_surrogate
            else point (bit_or ((u - 0xD800) * 2 ^ 10 % 2 ^ 32) (u2 - 0xDC00) + 0x10000) q
      ]
      else bad invalid_unicode_surrogate
    else bad invalid_unicode_surrogate

unfoldable pub parse_unicode : List ℕ → Unicode
parse_unicode p = elim (parse_hex4 p) [
  | none ↦ bad invalid_unicode_hex
  | some (u, q) ↦ if leb 0xD800 u && leb u 0xDBFF then low_surrogate u q else point u q
]

-- The one-letter escapes of `switch (*p++)`.
unfoldable pub unescape : ℕ → Option ℕ
unescape ch =
    if ch == b'"'
    then some b'"'
    else if ch == b'\\'
    then some b'\\'
    else if ch == b'/'
    then some b'/'
    else if ch == b'b'
    then some 8
    else if ch == b'f'
    then some 12
    else if ch == b'n'
    then some 10
    else if ch == b'r'
    then some 13
    else if ch == b't'
    then some 9
    else none

-- One round of the `for (;;)` on the text from `ch = *p` on: end of the string, bytes pushed by
-- PUTC with the text behind, an error, or the assertion of `lept_encode_utf8`.
pub data Round : Type 0 where
  close : List ℕ → Round
  put : List ℕ → List ℕ → Round
  stop : ParseResult → Round
  broken : Round

unfoldable pub put_unicode : Unicode → Round
put_unicode (bad r) = stop r
put_unicode (point u q) = elim (encode_utf8 u) [ none ↦ broken | some bs ↦ put bs q ]

unfoldable pub string_round : List ℕ → Round
string_round p =
    let ch = peek p in
    let q = advance p in
    if ch == b'"'
    then close q
    else if ch == b'\\'
    then elim (unescape (peek q)) [
      | some b ↦ put (b ∷ []) (advance q)
      | none ↦
          if peek q == b'u'
          then put_unicode (parse_unicode (advance q))
          else stop invalid_string_escape
    ]
    else if ch == 0
    then stop miss_quotation_mark
    else if ltb ch 0x20
    then stop invalid_string_char
    else put (ch ∷ []) q

-- The loop: `head` is `c->top` at entry, `start` is `c->json` while it runs, `top` the current
-- `c->top` and `str` what lies above `head`. STRING_ERROR resets `c->top` to `head`.
unfoldable pub string_loop : ℕ → ℕ → List ℕ → List ℕ → ℕ → List ℕ → Run (List ℕ)
string_loop zero head start p top str = out_of_fuel
string_loop (suc f) head start p top str = elim (string_round p) [
  | close q ↦ pop (top - head) (record { json = q; top = top }) λ c. ok str c
  | put bs q ↦ string_loop f head start q (top + length bs) (str ++ bs)
  | stop r ↦ err r (record { json = start; top = head })
  | broken ↦ fault
]

-- `lept_parse_string_raw`; a round reads a byte at least, so the length of the text is fuel enough.
unfoldable pub parse_string_raw : Context → Run (List ℕ)
parse_string_raw c =
    expect b'"' c λ c'. string_loop (suc (length c'.json)) c.top c'.json c'.json c'.top []

-- `hex_digits`
unfoldable pub hex_digit : ℕ → ℕ
hex_digit n = if ltb n 10 then b'0' + n else b'A' + (n - 10)

-- One round of the loop of `lept_stringify_string`.
unfoldable pub escape : ℕ → List ℕ
unfolding hex_digit
escape ch =
    if ch == b'"'
    then b'\\' ∷ b'"' ∷ []
    else if ch == b'\\'
    then b'\\' ∷ b'\\' ∷ []
    else if ch == 8
    then b'\\' ∷ b'b' ∷ []
    else if ch == 12
    then b'\\' ∷ b'f' ∷ []
    else if ch == 10
    then b'\\' ∷ b'n' ∷ []
    else if ch == 13
    then b'\\' ∷ b'r' ∷ []
    else if ch == 9
    then b'\\' ∷ b't' ∷ []
    else if ltb ch 0x20
    then b'\\' ∷ b'u' ∷ b'0' ∷ b'0' ∷ hex_digit (ch / 2 ^ 4) ∷ hex_digit (bit_and ch 15) ∷ []
    else ch ∷ []

unfoldable pub escape_all : List ℕ → List ℕ
unfolding escape
escape_all [] = []
escape_all (x ∷ xs) = escape x ++ escape_all xs

-- The bytes that `lept_stringify_string` leaves on the stack.
unfoldable pub stringify_string : List ℕ → List ℕ
stringify_string s = b'"' ∷ (escape_all s ++ b'"' ∷ [])
