-- ===== src/Json/Text/RoundTrip.antt =====
-- `lept_parse_string_raw` on what `lept_stringify_string` writes, and the room that this needs.
use cpp_library.Base.{
  ℕ, zero, suc, ◌+◌, ◌-◌, ◌*◌, ◌/◌, ◌^◌, ◌≤◌, ◌<◌, bit_and, ◌≡◌, refl, ◌∙◌, ap, false, ◌&&◌, some,
  List, [], ◌∷◌, ◌++◌, leb, length, arith, length-append, le→leb, bit_and_15, append_assoc,
  append-nil,
}
use cpp_library.Json.Run.{ok}
use cpp_library.Json.Text.{
  parse_hex4, point, parse_unicode, unescape, close, put, put_unicode, string_round, string_loop,
  parse_string_raw, hex_digit, escape, escape_all, stringify_string,
}
use cpp_library.Json.Text.Utf8.{utf8_bytes, encode_utf8-utf8_bytes}
use cpp_library.Json.Text.Hex.{parse_hex4-hex_digit}

length-escape : (c : ℕ) → length (escape c) ≤ 6
unfolding escape
length-escape c = ground arith

length-escape_all : (s : List ℕ) → length (escape_all s) ≤ length s * 6
unfolding escape_all
length-escape_all [] = omega arith
length-escape_all (x ∷ s) =
    omega (arith, length-append (escape x) (escape_all s), length-escape x, length-escape_all s)

-- The generator claims `len * 6 + 2` bytes of the stack and writes no more.
pub length-stringify_string : (s : List ℕ) → length (stringify_string s) ≤ length s * 6 + 2
unfolding stringify_string
length-stringify_string s =
    omega (arith, length-append (escape_all s) (b'"' ∷ []), length-escape_all s)

two_digits :
    (a b : ℕ) (q : List ℕ)
    → a < 16
    → b < 16
    → parse_hex4 (b'0' ∷ b'0' ∷ hex_digit a ∷ hex_digit b ∷ q) ≡ some (a * 16 + b, q)
unfolding hex_digit
two_digits a b q h k =
    parse_hex4-hex_digit 0 0 a b q (omega arith) (omega arith) h k
    ∙ ap (λ (n : ℕ). some (n, q)) (omega arith)

-- The two hexadecimal digits of a control character.
two_digits_of :
    (ch : ℕ) (q : List ℕ)
    → ch < 32
    → parse_hex4 (b'0' ∷ b'0' ∷ hex_digit (ch / 2 ^ 4) ∷ hex_digit (bit_and ch 15) ∷ q)
      ≡ some (ch, q)
two_digits_of ch q h =
    two_digits (ch / 16) (bit_and ch 15) q (omega arith) (omega (arith, bit_and_15 ch))
    ∙ ap (λ (n : ℕ). some (n, q)) (omega (arith, bit_and_15 ch))

parse_unicode-single :
    (ch : ℕ) (p q : List ℕ) → ch < 32 → parse_hex4 p ≡ some (ch, q) → parse_unicode p ≡ point ch q
unfolding parse_unicode
parse_unicode-single ch p q h e =
    let low : leb 0xD800 ch && leb ch 0xDBFF ≡ false = ground arith in rw (e, parse_unicode, low)

put_unicode-single : (ch : ℕ) (q : List ℕ) → ch < 32 → put_unicode (point ch q) ≡ put (ch ∷ []) q
unfolding put_unicode utf8_bytes
put_unicode-single ch q h =
    let bytes : utf8_bytes ch ≡ ch ∷ [] = ground arith in
    rw (encode_utf8-utf8_bytes ch (omega arith) ∙ ap some bytes, put_unicode)

control :
    (ch : ℕ) (q : List ℕ)
    → ch < 32
    → put_unicode
        (parse_unicode (b'0' ∷ b'0' ∷ hex_digit (ch / 2 ^ 4) ∷ hex_digit (bit_and ch 15) ∷ q))
      ≡ put (ch ∷ []) q
control ch q h =
    ap put_unicode (parse_unicode-single ch _ q h (two_digits_of ch q h))
    ∙ put_unicode-single ch q h

-- One round reads what one round wrote.
string_round-escape : (ch : ℕ) (q : List ℕ) → string_round (escape ch ++ q) ≡ put (ch ∷ []) q
unfolding string_round escape unescape
string_round-escape ch q = ground (arith, control ch q)

string_round-quote : (q : List ℕ) → string_round (b'"' ∷ q) ≡ close q
unfolding string_round
string_round-quote q = refl

string_loop-escape_all :
    (s : List ℕ) (f head : ℕ) (start rest : List ℕ) (top : ℕ) (str : List ℕ)
    → length s < f
    → top ≡ head + length str
    → string_loop f head start (escape_all s ++ b'"' ∷ rest) top str
      ≡ ok (str ++ s) (record { json = rest; top = head })
unfolding escape_all string_loop
string_loop-escape_all s zero head start rest top str h t = absurd (omega arith)
string_loop-escape_all [] (suc f) head start rest top str h t =
    let back : top - (top - head) ≡ head = omega arith in
    rw (
      string_round-quote rest,
      string_loop,
      le→leb (top - head) top (omega arith),
      append-nil,
      back,
    )
string_loop-escape_all (x ∷ s) (suc f) head start rest top str h t =
    rw
      (
        append_assoc (escape x) (escape_all s) (b'"' ∷ rest),
        string_loop,
        string_round-escape x (escape_all s ++ b'"' ∷ rest),
      )
      (string_loop-escape_all s f head start rest (top + 1) (str ++ x ∷ []) (omega arith)
          (omega (arith, length-append str (x ∷ [])))
        ∙ ap (λ l. ok l (record { json = rest; top = head })) (append_assoc str (x ∷ []) s))

escape-pos : (c : ℕ) → 0 < length (escape c)
unfolding escape
escape-pos c = ground arith

length-le-escape_all : (s : List ℕ) → length s ≤ length (escape_all s)
unfolding escape_all
length-le-escape_all [] = omega arith
length-le-escape_all (x ∷ s) =
    omega (arith, length-append (escape x) (escape_all s), escape-pos x, length-le-escape_all s)

-- A string written by the generator is read back by the parser, byte for byte, whatever follows,
-- and the stack is as high as before.
pub parse_string_raw-stringify_string :
    (s rest : List ℕ) (t : ℕ)
    → parse_string_raw (record { json = stringify_string s ++ rest; top = t })
      ≡ ok s (record { json = rest; top = t })
unfolding parse_string_raw stringify_string
parse_string_raw-stringify_string s rest t = rw (append_assoc (escape_all s) (b'"' ∷ []) rest) (
    string_loop-escape_all s (suc (length (escape_all s ++ b'"' ∷ rest))) t
      (escape_all s ++ b'"' ∷ rest) rest t []
      (omega (arith, length-append (escape_all s) (b'"' ∷ rest), length-le-escape_all s))
      (omega arith))
