-- ===== src/Json/Text/Utf8.antt =====
-- `lept_encode_utf8` against a decoder of UTF-8 (RFC 3629), written by arithmetic.
use cpp_library.Base.{
  ℕ, ◌+◌, ◌-◌, ◌*◌, ◌/◌, ◌%◌, ◌≤◌, ◌<◌, bit_and, bit_or, ◌≡◌, ◌∙◌, ap, Bool, ◌&&◌, Option, none,
  some, List, [], ◌∷◌, ◌++◌, leb, ltb, if◌then◌else◌, arith, bit_or_shift, pow2, bit_and_63,
  bit_and_255,
}
use cpp_library.Json.Text.{encode_utf8}

-- The bytes of the code point `u`, written by arithmetic.
unfoldable pub utf8_bytes : ℕ → List ℕ
utf8_bytes u =
    if leb u 0x7F
    then u ∷ []
    else if leb u 0x7FF
    then (192 + u / 64) ∷ (128 + u % 64) ∷ []
    else if leb u 0xFFFF
    then (224 + u / 4096) ∷ (128 + u / 64 % 64) ∷ (128 + u % 64) ∷ []
    else (240 + u / 262144) ∷ (128 + u / 4096 % 64) ∷ (128 + u / 64 % 64) ∷ (128 + u % 64) ∷ []

-- A leading byte is its mark and the bits in front, a following byte its mark and six bits.
lead : (k m u : ℕ) → u < pow2 k → u < 256 → bit_or (m * pow2 k) (bit_and u 0xFF) ≡ m * pow2 k + u
lead k m u h l =
    let e : bit_and u 0xFF ≡ u = bit_and_255 u ∙ omega arith in
    ap (λ (x : ℕ). bit_or (m * pow2 k) x) e ∙ bit_or_shift k m u h

follow : (u : ℕ) → bit_or 0x80 (bit_and u 0x3F) ≡ 128 + u % 64
follow u = ap (λ (x : ℕ). bit_or 0x80 x) (bit_and_63 u) ∙ bit_or_shift 6 2 (u % 64) (omega arith)

-- The shifts and masks of the source give these bytes, and its assertion holds up to U+10FFFF.
pub encode_utf8-utf8_bytes : (u : ℕ) → u ≤ 0x10FFFF → encode_utf8 u ≡ some (utf8_bytes u)
unfolding encode_utf8 utf8_bytes
encode_utf8-utf8_bytes u h = ground (
  arith,
  bit_and_255 u,
  lead 5 6 (u / 64),
  lead 5 7 (u / 4096),
  lead 4 15 (u / 262144),
  follow u,
  follow (u / 64),
  follow (u / 4096),
)

abbrev is_follow : ℕ → Bool
is_follow b = leb 128 b && ltb b 192

-- A decoder that refuses stray and missing following bytes, overlong forms and what lies beyond
-- U+10FFFF.
unfoldable pub decode2 : ℕ → List ℕ → Option (ℕ × List ℕ)
decode2 a (b ∷ p) =
    let u = (a - 192) * 64 + (b - 128) in if is_follow b && leb 0x80 u then some (u, p) else none
decode2 a [] = none

unfoldable pub decode3 : ℕ → List ℕ → Option (ℕ × List ℕ)
decode3 a (b ∷ c ∷ p) =
    let u = (a - 224) * 4096 + (b - 128) * 64 + (c - 128) in
    if is_follow b && (is_follow c && leb 0x800 u) then some (u, p) else none
decode3 a _ = none

unfoldable pub decode4 : ℕ → List ℕ → Option (ℕ × List ℕ)
decode4 a (b ∷ c ∷ d ∷ p) =
    let u = (a - 240) * 262144 + (b - 128) * 4096 + (c - 128) * 64 + (d - 128) in
    if is_follow b && (is_follow c && (is_follow d && (leb 0x10000 u && leb u 0x10FFFF)))
    then some (u, p)
    else none
decode4 a _ = none

unfoldable pub decode_utf8 : List ℕ → Option (ℕ × List ℕ)
unfolding decode2 decode3 decode4
decode_utf8 [] = none
decode_utf8 (a ∷ p) =
    if ltb a 128
    then some (a, p)
    else if ltb a 192
    then none
    else if ltb a 224
    then decode2 a p
    else if ltb a 240
    then decode3 a p
    else if ltb a 248
    then decode4 a p
    else none

decode_utf8-utf8_bytes :
    (u : ℕ) (rest : List ℕ) → u ≤ 0x10FFFF → decode_utf8 (utf8_bytes u ++ rest) ≡ some (u, rest)
unfolding decode_utf8 utf8_bytes
decode_utf8-utf8_bytes u rest h = ground arith

-- Up to U+10FFFF the encoder's assertion holds, and what it pushes decodes to the code point it
-- was given, whatever follows.
pub decode_utf8-encode_utf8 :
    (u : ℕ) (rest : List ℕ)
    → u ≤ 0x10FFFF
    → (bs : List ℕ) × (encode_utf8 u ≡ some bs) × (decode_utf8 (bs ++ rest) ≡ some (u, rest))
decode_utf8-encode_utf8 u rest h =
    (utf8_bytes u, encode_utf8-utf8_bytes u h, decode_utf8-utf8_bytes u rest h)
