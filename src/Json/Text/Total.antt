-- ===== src/Json/Text/Total.antt =====
-- How `lept_parse_string_raw` comes to an end, and the stack then.
use cpp_library.Base.{
  le→leb, ℕ, zero, suc, ◌+◌, ◌-◌, ◌*◌, ◌%◌, ◌^◌, ◌≤◌, ◌<◌, bit_or, ◌≡◌, refl, ◌∙◌, ap, ◌&&◌, none,
  List, [], ◌∷◌, ◌++◌, leb, length, arith, bit_or_shift, Option-cases, inl, inr, length-append,
  Bool-cases,
}
use cpp_library.Json.Scan.{advance}
use cpp_library.Json.Run.{Context, Run, ok, err, fault, out_of_fuel, Settles, done, failed}
use cpp_library.Json.Text.{
  parse_hex4, Unicode, point, bad, low_surrogate, parse_unicode, unescape, Round, close, put, stop,
  broken, put_unicode, string_round, string_loop, parse_string_raw,
}
use cpp_library.Json.Text.Hex.{parse_hex4-lt}
use cpp_library.Json.Text.Utf8.{encode_utf8-utf8_bytes}

-- A code point that Unicode has, and at least four bytes read.
abbrev IsSound : List ℕ → Unicode → Type 0
IsSound p (point u q) = (u ≤ 0x10FFFF) × (length q < length p)
IsSound p (bad r) = Unit {0}

pair_value :
    (u u2 : ℕ)
    → 0xD800 ≤ u
    → u ≤ 0xDBFF
    → 0xDC00 ≤ u2
    → u2 ≤ 0xDFFF
    → bit_or ((u - 0xD800) * 2 ^ 10 % 2 ^ 32) (u2 - 0xDC00) + 0x10000 ≤ 0x10FFFF
pair_value u u2 h1 h2 h3 h4 =
    let e : (u - 0xD800) * 2 ^ 10 % 2 ^ 32 ≡ (u - 0xD800) * 1024 = omega arith in
    let s =
      ap (λ (x : ℕ). bit_or x (u2 - 0xDC00)) e
      ∙ bit_or_shift 10 (u - 0xD800) (u2 - 0xDC00) (omega arith) in
    omega (arith, s)

low_surrogate-IsSound :
    (u : ℕ) (p : List ℕ) → 0xD800 ≤ u → u ≤ 0xDBFF → IsSound p (low_surrogate u p)
unfolding low_surrogate
low_surrogate-IsSound u p h k = elim (Option-cases (parse_hex4 (advance (advance p)))) [
  | inl e ↦ ground arith
  | inr ((u2, q), e) ↦ ground (
    arith,
    parse_hex4-lt (advance (advance p)) u2 q e,
    pair_value u u2 h k,
    shorter p,
    shorter (advance p),
  )
]
  where
    shorter : (p : List ℕ) → length (advance p) ≤ length p
    shorter [] = omega arith
    shorter (x ∷ p) = omega arith

IsSound-weaken : (p q : List ℕ) (x : Unicode) → length p ≤ length q → IsSound p x → IsSound q x
IsSound-weaken p q (point u r) h k = omega arith
IsSound-weaken p q (bad r) h k = tt

parse_unicode-IsSound : (p : List ℕ) → IsSound p (parse_unicode p)
unfolding parse_unicode
parse_unicode-IsSound p = elim (Option-cases (parse_hex4 p)) [
  | inl e ↦ ground arith
  | inr ((u, q), e) ↦ elim (Bool-cases (leb 0xD800 u && leb u 0xDBFF)) [
    | inl high ↦
        let bound = parse_hex4-lt p u q e in
        rw (e, parse_unicode, high)
          (IsSound-weaken q p (low_surrogate u q) (omega arith)
            (low_surrogate-IsSound u q (ground arith) (ground arith)))
    | inr single ↦ rw (e, parse_unicode, single) (ground (arith, parse_hex4-lt p u q e))
  ]
]

-- A round makes progress and meets no failed assertion.
abbrev Progress : List ℕ → Round → Type 0
Progress p (close q) = length q < length p
Progress p (put bs q) = length q < length p
Progress p (stop r) = Unit {0}
Progress p broken = ⊥

put_unicode-Progress : (p : List ℕ) (x : Unicode) → IsSound p x → Progress p (put_unicode x)
unfolding put_unicode
put_unicode-Progress p (bad r) h = tt
put_unicode-Progress p (point u q) h = rw (encode_utf8-utf8_bytes u h.0, put_unicode, Progress) h.1

Progress-weaken : (p q : List ℕ) (r : Round) → length p ≤ length q → Progress p r → Progress q r
Progress-weaken p q (close s) h k = omega arith
Progress-weaken p q (put bs s) h k = omega arith
Progress-weaken p q (stop r) h k = tt
Progress-weaken p q broken h k = k

string_round-Progress : (p : List ℕ) → Progress p (string_round p)
unfolding string_round
string_round-Progress [] = tt
string_round-Progress (c ∷ []) = ground (arith, unescape_end)
  where
    unescape_end : unescape 0 ≡ none
    unescape_end = unfold unescape in refl
string_round-Progress (c ∷ b ∷ p) = ground (
  arith,
  Progress-weaken p (c ∷ b ∷ p) (put_unicode (parse_unicode p)),
  put_unicode-Progress p (parse_unicode p) (parse_unicode-IsSound p),
)

string_loop-Settles :
    (f head : ℕ) (start p : List ℕ) (top : ℕ) (str : List ℕ)
    → length p < f
    → top ≡ head + length str
    → length p ≤ length start
    → Settles (record { json = start; top = head }) (string_loop f head start p top str)
unfolding string_loop
string_loop-Settles zero head start p top str h t k = absurd (omega arith)
string_loop-Settles (suc f) head start p top str h t k =
    go (string_round p) refl
      λ q bs. string_loop-Settles f head start q (top + length bs) (str ++ bs)
  where
    entry : Context
    entry = record { json = start; top = head }

    go :
        (r : Round)
        → string_round p ≡ r
        → ((q bs : List ℕ)
            → length q < f
            → top + length bs ≡ head + length (str ++ bs)
            → length q ≤ length start
            → Settles entry (string_loop f head start q (top + length bs) (str ++ bs)))
        → Settles entry (string_loop (suc f) head start p top str)
    go (close q) e ih =
        let shorter = rw e at (string_round-Progress p) in
        rw (e, string_loop, le→leb (top - head) top (omega arith))
          (done (omega arith) (omega arith))
    go (put bs q) e ih =
        let shorter = rw e at (string_round-Progress p) in
        rw (e, string_loop)
          (ih q bs (omega arith) (omega (arith, length-append str bs)) (omega arith))
    go (stop r) e ih = rw (e, string_loop) (failed refl)
    go broken e ih = absurd (rw e at (string_round-Progress p))

Settles-expect :
    (ch t : ℕ) (p : List ℕ) (r : Run (List ℕ))
    → Settles (record { json = p; top = t }) r
    → Settles (record { json = ch ∷ p; top = t }) r
Settles-expect ch t p (ok a c') (done h k) = done h (omega arith)
Settles-expect ch t p (err r c') (failed h) = failed h
Settles-expect ch t p fault h = elim h [ ]
Settles-expect ch t p out_of_fuel h = elim h [ ]

-- From an opening quote on, `lept_parse_string_raw` succeeds or returns an error code: its
-- assertions hold, it leaves the stack as high as it was, and a success has read something.
pub parse_string_raw-Settles :
    (p : List ℕ) (t : ℕ)
    → Settles
        (record { json = b'"' ∷ p; top = t })
        (parse_string_raw (record { json = b'"' ∷ p; top = t }))
unfolding parse_string_raw
parse_string_raw-Settles p t =
    Settles-expect b'"' t p (string_loop (suc (length p)) t p p t [])
      (string_loop-Settles (suc (length p)) t p p t [] (omega arith) (omega arith) (omega arith))
