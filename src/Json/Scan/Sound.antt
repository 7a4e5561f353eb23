-- ===== src/Json/Scan/Sound.antt =====
-- leptjson.cpp: what the scan of a number passes over is a number of the grammar.
use mathlib.Core.Path.{ap₂}
use cpp_library.Base.{
  ℕ, ◌≡◌, refl, ap, sym, ◌∙◌, inl, inr, Bool, true, false, ◌||◌, Option, none, some, List, [], ◌∷◌,
  ◌++◌, ◌==◌, if◌then◌else◌, arith, append_assoc, Bool-cases,
}
use cpp_library.Json.Scan.{
  peek, advance, is_digit, is_digit1to9, scan_digits, scan_sign, scan_whole, scan_some_digits,
  scan_fraction, scan_exponent_sign, scan_exponent, scan_number,
}
use cpp_library.Json.Scan.Number.{
  zero_digit, digits, no_fraction, point, no_exponent, exponent, AllDigits, Whole, whole_text,
  Fraction, fraction_text, Exponent, sign_text, exponent_text, NumberForm, number_text, IsWhole,
  IsFraction, IsSign, IsExponent, IsNumber,
}

scan_digits_sound : (p : List ℕ) → (ds : List ℕ) × AllDigits ds × (p ≡ ds ++ scan_digits p)
unfolding scan_digits
scan_digits_sound [] = ([], tt, refl)
scan_digits_sound (x ∷ xs) = elim (Bool-cases (is_digit x)) [
  | inl y ↦ let (ds, a, e) = scan_digits_sound xs in (x ∷ ds, (y, a), rw y (ap (◌∷◌ x) e))
  | inr n ↦ ([], tt, rw n)
]

-- A test passed on the byte under the pointer: the byte is there.
peek-advance :
    (p : List ℕ) (test : ℕ → Bool) → test 0 ≡ false → test (peek p) ≡ true → p ≡ peek p ∷ advance p
peek-advance [] test z h = cc
peek-advance (x ∷ xs) test z h = refl

scan_some_digits_sound :
    (p q : List ℕ)
    → scan_some_digits p ≡ some q
    → (d : ℕ) × (ds : List ℕ) × (is_digit d ≡ true) × AllDigits ds × (p ≡ d ∷ ds ++ q)
unfolding scan_some_digits
scan_some_digits_sound p q h =
    let (ds, a, e) = scan_digits_sound (advance p) in
    let y : is_digit (peek p) ≡ true = ground arith in
    let stop : scan_digits (advance p) ≡ q = ground arith in
    (peek p, ds, y, a, peek-advance p is_digit refl y ∙ ap (◌∷◌ (peek p)) (e ∙ ap (◌++◌ ds) stop))

scan_fraction_sound :
    (p q : List ℕ)
    → scan_fraction p ≡ some q
    → (x : Fraction) × IsFraction x × (p ≡ fraction_text x ++ q)
unfolding scan_fraction
scan_fraction_sound p q h = elim (Bool-cases (peek p == b'.')) [
  | inr n ↦ (no_fraction, tt, ground arith)
  | inl y ↦
      let (d, ds, hd, a, e) = scan_some_digits_sound (advance p) q (ground arith) in
      let dot : peek p ≡ b'.' = ground arith in
      (point d ds, (hd, a), peek-advance p (λ c. c == b'.') refl y ∙ ap₂ ◌∷◌ dot e)
]

scan_whole_sound :
    (p q : List ℕ) → scan_whole p ≡ some q → (x : Whole) × IsWhole x × (p ≡ whole_text x ++ q)
unfolding scan_whole
scan_whole_sound p q h = elim (Bool-cases (peek p == b'0')) [
  | inl y ↦
      let z : peek p ≡ b'0' = ground arith in
      let stop : advance p ≡ q = ground arith in
      (zero_digit, tt, peek-advance p (λ c. c == b'0') refl y ∙ ap₂ ◌∷◌ z stop)
  | inr n ↦
      let (ds, a, e) = scan_digits_sound (advance p) in
      let y : is_digit1to9 (peek p) ≡ true = ground arith in
      let stop : scan_digits (advance p) ≡ q = ground arith in
      (
        digits (peek p) ds,
        (y, a),
        peek-advance p is_digit1to9 refl y ∙ ap (◌∷◌ (peek p)) (e ∙ ap (◌++◌ ds) stop),
      )
]

scan_exponent_sign_sound :
    (p : List ℕ) → (s : Option ℕ) × IsSign s × (p ≡ sign_text s ++ scan_exponent_sign p)
unfolding scan_exponent_sign
scan_exponent_sign_sound [] = (none, tt, refl)
scan_exponent_sign_sound (x ∷ xs) = elim (Bool-cases (x == b'+' || x == b'-')) [
  | inl y ↦ (some x, ground arith, rw y)
  | inr n ↦ (none, tt, rw n)
]

scan_exponent_sound :
    (p q : List ℕ)
    → scan_exponent p ≡ some q
    → (x : Exponent) × IsExponent x × (p ≡ exponent_text x ++ q)
unfolding scan_exponent
scan_exponent_sound [] q h = (no_exponent, tt, ground arith)
scan_exponent_sound (m ∷ p) q h = elim (Bool-cases (m == b'e' || m == b'E')) [
  | inr n ↦ (no_exponent, tt, ground arith)
  | inl y ↦
      let (s, hs, es) = scan_exponent_sign_sound p in
      let (d, ds, hd, a, e) = scan_some_digits_sound (scan_exponent_sign p) q (ground arith) in
      (
        exponent m s d ds,
        (ground arith, hs, hd, a),
        ap (◌∷◌ m) (es ∙ (ap (◌++◌ (sign_text s)) e ∙ sym (append_assoc (sign_text s) (d ∷ ds) q))),
      )
]

scan_sign_sound : (p : List ℕ) → (b : Bool) × (p ≡ (if b then b'-' ∷ [] else []) ++ scan_sign p)
unfolding scan_sign
scan_sign_sound [] = (false, refl)
scan_sign_sound (x ∷ xs) = elim (Bool-cases (x == b'-')) [
  | inl y ↦ let z : x ≡ b'-' = ground arith in (true, rw z)
  | inr n ↦ (false, rw n)
]

-- The two cuts of `scan_number`.
whole_then :
    (p q : List ℕ)
    → (elim (scan_whole p) [
      | none ↦ none
      | some q ↦ elim (scan_fraction q) [ none ↦ none | some r ↦ scan_exponent r ]
    ])
      ≡ some q
    → (r : List ℕ) × (scan_whole p ≡ some r)
      × ((elim (scan_fraction r) [ none ↦ none | some t ↦ scan_exponent t ]) ≡ some q)
whole_then p q h = ground arith

fraction_then :
    (p q : List ℕ)
    → (elim (scan_fraction p) [ none ↦ none | some t ↦ scan_exponent t ]) ≡ some q
    → (t : List ℕ) × (scan_fraction p ≡ some t) × (scan_exponent t ≡ some q)
fraction_then p q h = ground arith

-- What the scan passes over is a number of the grammar.
pub scan_number_sound :
    (p q : List ℕ)
    → scan_number p ≡ some q
    → (f : NumberForm) × IsNumber f × (p ≡ number_text f ++ q)
unfolding scan_number
scan_number_sound p q h =
    let (b, es) = scan_sign_sound p in
    let (r, hr, more) = whole_then (scan_sign p) q h in
    let (w, hw, ew) = scan_whole_sound (scan_sign p) r hr in
    let (t, ht, last) = fraction_then r q more in
    let (x, hx, ex) = scan_fraction_sound r t ht in
    let (y, hy, ey) = scan_exponent_sound t q last in
    let whole = whole_text w in
    let point = fraction_text x in
    let behind = ap (◌++◌ point) ey ∙ sym (append_assoc point (exponent_text y) q) in
    (
      record { negative = b; whole = w; fraction = x; exponent = y },
      record { whole_ok = hw; fraction_ok = hx; exponent_ok = hy },
      es
          ∙ (ap (◌++◌ (if b then b'-' ∷ [] else [])) (ew ∙ ap (◌++◌ whole) (ex ∙ behind))
              ∙ simp append_assoc),
    )
