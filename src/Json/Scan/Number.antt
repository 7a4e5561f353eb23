-- ===== src/Json/Scan/Number.antt =====
-- leptjson.cpp: the numbers of RFC 8259, and the scan of each of them.
use cpp_library.Base.{
  ℕ, ◌≡◌, refl, ◌⊎◌, Bool, true, false, Option, none, some, List, [], ◌∷◌, ◌++◌, ◌==◌,
  if◌then◌else◌, arith, append_assoc,
}
use cpp_library.Json.Scan.{
  peek, is_digit, is_digit1to9, scan_digits, scan_sign, scan_whole, scan_some_digits, scan_fraction,
  scan_exponent_sign, scan_exponent, scan_number,
}

abbrev pub AllDigits : List ℕ → Type 0
AllDigits [] = Unit {0}
AllDigits (c ∷ cs) = (is_digit c ≡ true) × AllDigits cs

-- A single 0, or digits that do not begin with 0.
pub data Whole : Type 0 where
  zero_digit : Whole
  digits : ℕ → List ℕ → Whole

abbrev pub whole_text : Whole → List ℕ
whole_text zero_digit = b'0' ∷ []
whole_text (digits d ds) = d ∷ ds

-- An optional fraction: no digit, or the first and the rest.
pub data Fraction : Type 0 where
  no_fraction : Fraction
  point : ℕ → List ℕ → Fraction

abbrev pub fraction_text : Fraction → List ℕ
fraction_text no_fraction = []
fraction_text (point d ds) = b'.' ∷ d ∷ ds

-- An optional exponent: its mark, its sign if there is one, its digits.
pub data Exponent : Type 0 where
  no_exponent : Exponent
  exponent : ℕ → Option ℕ → ℕ → List ℕ → Exponent

abbrev pub sign_text : Option ℕ → List ℕ
sign_text none = []
sign_text (some s) = s ∷ []

abbrev pub exponent_text : Exponent → List ℕ
exponent_text no_exponent = []
exponent_text (exponent mark sign d ds) = mark ∷ (sign_text sign ++ d ∷ ds)

pub record NumberForm : Type 0 where
  pub negative : Bool
  pub whole : Whole
  pub fraction : Fraction
  pub exponent : Exponent

abbrev pub number_text : NumberForm → List ℕ
number_text f =
    (if f.negative then b'-' ∷ [] else [])
    ++ whole_text f.whole
    ++ fraction_text f.fraction
    ++ exponent_text f.exponent

abbrev pub IsWhole : Whole → Type 0
IsWhole zero_digit = Unit {0}
IsWhole (digits d ds) = (is_digit1to9 d ≡ true) × AllDigits ds

abbrev pub IsFraction : Fraction → Type 0
IsFraction no_fraction = Unit {0}
IsFraction (point d ds) = (is_digit d ≡ true) × AllDigits ds

abbrev pub IsSign : Option ℕ → Type 0
IsSign none = Unit {0}
IsSign (some s) = (s ≡ b'+') ⊎ (s ≡ b'-')

abbrev pub IsExponent : Exponent → Type 0
IsExponent no_exponent = Unit {0}
IsExponent (exponent mark sign d ds) =
    ((mark ≡ b'e') ⊎ (mark ≡ b'E')) × IsSign sign × (is_digit d ≡ true) × AllDigits ds

pub record IsNumber (f : NumberForm) : Type 0 where
  pub whole_ok : IsWhole f.whole
  pub fraction_ok : IsFraction f.fraction
  pub exponent_ok : IsExponent f.exponent

-- What may follow a number so that the scan stops before it.
abbrev pub EndsNumber : List ℕ → Type 0
EndsNumber p =
    (is_digit (peek p) ≡ false)
    × ((peek p == b'.') ≡ false)
    × ((peek p == b'e') ≡ false)
    × ((peek p == b'E') ≡ false)

scan_digits-append :
    (ds rest : List ℕ)
    → AllDigits ds
    → is_digit (peek rest) ≡ false
    → scan_digits (ds ++ rest) ≡ rest
unfolding scan_digits
scan_digits-append [] [] a e = refl
scan_digits-append [] (x ∷ rest) a e = rw e
scan_digits-append (d ∷ ds) rest a e = rw a.0 (scan_digits-append ds rest a.1 e)

scan_some_digits-append :
    (d : ℕ) (ds rest : List ℕ)
    → is_digit d ≡ true
    → AllDigits ds
    → is_digit (peek rest) ≡ false
    → scan_some_digits (d ∷ ds ++ rest) ≡ some rest
unfolding scan_some_digits
scan_some_digits-append d ds rest h a e = rw (h, scan_digits-append ds rest a e)

scan_exponent-append :
    (x : Exponent) (rest : List ℕ)
    → IsExponent x
    → EndsNumber rest
    → scan_exponent (exponent_text x ++ rest) ≡ some rest
unfolding scan_exponent scan_exponent_sign
scan_exponent-append no_exponent rest h e = ground arith
scan_exponent-append (exponent m none d ds) rest h e =
    ground (arith, scan_some_digits-append d ds rest h.2 h.3 e.0)
scan_exponent-append (exponent m (some s) d ds) rest h e =
    ground (arith, scan_some_digits-append d ds rest h.2 h.3 e.0)

-- Neither a digit nor a point begins an exponent or what follows the number.
exponent-peek :
    (x : Exponent) (rest : List ℕ)
    → IsExponent x
    → EndsNumber rest
    → (is_digit (peek (exponent_text x ++ rest)) ≡ false)
      × ((peek (exponent_text x ++ rest) == b'.') ≡ false)
exponent-peek no_exponent rest h e = (e.0, e.1)
exponent-peek (exponent m s d ds) rest h e = ground arith

scan_fraction-append :
    (x : Fraction) (rest : List ℕ)
    → IsFraction x
    → (is_digit (peek rest) ≡ false) × ((peek rest == b'.') ≡ false)
    → scan_fraction (fraction_text x ++ rest) ≡ some rest
unfolding scan_fraction
scan_fraction-append no_fraction rest h e = rw e.1
scan_fraction-append (point d ds) rest h e = scan_some_digits-append d ds rest h.0 h.1 e.0

fraction-peek :
    (x : Fraction) (rest : List ℕ)
    → is_digit (peek rest) ≡ false
    → is_digit (peek (fraction_text x ++ rest)) ≡ false
fraction-peek no_fraction rest e = e
fraction-peek (point d ds) rest e = refl

scan_whole-append :
    (x : Whole) (rest : List ℕ)
    → IsWhole x
    → is_digit (peek rest) ≡ false
    → scan_whole (whole_text x ++ rest) ≡ some rest
unfolding scan_whole
scan_whole-append zero_digit rest h e = refl
scan_whole-append (digits d ds) rest h e = ground (arith, scan_digits-append ds rest h.1 e)

scan_sign-append :
    (b : Bool) (x : Whole) (rest : List ℕ)
    → IsWhole x
    → scan_sign ((if b then b'-' ∷ [] else []) ++ (whole_text x ++ rest)) ≡ whole_text x ++ rest
unfolding scan_sign
scan_sign-append true x rest h = refl
scan_sign-append false zero_digit rest h = refl
scan_sign-append false (digits d ds) rest h = ground arith

-- Every number of the grammar is scanned whole, up to what follows it.
pub scan_number-append :
    (f : NumberForm) (rest : List ℕ)
    → IsNumber f
    → EndsNumber rest
    → scan_number (number_text f ++ rest) ≡ some rest
unfolding scan_number
scan_number-append f rest h e =
    let after_point = exponent-peek f.exponent rest h.exponent_ok e in
    let tail = exponent_text f.exponent ++ rest in
    let after_whole = fraction-peek f.fraction tail after_point.0 in
    simp (
      append_assoc,
      scan_number,
      scan_sign-append f.negative f.whole (fraction_text f.fraction ++ tail) h.whole_ok,
      scan_whole-append f.whole (fraction_text f.fraction ++ tail) h.whole_ok after_whole,
      scan_fraction-append f.fraction tail h.fraction_ok after_point,
      scan_exponent-append f.exponent rest h.exponent_ok e,
    )
