-- ===== src/Json/Print/Starts.antt =====
-- How a printed value begins, and what the parser's dispatch makes of it.
use cpp_library.Base.{
  ℕ, ◌≡◌, refl, Bool, true, false, ◌||◌, List, [], ◌∷◌, ◌++◌, ◌==◌, if◌then◌else◌, arith,
  append_assoc,
}
use cpp_library.Json.Syntax.{
  Value, Items, Members, null, number, array, object, no_items, item, no_members, member, Double,
}
use cpp_library.Json.Scan.{peek, is_whitespace, skip_whitespace, is_digit}
use cpp_library.Json.Scan.Number.{
  NumberForm, number_text, IsNumber, IsWhole, Whole, zero_digit, digits, whole_text, fraction_text,
  exponent_text, EndsNumber,
}
use cpp_library.Json.Text.{stringify_string}
use cpp_library.Json.Print.{stringify_value}

-- What stands behind a value in a printed text: nothing, a comma, a closing bracket or whitespace.
abbrev pub is_delimiter : ℕ → Bool
is_delimiter c = c == 0 || (c == b',' || (c == b']' || (c == b'}' || is_whitespace c)))

abbrev pub Delimited : List ℕ → Type 0
Delimited p = is_delimiter (peek p) ≡ true

-- What the code relies on of the C library, for the numbers that `IsFinite` describes: "%.17g"
-- writes a number of the JSON grammar, and `strtod` reads that text back to the number, without
-- a range error, when a delimiter stands behind it.
pub record NumberLaws {N : Type 0} (d : Double N) (IsFinite : N → Type 0) : Type 0 where
  pub form : N → NumberForm
  pub formed : (n : N) → IsFinite n → IsNumber (form n)
  pub written : (n : N) → IsFinite n → d.sprintf_17g n ≡ number_text (form n)
  pub read :
      (n : N) (rest : List ℕ)
      → IsFinite n
      → Delimited rest
      → d.strtod (d.sprintf_17g n ++ rest) ≡ (n, false)

-- Every number in the value is one that `IsFinite` describes.
module _ {N : Type 0} (IsFinite : N → Type 0) where
  abbrev mutual
    pub AllFinite : Value N → Type 0
    AllFinite (number n) = IsFinite n
    AllFinite (array _ xs) = AllFiniteItems xs
    AllFinite (object _ ms) = AllFiniteMembers ms
    AllFinite _ = Unit {0}

    pub AllFiniteItems : Items N → Type 0
    AllFiniteItems no_items = Unit {0}
    AllFiniteItems (item v xs) = AllFinite v × AllFiniteItems xs

    pub AllFiniteMembers : Members N → Type 0
    AllFiniteMembers no_members = Unit {0}
    AllFiniteMembers (member k v ms) = AllFinite v × AllFiniteMembers ms

-- The first byte of a number, and of any value.
abbrev pub is_number_start : ℕ → Bool
is_number_start c = c == b'-' || is_digit c

abbrev pub is_start : ℕ → Bool
is_start c =
    is_number_start c
    || (c == b't' || (c == b'f' || (c == b'n' || (c == b'"' || (c == b'[' || c == b'{')))))

sign-start :
    (b : Bool) (w : Whole) (q : List ℕ)
    → IsWhole w
    → is_number_start (peek ((if b then b'-' ∷ [] else []) ++ (whole_text w ++ q))) ≡ true
sign-start true w q h = refl
sign-start false zero_digit q h = refl
sign-start false (digits d ds) q h = ground arith

pub number_text-start :
    (f : NumberForm) (rest : List ℕ)
    → IsNumber f
    → is_number_start (peek (number_text f ++ rest)) ≡ true
number_text-start f rest h = simp append_assoc (
    sign-start f.negative f.whole (fraction_text f.fraction ++ (exponent_text f.exponent ++ rest))
      h.whole_ok)

pub skip_whitespace-start : (p : List ℕ) → is_start (peek p) ≡ true → skip_whitespace p ≡ p
unfolding skip_whitespace
skip_whitespace-start [] h = refl
skip_whitespace-start (x ∷ p) h = ground arith

pub Delimited→EndsNumber : (p : List ℕ) → Delimited p → EndsNumber p
Delimited→EndsNumber p h = ground arith

module _ {N : Type 0} {d : Double N} {IsFinite : N → Type 0} (laws : NumberLaws d IsFinite) where
  pub number-start :
      (n : N) (rest : List ℕ) → IsFinite n → is_number_start (peek (d.sprintf_17g n ++ rest)) ≡ true
  number-start n rest h =
      rw (laws.written n h) (number_text-start (laws.form n) rest (laws.formed n h))

  number_start→start : (c : ℕ) → is_number_start c ≡ true → is_start c ≡ true
  number_start→start c h = rw h

  -- A printed value begins with the first byte of a value.
  pub stringify_value-start :
      (v : Value N) (rest : List ℕ)
      → AllFinite IsFinite v
      → is_start (peek (stringify_value d v ++ rest)) ≡ true
  unfolding stringify_value stringify_string
  stringify_value-start null rest h = refl
  stringify_value-start (number n) rest h =
      number_start→start (peek (d.sprintf_17g n ++ rest)) (number-start n rest h)
  stringify_value-start _ rest h = refl
