-- ===== src/Json/Parse/Steps.antt =====
-- What each part of the parser does to the stack and to the text.
use cpp_library.Base.{
  ℕ, zero, suc, ◌+◌, ◌-◌, ◌*◌, ◌≤◌, ◌<◌, ◌≡◌, refl, ap, Bool, true, false, some, List, [], ◌∷◌,
  ◌==◌, inl, inr, if◌then◌else◌, length, arith, Option-cases, le→leb, ==_refl, ==_iff,
  length-append, ◌++◌,
}
use cpp_library.Json.Syntax.{
  Value, Items, Members, Double, ParseResult, miss_comma_or_square_bracket,
  miss_comma_or_curly_bracket,
}
use cpp_library.Json.Scan.{peek, advance, skip_whitespace, match_literal, scan_number}
use cpp_library.Json.Run.{Context, Run, ok, err, fault, out_of_fuel, bind, Ends, done, failed}
use cpp_library.Json.Text.{parse_string_raw}
use cpp_library.Json.Text.Total.{parse_string_raw-Settles}
use cpp_library.Json.Scan.Sound.{scan_number_sound}
use cpp_library.Json.Scan.Number.{
  Whole, zero_digit, digits, NumberForm, number_text, whole_text, fraction_text, exponent_text,
}
use cpp_library.Json.Parse.{
  sizeof_value, sizeof_member, unwind, Next, comma, closing, other, next, parse_literal,
  parse_string, parse_array, parse_object, parse_colon, parse_key, array_next, object_next,
  parse_number,
}

module _ {ℓ} {A : Type ℓ} where
  pub Ends-weaken : {t n m : ℕ} {r : Run A} → n ≤ m → Ends t n r → Ends t m r
  Ends-weaken l (done h k) = done h (omega arith)
  Ends-weaken l (failed h) = failed h

  pub Ends-if :
      (b : Bool) {t n : ℕ} {x y : Run A}
      → (b ≡ true → Ends t n x)
      → (b ≡ false → Ends t n y)
      → Ends t n (if b then x else y)
  Ends-if true hx hy = hx refl
  Ends-if false hx hy = hy refl

  pub Ends-bind {κ} :
      {B : Type κ} {t n m : ℕ} (r : Run B) (f : B → Context → Run A)
      → Ends t n r
      → ((b : B) (c : Context) → c.top ≡ t → length c.json < n → Ends t m (f b c))
      → Ends t m (bind r f)
  Ends-bind (ok b c) f (done h k) g = g b c h k
  Ends-bind (err x c) f (failed h) g = failed h
  Ends-bind fault f h g = elim h [ ]
  Ends-bind out_of_fuel f h g = elim h [ ]

  -- The unwinding loop frees what is there.
  pub unwind-Ends :
      (width size t n : ℕ) (r : ParseResult) (c : Context)
      → c.top ≡ t + size * width
      → Ends {A = A} t n (unwind width size r c)
  unfolding unwind
  unwind-Ends width zero t n r c h = failed (omega arith)
  unwind-Ends width (suc k) t n r c h =
      let e : c.top ≡ t + k * width + width = grind arith in
      rw (le→leb width c.top (omega arith))
        (unwind-Ends width k t n r (record c { top = c.top - width }) (omega arith))

pub skip-le : (p : List ℕ) → length (skip_whitespace p) ≤ length p
unfolding skip_whitespace
skip-le [] = omega arith
skip-le (x ∷ p) = ground (arith, skip-le p)

advance-le : (p : List ℕ) → length (advance p) ≤ length p
advance-le [] = omega arith
advance-le (x ∷ p) = omega arith

advance-lt : (p : List ℕ) (b : ℕ) → (peek p == suc b) ≡ true → length (advance p) < length p
advance-lt [] b h = absurd (ground arith)
advance-lt (x ∷ p) b h = omega arith

match_literal-le : (ls p q : List ℕ) → match_literal ls p ≡ some q → length q ≤ length p
unfolding match_literal
match_literal-le [] p q h = ground arith
match_literal-le (l ∷ ls) p q h = ground (arith, match_literal-le ls (advance p) q, advance-le p)

digits-pos : (w : Whole) → 0 < length (whole_text w)
digits-pos zero_digit = omega arith
digits-pos (digits d ds) = omega arith

number_text-pos : (f : NumberForm) → 0 < length (number_text f)
number_text-pos f =
    let sign = if f.negative then b'-' ∷ [] else [] in
    let front = sign ++ whole_text f.whole in
    omega (
      arith,
      digits-pos f.whole,
      length-append sign (whole_text f.whole),
      length-append front (fraction_text f.fraction),
      length-append (front ++ fraction_text f.fraction) (exponent_text f.exponent),
    )

scan_number-lt : (p q : List ℕ) → scan_number p ≡ some q → length q < length p
scan_number-lt p q h =
    let (f, ok_f, e) = scan_number_sound p q h in
    omega (arith, ap length e, length-append (number_text f) q, number_text-pos f)

-- A comma or a closing bracket has been read.
abbrev NextLt : ℕ → Next → Type 0
NextLt n (comma p) = length p < n
NextLt n (closing p) = length p < n
NextLt n other = Unit {0}

next-lt : (b : ℕ) (p : List ℕ) → NextLt (length p) (next (suc b) p)
unfolding next
next-lt b p = ground (arith, advance-lt p b, advance-lt p 43, skip-le (advance p))

module _ {N : Type 0} where
  pub parse_literal-Ends :
      (t l : ℕ) (p ls : List ℕ) (v : Value N)
      → Ends t (length (l ∷ p)) (parse_literal (record { json = l ∷ p; top = t }) l ls v)
  unfolding parse_literal
  parse_literal-Ends t l p ls v = elim (Option-cases (match_literal ls p)) [
    | inl e ↦ rw (==_refl l, parse_literal, e) (failed refl)
    | inr (q, e) ↦
        let le = match_literal-le ls p q e in
        rw (==_refl l, parse_literal, e) (done refl (omega arith))
  ]

  pub parse_string-Ends :
      (t : ℕ) (p : List ℕ)
      → Ends t (length (b'"' ∷ p)) (parse_string {N = N} (record { json = b'"' ∷ p; top = t }))
  unfolding parse_string
  parse_string-Ends t p =
      Ends-bind (parse_string_raw (record { json = b'"' ∷ p; top = t })) _
        (parse_string_raw-Settles p t) λ s c h k. done h k

  pub parse_array-Ends :
      (t : ℕ) (p : List ℕ) (loop : Context → Run (Value N))
      → ((q : List ℕ)
          → length q ≤ length p
          → Ends t (length q) (loop (record { json = q; top = t })))
      → Ends t (length (b'[' ∷ p)) (parse_array loop (record { json = b'[' ∷ p; top = t }))
  unfolding parse_array
  parse_array-Ends t p loop h =
      Ends-if (peek (skip_whitespace p) == b']')
        (λ e. done refl (omega (arith, skip-le p, advance-lt (skip_whitespace p) 92 e)))
        (λ e. Ends-weaken (omega (arith, skip-le p)) (h (skip_whitespace p) (skip-le p)))

  pub parse_object-Ends :
      (t : ℕ) (p : List ℕ) (loop : Context → Run (Value N))
      → ((q : List ℕ)
          → length q ≤ length p
          → Ends t (length q) (loop (record { json = q; top = t })))
      → Ends t (length (b'{' ∷ p)) (parse_object loop (record { json = b'{' ∷ p; top = t }))
  unfolding parse_object
  parse_object-Ends t p loop h =
      Ends-if (peek (skip_whitespace p) == b'}')
        (λ e. done refl (omega (arith, skip-le p, advance-lt (skip_whitespace p) 124 e)))
        (λ e. Ends-weaken (omega (arith, skip-le p)) (h (skip_whitespace p) (skip-le p)))

  pub array_next-Ends :
      (loop : ℕ → Items N → Context → Run (Value N)) (size : ℕ) (xs : Items N) (c : Context)
      (t n : ℕ)
      → c.top ≡ t + size * sizeof_value
      → length c.json < n
      → ((q : List ℕ)
          → length q < length c.json
          → Ends t n (loop size xs (record { json = q; top = c.top })))
      → Ends t n (array_next loop size xs c)
  unfolding array_next
  array_next-Ends loop size xs c t n h k ih = go (next b']' (skip_whitespace c.json)) refl
    where
      go :
          (x : Next) → next b']' (skip_whitespace c.json) ≡ x → Ends t n (array_next loop size xs c)
      go (comma p) e =
          let lt = rw e at (next-lt 92 (skip_whitespace c.json)) in
          rw (e, array_next) (ih p (omega (arith, skip-le c.json)))
      go (closing p) e =
          let lt = rw e at (next-lt 92 (skip_whitespace c.json)) in
          rw (e, array_next, le→leb (size * sizeof_value) c.top (omega arith))
            (done (omega arith) (omega (arith, skip-le c.json)))
      go other e =
          rw (e, array_next) (unwind-Ends sizeof_value size t n miss_comma_or_square_bracket _ h)

  pub object_next-Ends :
      (loop : ℕ → Members N → Context → Run (Value N)) (size : ℕ) (ms : Members N) (c : Context)
      (t n : ℕ)
      → c.top ≡ t + size * sizeof_member
      → length c.json < n
      → ((q : List ℕ)
          → length q < length c.json
          → Ends t n (loop size ms (record { json = q; top = c.top })))
      → Ends t n (object_next loop size ms c)
  unfolding object_next
  object_next-Ends loop size ms c t n h k ih = go (next b'}' (skip_whitespace c.json)) refl
    where
      go :
          (x : Next)
          → next b'}' (skip_whitespace c.json) ≡ x
          → Ends t n (object_next loop size ms c)
      go (comma p) e =
          let lt = rw e at (next-lt 124 (skip_whitespace c.json)) in
          rw (e, object_next) (ih p (omega (arith, skip-le c.json)))
      go (closing p) e =
          let lt = rw e at (next-lt 124 (skip_whitespace c.json)) in
          rw (e, object_next, le→leb (size * sizeof_member) c.top (omega arith))
            (done (omega arith) (omega (arith, skip-le c.json)))
      go other e =
          rw (e, object_next) (unwind-Ends sizeof_member size t n miss_comma_or_curly_bracket _ h)

  pub parse_number-Ends :
      (d : Double N) (t : ℕ) (p : List ℕ)
      → Ends t (length p) (parse_number d (record { json = p; top = t }))
  unfolding parse_number
  parse_number-Ends d t p = elim (Option-cases (scan_number p)) [
    | inl e ↦ rw (e, parse_number) (failed refl)
    | inr (q, e) ↦
        rw (e, parse_number)
          (Ends-if (d.strtod p).1 (λ _. failed refl) (λ _. done refl (scan_number-lt p q e)))
  ]

parse_colon-Ends :
    (k : List ℕ) (c : Context) (t n : ℕ)
    → c.top ≡ t
    → length c.json < n
    → Ends t n (parse_colon k c)
unfolding parse_colon
parse_colon-Ends k c t n h l =
    let p = skip_whitespace c.json in
    Ends-if (peek p == b':')
      (λ e. done h (omega (arith, skip-le c.json, skip-le (advance p), advance-lt p 57 e)))
      (λ e. failed h)

pub parse_key-Ends :
    (t : ℕ) (p : List ℕ) → Ends t (length p) (parse_key (record { json = p; top = t }))
unfolding parse_key
parse_key-Ends t [] = failed refl
parse_key-Ends t (x ∷ p) = Ends-if (x == b'"') quoted (λ e. failed refl)
  where
    quoted :
        (x == b'"') ≡ true
        → Ends t
            (length (x ∷ p))
            (bind (parse_string_raw (record { json = x ∷ p; top = t })) parse_colon)
    quoted e =
        let quote : x ≡ b'"' = (==_iff x b'"').0 e in
        rw quote (
          Ends-bind (parse_string_raw (record { json = b'"' ∷ p; top = t })) parse_colon
            (parse_string_raw-Settles p t) λ k c. parse_colon-Ends k c t (length (b'"' ∷ p)))
