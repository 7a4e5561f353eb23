-- ===== src/Json/Print/Reads.antt =====
-- What it is for a printed value to be read back, and the values without parts.
use cpp_library.Base.{
  ℕ, zero, suc, ◌*◌, ◌<◌, ◌≡◌, refl, ◌∙◌, ap, true, none, some, List, ◌∷◌, ◌++◌, length, arith,
}
use cpp_library.Json.Syntax.{
  Value, Items, Members, null, false_value, true_value, number, string, array, object, no_items,
  item, no_members, member, Double, append_items, append_members,
}
use cpp_library.Json.Scan.{peek, scan_number, match_literal}
use cpp_library.Json.Scan.Number.{scan_number-append}
use cpp_library.Json.Run.{Context, ok}
use cpp_library.Json.Text.{stringify_string}
use cpp_library.Json.Text.RoundTrip.{parse_string_raw-stringify_string}
use cpp_library.Json.Parse.{parse_literal, parse_string, next, comma, parse_number, parse_value}
use cpp_library.Json.Print.{stringify_value}
use cpp_library.Json.Print.Starts.{
  Delimited, NumberLaws, AllFinite, is_number_start, skip_whitespace-start, Delimited→EndsNumber,
  number-start, stringify_value-start,
}

-- The value as the parser builds it: the same, with capacity fields that are not written.
module _ {N : Type 0} where
  unfoldable mutual
    pub strip : Value N → Value N
    strip null = null
    strip false_value = false_value
    strip true_value = true_value
    strip (number n) = number n
    strip (string s) = string s
    strip (array _ xs) = array none (strip_items xs)
    strip (object _ ms) = object none (strip_members ms)

    pub strip_items : Items N → Items N
    strip_items no_items = no_items
    strip_items (item v xs) = item (strip v) (strip_items xs)

    pub strip_members : Members N → Members N
    strip_members no_members = no_members
    strip_members (member k v ms) = member k (strip v) (strip_members ms)

  pub append_items_assoc :
      (xs ys zs : Items N)
      → append_items (append_items xs ys) zs ≡ append_items xs (append_items ys zs)
  unfolding append_items
  append_items_assoc no_items ys zs = refl
  append_items_assoc (item x xs) ys zs = ap (item x) (append_items_assoc xs ys zs)

  pub append_members_assoc :
      (xs ys zs : Members N)
      → append_members (append_members xs ys) zs ≡ append_members xs (append_members ys zs)
  unfolding append_members
  append_members_assoc no_members ys zs = refl
  append_members_assoc (member k x xs) ys zs = ap (member k x) (append_members_assoc xs ys zs)

abbrev pub at : List ℕ → ℕ → Context
at p t = record { json = p; top = t }

module _ {N : Type 0} {d : Double N} {IsFinite : N → Type 0} (laws : NumberLaws d IsFinite) where
  -- With fuel above twice the length of its print, the value is read and the rest is left.
  abbrev pub Reads : Value N → Type 0
  Reads v =
      (rest : List ℕ) (t f : ℕ)
      → Delimited rest
      → 2 * length (stringify_value d v) < f
      → parse_value d f (at (stringify_value d v ++ rest) t) ≡ ok (strip v) (at rest t)

  pub dispatch_number :
      (f : ℕ) (c : Context)
      → is_number_start (peek c.json) ≡ true
      → parse_value d (suc f) c ≡ parse_number d c
  unfolding parse_value
  dispatch_number f c h = ground arith

  pub parse_number-sprintf :
      (n : N) (rest : List ℕ) (t : ℕ)
      → IsFinite n
      → Delimited rest
      → parse_number d (at (d.sprintf_17g n ++ rest) t) ≡ ok (number n) (at rest t)
  unfolding parse_number
  parse_number-sprintf n rest t h e =
      let scanned : scan_number (d.sprintf_17g n ++ rest) ≡ some rest =
        ap (λ s. scan_number (s ++ rest)) (laws.written n h)
        ∙ scan_number-append (laws.form n) rest (laws.formed n h) (Delimited→EndsNumber rest e) in
      rw (scanned, parse_number, laws.read n rest h e)

  pub Reads-number : (n : N) → IsFinite n → Reads (number n)
  unfolding stringify_value strip
  Reads-number n h rest t zero e k = absurd (omega arith)
  Reads-number n h rest t (suc f) e k =
      dispatch_number f (at (d.sprintf_17g n ++ rest) t) (number-start laws n rest h)
      ∙ parse_number-sprintf n rest t h e

  pub dispatch_string :
      (f t : ℕ) (s rest : List ℕ)
      → parse_value d (suc f) (at (stringify_string s ++ rest) t)
        ≡ parse_string (at (stringify_string s ++ rest) t)
  unfolding parse_value stringify_string
  dispatch_string f t s rest = refl

  pub parse_string-stringify :
      (s rest : List ℕ) (t : ℕ)
      → parse_string {N = N} (at (stringify_string s ++ rest) t) ≡ ok (string s) (at rest t)
  unfolding parse_string
  parse_string-stringify s rest t = rw (parse_string_raw-stringify_string s rest t)

  pub Reads-string : (s : List ℕ) → Reads (string s)
  unfolding stringify_value strip
  Reads-string s rest t zero e k = absurd (omega arith)
  Reads-string s rest t (suc f) e k = dispatch_string f t s rest ∙ parse_string-stringify s rest t

  pub Reads-null : Reads null
  unfolding stringify_value strip parse_value parse_literal match_literal
  Reads-null rest t zero e k = absurd (omega arith)
  Reads-null rest t (suc f) e k = refl

  pub Reads-true : Reads true_value
  unfolding stringify_value strip parse_value parse_literal match_literal
  Reads-true rest t zero e k = absurd (omega arith)
  Reads-true rest t (suc f) e k = refl

  pub Reads-false : Reads false_value
  unfolding stringify_value strip parse_value parse_literal match_literal
  Reads-false rest t zero e k = absurd (omega arith)
  Reads-false rest t (suc f) e k = refl

  pub next-comma :
      (b : ℕ) (v : Value N) (rest : List ℕ)
      → AllFinite IsFinite v
      → next b (b',' ∷ (stringify_value d v ++ rest)) ≡ comma (stringify_value d v ++ rest)
  unfolding next
  next-comma b v rest h =
      ap comma
        (skip_whitespace-start (stringify_value d v ++ rest) (stringify_value-start laws v rest h))
