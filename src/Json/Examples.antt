-- ===== src/Json/Examples.antt =====
-- MyJson/tutorial08: tests, and each theorem on the JSON library at a concrete input, with
-- one-digit numbers for `double`.
use cpp_library.Base.{
  ==_refl, ==_iff, ℕ, zero, suc, ◌+◌, ◌-◌, ◌<◌, ◌≤◌, ◌≡◌, ◌⊎◌, inl, refl, ap, true, false, none,
  some, List, [], ◌∷◌, ◌++◌, ◌==◌, arith,
}
use cpp_library.Json.Syntax.{
  Value, Items, Members, null, true_value, number, string, array, object, no_items, item,
  no_members, member, Double, ParseResult, length_items, length_members,
}
use cpp_library.Json.Buffer
use cpp_library.Json.Buffer.{Buffer}
use cpp_library.Json.Buffer.Laws.{push-IsValid, pop-push}
use cpp_library.Json.Buffer.Laws
use cpp_library.Json.Scan.{
  peek, scan_number, scan_sign, scan_whole, scan_digits, scan_some_digits, scan_fraction,
  scan_exponent_sign, scan_exponent,
}
use cpp_library.Json.Scan.Number.{
  NumberForm, number_text, IsNumber, zero_digit, digits, no_fraction, point, no_exponent,
  scan_number-append,
}
use cpp_library.Json.Scan.Sound.{scan_number_sound}
use cpp_library.Json.Run.{ok, err, Context, Settles}
use cpp_library.Json.Text.{encode_utf8, parse_string_raw, stringify_string}
use cpp_library.Json.Text.Utf8.{decode_utf8, decode_utf8-encode_utf8}
use cpp_library.Json.Text.Total.{parse_string_raw-Settles}
use cpp_library.Json.Text.RoundTrip.{parse_string_raw-stringify_string}
use cpp_library.Json.Parse.{lept_parse}
use cpp_library.Json.Parse.Total.{lept_parse_total}
use cpp_library.Json.Print.{lept_stringify}
use cpp_library.Json.Print.Starts.{NumberLaws, AllFinite}
use cpp_library.Json.Print.Reads.{strip}
use cpp_library.Json.Print.RoundTrip.{lept_parse-lept_stringify}
use cpp_library.Json.Equal.{is_equal, copy, copy_items, same_bytes, memcmp_zero}
use cpp_library.Json.Equal.Laws.{EqualLaws, is_equal_lem}
use cpp_library.Json.Array.{insert_array_element}
use cpp_library.Json.Array.Laws.{insert_array_element-undefined}
use cpp_library.Json.Object.{shrink_object, find_object_index, find_key}
use cpp_library.Json.Object.Laws.{shrink_object-loses}

-- One-digit numbers
abbrev digit_double : Double ℕ
digit_double = record {
  strtod = λ p. (peek p - 48, false);
  sprintf_17g = λ n. (48 + n) ∷ [];
  num_eq = λ m n. m == n;
}

abbrev IsDigit : ℕ → Type 0
IsDigit n = n < 10

abbrev digit_form : ℕ → NumberForm
digit_form zero = record {
  negative = false;
  whole = zero_digit;
  fraction = no_fraction;
  exponent = no_exponent;
}
digit_form (suc n) = record {
  negative = false;
  whole = digits (48 + suc n) [];
  fraction = no_fraction;
  exponent = no_exponent;
}

digit_formed : (n : ℕ) → IsDigit n → IsNumber (digit_form n)
digit_formed zero h = record { whole_ok = tt; fraction_ok = tt; exponent_ok = tt }
digit_formed (suc n) h = record {
  whole_ok = (ground arith, tt);
  fraction_ok = tt;
  exponent_ok = tt;
}

digit_written : (n : ℕ) → IsDigit n → digit_double.sprintf_17g n ≡ number_text (digit_form n)
digit_written zero h = refl
digit_written (suc n) h = refl

IsDigit-laws : NumberLaws digit_double IsDigit
IsDigit-laws = record {
  form = digit_form;
  formed = digit_formed;
  written = digit_written;
  read = λ n rest h e. ap (λ (x : ℕ). (x, false)) (omega arith);
}

-- {"a":[7,null,"x"]}
abbrev sample : Value ℕ
sample = object none (
    member (97 ∷ []) (array none (item (number 7) (item null (item (string (120 ∷ [])) no_items))))
      no_members)

sample-AllFinite : AllFinite IsDigit sample
sample-AllFinite = ((omega arith, (tt, (tt, tt))), tt)

lept_parse-lept_stringify_example :
    lept_parse digit_double (lept_stringify digit_double sample)
    ≡ ok (strip sample) (record { json = []; top = 0 })
lept_parse-lept_stringify_example = lept_parse-lept_stringify IsDigit-laws sample sample-AllFinite

IsDigit-EqualLaws : EqualLaws digit_double IsDigit
IsDigit-EqualLaws = record { itself = λ n h. ==_refl n; same = λ m n a b e. (==_iff m n).0 e }

-- `sample` with a capacity
abbrev sized : Value ℕ
sized = object (some 1) (
    member (97 ∷ [])
      (array (some 4) (item (number 7) (item null (item (string (120 ∷ [])) no_items)))) no_members)

is_equal_lem_example :
    (is_equal digit_double sample sized ≡ true → strip sample ≡ strip sized)
    × (strip sample ≡ strip sized → is_equal digit_double sample sized ≡ true)
is_equal_lem_example = is_equal_lem IsDigit-EqualLaws sample sized sample-AllFinite sample-AllFinite

-- [7,
abbrev cut_text : List ℕ
cut_text = b'[' ∷ b'7' ∷ b',' ∷ []

lept_parse_total_example :
    ((v : Value ℕ) × (c : Context) × (lept_parse digit_double cut_text ≡ ok v c))
    ⊎ ((x : ParseResult) × (c : Context) × (lept_parse digit_double cut_text ≡ err x c))
lept_parse_total_example = lept_parse_total digit_double cut_text

parse_string_raw-stringify_string_example :
    parse_string_raw
      (record { json = stringify_string (97 ∷ 34 ∷ 10 ∷ 1 ∷ []) ++ b',' ∷ []; top = 3 })
    ≡ ok (97 ∷ 34 ∷ 10 ∷ 1 ∷ []) (record { json = b',' ∷ []; top = 3 })
parse_string_raw-stringify_string_example =
    parse_string_raw-stringify_string (97 ∷ 34 ∷ 10 ∷ 1 ∷ []) (b',' ∷ []) 3

abbrev two_bytes : List ℕ
two_bytes = 97 ∷ 1 ∷ []

parse_string_raw-Settles_example :
    Settles
      (record { json = b'"' ∷ 97 ∷ b'\\' ∷ []; top = 3 })
      (parse_string_raw (record { json = b'"' ∷ 97 ∷ b'\\' ∷ []; top = 3 }))
parse_string_raw-Settles_example = parse_string_raw-Settles (97 ∷ b'\\' ∷ []) 3

decode_utf8-encode_utf8_example :
    (bs : List ℕ) × (encode_utf8 0x1D11E ≡ some bs)
    × (decode_utf8 (bs ++ 97 ∷ []) ≡ some (0x1D11E, 97 ∷ []))
decode_utf8-encode_utf8_example = decode_utf8-encode_utf8 0x1D11E (97 ∷ []) (omega arith)

-- 2.5
abbrev two_and_a_half : NumberForm
two_and_a_half = record {
  negative = false;
  whole = digits 50 [];
  fraction = point 53 [];
  exponent = no_exponent;
}

scan_number-append_example :
    scan_number (number_text two_and_a_half ++ b',' ∷ []) ≡ some (b',' ∷ [])
scan_number-append_example =
    scan_number-append two_and_a_half (b',' ∷ [])
      (record { whole_ok = (refl, tt); fraction_ok = (refl, tt); exponent_ok = tt })
      (refl, refl, refl, refl)

scanned : scan_number (50 ∷ 46 ∷ 53 ∷ b',' ∷ []) ≡ some (b',' ∷ [])
unfolding scan_number scan_sign scan_whole scan_digits scan_some_digits scan_fraction
    scan_exponent_sign scan_exponent
scanned = refl

scan_number_sound_example :
    (f : NumberForm) × IsNumber f × ((50 ∷ 46 ∷ 53 ∷ b',' ∷ []) ≡ number_text f ++ b',' ∷ [])
scan_number_sound_example = scan_number_sound (50 ∷ 46 ∷ 53 ∷ b',' ∷ []) (b',' ∷ []) scanned

push-IsValid_example :
    (b' : Buffer) × (Buffer.push 9 (7 ∷ 8 ∷ []) (record { bytes = []; size = 0 }) ≡ some b')
    × (b'.bytes ≡ 7 ∷ 8 ∷ [])
    × (Buffer.top b' < b'.size)
    × (0 ≤ b'.size)
    × Laws.IsValid b'
push-IsValid_example =
    push-IsValid 9 (7 ∷ 8 ∷ []) (record { bytes = []; size = 0 })
      (record { sized = inl refl; fits = omega arith }) (omega arith) (omega arith)

pushed :
    Buffer.push 9 (7 ∷ 8 ∷ []) (record { bytes = 1 ∷ []; size = 4 })
    ≡ some (record { bytes = 1 ∷ 7 ∷ 8 ∷ []; size = 4 })
unfolding Buffer.push
pushed = refl

-- [[],null]
abbrev two_items : Items ℕ
two_items = item (array (some 3) no_items) (item null no_items)

-- A string goes to zeroed memory, and in an array it does not go to memory never written.
string_copied : copy {N = ℕ} true (string (120 ∷ [])) ≡ some (string (120 ∷ []))
unfolding copy
string_copied = refl

string_in_array : copy {N = ℕ} true (array (some 1) (item (string (120 ∷ [])) no_items)) ≡ none
unfolding copy copy_items
string_in_array = refl

two_fit : length_items two_items ≤ 2
unfolding length_items
two_fit = omega arith

one_inside : 1 ≤ length_items two_items
unfolding length_items
one_inside = omega arith

insert_array_element-undefined_example : insert_array_element 1 (array (some 2) two_items) ≡ none
insert_array_element-undefined_example =
    insert_array_element-undefined 1 (some 2) two_items one_inside

-- {"k":true,"b":null}
abbrev two_members : Members ℕ
two_members = member (107 ∷ []) true_value (member (98 ∷ []) null no_members)

found : find_object_index (98 ∷ []) (object none two_members) ≡ some 1
unfolding find_object_index find_key same_bytes memcmp_zero
found = refl

shrink_object-loses_example :
    (length_members two_members ≤ 128
      → shrink_object (object none two_members) ≡ some (object none two_members))
    × (128 < length_members two_members
        → (ns : Members ℕ) × (shrink_object (object none two_members) ≡ some (object none ns))
          × (length_members ns < length_members two_members))
shrink_object-loses_example = shrink_object-loses none two_members
