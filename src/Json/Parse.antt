-- ===== src/Json/Parse.antt =====
-- MyJson/tutorial08/leptjson.cpp, the parser: `lept_parse_literal`, `lept_parse_number`,
-- `lept_parse_string`, `lept_parse_array`, `lept_parse_object`, `lept_parse_value`, `lept_parse`.
-- The value handed out is the result of `ok`; on `err` it is LEPT_NULL, as initialised.
pub mod Steps
pub mod Total
use cpp_library.Base.{
  ℕ, zero, suc, ◌+◌, ◌*◌, Bool, true, false, ◌||◌, Option, none, some, List, [], ◌∷◌, ◌==◌,
  if◌then◌else◌, length,
}
use cpp_library.Json.Syntax.{
  Value, Items, Members, null, false_value, true_value, number, string, array, object, no_items,
  item, no_members, member, append_items, append_members, Double, ParseResult, expect_value,
  invalid_value, root_not_singular, number_too_big, miss_comma_or_square_bracket, miss_key,
  miss_colon, miss_comma_or_curly_bracket,
}
use cpp_library.Json.Scan.{peek, advance, skip_whitespace, match_literal, scan_number}
use cpp_library.Json.Run.{Context, Run, ok, err, fault, out_of_fuel, bind, expect, pop, push}
use cpp_library.Json.Text.{parse_string_raw}

-- The literals behind their first bytes.
abbrev pub true_rest : List ℕ
true_rest = b'r' ∷ b'u' ∷ b'e' ∷ []

abbrev pub false_rest : List ℕ
false_rest = b'a' ∷ b'l' ∷ b's' ∷ b'e' ∷ []

abbrev pub null_rest : List ℕ
null_rest = b'u' ∷ b'l' ∷ b'l' ∷ []

-- On a 64-bit target.
abbrev pub sizeof_value : ℕ
sizeof_value = 32

abbrev pub sizeof_member : ℕ
sizeof_member = 48

-- `lept_parse_whitespace`
abbrev pub parse_whitespace : Context → Context
parse_whitespace c = record c { json = skip_whitespace c.json }

-- The loop that pops and frees what an array or an object has pushed, `size` entries of `width`
-- bytes, before it returns the error.
unfoldable pub unwind {ℓ} : {A : Type ℓ} → ℕ → ℕ → ParseResult → Context → Run A
unwind width zero r c = err r c
unwind width (suc n) r c = pop width c λ c'. unwind width n r c'

-- What stands behind an element: a comma and the whitespace behind it, the closing bracket, or
-- something else.
pub data Next : Type 0 where
  comma closing : List ℕ → Next
  other : Next

unfoldable pub next : ℕ → List ℕ → Next
next bracket p =
    if peek p == b','
    then comma (skip_whitespace (advance p))
    else if peek p == bracket
    then closing (advance p)
    else other

-- A colon and the whitespace round it, behind the key `k`.
unfoldable pub parse_colon : List ℕ → Context → Run (List ℕ)
parse_colon k c =
    let d = parse_whitespace c in
    if peek d.json == b':'
    then ok k (parse_whitespace (record d { json = advance d.json }))
    else err miss_colon d

-- A key and its colon.
unfoldable pub parse_key : Context → Run (List ℕ)
parse_key c = if peek c.json == b'"' then bind (parse_string_raw c) parse_colon else err miss_key c

module _ {N : Type 0} where
  -- `lept_parse_literal` for a literal of first byte `l` and further bytes `ls`
  unfoldable pub parse_literal : Context → ℕ → List ℕ → Value N → Run (Value N)
  parse_literal c l ls v = expect l c λ c'. elim (match_literal ls c'.json) [
    | none ↦ err invalid_value c'
    | some p ↦ ok v (record c' { json = p })
  ]

  -- `lept_parse_string`
  unfoldable pub parse_string : Context → Run (Value N)
  parse_string c = bind (parse_string_raw c) λ s c'. ok (string s) c'

  -- `lept_parse_array`, with its loop as an argument; a new array has no capacity yet
  unfoldable pub parse_array : (Context → Run (Value N)) → Context → Run (Value N)
  parse_array loop c = expect b'[' c λ c'.
      let d = parse_whitespace c' in
      if peek d.json == b']'
      then ok (array none no_items) (record d { json = advance d.json })
      else loop d

  -- `lept_parse_object`, in the same way
  unfoldable pub parse_object : (Context → Run (Value N)) → Context → Run (Value N)
  parse_object loop c = expect b'{' c λ c'.
      let d = parse_whitespace c' in
      if peek d.json == b'}'
      then ok (object none no_members) (record d { json = advance d.json })
      else loop d

  -- The end of a round of the array loop: `size` elements on the stack, the last of them `e`.
  unfoldable pub array_next :
      (ℕ → Items N → Context → Run (Value N)) → ℕ → Items N → Context → Run (Value N)
  array_next loop size xs c =
      let d = parse_whitespace c in
      elim (next b']' d.json) [
        | comma p ↦ loop size xs (record d { json = p })
        | closing p ↦ pop (size * sizeof_value) (record d { json = p }) λ c'. ok (array none xs) c'
        | other ↦ unwind sizeof_value size miss_comma_or_square_bracket d
      ]

  unfoldable pub object_next :
      (ℕ → Members N → Context → Run (Value N)) → ℕ → Members N → Context → Run (Value N)
  object_next loop size ms c =
      let d = parse_whitespace c in
      elim (next b'}' d.json) [
        | comma p ↦ loop size ms (record d { json = p })
        | closing p ↦
            pop (size * sizeof_member) (record d { json = p }) λ c'. ok (object none ms) c'
        | other ↦ unwind sizeof_member size miss_comma_or_curly_bracket d
      ]

  abbrev pub add_item : Items N → Value N → Items N
  add_item xs e = append_items xs (item e no_items)

  abbrev pub add_member : Members N → List ℕ → Value N → Members N
  add_member ms k v = append_members ms (member k v no_members)

  module _ (d : Double N) where
    -- `lept_parse_number`; the flag of `strtod` is ERANGE with an infinite result
    unfoldable pub parse_number : Context → Run (Value N)
    parse_number c = elim (scan_number c.json) [
      | none ↦ err invalid_value c
      | some p ↦
          let (n, overflow) = d.strtod c.json in
          if overflow then err number_too_big c else ok (number n) (record c { json = p })
    ]

    -- Each value and each round of a loop costs a unit of fuel.
    unfoldable mutual
      pub parse_value : ℕ → Context → Run (Value N)
      parse_value zero c = out_of_fuel
      parse_value (suc f) c =
          let ch = peek c.json in
          if ch == b't'
          then parse_literal c b't' true_rest true_value
          else if ch == b'f'
          then parse_literal c b'f' false_rest false_value
          else if ch == b'n'
          then parse_literal c b'n' null_rest null
          else if ch == b'"'
          then parse_string c
          else if ch == b'['
          then parse_array (array_loop f 0 no_items) c
          else if ch == b'{'
          then parse_object (object_loop f 0 no_members) c
          else if ch == 0
          then err expect_value c
          else parse_number c

      -- The `for (;;)` of `lept_parse_array`, with `size` elements on the stack.
      pub array_loop : ℕ → ℕ → Items N → Context → Run (Value N)
      array_loop zero size xs c = out_of_fuel
      array_loop (suc f) size xs c = elim (parse_value f c) [
        | ok e c' ↦ array_next (array_loop f) (size + 1) (add_item xs e) (push sizeof_value c')
        | err r c' ↦ unwind sizeof_value size r c'
        | fault ↦ fault
        | out_of_fuel ↦ out_of_fuel
      ]

      -- The `for (;;)` of `lept_parse_object`, with `size` members on the stack.
      pub object_loop : ℕ → ℕ → Members N → Context → Run (Value N)
      object_loop zero size ms c = out_of_fuel
      object_loop (suc f) size ms c = elim (parse_key c) [
        | err r c' ↦ unwind sizeof_member size r c'
        | fault ↦ fault
        | out_of_fuel ↦ out_of_fuel
        | ok k c₁ ↦ elim (parse_value f c₁) [
          | ok v c' ↦
              object_next (object_loop f) (size + 1) (add_member ms k v) (push sizeof_member c')
          | err r c' ↦ unwind sizeof_member size r c'
          | fault ↦ fault
          | out_of_fuel ↦ out_of_fuel
        ]
      ]

    -- The end of `lept_parse`: nothing but whitespace may follow, and `assert(c.top == 0)`.
    unfoldable pub finish : Run (Value N) → Run (Value N)
    finish (ok v c) =
        let c' = parse_whitespace c in
        if c'.top == 0
        then if peek c'.json == 0 then ok v c' else err root_not_singular c'
        else fault
    finish (err r c) = if c.top == 0 then err r c else fault
    finish fault = fault
    finish out_of_fuel = out_of_fuel

    unfoldable pub lept_parse : List ℕ → Run (Value N)
    lept_parse json =
        finish
          (parse_value (2 * length json + 1) (parse_whitespace (record { json = json; top = 0 })))
