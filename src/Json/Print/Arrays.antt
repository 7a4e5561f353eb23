-- ===== src/Json/Print/Arrays.antt =====
-- Arrays: the parser on what the generator prints.
use cpp_library.Base.{
  ℕ, zero, suc, ◌+◌, ◌-◌, ◌*◌, ◌<◌, ◌≡◌, refl, ◌∙◌, ap, true, false, Option, none, List, [], ◌∷◌,
  ◌++◌, ◌==◌, length, le→leb, arith, append_assoc, length-append,
}
use cpp_library.Json.Syntax.{Value, Items, array, no_items, item, Double, append_items}
use cpp_library.Json.Scan.{peek, skip_whitespace}
use cpp_library.Json.Run.{Context, Run, ok, push}
use cpp_library.Json.Parse.{
  sizeof_value, add_item, parse_array, next, array_next, parse_value, array_loop,
}
use cpp_library.Json.Print.{stringify_value, stringify_items}
use cpp_library.Json.Print.Starts.{
  Delimited, NumberLaws, AllFinite, is_start, skip_whitespace-start, stringify_value-start,
}
use cpp_library.Json.Print.Reads.{strip, strip_items, append_items_assoc, at, Reads, next-comma}

module _ {N : Type 0} {d : Double N} {IsFinite : N → Type 0} (laws : NumberLaws d IsFinite) where
  -- What stands behind an element: the further elements, the bracket and the rest.
  abbrev pub items_tail : Items N → List ℕ → List ℕ
  items_tail xs rest = stringify_items d false xs ++ b']' ∷ rest

  items_tail-Delimited : (xs : Items N) (rest : List ℕ) → Delimited (items_tail xs rest)
  unfolding stringify_value
  items_tail-Delimited no_items rest = refl
  items_tail-Delimited (item v xs) rest = refl

  items_tail-item :
      (w : Value N) (ys : Items N) (rest : List ℕ)
      → items_tail (item w ys) rest ≡ b',' ∷ (stringify_value d w ++ items_tail ys rest)
  unfolding stringify_items
  items_tail-item w ys rest =
      ap (◌∷◌ b',') (append_assoc (stringify_value d w) (stringify_items d false ys) (b']' ∷ rest))

  length-items-item :
      (w : Value N) (ys : Items N)
      → length (stringify_items d false (item w ys))
        ≡ 1 + length (stringify_value d w) + length (stringify_items d false ys)
  unfolding stringify_items
  length-items-item w ys =
      omega (arith, length-append (stringify_value d w) (stringify_items d false ys))

  array_loop_step :
      (f size : ℕ) (acc : Items N) (c : Context) (e : Value N) (c' : Context)
      → parse_value d f c ≡ ok e c'
      → array_loop d (suc f) size acc c
        ≡ array_next (array_loop d f) (size + 1) (add_item acc e) (push sizeof_value c')
  unfolding array_loop
  array_loop_step f size acc c e c' h = rw (h, array_loop)

  array_next-closing :
      (loop : ℕ → Items N → Context → Run (Value N)) (size t : ℕ) (xs : Items N) (rest : List ℕ)
      → array_next loop
          (size + 1)
          xs
          (push sizeof_value (at (b']' ∷ rest) (t + size * sizeof_value)))
        ≡ ok (array none xs) (at rest t)
  unfolding array_next next skip_whitespace
  array_next-closing loop size t xs rest =
      let high = t + size * sizeof_value + sizeof_value in
      let room = le→leb ((size + 1) * sizeof_value) high (omega arith) in
      let back : high - (size + 1) * sizeof_value ≡ t = omega arith in rw (room, back)

  array_next-comma :
      (loop : ℕ → Items N → Context → Run (Value N)) (size t : ℕ) (xs : Items N) (w : Value N)
      (rest : List ℕ)
      → AllFinite IsFinite w
      → array_next loop
          (size + 1)
          xs
          (push sizeof_value (at (b',' ∷ (stringify_value d w ++ rest)) (t + size * sizeof_value)))
        ≡ loop (size + 1) xs (at (stringify_value d w ++ rest) (t + (size + 1) * sizeof_value))
  unfolding array_next skip_whitespace
  array_next-comma loop size t xs w rest h =
      let high : t + size * sizeof_value + sizeof_value ≡ t + (size + 1) * sizeof_value =
        omega arith in
      rw (next-comma laws b']' w rest h, array_next, high)

  -- The loop reads `v` and then `xs`, and takes what it has pushed off the stack.
  abbrev pub LoopReads : Value N → Items N → Type 0
  LoopReads v xs =
      (rest : List ℕ) (t f size : ℕ) (acc : Items N)
      → 2 * (length (stringify_value d v) + length (stringify_items d false xs)) + 1 < f
      → array_loop d f size acc
          (at (stringify_value d v ++ items_tail xs rest) (t + size * sizeof_value))
        ≡ ok (array none (append_items acc (item (strip v) (strip_items xs)))) (at rest t)

  pub loop_last : (v : Value N) → Reads laws v → LoopReads v no_items
  unfolding strip stringify_items
  loop_last v r rest t zero size acc k = absurd (omega arith)
  loop_last v r rest t (suc f) size acc k =
      array_loop_step f size acc _ (strip v) _ (
        r (items_tail no_items rest) (t + size * sizeof_value) f
          (items_tail-Delimited no_items rest) (omega arith))
      ∙ array_next-closing (array_loop d f) size t (add_item acc (strip v)) rest

  strip_more :
      (acc : Items N) (v w : Value N) (ys : Items N)
      → append_items (add_item acc (strip v)) (item (strip w) (strip_items ys))
        ≡ append_items acc (item (strip v) (strip_items (item w ys)))
  unfolding strip append_items
  strip_more acc v w ys =
      append_items_assoc acc (item (strip v) no_items) (item (strip w) (strip_items ys))

  pub loop_more :
      (v w : Value N) (ys : Items N)
      → AllFinite IsFinite w
      → Reads laws v
      → LoopReads w ys
      → LoopReads v (item w ys)
  loop_more v w ys h r ih rest t zero size acc k = absurd (omega arith)
  loop_more v w ys h r ih rest t (suc f) size acc k =
      array_loop_step f size acc _ (strip v)
        (at (items_tail (item w ys) rest) (t + size * sizeof_value))
        (r (items_tail (item w ys) rest) (t + size * sizeof_value) f
          (items_tail-Delimited (item w ys) rest) (omega arith))
      ∙ ap
          (λ p.
            array_next (array_loop d f) (size + 1) (add_item acc (strip v))
              (push sizeof_value (at p (t + size * sizeof_value))))
          (items_tail-item w ys rest)
      ∙ array_next-comma (array_loop d f) size t (add_item acc (strip v)) w (items_tail ys rest) h
      ∙ ih rest t f (size + 1) (add_item acc (strip v)) (omega (arith, length-items-item w ys))
      ∙ ap (λ xs. ok (array none xs) (at rest t)) (strip_more acc v w ys)

  dispatch_array :
      (f t : ℕ) (p : List ℕ)
      → parse_value d (suc f) (at (b'[' ∷ p) t)
        ≡ parse_array (array_loop d f 0 no_items) (at (b'[' ∷ p) t)
  unfolding parse_value
  dispatch_array f t p = refl

  parse_array-start :
      (loop : Context → Run (Value N)) (p : List ℕ) (t : ℕ)
      → is_start (peek p) ≡ true
      → parse_array loop (at (b'[' ∷ p) t) ≡ loop (at p t)
  unfolding parse_array
  parse_array-start loop p t h =
      let same = skip_whitespace-start p h in
      let open_bracket : (peek p == b']') ≡ false = ground arith in
      rw (same, parse_array, open_bracket)

  pub Reads-array_empty : (c : Option ℕ) → Reads laws (array c no_items)
  unfolding stringify_value strip parse_value parse_array skip_whitespace
  Reads-array_empty c rest t zero e k = absurd (omega arith)
  Reads-array_empty c rest t (suc f) e k = refl

  array_text :
      (c : Option ℕ) (v : Value N) (xs : Items N) (rest : List ℕ)
      → stringify_value d (array c (item v xs)) ++ rest
        ≡ b'[' ∷ (stringify_value d v ++ items_tail xs rest)
  unfolding stringify_value
  array_text c v xs rest = ap (◌∷◌ b'[') (simp append_assoc)

  length-array_text :
      (c : Option ℕ) (v : Value N) (xs : Items N)
      → length (stringify_value d (array c (item v xs)))
        ≡ 2 + length (stringify_value d v) + length (stringify_items d false xs)
  unfolding stringify_value
  length-array_text c v xs = omega (
    arith,
    length-append (stringify_value d v ++ stringify_items d false xs) (b']' ∷ []),
    length-append (stringify_value d v) (stringify_items d false xs),
  )

  strip_array :
      (c : Option ℕ) (v : Value N) (xs : Items N) (rest : List ℕ) (t : ℕ)
      → ok (array none (append_items no_items (item (strip v) (strip_items xs)))) (at rest t)
        ≡ ok (strip (array c (item v xs))) (at rest t)
  unfolding strip append_items
  strip_array c v xs rest t = refl

  pub Reads-array :
      (c : Option ℕ) (v : Value N) (xs : Items N)
      → AllFinite IsFinite v
      → LoopReads v xs
      → Reads laws (array c (item v xs))
  Reads-array c v xs h r rest t zero e k = absurd (omega arith)
  Reads-array c v xs h r rest t (suc f) e k =
      let body = stringify_value d v ++ items_tail xs rest in
      ap (λ p. parse_value d (suc f) (at p t)) (array_text c v xs rest)
      ∙ dispatch_array f t body
      ∙ parse_array-start (array_loop d f 0 no_items) body t
          (stringify_value-start laws v (items_tail xs rest) h)
      ∙ ap (λ n. array_loop d f 0 no_items (at body n)) (omega arith)
      ∙ r rest t f 0 no_items (omega (arith, length-array_text c v xs))
      ∙ strip_array c v xs rest t
