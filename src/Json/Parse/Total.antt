-- ===== src/Json/Parse/Total.antt =====
-- How the parser comes to an end: its assertions, its fuel and the stack.
use mathlib.Core.Path.{subst}
use cpp_library.Base.{
  ℕ, zero, suc, ◌+◌, ◌*◌, ◌<◌, ◌≡◌, refl, sym, true, List, [], ◌∷◌, ◌==◌, ◌⊎◌, inl, inr, length,
  arith, Bool-cases, ==_iff,
}
use cpp_library.Json.Syntax.{
  Value, Items, Members, null, false_value, true_value, no_items, no_members, Double, ParseResult,
  root_not_singular,
}
use cpp_library.Json.Scan.{peek, skip_whitespace}
use cpp_library.Json.Run.{Context, Run, ok, err, fault, out_of_fuel, Ends, done, failed, push}
use cpp_library.Json.Parse.{
  true_rest, false_rest, null_rest, sizeof_value, sizeof_member, unwind, parse_literal, add_item,
  add_member, parse_string, parse_array, parse_object, parse_key, array_next, object_next,
  parse_value, array_loop, object_loop, finish, lept_parse,
}
use cpp_library.Json.Parse.Steps.{
  Ends-weaken, Ends-if, unwind-Ends, parse_literal-Ends, parse_string-Ends, parse_array-Ends,
  parse_object-Ends, array_next-Ends, object_next-Ends, parse_number-Ends, parse_key-Ends, skip-le,
}

abbrev at : List ℕ → ℕ → Context
at p t = record { json = p; top = t }

base : (t k : ℕ) → t + 0 * k ≡ t
base t k = omega arith

module _ {N : Type 0} (d : Double N) where
  -- Where a byte is tested for, it is there.
  first :
      (b t : ℕ) (p : List ℕ) (r : Context → Run (Value N))
      → (peek p == suc b) ≡ true
      → ((q : List ℕ) → length q < length p → Ends t (length (suc b ∷ q)) (r (at (suc b ∷ q) t)))
      → Ends t (length p) (r (at p t))
  first b t [] r e h = absurd (ground arith)
  first b t (x ∷ p) r e h =
      let same : x ≡ suc b = (==_iff x (suc b)).0 e in rw same (h p (omega arith))

  array_step :
      (f size t n : ℕ) (xs : Items N) (r : Run (Value N))
      → Ends (t + size * sizeof_value) n r
      → ((ys : Items N) (q : List ℕ)
          → length q < n
          → Ends t n (array_loop d f (size + 1) ys (at q (t + (size + 1) * sizeof_value))))
      → Ends t n (elim r [
        | ok e c' ↦ array_next (array_loop d f) (size + 1) (add_item xs e) (push sizeof_value c')
        | err x c' ↦ unwind sizeof_value size x c'
        | fault ↦ fault
        | out_of_fuel ↦ out_of_fuel
      ])
  array_step f size t n xs (ok e c) (done h k) ih =
      let high : c.top + sizeof_value ≡ t + (size + 1) * sizeof_value = omega arith in
      array_next-Ends (array_loop d f) (size + 1) (add_item xs e) (push sizeof_value c) t n high k
        λ q l. rw high (ih (add_item xs e) q (omega arith))
  array_step f size t n xs (err x c) (failed h) ih = unwind-Ends sizeof_value size t n x c h
  array_step f size t n xs fault h ih = elim h [ ]
  array_step f size t n xs out_of_fuel h ih = elim h [ ]

  object_value_step :
      (f size t n : ℕ) (ms : Members N) (k : List ℕ) (r : Run (Value N))
      → Ends (t + size * sizeof_member) n r
      → ((ys : Members N) (q : List ℕ)
          → length q < n
          → Ends t n (object_loop d f (size + 1) ys (at q (t + (size + 1) * sizeof_member))))
      → Ends t n (elim r [
        | ok v c' ↦
            object_next (object_loop d f) (size + 1) (add_member ms k v) (push sizeof_member c')
        | err x c' ↦ unwind sizeof_member size x c'
        | fault ↦ fault
        | out_of_fuel ↦ out_of_fuel
      ])
  object_value_step f size t n ms k (ok v c) (done h l) ih =
      let high : c.top + sizeof_member ≡ t + (size + 1) * sizeof_member = omega arith in
      object_next-Ends (object_loop d f) (size + 1) (add_member ms k v) (push sizeof_member c) t n
        high l λ q m. rw high (ih (add_member ms k v) q (omega arith))
  object_value_step f size t n ms k (err x c) (failed h) ih =
      unwind-Ends sizeof_member size t n x c h
  object_value_step f size t n ms k fault h ih = elim h [ ]
  object_value_step f size t n ms k out_of_fuel h ih = elim h [ ]

  object_step :
      (f size t n : ℕ) (ms : Members N) (r : Run (List ℕ))
      → Ends (t + size * sizeof_member) n r
      → ((q : List ℕ)
          → length q < n
          → Ends (t + size * sizeof_member) n (parse_value d f (at q (t + size * sizeof_member))))
      → ((ys : Members N) (q : List ℕ)
          → length q < n
          → Ends t n (object_loop d f (size + 1) ys (at q (t + (size + 1) * sizeof_member))))
      → Ends t n (elim r [
        | err x c' ↦ unwind sizeof_member size x c'
        | fault ↦ fault
        | out_of_fuel ↦ out_of_fuel
        | ok k c₁ ↦ elim (parse_value d f c₁) [
          | ok v c' ↦
              object_next (object_loop d f) (size + 1) (add_member ms k v) (push sizeof_member c')
          | err x c' ↦ unwind sizeof_member size x c'
          | fault ↦ fault
          | out_of_fuel ↦ out_of_fuel
        ]
      ])
  object_step f size t n ms (ok k c) (done h l) iv ih =
      object_value_step f size t n ms k (parse_value d f c) (value c h l) ih
    where
      value :
          (c : Context)
          → c.top ≡ t + size * sizeof_member
          → length c.json < n
          → Ends (t + size * sizeof_member) n (parse_value d f c)
      value c h l =
          subst (λ x. Ends (t + size * sizeof_member) n (parse_value d f (at c.json x))) (sym h)
            (iv c.json l)
  object_step f size t n ms (err x c) (failed h) iv ih = unwind-Ends sizeof_member size t n x c h
  object_step f size t n ms fault h iv ih = elim h [ ]
  object_step f size t n ms out_of_fuel h iv ih = elim h [ ]

  mutual
    unfolding parse_value

    value-Ends :
        (f t : ℕ) (p : List ℕ) → 2 * length p < f → Ends t (length p) (parse_value d f (at p t))
    value-Ends zero t p h = absurd (omega arith)
    value-Ends (suc f) t p h =
        Ends-if (peek p == b't')
          (λ e.
            first 115 t p (λ c. parse_literal c b't' true_rest true_value) e
              λ q l. parse_literal-Ends t b't' q true_rest true_value)
          λ _.
            Ends-if (peek p == b'f')
              (λ e.
                first 101 t p (λ c. parse_literal c b'f' false_rest false_value) e
                  λ q l. parse_literal-Ends t b'f' q false_rest false_value)
              λ _.
                Ends-if (peek p == b'n')
                  (λ e.
                    first 109 t p (λ c. parse_literal c b'n' null_rest null) e
                      λ q l. parse_literal-Ends t b'n' q null_rest null)
                  λ _.
                    Ends-if (peek p == b'"')
                      (λ e. first 33 t p parse_string e λ q l. parse_string-Ends t q)
                      λ _.
                        Ends-if (peek p == b'[')
                          (λ e. first 90 t p (parse_array (array_loop d f 0 no_items)) e λ q l.
                            parse_array-Ends t q (array_loop d f 0 no_items) λ s m.
                              subst (λ x. Ends t (length s) (array_loop d f 0 no_items (at s x)))
                                (base t 32) (array-Ends f 0 t no_items s (omega arith)))
                          λ _.
                            Ends-if (peek p == b'{')
                              (λ e.
                                first 122 t p (parse_object (object_loop d f 0 no_members)) e λ q l.
                                  parse_object-Ends t q (object_loop d f 0 no_members) λ s m.
                                    subst
                                      (λ x.
                                        Ends t (length s) (object_loop d f 0 no_members (at s x)))
                                      (base t 48) (object-Ends f 0 t no_members s (omega arith)))
                              λ _.
                                Ends-if (peek p == 0) (λ _. failed refl)
                                  λ _. parse_number-Ends d t p

    array-Ends :
        (f size t : ℕ) (xs : Items N) (p : List ℕ)
        → 2 * length p + 1 < f
        → Ends t (length p) (array_loop d f size xs (at p (t + size * sizeof_value)))
    array-Ends zero size t xs p h = absurd (omega arith)
    array-Ends (suc f) size t xs p h =
        array_step f size t (length p) xs (parse_value d f (at p (t + size * sizeof_value)))
          (value-Ends f (t + size * sizeof_value) p (omega arith))
          λ ys q l. Ends-weaken (omega arith) (array-Ends f (size + 1) t ys q (omega arith))

    object-Ends :
        (f size t : ℕ) (ms : Members N) (p : List ℕ)
        → 2 * length p + 1 < f
        → Ends t (length p) (object_loop d f size ms (at p (t + size * sizeof_member)))
    object-Ends zero size t ms p h = absurd (omega arith)
    object-Ends (suc f) size t ms p h =
        object_step f size t (length p) ms (parse_key (at p (t + size * sizeof_member)))
          (parse_key-Ends (t + size * sizeof_member) p)
          (λ q l.
            Ends-weaken (omega arith) (value-Ends f (t + size * sizeof_member) q (omega arith)))
          λ ys q l. Ends-weaken (omega arith) (object-Ends f (size + 1) t ys q (omega arith))

  finish-Ends :
      (n : ℕ) (r : Run (Value N))
      → Ends 0 n r
      → ((v : Value N) × (c : Context) × (finish d r ≡ ok v c))
        ⊎ ((x : ParseResult) × (c : Context) × (finish d r ≡ err x c))
  unfolding finish
  finish-Ends n (ok v c) (done h l) =
      let empty : (c.top == 0) ≡ true = ground arith in
      let p = skip_whitespace c.json in
      elim (Bool-cases (peek p == 0)) [
        | inl e ↦ inl (v, record c { json = p }, rw (empty, e))
        | inr e ↦ inr (root_not_singular, record c { json = p }, rw (empty, e))
      ]
  finish-Ends n (err x c) (failed h) =
      let empty : (c.top == 0) ≡ true = ground arith in inr (x, c, rw empty)
  finish-Ends n fault h = elim h [ ]
  finish-Ends n out_of_fuel h = elim h [ ]

  -- On every text `lept_parse` returns a value or an error code: no assertion fails, in particular
  -- `assert(c.top == 0)` at the end, and the fuel suffices.
  pub lept_parse_total :
      (json : List ℕ)
      → ((v : Value N) × (c : Context) × (lept_parse d json ≡ ok v c))
        ⊎ ((x : ParseResult) × (c : Context) × (lept_parse d json ≡ err x c))
  unfolding lept_parse
  lept_parse_total json =
      let p = skip_whitespace json in
      finish-Ends (length p) (parse_value d (2 * length json + 1) (at p 0))
        (value-Ends (2 * length json + 1) 0 p (omega (arith, skip-le json)))
