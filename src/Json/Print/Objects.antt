-- ===== src/Json/Print/Objects.antt =====
-- Objects: the parser on what the generator prints.
use cpp_library.Base.{
  ℕ, zero, suc, ◌+◌, ◌-◌, ◌*◌, ◌≤◌, ◌<◌, ◌≡◌, refl, ◌∙◌, ap, false, Option, none, List, [], ◌∷◌,
  ◌++◌, length, le→leb, arith, append_assoc, length-append,
}
use cpp_library.Json.Syntax.{Value, Members, object, no_members, member, Double, append_members}
use cpp_library.Json.Scan.{peek, skip_whitespace}
use cpp_library.Json.Run.{Context, Run, ok, push}
use cpp_library.Json.Text.{stringify_string}
use cpp_library.Json.Text.RoundTrip.{parse_string_raw-stringify_string}
use cpp_library.Json.Parse.{
  sizeof_member, add_member, parse_object, parse_key, parse_colon, next, object_next, parse_value,
  object_loop,
}
use cpp_library.Json.Print.{stringify_value, stringify_members}
use cpp_library.Json.Print.Starts.{
  Delimited, NumberLaws, AllFinite, skip_whitespace-start, stringify_value-start,
}
use cpp_library.Json.Print.Reads.{strip, strip_members, append_members_assoc, at, Reads}

module _ {N : Type 0} {d : Double N} {IsFinite : N → Type 0} (laws : NumberLaws d IsFinite) where
  -- What stands behind a member: the further members, the brace and the rest.
  abbrev pub members_tail : Members N → List ℕ → List ℕ
  members_tail ms rest = stringify_members d false ms ++ b'}' ∷ rest

  members_tail-Delimited : (ms : Members N) (rest : List ℕ) → Delimited (members_tail ms rest)
  unfolding stringify_members
  members_tail-Delimited no_members rest = refl
  members_tail-Delimited (member k v ms) rest = refl

  -- A member up to its value, then `p`.
  abbrev entry : List ℕ → Value N → List ℕ → List ℕ
  entry k v p = stringify_string k ++ b':' ∷ (stringify_value d v ++ p)

  members_tail-member :
      (k : List ℕ) (w : Value N) (ms : Members N) (rest : List ℕ)
      → members_tail (member k w ms) rest ≡ b',' ∷ entry k w (members_tail ms rest)
  unfolding stringify_members
  members_tail-member k w ms rest = ap (◌∷◌ b',') (simp append_assoc)

  length-members-member :
      (k : List ℕ) (w : Value N) (ms : Members N)
      → length (stringify_members d false (member k w ms))
        ≡ 2
          + length (stringify_string k)
          + length (stringify_value d w)
          + length (stringify_members d false ms)
  unfolding stringify_members
  length-members-member k w ms = omega (
    arith,
    length-append (stringify_string k)
        (b':' ∷ (stringify_value d w ++ stringify_members d false ms)),
    length-append (stringify_value d w) (stringify_members d false ms),
  )

  -- A string begins with a quote, which is no whitespace.
  quote-skip :
      (k p : List ℕ)
      → (skip_whitespace (stringify_string k ++ p) ≡ stringify_string k ++ p)
        × (peek (stringify_string k ++ p) ≡ b'"')
  unfolding stringify_string skip_whitespace
  quote-skip k p = (refl, refl)

  parse_colon-entry :
      (k : List ℕ) (v : Value N) (p : List ℕ) (t : ℕ)
      → AllFinite IsFinite v
      → parse_colon k (at (b':' ∷ (stringify_value d v ++ p)) t)
        ≡ ok k (at (stringify_value d v ++ p) t)
  unfolding parse_colon skip_whitespace
  parse_colon-entry k v p t h = rw (
    skip_whitespace-start (stringify_value d v ++ p) (stringify_value-start laws v p h),
    parse_colon,
  )

  parse_key-entry :
      (k : List ℕ) (v : Value N) (p : List ℕ) (t : ℕ)
      → AllFinite IsFinite v
      → parse_key (at (entry k v p) t) ≡ ok k (at (stringify_value d v ++ p) t)
  unfolding parse_key
  parse_key-entry k v p t h =
      let rest = b':' ∷ (stringify_value d v ++ p) in
      rw ((quote-skip k rest).1, parse_key, parse_string_raw-stringify_string k rest t)
        (parse_colon-entry k v p t h)

  object_loop_step :
      (f size : ℕ) (acc : Members N) (c : Context) (k : List ℕ) (c₁ : Context) (v : Value N)
      (c' : Context)
      → parse_key c ≡ ok k c₁
      → parse_value d f c₁ ≡ ok v c'
      → object_loop d (suc f) size acc c
        ≡ object_next (object_loop d f) (size + 1) (add_member acc k v) (push sizeof_member c')
  unfolding object_loop
  object_loop_step f size acc c k c₁ v c' h g = rw (h, object_loop, g)

  object_next-closing :
      (loop : ℕ → Members N → Context → Run (Value N)) (size t : ℕ) (ms : Members N) (rest : List ℕ)
      → object_next loop
          (size + 1)
          ms
          (push sizeof_member (at (b'}' ∷ rest) (t + size * sizeof_member)))
        ≡ ok (object none ms) (at rest t)
  unfolding object_next next skip_whitespace
  object_next-closing loop size t ms rest =
      let high = t + size * sizeof_member + sizeof_member in
      let room = le→leb ((size + 1) * sizeof_member) high (omega arith) in
      let back : high - (size + 1) * sizeof_member ≡ t = omega arith in rw (room, back)

  object_next-comma :
      (loop : ℕ → Members N → Context → Run (Value N)) (size t : ℕ) (ms : Members N) (k p : List ℕ)
      → object_next loop
          (size + 1)
          ms
          (push sizeof_member (at (b',' ∷ (stringify_string k ++ p)) (t + size * sizeof_member)))
        ≡ loop (size + 1) ms (at (stringify_string k ++ p) (t + (size + 1) * sizeof_member))
  unfolding object_next next skip_whitespace stringify_string
  object_next-comma loop size t ms k p =
      let high : t + size * sizeof_member + sizeof_member ≡ t + (size + 1) * sizeof_member =
        omega arith in
      rw high

  -- The loop reads the member of `k` and `v` and then `ms`, and takes what it has pushed off.
  abbrev pub LoopReads : List ℕ → Value N → Members N → Type 0
  LoopReads k v ms =
      (rest : List ℕ) (t f size : ℕ) (acc : Members N)
      → 2 * (length (stringify_value d v) + length (stringify_members d false ms)) + 1 < f
      → object_loop d f size acc (at (entry k v (members_tail ms rest)) (t + size * sizeof_member))
        ≡ ok (object none (append_members acc (member k (strip v) (strip_members ms)))) (at rest t)

  pub loop_last :
      (k : List ℕ) (v : Value N) → AllFinite IsFinite v → Reads laws v → LoopReads k v no_members
  unfolding strip stringify_members
  loop_last k v h r rest t zero size acc l = absurd (omega arith)
  loop_last k v h r rest t (suc f) size acc l =
      let high = t + size * sizeof_member in
      let tail = members_tail no_members rest in
      object_loop_step f size acc (at (entry k v tail) high) k
        (at (stringify_value d v ++ tail) high) (strip v) (at tail high)
        (parse_key-entry k v tail high h)
        (r tail high f (members_tail-Delimited no_members rest) (omega arith))
      ∙ object_next-closing (object_loop d f) size t (add_member acc k (strip v)) rest

  strip_more :
      (acc : Members N) (k j : List ℕ) (v w : Value N) (ms : Members N)
      → append_members (add_member acc k (strip v)) (member j (strip w) (strip_members ms))
        ≡ append_members acc (member k (strip v) (strip_members (member j w ms)))
  unfolding strip append_members
  strip_more acc k j v w ms =
      append_members_assoc acc (member k (strip v) no_members)
        (member j (strip w) (strip_members ms))

  pub loop_more :
      (k j : List ℕ) (v w : Value N) (ms : Members N)
      → AllFinite IsFinite v
      → Reads laws v
      → LoopReads j w ms
      → LoopReads k v (member j w ms)
  loop_more k j v w ms h r ih rest t zero size acc l = absurd (omega arith)
  loop_more k j v w ms h r ih rest t (suc f) size acc l =
      let high = t + size * sizeof_member in
      let tail = members_tail (member j w ms) rest in
      object_loop_step f size acc (at (entry k v tail) high) k
        (at (stringify_value d v ++ tail) high) (strip v) (at tail high)
        (parse_key-entry k v tail high h)
        (r tail high f (members_tail-Delimited (member j w ms) rest) (omega arith))
      ∙ ap
          (λ p.
            object_next (object_loop d f) (size + 1) (add_member acc k (strip v))
              (push sizeof_member (at p high)))
          (members_tail-member j w ms rest)
      ∙ object_next-comma (object_loop d f) size t (add_member acc k (strip v)) j
          (b':' ∷ (stringify_value d w ++ members_tail ms rest))
      ∙ ih rest t f (size + 1) (add_member acc k (strip v))
          (omega (arith, length-members-member j w ms))
      ∙ ap (λ xs. ok (object none xs) (at rest t)) (strip_more acc k j v w ms)

  dispatch_object :
      (f t : ℕ) (p : List ℕ)
      → parse_value d (suc f) (at (b'{' ∷ p) t)
        ≡ parse_object (object_loop d f 0 no_members) (at (b'{' ∷ p) t)
  unfolding parse_value
  dispatch_object f t p = refl

  parse_object-start :
      (loop : Context → Run (Value N)) (k p : List ℕ) (t : ℕ)
      → parse_object loop (at (b'{' ∷ (stringify_string k ++ p)) t)
        ≡ loop (at (stringify_string k ++ p) t)
  unfolding parse_object stringify_string skip_whitespace
  parse_object-start loop k p t = refl

  pub Reads-object_empty : (c : Option ℕ) → Reads laws (object c no_members)
  unfolding stringify_value strip parse_value parse_object skip_whitespace
  Reads-object_empty c rest t zero e k = absurd (omega arith)
  Reads-object_empty c rest t (suc f) e k = refl

  object_text :
      (c : Option ℕ) (k : List ℕ) (v : Value N) (ms : Members N) (rest : List ℕ)
      → stringify_value d (object c (member k v ms)) ++ rest
        ≡ b'{' ∷ entry k v (members_tail ms rest)
  unfolding stringify_value
  object_text c k v ms rest = ap (◌∷◌ b'{') (simp append_assoc)

  length-object_text :
      (c : Option ℕ) (k : List ℕ) (v : Value N) (ms : Members N)
      → 3 + length (stringify_value d v) + length (stringify_members d false ms)
        ≤ length (stringify_value d (object c (member k v ms)))
  unfolding stringify_value
  length-object_text c k v ms =
      let body = stringify_value d v ++ stringify_members d false ms in
      omega (
        arith,
        length-append (stringify_string k ++ b':' ∷ body) (b'}' ∷ []),
        length-append (stringify_string k) (b':' ∷ body),
        length-append (stringify_value d v) (stringify_members d false ms),
      )

  strip_object :
      (c : Option ℕ) (k : List ℕ) (v : Value N) (ms : Members N) (rest : List ℕ) (t : ℕ)
      → ok
          (object none (append_members no_members (member k (strip v) (strip_members ms))))
          (at rest t)
        ≡ ok (strip (object c (member k v ms))) (at rest t)
  unfolding strip append_members
  strip_object c k v ms rest t = refl

  pub Reads-object :
      (c : Option ℕ) (k : List ℕ) (v : Value N) (ms : Members N)
      → LoopReads k v ms
      → Reads laws (object c (member k v ms))
  Reads-object c k v ms r rest t zero e l = absurd (omega arith)
  Reads-object c k v ms r rest t (suc f) e l =
      let body = entry k v (members_tail ms rest) in
      ap (λ p. parse_value d (suc f) (at p t)) (object_text c k v ms rest)
      ∙ dispatch_object f t body
      ∙ parse_object-start (object_loop d f 0 no_members) k
          (b':' ∷ (stringify_value d v ++ members_tail ms rest)) t
      ∙ ap (λ n. object_loop d f 0 no_members (at body n)) (omega arith)
      ∙ r rest t f 0 no_members (omega (arith, length-object_text c k v ms))
      ∙ strip_object c k v ms rest t
