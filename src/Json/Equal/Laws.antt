-- ===== src/Json/Equal/Laws.antt =====
-- MyJson/tutorial08/leptjson.cpp, what `lept_is_equal` tells of two values.
use mathlib.Core.Path.{ap₂}
use cpp_library.Base.{
  and_both, ◌∙◌, sym, ==_iff, true≢false, arith, ◌==◌, ℕ, suc, ◌≡◌, refl, ap, true, ◌&&◌, none,
  List, ==_refl,
}
use cpp_library.Json.Syntax.{
  Value, Items, Members, null, false_value, true_value, number, string, array, object, no_items,
  item, no_members, member, Double, length_items, length_members,
}
use cpp_library.Json.Print.Starts.{AllFinite, AllFiniteItems, AllFiniteMembers}
use cpp_library.Json.Print.Reads.{strip, strip_items, strip_members}
use cpp_library.Json.Equal.Bytes.{same_bytes_refl, same_bytes_sound}
use cpp_library.Json.Equal.{same_bytes, is_equal, equal_items, equal_members}

module _ {N : Type 0} where
  length_items-strip : (xs : Items N) → length_items (strip_items xs) ≡ length_items xs
  unfolding length_items strip_items
  length_items-strip no_items = refl
  length_items-strip (item v xs) = ap suc (length_items-strip xs)

  length_members-strip : (ms : Members N) → length_members (strip_members ms) ≡ length_members ms
  unfolding length_members strip_members
  length_members-strip no_members = refl
  length_members-strip (member k v ms) = ap suc (length_members-strip ms)

-- What `==` of `double` does on the numbers that `IsExact` describes, which are neither NaN nor
-- a zero with a sign: it decides whether they are the same.
pub record EqualLaws {N : Type 0} (d : Double N) (IsExact : N → Type 0) : Type 0 where
  pub itself : (n : N) → IsExact n → d.num_eq n n ≡ true
  pub same : (m n : N) → IsExact m → IsExact n → d.num_eq m n ≡ true → m ≡ n

module _ {N : Type 0} {d : Double N} {IsExact : N → Type 0} (laws : EqualLaws d IsExact) where
  mutual
    unfolding is_equal equal_items equal_members strip strip_items strip_members

    is_equal-strip : (v : Value N) → AllFinite IsExact v → is_equal d v (strip v) ≡ true
    is_equal-strip null h = refl
    is_equal-strip false_value h = refl
    is_equal-strip true_value h = refl
    is_equal-strip (number n) h = laws.itself n h
    is_equal-strip (string s) h = same_bytes_refl s
    is_equal-strip (array c xs) h =
        rw (length_items-strip xs, ==_refl (length_items xs), equal_items-strip xs h)
    is_equal-strip (object c ms) h =
        rw (length_members-strip ms, ==_refl (length_members ms), equal_members-strip ms h)

    equal_items-strip :
        (xs : Items N) → AllFiniteItems IsExact xs → equal_items d xs (strip_items xs) ≡ true
    equal_items-strip no_items h = refl
    equal_items-strip (item v xs) h = rw (is_equal-strip v h.0, equal_items-strip xs h.1)

    equal_members-strip :
        (ms : Members N)
        → AllFiniteMembers IsExact ms
        → equal_members d ms (strip_members ms) ≡ true
    equal_members-strip no_members h = refl
    equal_members-strip (member k v ms) h =
        rw (same_bytes_refl k, is_equal-strip v h.0, equal_members-strip ms h.1)

  -- The capacities of the second value do not matter.
  mutual
    unfolding is_equal equal_items equal_members strip strip_items strip_members

    is_equal-same : (v w : Value N) → is_equal d v (strip w) ≡ is_equal d v w
    is_equal-same null null = refl
    is_equal-same null false_value = refl
    is_equal-same null true_value = refl
    is_equal-same null (number n) = refl
    is_equal-same null (string t) = refl
    is_equal-same null (array k ys) = refl
    is_equal-same null (object k ns) = refl
    is_equal-same false_value null = refl
    is_equal-same false_value false_value = refl
    is_equal-same false_value true_value = refl
    is_equal-same false_value (number n) = refl
    is_equal-same false_value (string t) = refl
    is_equal-same false_value (array k ys) = refl
    is_equal-same false_value (object k ns) = refl
    is_equal-same true_value null = refl
    is_equal-same true_value false_value = refl
    is_equal-same true_value true_value = refl
    is_equal-same true_value (number n) = refl
    is_equal-same true_value (string t) = refl
    is_equal-same true_value (array k ys) = refl
    is_equal-same true_value (object k ns) = refl
    is_equal-same (number m) null = refl
    is_equal-same (number m) false_value = refl
    is_equal-same (number m) true_value = refl
    is_equal-same (number m) (number n) = refl
    is_equal-same (number m) (string t) = refl
    is_equal-same (number m) (array k ys) = refl
    is_equal-same (number m) (object k ns) = refl
    is_equal-same (string s) null = refl
    is_equal-same (string s) false_value = refl
    is_equal-same (string s) true_value = refl
    is_equal-same (string s) (number n) = refl
    is_equal-same (string s) (string t) = refl
    is_equal-same (string s) (array k ys) = refl
    is_equal-same (string s) (object k ns) = refl
    is_equal-same (array c xs) null = refl
    is_equal-same (array c xs) false_value = refl
    is_equal-same (array c xs) true_value = refl
    is_equal-same (array c xs) (number n) = refl
    is_equal-same (array c xs) (string t) = refl
    is_equal-same (array c xs) (array k ys) = rw (length_items-strip ys, equal_items-same xs ys)
    is_equal-same (array c xs) (object k ns) = refl
    is_equal-same (object c ms) null = refl
    is_equal-same (object c ms) false_value = refl
    is_equal-same (object c ms) true_value = refl
    is_equal-same (object c ms) (number n) = refl
    is_equal-same (object c ms) (string t) = refl
    is_equal-same (object c ms) (array k ys) = refl
    is_equal-same (object c ms) (object k ns) =
        rw (length_members-strip ns, equal_members-same ms ns)

    equal_items-same : (xs ys : Items N) → equal_items d xs (strip_items ys) ≡ equal_items d xs ys
    equal_items-same no_items no_items = refl
    equal_items-same no_items (item w ys) = refl
    equal_items-same (item v xs) no_items = refl
    equal_items-same (item v xs) (item w ys) = rw (is_equal-same v w, equal_items-same xs ys)

    equal_members-same :
        (ms ns : Members N) → equal_members d ms (strip_members ns) ≡ equal_members d ms ns
    equal_members-same no_members no_members = refl
    equal_members-same no_members (member j w ns) = refl
    equal_members-same (member k v ms) no_members = refl
    equal_members-same (member k v ms) (member j w ns) =
        rw (is_equal-same v w, equal_members-same ms ns)

  mutual
    unfolding is_equal equal_items equal_members strip strip_items strip_members length_items
        length_members

    is_equal_sound :
        (v w : Value N)
        → AllFinite IsExact v
        → AllFinite IsExact w
        → is_equal d v w ≡ true
        → strip v ≡ strip w
    is_equal_sound null null a b e = refl
    is_equal_sound null false_value a b e = absurd (true≢false (sym e))
    is_equal_sound null true_value a b e = absurd (true≢false (sym e))
    is_equal_sound null (number n) a b e = absurd (true≢false (sym e))
    is_equal_sound null (string t) a b e = absurd (true≢false (sym e))
    is_equal_sound null (array k ys) a b e = absurd (true≢false (sym e))
    is_equal_sound null (object k ns) a b e = absurd (true≢false (sym e))
    is_equal_sound false_value null a b e = absurd (true≢false (sym e))
    is_equal_sound false_value false_value a b e = refl
    is_equal_sound false_value true_value a b e = absurd (true≢false (sym e))
    is_equal_sound false_value (number n) a b e = absurd (true≢false (sym e))
    is_equal_sound false_value (string t) a b e = absurd (true≢false (sym e))
    is_equal_sound false_value (array k ys) a b e = absurd (true≢false (sym e))
    is_equal_sound false_value (object k ns) a b e = absurd (true≢false (sym e))
    is_equal_sound true_value null a b e = absurd (true≢false (sym e))
    is_equal_sound true_value false_value a b e = absurd (true≢false (sym e))
    is_equal_sound true_value true_value a b e = refl
    is_equal_sound true_value (number n) a b e = absurd (true≢false (sym e))
    is_equal_sound true_value (string t) a b e = absurd (true≢false (sym e))
    is_equal_sound true_value (array k ys) a b e = absurd (true≢false (sym e))
    is_equal_sound true_value (object k ns) a b e = absurd (true≢false (sym e))
    is_equal_sound (number m) null a b e = absurd (true≢false (sym e))
    is_equal_sound (number m) false_value a b e = absurd (true≢false (sym e))
    is_equal_sound (number m) true_value a b e = absurd (true≢false (sym e))
    is_equal_sound (number m) (number n) a b e = ap number (laws.same m n a b e)
    is_equal_sound (number m) (string t) a b e = absurd (true≢false (sym e))
    is_equal_sound (number m) (array k ys) a b e = absurd (true≢false (sym e))
    is_equal_sound (number m) (object k ns) a b e = absurd (true≢false (sym e))
    is_equal_sound (string s) null a b e = absurd (true≢false (sym e))
    is_equal_sound (string s) false_value a b e = absurd (true≢false (sym e))
    is_equal_sound (string s) true_value a b e = absurd (true≢false (sym e))
    is_equal_sound (string s) (number n) a b e = absurd (true≢false (sym e))
    is_equal_sound (string s) (string t) a b e = ap string (same_bytes_sound s t e)
    is_equal_sound (string s) (array k ys) a b e = absurd (true≢false (sym e))
    is_equal_sound (string s) (object k ns) a b e = absurd (true≢false (sym e))
    is_equal_sound (array c xs) null a b e = absurd (true≢false (sym e))
    is_equal_sound (array c xs) false_value a b e = absurd (true≢false (sym e))
    is_equal_sound (array c xs) true_value a b e = absurd (true≢false (sym e))
    is_equal_sound (array c xs) (number n) a b e = absurd (true≢false (sym e))
    is_equal_sound (array c xs) (string t) a b e = absurd (true≢false (sym e))
    is_equal_sound (array c xs) (array k ys) a b e =
        let (_, f) = and_both (length_items xs == length_items ys) (equal_items d xs ys) e in
        let l =
          (==_iff (length_items xs) (length_items ys)).0
            (and_both (length_items xs == length_items ys) (equal_items d xs ys) e).0 in
        ap (array none) (equal_items_sound xs ys a b l f)
    is_equal_sound (array c xs) (object k ns) a b e = absurd (true≢false (sym e))
    is_equal_sound (object c ms) null a b e = absurd (true≢false (sym e))
    is_equal_sound (object c ms) false_value a b e = absurd (true≢false (sym e))
    is_equal_sound (object c ms) true_value a b e = absurd (true≢false (sym e))
    is_equal_sound (object c ms) (number n) a b e = absurd (true≢false (sym e))
    is_equal_sound (object c ms) (string t) a b e = absurd (true≢false (sym e))
    is_equal_sound (object c ms) (array k ys) a b e = absurd (true≢false (sym e))
    is_equal_sound (object c ms) (object k ns) a b e =
        let (_, f) = and_both (length_members ms == length_members ns) (equal_members d ms ns) e in
        let l =
          (==_iff (length_members ms) (length_members ns)).0
            (and_both (length_members ms == length_members ns) (equal_members d ms ns) e).0 in
        ap (object none) (equal_members_sound ms ns a b l f)

    equal_items_sound :
        (xs ys : Items N)
        → AllFiniteItems IsExact xs
        → AllFiniteItems IsExact ys
        → length_items xs ≡ length_items ys
        → equal_items d xs ys ≡ true
        → strip_items xs ≡ strip_items ys
    equal_items_sound no_items no_items a b l e = refl
    equal_items_sound no_items (item w ys) a b l e = absurd (omega (arith, l))
    equal_items_sound (item v xs) no_items a b l e = absurd (omega (arith, l))
    equal_items_sound (item v xs) (item w ys) a b l e =
        let (f, g) = and_both (is_equal d v w) (equal_items d xs ys) e in
        ap₂ item (is_equal_sound v w a.0 b.0 f)
          (equal_items_sound xs ys a.1 b.1 (omega (arith, l)) g)

    equal_members_sound :
        (ms ns : Members N)
        → AllFiniteMembers IsExact ms
        → AllFiniteMembers IsExact ns
        → length_members ms ≡ length_members ns
        → equal_members d ms ns ≡ true
        → strip_members ms ≡ strip_members ns
    equal_members_sound no_members no_members a b l e = refl
    equal_members_sound no_members (member j w ns) a b l e = absurd (omega (arith, l))
    equal_members_sound (member k v ms) no_members a b l e = absurd (omega (arith, l))
    equal_members_sound (member k v ms) (member j w ns) a b l e =
        let (i, r) = and_both (same_bytes k j) (is_equal d v w && equal_members d ms ns) e in
        let (f, g) = and_both (is_equal d v w) (equal_members d ms ns) r in
        let rest = equal_members_sound ms ns a.1 b.1 (omega (arith, l)) g in
        ap (λ (x : List ℕ). member x (strip v) (strip_members ms)) (same_bytes_sound k j i)
        ∙ ap₂ (member j) (is_equal_sound v w a.0 b.0 f) rest

  -- Of two values whose numbers are neither NaN nor a zero with a sign, `lept_is_equal` tells
  -- whether they are the same up to the capacities of their arrays and objects.
  pub is_equal_lem :
      (v w : Value N)
      → AllFinite IsExact v
      → AllFinite IsExact w
      → (is_equal d v w ≡ true → strip v ≡ strip w) × (strip v ≡ strip w → is_equal d v w ≡ true)
  is_equal_lem v w a b = (
    is_equal_sound v w a b,
    λ e. sym (is_equal-same v w) ∙ sym (ap (is_equal d v) e) ∙ is_equal-strip v a,
  )
