-- ===== src/Json/Print/RoundTrip.antt =====
-- `lept_parse` on what `lept_stringify` prints.
use cpp_library.Json.Print.Arrays
use cpp_library.Json.Print.Objects
use cpp_library.Base.{ℕ, ◌+◌, ◌*◌, ◌≡◌, refl, sym, ◌∙◌, ap, List, [], length, arith, append-nil}
use cpp_library.Json.Syntax.{
  Value, Items, Members, null, false_value, true_value, number, string, array, object, no_items,
  item, no_members, member, Double,
}
use cpp_library.Json.Scan.{skip_whitespace}
use cpp_library.Json.Run.{ok}
use cpp_library.Json.Parse.{parse_value, finish, lept_parse}
use cpp_library.Json.Print.{stringify_value, lept_stringify}
use cpp_library.Json.Print.Starts.{
  NumberLaws, AllFinite, AllFiniteItems, AllFiniteMembers, skip_whitespace-start,
  stringify_value-start,
}
use cpp_library.Json.Print.Reads.{
  strip, at, Reads, Reads-number, Reads-string, Reads-null, Reads-true, Reads-false,
}

module _ {N : Type 0} {d : Double N} {IsFinite : N → Type 0} (laws : NumberLaws d IsFinite) where
  mutual
    value-Reads : (v : Value N) → AllFinite IsFinite v → Reads laws v
    value-Reads null h = Reads-null laws
    value-Reads false_value h = Reads-false laws
    value-Reads true_value h = Reads-true laws
    value-Reads (number n) h = Reads-number laws n h
    value-Reads (string s) h = Reads-string laws s
    value-Reads (array c no_items) h = Arrays.Reads-array_empty laws c
    value-Reads (array c (item v xs)) h =
        Arrays.Reads-array laws c v xs h.0 (items-Reads xs v h.1 (value-Reads v h.0))
    value-Reads (object c no_members) h = Objects.Reads-object_empty laws c
    value-Reads (object c (member k v ms)) h =
        Objects.Reads-object laws c k v ms (members-Reads ms k v h.0 h.1 (value-Reads v h.0))

    items-Reads :
        (xs : Items N) (v : Value N)
        → AllFiniteItems IsFinite xs
        → Reads laws v
        → Arrays.LoopReads laws v xs
    items-Reads no_items v h r = Arrays.loop_last laws v r
    items-Reads (item w ys) v h r =
        Arrays.loop_more laws v w ys h.0 r (items-Reads ys w h.1 (value-Reads w h.0))

    members-Reads :
        (ms : Members N) (k : List ℕ) (v : Value N)
        → AllFinite IsFinite v
        → AllFiniteMembers IsFinite ms
        → Reads laws v
        → Objects.LoopReads laws k v ms
    members-Reads no_members k v hv h r = Objects.loop_last laws k v hv r
    members-Reads (member j w ms) k v hv h r =
        Objects.loop_more laws k j v w ms hv r (members-Reads ms j w h.0 h.1 (value-Reads w h.0))

  finish_end :
      (v : Value N)
      → finish d (ok v (record { json = []; top = 0 })) ≡ ok v (record { json = []; top = 0 })
  unfolding finish skip_whitespace
  finish_end v = refl

  -- `lept_parse` of what `lept_stringify` prints of a value with finite numbers succeeds, reads the
  -- whole text, leaves the stack empty and gives the value back, up to capacities.
  pub lept_parse-lept_stringify :
      (v : Value N)
      → AllFinite IsFinite v
      → lept_parse d (lept_stringify d v) ≡ ok (strip v) (record { json = []; top = 0 })
  unfolding lept_parse lept_stringify
  lept_parse-lept_stringify v h =
      let text = stringify_value d v in
      let start = rw append-nil at (stringify_value-start laws v [] h) in
      let read = value-Reads v h [] 0 (2 * length text + 1) refl (omega arith) in
      ap (λ p. finish d (parse_value d (2 * length text + 1) (at p 0)))
        (skip_whitespace-start text start ∙ sym (append-nil text))
      ∙ ap (finish d) read
      ∙ finish_end (strip v)
