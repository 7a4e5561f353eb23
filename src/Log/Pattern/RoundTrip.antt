-- ===== src/Log/Pattern/RoundTrip.antt =====
-- log.cpp, `LogFormatter::init`: a pattern that is written from texts and items gives these back.
use cpp_library.Base.{
  ℕ, zero, suc, ◌≤◌, Bool, true, false, ◌≡◌, ◌⊎◌, inl, inr, refl, sym, ap, ◌∙◌, some, List, [], ◌∷◌,
  ◌++◌, append_assoc, append-nil, map, length, length-append, arith, ◌||◌, true≢false,
}
use cpp_library.Log.Pattern.{
  Item, message, level, elapse, name, thread_id, new_line, file_name, line, tab, fiber_id,
  thread_name, string, Part, is_alpha, literal, flush, scan, new_date_time, entry, find_item,
  part_item, part_items, LogFormatter, new_formatter,
}
use cpp_library.Log.Pattern.Steps.{
  Without, Ends, name_loop-plain, name_loop-braced, scan-item, scan-text, scan_total,
}

-- The items that the documentation of the pattern lists
pub data Kind : Type 0 where
  message_kind level_kind elapse_kind name_kind thread_id_kind new_line_kind : Kind
  time_kind file_name_kind line_kind tab_kind fiber_id_kind thread_name_kind : Kind

abbrev pub letter : Kind → ℕ
letter message_kind = b'm'
letter level_kind = b'p'
letter elapse_kind = b'r'
letter name_kind = b'c'
letter thread_id_kind = b't'
letter new_line_kind = b'n'
letter time_kind = b'd'
letter file_name_kind = b'f'
letter line_kind = b'l'
letter tab_kind = b'T'
letter fiber_id_kind = b'F'
letter thread_name_kind = b'N'

-- The item of a kind, with the text in its braces
unfoldable pub kind_item : Kind → List ℕ → Item
kind_item message_kind fmt = message
kind_item level_kind fmt = level
kind_item elapse_kind fmt = elapse
kind_item name_kind fmt = name
kind_item thread_id_kind fmt = thread_id
kind_item new_line_kind fmt = new_line
kind_item time_kind fmt = new_date_time fmt
kind_item file_name_kind fmt = file_name
kind_item line_kind fmt = line
kind_item tab_kind fmt = tab
kind_item fiber_id_kind fmt = fiber_id
kind_item thread_name_kind fmt = thread_name

-- What a pattern is written from: text, `%x`, and `%x{...}`
pub data Piece : Type 0 where
  text : List ℕ → Piece
  plain : Kind → Piece
  braced : Kind → List ℕ → Piece

unfoldable pub print : List Piece → List ℕ
print [] = []
print (text s ∷ ps) = s ++ print ps
print (plain k ∷ ps) = b'%' ∷ letter k ∷ print ps
print (braced k fmt ∷ ps) = b'%' ∷ letter k ∷ b'{' ∷ (fmt ++ b'}' ∷ print ps)

unfoldable pub piece_item : Piece → Item
piece_item (text s) = string s
piece_item (plain k) = kind_item k []
piece_item (braced k fmt) = kind_item k fmt

abbrev is_text : List Piece → Bool
is_text (text s ∷ ps) = true
is_text _ = false

-- Texts are not empty, have no percent sign, and do not follow one another; a plain item stands in
-- front of a byte that ends its name, and braces hold no closing brace.
pub data IsNormal : List Piece → Type 0 where
  done : IsNormal []
  a_text :
      {b : ℕ} {s : List ℕ} {ps : List Piece}
      → Without b'%' (b ∷ s)
      → is_text ps ≡ false
      → IsNormal ps
      → IsNormal (text (b ∷ s) ∷ ps)
  a_plain : {k : Kind} {ps : List Piece} → Ends (print ps) → IsNormal ps → IsNormal (plain k ∷ ps)
  a_braced :
      {k : Kind} {fmt : List ℕ} {ps : List Piece}
      → Without b'}' fmt
      → IsNormal ps
      → IsNormal (braced k fmt ∷ ps)

piece_part : Piece → Part
piece_part (text s) = literal s
piece_part (plain k) = record { text = letter k ∷ []; format = []; is_item = true }
piece_part (braced k fmt) = record { text = letter k ∷ []; format = fmt; is_item = true }

letter-is_alpha : (k : Kind) → is_alpha (letter k) ≡ true
letter-is_alpha k = ground arith

find_item-letter :
    (k : Kind) (fmt : List ℕ) → find_item (letter k ∷ []) fmt ≡ some (kind_item k fmt)
unfolding find_item entry kind_item
find_item-letter k fmt = ground arith

-- The text read so far is flushed before the next item.
scan-print :
    (ps : List Piece) (fuel : ℕ) (nstr : List ℕ) (vec : List Part) (failed : Bool)
    → IsNormal ps
    → (nstr ≡ []) ⊎ (is_text ps ≡ false)
    → length (print ps) ≤ fuel
    → scan fuel nstr vec failed (print ps) ≡ some (flush nstr vec ++ map piece_part ps, failed)
unfolding print piece_part scan
scan-print [] fuel nstr vec failed done r h = ap (λ l. some (l, failed)) (sym (append-nil _))
scan-print (text _ ∷ ps) fuel nstr vec failed (a_text w q n) (inr x) h = absurd (true≢false x)
scan-print (text _ ∷ ps) fuel nstr vec failed (a_text {b} {s} w q n) (inl x) h =
    let (fuel', l, e) = scan-text fuel nstr vec failed (b ∷ s) (print ps) w h in
    e
    ∙ ap (λ z. scan fuel' (z ++ b ∷ s) vec failed (print ps)) x
    ∙ scan-print ps fuel' (b ∷ s) vec failed n (inr q) l
    ∙ ap (λ v. some (v, failed)) (append_assoc vec (literal (b ∷ s) ∷ []) (map piece_part ps))
    ∙ ap (λ z. some (flush z vec ++ map piece_part (text (b ∷ s) ∷ ps), failed)) (sym x)
scan-print (plain k ∷ ps) zero nstr vec failed (a_plain e n) r h = absurd (omega arith)
scan-print (plain k ∷ ps) (suc fuel) nstr vec failed (a_plain e n) r h =
    let read = name_loop-plain (letter k) (print ps) (letter-is_alpha k) e in
    let vec' = flush nstr vec ++ piece_part (plain k) ∷ [] in
    scan-item fuel nstr vec failed (letter k) (print ps) (letter k ∷ []) [] (print ps)
      (letter-is_alpha k) read
    ∙ scan-print ps fuel [] vec' failed n (inl refl) (omega arith)
    ∙ ap (λ v. some (v, failed)) (append_assoc (flush nstr vec) (piece_part (plain k) ∷ []) _)
scan-print (braced k fmt ∷ ps) zero nstr vec failed (a_braced w n) r h = absurd (omega arith)
scan-print (braced k fmt ∷ ps) (suc fuel) nstr vec failed (a_braced w n) r h =
    let rest = b'{' ∷ (fmt ++ b'}' ∷ print ps) in
    let read = name_loop-braced (letter k) fmt (print ps) (letter-is_alpha k) w in
    let vec' = flush nstr vec ++ piece_part (braced k fmt) ∷ [] in
    let enough : length (print ps) ≤ fuel = omega (arith, length-append fmt (b'}' ∷ print ps)) in
    scan-item fuel nstr vec failed (letter k) rest (letter k ∷ []) fmt (print ps)
      (letter-is_alpha k) read
    ∙ scan-print ps fuel [] vec' failed n (inl refl) enough
    ∙ ap (λ v. some (v, failed)) (append_assoc (flush nstr vec) (piece_part (braced k fmt) ∷ []) _)

part_items-map : (ps : List Piece) → part_items (map piece_part ps) ≡ (map piece_item ps, false)
unfolding part_items part_item piece_part piece_item
part_items-map [] = refl
part_items-map (text s ∷ ps) = rw (part_items-map ps) refl
part_items-map (plain k ∷ ps) = rw (part_items-map ps, find_item-letter k []) refl
part_items-map (braced k fmt ∷ ps) = rw (part_items-map ps, find_item-letter k fmt) refl

-- A pattern is written from texts, items of known letters, and such items with braces, where texts are
-- not empty, have no percent sign and do not follow one another, a plain item stands in front of a byte
-- that ends its name, and braces hold no closing brace: its formatter has exactly these items, in
-- order, and no error.
pub new_formatter-print :
    (ps : List Piece)
    → IsNormal ps
    → new_formatter (print ps)
      ≡ some (record { pattern = print ps; items = map piece_item ps; is_error = false })
unfolding new_formatter
new_formatter-print ps n =
    rw (scan-print ps (length (print ps)) [] [] false n (inl refl) (omega arith), new_formatter)
      (rw (part_items-map ps) refl)

-- Every pattern gives a formatter: the loops of `init` end.
pub new_formatter_total : (s : List ℕ) → (x : LogFormatter) × (new_formatter s ≡ some x)
unfolding new_formatter
new_formatter_total s =
    let (x, e) = scan_total (length s) [] [] false s (omega arith) in
    (
      record { pattern = s; items = (part_items x.0).0; is_error = x.1 || (part_items x.0).1 },
      rw (e, new_formatter) refl,
    )
