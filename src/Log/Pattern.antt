-- ===== src/Log/Pattern.antt =====
-- log.cpp, `LogFormatter::init`: the pattern of a formatter becomes its items. The indices `i` and
-- `n` are what is left of the pattern behind them.
pub mod Steps
pub mod RoundTrip
use cpp_library.Base.{
  ℕ, zero, suc, Bool, true, false, ◌&&◌, ◌||◌, not, Option, none, some, List, [], ◌∷◌, ◌++◌, leb,
  ◌==◌, length, if◌then◌else◌,
}

-- The subclasses of `FormatItem`
pub data Item : Type 0 where
  message level elapse name thread_id new_line file_name line tab fiber_id thread_name : Item
  date_time : List ℕ → Item
  string : List ℕ → Item

-- `std::tuple<std::string,std::string,int>`
pub record Part : Type 0 where
  pub text : List ℕ
  pub format : List ℕ
  pub is_item : Bool

abbrev pub is_alpha : ℕ → Bool
is_alpha c = (leb b'a' c && leb c b'z') || (leb b'A' c && leb c b'Z')

-- What the inner loop comes to: `str`, `fmt` and what is left, or the end with an open brace
pub data Parsed : Type 0 where
  item : List ℕ → List ℕ → List ℕ → Parsed
  unclosed : Parsed

-- The inner loop with `fmt_status == 1`
unfoldable pub format_loop : List ℕ → List ℕ → List ℕ → Parsed
format_loop str fmt [] = unclosed
format_loop str fmt (c ∷ rest) =
    if c == b'}' then item str fmt rest else format_loop str (fmt ++ c ∷ []) rest

-- The inner loop with `fmt_status == 0`, where `str` has been passed over
unfoldable pub name_loop : List ℕ → List ℕ → Parsed
unfolding format_loop
name_loop str [] = item str [] []
name_loop str (c ∷ rest) =
    if not (is_alpha c) && not (c == b'{') && not (c == b'}')
    then item str [] (c ∷ rest)
    else if c == b'{'
    then format_loop str [] rest
    else name_loop (str ++ c ∷ []) rest

abbrev literal : List ℕ → Part
literal s = record { text = s; format = []; is_item = false }

-- `if(!nstr.empty()) vec.push_back(...)`
abbrev pub flush : List ℕ → List Part → List Part
flush [] vec = vec
flush (c ∷ cs) vec = vec ++ literal (c ∷ cs) ∷ []

-- `<<pattern_error`
abbrev pub pattern_error : List ℕ
pattern_error =
    b'<' ∷ b'<' ∷ b'p' ∷ b'a' ∷ b't' ∷ b't' ∷ b'e' ∷ b'r' ∷ b'n' ∷ b'_' ∷ b'e' ∷ b'r' ∷ b'r' ∷ b'o'
    ∷ b'r' ∷ []

-- `vec` and `m_error_` behind the loop over the pattern
abbrev pub Parts : Type 0
Parts = List Part × Bool

abbrev pub starts_percent : List ℕ → Bool
starts_percent [] = false
starts_percent (c ∷ cs) = c == b'%'

-- The outer loop; `none` is out of fuel.
unfoldable pub scan : ℕ → List ℕ → List Part → Bool → List ℕ → Option Parts
scan fuel nstr vec failed [] = some (flush nstr vec, failed)
scan zero nstr vec failed (c ∷ rest) = none
scan (suc fuel) nstr vec failed (c ∷ rest) = elim (not (c == b'%') || starts_percent rest) [
  | true ↦ scan fuel (nstr ++ c ∷ []) vec failed rest
  | false ↦ elim (name_loop [] rest) [
    | item str fmt left ↦
        scan fuel [] (flush nstr vec ++ record { text = str; format = fmt; is_item = true } ∷ [])
          failed left
    | unclosed ↦ scan fuel nstr (vec ++ literal pattern_error ∷ []) true rest
  ]
]

abbrev pub default_time : List ℕ
default_time =
    b'%' ∷ b'Y' ∷ b'-' ∷ b'%' ∷ b'm' ∷ b'-' ∷ b'%' ∷ b'd' ∷ b' ' ∷ b'%' ∷ b'H' ∷ b':' ∷ b'%' ∷ b'M'
    ∷ b':' ∷ b'%' ∷ b'S' ∷ []

-- `DateTimeFormatItem::DateTimeFormatItem`
unfoldable pub new_date_time : List ℕ → Item
new_date_time [] = date_time default_time
new_date_time (c ∷ cs) = date_time (c ∷ cs)

-- `s_format_items`: the entry of a name of one letter
unfoldable pub entry : ℕ → List ℕ → Option Item
entry c fmt =
    if c == b'm'
    then some message
    else if c == b'p'
    then some level
    else if c == b'r'
    then some elapse
    else if c == b'c'
    then some name
    else if c == b't'
    then some thread_id
    else if c == b'n'
    then some new_line
    else if c == b'd'
    then some (new_date_time fmt)
    else if c == b'f'
    then some file_name
    else if c == b'l'
    then some line
    else if c == b'T'
    then some tab
    else if c == b'F'
    then some fiber_id
    else if c == b'N'
    then some thread_name
    else none

unfoldable pub find_item : List ℕ → List ℕ → Option Item
find_item (c ∷ []) fmt = entry c fmt
find_item [] fmt = none
find_item (c ∷ d ∷ cs) fmt = none

-- `<<error_format %` and `>>` around the name
abbrev pub error_format : List ℕ → List ℕ
error_format s =
    b'<'
    ∷ b'<'
    ∷ b'e'
    ∷ b'r'
    ∷ b'r'
    ∷ b'o'
    ∷ b'r'
    ∷ b'_'
    ∷ b'f'
    ∷ b'o'
    ∷ b'r'
    ∷ b'm'
    ∷ b'a'
    ∷ b't'
    ∷ b' '
    ∷ b'%'
    ∷ (s ++ b'>' ∷ b'>' ∷ [])

abbrev pub or_error : Option Item → List ℕ → Item × Bool
or_error (some i) s = (i, false)
or_error none s = (string (error_format s), true)

unfoldable pub part_item : Part → Item × Bool
part_item p =
    if p.is_item then or_error (find_item p.text p.format) p.text else (string p.text, false)

-- The loop over `vec`
unfoldable pub part_items : List Part → List Item × Bool
part_items [] = ([], false)
part_items (p ∷ ps) =
    let (i, failed) = part_item p in let (is, any) = part_items ps in (i ∷ is, failed || any)

pub record LogFormatter : Type 0 where
  pub pattern : List ℕ
  pub items : List Item
  pub is_error : Bool

abbrev from_parts : List ℕ → Option Parts → Option LogFormatter
from_parts p none = none
from_parts p (some (vec, failed)) =
    let (is, any) = part_items vec in
    some (record { pattern = p; items = is; is_error = failed || any })

-- `LogFormatter::LogFormatter`, with fuel for each byte of the pattern
unfoldable pub new_formatter : List ℕ → Option LogFormatter
new_formatter p = from_parts p (scan (length p) [] [] false p)
