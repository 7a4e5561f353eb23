-- ===== src/Log/Format.antt =====
-- log.cpp: what a formatter writes for an event. The text that strftime makes of a time is a
-- parameter.
pub mod Digits
use cpp_library.Base.{
  ℕ, zero, suc, ◌+◌, ◌/◌, ◌%◌, Bool, true, false, List, [], ◌∷◌, ◌++◌, ltb, ◌==◌, if◌then◌else◌,
}
use cpp_library.Log.Level.{Level, to_string}
use cpp_library.Log.Pattern.{
  Item, message, level, elapse, name, thread_id, new_line, file_name, line, tab, fiber_id,
  thread_name, date_time, string, LogFormatter,
}

-- `LogEvent`, with the name of its logger
pub record LogEvent : Type 0 where
  pub file : List ℕ
  pub line_number : ℕ
  pub elapsed : ℕ
  pub thread : ℕ
  pub fiber : ℕ
  pub time : ℕ
  pub thread_title : List ℕ
  pub content : List ℕ
  pub logger_name : List ℕ

-- `os << n` for an unsigned number, with fuel for its digits
unfoldable pub digits : ℕ → ℕ → List ℕ → List ℕ
digits zero n acc = acc
digits (suc fuel) n acc =
    let shown = (b'0' + n % 10) ∷ acc in
    let rest = digits fuel (n / 10) shown in if ltb n 10 then shown else rest

unfoldable pub decimal : ℕ → List ℕ
decimal n = digits (suc n) n []

module _ (strftime : List ℕ → ℕ → List ℕ) where
  -- `FormatItem::format` of each subclass
  unfoldable pub format_item : Item → Level → LogEvent → List ℕ
  format_item message l e = e.content
  format_item level l e = to_string l
  format_item elapse l e = decimal e.elapsed
  format_item name l e = e.logger_name
  format_item thread_id l e = decimal e.thread
  format_item new_line l e = b'\n' ∷ []
  format_item file_name l e = e.file
  format_item line l e = decimal e.line_number
  format_item tab l e = b'\t' ∷ []
  format_item fiber_id l e = decimal e.fiber
  format_item thread_name l e = e.thread_title
  format_item (date_time f) l e = strftime f e.time
  format_item (string s) l e = s

  unfoldable pub format_items : List Item → Level → LogEvent → List ℕ
  format_items [] l e = []
  format_items (i ∷ is) l e = format_item i l e ++ format_items is l e

  -- `LogFormatter::format`
  unfoldable pub format : LogFormatter → Level → LogEvent → List ℕ
  format x l e = format_items x.items l e
