-- ===== src/Log/Examples.antt =====
-- log.cpp: each theorem at a concrete input, and runs of the code.
use cpp_library.Base.{ℕ, zero, suc, ◌≡◌, refl, true, false, none, some, List, [], ◌∷◌}
use cpp_library.Log.Level.{debug, info, to_string}
use cpp_library.Log.Pattern.{
  message, level, tab, string, date_time, thread_id, thread_name, fiber_id, name, file_name, line,
  new_line, LogFormatter, format_loop, name_loop, scan, entry, find_item, part_item, part_items,
  new_formatter, new_date_time, default_time, error_format, pattern_error,
}
use cpp_library.Log.Pattern.Steps.{empty, add, at_end, at_byte}
use cpp_library.Log.Pattern.RoundTrip.{
  Piece, text, plain, braced, message_kind, level_kind, time_kind, print, piece_item, kind_item,
  IsNormal, done, a_text, a_plain, a_braced, new_formatter-print, new_formatter_total,
}
use cpp_library.Log.Format.{LogEvent, digits, decimal, format_item, format_items, format}
use cpp_library.Log.Logger.{
  stdout, Store, set_formatter, new_logger, new_manager, no_objects, default_pattern, log,
}
use cpp_library.Log.Logger.Formatters.{mem, dressed, set_formatter-appender}
use cpp_library.Log.Logger.Histories.{Reach, starts, Reach-log_total}

-- `[%p] %d{H}%m`
abbrev sample : List Piece
sample =
    text (b'[' ∷ [])
    ∷ plain level_kind
    ∷ text (b']' ∷ b' ' ∷ [])
    ∷ braced time_kind (b'H' ∷ [])
    ∷ plain message_kind
    ∷ []

sample-IsNormal : IsNormal sample
unfolding print
sample-IsNormal = a_text (add refl empty) refl (
    a_plain (at_byte refl refl refl)
      (a_text (add refl (add refl empty)) refl (a_braced (add refl empty) (a_plain at_end done))))

abbrev sample_formatter : LogFormatter
sample_formatter = record {
  pattern = b'[' ∷ b'%' ∷ b'p' ∷ b']' ∷ b' ' ∷ b'%' ∷ b'd' ∷ b'{' ∷ b'H' ∷ b'}' ∷ b'%' ∷ b'm' ∷ [];
  items =
      string (b'[' ∷ []) ∷ level ∷ string (b']' ∷ b' ' ∷ []) ∷ date_time (b'H' ∷ []) ∷ message ∷ [];
  is_error = false;
}

-- The default pattern has the items that its documentation shows.
new_formatter_default :
    new_formatter default_pattern
    ≡ some (record {
      pattern = default_pattern;
      items =
          date_time default_time
          ∷ tab
          ∷ thread_id
          ∷ tab
          ∷ thread_name
          ∷ tab
          ∷ fiber_id
          ∷ tab
          ∷ string (b'[' ∷ [])
          ∷ level
          ∷ string (b']' ∷ [])
          ∷ tab
          ∷ string (b'[' ∷ [])
          ∷ name
          ∷ string (b']' ∷ [])
          ∷ tab
          ∷ file_name
          ∷ string (b':' ∷ [])
          ∷ line
          ∷ tab
          ∷ message
          ∷ new_line
          ∷ [];
      is_error = false;
    })
unfolding new_formatter scan name_loop format_loop part_items part_item find_item entry
    new_date_time
new_formatter_default = refl

-- `%%` writes a percent sign and then reads its second byte again, so `%%m` is a percent sign and
-- the message, and `%%` alone an error.
new_formatter_percent :
    (new_formatter (b'%' ∷ b'%' ∷ b'm' ∷ [])
      ≡ some (record {
        pattern = b'%' ∷ b'%' ∷ b'm' ∷ [];
        items = string (b'%' ∷ []) ∷ message ∷ [];
        is_error = false;
      }))
    × (new_formatter (b'%' ∷ b'%' ∷ [])
        ≡ some (record {
          pattern = b'%' ∷ b'%' ∷ [];
          items = string (b'%' ∷ []) ∷ string (error_format []) ∷ [];
          is_error = true;
        }))
unfolding new_formatter scan name_loop format_loop part_items part_item find_item entry
new_formatter_percent = (refl, refl)

-- An open brace: the error stands in front of the text before it.
new_formatter_open :
    new_formatter (b'a' ∷ b'%' ∷ b'd' ∷ b'{' ∷ [])
    ≡ some (record {
      pattern = b'a' ∷ b'%' ∷ b'd' ∷ b'{' ∷ [];
      items = string pattern_error ∷ string (b'a' ∷ b'd' ∷ b'{' ∷ []) ∷ [];
      is_error = true;
    })
unfolding new_formatter scan name_loop format_loop part_items part_item find_item entry
new_formatter_open = refl

abbrev started : LogEvent
started = record {
  file = b'a' ∷ [];
  line_number = 120;
  elapsed = 0;
  thread = 7;
  fiber = 1;
  time = 5;
  thread_title = b'm' ∷ [];
  content = b'o' ∷ b'k' ∷ [];
  logger_name = b'r' ∷ [];
}

-- A parameter for strftime: the format itself
abbrev echo : List ℕ → ℕ → List ℕ
echo f t = f

format_sample :
    format echo sample_formatter info started
    ≡ b'[' ∷ b'I' ∷ b'N' ∷ b'F' ∷ b'O' ∷ b']' ∷ b' ' ∷ b'H' ∷ b'o' ∷ b'k' ∷ []
unfolding format format_items format_item to_string
format_sample = refl

decimal_120 : decimal 120 ≡ b'1' ∷ b'2' ∷ b'0' ∷ []
unfolding decimal digits
decimal_120 = refl

abbrev managed : Store
managed = elim new_manager [ some s ↦ s | none ↦ no_objects ]

managed-Reach : Reach managed
unfolding new_manager new_logger new_formatter scan name_loop format_loop part_items part_item
    find_item entry new_date_time
managed-Reach = starts refl

new_formatter-print_example : new_formatter (print sample) ≡ some sample_formatter
unfolding print piece_item kind_item new_date_time
new_formatter-print_example = new_formatter-print sample sample-IsNormal

new_formatter_total_example : (x : LogFormatter) × (new_formatter (b'%' ∷ b'{' ∷ []) ≡ some x)
new_formatter_total_example = new_formatter_total (b'%' ∷ b'{' ∷ [])

-- Of the appenders 0 and 1 of the logger 0, the first has a formatter of its own.
abbrev two_appenders : Store
two_appenders = record no_objects {
  logger = λ l. record {
    name = [];
    level = debug;
    appenders = 0 ∷ 1 ∷ [];
    formatter = none;
    root = none;
  };
  appender = λ a. elim a [
    | zero ↦ record {
      target = stdout;
      level = debug;
      has_formatter = true;
      formatter = some (record sample_formatter { pattern = [] });
    }
    | suc b ↦ record { target = stdout; level = debug; has_formatter = false; formatter = none }
  ];
  next_appender = 2;
}

set_formatter-appender_example :
    (set_formatter 0 (some sample_formatter) two_appenders).appender 1 ≡ record {
      target = stdout;
      level = debug;
      has_formatter = false;
      formatter = some sample_formatter;
    }
unfolding mem dressed
set_formatter-appender_example = set_formatter-appender 0 (some sample_formatter) 1 two_appenders

Reach-log_total_example :
    (w : List (ℕ × List (List ℕ))) × (log echo 2 0 info started managed ≡ some w)
Reach-log_total_example = Reach-log_total echo managed 0 info started managed-Reach
