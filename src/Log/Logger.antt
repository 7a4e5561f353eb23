-- ===== src/Log/Logger.antt =====
-- log.cpp: the loggers, their appenders and the manager of the loggers. Loggers and appenders are
-- shared, so they stand in a store under their addresses; a formatter never changes once it is made
-- and stands as a value. What an appender writes is a result, and `none` is the dereference of a
-- null pointer. The reopening of a file and the text of toYamlString are left out.
pub mod Laws
pub mod Config
pub mod Formatters
pub mod Runs
pub mod Changes
pub mod Histories
use cpp_library.Base.{
  same, ℕ, zero, suc, ◌+◌, Bool, true, false, ◌&&◌, ◌||◌, not, Option, none, some, List, [], ◌∷◌,
  ◌++◌, ◌==◌, if◌then◌else◌, ◌>>=◌,
}
use cpp_library.Log.Level.{Level, unknow, debug, at_least}
use cpp_library.Log.Pattern.{LogFormatter, new_formatter}
use cpp_library.Log.Format.{LogEvent, format}

pub data Target : Type 0 where
  stdout : Target
  file : List ℕ → Target

pub record Appender : Type 0 where
  pub target : Target
  pub level : Level
  pub has_formatter : Bool
  pub formatter : Option LogFormatter

pub record Logger : Type 0 where
  pub name : List ℕ
  pub level : Level
  pub appenders : List ℕ
  pub formatter : Option LogFormatter
  pub root : Option ℕ

-- `loggers_by_name` is `m_loggers_`; a new object gets the next address of its kind.
pub record Store : Type 0 where
  pub logger : ℕ → Logger
  pub appender : ℕ → Appender
  pub next_logger : ℕ
  pub next_appender : ℕ
  pub loggers_by_name : List (List ℕ × ℕ)

abbrev pub put_logger : ℕ → Logger → Store → Store
put_logger a l s = record s { logger = λ b. if a == b then l else s.logger b }

abbrev pub put_appender : ℕ → Appender → Store → Store
put_appender a x s = record s { appender = λ b. if a == b then x else s.appender b }

abbrev pub is_null {ℓ} : {A : Type ℓ} → Option A → Bool
is_null none = true
is_null (some a) = false

-- `LogAppender::setFormatter`
unfoldable pub set_appender_formatter : ℕ → Option LogFormatter → Store → Store
set_appender_formatter a f s =
    put_appender a (record (s.appender a) { formatter = f; has_formatter = not (is_null f) }) s

unfoldable pub set_appender_level : ℕ → Level → Store → Store
set_appender_level a l s = put_appender a (record (s.appender a) { level = l }) s

-- `if(!i->m_hasFormatter_) i->m_formatter_=m_formatter_;`
unfoldable pub dress : Option LogFormatter → ℕ → Store → Store
dress f a s =
    if (s.appender a).has_formatter
    then s
    else put_appender a (record (s.appender a) { formatter = f }) s

unfoldable pub dress_all : Option LogFormatter → List ℕ → Store → Store
dress_all f [] s = s
dress_all f (a ∷ more) s = dress_all f more (dress f a s)

-- `Logger::setFormatter(LogFormatter::ptr)`
unfoldable pub set_formatter : ℕ → Option LogFormatter → Store → Store
set_formatter l f s =
    dress_all f (s.logger l).appenders (put_logger l (record (s.logger l) { formatter = f }) s)

abbrev unless_error : ℕ → Store → LogFormatter → Store
unless_error l s x = if x.is_error then s else set_formatter l (some x) s

-- `Logger::setFormatter(const std::string&)`
unfoldable pub set_pattern : ℕ → List ℕ → Store → Option Store
set_pattern l p s = do x ← new_formatter p; some (unless_error l s x)

unfoldable pub set_level : ℕ → Level → Store → Store
set_level l v s = put_logger l (record (s.logger l) { level = v }) s

-- `Logger::addAppender`
unfoldable pub add_appender : ℕ → ℕ → Store → Store
add_appender l a s =
    let fresh = record (s.appender a) { formatter = (s.logger l).formatter } in
    let s' = if is_null (s.appender a).formatter then put_appender a fresh s else s in
    put_logger l (record (s'.logger l) { appenders = (s'.logger l).appenders ++ a ∷ [] }) s'

abbrev pub erase_first : ℕ → List ℕ → List ℕ
erase_first a [] = []
erase_first a (b ∷ bs) = if b == a then bs else b ∷ erase_first a bs

-- `Logger::delAppender`
unfoldable pub del_appender : ℕ → ℕ → Store → Store
del_appender l a s =
    put_logger l (record (s.logger l) { appenders = erase_first a (s.logger l).appenders }) s

-- `Logger::clearAppenders`
unfoldable pub clear_appenders : ℕ → Store → Store
clear_appenders l s = put_logger l (record (s.logger l) { appenders = [] }) s

-- `new Logger(name)`, with the default pattern of its constructor
abbrev pub default_pattern : List ℕ
default_pattern =
    b'%' ∷ b'd' ∷ b'{' ∷ b'%' ∷ b'Y' ∷ b'-' ∷ b'%' ∷ b'm' ∷ b'-' ∷ b'%' ∷ b'd' ∷ b' ' ∷ b'%' ∷ b'H'
    ∷ b':' ∷ b'%' ∷ b'M' ∷ b':' ∷ b'%' ∷ b'S' ∷ b'}' ∷ b'%' ∷ b'T' ∷ b'%' ∷ b't' ∷ b'%' ∷ b'T'
    ∷ b'%' ∷ b'N' ∷ b'%' ∷ b'T' ∷ b'%' ∷ b'F' ∷ b'%' ∷ b'T' ∷ b'[' ∷ b'%' ∷ b'p' ∷ b']' ∷ b'%'
    ∷ b'T' ∷ b'[' ∷ b'%' ∷ b'c' ∷ b']' ∷ b'%' ∷ b'T' ∷ b'%' ∷ b'f' ∷ b':' ∷ b'%' ∷ b'l' ∷ b'%'
    ∷ b'T' ∷ b'%' ∷ b'm' ∷ b'%' ∷ b'n' ∷ []

unfoldable pub new_logger : List ℕ → Option ℕ → Option Logger
new_logger n root = do
  x ← new_formatter default_pattern
  some (record { name = n; level = debug; appenders = []; formatter = some x; root = root })

abbrev pub lookup : List ℕ → List (List ℕ × ℕ) → Option ℕ
lookup n [] = none
lookup n ((m, a) ∷ ms) = if same m n then some a else lookup n ms

-- The root logger has the address 0.
abbrev pub root_logger : ℕ
root_logger = 0

-- `LoggerManager::getLogger`
unfoldable pub get_logger : List ℕ → Store → Option (ℕ × Store)
get_logger n s = elim (lookup n s.loggers_by_name) [
  | some a ↦ some (a, s)
  | none ↦ do
    l ← new_logger n (some root_logger)
    some (
      s.next_logger,
      record (put_logger s.next_logger l s) {
        next_logger = s.next_logger + 1;
        loggers_by_name = (n, s.next_logger) ∷ s.loggers_by_name;
      },
    )
]

-- `new StdoutLogAppender` and `new FileLogAppender`
unfoldable pub new_appender : Target → Store → ℕ × Store
new_appender t s = (
  s.next_appender,
  record (put_appender s.next_appender
      (record { target = t; level = debug; has_formatter = false; formatter = none }) s) {
        next_appender = s.next_appender + 1;
      },
)

-- No object has been made yet; no look-up leads to these.
abbrev pub no_objects : Store
no_objects = record {
  logger = λ a. record { name = []; level = debug; appenders = []; formatter = none; root = none };
  appender =
      λ a. record { target = stdout; level = debug; has_formatter = false; formatter = none };
  next_logger = 0;
  next_appender = 0;
  loggers_by_name = [];
}

abbrev pub root_name : List ℕ
root_name = b'r' ∷ b'o' ∷ b'o' ∷ b't' ∷ []

-- `LoggerManager::LoggerManager`
unfoldable pub new_manager : Option Store
new_manager = do
  l ← new_logger root_name none
  let s = record (put_logger root_logger l no_objects) { next_logger = 1 }
  let (a, t) = new_appender stdout s
  some (record (add_appender root_logger a t) { loggers_by_name = (root_name, root_logger) ∷ [] })

module _ (strftime : List ℕ → ℕ → List ℕ) where
  -- `StdoutLogAppender::log` and `FileLogAppender::log`: what is written, if anything
  unfoldable pub append : Appender → Level → LogEvent → Option (List (List ℕ))
  append x l e =
      if at_least l x.level
      then (do f ← x.formatter; some (format strftime f l e ∷ []))
      else some []

  -- The loop over the appenders: what each one has written, in order
  unfoldable pub append_all :
      (ℕ → Appender) → List ℕ → Level → LogEvent → Option (List (ℕ × List (List ℕ)))
  append_all h [] l e = some []
  append_all h (a ∷ more) l e = do
    w ← append (h a) l e
    ws ← append_all h more l e
    some ((a, w) ∷ ws)

  -- `Logger::log`, with fuel for the loggers on the way to the root
  unfoldable pub log : ℕ → ℕ → Level → LogEvent → Store → Option (List (ℕ × List (List ℕ)))
  log zero a l e s = none
  log (suc fuel) a l e s =
      if at_least l (s.logger a).level
      then elim (s.logger a).appenders [
        | b ∷ bs ↦ append_all s.appender (b ∷ bs) l e
        | [] ↦ elim (s.logger a).root [ some r ↦ log fuel r l e s | none ↦ some [] ]
      ]
      else some []
