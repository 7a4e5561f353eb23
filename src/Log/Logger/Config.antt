-- ===== src/Log/Logger/Config.antt =====
-- log.cpp: `LogAppenderDefine`, `LogDefine`, and the listener that `LogIniter` puts on the
-- configuration of the loggers. The conversions from and to YAML are left out.
use cpp_library.Base.{
  same, ℕ, Bool, true, false, ◌&&◌, Option, none, some, List, [], ◌∷◌, ◌==◌, if◌then◌else◌, ◌>>=◌,
}
use cpp_library.Log.Level.{Level, unknow, rank}
use cpp_library.Log.Pattern.{LogFormatter, new_formatter}
use cpp_library.Log.Logger.{
  stdout, file, Store, set_appender_formatter, set_appender_level, set_pattern, set_level,
  add_appender, clear_appenders, get_logger, new_appender,
}

-- 1 is a file and 2 is stdout.
pub record LogAppenderDefine : Type 0 where
  pub type : ℕ
  pub level : Level
  pub formatter : List ℕ
  pub file : List ℕ

pub record LogDefine : Type 0 where
  pub name : List ℕ
  pub level : Level
  pub formatter : List ℕ
  pub appenders : List LogAppenderDefine

abbrev pub same_appender : LogAppenderDefine → LogAppenderDefine → Bool
same_appender x y =
    x.type == y.type
    && rank x.level == rank y.level
    && same x.formatter y.formatter
    && same x.file y.file

abbrev pub same_appenders : List LogAppenderDefine → List LogAppenderDefine → Bool
same_appenders [] [] = true
same_appenders [] (y ∷ ys) = false
same_appenders (x ∷ xs) [] = false
same_appenders (x ∷ xs) (y ∷ ys) = same_appender x y && same_appenders xs ys

-- `LogDefine::operator==`
abbrev pub same_define : LogDefine → LogDefine → Bool
same_define x y =
    same x.name y.name
    && rank x.level == rank y.level
    && same x.formatter y.formatter
    && same_appenders x.appenders y.appenders

-- `std::set::find`: the order of the set goes by the name.
unfoldable pub find_define : List ℕ → List LogDefine → Option LogDefine
find_define n [] = none
find_define n (d ∷ ds) = if same d.name n then some d else find_define n ds

abbrev is_empty : List ℕ → Bool
is_empty [] = true
is_empty (c ∷ cs) = false

-- The appender of a definition; another type leaves a null pointer.
unfoldable pub make_appender : LogAppenderDefine → Store → Option (ℕ × Store)
make_appender d s =
    if d.type == 1
    then some (new_appender (file d.file) s)
    else if d.type == 2
    then some (new_appender stdout s)
    else none

abbrev pub keep_or_set : ℕ → Store → LogFormatter → Store
keep_or_set a s x = if x.is_error then s else set_appender_formatter a (some x) s

-- `if(!a.formatter.empty()) { ... }`
unfoldable pub appender_format : ℕ → List ℕ → Store → Option Store
appender_format a p s =
    if is_empty p then some s else (do x ← new_formatter p; some (keep_or_set a s x))

-- `for(auto& a:i.appenders)`
unfoldable pub add_appenders : ℕ → List LogAppenderDefine → Store → Option Store
add_appenders l [] s = some s
add_appenders l (d ∷ ds) s = do
  r ← make_appender d s
  t ← appender_format r.0 d.formatter (set_appender_level r.0 d.level r.1)
  add_appenders l ds (add_appender l r.0 t)

unfoldable pub logger_format : ℕ → List ℕ → Store → Option Store
logger_format l p s = if is_empty p then some s else set_pattern l p s

-- The round of the first loop for one definition that is new or has changed
unfoldable pub define_logger : LogDefine → Store → Option Store
define_logger d s = do
  r ← get_logger d.name s
  t ← logger_format r.0 d.formatter (set_level r.0 d.level r.1)
  add_appenders r.0 d.appenders (clear_appenders r.0 t)

abbrev pub unchanged : LogDefine → Option LogDefine → Bool
unchanged d none = false
unchanged d (some o) = same_define d o

-- `for(auto& i : new_value)`
unfoldable pub define_all : List LogDefine → List LogDefine → Store → Option Store
define_all old [] s = some s
define_all old (d ∷ ds) s =
    if unchanged d (find_define d.name old)
    then define_all old ds s
    else (do t ← define_logger d s; define_all old ds t)

abbrev pub is_found : Option LogDefine → Bool
is_found none = false
is_found (some d) = true

-- `for(auto& i:old_value)`
unfoldable pub remove_all : List LogDefine → List LogDefine → Store → Option Store
remove_all new [] s = some s
remove_all new (d ∷ ds) s = if is_found (find_define d.name new) then remove_all new ds s else (do
  r ← get_logger d.name s
  remove_all new ds (clear_appenders r.0 (set_level r.0 unknow r.1)))

-- The listener
unfoldable pub on_change : List LogDefine → List LogDefine → Store → Option Store
on_change old new s = do t ← define_all old new s; remove_all new old t
