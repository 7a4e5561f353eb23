-- ===== src/Log/Logger/Changes.antt =====
-- log.cpp: getLogger and the listener of the configuration return and keep the loggers' invariant.
use cpp_library.Base.{
  same, ℕ, ◌+◌, ◌<◌, false, ◌≡◌, ◌⊎◌, inl, inr, refl, sym, ◌∙◌, Option, some, List, [], ◌∷◌, ◌==◌,
  Bool-cases, Option-cases, arith, some-injective,
}
use cpp_library.Log.Level.{unknow, debug}
use cpp_library.Log.Pattern.RoundTrip.{new_formatter_total}
use cpp_library.Log.Logger.{
  Logger, Store, put_logger, is_null, set_level, clear_appenders, new_logger, default_pattern,
  lookup, get_logger, new_appender, root_logger, set_appender_level, add_appender, stdout, file,
}
use cpp_library.Log.Logger.Config.{
  LogAppenderDefine, LogDefine, find_define, make_appender, appender_format, add_appenders,
  logger_format, define_logger, unchanged, define_all, is_found, remove_all, on_change,
}
use cpp_library.Log.Logger.Laws.{AllListed, AllListed-Keeps, Inv}
use cpp_library.Log.Logger.Runs.{
  Grown, Grown-trans, set_level-Grown, clear_appenders-Grown, set_pattern-Grown, add_appender-Grown,
  new_appender-Grown, set_appender_formatter-Grown, set_appender_level-Grown,
}

-- A new logger has a formatter, no appenders, and the given root.
pub new_logger_lem :
    (n : List ℕ) (root : Option ℕ)
    → (l : Logger) × (new_logger n root ≡ some l)
      × (is_null l.formatter ≡ false)
      × (l.appenders ≡ [])
      × (l.root ≡ root)
unfolding new_logger
new_logger_lem n root =
    let (x, e) = new_formatter_total default_pattern in
    (
      record { name = n; level = debug; appenders = []; formatter = some x; root = root },
      rw (e, new_logger) refl,
      refl,
      refl,
      refl,
    )

abbrev enter : List ℕ → Logger → Store → Store
enter n l s = record (put_logger s.next_logger l s) {
  next_logger = s.next_logger + 1;
  loggers_by_name = (n, s.next_logger) ∷ s.loggers_by_name;
}

enter-Inv :
    (n : List ℕ) (l : Logger) (s : Store)
    → Inv s
    → is_null l.formatter ≡ false
    → l.appenders ≡ []
    → l.root ≡ some root_logger
    → Inv (enter n l s)
unfolding AllListed
enter-Inv n l s i f a r = record {
  formatted = λ m b. elim (Bool-cases (s.next_logger == m)) [
    | inl e ↦ rw e f
    | inr e ↦ rw e (i.formatted m (ground arith))
  ];
  listed = λ m. elim (Bool-cases (s.next_logger == m)) [
    | inl e ↦ rw e (rw a tt)
    | inr e ↦ rw e (AllListed-Keeps s (enter n l s) (s.logger m).appenders (λ _ h. h) (i.listed m))
  ];
  named = λ m b e. elim (Bool-cases (same n m)) [
    | inl q ↦ let k : s.next_logger ≡ b = some-injective (rw q at e) in omega (arith, k)
    | inr q ↦ let k = i.named m b (rw q at e) in omega (arith, k)
  ];
  has_root = omega arith;
  top = let k : (s.next_logger == 0) ≡ false = ground (arith, i.has_root) in rw k i.top;
  rooted = λ m q e. elim (Bool-cases (s.next_logger == m)) [
    | inl k ↦ some-injective (sym (rw k at e) ∙ r)
    | inr k ↦ i.rooted m q (rw k at e)
  ];
}

-- The logger that getLogger returns has been made.
pub get_logger-Grown :
    (n : List ℕ) (s : Store)
    → Inv s
    → (a : ℕ) × (t : Store) × (get_logger n s ≡ some (a, t)) × (a < t.next_logger) × Grown s t
unfolding get_logger
get_logger-Grown n s i = elim (Option-cases (lookup n s.loggers_by_name)) [
  | inr (a, e) ↦ (
    a,
    s,
    rw (e, get_logger) refl,
    i.named n a e,
    record { inv = i; loggers = omega arith; appenders = omega arith },
  )
  | inl e ↦
      let (l, made, f, a, r) = new_logger_lem n (some root_logger) in
      (
        s.next_logger,
        enter n l s,
        rw (e, get_logger) (rw (made, get_logger) refl),
        omega arith,
        record { inv = enter-Inv n l s i f a r; loggers = omega arith; appenders = omega arith },
      )
]

-- Each definition of an appender is one of a file or of stdout, as the conversion from YAML makes
-- them.
pub data AllTyped : List LogAppenderDefine → Type 0 where
  none_left : AllTyped []
  typed :
      {d : LogAppenderDefine} {ds : List LogAppenderDefine}
      → (d.type ≡ 1) ⊎ (d.type ≡ 2)
      → AllTyped ds
      → AllTyped (d ∷ ds)

pub data AllDefined : List LogDefine → Type 0 where
  none_left : AllDefined []
  defined :
      {d : LogDefine} {ds : List LogDefine}
      → AllTyped d.appenders
      → AllDefined ds
      → AllDefined (d ∷ ds)

make_appender-Grown :
    (d : LogAppenderDefine) (s : Store)
    → Inv s
    → (d.type ≡ 1) ⊎ (d.type ≡ 2)
    → (a : ℕ) × (t : Store) × (make_appender d s ≡ some (a, t)) × (a < t.next_appender) × Grown s t
unfolding make_appender
make_appender-Grown d s i h = elim h [
  | inl e ↦
      let (b, g) = new_appender-Grown (file d.file) s i in
      ((new_appender (file d.file) s).0, (new_appender (file d.file) s).1, rw e refl, b, g)
  | inr e ↦
      let (b, g) = new_appender-Grown stdout s i in
      ((new_appender stdout s).0, (new_appender stdout s).1, rw e refl, b, g)
]

unchanged-Grown : (s : Store) → Inv s → Grown s s
unchanged-Grown s i = record { inv = i; loggers = omega arith; appenders = omega arith }

appender_format-Grown :
    (a : ℕ) (p : List ℕ) (s : Store)
    → Inv s
    → (t : Store) × (appender_format a p s ≡ some t) × Grown s t
unfolding appender_format
appender_format-Grown a [] s i = (s, refl, unchanged-Grown s i)
appender_format-Grown a (c ∷ p) s i =
    let (x, e) = new_formatter_total (c ∷ p) in
    elim (Bool-cases x.is_error) [
      | inl h ↦ (s, rw (e, appender_format) (rw (h, appender_format) refl), unchanged-Grown s i)
      | inr h ↦ (
        _,
        rw (e, appender_format) (rw (h, appender_format) refl),
        set_appender_formatter-Grown a x s i,
      )
    ]

add_appenders-Grown :
    (l : ℕ) (ds : List LogAppenderDefine) (s : Store)
    → Inv s
    → l < s.next_logger
    → AllTyped ds
    → (t : Store) × (add_appenders l ds s ≡ some t) × Grown s t
unfolding add_appenders
add_appenders-Grown l [] s i b none_left = (s, refl, unchanged-Grown s i)
add_appenders-Grown l (d ∷ ds) s i b (typed h k) =
    let (a, t, made, c, g) = make_appender-Grown d s i h in
    let g' = set_appender_level-Grown a d.level t g.inv in
    let (u, formatted, g'') =
      appender_format-Grown a d.formatter (set_appender_level a d.level t) g'.inv in
    let to_u = Grown-trans g' g'' in
    let added =
      add_appender-Grown l a u g''.inv (omega (arith, b, g.loggers, to_u.loggers))
        (omega (arith, c, to_u.appenders)) in
    let so_far = Grown-trans g (Grown-trans to_u added) in
    let (v, rest, g3) =
      add_appenders-Grown l ds (add_appender l a u) added.inv (omega (arith, b, so_far.loggers))
        k in
    (v, rw (made, add_appenders) (rw (formatted, add_appenders) rest), Grown-trans so_far g3)

logger_format-Grown :
    (l : ℕ) (p : List ℕ) (s : Store)
    → Inv s
    → (t : Store) × (logger_format l p s ≡ some t) × Grown s t
unfolding logger_format
logger_format-Grown l [] s i = (s, refl, unchanged-Grown s i)
logger_format-Grown l (c ∷ p) s i = set_pattern-Grown l (c ∷ p) s i

define_logger-Grown :
    (d : LogDefine) (s : Store)
    → Inv s
    → AllTyped d.appenders
    → (t : Store) × (define_logger d s ≡ some t) × Grown s t
unfolding define_logger
define_logger-Grown d s i h =
    let (a, t, found, b, g) = get_logger-Grown d.name s i in
    let g1 = set_level-Grown a d.level t g.inv in
    let (u, formatted, g2) = logger_format-Grown a d.formatter (set_level a d.level t) g1.inv in
    let g3 = clear_appenders-Grown a u g2.inv in
    let so_far = Grown-trans g1 (Grown-trans g2 g3) in
    let (v, added, g4) =
      add_appenders-Grown a d.appenders (clear_appenders a u) g3.inv
        (omega (arith, b, so_far.loggers)) h in
    (
      v,
      rw (found, define_logger) (rw (formatted, define_logger) added),
      Grown-trans g (Grown-trans so_far g4),
    )

define_all-Grown :
    (old ds : List LogDefine) (s : Store)
    → Inv s
    → AllDefined ds
    → (t : Store) × (define_all old ds s ≡ some t) × Grown s t
unfolding define_all
define_all-Grown old [] s i none_left = (s, refl, unchanged-Grown s i)
define_all-Grown old (d ∷ ds) s i (defined h k) =
    elim (Bool-cases (unchanged d (find_define d.name old))) [
      | inl e ↦ let (t, f, g) = define_all-Grown old ds s i k in (t, rw (e, define_all) f, g)
      | inr e ↦
          let (t, f, g) = define_logger-Grown d s i h in
          let (u, f', g') = define_all-Grown old ds t g.inv k in
          (u, rw (e, define_all) (rw (f, define_all) f'), Grown-trans g g')
    ]

remove_all-Grown :
    (new ds : List LogDefine) (s : Store)
    → Inv s
    → (t : Store) × (remove_all new ds s ≡ some t) × Grown s t
unfolding remove_all
remove_all-Grown new [] s i = (s, refl, unchanged-Grown s i)
remove_all-Grown new (d ∷ ds) s i = elim (Bool-cases (is_found (find_define d.name new))) [
  | inl e ↦ let (t, f, g) = remove_all-Grown new ds s i in (t, rw (e, remove_all) f, g)
  | inr e ↦
      let (a, t, found, b, g) = get_logger-Grown d.name s i in
      let g1 = set_level-Grown a unknow t g.inv in
      let g2 = clear_appenders-Grown a (set_level a unknow t) g1.inv in
      let (u, f, g3) = remove_all-Grown new ds (clear_appenders a (set_level a unknow t)) g2.inv in
      (
        u,
        rw (e, remove_all) (rw (found, remove_all) f),
        Grown-trans g (Grown-trans g1 (Grown-trans g2 g3)),
      )
]

-- A change of the configuration whose appenders are files or stdout dereferences no null pointer,
-- and keeps the invariant of the loggers.
pub on_change-Grown :
    (old new : List LogDefine) (s : Store)
    → Inv s
    → AllDefined new
    → (t : Store) × (on_change old new s ≡ some t) × Grown s t
unfolding on_change
on_change-Grown old new s i h =
    let (t, e, g) = define_all-Grown old new s i h in
    let (u, f, g') = remove_all-Grown new old t g.inv in (u, rw (e, on_change) f, Grown-trans g g')
