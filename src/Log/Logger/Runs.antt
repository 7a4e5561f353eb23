-- ===== src/Log/Logger/Runs.antt =====
-- log.cpp: every operation on the loggers keeps their invariant.
use cpp_library.Base.{
  ℕ, ◌≤◌, ◌<◌, false, ◌≡◌, inl, inr, refl, none, some, List, [], ◌∷◌, ◌++◌, ==_refl, Bool-cases,
  arith,
}
use cpp_library.Log.Level.{Level, debug}
use cpp_library.Log.Pattern.{LogFormatter}
use cpp_library.Log.Pattern.RoundTrip.{new_formatter_total}
use cpp_library.Log.Logger.{
  Target, Appender, Store, put_logger, put_appender, is_null, set_appender_formatter,
  set_appender_level, dress, dress_all, set_formatter, set_pattern, set_level, add_appender,
  del_appender, clear_appenders, new_appender,
}
use cpp_library.Log.Logger.Laws.{
  Listed, AllListed, AllListed-Keeps, AllListed-append, AllListed-erase_first, Inv,
  put_appender-Inv, put_logger-Inv,
}

-- A store behind an operation: the invariant holds, and no object has gone.
pub record Grown (s t : Store) : Type 0 where
  pub inv : Inv t
  pub loggers : s.next_logger ≤ t.next_logger
  pub appenders : s.next_appender ≤ t.next_appender

pub Grown-trans : {s t u : Store} → Grown s t → Grown t u → Grown s u
Grown-trans g h = record {
  inv = h.inv;
  loggers = omega (arith, g.loggers, h.loggers);
  appenders = omega (arith, g.appenders, h.appenders);
}

same_size :
    {s t : Store}
    → Inv t
    → t.next_logger ≡ s.next_logger
    → t.next_appender ≡ s.next_appender
    → Grown s t
same_size i e f = record { inv = i; loggers = omega (arith, e); appenders = omega (arith, f) }

pub set_appender_formatter-Grown :
    (a : ℕ) (x : LogFormatter) (s : Store) → Inv s → Grown s (set_appender_formatter a (some x) s)
unfolding set_appender_formatter
set_appender_formatter-Grown a x s i = same_size (put_appender-Inv a _ s (λ _ _. refl) i) refl refl

pub set_appender_level-Grown :
    (a : ℕ) (v : Level) (s : Store) → Inv s → Grown s (set_appender_level a v s)
unfolding set_appender_level
set_appender_level-Grown a v s i = same_size (put_appender-Inv a _ s (λ _ h. h) i) refl refl

dress-Grown : (x : LogFormatter) (a : ℕ) (s : Store) → Inv s → Grown s (dress (some x) a s)
unfolding dress
dress-Grown x a s i = elim (Bool-cases (s.appender a).has_formatter) [
  | inl e ↦ rw e (same_size i refl refl)
  | inr e ↦ rw e (same_size (put_appender-Inv a _ s (λ _ _. refl) i) refl refl)
]

dress_all-Grown :
    (x : LogFormatter) (l : List ℕ) (s : Store) → Inv s → Grown s (dress_all (some x) l s)
unfolding dress_all
dress_all-Grown x [] s i = same_size i refl refl
dress_all-Grown x (a ∷ more) s i =
    let g = dress-Grown x a s i in Grown-trans g (dress_all-Grown x more (dress (some x) a s) g.inv)

pub set_formatter-Grown :
    (l : ℕ) (x : LogFormatter) (s : Store) → Inv s → Grown s (set_formatter l (some x) s)
unfolding set_formatter
set_formatter-Grown l x s i =
    let y = record (s.logger l) { formatter = some x } in
    let j : Inv (put_logger l y s) = put_logger-Inv l y s (λ _. refl) (i.listed l) refl i in
    Grown-trans (same_size j refl refl)
      (dress_all-Grown x (s.logger l).appenders (put_logger l y s) j)

pub set_pattern-Grown :
    (l : ℕ) (p : List ℕ) (s : Store)
    → Inv s
    → (t : Store) × (set_pattern l p s ≡ some t) × Grown s t
unfolding set_pattern
set_pattern-Grown l p s i =
    let (x, e) = new_formatter_total p in
    elim (Bool-cases x.is_error) [
      | inl h ↦ (s, rw (e, set_pattern) (rw (h, set_pattern) refl), same_size i refl refl)
      | inr h ↦ (
        set_formatter l (some x) s,
        rw (e, set_pattern) (rw (h, set_pattern) refl),
        set_formatter-Grown l x s i,
      )
    ]

pub set_level-Grown : (l : ℕ) (v : Level) (s : Store) → Inv s → Grown s (set_level l v s)
unfolding set_level
set_level-Grown l v s i =
    same_size (put_logger-Inv l _ s (i.formatted l) (i.listed l) refl i) refl refl

pub clear_appenders-Grown : (l : ℕ) (s : Store) → Inv s → Grown s (clear_appenders l s)
unfolding clear_appenders AllListed
clear_appenders-Grown l s i = same_size (put_logger-Inv l _ s (i.formatted l) tt refl i) refl refl

pub del_appender-Grown : (l a : ℕ) (s : Store) → Inv s → Grown s (del_appender l a s)
unfolding del_appender
del_appender-Grown l a s i =
    same_size
      (put_logger-Inv l _ s (i.formatted l)
        (AllListed-erase_first s a (s.logger l).appenders (i.listed l)) refl i)
      refl refl

-- The appender gets the formatter of the logger, where it has none.
pub add_appender-Grown :
    (l a : ℕ) (s : Store)
    → Inv s
    → l < s.next_logger
    → a < s.next_appender
    → Grown s (add_appender l a s)
unfolding add_appender
add_appender-Grown l a s i b c = elim (Bool-cases (is_null (s.appender a).formatter)) [
  | inr e ↦ rw e (added s i (c, e))
  | inl e ↦
      let fresh = record (s.appender a) { formatter = (s.logger l).formatter } in
      let t = put_appender a fresh s in
      let j : Inv t = put_appender-Inv a fresh s (λ _ _. i.formatted l b) i in
      let g : Grown s t = same_size j refl refl in
      rw e (Grown-trans g (added t j (c, rw (==_refl a) (i.formatted l b))))
]
  where
    added :
        (t : Store)
        → Inv t
        → Listed t a
        → Grown t
            (put_logger l (record (t.logger l) { appenders = (t.logger l).appenders ++ a ∷ [] }) t)
    added t j g =
        same_size
          (put_logger-Inv l _ t (j.formatted l)
            (AllListed-append t (t.logger l).appenders a (j.listed l) g) refl j)
          refl refl

pub new_appender-Grown :
    (k : Target) (s : Store)
    → Inv s
    → ((new_appender k s).0 < (new_appender k s).1.next_appender) × Grown s (new_appender k s).1
unfolding new_appender
new_appender-Grown k s i =
    let x : Appender = record {
      target = k;
      level = debug;
      has_formatter = false;
      formatter = none;
    } in
    let t = put_appender s.next_appender x s in
    let j : Inv t = put_appender-Inv s.next_appender x s (λ h _. absurd (omega (arith, h))) i in
    (
      omega arith,
      record {
        inv = record {
          formatted = j.formatted;
          listed = λ l.
              AllListed-Keeps t _ (t.logger l).appenders (λ a (h, g). (omega arith, g))
                (j.listed l);
          named = j.named;
          has_root = j.has_root;
          top = j.top;
          rooted = j.rooted;
        };
        loggers = omega arith;
        appenders = omega arith;
      },
    )
