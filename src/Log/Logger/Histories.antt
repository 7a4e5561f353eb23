-- ===== src/Log/Logger/Histories.antt =====
-- log.cpp: whatever has been done to the loggers before, logging is defined.
use mathlib.Core.Path.{subst}
use cpp_library.Base.{
  same, ℕ, suc, ◌<◌, true, false, ◌≡◌, inl, inr, refl, sym, ap, ◌∙◌, Option, none, some, List, [],
  ◌∷◌, ◌==◌, Bool-cases, Option-cases, arith, some-injective, none≢some,
}
use cpp_library.Log.Level.{Level, at_least}
use cpp_library.Log.Pattern.{LogFormatter}
use cpp_library.Log.Format.{LogEvent, format}
use cpp_library.Log.Logger.{
  Target, stdout, Appender, Logger, Store, put_logger, is_null, set_appender_formatter,
  set_appender_level, set_formatter, set_pattern, set_level, add_appender, del_appender,
  clear_appenders, get_logger, new_appender, new_manager, no_objects, root_logger, root_name,
  append, append_all, log,
}
use cpp_library.Log.Logger.Config.{LogDefine, on_change}
use cpp_library.Log.Logger.Laws.{AllListed, AllListed-Keeps, Inv}
use cpp_library.Log.Logger.Runs.{
  Grown, set_level-Grown, clear_appenders-Grown, set_pattern-Grown, add_appender-Grown,
  del_appender-Grown, new_appender-Grown, set_appender_formatter-Grown, set_appender_level-Grown,
  set_formatter-Grown,
}
use cpp_library.Log.Logger.Changes.{AllDefined, get_logger-Grown, on_change-Grown, new_logger_lem}

not_null : (f : Option LogFormatter) → is_null f ≡ false → (x : LogFormatter) × (f ≡ some x)
not_null none h = cc
not_null (some x) h = (x, refl)

module _ (strftime : List ℕ → ℕ → List ℕ) where
  append_total :
      (x : Appender) (l : Level) (e : LogEvent)
      → is_null x.formatter ≡ false
      → (w : List (List ℕ)) × (append strftime x l e ≡ some w)
  unfolding append
  append_total x l e h = elim (Bool-cases (at_least l x.level)) [
    | inl k ↦
        let (f, g) = not_null x.formatter h in
        (format strftime f l e ∷ [], rw (k, append) (rw g refl))
    | inr k ↦ ([], rw k refl)
  ]

  append_all_total :
      (s : Store) (more : List ℕ) (l : Level) (e : LogEvent)
      → AllListed s more
      → (w : List (ℕ × List (List ℕ))) × (append_all strftime s.appender more l e ≡ some w)
  unfolding append_all AllListed
  append_all_total s [] l e h = ([], refl)
  append_all_total s (a ∷ more) l e ((_, f), hs) =
      let (w, p) = append_total (s.appender a) l e f in
      let (ws, q) = append_all_total s more l e hs in
      ((a, w) ∷ ws, rw (p, append_all) (rw (q, append_all) refl))

  -- A logger's own appenders never fail, so `log` is defined where it is for the root.
  log_round :
      (fuel a : ℕ) (l : Level) (e : LogEvent) (s : Store)
      → Inv s
      → ((r : ℕ)
          → (s.logger a).root ≡ some r
          → (w : List (ℕ × List (List ℕ))) × (log strftime fuel r l e s ≡ some w))
      → (w : List (ℕ × List (List ℕ))) × (log strftime (suc fuel) a l e s ≡ some w)
  unfolding log
  log_round fuel a l e s i up = elim (Bool-cases (at_least l (s.logger a).level)) [
    | inr k ↦ ([], rw k refl)
    | inl k ↦ by_list (s.logger a).appenders refl k
  ]
    where
      by_list :
          (more : List ℕ)
          → (s.logger a).appenders ≡ more
          → at_least l (s.logger a).level ≡ true
          → (w : List (ℕ × List (List ℕ))) × (log strftime (suc fuel) a l e s ≡ some w)
      by_list (b ∷ more) q k =
          let (w, p) = append_all_total s (b ∷ more) l e (subst (AllListed s) q (i.listed a)) in
          (w, rw (k, log) (rw q p))
      by_list [] q k = elim (Option-cases (s.logger a).root) [
        | inl r ↦ ([], rw (k, log) (rw q (rw r refl)))
        | inr (r, f) ↦ let (w, p) = up r f in (w, rw (k, log) (rw q (rw f p)))
      ]

  -- In a store with the invariant, logging any event at any level to any logger comes to an end
  -- within the logger and the root, and dereferences no null formatter.
  pub log_total :
      (a : ℕ) (l : Level) (e : LogEvent) (s : Store)
      → Inv s
      → (w : List (ℕ × List (List ℕ))) × (log strftime 2 a l e s ≡ some w)
  log_total a l e s i = log_round 1 a l e s i (λ r f. log_round 0 r l e s i (λ q g.
      absurd
        (none≢some (sym i.top ∙ ap (λ (k : ℕ). (s.logger k).root) (sym (i.rooted a r f)) ∙ g))))

-- One operation on the loggers. No null formatter is set, and loggers and appenders are named by
-- addresses that have been made.
pub data Step : Store → Store → Type 0 where
  formats_appender :
      {s : Store} (a : ℕ) (x : LogFormatter) → Step s (set_appender_formatter a (some x) s)
  levels_appender : {s : Store} (a : ℕ) (v : Level) → Step s (set_appender_level a v s)
  formats : {s : Store} (l : ℕ) (x : LogFormatter) → Step s (set_formatter l (some x) s)
  patterns : {s t : Store} (l : ℕ) (p : List ℕ) → set_pattern l p s ≡ some t → Step s t
  levels : {s : Store} (l : ℕ) (v : Level) → Step s (set_level l v s)
  adds :
      {s : Store} (l a : ℕ) → l < s.next_logger → a < s.next_appender → Step s (add_appender l a s)
  deletes : {s : Store} (l a : ℕ) → Step s (del_appender l a s)
  clears : {s : Store} (l : ℕ) → Step s (clear_appenders l s)
  gets : {s t : Store} (n : List ℕ) (a : ℕ) → get_logger n s ≡ some (a, t) → Step s t
  makes : {s : Store} (k : Target) → Step s (new_appender k s).1
  changes :
      {s t : Store} (old new : List LogDefine)
      → AllDefined new
      → on_change old new s ≡ some t
      → Step s t

pub data Reach : Store → Type 0 where
  starts : {s : Store} → new_manager ≡ some s → Reach s
  steps : {s t : Store} → Reach s → Step s t → Reach t

returned : {s t u : Store} {r : Option Store} → r ≡ some t → Grown s t → r ≡ some u → Inv u
returned e g f = subst Inv (some-injective (sym e ∙ f)) g.inv

Step-Inv : {s t : Store} → Inv s → Step s t → Inv t
Step-Inv {s} i (formats_appender a x) = (set_appender_formatter-Grown a x s i).inv
Step-Inv {s} i (levels_appender a v) = (set_appender_level-Grown a v s i).inv
Step-Inv {s} i (formats l x) = (set_formatter-Grown l x s i).inv
Step-Inv {s} i (patterns l p e) = let (t, f, g) = set_pattern-Grown l p s i in returned f g e
Step-Inv {s} i (levels l v) = (set_level-Grown l v s i).inv
Step-Inv {s} i (adds l a b c) = (add_appender-Grown l a s i b c).inv
Step-Inv {s} i (deletes l a) = (del_appender-Grown l a s i).inv
Step-Inv {s} i (clears l) = (clear_appenders-Grown l s i).inv
Step-Inv {s} i (gets n a e) =
    let (b, t, f, _, g) = get_logger-Grown n s i in
    subst Inv (ap (λ r. r.1) (some-injective (sym f ∙ e))) g.inv
Step-Inv {s} i (makes k) = (new_appender-Grown k s i).1.inv
Step-Inv {s} i (changes old new h e) =
    let (t, f, g) = on_change-Grown old new s i h in returned f g e

-- The store with the root logger only
only_root-Inv :
    (l : Logger)
    → is_null l.formatter ≡ false
    → l.appenders ≡ []
    → l.root ≡ none
    → Inv (record (put_logger root_logger l no_objects) { next_logger = 1 })
unfolding AllListed
only_root-Inv l f a r = record {
  formatted = λ m b. let k : (0 == m) ≡ true = ground arith in rw k f;
  listed = λ m. elim (Bool-cases (0 == m)) [ inl k ↦ rw k (rw a tt) | inr k ↦ rw k tt ];
  named = λ n b e. absurd (none≢some e);
  has_root = omega arith;
  top = r;
  rooted = λ m q e. elim (Bool-cases (0 == m)) [
    | inl k ↦ absurd (none≢some (sym r ∙ (rw k at e)))
    | inr k ↦ absurd (none≢some (rw k at e))
  ];
}

named-Inv : (s : Store) → Inv s → Inv (record s { loggers_by_name = (root_name, root_logger) ∷ [] })
named-Inv s i = record {
  formatted = i.formatted;
  listed = λ l.
      AllListed-Keeps s (record s { loggers_by_name = (root_name, root_logger) ∷ [] })
        (s.logger l).appenders (λ _ h. h) (i.listed l);
  named = λ n a e. elim (Bool-cases (same root_name n)) [
    | inl q ↦ let k : 0 ≡ a = some-injective (rw q at e) in omega (arith, k, i.has_root)
    | inr q ↦ absurd (none≢some (rw q at e))
  ];
  has_root = i.has_root;
  top = i.top;
  rooted = i.rooted;
}

pub new_manager-Inv : (s : Store) → new_manager ≡ some s → Inv s
unfolding new_manager
new_manager-Inv s e =
    let (l, made, f, a, r) = new_logger_lem root_name none in
    let base : Store = record (put_logger root_logger l no_objects) { next_logger = 1 } in
    let (b, g) = new_appender-Grown stdout base (only_root-Inv l f a r) in
    let t = (new_appender stdout base).1 in
    let one : root_logger < t.next_logger = omega (arith, g.loggers) in
    let h = add_appender-Grown root_logger (new_appender stdout base).0 t g.inv one b in
    subst Inv (some-injective (rw made at e))
      (named-Inv (add_appender root_logger (new_appender stdout base).0 t) h.inv)

Reach-Inv : {s : Store} → Reach s → Inv s
Reach-Inv {s} (starts e) = new_manager-Inv s e
Reach-Inv (steps r q) = Step-Inv (Reach-Inv r) q

-- After any operations on the loggers that set no null formatter, logging an event to any logger
-- comes to an end within the logger and the root, and dereferences no null pointer.
pub Reach-log_total :
    (strftime : List ℕ → ℕ → List ℕ) (s : Store) (a : ℕ) (l : Level) (e : LogEvent)
    → Reach s
    → (w : List (ℕ × List (List ℕ))) × (log strftime 2 a l e s ≡ some w)
Reach-log_total strftime s a l e r = log_total strftime a l e s (Reach-Inv r)
