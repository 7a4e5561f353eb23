-- ===== src/Log/Logger/Laws.antt =====
-- log.cpp: what holds of the loggers and the appenders, kept by every operation on them.
use cpp_library.Base.{
  ℕ, ◌<◌, false, ◌≡◌, inl, inr, refl, sym, ap, ◌∙◌, none, some, List, [], ◌∷◌, ◌++◌, ◌==◌, ==_iff,
  Bool-cases,
}
use cpp_library.Log.Logger.{
  Appender, Logger, Store, put_logger, put_appender, is_null, erase_first, lookup, root_logger,
}

-- An appender that has been made and has a formatter
abbrev pub Listed : Store → ℕ → Type 0
Listed s a = (a < s.next_appender) × (is_null (s.appender a).formatter ≡ false)

unfoldable pub AllListed : Store → List ℕ → Type 0
AllListed s [] = Unit {0}
AllListed s (a ∷ more) = Listed s a × AllListed s more

-- Every logger has a formatter, its appenders have one, names lead to loggers that have been made,
-- and only the root logger is a root.
pub record Inv (s : Store) : Type 0 where
  pub formatted : (l : ℕ) → l < s.next_logger → is_null (s.logger l).formatter ≡ false
  pub listed : (l : ℕ) → AllListed s (s.logger l).appenders
  pub named : (n : List ℕ) (a : ℕ) → lookup n s.loggers_by_name ≡ some a → a < s.next_logger
  pub has_root : 0 < s.next_logger
  pub top : (s.logger root_logger).root ≡ none
  pub rooted : (l r : ℕ) → (s.logger l).root ≡ some r → r ≡ root_logger

-- Appenders that are listed in one store are listed in another.
abbrev pub Keeps : Store → Store → Type 0
Keeps s t = (a : ℕ) → Listed s a → Listed t a

pub AllListed-Keeps : (s t : Store) (l : List ℕ) → Keeps s t → AllListed s l → AllListed t l
unfolding AllListed
AllListed-Keeps s t [] k h = tt
AllListed-Keeps s t (a ∷ more) k (h, hs) = (k a h, AllListed-Keeps s t more k hs)

pub AllListed-append :
    (s : Store) (l : List ℕ) (a : ℕ) → AllListed s l → Listed s a → AllListed s (l ++ a ∷ [])
unfolding AllListed
AllListed-append s [] a h g = (g, tt)
AllListed-append s (b ∷ more) a (h, hs) g = (h, AllListed-append s more a hs g)

pub AllListed-erase_first :
    (s : Store) (a : ℕ) (l : List ℕ) → AllListed s l → AllListed s (erase_first a l)
unfolding AllListed
AllListed-erase_first s a [] h = tt
AllListed-erase_first s a (b ∷ more) (h, hs) = elim (Bool-cases (b == a)) [
  | inl e ↦ rw e hs
  | inr e ↦ rw e (h, AllListed-erase_first s a more hs)
]

put_appender-Keeps :
    (a : ℕ) (x : Appender) (s : Store)
    → (a < s.next_appender → is_null (s.appender a).formatter ≡ false → is_null x.formatter ≡ false)
    → Keeps s (put_appender a x s)
put_appender-Keeps a x s f b (h, g) = elim (Bool-cases (a == b)) [
  | inl e ↦ let same : a ≡ b = (==_iff a b).0 e in (h, rw e (f (rw same h) (rw same g)))
  | inr e ↦ (h, rw e g)
]

-- A change of one appender that leaves it a formatter
pub put_appender-Inv :
    (a : ℕ) (x : Appender) (s : Store)
    → (a < s.next_appender → is_null (s.appender a).formatter ≡ false → is_null x.formatter ≡ false)
    → Inv s
    → Inv (put_appender a x s)
put_appender-Inv a x s f i = record {
  formatted = i.formatted;
  listed = λ l.
      AllListed-Keeps s (put_appender a x s) (s.logger l).appenders (put_appender-Keeps a x s f)
        (i.listed l);
  named = i.named;
  has_root = i.has_root;
  top = i.top;
  rooted = i.rooted;
}

AllListed-put_logger :
    (l : ℕ) (x : Logger) (s : Store) (more : List ℕ)
    → AllListed s more
    → AllListed (put_logger l x s) more
unfolding AllListed
AllListed-put_logger l x s [] h = tt
AllListed-put_logger l x s (a ∷ more) (h, hs) = (h, AllListed-put_logger l x s more hs)

-- A change of one logger that leaves it a formatter and its root
pub put_logger-Inv :
    (l : ℕ) (x : Logger) (s : Store)
    → (l < s.next_logger → is_null x.formatter ≡ false)
    → AllListed s x.appenders
    → x.root ≡ (s.logger l).root
    → Inv s
    → Inv (put_logger l x s)
put_logger-Inv l x s f h r i = record {
  formatted = λ m b. elim (Bool-cases (l == m)) [
    | inl e ↦ rw e (f (rw ((==_iff l m).0 e) b))
    | inr e ↦ rw e (i.formatted m b)
  ];
  listed = λ m. elim (Bool-cases (l == m)) [
    | inl e ↦ rw e (AllListed-put_logger l x s x.appenders h)
    | inr e ↦ rw e (AllListed-put_logger l x s (s.logger m).appenders (i.listed m))
  ];
  named = i.named;
  has_root = i.has_root;
  top = root_of root_logger ∙ i.top;
  rooted = λ m q e. i.rooted m q (sym (root_of m) ∙ e);
}
  where
    root_of : (m : ℕ) → ((put_logger l x s).logger m).root ≡ (s.logger m).root
    root_of m = elim (Bool-cases (l == m)) [
      | inl e ↦ rw e (r ∙ ap (λ (k : ℕ). (s.logger k).root) ((==_iff l m).0 e))
      | inr e ↦ rw e refl
    ]
