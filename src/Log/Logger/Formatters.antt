-- ===== src/Log/Logger/Formatters.antt =====
-- log.cpp, `Logger::setFormatter`: which appenders get the new formatter.
use cpp_library.Base.{
  ℕ, Bool, true, false, ◌≡◌, refl, sym, ap, ◌∙◌, ◌&&◌, ◌||◌, not, Option, List, [], ◌∷◌, ◌==◌,
  ==_iff, ==_refl, Bool-cases, inl, inr, if◌then◌else◌,
}
use cpp_library.Log.Pattern.{LogFormatter}
use cpp_library.Log.Logger.{
  Appender, Store, put_logger, put_appender, dress, dress_all, set_formatter,
}

-- Whether an address is in a list of appenders
unfoldable pub mem : ℕ → List ℕ → Bool
mem a [] = false
mem a (b ∷ bs) = b == a || mem a bs

-- An appender with the formatter `f`, where it is meant and has none of its own
unfoldable pub dressed : Option LogFormatter → Bool → Appender → Appender
dressed f meant x = if meant && not x.has_formatter then record x { formatter = f } else x

and_not : (m : Bool) {h k : Bool} → h ≡ k → (m && not h) ≡ (m && not k)
and_not m e = ap (λ h. m && not h) e

-- An appender with a formatter of its own stays; one without takes `f` where it is meant.
dressed_own :
    (f : Option LogFormatter) (m : Bool) (x : Appender) → x.has_formatter ≡ true → dressed f m x ≡ x
unfolding dressed
dressed_own f true x e = ap (λ b. if b then record x { formatter = f } else x) (and_not true e)
dressed_own f false x e = refl

dressed_meant :
    (f : Option LogFormatter) (x : Appender)
    → x.has_formatter ≡ false
    → dressed f true x ≡ record x { formatter = f }
unfolding dressed
dressed_meant f x e = ap (λ b. if b then record x { formatter = f } else x) (and_not true e)

dressed_meant_not : (f : Option LogFormatter) (x : Appender) → dressed f false x ≡ x
unfolding dressed
dressed_meant_not f x = refl

dressed_twice :
    (f : Option LogFormatter) (m n : Bool) (x : Appender)
    → x.has_formatter ≡ false
    → dressed f m (dressed f n x) ≡ dressed f (n || m) x
dressed_twice f m false x e = ap (dressed f m) (dressed_meant_not f x)
dressed_twice f true true x e =
    ap (dressed f true) (dressed_meant f x e)
    ∙ dressed_meant f (record x { formatter = f }) e
    ∙ sym (dressed_meant f x e)
dressed_twice f false true x e = dressed_meant_not f (dressed f true x)

dressed-dressed :
    (f : Option LogFormatter) (m n : Bool) (x : Appender)
    → dressed f m (dressed f n x) ≡ dressed f (n || m) x
dressed-dressed f m n x = elim (Bool-cases x.has_formatter) [
  | inl e ↦
      ap (dressed f m) (dressed_own f n x e)
      ∙ dressed_own f m x e
      ∙ sym (dressed_own f (n || m) x e)
  | inr e ↦ dressed_twice f m n x e
]

dress-own :
    (f : Option LogFormatter) (b : ℕ) (s : Store)
    → (s.appender b).has_formatter ≡ true
    → dress f b s ≡ s
unfolding dress
dress-own f b s e =
    ap (λ h. if h then s else put_appender b (record (s.appender b) { formatter = f }) s) e

dress-none :
    (f : Option LogFormatter) (b : ℕ) (s : Store)
    → (s.appender b).has_formatter ≡ false
    → dress f b s ≡ put_appender b (record (s.appender b) { formatter = f }) s
unfolding dress
dress-none f b s e =
    ap (λ h. if h then s else put_appender b (record (s.appender b) { formatter = f }) s) e

dress_self :
    (f : Option LogFormatter) (b : ℕ) (s : Store)
    → (dress f b s).appender b ≡ dressed f true (s.appender b)
dress_self f b s = elim (Bool-cases (s.appender b).has_formatter) [
  | inl e ↦ ap (λ t. t.appender b) (dress-own f b s e) ∙ sym (dressed_own f true (s.appender b) e)
  | inr e ↦
      ap (λ t. t.appender b) (dress-none f b s e)
      ∙ ap (λ h. if h then record (s.appender b) { formatter = f } else s.appender b) (==_refl b)
      ∙ sym (dressed_meant f (s.appender b) e)
]

dress-other :
    (f : Option LogFormatter) (b a : ℕ) (s : Store)
    → (b == a) ≡ false
    → (dress f b s).appender a ≡ s.appender a
dress-other f b a s n = elim (Bool-cases (s.appender b).has_formatter) [
  | inl e ↦ ap (λ t. t.appender a) (dress-own f b s e)
  | inr e ↦
      ap (λ t. t.appender a) (dress-none f b s e)
      ∙ ap (λ h. if h then record (s.appender b) { formatter = f } else s.appender a) n
]

dress-appender :
    (f : Option LogFormatter) (b a : ℕ) (s : Store)
    → (dress f b s).appender a ≡ dressed f (b == a) (s.appender a)
dress-appender f b a s = elim (Bool-cases (b == a)) [
  | inl e ↦
      let same : b ≡ a = (==_iff b a).0 e in
      ap (λ (k : ℕ). (dress f b s).appender k) (sym same)
      ∙ dress_self f b s
      ∙ ap (λ (k : ℕ). dressed f true (s.appender k)) same
      ∙ ap (λ m. dressed f m (s.appender a)) (sym e)
  | inr e ↦
      dress-other f b a s e
      ∙ sym (dressed_meant_not f (s.appender a))
      ∙ ap (λ m. dressed f m (s.appender a)) (sym e)
]

dress_all-appender :
    (f : Option LogFormatter) (l : List ℕ) (a : ℕ) (s : Store)
    → (dress_all f l s).appender a ≡ dressed f (mem a l) (s.appender a)
unfolding dress_all mem
dress_all-appender f [] a s = unfold dressed in refl
dress_all-appender f (b ∷ bs) a s =
    dress_all-appender f bs a (dress f b s)
    ∙ ap (dressed f (mem a bs)) (dress-appender f b a s)
    ∙ dressed-dressed f (mem a bs) (b == a) (s.appender a)

-- setFormatter gives the formatter to exactly those appenders of the logger that have none of their
-- own, and changes no other appender.
pub set_formatter-appender :
    (l : ℕ) (f : Option LogFormatter) (a : ℕ) (s : Store)
    → (set_formatter l f s).appender a ≡ dressed f (mem a (s.logger l).appenders) (s.appender a)
unfolding set_formatter
set_formatter-appender l f a s =
    dress_all-appender f (s.logger l).appenders a
      (put_logger l (record (s.logger l) { formatter = f }) s)
