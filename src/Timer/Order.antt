-- ===== src/Timer/Order.antt =====
-- C++高性能服务器/atpdxy/timer, the set of timers: its order by `Timer::Comparator`, inserting and
-- erasing.
use mathlib.Core.Path.{subst}
use cpp_library.Base.{
  ℕ, ◌<◌, ◌≡◌, ◌≢◌, ◌⊎◌, inl, inr, refl, sym, ap, ◌∙◌, true, false, some, List, [], ◌∷◌, Bool-cases,
  ltb, ltb→lt, lt→ltb, arith,
}
use cpp_library.Timer.{Heap, less, insert, keep, erase}

-- The order of `Timer::Comparator`: by time, then by address.
unfoldable pub Before : Heap → ℕ → ℕ → Type 0
Before h a b = ((h a).next < (h b).next) ⊎ (((h a).next ≡ (h b).next) × (a < b))

pub less→Before : (h : Heap) (a b : ℕ) → less h a b ≡ true → Before h a b
unfolding less Before
less→Before h a b e = elim (Bool-cases (ltb (h a).next (h b).next)) [
  | inl f ↦ inl (ltb→lt (h a).next (h b).next f)
  | inr f ↦ elim (Bool-cases (ltb (h b).next (h a).next)) [
    | inl g ↦ absurd (ground arith)
    | inr g ↦ inr (ground arith, ground arith)
  ]
]

pub Before→less : (h : Heap) (a b : ℕ) → Before h a b → less h a b ≡ true
unfolding less Before
Before→less h a b (inl l) = rw (lt→ltb (h a).next (h b).next l)
Before→less h a b (inr (e, l)) = ground arith

pub Before-trans : (h : Heap) (a b c : ℕ) → Before h a b → Before h b c → Before h a c
unfolding Before
Before-trans h a b c (inl p) (inl q) = inl (omega arith)
Before-trans h a b c (inl p) (inr (q, r)) = inl (omega arith)
Before-trans h a b c (inr (p, l)) (inl q) = inl (omega arith)
Before-trans h a b c (inr (p, l)) (inr (q, r)) = inr (omega arith, omega arith)

pub Before-total : (h : Heap) (a b : ℕ) → Before h a b ⊎ ((a ≡ b) ⊎ Before h b a)
unfolding Before
Before-total h a b = elim (Bool-cases (ltb (h a).next (h b).next)) [
  | inl f ↦ inl (inl (ground arith))
  | inr f ↦ elim (Bool-cases (ltb (h b).next (h a).next)) [
    | inl g ↦ inr (inr (inl (ground arith)))
    | inr g ↦ elim (Bool-cases (ltb a b)) [
      | inl i ↦ inl (inr (ground arith, ground arith))
      | inr i ↦ elim (Bool-cases (ltb b a)) [
        | inl j ↦ inr (inr (inr (ground arith, ground arith)))
        | inr j ↦ inr (inl (ground arith))
      ]
    ]
  ]
]

pub Before-irrefl : (h : Heap) (a b : ℕ) → Before h a b → Before h b a → ⊥
unfolding Before
Before-irrefl h a b (inl p) (inl q) = omega arith
Before-irrefl h a b (inl p) (inr (q, r)) = omega arith
Before-irrefl h a b (inr (p, l)) (inl q) = omega arith
Before-irrefl h a b (inr (p, l)) (inr (q, r)) = omega arith

-- Every address of the list is behind `a`.
unfoldable pub AllBehind : Heap → ℕ → List ℕ → Type 0
AllBehind h a [] = Unit
AllBehind h a (b ∷ s) = Before h a b × AllBehind h a s

unfoldable pub Sorted : Heap → List ℕ → Type 0
Sorted h [] = Unit
Sorted h (a ∷ s) = AllBehind h a s × Sorted h s

unfoldable pub In : ℕ → List ℕ → Type 0
In a [] = ⊥
In a (b ∷ s) = (a ≡ b) ⊎ In a s

pub AllBehind-trans :
    (h : Heap) (a b : ℕ) (s : List ℕ) → Before h a b → AllBehind h b s → AllBehind h a s
unfolding AllBehind
AllBehind-trans h a b [] l k = tt
AllBehind-trans h a b (c ∷ s) l k = (Before-trans h a b c l k.0, AllBehind-trans h a b s l k.1)

pub AllBehind-In : (h : Heap) (a x : ℕ) (s : List ℕ) → AllBehind h a s → In x s → Before h a x
unfolding AllBehind In
AllBehind-In h a x [] k i = absurd i
AllBehind-In h a x (c ∷ s) k (inl e) = subst (Before h a) (sym e) k.0
AllBehind-In h a x (c ∷ s) k (inr i) = AllBehind-In h a x s k.1 i

pub AllBehind-from :
    (h : Heap) (a : ℕ) (s : List ℕ) → ((x : ℕ) → In x s → Before h a x) → AllBehind h a s
unfolding AllBehind In
AllBehind-from h a [] k = tt
AllBehind-from h a (c ∷ s) k = (k c (inl refl), AllBehind-from h a s (λ x i. k x (inr i)))

less-not : (h : Heap) (a b : ℕ) → Before h a b → less h b a ≡ false
less-not h a b l = elim (Bool-cases (less h b a)) [
  | inl e ↦ absurd (Before-irrefl h a b l (less→Before h b a e))
  | inr e ↦ e
]

less_self : (h : Heap) (a : ℕ) → less h a a ≡ false
less_self h a = elim (Bool-cases (less h a a)) [
  | inl e ↦ absurd (Before-irrefl h a a (less→Before h a a e) (less→Before h a a e))
  | inr e ↦ e
]

-- `insert` in front, behind the first, and on an address that is there
insert-nil : (h : Heap) (a : ℕ) → insert h a [] ≡ a ∷ []
unfolding insert
insert-nil h a = refl

insert-front : (h : Heap) (a b : ℕ) (s : List ℕ) → Before h a b → insert h a (b ∷ s) ≡ a ∷ b ∷ s
unfolding insert
insert-front h a b s l = rw (Before→less h a b l)

insert-behind :
    (h : Heap) (a b : ℕ) (s : List ℕ) → Before h b a → insert h a (b ∷ s) ≡ b ∷ insert h a s
unfolding insert
insert-behind h a b s l = rw (less-not h b a l, Before→less h b a l)

insert-same : (h : Heap) (a b : ℕ) (s : List ℕ) → a ≡ b → insert h a (b ∷ s) ≡ b ∷ s
unfolding insert
insert-same h a b s e = rw (e, less_self h b)

AllBehind-insert :
    (h : Heap) (b a : ℕ) (s : List ℕ)
    → Before h b a
    → AllBehind h b s
    → AllBehind h b (insert h a s)
unfolding AllBehind
AllBehind-insert h b a [] l k = rw (insert-nil h a) (l, tt)
AllBehind-insert h b a (c ∷ s) l k = elim (Before-total h a c) [
  | inl p ↦ rw (insert-front h a c s p) (l, k)
  | inr (inl e) ↦ rw (insert-same h a c s e) k
  | inr (inr p) ↦ rw (insert-behind h a c s p) (k.0, AllBehind-insert h b a s l k.1)
]

-- Inserting keeps the set sorted.
pub insert-Sorted : (h : Heap) (a : ℕ) (s : List ℕ) → Sorted h s → Sorted h (insert h a s)
unfolding Sorted AllBehind
insert-Sorted h a [] k = rw (insert-nil h a) (tt, tt)
insert-Sorted h a (c ∷ s) k = elim (Before-total h a c) [
  | inl p ↦ rw (insert-front h a c s p) ((p, AllBehind-trans h a c s p k.0), k)
  | inr (inl e) ↦ rw (insert-same h a c s e) k
  | inr (inr p) ↦
      rw (insert-behind h a c s p) (AllBehind-insert h c a s p k.0, insert-Sorted h a s k.1)
]

-- The set after an insertion has the address and those from before.
pub In-insert : (h : Heap) (a x : ℕ) (s : List ℕ) → (x ≡ a) ⊎ In x s → In x (insert h a s)
unfolding In
In-insert h a x [] i = rw (insert-nil h a) i
In-insert h a x (c ∷ s) i = elim (Before-total h a c) [
  | inl p ↦ rw (insert-front h a c s p) i
  | inr (inl e) ↦ rw (insert-same h a c s e) (elim i [ inl f ↦ inl (f ∙ e) | inr j ↦ j ])
  | inr (inr p) ↦ rw (insert-behind h a c s p) (elim i [
    | inl f ↦ inr (In-insert h a x s (inl f))
    | inr (inl f) ↦ inl f
    | inr (inr j) ↦ inr (In-insert h a x s (inr j))
  ])
]

pub insert-In : (h : Heap) (a x : ℕ) (s : List ℕ) → In x (insert h a s) → (x ≡ a) ⊎ In x s
unfolding In
insert-In h a x [] i = rw (insert-nil h a) at i
insert-In h a x (c ∷ s) i = elim (Before-total h a c) [
  | inl p ↦ rw (insert-front h a c s p) at i
  | inr (inl e) ↦ inr (rw (insert-same h a c s e) at i)
  | inr (inr p) ↦ split (insert-In h a x s) (rw (insert-behind h a c s p) at i)
]
  where
    split :
        (In x (insert h a s) → (x ≡ a) ⊎ In x s)
        → (x ≡ c) ⊎ In x (insert h a s)
        → (x ≡ a) ⊎ ((x ≡ c) ⊎ In x s)
    split further (inl f) = inr (inl f)
    split further (inr j) = elim (further j) [ inl f ↦ inl f | inr k ↦ inr (inr k) ]

erase_self : (h : Heap) (a : ℕ) (s : List ℕ) → erase h a (a ∷ s) ≡ some s
unfolding erase
erase_self h a s = rw (less_self h a)

erase-behind :
    (h : Heap) (a b : ℕ) (s : List ℕ) → Before h b a → erase h a (b ∷ s) ≡ keep b (erase h a s)
unfolding erase
erase-behind h a b s l = rw (less-not h b a l, Before→less h b a l)

-- What is left of a set when the address `a` is taken out.
pub record Without (h : Heap) (a : ℕ) (s r : List ℕ) : Type 0 where
  pub taken : erase h a s ≡ some r
  pub sorted : Sorted h r
  pub gone : In a r → ⊥
  pub stays : (x : ℕ) → In x s → x ≢ a → In x r
  pub was : (x : ℕ) → In x r → In x s

not_behind_self : (h : Heap) (a : ℕ) → Before h a a → ⊥
not_behind_self h a l = Before-irrefl h a a l l

-- `find` and `erase` succeed on every address that is in the sorted set.
pub erase-Without :
    (h : Heap) (a : ℕ) (s : List ℕ) → Sorted h s → In a s → (r : List ℕ) × Without h a s r
unfolding Sorted In AllBehind
erase-Without h a [] k i = absurd i
erase-Without h a (b ∷ s) k (inl e) = (
  s,
  record {
    taken = rw e (erase_self h b s);
    sorted = k.1;
    gone = λ j. not_behind_self h b (AllBehind-In h b b s k.0 (subst (λ x. In x s) e j));
    stays = λ x j d. elim j [ inl f ↦ absurd (d (f ∙ sym e)) | inr l ↦ l ];
    was = λ x j. inr j;
  },
)
erase-Without h a (b ∷ s) k (inr i) =
    let before = AllBehind-In h b a s k.0 i in
    let (r, w) = erase-Without h a s k.1 i in
    (
      b ∷ r,
      record {
        taken = erase-behind h a b s before ∙ ap (keep b) w.taken;
        sorted = (AllBehind-from h b r (λ x j. AllBehind-In h b x s k.0 (w.was x j)), w.sorted);
        gone = λ j. elim j [
          | inl e ↦ not_behind_self h b (subst (Before h b) e before)
          | inr l ↦ w.gone l
        ];
        stays = λ x j d. elim j [ inl f ↦ inl f | inr l ↦ inr (w.stays x l d) ];
        was = λ x j. elim j [ inl f ↦ inl f | inr l ↦ inr (w.was x l) ];
      },
    )

Before-cong :
    (h g : Heap) (a x : ℕ)
    → (h a).next ≡ (g a).next
    → (h x).next ≡ (g x).next
    → Before h a x
    → Before g a x
unfolding Before
Before-cong h g a x p q (inl l) = inl (omega arith)
Before-cong h g a x p q (inr (e, l)) = inr (omega arith, l)

-- Timers outside the set do not matter for its order.
pub Sorted-cong :
    (h g : Heap) (s : List ℕ)
    → ((x : ℕ) → In x s → (h x).next ≡ (g x).next)
    → Sorted h s
    → Sorted g s
unfolding Sorted In
Sorted-cong h g [] e k = tt
Sorted-cong h g (a ∷ s) e k = (
  AllBehind-from g a s
      (λ x i. Before-cong h g a x (e a (inl refl)) (e x (inr i)) (AllBehind-In h a x s k.0 i)),
  Sorted-cong h g s (λ x i. e x (inr i)) k.1,
)
