-- ===== src/Timer/Due.antt =====
-- C++高性能服务器/atpdxy/timer: the timers of the set that are due.
use mathlib.Core.Path.{subst}
use cpp_library.Base.{
  ℕ, ◌<◌, ◌≡◌, ◌⊎◌, inl, inr, refl, sym, ap, false, List, [], ◌∷◌, ◌++◌, Bool-cases, ltb, leb,
  if◌then◌else◌, arith,
}
use cpp_library.Timer.{Heap, Manager, passed, split_due}
use cpp_library.Timer.Order.{
  Before, AllBehind, AllBehind-In, AllBehind-from, Sorted, In, Before-irrefl,
}
use cpp_library.Timer.Fire.{Distinct, Sorted-Distinct, Pending}
use cpp_library.Timer.Invariant.{Inv}

-- The timers of a list that are due: `next <= now`.
unfoldable pub due_list : Heap → ℕ → List ℕ → List ℕ
due_list h now [] = []
due_list h now (a ∷ s) =
    let further = due_list h now s in if leb (h a).next now then a ∷ further else further

leb-false : (a b : ℕ) → b < a → leb a b ≡ false
leb-false a b h = ground arith

not_due_behind :
    (h : Heap) (now a : ℕ) (s : List ℕ) → now < (h a).next → AllBehind h a s → due_list h now s ≡ []
unfolding due_list AllBehind Before
not_due_behind h now a [] l k = refl
not_due_behind h now a (b ∷ s) l k =
    let further = not_due_behind h now a s l k.1 in
    let late : now < (h b).next = later k.0 in rw (leb-false (h b).next now late, further)
  where
    later : Before h a b → now < (h b).next
    later (inl m) = omega arith
    later (inr (e, m)) = omega arith

pub nothing_due :
    (h : Heap) (now a : ℕ) (s : List ℕ)
    → now < (h a).next
    → Sorted h (a ∷ s)
    → due_list h now (a ∷ s) ≡ []
unfolding due_list Sorted
nothing_due h now a s l k = rw (leb-false (h a).next now l, not_due_behind h now a s l k.0)

passed_lem : (h : Heap) (now me a : ℕ) → passed h now me a ≡ leb (h a).next now
unfolding passed
passed_lem h now me a = elim (Bool-cases (ltb a me)) [ inl e ↦ ground arith | inr e ↦ ground arith ]

-- The set is split where the due timers end, whatever the address of `now_timer`.
pub split_due-due :
    (h : Heap) (now me : ℕ) (s : List ℕ) → Sorted h s → (split_due h now me s).0 ≡ due_list h now s
unfolding split_due due_list Sorted
split_due-due h now me [] k = refl
split_due-due h now me (a ∷ s) k = elim (Bool-cases (leb (h a).next now)) [
  | inl e ↦ rw (passed_lem h now me a, e) (ap (◌∷◌ a) (split_due-due h now me s k.1))
  | inr e ↦ rw (passed_lem h now me a, e) (sym (not_due_behind h now a s (ground arith) k.0))
]

pub append-split_due :
    (h : Heap) (now me : ℕ) (s : List ℕ) → (split_due h now me s).0 ++ (split_due h now me s).1 ≡ s
unfolding split_due
append-split_due h now me [] = refl
append-split_due h now me (a ∷ s) = elim (Bool-cases (passed h now me a)) [
  | inl e ↦ rw e (ap (◌∷◌ a) (append-split_due h now me s))
  | inr e ↦ rw e refl
]

In-left : (x : ℕ) (s r : List ℕ) → In x s → In x (s ++ r)
unfolding In
In-left x [] r i = absurd i
In-left x (a ∷ s) r (inl e) = inl e
In-left x (a ∷ s) r (inr i) = inr (In-left x s r i)

In-right : (x : ℕ) (s r : List ℕ) → In x r → In x (s ++ r)
unfolding In
In-right x [] r i = i
In-right x (a ∷ s) r i = inr (In-right x s r i)

In-append : (x : ℕ) (s r : List ℕ) → In x (s ++ r) → In x s ⊎ In x r
unfolding In
In-append x [] r i = inr i
In-append x (a ∷ s) r (inl e) = inl (inl e)
In-append x (a ∷ s) r (inr i) = elim (In-append x s r i) [ inl j ↦ inl (inr j) | inr j ↦ inr j ]

-- A sorted list in two parts: each is sorted, and no address is in both.
Sorted-append :
    (h : Heap) (s r : List ℕ)
    → Sorted h (s ++ r)
    → Sorted h s × Sorted h r × ((x : ℕ) → In x s → In x r → ⊥)
unfolding Sorted In
Sorted-append h [] r k = (tt, k, λ x i j. absurd i)
Sorted-append h (a ∷ s) r k =
    let (left, right, apart) = Sorted-append h s r k.1 in
    (
      (AllBehind-from h a s (λ x i. AllBehind-In h a x (s ++ r) k.0 (In-left x s r i)), left),
      right,
      both apart,
    )
  where
    both : ((x : ℕ) → In x s → In x r → ⊥) → (x : ℕ) → (x ≡ a) ⊎ In x s → In x r → ⊥
    both apart x (inl e) j =
        let l = AllBehind-In h a x (s ++ r) k.0 (In-right x s r j) in
        Before-irrefl h a a (subst (Before h a) e l) (subst (Before h a) e l)
    both apart x (inr i) j = apart x i j

pub Pending-start :
    (now : ℕ) (due rest : List ℕ) (m : Manager)
    → Inv m
    → due ++ rest ≡ m.timers
    → Distinct due × Pending due (record m { previous = now; timers = rest })
Pending-start now due rest m inv e =
    let (first, second, apart) =
      Sorted-append m.heap due rest (subst (Sorted m.heap) (sym e) inv.sorted) in
    (
      Sorted-Distinct m.heap due first,
      record {
        sorted = second;
        apart = apart;
        armed = λ x i. inv.armed x (member x i);
        listed = λ x c. swap x (In-append x due rest (subst (In x) (sym e) (inv.listed x c)));
        allocated = λ x i. inv.allocated x (member x i);
      },
    )
  where
    member : (x : ℕ) → In x rest ⊎ In x due → In x m.timers
    member x (inl i) = subst (In x) e (In-right x due rest i)
    member x (inr i) = subst (In x) e (In-left x due rest i)

    swap : (x : ℕ) → In x due ⊎ In x rest → In x rest ⊎ In x due
    swap x (inl i) = inr i
    swap x (inr i) = inl i
