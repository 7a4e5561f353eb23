-- ===== src/Timer/Fire.antt =====
-- C++高性能服务器/atpdxy/timer: the loop of `listExpiredCb` over the expired timers.
use mathlib.Core.Path.{subst}
use cpp_library.Base.{
  ℕ, ◌+◌, ◌%◌, ◌<◌, ◌≡◌, ◌≢◌, ◌⊎◌, inl, inr, refl, ap, ◌∙◌, true, false, Option, none, List, [],
  ◌∷◌, map, Bool-cases, if◌then◌else◌,
}
use cpp_library.Timer.{Timer, Heap, update, u64_mod, Manager, insert, renew, fire}
use cpp_library.Timer.Order.{
  AllBehind-In, Sorted, In, insert-Sorted, In-insert, insert-In, Before-irrefl,
}
use cpp_library.Timer.Invariant.{Inv, update_self, update_ne, same_or_not, Sorted-update}

-- No address stands twice in the list.
pub Distinct : List ℕ → Type 0
Distinct [] = Unit
Distinct (a ∷ s) = (In a s → ⊥) × Distinct s

pub Sorted-Distinct : (h : Heap) (s : List ℕ) → Sorted h s → Distinct s
unfolding Sorted Distinct
Sorted-Distinct h [] k = tt
Sorted-Distinct h (a ∷ s) k = (
  (λ i. (let l = AllBehind-In h a a s k.0 i in Before-irrefl h a a l l)),
  Sorted-Distinct h s k.1,
)

heap-renew : (now a x : ℕ) (m : Manager) → x ≢ a → (renew now a m).heap x ≡ m.heap x
unfolding renew
heap-renew now a x m d = elim (Bool-cases (m.heap a).recurring) [
  | inl e ↦ rw (e, renew) (update_ne m.heap a x _ d)
  | inr e ↦ rw (e, renew) (update_ne m.heap a x _ d)
]

map-cong : {f g : ℕ → Option ℕ} (s : List ℕ) → ((x : ℕ) → In x s → f x ≡ g x) → map f s ≡ map g s
unfolding In
map-cong [] e = refl
map-cong {g = g} (a ∷ s) e = rw (e a (inl refl)) (ap (◌∷◌ (g a)) (map-cong s (λ x i. e x (inr i))))

-- The loop of `listExpiredCb` collects the callbacks of the expired timers, in their order.
pub fire-callbacks :
    (now : ℕ) (due : List ℕ) (m : Manager)
    → Distinct due
    → (fire now due m).0 ≡ map (λ x. (m.heap x).cb) due
unfolding fire Distinct
fire-callbacks now [] m d = refl
fire-callbacks now (a ∷ due) m d = ap (◌∷◌ (m.heap a).cb) (
    fire-callbacks now due (renew now a m) d.1
    ∙ map-cong due
        (λ x i. ap (λ t. t.cb) (heap-renew now a x m (λ e. d.0 (subst (λ y. In y due) e i)))))

-- The invariant in the loop: the expired timers still to come are out of the set.
pub record Pending (due : List ℕ) (m : Manager) : Type 0 where
  pub sorted : Sorted m.heap m.timers
  pub apart : (x : ℕ) → In x due → In x m.timers → ⊥
  pub armed : (x : ℕ) → In x m.timers ⊎ In x due → (m.heap x).cb ≢ none
  pub listed : (x : ℕ) → (m.heap x).cb ≢ none → In x m.timers ⊎ In x due
  pub allocated : (x : ℕ) → In x m.timers ⊎ In x due → x < m.fresh

Pending-nil : (m : Manager) → Pending [] m → Inv m
unfolding In
Pending-nil m p = record {
  sorted = p.sorted;
  armed = λ x i. p.armed x (inl i);
  listed = λ x c. elim (p.listed x c) [ inl i ↦ i | inr j ↦ absurd j ];
  allocated = λ x i. p.allocated x (inl i);
}

not_same : (a x : ℕ) (s : List ℕ) → (In a s → ⊥) → In x s → x ≢ a
not_same a x s d i e = d (subst (λ y. In y s) e i)

Pending-again :
    (a : ℕ) (due : List ℕ) (m : Manager) (t : Timer)
    → (In a due → ⊥)
    → t.cb ≡ (m.heap a).cb
    → Pending (a ∷ due) m
    → Pending due
        (record m { heap = update m.heap a t; timers = insert (update m.heap a t) a m.timers })
unfolding In
Pending-again a due m t d c p = record {
  sorted =
      insert-Sorted h a m.timers
        (Sorted-update m.heap a t m.timers (p.apart a (inl refl)) p.sorted);
  apart = λ x i j. elim (insert-In h a x m.timers j) [
    | inl e ↦ not_same a x due d i e
    | inr k ↦ p.apart x (inr i) k
  ];
  armed = λ x i. armed x (same_or_not a x) (split x i);
  listed = λ x e. elim (same_or_not a x) [
    | inl f ↦ inl (In-insert h a x m.timers (inl f))
    | inr n ↦ listed x n (p.listed x (rw (update_ne m.heap a x t n) at e))
  ];
  allocated = λ x i. p.allocated x (elim i [
    | inl j ↦ elim (insert-In h a x m.timers j) [ inl e ↦ inr (inl e) | inr k ↦ inl k ]
    | inr j ↦ inr (inr j)
  ]);
}
  where
    h : Heap
    h = update m.heap a t

    split : (x : ℕ) → In x (insert h a m.timers) ⊎ In x due → (x ≡ a) ⊎ (In x m.timers ⊎ In x due)
    split x (inl j) = elim (insert-In h a x m.timers j) [ inl e ↦ inl e | inr k ↦ inr (inl k) ]
    split x (inr j) = inr (inr j)

    armed : (x : ℕ) → (x ≡ a) ⊎ (x ≢ a) → (x ≡ a) ⊎ (In x m.timers ⊎ In x due) → (h x).cb ≢ none
    armed x (inl e) i = rw (e, update_self m.heap a t, c) (p.armed a (inr (inl refl)))
    armed x (inr n) (inl e) = absurd (n e)
    armed x (inr n) (inr (inl j)) = rw (update_ne m.heap a x t n) (p.armed x (inl j))
    armed x (inr n) (inr (inr j)) = rw (update_ne m.heap a x t n) (p.armed x (inr (inr j)))

    listed :
        (x : ℕ)
        → x ≢ a
        → In x m.timers ⊎ ((x ≡ a) ⊎ In x due)
        → In x (insert h a m.timers) ⊎ In x due
    listed x n (inl i) = inl (In-insert h a x m.timers (inr i))
    listed x n (inr (inl e)) = absurd (n e)
    listed x n (inr (inr j)) = inr j

Pending-once :
    (a : ℕ) (due : List ℕ) (m : Manager) (t : Timer)
    → (In a due → ⊥)
    → t.cb ≡ none
    → Pending (a ∷ due) m
    → Pending due (record m { heap = update m.heap a t })
unfolding In
Pending-once a due m t d c p = record {
  sorted = Sorted-update m.heap a t m.timers (p.apart a (inl refl)) p.sorted;
  apart = λ x i j. p.apart x (inr i) j;
  armed = λ x i.
      rw (update_ne m.heap a x t (other x i))
        (p.armed x (elim i [ inl j ↦ inl j | inr j ↦ inr (inr j) ]));
  listed = λ x e. elim (same_or_not a x) [
    | inl f ↦ absurd ((rw (f, update_self m.heap a t) at e) c)
    | inr n ↦ listed x n (p.listed x (rw (update_ne m.heap a x t n) at e))
  ];
  allocated = λ x i. p.allocated x (elim i [ inl j ↦ inl j | inr j ↦ inr (inr j) ]);
}
  where
    other : (x : ℕ) → In x m.timers ⊎ In x due → x ≢ a
    other x (inl i) = not_same a x m.timers (p.apart a (inl refl)) i
    other x (inr i) = not_same a x due d i

    listed : (x : ℕ) → x ≢ a → In x m.timers ⊎ ((x ≡ a) ⊎ In x due) → In x m.timers ⊎ In x due
    listed x n (inl i) = inl i
    listed x n (inr (inl e)) = absurd (n e)
    listed x n (inr (inr j)) = inr j

Pending-renew :
    (now a : ℕ) (due : List ℕ) (m : Manager)
    → (In a due → ⊥)
    → Pending (a ∷ due) m
    → Pending due (renew now a m)
unfolding renew
Pending-renew now a due m d p =
    elim (m.heap a).recurring as (λ b. Pending due (if b then again else once)) [
      | true ↦ Pending-again a due m _ d refl p
      | false ↦ Pending-once a due m _ d refl p
    ]
  where
    again : Manager
    again =
        let t : Timer = record (m.heap a) { next = (now + (m.heap a).ms) % u64_mod } in
        record m { heap = update m.heap a t; timers = insert (update m.heap a t) a m.timers }

    once : Manager
    once = record m { heap = update m.heap a (record (m.heap a) { cb = none }) }

pub fire-Inv :
    (now : ℕ) (due : List ℕ) (m : Manager) → Distinct due → Pending due m → Inv (fire now due m).1
unfolding fire Distinct
fire-Inv now [] m d p = Pending-nil m p
fire-Inv now (a ∷ due) m d p =
    fire-Inv now due (renew now a m) d.1 (Pending-renew now a due m d.0 p)
