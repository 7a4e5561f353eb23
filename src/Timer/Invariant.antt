-- ===== src/Timer/Invariant.antt =====
-- C++高性能服务器/atpdxy/timer: the invariant of `TimerManager` and the operations that keep it.
use mathlib.Core.Path.{subst}
use cpp_library.Base.{
  ℕ, ◌+◌, ◌-◌, ◌%◌, ◌<◌, ◌≤◌, ◌≡◌, ◌≢◌, ◌⊎◌, ◌↔◌, inl, inr, refl, sym, ap, ◌∙◌, Bool, true, false,
  ◌&&◌, not, none, some, List, ◌==◌, ==_iff, ==_refl, Bool-cases, Option-cases, if◌then◌else◌,
  arith,
}
use cpp_library.Timer.{
  Timer, Heap, update, u64_mod, Manager, insert, add_locked, add_timer, cancel, refresh, reset,
}
use cpp_library.Timer.Order.{
  Sorted, In, Without, erase-Without, insert-Sorted, In-insert, insert-In, Sorted-cong,
}

-- The set is sorted and holds exactly the timers that have a callback, all of them allocated.
pub record Inv (m : Manager) : Type 0 where
  pub sorted : Sorted m.heap m.timers
  pub armed : (x : ℕ) → In x m.timers → (m.heap x).cb ≢ none
  pub listed : (x : ℕ) → (m.heap x).cb ≢ none → In x m.timers
  pub allocated : (x : ℕ) → In x m.timers → x < m.fresh

pub none≢some : {A : Type 0} {a : A} → none ≢ some a
none≢some e = absurd cc

pub update_self : (h : Heap) (a : ℕ) (t : Timer) → update h a t a ≡ t
update_self h a t = rw (==_refl a)

pub update_ne : (h : Heap) (a x : ℕ) (t : Timer) → x ≢ a → update h a t x ≡ h x
update_ne h a x t d = elim (Bool-cases (a == x)) [
  | inl e ↦ absurd (d (sym ((==_iff a x).0 e)))
  | inr e ↦ rw e
]

pub same_or_not : (a x : ℕ) → (x ≡ a) ⊎ (x ≢ a)
same_or_not a x = elim (Bool-cases (x == a)) [
  | inl e ↦ inl ((==_iff x a).0 e)
  | inr e ↦ inr (λ f. (let g = (==_iff x a).1 f in absurd cc))
]

-- The heap may change at an address that the set does not hold.
pub Sorted-update :
    (h : Heap) (a : ℕ) (t : Timer) (s : List ℕ)
    → (In a s → ⊥)
    → Sorted h s
    → Sorted (update h a t) s
Sorted-update h a t s d k =
    Sorted-cong h (update h a t) s
      (λ x i. ap (λ u. u.next) (sym (update_ne h a x t (λ e. d (subst (λ y. In y s) e i))))) k

-- What is asked of the rest `r` of the set before the timer at `a` is put into it.
record Ready (m : Manager) (a fresh : ℕ) (r : List ℕ) : Type 0 where
  sorted : Sorted m.heap r
  gone : In a r → ⊥
  stays : (x : ℕ) → In x m.timers → x ≢ a → In x r
  was : (x : ℕ) → In x r → In x m.timers
  below : a < fresh
  more : m.fresh ≤ fresh

put_in-Inv :
    (m : Manager) (a fresh : ℕ) (t : Timer) (r : List ℕ)
    → Inv m
    → Ready m a fresh r
    → t.cb ≢ none
    → Inv (record m {
      heap = update m.heap a t;
      timers = insert (update m.heap a t) a r;
      fresh = fresh;
    })
put_in-Inv m a fresh t r inv w d =
    let h = update m.heap a t in
    record {
      sorted = insert-Sorted h a r (Sorted-update m.heap a t r w.gone w.sorted);
      armed = λ x j. armed_after x (same_or_not a x) (insert-In h a x r j);
      listed = λ x e. In-insert h a x r (listed_after x (same_or_not a x) e);
      allocated = λ x j. below_after x (insert-In h a x r j);
    }
  where
    armed_after : (x : ℕ) → (x ≡ a) ⊎ (x ≢ a) → (x ≡ a) ⊎ In x r → (update m.heap a t x).cb ≢ none
    armed_after x (inl e) j = rw (e, update_self m.heap a t) d
    armed_after x (inr n) (inl e) = absurd (n e)
    armed_after x (inr n) (inr l) = rw (update_ne m.heap a x t n) (inv.armed x (w.was x l))

    listed_after : (x : ℕ) → (x ≡ a) ⊎ (x ≢ a) → (update m.heap a t x).cb ≢ none → (x ≡ a) ⊎ In x r
    listed_after x (inl e) c = inl e
    listed_after x (inr n) c = inr (w.stays x (inv.listed x (rw (update_ne m.heap a x t n) at c)) n)

    below_after : (x : ℕ) → (x ≡ a) ⊎ In x r → x < fresh
    below_after x (inl e) = rw e w.below
    below_after x (inr l) = omega (arith, inv.allocated x (w.was x l), w.more)

-- A timer with a callback may be put into the set from which it was taken.
put_back-Inv :
    (m : Manager) (a : ℕ) (t : Timer) (r : List ℕ)
    → Inv m
    → In a m.timers
    → Without m.heap a m.timers r
    → t.cb ≢ none
    → Inv (record m { heap = update m.heap a t; timers = insert (update m.heap a t) a r })
put_back-Inv m a t r inv i w d =
    put_in-Inv m a m.fresh t r inv
      (record {
        sorted = w.sorted;
        gone = w.gone;
        stays = w.stays;
        was = w.was;
        below = inv.allocated a i;
        more = omega arith;
      })
      d

-- A timer whose callback is cleared may be left out of the set.
drop-Inv :
    (m : Manager) (a : ℕ) (r : List ℕ)
    → Inv m
    → (h : Heap) → h ≡ update m.heap a (record (m.heap a) { cb = none })
    → Without h a m.timers r
    → Inv (record m { heap = h; timers = r })
drop-Inv m a r inv h q w = record {
  sorted = w.sorted;
  armed = λ x j.
      rw (q, update_ne m.heap a x _ (λ e. w.gone (subst (λ y. In y r) e j)))
        (inv.armed x (w.was x j));
  listed = λ x c. left x (same_or_not a x) (rw q at c);
  allocated = λ x j. inv.allocated x (w.was x j);
}
  where
    left :
        (x : ℕ)
        → (x ≡ a) ⊎ (x ≢ a)
        → (update m.heap a (record (m.heap a) { cb = none }) x).cb ≢ none
        → In x r
    left x (inl e) c =
        absurd ((rw (e, update_self m.heap a (record (m.heap a) { cb = none })) at c) refl)
    left x (inr n) c =
        w.stays x
          (inv.listed x (rw (update_ne m.heap a x (record (m.heap a) { cb = none }) n) at c)) n

same_next : (h : Heap) (a x : ℕ) → (h x).next ≡ (update h a (record (h a) { cb = none }) x).next
same_next h a x = elim (same_or_not a x) [
  | inl e ↦ rw (e, update_self h a (record (h a) { cb = none }))
  | inr n ↦ rw (update_ne h a x (record (h a) { cb = none }) n)
]

-- `Timer::cancel` is defined in every state that satisfies the invariant: the timer is then no
-- longer in the set, the other timers stay, and the invariant holds again.
pub cancel-Inv :
    (a : ℕ) (m : Manager)
    → Inv m
    → (m' : Manager) × (b : Bool) × (cancel a m ≡ some (m', b))
      × Inv m'
      × (In a m'.timers → ⊥)
      × ((x : ℕ) → x ≢ a → (In x m'.timers) ↔ (In x m.timers))
unfolding cancel
cancel-Inv a m inv = elim (Option-cases (m.heap a).cb) [
  | inl e ↦ (m, false, rw (e, cancel) refl, inv, (λ i. inv.armed a i e), λ x d. (λ i. i, λ i. i))
  | inr (c, e) ↦
      let t : Timer = record (m.heap a) { cb = none } in
      let h = update m.heap a t in
      let i = inv.listed a (λ n. none≢some (sym n ∙ e)) in
      let (r, w) =
        erase-Without h a m.timers
          (Sorted-cong m.heap h m.timers (λ x j. same_next m.heap a x) inv.sorted) i in
      (
        record m { heap = h; timers = r },
        true,
        rw (e, w.taken, cancel) refl,
        drop-Inv m a r inv h refl w,
        w.gone,
        λ x d. (w.was x, λ j. w.stays x j d),
      )
]

-- `Timer::refresh` keeps the invariant.
pub refresh-Inv : (now a : ℕ) (m : Manager) → Inv m → Inv (refresh now a m).0
unfolding refresh
refresh-Inv now a m inv = elim (Option-cases (m.heap a).cb) [
  | inl e ↦ rw (e, refresh) inv
  | inr (c, e) ↦
      let t : Timer = record (m.heap a) { next = (now + (m.heap a).ms) % u64_mod } in
      let i = inv.listed a (λ n. none≢some (sym n ∙ e)) in
      let (r, w) = erase-Without m.heap a m.timers inv.sorted i in
      rw (e, w.taken, refresh) (put_back-Inv m a t r inv i w (λ n. none≢some (sym n ∙ e)))
]

add_locked-Inv :
    (a : ℕ) (m : Manager)
    → Inv (record m { timers = insert m.heap a m.timers })
    → Inv (add_locked a m).0
unfolding add_locked
add_locked-Inv a m inv = record {
  sorted = inv.sorted;
  armed = inv.armed;
  listed = inv.listed;
  allocated = inv.allocated;
}

add_locked-In : (a : ℕ) (m : Manager) → In a (add_locked a m).0.timers
unfolding add_locked
add_locked-In a m = In-insert m.heap a a m.timers (inl refl)

-- `Timer::reset` keeps the invariant.
pub reset-Inv :
    (now ms : ℕ) (from_now : Bool) (a : ℕ) (m : Manager) → Inv m → Inv (reset now ms from_now a m).0
unfolding reset
reset-Inv now ms from_now a m inv = elim (Bool-cases (ms == (m.heap a).ms && not from_now)) [
  | inl same ↦ rw same inv
  | inr other ↦ elim (Option-cases (m.heap a).cb) [
    | inl e ↦ rw (other, e) inv
    | inr (c, e) ↦
        let start =
          if from_now then now else ((m.heap a).next + u64_mod - (m.heap a).ms) % u64_mod in
        let t : Timer = record (m.heap a) { ms = ms; next = (start + ms) % u64_mod } in
        let i = inv.listed a (λ n. none≢some (sym n ∙ e)) in
        let (r, w) = erase-Without m.heap a m.timers inv.sorted i in
        rw (other, e, w.taken)
          (add_locked-Inv a (record m { heap = update m.heap a t; timers = r })
            (put_back-Inv m a t r inv i w (λ n. none≢some (sym n ∙ e))))
  ]
]

-- `TimerManager::addTimer` with a callback keeps the invariant, and the new timer is in the set.
pub add_timer-Inv :
    (now ms cb : ℕ) (recurring : Bool) (m : Manager)
    → Inv m
    → Inv (add_timer now ms (some cb) recurring m).0
      × In m.fresh (add_timer now ms (some cb) recurring m).0.timers
unfolding add_timer
add_timer-Inv now ms cb recurring m inv =
    let t : Timer = record {
      recurring = recurring;
      ms = ms;
      next = (now + ms) % u64_mod;
      cb = some cb;
    } in
    let new = λ (i : In m.fresh m.timers). (let l = inv.allocated m.fresh i in the_same l) in
    (
      add_locked-Inv m.fresh (record m { heap = update m.heap m.fresh t; fresh = m.fresh + 1 })
          (put_in-Inv m m.fresh (m.fresh + 1) t m.timers inv
            (record {
              sorted = inv.sorted;
              gone = new;
              stays = λ x i n. i;
              was = λ x i. i;
              below = omega arith;
              more = omega arith;
            })
            (λ n. none≢some (sym n))),
      add_locked-In m.fresh (record m { heap = update m.heap m.fresh t; fresh = m.fresh + 1 }),
    )
  where
    the_same : m.fresh < m.fresh → ⊥
    the_same l = omega arith
