-- ===== src/Timer/Expired.antt =====
-- C++高性能服务器/atpdxy/timer: which timers `listExpiredCb` fires, and how long
-- `getNextTime` waits.
use mathlib.Core.Path.{subst}
use cpp_library.Base.{
  ℕ, ◌+◌, ◌-◌, ◌%◌, ◌^◌, ◌<◌, ◌≤◌, ◌≡◌, ◌≢◌, inl, leb, inr, refl, sym, ap, ◌∙◌, true, false, Option,
  List, [], ◌∷◌, ◌++◌, map, Bool-cases, ltb, ltb→lt, if◌then◌else◌, arith,
}
use cpp_library.Timer.{
  Manager, u64_mod, get_next_time, detect_clock_rollover, split_due, fire, list_expired,
  list_expired_cb,
}
use cpp_library.Timer.Order.{Before, AllBehind-In, Sorted, In}
use cpp_library.Timer.Fire.{fire-callbacks, fire-Inv}
use cpp_library.Timer.Invariant.{Inv}
use cpp_library.Timer.Due.{due_list, nothing_due, split_due-due, append-split_due, Pending-start}

-- With no timer in the set getNextTime returns 2 ^ 64 - 1. Otherwise it returns the wait for one of
-- the timers, 0 where its time has come, and no timer of the set has a shorter wait; the clock and
-- the times of the timers are below 2 ^ 64.
pub get_next_time-least :
    (now : ℕ) (m : Manager)
    → Inv m
    → now < 2 ^ 64
    → ((x : ℕ) → In x m.timers → (m.heap x).next < 2 ^ 64)
    → (m.timers ≡ [] → (get_next_time now m).1 ≡ 2 ^ 64 - 1)
      × (m.timers ≢ []
          → (x : ℕ) × In x m.timers
            × ((get_next_time now m).1 ≡ (m.heap x).next - now)
            × ((y : ℕ) → In y m.timers → (get_next_time now m).1 ≤ (m.heap y).next - now))
unfolding get_next_time In Sorted Before
get_next_time-least now m inv l bound = (λ e. rw e refl, λ n. first m.timers inv.sorted bound n)
  where
    Least : List ℕ → Type 0
    Least s =
        let wait = (get_next_time now (record m { timers = s })).1 in
        (x : ℕ) × In x s
        × (wait ≡ (m.heap x).next - now)
        × ((y : ℕ) → In y s → wait ≤ (m.heap y).next - now)

    wait :
        (next : ℕ)
        → next < 2 ^ 64
        → (if leb next now then 0 else (next + u64_mod - now) % u64_mod) ≡ next - now
    wait next b = ground arith

    least : {a x : ℕ} → Before m.heap a x → (m.heap a).next ≤ (m.heap x).next
    least (inl l) = omega arith
    least (inr (e, l)) = omega arith

    first :
        (s : List ℕ)
        → Sorted m.heap s
        → ((x : ℕ) → In x s → (m.heap x).next < 2 ^ 64)
        → s ≢ []
        → Least s
    first [] k b n = absurd (n refl)
    first (a ∷ s) k b n =
        let exact = wait (m.heap a).next (b a (inl refl)) in
        (
          a,
          inl refl,
          exact,
          λ y i. elim i [
            | inl e ↦ omega (arith, exact, ap (λ (z : ℕ). (m.heap z).next) e)
            | inr j ↦ omega (arith, exact, least (AllBehind-In m.heap a y s k.0 j))
          ],
        )

-- The timers that `listExpiredCb` fires: all of them when the clock was set back, else those due.
unfoldable pub fired : ℕ → Manager → List ℕ
fired now m = if detect_clock_rollover now m then m.timers else due_list m.heap now m.timers

-- A result is right when the callbacks are those of the list and the invariant holds.
Right : Manager → List ℕ → List (Option ℕ) × Manager → Type 0
Right m due r = (r.0 ≡ map (λ x. (m.heap x).cb) due) × Inv r.1

fire-lem :
    (now : ℕ) (due rest : List ℕ) (m : Manager)
    → Inv m
    → due ++ rest ≡ m.timers
    → Right m due (fire now due (record m { previous = now; timers = rest }))
unfolding Right
fire-lem now due rest m inv e =
    let m' : Manager = record m { previous = now; timers = rest } in
    let (d, p) = Pending-start now due rest m inv e in
    (fire-callbacks now due m' d, fire-Inv now due m' d p)

list_expired-back :
    (now me a : ℕ) (s : List ℕ) (m : Manager)
    → detect_clock_rollover now m ≡ true
    → list_expired now me a s m ≡ fire now (a ∷ s) (record m { previous = now; timers = [] })
unfolding list_expired
list_expired-back now me a s m h = rw h refl

list_expired-early :
    (now me a : ℕ) (s : List ℕ) (m : Manager)
    → detect_clock_rollover now m ≡ false
    → ltb now (m.heap a).next ≡ true
    → list_expired now me a s m ≡ ([], record m { previous = now })
unfolding list_expired
list_expired-early now me a s m h e = rw (h, e) refl

list_expired-due :
    (now me a : ℕ) (s : List ℕ) (m : Manager)
    → detect_clock_rollover now m ≡ false
    → ltb now (m.heap a).next ≡ false
    → list_expired now me a s m
      ≡ fire now
          (split_due m.heap now me (a ∷ s)).0
          (record m { previous = now; timers = (split_due m.heap now me (a ∷ s)).1 })
unfolding list_expired
list_expired-due now me a s m h e = rw (h, e) refl

append-nil : (s : List ℕ) → s ++ [] ≡ s
append-nil [] = refl
append-nil (a ∷ s) = ap (◌∷◌ a) (append-nil s)

previous-Inv : (now : ℕ) (m : Manager) → Inv m → Inv (record m { previous = now })
previous-Inv now m inv = record {
  sorted = inv.sorted;
  armed = inv.armed;
  listed = inv.listed;
  allocated = inv.allocated;
}

Right-nothing : (m m' : Manager) → Inv m' → Right m [] ([], m')
unfolding Right
Right-nothing m m' inv = (refl, inv)

fired_lem :
    (now : ℕ) (s : List ℕ) (m : Manager)
    → m.timers ≡ s
    → fired now m ≡ (if detect_clock_rollover now m then s else due_list m.heap now s)
unfolding fired
fired_lem now s m e = ap (λ t. if detect_clock_rollover now m then t else due_list m.heap now t) e

list_expired_cb-nil :
    (now me : ℕ) (m : Manager) → m.timers ≡ [] → list_expired_cb now me m ≡ ([], m)
unfolding list_expired_cb
list_expired_cb-nil now me m e =
    ap
      (λ t. elim t as (λ x. List (Option ℕ) × Manager) [
        | [] ↦ ([], m)
        | a ∷ s ↦ list_expired now me a s m
      ])
      e

list_expired_cb-cons :
    (now me a : ℕ) (s : List ℕ) (m : Manager)
    → m.timers ≡ a ∷ s
    → list_expired_cb now me m ≡ list_expired now me a s m
unfolding list_expired_cb
list_expired_cb-cons now me a s m e =
    ap
      (λ t. elim t as (λ x. List (Option ℕ) × Manager) [
        | [] ↦ ([], m)
        | b ∷ r ↦ list_expired now me b r m
      ])
      e

list_expired-Right :
    (now me a : ℕ) (s : List ℕ) (m : Manager)
    → Inv m
    → m.timers ≡ a ∷ s
    → Right m
        (if detect_clock_rollover now m then a ∷ s else due_list m.heap now (a ∷ s))
        (list_expired now me a s m)
list_expired-Right now me a s m inv e = elim (Bool-cases (detect_clock_rollover now m)) [
  | inl back ↦
      rw (back, list_expired-back now me a s m back)
        (fire-lem now (a ∷ s) [] m inv (append-nil (a ∷ s) ∙ sym e))
  | inr on ↦ elim (Bool-cases (ltb now (m.heap a).next)) [
    | inl early ↦
        rw (on, list_expired-early now me a s m on early, none_due early)
          (Right-nothing m (record m { previous = now }) (previous-Inv now m inv))
    | inr late ↦
        rw
          (
            on,
            list_expired-due now me a s m on late,
            sym (split_due-due m.heap now me (a ∷ s) sorted),
          )
          (fire-lem now _ _ m inv (append-split_due m.heap now me (a ∷ s) ∙ sym e))
  ]
]
  where
    sorted : Sorted m.heap (a ∷ s)
    sorted = subst (Sorted m.heap) e inv.sorted

    none_due : ltb now (m.heap a).next ≡ true → due_list m.heap now (a ∷ s) ≡ []
    none_due l = nothing_due m.heap now a s (ltb→lt now (m.heap a).next l) sorted

list_expired_cb-Right :
    (now me : ℕ) (m : Manager) → Inv m → Right m (fired now m) (list_expired_cb now me m)
unfolding due_list
list_expired_cb-Right now me m inv = by_timers m.timers refl
  where
    same : (if detect_clock_rollover now m then [] else due_list m.heap now []) ≡ []
    same = elim (Bool-cases (detect_clock_rollover now m)) [
      | inl e ↦ rw e refl
      | inr e ↦ rw (e, due_list) refl
    ]

    by_timers : (s : List ℕ) → m.timers ≡ s → Right m (fired now m) (list_expired_cb now me m)
    by_timers [] e =
        rw (fired_lem now [] m e, list_expired_cb-nil now me m e, same) (Right-nothing m m inv)
    by_timers (a ∷ s) e =
        rw (fired_lem now (a ∷ s) m e, list_expired_cb-cons now me a s m e)
          (list_expired-Right now me a s m inv e)

-- `TimerManager::listExpiredCb` keeps the invariant and collects, in the order of the set, the
-- callbacks of all timers if it detects that the clock was set back, and of those with
-- `next <= now` otherwise.
pub list_expired_cb-fired :
    (now me : ℕ) (m : Manager)
    → Inv m
    → ((list_expired_cb now me m).0 ≡ map (λ x. (m.heap x).cb) (fired now m))
      × Inv (list_expired_cb now me m).1
unfolding Right
list_expired_cb-fired now me m inv = list_expired_cb-Right now me m inv
