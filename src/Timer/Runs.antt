-- ===== src/Timer/Runs.antt =====
-- C++高性能服务器/atpdxy/timer: every sequence of calls on the timers.
use mathlib.Core.Path.{subst}
use cpp_library.Base.{ℕ, ◌≡◌, refl, sym, ap, ◌∙◌, Bool, false, some, List, [], ◌∷◌, some-injective}
use cpp_library.Timer.{
  Manager, add_timer, cancel, refresh, reset, get_next_time, list_expired_cb, new_manager,
}
use cpp_library.Timer.Order.{Sorted, In}
use cpp_library.Timer.Invariant.{Inv, cancel-Inv, refresh-Inv, reset-Inv, add_timer-Inv}
use cpp_library.Timer.Expired.{list_expired_cb-fired}

-- One call, each with the time that it reads; `addTimer` is given a callback.
pub data Step : Manager → Manager → Type 0 where
  adds :
      {m : Manager} (now ms cb : ℕ) (recurring : Bool)
      → Step m (add_timer now ms (some cb) recurring m).0
  cancels : {m n : Manager} (a : ℕ) (b : Bool) → cancel a m ≡ some (n, b) → Step m n
  refreshes : {m : Manager} (now a : ℕ) → Step m (refresh now a m).0
  resets :
      {m : Manager} (now ms : ℕ) (from_now : Bool) (a : ℕ) → Step m (reset now ms from_now a m).0
  asks : {m : Manager} (now : ℕ) → Step m (get_next_time now m).0
  expires : {m : Manager} (now me : ℕ) → Step m (list_expired_cb now me m).1

pub data Reach : Manager → Type 0 where
  starts : (now : ℕ) → Reach (new_manager now)
  steps : {m n : Manager} → Reach m → Step m n → Reach n

new_manager-Inv : (now : ℕ) → Inv (new_manager now)
unfolding new_manager Sorted In
new_manager-Inv now = record {
  sorted = tt;
  armed = λ x i. absurd i;
  listed = λ x d. absurd (d refl);
  allocated = λ x i. absurd i;
}

get_next_time-Inv : (now : ℕ) (m : Manager) → Inv m → Inv (get_next_time now m).0
unfolding get_next_time
get_next_time-Inv now m i = by_timers m.timers refl
  where
    same : Inv (record m { tickled = false })
    same = record { sorted = i.sorted; armed = i.armed; listed = i.listed; allocated = i.allocated }

    by_timers : (s : List ℕ) → m.timers ≡ s → Inv (get_next_time now m).0
    by_timers [] e = rw (e, get_next_time) same
    by_timers (a ∷ s) e = rw (e, get_next_time) same

Step-Inv : {m n : Manager} → Inv m → Step m n → Inv n
Step-Inv {m} i (adds now ms cb recurring) = (add_timer-Inv now ms cb recurring m i).0
Step-Inv {m} i (cancels a b e) =
    let (n, c, f, j, _, _) = cancel-Inv a m i in
    subst Inv (ap (λ r. r.0) (some-injective (sym f ∙ e))) j
Step-Inv {m} i (refreshes now a) = refresh-Inv now a m i
Step-Inv {m} i (resets now ms from_now a) = reset-Inv now ms from_now a m i
Step-Inv {m} i (asks now) = get_next_time-Inv now m i
Step-Inv {m} i (expires now me) = (list_expired_cb-fired now me m i).1

-- After every sequence of calls in which addTimer is never given an empty callback, the set of timers
-- is sorted by time and address and holds exactly the timers that have a callback, all of them made
-- by addTimer.
pub Reach-sorted : (m : Manager) → Reach m → Inv m
Reach-sorted _ (starts now) = new_manager-Inv now
Reach-sorted _ (steps r s) = Step-Inv (Reach-sorted _ r) s
