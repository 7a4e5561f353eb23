-- ===== src/Timer/Examples.antt =====
-- C++高性能服务器/atpdxy/timer: each theorem on a manager of two timers.
use cpp_library.Base.{
  ℕ, ◌-◌, ◌^◌, ◌<◌, ◌≤◌, ◌≡◌, ◌≢◌, ◌↔◌, inl, inr, refl, sym, Bool, true, false, none, some, [], ◌∷◌,
  map, ◌==◌, ==_iff, Bool-cases, arith,
}
use cpp_library.Timer.{
  Timer, Heap, update, Manager, add_timer, cancel, get_next_time, list_expired_cb, new_manager,
}
use cpp_library.Timer.Order.{AllBehind, Sorted, In}
use cpp_library.Timer.Invariant.{Inv, none≢some, cancel-Inv}
use cpp_library.Timer.Runs.{adds, Reach, starts, steps, Reach-sorted}
use cpp_library.Timer.Expired.{fired, get_next_time-least, list_expired_cb-fired}

abbrev no_timer : Timer
no_timer = record { recurring = false; ms = 0; next = 0; cb = none }

-- A timer without a callback at 1, one due at time 100 at 2, and the rest of the heap unused
abbrev two_timers : Heap
two_timers =
    update (λ a. no_timer) 2 (record { recurring = true; ms = 50; next = 100; cb = some 7 })

abbrev sample : Manager
sample = record { heap = two_timers; timers = 2 ∷ []; tickled = false; previous = 60; fresh = 3 }

sample-Inv : Inv sample
unfolding Sorted AllBehind In
sample-Inv = record {
  sorted = (tt, tt);
  armed = λ x i. elim i [ inl e ↦ armed x e | inr j ↦ absurd j ];
  listed = listed;
  allocated = λ x i. elim i [ inl e ↦ omega arith | inr j ↦ absurd j ];
}
  where
    armed : (x : ℕ) → x ≡ 2 → (two_timers x).cb ≢ none
    armed x e f = none≢some (sym (rw e at f))

    listed : (x : ℕ) → (two_timers x).cb ≢ none → In x (2 ∷ [])
    listed x c = elim (Bool-cases (2 == x)) [
      | inl e ↦ inl (sym ((==_iff 2 x).0 e))
      | inr e ↦ absurd (c (rw e refl))
    ]

cancel-Inv_example :
    (m' : Manager) × (b : Bool) × (cancel 2 sample ≡ some (m', b))
    × Inv m'
    × (In 2 m'.timers → ⊥)
    × ((x : ℕ) → x ≢ 2 → (In x m'.timers) ↔ (In x sample.timers))
cancel-Inv_example = cancel-Inv 2 sample sample-Inv

sample_next : (x : ℕ) → In x sample.timers → (sample.heap x).next < 2 ^ 64
unfolding In
sample_next x (inl e) = rw e (omega arith)
sample_next x (inr j) = absurd j

get_next_time-least_example :
    (sample.timers ≡ [] → (get_next_time 70 sample).1 ≡ 2 ^ 64 - 1)
    × (sample.timers ≢ []
        → (x : ℕ) × In x sample.timers
          × ((get_next_time 70 sample).1 ≡ (sample.heap x).next - 70)
          × ((y : ℕ)
              → In y sample.timers
              → (get_next_time 70 sample).1 ≤ (sample.heap y).next - 70))
get_next_time-least_example = get_next_time-least 70 sample sample-Inv (omega arith) sample_next

list_expired_cb-fired_example :
    ((list_expired_cb 120 5 sample).0 ≡ map (λ x. (sample.heap x).cb) (fired 120 sample))
    × Inv (list_expired_cb 120 5 sample).1
list_expired_cb-fired_example = list_expired_cb-fired 120 5 sample sample-Inv

abbrev one_added : Manager
one_added = (add_timer 70 5 (some 9) false (new_manager 60)).0

one_added-Reach : Reach one_added
one_added-Reach = steps (starts 60) (adds 70 5 9 false)

Reach-sorted_example : Inv one_added
Reach-sorted_example = Reach-sorted one_added one_added-Reach
