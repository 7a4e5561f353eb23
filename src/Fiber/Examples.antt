-- ===== src/Fiber/Examples.antt =====
-- fiber.cpp: each theorem on a thread with a main fiber and two others.
use cpp_library.Base.{◌≡◌, refl, none, some, arith}
use cpp_library.Fiber.{
  hold, ready, init, Thread, set_state, swap_context, get_this, new_main, new_fiber, new_thread,
  reset, call, swap_in, swap_out, yield_to, returns, main_func, caller_main_func, destroy,
}
use cpp_library.Fiber.Laws.{Inv, entered}
use cpp_library.Fiber.Runs.{makes, enters, Reach, starts, steps, Reach-own_stacks}
use cpp_library.Fiber.Nested.{caller_main_func-stays}

abbrev with_main : Thread
with_main = (get_this new_thread).1

abbrev with_two : Thread
with_two = (new_fiber (some 8) (new_fiber (some 7) with_main).1).1

with_two-Reach : Reach with_two
with_two-Reach = steps (steps starts (makes (some 7))) (makes (some 8))

abbrev in_one : Thread
in_one = entered 0 1 with_two

in_one-Reach : Reach in_one
unfolding get_this new_main new_fiber new_thread swap_in
in_one-Reach = steps with_two-Reach (enters 1 refl (omega arith) refl)

-- The entered fiber yields: it is READY, and the thread is on the main fiber's stack.
yield_in_one :
    (t : Thread) × (yield_to ready in_one ≡ some t) × (t.running ≡ 0) × ((t.fibers 1).state ≡ ready)
unfolding get_this new_main new_fiber new_thread swap_context swap_out yield_to
yield_in_one = (_, refl, refl, refl)

-- A fiber that has returned may be reset, and one that waits may not be destroyed.
again_init :
    (t : Thread) × (u : Thread) × (main_func returns 1 in_one ≡ some t)
    × (reset 1 (some 9) t ≡ some u)
    × ((u.fibers 1).state ≡ init)
unfolding get_this new_main new_fiber new_thread swap_context swap_out main_func reset
again_init = (_, _, refl, refl, refl)

destroy_waiting : destroy 1 (set_state 1 hold with_two) ≡ none
unfolding get_this new_main new_fiber new_thread destroy
destroy_waiting = refl

Reach-own_stacks_example : Inv 0 in_one
Reach-own_stacks_example = Reach-own_stacks in_one in_one-Reach

caller_main_func-stays_example :
    (t1 : Thread) × (t2 : Thread) × (t3 : Thread) × (t4 : Thread) × (call 1 with_two ≡ some t1)
    × (swap_in 2 t1 ≡ some t2)
    × (yield_to hold t2 ≡ some t3)
    × (caller_main_func returns 1 t3 ≡ some t4)
    × (t4.running ≡ 1)
unfolding get_this new_main new_fiber new_thread
caller_main_func-stays_example =
    caller_main_func-stays 0 1 2 returns with_two (Reach-own_stacks with_two with_two-Reach) refl
      (λ e. absurd (omega (arith, e))) (λ e. absurd (omega (arith, e)))
      (λ e. absurd (omega (arith, e))) (omega arith) refl
