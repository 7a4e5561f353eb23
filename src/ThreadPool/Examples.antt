-- ===== src/ThreadPool/Examples.antt =====
-- ThreadPool/ThreadPool.h: each theorem on a run with one task and one worker.
use cpp_library.Base.{ℕ, false, arith, ◌≡◌, ◌≢◌, refl, true, [], ◌∷◌, ◌++◌}
use cpp_library.ThreadPool.{
  waiting, running, returned, Pool, new_pool, set_worker, take_front, wake, enqueue, shut_down,
  finish, fall_asleep, rouse, notify_one, wakes, sleeps, finishes, enqueues, shuts_down, notifies,
  Reach, starts, steps,
}
use cpp_library.ThreadPool.Laws.{Reach-fifo, Reach-drained}
use cpp_library.ThreadPool.Wakeups.{Awake, Reach-woken}

abbrev queued : Pool
queued = record (new_pool 1) { tasks = 8 ∷ []; accepted = 8 ∷ []; notices = 1 }

abbrev busy : Pool
busy = set_worker 0 (running 8) (record queued { tasks = []; started = 8 ∷ [] })

abbrev idle : Pool
idle = set_worker 0 waiting busy

abbrev stopped : Pool
stopped = record idle { stop = true; closing = true }

abbrev joined : Pool
joined = set_worker 0 returned stopped

queued-Reach : Reach queued
unfolding new_pool enqueue
queued-Reach = steps (starts 1) (enqueues 8 refl)

busy-Reach : Reach busy
unfolding new_pool wake take_front
busy-Reach = steps queued-Reach (wakes 0 refl refl)

stopped-Reach : Reach stopped
unfolding finish shut_down
stopped-Reach = steps (steps busy-Reach (finishes 0 8 refl)) shuts_down

joined-Reach : Reach joined
unfolding wake new_pool
joined-Reach = steps stopped-Reach (wakes 0 refl refl)

Reach-fifo_example : busy.started ++ busy.tasks ≡ busy.accepted
Reach-fifo_example = Reach-fifo busy busy-Reach

Reach-drained_example : (joined.stop ≡ true) × (joined.started ≡ joined.accepted)
Reach-drained_example = Reach-drained joined 0 joined-Reach refl

-- The worker sleeps, and wakes up for a task.
abbrev sleeping : Pool
sleeping = fall_asleep 0 (new_pool 1)

sleeping-Reach : Reach sleeping
unfolding new_pool wake
sleeping-Reach = steps (starts 1) (sleeps 0 refl refl)

notified-Reach :
    (p : Pool) × Reach p × (p.tasks ≡ 8 ∷ []) × (p.notices ≡ 0) × (p.worker 0 ≡ waiting)
unfolding new_pool wake fall_asleep enqueue rouse notify_one
notified-Reach = (
  _,
  steps (steps sleeping-Reach (enqueues 8 refl)) (notifies 0 (λ e. absurd (omega (arith, e))) refl),
  refl,
  refl,
  refl,
)

Reach-woken_example :
    (sleeping.stop ≡ false) × (sleeping.tasks ≢ [] → (v : ℕ) × Awake (sleeping.worker v))
unfolding new_pool fall_asleep
Reach-woken_example = Reach-woken sleeping 0 sleeping-Reach refl refl refl
