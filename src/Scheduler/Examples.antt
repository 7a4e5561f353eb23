-- ===== src/Scheduler/Examples.antt =====
-- scheduler.cpp: each theorem on a queue and on a scheduler of one thread.
use cpp_library.Base.{ℕ, ◌≡◌, ◌≢◌, refl, true, false, none, some, List, [], ◌∷◌, arith}
use cpp_library.Fiber.{State, hold}
use cpp_library.Scheduler.{
  Task, picked, pick, looking, running, Worker, Scheduler, schedule_no_block, schedule,
  schedule_range, stopping, start, stop, new_scheduler, take_task, end_task,
}
use cpp_library.Scheduler.Pick.{no_tasks, work, Found, pick_lem}
use cpp_library.Scheduler.Runs.{
  schedules, takes, ends, starts_threads, stops, Reach, starts, steps, stopping-quiet,
}

abbrev waiting : ℕ → State
waiting f = hold

-- A task for the thread 1, and one for any thread
abbrev for_one : Task
for_one = record { fiber = none; cb = some 5; thread = some 1 }

abbrev for_any : Task
for_any = record { fiber = some 6; cb = none; thread = none }

abbrev queue : List Task
queue = for_one ∷ for_any ∷ []

-- The thread 0 passes the first task, and has the other threads told.
first_for_any : pick 0 waiting false queue ≡ picked for_any (for_one ∷ []) true
unfolding pick
first_for_any = refl

range_needs_tickle : (schedule_range queue false (new_scheduler waiting)).0 ≡ true
unfolding schedule_range schedule_no_block new_scheduler
range_needs_tickle = refl

pick_lem_example : Found 0 waiting queue false (pick 0 waiting false queue)
pick_lem_example = pick_lem 0 waiting queue (work refl (work refl no_tasks))

abbrev worker : Worker
worker = record { phase = looking; idle_over = false }

abbrev busy_worker : Worker
busy_worker = record worker { phase = running for_any }

abbrev started : Scheduler
started = record (new_scheduler waiting) { stop_flag = false; workers = worker ∷ [] }

abbrev quiet : Scheduler
quiet = stop (
    end_task 0 busy_worker none waiting
      (take_task 0 worker for_any [] (schedule for_any started).1))

quiet-Reach : Reach quiet
unfolding start new_scheduler schedule schedule_no_block pick take_task
quiet-Reach =
    steps
      (steps
        (steps (steps (steps (starts waiting) (starts_threads 1 refl)) (schedules for_any))
          (takes 0 worker for_any [] false refl refl refl))
        (ends 0 busy_worker for_any none waiting refl refl))
      stops

stopping-quiet_example :
    (quiet.auto_stop ≡ true) × (quiet.tasks ≡ []) × (worker.phase ≢ running for_any)
unfolding start new_scheduler schedule schedule_no_block take_task end_task stop stopping
stopping-quiet_example = stopping-quiet quiet 0 worker for_any quiet-Reach (omega arith) refl refl
