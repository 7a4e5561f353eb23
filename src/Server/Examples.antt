-- ===== src/Server/Examples.antt =====
-- iomanager.cpp and scheduler.cpp: each theorem on a manager with one thread.
use cpp_library.Base.{ℕ, ◌≡◌, refl, true, false, some, [], ◌∷◌, ◌++◌, ◌==◌, if◌then◌else◌}
use cpp_library.Fiber.{State, hold, exec}
use cpp_library.IoManager
use cpp_library.IoManager.{
  IoManager, read, cb, Caller, job_of, FdContext, new_context, context_resize, new_manager,
  with_room, add_event, cancel_event,
}
use cpp_library.Scheduler
use cpp_library.Scheduler.{Task, looking, running, Worker, Scheduler, stop, new_scheduler}
use cpp_library.Server.{task_of, Server, after}
use cpp_library.Server.Runs.{starts, cancel_event-queues}

abbrev waiting : ℕ → State
waiting f = hold

abbrev fresh : Server
fresh = record { manager = new_manager; schedulers = λ i. new_scheduler waiting }

abbrev worker : Worker
worker = record { phase = looking; idle_over = false }

abbrev started : Scheduler
started = record (new_scheduler waiting) { stop_flag = false; workers = worker ∷ [] }

abbrev running_server : Server
running_server = record fresh { schedulers = λ k. if 0 == k then started else fresh.schedulers k }

abbrev stopped_server : Server
stopped_server = record running_server {
  schedulers =
      λ k. if 0 == k then stop (running_server.schedulers 0) else running_server.schedulers k;
}

abbrev caller : Caller
caller = record { scheduler = some 0; running = 2; state = exec }

abbrev any_task : Task
any_task = task_of (cb 5)

cancel_event-queues_example :
    (n : IoManager) × (o : IoManager) × (add_event 3 read (some 5) caller false new_manager
      ≡ some (true, n))
    × (cancel_event 3 read false n ≡ some (true, o))
    × (((after o fresh).schedulers 0).tasks ≡ (fresh.schedulers 0).tasks ++ any_task ∷ [])
    × ((i : ℕ) → (0 == i) ≡ false → (after o fresh).schedulers i ≡ fresh.schedulers i)
unfolding job_of new_manager context_resize with_room
cancel_event-queues_example =
    cancel_event-queues fresh 3 read (some 5) caller 0 (cb 5) (new_context 3) (starts waiting) refl
      refl (λ e. absurd cc) refl refl
