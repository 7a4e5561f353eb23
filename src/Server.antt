-- ===== src/Server.antt =====
-- C++高性能服务器/atpdxy/iomanager/iomanager.cpp with scheduler/scheduler.cpp: the events of an IO
-- manager give jobs to schedulers. The manager itself is one of them.
mod Runs
mod Examples
use cpp_library.Base.{
  ℕ, Bool, true, false, Option, none, some, List, [], ◌∷◌, ◌==◌, if◌then◌else◌, length, drop,
}
use cpp_library.IoManager
use cpp_library.IoManager.{IoManager, Job, fiber, cb}
use cpp_library.Scheduler
use cpp_library.Scheduler.{Task, Scheduler, schedule}

-- The task that `schedule(&ctx.cb)` or `schedule(&ctx.fiber)` makes, for any thread
abbrev pub task_of : Job → Task
task_of (fiber f) = record { fiber = some f; cb = none; thread = none }
task_of (cb c) = record { fiber = none; cb = some c; thread = none }

-- The calls of `schedule`, in their order
unfoldable pub deliver : List (ℕ × Job) → (ℕ → Scheduler) → ℕ → Scheduler
deliver [] ss = ss
deliver ((s, j) ∷ js) ss =
    deliver js (λ i. if s == i then (schedule (task_of j) (ss s)).1 else ss i)

pub record Server : Type 0 where
  pub manager : IoManager
  pub schedulers : ℕ → Scheduler

-- A method of the manager has led from the server's manager to `n`.
unfoldable pub after : IoManager → Server → Server
after n v = record {
  manager = n;
  schedulers = deliver (drop (length v.manager.scheduled) n.scheduled) v.schedulers;
}

-- `IOManager::stopping`, where the manager is the scheduler `i`
unfoldable pub stopping : ℕ → Server → Bool
stopping i v = IoManager.stopping (Scheduler.stopping (v.schedulers i)) v.manager
