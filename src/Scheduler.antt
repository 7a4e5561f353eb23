-- ===== src/Scheduler.antt =====
-- C++高性能服务器/atpdxy/scheduler/scheduler.h and scheduler.cpp: the queue of tasks, the threads that
-- take from it, and the counters. A step is a critical section, or a part of `run` between two of
-- them. What a task does while it runs is an argument: the states of the fibers afterwards.
pub mod Pick
mod Counts
pub mod Laws
pub mod Runs
mod Examples
use cpp_library.Base.{
  ℕ, zero, suc, ◌+◌, ◌-◌, ◌%◌, ◌^◌, Bool, true, false, ◌&&◌, ◌||◌, not, Option, none, some, List,
  [], ◌∷◌, ◌++◌, ◌==◌, if◌then◌else◌, ◌≡◌, get_elem?, set, assert, ◌>>=◌, ◌>>◌,
}
use cpp_library.Fiber.{State, hold, term, ready, except, is_exec}

-- `FiberAndThread`; a thread of -1 is `none`.
pub record Task : Type 0 where
  pub fiber : Option ℕ
  pub cb : Option ℕ
  pub thread : Option ℕ

abbrev pub is_some : Option ℕ → Bool
is_some none = false
is_some (some a) = true

abbrev pub is_empty : List Task → Bool
is_empty [] = true
is_empty (t ∷ ts) = false

-- `it->thread!=-1 && it->thread!=getThreadId()`
abbrev pub elsewhere : ℕ → Task → Bool
elsewhere me t = elim t.thread [ none ↦ false | some i ↦ not (i == me) ]

-- `it->fiber || it->cb`
abbrev pub has_work : Task → Bool
has_work t = is_some t.fiber || is_some t.cb

-- `it->fiber && it->fiber->getState()==Fiber::EXEC`
abbrev pub executing : (ℕ → State) → Task → Bool
executing st t = elim t.fiber [ none ↦ false | some f ↦ is_exec (st f) ]

-- What the loop over the queue comes to: a task, what stays in the queue, and `tickle_me`; no task;
-- or a failed assertion
pub data Picked : Type 0 where
  picked : Task → List Task → Bool → Picked
  nothing : Bool → Picked
  fault : Picked

abbrev pub skip : Task → Picked → Picked
skip t (picked u rest tickle) = picked u (t ∷ rest) tickle
skip t (nothing tickle) = nothing tickle
skip t fault = fault

-- The loop over the queue in `run`
unfoldable pub pick : ℕ → (ℕ → State) → Bool → List Task → Picked
pick me st tickle [] = nothing tickle
pick me st tickle (t ∷ ts) =
    let past_other = skip t (pick me st true ts) in
    let past_executing = skip t (pick me st tickle ts) in
    if elsewhere me t
    then past_other
    else if not (has_work t)
    then fault
    else if executing st t
    then past_executing
    else picked t ts (tickle || not (is_empty ts))

-- Where a thread is in `run`: in front of the queue, in a task, between the decrement of the counter
-- and the call of `schedule` for a fiber that is ready again, in the idle fiber, or behind the loop
pub data Phase : Type 0 where
  looking idling finished : Phase
  running : Task → Phase
  requeueing : ℕ → Phase

-- `idle_over` is whether the idle fiber has come to its end.
pub record Worker : Type 0 where
  pub phase : Phase
  pub idle_over : Bool

pub record Scheduler : Type 0 where
  pub tasks : List Task
  pub workers : List Worker
  pub active_count : ℕ
  pub idle_count : ℕ
  pub stop_flag : Bool
  pub auto_stop : Bool
  pub states : ℕ → State

abbrev pub increment : ℕ → ℕ
increment n = (n + 1) % 2 ^ 64

abbrev pub decrement : ℕ → ℕ
decrement n = (n + (2 ^ 64 - 1)) % 2 ^ 64

-- `scheduleNoBlock`, with whether `tickle` is needed
unfoldable pub schedule_no_block : Task → Scheduler → Bool × Scheduler
schedule_no_block t s =
    (is_empty s.tasks, if has_work t then record s { tasks = s.tasks ++ t ∷ [] } else s)

-- `schedule` of one task, and of a range
unfoldable pub schedule : Task → Scheduler → Bool × Scheduler
schedule t s = schedule_no_block t s

unfoldable pub schedule_range : List Task → Bool → Scheduler → Bool × Scheduler
unfolding schedule_no_block
schedule_range [] tickle s = (tickle, s)
schedule_range (t ∷ ts) tickle s =
    let (needs, s') = schedule_no_block t s in schedule_range ts (needs || tickle) s'

-- `Scheduler::stopping`
unfoldable pub stopping : Scheduler → Bool
stopping s = s.auto_stop && (s.stop_flag && (is_empty s.tasks && s.active_count == 0))

abbrev pub put : ℕ → Worker → Scheduler → Scheduler
put i w s = record s { workers = set s.workers i w }

-- Each part of `run`, for the thread `i` whose worker is `w`
unfoldable pub take_task : ℕ → Worker → Task → List Task → Scheduler → Scheduler
take_task i w t rest s =
    put i (record w { phase = running t })
      (record s { tasks = rest; active_count = increment s.active_count })

unfoldable pub go_idle : ℕ → Worker → Scheduler → Scheduler
go_idle i w s =
    put i (record w { phase = idling }) (record s { idle_count = increment s.idle_count })

-- The idle fiber yields, or it ends where `stopping` returns true.
unfoldable pub leave_idle : ℕ → Worker → Bool → Scheduler → Scheduler
leave_idle i w over s =
    put i (record w { phase = looking; idle_over = over })
      (record s { idle_count = decrement s.idle_count })

-- The state that `run` leaves a fiber in that has yielded or ended
abbrev pub settled : State → State
settled ready = ready
settled term = term
settled except = except
settled _ = hold

abbrev pub is_ready : State → Bool
is_ready ready = true
is_ready _ = false

-- `ran` is the fiber that was entered, which is the task's own or one made for its callback; there is
-- none where the task's fiber has ended before. `st` has the states afterwards.
unfoldable pub end_task : ℕ → Worker → Option ℕ → (ℕ → State) → Scheduler → Scheduler
end_task i w none st s =
    put i (record w { phase = looking })
      (record s { active_count = decrement s.active_count; states = st })
end_task i w (some f) st s =
    put i (record w { phase = if is_ready (st f) then requeueing f else looking })
      (record s {
        active_count = decrement s.active_count;
        states = λ b. if f == b then settled (st f) else st b;
      })

unfoldable pub requeue : ℕ → Worker → ℕ → Scheduler → Scheduler
requeue i w f s =
    let task : Task = record { fiber = some f; cb = none; thread = none } in
    put i (record w { phase = looking }) (schedule task s).1

unfoldable pub leave_loop : ℕ → Worker → Scheduler → Scheduler
leave_loop i w s = put i (record w { phase = finished }) s

-- `start`, and the flags that `stop` sets
abbrev pub looking_workers : ℕ → List Worker
looking_workers zero = []
looking_workers (suc n) = record { phase = looking; idle_over = false } ∷ looking_workers n

abbrev no_workers : List Worker → Bool
no_workers [] = true
no_workers (w ∷ ws) = false

-- `n` is `m_threadCount`.
unfoldable pub start : ℕ → Scheduler → Option Scheduler
start n s = if not s.stop_flag then some s else (do
  assert (no_workers s.workers)
  some (record s { stop_flag = false; workers = looking_workers n }))

unfoldable pub stop : Scheduler → Scheduler
stop s = record s { auto_stop = true; stop_flag = true }

unfoldable pub new_scheduler : (ℕ → State) → Scheduler
new_scheduler st = record {
  tasks = [];
  workers = [];
  active_count = 0;
  idle_count = 0;
  stop_flag = true;
  auto_stop = false;
  states = st;
}
