-- ===== src/Server/Runs.antt =====
-- iomanager.cpp and scheduler.cpp: every interleaving of the manager's methods and the threads.
use cpp_library.Base.{
  ℕ, true, false, ◌≡◌, ◌≢◌, Option, refl, ap, ◌∙◌, some, List, [], ◌∷◌, ◌++◌, ◌==◌, Bool-cases, inl,
  inr, if◌then◌else◌, length, drop, drop-length_append, get_elem?, ==_refl,
}
use cpp_library.Fiber.{State}
use cpp_library.IoManager
use cpp_library.IoManager.{
  IoManager, Event, none_event, Job, Caller, job_of, fiber, cb, FdContext, bits, has, with_room,
  add_event, cancel_event, new_manager,
}
use cpp_library.IoManager.Laws.{Inv as ManagerInv}
use cpp_library.IoManager.Runs.{Step as ManagerStep, Step-Inv as ManagerStep-Inv, new_manager-Inv}
use cpp_library.IoManager.Deliveries.{cancel_event-add_event}
use cpp_library.Scheduler
use cpp_library.Scheduler.{Scheduler, has_work, schedule, schedule_no_block, new_scheduler}
use cpp_library.Scheduler.Laws.{Inv as SchedulerInv, schedule-Inv}
use cpp_library.Scheduler.Runs.{
  Step as SchedulerStep, Step-Inv as SchedulerStep-Inv, starts as starts_scheduler, Reach-counted,
}
use cpp_library.Server.{task_of, deliver, Server, after}

-- A method of the manager, or a part of the run of a scheduler
pub data Step : Server → Server → Type 0 where
  manages : {v : Server} (n : IoManager) → ManagerStep v.manager n → Step v (after n v)
  runs :
      {v : Server} (i : ℕ) (u : Scheduler)
      → SchedulerStep (v.schedulers i) u
      → Step v (record v { schedulers = λ k. if i == k then u else v.schedulers k })

pub data Reach : Server → Type 0 where
  starts :
      (st : ℕ → State)
      → Reach (record { manager = new_manager; schedulers = λ i. new_scheduler st })
  steps : {v u : Server} → Reach v → Step v u → Reach u

-- The manager's invariant, and each scheduler's
pub record Inv (v : Server) : Type 0 where
  pub manager : ManagerInv v.manager
  pub schedulers : (i : ℕ) → SchedulerInv (v.schedulers i)

one-Inv :
    (i : ℕ) (u : Scheduler) (ss : ℕ → Scheduler)
    → ((k : ℕ) → SchedulerInv (ss k))
    → SchedulerInv u
    → (k : ℕ) → SchedulerInv (if i == k then u else ss k)
one-Inv i u ss f j k = elim (Bool-cases (i == k)) [ inl e ↦ rw e j | inr e ↦ rw e (f k) ]

deliver-Inv :
    (js : List (ℕ × Job)) (ss : ℕ → Scheduler)
    → ((k : ℕ) → SchedulerInv (ss k))
    → (k : ℕ) → SchedulerInv (deliver js ss k)
unfolding deliver
deliver-Inv [] ss f k = f k
deliver-Inv ((s, j) ∷ js) ss f k =
    deliver-Inv js _ (one-Inv s _ ss f (schedule-Inv (task_of j) (ss s) (f s))) k

Step-Inv : {v u : Server} → Inv v → Step v u → Inv u
unfolding after
Step-Inv {v} i (manages n s) = record {
  manager = ManagerStep-Inv i.manager s;
  schedulers = deliver-Inv _ v.schedulers i.schedulers;
}
Step-Inv {v} i (runs k u s) = record {
  manager = i.manager;
  schedulers = one-Inv k u v.schedulers i.schedulers (SchedulerStep-Inv (i.schedulers k) s);
}

Reach-Inv : (v : Server) → Reach v → Inv v
Reach-Inv v (starts st) = record {
  manager = new_manager-Inv;
  schedulers = λ i. Reach-counted (new_scheduler st) (starts_scheduler st);
}
Reach-Inv v (steps r s) = Step-Inv (Reach-Inv _ r) s

delivered :
    (s : ℕ) (j : Job) (ss : ℕ → Scheduler)
    → ((deliver ((s, j) ∷ []) ss s).tasks ≡ (ss s).tasks ++ task_of j ∷ [])
      × ((i : ℕ) → (s == i) ≡ false → deliver ((s, j) ∷ []) ss i ≡ ss i)
unfolding deliver schedule schedule_no_block
delivered s (fiber f) ss = (rw (==_refl s) refl, λ i n. rw n refl)
delivered s (cb f) ss = (rw (==_refl s) refl, λ i n. rw n refl)

-- In every state that such interleavings reach: registering an event that is not registered yet, on a
-- thread of a scheduler, and then cancelling it puts its job once at the end of that scheduler's queue,
-- and changes no other scheduler. The job is the callback, or without one the running fiber, which has
-- to be in the state EXEC; the two calls of epoll_ctl succeed.
pub cancel_event-queues :
    (v : Server) (fd : ℕ) (e : Event) (callback : Option ℕ) (t : Caller) (s : ℕ) (job : Job)
    (c : FdContext)
    → Reach v
    → t.scheduler ≡ some s
    → job_of callback t ≡ some job
    → e ≢ none_event
    → get_elem? (with_room fd v.manager.fd_contexts) fd ≡ some c
    → has c.events (bits e) ≡ false
    → (n : IoManager) × (o : IoManager) × (add_event fd e callback t false v.manager
        ≡ some (true, n))
      × (cancel_event fd e false n ≡ some (true, o))
      × (((after o v).schedulers s).tasks ≡ (v.schedulers s).tasks ++ task_of job ∷ [])
      × ((i : ℕ) → (s == i) ≡ false → (after o v).schedulers i ≡ v.schedulers i)
unfolding after
cancel_event-queues v fd e callback t s job c r on j n g h =
    let i = Reach-Inv v r in
    let (m, o, added, cancelled, jobs) =
      cancel_event-add_event fd e callback t s job v.manager c i.manager on j n g h in
    let new : drop (length v.manager.scheduled) o.scheduled ≡ (s, job) ∷ [] =
      rw jobs (drop-length_append v.manager.scheduled ((s, job) ∷ [])) in
    let (queued, others) = delivered s job v.schedulers in
    (
      m,
      o,
      added,
      cancelled,
      ap (λ (js : List (ℕ × Job)). (deliver js v.schedulers s).tasks) new ∙ queued,
      λ k d. ap (λ (js : List (ℕ × Job)). deliver js v.schedulers k) new ∙ others k d,
    )
