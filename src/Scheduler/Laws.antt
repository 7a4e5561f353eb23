-- ===== src/Scheduler/Laws.antt =====
-- scheduler.cpp: each part of `run` keeps the counters exact and the queue free of empty tasks.
use mathlib.Core.Path.{subst}
use cpp_library.Base.{
  ℕ, ◌+◌, ◌%◌, ◌^◌, Bool, true, false, ◌≡◌, inl, inr, refl, Option, none, some, List, [], ◌∷◌, ◌++◌,
  ◌==◌, Bool-cases, if◌then◌else◌, get_elem?, arith,
}
use cpp_library.Fiber.{State}
use cpp_library.Scheduler.{
  Task, has_work, picked, pick, looking, idling, running, requeueing, Worker, Scheduler, increment,
  decrement, schedule_no_block, schedule, put, take_task, go_idle, leave_idle, settled, is_ready,
  end_task, requeue, leave_loop,
}
use cpp_library.Scheduler.Pick.{AllWork, no_tasks, work, First, Found, pick_lem}
use cpp_library.Scheduler.Counts.{is_running, is_idling, count, moved_count}

-- The queue holds no empty task, and both counters are exact.
pub record Inv (s : Scheduler) : Type 0 where
  pub all_work : AllWork s.tasks
  pub active : s.active_count ≡ count is_running s.workers % 2 ^ 64
  pub idle : s.idle_count ≡ count is_idling s.workers % 2 ^ 64

AllWork-append :
    (ts : List Task) (t : Task) → AllWork ts → has_work t ≡ true → AllWork (ts ++ t ∷ [])
AllWork-append [] t no_tasks h = work h no_tasks
AllWork-append (u ∷ ts) t (work g k) h = work g (AllWork-append ts t k h)

AllWork-remove :
    (before : List Task) (t : Task) (behind : List Task)
    → AllWork (before ++ t ∷ behind)
    → AllWork (before ++ behind)
AllWork-remove [] t behind (work h k) = k
AllWork-remove (u ∷ before) t behind (work h k) = work h (AllWork-remove before t behind k)

-- A worker goes from one phase to another, and the counters with it.
pub put-Inv :
    (i : ℕ) (w v : Worker) (s u : Scheduler)
    → Inv s
    → get_elem? s.workers i ≡ some w
    → u.workers ≡ s.workers
    → AllWork u.tasks
    → ((k : ℕ)
        → s.active_count ≡ (k + is_running w.phase) % 2 ^ 64
        → u.active_count ≡ (k + is_running v.phase) % 2 ^ 64)
    → ((k : ℕ)
        → s.idle_count ≡ (k + is_idling w.phase) % 2 ^ 64
        → u.idle_count ≡ (k + is_idling v.phase) % 2 ^ 64)
    → Inv (put i v u)
put-Inv i w v s u j g same k a d = record {
  all_work = k;
  active =
      rw same (moved_count is_running s.workers i w v s.active_count u.active_count g j.active a);
  idle = rw same (moved_count is_idling s.workers i w v s.idle_count u.idle_count g j.idle d);
}

pub take_task-Inv :
    (i : ℕ) (w : Worker) (t : Task) (rest : List Task) (tickle : Bool) (s : Scheduler)
    → Inv s
    → get_elem? s.workers i ≡ some w
    → w.phase ≡ looking
    → pick i s.states false s.tasks ≡ picked t rest tickle
    → Inv (take_task i w t rest s)
unfolding take_task is_running is_idling
take_task-Inv i w t rest tickle s j g l e =
    let f : First i s.states s.tasks false t rest tickle =
      unfold Found in
      subst (Found i s.states s.tasks false) e (pick_lem i s.states s.tasks j.all_work) in
    let kept : AllWork rest =
      rw f.kept (AllWork-remove f.before t f.behind (subst AllWork f.split j.all_work)) in
    put-Inv i w _ s (record s { tasks = rest; active_count = increment s.active_count }) j g refl
      kept (λ k b. let c : s.active_count ≡ (k + 0) % 2 ^ 64 = rw l at b in omega (arith, c))
      (λ k b. let c : s.idle_count ≡ (k + 0) % 2 ^ 64 = rw l at b in c)

pub go_idle-Inv :
    (i : ℕ) (w : Worker) (s : Scheduler)
    → Inv s
    → get_elem? s.workers i ≡ some w
    → w.phase ≡ looking
    → Inv (go_idle i w s)
unfolding go_idle is_running is_idling
go_idle-Inv i w s j g l =
    put-Inv i w _ s (record s { idle_count = increment s.idle_count }) j g refl j.all_work
      (λ k b. let c : s.active_count ≡ (k + 0) % 2 ^ 64 = rw l at b in c)
      (λ k b. let c : s.idle_count ≡ (k + 0) % 2 ^ 64 = rw l at b in omega (arith, c))

pub leave_idle-Inv :
    (i : ℕ) (w : Worker) (over : Bool) (s : Scheduler)
    → Inv s
    → get_elem? s.workers i ≡ some w
    → w.phase ≡ idling
    → Inv (leave_idle i w over s)
unfolding leave_idle is_running is_idling
leave_idle-Inv i w over s j g l =
    put-Inv i w _ s (record s { idle_count = decrement s.idle_count }) j g refl j.all_work
      (λ k b. let c : s.active_count ≡ (k + 0) % 2 ^ 64 = rw l at b in c)
      (λ k b. let c : s.idle_count ≡ (k + 1) % 2 ^ 64 = rw l at b in omega (arith, c))

pub end_task-Inv :
    (i : ℕ) (w : Worker) (t : Task) (ran : Option ℕ) (st : ℕ → State) (s : Scheduler)
    → Inv s
    → get_elem? s.workers i ≡ some w
    → w.phase ≡ running t
    → Inv (end_task i w ran st s)
unfolding end_task is_running is_idling
end_task-Inv i w t none st s j g l =
    put-Inv i w _ s (record s { active_count = decrement s.active_count; states = st }) j g refl
      j.all_work (λ k b. let c : s.active_count ≡ (k + 1) % 2 ^ 64 = rw l at b in omega (arith, c))
      (λ k b. let c : s.idle_count ≡ (k + 0) % 2 ^ 64 = rw l at b in c)
end_task-Inv i w t (some f) st s j g l =
    let u : Scheduler = record s {
      active_count = decrement s.active_count;
      states = λ b. if f == b then settled (st f) else st b;
    } in
    put-Inv i w (record w { phase = if is_ready (st f) then requeueing f else looking }) s u j g
      refl j.all_work
      (λ k b.
        let c : s.active_count ≡ (k + 1) % 2 ^ 64 = rw l at b in
        elim (Bool-cases (is_ready (st f))) [
          | inl h ↦ rw h (omega (arith, c))
          | inr h ↦ rw h (omega (arith, c))
        ])
      (λ k b.
        let c : s.idle_count ≡ (k + 0) % 2 ^ 64 = rw l at b in
        elim (Bool-cases (is_ready (st f))) [ inl h ↦ rw h c | inr h ↦ rw h c ])

pub schedule-Inv : (t : Task) (s : Scheduler) → Inv s → Inv (schedule t s).1
unfolding schedule schedule_no_block
schedule-Inv t s j = elim (Bool-cases (has_work t)) [
  | inl h ↦ rw h (record {
    all_work = AllWork-append s.tasks t j.all_work h;
    active = j.active;
    idle = j.idle;
  })
  | inr h ↦ rw h (record { all_work = j.all_work; active = j.active; idle = j.idle })
]

pub requeue-Inv :
    (i : ℕ) (w : Worker) (f : ℕ) (s : Scheduler)
    → Inv s
    → get_elem? s.workers i ≡ some w
    → w.phase ≡ requeueing f
    → Inv (requeue i w f s)
unfolding requeue schedule schedule_no_block is_running is_idling
requeue-Inv i w f s j g l =
    let task : Task = record { fiber = some f; cb = none; thread = none } in
    put-Inv i w _ s (record s { tasks = s.tasks ++ task ∷ [] }) j g refl
      (AllWork-append s.tasks task j.all_work refl)
      (λ k b. let c : s.active_count ≡ (k + 0) % 2 ^ 64 = rw l at b in c)
      (λ k b. let c : s.idle_count ≡ (k + 0) % 2 ^ 64 = rw l at b in c)

pub leave_loop-Inv :
    (i : ℕ) (w : Worker) (s : Scheduler)
    → Inv s
    → get_elem? s.workers i ≡ some w
    → w.phase ≡ looking
    → Inv (leave_loop i w s)
unfolding leave_loop is_running is_idling
leave_loop-Inv i w s j g l =
    put-Inv i w _ s s j g refl j.all_work
      (λ k b. let c : s.active_count ≡ (k + 0) % 2 ^ 64 = rw l at b in c)
      (λ k b. let c : s.idle_count ≡ (k + 0) % 2 ^ 64 = rw l at b in c)
