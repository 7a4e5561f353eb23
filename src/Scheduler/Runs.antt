-- ===== src/Scheduler/Runs.antt =====
-- scheduler.cpp: every interleaving of the threads, and what `stopping` then tells.
use mathlib.Core.Path.{subst}
use cpp_library.Base.{
  ℕ, ◌%◌, ◌^◌, ◌≤◌, Bool, true, false, ◌≡◌, ◌≢◌, inl, inr, refl, sym, ap, ◌∙◌, Option, none, some,
  List, [], ◌∷◌, Bool-cases, none≢some, some-injective, length, get_elem?, arith,
}
use cpp_library.Fiber.{State}
use cpp_library.Scheduler.{
  Task, is_empty, picked, nothing, pick, Phase, looking, idling, finished, running, requeueing,
  Worker, Scheduler, schedule, stopping, take_task, go_idle, leave_idle, end_task, requeue,
  leave_loop, looking_workers, start, stop, new_scheduler,
}
use cpp_library.Scheduler.Pick.{no_tasks}
use cpp_library.Scheduler.Counts.{is_running, is_idling, count, count-looking, count-others}
use cpp_library.Scheduler.Laws.{
  Inv, take_task-Inv, go_idle-Inv, leave_idle-Inv, end_task-Inv, schedule-Inv, requeue-Inv,
  leave_loop-Inv,
}

-- One part of the run of a thread, which has its place among the workers for its number, or a call
-- from outside
pub data Step : Scheduler → Scheduler → Type 0 where
  schedules : {s : Scheduler} (t : Task) → Step s (schedule t s).1
  takes :
      {s : Scheduler} (i : ℕ) (w : Worker) (t : Task) (rest : List Task) (tickle : Bool)
      → get_elem? s.workers i ≡ some w
      → w.phase ≡ looking
      → pick i s.states false s.tasks ≡ picked t rest tickle
      → Step s (take_task i w t rest s)
  idles :
      {s : Scheduler} (i : ℕ) (w : Worker) (tickle : Bool)
      → get_elem? s.workers i ≡ some w
      → w.phase ≡ looking
      → w.idle_over ≡ false
      → pick i s.states false s.tasks ≡ nothing tickle
      → Step s (go_idle i w s)
  leaves_idle :
      {s : Scheduler} (i : ℕ) (w : Worker)
      → get_elem? s.workers i ≡ some w
      → w.phase ≡ idling
      → Step s (leave_idle i w (stopping s) s)
  ends :
      {s : Scheduler} (i : ℕ) (w : Worker) (t : Task) (ran : Option ℕ) (st : ℕ → State)
      → get_elem? s.workers i ≡ some w
      → w.phase ≡ running t
      → Step s (end_task i w ran st s)
  requeues :
      {s : Scheduler} (i : ℕ) (w : Worker) (f : ℕ)
      → get_elem? s.workers i ≡ some w
      → w.phase ≡ requeueing f
      → Step s (requeue i w f s)
  quits :
      {s : Scheduler} (i : ℕ) (w : Worker) (tickle : Bool)
      → get_elem? s.workers i ≡ some w
      → w.phase ≡ looking
      → w.idle_over ≡ true
      → pick i s.states false s.tasks ≡ nothing tickle
      → Step s (leave_loop i w s)
  starts_threads : {s u : Scheduler} (n : ℕ) → start n s ≡ some u → Step s u
  stops : {s : Scheduler} → Step s (stop s)

pub data Reach : Scheduler → Type 0 where
  starts : (st : ℕ → State) → Reach (new_scheduler st)
  steps : {s u : Scheduler} → Reach s → Step s u → Reach u

start-stopped :
    (n : ℕ) (s : Scheduler)
    → s.workers ≡ []
    → s.stop_flag ≡ true
    → start n s ≡ some (record s { stop_flag = false; workers = looking_workers n })
unfolding start
start-stopped n s q h = rw (h, start) (rw q refl)

start-running :
    (n : ℕ) (s : Scheduler) {w : Worker} {ws : List Worker}
    → s.workers ≡ w ∷ ws
    → s.stop_flag ≡ true
    → start n s ≡ none
unfolding start
start-running n s q h = rw (h, start) (rw q refl)

nothing_counted : (p : Phase → ℕ) → count p [] ≡ 0
unfolding count
nothing_counted p = refl

not_running : is_running looking ≡ 0
unfolding is_running
not_running = refl

not_idling : is_idling looking ≡ 0
unfolding is_idling
not_idling = refl

start-Inv : (n : ℕ) (s u : Scheduler) → Inv s → start n s ≡ some u → Inv u
unfolding start
start-Inv n s u j e = elim (Bool-cases s.stop_flag) [
  | inr h ↦
      subst Inv (some-injective (rw h at e))
        (record { all_work = j.all_work; active = j.active; idle = j.idle })
  | inl h ↦ by_workers s.workers refl h e
]
  where
    by_workers :
        (ws : List Worker) → s.workers ≡ ws → s.stop_flag ≡ true → start n s ≡ some u → Inv u
    by_workers (w ∷ ws) q h e = absurd (none≢some (sym (start-running n s q h) ∙ e))
    by_workers [] q h e = subst Inv (some-injective (sym (start-stopped n s q h) ∙ e)) (record {
      all_work = j.all_work;
      active =
          j.active
          ∙ ap (λ (k : ℕ). k % 2 ^ 64)
              (ap (count is_running) q
                ∙ nothing_counted is_running
                ∙ sym (count-looking is_running n not_running));
      idle =
          j.idle
          ∙ ap (λ (k : ℕ). k % 2 ^ 64)
              (ap (count is_idling) q
                ∙ nothing_counted is_idling
                ∙ sym (count-looking is_idling n not_idling));
    })

pub Step-Inv : {s u : Scheduler} → Inv s → Step s u → Inv u
Step-Inv {s} j (schedules t) = schedule-Inv t s j
Step-Inv {s} j (takes i w t rest tickle g l e) = take_task-Inv i w t rest tickle s j g l e
Step-Inv {s} j (idles i w tickle g l o e) = go_idle-Inv i w s j g l
Step-Inv {s} j (leaves_idle i w g l) = leave_idle-Inv i w (stopping s) s j g l
Step-Inv {s} j (ends i w t ran st g l) = end_task-Inv i w t ran st s j g l
Step-Inv {s} j (requeues i w f g l) = requeue-Inv i w f s j g l
Step-Inv {s} j (quits i w tickle g l o e) = leave_loop-Inv i w s j g l
Step-Inv {s} {u} j (starts_threads n e) = start-Inv n s u j e
Step-Inv {s} j stops =
    unfold stop in record { all_work = j.all_work; active = j.active; idle = j.idle }

-- In every state that the threads reach, the queue holds no empty task, and the counters of active
-- and of idle threads are exact.
pub Reach-counted : (s : Scheduler) → Reach s → Inv s
Reach-counted s (starts st) =
    unfold new_scheduler count in record { all_work = no_tasks; active = refl; idle = refl }
Reach-counted s (steps r q) = Step-Inv (Reach-counted _ r) q

empty_lem : (ts : List Task) → is_empty ts ≡ true → ts ≡ []
empty_lem [] h = refl
empty_lem (t ∷ ts) h = cc

at_most_one : (p : Phase) → is_running p ≤ 1
unfolding is_running
at_most_one looking = omega arith
at_most_one idling = omega arith
at_most_one finished = omega arith
at_most_one (running t) = omega arith
at_most_one (requeueing f) = omega arith

count-bound : (ws : List Worker) → count is_running ws ≤ length ws
unfolding count
count-bound [] = omega arith
count-bound (w ∷ ws) = omega (arith, at_most_one w.phase, count-bound ws)

pub stopping-Inv :
    (s : Scheduler) (i : ℕ) (w : Worker) (t : Task)
    → Inv s
    → length s.workers ≤ 2 ^ 31
    → stopping s ≡ true
    → get_elem? s.workers i ≡ some w
    → (s.auto_stop ≡ true) × (s.tasks ≡ []) × (w.phase ≢ running t)
unfolding stopping is_running
stopping-Inv s i w t j l h g =
    let (k, e) = count-others is_running s.workers i g in
    let none_active : s.active_count ≡ 0 = ground arith in
    let quiet : is_running w.phase ≡ 0 =
      omega (arith, none_active, j.active, e, l, count-bound s.workers) in
    (
      ground arith,
      empty_lem s.tasks (ground arith),
      λ q. (let c = rw q at quiet in absurd (omega (arith, c))),
    )

-- When `stopping` returns true, in a reachable state with at most 2 ^ 31 threads, then `stop` has
-- been called, the queue is empty and no thread is in a task.
pub stopping-quiet :
    (s : Scheduler) (i : ℕ) (w : Worker) (t : Task)
    → Reach s
    → length s.workers ≤ 2 ^ 31
    → stopping s ≡ true
    → get_elem? s.workers i ≡ some w
    → (s.auto_stop ≡ true) × (s.tasks ≡ []) × (w.phase ≢ running t)
stopping-quiet s i w t r l h g = stopping-Inv s i w t (Reach-counted s r) l h g
