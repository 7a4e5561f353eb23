-- ===== src/ThreadPool.antt =====
-- ThreadPool/ThreadPool.h: the queue and the stop flag behind the mutex, the condition variable, and the
-- workers, of which each runs the loop of its thread. A step is one critical section, one call of
-- notify_one or notify_all, or the run of one task.
pub mod Laws
pub mod Wakeups
mod Examples
use cpp_library.Base.{
  ℕ, ◌+◌, ◌-◌, ltb, Bool, true, false, ◌≡◌, ◌≢◌, ◌==◌, ◌||◌, ◌&&◌, not, Option, none, some, List,
  [], ◌∷◌, ◌++◌, if◌then◌else◌,
}

-- Where a worker's thread is: about to look at the predicate of the wait, asleep in it, running a
-- task, or returned. A number behind the last worker is `absent`.
pub data Worker : Type 0 where
  waiting asleep absent : Worker
  running : ℕ → Worker
  returned : Worker

-- `tasks` is the queue from its front; `notices` is how many calls of `enqueue` have left their
-- critical section and not called notify_one yet, and `closing` is whether the destructor has left
-- its own and not called notify_all yet. `accepted` and `started` only record what `enqueue` has taken
-- and what the workers have begun, in order.
pub record Pool : Type 0 where
  pub tasks : List ℕ
  pub stop : Bool
  pub worker : ℕ → Worker
  pub notices : ℕ
  pub closing : Bool
  pub accepted : List ℕ
  pub started : List ℕ

abbrev pub is_empty : List ℕ → Bool
is_empty [] = true
is_empty (t ∷ ts) = false

-- `ThreadPool::ThreadPool`
unfoldable pub new_pool : ℕ → Pool
new_pool size = record {
  tasks = [];
  stop = false;
  worker = λ w. if ltb w size then waiting else absent;
  notices = 0;
  closing = false;
  accepted = [];
  started = [];
}

abbrev pub set_worker : ℕ → Worker → Pool → Pool
set_worker w s p = record p { worker = λ v. if w == v then s else p.worker v }

-- `task = std::move(tasks_.front()); tasks_.pop();`, for the queue of the second argument
unfoldable pub take_front : ℕ → List ℕ → Pool → Pool
take_front w [] p = p
take_front w (t ∷ ts) p =
    set_worker w (running t) (record p { tasks = ts; started = p.started ++ t ∷ [] })

-- The critical section of worker `w` from its look at the predicate on: `none` where the predicate is
-- false, so that `w` falls asleep.
unfoldable pub wake : ℕ → Pool → Option Pool
wake w p =
    if p.stop || not (is_empty p.tasks)
    then if p.stop && is_empty p.tasks
      then some (set_worker w returned p)
      else some (take_front w p.tasks p)
    else none

unfoldable pub fall_asleep : ℕ → Pool → Pool
fall_asleep w p = set_worker w asleep p

-- The critical section of `enqueue`: `none` is the exception "enqueue on stopped ThreadPool."
unfoldable pub enqueue : ℕ → Pool → Option Pool
enqueue t p =
    if p.stop
    then none
    else some (record p {
      tasks = p.tasks ++ t ∷ [];
      notices = p.notices + 1;
      accepted = p.accepted ++ t ∷ [];
    })

-- The critical section of `~ThreadPool`
unfoldable pub shut_down : Pool → Pool
shut_down p = record p { stop = true; closing = true }

-- A worker that sleeps wakes up, by a notification or without one.
unfoldable pub rouse : ℕ → Pool → Pool
rouse w p = set_worker w waiting p

-- `notify_one` is called: `w` is the worker that it wakes, if one is asleep.
unfoldable pub notify_one : Option ℕ → Pool → Pool
unfolding rouse
notify_one none p = record p { notices = p.notices - 1 }
notify_one (some w) p = rouse w (record p { notices = p.notices - 1 })

abbrev pub roused : Worker → Worker
roused asleep = waiting
roused waiting = waiting
roused absent = absent
roused (running t) = running t
roused returned = returned

-- `notify_all`
unfoldable pub notify_all : Pool → Pool
notify_all p = record p { worker = λ w. roused (p.worker w); closing = false }

-- The task returns, and the loop comes back to the wait.
unfoldable pub finish : ℕ → Pool → Pool
finish w p = set_worker w waiting p

pub data Step : Pool → Pool → Type 0 where
  wakes : {p q : Pool} (w : ℕ) → p.worker w ≡ waiting → wake w p ≡ some q → Step p q
  sleeps : {p : Pool} (w : ℕ) → p.worker w ≡ waiting → wake w p ≡ none → Step p (fall_asleep w p)
  finishes : {p : Pool} (w t : ℕ) → p.worker w ≡ running t → Step p (finish w p)
  enqueues : {p q : Pool} (t : ℕ) → enqueue t p ≡ some q → Step p q
  shuts_down : {p : Pool} → Step p (shut_down p)
  notifies :
      {p : Pool} (w : ℕ) → p.notices ≢ 0 → p.worker w ≡ asleep → Step p (notify_one (some w) p)
  notifies_nobody :
      {p : Pool} → p.notices ≢ 0 → ((w : ℕ) → p.worker w ≢ asleep) → Step p (notify_one none p)
  notifies_all : {p : Pool} → p.closing ≡ true → Step p (notify_all p)
  wakes_up : {p : Pool} (w : ℕ) → p.worker w ≡ asleep → Step p (rouse w p)

pub data Reach : Pool → Type 0 where
  starts : (size : ℕ) → Reach (new_pool size)
  steps : {p q : Pool} → Reach p → Step p q → Reach q
