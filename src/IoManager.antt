-- ===== src/IoManager.antt =====
-- C++高性能服务器/atpdxy/iomanager/iomanager.h and iomanager.cpp: the events that are registered
-- for each file descriptor, and what is scheduled when they come. A descriptor is not negative, each
-- method is one step, and what epoll_ctl returns is an argument. `none` is a failed assertion or a
-- dereference of a null pointer.
mod Masks
mod Totals
pub mod Reports
pub mod Runs
pub mod Deliveries
pub mod Laws
mod Examples
use cpp_library.Base.{
  ℕ, zero, suc, ◌+◌, ◌-◌, ◌*◌, ◌/◌, ◌%◌, ◌^◌, Bool, true, false, ◌&&◌, ◌||◌, not, Option, none,
  some, List, [], ◌∷◌, ◌++◌, ltb, leb, ◌==◌, if◌then◌else◌, bit_and, bit_or, length, get_elem?, set,
  take, ◌>>=◌, ◌>>◌, assert,
}
use cpp_library.Fiber.{State, is_exec}

pub data Event : Type 0 where
  none_event read write : Event

-- The enumeration's values
abbrev pub bits : Event → ℕ
bits none_event = 0
bits read = 1
bits write = 4

-- What a scheduler is given: a fiber or a callback
pub data Job : Type 0 where
  fiber cb : ℕ → Job

-- `FdContext::EventContext`; a null pointer and an empty function are `none`.
pub record EventContext : Type 0 where
  pub scheduler : Option ℕ
  pub waiting_fiber : Option ℕ
  pub callback : Option ℕ

abbrev pub empty_context : EventContext
empty_context = record { scheduler = none; waiting_fiber = none; callback = none }

pub record FdContext : Type 0 where
  pub fd : ℕ
  pub on_read : EventContext
  pub on_write : EventContext
  pub events : ℕ

-- `scheduled` only records the calls of `Scheduler::schedule`, each with its scheduler, and
-- `interest` the mask, without EPOLLET, of the last successful call of epoll_ctl for each descriptor
-- that is in the kernel's set.
pub record IoManager : Type 0 where
  pub fd_contexts : List FdContext
  pub pending_event_count : ℕ
  pub scheduled : List (ℕ × Job)
  pub interest : ℕ → Option ℕ

abbrev pub is_some {ℓ} : {A : Type ℓ} → Option A → Bool
is_some none = false
is_some (some a) = true

-- `events & event`, as a condition
abbrev pub has : ℕ → ℕ → Bool
has events mask = not (bit_and events mask == 0)

-- `events & ~event`
abbrev pub without : ℕ → ℕ → ℕ
without events mask = events - bit_and events mask

abbrev pub increment : ℕ → ℕ
increment n = (n + 1) % 2 ^ 64

abbrev pub decrement : ℕ → ℕ
decrement n = (n + (2 ^ 64 - 1)) % 2 ^ 64

unfoldable pub get_context : FdContext → Event → Option EventContext
get_context c none_event = none
get_context c read = some c.on_read
get_context c write = some c.on_write

abbrev pub put_context : FdContext → Event → EventContext → FdContext
put_context c none_event x = c
put_context c read x = record c { on_read = x }
put_context c write x = record c { on_write = x }

unfoldable pub reset_context : EventContext → EventContext
reset_context x = record x { scheduler = none; waiting_fiber = none; callback = none }

-- The job that `schedule` takes out of a context, and what stays there. The pointer to an empty
-- fiber gives a null job, which `scheduleNoBlock` does not queue.
unfoldable pub take_job : EventContext → List Job × EventContext
take_job x = elim x.callback [
  | some c ↦ (cb c ∷ [], record x { scheduler = none; callback = none })
  | none ↦ elim x.waiting_fiber [
    | some f ↦ (fiber f ∷ [], record x { scheduler = none; waiting_fiber = none })
    | none ↦ ([], record x { scheduler = none })
  ]
]

abbrev pub calls : ℕ → List Job → List (ℕ × Job)
calls s [] = []
calls s (j ∷ js) = (s, j) ∷ calls s js

-- `FdContext::triggerEvent`, with the calls of `schedule` that it makes
unfoldable pub trigger_event : FdContext → Event → Option (List (ℕ × Job) × FdContext)
trigger_event c e = do
  assert (has c.events (bits e))
  x ← get_context c e
  s ← x.scheduler
  let (jobs, y) = take_job x
  some (calls s jobs, put_context (record c { events = without c.events (bits e) }) e y)

abbrev pub new_context : ℕ → FdContext
new_context fd = record { fd = fd; on_read = empty_context; on_write = empty_context; events = 0 }

abbrev pub fill : ℕ → ℕ → List FdContext
fill i zero = []
fill i (suc n) = new_context i ∷ fill (i + 1) n

-- `IOManager::contextResize`; every place below the old size has its context
unfoldable pub context_resize : ℕ → List FdContext → List FdContext
context_resize size cs = take size cs ++ fill (length cs) (size - length cs)

unfoldable pub new_manager : IoManager
unfolding context_resize
new_manager = record {
  fd_contexts = context_resize 32 [];
  pending_event_count = 0;
  scheduled = [];
  interest = λ fd. none;
}

-- EPOLL_CTL_ADD, EPOLL_CTL_MOD and EPOLL_CTL_DEL
pub data Op : Type 0 where
  ctl_add ctl_mod ctl_del : Op

-- A successful epoll_ctl with the mask `events`
abbrev pub tell : Op → ℕ → ℕ → (ℕ → Option ℕ) → ℕ → Option ℕ
tell ctl_add fd events known other = if fd == other then some events else known other
tell ctl_mod fd events known other = if fd == other then some events else known other
tell ctl_del fd events known other = if fd == other then none else known other

abbrev pub control : Op → ℕ → ℕ → IoManager → IoManager
control op fd events m = record m { interest = tell op fd events m.interest }

-- `new_events ? EPOLL_CTL_MOD : EPOLL_CTL_DEL`
abbrev pub left_op : ℕ → Op
left_op new_events = if new_events == 0 then ctl_del else ctl_mod

-- `fd_ctx->events ? EPOLL_CTL_MOD : EPOLL_CTL_ADD`
abbrev pub add_op : ℕ → Op
add_op events = if events == 0 then ctl_add else ctl_mod

abbrev pub store : ℕ → FdContext → IoManager → IoManager
store fd c m = record m { fd_contexts = set m.fd_contexts fd c }

-- The look-up of `addEvent`, which makes room for a descriptor behind the end
unfoldable pub with_room : ℕ → List FdContext → List FdContext
with_room fd cs = if ltb fd (length cs) then cs else context_resize (fd * 3 / 2) cs

-- Where `addEvent` is called: what `Scheduler::GetThis` and `Fiber::GetThis` return there, and the
-- state of that fiber
pub record Caller : Type 0 where
  pub scheduler : Option ℕ
  pub running : ℕ
  pub state : State

-- The job is the callback, or without one the running fiber; `none` is the assertion that it is in
-- the state EXEC.
unfoldable pub job_of : Option ℕ → Caller → Option Job
job_of (some c) t = some (cb c)
job_of none t = if is_exec t.state then some (fiber t.running) else none

-- What `addEvent` writes into the context of the event
unfoldable pub armed : Option ℕ → Job → EventContext
armed s (cb c) = record { scheduler = s; waiting_fiber = none; callback = some c }
armed s (fiber f) = record { scheduler = s; waiting_fiber = some f; callback = none }

abbrev pub is_empty_context : EventContext → Bool
is_empty_context x =
    not (is_some x.scheduler) && not (is_some x.waiting_fiber) && not (is_some x.callback)

-- `IOManager::addEvent`. The result is `true` for 0 and `false` for -1.
unfoldable pub add_event :
    ℕ → Event → Option ℕ → Caller → Bool → IoManager → Option (Bool × IoManager)
unfolding with_room
add_event fd e callback t ctl_fails m = do
  let cs = with_room fd m.fd_contexts
  let m' = record m { fd_contexts = cs }
  c ← get_elem? cs fd
  assert (not (has c.events (bits e)))
  if ctl_fails then some (false, m') else (do
    let events = bit_or c.events (bits e)
    let told = control (add_op c.events) fd events m'
    x ← get_context c e
    assert (is_empty_context x)
    job ← job_of callback t
    let c' = put_context (record c { events = events }) e (armed t.scheduler job)
    let m'' = store fd c' told
    some (true, record m'' { pending_event_count = increment m.pending_event_count }))

-- `IOManager::delEvent`
unfoldable pub del_event : ℕ → Event → Bool → IoManager → Option (Bool × IoManager)
del_event fd e ctl_fails m = if leb (length m.fd_contexts) fd then some (false, m) else (do
  c ← get_elem? m.fd_contexts fd
  if not (has c.events (bits e)) || ctl_fails then some (false, m) else (do
    x ← get_context c e
    let new_events = without c.events (bits e)
    let told = control (left_op new_events) fd new_events m
    let m' = store fd (put_context (record c { events = new_events }) e (reset_context x)) told
    some (true, record m' { pending_event_count = decrement m.pending_event_count })))

-- Trigger an event of the context `c`, and count it down
unfoldable pub fire : FdContext → Event → IoManager → Option (FdContext × IoManager)
fire c e m = do
  r ← trigger_event c e
  some (
    r.1,
    record m {
      scheduled = m.scheduled ++ r.0;
      pending_event_count = decrement m.pending_event_count;
    },
  )

-- `if(mask & event) { triggerEvent(event); --m_pendingEventCount; }`
unfoldable pub fire_if : ℕ → FdContext → Event → IoManager → Option (FdContext × IoManager)
fire_if mask c e m = if has mask (bits e) then fire c e m else some (c, m)

-- `IOManager::cancelEvent`
unfoldable pub cancel_event : ℕ → Event → Bool → IoManager → Option (Bool × IoManager)
cancel_event fd e ctl_fails m = if leb (length m.fd_contexts) fd then some (false, m) else (do
  c ← get_elem? m.fd_contexts fd
  if not (has c.events (bits e)) || ctl_fails then some (false, m) else (do
    let new_events = without c.events (bits e)
    r ← fire c e (control (left_op new_events) fd new_events m)
    some (true, store fd r.0 r.1)))

-- `IOManager::cancelAll`
unfoldable pub cancel_all : ℕ → Bool → IoManager → Option (Bool × IoManager)
cancel_all fd ctl_fails m = if leb (length m.fd_contexts) fd then some (false, m) else (do
  c ← get_elem? m.fd_contexts fd
  if c.events == 0 || ctl_fails then some (false, m) else (do
    r ← fire_if c.events c read (control ctl_del fd 0 m)
    q ← fire_if r.0.events r.0 write r.1
    assert (q.0.events == 0)
    some (true, store fd q.0 q.1)))

-- EPOLLIN, EPOLLOUT, EPOLLERR and EPOLLHUP
abbrev pub epoll_in : ℕ
epoll_in = 1

abbrev pub epoll_out : ℕ
epoll_out = 4

abbrev pub epoll_err : ℕ
epoll_err = 8

abbrev pub epoll_hup : ℕ
epoll_hup = 16

-- `real_events` in `idle`: an error or a hang-up counts as both events.
unfoldable pub real_events : ℕ → ℕ
real_events reported =
    let widened =
      if has reported (bit_or epoll_err epoll_hup)
      then bit_or reported (bit_or epoll_in epoll_out)
      else reported in
    bit_or (if has widened epoll_in then bits read else 0)
      (if has widened epoll_out then bits write else 0)

-- The round of the loop in `idle` for one event of epoll_wait that carries a context
unfoldable pub on_event : ℕ → ℕ → Bool → IoManager → Option IoManager
on_event fd reported ctl_fails m = do
  c ← get_elem? m.fd_contexts fd
  if not (has c.events (real_events reported)) || ctl_fails then some m else (do
    let left_events = without c.events (real_events reported)
    r ← fire_if (real_events reported) c read (control (left_op left_events) fd left_events m)
    q ← fire_if (real_events reported) r.0 write r.1
    some (store fd q.0 q.1))

-- `for(int i=0;i<ret;++i)`, over the events that came with a context, each with epoll_ctl's result
unfoldable pub on_events : List (ℕ × ℕ × Bool) → IoManager → Option IoManager
on_events [] m = some m
on_events ((fd, reported, ctl_fails) ∷ es) m = do
  m' ← on_event fd reported ctl_fails m
  on_events es m'

-- `IOManager::stopping`, on what `Scheduler::stopping` returns
unfoldable pub stopping : Bool → IoManager → Bool
stopping scheduler_stopping m = scheduler_stopping && m.pending_event_count == 0
