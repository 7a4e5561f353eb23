-- ===== src/Fiber.antt =====
-- C++高性能服务器/atpdxy/fiber/fiber.h and fiber.cpp: the fibers of one thread. What `getcontext`,
-- `makecontext` and `swapcontext` save is the stack that a context goes on with, named by the address
-- of its fiber; the calls succeed. `none` is a failed assertion or the dereference of a null pointer.
pub mod Laws
pub mod Runs
pub mod Nested
mod Examples
use cpp_library.Base.{
  ℕ, ◌+◌, ◌-◌, ◌%◌, ◌^◌, Bool, true, false, ◌&&◌, ◌||◌, not, Option, none, some, ◌==◌,
  if◌then◌else◌, ◌>>=◌, ◌>>◌, assert,
}

pub data State : Type 0 where
  init hold exec term ready except : State

abbrev pub is_exec : State → Bool
is_exec exec = true
is_exec _ = false

-- `m_state==TERM || m_state==INIT || m_state==EXCEPT`
abbrev pub is_idle : State → Bool
is_idle term = true
is_idle init = true
is_idle except = true
is_idle _ = false

-- `stack` is whether `m_stack` is not null, `cb` the callback if there is one, and `context` the
-- fiber on whose stack `m_ctx` goes on.
pub record Fiber : Type 0 where
  pub state : State
  pub stack : Bool
  pub cb : Option ℕ
  pub context : ℕ

-- `current` is `t_fiber` and `main` is `t_threadFiber`; `running` is the fiber whose stack the thread
-- executes, and `fresh` the next address that `new` returns.
pub record Thread : Type 0 where
  pub fibers : ℕ → Fiber
  pub current : Option ℕ
  pub main : Option ℕ
  pub running : ℕ
  pub fresh : ℕ
  pub count : ℕ

abbrev pub put : ℕ → Fiber → Thread → Thread
put a f t = record t { fibers = λ b. if a == b then f else t.fibers b }

abbrev pub set_state : ℕ → State → Thread → Thread
set_state a s t = put a (record (t.fibers a) { state = s }) t

-- `swapcontext(&from->m_ctx, &to->m_ctx)`: where the thread is, is saved in `from`, and it goes on
-- where `to` was saved.
unfoldable pub swap_context : ℕ → ℕ → Thread → Thread
swap_context from to t =
    let t' = put from (record (t.fibers from) { context = t.running }) t in
    record t' { running = (t'.fibers to).context }

-- `Fiber::Fiber()`
unfoldable pub new_main : Thread → Thread
new_main t =
    let f : Fiber = record { state = exec; stack = false; cb = none; context = t.fresh } in
    record (put t.fresh f t) {
      current = some t.fresh;
      fresh = t.fresh + 1;
      count = (t.count + 1) % 2 ^ 64;
    }

-- `Fiber::GetThis`: the first call makes the main fiber, which is the stack that the thread is on.
unfoldable pub get_this : Thread → ℕ × Thread
get_this t = elim t.current [
  | some f ↦ (f, t)
  | none ↦ (t.fresh, record (new_main t) { main = some t.fresh; running = t.fresh })
]

-- `Fiber::Fiber(cb, stacksize, use_caller)`
unfoldable pub new_fiber : Option ℕ → Thread → ℕ × Thread
new_fiber cb t =
    let f : Fiber = record { state = init; stack = true; cb = cb; context = t.fresh } in
    (t.fresh, record (put t.fresh f t) { fresh = t.fresh + 1; count = (t.count + 1) % 2 ^ 64 })

-- `Fiber::reset`
unfoldable pub reset : ℕ → Option ℕ → Thread → Option Thread
reset a cb t = do
  assert (t.fibers a).stack
  assert (is_idle (t.fibers a).state)
  some (put a (record (t.fibers a) { cb = cb; context = a; state = init }) t)

-- `Fiber::call`
unfoldable pub call : ℕ → Thread → Option Thread
call a t = do m ← t.main; some (swap_context m a (set_state a exec (record t { current = some a })))

-- `Fiber::back`
unfoldable pub back : ℕ → Thread → Option Thread
back a t = do m ← t.main; some (swap_context a m (record t { current = some m }))

-- `Fiber::swapIn`
unfoldable pub swap_in : ℕ → Thread → Option Thread
swap_in a t = do
  assert (not (is_exec (t.fibers a).state))
  m ← t.main
  some (swap_context m a (set_state a exec (record t { current = some a })))

-- `Fiber::swapOut`
unfoldable pub swap_out : ℕ → Thread → Option Thread
swap_out a t = do m ← t.main; some (swap_context a m (record t { current = some m }))

-- `YieldToReady` and `YieldToHold`
unfoldable pub yield_to : State → Thread → Option Thread
yield_to s t =
    let (a, t') = get_this t in
    (do assert (is_exec (t'.fibers a).state); swap_out a (set_state a s t'))

-- How a callback ends: it returns, or it throws
pub data Ending : Type 0 where
  returns throws : Ending

abbrev pub ended : Ending → Fiber → Fiber
ended returns f = record f { cb = none; state = term }
ended throws f = record f { state = except }

-- `MainFunc` behind the callback, where `a` is what `GetThis` returned at its beginning
unfoldable pub main_func : Ending → ℕ → Thread → Option Thread
main_func e a t = swap_out a (put a (ended e (t.fibers a)) t)

-- `CallerMainFunc` behind the callback
unfoldable pub caller_main_func : Ending → ℕ → Thread → Option Thread
caller_main_func e a t = back a (put a (ended e (t.fibers a)) t)

abbrev pub is_none : Option ℕ → Bool
is_none none = true
is_none (some a) = false

abbrev pub is_this : ℕ → Option ℕ → Bool
is_this a none = false
is_this a (some b) = a == b

-- `Fiber::~Fiber`
unfoldable pub destroy : ℕ → Thread → Option Thread
destroy a t =
    let t' = record t { count = (t.count + (2 ^ 64 - 1)) % 2 ^ 64 } in
    if (t.fibers a).stack then (do assert (is_idle (t.fibers a).state); some t') else (do
      assert (is_none (t.fibers a).cb)
      assert (is_exec (t.fibers a).state)
      some (if is_this a t.current then record t' { current = none } else t'))

-- A thread before its first call of `GetThis`; a context that was never saved is not gone on with.
unfoldable pub new_thread : Thread
new_thread = record {
  fibers = λ a. record { state = init; stack = false; cb = none; context = a };
  current = none;
  main = none;
  running = 0;
  fresh = 0;
  count = 0;
}
