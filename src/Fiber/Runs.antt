-- ===== src/Fiber/Runs.antt =====
-- fiber.cpp: every sequence of calls in which only the main fiber enters others.
use mathlib.Core.Path.{subst}
use cpp_library.Base.{
  ℕ, ◌<◌, Bool, true, false, not, ◌≡◌, ◌≢◌, inl, inr, refl, sym, ap, ◌∙◌, Option, none, some, ◌==◌,
  Bool-cases, arith, some-injective, none≢some, true≢false, ==_iff, assert, ◌>>=◌, ◌>>◌,
}
use cpp_library.Fiber.{
  State, init, hold, exec, ready, is_exec, is_idle, Fiber, Thread, put, set_state, get_this,
  new_main, new_fiber, reset, swap_in, swap_out, call, back, caller_main_func, yield_to, Ending,
  ended, returns, throws, main_func, new_thread, swap_context,
}
use cpp_library.Fiber.Laws.{Inv, entered, enter-Inv, left, leave-Inv, renew-Inv}

-- The state behind a yield
pub data Waits : State → Type 0 where
  to_ready : Waits ready
  to_hold : Waits hold

-- One call on a thread with the main fiber `m`: a fiber is made or reset, the main fiber enters one
-- with swapIn or call, or the entered fiber yields or comes to its end.
pub data Step (m : ℕ) : Thread → Thread → Type 0 where
  makes : {t : Thread} (cb : Option ℕ) → Step m t (new_fiber cb t).1
  resets : {t u : Thread} (a : ℕ) (cb : Option ℕ) → reset a cb t ≡ some u → Step m t u
  enters : {t u : Thread} (a : ℕ) → t.running ≡ m → a < t.fresh → swap_in a t ≡ some u → Step m t u
  calls :
      {t u : Thread} (a : ℕ) → t.running ≡ m → a ≢ m → a < t.fresh → call a t ≡ some u → Step m t u
  yields : {t u : Thread} (s : State) → Waits s → t.running ≢ m → yield_to s t ≡ some u → Step m t u
  ends : {t u : Thread} (e : Ending) → t.running ≢ m → main_func e t.running t ≡ some u → Step m t u
  ends_caller :
      {t u : Thread} (e : Ending)
      → t.running ≢ m
      → caller_main_func e t.running t ≡ some u
      → Step m t u

pub data Reach : Thread → Type 0 where
  starts : Reach (get_this new_thread).1
  steps : {t u : Thread} → Reach t → Step 0 t u → Reach u

is_exec-exec : {s : State} → is_exec s ≡ false → s ≢ exec
is_exec-exec h e = true≢false (sym (ap is_exec e) ∙ h)

is_idle-exec : {s : State} → is_idle s ≡ true → s ≢ exec
is_idle-exec h e = true≢false (sym (sym (ap is_idle e) ∙ h))

get_this-current : (m : ℕ) (t : Thread) → Inv m t → get_this t ≡ (t.running, t)
unfolding get_this
get_this-current m t i =
    ap
      (λ (o : Option ℕ). elim o as (λ _. ℕ × Thread) [
        | some f ↦ (f, t)
        | none ↦ (t.fresh, record (new_main t) { main = some t.fresh; running = t.fresh })
      ])
      i.on_current

swap_out-left :
    (m : ℕ) (f : Fiber) (t : Thread)
    → Inv m t
    → swap_out t.running (put t.running f t) ≡ some (left m f t)
unfolding swap_out
swap_out-left m f t i = rw (i.is_main, swap_out) refl

yield_to-left :
    (m : ℕ) (s : State) (t : Thread)
    → Inv m t
    → yield_to s t ≡ some (left m (record (t.fibers t.running) { state = s }) t)
unfolding yield_to
yield_to-left m s t i =
    rw (get_this-current m t i, yield_to) (rw i.executing (swap_out-left m _ t i))

main_func-left :
    (m : ℕ) (e : Ending) (t : Thread)
    → Inv m t
    → main_func e t.running t ≡ some (left m (ended e (t.fibers t.running)) t)
unfolding main_func
main_func-left m e t i = swap_out-left m _ t i

Waits-exec : {s : State} → Waits s → s ≢ exec
Waits-exec to_ready e = absurd cc
Waits-exec to_hold e = absurd cc

ended-exec : (e : Ending) (f : Fiber) → (ended e f).state ≢ exec
ended-exec returns f q = absurd cc
ended-exec throws f q = absurd cc

new_fiber-Inv : (m : ℕ) (cb : Option ℕ) (t : Thread) → Inv m t → Inv m (new_fiber cb t).1
unfolding new_fiber
new_fiber-Inv m cb t i =
    let f : Fiber = record { state = init; stack = true; cb = cb; context = t.fresh } in
    let j : Inv m (put t.fresh f t) =
      renew-Inv m t.fresh f t i (λ e. omega (arith, i.made, e))
        (λ e. omega (arith, i.made_current, e)) (λ e. absurd cc) refl in
    record {
      is_main = j.is_main;
      on_current = j.on_current;
      own_stack = j.own_stack;
      executing = j.executing;
      main_executing = j.main_executing;
      others = j.others;
      made = omega (arith, j.made);
      made_current = omega (arith, j.made_current);
    }

reset-Inv : (m a : ℕ) (cb : Option ℕ) (t u : Thread) → Inv m t → reset a cb t ≡ some u → Inv m u
unfolding reset
reset-Inv m a cb t u i e = elim (Bool-cases (t.fibers a).stack) [
  | inr h ↦ absurd (none≢some (rw h at e))
  | inl h ↦ elim (Bool-cases (is_idle (t.fibers a).state)) [
    | inr k ↦ absurd (none≢some (rw (h, k) at e))
    | inl k ↦
        let d = is_idle-exec k in
        subst (Inv m) (some-injective (rw (h, k) at e)) (
          renew-Inv m a _ t i (λ q. d (ap (λ (b : ℕ). (t.fibers b).state) q ∙ i.main_executing))
            (λ q. d (ap (λ (b : ℕ). (t.fibers b).state) q ∙ i.executing)) (λ q. absurd cc) refl)
  ]
]

pub swap_in-entered :
    (m a : ℕ) (t : Thread)
    → is_exec (t.fibers a).state ≡ false
    → t.main ≡ some m
    → swap_in a t ≡ some (entered m a t)
unfolding swap_in
swap_in-entered m a t h e =
    let go : ℕ → Option Thread =
      λ (k : ℕ). some (swap_context k a (set_state a exec (record t { current = some a }))) in
    ap (λ (b : Bool). assert (not b) >> (t.main >>= go)) h ∙ ap (λ (o : Option ℕ). o >>= go) e

swap_in-Inv :
    (m a : ℕ) (t u : Thread)
    → Inv m t
    → t.running ≡ m
    → a < t.fresh
    → swap_in a t ≡ some u
    → Inv m u
unfolding swap_in
swap_in-Inv m a t u i r b e = elim (Bool-cases (is_exec (t.fibers a).state)) [
  | inl h ↦ absurd (none≢some (rw h at e))
  | inr h ↦
      let n : a ≢ m =
        (λ q. is_exec-exec h (ap (λ (k : ℕ). (t.fibers k).state) q ∙ i.main_executing)) in
      subst (Inv m) (some-injective (sym (swap_in-entered m a t h i.is_main) ∙ e))
        (enter-Inv m a t i r n b)
]

caller_main_func-left :
    (m : ℕ) (e : Ending) (t : Thread)
    → Inv m t
    → caller_main_func e t.running t ≡ some (left m (ended e (t.fibers t.running)) t)
unfolding caller_main_func back
caller_main_func-left m e t i = rw (i.is_main, caller_main_func) refl

pub call-entered : (m a : ℕ) (t : Thread) → t.main ≡ some m → call a t ≡ some (entered m a t)
unfolding call
call-entered m a t e =
    ap
      (λ (o : Option ℕ).
        o >>= λ (k : ℕ). some (swap_context k a (set_state a exec (record t { current = some a }))))
      e

Step-Inv : {m : ℕ} {t u : Thread} → Inv m t → Step m t u → Inv m u
Step-Inv {m} {t} i (makes cb) = new_fiber-Inv m cb t i
Step-Inv {m} {t} {u} i (resets a cb e) = reset-Inv m a cb t u i e
Step-Inv {m} {t} {u} i (enters a r b e) = swap_in-Inv m a t u i r b e
Step-Inv {m} {t} i (yields s w n e) =
    subst (Inv m) (some-injective (sym (yield_to-left m s t i) ∙ e))
      (leave-Inv m _ t i n (Waits-exec w))
Step-Inv {m} {t} i (calls a r n b e) =
    subst (Inv m) (some-injective (sym (call-entered m a t i.is_main) ∙ e))
      (enter-Inv m a t i r n b)
Step-Inv {m} {t} i (ends_caller k n e) =
    subst (Inv m) (some-injective (sym (caller_main_func-left m k t i) ∙ e))
      (leave-Inv m _ t i n (ended-exec k _))
Step-Inv {m} {t} i (ends k n e) =
    subst (Inv m) (some-injective (sym (main_func-left m k t i) ∙ e))
      (leave-Inv m _ t i n (ended-exec k _))

init≢exec : init ≢ exec
init≢exec e = absurd cc

first-Inv : Inv 0 (get_this new_thread).1
unfolding get_this new_main new_thread
first-Inv = record {
  is_main = refl;
  on_current = refl;
  own_stack = λ a n. elim (Bool-cases (0 == a)) [
    | inl e ↦ absurd (n (sym ((==_iff 0 a).0 e)))
    | inr e ↦ rw e refl
  ];
  executing = refl;
  main_executing = refl;
  others = λ a n p e. elim (Bool-cases (0 == a)) [
    | inl k ↦ absurd (n (sym ((==_iff 0 a).0 k)))
    | inr k ↦ init≢exec (rw k at e)
  ];
  made = omega arith;
  made_current = omega arith;
}

-- Where only the main fiber enters others, with swapIn or call, and a fiber gives up the thread only
-- by YieldToReady, YieldToHold or the end of its callback: the thread is always on the stack of its
-- current fiber, every other fiber goes on where it stopped, on its own stack, and apart from the main
-- fiber only the current one is in the state EXEC.
pub Reach-own_stacks : (t : Thread) → Reach t → Inv 0 t
Reach-own_stacks t starts = first-Inv
Reach-own_stacks t (steps r s) = Step-Inv (Reach-own_stacks _ r) s

-- A fiber that yields or ends always finds its main fiber: the call is defined, and the thread is on
-- the main fiber's stack afterwards.
pub yield_to-returns :
    (s : State) (t : Thread)
    → Reach t
    → t.running ≢ 0
    → Waits s
    → (u : Thread) × (yield_to s t ≡ some u) × (u.running ≡ 0) × (u.current ≡ some 0)
unfolding swap_context
yield_to-returns s t r n w =
    let i = Reach-own_stacks t r in
    let f : Fiber = record (t.fibers t.running) { state = s } in
    let j = leave-Inv 0 f t i n (Waits-exec w) in
    let here : (left 0 f t).running ≡ 0 = some-injective (sym j.on_current ∙ refl) in
    (left 0 f t, yield_to-left 0 s t i, here, refl)
