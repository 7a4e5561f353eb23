-- ===== src/Fiber/Nested.antt =====
-- fiber.cpp: a fiber that was entered by `call` and enters another one by `swapIn`, as the root fiber
-- of a scheduler does.
use cpp_library.Base.{ℕ, ◌<◌, true, false, ◌≡◌, ◌≢◌, refl, sym, ap, ◌∙◌, some, some-injective}
use cpp_library.Fiber.{
  hold, exec, is_exec, Thread, put, set_state, swap_context, get_this, call, back, swap_in,
  swap_out, yield_to, Ending, ended, caller_main_func,
}
use cpp_library.Fiber.Laws.{
  Inv, put_self, put_ne, switched_from, switched_other, switched_running, entered, enter-Inv,
}
use cpp_library.Fiber.Runs.{swap_in-entered, call-entered}

-- The current fiber `a`, which is executing, yields.
yielded : ℕ → ℕ → Thread → Thread
yielded m a t = swap_context a m (record (set_state a hold t) { current = some m })

yield_to-yielded :
    (m a : ℕ) (t : Thread)
    → get_this t ≡ (a, t)
    → is_exec (t.fibers a).state ≡ true
    → t.main ≡ some m
    → yield_to hold t ≡ some (yielded m a t)
unfolding yield_to swap_out yielded
yield_to-yielded m a t g x e = rw (g, yield_to) (rw x (rw e refl))

-- The fiber `a` ends and goes back.
ended_back : ℕ → ℕ → Ending → Thread → Thread
ended_back m a e t = swap_context a m (record (put a (ended e (t.fibers a)) t) { current = some m })

caller_main_func-back :
    (m a : ℕ) (e : Ending) (t : Thread)
    → t.main ≡ some m
    → caller_main_func e a t ≡ some (ended_back m a e t)
unfolding caller_main_func back ended_back
caller_main_func-back m a e t q = rw (q, back) refl

-- The main fiber `m` calls `r`, which enters `c`; `c` yields, and `r` comes to its end. Every call is
-- defined, but the thread is then again on the stack of `r`, which has ended, and not on that of
-- the main fiber that called it.
pub caller_main_func-stays :
    (m r c : ℕ) (e : Ending) (t : Thread)
    → Inv m t
    → t.running ≡ m
    → r ≢ m
    → c ≢ m
    → r ≢ c
    → r < t.fresh
    → is_exec (t.fibers c).state ≡ false
    → (t1 : Thread) × (t2 : Thread) × (t3 : Thread) × (t4 : Thread) × (call r t ≡ some t1)
      × (swap_in c t1 ≡ some t2)
      × (yield_to hold t2 ≡ some t3)
      × (caller_main_func e r t3 ≡ some t4)
      × (t4.running ≡ r)
unfolding swap_context yielded ended_back
caller_main_func-stays m r c e t i at_m rm cm rc b idle =
    let i1 = enter-Inv m r t i at_m rm b in
    let t1 = entered m r t in
    let on_r : t1.running ≡ r = sym (some-injective i1.on_current) in
    let same_c : t1.fibers c ≡ t.fibers c =
      switched_other m r c (set_state r exec (record t { current = some r })) (λ q. cm (sym q))
      ∙ put_ne r c _ (record t { current = some r }) rc in
    let s2 = set_state c exec (record t1 { current = some c }) in
    let t2 = entered m c t1 in
    let saved : (t2.fibers m).context ≡ r = ap (λ f. f.context) (switched_from m c s2) ∙ on_r in
    let runs_c : is_exec (t2.fibers c).state ≡ true =
      ap (λ f. is_exec f.state)
        (switched_other m c c s2 (λ q. cm (sym q))
          ∙ put_self c _ (record t1 { current = some c })) in
    let t3 = yielded m c t2 in
    let kept : t3.fibers m ≡ t2.fibers m =
      switched_other c m m (record (set_state c hold t2) { current = some m }) cm
      ∙ put_ne c m _ t2 cm in
    (
      t1,
      t2,
      t3,
      ended_back m r e t3,
      call-entered m r t i.is_main,
      swap_in-entered m c t1 (ap (λ f. is_exec f.state) same_c ∙ idle) i1.is_main,
      yield_to-yielded m c t2 (unfold get_this in refl) runs_c i1.is_main,
      caller_main_func-back m r e t3 i1.is_main,
      switched_running r m (record (put r (ended e (t3.fibers r)) t3) { current = some m }) rm
          ∙ ap (λ f. f.context) (put_ne r m _ t3 rm ∙ kept)
          ∙ saved,
    )
