-- ===== src/ThreadPool/Wakeups.antt =====
-- ThreadPool/ThreadPool.h: no worker sleeps on while there is something to do.
use mathlib.Core.Path.{subst}
use cpp_library.Base.{
  ℕ, true, false, ◌≡◌, ◌≢◌, refl, sym, ap, ◌∙◌, none, some, List, [], ◌∷◌, ◌==◌, ==_refl,
  Bool-cases, inl, inr, ◌⊎◌, arith, some-injective, none≢some, true≢false,
}
use cpp_library.ThreadPool.{
  Worker, waiting, asleep, absent, running, returned, Pool, new_pool, set_worker, take_front, wake,
  fall_asleep, enqueue, shut_down, finish, rouse, roused, notify_one, notify_all, Step, wakes,
  sleeps, finishes, enqueues, shuts_down, notifies, notifies_nobody, notifies_all, wakes_up, Reach,
  starts, steps,
}
use cpp_library.ThreadPool.Laws.{wake-stopped, wake-idle, wake-takes}

-- A worker that will look at the predicate: now, or when its task has ended
pub data Awake : Worker → Type 0 where
  looks : Awake waiting
  works : {t : ℕ} → Awake (running t)

-- While a worker sleeps: with a task in the queue a notification is to come or another worker is awake,
-- and in a stopped pool the notification of all is to come.
record Inv (p : Pool) : Type 0 where
  served :
      (w : ℕ)
      → p.worker w ≡ asleep
      → p.tasks ≢ []
      → (p.notices ≢ 0) ⊎ ((v : ℕ) × Awake (p.worker v))
  called : (w : ℕ) → p.worker w ≡ asleep → p.stop ≡ true → p.closing ≡ true

context_of : (w : ℕ) (s : Worker) (p : Pool) → Awake s → Awake ((set_worker w s p).worker w)
context_of w s p a = rw (==_refl w) a

-- A worker that sleeps, when another has just gone on, slept before.
other_asleep :
    (w v : ℕ) (s : Worker) (p : Pool)
    → s ≢ asleep
    → (set_worker w s p).worker v ≡ asleep
    → p.worker v ≡ asleep
other_asleep w v s p d e = elim (Bool-cases (w == v)) [
  | inl f ↦ absurd (d (rw f at e))
  | inr f ↦ rw f at e
]

waiting≢asleep : waiting ≢ asleep
waiting≢asleep e = absurd cc

running≢asleep : {t : ℕ} → running t ≢ asleep
running≢asleep e = absurd cc

returned≢asleep : returned ≢ asleep
returned≢asleep e = absurd cc

absent≢asleep : absent ≢ asleep
absent≢asleep e = absurd cc

-- A worker is awake now.
goes_on :
    (w : ℕ) (s : Worker) (p q : Pool)
    → Awake s
    → s ≢ asleep
    → Inv p
    → q.worker ≡ (set_worker w s p).worker
    → q.stop ≡ p.stop
    → q.closing ≡ p.closing
    → Inv q
goes_on w s p q a d i same f g = record {
  served =
      λ v e n. inr (w, subst (λ (x : ℕ → Worker). Awake (x w)) (sym same) (context_of w s p a));
  called = λ v e h.
      g
      ∙ i.called v (other_asleep w v s p d (ap (λ (x : ℕ → Worker). x v) (sym same) ∙ e))
          (sym f ∙ h);
}

-- The predicate was false.
idle_lem : (w : ℕ) (p : Pool) → wake w p ≡ none → (p.tasks ≡ []) × (p.stop ≡ false)
idle_lem w p e = by_tasks p.tasks refl
  where
    by_tasks : (ts : List ℕ) → p.tasks ≡ ts → (p.tasks ≡ []) × (p.stop ≡ false)
    by_tasks (t ∷ ts) f = absurd (none≢some (sym e ∙ wake-takes w t ts p f))
    by_tasks [] f = elim (Bool-cases p.stop) [
      | inl s ↦ absurd (none≢some (sym e ∙ wake-stopped w p s f))
      | inr s ↦ (f, s)
    ]

wake-Inv : (w : ℕ) (p q : Pool) → Inv p → wake w p ≡ some q → Inv q
unfolding take_front
wake-Inv w p q i e = by_tasks p.tasks refl
  where
    by_tasks : (ts : List ℕ) → p.tasks ≡ ts → Inv q
    by_tasks (t ∷ ts) f = subst Inv (some-injective (sym (wake-takes w t ts p f) ∙ e)) (
        goes_on w (running t) p (take_front w (t ∷ ts) p) works (λ x. running≢asleep x) i refl refl
          refl)
    by_tasks [] f = elim (Bool-cases p.stop) [
      | inr s ↦ absurd (none≢some (sym (wake-idle w p s f) ∙ e))
      | inl s ↦ subst Inv (some-injective (sym (wake-stopped w p s f) ∙ e)) (record {
        served = λ v x n. absurd (n f);
        called = λ v x h. i.called v (other_asleep w v returned p (λ y. returned≢asleep y) x) h;
      })
    ]

enqueue-Inv : (t : ℕ) (p q : Pool) → Inv p → enqueue t p ≡ some q → Inv q
unfolding enqueue
enqueue-Inv t p q i e = elim (Bool-cases p.stop) [
  | inl s ↦ absurd (none≢some (rw s at e))
  | inr s ↦ subst Inv (some-injective (rw s at e)) (record {
    served = λ v x n. inl (λ z. absurd (omega (arith, z)));
    called = λ v x h. absurd (true≢false (sym h));
  })
]

roused-asleep : (s : Worker) → roused s ≢ asleep
roused-asleep waiting e = waiting≢asleep e
roused-asleep asleep e = waiting≢asleep e
roused-asleep absent e = absent≢asleep e
roused-asleep (running t) e = running≢asleep e
roused-asleep returned e = returned≢asleep e

Step-Inv : {p q : Pool} → Inv p → Step p q → Inv q
unfolding fall_asleep finish shut_down rouse notify_one notify_all
Step-Inv {p} {q} i (wakes w h e) = wake-Inv w p q i e
Step-Inv {p} i (sleeps w h e) =
    let (empty, on) = idle_lem w p e in
    record {
      served = λ v x n. absurd (n empty);
      called = λ v x s. absurd (true≢false (sym s ∙ on));
    }
Step-Inv {p} i (finishes w t h) =
    goes_on w waiting p _ looks (λ x. waiting≢asleep x) i refl refl refl
Step-Inv {p} {q} i (enqueues t e) = enqueue-Inv t p q i e
Step-Inv i shuts_down = record { served = i.served; called = λ v x s. refl }
Step-Inv {p} i (notifies w n h) =
    goes_on w waiting p _ looks (λ x. waiting≢asleep x) i refl refl refl
Step-Inv i (notifies_nobody n h) = record { served = λ v x m. absurd (h v x); called = i.called }
Step-Inv {p} i (notifies_all h) = record {
  served = λ v x n. absurd (roused-asleep (p.worker v) x);
  called = λ v x s. absurd (roused-asleep (p.worker v) x);
}
Step-Inv {p} i (wakes_up w h) = goes_on w waiting p _ looks (λ x. waiting≢asleep x) i refl refl refl

new_pool-Inv : (size : ℕ) → Inv (new_pool size)
unfolding new_pool
new_pool-Inv size = record {
  served = λ w e n. absurd (n refl);
  called = λ w e s. absurd (true≢false (sym s));
}

Reach-Inv : {p : Pool} → Reach p → Inv p
Reach-Inv (starts size) = new_pool-Inv size
Reach-Inv (steps r s) = Step-Inv (Reach-Inv r) s

-- No wake-up is lost: in every reachable state in which no call of notify_one or notify_all is
-- outstanding, a worker that sleeps in the wait is in a pool that is not stopped, and if a task is in
-- the queue then another worker is at the predicate or runs a task, behind which it looks at the
-- predicate.
pub Reach-woken :
    (p : Pool) (w : ℕ)
    → Reach p
    → p.notices ≡ 0
    → p.closing ≡ false
    → p.worker w ≡ asleep
    → (p.stop ≡ false) × (p.tasks ≢ [] → (v : ℕ) × Awake (p.worker v))
Reach-woken p w r n c e =
    let i = Reach-Inv r in (on i, λ t. elim (i.served w e t) [ inl m ↦ absurd (m n) | inr v ↦ v ])
  where
    on : Inv p → p.stop ≡ false
    on i = elim (Bool-cases p.stop) [
      | inr s ↦ s
      | inl s ↦ absurd (true≢false (sym (i.called w e s) ∙ c))
    ]
