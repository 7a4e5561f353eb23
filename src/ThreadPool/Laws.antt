-- ===== src/ThreadPool/Laws.antt =====
-- ThreadPool/ThreadPool.h: what holds in every state that the threads can reach.
use mathlib.Core.Path.{subst}
use cpp_library.Base.{
  ℕ, true, false, ltb, ◌≡◌, ◌≢◌, refl, sym, ap, ◌∙◌, none, some, List, [], ◌∷◌, ◌++◌, append_assoc,
  append-nil, ◌==◌, Bool-cases, inl, inr,
}
use cpp_library.ThreadPool.{
  Worker, waiting, asleep, absent, running, returned, Pool, new_pool, set_worker, take_front, wake,
  fall_asleep, enqueue, shut_down, finish, rouse, roused, notify_one, notify_all, Step, wakes,
  sleeps, finishes, enqueues, shuts_down, notifies, notifies_nobody, notifies_all, wakes_up, Reach,
  starts, steps,
}

-- The tasks begun and those in the queue are the tasks accepted, in order, and a worker returns
-- only from a stopped pool with an empty queue.
pub record Inv (p : Pool) : Type 0 where
  pub fifo : p.started ++ p.tasks ≡ p.accepted
  pub ended : (w : ℕ) → p.worker w ≡ returned → (p.stop ≡ true) × (p.tasks ≡ [])

nil≢cons : {t : ℕ} {ts : List ℕ} → [] ≢ t ∷ ts
nil≢cons e = absurd cc

none≢some : {p : Pool} → none ≢ some p
none≢some e = absurd cc

true≢false : true ≢ false
true≢false e = absurd cc

some-injective : {a b : Pool} → some a ≡ some b → a ≡ b
some-injective e = cc

running≢returned : (t : ℕ) → running t ≢ returned
running≢returned t e = absurd cc

waiting≢returned : waiting ≢ returned
waiting≢returned e = absurd cc

asleep≢returned : asleep ≢ returned
asleep≢returned e = absurd cc

absent≢returned : absent ≢ returned
absent≢returned e = absurd cc

roused-returned : (s : Worker) → roused s ≡ returned → s ≡ returned
roused-returned returned e = refl
roused-returned waiting e = absurd (waiting≢returned e)
roused-returned asleep e = absurd (waiting≢returned e)
roused-returned absent e = absurd (absent≢returned e)
roused-returned (running t) e = absurd (running≢returned t e)

-- A worker that has not just returned had returned before.
other_worker :
    (w v : ℕ) (s : Worker) (p : Pool)
    → s ≢ returned
    → (set_worker w s p).worker v ≡ returned
    → p.worker v ≡ returned
other_worker w v s p d e = elim (Bool-cases (w == v)) [
  | inl f ↦ absurd (d (rw f at e))
  | inr f ↦ rw f at e
]

take_front-Inv :
    (w t : ℕ) (ts : List ℕ) (p : Pool) → p.tasks ≡ t ∷ ts → Inv p → Inv (take_front w (t ∷ ts) p)
unfolding take_front
take_front-Inv w t ts p e inv = record {
  fifo = append_assoc p.started (t ∷ []) ts ∙ ap (◌++◌ p.started) (sym e) ∙ inv.fifo;
  ended = λ v h.
      absurd (
        nil≢cons (sym (inv.ended v (other_worker w v (running t) p (running≢returned t) h)).1 ∙ e));
}

-- The critical section of a worker, by the stop flag and the queue
pub wake-stopped :
    (w : ℕ) (p : Pool) → p.stop ≡ true → p.tasks ≡ [] → wake w p ≡ some (set_worker w returned p)
unfolding wake
wake-stopped w p s e = simp (s, e, wake) refl

pub wake-idle : (w : ℕ) (p : Pool) → p.stop ≡ false → p.tasks ≡ [] → wake w p ≡ none
unfolding wake
wake-idle w p s e = simp (s, e, wake) refl

pub wake-takes :
    (w t : ℕ) (ts : List ℕ) (p : Pool)
    → p.tasks ≡ t ∷ ts
    → wake w p ≡ some (take_front w (t ∷ ts) p)
unfolding wake
wake-takes w t ts p e = elim (Bool-cases p.stop) [
  | inl s ↦ simp (s, e, wake) refl
  | inr s ↦ simp (s, e, wake) refl
]

wake-Inv : (w : ℕ) (p q : Pool) → Inv p → wake w p ≡ some q → Inv q
wake-Inv w p q inv e = by_tasks p.tasks refl
  where
    by_tasks : (ts : List ℕ) → p.tasks ≡ ts → Inv q
    by_tasks (t ∷ ts) f =
        subst Inv (some-injective (sym (wake-takes w t ts p f) ∙ e)) (take_front-Inv w t ts p f inv)
    by_tasks [] f = elim (Bool-cases p.stop) [
      | inr s ↦ absurd (none≢some (sym (wake-idle w p s f) ∙ e))
      | inl s ↦
          subst Inv (some-injective (sym (wake-stopped w p s f) ∙ e))
            (record { fifo = inv.fifo; ended = λ v h. (s, f) })
    ]

enqueue-Inv : (t : ℕ) (p q : Pool) → Inv p → enqueue t p ≡ some q → Inv q
unfolding enqueue
enqueue-Inv t p q inv e = elim (Bool-cases p.stop) [
  | inl s ↦ absurd (none≢some (rw s at e))
  | inr s ↦ subst Inv (some-injective (rw s at e)) (record {
    fifo = sym (append_assoc p.started p.tasks (t ∷ [])) ∙ ap (λ l. l ++ t ∷ []) inv.fifo;
    ended = λ v h. absurd (true≢false (sym (inv.ended v h).0 ∙ s));
  })
]

Step-Inv : {p q : Pool} → Inv p → Step p q → Inv q
unfolding finish shut_down fall_asleep rouse notify_one notify_all
Step-Inv {p} {q} inv (wakes w h e) = wake-Inv w p q inv e
Step-Inv {p} inv (finishes w t h) = record {
  fifo = inv.fifo;
  ended = λ v e. inv.ended v (other_worker w v waiting p waiting≢returned e);
}
Step-Inv {p} inv (sleeps w h e) = record {
  fifo = inv.fifo;
  ended = λ v f. inv.ended v (other_worker w v asleep p asleep≢returned f);
}
Step-Inv {p} inv (wakes_up w h) = record {
  fifo = inv.fifo;
  ended = λ v f. inv.ended v (other_worker w v waiting p waiting≢returned f);
}
Step-Inv {p} inv (notifies w n h) = record {
  fifo = inv.fifo;
  ended = λ v f. inv.ended v (other_worker w v waiting p waiting≢returned f);
}
Step-Inv inv (notifies_nobody n h) = record { fifo = inv.fifo; ended = inv.ended }
Step-Inv {p} inv (notifies_all h) = record {
  fifo = inv.fifo;
  ended = λ v f. inv.ended v (roused-returned (p.worker v) f);
}
Step-Inv {p} {q} inv (enqueues t e) = enqueue-Inv t p q inv e
Step-Inv inv shuts_down = record { fifo = inv.fifo; ended = λ v e. (refl, (inv.ended v e).1) }

new_pool-Inv : (size : ℕ) → Inv (new_pool size)
unfolding new_pool
new_pool-Inv size = record {
  fifo = refl;
  ended = λ w e. elim (Bool-cases (ltb w size)) [
    | inl h ↦ absurd (waiting≢returned (rw h at e))
    | inr h ↦ absurd (absent≢returned (rw h at e))
  ];
}

Reach-Inv : {p : Pool} → Reach p → Inv p
Reach-Inv (starts size) = new_pool-Inv size
Reach-Inv (steps r s) = Step-Inv (Reach-Inv r) s

-- In every reachable state, the tasks that workers have begun, followed by those in the queue,
-- are the tasks that `enqueue` has accepted, in the same order.
pub Reach-fifo : (p : Pool) → Reach p → p.started ++ p.tasks ≡ p.accepted
Reach-fifo p r = (Reach-Inv r).fifo

-- When a worker's thread has returned, the pool is stopped and every task that was accepted has
-- been begun.
pub Reach-drained :
    (p : Pool) (w : ℕ)
    → Reach p
    → p.worker w ≡ returned
    → (p.stop ≡ true) × (p.started ≡ p.accepted)
Reach-drained p w r e =
    let inv = Reach-Inv r in
    let (s, f) = inv.ended w e in
    (s, sym (append-nil p.started) ∙ ap (◌++◌ p.started) (sym f) ∙ inv.fifo)
