-- ===== src/Scheduler/Counts.antt =====
-- scheduler.cpp: how many threads run a task, or are in their idle fiber.
use cpp_library.Base.{
  ℕ, zero, suc, ◌+◌, ◌%◌, ◌^◌, ◌≡◌, refl, ap, ◌∙◌, some, List, [], ◌∷◌, some-injective, get_elem?,
  set, arith,
}
use cpp_library.Scheduler.{
  Phase, looking, idling, finished, running, requeueing, Worker, looking_workers,
}

unfoldable pub is_running : Phase → ℕ
is_running (running t) = 1
is_running looking = 0
is_running idling = 0
is_running finished = 0
is_running (requeueing f) = 0

unfoldable pub is_idling : Phase → ℕ
is_idling idling = 1
is_idling looking = 0
is_idling finished = 0
is_idling (running t) = 0
is_idling (requeueing f) = 0

unfoldable pub count : (Phase → ℕ) → List Worker → ℕ
count p [] = 0
count p (w ∷ ws) = p w.phase + count p ws

count-set :
    (p : Phase → ℕ) (ws : List Worker) (i : ℕ) {w : Worker} (v : Worker)
    → get_elem? ws i ≡ some w
    → count p (set ws i v) + p w.phase ≡ count p ws + p v.phase
unfolding count
count-set p [] i v h = cc
count-set p (u ∷ ws) zero {w} v h = rw (← some-injective h) (omega arith)
count-set p (u ∷ ws) (suc i) v h = omega (arith, count-set p ws i v h)

pub count-looking : (p : Phase → ℕ) (n : ℕ) → p looking ≡ 0 → count p (looking_workers n) ≡ 0
unfolding count
count-looking p zero e = refl
count-looking p (suc n) e = omega (arith, e, count-looking p n e)

pub count-others :
    (p : Phase → ℕ) (ws : List Worker) (i : ℕ) {w : Worker}
    → get_elem? ws i ≡ some w
    → (k : ℕ) × (count p ws ≡ k + p w.phase)
unfolding count
count-others p [] i h = cc
count-others p (u ∷ ws) zero {w} h = (count p ws, rw (← some-injective h) (omega arith))
count-others p (u ∷ ws) (suc i) h =
    let (k, e) = count-others p ws i h in (p u.phase + k, omega (arith, e))

pub moved_count :
    (p : Phase → ℕ) (ws : List Worker) (i : ℕ) (w v : Worker) (c c' : ℕ)
    → get_elem? ws i ≡ some w
    → c ≡ count p ws % 2 ^ 64
    → ((k : ℕ) → c ≡ (k + p w.phase) % 2 ^ 64 → c' ≡ (k + p v.phase) % 2 ^ 64)
    → c' ≡ count p (set ws i v) % 2 ^ 64
moved_count p ws i w v c c' g e step =
    let (k, q) = count-others p ws i g in
    step k (e ∙ ap (λ (n : ℕ). n % 2 ^ 64) q)
    ∙ ap (λ (n : ℕ). n % 2 ^ 64) (omega (arith, q, count-set p ws i v g))
