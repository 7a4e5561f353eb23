-- ===== src/Scheduler/Pick.antt =====
-- scheduler.cpp: which task `run` takes out of the queue.
use cpp_library.Base.{
  ℕ, Bool, true, false, ◌≡◌, inl, inr, refl, sym, ap, ◌∙◌, ◌&&◌, ◌||◌, not, List, [], ◌∷◌, ◌++◌,
  Bool-cases,
}
use cpp_library.Fiber.{State}
use cpp_library.Scheduler.{
  Task, is_empty, elsewhere, has_work, executing, Picked, picked, nothing, fault, skip, pick,
}

-- Every task has a fiber or a callback.
pub data AllWork : List Task → Type 0 where
  no_tasks : AllWork []
  work : {t : Task} {ts : List Task} → has_work t ≡ true → AllWork ts → AllWork (t ∷ ts)

module _ (me : ℕ) (st : ℕ → State) where
  -- A task that the thread takes: it is for this thread or for any, and its fiber does not run.
  abbrev pub takes : Task → Bool
  takes t = not (elsewhere me t) && not (executing st t)

  -- The thread takes none of the tasks.
  pub data AllSkipped : List Task → Type 0 where
    none_skipped : AllSkipped []
    skipped : {t : Task} {ts : List Task} → takes t ≡ false → AllSkipped ts → AllSkipped (t ∷ ts)

  abbrev pub any_elsewhere : List Task → Bool
  any_elsewhere [] = false
  any_elsewhere (t ∷ ts) = elsewhere me t || any_elsewhere ts

  -- The first task that the thread takes, between those in front of it and those behind it
  pub record First (ts : List Task) (tickle : Bool) (t : Task) (rest : List Task) (tickled : Bool)
      : Type 0 where
    pub before : List Task
    pub behind : List Task
    pub split : ts ≡ before ++ t ∷ behind
    pub kept : rest ≡ before ++ behind
    pub passed : AllSkipped before
    pub taken : takes t ≡ true
    pub wakes : tickled ≡ ((any_elsewhere before || tickle) || not (is_empty behind))

  -- What `pick` returns is the first task that the thread takes, or nothing where it takes none.
  unfoldable pub Found : List Task → Bool → Picked → Type 0
  Found ts tickle (picked t rest tickled) = First ts tickle t rest tickled
  Found ts tickle (nothing tickled) = AllSkipped ts × (tickled ≡ (any_elsewhere ts || tickle))
  Found ts tickle fault = ⊥

  skip-Found :
      (t : Task) (ts : List Task) (tickle tickle' : Bool)
      → takes t ≡ false
      → ((x : Bool) → (x || tickle') ≡ ((elsewhere me t || x) || tickle))
      → (p : Picked) → Found ts tickle' p
      → Found (t ∷ ts) tickle (skip t p)
  unfolding Found
  skip-Found t ts tickle tickle' n e (picked u rest tickled) f = record {
    before = t ∷ f.before;
    behind = f.behind;
    split = ap (◌∷◌ t) f.split;
    kept = ap (◌∷◌ t) f.kept;
    passed = skipped n f.passed;
    taken = f.taken;
    wakes = f.wakes ∙ ap (λ b. b || not (is_empty f.behind)) (e (any_elsewhere f.before));
  }
  skip-Found t ts tickle tickle' n e (nothing tickled) (h, w) =
      (skipped n h, w ∙ e (any_elsewhere ts))
  skip-Found t ts tickle tickle' n e fault f = f

  true_or : (x tickle : Bool) → (x || true) ≡ ((true || x) || tickle)
  true_or true tickle = refl
  true_or false tickle = refl

  pick-Found :
      (tickle : Bool) (ts : List Task) → AllWork ts → Found ts tickle (pick me st tickle ts)
  unfolding pick
  pick-Found tickle [] no_tasks = unfold Found in (none_skipped, refl)
  pick-Found tickle (t ∷ ts) (work w k) =
      let others = pick-Found true ts k in
      let more = pick-Found tickle ts k in
      elim (Bool-cases (elsewhere me t)) [
        | inl e ↦
            rw (e, pick)
              (skip-Found t ts tickle true (ap (λ b. not b && not (executing st t)) e)
                (λ x. true_or x tickle ∙ ap (λ b. (b || x) || tickle) (sym e)) _ others)
        | inr e ↦ elim (Bool-cases (executing st t)) [
          | inl x ↦
              rw (e, pick)
                (rw (w, pick)
                  (rw (x, pick)
                    (skip-Found t ts tickle tickle
                      (ap (λ b. not b && not (executing st t)) e ∙ ap not x)
                      (λ y. ap (λ b. (b || y) || tickle) (sym e)) _ more)))
          | inr x ↦
              rw (e, pick)
                (rw (w, pick)
                  (rw (x, pick)
                    (unfold Found in
                      record {
                        before = [];
                        behind = ts;
                        split = refl;
                        kept = refl;
                        passed = none_skipped;
                        taken = ap (λ b. not b && not (executing st t)) e ∙ ap not x;
                        wakes = refl;
                      })))
        ]
      ]

-- In a queue whose tasks all have a fiber or a callback, the loop of `run` takes the first task that
-- is for this thread or any and whose fiber does not run, keeps the order of the others, and calls
-- tickle where it passed a task for another thread or leaves one behind; without such a task it takes
-- none. Its assertion never fails.
pub pick_lem :
    (me : ℕ) (st : ℕ → State) (ts : List Task)
    → AllWork ts
    → Found me st ts false (pick me st false ts)
pick_lem me st ts w = pick-Found me st false ts w
