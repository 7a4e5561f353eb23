-- ===== src/IoManager/Runs.antt =====
-- iomanager.cpp: every sequence of calls.
use mathlib.Core.Path.{subst}
use cpp_library.Base.{
  ℕ, ◌%◌, ◌^◌, Bool, true, false, ◌≡◌, ◌≢◌, ◌⊎◌, refl, sym, ap, ◌∙◌, Option, none, some, none≢some,
  some-injective, Bool-cases, Option-cases, inl, inr, get_elem?, arith, bit_or,
}
use cpp_library.IoManager.{
  Event, none_event, read, write, bits, Job, cb, Caller, job_of, FdContext, IoManager, has,
  get_context, put_context, add_op, control, new_manager, with_room, armed, store, add_event,
  del_event, cancel_event, cancel_all, on_event, increment,
}
use cpp_library.IoManager.Masks.{weight, Sound, arm_lem, Mask-nonzero}
use cpp_library.IoManager.Totals.{
  AllSound-fill, context_at, add_op-Tells, total-fill, with_room-Roomy, known-fill,
}
use cpp_library.IoManager.Laws.{
  Inv, Kept, Kept-store, Returns, cancel_event-Inv, cancel_all-Inv, del_event-Inv,
}
use cpp_library.IoManager.Reports.{on_event-Inv}

grown-Inv :
    (fd : ℕ) (m : IoManager) → Inv m → Inv (record m { fd_contexts = with_room fd m.fd_contexts })
grown-Inv fd m i =
    let r = with_room-Roomy fd m.fd_contexts i.sound in
    record {
      sound = r.sound;
      counted = i.counted ∙ ap (λ (t : ℕ). t % 2 ^ 64) (sym r.same_total);
      told = λ j. i.told j ∙ sym (r.same_known j);
    }

abbrev arm : FdContext → Event → ℕ → Job → FdContext
arm c e s j = put_context (record c { events = bit_or c.events (bits e) }) e (armed (some s) j)

abbrev counted_up : IoManager → IoManager
counted_up m = record m { pending_event_count = increment m.pending_event_count }

-- A new event arms its context and counts as one more.
arm-Kept :
    (m : IoManager) (c : FdContext) (e : Event) (s : ℕ) (j : Job)
    → Sound c
    → e ≢ none_event
    → has c.events (bits e) ≡ false
    → Kept c m (arm c e s j) (counted_up m)
arm-Kept m c e s j h n f =
    let a = arm_lem c e s j h n f in
    record {
      sound = a.sound;
      same_contexts = refl;
      same_interest = refl;
      balance = λ k b. rw a.events_of (omega (arith, b, a.one_more));
    }

-- `addEvent` of an event that is not registered yet, on a thread of a scheduler, returns and keeps the
-- invariant, or the running fiber is not in the state EXEC.
module _ (fd : ℕ) (e : Event) (callback : Option ℕ) (t : Caller) (ctl_fails : Bool)
    (m : IoManager) where
  add_event-new :
      (s : ℕ) (job : Job) {c : FdContext}
      → Inv m
      → t.scheduler ≡ some s
      → job_of callback t ≡ some job
      → e ≢ none_event
      → get_elem? (with_room fd m.fd_contexts) fd ≡ some c
      → has c.events (bits e) ≡ false
      → Returns (add_event fd e callback t ctl_fails m)
  unfolding add_event
  add_event-new s job {c} i on j n g f =
      let m' = record m { fd_contexts = with_room fd m.fd_contexts } in
      let i' : Inv m' = grown-Inv fd m i in
      let h = context_at m'.fd_contexts fd i'.sound g in
      let a = arm_lem c e s job h n f in
      let mask = bit_or c.events (bits e) in
      let told = control (add_op c.events) fd mask m' in
      elim (Bool-cases ctl_fails) [
        | inl q ↦ (false, m', rw (g, add_event) (rw (f, add_event) (rw q refl)), i')
        | inr q ↦ (
          true,
          store fd (arm c e s job) (counted_up told),
          rw (g, add_event) (rw (f, add_event) (rw q (rw a.was_empty (rw j (rw on refl))))),
          Kept-store (add_op c.events) fd mask i' g (arm-Kept told c e s job h n f) (
              add_op-Tells c.events mask _ (Mask-nonzero (weight c.events) a.mask a.one_more)
                a.events_of),
        )
      ]

  add_event-other_state :
      {c : FdContext}
      → Inv m
      → job_of callback t ≡ none
      → e ≢ none_event
      → get_elem? (with_room fd m.fd_contexts) fd ≡ some c
      → has c.events (bits e) ≡ false
      → ctl_fails ≡ false
      → add_event fd e callback t ctl_fails m ≡ none
  unfolding add_event
  add_event-other_state {c} i j n g f q =
      let h = context_at (with_room fd m.fd_contexts) fd (grown-Inv fd m i).sound g in
      let empty = (arm_lem c e 0 (cb 0) h n f).was_empty in
      rw (g, add_event) (rw (f, add_event) (rw q (rw empty (rw j refl))))

  -- Otherwise it returns -1 or an assertion fails.
  add_event-registered :
      {c : FdContext}
      → get_elem? (with_room fd m.fd_contexts) fd ≡ some c
      → has c.events (bits e) ≡ true
      → add_event fd e callback t ctl_fails m ≡ none
  unfolding add_event
  add_event-registered g f = rw (g, add_event) (rw (f, add_event) refl)

  add_event-no_context :
      get_elem? (with_room fd m.fd_contexts) fd ≡ none
      → add_event fd e callback t ctl_fails m ≡ none
  unfolding add_event
  add_event-no_context g = rw (g, add_event) refl

  add_event-none_event :
      {c : FdContext}
      → get_elem? (with_room fd m.fd_contexts) fd ≡ some c
      → has c.events 0 ≡ false
      → ctl_fails ≡ false
      → e ≡ none_event
      → add_event fd e callback t ctl_fails m ≡ none
  unfolding add_event get_context
  add_event-none_event g f q z = rw z (rw (g, add_event) (rw (f, add_event) (rw q refl)))

  add_event-failed_call :
      {c : FdContext}
      → get_elem? (with_room fd m.fd_contexts) fd ≡ some c
      → has c.events (bits e) ≡ false
      → ctl_fails ≡ true
      → add_event fd e callback t ctl_fails m
        ≡ some (false, record m { fd_contexts = with_room fd m.fd_contexts })
  unfolding add_event
  add_event-failed_call g f q = rw (g, add_event) (rw (f, add_event) (rw q refl))

Event-cases : (e : Event) → (e ≡ none_event) ⊎ (e ≢ none_event)
Event-cases none_event = inl refl
Event-cases read = inr (λ q. absurd cc)
Event-cases write = inr (λ q. absurd cc)

returned-Inv :
    (r : Option (Bool × IoManager)) (b : Bool) (n : IoManager) → Returns r → r ≡ some (b, n) → Inv n
returned-Inv r b n (b', n', e, i) f = subst Inv (ap (λ x. x.1) (some-injective (sym e ∙ f))) i

add_event-Inv :
    (fd : ℕ) (e : Event) (callback : Option ℕ) (t : Caller) (s : ℕ) (ctl_fails b : Bool)
    (m n : IoManager)
    → Inv m
    → t.scheduler ≡ some s
    → add_event fd e callback t ctl_fails m ≡ some (b, n)
    → Inv n
add_event-Inv fd e callback t s x b m n i on r =
    elim (Option-cases (get_elem? (with_room fd m.fd_contexts) fd)) [
      | inl g ↦ fails (add_event-no_context fd e callback t x m g)
      | inr (c, g) ↦ elim (Bool-cases (has c.events (bits e))) [
        | inl f ↦ fails (add_event-registered fd e callback t x m g f)
        | inr f ↦ elim (Bool-cases x) [
          | inl q ↦
              subst Inv
                (ap (λ o. o.1)
                  (some-injective (sym (add_event-failed_call fd e callback t x m g f q) ∙ r)))
                (grown-Inv fd m i)
          | inr q ↦ elim (Event-cases e) [
            | inl z ↦ fails (
                add_event-none_event fd e callback t x m g
                  (ap (λ y. has c.events (bits y)) (sym z) ∙ f) q z)
            | inr z ↦ elim (Option-cases (job_of callback t)) [
              | inl j ↦ fails (add_event-other_state fd e callback t x m i j z g f q)
              | inr (job, j) ↦
                  returned-Inv _ b n (add_event-new fd e callback t x m s job i on j z g f) r
            ]
          ]
        ]
      ]
    ]
  where
    fails : add_event fd e callback t x m ≡ none → Inv n
    fails z = absurd (none≢some (sym z ∙ r))

-- One call of a method, or one event that `idle` takes from epoll_wait; `addEvent` is called on a
-- thread that has a scheduler.
pub data Step : IoManager → IoManager → Type 0 where
  adds :
      {m n : IoManager} (fd : ℕ) (e : Event) (callback : Option ℕ) (t : Caller) (s : ℕ)
      (ctl_fails b : Bool)
      → t.scheduler ≡ some s
      → add_event fd e callback t ctl_fails m ≡ some (b, n)
      → Step m n
  deletes :
      {m n : IoManager} (fd : ℕ) (e : Event) (ctl_fails b : Bool)
      → del_event fd e ctl_fails m ≡ some (b, n)
      → Step m n
  cancels :
      {m n : IoManager} (fd : ℕ) (e : Event) (ctl_fails b : Bool)
      → cancel_event fd e ctl_fails m ≡ some (b, n)
      → Step m n
  cancels_all :
      {m n : IoManager} (fd : ℕ) (ctl_fails b : Bool)
      → cancel_all fd ctl_fails m ≡ some (b, n)
      → Step m n
  reports :
      {m n : IoManager} (fd reported : ℕ) (ctl_fails : Bool)
      → on_event fd reported ctl_fails m ≡ some n
      → Step m n

pub data Reach : IoManager → Type 0 where
  starts : Reach new_manager
  steps : {m n : IoManager} → Reach m → Step m n → Reach n

pub new_manager-Inv : Inv new_manager
unfolding new_manager
new_manager-Inv = record {
  sound = AllSound-fill 0 32;
  counted = omega (arith, total-fill 0 32);
  told = λ fd. sym (known-fill 0 32 fd);
}

pub Step-Inv : {m n : IoManager} → Inv m → Step m n → Inv n
Step-Inv {m} {n} i (adds fd e callback t s x b on r) =
    add_event-Inv fd e callback t s x b m n i on r
Step-Inv {m} {n} i (deletes fd e x b r) = returned-Inv _ b n (del_event-Inv fd e x m i) r
Step-Inv {m} {n} i (cancels fd e x b r) = returned-Inv _ b n (cancel_event-Inv fd e x m i) r
Step-Inv {m} {n} i (cancels_all fd x b r) = returned-Inv _ b n (cancel_all-Inv fd x m i) r
Step-Inv {m} {n} i (reports fd reported x r) = on_event-Inv fd reported x m n i r

-- After every sequence of calls and reported events, where addEvent is called on threads that have a
-- scheduler: each descriptor's contexts are set exactly for
-- its registered events, the counter of pending events is the number of registered events modulo
-- 2 ^ 64, and what the calls of epoll_ctl have told the kernel to wait for are exactly the registered
-- events of each descriptor.
pub Reach-exact : (m : IoManager) → Reach m → Inv m
Reach-exact m starts = new_manager-Inv
Reach-exact m (steps r s) = Step-Inv (Reach-exact _ r) s
