-- ===== src/IoManager/Deliveries.antt =====
-- iomanager.cpp: which job an event schedules, and when the manager may stop.
use cpp_library.Base.{
  ℕ, zero, suc, ◌^◌, ◌≤◌, Bool, true, false, ◌≡◌, ◌≢◌, refl, ap, ◌∙◌, some, List, [], ◌∷◌, ◌++◌,
  Option, leb, length, get_elem?, arith, bit_or,
}
use cpp_library.IoManager.{
  Event, none_event, bits, Job, Caller, job_of, without, add_op, left_op, control, FdContext,
  IoManager, has, get_context, put_context, with_room, armed, store, add_event, fire, cancel_event,
  decrement, increment, stopping,
}
use cpp_library.IoManager.Masks.{
  Mask, nothing, reads, writes, both, weight, cleared, arm_lem, trigger_armed,
}
use cpp_library.IoManager.Totals.{
  context_at, with_room-Roomy, total-bound, get_elem?-set_self, total-others,
}
use cpp_library.IoManager.Laws.{Inv}

fire-armed :
    (c : FdContext) (e : Event) (s : ℕ) (j : Job) (m : IoManager)
    → has c.events (bits e) ≡ true
    → get_context c e ≡ some (armed (some s) j)
    → fire c e m
      ≡ some (
        cleared c e,
        record m {
          scheduled = m.scheduled ++ (s, j) ∷ [];
          pending_event_count = decrement m.pending_event_count;
        },
      )
unfolding fire
fire-armed c e s j m h g = rw (trigger_armed c e s j h g, fire) refl

within :
    (cs : List FdContext) (i : ℕ) {c : FdContext}
    → get_elem? cs i ≡ some c
    → leb (length cs) i ≡ false
within [] i h = cc
within (c ∷ cs) zero h = ground arith
within (c ∷ cs) (suc i) h = let k = within cs i h in ground arith

-- Registering an event that is not registered yet and then cancelling it gives its scheduler the
-- job that it was registered with, after what was scheduled before, and nothing else.
pub cancel_event-add_event :
    (fd : ℕ) (e : Event) (callback : Option ℕ) (t : Caller) (s : ℕ) (job : Job) (m : IoManager)
    (c : FdContext)
    → Inv m
    → t.scheduler ≡ some s
    → job_of callback t ≡ some job
    → e ≢ none_event
    → get_elem? (with_room fd m.fd_contexts) fd ≡ some c
    → has c.events (bits e) ≡ false
    → (n : IoManager) × (o : IoManager) × (add_event fd e callback t false m ≡ some (true, n))
      × (cancel_event fd e false n ≡ some (true, o))
      × (o.scheduled ≡ m.scheduled ++ (s, job) ∷ [])
unfolding add_event cancel_event
cancel_event-add_event fd e callback t s job m c i on j n g f =
    let m' = record m { fd_contexts = with_room fd m.fd_contexts } in
    let sound = context_at m'.fd_contexts fd (with_room-Roomy fd m.fd_contexts i.sound).sound g in
    let a = arm_lem c e s job sound n f in
    let d = put_context (record c { events = bit_or c.events (bits e) }) e (armed (some s) job) in
    let mask = bit_or c.events (bits e) in
    let told = control (add_op c.events) fd mask m' in
    let n' = store fd d (record told { pending_event_count = increment m.pending_event_count }) in
    let found : get_elem? n'.fd_contexts fd ≡ some d = get_elem?-set_self m'.fd_contexts fd d g in
    let there : has d.events (bits e) ≡ true =
      ap (λ (x : ℕ). has x (bits e)) a.events_of ∙ a.there in
    let left = without d.events (bits e) in
    let told' = control (left_op left) fd left n' in
    (
      n',
      store fd (cleared d e) (record told' {
        scheduled = m.scheduled ++ (s, job) ∷ [];
        pending_event_count = decrement n'.pending_event_count;
      }),
      rw (g, add_event) (rw (f, add_event) (rw a.was_empty (rw j (rw on refl)))),
      rw (within n'.fd_contexts fd found, cancel_event)
          (rw found
            (rw (there, cancel_event) (rw (fire-armed d e s job told' there a.context) refl))),
      refl,
    )

weightless : {x : ℕ} → Mask x → weight x ≡ 0 → x ≡ 0
weightless nothing h = refl
weightless reads h = absurd (omega arith)
weightless writes h = absurd (omega arith)
weightless both h = absurd (omega arith)

-- When `stopping` returns true and there are at most 2 ^ 31 contexts, no event of any descriptor is
-- registered.
pub stopping-no_events :
    (scheduler_stopping : Bool) (m : IoManager) (fd : ℕ) (c : FdContext)
    → Inv m
    → length m.fd_contexts ≤ 2 ^ 31
    → stopping scheduler_stopping m ≡ true
    → get_elem? m.fd_contexts fd ≡ some c
    → c.events ≡ 0
unfolding stopping
stopping-no_events b m fd c i l h g =
    let (others, e) = total-others m.fd_contexts fd g in
    let none_pending : m.pending_event_count ≡ 0 = ground arith in
    weightless (context_at m.fd_contexts fd i.sound g).mask
      (omega (arith, none_pending, i.counted, e, l, total-bound m.fd_contexts))
