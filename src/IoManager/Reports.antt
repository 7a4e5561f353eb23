-- ===== src/IoManager/Reports.antt =====
-- iomanager.cpp, `idle`: what one event that epoll_wait reports comes to.
use mathlib.Core.Path.{subst}
use cpp_library.Base.{
  ◌⊎◌, Option-cases, none≢some, some-injective, bit_and_1-bit_or_5, bit_and_4-bit_or_5, ℕ, Bool,
  true, false, ◌||◌, not, ◌≡◌, refl, sym, ap, ◌∙◌, none, some, Bool-cases, inl, inr, get_elem?,
  bit_or,
}
use cpp_library.IoManager.{
  read, write, bits, FdContext, IoManager, has, without, left_op, control, store, fire_if,
  real_events, on_event, epoll_err, epoll_hup,
}
use cpp_library.IoManager.Masks.{Mask, unread-write, left_of, left_of-without}
use cpp_library.IoManager.Totals.{context_at, left_op-Tells}
use cpp_library.IoManager.Laws.{Inv, Kept-store, both_fired, fire_if-Steps, fire-fails}

-- A reported event for which `idle` finds nothing to do, or epoll_ctl fails
on_event-skips :
    (fd reported : ℕ) (ctl_fails : Bool) (m : IoManager) {c : FdContext}
    → get_elem? m.fd_contexts fd ≡ some c
    → not (has c.events (real_events reported)) || ctl_fails ≡ true
    → on_event fd reported ctl_fails m ≡ some m
unfolding on_event
on_event-skips fd reported ctl_fails m g q = rw (g, on_event) (rw q refl)

real_left :
    (reported : ℕ) {x : ℕ}
    → Mask x
    → left_of x (real_events reported) ≡ without x (real_events reported)
unfolding real_events
real_left reported m = left_of-without _ _ m

-- A reported event whose parts are all registered is served, and the invariant stays.
on_event-serves :
    (fd reported : ℕ) (ctl_fails : Bool) (m : IoManager) {c : FdContext}
    → Inv m
    → get_elem? m.fd_contexts fd ≡ some c
    → not (has c.events (real_events reported)) || ctl_fails ≡ false
    → (has (real_events reported) 1 ≡ true → has c.events 1 ≡ true)
    → (has (real_events reported) 4 ≡ true → has c.events 4 ≡ true)
    → (n : IoManager) × (on_event fd reported ctl_fails m ≡ some n) × Inv n
unfolding on_event
on_event-serves fd reported ctl_fails m {c} i g q a b =
    let s = context_at m.fd_contexts fd i.sound g in
    let real = real_events reported in
    let mask = without c.events real in
    let (d, n, d', n', r, r', k, e) = both_fired real c (control (left_op mask) fd mask m) s a b in
    (
      store fd d' n',
      rw (g, on_event) (rw q (rw r (rw r' refl))),
      Kept-store (left_op mask) fd mask i g k
          (left_op-Tells mask _ (e ∙ real_left reported s.mask)),
    )

-- Where a part that is not registered is asked for, an assertion of triggerEvent fails.
on_event-fails_read :
    (fd reported : ℕ) (ctl_fails : Bool) (m : IoManager) {c : FdContext}
    → get_elem? m.fd_contexts fd ≡ some c
    → not (has c.events (real_events reported)) || ctl_fails ≡ false
    → has (real_events reported) 1 ≡ true
    → has c.events 1 ≡ false
    → on_event fd reported ctl_fails m ≡ none
unfolding on_event fire_if
on_event-fails_read fd reported ctl_fails m {c} g q a b =
    rw (g, on_event) (rw q (rw (a, fire_if) (rw (fire-fails c read _ b) refl)))

on_event-fails_write :
    (fd reported : ℕ) (ctl_fails : Bool) (m : IoManager) {c : FdContext}
    → Inv m
    → get_elem? m.fd_contexts fd ≡ some c
    → not (has c.events (real_events reported)) || ctl_fails ≡ false
    → (has (real_events reported) 1 ≡ true → has c.events 1 ≡ true)
    → has (real_events reported) 4 ≡ true
    → has c.events 4 ≡ false
    → on_event fd reported ctl_fails m ≡ none
unfolding on_event
on_event-fails_write fd reported ctl_fails m {c} i g q a b w =
    let s = context_at m.fd_contexts fd i.sound g in
    let real = real_events reported in
    let (d, n, r, k, e) =
      fire_if-Steps real c read
        (control (left_op (without c.events real)) fd (without c.events real) m) s a in
    let still : has d.events 4 ≡ false =
      ap (λ (x : ℕ). has x 4) e ∙ unread-write (has real 1) s.mask ∙ w in
    let fails : fire_if real d write n ≡ none =
      unfold fire_if in rw b (fire-fails d write n still) in
    rw (g, on_event) (rw q (rw r (rw fails refl)))

-- A hang-up or an error asks for both events.
real_events-hang_up : (reported : ℕ) → has reported 24 ≡ true → real_events reported ≡ 5
unfolding real_events
real_events-hang_up reported h =
    rw (h, real_events)
      (rw (bit_and_1-bit_or_5 reported, real_events)
        (rw (bit_and_4-bit_or_5 reported, real_events) refl))

-- With one of the two events registered, a hang-up or an error fails an assertion.
pub on_event-hang_up :
    (fd reported : ℕ) (m : IoManager) (c : FdContext)
    → Inv m
    → get_elem? m.fd_contexts fd ≡ some c
    → (c.events ≡ bits read) ⊎ (c.events ≡ bits write)
    → has reported (bit_or epoll_err epoll_hup) ≡ true
    → on_event fd reported false m ≡ none
on_event-hang_up fd reported m c i g one h =
    let e = real_events-hang_up reported h in
    elim one [
      | inl r ↦
          on_event-fails_write fd reported false m i g (rw (e, r) refl) (λ _. rw r refl) (rw e refl)
            (rw r refl)
      | inr w ↦ on_event-fails_read fd reported false m g (rw (e, w) refl) (rw e refl) (rw w refl)
    ]

-- What `on_event` leaves in any case keeps the invariant.
pub on_event-Inv :
    (fd reported : ℕ) (ctl_fails : Bool) (m n : IoManager)
    → Inv m
    → on_event fd reported ctl_fails m ≡ some n
    → Inv n
on_event-Inv fd reported ctl_fails m n i e = elim (Option-cases (get_elem? m.fd_contexts fd)) [
  | inl g ↦ absurd (none≢some (sym (no_context g) ∙ e))
  | inr (c, g) ↦ elim (Bool-cases (not (has c.events (real_events reported)) || ctl_fails)) [
    | inl q ↦ subst Inv (some-injective (sym (on_event-skips fd reported ctl_fails m g q) ∙ e)) i
    | inr q ↦ elim (asked (has (real_events reported) 1) (has c.events 1)) [
      | inr (a, b) ↦
          absurd (none≢some (sym (on_event-fails_read fd reported ctl_fails m g q a b) ∙ e))
      | inl a ↦ elim (asked (has (real_events reported) 4) (has c.events 4)) [
        | inr (b, w) ↦
            absurd (none≢some (sym (on_event-fails_write fd reported ctl_fails m i g q a b w) ∙ e))
        | inl b ↦
            let (n', r, k) = on_event-serves fd reported ctl_fails m i g q a b in
            subst Inv (some-injective (sym r ∙ e)) k
      ]
    ]
  ]
]
  where
    no_context : get_elem? m.fd_contexts fd ≡ none → on_event fd reported ctl_fails m ≡ none
    no_context g = unfold on_event in rw (g, on_event) refl

    asked : (a b : Bool) → (a ≡ true → b ≡ true) ⊎ ((a ≡ true) × (b ≡ false))
    asked true true = inl (λ _. refl)
    asked true false = inr (refl, refl)
    asked false b = inl (λ h. cc)
