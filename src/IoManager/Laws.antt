-- ===== src/IoManager/Laws.antt =====
-- iomanager.cpp: the invariant of the registered events, kept by every method.
use cpp_library.Base.{
  ℕ, ◌+◌, ◌%◌, ◌^◌, Bool, true, false, ◌||◌, not, ◌≡◌, refl, ap, ◌∙◌, Option, none, some, List, [],
  ◌∷◌, ◌++◌, if◌then◌else◌, leb, ◌==◌, ==_iff, Bool-cases, inl, inr, length, get_elem?, set, arith,
}
use cpp_library.IoManager.{
  Event, read, write, bits, Job, FdContext, IoManager, has, without, reset_context, trigger_event,
  Op, ctl_del, left_op, control, store, del_event, fire, fire_if, cancel_event, cancel_all,
  increment, decrement,
}
use cpp_library.IoManager.Masks.{
  weight, Sound, cleared, remove_lem, trigger_event_lem, unread-write, all_gone, left_of,
}
use cpp_library.IoManager.Totals.{
  Tells, deletes, left_op-Tells, total, total-set, total-others, AllSound, context_at, AllSound-set,
  known, known-set, found_within,
}

-- Each context fits its set of events, the counter is exact, and the kernel waits for exactly the
-- registered events.
pub record Inv (m : IoManager) : Type 0 where
  pub sound : AllSound m.fd_contexts
  pub counted : m.pending_event_count ≡ total m.fd_contexts % 2 ^ 64
  pub told : (fd : ℕ) → m.interest fd ≡ known (get_elem? m.fd_contexts fd)

decrement_lem : (p t u : ℕ) → p ≡ t % 2 ^ 64 → u + 1 ≡ t → decrement p ≡ u % 2 ^ 64
decrement_lem p t u e f = omega arith

pub increment_lem : (p t u : ℕ) → p ≡ t % 2 ^ 64 → u ≡ t + 1 → increment p ≡ u % 2 ^ 64
increment_lem p t u e f = omega arith

-- What firing does to one context, and to the counter for the `k` events of the others
pub record Kept (c : FdContext) (m : IoManager) (d : FdContext) (n : IoManager) : Type 0 where
  pub sound : Sound d
  pub same_contexts : n.fd_contexts ≡ m.fd_contexts
  pub same_interest : n.interest ≡ m.interest
  pub balance :
      (k : ℕ)
      → m.pending_event_count ≡ (k + weight c.events) % 2 ^ 64
      → n.pending_event_count ≡ (k + weight d.events) % 2 ^ 64

Kept-trans : {c d e : FdContext} {m n o : IoManager} → Kept c m d n → Kept d n e o → Kept c m e o
Kept-trans a b = record {
  sound = b.sound;
  same_contexts = b.same_contexts ∙ a.same_contexts;
  same_interest = b.same_interest ∙ a.same_interest;
  balance = λ k h. b.balance k (a.balance k h);
}

-- The stored context is counted, and the kernel has been told of it.
pub Kept-store :
    (op : Op) (fd mask : ℕ) {c d : FdContext} {m n : IoManager}
    → Inv m
    → get_elem? m.fd_contexts fd ≡ some c
    → Kept c (control op fd mask m) d n
    → Tells op mask d.events
    → Inv (store fd d n)
Kept-store op fd mask {c} {d} {m} {n} i g k t =
    let cs = m.fd_contexts in
    let (others, e) = total-others cs fd g in
    let now : n.pending_event_count ≡ total (set cs fd d) % 2 ^ 64 =
      k.balance others (i.counted ∙ ap (λ (t : ℕ). t % 2 ^ 64) e)
      ∙ ap (λ (t : ℕ). t % 2 ^ 64) (omega (arith, e, total-set cs fd d g)) in
    record {
      sound = rw k.same_contexts (AllSound-set cs fd i.sound k.sound);
      counted = rw k.same_contexts now;
      told = λ j.
          rw (k.same_contexts, k.same_interest)
            (known-set cs op fd mask j m.interest d g t (i.told j));
    }

clear-Kept :
    (c : FdContext) (e : Event) (m : IoManager) (calls : List (ℕ × Job))
    → Sound c
    → has c.events (bits e) ≡ true
    → Kept c m
        (cleared c e)
        (record m { scheduled = calls; pending_event_count = decrement m.pending_event_count })
clear-Kept c e m calls s h =
    let t = trigger_event_lem c e s h in
    let lighter = (remove_lem e s.mask h).one_less in
    record {
      sound = t.sound;
      same_contexts = refl;
      same_interest = refl;
      balance = λ k b. rw t.left (omega (arith, b, lighter));
    }

fire-Steps :
    (c : FdContext) (e : Event) (m : IoManager)
    → Sound c
    → has c.events (bits e) ≡ true
    → (n : IoManager) × (fire c e m ≡ some (cleared c e, n)) × Kept c m (cleared c e) n
unfolding fire
fire-Steps c e m s h =
    let t = trigger_event_lem c e s h in
    (
      record m {
        scheduled = m.scheduled ++ t.call ∷ [];
        pending_event_count = decrement m.pending_event_count;
      },
      rw (t.runs, fire) refl,
      clear-Kept c e m (m.scheduled ++ t.call ∷ []) s h,
    )

pub fire-fails :
    (c : FdContext) (e : Event) (m : IoManager) → has c.events (bits e) ≡ false → fire c e m ≡ none
unfolding fire trigger_event
fire-fails c e m h = rw (h, trigger_event) refl

-- `fire_if` goes on where the event is registered, whenever it is asked for.
pub fire_if-Steps :
    (mask : ℕ) (c : FdContext) (e : Event) (m : IoManager)
    → Sound c
    → (has mask (bits e) ≡ true → has c.events (bits e) ≡ true)
    → (d : FdContext) × (n : IoManager) × (fire_if mask c e m ≡ some (d, n))
      × Kept c m d n
      × (d.events ≡ (if has mask (bits e) then without c.events (bits e) else c.events))
unfolding fire_if
fire_if-Steps mask c e m s f = elim (Bool-cases (has mask (bits e))) [
  | inl h ↦
      let (n, r, k) = fire-Steps c e m s (f h) in
      (cleared c e, n, rw h r, k, rw h (trigger_event_lem c e s (f h)).left)
  | inr h ↦ (
    c,
    m,
    rw h refl,
    record { sound = s; same_contexts = refl; same_interest = refl; balance = λ k b. b },
    rw h refl,
  )
]

-- A call that returns, in a state that keeps the invariant
abbrev pub Returns : Option (Bool × IoManager) → Type 0
Returns r = (b : Bool) × (m : IoManager) × (r ≡ some (b, m)) × Inv m

pub cancel_event-Inv :
    (fd : ℕ) (e : Event) (ctl_fails : Bool) (m : IoManager)
    → Inv m
    → Returns (cancel_event fd e ctl_fails m)
unfolding cancel_event
cancel_event-Inv fd e ctl_fails m i = elim (Bool-cases (leb (length m.fd_contexts) fd)) [
  | inl h ↦ (false, m, rw h refl, i)
  | inr h ↦
      let (c, g) = found_within m.fd_contexts fd h in
      elim (Bool-cases (not (has c.events (bits e)) || ctl_fails)) [
        | inl q ↦ (false, m, rw (h, cancel_event) (rw g (rw q refl)), i)
        | inr q ↦
            let s = context_at m.fd_contexts fd i.sound g in
            let mask = without c.events (bits e) in
            let (n, r, k) = fire-Steps c e (control (left_op mask) fd mask m) s (ground arith) in
            (
              true,
              store fd (cleared c e) n,
              rw (h, cancel_event) (rw g (rw q (rw r refl))),
              Kept-store (left_op mask) fd mask i g k
                  (left_op-Tells mask _ (trigger_event_lem c e s (ground arith)).left),
            )
      ]
]

pub del_event-Inv :
    (fd : ℕ) (e : Event) (ctl_fails : Bool) (m : IoManager)
    → Inv m
    → Returns (del_event fd e ctl_fails m)
unfolding del_event reset_context
del_event-Inv fd e ctl_fails m i = elim (Bool-cases (leb (length m.fd_contexts) fd)) [
  | inl h ↦ (false, m, rw h refl, i)
  | inr h ↦
      let (c, g) = found_within m.fd_contexts fd h in
      elim (Bool-cases (not (has c.events (bits e)) || ctl_fails)) [
        | inl q ↦ (false, m, rw (h, del_event) (rw g (rw q refl)), i)
        | inr q ↦
            let s = context_at m.fd_contexts fd i.sound g in
            let (x, found) = (trigger_event_lem c e s (ground arith)).found in
            let mask = without c.events (bits e) in
            let told = control (left_op mask) fd mask m in
            let m' = record told { pending_event_count = decrement m.pending_event_count } in
            (
              true,
              store fd (cleared c e) m',
              rw (h, del_event) (rw g (rw q (rw found refl))),
              Kept-store (left_op mask) fd mask i g
                  (clear-Kept c e told m.scheduled s (ground arith))
                  (left_op-Tells mask _ (trigger_event_lem c e s (ground arith)).left),
            )
      ]
]

-- The contexts that a round of firing leaves: each event asked for has gone.
pub both_fired :
    (mask : ℕ) (c : FdContext) (m : IoManager)
    → Sound c
    → (has mask 1 ≡ true → has c.events 1 ≡ true)
    → (has mask 4 ≡ true → has c.events 4 ≡ true)
    → (d : FdContext) × (n : IoManager) × (d' : FdContext) × (n' : IoManager) × (fire_if mask c read
          m
        ≡ some (d, n))
      × (fire_if mask d write n ≡ some (d', n'))
      × Kept c m d' n'
      × (d'.events ≡ left_of c.events mask)
both_fired mask c m s f g =
    let (d, n, r, k, e) = fire_if-Steps mask c read m s f in
    let still : has d.events 4 ≡ has c.events 4 =
      ap (λ (x : ℕ). has x 4) e ∙ unread-write (has mask 1) s.mask in
    let (d', n', r', k', e') = fire_if-Steps mask d write n k.sound (λ h. still ∙ g h) in
    (
      d,
      n,
      d',
      n',
      r,
      r',
      Kept-trans k k',
      e' ∙ ap (λ (x : ℕ). if has mask 4 then without x 4 else x) e,
    )

pub cancel_all-Inv :
    (fd : ℕ) (ctl_fails : Bool) (m : IoManager) → Inv m → Returns (cancel_all fd ctl_fails m)
unfolding cancel_all
cancel_all-Inv fd ctl_fails m i = elim (Bool-cases (leb (length m.fd_contexts) fd)) [
  | inl h ↦ (false, m, rw h refl, i)
  | inr h ↦
      let (c, g) = found_within m.fd_contexts fd h in
      elim (Bool-cases (c.events == 0 || ctl_fails)) [
        | inl q ↦ (false, m, rw (h, cancel_all) (rw g (rw q refl)), i)
        | inr q ↦
            let s = context_at m.fd_contexts fd i.sound g in
            let (d, n, r, k, e) =
              fire_if-Steps c.events c read (control ctl_del fd 0 m) s (λ x. x) in
            let (d', n', r', k', e') = fire_if-Steps d.events d write n k.sound (λ x. x) in
            let done : (d'.events == 0) ≡ true =
              ap (λ (x : ℕ). x == 0) (e' ∙ ap (λ (x : ℕ). if has x 4 then without x 4 else x) e)
              ∙ all_gone s.mask in
            (
              true,
              store fd d' n',
              rw (h, cancel_all) (rw g (rw q (rw r (rw r' (rw done refl))))),
              Kept-store ctl_del fd 0 i g (Kept-trans k k') (deletes ((==_iff d'.events 0).0 done)),
            )
      ]
]
