-- ===== src/IoManager/Masks.antt =====
-- iomanager.cpp: the four sets of events, and the context of a descriptor that fits its set.
use mathlib.Core.Path.{subst}
use cpp_library.Base.{
  ℕ, ◌+◌, Bool, true, false, ◌≡◌, ◌≢◌, refl, sym, ap, ◌∙◌, some, [], ◌∷◌, if◌then◌else◌, bit_or,
  true≢false, ◌==◌, arith,
}
use cpp_library.IoManager.{
  Event, none_event, read, write, bits, Job, fiber, cb, EventContext, empty_context, FdContext, has,
  without, get_context, put_context, take_job, trigger_event, armed,
}

-- The sets of events that `FdContext::events` takes
pub data Mask : ℕ → Type 0 where
  nothing : Mask 0
  reads : Mask 1
  writes : Mask 4
  both : Mask 5

-- How many events a set has
abbrev pub weight : ℕ → ℕ
weight events = (if has events 1 then 1 else 0) + (if has events 4 then 1 else 0)

-- The context of an event that is registered, or not
abbrev pub Holds : Bool → EventContext → Type 0
Holds false x = x ≡ empty_context
Holds true x = (s : ℕ) × (j : Job) × (x ≡ armed (some s) j)

pub record Sound (c : FdContext) : Type 0 where
  pub mask : Mask c.events
  pub reading : Holds (has c.events 1) c.on_read
  pub writing : Holds (has c.events 4) c.on_write

-- What the removal of a registered event does to a set
pub record Removed (events : ℕ) (e : Event) : Type 0 where
  pub mask : Mask (without events (bits e))
  pub one_less : weight (without events (bits e)) + 1 ≡ weight events
  pub gone : has (without events (bits e)) (bits e) ≡ false

pub remove_lem : {x : ℕ} (e : Event) → Mask x → has x (bits e) ≡ true → Removed x e
remove_lem none_event nothing h = cc
remove_lem none_event reads h = cc
remove_lem none_event writes h = cc
remove_lem none_event both h = cc
remove_lem read nothing h = cc
remove_lem read reads h = record { mask = nothing; one_less = refl; gone = refl }
remove_lem read writes h = cc
remove_lem read both h = record { mask = writes; one_less = refl; gone = refl }
remove_lem write nothing h = cc
remove_lem write reads h = cc
remove_lem write writes h = record { mask = nothing; one_less = refl; gone = refl }
remove_lem write both h = record { mask = reads; one_less = refl; gone = refl }

-- Removing one event leaves the other.
pub without-read : {x : ℕ} → Mask x → has (without x 1) 4 ≡ has x 4
without-read nothing = refl
without-read reads = refl
without-read writes = refl
without-read both = refl

pub without-write : {x : ℕ} → Mask x → has (without x 4) 1 ≡ has x 1
without-write nothing = refl
without-write reads = refl
without-write writes = refl
without-write both = refl

-- What a new event does to a set
pub record Added (events : ℕ) (e : Event) : Type 0 where
  pub mask : Mask (bit_or events (bits e))
  pub one_more : weight (bit_or events (bits e)) ≡ weight events + 1
  pub there : has (bit_or events (bits e)) (bits e) ≡ true

pub add_read : {x : ℕ} → Mask x → has x 1 ≡ false → Added x read × (has (bit_or x 1) 4 ≡ has x 4)
add_read nothing h = (record { mask = reads; one_more = refl; there = refl }, refl)
add_read reads h = cc
add_read writes h = (record { mask = both; one_more = refl; there = refl }, refl)
add_read both h = cc

pub add_write : {x : ℕ} → Mask x → has x 4 ≡ false → Added x write × (has (bit_or x 4) 1 ≡ has x 1)
add_write nothing h = (record { mask = writes; one_more = refl; there = refl }, refl)
add_write reads h = (record { mask = both; one_more = refl; there = refl }, refl)
add_write writes h = cc
add_write both h = cc

pub trigger_armed :
    (c : FdContext) (e : Event) (s : ℕ) (j : Job)
    → has c.events (bits e) ≡ true
    → get_context c e ≡ some (armed (some s) j)
    → trigger_event c e
      ≡ some (
        (s, j) ∷ [],
        put_context (record c { events = without c.events (bits e) }) e empty_context,
      )
unfolding trigger_event take_job armed
trigger_armed c e s (fiber f) h g = rw (h, trigger_event) (rw g refl)
trigger_armed c e s (cb f) h g = rw (h, trigger_event) (rw g refl)

-- The context after its event `e` has gone
abbrev pub cleared : FdContext → Event → FdContext
cleared c e = put_context (record c { events = without c.events (bits e) }) e empty_context

-- Triggering a registered event: one job is scheduled, and the context fits its smaller set.
pub record Triggered (c : FdContext) (e : Event) : Type 0 where
  pub call : ℕ × Job
  pub runs : trigger_event c e ≡ some (call ∷ [], cleared c e)
  pub found : (x : EventContext) × (get_context c e ≡ some x)
  pub sound : Sound (cleared c e)
  pub left : (cleared c e).events ≡ without c.events (bits e)

holds_at : {b d : Bool} (x : EventContext) → b ≡ d → Holds d x → Holds b x
holds_at x e = subst (λ b. Holds b x) (sym e)

no_bits : {x : ℕ} → Mask x → has x 0 ≡ false
no_bits nothing = refl
no_bits reads = refl
no_bits writes = refl
no_bits both = refl

pub trigger_event_lem :
    (c : FdContext) (e : Event) → Sound c → has c.events (bits e) ≡ true → Triggered c e
unfolding get_context
trigger_event_lem c none_event s h = absurd (true≢false (sym h ∙ no_bits s.mask))
trigger_event_lem c read s h =
    let r = remove_lem read s.mask h in
    let (i, j, held) = holds_at c.on_read (sym h) s.reading in
    record {
      call = (i, j);
      found = (c.on_read, refl);
      runs = trigger_armed c read i j h (ap some held);
      sound = record {
        mask = r.mask;
        reading = holds_at empty_context r.gone refl;
        writing = holds_at c.on_write (without-read s.mask) s.writing;
      };
      left = refl;
    }
trigger_event_lem c write s h =
    let r = remove_lem write s.mask h in
    let (i, j, held) = holds_at c.on_write (sym h) s.writing in
    record {
      call = (i, j);
      found = (c.on_write, refl);
      runs = trigger_armed c write i j h (ap some held);
      sound = record {
        mask = r.mask;
        reading = holds_at c.on_read (without-write s.mask) s.reading;
        writing = holds_at empty_context r.gone refl;
      };
      left = refl;
    }

-- Registering a new event: its context was empty, and the armed one fits the larger set.
pub record Armed (c : FdContext) (e : Event) (s : ℕ) (j : Job) : Type 0 where
  pub was_empty : get_context c e ≡ some empty_context
  pub sound :
      Sound (put_context (record c { events = bit_or c.events (bits e) }) e (armed (some s) j))
  pub events_of :
      (put_context (record c { events = bit_or c.events (bits e) }) e (armed (some s) j)).events
      ≡ bit_or c.events (bits e)
  pub mask : Mask (bit_or c.events (bits e))
  pub one_more : weight (bit_or c.events (bits e)) ≡ weight c.events + 1
  pub there : has (bit_or c.events (bits e)) (bits e) ≡ true
  pub context :
      get_context
        (put_context (record c { events = bit_or c.events (bits e) }) e (armed (some s) j))
        e
      ≡ some (armed (some s) j)

pub arm_lem :
    (c : FdContext) (e : Event) (s : ℕ) (j : Job)
    → Sound c
    → e ≢ none_event
    → has c.events (bits e) ≡ false
    → Armed c e s j
unfolding get_context
arm_lem c none_event s j h n f = absurd (n refl)
arm_lem c read s j h n f =
    let (a, kept) = add_read h.mask f in
    record {
      was_empty = ap some (holds_at c.on_read (sym f) h.reading);
      sound = record {
        mask = a.mask;
        reading = holds_at (armed (some s) j) a.there (s, j, refl);
        writing = holds_at c.on_write kept h.writing;
      };
      events_of = refl;
      mask = a.mask;
      one_more = a.one_more;
      there = a.there;
      context = refl;
    }
arm_lem c write s j h n f =
    let (a, kept) = add_write h.mask f in
    record {
      was_empty = ap some (holds_at c.on_write (sym f) h.writing);
      sound = record {
        mask = a.mask;
        reading = holds_at c.on_read kept h.reading;
        writing = holds_at (armed (some s) j) a.there (s, j, refl);
      };
      events_of = refl;
      mask = a.mask;
      one_more = a.one_more;
      there = a.there;
      context = refl;
    }

-- A read that fires leaves the write, and both leave nothing.
pub unread-write : {x : ℕ} (b : Bool) → Mask x → has (if b then without x 1 else x) 4 ≡ has x 4
unread-write true m = without-read m
unread-write false m = refl

pub all_gone :
    {x : ℕ}
    → Mask x
    → let y = (if has x 1 then without x 1 else x) in
      ((if has y 4 then without y 4 else y) == 0) ≡ true
all_gone nothing = refl
all_gone reads = refl
all_gone writes = refl
all_gone both = refl

pub Mask-nonzero : {x : ℕ} (k : ℕ) → Mask x → weight x ≡ k + 1 → (x == 0) ≡ false
Mask-nonzero k nothing e = absurd (omega (arith, e))
Mask-nonzero k reads e = refl
Mask-nonzero k writes e = refl
Mask-nonzero k both e = refl

-- What is left of a set after the read and the write have gone one after the other
abbrev pub left_of : ℕ → ℕ → ℕ
left_of x mask =
    let y = (if has mask 1 then without x 1 else x) in if has mask 4 then without y 4 else y

pub left_of-without :
    {x : ℕ} (a b : Bool)
    → Mask x
    → let mask = bit_or (if a then 1 else 0) (if b then 4 else 0) in left_of x mask ≡ without x mask
left_of-without true true nothing = refl
left_of-without true true reads = refl
left_of-without true true writes = refl
left_of-without true true both = refl
left_of-without true false nothing = refl
left_of-without true false reads = refl
left_of-without true false writes = refl
left_of-without true false both = refl
left_of-without false true nothing = refl
left_of-without false true reads = refl
left_of-without false true writes = refl
left_of-without false true both = refl
left_of-without false false nothing = refl
left_of-without false false reads = refl
left_of-without false false writes = refl
left_of-without false false both = refl
