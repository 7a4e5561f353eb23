-- ===== src/Timer.antt =====
-- C++高性能服务器/atpdxy/timer: timers in a set ordered by their next time. Timers are shared objects,
-- so they live in a heap by address and the set holds addresses; the lock makes a method atomic.
pub mod Order
pub mod Invariant
pub mod Fire
mod Due
pub mod Expired
pub mod Runs
mod Examples
use cpp_library.Base.{
  ℕ, ◌+◌, ◌-◌, ◌*◌, ◌%◌, ◌^◌, Bool, true, false, ◌&&◌, ◌||◌, not, Option, none, some, List, [], ◌∷◌,
  ◌++◌, ◌==◌, leb, ltb, if◌then◌else◌,
}

-- `Timer`: `cb` is the callback, `none` when it is null; times are `uint64_t` milliseconds.
pub record Timer : Type 0 where
  pub recurring : Bool
  pub ms : ℕ
  pub next : ℕ
  pub cb : Option ℕ

abbrev pub Heap : Type 0
Heap = ℕ → Timer

abbrev pub update : Heap → ℕ → Timer → Heap
update h a t b = if a == b then t else h b

abbrev pub u64_mod : ℕ
u64_mod = 2 ^ 64

-- `TimerManager`: `timers` is the set in its order, `fresh` the next address that `new` returns.
pub record Manager : Type 0 where
  pub heap : Heap
  pub timers : List ℕ
  pub tickled : Bool
  pub previous : ℕ
  pub fresh : ℕ

-- `Timer::Comparator` on pointers that are not null
unfoldable pub less : Heap → ℕ → ℕ → Bool
less h a b =
    if ltb (h a).next (h b).next then true else if ltb (h b).next (h a).next then false else ltb a b

-- `std::set::insert`: an address with no equivalent in the set goes to its place.
unfoldable pub insert : Heap → ℕ → List ℕ → List ℕ
insert h a [] = a ∷ []
insert h a (b ∷ s) =
    let behind = b ∷ insert h a s in
    if less h a b then a ∷ b ∷ s else if less h b a then behind else b ∷ s

abbrev pub keep : ℕ → Option (List ℕ) → Option (List ℕ)
keep b none = none
keep b (some s) = some (b ∷ s)

-- `std::set::find` then `erase`; `none` where `find` returns `end()`.
unfoldable pub erase : Heap → ℕ → List ℕ → Option (List ℕ)
erase h a [] = none
erase h a (b ∷ s) =
    let behind = keep b (erase h a s) in if less h a b || less h b a then behind else some s

abbrev pub is_front : ℕ → List ℕ → Bool
is_front a [] = false
is_front a (b ∷ s) = a == b

-- `TimerManager::addTimer(Timer::ptr, WriteLock&)`: whether `onTimerInsertedAtFront` is called.
unfoldable pub add_locked : ℕ → Manager → Manager × Bool
add_locked a m =
    let s = insert m.heap a m.timers in
    let at_front = is_front a s && not m.tickled in
    (record m { timers = s; tickled = m.tickled || at_front }, at_front)

-- `TimerManager::addTimer`: the constructor reads the clock; an empty `std::function` is `none`.
unfoldable pub add_timer : ℕ → ℕ → Option ℕ → Bool → Manager → Manager × Bool
add_timer now ms cb recurring m =
    let t : Timer = record {
      recurring = recurring;
      ms = ms;
      next = (now + ms) % u64_mod;
      cb = cb;
    } in
    add_locked m.fresh (record m { heap = update m.heap m.fresh t; fresh = m.fresh + 1 })

-- `Timer::cancel`; `none` is the `erase` of `end()`, which is undefined.
unfoldable pub cancel : ℕ → Manager → Option (Manager × Bool)
cancel a m =
    let t = m.heap a in
    elim t.cb [
      | none ↦ some (m, false)
      | some c ↦
          let h = update m.heap a (record t { cb = none }) in
          elim (erase h a m.timers) [
            | none ↦ none
            | some s ↦ some (record m { heap = h; timers = s }, true)
          ]
    ]

-- `Timer::refresh`
unfoldable pub refresh : ℕ → ℕ → Manager → Manager × Bool
refresh now a m =
    let t = m.heap a in
    elim t.cb [
      | none ↦ (m, false)
      | some c ↦ elim (erase m.heap a m.timers) [
        | none ↦ (m, false)
        | some s ↦
            let h = update m.heap a (record t { next = (now + t.ms) % u64_mod }) in
            (record m { heap = h; timers = insert h a s }, true)
      ]
    ]

-- `Timer::reset`, with the clock that it reads if `from_now`
unfoldable pub reset : ℕ → ℕ → Bool → ℕ → Manager → Manager × Bool
reset now ms from_now a m =
    let t = m.heap a in
    if ms == t.ms && not from_now then (m, true) else elim t.cb [
      | none ↦ (m, false)
      | some c ↦ elim (erase m.heap a m.timers) [
        | none ↦ (m, false)
        | some s ↦
            let start = if from_now then now else (t.next + u64_mod - t.ms) % u64_mod in
            let h = update m.heap a (record t { ms = ms; next = (start + ms) % u64_mod }) in
            ((add_locked a (record m { heap = h; timers = s })).0, true)
      ]
    ]

-- `TimerManager::getNextTime`; the difference of two unsigned numbers wraps around.
unfoldable pub get_next_time : ℕ → Manager → Manager × ℕ
get_next_time now m =
    let m' = record m { tickled = false } in
    elim m.timers [
      | [] ↦ (m', u64_mod - 1)
      | a ∷ s ↦
          let next = (m.heap a).next in
          (m', if leb next now then 0 else (next + u64_mod - now) % u64_mod)
    ]

-- `TimerManager::detectClockRollover`: the time before, and one hour less of it, unsigned.
unfoldable pub detect_clock_rollover : ℕ → Manager → Bool
detect_clock_rollover now m =
    ltb now m.previous && ltb now ((m.previous + u64_mod - 60 * 60 * 1000) % u64_mod)

-- Whether the iterator passes over `a`: it is less than `now_timer`, or of the same time.
unfoldable pub passed : Heap → ℕ → ℕ → ℕ → Bool
passed h now me a = (ltb (h a).next now || ((h a).next == now && ltb a me)) || (h a).next == now

-- `lower_bound(now_timer)` and the `while` behind it: the addresses before the iterator and from
-- it on; `me` is the address of `now_timer`.
unfoldable pub split_due : Heap → ℕ → ℕ → List ℕ → List ℕ × List ℕ
split_due h now me [] = ([], [])
split_due h now me (a ∷ s) =
    let (due, rest) = split_due h now me s in
    if passed h now me a then (a ∷ due, rest) else ([], a ∷ s)

-- What the loop over the expired timers does with the one at `a`
unfoldable pub renew : ℕ → ℕ → Manager → Manager
renew now a m =
    let t = m.heap a in
    let again = update m.heap a (record t { next = (now + t.ms) % u64_mod }) in
    if t.recurring
    then record m { heap = again; timers = insert again a m.timers }
    else record m { heap = update m.heap a (record t { cb = none }) }

-- The loop: the callbacks that it collects, and the manager after it.
unfoldable pub fire : ℕ → List ℕ → Manager → List (Option ℕ) × Manager
fire now [] m = ([], m)
fire now (a ∷ due) m = let (cbs, m') = fire now due (renew now a m) in ((m.heap a).cb ∷ cbs, m')

-- `TimerManager::listExpiredCb` behind the test that the set is not empty.
unfoldable pub list_expired : ℕ → ℕ → ℕ → List ℕ → Manager → List (Option ℕ) × Manager
list_expired now me a s m =
    let m' = record m { previous = now } in
    if detect_clock_rollover now m
    then fire now (a ∷ s) (record m' { timers = [] })
    else if ltb now (m.heap a).next
    then ([], m')
    else let (due, rest) = split_due m.heap now me (a ∷ s) in
      fire now due (record m' { timers = rest })

unfoldable pub list_expired_cb : ℕ → ℕ → Manager → List (Option ℕ) × Manager
list_expired_cb now me m = elim m.timers [ [] ↦ ([], m) | a ∷ s ↦ list_expired now me a s m ]

-- `TimerManager::TimerManager`, over a heap without timers
unfoldable pub new_manager : ℕ → Manager
new_manager now = record {
  heap = λ a. record { recurring = false; ms = 0; next = 0; cb = none };
  timers = [];
  tickled = false;
  previous = now;
  fresh = 0;
}
