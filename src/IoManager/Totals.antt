-- ===== src/IoManager/Totals.antt =====
-- iomanager.cpp: the contexts of all descriptors, how many events they have, and what the kernel
-- has been told.
use mathlib.Core.Path.{subst}
use cpp_library.Base.{
  ℕ, zero, suc, ◌+◌, ◌-◌, ◌*◌, ◌/◌, ◌≤◌, ◌<◌, true, false, ◌≡◌, ◌≢◌, refl, sym, ap, ◌∙◌, Option,
  none, some, List, [], ◌∷◌, ◌++◌, if◌then◌else◌, ltb, leb, ◌==◌, ==_iff, Bool-cases, inl, inr,
  length, get_elem?, set, take, arith, append-nil, some-injective, length-append, ltb→lt,
  true≢false,
}
use cpp_library.IoManager.{
  FdContext, Op, ctl_add, ctl_mod, ctl_del, left_op, add_op, fill, context_resize, with_room, tell,
}
use cpp_library.IoManager.Masks.{weight, Sound, nothing}

pub total : List FdContext → ℕ
total [] = 0
total (c ∷ cs) = weight c.events + total cs

pub total-set :
    (cs : List FdContext) (i : ℕ) {c : FdContext} (d : FdContext)
    → get_elem? cs i ≡ some c
    → total (set cs i d) + weight c.events ≡ total cs + weight d.events
unfolding total
total-set [] i d h = cc
total-set (b ∷ cs) zero {c} d h = rw (← some-injective h) (omega arith)
total-set (c ∷ cs) (suc i) d h = omega (arith, total-set cs i d h)

pub AllSound : List FdContext → Type 0
AllSound [] = Unit {0}
AllSound (c ∷ cs) = Sound c × AllSound cs

pub context_at :
    (cs : List FdContext) (i : ℕ) {c : FdContext} → AllSound cs → get_elem? cs i ≡ some c → Sound c
unfolding AllSound
context_at [] i a h = cc
context_at (c ∷ cs) zero (s, a) h = subst Sound (some-injective h) s
context_at (c ∷ cs) (suc i) (s, a) h = context_at cs i a h

pub AllSound-set :
    (cs : List FdContext) (i : ℕ) {d : FdContext} → AllSound cs → Sound d → AllSound (set cs i d)
unfolding AllSound
AllSound-set [] i a s = a
AllSound-set (c ∷ cs) zero (_, a) s = (s, a)
AllSound-set (c ∷ cs) (suc i) (t, a) s = (t, AllSound-set cs i a s)

-- What the kernel has of a descriptor
pub known : Option FdContext → Option ℕ
known none = none
known (some c) = if c.events == 0 then none else some c.events

-- The contexts that `contextResize` adds
pub total-fill : (i n : ℕ) → total (fill i n) ≡ 0
unfolding total
total-fill i zero = refl
total-fill i (suc n) = omega (arith, total-fill (i + 1) n)

pub AllSound-fill : (i n : ℕ) → AllSound (fill i n)
unfolding AllSound
AllSound-fill i zero = tt
AllSound-fill i (suc n) =
    (record { mask = nothing; reading = refl; writing = refl }, AllSound-fill (i + 1) n)

pub known-fill : (i n j : ℕ) → known (get_elem? (fill i n) j) ≡ none
unfolding known
known-fill i zero j = refl
known-fill i (suc n) zero = refl
known-fill i (suc n) (suc j) = known-fill (i + 1) n j

total-append : (cs ds : List FdContext) → total (cs ++ ds) ≡ total cs + total ds
unfolding total
total-append [] ds = omega arith
total-append (c ∷ cs) ds = omega (arith, total-append cs ds)

AllSound-append : (cs ds : List FdContext) → AllSound cs → AllSound ds → AllSound (cs ++ ds)
unfolding AllSound
AllSound-append [] ds a b = b
AllSound-append (c ∷ cs) ds (s, a) b = (s, AllSound-append cs ds a b)

known-append_fill :
    (cs : List FdContext) (i n j : ℕ)
    → known (get_elem? (cs ++ fill i n) j) ≡ known (get_elem? cs j)
known-append_fill [] i n j = known-fill i n j ∙ unfold known in refl
known-append_fill (c ∷ cs) i n zero = refl
known-append_fill (c ∷ cs) i n (suc j) = known-append_fill cs i n j

take_all : (n : ℕ) (cs : List FdContext) → length cs ≤ n → take n cs ≡ cs
take_all zero [] h = refl
take_all zero (c ∷ cs) h = absurd (omega arith)
take_all (suc n) [] h = refl
take_all (suc n) (c ∷ cs) h = ap (◌∷◌ c) (take_all n cs (omega arith))

-- Making room adds empty contexts behind the others.
pub with_room-fill :
    (fd : ℕ) (cs : List FdContext) → (n : ℕ) × (with_room fd cs ≡ cs ++ fill (length cs) n)
unfolding with_room context_resize
with_room-fill fd cs = elim (Bool-cases (ltb fd (length cs))) [
  | inl h ↦ (0, rw h (sym (append-nil cs)))
  | inr h ↦ (
    fd * 3 / 2 - length cs,
    rw h (
        ap (λ l. l ++ fill (length cs) (fd * 3 / 2 - length cs))
          (take_all (fd * 3 / 2) cs (ground arith))),
  )
]

-- A look-up after a store
pub get_elem?-set_self :
    (cs : List FdContext) (i : ℕ) {c : FdContext} (d : FdContext)
    → get_elem? cs i ≡ some c
    → get_elem? (set cs i d) i ≡ some d
get_elem?-set_self [] i d h = cc
get_elem?-set_self (c ∷ cs) zero d h = refl
get_elem?-set_self (c ∷ cs) (suc i) d h = get_elem?-set_self cs i d h

pub get_elem?-set_ne :
    (cs : List FdContext) (i j : ℕ) (d : FdContext)
    → i ≢ j
    → get_elem? (set cs i d) j ≡ get_elem? cs j
get_elem?-set_ne [] i j d n = refl
get_elem?-set_ne (c ∷ cs) zero zero d n = absurd (n refl)
get_elem?-set_ne (c ∷ cs) zero (suc j) d n = refl
get_elem?-set_ne (c ∷ cs) (suc i) zero d n = refl
get_elem?-set_ne (c ∷ cs) (suc i) (suc j) d n = get_elem?-set_ne cs i j d (λ e. n (ap suc e))

-- A call of epoll_ctl after which the kernel waits for `events`
pub data Tells : Op → ℕ → ℕ → Type 0 where
  deletes : {mask events : ℕ} → events ≡ 0 → Tells ctl_del mask events
  adds : {mask events : ℕ} → (mask == 0) ≡ false → events ≡ mask → Tells ctl_add mask events
  changes : {mask events : ℕ} → (mask == 0) ≡ false → events ≡ mask → Tells ctl_mod mask events

pub left_op-Tells : (mask events : ℕ) → events ≡ mask → Tells (left_op mask) mask events
left_op-Tells mask events e = elim (Bool-cases (mask == 0)) [
  | inl h ↦ rw h (deletes (e ∙ (==_iff mask 0).0 h))
  | inr h ↦ rw h (changes h e)
]

pub add_op-Tells :
    (old mask events : ℕ) → (mask == 0) ≡ false → events ≡ mask → Tells (add_op old) mask events
add_op-Tells old mask events h e = elim (Bool-cases (old == 0)) [
  | inl z ↦ rw z (adds h e)
  | inr z ↦ rw z (changes h e)
]

told_here :
    (op : Op) (mask : ℕ) (d : FdContext) (other : Option ℕ)
    → Tells op mask d.events
    → tell op 0 mask (λ k. other) 0 ≡ known (some d)
unfolding known
told_here op mask d other (deletes e) = rw e refl
told_here op mask d other (adds h e) = rw (e, h) refl
told_here op mask d other (changes h e) = rw (e, h) refl

told_at :
    (op : Op) (fd j mask : ℕ) (k : ℕ → Option ℕ)
    → (fd == j) ≡ true
    → tell op fd mask k j ≡ tell op 0 mask (λ i. k j) 0
told_at ctl_add fd j mask k e = rw e refl
told_at ctl_mod fd j mask k e = rw e refl
told_at ctl_del fd j mask k e = rw e refl

told_else :
    (op : Op) (fd j mask : ℕ) (k : ℕ → Option ℕ) → (fd == j) ≡ false → tell op fd mask k j ≡ k j
told_else ctl_add fd j mask k e = rw e refl
told_else ctl_mod fd j mask k e = rw e refl
told_else ctl_del fd j mask k e = rw e refl

-- The kernel is told of a stored context.
pub known-set :
    (cs : List FdContext) (op : Op) (fd mask j : ℕ) (k : ℕ → Option ℕ) {c : FdContext}
    (d : FdContext)
    → get_elem? cs fd ≡ some c
    → Tells op mask d.events
    → k j ≡ known (get_elem? cs j)
    → tell op fd mask k j ≡ known (get_elem? (set cs fd d) j)
unfolding known
known-set cs op fd mask j k d g t h = elim (Bool-cases (fd == j)) [
  | inl e ↦
      let same = (==_iff fd j).0 e in
      told_at op fd j mask k e
      ∙ told_here op mask d (k j) t
      ∙ sym (ap known (sym (ap (get_elem? (set cs fd d)) same) ∙ get_elem?-set_self cs fd d g))
  | inr e ↦
      told_else op fd j mask k e
      ∙ rw (get_elem?-set_ne cs fd j d (λ q. true≢false (sym ((==_iff fd j).1 q) ∙ e))) h
]

get_elem?-within :
    (cs : List FdContext) (i : ℕ) → i < length cs → (c : FdContext) × (get_elem? cs i ≡ some c)
get_elem?-within [] i h = absurd (omega arith)
get_elem?-within (c ∷ cs) zero h = (c, refl)
get_elem?-within (c ∷ cs) (suc i) h = get_elem?-within cs i (omega arith)

pub total-others :
    (cs : List FdContext) (i : ℕ) {c : FdContext}
    → get_elem? cs i ≡ some c
    → (k : ℕ) × (total cs ≡ k + weight c.events)
unfolding total
total-others [] i h = cc
total-others (b ∷ cs) zero {c} h = (total cs, rw (← some-injective h) (omega arith))
total-others (b ∷ cs) (suc i) {c} h =
    let (k, e) = total-others cs i h in (weight b.events + k, omega (arith, e))

pub found_within :
    (cs : List FdContext) (i : ℕ)
    → leb (length cs) i ≡ false
    → (c : FdContext) × (get_elem? cs i ≡ some c)
found_within cs i h = get_elem?-within cs i (ground arith)

-- The contexts after making room
pub record Roomy (fd : ℕ) (cs : List FdContext) : Type 0 where
  pub sound : AllSound (with_room fd cs)
  pub same_total : total (with_room fd cs) ≡ total cs
  pub same_known : (j : ℕ) → known (get_elem? (with_room fd cs) j) ≡ known (get_elem? cs j)
  pub longer : length cs ≤ length (with_room fd cs)

pub with_room-Roomy : (fd : ℕ) (cs : List FdContext) → AllSound cs → Roomy fd cs
with_room-Roomy fd cs a =
    let (n, e) = with_room-fill fd cs in
    let added = fill (length cs) n in
    record {
      sound = rw e (AllSound-append cs added a (AllSound-fill (length cs) n));
      same_total = rw e (omega (arith, total-append cs added, total-fill (length cs) n));
      same_known = λ j. rw e (known-append_fill cs (length cs) n j);
      longer = rw e (omega (arith, length-append cs added));
    }

length-fill : (i n : ℕ) → length (fill i n) ≡ n
length-fill i zero = refl
length-fill i (suc n) = ap suc (length-fill (i + 1) n)

pub with_room-reaches :
    (fd : ℕ) (cs : List FdContext) → 2 ≤ length cs → fd < length (with_room fd cs)
unfolding with_room context_resize
with_room-reaches fd cs h = elim (Bool-cases (ltb fd (length cs))) [
  | inl e ↦ rw e (ltb→lt fd (length cs) e)
  | inr e ↦
      let n = fd * 3 / 2 in
      let behind : length cs ≤ fd = ground arith in
      rw e (
        rw (take_all n cs (omega arith), length-append cs (fill (length cs) (n - length cs)))
          (omega (arith, length-fill (length cs) (n - length cs))))
]

pub total-bound : (cs : List FdContext) → total cs ≤ 2 * length cs
unfolding total
total-bound [] = omega arith
total-bound (c ∷ cs) = let h = total-bound cs in ground arith
