-- ===== src/Fiber/Laws.antt =====
-- fiber.cpp: a thread whose fibers are entered from the main fiber only.
use mathlib.Core.Path.{subst}
use cpp_library.Base.{
  ℕ, ◌<◌, false, ◌≡◌, ◌≢◌, ◌⊎◌, inl, inr, sym, ap, ◌∙◌, some, ◌==◌, ==_iff, ==_refl, Bool-cases,
  if◌then◌else◌, true≢false,
}
use cpp_library.Fiber.{exec, Fiber, Thread, put, set_state, swap_context}

-- The thread is on the stack of its current fiber; every other fiber goes on where it stopped, on
-- its own stack; and apart from the main fiber only the current one is executing.
pub record Inv (m : ℕ) (t : Thread) : Type 0 where
  pub is_main : t.main ≡ some m
  pub on_current : t.current ≡ some t.running
  pub own_stack : (a : ℕ) → a ≢ t.running → (t.fibers a).context ≡ a
  pub executing : (t.fibers t.running).state ≡ exec
  pub main_executing : (t.fibers m).state ≡ exec
  pub others : (a : ℕ) → a ≢ m → a ≢ t.running → (t.fibers a).state ≢ exec
  pub made : m < t.fresh
  pub made_current : t.running < t.fresh

pub put_self : (a : ℕ) (f : Fiber) (t : Thread) → (put a f t).fibers a ≡ f
put_self a f t = ap (λ b. if b then f else t.fibers a) (==_refl a)

pub differ : {a b : ℕ} → a ≢ b → (a == b) ≡ false
differ {a} {b} n = elim (Bool-cases (a == b)) [ inl e ↦ absurd (n ((==_iff a b).0 e)) | inr e ↦ e ]

pub put_ne : (a b : ℕ) (f : Fiber) (t : Thread) → a ≢ b → (put a f t).fibers b ≡ t.fibers b
put_ne a b f t n = ap (λ x. if x then f else t.fibers b) (differ n)

pub same_or_not : (a b : ℕ) → (a ≡ b) ⊎ (a ≢ b)
same_or_not a b = elim (Bool-cases (a == b)) [
  | inl e ↦ inl ((==_iff a b).0 e)
  | inr e ↦ inr (λ q. true≢false (sym ((==_iff a b).1 q) ∙ e))
]

-- A switch between two fibers: what each fiber is afterwards, and on whose stack the thread is
pub switched_from :
    (from to : ℕ) (t : Thread)
    → (swap_context from to t).fibers from ≡ record (t.fibers from) { context = t.running }
unfolding swap_context
switched_from from to t = put_self from _ t

pub switched_other :
    (from to b : ℕ) (t : Thread) → from ≢ b → (swap_context from to t).fibers b ≡ t.fibers b
unfolding swap_context
switched_other from to b t n = put_ne from b _ t n

pub switched_running :
    (from to : ℕ) (t : Thread)
    → from ≢ to
    → (swap_context from to t).running ≡ (t.fibers to).context
unfolding swap_context
switched_running from to t n = ap (λ f. f.context) (put_ne from to _ t n)

-- The main fiber enters `a`.
abbrev pub entered : ℕ → ℕ → Thread → Thread
entered m a t = swap_context m a (set_state a exec (record t { current = some a }))

pub enter-Inv :
    (m a : ℕ) (t : Thread) → Inv m t → t.running ≡ m → a ≢ m → a < t.fresh → Inv m (entered m a t)
unfolding swap_context
enter-Inv m a t i r n b =
    let f : Fiber = record (t.fibers a) { state = exec } in
    let t1 = put a f (record t { current = some a }) in
    let at_a : t1.fibers a ≡ f = put_self a f (record t { current = some a }) in
    let at_m : t1.fibers m ≡ t.fibers m = put_ne a m f (record t { current = some a }) n in
    let m≢a : m ≢ a = (λ e. n (sym e)) in
    let now : (entered m a t).running ≡ a =
      switched_running m a t1 m≢a ∙ ap (λ g. g.context) at_a ∙ i.own_stack a (λ q. n (q ∙ r)) in
    let to_a : (entered m a t).fibers a ≡ f = switched_other m a a t1 m≢a ∙ at_a in
    record {
      is_main = i.is_main;
      on_current = ap some (sym now);
      own_stack = λ c d. elim (same_or_not m c) [
        | inl e ↦
            ap (λ (k : ℕ). ((entered m a t).fibers k).context) (sym e)
            ∙ ap (λ g. g.context) (switched_from m a t1)
            ∙ r
            ∙ e
        | inr e ↦
            let c≢a : a ≢ c = (λ q. d (sym q ∙ sym now)) in
            ap (λ g. g.context)
              (switched_other m a c t1 e ∙ put_ne a c f (record t { current = some a }) c≢a)
            ∙ i.own_stack c (λ q. e (sym (q ∙ r)))
      ];
      executing = ap (λ (k : ℕ). ((entered m a t).fibers k).state) now ∙ ap (λ g. g.state) to_a;
      main_executing =
          ap (λ g. g.state) (switched_from m a t1) ∙ ap (λ g. g.state) at_m ∙ i.main_executing;
      others = λ c p q e.
          let c≢a : a ≢ c = (λ x. q (sym x ∙ sym now)) in
          let same : (entered m a t).fibers c ≡ t.fibers c =
            switched_other m a c t1 (λ x. p (sym x))
            ∙ put_ne a c f (record t { current = some a }) c≢a in
          i.others c p (λ x. p (x ∙ r)) (sym (ap (λ g. g.state) same) ∙ e);
      made = i.made;
      made_current = subst (λ (k : ℕ). k < t.fresh) (sym now) b;
    }

-- The current fiber is changed to `f` and switches to the main fiber.
abbrev pub left : ℕ → Fiber → Thread → Thread
left m f t = swap_context t.running m (record (put t.running f t) { current = some m })

pub leave-Inv :
    (m : ℕ) (f : Fiber) (t : Thread) → Inv m t → t.running ≢ m → f.state ≢ exec → Inv m (left m f t)
unfolding swap_context
leave-Inv m f t i n d =
    let a = t.running in
    let t1 : Thread = record (put a f t) { current = some m } in
    let m≢a : m ≢ a = (λ e. n (sym e)) in
    let at_m : t1.fibers m ≡ t.fibers m = put_ne a m f t n in
    let now : (left m f t).running ≡ m =
      switched_running a m t1 n ∙ ap (λ g. g.context) at_m ∙ i.own_stack m m≢a in
    let to_m : (left m f t).fibers m ≡ t.fibers m = switched_other a m m t1 n ∙ at_m in
    record {
      is_main = i.is_main;
      on_current = ap some (sym now);
      own_stack = λ c e. elim (same_or_not a c) [
        | inl q ↦
            ap (λ (k : ℕ). ((left m f t).fibers k).context) (sym q)
            ∙ ap (λ g. g.context) (switched_from a m t1)
            ∙ q
        | inr q ↦
            ap (λ g. g.context) (switched_other a m c t1 q ∙ put_ne a c f t q)
            ∙ i.own_stack c (λ x. q (sym x))
      ];
      executing =
          ap (λ (k : ℕ). ((left m f t).fibers k).state) now
          ∙ ap (λ g. g.state) to_m
          ∙ i.main_executing;
      main_executing = ap (λ g. g.state) to_m ∙ i.main_executing;
      others = λ c p q e. elim (same_or_not a c) [
        | inl x ↦
            let gone : ((left m f t).fibers c).state ≡ f.state =
              ap (λ (k : ℕ). ((left m f t).fibers k).state) (sym x)
              ∙ ap (λ g. g.state) (switched_from a m t1)
              ∙ ap (λ g. g.state) (put_self a f t) in
            d (sym gone ∙ e)
        | inr x ↦
            i.others c p (λ y. x (sym y))
              (sym (ap (λ g. g.state) (switched_other a m c t1 x ∙ put_ne a c f t x)) ∙ e)
      ];
      made = i.made;
      made_current = subst (λ (k : ℕ). k < t.fresh) (sym now) i.made;
    }

-- A fiber that is not on its stack is made or reset.
pub renew-Inv :
    (m a : ℕ) (f : Fiber) (t : Thread)
    → Inv m t
    → a ≢ m
    → a ≢ t.running
    → f.state ≢ exec
    → f.context ≡ a
    → Inv m (put a f t)
renew-Inv m a f t i n r d o = record {
  is_main = i.is_main;
  on_current = i.on_current;
  own_stack = λ c e. elim (same_or_not a c) [
    | inl q ↦
        ap (λ (k : ℕ). ((put a f t).fibers k).context) (sym q)
        ∙ ap (λ g. g.context) (put_self a f t)
        ∙ o
        ∙ q
    | inr q ↦ ap (λ g. g.context) (put_ne a c f t q) ∙ i.own_stack c e
  ];
  executing = ap (λ g. g.state) (put_ne a t.running f t r) ∙ i.executing;
  main_executing = ap (λ g. g.state) (put_ne a m f t n) ∙ i.main_executing;
  others = λ c p q e. elim (same_or_not a c) [
    | inl x ↦ d (
        sym (
          ap (λ (k : ℕ). ((put a f t).fibers k).state) (sym x) ∙ ap (λ g. g.state) (put_self a f t))
        ∙ e)
    | inr x ↦ i.others c p q (sym (ap (λ g. g.state) (put_ne a c f t x)) ∙ e)
  ];
  made = i.made;
  made_current = i.made_current;
}
