-- ===== src/Config/Listeners.antt =====
-- config.h: the listeners of a variable, by their keys.
use cpp_library.Base.{
  ℕ, ◌+◌, ◌%◌, ◌^◌, ◌≤◌, ◌<◌, Bool, false, some, List, [], ◌∷◌, ◌++◌, ◌≡◌, refl, sym, ap, ◌∙◌, ◌==◌,
  ltb, Bool-cases, inl, inr, ==_refl, ==_iff, arith,
}
use cpp_library.Config.{
  Listener, ConfigVar, Config, insert_listener, erase_listener, add_listener, del_listener,
  get_listener, notify, set_value, Outcome, returns, throws, and_then, assign,
}

not_less : (k j : ℕ) → j < k → ltb k j ≡ false
not_less k j h = ground arith

not_equal : (k j : ℕ) → j < k → (k == j) ≡ false
not_equal k j h = ground arith

and_then-returns : {A : Type 0} (o : Outcome A) → and_then o returns ≡ o
and_then-returns (returns a) = refl
and_then-returns (throws a) = refl

and_then-and_then :
    {A : Type 0} (o : Outcome A) (f g : A → Outcome A)
    → and_then (and_then o f) g ≡ and_then o (λ a. and_then (f a) g)
and_then-and_then (returns a) f g = refl
and_then-and_then (throws a) f g = refl

and_then-same :
    {A : Type 0} (o : Outcome A) (f g : A → Outcome A)
    → ((a : A) → f a ≡ g a)
    → and_then o f ≡ and_then o g
and_then-same (returns a) f g e = e a
and_then-same (throws a) f g e = refl

module _ {V W : Type 0} where
  -- Every key is at most `n`.
  pub data Below (n : ℕ) : List (ℕ × Listener V W) → Type 0 where
    no_keys : Below n []
    key :
        {k : ℕ} {cb : Listener V W} {ls : List (ℕ × Listener V W)}
        → k ≤ n
        → Below n ls
        → Below n ((k, cb) ∷ ls)

  pub Below-weaker : {n m : ℕ} (ls : List (ℕ × Listener V W)) → n ≤ m → Below n ls → Below m ls
  Below-weaker [] h no_keys = no_keys
  Below-weaker (l ∷ ls) h (key k b) = key (omega (arith, k, h)) (Below-weaker ls h b)

  pub Below-erase :
      {n : ℕ} (k : ℕ) (ls : List (ℕ × Listener V W)) → Below n ls → Below n (erase_listener k ls)
  Below-erase k [] no_keys = no_keys
  Below-erase {n} k ((j, cb) ∷ ls) (key h b) = elim (Bool-cases (k == j)) [
    | inl e ↦ rw e b
    | inr e ↦ rw e (key h (Below-erase k ls b))
  ]

  pub Below-append :
      {n : ℕ} (k : ℕ) (cb : Listener V W) (ls : List (ℕ × Listener V W))
      → k ≤ n
      → Below n ls
      → Below n (ls ++ (k, cb) ∷ [])
  Below-append k cb [] h no_keys = key h no_keys
  Below-append k cb (l ∷ ls) h (key j b) = key j (Below-append k cb ls h b)

  pub insert_last :
      (n k : ℕ) (cb : Listener V W) (ls : List (ℕ × Listener V W))
      → Below n ls
      → n < k
      → insert_listener k cb ls ≡ ls ++ (k, cb) ∷ []
  insert_last n k cb [] no_keys h = refl
  insert_last n k cb ((j, other) ∷ ls) (key i b) h =
      rw (not_less k j (omega (arith, i, h)), not_equal k j (omega (arith, i, h)))
        (ap (◌∷◌ (j, other)) (insert_last n k cb ls b h))

  erase_last :
      (n k : ℕ) (cb : Listener V W) (ls : List (ℕ × Listener V W))
      → Below n ls
      → n < k
      → erase_listener k (ls ++ (k, cb) ∷ []) ≡ ls
  erase_last n k cb [] no_keys h = rw (==_refl k) refl
  erase_last n k cb ((j, other) ∷ ls) (key i b) h =
      rw (not_equal k j (omega (arith, i, h))) (ap (◌∷◌ (j, other)) (erase_last n k cb ls b h))

  get_last :
      (n k : ℕ) (cb : Listener V W) (ls : List (ℕ × Listener V W))
      → Below n ls
      → n < k
      → get_listener k (ls ++ (k, cb) ∷ []) ≡ some cb
  unfolding get_listener
  get_last n k cb [] no_keys h = rw (==_refl k) refl
  get_last n k cb ((j, other) ∷ ls) (key i b) h =
      rw (not_equal k j (omega (arith, i, h))) (get_last n k cb ls b h)

  notify-last :
      (k : ℕ) (cb : Listener V W) (ls : List (ℕ × Listener V W)) (old new : V) (w : W)
      → notify (ls ++ (k, cb) ∷ []) old new w ≡ and_then (notify ls old new w) (cb old new)
  unfolding notify
  notify-last k cb [] old new w = and_then-returns (cb old new w)
  notify-last k cb ((j, other) ∷ ls) old new w =
      and_then-same (other old new w) (notify (ls ++ (k, cb) ∷ []) old new)
        (λ w'. and_then (notify ls old new w') (cb old new)) (notify-last k cb ls old new)
      ∙ sym (and_then-and_then (other old new w) (notify ls old new) (cb old new))

  -- The keys of every variable are at most the last one given out for its type.
  unfoldable pub Numbered : Config V W → Type 0
  Numbered c = (p : ℕ) → Below (c.fun_id (c.vars p).type) (c.vars p).listeners

  listening : ℕ → Listener V W → Config V W → ConfigVar V W
  listening p cb c =
      let v = c.vars p in record v { listeners = v.listeners ++ (c.fun_id v.type + 1, cb) ∷ [] }

  pub added_id :
      (p : ℕ) (cb : Listener V W) (c : Config V W)
      → c.fun_id (c.vars p).type + 1 < 2 ^ 64
      → (add_listener p cb c).0 ≡ c.fun_id (c.vars p).type + 1
  unfolding add_listener
  added_id p cb c h = omega (arith, h)

  added_vars :
      (p : ℕ) (cb : Listener V W) (c : Config V W)
      → Numbered c
      → c.fun_id (c.vars p).type + 1 < 2 ^ 64
      → ((add_listener p cb c).1).vars p ≡ listening p cb c
  unfolding add_listener listening Numbered
  added_vars p cb c n h =
      let v = c.vars p in
      let id : (c.fun_id v.type + 1) % 2 ^ 64 ≡ c.fun_id v.type + 1 = omega (arith, h) in
      rw (==_refl p) (
        ap (λ (ls : List (ℕ × Listener V W)). record v { listeners = ls })
          (ap (λ (k : ℕ). insert_listener k cb v.listeners) id
            ∙ insert_last (c.fun_id v.type) (c.fun_id v.type + 1) cb v.listeners (n p)
                (omega arith)))

  -- What a call does to the program
  abbrev pub program_of : Outcome (Config V W × W) → Outcome W
  program_of (returns r) = returns r.1
  program_of (throws r) = throws r.1

  program_of-assign :
      (p : ℕ) (val : V) (c : Config V W) (o : Outcome W) → program_of (assign p val c o) ≡ o
  program_of-assign p val c (returns w) = refl
  program_of-assign p val c (throws w) = refl

  -- A new value goes to all listeners.
  set_value-notify :
      (equal : V → V → Bool) (p : ℕ) (val : V) (c : Config V W) (w : W)
      → equal val (c.vars p).val ≡ false
      → program_of (set_value equal p val c w) ≡ notify (c.vars p).listeners (c.vars p).val val w
  unfolding set_value
  set_value-notify equal p val c w e =
      rw e (program_of-assign p val c (notify (c.vars p).listeners (c.vars p).val val w))

  -- Where the keys do not run out and listeners do not use the configuration: when a variable gets a
  -- new value, a listener that was added last is called once, with the old value and the new one,
  -- behind the other listeners, unless one of them throws.
  pub set_value-add_listener :
      (equal : V → V → Bool) (p : ℕ) (cb : Listener V W) (val : V) (c : Config V W) (w : W)
      → Numbered c
      → c.fun_id (c.vars p).type + 1 < 2 ^ 64
      → equal val (c.vars p).val ≡ false
      → program_of (set_value equal p val (add_listener p cb c).1 w)
        ≡ and_then (program_of (set_value equal p val c w)) (cb (c.vars p).val val)
  unfolding listening
  set_value-add_listener equal p cb val c w n h e =
      let d = (add_listener p cb c).1 in
      let same_var = added_vars p cb c n h in
      let v = c.vars p in
      set_value-notify equal p val d w (ap (λ (x : ConfigVar V W). equal val x.val) same_var ∙ e)
      ∙ ap (λ (x : ConfigVar V W). notify x.listeners x.val val w) same_var
      ∙ notify-last (c.fun_id v.type + 1) cb v.listeners v.val val w
      ∙ ap (λ (o : Outcome W). and_then o (cb v.val val)) (sym (set_value-notify equal p val c w e))

  added_other :
      (p q : ℕ) (cb : Listener V W) (c : Config V W)
      → (p == q) ≡ false
      → ((add_listener p cb c).1).vars q ≡ c.vars q
  unfolding add_listener
  added_other p q cb c e = rw e refl

  -- Where the keys do not run out: `getListener` of the key that `addListener` returned gives the
  -- listener, and `delListener` of it gives back all variables as they were.
  pub del_listener-add_listener :
      (p : ℕ) (cb : Listener V W) (c : Config V W)
      → Numbered c
      → c.fun_id (c.vars p).type + 1 < 2 ^ 64
      → (get_listener (add_listener p cb c).0 ((add_listener p cb c).1.vars p).listeners ≡ some cb)
        × ((q : ℕ)
            → (del_listener p (add_listener p cb c).0 (add_listener p cb c).1).vars q ≡ c.vars q)
  unfolding del_listener listening Numbered
  del_listener-add_listener p cb c n h =
      let v = c.vars p in
      let i = c.fun_id v.type in
      let d = (add_listener p cb c).1 in
      let same_var = added_vars p cb c n h in
      (
        rw (added_id p cb c h) (
            ap (λ (x : ConfigVar V W). get_listener (i + 1) x.listeners) same_var
            ∙ get_last i (i + 1) cb v.listeners (n p) (omega arith)),
        λ (q : ℕ). elim (Bool-cases (p == q)) [
          | inr e ↦ rw e (added_other p q cb c e)
          | inl e ↦
              rw (e, added_id p cb c h)
                (ap
                    (λ (x : ConfigVar V W). record x {
                      listeners = erase_listener (i + 1) x.listeners;
                    })
                    same_var
                  ∙ ap (λ (ls : List (ℕ × Listener V W)). record v { listeners = ls })
                      (erase_last i (i + 1) cb v.listeners (n p) (omega arith))
                  ∙ ap (λ (k : ℕ). c.vars k) ((==_iff p q).0 e))
        ],
      )
