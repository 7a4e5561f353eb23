-- ===== src/Config/Registry.antt =====
-- config.h: the names under which variables are registered, and what `setValue` leaves as it is.
use cpp_library.Base.{
  and_both, ℕ, ◌<◌, Bool, true, false, none, some, List, [], ◌∷◌, ◌≡◌, refl, sym, ap, ◌∙◌, ◌==◌,
  Bool-cases, inl, inr, ==_iff, arith, same, same_sound, map, none≢some, some-injective,
}
use cpp_library.Config.{
  allowed, valid_name, tolower, ConfigVar, Config, put_var, notify, lookup, set_value, Outcome,
  returns, throws, state_of, assign,
}

tolower-allowed : (c : ℕ) → allowed c ≡ true → tolower c ≡ c
tolower-allowed c h = ground arith

-- A valid name has no capital letter.
pub map-tolower : (n : List ℕ) → valid_name n ≡ true → map tolower n ≡ n
map-tolower [] h = refl
map-tolower (c ∷ cs) h =
    let (a, b) = and_both (allowed c) (valid_name cs) h in
    rw (tolower-allowed c a, map-tolower cs b) refl

module _ {V W : Type 0} where
  -- Every name is valid, is registered once, is the name of its variable, and each variable is made
  -- before those in front of it and before the address `b`.
  pub data Registered (vars : ℕ → ConfigVar V W) : ℕ → List (List ℕ × ℕ) → Type 0 where
    no_names : {b : ℕ} → Registered vars b []
    name_of :
        {b p : ℕ} {n : List ℕ} {ds : List (List ℕ × ℕ)}
        → p < b
        → Registered vars p ds
        → valid_name n ≡ true
        → (vars p).name ≡ n
        → lookup n ds ≡ none
        → Registered vars b ((n, p) ∷ ds)

  pub Registered-vars :
      (vars vars' : ℕ → ConfigVar V W) (b : ℕ) (ds : List (List ℕ × ℕ))
      → ((p : ℕ) → p < b → (vars' p).name ≡ (vars p).name)
      → Registered vars b ds
      → Registered vars' b ds
  Registered-vars vars vars' b [] f no_names = no_names
  Registered-vars vars vars' b ((n, p) ∷ ds) f (name_of h r v e l) =
      name_of h (Registered-vars vars vars' p ds (λ q k. f q (omega (arith, h, k))) r) v (f p h ∙ e)
        l

  pub lookup-Registered :
      (vars : ℕ → ConfigVar V W) (b : ℕ) (n : List ℕ) (ds : List (List ℕ × ℕ)) (p : ℕ)
      → Registered vars b ds
      → lookup n ds ≡ some p
      → ((vars p).name ≡ n) × (p < b)
  lookup-Registered vars b n [] p no_names e = absurd (none≢some e)
  lookup-Registered vars b n ((m, q) ∷ ds) p (name_of h r v e l) f = elim (Bool-cases (same m n)) [
    | inl s ↦
        let here : q ≡ p = some-injective (rw s at f) in
        (ap (λ (k : ℕ). (vars k).name) (sym here) ∙ e ∙ same_sound m n s, omega (arith, here, h))
    | inr s ↦ let (a, k) = lookup-Registered vars q n ds p r (rw s at f) in (a, omega (arith, k, h))
  ]

  -- `c'` is `c` up to the values of the variables.
  pub record OnlyValues (c c' : Config V W) : Type 0 where
    pub datas : c'.datas ≡ c.datas
    pub fresh : c'.fresh ≡ c.fresh
    pub fun_id : c'.fun_id ≡ c.fun_id
    pub var : (q : ℕ) → c'.vars q ≡ record (c.vars q) { val = (c'.vars q).val }

  pub OnlyValues-refl : (c : Config V W) → OnlyValues c c
  OnlyValues-refl c = record { datas = refl; fresh = refl; fun_id = refl; var = λ q. refl }

  pub OnlyValues-trans : {a b c : Config V W} → OnlyValues a b → OnlyValues b c → OnlyValues a c
  OnlyValues-trans {a} {b} {c} f g = record {
    datas = g.datas ∙ f.datas;
    fresh = g.fresh ∙ f.fresh;
    fun_id = g.fun_id ∙ f.fun_id;
    var = λ q. g.var q ∙ ap (λ (v : ConfigVar V W). record v { val = (c.vars q).val }) (f.var q);
  }

  with_value : ℕ → V → Config V W → Config V W
  with_value p val c = put_var p (record (c.vars p) { val = val }) c

  with_value-OnlyValues : (p : ℕ) (val : V) (c : Config V W) → OnlyValues c (with_value p val c)
  unfolding with_value
  with_value-OnlyValues p val c = record {
    datas = refl;
    fresh = refl;
    fun_id = refl;
    var = λ q. elim (Bool-cases (p == q)) [
      | inl e ↦ rw e (ap (λ (k : ℕ). record (c.vars k) { val = val }) ((==_iff p q).0 e))
      | inr e ↦ rw e refl
    ];
  }

  -- `setValue` changes no more than the value of its variable, whether it returns or throws.
  pub set_value_lem :
      (equal : V → V → Bool) (p : ℕ) (val : V) (c : Config V W) (w : W)
      → OnlyValues c (state_of (set_value equal p val c w)).0
        × ((q : ℕ)
            → (p == q) ≡ false
            → ((state_of (set_value equal p val c w)).0).vars q ≡ c.vars q)
  unfolding set_value with_value
  set_value_lem equal p val c w = elim (Bool-cases (equal val (c.vars p).val)) [
    | inl h ↦ rw h (OnlyValues-refl c, λ q n. refl)
    | inr h ↦ rw h (after (notify (c.vars p).listeners (c.vars p).val val w))
  ]
    where
      after :
          (o : Outcome W)
          → OnlyValues c (state_of (assign p val c o)).0
            × ((q : ℕ) → (p == q) ≡ false → ((state_of (assign p val c o)).0).vars q ≡ c.vars q)
      after (returns w0) = (with_value-OnlyValues p val c, λ q n. rw n refl)
      after (throws w0) = (OnlyValues-refl c, λ q n. refl)
