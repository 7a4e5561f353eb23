-- ===== src/Config/Runs.antt =====
-- config.h and config.cpp: every sequence of calls on the configuration.
use mathlib.Core.Path.{subst}
use cpp_library.Base.{
  ℕ, ◌+◌, ◌%◌, ◌^◌, ◌<◌, Bool, false, Option, List, [], ◌≡◌, refl, sym, ap, ◌==◌, Bool-cases,
  Option-cases, inl, inr, ==_refl, ==_iff, if◌then◌else◌, arith,
}
use cpp_library.Config.{
  valid_name, Listener, ConfigVar, Config, put_var, new_var, insert_listener, add_listener,
  del_listener, clear_listener, lookup, look_up, state_of, set_value, new_config,
}
use cpp_library.Config.Listeners.{
  Below, no_keys, Below-weaker, Below-erase, Below-append, insert_last, Numbered,
}
use cpp_library.Config.Registry.{
  map-tolower, Registered, no_names, name_of, Registered-vars, OnlyValues, set_value_lem,
}
use cpp_library.Config.Yaml.{Node, list_all_member, load_from_yaml}
use cpp_library.Config.Yaml.Laws.{OnlyValues-Registered, load_all_lem}

other : (b q : ℕ) → q < b → (b == q) ≡ false
other b q h = ground arith

module _ {V W : Type 0} where
  -- The names are registered as they should be, and the keys of the listeners are numbered.
  pub record Inv (c : Config V W) : Type 0 where
    pub registered : Registered c.vars c.fresh c.datas
    pub numbered : Numbered c

  OnlyValues-Inv : {c c' : Config V W} → OnlyValues c c' → Inv c → Inv c'
  unfolding Numbered
  OnlyValues-Inv {c} {c'} o i = record {
    registered = OnlyValues-Registered o i.registered;
    numbered = λ p.
        let type : (c'.vars p).type ≡ (c.vars p).type =
          ap (λ (v : ConfigVar V W). v.type) (o.var p) in
        let ls : (c'.vars p).listeners ≡ (c.vars p).listeners =
          ap (λ (v : ConfigVar V W). v.listeners) (o.var p) in
        rw (o.fun_id, type, ls) (i.numbered p);
  }

  -- The listeners of the variable `p` become `ls`.
  relisten-Inv :
      (p : ℕ) (ls : List (ℕ × Listener V W)) (c : Config V W)
      → Below (c.fun_id (c.vars p).type) ls
      → Inv c
      → Inv (put_var p (record (c.vars p) { listeners = ls }) c)
  unfolding Numbered
  relisten-Inv p ls c b i = record {
    registered =
        Registered-vars c.vars _ c.fresh c.datas
          (λ q k. elim (Bool-cases (p == q)) [
            | inl e ↦ rw e (ap (λ (x : ℕ). (c.vars x).name) ((==_iff p q).0 e))
            | inr e ↦ rw e refl
          ])
          i.registered;
    numbered = λ q. elim (Bool-cases (p == q)) [ inl e ↦ rw e b | inr e ↦ rw e (i.numbered q) ];
  }

  add_listener-Inv :
      (p : ℕ) (cb : Listener V W) (c : Config V W)
      → c.fun_id (c.vars p).type + 1 < 2 ^ 64
      → Inv c
      → Inv (add_listener p cb c).1
  unfolding add_listener Numbered
  add_listener-Inv p cb c h i =
      let v = c.vars p in
      let n = c.fun_id v.type in
      let id = (n + 1) % 2 ^ 64 in
      let next : id ≡ n + 1 = omega (arith, h) in
      let c1 : Config V W = record c { fun_id = λ t. if v.type == t then id else c.fun_id t } in
      let kept : Inv c1 = record {
        registered = i.registered;
        numbered = λ q. elim (Bool-cases (v.type == (c.vars q).type)) [
          | inr e ↦ rw e (i.numbered q)
          | inl e ↦
              let same_type = (==_iff v.type (c.vars q).type).0 e in
              rw e (
                Below-weaker (c.vars q).listeners (omega (arith, next, ap c.fun_id same_type))
                  (i.numbered q))
        ];
      } in
      let below : Below (n + 1) (insert_listener id cb v.listeners) = rw next (
        rw (insert_last n (n + 1) cb v.listeners (i.numbered p) (omega arith)) (
          Below-append (n + 1) cb v.listeners (omega arith)
            (Below-weaker v.listeners (omega arith) (i.numbered p)))) in
      relisten-Inv p (insert_listener id cb v.listeners) c1
        (rw (==_refl v.type)
          (subst (λ (k : ℕ). Below k (insert_listener id cb v.listeners)) (sym next) below))
        kept

  look_up-Inv :
      (type : ℕ) (n : List ℕ) (val : V) (c : Config V W) → Inv c → Inv (look_up type n val c).1
  unfolding look_up new_var Numbered
  look_up-Inv type n val c i = elim (Option-cases (lookup n c.datas)) [
    | inr (p, e) ↦ rw (e, look_up) i
    | inl e ↦ elim (Bool-cases (valid_name n)) [
      | inr h ↦ rw (e, look_up) (rw h i)
      | inl h ↦
          rw (e, look_up)
            (rw h (record {
              registered =
                  name_of (omega arith)
                    (Registered-vars c.vars _ c.fresh c.datas (λ q k. rw (other c.fresh q k) refl)
                      i.registered)
                    h (rw (==_refl c.fresh) (map-tolower n h)) e;
              numbered = λ q. elim (Bool-cases (c.fresh == q)) [
                | inl f ↦ rw f no_keys
                | inr f ↦ rw f (i.numbered q)
              ];
            }))
    ]
  ]

  numbered_at :
      (p : ℕ) {c : Config V W} → Inv c → Below (c.fun_id (c.vars p).type) (c.vars p).listeners
  unfolding Numbered
  numbered_at p i = i.numbered p

  first-Inv : (v : ConfigVar V W) → v.listeners ≡ [] → Inv (new_config v)
  unfolding new_config Numbered
  first-Inv v e = record { registered = no_names; numbered = λ p. rw e no_keys }

  module _ (equal : V → V → Bool) (from_str : ℕ → List ℕ → Option V) (print : Node → List ℕ) where
    -- One call, with the program before and after it
    pub data Step : Config V W → W → Config V W → W → Type 0 where
      looks_up :
          {c : Config V W} {w : W} (type : ℕ) (n : List ℕ) (val : V)
          → Step c w (look_up type n val c).1 w
      sets :
          {c : Config V W} {w : W} (p : ℕ) (val : V)
          → Step c w
              (state_of (set_value equal p val c w)).0
              (state_of (set_value equal p val c w)).1
      listens :
          {c : Config V W} {w : W} (p : ℕ) (cb : Listener V W)
          → c.fun_id (c.vars p).type + 1 < 2 ^ 64
          → Step c w (add_listener p cb c).1 w
      unlistens : {c : Config V W} {w : W} (p k : ℕ) → Step c w (del_listener p k c) w
      clears : {c : Config V W} {w : W} (p : ℕ) → Step c w (clear_listener p c) w
      loads :
          {c : Config V W} {w : W} (root : Node)
          → Step c w
              (load_from_yaml equal from_str print root c w).0
              (load_from_yaml equal from_str print root c w).1

    pub data Reach : Config V W → W → Type 0 where
      starts : (v : ConfigVar V W) (w : W) → v.listeners ≡ [] → Reach (new_config v) w
      steps : {c c' : Config V W} {w w' : W} → Reach c w → Step c w c' w' → Reach c' w'

    Step-Inv : {c : Config V W} {w : W} {c' : Config V W} {w' : W} → Inv c → Step c w c' w' → Inv c'
    unfolding del_listener clear_listener load_from_yaml
    Step-Inv {c} i (looks_up type n val) = look_up-Inv type n val c i
    Step-Inv {c} {w} i (sets p val) =
        let (o, _) = set_value_lem equal p val c w in OnlyValues-Inv o i
    Step-Inv {c} i (listens p cb h) = add_listener-Inv p cb c h i
    Step-Inv {c} i (unlistens p k) =
        relisten-Inv p _ c (Below-erase k (c.vars p).listeners (numbered_at p i)) i
    Step-Inv {c} i (clears p) = relisten-Inv p [] c no_keys i
    Step-Inv {c} {w} i (loads root) =
        let (o, _) = load_all_lem equal from_str print (list_all_member [] root) c w in
        OnlyValues-Inv o i

    -- After every sequence of calls in which the keys of the listeners do not run out, each registered
    -- name is valid, registered once and the name of its variable, no two names have the same
    -- variable, and the keys of each variable's listeners are numbers that were given out.
    pub Reach-Registered : (c : Config V W) (w : W) → Reach c w → Inv c
    Reach-Registered c w (starts v _ e) = first-Inv v e
    Reach-Registered c w (steps r s) = Step-Inv (Reach-Registered _ _ r) s
