-- ===== src/Config.antt =====
-- C++高性能服务器/atpdxy/config/config.h and config.cpp: the variables of the configuration, their
-- listeners, and what a YAML document sets. A value of any `T` is a `V`, and the number of a variable
-- tells which `T` it is. A listener is what it does to the rest of the program, and it may throw; one
-- that uses the configuration itself is left out, as are descriptions and locks.
pub mod Listeners
pub mod Yaml
pub mod Registry
mod Runs
mod Examples
use cpp_library.Base.{
  ℕ, ◌+◌, ◌%◌, ◌^◌, Bool, true, false, ◌&&◌, ◌||◌, Option, none, some, List, [], ◌∷◌, ◌++◌, ◌==◌,
  ltb, leb, same, if◌then◌else◌, map,
}

-- The characters that `find_first_not_of` passes over
abbrev pub allowed : ℕ → Bool
allowed c = (leb b'a' c && leb c b'z') || (c == b'.' || (c == b'_' || (leb b'0' c && leb c b'8')))

abbrev pub valid_name : List ℕ → Bool
valid_name [] = true
valid_name (c ∷ cs) = allowed c && valid_name cs

-- `::tolower` of the "C" locale
abbrev pub tolower : ℕ → ℕ
tolower c = if leb b'A' c && leb c b'Z' then c + 32 else c

-- How a call ends: it returns, or a `std::exception` leaves it. `A` is the state then.
pub data Outcome (A : Type 0) : Type 0 where
  returns throws : A → Outcome A

-- A call after one that returned
abbrev pub and_then : {A : Type 0} → Outcome A → (A → Outcome A) → Outcome A
and_then (returns a) f = f a
and_then (throws a) f = throws a

abbrev pub state_of : {A : Type 0} → Outcome A → A
state_of (returns a) = a
state_of (throws a) = a

abbrev pub Listener : Type 0 → Type 0 → Type 0
Listener V W = V → V → W → Outcome W

-- `ConfigVar`; `listeners` is the map `m_cbs` in the order of its keys.
pub record ConfigVar (V W : Type 0) : Type 0 where
  pub name : List ℕ
  pub type : ℕ
  pub val : V
  pub listeners : List (ℕ × Listener V W)

-- `s_datas` with its variables, and the `s_fun_id` of every `ConfigVar<T>`
pub record Config (V W : Type 0) : Type 0 where
  pub datas : List (List ℕ × ℕ)
  pub vars : ℕ → ConfigVar V W
  pub fresh : ℕ
  pub fun_id : ℕ → ℕ

-- What `lookUp` returns: a variable, a null pointer, or `std::invalid_argument`
pub data Found : Type 0 where
  found : ℕ → Found
  null invalid : Found

-- `find` in the map `s_datas`
abbrev pub lookup : List ℕ → List (List ℕ × ℕ) → Option ℕ
lookup n [] = none
lookup n ((m, p) ∷ ds) = if same m n then some p else lookup n ds

module _ {V W : Type 0} where
  abbrev pub put_var : ℕ → ConfigVar V W → Config V W → Config V W
  put_var p v c = record c { vars = λ q. if p == q then v else c.vars q }

  -- `m_cbs[key]=cb`
  abbrev pub insert_listener : ℕ → Listener V W → List (ℕ × Listener V W) → List (ℕ × Listener V W)
  insert_listener k cb [] = (k, cb) ∷ []
  insert_listener k cb ((j, other) ∷ ls) =
      let behind = (j, other) ∷ insert_listener k cb ls in
      if ltb k j then (k, cb) ∷ (j, other) ∷ ls else if k == j then (k, cb) ∷ ls else behind

  -- `m_cbs.erase(key)`
  abbrev pub erase_listener : ℕ → List (ℕ × Listener V W) → List (ℕ × Listener V W)
  erase_listener k [] = []
  erase_listener k ((j, cb) ∷ ls) =
      let behind = (j, cb) ∷ erase_listener k ls in if k == j then ls else behind

  -- `ConfigVar::ConfigVar`
  unfoldable pub new_var : List ℕ → ℕ → V → ConfigVar V W
  new_var name type val = record { name = map tolower name; type = type; val = val; listeners = [] }

  -- `ConfigVar::addListener`
  unfoldable pub add_listener : ℕ → Listener V W → Config V W → ℕ × Config V W
  add_listener p cb c =
      let v = c.vars p in
      let id = (c.fun_id v.type + 1) % 2 ^ 64 in
      let c' = record c { fun_id = λ t. if v.type == t then id else c.fun_id t } in
      (id, put_var p (record v { listeners = insert_listener id cb v.listeners }) c')

  -- `ConfigVar::delListener`
  unfoldable pub del_listener : ℕ → ℕ → Config V W → Config V W
  del_listener p k c =
      let v = c.vars p in put_var p (record v { listeners = erase_listener k v.listeners }) c

  -- `ConfigVar::getListener`
  unfoldable pub get_listener : ℕ → List (ℕ × Listener V W) → Option (Listener V W)
  get_listener k [] = none
  get_listener k ((j, cb) ∷ ls) = if k == j then some cb else get_listener k ls

  -- `ConfigVar::clearListener`
  unfoldable pub clear_listener : ℕ → Config V W → Config V W
  clear_listener p c = let v = c.vars p in put_var p (record v { listeners = [] }) c

  -- The loop over the listeners in `setValue`
  unfoldable pub notify : List (ℕ × Listener V W) → V → V → W → Outcome W
  notify [] old new w = returns w
  notify ((k, cb) ∷ ls) old new w = and_then (cb old new w) (notify ls old new)

  -- `m_val=val` behind the loop in `setValue`
  abbrev pub assign : ℕ → V → Config V W → Outcome W → Outcome (Config V W × W)
  assign p val c (returns w) = returns (put_var p (record (c.vars p) { val = val }) c, w)
  assign p val c (throws w) = throws (c, w)

  -- `Config::lookUp` with a default value
  unfoldable pub look_up : ℕ → List ℕ → V → Config V W → Found × Config V W
  look_up type name val c = elim (lookup name c.datas) [
    | some p ↦ (if (c.vars p).type == type then found p else null, c)
    | none ↦
        if valid_name name
        then (
          found c.fresh,
          record (put_var c.fresh (new_var name type val) c) {
            datas = (name, c.fresh) ∷ c.datas;
            fresh = c.fresh + 1;
          },
        )
        else (invalid, c)
  ]

  -- `Config::lookUp` without one
  unfoldable pub look_up_only : ℕ → List ℕ → Config V W → Found
  look_up_only type name c = elim (lookup name c.datas) [
    | some p ↦ if (c.vars p).type == type then found p else null
    | none ↦ null
  ]

  unfoldable pub new_config : ConfigVar V W → Config V W
  new_config v = record { datas = []; vars = λ p. v; fresh = 0; fun_id = λ t. 0 }

  module _ (equal : V → V → Bool) where
    -- `ConfigVar::setValue`, with the program before and after
    unfoldable pub set_value : ℕ → V → Config V W → W → Outcome (Config V W × W)
    set_value p val c w =
        let v = c.vars p in
        if equal val v.val then returns (c, w) else assign p val c (notify v.listeners v.val val w)
