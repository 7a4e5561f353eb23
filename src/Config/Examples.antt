-- ===== src/Config/Examples.antt =====
-- config.h and config.cpp: each theorem on a configuration with a variable and a listener that notes the
-- values it is called with.
use cpp_library.Base.{
  ℕ, ◌==◌, ◌≡◌, refl, Option, some, List, [], ◌∷◌, ◌++◌, arith, length, if◌then◌else◌,
}
use cpp_library.Config.{
  Listener, ConfigVar, Config, null, invalid, new_var, add_listener, del_listener, get_listener,
  look_up, look_up_only, notify, set_value, new_config, returns, throws, and_then,
}
use cpp_library.Config.Listeners.{program_of, set_value-add_listener, del_listener-add_listener}
use cpp_library.Config.Yaml.{
  Node, scalar, mapping, no_members, member, list_all_member, list_each, from_string, load_member,
  load_all, load_from_yaml,
}
use cpp_library.Config.Runs.{Inv, looks_up, Reach, starts, steps, Reach-Registered}

abbrev port : List ℕ
port = b'p' ∷ b'o' ∷ b'r' ∷ b't' ∷ []

abbrev host : List ℕ
host = b'h' ∷ []

abbrev unset : ConfigVar ℕ (List ℕ)
unset = record { name = []; type = 0; val = 0; listeners = [] }

-- Two variables, `port` and `h`
abbrev first : Config ℕ (List ℕ)
first = (look_up 0 port 80 (new_config unset)).1

abbrev both : Config ℕ (List ℕ)
both = (look_up 0 host 1 first).1

abbrev notes : Listener ℕ (List ℕ)
notes old new w = returns (w ++ old ∷ new ∷ [])

abbrev text_length : ℕ → List ℕ → Option ℕ
text_length type s = some (length s)

abbrev no_text : Node → List ℕ
no_text n = []

wrong_type : look_up_only 1 port both ≡ null
unfolding look_up new_config new_var look_up_only
wrong_type = refl

capital_refused : (look_up 0 (b'A' ∷ []) 1 both).0 ≡ invalid
unfolding look_up new_config new_var
capital_refused = refl

nine_refused : (look_up 0 (b'p' ∷ b'9' ∷ []) 1 both).0 ≡ invalid
unfolding look_up new_config new_var
nine_refused = refl

both-Reach : Reach ◌==◌ text_length no_text both []
both-Reach = steps (steps (starts unset [] refl) (looks_up 0 port 80)) (looks_up 0 host 1)

Reach-Registered_example : Inv both
Reach-Registered_example = Reach-Registered ◌==◌ text_length no_text both [] both-Reach

both-Inv : Inv both
both-Inv = Reach-Registered ◌==◌ text_length no_text both [] both-Reach

set_value-add_listener_example :
    program_of (set_value ◌==◌ 0 443 (add_listener 0 notes both).1 [])
    ≡ and_then (program_of (set_value ◌==◌ 0 443 both [])) (notes 80 443)
unfolding look_up new_config new_var
set_value-add_listener_example =
    set_value-add_listener ◌==◌ 0 notes 443 both [] both-Inv.numbered (omega arith) refl

del_listener-add_listener_example :
    (get_listener (add_listener 0 notes both).0 ((add_listener 0 notes both).1.vars 0).listeners
      ≡ some notes)
    × ((q : ℕ)
        → (del_listener 0 (add_listener 0 notes both).0 (add_listener 0 notes both).1).vars q
          ≡ both.vars q)
unfolding look_up new_config new_var
del_listener-add_listener_example =
    del_listener-add_listener 0 notes both both-Inv.numbered (omega arith)

-- A document that sets `port`
abbrev document : Node
document = mapping (member port (scalar (1 ∷ 2 ∷ 3 ∷ [])) no_members)

abbrev loaded : Config ℕ (List ℕ)
loaded = record both {
  vars = λ q. if 0 == q then record (both.vars 0) { val = 3 } else both.vars q;
}

-- A listener that throws when `port` is set: `setValue` throws too and leaves the variable.
abbrev refuses : Listener ℕ (List ℕ)
refuses old new w = throws (w ++ new ∷ [])

refused : program_of (set_value ◌==◌ 0 443 (add_listener 0 refuses both).1 []) ≡ throws (443 ∷ [])
unfolding set_value notify add_listener look_up new_config new_var
refused = refl

document_sets : load_from_yaml ◌==◌ text_length no_text document both [] ≡ (loaded, [])
unfolding load_from_yaml load_all load_member from_string list_all_member list_each set_value
    look_up new_config new_var notify
document_sets = refl
