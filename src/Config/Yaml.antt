-- ===== src/Config/Yaml.antt =====
-- config.cpp: `fromString` and `loadFromYaml`. `Node` is what yaml-cpp tells of a node, `print` the
-- text that `<<` makes of one, and `from_str` the conversion of a text for a type, which may throw.
pub mod Laws
use cpp_library.Base.{
  ℕ, Bool, true, false, not, Option, none, some, List, [], ◌∷◌, ◌++◌, map, if◌then◌else◌,
}
use cpp_library.Config.{valid_name, tolower, Config, lookup, state_of, set_value}

mutual
  pub data Node : Type 0 where
    scalar : List ℕ → Node
    mapping : Members → Node
    sequence : List ℕ → Node

  pub data Members : Type 0 where
    no_members : Members
    member : List ℕ → Node → Members → Members

-- `prefix.empty()?key:prefix+"."+key`
abbrev pub joined : List ℕ → List ℕ → List ℕ
joined [] k = k
joined (c ∷ cs) k = (c ∷ cs) ++ b'.' ∷ k

-- `listAllMember`, with the output as the result
unfoldable mutual
  pub list_all_member : List ℕ → Node → List (List ℕ × Node)
  list_all_member prefix (scalar s) = if valid_name prefix then (prefix, scalar s) ∷ [] else []
  list_all_member prefix (sequence s) = if valid_name prefix then (prefix, sequence s) ∷ [] else []
  list_all_member prefix (mapping ms) =
      let below = list_each prefix ms in
      if valid_name prefix then (prefix, mapping ms) ∷ below else []

  pub list_each : List ℕ → Members → List (List ℕ × Node)
  list_each prefix no_members = []
  list_each prefix (member k n ms) = list_all_member (joined prefix k) n ++ list_each prefix ms

abbrev pub text_of : (Node → List ℕ) → Node → List ℕ
text_of print (scalar s) = s
text_of print (mapping ms) = print (mapping ms)
text_of print (sequence s) = print (sequence s)

module _ {V W : Type 0} (equal : V → V → Bool) (from_str : ℕ → List ℕ → Option V)
    (print : Node → List ℕ) where
  -- `ConfigVar::fromString`, which catches what is thrown and returns false in every case
  unfoldable pub from_string : ℕ → List ℕ → Config V W → W → Config V W × W
  from_string p s c w = elim (from_str (c.vars p).type s) [
    | none ↦ (c, w)
    | some v ↦ state_of (set_value equal p v c w)
  ]

  -- One round of the loop in `loadFromYaml`
  unfoldable pub load_member : List ℕ → Node → Config V W → W → Config V W × W
  load_member [] n c w = (c, w)
  load_member (k ∷ ks) n c w = elim (lookup (map tolower (k ∷ ks)) c.datas) [
    | none ↦ (c, w)
    | some p ↦ from_string p (text_of print n) c w
  ]

  unfoldable pub load_all : List (List ℕ × Node) → Config V W → W → Config V W × W
  load_all [] c w = (c, w)
  load_all ((k, n) ∷ ns) c w = let r = load_member k n c w in load_all ns r.0 r.1

  -- `Config::loadFromYaml`
  unfoldable pub load_from_yaml : Node → Config V W → W → Config V W × W
  load_from_yaml root c w = load_all (list_all_member [] root) c w
