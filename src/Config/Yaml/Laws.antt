-- ===== src/Config/Yaml/Laws.antt =====
-- config.cpp: what `loadFromYaml` changes.
use cpp_library.Base.{
  ℕ, Bool, true, false, Option, some, List, [], ◌∷◌, ◌++◌, ◌≡◌, refl, sym, ap, ◌∙◌, ◌==◌, ◌||◌,
  Bool-cases, Option-cases, inl, inr, ==_iff, if◌then◌else◌, true≢false, same, same_refl, map,
}
use cpp_library.Config.{valid_name, tolower, ConfigVar, Config, lookup}
use cpp_library.Config.Registry.{
  map-tolower, Registered, Registered-vars, lookup-Registered, OnlyValues, OnlyValues-refl,
  OnlyValues-trans, set_value_lem,
}
use cpp_library.Config.Yaml.{
  Node, scalar, mapping, sequence, Members, no_members, member, joined, list_all_member, list_each,
  text_of, from_string, load_member, load_all,
}

-- Every name in the list is valid.
pub data AllValid : List (List ℕ × Node) → Type 0 where
  none_listed : AllValid []
  valid :
      {k : List ℕ} {n : Node} {ns : List (List ℕ × Node)}
      → valid_name k ≡ true
      → AllValid ns
      → AllValid ((k, n) ∷ ns)

AllValid-append : (ns ms : List (List ℕ × Node)) → AllValid ns → AllValid ms → AllValid (ns ++ ms)
AllValid-append [] ms none_listed b = b
AllValid-append (n ∷ ns) ms (valid h a) b = valid h (AllValid-append ns ms a b)

AllValid-when :
    (k : List ℕ) (n : Node) (ns : List (List ℕ × Node))
    → AllValid ns
    → AllValid (if valid_name k then (k, n) ∷ ns else [])
AllValid-when k n ns a = elim (Bool-cases (valid_name k)) [
  | inl h ↦ rw h (valid h a)
  | inr h ↦ rw h none_listed
]

mutual
  unfolding list_all_member list_each

  list_all_member-AllValid : (prefix : List ℕ) (n : Node) → AllValid (list_all_member prefix n)
  list_all_member-AllValid prefix (scalar s) = AllValid-when prefix (scalar s) [] none_listed
  list_all_member-AllValid prefix (sequence s) = AllValid-when prefix (sequence s) [] none_listed
  list_all_member-AllValid prefix (mapping ms) =
      AllValid-when prefix (mapping ms) _ (list_each-AllValid prefix ms)

  list_each-AllValid : (prefix : List ℕ) (ms : Members) → AllValid (list_each prefix ms)
  list_each-AllValid prefix no_members = none_listed
  list_each-AllValid prefix (member k n ms) =
      AllValid-append _ _ (list_all_member-AllValid (joined prefix k) n)
        (list_each-AllValid prefix ms)

-- Whether the list has an entry of the name
abbrev pub listed : List ℕ → List (List ℕ × Node) → Bool
listed n [] = false
listed n ((k, x) ∷ ns) = same k n || listed n ns

or_false : (a b : Bool) → (a || b) ≡ false → (a ≡ false) × (b ≡ false)
or_false true b e = absurd (true≢false e)
or_false false b e = (refl, e)

module _ {V W : Type 0} where
  pub OnlyValues-Registered :
      {c c' : Config V W}
      → OnlyValues c c'
      → Registered c.vars c.fresh c.datas
      → Registered c'.vars c'.fresh c'.datas
  OnlyValues-Registered {c} {c'} o r =
      rw (o.fresh, o.datas)
        (Registered-vars c.vars c'.vars c.fresh c.datas
          (λ p k. ap (λ (v : ConfigVar V W). v.name) (o.var p)) r)

  -- What a call with the nodes `ns` may change
  unfoldable pub Spares : List (List ℕ × Node) → Config V W → Config V W → Type 0
  Spares ns c c' =
      (n : List ℕ) (p : ℕ)
      → AllValid ns
      → Registered c.vars c.fresh c.datas
      → lookup n c.datas ≡ some p
      → listed n ns ≡ false
      → c'.vars p ≡ c.vars p

  module _ (equal : V → V → Bool) (from_str : ℕ → List ℕ → Option V) (print : Node → List ℕ) where
    from_string_lem :
        (q : ℕ) (s : List ℕ) (c : Config V W) (w : W)
        → let r = from_string equal from_str print q s c w in
          OnlyValues c r.0 × ((p : ℕ) → (q == p) ≡ false → (r.0).vars p ≡ c.vars p)
    unfolding from_string
    from_string_lem q s c w = elim (Option-cases (from_str (c.vars q).type s)) [
      | inl h ↦ rw (h, from_string) (OnlyValues-refl c, λ p n. refl)
      | inr (v, h) ↦ rw (h, from_string) (set_value_lem equal q v c w)
    ]

    other_address :
        (n k : List ℕ) (p q : ℕ) (c : Config V W)
        → Registered c.vars c.fresh c.datas
        → lookup n c.datas ≡ some p
        → lookup k c.datas ≡ some q
        → same k n ≡ false
        → (q == p) ≡ false
    other_address n k p q c r e f d = elim (Bool-cases (q == p)) [
      | inr h ↦ h
      | inl h ↦
          let (a, _) = lookup-Registered c.vars c.fresh n c.datas p r e in
          let (b, _) = lookup-Registered c.vars c.fresh k c.datas q r f in
          let names : k ≡ n = sym b ∙ ap (λ (x : ℕ). (c.vars x).name) ((==_iff q p).0 h) ∙ a in
          absurd (true≢false (sym (same_refl n) ∙ ap (λ (m : List ℕ). same m n) (sym names) ∙ d))
    ]

    load_member_lem :
        (k : List ℕ) (x : Node) (c : Config V W) (w : W)
        → let r = load_member equal from_str print k x c w in
          OnlyValues c r.0
          × ((n : List ℕ) (p : ℕ)
              → Registered c.vars c.fresh c.datas
              → lookup n c.datas ≡ some p
              → valid_name k ≡ true
              → same k n ≡ false
              → (r.0).vars p ≡ c.vars p)
    unfolding load_member
    load_member_lem [] x c w = (OnlyValues-refl c, λ n p r l v d. refl)
    load_member_lem (k ∷ ks) x c w = elim (Option-cases (lookup (map tolower (k ∷ ks)) c.datas)) [
      | inl h ↦ rw (h, load_member) (OnlyValues-refl c, λ n p r l v d. refl)
      | inr (q, h) ↦
          let (o, f) = from_string_lem q (text_of print x) c w in
          rw (h, load_member)
            (
              o,
              λ n p r l v d. f p (
                  other_address n (k ∷ ks) p q c r l
                    (ap (λ (m : List ℕ). lookup m c.datas) (sym (map-tolower (k ∷ ks) v)) ∙ h) d),
            )
    ]

    pub load_all_lem :
        (ns : List (List ℕ × Node)) (c : Config V W) (w : W)
        → let r = load_all equal from_str print ns c w in OnlyValues c r.0 × Spares ns c r.0
    unfolding load_all Spares
    load_all_lem [] c w = (OnlyValues-refl c, λ n p a r l d. refl)
    load_all_lem ((k, x) ∷ ns) c w =
        let m = load_member equal from_str print k x c w in
        let (o, f) = load_member_lem k x c w in
        let e = load_all equal from_str print ns m.0 m.1 in
        let (o', g) = load_all_lem ns m.0 m.1 in
        (
          OnlyValues-trans {a = c} {b = m.0} {c = e.0} o o',
          λ n p a r l d. spared m.0 e.0 n p a r l d o f g,
        )
      where
        spared :
            (c1 c2 : Config V W) (n : List ℕ) (p : ℕ)
            → AllValid ((k, x) ∷ ns)
            → Registered c.vars c.fresh c.datas
            → lookup n c.datas ≡ some p
            → (same k n || listed n ns) ≡ false
            → OnlyValues c c1
            → ((n : List ℕ) (p : ℕ)
                → Registered c.vars c.fresh c.datas
                → lookup n c.datas ≡ some p
                → valid_name k ≡ true
                → same k n ≡ false
                → c1.vars p ≡ c.vars p)
            → Spares ns c1 c2
            → c2.vars p ≡ c.vars p
        spared c1 c2 n p (valid v a) r l d o f g =
            let (d1, d2) = or_false (same k n) (listed n ns) d in
            g n p a (OnlyValues-Registered o r) (ap (lookup n) o.datas ∙ l) d2 ∙ f n p r l v d1
