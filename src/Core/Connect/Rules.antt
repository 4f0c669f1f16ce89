-- ===== src/Core/Connect/Rules.antt =====
-- Which task an active pair gives: `rule_match` and the two loops of `connect_active_pair`.
use inet_forth.Net.{PrincipalWire, Rule, Heap}
use inet_forth.Core.{Task, Program}
use inet_forth.Core.Connect.{rule_match, first_match, connect_active_pair, or_else}
use inet_forth.Base.{
  Bool-cases, List, Option, [], arith, false, if◌then◌else◌, inl, inr, none, ok, refl, some, update,
  ℕ, ◌&&◌, ◌++◌, ◌==◌, ◌∷◌, ◌≡◌, ◌≢◌, ◌⊎◌,
}

abbrev pub Among : Rule → List Rule → Type 0
Among r [] = ⊥
Among r (x ∷ xs) = (r ≡ x) ⊎ Among r xs

-- The rule is for nodes of these two constructors, in this order.
abbrev pub IsFor : Rule → (lc rc : ℕ) → Type 0
IsFor r lc rc = (r.left_node_ctor ≡ lc) × (r.right_node_ctor ≡ rc)

-- The task pairs the two wires in the order of its rule.
abbrev pub Fits : Task → (left right lc rc : ℕ) → Type 0
Fits t left right lc rc =
    ((t.left ≡ left) × (t.right ≡ right) × IsFor t.rule lc rc)
    ⊎ ((t.left ≡ right) × (t.right ≡ left) × IsFor t.rule rc lc)

-- A task stands for a listed rule that fits; no task means that no listed rule fits, in either order.
abbrev pub Chosen : List Rule → (left right lc rc : ℕ) → Option Task → Type 0
Chosen rules left right lc rc none =
    (r : Rule) → Among r rules → (¬ IsFor r lc rc) × (¬ IsFor r rc lc)
Chosen rules left right lc rc (some t) = Among t.rule rules × Fits t left right lc rc

Among-append_left : (r : Rule) (xs ys : List Rule) → Among r xs → Among r (xs ++ ys)
Among-append_left r [] ys h = elim h [ ]
Among-append_left r (x ∷ xs) ys (inl e) = inl e
Among-append_left r (x ∷ xs) ys (inr h) = inr (Among-append_left r xs ys h)

Among-append_right : (r : Rule) (xs ys : List Rule) → Among r ys → Among r (xs ++ ys)
Among-append_right r [] ys h = h
Among-append_right r (x ∷ xs) ys h = inr (Among-append_right r xs ys h)

Among-append_cases : (r : Rule) (xs ys : List Rule) → Among r (xs ++ ys) → Among r xs ⊎ Among r ys
Among-append_cases r [] ys h = inr h
Among-append_cases r (x ∷ xs) ys (inl e) = inl (inl e)
Among-append_cases r (x ∷ xs) ys (inr h) = elim (Among-append_cases r xs ys h) [
  | inl a ↦ inl (inr a)
  | inr b ↦ inr b
]

module _ (left right lc rc : ℕ) where
  only :
      (r : Rule)
      → (r.left_node_ctor == lc && r.right_node_ctor == rc) ≡ false
      → (r.left_node_ctor == rc && r.right_node_ctor == lc) ≡ false
      → (x : Rule) → Among x (r ∷ [])
      → (¬ IsFor x lc rc) × (¬ IsFor x rc lc)
  only r e e' x (inl i) = ((λ k. ground arith), (λ k. ground arith))
  only r e e' x (inr i) = absurd i

  rule_match-Chosen : (r : Rule) → Chosen (r ∷ []) left right lc rc (rule_match r left right lc rc)
  unfolding rule_match
  rule_match-Chosen r = elim (Bool-cases (r.left_node_ctor == lc && r.right_node_ctor == rc)) [
    | inl e ↦ rw (e, rule_match) (inl refl, inl (refl, refl, (ground arith, ground arith)))
    | inr e ↦ elim (Bool-cases (r.left_node_ctor == rc && r.right_node_ctor == lc)) [
      | inl e' ↦ rw (e, e', rule_match) (inl refl, inr (refl, refl, (ground arith, ground arith)))
      | inr e' ↦ rw (e, e', rule_match) (only r e e')
    ]
  ]

  Chosen-append :
      (xs ys : List Rule) (a b : Option Task)
      → Chosen xs left right lc rc a
      → Chosen ys left right lc rc b
      → Chosen (xs ++ ys) left right lc rc (or_else a b)
  Chosen-append xs ys (some t) b (m, f) k = (Among-append_left t.rule xs ys m, f)
  Chosen-append xs ys none (some t) h (m, f) = (Among-append_right t.rule xs ys m, f)
  Chosen-append xs ys none none h k =
      λ r m. elim (Among-append_cases r xs ys m) [ inl a ↦ h r a | inr b ↦ k r b ]

  first_match-Chosen :
      (rules : List Rule) → Chosen rules left right lc rc (first_match rules left right lc rc)
  unfolding first_match
  first_match-Chosen [] = λ r m. absurd m
  first_match-Chosen (r ∷ rules) =
      Chosen-append (r ∷ []) rules (rule_match r left right lc rc)
        (first_match rules left right lc rc) (rule_match-Chosen r) (first_match-Chosen rules)

-- What `connect_active_pair` leaves behind: the two wires name each other, and nothing else moved.
pub record Linked (h : Heap) (left right : ℕ) (a b : PrincipalWire) (g : Heap) : Type 0 where
  pub principals :
      (q : ℕ)
      → g.principal_wires q ≡ (
          if right == q
          then some (record b { oppsite = some left })
          else if left == q
          then some (record a { oppsite = some right })
          else h.principal_wires q)
  pub nodes : g.nodes ≡ h.nodes
  pub wires : g.wires ≡ h.wires

-- Two different principal wires of live nodes always make an active pair: they become each
-- other's opposite, no other wire or node changes, and a task is found exactly when a rule of one
-- of the two constructors is for them; it then holds the wires in the order of that rule.
pub connect_active_pair_lem :
    (p : Program) (h : Heap) (left right lc rc : ℕ) (a b : PrincipalWire)
    → left ≢ right
    → h.principal_wires left ≡ some a
    → h.principal_wires right ≡ some b
    → (h.nodes a.node).ctor ≡ some lc
    → (h.nodes b.node).ctor ≡ some rc
    → (o : Option Task) × (g : Heap) × (connect_active_pair p h left right ≡ ok (o, g))
      × Linked h left right a b g
      × Chosen ((p.ctors lc).rule_array ++ (p.ctors rc).rule_array) left right lc rc o
unfolding connect_active_pair
connect_active_pair_lem p h left right lc rc a b ne ea eb ca cb = (
  or_else (first_match (p.ctors lc).rule_array left right lc rc)
      (first_match (p.ctors rc).rule_array left right lc rc),
  record h {
    principal_wires =
        update (update h.principal_wires left (some (record a { oppsite = some right }))) right
          (some (record b { oppsite = some left }));
  },
  ground arith,
  record { principals = λ q. ground arith; nodes = refl; wires = refl },
  Chosen-append left right lc rc (p.ctors lc).rule_array (p.ctors rc).rule_array
      (first_match (p.ctors lc).rule_array left right lc rc)
      (first_match (p.ctors rc).rule_array left right lc rc)
      (first_match-Chosen left right lc rc (p.ctors lc).rule_array)
      (first_match-Chosen left right lc rc (p.ctors rc).rule_array),
)
