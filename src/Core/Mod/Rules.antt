-- ===== src/Core/Mod/Rules.antt =====
-- A rule that was defined is the rule that an active pair finds.
use inet_forth.Net.{node_ctor, Rule, PrincipalWire, Heap}
use inet_forth.Core.{Program, Task}
use inet_forth.Core.Connect.{connect_active_pair}
use inet_forth.Core.Connect.Rules.{Among, IsFor, Chosen, connect_active_pair_lem}
use inet_forth.Core.Mod.{Mod, mod_find, mod_define_rule, add_rule, push_rule, as_node_ctor}
use inet_forth.Base.{
  ==_refl, Bool, List, Option, [], ap, inl, inr, ne→==, none, ok, refl, some, subst, sym, ℕ, ◌++◌,
  ◌∙◌, ◌∷◌, ◌≡◌, ◌≢◌, ◌⊎◌,
}

abbrev pub rule_of : (l r f : ℕ) → Rule
rule_of l r f = record { left_node_ctor = l; right_node_ctor = r; function = f }

abbrev pub task_of : (left right : ℕ) → Rule → Task
task_of left right rule = record { left = left; right = right; rule = rule }

-- No rule of the list is for the two constructors, in either order.
abbrev pub NoneFor : List Rule → (l r : ℕ) → Type 0
NoneFor rules l r = (x : Rule) → Among x rules → (¬ IsFor x l r) × (¬ IsFor x r l)

Among-snoc : (x rule : Rule) (rs : List Rule) → Among x (rs ++ rule ∷ []) → Among x rs ⊎ (x ≡ rule)
Among-snoc x rule [] (inl e) = inr e
Among-snoc x rule [] (inr h) = elim h [ ]
Among-snoc x rule (y ∷ rs) (inl e) = inl (inl e)
Among-snoc x rule (y ∷ rs) (inr h) = elim (Among-snoc x rule rs h) [
  | inl a ↦ inl (inr a)
  | inr e ↦ inr e
]

Among-last : (rule : Rule) (rs more : List Rule) → Among rule ((rs ++ rule ∷ []) ++ more)
Among-last rule [] more = inl refl
Among-last rule (y ∷ rs) more = inr (Among-last rule rs more)

Among-parts : (x : Rule) (xs ys : List Rule) → Among x (xs ++ ys) → Among x xs ⊎ Among x ys
Among-parts x [] ys h = inr h
Among-parts x (y ∷ xs) ys (inl e) = inl (inl e)
Among-parts x (y ∷ xs) ys (inr h) = elim (Among-parts x xs ys h) [
  | inl a ↦ inl (inr a)
  | inr b ↦ inr b
]

-- Among two lists that end in the new rule, only that rule is for the constructors.
only_new :
    (l r f : ℕ) (us vs : List Rule)
    → NoneFor us l r
    → NoneFor vs l r
    → (x : Rule) → Among x ((us ++ rule_of l r f ∷ []) ++ (vs ++ rule_of l r f ∷ []))
    → (x ≡ rule_of l r f) ⊎ ((¬ IsFor x l r) × (¬ IsFor x r l))
only_new l r f us vs na nb x h =
    elim (Among-parts x (us ++ rule_of l r f ∷ []) (vs ++ rule_of l r f ∷ []) h) [
      | inl a ↦ elim (Among-snoc x (rule_of l r f) us a) [ inl i ↦ inr (na x i) | inr e ↦ inl e ]
      | inr b ↦ elim (Among-snoc x (rule_of l r f) vs b) [ inl i ↦ inr (nb x i) | inr e ↦ inl e ]
    ]

Chosen-new :
    (l r f left right : ℕ) (us vs : List Rule) (o : Option Task)
    → l ≢ r
    → NoneFor us l r
    → NoneFor vs l r
    → Chosen ((us ++ rule_of l r f ∷ []) ++ (vs ++ rule_of l r f ∷ [])) left right l r o
    → o ≡ some (task_of left right (rule_of l r f))
Chosen-new l r f left right us vs none ne na nb chosen = absurd (
    (chosen (rule_of l r f) (Among-last (rule_of l r f) us (vs ++ rule_of l r f ∷ []))).0
      (refl, refl))
Chosen-new l r f left right us vs (some t) ne na nb (among, fits) =
    elim (only_new l r f us vs na nb t.rule among) [
      | inl new ↦ elim fits [
        | inl (a, b, c) ↦
            let same : some (task_of t.left t.right t.rule)
                ≡ some (task_of left right (rule_of l r f)) =
              rw (a, b, new) in
            same
        | inr (a, b, c) ↦ absurd (ne (sym (ap (λ (x : Rule). x.left_node_ctor) new) ∙ c.0))
      ]
      | inr (here, there) ↦ elim fits [
        | inl (a, b, c) ↦ absurd (here c)
        | inr (a, b, c) ↦ absurd (there c)
      ]
    ]

add_rule-left :
    (p : Program) (l r f : ℕ)
    → l ≢ r
    → ((add_rule p l r (rule_of l r f)).ctors l).rule_array
      ≡ (p.ctors l).rule_array ++ rule_of l r f ∷ []
unfolding add_rule push_rule
add_rule-left p l r f ne = rw (ne→== l r ne, ne→== r l (λ e. ne (sym e)), ==_refl l)

add_rule-right :
    (p : Program) (l r f : ℕ)
    → l ≢ r
    → ((add_rule p l r (rule_of l r f)).ctors r).rule_array
      ≡ (p.ctors r).rule_array ++ rule_of l r f ∷ []
unfolding add_rule push_rule
add_rule-right p l r f ne = rw (ne→== l r ne, ==_refl r)

module _ {ℓ} {K : Type ℓ} (hash_fn : K → ℕ) (key_equal_fn : K → K → Bool) where
  -- Two names stand for two different node constructors that no rule of either is for yet.
  -- Defining a rule for the names succeeds, and on the program that it gives, joining different
  -- principal wires of a node of the first and a node of the second constructor gives the task of
  -- that rule, its wires in that order.
  pub mod_define_rule_lem :
      (m : Mod K) (p : Program) (first second : K) (l r f : ℕ) (h : Heap) (left right : ℕ)
      (a b : PrincipalWire)
      → mod_find hash_fn key_equal_fn m first ≡ some (node_ctor l)
      → mod_find hash_fn key_equal_fn m second ≡ some (node_ctor r)
      → l ≢ r
      → NoneFor (p.ctors l).rule_array l r
      → NoneFor (p.ctors r).rule_array l r
      → left ≢ right
      → h.principal_wires left ≡ some a
      → h.principal_wires right ≡ some b
      → (h.nodes a.node).ctor ≡ some l
      → (h.nodes b.node).ctor ≡ some r
      → (q : Program) × (g : Heap) × (mod_define_rule hash_fn key_equal_fn m p first second f
          ≡ ok q)
        × (connect_active_pair q h left right ≡ ok (some (task_of left right (rule_of l r f)), g))
  unfolding mod_define_rule as_node_ctor
  mod_define_rule_lem m p first second l r f h left right a b el er ne nl nr apart ea eb ca cb =
      let q : Program = add_rule p l r (rule_of l r f) in
      let (o, g, run, linked, chosen) =
        connect_active_pair_lem q h left right l r a b apart ea eb ca cb in
      let found : o ≡ some (task_of left right (rule_of l r f)) =
        Chosen-new l r f left right (p.ctors l).rule_array (p.ctors r).rule_array o ne nl nr (
          subst
            (λ xs. Chosen (xs ++ ((p.ctors r).rule_array ++ rule_of l r f ∷ [])) left right l r o)
            (add_rule-left p l r f ne)
            (subst (λ xs. Chosen ((q.ctors l).rule_array ++ xs) left right l r o)
              (add_rule-right p l r f ne) chosen)) in
      (q, g, rw (el, er), run ∙ ap (λ x. ok (x, g)) found)
