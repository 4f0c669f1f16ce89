-- ===== src/Std/LinkedList/Search.antt =====
-- src/packages/std/list/list.c: `list_has`, `list_find` and `list_remove`, which look for the first node
-- whose value meets the test.
use inet_forth.Std.LinkedList.{
  Cell, Cells, LinkedList, same_address, find_node, list_has, list_find, list_remove,
}
use inet_forth.Std.LinkedList.Nodes.{head_of, last_of, on_list, Linked}
use inet_forth.Std.LinkedList.Shape.{
  IsList, without, without-IsList, held_at, head_held, middle_held,
}
use inet_forth.Std.LinkedList.Ends.{read_at}
use inet_forth.Std.LinkedList.Removal.{unlinked}
use inet_forth.Base.{
  Bool, Bool-cases, List, Option, [], ap, arith, false, if◌then◌else◌, inl, inr, length, none, not,
  ok, refl, some, subst, suc, sym, true, zero, ℕ, ◌&&◌, ◌++◌, ◌∷◌, ◌≡◌, ◌≤◌, ◌⊎◌,
}

module _ {ℓ} {A : Type ℓ} (test : Option A → Bool) where
  abbrev pub none_meets : List (ℕ × Option A) → Bool
  none_meets [] = true
  none_meets ((a, v) ∷ xs) = not (test v) && none_meets xs

  -- The node at `a` is the first of `xs` that meets the test.
  pub record FirstMeeting (xs : List (ℕ × Option A)) : Type ℓ where
    pub before : List (ℕ × Option A)
    pub address : ℕ
    pub value : Option A
    pub behind : List (ℕ × Option A)
    pub parts : xs ≡ before ++ (address, value) ∷ behind
    pub skipped : none_meets before ≡ true
    pub met : test value ≡ true

  abbrev pub cell_at : (p : Option ℕ) {xs : List (ℕ × Option A)} → FirstMeeting xs → Cell A
  cell_at p m = record { prev = last_of p m.before; next = head_of none m.behind; value = m.value }

  find_node_lem :
      (f : ℕ) (cells : Cells A) (p : Option ℕ) (xs : List (ℕ × Option A))
      → Linked cells p xs none
      → length xs ≤ f
      → ((none_meets xs ≡ true) × (find_node test f cells (head_of none xs) ≡ ok none))
        ⊎ ((m : FirstMeeting xs) × (find_node test f cells (head_of none xs)
              ≡ ok (some (m.address, cell_at p m))))
  unfolding find_node head_of last_of
  find_node_lem f cells p [] h le = inl (refl, refl)
  find_node_lem zero cells p ((a, v) ∷ xs) h le = absurd (omega arith)
  find_node_lem (suc f) cells p ((a, v) ∷ xs) h le =
      rw (read_at cells a (record { prev = p; next = head_of none xs; value = v }) h.0)
        (elim (Bool-cases (test v)) [
          | inl e ↦ rw e (
              inr (
                record {
                  before = [];
                  address = a;
                  value = v;
                  behind = xs;
                  parts = refl;
                  skipped = refl;
                  met = e;
                },
                refl,
              ))
          | inr e ↦ rw e (elim (find_node_lem f cells (some a) xs h.1 (omega arith)) [
            | inl (out, run) ↦ inl (out, run)
            | inr (m, run) ↦ inr (
              record {
                before = (a, v) ∷ m.before;
                address = m.address;
                value = m.value;
                behind = m.behind;
                parts = ap (λ ys. (a, v) ∷ ys) m.parts;
                skipped = rw e (m.skipped);
                met = m.met;
              },
              run,
            )
          ])
        ])

  search :
      (self : LinkedList A) (xs : List (ℕ × Option A))
      → IsList self xs
      → ((none_meets xs ≡ true) × (find_node test self.count self.cells self.first ≡ ok none))
        ⊎ ((m : FirstMeeting xs) × (find_node test self.count self.cells self.first
              ≡ ok (some (m.address, cell_at none m))))
  search self xs h =
      subst (λ p. Outcome p) (sym h.starts)
        (find_node_lem self.count self.cells none xs h.linked (omega (arith, h.counted)))
    where
      Outcome : Option ℕ → Type ℓ
      Outcome p =
          ((none_meets xs ≡ true) × (find_node test self.count self.cells p ≡ ok none))
          ⊎ ((m : FirstMeeting xs) × (find_node test self.count self.cells p
                ≡ ok (some (m.address, cell_at none m))))

  -- `list_remove` takes out the first node whose value meets the test, and the others keep their
  -- addresses, values and order. A cursor on the node becomes NULL, any other stays. Where no value
  -- meets the test, the list is as it was.
  pub list_remove-IsList :
      (self : LinkedList A) (xs : List (ℕ × Option A))
      → IsList self xs
      → ((none_meets xs ≡ true) × (list_remove test self ≡ ok (false, self)))
        ⊎ ((m : FirstMeeting xs) × (after : LinkedList A) × (list_remove test self
              ≡ ok (true, after))
            × IsList after (m.before ++ m.behind)
            × (after.cursor
                ≡ (if same_address self.cursor (some m.address) then none else self.cursor)))
  unfolding list_remove
  list_remove-IsList self xs h = elim (search self xs h) [
    | inl (out, run) ↦ inl (out, rw run refl)
    | inr (m, run) ↦
        let own = subst (IsList self) m.parts h in
        let u = unlinked self m.before m.address m.value m.behind own in
        inr (
          m,
          without self m.address (last_of none m.before) (head_of none m.behind) u.c₂,
          rw run (rw u.first_change (rw u.second_change refl)),
          without-IsList self m.before m.address m.value m.behind own u,
          refl,
        )
  ]

  -- `list_find` gives the first value that meets the test and puts the cursor on its node, and
  -- `list_has` tells that there is one. Where there is none, `list_find` gives NULL and puts the cursor
  -- on the first node. The list keeps its nodes.
  pub list_find-IsList :
      (self : LinkedList A) (xs : List (ℕ × Option A))
      → IsList self xs
      → ((none_meets xs ≡ true)
          × (list_has test self ≡ ok false)
          × (list_find test self ≡ ok (none, record self { cursor = head_of none xs }))
          × IsList (record self { cursor = head_of none xs }) xs)
        ⊎ ((m : FirstMeeting xs) × (list_has test self ≡ ok true)
            × (list_find test self ≡ ok (m.value, record self { cursor = some m.address }))
            × IsList (record self { cursor = some m.address }) xs)
  unfolding list_find list_has
  list_find-IsList self xs h = elim (search self xs h) [
    | inl (out, run) ↦ inl (
      out,
      rw run refl,
      rw run (ap (λ p. ok (none, record self { cursor = p })) h.starts),
      held_at self xs h (head_of none xs) (head_held xs),
    )
    | inr (m, run) ↦ inr (
      m,
      rw run refl,
      rw run refl,
      held_at self xs h (some m.address) (
          subst (λ ys. on_list (some m.address) ys ≡ true) (sym m.parts)
            (middle_held m.before m.address m.value m.behind)),
    )
  ]
