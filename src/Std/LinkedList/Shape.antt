-- ===== src/Std/LinkedList/Shape.antt =====
-- What a linked list is: nodes in order in a store that holds nothing else.
use inet_forth.Std.LinkedList.{Cells, LinkedList, same_address}
use inet_forth.Std.LinkedList.Nodes.{
  head_of, last_of, absent, distinct, on_list, Linked, absent-append, last_of-append,
}
use inet_forth.Std.LinkedList.Unlink.{Apart-distinct, distinct_without, Unlinked}
use inet_forth.Base.{
  ==_refl, Bool-cases, List, Option, [], ap, arith, false, if◌then◌else◌, inl, inr, length,
  length-append, none, refl, some, true, update, ℕ, ◌++◌, ◌-◌, ◌==◌, ◌∙◌, ◌∷◌, ◌≡◌, ◌≤◌, ◌⊎◌,
}

-- The list has the nodes: they are linked in order, at different addresses, and counted; the cursor is
-- on one of them or NULL, and the store holds no other node.
pub record IsList {ℓ} {A : Type ℓ} (self : LinkedList A) (xs : List (ℕ × Option A)) : Type ℓ where
  pub linked : Linked self.cells none xs none
  pub one : distinct xs ≡ true
  pub starts : self.first ≡ head_of none xs
  pub ends : self.last ≡ last_of none xs
  pub counted : self.count ≡ length xs
  pub held : on_list self.cursor xs ≡ true
  pub owned : (b : ℕ) → absent b xs ≡ true → self.cells b ≡ none
  pub fresh : (b : ℕ) → self.next_address ≤ b → absent b xs ≡ true

-- The list without the node at `a`, as `list_remove` builds it.
abbrev pub without {ℓ} :
    {A : Type ℓ} → LinkedList A → ℕ → (prev next : Option ℕ) → Cells A → LinkedList A
without self a prev next cells = record {
  first = if same_address self.first (some a) then next else self.first;
  last = if same_address self.last (some a) then prev else self.last;
  cursor = if same_address self.cursor (some a) then none else self.cursor;
  count = self.count - 1;
  cells = update cells a none;
  next_address = self.next_address;
}

module _ {ℓ} {A : Type ℓ} where
  head_without :
      (ys : List (ℕ × Option A)) (a : ℕ) (v : Option A) (zs : List (ℕ × Option A))
      → absent a ys ≡ true
      → (if same_address (head_of none (ys ++ (a, v) ∷ zs)) (some a)
          then head_of none zs
          else head_of none (ys ++ (a, v) ∷ zs))
        ≡ head_of none (ys ++ zs)
  unfolding head_of same_address absent
  head_without [] a v zs out = rw (==_refl a) refl
  head_without ((b, w) ∷ ys) a v zs out =
      let other : (b == a) ≡ false = ground arith in rw other refl

  last_elsewhere :
      (p : Option ℕ) (zs : List (ℕ × Option A)) (a : ℕ)
      → same_address p (some a) ≡ false
      → absent a zs ≡ true
      → same_address (last_of p zs) (some a) ≡ false
  unfolding last_of same_address absent
  last_elsewhere p [] a other out = other
  last_elsewhere p ((b, w) ∷ zs) a other out =
      last_elsewhere (some b) zs a (ground arith) (ground arith)

  last_without :
      (ys : List (ℕ × Option A)) (a : ℕ) (v : Option A) (zs : List (ℕ × Option A))
      → absent a zs ≡ true
      → (if same_address (last_of none (ys ++ (a, v) ∷ zs)) (some a)
          then last_of none ys
          else last_of none (ys ++ (a, v) ∷ zs))
        ≡ last_of none (ys ++ zs)
  unfolding last_of same_address absent
  last_without ys a v [] out =
      rw (last_of-append none ys ((a, v) ∷ []), last_of-append none ys []) (rw (==_refl a) refl)
  last_without ys a v ((b, w) ∷ zs) out =
      let other : same_address (last_of (some b) zs) (some a) ≡ false =
        last_elsewhere (some b) zs a (ground arith) (ground arith) in
      rw (last_of-append none ys ((a, v) ∷ (b, w) ∷ zs), last_of-append none ys ((b, w) ∷ zs))
        (rw other refl)

  held_without :
      (p : Option ℕ) (ys : List (ℕ × Option A)) (a : ℕ) (v : Option A) (zs : List (ℕ × Option A))
      → on_list p (ys ++ (a, v) ∷ zs) ≡ true
      → on_list (if same_address p (some a) then none else p) (ys ++ zs) ≡ true
  unfolding on_list same_address absent
  held_without none ys a v zs h = refl
  held_without (some b) ys a v zs h = elim (Bool-cases (b == a)) [
    | inl e ↦ rw e refl
    | inr e ↦ rw e (ground (arith, absent-append b ys ((a, v) ∷ zs), absent-append b ys zs))
  ]

  -- A node is taken out.
  pub without-IsList :
      (self : LinkedList A) (ys : List (ℕ × Option A)) (a : ℕ) (v : Option A)
      (zs : List (ℕ × Option A))
      → IsList self (ys ++ (a, v) ∷ zs)
      → (u : Unlinked self.cells ys a v zs)
      → IsList (without self a (last_of none ys) (head_of none zs) u.c₂) (ys ++ zs)
  unfolding absent
  without-IsList self ys a v zs h u =
      let one = Apart-distinct ys a v zs h.one in
      record {
        linked = u.linked;
        one = distinct_without ys a zs one;
        starts =
            ap (λ p. if same_address p (some a) then head_of none zs else p) h.starts
            ∙ head_without ys a v zs one.absent_before;
        ends =
            ap (λ p. if same_address p (some a) then last_of none ys else p) h.ends
            ∙ last_without ys a v zs one.absent_behind;
        counted = omega (arith, h.counted, length-append ys ((a, v) ∷ zs), length-append ys zs);
        held = held_without self.cursor ys a v zs h.held;
        owned = λ b out. owned_without b out (Bool-cases (b == a));
        fresh = λ b le.
            ground (arith, h.fresh b le, absent-append b ys ((a, v) ∷ zs), absent-append b ys zs);
      }
    where
      owned_without :
          (b : ℕ)
          → absent b (ys ++ zs) ≡ true
          → ((b == a) ≡ true) ⊎ ((b == a) ≡ false)
          → update u.c₂ a none b ≡ none
      owned_without b out (inl here) = let turned : (a == b) ≡ true = ground arith in rw turned refl
      owned_without b out (inr there) =
          let all_out : absent b (ys ++ (a, v) ∷ zs) ≡ true =
            ground (arith, absent-append b ys ((a, v) ∷ zs), absent-append b ys zs) in
          u.elsewhere b all_out ∙ h.owned b all_out

  -- The cursor may be put on any node.
  pub held_at :
      (self : LinkedList A) (xs : List (ℕ × Option A))
      → IsList self xs
      → (p : Option ℕ) → on_list p xs ≡ true
      → IsList (record self { cursor = p }) xs
  held_at self xs h p held = record {
    linked = h.linked;
    one = h.one;
    starts = h.starts;
    ends = h.ends;
    counted = h.counted;
    held = held;
    owned = h.owned;
    fresh = h.fresh;
  }

  pub head_held : (xs : List (ℕ × Option A)) → on_list (head_of none xs) xs ≡ true
  unfolding on_list absent head_of
  head_held [] = refl
  head_held ((a, v) ∷ xs) = rw (==_refl a) refl

  -- A node in the middle, and the one before and behind it.
  pub middle_held :
      (ys : List (ℕ × Option A)) (a : ℕ) (v : Option A) (zs : List (ℕ × Option A))
      → on_list (some a) (ys ++ (a, v) ∷ zs) ≡ true
  unfolding on_list absent
  middle_held ys a v zs = ground (arith, absent-append a ys ((a, v) ∷ zs), ==_refl a)
