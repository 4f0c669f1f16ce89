-- ===== src/Std/LinkedList/Ends.antt =====
-- src/packages/std/list/list.c: the operations at both ends of a list.
use inet_forth.Std.LinkedList.{Cell, Cells, LinkedList, read, list_push, list_unshift}
use inet_forth.Std.LinkedList.Nodes.{
  head_of, last_of, absent, distinct, on_list, Linked, Linked-append, Linked-update, absent-append,
  last_of-append, distinct-append, disjoint, set_prev-Linked, set_next-Linked, update_elsewhere,
}
use inet_forth.Std.LinkedList.Shape.{IsList}
use inet_forth.Base.{
  ==_refl, List, Option, [], ap, arith, false, if◌then◌else◌, is_some, length, length-append, none,
  not, ok, refl, some, suc, sym, true, update, ℕ, ◌&&◌, ◌++◌, ◌+◌, ◌==◌, ◌∙◌, ◌∷◌, ◌≡◌,
}

module _ {ℓ} {A : Type ℓ} where
  disjoint_one :
      (xs : List (ℕ × Option A)) (a : ℕ) (v : Option A) → disjoint xs ((a, v) ∷ []) ≡ absent a xs
  unfolding disjoint absent
  disjoint_one [] a v = refl
  disjoint_one ((b, w) ∷ xs) a v = ground (arith, disjoint_one xs a v)

  pub read_at : (c : Cells A) (a : ℕ) (x : Cell A) → c a ≡ some x → read c a ≡ ok x
  unfolding read
  read_at c a x e = rw (e, read) refl

  -- A node that is new in the store joins the list.
  added-IsList :
      (self : LinkedList A) (xs ys : List (ℕ × Option A)) (first last : Option ℕ) (c : Cells A)
      (x : Cell A)
      → IsList self xs
      → ((b : ℕ) → absent b ys ≡ (not (b == self.next_address) && absent b xs))
      → length ys ≡ suc (length xs)
      → ((b : ℕ) → absent b xs ≡ true → c b ≡ self.cells b)
      → distinct ys ≡ true
      → first ≡ head_of none ys
      → last ≡ last_of none ys
      → Linked (update c self.next_address (some x)) none ys none
      → IsList
          (record {
            first = first;
            last = last;
            cursor = self.cursor;
            count = self.count + 1;
            cells = update c self.next_address (some x);
            next_address = self.next_address + 1;
          })
          ys
  unfolding on_list
  added-IsList self xs ys first last c x h members longer same one starts ends linked = record {
    linked = linked;
    one = one;
    starts = starts;
    ends = ends;
    counted = omega (arith, h.counted, longer);
    held = still_held self.cursor h.held;
    owned = λ b out.
        let other : (b == self.next_address) ≡ false = ground (arith, members b) in
        let out_before : absent b xs ≡ true = ground (arith, members b) in
        update_elsewhere c self.next_address b (some x) other
        ∙ same b out_before
        ∙ h.owned b out_before;
    fresh = λ b le. ground (arith, h.fresh b (omega arith), members b);
  }
    where
      still_held : (p : Option ℕ) → on_list p xs ≡ true → on_list p ys ≡ true
      still_held none held = refl
      still_held (some b) held = ground (arith, members b)

  head_of_push :
      (xs : List (ℕ × Option A)) (a : ℕ) (v : Option A) (first last : Option ℕ)
      → first ≡ head_of none xs
      → last ≡ last_of none xs
      → (if is_some last then first else some a) ≡ head_of none (xs ++ (a, v) ∷ [])
  unfolding head_of last_of
  head_of_push [] a v first last starts ends = rw ends refl
  head_of_push ((b, w) ∷ xs) a v first last starts ends =
      let filled : is_some (last_of (some b) xs) ≡ true = last_filled b xs in
      rw (ends, starts) (rw filled refl)
    where
      last_filled : (b : ℕ) (xs : List (ℕ × Option A)) → is_some (last_of (some b) xs) ≡ true
      last_filled b [] = refl
      last_filled b ((c, w) ∷ xs) = last_filled c xs

  pub push-IsList :
      (self : LinkedList A) (xs : List (ℕ × Option A)) (v : Option A)
      → IsList self xs
      → (m : LinkedList A) × (list_push self v ≡ ok m)
        × IsList m (xs ++ (self.next_address, v) ∷ [])
        × (m.cursor ≡ self.cursor)
  unfolding list_push absent distinct head_of last_of
  push-IsList self xs v h =
      let a = self.next_address in
      let new_one : absent a xs ≡ true = h.fresh a (omega arith) in
      let (c, run, linked, same) =
        set_next-Linked self.cells none (some a) none xs h.one h.linked in
      let x : Cell A = record { prev = self.last; next = none; value = v } in
      let all_linked : Linked (update c a (some x)) none (xs ++ (a, v) ∷ []) none =
        Linked-append (update c a (some x)) none none xs ((a, v) ∷ [])
          (Linked-update c none (some a) xs a (some x) new_one linked)
          (
            rw (==_refl a) (ap (λ p. some (record { prev = p; next = none; value = v })) h.ends),
            tt,
          ) in
      (
        _,
        rw (h.ends, list_push) (rw run refl),
        added-IsList self xs (xs ++ (a, v) ∷ []) _ _ c x h
            (λ b. ground (arith, absent-append b xs ((a, v) ∷ [])))
            (omega (arith, length-append xs ((a, v) ∷ []))) same
            (distinct-append xs ((a, v) ∷ []) ∙ ground (arith, h.one, disjoint_one xs a v))
            (head_of_push xs a v self.first self.last h.starts h.ends)
            (sym (last_of-append none xs ((a, v) ∷ []))) all_linked,
        refl,
      )

  last_of_unshift :
      (xs : List (ℕ × Option A)) (a : ℕ) (first last : Option ℕ)
      → first ≡ head_of none xs
      → last ≡ last_of none xs
      → (if is_some first then last else some a) ≡ last_of (some a) xs
  unfolding head_of last_of
  last_of_unshift [] a first last starts ends = rw starts refl
  last_of_unshift ((b, w) ∷ xs) a first last starts ends = rw (starts, ends) refl

  pub unshift-IsList :
      (self : LinkedList A) (xs : List (ℕ × Option A)) (v : Option A)
      → IsList self xs
      → (m : LinkedList A) × (list_unshift self v ≡ ok m)
        × IsList m ((self.next_address, v) ∷ xs)
        × (m.cursor ≡ self.cursor)
  unfolding list_unshift absent distinct head_of last_of
  unshift-IsList self xs v h =
      let a = self.next_address in
      let new_one : absent a xs ≡ true = h.fresh a (omega arith) in
      let (c, run, linked, same) =
        set_prev-Linked self.cells none (some a) none xs h.one h.linked in
      let x : Cell A = record { prev = none; next = self.first; value = v } in
      let all_linked : Linked (update c a (some x)) none ((a, v) ∷ xs) none = (
        rw (==_refl a) (ap (λ p. some (record { prev = none; next = p; value = v })) h.starts),
        Linked-update c (some a) none xs a (some x) new_one linked,
      ) in
      (
        _,
        rw (h.starts, list_unshift) (rw run refl),
        added-IsList self xs ((a, v) ∷ xs) _ _ c x h (λ b. refl) refl same (ground (arith, h.one))
            refl (last_of_unshift xs a self.first self.last h.starts h.ends) all_linked,
        refl,
      )
