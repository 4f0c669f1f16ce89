-- ===== src/Std/LinkedList/Removal.antt =====
-- src/packages/std/list/list.c: `list_pop` and `list_shift`.
use mathlib.Core.List.{append-nil}
use inet_forth.Std.LinkedList.{
  Cells, LinkedList, same_address, set_prev, set_next, list_pop, list_shift,
}
use inet_forth.Std.LinkedList.Nodes.{head_of, last_of, absent, on_list, last_of-append}
use inet_forth.Std.LinkedList.Unlink.{Apart-distinct, Unlinked, unlink}
use inet_forth.Std.LinkedList.Shape.{IsList, without, without-IsList}
use inet_forth.Std.LinkedList.Ends.{read_at}
use inet_forth.Base.{
  ==_refl, List, Option, [], ap, if◌then◌else◌, none, ok, ok-injective, refl, some, subst, sym,
  true, ℕ, ◌++◌, ◌∙◌, ◌∷◌, ◌≡◌,
}

module _ {ℓ} {A : Type ℓ} where
  pub unlinked :
      (self : LinkedList A) (ys : List (ℕ × Option A)) (a : ℕ) (v : Option A)
      (zs : List (ℕ × Option A))
      → IsList self (ys ++ (a, v) ∷ zs)
      → Unlinked self.cells ys a v zs
  unlinked self ys a v zs h = unlink self.cells ys a v zs h.linked (Apart-distinct ys a v zs h.one)

  -- The list is empty, so its cursor is NULL.
  no_cursor : (self : LinkedList A) → IsList self [] → self.cursor ≡ none
  unfolding on_list absent
  no_cursor self h = none_held self.cursor h.held
    where
      none_held : (p : Option ℕ) → on_list {A = A} p [] ≡ true → p ≡ none
      none_held none held = refl
      none_held (some a) held = cc

  pub list_pop_empty : (self : LinkedList A) → IsList self [] → list_pop self ≡ ok (none, self)
  unfolding list_pop same_address last_of
  list_pop_empty self h =
      subst (λ p. list_pop (record self { cursor = p }) ≡ ok (none, record self { cursor = p }))
        (sym (no_cursor self h))
        (subst
          (λ p.
            list_pop (record self { cursor = none; last = p })
            ≡ ok (none, record self { cursor = none; last = p }))
          (sym h.ends) refl)

  pub list_shift_empty : (self : LinkedList A) → IsList self [] → list_shift self ≡ ok (none, self)
  unfolding list_shift same_address head_of
  list_shift_empty self h =
      subst (λ p. list_shift (record self { cursor = p }) ≡ ok (none, record self { cursor = p }))
        (sym (no_cursor self h))
        (subst
          (λ p.
            list_shift (record self { cursor = none; first = p })
            ≡ ok (none, record self { cursor = none; first = p }))
          (sym h.starts) refl)

  list_pop_filled :
      (self : LinkedList A) (a : ℕ) (v : Option A) (prev : Option ℕ) (c : Cells A)
      → self.last ≡ some a
      → self.cells a ≡ some (record { prev = prev; next = none; value = v })
      → set_next self.cells prev none ≡ ok c
      → list_pop self ≡ ok (v, without self a prev none c)
  unfolding list_pop same_address
  list_pop_filled self a v prev c ends here run =
      subst
        (λ p.
          list_pop (record self { last = p })
          ≡ ok (v, without (record self { last = p }) a prev none c))
        (sym ends)
        (rw (read_at self.cells a (record { prev = prev; next = none; value = v }) here)
          (rw run (rw (==_refl a) refl)))

  list_shift_filled :
      (self : LinkedList A) (a : ℕ) (v : Option A) (next : Option ℕ) (c : Cells A)
      → self.first ≡ some a
      → self.cells a ≡ some (record { prev = none; next = next; value = v })
      → set_prev self.cells next none ≡ ok c
      → list_shift self ≡ ok (v, without self a none next c)
  unfolding list_shift same_address
  list_shift_filled self a v next c starts here run =
      subst
        (λ p.
          list_shift (record self { first = p })
          ≡ ok (v, without (record self { first = p }) a none next c))
        (sym starts)
        (rw (read_at self.cells a (record { prev = none; next = next; value = v }) here)
          (rw run (rw (==_refl a) refl)))

  pub pop-IsList :
      (self : LinkedList A) (ys : List (ℕ × Option A)) (a : ℕ) (v : Option A)
      → IsList self (ys ++ (a, v) ∷ [])
      → (m : LinkedList A) × (list_pop self ≡ ok (v, m))
        × IsList m ys
        × (m.cursor ≡ (if same_address self.cursor (some a) then none else self.cursor))
  unfolding head_of last_of set_prev
  pop-IsList self ys a v h =
      let u = unlinked self ys a v [] h in
      let at_end : self.last ≡ some a = h.ends ∙ last_of-append none ys ((a, v) ∷ []) in
      let kept : u.c₁ ≡ self.cells = sym (ok-injective u.first_change) in
      (
        without self a (last_of none ys) none u.c₂,
        list_pop_filled self a v (last_of none ys) u.c₂ at_end u.here
            (subst (λ c. set_next c (last_of none ys) none ≡ ok u.c₂) kept u.second_change),
        subst (IsList (without self a (last_of none ys) none u.c₂)) (append-nil ys)
            (without-IsList self ys a v [] h u),
        refl,
      )

  pub shift-IsList :
      (self : LinkedList A) (a : ℕ) (v : Option A) (zs : List (ℕ × Option A))
      → IsList self ((a, v) ∷ zs)
      → (m : LinkedList A) × (list_shift self ≡ ok (v, m))
        × IsList m zs
        × (m.cursor ≡ (if same_address self.cursor (some a) then none else self.cursor))
  unfolding head_of last_of set_next
  shift-IsList self a v zs h =
      let u = unlinked self [] a v zs h in
      let kept : u.c₁ ≡ u.c₂ = ok-injective u.second_change in
      (
        without self a none (head_of none zs) u.c₂,
        list_shift_filled self a v (head_of none zs) u.c₂ h.starts u.here
            (u.first_change ∙ ap ok kept),
        without-IsList self [] a v zs h u,
        refl,
      )
