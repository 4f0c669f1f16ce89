-- ===== src/Std/LinkedList/Copy.antt =====
-- src/packages/std/list/list.c: `list_copy`, which walks a list by its cursor.
use mathlib.Core.List.{append_assoc, append-nil}
use inet_forth.Std.LinkedList.{LinkedList, list_new, copy_loop, list_copy}
use inet_forth.Std.LinkedList.Nodes.{head_of}
use inet_forth.Std.LinkedList.Shape.{IsList}
use inet_forth.Std.LinkedList.Ends.{push-IsList}
use inet_forth.Std.LinkedList.Walk.{
  values, values-snoc, head_value, list_new-IsList, list_first_lem, list_next_lem,
}
use inet_forth.Base.{
  List, Option, [], ap, arith, length, map, none, ok, refl, some, subst, suc, sym, zero, ℕ, ◌++◌,
  ◌∙◌, ◌∷◌, ◌≡◌, ◌≤◌,
}

-- The values before the first NULL, and the node that it stands in.
abbrev pub until_null {ℓ} : {A : Type ℓ} → List (ℕ × Option A) → List (Option A)
until_null [] = []
until_null ((a, none) ∷ xs) = []
until_null ((a, some v) ∷ xs) = some v ∷ until_null xs

abbrev pub first_null {ℓ} : {A : Type ℓ} → List (ℕ × Option A) → Option ℕ
first_null [] = none
first_null ((a, none) ∷ xs) = some a
first_null ((a, some v) ∷ xs) = first_null xs

module _ {ℓ} {A : Type ℓ} (copy : Option A → Option A) where
  copy_loop_lem :
      (f : ℕ) (self list : LinkedList A) (ys zs ns : List (ℕ × Option A))
      → IsList self (ys ++ zs)
      → IsList list ns
      → length zs ≤ f
      → (list' : LinkedList A) × (ns' : List (ℕ × Option A)) × (copy_loop copy f
            (record self { cursor = head_of none zs })
            list
            (head_value zs)
          ≡ ok (record self { cursor = first_null zs }, list'))
        × IsList list' ns'
        × (values ns' ≡ values ns ++ map copy (until_null zs))
  unfolding copy_loop head_of
  copy_loop_lem f self list ys [] ns h k le = (list, ns, refl, k, sym (append-nil (values ns)))
  copy_loop_lem f self list ys ((a, none) ∷ zs) ns h k le =
      (list, ns, refl, k, sym (append-nil (values ns)))
  copy_loop_lem zero self list ys ((a, some v) ∷ zs) ns h k le = absurd (omega arith)
  copy_loop_lem (suc f) self list ys ((a, some v) ∷ zs) ns h k le =
      let (pushed, run, k₁, _) = push-IsList list ns (copy (some v)) k in
      let h₁ = subst (IsList self) (sym (append_assoc ys ((a, some v) ∷ []) zs)) h in
      let (list', ns', runs, k', content) =
        copy_loop_lem f self pushed (ys ++ (a, some v) ∷ []) zs
          (ns ++ (list.next_address, copy (some v)) ∷ []) h₁ k₁ (omega arith) in
      (
        list',
        ns',
        rw run (rw (list_next_lem self ys a (some v) zs h) runs),
        k',
        content
            ∙ ap (λ vs. vs ++ map copy (until_null zs))
                (values-snoc ns list.next_address (copy (some v)))
            ∙ append_assoc (values ns) (copy (some v) ∷ []) (map copy (until_null zs)),
      )

  -- `list_copy` gives a new list of the copied values, in order, up to the first NULL that the list
  -- holds, and leaves the cursor of the list there.
  pub list_copy-IsList :
      (self : LinkedList A) (xs : List (ℕ × Option A))
      → IsList self xs
      → (list : LinkedList A) × (ns : List (ℕ × Option A)) × (list_copy copy self
          ≡ ok (record self { cursor = first_null xs }, list))
        × IsList list ns
        × (values ns ≡ map copy (until_null xs))
  unfolding list_copy
  list_copy-IsList self xs h =
      let (list, ns, run, k, content) =
        copy_loop_lem self.count self list_new [] xs [] h list_new-IsList
          (omega (arith, h.counted)) in
      (list, ns, rw (list_first_lem self xs h) run, k, content)
