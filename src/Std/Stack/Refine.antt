-- ===== src/Std/Stack/Refine.antt =====
-- A stack over an array is a list with its top first.
use inet_forth.Std.Array.{Array, array_top, array_pop}
use inet_forth.Std.Array.Slots.{slot, IsArray, array_new-IsArray, array_push_lem, array_pop_lem}
use inet_forth.Std.Stack.{Stack, stack_new, stack_top, stack_pop, stack_push}
use native.Mathlib.Numerals.{add-one}
use mathlib.Core.Path.{ap₂}
use mathlib.Core.List.{tail}
use inet_forth.Base.{
  ==_refl, List, Option, [], ap, arith, assertion, err, length, ne→==, ok, refl, subst, suc, zero,
  ℕ, ◌-◌, ◌<◌, ◌∙◌, ◌∷◌, ◌≡◌,
}

module _ {ℓ} {A : Type ℓ} where
  -- The first `n` slots, the last one first.
  unfoldable pub contents : Array A → ℕ → List (Option A)
  contents a zero = []
  contents a (suc n) = slot a n ∷ contents a n

  contents-ext :
      (a b : Array A) (n : ℕ)
      → ((i : ℕ) → i < n → slot a i ≡ slot b i)
      → contents a n ≡ contents b n
  unfolding contents
  contents-ext a b zero h = refl
  contents-ext a b (suc n) h =
      ap₂ ◌∷◌ (h n (omega arith)) (contents-ext a b n (λ i lt. h i (omega arith)))

  length-contents : (a : Array A) (n : ℕ) → length (contents a n) ≡ n
  unfolding contents
  length-contents a zero = refl
  length-contents a (suc n) = ap suc (length-contents a n)

  -- The array is sound, and its elements are those of the list.
  pub record Holds (s : Stack A) (xs : List (Option A)) : Type ℓ where
    pub sound : IsArray s.array
    pub content : contents s.array s.array.cursor ≡ xs

  pub stack_new-Holds : Holds stack_new []
  unfolding stack_new contents
  stack_new-Holds = record { sound = array_new-IsArray 64 (omega arith); content = refl }

  -- On a stack that holds a list, a push always succeeds, and the stack then holds the list with
  -- the value on top.
  pub stack_push-Holds :
      (s : Stack A) (xs : List (Option A)) (v : Option A)
      → Holds s xs
      → (t : Stack A) × (stack_push s v ≡ ok t) × Holds t (v ∷ xs)
  unfolding stack_push contents
  stack_push-Holds s xs v h =
      let (b, run, (is, cur, slots)) = array_push_lem s.array h.sound v in
      (
        record { array = b },
        rw run,
        record {
          sound = is;
          content =
              rw (cur, add-one)
                (ap₂ ◌∷◌ (slots s.array.cursor ∙ rw (==_refl s.array.cursor)) (
                  contents-ext b s.array s.array.cursor
                    (λ i lt. slots i ∙ rw (ne→== s.array.cursor i (omega arith)))
                  ∙ h.content));
        },
      )

  pop_at :
      (s : Stack A) (n : ℕ)
      → s.array.cursor ≡ suc n
      → IsArray s.array
      → (t : Stack A) × (stack_pop s ≡ ok (slot s.array n, t)) × Holds t (contents s.array n)
  unfolding stack_pop
  pop_at s n e is =
      let (b, run, is', cur, slots) = array_pop_lem s.array is (omega arith) in
      let at : s.array.cursor - 1 ≡ n = omega arith in
      let cur' : b.cursor ≡ n = omega arith in
      (
        record { array = b },
        rw run (rw at),
        record {
          sound = is';
          content = rw cur' (
              contents-ext b s.array n
                λ i lt. slots i ∙ rw (ne→== (s.array.cursor - 1) i (omega arith)));
        },
      )

  head_of : Option A → List (Option A) → Option A
  head_of d [] = d
  head_of d (x ∷ xs) = x

  pop_from :
      (s : Stack A) (n : ℕ) (xs : List (Option A)) (v : Option A)
      → s.array.cursor ≡ n
      → contents s.array n ≡ v ∷ xs
      → IsArray s.array
      → (t : Stack A) × (stack_pop s ≡ ok (v, t)) × Holds t xs
  unfolding contents head_of
  pop_from s zero xs v e c is = cc
  pop_from s (suc n) xs v e c is =
      let (t, run, left) = pop_at s n e is in
      (
        t,
        subst (λ x. stack_pop s ≡ ok (x, t)) (ap (head_of v) c) run,
        subst (Holds t) (ap tail c) left,
      )

  length_zero : (s : Stack A) → Holds s [] → s.array.cursor ≡ 0
  length_zero s h = omega (arith, length-contents s.array s.array.cursor, ap length h.content)

  -- On a stack that holds a non-empty list, a pop gives the top of the list, and the stack then
  -- holds the rest.
  pub stack_pop-Holds :
      (s : Stack A) (xs : List (Option A)) (v : Option A)
      → Holds s (v ∷ xs)
      → (t : Stack A) × (stack_pop s ≡ ok (v, t)) × Holds t xs
  stack_pop-Holds s xs v h = pop_from s s.array.cursor xs v refl h.content h.sound

  -- On the empty list a pop and a look at the top fail the assertion.
  pub empty_fails :
      (s : Stack A) → Holds s [] → (stack_pop s ≡ err assertion) × (stack_top s ≡ err assertion)
  unfolding stack_pop stack_top array_pop array_top
  empty_fails s h = rw (length_zero s h) (refl, refl)
