-- ===== src/Std/Queue/Fifo.antt =====
-- A queue is a list with its front first, up to the size.
use inet_forth.Std.Queue.{
  Queue, cursor_mod, distance, is_empty, is_full, enqueue, dequeue, set_value, get_value,
  queue_push_back, queue_pop_front,
}
use mathlib.Core.Path.{ap₂}
use native.Mathlib.Nat.{div-add-mod'}
use inet_forth.Base.{
  Bool, Bool-cases, List, Option, [], ap, arith, false, if◌then◌else◌, inl, inr, length, le→ltb,
  ltb, lt→ltb, ne→==, none, refl, subst, suc, true, zero, ℕ, ◌%◌, ◌*◌, ◌++◌, ◌+◌, ◌-◌, ◌/◌, ◌<◌,
  ◌==◌, ◌^◌, ◌∙◌, ◌∷◌, ◌≡◌, ◌≤◌,
}

above_apart : (p d n r : ℕ) → p * n + r + n ≤ (p + 1 + d) * n + r
above_apart p d n r = omega arith

below_apart : (q d n r : ℕ) → q * n + r ≤ (q + d) * n + r
below_apart q d n r = omega arith

-- Two cursors that are less than a round apart have different slots.
slots_apart : (a b n : ℕ) → a < b → b < a + n → (b % n == a % n) ≡ false
slots_apart a b n lt near = ne→== (b % n) (a % n) λ e. elim (Bool-cases (ltb (a / n) (b / n))) [
  | inl less ↦
      let split : b / n ≡ a / n + 1 + (b / n - (a / n + 1)) = ground arith in
      omega (
        arith,
        div-add-mod' a n,
        div-add-mod' b n,
        ap (λ (x : ℕ). x * n) split,
        above_apart (a / n) (b / n - (a / n + 1)) n (a % n),
      )
  | inr more ↦
      let split : a / n ≡ b / n + (a / n - b / n) = ground arith in
      omega (
        arith,
        div-add-mod' a n,
        div-add-mod' b n,
        ap (λ (x : ℕ). x * n) split,
        below_apart (b / n) (a / n - b / n) n (a % n),
      )
]

module _ {ℓ} {A : Type ℓ} where
  -- The `k` values from a cursor on.
  pub window : Queue A → ℕ → ℕ → List (Option A)
  window q c zero = []
  window q c (suc k) = q.values (c % q.size) ∷ window q (c + 1) k

  pub contents : Queue A → List (Option A)
  unfolding window
  contents q = window q q.front_cursor (q.back_cursor - q.front_cursor)

  -- No cursor has wrapped, the stale copies are behind the cursors they copy, the producer has seen
  -- enough room for what it pushed, and the consumer enough values for what it popped.
  pub record IsQueue (q : Queue A) : Type 0 where
    pub room : q.back_cursor ≤ q.cached_front_cursor + q.size
    pub seen_front : q.cached_front_cursor ≤ q.front_cursor
    pub seen_back : q.cached_back_cursor ≤ q.back_cursor
    pub filled : q.front_cursor ≤ q.cached_back_cursor
    pub bounded : q.back_cursor < cursor_mod
    pub sized : 0 < q.size

  length-window : (q : Queue A) (c k : ℕ) → length (window q c k) ≡ k
  unfolding window
  length-window q c zero = refl
  length-window q c (suc k) = omega (arith, length-window q (c + 1) k)

  -- A write at `b` does not reach the `k` slots from `c` on, and becomes the last value.
  window-set :
      (q : Queue A) (v : Option A) (c k b : ℕ)
      → c + k ≡ b
      → k < q.size
      → window (set_value q b v) c (suc k) ≡ window q c k ++ v ∷ []
  unfolding window set_value
  window-set q v c zero b e lt =
      let here : (b % q.size == c % q.size) ≡ true = ground arith in rw here
  window-set q v c (suc k) b e lt =
      ap₂ ◌∷◌ (rw (slots_apart c b q.size (omega arith) (omega arith)))
        (window-set q v (c + 1) k b (omega arith) (omega arith))

  window-fields :
      (q r : Queue A) (c k : ℕ)
      → q.size ≡ r.size
      → q.values ≡ r.values
      → window q c k ≡ window r c k
  unfolding window
  window-fields q r c zero e e' = refl
  window-fields q r c (suc k) e e' = ap₂ ◌∷◌ (rw (e, e')) (window-fields q r (c + 1) k e e')

  contents-enqueue :
      (q : Queue A) (v : Option A)
      → q.front_cursor ≤ q.back_cursor
      → q.back_cursor < q.front_cursor + q.size
      → q.back_cursor + 1 < cursor_mod
      → contents (enqueue q v) ≡ contents q ++ v ∷ []
  unfolding contents enqueue set_value
  contents-enqueue q v le lt room =
      let count : (q.back_cursor + 1) % cursor_mod - q.front_cursor
          ≡ suc (q.back_cursor - q.front_cursor) =
        omega arith in
      rw count (
        window-fields (enqueue q v) (set_value q q.back_cursor v) q.front_cursor
          (suc (q.back_cursor - q.front_cursor)) refl refl
        ∙ window-set q v q.front_cursor (q.back_cursor - q.front_cursor) q.back_cursor (omega arith)
            (omega arith))

  length-contents : (q : Queue A) → length (contents q) ≡ q.back_cursor - q.front_cursor
  unfolding contents
  length-contents q = length-window q q.front_cursor (q.back_cursor - q.front_cursor)

  abbrev Offered : List (Option A) → ℕ → Option A → Bool × Queue A → Type ℓ
  Offered xs size v (taken, r) =
      IsQueue r
      × (taken ≡ ltb (length xs) size)
      × (contents r ≡ (if ltb (length xs) size then xs ++ v ∷ [] else xs))

  -- A new copy of the other side's cursor leaves the list as it is.
  contents-fields :
      (q r : Queue A)
      → q.size ≡ r.size
      → q.values ≡ r.values
      → q.front_cursor ≡ r.front_cursor
      → q.back_cursor ≡ r.back_cursor
      → contents q ≡ contents r
  unfolding contents
  contents-fields q r s v f b =
      window-fields q r q.front_cursor (q.back_cursor - q.front_cursor) s v ∙ rw (f, b)

  enqueue-Offered :
      (q : Queue A) (v : Option A)
      → IsQueue q
      → q.back_cursor < q.cached_front_cursor + q.size
      → q.back_cursor + 1 < 2 ^ 64
      → Offered (contents q) q.size v (true, enqueue q v)
  unfolding enqueue set_value
  enqueue-Offered q v is lt room =
      let fits : ltb (length (contents q)) q.size ≡ true =
        lt→ltb (length (contents q)) q.size (omega (arith, length-contents q)) in
      (
        record {
          room = omega arith;
          seen_front = is.seen_front;
          seen_back = omega (arith, is.seen_back);
          filled = is.filled;
          bounded = omega arith;
          sized = is.sized;
        },
        rw fits,
        rw fits (contents-enqueue q v (omega arith) (omega arith) (omega arith)),
      )

  is_full-eq :
      (q : Queue A) (f : ℕ)
      → f ≤ q.back_cursor
      → q.back_cursor < cursor_mod
      → is_full q f q.back_cursor ≡ (q.back_cursor - f == q.size)
  unfolding is_full distance
  is_full-eq q f le lt = ground arith

  -- On a sound queue whose back cursor does not wrap, a push is refused exactly when the list has
  -- as many values as the queue has slots, and then the list stays as it is; otherwise the value
  -- becomes the last of the list. The queue stays sound.
  pub queue_push_back_lem :
      (q : Queue A) (v : Option A)
      → IsQueue q
      → q.back_cursor + 1 < 2 ^ 64
      → IsQueue (queue_push_back q v).1
        × ((queue_push_back q v).0 ≡ ltb (length (contents q)) q.size)
        × (contents (queue_push_back q v).1
            ≡ (if ltb (length (contents q)) q.size then contents q ++ v ∷ [] else contents q))
  unfolding queue_push_back
  queue_push_back_lem q v is room =
      let r : Queue A = record q { cached_front_cursor = q.front_cursor } in
      let same : contents r ≡ contents q = contents-fields r q refl refl refl refl in
      let sound : IsQueue r = record {
        room = omega (arith, is.room, is.seen_front);
        seen_front = omega arith;
        seen_back = is.seen_back;
        filled = is.filled;
        bounded = is.bounded;
        sized = is.sized;
      } in
      elim (Bool-cases (is_full q q.cached_front_cursor q.back_cursor)) [
        | inr seen ↦
            let free = is_full-eq q q.cached_front_cursor (omega arith) is.bounded in
            rw seen (enqueue-Offered q v is (ground (arith, is.room)) room)
        | inl stale ↦ elim (Bool-cases (is_full q q.front_cursor q.back_cursor)) [
          | inr free ↦
              let count = is_full-eq q q.front_cursor (omega arith) is.bounded in
              rw (stale, free)
                (subst (λ xs. Offered xs q.size v (true, enqueue r v)) same
                  (enqueue-Offered r v sound (ground (arith, is.room)) room))
          | inl full ↦
              let count = is_full-eq q q.front_cursor (omega arith) is.bounded in
              let fits : ltb (length (contents q)) q.size ≡ false =
                le→ltb (length (contents q)) q.size (ground (arith, length-contents q)) in
              rw (stale, full) (sound, rw fits, rw fits same)
        ]
      ]

  -- The first value of a list, if any, and the rest.
  pub uncons : List (Option A) → Option A × List (Option A)
  uncons [] = (none, [])
  uncons (v ∷ vs) = (v, vs)

  abbrev Taken : List (Option A) → Option A × Queue A → Type ℓ
  Taken xs (v, r) = IsQueue r × ((v, contents r) ≡ uncons xs)

  dequeue-Taken :
      (q : Queue A)
      → IsQueue q
      → q.front_cursor < q.cached_back_cursor
      → Taken (contents q) (dequeue q)
  unfolding dequeue get_value contents window uncons
  dequeue-Taken q is lt =
      let next : (q.front_cursor + 1) % cursor_mod ≡ q.front_cursor + 1 = omega arith in
      let count : q.back_cursor - q.front_cursor ≡ suc (q.back_cursor - (q.front_cursor + 1)) =
        omega arith in
      (
        record {
          room = is.room;
          seen_front = omega arith;
          seen_back = is.seen_back;
          filled = omega arith;
          bounded = is.bounded;
          sized = is.sized;
        },
        rw (count, next)
            (ap (λ xs. (q.values (q.front_cursor % q.size), xs))
              (window-fields (dequeue q).1 q (q.front_cursor + 1)
                (q.back_cursor - (q.front_cursor + 1)) refl refl)),
      )

  no_contents : (q : Queue A) → q.back_cursor ≡ q.front_cursor → contents q ≡ []
  unfolding contents window
  no_contents q e = let none_left : q.back_cursor - q.front_cursor ≡ 0 = omega arith in rw none_left

  -- On a sound queue, a pop gives the first value of the list, or `NULL` where it is empty, and
  -- leaves the rest; the queue stays sound.
  pub queue_pop_front_lem :
      (q : Queue A)
      → IsQueue q
      → IsQueue (queue_pop_front q).1
        × (((queue_pop_front q).0, contents (queue_pop_front q).1) ≡ uncons (contents q))
  unfolding queue_pop_front is_empty uncons
  queue_pop_front_lem q is =
      let r : Queue A = record q { cached_back_cursor = q.back_cursor } in
      let same : contents r ≡ contents q = contents-fields r q refl refl refl refl in
      let sound : IsQueue r = record {
        room = is.room;
        seen_front = is.seen_front;
        seen_back = omega arith;
        filled = omega (arith, is.filled, is.seen_back);
        bounded = is.bounded;
        sized = is.sized;
      } in
      elim (Bool-cases (q.cached_back_cursor == q.front_cursor)) [
        | inr seen ↦ rw seen (dequeue-Taken q is (ground arith))
        | inl stale ↦ elim (Bool-cases (q.back_cursor == q.front_cursor)) [
          | inr some_left ↦
              rw (stale, some_left)
                (subst (λ xs. Taken xs (dequeue r)) same (dequeue-Taken r sound (ground arith)))
          | inl nothing ↦
              let left : contents q ≡ [] = no_contents q (ground arith) in
              rw (stale, nothing) (sound, rw left (ap (λ xs. (none, xs)) (same ∙ left)))
        ]
      ]
