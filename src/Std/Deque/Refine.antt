-- ===== src/Std/Deque/Refine.antt =====
-- src/packages/std/deque/deque.c: whatever is done with a deque, the answers are those of a list.
use inet_forth.Std.LinkedList.Shape.{IsList}
use inet_forth.Std.LinkedList.Ends.{push-IsList, unshift-IsList}
use inet_forth.Std.LinkedList.Removal.{list_pop_empty, list_shift_empty, pop-IsList, shift-IsList}
use inet_forth.Std.LinkedList.Walk.{values, values-snoc, value_at, list_new-IsList, list_get_lem}
use inet_forth.Std.Deque.{
  Deque, deque_new, deque_length, deque_is_empty, deque_push_front, deque_pop_front,
  deque_push_back, deque_pop_back, deque_get,
}
use inet_forth.Base.{
  Bool, List, Option, Result, [], ap, length, none, ok, refl, subst, suc, sym, zero, ℕ, ◌++◌, ◌==◌,
  ◌∙◌, ◌∷◌, ◌≡◌, ◌>>=◌,
}

pub data Op {ℓ} (A : Type ℓ) : Type ℓ where
  push_front push_back : Option A → Op A
  pop_front pop_back length_of empty : Op A
  get : ℕ → Op A

pub data Answer {ℓ} (A : Type ℓ) : Type ℓ where
  done : Answer A
  value : Option A → Answer A
  number : ℕ → Answer A
  test : Bool → Answer A

module _ {ℓ} {A : Type ℓ} where
  -- An operation of the code.
  unfoldable pub perform : Deque A → Op A → Result (Answer A × Deque A)
  unfolding deque_push_front deque_push_back deque_pop_front deque_pop_back deque_length
      deque_is_empty deque_get
  perform d (push_front v) = do e ← deque_push_front d v; ok (done, e)
  perform d (push_back v) = do e ← deque_push_back d v; ok (done, e)
  perform d pop_front = do (v, e) ← deque_pop_front d; ok (value v, e)
  perform d pop_back = do (v, e) ← deque_pop_back d; ok (value v, e)
  perform d length_of = ok (number (deque_length d), d)
  perform d empty = ok (test (deque_is_empty d), d)
  perform d (get i) = do v ← deque_get d i; ok (value v, d)

  unfoldable pub perform_all : Deque A → List (Op A) → Result (List (Answer A))
  unfolding perform
  perform_all d [] = ok []
  perform_all d (op ∷ ops) = do
    (answer, e) ← perform d op
    answers ← perform_all e ops
    ok (answer ∷ answers)

  -- The last value of a list that starts with `v`, and those before it.
  abbrev pub last_value : Option A → List (Option A) → Option A
  last_value v [] = v
  last_value v (w ∷ vs) = last_value w vs

  abbrev pub all_but_last : Option A → List (Option A) → List (Option A)
  all_but_last v [] = []
  all_but_last v (w ∷ vs) = v ∷ all_but_last w vs

  abbrev pub nth : List (Option A) → ℕ → Option A
  nth [] i = none
  nth (v ∷ vs) zero = v
  nth (v ∷ vs) (suc i) = nth vs i

  -- The same operation on the list of values.
  abbrev pub answer : List (Option A) → Op A → Answer A × List (Option A)
  answer vs (push_front v) = (done, v ∷ vs)
  answer vs (push_back v) = (done, vs ++ v ∷ [])
  answer [] pop_front = (value none, [])
  answer (v ∷ vs) pop_front = (value v, vs)
  answer [] pop_back = (value none, [])
  answer (v ∷ vs) pop_back = (value (last_value v vs), all_but_last v vs)
  answer vs length_of = (number (length vs), vs)
  answer vs empty = (test (length vs == 0), vs)
  answer vs (get i) = (value (nth vs i), vs)

  abbrev pub answer_all : List (Option A) → List (Op A) → List (Answer A)
  answer_all vs [] = []
  answer_all vs (op ∷ ops) = (answer vs op).0 ∷ answer_all (answer vs op).1 ops

  -- The list under the deque has these nodes.
  record Holds (d : Deque A) (vs : List (Option A)) : Type ℓ where
    nodes : List (ℕ × Option A)
    shape : IsList d.list nodes
    content : values nodes ≡ vs

  length-values : (xs : List (ℕ × Option A)) → length (values xs) ≡ length xs
  length-values [] = refl
  length-values ((a, v) ∷ xs) = ap suc (length-values xs)

  nth-values : (xs : List (ℕ × Option A)) (i : ℕ) → value_at xs i ≡ nth (values xs) i
  nth-values [] i = refl
  nth-values ((a, v) ∷ xs) zero = refl
  nth-values ((a, v) ∷ xs) (suc i) = nth-values xs i

  -- The last node of a list that starts with a node.
  last_node :
      (a : ℕ) (v : Option A) (xs : List (ℕ × Option A))
      → (ys : List (ℕ × Option A)) × (b : ℕ) × ((a, v) ∷ xs
          ≡ ys ++ (b, last_value v (values xs)) ∷ [])
        × (values ys ≡ all_but_last v (values xs))
  last_node a v [] = ([], a, refl, refl)
  last_node a v ((b, w) ∷ xs) =
      let (ys, c, parts, content) = last_node b w xs in
      ((a, v) ∷ ys, c, ap (λ zs. (a, v) ∷ zs) parts, ap (λ vs. v ∷ vs) content)

  perform-Holds :
      (d : Deque A) (xs : List (ℕ × Option A)) (op : Op A)
      → IsList d.list xs
      → (e : Deque A) × (perform d op ≡ ok ((answer (values xs) op).0, e))
        × Holds e (answer (values xs) op).1
  unfolding perform
  perform-Holds d xs (push_front v) h =
      let (m, run, k, _) = unshift-IsList d.list xs v h in
      (record { list = m }, rw run refl, record { nodes = _; shape = k; content = refl })
  perform-Holds d xs (push_back v) h =
      let (m, run, k, _) = push-IsList d.list xs v h in
      (
        record { list = m },
        rw run refl,
        record { nodes = _; shape = k; content = values-snoc xs d.list.next_address v },
      )
  perform-Holds d [] pop_front h =
      (d, rw (list_shift_empty d.list h) refl, record { nodes = []; shape = h; content = refl })
  perform-Holds d ((a, v) ∷ xs) pop_front h =
      let (m, run, k, _) = shift-IsList d.list a v xs h in
      (record { list = m }, rw run refl, record { nodes = xs; shape = k; content = refl })
  perform-Holds d [] pop_back h =
      (d, rw (list_pop_empty d.list h) refl, record { nodes = []; shape = h; content = refl })
  perform-Holds d ((a, v) ∷ xs) pop_back h =
      let (ys, b, parts, content) = last_node a v xs in
      let (m, run, k, _) = pop-IsList d.list ys b _ (subst (IsList d.list) parts h) in
      (record { list = m }, rw run refl, record { nodes = ys; shape = k; content = content })
  perform-Holds d xs length_of h = (
    d,
    ap (λ n. ok (number n, d)) (h.counted ∙ sym (length-values xs)),
    record { nodes = xs; shape = h; content = refl },
  )
  perform-Holds d xs empty h = (
    d,
    ap (λ n. ok (test (n == 0), d)) (h.counted ∙ sym (length-values xs)),
    record { nodes = xs; shape = h; content = refl },
  )
  perform-Holds d xs (get i) h = (
    d,
    rw (list_get_lem d.list xs i h) (ap (λ v. ok (value v, d)) (nth-values xs i)),
    record { nodes = xs; shape = h; content = refl },
  )

  perform_all-Holds :
      (d : Deque A) (vs : List (Option A)) (ops : List (Op A))
      → Holds d vs
      → perform_all d ops ≡ ok (answer_all vs ops)
  unfolding perform_all
  perform_all-Holds d vs [] h = refl
  perform_all-Holds d vs (op ∷ ops) h =
      let (e, run, k) = perform-Holds d h.nodes op h.shape in
      subst (λ ws. perform_all d (op ∷ ops) ≡ ok (answer_all ws (op ∷ ops))) h.content
        (rw (run, perform_all) (rw (perform_all-Holds e _ ops k) refl))

  -- Any sequence of operations on a new deque, at both ends and by index, gives the answers that the
  -- same operations give on a list of values that starts empty. No operation of it fails.
  pub perform_all_lem : (ops : List (Op A)) → perform_all deque_new ops ≡ ok (answer_all [] ops)
  unfolding deque_new
  perform_all_lem ops =
      perform_all-Holds deque_new [] ops
        (record { nodes = []; shape = list_new-IsList; content = refl })
