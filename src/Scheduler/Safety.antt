-- ===== src/Scheduler/Safety.antt =====
-- What holds whenever a worker stops, and when all have stopped.
use inet_forth.Scheduler.Invariant.{
  busy, uncounted, counted, busy-eq-add, count_pos, has, Reach-Inv,
}
use inet_forth.Scheduler.{
  Pc, stopped, looping, handling, System, scheduler_new, prepare, Move, enter, leave, pop, pop_none,
  choose, give_up, steal, steal_none, push, count, finish, Reach, start, later,
}
use inet_forth.Base.{
  Bool-cases, List, [], ap, arith, err-ne-ok, inl, inr, le-sum_below, length, occurs, ok,
  ok-injective, refl, suc, sum_below_add, sum_below_mono, sum_below_zero, sym, zero, ℕ, ◌+◌, ◌<◌,
  ◌==◌, ◌∷◌, ◌≡◌, ◌≤◌,
}

uncounted-le-busy : (p : Pc) → uncounted p ≤ busy p
uncounted-le-busy p = ground arith

nil_of_length : (q : List ℕ) → length q ≡ 0 → q ≡ []
nil_of_length [] e = refl
nil_of_length (x ∷ q) e = absurd (omega arith)

-- In every reachable state where the task count is zero, the state in which a worker stops, no
-- worker's deque holds a task, and a worker that still has a task has pushed another one that it
-- has not counted.
pub stop_leaves_nothing :
    {n k : ℕ} {s : System}
    → Reach n k s
    → s.task_count ≡ 0
    → (i : ℕ) → i < n
    → (s.deques i ≡ []) × (busy (s.pcs i) ≡ uncounted (s.pcs i))
stop_leaves_nothing {n} {s} r zero_count i lt =
    let inv = Reach-Inv r in
    let none_queued : length (s.deques i) ≡ 0 = omega (
      arith,
      inv.balance,
      le-sum_below {0} {A = List ℕ} length n s.deques i lt,
      sum_below_mono uncounted busy n s.pcs uncounted-le-busy,
    ) in
    let none_counted : counted (s.pcs i) ≡ 0 = omega (
      arith,
      inv.balance,
      le-sum_below counted n s.pcs i lt,
      sum_below_add busy uncounted counted n s.pcs busy-eq-add,
    ) in
    (nil_of_length (s.deques i) none_queued, omega (arith, busy-eq-add (s.pcs i)))

prepare-pcs : (n k c : ℕ) (s t : System) → prepare n k c s ≡ ok t → t.pcs ≡ s.pcs
unfolding prepare
prepare-pcs n zero c s t e = ap (λ (x : System). x.pcs) (sym (ok-injective e))
prepare-pcs n (suc k) c s t e = elim (Bool-cases (n == 0)) [
  | inl none_there ↦ absurd (err-ne-ok (rw none_there at e))
  | inr there ↦ prepare-pcs n k (c + 1) _ t (rw there at e)
]

-- A step that leaves its worker stopped has read a count of zero, and left it.
Move-stopped : {n i : ℕ} {s t : System} → Move n i s t → t.pcs i ≡ stopped → t.task_count ≡ 0
Move-stopped (leave e h) st = h
Move-stopped (give_up e h) st = h
Move-stopped (enter e h) st = ground arith
Move-stopped (pop e q) st = ground arith
Move-stopped (pop_none e q) st = ground arith
Move-stopped (choose e h) st = ground arith
Move-stopped (steal e q) st = ground arith
Move-stopped (steal_none e q) st = ground arith
Move-stopped (push e) st = ground arith
Move-stopped (count e) st = ground arith
Move-stopped (finish e) st = ground arith

stopped_count :
    {n k : ℕ} {s : System}
    → Reach n k s
    → 0 < n
    → ((i : ℕ) → i < n → s.pcs i ≡ stopped)
    → s.task_count ≡ 0
stopped_count {n} {k} (start {s} e) pos all =
    let running : s.pcs 0 ≡ looping =
      ap (λ (f : ℕ → Pc). f 0) (prepare-pcs n k 0 scheduler_new s e) in
    ground (arith, all 0)
stopped_count (later r i lt m) pos all = Move-stopped m (all i lt)

-- With at least one worker, when all workers have stopped, each task that was ever created has
-- been handled exactly once.
pub all_handled_once :
    {n k : ℕ} {s : System}
    → Reach n k s
    → 0 < n
    → ((i : ℕ) → i < n → s.pcs i ≡ stopped)
    → (t : ℕ) → t < s.created
    → s.handled t ≡ 1
all_handled_once {n} {s} r pos all t lt =
    let zero_count = stopped_count r pos all in
    ground (
      arith,
      (Reach-Inv r).once t,
      sum_below_zero (occurs t) n s.deques
          (λ i li. ap (occurs t) (stop_leaves_nothing r zero_count i li).0),
      sum_below_zero (has t) n s.pcs (λ i li. ap (has t) (all i li)),
    )

-- While a worker handles a task the count is positive, so that the decrement at its end does not
-- wrap; the task is one of those created, and it was not handled before.
pub handling_counts :
    {n k : ℕ} {s : System} (i t : ℕ)
    → Reach n k s
    → i < n
    → s.pcs i ≡ handling t
    → (0 < s.task_count) × (s.handled t ≡ 0) × (t < s.created)
handling_counts {n} {s} i t r lt e =
    let inv = Reach-Inv r in
    (
      count_pos lt inv e,
      ground (arith, inv.once t, le-sum_below (has t) n s.pcs i lt),
      ground (arith, inv.once t, le-sum_below (has t) n s.pcs i lt),
    )
