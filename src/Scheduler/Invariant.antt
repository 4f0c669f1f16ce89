-- ===== src/Scheduler/Invariant.antt =====
-- No task is lost, none is handled twice, and the count that stops the workers is right.
use inet_forth.Scheduler.Victims.{victim_index-lt}
use inet_forth.Scheduler.{
  Pc, looping, popping, stealing, robbing, handling, adding, stopped, System, Move, enter, leave,
  pop, pop_none, choose, give_up, steal, steal_none, push, count, finish, scheduler_new, prepare,
  Reach, start, later,
}
use inet_forth.Base.{
  Bool-cases, List, [], ap, arith, err-ne-ok, if◌then◌else◌, inl, inr, le-sum_below, length,
  length-append, ltb, occurs, ok, ok-injective, refl, subst, suc, sum_below, sum_below-update,
  sum_below_add, sum_below_zero, update, zero, ℕ, ◌%◌, ◌++◌, ◌+◌, ◌<◌, ◌==◌, ◌∷◌, ◌≡◌,
}

-- A worker has a task from its pop to the decrement.
abbrev pub busy : Pc → ℕ
busy (handling t) = 1
busy (adding t) = 1
busy _ = 0

-- It has pushed a task that is not counted yet.
abbrev pub uncounted : Pc → ℕ
uncounted (adding t) = 1
uncounted _ = 0

abbrev pub has : ℕ → Pc → ℕ
has t (handling u) = if t == u then 1 else 0
has t (adding u) = if t == u then 1 else 0
has t _ = 0

abbrev pub total {ℓ} : {A : Type ℓ} → (A → ℕ) → ℕ → (ℕ → A) → ℕ
total = sum_below

pub record Inv (n : ℕ) (s : System) : Type 0 where
  -- the count is that of the queued and the busy, but for the pushes that are not counted yet
  pub balance :
      s.task_count + total uncounted n s.pcs ≡ total length n s.deques + total busy n s.pcs
  -- each task created is in one deque, or with one worker, or was handled, and only once
  pub once :
      (t : ℕ)
      → total (occurs t) n s.deques + total (has t) n s.pcs + s.handled t
        ≡ (if ltb t s.created then 1 else 0)
  -- a worker robs one of the workers
  pub victims : (j v : ℕ) → s.pcs j ≡ robbing v → v < n

occurs-snoc :
    (t u : ℕ) (q : List ℕ) → occurs t (q ++ u ∷ []) ≡ occurs t q + (if t == u then 1 else 0)
occurs-snoc t u [] = omega arith
occurs-snoc t u (x ∷ q) = omega (arith, occurs-snoc t u q)

length-snoc : (u : ℕ) (q : List ℕ) → length (q ++ u ∷ []) ≡ length q + 1
length-snoc u q = omega (arith, length-append q (u ∷ []))

-- A worker in `worker_handle_task` proper, behind or before any `worker_add_task`.
abbrev pub counted : Pc → ℕ
counted (handling t) = 1
counted _ = 0

pub busy-eq-add : (p : Pc) → busy p ≡ uncounted p + counted p
busy-eq-add p = ground arith

-- The decrement never meets zero.
pub count_pos : {n i t : ℕ} {s : System} → i < n → Inv n s → s.pcs i ≡ handling t → 0 < s.task_count
count_pos {n} {i} {t} {s} lt inv e =
    let here : counted (s.pcs i) ≡ 1 = ground arith in
    omega (
      arith,
      inv.balance,
      here,
      le-sum_below counted n s.pcs i lt,
      sum_below_add busy uncounted counted n s.pcs busy-eq-add,
    )

module _ (n i : ℕ) (lt : i < n) (s : System) (inv : Inv n s) where
  pcs_change :
      (weight : Pc → ℕ) (p : Pc)
      → total weight n (update s.pcs i p) + weight (s.pcs i) ≡ total weight n s.pcs + weight p
  pcs_change weight p = sum_below-update weight n s.pcs i p lt

  abbrev Balanced : System → Type 0
  Balanced s' =
      s'.task_count + total uncounted n s'.pcs ≡ total length n s'.deques + total busy n s'.pcs

  -- A worker that moves on without a task changes neither side.
  go-Balanced :
      (p : Pc) → busy (s.pcs i) ≡ 0 → busy p ≡ 0 → Balanced (record s { pcs = update s.pcs i p })
  go-Balanced p a b = omega (
    arith,
    inv.balance,
    busy-eq-add (s.pcs i),
    busy-eq-add p,
    pcs_change uncounted p,
    pcs_change busy p,
  )

  take-Balanced :
      (v t : ℕ) (ts : List ℕ)
      → v < n
      → busy (s.pcs i) ≡ 0
      → s.deques v ≡ t ∷ ts
      → Balanced (record s { pcs = update s.pcs i (handling t); deques = update s.deques v ts })
  take-Balanced v t ts lv a q = omega (
    arith,
    inv.balance,
    busy-eq-add (s.pcs i),
    ap length q,
    pcs_change uncounted (handling t),
    pcs_change busy (handling t),
    sum_below-update length n s.deques v ts lv,
  )

  Move-balance : {s' : System} → Move n i s s' → Balanced s'
  Move-balance (enter e h) = go-Balanced popping (ap busy e) refl
  Move-balance (leave e h) = go-Balanced stopped (ap busy e) refl
  Move-balance (pop {t} {ts} e q) = take-Balanced i t ts lt (ap busy e) q
  Move-balance (pop_none e q) = go-Balanced stealing (ap busy e) refl
  Move-balance (choose e h) = go-Balanced (robbing _) (ap busy e) refl
  Move-balance (give_up e h) = go-Balanced stopped (ap busy e) refl
  Move-balance (steal {v} {t} {ts} e q) = take-Balanced v t ts (inv.victims i v e) (ap busy e) q
  Move-balance (steal_none e q) = go-Balanced stealing (ap busy e) refl
  Move-balance (push {t} e) = omega (
    arith,
    inv.balance,
    ap busy e,
    ap uncounted e,
    pcs_change uncounted (adding t),
    pcs_change busy (adding t),
    sum_below-update length n s.deques i (s.deques i ++ s.created ∷ []) lt,
    length-snoc s.created (s.deques i),
  )
  Move-balance (count {t} e) = omega (
    arith,
    inv.balance,
    ap busy e,
    ap uncounted e,
    pcs_change uncounted (handling t),
    pcs_change busy (handling t),
  )
  Move-balance (finish {t} e) = omega (
    arith,
    inv.balance,
    ap busy e,
    ap uncounted e,
    count_pos lt inv e,
    pcs_change uncounted looping,
    pcs_change busy looping,
  )

  Move-victims : {s' : System} → Move n i s s' → (j v : ℕ) → s'.pcs j ≡ robbing v → v < n
  Move-victims (choose e h) j v r =
      ground (arith, inv.victims j v, victim_index-lt n i (s.cursors i) lt)
  Move-victims (enter e h) j v r = ground (arith, inv.victims j v)
  Move-victims (leave e h) j v r = ground (arith, inv.victims j v)
  Move-victims (pop e q) j v r = ground (arith, inv.victims j v)
  Move-victims (pop_none e q) j v r = ground (arith, inv.victims j v)
  Move-victims (give_up e h) j v r = ground (arith, inv.victims j v)
  Move-victims (steal e q) j v r = ground (arith, inv.victims j v)
  Move-victims (steal_none e q) j v r = ground (arith, inv.victims j v)
  Move-victims (push e) j v r = ground (arith, inv.victims j v)
  Move-victims (count e) j v r = ground (arith, inv.victims j v)
  Move-victims (finish e) j v r = ground (arith, inv.victims j v)

  module _ (t : ℕ) where
    abbrev Once : System → Type 0
    Once s' =
        total (occurs t) n s'.deques + total (has t) n s'.pcs + s'.handled t
        ≡ (if ltb t s'.created then 1 else 0)

    go-Once : (p : Pc) → has t (s.pcs i) ≡ has t p → Once (record s { pcs = update s.pcs i p })
    go-Once p a = omega (arith, inv.once t, pcs_change (has t) p)

    take-Once :
        (v u : ℕ) (ts : List ℕ)
        → v < n
        → has t (s.pcs i) ≡ 0
        → s.deques v ≡ u ∷ ts
        → Once (record s { pcs = update s.pcs i (handling u); deques = update s.deques v ts })
    take-Once v u ts lv a q = omega (
      arith,
      inv.once t,
      a,
      ap (occurs t) q,
      pcs_change (has t) (handling u),
      sum_below-update (occurs t) n s.deques v ts lv,
    )

    Move-handled_one : {s' : System} → Move n i s s' → Once s'
    Move-handled_one (enter e h) = go-Once popping (ap (has t) e)
    Move-handled_one (leave e h) = go-Once stopped (ap (has t) e)
    Move-handled_one (pop {t = u} {ts} e q) = take-Once i u ts lt (ap (has t) e) q
    Move-handled_one (pop_none e q) = go-Once stealing (ap (has t) e)
    Move-handled_one (choose e h) = go-Once (robbing _) (ap (has t) e)
    Move-handled_one (give_up e h) = go-Once stopped (ap (has t) e)
    Move-handled_one (steal {v} {t = u} {ts} e q) =
        take-Once v u ts (inv.victims i v e) (ap (has t) e) q
    Move-handled_one (steal_none e q) = go-Once stealing (ap (has t) e)
    Move-handled_one (push {t = u} e) = ground (
      arith,
      inv.once t,
      ap (has t) e,
      pcs_change (has t) (adding u),
      occurs-snoc t s.created (s.deques i),
      sum_below-update (occurs t) n s.deques i (s.deques i ++ s.created ∷ []) lt,
    )
    Move-handled_one (count {t = u} e) = go-Once (handling u) (ap (has t) e)
    Move-handled_one (finish {t = u} e) =
        ground (arith, inv.once t, ap (has t) e, pcs_change (has t) looping)

pub Move-Inv : {n i : ℕ} {s s' : System} → i < n → Move n i s s' → Inv n s → Inv n s'
Move-Inv {n} {i} {s} lt m inv = record {
  balance = Move-balance n i lt s inv m;
  once = λ t. Move-handled_one n i lt s inv t m;
  victims = Move-victims n i lt s inv m;
}

-- Handing one initial task to a worker.
hand_out : ℕ → ℕ → System → System
hand_out n c s = record s {
  deques = update s.deques (c % n) (s.deques (c % n) ++ s.created ∷ []);
  task_count = s.task_count + 1;
  created = suc s.created;
}

hand_out-Inv : (n c : ℕ) (s : System) → 0 < n → Inv n s → Inv n (hand_out n c s)
unfolding hand_out
hand_out-Inv n c s pos inv =
    let lt : c % n < n = omega arith in
    let q = s.deques (c % n) ++ s.created ∷ [] in
    record {
      balance = omega (
        arith,
        inv.balance,
        sum_below-update length n s.deques (c % n) q lt,
        length-snoc s.created (s.deques (c % n)),
      );
      once = λ t. ground (
        arith,
        inv.once t,
        occurs-snoc t s.created (s.deques (c % n)),
        sum_below-update (occurs t) n s.deques (c % n) q lt,
      );
      victims = inv.victims;
    }

prepare-Inv : (n k c : ℕ) (s t : System) → Inv n s → prepare n k c s ≡ ok t → Inv n t
unfolding prepare hand_out
prepare-Inv n zero c s t inv e = subst (Inv n) (ok-injective e) inv
prepare-Inv n (suc k) c s t inv e = elim (Bool-cases (n == 0)) [
  | inl none_there ↦ absurd (err-ne-ok (rw none_there at e))
  | inr there ↦
      prepare-Inv n k (c + 1) (hand_out n c s) t (hand_out-Inv n c s (ground arith) inv)
        (rw there at e)
]

scheduler_new-Inv : (n : ℕ) → Inv n scheduler_new
scheduler_new-Inv n = record {
  balance = omega (
    arith,
    sum_below_zero uncounted n (λ _. looping) (λ k lt. refl),
    sum_below_zero {0} {A = List ℕ} length n (λ _. []) (λ k lt. refl),
    sum_below_zero busy n (λ _. looping) (λ k lt. refl),
  );
  once = λ t. ground (
    arith,
    sum_below_zero (occurs t) n (λ _. []) (λ k lt. refl),
    sum_below_zero (has t) n (λ _. looping) (λ k lt. refl),
  );
  victims = λ j v e. cc;
}

-- The invariant holds in every state that the workers can come to, from any initial tasks.
pub Reach-Inv : {n k : ℕ} {s : System} → Reach n k s → Inv n s
Reach-Inv {n} {k} (start {s} e) = prepare-Inv n k 0 scheduler_new s (scheduler_new-Inv n) e
Reach-Inv (later r i lt m) = Move-Inv lt m (Reach-Inv r)
