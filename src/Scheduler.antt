-- ===== src/Scheduler.antt =====
-- src/core/worker_work_parallelly.c, scheduler.c and worker_add_task.c: workers that take tasks
-- from their own deques and steal from one another, and stop by the shared `atomic_task_count`.
-- The threads interleave one access to shared memory at a time; a deque operation is one access,
-- since the source holds the deque's lock. The acquire and release orders are taken as sequentially
-- consistent. A task is its number in the order of creation, and what handling it does to the net
-- is left out: a worker that handles a task may add tasks, and at some time is finished.
-- `task_count` is a plain number; it never exceeds the number of tasks in memory, so it cannot
-- overflow, and it is a theorem that the decrement never meets zero. A `size_t` cursor wraps.
use inet_forth.Base.{
  List, Result, [], division_by_zero, err, if◌then◌else◌, ok, suc, update, zero, ℕ, ◌%◌, ◌++◌, ◌+◌,
  ◌-◌, ◌<◌, ◌==◌, ◌^◌, ◌∷◌, ◌≡◌,
}
pub mod Invariant
pub mod Victims
pub mod Safety
mod Tests

-- Where `worker_thread_fn` stands before its next access to shared memory.
pub data Pc : Type 0 where
  -- the loop's test of the task count
  looping : Pc
  -- `deque_pop_front` on its own deque
  popping : Pc
  -- the test in `worker_steal_task`
  stealing : Pc
  -- `deque_pop_front` on the victim's deque
  robbing : (victim : ℕ) → Pc
  -- in `worker_handle_task`
  handling : (task : ℕ) → Pc
  -- in `worker_add_task`, between the push and the count
  adding : (task : ℕ) → Pc
  -- returned
  stopped : Pc

pub record System : Type 0 where
  pub task_count : ℕ
  pub deques : ℕ → List ℕ
  pub pcs : ℕ → Pc
  pub cursors : ℕ → ℕ
  -- tasks created so far, and how often each was handled
  pub created : ℕ
  pub handled : ℕ → ℕ

abbrev pub cursor_mod : ℕ
cursor_mod = 2 ^ 64

-- `++worker->victim_cursor`
abbrev pub next_cursor : ℕ → ℕ
next_cursor c = (c + 1) % cursor_mod

-- The new `victim_cursor` of worker `i` among `n`: it moves on once more if it points at itself.
unfoldable pub victim_cursor : (n i cursor : ℕ) → ℕ
victim_cursor n i c = if next_cursor c % n == i then next_cursor (next_cursor c) else next_cursor c

unfoldable pub victim_index : (n i cursor : ℕ) → ℕ
unfolding victim_cursor
victim_index n i c = victim_cursor n i c % n

abbrev go : System → ℕ → Pc → System
go s i pc = record s { pcs = update s.pcs i pc }

abbrev put : System → ℕ → List ℕ → System
put s i q = record s { deques = update s.deques i q }

-- One step of worker `i`.
pub data Move (n i : ℕ) (s : System) : System → Type 0 where
  enter : s.pcs i ≡ looping → 0 < s.task_count → Move n i s (go s i popping)
  leave : s.pcs i ≡ looping → s.task_count ≡ 0 → Move n i s (go s i stopped)
  pop :
      {t : ℕ} {ts : List ℕ}
      → s.pcs i ≡ popping
      → s.deques i ≡ t ∷ ts
      → Move n i s (put (go s i (handling t)) i ts)
  pop_none : s.pcs i ≡ popping → s.deques i ≡ [] → Move n i s (go s i stealing)
  choose :
      s.pcs i ≡ stealing
      → 0 < s.task_count
      → Move n i s (record s {
        pcs = update s.pcs i (robbing (victim_index n i (s.cursors i)));
        cursors = update s.cursors i (victim_cursor n i (s.cursors i));
      })
  give_up : s.pcs i ≡ stealing → s.task_count ≡ 0 → Move n i s (go s i stopped)
  steal :
      {v t : ℕ} {ts : List ℕ}
      → s.pcs i ≡ robbing v
      → s.deques v ≡ t ∷ ts
      → Move n i s (put (go s i (handling t)) v ts)
  steal_none : {v : ℕ} → s.pcs i ≡ robbing v → s.deques v ≡ [] → Move n i s (go s i stealing)
  push :
      {t : ℕ}
      → s.pcs i ≡ handling t
      → Move n i s (record s {
        pcs = update s.pcs i (adding t);
        deques = update s.deques i (s.deques i ++ s.created ∷ []);
        created = suc s.created;
      })
  count :
      {t : ℕ}
      → s.pcs i ≡ adding t
      → Move n i s (record s { pcs = update s.pcs i (handling t); task_count = s.task_count + 1 })
  finish :
      {t : ℕ}
      → s.pcs i ≡ handling t
      → Move n i s (record s {
        pcs = update s.pcs i looping;
        task_count = s.task_count - 1;
        handled = update s.handled t (s.handled t + 1);
      })

-- `scheduler_new`: empty deques, cursors and count at zero.
abbrev pub scheduler_new : System
scheduler_new = record {
  task_count = 0;
  deques = λ _. [];
  pcs = λ _. looping;
  cursors = λ _. 0;
  created = 0;
  handled = λ _. 0;
}

-- The loop of `scheduler_prepare` over the `k` tasks of the initial deque: `cursor` counts up with
-- the tasks, and `cursor % worker_count` traps where there is no worker.
unfoldable pub prepare : (n k cursor : ℕ) → System → Result System
prepare n zero cursor s = ok s
prepare n (suc k) cursor s =
    if n == 0
    then err division_by_zero
    else prepare n k (cursor + 1) (record s {
      deques = update s.deques (cursor % n) (s.deques (cursor % n) ++ s.created ∷ []);
      task_count = s.task_count + 1;
      created = suc s.created;
    })

-- What the workers can come to from `k` initial tasks.
pub data Reach (n k : ℕ) : System → Type 0 where
  start : {s : System} → prepare n k 0 scheduler_new ≡ ok s → Reach n k s
  later : {s t : System} → Reach n k s → (i : ℕ) → i < n → Move n i s t → Reach n k t
