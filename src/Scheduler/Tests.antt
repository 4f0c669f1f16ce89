-- ===== src/Scheduler/Tests.antt =====
-- The theorems on the scheduler on a run of two workers and one task.
use inet_forth.Scheduler.{
  looping, popping, handling, stopped, System, enter, leave, pop, finish, scheduler_new, prepare,
  Reach, start, later, victim_cursor, victim_index,
}
use inet_forth.Scheduler.Invariant.{busy, uncounted}
use inet_forth.Scheduler.Victims.{victim_index_bounds}
use inet_forth.Scheduler.Safety.{stop_leaves_nothing, all_handled_once, handling_counts}
use inet_forth.Base.{[], arith, refl, suc, update, zero, ℕ, ◌<◌, ◌∷◌, ◌≡◌, ◌≢◌, ◌≤◌}

-- The one task is given to worker 0.
abbrev prepared : System
prepared = record scheduler_new {
  task_count = 1;
  deques = update scheduler_new.deques 0 (0 ∷ []);
  created = 1;
}

abbrev entered : System
entered = record prepared { pcs = update prepared.pcs 0 popping }

abbrev popped : System
popped = record entered {
  pcs = update entered.pcs 0 (handling 0);
  deques = update entered.deques 0 [];
}

abbrev finished : System
finished = record popped {
  pcs = update popped.pcs 0 looping;
  task_count = 0;
  handled = update popped.handled 0 1;
}

abbrev half_stopped : System
half_stopped = record finished { pcs = update finished.pcs 0 stopped }

abbrev all_stopped : System
all_stopped = record half_stopped { pcs = update half_stopped.pcs 1 stopped }

popped-Reach : Reach 2 1 popped
unfolding prepare
popped-Reach =
    later (later (start refl) 0 (omega arith) (enter refl (omega arith))) 0 (omega arith)
      (pop refl refl)

finished-Reach : Reach 2 1 finished
finished-Reach = later popped-Reach 0 (omega arith) (finish refl)

all_stopped-Reach : Reach 2 1 all_stopped
all_stopped-Reach =
    later (later finished-Reach 0 (omega arith) (leave refl refl)) 1 (omega arith) (leave refl refl)

both_stopped : (i : ℕ) → i < 2 → all_stopped.pcs i ≡ stopped
both_stopped zero lt = refl
both_stopped (suc zero) lt = refl
both_stopped (suc (suc i)) lt = absurd (omega arith)

all_handled_once_example : all_stopped.handled 0 ≡ 1
all_handled_once_example =
    all_handled_once all_stopped-Reach (omega arith) both_stopped 0 (omega arith)

stop_leaves_nothing_example :
    (finished.deques 1 ≡ []) × (busy (finished.pcs 1) ≡ uncounted (finished.pcs 1))
stop_leaves_nothing_example = stop_leaves_nothing finished-Reach refl 1 (omega arith)

handling_counts_example : (0 < popped.task_count) × (popped.handled 0 ≡ 0) × (0 < popped.created)
handling_counts_example = handling_counts 0 0 popped-Reach (omega arith) refl

victim_index_bounds_example :
    (victim_index 3 1 0 < 3)
    × (victim_index 3 1 0 ≢ 1)
    × (0 < victim_cursor 3 1 0)
    × (victim_cursor 3 1 0 ≤ 2)
victim_index_bounds_example = victim_index_bounds 3 1 0 (omega arith) (omega arith) (omega arith)
