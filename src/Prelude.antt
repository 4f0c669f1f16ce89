-- ===== src/Prelude.antt =====
-- src/prelude: the words on values (value.c) and those on the net (net.c) that are not output.
use inet_forth.Net.{Value, wire, Wire, Heap, wire_new, same_value, load}
use inet_forth.Value.{xbool}
use inet_forth.Core.{Task, Worker, Program, stack_pop, stack_push, worker_add_task}
use inet_forth.Core.Connect.{connect}
use inet_forth.Core.Machine.{Work}
use inet_forth.Base.{Option, Result, none, ok, some, ◌>>=◌, ◌>>◌}
pub mod Link
pub mod Define
mod Tests

unfoldable pub x_dup : Worker → Result Worker
unfolding stack_pop stack_push
x_dup w = do (x, w₁) ← stack_pop w; ok (stack_push (stack_push w₁ x) x)

unfoldable pub x_swap : Worker → Result Worker
unfolding stack_pop stack_push
x_swap w = do (y, w₁) ← stack_pop w; (x, w₂) ← stack_pop w₁; ok (stack_push (stack_push w₂ y) x)

unfoldable pub x_drop : Worker → Result Worker
unfolding stack_pop
x_drop w = do (_, w₁) ← stack_pop w; ok w₁

unfoldable pub x_rot : Worker → Result Worker
unfolding stack_pop stack_push
x_rot w = do
  (z, w₁) ← stack_pop w
  (y, w₂) ← stack_pop w₁
  (x, w₃) ← stack_pop w₂
  ok (stack_push (stack_push (stack_push w₃ y) z) x)

unfoldable pub x_over : Worker → Result Worker
unfolding stack_pop stack_push
x_over w = do
  (y, w₁) ← stack_pop w
  (x, w₂) ← stack_pop w₁
  ok (stack_push (stack_push (stack_push w₂ x) y) x)

unfoldable pub x_tuck : Worker → Result Worker
unfolding stack_pop stack_push
x_tuck w = do
  (y, w₁) ← stack_pop w
  (x, w₂) ← stack_pop w₁
  ok (stack_push (stack_push (stack_push w₂ y) x) y)

-- `if (task) worker_add_task(worker, task)`
abbrev pub add_task : Worker → Option Task → Worker
add_task w none = w
add_task w (some t) = worker_add_task w t

-- The values of a stack are never null, so that the two assertions hold.
unfoldable pub x_connect : Program → Worker → Result Worker
unfolding stack_pop connect worker_add_task
x_connect p w = do
  (second, w₁) ← stack_pop w
  (first, w₂) ← stack_pop w₁
  (task, h) ← connect p w₂.heap first second
  ok (add_task (record w₂ { heap = h }) task)

unfoldable pub x_link : Worker → Worker
unfolding wire_new stack_push
x_link w =
    let (x, h) = wire_new w.heap in
    stack_push (stack_push (record w { heap = h }) (wire x)) (wire x)

-- `worker_work`, which the primitive gets as its argument.
abbrev pub x_run : Work → Work
x_run work = work
