-- ===== src/Core/Machine.antt =====
-- src/core: worker_apply.c, worker_run_until.c, worker_handle_task.c and worker_work_sequentially.c,
-- the inner interpreter. The two loops take fuel, since a program may run for ever.
use inet_forth.Net.{Value, word, node_ctor, function, primitive, wire, principal_wire, load}
use inet_forth.Core.{
  Opcode, apply, literal, get_variable, set_variable, Function, Task, Frame, Worker, PrimitiveFn,
  fn, fn_0, fn_1, fn_2, fn_3, fn_4, Program, frame_new, frame_is_finished, frame_fetch_opcode,
  frame_get_variable, frame_set_variable, stack_pop, stack_push,
}
use inet_forth.Core.Node.{worker_new_node, worker_reconnect_node, worker_disconnect_node}
use inet_forth.Base.{
  Bool, List, Option, Result, [], err, exit_failure, false, if◌then◌else◌, length, ltb, none, ok,
  out_of_fuel, some, suc, true, zero, ℕ, ◌∷◌, ◌>>=◌, ◌>>◌,
}
pub mod Calls

-- `worker_work`, which a primitive function may call back.
abbrev pub Work : Type 0
Work = Worker → Result Worker

-- `if (result != NULL) stack_push(...)`
push_result : Worker → Option Value → Worker
unfolding stack_push
push_result w none = w
push_result w (some v) = stack_push w v

-- The last argument is on top of the stack.
unfoldable pub worker_apply_primitive : Work → Worker → PrimitiveFn → Result Worker
unfolding stack_pop push_result
worker_apply_primitive work w (fn f) = f work w
worker_apply_primitive work w (fn_0 f) = do r ← f; ok (push_result w r)
worker_apply_primitive work w (fn_1 f) = do (x, w₁) ← stack_pop w; r ← f x; ok (push_result w₁ r)
worker_apply_primitive work w (fn_2 f) = do
  (y, w₁) ← stack_pop w
  (x, w₂) ← stack_pop w₁
  r ← f x y
  ok (push_result w₂ r)
worker_apply_primitive work w (fn_3 f) = do
  (z, w₁) ← stack_pop w
  (y, w₂) ← stack_pop w₁
  (x, w₃) ← stack_pop w₂
  r ← f x y z
  ok (push_result w₃ r)
worker_apply_primitive work w (fn_4 f) = do
  (t, w₁) ← stack_pop w
  (z, w₂) ← stack_pop w₁
  (y, w₃) ← stack_pop w₂
  (x, w₄) ← stack_pop w₃
  r ← f x y z t
  ok (push_result w₄ r)

-- `stack_push(worker->return_stack, frame)`
abbrev pub push_frame : Worker → Frame → Worker
push_frame w r = record w { return_stack = r ∷ w.return_stack }

unfoldable pub worker_apply : Program → Work → Worker → Value → Result Worker
unfolding worker_new_node worker_reconnect_node worker_apply_primitive frame_new
worker_apply p work w (node_ctor c) = do (n, w₁) ← worker_new_node w c; worker_reconnect_node p w₁ n
worker_apply p work w (function f) = ok (push_frame w (frame_new f))
worker_apply p work w (primitive i) = worker_apply_primitive work w (p.primitives i)
worker_apply p work w _ = err exit_failure

replace_top : List Frame → Frame → List Frame
replace_top [] frame = []
replace_top (_ ∷ rest) frame = frame ∷ rest

-- A write to a frame that still stands on the return stack shows there: it is the same object. A
-- finished frame is in no stack, and is freed after its last opcode.
update_frame : (finished : Bool) → Worker → Frame → Worker
unfolding replace_top
update_frame true w frame = w
update_frame false w frame = record w { return_stack = replace_top w.return_stack frame }

-- An unset variable is `NULL`, which no compiled code reads: it is a fault here.
unfoldable pub worker_execute_opcode :
    Program → Work → Worker → (finished : Bool) → Frame → Opcode → Result Worker
unfolding stack_pop worker_apply stack_push frame_get_variable frame_set_variable update_frame
worker_execute_opcode p work w finished frame (apply n) = do
  (target, w₁) ← stack_pop w
  worker_apply p work w₁ target
worker_execute_opcode p work w finished frame (literal v) = ok (stack_push w v)
worker_execute_opcode p work w finished frame (get_variable i) = do
  v ← load (frame_get_variable frame i)
  ok (stack_push w v)
worker_execute_opcode p work w finished frame (set_variable i) = do
  (v, w₁) ← stack_pop w
  frame' ← frame_set_variable frame i v
  ok (update_frame finished w₁ frame')

-- One opcode of the frame that was popped. Its frame is not pushed back behind its last opcode: a
-- proper tail call.
unfoldable pub worker_run_frame : Program → Work → Worker → Frame → Result Worker
unfolding frame_is_finished frame_fetch_opcode worker_execute_opcode
worker_run_frame p work w frame = if frame_is_finished p frame then ok w else (do
  let (op, frame') = frame_fetch_opcode p frame
  opcode ← load op
  let finished = frame_is_finished p frame'
  worker_execute_opcode p work (if finished then w else push_frame w frame') finished frame' opcode)

run_top : Program → Work → Worker → List Frame → Result Worker
unfolding worker_run_frame
run_top p work w [] = ok w
run_top p work w (frame ∷ rest) = worker_run_frame p work (record w { return_stack = rest }) frame

unfoldable pub worker_run_one_step : Program → Work → Worker → Result Worker
unfolding run_top
worker_run_one_step p work w = run_top p work w w.return_stack

-- Both nodes of the pair are taken apart, left one first, and the rule's function is started.
unfoldable pub start_task : Program → Worker → Task → Result Worker
unfolding worker_disconnect_node frame_new
start_task p w task = do
  l ← load (w.heap.principal_wires task.left)
  w₁ ← worker_disconnect_node p w l.node
  r ← load (w₁.heap.principal_wires task.right)
  w₂ ← worker_disconnect_node p w₁ r.node
  ok (push_frame w₂ (frame_new task.rule.function))

-- `deque_pop_front` of the worker's own deque.
abbrev pub pop_task : List Task → Option (Task × List Task)
pop_task [] = none
pop_task (t ∷ ts) = some (t, ts)

-- `worker_run_until`, `worker_handle_task` and `worker_work_sequentially`. Taking the nodes apart
-- leaves the return stack alone, so `base_length` is its length before.
unfoldable mutual
  unfolding worker_run_one_step start_task

  pub worker_run_until : ℕ → Program → Worker → (base_length : ℕ) → Result Worker
  worker_run_until zero p w base = err out_of_fuel
  worker_run_until (suc f) p w base = elim (ltb base (length w.return_stack)) [
    | true ↦ (do w₁ ← worker_run_one_step p (worker_work f p) w; worker_run_until f p w₁ base)
    | false ↦ ok w
  ]

  pub worker_work : ℕ → Program → Worker → Result Worker
  worker_work zero p w = err out_of_fuel
  worker_work (suc f) p w = elim (pop_task w.task_deque) [
    | none ↦ ok w
    | some (t, ts) ↦ (do
      w₁ ← start_task p (record w { task_deque = ts }) t
      w₂ ← worker_run_until f p w₁ (length w.return_stack)
      worker_work f p w₂)
  ]
