-- ===== src/Core.antt =====
-- src/core: the state of a worker, and the operations on frames, functions and tasks.
-- A stack is the list of its content with the top first (see `Std.Stack`), the task deque is the
-- list of its tasks, front first, and an array of variables is an `Array` of `Std.Array`. The
-- debug flags of src/config.h are off, as in a normal build.
use inet_forth.Std.Array.{Array, array_new, array_get, array_set}
use inet_forth.Net.{Value, Heap, NodeCtor, Rule}
use inet_forth.Net.NodeAllocator.{NodeAllocator}
use inet_forth.Base.{
  Bool, List, Option, Result, [], assertion, err, get_elem?, length, ok, some, ℕ, ◌++◌, ◌+◌, ◌==◌,
  ◌∷◌, ◌>>=◌, ◌>>◌,
}
pub mod Connect
pub mod Node
pub mod Mod
pub mod Machine
mod Tests

pub data Opcode : Type 0 where
  apply : (arity : ℕ) → Opcode
  literal : Value → Opcode
  get_variable set_variable : (index : ℕ) → Opcode

-- `arity` of a function is always zero, and `local_index_hash` serves the compiler only.
pub record Function : Type 0 where
  pub opcode_array : List Opcode

pub record Task : Type 0 where
  pub left : ℕ
  pub right : ℕ
  pub rule : Rule

pub record Frame : Type 0 where
  pub cursor : ℕ
  pub function : ℕ
  pub variable_array : Array Value

pub record Worker : Type 0 where
  pub task_deque : List Task
  pub value_stack : List Value
  pub return_stack : List Frame
  pub free_node_stack : List ℕ
  pub node_allocator : NodeAllocator
  pub heap : Heap

-- The six kinds of primitive functions. A function of the first kind gets the worker; the only
-- function of the engine that it calls back is `worker_work`, its first argument.
pub data PrimitiveFn : Type 0 where
  fn : ((Worker → Result Worker) → Worker → Result Worker) → PrimitiveFn
  fn_0 : Result (Option Value) → PrimitiveFn
  fn_1 : (Value → Result (Option Value)) → PrimitiveFn
  fn_2 : (Value → Value → Result (Option Value)) → PrimitiveFn
  fn_3 : (Value → Value → Value → Result (Option Value)) → PrimitiveFn
  fn_4 : (Value → Value → Value → Value → Result (Option Value)) → PrimitiveFn

-- What the addresses of node constructors, functions and primitives point to.
pub record Program : Type 0 where
  pub ctors : ℕ → NodeCtor
  pub functions : ℕ → Function
  pub primitives : ℕ → PrimitiveFn

abbrev pub variable_array_size : ℕ
variable_array_size = 64

unfoldable pub frame_new : ℕ → Frame
unfolding array_new
frame_new f = record { cursor = 0; function = f; variable_array = array_new variable_array_size }

unfoldable pub frame_is_finished : Program → Frame → Bool
frame_is_finished p r = r.cursor == length (p.functions r.function).opcode_array

-- `array_get` past the end gives `NULL`.
unfoldable pub frame_fetch_opcode : Program → Frame → Option Opcode × Frame
frame_fetch_opcode p r =
    (get_elem? (p.functions r.function).opcode_array r.cursor, record r { cursor = r.cursor + 1 })

unfoldable pub frame_get_variable : Frame → ℕ → Option Value
unfolding array_get
frame_get_variable r index = array_get r.variable_array index

unfoldable pub frame_set_variable : Frame → ℕ → Value → Result Frame
unfolding array_set
frame_set_variable r index v = do
  a ← array_set r.variable_array index (some v)
  ok (record r { variable_array = a })

pop_value : Worker → List Value → Result (Value × Worker)
pop_value w [] = err assertion
pop_value w (v ∷ rest) = ok (v, record w { value_stack = rest })

-- `stack_pop` asserts that the stack is not empty.
unfoldable pub stack_pop : Worker → Result (Value × Worker)
unfolding pop_value
stack_pop w = pop_value w w.value_stack

unfoldable pub stack_push : Worker → Value → Worker
stack_push w v = record w { value_stack = v ∷ w.value_stack }

-- `deque_push_back`. A worker with a scheduler then counts the task up in `atomic_task_count`, which is
-- modelled in `Scheduler`: its state `adding` stands between the push and the count.
unfoldable pub worker_add_task : Worker → Task → Worker
worker_add_task w t = record w { task_deque = w.task_deque ++ t ∷ [] }
