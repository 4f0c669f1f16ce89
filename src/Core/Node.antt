-- ===== src/Core/Node.antt =====
-- src/core/worker_reconnect_node.c and worker_disconnect_node.c, and the node functions of
-- worker.c: wiring a new node to the values on the stack, and taking a node of an active pair apart.
use inet_forth.Net.{
  Value, word, node_ctor, function, primitive, wire, principal_wire, PrincipalWire, Heap, NodeCtor,
  arity, Node, load, node_clean, node_set_value, node_get_value, node_get_port_info,
  principal_wire_new, principal_wire_destroy, wire_new,
}
use inet_forth.Net.NodeAllocator.{alone, node_allocator_allocate, allocator_free}
use inet_forth.Core.{Task, Worker, Program, stack_pop, stack_push, worker_add_task}
use inet_forth.Core.Connect.{connect}
pub mod Stacks
pub mod Ports
use inet_forth.Base.{
  Bool, Option, Result, [], assertion, err, false, if◌then◌else◌, none, ok, some, suc, true, update,
  zero, ℕ, ◌+◌, ◌>>=◌, ◌∷◌, ◌>>◌,
}

-- `node_allocator_allocate` marks the node; then `node->ctor = ctor`. The worker of this model runs alone
-- here, and one round is enough (see `Net.NodeAllocator.Interleaved`, also for other workers).
unfoldable pub worker_new_node : Worker → ℕ → Result (ℕ × Worker)
unfolding node_allocator_allocate
worker_new_node w ctor = do
  (n, (a, held), own) ←
      node_allocator_allocate (alone ∷ []) (w.node_allocator, []) w.free_node_stack
  let cell : Node = w.heap.nodes n
  let h = w.heap
  ok (
    n,
    record w {
      node_allocator = a;
      free_node_stack = own;
      heap = record h {
        nodes = update h.nodes n (record cell { ctor = some ctor; is_allocated = true });
      };
    },
  )

-- `node_clean`, which `node_allocator_recycle` repeats, and `allocator_recycle`.
unfoldable pub worker_recycle_node : Worker → ℕ → Result Worker
unfolding allocator_free node_clean
worker_recycle_node w n = do
  (a, own) ← allocator_free w.node_allocator w.free_node_stack n
  ok (record w { node_allocator = a; free_node_stack = own; heap = node_clean w.heap n })

-- What `is_principal_wire` says of a value that is not null.
abbrev pub is_principal_wire : Value → Bool
is_principal_wire (principal_wire p) = true
is_principal_wire _ = false

unfoldable pub reconnect_input :
    Program → Heap → (node index : ℕ) → Value → Result (Option Task × Heap)
unfolding node_get_port_info principal_wire_new node_set_value wire_new connect
reconnect_input p h node index value = do
  port_info ← node_get_port_info p.ctors h node index
  if port_info.is_principal
      then (do
        let (q, h₁) = principal_wire_new h node index
        h₂ ← node_set_value h₁ node index (principal_wire q)
        connect p h₂ (principal_wire q) value)
      else if is_principal_wire value
      then (do
        let (x, h₁) = wire_new h
        h₂ ← node_set_value h₁ node index (wire x)
        connect p h₂ (wire x) value)
      else (do h₁ ← node_set_value h node index value; ok (none, h₁))

unfoldable pub reconnect_output : Program → Heap → (node index : ℕ) → Result (Value × Heap)
unfolding node_get_port_info principal_wire_new node_set_value wire_new
reconnect_output p h node index = do
  port_info ← node_get_port_info p.ctors h node index
  if port_info.is_principal
      then (do
        let (q, h₁) = principal_wire_new h node index
        h₂ ← node_set_value h₁ node index (principal_wire q)
        ok (principal_wire q, h₂))
      else (do
        let (x, h₁) = wire_new h
        h₂ ← node_set_value h₁ node index (wire x)
        ok (wire x, h₂))

-- `if (task) { assert(!found_task); found_task = task; }`
unfoldable pub keep_task : (found : Option Task) → Option Task → Result (Option Task)
keep_task found none = ok found
keep_task none (some t) = ok (some t)
keep_task (some _) (some t) = err assertion

-- The loop over the inputs, from the last port to the first.
unfoldable pub reconnect_inputs :
    Program → Worker → (node : ℕ) → Option Task → ℕ → Result (Option Task × Worker)
unfolding stack_pop reconnect_input keep_task
reconnect_inputs p w node found zero = ok (found, w)
reconnect_inputs p w node found (suc index) = do
  (value, w₁) ← stack_pop w
  (task, h) ← reconnect_input p w₁.heap node index value
  found' ← keep_task found task
  reconnect_inputs p (record w₁ { heap = h }) node found' index

-- The loop over the outputs, from the first port to the last.
unfoldable pub reconnect_outputs : Program → Worker → (node : ℕ) → (count index : ℕ) → Result Worker
unfolding reconnect_output stack_push
reconnect_outputs p w node zero index = ok w
reconnect_outputs p w node (suc count) index = do
  (value, h) ← reconnect_output p w.heap node index
  reconnect_outputs p (stack_push (record w { heap = h }) value) node count (index + 1)

abbrev pub add_found : Worker → Option Task → Worker
add_found w none = w
add_found w (some t) = worker_add_task w t

unfoldable pub worker_reconnect_node : Program → Worker → (node : ℕ) → Result Worker
unfolding reconnect_inputs reconnect_outputs worker_add_task
worker_reconnect_node p w node = do
  c ← load (w.heap.nodes node).ctor
  (found, w₁) ← reconnect_inputs p w node none (p.ctors c).input_arity
  w₂ ← reconnect_outputs p w₁ node (p.ctors c).output_arity (p.ctors c).input_arity
  ok (add_found w₂ found)

-- A principal wire is freed; any other value goes to the stack. `is_principal_wire` reads the
-- object's `spec`, a fault where the wire was freed. `NULL` would be pushed as it is, and nothing reads
-- it back but a fault, so it is a fault here.
unfoldable pub release_port : Worker → Value → Result Worker
unfolding stack_push principal_wire_destroy
release_port w (principal_wire q) = do
  h ← principal_wire_destroy w.heap q
  ok (record w { heap = h })
release_port w (wire x) = load (w.heap.wires x) >>= λ _. ok (stack_push w (wire x))
release_port w v = ok (stack_push w v)

unfoldable pub disconnect_ports : Worker → (node count index : ℕ) → Result Worker
unfolding node_get_value release_port
disconnect_ports w node zero index = ok w
disconnect_ports w node (suc count) index = do
  v ← node_get_value w.heap node index
  x ← load v
  w₁ ← release_port w x
  disconnect_ports w₁ node count (index + 1)

unfoldable pub worker_disconnect_node : Program → Worker → (node : ℕ) → Result Worker
unfolding disconnect_ports worker_recycle_node
worker_disconnect_node p w node = do
  c ← load (w.heap.nodes node).ctor
  w₁ ← disconnect_ports w node (arity (p.ctors c)) 0
  worker_recycle_node w₁ node
