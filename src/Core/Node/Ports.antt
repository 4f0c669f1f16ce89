-- ===== src/Core/Node/Ports.antt =====
-- What `worker_disconnect_node` does with the values at the ports of a node.
use inet_forth.Net.{
  wire, word, node_ctor, function, primitive, principal_wire_destroy, Value, principal_wire, Heap,
  Node, arity, node_get_value, node_clean, node_new, load,
}
use inet_forth.Net.NodeAllocator.Conserved.{allocator_free_total}
use inet_forth.Core.{stack_push, Worker, Program}
use inet_forth.Core.Node.{
  release_port, disconnect_ports, worker_disconnect_node, worker_recycle_node,
}
use inet_forth.Core.Node.Stacks.{SameRest}
use inet_forth.Base.{
  Bool, List, Option, [], arith, false, get_or, if◌then◌else◌, is_some, length, lt→ltb, none, ok,
  refl, some, suc, true, update, ℕ, ◌+◌, ◌<◌, ◌==◌, ◌||◌, ◌∙◌, ◌∷◌, ◌≡◌, ◌≤◌,
}

-- The values that a node gives back, in the order of its ports: all but the principal wires.
unfoldable pub freed_values : List Value → List Value
freed_values [] = []
freed_values (principal_wire q ∷ vs) = freed_values vs
freed_values (v ∷ vs) = v ∷ freed_values vs

-- Whether the principal wire at address `q` is among the values.
unfoldable pub has_principal : ℕ → List Value → Bool
has_principal q [] = false
has_principal q (principal_wire r ∷ vs) = r == q || has_principal q vs
has_principal q (v ∷ vs) = has_principal q vs

-- The stack after pushing the values one after the other.
abbrev pub push_all : List Value → List Value → List Value
push_all [] st = st
push_all (v ∷ vs) st = push_all vs (v ∷ st)

-- The ports from `index` on hold these values.
abbrev pub HoldsFrom : Node → ℕ → List Value → Type 0
HoldsFrom n index [] = Unit {0}
HoldsFrom n index (v ∷ vs) = (get_or n.values index none ≡ some v) × HoldsFrom n (index + 1) vs

-- The wires at the ports are not freed, and no principal wire stands at two of them.
abbrev pub AllLive : Heap → List Value → Type 0
AllLive h [] = Unit {0}
AllLive h (principal_wire q ∷ vs) =
    (is_some (h.principal_wires q) ≡ true) × (has_principal q vs ≡ false) × AllLive h vs
AllLive h (wire x ∷ vs) = (is_some (h.wires x) ≡ true) × AllLive h vs
AllLive h (v ∷ vs) = AllLive h vs

pub record Freed (vs : List Value) (w w' : Worker) : Type 0 where
  pub stack : w'.value_stack ≡ push_all (freed_values vs) w.value_stack
  pub principals :
      (q : ℕ)
      → w'.heap.principal_wires q ≡ (if has_principal q vs then none else w.heap.principal_wires q)
  pub same : SameRest w w'

node_get_value-ok :
    (h : Heap) (node index c : ℕ) (v : Value)
    → (h.nodes node).ctor ≡ some c
    → index < 16
    → get_or (h.nodes node).values index none ≡ some v
    → node_get_value h node index ≡ ok (some v)
unfolding node_get_value
node_get_value-ok h node index c v at lt e = rw (at, lt→ltb index 16 lt, e)

-- One round of the loop, whatever the port holds.
one_port :
    (w w₁ : Worker) (node count index c : ℕ) (v : Value)
    → (w.heap.nodes node).ctor ≡ some c
    → index < 16
    → get_or (w.heap.nodes node).values index none ≡ some v
    → release_port w v ≡ ok w₁
    → disconnect_ports w node (suc count) index ≡ disconnect_ports w₁ node count (index + 1)
unfolding disconnect_ports
one_port w w₁ node count index c v at lt e released =
    rw (node_get_value-ok w.heap node index c v at lt e, load, released) refl

load_some : {A : Type 0} (o : Option A) → is_some o ≡ true → (a : A) × (load o ≡ ok a)
load_some none e = cc
load_some (some a) e = (a, refl)

-- Freeing another principal wire leaves these alive.
AllLive-freed :
    (h : Heap) (r : ℕ) (vs : List Value)
    → has_principal r vs ≡ false
    → AllLive h vs
    → AllLive (record h { principal_wires = update h.principal_wires r none }) vs
unfolding has_principal
AllLive-freed h r [] apart live = tt
AllLive-freed h r (principal_wire q ∷ vs) apart live =
    (ground (arith, live.0, apart), live.1, AllLive-freed h r vs (ground (arith, apart)) live.2)
AllLive-freed h r (wire x ∷ vs) apart live = (live.0, AllLive-freed h r vs apart live.1)
AllLive-freed h r (word x ∷ vs) apart live = AllLive-freed h r vs apart live
AllLive-freed h r (node_ctor x ∷ vs) apart live = AllLive-freed h r vs apart live
AllLive-freed h r (function x ∷ vs) apart live = AllLive-freed h r vs apart live
AllLive-freed h r (primitive x ∷ vs) apart live = AllLive-freed h r vs apart live

abbrev without_principal : Worker → ℕ → Worker
without_principal w r =
    let h = w.heap in
    record w { heap = record h { principal_wires = update h.principal_wires r none } }

disconnect_ports-Freed :
    (w : Worker) (node index c : ℕ) (vs : List Value)
    → (w.heap.nodes node).ctor ≡ some c
    → index + length vs ≤ 16
    → HoldsFrom (w.heap.nodes node) index vs
    → AllLive w.heap vs
    → (w' : Worker) × (disconnect_ports w node (length vs) index ≡ ok w')
      × (w'.heap.nodes ≡ w.heap.nodes)
      × (w'.node_allocator ≡ w.node_allocator)
      × (w'.free_node_stack ≡ w.free_node_stack)
      × Freed vs w w'
unfolding release_port freed_values has_principal
disconnect_ports-Freed w node index c [] at room holds live = (
  w,
  unfold disconnect_ports in refl,
  refl,
  refl,
  refl,
  record {
    stack = refl;
    principals = λ q. refl;
    same = record { task_deque = refl; return_stack = refl };
  },
)
disconnect_ports-Freed w node index c (principal_wire r ∷ vs) at room holds live =
    let w₁ : Worker = without_principal w r in
    let (cell, loaded) = load_some (w.heap.principal_wires r) live.0 in
    let (w', run, nodes, alloc, free, freed) =
      disconnect_ports-Freed w₁ node (index + 1) c vs at (omega arith) holds.1
        (AllLive-freed w.heap r vs live.1 live.2) in
    (
      w',
      one_port w w₁ node (length vs) index c (principal_wire r) at (omega arith) holds.0
            (unfold principal_wire_destroy in rw loaded refl)
          ∙ run,
      nodes,
      alloc,
      free,
      record {
        stack = freed.stack;
        principals = λ q. ground (arith, freed.principals q);
        same = record {
          task_deque = freed.same.task_deque;
          return_stack = freed.same.return_stack;
        };
      },
    )
disconnect_ports-Freed w node index c (wire x ∷ vs) at room holds live =
    let (cell, loaded) = load_some (w.heap.wires x) live.0 in
    let (w', run, nodes, alloc, free, freed) =
      disconnect_ports-Freed (stack_push w (wire x)) node (index + 1) c vs at (omega arith) holds.1
        live.1 in
    (
      w',
      one_port w _ node (length vs) index c (wire x) at (omega arith) holds.0 (rw loaded refl)
          ∙ run,
      nodes,
      alloc,
      free,
      record {
        stack = freed.stack;
        principals = freed.principals;
        same = record {
          task_deque = freed.same.task_deque;
          return_stack = freed.same.return_stack;
        };
      },
    )
disconnect_ports-Freed w node index c (v ∷ vs) at room holds live =
    let (w', run, nodes, alloc, free, freed) =
      disconnect_ports-Freed (stack_push w v) node (index + 1) c vs at (omega arith) holds.1 live in
    (
      w',
      one_port w _ node (length vs) index c v at (omega arith) holds.0 refl ∙ run,
      nodes,
      alloc,
      free,
      record {
        stack = freed.stack;
        principals = freed.principals;
        same = record {
          task_deque = freed.same.task_deque;
          return_stack = freed.same.return_stack;
        };
      },
    )

-- Taking apart a node of at most sixteen ports, all of them set, where no wire at them is freed and
-- no principal wire stands at two of them, always succeeds: its values but the principal wires go
-- to the stack in the order of the ports, exactly those principal wires are freed, the node is left
-- as a new one, and no other node, task or frame changes.
pub worker_disconnect_node_lem :
    (p : Program) (w : Worker) (node c : ℕ) (vs : List Value)
    → (w.heap.nodes node).ctor ≡ some c
    → length vs ≡ arity (p.ctors c)
    → length vs ≤ 16
    → HoldsFrom (w.heap.nodes node) 0 vs
    → AllLive w.heap vs
    → (w' : Worker) × (worker_disconnect_node p w node ≡ ok w')
      × Freed vs w w'
      × ((m : ℕ) → w'.heap.nodes m ≡ (if node == m then node_new else w.heap.nodes m))
unfolding worker_disconnect_node worker_recycle_node node_clean node_new
worker_disconnect_node_lem p w node c vs at len room holds live =
    let (w₁, run, nodes, alloc, free, freed) =
      disconnect_ports-Freed w node 0 c vs at (omega arith) holds live in
    let (a, own, gave) = allocator_free_total w₁.node_allocator w₁.free_node_stack node in
    (
      record w₁ { node_allocator = a; free_node_stack = own; heap = node_clean w₁.heap node },
      rw (at, ← len, run, gave),
      record {
        stack = freed.stack;
        principals = freed.principals;
        same = record {
          task_deque = freed.same.task_deque;
          return_stack = freed.same.return_stack;
        };
      },
      λ m. rw nodes,
    )
