-- ===== src/Core/Tests.antt =====
-- The theorems on the engine at a small program: two constructors with one rule, a function that
-- duplicates through a variable, and one that calls it.
use inet_forth.Std.Array.{Array, array_new, array_get, array_set}
use inet_forth.Net.{
  node_ctor, Value, word, function, wire, principal_wire, Rule, NodeCtor, Node, PrincipalWire, Heap,
  node_new, wire_destroy,
}
use inet_forth.Net.NodeAllocator.Interleaved.{Allocated, has_quiet, node_allocator_allocate_lem}
use inet_forth.Net.NodeAllocator.{
  Round, Shared, takes, gives, NodeAllocator, node_allocator_allocate, allocator_free,
}
use inet_forth.Net.NodeAllocator.Conserved.{Placed, lend, allocator_free_lem}
use inet_forth.Core.{
  apply, literal, get_variable, set_variable, Function, Task, Frame, Worker, fn_0, Program,
  frame_new, variable_array_size,
}
use inet_forth.Core.Connect.{connect, connect_active_pair}
use inet_forth.Core.Connect.Rules.{Chosen, Linked, connect_active_pair_lem}
use inet_forth.Core.Connect.Fuel.{WiresBelow, connect-ne_out_of_fuel, connect_both_ends}
use inet_forth.Std.Hash.{Entry}
use inet_forth.Core.Mod.{Mod, mod_find, mod_define_rule}
use inet_forth.Core.Mod.Rules.{rule_of, task_of, mod_define_rule_lem}
use inet_forth.Core.Node.{release_port, worker_reconnect_node, worker_disconnect_node}
use inet_forth.Core.Node.Stacks.{as_list, worker_reconnect_node_arity}
use inet_forth.Core.Node.Ports.{Freed, has_principal, worker_disconnect_node_lem}
use inet_forth.Core.Machine.{push_frame, worker_run_until}
use inet_forth.Core.Machine.Calls.{
  at, Runs, returns, run_literal, run_get, run_set, run_call, run_until-Runs,
}
use inet_forth.Base.{
  List, Option, Result, [], arith, dangling, err, false, if◌then◌else◌, length, none, occurs, ok,
  out_of_fuel, refl, set, some, suc, true, zero, ℕ, ◌++◌, ◌==◌, ◌>>=◌, ◌∷◌, ◌≡◌, ◌≢◌, ◌⊎◌,
}

abbrev sum_rule : Rule
sum_rule = record { left_node_ctor = 1; right_node_ctor = 0; function = 0 }

-- `zero -- value!`, and `target! addend -- result`.
abbrev ctors : ℕ → NodeCtor
ctors zero = record {
  name = (b'z' ∷ b'e' ∷ b'r' ∷ b'o' ∷ []);
  input_arity = 0;
  output_arity = 1;
  port_infos = record { name = (b'v' ∷ b'a' ∷ b'l' ∷ b'u' ∷ b'e' ∷ []); is_principal = true } ∷ [];
  rule_array = sum_rule ∷ [];
}
ctors (suc _) = record {
  name = (b'a' ∷ b'd' ∷ b'd' ∷ []);
  input_arity = 2;
  output_arity = 1;
  port_infos =
      record { name = (b't' ∷ b'a' ∷ b'r' ∷ b'g' ∷ b'e' ∷ b't' ∷ []); is_principal = true }
      ∷ record { name = (b'a' ∷ b'd' ∷ b'd' ∷ b'e' ∷ b'n' ∷ b'd' ∷ []); is_principal = false }
      ∷ record { name = (b'r' ∷ b'e' ∷ b's' ∷ b'u' ∷ b'l' ∷ b't' ∷ []); is_principal = false }
      ∷ [];
  rule_array = sum_rule ∷ [];
}

abbrev functions : ℕ → Function
functions zero = record { opcode_array = set_variable 0 ∷ get_variable 0 ∷ get_variable 0 ∷ [] }
functions (suc _) = record {
  opcode_array = literal (word 42) ∷ literal (function 0) ∷ apply 0 ∷ [];
}

abbrev program : Program
program = record { ctors = ctors; functions = functions; primitives = λ _. fn_0 (ok none) }

-- Node 0 is a `zero` and node 1 an `add`; each holds its principal wire.
abbrev cells : ℕ → Node
cells zero = record { ctor = some 0; is_allocated = true; values = some (principal_wire 0) ∷ [] }
cells (suc zero) = record {
  ctor = some 1;
  is_allocated = true;
  values = some (principal_wire 1) ∷ some (word 10) ∷ some (wire 0) ∷ [];
}
cells (suc (suc zero)) = record {
  ctor = some 1;
  is_allocated = true;
  values = none ∷ none ∷ none ∷ [];
}
cells _ = node_new

abbrev zero_wire : PrincipalWire
zero_wire = record { node = 0; index = 0; oppsite = none }

abbrev add_wire : PrincipalWire
add_wire = record { node = 1; index = 0; oppsite = none }

abbrev heap : Heap
heap = record {
  nodes = cells;
  wires = λ x. if x == 0 then some (record { fuzed_value = none }) else none;
  principal_wires = λ q. if q == 0 then some zero_wire else if q == 1 then some add_wire else none;
  next_wire = 1;
  next_principal_wire = 2;
}

abbrev allocator : NodeAllocator
allocator = record { cache_size = 2; batch_size = 3; node_count = 0; stack = [] }

abbrev worker : Worker
worker = record {
  task_deque = [];
  value_stack = word 18 ∷ wire 0 ∷ word 34 ∷ [];
  return_stack = [];
  free_node_stack = [];
  node_allocator = allocator;
  heap = heap;
}

connect_active_pair_lem_example :
    (o : Option Task) × (g : Heap) × (connect_active_pair program heap 0 1 ≡ ok (o, g))
    × Linked heap 0 1 zero_wire add_wire g
    × Chosen (sum_rule ∷ sum_rule ∷ []) 0 1 0 1 o
connect_active_pair_lem_example =
    connect_active_pair_lem program heap 0 1 0 1 zero_wire add_wire (λ e. omega arith) refl refl
      refl refl

heap-WiresBelow : WiresBelow heap
heap-WiresBelow w le = ground arith

connect-ne_out_of_fuel_example : connect program heap (wire 0) (principal_wire 1) ≢ err out_of_fuel
connect-ne_out_of_fuel_example =
    connect-ne_out_of_fuel program heap (wire 0) (principal_wire 1) heap-WiresBelow

connect_both_ends_example :
    (g : Heap) × (connect program heap (wire 0) (principal_wire 0) ≡ ok (none, g))
    × (connect program g (wire 0) (principal_wire 1)
        ≡ connect program (wire_destroy heap 0) (principal_wire 0) (principal_wire 1))
connect_both_ends_example =
    connect_both_ends program heap 0 (principal_wire 0) (principal_wire 1) heap-WiresBelow refl

-- The worker behind a successful run.
abbrev result : Result Worker → Worker
result (ok w) = w
result (err e) = worker

abbrev wired : Worker
wired = result (worker_reconnect_node program worker 2)

runs_well : worker_reconnect_node program worker 2 ≡ ok wired
unfolding worker_reconnect_node
runs_well = refl

worker_reconnect_node_arity_example :
    (inputs : List Value) × (outputs : List Value) × (rest : List Value) × (found : Option Task)
    × (worker.value_stack ≡ inputs ++ rest)
    × (wired.value_stack ≡ outputs ++ rest)
    × (length inputs ≡ 2)
    × (length outputs ≡ 1)
    × (wired.task_deque ≡ worker.task_deque ++ as_list found)
    × (wired.return_stack ≡ worker.return_stack)
worker_reconnect_node_arity_example = worker_reconnect_node_arity program worker 2 1 refl runs_well

abbrev add_ports : List Value
add_ports = principal_wire 1 ∷ word 10 ∷ wire 0 ∷ []

worker_disconnect_node_lem_example :
    (w' : Worker) × (worker_disconnect_node program worker 1 ≡ ok w')
    × Freed add_ports worker w'
    × ((m : ℕ) → w'.heap.nodes m ≡ (if 1 == m then node_new else worker.heap.nodes m))
unfolding has_principal
worker_disconnect_node_lem_example =
    worker_disconnect_node_lem program worker 1 1 add_ports refl refl (omega arith)
      (refl, (refl, (refl, tt))) (refl, refl, (refl, tt))

-- A principal wire at two ports is freed twice.
freed_twice :
    (release_port worker (principal_wire 1) >>= λ w. release_port w (principal_wire 1))
    ≡ err dangling
unfolding release_port
freed_twice = refl

abbrev nowhere : ℕ → ℕ
nowhere n = 0

none_held : Placed allocator [] (λ n. occurs n [])
none_held n = ground arith

-- In the first round another worker takes the whole batch; in the second it gives a node back.
abbrev rounds : List Round
rounds = ([], takes ∷ takes ∷ takes ∷ []) ∷ ([], gives 2 ∷ []) ∷ []

node_allocator_allocate_lem_example :
    ((n : ℕ) × (s : Shared) × (own : List ℕ) × (node_allocator_allocate rounds (allocator, []) []
        ≡ ok (n, s, own))
      × Allocated n s own)
    ⊎ ((node_allocator_allocate rounds (allocator, []) [] ≡ err out_of_fuel)
        × (has_quiet rounds ≡ false))
node_allocator_allocate_lem_example =
    node_allocator_allocate_lem rounds allocator [] [] (omega arith) (omega arith) none_held

-- Another worker that takes every batch keeps the loop going.
starved :
    node_allocator_allocate (([], takes ∷ takes ∷ takes ∷ []) ∷ []) (allocator, []) []
    ≡ err out_of_fuel
unfolding node_allocator_allocate
starved = refl

abbrev one_made : NodeAllocator
one_made = record allocator { node_count = 1 }

one_lent : Placed one_made [] (lend nowhere 1)
one_lent n = ground arith

allocator_free_lem_example :
    (a : NodeAllocator) × (own : List ℕ) × (allocator_free one_made [] 1 ≡ ok (a, own))
    × Placed a own nowhere
allocator_free_lem_example = allocator_free_lem one_made [] nowhere 1 one_lent

abbrev stacked : List Value → Worker
stacked st = record worker { value_stack = st }

abbrev variables : Array Value
variables = array_new variable_array_size

abbrev with_42 : Array Value
with_42 = record variables { cursor = 1; values = set variables.values 0 (some (word 42)) }

duplicates : Runs program 0 0 variables (stacked (word 42 ∷ [])) (stacked (word 42 ∷ word 42 ∷ []))
unfolding array_set array_get array_new
duplicates =
    run_set {vs' = with_42} refl refl refl (run_get refl refl (run_get refl refl (returns refl)))

calls : Runs program 1 0 variables (stacked []) (stacked (word 42 ∷ word 42 ∷ []))
calls = run_literal refl (run_literal refl (run_call refl refl duplicates (returns refl)))

run_until-Runs_example :
    (k : ℕ) × ((rs : List Frame)
      → worker_run_until k program (push_frame (at (stacked []) rs) (frame_new 1)) (length rs)
        ≡ ok (at (stacked (word 42 ∷ word 42 ∷ [])) rs))
run_until-Runs_example = run_until-Runs program 1 calls

-- The same constructors before any rule.
abbrev no_rules : Program
no_rules = record program { ctors = λ c. record (ctors c) { rule_array = [] } }

-- The names 0 and 1 stand for the constructors with these numbers.
abbrev entry_of : ℕ → Entry ℕ Value
entry_of c = record { index = c; key = c; value = node_ctor c }

abbrev two_names : Mod ℕ
two_names = record {
  value_hash = record {
    prime_index = 0;
    used_indexes_size = 2;
    length = 2;
    entries = λ i. entry_of i ∷ [];
  };
}

abbrev same_hash : ℕ → ℕ
same_hash k = k

found_0 : mod_find same_hash ◌==◌ two_names 0 ≡ some (node_ctor 0)
unfolding mod_find
found_0 = refl

found_1 : mod_find same_hash ◌==◌ two_names 1 ≡ some (node_ctor 1)
unfolding mod_find
found_1 = refl

mod_define_rule_lem_example :
    (q : Program) × (g : Heap) × (mod_define_rule same_hash ◌==◌ two_names no_rules 0 1 7 ≡ ok q)
    × (connect_active_pair q heap 0 1 ≡ ok (some (task_of 0 1 (rule_of 0 1 7)), g))
mod_define_rule_lem_example =
    mod_define_rule_lem same_hash ◌==◌ two_names no_rules 0 1 0 1 7 heap 0 1 zero_wire add_wire
      found_0 found_1 (λ e. omega arith) (λ x h. elim h [ ]) (λ x h. elim h [ ]) (λ e. omega arith)
      refl refl refl refl
