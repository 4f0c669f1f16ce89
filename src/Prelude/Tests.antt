-- ===== src/Prelude/Tests.antt =====
-- The theorem on linking at a stack with a wire and a number.
use inet_forth.Net.{word, wire, node_new, wire_new, wire_destroy}
use inet_forth.Core.{Worker, Program, fn_0}
use inet_forth.Core.Connect.{connect}
use inet_forth.Core.Connect.Fuel.{WiresBelow}
use inet_forth.Prelude.{x_swap, x_rot, x_connect, x_link, add_task}
use inet_forth.Prelude.Link.{stacked, x_link_lem}
use inet_forth.Base.{[], arith, if◌then◌else◌, none, ok, some, ◌==◌, ◌>>=◌, ◌∷◌, ◌≡◌}

abbrev no_program : Program
no_program = record {
  ctors = λ _. record {
    name = [];
    input_arity = 0;
    output_arity = 0;
    port_infos = [];
    rule_array = [];
  };
  functions = λ _. record { opcode_array = [] };
  primitives = λ _. fn_0 (ok none);
}

abbrev one_wire : Worker
one_wire = record {
  task_deque = [];
  value_stack = [];
  return_stack = [];
  free_node_stack = [];
  node_allocator = record { cache_size = 1; batch_size = 1; node_count = 0; stack = [] };
  heap = record {
    nodes = λ _. node_new;
    wires = λ x. if x == 0 then some (record { fuzed_value = none }) else none;
    principal_wires = λ _. none;
    next_wire = 1;
    next_principal_wire = 0;
  };
}

one_wire-WiresBelow : WiresBelow one_wire.heap
one_wire-WiresBelow w le = ground arith

x_link_lem_example :
    (x_rot (x_link (stacked one_wire (wire 0 ∷ word 10 ∷ [])))
      >>= x_connect no_program
      >>= x_swap
      >>= x_connect no_program)
    ≡ (connect no_program
          (wire_destroy (wire_new one_wire.heap).1 (wire_new one_wire.heap).0)
          (wire 0)
          (word 10)
        >>= λ (t, g). ok (add_task (record one_wire { value_stack = []; heap = g }) t))
x_link_lem_example = x_link_lem no_program one_wire (wire 0) (word 10) [] one_wire-WiresBelow
