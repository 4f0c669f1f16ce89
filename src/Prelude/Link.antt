-- ===== src/Prelude/Link.antt =====
-- Linking through a new wire.
use inet_forth.Net.{Value, Heap, wire_new, wire_destroy}
use inet_forth.Core.{Worker, Program}
use inet_forth.Core.Connect.{connect}
use inet_forth.Core.Connect.Fuel.{WiresBelow, connect_both_ends}
use inet_forth.Prelude.{x_swap, x_rot, x_connect, x_link, add_task}
use inet_forth.Base.{==_refl, List, arith, ne→==, ok, ◌>>=◌, ◌∷◌, ◌≡◌}

-- A new wire leaves the heap with wires below its counter.
wire_new-WiresBelow : (h : Heap) → WiresBelow h → WiresBelow (wire_new h).1
unfolding wire_new
wire_new-WiresBelow h b w le = rw (ne→== h.next_wire w (omega arith)) (b w (omega arith))

abbrev pub stacked : Worker → List Value → Worker
stacked w st = record w { value_stack = st }

-- With `a` on top of the stack and `b` below it, the words link, rot, connect, swap and connect join
-- `a` to one end of a new wire and `b` to the other. This comes to joining the two values directly:
-- the wire is freed again, and the task that `connect` finds for the values, if any, is added.
pub x_link_lem :
    (p : Program) (w : Worker) (a b : Value) (st : List Value)
    → WiresBelow w.heap
    → (x_rot (x_link (stacked w (a ∷ b ∷ st))) >>= x_connect p >>= x_swap >>= x_connect p) ≡ (
        connect p (wire_destroy (wire_new w.heap).1 (wire_new w.heap).0) a b >>= λ (t, g).
        ok (add_task (record w { value_stack = st; heap = g }) t))
unfolding x_rot x_swap x_link x_connect wire_new
x_link_lem p w a b st below =
    let linked : Heap = (wire_new w.heap).1 in
    let (g, first, second) =
      connect_both_ends p linked w.heap.next_wire a b (wire_new-WiresBelow w.heap below)
        (rw (==_refl w.heap.next_wire)) in
    rw first (rw second)
