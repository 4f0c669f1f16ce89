-- ===== src/Net.antt =====
-- src/net: nodes, ports, wires and principal wires on an explicit heap. An address is a number; a
-- wire or a principal wire that is freed or not yet allocated is `none`, and reading through its
-- address is a fault. Nodes live as long as their allocator, so their cells are never `none`;
-- `new` takes addresses from counters, so that a freed address is not used again. The node's mutex
-- and `locked_by_worker` are left out: the functions here run under that lock.
use inet_forth.Std.CString.{Bytes}
use inet_forth.Base.{
  Bool, List, Option, Result, assertion, check, dangling, err, false, get_elem?, get_or,
  if◌then◌else◌, is_some, ltb, none, ok, out_of_fuel, replicate, set, some, suc, true, update, zero,
  ℕ, ◌&&◌, ◌+◌, ◌==◌, ◌>>=◌, ◌>>◌, ◌||◌,
}
pub mod NodeAllocator

-- A `value_t`: an immediate word (see `Value`), or a pointer to one of the object kinds.
pub data Value : Type 0 where
  word node_ctor function primitive wire principal_wire : ℕ → Value

pub record PortInfo : Type 0 where
  pub name : Bytes
  pub is_principal : Bool

-- `rule_t` of src/core/rule.h; the function is given by its address.
pub record Rule : Type 0 where
  pub left_node_ctor : ℕ
  pub right_node_ctor : ℕ
  pub function : ℕ

pub record NodeCtor : Type 0 where
  pub name : Bytes
  pub input_arity : ℕ
  pub output_arity : ℕ
  pub port_infos : List PortInfo
  pub rule_array : List Rule

-- The field `arity` is set once, by `node_ctor_new`.
abbrev pub arity : NodeCtor → ℕ
arity c = c.input_arity + c.output_arity

abbrev pub node_max_arity : ℕ
node_max_arity = 16

pub record Node : Type 0 where
  pub ctor : Option ℕ
  pub is_allocated : Bool
  pub values : List (Option Value)

pub record Wire : Type 0 where
  pub fuzed_value : Option Value

pub record PrincipalWire : Type 0 where
  pub node : ℕ
  pub index : ℕ
  pub oppsite : Option ℕ

pub record Heap : Type 0 where
  pub nodes : ℕ → Node
  pub wires : ℕ → Option Wire
  pub principal_wires : ℕ → Option PrincipalWire
  pub next_wire : ℕ
  pub next_principal_wire : ℕ

-- A read through a pointer.
abbrev pub load {ℓ} : {A : Type ℓ} → Option A → Result A
load none = err dangling
load (some a) = ok a

unfoldable pub node_new : Node
node_new = record { ctor = none; is_allocated = false; values = replicate node_max_arity none }

unfoldable pub node_clean : Heap → ℕ → Heap
node_clean h n = record h {
  nodes =
      update h.nodes n
        (record { ctor = none; is_allocated = false; values = replicate node_max_arity none });
}

unfoldable pub node_set_value : Heap → ℕ → ℕ → Value → Result Heap
node_set_value h n index v = do
  check (ltb index node_max_arity)
  ok (record h {
    nodes =
        update h.nodes n (record (h.nodes n) { values = set (h.nodes n).values index (some v) });
  })

unfoldable pub node_get_value : Heap → ℕ → ℕ → Result (Option Value)
node_get_value h n index = do
  check (is_some (h.nodes n).ctor)
  check (ltb index node_max_arity)
  ok (get_or (h.nodes n).values index none)

-- `ctor->arity` is `input_arity + output_arity`, the length of `port_infos`.
unfoldable pub node_get_port_info : (ℕ → NodeCtor) → Heap → ℕ → ℕ → Result PortInfo
node_get_port_info ctors h n index = elim (h.nodes n).ctor [
  | none ↦ err assertion
  | some c ↦ check (ltb index (arity (ctors c))) >> load (get_elem? (ctors c).port_infos index)
]

unfoldable pub principal_wire_new : Heap → ℕ → ℕ → ℕ × Heap
principal_wire_new h n index = (
  h.next_principal_wire,
  record h {
    principal_wires =
        update h.principal_wires h.next_principal_wire
          (some (record { node = n; index = index; oppsite = none }));
    next_principal_wire = suc h.next_principal_wire;
  },
)

-- Freeing a principal wire that is freed already is a fault.
unfoldable pub principal_wire_destroy : Heap → ℕ → Result Heap
principal_wire_destroy h p = load (h.principal_wires p) >>= λ _.
    ok (record h { principal_wires = update h.principal_wires p none })

unfoldable pub wire_new : Heap → ℕ × Heap
wire_new h = (
  h.next_wire,
  record h {
    wires = update h.wires h.next_wire (some (record { fuzed_value = none }));
    next_wire = suc h.next_wire;
  },
)

unfoldable pub wire_destroy : Heap → ℕ → Heap
wire_destroy h w = record h { wires = update h.wires w none }

-- `while (is_wire(value))` of `walk`: it leaves at a value that is no wire and at a wire that is not
-- fuzed.
unfoldable pub walk : ℕ → Heap → Value → Result Value
walk zero h value = err out_of_fuel
walk (suc f) h (wire w) =
    let rest = λ (v : Value). walk f h v in
    do cell ← load (h.wires w); elim cell.fuzed_value [ none ↦ ok (wire w) | some v ↦ rest v ]
walk (suc f) h v = ok v

-- `x == y` on two values: the same word or the same address.
unfoldable pub same_value : Value → Value → Bool
same_value (word a) (word b) = a == b
same_value (node_ctor a) (node_ctor b) = a == b
same_value (function a) (function b) = a == b
same_value (primitive a) (primitive b) = a == b
same_value (wire a) (wire b) = a == b
same_value (principal_wire a) (principal_wire b) = a == b
same_value _ _ = false

unfoldable pub is_fuzed : ℕ → Heap → Value → Value → Result Bool
unfolding walk same_value
is_fuzed f h x y = do a ← walk f h x; b ← walk f h y; ok (same_value a b)

abbrev oppsite_is : PrincipalWire → ℕ → Bool
oppsite_is p q = elim p.oppsite [ none ↦ false | some r ↦ r == q ]

-- The second half of `is_connected`, on the two values that `walk` gives.
connected_ends : Heap → Value → Value → Result Bool
unfolding same_value
connected_ends h (principal_wire p) (principal_wire q) = do
  a ← load (h.principal_wires p)
  b ← load (h.principal_wires q)
  ok (p == q || (oppsite_is a q && oppsite_is b p))
connected_ends h x y = ok (same_value x y)

unfoldable pub is_connected : ℕ → Heap → Value → Value → Result Bool
unfolding walk connected_ends
is_connected f h x y = do a ← walk f h x; b ← walk f h y; connected_ends h a b

-- `is_fuzed` at a port: `walk` gives `NULL` for a port that is not set, which equals no wire.
port_is_fuzed : ℕ → Heap → Option Value → Value → Result Bool
unfolding is_fuzed
port_is_fuzed f h none w = ok false
port_is_fuzed f h (some x) w = is_fuzed f h x w

-- The loop of `node_has_wire` over the ports from `index` on.
has_wire_from : ℕ → Heap → ℕ → Value → (count index : ℕ) → Result Bool
unfolding port_is_fuzed node_get_value
has_wire_from f h n w zero index = ok false
has_wire_from f h n w (suc count) index =
    let rest : Result Bool = has_wire_from f h n w count (index + 1) in
    do v ← node_get_value h n index; hit ← port_is_fuzed f h v w; if hit then ok true else rest

unfoldable pub node_has_wire : (ℕ → NodeCtor) → ℕ → Heap → ℕ → Value → Result Bool
unfolding has_wire_from
node_has_wire ctors f h n w = elim (h.nodes n).ctor [
  | none ↦ err dangling
  | some c ↦ has_wire_from f h n w (arity (ctors c)) 0
]
