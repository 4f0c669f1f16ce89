-- ===== src/Core/Connect.antt =====
-- src/core/connect.c: joining two values. Two principal wires make an active pair, which may give a
-- task; a wire takes a value at its first end, and joins it to the other value at its second.
-- The compare-exchange of `fuze` is one step here.
use inet_forth.Net.{
  Value, word, node_ctor, function, primitive, wire, principal_wire, PrincipalWire, Rule, Heap,
  NodeCtor, load, wire_destroy,
}
use inet_forth.Core.{Task, Program}
use inet_forth.Base.{
  List, Option, Result, [], assertion, err, if◌then◌else◌, none, ok, out_of_fuel, some, suc, update,
  zero, ℕ, ◌&&◌, ◌+◌, ◌==◌, ◌∷◌, ◌>>=◌, ◌>>◌,
}
pub mod Fuel
pub mod Rules

-- `rule_match`; the constructors of the two nodes are `lc` and `rc`.
unfoldable pub rule_match : Rule → (left right lc rc : ℕ) → Option Task
rule_match rule left right lc rc =
    if rule.left_node_ctor == lc && rule.right_node_ctor == rc
    then some (record { left = left; right = right; rule = rule })
    else if rule.left_node_ctor == rc && rule.right_node_ctor == lc
    then some (record { left = right; right = left; rule = rule })
    else none

abbrev pub or_else {ℓ} : {A : Type ℓ} → Option A → Option A → Option A
or_else none b = b
or_else (some a) b = some a

-- The loop over one `rule_array`: the first rule that matches.
unfoldable pub first_match : List Rule → (left right lc rc : ℕ) → Option Task
unfolding rule_match
first_match [] left right lc rc = none
first_match (r ∷ rules) left right lc rc =
    or_else (rule_match r left right lc rc) (first_match rules left right lc rc)

-- `self->oppsite = other`
set_oppsite : Heap → (self other : ℕ) → Result Heap
set_oppsite h self other = do
  p ← load (h.principal_wires self)
  ok (record h {
    principal_wires = update h.principal_wires self (some (record p { oppsite = some other }));
  })

-- `wire->node->ctor`
ctor_of : Heap → ℕ → Result ℕ
ctor_of h p = do a ← load (h.principal_wires p); load (h.nodes a.node).ctor

unfoldable pub connect_active_pair : Program → Heap → (left right : ℕ) → Result (Option Task × Heap)
unfolding set_oppsite ctor_of first_match
connect_active_pair p h left right = do
  h₁ ← set_oppsite h left right
  h₂ ← set_oppsite h₁ right left
  lc ← ctor_of h₂ left
  rc ← ctor_of h₂ right
  ok (
    or_else (first_match (p.ctors lc).rule_array left right lc rc)
        (first_match (p.ctors rc).rule_array left right lc rc),
    h₂,
  )

-- The branch that `connect` takes.
pub data Ends : Type 0 where
  active : (left right : ℕ) → Ends
  fuzed : (wire : ℕ) → Value → Ends
  impossible : Ends

unfoldable pub ends : Value → Value → Ends
ends (principal_wire p) (principal_wire q) = active p q
ends (wire w) v = fuzed w v
ends v (wire w) = fuzed w v
ends _ _ = impossible

-- `fuze` calls `connect` again on the value that the wire held, after freeing the wire.
unfoldable pub connect_loop : ℕ → Program → Heap → Ends → Result (Option Task × Heap)
unfolding connect_active_pair ends
connect_loop zero p h e = err out_of_fuel
connect_loop (suc f) p h (active l r) = connect_active_pair p h l r
connect_loop (suc f) p h (fuzed w v) =
    let again = λ (u : Value). connect_loop f p (wire_destroy h w) (ends u v) in
    do
      cell ← load (h.wires w)
      elim cell.fuzed_value [
        | none ↦
            ok
              (none, record h { wires = update h.wires w (some (record { fuzed_value = some v })) })
        | some u ↦ again u
      ]
connect_loop (suc f) p h impossible = err assertion

-- Each round frees a wire, so that one more round than there are addresses of wires is enough.
unfoldable pub connect : Program → Heap → Value → Value → Result (Option Task × Heap)
unfolding connect_loop ends
connect p h left right = connect_loop (h.next_wire + 1) p h (ends left right)
