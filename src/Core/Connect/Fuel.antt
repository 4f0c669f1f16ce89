-- ===== src/Core/Connect/Fuel.antt =====
-- `connect` ends: each round of its loop frees a wire.
use inet_forth.Net.{Value, wire, Wire, Heap, load, wire_destroy}
use mathlib.Core.Path.{fun_ext}
use native.Mathlib.Numerals.{add-one}
use inet_forth.Core.{Program}
use inet_forth.Core.Connect.{
  Ends, active, fuzed, impossible, ends, connect_active_pair, connect_loop, connect,
}
use inet_forth.Base.{
  ==_refl, Bool-cases, Option, Option-cases, ap, arith, err, if◌then◌else◌, inl, inr, is_some, ltb,
  none, ok, out_of_fuel, refl, some, suc, sym, update, zero, ℕ, ◌+◌, ◌<◌, ◌∙◌, ◌≡◌, ◌≢◌, ◌≤◌,
}

-- No wire lives at an address that `wire_new` has not given out.
abbrev pub WiresBelow : Heap → Type 0
WiresBelow h = (w : ℕ) → h.next_wire ≤ w → h.wires w ≡ none

-- The number of live wires at the addresses below `n`.
live : (ℕ → Option Wire) → ℕ → ℕ
live ws zero = 0
live ws (suc n) = live ws n + (if is_some (ws n) then 1 else 0)

live-le : (ws : ℕ → Option Wire) (n : ℕ) → live ws n ≤ n
unfolding live
live-le ws zero = omega arith
live-le ws (suc n) = ground (arith, live-le ws n)

live-update_of_le :
    (ws : ℕ → Option Wire) (n w : ℕ) (c : Option Wire) → n ≤ w → live (update ws w c) n ≡ live ws n
unfolding live
live-update_of_le ws zero w c h = refl
live-update_of_le ws (suc n) w c h = ground (arith, live-update_of_le ws n w c)

live-destroy :
    (ws : ℕ → Option Wire) (n w : ℕ) (c : Wire)
    → w < n
    → ws w ≡ some c
    → live (update ws w none) n + 1 ≡ live ws n
unfolding live
live-destroy ws zero w c h e = absurd (omega arith)
live-destroy ws (suc n) w c h e =
    ground (arith, live-destroy ws n w c, live-update_of_le ws n w none)

active-ne_out_of_fuel :
    (p : Program) (h : Heap) (l r : ℕ) → connect_active_pair p h l r ≢ err out_of_fuel
unfolding connect_active_pair
active-ne_out_of_fuel p h l r = ground arith

destroy-WiresBelow : (h : Heap) (w : ℕ) → WiresBelow h → WiresBelow (wire_destroy h w)
unfolding wire_destroy
destroy-WiresBelow h w b x le = ground (arith, b x)

destroy-live :
    (h : Heap) (w : ℕ) (c : Wire)
    → WiresBelow h
    → h.wires w ≡ some c
    → (f : ℕ) → live h.wires h.next_wire < suc f
    → live (wire_destroy h w).wires (wire_destroy h w).next_wire < f
unfolding wire_destroy
destroy-live h w c b alive f lt = elim (Bool-cases (ltb w h.next_wire)) [
  | inl below ↦ omega (arith, live-destroy h.wires h.next_wire w c (ground arith) alive)
  | inr above ↦ ground (arith, b w)
]

fuze-ne_out_of_fuel :
    (f : ℕ) (p : Program) (h : Heap) (w : ℕ) (v : Value)
    → ((u : Value) (c : Wire)
        → h.wires w ≡ some c
        → connect_loop f p (wire_destroy h w) (ends u v) ≢ err out_of_fuel)
    → connect_loop (suc f) p h (fuzed w v) ≢ err out_of_fuel
unfolding connect_loop
fuze-ne_out_of_fuel f p h w v again = elim (Option-cases (h.wires w)) [
  | inl dead ↦ rw (dead, load) (λ e. cc)
  | inr (c, alive) ↦ elim (Option-cases c.fuzed_value) [
    | inl first ↦ rw (alive, load, first) (λ e. cc)
    | inr (u, second) ↦ rw (alive, load, second) (again u c alive)
  ]
]

connect_loop-ne_out_of_fuel :
    (f : ℕ) (p : Program) (h : Heap) (e : Ends)
    → WiresBelow h
    → live h.wires h.next_wire < f
    → connect_loop f p h e ≢ err out_of_fuel
unfolding connect_loop
connect_loop-ne_out_of_fuel zero p h e b lt = absurd (omega arith)
connect_loop-ne_out_of_fuel (suc f) p h (active l r) b lt = active-ne_out_of_fuel p h l r
connect_loop-ne_out_of_fuel (suc f) p h impossible b lt = λ e. cc
connect_loop-ne_out_of_fuel (suc f) p h (fuzed w v) b lt =
    fuze-ne_out_of_fuel f p h w v λ u c alive.
      connect_loop-ne_out_of_fuel f p (wire_destroy h w) (ends u v) (destroy-WiresBelow h w b)
        (destroy-live h w c b alive f lt)

-- `connect` always comes to an end: on a heap where `wire_new` gave out every live wire, the chain
-- of wires that it follows is shorter than the fuel that the model gives it.
pub connect-ne_out_of_fuel :
    (p : Program) (h : Heap) (left right : Value)
    → WiresBelow h
    → connect p h left right ≢ err out_of_fuel
unfolding connect
connect-ne_out_of_fuel p h left right b = rw add-one (
    connect_loop-ne_out_of_fuel (suc h.next_wire) p h (ends left right) b
      (omega (arith, live-le h.wires h.next_wire)))

-- More fuel than enough changes nothing.
connect_loop_more :
    (f : ℕ) (p : Program) (h : Heap) (e : Ends)
    → connect_loop f p h e ≢ err out_of_fuel
    → connect_loop (suc f) p h e ≡ connect_loop f p h e
unfolding connect_loop
connect_loop_more zero p h e n = absurd (n refl)
connect_loop_more (suc f) p h (active l r) n = refl
connect_loop_more (suc f) p h impossible n = refl
connect_loop_more (suc f) p h (fuzed w v) n = elim (Option-cases (h.wires w)) [
  | inl dead ↦ rw (dead, load)
  | inr (c, alive) ↦ elim (Option-cases c.fuzed_value) [
    | inl first ↦ rw (alive, load, first)
    | inr (u, second) ↦
        rw (alive, load, second)
          (connect_loop_more f p (wire_destroy h w) (ends u v) (rw (alive, load, second) at n))
  ]
]

abbrev fuzed_with : Heap → ℕ → Value → Heap
fuzed_with h w a = record h { wires = update h.wires w (some (record { fuzed_value = some a })) }

-- The wire is gone, whatever it held.
destroy-fuzed :
    (h : Heap) (w : ℕ) (a : Value) → wire_destroy (fuzed_with h w a) w ≡ wire_destroy h w
unfolding wire_destroy
destroy-fuzed h w a =
    ap (λ (ws : ℕ → Option Wire). record h { wires = ws }) (fun_ext λ q. ground arith)

first_end :
    (f : ℕ) (p : Program) (h : Heap) (w : ℕ) (a : Value)
    → h.wires w ≡ some (record { fuzed_value = none })
    → connect_loop (suc f) p h (fuzed w a) ≡ ok (none, fuzed_with h w a)
unfolding connect_loop
first_end f p h w a fresh = rw (fresh, load)

second_end :
    (f : ℕ) (p : Program) (h : Heap) (w : ℕ) (a b : Value)
    → connect_loop (suc f) p (fuzed_with h w a) (fuzed w b)
      ≡ connect_loop f p (wire_destroy h w) (ends a b)
unfolding connect_loop
second_end f p h w a b =
    rw (==_refl w, load) (ap (λ g. connect_loop f p g (ends a b)) (destroy-fuzed h w a))

-- A new wire whose two ends are joined to two values is freed and joins these values: the result of
-- its second connection is that of connecting the two values on the heap without the wire.
pub connect_both_ends :
    (p : Program) (h : Heap) (w : ℕ) (a b : Value)
    → WiresBelow h
    → h.wires w ≡ some (record { fuzed_value = none })
    → (g : Heap) × (connect p h (wire w) a ≡ ok (none, g))
      × (connect p g (wire w) b ≡ connect p (wire_destroy h w) a b)
unfolding connect wire_destroy ends
connect_both_ends p h w a b below fresh = (
  fuzed_with h w a,
  rw add-one (first_end h.next_wire p h w a fresh),
  rw add-one (
      second_end h.next_wire p h w a b
      ∙ sym (
          connect_loop_more h.next_wire p (wire_destroy h w) (ends a b) (
            connect_loop-ne_out_of_fuel h.next_wire p (wire_destroy h w) (ends a b)
              (destroy-WiresBelow h w below)
              (destroy-live h w (record { fuzed_value = none }) below fresh h.next_wire
                (omega (arith, live-le h.wires h.next_wire)))))),
)
