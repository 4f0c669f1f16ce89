-- ===== src/Lang/Locals.antt =====
-- src/lang/compile_one.c: the names that `compile_bind` binds, and the slots that their values take.
use mathlib.Core.Path.{ap₂}
use inet_forth.Std.CString.{Bytes, string_equal, string_bernstein_hash}
use inet_forth.Std.Array.{Array, array_new, array_set}
use inet_forth.Std.Array.Slots.{slot, IsArray, array_new-IsArray, array_set_lem}
use inet_forth.Std.Hash.{Hash, hash_new, hash_has, hash_get, hash_get_entry, hash_set}
use inet_forth.Std.Hash.Matching.{IsHash}
use inet_forth.Std.Hash.Map.{hash_set_lem, hash_new-IsHash, Inserted}
use inet_forth.Std.Hash.Counts.{hash_set_counts, hash_has-hash_get}
use inet_forth.Net.{Value}
use inet_forth.Core.{variable_array_size}
use inet_forth.Base.{
  ==_refl, Bool, Bool-cases, Option, [], ap, arith, false, if◌then◌else◌, inl, inr, is_some, ne→==,
  none, not, ok, refl, set, some, subst, sym, true, ℕ, ◌+◌, ◌<◌, ◌==◌, ◌↔◌, ◌∙◌, ◌∷◌, ◌≡◌, ◌≤◌,
}

pub string_equal_iff : (a b : Bytes) → (string_equal a b ≡ true) ↔ (a ≡ b)
unfolding string_equal
string_equal_iff a b = (to a b, λ e. subst (λ c. string_equal a c ≡ true) e (same a))
  where
    to : (a b : Bytes) → string_equal a b ≡ true → a ≡ b
    to [] [] h = refl
    to [] (d ∷ ds) h = cc
    to (c ∷ cs) [] h = cc
    to (c ∷ cs) (d ∷ ds) h =
        let head : c ≡ d = ground arith in ap₂ ◌∷◌ head (to cs ds (ground arith))

    same : (a : Bytes) → string_equal a a ≡ true
    same [] = refl
    same (c ∷ cs) = ground (arith, same cs)

-- The values of the names that are bound so far.
abbrev pub Names : Type 0
Names = Bytes → Option Value

abbrev pub no_names : Names
no_names x = none

abbrev pub bound : Names → Bytes → Value → Names
bound ρ x v y = if string_equal x y then some v else ρ y

abbrev pub lookup : Hash Bytes ℕ → Bytes → Option ℕ
lookup h x = hash_get string_bernstein_hash string_equal h x

abbrev pub has_local : Hash Bytes ℕ → Bytes → Bool
has_local h x = hash_has string_bernstein_hash string_equal h x

-- What the table and the variables say of a name: both know nothing, or the table gives an index below
-- its count, and the variable there has the value.
pub data Held (h : Hash Bytes ℕ) (ρ : Names) (vs : Array Value) (x : Bytes) : Type 0 where
  unbound : lookup h x ≡ none → ρ x ≡ none → Held h ρ vs x
  held_in :
      (i : ℕ) (v : Value)
      → lookup h x ≡ some i
      → ρ x ≡ some v
      → i < h.length
      → slot vs i ≡ some v
      → Held h ρ vs x

pub record Locals (h : Hash Bytes ℕ) (ρ : Names) (vs : Array Value) : Type 0 where
  pub is : IsHash string_bernstein_hash string_equal string_equal_iff h
  pub sound : IsArray vs
  pub step : vs.grow_step ≡ variable_array_size
  pub held : (x : Bytes) → Held h ρ vs x
  pub apart : (x y : Bytes) (i : ℕ) → lookup h x ≡ some i → lookup h y ≡ some i → x ≡ y

pub has_local-lookup : (h : Hash Bytes ℕ) (x : Bytes) → has_local h x ≡ is_some (lookup h x)
has_local-lookup h x = hash_has-hash_get string_bernstein_hash string_equal h x

from_some : ℕ → Option ℕ → ℕ
from_some d none = d
from_some d (some i) = i

same_index : {i j : ℕ} → some i ≡ some j → i ≡ j
unfolding from_some
same_index {i} e = ap (from_some i) e

below_count :
    {h : Hash Bytes ℕ} {ρ : Names} {vs : Array Value} {x : Bytes} {i : ℕ}
    → Held h ρ vs x
    → lookup h x ≡ some i
    → i < h.length
below_count (unbound u n) e = cc
below_count {i} (held_in j w at_j is_w below stored) e = omega (arith, same_index (sym at_j ∙ e))

-- A name that is bound keeps its slot, which gets the new value.
pub rebind :
    (h : Hash Bytes ℕ) (ρ : Names) (vs : Array Value) (x : Bytes) (v : Value) (i : ℕ)
    → Locals h ρ vs
    → lookup h x ≡ some i
    → h.length ≤ 58
    → (vs' : Array Value) × (array_set vs i (some v) ≡ ok vs') × Locals h (bound ρ x v) vs'
rebind h ρ vs x v i l at_i few =
    let (vs', run, written) =
      array_set_lem vs l.sound i (some v) (omega (arith, l.step, below_count (l.held x) at_i)) in
    (
      vs',
      run,
      record {
        is = l.is;
        sound = written.0;
        step = written.3 ∙ l.step;
        held = held_now vs' written.2;
        apart = l.apart;
      },
    )
  where
    held_now :
        (vs' : Array Value)
        → ((j : ℕ) → slot vs' j ≡ (if i == j then some v else slot vs j))
        → (y : Bytes) → Held h (bound ρ x v) vs' y
    held_now vs' writes y = elim (Bool-cases (string_equal x y)) [
      | inl e ↦
          held_in i v (subst (λ z. lookup h z ≡ some i) ((string_equal_iff x y).0 e) at_i)
            (rw e refl) (below_count (l.held x) at_i) (writes i ∙ rw (==_refl i) refl)
      | inr e ↦ elim (l.held y) [
        | unbound u n ↦ unbound u (rw e n)
        | held_in j w at_j is_w below stored ↦
            let other : (i == j) ≡ false = ne→== i j λ same.
              absurd (
                cc
                  (e, (string_equal_iff x y).1 (l.apart x y i at_i (at_j ∙ ap some (sym same))))) in
            held_in j w at_j (rw e is_w) below (writes j ∙ rw other stored)
      ]
    ]

-- A new name gets the next slot.
pub bind_new :
    (h : Hash Bytes ℕ) (ρ : Names) (vs : Array Value) (x : Bytes) (v : Value)
    → Locals h ρ vs
    → lookup h x ≡ none
    → h.prime_index + 1 < 60
    → h.length ≤ 58
    → (fresh : Bool) × (g : Hash Bytes ℕ) × (hash_set string_bernstein_hash string_equal h x
          h.length
        ≡ ok (fresh, g))
      × (g.prime_index ≤ h.prime_index + 1)
      × (g.length ≡ h.length + 1)
      × (vs' : Array Value) × (array_set vs h.length (some v) ≡ ok vs')
      × Locals g (bound ρ x v) vs'
unfolding Inserted
bind_new h ρ vs x v l absent room few =
    let (fresh, g, set, inserted) =
      hash_set_lem string_bernstein_hash string_equal string_equal_iff h x h.length l.is room in
    let (vs', run, written) = array_set_lem vs l.sound h.length (some v) (omega (arith, l.step)) in
    let (primes, counts) =
      hash_set_counts string_bernstein_hash string_equal h x h.length fresh g set in
    let is_fresh : fresh ≡ true =
      inserted.1 ∙ ap not (has_local-lookup h x) ∙ ap (λ o. not (is_some o)) absent in
    let looks : (k : Bytes)
        → lookup g k ≡ (if string_equal x k then some h.length else lookup h k) =
      λ k. inserted.2 k ∙ rw is_fresh refl in
    let count : g.length ≡ h.length + 1 = counts ∙ rw is_fresh refl in
    (
      fresh,
      g,
      set,
      primes,
      count,
      vs',
      run,
      record {
        is = inserted.0;
        sound = written.0;
        step = written.3 ∙ l.step;
        held = held_now g vs' looks count written.2;
        apart = apart_now g looks;
      },
    )
  where
    held_now :
        (g : Hash Bytes ℕ) (vs' : Array Value)
        → ((k : Bytes) → lookup g k ≡ (if string_equal x k then some h.length else lookup h k))
        → g.length ≡ h.length + 1
        → ((j : ℕ) → slot vs' j ≡ (if h.length == j then some v else slot vs j))
        → (y : Bytes) → Held g (bound ρ x v) vs' y
    held_now g vs' looks count writes y = elim (Bool-cases (string_equal x y)) [
      | inl e ↦
          held_in h.length v (looks y ∙ rw e refl) (rw e refl) (omega arith)
            (writes h.length ∙ rw (==_refl h.length) refl)
      | inr e ↦ elim (l.held y) [
        | unbound u n ↦ unbound (looks y ∙ rw e u) (rw e n)
        | held_in j w at_j is_w below stored ↦
            let other : (h.length == j) ≡ false = ground arith in
            held_in j w (looks y ∙ rw e at_j) (rw e is_w) (omega arith) (writes j ∙ rw other stored)
      ]
    ]

    apart_now :
        (g : Hash Bytes ℕ)
        → ((k : Bytes) → lookup g k ≡ (if string_equal x k then some h.length else lookup h k))
        → (y z : Bytes) (i : ℕ) → lookup g y ≡ some i
        → lookup g z ≡ some i
        → y ≡ z
    apart_now g looks y z i at_y at_z = elim (Bool-cases (string_equal x y)) [
      | inl e ↦ elim (Bool-cases (string_equal x z)) [
        | inl e' ↦ sym ((string_equal_iff x y).0 e) ∙ (string_equal_iff x z).0 e'
        | inr e' ↦
            let top : h.length ≡ i = same_index (sym (looks y ∙ rw e refl) ∙ at_y) in
            let old : i < h.length = below_count (l.held z) (sym (looks z ∙ rw e' refl) ∙ at_z) in
            absurd (omega arith)
      ]
      | inr e ↦ elim (Bool-cases (string_equal x z)) [
        | inl e' ↦
            let top : h.length ≡ i = same_index (sym (looks z ∙ rw e' refl) ∙ at_z) in
            let old : i < h.length = below_count (l.held y) (sym (looks y ∙ rw e refl) ∙ at_y) in
            absurd (omega arith)
        | inr e' ↦
            l.apart y z i (sym (looks y ∙ rw e refl) ∙ at_y) (sym (looks z ∙ rw e' refl) ∙ at_z)
      ]
    ]

-- A new function binds nothing.
pub no_names-Locals :
    Locals (hash_new string_bernstein_hash string_equal) no_names (array_new variable_array_size)
unfolding hash_get hash_get_entry hash_new array_new
no_names-Locals = record {
  is = hash_new-IsHash string_bernstein_hash string_equal string_equal_iff;
  sound = array_new-IsArray variable_array_size (omega arith);
  step = refl;
  held = λ x. unbound (nothing x) refl;
  apart = λ x y i at_x at_y. absurd (cc (nothing x, at_x));
}
  where
    nothing : (x : Bytes) → lookup (hash_new string_bernstein_hash string_equal) x ≡ none
    nothing x = refl
