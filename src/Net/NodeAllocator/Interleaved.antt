-- ===== src/Net/NodeAllocator/Interleaved.antt =====
-- src/net/node_allocator.c, `node_allocator_allocate`: the loop, where other workers act whenever the mutex
-- is free.
use inet_forth.Net.NodeAllocator.{
  NodeAllocator, Shared, OtherStep, takes, gives, prepares, take_shared, remove, interfere,
  interferes, Round, allocator_maybe_allocate, prepare_one_batch_of_nodes, allocate_from,
  node_allocator_allocate,
}
use inet_forth.Net.NodeAllocator.Conserved.{
  Placed, lend, batch-length, batch-sizes, Attempt, maybe-Attempt, maybe-sizes, maybe_some,
  prepare-Placed,
}
use inet_forth.Base.{
  Bool, Bool-cases, List, Option, Result, [], ap, arith, err, false, if◌then◌else◌, inl, inr,
  is_some, length, ltb, none, not, occurs, ok, out_of_fuel, refl, some, subst, sym, true, ℕ, ◌&&◌,
  ◌+◌, ◌<◌, ◌==◌, ◌||◌, ◌∷◌, ◌≡◌, ◌≤◌, ◌⊎◌,
}

-- All nodes are accounted for: on the shared stack, on the worker's own, or with the others.
abbrev pub AllPlaced : Shared → List ℕ → Type 0
AllPlaced (a, held) own = Placed a own (λ n. occurs n held)

abbrev HasSizes : NodeAllocator → Type 0
HasSizes a = (0 < a.cache_size) × (0 < a.batch_size)

abbrev is_taking : OtherStep → Bool
is_taking takes = true
is_taking _ = false

-- The other workers take no node.
abbrev is_quiet : List OtherStep → Bool
is_quiet [] = true
is_quiet (step ∷ steps) = not (is_taking step) && is_quiet steps

-- In one of the rounds the other workers take no node between the batch and the attempt.
abbrev pub has_quiet : List Round → Bool
has_quiet [] = false
has_quiet ((before, after) ∷ rounds) = is_quiet after || has_quiet rounds

remove-occurs :
    (n m : ℕ) (held : List ℕ)
    → 0 < occurs n held
    → occurs m (remove n held) + (if m == n then 1 else 0) ≡ occurs m held
unfolding remove
remove-occurs n m [] pos = absurd (omega arith)
remove-occurs n m (x ∷ xs) pos = elim (Bool-cases (x == n)) [
  | inl e ↦ ground arith
  | inr e ↦ ground (arith, remove-occurs n m xs)
]

take_shared-AllPlaced :
    (a : NodeAllocator) (held own stack : List ℕ)
    → a.stack ≡ stack
    → AllPlaced (a, held) own
    → AllPlaced (take_shared a held stack) own
unfolding take_shared
take_shared-AllPlaced a held own [] e h = h
take_shared-AllPlaced a held own (n ∷ stack) e h =
    λ m. ground (arith, h m, ap (λ (ns : List ℕ). occurs m ns) e)

take_shared-HasSizes :
    (a : NodeAllocator) (held stack : List ℕ) → HasSizes a → HasSizes (take_shared a held stack).0
unfolding take_shared
take_shared-HasSizes a held [] h = h
take_shared-HasSizes a held (n ∷ stack) h = h

prepare-HasSizes : (a : NodeAllocator) → HasSizes a → HasSizes (prepare_one_batch_of_nodes a)
unfolding prepare_one_batch_of_nodes
prepare-HasSizes a (cache, batched) =
    (omega (arith, batch-sizes a.batch_size a), omega (arith, batch-sizes a.batch_size a))

interfere-AllPlaced :
    (step : OtherStep) (s : Shared) (own : List ℕ)
    → AllPlaced s own
    → AllPlaced (interfere step s) own
unfolding interfere
interfere-AllPlaced takes (a, held) own h = take_shared-AllPlaced a held own a.stack refl h
interfere-AllPlaced (gives n) (a, held) own h = elim (Bool-cases (ltb 0 (occurs n held))) [
  | inl e ↦ rw e (λ m. ground (arith, h m, remove-occurs n m held (ground arith)))
  | inr e ↦ rw e h
]
interfere-AllPlaced prepares (a, held) own h = prepare-Placed a own (λ n. occurs n held) h

interfere-HasSizes : (step : OtherStep) (s : Shared) → HasSizes s.0 → HasSizes (interfere step s).0
unfolding interfere
interfere-HasSizes takes (a, held) h = take_shared-HasSizes a held a.stack h
interfere-HasSizes (gives n) (a, held) h = elim (Bool-cases (ltb 0 (occurs n held))) [
  | inl e ↦ rw e h
  | inr e ↦ rw e h
]
interfere-HasSizes prepares (a, held) h = prepare-HasSizes a h

interferes-AllPlaced :
    (steps : List OtherStep) (s : Shared) (own : List ℕ)
    → AllPlaced s own
    → AllPlaced (interferes steps s) own
unfolding interferes
interferes-AllPlaced [] s own h = h
interferes-AllPlaced (step ∷ steps) s own h =
    interferes-AllPlaced steps (interfere step s) own (interfere-AllPlaced step s own h)

interferes-HasSizes :
    (steps : List OtherStep) (s : Shared) → HasSizes s.0 → HasSizes (interferes steps s).0
unfolding interferes
interferes-HasSizes [] s h = h
interferes-HasSizes (step ∷ steps) s h =
    interferes-HasSizes steps (interfere step s) (interfere-HasSizes step s h)

prepare-length :
    (a : NodeAllocator)
    → (a.batch_size ≤ length (prepare_one_batch_of_nodes a).stack)
      × (length a.stack ≤ length (prepare_one_batch_of_nodes a).stack)
unfolding prepare_one_batch_of_nodes
prepare-length a =
    (omega (arith, batch-length a.batch_size a), omega (arith, batch-length a.batch_size a))

-- What is no `takes` leaves the shared stack at least as long.
interfere-length :
    (step : OtherStep) (s : Shared)
    → is_taking step ≡ false
    → length s.0.stack ≤ length (interfere step s).0.stack
unfolding interfere
interfere-length takes s e = cc
interfere-length (gives n) (a, held) e = elim (Bool-cases (ltb 0 (occurs n held))) [
  | inl f ↦ rw f (omega arith)
  | inr f ↦ rw f (omega arith)
]
interfere-length prepares (a, held) e = (prepare-length a).1

interferes-length :
    (steps : List OtherStep) (s : Shared)
    → is_quiet steps ≡ true
    → length s.0.stack ≤ length (interferes steps s).0.stack
unfolding interferes
interferes-length [] s quiet = omega arith
interferes-length (step ∷ steps) s quiet = omega (
  arith,
  interfere-length step s (ground (arith, quiet)),
  interferes-length steps (interfere step s) (ground (arith, quiet)),
)

-- The node that was given is one that was made and is nowhere else, and all nodes are accounted for.
pub record Allocated (n : ℕ) (s : Shared) (own : List ℕ) : Type 0 where
  pub placed : Placed s.0 own (lend (λ m. occurs m s.1) n)
  pub unheld : occurs n s.1 ≡ 0
  pub made : (0 < n) × (n ≤ s.0.node_count)

abbrev Outcome : List Round → Result (ℕ × Shared × List ℕ) → Type 0
Outcome rounds r =
    ((n : ℕ) × (s : Shared) × (own : List ℕ) × (r ≡ ok (n, s, own)) × Allocated n s own)
    ⊎ ((r ≡ err out_of_fuel) × (has_quiet rounds ≡ false))

from_some :
    (rounds rest : List Round) (found : Option ℕ) (s : Shared) (own : List ℕ)
    → is_some found ≡ true
    → Attempt (λ m. occurs m s.1) (found, s.0, own)
    → Outcome rounds (allocate_from rest (found, s, own))
unfolding allocate_from
from_some rounds rest none s own e h = cc
from_some rounds rest (some n) s own e h = inl (
  n,
  s,
  own,
  refl,
  record {
    placed = h;
    unheld = ground (arith, h n);
    made = (ground (arith, h n), ground (arith, h n));
  },
)

from_Outcome :
    (rounds : List Round) (found : Option ℕ) (s : Shared) (own : List ℕ)
    → HasSizes s.0
    → Attempt (λ m. occurs m s.1) (found, s.0, own)
    → Outcome rounds (allocate_from rounds (found, s, own))
unfolding allocate_from
from_Outcome rounds (some n) s own sizes h = from_some rounds rounds (some n) s own refl h
from_Outcome [] none s own sizes h = inr (refl, refl)
from_Outcome ((before, after) ∷ rounds) none s own sizes (h, nothing) =
    let s₁ : Shared = interferes before s in
    let s₂ : Shared = (prepare_one_batch_of_nodes s₁.0, s₁.1) in
    let s₃ : Shared = interferes after s₂ in
    let sizes₂ : HasSizes s₂.0 = prepare-HasSizes s₁.0 (interferes-HasSizes before s sizes) in
    let sizes₃ : HasSizes s₃.0 = interferes-HasSizes after s₂ sizes₂ in
    let placed : AllPlaced s₃ own =
      interferes-AllPlaced after s₂ own
        (prepare-Placed s₁.0 own (λ n. occurs n s₁.1) (interferes-AllPlaced before s own h)) in
    let attempt = maybe-Attempt s₃.0 own (λ n. occurs n s₃.1) placed in
    let r = allocator_maybe_allocate s₃.0 own in
    elim (Bool-cases (is_quiet after)) [
      | inl quiet ↦
          let full : 0 < length s₃.0.stack = omega (
            arith,
            sizes₂,
            (interferes-HasSizes before s sizes).1,
            prepare-length s₁.0,
            interferes-length after s₂ quiet,
          ) in
          from_some ((before, after) ∷ rounds) rounds r.0 (r.1, s₃.1) r.2
            (subst (λ (o : List ℕ). is_some (allocator_maybe_allocate s₃.0 o).0 ≡ true)
              (sym nothing) (maybe_some s₃.0 sizes₃.0 full))
            attempt
      | inr loud ↦
          elim (from_Outcome rounds r.0 (r.1, s₃.1) r.2
            (
              omega (arith, maybe-sizes s₃.0 own, sizes₃.0),
              omega (arith, maybe-sizes s₃.0 own, sizes₃.1),
            )
            attempt) [
              | inl done ↦ inl done
              | inr (run, unquiet) ↦ inr (run, rw (loud, unquiet) refl)
            ]
    ]

-- Where all nodes are accounted for and both sizes are positive, an allocation gives a node that was
-- made and was nowhere else, and all nodes stay accounted for, whatever the other workers do to the
-- shared stack while the mutex is free. Only where they take nodes from it between the batch and the
-- attempt in every round that is given is it still looking at the end.
pub node_allocator_allocate_lem :
    (rounds : List Round) (a : NodeAllocator) (held own : List ℕ)
    → 0 < a.cache_size
    → 0 < a.batch_size
    → Placed a own (λ n. occurs n held)
    → ((n : ℕ) × (s : Shared) × (own' : List ℕ) × (node_allocator_allocate rounds (a, held) own
          ≡ ok (n, s, own'))
        × Allocated n s own')
      ⊎ ((node_allocator_allocate rounds (a, held) own ≡ err out_of_fuel)
          × (has_quiet rounds ≡ false))
unfolding node_allocator_allocate
node_allocator_allocate_lem rounds a held own cache batched h =
    let r = allocator_maybe_allocate a own in
    from_Outcome rounds r.0 (r.1, held) r.2
      (omega (arith, maybe-sizes a own), omega (arith, maybe-sizes a own))
      (maybe-Attempt a own (λ n. occurs n held) h)
