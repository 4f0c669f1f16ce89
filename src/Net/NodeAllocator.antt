-- ===== src/Net/NodeAllocator.antt =====
-- src/packages/std/allocator/allocator.c and src/net/node_allocator.c: nodes are handed out from a
-- worker's own stack, which is filled from and emptied into the stack that all workers share.
-- A stack is the list of its content with the top first (see `Std.Stack`); a node is its `id`.
-- The source holds the allocator's mutex while it touches the shared stack, in three critical sections:
-- the refill of `allocator_maybe_allocate`, `prepare_one_batch_of_nodes` and the loop of `allocator_free`.
-- Each runs as one step; the other stack belongs to the calling worker. `node_allocator_allocate` goes
-- through several of them, and between two of them the other workers may act.
use inet_forth.Base.{
  List, Option, Result, [], assertion, err, if◌then◌else◌, leb, length, ltb, none, occurs, ok,
  out_of_fuel, some, suc, zero, ℕ, ◌*◌, ◌+◌, ◌==◌, ◌∷◌, ◌>>=◌, ◌>>◌,
}
pub mod Conserved
pub mod Interleaved

pub record NodeAllocator : Type 0 where
  pub cache_size : ℕ
  pub batch_size : ℕ
  pub node_count : ℕ
  pub stack : List ℕ

-- The loop of `allocator_maybe_allocate`: up to `cache_size` times, it moves the top of the shared
-- stack to the worker's.
refill : ℕ → (shared own : List ℕ) → List ℕ × List ℕ
refill zero shared own = (shared, own)
refill (suc k) [] own = ([], own)
refill (suc k) (n ∷ shared) own = refill k shared (n ∷ own)

-- `stack_pop` of the worker's stack, or `NULL`.
take_top : NodeAllocator → List ℕ → Option ℕ × NodeAllocator × List ℕ
take_top a [] = (none, a, [])
take_top a (n ∷ own) = (some n, a, own)

unfoldable pub allocator_maybe_allocate : NodeAllocator → List ℕ → Option ℕ × NodeAllocator × List ℕ
unfolding refill take_top
allocator_maybe_allocate a [] =
    let (shared, own) = refill a.cache_size a.stack [] in take_top (record a { stack = shared }) own
allocator_maybe_allocate a (n ∷ own) = take_top a (n ∷ own)

-- The loop of `prepare_one_batch_of_nodes`: `node->id = ++self->node_count`.
pub batch : ℕ → NodeAllocator → NodeAllocator
batch zero a = a
batch (suc k) a =
    batch k (record a { node_count = a.node_count + 1; stack = (a.node_count + 1) ∷ a.stack })

pub prepare_one_batch_of_nodes : NodeAllocator → NodeAllocator
unfolding batch
prepare_one_batch_of_nodes a = batch a.batch_size a

-- The shared allocator, and the nodes that are neither on its stack nor on the calling worker's: those on
-- the stacks of the other workers and those in the net.
abbrev pub Shared : Type 0
Shared = NodeAllocator × List ℕ

-- What another worker does to the shared stack. A refill is several `takes`, and a loop of
-- `allocator_free` several `gives`.
pub data OtherStep : Type 0 where
  takes : OtherStep
  gives : (node : ℕ) → OtherStep
  prepares : OtherStep

-- The shared stack's top, if there is one, goes to another worker.
take_shared : NodeAllocator → (held stack : List ℕ) → Shared
take_shared a held [] = (a, held)
take_shared a held (n ∷ stack) = (record a { stack = stack }, n ∷ held)

remove : ℕ → List ℕ → List ℕ
remove n [] = []
remove n (m ∷ ms) = let rest = remove n ms in if m == n then ms else m ∷ rest

-- Another worker gives back only what it holds.
interfere : OtherStep → Shared → Shared
unfolding take_shared remove prepare_one_batch_of_nodes
interfere takes (a, held) = take_shared a held a.stack
interfere (gives n) (a, held) =
    if ltb 0 (occurs n held) then (record a { stack = n ∷ a.stack }, remove n held) else (a, held)
interfere prepares (a, held) = (prepare_one_batch_of_nodes a, held)

unfoldable pub interferes : List OtherStep → Shared → Shared
unfolding interfere
interferes [] s = s
interferes (step ∷ steps) s = interferes steps (interfere step s)

-- A round of `while (!node)`: what the other workers do before the batch is made, and what they do
-- between the batch and the next attempt, where the mutex is free again.
abbrev pub Round : Type 0
Round = List OtherStep × List OtherStep

-- `while (!node)` of `node_allocator_allocate`, for as many rounds as are given; the node is marked by
-- the caller's heap.
allocate_from : List Round → Option ℕ × Shared × List ℕ → Result (ℕ × Shared × List ℕ)
unfolding interferes
allocate_from rounds (some n, s, own) = ok (n, s, own)
allocate_from [] (none, s, own) = err out_of_fuel
allocate_from ((before, after) ∷ rounds) (none, s, own) =
    let (a, held) = interferes before s in
    let (b, held₁) = interferes after (prepare_one_batch_of_nodes a, held) in
    let (found, c, own₁) = allocator_maybe_allocate b own in
    allocate_from rounds (found, (c, held₁), own₁)

unfoldable pub node_allocator_allocate : List Round → Shared → List ℕ → Result (ℕ × Shared × List ℕ)
unfolding allocate_from allocator_maybe_allocate prepare_one_batch_of_nodes
node_allocator_allocate rounds (a, held) own =
    let (found, b, own₁) = allocator_maybe_allocate a own in
    allocate_from rounds (found, (b, held), own₁)

-- No other worker acts.
abbrev pub alone : Round
alone = ([], [])

-- The loop of `allocator_free`: `cache_size`, a constant of the node allocator, times, the worker's top
-- goes to the shared stack.
give_back : ℕ → (shared own : List ℕ) → Result (List ℕ × List ℕ)
give_back zero shared own = ok (shared, own)
give_back (suc k) shared [] = err assertion
give_back (suc k) shared (n ∷ own) = give_back k (n ∷ shared) own

unfoldable pub allocator_free : NodeAllocator → List ℕ → ℕ → Result (NodeAllocator × List ℕ)
unfolding give_back
allocator_free a own n =
    if leb (2 * a.cache_size) (length own)
    then (do
      (shared, rest) ← give_back a.cache_size a.stack own
      ok (record a { stack = shared }, n ∷ rest))
    else ok (a, n ∷ own)
