-- ===== src/Net/NodeAllocator/Conserved.antt =====
-- Every node is in one place: on the shared stack, on the worker's own, or elsewhere (in the net, or
-- on another worker's stack).
use inet_forth.Net.NodeAllocator.{
  NodeAllocator, refill, take_top, allocator_maybe_allocate, batch, prepare_one_batch_of_nodes,
  give_back, allocator_free,
}
use inet_forth.Base.{
  Bool-cases, List, Option, [], arith, if◌then◌else◌, inl, inr, is_some, leb, length, ltb, none,
  occurs, ok, refl, some, suc, true, zero, ℕ, ◌&&◌, ◌*◌, ◌+◌, ◌<◌, ◌==◌, ◌∷◌, ◌≡◌, ◌≤◌,
}

-- `lent n` says how often node `n` is elsewhere. The nodes are numbered from 1 to `node_count`.
abbrev pub Placed : NodeAllocator → List ℕ → (ℕ → ℕ) → Type 0
Placed a own lent =
    (n : ℕ)
    → occurs n a.stack + occurs n own + lent n ≡ (if ltb 0 n && leb n a.node_count then 1 else 0)

-- Node `n` goes to the caller.
abbrev pub lend : (ℕ → ℕ) → ℕ → ℕ → ℕ
lend lent n m = lent m + (if m == n then 1 else 0)

refill-occurs :
    (k : ℕ) (shared own : List ℕ) (n : ℕ)
    → occurs n (refill k shared own).0 + occurs n (refill k shared own).1
      ≡ occurs n shared + occurs n own
unfolding refill
refill-occurs zero shared own n = refl
refill-occurs (suc k) [] own n = refl
refill-occurs (suc k) (x ∷ shared) own n = omega (arith, refill-occurs k shared (x ∷ own) n)

refill-length : (k : ℕ) (shared own : List ℕ) → length own ≤ length (refill k shared own).1
unfolding refill
refill-length zero shared own = omega arith
refill-length (suc k) [] own = omega arith
refill-length (suc k) (x ∷ shared) own = omega (arith, refill-length k shared (x ∷ own))

-- A round of `prepare_one_batch_of_nodes` makes the next nodes and puts them on the shared stack.
pub batch-Placed :
    (k : ℕ) (a : NodeAllocator) (own : List ℕ) (lent : ℕ → ℕ)
    → Placed a own lent
    → Placed (batch k a) own lent
unfolding batch
batch-Placed zero a own lent h = h
batch-Placed (suc k) a own lent h = batch-Placed k _ own lent λ n. ground (arith, h n)

pub batch-length : (k : ℕ) (a : NodeAllocator) → k + length a.stack ≤ length (batch k a).stack
unfolding batch
batch-length zero a = omega arith
batch-length (suc k) a = omega (
  arith,
  batch-length k (record a { node_count = a.node_count + 1; stack = (a.node_count + 1) ∷ a.stack }),
)

pub batch-sizes :
    (k : ℕ) (a : NodeAllocator)
    → ((batch k a).cache_size ≡ a.cache_size) × ((batch k a).batch_size ≡ a.batch_size)
unfolding batch
batch-sizes zero a = (refl, refl)
batch-sizes (suc k) a = batch-sizes k _

-- What an attempt to allocate may come to.
abbrev pub Attempt : (ℕ → ℕ) → Option ℕ × NodeAllocator × List ℕ → Type 0
Attempt lent (none, a, own) = Placed a own lent × (own ≡ [])
Attempt lent (some n, a, own) = Placed a own (lend lent n)

take_top-Attempt :
    (a : NodeAllocator) (own : List ℕ) (lent : ℕ → ℕ)
    → Placed a own lent
    → Attempt lent (take_top a own)
unfolding take_top
take_top-Attempt a [] lent h = (h, refl)
take_top-Attempt a (n ∷ own) lent h = λ m. ground (arith, h m)

pub maybe-Attempt :
    (a : NodeAllocator) (own : List ℕ) (lent : ℕ → ℕ)
    → Placed a own lent
    → Attempt lent (allocator_maybe_allocate a own)
unfolding allocator_maybe_allocate
maybe-Attempt a [] lent h =
    take_top-Attempt _ _ lent λ n. omega (arith, h n, refill-occurs a.cache_size a.stack [] n)
maybe-Attempt a (x ∷ own) lent h = take_top-Attempt a (x ∷ own) lent h

refill_pos :
    (k : ℕ) (shared : List ℕ) → 0 < k → 0 < length shared → 0 < length (refill k shared []).1
unfolding refill
refill_pos zero shared pos some_shared = absurd (omega arith)
refill_pos (suc k) [] pos some_shared = absurd (omega arith)
refill_pos (suc k) (x ∷ shared) pos some_shared = omega (arith, refill-length k shared (x ∷ []))

take_top_some :
    (a : NodeAllocator) (own : List ℕ) → 0 < length own → is_some (take_top a own).0 ≡ true
unfolding take_top
take_top_some a [] pos = absurd (omega arith)
take_top_some a (n ∷ own) pos = refl

take_top-sizes :
    (a : NodeAllocator) (own : List ℕ)
    → ((take_top a own).1.cache_size ≡ a.cache_size)
      × ((take_top a own).1.batch_size ≡ a.batch_size)
unfolding take_top
take_top-sizes a [] = (refl, refl)
take_top-sizes a (n ∷ own) = (refl, refl)

pub maybe-sizes :
    (a : NodeAllocator) (own : List ℕ)
    → ((allocator_maybe_allocate a own).1.cache_size ≡ a.cache_size)
      × ((allocator_maybe_allocate a own).1.batch_size ≡ a.batch_size)
unfolding allocator_maybe_allocate
maybe-sizes a [] = take_top-sizes _ _
maybe-sizes a (n ∷ own) = take_top-sizes a (n ∷ own)

-- With a node on the shared stack the next attempt succeeds.
pub maybe_some :
    (a : NodeAllocator)
    → 0 < a.cache_size
    → 0 < length a.stack
    → is_some (allocator_maybe_allocate a []).0 ≡ true
unfolding allocator_maybe_allocate
maybe_some a cache pos = take_top_some _ _ (refill_pos a.cache_size a.stack cache pos)

pub prepare-Placed :
    (a : NodeAllocator) (own : List ℕ) (lent : ℕ → ℕ)
    → Placed a own lent
    → Placed (prepare_one_batch_of_nodes a) own lent
unfolding prepare_one_batch_of_nodes
prepare-Placed a own lent h = batch-Placed a.batch_size a own lent h

give_back_lem :
    (k : ℕ) (shared own : List ℕ)
    → k ≤ length own
    → (s : List ℕ) × (o : List ℕ) × (give_back k shared own ≡ ok (s, o))
      × ((n : ℕ) → occurs n s + occurs n o ≡ occurs n shared + occurs n own)
unfolding give_back
give_back_lem zero shared own le = (shared, own, refl, λ n. refl)
give_back_lem (suc k) shared [] le = absurd (omega arith)
give_back_lem (suc k) shared (x ∷ own) le =
    let (s, o, run, same) = give_back_lem k (x ∷ shared) own (omega arith) in
    (s, o, run, λ n. omega (arith, same n))

-- Where all nodes are accounted for, giving a lent node back always succeeds, and all nodes stay
-- accounted for.
pub allocator_free_lem :
    (a : NodeAllocator) (own : List ℕ) (lent : ℕ → ℕ) (n : ℕ)
    → Placed a own (lend lent n)
    → (a' : NodeAllocator) × (own' : List ℕ) × (allocator_free a own n ≡ ok (a', own'))
      × Placed a' own' lent
unfolding allocator_free
allocator_free_lem a own lent n h = elim (Bool-cases (leb (2 * a.cache_size) (length own))) [
  | inl full ↦
      let (s, o, run, same) = give_back_lem a.cache_size a.stack own (ground arith) in
      (record a { stack = s }, n ∷ o, rw (full, run), λ m. ground (arith, h m, same m))
  | inr room ↦ (a, n ∷ own, rw room, λ m. ground (arith, h m))
]

pub allocator_free_total :
    (a : NodeAllocator) (own : List ℕ) (n : ℕ)
    → (a' : NodeAllocator) × (own' : List ℕ) × (allocator_free a own n ≡ ok (a', own'))
unfolding allocator_free
allocator_free_total a own n = elim (Bool-cases (leb (2 * a.cache_size) (length own))) [
  | inl full ↦
      let (s, o, run, same) = give_back_lem a.cache_size a.stack own (ground arith) in
      (record a { stack = s }, n ∷ o, rw (full, run))
  | inr room ↦ (a, n ∷ own, rw room)
]
