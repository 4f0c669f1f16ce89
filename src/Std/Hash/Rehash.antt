-- ===== src/Std/Hash/Rehash.antt =====
-- A rehash changes no lookup.
use mathlib.Core.List.{append-nil, append_assoc}
use inet_forth.Std.Hash.{
  hash_primes, Entry, Hash, prime_at, limit, hash_key_index, hash_get, add_top, move_chain,
  move_chains, hash_rehash,
}
use inet_forth.Std.Hash.Matching.{
  IsHash, add_top-other, add_top-own, first_of, hash_get-matching, index_of, matching, one_in_order,
}
use inet_forth.Base.{
  ==_iff, Bool, Bool-cases, List, [], ap, arith, get_or, inl, inr, length, length-append, ltb,
  lt→ltb, ne→==, ok, refl, subst, suc, sym, true, zero, ℕ, ◌%◌, ◌&&◌, ◌++◌, ◌+◌, ◌<◌, ◌==◌, ◌↔◌,
  ◌∙◌, ◌∷◌, ◌≡◌, ◌≢◌, ◌≤◌,
}

all_positive : List ℕ → Bool
all_positive [] = true
all_positive (p ∷ ps) = ltb 0 p && all_positive ps

get_or-pos : (ps : List ℕ) (i : ℕ) → all_positive ps ≡ true → 0 < get_or ps i 1
unfolding all_positive
get_or-pos [] i h = omega arith
get_or-pos (p ∷ ps) zero h = ground arith
get_or-pos (p ∷ ps) (suc i) h = get_or-pos ps i (ground arith)

prime_at-pos : (i : ℕ) → 0 < prime_at i
unfolding prime_at all_positive
prime_at-pos i = get_or-pos hash_primes i refl

module _ {ℓ κ} {K : Type ℓ} {V : Type κ} (hash_fn : K → ℕ) (key_equal_fn : K → K → Bool)
    (lawful : (a b : K) → (key_equal_fn a b ≡ true) ↔ (a ≡ b)) where
  -- Moving a chain: what stands under a key is what stood there and what the chain adds.
  move_chain-matching :
      (es : List (Entry K V)) (h : Hash K V) (k : K)
      → length (
            matching hash_fn key_equal_fn lawful k
              (h.entries (index_of hash_fn key_equal_fn lawful h k)))
          + length (matching hash_fn key_equal_fn lawful k es)
        ≤ 1
      → matching hash_fn key_equal_fn lawful k (
          (move_chain hash_fn key_equal_fn h es).entries (index_of hash_fn key_equal_fn lawful h k))
        ≡ matching hash_fn key_equal_fn lawful k
            (h.entries (index_of hash_fn key_equal_fn lawful h k))
          ++ matching hash_fn key_equal_fn lawful k es
  unfolding move_chain matching hash_key_index limit add_top
  move_chain-matching [] h k le = sym (
      append-nil (
        matching hash_fn key_equal_fn lawful k
          (h.entries (index_of hash_fn key_equal_fn lawful h k))))
  move_chain-matching (e ∷ es) h k le =
      let i = index_of hash_fn key_equal_fn lawful h k in
      let g : Hash K V =
        add_top hash_fn key_equal_fn h (index_of hash_fn key_equal_fn lawful h e.key)
          (record e { index = index_of hash_fn key_equal_fn lawful h e.key }) in
      elim (Bool-cases (key_equal_fn e.key k)) [
        | inl same ↦
            let key : e.key ≡ k = (lawful e.key k).0 same in
            let own : matching hash_fn key_equal_fn lawful k (g.entries i)
                ≡ e.value ∷ matching hash_fn key_equal_fn lawful k (h.entries i) =
              add_top-own hash_fn key_equal_fn lawful h
                (record e { index = index_of hash_fn key_equal_fn lawful h e.key }) k
                (index_of hash_fn key_equal_fn lawful h e.key) i
                (ap (index_of hash_fn key_equal_fn lawful h) key) key in
            let count : length (matching hash_fn key_equal_fn lawful k (e ∷ es))
                ≡ suc (length (matching hash_fn key_equal_fn lawful k es)) =
              rw same in
            rw same (
              move_chain-matching es g k (omega (arith, le, count, ap length own))
              ∙ ap (λ xs. xs ++ matching hash_fn key_equal_fn lawful k es) own
              ∙ one_in_order hash_fn key_equal_fn lawful e.value
                  (matching hash_fn key_equal_fn lawful k (h.entries i))
                  (matching hash_fn key_equal_fn lawful k es) (omega (arith, le, count)))
        | inr other ↦
            let kept : matching hash_fn key_equal_fn lawful k (g.entries i)
                ≡ matching hash_fn key_equal_fn lawful k (h.entries i) =
              add_top-other hash_fn key_equal_fn lawful h
                (record e { index = index_of hash_fn key_equal_fn lawful h e.key }) k
                (index_of hash_fn key_equal_fn lawful h e.key) i other in
            let count : length (matching hash_fn key_equal_fn lawful k (e ∷ es))
                ≡ length (matching hash_fn key_equal_fn lawful k es) =
              rw other in
            rw other (
              move_chain-matching es g k (omega (arith, le, count, ap length kept))
              ∙ ap (λ xs. xs ++ matching hash_fn key_equal_fn lawful k es) kept)
      ]

  move_chain-placed :
      (es : List (Entry K V)) (h : Hash K V) (i : ℕ) (k : K)
      → index_of hash_fn key_equal_fn lawful h k ≢ i
      → matching hash_fn key_equal_fn lawful k (h.entries i) ≡ []
      → matching hash_fn key_equal_fn lawful k ((move_chain hash_fn key_equal_fn h es).entries i)
        ≡ []
  unfolding move_chain hash_key_index limit add_top
  move_chain-placed [] h i k out empty = empty
  move_chain-placed (e ∷ es) h i k out empty =
      let g : Hash K V =
        add_top hash_fn key_equal_fn h (index_of hash_fn key_equal_fn lawful h e.key)
          (record e { index = index_of hash_fn key_equal_fn lawful h e.key }) in
      elim (Bool-cases (key_equal_fn e.key k)) [
        | inl same ↦ move_chain-placed es g i k out (
            rw
              (ne→== (index_of hash_fn key_equal_fn lawful h e.key) i (λ at.
                out (
                  ap (index_of hash_fn key_equal_fn lawful h) (sym ((lawful e.key k).0 same))
                  ∙ at)))
              empty)
        | inr other ↦ move_chain-placed es g i k out (
            add_top-other hash_fn key_equal_fn lawful h
              (record e { index = index_of hash_fn key_equal_fn lawful h e.key }) k
              (index_of hash_fn key_equal_fn lawful h e.key) i other
            ∙ empty)
      ]

  prime_kept :
      (es : List (Entry K V)) (h : Hash K V)
      → (move_chain hash_fn key_equal_fn h es).prime_index ≡ h.prime_index
  unfolding move_chain add_top
  prime_kept [] h = refl
  prime_kept (e ∷ es) h =
      let i = hash_key_index hash_fn key_equal_fn h e.key in
      prime_kept es (add_top hash_fn key_equal_fn h i (record e { index = i }))

  index_kept :
      (es : List (Entry K V)) (h : Hash K V) (k : K)
      → index_of hash_fn key_equal_fn lawful (move_chain hash_fn key_equal_fn h es) k
        ≡ index_of hash_fn key_equal_fn lawful h k
  index_kept es h k = ap (λ n. hash_fn k % prime_at n) (prime_kept es h)

  -- What stands under a key in `count` buckets from `index` on.
  all_matching : K → (ℕ → List (Entry K V)) → (count index : ℕ) → List V
  all_matching k old zero index = []
  all_matching k old (suc count) index =
      matching hash_fn key_equal_fn lawful k (old index) ++ all_matching k old count (index + 1)

  move_chains-matching :
      (h : Hash K V) (old : ℕ → List (Entry K V)) (k : K) (count index j : ℕ)
      → index_of hash_fn key_equal_fn lawful h k ≡ j
      → length (matching hash_fn key_equal_fn lawful k (h.entries j))
          + length (all_matching k old count index)
        ≤ 1
      → matching hash_fn key_equal_fn lawful k
          ((move_chains hash_fn key_equal_fn h old count index).entries j)
        ≡ matching hash_fn key_equal_fn lawful k (h.entries j) ++ all_matching k old count index
  unfolding move_chains all_matching
  move_chains-matching h old k zero index j e le =
      sym (append-nil (matching hash_fn key_equal_fn lawful k (h.entries j)))
  move_chains-matching h old k (suc count) index j e le =
      let g : Hash K V = move_chain hash_fn key_equal_fn h (old index) in
      let more : List V = all_matching k old count (index + 1) in
      let lengths : length (matching hash_fn key_equal_fn lawful k (old index) ++ more)
          ≡ length (matching hash_fn key_equal_fn lawful k (old index)) + length more =
        length-append (matching hash_fn key_equal_fn lawful k (old index)) more in
      let here : length (
            matching hash_fn key_equal_fn lawful k
              (h.entries (index_of hash_fn key_equal_fn lawful h k)))
          ≡ length (matching hash_fn key_equal_fn lawful k (h.entries j)) =
        ap (λ x. length (matching hash_fn key_equal_fn lawful k (h.entries x))) e in
      let one : matching hash_fn key_equal_fn lawful k (g.entries j)
          ≡ matching hash_fn key_equal_fn lawful k (h.entries j)
            ++ matching hash_fn key_equal_fn lawful k (old index) =
        subst
          (λ x.
            matching hash_fn key_equal_fn lawful k (g.entries x)
            ≡ matching hash_fn key_equal_fn lawful k (h.entries x)
              ++ matching hash_fn key_equal_fn lawful k (old index))
          e (move_chain-matching (old index) h k (omega (arith, le, lengths, here))) in
      let size : length (
            matching hash_fn key_equal_fn lawful k (h.entries j)
            ++ matching hash_fn key_equal_fn lawful k (old index))
          ≡ length (matching hash_fn key_equal_fn lawful k (h.entries j))
            + length (matching hash_fn key_equal_fn lawful k (old index)) =
        length-append (matching hash_fn key_equal_fn lawful k (h.entries j))
          (matching hash_fn key_equal_fn lawful k (old index)) in
      move_chains-matching g old k count (index + 1) j (index_kept (old index) h k ∙ e)
        (omega (arith, le, lengths, size, ap length one))
      ∙ ap (λ xs. xs ++ more) one
      ∙ append_assoc (matching hash_fn key_equal_fn lawful k (h.entries j))
          (matching hash_fn key_equal_fn lawful k (old index)) more

  move_chains-placed :
      (h : Hash K V) (old : ℕ → List (Entry K V)) (i : ℕ) (k : K) (count index : ℕ)
      → index_of hash_fn key_equal_fn lawful h k ≢ i
      → matching hash_fn key_equal_fn lawful k (h.entries i) ≡ []
      → matching hash_fn key_equal_fn lawful k
          ((move_chains hash_fn key_equal_fn h old count index).entries i)
        ≡ []
  unfolding move_chains
  move_chains-placed h old i k zero index out empty = empty
  move_chains-placed h old i k (suc count) index out empty =
      move_chains-placed (move_chain hash_fn key_equal_fn h (old index)) old i k count (index + 1)
        (λ e. out (sym (index_kept (old index) h k) ∙ e))
        (move_chain-placed (old index) h i k out empty)

  chains_prime :
      (h : Hash K V) (old : ℕ → List (Entry K V)) (count index : ℕ)
      → (move_chains hash_fn key_equal_fn h old count index).prime_index ≡ h.prime_index
  unfolding move_chains
  chains_prime h old zero index = refl
  chains_prime h old (suc count) index =
      chains_prime (move_chain hash_fn key_equal_fn h (old index)) old count (index + 1)
      ∙ prime_kept (old index) h

  -- Among the buckets, only that of the key counts.
  all_matching-none :
      (k : K) (old : ℕ → List (Entry K V)) (count index j : ℕ)
      → j < index
      → ((i : ℕ) → j ≢ i → matching hash_fn key_equal_fn lawful k (old i) ≡ [])
      → all_matching k old count index ≡ []
  unfolding all_matching
  all_matching-none k old zero index j lt rest = refl
  all_matching-none k old (suc count) index j lt rest =
      rw (rest index (omega arith)) (all_matching-none k old count (index + 1) j (omega arith) rest)

  all_matching-own :
      (k : K) (old : ℕ → List (Entry K V)) (count index j : ℕ)
      → index ≤ j
      → j < index + count
      → ((i : ℕ) → j ≢ i → matching hash_fn key_equal_fn lawful k (old i) ≡ [])
      → all_matching k old count index ≡ matching hash_fn key_equal_fn lawful k (old j)
  unfolding all_matching
  all_matching-own k old zero index j le lt rest = absurd (omega arith)
  all_matching-own k old (suc count) index j le lt rest = elim (Bool-cases (index == j)) [
    | inl here ↦
        ap (λ xs. matching hash_fn key_equal_fn lawful k (old index) ++ xs)
          (all_matching-none k old count (index + 1) j (ground arith) rest)
        ∙ append-nil (matching hash_fn key_equal_fn lawful k (old index))
        ∙ ap (λ x. matching hash_fn key_equal_fn lawful k (old x)) ((==_iff index j).0 here)
    | inr there ↦
        rw (rest index (ground arith))
          (all_matching-own k old count (index + 1) j (ground arith) (omega arith) rest)
  ]

  -- A rehash of a sound table to a listed prime succeeds and leaves a sound table, and every
  -- lookup gives what it gave before.
  pub hash_rehash_lem :
      (h : Hash K V) (n : ℕ)
      → IsHash hash_fn key_equal_fn lawful h
      → n < 60
      → (g : Hash K V) × (hash_rehash hash_fn key_equal_fn h n ≡ ok g)
        × IsHash hash_fn key_equal_fn lawful g
        × ((k : K) → hash_get hash_fn key_equal_fn g k ≡ hash_get hash_fn key_equal_fn h k)
  unfolding hash_rehash limit matching
  hash_rehash_lem h n is lt =
      let old_limit = prime_at h.prime_index in
      let empty : Hash K V = record h {
        prime_index = n;
        used_indexes_size = 0;
        entries = λ _. [];
      } in
      let g : Hash K V = move_chains hash_fn key_equal_fn empty h.entries old_limit 0 in
      let own : (k : K)
          → all_matching k h.entries old_limit 0
            ≡ matching hash_fn key_equal_fn lawful k
                (h.entries (index_of hash_fn key_equal_fn lawful h k)) =
        λ k.
          all_matching-own k h.entries old_limit 0 (index_of hash_fn key_equal_fn lawful h k)
            (omega arith) (omega (arith, prime_at-pos h.prime_index)) (λ i ne. is.placed i k ne) in
      let same : (k : K)
          → matching hash_fn key_equal_fn lawful k
              (g.entries (index_of hash_fn key_equal_fn lawful empty k))
            ≡ matching hash_fn key_equal_fn lawful k
                (h.entries (index_of hash_fn key_equal_fn lawful h k)) =
        λ k.
          move_chains-matching empty h.entries k old_limit 0
            (index_of hash_fn key_equal_fn lawful empty k) refl
            (omega (arith, is.unique k, ap length (own k)))
          ∙ own k in
      let prime : g.prime_index ≡ n = chains_prime empty h.entries old_limit 0 in
      let index : (k : K)
          → index_of hash_fn key_equal_fn lawful g k
            ≡ index_of hash_fn key_equal_fn lawful empty k =
        λ k. ap (λ x. hash_fn k % prime_at x) prime in
      (
        g,
        rw (lt→ltb n 480 (omega arith), lt→ltb n 60 lt),
        record {
          placed = λ i k ne.
              move_chains-placed empty h.entries i k old_limit 0 (λ e. ne (index k ∙ e)) refl;
          unique = λ k. omega (
            arith,
            is.unique k,
            ap length
                (ap (λ x. matching hash_fn key_equal_fn lawful k (g.entries x)) (index k) ∙ same k),
          );
          listed = omega arith;
        },
        λ k.
            hash_get-matching hash_fn key_equal_fn lawful g k
            ∙ ap first_of
                (ap (λ x. matching hash_fn key_equal_fn lawful k (g.entries x)) (index k) ∙ same k)
            ∙ sym (hash_get-matching hash_fn key_equal_fn lawful h k),
      )
