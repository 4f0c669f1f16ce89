-- ===== src/Std/Hash/Counts.antt =====
-- How far an insertion moves the prime of a table, and its count of entries.
use inet_forth.Std.Hash.{
  Entry, Hash, hash_primes, limit, hash_key_index, find_entry, add_top, move_chain, move_chains,
  hash_rehash, hash_is_overload, hash_set_entry_if_not_exists, hash_set, hash_has, hash_get,
  hash_get_entry, value_of,
}
use inet_forth.Base.{
  >>=-eq-ok, Bool, Bool-cases, List, Option, [], ap, arith, err-ne-ok, false, if◌then◌else◌, inl,
  inr, is_some, length, ltb, none, ok, ok-injective, refl, some, subst, suc, true, zero, ℕ, ◌*◌,
  ◌+◌, ◌∙◌, ◌∷◌, ◌≡◌, ◌≤◌, ◌⊎◌,
}

module _ {ℓ κ} {K : Type ℓ} {V : Type κ} (hash_fn : K → ℕ) (key_equal_fn : K → K → Bool) where
  -- The table `g` has the prime and the count of `h`.
  AsBefore : Hash K V → Hash K V → Type 0
  AsBefore h g = (g.prime_index ≡ h.prime_index) × (g.length ≡ h.length)

  move_chain-AsBefore :
      (es : List (Entry K V)) (h : Hash K V) → AsBefore h (move_chain hash_fn key_equal_fn h es)
  unfolding move_chain add_top AsBefore
  move_chain-AsBefore [] h = (refl, refl)
  move_chain-AsBefore (e ∷ es) h = move_chain-AsBefore es _

  move_chains-AsBefore :
      (old : ℕ → List (Entry K V)) (count index : ℕ) (h : Hash K V)
      → AsBefore h (move_chains hash_fn key_equal_fn h old count index)
  unfolding move_chains AsBefore
  move_chains-AsBefore old zero index h = (refl, refl)
  move_chains-AsBefore old (suc count) index h =
      let (primes, counts) = move_chain-AsBefore (old index) h in
      let (primes', counts') =
        move_chains-AsBefore old count (index + 1)
          (move_chain hash_fn key_equal_fn h (old index)) in
      (primes' ∙ primes, counts' ∙ counts)

  abbrev pub Counted : Hash K V → Bool × Hash K V → Type 0
  Counted h (fresh, g) =
      (g.prime_index ≤ h.prime_index + 1) × (g.length ≡ (if fresh then h.length + 1 else h.length))

  set_entry_counts :
      (h g : Hash K V) (key : K) (value : V)
      → g.prime_index ≤ h.prime_index + 1
      → g.length ≡ h.length
      → Counted h (hash_set_entry_if_not_exists hash_fn key_equal_fn g key value)
  unfolding hash_set_entry_if_not_exists add_top
  set_entry_counts h g key value le counts =
      elim (Bool-cases (
        is_some (
          find_entry hash_fn key_equal_fn (g.entries (hash_key_index hash_fn key_equal_fn g key))
            key))) [ inl e ↦ rw e (le, counts) | inr e ↦ rw e (le, ap (λ n. n + 1) counts) ]

  rehash_counts :
      (h : Hash K V) (n : ℕ) (t : Hash K V)
      → hash_rehash hash_fn key_equal_fn h n ≡ ok t
      → (t.prime_index ≡ n) × (t.length ≡ h.length)
  unfolding hash_rehash AsBefore
  rehash_counts h n t run = elim (Bool-cases (ltb n (8 * length hash_primes))) [
    | inr e ↦ absurd (err-ne-ok (rw e at run))
    | inl e ↦ elim (Bool-cases (ltb n (length hash_primes))) [
      | inr e' ↦ absurd (err-ne-ok (rw (e, e') at run))
      | inl e' ↦
          let moved = ok-injective (rw (e, e') at run) in
          subst (λ t. (t.prime_index ≡ n) × (t.length ≡ h.length)) moved
            (move_chains-AsBefore h.entries (limit hash_fn key_equal_fn h) 0
              (record h { prime_index = n; used_indexes_size = 0; entries = λ _. [] }))
    ]
  ]

  pub hash_set_counts :
      (h : Hash K V) (key : K) (value : V) (fresh : Bool) (g : Hash K V)
      → hash_set hash_fn key_equal_fn h key value ≡ ok (fresh, g)
      → Counted h (fresh, g)
  unfolding hash_set hash_rehash
  hash_set_counts h key value fresh g run =
      let (t, grown, rest) =
        >>=-eq-ok
          (if hash_is_overload hash_fn key_equal_fn h
            then hash_rehash hash_fn key_equal_fn h (h.prime_index + 1)
            else ok h)
          _ run in
      let (le, counts) =
        grown_counts (Bool-cases (hash_is_overload hash_fn key_equal_fn h)) t grown in
      subst (Counted h) (ok-injective rest) (set_entry_counts h t key value le counts)
    where
      grown_counts :
          (hash_is_overload hash_fn key_equal_fn h ≡ true)
            ⊎ (hash_is_overload hash_fn key_equal_fn h ≡ false)
          → (t : Hash K V)
          → (if hash_is_overload hash_fn key_equal_fn h
              then hash_rehash hash_fn key_equal_fn h (h.prime_index + 1)
              else ok h)
            ≡ ok t
          → (t.prime_index ≤ h.prime_index + 1) × (t.length ≡ h.length)
      grown_counts (inl e) t grown =
          let (primes, counts) = rehash_counts h (h.prime_index + 1) t (rw e at grown) in
          (omega arith, counts)
      grown_counts (inr e) t grown =
          let same : h ≡ t = ok-injective (rw e at grown) in
          subst (λ t. (t.prime_index ≤ h.prime_index + 1) × (t.length ≡ h.length)) same
            (omega arith, refl)

  pub hash_has-hash_get :
      (h : Hash K V) (key : K)
      → hash_has hash_fn key_equal_fn h key ≡ is_some (hash_get hash_fn key_equal_fn h key)
  unfolding hash_has hash_get
  hash_has-hash_get h key = found (hash_get_entry hash_fn key_equal_fn h key)
    where
      found : (o : Option (Entry K V)) → is_some o ≡ is_some (value_of hash_fn key_equal_fn o)
      found none = refl
      found (some e) = refl
