-- ===== src/Std/Hash/Matching.antt =====
-- What stands under a key in the chains of a table, and the soundness of a table.
use inet_forth.Std.Hash.{
  hash_primes, Entry, Hash, prime_at, limit, hash_key_index, find_entry, hash_get_entry, value_of,
  hash_get, add_top,
}
use inet_forth.Base.{
  ==_iff, Bool, Bool-cases, List, Option, [], ap, arith, false, if◌then◌else◌, inl, inr, length,
  none, refl, some, suc, true, ℕ, ◌%◌, ◌++◌, ◌+◌, ◌<◌, ◌==◌, ◌↔◌, ◌∷◌, ◌≡◌, ◌≢◌, ◌≤◌,
}

unfoldable pub first_of {ℓ} : {V : Type ℓ} → List V → Option V
first_of [] = none
first_of (v ∷ vs) = some v

-- The function pointers of a table; two keys are equal to it only if they are the same.
module _ {ℓ κ} {K : Type ℓ} {V : Type κ} (hash_fn : K → ℕ) (key_equal_fn : K → K → Bool)
    (lawful : (a b : K) → (key_equal_fn a b ≡ true) ↔ (a ≡ b)) where
  -- The values in a chain that stand under a key.
  unfoldable pub matching : K → List (Entry K V) → List V
  matching k [] = []
  matching k (e ∷ es) = if key_equal_fn e.key k then e.value ∷ matching k es else matching k es

  abbrev pub index_of : Hash K V → K → ℕ
  index_of h k = hash_fn k % prime_at h.prime_index

  pub record IsHash (h : Hash K V) : Type (ℓ ⊔ κ) where
    -- a key stands in its own bucket only, and once at most
    pub placed : (i : ℕ) (k : K) → index_of h k ≢ i → matching k (h.entries i) ≡ []
    pub unique : (k : K) → length (matching k (h.entries (index_of h k))) ≤ 1
    pub listed : h.prime_index < length hash_primes

  pub find_entry-matching :
      (es : List (Entry K V)) (k : K)
      → value_of hash_fn key_equal_fn (find_entry hash_fn key_equal_fn es k)
        ≡ first_of (matching k es)
  unfolding find_entry matching first_of
  find_entry-matching [] k = refl
  find_entry-matching (e ∷ es) k = elim (Bool-cases (key_equal_fn e.key k)) [
    | inl same ↦ rw same
    | inr other ↦ rw other (find_entry-matching es k)
  ]

  pub hash_get-matching :
      (h : Hash K V) (k : K)
      → hash_get hash_fn key_equal_fn h k ≡ first_of (matching k (h.entries (index_of h k)))
  unfolding hash_get hash_get_entry hash_key_index limit
  hash_get-matching h k = find_entry-matching (h.entries (index_of h k)) k

  -- An entry on top of its bucket, for its own key and for the others.
  pub add_top-own :
      (h : Hash K V) (e : Entry K V) (k : K) (i j : ℕ)
      → i ≡ j
      → e.key ≡ k
      → matching k ((add_top hash_fn key_equal_fn h i e).entries j)
        ≡ e.value ∷ matching k (h.entries j)
  unfolding add_top matching
  add_top-own h e k i j at same =
      rw ((==_iff i j).1 at, (lawful e.key k).1 same)
        (ap (λ x. e.value ∷ matching k (h.entries x)) at)

  pub add_top-other :
      (h : Hash K V) (e : Entry K V) (k : K) (i j : ℕ)
      → key_equal_fn e.key k ≡ false
      → matching k ((add_top hash_fn key_equal_fn h i e).entries j) ≡ matching k (h.entries j)
  unfolding add_top matching
  add_top-other h e k i j other = elim (Bool-cases (i == j)) [
    | inl here ↦ rw here (rw other (ap (λ x. matching k (h.entries x)) ((==_iff i j).0 here)))
    | inr there ↦ rw there
  ]

  -- Two lists that hold one value at most between them, in either order.
  pub one_in_order :
      (v : V) (xs ys : List V) → length xs + suc (length ys) ≤ 1 → (v ∷ xs) ++ ys ≡ xs ++ v ∷ ys
  one_in_order v [] ys h = refl
  one_in_order v (x ∷ xs) ys h = absurd (omega arith)
