-- ===== src/Std/Hash.antt =====
-- src/packages/std/hash/hash.c: a hash table of chains, whose size is a prime from a list. `entries`
-- gives the chain of each bucket, first entry first. The pointers `hash_fn` and `key_equal_fn` are
-- parameters, and so is what their defaults do. Destructors and the cursor of an iteration are left
-- out. The two counters are `size_t`; what they count is in memory, so that they do not wrap here.
use inet_forth.Base.{
  Bool, List, Option, Result, [], check, dangling, err, false, get_or, if◌then◌else◌, is_some, leb,
  length, ltb, none, ok, some, suc, true, update, zero, ℕ, ◌%◌, ◌*◌, ◌+◌, ◌/◌, ◌^◌, ◌||◌, ◌∷◌,
  ◌>>=◌, ◌>>◌,
}
pub mod Matching
pub mod Rehash
pub mod Map
pub mod Counts
pub mod Delete

abbrev pub hash_primes : List ℕ
hash_primes =
    13 ∷ 31 ∷ 61 ∷ 127 ∷ 251 ∷ 509 ∷ 1021 ∷ 2039 ∷ 4093 ∷ 8191 ∷ 16381 ∷ 32749 ∷ 65521 ∷ 131071
    ∷ 262139 ∷ 524287 ∷ 1048573 ∷ 2097143 ∷ 4194301 ∷ 8388593 ∷ 16777213 ∷ 33554393 ∷ 67108859
    ∷ 134217689 ∷ 268435399 ∷ 536870909 ∷ 1073741789 ∷ 2147483647 ∷ 4294967295 ∷ 8589934591
    ∷ 17179869183 ∷ 34359738367 ∷ 68719476735 ∷ 137438953471 ∷ 274877906943 ∷ 549755813887
    ∷ 1099511627775 ∷ 2199023255551 ∷ 4398046511103 ∷ 8796093022207 ∷ 17592186044415
    ∷ 35184372088831 ∷ 70368744177663 ∷ 140737488355327 ∷ 281474976710655 ∷ 562949953421311
    ∷ 1125899906842623 ∷ 2251799813685247 ∷ 4503599627370495 ∷ 9007199254740991 ∷ 18014398509481983
    ∷ 36028797018963967 ∷ 72057594037927935 ∷ 144115188075855871 ∷ 288230376151711743
    ∷ 576460752303423487 ∷ 1152921504606846975 ∷ 2305843009213693949 ∷ 4611686018427387903
    ∷ 9223372036854775807 ∷ []

abbrev pub size_mod : ℕ
size_mod = 2 ^ 64

pub record Entry {ℓ κ} (K : Type ℓ) (V : Type κ) : Type (ℓ ⊔ κ) where
  pub index : ℕ
  pub key : K
  pub value : V

pub record Hash {ℓ κ} (K : Type ℓ) (V : Type κ) : Type (ℓ ⊔ κ) where
  pub prime_index : ℕ
  pub used_indexes_size : ℕ
  pub length : ℕ
  pub entries : ℕ → List (Entry K V)

-- `hash_primes[prime_index]`; an index past the list is excluded before it is stored.
unfoldable pub prime_at : ℕ → ℕ
prime_at i = get_or hash_primes i 1

module _ {ℓ κ} {K : Type ℓ} {V : Type κ} (hash_fn : K → ℕ) (key_equal_fn : K → K → Bool) where
  unfoldable pub limit : Hash K V → ℕ
  unfolding prime_at
  limit h = prime_at h.prime_index

  unfoldable pub hash_key_index : Hash K V → K → ℕ
  unfolding limit
  hash_key_index h key = hash_fn key % limit h

  unfoldable pub hash_new : Hash K V
  hash_new = record { prime_index = 0; used_indexes_size = 0; length = 0; entries = λ _. [] }

  -- The loop of `hash_get_entry` over a chain.
  unfoldable pub find_entry : List (Entry K V) → K → Option (Entry K V)
  find_entry [] key = none
  find_entry (e ∷ es) key = if key_equal_fn e.key key then some e else find_entry es key

  unfoldable pub hash_get_entry : Hash K V → K → Option (Entry K V)
  unfolding hash_key_index find_entry
  hash_get_entry h key = find_entry (h.entries (hash_key_index h key)) key

  unfoldable pub hash_has : Hash K V → K → Bool
  unfolding hash_get_entry
  hash_has h key = is_some (hash_get_entry h key)

  abbrev pub value_of : Option (Entry K V) → Option V
  value_of none = none
  value_of (some e) = some e.value

  unfoldable pub hash_get : Hash K V → K → Option V
  unfolding hash_get_entry
  hash_get h key = value_of (hash_get_entry h key)

  -- The count of used buckets goes up where the chain was empty.
  unfoldable pub add_top : Hash K V → ℕ → Entry K V → Hash K V
  add_top h index e = record h {
    used_indexes_size = h.used_indexes_size + elim (h.entries index) [ [] ↦ 1 | _ ∷ _ ↦ 0 ];
    entries = update h.entries index (e ∷ h.entries index);
  }

  unfoldable pub hash_set_entry_if_not_exists : Hash K V → K → V → Bool × Hash K V
  unfolding hash_key_index find_entry add_top
  hash_set_entry_if_not_exists h key value =
      let index = hash_key_index h key in
      if is_some (find_entry (h.entries index) key) then (false, h) else (
        true,
        record (add_top h index (record { index = index; key = key; value = value })) {
          length = h.length + 1;
        },
      )

  -- The inner loop of `hash_rehash`: the entries of an old chain go to the new table, which already
  -- has its new prime index.
  unfoldable pub move_chain : Hash K V → List (Entry K V) → Hash K V
  unfolding hash_key_index add_top
  move_chain h [] = h
  move_chain h (e ∷ es) =
      move_chain (add_top h (hash_key_index h e.key) (record e { index = hash_key_index h e.key }))
        es

  -- The outer loop, over the old buckets.
  unfoldable pub move_chains : Hash K V → (ℕ → List (Entry K V)) → (count index : ℕ) → Hash K V
  unfolding move_chain
  move_chains h old zero index = h
  move_chains h old (suc count) index = move_chains (move_chain h (old index)) old count (index + 1)

  -- The assertion compares with the size of the list in bytes; past the list, the read of the prime
  -- is out of bounds.
  unfoldable pub hash_rehash : Hash K V → (new_prime_index : ℕ) → Result (Hash K V)
  unfolding limit move_chains
  hash_rehash h n = do
    check (ltb n (8 * length hash_primes))
    if ltb n (length hash_primes)
        then ok (
            move_chains (record h { prime_index = n; used_indexes_size = 0; entries = λ _. [] })
              h.entries (limit h) 0)
        else err dangling

  unfoldable pub hash_is_overload : Hash K V → Bool
  unfolding limit
  hash_is_overload h =
      leb (limit h * 75 % size_mod / 100) h.length
      || leb (limit h * 50 % size_mod / 100) h.used_indexes_size

  unfoldable pub hash_set : Hash K V → K → V → Result (Bool × Hash K V)
  unfolding hash_is_overload hash_rehash hash_set_entry_if_not_exists
  hash_set h key value = do
    g ← if hash_is_overload h then hash_rehash h (h.prime_index + 1) else ok h
    ok (hash_set_entry_if_not_exists g key value)

  -- `entry->value = value` on the entry that `hash_get_entry` finds.
  unfoldable pub replace_value : List (Entry K V) → K → V → List (Entry K V)
  replace_value [] key value = []
  replace_value (e ∷ es) key value =
      if key_equal_fn e.key key
      then record e { value = value } ∷ es
      else e ∷ replace_value es key value

  unfoldable pub hash_put : Hash K V → K → V → Result (Hash K V)
  unfolding hash_get_entry hash_set replace_value hash_key_index
  hash_put h key value =
      if is_some (hash_get_entry h key)
      then (let index = hash_key_index h key in
          ok (record h {
            entries = update h.entries index (replace_value (h.entries index) key value);
          }))
      else (do (fresh, g) ← hash_set h key value; check fresh; ok g)
