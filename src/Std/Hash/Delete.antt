-- ===== src/Std/Hash/Delete.antt =====
-- src/packages/std/hash/hash.c: `hash_delete`. The entry that is deleted is the one that was found, the
-- first of its chain with an equal key. The two counters are words of 64 bits, which wrap below zero.
use inet_forth.Std.Hash.{
  Entry, Hash, limit, hash_key_index, find_entry, hash_get_entry, value_of, hash_get,
}
use inet_forth.Std.Hash.Matching.{first_of, matching, index_of, IsHash, hash_get-matching}
use inet_forth.Base.{
  ==_iff, Bool, Bool-cases, List, Option, Option-cases, Result, [], ap, arith, check, false,
  if◌then◌else◌, inl, inr, is_some, length, none, ok, refl, some, subst, suc, sym, true, update, ℕ,
  ◌-◌, ◌==◌, ◌>>◌, ◌^◌, ◌↔◌, ◌∙◌, ◌∷◌, ◌≡◌, ◌≤◌, ◌⊎◌, ◌>>=◌,
}

-- `n--` on a `size_t`.
abbrev pub decrement : ℕ → ℕ
decrement n = if n == 0 then 2 ^ 64 - 1 else n - 1

module _ {ℓ κ} {K : Type ℓ} {V : Type κ} (hash_fn : K → ℕ) (key_equal_fn : K → K → Bool) where
  -- `*entry_pointer = entry->next`
  unfoldable pub unlink_entry : List (Entry K V) → K → List (Entry K V)
  unlink_entry [] key = []
  unlink_entry (e ∷ es) key =
      let later = unlink_entry es key in if key_equal_fn e.key key then es else e ∷ later

  -- The entry pointer is still that of the bucket.
  abbrev pub is_first : List (Entry K V) → K → Bool
  is_first [] key = false
  is_first (e ∷ es) key = key_equal_fn e.key key

  unfoldable pub hash_delete_entry : Hash K V → Entry K V → K → Result (Hash K V)
  unfolding find_entry unlink_entry
  hash_delete_entry h entry key =
      let chain = h.entries entry.index in
      check (is_some (find_entry hash_fn key_equal_fn chain key))
      >> ok (record h {
        used_indexes_size =
            if is_first chain key then decrement h.used_indexes_size else h.used_indexes_size;
        length = decrement h.length;
        entries = update h.entries entry.index (unlink_entry chain key);
      })

  unfoldable pub hash_delete : Hash K V → K → Result (Bool × Hash K V)
  unfolding hash_get_entry hash_delete_entry
  hash_delete h key = elim (hash_get_entry hash_fn key_equal_fn h key) [
    | none ↦ ok (false, h)
    | some entry ↦ (do g ← hash_delete_entry h entry key; ok (true, g))
  ]

  module _ (lawful : (a b : K) → (key_equal_fn a b ≡ true) ↔ (a ≡ b)) where
    -- The other keys of a chain.
    unlink-other :
        (es : List (Entry K V)) (key k : K)
        → key_equal_fn key k ≡ false
        → matching hash_fn key_equal_fn lawful k (unlink_entry es key)
          ≡ matching hash_fn key_equal_fn lawful k es
    unfolding unlink_entry matching
    unlink-other [] key k other = refl
    unlink-other (e ∷ es) key k other = elim (Bool-cases (key_equal_fn e.key key)) [
      | inl same ↦
          let apart : key_equal_fn e.key k ≡ false =
            ap (λ x. key_equal_fn x k) ((lawful e.key key).0 same) ∙ other in
          rw same (rw apart refl)
      | inr differs ↦ elim (Bool-cases (key_equal_fn e.key k)) [
        | inl hit ↦ rw differs (rw hit (ap (λ vs. e.value ∷ vs) (unlink-other es key k other)))
        | inr miss ↦ rw differs (rw miss (unlink-other es key k other))
      ]
    ]

    -- The key itself, where it stands once at most.
    unlink-own :
        (es : List (Entry K V)) (key : K)
        → length (matching hash_fn key_equal_fn lawful key es) ≤ 1
        → matching hash_fn key_equal_fn lawful key (unlink_entry es key) ≡ []
    unfolding unlink_entry matching
    unlink-own [] key once = refl
    unlink-own (e ∷ es) key once = elim (Bool-cases (key_equal_fn e.key key)) [
      | inl same ↦
          rw same (none_left (matching hash_fn key_equal_fn lawful key es) (rw same at once))
      | inr differs ↦ rw differs (rw differs (unlink-own es key (rw differs at once)))
    ]
      where
        none_left : (vs : List V) → suc (length vs) ≤ 1 → vs ≡ []
        none_left [] le = refl
        none_left (v ∷ vs) le = absurd (omega arith)

    -- The table without an entry for the key, where its own chain has lost it.
    deleted : (h : Hash K V) (key : K) (i used count : ℕ) → Hash K V
    deleted h key i used count = record h {
      used_indexes_size = used;
      length = count;
      entries = update h.entries i (unlink_entry (h.entries i) key);
    }

    chain_now :
        (h : Hash K V) (key : K) (i used count : ℕ)
        → IsHash hash_fn key_equal_fn lawful h
        → i ≡ index_of hash_fn key_equal_fn lawful h key
        → (j : ℕ) (k : K)
        → matching hash_fn key_equal_fn lawful k ((deleted h key i used count).entries j) ≡ (
            if key_equal_fn key k then [] else matching hash_fn key_equal_fn lawful k (h.entries j))
    unfolding deleted matching
    chain_now h key i used count is own j k = elim (Bool-cases (key_equal_fn key k)) [
      | inl same ↦
          let e : key ≡ k = (lawful key k).0 same in
          rw same (
            subst
              (λ x.
                matching hash_fn key_equal_fn lawful x ((deleted h key i used count).entries j)
                ≡ [])
              e (own_now (Bool-cases (i == j))))
      | inr other ↦ rw other (other_now other (Bool-cases (i == j)))
    ]
      where
        own_now :
            ((i == j) ≡ true) ⊎ ((i == j) ≡ false)
            → matching hash_fn key_equal_fn lawful key ((deleted h key i used count).entries j) ≡ []
        own_now (inl here) = rw (here) (
            unlink-own (h.entries i) key (
              subst (λ x. length (matching hash_fn key_equal_fn lawful key (h.entries x)) ≤ 1)
                (sym own) (is.unique key)))
        own_now (inr there) =
            rw there (is.placed j key λ e. absurd (cc (there, (==_iff i j).1 (own ∙ e))))

        other_now :
            key_equal_fn key k ≡ false
            → ((i == j) ≡ true) ⊎ ((i == j) ≡ false)
            → matching hash_fn key_equal_fn lawful k ((deleted h key i used count).entries j)
              ≡ matching hash_fn key_equal_fn lawful k (h.entries j)
        other_now other (inl here) = rw here (
            unlink-other (h.entries i) key k other
            ∙ ap (λ x. matching hash_fn key_equal_fn lawful k (h.entries x)) ((==_iff i j).0 here))
        other_now other (inr there) = rw there refl

    deleted-IsHash :
        (h : Hash K V) (key : K) (i used count : ℕ)
        → IsHash hash_fn key_equal_fn lawful h
        → i ≡ index_of hash_fn key_equal_fn lawful h key
        → IsHash hash_fn key_equal_fn lawful (deleted h key i used count)
    unfolding deleted
    deleted-IsHash h key i used count is own = record {
      placed = λ j k ne.
          chain_now h key i used count is own j k
          ∙ ap (λ vs. if key_equal_fn key k then [] else vs) (is.placed j k ne)
          ∙ same_both (key_equal_fn key k);
      unique = λ k.
          subst (λ vs. length vs ≤ 1)
            (sym (chain_now h key i used count is own (index_of hash_fn key_equal_fn lawful h k) k))
            (at_most_one (key_equal_fn key k) _ (is.unique k));
      listed = is.listed;
    }
      where
        same_both : (b : Bool) → ◌≡◌ {A = List V} (if b then [] else []) []
        same_both true = refl
        same_both false = refl

        at_most_one : (b : Bool) (vs : List V) → length vs ≤ 1 → length (if b then [] else vs) ≤ 1
        at_most_one true vs le = omega arith
        at_most_one false vs le = le

    deleted_lookups :
        (h : Hash K V) (key : K) (i used count : ℕ)
        → IsHash hash_fn key_equal_fn lawful h
        → i ≡ index_of hash_fn key_equal_fn lawful h key
        → (k : K)
        → hash_get hash_fn key_equal_fn (deleted h key i used count) k
          ≡ (if key_equal_fn key k then none else hash_get hash_fn key_equal_fn h k)
    unfolding deleted first_of
    deleted_lookups h key i used count is own k =
        hash_get-matching hash_fn key_equal_fn lawful (deleted h key i used count) k
        ∙ ap first_of
            (chain_now h key i used count is own (index_of hash_fn key_equal_fn lawful h k) k)
        ∙ first_if (key_equal_fn key k) _
        ∙ ap (λ o. if key_equal_fn key k then none else o)
            (sym (hash_get-matching hash_fn key_equal_fn lawful h k))
      where
        first_if :
            (b : Bool) (vs : List V)
            → first_of (if b then [] else vs) ≡ (if b then none else first_of vs)
        first_if true vs = refl
        first_if false vs = refl

    -- On a sound table whose entry for the key, if it has one, knows its bucket, `hash_delete` says
    -- whether there was an entry. Where there was none, the table is as it was. Where there was one, the
    -- key has no value any more, every other key keeps its own, the count of entries goes down, and the
    -- table stays sound.
    pub hash_delete_lem :
        (h : Hash K V) (key : K)
        → IsHash hash_fn key_equal_fn lawful h
        → ((e : Entry K V)
            → hash_get_entry hash_fn key_equal_fn h key ≡ some e
            → e.index ≡ index_of hash_fn key_equal_fn lawful h key)
        → ((hash_get hash_fn key_equal_fn h key ≡ none) × (hash_delete h key ≡ ok (false, h)))
          ⊎ ((g : Hash K V) × (hash_delete h key ≡ ok (true, g))
              × IsHash hash_fn key_equal_fn lawful g
              × (g.length ≡ decrement h.length)
              × ((k : K)
                  → hash_get hash_fn key_equal_fn g k
                    ≡ (if key_equal_fn key k then none else hash_get hash_fn key_equal_fn h k)))
    unfolding hash_delete hash_delete_entry hash_get hash_get_entry hash_key_index limit deleted
    hash_delete_lem h key is knows =
        elim (Option-cases (hash_get_entry hash_fn key_equal_fn h key)) [
          | inl absent ↦ inl (ap value_of' absent, rw (absent, hash_delete) refl)
          | inr (e, found) ↦
              let own = knows e found in
              let there : is_some (find_entry hash_fn key_equal_fn (h.entries e.index) key) ≡ true =
                ap (λ i. is_some (find_entry hash_fn key_equal_fn (h.entries i) key)) own
                ∙ ap is_some found in
              let used =
                if is_first (h.entries e.index) key
                then decrement h.used_indexes_size
                else h.used_indexes_size in
              inr (
                deleted h key e.index used (decrement h.length),
                rw (found, hash_delete) (rw there refl),
                deleted-IsHash h key e.index used (decrement h.length) is own,
                refl,
                deleted_lookups h key e.index used (decrement h.length) is own,
              )
        ]
      where
        value_of' : Option (Entry K V) → Option V
        value_of' o = value_of hash_fn key_equal_fn o
