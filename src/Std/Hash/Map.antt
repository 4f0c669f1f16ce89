-- ===== src/Std/Hash/Map.antt =====
-- A hash table is a finite map.
use inet_forth.Std.Hash.{
  hash_new, Entry, Hash, limit, hash_key_index, find_entry, hash_get_entry, hash_has, value_of,
  hash_get, add_top, hash_set_entry_if_not_exists, hash_is_overload, hash_set,
}
use inet_forth.Std.Hash.Matching.{
  IsHash, add_top-other, add_top-own, find_entry-matching, first_of, hash_get-matching, index_of,
  matching,
}
use inet_forth.Std.Hash.Rehash.{hash_rehash_lem}
use inet_forth.Base.{
  Bool, Bool-cases, List, Option, [], ap, arith, false, if◌then◌else◌, inl, inr, is_some, length,
  ne→==, none, not, ok, refl, some, subst, sym, true, ℕ, ◌&&◌, ◌+◌, ◌<◌, ◌↔◌, ◌∙◌, ◌∷◌, ◌≡◌,
}

module _ {ℓ κ} {K : Type ℓ} {V : Type κ} (hash_fn : K → ℕ) (key_equal_fn : K → K → Bool)
    (lawful : (a b : K) → (key_equal_fn a b ≡ true) ↔ (a ≡ b)) where
  nothing_found : (vs : List V) → first_of vs ≡ none → vs ≡ []
  unfolding first_of
  nothing_found [] e = refl
  nothing_found (v ∷ vs) e = cc

  not_found : (o : Option (Entry K V)) → is_some o ≡ false → value_of hash_fn key_equal_fn o ≡ none
  not_found none e = refl
  not_found (some e') e = cc

  -- What an insertion promises: a key that is there keeps its value.
  unfoldable pub Inserted : Hash K V → K → V → Bool × Hash K V → Type (ℓ ⊔ κ)
  Inserted h key value (fresh, g) =
      IsHash hash_fn key_equal_fn lawful g
      × (fresh ≡ not (hash_has hash_fn key_equal_fn h key))
      × ((k : K)
          → hash_get hash_fn key_equal_fn g k ≡ (
              if fresh && key_equal_fn key k
              then some value
              else hash_get hash_fn key_equal_fn h k))

  -- A new entry in the bucket of a key that stands nowhere.
  new_entry-Inserted :
      (h : Hash K V) (key : K) (value : V) (g : Hash K V)
      → IsHash hash_fn key_equal_fn lawful h
      → matching hash_fn key_equal_fn lawful key
          (h.entries (index_of hash_fn key_equal_fn lawful h key))
        ≡ []
      → g
        ≡ record (add_top hash_fn key_equal_fn h
            (index_of hash_fn key_equal_fn lawful h key)
            (record {
              index = index_of hash_fn key_equal_fn lawful h key;
              key = key;
              value = value;
            })) { length = h.length + 1 }
      → IsHash hash_fn key_equal_fn lawful g
        × ((k : K)
            → hash_get hash_fn key_equal_fn g k
              ≡ (if key_equal_fn key k then some value else hash_get hash_fn key_equal_fn h k))
  unfolding add_top first_of
  new_entry-Inserted h key value g is nothing made =
      let i = index_of hash_fn key_equal_fn lawful h key in
      let e : Entry K V = record { index = i; key = key; value = value } in
      let top : Hash K V = record (add_top hash_fn key_equal_fn h i e) { length = h.length + 1 } in
      let own : (k : K)
          → key ≡ k
          → matching hash_fn key_equal_fn lawful k
              (top.entries (index_of hash_fn key_equal_fn lawful h k))
            ≡ value ∷ [] =
        λ k same.
          add_top-own hash_fn key_equal_fn lawful h e k i (index_of hash_fn key_equal_fn lawful h k)
            (ap (index_of hash_fn key_equal_fn lawful h) same) same
          ∙ ap (λ xs. value ∷ xs)
              (subst
                (λ x.
                  matching hash_fn key_equal_fn lawful x
                    (h.entries (index_of hash_fn key_equal_fn lawful h x))
                  ≡ [])
                same nothing) in
      subst
        (λ x.
          IsHash hash_fn key_equal_fn lawful x
          × ((k : K)
              → hash_get hash_fn key_equal_fn x k
                ≡ (if key_equal_fn key k then some value else hash_get hash_fn key_equal_fn h k)))
        (sym made)
        (
          record {
            placed = λ j k ne. elim (Bool-cases (key_equal_fn key k)) [
              | inl same ↦
                  rw
                    (ne→== i j (λ at. ne (
                      ap (index_of hash_fn key_equal_fn lawful h) (sym ((lawful key k).0 same))
                      ∙ at)))
                    (is.placed j k ne)
              | inr other ↦
                  add_top-other hash_fn key_equal_fn lawful h e k i j other ∙ is.placed j k ne
            ];
            unique = λ k. elim (Bool-cases (key_equal_fn key k)) [
              | inl same ↦ omega (arith, ap length (own k ((lawful key k).0 same)))
              | inr other ↦ omega (
                arith,
                is.unique k,
                ap length (
                    add_top-other hash_fn key_equal_fn lawful h e k i
                      (index_of hash_fn key_equal_fn lawful h k) other),
              )
            ];
            listed = is.listed;
          },
          λ k. elim (Bool-cases (key_equal_fn key k)) [
            | inl same ↦ rw same (
                hash_get-matching hash_fn key_equal_fn lawful top k
                ∙ ap first_of (own k ((lawful key k).0 same)))
            | inr other ↦ rw other (
                hash_get-matching hash_fn key_equal_fn lawful top k
                ∙ ap first_of (
                    add_top-other hash_fn key_equal_fn lawful h e k i
                      (index_of hash_fn key_equal_fn lawful h k) other)
                ∙ sym (hash_get-matching hash_fn key_equal_fn lawful h k))
          ],
        )

  set_entry-Inserted :
      (h : Hash K V) (key : K) (value : V)
      → IsHash hash_fn key_equal_fn lawful h
      → Inserted h key value (hash_set_entry_if_not_exists hash_fn key_equal_fn h key value)
  unfolding hash_set_entry_if_not_exists hash_has hash_get_entry hash_key_index limit Inserted
  set_entry-Inserted h key value is =
      let i = index_of hash_fn key_equal_fn lawful h key in
      let found = is_some (find_entry hash_fn key_equal_fn (h.entries i) key) in
      elim (Bool-cases found) [
        | inl there ↦ rw there (is, refl, λ k. refl)
        | inr fresh ↦
            let nothing : matching hash_fn key_equal_fn lawful key (h.entries i) ≡ [] =
              nothing_found (matching hash_fn key_equal_fn lawful key (h.entries i)) (
                sym (find_entry-matching hash_fn key_equal_fn lawful (h.entries i) key)
                ∙ not_found (find_entry hash_fn key_equal_fn (h.entries i) key) fresh) in
            let (sound, lookups) = new_entry-Inserted h key value _ is nothing refl in
            rw fresh (sound, refl, lookups)
      ]

  has_same :
      (g h : Hash K V) (k : K)
      → hash_get hash_fn key_equal_fn g k ≡ hash_get hash_fn key_equal_fn h k
      → hash_has hash_fn key_equal_fn g k ≡ hash_has hash_fn key_equal_fn h k
  unfolding hash_has hash_get
  has_same g h k e =
      found_value (hash_get_entry hash_fn key_equal_fn g k)
      ∙ ap is_some e
      ∙ sym (found_value (hash_get_entry hash_fn key_equal_fn h k))
    where
      found_value : (o : Option (Entry K V)) → is_some o ≡ is_some (value_of hash_fn key_equal_fn o)
      found_value none = refl
      found_value (some e) = refl

  -- On a sound table with a larger prime listed, `hash_set` always succeeds, through a rehash
  -- where it is needed: it says whether the key is new, a new key gets the value, every other
  -- lookup, that of a key that is already there included, gives what it gave before, and the
  -- table stays sound.
  pub hash_set_lem :
      (h : Hash K V) (key : K) (value : V)
      → IsHash hash_fn key_equal_fn lawful h
      → h.prime_index + 1 < 60
      → (fresh : Bool) × (g : Hash K V) × (hash_set hash_fn key_equal_fn h key value
          ≡ ok (fresh, g))
        × Inserted h key value (fresh, g)
  unfolding hash_set Inserted
  hash_set_lem h key value is room = elim (Bool-cases (hash_is_overload hash_fn key_equal_fn h)) [
    | inl full ↦
        let (r, run, sound, same) =
          hash_rehash_lem hash_fn key_equal_fn lawful h (h.prime_index + 1) is room in
        let (is', fresh, lookups) = set_entry-Inserted r key value sound in
        (
          _,
          _,
          rw (full, run),
          (is', fresh ∙ ap not (has_same r h key (same key)), λ k. rw (← same k) (lookups k)),
        )
    | inr room_left ↦ (_, _, rw room_left, set_entry-Inserted h key value is)
  ]

  -- A new table holds nothing.
  pub hash_new-IsHash : IsHash {V = V} hash_fn key_equal_fn lawful (hash_new hash_fn key_equal_fn)
  unfolding hash_new matching
  hash_new-IsHash = record {
    placed = λ i k ne. refl;
    unique = λ k. omega arith;
    listed = omega arith;
  }
