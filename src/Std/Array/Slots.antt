-- ===== src/Std/Array/Slots.antt =====
-- What each operation of an array does to its slots, growth included.
use inet_forth.Std.Array.{
  with_slots, size_mod, Array, array_new, array_is_full, array_resize, store, array_pop, array_push,
  array_get, array_set,
}
use inet_forth.Base.{
  ==_iff, Bool-cases, List, Option, ap, arith, get_or, get_or-append_replicate, get_or-set_ne,
  get_or-set_self, get_or_out, if◌then◌else◌, inl, inr, leb, length, length-append,
  length-replicate, length-set, le→leb, lt→leb, lt→ltb, ne→==, none, ok, refl, replicate, set,
  subst, suc, sym, true, zero, ℕ, ◌%◌, ◌*◌, ◌+◌, ◌-◌, ◌<◌, ◌==◌, ◌^◌, ◌∙◌, ◌≡◌, ◌≤◌,
}

module _ {ℓ} {A : Type ℓ} where
  -- The content of a slot; a slot that is not allocated holds nothing.
  abbrev pub slot : Array A → ℕ → Option A
  slot a i = get_or a.values i none

  pub record IsArray (a : Array A) : Type ℓ where
    pub sized : length a.values ≡ a.size
    pub within : a.cursor ≤ a.size
    pub grows : 0 < a.grow_step
    -- the slots behind the cursor are `NULL`
    pub clear : (i : ℕ) → a.cursor ≤ i → slot a i ≡ none

  get_or-replicate : (n i : ℕ) → ◌≡◌ {A = Option A} (get_or (replicate n none) i none) none
  get_or-replicate zero i = refl
  get_or-replicate (suc n) zero = refl
  get_or-replicate (suc n) (suc i) = get_or-replicate n i

  pub array_new-IsArray : (size : ℕ) → 0 < size → IsArray (array_new {A = A} size)
  unfolding array_new
  array_new-IsArray size pos = record {
    sized = length-replicate size none;
    within = omega arith;
    grows = pos;
    clear = λ i h. get_or-replicate size i;
  }

  -- The array with at least `n` slots that a push or a write at `n` goes on with.
  Grown : Array A → ℕ → Array A → Type ℓ
  Grown a size b =
      (length b.values ≡ b.size)
      × (b.size ≡ size)
      × (b.grow_step ≡ a.grow_step)
      × (b.cursor ≡ a.cursor)
      × ((i : ℕ) → slot b i ≡ slot a i)

  with_slots-Grown :
      (a : Array A) (size : ℕ)
      → length a.values ≡ a.size
      → a.size ≤ size
      → Grown a size (with_slots a size)
  unfolding with_slots Grown
  with_slots-Grown a size sized larger = (
    omega (
      arith,
      length-append a.values (replicate (size - a.size) none),
      length-replicate {ℓ} {A = Option A} (size - a.size) none,
    ),
    refl,
    refl,
    refl,
    (λ i. get_or-append_replicate a.values (size - a.size) i none),
  )

  array_resize-with_slots :
      (a : Array A) (size : ℕ)
      → a.size < size
      → size < 2 ^ 61
      → array_resize a size ≡ ok (with_slots a size)
  unfolding array_resize
  array_resize-with_slots a size larger few =
      rw
        (
          le→leb a.size size (omega arith),
          ne→== size a.size (λ e. omega arith),
          lt→leb size_mod (size * 8) (omega arith),
        )
        refl

  store-ok :
      (b : Array A) (i : ℕ) (v : Option A)
      → i < b.size
      → store b i v ≡ ok (record b { values = set b.values i v })
  unfolding store
  store-ok b i v lt = rw (lt→ltb i b.size lt)

  slot-set :
      (xs : List (Option A)) (i j : ℕ) (v : Option A)
      → i < length xs
      → get_or (set xs i v) j none ≡ (if i == j then v else get_or xs j none)
  slot-set xs i j v lt = elim (Bool-cases (i == j)) [
    | inl e ↦ rw e (
        subst (λ k. get_or (set xs i v) k none ≡ v) ((==_iff i j).0 e)
          (get_or-set_self xs i v none lt))
    | inr e ↦ rw e (get_or-set_ne xs i j v none (λ p. ground arith))
  ]

past :
    (c index i : ℕ)
    → index < 2 ^ 61
    → (if leb c index then (index + 1) % size_mod else c) ≤ i
    → (c ≤ i) × (index < i)
past c index i few h = ground arith

-- The value `NULL` or `v` that a slot holds after a write at `index`.
module _ {ℓ} {A : Type ℓ} (a : Array A) (is : IsArray a) where
  abbrev pub Pushed : Option A → Array A → Type ℓ
  Pushed v b =
      IsArray b
      × (b.cursor ≡ a.cursor + 1)
      × ((i : ℕ) → slot b i ≡ (if a.cursor == i then v else slot a i))

  push_into :
      (size : ℕ) (b : Array A) (v : Option A)
      → a.cursor < size
      → Grown a size b
      → (c : Array A) × (store b b.cursor v ≡ ok c) × Pushed v (record c { cursor = c.cursor + 1 })
  unfolding Grown
  push_into size b v room (len, sz, step, cur, same) = (
    record b { values = set b.values b.cursor v },
    store-ok b b.cursor v (omega arith),
    (
      record {
        sized = omega (arith, length-set b.values b.cursor v);
        within = omega arith;
        grows = ground (arith, is.grows);
        clear = λ i h. ground (arith, is.clear i, same i, slot-set b.values b.cursor i v);
      },
      omega arith,
      (λ i. ground (arith, same i, slot-set b.values b.cursor i v)),
    ),
  )

  -- A push always succeeds, growing the array where it is full; it writes the value at the cursor,
  -- moves the cursor on by one, and keeps every other slot.
  pub array_push_lem : (v : Option A) → (b : Array A) × (array_push a v ≡ ok b) × Pushed v b
  unfolding array_push array_is_full Grown
  array_push_lem v = elim (Bool-cases (array_is_full a)) [
    | inl full ↦
        let (c, stored, pushed) =
          push_into (a.size + a.grow_step) (with_slots a (a.size + a.grow_step)) v
            (omega (arith, is.within, is.grows))
            (with_slots-Grown a (a.size + a.grow_step) is.sized (omega arith)) in
        (record c { cursor = c.cursor + 1 }, rw (full, stored), pushed)
    | inr room ↦
        let (c, stored, pushed) =
          push_into a.size a v (ground (arith, is.within))
            (is.sized, refl, refl, refl, λ i. refl) in
        (record c { cursor = c.cursor + 1 }, rw (room, stored), pushed)
  ]

  abbrev pub Written : ℕ → Option A → Array A → Type ℓ
  Written index v b =
      IsArray b
      × (b.cursor ≡ (if leb a.cursor index then index + 1 else a.cursor))
      × ((i : ℕ) → slot b i ≡ (if index == i then v else slot a i))
      × (b.grow_step ≡ a.grow_step)

  write_into :
      (size index : ℕ) (b : Array A) (v : Option A)
      → a.size ≤ size
      → index < size
      → index < 2 ^ 61
      → Grown a size b
      → (c : Array A) × (store b index v ≡ ok c)
        × Written index v
            (record c { cursor = if leb c.cursor index then (index + 1) % size_mod else c.cursor })
  unfolding Grown
  write_into size index b v larger room few (len, sz, step, cur, same) = (
    record b { values = set b.values index v },
    store-ok b index v (omega arith),
    (
      record {
        sized = omega (arith, length-set b.values index v);
        within = elim (Bool-cases (leb b.cursor index)) [
          | inl e ↦ rw e (omega arith)
          | inr e ↦ rw e (omega (arith, is.within))
        ];
        grows = omega (arith, is.grows);
        clear = cleared;
      },
      rw cur (ground arith),
      (λ i. ground (arith, same i, slot-set b.values index i v)),
      step,
    ),
  )
    where
      cleared :
          (i : ℕ)
          → (if leb b.cursor index then (index + 1) % size_mod else b.cursor) ≤ i
          → get_or (set b.values index v) i none ≡ none
      cleared i h =
          let (behind, apart) = past b.cursor index i few h in
          slot-set b.values index i v (omega arith)
          ∙ rw (ne→== index i (omega arith)) (same i ∙ is.clear i (omega arith))

  array_set_outside :
      (index : ℕ) (v : Option A) (b c : Array A)
      → leb a.size index ≡ true
      → array_resize a ((index + a.grow_step) % size_mod) ≡ ok b
      → store b index v ≡ ok c
      → array_set a index v
        ≡ ok (record c { cursor = if leb c.cursor index then (index + 1) % size_mod else c.cursor })
  unfolding array_set
  array_set_outside index v b c outside resized stored = rw (outside, resized, stored) refl

  -- A write to a sound array at an index that is, with the grow step, below 2 ^ 61, so that no size
  -- wraps, always succeeds, growing the array where the index is past its slots: the array stays
  -- sound, that slot alone changes, and the cursor moves behind the index if it was not there
  -- before.
  pub array_set_lem :
      (index : ℕ) (v : Option A)
      → index + a.grow_step < 2 ^ 61
      → (b : Array A) × (array_set a index v ≡ ok b) × Written index v b
  unfolding array_set Grown
  array_set_lem index v few = elim (Bool-cases (leb a.size index)) [
    | inl outside ↦
        let size : ℕ = index + a.grow_step in
        let resized : array_resize a ((index + a.grow_step) % size_mod) ≡ ok (with_slots a size) =
          ap (array_resize a) (omega arith)
          ∙ array_resize-with_slots a size (ground (arith, is.grows)) few in
        let (c, stored, written) =
          write_into size index (with_slots a size) v (ground arith) (omega (arith, is.grows))
            (omega arith) (with_slots-Grown a size is.sized (ground arith)) in
        (_, array_set_outside index v (with_slots a size) c outside resized stored, written)
    | inr inside ↦
        let (c, stored, written) =
          write_into a.size index a v (omega arith) (ground arith) (omega arith)
            (is.sized, refl, refl, refl, λ i. refl) in
        (_, rw (inside, stored), written)
  ]

  -- A pop from a non-empty array gives the last element and clears its slot.
  pub array_pop_lem :
      0 < a.cursor
      → (b : Array A) × (array_pop a ≡ ok (slot a (a.cursor - 1), b))
        × IsArray b
        × (b.cursor + 1 ≡ a.cursor)
        × ((i : ℕ) → slot b i ≡ (if a.cursor - 1 == i then none else slot a i))
  unfolding array_pop
  array_pop_lem pos = (
    record a { cursor = a.cursor - 1; values = set a.values (a.cursor - 1) none },
    rw (lt→ltb 0 a.cursor pos),
    record {
      sized = omega (arith, is.sized, length-set a.values (a.cursor - 1) none);
      within = omega (arith, is.within);
      grows = is.grows;
      clear = λ i h.
          ground (arith, is.within, is.sized, is.clear i, slot-set a.values (a.cursor - 1) i none);
    },
    omega arith,
    (λ i. ground (arith, is.within, is.sized, slot-set a.values (a.cursor - 1) i none)),
  )

  -- A read is defined everywhere: past the slots it gives `NULL`.
  pub array_get-slot : (i : ℕ) → array_get a i ≡ slot a i
  unfolding array_get
  array_get-slot i = elim (Bool-cases (leb a.size i)) [
    | inl out ↦ rw out (sym (get_or_out a.values i none (ground (arith, is.sized))))
    | inr inside ↦ rw inside
  ]
