-- ===== src/Std/LinkedList/Nodes.antt =====
-- The nodes of a linked list: their addresses and values in order, as the store holds them.
use inet_forth.Std.LinkedList.{Cell, Cells, read, set_prev, set_next}
use inet_forth.Base.{
  ==_refl, Bool, List, Option, Result, [], ap, arith, dangling, err, false, none, not, ok, refl,
  some, sym, true, update, ℕ, ◌&&◌, ◌++◌, ◌==◌, ◌>>=◌, ◌∙◌, ◌∷◌, ◌≡◌,
}

-- The address of the first node, or `n` where there is none.
unfoldable pub head_of {ℓ} : {A : Type ℓ} → Option ℕ → List (ℕ × Option A) → Option ℕ
head_of n [] = n
head_of n ((a, v) ∷ xs) = some a

-- The address of the last node, or `p` where there is none.
unfoldable pub last_of {ℓ} : {A : Type ℓ} → Option ℕ → List (ℕ × Option A) → Option ℕ
last_of p [] = p
last_of p ((a, v) ∷ xs) = last_of (some a) xs

-- No node has the address.
unfoldable pub absent {ℓ} : {A : Type ℓ} → ℕ → List (ℕ × Option A) → Bool
absent a [] = true
absent a ((b, v) ∷ xs) = not (a == b) && absent a xs

-- The addresses differ.
unfoldable pub distinct {ℓ} : {A : Type ℓ} → List (ℕ × Option A) → Bool
unfolding absent
distinct [] = true
distinct ((a, v) ∷ xs) = absent a xs && distinct xs

-- The pointer is NULL or the address of a node.
unfoldable pub on_list {ℓ} : {A : Type ℓ} → Option ℕ → List (ℕ × Option A) → Bool
unfolding absent
on_list none xs = true
on_list (some a) xs = not (absent a xs)

module _ {ℓ} {A : Type ℓ} where
  -- From `p` to `n`, each node points to the one before and the one behind.
  abbrev pub Linked : Cells A → Option ℕ → List (ℕ × Option A) → Option ℕ → Type ℓ
  Linked cells p [] n = Unit {ℓ}
  Linked cells p ((a, v) ∷ xs) n =
      (cells a ≡ some (record { prev = p; next = head_of n xs; value = v }))
      × Linked cells (some a) xs n

  pub head_of-append :
      (n : Option ℕ) (xs ys : List (ℕ × Option A))
      → head_of n (xs ++ ys) ≡ head_of (head_of n ys) xs
  unfolding head_of
  head_of-append n [] ys = refl
  head_of-append n (x ∷ xs) ys = refl

  pub Linked-append :
      (cells : Cells A) (p n : Option ℕ) (xs ys : List (ℕ × Option A))
      → Linked cells p xs (head_of n ys)
      → Linked cells (last_of p xs) ys n
      → Linked cells p (xs ++ ys) n
  unfolding last_of head_of
  Linked-append cells p n [] ys h k = k
  Linked-append cells p n ((a, v) ∷ xs) ys h k = (
    h.0 ∙ ap (λ m. some (record { prev = p; next = m; value = v })) (sym (head_of-append n xs ys)),
    Linked-append cells (some a) n xs ys h.1 k,
  )

  pub Linked-split :
      (cells : Cells A) (p n : Option ℕ) (xs ys : List (ℕ × Option A))
      → Linked cells p (xs ++ ys) n
      → Linked cells p xs (head_of n ys) × Linked cells (last_of p xs) ys n
  unfolding last_of head_of
  Linked-split cells p n [] ys h = (tt, h)
  Linked-split cells p n ((a, v) ∷ xs) ys h =
      let (front, back) = Linked-split cells (some a) n xs ys h.1 in
      (
        (
          h.0 ∙ ap (λ m. some (record { prev = p; next = m; value = v })) (head_of-append n xs ys),
          front,
        ),
        back,
      )

  -- A change at an address that no node has.
  pub Linked-update :
      (cells : Cells A) (p n : Option ℕ) (xs : List (ℕ × Option A)) (a : ℕ) (c : Option (Cell A))
      → absent a xs ≡ true
      → Linked cells p xs n
      → Linked (update cells a c) p xs n
  unfolding absent
  Linked-update cells p n [] a c out h = h
  Linked-update cells p n ((b, v) ∷ xs) a c out h =
      let other : (a == b) ≡ false = ground arith in
      (rw other h.0, Linked-update cells (some b) n xs a c (ground arith) h.1)

  pub last_of-append :
      (p : Option ℕ) (xs ys : List (ℕ × Option A))
      → last_of p (xs ++ ys) ≡ last_of (last_of p xs) ys
  unfolding last_of
  last_of-append p [] ys = refl
  last_of-append p ((a, v) ∷ xs) ys = last_of-append (some a) xs ys

  pub absent-append :
      (a : ℕ) (xs ys : List (ℕ × Option A)) → absent a (xs ++ ys) ≡ (absent a xs && absent a ys)
  unfolding absent
  absent-append a [] ys = refl
  absent-append a ((b, v) ∷ xs) ys = ground (arith, absent-append a xs ys)

  -- No address of the one is an address of the other.
  unfoldable pub disjoint : List (ℕ × Option A) → List (ℕ × Option A) → Bool
  disjoint [] ys = true
  disjoint ((a, v) ∷ xs) ys = absent a ys && disjoint xs ys

  pub distinct-append :
      (xs ys : List (ℕ × Option A))
      → distinct (xs ++ ys) ≡ ((distinct xs && distinct ys) && disjoint xs ys)
  unfolding distinct disjoint
  distinct-append [] ys = ground arith
  distinct-append ((a, v) ∷ xs) ys = ground (arith, distinct-append xs ys, absent-append a xs ys)

  pub disjoint_cons :
      (xs ys : List (ℕ × Option A)) (a : ℕ) (v : Option A)
      → disjoint xs ((a, v) ∷ ys) ≡ (absent a xs && disjoint xs ys)
  unfolding disjoint absent
  disjoint_cons [] ys a v = refl
  disjoint_cons ((b, w) ∷ xs) ys a v = ground (arith, disjoint_cons xs ys a v)

  pub disjoint_comm : (xs ys : List (ℕ × Option A)) → disjoint xs ys ≡ disjoint ys xs
  unfolding disjoint absent
  disjoint_comm [] [] = refl
  disjoint_comm [] ((a, v) ∷ ys) = ground (arith, disjoint_comm [] ys)
  disjoint_comm ((a, v) ∷ xs) ys = ground (arith, disjoint_comm xs ys, disjoint_cons ys xs a v)

  -- A change of nodes elsewhere.
  pub Linked-frame :
      (c c' : Cells A) (p n : Option ℕ) (xs ys : List (ℕ × Option A))
      → disjoint xs ys ≡ true
      → ((b : ℕ) → absent b ys ≡ true → c' b ≡ c b)
      → Linked c p xs n
      → Linked c' p xs n
  unfolding disjoint
  Linked-frame c c' p n [] ys apart same h = h
  Linked-frame c c' p n ((a, v) ∷ xs) ys apart same h =
      (same a (ground arith) ∙ h.0, Linked-frame c c' (some a) n xs ys (ground arith) same h.1)

  -- What `set_prev` and `set_next` do at one node, and at the ends of a list.
  pub set_prev_at :
      (c : Cells A) (a : ℕ) (q : Option ℕ) (x : Cell A)
      → c a ≡ some x
      → set_prev c (some a) q ≡ ok (update c a (some (record x { prev = q })))
  unfolding set_prev read
  set_prev_at c a q x e = ap (λ o. set_prev_as o) e
    where
      set_prev_as : Option (Cell A) → Result (Cells A)
      set_prev_as o = elim o [ none ↦ err dangling | some y ↦ ok y ] >>= λ y.
          ok (update c a (some (record y { prev = q })))

  pub set_next_at :
      (c : Cells A) (a : ℕ) (q : Option ℕ) (x : Cell A)
      → c a ≡ some x
      → set_next c (some a) q ≡ ok (update c a (some (record x { next = q })))
  unfolding set_next read
  set_next_at c a q x e = ap (λ o. set_next_as o) e
    where
      set_next_as : Option (Cell A) → Result (Cells A)
      set_next_as o = elim o [ none ↦ err dangling | some y ↦ ok y ] >>= λ y.
          ok (update c a (some (record y { next = q })))

  pub update_elsewhere :
      (c : Cells A) (a b : ℕ) (x : Option (Cell A)) → (b == a) ≡ false → update c a x b ≡ c b
  update_elsewhere c a b x other = let turned : (a == b) ≡ false = ground arith in rw turned refl

  pub set_prev-Linked :
      (c : Cells A) (p q n : Option ℕ) (xs : List (ℕ × Option A))
      → distinct xs ≡ true
      → Linked c p xs n
      → (c' : Cells A) × (set_prev c (head_of none xs) q ≡ ok c')
        × Linked c' q xs n
        × ((b : ℕ) → absent b xs ≡ true → c' b ≡ c b)
  unfolding head_of distinct absent set_prev read
  set_prev-Linked c p q n [] one h = (c, refl, h, λ b out. refl)
  set_prev-Linked c p q n ((a, v) ∷ xs) one h = (
    update c a (some (record { prev = q; next = head_of n xs; value = v })),
    set_prev_at c a q (record { prev = p; next = head_of n xs; value = v }) h.0,
    (
      rw (==_refl a) refl,
      Linked-update c (some a) n xs a (some (record { prev = q; next = head_of n xs; value = v }))
          (ground arith) h.1,
    ),
    λ b out. update_elsewhere c a b _ (ground arith),
  )

  pub distinct_cons :
      (a : ℕ) (v : Option A) (xs : List (ℕ × Option A))
      → distinct ((a, v) ∷ xs) ≡ true
      → (absent a xs ≡ true) × (distinct xs ≡ true)
  unfolding distinct
  distinct_cons a v xs one = (ground arith, ground arith)

  pub absent_tail :
      (b a : ℕ) (v : Option A) (xs : List (ℕ × Option A))
      → absent b ((a, v) ∷ xs) ≡ true
      → absent b xs ≡ true
  unfolding absent
  absent_tail b a v xs out = ground arith

  pub set_next-Linked :
      (c : Cells A) (p q n : Option ℕ) (xs : List (ℕ × Option A))
      → distinct xs ≡ true
      → Linked c p xs n
      → (c' : Cells A) × (set_next c (last_of none xs) q ≡ ok c')
        × Linked c' p xs q
        × ((b : ℕ) → absent b xs ≡ true → c' b ≡ c b)
  unfolding head_of last_of distinct absent set_next read
  set_next-Linked c p q n [] one h = (c, refl, h, λ b out. refl)
  set_next-Linked c p q n ((a, v) ∷ []) one h = (
    update c a (some (record { prev = p; next = q; value = v })),
    set_next_at c a q (record { prev = p; next = n; value = v }) h.0,
    (rw (==_refl a) refl, tt),
    λ b out. update_elsewhere c a b _ (ground arith),
  )
  set_next-Linked c p q n ((a, v) ∷ (b, w) ∷ xs) one h =
      let (apart, others) = distinct_cons a v ((b, w) ∷ xs) one in
      let (c', run, linked, same) = set_next-Linked c (some a) q n ((b, w) ∷ xs) others h.1 in
      (c', run, (same a apart ∙ h.0, linked), λ x out. same x (absent_tail x a v ((b, w) ∷ xs) out))
