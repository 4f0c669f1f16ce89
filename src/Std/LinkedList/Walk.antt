-- ===== src/Std/LinkedList/Walk.antt =====
-- src/packages/std/list/list.c: the walks over a list, by its cursor, by an index, and to free it.
use inet_forth.Std.LinkedList.{
  Cells, LinkedList, read, list_new, list_current, move_cursor, list_first, list_next, get_loop,
  list_get, purge_loop, list_purge,
}
use inet_forth.Std.LinkedList.Nodes.{
  head_of, last_of, absent, distinct, on_list, Linked, Linked-split, distinct_cons,
  update_elsewhere, Linked-update,
}
use inet_forth.Std.LinkedList.Shape.{IsList}
use inet_forth.Std.LinkedList.Ends.{read_at}
use inet_forth.Base.{
  Bool-cases, List, Option, Result, [], ap, arith, inl, inr, length, none, ok, refl, some, subst,
  suc, sym, true, update, zero, ℕ, ◌++◌, ◌==◌, ◌>>=◌, ◌∙◌, ◌∷◌, ◌≡◌, ◌≤◌,
}

abbrev pub values {ℓ} : {A : Type ℓ} → List (ℕ × Option A) → List (Option A)
values [] = []
values ((a, v) ∷ xs) = v ∷ values xs

-- The first value, or NULL.
abbrev pub head_value {ℓ} : {A : Type ℓ} → List (ℕ × Option A) → Option A
head_value [] = none
head_value ((a, v) ∷ xs) = v

module _ {ℓ} {A : Type ℓ} where
  pub values-snoc :
      (xs : List (ℕ × Option A)) (a : ℕ) (v : Option A)
      → values (xs ++ (a, v) ∷ []) ≡ values xs ++ v ∷ []
  values-snoc [] a v = refl
  values-snoc ((b, w) ∷ xs) a v = ap (λ vs. w ∷ vs) (values-snoc xs a v)

  pub list_new-IsList : IsList {A = A} list_new []
  unfolding list_new head_of last_of absent distinct on_list
  list_new-IsList = record {
    linked = tt;
    one = refl;
    starts = refl;
    ends = refl;
    counted = refl;
    held = refl;
    owned = λ b out. refl;
    fresh = λ b le. refl;
  }

  -- The cursor is put on the first of the nodes `zs` that stand somewhere in the list.
  move_cursor_lem :
      (self : LinkedList A) (p : Option ℕ) (zs : List (ℕ × Option A))
      → Linked self.cells p zs none
      → move_cursor self (head_of none zs)
        ≡ ok (head_value zs, record self { cursor = head_of none zs })
  unfolding move_cursor list_current head_of read
  move_cursor_lem self p [] h = refl
  move_cursor_lem self p ((a, v) ∷ zs) h =
      rw (read_at self.cells a (record { prev = p; next = head_of none zs; value = v }) h.0) refl

  pub list_first_lem :
      (self : LinkedList A) (xs : List (ℕ × Option A))
      → IsList self xs
      → list_first self ≡ ok (head_value xs, record self { cursor = head_of none xs })
  unfolding list_first
  list_first_lem self xs h = ap (move_cursor self) h.starts ∙ move_cursor_lem self none xs h.linked

  pub list_next_lem :
      (self : LinkedList A) (ys : List (ℕ × Option A)) (a : ℕ) (v : Option A)
      (zs : List (ℕ × Option A))
      → IsList self (ys ++ (a, v) ∷ zs)
      → list_next (record self { cursor = some a })
        ≡ ok (head_value zs, record self { cursor = head_of none zs })
  unfolding list_next
  list_next_lem self ys a v zs h =
      let (_, (here, behind)) = Linked-split self.cells none none ys ((a, v) ∷ zs) h.linked in
      rw
        (read_at self.cells a (record { prev = last_of none ys; next = head_of none zs; value = v })
          here)
        (move_cursor_lem (record self { cursor = some a }) (some a) zs behind)

  -- The value at an index, or NULL.
  abbrev pub value_at : List (ℕ × Option A) → ℕ → Option A
  value_at [] i = none
  value_at ((a, v) ∷ xs) zero = v
  value_at ((a, v) ∷ xs) (suc i) = value_at xs i

  get_loop_lem :
      (f : ℕ) (cells : Cells A) (p : Option ℕ) (xs : List (ℕ × Option A)) (i : ℕ)
      → Linked cells p xs none
      → length xs ≤ f
      → get_loop f cells (head_of none xs) i ≡ ok (value_at xs i)
  unfolding get_loop head_of
  get_loop_lem f cells p [] i h le = refl
  get_loop_lem zero cells p ((a, v) ∷ xs) i h le = absurd (omega arith)
  get_loop_lem (suc f) cells p ((a, v) ∷ xs) zero h le =
      rw (read_at cells a (record { prev = p; next = head_of none xs; value = v }) h.0) refl
  get_loop_lem (suc f) cells p ((a, v) ∷ xs) (suc i) h le =
      rw (read_at cells a (record { prev = p; next = head_of none xs; value = v }) h.0)
        (get_loop_lem f cells (some a) xs i h.1 (omega arith))

  pub list_get_lem :
      (self : LinkedList A) (xs : List (ℕ × Option A)) (i : ℕ)
      → IsList self xs
      → list_get self i ≡ ok (value_at xs i)
  unfolding list_get
  list_get_lem self xs i h =
      rw (h.starts, list_get)
        (get_loop_lem self.count self.cells none xs i h.linked (omega (arith, h.counted)))

  purge_loop_lem :
      (f : ℕ) (cells : Cells A) (p : Option ℕ) (xs : List (ℕ × Option A))
      → Linked cells p xs none
      → distinct xs ≡ true
      → length xs ≤ f
      → ((b : ℕ) → absent b xs ≡ true → cells b ≡ none)
      → (c : Cells A) × (purge_loop f cells (head_of none xs) ≡ ok c) × ((b : ℕ) → c b ≡ none)
  unfolding purge_loop head_of absent
  purge_loop_lem f cells p [] h one le owned = (cells, refl, λ b. owned b refl)
  purge_loop_lem zero cells p ((a, v) ∷ xs) h one le owned = absurd (omega arith)
  purge_loop_lem (suc f) cells p ((a, v) ∷ xs) h one le owned =
      let (apart, others) = distinct_cons a v xs one in
      let (c, run, freed) =
        purge_loop_lem f (update cells a none) (some a) xs
          (Linked-update cells (some a) none xs a none apart h.1) others (omega arith) freed_here in
      (
        c,
        rw (read_at cells a (record { prev = p; next = head_of none xs; value = v }) h.0) run,
        freed,
      )
    where
      freed_here : (b : ℕ) → absent b xs ≡ true → update cells a none b ≡ none
      freed_here b out = elim (Bool-cases (b == a)) [
        | inl e ↦ let turned : (a == b) ≡ true = ground arith in rw turned refl
        | inr e ↦ update_elsewhere cells a b none e ∙ owned b (ground arith)
      ]

  -- `list_purge` frees every node of the list, each once, and leaves a list of no nodes: no store is lost.
  pub list_purge-IsList :
      (self : LinkedList A) (xs : List (ℕ × Option A))
      → IsList self xs
      → (after : LinkedList A) × (list_purge self ≡ ok after)
        × IsList after []
        × ((b : ℕ) → after.cells b ≡ none)
  unfolding list_purge absent head_of last_of distinct on_list
  list_purge-IsList self xs h =
      let (c, run, freed) =
        purge_loop_lem self.count self.cells none xs h.linked h.one (omega (arith, h.counted))
          h.owned in
      (
        emptied_list c,
        subst (λ p. purge_loop self.count self.cells p >>= emptied ≡ ok (emptied_list c))
            (sym h.starts) (rw run refl),
        record {
          linked = tt;
          one = refl;
          starts = refl;
          ends = refl;
          counted = refl;
          held = refl;
          owned = λ b out. freed b;
          fresh = λ b le. refl;
        },
        freed,
      )
    where
      emptied_list : Cells A → LinkedList A
      emptied_list c = record {
        first = none;
        last = none;
        cursor = none;
        count = 0;
        cells = c;
        next_address = self.next_address;
      }

      emptied : Cells A → Result (LinkedList A)
      emptied c = ok (emptied_list c)
