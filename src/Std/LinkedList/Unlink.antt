-- ===== src/Std/LinkedList/Unlink.antt =====
-- A node taken out of the middle of a linked list, as `list_remove`, `list_pop` and `list_shift` do.
use inet_forth.Std.LinkedList.{Cells, set_prev, set_next}
use inet_forth.Std.LinkedList.Nodes.{
  head_of, last_of, absent, distinct, disjoint, Linked, Linked-append, Linked-split, Linked-update,
  absent-append, distinct-append, disjoint_cons, disjoint_comm, Linked-frame, set_prev-Linked,
  set_next-Linked, update_elsewhere,
}
use inet_forth.Base.{
  List, Option, arith, none, ok, some, sym, true, update, ℕ, ◌&&◌, ◌++◌, ◌∙◌, ◌∷◌, ◌≡◌,
}

module _ {ℓ} {A : Type ℓ} where
  -- How the addresses around a node differ.
  pub record Apart (ys : List (ℕ × Option A)) (a : ℕ) (zs : List (ℕ × Option A)) : Type ℓ where
    pub distinct_before : distinct ys ≡ true
    pub distinct_behind : distinct zs ≡ true
    pub absent_before : absent a ys ≡ true
    pub absent_behind : absent a zs ≡ true
    pub apart : disjoint ys zs ≡ true

  pub Apart-distinct :
      (ys : List (ℕ × Option A)) (a : ℕ) (v : Option A) (zs : List (ℕ × Option A))
      → distinct (ys ++ (a, v) ∷ zs) ≡ true
      → Apart ys a zs
  unfolding distinct
  Apart-distinct ys a v zs one =
      let parts : (distinct ys && distinct ((a, v) ∷ zs)) && disjoint ys ((a, v) ∷ zs) ≡ true =
        sym (distinct-append ys ((a, v) ∷ zs)) ∙ one in
      let across = disjoint_cons ys zs a v in
      record {
        distinct_before = ground (arith, parts);
        distinct_behind = ground (arith, parts);
        absent_before = ground (arith, parts, across);
        absent_behind = ground (arith, parts);
        apart = ground (arith, parts, across);
      }

  pub distinct_without :
      (ys : List (ℕ × Option A)) (a : ℕ) (zs : List (ℕ × Option A))
      → Apart ys a zs
      → distinct (ys ++ zs) ≡ true
  distinct_without ys a zs h =
      distinct-append ys zs ∙ ground (arith, h.distinct_before, h.distinct_behind, h.apart)

  -- The three changes of the store that take out the node at `a`.
  pub record Unlinked (c : Cells A) (ys : List (ℕ × Option A)) (a : ℕ) (v : Option A)
      (zs : List (ℕ × Option A)) : Type ℓ where
    pub here : c a ≡ some (record { prev = last_of none ys; next = head_of none zs; value = v })
    pub c₁ : Cells A
    pub c₂ : Cells A
    pub first_change : set_prev c (head_of none zs) (last_of none ys) ≡ ok c₁
    pub second_change : set_next c₁ (last_of none ys) (head_of none zs) ≡ ok c₂
    pub linked : Linked (update c₂ a none) none (ys ++ zs) none
    pub elsewhere : (b : ℕ) → absent b (ys ++ (a, v) ∷ zs) ≡ true → update c₂ a none b ≡ c b

  pub unlink :
      (c : Cells A) (ys : List (ℕ × Option A)) (a : ℕ) (v : Option A) (zs : List (ℕ × Option A))
      → Linked c none (ys ++ (a, v) ∷ zs) none
      → Apart ys a zs
      → Unlinked c ys a v zs
  unfolding head_of last_of absent
  unlink c ys a v zs h one =
      let (before, (here, behind)) = Linked-split c none none ys ((a, v) ∷ zs) h in
      let (c₁, run₁, behind₁, same₁) =
        set_prev-Linked c (some a) (last_of none ys) none zs one.distinct_behind behind in
      let before₁ = Linked-frame c c₁ none (some a) ys zs one.apart same₁ before in
      let (c₂, run₂, before₂, same₂) =
        set_next-Linked c₁ none (head_of none zs) (some a) ys one.distinct_before before₁ in
      let behind₂ =
        Linked-frame c₁ c₂ (last_of none ys) none zs ys (disjoint_comm zs ys ∙ one.apart) same₂
          behind₁ in
      record {
        here = here;
        c₁ = c₁;
        c₂ = c₂;
        first_change = run₁;
        second_change = run₂;
        linked =
            Linked-append (update c₂ a none) none none ys zs
              (Linked-update c₂ none (head_of none zs) ys a none one.absent_before before₂)
              (Linked-update c₂ (last_of none ys) none zs a none one.absent_behind behind₂);
        elsewhere = λ b out.
            let parts : (absent b ys && absent b ((a, v) ∷ zs)) ≡ true =
              sym (absent-append b ys ((a, v) ∷ zs)) ∙ out in
            update_elsewhere c₂ a b none (ground (arith, parts))
            ∙ same₂ b (ground (arith, parts))
            ∙ same₁ b (ground (arith, parts));
      }
