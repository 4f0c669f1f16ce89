-- ===== src/Std/LinkedList/Tests.antt =====
-- The linked list and the deque at concrete contents.
use inet_forth.Std.LinkedList.{
  Cells, LinkedList, same_address, list_remove, list_has, list_find, list_copy, list_purge,
}
use inet_forth.Std.LinkedList.Nodes.{head_of, last_of, absent, distinct, on_list}
use inet_forth.Std.LinkedList.Shape.{IsList}
use inet_forth.Std.LinkedList.Search.{
  none_meets, FirstMeeting, list_remove-IsList, list_find-IsList,
}
use inet_forth.Std.LinkedList.Walk.{values, list_purge-IsList}
use inet_forth.Std.LinkedList.Copy.{until_null, first_null, list_copy-IsList}
use inet_forth.Std.Deque.{deque_new}
use inet_forth.Std.Deque.Refine.{
  Op, push_front, push_back, pop_back, length_of, perform_all, answer_all, perform_all_lem,
}
use inet_forth.Base.{
  Bool, List, Option, [], arith, false, if◌then◌else◌, map, none, ok, refl, some, suc, true, zero,
  ℕ, ◌*◌, ◌++◌, ◌∷◌, ◌≡◌, ◌⊎◌,
}

-- 7, then NULL, with the cursor on the NULL.
abbrev two_cells : Cells ℕ
two_cells zero = some (record { prev = none; next = some 1; value = some 7 })
two_cells (suc zero) = some (record { prev = some 0; next = none; value = none })
two_cells (suc (suc b)) = none

abbrev two_list : LinkedList ℕ
two_list = record {
  first = some 0;
  last = some 1;
  cursor = some 1;
  count = 2;
  cells = two_cells;
  next_address = 2;
}

abbrev two_nodes : List (ℕ × Option ℕ)
two_nodes = (0, some 7) ∷ (1, none) ∷ []

two_list-IsList : IsList two_list two_nodes
unfolding head_of last_of absent distinct on_list
two_list-IsList = record {
  linked = (refl, (refl, tt));
  one = refl;
  starts = refl;
  ends = refl;
  counted = refl;
  held = refl;
  owned = only_two;
  fresh = λ b le. ground arith;
}
  where
    only_two : (b : ℕ) → absent b two_nodes ≡ true → two_cells b ≡ none
    only_two zero out = cc
    only_two (suc zero) out = cc
    only_two (suc (suc b)) out = refl

abbrev is_null : Option ℕ → Bool
is_null none = true
is_null (some v) = false

list_remove-IsList_example :
    ((none_meets is_null two_nodes ≡ true) × (list_remove is_null two_list ≡ ok (false, two_list)))
    ⊎ ((m : FirstMeeting is_null two_nodes) × (after : LinkedList ℕ) × (list_remove is_null two_list
          ≡ ok (true, after))
        × IsList after (m.before ++ m.behind)
        × (after.cursor ≡ (if same_address (some 1) (some m.address) then none else some 1)))
list_remove-IsList_example = list_remove-IsList is_null two_list two_nodes two_list-IsList

list_find-IsList_example :
    ((none_meets is_null two_nodes ≡ true)
      × (list_has is_null two_list ≡ ok false)
      × (list_find is_null two_list
          ≡ ok (none, record two_list { cursor = head_of none two_nodes }))
      × IsList (record two_list { cursor = head_of none two_nodes }) two_nodes)
    ⊎ ((m : FirstMeeting is_null two_nodes) × (list_has is_null two_list ≡ ok true)
        × (list_find is_null two_list ≡ ok (m.value, record two_list { cursor = some m.address }))
        × IsList (record two_list { cursor = some m.address }) two_nodes)
list_find-IsList_example = list_find-IsList is_null two_list two_nodes two_list-IsList

list_purge-IsList_example :
    (after : LinkedList ℕ) × (list_purge two_list ≡ ok after)
    × IsList after []
    × ((b : ℕ) → after.cells b ≡ none)
list_purge-IsList_example = list_purge-IsList two_list two_nodes two_list-IsList

abbrev twice : Option ℕ → Option ℕ
twice none = none
twice (some v) = some (2 * v)

list_copy-IsList_example :
    (list : LinkedList ℕ) × (ns : List (ℕ × Option ℕ)) × (list_copy twice two_list
      ≡ ok (record two_list { cursor = first_null two_nodes }, list))
    × IsList list ns
    × (values ns ≡ map twice (until_null two_nodes))
list_copy-IsList_example = list_copy-IsList twice two_list two_nodes two_list-IsList

abbrev some_ops : List (Op ℕ)
some_ops =
    push_back (some 1) ∷ push_front (some 2) ∷ length_of ∷ pop_back ∷ pop_back ∷ pop_back ∷ []

perform_all_lem_example : perform_all deque_new some_ops ≡ ok (answer_all [] some_ops)
perform_all_lem_example = perform_all_lem some_ops
