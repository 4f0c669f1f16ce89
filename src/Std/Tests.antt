-- ===== src/Std/Tests.antt =====
-- The theorems on the containers at concrete arrays, stacks and queues.
use inet_forth.Std.Array.{Array, array_set}
use inet_forth.Std.Array.Slots.{slot, IsArray, Written, array_set_lem}
use inet_forth.Std.Stack.{Stack, stack_new, stack_push, stack_pop}
use inet_forth.Std.Stack.Refine.{
  Holds, contents, stack_new-Holds, stack_push-Holds, stack_pop-Holds,
}
use inet_forth.Std.Hash.{
  Entry, Hash, hash_new, hash_set, hash_rehash, hash_get, hash_get_entry, find_entry,
  hash_key_index, limit, prime_at,
}
use inet_forth.Std.Hash.Delete.{decrement, hash_delete, hash_delete_lem}
use inet_forth.Std.Hash.Matching.{IsHash, matching}
use inet_forth.Std.Hash.Rehash.{hash_rehash_lem}
use inet_forth.Std.Hash.Map.{Inserted, hash_new-IsHash, hash_set_lem}
use inet_forth.Std.Queue.{Queue, queue_push_back, queue_pop_front}
use inet_forth.Std.Queue.Fifo
use inet_forth.Std.Queue.Fifo.{IsQueue, uncons, queue_push_back_lem, queue_pop_front_lem}
use inet_forth.Base.{
  ==_iff, Bool, Bool-cases, Option, [], ap, arith, assertion, err, false, if◌then◌else◌, inl, inr,
  length, ltb, none, ok, refl, some, suc, sym, true, undefined, zero, ℕ, ◌%◌, ◌++◌, ◌-◌, ◌==◌, ◌^◌,
  ◌↔◌, ◌∷◌, ◌≡◌, ◌≢◌, ◌≤◌, ◌⊎◌,
}

-- A full array of one slot that holds 7.
abbrev one_seven : Array ℕ
one_seven = record { size = 1; grow_step = 1; cursor = 1; values = some 7 ∷ [] }

clear_above : (i : ℕ) → 1 ≤ i → slot one_seven i ≡ none
clear_above zero le = absurd (omega arith)
clear_above (suc i) le = refl

one_seven-IsArray : IsArray one_seven
one_seven-IsArray = record {
  sized = refl;
  within = omega arith;
  grows = omega arith;
  clear = clear_above;
}

array_set_lem_example :
    (b : Array ℕ) × (array_set one_seven 4 (some 9) ≡ ok b)
    × Written one_seven one_seven-IsArray 4 (some 9) b
array_set_lem_example = array_set_lem one_seven one_seven-IsArray 4 (some 9) (omega arith)

-- The sum wraps to 0 and fails the assertion; the bytes of 2 ^ 61 + 1 slots wrap to those of one slot.
sum_wraps : array_set one_seven (2 ^ 64 - 1) (some 9) ≡ err assertion
unfolding array_set
sum_wraps = refl

bytes_wrap : array_set one_seven (2 ^ 61) (some 9) ≡ err undefined
unfolding array_set
bytes_wrap = refl

stack_push-Holds_example :
    (t : Stack ℕ) × (stack_push stack_new (some 7) ≡ ok t) × Holds t (some 7 ∷ [])
stack_push-Holds_example = stack_push-Holds stack_new [] (some 7) stack_new-Holds

abbrev seven_stack : Stack ℕ
seven_stack = record { array = one_seven }

seven_stack-Holds : Holds seven_stack (some 7 ∷ [])
unfolding contents
seven_stack-Holds = record { sound = one_seven-IsArray; content = refl }

stack_pop-Holds_example : (t : Stack ℕ) × (stack_pop seven_stack ≡ ok (some 7, t)) × Holds t []
stack_pop-Holds_example = stack_pop-Holds seven_stack [] (some 7) seven_stack-Holds

-- A queue of two slots that holds 5, and whose producer has not seen a pop.
abbrev small_queue : Queue ℕ
small_queue = record {
  size = 2;
  values = λ i. if i == 1 then some 5 else some 4;
  front_cursor = 1;
  back_cursor = 2;
  cached_front_cursor = 0;
  cached_back_cursor = 1;
}

small_queue-IsQueue : IsQueue small_queue
small_queue-IsQueue = record {
  room = omega arith;
  seen_front = omega arith;
  seen_back = omega arith;
  filled = omega arith;
  bounded = omega arith;
  sized = omega arith;
}

queue_push_back_lem_example :
    IsQueue (queue_push_back small_queue (some 6)).1
    × ((queue_push_back small_queue (some 6)).0 ≡ ltb (length (Fifo.contents small_queue)) 2)
    × (Fifo.contents (queue_push_back small_queue (some 6)).1 ≡ (
        if ltb (length (Fifo.contents small_queue)) 2
        then Fifo.contents small_queue ++ some 6 ∷ []
        else Fifo.contents small_queue))
queue_push_back_lem_example =
    queue_push_back_lem small_queue (some 6) small_queue-IsQueue (omega arith)

queue_pop_front_lem_example :
    IsQueue (queue_pop_front small_queue).1
    × (((queue_pop_front small_queue).0, Fifo.contents (queue_pop_front small_queue).1)
        ≡ uncons (Fifo.contents small_queue))
queue_pop_front_lem_example = queue_pop_front_lem small_queue small_queue-IsQueue

-- A table of numbers, with the numbers as their own hash values.
abbrev same_hash : ℕ → ℕ
same_hash k = k

keys_lawful : (a b : ℕ) → ((a == b) ≡ true) ↔ (a ≡ b)
keys_lawful a b = ==_iff a b

abbrev empty_table : Hash ℕ ℕ
empty_table = hash_new same_hash ◌==◌

hash_set_lem_example :
    (fresh : Bool) × (g : Hash ℕ ℕ) × (hash_set same_hash ◌==◌ empty_table 20 5 ≡ ok (fresh, g))
    × Inserted same_hash ◌==◌ keys_lawful empty_table 20 5 (fresh, g)
unfolding hash_new
hash_set_lem_example =
    hash_set_lem same_hash ◌==◌ keys_lawful empty_table 20 5
      (hash_new-IsHash same_hash ◌==◌ keys_lawful) (omega arith)

hash_rehash_lem_example :
    (g : Hash ℕ ℕ) × (hash_rehash same_hash ◌==◌ empty_table 1 ≡ ok g)
    × IsHash same_hash ◌==◌ keys_lawful g
    × ((k : ℕ) → hash_get same_hash ◌==◌ g k ≡ hash_get same_hash ◌==◌ empty_table k)
hash_rehash_lem_example =
    hash_rehash_lem same_hash ◌==◌ keys_lawful empty_table 1
      (hash_new-IsHash same_hash ◌==◌ keys_lawful) (omega arith)

-- A table that holds 5 under 20, in the bucket 20 % 13.
abbrev twenty : Entry ℕ ℕ
twenty = record { index = 7; key = 20; value = 5 }

abbrev one_table : Hash ℕ ℕ
one_table = record {
  prime_index = 0;
  used_indexes_size = 1;
  length = 1;
  entries = λ i. if i == 7 then twenty ∷ [] else [];
}

one_table-IsHash : IsHash same_hash ◌==◌ keys_lawful one_table
unfolding matching prime_at
one_table-IsHash = record { placed = only_seven; unique = λ k. ground arith; listed = omega arith }
  where
    only_seven :
        (i k : ℕ) → k % 13 ≢ i → matching same_hash ◌==◌ keys_lawful k (one_table.entries i) ≡ []
    only_seven i k ne = elim (Bool-cases (i == 7)) [
      | inl here ↦ elim (Bool-cases (20 == k)) [
        | inl same ↦ absurd (ne (ground arith))
        | inr other ↦ rw here (rw other refl)
      ]
      | inr there ↦ rw there refl
    ]

hash_delete_lem_example :
    ((hash_get same_hash ◌==◌ one_table 20 ≡ none)
      × (hash_delete same_hash ◌==◌ one_table 20 ≡ ok (false, one_table)))
    ⊎ ((g : Hash ℕ ℕ) × (hash_delete same_hash ◌==◌ one_table 20 ≡ ok (true, g))
        × IsHash same_hash ◌==◌ keys_lawful g
        × (g.length ≡ decrement 1)
        × ((k : ℕ)
            → hash_get same_hash ◌==◌ g k
              ≡ (if 20 == k then none else hash_get same_hash ◌==◌ one_table k)))
unfolding hash_get_entry find_entry hash_key_index limit prime_at
hash_delete_lem_example =
    hash_delete_lem same_hash ◌==◌ keys_lawful one_table 20 one_table-IsHash
      λ e found. ap (index_or_seven) (sym found)
  where
    index_or_seven : Option (Entry ℕ ℕ) → ℕ
    index_or_seven none = 7
    index_or_seven (some e) = e.index
