-- ===== src/Std/Deque.antt =====
-- src/packages/std/deque/deque.c: the deque, a linked list under a lock. Each operation takes the lock
-- at its start and gives it back at its end, so that it is one step; the lock is left out. A NULL
-- value and an empty deque give the same answer.
use inet_forth.Std.LinkedList.{
  LinkedList, list_new, list_length, list_is_empty, list_unshift, list_shift, list_push, list_pop,
  list_get,
}
use inet_forth.Base.{Bool, Option, Result, ok, ℕ, ◌>>=◌, ◌>>◌}
pub mod Refine

pub record Deque {ℓ} (A : Type ℓ) : Type ℓ where
  pub list : LinkedList A

module _ {ℓ} {A : Type ℓ} where
  unfoldable pub deque_new : Deque A
  deque_new = record { list = list_new }

  unfoldable pub deque_length : Deque A → ℕ
  unfolding list_length
  deque_length self = list_length self.list

  unfoldable pub deque_is_empty : Deque A → Bool
  unfolding list_is_empty
  deque_is_empty self = list_is_empty self.list

  unfoldable pub deque_push_front : Deque A → Option A → Result (Deque A)
  unfolding list_unshift
  deque_push_front self value = do list ← list_unshift self.list value; ok (record { list = list })

  unfoldable pub deque_pop_front : Deque A → Result (Option A × Deque A)
  unfolding list_shift
  deque_pop_front self = do (value, list) ← list_shift self.list; ok (value, record { list = list })

  unfoldable pub deque_push_back : Deque A → Option A → Result (Deque A)
  unfolding list_push
  deque_push_back self value = do list ← list_push self.list value; ok (record { list = list })

  unfoldable pub deque_pop_back : Deque A → Result (Option A × Deque A)
  unfolding list_pop
  deque_pop_back self = do (value, list) ← list_pop self.list; ok (value, record { list = list })

  unfoldable pub deque_get : Deque A → ℕ → Result (Option A)
  unfolding list_get
  deque_get self index = list_get self.list index
