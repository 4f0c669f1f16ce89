-- ===== src/Std/Stack.antt =====
-- src/packages/std/stack/stack.c: a stack over a growing array, and the list that it stands for,
-- top first. The modules of the engine work with that list.
use inet_forth.Std.Array.{Array, array_new, array_top, array_pop, array_push, array_get, array_pick}
use inet_forth.Base.{Bool, Option, Result, ok, ℕ, ◌==◌, ◌>>=◌, ◌>>◌}
pub mod Refine

-- `ARRAY_AUTO_SIZE` of src/packages/std/array/array.h
abbrev pub array_auto_size : ℕ
array_auto_size = 64

pub record Stack {ℓ} (A : Type ℓ) : Type ℓ where
  pub array : Array A

module _ {ℓ} {A : Type ℓ} where
  pub stack_new : Stack A
  unfolding array_new
  stack_new = record { array = array_new array_auto_size }

  pub stack_length : Stack A → ℕ
  stack_length s = s.array.cursor

  pub stack_is_empty : Stack A → Bool
  stack_is_empty s = s.array.cursor == 0

  pub stack_top : Stack A → Result (Option A)
  unfolding array_top
  stack_top s = array_top s.array

  pub stack_pop : Stack A → Result (Option A × Stack A)
  unfolding array_pop
  stack_pop s = do (v, a) ← array_pop s.array; ok (v, record { array = a })

  pub stack_push : Stack A → Option A → Result (Stack A)
  unfolding array_push
  stack_push s v = do a ← array_push s.array v; ok (record { array = a })

  pub stack_get : Stack A → ℕ → Option A
  unfolding array_get
  stack_get s index = array_get s.array index

  pub stack_pick : Stack A → ℕ → Result (Option A)
  unfolding array_pick
  stack_pick s index = array_pick s.array index
