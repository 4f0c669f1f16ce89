-- ===== src/Std/Array.antt =====
-- src/packages/std/array/array.c: a growing array of pointers with a cursor behind its last
-- element. `NULL` is `none`. `destroy_fn` is left out: a purge clears the slots either way. Sizes are
-- `size_t`, modulo 2 ^ 64, and a pointer takes 8 bytes. A push grows a full array by its grow step.
-- That step is the size that the array was allocated with, since nothing calls `array_set_grow_step`,
-- which is left out, and a block of memory has less than 2 ^ 63 bytes, so that neither the sum of both
-- nor its size in bytes wraps. A write may be at any index, and the size that it asks for may wrap.
use inet_forth.Base.{
  Bool, List, Option, Result, check, dangling, err, get_or, if◌then◌else◌, leb, ltb, none, ok,
  replicate, set, undefined, ℕ, ◌%◌, ◌*◌, ◌++◌, ◌+◌, ◌-◌, ◌==◌, ◌>>◌, ◌^◌, ◌>>=◌,
}
pub mod Slots

-- The number of values of a `size_t`.
abbrev pub size_mod : ℕ
size_mod = 2 ^ 64

pub record Array {ℓ} (A : Type ℓ) : Type ℓ where
  pub size : ℕ
  pub grow_step : ℕ
  pub cursor : ℕ
  pub values : List (Option A)

module _ {ℓ} {A : Type ℓ} where
  unfoldable pub array_new : ℕ → Array A
  array_new size = record {
    size = size;
    grow_step = size;
    cursor = 0;
    values = replicate size none;
  }

  unfoldable pub array_purge : Array A → Array A
  array_purge a = record a { cursor = 0; values = replicate a.size none }

  unfoldable pub array_is_full : Array A → Bool
  array_is_full a = a.cursor == a.size

  -- The new slots are `NULL`, and the old ones keep their values.
  unfoldable pub with_slots : Array A → ℕ → Array A
  with_slots a larger_size = record a {
    size = larger_size;
    values = a.values ++ replicate (larger_size - a.size) none;
  }

  -- `reallocate_pointers` multiplies the size by 8: where that wraps, the block is smaller than the
  -- array, and what is done with its slots is undefined.
  unfoldable pub array_resize : Array A → ℕ → Result (Array A)
  unfolding with_slots
  array_resize a larger_size = do
    check (leb a.size larger_size)
    if larger_size == a.size
        then ok a
        else if leb size_mod (larger_size * 8)
        then err undefined
        else ok (with_slots a larger_size)

  -- `self->values[index] = value`, a fault outside of the allocated slots.
  store : Array A → ℕ → Option A → Result (Array A)
  store a index v =
      if ltb index a.size then ok (record a { values = set a.values index v }) else err dangling

  unfoldable pub array_top : Array A → Result (Option A)
  array_top a = check (ltb 0 a.cursor) >> ok (get_or a.values (a.cursor - 1) none)

  unfoldable pub array_pop : Array A → Result (Option A × Array A)
  array_pop a = do
    check (ltb 0 a.cursor)
    ok (
      get_or a.values (a.cursor - 1) none,
      record a { cursor = a.cursor - 1; values = set a.values (a.cursor - 1) none },
    )

  unfoldable pub array_push : Array A → Option A → Result (Array A)
  unfolding array_is_full with_slots store
  array_push a v = do
    let b = if array_is_full a then with_slots a (a.size + a.grow_step) else a
    c ← store b b.cursor v
    ok (record c { cursor = c.cursor + 1 })

  unfoldable pub array_get : Array A → ℕ → Option A
  array_get a index = if leb a.size index then none else get_or a.values index none

  unfoldable pub array_pick : Array A → ℕ → Result (Option A)
  unfolding array_get
  array_pick a back_index =
      check (ltb back_index a.cursor) >> ok (array_get a (a.cursor - 1 - back_index))

  unfoldable pub array_set : Array A → ℕ → Option A → Result (Array A)
  unfolding array_resize store
  array_set a index v = do
    b ← if leb a.size index then array_resize a ((index + a.grow_step) % size_mod) else ok a
    c ← store b index v
    ok (record c { cursor = if leb c.cursor index then (index + 1) % size_mod else c.cursor })
