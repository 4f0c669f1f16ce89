-- ===== src/Std/Queue.antt =====
-- src/packages/std/queue/queue.c: a bounded queue for one producer and one consumer. A cursor is a
-- `size_t`: it counts up for ever and wraps at 2 ^ 64, and its slot is `cursor & mask`. Each side
-- keeps a stale copy of the other side's cursor. `NULL` is `none`. `destroy_fn` is left out.
-- The power-of-two test is the library's `&`, so `size = 2 ^ bits` is given by its exponent.
use inet_forth.Base.{
  Bool, Option, Result, check, false, if◌then◌else◌, ltb, none, ok, true, update, ℕ, ◌%◌, ◌+◌, ◌-◌,
  ◌==◌, ◌^◌, ◌>>=◌, ◌>>◌,
}
pub mod Fifo

abbrev pub cursor_mod : ℕ
cursor_mod = 2 ^ 64

pub record Queue {ℓ} (A : Type ℓ) : Type ℓ where
  pub size : ℕ
  pub values : ℕ → Option A
  pub front_cursor : ℕ
  pub back_cursor : ℕ
  pub cached_front_cursor : ℕ
  pub cached_back_cursor : ℕ

-- `back_cursor - front_cursor` on `size_t`
unfoldable pub distance : (front_cursor back_cursor : ℕ) → ℕ
distance f b = (b + cursor_mod - f) % cursor_mod

unfoldable pub is_empty : (front_cursor back_cursor : ℕ) → Bool
is_empty f b = b == f

module _ {ℓ} {A : Type ℓ} where
  -- `assert(size > 1)` and the test for a power of two hold for a positive exponent.
  unfoldable pub queue_new : (bits : ℕ) → Result (Queue A)
  queue_new bits = do
    check (ltb 1 (2 ^ bits))
    ok (record {
      size = 2 ^ bits;
      values = λ _. none;
      front_cursor = 0;
      back_cursor = 0;
      cached_front_cursor = 0;
      cached_back_cursor = 0;
    })

  unfoldable pub queue_length : Queue A → ℕ
  unfolding distance
  queue_length q = distance q.front_cursor q.back_cursor

  -- `cursor & mask` is the remainder by a power of two.
  unfoldable pub get_value : Queue A → ℕ → Option A
  get_value q cursor = q.values (cursor % q.size)

  unfoldable pub set_value : Queue A → ℕ → Option A → Queue A
  set_value q cursor v = record q { values = update q.values (cursor % q.size) v }

  unfoldable pub is_full : Queue A → (front_cursor back_cursor : ℕ) → Bool
  unfolding distance
  is_full q f b = distance f b == q.size

  unfoldable pub queue_is_full : Queue A → Bool
  unfolding is_full
  queue_is_full q = is_full q q.front_cursor q.back_cursor

  unfoldable pub queue_is_empty : Queue A → Bool
  unfolding is_empty
  queue_is_empty q = is_empty q.front_cursor q.back_cursor

  -- `set_value`, then the store of the new back cursor.
  unfoldable pub enqueue : Queue A → Option A → Queue A
  unfolding set_value
  enqueue q v = record (set_value q q.back_cursor v) {
    back_cursor = (q.back_cursor + 1) % cursor_mod;
  }

  unfoldable pub queue_push_back : Queue A → Option A → Bool × Queue A
  unfolding is_full enqueue
  queue_push_back q v =
      let r = record q { cached_front_cursor = q.front_cursor } in
      if is_full q q.cached_front_cursor q.back_cursor
      then if is_full r r.cached_front_cursor r.back_cursor then (false, r) else (true, enqueue r v)
      else (true, enqueue q v)

  unfoldable pub dequeue : Queue A → Option A × Queue A
  unfolding get_value
  dequeue q =
      (get_value q q.front_cursor, record q { front_cursor = (q.front_cursor + 1) % cursor_mod })

  unfoldable pub queue_pop_front : Queue A → Option A × Queue A
  unfolding is_empty dequeue
  queue_pop_front q =
      let r = record q { cached_back_cursor = q.back_cursor } in
      if is_empty q.front_cursor q.cached_back_cursor
      then if is_empty r.front_cursor r.cached_back_cursor then (none, r) else dequeue r
      else dequeue q

  -- The index is not compared with the length.
  unfoldable pub queue_get : Queue A → ℕ → Option A × Queue A
  unfolding is_empty get_value
  queue_get q index =
      let r = record q { cached_back_cursor = q.back_cursor } in
      if is_empty q.front_cursor q.cached_back_cursor
      then if is_empty r.front_cursor r.cached_back_cursor
        then (none, r)
        else (get_value r ((r.front_cursor + index) % cursor_mod), r)
      else (get_value q ((q.front_cursor + index) % cursor_mod), q)
