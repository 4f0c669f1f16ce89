-- ===== src/Std/LinkedList.antt =====
-- src/packages/std/list/list.c: the doubly linked list with its cursor. Its nodes stand in a store of
-- the list's own, where `new` takes addresses from a counter and a freed address holds nothing. A
-- `void *` is an `Option`, where `none` is NULL. The comparison of values, by address or by `equal_fn`,
-- and `copy_fn` are parameters; `destroy_fn`, which is called on values, is left out.
use inet_forth.Std.Array.{Array, array_get}
use inet_forth.Base.{
  Bool, Option, Result, dangling, err, false, if◌then◌else◌, is_some, none, ok, out_of_fuel, some,
  suc, true, update, zero, ℕ, ◌+◌, ◌-◌, ◌==◌, ◌>>=◌, ◌>>◌,
}
pub mod Nodes
pub mod Shape
pub mod Unlink
pub mod Ends
pub mod Removal
pub mod Search
pub mod Walk
pub mod Copy
pub mod Tests

pub record Cell {ℓ} (A : Type ℓ) : Type ℓ where
  pub prev : Option ℕ
  pub next : Option ℕ
  pub value : Option A

abbrev pub Cells {ℓ} : Type ℓ → Type ℓ
Cells A = ℕ → Option (Cell A)

pub record LinkedList {ℓ} (A : Type ℓ) : Type ℓ where
  pub first : Option ℕ
  pub last : Option ℕ
  pub cursor : Option ℕ
  pub count : ℕ
  pub cells : Cells A
  pub next_address : ℕ

-- Equality of pointers.
unfoldable pub same_address : Option ℕ → Option ℕ → Bool
same_address none none = true
same_address none (some b) = false
same_address (some a) none = false
same_address (some a) (some b) = a == b

module _ {ℓ} {A : Type ℓ} where
  -- A read through a pointer.
  unfoldable pub read : Cells A → ℕ → Result (Cell A)
  read cells a = elim (cells a) [ none ↦ err dangling | some c ↦ ok c ]

  -- `if (pointer) pointer->prev = q`
  unfoldable pub set_prev : Cells A → (pointer q : Option ℕ) → Result (Cells A)
  unfolding read
  set_prev cells none q = ok cells
  set_prev cells (some a) q = do
    c ← read cells a
    ok (update cells a (some (record c { prev = q })))

  -- `if (pointer) pointer->next = q`
  unfoldable pub set_next : Cells A → (pointer q : Option ℕ) → Result (Cells A)
  unfolding read
  set_next cells none q = ok cells
  set_next cells (some a) q = do
    c ← read cells a
    ok (update cells a (some (record c { next = q })))

  unfoldable pub list_new : LinkedList A
  list_new = record {
    first = none;
    last = none;
    cursor = none;
    count = 0;
    cells = λ _. none;
    next_address = 0;
  }

  -- The loop of `list_purge`, which reads the next pointer and frees the node.
  unfoldable pub purge_loop : ℕ → Cells A → Option ℕ → Result (Cells A)
  unfolding read
  purge_loop f cells none = ok cells
  purge_loop zero cells (some a) = err out_of_fuel
  purge_loop (suc f) cells (some a) = do c ← read cells a; purge_loop f (update cells a none) c.next

  unfoldable pub list_purge : LinkedList A → Result (LinkedList A)
  unfolding purge_loop
  list_purge self = do
    cells ← purge_loop self.count self.cells self.first
    ok (record {
      first = none;
      last = none;
      cursor = none;
      count = 0;
      cells = cells;
      next_address = self.next_address;
    })

  unfoldable pub list_length : LinkedList A → ℕ
  list_length self = self.count

  unfoldable pub list_is_empty : LinkedList A → Bool
  list_is_empty self = self.count == 0

  -- The loop of `list_has`, `list_remove` and `list_find`: the first node whose value meets the test.
  unfoldable pub find_node :
      (Option A → Bool) → ℕ → Cells A → Option ℕ → Result (Option (ℕ × Cell A))
  unfolding read
  find_node test f cells none = ok none
  find_node test zero cells (some a) = err out_of_fuel
  find_node test (suc f) cells (some a) = do
    c ← read cells a
    elim (test c.value) [ true ↦ ok (some (a, c)) | false ↦ find_node test f cells c.next ]

  unfoldable pub list_has : (Option A → Bool) → LinkedList A → Result Bool
  unfolding find_node
  list_has test self = do
    found ← find_node test self.count self.cells self.first
    ok (is_some found)

  unfoldable pub list_remove : (Option A → Bool) → LinkedList A → Result (Bool × LinkedList A)
  unfolding find_node set_prev set_next same_address
  list_remove test self = do
    found ← find_node test self.count self.cells self.first
    elim found [
      | none ↦ ok (false, self)
      | some (a, node) ↦ (do
        cells₁ ← set_prev self.cells node.next node.prev
        cells₂ ← set_next cells₁ node.prev node.next
        ok (
          true,
          record {
            first = if same_address self.first (some a) then node.next else self.first;
            last = if same_address self.last (some a) then node.prev else self.last;
            cursor = if same_address self.cursor (some a) then none else self.cursor;
            count = self.count - 1;
            cells = update cells₂ a none;
            next_address = self.next_address;
          },
        ))
    ]

  unfoldable pub list_find : (Option A → Bool) → LinkedList A → Result (Option A × LinkedList A)
  unfolding find_node
  list_find test self = do
    found ← find_node test self.count self.cells self.first
    elim found [
      | none ↦ ok (none, record self { cursor = self.first })
      | some (a, node) ↦ ok (node.value, record self { cursor = some a })
    ]

  unfoldable pub list_cursor_is_end : LinkedList A → Bool
  unfolding same_address
  list_cursor_is_end self = same_address self.cursor self.last

  unfoldable pub list_current : LinkedList A → Result (Option A)
  unfolding read
  list_current self = elim self.cursor [
    | none ↦ ok none
    | some a ↦ (do c ← read self.cells a; ok c.value)
  ]

  -- The cursor is moved, and the value there is given.
  unfoldable pub move_cursor : LinkedList A → Option ℕ → Result (Option A × LinkedList A)
  unfolding list_current
  move_cursor self p = do
    value ← list_current (record self { cursor = p })
    ok (value, record self { cursor = p })

  unfoldable pub list_first : LinkedList A → Result (Option A × LinkedList A)
  unfolding move_cursor
  list_first self = move_cursor self self.first

  unfoldable pub list_next : LinkedList A → Result (Option A × LinkedList A)
  unfolding move_cursor read
  list_next self = elim self.cursor [
    | none ↦ move_cursor self self.first
    | some a ↦ (do c ← read self.cells a; move_cursor self c.next)
  ]

  unfoldable pub list_prev : LinkedList A → Result (Option A × LinkedList A)
  unfolding move_cursor read
  list_prev self = elim self.cursor [
    | none ↦ move_cursor self self.last
    | some a ↦ (do c ← read self.cells a; move_cursor self c.prev)
  ]

  unfoldable pub list_last : LinkedList A → Result (Option A × LinkedList A)
  unfolding move_cursor
  list_last self = move_cursor self self.last

  unfoldable pub list_push : LinkedList A → Option A → Result (LinkedList A)
  unfolding set_next
  list_push self value = do
    cells ← set_next self.cells self.last (some self.next_address)
    ok (record {
      first = if is_some self.last then self.first else some self.next_address;
      last = some self.next_address;
      cursor = self.cursor;
      count = self.count + 1;
      cells =
          update cells self.next_address
            (some (record { prev = self.last; next = none; value = value }));
      next_address = self.next_address + 1;
    })

  unfoldable pub list_unshift : LinkedList A → Option A → Result (LinkedList A)
  unfolding set_prev
  list_unshift self value = do
    cells ← set_prev self.cells self.first (some self.next_address)
    ok (record {
      first = some self.next_address;
      last = if is_some self.first then self.last else some self.next_address;
      cursor = self.cursor;
      count = self.count + 1;
      cells =
          update cells self.next_address
            (some (record { prev = none; next = self.first; value = value }));
      next_address = self.next_address + 1;
    })

  unfoldable pub list_pop : LinkedList A → Result (Option A × LinkedList A)
  unfolding read set_next same_address
  list_pop self =
      let cursor = if same_address self.cursor self.last then none else self.cursor in
      elim self.last [
        | none ↦ ok (none, record self { cursor = cursor })
        | some a ↦ (do
          node ← read self.cells a
          cells ← set_next self.cells node.prev none
          ok (
            node.value,
            record {
              first = if same_address self.first (some a) then none else self.first;
              last = node.prev;
              cursor = cursor;
              count = self.count - 1;
              cells = update cells a none;
              next_address = self.next_address;
            },
          ))
      ]

  unfoldable pub list_shift : LinkedList A → Result (Option A × LinkedList A)
  unfolding read set_prev same_address
  list_shift self =
      let cursor = if same_address self.cursor self.first then none else self.cursor in
      elim self.first [
        | none ↦ ok (none, record self { cursor = cursor })
        | some a ↦ (do
          node ← read self.cells a
          cells ← set_prev self.cells node.next none
          ok (
            node.value,
            record {
              first = node.next;
              last = if same_address self.last (some a) then none else self.last;
              cursor = cursor;
              count = self.count - 1;
              cells = update cells a none;
              next_address = self.next_address;
            },
          ))
      ]

  unfoldable pub get_loop : ℕ → Cells A → Option ℕ → (index : ℕ) → Result (Option A)
  unfolding read
  get_loop f cells none index = ok none
  get_loop zero cells (some a) index = err out_of_fuel
  get_loop (suc f) cells (some a) zero = do c ← read cells a; ok c.value
  get_loop (suc f) cells (some a) (suc index) = do c ← read cells a; get_loop f cells c.next index

  unfoldable pub list_get : LinkedList A → ℕ → Result (Option A)
  unfolding get_loop
  list_get self index = get_loop self.count self.cells self.first index

  -- The loop of `list_copy`, which stops at the first NULL.
  unfoldable pub copy_loop :
      (Option A → Option A)
      → ℕ
      → (self list : LinkedList A) → Option A
      → Result (LinkedList A × LinkedList A)
  unfolding list_push list_next
  copy_loop copy f self list none = ok (self, list)
  copy_loop copy zero self list (some v) = err out_of_fuel
  copy_loop copy (suc f) self list (some v) = do
    list' ← list_push list (copy (some v))
    (value, self') ← list_next self
    copy_loop copy f self' list' value

  -- The copy, and the list with its cursor moved.
  unfoldable pub list_copy :
      (Option A → Option A) → LinkedList A → Result (LinkedList A × LinkedList A)
  unfolding list_first copy_loop list_new
  list_copy copy self = do
    (value, self') ← list_first self
    copy_loop copy self.count self' list_new value

  unfoldable pub copy_reversed_loop :
      (Option A → Option A)
      → ℕ
      → (self list : LinkedList A) → Option A
      → Result (LinkedList A × LinkedList A)
  unfolding list_unshift list_next
  copy_reversed_loop copy f self list none = ok (self, list)
  copy_reversed_loop copy zero self list (some v) = err out_of_fuel
  copy_reversed_loop copy (suc f) self list (some v) = do
    list' ← list_unshift list (copy (some v))
    (value, self') ← list_next self
    copy_reversed_loop copy f self' list' value

  unfoldable pub list_copy_reversed :
      (Option A → Option A) → LinkedList A → Result (LinkedList A × LinkedList A)
  unfolding list_first copy_reversed_loop list_new
  list_copy_reversed copy self = do
    (value, self') ← list_first self
    copy_reversed_loop copy self.count self' list_new value

  -- The loop of `list_from_array`, with as many rounds left as indices.
  unfoldable pub push_rest : ℕ → Array A → (i : ℕ) → LinkedList A → Result (LinkedList A)
  unfolding array_get list_push
  push_rest zero array i list = ok list
  push_rest (suc n) array i list = do
    list' ← list_push list (array_get array i)
    push_rest n array (i + 1) list'

  unfoldable pub list_from_array : Array A → Result (LinkedList A)
  unfolding push_rest list_new
  list_from_array array = push_rest array.cursor array 0 list_new
