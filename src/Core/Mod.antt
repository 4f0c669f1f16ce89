-- ===== src/Core/Mod.antt =====
-- src/core/mod.c: the names of a module and the definition of rules. The hash function and the
-- equality of names are parameters; the node constructors are those of the program.
use inet_forth.Std.Hash.{Hash, hash_get}
use inet_forth.Net.{Value, node_ctor, Rule, NodeCtor}
use inet_forth.Core.{Program}
use inet_forth.Base.{
  Bool, Option, Result, [], assertion, err, if◌then◌else◌, ok, some, update, ℕ, ◌++◌, ◌==◌, ◌∷◌,
  ◌>>=◌, ◌>>◌,
}
pub mod Rules

pub record Mod {ℓ} (K : Type ℓ) : Type ℓ where
  pub value_hash : Hash K Value

-- `assert(is_node_ctor(value)); as_node_ctor(value)`: `NULL` is no object.
unfoldable pub as_node_ctor : Option Value → Result ℕ
as_node_ctor (some (node_ctor c)) = ok c
as_node_ctor _ = err assertion

-- `array_push(node_ctor->rule_array, rule)`
unfoldable pub push_rule : Program → ℕ → Rule → Program
push_rule p c rule =
    let ctor : NodeCtor = p.ctors c in
    record p {
      ctors = update p.ctors c (record ctor { rule_array = ctor.rule_array ++ rule ∷ [] });
    }

-- A rule for a constructor and itself is kept once.
unfoldable pub add_rule : Program → (left right : ℕ) → Rule → Program
unfolding push_rule
add_rule p left right rule =
    if left == right then push_rule p left rule else push_rule (push_rule p left rule) right rule

module _ {ℓ} {K : Type ℓ} (hash_fn : K → ℕ) (key_equal_fn : K → K → Bool) where
  unfoldable pub mod_find : Mod K → K → Option Value
  unfolding hash_get
  mod_find m name = hash_get hash_fn key_equal_fn m.value_hash name

  unfoldable pub mod_define_rule :
      Mod K → Program → (first_name second_name : K) → (f : ℕ) → Result Program
  unfolding mod_find as_node_ctor add_rule
  mod_define_rule m p first_name second_name f = do
    left ← as_node_ctor (mod_find m first_name)
    right ← as_node_ctor (mod_find m second_name)
    ok (
        add_rule p left right
          (record { left_node_ctor = left; right_node_ctor = right; function = f }))
