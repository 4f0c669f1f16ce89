-- ===== src/Lang.antt =====
-- src/lang/compile_one.c, compile_function.c and the parts of src/core/function.c that they use: the
-- compiler of tokens to opcodes. A worker's token list is the list of its tokens, and what is taken
-- off its front is gone; `list_first` of an empty list is NULL, and to read a token there is a fault.
-- A function under construction is a `Draft`. `strtod` and its test are parameters, and a double is the
-- pattern of its bits. The `input_arity` of a primitive, which only the compiler reads, is a table.
use inet_forth.Std.CString.{
  Bytes, string_equal, string_bernstein_hash, string_is_xint, string_parse_xint,
}
use inet_forth.Std.Lexer.{TokenKind, int_token, float_token, Token}
use inet_forth.Std.Hash
use inet_forth.Std.Hash.{Hash, hash_new, hash_has, hash_get, hash_set}
use inet_forth.Value.{xint, xfloat}
use inet_forth.Net.{Value, word, node_ctor, function, primitive, wire, principal_wire}
use inet_forth.Core.{Opcode, apply, literal, get_variable, set_variable, Program}
use inet_forth.Core.Mod.{Mod, mod_find}
use inet_forth.Base.{
  Bool, List, Option, Result, [], assertion, dangling, err, exit_failure, false, if◌then◌else◌,
  length, none, ok, out_of_fuel, some, suc, true, zero, ℕ, ◌&&◌, ◌++◌, ◌+◌, ◌>>=◌, ◌∷◌, ◌>>◌,
}
pub mod Locals
pub mod Reading
pub mod Binding
pub mod Parentheses
pub mod Steps
pub mod Meaning
pub mod Tests

-- `function_t`
pub record Draft : Type 0 where
  pub local_index_hash : Hash Bytes ℕ
  pub opcode_array : List Opcode

-- What the compiler reads of the worker, but for its tokens.
pub record Scope : Type 0 where
  pub mod_of : Mod Bytes
  pub program : Program
  pub primitive_arity : ℕ → ℕ

unfoldable pub function_new : Draft
unfolding hash_new
function_new = record {
  local_index_hash = hash_new string_bernstein_hash string_equal;
  opcode_array = [];
}

unfoldable pub function_add_opcode : Draft → Opcode → Draft
function_add_opcode self opcode = record self { opcode_array = self.opcode_array ++ opcode ∷ [] }

abbrev pub is_int : TokenKind → Bool
is_int int_token = true
is_int _ = false

abbrev pub is_float : TokenKind → Bool
is_float float_token = true
is_float _ = false

abbrev pub end_name : Bytes
end_name = b'e' ∷ b'n' ∷ b'd' ∷ []

-- What a step of the compiler leaves; `none` is the answer `false`.
abbrev pub Step : Type 0
Step = Option (List Token × Draft)

unfoldable pub compile_int : List Token → Draft → Result Step
unfolding string_is_xint string_parse_xint xint function_add_opcode
compile_int [] self = err dangling
compile_int (token ∷ tokens) self = ok (
    if is_int token.kind && string_is_xint token.string
    then some
        (tokens, function_add_opcode self (literal (word (xint (string_parse_xint token.string)))))
    else none)

-- The loop of `compile_bind` that takes the names up to the closing parenthesis, last name first.
unfoldable pub collect_locals : List Token → List Bytes → Result (List Bytes × List Token)
unfolding string_equal
collect_locals [] names = err dangling
collect_locals (token ∷ tokens) names = elim (string_equal token.string (b')' ∷ [])) [
  | true ↦ ok (names, tokens)
  | false ↦ collect_locals tokens (token.string ∷ names)
]

-- `(size_t) hash_get(...)`
abbrev pub index_or_zero : Option ℕ → ℕ
index_or_zero none = 0
index_or_zero (some i) = i

-- The loop that binds the names, as they are popped.
unfoldable pub bind_locals : Draft → (index : ℕ) → List Bytes → Result Draft
unfolding hash_has hash_get hash_set string_bernstein_hash string_equal function_add_opcode
bind_locals self index [] = ok self
bind_locals self index (name ∷ names) =
    elim (hash_has string_bernstein_hash string_equal self.local_index_hash name) [
      | true ↦
          (let old_index =
              index_or_zero
                (hash_get string_bernstein_hash string_equal self.local_index_hash name) in
            bind_locals (function_add_opcode self (set_variable old_index)) index names)
      | false ↦ (do
        (_, h) ← hash_set string_bernstein_hash string_equal self.local_index_hash name index
        bind_locals
            (function_add_opcode (record self { local_index_hash = h }) (set_variable index))
            (index + 1) names)
    ]

unfoldable pub compile_bind : List Token → Draft → Result Step
unfolding string_equal collect_locals bind_locals
compile_bind [] self = err dangling
compile_bind (token ∷ tokens) self =
    if string_equal token.string (b'(' ∷ [])
    then (do
      (names, rest) ← collect_locals tokens []
      self' ← bind_locals self self.local_index_hash.length names
      ok (some (rest, self')))
    else ok none

-- The opcodes for a value of the module.
unfoldable pub compile_value : Scope → Draft → Value → Draft
unfolding function_add_opcode
compile_value s self (node_ctor c) =
    let ctor = s.program.ctors c in
    function_add_opcode (function_add_opcode self (literal (node_ctor c))) (apply ctor.input_arity)
compile_value s self (function f) =
    function_add_opcode (function_add_opcode self (literal (function f))) (apply 0)
compile_value s self (primitive i) =
    function_add_opcode (function_add_opcode self (literal (primitive i)))
      (apply (s.primitive_arity i))
compile_value s self value = function_add_opcode self (literal value)

unfoldable pub compile_generic : Scope → List Token → Draft → Result Step
unfolding hash_has hash_get string_bernstein_hash string_equal mod_find compile_value
    function_add_opcode
compile_generic s [] self = err dangling
compile_generic s (token ∷ tokens) self =
    if hash_has string_bernstein_hash string_equal self.local_index_hash token.string
    then (let index =
          index_or_zero
            (hash_get string_bernstein_hash string_equal self.local_index_hash token.string) in
        ok (some (tokens, function_add_opcode self (get_variable index))))
    else elim (mod_find string_bernstein_hash string_equal s.mod_of token.string) [
      | none ↦ err exit_failure
      | some value ↦ ok (some (tokens, compile_value s self value))
    ]

-- The next of several attempts, where this one answers `false`.
abbrev pub or_else : Result Step → Result Step → Result Step
or_else attempt next = attempt >>= λ answer. elim answer [ none ↦ next | some y ↦ ok (some y) ]

module _ (string_is_double : Bytes → Bool) (string_parse_double : Bytes → ℕ) where
  unfoldable pub compile_float : List Token → Draft → Result Step
  unfolding xfloat function_add_opcode
  compile_float [] self = err dangling
  compile_float (token ∷ tokens) self = ok (
      if is_float token.kind && string_is_double token.string
      then some (
        tokens,
        function_add_opcode self (literal (word (xfloat (string_parse_double token.string)))),
      )
      else none)

  -- The last attempt never answers `false`; if it did, the token would be reported and stay.
  unfoldable pub compile_one : Scope → List Token → Draft → Result (List Token × Draft)
  unfolding compile_int compile_float compile_bind compile_generic
  compile_one s tokens self = do
    answer ← or_else (compile_int tokens self) (
        or_else (compile_float tokens self)
          (or_else (compile_bind tokens self) (compile_generic s tokens self)))
    elim answer [ none ↦ ok (tokens, self) | some y ↦ ok y ]

  unfoldable pub compile_loop : ℕ → Scope → List Token → Draft → Result (Draft × List Token)
  unfolding compile_one string_equal
  compile_loop zero s tokens self = err out_of_fuel
  compile_loop (suc f) s [] self = err assertion
  compile_loop (suc f) s (token ∷ tokens) self = elim (string_equal token.string end_name) [
    | true ↦ ok (self, tokens)
    | false ↦ (do (rest, self') ← compile_one s (token ∷ tokens) self; compile_loop f s rest self')
  ]

  -- Each round takes a token at least.
  unfoldable pub compile_function : Scope → List Token → Result (Draft × List Token)
  unfolding compile_loop function_new
  compile_function s tokens = compile_loop (suc (length tokens)) s tokens function_new
