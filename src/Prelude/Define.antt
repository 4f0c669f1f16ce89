-- ===== src/Prelude/Define.antt =====
-- The words of src/prelude/net.c and function.c that define nodes, rules and functions, with the
-- parts of src/lang/define.c and checks.c, src/net/node_ctor.c and port_info.c and src/core/primitive.c
-- that they use. What is printed before an exit is left out. Objects get their addresses from counters.
use inet_forth.Std.CString.{
  Bytes, string_equal, string_bernstein_hash, string_ends_with, string_slice,
}
use inet_forth.Std.Lexer.{Token}
use inet_forth.Std.Hash.{hash_set}
use inet_forth.Net.{Value, node_ctor, function, primitive, PortInfo, NodeCtor, arity}
use inet_forth.Core.{Program, Function, PrimitiveFn, fn, fn_0, fn_1, fn_2, fn_3, fn_4, Worker}
use inet_forth.Core.Mod.{Mod, mod_find, mod_define_rule}
use inet_forth.Lang.{Scope, Draft, end_name, compile_function}
use inet_forth.Base.{
  Bool, List, Option, Result, [], assertion, check, dangling, err, exit_failure, false,
  if◌then◌else◌, length, none, ok, some, suc, true, update, ℕ, ◌++◌, ◌+◌, ◌-◌, ◌∷◌, ◌>>=◌, ◌>>◌,
}
pub mod Ports
pub mod Words
pub mod Tests

-- What a worker that loads a module works on.
pub record Loader : Type 0 where
  pub token_list : List Token
  pub scope : Scope
  pub next_ctor : ℕ
  pub next_function : ℕ
  pub next_primitive : ℕ

unfoldable pub find_name : Loader → Bytes → Option Value
unfolding mod_find string_bernstein_hash string_equal
find_name l name = mod_find string_bernstein_hash string_equal l.scope.mod_of name

unfoldable pub define : Loader → Bytes → Value → Result Loader
unfolding hash_set string_bernstein_hash string_equal
define l name value = do
  (fresh, h) ← hash_set string_bernstein_hash string_equal l.scope.mod_of.value_hash name value
  check fresh
  let s = l.scope
  ok (record l { scope = record s { mod_of = record { value_hash = h } } })

-- A function at a new address.
unfoldable pub define_function : Loader → Bytes → Draft → Result Loader
unfolding define
define_function l name draft =
    let s = l.scope in
    let p = s.program in
    let g = l.next_function in
    define
      (record l {
        scope = record s {
          program = record p {
            functions = update p.functions g (record { opcode_array = draft.opcode_array });
          };
        };
        next_function = g + 1;
      })
      name (function g)

pub record Primitive : Type 0 where
  pub name : Bytes
  pub input_arity : ℕ
  pub output_arity : ℕ
  pub fn_of : PrimitiveFn

unfoldable pub primitive_from_fn :
    Bytes
    → (input_arity output_arity : ℕ) → ((Worker → Result Worker) → Worker → Result Worker)
    → Primitive
primitive_from_fn name input_arity output_arity f = record {
  name = name;
  input_arity = input_arity;
  output_arity = output_arity;
  fn_of = fn f;
}

unfoldable pub primitive_from_fn_0 : Bytes → Result (Option Value) → Primitive
primitive_from_fn_0 name f = record {
  name = name;
  input_arity = 0;
  output_arity = 1;
  fn_of = fn_0 f;
}

unfoldable pub primitive_from_fn_1 : Bytes → (Value → Result (Option Value)) → Primitive
primitive_from_fn_1 name f = record {
  name = name;
  input_arity = 1;
  output_arity = 1;
  fn_of = fn_1 f;
}

unfoldable pub primitive_from_fn_2 : Bytes → (Value → Value → Result (Option Value)) → Primitive
primitive_from_fn_2 name f = record {
  name = name;
  input_arity = 2;
  output_arity = 1;
  fn_of = fn_2 f;
}

unfoldable pub primitive_from_fn_3 :
    Bytes → (Value → Value → Value → Result (Option Value)) → Primitive
primitive_from_fn_3 name f = record {
  name = name;
  input_arity = 3;
  output_arity = 1;
  fn_of = fn_3 f;
}

unfoldable pub primitive_from_fn_4 :
    Bytes → (Value → Value → Value → Value → Result (Option Value)) → Primitive
primitive_from_fn_4 name f = record {
  name = name;
  input_arity = 4;
  output_arity = 1;
  fn_of = fn_4 f;
}

-- `define_primitive_fn` and its five sisters: a primitive at a new address.
unfoldable pub define_primitive : Loader → Primitive → Result Loader
unfolding define
define_primitive l x =
    let s = l.scope in
    let p = s.program in
    let i = l.next_primitive in
    define
      (record l {
        scope = record s {
          program = record p { primitives = update p.primitives i x.fn_of };
          primitive_arity = update s.primitive_arity i x.input_arity;
        };
        next_primitive = i + 1;
      })
      x.name (primitive i)

unfoldable pub check_name_not_defined : Loader → Bytes → Result (Unit {0})
unfolding find_name
check_name_not_defined l name = elim (find_name l name) [ none ↦ ok tt | some v ↦ err exit_failure ]

unfoldable pub check_name_defined : Loader → Bytes → Result (Unit {0})
unfolding find_name
check_name_defined l name = elim (find_name l name) [ none ↦ err exit_failure | some v ↦ ok tt ]

-- `is_node_ctor(found)`
abbrev pub check_node_ctor : Option Value → Result ℕ
check_node_ctor (some (node_ctor c)) = ok c
check_node_ctor _ = err exit_failure

unfoldable pub check_node_name_defined : Loader → Bytes → Result (Unit {0})
unfolding find_name
check_node_name_defined l name = do _ ← check_node_ctor (find_name l name); ok tt

-- The loop over the ports of a constructor: the index of the first with the name.
unfoldable pub find_port : List PortInfo → Bytes → Option ℕ
unfolding string_equal
find_port [] port_name = none
find_port (x ∷ xs) port_name =
    let later = find_port xs port_name in
    if string_equal x.name port_name
    then some 0
    else elim later [ none ↦ none | some i ↦ some (suc i) ]

unfoldable pub check_port_name_defined : Loader → (node_name port_name : Bytes) → Result (Unit {0})
unfolding find_name find_port
check_port_name_defined l node_name port_name = do
  c ← check_node_ctor (find_name l node_name)
  let ctor = l.scope.program.ctors c
  elim (find_port ctor.port_infos port_name) [ none ↦ err exit_failure | some i ↦ ok tt ]

unfoldable pub node_ctor_find_port_index : NodeCtor → (port_name : Bytes) → Result ℕ
unfolding find_port
node_ctor_find_port_index ctor port_name = elim (find_port ctor.port_infos port_name) [
  | none ↦ err assertion
  | some i ↦ ok i
]

-- A port whose name ends with an exclamation mark is principal.
unfoldable pub port_info_from_name : Bytes → Result PortInfo
unfolding string_ends_with string_slice
port_info_from_name name =
    if string_ends_with name (b'!' ∷ [])
    then (do
      new_name ← string_slice name 0 (length name - 1)
      ok (record { name = new_name; is_principal = true }))
    else ok (record { name = name; is_principal = false })

-- One of the loops of `define_node`, which fill `port_infos` from its first index on.
unfoldable pub port_infos_of : List Bytes → Result (List PortInfo)
unfolding port_info_from_name
port_infos_of [] = ok []
port_infos_of (name ∷ names) = do
  x ← port_info_from_name name
  xs ← port_infos_of names
  ok (x ∷ xs)

unfoldable pub node_ctor_new : Bytes → (input_arity output_arity : ℕ) → List PortInfo → NodeCtor
node_ctor_new name input_arity output_arity port_infos = record {
  name = name;
  input_arity = input_arity;
  output_arity = output_arity;
  port_infos = port_infos;
  rule_array = [];
}

-- A node constructor at a new address.
unfoldable pub define_node : Loader → Bytes → (inputs outputs : List Bytes) → Result Loader
unfolding port_infos_of node_ctor_new define
define_node l name inputs outputs = do
  input_infos ← port_infos_of inputs
  output_infos ← port_infos_of outputs
  let s = l.scope
  let p = s.program
  let c = l.next_ctor
  let ctor = node_ctor_new name (length inputs) (length outputs) (input_infos ++ output_infos)
  define
      (record l {
        scope = record s { program = record p { ctors = update p.ctors c ctor } };
        next_ctor = c + 1;
      })
      name (node_ctor c)

abbrev pub separator : Bytes
separator = b'-' ∷ b'-' ∷ []

-- The loop of `x_define_node`: the names before the separator and those behind it.
unfoldable pub collect_ports :
    List Token
    → (output_flag : Bool) → (inputs outputs : List Bytes)
    → Result (List Bytes × List Bytes × List Token)
unfolding string_equal
collect_ports [] output_flag inputs outputs = err assertion
collect_ports (token ∷ tokens) output_flag inputs outputs =
    elim (string_equal token.string end_name) [
      | true ↦ ok (inputs, outputs, tokens)
      | false ↦ elim (string_equal token.string separator) [
        | true ↦ collect_ports tokens true inputs outputs
        | false ↦ elim output_flag [
          | true ↦ collect_ports tokens true inputs (outputs ++ token.string ∷ [])
          | false ↦ collect_ports tokens false (inputs ++ token.string ∷ []) outputs
        ]
      ]
    ]

-- Without a token, the read of its text is a fault.
unfoldable pub x_define_node : Loader → Result Loader
unfolding check_name_not_defined collect_ports define_node
x_define_node l = elim l.token_list [
  | [] ↦ err dangling
  | head ∷ tokens ↦ (do
    _ ← check_name_not_defined l head.string
    (inputs, outputs, rest) ← collect_ports tokens false [] []
    define_node (record l { token_list = rest }) head.string inputs outputs)
]

module _ (string_is_double : Bytes → Bool) (string_parse_double : Bytes → ℕ) where
  -- Without a name the compiler finds no token, and its assertion fails.
  unfoldable pub x_define_function : Loader → Result Loader
  unfolding compile_function define_function
  x_define_function l = elim l.token_list [
    | [] ↦ err assertion
    | name ∷ tokens ↦ (do
      (draft, rest) ← compile_function string_is_double string_parse_double l.scope tokens
      define_function (record l { token_list = rest }) name.string draft)
  ]

  -- The function of a rule has no name.
  unfoldable pub x_define_rule : Loader → Result Loader
  unfolding check_node_name_defined compile_function mod_define_rule string_bernstein_hash
      string_equal
  x_define_rule l = elim l.token_list [
    | [] ↦ err dangling
    | first ∷ [] ↦ err dangling
    | first ∷ second ∷ tokens ↦ (do
      _ ← check_node_name_defined l first.string
      _ ← check_node_name_defined l second.string
      (draft, rest) ← compile_function string_is_double string_parse_double l.scope tokens
      let s = l.scope
      let p = s.program
      let g = l.next_function
      let placed = record p {
        functions = update p.functions g (record { opcode_array = draft.opcode_array });
      }
      program ←
          mod_define_rule string_bernstein_hash string_equal s.mod_of placed first.string
            second.string g
      ok (record l {
        token_list = rest;
        scope = record s { program = program };
        next_function = g + 1;
      }))
  ]
