-- ===== src/Prelude/Define/Words.antt =====
-- src/prelude/net.c and function.c: what the words that define nodes and functions leave in a module.
use mathlib.Core.Path.{ap₂}
use inet_forth.Std.CString.{Bytes, string_equal, string_ends_with}
use inet_forth.Std.Lexer.{Token}
use inet_forth.Net.{node_ctor, function}
use inet_forth.Core.Machine.Calls.{code}
use inet_forth.Core.Mod.{mod_find}
use inet_forth.Lang.{Draft, end_name, compile_function}
use inet_forth.Prelude.Define.{
  Loader, find_name, define_function, check_name_not_defined, node_ctor_new, define_node, separator,
  collect_ports, x_define_node, x_define_function,
}
use inet_forth.Base.{
  ==_refl, Bool, List, [], ap, false, if◌then◌else◌, length, map, none, ok, refl, some, suc, sym,
  true, update, ℕ, ◌++◌, ◌+◌, ◌==◌, ◌∙◌, ◌∷◌, ◌≡◌,
}
use inet_forth.Prelude.Define.Ports.{
  IsNew, with_names, define_lem, spelling, port_infos_lem, all_ports, strings, collect_inputs,
}

length-strings : (ts : List Token) → length (strings ts) ≡ length ts
length-strings [] = refl
length-strings (t ∷ ts) = ap suc (length-strings ts)

map-append : {A B : Type 0} (g : A → B) (xs ys : List A) → map g (xs ++ ys) ≡ map g xs ++ map g ys
map-append g [] ys = refl
map-append g (x ∷ xs) ys = ap (λ zs. g x ∷ zs) (map-append g xs ys)

strings-append : (us vs : List Token) → strings (us ++ vs) ≡ strings us ++ strings vs
strings-append [] vs = refl
strings-append (u ∷ us) vs = ap (λ zs. u.string ∷ zs) (strings-append us vs)

-- What the definition of a node leaves: the name stands for a new constructor with those ports.
pub record NodeDefined (l m : Loader) (name : Bytes) (us vs rest : List Token) : Type 0 where
  pub finds :
      (x : Bytes)
      → find_name m x
        ≡ (if string_equal name x then some (node_ctor l.next_ctor) else find_name l x)
  pub left : m.token_list ≡ rest
  pub other_ctors :
      (c : ℕ)
      → m.scope.program.ctors c
        ≡ (if l.next_ctor == c then m.scope.program.ctors l.next_ctor else l.scope.program.ctors c)
  pub inputs : (m.scope.program.ctors l.next_ctor).input_arity ≡ length us
  pub outputs : (m.scope.program.ctors l.next_ctor).output_arity ≡ length vs
  pub no_rules : (m.scope.program.ctors l.next_ctor).rule_array ≡ []
  pub spelled : map spelling (m.scope.program.ctors l.next_ctor).port_infos ≡ strings (us ++ vs)
  pub principal :
      map (λ x. x.is_principal) (m.scope.program.ctors l.next_ctor).port_infos
      ≡ map (λ x. string_ends_with x (b'!' ∷ [])) (strings (us ++ vs))

define_node_lem :
    (l : Loader) (name : Bytes) (us vs rest : List Token)
    → IsNew l name
    → (m : Loader) × (define_node (record l { token_list = rest }) name (strings us) (strings vs)
        ≡ ok m)
      × NodeDefined l m name us vs rest
unfolding define_node node_ctor_new find_name mod_find
define_node_lem l name us vs rest new =
    let (xs, run, spelled, flags) = port_infos_lem (strings us) in
    let (ys, run', spelled', flags') = port_infos_lem (strings vs) in
    let s = l.scope in
    let p = s.program in
    let ctor = node_ctor_new name (length (strings us)) (length (strings vs)) (xs ++ ys) in
    let made : Loader = record l {
      token_list = rest;
      scope = record s { program = record p { ctors = update p.ctors l.next_ctor ctor } };
      next_ctor = l.next_ctor + 1;
    } in
    let (h, defined, finds) =
      define_lem made name (node_ctor l.next_ctor)
        (record { unknown = new.unknown; sound = new.sound; room = new.room }) in
    let own : update p.ctors l.next_ctor ctor l.next_ctor ≡ ctor = rw (==_refl l.next_ctor) refl in
    (
      with_names made h,
      rw run (rw run' defined),
      record {
        finds = finds;
        left = refl;
        other_ctors = λ c. ap (λ x. if l.next_ctor == c then x else p.ctors c) (sym own);
        inputs = ap (λ c. c.input_arity) own ∙ length-strings us;
        outputs = ap (λ c. c.output_arity) own ∙ length-strings vs;
        no_rules = ap (λ c. c.rule_array) own;
        spelled =
            ap (λ c. map spelling c.port_infos) own
            ∙ map-append spelling xs ys
            ∙ ap₂ ◌++◌ spelled spelled'
            ∙ sym (strings-append us vs);
        principal =
            ap (λ c. map (λ x. x.is_principal) c.port_infos) own
            ∙ map-append (λ x. x.is_principal) xs ys
            ∙ ap₂ ◌++◌ flags flags'
            ∙ sym (map-append (λ x. string_ends_with x (b'!' ∷ [])) (strings us) (strings vs))
            ∙ ap (map (λ x. string_ends_with x (b'!' ∷ []))) (sym (strings-append us vs));
      },
    )

x_define_node_run :
    (l : Loader) (name : Token) (ts rest : List Token) (ins outs : List Bytes)
    → l.token_list ≡ name ∷ ts
    → find_name l name.string ≡ none
    → collect_ports ts false [] [] ≡ ok (ins, outs, rest)
    → x_define_node l ≡ define_node (record l { token_list = rest }) name.string ins outs
unfolding x_define_node check_name_not_defined
x_define_node_run l name ts rest ins outs tokens unknown collected =
    rw (tokens, x_define_node)
      (rw (unknown, check_name_not_defined) (rw (collected, x_define_node) refl))

-- `define-node name inputs -- outputs end`, for a new name, takes these tokens and gives the name a new
-- constructor: its arities are the numbers of names on the two sides, and its ports, inputs first, are
-- spelled as the names are, principal where a name ends with an exclamation mark. It has no rules. Every
-- other name and constructor stays as it was.
pub x_define_node_lem :
    (l : Loader) (name sep stop : Token) (us vs rest : List Token)
    → l.token_list ≡ name ∷ us ++ sep ∷ vs ++ stop ∷ rest
    → IsNew l name.string
    → all_ports us ≡ true
    → all_ports vs ≡ true
    → string_equal sep.string end_name ≡ false
    → string_equal sep.string separator ≡ true
    → string_equal stop.string end_name ≡ true
    → (m : Loader) × (x_define_node l ≡ ok m) × NodeDefined l m name.string us vs rest
x_define_node_lem l name sep stop us vs rest tokens new plain plain' goes_on parts stops =
    let (m, run, defined) = define_node_lem l name.string us vs rest new in
    (
      m,
      x_define_node_run l name (us ++ sep ∷ vs ++ stop ∷ rest) rest (strings us) (strings vs) tokens
            new.unknown (collect_inputs us vs sep stop rest [] plain plain' goes_on parts stops)
          ∙ run,
      defined,
    )

-- What the definition of a function leaves: the name stands for a new function with the opcodes.
pub record FunctionDefined (l m : Loader) (name : Bytes) (draft : Draft) (rest : List Token)
    : Type 0 where
  pub finds :
      (x : Bytes)
      → find_name m x
        ≡ (if string_equal name x then some (function l.next_function) else find_name l x)
  pub left : m.token_list ≡ rest
  pub placed :
      (g : ℕ)
      → code m.scope.program g
        ≡ (if l.next_function == g then draft.opcode_array else code l.scope.program g)

module _ (string_is_double : Bytes → Bool) (string_parse_double : Bytes → ℕ) where
  define_function_run :
      (l : Loader) (name : Token) (ts rest : List Token) (draft : Draft)
      → l.token_list ≡ name ∷ ts
      → compile_function string_is_double string_parse_double l.scope ts ≡ ok (draft, rest)
      → x_define_function string_is_double string_parse_double l
        ≡ define_function (record l { token_list = rest }) name.string draft
  unfolding x_define_function
  define_function_run l name ts rest draft tokens compiled =
      rw (tokens, x_define_function) (rw (compiled, x_define_function) refl)

  -- `define name ... end`, for a new name and a text that the compiler takes, gives the name a new
  -- function with the opcodes of the text and leaves the tokens behind the text. Every other name and
  -- function stays as it was.
  pub x_define_function_lem :
      (l : Loader) (name : Token) (ts rest : List Token) (draft : Draft)
      → l.token_list ≡ name ∷ ts
      → IsNew l name.string
      → compile_function string_is_double string_parse_double l.scope ts ≡ ok (draft, rest)
      → (m : Loader) × (x_define_function string_is_double string_parse_double l ≡ ok m)
        × FunctionDefined l m name.string draft rest
  unfolding define_function find_name mod_find
  x_define_function_lem l name ts rest draft tokens new compiled =
      let s = l.scope in
      let p = s.program in
      let g = l.next_function in
      let made : Loader = record l {
        token_list = rest;
        scope = record s {
          program = record p {
            functions = update p.functions g (record { opcode_array = draft.opcode_array });
          };
        };
        next_function = g + 1;
      } in
      let (h, defined, finds) =
        define_lem made name.string (function g)
          (record { unknown = new.unknown; sound = new.sound; room = new.room }) in
      (
        with_names made h,
        define_function_run l name ts rest draft tokens compiled ∙ defined,
        record { finds = finds; left = refl; placed = λ c. code_if (l.next_function == c) c },
      )
    where
      code_if :
          (b : Bool) (c : ℕ)
          → (if b
              then record { opcode_array = draft.opcode_array }
              else l.scope.program.functions c).opcode_array
            ≡ (if b then draft.opcode_array else code l.scope.program c)
      code_if true c = refl
      code_if false c = refl
