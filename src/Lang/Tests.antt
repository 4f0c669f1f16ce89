-- ===== src/Lang/Tests.antt =====
-- The compiler on the text ( x ) x dup 7 end.
use inet_forth.Std.CString.{
  Bytes, string_bernstein_hash, string_is_xint, string_parse_xint, string_has_char,
}
use inet_forth.Std.Lexer.{TokenKind, generic_token, int_token, Token}
use inet_forth.Std.Array.{array_new}
use inet_forth.Value.{xint}
use inet_forth.Net.{word, primitive, NodeCtor}
use inet_forth.Core.{
  Program, Worker, fn, variable_array_size, Opcode, apply, literal, get_variable, set_variable,
}
use inet_forth.Core.Machine.Calls.{Runs, pops}
use inet_forth.Core.Machine.{worker_apply}
use inet_forth.Core.Mod.{Mod, mod_find}
use inet_forth.Prelude.{x_dup}
use inet_forth.Std.CString.{string_equal}
use inet_forth.Lang.{Scope, Draft, function_new, compile_function}
use inet_forth.Lang.Locals.{no_names}
use inet_forth.Lang.Reading.{Reads, read_end, read_int, read_bind, read_variable, read_apply}
use inet_forth.Lang.Meaning.{compile_function-returns, compile_function-Runs}
use inet_forth.Base.{Bool, List, Result, [], arith, err, false, length, none, ok, refl, ◌∷◌, ◌≡◌}

abbrev pub token : Bytes → TokenKind → Token
token string kind = record {
  string = string;
  kind = kind;
  start = 0;
  end = 0;
  lineno = 1;
  column = 1;
  number = 0;
}

abbrev dup_name : Bytes
dup_name = b'd' ∷ b'u' ∷ b'p' ∷ []

abbrev text : List Token
text =
    token (b'(' ∷ []) generic_token
    ∷ token (b'x' ∷ []) generic_token
    ∷ token (b')' ∷ []) generic_token
    ∷ token (b'x' ∷ []) generic_token
    ∷ token dup_name generic_token
    ∷ token (b'7' ∷ []) int_token
    ∷ token (b'e' ∷ b'n' ∷ b'd' ∷ []) generic_token
    ∷ []

-- Every bucket of the table holds the name; the one of its hash is read.
abbrev dup_mod : Mod Bytes
dup_mod = record {
  value_hash = record {
    prime_index = 0;
    used_indexes_size = 1;
    length = 1;
    entries = λ i. record { index = i; key = dup_name; value = primitive 0 } ∷ [];
  };
}

abbrev plain_ctor : NodeCtor
plain_ctor = record {
  name = [];
  input_arity = 0;
  output_arity = 0;
  port_infos = [];
  rule_array = [];
}

abbrev text_code : List Opcode
text_code =
    set_variable 0 ∷ get_variable 0 ∷ literal (primitive 0) ∷ apply 1 ∷ literal (word (xint 7)) ∷ []

abbrev pub dup_program : Program
dup_program = record {
  ctors = λ _. plain_ctor;
  functions = λ _. record { opcode_array = text_code };
  primitives = λ _. fn (λ work w. x_dup w);
}

abbrev dup_scope : Scope
dup_scope = record { mod_of = dup_mod; program = dup_program; primitive_arity = λ _. 1 }

abbrev pub has_point : Bytes → Bool
has_point s = string_has_char s b'.'

abbrev five : Worker
five = record {
  task_deque = [];
  value_stack = word (xint 5) ∷ [];
  return_stack = [];
  free_node_stack = [];
  node_allocator = record { cache_size = 1; batch_size = 1; node_count = 0; stack = [] };
  heap = record {
    nodes = λ _. record { ctor = none; is_allocated = false; values = [] };
    wires = λ _. none;
    principal_wires = λ _. none;
    next_wire = 0;
    next_principal_wire = 0;
  };
}

abbrev five_five : Worker
five_five = pops five (word (xint 5) ∷ word (xint 5) ∷ [])

abbrev seven_on_top : Worker
seven_on_top = pops five (word (xint 7) ∷ word (xint 5) ∷ word (xint 5) ∷ [])

reads : Reads has_point length dup_scope dup_program no_names 1 text five [] seven_on_top
unfolding string_equal mod_find string_is_xint string_parse_xint string_has_char
    string_bernstein_hash x_dup worker_apply
reads =
    read_bind (token (b'x' ∷ []) generic_token ∷ []) (token (b')' ∷ []) generic_token)
      (refl, refl, refl, refl) refl (refl, tt) refl refl
      (read_variable (refl, refl, refl, refl) refl
        (read_apply {w₁ = five_five} 0 (refl, refl, refl, refl) refl refl refl (λ m rs le. refl)
          (read_int (refl, refl) (read_end refl))))

compile_function-returns_example :
    (last : Draft) × (compile_function has_point length dup_scope text ≡ ok (last, []))
compile_function-returns_example =
    compile_function-returns has_point length dup_scope dup_program reads (omega arith)

abbrev text_draft : Draft
text_draft = drafted (compile_function has_point length dup_scope text)
  where
    drafted : Result (Draft × List Token) → Draft
    drafted (ok (d, rest)) = d
    drafted (err e) = function_new

compiles : compile_function has_point length dup_scope text ≡ ok (text_draft, [])
unfolding compile_function
compiles = refl

placed : text_code ≡ text_draft.opcode_array
unfolding compile_function
placed = refl

compile_function-Runs_example :
    Runs dup_program 3 0 (array_new variable_array_size) five seven_on_top
compile_function-Runs_example =
    compile_function-Runs has_point length dup_scope dup_program reads (omega arith) compiles 3
      placed
