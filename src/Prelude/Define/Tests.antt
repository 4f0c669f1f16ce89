-- ===== src/Prelude/Define/Tests.antt =====
-- The defining words on short texts.
use inet_forth.Std.CString.{Bytes, string_equal, string_bernstein_hash}
use inet_forth.Std.Lexer.{Token, generic_token}
use inet_forth.Std.Hash.{hash_new, hash_get, hash_get_entry}
use inet_forth.Std.Hash.Map.{hash_new-IsHash}
use inet_forth.Core.Mod.{Mod, mod_find}
use inet_forth.Lang.{Draft, compile_function}
use inet_forth.Lang.Locals.{string_equal_iff}
use inet_forth.Prelude.Define.{Loader, find_name, x_define_node, x_define_function}
use inet_forth.Prelude.Define.Words.{
  NodeDefined, FunctionDefined, x_define_node_lem, x_define_function_lem,
}
use inet_forth.Lang.Tests.{token, dup_program, has_point}
use inet_forth.Prelude.Define.Ports.{IsNew}
use inet_forth.Base.{List, Result, [], arith, err, length, ok, refl, ◌∷◌, ◌≡◌}

abbrev word_token : Bytes → Token
word_token s = token s generic_token

abbrev end_token : Token
end_token = word_token (b'e' ∷ b'n' ∷ b'd' ∷ [])

abbrev no_mod : Mod Bytes
no_mod = record { value_hash = hash_new string_bernstein_hash string_equal }

abbrev loader : List Token → Loader
loader tokens = record {
  token_list = tokens;
  scope = record { mod_of = no_mod; program = dup_program; primitive_arity = λ _. 1 };
  next_ctor = 2;
  next_function = 5;
  next_primitive = 1;
}

-- add target! addend -- result
abbrev node_text : List Token
node_text =
    word_token (b'a' ∷ b'd' ∷ b'd' ∷ [])
    ∷ word_token (b't' ∷ b'!' ∷ [])
    ∷ word_token (b'a' ∷ [])
    ∷ word_token (b'-' ∷ b'-' ∷ [])
    ∷ word_token (b'r' ∷ [])
    ∷ end_token
    ∷ []

loader-IsNew : (tokens : List Token) (name : Bytes) → IsNew (loader tokens) name
unfolding find_name mod_find hash_get hash_get_entry hash_new
loader-IsNew tokens name = record {
  unknown = refl;
  sound = hash_new-IsHash string_bernstein_hash string_equal string_equal_iff;
  room = omega arith;
}

x_define_node_lem_example :
    (m : Loader) × (x_define_node (loader node_text) ≡ ok m)
    × NodeDefined
        (loader node_text)
        m
        (b'a' ∷ b'd' ∷ b'd' ∷ [])
        (word_token (b't' ∷ b'!' ∷ []) ∷ word_token (b'a' ∷ []) ∷ [])
        (word_token (b'r' ∷ []) ∷ [])
        []
unfolding string_equal
x_define_node_lem_example =
    x_define_node_lem (loader node_text) (word_token (b'a' ∷ b'd' ∷ b'd' ∷ []))
      (word_token (b'-' ∷ b'-' ∷ [])) end_token
      (word_token (b't' ∷ b'!' ∷ []) ∷ word_token (b'a' ∷ []) ∷ []) (word_token (b'r' ∷ []) ∷ []) []
      refl (loader-IsNew node_text (b'a' ∷ b'd' ∷ b'd' ∷ [])) refl refl refl refl refl

-- f ( x ) x x end
abbrev body : List Token
body =
    word_token (b'(' ∷ [])
    ∷ word_token (b'x' ∷ [])
    ∷ word_token (b')' ∷ [])
    ∷ word_token (b'x' ∷ [])
    ∷ word_token (b'x' ∷ [])
    ∷ end_token
    ∷ []

abbrev function_text : List Token
function_text = word_token (b'f' ∷ []) ∷ body

abbrev body_draft : Draft
body_draft = drafted (compile_function has_point length (loader function_text).scope body)
  where
    drafted : Result (Draft × List Token) → Draft
    drafted (ok (d, rest)) = d
    drafted (err e) = record {
      local_index_hash = hash_new string_bernstein_hash string_equal;
      opcode_array = [];
    }

body_compiles :
    compile_function has_point length (loader function_text).scope body ≡ ok (body_draft, [])
unfolding compile_function
body_compiles = refl

x_define_function_lem_example :
    (m : Loader) × (x_define_function has_point length (loader function_text) ≡ ok m)
    × FunctionDefined (loader function_text) m (b'f' ∷ []) body_draft []
x_define_function_lem_example =
    x_define_function_lem has_point length (loader function_text) (word_token (b'f' ∷ [])) body []
      body_draft refl (loader-IsNew function_text (b'f' ∷ [])) body_compiles
