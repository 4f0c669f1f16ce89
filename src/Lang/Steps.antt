-- ===== src/Lang/Steps.antt =====
-- src/lang/compile_one.c and compile_function.c: what each kind of token becomes.
use inet_forth.Std.CString.{Bytes, string_equal, string_bernstein_hash, string_parse_xint}
use inet_forth.Std.Lexer.{Token}
use inet_forth.Value.{xint, xfloat}
use inet_forth.Net.{Value, word, node_ctor, function, primitive, wire, principal_wire}
use inet_forth.Core.{apply, literal, get_variable}
use inet_forth.Core.Mod.{mod_find}
use inet_forth.Lang.{
  Scope, Draft, end_name, function_add_opcode, compile_int, compile_float, compile_bind,
  compile_generic, compile_value, collect_locals, bind_locals, compile_one, compile_loop,
}
use inet_forth.Lang.Locals.{lookup, has_local, has_local-lookup}
use inet_forth.Lang.Reading.{is_applied, is_constant, IsInt, IsFloat, IsOpen, IsName}
use inet_forth.Base.{
  Bool, Bool-cases, List, [], ap, arith, err-ne-ok, false, inl, inr, is_some, length, none, ok,
  ok-injective, refl, some, suc, true, ℕ, ◌∙◌, ◌∷◌, ◌≡◌, ◌≤◌,
}

pub collect_locals_le :
    (ts : List Token) (acc names : List Bytes) (rest : List Token)
    → collect_locals ts acc ≡ ok (names, rest)
    → length rest ≤ length ts
unfolding collect_locals
collect_locals_le [] acc names rest run = absurd (err-ne-ok run)
collect_locals_le (t ∷ ts) acc names rest run =
    elim (Bool-cases (string_equal t.string (b')' ∷ []))) [
      | inl e ↦
          let done : (acc, ts) ≡ (names, rest) = ok-injective (rw (e, collect_locals) at run) in
          omega (arith, ap (λ r. length r.1) done)
      | inr e ↦
          omega (
            arith,
            collect_locals_le ts (t.string ∷ acc) names rest (rw (e, collect_locals) at run),
          )
    ]

module _ (s : Scope) where
  pub compile_value_constant :
      (self : Draft) (v : Value)
      → is_constant v ≡ true
      → compile_value s self v ≡ function_add_opcode self (literal v)
  unfolding compile_value
  compile_value_constant self (word x) h = refl
  compile_value_constant self (wire x) h = refl
  compile_value_constant self (principal_wire x) h = refl
  compile_value_constant self (node_ctor x) h = cc
  compile_value_constant self (function x) h = cc
  compile_value_constant self (primitive x) h = cc

  pub compile_value_applied :
      (self : Draft) (v : Value)
      → is_applied v ≡ true
      → (n : ℕ) × (compile_value s self v
          ≡ function_add_opcode (function_add_opcode self (literal v)) (apply n))
  unfolding compile_value
  compile_value_applied self (word x) h = cc
  compile_value_applied self (wire x) h = cc
  compile_value_applied self (principal_wire x) h = cc
  compile_value_applied self (node_ctor x) h = (_, refl)
  compile_value_applied self (function x) h = cc
  compile_value_applied self (primitive x) h = (_, refl)

module _ (string_is_double : Bytes → Bool) (string_parse_double : Bytes → ℕ) (s : Scope) where
  pub compile_one_int :
      (t : Token) (ts : List Token) (self : Draft)
      → IsInt t
      → compile_one string_is_double string_parse_double s (t ∷ ts) self
        ≡ ok (ts, function_add_opcode self (literal (word (xint (string_parse_xint t.string)))))
  unfolding compile_one compile_int
  compile_one_int t ts self (_, int) = rw int refl

  pub compile_one_float :
      (t : Token) (ts : List Token) (self : Draft)
      → IsFloat string_is_double string_parse_double t
      → compile_one string_is_double string_parse_double s (t ∷ ts) self
        ≡ ok (ts, function_add_opcode self (literal (word (xfloat (string_parse_double t.string)))))
  unfolding compile_one compile_int compile_float
  compile_one_float t ts self (_, int, float) = rw int (rw float refl)

  pub compile_one_bind :
      (t : Token) (ts rest : List Token) (self self' : Draft) (names : List Bytes)
      → IsOpen string_is_double string_parse_double t
      → collect_locals ts [] ≡ ok (names, rest)
      → bind_locals self self.local_index_hash.length names ≡ ok self'
      → compile_one string_is_double string_parse_double s (t ∷ ts) self ≡ ok (rest, self')
  unfolding compile_one compile_int compile_float compile_bind
  compile_one_bind t ts rest self self' names (_, int, float, opens) collected run =
      rw int (rw float (rw opens (rw collected (rw run refl))))

  pub compile_one_variable :
      (t : Token) (ts : List Token) (self : Draft) (i : ℕ)
      → IsName string_is_double string_parse_double t
      → lookup self.local_index_hash t.string ≡ some i
      → compile_one string_is_double string_parse_double s (t ∷ ts) self
        ≡ ok (ts, function_add_opcode self (get_variable i))
  unfolding compile_one compile_int compile_float compile_bind compile_generic
  compile_one_variable t ts self i (_, int, float, opens) at_i =
      let has : has_local self.local_index_hash t.string ≡ true =
        has_local-lookup self.local_index_hash t.string ∙ ap is_some at_i in
      rw int (rw float (rw opens (rw has (rw at_i refl))))

  pub compile_one_global :
      (t : Token) (ts : List Token) (self : Draft) (v : Value)
      → IsName string_is_double string_parse_double t
      → lookup self.local_index_hash t.string ≡ none
      → mod_find string_bernstein_hash string_equal s.mod_of t.string ≡ some v
      → compile_one string_is_double string_parse_double s (t ∷ ts) self
        ≡ ok (ts, compile_value s self v)
  unfolding compile_one compile_int compile_float compile_bind compile_generic
  compile_one_global t ts self v (_, int, float, opens) absent found =
      let has : has_local self.local_index_hash t.string ≡ false =
        has_local-lookup self.local_index_hash t.string ∙ ap is_some absent in
      rw int (rw float (rw opens (rw has (rw found refl))))

  pub one_round :
      (f : ℕ) (t : Token) (ts rest : List Token) (self self' : Draft)
      → string_equal t.string end_name ≡ false
      → compile_one string_is_double string_parse_double s (t ∷ ts) self ≡ ok (rest, self')
      → compile_loop string_is_double string_parse_double (suc f) s (t ∷ ts) self
        ≡ compile_loop string_is_double string_parse_double f s rest self'
  unfolding compile_loop
  one_round f t ts rest self self' goes_on run =
      rw (goes_on, compile_loop) (rw (run, compile_loop) refl)
