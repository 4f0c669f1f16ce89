-- ===== src/Lang/Meaning.antt =====
-- src/lang: the opcodes that the compiler gives for a text do what the text means.
use mathlib.Core.List.{append-nil}
use inet_forth.Std.CString.{Bytes, string_equal}
use inet_forth.Std.Lexer.{Token}
use inet_forth.Std.Array.{Array, array_new, array_get}
use inet_forth.Std.Array.Slots.{array_get-slot}
use inet_forth.Std.Hash.{Hash, hash_new}
use inet_forth.Net.{Value, function}
use inet_forth.Core.{apply, literal, Worker, Program, variable_array_size}
use inet_forth.Core.Machine.Calls.{
  Runs, returns, run_literal, run_get, run_call, run_apply, code, pops,
}
use inet_forth.Lang.{
  Scope, Draft, end_name, function_new, function_add_opcode, compile_value, compile_one,
  compile_loop, compile_function, collect_locals,
}
use inet_forth.Lang.Locals.{Names, no_names, unbound, held_in, Locals, lookup, no_names-Locals}
use inet_forth.Lang.Reading.{
  Reads, read_end, read_int, read_float, read_bind, read_variable, read_call, read_apply,
  read_constant,
}
use inet_forth.Lang.Parentheses.{popped, length-popped, collect_locals-popped, take_names-popped}
use inet_forth.Lang.Binding.{Extends, add_opcode-Extends, bind_locals-Extends}
use inet_forth.Base.{
  Bool, List, [], ap, arith, false, get_elem?, length, length-append, none, ok, ok-injective, refl,
  some, subst, suc, sym, zero, ℕ, ◌++◌, ◌+◌, ◌∙◌, ◌∷◌, ◌≡◌, ◌≤◌,
}
use inet_forth.Lang.Steps.{
  collect_locals_le, compile_value_constant, compile_value_applied, compile_one_int,
  compile_one_float, compile_one_bind, compile_one_variable, compile_one_global, one_round,
}

module _ (string_is_double : Bytes → Bool) (string_parse_double : Bytes → ℕ) (s : Scope)
    (p : Program) where
  no_more : (self : Draft) (vs : Array Value) (w : Worker) → Extends p self self vs w w
  no_more self vs w = record {
    more = [];
    parts = sym (append-nil self.opcode_array);
    runs = λ g placed. returns (ap length (sym placed));
  }

  -- What a value and its application add.
  applied-Extends :
      (self last : Draft) (v : Value) (n : ℕ) (vs : Array Value) (w w₁ w' : Worker)
      → ((g : ℕ)
          → get_elem? (code p g) (suc (length self.opcode_array)) ≡ some (apply n)
          → Runs p g (suc (suc (length self.opcode_array))) vs w₁ w'
          → Runs p g (suc (length self.opcode_array)) vs (pops w (v ∷ w.value_stack)) w')
      → Extends p
          (function_add_opcode (function_add_opcode self (literal v)) (apply n))
          last
          vs
          w₁
          w'
      → Extends p self last vs w w'
  unfolding function_add_opcode
  applied-Extends self last v n vs w w₁ w' step e =
      let next : length (self.opcode_array ++ literal v ∷ []) ≡ suc (length self.opcode_array) =
        omega (arith, length-append self.opcode_array (literal v ∷ [])) in
      add_opcode-Extends p self (function_add_opcode self (literal v)) last (literal v) vs vs w
        (pops w (v ∷ w.value_stack)) w' refl (λ g here r. run_literal here r)
        (add_opcode-Extends p (function_add_opcode self (literal v)) _ last (apply n) vs vs
          (pops w (v ∷ w.value_stack)) w₁ w' refl
          (subst
            (λ c.
              (g : ℕ)
              → get_elem? (code p g) c ≡ some (apply n)
              → Runs p g (suc c) vs w₁ w'
              → Runs p g c vs (pops w (v ∷ w.value_stack)) w')
            (sym next) step)
          e)

  -- One token that becomes one or more opcodes, and those of the text behind it.
  Compiled : ℕ → List Token → List Token → Draft → Array Value → Worker → Worker → Type 0
  Compiled f ts rest self vs w w' =
      (last : Draft) × (compile_loop string_is_double string_parse_double f s ts self
        ≡ ok (last, rest))
      × Extends p self last vs w w'

  Compiled-behind :
      (f : ℕ) (t : Token) (ts ts' rest : List Token) (self self₁ : Draft) (vs vs₁ : Array Value)
      (w w₁ w' : Worker)
      → string_equal t.string end_name ≡ false
      → compile_one string_is_double string_parse_double s (t ∷ ts) self ≡ ok (ts', self₁)
      → ((last : Draft) → Extends p self₁ last vs₁ w₁ w' → Extends p self last vs w w')
      → Compiled f ts' rest self₁ vs₁ w₁ w'
      → Compiled (suc f) (t ∷ ts) rest self vs w w'
  unfolding Compiled
  Compiled-behind f t ts ts' rest self self₁ vs vs₁ w w₁ w' goes_on run extends (last, runs, e) = (
    last,
    one_round string_is_double string_parse_double s f t ts ts' self self₁ goes_on run ∙ runs,
    extends last e,
  )

  local_index :
      {h : Hash Bytes ℕ} {ρ : Names} {vs : Array Value} {x : Bytes} {v : Value}
      → Locals h ρ vs
      → ρ x ≡ some v
      → (i : ℕ) × (lookup h x ≡ some i) × (array_get vs i ≡ some v)
  local_index {vs} {x} l is_v = elim (l.held x) [
    | unbound u n ↦ absurd (cc (n, is_v))
    | held_in i w at_i is_w below stored ↦
        (i, at_i, array_get-slot vs l.sound i ∙ stored ∙ sym is_w ∙ is_v)
  ]

  no_local :
      {h : Hash Bytes ℕ} {ρ : Names} {vs : Array Value} {x : Bytes}
      → Locals h ρ vs
      → ρ x ≡ none
      → lookup h x ≡ none
  no_local {x} l is_none = elim (l.held x) [
    | unbound u n ↦ u
    | held_in i w at_i is_w below stored ↦ absurd (cc (is_none, is_w))
  ]

  compile_loop-Reads :
      {ρ : Names} {n : ℕ} {ts rest : List Token} {w w' : Worker}
      → Reads string_is_double string_parse_double s p ρ n ts w rest w'
      → (f : ℕ) (self : Draft) (vs : Array Value) → Locals self.local_index_hash ρ vs
      → self.local_index_hash.prime_index + n ≤ 58
      → self.local_index_hash.length + n ≤ 58
      → length ts ≤ f
      → Compiled (suc f) ts rest self vs w w'
  unfolding Compiled compile_loop function_add_opcode compile_value
  compile_loop-Reads {w} (read_end {t} {ts} is_end) f self vs l room slots fits =
      (self, rw (is_end, compile_loop) refl, no_more self vs w)
  compile_loop-Reads (read_int is r) zero self vs l room slots fits = absurd (omega arith)
  compile_loop-Reads (read_float is r) zero self vs l room slots fits = absurd (omega arith)
  compile_loop-Reads (read_bind names close is e a c b r) zero self vs l room slots fits =
      absurd (omega arith)
  compile_loop-Reads (read_variable is e r) zero self vs l room slots fits = absurd (omega arith)
  compile_loop-Reads (read_call is e g c r) zero self vs l room slots fits = absurd (omega arith)
  compile_loop-Reads (read_apply k is e g a c r) zero self vs l room slots fits =
      absurd (omega arith)
  compile_loop-Reads (read_constant is e g c r) zero self vs l room slots fits =
      absurd (omega arith)
  compile_loop-Reads {w} {w'} (read_int {t} {ts} is r) (suc f) self vs l room slots fits =
      Compiled-behind (suc f) t ts ts _ self _ vs vs w _ w' is.0
        (compile_one_int string_is_double string_parse_double s t ts self is)
        (λ last e.
          add_opcode-Extends p self _ last _ vs vs w _ w' refl
            (λ g here next. run_literal here next) e)
        (compile_loop-Reads r f _ vs l room slots (omega arith))
  compile_loop-Reads {w} {w'} (read_float {t} {ts} is r) (suc f) self vs l room slots fits =
      Compiled-behind (suc f) t ts ts _ self _ vs vs w _ w' is.0
        (compile_one_float string_is_double string_parse_double s t ts self is)
        (λ last e.
          add_opcode-Extends p self _ last _ vs vs w _ w' refl
            (λ g here next. run_literal here next) e)
        (compile_loop-Reads r f _ vs l room slots (omega arith))
  compile_loop-Reads {ρ} {w} {w'}
        (read_bind {n} {t} {ts} {ts'} {st} names close is parts all_local is_close binds r) (suc f)
        self vs l room slots fits =
      let collected : collect_locals ts [] ≡ ok (popped names [], ts') =
        ap (λ us. collect_locals us []) parts
        ∙ collect_locals-popped names close ts' [] all_local is_close in
      let (self₁, vs₁, run, l₁, room₁, slots₁, extends) =
        bind_locals-Extends p (popped names []) n self.local_index_hash.length self ρ vs w
          w.value_stack l refl (omega (arith, length-popped names []))
          (omega (arith, length-popped names []))
          (take_names-popped names [] ρ w.value_stack binds) in
      Compiled-behind (suc f) t ts ts' _ self self₁ vs vs₁ w (pops w st) w' is.0
        (compile_one_bind string_is_double string_parse_double s t ts ts' self self₁
          (popped names []) is collected run)
        (λ last e. extends last w' e)
        (compile_loop-Reads r f self₁ vs₁ l₁ room₁ slots₁
          (omega (arith, collect_locals_le ts [] (popped names []) ts' collected)))
  compile_loop-Reads {w} {w'} (read_variable {t} {ts} is is_v r) (suc f) self vs l room slots fits =
      let (i, at_i, stored) = local_index l is_v in
      Compiled-behind (suc f) t ts ts _ self _ vs vs w _ w' is.0
        (compile_one_variable string_is_double string_parse_double s t ts self i is at_i)
        (λ last e.
          add_opcode-Extends p self _ last _ vs vs w _ w' refl
            (λ g here next. run_get here stored next) e)
        (compile_loop-Reads r f _ vs l room slots (omega arith))
  compile_loop-Reads {w} {w'} (read_call {t} {ts} {w₁} {g} is absent found called r) (suc f) self vs
        l room slots fits =
      Compiled-behind (suc f) t ts ts _ self _ vs vs w w₁ w' is.0
        (compile_one_global string_is_double string_parse_double s t ts self (function g) is
          (no_local l absent) found)
        (λ last e.
          applied-Extends self last (function g) 0 vs w w₁ w'
            (λ g' here next. run_call here refl called next) e)
        (compile_loop-Reads r f _ vs l room slots (omega arith))
  compile_loop-Reads {w} {w'} (read_apply {t} {ts} {w₁} {v} k is absent found applied applies r)
        (suc f) self vs l room slots fits =
      let (n, value) = compile_value_applied s self v applied in
      Compiled-behind (suc f) t ts ts _ self _ vs vs w w₁ w' is.0
        (compile_one_global string_is_double string_parse_double s t ts self v is
            (no_local l absent) found
          ∙ ap (λ d. ok (ts, d)) value)
        (λ last e.
          applied-Extends self last v n vs w w₁ w'
            (λ g' here next. run_apply k here refl applies next) e)
        (compile_loop-Reads r f _ vs l room slots (omega arith))
  compile_loop-Reads {w} {w'} (read_constant {t} {ts} {v} is absent found constant r) (suc f) self
        vs l room slots fits =
      Compiled-behind (suc f) t ts ts _ self _ vs vs w _ w' is.0
        (compile_one_global string_is_double string_parse_double s t ts self v is
            (no_local l absent) found
          ∙ ap (λ d. ok (ts, d)) (compile_value_constant s self v constant))
        (λ last e.
          add_opcode-Extends p self _ last _ vs vs w _ w' refl
            (λ g here next. run_literal here next) e)
        (compile_loop-Reads r f _ vs l room slots (omega arith))

  -- A text that has a meaning, and binds 58 names at most, is compiled: the compiler takes the tokens
  -- up to the `end` of the text and leaves what is behind it.
  pub compile_function-returns :
      {n : ℕ} {ts rest : List Token} {w w' : Worker}
      → Reads string_is_double string_parse_double s p no_names n ts w rest w'
      → n ≤ 58
      → (last : Draft) × (compile_function string_is_double string_parse_double s ts
          ≡ ok (last, rest))
  unfolding compile_function function_new Compiled hash_new
  compile_function-returns {n} {ts} reads few =
      let room : 0 + n ≤ 58 = omega arith in
      let (last, run, _) =
        compile_loop-Reads reads (length ts) function_new (array_new variable_array_size)
          no_names-Locals room room (omega arith) in
      (last, run)

  -- The opcodes that the compiler gives for a text do what the text means: where the meaning of the
  -- text takes a worker from `w` to `w'`, binding 58 names at most, and function `g` has the opcodes,
  -- running `g` from its first opcode takes the worker from `w` to `w'`.
  pub compile_function-Runs :
      {n : ℕ} {ts rest rest' : List Token} {w w' : Worker} {last : Draft}
      → Reads string_is_double string_parse_double s p no_names n ts w rest w'
      → n ≤ 58
      → compile_function string_is_double string_parse_double s ts ≡ ok (last, rest')
      → (g : ℕ) → code p g ≡ last.opcode_array
      → Runs p g 0 (array_new variable_array_size) w w'
  unfolding compile_function function_new Compiled hash_new
  compile_function-Runs {n} {ts} {rest} {rest'} {last} reads few run g placed =
      let room : 0 + n ≤ 58 = omega arith in
      let (last', run', e) =
        compile_loop-Reads reads (length ts) function_new (array_new variable_array_size)
          no_names-Locals room room (omega arith) in
      let same : (last, rest') ≡ (last', rest) = ok-injective (sym run ∙ run') in
      e.runs g (placed ∙ ap (λ r. r.0.opcode_array) same)
