-- ===== src/Lang/Reading.antt =====
-- What a function's text means, token by token: its numbers are pushed, the names in parentheses
-- are bound to the values on top of the stack, the last name to the top, and any other name stands for its value, which is applied if it is a
-- function, a primitive or a node constructor.
use inet_forth.Std.CString.{
  Bytes, string_equal, string_bernstein_hash, string_is_xint, string_parse_xint,
}
use inet_forth.Std.Lexer.{Token}
use inet_forth.Std.Array.{array_new}
use inet_forth.Value.{xint, xfloat}
use inet_forth.Net.{Value, word, node_ctor, function, primitive, wire, principal_wire}
use inet_forth.Core.{Frame, Worker, Program, variable_array_size}
use inet_forth.Core.Machine.{worker_apply, worker_work}
use inet_forth.Core.Machine.Calls.{Runs, at, pops}
use inet_forth.Core.Mod.{mod_find}
use inet_forth.Lang.{Scope, end_name, is_int, is_float}
use inet_forth.Lang.Locals.{Names, bound}
use inet_forth.Base.{
  Bool, List, Option, [], false, length, none, ok, some, true, ℕ, ◌&&◌, ◌++◌, ◌+◌, ◌∷◌, ◌≡◌, ◌≤◌,
}

-- A name takes the value on top of the stack.
abbrev pub bind_top : Bytes → Option (Names × List Value) → Option (Names × List Value)
bind_top x none = none
bind_top x (some (ρ, [])) = none
bind_top x (some (ρ, v ∷ st)) = some (bound ρ x v, st)

-- The names in parentheses, in the order of the text, take the values on top of the stack from the last
-- name to the first, so that `( x y )` binds `y` to the top and `x` to the value below it.
abbrev pub bind_all : Names → List Token → List Value → Option (Names × List Value)
bind_all ρ [] st = some (ρ, st)
bind_all ρ (t ∷ ts) st = bind_top t.string (bind_all ρ ts st)

abbrev pub closes : Token → Bool
closes t = string_equal t.string (b')' ∷ [])

-- None of the tokens is the closing parenthesis.
abbrev pub AllLocal : List Token → Type 0
AllLocal [] = Unit {0}
AllLocal (t ∷ ts) = (closes t ≡ false) × AllLocal ts

-- Values that are applied where their name stands, other than functions, and those that are pushed.
abbrev pub is_applied : Value → Bool
is_applied (node_ctor c) = true
is_applied (primitive i) = true
is_applied _ = false

abbrev pub is_constant : Value → Bool
is_constant (word x) = true
is_constant (wire x) = true
is_constant (principal_wire x) = true
is_constant _ = false

abbrev pub IsEnd : Token → Type 0
IsEnd t = string_equal t.string end_name ≡ true

abbrev pub IsInt : Token → Type 0
IsInt t =
    (string_equal t.string end_name ≡ false) × ((is_int t.kind && string_is_xint t.string) ≡ true)

module _ (string_is_double : Bytes → Bool) (string_parse_double : Bytes → ℕ) where
  abbrev pub IsFloat : Token → Type 0
  IsFloat t =
      (string_equal t.string end_name ≡ false)
      × ((is_int t.kind && string_is_xint t.string) ≡ false)
      × ((is_float t.kind && string_is_double t.string) ≡ true)

  abbrev pub IsOpen : Token → Type 0
  IsOpen t =
      (string_equal t.string end_name ≡ false)
      × ((is_int t.kind && string_is_xint t.string) ≡ false)
      × ((is_float t.kind && string_is_double t.string) ≡ false)
      × (string_equal t.string (b'(' ∷ []) ≡ true)

  abbrev pub IsName : Token → Type 0
  IsName t =
      (string_equal t.string end_name ≡ false)
      × ((is_int t.kind && string_is_xint t.string) ≡ false)
      × ((is_float t.kind && string_is_double t.string) ≡ false)
      × (string_equal t.string (b'(' ∷ []) ≡ false)

  module _ (s : Scope) (p : Program) where
    abbrev pub global : Bytes → Option Value
    global x = mod_find string_bernstein_hash string_equal s.mod_of x

    -- `Reads ρ n ts w rest w'`: the text `ts`, up to its `end`, takes the worker from `w` to `w'` where
    -- the names have the values `ρ`, and leaves the text `rest`. It binds `n` names. A callee is run by
    -- its opcodes, and what is not a function is applied with any fuel from some amount on.
    pub data Reads : Names → ℕ → List Token → Worker → List Token → Worker → Type 0 where
      read_end :
          {ρ : Names} {t : Token} {ts : List Token} {w : Worker}
          → IsEnd t
          → Reads ρ 0 (t ∷ ts) w ts w
      read_int :
          {ρ : Names} {n : ℕ} {t : Token} {ts rest : List Token} {w w' : Worker}
          → IsInt t
          → Reads ρ n ts (pops w (word (xint (string_parse_xint t.string)) ∷ w.value_stack)) rest w'
          → Reads ρ n (t ∷ ts) w rest w'
      read_float :
          {ρ : Names} {n : ℕ} {t : Token} {ts rest : List Token} {w w' : Worker}
          → IsFloat t
          → Reads ρ n ts
              (pops w (word (xfloat (string_parse_double t.string)) ∷ w.value_stack))
              rest
              w'
          → Reads ρ n (t ∷ ts) w rest w'
      read_bind :
          {ρ ρ' : Names} {n : ℕ} {t : Token} {ts ts' rest : List Token} {w w' : Worker}
          {st : List Value} (names : List Token) (close : Token)
          → IsOpen t
          → ts ≡ names ++ close ∷ ts'
          → AllLocal names
          → closes close ≡ true
          → bind_all ρ names w.value_stack ≡ some (ρ', st)
          → Reads ρ' n ts' (pops w st) rest w'
          → Reads ρ (length names + n) (t ∷ ts) w rest w'
      read_variable :
          {ρ : Names} {n : ℕ} {t : Token} {ts rest : List Token} {w w' : Worker} {v : Value}
          → IsName t
          → ρ t.string ≡ some v
          → Reads ρ n ts (pops w (v ∷ w.value_stack)) rest w'
          → Reads ρ n (t ∷ ts) w rest w'
      read_call :
          {ρ : Names} {n : ℕ} {t : Token} {ts rest : List Token} {w w₁ w' : Worker} {g : ℕ}
          → IsName t
          → ρ t.string ≡ none
          → global t.string ≡ some (function g)
          → Runs p g 0 (array_new variable_array_size) w w₁
          → Reads ρ n ts w₁ rest w'
          → Reads ρ n (t ∷ ts) w rest w'
      read_apply :
          {ρ : Names} {n : ℕ} {t : Token} {ts rest : List Token} {w w₁ w' : Worker} {v : Value}
          (k : ℕ)
          → IsName t
          → ρ t.string ≡ none
          → global t.string ≡ some v
          → is_applied v ≡ true
          → ((m : ℕ) (rs : List Frame)
              → k ≤ m
              → worker_apply p (worker_work m p) (at w rs) v ≡ ok (at w₁ rs))
          → Reads ρ n ts w₁ rest w'
          → Reads ρ n (t ∷ ts) w rest w'
      read_constant :
          {ρ : Names} {n : ℕ} {t : Token} {ts rest : List Token} {w w' : Worker} {v : Value}
          → IsName t
          → ρ t.string ≡ none
          → global t.string ≡ some v
          → is_constant v ≡ true
          → Reads ρ n ts (pops w (v ∷ w.value_stack)) rest w'
          → Reads ρ n (t ∷ ts) w rest w'
