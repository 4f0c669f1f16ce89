-- ===== src/Std/Lexer/Outcomes.antt =====
-- src/packages/std/lexer/lexer.c: how a step of the lexer may end, with the two functions that may stop it
-- at one byte.
use inet_forth.Std.CString.{Bytes}
use inet_forth.Std.Lexer.{collect_char, max_token_length, unescape}
use inet_forth.Base.{
  Bool, Bool-cases, Result, [], arith, assertion, dangling, err, false, if◌then◌else◌, inl, inr,
  leb, length, le→leb, ok, refl, true, ℕ, ◌++◌, ◌+◌, ◌==◌, ◌>>=◌, ◌∷◌, ◌≡◌, ◌≤◌,
}

-- The run gave a value with the property, or an assertion stopped it, or, only where `O` holds, a
-- write past the buffer.
pub data Ensures {A : Type 0} (O : Type 0) (P : A → Type 0) : Result A → Type 0 where
  holds : {a : A} → P a → Ensures O P (ok a)
  stopped : Ensures O P (err assertion)
  overrun : O → Ensures O P (err dangling)

pub Ensures-bind :
    {A B : Type 0} {O : Type 0} {P : A → Type 0} {Q : B → Type 0} {r : Result A} (f : A → Result B)
    → Ensures O P r
    → ((a : A) → P a → Ensures O Q (f a))
    → Ensures O Q (r >>= f)
Ensures-bind f (holds {a} h) k = k a h
Ensures-bind f stopped k = stopped
Ensures-bind f (overrun o) k = overrun o

pub Ensures-mono :
    {A : Type 0} {O : Type 0} {P Q : A → Type 0} {r : Result A}
    → Ensures O P r
    → ((a : A) → P a → Q a)
    → Ensures O Q r
Ensures-mono (holds {a} h) k = holds (k a h)
Ensures-mono stopped k = stopped
Ensures-mono (overrun o) k = overrun o

pub Ensures-if :
    {A : Type 0} {O : Type 0} {P : A → Type 0} (b : Bool) {x y : Result A}
    → Ensures O P x
    → Ensures O P y
    → Ensures O P (if b then x else y)
Ensures-if true hx hy = hx
Ensures-if false hx hy = hy

abbrev pub Any : {A : Type 0} → A → Type 0
Any a = Unit {0}

pub collect_char-Any :
    {O : Type 0} (b : Bytes) (c : ℕ)
    → (max_token_length ≤ length b → O)
    → Ensures O (λ b'. b' ≡ b ++ c ∷ []) (collect_char b c)
unfolding collect_char
collect_char-Any b c o = elim (Bool-cases (leb (length b + 2) (max_token_length + 1))) [
  | inl e ↦ rw (e, le→leb (length b + 1) max_token_length (ground arith)) (holds refl)
  | inr e ↦ rw e (overrun (o (ground arith)))
]

pub unescape-Any : {O : Type 0} (c : ℕ) → Ensures O Any (unescape c)
unfolding unescape
unescape-Any c = Ensures-if (c == b'n') (holds tt) (
    Ensures-if (c == b't') (holds tt) (
      Ensures-if (c == b'b') (holds tt) (
        Ensures-if (c == b'f') (holds tt) (
          Ensures-if (c == b'r') (holds tt) (
            Ensures-if (c == b'0') (holds tt)
              (Ensures-if (c == b'"') (holds tt) (Ensures-if (c == b'\\') (holds tt) stopped)))))))
