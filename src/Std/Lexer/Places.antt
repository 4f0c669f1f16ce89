-- ===== src/Std/Lexer/Places.antt =====
-- What each loop of the lexer takes off the text, and how the place moves on with it.
use mathlib.Core.List.{append-nil, append_assoc}
use inet_forth.Std.CString.{Bytes, isspace}
use inet_forth.Std.Lexer.{
  Place, step, forward, skip_space, skip_line, string_loop, generic_loop, match_delimiter,
}
use inet_forth.Std.Lexer.Words.{advance}
use inet_forth.Std.Lexer.Outcomes.{
  Ensures, holds, stopped, Ensures-bind, Ensures-mono, unescape-Any, collect_char-Any,
}
use inet_forth.Base.{
  Bool, Bool-cases, List, [], ap, arith, false, if◌then◌else◌, inl, inr, is_some, length, refl, suc,
  sym, true, zero, ℕ, ◌++◌, ◌+◌, ◌==◌, ◌||◌, ◌∙◌, ◌∷◌, ◌≡◌,
}

abbrev pub newlines : Bytes → ℕ
newlines [] = 0
newlines (c ∷ cs) = (if c == b'\n' then 1 else 0) + newlines cs

-- The column behind a text that starts at column `k`.
abbrev pub column_after : ℕ → Bytes → ℕ
column_after k [] = k
column_after k (c ∷ cs) = column_after (if c == b'\n' then 1 else k + 1) cs

-- A loop took `took` off the text, and its place moved on by that.
pub record Took (cs : Bytes) (p : Place) (rest : Bytes) (q : Place) : Type 0 where
  pub took : Bytes
  pub parts : cs ≡ took ++ rest
  pub place : q ≡ advance took p

pub Took-none : (cs : Bytes) (p : Place) → Took cs p cs p
unfolding advance
Took-none cs p = record { took = []; parts = refl; place = refl }

Took-cons :
    (c : ℕ) (cs : Bytes) (p : Place) {rest : Bytes} {q : Place}
    → Took cs (step c p) rest q
    → Took (c ∷ cs) p rest q
unfolding advance
Took-cons c cs p t = record { took = c ∷ t.took; parts = ap (◌∷◌ c) t.parts; place = t.place }

pub advance-append : (us vs : Bytes) (p : Place) → advance (us ++ vs) p ≡ advance vs (advance us p)
unfolding advance
advance-append [] vs p = refl
advance-append (u ∷ us) vs p = advance-append us vs (step u p)

pub Took-trans :
    {cs ds es : Bytes} {p q r : Place} → Took cs p ds q → Took ds q es r → Took cs p es r
Took-trans {es} {p} t u = record {
  took = t.took ++ u.took;
  parts = t.parts ∙ ap (λ xs. t.took ++ xs) u.parts ∙ sym (append_assoc t.took u.took es);
  place = u.place ∙ ap (advance u.took) t.place ∙ sym (advance-append t.took u.took p);
}

pub forward-Took :
    (n : ℕ) (cs : Bytes) (p : Place)
    → Ensures (Unit {0}) (λ (rest, q). Took cs p rest q) (forward n cs p)
unfolding forward
forward-Took zero cs p = holds (Took-none cs p)
forward-Took (suc n) [] p = stopped
forward-Took (suc n) (c ∷ cs) p =
    Ensures-mono (forward-Took n cs (step c p)) λ _ t. Took-cons c cs p t

pub skip_space-Took : (cs : Bytes) (p : Place) → Took cs p (skip_space cs p).0 (skip_space cs p).1
unfolding skip_space
skip_space-Took [] p = Took-none [] p
skip_space-Took (c ∷ cs) p = elim (Bool-cases (isspace c)) [
  | inl e ↦ rw e (Took-cons c cs p (skip_space-Took cs (step c p)))
  | inr e ↦ rw e (Took-none (c ∷ cs) p)
]

Took-if :
    (b : Bool) {cs : Bytes} {p : Place} (x y : Bytes × Place)
    → Took cs p x.0 x.1
    → Took cs p y.0 y.1
    → Took cs p (if b then x else y).0 (if b then x else y).1
Took-if true x y hx hy = hx
Took-if false x y hx hy = hy

pub skip_line-Took : (cs : Bytes) (p : Place) → Took cs p (skip_line cs p).0 (skip_line cs p).1
unfolding skip_line
skip_line-Took [] p = Took-none [] p
skip_line-Took (c ∷ cs) p =
    Took-if (c == b'\n') (cs, step c p) (skip_line cs (step c p))
      (Took-cons c cs p (Took-none cs (step c p))) (Took-cons c cs p (skip_line-Took cs (step c p)))

pub string_loop-Took :
    (cs : Bytes) (p : Place) (b : Bytes)
    → Ensures (Unit {0}) (λ (b', rest, q). Took cs p rest q) (string_loop cs p b)
unfolding string_loop
string_loop-Took [] p b = stopped
string_loop-Took (c ∷ []) p b = elim (Bool-cases (c == b'\\')) [
  | inl e ↦ rw e stopped
  | inr e ↦ elim (Bool-cases (c == b'"')) [
    | inl q ↦ rw (e, q) (holds (Took-none (c ∷ []) p))
    | inr q ↦ rw (e, q) (Ensures-bind _ (collect_char-Any b c λ _. tt) λ _ _. stopped)
  ]
]
string_loop-Took (c ∷ d ∷ cs) p b = elim (Bool-cases (c == b'\\')) [
  | inl e ↦
      rw (e, string_loop)
        (Ensures-bind _ (unescape-Any d) λ x _.
          Ensures-bind _ (collect_char-Any b x λ _. tt) λ b' _.
            Ensures-mono (string_loop-Took cs (step d (step c p)) b')
              λ _ t. Took-cons c (d ∷ cs) p (Took-cons d cs (step c p) t))
  | inr e ↦ elim (Bool-cases (c == b'"')) [
    | inl q ↦ rw (e, string_loop) (rw (q, string_loop) (holds (Took-none (c ∷ d ∷ cs) p)))
    | inr q ↦
        rw (e, string_loop)
          (rw (q, string_loop)
            (Ensures-bind _ (collect_char-Any b c λ _. tt) λ b' _.
              Ensures-mono (string_loop-Took (d ∷ cs) (step c p) b')
                λ _ t. Took-cons c (d ∷ cs) p t))
  ]
]

-- The loop of the generic case puts what it takes into the buffer.
pub generic_loop-Took :
    (ds : List Bytes) (cs : Bytes) (p : Place) (b : Bytes)
    → Ensures
        (Unit {0})
        (λ (b', rest, q). (t : Took cs p rest q) × (b' ≡ b ++ t.took))
        (generic_loop ds cs p b)
unfolding generic_loop Took-none Took-cons
generic_loop-Took ds [] p b = holds (Took-none [] p, sym (append-nil b))
generic_loop-Took ds (c ∷ cs) p b =
    elim (Bool-cases (isspace c || is_some (match_delimiter ds (c ∷ cs)))) [
      | inl e ↦ rw (e, generic_loop) (holds (Took-none (c ∷ cs) p, sym (append-nil b)))
      | inr e ↦
          rw (e, generic_loop)
            (Ensures-bind _ (collect_char-Any b c λ _. tt) λ b' more.
              Ensures-mono (generic_loop-Took ds cs (step c p) b') λ _ (t, same). (
                Took-cons c cs p t,
                same ∙ ap (λ z. z ++ t.took) more ∙ append_assoc b (c ∷ []) t.took,
              ))
    ]

pub advance-cursor : (cs : Bytes) (p : Place) → (advance cs p).cursor ≡ p.cursor + length cs
unfolding advance step
advance-cursor [] p = omega arith
advance-cursor (c ∷ cs) p = ground (arith, advance-cursor cs (step c p))

pub advance-lineno : (cs : Bytes) (p : Place) → (advance cs p).lineno ≡ p.lineno + newlines cs
unfolding advance step
advance-lineno [] p = omega arith
advance-lineno (c ∷ cs) p = ground (arith, advance-lineno cs (step c p))

step-column : (c : ℕ) (p : Place) → (step c p).column ≡ (if c == b'\n' then 1 else p.column + 1)
unfolding step
step-column c p = ground arith

pub advance-column : (cs : Bytes) (p : Place) → (advance cs p).column ≡ column_after p.column cs
unfolding advance
advance-column [] p = refl
advance-column (c ∷ cs) p =
    advance-column cs (step c p) ∙ ap (λ k. column_after k cs) (step-column c p)
