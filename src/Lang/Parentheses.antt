-- ===== src/Lang/Parentheses.antt =====
-- src/lang/compile_one.c, `compile_bind`: the names that the first loop collects, against the text
-- between the parentheses.
use inet_forth.Std.CString.{Bytes}
use inet_forth.Std.Lexer.{Token}
use inet_forth.Net.{Value}
use inet_forth.Lang.{collect_locals}
use inet_forth.Lang.Locals.{Names, bound}
use inet_forth.Lang.Reading.{bind_top, bind_all, closes, AllLocal}
use inet_forth.Lang.Binding.{take_names}
use inet_forth.Base.{
  List, Option, [], ap, arith, length, none, ok, refl, some, true, ◌++◌, ◌+◌, ◌∙◌, ◌∷◌, ◌≡◌,
}

-- The texts of the tokens, the last one first, before those collected already.
abbrev pub popped : List Token → List Bytes → List Bytes
popped [] names = names
popped (t ∷ ts) names = popped ts (t.string ∷ names)

pub length-popped :
    (ts : List Token) (names : List Bytes) → length (popped ts names) ≡ length ts + length names
length-popped [] names = omega arith
length-popped (t ∷ ts) names = omega (arith, length-popped ts (t.string ∷ names))

-- The loop takes the names up to the closing parenthesis, and leaves the text behind it.
pub collect_locals-popped :
    (ts : List Token) (close : Token) (rest : List Token) (names : List Bytes)
    → AllLocal ts
    → closes close ≡ true
    → collect_locals (ts ++ close ∷ rest) names ≡ ok (popped ts names, rest)
unfolding collect_locals
collect_locals-popped [] close rest names all_local is_close = rw (is_close, collect_locals) refl
collect_locals-popped (t ∷ ts) close rest names all_local is_close =
    rw (all_local.0, collect_locals)
      (collect_locals-popped ts close rest (t.string ∷ names) all_local.1 is_close)

bind_top-some :
    (x : Bytes) (o : Option (Names × List Value)) {out : Names × List Value}
    → bind_top x o ≡ some out
    → (ρ : Names) × (v : Value) × (st : List Value) × (o ≡ some (ρ, v ∷ st))
      × ((bound ρ x v, st) ≡ out)
bind_top-some x none e = cc
bind_top-some x (some (ρ, [])) e = cc
bind_top-some x (some (ρ, v ∷ st)) {out} e = (ρ, v, st, refl, ap (from_some out) e)
  where
    from_some : Names × List Value → Option (Names × List Value) → Names × List Value
    from_some d none = d
    from_some d (some o) = o

-- Taking the names as they are popped binds them from the last of the text to the first.
pub take_names-popped :
    (ts : List Token) (names : List Bytes) (ρ : Names) (st : List Value) {out : Names × List Value}
    → bind_all ρ ts st ≡ some out
    → take_names ρ (popped ts names) st ≡ take_names out.0 names out.1
take_names-popped [] names ρ st {out} e = ap (λ o. again o) e
  where
    again : Option (Names × List Value) → Option (Names × List Value)
    again none = none
    again (some o) = take_names o.0 names o.1
take_names-popped (t ∷ ts) names ρ st {out} e =
    let (ρ', v, st', inner, last) = bind_top-some t.string (bind_all ρ ts st) e in
    take_names-popped ts (t.string ∷ names) ρ st inner ∙ ap (λ o. take_names o.0 names o.1) last
