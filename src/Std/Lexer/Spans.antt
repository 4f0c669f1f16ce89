-- ===== src/Std/Lexer/Spans.antt =====
-- Where the tokens stand in the text.
use inet_forth.Std.CString.{Bytes, string_is_xint, string_parse_xint}
use inet_forth.Std.Lexer.{
  TokenKind, int_token, float_token, Token, Config, Place, Lexer, lexer_init, lexer_step,
  lexer_loop, lexer_run, is_generic, postprocess_int, postprocess_float,
}
use inet_forth.Std.Lexer.Words.{with_rest}
use inet_forth.Std.Lexer.Outcomes.{Ensures, holds, stopped, overrun}
use inet_forth.Std.Lexer.Places.{Took-none}
use inet_forth.Base.{
  >>=-eq-ok, Bool, Bool-cases, List, Result, [], ap, arith, false, if◌then◌else◌, inl, inr, length,
  map, ok, ok-injective, subst, suc, true, zero, ℕ, ◌&&◌, ◌∷◌, ◌≡◌,
}
use inet_forth.Std.Lexer.Located.{IsLocated, AllLocated, IsAt, lexer_step-IsAt}

Ensures-ok :
    {A : Type 0} {P : A → Type 0} {r : Result A} {a : A} → Ensures (Unit {0}) P r → r ≡ ok a → P a
Ensures-ok {P} (holds h) e = subst P (ok-injective e) h
Ensures-ok stopped e = cc
Ensures-ok (overrun o) e = cc

-- If the loop stops with a state, the tokens in it are located.
lexer_loop-IsAt :
    (f : ℕ) (k : Config) (code cs : Bytes) (p : Place) (ts : List Token) (y : Lexer)
    → IsAt code (with_rest cs p ts)
    → lexer_loop f k (with_rest cs p ts) ≡ ok y
    → IsAt code y
unfolding lexer_loop
lexer_loop-IsAt zero k code [] p ts y h run = subst (IsAt code) (ok-injective run) h
lexer_loop-IsAt zero k code (c ∷ cs) p ts y h run = cc
lexer_loop-IsAt (suc f) k code [] p ts y h run = subst (IsAt code) (ok-injective run) h
lexer_loop-IsAt (suc f) k code (c ∷ cs) p ts y h run =
    let (z, first, later) = >>=-eq-ok (lexer_step k (with_rest (c ∷ cs) p ts)) _ run in
    lexer_loop-IsAt f k code z.rest z.place z.token_list y
      (Ensures-ok (lexer_step-IsAt k code (with_rest (c ∷ cs) p ts) h) first) later

-- A generic token that is found to be a number stays where it is.
relabel-IsLocated :
    (code : Bytes) (t : Token) (kind : TokenKind) (n : ℕ)
    → is_generic t.kind ≡ true
    → IsLocated code t
    → IsLocated code (record t { kind = kind; number = n })
relabel-IsLocated code t kind n generic h = record {
  before = h.before;
  after = h.after;
  split = h.split;
  at_end = h.at_end;
  line = h.line;
  col = h.col;
  spelled = elim h.spelled [
    | inl string ↦ absurd (cc (ap is_generic string, generic))
    | inr there ↦ inr there
  ];
}

postprocess_int-IsLocated :
    (code : Bytes) (t : Token) → IsLocated code t → IsLocated code (postprocess_int t)
unfolding postprocess_int
postprocess_int-IsLocated code t h =
    elim (Bool-cases (is_generic t.kind && string_is_xint t.string)) [
      | inl e ↦
          rw e (relabel-IsLocated code t int_token (string_parse_xint t.string) (ground arith) h)
      | inr e ↦ rw e h
    ]

module _ (string_is_double : Bytes → Bool) (string_parse_double : Bytes → ℕ) where
  postprocess_float-IsLocated :
      (code : Bytes) (t : Token)
      → IsLocated code t
      → IsLocated code (postprocess_float string_is_double string_parse_double t)
  unfolding postprocess_float
  postprocess_float-IsLocated code t h =
      elim (Bool-cases (is_generic t.kind && string_is_double t.string)) [
        | inl e ↦
            rw e
              (relabel-IsLocated code t float_token (string_parse_double t.string) (ground arith) h)
        | inr e ↦ rw e h
      ]

  AllLocated-map :
      (code : Bytes) (g : Token → Token) (ts : List Token)
      → ((t : Token) → IsLocated code t → IsLocated code (g t))
      → AllLocated code ts
      → AllLocated code (map g ts)
  AllLocated-map code g [] keeps h = tt
  AllLocated-map code g (t ∷ ts) keeps h = (keeps t h.0, AllLocated-map code g ts keeps h.1)

  AllLocated-if :
      (code : Bytes) (b : Bool) (us vs : List Token)
      → AllLocated code us
      → AllLocated code vs
      → AllLocated code (if b then us else vs)
  AllLocated-if code true us vs hu hv = hu
  AllLocated-if code false us vs hu hv = hv

  -- Every token that the lexer gives is located: it ends where its `end` says, on the line and the
  -- column that it says, and but for string tokens the bytes from `start` to `end` are its text.
  pub lexer_run-AllLocated :
      (k : Config) (code : Bytes) {ts : List Token}
      → lexer_run string_is_double string_parse_double k code ≡ ok ts
      → AllLocated code ts
  unfolding lexer_run
  lexer_run-AllLocated k code run =
      let (y, looped, rest) =
        >>=-eq-ok (lexer_loop (length code) k (with_rest code lexer_init [])) _ run in
      let start : IsAt code (with_rest code lexer_init []) = record {
        read = Took-none code lexer_init;
        tokens = tt;
      } in
      let tokens =
        (lexer_loop-IsAt (length code) k code code lexer_init [] y start looped).tokens in
      let ints =
        AllLocated-if code k.enable_int _ _
          (AllLocated-map code postprocess_int y.token_list (postprocess_int-IsLocated code) tokens)
          tokens in
      subst (AllLocated code) (ok-injective rest) (
        AllLocated-if code k.enable_float _ _
          (AllLocated-map code (postprocess_float string_is_double string_parse_double) _
            (postprocess_float-IsLocated code) ints)
          ints)
