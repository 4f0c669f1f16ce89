-- ===== src/Std/Lexer/Quotes.antt =====
-- A text that is written between quotes, with escapes, is read back as one string token.
use mathlib.Core.List.{append-nil, append_assoc}
use inet_forth.Std.CString.{Bytes}
use inet_forth.Std.Lexer.{
  string_token, Token, Config, Place, max_token_length, token_new, step, before_nul, unescape,
  string_loop, collect_string, lexer_step, lexer_loop, lex_config, lex_code, lexer_run, lexer_init,
}
use inet_forth.Std.Lexer.Words.{advance, collect_char-ok, with_rest, lexer_loop_step}
use inet_forth.Base.{
  ==_iff, Bool, Bool-cases, List, [], ap, arith, if◌then◌else◌, inl, inr, length, length-append,
  not, ok, refl, suc, true, zero, ℕ, ◌&&◌, ◌++◌, ◌+◌, ◌-◌, ◌<◌, ◌==◌, ◌∙◌, ◌∷◌, ◌≡◌, ◌≤◌,
}

-- How a byte is written between quotes.
unfoldable pub escaped_byte : ℕ → Bytes
escaped_byte c =
    if c == b'\n'
    then b'\\' ∷ b'n' ∷ []
    else if c == b'"'
    then b'\\' ∷ b'"' ∷ []
    else if c == b'\\'
    then b'\\' ∷ b'\\' ∷ []
    else c ∷ []

unfoldable pub escaped : Bytes → Bytes
unfolding escaped_byte
escaped [] = []
escaped (c ∷ cs) = escaped_byte c ++ escaped cs

escaped_byte-read :
    (c : ℕ) (p : Place) (b : Bytes) (d : ℕ) (ds : Bytes)
    → length b < max_token_length
    → string_loop (escaped_byte c ++ d ∷ ds) p b
      ≡ string_loop (d ∷ ds) (advance (escaped_byte c) p) (b ++ c ∷ [])
unfolding string_loop escaped_byte advance unescape
escaped_byte-read c p b d ds fits = elim (Bool-cases (c == b'\n')) [
  | inl e ↦
      let it : c ≡ b'\n' = (==_iff c b'\n').0 e in
      rw (e, string_loop) (rw (collect_char-ok b b'\n' fits, it) refl)
  | inr not_newline ↦ elim (Bool-cases (c == b'"')) [
    | inl e ↦
        let it : c ≡ b'"' = (==_iff c b'"').0 e in
        rw (not_newline, e, string_loop) (rw (collect_char-ok b b'"' fits, it) refl)
    | inr not_quote ↦ elim (Bool-cases (c == b'\\')) [
      | inl e ↦
          let it : c ≡ b'\\' = (==_iff c b'\\').0 e in
          rw (not_newline, not_quote, e, string_loop) (rw (collect_char-ok b b'\\' fits, it) refl)
      | inr plain ↦
          rw (not_newline, not_quote, plain)
            (rw (plain, string_loop)
              (rw (not_quote, string_loop) (rw (collect_char-ok b c fits) refl)))
    ]
  ]
]

advance-append : (us vs : Bytes) (p : Place) → advance (us ++ vs) p ≡ advance vs (advance us p)
unfolding advance
advance-append [] vs p = refl
advance-append (u ∷ us) vs p = advance-append us vs (step u p)

escaped_byte-cons : (c : ℕ) → (d : ℕ) × (ds : Bytes) × (escaped_byte c ≡ d ∷ ds)
unfolding escaped_byte
escaped_byte-cons c = elim (Bool-cases (c == b'\n')) [
  | inl e ↦ (b'\\', b'n' ∷ [], rw e)
  | inr e ↦ elim (Bool-cases (c == b'"')) [
    | inl e' ↦ (b'\\', b'"' ∷ [], rw (e, e'))
    | inr e' ↦ elim (Bool-cases (c == b'\\')) [
      | inl f ↦ (b'\\', b'\\' ∷ [], rw (e, e', f))
      | inr f ↦ (c, [], rw (e, e', f))
    ]
  ]
]

-- Something stands before the end of a quoted text: a byte of it, or the closing quote.
escaped-cons : (cs rest : Bytes) → (d : ℕ) × (ds : Bytes) × (escaped cs ++ b'"' ∷ rest ≡ d ∷ ds)
unfolding escaped
escaped-cons [] rest = (b'"', rest, refl)
escaped-cons (c ∷ cs) rest =
    let (d, ds, e) = escaped_byte-cons c in (d, (ds ++ escaped cs) ++ b'"' ∷ rest, rw e)

at_quote :
    (rest : Bytes) (p : Place) (b : Bytes) → string_loop (b'"' ∷ rest) p b ≡ ok (b, b'"' ∷ rest, p)
unfolding string_loop
at_quote [] p b = refl
at_quote (c ∷ cs) p b = refl

-- The loop reads an escaped text up to the closing quote.
string_loop_lem :
    (cs : Bytes) (p : Place) (b rest : Bytes)
    → length b + length cs ≤ max_token_length
    → string_loop (escaped cs ++ b'"' ∷ rest) p b
      ≡ ok (b ++ cs, b'"' ∷ rest, advance (escaped cs) p)
unfolding escaped advance
string_loop_lem [] p b rest fits = rw append-nil (at_quote rest p b)
string_loop_lem (c ∷ cs) p b rest fits =
    let (d, ds, e) = escaped-cons cs rest in
    rw (append_assoc (escaped_byte c) (escaped cs) (b'"' ∷ rest), e)
      (escaped_byte-read c p b d ds (omega arith)
        ∙ rw (← e) (
            string_loop_lem cs (advance (escaped_byte c) p) (b ++ c ∷ []) rest
              (omega (arith, length-append b (c ∷ [])))
            ∙ rw (append_assoc b (c ∷ []) cs, advance-append (escaped_byte c) (escaped cs) p)))

abbrev pub no_nul : Bytes → Bool
no_nul [] = true
no_nul (c ∷ cs) = not (c == 0) && no_nul cs

pub before_nul-eq : (cs : Bytes) → no_nul cs ≡ true → before_nul cs ≡ cs
unfolding before_nul
before_nul-eq [] h = refl
before_nul-eq (c ∷ cs) h = ground (arith, before_nul-eq cs (ground arith))

-- The place behind a text that starts at the beginning of the file.
advance-cursor : (cs : Bytes) (p : Place) → (advance cs p).cursor ≡ p.cursor + length cs
unfolding advance step
advance-cursor [] p = omega arith
advance-cursor (c ∷ cs) p = ground (arith, advance-cursor cs (step c p))

unfoldable pub quoted : Bytes → Bytes
unfolding escaped
quoted s = b'"' ∷ (escaped s ++ b'"' ∷ [])

abbrev quoted_token : Bytes → Place → Token
quoted_token s p =
    let q = advance (b'"' ∷ escaped s) p in
    token_new s string_token (q.cursor - length s) q.cursor q

lexer_step-quoted :
    (s : Bytes) (p : Place) (ts : List Token)
    → no_nul s ≡ true
    → length s ≤ max_token_length
    → lexer_step lex_config (with_rest (quoted s) p ts)
      ≡ ok (with_rest [] (step b'"' (advance (b'"' ∷ escaped s) p)) (ts ++ quoted_token s p ∷ []))
unfolding lexer_step collect_string quoted advance
lexer_step-quoted s p ts plain fits =
    rw (string_loop_lem s (step b'"' p) [] [] (omega arith)) (rw (before_nul-eq s plain))

lexer_loop_done :
    (f : ℕ) (k : Config) (p : Place) (ts : List Token)
    → lexer_loop f k (with_rest [] p ts) ≡ ok (with_rest [] p ts)
unfolding lexer_loop
lexer_loop_done zero k p ts = refl
lexer_loop_done (suc f) k p ts = refl

whole :
    (s : Bytes) (q : Place) (ts : List Token)
    → lexer_step lex_config (with_rest (quoted s) lexer_init []) ≡ ok (with_rest [] q ts)
    → lexer_loop (length (quoted s)) lex_config (with_rest (quoted s) lexer_init [])
      ≡ ok (with_rest [] q ts)
unfolding quoted
whole s q ts run =
    let rounds = length (escaped s ++ b'"' ∷ []) in
    lexer_loop_step rounds lex_config b'"' (escaped s ++ b'"' ∷ []) lexer_init [] run
    ∙ lexer_loop_done rounds lex_config q ts

module _ (string_is_double : Bytes → Bool) (string_parse_double : Bytes → ℕ) where
  -- A text with no NUL that fits the buffer, written between quotes with its newlines, quotes and
  -- backslashes escaped, is lexed to one string token that holds the text. The token ends at the
  -- closing quote, and its start is put as many bytes before that as the text has, not counting the
  -- backslashes.
  pub lex_code-quoted :
      (s : Bytes)
      → no_nul s ≡ true
      → length s ≤ max_token_length
      → (t : Token) × (lex_code string_is_double string_parse_double (quoted s) ≡ ok (t ∷ []))
        × (t.string ≡ s)
        × (t.kind ≡ string_token)
        × (t.end ≡ 1 + length (escaped s))
        × (t.start ≡ 1 + length (escaped s) - length s)
  unfolding lex_code lexer_run token_new
  lex_code-quoted s plain fits =
      let t : Token = quoted_token s lexer_init in
      let at_end : (advance (b'"' ∷ escaped s) lexer_init).cursor ≡ 1 + length (escaped s) =
        omega (arith, advance-cursor (b'"' ∷ escaped s) lexer_init) in
      let run = lexer_step-quoted s lexer_init [] plain fits in
      (t, rw (whole s _ _ run), refl, refl, at_end, ap (λ x. x - length s) at_end)
