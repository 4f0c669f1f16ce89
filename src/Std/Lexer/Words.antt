-- ===== src/Std/Lexer/Words.antt =====
-- Words with spaces between them are read back as they were written.
use inet_forth.Std.CString.{Bytes, isspace, string_starts_with, string_is_xint, string_parse_xint}
use inet_forth.Std.Lexer.{
  TokenKind, generic_token, int_token, float_token, Token, Config, Place, Lexer, max_token_length,
  token_new, step, collect_char, lexer_step, lexer_loop, postprocess_int, postprocess_float,
  lex_config, at_byte,
}
use inet_forth.Base.{
  Bool, List, [], arith, false, if◌then◌else◌, length, le→leb, map, not, ok, refl, suc, true, ℕ,
  ◌&&◌, ◌++◌, ◌+◌, ◌-◌, ◌<◌, ◌∷◌, ◌≡◌, ◌≤◌,
}

abbrev pub no_space : Bytes → Bool
no_space [] = true
no_space (c ∷ cs) = not (isspace c) && no_space cs

-- A word has a first byte, no space in it, and does not start with a quote or a comment.
abbrev pub IsWord : Bytes → Type 0
IsWord w =
    (no_space w ≡ true)
    × (0 < length w)
    × (length w ≤ max_token_length)
    × (at_byte b'"' w ≡ false)
    × (string_starts_with w (b'/' ∷ b'/' ∷ []) ≡ false)

abbrev pub AllWords : List Bytes → Type 0
AllWords [] = Unit {0}
AllWords (w ∷ ws) = IsWord w × AllWords ws

-- Every word with a space behind it.
unfoldable pub spaced : List Bytes → Bytes
spaced [] = []
spaced (w ∷ ws) = w ++ 32 ∷ spaced ws

-- The place behind a text.
unfoldable pub advance : Bytes → Place → Place
unfolding step
advance [] p = p
advance (c ∷ cs) p = advance cs (step c p)

pub collect_char-ok :
    (b : Bytes) (c : ℕ) → length b < max_token_length → collect_char b c ≡ ok (b ++ c ∷ [])
unfolding collect_char
collect_char-ok b c lt =
    rw
      (
        le→leb (length b + 2) (max_token_length + 1) (omega arith),
        le→leb (length b + 1) max_token_length (omega arith),
      )
      refl

abbrev pub with_rest : Bytes → Place → List Token → Lexer
with_rest cs p ts = record { rest = cs; place = p; token_list = ts }

word_token : Bytes → Place → Token
unfolding token_new advance
word_token w p = let q = advance w p in token_new w generic_token (q.cursor - length w) q.cursor q

abbrev pub word_of : Token → Bytes × TokenKind × ℕ
word_of t = (t.string, t.kind, t.number)

abbrev Lexed : ℕ → List Bytes → Place → List Token → Type 0
Lexed f ws p ts =
    (q : Place) × (more : List Token) × (lexer_loop f lex_config (with_rest (spaced ws) p ts)
      ≡ ok (with_rest [] q (ts ++ more)))
    × (map word_of more ≡ map (λ w. (w, generic_token, 0)) ws)

-- One round of the loop.
pub lexer_loop_step :
    (f : ℕ) (k : Config) (c : ℕ) (cs : Bytes) (p : Place) (ts : List Token) {y : Lexer}
    → lexer_step k (with_rest (c ∷ cs) p ts) ≡ ok y
    → lexer_loop (suc f) k (with_rest (c ∷ cs) p ts) ≡ lexer_loop f k y
unfolding lexer_loop
lexer_loop_step f k c cs p ts e = rw e

module _ (string_is_double : Bytes → Bool) (string_parse_double : Bytes → ℕ) where
  -- The kind and the number of a word: an integer where it reads as one, then a float, or neither.
  unfoldable pub reading : Bytes → Bytes × TokenKind × ℕ
  reading w =
      if string_is_xint w
      then (w, int_token, string_parse_xint w)
      else if string_is_double w
      then (w, float_token, string_parse_double w)
      else (w, generic_token, 0)

  abbrev classify : Token → Token
  classify t = postprocess_float string_is_double string_parse_double (postprocess_int t)
