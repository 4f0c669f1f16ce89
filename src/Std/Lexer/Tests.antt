-- ===== src/Std/Lexer/Tests.antt =====
-- The lexer at concrete texts.
use inet_forth.Std.CString.{Bytes, string_has_char}
use inet_forth.Std.Lexer.{
  collect_char, string_token, generic_token, int_token, Token, lexer_run, lex_code, lex_config,
}
use inet_forth.Std.Lexer.Quotes.{escaped, quoted, lex_code-quoted}
use inet_forth.Std.Lexer.Spans.{lexer_run-AllLocated}
use inet_forth.Std.Lexer.Located.{AllLocated}
use inet_forth.Base.{
  Bool, List, [], arith, dangling, err, length, ok, refl, replicate, ◌+◌, ◌-◌, ◌∷◌, ◌≡◌,
}

-- In place of the tests of `strtod`: a text with a point in it is a number, of as many units as bytes.
abbrev has_point : Bytes → Bool
has_point s = string_has_char s b'.'

-- 12 add 1.5
abbrev sum_words : List Bytes
sum_words = (b'1' ∷ b'2' ∷ []) ∷ (b'a' ∷ b'd' ∷ b'd' ∷ []) ∷ (b'1' ∷ b'.' ∷ b'5' ∷ []) ∷ []

-- An unclosed quote.
-- The byte behind a full buffer's last is written.
overruns : collect_char (replicate 1024 b'a') b'a' ≡ err dangling
unfolding collect_char
overruns = refl

abbrev open_quote : Bytes
open_quote = b'"' ∷ b'a' ∷ []

-- a, a newline, a quote.
abbrev line_text : Bytes
line_text = b'a' ∷ b'\n' ∷ b'"' ∷ []

lex_code-quoted_example :
    (t : Token) × (lex_code has_point length (quoted line_text) ≡ ok (t ∷ []))
    × (t.string ≡ line_text)
    × (t.kind ≡ string_token)
    × (t.end ≡ 1 + length (escaped line_text))
    × (t.start ≡ 1 + length (escaped line_text) - length line_text)
lex_code-quoted_example = lex_code-quoted has_point length line_text refl (omega arith)

-- 7, a newline, ab
abbrev two_lines : Bytes
two_lines = b'7' ∷ b'\n' ∷ b'a' ∷ b'b' ∷ []

abbrev two_tokens : List Token
two_tokens =
    record {
      string = b'7' ∷ [];
      kind = int_token;
      start = 0;
      end = 1;
      lineno = 1;
      column = 2;
      number = 7;
    }
    ∷ record {
      string = b'a' ∷ b'b' ∷ [];
      kind = generic_token;
      start = 2;
      end = 4;
      lineno = 2;
      column = 3;
      number = 0;
    }
    ∷ []

two_lines_run : lexer_run has_point length lex_config two_lines ≡ ok two_tokens
unfolding lexer_run string_has_char
two_lines_run = refl

lexer_run-AllLocated_example : AllLocated two_lines two_tokens
lexer_run-AllLocated_example =
    lexer_run-AllLocated has_point length lex_config two_lines two_lines_run
