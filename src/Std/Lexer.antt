-- ===== src/Std/Lexer.antt =====
-- src/packages/std/lexer/lexer.c and token.c: the lexer. The lexer's text is kept as `rest`, the bytes
-- from the cursor on, so that `is_finished` is that none is left and `current_char` is their first, or
-- NUL. `strtod` and its test are parameters. The buffer is the list of its bytes up to the NUL.
use inet_forth.Std.CString.{Bytes, isspace, string_starts_with, string_is_xint, string_parse_xint}
use inet_forth.Base.{
  Bool, List, Option, Result, [], assertion, check, dangling, err, false, if◌then◌else◌, is_some,
  leb, length, map, none, ok, out_of_fuel, some, suc, true, zero, ℕ, ◌&&◌, ◌++◌, ◌+◌, ◌-◌, ◌==◌,
  ◌||◌, ◌∷◌, ◌>>=◌, ◌>>◌,
}
pub mod Outcomes
pub mod Places
pub mod Located
pub mod Spans
pub mod Words
pub mod Ends
pub mod Quotes
pub mod Tests

abbrev pub max_token_length : ℕ
max_token_length = 1024

pub data TokenKind : Type 0 where
  generic_token delimiter_token int_token float_token string_token : TokenKind

-- `int_value` and `float_value` share their place; both are patterns of 64 bits.
pub record Token : Type 0 where
  pub string : Bytes
  pub kind : TokenKind
  pub start : ℕ
  pub end : ℕ
  pub lineno : ℕ
  pub column : ℕ
  pub number : ℕ

-- What the caller of the lexer sets.
pub record Config : Type 0 where
  pub line_comment : Option Bytes
  pub delimiter_list : List Bytes
  pub enable_int : Bool
  pub enable_float : Bool
  pub enable_string : Bool

-- `new` gives zeroed memory.
unfoldable pub lexer_new : Config
lexer_new = record {
  line_comment = none;
  delimiter_list = [];
  enable_int = false;
  enable_float = false;
  enable_string = false;
}

unfoldable pub lexer_add_delimiter : Config → Bytes → Config
lexer_add_delimiter k delimiter = record k { delimiter_list = k.delimiter_list ++ delimiter ∷ [] }

pub record Place : Type 0 where
  pub cursor : ℕ
  pub lineno : ℕ
  pub column : ℕ

pub record Lexer : Type 0 where
  pub rest : Bytes
  pub place : Place
  pub token_list : List Token

-- `lexer_init`
abbrev pub lexer_init : Place
lexer_init = record { cursor = 0; lineno = 1; column = 1 }

unfoldable pub token_new : Bytes → TokenKind → (start end : ℕ) → Place → Token
token_new string kind start end p = record {
  string = string;
  kind = kind;
  start = start;
  end = end;
  lineno = p.lineno;
  column = p.column;
  number = 0;
}

-- The first delimiter of the list that the text starts with.
unfoldable pub match_delimiter : List Bytes → Bytes → Option Bytes
unfolding string_starts_with
match_delimiter [] text = none
match_delimiter (d ∷ ds) text =
    let later = match_delimiter ds text in if string_starts_with text d then some d else later

-- `step` over the byte `c`.
unfoldable pub step : ℕ → Place → Place
step c p =
    if c == b'\n'
    then record { cursor = p.cursor + 1; lineno = p.lineno + 1; column = 1 }
    else record { cursor = p.cursor + 1; lineno = p.lineno; column = p.column + 1 }

-- `forward`: `step` asserts that a byte is left.
unfoldable pub forward : ℕ → Bytes → Place → Result (Bytes × Place)
unfolding step
forward zero cs p = ok (cs, p)
forward (suc n) [] p = err assertion
forward (suc n) (c ∷ cs) p = forward n cs (step c p)

-- The loop of `ignore_space`.
unfoldable pub skip_space : Bytes → Place → Bytes × Place
unfolding isspace step
skip_space [] p = ([], p)
skip_space (c ∷ cs) p = if isspace c then skip_space cs (step c p) else (c ∷ cs, p)

-- The loop of `ignore_comment`, up to the newline and past it.
unfoldable pub skip_line : Bytes → Place → Bytes × Place
unfolding step
skip_line [] p = ([], p)
skip_line (c ∷ cs) p =
    let more = skip_line cs (step c p) in if c == b'\n' then (cs, step c p) else more

-- `collect_char`: the buffer has `MAX_TOKEN_LENGTH + 1` bytes, and the byte and a NUL behind it are
-- written before the assertion.
unfoldable pub collect_char : Bytes → ℕ → Result Bytes
collect_char buffer c =
    if leb (length buffer + 2) (max_token_length + 1)
    then (do check (leb (length buffer + 1) max_token_length); ok (buffer ++ c ∷ []))
    else err dangling

-- `string_copy(self->buffer)`: the bytes before the first NUL, which an escape may have put there.
unfoldable pub before_nul : Bytes → Bytes
before_nul [] = []
before_nul (c ∷ cs) = if c == 0 then [] else c ∷ before_nul cs

-- The byte that an escape stands for.
unfoldable pub unescape : ℕ → Result ℕ
unescape c =
    if c == b'n'
    then ok b'\n'
    else if c == b't'
    then ok b'\t'
    else if c == b'b'
    then ok 8
    else if c == b'f'
    then ok 12
    else if c == b'r'
    then ok b'\r'
    else if c == b'0'
    then ok 0
    else if c == b'"'
    then ok b'"'
    else if c == b'\\'
    then ok b'\\'
    else err assertion

-- The loop of `collect_string`, up to the closing quote. At the end of the text it fails, behind a
-- backslash too, where `current_char` is NUL, which is no escape.
unfoldable pub string_loop : Bytes → Place → Bytes → Result (Bytes × Bytes × Place)
unfolding step collect_char unescape
string_loop [] p buffer = err assertion
string_loop (c ∷ []) p buffer =
    if c == b'\\'
    then err assertion
    else if c == b'"'
    then ok (buffer, c ∷ [], p)
    else (do _ ← collect_char buffer c; err assertion)
string_loop (c ∷ d ∷ cs) p buffer = elim (c == b'\\') [
  | true ↦ (do e ← unescape d; b ← collect_char buffer e; string_loop cs (step d (step c p)) b)
  | false ↦ elim (c == b'"') [
    | true ↦ ok (buffer, c ∷ d ∷ cs, p)
    | false ↦ (do b ← collect_char buffer c; string_loop (d ∷ cs) (step c p) b)
  ]
]

-- The loop of `collect_generic`.
unfoldable pub generic_loop : List Bytes → Bytes → Place → Bytes → Result (Bytes × Bytes × Place)
unfolding isspace match_delimiter step collect_char
generic_loop ds [] p buffer = ok (buffer, [], p)
generic_loop ds (c ∷ cs) p buffer = elim (isspace c || is_some (match_delimiter ds (c ∷ cs))) [
  | true ↦ ok (buffer, c ∷ cs, p)
  | false ↦ (do b ← collect_char buffer c; generic_loop ds cs (step c p) b)
]

-- Whether the text starts with the byte; NUL, at its end, is none of the bytes asked for.
abbrev pub at_byte : ℕ → Bytes → Bool
at_byte b [] = false
at_byte b (c ∷ cs) = c == b

abbrev pub at_space : Bytes → Bool
at_space [] = false
at_space (c ∷ cs) = isspace c

abbrev pub at_comment : Config → Bytes → Bool
at_comment k text = elim k.line_comment [ none ↦ false | some l ↦ string_starts_with text l ]

abbrev pub comment_length : Config → ℕ
comment_length k = elim k.line_comment [ none ↦ 0 | some l ↦ length l ]

unfoldable pub ignore_comment : Config → Lexer → Result Lexer
unfolding forward skip_line
ignore_comment k x = do
  (text, p) ← forward (comment_length k) x.rest x.place
  let (rest, q) = skip_line text p
  ok (record x { rest = rest; place = q })

unfoldable pub collect_delimiter : Lexer → Bytes → Result Lexer
unfolding forward token_new
collect_delimiter x d = do
  (rest, p) ← forward (length d) x.rest x.place
  ok (record {
    rest = rest;
    place = p;
    token_list =
        x.token_list
        ++ token_new d delimiter_token x.place.cursor (x.place.cursor + length d) p ∷ [];
  })

-- `size_t start = end - string_length(self->buffer)`, which an escape makes too large, since it takes
-- more bytes of the text than of the buffer.
unfoldable pub collect_string : Lexer → Result Lexer
unfolding forward string_loop before_nul token_new
collect_string x = do
  (text, p) ← forward 1 x.rest x.place
  (buffer, stop, q) ← string_loop text p []
  let string = before_nul buffer
  (rest, r) ← forward 1 stop q
  ok (record {
    rest = rest;
    place = r;
    token_list =
        x.token_list ++ token_new string string_token (q.cursor - length string) q.cursor q ∷ [];
  })

unfoldable pub collect_generic : Config → Lexer → Result Lexer
unfolding generic_loop token_new
collect_generic k x = do
  (buffer, rest, p) ← generic_loop k.delimiter_list x.rest x.place []
  ok (record {
    rest = rest;
    place = p;
    token_list =
        x.token_list ++ token_new buffer generic_token (p.cursor - length buffer) p.cursor p ∷ [];
  })

unfoldable pub lexer_step : Config → Lexer → Result Lexer
unfolding skip_space ignore_comment match_delimiter collect_delimiter collect_string collect_generic
lexer_step k x =
    if at_space x.rest
    then (let (rest, p) = skip_space x.rest x.place in ok (record x { rest = rest; place = p }))
    else if at_comment k x.rest
    then ignore_comment k x
    else elim (match_delimiter k.delimiter_list x.rest) [
      | some d ↦ collect_delimiter x d
      | none ↦
          if k.enable_string && at_byte b'"' x.rest then collect_string x else collect_generic k x
    ]

-- `while (!is_finished(self)) lexer_step(self)`
unfoldable pub lexer_loop : ℕ → Config → Lexer → Result Lexer
unfolding lexer_step
lexer_loop zero k x = elim x.rest [ [] ↦ ok x | _ ∷ _ ↦ err out_of_fuel ]
lexer_loop (suc f) k x = elim x.rest [
  | [] ↦ ok x
  | _ ∷ _ ↦ (do y ← lexer_step k x; lexer_loop f k y)
]

abbrev pub is_generic : TokenKind → Bool
is_generic generic_token = true
is_generic _ = false

unfoldable pub postprocess_int : Token → Token
unfolding string_is_xint string_parse_xint
postprocess_int t =
    if is_generic t.kind && string_is_xint t.string
    then record t { kind = int_token; number = string_parse_xint t.string }
    else t

-- `lex_code` of src/core/worker.c.
abbrev pub lex_config : Config
lex_config = record {
  line_comment = some (b'/' ∷ b'/' ∷ []);
  delimiter_list = [];
  enable_int = true;
  enable_float = true;
  enable_string = true;
}

module _ (string_is_double : Bytes → Bool) (string_parse_double : Bytes → ℕ) where
  unfoldable pub postprocess_float : Token → Token
  postprocess_float t =
      if is_generic t.kind && string_is_double t.string
      then record t { kind = float_token; number = string_parse_double t.string }
      else t

  -- Each step takes a byte at least, so that as many steps as there are bytes are enough.
  unfoldable pub lexer_run : Config → Bytes → Result (List Token)
  unfolding lexer_loop postprocess_int postprocess_float
  lexer_run k string = do
    x ← lexer_loop (length string) k (record { rest = string; place = lexer_init; token_list = [] })
    let ints = if k.enable_int then map postprocess_int x.token_list else x.token_list
    ok (if k.enable_float then map postprocess_float ints else ints)

  unfoldable pub lex_code : Bytes → Result (List Token)
  unfolding lexer_run
  lex_code code = lexer_run lex_config code
