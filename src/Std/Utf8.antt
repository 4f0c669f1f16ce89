-- ===== src/Std/Utf8.antt =====
-- src/packages/std/utf8/utf8.c and utf8_iter.c, and src/packages/std/text/text.c: the encoding of code
-- points, and texts, which are arrays of code points. A byte is a number below 256, a mask of low bits is
-- a remainder, and `|` of a pattern with lower bits is a sum. An iterator is the rest of its string.
use inet_forth.Std.CString.{Bytes, drop}
use inet_forth.Std.Lexer.{before_nul}
use inet_forth.Base.{
  List, Result, [], dangling, err, exit_failure, if◌then◌else◌, leb, length, ok, out_of_fuel, suc,
  take, zero, ℕ, ◌%◌, ◌*◌, ◌++◌, ◌+◌, ◌/◌, ◌==◌, ◌∷◌, ◌>>=◌, ◌>>◌,
}
pub mod RoundTrip
pub mod Tests

unfoldable pub utf8_char_length : ℕ → Result ℕ
utf8_char_length byte =
    if byte / 128 == 0
    then ok 1
    else if byte / 32 == 6
    then ok 2
    else if byte / 16 == 14
    then ok 3
    else if byte / 8 == 30
    then ok 4
    else err exit_failure

-- The cases of `utf8_decode` by the length. A byte behind the closing NUL is out of bounds.
unfoldable pub decode_bytes : ℕ → Bytes → Result ℕ
decode_bytes (suc zero) (a ∷ cs) = ok a
decode_bytes (suc (suc zero)) (a ∷ b ∷ cs) = ok (a % 32 * 64 + b % 64)
decode_bytes (suc (suc (suc zero))) (a ∷ b ∷ c ∷ cs) = ok (a % 16 * 4096 + b % 64 * 64 + c % 64)
decode_bytes (suc (suc (suc (suc zero)))) (a ∷ b ∷ c ∷ d ∷ cs) =
    ok (a % 8 * 262144 + b % 64 * 4096 + c % 64 * 64 + d % 64)
decode_bytes _ _ = err dangling

-- The string ends with its NUL, which can be read.
unfoldable pub utf8_decode : Bytes → Result ℕ
unfolding utf8_char_length decode_bytes
utf8_decode [] = ok 0
utf8_decode (c ∷ cs) = do n ← utf8_char_length c; decode_bytes n ((c ∷ cs) ++ 0 ∷ [])

-- `pattern_r | ((uint8_t) x << 2 >> 2)`: the shifts are on `int`, so that they change nothing, and bit
-- six of `x` stays.
abbrev pub tail_byte : ℕ → ℕ
tail_byte x = 128 + x % 128

-- What is written to `dest`.
unfoldable pub utf8_encode_into : ℕ → Result Bytes
utf8_encode_into code_point =
    if leb code_point 127
    then ok (code_point ∷ [])
    else if leb code_point 2047
    then ok ((192 + code_point / 64) ∷ tail_byte code_point ∷ [])
    else if leb code_point 65535
    then ok ((224 + code_point / 4096) ∷ tail_byte (code_point / 64) ∷ tail_byte code_point ∷ [])
    else if leb code_point 1114111
    then ok (
        (240 + code_point / 262144)
        ∷ tail_byte (code_point / 4096)
        ∷ tail_byte (code_point / 64)
        ∷ tail_byte code_point
        ∷ [])
    else err exit_failure

unfoldable pub utf8_encode : ℕ → Result Bytes
unfolding utf8_encode_into before_nul
utf8_encode code_point = do bytes ← utf8_encode_into code_point; ok (before_nul bytes)

unfoldable pub utf8_iter_current : Bytes → Result ℕ
unfolding utf8_decode
utf8_iter_current [] = ok 0
utf8_iter_current (c ∷ cs) = utf8_decode (c ∷ cs)

-- The bytes behind the first `n`; past the closing NUL is out of bounds.
unfoldable pub skip : ℕ → Bytes → Result Bytes
skip zero cs = ok cs
skip (suc n) [] = err dangling
skip (suc n) (c ∷ cs) = skip n cs

-- `utf8_iter_next`: the code point and the rest of the string.
unfoldable pub utf8_iter_next : Bytes → Result (ℕ × Bytes)
unfolding utf8_char_length skip utf8_iter_current
utf8_iter_next [] = err dangling
utf8_iter_next (c ∷ cs) = do
  n ← utf8_char_length c
  rest ← skip n (c ∷ cs)
  code_point ← utf8_iter_current rest
  ok (code_point, rest)

-- The loop of `text_from_string`, which goes on up to the code point 0.
unfoldable pub code_points : ℕ → (code_point : ℕ) → Bytes → Result (List ℕ)
unfolding utf8_iter_next
code_points f zero rest = ok []
code_points zero (suc n) rest = err out_of_fuel
code_points (suc f) (suc n) rest = do
  (code_point, rest') ← utf8_iter_next rest
  more ← code_points f code_point rest'
  ok (suc n ∷ more)

-- `utf8_string_length` runs the same loop and counts its rounds, of which each takes a byte at least.
unfoldable pub utf8_string_length : Bytes → Result ℕ
unfolding utf8_iter_current code_points
utf8_string_length string = do
  code_point ← utf8_iter_current string
  points ← code_points (length string) code_point string
  ok (length points)

-- The text has as many code points as were counted.
unfoldable pub text_from_string : Bytes → Result (List ℕ)
unfolding utf8_string_length utf8_iter_current code_points
text_from_string string = do
  _ ← utf8_string_length string
  code_point ← utf8_iter_current string
  code_points (length string) code_point string

-- The first byte that was written says how far the cursor moves.
abbrev pub first_byte : Bytes → ℕ
first_byte [] = 0
first_byte (c ∷ cs) = c

-- The loop of `text_to_string`.
unfoldable pub encode_all : List ℕ → Result Bytes
unfolding utf8_encode_into utf8_char_length
encode_all [] = ok []
encode_all (code_point ∷ more) = do
  bytes ← utf8_encode_into code_point
  n ← utf8_char_length (first_byte bytes)
  rest ← encode_all more
  ok (take n bytes ++ rest)

unfoldable pub text_to_string : List ℕ → Result Bytes
unfolding encode_all before_nul
text_to_string self = do bytes ← encode_all self; ok (before_nul bytes)
