-- ===== src/Std/CString.antt =====
-- src/packages/std/string/string.c: texts. A string is the list of its bytes before the closing NUL,
-- so that no byte of it is zero; a pointer into it is the list of the bytes from there on. Of the C
-- library, `strlen`, `strcmp`, `strtol` and the classes of characters in the C locale are written out;
-- `strtod` is a parameter of those that use it.
use Prim.Native.Nat.{bit_xor}
use inet_forth.Base.{
  Bool, List, Option, Result, [], check, false, if◌then◌else◌, leb, length, ltb, map, none, ok,
  some, suc, take, true, zero, ℕ, ◌%◌, ◌&&◌, ◌*◌, ◌++◌, ◌+◌, ◌-◌, ◌==◌, ◌^◌, ◌||◌, ◌∷◌, ◌>>=◌, ◌>>◌,
}
pub mod Numbers
pub mod Tests

abbrev pub Bytes : Type 0
Bytes = List ℕ

-- Space, and the five from tab to carriage return.
unfoldable pub isspace : ℕ → Bool
isspace c = c == 32 || (leb 9 c && leb c 13)

-- `strcmp(left, right) == 0`
unfoldable pub string_equal : Bytes → Bytes → Bool
string_equal [] [] = true
string_equal [] (d ∷ ds) = false
string_equal (c ∷ cs) [] = false
string_equal (c ∷ cs) (d ∷ ds) = c == d && string_equal cs ds

unfoldable pub string_is_empty : Bytes → Bool
unfolding string_equal
string_is_empty self = string_equal self []

-- `*pointer` as an operand of `^`: `char` is signed, as on x86, and is extended to 64 bits.
unfoldable pub char_word : ℕ → ℕ
char_word c = if ltb c 128 then c else 2 ^ 64 - 256 + c

-- `hash = 33 * hash ^ c`, where `^` is the exclusive or of words.
unfoldable pub bernstein : ℕ → Bytes → ℕ
unfolding char_word
bernstein hash [] = hash
bernstein hash (c ∷ cs) = bernstein (bit_xor (33 * hash % 2 ^ 64) (char_word c)) cs

unfoldable pub string_bernstein_hash : Bytes → ℕ
unfolding bernstein
string_bernstein_hash self = bernstein 0 self

-- The length test, then `strncmp`: the prefix is met byte for byte.
unfoldable pub string_starts_with : (target prefix : Bytes) → Bool
string_starts_with target [] = true
string_starts_with [] (p ∷ ps) = false
string_starts_with (c ∷ cs) (p ∷ ps) = c == p && string_starts_with cs ps

unfoldable pub drop : ℕ → Bytes → Bytes
drop zero cs = cs
drop (suc n) [] = []
drop (suc n) (c ∷ cs) = drop n cs

unfoldable pub string_ends_with : (target postfix : Bytes) → Bool
unfolding string_equal drop
string_ends_with target postfix =
    if ltb (length target) (length postfix)
    then false
    else string_equal (drop (length target - length postfix) target) postfix

unfoldable pub string_append : Bytes → Bytes → Bytes
string_append left right = left ++ right

unfoldable pub string_slice : Bytes → (start end : ℕ) → Result Bytes
unfolding drop
string_slice self start end = do
  check (leb start end)
  check (leb end (length self))
  ok (take (end - start) (drop start self))

-- The index of the first such byte, or of the closing NUL if that is asked for; -1 is `none`. The index
-- is below 2^31, so that it is an `int`.
unfoldable pub string_find_index : Bytes → ℕ → Option ℕ
string_find_index [] ch = if ch == 0 then some 0 else none
string_find_index (c ∷ cs) ch =
    if c == ch
    then some 0
    else elim (string_find_index cs ch) [ none ↦ none | some i ↦ some (suc i) ]

unfoldable pub string_count_char : Bytes → ℕ → ℕ
string_count_char [] ch = 0
string_count_char (c ∷ cs) ch = (if c == ch then 1 else 0) + string_count_char cs ch

unfoldable pub string_has_char : Bytes → ℕ → Bool
unfolding string_count_char
string_has_char self ch = ltb 0 (string_count_char self ch)

-- At each index below the length, the rest of the string is tested.
unfoldable pub string_count_substring : Bytes → Bytes → ℕ
unfolding string_starts_with
string_count_substring [] substring = 0
string_count_substring (c ∷ cs) substring =
    (if string_starts_with (c ∷ cs) substring then 1 else 0) + string_count_substring cs substring

unfoldable pub tolower : ℕ → ℕ
tolower c = if leb b'A' c && leb c b'Z' then c + 32 else c

unfoldable pub toupper : ℕ → ℕ
toupper c = if leb b'a' c && leb c b'z' then c - 32 else c

unfoldable pub string_to_lower_case : Bytes → Bytes
unfolding tolower
string_to_lower_case self = map tolower self

unfoldable pub string_to_upper_case : Bytes → Bytes
unfolding toupper
string_to_upper_case self = map toupper self

unfoldable pub string_equal_mod_case : Bytes → Bytes → Bool
unfolding string_equal string_to_upper_case
string_equal_mod_case left right =
    string_equal (string_to_upper_case left) (string_to_upper_case right)

-- The bytes behind the first newline; `NULL` where there is none, or nothing behind it.
unfoldable pub string_next_line : Bytes → Option Bytes
unfolding string_find_index drop
string_next_line self = elim (string_find_index self b'\n') [
  | none ↦ none
  | some i ↦ elim (drop (suc i) self) [ [] ↦ none | c ∷ cs ↦ some (c ∷ cs) ]
]

-- The value of a digit, or 36.
unfoldable pub digit_value : ℕ → ℕ
digit_value c =
    if leb b'0' c && leb c b'9'
    then c - b'0'
    else if leb b'a' c && leb c b'z'
    then c - b'a' + 10
    else if leb b'A' c && leb c b'Z'
    then c - b'A' + 10
    else 36

-- The digits of `strtol`: how many were read, the number, and the bytes behind them.
unfoldable pub digits : (base count value : ℕ) → Bytes → ℕ × ℕ × Bytes
unfolding digit_value
digits base count value [] = (count, value, [])
digits base count value (c ∷ cs) =
    if ltb (digit_value c) base
    then digits base (suc count) (value * base + digit_value c) cs
    else (count, value, c ∷ cs)

unfoldable pub skip_spaces : Bytes → Bytes
unfolding isspace
skip_spaces [] = []
skip_spaces (c ∷ cs) = if isspace c then skip_spaces cs else c ∷ cs

-- An optional sign.
unfoldable pub sign : Bytes → Bool × Bytes
sign [] = (false, [])
sign (c ∷ cs) = if c == b'-' then (true, cs) else if c == b'+' then (false, cs) else (false, c ∷ cs)

-- In base 16 a prefix 0x is skipped where a digit is behind it.
unfoldable pub skip_prefix : (base : ℕ) → Bytes → Bytes
unfolding digit_value
skip_prefix base (z ∷ x ∷ d ∷ cs) =
    if base == 16 && (z == b'0' && (x == b'x' || x == b'X')) && ltb (digit_value d) 16
    then d ∷ cs
    else z ∷ x ∷ d ∷ cs
skip_prefix base cs = cs

-- A result out of range is the nearest `long`, as a pattern of 64 bits.
unfoldable pub clamp : Bool → ℕ → ℕ
clamp negative n =
    if negative
    then (if leb (2 ^ 63) n then 2 ^ 63 else (2 ^ 64 - n) % 2 ^ 64)
    else if leb (2 ^ 63) n
    then 2 ^ 63 - 1
    else n

-- `strtol(self, &end, base)`: whether `end` moved, the value, and the bytes at `end`.
unfoldable pub strtol : Bytes → (base : ℕ) → Bool × ℕ × Bytes
unfolding digits skip_spaces sign skip_prefix clamp
strtol self base =
    let (negative, text) = sign (skip_spaces self) in
    let (count, value, rest) = digits base 0 0 (skip_prefix base text) in
    if count == 0 then (false, 0, self) else (true, clamp negative value, rest)

is_nil : Bytes → Bool
is_nil [] = true
is_nil _ = false

unfoldable pub string_is_int_of_base : Bytes → ℕ → Bool
unfolding strtol is_nil
string_is_int_of_base self base =
    let (moved, value, rest) = strtol self base in if moved then is_nil rest else false

unfoldable pub string_parse_int : Bytes → ℕ → ℕ
unfolding strtol
string_parse_int self base = (strtol self base).1

abbrev pub starts_with_sign : Bytes → Bool
starts_with_sign self = string_starts_with self (b'-' ∷ []) || string_starts_with self (b'+' ∷ [])

-- Behind a sign, which no second sign may follow.
unfoldable pub unsigned_is_xint : Bytes → Bool
unfolding string_starts_with string_is_int_of_base drop
unsigned_is_xint self =
    if string_starts_with self (b'0' ∷ b'x' ∷ [])
    then string_is_int_of_base (drop 2 self) 16
    else if string_starts_with self (b'0' ∷ b'o' ∷ [])
    then string_is_int_of_base (drop 2 self) 8
    else string_is_int_of_base self 10

-- The recursive call is on a string that no sign starts, so it goes past the first branch.
unfoldable pub string_is_xint : Bytes → Bool
unfolding string_starts_with unsigned_is_xint drop
string_is_xint self =
    if starts_with_sign self
    then if starts_with_sign (drop 1 self) then false else unsigned_is_xint (drop 1 self)
    else unsigned_is_xint self

-- `-result` on `int64_t`.
unfoldable pub negate : ℕ → ℕ
negate n = (2 ^ 64 - n) % 2 ^ 64

-- The branches without a sign.
unfoldable pub unsigned_parse_xint : Bytes → ℕ
unfolding string_starts_with string_parse_int drop
unsigned_parse_xint self =
    if string_starts_with self (b'0' ∷ b'x' ∷ [])
    then string_parse_int (drop 2 self) 16
    else if string_starts_with self (b'0' ∷ b'o' ∷ [])
    then string_parse_int (drop 2 self) 8
    else if string_starts_with self (b'0' ∷ b'b' ∷ [])
    then string_parse_int (drop 2 self) 2
    else string_parse_int self 10

-- Each sign is a recursive call on the rest.
unfoldable pub string_parse_xint : Bytes → ℕ
unfolding unsigned_parse_xint negate
string_parse_xint [] = unsigned_parse_xint []
string_parse_xint (c ∷ cs) =
    let rest = string_parse_xint cs in
    if c == b'-' then negate rest else if c == b'+' then rest else unsigned_parse_xint (c ∷ cs)
