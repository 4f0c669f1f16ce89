-- ===== src/Value.antt =====
-- src/value: tagged 64-bit words. A `value_t` is a number below 2 ^ 64 whose low three bits are the
-- tag; an `int64_t` is its bit pattern, also below 2 ^ 64, and a `double` is its bits.
-- The operations of double arithmetic are the machine's, and are parameters.
use mathlib.Core.Bool.{xor}
use inet_forth.Base.{
  Bool, Result, check, division_by_zero, err, exit_failure, false, if◌then◌else◌, leb, ltb, not, ok,
  true, undefined, ℕ, ◌%◌, ◌&&◌, ◌*◌, ◌+◌, ◌-◌, ◌/◌, ◌==◌, ◌>>◌, ◌^◌, ◌||◌, ◌>>=◌,
}
pub mod Ints
pub mod Tags
mod Tests

abbrev pub word_mod : ℕ
word_mod = 2 ^ 64

-- `tag_t`
abbrev pub tag_object : ℕ
tag_object = 0

abbrev pub tag_int : ℕ
tag_int = 2

abbrev pub tag_float : ℕ
tag_float = 3

-- `(size_t) value & TAG_MASK`
unfoldable pub value_tag : ℕ → ℕ
value_tag value = value % 8

-- `(target << 3) | XINT`: the shift leaves the low three bits clear, so `|` adds. Shifting a signed
-- number drops the high bits, as GCC and Clang define it.
unfoldable pub xint : ℕ → ℕ
xint target = target * 8 % word_mod + tag_int

unfoldable pub is_xint : ℕ → Bool
unfolding value_tag
is_xint value = value_tag value == tag_int

-- `((int64_t) value) >> 3`, an arithmetic shift: the sign bit is copied into the top three bits.
shift_right : ℕ → ℕ
shift_right value = if ltb value (2 ^ 63) then value / 8 else value / 8 + 7 * 2 ^ 61

unfoldable pub to_int64 : ℕ → Result ℕ
unfolding is_xint shift_right
to_int64 value = check (is_xint value) >> ok (shift_right value)

-- The contents lie in [-2 ^ 60, 2 ^ 60), so that a sum or difference never leaves `int64_t`.
unfoldable pub xint_add : ℕ → ℕ → Result ℕ
unfolding to_int64 xint
xint_add x y = do a ← to_int64 x; b ← to_int64 y; ok (xint ((a + b) % word_mod))

unfoldable pub xint_sub : ℕ → ℕ → Result ℕ
unfolding to_int64 xint
xint_sub x y = do a ← to_int64 x; b ← to_int64 y; ok (xint ((a + word_mod - b) % word_mod))

-- The sign and the magnitude of a pattern, and the pattern of a negated magnitude.
unfoldable pub is_negative : ℕ → Bool
is_negative a = leb (2 ^ 63) a

unfoldable pub magnitude : ℕ → ℕ
unfolding is_negative
magnitude a = if is_negative a then word_mod - a else a

unfoldable pub with_sign : Bool → ℕ → ℕ
with_sign negative n = if negative then (word_mod - n) % word_mod else n

-- Whether an integer of this sign and magnitude is an `int64_t`.
unfoldable pub fits_int64 : Bool → ℕ → Bool
fits_int64 negative n = if negative then leb n (2 ^ 63) else ltb n (2 ^ 63)

-- `*` on `int64_t`: a product outside the type is undefined in C.
unfoldable pub int64_mul : ℕ → ℕ → Result ℕ
unfolding is_negative magnitude with_sign fits_int64
int64_mul a b =
    let negative = xor (is_negative a) (is_negative b) in
    let product = magnitude a * magnitude b in
    if fits_int64 negative product then ok (with_sign negative product) else err undefined

unfoldable pub xint_mul : ℕ → ℕ → Result ℕ
unfolding to_int64 int64_mul xint
xint_mul x y = do a ← to_int64 x; b ← to_int64 y; product ← int64_mul a b; ok (xint product)

-- C's `/` and `%` on `int64_t` truncate towards zero; a zero divisor traps.
int64_div : ℕ → ℕ → Result ℕ
unfolding is_negative magnitude with_sign
int64_div a b =
    if b == 0
    then err division_by_zero
    else ok (with_sign (xor (is_negative a) (is_negative b)) (magnitude a / magnitude b))

int64_mod : ℕ → ℕ → Result ℕ
unfolding is_negative magnitude with_sign
int64_mod a b =
    if b == 0
    then err division_by_zero
    else ok (with_sign (is_negative a) (magnitude a % magnitude b))

unfoldable pub xint_div : ℕ → ℕ → Result ℕ
unfolding to_int64 int64_div xint
xint_div x y = do a ← to_int64 x; b ← to_int64 y; q ← int64_div a b; ok (xint q)

unfoldable pub xint_mod : ℕ → ℕ → Result ℕ
unfolding to_int64 int64_mod xint
xint_mod x y = do a ← to_int64 x; b ← to_int64 y; r ← int64_mod a b; ok (xint r)

-- `(bits & DATA_MASK) | XFLOAT`
unfoldable pub xfloat : ℕ → ℕ
xfloat bits = bits - bits % 8 + tag_float

unfoldable pub is_xfloat : ℕ → Bool
unfolding value_tag
is_xfloat value = value_tag value == tag_float

unfoldable pub to_double : ℕ → Result ℕ
unfolding is_xfloat
to_double value = check (is_xfloat value) >> ok (value - value % 8)

-- `xfloat_add`, `xfloat_sub`, `xfloat_mul`, `xfloat_div`, `xfloat_mod`: one body, with the machine's
-- operation on doubles in the middle.
unfoldable pub xfloat_binary : (ℕ → ℕ → ℕ) → ℕ → ℕ → Result ℕ
unfolding to_double xfloat
xfloat_binary op x y = do a ← to_double x; b ← to_double y; ok (xfloat (op a b))

-- The two conversions test the tag themselves, and exit.
unfoldable pub xint_to_xfloat : (ℕ → ℕ) → ℕ → Result ℕ
unfolding is_xint to_int64 xfloat
xint_to_xfloat double_of_int x =
    if is_xint x then (do a ← to_int64 x; ok (xfloat (double_of_int a))) else err exit_failure

unfoldable pub xfloat_to_xint : (ℕ → ℕ) → ℕ → Result ℕ
unfolding is_xfloat to_double xint
xfloat_to_xint int_of_double x =
    if is_xfloat x then (do d ← to_double x; ok (xint (int_of_double d))) else err exit_failure

-- `value != NULL && value_tag(value) == XOBJECT`
unfoldable pub is_xobject : ℕ → Bool
unfolding value_tag
is_xobject value = not (value == 0) && value_tag value == tag_object

abbrev pub xtrue : ℕ
xtrue = 0x00ffffffffffffff

abbrev pub xfalse : ℕ
xfalse = 0x01ffffffffffffff

unfoldable pub xbool : Bool → ℕ
xbool target = if target then xtrue else xfalse

unfoldable pub is_xbool : ℕ → Bool
is_xbool value = value == xtrue || value == xfalse

unfoldable pub to_bool : ℕ → Result Bool
unfolding is_xbool
to_bool value = check (is_xbool value) >> ok (value == xtrue)

-- `&&` and `||` do not look at (nor check) the second value where the first decides.
unfoldable pub xbool_and : ℕ → ℕ → Result ℕ
unfolding to_bool xbool
xbool_and x y = do a ← to_bool x; if a then (do b ← to_bool y; ok (xbool b)) else ok (xbool false)

unfoldable pub xbool_or : ℕ → ℕ → Result ℕ
unfolding to_bool xbool
xbool_or x y = do a ← to_bool x; if a then ok (xbool true) else (do b ← to_bool y; ok (xbool b))

unfoldable pub xbool_not : ℕ → Result ℕ
unfolding to_bool xbool
xbool_not x = do a ← to_bool x; ok (xbool (not a))
