-- ===== src/Std/CString/Numbers.antt =====
-- Number literals of src/packages/std/string/string.c: what the parser gives for texts of digits.
use mathlib.Core.Path.{ap₂}
use inet_forth.Std.CString.{
  Bytes, isspace, digit_value, digits, skip_spaces, sign, skip_prefix, clamp, strtol, is_nil,
  string_is_int_of_base, string_parse_int, string_starts_with, starts_with_sign, drop,
  unsigned_is_xint, unsigned_parse_xint, string_is_xint, string_parse_xint, negate,
}
use native.Mathlib.Nat.{pow-suc, pow-zero}
use inet_forth.Base.{
  Bool, [], ap, arith, false, length, ltb, refl, suc, sym, true, ℕ, ◌%◌, ◌&&◌, ◌*◌, ◌+◌, ◌-◌, ◌<◌,
  ◌==◌, ◌^◌, ◌∙◌, ◌∷◌, ◌≡◌, ◌≤◌,
}

-- The bytes are digits of the base.
abbrev pub all_digits : (base : ℕ) → Bytes → Bool
all_digits base [] = true
all_digits base (c ∷ cs) = ltb (digit_value c) base && all_digits base cs

-- The number that digits stand for, by the place of each.
unfoldable pub number : (base : ℕ) → Bytes → ℕ
unfolding digit_value
number base [] = 0
number base (c ∷ cs) = digit_value c * base ^ length cs + number base cs

place_value : (b v d w n : ℕ) → (v * b + d) * w + n ≡ v * (w * b) + (d * w + n)
place_value b v d w n = omega arith

digits_lem :
    (base count value : ℕ) (cs : Bytes)
    → all_digits base cs ≡ true
    → digits base count value cs
      ≡ (count + length cs, value * base ^ length cs + number base cs, [])
unfolding digits number
digits_lem base count value [] h =
    let same : value ≡ value * base ^ 0 + 0 =
      omega arith ∙ sym (ap (λ x. value * x + 0) (pow-zero base)) in
    ap₂ (λ x y. (x, y, [])) (omega arith) same
digits_lem base count value (c ∷ cs) h =
    let here : ltb (digit_value c) base ≡ true = ground arith in
    rw here (
      digits_lem base (suc count) (value * base + digit_value c) cs (ground arith)
      ∙ ap₂ (λ x y. (x, y, [])) (omega arith)
          (place_value base value (digit_value c) (base ^ length cs) (number base cs)
            ∙ sym (
                ap (λ x. value * x + (digit_value c * base ^ length cs + number base cs))
                  (pow-suc base (length cs)))))

not_space : (base c : ℕ) → base ≤ 16 → ltb (digit_value c) base ≡ true → isspace c ≡ false
unfolding isspace digit_value
not_space base c le h = ground arith

not_sign :
    (base c : ℕ) (cs : Bytes)
    → base ≤ 16
    → ltb (digit_value c) base ≡ true
    → sign (c ∷ cs) ≡ (false, c ∷ cs)
unfolding sign digit_value
not_sign base c cs le h =
    let minus : (c == b'-') ≡ false = ground arith in
    let plus : (c == b'+') ≡ false = ground arith in rw (minus, plus)

no_prefix : (base : ℕ) (cs : Bytes) → base ≤ 10 → skip_prefix base cs ≡ cs
unfolding skip_prefix
no_prefix base [] le = refl
no_prefix base (c ∷ []) le = refl
no_prefix base (c ∷ d ∷ []) le = refl
no_prefix base (c ∷ d ∷ e ∷ cs) le = let other : (base == 16) ≡ false = ground arith in rw other

strtol_digits :
    (base c : ℕ) (cs : Bytes)
    → base ≤ 10
    → all_digits base (c ∷ cs) ≡ true
    → strtol (c ∷ cs) base ≡ (true, clamp false (number base (c ∷ cs)), [])
unfolding strtol skip_spaces
strtol_digits base c cs le h =
    let more : (0 + length (c ∷ cs) == 0) ≡ false = ground arith in
    let start : 0 * base ^ length (c ∷ cs) + number base (c ∷ cs) ≡ number base (c ∷ cs) =
      omega arith in
    let here : ltb (digit_value c) base ≡ true = ground arith in
    rw (not_space base c (omega arith) here) (
      rw (not_sign base c cs (omega arith) here) (
        rw (no_prefix base (c ∷ cs) le)
          (rw (digits_lem base 0 0 (c ∷ cs) h) (rw (more, start) refl))))

-- No literal of digits has a sign or one of the prefixes.
unprefixed :
    (c : ℕ) (cs : Bytes)
    → all_digits 10 (c ∷ cs) ≡ true
    → (starts_with_sign (c ∷ cs) ≡ false)
      × (string_starts_with (c ∷ cs) (b'0' ∷ b'x' ∷ []) ≡ false)
      × (string_starts_with (c ∷ cs) (b'0' ∷ b'o' ∷ []) ≡ false)
      × (string_starts_with (c ∷ cs) (b'0' ∷ b'b' ∷ []) ≡ false)
unfolding string_starts_with digit_value
unprefixed c [] h = (ground arith, ground arith, ground arith, ground arith)
unprefixed c (d ∷ cs) h = (ground arith, ground arith, ground arith, ground arith)

in_range : (n : ℕ) → n < 2 ^ 63 → clamp false n ≡ n
unfolding clamp
in_range n small = ground arith

unsigned_lem :
    (c : ℕ) (cs : Bytes)
    → all_digits 10 (c ∷ cs) ≡ true
    → number 10 (c ∷ cs) < 2 ^ 63
    → (unsigned_is_xint (c ∷ cs) ≡ true) × (unsigned_parse_xint (c ∷ cs) ≡ number 10 (c ∷ cs))
unfolding unsigned_is_xint unsigned_parse_xint string_is_int_of_base string_parse_int is_nil
unsigned_lem c cs h small =
    let (_, hexadecimal, octal, binary) = unprefixed c cs h in
    (
      rw (hexadecimal, octal) (rw (strtol_digits 10 c cs (omega arith) h) refl),
      rw (hexadecimal, octal, binary)
          (ap (λ r. r.1) (strtol_digits 10 c cs (omega arith) h) ∙ in_range _ small),
    )

-- A text of decimal digits, with or without a minus sign in front, is a literal, and is parsed to the
-- number that its digits stand for, or to its opposite modulo 2^64. The number is below 2^63.
pub string_parse_xint_decimal :
    (c : ℕ) (cs : Bytes)
    → all_digits 10 (c ∷ cs) ≡ true
    → number 10 (c ∷ cs) < 2 ^ 63
    → (string_is_xint (c ∷ cs) ≡ true)
      × (string_parse_xint (c ∷ cs) ≡ number 10 (c ∷ cs))
      × (string_is_xint (b'-' ∷ c ∷ cs) ≡ true)
      × (string_parse_xint (b'-' ∷ c ∷ cs) ≡ (2 ^ 64 - number 10 (c ∷ cs)) % 2 ^ 64)
unfolding string_is_xint string_parse_xint string_starts_with drop negate
string_parse_xint_decimal c cs h small =
    let (is, parsed) = unsigned_lem c cs h small in
    let (signless, _, _, _) = unprefixed c cs h in
    let minus : (c == b'-') ≡ false = ground arith in
    let plus : (c == b'+') ≡ false = ground arith in
    (rw signless is, rw (minus, plus) parsed, rw signless is, rw (minus, plus) (ap negate parsed))
