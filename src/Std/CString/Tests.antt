-- ===== src/Std/CString/Tests.antt =====
-- Number literals at a concrete text.
use inet_forth.Std.CString.{digit_value, string_is_xint, string_parse_xint}
use inet_forth.Std.CString.Numbers.{number, string_parse_xint_decimal}
use inet_forth.Base.{[], arith, refl, true, ◌%◌, ◌-◌, ◌^◌, ◌∷◌, ◌≡◌}

string_parse_xint_decimal_example :
    (string_is_xint (b'4' ∷ b'2' ∷ []) ≡ true)
    × (string_parse_xint (b'4' ∷ b'2' ∷ []) ≡ number 10 (b'4' ∷ b'2' ∷ []))
    × (string_is_xint (b'-' ∷ b'4' ∷ b'2' ∷ []) ≡ true)
    × (string_parse_xint (b'-' ∷ b'4' ∷ b'2' ∷ [])
        ≡ (2 ^ 64 - number 10 (b'4' ∷ b'2' ∷ [])) % 2 ^ 64)
unfolding digit_value number
string_parse_xint_decimal_example = string_parse_xint_decimal b'4' (b'2' ∷ []) refl (omega arith)
