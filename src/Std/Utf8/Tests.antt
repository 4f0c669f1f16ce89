-- ===== src/Std/Utf8/Tests.antt =====
-- A text of one, two, three and four bytes.
use inet_forth.Std.CString.{Bytes}
use inet_forth.Std.Utf8.{text_to_string, text_from_string, utf8_string_length, utf8_encode_into}
use inet_forth.Std.Utf8.RoundTrip.{IsText, text_to_string_lem}
use inet_forth.Base.{List, [], arith, ok, refl, ℕ, ◌∷◌, ◌≡◌}

abbrev points : List ℕ
points = 97 ∷ 233 ∷ 8364 ∷ 128512 ∷ []

points-IsText : IsText points
points-IsText = (
  omega arith,
  omega arith,
  (omega arith, omega arith, (omega arith, omega arith, (omega arith, omega arith, tt))),
)

text_to_string_lem_example :
    (string : Bytes) × (text_to_string points ≡ ok string)
    × (text_from_string string ≡ ok points)
    × (utf8_string_length string ≡ ok 4)
text_to_string_lem_example = text_to_string_lem points points-IsText

-- The second byte of U+00E9 is not 169, as it should be.
second_byte : utf8_encode_into 233 ≡ ok (195 ∷ 233 ∷ [])
unfolding utf8_encode_into
second_byte = refl
