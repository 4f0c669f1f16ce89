-- ===== src/Std/Utf8/RoundTrip.antt =====
-- src/packages/std/text/text.c: a text is read back from its bytes.
use inet_forth.Std.CString.{Bytes}
use inet_forth.Std.Lexer.Quotes.{no_nul, before_nul-eq}
use inet_forth.Std.Utf8.{
  utf8_char_length, decode_bytes, utf8_decode, tail_byte, utf8_encode_into, utf8_iter_current, skip,
  utf8_iter_next, code_points, utf8_string_length, text_from_string, encode_all, text_to_string,
}
use inet_forth.Base.{
  Bool-cases, List, [], ap, arith, false, inl, inr, leb, length, length-append, ok, refl, suc, take,
  true, zero, ℕ, ◌%◌, ◌*◌, ◌++◌, ◌+◌, ◌/◌, ◌<◌, ◌==◌, ◌∷◌, ◌≡◌, ◌≤◌,
}

two : (c : ℕ) → 127 < c → c ≤ 2047 → (192 + c / 64) % 32 * 64 + (128 + c % 128) % 64 ≡ c
two c low high = omega arith

three :
    (c : ℕ)
    → 2047 < c
    → c ≤ 65535
    → (224 + c / 4096) % 16 * 4096 + (128 + c / 64 % 128) % 64 * 64 + (128 + c % 128) % 64 ≡ c
three c low high = omega arith

four :
    (c : ℕ)
    → 65535 < c
    → c ≤ 1114111
    → (240 + c / 262144) % 8 * 262144
        + (128 + c / 4096 % 128) % 64 * 4096
        + (128 + c / 64 % 128) % 64 * 64
        + (128 + c % 128) % 64
      ≡ c
four c low high = omega arith

-- The bytes of a code point: the first says how many there are, and what stands behind them does not
-- matter when they are read.
record Encoded (c : ℕ) : Type 0 where
  first : ℕ
  more : Bytes
  written : utf8_encode_into c ≡ ok (first ∷ more)
  counted : utf8_char_length first ≡ ok (suc (length more))
  decoded : (cs : Bytes) → utf8_decode (first ∷ more ++ cs) ≡ ok c
  plain : no_nul (first ∷ more) ≡ true

length_one : (b : ℕ) → b ≤ 127 → utf8_char_length b ≡ ok 1
unfolding utf8_char_length
length_one b le = ground arith

length_two : (b : ℕ) → 192 ≤ b → b < 224 → utf8_char_length b ≡ ok 2
unfolding utf8_char_length
length_two b low high =
    let e₁ : (b / 128 == 0) ≡ false = ground arith in
    let e₂ : (b / 32 == 6) ≡ true = ground arith in rw (e₁, e₂) refl

length_three : (b : ℕ) → 224 ≤ b → b < 240 → utf8_char_length b ≡ ok 3
unfolding utf8_char_length
length_three b low high =
    let e₁ : (b / 128 == 0) ≡ false = ground arith in
    let e₂ : (b / 32 == 6) ≡ false = ground arith in
    let e₃ : (b / 16 == 14) ≡ true = ground arith in rw (e₁, e₂, e₃) refl

length_four : (b : ℕ) → 240 ≤ b → b < 248 → utf8_char_length b ≡ ok 4
unfolding utf8_char_length
length_four b low high =
    let e₁ : (b / 128 == 0) ≡ false = ground arith in
    let e₂ : (b / 32 == 6) ≡ false = ground arith in
    let e₃ : (b / 16 == 14) ≡ false = ground arith in
    let e₄ : (b / 8 == 30) ≡ true = ground arith in rw (e₁, e₂, e₃, e₄) refl

Encoded-one : (c : ℕ) → 0 < c → c ≤ 127 → Encoded c
unfolding utf8_encode_into utf8_decode decode_bytes
Encoded-one c positive high =
    let small : leb c 127 ≡ true = ground arith in
    let nonzero : (c == 0) ≡ false = ground arith in
    record {
      first = c;
      more = [];
      written = rw small refl;
      counted = length_one c high;
      decoded = λ cs. rw (length_one c high) refl;
      plain = rw nonzero refl;
    }

Encoded-two : (c : ℕ) → 127 < c → c ≤ 2047 → Encoded c
unfolding utf8_encode_into utf8_decode decode_bytes
Encoded-two c low high =
    let e₁ : leb c 127 ≡ false = ground arith in
    let e₂ : leb c 2047 ≡ true = ground arith in
    let n₁ : (192 + c / 64 == 0) ≡ false = ground arith in
    let n₂ : (128 + c % 128 == 0) ≡ false = ground arith in
    let count = length_two (192 + c / 64) (omega arith) (omega arith) in
    record {
      first = 192 + c / 64;
      more = tail_byte c ∷ [];
      written = rw (e₁, e₂) refl;
      counted = count;
      decoded = λ cs. rw count (ap ok (two c low high));
      plain = rw (n₁, n₂) refl;
    }

Encoded-three : (c : ℕ) → 2047 < c → c ≤ 65535 → Encoded c
unfolding utf8_encode_into utf8_decode decode_bytes
Encoded-three c low high =
    let e₁ : leb c 127 ≡ false = ground arith in
    let e₂ : leb c 2047 ≡ false = ground arith in
    let e₃ : leb c 65535 ≡ true = ground arith in
    let n₁ : (224 + c / 4096 == 0) ≡ false = ground arith in
    let n₂ : (128 + c / 64 % 128 == 0) ≡ false = ground arith in
    let n₃ : (128 + c % 128 == 0) ≡ false = ground arith in
    let count = length_three (224 + c / 4096) (omega arith) (omega arith) in
    record {
      first = 224 + c / 4096;
      more = tail_byte (c / 64) ∷ tail_byte c ∷ [];
      written = rw (e₁, e₂, e₃) refl;
      counted = count;
      decoded = λ cs. rw count (ap ok (three c low high));
      plain = rw (n₁, n₂, n₃) refl;
    }

Encoded-four : (c : ℕ) → 65535 < c → c ≤ 1114111 → Encoded c
unfolding utf8_encode_into utf8_decode decode_bytes
Encoded-four c low high =
    let e₁ : leb c 127 ≡ false = ground arith in
    let e₂ : leb c 2047 ≡ false = ground arith in
    let e₃ : leb c 65535 ≡ false = ground arith in
    let e₄ : leb c 1114111 ≡ true = ground arith in
    let n₁ : (240 + c / 262144 == 0) ≡ false = ground arith in
    let n₂ : (128 + c / 4096 % 128 == 0) ≡ false = ground arith in
    let n₃ : (128 + c / 64 % 128 == 0) ≡ false = ground arith in
    let n₄ : (128 + c % 128 == 0) ≡ false = ground arith in
    let count = length_four (240 + c / 262144) (omega arith) (omega arith) in
    record {
      first = 240 + c / 262144;
      more = tail_byte (c / 4096) ∷ tail_byte (c / 64) ∷ tail_byte c ∷ [];
      written = rw (e₁, e₂, e₃, e₄) refl;
      counted = count;
      decoded = λ cs. rw count (ap ok (four c low high));
      plain = rw (n₁, n₂, n₃, n₄) refl;
    }

encoded : (c : ℕ) → 0 < c → c ≤ 1114111 → Encoded c
encoded c positive high = elim (Bool-cases (leb c 127)) [
  | inl one ↦ Encoded-one c positive (ground arith)
  | inr above ↦ elim (Bool-cases (leb c 2047)) [
    | inl two ↦ Encoded-two c (ground arith) (ground arith)
    | inr above' ↦ elim (Bool-cases (leb c 65535)) [
      | inl three ↦ Encoded-three c (ground arith) (ground arith)
      | inr above'' ↦ Encoded-four c (ground arith) high
    ]
  ]
]

-- Code points other than 0, up to the largest.
abbrev pub IsText : List ℕ → Type 0
IsText [] = Unit {0}
IsText (c ∷ cs) = (0 < c) × (c ≤ 1114111) × IsText cs

abbrev pub head_or_zero : List ℕ → ℕ
head_or_zero [] = 0
head_or_zero (c ∷ cs) = c

take_all : (cs : Bytes) → take (length cs) cs ≡ cs
take_all [] = refl
take_all (c ∷ cs) = ap (λ ds. c ∷ ds) (take_all cs)

skip-append : (cs ds : Bytes) → skip (length cs) (cs ++ ds) ≡ ok ds
unfolding skip
skip-append [] ds = refl
skip-append (c ∷ cs) ds = skip-append cs ds

no_nul-append : (cs ds : Bytes) → no_nul cs ≡ true → no_nul ds ≡ true → no_nul (cs ++ ds) ≡ true
no_nul-append [] ds h k = k
no_nul-append (c ∷ cs) ds h k = ground (arith, no_nul-append cs ds (ground arith) k)

record ReadBack (cs : List ℕ) : Type 0 where
  bytes : Bytes
  written : encode_all cs ≡ ok bytes
  plain : no_nul bytes ≡ true
  current : utf8_iter_current bytes ≡ ok (head_or_zero cs)
  points : (f : ℕ) → length bytes ≤ f → code_points f (head_or_zero cs) bytes ≡ ok cs

more_points :
    (f c : ℕ) (first : ℕ) (more rest : Bytes) (cs : List ℕ)
    → 0 < c
    → utf8_char_length first ≡ ok (suc (length more))
    → utf8_iter_current rest ≡ ok (head_or_zero cs)
    → code_points f (head_or_zero cs) rest ≡ ok cs
    → code_points (suc f) c (first ∷ more ++ rest) ≡ ok (c ∷ cs)
unfolding code_points utf8_iter_next
more_points f zero first more rest cs positive count current points = absurd (omega arith)
more_points f (suc n) first more rest cs positive count current points =
    rw (count, utf8_iter_next)
      (rw (skip-append (first ∷ more) rest, utf8_iter_next)
        (rw (current, utf8_iter_next) (rw (points, code_points) refl)))

read_back : (cs : List ℕ) → IsText cs → ReadBack cs
unfolding encode_all utf8_iter_current code_points
read_back [] h = record {
  bytes = [];
  written = refl;
  plain = refl;
  current = refl;
  points = λ f le. refl;
}
read_back (c ∷ cs) (positive, high, h) =
    let e = encoded c positive high in
    let r = read_back cs h in
    record {
      bytes = e.first ∷ e.more ++ r.bytes;
      written =
          rw e.written (
            rw e.counted
              (rw r.written (ap (λ ds. ok (e.first ∷ ds ++ r.bytes)) (take_all e.more))));
      plain = no_nul-append (e.first ∷ e.more) r.bytes e.plain r.plain;
      current = e.decoded r.bytes;
      points = points_from e r;
    }
  where
    points_from :
        (e : Encoded c) (r : ReadBack cs) (f : ℕ)
        → length (e.first ∷ e.more ++ r.bytes) ≤ f
        → code_points f c (e.first ∷ e.more ++ r.bytes) ≡ ok (c ∷ cs)
    points_from e r zero le = absurd (omega arith)
    points_from e r (suc f) le =
        more_points f c e.first e.more r.bytes cs positive e.counted r.current
          (r.points f (omega (arith, length-append e.more r.bytes)))

-- A text of code points other than 0 is encoded to a string, from which the same text is read back, and
-- which counts as many code points.
pub text_to_string_lem :
    (cs : List ℕ)
    → IsText cs
    → (string : Bytes) × (text_to_string cs ≡ ok string)
      × (text_from_string string ≡ ok cs)
      × (utf8_string_length string ≡ ok (length cs))
unfolding text_to_string text_from_string utf8_string_length
text_to_string_lem cs h =
    let r = read_back cs h in
    let points = r.points (length r.bytes) (omega arith) in
    (
      r.bytes,
      rw r.written (ap ok (before_nul-eq r.bytes r.plain)),
      rw r.current (rw points refl),
      rw r.current (rw points refl),
    )
