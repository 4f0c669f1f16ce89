-- ===== src/Value/Ints.antt =====
-- Laws of src/value/xint.c: what survives the truncation to 61 bits, and arithmetic modulo 2 ^ 61.
use inet_forth.Base.{
  Bool-cases, ap, arith, err, if◌then◌else◌, inl, inr, leb, ltb, ok, refl, subst, sym, true,
  undefined, ℕ, ◌%◌, ◌*◌, ◌+◌, ◌-◌, ◌/◌, ◌<◌, ◌^◌, ◌↔◌, ◌∙◌, ◌≡◌, ◌≤◌, ◌⊎◌,
}
use mathlib.Core.Bool.{xor}
use inet_forth.Value.{
  is_negative, magnitude, with_sign, fits_int64, int64_mul, word_mod, xint, is_xint, to_int64,
  shift_right, xint_add, xint_sub, xint_mul,
}

-- An `int64_t` pattern whose value lies in [-2 ^ 60, 2 ^ 60).
abbrev pub Fits : ℕ → Type 0
Fits n = (n < 2 ^ 60) ⊎ (2 ^ 64 - 2 ^ 60 ≤ n)

xint-is_xint : (n : ℕ) → is_xint (xint n) ≡ true
unfolding xint is_xint
xint-is_xint n = ground arith

-- The sign extension of the low 61 bits: the content of a boxed number.
unfoldable pub extend : ℕ → ℕ
extend n = if ltb (n % 2 ^ 61) (2 ^ 60) then n % 2 ^ 61 else n % 2 ^ 61 + 7 * 2 ^ 61

shift_right-xint : (n : ℕ) → shift_right (xint n) ≡ extend n
unfolding xint shift_right extend
shift_right-xint n = ground arith

to_int64-xint-extend : (n : ℕ) → to_int64 (xint n) ≡ ok (extend n)
unfolding to_int64
to_int64-xint-extend n = rw (xint-is_xint n) (ap ok (shift_right-xint n))

extend-mod : (n : ℕ) → extend n % 2 ^ 61 ≡ n % 2 ^ 61
unfolding extend
extend-mod n = ground arith

extend-Fits : (n : ℕ) → Fits (extend n)
unfolding extend
extend-Fits n = elim (Bool-cases (ltb (n % 2 ^ 61) (2 ^ 60))) [
  | inl e ↦ inl (ground arith)
  | inr e ↦ inr (ground arith)
]

extend-eq_of_Fits : (n : ℕ) → n < word_mod → Fits n → extend n ≡ n
unfolding extend
extend-eq_of_Fits n h (inl f) = ground arith
extend-eq_of_Fits n h (inr f) = ground arith

-- Boxing an `int64_t` always gives an integer value, whose content is an integer in
-- [-2 ^ 60, 2 ^ 60) equal to it modulo 2 ^ 61; it is the boxed integer itself exactly when that
-- lies in the range.
pub to_int64-xint :
    (n : ℕ)
    → n < 2 ^ 64
    → (m : ℕ) × (to_int64 (xint n) ≡ ok m) × Fits m × (m % 2 ^ 61 ≡ n % 2 ^ 61) × ((m ≡ n) ↔ Fits n)
to_int64-xint n h = (
  extend n,
  to_int64-xint-extend n,
  extend-Fits n,
  extend-mod n,
  ((λ e. subst Fits e (extend-Fits n)), extend-eq_of_Fits n h),
)

extend_lt : (n : ℕ) → extend n < 2 ^ 64
unfolding extend
extend_lt n = ground arith

xint-mod : (a b : ℕ) → a % 2 ^ 61 ≡ b % 2 ^ 61 → xint a ≡ xint b
unfolding xint
xint-mod a b h = omega arith

mul-mod_parts : (q r t s : ℕ) → (q * 2 ^ 61 + r) * (t * 2 ^ 61 + s) % 2 ^ 61 ≡ r * s % 2 ^ 61
mul-mod_parts q r t s = omega arith

mul-mod : (a b : ℕ) → a * b % 2 ^ 61 ≡ (a % 2 ^ 61) * (b % 2 ^ 61) % 2 ^ 61
mul-mod a b =
    let split : (n : ℕ) → n ≡ n / 2 ^ 61 * 2 ^ 61 + n % 2 ^ 61 = λ n. omega arith in
    subst (λ c. c * b % 2 ^ 61 ≡ (a % 2 ^ 61) * (b % 2 ^ 61) % 2 ^ 61) (sym (split a))
      (subst
        (λ c.
          (a / 2 ^ 61 * 2 ^ 61 + a % 2 ^ 61) * c % 2 ^ 61 ≡ (a % 2 ^ 61) * (b % 2 ^ 61) % 2 ^ 61)
        (sym (split b)) (mul-mod_parts (a / 2 ^ 61) (a % 2 ^ 61) (b / 2 ^ 61) (b % 2 ^ 61)))

extend_mul : (a b : ℕ) → extend a * extend b % 2 ^ 61 ≡ a * b % 2 ^ 61
extend_mul a b =
    mul-mod (extend a) (extend b)
    ∙ ap (λ c. c * (extend b % 2 ^ 61) % 2 ^ 61) (extend-mod a)
    ∙ ap (λ c. (a % 2 ^ 61) * c % 2 ^ 61) (extend-mod b)
    ∙ sym (mul-mod a b)

mul_parts : (c a b : ℕ) → c * b + a * b ≡ (c + a) * b
mul_parts c a b = omega arith

complement_mul : (a b : ℕ) → a < 2 ^ 64 → (2 ^ 64 - a) * b + a * b ≡ 2 ^ 64 * b
complement_mul a b h =
    let whole : 2 ^ 64 - a + a ≡ 2 ^ 64 = omega arith in
    mul_parts (2 ^ 64 - a) a b ∙ ap (λ n. n * b) whole

complement_mul_right : (a b : ℕ) → b < 2 ^ 64 → a * (2 ^ 64 - b) + a * b ≡ 2 ^ 64 * a
complement_mul_right a b h =
    let swap : a * (2 ^ 64 - b) + a * b ≡ (2 ^ 64 - b) * a + b * a = omega arith in
    swap ∙ complement_mul b a h

-- The sign and magnitude of a product in range are those of the product of the patterns.
int64_mul_in_range :
    (a b : ℕ)
    → a < 2 ^ 64
    → b < 2 ^ 64
    → fits_int64 (xor (is_negative a) (is_negative b)) (magnitude a * magnitude b) ≡ true
    → with_sign (xor (is_negative a) (is_negative b)) (magnitude a * magnitude b) % 2 ^ 61
      ≡ a * b % 2 ^ 61
unfolding is_negative magnitude with_sign fits_int64 xor
int64_mul_in_range a b ha hb h = elim (Bool-cases (leb (2 ^ 63) a)) [
  | inl e ↦ elim (Bool-cases (leb (2 ^ 63) b)) [
    | inl f ↦
        rw (e, f) (omega (arith, complement_mul a b ha, complement_mul_right (2 ^ 64 - a) b hb))
    | inr f ↦ rw (e, f) (ground (arith, (rw (e, f) at h), complement_mul a b ha))
  ]
  | inr e ↦ elim (Bool-cases (leb (2 ^ 63) b)) [
    | inl f ↦ rw (e, f) (ground (arith, (rw (e, f) at h), complement_mul_right a b hb))
    | inr f ↦ rw (e, f) refl
  ]
]

-- The boxed operations compute in the integers modulo 2 ^ 61: on boxed numbers the sum and the
-- difference are the boxed sum and difference of those numbers, and so is the product when the
-- product of the contents is an `int64_t`. When it is not, the multiplication is undefined.
pub xint_ring :
    (a b : ℕ)
    → a < 2 ^ 64
    → b < 2 ^ 64
    → (xint_add (xint a) (xint b) ≡ ok (xint (a + b)))
      × (xint_sub (xint a) (xint b) ≡ ok (xint (a + 2 ^ 64 - b)))
      × (xint_mul (xint a) (xint b) ≡ (
          if fits_int64
            (xor (is_negative (extend a)) (is_negative (extend b)))
            (magnitude (extend a) * magnitude (extend b))
          then ok (xint (a * b))
          else err undefined))
unfolding xint_add xint_sub xint_mul int64_mul
xint_ring a b ha hb = (
  rw (to_int64-xint-extend a, to_int64-xint-extend b)
      (ap ok (xint-mod _ _ (omega (arith, extend-mod a, extend-mod b)))),
  rw (to_int64-xint-extend a, to_int64-xint-extend b)
      (ap ok (xint-mod _ _ (omega (arith, extend-mod a, extend-mod b, extend_lt b)))),
  rw (to_int64-xint-extend a, to_int64-xint-extend b)
      (elim (Bool-cases (
        fits_int64 (xor (is_negative (extend a)) (is_negative (extend b)))
          (magnitude (extend a) * magnitude (extend b)))) [
            | inl e ↦ rw e (
                ap ok (
                  xint-mod _ _
                    (int64_mul_in_range _ _ (extend_lt a) (extend_lt b) e ∙ extend_mul a b)))
            | inr e ↦ rw e refl
          ]),
)
