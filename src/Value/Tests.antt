-- ===== src/Value/Tests.antt =====
-- The theorems on src/value at concrete words.
use mathlib.Core.Bool.{xor}
use inet_forth.Value.{
  is_negative, magnitude, fits_int64, xint, to_int64, xint_add, xint_sub, xint_mul, xfloat,
  to_double, xbool, to_bool,
}
use inet_forth.Value.Ints.{extend, Fits, to_int64-xint, xint_ring}
use inet_forth.Value.Tags.{kinds, kinds_exclusive, unbox_box}
use inet_forth.Base.{
  arith, err, false, ok, refl, true, undefined, ℕ, ◌%◌, ◌*◌, ◌+◌, ◌-◌, ◌^◌, ◌↔◌, ◌≡◌,
}

-- The number 2 ^ 62 + 5 does not fit into 61 bits.
to_int64-xint_example :
    (m : ℕ) × (to_int64 (xint (2 ^ 62 + 5)) ≡ ok m)
    × Fits m
    × (m % 2 ^ 61 ≡ (2 ^ 62 + 5) % 2 ^ 61)
    × ((m ≡ 2 ^ 62 + 5) ↔ Fits (2 ^ 62 + 5))
to_int64-xint_example = to_int64-xint (2 ^ 62 + 5) (omega arith)

-- Three and minus one.
xint_ring_example :
    (xint_add (xint 3) (xint (2 ^ 64 - 1)) ≡ ok (xint (3 + (2 ^ 64 - 1))))
    × (xint_sub (xint 3) (xint (2 ^ 64 - 1)) ≡ ok (xint (3 + 2 ^ 64 - (2 ^ 64 - 1))))
    × (xint_mul (xint 3) (xint (2 ^ 64 - 1)) ≡ ok (xint (3 * (2 ^ 64 - 1))))
unfolding xor extend is_negative magnitude fits_int64
xint_ring_example = xint_ring 3 (2 ^ 64 - 1) (omega arith) (omega arith)

-- 2 ^ 32 times 2 ^ 31 is no `int64_t`, and its negation is one.
overflows : xint_mul (xint (2 ^ 32)) (xint (2 ^ 31)) ≡ err undefined
unfolding xint_mul xor
overflows = refl

least : xint_mul (xint (2 ^ 32)) (xint (2 ^ 64 - 2 ^ 31)) ≡ ok (xint (2 ^ 63))
unfolding xint_mul xor
least = refl

kinds_exclusive_example :
    (kinds (xint 7) ≡ (true, false, false, false))
    × (kinds (xfloat 7) ≡ (false, true, false, false))
    × (kinds (xbool true) ≡ (false, false, true, false))
    × (kinds 64 ≡ (false, false, false, true))
    × (kinds 0 ≡ (false, false, false, false))
kinds_exclusive_example = kinds_exclusive 7 64 true (omega arith) refl

unbox_box_example :
    (to_double (xfloat 0x3ff0000000000001) ≡ ok (0x3ff0000000000001 - 0x3ff0000000000001 % 8))
    × (to_bool (xbool false) ≡ ok false)
unbox_box_example = unbox_box 0x3ff0000000000001 false
