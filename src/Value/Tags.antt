-- ===== src/Value/Tags.antt =====
-- Laws of the tags of src/value: each maker yields its own kind of value, and the kinds exclude one
-- another.
use inet_forth.Base.{Bool, arith, false, ok, refl, true, ℕ, ◌%◌, ◌-◌, ◌<◌, ◌≡◌}
use inet_forth.Value.{
  xint, is_xint, xfloat, is_xfloat, to_double, is_xobject, xbool, is_xbool, to_bool,
}

-- Which of the four tests a word passes.
abbrev pub kinds : ℕ → Bool × Bool × Bool × Bool
kinds w = (is_xint w, is_xfloat w, is_xbool w, is_xobject w)

kinds-xbool : (b : Bool) → kinds (xbool b) ≡ (false, false, true, false)
unfolding is_xint is_xfloat xbool is_xbool is_xobject
kinds-xbool true = refl
kinds-xbool false = refl

to_bool-xbool : (b : Bool) → to_bool (xbool b) ≡ ok b
unfolding to_bool xbool
to_bool-xbool true = refl
to_bool-xbool false = refl

-- A boxed integer, float or Boolean passes the test of its own kind and no other; an address that
-- is a multiple of eight and not null is an object and nothing else; null is of no kind.
pub kinds_exclusive :
    (n a : ℕ) (b : Bool)
    → 0 < a
    → a % 8 ≡ 0
    → (kinds (xint n) ≡ (true, false, false, false))
      × (kinds (xfloat n) ≡ (false, true, false, false))
      × (kinds (xbool b) ≡ (false, false, true, false))
      × (kinds a ≡ (false, false, false, true))
      × (kinds 0 ≡ (false, false, false, false))
unfolding xint is_xint xfloat is_xfloat xbool is_xbool is_xobject
kinds_exclusive n a b pos aligned = (ground arith, ground arith, kinds-xbool b, ground arith, refl)

-- A double loses its low three bits and keeps all others; a Boolean comes back as it was.
pub unbox_box :
    (bits : ℕ) (b : Bool)
    → (to_double (xfloat bits) ≡ ok (bits - bits % 8)) × (to_bool (xbool b) ≡ ok b)
unfolding to_double xfloat to_bool xbool
unbox_box bits b = (ground arith, to_bool-xbool b)
