-- ===== src/Money/Compare.antt =====
-- `Cmp` of internal/money/money.go against the order of the numbers.
use vtessera.Common.{
  ℕ, zero, suc, ◌+◌, ◌-◌, ◌*◌, ◌≤◌, max, ◌≡◌, refl, ap, ap₂, sym, ◌∙◌, true, ◌++◌, length,
  replicate, all, arith, compare, all-append, all-replicate, length-append, length-replicate, ok,
  pos,
}
use Prim.Native.Nat.add
use vtessera.Bytes.{Bytes, is_digit, from_digits}
use vtessera.Bytes.Digits.{from_digits-append, compare_bytes-digits}
use vtessera.Money.{Amount, cmp, align, base_units}
use vtessera.Money.Digits.{IsDecimal, units_at, integer_of, fraction_of}
use vtessera.Money.BaseUnits.{base_units-exact}

length-align :
    (i f : Bytes) (w s : ℕ) → length i ≤ w → length f ≤ s → length (align i f w s) ≡ w + s
unfolding align
length-align i f w s h k = simp (length-append, length-replicate) (omega arith)

align-digits :
    (i f : Bytes) (w s : ℕ)
    → all is_digit i ≡ true
    → all is_digit f ≡ true
    → all is_digit (align i f w s) ≡ true
unfolding align
align-digits i f w s h k =
    all-append is_digit (replicate (w - length i) b'0') _
      (all-replicate is_digit (w - length i) b'0' refl)
      (all-append is_digit i _ h
        (all-append is_digit f _ k (all-replicate is_digit (s - length f) b'0' refl)))

pub from_digits-leading :
    (n : ℕ) (xs : Bytes) → from_digits 0 (replicate n b'0' ++ xs) ≡ from_digits 0 xs
unfolding from_digits
from_digits-leading zero xs = refl
from_digits-leading (suc n) xs = from_digits-leading n xs

from_digits-align :
    (i f : Bytes) (w s : ℕ)
    → from_digits 0 (align i f w s) ≡ from_digits 0 (i ++ (f ++ replicate (s - length f) b'0'))
unfolding align
from_digits-align i f w s = from_digits-leading (w - length i) _

from_digits-trailing :
    (acc n : ℕ) → from_digits acc (replicate (suc n) b'0') ≡ from_digits acc (replicate n b'0') * 10
unfolding from_digits
from_digits-trailing acc zero = omega arith
from_digits-trailing acc (suc n) = from_digits-trailing (acc * 10 + 0) n

-- One more fraction digit makes ten times as many units.
pub units_at-suc :
    (s : ℕ) (a : Amount) → length (fraction_of a) ≤ s → units_at (suc s) a ≡ units_at s a * 10
unfolding units_at
units_at-suc s a h =
    let n : ℕ = s - length (fraction_of a) in
    let more : suc s - length (fraction_of a) ≡ suc n = omega arith in
    rw
      (
        more,
        from_digits-append 0 (integer_of a) (fraction_of a ++ replicate (suc n) b'0'),
        from_digits-append _ (fraction_of a) (replicate (suc n) b'0'),
        from_digits-append 0 (integer_of a) (fraction_of a ++ replicate n b'0'),
        from_digits-append _ (fraction_of a) (replicate n b'0'),
      )
      (from_digits-trailing (from_digits (from_digits 0 (integer_of a)) (fraction_of a)) n)

compare-scale : (x y : ℕ) → compare (x * 10) (y * 10) ≡ compare x y
compare-scale x y = ground arith

-- At the scale that `Cmp` picks.
cmp-max :
    (a b : Amount)
    → IsDecimal a
    → IsDecimal b
    → let s = max (length (fraction_of a)) (length (fraction_of b)) in
      cmp a b ≡ compare (units_at s a) (units_at s b)
unfolding cmp units_at
cmp-max a b ha hb =
    let s : ℕ = max (length (fraction_of a)) (length (fraction_of b)) in
    let w : ℕ = max (length (integer_of a)) (length (integer_of b)) in
    compare_bytes-digits (align (integer_of a) (fraction_of a) w s)
      (align (integer_of b) (fraction_of b) w s)
      (length-align (integer_of a) (fraction_of a) w s (omega arith) (omega arith)
        ∙ sym (length-align (integer_of b) (fraction_of b) w s (omega arith) (omega arith)))
      (align-digits (integer_of a) (fraction_of a) w s ha.integer_digits ha.fraction_digits)
      (align-digits (integer_of b) (fraction_of b) w s hb.integer_digits hb.fraction_digits)
    ∙ ap₂ compare (from_digits-align (integer_of a) (fraction_of a) w s)
        (from_digits-align (integer_of b) (fraction_of b) w s)

compare-units_at_add :
    (k s : ℕ) (a b : Amount)
    → length (fraction_of a) ≤ s
    → length (fraction_of b) ≤ s
    → compare (units_at (k + s) a) (units_at (k + s) b) ≡ compare (units_at s a) (units_at s b)
compare-units_at_add zero s a b ha hb = rw (add.zero s)
compare-units_at_add (suc k) s a b ha hb =
    rw
      (
        add.suc k s,
        units_at-suc (k + s) a (omega arith),
        units_at-suc (k + s) b (omega arith),
        compare-scale,
      )
      (compare-units_at_add k s a b ha hb)

-- `Cmp` is the order of the numbers of units, at any scale that keeps all digits of both.
pub cmp-compare :
    (s : ℕ) (a b : Amount)
    → IsDecimal a
    → IsDecimal b
    → length (fraction_of a) ≤ s
    → length (fraction_of b) ≤ s
    → cmp a b ≡ compare (units_at s a) (units_at s b)
cmp-compare s a b ha hb la lb =
    let m : ℕ = max (length (fraction_of a)) (length (fraction_of b)) in
    let e : s - m + m ≡ s = omega arith in
    cmp-max a b ha hb
    ∙ sym (compare-units_at_add (s - m) m a b (omega arith) (omega arith))
    ∙ ap (λ (n : ℕ). compare (units_at n a) (units_at n b)) e

-- Where both amounts convert to base units, `Cmp` of the amounts is the order of their units.
pub cmp-base_units :
    (decimals : ℕ) (a b : Amount) {x y : ℕ}
    → IsDecimal a
    → IsDecimal b
    → base_units a (pos decimals) ≡ ok x
    → base_units b (pos decimals) ≡ ok y
    → cmp a b ≡ compare x y
cmp-base_units decimals a b ha hb ea eb = ground (
  arith,
  base_units-exact a decimals ha,
  base_units-exact b decimals hb,
  cmp-compare decimals a b ha hb,
)
