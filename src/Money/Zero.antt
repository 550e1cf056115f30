-- ===== src/Money/Zero.antt =====
-- `IsZero` of internal/money/money.go.
use vtessera.Common.{
  ℕ, zero, suc, ◌+◌, ◌-◌, ◌*◌, ◌≡◌, ◌↔◌, refl, ap, ◌∙◌, inl, inr, Bool, true, [], ◌∷◌, ◌++◌, length,
  replicate, all, arith, ◌&&◌, is_empty,
}
use vtessera.Bytes.{Bytes, is_digit, trim_left, trim_right, trim, from_digits}
use vtessera.Bytes.Digits.{from_digits-append}
use vtessera.Money.{Amount, is_zero, is_zero_byte}
use vtessera.Money.Digits.{IsDecimal, units_at, integer_of, fraction_of, cut-whole}

trim_right-empty : (p : ℕ → Bool) (xs : Bytes) → is_empty (trim_right p xs) ≡ all p xs
unfolding trim_right
trim_right-empty p [] = refl
trim_right-empty p (x ∷ xs) = ground (arith, trim_right-empty p xs)

trim-empty : (p : ℕ → Bool) (xs : Bytes) → is_empty (trim p xs) ≡ all p xs
unfolding trim trim_left
trim-empty p [] = refl
trim-empty p (x ∷ xs) = ground (arith, trim-empty p xs, trim_right-empty p (x ∷ xs))

abbrev are_zeros : Bytes → Bool
are_zeros = all is_zero_byte

from_digits-eq_zero :
    (acc : ℕ) (xs : Bytes)
    → all is_digit xs ≡ true
    → (from_digits acc xs ≡ 0) ↔ ((acc ≡ 0) × (are_zeros xs ≡ true))
unfolding from_digits
from_digits-eq_zero acc [] h = ground arith
from_digits-eq_zero acc (x ∷ xs) h = ground (arith, from_digits-eq_zero (acc * 10 + (x - b'0')) xs)

from_digits-zeros : (acc n : ℕ) → (from_digits acc (replicate n b'0') ≡ 0) ↔ (acc ≡ 0)
unfolding from_digits
from_digits-zeros acc zero = ground arith
from_digits-zeros acc (suc n) =
    ground (arith, from_digits-zeros (acc * 10) n, from_digits-zeros (acc * 10 + 0) n)

zeros-point : (i f : Bytes) → are_zeros (i ++ (b'.' ∷ f)) ≡ (are_zeros i && are_zeros f)
zeros-point [] f = refl
zeros-point (x ∷ xs) f = ground (arith, zeros-point xs f)

zeros-parts :
    (a : Amount) → are_zeros a.value ≡ (are_zeros (integer_of a) && are_zeros (fraction_of a))
zeros-parts a = elim (cut-whole a.value) [
  | inl p ↦ ap are_zeros p.1 ∙ zeros-point (integer_of a) (fraction_of a)
  | inr p ↦ ground (arith, ap are_zeros p.1, ap are_zeros p.2)
]

-- An amount is zero exactly if it stands for no unit at any scale.
pub is_zero-iff_no_units :
    (a : Amount) (scale : ℕ) → IsDecimal a → (is_zero a ≡ true) ↔ (units_at scale a ≡ 0)
unfolding is_zero units_at
is_zero-iff_no_units a scale h =
    rw
      (
        trim-empty is_zero_byte a.value,
        zeros-parts a,
        from_digits-append 0 (integer_of a),
        from_digits-append _ (fraction_of a),
      )
      (ground (
        arith,
        from_digits-zeros (from_digits (from_digits 0 (integer_of a)) (fraction_of a))
            (scale - length (fraction_of a)),
        from_digits-eq_zero (from_digits 0 (integer_of a)) (fraction_of a) h.fraction_digits,
        from_digits-eq_zero 0 (integer_of a) h.integer_digits,
      ))
