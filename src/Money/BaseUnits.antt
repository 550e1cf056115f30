-- ===== src/Money/BaseUnits.antt =====
-- `BaseUnits` of internal/money/money.go against the number that a decimal string stands for.
use vtessera.Common.{
  ℕ, ◌-◌, ◌≡◌, refl, Bool, true, [], ◌∷◌, ◌++◌, length, replicate, all, arith, ok, err, ltb,
  if◌then◌else◌, ◌==◌, pos, all-append, all-replicate,
}
use vtessera.Bytes.{Bytes, is_digit, trim_left, parse_uint, from_digits, u64_mod}
use vtessera.Bytes.Digits.{from_digits-trim_left}
use vtessera.Money.{Amount, base_units, units_of_digits, non_canonical, too_precise, overflow}
use vtessera.Money.Digits.{IsDecimal, units_at, integer_of, fraction_of}

trim_left-all : (p q : ℕ → Bool) (xs : Bytes) → all p xs ≡ true → all p (trim_left q xs) ≡ true
unfolding trim_left
trim_left-all p q [] h = refl
trim_left-all p q (x ∷ xs) h = ground (arith, trim_left-all p q xs)

units_of_digits-eq :
    (xs : Bytes)
    → all is_digit xs ≡ true
    → units_of_digits xs
      ≡ (if ltb (from_digits 0 xs) u64_mod then ok (from_digits 0 xs) else err overflow)
unfolding units_of_digits parse_uint from_digits
units_of_digits-eq [] h = refl
units_of_digits-eq (x ∷ xs) h = ground arith

-- The digits that `BaseUnits` reads are digits.
scaled_digits :
    (d : ℕ) (a : Amount)
    → IsDecimal a
    → all is_digit (integer_of a ++ (fraction_of a ++ replicate (d - length (fraction_of a)) b'0'))
      ≡ true
scaled_digits d a h = all-append is_digit (integer_of a) _ h.integer_digits (
    all-append is_digit (fraction_of a) _ h.fraction_digits
      (all-replicate is_digit (d - length (fraction_of a)) b'0' refl))

-- At `decimals` up to nine, `BaseUnits` is the number of units that the string stands for; it
-- fails only if the string has more fraction digits than that, or if the number needs 65 bits.
pub base_units-exact :
    (a : Amount) (decimals : ℕ)
    → IsDecimal a
    → base_units a (pos decimals) ≡ (
        if ltb 9 decimals
        then err non_canonical
        else if ltb decimals (length (fraction_of a))
        then err too_precise
        else if ltb (units_at decimals a) u64_mod
        then ok (units_at decimals a)
        else err overflow)
unfolding base_units units_at
base_units-exact a decimals h =
    rw
      (units_of_digits-eq _
        (trim_left-all is_digit (λ c. c == b'0') _ (scaled_digits decimals a h)))
      (rw from_digits-trim_left (ground arith))
