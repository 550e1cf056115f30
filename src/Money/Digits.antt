-- ===== src/Money/Digits.antt =====
-- The integer and fraction part of an amount, and the number that it stands for at a scale.
use vtessera.Common.{
  ℕ, ◌-◌, ◌≡◌, refl, ◌⊎◌, inr, true, false, [], ◌∷◌, ◌++◌, length, replicate, all, arith,
}
use vtessera.Bytes.{Bytes, cut, is_digit, from_digits, contains_any}
use vtessera.Money.{Amount}

abbrev pub integer_of : Amount → Bytes
integer_of a = (cut b'.' a.value).0

abbrev pub fraction_of : Amount → Bytes
fraction_of a = (cut b'.' a.value).1

-- Both parts are runs of digits, as `Parse` leaves them; the zero value has two empty ones.
pub record IsDecimal (a : Amount) : Type 0 where
  pub integer_digits : all is_digit (integer_of a) ≡ true
  pub fraction_digits : all is_digit (fraction_of a) ≡ true

-- The amount as a count of units, ten to the power of `scale` to the whole.
unfoldable pub units_at : ℕ → Amount → ℕ
units_at scale a =
    from_digits 0
      (integer_of a ++ (fraction_of a ++ replicate (scale - length (fraction_of a)) b'0'))

-- A cut at the first of a byte that the front does not hold.
pub cut-point :
    (xs ys : Bytes) → all is_digit xs ≡ true → cut b'.' (xs ++ (b'.' ∷ ys)) ≡ (xs, ys, true)
unfolding cut
cut-point [] ys h = refl
cut-point (x ∷ xs) ys h = ground (arith, cut-point xs ys)

pub cut-digits : (xs : Bytes) → all is_digit xs ≡ true → cut b'.' xs ≡ (xs, [], false)
unfolding cut
cut-digits [] h = refl
cut-digits (x ∷ xs) h = ground (arith, cut-digits xs)

-- What a cut takes apart.
pub cut-whole :
    (xs : Bytes)
    → let (i, f, found) = cut b'.' xs in
      ((found ≡ true) × (xs ≡ i ++ (b'.' ∷ f))) ⊎ ((found ≡ false) × (xs ≡ i) × (f ≡ []))
unfolding cut
cut-whole [] = inr (refl, refl, refl)
cut-whole (x ∷ xs) = ground (arith, cut-whole xs)

pub contains_any-digits : (xs : Bytes) → all is_digit xs ≡ true → contains_any b'e' b'E' xs ≡ false
unfolding contains_any
contains_any-digits [] h = refl
contains_any-digits (x ∷ xs) h = ground (arith, contains_any-digits xs)

pub contains_any-point :
    (xs ys : Bytes)
    → all is_digit xs ≡ true
    → all is_digit ys ≡ true
    → contains_any b'e' b'E' (xs ++ (b'.' ∷ ys)) ≡ false
unfolding contains_any
contains_any-point [] ys h k = contains_any-digits ys k
contains_any-point (x ∷ xs) ys h k = ground (arith, contains_any-point xs ys)
