-- ===== src/Bytes/Digits.antt =====
-- Runs of digits and the numbers that they stand for.
use vtessera.Common.{
  ℕ, zero, suc, ◌+◌, ◌-◌, ◌*◌, ◌/◌, ◌%◌, ◌^◌, ◌≤◌, ◌<◌, ◌≡◌, refl, ap, true, false, [], ◌∷◌, ◌++◌,
  compare, arith, all, length, ◌==◌,
}
use native.Mathlib.Nat.{pow-suc}
use vtessera.Bytes.{
  Bytes, has_prefix, trim_left, compare_bytes, is_digit, from_digits, format_digits,
}

pub from_digits-append :
    (acc : ℕ) (xs ys : Bytes) → from_digits acc (xs ++ ys) ≡ from_digits (from_digits acc xs) ys
unfolding from_digits
from_digits-append acc [] ys = refl
from_digits-append acc (x ∷ xs) ys = from_digits-append (acc * 10 + (x - b'0')) xs ys

-- The digits before a run weigh as much as its length says.
pub from_digits-acc :
    (acc : ℕ) (xs : Bytes) → from_digits acc xs ≡ acc * 10 ^ length xs + from_digits 0 xs
unfolding from_digits
from_digits-acc acc [] = omega arith
from_digits-acc acc (x ∷ xs) =
    rw (from_digits-acc (acc * 10 + (x - b'0')) xs)
      (rw (from_digits-acc (0 + (x - b'0')) xs) (rw (pow-suc 10 (length xs)) (omega arith)))

-- The first digit of a run weighs ten to the power of the length of the rest.
pub from_digits-cons :
    (x : ℕ) (xs : Bytes) → from_digits 0 (x ∷ xs) ≡ (x - b'0') * 10 ^ length xs + from_digits 0 xs
unfolding from_digits
from_digits-cons x xs = rw (from_digits-acc (0 + (x - b'0')) xs) (omega arith)

lt_of_digit : (d p v : ℕ) → d ≤ 9 → v < p → d * p + v < p * 10
lt_of_digit d p v h k = grind arith

digit-le : (x : ℕ) → is_digit x ≡ true → x - b'0' ≤ 9
digit-le x h = ground arith

-- A run of digits stands for less than ten to the power of its length.
pub from_digits-lt : (xs : Bytes) → all is_digit xs ≡ true → from_digits 0 xs < 10 ^ length xs
from_digits-lt [] h = unfold from_digits in omega arith
from_digits-lt (x ∷ xs) h = rw (from_digits-cons x xs) (
    rw (pow-suc 10 (length xs)) (
      lt_of_digit (x - b'0') (10 ^ length xs) (from_digits 0 xs) (ground arith)
        (from_digits-lt xs (ground arith))))

pub from_digits-trim_left :
    (xs : Bytes) → from_digits 0 (trim_left (λ c. c == b'0') xs) ≡ from_digits 0 xs
unfolding from_digits trim_left
from_digits-trim_left [] = refl
from_digits-trim_left (x ∷ xs) = ground (arith, from_digits-trim_left xs)

pub from_digits-format_digits :
    (f n : ℕ) (acc : Bytes)
    → n < 10 ^ suc f
    → from_digits 0 (format_digits (suc f) n acc) ≡ from_digits n acc
unfolding from_digits format_digits
from_digits-format_digits zero n acc h = ground arith
from_digits-format_digits (suc f) n acc h =
    ground (arith, from_digits-format_digits f (n / 10) ((b'0' + n % 10) ∷ acc), pow-suc 10 (suc f))

digit_order : (x y p u v : ℕ) → x < y → u < p → x * p + u < y * p + v
digit_order x y p u v h hu = grind (arith, digit_order_base x y p h)
  where
    digit_order_base : (x y p : ℕ) → x < y → x * p + p ≤ y * p
    digit_order_base x y p h = grind arith

-- Go's order on two runs of digits of one length is the order of their numbers.
pub compare_bytes-digits :
    (xs ys : Bytes)
    → length xs ≡ length ys
    → all is_digit xs ≡ true
    → all is_digit ys ≡ true
    → compare_bytes xs ys ≡ compare (from_digits 0 xs) (from_digits 0 ys)
unfolding compare_bytes from_digits
compare_bytes-digits [] [] e h k = refl
compare_bytes-digits [] (y ∷ ys) e h k = absurd (omega arith)
compare_bytes-digits (x ∷ xs) [] e h k = absurd (omega arith)
compare_bytes-digits (x ∷ xs) (y ∷ ys) e h k =
    let same : length xs ≡ length ys = omega arith in
    ground (
      arith,
      compare_bytes-digits xs ys,
      from_digits-cons x xs,
      from_digits-cons y ys,
      from_digits-lt xs,
      from_digits-lt ys,
      ap (λ (n : ℕ). 10 ^ n) same,
      digit_order (x - b'0') (y - b'0') (10 ^ length xs) (from_digits 0 xs) (from_digits 0 ys),
      digit_order (y - b'0') (x - b'0') (10 ^ length ys) (from_digits 0 ys) (from_digits 0 xs),
    )

-- The digits of a number are digits.
pub format_digits-all :
    (f n : ℕ) (acc : Bytes) → all is_digit acc ≡ true → all is_digit (format_digits f n acc) ≡ true
unfolding format_digits
format_digits-all zero n acc h = h
format_digits-all (suc f) n acc h =
    ground (arith, format_digits-all f (n / 10) ((b'0' + n % 10) ∷ acc))

pub length-format_digits : (f n : ℕ) (acc : Bytes) → length (format_digits f n acc) ≤ f + length acc
unfolding format_digits
length-format_digits zero n acc = omega arith
length-format_digits (suc f) n acc =
    ground (arith, length-format_digits f (n / 10) ((b'0' + n % 10) ∷ acc))

pub length-format_digits_pos :
    (f n : ℕ) (acc : Bytes) → length acc < length (format_digits (suc f) n acc)
unfolding format_digits
length-format_digits_pos zero n acc = ground arith
length-format_digits_pos (suc f) n acc =
    ground (arith, length-format_digits_pos f (n / 10) ((b'0' + n % 10) ∷ acc))

-- The number of a positive number's digits starts with another digit than 0.
pub format_digits-head :
    (f n : ℕ) (acc : Bytes)
    → 0 < n
    → n < 10 ^ suc f
    → has_prefix b'0' (format_digits (suc f) n acc) ≡ false
unfolding format_digits has_prefix
format_digits-head zero n acc p h = ground arith
format_digits-head (suc f) n acc p h =
    ground (arith, format_digits-head f (n / 10) ((b'0' + n % 10) ∷ acc), pow-suc 10 (suc f))
