-- ===== src/Money/RoundTrip.antt =====
-- `NewFromBaseUnits` of internal/money/money.go, read back.
use vtessera.Common.{
  ℕ, zero, suc, ◌+◌, ◌-◌, ◌≤◌, ◌<◌, ◌≡◌, refl, ap, ap₂, ◌∙◌, inl, inr, true, false, Bool, [], ◌∷◌,
  ◌++◌, length, replicate, all, arith, all-append, all-replicate, all-take, all-drop, length-append,
  length-replicate, length-take, length-drop, ok, pos, take, drop, take-append-drop, append-nil,
  Bool-cases, leb,
}
use vtessera.Bytes.{
  Bytes, cut, is_digit, from_digits, format_uint, format_digits, has_prefix, u64_mod,
}
use vtessera.Bytes.Digits.{
  from_digits-format_digits, format_digits-all, length-format_digits, length-format_digits_pos,
  format_digits-head,
}
use vtessera.Money.{Amount, base_units, new_from_base_units, pad_digits, parse}
use vtessera.Money.Digits.{IsDecimal, units_at, integer_of, fraction_of, cut-point}
use vtessera.Money.BaseUnits.{base_units-exact}
use vtessera.Money.Compare.{from_digits-leading}
use vtessera.Money.Canonical.{IsInteger, IsFraction, IsCanonical, parse-iff_IsCanonical}

-- The rendering of a uint64: its number, its digits, its length, its first digit.
record IsRendering (units : ℕ) (s : Bytes) : Type 0 where
  value : from_digits 0 s ≡ units
  digits : all is_digit s ≡ true
  few : length s ≤ 20
  some_digit : 0 < length s
  head : 1 < length s → has_prefix b'0' s ≡ false

format_uint-head :
    (n : ℕ) → n < u64_mod → 1 < length (format_uint n) → has_prefix b'0' (format_uint n) ≡ false
unfolding format_uint
format_uint-head zero h k = absurd (unfold format_digits in omega arith)
format_uint-head (suc n) h k = format_digits-head 19 (suc n) [] (omega arith) (omega arith)

format_uint-IsRendering : (n : ℕ) → n < u64_mod → IsRendering n (format_uint n)
unfolding format_uint from_digits
format_uint-IsRendering n h = record {
  value = from_digits-format_digits 19 n [] (omega arith);
  digits = format_digits-all 20 n [] refl;
  few = omega (arith, length-format_digits 20 n []);
  some_digit = omega (arith, length-format_digits_pos 19 n []);
  head = format_uint-head n h;
}

-- The padded digits: the same number, with at least one digit before the last `d`.
record IsPadded (units d : ℕ) (s : Bytes) : Type 0 where
  value : from_digits 0 s ≡ units
  digits : all is_digit s ≡ true
  few : length s ≤ 19 + d
  enough : d < length s
  head : d + 1 < length s → has_prefix b'0' s ≡ false

pad_too_long :
    (d : ℕ) (s : Bytes) → length s ≤ d → ¬ (d + 1 < length (replicate (d - length s + 1) b'0' ++ s))
pad_too_long d s h k = absurd (
    omega (
      arith,
      length-append (replicate (d - length s + 1) b'0') s,
      length-replicate {A = ℕ} (d - length s + 1) b'0',
    ))

pad_digits-IsPadded :
    (units d : ℕ) (s : Bytes) → 0 < d → IsRendering units s → IsPadded units d (pad_digits s d)
unfolding pad_digits
pad_digits-IsPadded units d s p r = elim (Bool-cases (leb (length s) d)) [
  | inl short ↦ rw short (record {
    value = from_digits-leading (d - length s + 1) s ∙ r.value;
    digits =
        all-append is_digit (replicate (d - length s + 1) b'0') s
          (all-replicate is_digit (d - length s + 1) b'0' refl) r.digits;
    few = simp (length-append, length-replicate) (ground arith);
    enough = simp (length-append, length-replicate) (ground arith);
    head = λ k. absurd (pad_too_long d s (ground arith) k);
  })
  | inr long ↦ rw long (record {
    value = r.value;
    digits = r.digits;
    few = omega (arith, r.few);
    enough = ground arith;
    head = λ k. r.head (omega arith);
  })
]

take-head : (n : ℕ) (xs : Bytes) → has_prefix b'0' xs ≡ false → has_prefix b'0' (take n xs) ≡ false
unfolding has_prefix
take-head zero xs h = refl
take-head (suc n) [] h = refl
take-head (suc n) (x ∷ xs) h = h

split-IsInteger : (units d : ℕ) (s : Bytes) → IsPadded units d s → IsInteger (take (length s - d) s)
split-IsInteger units d s r = record {
  some_digit = rw (length-take (length s - d) s) (omega (arith, r.enough));
  few_digits = rw (length-take (length s - d) s) (omega (arith, r.few));
  digits = all-take is_digit (length s - d) s r.digits;
  no_leading_zero = λ k.
      take-head (length s - d) s (r.head (omega (arith, length-take (length s - d) s, r.enough)));
}

split-IsFraction :
    (units d : ℕ) (s : Bytes)
    → 0 < d
    → d ≤ 9
    → IsPadded units d s
    → IsFraction (drop (length s - d) s)
split-IsFraction units d s p q r = record {
  some_digit = rw (length-drop (length s - d) s) (omega (arith, r.enough));
  few_digits = rw (length-drop (length s - d) s) (omega (arith, r.enough));
  digits = all-drop is_digit (length s - d) s r.digits;
}

-- The string that `NewFromBaseUnits` builds from padded digits.
abbrev with_point : ℕ → Bytes → Bytes
with_point d s = take (length s - d) s ++ (b'.' ∷ drop (length s - d) s)

with_point-IsCanonical :
    (units d : ℕ) (s : Bytes) → 0 < d → d ≤ 9 → IsPadded units d s → IsCanonical (with_point d s)
with_point-IsCanonical units d s p q r = inr (
  take (length s - d) s,
  drop (length s - d) s,
  refl,
  split-IsInteger units d s r,
  split-IsFraction units d s p q r,
)

abbrev rendered : ℕ → ℕ → Amount
rendered units d = record { value = with_point d (pad_digits (format_uint units) d) }

rendered-IsPadded :
    (units d : ℕ) → units < u64_mod → 0 < d → IsPadded units d (pad_digits (format_uint units) d)
rendered-IsPadded units d h p =
    pad_digits-IsPadded units d (format_uint units) p (format_uint-IsRendering units h)

-- The parts of a rendered amount.
module _ (units d : ℕ) (s : Bytes) (r : IsPadded units d s) where
  abbrev amount : Amount
  amount = record { value = with_point d s }

  amount-cut : cut b'.' (with_point d s) ≡ (take (length s - d) s, drop (length s - d) s, true)
  amount-cut =
      cut-point (take (length s - d) s) (drop (length s - d) s) (split-IsInteger units d s r).digits

  amount-integer : integer_of amount ≡ take (length s - d) s
  amount-integer = ap (λ (c : Bytes × Bytes × Bool). c.0) amount-cut

  amount-fraction : fraction_of amount ≡ drop (length s - d) s
  amount-fraction = ap (λ (c : Bytes × Bytes × Bool). c.1) amount-cut

  length-amount-fraction : length (fraction_of amount) ≡ d
  length-amount-fraction =
      ap (length {A = ℕ}) amount-fraction ∙ length-drop (length s - d) s ∙ omega (arith, r.enough)

  amount-IsDecimal : IsDecimal amount
  amount-IsDecimal = record {
    integer_digits = ap (all is_digit) amount-integer ∙ all-take is_digit (length s - d) s r.digits;
    fraction_digits =
        ap (all is_digit) amount-fraction ∙ all-drop is_digit (length s - d) s r.digits;
  }

  no_zeros_behind : replicate {A = ℕ} (d - length (fraction_of amount)) b'0' ≡ []
  no_zeros_behind =
      let e : d - length (fraction_of amount) ≡ 0 = omega (arith, length-amount-fraction) in
      ap (λ (n : ℕ). replicate {A = ℕ} n b'0') e

  amount-digits :
      integer_of amount ++ (fraction_of amount ++ replicate (d - length (fraction_of amount)) b'0')
      ≡ s
  amount-digits =
      ap (λ (t : Bytes). integer_of amount ++ (fraction_of amount ++ t)) no_zeros_behind
      ∙ ap (λ (t : Bytes). integer_of amount ++ t) (append-nil (fraction_of amount))
      ∙ ap₂ (λ (x y : Bytes). x ++ y) amount-integer amount-fraction
      ∙ take-append-drop (length s - d) s

  units_at-amount : units_at d amount ≡ units
  unfolding units_at
  units_at-amount = ap (from_digits 0) amount-digits ∙ r.value

  base_units-amount : d ≤ 9 → units < u64_mod → base_units amount (pos d) ≡ ok units
  base_units-amount q h =
      ground
        (arith, base_units-exact amount d amount-IsDecimal, length-amount-fraction, units_at-amount)

-- Every uint64 renders, at every scale from 1 to 9: the guard on the length never fires.
pub new_from_base_units-ok :
    (units d : ℕ)
    → units < u64_mod
    → 0 < d
    → d ≤ 9
    → new_from_base_units units (pos d) ≡ ok (rendered units d)
unfolding new_from_base_units
new_from_base_units-ok units d h p q = ground (arith, (format_uint-IsRendering units h).few)

-- What it renders is canonical and keeps `d` fraction digits, so `Parse` reads it back unchanged.
pub parse-new_from_base_units :
    (units d : ℕ)
    → units < u64_mod
    → 0 < d
    → d ≤ 9
    → (a : Amount) × (new_from_base_units units (pos d) ≡ ok a)
      × (parse a.value ≡ ok a)
      × (length (fraction_of a) ≡ d)
parse-new_from_base_units units d h p q =
    let s : Bytes = pad_digits (format_uint units) d in
    let r : IsPadded units d s = rendered-IsPadded units d h p in
    (
      rendered units d,
      new_from_base_units-ok units d h p q,
      (parse-iff_IsCanonical _ _).1 (refl, with_point-IsCanonical units d s p q r),
      length-amount-fraction units d s r,
    )

-- `BaseUnits` undoes `NewFromBaseUnits`.
pub base_units-new_from_base_units :
    (units d : ℕ)
    → units < u64_mod
    → 0 < d
    → d ≤ 9
    → (a : Amount) × (new_from_base_units units (pos d) ≡ ok a) × (base_units a (pos d) ≡ ok units)
base_units-new_from_base_units units d h p q = (
  rendered units d,
  new_from_base_units-ok units d h p q,
  base_units-amount units d _ (rendered-IsPadded units d h p) q h,
)
