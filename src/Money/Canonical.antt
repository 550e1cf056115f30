-- ===== src/Money/Canonical.antt =====
-- `Parse` of internal/money/money.go against the grammar of canonical decimal strings.
use vtessera.Common.{
  ◌≤◌, ◌<◌, ◌≡◌, ◌↔◌, ap, ◌∙◌, sym, ◌⊎◌, inl, inr, true, false, [], ◌∷◌, ◌++◌, length, subst, all,
  arith, ok, err,
}
use vtessera.Bytes.{Bytes, cut, is_digit, has_prefix}
use vtessera.Money.{Amount, parse, negative}
use vtessera.Money.Digits.{
  cut-point, cut-digits, cut-whole, contains_any-digits, contains_any-point, IsDecimal, fraction_of,
}

-- One to nineteen digits, the first of several not zero.
pub record IsInteger (s : Bytes) : Type 0 where
  pub some_digit : 0 < length s
  pub few_digits : length s ≤ 19
  pub digits : all is_digit s ≡ true
  pub no_leading_zero : 1 < length s → has_prefix b'0' s ≡ false

-- One to nine digits.
pub record IsFraction (s : Bytes) : Type 0 where
  pub some_digit : 0 < length s
  pub few_digits : length s ≤ 9
  pub digits : all is_digit s ≡ true

-- An integer, alone or with a point and a fraction behind it.
abbrev pub IsCanonical : Bytes → Type 0
IsCanonical s =
    IsInteger s ⊎ ((i : Bytes) × (f : Bytes) × (s ≡ i ++ (b'.' ∷ f)) × IsInteger i × IsFraction f)

parse-integer : (s : Bytes) → IsInteger s → parse s ≡ ok (record { value = s })
unfolding parse
parse-integer [] h = absurd (omega (arith, h.some_digit))
parse-integer (x ∷ xs) h =
    rw (cut-digits (x ∷ xs) h.digits) (rw (contains_any-digits (x ∷ xs) h.digits) (ground arith))

parse-fraction :
    (i f : Bytes)
    → IsInteger i
    → IsFraction f
    → parse (i ++ (b'.' ∷ f)) ≡ ok (record { value = i ++ (b'.' ∷ f) })
unfolding parse
parse-fraction [] f hi hf = absurd (omega (arith, hi.some_digit))
parse-fraction (x ∷ xs) f hi hf =
    rw (cut-point (x ∷ xs) f hi.digits)
      (rw (contains_any-point (x ∷ xs) f hi.digits hf.digits) (ground arith))

parse-IsCanonical : (s : Bytes) (a : Amount) → parse s ≡ ok a → (a.value ≡ s) × IsCanonical s
unfolding parse
parse-IsCanonical [] a h = cc
parse-IsCanonical (x ∷ xs) a h = elim (cut-whole (x ∷ xs)) [
  | inl p ↦ (
    ground arith,
    inr ((cut b'.' (x ∷ xs)).0, (cut b'.' (x ∷ xs)).1, p.1, ground arith, ground arith),
  )
  | inr p ↦ (ground arith, inl (subst IsInteger (sym p.1) (ground arith)))
]

parse-canonical : (s : Bytes) (a : Amount) → a.value ≡ s → IsCanonical s → parse s ≡ ok a
parse-canonical s a e (inl i) = ground (arith, parse-integer s i)
parse-canonical s a e (inr (i, f, w, hi, hf)) = rw w (ground (arith, parse-fraction i f hi hf))

-- `Parse` returns an amount exactly on the canonical strings, and the amount keeps the string.
pub parse-iff_IsCanonical :
    (s : Bytes) (a : Amount) → (parse s ≡ ok a) ↔ ((a.value ≡ s) × IsCanonical s)
parse-iff_IsCanonical s a = (parse-IsCanonical s a, λ h. parse-canonical s a h.0 h.1)

-- A string is refused as negative exactly if it starts with a minus sign.
pub parse-negative : (s : Bytes) → (parse s ≡ err negative) ↔ (has_prefix b'-' s ≡ true)
unfolding parse
parse-negative [] = (λ h. cc, λ h. ground arith)
parse-negative (x ∷ xs) = (λ h. ground arith, λ h. ground arith)

-- The parts of a canonical string are runs of digits, the fraction one of at most nine.
pub IsCanonical-IsDecimal :
    (a : Amount) → IsCanonical a.value → IsDecimal a × (length (fraction_of a) ≤ 9)
IsCanonical-IsDecimal a (inl i) =
    let e = cut-digits a.value i.digits in
    (
      record {
        integer_digits = ap (λ c. all is_digit c.0) e ∙ i.digits;
        fraction_digits = ap (λ c. all is_digit c.1) e;
      },
      omega (arith, ap (λ c. length c.1) e),
    )
IsCanonical-IsDecimal a (inr (i, f, w, hi, hf)) =
    let e : cut b'.' a.value ≡ (i, f, true) = rw w (cut-point i f hi.digits) in
    (
      record {
        integer_digits = ap (λ c. all is_digit c.0) e ∙ hi.digits;
        fraction_digits = ap (λ c. all is_digit c.1) e ∙ hf.digits;
      },
      omega (arith, ap (λ c. length c.1) e, hf.few_digits),
    )
