-- ===== src/Attest/Fields.antt =====
-- internal/attest/attest.go: what the encoder writes is read back in one way, field by field.
use vtessera.Common.{
  ℕ, suc, ◌<◌, ◌≡◌, ◌∙◌, refl, sym, ap, ap₂, Bool, true, false, List, [], ◌∷◌, ◌++◌, append_assoc,
  ltb, length, all, arith,
}
use vtessera.Bytes.{Bytes, utf8, is_digit, from_digits, format_uint, u64_mod}
use vtessera.Bytes.Digits.{from_digits-format_digits, format_digits-all}
use vtessera.Attest.Encoder.{field, elements, count_line, list_field}

-- A length that an int of Go can have is below 2^64.
abbrev pub is_short : Bytes → Bool
is_short v = ltb (length v) u64_mod

abbrev pub AreShort : List Bytes → Type 0
AreShort vs = (length vs < u64_mod) × (all is_short vs ≡ true)

pub drop_prefix : (xs : Bytes) {ys zs : Bytes} → xs ++ ys ≡ xs ++ zs → ys ≡ zs
drop_prefix [] h = h
drop_prefix (x ∷ xs) h = drop_prefix xs (ground arith)

-- Up to the first byte that is no digit.
split_digits :
    (c : ℕ) (xs ys : Bytes) {r s : Bytes}
    → is_digit c ≡ false
    → all is_digit xs ≡ true
    → all is_digit ys ≡ true
    → xs ++ (c ∷ r) ≡ ys ++ (c ∷ s)
    → (xs ≡ ys) × (r ≡ s)
split_digits c [] [] n h k e = (refl, ground arith)
split_digits c [] (y ∷ ys) n h k e = absurd (ground arith)
split_digits c (x ∷ xs) [] n h k e = absurd (ground arith)
split_digits c (x ∷ xs) (y ∷ ys) n h k e =
    let first : x ≡ y = ground arith in
    let (same, rest) = split_digits c xs ys n (ground arith) (ground arith) (ground arith) in
    (ap₂ (λ z zs. z ∷ zs) first same, rest)

split_length :
    (xs ys : Bytes) {r s : Bytes} → length xs ≡ length ys → xs ++ r ≡ ys ++ s → (xs ≡ ys) × (r ≡ s)
split_length [] [] h e = (refl, e)
split_length [] (y ∷ ys) h e = absurd (omega (arith, h))
split_length (x ∷ xs) [] h e = absurd (omega (arith, h))
split_length (x ∷ xs) (y ∷ ys) h e =
    let first : x ≡ y = ground arith in
    let (same, rest) = split_length xs ys (omega (arith, h)) (ground arith) in
    (ap₂ (λ z zs. z ∷ zs) first same, rest)

format_uint-digits : (n : ℕ) → all is_digit (format_uint n) ≡ true
unfolding format_uint
format_uint-digits n = format_digits-all 20 n [] refl

format_uint-value : (n : ℕ) → n < u64_mod → from_digits 0 (format_uint n) ≡ n
unfolding format_uint from_digits
format_uint-value n h = from_digits-format_digits 19 n [] (omega (arith, h))

-- A number and the byte behind it.
number-read :
    (c m n : ℕ) {r s : Bytes}
    → is_digit c ≡ false
    → m < u64_mod
    → n < u64_mod
    → format_uint m ++ (c ∷ r) ≡ format_uint n ++ (c ∷ s)
    → (m ≡ n) × (r ≡ s)
number-read c m n d hm hn e =
    let (same, rest) =
      split_digits c (format_uint m) (format_uint n) d (format_uint-digits m) (format_uint-digits n)
        e in
    (sym (format_uint-value m hm) ∙ ap (from_digits 0) same ∙ format_uint-value n hn, rest)

field-shape :
    (name v r : Bytes)
    → field name v ++ r ≡ name ++ (b':' ∷ (format_uint (length v) ++ (b':' ∷ (v ++ (b'\n' ∷ r)))))
unfolding field
field-shape name v r = simp append_assoc

-- A field is read back: its value, and what follows.
pub field-read :
    (name v w : Bytes) {r s : Bytes}
    → is_short v ≡ true
    → is_short w ≡ true
    → field name v ++ r ≡ field name w ++ s
    → (v ≡ w) × (r ≡ s)
field-read name v w {r = r} {s = s} hv hw e =
    let behind = drop_prefix name (sym (field-shape name v r) ∙ e ∙ field-shape name w s) in
    let (lengths, values) =
      number-read b':' (length v) (length w) refl (ground arith) (ground arith)
        (drop_prefix (b':' ∷ []) behind) in
    let (same, rest) = split_length v w {r = b'\n' ∷ r} {s = b'\n' ∷ s} lengths values in
    (same, ground (arith, rest))

elements-read :
    (name : Bytes) (i : ℕ) (vs ws : List Bytes) {r s : Bytes}
    → length vs ≡ length ws
    → all is_short vs ≡ true
    → all is_short ws ≡ true
    → elements name i vs ++ r ≡ elements name i ws ++ s
    → (vs ≡ ws) × (r ≡ s)
unfolding elements
elements-read name i [] [] h k l e = (refl, e)
elements-read name i [] (w ∷ ws) h k l e = absurd (omega (arith, h))
elements-read name i (v ∷ vs) [] h k l e = absurd (omega (arith, h))
elements-read name i (v ∷ vs) (w ∷ ws) {r = r} {s = s} h k l e =
    let prefix = name ++ (b'.' ∷ format_uint i) in
    let (same, behind) = field-read prefix v w (ground arith) (ground arith) (
      sym (append_assoc (field prefix v) (elements name (suc i) vs) r)
      ∙ e
      ∙ append_assoc (field prefix w) (elements name (suc i) ws) s) in
    let (others, rest) =
      elements-read name (suc i) vs ws (omega (arith, h)) (ground arith) (ground arith) behind in
    (ap₂ (λ x xs. x ∷ xs) same others, rest)

count_line-shape :
    (name : Bytes) (n : ℕ) (r : Bytes)
    → count_line name n ++ r ≡ name ++ (utf8 ".count:" ++ (format_uint n ++ (b'\n' ∷ r)))
unfolding count_line
count_line-shape name n r = simp append_assoc

-- A list is read back: its elements, and what follows.
pub list_field-read :
    (name : Bytes) (vs ws : List Bytes) {r s : Bytes}
    → AreShort vs
    → AreShort ws
    → list_field name vs ++ r ≡ list_field name ws ++ s
    → (vs ≡ ws) × (r ≡ s)
unfolding list_field
list_field-read name vs ws {r = r} {s = s} hv hw e =
    let behind = drop_prefix (utf8 ".count:") (
      drop_prefix name (
        sym (count_line-shape name (length vs) (elements name 0 vs ++ r))
        ∙ sym (append_assoc (count_line name (length vs)) (elements name 0 vs) r)
        ∙ e
        ∙ append_assoc (count_line name (length ws)) (elements name 0 ws) s
        ∙ count_line-shape name (length ws) (elements name 0 ws ++ s))) in
    let (lengths, values) = number-read b'\n' (length vs) (length ws) refl hv.0 hw.0 behind in
    elements-read name 0 vs ws lengths hv.1 hw.1 values
