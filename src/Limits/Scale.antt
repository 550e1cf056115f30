-- ===== src/Limits/Scale.antt =====
-- The 128-bit conversion of units into millionths of a dollar (internal/limits/limits.go).
use vtessera.Common.{
  ℕ, ◌+◌, ◌*◌, ◌/◌, ◌%◌, ◌≤◌, ◌<◌, min, ◌≡◌, ap, sym, some, arith, inl, inr, leb, Bool-cases,
}
use vtessera.Bytes.{u64_mod}
use vtessera.Limits.{scale_to_usd, usd_scale_factor, max_uint64}

-- The two halves of a product, put together again.
halves : (x : ℕ) → x / u64_mod * u64_mod + x % u64_mod ≡ x
halves x = omega arith

saturated : (x : ℕ) → 1000000 ≤ x / u64_mod → min (x / 1000000) max_uint64 ≡ max_uint64
saturated x h = omega arith

not_saturated : (x : ℕ) → x / u64_mod < 1000000 → min (x / 1000000) max_uint64 ≡ x / 1000000
not_saturated x h = omega arith

-- The product over a million, held at the largest uint64; every step stays in 64 bits.
pub scale_to_usd-exact :
    (units per_token : ℕ)
    → scale_to_usd units per_token ≡ some (min (units * per_token / 1000000) max_uint64)
unfolding scale_to_usd
scale_to_usd-exact units per_token =
    elim (Bool-cases (leb usd_scale_factor (units * per_token / u64_mod))) [
      | inl big ↦ rw big (ap some (sym (saturated (units * per_token) (ground arith))))
      | inr small ↦
          rw (small, halves (units * per_token))
            (ap some (sym (not_saturated (units * per_token) (ground arith))))
    ]

product_mono : (a b c d : ℕ) → a ≤ c → b ≤ d → a * b ≤ c * d
product_mono a b c d h k = grind arith

min_mono : (p q : ℕ) → p ≤ q → min (p / 1000000) max_uint64 ≤ min (q / 1000000) max_uint64
min_mono p q h = omega arith

-- A dearer amount or a dearer token never counts for less.
pub scale_to_usd_mono :
    (units units' per_token per_token' : ℕ) {x y : ℕ}
    → units ≤ units'
    → per_token ≤ per_token'
    → scale_to_usd units per_token ≡ some x
    → scale_to_usd units' per_token' ≡ some y
    → x ≤ y
scale_to_usd_mono units units' per_token per_token' h k ex ey = ground (
  arith,
  scale_to_usd-exact units per_token,
  scale_to_usd-exact units' per_token',
  min_mono (units * per_token) (units' * per_token')
      (product_mono units per_token units' per_token' h k),
)
