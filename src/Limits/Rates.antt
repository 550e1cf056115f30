-- ===== src/Limits/Rates.antt =====
-- The rates that internal/limits/limits.go takes, and the text of a value in dollars.
use vtessera.Common.{
  ℕ, ◌≤◌, ◌<◌, ◌≡◌, Option, some, arith, inl, inr, ok, pos, String, str_eq, if◌then◌else◌, insert,
  lookup-insert, Result-cases,
}
use vtessera.Bytes.{u64_mod}
use vtessera.Money.{Amount, base_units, parse, string}
use vtessera.Money.Digits.{IsDecimal}
use vtessera.Money.BaseUnits.{base_units-exact}
use vtessera.Money.Zero.{is_zero-iff_no_units}
use vtessera.Money.RoundTrip.{parse-new_from_base_units, base_units-new_from_base_units}
use vtessera.Limits.{Rate, Rates, rates_lookup, rates_add, to_micro, format_usd}

-- An amount that converts to millionths of a dollar is at least one of them.
pub to_micro-pos : (a : Amount) {m : ℕ} → IsDecimal a → to_micro a ≡ ok m → 0 < m
unfolding to_micro
to_micro-pos a d h = ground (arith, is_zero-iff_no_units a 6 d, base_units-exact a 6 d)

module _ (base58_decode : String → Option ℕ) where
  rates_add-inv :
      (r r' : Rates) (mint : String) (rate : Rate)
      → rates_add base58_decode r mint rate ≡ ok r'
      → (m : ℕ) × (to_micro rate.usd ≡ ok m) × (rate.decimals ≤ 9) × (r' ≡ insert mint rate r)
  unfolding rates_add
  rates_add-inv r r' mint rate h = elim (Result-cases (to_micro rate.usd)) [
    | inl (m, e) ↦ (m, e, ground arith, ground arith)
    | inr (x, e) ↦ absurd (ground arith)
  ]

  -- A rate that `Add` takes is in a scale that amounts have, and at least a millionth of a dollar.
  -- It is then the rate of its mint, and no other mint's rate changes.
  pub rates_add-usable :
      (r r' : Rates) (mint other : String) (rate : Rate)
      → IsDecimal rate.usd
      → rates_add base58_decode r mint rate ≡ ok r'
      → (rates_lookup r' other ≡ (if str_eq mint other then some rate else rates_lookup r other))
        × (rate.decimals ≤ 9)
        × ((m : ℕ) × (to_micro rate.usd ≡ ok m) × (0 < m))
  unfolding rates_lookup
  rates_add-usable r r' mint other rate d h =
      let (m, e, few, made) = rates_add-inv r r' mint rate h in
      (rw made (lookup-insert mint other rate r), few, (m, e, to_micro-pos rate.usd d e))

-- Every uint64 of millionths renders, as a canonical string that converts back to it.
pub format_usd-exact :
    (micro : ℕ)
    → micro < u64_mod
    → (a : Amount) × (format_usd micro ≡ some a.value)
      × (parse a.value ≡ ok a)
      × (base_units a (pos 6) ≡ ok micro)
unfolding format_usd string
format_usd-exact micro h =
    let (a, made, exact) = base_units-new_from_base_units micro 6 h (omega arith) (omega arith) in
    let (b, made', parsed, _) = parse-new_from_base_units micro 6 h (omega arith) (omega arith) in
    (a, rw (made, format_usd), ground arith, exact)
