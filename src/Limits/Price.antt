-- ===== src/Limits/Price.antt =====
-- The price of an amount (internal/limits/limits.go), and when there is none.
use vtessera.Common.{
  ℕ, ◌*◌, ◌/◌, ◌<◌, min, ◌≡◌, ◌≢◌, ◌↔◌, ◌∙◌, inl, inr, ◌==◌, Option-cases, Result-cases, Bool-cases,
  ap, some, none, arith, ok, err, Result, pos, String,
}
use vtessera.Bytes.{u64_mod}
use vtessera.Money.{Amount, MoneyError, base_units}
use vtessera.Limits.{
  Policy, Rate, LimitsError, amount, rates_lookup, to_micro, usd_value, max_uint64, no_rate,
  rate_invalid, division_panic, cap_invalid,
}
use vtessera.Limits.Scale.{scale_to_usd-exact}

to_micro-err : (a : Amount) {e : LimitsError} → to_micro a ≡ err e → e ≡ cap_invalid
unfolding to_micro
to_micro-err a h = ground arith

-- The errors that pricing can end in, each at its condition.
data Outcome (p : Policy) (a : Amount) (mint : String) : Result LimitsError ℕ → Type 0 where
  unpriced : rates_lookup p.rates mint ≡ none → Outcome p a mint (err no_rate)
  imprecise :
      (r : Rate) (e : MoneyError)
      → rates_lookup p.rates mint ≡ some r
      → base_units a (pos r.decimals) ≡ err e
      → Outcome p a mint (err (amount e))
  bad_rate :
      (r : Rate) (e : LimitsError)
      → rates_lookup p.rates mint ≡ some r
      → to_micro r.usd ≡ err e
      → Outcome p a mint (err cap_invalid)
  zero_rate :
      (r : Rate)
      → rates_lookup p.rates mint ≡ some r
      → to_micro r.usd ≡ ok 0
      → Outcome p a mint (err rate_invalid)
  value :
      (r : Rate) (units per_token : ℕ)
      → rates_lookup p.rates mint ≡ some r
      → base_units a (pos r.decimals) ≡ ok units
      → to_micro r.usd ≡ ok per_token
      → Outcome p a mint (ok (min (units * per_token / 1000000) max_uint64))

usd_value-Outcome :
    (p : Policy) (a : Amount) (mint : String) → Outcome p a mint (usd_value p a mint)
unfolding usd_value
usd_value-Outcome p a mint = elim (Option-cases (rates_lookup p.rates mint)) [
  | inl e ↦ rw e (unpriced e)
  | inr (r, e) ↦ elim (Result-cases (base_units a (pos r.decimals))) [
    | inr (x, eu) ↦ rw (e, eu) (imprecise r x e eu)
    | inl (units, eu) ↦ elim (Result-cases (to_micro r.usd)) [
      | inr (x, er) ↦ rw (e, eu, er) (rw (to_micro-err r.usd er) (bad_rate r x e er))
      | inl (per_token, er) ↦ elim (Bool-cases (per_token == 0)) [
        | inl z ↦ rw (e, eu, er, z) (zero_rate r e (er ∙ ap ok (ground arith)))
        | inr z ↦
            rw (e, eu, er, z, scale_to_usd-exact units per_token) (value r units per_token e eu er)
      ]
    ]
  ]
]

Outcome-no_rate :
    {p : Policy} {a : Amount} {mint : String} {x : Result LimitsError ℕ}
    → Outcome p a mint x
    → x ≡ err no_rate
    → rates_lookup p.rates mint ≡ none
Outcome-no_rate (unpriced e) h = e
Outcome-no_rate (imprecise r e f u) h = cc
Outcome-no_rate (bad_rate r e f u) h = cc
Outcome-no_rate (zero_rate r e f) h = cc
Outcome-no_rate (value r u t e f g) h = cc

Outcome-no_panic :
    {p : Policy} {a : Amount} {mint : String} {x : Result LimitsError ℕ}
    → Outcome p a mint x
    → x ≢ err division_panic
Outcome-no_panic (unpriced e) h = cc
Outcome-no_panic (imprecise r e f u) h = cc
Outcome-no_panic (bad_rate r e f u) h = cc
Outcome-no_panic (zero_rate r e f) h = cc
Outcome-no_panic (value r u t e f g) h = cc

unpriced_refused :
    (p : Policy) (a : Amount) (mint : String)
    → rates_lookup p.rates mint ≡ none
    → usd_value p a mint ≡ err no_rate
unfolding usd_value
unpriced_refused p a mint e = rw e

-- A mint is refused for want of a rate exactly if none is declared for it, and pricing never
-- panics in the 128-bit division.
pub usd_value-no_rate :
    (p : Policy) (a : Amount) (mint : String)
    → ((usd_value p a mint ≡ err no_rate) ↔ (rates_lookup p.rates mint ≡ none))
      × (usd_value p a mint ≢ err division_panic)
usd_value-no_rate p a mint = (
  (Outcome-no_rate (usd_value-Outcome p a mint), unpriced_refused p a mint),
  Outcome-no_panic (usd_value-Outcome p a mint),
)

Outcome-lt :
    {p : Policy} {a : Amount} {mint : String} {x : Result LimitsError ℕ} (v : ℕ)
    → Outcome p a mint x
    → x ≡ ok v
    → v < u64_mod
Outcome-lt v (unpriced e) h = absurd (cc)
Outcome-lt v (imprecise r e f u) h = absurd (cc)
Outcome-lt v (bad_rate r e f u) h = absurd (cc)
Outcome-lt v (zero_rate r e f) h = absurd (cc)
Outcome-lt v (value r u t e f g) h = ground arith

-- A price is a uint64.
pub usd_value-lt :
    (p : Policy) (a : Amount) (mint : String) {v : ℕ} → usd_value p a mint ≡ ok v → v < u64_mod
usd_value-lt p a mint {v} h = Outcome-lt v (usd_value-Outcome p a mint) h
