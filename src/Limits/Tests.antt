-- ===== src/Limits/Tests.antt =====
-- Runs of the limits, and the theorems at a concrete policy.
use vtessera.Common.{ℕ, ◌≡◌, refl, ok, err, some, [], ◌∷◌, pos, Option, String, lookup}
use vtessera.Bytes.{cut, trim_left, trim, parse_uint}
use vtessera.Money.{Amount, base_units, units_of_digits, is_zero, no_amount}
use vtessera.Limits.{
  Policy, Rate, usd_value, rates_lookup, to_micro, scale_to_usd, no_rate, new_price_cache,
  cached_usd_value,
}
use vtessera.Limits.Cache.{IsCoherent, new_price_cache-IsCoherent, cached_usd_value-usd_value}

-- "1.00", "10.00" and "25.00"
abbrev one_dollar : Amount
one_dollar = record { value = b'1' ∷ b'.' ∷ b'0' ∷ b'0' ∷ [] }

abbrev ten_dollars : Amount
ten_dollars = record { value = b'1' ∷ b'0' ∷ b'.' ∷ b'0' ∷ b'0' ∷ [] }

abbrev twenty_five : Amount
twenty_five = record { value = b'2' ∷ b'5' ∷ b'.' ∷ b'0' ∷ b'0' ∷ [] }

abbrev par : Rate
par = record { decimals = 6; usd = one_dollar }

abbrev opt_in : String → Option (Amount × Amount)
opt_in id = some (twenty_five, ten_dollars)

abbrev policy : Policy
policy = record {
  per_trade = ten_dollars;
  per_day = ten_dollars;
  window = pos 86400;
  ceiling_per_trade = twenty_five;
  ceiling_per_day = no_amount;
  rates = ("usdc", par) ∷ [];
  per_agent_overrides = some opt_in;
}

run_usd_value : usd_value policy ten_dollars "usdc" ≡ ok 10000000
unfolding usd_value rates_lookup lookup base_units cut trim_left units_of_digits parse_uint to_micro
    is_zero trim scale_to_usd
run_usd_value = refl

run_usd_value_unpriced : usd_value policy ten_dollars "eurc" ≡ err no_rate
unfolding usd_value rates_lookup lookup
run_usd_value_unpriced = refl

cached_usd_value-usd_value_example :
    let c = new_price_cache policy in
    ((cached_usd_value c ten_dollars "usdc").0 ≡ usd_value c.policy ten_dollars "usdc")
    × IsCoherent (cached_usd_value c ten_dollars "usdc").1
    × ((cached_usd_value c ten_dollars "usdc").1.policy ≡ c.policy)
cached_usd_value-usd_value_example =
    cached_usd_value-usd_value (new_price_cache policy) ten_dollars "usdc"
      (new_price_cache-IsCoherent policy)

abbrev decode_all : String → Option ℕ
decode_all s = some 32
