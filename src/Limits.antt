-- ===== src/Limits.antt =====
-- internal/limits/limits.go: USD rates, the caps of a deployment, and the exact conversion of a
-- token amount into millionths of a dollar. `context.Context` is dropped; an error keeps its
-- sentinel. The opt-in of an agent is a function, nil (`none`) until the store supplies it.
pub mod Scale
pub mod Price
pub mod Caps
pub mod Cache
pub mod Rates
mod Tests
use vtessera.Common.{
  ℕ, ◌+◌, ◌-◌, ◌*◌, ◌/◌, ◌%◌, ◌^◌, Bool, true, false, not, ◌&&◌, ◌||◌, Option, none, some, List, [],
  ◌∷◌, Ordering, ltb, leb, ◌==◌, if◌then◌else◌, Result, ok, err, ◌>>=◌, ◌>>◌, reject_if, map_err, ℤ,
  pos, negsuc, String, Dict, lookup, insert,
}
use vtessera.Bytes.{Bytes, u64_mod}
use vtessera.Domain.{is_blank, validate_mint}
use vtessera.Money.{
  Amount, MoneyError, base_units, cmp, is_zero, new_from_base_units, string, no_amount,
}

abbrev pub usd_scale : ℕ
usd_scale = 6

pub data LimitsError : Type 0 where
  no_rate rate_invalid cap_invalid cap_not_positive above_ceiling : LimitsError
  -- An error of `BaseUnits` passed on.
  amount : MoneyError → LimitsError
  -- The errors that have no sentinel.
  window_not_positive ceiling_below_cap not_a_mint too_many_decimals : LimitsError
  -- A panic of `bits.Div64`.
  division_panic : LimitsError

pub record Rate : Type 0 where
  pub decimals : ℕ
  pub usd : Amount

abbrev pub Rates : Type 0
Rates = Dict Rate

pub record Policy : Type 0 where
  pub per_trade : Amount
  pub per_day : Amount
  pub window : ℤ
  pub ceiling_per_trade : Amount
  pub ceiling_per_day : Amount
  pub rates : Rates
  pub per_agent_overrides : Option (String → Option (Amount × Amount))

pub record Limits : Type 0 where
  pub per_trade : Amount
  pub per_day : Amount
  pub raised : Bool

abbrev pub is_greater : Ordering → Bool
is_greater Ordering.gt = true
is_greater _ = false

abbrev pub is_less : Ordering → Bool
is_less Ordering.lt = true
is_less _ = false

unfoldable pub to_micro : Amount → Result LimitsError ℕ
to_micro a = do
  reject_if (is_zero a) cap_invalid
  map_err (λ _. cap_invalid) (base_units a (pos usd_scale))

-- `CapMicro`
unfoldable pub cap_micro : Amount → Result LimitsError ℕ
cap_micro c = to_micro c

unfoldable pub rates_lookup : Rates → String → Option Rate
rates_lookup r mint = lookup mint r

-- Parameter: `base58.Decode`, the number of bytes that it decodes, or an error.
module _ (base58_decode : String → Option ℕ) where
  unfoldable pub parse_public_keyish : String → Result LimitsError String
  parse_public_keyish s = do
    reject_if (is_blank s) not_a_mint
    map_err (λ _. not_a_mint) (validate_mint base58_decode s)
    ok s

  -- `Rates.Add`
  unfoldable pub rates_add : Rates → String → Rate → Result LimitsError Rates
  unfolding parse_public_keyish
  rates_add r mint rate = do
    parse_public_keyish mint
    reject_if (ltb 9 rate.decimals) too_many_decimals
    to_micro rate.usd
    ok (insert mint rate r)

-- `Rates.Missing`, in the order of the governed list, which the code then sorts.
unfoldable pub missing : Rates → List String → List String
missing r [] = []
missing r (mint ∷ governed) =
    let rest = missing r governed in
    elim (rates_lookup r mint) [ none ↦ mint ∷ rest | some _ ↦ rest ]

unfoldable pub priced : Policy → String → Bool
priced p mint = elim (rates_lookup p.rates mint) [ none ↦ false | some _ ↦ true ]

abbrev pub usd_scale_factor : ℕ
usd_scale_factor = 10 ^ usd_scale

-- `bits.Mul64` and `bits.Div64`, which panics (`none`) where the quotient needs 65 bits.
unfoldable pub mul64 : ℕ → ℕ → ℕ × ℕ
mul64 x y = (x * y / u64_mod, x * y % u64_mod)

unfoldable pub div64 : ℕ → ℕ → ℕ → Option ℕ
div64 hi lo y = if leb y hi then none else some ((hi * u64_mod + lo) / y)

abbrev pub max_uint64 : ℕ
max_uint64 = 2 ^ 64 - 1

unfoldable pub scale_to_usd : ℕ → ℕ → Option ℕ
unfolding mul64 div64
scale_to_usd units micro_usd_per_token =
    let (hi, lo) = mul64 units micro_usd_per_token in
    if leb usd_scale_factor hi then some max_uint64 else div64 hi lo usd_scale_factor

abbrev pub or_panic : Option ℕ → Result LimitsError ℕ
or_panic none = err division_panic
or_panic (some n) = ok n

abbrev pub or_no_rate : Option Rate → Result LimitsError Rate
or_no_rate none = err no_rate
or_no_rate (some r) = ok r

unfoldable pub usd_value : Policy → Amount → String → Result LimitsError ℕ
usd_value p a mint = do
  rate ← or_no_rate (rates_lookup p.rates mint)
  units ← map_err amount (base_units a (pos rate.decimals))
  per_token ← to_micro rate.usd
  reject_if (per_token == 0) rate_invalid
  or_panic (scale_to_usd units per_token)

-- The two branches of `Effective`, each of which raises one cap.
unfoldable pub raise_trade : Policy → Amount → Limits → Limits
raise_trade p per_trade out =
    if not (is_zero per_trade) && is_greater (cmp per_trade p.per_trade)
    then record out { per_trade = per_trade; raised = true }
    else out

unfoldable pub raise_day : Policy → Amount → Limits → Limits
raise_day p per_day out =
    if not (is_zero per_day) && is_greater (cmp per_day p.per_day)
    then record out { per_day = per_day; raised = true }
    else out

abbrev pub default_limits : Policy → Limits
default_limits p = record { per_trade = p.per_trade; per_day = p.per_day; raised = false }

unfoldable pub effective : Policy → String → Limits
unfolding raise_trade raise_day
effective p agent_id = elim p.per_agent_overrides [
  | none ↦ default_limits p
  | some stored ↦ elim (stored agent_id) [
    | none ↦ default_limits p
    | some (per_trade, per_day) ↦ raise_day p per_day (raise_trade p per_trade (default_limits p))
  ]
]

-- `Policy.Check`
unfoldable pub check : Policy → Amount → Amount → Result LimitsError (Unit {0})
check p per_trade per_day = do
  reject_if (is_zero per_trade) cap_not_positive
  reject_if (is_zero per_day) cap_not_positive
  to_micro per_trade
  to_micro per_day
  reject_if (not (is_zero p.ceiling_per_trade) && is_greater (cmp per_trade p.ceiling_per_trade))
      above_ceiling
  reject_if (not (is_zero p.ceiling_per_day) && is_greater (cmp per_day p.ceiling_per_day))
      above_ceiling

-- One round of the loop in `Validate`: a ceiling that is set is usable and not below its cap.
unfoldable pub check_bound : Amount → Amount → Result LimitsError (Unit {0})
check_bound value bounded =
    if is_zero value
    then ok tt
    else (to_micro value >>= λ _. reject_if (is_less (cmp value bounded)) ceiling_below_cap)

abbrev pub is_positive : ℤ → Bool
is_positive (pos n) = ltb 0 n
is_positive (negsuc n) = false

-- `Policy.Validate`
unfoldable pub validate : Policy → Result LimitsError (Unit {0})
unfolding check_bound
validate p = do
  reject_if (is_zero p.per_trade) cap_not_positive
  reject_if (is_zero p.per_day) cap_not_positive
  to_micro p.per_trade
  to_micro p.per_day
  reject_if (not (is_positive p.window)) window_not_positive
  check_bound p.ceiling_per_trade p.per_trade
  check_bound p.ceiling_per_day p.per_day

-- `FormatUSD`; `none` is the text "an unrepresentable amount".
unfoldable pub format_usd : ℕ → Option Bytes
format_usd micro = elim (new_from_base_units micro (pos usd_scale)) [
  | ok a ↦ some (string a)
  | err e ↦ none
]

-- `PriceCache`: the rates parsed so far.
pub record PriceCache : Type 0 where
  pub policy : Policy
  pub micro : Dict ℕ

unfoldable pub new_price_cache : Policy → PriceCache
new_price_cache p = record { policy = p; micro = [] }

-- The rate of a mint from the cache, or parsed and then kept.
unfoldable pub cached_rate : PriceCache → String → Rate → Result LimitsError ℕ × PriceCache
cached_rate c mint rate = elim (lookup mint c.micro) [
  | some per_token ↦ (ok per_token, c)
  | none ↦ elim (to_micro rate.usd) [
    | err e ↦ (err e, c)
    | ok per_token ↦ (ok per_token, record c { micro = insert mint per_token c.micro })
  ]
]

-- `PriceCache.USDValue`, with the cache that it leaves.
unfoldable pub cached_usd_value : PriceCache → Amount → String → Result LimitsError ℕ × PriceCache
cached_usd_value c a mint = elim (rates_lookup c.policy.rates mint) [
  | none ↦ (err no_rate, c)
  | some rate ↦ elim (base_units a (pos rate.decimals)) [
    | err e ↦ (err (amount e), c)
    | ok units ↦
        let (r, c') = cached_rate c mint rate in
        (
          r >>= λ per_token. reject_if (per_token == 0) rate_invalid >>= λ _.
              or_panic (scale_to_usd units per_token),
          c',
        )
  ]
]
