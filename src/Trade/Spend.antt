-- ===== src/Trade/Spend.antt =====
-- internal/trade/trade.go: the spending caps, `checkSpend` and `CommittedSpendUSD`.
pub mod Sums
pub mod Check
pub mod Rows
use vtessera.Common.{
  ℕ, suc, ◌+◌, ◌-◌, ◌%◌, Bool, true, false, Option, none, some, List, [], ◌∷◌, ltb, if◌then◌else◌,
  String, Result, ok, err, ◌>>=◌, ◌>>◌, reject_if, map_err, ℤ, pos, negsuc,
}
use vtessera.Bytes.{u64_mod}
use vtessera.Money.{Amount}
use vtessera.Limits.{
  Policy, LimitsError, PriceCache, cached_usd_value, new_price_cache, effective, cap_micro, no_rate,
}
use vtessera.Domain.{SpendRow}
use vtessera.Store.{Db, get_agent_limits}
use vtessera.Store.Spend.{committed_spend_since}
use vtessera.Trade.Monad.{TradeError, Service, limits, mint_unpriced, spend_cap_exceeded}

-- The closure of `WithLimits`: an opt-in that cannot be read is none.
abbrev pub stored_caps : Db → String → Option (Amount × Amount)
stored_caps db agent_id = elim (get_agent_limits db agent_id) [
  | none ↦ none
  | some l ↦ some (l.per_trade_usd, l.per_day_usd)
]

-- The policy as a request sees it, with the opt-ins of the store where there is one.
unfoldable pub policy_at : Service → Db → Policy → Policy
policy_at svc db p =
    if svc.has_limits_store then record p { per_agent_overrides = some (stored_caps db) } else p

-- A price that is missing is named; another error is passed on.
abbrev pub price_error : LimitsError → TradeError
price_error no_rate = mint_unpriced
price_error e = limits e

-- A window is a duration; one that is not positive reaches back to now.
abbrev pub since : ℕ → ℤ → ℕ
since now (pos window) = now - window
since now (negsuc n) = now + suc n

-- `committedSpend`
unfoldable pub committed_spend : Service → Db → ℕ → String → ℤ → String → List SpendRow
committed_spend svc db now buyer window exclude =
    if svc.has_limits_store then committed_spend_since db buyer (since now window) exclude else []

-- The loop over the rows: a uint64 sum that stops where it wraps.
unfoldable pub sum_rows : PriceCache → ℕ → List SpendRow → Result TradeError ℕ
sum_rows c committed [] = ok committed
sum_rows c committed (row ∷ rows) =
    let (priced, c') = cached_usd_value c row.amount row.mint in
    elim priced [
      | err e ↦ err (price_error e)
      | ok value ↦
          let next = (committed + value) % u64_mod in
          let rest = sum_rows c' next rows in
          if ltb next value then err spend_cap_exceeded else rest
    ]

-- `checkSpend` under a policy that the service has.
unfoldable pub check_spend_under :
    Service → Db → ℕ → Policy → String → Amount → String → String → Result TradeError (Unit {0})
check_spend_under svc db now policy buyer amount mint exclude = do
  let caps = effective policy buyer
  let (priced, prices) = cached_usd_value (new_price_cache policy) amount mint
  value ← map_err price_error priced
  per_trade_cap ← map_err limits (cap_micro caps.per_trade)
  reject_if (ltb per_trade_cap value) spend_cap_exceeded
  committed ← sum_rows prices value (committed_spend svc db now buyer policy.window exclude)
  per_day_cap ← map_err limits (cap_micro caps.per_day)
  reject_if (ltb per_day_cap committed) spend_cap_exceeded

unfoldable pub check_spend :
    Service → Db → ℕ → String → Amount → String → String → Result TradeError (Unit {0})
unfolding policy_at
check_spend svc db now buyer amount mint exclude = elim svc.limits [
  | none ↦ ok tt
  | some p ↦ check_spend_under svc db now (policy_at svc db p) buyer amount mint exclude
]

-- `CommittedSpendUSD`
unfoldable pub committed_spend_usd : Service → Db → ℕ → String → Result TradeError ℕ
unfolding policy_at
committed_spend_usd svc db now buyer = elim svc.limits [
  | none ↦ ok 0
  | some p ↦
      let policy = policy_at svc db p in
      sum_rows (new_price_cache policy) 0 (committed_spend svc db now buyer policy.window "")
]
