-- ===== src/Trade/Spend/Check.antt =====
-- `checkSpend` of internal/trade/trade.go, when it passes.
use vtessera.Common.{
  ℕ, ◌+◌, ◌≤◌, ◌<◌, ◌≡◌, sym, ◌∙◌, some, String, ok, arith, inl, inr, Result-cases,
}
use vtessera.Bytes.{u64_mod}
use vtessera.Money.{Amount}
use vtessera.Limits.{Policy, usd_value, cached_usd_value, new_price_cache, effective, cap_micro}
use vtessera.Limits.Price.{usd_value-lt}
use vtessera.Limits.Cache.{new_price_cache-IsCoherent, cached_usd_value-usd_value}
use vtessera.Store.{Db}
use vtessera.Trade.Monad.{Service}
use vtessera.Trade.Spend.{check_spend, check_spend_under, policy_at, committed_spend, sum_rows}
use vtessera.Trade.Spend.Sums.{total_value, sum_rows-exact}

-- The amount and what the buyer has committed, priced without a wrap, inside both caps.
pub record IsWithin (svc : Service) (db : Db) (now : ℕ) (policy : Policy) (buyer : String)
    (amount : Amount) (mint exclude : String) : Type 0 where
  pub value : ℕ
  pub committed : ℕ
  pub per_trade_cap : ℕ
  pub per_day_cap : ℕ
  pub priced : usd_value policy amount mint ≡ ok value
  pub summed :
      total_value policy (committed_spend svc db now buyer policy.window exclude) ≡ ok committed
  pub trade_cap : cap_micro (effective policy buyer).per_trade ≡ ok per_trade_cap
  pub day_cap : cap_micro (effective policy buyer).per_day ≡ ok per_day_cap
  pub inside_trade : value ≤ per_trade_cap
  pub inside_day : value + committed ≤ per_day_cap
  pub exact : value + committed < u64_mod

module _ (svc : Service) (db : Db) (now : ℕ) (policy : Policy) (buyer : String) (amount : Amount)
    (mint exclude : String) where
  check_spend_under-parts :
      check_spend_under svc db now policy buyer amount mint exclude ≡ ok tt
      → (value : ℕ) × (total : ℕ) × (cap : ℕ) × (day : ℕ) × ((cached_usd_value
            (new_price_cache policy)
            amount
            mint).0
          ≡ ok value)
        × (cap_micro (effective policy buyer).per_trade ≡ ok cap)
        × (value ≤ cap)
        × (sum_rows
              (cached_usd_value (new_price_cache policy) amount mint).1
              value
              (committed_spend svc db now buyer policy.window exclude)
            ≡ ok total)
        × (cap_micro (effective policy buyer).per_day ≡ ok day)
        × (total ≤ day)
  unfolding check_spend_under
  check_spend_under-parts h =
      elim (Result-cases (cached_usd_value (new_price_cache policy) amount mint).0) [
        | inr (x, e) ↦ absurd (ground arith)
        | inl (value, ev) ↦ elim (Result-cases (cap_micro (effective policy buyer).per_trade)) [
          | inr (x, e) ↦ absurd (ground arith)
          | inl (cap, ec) ↦
              elim (Result-cases (
                sum_rows (cached_usd_value (new_price_cache policy) amount mint).1 value
                  (committed_spend svc db now buyer policy.window exclude))) [
                    | inr (x, e) ↦ absurd (ground arith)
                    | inl (total, es) ↦
                        elim (Result-cases (cap_micro (effective policy buyer).per_day)) [
                          | inr (x, e) ↦ absurd (ground arith)
                          | inl (day, ed) ↦
                              (value, total, cap, day, ev, ec, ground arith, es, ed, ground arith)
                        ]
                  ]
        ]
      ]

  check_spend_under-IsWithin :
      check_spend_under svc db now policy buyer amount mint exclude ≡ ok tt
      → IsWithin svc db now policy buyer amount mint exclude
  unfolding new_price_cache
  check_spend_under-IsWithin h =
      let (value, total, cap, day, ev, ec, small, es, ed, fits) = check_spend_under-parts h in
      let (same, coherent, kept) =
        cached_usd_value-usd_value (new_price_cache policy) amount mint
          (new_price_cache-IsCoherent policy) in
      let priced : usd_value policy amount mint ≡ ok value = sym same ∙ ev in
      let (s, summed, e, exact) =
        sum_rows-exact policy (cached_usd_value (new_price_cache policy) amount mint).1 value total
          (committed_spend svc db now buyer policy.window exclude) coherent kept
          (usd_value-lt policy amount mint priced) es in
      record {
        value = value;
        committed = s;
        per_trade_cap = cap;
        per_day_cap = day;
        priced = priced;
        summed = summed;
        trade_cap = ec;
        day_cap = ed;
        inside_trade = small;
        inside_day = omega arith;
        exact = omega arith;
      }

-- A check that passes under a policy puts the trade inside both caps of the buyer.
pub check_spend-IsWithin :
    (svc : Service) (db : Db) (now : ℕ) (p : Policy) (buyer : String) (amount : Amount)
    (mint exclude : String)
    → svc.limits ≡ some p
    → check_spend svc db now buyer amount mint exclude ≡ ok tt
    → IsWithin svc db now (policy_at svc db p) buyer amount mint exclude
unfolding check_spend
check_spend-IsWithin svc db now p buyer amount mint exclude limited h =
    check_spend_under-IsWithin svc db now (policy_at svc db p) buyer amount mint exclude
      (under limited ∙ h)
  where
    under :
        svc.limits ≡ some p
        → check_spend_under svc db now (policy_at svc db p) buyer amount mint exclude
          ≡ check_spend svc db now buyer amount mint exclude
    under e = ground arith
