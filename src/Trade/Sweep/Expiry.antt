-- ===== src/Trade/Sweep/Expiry.antt =====
-- The sweeps of internal/trade/trade.go by the writes that they make.
use vtessera.Common.{
  ℕ, suc, ◌-◌, refl, Bool, some, List, [], ◌∷◌, ltb, inl, inr, Result-cases, Bool-cases,
}
use vtessera.Domain.{Trade, TradeState, TradeEventType}
use vtessera.Store.{Db, accepted_before, open_trades_before}
use vtessera.Trade.Monad.{Service, World}
use vtessera.Trade.Service.{apply_as}
use vtessera.Trade.Service.Invariant.{IsKept, apply_as-Maintains}
use vtessera.Trade.Sweep.{expire_each, expire_accepted, expire_open, open_due, is_illegal_state}

module _ {L : Type 0} {P : Db → Type 0} (kept : IsKept P) where
  expire_each-kept :
      (due : World L → Trade → Bool) (now : ℕ) (trades : List Trade) (count : ℕ) (w : World L)
      → P w.db
      → P (expire_each due now trades count w).1.db
  unfolding expire_each
  expire_each-kept due now [] count w p = p
  expire_each-kept due now (tr ∷ trades) count w p = elim (Bool-cases (due w tr)) [
    | inr e ↦ rw (e, expire_each) (expire_each-kept due now trades count w p)
    | inl e ↦
        let (r, w') = apply_as now tr "" TradeState.cancelled (some TradeEventType.expired) w in
        let q : P w'.db =
          (apply_as-Maintains kept now tr "" TradeState.cancelled (some TradeEventType.expired)
              refl).at
            w p in
        elim (Result-cases r) [
          | inl (t, f) ↦ rw (e, f, expire_each) (expire_each-kept due now trades (suc count) w' q)
          | inr (x, f) ↦ elim (Bool-cases (is_illegal_state x)) [
            | inl g ↦ rw (e, f, g, expire_each) (expire_each-kept due now trades count w' q)
            | inr g ↦ rw (e, f, g, expire_each) q
          ]
        ]
  ]

  pub expire_accepted-kept :
      (svc : Service) (now limit : ℕ) (w : World L)
      → P w.db
      → P (expire_accepted svc now limit w).1.db
  unfolding expire_accepted
  expire_accepted-kept svc now limit w p = elim (Bool-cases (ltb 0 svc.accept_ttl)) [
    | inl e ↦
        rw (e, expire_accepted) (expire_each-kept _ now (accepted_before w.db now limit) 0 w p)
    | inr e ↦ rw (e, expire_accepted) p
  ]

  pub expire_open-kept :
      (svc : Service) (now limit : ℕ) (w : World L) → P w.db → P (expire_open svc now limit w).1.db
  unfolding expire_open
  expire_open-kept svc now limit w p = elim (Bool-cases (ltb 0 svc.open_ttl)) [
    | inl e ↦
        rw (e, expire_open)
          (expire_each-kept (open_due (now - svc.open_ttl)) now
            (open_trades_before w.db (now - svc.open_ttl) limit) 0 w p)
    | inr e ↦ rw (e, expire_open) p
  ]
