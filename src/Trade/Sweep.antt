-- ===== src/Trade/Sweep.antt =====
-- internal/trade/trade.go: the expiry of accepted trades that nobody commits and of open ones that
-- nobody answers. A sweep returns how many it cancelled, and the error that stopped it.
pub mod Expiry
pub mod Due
use vtessera.Common.{
  ℕ, suc, ◌-◌, Bool, true, false, not, ◌&&◌, ◌||◌, Option, none, some, List, [], ◌∷◌, ltb, leb,
  ◌==◌, if◌then◌else◌, String, Result, ok, err,
}
use vtessera.Domain.{Trade, TradeState, TradeEventType, state_eq}
use vtessera.Store.{Db, accepted_before, open_trades_before, is_unanswered}
use vtessera.Trade.Monad.{TradeError, Service, World, M, illegal_state}
use vtessera.Trade.Service.{apply_as, expired}

abbrev pub is_illegal_state : TradeError → Bool
is_illegal_state illegal_state = true
is_illegal_state _ = false

abbrev pub Sweep : Type 0 → Type 0
Sweep L = World L → (ℕ × Option TradeError) × World L

module _ {L : Type 0} where
  -- The loop of both sweeps; `due` is the test that a trade of the batch is made to pass again.
  unfoldable pub expire_each : (World L → Trade → Bool) → ℕ → List Trade → ℕ → Sweep L
  expire_each due now [] count w = ((count, none), w)
  expire_each due now (tr ∷ trades) count w =
      let skipped = expire_each due now trades count w in
      let (r, w') = apply_as now tr "" TradeState.cancelled (some TradeEventType.expired) w in
      let counted = expire_each due now trades (suc count) w' in
      let passed = expire_each due now trades count w' in
      if not (due w tr) then skipped else elim r [
        | ok t ↦ counted
        | err e ↦ if is_illegal_state e then passed else ((count, some e), w')
      ]

  abbrev pub accepted_due : Service → ℕ → World L → Trade → Bool
  accepted_due svc now w tr = expired svc w.db now tr && state_eq tr.state TradeState.accepted

  unfoldable pub expire_accepted : Service → ℕ → ℕ → Sweep L
  unfolding expire_each
  expire_accepted svc now limit w =
      let swept = expire_each (accepted_due svc now) now (accepted_before w.db now limit) 0 w in
      if ltb 0 svc.accept_ttl then swept else ((0, none), w)

  abbrev pub open_due : ℕ → World L → Trade → Bool
  open_due cutoff w tr = is_unanswered tr.state && leb tr.updated_at cutoff

  unfoldable pub expire_open : Service → ℕ → ℕ → Sweep L
  unfolding expire_each
  expire_open svc now limit w =
      let cutoff = now - svc.open_ttl in
      let swept = expire_each (open_due cutoff) now (open_trades_before w.db cutoff limit) 0 w in
      if ltb 0 svc.open_ttl then swept else ((0, none), w)
