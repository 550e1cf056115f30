-- ===== src/Trade/Steps.antt =====
-- The service of internal/trade as a step relation: any call of any agent, the operator, a sweep or
-- the reconciler, at any time, and whatever the other components write to tables that are not of trades.
-- A call runs whole here; `Interleaved` splits calls into their transactions.
use vtessera.Common.{ℕ, ◌≡◌, String}
use vtessera.Money.{Amount}
use vtessera.Domain.{SettlementMode, Resolution}
use vtessera.Store.{Db}
use vtessera.Trade.LedgerApi.{LedgerApi}
use vtessera.Trade.Monad.{Service, World}
use vtessera.Trade.Service.Invariant.{IsKept}
use vtessera.Trade.Opening.{create}
use vtessera.Trade.Methods.{
  begin_negotiation, cancel, dispute, resolve, accept, raise_limits, get, admin_trade,
}
use vtessera.Trade.Receipts.{do_record, tessera}
use vtessera.Trade.Methods.Transitions.{
  create-Maintains, cancel-Maintains, dispute-Maintains, resolve-Maintains, accept-Maintains,
  raise_limits-Maintains, do_record-Maintains, tessera-Maintains, get-Maintains,
  admin_trade-Maintains, begin_negotiation-Maintains,
}
use vtessera.Trade.Settle.{settlement_request_for, build_settlement, confirm_settlement}
use vtessera.Trade.Settle.Writes.{
  settlement_request_for-Maintains, build_settlement-Maintains, confirm_settlement-Maintains,
}
use vtessera.Trade.Reconcile.{reconcile_outstanding}
use vtessera.Trade.Reconcile.Writes.{reconcile_outstanding-kept}
use vtessera.Trade.Sweep.{expire_accepted, expire_open}
use vtessera.Trade.Sweep.Expiry.{expire_accepted-kept, expire_open-kept}

module _ (api : LedgerApi) (svc : Service) where
  open api use {State}

  pub data Step : World State → World State → Type 0 where
    creates :
        (w : World State) (now : ℕ) (id actor offer_id : String) (mode : SettlementMode)
        (key : String)
        → Step w (create svc now id actor offer_id mode key w).1
    negotiates :
        (w : World State) (now : ℕ) (actor id : String)
        → Step w (begin_negotiation now actor id w).1
    accepts : (w : World State) (now : ℕ) (actor id : String) → Step w (accept now actor id w).1
    records :
        (w : World State) (now : ℕ) (actor id : String)
        → Step w (do_record api svc now actor id w).1
    cancels : (w : World State) (now : ℕ) (actor id : String) → Step w (cancel svc now actor id w).1
    disputes : (w : World State) (now : ℕ) (actor id : String) → Step w (dispute now actor id w).1
    resolves :
        (w : World State) (now : ℕ) (operator id : String) (outcome : Resolution)
        → Step w (resolve now operator id outcome w).1
    raises :
        (w : World State) (now : ℕ) (agent_id : String) (per_trade per_day : Amount)
        → Step w (raise_limits svc now agent_id per_trade per_day w).1
    reads : (w : World State) (actor id : String) → Step w (get actor id w).1
    reviews : (w : World State) (id : String) → Step w (admin_trade id w).1
    shows : (w : World State) (actor id : String) → Step w (tessera api actor id w).1
    sweeps_accepted : (w : World State) (now limit : ℕ) → Step w (expire_accepted svc now limit w).1
    sweeps_open : (w : World State) (now limit : ℕ) → Step w (expire_open svc now limit w).1
    asks : (w : World State) (actor id : String) → Step w (settlement_request_for svc actor id w).1
    builds :
        (w : World State) (now : ℕ) (id actor trade_id : String)
        → Step w (build_settlement svc now id actor trade_id w).1
    confirms :
        (w : World State) (now : ℕ) (actor id signature : String)
        → Step w (confirm_settlement api svc now actor id signature w).1
    reconciles :
        (w : World State) (now batch : ℕ) → Step w (reconcile_outstanding api svc now batch w).1
    elsewhere :
        (w v : World State)
        → v.db.trades ≡ w.db.trades
        → v.db.trade_events ≡ w.db.trade_events
        → v.db.settlement_requests ≡ w.db.settlement_requests
        → Step w v

  -- Any calls, in any order, one after the other.
  pub data Steps : World State → World State → Type 0 where
    none_yet : {w : World State} → Steps w w
    then_one : {u v w : World State} → Steps u v → Step v w → Steps u w

  module _ {P : Db → Type 0} (kept : IsKept P) where
    pub Step-kept : {w v : World State} → Step w v → P w.db → P v.db
    Step-kept (creates w now id actor offer_id mode key) p =
        (create-Maintains kept svc now id actor offer_id mode key).at w p
    Step-kept (negotiates w now actor id) p = (begin_negotiation-Maintains kept now actor id).at w p
    Step-kept (accepts w now actor id) p = (accept-Maintains kept now actor id).at w p
    Step-kept (records w now actor id) p = (do_record-Maintains api kept svc now actor id).at w p
    Step-kept (cancels w now actor id) p = (cancel-Maintains kept svc now actor id).at w p
    Step-kept (disputes w now actor id) p = (dispute-Maintains kept now actor id).at w p
    Step-kept (resolves w now operator id outcome) p =
        (resolve-Maintains kept now operator id outcome).at w p
    Step-kept (raises w now agent_id per_trade per_day) p =
        (raise_limits-Maintains kept svc now agent_id per_trade per_day).at w p
    Step-kept (reads w actor id) p = (get-Maintains kept actor id).at w p
    Step-kept (reviews w id) p = (admin_trade-Maintains kept id).at w p
    Step-kept (shows w actor id) p = (tessera-Maintains api kept actor id).at w p
    Step-kept (sweeps_accepted w now limit) p = expire_accepted-kept kept svc now limit w p
    Step-kept (sweeps_open w now limit) p = expire_open-kept kept svc now limit w p
    Step-kept (asks w actor id) p = (settlement_request_for-Maintains kept svc actor id).at w p
    Step-kept (builds w now id actor trade_id) p =
        (build_settlement-Maintains kept svc now id actor trade_id).at w p
    Step-kept (confirms w now actor id signature) p =
        (confirm_settlement-Maintains api kept svc now actor id signature).at w p
    Step-kept (reconciles w now batch) p = reconcile_outstanding-kept api kept svc now batch w p
    Step-kept (elsewhere w v t e r) p = kept.ignores w.db v.db t e r p

    pub Steps-kept : {w v : World State} → Steps w v → P w.db → P v.db
    Steps-kept none_yet p = p
    Steps-kept (then_one s t) p = Step-kept t (Steps-kept s p)
