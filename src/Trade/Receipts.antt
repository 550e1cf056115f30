-- ===== src/Trade/Receipts.antt =====
-- internal/trade/trade.go: the methods that read or write a receipt.
pub mod Commit
use vtessera.Common.{
  ℕ, Bool, true, false, not, ◌&&◌, ◌||◌, Option, none, some, List, [], ◌∷◌, ltb, length,
  if◌then◌else◌, String, str_eq, Result, ok, err, reject_if, ◌and_then◌,
}
use vtessera.Money.{Amount, is_zero, cmp}
use vtessera.Limits.{Policy, Limits, effective, check, is_less}
use vtessera.Domain.{
  Agent, Offer, Trade, TradeState, TradeEvent, TradeEventType, SettlementMode, Receipt, Resolution,
  AgentLimits, OfferDirection, offchain, onchain, mode_valid, mode_eq, is_active, is_open, is_bid,
  accepts_mode, state_eq, resolution_valid, offer_closed,
}
use vtessera.Store.{
  Db, get_agent, get_offer, get_trade_by_idempotency_key, create_trade, add_trade_acceptance,
  list_trade_events, set_offer_status, set_agent_limits,
}
use vtessera.Trade.LedgerApi.{LedgerApi, LedgerError}
use vtessera.Trade.Monad.{
  TradeError, Service, World, M, pure, throw, throw_if, gets, or_throw, lift, write, modify, ◌>>=◌,
  ◌>>◌, ledger, illegal_state, offer_unavailable, mode_not_accepted, agent_unavailable,
  no_card_published, not_expired_yet, settlement_live, invalid, caps_unconfigured, limits,
}
use vtessera.Trade.Spend.{check_spend, policy_at}
use vtessera.Trade.Service.{
  require_settlement, check_settleable, live_settlement, read_trade, party_trade, append_event,
  apply, apply_as, acceptance_deadline, default_mode,
}

-- The methods that write a receipt.
module _ (api : LedgerApi) where
  open api use {State, record_trade, receipt}

  unfoldable pub issue : ℕ → Trade → M State Receipt
  issue now tr w =
      let (r, s) = record_trade tr "" "" now w.ledger in
      elim r [
        | ok receipt ↦ (ok receipt, record w { ledger = s })
        | err e ↦ (err (ledger e), record w { ledger = s })
      ]

  -- `Receipt`
  unfoldable pub tessera_of : String → M State Receipt
  tessera_of trade_id w = elim (receipt trade_id w.ledger) [
    | none ↦ (err TradeError.not_found, w)
    | some r ↦ (ok r, w)
  ]

  unfoldable pub tessera : String → String → M State Receipt
  unfolding tessera_of
  tessera actor trade_id = do party_trade actor trade_id; tessera_of trade_id

  -- The end of `Record`: the receipt, then the offer.
  unfoldable pub conclude : ℕ → Trade → M State (Trade × Receipt)
  unfolding issue
  conclude now recorded = do
    r ← issue now recorded
    write (λ db. set_offer_status db recorded.offer_id offer_closed now)
    pure (recorded, r)

  -- The commit of `Record`: the caps, the state, then the end.
  unfoldable pub commit : Service → ℕ → String → Trade → M State (Trade × Receipt)
  unfolding conclude
  commit svc now actor tr = do
    allowed ← gets (λ db. check_spend svc db now tr.buyer_agent_id tr.amount tr.mint tr.id)
    lift allowed
    recorded ← apply now tr actor TradeState.recorded
    conclude now recorded

  -- `Record`
  unfoldable pub do_record : Service → ℕ → String → String → M State (Trade × Receipt)
  unfolding commit tessera_of
  do_record svc now actor trade_id = do
    tr ← party_trade actor trade_id
    if state_eq tr.state TradeState.recorded
        then (tessera_of trade_id >>= λ r. pure (tr, r))
        else commit svc now actor tr
