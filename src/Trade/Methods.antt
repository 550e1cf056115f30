-- ===== src/Trade/Methods.antt =====
-- internal/trade/trade.go: the methods of the service that an agent or an operator calls.
pub mod Transitions
pub mod Access
pub mod Lapse
pub mod Raise
use vtessera.Common.{
  ℕ, Bool, true, false, not, ◌&&◌, ◌||◌, Option, none, some, List, [], ◌∷◌, ltb, length,
  if◌then◌else◌, String, str_eq, Result, ok, err, reject_if, ◌and_then◌,
}
use vtessera.Money.{Amount, is_zero, cmp}
use vtessera.Limits.{Policy, Limits, effective, check, is_less}
use vtessera.Domain.{
  Agent, Offer, Trade, TradeState, TradeEvent, TradeEventType, SettlementMode, Receipt, Resolution,
  AgentLimits, OfferDirection, offchain, onchain, mode_valid, mode_eq, is_active, is_open, is_bid,
  accepts_mode, state_eq, resolution_valid, offer_closed,
}
use vtessera.Store.{
  Db, get_agent, get_offer, get_trade_by_idempotency_key, create_trade, add_trade_acceptance,
  list_trade_events, set_offer_status, set_agent_limits,
}
use vtessera.Trade.LedgerApi.{LedgerApi, LedgerError}
use vtessera.Trade.Monad.{
  TradeError, Service, World, M, pure, throw, throw_if, gets, or_throw, lift, write, modify, ◌>>=◌,
  ◌>>◌, ledger, illegal_state, offer_unavailable, mode_not_accepted, agent_unavailable,
  no_card_published, not_expired_yet, settlement_live, invalid, caps_unconfigured, limits,
}
use vtessera.Trade.Spend.{check_spend, policy_at}
use vtessera.Trade.Service.{
  require_settlement, check_settleable, live_settlement, read_trade, party_trade, append_event,
  apply, apply_as, acceptance_deadline, default_mode,
}

-- `RaiseLimits`: a cap below the default, or none, asks for the default.
abbrev pub at_least : Amount → Amount → Amount
at_least default asked = if is_zero asked || is_less (cmp asked default) then default else asked

module _ {L : Type 0} where
  -- `transition`
  unfoldable pub transition : ℕ → String → String → TradeState → TradeState → M L Trade
  transition now actor trade_id from to = do
    tr ← party_trade actor trade_id
    if state_eq tr.state to
        then pure tr
        else if not (state_eq tr.state from)
        then throw illegal_state
        else apply now tr actor to

  unfoldable pub begin_negotiation : ℕ → String → String → M L Trade
  unfolding transition
  begin_negotiation now actor trade_id =
      transition now actor trade_id TradeState.proposed TradeState.negotiating

  -- The guard of `Cancel` on an accepted trade: its deadline has to be past.
  unfoldable pub may_lapse : Service → ℕ → Trade → M L (Unit {0})
  may_lapse svc now tr = if not (state_eq tr.state TradeState.accepted) then pure tt else do
    deadline ← gets (λ db. acceptance_deadline svc db tr)
    at ← or_throw deadline illegal_state
    throw_if (ltb now at) not_expired_yet

  -- `Cancel`, for a trade that is not cancelled yet.
  unfoldable pub cancel_open : Service → ℕ → String → String → Trade → M L Trade
  unfolding may_lapse
  cancel_open svc now actor trade_id tr = do
    live ← gets (λ db. live_settlement svc db now trade_id)
    throw_if live settlement_live
    may_lapse svc now tr
    apply now tr actor TradeState.cancelled

  unfoldable pub cancel : Service → ℕ → String → String → M L Trade
  unfolding cancel_open
  cancel svc now actor trade_id = do
    tr ← party_trade actor trade_id
    if state_eq tr.state TradeState.cancelled
        then pure tr
        else cancel_open svc now actor trade_id tr

  unfoldable pub dispute : ℕ → String → String → M L Trade
  dispute now actor trade_id = do
    tr ← party_trade actor trade_id
    if state_eq tr.state TradeState.disputed
        then pure tr
        else apply now tr actor TradeState.disputed

  unfoldable pub resolve : ℕ → String → String → Resolution → M L Trade
  resolve now operator trade_id outcome = do
    throw_if (not (resolution_valid outcome)) invalid
    tr ← read_trade trade_id
    if state_eq tr.state TradeState.resolved
        then pure tr
        else if not (state_eq tr.state TradeState.disputed)
        then throw illegal_state
        else apply_as now tr operator TradeState.resolved (some TradeEventType.resolved)

  -- `Accept`, for a trade under negotiation.
  unfoldable pub accept_open : ℕ → String → String → M L Trade
  accept_open now actor trade_id = do
    inserted ← modify (λ db. add_trade_acceptance db trade_id actor now)
    updated ← read_trade trade_id
    if not inserted || ltb (length updated.acceptances) 2
        then pure updated
        else apply now updated actor TradeState.accepted

  unfoldable pub accept : ℕ → String → String → M L Trade
  unfolding accept_open
  accept now actor trade_id = do
    tr ← party_trade actor trade_id
    if state_eq tr.state TradeState.accepted || state_eq tr.state TradeState.recorded
        then pure tr
        else if not (state_eq tr.state TradeState.negotiating)
        then throw illegal_state
        else accept_open now actor trade_id

  -- `Get`, `AdminTrade`: a trade with its events.
  unfoldable pub get : String → String → M L (Trade × List TradeEvent)
  get actor trade_id = do
    tr ← party_trade actor trade_id
    events ← gets (λ db. list_trade_events db trade_id)
    pure (tr, events)

  unfoldable pub admin_trade : String → M L (Trade × List TradeEvent)
  admin_trade trade_id = do
    tr ← read_trade trade_id
    events ← gets (λ db. list_trade_events db trade_id)
    pure (tr, events)

  unfoldable pub raise_under : Service → ℕ → Policy → String → Amount → Amount → M L Limits
  raise_under svc now p agent_id per_trade per_day = do
    let t = at_least p.per_trade per_trade
    let d = at_least p.per_day per_day
    lift (elim (check p t d) [ ok u ↦ ok u | err e ↦ err (limits e) ])
    modify (λ db. (
      tt,
      set_agent_limits db
          (record { agent_id = agent_id; per_trade_usd = t; per_day_usd = d; raised_at = now }),
    ))
    gets (λ db. effective (policy_at svc db p) agent_id)

  unfoldable pub raise_limits : Service → ℕ → String → Amount → Amount → M L Limits
  unfolding raise_under
  raise_limits svc now agent_id per_trade per_day = elim svc.limits [
    | none ↦ throw caps_unconfigured
    | some p ↦
        if svc.has_limits_store
        then raise_under svc now p agent_id per_trade per_day
        else throw caps_unconfigured
  ]
